-- ===== src/WebShell/Sessions.antt =====
-- What opening a session by server/internal/webshell/manager.go leaves behind.
use yusui.Prelude.{
  ℕ, ◌+◌, ◌≡◌, refl, sym, ap, ◌∙◌, true, some, List, [], ◌∷◌, String, if◌then◌else◌, ◌==◌, get, put,
  get-put, mem, Bool-cases, Option-cases, inl, inr, ==_refl,
}
use yusui.Exec.{Error, Result, ok, err, Exec, pure, lift, ◌>>=◌}
use yusui.Exec.After.{
  Holds, After, After-imp, After-all, After-bind, After-bind_any, After-both, After-pure,
  After-raise, After-ok, Relates, Relates-bind,
}
use yusui.Exec.Failed.{Failed, HoldsErr, Failed-any, Failed-err, Failed-bind}
use yusui.Store.Rows.{YusuiTicket, YusuiAsset, AuthKind}
use yusui.Prelude.Int.{ℤ}
use yusui.Store.Sessions.{SessionDb}
use yusui.Policy.World.{World, on_db, on_shell}
use yusui.Catalog.Secrets.{Sealer}
use yusui.WebShell.Manager.{
  Remote, Session, Shells, Target, on_sessions, hang_up, close_sess, close_client, cleaned, on_err,
  new_session, mint, dial_ssh, make_session, start_session, start_on, target_of, with_first,
  open_new, open_for_ticket, force_close_by_ticket, close, close_found,
}

-- The connections and the map are the same.
pub record Kept (a b : Shells) : Type 0 where
  pub live : b.live ≡ a.live
  pub channels : b.channels ≡ a.channels
  pub sessions : b.sessions ≡ a.sessions
  pub dialled : b.dialled ≡ a.dialled

Kept-refl : (a : Shells) → Kept a a
Kept-refl a = record { live = refl; channels = refl; sessions = refl; dialled = refl }

Kept-trans : (a b c : Shells) → Kept a b → Kept b c → Kept a c
Kept-trans a b c h k = record {
  live = k.live ∙ h.live;
  channels = k.channels ∙ h.channels;
  sessions = k.sessions ∙ h.sessions;
  dialled = k.dialled ∙ h.dialled;
}

infixl 5 ◌▸◌
◌▸◌ :
    {A B : Type 0} {m : Exec Shells A} {f : A → Exec Shells B}
    → Relates Kept m
    → ((a : A) → Relates Kept (f a))
    → Relates Kept (m >>= f)
h ▸ k = Relates-bind Kept-refl Kept-trans h k

lift-Kept : {A : Type 0} (r : Result A) → Relates Kept (lift {S = Shells} r)
lift-Kept r = record { at = λ st. Kept-refl st }

on_sessions-Kept : {A : Type 0} (m : Exec SessionDb A) → Relates Kept (on_sessions m)
on_sessions-Kept m = record {
  at = λ st. record { live = refl; channels = refl; sessions = refl; dialled = refl };
}

module _ (r : Remote) (ulid : ℕ → ℕ) (rules : List String) where
  mint-Kept : Relates Kept (mint r ulid rules)
  mint-Kept = record {
    at = λ st. record { live = refl; channels = refl; sessions = refl; dialled = refl };
  }

  make_session-After :
      (ticket : ℕ) (g : Target) (client : ℕ) (st : Shells)
      → After
          (λ s st'. (s.client ≡ client) × (s.ticket_id ≡ ticket))
          (make_session r ulid rules ticket g client)
          st
  unfolding make_session
  make_session-After ticket g client st = After-bind_any _ (λ _. After-bind_any _ (λ _.
      After-bind_any _ (λ _. After-bind_any _ (λ _. After-bind_any _ (λ _.
        After-bind_any _ (λ p.
          After-bind_any _ (λ row. After-bind_any _ (λ uri. After-pure _ _ (refl, refl)))))))))

  -- The connection and the entry that a started session adds.
  pub record Started (ticket : ℕ) (s : Session) (before after : Shells) : Type 0 where
    pub ticket_id : s.ticket_id ≡ ticket
    pub client : s.client ≡ before.dialled
    pub live : after.live ≡ s.client ∷ before.live
    pub sessions : after.sessions ≡ put s.ticket_id s before.sessions
    pub dialled : after.dialled ≡ before.dialled + 1

  Dialled : ℕ → Shells → Shells → Type 0
  Dialled n a b =
      (n ≡ a.dialled)
      × (b.live ≡ n ∷ a.live)
      × (b.sessions ≡ a.sessions)
      × (b.dialled ≡ a.dialled + 1)
      × (b.channels ≡ a.channels)

  dial_ssh-Dialled :
      (g : Target) (st : Shells) → After (λ n st'. Dialled n st st') (dial_ssh r ulid rules g) st
  unfolding dial_ssh Dialled
  dial_ssh-Dialled g st = record {
    holds = elim (Bool-cases (r.dial st.dialled g.host g.port g.ssh_user g.secret g.auth_kind)) [
      | inl up ↦ rw up (refl, refl, refl, refl, refl)
      | inr down ↦ rw down tt
    ];
  }

  -- A session whose connection was closed again has left the others as they were.
  Spared : Shells → Shells → Type 0
  Spared a b = (b.live ≡ a.live) × (b.channels ≡ a.channels) × (b.sessions ≡ a.sessions)

  dial_ssh-Spared :
      (g : Target) (st : Shells) → Failed (λ st'. Spared st st') (dial_ssh r ulid rules g) st
  unfolding dial_ssh Spared
  dial_ssh-Spared g st = record {
    holds = elim (Bool-cases (r.dial st.dialled g.host g.port g.ssh_user g.secret g.auth_kind)) [
      | inl up ↦ rw up tt
      | inr down ↦ rw down (refl, refl, refl)
    ];
  }

  -- While a session is made on the connection `n`, dialled in `a`.
  record Open (n : ℕ) (a b : Shells) : Type 0 where
    live : b.live ≡ n ∷ a.live
    channels : b.channels ≡ n ∷ a.channels
    sessions : b.sessions ≡ a.sessions
    dialled : b.dialled ≡ a.dialled + 1

  -- A step that goes on with the session open, or fails with everything closed again.
  record Sound (n : ℕ) (a : Shells) {A : Type 0} (m : Exec Shells A) (b : Shells) : Type 0 where
    goes : After (λ _ c. Open n a c) m b
    fails : Failed (λ c. Spared a c) m b

  infixl 5 ◌▹◌
  ◌▹◌ :
      {A B : Type 0} {n : ℕ} {a b : Shells} {m : Exec Shells A} {f : A → Exec Shells B}
      → Sound n a m b
      → ((x : A) (c : Shells) → Open n a c → Sound n a (f x) c)
      → Sound n a (m >>= f) b
  h ▹ k = record {
    goes = After-bind (After-imp (λ x c o. (k x c o).goes) h.goes);
    fails = Failed-bind h.fails (λ x e. (k x _ (After-ok h.goes x e)).fails);
  }

  Kept-Open : (n : ℕ) (a b c : Shells) → Open n a b → Kept b c → Open n a c
  Kept-Open n a b c h k = record {
    live = k.live ∙ h.live;
    channels = k.channels ∙ h.channels;
    sessions = k.sessions ∙ h.sessions;
    dialled = k.dialled ∙ h.dialled;
  }

  After-on_err :
      {A : Type 0} {Q : A → Shells → Type 0} (f : Shells → Shells) {m : Exec Shells A} {b : Shells}
      → After Q m b
      → After Q (on_err f m) b
  unfolding on_err
  After-on_err {A} {Q} f {m} {b} h = record { holds = kept (m b).0 (m b).1 h.holds }
    where
      kept :
          (res : Result A) (c : Shells)
          → Holds Q res c
          → Holds Q (cleaned f res c).0 (cleaned f res c).1
      kept (ok x) c h = h
      kept (err x) c h = tt

  Failed-on_err :
      {A : Type 0} {P : Shells → Type 0} (f : Shells → Shells) (m : Exec Shells A) (b : Shells)
      → P (f (m b).1)
      → Failed P (on_err f m) b
  unfolding on_err
  Failed-on_err {A} {P} f m b h = record { holds = kept (m b).0 (m b).1 h }
    where
      kept :
          (res : Result A) (c : Shells)
          → P (f c)
          → HoldsErr P (cleaned f res c).0 (cleaned f res c).1
      kept (ok x) c h = tt
      kept (err x) c h = h

  -- Closing both.
  closed_both : (n : ℕ) (a c : Shells) → Open n a c → Spared a (close_client n (close_sess n c))
  unfolding Spared hang_up
  closed_both n a c h = (
    ap (hang_up n) h.live ∙ rw (==_refl n) refl,
    ap (hang_up n) h.channels ∙ rw (==_refl n) refl,
    h.sessions,
  )

  Kept-Sound :
      {A : Type 0} (n : ℕ) (a : Shells) (m : Exec Shells A) (b : Shells)
      → Relates Kept m
      → Open n a b
      → Sound n a (on_err (λ st. close_client n (close_sess n st)) m) b
  Kept-Sound n a m b k h = record {
    goes = After-on_err _ (After-all m b (λ _. Kept-Open n a b _ h (k.at b)));
    fails = Failed-on_err _ m b (closed_both n a _ (Kept-Open n a b _ h (k.at b)));
  }

  new_session-Sound :
      (n : ℕ) (a b : Shells)
      → Dialled n a b
      → Sound n a (on_err (λ st. close_client n st) (new_session r ulid rules n)) b
  unfolding new_session on_err Dialled Spared hang_up
  new_session-Sound n a b h = elim (Bool-cases (r.new_session n)) [
    | inl up ↦ record {
      goes = record {
        holds =
            rw up (record {
              live = h.1;
              channels = ap (λ l. n ∷ l) h.4;
              sessions = h.2;
              dialled = h.3;
            });
      };
      fails = record { holds = rw up tt };
    }
    | inr down ↦ record {
      goes = record { holds = rw down tt };
      fails = record { holds = rw down (ap (hang_up n) h.1 ∙ rw (==_refl n) refl, h.4, h.2) };
    }
  ]

  mint-Sound : (n : ℕ) (a b : Shells) → Open n a b → Sound n a (mint r ulid rules) b
  mint-Sound n a b h = record {
    goes = After-all _ b (λ _. Kept-Open n a b _ h (mint-Kept.at b));
    fails = record { holds = tt };
  }

  pure-Sound :
      {A : Type 0} (n : ℕ) (a : Shells) (x : A) (b : Shells) → Open n a b → Sound n a (pure x) b
  pure-Sound n a x b h = record { goes = After-pure _ _ h; fails = record { holds = tt } }

  make_session-Sound :
      (ticket : ℕ) (g : Target) (n : ℕ) (a b : Shells)
      → Dialled n a b
      → Sound n a (make_session r ulid rules ticket g n) b
  unfolding make_session
  make_session-Sound ticket g n a b h = new_session-Sound n a b h ▹ λ _ b1 h1.
      Kept-Sound n a _ b1 (lift-Kept _) h1 ▹ λ _ b2 h2.
      Kept-Sound n a _ b2 (lift-Kept _) h2 ▹ λ _ b3 h3.
      Kept-Sound n a _ b3 (lift-Kept _) h3 ▹ λ _ b4 h4.
      Kept-Sound n a _ b4 (lift-Kept _) h4 ▹ λ _ b5 h5. mint-Sound n a b5 h5 ▹ λ p b6 h6.
      Kept-Sound n a _ b6 (on_sessions-Kept _) h6 ▹ λ row b7 h7.
      Kept-Sound n a _ b7 (lift-Kept _) h7 ▹ λ uri b8 h8. pure-Sound n a _ b8 h8

  start_session-Spared :
      (ticket : ℕ) (g : Target) (st : Shells)
      → Failed (λ st'. Spared st st') (start_session r ulid rules ticket g) st
  unfolding start_session
  start_session-Spared ticket g st = Failed-bind (dial_ssh-Spared g st) (λ n up.
      Failed-bind (make_session-Sound ticket g n st _ (After-ok (dial_ssh-Dialled g st) n up)).fails
        (λ s made. Failed-bind (record { holds = tt }) (λ _ _. record { holds = tt })))

  make_session-Made :
      (ticket : ℕ) (g : Target) (n : ℕ) (a b : Shells)
      → Dialled n a b
      → After
          (λ s c. ((s.client ≡ n) × (s.ticket_id ≡ ticket)) × Open n a c)
          (make_session r ulid rules ticket g n)
          b
  make_session-Made ticket g n a b h =
      After-both {Q = λ _ c. Open n a c} (make_session-After ticket g n b)
        (make_session-Sound ticket g n a b h).goes

  start_session-Started :
      (ticket : ℕ) (g : Target) (st : Shells)
      → After (λ s st'. Started ticket s st st') (start_session r ulid rules ticket g) st
  unfolding start_session Dialled
  start_session-Started ticket g st = After-bind (
      After-imp
        (λ n b d. After-bind (
          After-imp
            (λ s c h. After-bind_any _ (λ _. record {
              holds = record {
                ticket_id = h.0.1;
                client = h.0.0 ∙ d.0;
                live = h.1.live ∙ ap (λ k. k ∷ st.live) (sym h.0.0);
                sessions = ap (put s.ticket_id s) h.1.sessions;
                dialled = h.1.dialled;
              };
            }))
            (make_session-Made ticket g n st b d)))
        (dial_ssh-Dialled g st))

module _ {G A : Type 0} where
  on_shell-HoldsErr :
      (P : Shells → Type 0) (w : World G Shells) (res : Result A) (st : Shells)
      → HoldsErr P res st
      → HoldsErr (λ w'. P w'.shell) res (record w { shell = st })
  on_shell-HoldsErr P w (ok a) st h = tt
  on_shell-HoldsErr P w (err x) st h = h

  on_shell-Failed :
      (P : Shells → Type 0) (m : Exec Shells A) (w : World G Shells)
      → Failed P m w.shell
      → Failed (λ w'. P w'.shell) (on_shell m) w
  unfolding on_shell
  on_shell-Failed P m w h = record {
    holds = on_shell-HoldsErr P w (m w.shell).0 (m w.shell).1 h.holds;
  }

  on_shell-Holds :
      (Q : A → Shells → Type 0) (w : World G Shells) (res : Result A) (st : Shells)
      → Holds Q res st
      → Holds (λ a w'. Q a w'.shell) res (record w { shell = st })
  on_shell-Holds Q w (ok a) st h = h
  on_shell-Holds Q w (err x) st h = tt

  on_shell-After :
      (Q : A → Shells → Type 0) (m : Exec Shells A) (w : World G Shells)
      → After Q m w.shell
      → After (λ a w'. Q a w'.shell) (on_shell m) w
  unfolding on_shell
  on_shell-After Q m w h = record { holds = on_shell-Holds Q w (m w.shell).0 (m w.shell).1 h.holds }

with_first-Failed :
    {A S B : Type 0} (P : S → Type 0) (xs : List A) (f : A → Exec S B) (s : S)
    → P s
    → ((a : A) → Failed P (f a) s)
    → Failed P (with_first xs f) s
with_first-Failed P [] f s here h = record { holds = here }
with_first-Failed P (x ∷ xs) f s here h = h x

with_first-After :
    {A S B : Type 0} (Q : B → S → Type 0) (xs : List A) (f : A → Exec S B) (s : S)
    → ((a : A) → After Q (f a) s)
    → After Q (with_first xs f) s
with_first-After Q [] f s h = After-raise _ _
with_first-After Q (x ∷ xs) f s h = h x

module _ {G : Type 0} (sealer : Sealer) (r : Remote) (ulid : ℕ → ℕ) (rules : List String)
    (t : YusuiTicket) where
  start_on-Spared :
      (asset_id : ℕ) (asset : YusuiAsset) (agent : ℕ) (port : ℤ) (cred : String × List ℕ × AuthKind)
      (w : World G Shells)
      → Failed
          (λ w'. Spared r ulid rules w.shell w'.shell)
          (start_on sealer r ulid rules t asset_id asset agent port cred)
          w
  start_on-Spared asset_id asset agent port cred w = record {
    holds =
        (on_shell-Failed (Spared r ulid rules w.shell) _ w (
          start_session-Spared r ulid rules t.id
            (target_of sealer r ulid rules w t asset_id asset agent port cred) w.shell)).holds;
  }

  start_on-Started :
      (asset_id : ℕ) (asset : YusuiAsset) (agent : ℕ) (port : ℤ) (cred : String × List ℕ × AuthKind)
      (w : World G Shells)
      → After
          (λ s w'. Started r ulid rules t.id s w.shell w'.shell)
          (start_on sealer r ulid rules t asset_id asset agent port cred)
          w
  start_on-Started asset_id asset agent port cred w = record {
    holds =
        (on_shell-After (λ s st'. Started r ulid rules t.id s w.shell st') _ w
          (start_session-Started r ulid rules t.id
            (target_of sealer r ulid rules w t asset_id asset agent port cred) w.shell)).holds;
  }

  open_new-Spared :
      (w : World G Shells)
      → Failed (λ w'. Spared r ulid rules w.shell w'.shell) (open_new sealer r ulid rules t) w
  unfolding open_new Spared on_db
  open_new-Spared w =
      with_first-Failed _ t.frozen_asset_ids _ w (refl, refl, refl)
        (λ asset_id.
          with_first-Failed _ t.ports _ w (refl, refl, refl)
            (λ port. Failed-bind (Failed-any _ w (refl, refl, refl)) (λ asset _.
              Failed-bind (Failed-any _ _ (refl, refl, refl)) (λ agent _.
                Failed-bind (Failed-any _ _ (refl, refl, refl))
                  (λ cred _. start_on-Spared asset_id asset agent.id port cred _)))))

  -- Opening a session that fails, wherever it does, leaves the open connections, the open SSH
  -- sessions and the map of sessions as they were: what it had opened it has closed.
  pub open_for_ticket-Spared :
      (w : World G Shells) (x : Error)
      → (open_for_ticket sealer r ulid rules t w).0 ≡ err x
      → ((open_for_ticket sealer r ulid rules t w).1.shell.live ≡ w.shell.live)
        × ((open_for_ticket sealer r ulid rules t w).1.shell.channels ≡ w.shell.channels)
        × ((open_for_ticket sealer r ulid rules t w).1.shell.sessions ≡ w.shell.sessions)
  unfolding open_for_ticket Spared
  open_for_ticket-Spared w x = elim (Option-cases (get t.id w.shell.sessions)) [
    | inl nobody ↦ rw nobody (λ e. Failed-err x (open_new-Spared w) e)
    | inr (s, there) ↦ rw there (λ e. cc e)
  ]

  open_new-Started :
      (w : World G Shells)
      → After
          (λ s w'. Started r ulid rules t.id s w.shell w'.shell)
          (open_new sealer r ulid rules t)
          w
  unfolding open_new on_db
  open_new-Started w = with_first-After _ t.frozen_asset_ids _ w (λ asset_id.
      with_first-After _ t.ports _ w (λ port. After-bind_any _ (λ asset. After-bind_any _ (λ agent.
        After-bind_any _ (λ cred. start_on-Started asset_id asset agent.id port cred _)))))

  abbrev pub opened : World G Shells → World G Shells
  opened w = (open_new sealer r ulid rules t w).1

  -- Two callers of OpenForTicket who both find no session each open one. The second replaces the first
  -- in the map; closing the sessions of the ticket then closes the second, and the connection of the
  -- first stays open.
  pub open_new-open_new :
      (w : World G Shells) (reason : String) (s s' : Session)
      → (open_new sealer r ulid rules t w).0 ≡ ok s
      → (open_new sealer r ulid rules t (opened w)).0 ≡ ok s'
      → (get t.id (opened (opened w)).shell.sessions ≡ some s')
        × ((force_close_by_ticket t.id reason (opened (opened w)).shell).1.live
            ≡ s.client ∷ w.shell.live)
  unfolding force_close_by_ticket close hang_up
  open_new-open_new w reason s s' h h' =
      let a = After-ok (open_new-Started w) s h in
      let b = After-ok (open_new-Started (opened w)) s' h' in
      let there : get t.id (opened (opened w)).shell.sessions ≡ some s' =
        ap (get t.id) b.sessions
        ∙ get-put t.id s'.ticket_id s' _
        ∙ ap (λ n. if n == t.id then some s' else get t.id (opened w).shell.sessions) b.ticket_id
        ∙ rw (==_refl t.id) refl in
      let here : mem s'.client (opened (opened w)).shell.live ≡ true =
        ap (mem s'.client) b.live ∙ rw (==_refl s'.client) refl in
      (
        there,
        ap (λ o. (close_found o reason (opened (opened w)).shell).live) there
            ∙ rw here refl
            ∙ ap (hang_up s'.client) b.live
            ∙ rw (==_refl s'.client) refl
            ∙ a.live,
      )
