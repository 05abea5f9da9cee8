-- ===== src/Policy/Progress/Revoking.antt =====
-- Revoke and ExpireDue of server/internal/policy/engine.go get their work done when the database and
-- the gateway answer.
use yusui.Prelude.{ℕ, ◌≡◌, refl, sym, ap, ◌∙◌, false, ==_refl, ◌==◌, none, some, Option, String}
use yusui.Exec.{Result, ok, err, attempt, ◌>>=◌}
use yusui.Exec.Gives.{Gives, Gives-pure, Gives-imp, Gives-attempt, Gives-bind}
use yusui.Store.Rows.{YusuiTicket, YusuiPolicyBinding, Status, Actor, RuleId}
use yusui.Store.Conn.{Tables, Conn, Db, query, write}
use yusui.Store.Tickets.{find, update, set_tickets, set_ticket_status, close_ticket}
use yusui.Store.Lookup.{find-update_self, find-update_ne, find-id}
use yusui.Store.Catalog.{get_binding}
use yusui.Policy.World.{Engine, World, SessionCloser, on_db, on_gw, on_shell, clear_forward}
use yusui.Policy.Tx.{revoke_tx, close_tx}
use yusui.Policy.Engine.{revoke, close_sessions, revoke_rule_of, finish_revoke}
use yusui.Policy.Progress.{Up, Same, Row, write-Gives, transition-Gives}

-- The row is put into its status, whatever it was.
updated-Row :
    (before : Tables) (id : ℕ) (to : Status) (f : ℕ → YusuiTicket → YusuiTicket)
    → ((now : ℕ) (x : YusuiTicket) → (f now x).id ≡ x.id)
    → ((now : ℕ) (x : YusuiTicket) → (f now x).status ≡ to)
    → (t : YusuiTicket) (c : Conn) → Up c
    → find id c.tickets ≡ some t
    → Same before id c.tables
    → Gives
        (λ _ d. Up d × Row before id to d.tables)
        (write λ x. set_tickets x.tables (update t.id (f x.now) x.tickets))
        c
updated-Row before id to f keep sets t c up h others =
    Gives-imp
      (λ _ d w. (
        (λ n. ap (λ x. x.fails n) w ∙ up n),
        record {
          ticket = f c.now t;
          found = ap (λ x. find id x.tickets) w ∙ moved;
          has = sets c.now t;
          others = λ j other. ap (λ x. find j x.tickets) w ∙ (kept j other ∙ others j other);
        },
      ))
      (write-Gives _ c up)
  where
    same : t.id ≡ id
    same = find-id id c.tickets t h

    kept : (j : ℕ) → (id == j) ≡ false → find j (update t.id (f c.now) c.tickets) ≡ find j c.tickets
    kept j other =
        find-update_ne t.id j (f c.now) c.tickets (keep c.now)
          (λ e. let i : id ≡ j = sym same ∙ e in cc (==_refl id, other, i))

    moved : find id (update t.id (f c.now) c.tickets) ≡ some (f c.now t)
    moved =
        ap (λ k. find id (update k (f c.now) c.tickets)) same
        ∙ find-update_self id (f c.now) c.tickets t (keep c.now) h

module _ (before : Tables) (id : ℕ) (reason : String) (actor : Actor) where
  revoke_tx-Gives :
      (c : Conn)
      → Up c
      → Row before id Status.active c.tables
      → Gives (λ _ d. Up d × Row before id Status.revoking d.tables) (revoke_tx id reason actor) c
  unfolding revoke_tx set_ticket_status
  revoke_tx-Gives c up row =
      transition-Gives before id Status.active Status.revoking _ actor _ _
        (updated-Row before id Status.revoking _ (λ now x. refl) (λ now x. refl)) c up row

  close_tx-Gives :
      (c : Conn)
      → Up c
      → Row before id Status.revoking c.tables
      → Gives (λ _ d. Up d × Row before id Status.closed d.tables) (close_tx id reason actor) c
  unfolding close_tx close_ticket
  close_tx-Gives c up row =
      transition-Gives before id Status.revoking Status.closed _ actor _ _
        (updated-Row before id Status.closed _ (λ now x. refl) (λ now x. refl)) c up row

module _ {G S A : Type 0} where
  on_db-Gives :
      {Q : A → Conn → Type 0} {m : Db A} {w : World G S}
      → Gives Q m w.conn
      → Gives (λ a w'. Q a w'.conn) (on_db m) w
  unfolding on_db
  on_db-Gives h = record { value = h.value; result = h.result; has = h.has }

-- The agent confirms the removal of whatever rule it is asked to remove.
abbrev pub Answers : {G S : Type 0} → Engine G S → Type 0
Answers {G} e = (agent : ℕ) (rule : RuleId) (g : G) → (e.gateway.revoke_rule agent rule g).0 ≡ ok tt

module _ {G S : Type 0} (e : Engine G S) (before : Tables) (id : ℕ) (reason : String)
    (actor : Actor) where
  abbrev pub At : Status → World G S → Type 0
  At status w = Up w.conn × Row before id status w.conn.tables

  close_sessions-Gives :
      (ticket : ℕ) (o : Option (SessionCloser S)) (w : World G S)
      → e.closer ≡ o
      → At Status.revoking w
      → Gives (λ _ w'. At Status.revoking w') (close_sessions e ticket reason) w
  unfolding close_sessions on_shell
  close_sessions-Gives ticket none w h at = rw h (Gives-pure tt w at)
  close_sessions-Gives ticket (some c) w h at =
      rw h (Gives-bind (Gives-attempt _ w (Gives-pure tt _ at)))

  get_binding-At :
      (ticket : ℕ) (w : World G S)
      → At Status.revoking w
      → At Status.revoking (on_db (get_binding ticket) w).1
  unfolding on_db get_binding query
  get_binding-At ticket w at = rw (at.0 w.conn.calls) at

  revoke_rule-Gives :
      Answers e
      → (b : Result YusuiPolicyBinding) (w : World G S) → At Status.revoking w
      → ((revoke_rule_of e b w).0 ≡ ok tt) × At Status.revoking (revoke_rule_of e b w).1
  unfolding revoke_rule_of on_gw
  revoke_rule-Gives h (err x) w at = (refl, at)
  revoke_rule-Gives h (ok b) w at = (h b.agent_id b.agent_rule_id w.gw, at)

  finish_revoke-Gives :
      (r : Result (Unit {0})) (w : World G S)
      → r ≡ ok tt
      → At Status.revoking w
      → Gives (λ _ w'. At Status.closed w') (finish_revoke id reason actor r) w
  unfolding finish_revoke clear_forward
  finish_revoke-Gives (err x) w h at = cc h
  finish_revoke-Gives (ok u) w h at = Gives-bind (record {
    value = tt;
    result = refl;
    has = Gives-bind (
        Gives-imp (λ t w' k. Gives-pure tt w' k)
          (on_db-Gives (close_tx-Gives before id reason actor _ at.0 at.1)));
  })

  -- When the database answers and the gateway removes what it is asked to remove, the revoke of an
  -- active ticket succeeds and the ticket is closed, whatever becomes of its sessions.
  pub revoke-Gives :
      (w : World G S)
      → Answers e
      → Up w.conn
      → Row before id Status.active w.conn.tables
      → Gives (λ _ w'. At Status.closed w') (revoke e id reason actor) w
  unfolding revoke
  revoke-Gives w answers up row = Gives-bind (
      Gives-imp
        (λ t w1 at. Gives-bind (
          Gives-imp
            (λ _ w2 at2. Gives-bind (Gives-attempt _ w2 (bound _ _ (get_binding-At t.id w2 at2))))
            (close_sessions-Gives t.id e.closer w1 refl at)))
        (on_db-Gives (revoke_tx-Gives before id reason actor w.conn up row)))
    where
      bound :
          (b : Result YusuiPolicyBinding) (w3 : World G S)
          → At Status.revoking w3
          → Gives
              (λ _ w'. At Status.closed w')
              (attempt (revoke_rule_of e b) >>= finish_revoke id reason actor)
              w3
      bound b w3 at =
          let gone = revoke_rule-Gives answers b w3 at in
          Gives-bind (Gives-attempt _ w3 (finish_revoke-Gives _ _ gone.0 gone.1))
