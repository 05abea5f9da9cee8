-- ===== src/WebShell/Revoked.antt =====
-- Revoke of server/internal/policy/engine.go with the manager of server/internal/webshell/manager.go
-- as its session closer.
use yusui.Prelude.{
  ℕ, ◌≡◌, refl, sym, ap, subst, ◌∙◌, true, none, some, String, get, delete, get-delete, mem,
  ==_refl,
}
use yusui.Exec.{Result, ok, err, Exec, pure, ◌>>=◌}
use yusui.Exec.After.{
  After, After-imp, After-all, After-bind, After-both, After-ok, Relates, Relates-bind,
  Relates-attempt,
}
use yusui.Store.Rows.{YusuiPolicyBinding, Actor}
use yusui.Store.Conn.{Db}
use yusui.Store.Lookup.{find-id}
use yusui.Store.Catalog.{get_binding}
use yusui.Policy.World.{Engine, World, on_db, on_gw, on_shell, clear_forward}
use yusui.Policy.Changes.{revoke_tx-After}
use yusui.Policy.Outcomes.{on_db-After}
use yusui.Policy.Tx.{revoke_tx}
use yusui.Policy.Engine.{close_sessions, revoke_rule_of, finish_revoke, revoke}
use yusui.WebShell.Manager.{Session, Shells, manager, force_close_by_ticket, close, hang_up}

-- The shells are left alone.
abbrev Apart : {G A : Type 0} → Exec (World G Shells) A → Type 0
Apart m = Relates (λ v w. w.shell ≡ v.shell) m

module _ {G : Type 0} where
  infixl 5 ◌▸◌
  ◌▸◌ :
      {A B : Type 0} {m : Exec (World G Shells) A} {f : A → Exec (World G Shells) B}
      → Apart m
      → ((a : A) → Apart (f a))
      → Apart (m >>= f)
  h ▸ k = Relates-bind (λ w. refl) (λ u v w p q. q ∙ p) h k

  on_db-Apart : {A : Type 0} (m : Db A) → Apart {G = G} (on_db m)
  unfolding on_db
  on_db-Apart m = record { at = λ w. refl }

  on_gw-Apart : {A : Type 0} (m : Exec G A) → Apart {G = G} (on_gw m)
  unfolding on_gw
  on_gw-Apart m = record { at = λ w. refl }

  pure-Apart : {A : Type 0} (a : A) → Apart {G = G} (pure a)
  pure-Apart a = record { at = λ w. refl }

  clear_forward-Apart : (id : ℕ) → Apart {G = G} (clear_forward id)
  unfolding clear_forward
  clear_forward-Apart id = record { at = λ w. refl }

  finish_revoke-Apart :
      (id : ℕ) (reason : String) (actor : Actor) (r : Result (Unit {0}))
      → Apart {G = G} (finish_revoke id reason actor r)
  unfolding finish_revoke
  finish_revoke-Apart id reason actor (ok u) =
      clear_forward-Apart id ▸ λ _. on_db-Apart _ ▸ λ _. pure-Apart tt
  finish_revoke-Apart id reason actor (err x) =
      Relates-attempt (on_db-Apart _) ▸ λ _. record { at = λ w. refl }

-- The session of a ticket as the manager has it, on an open connection.
pub record Attached (id : ℕ) (s : Session) (st : Shells) : Type 0 where
  pub found : get id st.sessions ≡ some s
  pub ticket_id : s.ticket_id ≡ id
  pub live : mem s.client st.live ≡ true

-- The session gone, its connection hung up.
pub record Severed (id : ℕ) (s : Session) (before after : Shells) : Type 0 where
  pub gone : get id after.sessions ≡ none
  pub hung_up : after.live ≡ hang_up s.client before.live

module _ {G : Type 0} (e : Engine G Shells) (id : ℕ) (s : Session) where
  force_close-Severed :
      (st : Shells) (reason : String)
      → Attached id s st
      → Severed id s st (force_close_by_ticket id reason st).1
  unfolding force_close_by_ticket close
  force_close-Severed st reason a =
      rw (a.found, a.live)
        (record {
          gone =
              ap (λ n. get id (delete n st.sessions)) a.ticket_id
              ∙ get-delete id id st.sessions
              ∙ rw (==_refl id) refl;
          hung_up = refl;
        })

  revoke_rule_of-Apart : (b : Result YusuiPolicyBinding) → Apart (revoke_rule_of e b)
  unfolding revoke_rule_of
  revoke_rule_of-Apart (ok b) = on_gw-Apart _
  revoke_rule_of-Apart (err x) = pure-Apart tt

  close_sessions-Severed :
      (reason : String) (w : World G Shells)
      → e.closer ≡ some manager
      → Attached id s w.shell
      → Severed id s w.shell (close_sessions e id reason w).1.shell
  unfolding close_sessions on_shell ◌>>=◌
  close_sessions-Severed reason w on a = rw on (force_close-Severed w.shell _ a)

  revoke_tx-id :
      (reason : String) (actor : Actor) (w : World G Shells)
      → After (λ t v. t.id ≡ id) (on_db (revoke_tx id reason actor)) w
  revoke_tx-id reason actor w =
      After-imp (λ t v h. find-id id v.conn.tickets t h.0.result)
        (on_db-After (revoke_tx-After id actor w.conn reason))

  at_id :
      (n : ℕ) (reason : String) (v w : World G Shells)
      → e.closer ≡ some manager
      → Attached id s w.shell
      → n ≡ id
      → v.shell ≡ w.shell
      → Severed id s w.shell (close_sessions e n reason v).1.shell
  at_id n reason v w on a same shell =
      subst (λ n. Severed id s w.shell (close_sessions e n reason v).1.shell) (sym same)
        (subst (λ st. Severed id s st (close_sessions e id reason v).1.shell) shell
          (close_sessions-Severed reason v on (subst (Attached id s) (sym shell) a)))

  revoke-After :
      (reason : String) (actor : Actor) (w : World G Shells)
      → e.closer ≡ some manager
      → Attached id s w.shell
      → After (λ _ w'. Severed id s w.shell w'.shell) (revoke e id reason actor) w
  unfolding revoke
  revoke-After reason actor w on a = After-bind (
      After-imp
        (λ t v h. After-bind (
          After-all _ v (λ _. After-all _ _ (λ _.
            subst (Severed id s w.shell)
              (sym (
                (Relates-attempt (on_db-Apart (get_binding t.id)) ▸ λ b.
                Relates-attempt (revoke_rule_of-Apart b) ▸ λ gone.
                finish_revoke-Apart id reason actor gone).at
                  (close_sessions e t.id reason v).1))
              (at_id t.id reason v w on a h.0 h.1)))))
        (After-both {P = λ t v. t.id ≡ id} {Q = λ _ v. v.shell ≡ w.shell}
          (revoke_tx-id reason actor w)
          (After-all _ w (λ _. (on_db-Apart (revoke_tx id reason actor)).at w))))

  -- A revoke that succeeds has ended the session of its ticket: the manager has none for it, and the
  -- connection is hung up, when the session was in the map on an open connection.
  pub revoke-Severed :
      (reason : String) (actor : Actor) (w : World G Shells)
      → e.closer ≡ some manager
      → Attached id s w.shell
      → (revoke e id reason actor w).0 ≡ ok tt
      → Severed id s w.shell (revoke e id reason actor w).1.shell
  revoke-Severed reason actor w on a h = After-ok (revoke-After reason actor w on a) tt h
