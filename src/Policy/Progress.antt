-- ===== src/Policy/Progress.antt =====
-- What server/internal/policy/engine.go is bound to get done when the database and the gateway answer.
pub mod Revoking
pub mod Distinct
pub mod Expiring
use yusui.Prelude.{
  ℕ, ◌≡◌, refl, sym, ap, ◌∙◌, Bool, true, false, none, some, Option, List, ◌∷◌, String, ==_refl,
  if◌then◌else◌, ◌==◌,
}
use yusui.Exec.{Result, ok, err, Exec, pure, attempt, ◌>>=◌}
use yusui.Exec.Gives.{Gives, Gives-pure, Gives-imp, Gives-attempt, Gives-bind}
use yusui.Store.Rows.{
  YusuiTicket, YusuiPolicyBinding, Status, Actor, Action, Payload, Target, RuleId,
}
use yusui.Store.Conn.{
  Tables, Conn, Db, query, counted, read, write, in_tx, bracketed, settle, no_change,
}
use yusui.Store.Tickets.{
  find, update, get_ticket_for_update, get_ticket_by_id, set_tickets, set_ticket_status,
  close_ticket,
}
use yusui.Store.Lookup.{find-update_self, find-id}
use yusui.Store.Catalog.{insert_audit, audit_row, get_binding}
use yusui.Policy.World.{Engine, World, on_db, on_gw, on_shell, clear_forward}
use yusui.Policy.Transition.{transition, guarded, lock_ticket, name_missing, same_status, audit}
use yusui.Policy.Tx.{revoke_tx, close_tx}
use yusui.Policy.Engine.{revoke, close_sessions, revoke_rule_of, finish_revoke}

-- The database answers from here on.
abbrev pub Up : Conn → Type 0
Up c = (n : ℕ) → c.fails n ≡ false

-- No other ticket is other than before.
abbrev pub Same : Tables → ℕ → Tables → Type 0
Same before id d = (j : ℕ) → (id == j) ≡ false → find j d.tickets ≡ find j before.tickets

-- The ticket stands in the table with this status, and the others stand as before.
pub record Row (before : Tables) (id : ℕ) (status : Status) (d : Tables) : Type 0 where
  pub ticket : YusuiTicket
  pub found : find id d.tickets ≡ some ticket
  pub has : ticket.status ≡ status
  pub others : Same before id d

module _ {A : Type 0} where
  pub Gives-query :
      {Q : A → Conn → Type 0} {stmt : Db A} {c : Conn}
      → Up c
      → Gives Q stmt (counted c)
      → Gives Q (query stmt) c
  unfolding query
  Gives-query {Q} {stmt} {c} up h = record {
    value = h.value;
    result = rw (up c.calls) h.result;
    has = rw (up c.calls) h.has;
  }

module _ {A : Type 0} where
  settle-Gives :
      (Q : A → Conn → Type 0) (before : Tables) (r : Result A) (d : Conn) (a : A)
      → r ≡ ok a
      → Q a d
      → ((settle before r d).0 ≡ ok a) × Q a (settle before r d).1
  settle-Gives Q before (ok b) d a e h = (e, h)
  settle-Gives Q before (err x) d a e h = cc e

  Gives-in_tx :
      (Q : A → Tables → Type 0) {body : Db A} {c : Conn}
      → Up c
      → Gives (λ a d. Up d × Q a d.tables) body (counted c)
      → Gives (λ a d. Up d × Q a d.tables) (in_tx body) c
  unfolding in_tx bracketed
  Gives-in_tx Q {body} {c} up h =
      let all : Gives (λ a d. Up d × Q a d.tables) (bracketed body) c = Gives-bind (
        Gives-bind (
          Gives-query up (
            Gives-pure tt _ (
              Gives-imp (λ a d k. Gives-bind (Gives-query k.0 (Gives-pure tt _ (Gives-pure a _ k))))
                h)))) in
      let kept =
        settle-Gives (λ a d. Up d × Q a d.tables) c.tables (bracketed body c).0 (bracketed body c).1
          all.value all.result all.has in
      record { value = all.value; result = kept.0; has = kept.1 }

-- A statement that writes rows.
abbrev Wrote : (Conn → Tables) → Conn → Conn → Type 0
Wrote f c d = d ≡ record (counted c) { tables = f (counted c) }

write-Gives : (f : Conn → Tables) (c : Conn) → Up c → Gives (λ _ d. Wrote f c d) (write f) c
write-Gives f c up = Gives-query up (record { value = tt; result = refl; has = refl })

lock-Gives :
    (id : ℕ) (t : YusuiTicket) (c : Conn)
    → Up c
    → find id c.tickets ≡ some t
    → Gives (λ u d. (u ≡ t) × (d ≡ counted c)) (lock_ticket id) c
unfolding lock_ticket get_ticket_for_update query
lock-Gives id t c up h = record {
  value = t;
  result = rw (up c.calls, h) refl;
  has = (refl, rw (up c.calls) refl);
}

get-Gives :
    (id : ℕ) (t : YusuiTicket) (c : Conn)
    → Up c
    → find id c.tickets ≡ some t
    → Gives (λ u d. (u ≡ t) × (d ≡ counted c)) (get_ticket_by_id id) c
unfolding get_ticket_by_id query
get-Gives id t c up h = record {
  value = t;
  result = rw (up c.calls, h) refl;
  has = (refl, rw (up c.calls) refl);
}

eq_same_status : (s t : Status) → s ≡ t → same_status s t ≡ true
unfolding same_status
eq_same_status s t h = ap (λ x. same_status x t) h ∙ ==_refl _

-- A change of status, for a `mutate` that puts the row into its new status.
module _ (before : Tables) (id : ℕ) (from to : Status) (action : Action) (actor : Actor)
    (payload : Payload) (mutate : YusuiTicket → Db (Unit {0}))
    (moves : (t : YusuiTicket) (c : Conn)
      → Up c
      → find id c.tickets ≡ some t
      → Same before id c.tables
      → Gives (λ _ d. Up d × Row before id to d.tables) (mutate t) c) where
  written :
      (t : YusuiTicket) (c d : Conn)
      → Up c × Row before id to c.tables
      → Wrote
          (λ x. record (x.tables) {
            audit_logs =
                audit_row x.now actor action (Target.ticket t.pub_id) payload ∷ x.audit_logs;
          })
          c
          d
      → Gives (λ _ e. Up e × Row before id to e.tables) (get_ticket_by_id id) d
  written t c d h w =
      let up : Up d = λ n. ap (λ x. x.fails n) w ∙ h.0 n in
      let there : find id d.tickets ≡ some h.1.ticket = ap (λ x. find id x.tickets) w ∙ h.1.found in
      Gives-imp
        (λ u e k. (
          (λ n. ap (λ x. x.fails n) k.1 ∙ up n),
          record {
            ticket = h.1.ticket;
            found = ap (λ x. find id x.tickets) k.1 ∙ there;
            has = h.1.has;
            others = λ j other.
                ap (λ x. find j x.tickets) k.1 ∙ ap (λ x. find j x.tickets) w ∙ h.1.others j other;
          },
        ))
        (get-Gives id h.1.ticket d up there)

  guarded-Gives :
      (t : YusuiTicket) (c : Conn)
      → Up c
      → find id c.tickets ≡ some t
      → t.status ≡ from
      → Same before id c.tables
      → Gives
          (λ _ d. Up d × Row before id to d.tables)
          (guarded id from action actor payload mutate t)
          c
  unfolding guarded audit insert_audit
  guarded-Gives t c up h s same = rw (eq_same_status t.status from s) (
      Gives-bind (
        Gives-bind (
          Gives-imp (λ _ d k. Gives-imp (λ _ e w. written t d e k w) (write-Gives _ d k.0))
            (moves t c up h same))))

  pub transition-Gives :
      (c : Conn)
      → Up c
      → Row before id from c.tables
      → Gives
          (λ _ d. Up d × Row before id to d.tables)
          (transition id from action actor payload mutate)
          c
  unfolding transition
  transition-Gives c up row =
      Gives-in_tx (λ _ d. Row before id to d) up
        (Gives-bind (
          Gives-imp (λ t d k. locked t d k.0 k.1)
            (lock-Gives id row.ticket (counted c) (λ n. up n) row.found)))
    where
      locked :
          (t : YusuiTicket) (d : Conn)
          → t ≡ row.ticket
          → d ≡ counted (counted c)
          → Gives
              (λ _ d. Up d × Row before id to d.tables)
              (guarded id from action actor payload mutate t)
              d
      locked t d e k =
          guarded-Gives t d (λ n. ap (λ x. x.fails n) k ∙ up n)
            (ap (λ x. find id x.tickets) k ∙ (row.found ∙ ap some (sym e)))
            (ap (λ x. x.status) e ∙ row.has)
            (λ j other. ap (λ x. find j x.tickets) k ∙ row.others j other)
