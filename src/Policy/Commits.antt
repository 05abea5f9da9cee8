-- ===== src/Policy/Commits.antt =====
-- Each transaction of the engine that succeeds is one step of the workflow, whichever of its
-- database calls could have failed.
use yusui.Prelude.{ℕ, ◌≡◌, refl, Option, none, some, ◌∷◌}
use yusui.Exec.{Error, Result, ok, err}
use yusui.Exec.After.{After, Holds, After-imp, After-bind, After-raise, After-if}
use yusui.Store.Rows.{YusuiTicket, Status, Actor, Action, Payload, Target}
use yusui.Store.Conn.{Tables, Conn, Db, counted, read, one}
use yusui.Store.Laws.{After-query, After-in_tx}
use yusui.Store.Tickets.{find, update, get_ticket_for_update, get_ticket_by_id}
use yusui.Store.Catalog.{audit_row, insert_audit}
use yusui.Policy.Transition.{
  eq_of_same_status, lock_ticket, audit, guarded, transition, name_missing,
}
use yusui.Policy.Step.{Edit, edited}

-- What `mutate` leaves of the tables: one row edited, the audit log as it was.
pub record Edited (t : YusuiTicket) (e : Edit) (d d' : Tables) : Type 0 where
  pub rows : d'.tickets ≡ update t.id (edited e) d.tickets
  pub log : d'.audit_logs ≡ d.audit_logs

-- `mutate` answers for every row that the transaction can have locked.
abbrev pub Mutates : (YusuiTicket → Edit → Type 0) → Status → (YusuiTicket → Db (Unit {0})) → Type 0
Mutates P from mutate =
    (t : YusuiTicket) (c : Conn)
    → t.status ≡ from
    → After (λ _ d. (e : Edit) × P t e × Edited t e c.tables d.tables) (mutate t) c

-- A status change that went through: the row it found, what became of it, and its audit row.
pub record Committed (P : YusuiTicket → Edit → Type 0) (id : ℕ) (actor : Actor) (act : Action)
    (payload : Payload) (d : Tables) (u : YusuiTicket) (d' : Tables) : Type 0 where
  pub old : YusuiTicket
  pub edit : Edit
  pub ts : ℕ
  pub found : find id d.tickets ≡ some old
  pub allowed : P old edit
  pub rows : d'.tickets ≡ update old.id (edited edit) d.tickets
  pub log : d'.audit_logs ≡ audit_row ts actor act (Target.ticket old.pub_id) payload ∷ d.audit_logs
  pub result : find id d'.tickets ≡ some u

pub Committed-imp :
    {P Q : YusuiTicket → Edit → Type 0} {id : ℕ} {actor : Actor} {act : Action} {payload : Payload}
    {d d' : Tables} {u : YusuiTicket}
    → ((t : YusuiTicket) (e : Edit) → P t e → Q t e)
    → Committed P id actor act payload d u d'
    → Committed Q id actor act payload d u d'
Committed-imp f h = record {
  old = h.old;
  edit = h.edit;
  ts = h.ts;
  found = h.found;
  allowed = f h.old h.edit h.allowed;
  rows = h.rows;
  log = h.log;
  result = h.result;
}

one-After :
    {A : Type 0} (o : Option A) (c : Conn)
    → Holds (λ a d. (o ≡ some a) × (d.tables ≡ c.tables)) (one o) c
one-After none c = tt
one-After (some a) c = (refl, refl)

pub read-After :
    {A : Type 0} (f : Tables → Option A) (c : Conn)
    → After (λ a d. (f c.tables ≡ some a) × (d.tables ≡ c.tables)) (read (λ c. one (f c.tables))) c
read-After f c = After-query (record { holds = one-After (f c.tables) (counted c) })

get_ticket-After :
    (id : ℕ) (c : Conn)
    → After (λ t d. (find id c.tickets ≡ some t) × (d.tables ≡ c.tables)) (get_ticket_by_id id) c
unfolding get_ticket_by_id
get_ticket-After id c = read-After (λ d. find id d.tickets) c

name_missing-Holds :
    {A : Type 0} (Q : A → Conn → Type 0) (r : Result A) (d : Conn)
    → Holds Q r d
    → Holds Q (name_missing r) d
name_missing-Holds Q (ok a) d h = h
name_missing-Holds Q (err Error.no_rows) d h = tt
name_missing-Holds Q (err _) d h = tt

lock_ticket-After :
    (id : ℕ) (c : Conn)
    → After (λ t d. (find id c.tickets ≡ some t) × (d.tables ≡ c.tables)) (lock_ticket id) c
unfolding lock_ticket get_ticket_for_update
lock_ticket-After id c = record {
  holds =
      name_missing-Holds _ (get_ticket_for_update id c).0 (get_ticket_for_update id c).1
        (read-After (λ d. find id d.tickets) c).holds;
}

pub audit-After :
    (actor : Actor) (act : Action) (pub_id : ℕ) (payload : Payload) (c : Conn)
    → After
        (λ _ d.
          (ts : ℕ) × (d.tables ≡ record (c.tables) {
            audit_logs = audit_row ts actor act (Target.ticket pub_id) payload ∷ c.audit_logs;
          }))
        (audit actor act pub_id payload)
        c
unfolding audit insert_audit
audit-After actor act pub_id payload c = After-query (record { holds = (c.now, refl) })

module _ (P : YusuiTicket → Edit → Type 0) (id : ℕ) (from : Status) (act : Action) (actor : Actor)
    (payload : Payload) (mutate : YusuiTicket → Db (Unit {0})) (good : Mutates P from mutate) where
  guarded-After :
      (before : Tables) (t : YusuiTicket) (c : Conn)
      → find id before.tickets ≡ some t
      → c.tables ≡ before
      → After
          (λ u d. Committed P id actor act payload before u d.tables)
          (guarded id from act actor payload mutate t)
          c
  unfolding guarded
  guarded-After before t c found same =
      After-if _
        (λ matches. After-bind (
          After-bind (
            After-imp
              (λ _ d m.
                After-imp
                  (λ _ d' a.
                    After-imp
                      (λ u d'' g. record {
                        old = t;
                        edit = m.0;
                        ts = a.0;
                        found = found;
                        allowed = m.1;
                        rows = cc;
                        log = cc;
                        result = cc;
                      })
                      (get_ticket-After id d'))
                  (audit-After actor act t.pub_id payload d))
              (good t c (eq_of_same_status t.status from matches)))))
        (λ _. After-raise _ _)

  pub transition-After :
      (c : Conn)
      → After
          (λ u d. Committed P id actor act payload c.tables u d.tables)
          (transition id from act actor payload mutate)
          c
  unfolding transition
  transition-After c = After-in_tx (Committed P id actor act payload c.tables) (
      After-bind (
        After-imp (λ t d h. guarded-After c.tables t d h.0 h.1) (lock_ticket-After id (counted c))))
