-- ===== src/Policy/Progress/Expiring.antt =====
-- ExpireDue of server/internal/policy/engine.go closes every ticket that is due when the database and
-- the gateway answer.
use yusui.Prelude.{
  ℕ, ◌+◌, ◌≡◌, refl, ap, ◌∙◌, true, false, some, List, [], ◌∷◌, All, ◌==◌, select, length, arith,
}
use yusui.Exec.{Result, ok, attempt, ◌>>=◌}
use yusui.Exec.Gives.{Gives, Gives-pure, Gives-imp, Gives-attempt, Gives-bind}
use yusui.Store.Rows.{YusuiTicket, Status}
use yusui.Store.Conn.{Tables, counted, query}
use yusui.Store.Tickets.{find, list_expired_active_tickets, is_due}
use yusui.Policy.World.{Engine, World, on_db}
use yusui.Policy.Engine.{revoke}
use yusui.Policy.Scheduler.{counts, system_actor, revoke_all, expire_due}
use yusui.Policy.Progress.{Up, Same, Row}
use yusui.Policy.Progress.Revoking.{Answers, revoke-Gives}
use yusui.Policy.Progress.Distinct.{
  Apart, Distinct, Found, Distinct-Found, select-All, select-Distinct, select-passes, due-active,
}

-- A ticket that is closed in the table.
pub record Closed (d : Tables) (t : YusuiTicket) : Type 0 where
  pub row : YusuiTicket
  pub found : find t.id d.tickets ≡ some row
  pub closed : row.status ≡ Status.closed

-- A ticket that stands in the table as it is, active.
abbrev pub Live : Tables → YusuiTicket → Type 0
Live d t = (find t.id d.tickets ≡ some t) × (t.status ≡ Status.active)

-- The tickets of the list are closed, and the others stand as before.
pub record Ended (ts : List YusuiTicket) (before after : Tables) : Type 0 where
  pub ended : All (Closed after) ts
  pub others :
      (j : ℕ) → All (λ t. (t.id == j) ≡ false) ts → find j after.tickets ≡ find j before.tickets

Live-Same :
    (t : YusuiTicket) (ts : List YusuiTicket) (before d : Tables)
    → Apart t ts
    → Same before t.id d
    → All (Live before) ts
    → All (Live d) ts
Live-Same t [] before d apart same h = tt
Live-Same t (u ∷ ts) before d apart same h =
    ((same u.id apart.0 ∙ h.0.0, h.0.1), Live-Same t ts before d apart.1 same h.1)

Live-due :
    (now : ℕ) (d : Tables) (ts : List YusuiTicket)
    → Found d.tickets ts
    → All (λ t. is_due now t ≡ true) ts
    → All (Live d) ts
Live-due now d [] h k = tt
Live-due now d (t ∷ ts) h k = ((h.0, due-active now t k.0), Live-due now d ts h.1 k.1)

flip : (t : YusuiTicket) (ts : List YusuiTicket) → Apart t ts → All (λ u. (u.id == t.id) ≡ false) ts
flip t [] h = tt
flip t (u ∷ ts) h = (ground (arith, h.0), flip t ts h.1)

Ended-cons :
    {before mid after : Tables} (t : YusuiTicket) (ts : List YusuiTicket)
    → Apart t ts
    → Row before t.id Status.closed mid
    → Ended ts mid after
    → Ended (t ∷ ts) before after
Ended-cons t ts apart row h = record {
  ended = (
    record {
      row = row.ticket;
      found = h.others t.id (flip t ts apart) ∙ row.found;
      closed = row.has;
    },
    h.ended,
  );
  others = λ j other. h.others j other.1 ∙ row.others j other.0;
}

module _ {G S : Type 0} (e : Engine G S) (answers : Answers e) where
  Dropped : YusuiTicket → World G S → Result (Unit {0}) → World G S → Type 0
  Dropped t w r w' = (r ≡ ok tt) × Up w'.conn × Row w.conn.tables t.id Status.closed w'.conn.tables

  revoke_one :
      (t : YusuiTicket) (w : World G S)
      → Up w.conn
      → Live w.conn.tables t
      → Gives
          (λ r w'. Dropped t w r w')
          (attempt (revoke e t.id "expired" (system_actor "scheduler")))
          w
  unfolding Dropped
  revoke_one t w up live =
      let done =
        revoke-Gives e w.conn.tables t.id "expired" (system_actor "scheduler") w answers up
          (record { ticket = t; found = live.0; has = live.1; others = λ j _. refl }) in
      Gives-attempt _ w (done.result, done.has.0, done.has.1)

  revoke_all-Gives :
      (n : ℕ) (ts : List YusuiTicket) (w : World G S)
      → Up w.conn
      → Distinct ts
      → All (Live w.conn.tables) ts
      → Gives
          (λ m w'. (m ≡ n + length ts) × Ended ts w.conn.tables w'.conn.tables)
          (revoke_all e n ts)
          w
  unfolding revoke_all Dropped
  revoke_all-Gives n [] w up apart live =
      Gives-pure n w (omega arith, record { ended = tt; others = λ j _. refl })
  revoke_all-Gives n (t ∷ ts) w up apart live = Gives-bind (
      Gives-imp
        (λ r w1 h.
          Gives-imp (λ m w2 k. (k.0 ∙ rw h.0 (omega arith), Ended-cons t ts apart.0 h.2 k.1))
            (revoke_all-Gives (counts r n) ts w1 h.1 apart.1
              (Live-Same t ts w.conn.tables w1.conn.tables apart.0 h.2.others live.1)))
        (revoke_one t w up live.0))

  -- When the database answers, the ids of its tickets are unique and the gateway removes what it is
  -- asked to remove, ExpireDue counts the tickets that are due, and closes each of them; every other
  -- ticket stands as before.
  pub expire_due-Ended :
      (w : World G S)
      → Up w.conn
      → Distinct w.conn.tickets
      → let due = select (is_due w.conn.now) w.conn.tickets in
        ((expire_due e w).0 ≡ ok (length due))
        × Ended due w.conn.tables (expire_due e w).1.conn.tables
  unfolding expire_due list_expired_active_tickets on_db query
  expire_due-Ended w up apart = (done.result ∙ ap (λ n. ok n) done.has.0, done.has.1)
    where
      due : List YusuiTicket
      due = select (is_due w.conn.now) w.conn.tickets

      listed : World G S
      listed = record w { conn = counted w.conn }

      each :
          Gives
            (λ m w'. (m ≡ length due) × Ended due w.conn.tables w'.conn.tables)
            (revoke_all e 0 due)
            listed
      each =
          Gives-imp (λ m w' h. (h.0 ∙ omega arith, h.1))
            (revoke_all-Gives 0 due listed (λ n. up n)
              (select-Distinct (is_due w.conn.now) w.conn.tickets apart)
              (Live-due w.conn.now w.conn.tables due
                (select-All (is_due w.conn.now) (λ t. find t.id w.conn.tickets ≡ some t)
                  w.conn.tickets (Distinct-Found w.conn.tickets apart))
                (select-passes (is_due w.conn.now) w.conn.tickets)))

      done :
          Gives
            (λ m w'. (m ≡ length due) × Ended due w.conn.tables w'.conn.tables)
            (on_db list_expired_active_tickets >>= λ ts. revoke_all e 0 ts)
            w
      done = Gives-bind (record {
        value = due;
        result = rw (up w.conn.calls) refl;
        has = rw (up w.conn.calls) each;
      })
