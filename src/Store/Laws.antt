-- ===== src/Store/Laws.antt =====
-- What a database call promises, whichever calls fail: server/internal/store/pool.go and the
-- transactions of its users.
use yusui.Prelude.{◌≡◌, refl, Bool-cases, inl, inr}
use yusui.Exec.{Error, Result, ok, err}
use yusui.Exec.After.{Holds, After, After-imp, After-bind, After-pure}
use yusui.Store.Conn.{Tables, Conn, Db, counted, query, settle, bracketed, in_tx}

module _ {A : Type 0} where
  pub After-query :
      {Q : A → Conn → Type 0} {stmt : Db A} {c : Conn}
      → After Q stmt (counted c)
      → After Q (query stmt) c
  unfolding query
  After-query {Q} {stmt} {c} h = elim (Bool-cases (c.fails c.calls)) [
    | inl down ↦ record { holds = rw down tt }
    | inr up ↦ record { holds = rw up h.holds }
  ]

module _ {A : Type 0} where
  settle-Holds :
      (Q : A → Tables → Type 0) (before : Tables) (r : Result A) (d : Conn)
      → Holds (λ a d. Q a d.tables) r d
      → Holds (λ a d. Q a d.tables) (settle before r d).0 (settle before r d).1
  settle-Holds Q before (ok a) d h = h
  settle-Holds Q before (err x) d h = tt

  settle-err :
      (before : Tables) (r : Result A) (d : Conn) (x : Error)
      → (settle before r d).0 ≡ err x
      → (settle before r d).1.tables ≡ before
  settle-err before (ok a) d x h = cc
  settle-err before (err y) d x h = refl

  After-bracketed :
      (Q : A → Tables → Type 0) {body : Db A} {c : Conn}
      → After (λ a d. Q a d.tables) body (counted c)
      → After (λ a d. Q a d.tables) (bracketed body) c
  unfolding bracketed
  After-bracketed Q h = After-bind (
      After-bind (
        After-query (record {
          holds =
              After-imp (λ a d q. After-bind (After-query (record { holds = After-pure a _ q }))) h;
        })))

  -- What the body leaves behind is what a transaction that succeeds leaves behind.
  pub After-in_tx :
      (Q : A → Tables → Type 0) {body : Db A} {c : Conn}
      → After (λ a d. Q a d.tables) body (counted c)
      → After (λ a d. Q a d.tables) (in_tx body) c
  unfolding in_tx
  After-in_tx Q {body} {c} h = record {
    holds =
        settle-Holds Q c.tables (bracketed body c).0 (bracketed body c).1
          (After-bracketed Q h).holds;
  }

  -- A transaction that fails, in its body or at the commit, changes no table.
  pub in_tx-err :
      (body : Db A) (c : Conn) (x : Error)
      → (in_tx body c).0 ≡ err x
      → (in_tx body c).1.tables ≡ c.tables
  unfolding in_tx
  in_tx-err body c x h = settle-err c.tables _ _ x h
