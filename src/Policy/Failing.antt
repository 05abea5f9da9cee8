-- ===== src/Policy/Failing.antt =====
-- Submit and Reject of server/internal/policy/engine.go are all or nothing: an error, be it a failed
-- check, a failed database call or a violated constraint, leaves every table as it was.
use yusui.Prelude.{
  ℕ, ◌≡◌, refl, ◌∙◌, Bool, true, false, not, String, if◌then◌else◌, Bool-cases, inl, inr,
}
use yusui.Exec.{Error, Result, ok, err, Exec, raise, resume, ◌>>=◌, validation}
use yusui.Exec.After.{Relates}
use yusui.Store.Rows.{Actor}
use yusui.Store.Conn.{Db, in_tx, query}
use yusui.Store.Laws.{in_tx-err}
use yusui.Store.Catalog.{get_project_by_id}
use yusui.Policy.World.{Engine, World, on_db}
use yusui.Policy.Transition.{transition}
use yusui.Policy.Tx.{SubmitInput, submit_checks, submit_tx, or_else, reject_tx}
use yusui.Policy.Engine.{mint, submit, reject}

module _ {G S : Type 0} where
  -- A call that changes no table, and one that changes none when it fails.
  abbrev Still : {A : Type 0} → Exec (World G S) A → Type 0
  Still m = Relates (λ v w. w.conn.tables ≡ v.conn.tables) m

  record Clean {A : Type 0} (m : Exec (World G S) A) : Type 0 where
    at : (w : World G S) (x : Error) → (m w).0 ≡ err x → (m w).1.conn.tables ≡ w.conn.tables

  resume-Clean :
      {A B : Type 0} (f : A → Exec (World G S) B) (r : Result A) (v w : World G S) (x : Error)
      → ((a : A) → Clean (f a))
      → v.conn.tables ≡ w.conn.tables
      → (resume f r v).0 ≡ err x
      → (resume f r v).1.conn.tables ≡ w.conn.tables
  resume-Clean f (ok a) v w x h same p = (h a).at v x p ∙ same
  resume-Clean f (err y) v w x h same p = same

  Clean-bind :
      {A B : Type 0} {m : Exec (World G S) A} {f : A → Exec (World G S) B}
      → Still m
      → ((a : A) → Clean (f a))
      → Clean (m >>= f)
  unfolding ◌>>=◌
  Clean-bind {A} {B} {m} {f} h k = record {
    at = λ w x p. resume-Clean f (m w).0 (m w).1 w x k (h.at w) p;
  }

  Clean-if :
      {A : Type 0} (b : Bool) {m n : Exec (World G S) A}
      → Clean m
      → Clean n
      → Clean (if b then m else n)
  Clean-if true h k = h
  Clean-if false h k = k

  in_tx-Clean : {A : Type 0} (body : Db A) → Clean (on_db (in_tx body))
  unfolding on_db
  in_tx-Clean body = record { at = λ w x p. in_tx-err body w.conn x p }

  get_project-Still : (id : ℕ) → Still (or_else validation (on_db (get_project_by_id id)))
  unfolding or_else on_db get_project_by_id query
  get_project-Still id = record {
    at = λ w. elim (Bool-cases (w.conn.fails w.conn.calls)) [
      | inl down ↦ rw down refl
      | inr up ↦ rw up refl
    ];
  }

  submit_tx-Clean : (p : ℕ) (i : SubmitInput) (actor : Actor) → Clean (on_db (submit_tx p i actor))
  unfolding submit_tx
  submit_tx-Clean p i actor = in_tx-Clean _

  reject_tx-Clean :
      (id a : ℕ) (reason : String) (actor : Actor) → Clean (on_db (reject_tx id a reason actor))
  unfolding reject_tx transition
  reject_tx-Clean id a reason actor = in_tx-Clean _

module _ {G S : Type 0} (e : Engine G S) where
  mint-Still : Still (mint e)
  unfolding mint
  mint-Still = record { at = λ w. refl }

  submit-Clean : (i : SubmitInput) (actor : Actor) → Clean (submit e i actor)
  unfolding submit
  submit-Clean i actor =
      Clean-if (not (submit_checks i)) {m = raise validation} (record { at = λ w x p. refl })
        (Clean-bind (get_project-Still i.project_id)
          (λ _. Clean-bind mint-Still (λ p. submit_tx-Clean p i actor)))

  -- A Submit that ends in an error, whichever, has changed no table.
  pub submit-err :
      (i : SubmitInput) (actor : Actor) (w : World G S) (x : Error)
      → (submit e i actor w).0 ≡ err x
      → (submit e i actor w).1.conn.tables ≡ w.conn.tables
  submit-err i actor w x p = (submit-Clean i actor).at w x p

  -- A Reject that ends in an error, whichever, has changed no table.
  pub reject-err :
      (id approver : ℕ) (reason : String) (actor : Actor) (w : World G S) (x : Error)
      → (reject e id approver reason actor w).0 ≡ err x
      → (reject e id approver reason actor w).1.conn.tables ≡ w.conn.tables
  unfolding reject
  reject-err id approver reason actor w x p = (reject_tx-Clean id approver reason actor).at w x p
