-- ===== src/Policy/Moves.antt =====
-- The `mutate` of each status change makes the one move of the workflow that its name promises.
use yusui.Prelude.{
  ℕ, ◌≡◌, refl, List, ◌==◌, ◌≢◌, Bool-cases, inl, inr, arith, not, ◌||◌, Bool, true, false, some,
  [], ◌∷◌, All, select, exists, mem, subst,
}
use yusui.Exec.{Error, raise, ok}
use yusui.Exec.After.{After, After-imp, After-bind, After-raise, After-if, After-lift}
use yusui.Store.Rows.{YusuiTicket, YusuiAsset, Status, Action}
use yusui.Store.Conn.{Tables, Conn}
use yusui.Store.Laws.{After-query}
use yusui.Store.Tickets.{
  set_ticket_approved, approver_checks, set_ticket_active, set_ticket_status, close_ticket,
}
use yusui.Store.Catalog.{
  list_assets_by_ids, upsert_binding, set_binding_applied, UpsertBindingParams,
}
use yusui.Policy.Step.{Edit, edited, Move}
use yusui.Policy.Tx.{approve_row_tx, reject_row_tx, all_in_project, is_nil, parse_asset_ids}
use yusui.Policy.Commits.{Edited, Mutates}

-- The move of a ticket that an action makes.
abbrev pub Moves : Action → YusuiTicket → Edit → Type 0
Moves act t e = Move t act e

pub set_status-After :
    (t : YusuiTicket) (s : Status) (c : Conn)
    → After (λ _ d. Edited t (Edit.sets c.now s) c.tables d.tables) (set_ticket_status t.id s) c
unfolding set_ticket_status
set_status-After t s c = After-query (record { holds = record { rows = refl; log = refl } })

pub close_ticket-After :
    (t : YusuiTicket) (s : Status) (c : Conn)
    → After (λ _ d. Edited t (Edit.closes c.now s) c.tables d.tables) (close_ticket t.id s) c
unfolding close_ticket
close_ticket-After t s c = After-query (record { holds = record { rows = refl; log = refl } })

pub set_active-After :
    (t : YusuiTicket) (expires : ℕ) (c : Conn)
    → After
        (λ _ d. Edited t (Edit.activates c.now expires) c.tables d.tables)
        (set_ticket_active t.id expires)
        c
unfolding set_ticket_active
set_active-After t expires c = After-query (record { holds = record { rows = refl; log = refl } })

set_approved-After :
    (t : YusuiTicket) (a : ℕ) (ids : List ℕ) (c : Conn)
    → After
        (λ _ d. Edited t (Edit.approves c.now a ids) c.tables d.tables)
        (set_ticket_approved t.id a ids)
        c
unfolding set_ticket_approved
set_approved-After t a ids c = After-query (record {
  holds = elim (Bool-cases (approver_checks t.id a c.tables)) [
    | inl fine ↦ rw fine (record { rows = refl; log = refl })
    | inr broken ↦ rw broken tt
  ];
})

-- The reads and the bindings leave tickets and audit log alone.
abbrev pub Quiet : Tables → Tables → Type 0
Quiet d d' = (d'.tickets ≡ d.tickets) × (d'.audit_logs ≡ d.audit_logs)

list_assets-After :
    (ids : List ℕ) (c : Conn)
    → After
        (λ xs d. (xs ≡ select (λ a. mem a.id ids) c.assets) × (d.tables ≡ c.tables))
        (list_assets_by_ids ids)
        c
unfolding list_assets_by_ids
list_assets-After ids c = After-query (record { holds = (refl, refl) })

pub upsert_binding-After :
    (p : UpsertBindingParams) (c : Conn)
    → After (λ _ d. Quiet c.tables d.tables) (upsert_binding p) c
unfolding upsert_binding
upsert_binding-After p c = After-query (record { holds = (refl, refl) })

pub set_binding_applied-After :
    (id : ℕ) (c : Conn) → After (λ _ d. Quiet c.tables d.tables) (set_binding_applied id) c
unfolding set_binding_applied
set_binding_applied-After id c = After-query (record { holds = (refl, refl) })

-- An edit that follows calls which left tickets and audit log alone.
pub Edited-after :
    (t : YusuiTicket) (e : Edit) (c d : Tables) {d' : Tables}
    → Quiet c d
    → Edited t e d d'
    → Edited t e c d'
Edited-after t e c d q h = record { rows = cc (h.rows); log = cc (h.log) }

all_in_project-All :
    (p : ℕ) (f : YusuiAsset → Bool) (xs : List YusuiAsset)
    → all_in_project p (select f xs) ≡ true
    → All (λ x. f x ≡ true → x.project_id ≡ p) xs
unfolding all_in_project
all_in_project-All p f [] h = tt
all_in_project-All p f (x ∷ xs) h = ground (arith, all_in_project-All p f xs)

select-exists :
    {A : Type 0} (f : A → Bool) (xs : List A) → is_nil (select f xs) ≡ false → exists f xs ≡ true
select-exists f [] h = cc
select-exists f (x ∷ xs) h = ground (arith, select-exists f xs)

-- What `mutate` of Approve has checked and done when it succeeds.
pub record Approves (a : ℕ) (t : YusuiTicket) (d d' : Tables) : Type 0 where
  pub now : ℕ
  pub ids : List ℕ
  pub parsed : parse_asset_ids t.target_selector ≡ ok ids
  pub other : t.requester_id ≢ a
  pub some_asset : exists (λ x. mem x.id ids) d.assets ≡ true
  pub scope : All (λ x. mem x.id ids ≡ true → x.project_id ≡ t.project_id) d.assets
  pub edited_row : Edited t (Edit.approves now a ids) d d'

approves :
    (a : ℕ) (t : YusuiTicket) (ids : List ℕ) (c d d' : Tables) (now : ℕ) (assets : List YusuiAsset)
    → parse_asset_ids t.target_selector ≡ ok ids
    → t.requester_id ≢ a
    → assets ≡ select (λ x. mem x.id ids) c.assets
    → d ≡ c
    → (is_nil assets || not (all_in_project t.project_id assets)) ≡ false
    → Edited t (Edit.approves now a ids) d d'
    → Approves a t c d'
approves a t ids c d d' now assets parsed other found same fine h =
    let checks : (is_nil assets ≡ false) × (all_in_project t.project_id assets ≡ true) =
      ground (arith, fine) in
    record {
      now = now;
      ids = ids;
      parsed = parsed;
      other = other;
      some_asset = select-exists _ c.assets (subst (λ l. is_nil l ≡ false) found checks.0);
      scope =
          all_in_project-All t.project_id _ c.assets
            (subst (λ l. all_in_project t.project_id l ≡ true) found checks.1);
      edited_row = Edited-after t _ c d (cc, cc) h;
    }

approve_row-After :
    (a : ℕ) (t : YusuiTicket) (c : Conn)
    → After (λ _ d. Approves a t c.tables d.tables) (approve_row_tx a t) c
unfolding approve_row_tx
approve_row-After a t c =
    After-if (t.requester_id == a) {m = raise Error.self_approve} (λ _. After-raise _ _)
      (λ other. After-lift _ (λ ids parsed. After-bind (
        After-imp
          (λ assets d q.
            After-if (is_nil assets || not (all_in_project t.project_id assets))
              {m = raise Error.validation} (λ _. After-raise _ _)
              (λ fine.
                After-imp
                  (λ _ d' h.
                    approves a t ids c.tables d.tables d'.tables d.now assets parsed
                      (λ same. ground (arith, same)) q.0 q.1 fine h)
                  (set_approved-After t a ids d)))
          (list_assets-After ids c))))

-- The move that an approval by `a` makes.
abbrev pub MovesBy : ℕ → YusuiTicket → Edit → Type 0
MovesBy a t e = Move t Action.ticket_approve e × ((edited e t).approver_id ≡ some a)

pub approve_row-Mutates : (a : ℕ) → Mutates (MovesBy a) Status.pending (approve_row_tx a)
approve_row-Mutates a t c from =
    After-imp
      (λ _ d h. (
        Edit.approves h.now a h.ids,
        (Move.approve h.now a h.ids from h.other, refl),
        h.edited_row,
      ))
      (approve_row-After a t c)

pub reject_row-Mutates :
    (a : ℕ) → Mutates (Moves Action.ticket_reject) Status.pending (reject_row_tx a)
unfolding reject_row_tx
reject_row-Mutates a t c from =
    After-if (t.requester_id == a) {m = raise Error.self_approve} (λ _. After-raise _ _)
      (λ _.
        After-imp (λ _ d h. (Edit.closes c.now Status.rejected, Move.reject c.now from, h))
          (close_ticket-After t Status.rejected c))
