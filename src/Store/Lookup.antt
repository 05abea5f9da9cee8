-- ===== src/Store/Lookup.antt =====
-- The ticket table as a map from ids: what a lookup finds after an insert or an update.
use yusui.Store.Conn.{Tables}
use yusui.Prelude.{
  ℕ, ◌≡◌, ◌≢◌, ◌⊎◌, refl, sym, subst, true, false, none, some, List, [], ◌∷◌, ◌++◌, ◌==◌, arith,
  exists, ℕ_discrete, inl, inr, ◌∙◌, ne→==,
}
use yusui.Store.Rows.{YusuiTicket}
use yusui.Store.Tickets.{find, update, CreateTicketParams, insert_checks}

pub find-id : (i : ℕ) (ts : List YusuiTicket) (t : YusuiTicket) → find i ts ≡ some t → t.id ≡ i
find-id i [] t h = cc
find-id i (x ∷ ts) t h = ground (arith, find-id i ts t)

-- Where a lookup finds a row, the id may be taken from the row.
pub find_self :
    (i : ℕ) (ts : List YusuiTicket) (t : YusuiTicket) → find i ts ≡ some t → find t.id ts ≡ some t
find_self i ts t h = subst (λ j. find j ts ≡ some t) (sym (find-id i ts t h)) h

pub find-update_self :
    (i : ℕ) (f : YusuiTicket → YusuiTicket) (ts : List YusuiTicket) (t : YusuiTicket)
    → ((x : YusuiTicket) → (f x).id ≡ x.id)
    → find i ts ≡ some t
    → find i (update i f ts) ≡ some (f t)
unfolding update
find-update_self i f [] t keep h = cc
find-update_self i f (x ∷ ts) t keep h = ground (arith, keep x, find-update_self i f ts t keep)

pub find-update_ne :
    (i j : ℕ) (f : YusuiTicket → YusuiTicket) (ts : List YusuiTicket)
    → ((x : YusuiTicket) → (f x).id ≡ x.id)
    → i ≢ j
    → find j (update i f ts) ≡ find j ts
unfolding update
find-update_ne i j f [] keep h = refl
find-update_ne i j f (x ∷ ts) keep h = ground (arith, keep x, find-update_ne i j f ts keep)

pub find-append_old :
    (j : ℕ) (ts : List YusuiTicket) (t u : YusuiTicket)
    → find j ts ≡ some u
    → find j (ts ++ t ∷ []) ≡ some u
find-append_old j [] t u h = cc
find-append_old j (x ∷ ts) t u h = ground (arith, find-append_old j ts t u)

-- A row that is found after an insert was there before, or is the row inserted.
pub find-append_cases :
    (j : ℕ) (ts : List YusuiTicket) (t u : YusuiTicket)
    → find j (ts ++ t ∷ []) ≡ some u
    → (find j ts ≡ some u) ⊎ (u ≡ t)
find-append_cases j [] t u h = ground arith
find-append_cases j (x ∷ ts) t u h = ground (arith, find-append_cases j ts t u)

pub pub_id_ne :
    (p j : ℕ) (ts : List YusuiTicket) (t : YusuiTicket)
    → exists (λ x. x.pub_id == p) ts ≡ false
    → find j ts ≡ some t
    → t.pub_id ≢ p
pub_id_ne p j [] t fresh h = cc
pub_id_ne p j (x ∷ ts) t fresh h = ground (arith, pub_id_ne p j ts t)

not_exists-find :
    (i : ℕ) (ts : List YusuiTicket) → exists (λ t. t.id == i) ts ≡ false → find i ts ≡ none
not_exists-find i [] h = refl
not_exists-find i (x ∷ ts) h = ground (arith, not_exists-find i ts)

-- What an insert that passes its checks knows of the table.
pub insert_checks-unused :
    (d : Tables) (id : ℕ) (a : CreateTicketParams)
    → insert_checks d id a ≡ true
    → (find id d.tickets ≡ none) × (exists (λ x. x.pub_id == a.pub_id) d.tickets ≡ false)
unfolding insert_checks
insert_checks-unused d id a h = ground (arith, not_exists-find id d.tickets)

-- A row that is found after an update is the updated one, or one that was left alone.
pub find-update_cases :
    (i j : ℕ) (f : YusuiTicket → YusuiTicket) (ts : List YusuiTicket) (u : YusuiTicket)
    → ((x : YusuiTicket) → (f x).id ≡ x.id)
    → find j (update i f ts) ≡ some u
    → ((t : YusuiTicket) × (find j ts ≡ some t) × (i ≡ j) × (u ≡ f t))
      ⊎ ((find j ts ≡ some u) × (i ≢ j))
unfolding update
find-update_cases i j f [] u keep h = cc
find-update_cases i j f (x ∷ ts) u keep h = elim (ℕ_discrete x.id j) [
  | yes here ↦ elim (ℕ_discrete x.id i) [
    | yes hit ↦ inl (x, ground (arith, keep x), ground (arith, keep x), ground (arith, keep x))
    | no miss ↦ inr (ground (arith, keep x), λ e. miss (here ∙ sym e))
  ]
  | no other ↦ rw (ne→== x.id j other) (find-update_cases i j f ts u keep (ground (arith, keep x)))
]
