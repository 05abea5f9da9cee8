-- ===== src/Policy/Progress/Distinct.antt =====
-- Rows of server/internal/store/tickets.sql.go under a primary key: each is found under its own id.
use yusui.Prelude.{
  ℕ, ◌≡◌, refl, Bool, true, false, some, List, [], ◌∷◌, All, ◌==◌, ==_refl, select, Bool-cases, inl,
  inr, &&-eq-true,
}
use yusui.Store.Rows.{YusuiTicket, Status}
use yusui.Store.Tickets.{find, is_due, is_active}

-- No other row of the list has this id.
abbrev pub Apart : YusuiTicket → List YusuiTicket → Type 0
Apart t ts = All (λ u. (t.id == u.id) ≡ false) ts

abbrev pub Distinct : List YusuiTicket → Type 0
Distinct [] = Unit
Distinct (t ∷ ts) = Apart t ts × Distinct ts

abbrev pub Found : List YusuiTicket → List YusuiTicket → Type 0
Found ts us = All (λ u. find u.id ts ≡ some u) us

Found-cons :
    (x : YusuiTicket) (ts us : List YusuiTicket) → Apart x us → Found ts us → Found (x ∷ ts) us
Found-cons x ts [] h k = tt
Found-cons x ts (u ∷ us) h k = (rw h.0 k.0, Found-cons x ts us h.1 k.1)

pub Distinct-Found : (ts : List YusuiTicket) → Distinct ts → Found ts ts
Distinct-Found [] h = tt
Distinct-Found (t ∷ ts) h = (rw (==_refl t.id) refl, Found-cons t ts ts h.0 (Distinct-Found ts h.1))

module _ (p : YusuiTicket → Bool) where
  pub select-All :
      (P : YusuiTicket → Type 0) (ts : List YusuiTicket) → All P ts → All P (select p ts)
  select-All P [] h = tt
  select-All P (t ∷ ts) h = elim (Bool-cases (p t)) [
    | inl at ↦ rw at (h.0, select-All P ts h.1)
    | inr other ↦ rw other (select-All P ts h.1)
  ]

  pub select-Distinct : (ts : List YusuiTicket) → Distinct ts → Distinct (select p ts)
  select-Distinct [] h = tt
  select-Distinct (t ∷ ts) h = elim (Bool-cases (p t)) [
    | inl at ↦ rw at (select-All (λ u. (t.id == u.id) ≡ false) ts h.0, select-Distinct ts h.1)
    | inr other ↦ rw other (select-Distinct ts h.1)
  ]

  pub select-passes : (ts : List YusuiTicket) → All (λ t. p t ≡ true) (select p ts)
  select-passes [] = tt
  select-passes (t ∷ ts) = elim (Bool-cases (p t)) [
    | inl at ↦ rw at (at, select-passes ts)
    | inr other ↦ rw other (select-passes ts)
  ]

active_of : (s : Status) → is_active s ≡ true → s ≡ Status.active
active_of Status.active h = refl
active_of _ h = cc

pub due-active : (now : ℕ) (t : YusuiTicket) → is_due now t ≡ true → t.status ≡ Status.active
unfolding is_due
due-active now t h = active_of t.status (&&-eq-true (is_active t.status) _ h).0
