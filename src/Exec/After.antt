-- ===== src/Exec/After.antt =====
-- What holds after a call that succeeds, with one rule for each way to build a call; and relations
-- between the states before and after a call, whether it succeeds or not.
use yusui.Prelude.{◌≡◌, ◌⊎◌, inl, inr, refl, Bool, true, false, if◌then◌else◌, arith}
use yusui.Exec.{
  Error, Result, ok, err, Exec, pure, raise, lift, attempt, ◌>>=◌, resume, named, or_else,
}

pub Result-cases :
    {A : Type 0} (r : Result A) → ((a : A) × (r ≡ ok a)) ⊎ ((x : Error) × (r ≡ err x))
Result-cases (ok a) = inl (a, refl)
Result-cases (err x) = inr (x, refl)

module _ {ℓ κ} {S A : Type ℓ} where
  abbrev pub Holds : (A → S → Type κ) → Result A → S → Type κ
  Holds Q (ok a) s = Q a s
  Holds Q (err x) s = Unit

  -- `Q` holds of the result and the state if the call succeeds.
  pub record After (Q : A → S → Type κ) (m : Exec S A) (s : S) : Type κ where
    pub holds : Holds Q (m s).0 (m s).1

  Holds-imp :
      (P Q : A → S → Type κ)
      → ((a : A) (s : S) → P a s → Q a s)
      → (r : Result A) (s : S) → Holds P r s
      → Holds Q r s
  Holds-imp P Q f (ok a) s h = f a s h
  Holds-imp P Q f (err x) s h = tt

  Holds-ok : (Q : A → S → Type κ) (r : Result A) (s : S) (a : A) → r ≡ ok a → Holds Q r s → Q a s
  Holds-ok Q (ok b) s a e h = ground (arith, h)
  Holds-ok Q (err x) s a e h = cc

  pub After-imp :
      {P Q : A → S → Type κ} {m : Exec S A} {s : S}
      → ((a : A) (t : S) → P a t → Q a t)
      → After P m s
      → After Q m s
  After-imp {P} {Q} {m} {s} f h = record { holds = Holds-imp P Q f (m s).0 (m s).1 h.holds }

  -- What a call that succeeds with `a` is known to satisfy.
  pub After-ok :
      {Q : A → S → Type κ} {m : Exec S A} {s : S}
      → After Q m s
      → (a : A) → (m s).0 ≡ ok a
      → Q a (m s).1
  After-ok {Q} {m} {s} h a e = Holds-ok Q (m s).0 (m s).1 a e h.holds

  Holds-all : (Q : A → S → Type κ) (r : Result A) (s : S) → ((a : A) → Q a s) → Holds Q r s
  Holds-all Q (ok a) s h = h a
  Holds-all Q (err x) s h = tt

  -- What every result satisfies.
  pub After-all :
      {Q : A → S → Type κ} (m : Exec S A) (s : S) → ((a : A) → Q a (m s).1) → After Q m s
  After-all {Q} m s h = record { holds = Holds-all Q (m s).0 (m s).1 h }

  Holds-at :
      (P Q : A → S → Type κ) (r : Result A) (s : S)
      → ((a : A) → P a s → Q a s)
      → Holds P r s
      → Holds Q r s
  Holds-at P Q (ok a) s f h = f a h
  Holds-at P Q (err x) s f h = tt

  Holds-both :
      (P Q : A → S → Type κ) (r : Result A) (s : S)
      → Holds P r s
      → Holds Q r s
      → Holds (λ a t. P a t × Q a t) r s
  Holds-both P Q (ok a) s h k = (h, k)
  Holds-both P Q (err x) s h k = tt

  pub After-both :
      {P Q : A → S → Type κ} {m : Exec S A} {s : S}
      → After P m s
      → After Q m s
      → After (λ a t. P a t × Q a t) m s
  After-both {P} {Q} {m} {s} h k = record { holds = Holds-both P Q (m s).0 (m s).1 h.holds k.holds }

  pub After-pure : {Q : A → S → Type κ} (a : A) (s : S) → Q a s → After Q (pure a) s
  After-pure a s h = record { holds = h }

  pub After-raise : {Q : A → S → Type κ} (x : Error) (s : S) → After Q (raise x) s
  After-raise x s = record { holds = tt }

  pub After-if :
      {Q : A → S → Type κ} (b : Bool) {m n : Exec S A} {s : S}
      → (b ≡ true → After Q m s)
      → (b ≡ false → After Q n s)
      → After Q (if b then m else n) s
  After-if true h k = h refl
  After-if false h k = k refl

module _ {S A : Type 0} where
  -- A result at hand.
  pub After-result : (r : Result A) (s : S) → After (λ a _. r ≡ ok a) (lift r) s
  After-result (ok a) s = record { holds = refl }
  After-result (err x) s = record { holds = tt }

module _ {κ} {S A : Type 0} where
  Holds-named :
      (Q : A → S → Type κ) (x : Error) (r : Result A) (s : S) → Holds Q r s → Holds Q (named x r) s
  Holds-named Q x (ok a) s h = h
  Holds-named Q x (err y) s h = tt

  pub After-or_else :
      {Q : A → S → Type κ} (x : Error) {m : Exec S A} {s : S}
      → After Q m s
      → After Q (or_else x m) s
  unfolding or_else
  After-or_else {Q} x {m} {s} h = record { holds = Holds-named Q x (m s).0 (m s).1 h.holds }

module _ {ℓ κ} {S A B : Type ℓ} where
  resume-Holds :
      (Q : B → S → Type κ) (f : A → Exec S B) (r : Result A) (s : S)
      → Holds (λ a. After Q (f a)) r s
      → Holds Q (resume f r s).0 (resume f r s).1
  resume-Holds Q f (ok a) s h = h.holds
  resume-Holds Q f (err x) s h = tt

  pub After-bind :
      {Q : B → S → Type κ} {m : Exec S A} {f : A → Exec S B} {s : S}
      → After (λ a. After Q (f a)) m s
      → After Q (m >>= f) s
  unfolding ◌>>=◌
  After-bind {Q} {m} {f} {s} h = record { holds = resume-Holds Q f (m s).0 (m s).1 h.holds }

  -- The rest of a call may use that `r` was no error.
  pub After-lift :
      {Q : B → S → Type κ} (r : Result A) {f : A → Exec S B} {s : S}
      → ((a : A) → r ≡ ok a → After Q (f a) s)
      → After Q (lift r >>= f) s
  unfolding ◌>>=◌
  After-lift (ok a) h = record { holds = (h a refl).holds }
  After-lift (err x) h = record { holds = tt }

  -- The rest of a call whatever the first part gives, its state kept at hand.
  pub After-bind_any :
      {Q : B → S → Type κ} (m : Exec S A) {f : A → Exec S B} {s : S}
      → ((a : A) → After Q (f a) (m s).1)
      → After Q (m >>= f) s
  After-bind_any {Q} m {f} {s} h =
      After-bind (record { holds = Holds-all (λ a t. After Q (f a) t) (m s).0 (m s).1 h })

  -- The same, with what the first part is known to do.
  pub After-bind_here :
      {P : A → S → Type κ} {Q : B → S → Type κ} {m : Exec S A} {f : A → Exec S B} {s : S}
      → After P m s
      → ((a : A) → P a (m s).1 → After Q (f a) (m s).1)
      → After Q (m >>= f) s
  After-bind_here {P} {Q} {m} {f} {s} h k =
      After-bind (record { holds = Holds-at P (λ a t. After Q (f a) t) (m s).0 (m s).1 k h.holds })

-- `R` relates the state before a call to the state after it, whatever the result.
module _ {ℓ κ} {S A : Type ℓ} where
  pub record Relates (R : S → S → Type κ) (m : Exec S A) : Type (ℓ ⊔ κ) where
    pub at : (s : S) → R s (m s).1

module _ {ℓ κ} {S : Type ℓ} {R : S → S → Type κ} (same : (s : S) → R s s)
    (after : (s t u : S) → R s t → R t u → R s u) where
  resume-Relates :
      {A B : Type ℓ} (f : A → Exec S B) (r : Result A) (s : S)
      → ((a : A) → Relates R (f a))
      → R s (resume f r s).1
  resume-Relates f (ok a) s h = (h a).at s
  resume-Relates f (err x) s h = same s

  pub Relates-bind :
      {A B : Type ℓ} {m : Exec S A} {f : A → Exec S B}
      → Relates R m
      → ((a : A) → Relates R (f a))
      → Relates R (m >>= f)
  unfolding ◌>>=◌
  Relates-bind {A} {B} {m} {f} h k = record {
    at = λ s.
        after s (m s).1 (resume f (m s).0 (m s).1).1 (h.at s) (resume-Relates f (m s).0 (m s).1 k);
  }

module _ {ℓ κ} {S A : Type ℓ} {R : S → S → Type κ} where
  pub Relates-attempt : {m : Exec S A} → Relates R m → Relates R (attempt m)
  Relates-attempt h = record { at = λ s. h.at s }

  pub Relates-if :
      (b : Bool) {m n : Exec S A} → Relates R m → Relates R n → Relates R (if b then m else n)
  Relates-if true h k = h
  Relates-if false h k = k
