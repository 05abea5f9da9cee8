-- ===== src/Exec/Failed.antt =====
-- What holds after a call that ends in an error.
use yusui.Prelude.{◌≡◌, refl}
use yusui.Exec.{Error, Result, ok, err, Exec, pure, ◌>>=◌, resume}

module _ {S A : Type 0} where
  abbrev pub HoldsErr : (S → Type 0) → Result A → S → Type 0
  HoldsErr P (ok a) s = Unit {0}
  HoldsErr P (err x) s = P s

  pub record Failed (P : S → Type 0) (m : Exec S A) (s : S) : Type 0 where
    pub holds : HoldsErr P (m s).0 (m s).1

  HoldsErr-any : (P : S → Type 0) (r : Result A) (s : S) → P s → HoldsErr P r s
  HoldsErr-any P (ok a) s h = tt
  HoldsErr-any P (err x) s h = h

  HoldsErr-err :
      (P : S → Type 0) (r : Result A) (s : S) (x : Error) → r ≡ err x → HoldsErr P r s → P s
  HoldsErr-err P (ok a) s x e h = cc e
  HoldsErr-err P (err y) s x e h = h

  -- What holds of the state in any case holds of it after an error.
  pub Failed-any : {P : S → Type 0} (m : Exec S A) (s : S) → P (m s).1 → Failed P m s
  Failed-any {P} m s h = record { holds = HoldsErr-any P (m s).0 (m s).1 h }

  pub Failed-err :
      {P : S → Type 0} {m : Exec S A} {s : S} (x : Error)
      → Failed P m s
      → (m s).0 ≡ err x
      → P (m s).1
  Failed-err {P} {m} {s} x h e = HoldsErr-err P (m s).0 (m s).1 x e h.holds

  pub Failed-pure : {P : S → Type 0} (a : A) (s : S) → Failed P (pure a) s
  Failed-pure a s = record { holds = tt }

module _ {S A B : Type 0} where
  resume-HoldsErr :
      (P : S → Type 0) (f : A → Exec S B) (r : Result A) (s : S)
      → HoldsErr P r s
      → ((a : A) → r ≡ ok a → Failed P (f a) s)
      → HoldsErr P (resume f r s).0 (resume f r s).1
  resume-HoldsErr P f (ok a) s h k = (k a refl).holds
  resume-HoldsErr P f (err x) s h k = h

  pub Failed-bind :
      {P : S → Type 0} {m : Exec S A} {f : A → Exec S B} {s : S}
      → Failed P m s
      → ((a : A) → (m s).0 ≡ ok a → Failed P (f a) (m s).1)
      → Failed P (m >>= f) s
  unfolding ◌>>=◌
  Failed-bind {P} {m} {f} {s} h k = record { holds = resume-HoldsErr P f (m s).0 (m s).1 h.holds k }
