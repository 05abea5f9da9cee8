-- ===== src/Exec/Gives.antt =====
-- A call that is bound to succeed, with what then holds, and one rule for each way to build a call.
use yusui.Prelude.{◌≡◌, refl, sym, subst}
use yusui.Exec.{Result, ok, Exec, pure, attempt, ◌>>=◌, resume}

module _ {S A : Type 0} where
  pub record Gives (Q : A → S → Type 0) (m : Exec S A) (s : S) : Type 0 where
    pub value : A
    pub result : (m s).0 ≡ ok value
    pub has : Q value (m s).1

  pub Gives-pure : {Q : A → S → Type 0} (a : A) (s : S) → Q a s → Gives Q (pure a) s
  Gives-pure a s h = record { value = a; result = refl; has = h }

  pub Gives-imp :
      {P Q : A → S → Type 0} {m : Exec S A} {s : S}
      → ((a : A) (t : S) → P a t → Q a t)
      → Gives P m s
      → Gives Q m s
  Gives-imp {P} {Q} {m} {s} f h = record {
    value = h.value;
    result = h.result;
    has = f h.value (m s).1 h.has;
  }

module _ {S A : Type 0} where
  -- An attempt never fails.
  pub Gives-attempt :
      {Q : Result A → S → Type 0} (m : Exec S A) (s : S) → Q (m s).0 (m s).1 → Gives Q (attempt m) s
  Gives-attempt m s h = record { value = (m s).0; result = refl; has = h }

module _ {S A B : Type 0} where
  resume-Gives :
      {Q : B → S → Type 0} (f : A → Exec S B) (r : Result A) (s : S) (a : A)
      → r ≡ ok a
      → Gives Q (f a) s
      → Gives Q (resume f r) s
  resume-Gives {Q} f r s a e h =
      subst (λ x. Gives Q (resume f x) s) (sym e)
        (record { value = h.value; result = h.result; has = h.has })

  pub Gives-bind :
      {Q : B → S → Type 0} {m : Exec S A} {f : A → Exec S B} {s : S}
      → Gives (λ a. Gives Q (f a)) m s
      → Gives Q (m >>= f) s
  unfolding ◌>>=◌
  Gives-bind {Q} {m} {f} {s} h =
      let r = resume-Gives f (m s).0 (m s).1 h.value h.result h.has in
      record { value = r.value; result = r.result; has = r.has }
