-- ===== src/Auth/Policy.antt =====
-- What CheckPolicy of server/internal/auth/password.go accepts, said without its loop.
use yusui.Prelude.{
  ℕ, ◌+◌, ◌≡◌, ◌∙◌, Bool, not, ◌&&◌, ◌||◌, List, [], ◌∷◌, exists, leb, if◌then◌else◌, arith,
}
use yusui.Exec.{ok, err, validation}
use yusui.Auth.Password.{
  Rune, Unicode, Classes, byte_length, bit, no_classes, note, classes_of, check_policy,
}

module _ (u : Unicode) where
  abbrev pub lower : Rune → Bool
  lower r = u.is_lower r.code

  abbrev pub upper : Rune → Bool
  upper r = not (lower r) && u.is_upper r.code

  abbrev pub digit : Rune → Bool
  digit r = not (lower r) && not (u.is_upper r.code) && u.is_digit r.code

  abbrev pub sym : Rune → Bool
  sym r = not (lower r) && not (u.is_upper r.code) && not (u.is_digit r.code)

  -- How many of the four kinds of characters a password has.
  abbrev pub kinds : List Rune → ℕ
  kinds pw =
      bit (exists lower pw) + bit (exists upper pw) + bit (exists digit pw) + bit (exists sym pw)

  abbrev with_kinds : Classes → List Rune → Classes
  with_kinds k pw = record {
    lower = k.lower || exists lower pw;
    upper = k.upper || exists upper pw;
    digit = k.digit || exists digit pw;
    sym = k.sym || exists sym pw;
  }

  note-with_kinds :
      (r : Rune) (rs : List Rune) (k : Classes) → with_kinds (note u r k) rs ≡ with_kinds k (r ∷ rs)
  unfolding note
  note-with_kinds r rs k = ground arith

  classes_of-with_kinds : (pw : List Rune) (k : Classes) → classes_of u pw k ≡ with_kinds k pw
  unfolding classes_of
  classes_of-with_kinds [] k = ground arith
  classes_of-with_kinds (r ∷ rs) k = classes_of-with_kinds rs (note u r k) ∙ note-with_kinds r rs k

  -- CheckPolicy accepts a password exactly when it takes at least twelve bytes and has characters of
  -- at least three of the four kinds: lower case, upper case, digits and all others.
  pub check_policy-eq-kinds :
      (pw : List Rune)
      → check_policy u pw
        ≡ (if leb 12 (byte_length pw) && leb 3 (kinds pw) then ok tt else err validation)
  unfolding check_policy
  check_policy-eq-kinds pw = rw (classes_of-with_kinds pw no_classes, check_policy) (ground arith)
