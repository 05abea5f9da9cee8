-- ===== src/Auth/Password.antt =====
-- server/internal/auth/password.go. A password is what ranging over its text gives: code points,
-- each with the bytes that it takes. The classes are those of the unicode package, and `verify`
-- compares a password with a bcrypt hash.
use yusui.Prelude.{ℕ, ◌+◌, Bool, true, false, List, [], ◌∷◌, String, if◌then◌else◌, ltb}
use yusui.Exec.{Result, ok, err, validation}

pub record Rune : Type 0 where
  pub code : ℕ
  pub size : ℕ

pub record Unicode : Type 0 where
  pub is_lower : ℕ → Bool
  pub is_upper : ℕ → Bool
  pub is_digit : ℕ → Bool

pub record Bcrypt : Type 0 where
  pub generate : List Rune → Result String
  pub compare : String → List Rune → Bool

-- `len` of a text counts bytes.
unfoldable pub byte_length : List Rune → ℕ
byte_length [] = 0
byte_length (r ∷ rs) = r.size + byte_length rs

-- The four flags of the loop.
pub record Classes : Type 0 where
  pub lower : Bool
  pub upper : Bool
  pub digit : Bool
  pub sym : Bool

abbrev pub no_classes : Classes
no_classes = record { lower = false; upper = false; digit = false; sym = false }

abbrev pub bit : Bool → ℕ
bit true = 1
bit false = 0

abbrev pub class_count : Classes → ℕ
class_count k = bit k.lower + bit k.upper + bit k.digit + bit k.sym

module _ (u : Unicode) where
  unfoldable pub note : Rune → Classes → Classes
  note r k =
      if u.is_lower r.code
      then record k { lower = true }
      else if u.is_upper r.code
      then record k { upper = true }
      else if u.is_digit r.code
      then record k { digit = true }
      else record k { sym = true }

  unfoldable pub classes_of : List Rune → Classes → Classes
  unfolding note
  classes_of [] k = k
  classes_of (r ∷ rs) k = classes_of rs (note r k)

  unfoldable pub check_policy : List Rune → Result (Unit {0})
  unfolding classes_of byte_length
  check_policy pw =
      if ltb (byte_length pw) 12
      then err validation
      else if ltb (class_count (classes_of pw no_classes)) 3
      then err validation
      else ok tt
