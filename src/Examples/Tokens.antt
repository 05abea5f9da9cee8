-- ===== src/Examples/Tokens.antt =====
-- A token library, a hash and character classes in place of those that the server links.
use yusui.Prelude.{
  ℕ, ◌≡◌, sym, ap, ◌∙◌, Bool, true, false, ◌&&◌, Option, none, some, List, [], ◌∷◌, String, str_eq,
  str_eq_refl, if◌then◌else◌, leb, ◌==◌,
}
use yusui.Exec.{Result, ok, err}
use yusui.Store.Rows.{YusuiUser, UserRole}
use yusui.Auth.Password.{Rune, Unicode, Bcrypt}
use yusui.Auth.Jwt.{Claims, Jwt, Manager, unexpired}
use yusui.Examples.World.{user}

abbrev pub within : ℕ → ℕ → ℕ → Bool
within a b n = leb a n && leb n b

abbrev pub ascii : Unicode
ascii = record { is_lower = within 97 122; is_upper = within 65 90; is_digit = within 48 57 }

abbrev pub letter : ℕ → Rune
letter n = record { code = n; size = 1 }

abbrev pub same_runes : List Rune → List Rune → Bool
same_runes [] [] = true
same_runes [] (r ∷ rs) = false
same_runes (q ∷ qs) [] = false
same_runes (q ∷ qs) (r ∷ rs) = q.code == r.code && same_runes qs rs

abbrev pub secret : List Rune
secret = letter 97 ∷ letter 66 ∷ letter 49 ∷ []

abbrev pub wrong : List Rune
wrong = letter 98 ∷ []

-- One hash, of one password.
abbrev pub hash : Bcrypt
hash = record { generate = λ pw. ok "h"; compare = λ h pw. str_eq h "h" && same_runes pw secret }

-- A token that shows its claims and the secret that it was signed with.
abbrev pub Token : Type 0
Token = String × Claims

abbrev pub opened : String → ℕ → Token → Option Claims
opened s now t = if str_eq s t.0 then unexpired now t.1 else none

pub opened-pair : (s : String) (now : ℕ) (c : Claims) → opened s now (s, c) ≡ unexpired now c
opened-pair s now c = rw (str_eq_refl s)

abbrev pub token_of : Result Token → Token → Token
token_of (ok t) u = t
token_of (err x) u = u

abbrev pub plain : Jwt Token
plain = record {
  sign = λ s c. ok (s, c);
  verify = opened;
  verify-sign =
      λ s now c t h. ap (opened s now) (sym (ap (λ r. token_of r t) h)) ∙ opened-pair s now c;
}

abbrev pub manager : Manager
manager = record {
  secret = "key";
  access_ttl = 1_800_000_000_000;
  refresh_ttl = 43_200_000_000_000;
}

abbrev pub alice : YusuiUser
alice = record (user 2 UserRole.approver) { username = "alice"; password_hash = some "h" }
