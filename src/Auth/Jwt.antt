-- ===== src/Auth/Jwt.antt =====
-- server/internal/auth/jwt.go. `Jwt` is the library github.com/golang-jwt/jwt/v5 with HS256: a token
-- that it signed is read back with the same secret until it expires. A time in a token is in whole
-- seconds, as NumericDate cuts it.
use yusui.Prelude.{ℕ, ◌+◌, ◌*◌, ◌/◌, ◌≡◌, Option, none, some, String, if◌then◌else◌, ltb}
use yusui.Exec.{Result, ok}
use yusui.Store.Rows.{UserRole}

pub data TokenKind : Type 0 where
  access refresh : TokenKind

-- The subject is the number that ParseInt finds in it, if any; `step_up_at` is 0 where it is left out.
pub record Claims : Type 0 where
  pub subject : Option ℕ
  pub issuer : String
  pub issued_at : ℕ
  pub expires_at : ℕ
  pub kind : TokenKind
  pub username : String
  pub role : UserRole
  pub step_up_at : ℕ

abbrev pub second : ℕ
second = 1_000_000_000

abbrev pub unexpired : ℕ → Claims → Option Claims
unexpired now c = if ltb now (c.expires_at * second) then some c else none

pub record Jwt (T : Type 0) : Type 0 where
  pub sign : String → Claims → Result T
  pub verify : String → ℕ → T → Option Claims
  pub verify-sign :
      (secret : String) (now : ℕ) (c : Claims) (t : T)
      → sign secret c ≡ ok t
      → verify secret now t ≡ unexpired now c

pub record Manager : Type 0 where
  pub secret : String
  pub access_ttl : ℕ
  pub refresh_ttl : ℕ

unfoldable pub claims_of : ℕ → TokenKind → ℕ → String → UserRole → ℕ → ℕ → Claims
claims_of now kind user_id username role ttl step_up_at = record {
  subject = some user_id;
  issuer = "yusui";
  issued_at = now / second;
  expires_at = (now + ttl) / second;
  kind = kind;
  username = username;
  role = role;
  step_up_at = step_up_at;
}

module _ {T : Type 0} (j : Jwt T) (m : Manager) where
  unfoldable pub issue_access : ℕ → ℕ → String → UserRole → ℕ → Result T
  issue_access now user_id username role step_up_at =
      j.sign m.secret (claims_of now access user_id username role m.access_ttl step_up_at)

  unfoldable pub issue_refresh : ℕ → ℕ → String → UserRole → Result T
  issue_refresh now user_id username role =
      j.sign m.secret (claims_of now refresh user_id username role m.refresh_ttl 0)

  unfoldable pub parse : ℕ → T → Option Claims
  parse now t = j.verify m.secret now t

  -- An access token gives back the user, the role and the step-up that it was issued with, until the
  -- second in which its lifetime ends; from then on it gives nothing.
  pub parse-issue_access :
      (now later user_id : ℕ) (username : String) (role : UserRole) (step_up_at : ℕ) (t : T)
      → issue_access now user_id username role step_up_at ≡ ok t
      → parse later t ≡ (
          if ltb later ((now + m.access_ttl) / second * second)
          then some (claims_of now access user_id username role m.access_ttl step_up_at)
          else none)
  unfolding issue_access parse claims_of
  parse-issue_access now later user_id username role step_up_at t h =
      j.verify-sign m.secret later _ t h
