-- ===== src/Auth/Guards.antt =====
-- server/internal/auth/middleware.go. A handler reads the world and answers; a request carries the
-- text after "Bearer ", if there is one. Behind `authenticator` a principal is always there, so the
-- guards do not ask for it again.
use yusui.Prelude.{
  ℕ, ◌+◌, ◌*◌, Bool, true, false, ◌||◌, Option, none, some, List, [], ◌∷◌, String, if◌then◌else◌,
  ◌==◌, ltb,
}
use yusui.Store.Rows.{UserRole, requester, approver, admin}
use yusui.Auth.Jwt.{Jwt, Manager, Claims, TokenKind, access, refresh, parse, second}

-- A status code with a body, or with the code of an error.
pub data Answer (A : Type 0) : Type 0 where
  reply : (status : ℕ) → A → Answer A
  refuse : (status : ℕ) → (code : String) → Answer A

abbrev pub Handler : Type 0 → Type 0 → Type 0
Handler W A = W → Answer A × W

pub record Principal : Type 0 where
  pub user_id : ℕ
  pub username : String
  pub role : UserRole
  pub step_up_at : ℕ

abbrev pub same_role : UserRole → UserRole → Bool
same_role requester requester = true
same_role approver approver = true
same_role admin admin = true
same_role _ _ = false

abbrev pub has_role : UserRole → List UserRole → Bool
has_role r [] = false
has_role r (s ∷ ss) = same_role s r || has_role r ss

abbrev pub principal_of : Claims → Option Principal
principal_of c = elim c.subject [
  | none ↦ none
  | some id ↦
      some
        (record { user_id = id; username = c.username; role = c.role; step_up_at = c.step_up_at })
]

abbrev pub is_access : TokenKind → Bool
is_access access = true
is_access refresh = false

abbrev pub accepted : Option Claims → Option Principal
accepted none = none
accepted (some c) = if is_access c.kind then principal_of c else none

abbrev pub is_recent : ℕ → ℕ → Principal → Bool
is_recent window now p =
    if p.step_up_at == 0
    then false
    else if ltb (p.step_up_at * second + window) now
    then false
    else true

module _ {T : Type 0} (j : Jwt T) (m : Manager) where
  -- The principal that a request's token stands for.
  unfoldable pub caller : ℕ → Option T → Option Principal
  caller now none = none
  caller now (some t) = accepted (parse j m now t)

module _ {W A : Type 0} where
  abbrev pub answer : Answer A → Handler W A
  answer a w = (a, w)

  abbrev pub admit : Option Principal → (Principal → Handler W A) → Handler W A
  admit none next = answer (refuse 401 "unauthorized")
  admit (some p) next = next p

  unfoldable pub require_role : List UserRole → (Principal → Handler W A) → Principal → Handler W A
  require_role roles next p =
      if has_role p.role roles then next p else answer (refuse 403 "insufficient_role")

  unfoldable pub require_step_up : (W → ℕ) → ℕ → (Principal → Handler W A) → Principal → Handler W A
  require_step_up clock window next p w =
      if is_recent window (clock w) p then next p w else (refuse 403 "stepup_required", w)

  module _ {T : Type 0} (j : Jwt T) (m : Manager) where
    unfoldable pub authenticator : (W → ℕ) → Option T → (Principal → Handler W A) → Handler W A
    unfolding caller
    authenticator clock bearer next w = admit (caller j m (clock w) bearer) next w
