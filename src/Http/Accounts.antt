-- ===== src/Http/Accounts.antt =====
-- server/internal/httpapi/auth.go: login, refresh, me and step-up. A body that does not decode is
-- `none`.
use yusui.Prelude.{ℕ, ◌/◌, Bool, true, false, Option, none, some, List, String, if◌then◌else◌}
use yusui.Exec.{Error, Result, ok, err, account_locked, inactive, mfa_unsupported}
use yusui.Store.Rows.{YusuiUser, UserRole}
use yusui.Store.Conn.{Conn}
use yusui.Store.Users.{get_user_by_id}
use yusui.Auth.Password.{Rune, Bcrypt}
use yusui.Auth.Identity.{login, step_up}
use yusui.Auth.Jwt.{
  Jwt, Manager, Claims, TokenKind, access, refresh, second, issue_access, issue_refresh, parse,
}
use yusui.Auth.Guards.{Answer, reply, refuse, Handler, Principal}

-- `publicUser`.
pub record PublicUser : Type 0 where
  pub id : ℕ
  pub username : String
  pub display_name : Option String
  pub email : Option String
  pub role : UserRole
  pub mfa_enabled : Bool
  pub is_active : Bool

unfoldable pub to_public_user : YusuiUser → PublicUser
to_public_user u = record {
  id = u.id;
  username = u.username;
  display_name = u.display_name;
  email = u.email;
  role = u.role;
  mfa_enabled = u.mfa_enabled;
  is_active = u.is_active;
}

pub record Tokens (T : Type 0) : Type 0 where
  pub access_token : T
  pub refresh_token : T
  pub user : PublicUser

abbrev pub login_failure : {A : Type 0} → Error → Answer A
login_failure account_locked = refuse 423 "account_locked"
login_failure inactive = refuse 403 "account_inactive"
login_failure mfa_unsupported = refuse 501 "mfa_unsupported"
login_failure _ = refuse 401 "invalid_credentials"

abbrev pub invalid_refresh : {A : Type 0} → Answer A
invalid_refresh = refuse 401 "invalid_refresh"

abbrev pub is_refresh : TokenKind → Bool
is_refresh refresh = true
is_refresh access = false

-- The user id in a refresh token.
abbrev pub refresh_subject : Option Claims → Option ℕ
refresh_subject none = none
refresh_subject (some c) = if is_refresh c.kind then c.subject else none

abbrev pub issued : {T : Type 0} → Result T → Answer T
issued (ok t) = reply 200 t
issued (err x) = refuse 500 "internal"

module _ {T : Type 0} (b : Bcrypt) (j : Jwt T) (m : Manager) where
  abbrev pub both : YusuiUser → Result T → Result T → Answer (Tokens T)
  both u (ok a) (ok r) =
      reply 200 (record { access_token = a; refresh_token = r; user = to_public_user u })
  both u (err x) r = refuse 500 "internal"
  both u (ok a) (err x) = refuse 500 "internal"

  -- A fresh login counts as a step-up.
  abbrev pub logged_in : ℕ → Result YusuiUser → Answer (Tokens T)
  logged_in now (err x) = login_failure x
  logged_in now (ok u) =
      both u (issue_access j m now u.id u.username u.role (now / second))
        (issue_refresh j m now u.id u.username u.role)

  unfoldable pub login_handler : Option (String × List Rune) → Handler Conn (Tokens T)
  unfolding to_public_user
  login_handler none c = (refuse 400 "bad_request", c)
  login_handler (some (name, pw)) c = let r = login b name pw c in (logged_in r.1.now r.0, r.1)

  -- The new token has no step-up.
  abbrev pub refreshed : ℕ → Result YusuiUser → Answer T
  refreshed now (err x) = invalid_refresh
  refreshed now (ok u) =
      if u.is_active
      then issued (issue_access j m now u.id u.username u.role 0)
      else invalid_refresh

  abbrev pub refresh_for : Option ℕ → Handler Conn T
  refresh_for none c = (invalid_refresh, c)
  refresh_for (some id) c = let r = get_user_by_id id c in (refreshed r.1.now r.0, r.1)

  unfoldable pub refresh_handler : Option T → Handler Conn T
  refresh_handler none c = (refuse 400 "bad_request", c)
  refresh_handler (some t) c = refresh_for (refresh_subject (parse j m c.now t)) c

  abbrev pub stepped_up : ℕ → Principal → Result (Unit {0}) → Answer T
  stepped_up now p (err x) = refuse 401 "stepup_failed"
  stepped_up now p (ok u) = issued (issue_access j m now p.user_id p.username p.role (now / second))

  unfoldable pub stepup_handler : Option (List Rune) → Principal → Handler Conn T
  stepup_handler none p c = (refuse 400 "bad_request", c)
  stepup_handler (some pw) p c = let r = step_up b p.user_id pw c in (stepped_up r.1.now p r.0, r.1)

abbrev pub me_of : Result YusuiUser → Answer PublicUser
me_of (err x) = refuse 404 "user_not_found"
me_of (ok u) = reply 200 (to_public_user u)

unfoldable pub me_handler : Principal → Handler Conn PublicUser
unfolding to_public_user
me_handler p c = let r = get_user_by_id p.user_id c in (me_of r.0, r.1)
