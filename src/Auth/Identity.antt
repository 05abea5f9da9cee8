-- ===== src/Auth/Identity.antt =====
-- server/internal/auth/identity.go: the local accounts.
use yusui.Prelude.{ℕ, Bool, false, not, Option, none, some, List, String, if◌then◌else◌, ltb}
use yusui.Exec.{
  ok, pure, raise, attempt, ◌>>=◌, ◌>>◌, or_else, invalid_credentials, account_locked, inactive,
  mfa_unsupported,
}
use yusui.Store.Rows.{YusuiUser}
use yusui.Store.Conn.{Db}
use yusui.Store.Users.{get_user_by_username, get_user_by_id, mark_login_failure, mark_login_success}
use yusui.Auth.Password.{Rune, Bcrypt}

-- `LockedUntil.Time.After(now)`.
abbrev pub is_locked : Option ℕ → ℕ → Bool
is_locked none now = false
is_locked (some at) now = ltb now at

unfoldable pub read_clock : Db ℕ
read_clock c = (ok c.now, c)

module _ (b : Bcrypt) where
  abbrev pub password_ok : Option String → List Rune → Bool
  password_ok none pw = false
  password_ok (some h) pw = b.compare h pw

  -- A failure is counted, and what the count reports is dropped.
  unfoldable pub login_as : YusuiUser → ℕ → List Rune → Db YusuiUser
  login_as u now pw =
      if not u.is_active
      then raise inactive
      else if is_locked u.locked_until now
      then raise account_locked
      else if not (password_ok u.password_hash pw)
      then attempt (mark_login_failure u.id) >> raise invalid_credentials
      else if u.mfa_enabled
      then attempt (mark_login_failure u.id) >> raise mfa_unsupported
      else mark_login_success u.id >> pure u

  unfoldable pub login : String → List Rune → Db YusuiUser
  unfolding login_as read_clock
  login name pw = do
    u ← or_else invalid_credentials (get_user_by_username name)
    now ← read_clock
    login_as u now pw

  unfoldable pub step_up : ℕ → List Rune → Db (Unit {0})
  step_up id pw = do
    u ← or_else invalid_credentials (get_user_by_id id)
    if not (password_ok u.password_hash pw)
        then raise invalid_credentials
        else if u.mfa_enabled
        then raise mfa_unsupported
        else pure tt
