-- ===== src/Store/Users.antt =====
-- server/internal/store/users.sql.go. The clock of the database is that of the server.
use yusui.Prelude.{
  ℕ, ◌+◌, Bool, true, false, not, ◌||◌, Option, none, some, List, [], ◌∷◌, ◌++◌, String, str_eq,
  if◌then◌else◌, ◌==◌, leb, first, exists, length, map,
}
use yusui.Exec.{ok, err, constraint, duplicate, no_rows, Result}
use yusui.Store.Rows.{YusuiUser, UserRole}
use yusui.Store.Conn.{Tables, Db, query, read, one, write}

abbrev pub find_user : ℕ → List YusuiUser → Option YusuiUser
find_user id = first (λ u. u.id == id)

abbrev pub find_username : String → List YusuiUser → Option YusuiUser
find_username name = first (λ u. str_eq u.username name)

-- `UPDATE … WHERE id = $1`.
unfoldable pub update_user : ℕ → (YusuiUser → YusuiUser) → List YusuiUser → List YusuiUser
update_user id f [] = []
update_user id f (u ∷ us) = (if u.id == id then f u else u) ∷ update_user id f us

abbrev pub set_users : Tables → List YusuiUser → Tables
set_users d us = record d { users = us }

unfoldable pub count_users : Db ℕ
count_users = read λ c. ok (length c.users)

unfoldable pub get_user_by_id : ℕ → Db YusuiUser
get_user_by_id id = read λ c. one (find_user id c.users)

unfoldable pub get_user_by_username : String → Db YusuiUser
get_user_by_username name = read λ c. one (find_username name c.users)

-- interval '15 minutes'
abbrev pub lock_time : ℕ
lock_time = 900_000_000_000

unfoldable pub fail_row : ℕ → YusuiUser → YusuiUser
fail_row now u = record u {
  failed_login_count = u.failed_login_count + 1;
  locked_until =
      if leb 5 (u.failed_login_count + 1) then some (now + lock_time) else u.locked_until;
  updated_at = now;
}

-- The column is an INT: counting past its largest value is an error.
abbrev pub max_int : ℕ
max_int = 2147483647

abbrev pub counted_out : Option YusuiUser → Bool
counted_out none = false
counted_out (some u) = leb max_int u.failed_login_count

-- What RETURNING gives of the row.
abbrev pub failure_of : Option YusuiUser → Result (ℕ × Option ℕ)
failure_of none = err no_rows
failure_of (some u) = ok (u.failed_login_count, u.locked_until)

unfoldable pub mark_login_failure : ℕ → Db (ℕ × Option ℕ)
unfolding fail_row
mark_login_failure id = query λ c.
    let us = update_user id (fail_row c.now) c.users in
    if counted_out (find_user id c.users)
    then (err constraint, c)
    else (failure_of (find_user id us), record c { tables = set_users c.tables us })

unfoldable pub success_row : ℕ → YusuiUser → YusuiUser
success_row now u = record u {
  last_login_at = some now;
  failed_login_count = 0;
  locked_until = none;
  updated_at = now;
}

unfoldable pub mark_login_success : ℕ → Db (Unit {0})
unfolding success_row
mark_login_success id = write λ c. set_users c.tables (update_user id (success_row c.now) c.users)

pub record CreateUserParams : Type 0 where
  pub username : String
  pub display_name : Option String
  pub email : Option String
  pub role : UserRole
  pub password_hash : Option String
  pub mfa_secret_enc : List ℕ
  pub mfa_enabled : Bool

abbrev pub same_text : Option String → Option String → Bool
same_text none t = false
same_text (some s) none = false
same_text (some s) (some t) = str_eq s t

abbrev pub is_present : Option String → Bool
is_present none = false
is_present (some s) = true

-- The UNIQUE lines: a NULL is like no other value.
unfoldable pub is_taken : List YusuiUser → CreateUserParams → Bool
is_taken us a =
    exists (λ u. str_eq u.username a.username) us || exists (λ u. same_text u.email a.email) us

unfoldable pub new_user : ℕ → ℕ → CreateUserParams → YusuiUser
new_user id now a = record {
  id = id;
  username = a.username;
  display_name = a.display_name;
  email = a.email;
  role = a.role;
  password_hash = a.password_hash;
  password_alg = "bcrypt";
  password_changed_at = none;
  mfa_secret_enc = a.mfa_secret_enc;
  mfa_enabled = a.mfa_enabled;
  failed_login_count = 0;
  locked_until = none;
  last_login_at = none;
  external_id = none;
  external_issuer = none;
  is_active = true;
  created_at = now;
  updated_at = now;
}

-- A local account has to have a password.
unfoldable pub create_user : CreateUserParams → Db YusuiUser
unfolding is_taken
create_user a = query λ c.
    let u = new_user c.seq c.now a in
    let d = record c { seq = c.seq + 1 } in
    if not (is_present a.password_hash)
    then (err constraint, d)
    else if is_taken c.users a || exists (λ x. x.id == c.seq) c.users
    then (err duplicate, d)
    else (ok u, record d { tables = set_users c.tables (c.users ++ u ∷ []) })

-- The columns without secrets.
pub record ListUsersRow : Type 0 where
  pub id : ℕ
  pub username : String
  pub display_name : Option String
  pub email : Option String
  pub role : UserRole
  pub mfa_enabled : Bool
  pub is_active : Bool
  pub last_login_at : Option ℕ
  pub created_at : ℕ

abbrev pub user_row : YusuiUser → ListUsersRow
user_row u = record {
  id = u.id;
  username = u.username;
  display_name = u.display_name;
  email = u.email;
  role = u.role;
  mfa_enabled = u.mfa_enabled;
  is_active = u.is_active;
  last_login_at = u.last_login_at;
  created_at = u.created_at;
}

unfoldable pub list_users : Db (List ListUsersRow)
list_users = read λ c. ok (map user_row c.users)
