-- ===== src/Examples/Accounts.antt =====
-- The theorems on accounts, passwords and tokens, at concrete inputs.
use yusui.Prelude.{ℕ, ◌≡◌, refl, some, List, [], ◌∷◌, ◌&&◌, if◌then◌else◌, leb, arith}
use yusui.Exec.{ok, err, account_locked, validation, ◌>>=◌, or_else}
use yusui.Store.Rows.{YusuiUser, UserRole}
use yusui.Store.Conn.{Conn, query}
use yusui.Store.Users.{get_user_by_username, get_user_by_id, mark_login_success}
use yusui.Auth.Password.{Rune, byte_length, check_policy}
use yusui.Auth.Policy.{kinds, check_policy-eq-kinds}
use yusui.Auth.Identity.{login, login_as, read_clock}
use yusui.Auth.Login.{Authenticated}
use yusui.Auth.Lockout.{Account, tries, later, five_failures-lock}
use yusui.Auth.Jwt.{TokenKind, claims_of, issue_access, issue_refresh, parse}
use yusui.Auth.Guards.{reply}
use yusui.Http.Accounts.{Tokens, login_handler, refresh_handler, refresh_subject, to_public_user}
use yusui.Http.Sessions.{Signed, login_handler-Signed, Refreshed, refresh_handler-Refreshed}
use yusui.Examples.World.{tables, conn_of}
use yusui.Examples.Tokens.{ascii, secret, wrong, hash, Token, plain, manager, alice}

check_policy-eq-kinds_example :
    check_policy ascii secret
    ≡ (if leb 12 (byte_length secret) && leb 3 (kinds ascii secret) then ok tt else err validation)
check_policy-eq-kinds_example = check_policy-eq-kinds ascii secret

abbrev conn : Conn
conn = record (conn_of (record tables { users = alice ∷ [] })) { now = 5_000_000_000 }

alice-Account : Account "alice" conn alice
alice-Account = record { up = λ n. refl; found = refl; own = refl; active = refl }

abbrev guesses : List (List Rune)
guesses = wrong ∷ wrong ∷ wrong ∷ wrong ∷ wrong ∷ []

five_failures-lock_example :
    (login hash "alice" secret (later 60_000_000_000 (tries hash "alice" guesses conn))).0
    ≡ err account_locked
five_failures-lock_example =
    five_failures-lock hash "alice" guesses conn alice secret 60_000_000_000 alice-Account refl
      (refl, (refl, (refl, (refl, (refl, tt))))) refl (omega arith) (omega arith)

abbrev issued : Token
issued = (
  "key",
  claims_of 5_000_000_000 TokenKind.access 2 "alice" UserRole.approver 1_800_000_000_000 5,
)

abbrev renewal : Token
renewal = (
  "key",
  claims_of 5_000_000_000 TokenKind.refresh 2 "alice" UserRole.approver 43_200_000_000_000 0,
)

abbrev session : Tokens Token
session = record { access_token = issued; refresh_token = renewal; user = to_public_user alice }

login_handler_runs :
    (login_handler hash plain manager (some ("alice", secret)) conn).0 ≡ reply 200 session
unfolding login_handler login or_else get_user_by_username query read_clock login_as
    mark_login_success ◌>>=◌ issue_access issue_refresh
login_handler_runs = refl

login_handler-Signed_example :
    (u : YusuiUser) × Authenticated hash "alice" secret conn u
      (login_handler hash plain manager (some ("alice", secret)) conn).1
    × Signed plain manager u conn.now session
login_handler-Signed_example =
    login_handler-Signed hash plain manager "alice" secret conn 200 session login_handler_runs

abbrev renewed : Token
renewed = (
  "key",
  claims_of 5_000_000_000 TokenKind.access 2 "alice" UserRole.approver 1_800_000_000_000 0,
)

refresh_runs : (refresh_handler hash plain manager (some renewal) conn).0 ≡ reply 200 renewed
unfolding refresh_handler get_user_by_id query parse claims_of issue_access
refresh_runs = refl

refresh_handler-Refreshed_example :
    (id : ℕ) × (refresh_subject (parse plain manager conn.now renewal) ≡ some id)
    × Refreshed hash plain manager id conn renewed
refresh_handler-Refreshed_example =
    refresh_handler-Refreshed hash plain manager renewal renewed conn 200 refresh_runs
