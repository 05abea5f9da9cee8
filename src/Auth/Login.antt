-- ===== src/Auth/Login.antt =====
-- Who Login of server/internal/auth/identity.go lets in.
use yusui.Prelude.{
  ℕ, ◌≡◌, refl, sym, ap, ◌∙◌, true, false, not, Option, none, some, List, String, arith,
}
use yusui.Exec.{ok, raise, inactive, account_locked, invalid_credentials}
use yusui.Exec.After.{
  Holds, After, After-imp, After-ok, After-pure, After-raise, After-if, After-bind, After-bind_any,
  After-or_else,
}
use yusui.Store.Rows.{YusuiUser}
use yusui.Store.Conn.{Conn, counted, one}
use yusui.Store.Laws.{After-query}
use yusui.Store.Users.{
  find_username, get_user_by_username, mark_login_success, update_user, success_row,
}
use yusui.Auth.Password.{Rune, Bcrypt}
use yusui.Auth.Identity.{is_locked, read_clock, password_ok, login_as, login}

-- A user who was let in, and what the login wrote.
pub record Authenticated (b : Bcrypt) (name : String) (pw : List Rune) (c : Conn) (u : YusuiUser)
    (d : Conn) : Type 0 where
  pub found : find_username name c.users ≡ some u
  pub active : u.is_active ≡ true
  pub unlocked : is_locked u.locked_until c.now ≡ false
  pub verified : password_ok b u.password_hash pw ≡ true
  pub no_mfa : u.mfa_enabled ≡ false
  pub reset : d.users ≡ update_user u.id (success_row c.now) c.users
  pub clock : d.now ≡ c.now

one-found :
    (o : Option YusuiUser) (c : Conn)
    → Holds (λ u d. (o ≡ some u) × (d.users ≡ c.users) × (d.now ≡ c.now)) (one o) (counted c)
one-found none c = tt
one-found (some u) c = (refl, refl, refl)

get_user-After :
    (name : String) (c : Conn)
    → After
        (λ u d. (find_username name c.users ≡ some u) × (d.users ≡ c.users) × (d.now ≡ c.now))
        (get_user_by_username name)
        c
unfolding get_user_by_username
get_user-After name c = After-query (record { holds = one-found (find_username name c.users) c })

mark_success-After :
    (id : ℕ) (c : Conn)
    → After
        (λ _ d. (d.users ≡ update_user id (success_row c.now) c.users) × (d.now ≡ c.now))
        (mark_login_success id)
        c
unfolding mark_login_success
mark_success-After id c = After-query (record { holds = (refl, refl) })

module _ (b : Bcrypt) (name : String) (pw : List Rune) (c : Conn) where
  login_as-After :
      (u : YusuiUser) (d : Conn)
      → find_username name c.users ≡ some u
      → d.users ≡ c.users
      → d.now ≡ c.now
      → After (λ v e. Authenticated b name pw c v e) (login_as b u d.now pw) d
  unfolding login_as
  login_as-After u d found same clock =
      After-if (not u.is_active) {m = raise inactive} (λ _. After-raise _ _)
        (λ active.
          After-if (is_locked u.locked_until d.now) {m = raise account_locked}
            (λ _. After-raise _ _)
            (λ open_now.
              After-if (not (password_ok b u.password_hash pw))
                (λ _. After-bind_any _ (λ _. After-raise _ _))
                (λ good.
                  After-if u.mfa_enabled (λ _. After-bind_any _ (λ _. After-raise _ _))
                    (λ plain. After-bind (
                      After-imp
                        (λ _ e h. After-pure u e (record {
                          found = found;
                          active = ground (arith, active);
                          unlocked = ap (is_locked u.locked_until) (sym clock) ∙ open_now;
                          verified = ground (arith, good);
                          no_mfa = plain;
                          reset = h.0 ∙ cc (same, clock);
                          clock = h.1 ∙ clock;
                        }))
                        (mark_success-After u.id d))))))

  login-After : After (λ u d. Authenticated b name pw c u d) (login b name pw) c
  unfolding login read_clock
  login-After = After-bind (
      After-imp (λ u d h. After-bind (record { holds = login_as-After u d h.0 h.1 h.2 }))
        (After-or_else invalid_credentials (get_user-After name c)))

  pub login-Authenticated :
      (u : YusuiUser)
      → (login b name pw c).0 ≡ ok u
      → Authenticated b name pw c u (login b name pw c).1
  login-Authenticated u h = After-ok login-After u h
