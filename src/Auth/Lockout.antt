-- ===== src/Auth/Lockout.antt =====
-- The lockout of server/internal/auth/identity.go: five wrong passwords in a row shut the account for
-- a quarter of an hour, for the right password too.
use yusui.Prelude.{
  ℕ, ◌+◌, ◌≤◌, ◌<◌, ◌≡◌, refl, sym, ap, subst, ◌∙◌, true, false, some, List, [], ◌∷◌, String, leb,
  ltb, length, All, arith, ==_refl,
}
use yusui.Exec.{err, ◌>>=◌, or_else, account_locked, invalid_credentials}
use yusui.Store.Rows.{YusuiUser}
use yusui.Store.Conn.{Conn, counted, query}
use yusui.Store.Users.{
  find_username, find_user, get_user_by_username, mark_login_failure, update_user, fail_row,
  lock_time, max_int, set_users,
}
use yusui.Auth.Password.{Rune, Bcrypt}
use yusui.Auth.Identity.{is_locked, read_clock, password_ok, login_as, login}

-- An active user of that name, whose id is no one else's, in a database that answers.
pub record Account (name : String) (c : Conn) (u : YusuiUser) : Type 0 where
  pub up : (n : ℕ) → c.fails n ≡ false
  pub found : find_username name c.users ≡ some u
  pub own : find_user u.id c.users ≡ some u
  pub active : u.is_active ≡ true

-- One try after the other, whatever they answer.
unfoldable pub tries : Bcrypt → String → List (List Rune) → Conn → Conn
tries b name [] c = c
tries b name (pw ∷ pws) c = tries b name pws (login b name pw c).1

find_username-update :
    (name : String) (u : YusuiUser) (f : YusuiUser → YusuiUser) (us : List YusuiUser)
    → ((x : YusuiUser) → (f x).username ≡ x.username)
    → find_username name us ≡ some u
    → find_username name (update_user u.id f us) ≡ some (f u)
unfolding update_user
find_username-update name u f [] keep h = cc
find_username-update name u f (x ∷ us) keep h =
    ground (arith, keep x, find_username-update name u f us keep, ==_refl u.id)

find_user-update :
    (u : YusuiUser) (f : YusuiUser → YusuiUser) (us : List YusuiUser)
    → ((x : YusuiUser) → (f x).id ≡ x.id)
    → find_user u.id us ≡ some u
    → find_user u.id (update_user u.id f us) ≡ some (f u)
unfolding update_user
find_user-update u f [] keep h = cc
find_user-update u f (x ∷ us) keep h = ground (arith, keep x, find_user-update u f us keep)

fail_row-username : (now : ℕ) (x : YusuiUser) → (fail_row now x).username ≡ x.username
unfolding fail_row
fail_row-username now x = refl

fail_row-id : (now : ℕ) (x : YusuiUser) → (fail_row now x).id ≡ x.id
unfolding fail_row
fail_row-id now x = refl

fail_row-active : (now : ℕ) (x : YusuiUser) → (fail_row now x).is_active ≡ x.is_active
unfolding fail_row
fail_row-active now x = refl

fail_row-hash : (now : ℕ) (x : YusuiUser) → (fail_row now x).password_hash ≡ x.password_hash
unfolding fail_row
fail_row-hash now x = refl

fail_row-count :
    (now : ℕ) (x : YusuiUser) → (fail_row now x).failed_login_count ≡ x.failed_login_count + 1
unfolding fail_row
fail_row-count now x = refl

fail_row-lock :
    (now : ℕ) (x : YusuiUser)
    → x.failed_login_count + 1 < 5
    → (fail_row now x).locked_until ≡ x.locked_until
unfolding fail_row
fail_row-lock now x h = ground arith

fifth :
    (now : ℕ) (x : YusuiUser)
    → x.failed_login_count + 1 ≡ 5
    → (fail_row now x).locked_until ≡ some (now + lock_time)
unfolding fail_row
fifth now x h = ground arith

abbrev pub later : ℕ → Conn → Conn
later t c = record c { now = c.now + t }

-- What a try that failed for its password leaves.
record Failed (name : String) (c : Conn) (u : YusuiUser) (d : Conn) : Type 0 where
  account : Account name d (fail_row c.now u)
  clock : d.now ≡ c.now

mark_failure-runs :
    (u : YusuiUser) (d : Conn)
    → ((n : ℕ) → d.fails n ≡ false)
    → find_user u.id d.users ≡ some u
    → leb max_int u.failed_login_count ≡ false
    → (mark_login_failure u.id d).1 ≡ record (counted d) {
      tables = set_users d.tables (update_user u.id (fail_row d.now) d.users);
    }
unfolding mark_login_failure query
mark_failure-runs u d up own small = rw (up d.calls, own, small) refl

module _ (b : Bcrypt) (name : String) where
  login-login_as :
      (pw : List Rune) (c : Conn) (u : YusuiUser)
      → Account name c u
      → login b name pw c ≡ login_as b u c.now pw (counted c)
  unfolding login read_clock or_else get_user_by_username query ◌>>=◌
  login-login_as pw c u a = rw (a.up c.calls, a.found) refl

  wrong_answer :
      (pw : List Rune) (now : ℕ) (u : YusuiUser) (d : Conn)
      → u.is_active ≡ true
      → is_locked u.locked_until now ≡ false
      → password_ok b u.password_hash pw ≡ false
      → login_as b u now pw d ≡ (err invalid_credentials, (mark_login_failure u.id d).1)
  unfolding login_as ◌>>=◌
  wrong_answer pw now u d active open_now wrong = ground (arith, active, open_now, wrong)

  locked_answer :
      (pw : List Rune) (now : ℕ) (u : YusuiUser) (d : Conn)
      → u.is_active ≡ true
      → is_locked u.locked_until now ≡ true
      → login_as b u now pw d ≡ (err account_locked, d)
  unfolding login_as
  locked_answer pw now u d active shut = ground (arith, active, shut)

  -- A wrong password is counted.
  wrong-Failed :
      (pw : List Rune) (c : Conn) (u : YusuiUser)
      → Account name c u
      → is_locked u.locked_until c.now ≡ false
      → u.failed_login_count < max_int
      → password_ok b u.password_hash pw ≡ false
      → Failed name c u (login b name pw c).1
  unfolding fail_row
  wrong-Failed pw c u a open_now small wrong = subst (Failed name c u) (sym left) (record {
    account = record {
      up = a.up;
      found =
          find_username-update name u (fail_row c.now) c.users (fail_row-username c.now) a.found;
      own = find_user-update u (fail_row c.now) c.users (fail_row-id c.now) a.own;
      active = fail_row-active c.now u ∙ a.active;
    };
    clock = refl;
  })
    where
      left : (login b name pw c).1 ≡ record (counted (counted c)) {
        tables = set_users c.tables (update_user u.id (fail_row c.now) c.users);
      }
      left =
          ap (λ r. r.1) (login-login_as pw c u a)
          ∙ ap (λ r. r.1) (wrong_answer pw c.now u (counted c) a.active open_now wrong)
          ∙ mark_failure-runs u (counted c) a.up a.own (ground arith)

  -- The user as the tries leave it, and the lock that stands.
  record Shut (c d : Conn) : Type 0 where
    user : YusuiUser
    account : Account name d user
    lock : user.locked_until ≡ some (c.now + lock_time)
    clock : d.now ≡ c.now

  tries-Shut :
      (pws : List (List Rune)) (c : Conn) (u : YusuiUser)
      → Account name c u
      → is_locked u.locked_until c.now ≡ false
      → All (λ pw. password_ok b u.password_hash pw ≡ false) pws
      → u.failed_login_count + length pws ≡ 5
      → 1 ≤ length pws
      → Shut c (tries b name pws c)
  unfolding tries
  tries-Shut [] c u a open_now wrong total more = absurd (omega arith)
  tries-Shut (pw ∷ []) c u a open_now wrong total more =
      let f = wrong-Failed pw c u a open_now (omega arith) wrong.0 in
      record {
        user = fail_row c.now u;
        account = f.account;
        lock = fifth c.now u (omega arith);
        clock = f.clock;
      }
  tries-Shut (pw ∷ pw' ∷ pws) c u a open_now wrong total more =
      let f = wrong-Failed pw c u a open_now (omega arith) wrong.0 in
      let early : u.failed_login_count + 1 < 5 = omega arith in
      let c' = (login b name pw c).1 in
      let still : is_locked (fail_row c.now u).locked_until c'.now ≡ false =
        ap (is_locked (fail_row c.now u).locked_until) f.clock
        ∙ ap (λ l. is_locked l c.now) (fail_row-lock c.now u early)
        ∙ open_now in
      let h =
        tries-Shut (pw' ∷ pws) c' (fail_row c.now u) f.account still
          (subst (λ k. All (λ p. password_ok b k p ≡ false) (pw' ∷ pws))
            (sym (fail_row-hash c.now u)) wrong.1)
          (omega (arith, fail_row-count c.now u)) (omega arith) in
      record {
        user = h.user;
        account = h.account;
        lock = h.lock ∙ ap (λ n. some (n + lock_time)) f.clock;
        clock = h.clock ∙ f.clock;
      }

  -- When an active user's database answers and no lock stands, the wrong passwords that bring the
  -- failure count to five shut the account: whatever is tried within the next quarter of an hour,
  -- the right password too, is answered that the account is locked.
  pub five_failures-lock :
      (pws : List (List Rune)) (c : Conn) (u : YusuiUser) (pw : List Rune) (t : ℕ)
      → Account name c u
      → is_locked u.locked_until c.now ≡ false
      → All (λ p. password_ok b u.password_hash p ≡ false) pws
      → u.failed_login_count + length pws ≡ 5
      → 1 ≤ length pws
      → t < lock_time
      → (login b name pw (later t (tries b name pws c))).0 ≡ err account_locked
  five_failures-lock pws c u pw t a open_now wrong total more soon =
      ap (λ r. r.0) (login-login_as pw (later t (tries b name pws c)) h.user account)
      ∙ ap (λ r. r.0)
          (locked_answer pw (later t (tries b name pws c)).now h.user
            (counted (later t (tries b name pws c))) account.active shut)
    where
      h : Shut c (tries b name pws c)
      h = tries-Shut pws c u a open_now wrong total more

      account : Account name (later t (tries b name pws c)) h.user
      account = record {
        up = h.account.up;
        found = h.account.found;
        own = h.account.own;
        active = h.account.active;
      }

      shut : is_locked h.user.locked_until (later t (tries b name pws c)).now ≡ true
      shut =
          ap (λ l. is_locked l ((tries b name pws c).now + t)) h.lock
          ∙ ap (λ n. ltb (n + t) (c.now + lock_time)) h.clock
          ∙ ground arith
