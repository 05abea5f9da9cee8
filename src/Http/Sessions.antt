-- ===== src/Http/Sessions.antt =====
-- What the tokens of server/internal/httpapi/auth.go are good for.
use yusui.Prelude.{
  ℕ, ◌+◌, ◌*◌, ◌/◌, ◌≡◌, refl, sym, ap, subst, ◌∙◌, Bool, true, false, Option, none, some, List,
  String, if◌then◌else◌, ltb, Bool-cases, inl, inr, arith,
}
use yusui.Exec.{Error, Result, ok, err}
use yusui.Exec.After.{Holds, After, After-ok}
use yusui.Store.Rows.{YusuiUser}
use yusui.Store.Conn.{Conn, one, counted}
use yusui.Store.Laws.{After-query}
use yusui.Store.Users.{find_user, get_user_by_id}
use yusui.Auth.Password.{Rune, Bcrypt}
use yusui.Auth.Identity.{login}
use yusui.Auth.Jwt.{
  Jwt, Manager, second, claims_of, issue_access, issue_refresh, parse, parse-issue_access,
}
use yusui.Auth.Guards.{reply, Principal, caller, accepted, is_recent}
use yusui.Auth.Login.{Authenticated, login-Authenticated}
use yusui.Http.Accounts.{
  to_public_user, Tokens, login_failure, login_handler, refresh_handler, refresh_for, refreshed,
  logged_in, both, issued, refresh_subject, invalid_refresh,
}
use yusui.Http.Admission.{is_reply, no_reply, refuse-reply}

-- The principal of a user, stepped up at a time in seconds, or never for 0.
abbrev pub principal : YusuiUser → ℕ → Principal
principal u at = record { user_id = u.id; username = u.username; role = u.role; step_up_at = at }

module _ {T : Type 0} (j : Jwt T) (m : Manager) where
  -- The instant at which an access token issued at `now` ends.
  abbrev pub ends : ℕ → ℕ
  ends now = (now + m.access_ttl) / second * second

  caller-issue_access :
      (now later at : ℕ) (u : YusuiUser) (t : T)
      → issue_access j m now u.id u.username u.role at ≡ ok t
      → caller j m later (some t) ≡ (if ltb later (ends now) then some (principal u at) else none)
  unfolding caller claims_of
  caller-issue_access now later at u t h = elim (Bool-cases (ltb later (ends now))) [
    | inl live ↦
        ap accepted (parse-issue_access j m now later u.id u.username u.role at t h) ∙ rw live
    | inr over ↦
        ap accepted (parse-issue_access j m now later u.id u.username u.role at t h) ∙ rw over
  ]

  -- A refresh token admits nobody.
  caller-issue_refresh :
      (now later : ℕ) (u : YusuiUser) (t : T)
      → issue_refresh j m now u.id u.username u.role ≡ ok t
      → caller j m later (some t) ≡ none
  unfolding caller parse issue_refresh claims_of
  caller-issue_refresh now later u t h =
      elim (Bool-cases (ltb later ((now + m.refresh_ttl) / second * second))) [
        | inl live ↦ ap accepted (j.verify-sign m.secret later _ t h) ∙ rw live
        | inr over ↦ ap accepted (j.verify-sign m.secret later _ t h) ∙ rw over
      ]

  -- The two tokens of a login.
  pub record Signed (u : YusuiUser) (now : ℕ) (a : Tokens T) : Type 0 where
    pub user : a.user ≡ to_public_user u
    pub access :
        (later : ℕ)
        → caller j m later (some a.access_token)
          ≡ (if ltb later (ends now) then some (principal u (now / second)) else none)
    pub refresh : (later : ℕ) → caller j m later (some a.refresh_token) ≡ none

login_failure-is_reply : (A : Type 0) (x : Error) → is_reply (login_failure {A = A} x) ≡ false
unfolding is_reply
login_failure-is_reply A x = grind arith

module _ {T : Type 0} (b : Bcrypt) (j : Jwt T) (m : Manager) where
  both-Signed :
      (u : YusuiUser) (now : ℕ) (r r' : Result T) (s : ℕ) (a : Tokens T)
      → issue_access j m now u.id u.username u.role (now / second) ≡ r
      → issue_refresh j m now u.id u.username u.role ≡ r'
      → both b j m u r r' ≡ reply s a
      → Signed j m u now a
  both-Signed u now (ok x) (ok y) s a p q h = record {
    user = sym (ap (λ a. a.user) same);
    access = λ later.
        ap (λ a. caller j m later (some a.access_token)) (sym same)
        ∙ caller-issue_access j m now later (now / second) u x p;
    refresh = λ later.
        ap (λ a. caller j m later (some a.refresh_token)) (sym same)
        ∙ caller-issue_refresh j m now later u y q;
  }
    where
      same : record { access_token = x; refresh_token = y; user = to_public_user u } ≡ a
      same = cc h
  both-Signed u now (err e) r' s a p q h = absurd (refuse-reply _ _ _ _ h)
  both-Signed u now (ok x) (err e) s a p q h = absurd (refuse-reply _ _ _ _ h)

  logged_in-Signed :
      (name : String) (pw : List Rune) (c d : Conn) (r : Result YusuiUser) (s : ℕ) (a : Tokens T)
      → ((u : YusuiUser) → r ≡ ok u → Authenticated b name pw c u d)
      → logged_in b j m d.now r ≡ reply s a
      → (u : YusuiUser) × Authenticated b name pw c u d × Signed j m u c.now a
  logged_in-Signed name pw c d (err x) s a f h =
      absurd (no_reply _ _ _ (login_failure-is_reply _ x) h)
  logged_in-Signed name pw c d (ok u) s a f h =
      let auth = f u refl in
      (u, auth, subst (λ n. Signed j m u n a) auth.clock (both-Signed u d.now _ _ s a refl refl h))

  -- A login is answered only to a user that Login lets in. Until its lifetime ends, the access token
  -- then admits exactly that user, with his role and a step-up of the second of the login; the
  -- refresh token admits nobody.
  pub login_handler-Signed :
      (name : String) (pw : List Rune) (c : Conn) (s : ℕ) (a : Tokens T)
      → (login_handler b j m (some (name, pw)) c).0 ≡ reply s a
      → (u : YusuiUser) × Authenticated b name pw c u (login_handler b j m (some (name, pw)) c).1
        × Signed j m u c.now a
  unfolding login_handler
  login_handler-Signed name pw c s a h =
      logged_in-Signed name pw c (login b name pw c).1 _ s a (login-Authenticated b name pw c) h

  -- An access token whose step-up is 0 is good until it ends, and never recent.
  pub record Renewed (u : YusuiUser) (now : ℕ) (t : T) : Type 0 where
    pub active : u.is_active ≡ true
    pub access :
        (later : ℕ)
        → caller j m later (some t)
          ≡ (if ltb later (ends j m now) then some (principal u 0) else none)
    pub old : (window later : ℕ) → is_recent window later (principal u 0) ≡ false

  issued-ok : (r : Result T) (s : ℕ) (t : T) → issued r ≡ reply s t → r ≡ ok t
  issued-ok (ok x) s t h = cc h
  issued-ok (err x) s t h = absurd (refuse-reply _ _ _ _ h)

  refreshed-Renewed :
      (u : YusuiUser) (now s : ℕ) (t : T) (act : Bool)
      → u.is_active ≡ act
      → (if act then issued (issue_access j m now u.id u.username u.role 0) else invalid_refresh)
        ≡ reply s t
      → Renewed u now t
  refreshed-Renewed u now s t true p h = record {
    active = p;
    access = λ later. caller-issue_access j m now later 0 u t (issued-ok _ s t h);
    old = λ window later. refl;
  }
  refreshed-Renewed u now s t false p h = absurd (refuse-reply _ _ _ _ h)

  -- The user whose token was refreshed, as the table has him.
  pub record Refreshed (id : ℕ) (c : Conn) (t : T) : Type 0 where
    pub user : YusuiUser
    pub found : find_user id c.users ≡ some user
    pub renewed : Renewed user c.now t

  result-Refreshed :
      (id : ℕ) (c d : Conn) (r : Result YusuiUser) (s : ℕ) (t : T)
      → ((u : YusuiUser) → r ≡ ok u → (find_user id c.users ≡ some u) × (d.now ≡ c.now))
      → refreshed b j m d.now r ≡ reply s t
      → Refreshed id c t
  result-Refreshed id c d (err x) s t f h = absurd (refuse-reply _ _ _ _ h)
  result-Refreshed id c d (ok u) s t f h =
      let (found, clock) = f u refl in
      record {
        user = u;
        found = found;
        renewed = subst (λ n. Renewed u n t) clock (refreshed-Renewed u d.now s t _ refl h);
      }

  one-found :
      (o : Option YusuiUser) (c : Conn)
      → Holds (λ u d. (o ≡ some u) × (d.now ≡ c.now)) (one o) (counted c)
  one-found none c = tt
  one-found (some u) c = (refl, refl)

  get_user-After :
      (id : ℕ) (c : Conn)
      → After (λ u d. (find_user id c.users ≡ some u) × (d.now ≡ c.now)) (get_user_by_id id) c
  unfolding get_user_by_id
  get_user-After id c = After-query (record { holds = one-found (find_user id c.users) c })

  refresh_for-Refreshed :
      (o : Option ℕ) (c : Conn) (s : ℕ) (t : T)
      → (refresh_for b j m o c).0 ≡ reply s t
      → (id : ℕ) × (o ≡ some id) × Refreshed id c t
  refresh_for-Refreshed none c s t h = absurd (refuse-reply _ _ _ _ h)
  refresh_for-Refreshed (some id) c s t h =
      let r = get_user_by_id id c in
      (id, refl, result-Refreshed id c r.1 r.0 s t (After-ok (get_user-After id c)) h)

  -- A refresh is answered only to a valid refresh token, for a user who is still there and active.
  -- The new access token has the role that the user has now, admits him until its lifetime ends, and
  -- is never recent, so that no route which asks for a step-up takes it.
  pub refresh_handler-Refreshed :
      (old t : T) (c : Conn) (s : ℕ)
      → (refresh_handler b j m (some old) c).0 ≡ reply s t
      → (id : ℕ) × (refresh_subject (parse j m c.now old) ≡ some id) × Refreshed id c t
  unfolding refresh_handler
  refresh_handler-Refreshed old t c s h =
      refresh_for-Refreshed (refresh_subject (parse j m c.now old)) c s t h
