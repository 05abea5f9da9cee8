-- ===== src/Startup/Seeding.antt =====
-- The first administrator of server/cmd/yusui-server/main.go.
use yusui.Prelude.{
  ◌≡◌, refl, true, List, [], ◌∷◌, some, String, str_eq, if◌then◌else◌, ltb, length, arith,
  Bool-cases, inl, inr, ◌⊎◌,
}
use yusui.Exec.{Result, ok, pure, ◌>>=◌, ◌>>◌}
use yusui.Exec.After.{Result-cases}
use yusui.Store.Rows.{YusuiUser, admin}
use yusui.Store.Conn.{Conn, Tables, query, counted}
use yusui.Store.Users.{set_users, count_users, create_user, is_taken, new_user}
use yusui.Auth.Password.{Rune, Unicode, Bcrypt, check_policy}
use yusui.Config.{Config}
use yusui.Startup.{seed_admin, first_admin, admin_params}

module _ (u : Unicode) (b : Bcrypt) (runes : String → List Rune) (cfg : Config) where
  -- The account that a new database starts with.
  pub record Seeded (before : Tables) (r : Result (Unit {0})) (t : Tables) : Type 0 where
    pub user : YusuiUser
    pub result : r ≡ ok tt
    pub tables : t ≡ set_users before (user ∷ [])
    pub name : user.username ≡ cfg.admin_username
    pub role : user.role ≡ admin
    pub active : user.is_active ≡ true
    pub hash : String
    pub hashed : user.password_hash ≡ some hash
    pub generated : b.generate (runes cfg.admin_password) ≡ ok hash
    pub strong : check_policy u (runes cfg.admin_password) ≡ ok tt

  -- The database is as it was, or was without users and has its first one.
  abbrev pub Starts : Conn → Result (Unit {0}) × Conn → Type 0
  Starts c m = (m.1.tables ≡ c.tables) ⊎ ((c.users ≡ []) × Seeded c.tables m.0 m.1.tables)

  admin_row :
      (hash : String) (c : Conn)
      → ((new_user c.seq c.now (admin_params cfg hash)).username ≡ cfg.admin_username)
        × ((new_user c.seq c.now (admin_params cfg hash)).role ≡ admin)
        × ((new_user c.seq c.now (admin_params cfg hash)).is_active ≡ true)
        × ((new_user c.seq c.now (admin_params cfg hash)).password_hash ≡ some hash)
  unfolding new_user admin_params
  admin_row hash c = (refl, refl, refl, refl)

  created-Starts :
      (hash : String) (c : Conn)
      → c.users ≡ []
      → b.generate (runes cfg.admin_password) ≡ ok hash
      → check_policy u (runes cfg.admin_password) ≡ ok tt
      → Starts c ((create_user (admin_params cfg hash) >> pure tt) c)
  unfolding create_user query ◌>>=◌ is_taken admin_params
  created-Starts hash c empty made strong = elim (Bool-cases (c.fails c.calls)) [
    | inl down ↦ rw down (inl refl)
    | inr up ↦
        rw (up, empty)
          (inr (
            refl,
            record {
              user = new_user c.seq c.now (admin_params cfg hash);
              result = refl;
              tables = refl;
              name = (admin_row hash c).0;
              role = (admin_row hash c).1;
              active = (admin_row hash c).2;
              hash = hash;
              hashed = (admin_row hash c).3;
              generated = made;
              strong = strong;
            },
          ))
  ]

  first_admin-Starts : (c : Conn) → c.users ≡ [] → Starts c (first_admin u b runes cfg c)
  unfolding ◌>>=◌
  first_admin-Starts c empty = elim (Result-cases (check_policy u (runes cfg.admin_password))) [
    | inr (x, weak) ↦ rw weak (inl refl)
    | inl (_, strong) ↦ elim (Result-cases (b.generate (runes cfg.admin_password))) [
      | inr (x, broken) ↦ rw (strong, broken) (inl refl)
      | inl (hash, made) ↦ rw (strong, made) (created-Starts hash c empty made strong)
    ]
  ]

  counted-Starts :
      (c : Conn) (users : List YusuiUser)
      → c.users ≡ users
      → Starts c ((if ltb 0 (length users) then pure tt else first_admin u b runes cfg) c)
  counted-Starts c [] h = first_admin-Starts c h
  counted-Starts c (x ∷ users) h = inl (ground arith)

  -- Seeding the administrator changes no table, or the database had no users and now has one: an active
  -- administrator of the configured name, with the hash of the configured password, which the policy
  -- accepts. Whichever calls fail, no account that was there is touched.
  pub seed_admin-Starts : (c : Conn) → Starts c (seed_admin u b runes cfg c)
  unfolding seed_admin count_users query ◌>>=◌
  seed_admin-Starts c = elim (Bool-cases (str_eq cfg.admin_password "")) [
    | inl unset ↦ rw unset (inl refl)
    | inr set ↦ elim (Bool-cases (c.fails c.calls)) [
      | inl down ↦ rw (set, down) (inl refl)
      | inr up ↦ rw (set, up) (counted-Starts (counted c) c.users refl)
    ]
  ]
