-- ===== src/Agent/Enlisting.antt =====
-- What Register and Control of server/internal/agentctl/controller.go do to the agents.
use yusui.Prelude.{
  ℕ, ◌≡◌, refl, ◌∙◌, Bool, false, not, ◌&&◌, List, [], ◌∷◌, ◌++◌, String, str_eq, first, inl, inr,
  Bool-cases, arith,
}
use yusui.Exec.{Error, Result, ok, err, pure, raise, named, ◌>>=◌, or_else}
use yusui.Exec.After.{Relates, Relates-bind, Relates-attempt, Relates-if}
use yusui.Store.Rows.{YusuiAgent, Role, primary, secondary}
use yusui.Store.Conn.{Conn, Db, query, read, counted}
use yusui.Store.Tickets.{has_project}
use yusui.Store.Catalog.{is_target}
use yusui.Store.Inventory.{get_project_by_code}
use yusui.Store.Agents.{
  insert_agent, is_taken_slot, create_pending_agent, get_agent_by_project_and_hostname,
  list_agents_by_project,
}
use yusui.Agent.Registry.{
  Registry, RegisterRequest, role_taken, free_role, pick_role, or_pending, resolve_agent, issued,
  register,
}

-- The agent that the rules of each project go to is the same.
pub Steady : Conn → Conn → Type 0
Steady c d = (project : ℕ) → first (is_target project) d.agents ≡ first (is_target project) c.agents

Steady-refl : (c : Conn) → Steady c c
unfolding Steady
Steady-refl c project = refl

Steady-trans : (c d e : Conn) → Steady c d → Steady d e → Steady c e
unfolding Steady
Steady-trans c d e h k project = k project ∙ h project

module _ {A : Type 0} where
  query-Steady : (stmt : Db A) → ((c : Conn) → Steady c (stmt c).1) → Relates Steady (query stmt)
  unfolding query Steady
  query-Steady stmt h = record {
    at = λ c. elim (Bool-cases (c.fails c.calls)) [
      | inl down ↦ rw down (λ project. refl)
      | inr up ↦ rw up (h (counted c))
    ];
  }

first-append :
    {A : Type 0} (p : A → Bool) (xs : List A) (x : A)
    → p x ≡ false
    → first p (xs ++ x ∷ []) ≡ first p xs
first-append p [] x h = rw h refl
first-append p (y ∷ xs) x h = ground (arith, first-append p xs x h)

create_pending-Steady :
    (project : ℕ) (role : Role) (hostname : String)
    → Relates Steady (create_pending_agent project role hostname)
unfolding create_pending_agent insert_agent Steady is_target
create_pending-Steady project role hostname = query-Steady _ (λ c p.
    elim (Bool-cases (is_taken_slot project role c)) [
      | inl taken ↦ rw taken refl
      | inr free ↦ elim (Bool-cases (has_project project c.projects)) [
        | inl there ↦ rw (free, there) (first-append (is_target p) c.agents _ (ground arith))
        | inr missing ↦ rw (free, missing) refl
      ]
    ])

pure-Steady : {A : Type 0} (a : A) → Relates Steady (pure {S = Conn} a)
pure-Steady a = record { at = λ c. Steady-refl c }

raise-Steady : {A : Type 0} (x : Error) → Relates Steady (raise {S = Conn} {A = A} x)
raise-Steady x = record { at = λ c. Steady-refl c }

or_else-Steady :
    {A : Type 0} (x : Error) {m : Db A} → Relates Steady m → Relates Steady (or_else x m)
unfolding or_else
or_else-Steady x h = record { at = λ c. h.at c }

infixl 5 ◌▸◌
◌▸◌ :
    {A B : Type 0} {m : Db A} {f : A → Db B}
    → Relates Steady m
    → ((a : A) → Relates Steady (f a))
    → Relates Steady (m >>= f)
h ▸ k = Relates-bind Steady-refl Steady-trans h k

free_role-Steady : (rows : List YusuiAgent) → Relates Steady (free_role rows)
free_role-Steady rows =
    Relates-if (not (role_taken primary rows)) (pure-Steady _)
      (Relates-if (not (role_taken secondary rows)) (pure-Steady _) (raise-Steady _))

read-Steady : {A : Type 0} (f : Conn → Result A) → Relates Steady (read f)
read-Steady f = query-Steady _ (λ c. Steady-refl c)

pick_role-Steady : (project : ℕ) → Relates Steady (pick_role project)
unfolding pick_role list_agents_by_project
pick_role-Steady project = or_else-Steady _ (read-Steady _) ▸ free_role-Steady

or_pending-Steady :
    (project : ℕ) (hostname : String) (r : Result YusuiAgent)
    → Relates Steady (or_pending project hostname r)
or_pending-Steady project hostname (ok a) = pure-Steady a
or_pending-Steady project hostname (err x) = pick_role-Steady project ▸ λ role.
    or_else-Steady _ (create_pending-Steady project role hostname)

resolve_agent-Steady : (req : RegisterRequest) → Relates Steady (resolve_agent req)
unfolding resolve_agent get_project_by_code get_agent_by_project_and_hostname
resolve_agent-Steady req = or_else-Steady _ (read-Steady _) ▸ λ proj.
    Relates-attempt (read-Steady _) ▸ λ seen. or_pending-Steady proj.id req.hostname seen

module _ (reg_token : String) (ulid : ℕ → ℕ) where
  issued-db : (r : Result YusuiAgent) (g : Registry) → (issued reg_token ulid r g).1.db ≡ g.db
  issued-db (ok a) g = refl
  issued-db (err x) g = refl

  -- However a registration ends, for each project the agent that rules go to is the one that it was
  -- before: an agent that registers itself is given no rules.
  pub register-Steady :
      (req : RegisterRequest) (g : Registry) → Steady g.db (register reg_token ulid req g).1.db
  unfolding register
  register-Steady req g =
      elim (Bool-cases (not (str_eq reg_token "") && not (str_eq req.register_token reg_token))) [
        | inl strange ↦ rw strange (Steady-refl g.db)
        | inr known ↦ elim (Bool-cases (str_eq req.hostname "")) [
          | inl unnamed ↦ rw (known, unnamed) (Steady-refl g.db)
          | inr named ↦
              rw (known, named)
                (rw (issued-db (resolve_agent req g.db).0 _) ((resolve_agent-Steady req).at g.db))
        ]
      ]
