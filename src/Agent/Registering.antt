-- ===== src/Agent/Registering.antt =====
-- What a registration and the control streams of server/internal/agentctl/controller.go leave behind.
use yusui.Prelude.{
  ℕ, ◌≡◌, refl, sym, ap, ◌∙◌, Bool, true, false, not, ◌&&◌, ◌||◌, none, some, List, [], ◌∷◌, ◌++◌,
  String, str_eq, get, put, get-put, get-delete, first, ◌⊎◌, inl, inr, Bool-cases, Option-cases,
  arith, ==_refl, str_eq_iff, ◌==◌,
}
use yusui.Exec.{Result, ok, err, attempt}
use yusui.Exec.After.{
  Holds, After, After-imp, After-all, After-bind, After-if, After-or_else, After-pure, After-raise,
}
use yusui.Store.Rows.{YusuiAgent, YusuiProject, Role, primary, secondary, enroll_pending}
use yusui.Store.Conn.{Conn, query, read, counted}
use yusui.Store.Laws.{After-query}
use yusui.Store.Tickets.{has_project}
use yusui.Store.Catalog.{is_approved}
use yusui.Store.Inventory.{get_project_by_code}
use yusui.Store.Agents.{
  is_host, is_taken_slot, insert_agent, create_pending_agent, get_agent_by_project_and_hostname,
  list_agents_by_project,
}
use yusui.Agent.Registry.{
  Registry, RegisterRequest, RegisterResponse, role_taken, free_role, pick_role, or_pending,
  resolve_agent, setup_key_of, issued, register, connect, disconnect,
}

-- The agents are those that were there.
abbrev Untouched : Conn → Conn → Type 0
Untouched c d = d.agents ≡ c.agents

read-Untouched :
    {A : Type 0} (f : Conn → Result A) (c : Conn) → After (λ _ d. Untouched c d) (read f) c
read-Untouched f c = After-query (After-all _ (counted c) (λ _. refl))

-- What the lookup of the host has found.
Seen : ℕ → String → Conn → Result YusuiAgent → Conn → Type 0
Seen project hostname c (ok a) d =
    (first (is_host project hostname) c.agents ≡ some a) × (d.agents ≡ c.agents)
Seen project hostname c (err x) d = d.agents ≡ c.agents

lookup-Seen :
    (project : ℕ) (hostname : String) (c : Conn)
    → After
        (λ r d. Seen project hostname c r d)
        (attempt (get_agent_by_project_and_hostname project hostname))
        c
unfolding get_agent_by_project_and_hostname query Seen
lookup-Seen project hostname c = record {
  holds = elim (Bool-cases (c.fails c.calls)) [
    | inl down ↦ rw down refl
    | inr up ↦ rw up (elim (Option-cases (first (is_host project hostname) c.agents)) [
      | inl nobody ↦ rw nobody refl
      | inr (a, there) ↦ rw there (there, refl)
    ])
  ];
}

-- The row that a host is given, of the project with the code: its own, or a new one that is pending.
pub record Resolved (project_code host : String) (c : Conn) (a : YusuiAgent) (d : Conn)
    : Type 0 where
  pub project : YusuiProject
  pub listed : first (λ p. str_eq p.code project_code) c.projects ≡ some project
  pub code : project.code ≡ project_code
  pub project_id : a.project_id ≡ project.id
  pub hostname : a.hostname ≡ host
  pub known_or_new :
      ((first (is_host project.id host) c.agents ≡ some a) × (d.agents ≡ c.agents))
      ⊎ ((d.agents ≡ c.agents ++ a ∷ []) × (a.enrollment ≡ enroll_pending))

-- The project of a code.
FoundProject : String → Conn → YusuiProject → Conn → Type 0
FoundProject code c proj d =
    (first (λ p. str_eq p.code code) c.projects ≡ some proj) × (d.agents ≡ c.agents)

found_agents :
    (code : String) (c : Conn) (proj : YusuiProject) (d : Conn)
    → FoundProject code c proj d
    → d.agents ≡ c.agents
unfolding FoundProject
found_agents code c proj d h = h.1

first-holds : {A : Type 0} (p : A → Bool) (xs : List A) (x : A) → first p xs ≡ some x → p x ≡ true
first-holds p [] x = λ h. cc h
first-holds p (y ∷ xs) x = elim (Bool-cases (p y)) [
  | inl at ↦ rw at (λ h. ap p (sym (cc h)) ∙ at)
  | inr other ↦ rw other (first-holds p xs x)
]

and_left : (a b : Bool) → (a && b) ≡ true → a ≡ true
and_left a b h = ground arith

and_right : (a b : Bool) → (a && b) ≡ true → b ≡ true
and_right a b h = ground arith

is_host-parts :
    (project : ℕ) (hostname : String) (a : YusuiAgent)
    → is_host project hostname a ≡ true
    → (a.project_id ≡ project) × (a.hostname ≡ hostname)
is_host-parts project hostname a h = (
  let left = and_left (a.project_id == project) (str_eq a.hostname hostname) h in ground arith,
  (str_eq_iff a.hostname hostname).0
      (and_right (a.project_id == project) (str_eq a.hostname hostname) h),
)

project-After :
    (code : String) (c : Conn)
    → After (λ proj d. FoundProject code c proj d) (get_project_by_code code) c
unfolding get_project_by_code query FoundProject
project-After code c = record {
  holds = elim (Bool-cases (c.fails c.calls)) [
    | inl down ↦ rw down tt
    | inr up ↦ rw up (elim (Option-cases (first (λ p. str_eq p.code code) c.projects)) [
      | inl nobody ↦ rw nobody tt
      | inr (p, there) ↦ rw there (refl, refl)
    ])
  ];
}

create_pending-After :
    (project : ℕ) (role : Role) (hostname : String) (c : Conn)
    → After
        (λ a d.
          (d.agents ≡ c.agents ++ a ∷ [])
          × (a.enrollment ≡ enroll_pending)
          × (a.project_id ≡ project)
          × (a.hostname ≡ hostname))
        (create_pending_agent project role hostname)
        c
unfolding create_pending_agent insert_agent
create_pending-After project role hostname c = After-query (record {
  holds = elim (Bool-cases (is_taken_slot project role (counted c))) [
    | inl taken ↦ rw taken tt
    | inr free ↦ elim (Bool-cases (has_project project c.projects)) [
      | inl there ↦ rw (free, there) (refl, refl, refl, refl)
      | inr missing ↦ rw (free, missing) tt
    ]
  ];
})

free_role-Untouched :
    (rows : List YusuiAgent) (c : Conn) → After (λ _ d. Untouched c d) (free_role rows) c
free_role-Untouched rows c =
    After-if (not (role_taken primary rows)) (λ _. After-pure _ _ refl)
      (λ _.
        After-if (not (role_taken secondary rows)) (λ _. After-pure _ _ refl)
          (λ _. After-raise _ _))

pick_role-Untouched : (project : ℕ) (c : Conn) → After (λ _ d. Untouched c d) (pick_role project) c
unfolding pick_role list_agents_by_project
pick_role-Untouched project c = After-bind (
    After-imp (λ rows d h. After-imp (λ _ e k. k ∙ h) (free_role-Untouched rows d))
      (After-or_else _ (read-Untouched _ c)))

-- The row of a host in a project that is known.
Placed : ℕ → String → Conn → YusuiAgent → Conn → Type 0
Placed project hostname c a d =
    (a.project_id ≡ project)
    × (a.hostname ≡ hostname)
    × (((first (is_host project hostname) c.agents ≡ some a) × (d.agents ≡ c.agents))
        ⊎ ((d.agents ≡ c.agents ++ a ∷ []) × (a.enrollment ≡ enroll_pending)))

or_pending-Placed :
    (project : ℕ) (hostname : String) (c : Conn) (r : Result YusuiAgent) (d : Conn)
    → Seen project hostname c r d
    → After (λ a e. Placed project hostname c a e) (or_pending project hostname r) d
unfolding Seen Placed
or_pending-Placed project hostname c (ok a) d h =
    let (same, named) = is_host-parts project hostname a (first-holds _ c.agents a h.0) in
    After-pure a d (same, named, inl (h.0, h.1))
or_pending-Placed project hostname c (err x) d h = After-bind (
    After-imp
      (λ role e k. After-or_else _ (
        After-imp (λ a f new. (new.2, new.3, inr (new.0 ∙ ap (λ l. l ++ a ∷ []) (k ∙ h), new.1)))
          (create_pending-After project role hostname e)))
      (pick_role-Untouched project d))

Seen-Untouched :
    (project : ℕ) (hostname : String) (c d : Conn) (r : Result YusuiAgent) (e : Conn)
    → d.agents ≡ c.agents
    → Seen project hostname d r e
    → Seen project hostname c r e
unfolding Seen
Seen-Untouched project hostname c d (ok a) e h k =
    (ap (first (is_host project hostname)) (sym h) ∙ k.0, k.1 ∙ h)
Seen-Untouched project hostname c d (err x) e h k = k ∙ h

Placed-Resolved :
    (code hostname : String) (c : Conn) (proj : YusuiProject) (d : Conn) (a : YusuiAgent) (e : Conn)
    → FoundProject code c proj d
    → Placed proj.id hostname c a e
    → Resolved code hostname c a e
unfolding FoundProject Placed
Placed-Resolved code hostname c proj d a e found h = record {
  project = proj;
  listed = found.0;
  code = (str_eq_iff proj.code code).0 (first-holds _ c.projects proj found.0);
  project_id = h.0;
  hostname = h.1;
  known_or_new = h.2;
}

resolve_agent-Resolved :
    (req : RegisterRequest) (c : Conn)
    → After (λ a d. Resolved req.project_code req.hostname c a d) (resolve_agent req) c
unfolding resolve_agent
resolve_agent-Resolved req c = After-bind (
    After-imp
      (λ proj d h. After-bind (
        After-imp
          (λ r e k.
            After-imp
              (λ a f placed. Placed-Resolved req.project_code req.hostname c proj d a f h placed)
              (or_pending-Placed proj.id req.hostname c r e (
                Seen-Untouched proj.id req.hostname c d r e
                  (found_agents req.project_code c proj d h) k)))
          (lookup-Seen proj.id req.hostname d)))
      (After-or_else _ (project-After req.project_code c)))

-- A registration that was answered.
pub record Registered (req : RegisterRequest) (g : Registry) (resp : RegisterResponse)
    (g' : Registry) : Type 0 where
  pub agent : YusuiAgent
  pub resolved : Resolved req.project_code req.hostname g.db agent g'.db
  pub id : resp.agent_id ≡ agent.id
  pub token : get resp.session_token g'.tokens ≡ some agent.id
  pub enrollment : resp.enrollment ≡ agent.enrollment
  pub no_key : is_approved agent.enrollment ≡ false → resp.netbird_setup_key ≡ ""

presented : (a b : Bool) → (not a && not b) ≡ false → (a || b) ≡ true
presented a b h = ground arith

module _ (reg_token : String) (ulid : ℕ → ℕ) where
  issued-Registered :
      (req : RegisterRequest) (g g' : Registry) (r : Result YusuiAgent) (resp : RegisterResponse)
      → Holds (λ a d. Resolved req.project_code req.hostname g.db a d) r g'.db
      → (issued reg_token ulid r g').0 ≡ ok resp
      → Registered req g resp (issued reg_token ulid r g').1
  issued-Registered req g g' (err x) resp h e = cc e
  issued-Registered req g g' (ok a) resp h e = record {
    agent = a;
    resolved = h;
    id = ap (λ r. r.agent_id) (sym same);
    token =
        ap (λ r. get r.session_token (put tok a.id g'.tokens)) (sym same)
        ∙ get-put tok tok a.id g'.tokens
        ∙ rw (==_refl tok);
    enrollment = ap (λ r. r.enrollment) (sym same);
    no_key = λ out. ap (λ r. r.netbird_setup_key) (sym same) ∙ rw out refl;
  }
    where
      tok : ℕ
      tok = ulid g'.minted

      same :
          record {
            agent_id = a.id;
            session_token = tok;
            enrollment = a.enrollment;
            netbird_setup_key = setup_key_of a;
          }
          ≡ resp
      same = cc e

  -- A registration is answered for an agent of that host in the project with that code: the one that
  -- the agents have, which stay as they are, or a new one, which is pending and the only change to
  -- the agents. The token then stands for that agent, and an agent that is not approved gets no setup
  -- key. Where the server has a register token, nobody is answered without it.
  pub register-Registered :
      (req : RegisterRequest) (g : Registry) (resp : RegisterResponse)
      → (register reg_token ulid req g).0 ≡ ok resp
      → Registered req g resp (register reg_token ulid req g).1
        × ((str_eq reg_token "" || str_eq req.register_token reg_token) ≡ true)
  unfolding register
  register-Registered req g resp =
      elim (Bool-cases (not (str_eq reg_token "") && not (str_eq req.register_token reg_token))) [
        | inl strange ↦ rw strange (λ e. cc e)
        | inr known ↦ elim (Bool-cases (str_eq req.hostname "")) [
          | inl unnamed ↦ rw (known, unnamed) (λ e. cc e)
          | inr named ↦
              rw (known, named)
                (λ e. (
                  issued-Registered req g _ _ resp (resolve_agent-Resolved req g.db).holds e,
                  presented (str_eq reg_token "") (str_eq req.register_token reg_token) known,
                ))
        ]
      ]

module _ (token agent : ℕ) (g : Registry) where
  abbrev pub once : Registry
  once = (connect token g).1

  abbrev pub twice : Registry
  twice = (connect token once).1

  connect-get :
      (h : Registry)
      → get token h.tokens ≡ some agent
      → ((connect token h).0 ≡ ok (agent, h.streams))
        × (get agent (connect token h).1.conns ≡ some h.streams)
        × ((connect token h).1.tokens ≡ h.tokens)
  unfolding connect
  connect-get h there =
      rw there (refl, get-put agent agent h.streams h.conns ∙ rw (==_refl agent), refl)

  -- A stream that an agent opens again becomes its connection. When the first one then ends, the
  -- agent has no connection left, although the second stream is still up.
  pub disconnect-connect :
      get token g.tokens ≡ some agent
      → ((connect token g).0 ≡ ok (agent, g.streams))
        × ((connect token once).0 ≡ ok (agent, once.streams))
        × (get agent twice.conns ≡ some once.streams)
        × (get agent (disconnect agent twice).conns ≡ none)
  unfolding disconnect
  disconnect-connect there =
      let first = connect-get g there in
      let second = connect-get once (ap (get token) first.2 ∙ there) in
      (first.0, second.0, second.1, get-delete agent agent twice.conns ∙ rw (==_refl agent))
