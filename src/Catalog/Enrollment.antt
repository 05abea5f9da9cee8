-- ===== src/Catalog/Enrollment.antt =====
-- What a change of enrollment in server/internal/services/catalog.go leaves behind.
use yusui.Prelude.{
  ℕ, ◌≡◌, ◌≢◌, refl, sym, ap, ◌∙◌, Option, none, some, List, [], ◌∷◌, String, ◌⊎◌, inl, inr, first,
  arith,
}
use yusui.Exec.{Error, Result, ok, err}
use yusui.Exec.After.{Holds, After, After-imp, After-bind, After-pure, After-ok}
use yusui.Store.Rows.{YusuiAgent, Target, enrollment_of}
use yusui.Store.Conn.{Tables, Conn, one}
use yusui.Store.Laws.{After-query, After-in_tx, in_tx-err}
use yusui.Store.Catalog.{audit_row, insert_audit, is_target, get_primary_agent_for_project}
use yusui.Store.Agents.{
  find_agent, update_agent, edit_agent, approve_agent, reject_agent, approved_agent, rejected_agent,
}
use yusui.Catalog.Service.{
  AgentView, agent_view, Verdict, approve_with, reject_it, key_of, decide, action_of,
  set_enrollment_tx, set_enrollment,
}

-- The row that a verdict makes of a row.
pub judged : Verdict → YusuiAgent → YusuiAgent
judged (approve_with k) = approved_agent (key_of k)
judged reject_it = rejected_agent

-- The change of one row, and its audit row.
pub record Enrolled (id : ℕ) (actor : String) (v : Verdict) (now : ℕ) (before : Tables)
    (view : AgentView) (after : Tables) : Type 0 where
  pub agent : YusuiAgent
  pub found : find_agent id after.agents ≡ some agent
  pub viewed : view ≡ agent_view agent
  pub agents : after.agents ≡ update_agent id (judged v) before.agents
  pub audited :
      after.audit_logs
      ≡ audit_row now
          (record { type = "user"; id = actor })
          (action_of v)
          (Target.agent id)
          (enrollment_of agent.hostname agent.project_id agent.role agent.enrollment)
        ∷ before.audit_logs

record Edited (id : ℕ) (f : YusuiAgent → YusuiAgent) (before : Conn) (a : YusuiAgent) (d : Conn)
    : Type 0 where
  found : find_agent id d.agents ≡ some a
  agents : d.agents ≡ update_agent id f before.agents
  logs : d.audit_logs ≡ before.audit_logs
  clock : d.now ≡ before.now

one-Edited :
    (o : Option YusuiAgent) (id : ℕ) (f : YusuiAgent → YusuiAgent) (c d : Conn)
    → find_agent id d.agents ≡ o
    → d.agents ≡ update_agent id f c.agents
    → d.audit_logs ≡ c.audit_logs
    → d.now ≡ c.now
    → Holds (λ a d. Edited id f c a d) (one o) d
one-Edited none id f c d p q r s = tt
one-Edited (some a) id f c d p q r s = record { found = p; agents = q; logs = r; clock = s }

edit_agent-After :
    (id : ℕ) (f : YusuiAgent → YusuiAgent) (c : Conn)
    → After (λ a d. Edited id f c a d) (edit_agent id f) c
unfolding edit_agent
edit_agent-After id f c = After-query (record { holds = one-Edited _ id f c _ refl refl refl refl })

decide-After :
    (id : ℕ) (v : Verdict) (c : Conn) → After (λ a d. Edited id (judged v) c a d) (decide id v) c
unfolding judged approve_agent reject_agent
decide-After id (approve_with k) c = edit_agent-After id (approved_agent (key_of k)) c
decide-After id reject_it c = edit_agent-After id rejected_agent c

set_enrollment_tx-After :
    (id : ℕ) (actor : String) (v : Verdict) (c : Conn)
    → After
        (λ view d. Enrolled id actor v c.now c.tables view d.tables)
        (set_enrollment_tx id actor v)
        c
unfolding set_enrollment_tx insert_audit
set_enrollment_tx-After id actor v c = After-bind (
    After-imp
      (λ a d h. After-bind (
        After-query (record {
          holds = After-pure _ _ (record {
            agent = a;
            found = h.found;
            viewed = refl;
            agents = h.agents;
            audited = cc (h.clock, h.logs);
          });
        })))
      (decide-After id v c))

set_enrollment-After :
    (id : ℕ) (actor : String) (v : Verdict) (c : Conn)
    → After
        (λ view d. Enrolled id actor v c.now c.tables view d.tables)
        (set_enrollment id actor v)
        c
unfolding set_enrollment
set_enrollment-After id actor v c =
    After-in_tx (λ view d. Enrolled id actor v c.now c.tables view d)
      (set_enrollment_tx-After id actor v _)

Result-cases : {A : Type 0} (r : Result A) → ((a : A) × (r ≡ ok a)) ⊎ ((x : Error) × (r ≡ err x))
Result-cases (ok a) = inl (a, refl)
Result-cases (err x) = inr (x, refl)

-- A change of enrollment is one with its audit row: it has edited the row of that agent alone, to
-- what was decided, and added one audit row that tells the row as it now stands; or it has ended in
-- an error, whichever call of the database failed, and no table has changed.
pub set_enrollment-Enrolled :
    (id : ℕ) (actor : String) (v : Verdict) (c : Conn)
    → ((view : AgentView) × ((set_enrollment id actor v c).0 ≡ ok view)
        × Enrolled id actor v c.now c.tables view (set_enrollment id actor v c).1.tables)
      ⊎ ((x : Error) × ((set_enrollment id actor v c).0 ≡ err x)
          × ((set_enrollment id actor v c).1.tables ≡ c.tables))
unfolding set_enrollment
set_enrollment-Enrolled id actor v c = elim (Result-cases (set_enrollment id actor v c).0) [
  | inl (view, h) ↦ inl (view, h, After-ok (set_enrollment-After id actor v c) view h)
  | inr (x, h) ↦ inr (x, h, in_tx-err (set_enrollment_tx id actor v) c x h)
]

-- An agent that is not approved is not the one that a rule of its project goes to.
untargeted :
    (id project : ℕ) (rows : List YusuiAgent) (b : YusuiAgent)
    → first (is_target project) (update_agent id rejected_agent rows) ≡ some b
    → b.id ≢ id
unfolding is_target update_agent
untargeted id project [] b h same = cc h
untargeted id project (a ∷ rest) b h same = ground (arith, untargeted id project rest b)

one-some : (o : Option YusuiAgent) (d : Conn) → Holds (λ b _. o ≡ some b) (one o) d
one-some none d = tt
one-some (some b) d = refl

primary-After :
    (project : ℕ) (d : Conn)
    → After
        (λ b _. first (is_target project) d.agents ≡ some b)
        (get_primary_agent_for_project project)
        d
unfolding get_primary_agent_for_project
primary-After project d = After-query (record { holds = one-some _ _ })

-- After a rejection that succeeds, the agent that the rules of a project go to is another one.
pub set_enrollment-untargeted :
    (id project : ℕ) (actor : String) (c : Conn) (view : AgentView) (b : YusuiAgent)
    → (set_enrollment id actor reject_it c).0 ≡ ok view
    → (get_primary_agent_for_project project (set_enrollment id actor reject_it c).1).0 ≡ ok b
    → b.id ≢ id
unfolding judged
set_enrollment-untargeted id project actor c view b h t = untargeted id project c.agents b (
    ap (first (is_target project))
      (sym (After-ok (set_enrollment-After id actor reject_it c) view h).agents)
    ∙ After-ok (primary-After project _) b t)
