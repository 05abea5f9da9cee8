-- ===== src/Policy/History.antt =====
-- What holds of the tables however long the engine of server/internal/policy/engine.go has run.
use yusui.Prelude.{ℕ, ◌≡◌, some, List, [], ◌∷◌, ◌++◌}
use yusui.Store.Rows.{YusuiTicket, YusuiAuditLog}
use yusui.Store.Tickets.{find}
use yusui.Policy.Fate.{Descends, Evolves-Descends, Evolves-append}
use yusui.Policy.World.{Engine, World}
use yusui.Policy.Step.{Evolves, here, Evolves-trans}
use yusui.Policy.Service.{
  Call, submits, approves, rejects, applies, revokes, reconnects, passes, waits, restarts, outside,
  serve_one, serve,
}
use yusui.Policy.Workflow.{submit-Works, apply-Works, approve-Works, reject-Works, revoke-Works}
use yusui.Policy.Passes.{on_agent_reconnect-Works, scheduler_pass-Works}
use yusui.Policy.Log.{Inv}
use yusui.Policy.LogKept.{Evolves-Inv}

module _ {G S : Type 0} (e : Engine G S) where
  serve_one-Evolves :
      (c : Call G S) (w : World G S) → Evolves w.conn.tables (serve_one e c w).conn.tables
  unfolding serve_one
  serve_one-Evolves (submits i actor) w = (submit-Works e i actor).at w
  serve_one-Evolves (approves id approver actor) w = (approve-Works e id approver actor).at w
  serve_one-Evolves (rejects id approver reason actor) w =
      (reject-Works e id approver reason actor).at w
  serve_one-Evolves (applies id actor) w = (apply-Works e id actor).at w
  serve_one-Evolves (revokes id reason actor) w = (revoke-Works e id reason actor).at w
  serve_one-Evolves (reconnects agent) w = (on_agent_reconnect-Works e agent).at w
  serve_one-Evolves passes w = (scheduler_pass-Works e).at w
  serve_one-Evolves (waits time) w = here
  serve_one-Evolves restarts w = here
  serve_one-Evolves (outside f g) w = here

  -- Whatever calls are served in whatever order, whichever database calls fail and whatever the
  -- gateway answers, the tables evolve by steps of the abstract workflow alone.
  pub serve-Evolves :
      (cs : List (Call G S)) (w : World G S) → Evolves w.conn.tables (serve e cs w).conn.tables
  unfolding serve
  serve-Evolves [] w = here
  serve-Evolves (c ∷ cs) w =
      Evolves-trans (serve_one-Evolves c w) (serve-Evolves cs (serve_one e c w))

  -- If public ids are unique, the newest audit row of every ticket tells its status and nobody has
  -- approved a ticket of their own, then this holds after any sequence of calls too.
  pub serve-Inv :
      (cs : List (Call G S)) (w : World G S) → Inv w.conn.tables → Inv (serve e cs w).conn.tables
  serve-Inv cs w v = Evolves-Inv v (serve-Evolves cs w)

  -- A ticket never gets lost: after any sequence of calls it is found under its id. It has only
  -- moved forward, with the request that was submitted; from its approval on its approver and its
  -- frozen assets are the same, from its activation on its expiry, and once it has ended it is the
  -- same row.
  pub serve-Descends :
      (cs : List (Call G S)) (w : World G S) (i : ℕ) (t : YusuiTicket)
      → find i w.conn.tickets ≡ some t
      → (u : YusuiTicket) × (find i (serve e cs w).conn.tickets ≡ some u) × Descends t u
  serve-Descends cs w i t found = Evolves-Descends i t (serve-Evolves cs w) found

  -- The audit log only grows: any sequence of calls leaves the old rows as they were, beneath the
  -- new ones.
  pub serve-append :
      (cs : List (Call G S)) (w : World G S)
      → (new : List YusuiAuditLog) × ((serve e cs w).conn.audit_logs ≡ new ++ w.conn.audit_logs)
  serve-append cs w = Evolves-append (serve-Evolves cs w)
