-- ===== src/Policy/Service.antt =====
-- The engine as the server runs it, server/cmd/yusui-server/main.go and the handlers: any sequence
-- of operations, of scheduler passes and agent reconnects, with what happens between them. The
-- clock moves, the process restarts without its forward map, and whatever stands behind the gateway
-- and the sessions changes as it likes.
use yusui.Prelude.{ℕ, ◌+◌, List, [], ◌∷◌, String}
use yusui.Store.Rows.{Actor}
use yusui.Policy.World.{Engine, World}
use yusui.Policy.Tx.{SubmitInput}
use yusui.Policy.Engine.{submit, approve, reject, apply, revoke}
use yusui.Policy.Scheduler.{on_agent_reconnect, scheduler_pass}

pub data Call (G S : Type 0) : Type 0 where
  submits : SubmitInput → Actor → Call G S
  approves : (id approver : ℕ) → Actor → Call G S
  rejects : (id approver : ℕ) → String → Actor → Call G S
  applies : (id : ℕ) → Actor → Call G S
  revokes : (id : ℕ) → String → Actor → Call G S
  reconnects : (agent : ℕ) → Call G S
  passes : Call G S
  waits : (time : ℕ) → Call G S
  restarts : Call G S
  outside : (G → G) → (S → S) → Call G S

-- What a caller does after an error is the next call of the sequence.
unfoldable pub serve_one : {G S : Type 0} → Engine G S → Call G S → World G S → World G S
serve_one e (submits i actor) w = (submit e i actor w).1
serve_one e (approves id approver actor) w = (approve e id approver actor w).1
serve_one e (rejects id approver reason actor) w = (reject e id approver reason actor w).1
serve_one e (applies id actor) w = (apply e id actor w).1
serve_one e (revokes id reason actor) w = (revoke e id reason actor w).1
serve_one e (reconnects agent) w = (on_agent_reconnect e agent w).1
serve_one e passes w = (scheduler_pass e w).1
serve_one e (waits time) w = record w { conn = record (w.conn) { now = w.conn.now + time } }
serve_one e restarts w = record w { forwards = [] }
serve_one e (outside f g) w = record w { gw = f w.gw; shell = g w.shell }

unfoldable pub serve : {G S : Type 0} → Engine G S → List (Call G S) → World G S → World G S
unfolding serve_one
serve e [] w = w
serve e (c ∷ cs) w = serve e cs (serve_one e c w)
