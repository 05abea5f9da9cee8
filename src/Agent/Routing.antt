-- ===== src/Agent/Routing.antt =====
-- server/internal/agentctl/controller.go: how an answer finds the call that waits for it. A command id
-- is the number in its ULID. A channel of one place is what it holds.
pub mod Waiters
use yusui.Prelude.{
  ℕ, Bool, true, false, Option, none, some, List, [], ◌∷◌, String, if◌then◌else◌, get, put, delete,
}
use yusui.Exec.{Result, ok, err, gateway_error}
use yusui.Agent.Messages.{
  AckResult, ack_ok, ack_failed, ack_skipped, ack_other, AckCommand, AgentToServer, ack_msg,
  reconcile_resp, heartbeat, rule_event,
}

-- `acks` and `recos` of agentConn: the channels by command id.
pub record AgentConn : Type 0 where
  pub acks : List (ℕ × Option AckCommand)
  pub recos : List (ℕ × Option (List ℕ))

unfoldable pub wait_ack : ℕ → AgentConn → AgentConn
wait_ack id s = record s { acks = put id none s.acks }

unfoldable pub clear_ack : ℕ → AgentConn → AgentConn
clear_ack id s = record s { acks = delete id s.acks }

unfoldable pub wait_reco : ℕ → AgentConn → AgentConn
wait_reco id s = record s { recos = put id none s.recos }

unfoldable pub clear_reco : ℕ → AgentConn → AgentConn
clear_reco id s = record s { recos = delete id s.recos }

-- `if ch != nil { ch <- m }` under the lock: without a waiter the message is dropped, and with a full
-- channel the loop stands still, which is `none`.
abbrev pub into :
    {A : Type 0} → ℕ → A → List (ℕ × Option A) → Option (Option A) → Option (List (ℕ × Option A))
into id a chans none = some chans
into id a chans (some none) = some (put id (some a) chans)
into id a chans (some (some _)) = none

abbrev pub with_acks : AgentConn → Option (List (ℕ × Option AckCommand)) → Option AgentConn
with_acks s none = none
with_acks s (some acks) = some (record s { acks = acks })

abbrev pub with_recos : AgentConn → Option (List (ℕ × Option (List ℕ))) → Option AgentConn
with_recos s none = none
with_recos s (some recos) = some (record s { recos = recos })

unfoldable pub route : AgentToServer → AgentConn → Option AgentConn
route (ack_msg a) s = with_acks s (into a.command_id a s.acks (get a.command_id s.acks))
route (reconcile_resp id ids) s = with_recos s (into id ids s.recos (get id s.recos))
route (heartbeat _ _) s = some s
route (rule_event _ _) s = some s

-- The receive loop over what arrives in the time of a call; one that stands still reads no more.
unfoldable pub receive_all : List AgentToServer → AgentConn → AgentConn
unfolding route
receive_all [] s = s
receive_all (m ∷ ms) s = elim (route m s) [ none ↦ s | some t ↦ receive_all ms t ]

-- What is in the channel of the call.
abbrev pub held : {A : Type 0} → Option (Option A) → Option A
held none = none
held (some o) = o

abbrev pub is_accepted : AckResult → Bool
is_accepted ack_ok = true
is_accepted ack_skipped = true
is_accepted ack_failed = false
is_accepted ack_other = false

-- The second `select` of roundtrip: the ack, or a timeout.
abbrev pub verdict : Option AckCommand → Result AckCommand
verdict none = err gateway_error
verdict (some a) = if is_accepted a.result then ok a else err gateway_error

abbrev pub answer : Option (List ℕ) → Result (List ℕ)
answer none = err gateway_error
answer (some ids) = ok ids

-- A call with what arrives until it returns; `sent` is whether its message could be queued in time.
unfoldable pub roundtrip : ℕ → Bool → List AgentToServer → AgentConn → Result AckCommand × AgentConn
unfolding wait_ack clear_ack receive_all
roundtrip id sent arriving s =
    let t = receive_all arriving (wait_ack id s) in
    ((if sent then verdict (held (get id t.acks)) else err gateway_error), clear_ack id t)

-- Reconcile.
unfoldable pub reconcile_call : ℕ → List AgentToServer → AgentConn → Result (List ℕ) × AgentConn
unfolding wait_reco clear_reco receive_all
reconcile_call id arriving s =
    let t = receive_all arriving (wait_reco id s) in
    (answer (held (get id t.recos)), clear_reco id t)
