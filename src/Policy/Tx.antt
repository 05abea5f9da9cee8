-- ===== src/Policy/Tx.antt =====
-- The transactions of server/internal/policy/engine.go: the `mutate` of each status change, and the
-- pure helpers of the operations.
use yusui.Prelude.{
  ℕ, ◌+◌, ◌*◌, Bool, true, false, ◌||◌, ◌&&◌, not, Option, none, some, List, [], ◌∷◌, ◌++◌, String,
  str_eq, if◌then◌else◌, ◌==◌,
}
use yusui.Prelude.Int.{ℤ, lt_const, gt_const, to_nat}
use yusui.Exec.{Result, ok, err, pure, raise, lift, ◌>>=◌, ◌>>◌, validation, self_approve}
use yusui.Store.Rows.{
  YusuiTicket, YusuiAsset, Status, Selector, asset_ids, malformed, RuleId, tk, Actor, Action,
  Payload,
}
use yusui.Store.Conn.{Db, in_tx}
use yusui.Store.Tickets.{
  CreateTicketParams, create_ticket, set_ticket_approved, set_ticket_active, set_ticket_status,
  close_ticket,
}
use yusui.Store.Catalog.{list_assets_by_ids, upsert_binding, set_binding_applied}
use yusui.Gateway.{Target}
use yusui.Policy.Transition.{audit, transition}
unfoldable pub use yusui.Exec.{or_else}

pub record SubmitInput : Type 0 where
  pub requester_id : ℕ
  pub project_id : ℕ
  pub asset_ids : List ℕ
  pub ports : List ℤ
  pub protocol : String
  pub access_kind : String
  pub reason : String
  pub duration_sec : ℤ

abbrev pub is_nil {ℓ} : {A : Type ℓ} → List A → Bool
is_nil [] = true
is_nil (x ∷ xs) = false

-- The four tests at the head of Submit.
unfoldable pub submit_checks : SubmitInput → Bool
submit_checks i =
    not (str_eq i.reason "")
    && not (lt_const i.duration_sec 60 || gt_const i.duration_sec 86400)
    && not (is_nil i.asset_ids)
    && not (is_nil i.ports)

abbrev or_default : String → String → String
or_default s d = if str_eq s "" then d else s

unfoldable pub create_params : ℕ → SubmitInput → CreateTicketParams
create_params pub_id i = record {
  pub_id = pub_id;
  requester_id = i.requester_id;
  project_id = i.project_id;
  target_selector = asset_ids i.asset_ids;
  ports = i.ports;
  protocol = or_default i.protocol "tcp";
  access_kind = or_default i.access_kind "web_shell";
  reason = i.reason;
  duration_sec = i.duration_sec;
}

unfoldable pub submit_tx : ℕ → SubmitInput → Actor → Db YusuiTicket
submit_tx pub_id i actor = in_tx do
  t ← create_ticket (create_params pub_id i)
  audit actor Action.ticket_submit t.pub_id (Payload.submitted i.project_id i.asset_ids)
  pure t

unfoldable pub parse_asset_ids : Selector → Result (List ℕ)
parse_asset_ids malformed = err validation
parse_asset_ids (asset_ids []) = err validation
parse_asset_ids (asset_ids (a ∷ rest)) = ok (a ∷ rest)

unfoldable pub all_in_project : ℕ → List YusuiAsset → Bool
all_in_project p [] = true
all_in_project p (a ∷ rest) = a.project_id == p && all_in_project p rest

-- `mutate` of Approve.
unfoldable pub approve_row_tx : ℕ → YusuiTicket → Db (Unit {0})
unfolding parse_asset_ids
approve_row_tx approver t = if t.requester_id == approver then raise self_approve else do
  ids ← lift (parse_asset_ids t.target_selector)
  assets ← list_assets_by_ids ids
  if is_nil assets || not (all_in_project t.project_id assets)
      then raise validation
      else set_ticket_approved t.id approver ids

unfoldable pub approve_tx : ℕ → ℕ → Actor → Db YusuiTicket
approve_tx id approver actor =
    transition id Status.pending Action.ticket_approve actor Payload.empty (approve_row_tx approver)

-- `mutate` of Reject.
unfoldable pub reject_row_tx : ℕ → YusuiTicket → Db (Unit {0})
reject_row_tx approver t =
    if t.requester_id == approver then raise self_approve else close_ticket t.id Status.rejected

unfoldable pub reject_tx : ℕ → ℕ → String → Actor → Db YusuiTicket
reject_tx id approver reason actor =
    transition id Status.pending Action.ticket_reject actor (Payload.because reason)
      (reject_row_tx approver)

unfoldable pub targets_of : String → List ℤ → String → List Target
targets_of ip [] proto = []
targets_of ip (p ∷ ps) proto =
    record { dst_ip = ip; dst_port = p; proto = proto } ∷ targets_of ip ps proto

-- Assets × ports, the ports of one asset together.
unfoldable pub build_targets : List YusuiAsset → List ℤ → String → List Target
unfolding targets_of
build_targets [] ports proto = []
build_targets (a ∷ rest) ports proto =
    targets_of a.ip_internal ports proto ++ build_targets rest ports proto

unfoldable pub rule_id : YusuiTicket → RuleId
rule_id t = tk t.id

-- netip.ParseAddr on each text; what does not parse is left out.
unfoldable pub to_addrs : (String → Option String) → List String → List String
to_addrs parse [] = []
to_addrs parse (s ∷ ss) = elim (parse s) [
  | none ↦ to_addrs parse ss
  | some a ↦ a ∷ to_addrs parse ss
]

unfoldable pub apply_failed_tx : ℕ → Actor → Db YusuiTicket
apply_failed_tx id actor =
    transition id Status.approved Action.policy_apply_failed actor Payload.apply_error
      λ t. set_ticket_status t.id Status.apply_failed

-- time.Duration(DurationSec) * time.Second, in nanoseconds.
abbrev pub second : ℕ
second = 1_000_000_000

unfoldable pub expiry : ℕ → ℤ → ℕ
expiry now d = now + to_nat d * second

unfoldable pub activate_tx : ℕ → Actor → ℕ → RuleId → ℕ → ℕ → List String → Db YusuiTicket
activate_tx id actor agent rid targets expires addrs =
    transition id Status.approved Action.policy_apply actor
      (Payload.applied agent rid targets expires)
      λ t. do
        upsert_binding (record {
          ticket_id = t.id;
          agent_id = agent;
          agent_rule_id = rid;
          src_peer_ips = addrs;
        })
        set_binding_applied t.id
        set_ticket_active t.id expires

unfoldable pub revoke_tx : ℕ → String → Actor → Db YusuiTicket
revoke_tx id reason actor =
    transition id Status.active Action.ticket_revoke actor (Payload.because reason)
      λ t. set_ticket_status t.id Status.revoking

unfoldable pub revoke_pending_tx : ℕ → Actor → Db YusuiTicket
revoke_pending_tx id actor =
    transition id Status.revoking Action.policy_revoke_pending actor Payload.empty
      λ t. set_ticket_status t.id Status.revoke_pending

unfoldable pub close_tx : ℕ → String → Actor → Db YusuiTicket
close_tx id reason actor =
    transition id Status.revoking Action.policy_revoke actor (Payload.because reason)
      λ t. close_ticket t.id Status.closed
