-- ===== src/Examples/Workflow.antt =====
-- The theorems on the policy engine of server/internal/policy/engine.go, at concrete inputs.
use yusui.Prelude.{◌≡◌, refl, some, List, [], ◌∷◌}
use yusui.Exec.{ok}
use yusui.Store.Rows.{YusuiTicket, Action, Target, Payload}
use yusui.Policy.World.{World}
use yusui.Store.Conn.{Conn}
use yusui.Store.Tickets.{approve_row, activate_row}
use yusui.Store.Catalog.{audit_row}
use yusui.Store.Tickets.{find}
use yusui.Agent.Control.{Control}
use yusui.Policy.Service.{Call, submits, approves, revokes, restarts, passes, waits, serve}
use yusui.Policy.Engine.{approve, revoke}
use yusui.Exec.{◌>>=◌}
use yusui.Prelude.{put, delete, get}
use yusui.Store.Conn.{in_tx, bracketed, query}
use yusui.Store.Tickets.{
  get_ticket_for_update, get_ticket_by_id, update, set_ticket_status, set_ticket_approved,
  approver_checks, set_ticket_active, close_ticket,
}
use yusui.Store.Catalog.{
  insert_audit, list_assets_by_ids, get_primary_agent_for_project, is_target, mark_applied,
  set_binding_applied, upsert_binding, upsert_row, get_binding, find_binding,
}
use yusui.Policy.World.{on_db, on_gw, on_shell, set_forward, clear_forward, time_now}
use yusui.Policy.Transition.{transition, lock_ticket, same_status, audit, guarded}
use yusui.Policy.Tx.{
  approve_tx, approve_row_tx, all_in_project, activate_tx, build_targets, expiry, or_else,
  parse_asset_ids, rule_id, targets_of, to_addrs, revoke_tx, close_tx, revoke_pending_tx,
}
use yusui.Policy.Engine.{
  after_apply, apply, apply_input, apply_ticket, close_sessions, finish_revoke, revoke_rule_of,
}
use yusui.Agent.Control.{roundtrip, apply_rule, apply_targets, apply_target, revoke_rule}
use yusui.Agent.Forward.{
  handle_apply, apply as forward_apply, revoke as forward_revoke, new_entry, non_empty,
}
use yusui.Policy.Step.{Evolves}
use yusui.Policy.Log.{Inv}
use yusui.Policy.Fate.{Descends}
use yusui.Policy.Approval.{Granted, approve-Granted}
use yusui.Policy.Outcomes.{Revoked, revoke-Revoked}
use yusui.Policy.History.{serve-Evolves, serve-Inv, serve-Descends}
use yusui.Examples.World.{
  engine, fresh, waiting, open_world, ticket, requester, request, tables, conn_of,
}

abbrev day : List (Call Control (Unit {0}))
day =
    submits request requester
    ∷ approves 6 2 requester
    ∷ restarts
    ∷ waits 5000
    ∷ passes
    ∷ revokes 6 "done" requester
    ∷ []

serve-Evolves_example : Evolves fresh.conn.tables (serve engine day fresh).conn.tables
serve-Evolves_example = serve-Evolves engine day fresh

fresh-Inv : Inv fresh.conn.tables
fresh-Inv = record {
  distinct = λ i j t u p q same. cc;
  logged = λ i t p. cc;
  separated = λ i a t p. cc;
}

serve-Inv_example : Inv (serve engine day fresh).conn.tables
serve-Inv_example = serve-Inv engine day fresh fresh-Inv

abbrev approval : List (Call Control (Unit {0}))
approval = approves 5 2 requester ∷ passes ∷ []

serve-Descends_example :
    (u : YusuiTicket) × (find 5 (serve engine approval waiting).conn.tickets ≡ some u)
    × Descends ticket u
serve-Descends_example = serve-Descends engine approval waiting 5 ticket refl

-- The approval of the waiting ticket, its row at each end, and the world between its transactions.
abbrev approved : YusuiTicket
approved = approve_row 1000 2 (3 ∷ []) ticket

abbrev pub granted : YusuiTicket
granted = activate_row 1000 3600000001000 approved

abbrev approved_conn : Conn
approved_conn =
    record (conn_of (record tables {
      tickets = approved ∷ [];
      audit_logs =
          audit_row 1000 requester Action.ticket_approve (Target.ticket 100) Payload.empty ∷ [];
    })) { calls = 7 }

abbrev approved_world : World Control (Unit {0})
approved_world = record waiting { conn = approved_conn }

approve_tx_runs : on_db (approve_tx 5 2 requester) waiting ≡ (ok approved, approved_world)
unfolding ◌>>=◌ on_db transition in_tx bracketed query lock_ticket get_ticket_for_update same_status
    audit insert_audit get_ticket_by_id update guarded approve_tx approve_row_tx list_assets_by_ids
    all_in_project set_ticket_approved parse_asset_ids approver_checks
approve_tx_runs = refl

abbrev granted_world : World Control (Unit {0})
granted_world = (apply engine 5 requester approved_world).1

apply_runs : (apply engine 5 requester approved_world).0 ≡ ok tt
unfolding ◌>>=◌ on_db transition in_tx bracketed query lock_ticket get_ticket_for_update same_status
    audit insert_audit get_ticket_by_id update guarded set_ticket_status on_gw put delete get
    roundtrip list_assets_by_ids after_apply apply apply_input apply_ticket activate_tx
    build_targets expiry or_else rule_id targets_of to_addrs set_forward time_now
    get_primary_agent_for_project is_target mark_applied set_binding_applied upsert_binding
    upsert_row set_ticket_active apply_rule apply_targets apply_target handle_apply forward_apply
    new_entry non_empty
apply_runs = refl

row_runs : (on_db (get_ticket_by_id 5) granted_world).0 ≡ ok granted
unfolding ◌>>=◌ on_db transition in_tx bracketed query lock_ticket get_ticket_for_update same_status
    audit insert_audit get_ticket_by_id update guarded set_ticket_status on_gw put delete get
    roundtrip list_assets_by_ids after_apply apply apply_input apply_ticket activate_tx
    build_targets expiry or_else rule_id targets_of to_addrs set_forward time_now
    get_primary_agent_for_project is_target mark_applied set_binding_applied upsert_binding
    upsert_row set_ticket_active apply_rule apply_targets apply_target handle_apply forward_apply
    new_entry non_empty
row_runs = refl

pub approve_runs : (approve engine 5 2 requester waiting).0 ≡ ok granted
unfolding approve ◌>>=◌
approve_runs = rw (approve_tx_runs, apply_runs) row_runs

approve-Granted_example : Granted 5 2 granted (approve engine 5 2 requester waiting).1
approve-Granted_example = approve-Granted engine 5 2 requester waiting granted approve_runs

revoke_runs : (revoke engine 5 "done" requester open_world).0 ≡ ok tt
unfolding ◌>>=◌ on_db transition in_tx bracketed query lock_ticket get_ticket_for_update same_status
    audit insert_audit get_ticket_by_id update guarded set_ticket_status on_gw put delete get
    roundtrip revoke revoke_tx get_binding close_sessions finish_revoke revoke_rule_of close_tx
    revoke_pending_tx clear_forward on_shell find_binding close_ticket revoke_rule forward_revoke
revoke_runs = refl

revoke-Revoked_example : Revoked 5 (revoke engine 5 "done" requester open_world).1
revoke-Revoked_example = revoke-Revoked engine 5 requester "done" open_world revoke_runs
