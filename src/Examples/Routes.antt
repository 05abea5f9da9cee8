-- ===== src/Examples/Routes.antt =====
-- The theorems on the routes, at concrete inputs.
use yusui.Prelude.{ℕ, ◌≡◌, refl, ap, some, [], ◌∷◌}
use yusui.Exec.{◌>>=◌}
use yusui.Store.Rows.{UserRole}
use yusui.Store.Conn.{query, in_tx, bracketed}
use yusui.Store.Catalog.{insert_audit}
use yusui.Policy.Transition.{transition, lock_ticket, same_status, audit, guarded}
use yusui.Policy.Engine.{reject}
use yusui.Policy.Tx.{reject_tx, reject_row_tx}
use yusui.Store.Tickets.{
  list_tickets_by_requester, get_ticket_for_update, set_ticket_status, update, get_ticket_by_id,
  close_ticket,
}
use yusui.Policy.World.{on_db}
use yusui.Policy.Approval.{Granted}
use yusui.Auth.Jwt.{claims_of, TokenKind, parse}
use yusui.Auth.Guards.{Principal, reply, authenticator, require_role, require_step_up, caller}
use yusui.Http.Tickets.{
  approve_handler, approve_route, list_handler, list_route, reject_route, reject_handler, actor_of,
  answer_of,
}
use yusui.Http.Admission.{Reviewer, approve_route-Granted}
use yusui.Examples.World.{engine, waiting, ticket}
use yusui.Examples.Workflow.{granted, approve_runs}
use yusui.Examples.Tokens.{Token, plain, manager}

-- The access token of a user, stepped up in the second 1.
abbrev bearer : ℕ → UserRole → Token
bearer id role = ("key", claims_of 1000 TokenKind.access id "1" role 1_800_000_000_000 1)

abbrev approver : Token
approver = bearer 2 UserRole.approver

approve_route_runs :
    (approve_route engine plain manager 900_000_000_000 (some approver) (some 5) waiting).0
    ≡ reply 200 granted
unfolding approve_route authenticator caller parse claims_of require_role require_step_up
    approve_handler actor_of
approve_route_runs = ap (answer_of 200) approve_runs

approve_route-Granted_example :
    (p : Principal) × Reviewer engine plain manager 900_000_000_000
      (some approver)
      waiting.conn.now
      p
    × (id : ℕ) × (some 5 ≡ some id)
    × Granted id p.user_id granted
        (approve_route engine plain manager 900_000_000_000 (some approver) (some 5) waiting).1
approve_route-Granted_example =
    approve_route-Granted engine plain manager 900_000_000_000 (some approver) (some 5) waiting 200
      granted approve_route_runs

list_route_runs :
    (list_route engine plain manager 0 (some (bearer 1 UserRole.requester)) waiting).0
    ≡ reply 200 (ticket ∷ [])
unfolding list_route authenticator caller parse claims_of list_handler list_tickets_by_requester
    query on_db
list_route_runs = refl

-- A rejection asks the database six times.
reject_calls :
    (reject_route engine plain manager 900_000_000_000
      (some approver)
      (some 5)
      "no"
      waiting).1.conn.calls
    ≡ 6
unfolding reject_route authenticator caller parse claims_of require_role require_step_up
    reject_handler actor_of reject reject_tx reject_row_tx ◌>>=◌ on_db transition in_tx bracketed
    query lock_ticket get_ticket_for_update same_status guarded audit insert_audit set_ticket_status
    update get_ticket_by_id close_ticket
reject_calls = refl
