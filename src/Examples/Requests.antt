-- ===== src/Examples/Requests.antt =====
-- The theorems on Submit and Reject of server/internal/policy/engine.go, at concrete inputs.
use yusui.Prelude.{◌≡◌, refl}
use yusui.Exec.{ok}
use yusui.Store.Rows.{YusuiTicket}
use yusui.Exec.{◌>>=◌}
use yusui.Store.Conn.{in_tx, bracketed, query}
use yusui.Store.Tickets.{get_ticket_for_update}
use yusui.Store.Catalog.{insert_audit}
use yusui.Policy.World.{on_db}
use yusui.Policy.Transition.{transition, lock_ticket, same_status, audit, guarded}
use yusui.Policy.Tx.{or_else}
use yusui.Policy.Failing.{submit-err}
use yusui.Policy.Engine.{submit, reject}
use yusui.Policy.Tx.{SubmitInput, submit_checks, reject_tx, reject_row_tx}
use yusui.Exec.{err, validation, self_approve}
use yusui.Examples.World.{engine, fresh, waiting, ticket, requester, request, tables}
use yusui.Prelude.{true}
use yusui.Store.Tickets.{create_ticket, insert_checks, new_ticket}
use yusui.Store.Catalog.{get_project_by_id}
use yusui.Policy.Tx.{submit_tx, create_params}
use yusui.Policy.Engine.{mint}
use yusui.Policy.Submission.{Submitted}
use yusui.Policy.Outcomes.{submit-Submitted}

abbrev submitted : YusuiTicket
submitted = record ticket { id = 6; pub_id = 200; created_at = 1000; updated_at = 1000 }

submit_runs : (submit engine request requester fresh).0 ≡ ok submitted
unfolding submit submit_checks or_else on_db get_project_by_id query mint submit_tx in_tx bracketed
    create_ticket create_params insert_checks new_ticket audit insert_audit ◌>>=◌
submit_runs = refl

submit-Submitted_example :
    (submit_checks request ≡ true)
    × Submitted request submitted (submit engine request requester fresh).1.conn.tables
submit-Submitted_example = submit-Submitted engine request requester fresh submitted submit_runs

abbrev unreasoned : SubmitInput
unreasoned = record request { reason = "" }

submit_refused : (submit engine unreasoned requester fresh).0 ≡ err validation
unfolding submit submit_checks
submit_refused = refl

submit-err_example : (submit engine unreasoned requester fresh).1.conn.tables ≡ tables
submit-err_example = submit-err engine unreasoned requester fresh validation submit_refused

-- The requester of the ticket rejects it.
reject_refused : (reject engine 5 1 "no" requester waiting).0 ≡ err self_approve
unfolding reject reject_tx reject_row_tx ◌>>=◌ on_db transition in_tx bracketed query lock_ticket
    get_ticket_for_update same_status guarded
reject_refused = refl
