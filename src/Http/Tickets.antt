-- ===== src/Http/Tickets.antt =====
-- server/internal/httpapi/tickets.go, and its routes in server/internal/httpapi/router.go. A path id
-- that is no number, and a body that does not decode, are `none`.
use yusui.Prelude.{
  ℕ, not, ◌&&◌, ◌||◌, Option, none, some, List, [], ◌∷◌, String, str_eq, if◌then◌else◌, ◌==◌,
}
use yusui.Prelude.Int.{ℤ}
use yusui.Exec.{Error, Result, ok, err, Exec, not_found, conflict, validation, self_approve}
use yusui.Store.Rows.{YusuiTicket, requester, approver, admin, Actor}
use yusui.Store.Tickets.{get_ticket_by_id, list_tickets, list_tickets_by_requester}
use yusui.Policy.World.{Engine, World, on_db}
use yusui.Policy.Engine.{submit, approve, reject, revoke}
use yusui.Auth.Jwt.{Jwt, Manager}
use yusui.Auth.Guards.{
  Answer, reply, refuse, Handler, Principal, same_role, authenticator, require_role,
  require_step_up,
}

-- `fail`: the status code of an error of the engine.
unfoldable pub fail : {A : Type 0} → Error → Answer A
fail self_approve = refuse 403 "approver_eq_requester"
fail validation = refuse 400 "validation"
fail not_found = refuse 404 "ticket_not_found"
fail conflict = refuse 409 "ticket_conflict"
fail _ = refuse 500 "internal"

unfoldable pub actor_of : Principal → Actor
actor_of p = record { type = "user"; id = p.username }

abbrev pub answer_of : {A : Type 0} → ℕ → Result A → Answer A
answer_of status (ok a) = reply status a
answer_of status (err x) = fail x

abbrev pub to_answer : {W A : Type 0} → ℕ → Exec W A → Handler W A
to_answer status m w = (answer_of status (m w).0, (m w).1)

-- The body of a submit.
pub record SubmitBody : Type 0 where
  pub project_id : ℕ
  pub asset_ids : List ℕ
  pub ports : List ℤ
  pub protocol : String
  pub access_kind : String
  pub reason : String
  pub duration_sec : ℤ

abbrev pub bad_request : {W A : Type 0} → Handler W A
bad_request w = (refuse 400 "bad_request", w)

abbrev pub result_or : {A : Type 0} → Result A → Option A
result_or (ok a) = some a
result_or (err x) = none

module _ {G S : Type 0} (e : Engine G S) where
  unfoldable pub submit_handler : Option SubmitBody → Principal → Handler (World G S) YusuiTicket
  unfolding actor_of fail
  submit_handler none p = bad_request
  submit_handler (some b) p = to_answer 201 (
      submit e
        (record {
          requester_id = p.user_id;
          project_id = b.project_id;
          asset_ids = b.asset_ids;
          ports = b.ports;
          protocol = b.protocol;
          access_kind = b.access_kind;
          reason = b.reason;
          duration_sec = b.duration_sec;
        })
        (actor_of p))

  unfoldable pub list_handler : Principal → Handler (World G S) (List YusuiTicket)
  unfolding fail
  list_handler p = to_answer 200 (
      if same_role p.role admin || same_role p.role approver
      then on_db list_tickets
      else on_db (list_tickets_by_requester p.user_id))

  abbrev pub shown : Principal → Result YusuiTicket → Answer YusuiTicket
  shown p (err x) = refuse 404 "ticket_not_found"
  shown p (ok t) =
      if same_role p.role requester && not (t.requester_id == p.user_id)
      then refuse 403 "forbidden_not_owner"
      else reply 200 t

  unfoldable pub get_handler : Option ℕ → Principal → Handler (World G S) YusuiTicket
  get_handler none p w = bad_request w
  get_handler (some id) p w =
      let r = on_db {G = G} {S = S} (get_ticket_by_id id) w in (shown p r.0, r.1)

  unfoldable pub approve_handler : Option ℕ → Principal → Handler (World G S) YusuiTicket
  unfolding actor_of fail
  approve_handler none p = bad_request
  approve_handler (some id) p = to_answer 200 (approve e id p.user_id (actor_of p))

  unfoldable pub reject_handler : Option ℕ → String → Principal → Handler (World G S) YusuiTicket
  unfolding actor_of fail
  reject_handler none reason p = bad_request
  reject_handler (some id) reason p = to_answer 200 (reject e id p.user_id reason (actor_of p))

  abbrev pub or_manual : String → String
  or_manual s = if str_eq s "" then "manual revoke" else s

  -- What is answered after the revoke: the row as it stands then, if it can be read.
  abbrev pub updated : ℕ → Result (Unit {0}) → Handler (World G S) (Option YusuiTicket)
  updated id (err x) w = (fail x, w)
  updated id (ok u) w =
      let r = on_db {G = G} {S = S} (get_ticket_by_id id) w in (reply 200 (result_or r.0), r.1)

  abbrev pub revoke_as :
      ℕ → String → Principal → Result YusuiTicket → Handler (World G S) (Option YusuiTicket)
  revoke_as id reason p (err x) w = (refuse 404 "ticket_not_found", w)
  revoke_as id reason p (ok t) w =
      let r = revoke e id (or_manual reason) (actor_of p) w in
      if not (same_role p.role admin) && not (t.requester_id == p.user_id)
      then (refuse 403 "forbidden_not_owner", w)
      else updated id r.0 r.1

  unfoldable pub revoke_handler :
      Option ℕ → String → Principal → Handler (World G S) (Option YusuiTicket)
  unfolding actor_of fail
  revoke_handler none reason p w = bad_request w
  revoke_handler (some id) reason p w =
      let r = on_db {G = G} {S = S} (get_ticket_by_id id) w in revoke_as id reason p r.0 r.1

  abbrev pub clock : World G S → ℕ
  clock w = w.conn.now

  module _ {T : Type 0} (j : Jwt T) (m : Manager) (window : ℕ) where
    unfoldable pub approve_route : Option T → Option ℕ → Handler (World G S) YusuiTicket
    unfolding approve_handler
    approve_route bearer id =
        authenticator j m clock bearer
          (require_role (approver ∷ admin ∷ []) (require_step_up clock window (approve_handler id)))

    unfoldable pub reject_route : Option T → Option ℕ → String → Handler (World G S) YusuiTicket
    unfolding reject_handler
    reject_route bearer id reason = authenticator j m clock bearer (
        require_role (approver ∷ admin ∷ [])
          (require_step_up clock window (reject_handler id reason)))

    unfoldable pub revoke_route :
        Option T → Option ℕ → String → Handler (World G S) (Option YusuiTicket)
    unfolding revoke_handler
    revoke_route bearer id reason =
        authenticator j m clock bearer (require_step_up clock window (revoke_handler id reason))

    unfoldable pub submit_route : Option T → Option SubmitBody → Handler (World G S) YusuiTicket
    unfolding submit_handler
    submit_route bearer body = authenticator j m clock bearer (submit_handler body)

    unfoldable pub list_route : Option T → Handler (World G S) (List YusuiTicket)
    unfolding list_handler
    list_route bearer = authenticator j m clock bearer list_handler

    unfoldable pub get_route : Option T → Option ℕ → Handler (World G S) YusuiTicket
    unfolding get_handler
    get_route bearer id = authenticator j m clock bearer (get_handler id)
