-- ===== src/Store/Tickets.antt =====
-- server/internal/store/tickets.sql.go: the queries on the tickets, with the constraints that the
-- first migration puts on them. The table holds the rows by ascending id, as they were inserted.
use mathlib.Core.List.{reverse}
use yusui.Prelude.{
  ℕ, ◌+◌, Bool, true, false, not, ◌&&◌, ◌||◌, Option, none, some, List, [], ◌∷◌, ◌++◌, String,
  str_eq, if◌then◌else◌, ◌==◌, leb, first, select, exists,
}
use yusui.Prelude.Int.{ℤ, lt_const, gt_const}
use yusui.Exec.{ok, err, constraint}
use yusui.Store.Rows.{
  YusuiTicket, YusuiUser, YusuiProject, Status, pending, approved, active, Selector,
}
use yusui.Store.Conn.{Tables, Db, query, read, one, write}

pub record CreateTicketParams : Type 0 where
  pub pub_id : ℕ
  pub requester_id : ℕ
  pub project_id : ℕ
  pub target_selector : Selector
  pub ports : List ℤ
  pub protocol : String
  pub access_kind : String
  pub reason : String
  pub duration_sec : ℤ

abbrev pub find : ℕ → List YusuiTicket → Option YusuiTicket
find id = first (λ t. t.id == id)

-- `UPDATE … WHERE id = $1`.
unfoldable pub update : ℕ → (YusuiTicket → YusuiTicket) → List YusuiTicket → List YusuiTicket
update id f [] = []
update id f (t ∷ ts) = (if t.id == id then f t else t) ∷ update id f ts

abbrev pub has_user : ℕ → List YusuiUser → Bool
has_user id = exists (λ u. u.id == id)

abbrev pub has_project : ℕ → List YusuiProject → Bool
has_project id = exists (λ p. p.id == id)

-- The PRIMARY KEY, UNIQUE, REFERENCES and CHECK lines that an insert can break.
unfoldable pub insert_checks : Tables → ℕ → CreateTicketParams → Bool
insert_checks d id a =
    not (exists (λ t. t.id == id) d.tickets)
    && not (exists (λ t. t.pub_id == a.pub_id) d.tickets)
    && has_user a.requester_id d.users
    && has_project a.project_id d.projects
    && (str_eq a.protocol "tcp" || str_eq a.protocol "udp" || str_eq a.protocol "any")
    && (str_eq a.access_kind "web_shell" || str_eq a.access_kind "jumpserver")
    && not (lt_const a.duration_sec 60)
    && not (gt_const a.duration_sec 86400)

unfoldable pub new_ticket : ℕ → ℕ → CreateTicketParams → YusuiTicket
new_ticket id now a = record {
  id = id;
  pub_id = a.pub_id;
  requester_id = a.requester_id;
  approver_id = none;
  project_id = a.project_id;
  target_selector = a.target_selector;
  frozen_asset_ids = [];
  ports = a.ports;
  protocol = a.protocol;
  access_kind = a.access_kind;
  reason = a.reason;
  duration_sec = a.duration_sec;
  status = pending;
  created_at = now;
  approved_at = none;
  activated_at = none;
  expires_at = none;
  closed_at = none;
  updated_at = now;
}

-- The sequence moves on whether or not the row goes in.
unfoldable pub create_ticket : CreateTicketParams → Db YusuiTicket
unfolding insert_checks
create_ticket a = query λ c.
    let t = new_ticket c.seq c.now a in
    let d = record c { seq = c.seq + 1 } in
    if insert_checks c.tables c.seq a
    then (ok t, record d { tables = record (c.tables) { tickets = c.tickets ++ t ∷ [] } })
    else (err constraint, d)

unfoldable pub get_ticket_by_id : ℕ → Db YusuiTicket
get_ticket_by_id id = read λ c. one (find id c.tickets)

unfoldable pub get_ticket_by_pub_id : ℕ → Db YusuiTicket
get_ticket_by_pub_id p = read λ c. one (first (λ t. t.pub_id == p) c.tickets)

-- The row stays locked to the end of the transaction, which runs alone on it.
unfoldable pub get_ticket_for_update : ℕ → Db YusuiTicket
get_ticket_for_update id = read λ c. one (find id c.tickets)

unfoldable pub list_tickets : Db (List YusuiTicket)
list_tickets = read λ c. ok (reverse c.tickets)

unfoldable pub list_tickets_by_requester : ℕ → Db (List YusuiTicket)
list_tickets_by_requester requester =
    read λ c. ok (reverse (select (λ t. t.requester_id == requester) c.tickets))

abbrev pub set_tickets : Tables → List YusuiTicket → Tables
set_tickets d ts = record d { tickets = ts }

-- CHECK (requester_id <> approver_id OR approver_id IS NULL), and the key of the approver.
unfoldable pub approver_checks : ℕ → ℕ → Tables → Bool
approver_checks id approver d =
    has_user approver d.users
    && not (exists (λ t. t.id == id && t.requester_id == approver) d.tickets)

abbrev pub approve_row : ℕ → ℕ → List ℕ → YusuiTicket → YusuiTicket
approve_row now approver frozen t = record t {
  approver_id = some approver;
  approved_at = some now;
  frozen_asset_ids = frozen;
  status = approved;
  updated_at = now;
}

unfoldable pub set_ticket_approved : ℕ → ℕ → List ℕ → Db (Unit {0})
unfolding approver_checks
set_ticket_approved id approver frozen = query λ c.
    if approver_checks id approver c.tables
    then (
      ok tt,
      record c {
        tables = set_tickets c.tables (update id (approve_row c.now approver frozen) c.tickets);
      },
    )
    else (err constraint, c)

abbrev pub activate_row : ℕ → ℕ → YusuiTicket → YusuiTicket
activate_row now expires t = record t {
  status = active;
  activated_at = some now;
  expires_at = some expires;
  updated_at = now;
}

unfoldable pub set_ticket_active : ℕ → ℕ → Db (Unit {0})
set_ticket_active id expires =
    write λ c. set_tickets c.tables (update id (activate_row c.now expires) c.tickets)

abbrev pub status_row : ℕ → Status → YusuiTicket → YusuiTicket
status_row now s t = record t { status = s; updated_at = now }

unfoldable pub set_ticket_status : ℕ → Status → Db (Unit {0})
set_ticket_status id s = write λ c. set_tickets c.tables (update id (status_row c.now s) c.tickets)

abbrev pub close_row : ℕ → Status → YusuiTicket → YusuiTicket
close_row now s t = record t { status = s; closed_at = some now; updated_at = now }

unfoldable pub close_ticket : ℕ → Status → Db (Unit {0})
close_ticket id s = write λ c. set_tickets c.tables (update id (close_row c.now s) c.tickets)

abbrev pub is_active : Status → Bool
is_active active = true
is_active _ = false

-- expires_at IS NOT NULL AND expires_at <= now
abbrev pub is_past : Option ℕ → ℕ → Bool
is_past none now = false
is_past (some at) now = leb at now

unfoldable pub is_due : ℕ → YusuiTicket → Bool
is_due now t = is_active t.status && is_past t.expires_at now

unfoldable pub is_live : ℕ → YusuiTicket → Bool
is_live now t = is_active t.status && not (is_past t.expires_at now)

unfoldable pub list_expired_active_tickets : Db (List YusuiTicket)
list_expired_active_tickets = read λ c. ok (select (is_due c.now) c.tickets)

unfoldable pub list_active_tickets : Db (List YusuiTicket)
list_active_tickets = read λ c. ok (select (is_live c.now) c.tickets)
