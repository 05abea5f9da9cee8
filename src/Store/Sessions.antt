-- ===== src/Store/Sessions.antt =====
-- server/internal/store/sessions.sql.go. No other statement of the server touches these three tables,
-- so they stand by themselves, with their own count of calls; the rows that their keys name are never
-- deleted.
use yusui.Prelude.{
  ℕ, ◌+◌, Bool, true, false, not, ◌&&◌, ◌||◌, Option, none, some, List, [], ◌∷◌, ◌++◌, String,
  if◌then◌else◌, ◌==◌, exists, first, select,
}
use mathlib.Core.List.{reverse}
use yusui.Exec.{ok, err, Exec, unavailable, duplicate}
use yusui.Store.Conn.{one}

pub data SessionStatus : Type 0 where
  allocated running closed : SessionStatus

pub record YusuiSession : Type 0 where
  pub id : ℕ
  pub pub_id : ℕ
  pub ticket_id : ℕ
  pub asset_id : ℕ
  pub agent_id : ℕ
  pub ssh_user : String
  pub status : SessionStatus
  pub opened_at : Option ℕ
  pub closed_at : Option ℕ
  pub closed_reason : Option String
  pub recording_uri : Option String
  pub command_policy_snapshot : List String

pub record YusuiSessionAttacher : Type 0 where
  pub id : ℕ
  pub session_id : ℕ
  pub user_id : Option ℕ
  pub source : String
  pub label : Option String
  pub role : String
  pub attached_at : ℕ
  pub detached_at : Option ℕ

pub record YusuiCommandFilterEvent : Type 0 where
  pub id : ℕ
  pub session_id : ℕ
  pub ts : ℕ
  pub rule_id : String
  pub severity : String
  pub action_taken : String
  pub source : String
  pub attacher_label : Option String
  pub raw_line : String

pub record SessionDb : Type 0 where
  pub rows : List YusuiSession
  pub attachers : List YusuiSessionAttacher
  pub events : List YusuiCommandFilterEvent
  pub calls : ℕ
  pub fails : ℕ → Bool
  pub seq : ℕ
  pub now : ℕ

unfoldable pub ask : {A : Type 0} → Exec SessionDb A → Exec SessionDb A
ask stmt d =
    let e = record d { calls = d.calls + 1 } in
    if d.fails d.calls then (err unavailable, e) else stmt e

pub record CreateSessionParams : Type 0 where
  pub pub_id : ℕ
  pub ticket_id : ℕ
  pub asset_id : ℕ
  pub agent_id : ℕ
  pub ssh_user : String
  pub command_policy_snapshot : List String

abbrev pub new_session : ℕ → CreateSessionParams → YusuiSession
new_session id p = record {
  id = id;
  pub_id = p.pub_id;
  ticket_id = p.ticket_id;
  asset_id = p.asset_id;
  agent_id = p.agent_id;
  ssh_user = p.ssh_user;
  status = allocated;
  opened_at = none;
  closed_at = none;
  closed_reason = none;
  recording_uri = none;
  command_policy_snapshot = p.command_policy_snapshot;
}

unfoldable pub create_session : CreateSessionParams → Exec SessionDb YusuiSession
unfolding ask
create_session p = ask λ d.
    let r = new_session d.seq p in
    let e = record d { seq = d.seq + 1 } in
    if exists (λ x. x.id == d.seq || x.pub_id == p.pub_id) d.rows
    then (err duplicate, e)
    else (ok r, record e { rows = d.rows ++ r ∷ [] })

unfoldable pub update_session :
    (YusuiSession → Bool) → (YusuiSession → YusuiSession) → List YusuiSession → List YusuiSession
update_session p f [] = []
update_session p f (r ∷ rs) = (if p r then f r else r) ∷ update_session p f rs

unfoldable pub set_session_running : ℕ → Exec SessionDb (Unit {0})
unfolding ask update_session
set_session_running id = ask λ d. (
  ok tt,
  record d {
    rows =
        update_session (λ r. r.id == id)
          (λ r. record r { status = running; opened_at = some d.now }) d.rows;
  },
)

abbrev pub is_closed : SessionStatus → Bool
is_closed closed = true
is_closed _ = false

unfoldable pub close_session : ℕ → String → String → Exec SessionDb (Unit {0})
unfolding ask update_session
close_session id reason uri = ask λ d. (
  ok tt,
  record d {
    rows =
        update_session (λ r. r.id == id && not (is_closed r.status))
          (λ r. record r {
            status = closed;
            closed_at = some d.now;
            closed_reason = some reason;
            recording_uri = some uri;
          })
          d.rows;
  },
)

unfoldable pub get_session : ℕ → Exec SessionDb YusuiSession
unfolding ask
get_session id = ask λ d. (one (first (λ r. r.id == id) d.rows), d)

unfoldable pub list_sessions_by_ticket : ℕ → Exec SessionDb (List YusuiSession)
unfolding ask
list_sessions_by_ticket ticket =
    ask λ d. (ok (reverse (select (λ r. r.ticket_id == ticket) d.rows)), d)

pub record AddAttacherParams : Type 0 where
  pub session_id : ℕ
  pub user_id : Option ℕ
  pub source : String
  pub label : Option String
  pub role : String

unfoldable pub add_attacher : AddAttacherParams → Exec SessionDb ℕ
unfolding ask
add_attacher p = ask λ d.
    let row : YusuiSessionAttacher = record {
      id = d.seq;
      session_id = p.session_id;
      user_id = p.user_id;
      source = p.source;
      label = p.label;
      role = p.role;
      attached_at = d.now;
      detached_at = none;
    } in
    (ok d.seq, record d { seq = d.seq + 1; attachers = d.attachers ++ row ∷ [] })

unfoldable pub detach_all : ℕ → ℕ → List YusuiSessionAttacher → List YusuiSessionAttacher
detach_all now id [] = []
detach_all now id (a ∷ rest) =
    (if a.id == id then record a { detached_at = some now } else a) ∷ detach_all now id rest

unfoldable pub detach_attacher : ℕ → Exec SessionDb (Unit {0})
unfolding ask detach_all
detach_attacher id = ask λ d. (ok tt, record d { attachers = detach_all d.now id d.attachers })

pub record InsertCommandFilterEventParams : Type 0 where
  pub session_id : ℕ
  pub rule_id : String
  pub severity : String
  pub action_taken : String
  pub source : String
  pub attacher_label : Option String
  pub raw_line : String

unfoldable pub insert_command_filter_event :
    InsertCommandFilterEventParams → Exec SessionDb (Unit {0})
unfolding ask
insert_command_filter_event p = ask λ d.
    let row : YusuiCommandFilterEvent = record {
      id = d.seq;
      session_id = p.session_id;
      ts = d.now;
      rule_id = p.rule_id;
      severity = p.severity;
      action_taken = p.action_taken;
      source = p.source;
      attacher_label = p.attacher_label;
      raw_line = p.raw_line;
    } in
    (ok tt, record d { seq = d.seq + 1; events = d.events ++ row ∷ [] })
