-- ===== src/Examples/Sessions.antt =====
-- The theorems on the session manager, at concrete inputs.
use yusui.Prelude.{ℕ, ◌+◌, ◌≡◌, refl, true, false, none, some, [], ◌∷◌, get, put, delete}
use yusui.Exec.{ok, err, ssh_error, ◌>>=◌}
use yusui.Store.Rows.{YusuiTicket, YusuiAssetCredential, AuthKind, UserRole}
use yusui.Store.Conn.{in_tx, bracketed, query}
use yusui.Store.Sessions.{
  SessionDb, ask, add_attacher, create_session, set_session_running, close_session, update_session,
}
use yusui.Store.Tickets.{
  find, get_ticket_for_update, get_ticket_by_id, update, set_ticket_status, close_ticket,
}
use yusui.Store.Catalog.{
  get_asset_by_id, get_primary_agent_for_project, is_target, get_binding, find_binding,
  insert_audit,
}
use yusui.Store.Inventory.{get_active_credential_for_asset, newest_active}
use yusui.Catalog.Secrets.{unseal}
use yusui.Catalog.Service.{open_credential_secret}
use yusui.Policy.World.{Engine, World, on_db, on_shell, on_gw, clear_forward, resolve_forward}
use yusui.Policy.Transition.{transition, lock_ticket, same_status, audit, guarded}
use yusui.Policy.Tx.{revoke_tx, revoke_pending_tx, close_tx}
use yusui.Policy.Engine.{revoke, close_sessions, finish_revoke, revoke_rule_of}
use yusui.Agent.Control.{Control, revoke_rule, roundtrip}
use yusui.Agent.Forward.{revoke as forward_revoke}
use yusui.WebShell.Manager.{
  Remote, Session, Shells, manager, hang_up, on_err, new_session, dial_ssh, make_session,
  start_session, open_new, open_for_ticket, manager_add_attacher, address, force_close_by_ticket,
  close,
}
use yusui.WebShell.Sessions.{open_for_ticket-Spared, open_new-open_new, opened}
use yusui.WebShell.Revoked.{Attached, Severed, revoke-Severed}
use yusui.Examples.World.{tables, conn_of, live_ticket, binding, control, engine, requester}
use yusui.Examples.Catalog.{glass}
use yusui.Examples.Tokens.{plain, manager as token_manager}
use yusui.Auth.Jwt.{Claims, TokenKind, claims_of, parse}
use yusui.Auth.Guards.{is_access}
use yusui.Http.Terminal.{terminal, running}
use yusui.Http.Attaching.{Allowed, terminal-Allowed}

abbrev credential : YusuiAssetCredential
credential = record {
  id = 4;
  asset_id = 3;
  ssh_user = "ops";
  auth_kind = AuthKind.password;
  secret_enc = 9 ∷ 5 ∷ 6 ∷ [];
  secret_kms_key_id = "local";
  fingerprint = none;
  description = none;
  created_at = 0;
  rotated_at = none;
  is_active = true;
}

abbrev remote : Remote
remote = record {
  dial = λ n host port user secret kind. true;
  new_session = λ n. true;
  request_pty = λ n. true;
  stdin_pipe = λ n. true;
  stdout_pipe = λ n. true;
  shell = λ n. true;
  recording = λ id. some "file:///rec/1.cast";
  split_host_port = λ s. none;
}

abbrev session_db : SessionDb
session_db = record {
  rows = [];
  attachers = [];
  events = [];
  calls = 0;
  fails = λ _. false;
  seq = 1;
  now = 1000;
}

abbrev session : ℕ → Session
session n = record {
  db_id = n + 1;
  pub_id = n + 400;
  ticket_id = 5;
  client = n;
  recording_uri = "file:///rec/1.cast";
}

abbrev shells : Shells
shells = record {
  db = session_db;
  sessions = [];
  live = [];
  channels = [];
  dialled = 0;
  minted = 0;
}

abbrev ulid : ℕ → ℕ
ulid n = n + 400

abbrev world : World Control Shells
world = record {
  conn = conn_of (record tables {
    tickets = live_ticket ∷ [];
    policy_bindings = binding ∷ [];
    asset_credentials = credential ∷ [];
  });
  forwards = [];
  gw = control;
  shell = shells;
  minted = 0;
}

-- The asset takes the connection and refuses the shell; another session is open.
abbrev no_shell : Remote
no_shell = record remote { shell = λ n. false }

abbrev busy_world : World Control Shells
busy_world = record world {
  shell = record shells {
    sessions = (6, session 0) ∷ [];
    live = 0 ∷ [];
    channels = 0 ∷ [];
    dialled = 1;
  };
}

no_shell_runs : (open_for_ticket glass no_shell ulid [] live_ticket busy_world).0 ≡ err ssh_error
unfolding open_for_ticket open_new on_db on_shell get_asset_by_id get_primary_agent_for_project
    is_target query open_credential_secret get_active_credential_for_asset newest_active unseal
    start_session address resolve_forward get dial_ssh on_err new_session make_session hang_up ◌>>=◌
no_shell_runs = refl

open_for_ticket-Spared_example :
    ((open_for_ticket glass no_shell ulid [] live_ticket busy_world).1.shell.live ≡ 0 ∷ [])
    × ((open_for_ticket glass no_shell ulid [] live_ticket busy_world).1.shell.channels ≡ 0 ∷ [])
    × ((open_for_ticket glass no_shell ulid [] live_ticket busy_world).1.shell.sessions
        ≡ (6, session 0) ∷ [])
open_for_ticket-Spared_example =
    open_for_ticket-Spared glass no_shell ulid [] live_ticket busy_world ssh_error no_shell_runs

open_runs : (open_new glass remote ulid [] live_ticket world).0 ≡ ok (session 0)
unfolding open_new on_db on_shell get_asset_by_id get_primary_agent_for_project is_target query
    open_credential_secret get_active_credential_for_asset newest_active unseal start_session
    address resolve_forward get dial_ssh on_err new_session make_session create_session ask
    set_session_running update_session put delete ◌>>=◌
open_runs = refl

open_again_runs :
    (open_new glass remote ulid [] live_ticket (opened glass remote ulid [] live_ticket world)).0
    ≡ ok (session 1)
unfolding open_new on_db on_shell get_asset_by_id get_primary_agent_for_project is_target query
    open_credential_secret get_active_credential_for_asset newest_active unseal start_session
    address resolve_forward get dial_ssh on_err new_session make_session create_session ask
    set_session_running update_session put delete ◌>>=◌
open_again_runs = refl

open_new-open_new_example :
    (get 5
        (opened glass remote ulid [] live_ticket
          (opened glass remote ulid [] live_ticket world)).shell.sessions
      ≡ some (session 1))
    × ((force_close_by_ticket 5 "done"
          (opened glass remote ulid [] live_ticket
            (opened glass remote ulid [] live_ticket world)).shell).1.live
        ≡ 0 ∷ [])
open_new-open_new_example =
    open_new-open_new glass remote ulid [] live_ticket world "done" (session 0) (session 1)
      open_runs open_again_runs

abbrev closing_engine : Engine Control Shells
closing_engine = record {
  gateway = engine.gateway;
  src_peer_ips = engine.src_peer_ips;
  closer = some manager;
  parse_addr = engine.parse_addr;
  ulid = engine.ulid;
}

abbrev attached_world : World Control Shells
attached_world = record world {
  shell = record shells { sessions = (5, session 0) ∷ []; live = 0 ∷ []; dialled = 1 };
}

attached : Attached 5 (session 0) attached_world.shell
unfolding get
attached = record { found = refl; ticket_id = refl; live = refl }

revoke_runs : (revoke closing_engine 5 "done" requester attached_world).0 ≡ ok tt
unfolding ◌>>=◌ on_db transition in_tx bracketed query lock_ticket get_ticket_for_update same_status
    audit insert_audit get_ticket_by_id update guarded set_ticket_status on_gw put delete get
    roundtrip revoke revoke_tx get_binding close_sessions finish_revoke revoke_rule_of close_tx
    revoke_pending_tx clear_forward on_shell find_binding close_ticket revoke_rule forward_revoke
    force_close_by_ticket close close_session ask update_session hang_up
revoke_runs = refl

revoke-Severed_example :
    Severed 5
      (session 0)
      attached_world.shell
      (revoke closing_engine 5 "done" requester attached_world).1.shell
revoke-Severed_example =
    revoke-Severed closing_engine 5 (session 0) "done" requester attached_world refl attached
      revoke_runs

-- The requester of the ticket asks for its terminal.
abbrev claims : Claims
claims = claims_of 1000 TokenKind.access 1 "1" UserRole.requester 1_800_000_000_000 1

terminal_runs :
    (terminal plain token_manager glass remote ulid [] true "web" ("key", claims) (some 5) world).0
    ≡ running (session 0) 2
unfolding terminal parse claims_of same_status open_for_ticket manager_add_attacher add_attacher
    get_ticket_by_id open_new on_db on_shell get_asset_by_id get_primary_agent_for_project is_target
    query open_credential_secret get_active_credential_for_asset newest_active unseal start_session
    address resolve_forward get dial_ssh on_err new_session make_session create_session ask
    set_session_running update_session put delete ◌>>=◌
terminal_runs = refl

terminal-Allowed_example :
    (c : Claims) × (parse plain token_manager 1000 ("key", claims) ≡ some c)
    × (is_access c.kind ≡ true)
    × (id : ℕ) × (some 5 ≡ some id)
    × (tk : YusuiTicket) × (find id world.conn.tickets ≡ some tk)
    × Allowed c tk
terminal-Allowed_example =
    terminal-Allowed plain token_manager glass remote ulid [] true "web" ("key", claims) (some 5)
      world (session 0) 2 terminal_runs
