-- ===== src/WebShell/Manager.antt =====
-- server/internal/webshell/manager.go, and Close of server/internal/webshell/session.go. `Remote` is
-- golang.org/x/crypto/ssh and the file system: whether the n-th dial succeeds, whether each call on that
-- connection and on its SSH session does, where the recording of a session goes, and how
-- a forward address is split. The forwards are those of the policy engine.
use yusui.Prelude.{
  ℕ, ◌+◌, Bool, true, false, Option, none, some, List, [], ◌∷◌, String, str_eq, if◌then◌else◌, ◌==◌,
  get, put, delete, mem,
}
use yusui.Prelude.Int.{ℤ}
use yusui.Exec.{
  Result, ok, err, Exec, pure, raise, attempt, lift, ◌>>=◌, ◌>>◌, no_target, ssh_error,
}
use yusui.Store.Rows.{YusuiTicket, YusuiAsset, AuthKind}
use yusui.Store.Catalog.{get_asset_by_id, get_primary_agent_for_project}
use yusui.Store.Sessions.{
  SessionDb, create_session, set_session_running, close_session, add_attacher, detach_attacher,
  insert_command_filter_event,
}
use yusui.Catalog.Secrets.{Sealer}
use yusui.Catalog.Service.{open_credential_secret}
use yusui.Policy.World.{World, on_db, on_shell, resolve_forward, SessionCloser}

pub record Remote : Type 0 where
  pub dial : ℕ → String → ℤ → String → List ℕ → AuthKind → Bool
  pub new_session : ℕ → Bool
  pub request_pty : ℕ → Bool
  pub stdin_pipe : ℕ → Bool
  pub stdout_pipe : ℕ → Bool
  pub shell : ℕ → Bool
  pub recording : ℕ → Option String
  pub split_host_port : String → Option (String × ℤ)

-- `client` is the number of its connection.
pub record Session : Type 0 where
  pub db_id : ℕ
  pub pub_id : ℕ
  pub ticket_id : ℕ
  pub client : ℕ
  pub recording_uri : String

-- `sessions` is the map of the manager; `live` has the connections that are not closed, of the
-- `dialled` ones, and `channels` the connections whose SSH session is not closed. A Session is closed when
-- its connection is.
pub record Shells : Type 0 where
  pub db : SessionDb
  pub sessions : List (ℕ × Session)
  pub live : List ℕ
  pub channels : List ℕ
  pub dialled : ℕ
  pub minted : ℕ

abbrev pub on_sessions : {A : Type 0} → Exec SessionDb A → Exec Shells A
on_sessions m st = ((m st.db).0, record st { db = (m st.db).1 })

unfoldable pub hang_up : ℕ → List ℕ → List ℕ
hang_up n [] = []
hang_up n (m ∷ ms) = if m == n then ms else m ∷ hang_up n ms

-- `_ = sess.Close()` and `_ = client.Close()`, of the SSH session on a connection and of the connection.
abbrev pub close_sess : ℕ → Shells → Shells
close_sess n st = record st { channels = hang_up n st.channels }

abbrev pub close_client : ℕ → Shells → Shells
close_client n st = record st { live = hang_up n st.live }

-- `if err != nil { f; return err }` after a call.
abbrev pub cleaned : {A : Type 0} → (Shells → Shells) → Result A → Shells → Result A × Shells
cleaned f (ok a) st = (ok a, st)
cleaned f (err x) st = (err x, f st)

unfoldable pub on_err : {A : Type 0} → (Shells → Shells) → Exec Shells A → Exec Shells A
unfolding hang_up
on_err f m st = cleaned f (m st).0 (m st).1

abbrev pub result_of : {A : Type 0} → Option A → Result A
result_of none = err ssh_error
result_of (some a) = ok a

abbrev pub must : Bool → Result (Unit {0})
must true = ok tt
must false = err ssh_error

-- What the session runs on.
pub record Target : Type 0 where
  pub asset_id : ℕ
  pub agent_id : ℕ
  pub host : String
  pub port : ℤ
  pub ssh_user : String
  pub secret : List ℕ
  pub auth_kind : AuthKind

module _ (r : Remote) (ulid : ℕ → ℕ) (rules : List String) where
  abbrev pub mint : Exec Shells ℕ
  mint st = (ok (ulid st.minted), record st { minted = st.minted + 1 })

  unfoldable pub dial_ssh : Target → Exec Shells ℕ
  dial_ssh g st =
      let n = st.dialled in
      if r.dial n g.host g.port g.ssh_user g.secret g.auth_kind
      then (ok n, record st { live = n ∷ st.live; dialled = n + 1 })
      else (err ssh_error, record st { dialled = n + 1 })

  unfoldable pub new_session : ℕ → Exec Shells (Unit {0})
  new_session client st =
      if r.new_session client
      then (ok tt, record st { channels = client ∷ st.channels })
      else (err ssh_error, st)

  -- From the connection to the recorder.
  unfoldable pub make_session : ℕ → Target → ℕ → Exec Shells Session
  unfolding new_session on_err
  make_session ticket g client = do
    on_err (λ st. close_client client st) (new_session client)
    on_err (λ st. close_client client (close_sess client st)) (lift (must (r.request_pty client)))
    on_err (λ st. close_client client (close_sess client st)) (lift (must (r.stdin_pipe client)))
    on_err (λ st. close_client client (close_sess client st)) (lift (must (r.stdout_pipe client)))
    on_err (λ st. close_client client (close_sess client st)) (lift (must (r.shell client)))
    pub_id ← mint
    row ←
        on_err (λ st. close_client client (close_sess client st))
          (on_sessions (
            create_session (record {
              pub_id = pub_id;
              ticket_id = ticket;
              asset_id = g.asset_id;
              agent_id = g.agent_id;
              ssh_user = g.ssh_user;
              command_policy_snapshot = rules;
            })))
    uri ←
        on_err (λ st. close_client client (close_sess client st))
          (lift (result_of (r.recording row.pub_id)))
    pure (record {
      db_id = row.id;
      pub_id = row.pub_id;
      ticket_id = ticket;
      client = client;
      recording_uri = uri;
    })

  abbrev pub install : Session → Exec Shells Session
  install s st = (ok s, record st { sessions = put s.ticket_id s st.sessions })

  unfoldable pub start_session : ℕ → Target → Exec Shells Session
  unfolding dial_ssh make_session
  start_session ticket g = do
    client ← dial_ssh g
    s ← make_session ticket g client
    attempt (on_sessions (set_session_running s.db_id))
    install s

-- `Close`, which runs once, and the `onClose` of the manager.
unfoldable pub close : Session → String → Shells → Shells
unfolding hang_up
close s reason st =
    if mem s.client st.live
    then record st {
      db = (close_session s.db_id reason s.recording_uri st.db).1;
      sessions = delete s.ticket_id st.sessions;
      live = hang_up s.client st.live;
      channels = hang_up s.client st.channels;
    }
    else st

abbrev pub close_found : Option Session → String → Shells → Shells
close_found none reason st = st
close_found (some s) reason st = close s reason st

unfoldable pub force_close_by_ticket : ℕ → String → Exec Shells (Unit {0})
unfolding close
force_close_by_ticket id reason st = (ok tt, close_found (get id st.sessions) reason st)

-- The manager as the policy engine is given it.
abbrev pub manager : SessionCloser Shells
manager = record { force_close_by_ticket = force_close_by_ticket }

abbrev pub split_or : Option (String × ℤ) → String → ℤ → String × ℤ
split_or none host port = (host, port)
split_or (some a) host port = a

-- The forwarder of the agent where one is registered, the asset itself otherwise.
unfoldable pub address : Remote → String → String → ℤ → String × ℤ
address r fwd host port =
    if str_eq fwd "" then (host, port) else split_or (r.split_host_port fwd) host port

abbrev pub with_first : {A : Type 0} {S B : Type 0} → List A → (A → Exec S B) → Exec S B
with_first [] f = raise no_target
with_first (a ∷ rest) f = f a

module _ {G : Type 0} (sealer : Sealer) (r : Remote) (ulid : ℕ → ℕ) (rules : List String) where
  abbrev pub target_of :
      World G Shells → YusuiTicket → ℕ → YusuiAsset → ℕ → ℤ → String × List ℕ × AuthKind → Target
  target_of w t asset_id asset agent port cred =
      let to = address r (resolve_forward t.id w) asset.ip_internal port in
      record {
        asset_id = asset_id;
        agent_id = agent;
        host = to.0;
        port = to.1;
        ssh_user = cred.0;
        secret = cred.1;
        auth_kind = cred.2;
      }

  abbrev pub start_on :
      YusuiTicket
      → ℕ
      → YusuiAsset
      → ℕ
      → ℤ
      → String × List ℕ × AuthKind
      → Exec (World G Shells) Session
  start_on t asset_id asset agent port cred w =
      on_shell (start_session r ulid rules t.id (target_of w t asset_id asset agent port cred)) w

  -- After the look into the map, which has let its lock go.
  unfoldable pub open_new : YusuiTicket → Exec (World G Shells) Session
  unfolding start_session address
  open_new t = with_first t.frozen_asset_ids λ asset_id. with_first t.ports λ port. do
    asset ← on_db (get_asset_by_id asset_id)
    agent ← on_db (get_primary_agent_for_project t.project_id)
    cred ← on_db (open_credential_secret sealer asset_id)
    start_on t asset_id asset agent.id port cred

  abbrev pub or_new : YusuiTicket → Option Session → Exec (World G Shells) Session
  or_new t none = open_new t
  or_new t (some s) = pure s

  unfoldable pub open_for_ticket : YusuiTicket → Exec (World G Shells) Session
  unfolding open_new
  open_for_ticket t w = or_new t (get t.id w.shell.sessions) w

-- The id of the attacher, or 0.
abbrev pub id_or_zero : Result ℕ → ℕ
id_or_zero (ok id) = id
id_or_zero (err x) = 0

unfoldable pub manager_add_attacher : ℕ → Option ℕ → String → String → String → Shells → ℕ × Shells
manager_add_attacher session user source label role st =
    let m =
      on_sessions
        (add_attacher (record {
          session_id = session;
          user_id = user;
          source = source;
          label = some label;
          role = role;
        }))
        st in
    (id_or_zero m.0, m.1)

unfoldable pub manager_detach_attacher : ℕ → Shells → Shells
manager_detach_attacher id st =
    let after = (on_sessions (detach_attacher id) st).1 in if id == 0 then st else after

unfoldable pub record_filter_event :
    ℕ → String → String → String → String → String → String → Shells → Shells
record_filter_event session rule severity action source label line st =
    (on_sessions
      (insert_command_filter_event (record {
        session_id = session;
        rule_id = rule;
        severity = severity;
        action_taken = action;
        source = source;
        attacher_label = some label;
        raw_line = line;
      }))
      st).1
