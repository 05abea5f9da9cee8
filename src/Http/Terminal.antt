-- ===== src/Http/Terminal.antt =====
-- The terminal handler of server/internal/httpapi/webshell.go up to its loops: who gets attached to
-- which session. `accepted` says whether the upgrade to a WebSocket succeeds.
use yusui.Prelude.{ℕ, Bool, not, ◌&&◌, Option, none, some, List, String, if◌then◌else◌, ◌==◌}
use yusui.Exec.{Error, Result, ok, err}
use yusui.Store.Rows.{YusuiTicket, Status, requester}
use yusui.Store.Tickets.{get_ticket_by_id}
use yusui.Policy.World.{World, on_db}
use yusui.Policy.Transition.{same_status}
use yusui.Auth.Jwt.{Jwt, Manager, Claims, parse}
use yusui.Auth.Guards.{same_role, is_access}
use yusui.Catalog.Secrets.{Sealer}
use yusui.WebShell.Manager.{Remote, Session, Shells, open_for_ticket, manager_add_attacher}

-- Refused before the upgrade, dropped by it, ended by an error frame, or running with an attacher.
pub data Terminal : Type 0 where
  refused : (status : ℕ) → Terminal
  dropped : Terminal
  failed : Error → Terminal
  running : Session → (attacher : ℕ) → Terminal

-- The user id in a token, 0 where it is no number.
abbrev pub uid_of : Claims → ℕ
uid_of c = elim c.subject [ none ↦ 0 | some id ↦ id ]

abbrev pub strange : Claims → YusuiTicket → Bool
strange c t = same_role c.role requester && not (t.requester_id == uid_of c)

module _ {G T : Type 0} (j : Jwt T) (m : Manager) (sealer : Sealer) (r : Remote) (ulid : ℕ → ℕ)
    (rules : List String) (accepted : Bool) (source : String) where
  abbrev pub attached : Claims → Result Session → World G Shells → Terminal × World G Shells
  attached c (err x) w = (failed x, w)
  attached c (ok s) w =
      let a = manager_add_attacher s.db_id (some (uid_of c)) source c.username "primary" w.shell in
      (running s a.0, record w { shell = a.1 })

  abbrev pub on_ticket : Claims → Result YusuiTicket → World G Shells → Terminal × World G Shells
  on_ticket c (err x) w = (refused 404, w)
  on_ticket c (ok t) w =
      let o = open_for_ticket sealer r ulid rules t w in
      if strange c t
      then (refused 403, w)
      else if not (same_status t.status Status.active)
      then (refused 409, w)
      else if accepted
      then attached c o.0 o.1
      else (dropped, w)

  abbrev pub for_id : Claims → Option ℕ → World G Shells → Terminal × World G Shells
  for_id c none w = (refused 400, w)
  for_id c (some id) w =
      let g = on_db {G = G} {S = Shells} (get_ticket_by_id id) w in on_ticket c g.0 g.1

  abbrev pub for_claims : Option Claims → Option ℕ → World G Shells → Terminal × World G Shells
  for_claims none oid w = (refused 401, w)
  for_claims (some c) oid w = if is_access c.kind then for_id c oid w else (refused 401, w)

  unfoldable pub terminal : T → Option ℕ → World G Shells → Terminal × World G Shells
  terminal t oid w = for_claims (parse j m w.conn.now t) oid w
