-- ===== src/Http/Attaching.antt =====
-- Who gets a terminal from server/internal/httpapi/webshell.go.
use yusui.Prelude.{
  ℕ, ◌≡◌, refl, Bool, true, false, not, Option, none, some, List, String, ◌==◌, Bool-cases, inl,
  inr, arith, ==→eq,
}
use yusui.Exec.{Result, ok, err}
use yusui.Exec.After.{After-ok}
use yusui.Store.Rows.{YusuiTicket, Status, requester}
use yusui.Store.Conn.{Tables}
use yusui.Store.Tickets.{find, get_ticket_by_id}
use yusui.Policy.World.{World, on_db}
use yusui.Policy.Transition.{same_status, eq_of_same_status}
use yusui.Policy.Commits.{read-After}
use yusui.Policy.Outcomes.{on_db-After}
use yusui.Auth.Jwt.{Jwt, Manager, Claims, parse}
use yusui.Auth.Guards.{is_access}
use yusui.Catalog.Secrets.{Sealer}
use yusui.WebShell.Manager.{Remote, Session, Shells}
use yusui.Http.Terminal.{running, uid_of, strange, on_ticket, for_id, for_claims, terminal}

-- What entitles to the terminal of a ticket.
pub record Allowed (c : Claims) (t : YusuiTicket) : Type 0 where
  pub active : t.status ≡ Status.active
  pub own : c.role ≡ requester → t.requester_id ≡ uid_of c

own_unless :
    (c : Claims) (t : YusuiTicket)
    → strange c t ≡ false
    → c.role ≡ requester
    → t.requester_id ≡ uid_of c
own_unless c t h role = ==→eq t.requester_id (uid_of c) (ground (arith, mine))
  where
    mine : not (t.requester_id == uid_of c) ≡ false
    mine = rw role at h

module _ {G T : Type 0} (j : Jwt T) (m : Manager) (sealer : Sealer) (r : Remote) (ulid : ℕ → ℕ)
    (rules : List String) (accepted : Bool) (source : String) where
  on_ticket-Allowed :
      (c : Claims) (t : YusuiTicket) (w : World G Shells) (s : Session) (n : ℕ)
      → (on_ticket j m sealer r ulid rules accepted source c (ok t) w).0 ≡ running s n
      → Allowed c t
  on_ticket-Allowed c t w s n = elim (Bool-cases (strange c t)) [
    | inl other ↦ rw other (λ h. cc h)
    | inr mine ↦ elim (Bool-cases (same_status t.status Status.active)) [
      | inl active ↦ λ h. record {
        active = eq_of_same_status t.status Status.active active;
        own = own_unless c t mine;
      }
      | inr ended ↦ rw (mine, ended) (λ h. cc h)
    ]
  ]

  on_found-Allowed :
      (c : Claims) (id : ℕ) (d : Tables) (res : Result YusuiTicket) (w : World G Shells)
      (s : Session) (n : ℕ)
      → ((t : YusuiTicket) → res ≡ ok t → find id d.tickets ≡ some t)
      → (on_ticket j m sealer r ulid rules accepted source c res w).0 ≡ running s n
      → (t : YusuiTicket) × (find id d.tickets ≡ some t) × Allowed c t
  on_found-Allowed c id d (err x) w s n f h = cc h
  on_found-Allowed c id d (ok t) w s n f h = (t, f t refl, on_ticket-Allowed c t w s n h)

  get_ticket-find :
      (id : ℕ) (w : World G Shells) (t : YusuiTicket)
      → (on_db {G = G} {S = Shells} (get_ticket_by_id id) w).0 ≡ ok t
      → find id w.conn.tickets ≡ some t
  unfolding get_ticket_by_id
  get_ticket-find id w t h =
      (After-ok (on_db-After (read-After (λ d. find id d.tickets) w.conn)) t h).0.0

  for_id-Allowed :
      (c : Claims) (oid : Option ℕ) (w : World G Shells) (s : Session) (n : ℕ)
      → (for_id j m sealer r ulid rules accepted source c oid w).0 ≡ running s n
      → (id : ℕ) × (oid ≡ some id)
        × (t : YusuiTicket) × (find id w.conn.tickets ≡ some t)
        × Allowed c t
  for_id-Allowed c none w s n h = cc h
  for_id-Allowed c (some id) w s n h =
      let (t, found, a) =
        on_found-Allowed c id w.conn.tables _ _ s n (λ t e. get_ticket-find id w t e) h in
      (id, refl, t, found, a)

  for_claims-Allowed :
      (o : Option Claims) (oid : Option ℕ) (w : World G Shells) (s : Session) (n : ℕ)
      → (for_claims j m sealer r ulid rules accepted source o oid w).0 ≡ running s n
      → (c : Claims) × (o ≡ some c)
        × (is_access c.kind ≡ true)
        × (id : ℕ) × (oid ≡ some id)
        × (t : YusuiTicket) × (find id w.conn.tickets ≡ some t)
        × Allowed c t
  for_claims-Allowed none oid w s n h = cc h
  for_claims-Allowed (some c) oid w s n h = elim (Bool-cases (is_access c.kind)) [
    | inl access ↦
        let (id, same, t, found, a) = for_id-Allowed c oid w s n (rw access at h) in
        (c, refl, access, id, same, t, found, a)
    | inr other ↦ cc (rw other at h)
  ]

  -- A terminal runs only for a valid access token and an active ticket, and for a requester only if
  -- the ticket is his own.
  pub terminal-Allowed :
      (t : T) (oid : Option ℕ) (w : World G Shells) (s : Session) (n : ℕ)
      → (terminal j m sealer r ulid rules accepted source t oid w).0 ≡ running s n
      → (c : Claims) × (parse j m w.conn.now t ≡ some c)
        × (is_access c.kind ≡ true)
        × (id : ℕ) × (oid ≡ some id)
        × (tk : YusuiTicket) × (find id w.conn.tickets ≡ some tk)
        × Allowed c tk
  unfolding terminal
  terminal-Allowed t oid w s n h = for_claims-Allowed (parse j m w.conn.now t) oid w s n h
