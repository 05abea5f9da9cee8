-- ===== src/Policy/Submission.antt =====
-- The transaction of Submit: one pending ticket more, and its audit row.
use yusui.Store.Catalog.{audit_row}
use yusui.Store.Lookup.{insert_checks-unused}
use yusui.Prelude.{
  some, List, arith, ==_refl, ℕ, ◌≡◌, refl, ap, ◌∙◌, false, none, [], ◌∷◌, ◌==◌, Bool-cases, inl,
  inr, exists, ◌++◌,
}
use yusui.Exec.After.{After, After-imp, After-bind, After-pure}
use yusui.Store.Rows.{asset_ids, Status, Actor, Action, Payload, Target, YusuiTicket}
use yusui.Store.Conn.{Conn, counted, Tables}
use yusui.Store.Laws.{After-query, After-in_tx}
use yusui.Store.Tickets.{find, CreateTicketParams, create_ticket, insert_checks, new_ticket}
use yusui.Policy.Step.{Step}
use yusui.Policy.Tx.{SubmitInput, submit_tx, create_params}
use yusui.Policy.Commits.{audit-After}

-- What the insert of a pending ticket knows and leaves.
record Inserted (t : YusuiTicket) (d d' : Tables) : Type 0 where
  unused : find t.id d.tickets ≡ none
  fresh : exists (λ x. x.pub_id == t.pub_id) d.tickets ≡ false
  starts : t.status ≡ Status.pending
  unapproved : t.approver_id ≡ none
  rows : d'.tickets ≡ d.tickets ++ t ∷ []
  log : d'.audit_logs ≡ d.audit_logs

create_ticket-After :
    (a : CreateTicketParams) (c : Conn)
    → After (λ t d. Inserted t c.tables d.tables) (create_ticket a) c
unfolding create_ticket new_ticket
create_ticket-After a c = After-query (record {
  holds = elim (Bool-cases (insert_checks c.tables c.seq a)) [
    | inl fine ↦ rw fine (
        let (unused, fresh) = insert_checks-unused c.tables c.seq a fine in
        record {
          unused = unused;
          fresh = fresh;
          starts = refl;
          unapproved = refl;
          rows = refl;
          log = refl;
        })
    | inr broken ↦ rw broken tt
  ];
})

-- Submit adds one pending ticket under an unused id and public id.
pub submit_tx-After :
    (pub_id : ℕ) (i : SubmitInput) (actor : Actor) (c : Conn)
    → After (λ _ d. Step c.tables d.tables) (submit_tx pub_id i actor) c
unfolding submit_tx
submit_tx-After pub_id i actor c =
    After-in_tx (λ _ d. Step c.tables d)
      (After-bind (
        After-imp
          (λ t d h. After-bind (
            After-imp (λ _ d' a. After-pure t d' (added t d d' h a))
              (audit-After actor Action.ticket_submit t.pub_id payload d)))
          (create_ticket-After (create_params pub_id i) (counted c))))
  where
    payload : Payload
    payload = Payload.submitted i.project_id i.asset_ids

    added :
        (t : YusuiTicket) (d d' : Conn)
        → Inserted t c.tables d.tables
        → (ts : ℕ) × (d'.tables ≡ record (d.tables) {
          audit_logs =
              audit_row ts actor Action.ticket_submit (Target.ticket t.pub_id) payload
              ∷ d.audit_logs;
        })
        → Step c.tables d'.tables
    added t d d' h a =
        Step.submits t a.0 actor payload h.unused h.fresh h.starts h.unapproved
          (ap (λ x. x.tickets) a.1 ∙ h.rows) (cc (ap (λ x. x.audit_logs) a.1, h.log))

-- The row that answers a request.
pub record Submitted (i : SubmitInput) (t : YusuiTicket) (d : Tables) : Type 0 where
  pub found : find t.id d.tickets ≡ some t
  pub starts : t.status ≡ Status.pending
  pub unapproved : t.approver_id ≡ none
  pub requester_id : t.requester_id ≡ i.requester_id
  pub project_id : t.project_id ≡ i.project_id
  pub target_selector : t.target_selector ≡ asset_ids i.asset_ids
  pub ports : t.ports ≡ i.ports
  pub duration_sec : t.duration_sec ≡ i.duration_sec

find-append_new :
    (ts : List YusuiTicket) (t : YusuiTicket)
    → find t.id ts ≡ none
    → find t.id (ts ++ t ∷ []) ≡ some t
find-append_new [] t h = ground (arith, ==_refl t.id)
find-append_new (x ∷ ts) t h = ground (arith, find-append_new ts t)

create_ticket-Submitted :
    (pub_id : ℕ) (i : SubmitInput) (c : Conn)
    → After (λ t d. Submitted i t d.tables) (create_ticket (create_params pub_id i)) c
unfolding create_ticket new_ticket create_params
create_ticket-Submitted pub_id i c = After-query (record {
  holds = elim (Bool-cases (insert_checks c.tables c.seq (create_params pub_id i))) [
    | inl fine ↦ rw fine (
        let (unused, fresh) = insert_checks-unused c.tables c.seq (create_params pub_id i) fine in
        record {
          found =
              find-append_new c.tickets (new_ticket c.seq c.now (create_params pub_id i)) unused;
          starts = refl;
          unapproved = refl;
          requester_id = refl;
          project_id = refl;
          target_selector = refl;
          ports = refl;
          duration_sec = refl;
        })
    | inr broken ↦ rw broken tt
  ];
})

-- The audit row and the commit leave the ticket as it was inserted.
kept :
    (i : SubmitInput) (t : YusuiTicket) (d d' : Tables)
    → Submitted i t d
    → d'.tickets ≡ d.tickets
    → Submitted i t d'
kept i t d d' h same = record {
  found = ap (find t.id) same ∙ h.found;
  starts = h.starts;
  unapproved = h.unapproved;
  requester_id = h.requester_id;
  project_id = h.project_id;
  target_selector = h.target_selector;
  ports = h.ports;
  duration_sec = h.duration_sec;
}

pub submit_tx-Submitted :
    (pub_id : ℕ) (i : SubmitInput) (actor : Actor) (c : Conn)
    → After (λ t d. Submitted i t d.tables) (submit_tx pub_id i actor) c
unfolding submit_tx
submit_tx-Submitted pub_id i actor c =
    After-in_tx (λ t d. Submitted i t d)
      (After-bind (
        After-imp
          (λ t d h. After-bind (
            After-imp
              (λ _ d' a. After-pure t d' (kept i t d.tables d'.tables h (ap (λ x. x.tickets) a.1)))
              (audit-After actor Action.ticket_submit t.pub_id _ d)))
          (create_ticket-Submitted pub_id i (counted c))))
