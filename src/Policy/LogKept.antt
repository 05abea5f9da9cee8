-- ===== src/Policy/LogKept.antt =====
-- Every step of the abstract workflow keeps the invariants of the tables that the engine of
-- server/internal/policy/engine.go writes.
use yusui.Prelude.{
  ℕ, ◌≡◌, ◌≢◌, refl, sym, ap, subst, ◌∙◌, false, none, some, [], ◌∷◌, ◌++◌, ◌==◌, inl, inr, ◌⊎◌,
  exists,
}
use yusui.Store.Rows.{YusuiTicket, YusuiAuditLog, Action, Target, pending, ticket_submit}
use yusui.Store.Conn.{Tables}
use yusui.Store.Tickets.{find, update}
use yusui.Store.Lookup.{find-update_cases, find-append_cases, pub_id_ne, find-id}
use yusui.Policy.Step.{Edit, edited, Move, Step, submits, moves, Evolves, here, step}
use yusui.Policy.Log.{
  Inv, outcome, log_status, edited-id, edited-pub_id, Move-outcome, Move-separated, log_status_hit,
  log_status_miss,
}

module _ (d d' : Tables) (v : Inv d) where
  moves-Inv :
      (t : YusuiTicket) (act : Action) (e : Edit) (r : YusuiAuditLog)
      → find t.id d.tickets ≡ some t
      → Move t act e
      → d'.tickets ≡ update t.id (edited e) d.tickets
      → d'.audit_logs ≡ r ∷ d.audit_logs
      → r.target ≡ Target.ticket t.pub_id
      → r.action ≡ act
      → Inv d'
  moves-Inv t act e r found m rows log target action = record {
    distinct = λ i j x y p q same. distinct_at i j x y (cases i x p) (cases j y q) same;
    logged = λ i x p. logged_at i x (cases i x p);
    separated = λ i a x p. separated_at i a x (cases i x p);
  }
    where
      Origin : ℕ → YusuiTicket → Type 0
      Origin j u = ((t.id ≡ j) × (u ≡ edited e t)) ⊎ ((find j d.tickets ≡ some u) × (t.id ≢ j))

      origin :
          (j : ℕ) (u : YusuiTicket)
          → ((x : YusuiTicket) × (find j d.tickets ≡ some x) × (t.id ≡ j) × (u ≡ edited e x))
            ⊎ ((find j d.tickets ≡ some u) × (t.id ≢ j))
          → Origin j u
      origin j u (inl (x, p, at, q)) =
          let p' : find t.id d.tickets ≡ some x =
            subst (λ k. find k d.tickets ≡ some x) (sym at) p in
          let same : x ≡ t = cc (p', found) in inl (at, q ∙ ap (edited e) same)
      origin j u (inr h) = inr h

      cases : (j : ℕ) (u : YusuiTicket) → find j d'.tickets ≡ some u → Origin j u
      cases j u h = origin j u (
          find-update_cases t.id j (edited e) d.tickets u (edited-id e)
            (subst (λ ts. find j ts ≡ some u) rows h))

      origin_pub_id :
          (j : ℕ) (u : YusuiTicket)
          → Origin j u
          → (x : YusuiTicket) × (find j d.tickets ≡ some x) × (u.pub_id ≡ x.pub_id)
      origin_pub_id j u (inl (at, q)) = (
        t,
        subst (λ k. find k d.tickets ≡ some t) at found,
        ap (λ y. y.pub_id) q ∙ edited-pub_id e t,
      )
      origin_pub_id j u (inr (p, _)) = (u, p, refl)

      distinct_at :
          (i j : ℕ) (x y : YusuiTicket) → Origin i x → Origin j y → x.pub_id ≡ y.pub_id → i ≡ j
      distinct_at i j x y p q same =
          let (x', hx, px) = origin_pub_id i x p in
          let (y', hy, py) = origin_pub_id j y q in v.distinct i j x' y' hx hy (sym px ∙ same ∙ py)

      logged_at :
          (i : ℕ) (u : YusuiTicket) → Origin i u → log_status u.pub_id d'.audit_logs ≡ some u.status
      logged_at i u (inl (at, q)) =
          subst (λ w. log_status w.pub_id d'.audit_logs ≡ some w.status) (sym q)
            (ap (log_status (edited e t).pub_id) log
              ∙ ap (λ k. log_status k (r ∷ d.audit_logs)) (edited-pub_id e t)
              ∙ log_status_hit t.pub_id r d.audit_logs target
              ∙ ap outcome action
              ∙ Move-outcome m)
      logged_at i u (inr (p, off)) =
          ap (log_status u.pub_id) log
          ∙ log_status_miss u.pub_id t.pub_id r d.audit_logs target
              (λ same. off (v.distinct t.id i t u found p same))
          ∙ v.logged i u p

      separated_at :
          (i a : ℕ) (u : YusuiTicket) → Origin i u → u.approver_id ≡ some a → u.requester_id ≢ a
      separated_at i a u (inl (at, q)) h =
          subst (λ w. w.approver_id ≡ some a → w.requester_id ≢ a) (sym q)
            (Move-separated a m (v.separated t.id a t found)) h
      separated_at i a u (inr (p, off)) h = v.separated i a u p h

  submits-Inv :
      (t : YusuiTicket) (r : YusuiAuditLog)
      → exists (λ x. x.pub_id == t.pub_id) d.tickets ≡ false
      → t.status ≡ pending
      → t.approver_id ≡ none
      → d'.tickets ≡ d.tickets ++ t ∷ []
      → d'.audit_logs ≡ r ∷ d.audit_logs
      → r.target ≡ Target.ticket t.pub_id
      → r.action ≡ ticket_submit
      → Inv d'
  submits-Inv t r fresh starts unapproved rows log target action = record {
    distinct = λ i j x y p q same. distinct_at i j x y p q (cases i x p) (cases j y q) same;
    logged = λ i x p. logged_at i x (cases i x p);
    separated = λ i a x p. separated_at i a x (cases i x p);
  }
    where
      Origin : ℕ → YusuiTicket → Type 0
      Origin j u = (find j d.tickets ≡ some u) ⊎ (u ≡ t)

      cases : (j : ℕ) (u : YusuiTicket) → find j d'.tickets ≡ some u → Origin j u
      cases j u h = find-append_cases j d.tickets t u (subst (λ ts. find j ts ≡ some u) rows h)

      new_id : (j : ℕ) (u : YusuiTicket) → find j d'.tickets ≡ some u → u ≡ t → j ≡ t.id
      new_id j u h q = sym (find-id j d'.tickets u h) ∙ ap (λ x. x.id) q

      distinct_at :
          (i j : ℕ) (x y : YusuiTicket)
          → find i d'.tickets ≡ some x
          → find j d'.tickets ≡ some y
          → Origin i x
          → Origin j y
          → x.pub_id ≡ y.pub_id
          → i ≡ j
      distinct_at i j x y hx hy (inl p) (inl q) same = v.distinct i j x y p q same
      distinct_at i j x y hx hy (inl p) (inr q) same =
          absurd (pub_id_ne t.pub_id i d.tickets x fresh p (same ∙ ap (λ z. z.pub_id) q))
      distinct_at i j x y hx hy (inr p) (inl q) same =
          absurd (pub_id_ne t.pub_id j d.tickets y fresh q (sym same ∙ ap (λ z. z.pub_id) p))
      distinct_at i j x y hx hy (inr p) (inr q) same = new_id i x hx p ∙ sym (new_id j y hy q)

      logged_at :
          (i : ℕ) (u : YusuiTicket) → Origin i u → log_status u.pub_id d'.audit_logs ≡ some u.status
      logged_at i u (inl p) =
          ap (log_status u.pub_id) log
          ∙ log_status_miss u.pub_id t.pub_id r d.audit_logs target
              (λ same. pub_id_ne t.pub_id i d.tickets u fresh p (sym same))
          ∙ v.logged i u p
      logged_at i u (inr q) =
          subst (λ w. log_status w.pub_id d'.audit_logs ≡ some w.status) (sym q)
            (ap (log_status t.pub_id) log
              ∙ log_status_hit t.pub_id r d.audit_logs target
              ∙ ap outcome action
              ∙ ap some (sym starts))

      separated_at :
          (i a : ℕ) (u : YusuiTicket) → Origin i u → u.approver_id ≡ some a → u.requester_id ≢ a
      separated_at i a u (inl p) h = v.separated i a u p h
      separated_at i a u (inr q) h = cc (ap (λ w. w.approver_id) q, unapproved)

Step-Inv : {d d' : Tables} → Step d d' → Inv d → Inv d'
Step-Inv {d} {d'} (submits t ts actor payload unused fresh starts unapproved rows log) v =
    submits-Inv d d' v t _ fresh starts unapproved rows log refl refl
Step-Inv {d} {d'} (moves t ts actor act payload e found m rows log) v =
    moves-Inv d d' v t act e _ found m rows log refl refl

pub Evolves-Inv : {d d' : Tables} → Inv d → Evolves d d' → Inv d'
Evolves-Inv v here = v
Evolves-Inv v (step r s) = Step-Inv s (Evolves-Inv v r)
