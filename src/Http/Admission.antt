-- ===== src/Http/Admission.antt =====
-- Who the routes of server/internal/httpapi/router.go let act on tickets.
use yusui.Prelude.{
  ℕ, ◌≡◌, ◌≢◌, refl, sym, ap, subst, ◌∙◌, Bool, true, false, Option, none, some, List, [], ◌∷◌,
  String, ◌⊎◌, inl, inr, Bool-cases, Option-cases, arith,
}
use yusui.Exec.{Error, Result, ok, err}
use yusui.Store.Rows.{YusuiTicket, UserRole, approver, admin}
use yusui.Policy.World.{Engine, World}
use yusui.Policy.Approval.{Granted, approve-Granted}
use yusui.Auth.Jwt.{Jwt, Manager}
use yusui.Auth.Guards.{
  Answer, reply, refuse, Handler, Principal, has_role, is_recent, caller, authenticator,
  require_role, require_step_up,
}
use yusui.Http.Tickets.{
  answer_of, fail, actor_of, approve_handler, reject_handler, approve_route, reject_route, clock,
}

-- What the guards of a route have found out about the caller.
pub record Admitted {T : Type 0} (j : Jwt T) (m : Manager) (roles : List UserRole) (window now : ℕ)
    (bearer : Option T) (p : Principal) : Type 0 where
  pub authentic : caller j m now bearer ≡ some p
  pub role : has_role p.role roles ≡ true
  pub recent : is_recent window now p ≡ true

module _ {W A T : Type 0} (j : Jwt T) (m : Manager) (roles : List UserRole) (window : ℕ)
    (now_of : W → ℕ) (bearer : Option T) (next : Principal → Handler W A) (w : W) where
  abbrev guarded : Handler W A
  guarded =
      authenticator j m now_of bearer (require_role roles (require_step_up now_of window next))

  -- A guarded handler runs for a principal who was admitted, or the request is refused and nothing
  -- is done.
  pub guarded-cases :
      ((p : Principal) × Admitted j m roles window (now_of w) bearer p × (guarded w ≡ next p w))
      ⊎ ((status : ℕ) × (code : String) × (guarded w ≡ (refuse status code, w)))
  unfolding authenticator require_role require_step_up
  guarded-cases = elim (Option-cases (caller j m (now_of w) bearer)) [
    | inl nobody ↦ inr (401, "unauthorized", rw nobody refl)
    | inr (p, known) ↦ elim (Bool-cases (has_role p.role roles)) [
      | inl role ↦ elim (Bool-cases (is_recent window (now_of w) p)) [
        | inl recent ↦ inl (
          p,
          record { authentic = known; role = role; recent = recent },
          rw known (rw (role, recent) refl),
        )
        | inr old ↦ inr (403, "stepup_required", rw known (rw (role, old) refl))
      ]
      | inr wrong ↦ inr (403, "insufficient_role", rw known (rw wrong refl))
    ]
  ]

unfoldable pub is_reply : {A : Type 0} → Answer A → Bool
is_reply (reply s a) = true
is_reply (refuse s c) = false

pub refuse-reply : {A : Type 0} (s s' : ℕ) (code : String) (a : A) → refuse s code ≢ reply s' a
unfolding is_reply
refuse-reply s s' code a h = grind (arith, ap is_reply h)

pub no_reply : {A : Type 0} (x : Answer A) (s : ℕ) (a : A) → is_reply x ≡ false → x ≢ reply s a
unfolding is_reply
no_reply x s a silent h = grind (arith, silent, ap is_reply h)

fail-is_reply : (A : Type 0) (x : Error) → is_reply (fail {A = A} x) ≡ false
unfolding fail is_reply
fail-is_reply A x = grind arith

-- An answer with a body is the answer of a call that succeeded.
pub answer_of-ok :
    {A : Type 0} (s s' : ℕ) (r : Result A) (a : A) → answer_of s r ≡ reply s' a → r ≡ ok a
unfolding is_reply
answer_of-ok s s' (ok b) a h = grind (arith, h)
answer_of-ok s s' (err x) a h = grind (arith, fail-is_reply _ x, ap is_reply h)

module _ {G S T : Type 0} (e : Engine G S) (j : Jwt T) (m : Manager) (window : ℕ)
    (bearer : Option T) where
  abbrev pub Reviewer : ℕ → Principal → Type 0
  Reviewer now p = Admitted j m (approver ∷ admin ∷ []) window now bearer p

  approve_handler-Granted :
      (oid : Option ℕ) (p : Principal) (w : World G S) (s : ℕ) (t : YusuiTicket)
      → (approve_handler e oid p w).0 ≡ reply s t
      → (id : ℕ) × (oid ≡ some id) × Granted id p.user_id t (approve_handler e oid p w).1
  unfolding approve_handler
  approve_handler-Granted none p w s t h = absurd (refuse-reply _ _ _ _ h)
  approve_handler-Granted (some id) p w s t h =
      (id, refl, approve-Granted e id p.user_id (actor_of p) w t (answer_of-ok _ _ _ _ h))

  -- The approve route answers a ticket only to an approver or admin whose token is valid and whose
  -- step-up is recent; the ticket is then active, approved by that principal, who is not its
  -- requester, and has its forward recorded.
  pub approve_route-Granted :
      (oid : Option ℕ) (w : World G S) (s : ℕ) (t : YusuiTicket)
      → (approve_route e j m window bearer oid w).0 ≡ reply s t
      → (p : Principal) × Reviewer w.conn.now p
        × (id : ℕ) × (oid ≡ some id)
        × Granted id p.user_id t (approve_route e j m window bearer oid w).1
  unfolding approve_route
  approve_route-Granted oid w s t h =
      elim (guarded-cases j m (approver ∷ admin ∷ []) window (clock e) bearer
        (approve_handler e oid) w) [
          | inl (p, adm, runs) ↦
              let g = approve_handler-Granted oid p w s t (sym (ap (λ r. r.0) runs) ∙ h) in
              (p, adm, g.0, g.1, subst (Granted g.0 p.user_id t) (sym (ap (λ r. r.1) runs)) g.2)
          | inr (status, code, refused) ↦
              absurd (refuse-reply _ _ _ _ (sym (ap (λ r. r.0) refused) ∙ h))
        ]

  changed-Reviewer :
      {A : Type 0} (next : Principal → Handler (World G S) A) (w : World G S)
      → (authenticator j m
          (clock e)
          bearer
          (require_role (approver ∷ admin ∷ []) (require_step_up (clock e) window next))
          w).1
        ≢ w
      → (p : Principal) × Reviewer w.conn.now p
  changed-Reviewer next w h =
      elim (guarded-cases j m (approver ∷ admin ∷ []) window (clock e) bearer next w) [
        | inl (p, adm, runs) ↦ (p, adm)
        | inr (status, code, refused) ↦ absurd (h (ap (λ r. r.1) refused))
      ]

  -- A request to approve or to reject that changes anything at all comes from an approver or admin
  -- whose token is valid and whose step-up is recent.
  pub review-Reviewer :
      (oid : Option ℕ) (reason : String) (w : World G S)
      → ((approve_route e j m window bearer oid w).1 ≢ w)
        ⊎ ((reject_route e j m window bearer oid reason w).1 ≢ w)
      → (p : Principal) × Reviewer w.conn.now p
  unfolding approve_route reject_route
  review-Reviewer oid reason w (inl h) = changed-Reviewer (approve_handler e oid) w h
  review-Reviewer oid reason w (inr h) = changed-Reviewer (reject_handler e oid reason) w h
