-- ===== src/Http/Admins.antt =====
-- Who may change the enrollment of an agent, by the routes of server/internal/httpapi/router.go.
use yusui.Prelude.{ℕ, ◌≡◌, refl, sym, ap, subst, Option, none, some, [], ◌∷◌, String, ◌⊎◌, inl, inr}
use yusui.Store.Rows.{admin}
use yusui.Store.Conn.{Conn}
use yusui.Auth.Jwt.{Jwt, Manager}
use yusui.Auth.Guards.{Handler, Principal, authenticator, require_role, require_step_up}
use yusui.Catalog.Service.{
  AgentView, Verdict, approve_with, reject_it, set_enrollment, catalog_approve_agent,
  catalog_reject_agent,
}
use yusui.Catalog.Enrollment.{Enrolled, set_enrollment-Enrolled}
use yusui.Http.Catalog.{
  approve_agent_handler, reject_agent_handler, approve_agent_route, reject_agent_route, db_clock,
}
use yusui.Http.Admission.{Admitted, guarded-cases}

-- What a request to change an enrollment has done: one audited change, by an admin whose step-up is
-- recent, or nothing to any table.
pub Lawful : {T : Type 0} → Jwt T → Manager → ℕ → Option T → Verdict → Conn → Conn → Type 0
Lawful j m window bearer v c d =
    ((p : Principal) × Admitted j m (admin ∷ []) window c.now bearer p
      × (id : ℕ) × (view : AgentView) × Enrolled id p.username v c.now c.tables view d.tables)
    ⊎ (d.tables ≡ c.tables)

module _ {T : Type 0} (j : Jwt T) (m : Manager) (window : ℕ) (bearer : Option T) where
  enrollment-Lawful :
      (p : Principal) (id : ℕ) (v : Verdict) (c : Conn)
      → Admitted j m (admin ∷ []) window c.now bearer p
      → Lawful j m window bearer v c (set_enrollment id p.username v c).1
  unfolding Lawful
  enrollment-Lawful p id v c a = elim (set_enrollment-Enrolled id p.username v c) [
    | inl (view, done, h) ↦ inl (p, a, id, view, h)
    | inr (x, failed, same) ↦ inr same
  ]

  handler-Lawful :
      {A : Type 0} (v : Verdict) (next : Principal → Handler Conn A) (c : Conn)
      → ((p : Principal)
          → Admitted j m (admin ∷ []) window c.now bearer p
          → Lawful j m window bearer v c (next p c).1)
      → Lawful j m window bearer v c
          (authenticator j m db_clock bearer
            (require_role (admin ∷ []) (require_step_up db_clock window next))
            c).1
  unfolding Lawful
  handler-Lawful v next c h = elim (guarded-cases j m (admin ∷ []) window db_clock bearer next c) [
    | inl (p, adm, runs) ↦ subst (Lawful j m window bearer v c) (sym (ap (λ r. r.1) runs)) (h p adm)
    | inr (status, code, refused) ↦ inr (ap (λ r. r.1.tables) refused)
  ]

  approve-Lawful :
      (oid : Option ℕ) (key : String) (c : Conn) (p : Principal)
      → Admitted j m (admin ∷ []) window c.now bearer p
      → Lawful j m window bearer (approve_with key) c (approve_agent_handler oid key p c).1
  unfolding Lawful approve_agent_handler catalog_approve_agent
  approve-Lawful none key c p a = inr refl
  approve-Lawful (some id) key c p a = enrollment-Lawful p id (approve_with key) c a

  reject-Lawful :
      (oid : Option ℕ) (c : Conn) (p : Principal)
      → Admitted j m (admin ∷ []) window c.now bearer p
      → Lawful j m window bearer reject_it c (reject_agent_handler oid p c).1
  unfolding Lawful reject_agent_handler catalog_reject_agent
  reject-Lawful none c p a = inr refl
  reject-Lawful (some id) c p a = enrollment-Lawful p id reject_it c a

  -- A request to approve or to reject an agent, whoever sends it and whichever database call fails,
  -- makes one audited change in the name of an admin whose token is valid and whose step-up is
  -- recent, or changes no table.
  pub enrollment_routes-Lawful :
      (oid : Option ℕ) (key : String) (c : Conn)
      → Lawful j m window bearer
          (approve_with key)
          c
          (approve_agent_route j m bearer window oid key c).1
        × Lawful j m window bearer reject_it c (reject_agent_route j m bearer window oid c).1
  unfolding approve_agent_route reject_agent_route
  enrollment_routes-Lawful oid key c = (
    handler-Lawful (approve_with key) (approve_agent_handler oid key) c (approve-Lawful oid key c),
    handler-Lawful reject_it (reject_agent_handler oid) c (reject-Lawful oid c),
  )
