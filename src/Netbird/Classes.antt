-- ===== src/Netbird/Classes.antt =====
-- Which failures of server/internal/netbird/adapter.go are to be tried again.
use yusui.Prelude.{
  ℕ, ◌≤◌, ◌≡◌, ◌↔◌, ◌⊎◌, inl, inr, refl, Bool, true, false, Option, none, some, leb, arith, is_some,
  subst, ◌<◌, Bool-cases,
}
use yusui.Netbird.{
  ErrClass, err_transient, err_conflict, err_auth, err_schema, ApiError, classify, Management,
  Request, failed, answered, decoded, call,
}

-- The classes of the statuses, as docs/04 has them.
pub record Classes (status : ℕ) (c : ErrClass) : Type 0 where
  pub transient : (c ≡ err_transient) ↔ (500 ≤ status)
  pub auth : (c ≡ err_auth) ↔ ((status ≡ 401) ⊎ (status ≡ 403))
  pub conflict : (c ≡ err_conflict) ↔ (status ≡ 409)
  pub read : (c ≡ err_schema) → ⊥

pub classify-Classes : (status : ℕ) → Classes status (classify status)
unfolding classify
classify-Classes status = record {
  transient = (λ h. ground arith, λ h. ground arith);
  auth = (λ h. ground arith, λ h. ground arith);
  conflict = (λ h. ground arith, λ h. ground arith);
  read = λ h. ground arith;
}

-- What the class of a failed call tells of the response.
pub record Failure {Body : Type 0} (r : Option (ℕ × Body)) (e : ApiError) : Type 0 where
  pub transient : (e.class ≡ err_transient) ↔ ((is_some r ≡ false) ⊎ (500 ≤ e.status))
  pub auth : (e.class ≡ err_auth) ↔ ((e.status ≡ 401) ⊎ (e.status ≡ 403))
  pub conflict : (e.class ≡ err_conflict) ↔ (e.status ≡ 409)
  pub schema : (e.class ≡ err_schema) ↔ ((is_some r ≡ true) × (e.status < 400))

module _ {A Body : Type 0} (is_blank : Body → Bool) (decode : Body → Option A) (blank : A) where
  lost-Failure : Failure {Body = Body} none (record { class = err_transient; status = 0 })
  lost-Failure = record {
    transient = (λ h. inl refl, λ h. refl);
    auth = (λ h. ground arith, λ h. ground arith);
    conflict = (λ h. ground arith, λ h. ground arith);
    schema = (λ h. ground arith, λ h. ground arith);
  }

  refused-Failure :
      (status : ℕ) (body : Body)
      → 400 ≤ status
      → Failure (some (status, body)) (record { class = classify status; status = status })
  refused-Failure status body h =
      let c = classify-Classes status in
      record {
        transient = (λ k. inr (c.transient.0 k), λ k. c.transient.1 (ground (arith, k)));
        auth = c.auth;
        conflict = c.conflict;
        schema = (λ k. absurd (c.read k), λ k. ground (arith, h, k));
      }

  unread-Failure :
      (status : ℕ) (body : Body)
      → status < 400
      → Failure (some (status, body)) (record { class = err_schema; status = status })
  unread-Failure status body h = record {
    transient = (λ k. ground (arith, h, k), λ k. ground (arith, h, k));
    auth = (λ k. ground (arith, h, k), λ k. ground (arith, h, k));
    conflict = (λ k. ground (arith, h, k), λ k. ground (arith, h, k));
    schema = (λ k. (refl, h), λ k. refl);
  }

  decoded-Failure :
      (status : ℕ) (body : Body) (o : Option A) (e : ApiError)
      → status < 400
      → decoded status o ≡ failed e
      → Failure (some (status, body)) e
  decoded-Failure status body (some a) e h k = cc
  decoded-Failure status body none e h k =
      let same : record { class = err_schema; status = status } ≡ e = cc in
      subst (Failure (some (status, body))) same (unread-Failure status body h)

  answered-Failure :
      (r : Option (ℕ × Body)) (e : ApiError)
      → answered is_blank decode blank r ≡ failed e
      → Failure r e
  answered-Failure none e = λ h.
      let same : record { class = err_transient; status = 0 } ≡ e = cc h in
      subst (Failure none) same lost-Failure
  answered-Failure (some (status, body)) e = elim (Bool-cases (leb 400 status)) [
    | inl bad ↦ rw bad (λ h.
        let same : record { class = classify status; status = status } ≡ e = cc h in
        subst (Failure (some (status, body))) same
          (refused-Failure status body (ground (arith, bad))))
    | inr fine ↦ elim (Bool-cases (is_blank body)) [
      | inl empty ↦ rw (fine, empty) (λ h. cc h)
      | inr full ↦
          rw (fine, full) (decoded-Failure status body (decode body) e (ground (arith, fine)))
    ]
  ]

-- When a call to an address that is well formed fails, its class is transient where no response came
-- or the status is 500 or more, and only there; auth, conflict and schema stand for 401 or 403, for
-- 409, and for a response below 400 that could not be read.
pub call-Failure :
    {S Body A : Type 0} (api : Management S Body) (decode : Body → Option A) (blank : A)
    (req : Request) (s : S) (e : ApiError)
    → api.url_ok ≡ true
    → (call api decode blank req s).0 ≡ failed e
    → Failure (api.send req s).0 e
unfolding call
call-Failure api decode blank req s e ok =
    rw ok (answered-Failure api.is_blank decode blank (api.send req s).0 e)
