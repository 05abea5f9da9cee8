-- ===== src/Agent/Overlay/Waiting.antt =====
-- How the wait for the overlay of agent/internal/overlay/overlay.go ends.
use yusui.Prelude.{
  ℕ, zero, suc, ◌+◌, ◌<◌, ◌≤◌, ◌≡◌, refl, sym, ap, ◌∙◌, Bool, true, false, List, String, str_eq,
  ◌==◌, ==→eq, arith, Bool-cases, inl, inr, ◌⊎◌,
}
use yusui.Exec.{Error, Result, ok, err}
use yusui.Exec.After.{Result-cases}
use yusui.Agent.Overlay.{
  Addr, Netbird, netbird, Wait, returned, iface_ipv4, wait_up, ensure_up, up_args,
}

module _ (look : ℕ → String → Result (List Addr)) (netbird_up : List String → Result (Unit {0}))
    (canceled : ℕ → Bool) (ctx_err : Error) where
  abbrev pub missing : ℕ → String → Bool
  missing n iface = str_eq (iface_ipv4 look n iface) ""

  -- The loop has returned in round `round`, the first from `n` on in which the interface has an
  -- address or the context is done.
  pub record Ends (n m : ℕ) (iface : String) (w : Wait) : Type 0 where
    pub round : ℕ
    pub from : n ≤ round
    pub to : round ≤ m
    pub quiet : (i : ℕ) → n ≤ i → i < round → (missing i iface ≡ true) × (canceled i ≡ false)
    pub outcome :
        ((missing round iface ≡ false) × (w ≡ returned (ok tt)))
        ⊎ ((missing round iface ≡ true) × (canceled round ≡ true) × (w ≡ returned (err ctx_err)))

  abbrev pub Event : ℕ → String → Type 0
  Event m iface = (missing m iface ≡ false) ⊎ (canceled m ≡ true)

  quiet-Event :
      (n m : ℕ) (iface : String)
      → missing n iface ≡ true
      → canceled n ≡ false
      → Event m iface
      → (n == m) ≡ false
  quiet-Event n m iface h k (inl up) = elim (Bool-cases (n == m)) [
    | inl same ↦ let e : n ≡ m = ==→eq n m same in cc
    | inr other ↦ other
  ]
  quiet-Event n m iface h k (inr over) = elim (Bool-cases (n == m)) [
    | inl same ↦ let e : n ≡ m = ==→eq n m same in cc
    | inr other ↦ other
  ]

  ne_lt : (n m : ℕ) → n ≤ m → (n == m) ≡ false → n + 1 ≤ m
  ne_lt n m l h = ground arith

  first_quiet :
      (n round : ℕ) (iface : String)
      → missing n iface ≡ true
      → canceled n ≡ false
      → ((i : ℕ) → n + 1 ≤ i → i < round → (missing i iface ≡ true) × (canceled i ≡ false))
      → (i : ℕ) → n ≤ i
      → i < round
      → (missing i iface ≡ true) × (canceled i ≡ false)
  first_quiet n round iface h k rest i p q = elim (Bool-cases (n == i)) [
    | inl same ↦
        let e : n ≡ i = ==→eq n i same in
        (ap (λ j. missing j iface) (sym e) ∙ h, ap canceled (sym e) ∙ k)
    | inr other ↦ rest i (ne_lt n i p other) q
  ]

  wait_up-Ends :
      (fuel n m : ℕ) (iface : String)
      → n ≤ m
      → m < n + fuel
      → Event m iface
      → Ends n m iface (wait_up look netbird_up canceled ctx_err fuel n iface)
  unfolding wait_up
  wait_up-Ends zero n m iface l b ev = absurd (omega arith)
  wait_up-Ends (suc fuel) n m iface l b ev = elim (Bool-cases (missing n iface)) [
    | inr up ↦ record {
      round = n;
      from = omega arith;
      to = l;
      quiet = λ i p q. absurd (omega (arith, p, q));
      outcome = inl (up, rw up refl);
    }
    | inl none ↦ elim (Bool-cases (canceled n)) [
      | inl over ↦ record {
        round = n;
        from = omega arith;
        to = l;
        quiet = λ i p q. absurd (omega (arith, p, q));
        outcome = inr (none, over, rw (none, over) refl);
      }
      | inr on ↦
          let other = quiet-Event n m iface none on ev in
          let rest = wait_up-Ends fuel (n + 1) m iface (ne_lt n m l other) (omega arith) ev in
          record {
            round = rest.round;
            from = omega (arith, rest.from);
            to = rest.to;
            quiet = λ i p q. first_quiet n rest.round iface none on rest.quiet i p q;
            outcome = rw (none, on) rest.outcome;
          }
    ]
  ]

  -- EnsureUp comes back, whatever the daemon answers: if the interface has an address in round `m`
  -- or the context is done by then, m + 1 rounds are enough. Once `netbird up` has not failed, it
  -- succeeds if the address comes first and reports the context's error otherwise.
  pub ensure_up-Ends :
      (m fuel : ℕ) (b : Netbird)
      → m < fuel
      → Event m b.iface
      → ((str_eq b.setup_key "" ≡ false)
          × ((x : Error) × (netbird_up (up_args b) ≡ err x)
              × (ensure_up look netbird_up canceled ctx_err fuel (netbird b) ≡ returned (err x))))
        ⊎ Ends 0 m b.iface (ensure_up look netbird_up canceled ctx_err fuel (netbird b))
  unfolding ensure_up
  ensure_up-Ends m fuel b l ev = elim (Bool-cases (str_eq b.setup_key "")) [
    | inl no_key ↦ inr (rw no_key ended)
    | inr key ↦ rw key (elim (Result-cases (netbird_up (up_args b))) [
      | inl (u, started) ↦ inr (rw started ended)
      | inr (x, refused) ↦ inl (refl, (x, refused, rw refused refl))
    ])
  ]
    where
      ended : Ends 0 m b.iface (wait_up look netbird_up canceled ctx_err fuel 0 b.iface)
      ended = wait_up-Ends fuel 0 m b.iface (omega arith) (omega (arith, l)) ev

  -- If the interface has an address in round `m` and the context is not done in the rounds before,
  -- EnsureUp succeeds, unless it has a setup key with which `netbird up` fails.
  pub ensure_up-up :
      (m fuel : ℕ) (b : Netbird)
      → m < fuel
      → missing m b.iface ≡ false
      → ((i : ℕ) → i < m → canceled i ≡ false)
      → (str_eq b.setup_key "" ≡ true) ⊎ (netbird_up (up_args b) ≡ ok tt)
      → ensure_up look netbird_up canceled ctx_err fuel (netbird b) ≡ returned (ok tt)
  ensure_up-up m fuel b l up on started = elim (ensure_up-Ends m fuel b l (inl up)) [
    | inl failed ↦ absurd (refuted failed.0 failed.1.1 started)
    | inr e ↦ elim e.outcome [
      | inl good ↦ good.1
      | inr bad ↦ absurd (too_late e.round e.to bad.0 bad.1)
    ]
  ]
    where
      refuted :
          {x : Error}
          → str_eq b.setup_key "" ≡ false
          → netbird_up (up_args b) ≡ err x
          → (str_eq b.setup_key "" ≡ true) ⊎ (netbird_up (up_args b) ≡ ok tt)
          → ⊥
      refuted h k (inl none) = cc
      refuted h k (inr fine) = cc

      too_late : (round : ℕ) → round ≤ m → missing round b.iface ≡ true → canceled round ≡ true → ⊥
      too_late round to h over = elim (Bool-cases (round == m)) [
        | inl same ↦ let i : round ≡ m = ==→eq round m same in cc
        | inr other ↦ let still = on round (omega (arith, ne_lt round m to other)) in cc
      ]
