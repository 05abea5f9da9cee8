-- ===== src/Store/Pool.antt =====
-- server/internal/store/pool.go: opening the database. `ping n` is the outcome of the n-th ping,
-- `late n` whether it came after the deadline, `canceled n` whether the wait after it ends with the
-- context.
use yusui.Prelude.{
  ℕ, zero, suc, ◌+◌, ◌≤◌, ◌<◌, ◌≡◌, refl, Bool, true, false, Option, none, some, if◌then◌else◌,
  ◌==◌, ==→eq, is_some, Bool-cases, inl, inr, arith,
}
use yusui.Exec.{Error, Result, ok, err, unavailable}

module _ (ping late canceled : ℕ → Bool) (ctx_err : Error) where
  -- The loop from its n-th ping on; without a result it has not ended within the fuel.
  unfoldable pub ping_with_retry : ℕ → ℕ → Option (Result (Unit {0}))
  ping_with_retry zero n = none
  ping_with_retry (suc fuel) n =
      let rest = ping_with_retry fuel (n + 1) in
      if ping n
      then some (ok tt)
      else if late n
      then some (err unavailable)
      else if canceled n
      then some (err ctx_err)
      else rest

  -- `Open` with a pool that could be made.
  unfoldable pub open_pool : ℕ → Bool → Option (Result (Unit {0}))
  unfolding ping_with_retry
  open_pool fuel parsed = if parsed then ping_with_retry fuel 0 else some (err unavailable)

  loop_ends :
      (fuel n m : ℕ)
      → n ≤ m
      → m < n + fuel
      → late m ≡ true
      → is_some (ping_with_retry fuel n) ≡ true
  unfolding ping_with_retry
  loop_ends zero n m l b h = absurd (omega (arith, l, b))
  loop_ends (suc fuel) n m l b h = elim (Bool-cases (ping n)) [
    | inl up ↦ rw up refl
    | inr down ↦ elim (Bool-cases (late n)) [
      | inl over ↦ rw (down, over) refl
      | inr early ↦ elim (Bool-cases (canceled n)) [
        | inl gone ↦ rw (down, early, gone) refl
        | inr on ↦
            rw (down, early, on) (loop_ends fuel (n + 1) m (after early) (omega (arith, b)) h)
      ]
    ]
  ]
    where
      after : late n ≡ false → n + 1 ≤ m
      after early = elim (Bool-cases (n == m)) [
        | inl same ↦ let e : n ≡ m = ==→eq n m same in cc
        | inr other ↦ ground (arith, l, other)
      ]

  -- Opening ends at the first ping after the deadline at the latest, whether or not the database ever
  -- answers.
  pub open_pool-returns :
      (m fuel : ℕ) (parsed : Bool)
      → m < fuel
      → late m ≡ true
      → is_some (open_pool fuel parsed) ≡ true
  unfolding open_pool
  open_pool-returns m fuel true b h = loop_ends fuel 0 m (omega arith) (omega (arith, b)) h
  open_pool-returns m fuel false b h = refl
