-- ===== src/Gateway/Memory.antt =====
-- The in-process mock of server/internal/agentgw/gateway.go: a map from rule ids, by the number in
-- them, to what was applied.
use yusui.Prelude.{
  ℕ, ◌≡◌, refl, Bool, List, [], ◌∷◌, String, if◌then◌else◌, ◌==◌, get, put, delete, is_some,
  get-put, get-delete, arith, true, false, ==_refl,
}
use yusui.Exec.{ok, Exec}
use yusui.Store.Rows.{RuleId, tk}
use yusui.Gateway.{Gateway, ApplyInput}

pub record Memory : Type 0 where
  pub rules : List (ℕ × ApplyInput)

abbrev pub rule_number : RuleId → ℕ
rule_number (tk n) = n

unfoldable pub apply_rule : ApplyInput → Exec Memory String
apply_rule i m = (ok "", record { rules = put (rule_number i.rule_id) i m.rules })

unfoldable pub revoke_rule : ℕ → RuleId → Exec Memory (Unit {0})
revoke_rule agent rule m = (ok tt, record { rules = delete (rule_number rule) m.rules })

-- The loop of Reconcile.
unfoldable pub active_on : ℕ → List (ℕ × ApplyInput) → List RuleId
active_on agent [] = []
active_on agent ((n, i) ∷ rules) =
    if i.agent_id == agent then tk n ∷ active_on agent rules else active_on agent rules

unfoldable pub reconcile : ℕ → Exec Memory (List RuleId)
reconcile agent m = (ok (active_on agent m.rules), m)

unfoldable pub has : RuleId → Memory → Bool
has rule m = is_some (get (rule_number rule) m.rules)

abbrev pub memory : Gateway Memory
memory = record { apply_rule = apply_rule; revoke_rule = revoke_rule; reconcile = reconcile }

-- What is known of a rule after it was applied, or revoked, is just that; the other rules are as
-- they were.
pub record Mocks (i : ApplyInput) (agent : ℕ) (other : RuleId) (m : Memory) : Type 0 where
  pub applied : has i.rule_id (memory.apply_rule i m).1 ≡ true
  pub revoked : has i.rule_id (memory.revoke_rule agent i.rule_id m).1 ≡ false
  pub kept :
      has other (memory.revoke_rule agent i.rule_id (memory.apply_rule i m).1).1
      ≡ (if rule_number i.rule_id == rule_number other then false else has other m)

-- A rule is there after its ApplyRule and gone after its RevokeRule, whatever agent is named; both
-- together leave every other rule as it was.
pub memory-Mocks :
    (i : ApplyInput) (agent : ℕ) (other : RuleId) (m : Memory) → Mocks i agent other m
unfolding has apply_rule revoke_rule
memory-Mocks i agent other m = record {
  applied = rw (get-put n n i m.rules, ==_refl n) refl;
  revoked = rw (get-delete n n m.rules, ==_refl n) refl;
  kept = ground (arith, get-delete k n (put n i m.rules), get-put k n i m.rules);
}
  where
    n : ℕ
    n = rule_number i.rule_id

    k : ℕ
    k = rule_number other
