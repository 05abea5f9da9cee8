-- ===== src/Agent/Forward.antt =====
-- agent/internal/forward/forward.go, and `handleApply` of agent/internal/control/client.go. A rule id
-- is the number in it. `listen` is the outcome of the n-th net.Listen: the address bound, or an error.
use yusui.Prelude.{
  ℕ, ◌+◌, ◌-◌, Bool, true, false, ◌||◌, Option, none, some, List, [], ◌∷◌, String, str_eq,
  if◌then◌else◌, leb, ◌==◌, get, put, delete, map,
}
use yusui.Prelude.Int.{ℤ, pos, negsuc, gt_const, to_nat}
use yusui.Exec.{Result, ok, err, Exec, gateway_error}

-- `deadline` is when the timer of the rule goes off.
pub record Entry : Type 0 where
  pub addr : String
  pub allow : List String
  pub dst_ip : String
  pub dst_port : ℕ
  pub deadline : Option ℕ

pub record Forwarder : Type 0 where
  pub rules : List (ℕ × Entry)
  pub listens : ℕ
  pub now : ℕ

unfoldable pub non_empty : List String → List String
non_empty [] = []
non_empty (s ∷ ss) = if str_eq s "" then non_empty ss else s ∷ non_empty ss

abbrev pub has : String → List String → Bool
has s [] = false
has s (x ∷ xs) = str_eq x s || has s xs

-- The test of `serve` on a connection from `host`.
unfoldable pub accepts : Entry → String → Bool
accepts e host = elim e.allow [ [] ↦ true | ◌∷◌ _ _ ↦ has host e.allow ]

unfoldable pub new_entry : ℕ → String → List String → String → ℕ → ℤ → Entry
new_entry now addr srcs ip port ttl = record {
  addr = addr;
  allow = non_empty srcs;
  dst_ip = ip;
  dst_port = port;
  deadline = if gt_const ttl 0 then some (now + to_nat ttl) else none;
}

-- time.Until.
abbrev pub until : ℕ → ℕ → ℤ
until now at = if leb now at then pos (at - now) else negsuc (now - at - 1)

abbrev pub ttl_of : Option ℕ → ℕ → ℤ
ttl_of none now = pos 3_600_000_000_000
ttl_of (some at) now = until now at

module _ (listen : ℕ → Result String) where
  abbrev pub opened : ℕ → List String → String → ℕ → ℤ → Result String → Exec Forwarder String
  opened rule srcs ip port ttl (err x) f = (err gateway_error, f)
  opened rule srcs ip port ttl (ok addr) f =
      (ok addr, record f { rules = put rule (new_entry f.now addr srcs ip port ttl) f.rules })

  abbrev pub known : ℕ → List String → String → ℕ → ℤ → Option Entry → Exec Forwarder String
  known rule srcs ip port ttl (some e) f = (ok e.addr, f)
  known rule srcs ip port ttl none f =
      opened rule srcs ip port ttl (listen f.listens) (record f { listens = f.listens + 1 })

  unfoldable pub apply : ℕ → List String → String → ℕ → ℤ → Exec Forwarder String
  apply rule srcs ip port ttl f =
      if str_eq ip "" || port == 0
      then (err gateway_error, f)
      else known rule srcs ip port ttl (get rule f.rules) f

  unfoldable pub handle_apply : ℕ → List String → String → ℕ → Option ℕ → Exec Forwarder String
  unfolding apply
  handle_apply rule [] ip port at f = (err gateway_error, f)
  handle_apply rule (s ∷ srcs) ip port at f = apply rule (s ∷ srcs) ip port (ttl_of at f.now) f

-- Closing a listener that is open succeeds. A timer that Revoke stops does not go off.
unfoldable pub revoke : ℕ → Exec Forwarder (Unit {0})
revoke rule f = (ok tt, record f { rules = delete rule f.rules })

-- The rule ids of `ActiveRuleIDs`, in no order.
abbrev pub keys : List (ℕ × Entry) → List ℕ
keys rules = map (λ r. r.0) rules

abbrev pub is_over : ℕ → Option ℕ → Bool
is_over now none = false
is_over now (some at) = leb at now

unfoldable pub in_time : ℕ → List (ℕ × Entry) → List (ℕ × Entry)
in_time now [] = []
in_time now ((k, e) ∷ rules) =
    if is_over now e.deadline then in_time now rules else (k, e) ∷ in_time now rules

-- Time goes by, and the timers that are due revoke their rules.
unfoldable pub elapse : ℕ → Forwarder → Forwarder
unfolding in_time
elapse t f = record f { now = f.now + t; rules = in_time (f.now + t) f.rules }
