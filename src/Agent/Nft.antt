-- ===== src/Agent/Nft.antt =====
-- agent/internal/nft/nft.go: the kernel enforcer. A rule id is the number in it, an element key its
-- three parts. `nft` says whether the binary accepts a command after those it was run with before.
pub mod Tracking
pub mod Granting
use yusui.Prelude.{
  ℕ, ◌/◌, Bool, true, false, not, ◌&&◌, ◌||◌, Option, none, some, List, [], ◌∷◌, ◌++◌, String,
  str_eq, if◌then◌else◌, ltb, ◌==◌, get, put, delete, map,
}
use yusui.Prelude.Int.{ℤ, pos, negsuc}
use yusui.Exec.{ok, err, Exec, pure, raise, attempt, gateway_error, ◌>>=◌, ◌>>◌}

pub record Key : Type 0 where
  pub src : String
  pub dst : String
  pub port : ℕ

pub data Table : Type 0 where
  yusui_table yusui_nat : Table

-- The command lines. `load_table` and `load_nat` carry the two rulesets of Setup, an element has its
-- timeout in seconds and the rule of its comment.
pub data Command : Type 0 where
  delete_table : Table → Command
  load_table : Command
  load_nat : String → Command
  add_element : Key → ℕ → ℕ → Command
  delete_element : Key → Command

-- `ran` has the commands so far with their success, the last one first.
pub record Nft : Type 0 where
  pub iface : String
  pub rules : List (ℕ × List Key)
  pub ran : List (Command × Bool)

abbrev pub new : String → Nft
new iface = record { iface = iface; rules = []; ran = [] }

abbrev pub or_empty : Option (List Key) → List Key
or_empty none = []
or_empty (some ks) = ks

abbrev pub keys_of : ℕ → List (ℕ × List Key) → List Key
keys_of rule rules = or_empty (get rule rules)

abbrev pub at_least_one : ℕ → ℕ
at_least_one secs = if ltb secs 1 then 1 else secs

-- Whole seconds of a duration in nanoseconds, and no fewer than one.
unfoldable pub timeout_of : ℤ → ℕ
timeout_of (pos ttl) = at_least_one (ttl / 1_000_000_000)
timeout_of (negsuc ttl) = 1

abbrev pub is_empty : List String → Bool
is_empty [] = true
is_empty (_ ∷ _) = false

unfoldable pub remember : ℕ → Key → Exec Nft (Unit {0})
remember rule key e =
    (ok tt, record e { rules = put rule (keys_of rule e.rules ++ key ∷ []) e.rules })

module _ (nft : List (Command × Bool) → Command → Bool) where
  unfoldable pub run : Command → Exec Nft (Unit {0})
  run c e = (
    if nft e.ran c then ok tt else err gateway_error,
    record e { ran = (c, nft e.ran c) ∷ e.ran },
  )

  abbrev pub masquerade : Exec Nft (Unit {0})
  masquerade e = if str_eq e.iface "" then (ok tt, e) else run (load_nat e.iface) e

  unfoldable pub setup : Exec Nft (Unit {0})
  unfolding run
  setup = do
    _ ← attempt (run (delete_table yusui_table))
    _ ← attempt (run (delete_table yusui_nat))
    run load_table
    masquerade

  -- One source: the element, then the memory of it.
  unfoldable pub add_one : ℕ → ℕ → Key → Exec Nft (Unit {0})
  unfolding run remember
  add_one rule secs key = do run (add_element key secs rule); remember rule key

  unfoldable pub add_all : ℕ → ℕ → String → ℕ → List String → Exec Nft (Unit {0})
  unfolding add_one
  add_all rule secs dst port [] = pure tt
  add_all rule secs dst port (src ∷ srcs) =
      let rest = add_all rule secs dst port srcs in
      if str_eq src ""
      then rest
      else (add_one rule secs (record { src = src; dst = dst; port = port }) >>= λ _. rest)

  unfoldable pub apply : ℕ → List String → String → ℕ → ℤ → Exec Nft String
  unfolding add_all timeout_of
  apply rule srcs dst port ttl =
      if is_empty srcs || str_eq dst "" || port == 0
      then raise gateway_error
      else do add_all rule (timeout_of ttl) dst port srcs; pure ""

  unfoldable pub delete_all : List Key → Exec Nft (Unit {0})
  unfolding run
  delete_all [] = pure tt
  delete_all (key ∷ keys) = do _ ← attempt (run (delete_element key)); delete_all keys

  unfoldable pub revoke : ℕ → Exec Nft (Unit {0})
  unfolding delete_all
  revoke rule e = delete_all (keys_of rule e.rules) (record e { rules = delete rule e.rules })

-- sort.Strings, with `before` the order of the ids' texts.
module _ (before : ℕ → ℕ → Bool) where
  unfoldable pub insert : ℕ → List ℕ → List ℕ
  insert a [] = a ∷ []
  insert a (b ∷ ids) = if before b a then b ∷ insert a ids else a ∷ b ∷ ids

  unfoldable pub sort : List ℕ → List ℕ
  unfolding insert
  sort [] = []
  sort (a ∷ ids) = insert a (sort ids)

  unfoldable pub active_rule_ids : Nft → List ℕ
  unfolding sort
  active_rule_ids e = sort (map (λ r. r.0) e.rules)
