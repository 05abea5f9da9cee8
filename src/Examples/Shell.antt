-- ===== src/Examples/Shell.antt =====
-- The theorems on the Web Shell of server/internal/webshell and server/internal/httpapi/webshell.go,
-- at concrete inputs. A pattern is a prefix here.
use yusui.Prelude.{ℕ, ◌≡◌, refl, none, some, false, Bool, ◌&&◌, ◌||◌, List, [], ◌∷◌, String, str_eq}
use yusui.WebShell.Filter.{
  Severity, sev_block, sev_confirm, sev_none, Rule, Ruleset, web, api, matched, eval, sev_rank,
  default_ruleset,
}
use yusui.WebShell.Strictest.{Strictest, matched-Strictest, in_force}
use yusui.WebShell.Gate.{
  Gate, write_stdin, starts_with, contains, take_action, feed, on_byte, enter,
}
use yusui.WebShell.Remote.{terminal_after, keys, key}
use yusui.WebShell.Gating.{Safe, feed-Safe}
use yusui.WebShell.Confirming.{tty, enter_twice-runs}

-- "rm", and a rule on it.
abbrev rm : List ℕ
rm = 114 ∷ 109 ∷ []

abbrev rm_rule : Severity → Rule (List ℕ)
rm_rule s = record { id = "rm"; re = rm; severity = s; message = "rm" }

abbrev asking : Ruleset (List ℕ)
asking = record { base = rm_rule sev_confirm ∷ []; ai = rm_rule sev_block ∷ [] }

abbrev at_prompt : List ℕ → Gate
at_prompt line = record {
  line_buf = line;
  pending = none;
  raw = false;
  minted = 0;
  effects = write_stdin line ∷ [];
}

matched-Strictest_example :
    Strictest starts_with rm (in_force asking api) (matched starts_with asking rm api)
matched-Strictest_example = matched-Strictest starts_with asking rm api

-- The rules of the program. Two of the patterns are told by their text here: the one that blocks mkfs,
-- and the one that asks about an rm of the AI.
abbrev finds : String → List ℕ → Bool
finds re line =
    str_eq re "\\bmkfs(\\.[a-z0-9]+)?\\b" && contains line (109 ∷ 107 ∷ 102 ∷ 115 ∷ [])
    || str_eq re "\\brm\\b" && contains line rm

abbrev built_in : Ruleset String
built_in = default_ruleset (λ pattern. pattern)

empty-Safe : Safe finds built_in api (at_prompt [])
unfolding terminal_after keys
empty-Safe = record { synced = refl; passed = tt }

-- "ls", Enter, "mkfs", Enter: the second line is blocked.
abbrev typed : List ℕ
typed = 108 ∷ 115 ∷ enter ∷ 109 ∷ 107 ∷ 102 ∷ 115 ∷ enter ∷ []

nothing_asked : (feed finds built_in api typed (at_prompt [])).pending ≡ none
unfolding feed on_byte matched eval sev_rank default_ruleset contains starts_with take_action
nothing_asked = refl

-- "rm", Enter, asks.
rm_asked : (feed finds built_in api (114 ∷ 109 ∷ enter ∷ []) (at_prompt [])).pending ≡ some 0
unfolding feed on_byte matched eval sev_rank default_ruleset contains starts_with take_action
rm_asked = refl

feed-Safe_example : Safe finds built_in api (feed finds built_in api typed (at_prompt []))
feed-Safe_example = feed-Safe finds built_in api typed (at_prompt []) nothing_asked empty-Safe

rm-Safe : Safe starts_with asking web (at_prompt rm)
unfolding terminal_after keys key
rm-Safe = record { synced = refl; passed = tt }

rm_asks : (matched starts_with asking rm web).severity ≡ sev_confirm
unfolding matched eval sev_rank starts_with
rm_asks = refl

nothing_passes : (matched starts_with asking [] web).severity ≡ sev_none
unfolding matched eval sev_rank starts_with
nothing_passes = refl

enter_twice-runs_example :
    (tty (feed starts_with asking web (enter ∷ enter ∷ []) (at_prompt rm))).executed
    ≡ rm ∷ (tty (at_prompt rm)).executed
enter_twice-runs_example =
    enter_twice-runs starts_with asking web (at_prompt rm) rm-Safe rm_asks nothing_passes
