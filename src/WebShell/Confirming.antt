-- ===== src/WebShell/Confirming.antt =====
-- The confirmation of server/internal/httpapi/webshell.go: what holds a line back, what lets it run,
-- and what should not let it run but does.
use yusui.Prelude.{ℕ, ◌+◌, ◌≡◌, Bool, refl, ap, ◌∙◌, some, List, [], ◌∷◌, ◌==◌, if◌then◌else◌}
use yusui.WebShell.Filter.{sev_confirm, sev_none, Source, Decision, Ruleset, matched}
use yusui.WebShell.Gate.{Gate, enter, take_action, on_byte, feed, expire, confirm}
use yusui.WebShell.Remote.{Tty, key, keys, terminal_after}
use yusui.WebShell.Gating.{Safe}

abbrev pub tty : Gate → Tty
tty g = terminal_after g.effects

-- What becomes of a line held back under a token, from the gate and the lines run before it.
pub record Held (line : List ℕ) (token : ℕ) (before : List (List ℕ)) (g : Gate) : Type 0 where
  pub pending : g.pending ≡ some token
  pub fresh : g.minted ≡ token + 1
  pub waits : (tty g).executed ≡ before
  pub confirmed : (tty (confirm (some token) g)).executed ≡ line ∷ before
  pub once : confirm (some token) (confirm (some token) g) ≡ confirm (some token) g
  pub other :
      (tok : ℕ) → confirm (some tok) g ≡ (if tok == token then confirm (some token) g else g)
  pub in_time :
      (d : Decision) → expire token d line (confirm (some token) g) ≡ confirm (some token) g
  pub dropped :
      (d : Decision)
      → ((tty (expire token d line g)).executed ≡ before)
        × ((tty (expire token d line g)).line ≡ [])
        × (confirm (some token) (expire token d line g) ≡ expire token d line g)

module _ {Re : Type 0} (match_string : Re → List ℕ → Bool) (rs : Ruleset Re) (source : Source) where
  -- Holding a line back empties the buffer and leaves the terminal as it is.
  hold_leaves :
      (d : Decision) (g : Gate)
      → d.severity ≡ sev_confirm
      → ((take_action d g.line_buf (record g { line_buf = [] })).line_buf ≡ [])
        × (tty (take_action d g.line_buf (record g { line_buf = [] })) ≡ tty g)
  unfolding take_action terminal_after
  hold_leaves d g is = rw (is, take_action) (refl, refl)

  pass_runs :
      (d : Decision) (g : Gate)
      → d.severity ≡ sev_none
      → (tty (take_action d g.line_buf (record g { line_buf = [] }))).executed
        ≡ (tty g).line ∷ (tty g).executed
  unfolding take_action terminal_after keys key
  pass_runs d g is = rw (is, take_action) refl

  -- When Enter ends a line that asks for confirmation, a second Enter runs the line although no
  -- token was given, if the rules let an empty line pass: the gate has emptied its buffer and the
  -- terminal has not.
  pub enter_twice-runs :
      (g : Gate)
      → Safe match_string rs source g
      → (matched match_string rs g.line_buf source).severity ≡ sev_confirm
      → (matched match_string rs [] source).severity ≡ sev_none
      → (tty (feed match_string rs source (enter ∷ enter ∷ []) g)).executed
        ≡ g.line_buf ∷ (tty g).executed
  unfolding feed on_byte
  enter_twice-runs g h is empty =
      let g1 = on_byte match_string rs source enter g in
      let (emptied, unmoved) = hold_leaves (matched match_string rs g.line_buf source) g is in
      let passes : (matched match_string rs g1.line_buf source).severity ≡ sev_none =
        ap (λ l. (matched match_string rs l source).severity) emptied ∙ empty in
      pass_runs (matched match_string rs g1.line_buf source) g1 passes
      ∙ ap (λ t. t.line ∷ t.executed) unmoved
      ∙ ap (λ l. l ∷ (tty g).executed) h.synced
