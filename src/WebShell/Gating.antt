-- ===== src/WebShell/Gating.antt =====
-- What the gate of server/internal/httpapi/webshell.go lets a plain terminal run.
use yusui.Prelude.{
  ℕ, ◌≡◌, ◌≢◌, refl, sym, ap, ◌∙◌, Bool, true, false, ◌||◌, List, [], ◌∷◌, All, Bool-cases, inl,
  inr, ◌==◌, arith, subst, none, some, Option-cases,
}
use yusui.WebShell.Filter.{
  Severity, sev_warn, sev_confirm, sev_block, sev_none, Source, Decision, Ruleset, matched,
}
use yusui.WebShell.Gate.{Gate, newline, enter, take_action, on_byte, feed, write_stdin}
use yusui.WebShell.Remote.{Tty, key, keys, terminal_after}

-- The severities that let a line run at once.
abbrev pub runs : Severity → Bool
runs sev_warn = true
runs sev_none = true
runs sev_confirm = false
runs sev_block = false

module _ {Re : Type 0} (match_string : Re → List ℕ → Bool) (rs : Ruleset Re) (source : Source) where
  -- The gate and the terminal agree on the line under edit, and no line has run that the rules stop.
  pub record Safe (g : Gate) : Type 0 where
    pub synced : (terminal_after g.effects).line ≡ g.line_buf
    pub passed :
        All
          (λ line. runs (matched match_string rs line source).severity ≡ true)
          (terminal_after g.effects).executed

  -- What runs is the line that the gate has looked at.
  ran :
      (g : Gate) (d : Decision)
      → Safe g
      → matched match_string rs g.line_buf source ≡ d
      → runs d.severity ≡ true
      → runs (matched match_string rs (terminal_after g.effects).line source).severity ≡ true
  ran g d h same fine = rw (h.synced, same) fine

  -- Enter, on a line that the rules do not hold back for confirmation.
  take_action-Safe :
      (s : Severity) (d : Decision) (g : Gate)
      → d.severity ≡ s
      → Safe g
      → matched match_string rs g.line_buf source ≡ d
      → s ≢ sev_confirm
      → Safe (take_action d g.line_buf (record g { line_buf = [] }))
  unfolding take_action terminal_after keys key
  take_action-Safe sev_block d g is h same calm =
      rw (is, take_action) (record { synced = refl; passed = h.passed })
  take_action-Safe sev_confirm d g is h same calm = absurd (calm refl)
  take_action-Safe sev_warn d g is h same calm =
      rw (is, take_action)
        (record { synced = refl; passed = (ran g d h same (rw is refl), h.passed) })
  take_action-Safe sev_none d g is h same calm =
      rw (is, take_action)
        (record { synced = refl; passed = (ran g d h same (rw is refl), h.passed) })

  -- Where no confirmation is asked for, the line was none to confirm.
  calm_if :
      (s : Severity) (d : Decision) (g : Gate)
      → d.severity ≡ s
      → (take_action d g.line_buf (record g { line_buf = [] })).pending ≡ none
      → s ≢ sev_confirm
  unfolding take_action
  calm_if s d g is idle asks = cc (rw (is, asks, take_action) at idle)

  -- A byte other than Enter runs nothing, and edits the line here as it does there.
  other_byte :
      (b : ℕ) (g : Gate) (t : Tty)
      → (b == enter || b == newline) ≡ false
      → t.line ≡ g.line_buf
      → ((on_byte match_string rs source b g).effects ≡ write_stdin (b ∷ []) ∷ g.effects)
        × ((key b t).executed ≡ t.executed)
        × ((key b t).line ≡ (on_byte match_string rs source b g).line_buf)
  unfolding on_byte key
  other_byte b g t n same = ground (arith, n, same)

  on_byte-Safe :
      (b : ℕ) (g : Gate)
      → (on_byte match_string rs source b g).pending ≡ none
      → Safe g
      → Safe (on_byte match_string rs source b g)
  unfolding on_byte terminal_after keys
  on_byte-Safe b g = elim (Bool-cases (b == enter || b == newline)) [
    | inl e ↦
        rw (e, on_byte) (λ idle h. take_action-Safe _ _ g refl h refl (calm_if _ _ g refl idle))
    | inr n ↦ λ idle h.
        let (wrote, ran, line) = other_byte b g (terminal_after g.effects) n h.synced in
        record {
          synced = ap (λ l. (terminal_after l).line) wrote ∙ line;
          passed = subst (All _) (sym (ap (λ l. (terminal_after l).executed) wrote ∙ ran)) h.passed;
        }
  ]

  -- A confirmation that is pending stays so under typing, so that none is pending before.
  still_pending :
      (d : Decision) (line : List ℕ) (g : Gate) (tok : ℕ)
      → g.pending ≡ some tok
      → (take_action d line g).pending ≢ none
  unfolding take_action
  still_pending d line g tok h e = by_severity d.severity refl
    where
      by_severity : (s : Severity) → d.severity ≡ s → ⊥
      by_severity sev_block is = ground (arith)
      by_severity sev_confirm is = ground (arith)
      by_severity sev_warn is = ground (arith)
      by_severity sev_none is = ground (arith)

  on_byte-idle :
      (b : ℕ) (g : Gate) → (on_byte match_string rs source b g).pending ≡ none → g.pending ≡ none
  unfolding on_byte
  on_byte-idle b g = elim (Option-cases g.pending) [
    | inl idle ↦ λ _. idle
    | inr (tok, there) ↦ elim (Bool-cases (b == enter || b == newline)) [
      | inl e ↦
          rw e (λ h. absurd (still_pending _ g.line_buf (record g { line_buf = [] }) tok there h))
      | inr n ↦ λ h. ground (arith, n, there, h)
    ]
  ]

  feed-idle :
      (bs : List ℕ) (g : Gate)
      → (feed match_string rs source bs g).pending ≡ none
      → g.pending ≡ none
  unfolding feed
  feed-idle [] g h = h
  feed-idle (b ∷ bs) g h = on_byte-idle b g (feed-idle bs (on_byte match_string rs source b g) h)

  -- Say the terminal holds the line that the gate has buffered, and every line that it has run is one
  -- that the rules let pass or only warn of. Then so it is after any typed bytes that leave no
  -- confirmation pending.
  pub feed-Safe :
      (bs : List ℕ) (g : Gate)
      → (feed match_string rs source bs g).pending ≡ none
      → Safe g
      → Safe (feed match_string rs source bs g)
  unfolding feed
  feed-Safe [] g idle h = h
  feed-Safe (b ∷ bs) g idle h =
      feed-Safe bs (on_byte match_string rs source b g) idle
        (on_byte-Safe b g (feed-idle bs (on_byte match_string rs source b g) idle) h)
