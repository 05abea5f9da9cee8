-- ===== src/WebShell/Gate.antt =====
-- The stdin loop of `terminal` in server/internal/httpapi/webshell.go, and `scanRaw` of
-- server/internal/webshell/session.go. A frame, the timer of a confirmation and a chunk of output
-- are the events of the loop; what it writes, sends and records goes on a list, the newest first.
use yusui.Prelude.{
  ℕ, ◌+◌, Bool, true, false, ◌&&◌, ◌||◌, Option, none, some, List, [], ◌∷◌, ◌++◌, if◌then◌else◌,
  leb, ◌==◌,
}
use yusui.Prelude.Int.{ℤ, gt_const}
use yusui.WebShell.Filter.{
  sev_warn, sev_confirm, sev_block, sev_none, Source, Decision, Ruleset, matched,
}

-- The text of `t` in a frame that the server sends.
pub data Notice : Type 0 where
  filter_block filter_warn : Notice
  filter_confirm : (token : ℕ) → Notice

-- `actionTaken` of a filter event.
pub data Taken : Type 0 where
  blocked warned confirm_timeout : Taken

pub data Effect : Type 0 where
  write_stdin : List ℕ → Effect
  send : Notice → Decision → (line : List ℕ) → Effect
  send_pong : Effect
  record_filter_event : Taken → Decision → (line : List ℕ) → Effect
  record_confirmed : Effect
  resize : (cols rows : ℤ) → Effect

-- `pending` is `none` for the empty token. `minted` numbers the tokens.
pub record Gate : Type 0 where
  pub line_buf : List ℕ
  pub pending : Option ℕ
  pub raw : Bool
  pub minted : ℕ
  pub effects : List Effect

abbrev pub emit : Effect → Gate → Gate
emit x g = record g { effects = x ∷ g.effects }

abbrev pub ctrl_c : ℕ
ctrl_c = 3

abbrev pub ctrl_u : ℕ
ctrl_u = 21

abbrev pub backspace : ℕ
backspace = 8

abbrev pub del : ℕ
del = 127

abbrev pub newline : ℕ
newline = 10

abbrev pub enter : ℕ
enter = 13

unfoldable pub drop_last : List ℕ → List ℕ
drop_last [] = []
drop_last (b ∷ []) = []
drop_last (b ∷ c ∷ bs) = b ∷ drop_last (c ∷ bs)

-- The switch on the action.
unfoldable pub take_action : Decision → List ℕ → Gate → Gate
take_action d line g = elim d.severity [
  | sev_block ↦
      emit (record_filter_event blocked d line)
        (emit (send filter_block d line) (emit (write_stdin (ctrl_u ∷ [])) g))
  | sev_confirm ↦
      emit (send (filter_confirm g.minted) d line)
        (record g { pending = some g.minted; minted = g.minted + 1 })
  | sev_warn ↦
      emit (record_filter_event warned d line)
        (emit (send filter_warn d line) (emit (write_stdin (enter ∷ [])) g))
  | sev_none ↦ emit (write_stdin (enter ∷ [])) g
]

-- The function of the ten-second timer.
unfoldable pub expire : ℕ → Decision → List ℕ → Gate → Gate
expire tok d line g = elim g.pending [
  | none ↦ g
  | some p ↦
      if p == tok
      then emit (record_filter_event confirm_timeout d line)
          (emit (write_stdin (ctrl_u ∷ [])) (record g { pending = none }))
      else g
]

unfoldable pub confirm : Option ℕ → Gate → Gate
confirm none g = g
confirm (some tok) g = elim g.pending [
  | none ↦ g
  | some p ↦
      if tok == p
      then emit record_confirmed (emit (write_stdin (enter ∷ [])) (record g { pending = none }))
      else g
]

unfoldable pub starts_with : List ℕ → List ℕ → Bool
starts_with [] bs = true
starts_with (p ∷ ps) [] = false
starts_with (p ∷ ps) (b ∷ bs) = p == b && starts_with ps bs

-- bytes.Contains.
unfoldable pub contains : List ℕ → List ℕ → Bool
unfolding starts_with
contains [] pat = starts_with pat []
contains (b ∷ bs) pat = starts_with pat (b ∷ bs) || contains bs pat

-- ESC [ ? 1 0 4 9 and ESC [ ? 4 7, before the letter.
abbrev alt_1049 : List ℕ
alt_1049 = 27 ∷ 91 ∷ 63 ∷ 49 ∷ 48 ∷ 52 ∷ 57 ∷ []

abbrev alt_47 : List ℕ
alt_47 = 27 ∷ 91 ∷ 63 ∷ 52 ∷ 55 ∷ []

unfoldable pub scan_raw : List ℕ → Bool → Bool
unfolding contains
scan_raw bs raw =
    let on = contains bs (alt_1049 ++ 104 ∷ []) || contains bs (alt_47 ++ 104 ∷ []) in
    let off = contains bs (alt_1049 ++ 108 ∷ []) || contains bs (alt_47 ++ 108 ∷ []) in
    if off then false else if on then true else raw

pub data Frame : Type 0 where
  stdin : (decoded : Option (List ℕ)) → Frame
  resize_to : (cols rows : ℤ) → Frame
  confirm_token : (token : Option ℕ) → Frame
  ping unknown : Frame

pub data Event : Type 0 where
  reads : Frame → Event
  expires : (token : ℕ) → Decision → (line : List ℕ) → Event
  outputs : List ℕ → Event

module _ {Re : Type 0} (match_string : Re → List ℕ → Bool) (rs : Ruleset Re) (source : Source) where
  unfoldable pub on_byte : ℕ → Gate → Gate
  unfolding take_action
  on_byte b g =
      if b == enter || b == newline
      then take_action (matched match_string rs g.line_buf source) g.line_buf
          (record g { line_buf = [] })
      else if b == del || b == backspace
      then emit (write_stdin (b ∷ [])) (record g { line_buf = drop_last g.line_buf })
      else if b == ctrl_c || b == ctrl_u
      then emit (write_stdin (b ∷ [])) (record g { line_buf = [] })
      else if leb 32 b
      then emit (write_stdin (b ∷ [])) (record g { line_buf = g.line_buf ++ b ∷ [] })
      else emit (write_stdin (b ∷ [])) g

  unfoldable pub feed : List ℕ → Gate → Gate
  unfolding on_byte
  feed [] g = g
  feed (b ∷ bs) g = feed bs (on_byte b g)

  unfoldable pub on_frame : Frame → Gate → Gate
  unfolding feed confirm
  on_frame (stdin none) g = g
  on_frame (stdin (some bs)) g = if g.raw then emit (write_stdin bs) g else feed bs g
  on_frame (resize_to cols rows) g =
      if gt_const cols 0 && gt_const rows 0 then emit (resize cols rows) g else g
  on_frame (confirm_token token) g = confirm token g
  on_frame ping g = emit send_pong g
  on_frame unknown g = g

  unfoldable pub on_event : Event → Gate → Gate
  unfolding on_frame expire scan_raw
  on_event (reads frame) g = on_frame frame g
  on_event (expires token d line) g = expire token d line g
  on_event (outputs bs) g = record g { raw = scan_raw bs g.raw }

  unfoldable pub serve_terminal : List Event → Gate → Gate
  unfolding on_event
  serve_terminal [] g = g
  serve_terminal (x ∷ xs) g = serve_terminal xs (on_event x g)
