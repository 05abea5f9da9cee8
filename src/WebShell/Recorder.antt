-- ===== src/WebShell/Recorder.antt =====
-- server/internal/webshell/recorder.go, and pumpStdout of server/internal/webshell/session.go. A file
-- is the lines that its writes have left; `coerce` is what json.Marshal makes of the bytes of a text.
use yusui.Prelude.{ℕ, Bool, true, false, List, [], ◌∷◌, ◌++◌, if◌then◌else◌}
use yusui.Exec.{Result, ok, err, unavailable}
use yusui.WebShell.Gate.{scan_raw}
use yusui.WebShell.Output.{Chunk, Output, Sent, panicked, waiting, ended, done, broadcast}

-- The two streams of an event, output and input.
pub data Stream : Type 0 where
  out inp : Stream

-- The header with its size and start, or an event with the time since the start.
pub data Line : Type 0 where
  header : ℕ → ℕ → ℕ → Line
  event : ℕ → Stream → Chunk → Line

pub record Recorder : Type 0 where
  pub lines : List Line
  pub start : ℕ
  pub is_open : Bool

module _ (coerce : Chunk → Chunk) where
  -- NewRecorder, with the outcomes of making the directory, of creating the file and of the first
  -- write.
  unfoldable pub new_recorder : Bool → Bool → Bool → ℕ → ℕ → ℕ → Result Recorder
  new_recorder made created wrote cols rows start =
      if made
      then (if created
          then (if wrote
              then ok
                  (record { lines = header cols rows start ∷ []; start = start; is_open = true })
              else err unavailable)
          else err unavailable)
      else err unavailable

  -- A write that fails is passed over, as one to a closed file does. `now` is not before the start.
  unfoldable pub record_event : ℕ → Bool → Stream → Chunk → Recorder → Recorder
  record_event elapsed works stream chunk r =
      if r.is_open
      then (if works
          then record r { lines = r.lines ++ event elapsed stream (coerce chunk) ∷ [] }
          else r)
      else r

  unfoldable pub close_recorder : Recorder → Recorder
  close_recorder r = record r { is_open = false }

-- What pumpStdout works on; `is_over` is whether the session has been closed.
pub record Pump : Type 0 where
  pub recorder : Recorder
  pub raw : Bool
  pub output : Output
  pub is_over : Bool

-- One read: the bytes, the time since the start, whether the write to the file works, and what the
-- broadcast picks.
pub record Read : Type 0 where
  pub bytes : Chunk
  pub elapsed : ℕ
  pub works : Bool
  pub picks : ℕ → Bool

-- How the pump goes on: it is at the next read, it stands still in a broadcast, or it has panicked.
pub data Pumped : Type 0 where
  reading standing : Pump → Pumped
  crashed : Pumped

-- A broadcast that ends with the session is done too.
abbrev pub after_broadcast : Pump → Sent → Pumped
after_broadcast p panicked = crashed
after_broadcast p (waiting o) = standing (record p { output = o })
after_broadcast p (ended o) = reading (record p { output = o })
after_broadcast p (done o) = reading (record p { output = o })

module _ (coerce : Chunk → Chunk) where
  abbrev pub recorded : Read → Pump → Pump
  recorded d p = record p {
    recorder = record_event coerce d.elapsed d.works out d.bytes p.recorder;
    raw = scan_raw d.bytes p.raw;
  }

  -- A read of no bytes does nothing.
  unfoldable pub on_read : Read → Pump → Pumped
  unfolding record_event broadcast scan_raw
  on_read d p = elim d.bytes [
    | [] ↦ reading p
    | ◌∷◌ _ _ ↦ after_broadcast (recorded d p) (broadcast d.bytes d.picks p.output)
  ]

  abbrev pub go_on : (Pump → Pumped) → Pumped → Pumped
  go_on f (reading p) = f p
  go_on f (standing p) = standing p
  go_on f crashed = crashed

  -- The reads until one fails, which closes the session.
  unfoldable pub pump_stdout : List Read → Pump → Pumped
  unfolding on_read
  pump_stdout [] p =
      reading (record p { recorder = close_recorder coerce p.recorder; is_over = true })
  pump_stdout (d ∷ ds) p = go_on (pump_stdout ds) (on_read d p)
