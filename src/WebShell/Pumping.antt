-- ===== src/WebShell/Pumping.antt =====
-- The recording that pumpStdout of server/internal/webshell/session.go leaves.
use yusui.Prelude.{◌≡◌, ◌≢◌, refl, sym, ap, ◌∙◌, true, false, List, [], ◌∷◌, ◌++◌, All, map}
use mathlib.Core.List.{append_assoc, append-nil}
use yusui.WebShell.Output.{Chunk, Output, Sent, panicked, waiting, ended, done, broadcast}
use yusui.WebShell.Recorder.{
  Line, event, out, record_event, close_recorder, Pump, Read, Pumped, reading, after_broadcast,
  recorded, on_read, go_on, pump_stdout,
}

module _ (coerce : Chunk → Chunk) where
  abbrev pub events : List Read → List Line
  events ds = map (λ d. event d.elapsed out (coerce d.bytes)) ds

  -- Some bytes were read, and the file takes them.
  pub record Good (d : Read) : Type 0 where
    pub filled : d.bytes ≢ []
    pub kept : d.works ≡ true

  went_on :
      (f : Pump → Pumped) (r q : Pump) (s : Sent)
      → go_on coerce f (after_broadcast r s) ≡ reading q
      → (o : Output) × (f (record r { output = o }) ≡ reading q)
  went_on f r q panicked h = cc h
  went_on f r q (waiting o) h = cc h
  went_on f r q (ended o) h = (o, h)
  went_on f r q (done o) h = (o, h)

  on_read-filled :
      (d : Read) (bytes : Chunk) (p : Pump)
      → d.bytes ≡ bytes
      → bytes ≢ []
      → on_read coerce d p
        ≡ after_broadcast (recorded coerce d p) (broadcast d.bytes d.picks p.output)
  unfolding on_read
  on_read-filled d [] p is h = absurd (h refl)
  on_read-filled d (b ∷ bytes) p is h = rw is refl

  recorded-lines :
      (d : Read) (p : Pump)
      → d.works ≡ true
      → p.recorder.is_open ≡ true
      → ((recorded coerce d p).recorder.lines
          ≡ p.recorder.lines ++ event d.elapsed out (coerce d.bytes) ∷ [])
        × ((recorded coerce d p).recorder.is_open ≡ true)
  unfolding record_event
  recorded-lines d p w h = rw (h, w) (refl, refl)

  -- When the pump comes to its end, with all its reads recorded, the session is closed and the file
  -- has an output event for each read, in their order, behind what it had.
  pub pump_stdout-events :
      (ds : List Read) (p q : Pump)
      → All Good ds
      → p.recorder.is_open ≡ true
      → pump_stdout coerce ds p ≡ reading q
      → (q.recorder.lines ≡ p.recorder.lines ++ events ds)
        × (q.recorder.is_open ≡ false)
        × (q.is_over ≡ true)
  unfolding pump_stdout close_recorder
  pump_stdout-events [] p q good h e =
      let same : record p { recorder = record (p.recorder) { is_open = false }; is_over = true }
          ≡ q =
        cc e in
      (
        ap (λ x. x.recorder.lines) (sym same) ∙ sym (append-nil p.recorder.lines),
        ap (λ x. x.recorder.is_open) (sym same),
        ap (λ x. x.is_over) (sym same),
      )
  pump_stdout-events (d ∷ ds) p q good h e =
      let next =
        went_on (pump_stdout coerce ds) (recorded coerce d p) q (broadcast d.bytes d.picks p.output)
          (ap (go_on coerce (pump_stdout coerce ds))
              (sym (on_read-filled d d.bytes p refl good.0.filled))
            ∙ e) in
      let line = recorded-lines d p good.0.kept h in
      let rest =
        pump_stdout-events ds (record (recorded coerce d p) { output = next.0 }) q good.1 line.1
          next.1 in
      (
        rest.0
            ∙ ap (λ l. l ++ events ds) line.0
            ∙ append_assoc p.recorder.lines (event d.elapsed out (coerce d.bytes) ∷ []) (events ds),
        rest.1,
        rest.2,
      )
