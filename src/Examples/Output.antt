-- ===== src/Examples/Output.antt =====
-- The theorem on the output of a session, at a concrete input: two terminals look on, and the second
-- one leaves in the middle of a broadcast.
use yusui.Prelude.{◌≡◌, refl, true, false, [], ◌∷◌, get}
use yusui.WebShell.Output.{Output, unsubscribe, send_all, panicked}
use yusui.WebShell.Broadcasting.{Roomy, unsubscribe-panics}

abbrev watched : Output
watched = record {
  chans =
      (1, record { held = []; is_closed = false })
      ∷ (0, record { held = []; is_closed = false })
      ∷ [];
  subs = 1 ∷ 0 ∷ [];
  opened = 2;
  shut = false;
}

one-Roomy : Roomy watched 1
unfolding get
one-Roomy = record { held = []; here = refl; room = refl }

unsubscribe-panics_example :
    send_all (65 ∷ []) (λ _. true) (1 ∷ 0 ∷ []) (unsubscribe 0 watched) ≡ panicked
unsubscribe-panics_example =
    unsubscribe-panics (65 ∷ []) (λ _. true) 0 (1 ∷ []) [] watched refl refl (tt, tt) (refl, tt)
      (one-Roomy, tt)
