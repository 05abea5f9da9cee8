-- ===== src/Examples/Network.antt =====
-- The theorems on the kernel enforcer, on the overlay and on NetBird, at concrete inputs.
use yusui.Prelude.{
  ℕ, ◌≡◌, ◌⊎◌, inl, refl, true, false, some, Bool, List, [], ◌∷◌, String, str_eq, get, put, delete,
  ltb, if◌then◌else◌, arith,
}
use yusui.Prelude.Int.{pos}
use yusui.Exec.{Error, Result, ok, err, gateway_error, ◌>>=◌}
use yusui.Agent.Nft.{
  Key, Command, Nft, new, run, remember, add_one, add_all, apply, delete_all, revoke,
}
use yusui.Agent.Nft.Tracking.{
  in_set, Remembered, Op, apply_op, revoke_op, serve, serve-Tracked, Dropped, revoke-Dropped,
}
use yusui.Agent.Overlay.{Addr, Netbird, netbird, returned, iface_ipv4, first_v4, ensure_up, up_args}
use yusui.Agent.Overlay.Waiting.{Ends, ensure_up-Ends}

-- nft takes every command.
abbrev willing : List (Command × Bool) → Command → Bool
willing ran c = true

abbrev way : Key
way = record { src = "100.64.0.1"; dst = "10.0.0.3"; port = 22 }

-- Two tickets for one asset.
abbrev opening : ℕ → Op
opening rule = apply_op rule ("100.64.0.1" ∷ []) "10.0.0.3" 22 (pos 60_000_000_000)

opened : in_set way (serve willing (opening 5 ∷ opening 6 ∷ []) (new "")).ran ≡ true
unfolding serve apply add_all add_one run remember ◌>>=◌ in_set
opened = refl

serve-Tracked_example : Remembered way (serve willing (opening 5 ∷ opening 6 ∷ []) (new ""))
serve-Tracked_example = serve-Tracked willing (opening 5 ∷ opening 6 ∷ []) "" way opened

abbrev both : Nft
both = record { iface = ""; rules = (6, way ∷ []) ∷ (5, way ∷ []) ∷ []; ran = [] }

-- The second ticket is active without its element.
shut : in_set way (serve willing (opening 5 ∷ opening 6 ∷ revoke_op 5 ∷ []) (new "")).ran ≡ false
unfolding serve apply add_all add_one run remember revoke delete_all ◌>>=◌ in_set get put delete
shut = refl

revoke-Dropped_example :
    ((revoke willing 5 both).0 ≡ ok tt) × Dropped 5 both (revoke willing 5 both).1
revoke-Dropped_example = revoke-Dropped willing 5 both

-- The interface gets its address at the third look.
abbrev look : ℕ → String → Result (List Addr)
look n iface =
    if ltb n 2
    then err gateway_error
    else ok (record { to4 = some "100.64.0.7"; is_loopback = false } ∷ [])

abbrev joined : Netbird
joined = record { iface = "wt0"; setup_key = ""; mgmt_url = "" }

abbrev started : List String → Result (Unit {0})
started args = ok tt

third : str_eq (iface_ipv4 look 2 "wt0") "" ≡ false
unfolding iface_ipv4 first_v4
third = refl

ensure_up-Ends_example :
    ((str_eq joined.setup_key "" ≡ false)
      × ((x : Error) × (started (up_args joined) ≡ err x)
          × (ensure_up look started (λ _. false) gateway_error 3 (netbird joined)
              ≡ returned (err x))))
    ⊎ Ends look started
        (λ _. false)
        gateway_error
        0
        2
        "wt0"
        (ensure_up look started (λ _. false) gateway_error 3 (netbird joined))
ensure_up-Ends_example =
    ensure_up-Ends look started (λ _. false) gateway_error 2 3 joined (omega arith) (inl third)
