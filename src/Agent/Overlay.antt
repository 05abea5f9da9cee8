-- ===== src/Agent/Overlay.antt =====
-- agent/internal/overlay/overlay.go: where the agent's forwarders listen. The network is a parameter:
-- `look n name` is what the n-th look at the interface `name` finds, `netbird_up` the run of the
-- netbird command, `canceled n` says whether the n-th wait ends with the context.
pub mod Waiting
use yusui.Prelude.{
  ℕ, zero, suc, ◌+◌, Bool, true, false, not, ◌&&◌, Option, none, some, List, [], ◌∷◌, ◌++◌, String,
  str_eq, if◌then◌else◌,
}
use yusui.Exec.{Error, Result, ok, err, invalid}

-- One address of an interface: its IPv4 form in text if it is an IP network with one, and whether
-- that is a loopback address.
pub record Addr : Type 0 where
  pub to4 : Option String
  pub is_loopback : Bool

pub data Kind : Type 0 where
  static_kind netbird_kind : Kind
  other_kind : String → Kind

abbrev pub kind_of : String → Kind
kind_of k =
    if str_eq k ""
    then static_kind
    else if str_eq k "static"
    then static_kind
    else if str_eq k "netbird"
    then netbird_kind
    else other_kind k

pub record Config : Type 0 where
  pub kind : String
  pub listen_host : String
  pub iface : String
  pub setup_key : String
  pub mgmt_url : String

pub record Netbird : Type 0 where
  pub iface : String
  pub setup_key : String
  pub mgmt_url : String

pub data Overlay : Type 0 where
  static : String → Overlay
  netbird : Netbird → Overlay

abbrev pub iface_or_default : String → String
iface_or_default iface = if str_eq iface "" then "wt0" else iface

abbrev pub new_of : Config → Kind → Result Overlay
new_of c static_kind = ok (static c.listen_host)
new_of c netbird_kind = ok (
    netbird
      (record { iface = iface_or_default c.iface; setup_key = c.setup_key; mgmt_url = c.mgmt_url }))
new_of c (other_kind _) = err invalid

unfoldable pub new : Config → Result Overlay
new c = new_of c (kind_of c.kind)

-- The loop of ifaceIPv4 over the addresses.
unfoldable pub first_v4 : List Addr → String
first_v4 [] = ""
first_v4 (a ∷ addrs) =
    let rest = first_v4 addrs in
    elim a.to4 [ none ↦ rest | some ip ↦ if a.is_loopback then rest else ip ]

abbrev pub or_nothing : Result (List Addr) → String
or_nothing (ok addrs) = first_v4 addrs
or_nothing (err _) = ""

abbrev pub up_args : Netbird → List String
up_args n =
    "up"
    ∷ "--setup-key"
    ∷ n.setup_key
    ∷ (if str_eq n.mgmt_url "" then [] else "--management-url" ∷ n.mgmt_url ∷ [])

-- How a wait ends: the loop is still running, or it has returned.
pub data Wait : Type 0 where
  waiting : Wait
  returned : Result (Unit {0}) → Wait

module _ (look : ℕ → String → Result (List Addr)) where
  unfoldable pub iface_ipv4 : ℕ → String → String
  unfolding first_v4
  iface_ipv4 n name = or_nothing (look n name)

  unfoldable pub listen_host : ℕ → Overlay → String
  unfolding iface_ipv4
  listen_host n (static host) = host
  listen_host n (netbird b) = iface_ipv4 n b.iface

  unfoldable pub status : ℕ → Overlay → String
  unfolding iface_ipv4
  status n (static host) = "unmanaged"
  status n (netbird b) = if str_eq (iface_ipv4 n b.iface) "" then "down" else "connected"

  module _ (netbird_up : List String → Result (Unit {0})) (canceled : ℕ → Bool)
      (ctx_err : Error) where
    -- The loop from its n-th look on, for as many rounds as there is fuel.
    unfoldable pub wait_up : ℕ → ℕ → String → Wait
    unfolding iface_ipv4
    wait_up zero n iface = waiting
    wait_up (suc fuel) n iface =
        let rest = wait_up fuel (n + 1) iface in
        if not (str_eq (iface_ipv4 n iface) "")
        then returned (ok tt)
        else if canceled n
        then returned (err ctx_err)
        else rest

    abbrev pub wait_after : ℕ → String → Result (Unit {0}) → Wait
    wait_after fuel iface (ok u) = wait_up fuel 0 iface
    wait_after fuel iface (err x) = returned (err x)

    unfoldable pub ensure_up : ℕ → Overlay → Wait
    unfolding wait_up
    ensure_up fuel (static host) = returned (ok tt)
    ensure_up fuel (netbird b) =
        if str_eq b.setup_key ""
        then wait_up fuel 0 b.iface
        else wait_after fuel b.iface (netbird_up (up_args b))
