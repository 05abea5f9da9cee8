-- ===== src/Agent/Main.antt =====
-- agent/cmd/yusui-agent/main.go: how the agent comes up. `overlay_up` is how EnsureUp ends, if it
-- does, and `host` what ListenHost then answers.
use yusui.Prelude.{
  false, ◌≡◌, refl, sym, ap, ◌∙◌, String, str_eq, if◌then◌else◌, Bool-cases, inl, inr,
}
use yusui.Exec.{Result, ok, err}
use yusui.Agent.Overlay.{Config, Overlay, Wait, waiting, returned, new}

pub record Settings : Type 0 where
  pub server_grpc : String
  pub project : String
  pub token : String
  pub host : String
  pub iface : String
  pub enforcer_kind : String
  pub listen_host : String
  pub overlay_kind : String
  pub nb_iface : String
  pub nb_setup_key : String
  pub nb_mgmt_url : String

unfoldable pub settings : (String → String) → String → Settings
settings env hostname = record {
  server_grpc = or_default "YUSUI_SERVER_GRPC" "localhost:9090";
  project = env "YUSUI_PROJECT";
  token = env "YUSUI_REGISTER_TOKEN";
  host = or_default "YUSUI_HOSTNAME" hostname;
  iface = env "YUSUI_EGRESS_IFACE";
  enforcer_kind = or_default "YUSUI_ENFORCER" "forward";
  listen_host = env "YUSUI_LISTEN_HOST";
  overlay_kind = or_default "YUSUI_OVERLAY" "static";
  nb_iface = env "YUSUI_NB_IFACE";
  nb_setup_key = env "YUSUI_NB_SETUP_KEY";
  nb_mgmt_url = env "YUSUI_NB_MGMT_URL";
}
  where
    or_default : String → String → String
    or_default key default = if str_eq (env key) "" then default else env key

unfoldable pub overlay_config : Settings → Config
overlay_config s = record {
  kind = s.overlay_kind;
  listen_host = s.listen_host;
  iface = s.nb_iface;
  setup_key = s.nb_setup_key;
  mgmt_url = s.nb_mgmt_url;
}

-- The enforcer that is made: the kernel's with its egress interface, or the forwarder with the address
-- that it binds.
pub data Chosen : Type 0 where
  kernel forwarder : String → Chosen

unfoldable pub choose : Settings → String → Chosen
choose s host = if str_eq s.enforcer_kind "nft" then kernel s.iface else forwarder host

-- How far the start comes: the exits with status 1, a wait for the overlay, or serving.
pub data Start : Type 0 where
  no_project bad_overlay overlay_failed setup_failed overlay_waiting : Start
  serving : Chosen → Start

module _ (overlay_up : Overlay → Wait) (host : Overlay → String)
    (setup : Chosen → Result (Unit {0})) where
  abbrev pub set_up : Chosen → Result (Unit {0}) → Start
  set_up c (ok _) = serving c
  set_up c (err _) = setup_failed

  abbrev pub brought_up : Settings → Overlay → Wait → Start
  brought_up s ov waiting = overlay_waiting
  brought_up s ov (returned (err _)) = overlay_failed
  brought_up s ov (returned (ok _)) = let c = choose s (host ov) in set_up c (setup c)

  abbrev pub with_overlay : Settings → Result Overlay → Start
  with_overlay s (err _) = bad_overlay
  with_overlay s (ok ov) = brought_up s ov (overlay_up ov)

  unfoldable pub start : Settings → Start
  unfolding overlay_config new choose
  start s = if str_eq s.project "" then no_project else with_overlay s (new (overlay_config s))

  -- An agent that serves has a project, its overlay is up, and its enforcer, which stands on the
  -- address of that overlay or on the kernel, is set up.
  pub record Ready (s : Settings) (c : Chosen) : Type 0 where
    pub project : str_eq s.project "" ≡ false
    pub overlay : Overlay
    pub made : new (overlay_config s) ≡ ok overlay
    pub up : overlay_up overlay ≡ returned (ok tt)
    pub chosen : choose s (host overlay) ≡ c
    pub ready : setup c ≡ ok tt

  set_up-serving :
      (d c : Chosen) (r : Result (Unit {0})) → set_up d r ≡ serving c → (d ≡ c) × (r ≡ ok tt)
  set_up-serving d c (ok tt) h = (cc h, refl)
  set_up-serving d c (err x) h = cc h

  brought_up-Ready :
      (s : Settings) (ov : Overlay) (w : Wait) (c : Chosen)
      → str_eq s.project "" ≡ false
      → new (overlay_config s) ≡ ok ov
      → overlay_up ov ≡ w
      → brought_up s ov w ≡ serving c
      → Ready s c
  brought_up-Ready s ov waiting c p m u h = cc h
  brought_up-Ready s ov (returned (err x)) c p m u h = cc h
  brought_up-Ready s ov (returned (ok tt)) c p m u h =
      let k = set_up-serving (choose s (host ov)) c (setup (choose s (host ov))) h in
      record {
        project = p;
        overlay = ov;
        made = m;
        up = u;
        chosen = k.0;
        ready = ap setup (sym k.0) ∙ k.1;
      }

  with_overlay-Ready :
      (s : Settings) (r : Result Overlay) (c : Chosen)
      → str_eq s.project "" ≡ false
      → new (overlay_config s) ≡ r
      → with_overlay s r ≡ serving c
      → Ready s c
  with_overlay-Ready s (err x) c p m h = cc h
  with_overlay-Ready s (ok ov) c p m h = brought_up-Ready s ov (overlay_up ov) c p m refl h

  pub start-Ready : (s : Settings) (c : Chosen) → start s ≡ serving c → Ready s c
  unfolding start
  start-Ready s c = elim (Bool-cases (str_eq s.project "")) [
    | inl unset ↦ rw unset (λ h. cc h)
    | inr set ↦ rw set (with_overlay-Ready s (new (overlay_config s)) c set refl)
  ]
