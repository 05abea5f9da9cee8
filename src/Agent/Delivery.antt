-- ===== src/Agent/Delivery.antt =====
-- What a command of server/internal/agentctl/controller.go that is acknowledged has done on the agent.
use yusui.Prelude.{
  ℕ, ◌+◌, ◌≡◌, refl, sym, ap, subst, ◌∙◌, Option, none, some, List, [], ◌∷◌, String, if◌then◌else◌,
  ◌==◌, get, put, get-put, ==_refl, Bool-cases, inl, inr,
}
use yusui.Prelude.Int.{to_uint32}
use yusui.Exec.{Result, ok, err, Exec}
use yusui.Exec.After.{Holds, After, After-imp, After-bind, After-pure, After-ok}
use yusui.Store.Rows.{RuleId}
use yusui.Gateway.{ApplyInput, Target}
use yusui.Agent.Forward.{Entry, Forwarder, handle_apply, ttl_of, revoke}
use yusui.Agent.Control.{
  Control, on_stream, roundtrip, sources, deadline_of, number, found, connected, apply_target,
  apply_targets, apply_rule, revoke_rule, first_addr,
}
use yusui.Agent.Rules.{Opened, apply-After, get-revoke}

-- The agent's forwarder is up in a state in which `P` holds.
pub record Up (agent : ℕ) (P : Forwarder → Type 0) (c : Control) : Type 0 where
  pub forwarder : Forwarder
  pub up : get agent c.agents ≡ some forwarder
  pub has : P forwarder

module _ {A : Type 0} (agent : ℕ) (command : Exec Forwarder A) (Q : A → Forwarder → Type 0) where
  acked :
      (f : Forwarder) (r : Result A) (g : Forwarder) (c : Control)
      → Holds Q r g
      → Holds
          (λ a c'. Up agent (Q a) c')
          r
          (record c { sent = c.sent + 1; agents = put agent g c.agents })
  acked f (err x) g c h = tt
  acked f (ok a) g c h = record {
    forwarder = g;
    up = rw (get-put agent agent g c.agents, ==_refl agent) refl;
    has = h;
  }

  on_stream-After :
      (f : Forwarder) (c : Control)
      → After Q command f
      → After (λ a c'. Up agent (Q a) c') (on_stream agent command (some f)) c
  on_stream-After f c h = elim (Bool-cases (c.undelivered c.sent)) [
    | inl lost ↦ record { holds = rw lost tt }
    | inr sent ↦ elim (Bool-cases (c.unacked c.sent)) [
      | inl lost ↦ record { holds = rw (sent, lost) tt }
      | inr back ↦ record {
        holds = rw (sent, back) (acked f (command f).0 (command f).1 c h.holds);
      }
    ]
  ]

  -- An acknowledged command has run on the agent that was up.
  pub roundtrip-After :
      (f : Forwarder) (c : Control)
      → get agent c.agents ≡ some f
      → After Q command f
      → After (λ a c'. Up agent (Q a) c') (roundtrip agent command) c
  unfolding roundtrip
  roundtrip-After f c is h = record { holds = rw is ((on_stream-After f c h).holds) }

module _ (listen : ℕ → Result String) (i : ApplyInput) where
  handle_apply-After :
      (srcs : List String) (t : Target) (at : Option ℕ) (f : Forwarder)
      → After
          (Opened (number i.rule_id) t.dst_ip (to_uint32 t.dst_port) f)
          (handle_apply listen (number i.rule_id) (sources srcs) t.dst_ip (to_uint32 t.dst_port) at)
          f
  unfolding handle_apply
  handle_apply-After [] t at f = record {
    holds =
        (apply-After listen (number i.rule_id) ("" ∷ []) t.dst_ip (to_uint32 t.dst_port)
          (ttl_of at f.now) f).holds;
  }
  handle_apply-After (s ∷ srcs) t at f = record {
    holds =
        (apply-After listen (number i.rule_id) (s ∷ srcs) t.dst_ip (to_uint32 t.dst_port)
          (ttl_of at f.now) f).holds;
  }

  apply_target-After :
      (t : Target) (f : Forwarder) (c : Control)
      → get i.agent_id c.agents ≡ some f
      → After
          (λ addr c'.
            Up i.agent_id (Opened (number i.rule_id) t.dst_ip (to_uint32 t.dst_port) f addr) c')
          (apply_target listen i t)
          c
  unfolding apply_target
  apply_target-After t f c is =
      roundtrip-After i.agent_id _ _ f c is
        (handle_apply-After i.src_peer_ips t (deadline_of i.expires_at) f)

  abbrev HasRule : Entry → Forwarder → Type 0
  HasRule e f = get (number i.rule_id) f.rules ≡ some e

  -- Further targets leave the rule of the first one as it is.
  apply_targets-keeps :
      (e : Entry) (ts : List Target) (seen : String) (c : Control)
      → Up i.agent_id (HasRule e) c
      → After (λ _ c'. Up i.agent_id (HasRule e) c') (apply_targets listen i seen ts) c
  unfolding apply_targets
  apply_targets-keeps e [] seen c h = After-pure seen c h
  apply_targets-keeps e (t ∷ ts) seen c h = After-bind (
      After-imp
        (λ addr c' k. apply_targets-keeps e ts (first_addr seen addr) c' (record {
          forwarder = k.forwarder;
          up = k.up;
          has = k.has.found ∙ ap some (k.has.old e h.has);
        }))
        (apply_target-After t h.forwarder c h.up))

  -- The rule as its first target made it.
  abbrev pub LeadsTo : Target → Forwarder → Type 0
  LeadsTo t f =
      (e : Entry) × (get (number i.rule_id) f.rules ≡ some e)
      × (e.dst_ip ≡ t.dst_ip)
      × (e.dst_port ≡ to_uint32 t.dst_port)

  connected-After :
      {Q : Unit {0} → Control → Type 0} (f : Forwarder) (c : Control)
      → get i.agent_id c.agents ≡ some f
      → Q tt c
      → After Q (connected i.agent_id) c
  connected-After {Q} f c is h = record { holds = subst (λ o. Holds Q (found o) c) (sym is) h }

  sent_all :
      (t : Target) (ts : List Target) (f : Forwarder) (c : Control)
      → get i.agent_id c.agents ≡ some f
      → get (number i.rule_id) f.rules ≡ none
      → After (λ _ c'. Up i.agent_id (LeadsTo t) c') (apply_targets listen i "" (t ∷ ts)) c
  unfolding apply_targets
  sent_all t ts f c is new = After-bind (
      After-imp
        (λ addr c' k.
          After-imp
            (λ _ c2 h. record {
              forwarder = h.forwarder;
              up = h.up;
              has = (k.has.entry, h.has, (k.has.to new).0, (k.has.to new).1);
            })
            (apply_targets-keeps k.has.entry ts (first_addr "" addr) c'
              (record { forwarder = k.forwarder; up = k.up; has = k.has.found })))
        (apply_target-After t f c is))

  apply_rule-After :
      (t : Target) (ts : List Target) (f : Forwarder) (c : Control)
      → i.targets ≡ t ∷ ts
      → get i.agent_id c.agents ≡ some f
      → get (number i.rule_id) f.rules ≡ none
      → After (λ _ c'. Up i.agent_id (LeadsTo t) c') (apply_rule listen i) c
  unfolding apply_rule
  apply_rule-After t ts f c split is new = After-bind (
      connected-After f c is (
        subst (λ l. After (λ _ c'. Up i.agent_id (LeadsTo t) c') (apply_targets listen i "" l) c)
          (sym split) (sent_all t ts f c is new)))

  -- When ApplyRule succeeds for an agent that is connected and does not have the rule yet, the rule
  -- leads to the first target. The other targets share its id, so that they are acknowledged too
  -- and opened nowhere.
  pub apply_rule-LeadsTo :
      (t : Target) (ts : List Target) (f : Forwarder) (c : Control) (addr : String)
      → i.targets ≡ t ∷ ts
      → get i.agent_id c.agents ≡ some f
      → get (number i.rule_id) f.rules ≡ none
      → (apply_rule listen i c).0 ≡ ok addr
      → Up i.agent_id (LeadsTo t) (apply_rule listen i c).1
  apply_rule-LeadsTo t ts f c addr split is new h =
      After-ok (apply_rule-After t ts f c split is new) addr h

-- The rules of `f` but one.
abbrev pub Without : ℕ → Forwarder → Forwarder → Type 0
Without rule f g = (j : ℕ) → get j g.rules ≡ (if rule == j then none else get j f.rules)

revoke_rule-After :
    (agent : ℕ) (rule : RuleId) (f : Forwarder) (c : Control)
    → get agent c.agents ≡ some f
    → After
        (λ _ c'.
          Up agent
            (λ g. (j : ℕ) → get j g.rules ≡ (if number rule == j then none else get j f.rules))
            c')
        (revoke_rule agent rule)
        c
unfolding revoke_rule revoke
revoke_rule-After agent rule f c is =
    roundtrip-After agent (revoke (number rule)) _ f c is
      (record { holds = λ j. get-revoke (number rule) j f })

-- When RevokeRule succeeds for an agent that is connected, the agent has the rule no more and all
-- its other rules as they were.
pub revoke_rule-Without :
    (agent : ℕ) (rule : RuleId) (f : Forwarder) (c : Control)
    → get agent c.agents ≡ some f
    → (revoke_rule agent rule c).0 ≡ ok tt
    → Up agent (Without (number rule) f) (revoke_rule agent rule c).1
revoke_rule-Without agent rule f c is h = After-ok (revoke_rule-After agent rule f c is) tt h
