-- ===== src/Agent/Routing/Waiters.antt =====
-- Which call an answer of server/internal/agentctl/controller.go reaches.
use yusui.Prelude.{
  ℕ, ◌≡◌, refl, sym, ap, ◌∙◌, true, false, Option, none, some, List, [], ◌∷◌, if◌then◌else◌, ◌==◌,
  get, put, get-put, get-delete, ==_refl, ==→eq, Bool-cases, inl, inr,
}
use yusui.Exec.{Result, ok, err, gateway_error}
use yusui.Agent.Messages.{AckCommand, AgentToServer, ack_msg, reconcile_resp, heartbeat, rule_event}
use yusui.Agent.Routing.{
  AgentConn, wait_ack, clear_ack, into, with_acks, with_recos, route, receive_all, held, verdict,
  roundtrip, answer, reconcile_call, wait_reco, clear_reco,
}

-- The loop takes each message, that is, it never comes upon a full channel.
abbrev pub Flows : List AgentToServer → AgentConn → Type 0
Flows [] s = Unit
Flows (m ∷ ms) s = (t : AgentConn) × (route m s ≡ some t) × Flows ms t

abbrev pub ack_for : ℕ → AgentToServer → Option AckCommand
ack_for id (ack_msg a) = if a.command_id == id then some a else none
ack_for id (reconcile_resp _ _) = none
ack_for id (heartbeat _ _) = none
ack_for id (rule_event _ _) = none

abbrev pub or_next : Option AckCommand → Option AckCommand → Option AckCommand
or_next none b = b
or_next (some a) b = some a

-- The first ack of a command.
unfoldable pub first_ack : ℕ → List AgentToServer → Option AckCommand
first_ack id [] = none
first_ack id (m ∷ ms) = or_next (ack_for id m) (first_ack id ms)

or_next-none : (o : Option AckCommand) → or_next o none ≡ o
or_next-none none = refl
or_next-none (some a) = refl

module _ (id : ℕ) where
  into-get :
      (a : AckCommand) (s t : AgentConn) (o : Option AckCommand) (c : Option (Option AckCommand))
      → get id s.acks ≡ some o
      → get a.command_id s.acks ≡ c
      → with_acks s (into a.command_id a s.acks c) ≡ some t
      → get id t.acks ≡ some (or_next o (ack_for id (ack_msg a)))
  into-get a s t o none at is go =
      let same : s ≡ t = cc in
      elim (Bool-cases (a.command_id == id)) [
        | inl mine ↦ let i : a.command_id ≡ id = ==→eq a.command_id id mine in cc
        | inr other ↦ rw (other, or_next-none o) (ap (λ x. get id x.acks) (sym same) ∙ at)
      ]
  into-get a s t o (some none) at is go =
      let same : record s { acks = put a.command_id (some a) s.acks } ≡ t = cc in
      let now : get id t.acks ≡ (if a.command_id == id then some (some a) else get id s.acks) =
        ap (λ x. get id x.acks) (sym same) ∙ get-put id a.command_id (some a) s.acks in
      elim (Bool-cases (a.command_id == id)) [
        | inl mine ↦
            let i : a.command_id ≡ id = ==→eq a.command_id id mine in
            let free : o ≡ none = cc in now ∙ rw (mine, free) refl
        | inr other ↦ now ∙ rw (other, or_next-none o) at
      ]
  into-get a s t o (some (some _)) at is go = cc

  reco-get :
      (s t : AgentConn) (c : Option (List (ℕ × Option (List ℕ)))) (o : Option AckCommand)
      → get id s.acks ≡ some o
      → with_recos s c ≡ some t
      → get id t.acks ≡ some o
  reco-get s t none o at go = cc
  reco-get s t (some recos) o at go =
      let same : record s { recos = recos } ≡ t = cc in ap (λ x. get id x.acks) (sym same) ∙ at

  route-get :
      (m : AgentToServer) (s t : AgentConn) (o : Option AckCommand)
      → get id s.acks ≡ some o
      → route m s ≡ some t
      → get id t.acks ≡ some (or_next o (ack_for id m))
  unfolding route
  route-get (ack_msg a) s t o at go = into-get a s t o (get a.command_id s.acks) at refl go
  route-get (reconcile_resp j ids) s t o at go =
      rw (or_next-none o) (reco-get s t (into j ids s.recos (get j s.recos)) o at go)
  route-get (heartbeat n v) s t o at go =
      let same : s ≡ t = cc in rw (or_next-none o) (ap (λ x. get id x.acks) (sym same) ∙ at)
  route-get (rule_event n v) s t o at go =
      let same : s ≡ t = cc in rw (or_next-none o) (ap (λ x. get id x.acks) (sym same) ∙ at)

  or_next_assoc : (o p q : Option AckCommand) → or_next (or_next o p) q ≡ or_next o (or_next p q)
  or_next_assoc none p q = refl
  or_next_assoc (some a) p q = refl

  -- A channel that waits ends up with the first ack of its command.
  receive_all-get :
      (ms : List AgentToServer) (s : AgentConn) (o : Option AckCommand)
      → Flows ms s
      → get id s.acks ≡ some o
      → get id (receive_all ms s).acks ≡ some (or_next o (first_ack id ms))
  unfolding receive_all first_ack
  receive_all-get [] s o h at = rw (or_next-none o) at
  receive_all-get (m ∷ ms) s o (t, go, h) at =
      rw (receive_all, go)
        (receive_all-get ms t (or_next o (ack_for id m)) h (route-get m s t o at go)
          ∙ ap some (or_next_assoc o (ack_for id m) (first_ack id ms)))

-- What a call has come to: its own channel had the first ack of its command and is gone, and every
-- other channel has the first ack of its own.
pub record Routed (id : ℕ) (ms : List AgentToServer) (s : AgentConn)
    (done : Result AckCommand × AgentConn) : Type 0 where
  pub result : done.0 ≡ verdict (first_ack id ms)
  pub cleared : get id done.1.acks ≡ none
  pub others :
      (j : ℕ) (o : Option AckCommand)
      → (id == j) ≡ false
      → get j s.acks ≡ some o
      → get j done.1.acks ≡ some (or_next o (first_ack j ms))

-- Whatever answers arrive, and in whichever order, a call whose message went out returns the first
-- ack of its own command, if that says ok or skipped, and fails without one; it leaves no channel
-- behind, and what the other calls wait for reaches them. The loop is not to come upon a full channel.
pub roundtrip-Routed :
    (id : ℕ) (ms : List AgentToServer) (s : AgentConn)
    → Flows ms (wait_ack id s)
    → Routed id ms s (roundtrip id true ms s)
unfolding roundtrip wait_ack clear_ack
roundtrip-Routed id ms s h = record {
  result = ap (λ o. verdict (held o)) (receive_all-get id ms (wait_ack id s) none h here);
  cleared = get-delete id id _ ∙ rw (==_refl id) refl;
  others = λ j o other at.
      get-delete j id _
      ∙ rw other
          (receive_all-get j ms (wait_ack id s) o h (get-put j id none s.acks ∙ rw other at));
}
  where
    here : get id (wait_ack id s).acks ≡ some none
    here = get-put id id none s.acks ∙ rw (==_refl id) refl

reconciled : ℕ → List ℕ → AgentConn → AgentConn
reconciled id ids s = record s { recos = put id (some ids) (put id none s.recos) }

reco-route :
    (id : ℕ) (ids : List ℕ) (s : AgentConn)
    → route (reconcile_resp id ids) (wait_reco id s) ≡ some (reconciled id ids s)
unfolding route wait_reco reconciled
reco-route id ids s = rw (get-put id id none s.recos, ==_refl id) refl

reco-receive :
    (id : ℕ) (ids : List ℕ) (s : AgentConn)
    → receive_all (reconcile_resp id ids ∷ []) (wait_reco id s) ≡ reconciled id ids s
unfolding receive_all
reco-receive id ids s = rw (receive_all, reco-route id ids s) refl

-- A Reconcile that is answered returns the ids of the answer and leaves no channel; one that is not
-- fails.
pub reconcile_call-answer :
    (id : ℕ) (ids : List ℕ) (s : AgentConn)
    → ((reconcile_call id (reconcile_resp id ids ∷ []) s).0 ≡ ok ids)
      × ((reconcile_call id [] s).0 ≡ err gateway_error)
      × (get id (reconcile_call id (reconcile_resp id ids ∷ []) s).1.recos ≡ none)
unfolding reconcile_call wait_reco clear_reco receive_all reconciled
reconcile_call-answer id ids s = (
  ap (λ t. answer (held (get id t.recos))) (reco-receive id ids s)
      ∙ rw (get-put id id (some ids) (put id none s.recos), ==_refl id) refl,
  ap (λ o. answer (held o)) empty,
  get-delete id id _ ∙ rw (==_refl id) refl,
)
  where
    empty : get id (put id none s.recos) ≡ some none
    empty = get-put id id none s.recos ∙ rw (==_refl id) refl
