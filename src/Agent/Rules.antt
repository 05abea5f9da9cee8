-- ===== src/Agent/Rules.antt =====
-- What the forwarder of agent/internal/forward/forward.go keeps of its rules.
use yusui.Prelude.{
  ℕ, ◌+◌, ◌≡◌, ◌≢◌, refl, ap, false, ◌||◌, Option, none, some, List, [], ◌∷◌, String, str_eq,
  if◌then◌else◌, ◌==◌, get, get-put, get-delete, arith, Bool-cases, inl, inr, ==_refl, ne→==,
}
use yusui.Prelude.Int.{ℤ}
use yusui.Exec.{Result, ok, err}
use yusui.Exec.After.{After, After-ok}
use yusui.Agent.Forward.{
  Entry, Forwarder, new_entry, apply, opened, known, revoke, in_time, elapse, is_over,
}

-- A rule is open at `addr`, and no other rule has changed.
pub record Opened (rule : ℕ) (ip : String) (port : ℕ) (f : Forwarder) (addr : String)
    (f' : Forwarder) : Type 0 where
  pub entry : Entry
  pub found : get rule f'.rules ≡ some entry
  pub at : entry.addr ≡ addr
  pub old : (e : Entry) → get rule f.rules ≡ some e → entry ≡ e
  pub to : get rule f.rules ≡ none → (entry.dst_ip ≡ ip) × (entry.dst_port ≡ port)
  pub others : (j : ℕ) → rule ≢ j → get j f'.rules ≡ get j f.rules

module _ (listen : ℕ → Result String) (rule : ℕ) (srcs : List String) (ip : String) (port : ℕ)
    (ttl : ℤ) where
  opened-Opened :
      (f g : Forwarder) (r : Result String)
      → g.rules ≡ f.rules
      → get rule f.rules ≡ none
      → After (Opened rule ip port f) (opened listen rule srcs ip port ttl r) g
  unfolding new_entry
  opened-Opened f g (err x) same missing = record { holds = tt }
  opened-Opened f g (ok addr) same missing = record {
    holds = record {
      entry = new_entry g.now addr srcs ip port ttl;
      found =
          rw (get-put rule rule (new_entry g.now addr srcs ip port ttl) g.rules, ==_refl rule) refl;
      at = made.0;
      old = λ e h. cc;
      to = λ _. (made.1, made.2);
      others = λ j other.
          rw (get-put j rule (new_entry g.now addr srcs ip port ttl) g.rules, ne→== rule j other)
            (ap (get j) same);
    };
  }
    where
      made :
          ((new_entry g.now addr srcs ip port ttl).addr ≡ addr)
          × ((new_entry g.now addr srcs ip port ttl).dst_ip ≡ ip)
          × ((new_entry g.now addr srcs ip port ttl).dst_port ≡ port)
      made = (refl, refl, refl)

  known-Opened :
      (f : Forwarder) (o : Option Entry)
      → get rule f.rules ≡ o
      → After (Opened rule ip port f) (known listen rule srcs ip port ttl o) f
  known-Opened f (some e) is = record {
    holds = record {
      entry = e;
      found = is;
      at = refl;
      old = λ e' h. cc;
      to = λ h. cc;
      others = λ j _. refl;
    };
  }
  known-Opened f none is = record {
    holds =
        (opened-Opened f (record f { listens = f.listens + 1 }) (listen f.listens) refl is).holds;
  }

  pub apply-After :
      (f : Forwarder) → After (Opened rule ip port f) (apply listen rule srcs ip port ttl) f
  unfolding apply
  apply-After f = elim (Bool-cases (str_eq ip "" || port == 0)) [
    | inl bad ↦ record { holds = rw bad tt }
    | inr fine ↦ record { holds = rw fine ((known-Opened f (get rule f.rules) refl).holds) }
  ]

  -- When Apply succeeds, it answers the address of the rule's listener. A rule that was there stays
  -- what it was, with its old target; a new one leads to the target given. No other rule changes.
  pub apply-Opened :
      (f : Forwarder) (addr : String)
      → (apply listen rule srcs ip port ttl f).0 ≡ ok addr
      → Opened rule ip port f addr (apply listen rule srcs ip port ttl f).1
  apply-Opened f addr h = After-ok (apply-After f) addr h

-- After Revoke a rule is gone, and no other rule has changed.
pub get-revoke :
    (rule j : ℕ) (f : Forwarder)
    → get j (revoke rule f).1.rules ≡ (if rule == j then none else get j f.rules)
unfolding revoke
get-revoke rule j f = get-delete j rule f.rules

in_time-get :
    (now k : ℕ) (e : Entry) (rules : List (ℕ × Entry))
    → get k (in_time now rules) ≡ some e
    → is_over now e.deadline ≡ false
unfolding in_time get
in_time-get now k e [] h = cc
in_time-get now k e ((j, x) ∷ rules) h = ground (arith, in_time-get now k e rules)

-- However much time goes by, no rule is in force at or after its deadline.
pub elapse-in_time :
    (t k : ℕ) (e : Entry) (f : Forwarder)
    → get k (elapse t f).rules ≡ some e
    → is_over (f.now + t) e.deadline ≡ false
unfolding elapse
elapse-in_time t k e f h = in_time-get (f.now + t) k e f.rules h
