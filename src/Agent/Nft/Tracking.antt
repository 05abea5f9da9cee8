-- ===== src/Agent/Nft/Tracking.antt =====
-- What the kernel enforcer of agent/internal/nft/nft.go remembers of the elements that it has put into
-- the kernel's set.
use yusui.Prelude.{
  ℕ, ◌≡◌, refl, sym, ap, ◌∙◌, Bool, true, false, not, ◌&&◌, ◌||◌, List, [], ◌∷◌, ◌++◌, String,
  str_eq, if◌then◌else◌, ◌==◌, get, delete, get-put, get-delete, ◌⊎◌, inl, inr, ==_refl, ==→eq,
  &&-eq-true, Bool-cases, arith, none,
}
use yusui.Prelude.Int.{ℤ}
use yusui.Exec.{ok, err, resume, gateway_error, ◌>>=◌}
use yusui.Exec.After.{Relates, Relates-bind, Relates-if}
use yusui.Agent.Nft.{
  Key, yusui_table, yusui_nat, Command, delete_table, load_table, load_nat, add_element,
  delete_element, Nft, new, keys_of, or_empty, run, remember, add_one, add_all, apply, delete_all,
  revoke, timeout_of, is_empty,
}

abbrev pub same_key : Key → Key → Bool
same_key j k = str_eq j.src k.src && str_eq j.dst k.dst && j.port == k.port

abbrev pub mem_key : Key → List Key → Bool
mem_key k [] = false
mem_key k (j ∷ ks) = same_key j k || mem_key k ks

-- An element is in the set from the time it is added until a delete is run for it or its table goes.
abbrev pub effect : Key → Command → Bool → Bool → Bool
effect k (delete_table yusui_table) worked before = not worked && before
effect k (delete_table yusui_nat) worked before = before
effect k load_table worked before = before
effect k (load_nat _) worked before = before
effect k (add_element j _ _) worked before = (worked && same_key j k) || before
effect k (delete_element j) worked before = not (same_key j k) && before

unfoldable pub in_set : Key → List (Command × Bool) → Bool
in_set k [] = false
in_set k ((c, worked) ∷ ran) = effect k c worked (in_set k ran)

pub mem_key-append :
    (k : Key) (ks ls : List Key) → mem_key k (ks ++ ls) ≡ (mem_key k ks || mem_key k ls)
mem_key-append k [] ls = refl
mem_key-append k (j ∷ ks) ls = ground (arith, mem_key-append k ks ls)

-- A rule that is active has `k` among its elements.
pub record Remembered (k : Key) (e : Nft) : Type 0 where
  pub rule : ℕ
  pub has : mem_key k (keys_of rule e.rules) ≡ true

abbrev pub TrackedBut : List Key → Nft → Type 0
TrackedBut ks e = (k : Key) → in_set k e.ran ≡ true → Remembered k e ⊎ (mem_key k ks ≡ true)

-- Every element in the set is remembered.
abbrev pub Tracked : Nft → Type 0
Tracked e = (k : Key) → in_set k e.ran ≡ true → Remembered k e

pub keys-remember :
    (rule r : ℕ) (key : Key) (e : Nft)
    → keys_of r (remember rule key e).1.rules
      ≡ (if rule == r then keys_of rule e.rules ++ key ∷ [] else keys_of r e.rules)
unfolding remember
keys-remember rule r key e =
    ap or_empty (get-put r rule (keys_of rule e.rules ++ key ∷ []) e.rules) ∙ ground arith

-- The elements of the rule `r` after one more for `rule`.
pub mem-remember :
    (rule r : ℕ) (key k : Key) (e : Nft)
    → mem_key k (keys_of r (remember rule key e).1.rules)
      ≡ ((rule == r && same_key key k) || mem_key k (keys_of r e.rules))
mem-remember rule r key k e = rw (keys-remember rule r key e) (elim (Bool-cases (rule == r)) [
  | inl here ↦ ground (arith, mem_key-append k (keys_of rule e.rules) (key ∷ []))
  | inr there ↦ ground arith
])

-- The element's command has worked or not.
added-Tracked :
    (rule secs : ℕ) (key : Key) (e : Nft) (worked : Bool)
    → Tracked e
    → Tracked
        (resume
          (λ (u : Unit {0}). remember rule key)
          (if worked then ok tt else err gateway_error)
          (record e { ran = (add_element key secs rule, worked) ∷ e.ran })).1
unfolding remember in_set
added-Tracked rule secs key e false h k at = record { rule = (h k at).rule; has = (h k at).has }
added-Tracked rule secs key e true h k at = elim (Bool-cases (same_key key k)) [
  | inl same ↦ record { rule = rule; has = ground (arith, mem-remember rule rule key k e) }
  | inr other ↦
      let old = h k (ground (arith, at)) in
      record { rule = old.rule; has = ground (arith, mem-remember rule old.rule key k e, old.has) }
]

module _ (nft : List (Command × Bool) → Command → Bool) where
  add_one-Tracked :
      (rule secs : ℕ) (key : Key) (e : Nft) → Tracked e → Tracked (add_one nft rule secs key e).1
  unfolding add_one run ◌>>=◌
  add_one-Tracked rule secs key e h =
      added-Tracked rule secs key e (nft e.ran (add_element key secs rule)) h

  pub delete_all-in_set :
      (keys : List Key) (k : Key) (e : Nft)
      → (in_set k (delete_all nft keys e).1.ran ≡ (not (mem_key k keys) && in_set k e.ran))
        × ((delete_all nft keys e).1.rules ≡ e.rules)
        × ((delete_all nft keys e).0 ≡ ok tt)
  unfolding delete_all run ◌>>=◌ in_set
  delete_all-in_set [] k e = (refl, refl, refl)
  delete_all-in_set (j ∷ keys) k e =
      let rest = delete_all-in_set keys k (run nft (delete_element j) e).1 in
      (rest.0 ∙ ground arith, rest.1, rest.2)

  abbrev Keeps : Nft → Nft → Type 0
  Keeps e e' = Tracked e → Tracked e'

  add_all-Keeps :
      (rule secs : ℕ) (dst : String) (port : ℕ) (srcs : List String)
      → Relates Keeps (add_all nft rule secs dst port srcs)
  unfolding add_all
  add_all-Keeps rule secs dst port [] = record { at = λ e h. h }
  add_all-Keeps rule secs dst port (src ∷ srcs) =
      Relates-if (str_eq src "") (add_all-Keeps rule secs dst port srcs) (
        Relates-bind (λ e h. h) (λ e e1 e2 f g h. g (f h))
          (record { at = λ e h. add_one-Tracked rule secs _ e h })
          (λ _. add_all-Keeps rule secs dst port srcs))

  pub apply-Tracked :
      (rule : ℕ) (srcs : List String) (dst : String) (port : ℕ) (ttl : ℤ) (e : Nft)
      → Tracked e
      → Tracked (apply nft rule srcs dst port ttl e).1
  unfolding apply
  apply-Tracked rule srcs dst port ttl e h =
      (Relates-if {R = Keeps} (is_empty srcs || str_eq dst "" || port == 0)
          (record { at = λ e h. h })
          (Relates-bind (λ e h. h) (λ e e1 e2 f g h. g (f h))
            (add_all-Keeps rule (timeout_of ttl) dst port srcs) (λ _. record { at = λ e h. h }))).at
        e h

not_eq_true : (b : Bool) → not b ≡ true → b ≡ false
not_eq_true b h = ground arith

-- What Revoke leaves behind.
pub record Dropped (rule : ℕ) (e e' : Nft) : Type 0 where
  pub gone : keys_of rule e'.rules ≡ []
  pub inactive : get rule e'.rules ≡ none
  pub others : (r : ℕ) → (rule == r) ≡ false → get r e'.rules ≡ get r e.rules
  pub elements :
      (k : Key) → in_set k e'.ran ≡ (not (mem_key k (keys_of rule e.rules)) && in_set k e.ran)

module _ (nft : List (Command × Bool) → Command → Bool) where
  -- Revoke succeeds. The rule is no longer active and the other rules are what they were; out of the
  -- set are its elements and no others, and those go even if another rule has them too.
  pub revoke-Dropped :
      (rule : ℕ) (e : Nft) → ((revoke nft rule e).0 ≡ ok tt) × Dropped rule e (revoke nft rule e).1
  unfolding revoke
  revoke-Dropped rule e =
      let there = ran (record { src = ""; dst = ""; port = 0 }) in
      (
        there.2,
        record {
          gone = ap (λ m. keys_of rule m) there.1 ∙ ap or_empty (gone rule);
          inactive = ap (get rule) there.1 ∙ gone rule;
          others = λ r other. ap (get r) there.1 ∙ (get-delete r rule e.rules ∙ rw other refl);
          elements = λ k. (ran k).0;
        },
      )
    where
      gone : (r : ℕ) → get r (delete r e.rules) ≡ none
      gone r = get-delete r r e.rules ∙ rw (==_refl r) refl

      ran :
          (k : Key)
          → (in_set k (revoke nft rule e).1.ran
              ≡ (not (mem_key k (keys_of rule e.rules)) && in_set k e.ran))
            × ((revoke nft rule e).1.rules ≡ delete rule e.rules)
            × ((revoke nft rule e).0 ≡ ok tt)
      ran k =
          delete_all-in_set nft (keys_of rule e.rules) k (record e { rules = delete rule e.rules })

  still :
      (rule r : ℕ) (k : Key) (e e' : Nft)
      → Dropped rule e e'
      → mem_key k (keys_of rule e.rules) ≡ false
      → mem_key k (keys_of r e.rules) ≡ true
      → mem_key k (keys_of r e'.rules) ≡ true
  still rule r k e e' h out at = elim (Bool-cases (rule == r)) [
    | inl same ↦ let i : rule ≡ r = ==→eq rule r same in cc
    | inr other ↦ ap (λ o. mem_key k (or_empty o)) (h.others r other) ∙ at
  ]

  pub revoke-Tracked : (rule : ℕ) (e : Nft) → Tracked e → Tracked (revoke nft rule e).1
  revoke-Tracked rule e h k at =
      let r = (revoke-Dropped rule e).1 in
      let both = &&-eq-true _ _ (sym (r.elements k) ∙ at) in
      let old = h k both.1 in
      record { rule = old.rule; has = still rule old.rule k e _ r (not_eq_true _ both.0) old.has }

pub data Op : Type 0 where
  apply_op : ℕ → List String → String → ℕ → ℤ → Op
  revoke_op : ℕ → Op

module _ (nft : List (Command × Bool) → Command → Bool) where
  abbrev pub perform : Op → Nft → Nft
  perform (apply_op rule srcs dst port ttl) e = (apply nft rule srcs dst port ttl e).1
  perform (revoke_op rule) e = (revoke nft rule e).1

  unfoldable pub serve : List Op → Nft → Nft
  serve [] e = e
  serve (o ∷ ops) e = serve ops (perform o e)

  perform-Tracked : (o : Op) (e : Nft) → Tracked e → Tracked (perform o e)
  perform-Tracked (apply_op rule srcs dst port ttl) e h =
      apply-Tracked nft rule srcs dst port ttl e h
  perform-Tracked (revoke_op rule) e h = revoke-Tracked nft rule e h

  serve-Keeps : (ops : List Op) (e : Nft) → Tracked e → Tracked (serve ops e)
  unfolding serve
  serve-Keeps [] e h = h
  serve-Keeps (o ∷ ops) e h = serve-Keeps ops (perform o e) (perform-Tracked o e h)

  -- Whatever the order of applies and revokes, and whichever commands the kernel refuses, an element
  -- that nft has taken and for which no delete has been run is one of a rule that is active: revoking
  -- the rules that are active leaves no way through.
  pub serve-Tracked :
      (ops : List Op) (iface : String) (k : Key)
      → in_set k (serve ops (new iface)).ran ≡ true
      → Remembered k (serve ops (new iface))
  unfolding in_set
  serve-Tracked ops iface k at = serve-Keeps ops (new iface) (λ j none. cc none) k at
