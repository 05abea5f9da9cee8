-- ===== src/Agent/Nft/Granting.antt =====
-- What Apply of agent/internal/nft/nft.go has done when it answers.
use yusui.Prelude.{
  ℕ, ◌≡◌, refl, ◌≤◌, ◌<◌, ◌+◌, ◌*◌, Bool, true, false, ◌||◌, List, [], ◌∷◌, String, str_eq,
  str_eq_refl, if◌then◌else◌, ◌==◌, ◌⊎◌, inl, inr, ==_refl, arith,
}
use yusui.Prelude.Int.{ℤ, pos}
use yusui.Exec.{ok, err, resume, gateway_error, ◌>>=◌}
use yusui.Exec.After.{
  After, Holds, After-all, After-both, After-bind, After-if, After-imp, After-ok, After-pure,
  After-raise, Relates, Relates-bind, Relates-if,
}
use yusui.Agent.Nft.{
  Key, Command, add_element, Nft, keys_of, run, remember, add_one, add_all, apply, timeout_of,
  is_empty,
}
use yusui.Agent.Nft.Tracking.{same_key, mem_key, in_set, mem-remember}

-- The element is in the set, for the rule.
pub record Granted (rule : ℕ) (k : Key) (e : Nft) : Type 0 where
  pub present : in_set k e.ran ≡ true
  pub owned : mem_key k (keys_of rule e.rules) ≡ true

same_key_refl : (k : Key) → same_key k k ≡ true
same_key_refl k = rw (str_eq_refl k.src, str_eq_refl k.dst, ==_refl k.port) refl

-- Each source that is not empty has its element.
abbrev pub Grants : ℕ → List String → String → ℕ → Nft → Type 0
Grants rule [] dst port e = Unit
Grants rule (src ∷ srcs) dst port e =
    ((str_eq src "" ≡ true) ⊎ Granted rule (record { src = src; dst = dst; port = port }) e)
    × Grants rule srcs dst port e

added-Granted :
    (rule secs : ℕ) (key k : Key) (e : Nft) (worked : Bool)
    → Granted rule k e
    → Granted rule k
        (resume
          (λ (u : Unit {0}). remember rule key)
          (if worked then ok tt else err gateway_error)
          (record e { ran = (add_element key secs rule, worked) ∷ e.ran })).1
unfolding in_set remember
added-Granted rule secs key k e false h = record {
  present = ground (arith, h.present);
  owned = h.owned;
}
added-Granted rule secs key k e true h = record {
  present = ground (arith, h.present);
  owned = ground (arith, mem-remember rule rule key k e, h.owned);
}

added-After :
    (rule secs : ℕ) (key : Key) (e : Nft) (worked : Bool)
    → Holds
        (λ _ e'. Granted rule key e')
        (resume
          (λ (u : Unit {0}). remember rule key)
          (if worked then ok tt else err gateway_error)
          (record e { ran = (add_element key secs rule, worked) ∷ e.ran })).0
        (resume
          (λ (u : Unit {0}). remember rule key)
          (if worked then ok tt else err gateway_error)
          (record e { ran = (add_element key secs rule, worked) ∷ e.ran })).1
unfolding in_set remember
added-After rule secs key e false = tt
added-After rule secs key e true = record {
  present = rw (same_key_refl key) refl;
  owned = ground (arith, mem-remember rule rule key key e, ==_refl rule, same_key_refl key);
}

module _ (nft : List (Command × Bool) → Command → Bool) (rule : ℕ) where
  abbrev Keeps : Key → Nft → Nft → Type 0
  Keeps k e e' = Granted rule k e → Granted rule k e'

  add_all-Keeps :
      (k : Key) (secs : ℕ) (dst : String) (port : ℕ) (srcs : List String)
      → Relates (Keeps k) (add_all nft rule secs dst port srcs)
  unfolding add_all add_one run ◌>>=◌
  add_all-Keeps k secs dst port [] = record { at = λ e h. h }
  add_all-Keeps k secs dst port (src ∷ srcs) =
      let key : Key = record { src = src; dst = dst; port = port } in
      Relates-if (str_eq src "") (add_all-Keeps k secs dst port srcs) (
        Relates-bind (λ e h. h) (λ e e1 e2 f g h. g (f h))
          (record {
            at = λ e h. added-Granted rule secs key k e (nft e.ran (add_element key secs rule)) h;
          })
          (λ _. add_all-Keeps k secs dst port srcs))

  add_one-After :
      (secs : ℕ) (key : Key) (e : Nft)
      → After (λ _ e'. Granted rule key e') (add_one nft rule secs key) e
  unfolding add_one run ◌>>=◌
  add_one-After secs key e = record {
    holds = added-After rule secs key e (nft e.ran (add_element key secs rule));
  }

  add_all-After :
      (secs : ℕ) (dst : String) (port : ℕ) (srcs : List String) (e : Nft)
      → After (λ _ e'. Grants rule srcs dst port e') (add_all nft rule secs dst port srcs) e
  unfolding add_all
  add_all-After secs dst port [] e = After-pure tt e tt
  add_all-After secs dst port (src ∷ srcs) e =
      let key : Key = record { src = src; dst = dst; port = port } in
      After-if (str_eq src "")
        (λ blank. After-imp (λ _ e' h. (inl blank, h)) (add_all-After secs dst port srcs e))
        (λ _. After-bind (
          After-imp
            (λ _ e1 g.
              After-imp (λ _ e2 h. (inr h.1, h.0))
                (After-both (add_all-After secs dst port srcs e1)
                  (After-all _ e1 (λ _. (add_all-Keeps key secs dst port srcs).at e1 g))))
            (add_one-After secs key e)))

  apply-After :
      (srcs : List String) (dst : String) (port : ℕ) (ttl : ℤ) (e : Nft)
      → After (λ _ e'. Grants rule srcs dst port e') (apply nft rule srcs dst port ttl) e
  unfolding apply
  apply-After srcs dst port ttl e =
      After-if (is_empty srcs || str_eq dst "" || port == 0) (λ _. After-raise _ e)
        (λ _. After-bind (
          After-imp (λ _ e' h. After-pure "" e' h)
            (add_all-After (timeout_of ttl) dst port srcs e)))

  -- When Apply succeeds, each source that is not empty has its element in the set, and revoking the
  -- rule finds it.
  pub apply-Grants :
      (srcs : List String) (dst : String) (port : ℕ) (ttl : ℤ) (e : Nft) (addr : String)
      → (apply nft rule srcs dst port ttl e).0 ≡ ok addr
      → Grants rule srcs dst port (apply nft rule srcs dst port ttl e).1
  apply-Grants srcs dst port ttl e addr h = After-ok (apply-After srcs dst port ttl e) addr h

-- An element is given a second at least, and from there no longer than its rule has to live, to the
-- second.
pub timeout_of-bounds :
    (ttl : ℕ)
    → (1 ≤ timeout_of (pos ttl))
      × (ttl < (timeout_of (pos ttl) + 1) * 1_000_000_000)
      × (1_000_000_000 ≤ ttl → timeout_of (pos ttl) * 1_000_000_000 ≤ ttl)
unfolding timeout_of
timeout_of-bounds ttl = ground arith
