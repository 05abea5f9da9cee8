-- ===== src/Config/Lists.antt =====
-- What a list in an environment variable of server/internal/config/config.go stands for.
use yusui.Prelude.{
  ◌≡◌, ◌≢◌, refl, sym, ap, subst, arith, ◌∙◌, Bool, true, false, ◌&&◌, List, [], ◌∷◌, ◌++◌, All,
  Bool-cases, inl, inr,
}
use yusui.Config.{onto_first, split, trim_left, is_nil, trim_right, trim, keep, split_csv}

and_left : (a b : Bool) → (a && b) ≡ true → a ≡ true
and_left a b h = ground arith

and_right : (a b : Bool) → (a && b) ≡ true → b ≡ true
and_right a b h = ground arith

module _ {A : Type 0} (is_sep is_space : A → Bool) where
  -- The entries with a separator between.
  unfoldable pub join : A → List (List A) → List A
  join sep [] = []
  join sep (p ∷ []) = p
  join sep (p ∷ q ∷ ps) = p ++ sep ∷ join sep (q ∷ ps)

  abbrev Plain : List A → Type 0
  Plain p = All (λ a. is_sep a ≡ false) p

  -- An entry that the source keeps as it is.
  pub record Tidy (p : List A) : Type 0 where
    pub plain : Plain p
    pub trimmed : trim is_sep is_space p ≡ p
    pub filled : is_nil is_sep is_space p ≡ false

  split-Plain : (p : List A) → Plain p → split is_sep is_space p ≡ p ∷ []
  unfolding split
  split-Plain [] h = refl
  split-Plain (a ∷ p) h = rw (h.0, split-Plain p h.1) refl

  split-append :
      (p : List A) (sep : A) (v : List A)
      → Plain p
      → is_sep sep ≡ true
      → split is_sep is_space (p ++ sep ∷ v) ≡ p ∷ split is_sep is_space v
  unfolding split
  split-append [] sep v h k = rw k refl
  split-append (a ∷ p) sep v h k = rw (h.0, split-append p sep v h.1 k) refl

  keep-Tidy : (ps : List (List A)) → All Tidy ps → keep is_sep is_space ps ≡ ps
  unfolding keep
  keep-Tidy [] h = refl
  keep-Tidy (p ∷ ps) h = rw (h.0.trimmed, h.0.filled, keep-Tidy ps h.1) refl

  split-join :
      (sep : A) (p : List A) (ps : List (List A))
      → is_sep sep ≡ true
      → All Tidy (p ∷ ps)
      → split is_sep is_space (join sep (p ∷ ps)) ≡ p ∷ ps
  unfolding join
  split-join sep p [] k h = split-Plain p h.0.plain
  split-join sep p (q ∷ ps) k h =
      split-append p sep (join sep (q ∷ ps)) h.0.plain k
      ∙ ap (λ l. p ∷ l) (split-join sep q ps k h.1)

  Plain-onto :
      (a : A) (ps : List (List A))
      → is_sep a ≡ false
      → All Plain ps
      → All Plain (onto_first is_sep is_space a ps)
  Plain-onto a [] h k = ((h, tt), tt)
  Plain-onto a (p ∷ ps) h k = ((h, k.0), k.1)

  split-all_Plain : (v : List A) → All Plain (split is_sep is_space v)
  unfolding split
  split-all_Plain [] = (tt, tt)
  split-all_Plain (a ∷ v) = elim (Bool-cases (is_sep a)) [
    | inl at ↦ rw at (tt, split-all_Plain v)
    | inr other ↦ rw other (Plain-onto a (split is_sep is_space v) other (split-all_Plain v))
  ]

  trim_left-Plain : (p : List A) → Plain p → Plain (trim_left is_sep is_space p)
  unfolding trim_left
  trim_left-Plain [] h = tt
  trim_left-Plain (a ∷ p) h = elim (Bool-cases (is_space a)) [
    | inl at ↦ rw at (trim_left-Plain p h.1)
    | inr other ↦ rw other h
  ]

  trim_right-Plain : (p : List A) → Plain p → Plain (trim_right is_sep is_space p)
  unfolding trim_right
  trim_right-Plain [] h = tt
  trim_right-Plain (a ∷ p) h =
      elim (Bool-cases (is_nil is_sep is_space (trim_right is_sep is_space p) && is_space a)) [
        | inl at ↦ rw at tt
        | inr other ↦ rw other (h.0, trim_right-Plain p h.1)
      ]

  trim_right-trim_right :
      (p : List A)
      → trim_right is_sep is_space (trim_right is_sep is_space p) ≡ trim_right is_sep is_space p
  unfolding trim_right
  trim_right-trim_right [] = refl
  trim_right-trim_right (a ∷ p) =
      elim (Bool-cases (is_nil is_sep is_space (trim_right is_sep is_space p) && is_space a)) [
        | inl at ↦ rw at refl
        | inr other ↦ rw (other, trim_right, trim_right-trim_right p, other) refl
      ]

  -- No space in front.
  abbrev Starts : List A → Type 0
  Starts [] = Unit
  Starts (a ∷ p) = is_space a ≡ false

  trim_left-Starts : (p : List A) → Starts (trim_left is_sep is_space p)
  unfolding trim_left
  trim_left-Starts [] = tt
  trim_left-Starts (a ∷ p) = elim (Bool-cases (is_space a)) [
    | inl at ↦ rw at (trim_left-Starts p)
    | inr other ↦ rw other other
  ]

  trim_left-trim_right :
      (p : List A)
      → Starts p
      → trim_left is_sep is_space (trim_right is_sep is_space p) ≡ trim_right is_sep is_space p
  unfolding trim_left trim_right
  trim_left-trim_right [] h = refl
  trim_left-trim_right (a ∷ p) h =
      elim (Bool-cases (is_nil is_sep is_space (trim_right is_sep is_space p) && is_space a)) [
        | inl at ↦ rw at refl
        | inr other ↦ rw (other, trim_left, h) refl
      ]

  trim-trim : (p : List A) → trim is_sep is_space (trim is_sep is_space p) ≡ trim is_sep is_space p
  unfolding trim
  trim-trim p =
      ap (trim_right is_sep is_space)
        (trim_left-trim_right (trim_left is_sep is_space p) (trim_left-Starts p))
      ∙ trim_right-trim_right (trim_left is_sep is_space p)

  keep-all_Tidy : (ps : List (List A)) → All Plain ps → All Tidy (keep is_sep is_space ps)
  unfolding keep
  keep-all_Tidy [] h = tt
  keep-all_Tidy (p ∷ ps) h = elim (Bool-cases (is_nil is_sep is_space (trim is_sep is_space p))) [
    | inl at ↦ rw at (keep-all_Tidy ps h.1)
    | inr other ↦ rw other (
      record {
        plain = trim_right-Plain _ (trim_left-Plain p h.0);
        trimmed = trim-trim p;
        filled = other;
      },
      keep-all_Tidy ps h.1,
    )
  ]

  split_csv-Tidy : (v : List A) → All Tidy (split_csv is_sep is_space v)
  unfolding split_csv
  split_csv-Tidy [] = tt
  split_csv-Tidy (a ∷ v) = keep-all_Tidy (split is_sep is_space (a ∷ v)) (split-all_Plain (a ∷ v))

  filled_append :
      (p v : List A) → is_nil is_sep is_space p ≡ false → is_nil is_sep is_space (p ++ v) ≡ false
  filled_append [] v h = cc
  filled_append (a ∷ p) v h = refl

  filled_join :
      (sep : A) (p : List A) (ps : List (List A))
      → is_nil is_sep is_space p ≡ false
      → is_nil is_sep is_space (join sep (p ∷ ps)) ≡ false
  unfolding join
  filled_join sep p [] h = h
  filled_join sep p (q ∷ ps) h = filled_append p _ h

  -- Entries that are not empty, have no spaces around them and no separator in them are read back as
  -- they were written.
  pub split_csv-join :
      (sep : A) (ps : List (List A))
      → is_sep sep ≡ true
      → All Tidy ps
      → split_csv is_sep is_space (join sep ps) ≡ ps
  unfolding split_csv join
  split_csv-join sep [] k h = refl
  split_csv-join sep (p ∷ ps) k h =
      rw (filled_join sep p ps h.0.filled, split-join sep p ps k h) (keep-Tidy (p ∷ ps) h)

  is_nil-eq : (p : List A) → is_nil is_sep is_space p ≡ true → p ≡ []
  is_nil-eq [] h = refl
  is_nil-eq (a ∷ p) h = cc

  abbrev pub Spaces : List A → Type 0
  Spaces p = All (λ a. is_space a ≡ true) p

  -- No space at the end.
  abbrev Ends : List A → Type 0
  Ends [] = Unit
  Ends (a ∷ []) = is_space a ≡ false
  Ends (a ∷ b ∷ p) = Ends (b ∷ p)

  -- What a part between separators stands for: nothing if it is all spaces, else the entry that stands
  -- in it with spaces around, itself neither beginning nor ending with one.
  pub data Entries : List (List A) → List (List A) → Type 0 where
    last : Entries [] []
    blank : {ps es : List (List A)} (p : List A) → Spaces p → Entries ps es → Entries (p ∷ ps) es
    entry :
        {ps es : List (List A)} (l e r : List A)
        → Spaces l
        → Spaces r
        → Starts e
        → Ends e
        → e ≢ []
        → Entries ps es
        → Entries ((l ++ (e ++ r)) ∷ ps) (e ∷ es)

  -- The parts of a text.
  pub record Reads (sep : A) (v : List A) (es : List (List A)) : Type 0 where
    pub parts : List (List A)
    pub whole : join sep parts ≡ v
    pub plain : All Plain parts
    pub entries : Entries parts es

  trim_left-split : (p : List A) → (l : List A) × Spaces l × (p ≡ l ++ trim_left is_sep is_space p)
  unfolding trim_left
  trim_left-split [] = ([], tt, refl)
  trim_left-split (a ∷ p) = elim (Bool-cases (is_space a)) [
    | inl at ↦
        let (l, all, same) = trim_left-split p in (a ∷ l, (at, all), rw at (ap (λ q. a ∷ q) same))
    | inr other ↦ ([], tt, rw other refl)
  ]

  trim_right-split :
      (p : List A) → (r : List A) × Spaces r × (p ≡ trim_right is_sep is_space p ++ r)
  unfolding trim_right
  trim_right-split [] = ([], tt, refl)
  trim_right-split (a ∷ p) =
      let (r, all, same) = trim_right-split p in
      elim (Bool-cases (is_nil is_sep is_space (trim_right is_sep is_space p) && is_space a)) [
        | inl at ↦ (
          a ∷ r,
          (and_right _ _ at, all),
          rw at (ap (λ q. a ∷ q) (same ∙ ap (λ q. q ++ r) (is_nil-eq _ (and_left _ _ at)))),
        )
        | inr other ↦ (r, all, rw other (ap (λ q. a ∷ q) same))
      ]

  Ends-cons :
      (a : A) (q : List A)
      → (is_nil is_sep is_space q && is_space a) ≡ false
      → Ends q
      → Ends (a ∷ q)
  Ends-cons a [] h k = h
  Ends-cons a (b ∷ q) h k = k

  trim_right-Ends : (p : List A) → Ends (trim_right is_sep is_space p)
  unfolding trim_right
  trim_right-Ends [] = tt
  trim_right-Ends (a ∷ p) =
      elim (Bool-cases (is_nil is_sep is_space (trim_right is_sep is_space p) && is_space a)) [
        | inl at ↦ rw at tt
        | inr other ↦
            rw other (Ends-cons a (trim_right is_sep is_space p) other (trim_right-Ends p))
      ]

  trim_right-Starts : (p : List A) → Starts p → Starts (trim_right is_sep is_space p)
  unfolding trim_right
  trim_right-Starts [] h = tt
  trim_right-Starts (a ∷ p) h =
      elim (Bool-cases (is_nil is_sep is_space (trim_right is_sep is_space p) && is_space a)) [
        | inl at ↦ rw at tt
        | inr other ↦ rw other h
      ]

  Spaces-append : (p q : List A) → Spaces p → Spaces q → Spaces (p ++ q)
  Spaces-append [] q h k = k
  Spaces-append (a ∷ p) q h k = (h.0, Spaces-append p q h.1 k)

  ne_nil : (p : List A) → is_nil is_sep is_space p ≡ false → p ≢ []
  ne_nil [] h = cc
  ne_nil (a ∷ p) h = λ e. cc e

  keep-Entries : (ps : List (List A)) → Entries ps (keep is_sep is_space ps)
  unfolding keep trim
  keep-Entries [] = last
  keep-Entries (p ∷ ps) =
      let (l, left, p_is) = trim_left-split p in
      let (r, right, q_is) = trim_right-split (trim_left is_sep is_space p) in
      elim (Bool-cases (is_nil is_sep is_space (trim is_sep is_space p))) [
        | inl at ↦ rw at (
            blank p
              (subst Spaces
                (sym (p_is ∙ ap (λ q. l ++ q) (q_is ∙ ap (λ q. q ++ r) (is_nil-eq _ at))))
                (Spaces-append l r left right))
              (keep-Entries ps))
        | inr other ↦ rw other (
            subst (λ q. Entries (q ∷ ps) (trim is_sep is_space p ∷ keep is_sep is_space ps))
              (sym (p_is ∙ ap (λ q. l ++ q) q_is))
              (entry l (trim is_sep is_space p) r left right
                (trim_right-Starts _ (trim_left-Starts p))
                (trim_right-Ends (trim_left is_sep is_space p)) (ne_nil _ other) (keep-Entries ps)))
      ]

  join-onto :
      (sep a : A) (ps : List (List A))
      → ps ≢ []
      → join sep (onto_first is_sep is_space a ps) ≡ a ∷ join sep ps
  unfolding join
  join-onto sep a [] h = absurd (h refl)
  join-onto sep a (p ∷ []) h = refl
  join-onto sep a (p ∷ q ∷ ps) h = refl

  join-nil : (sep : A) (ps : List (List A)) → ps ≢ [] → join sep ([] ∷ ps) ≡ sep ∷ join sep ps
  unfolding join
  join-nil sep [] h = absurd (h refl)
  join-nil sep (p ∷ ps) h = refl

  split-ne : (v : List A) → split is_sep is_space v ≢ []
  unfolding split
  split-ne [] = λ e. cc e
  split-ne (a ∷ v) = elim (Bool-cases (is_sep a)) [
    | inl at ↦ rw at (λ e. cc e)
    | inr other ↦ rw other (onto-ne a (split is_sep is_space v))
  ]
    where
      onto-ne : (a : A) (ps : List (List A)) → onto_first is_sep is_space a ps ≢ []
      onto-ne a [] = λ e. cc e
      onto-ne a (p ∷ ps) = λ e. cc e

  join-split :
      (sep : A) (v : List A)
      → ((a : A) → is_sep a ≡ true → a ≡ sep)
      → join sep (split is_sep is_space v) ≡ v
  unfolding split join
  join-split sep [] h = refl
  join-split sep (a ∷ v) h = elim (Bool-cases (is_sep a)) [
    | inl at ↦ rw at (
        join-nil sep (split is_sep is_space v) (split-ne v)
        ∙ ap (λ l. sep ∷ l) (join-split sep v h)
        ∙ ap (λ b. b ∷ v) (sym (h a at)))
    | inr other ↦ rw other (
        join-onto sep a (split is_sep is_space v) (split-ne v)
        ∙ ap (λ l. a ∷ l) (join-split sep v h))
  ]

  -- Whatever the variable says, it is parts without separators, written with one between any two, and
  -- the entries read are, in their order, those of the parts that are not all spaces, each without
  -- the spaces around it. Writing the entries out and reading them again gives the same.
  pub split_csv-Reads :
      (sep : A) (v : List A)
      → is_sep sep ≡ true
      → ((a : A) → is_sep a ≡ true → a ≡ sep)
      → Reads sep v (split_csv is_sep is_space v)
        × (split_csv is_sep is_space (join sep (split_csv is_sep is_space v))
            ≡ split_csv is_sep is_space v)
  unfolding split_csv join
  split_csv-Reads sep v k only =
      (reads v, split_csv-join sep (split_csv is_sep is_space v) k (split_csv-Tidy v))
    where
      reads : (v : List A) → Reads sep v (split_csv is_sep is_space v)
      reads [] = record { parts = []; whole = refl; plain = tt; entries = last }
      reads (a ∷ v) = record {
        parts = split is_sep is_space (a ∷ v);
        whole = join-split sep (a ∷ v) only;
        plain = split-all_Plain (a ∷ v);
        entries = keep-Entries (split is_sep is_space (a ∷ v));
      }
