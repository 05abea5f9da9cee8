-- ===== src/Netbird/Ensuring.antt =====
-- What EnsureGroup of server/internal/netbird/adapter.go leaves behind.
use yusui.Prelude.{
  ◌≡◌, ◌≢◌, refl, sym, ap, ◌∙◌, false, Option, none, some, List, [], ◌∷◌, ◌++◌, String, str_eq,
  str_eq_iff, All, leb, Bool-cases, Option-cases, ◌⊎◌, inl, inr, arith, subst, ℕ,
}
use yusui.Netbird.{
  Group, Management, done, failed, ApiError, get_groups, post_group, group_named, list_groups,
  create_group, ensure_group, call, classify, answered, map_done,
}

-- The first of the groups of that name has that id.
pub record Named (name id : String) (gs : List Group) : Type 0 where
  pub before : List Group
  pub after : List Group
  pub parts : gs ≡ before ++ record { id = id; name = name } ∷ after
  pub others : All (λ g. g.name ≢ name) before

Named-cons :
    (name id : String) (g : Group) (gs : List Group)
    → g.name ≢ name
    → Named name id gs
    → Named name id (g ∷ gs)
Named-cons name id g gs h n = record {
  before = g ∷ n.before;
  after = n.after;
  parts = ap (λ l. g ∷ l) n.parts;
  others = (h, n.others);
}

other_name : (a b : String) → str_eq a b ≡ false → a ≢ b
other_name a b h = λ e. ground (arith, str_eq_iff a b)

group_named-Named :
    (name id : String) (gs : List Group) → group_named name gs ≡ some id → Named name id gs
unfolding group_named
group_named-Named name id [] = λ e. cc e
group_named-Named name id (g ∷ gs) = elim (Bool-cases (str_eq g.name name)) [
  | inl same ↦ rw same (λ e. record {
    before = [];
    after = gs;
    parts =
        ap (λ h. h ∷ gs)
          (ap (λ n. record { id = g.id; name = n }) ((str_eq_iff g.name name).0 same)
            ∙ ap (λ i. record { id = i; name = name }) (cc e));
    others = tt;
  })
  | inr other ↦
      rw other (λ e.
        Named-cons name id g gs (other_name g.name name other) (group_named-Named name id gs e))
]

Named-group_named :
    (name id : String) (before after : List Group)
    → All (λ g. g.name ≢ name) before
    → group_named name (before ++ record { id = id; name = name } ∷ after) ≡ some id
unfolding group_named
Named-group_named name id [] after h = rw ((str_eq_iff name name).1 refl) refl
Named-group_named name id (g ∷ before) after h = elim (Bool-cases (str_eq g.name name)) [
  | inl same ↦ absurd (h.0 ((str_eq_iff g.name name).0 same))
  | inr other ↦ rw other (Named-group_named name id before after h.1)
]

nobody_named :
    (name : String) (gs : List Group) → group_named name gs ≡ none → All (λ g. g.name ≢ name) gs
unfolding group_named
nobody_named name [] = λ _. tt
nobody_named name (g ∷ gs) = elim (Bool-cases (str_eq g.name name)) [
  | inl same ↦ rw same (λ e. cc e)
  | inr other ↦ rw other (λ e. (other_name g.name name other, nobody_named name gs e))
]

module _ {S Body : Type 0} (api : Management S Body) where
  -- The service holds the groups `view`. A listing leaves them and, where it succeeds, is them; a
  -- new group is put behind them under an id of the service. Its answers are not blank.
  pub record Holds (view : S → List Group) : Type 0 where
    pub listing : (s : S) → view (api.send get_groups s).1 ≡ view s
    pub shown :
        (s : S) (status : ℕ) (body : Body)
        → (api.send get_groups s).0 ≡ some (status, body)
        → leb 400 status ≡ false
        → (api.is_blank body ≡ false) × (api.groups_of body ≡ some (view s))
    pub posted :
        (s : S) (name : String) (status : ℕ) (body : Body)
        → (api.send (post_group name) s).0 ≡ some (status, body)
        → leb 400 status ≡ false
        → (api.is_blank body ≡ false)
          × (id : String) × (api.group_of body ≡ some (record { id = id; name = name }))
          × (view (api.send (post_group name) s).1 ≡ view s ++ record { id = id; name = name } ∷ [])

  module _ (view : S → List Group) (h : Holds view) where
    -- A listing shows what there is, or fails.
    list_groups-shows :
        (s : S)
        → (view (list_groups api s).1 ≡ view s)
          × (((list_groups api s).0 ≡ done (view s))
              ⊎ ((x : ApiError) × ((list_groups api s).0 ≡ failed x)))
    unfolding list_groups call
    list_groups-shows s = elim (Bool-cases api.url_ok) [
      | inr down ↦ rw down (refl, inr (_, refl))
      | inl up ↦ rw up (h.listing s, by_answer (api.send get_groups s).0 refl)
    ]
      where
        by_answer :
            (o : Option (ℕ × Body))
            → (api.send get_groups s).0 ≡ o
            → (answered api.is_blank api.groups_of [] o ≡ done (view s))
              ⊎ ((x : ApiError) × (answered api.is_blank api.groups_of [] o ≡ failed x))
        by_answer none e = inr (_, refl)
        by_answer (some (status, body)) e = elim (Bool-cases (leb 400 status)) [
          | inl bad ↦ inr (record { class = classify status; status = status }, rw bad refl)
          | inr fine ↦
              let (full, reads) = h.shown s status body e fine in inl (rw (fine, full, reads) refl)
        ]

    -- A group that was created is the last one, under the id that is returned.
    create_group-adds :
        (name id : String) (s : S)
        → (create_group api name s).0 ≡ done id
        → view (create_group api name s).1 ≡ view s ++ record { id = id; name = name } ∷ []
    unfolding create_group call
    create_group-adds name id s = elim (Bool-cases api.url_ok) [
      | inr down ↦ rw down (λ e. cc e)
      | inl up ↦ rw up (by_answer (api.send (post_group name) s).0 refl)
    ]
      where
        by_answer :
            (o : Option (ℕ × Body))
            → (api.send (post_group name) s).0 ≡ o
            → map_done
                (λ g. g.id)
                (answered api.is_blank api.group_of (record { id = ""; name = "" }) o)
              ≡ done id
            → view (api.send (post_group name) s).1 ≡ view s ++ record { id = id; name = name } ∷ []
        by_answer none e = λ k. cc k
        by_answer (some (status, body)) e = elim (Bool-cases (leb 400 status)) [
          | inl bad ↦ rw bad (λ k. cc k)
          | inr fine ↦
              let (full, i, reads, adds) = h.posted s name status body e fine in
              rw (fine, full, reads)
                (λ k. adds ∙ ap (λ j. view s ++ record { id = j; name = name } ∷ []) (cc k))
        ]

    -- The first call.
    found :
        (name id : String) (s : S)
        → (ensure_group api name s).0 ≡ done id
        → Named name id (view (ensure_group api name s).1)
    unfolding ensure_group
    found name id s =
        let (same, shown) = list_groups-shows s in
        elim shown [
          | inr (x, down) ↦ rw down (λ e. cc e)
          | inl up ↦ elim (Option-cases (group_named name (view s))) [
            | inr (j, there) ↦
                rw (up, there)
                  (λ e.
                    subst (Named name id) (sym same)
                      (group_named-Named name id (view s) (there ∙ ap some (cc e))))
            | inl nobody ↦
                rw (up, nobody)
                  (λ e. record {
                    before = view s;
                    after = [];
                    parts =
                        create_group-adds name id (list_groups api s).1 e
                        ∙ ap (λ l. l ++ record { id = id; name = name } ∷ []) same;
                    others = nobody_named name (view s) nobody;
                  })
          ]
        ]

    -- A call for a name that is there.
    repeated :
        (name id : String) (s : S)
        → Named name id (view s)
        → (view (ensure_group api name s).1 ≡ view s)
          × (((ensure_group api name s).0 ≡ done id)
              ⊎ ((x : ApiError) × ((ensure_group api name s).0 ≡ failed x)))
    unfolding ensure_group
    repeated name id s n =
        let (same, shown) = list_groups-shows s in
        let there : group_named name (view s) ≡ some id =
          ap (group_named name) n.parts ∙ Named-group_named name id n.before n.after n.others in
        elim shown [
          | inr (x, down) ↦ rw down (same, inr (x, refl))
          | inl up ↦ rw (up, there) (same, inl refl)
        ]

    -- After EnsureGroup has returned an id, the service holds a group of that name and id and none of
    -- that name before it. A second EnsureGroup of the name leaves the groups as they are, and
    -- returns the same id or fails. The service lists what it holds and puts a new group last.
    pub ensure_group-ensure_group :
        (name id : String) (s : S)
        → (ensure_group api name s).0 ≡ done id
        → Named name id (view (ensure_group api name s).1)
          × (view (ensure_group api name (ensure_group api name s).1).1
              ≡ view (ensure_group api name s).1)
          × (((ensure_group api name (ensure_group api name s).1).0 ≡ done id)
              ⊎ ((x : ApiError) × ((ensure_group api name (ensure_group api name s).1).0
                    ≡ failed x)))
    ensure_group-ensure_group name id s e =
        let n = found name id s e in
        let again = repeated name id (ensure_group api name s).1 n in (n, again.0, again.1)
