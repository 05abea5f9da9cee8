-- ===== src/WebShell/Strictest.antt =====
-- The decision of `Match` in server/internal/webshell/filter.go is the strictest that any rule in
-- force asks for, and among equally strict rules the first one's.
use yusui.Prelude.{
  ℕ, ◌≤◌, ◌<◌, ◌≡◌, refl, sym, ap, subst, Bool, true, ◌&&◌, List, [], ◌∷◌, ◌++◌, if◌then◌else◌, ltb,
  arith, ◌⊎◌, inl, inr, All, Bool-cases,
}
use yusui.WebShell.Filter.{
  sev_rank, Source, web, api, Rule, Decision, Ruleset, pass, decision_of, eval, matched,
}

-- The rules that a source is under.
abbrev pub in_force : {Re : Type 0} → Ruleset Re → Source → List (Rule Re)
in_force rs web = rs.base
in_force rs api = rs.base ++ rs.ai

module _ {Re : Type 0} (match_string : Re → List ℕ → Bool) where
  -- No rule before it that matches is as strict as the one that decided.
  pub record Decides (line : List ℕ) (rules : List (Rule Re)) (low : ℕ) (d : Decision)
      : Type 0 where
    pub before : List (Rule Re)
    pub rule : Rule Re
    pub rest : List (Rule Re)
    pub split : rules ≡ before ++ rule ∷ rest
    pub hit : match_string rule.re line ≡ true
    pub above : low < sev_rank rule.severity
    pub decided : d ≡ decision_of rule
    pub first :
        All
          (λ q. match_string q.re line ≡ true → sev_rank q.severity < sev_rank rule.severity)
          before

  pub record Strictest (line : List ℕ) (rules : List (Rule Re)) (d : Decision) : Type 0 where
    pub bound :
        All (λ r. match_string r.re line ≡ true → sev_rank r.severity ≤ sev_rank d.severity) rules
    pub origin : (d ≡ pass) ⊎ Decides line rules 0 d

  module _ (line : List ℕ) where
    eval-grows :
        (d : Decision) (rules : List (Rule Re))
        → sev_rank d.severity ≤ sev_rank (eval match_string line d rules).severity
    unfolding eval
    eval-grows d [] = omega arith
    eval-grows d (r ∷ rules) =
        elim (Bool-cases
          (match_string r.re line && ltb (sev_rank d.severity) (sev_rank r.severity))) [
            | inl up ↦
                rw (up, eval)
                  (let h = eval-grows (decision_of r) rules in
                    let l : sev_rank d.severity < sev_rank r.severity = ground (arith, up) in
                    omega (arith, h, l))
            | inr keep ↦ rw (keep, eval) (eval-grows d rules)
          ]

    eval-bound :
        (d : Decision) (rules : List (Rule Re))
        → All
            (λ r.
              match_string r.re line ≡ true
              → sev_rank r.severity ≤ sev_rank (eval match_string line d rules).severity)
            rules
    unfolding eval
    eval-bound d [] = tt
    eval-bound d (r ∷ rules) =
        elim (Bool-cases
          (match_string r.re line && ltb (sev_rank d.severity) (sev_rank r.severity))) [
            | inl up ↦
                subst Bounded (ap (λ b. if b then decision_of r else d) (sym up))
                  ((λ _. eval-grows (decision_of r) rules), eval-bound (decision_of r) rules)
            | inr keep ↦ subst Bounded (ap (λ b. if b then decision_of r else d) (sym keep)) (
              (λ hit.
                  let l : sev_rank r.severity ≤ sev_rank d.severity = ground (arith, keep, hit) in
                  let h = eval-grows d rules in omega (arith, h, l)),
              eval-bound d rules,
            )
          ]
      where
        Bounded : Decision → Type 0
        Bounded x =
            All
              (λ q.
                match_string q.re line ≡ true
                → sev_rank q.severity ≤ sev_rank (eval match_string line x rules).severity)
              (r ∷ rules)

    later :
        (r : Rule Re) (rules : List (Rule Re)) (low low' : ℕ) (d : Decision)
        → low ≤ low'
        → (match_string r.re line ≡ true → sev_rank r.severity ≤ low')
        → Decides line rules low' d
        → Decides line (r ∷ rules) low d
    later r rules low low' d l bound h = record {
      before = r ∷ h.before;
      rule = h.rule;
      rest = h.rest;
      split = ap (λ l. r ∷ l) h.split;
      hit = h.hit;
      above = omega (arith, l, h.above);
      decided = h.decided;
      first = ((λ hit. omega (arith, bound hit, h.above)), h.first);
    }

    eval-origin :
        (d : Decision) (rules : List (Rule Re))
        → (eval match_string line d rules ≡ d)
          ⊎ Decides line rules (sev_rank d.severity) (eval match_string line d rules)
    unfolding eval
    eval-origin d [] = inl refl
    eval-origin d (r ∷ rules) =
        elim (Bool-cases
          (match_string r.re line && ltb (sev_rank d.severity) (sev_rank r.severity))) [
            | inl up ↦
                rw (up, eval)
                  (raised (ground (arith, up)) (ground (arith, up))
                    (eval-origin (decision_of r) rules))
            | inr keep ↦
                rw (keep, eval) (kept (λ hit. ground (arith, keep, hit)) (eval-origin d rules))
          ]
      where
        raised :
            match_string r.re line ≡ true
            → sev_rank d.severity < sev_rank r.severity
            → (eval match_string line (decision_of r) rules ≡ decision_of r)
              ⊎ Decides line rules
                  (sev_rank r.severity)
                  (eval match_string line (decision_of r) rules)
            → (eval match_string line (decision_of r) rules ≡ d)
              ⊎ Decides line
                  (r ∷ rules)
                  (sev_rank d.severity)
                  (eval match_string line (decision_of r) rules)
        raised hit l (inl same) = inr (record {
          before = [];
          rule = r;
          rest = rules;
          split = refl;
          hit = hit;
          above = l;
          decided = same;
          first = tt;
        })
        raised hit l (inr h) = inr (later r rules _ _ _ (omega (arith, l)) (λ _. omega arith) h)

        kept :
            (match_string r.re line ≡ true → sev_rank r.severity ≤ sev_rank d.severity)
            → (eval match_string line d rules ≡ d)
              ⊎ Decides line rules (sev_rank d.severity) (eval match_string line d rules)
            → (eval match_string line d rules ≡ d)
              ⊎ Decides line (r ∷ rules) (sev_rank d.severity) (eval match_string line d rules)
        kept bound (inl same) = inl same
        kept bound (inr h) = inr (later r rules _ _ _ (omega arith) bound h)

    eval-append :
        (xs ys : List (Rule Re)) (d : Decision)
        → eval match_string line d (xs ++ ys)
          ≡ eval match_string line (eval match_string line d xs) ys
    unfolding eval
    eval-append [] ys d = refl
    eval-append (x ∷ xs) ys d = eval-append xs ys _

    eval-Strictest :
        (rules : List (Rule Re)) → Strictest line rules (eval match_string line pass rules)
    unfolding sev_rank
    eval-Strictest rules = record { bound = eval-bound pass rules; origin = eval-origin pass rules }

  -- The decision on a line is at least as strict as every rule in force that matches it. It is the
  -- pass, or else that of the first matching rule of its severity; the AI rules count for the
  -- source "api" alone.
  pub matched-Strictest :
      (rs : Ruleset Re) (line : List ℕ) (source : Source)
      → Strictest line (in_force rs source) (matched match_string rs line source)
  unfolding matched
  matched-Strictest rs line web = eval-Strictest line rs.base
  matched-Strictest rs line api =
      subst (Strictest line (rs.base ++ rs.ai)) (eval-append line rs.base rs.ai pass)
        (eval-Strictest line (rs.base ++ rs.ai))
