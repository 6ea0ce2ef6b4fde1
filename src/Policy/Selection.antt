-- ===== src/Policy/Selection.antt =====
-- The rule that `select_policy_rule` returns is the single best match.
use rfid_inventory_replenish.Prelude.{
  ℕ, ◌<◌, ◌≡◌, refl, sym, subst, ◌∙◌, ◌⊎◌, inl, inr, true, false, not, ◌&&◌, ◌||◌, Option, none,
  some, List, [], ◌∷◌, arith, All, All-imp, In, All-sort_by, All-of_sort_by, IsSorted,
  sort_by-IsSorted, count_where, count_where_none, count_where-sort_by, sort_by, ℤ, ◌≤ℤ◌, ◌==◌, ltb,
  ltb_ℤ, All-of_In, Option-cases,
}
use rfid_inventory_replenish.Domain.{Uuid, Text}
use rfid_inventory_replenish.Policy.Rules.{
  RuleDescriptor, SkuContext, Candidate, chosen, no_rule, same_rank, choose, ranks_before,
  rule_precedence, candidates, select_policy_rule,
}

ranks_total : (a b : Candidate) → ranks_before a b ≡ false → ranks_before b a ≡ true
unfolding ranks_before
ranks_total a b h = ground arith

ranks_trans :
    (a b c : Candidate)
    → ranks_before a b ≡ true
    → ranks_before b c ≡ true
    → ranks_before a c ≡ true
unfolding ranks_before
ranks_trans a b c h k = ground arith

ranks_refl : (a : Candidate) → ranks_before a a ≡ true
unfolding ranks_before
ranks_refl a = ground arith

-- A tie with the best would be with the second.
below_second :
    (best second c : Candidate)
    → ranks_before best second ≡ true
    → same_rank second best ≡ false
    → ranks_before second c ≡ true
    → ranks_before c best ≡ false
unfolding ranks_before
below_second best second c h k l = ground arith

rank_order :
    (best : Candidate) (q : ℕ) (other : RuleDescriptor)
    → ranks_before best (record { precedence = q; priority = other.priority; rule = other }) ≡ true
    → (q < best.precedence) ⊎ ((q ≡ best.precedence) × (other.priority ≤ℤ best.priority))
unfolding ranks_before
rank_order best q other h = ground arith

-- The candidates that rank at least as high as `best`.
abbrev rivals : Candidate → List Candidate → ℕ
rivals best = count_where (λ c. ranks_before c best)

rivals_none :
    (best : Candidate) (l : List Candidate)
    → All (λ c. ranks_before c best ≡ false) l
    → rivals best (best ∷ l) ≡ 1
unfolding ranks_before count_where
rivals_none best l h = ground (arith, count_where_none (λ c. ranks_before c best) l h)

-- What `choose` returns of a sorted list: the first candidate, which ranks strictly before the
-- others.
choose_chosen :
    (l : List Candidate) {rule : RuleDescriptor}
    → IsSorted ranks_before l
    → choose l ≡ chosen rule
    → (best : Candidate) × (best.rule ≡ rule)
      × ((P : Candidate → Type 0) → All P l → P best)
      × All (λ c. ranks_before best c ≡ true) l
      × (rivals best l ≡ 1)
unfolding choose
choose_chosen [] s h = cc
choose_chosen (best ∷ []) s h =
    (best, ground arith, λ P all. all.0, (ranks_refl best, tt), rivals_none best [] tt)
choose_chosen (best ∷ second ∷ rest) s h =
    let apart : same_rank second best ≡ false = ground arith in
    (
      best,
      ground arith,
      λ P all. all.0,
      (ranks_refl best, s.0),
      rivals_none best (second ∷ rest) (
        below_second best second second s.0.0 apart (ranks_refl second),
        All-imp (λ c. ranks_before second c ≡ true) (λ c. ranks_before c best ≡ false)
            (λ c. below_second best second c s.0.0 apart) rest s.1.0,
      ),
    )

choose_no_rule : (l : List Candidate) → choose l ≡ no_rule → l ≡ []
unfolding choose
choose_no_rule [] h = refl
choose_no_rule (best ∷ []) h = cc
choose_no_rule (best ∷ second ∷ rest) h = absurd (ground arith)

module _ (casefold : Text → Text) (store_id : Uuid) (item : SkuContext) where
  abbrev pub precedence : RuleDescriptor → Option ℕ
  precedence rule = rule_precedence casefold rule store_id item

  -- What holds of a candidate of each matching rule.
  abbrev AsCandidate : (Candidate → Type 0) → RuleDescriptor → Type 0
  AsCandidate P rule =
      (q : ℕ)
      → precedence rule ≡ some q
      → P (record { precedence = q; priority = rule.priority; rule = rule })

  All-candidates :
      (P : Candidate → Type 0) (rules : List RuleDescriptor)
      → All (AsCandidate P) rules
      → All P (candidates casefold store_id item rules)
  unfolding candidates
  All-candidates P [] h = tt
  All-candidates P (rule ∷ rules) h = elim (Option-cases (precedence rule)) [
    | inl e ↦ rw (e, candidates) (All-candidates P rules h.1)
    | inr (q, e) ↦ rw (e, candidates) (h.0 q e, All-candidates P rules h.1)
  ]

  All-of_candidates :
      (P : Candidate → Type 0) (rules : List RuleDescriptor)
      → All P (candidates casefold store_id item rules)
      → All (AsCandidate P) rules
  unfolding candidates
  All-of_candidates P [] h = tt
  All-of_candidates P (rule ∷ rules) h = elim (Option-cases (precedence rule)) [
    | inl e ↦ (λ q e'. absurd (ground arith), All-of_candidates P rules (rw (e, candidates) at h))
    | inr (q, e) ↦
        let h' = rw (e, candidates) at h in
        (
          λ q' e'. let same : q ≡ q' = ground arith in rw (← same) h'.0,
          All-of_candidates P rules h'.1,
        )
  ]

  -- A candidate is one of the rules, with its precedence and priority.
  abbrev IsFrom : List RuleDescriptor → Candidate → Type 0
  IsFrom rules c =
      In c.rule rules × (precedence c.rule ≡ some c.precedence) × (c.priority ≡ c.rule.priority)

  -- The rules that match with at least the given rank.
  pub at_least : ℕ → ℤ → List RuleDescriptor → ℕ
  at_least p priority = count_where (λ rule. elim (precedence rule) [
    | none ↦ false
    | some q ↦ ltb p q || (q == p && not (ltb_ℤ rule.priority priority))
  ])

  at_least-rivals :
      (best : Candidate) (rules : List RuleDescriptor)
      → at_least best.precedence best.priority rules
        ≡ rivals best (candidates casefold store_id item rules)
  unfolding at_least candidates count_where ranks_before
  at_least-rivals best [] = refl
  at_least-rivals best (rule ∷ rules) = ground (arith, at_least-rivals best rules)

  -- `other` does not match with a higher precedence than `p`, or with `p` and a higher priority.
  abbrev pub Below : ℕ → RuleDescriptor → RuleDescriptor → Type 0
  Below p rule other =
      (q : ℕ) → precedence other ≡ some q → (q < p) ⊎ ((q ≡ p) × (other.priority ≤ℤ rule.priority))

  abbrev pub IsBest : List RuleDescriptor → ℕ → RuleDescriptor → Type 0
  IsBest rules p rule =
      (precedence rule ≡ some p)
      × In rule rules
      × All (Below p rule) rules
      × (at_least p rule.priority rules ≡ 1)

  -- The rule that is chosen is one of the rules and matches; no matching rule has a higher
  -- precedence, or the same precedence and a higher priority; and it is the only rule with its
  -- precedence and priority.
  pub select_policy_rule-chosen :
      (rules : List RuleDescriptor) {rule : RuleDescriptor}
      → select_policy_rule casefold rules store_id item ≡ chosen rule
      → (p : ℕ) × (IsBest rules p rule)
  unfolding select_policy_rule
  select_policy_rule-chosen rules h =
      let found = candidates casefold store_id item rules in
      let (best, same, first, top, single) =
        choose_chosen (sort_by ranks_before found)
          (sort_by-IsSorted ranks_before ranks_total ranks_trans found) h in
      let from : All (IsFrom rules) found =
        All-candidates (IsFrom rules) rules (All-of_In _ rules (λ a i q e. (i, e, refl))) in
      let (member, matches, priority) =
        first (IsFrom rules) (All-sort_by ranks_before (IsFrom rules) found from) in
      let above =
        All-of_candidates (λ c. ranks_before best c ≡ true) rules
          (All-of_sort_by ranks_before (λ c. ranks_before best c ≡ true) found top) in
      (
        best.precedence,
        subst (λ r. IsBest rules best.precedence r) same
            (
              matches,
              member,
              All-imp (AsCandidate (λ c. ranks_before best c ≡ true))
                  (Below best.precedence best.rule)
                  (λ other below q e.
                    let order = rank_order best q other (below q e) in rw (← priority) order)
                  rules above,
              rw (← priority) (
                  at_least-rivals best rules
                  ∙ sym (count_where-sort_by ranks_before _ found)
                  ∙ single),
            ),
      )

  -- Where the choice returns no rule, no rule matches the SKU at the store.
  pub select_policy_rule-no_rule :
      (rules : List RuleDescriptor)
      → select_policy_rule casefold rules store_id item ≡ no_rule
      → All (λ rule. precedence rule ≡ none) rules
  unfolding select_policy_rule
  select_policy_rule-no_rule rules h =
      let found = candidates casefold store_id item rules in
      let empty = choose_no_rule (sort_by ranks_before found) h in
      let nothing : All (λ c. ⊥) (sort_by ranks_before found) = rw empty tt in
      All-imp (AsCandidate (λ c. ⊥)) (λ rule. precedence rule ≡ none)
        (λ rule no_match. elim (Option-cases (precedence rule)) [
          | inl e ↦ e
          | inr (q, e) ↦ absurd (no_match q e)
        ])
        rules
        (All-of_candidates (λ c. ⊥) rules (All-of_sort_by ranks_before (λ c. ⊥) found nothing))
