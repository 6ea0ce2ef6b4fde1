-- ===== src/Policy/Overlap.antt =====
-- Overlapping rules, and why rules without an overlap are never ambiguous.
use rfid_inventory_replenish.Prelude.{
  ℕ, Apart, ◌≤◌, ◌≡◌, ◌≢◌, refl, ◌↔◌, inl, inr, Bool, true, false, ◌&&◌, none, some, List, [], ◌∷◌,
  arith, All, find, find-none, find_of_none, count_where, count_where-sort_by, sort_by, ℤ, eq_ℤ,
  ◌==◌, Bool-cases, Option-cases,
}
use rfid_inventory_replenish.Domain.{Uuid, Text}
use rfid_inventory_replenish.Policy.Rules.{
  RuleDescriptor, SkuContext, Candidate, ambiguous, choose, ranks_before, rule_precedence,
  rules_overlap, first_overlap, candidates, select_policy_rule,
}

choose_ambiguous :
    (l : List Candidate)
    → choose l ≡ ambiguous
    → (p : ℕ) × (priority : ℤ) × (2
        ≤ count_where (λ (c : Candidate). c.precedence == p && eq_ℤ c.priority priority) l)
unfolding choose count_where
choose_ambiguous (best ∷ second ∷ rest) h = (best.precedence, best.priority, ground arith)
choose_ambiguous (best ∷ []) h = absurd (ground arith)
choose_ambiguous [] h = absurd (ground arith)

module _ (casefold : Text → Text) where
  -- To overlap does not depend on the order of the two rules.
  pub rules_overlap_comm :
      (left right : RuleDescriptor)
      → rules_overlap casefold left right ≡ rules_overlap casefold right left
  unfolding rules_overlap
  rules_overlap_comm left right = ground arith

  -- Two rules that match one SKU at one store with the same precedence and priority overlap.
  pub precedence-overlap :
      (left right : RuleDescriptor) (store_id : Uuid) (item : SkuContext) (p : ℕ)
      → rule_precedence casefold left store_id item ≡ some p
      → rule_precedence casefold right store_id item ≡ some p
      → eq_ℤ left.priority right.priority ≡ true
      → rules_overlap casefold left right ≡ true
  unfolding rules_overlap rule_precedence
  precedence-overlap left right store_id item p h k e = ground arith

  -- The nested loops find an overlap exactly where there is one.
  pub first_overlap-Apart :
      (rules : List RuleDescriptor)
      → first_overlap casefold rules ≡ none ↔ Apart (rules_overlap casefold) rules
  unfolding first_overlap
  first_overlap-Apart [] = (λ h. tt, λ h. refl)
  first_overlap-Apart (rule ∷ rules) =
      let (there, back) = first_overlap-Apart rules in
      (
        λ h. elim (Option-cases (find (rules_overlap casefold rule) rules)) [
          | inl clear ↦ (find-none (rules_overlap casefold rule) rules clear, there (ground arith))
          | inr (right, hit) ↦ absurd (ground arith)
        ],
        λ h. rw (find_of_none (rules_overlap casefold rule) rules h.0, first_overlap) (back h.1),
      )

  abbrev has_rank : ℕ → ℤ → Candidate → Bool
  has_rank p priority c = c.precedence == p && eq_ℤ c.priority priority

  module _ (store_id : Uuid) (item : SkuContext) where
    -- Rules that do not overlap a candidate have none of its rank among them.
    no_tie :
        (rule : RuleDescriptor) (p : ℕ) (priority : ℤ)
        → rule_precedence casefold rule store_id item ≡ some p
        → eq_ℤ rule.priority priority ≡ true
        → (rules : List RuleDescriptor)
        → All (λ other. rules_overlap casefold rule other ≡ false) rules
        → count_where (has_rank p priority) (candidates casefold store_id item rules) ≡ 0
    unfolding candidates count_where
    no_tie rule p priority h e [] apart = refl
    no_tie rule p priority h e (other ∷ rules) apart =
        elim (Option-cases (rule_precedence casefold other store_id item)) [
          | inl misses ↦ ground (arith, no_tie rule p priority h e rules apart.1)
          | inr (q, matches) ↦
              elim (Bool-cases (
                has_rank p priority
                  (record { precedence = q; priority = other.priority; rule = other }))) [
                    | inl tie ↦
                        absurd (ground (arith, precedence-overlap rule other store_id item p h))
                    | inr differs ↦ ground (arith, no_tie rule p priority h e rules apart.1)
                  ]
        ]

    -- Among rules that are apart, no rank is shared.
    rank_once :
        (p : ℕ) (priority : ℤ) (rules : List RuleDescriptor)
        → Apart (rules_overlap casefold) rules
        → count_where (has_rank p priority) (candidates casefold store_id item rules) ≤ 1
    unfolding candidates count_where
    rank_once p priority [] apart = omega arith
    rank_once p priority (rule ∷ rules) apart =
        elim (Option-cases (rule_precedence casefold rule store_id item)) [
          | inl misses ↦ ground (arith, rank_once p priority rules apart.1)
          | inr (q, matches) ↦
              elim (Bool-cases (
                has_rank p priority
                  (record { precedence = q; priority = rule.priority; rule = rule }))) [
                    | inl ranked ↦
                        ground (
                          arith,
                          no_tie rule p priority (ground arith) (ground arith) rules apart.0,
                        )
                    | inr other ↦ ground (arith, rank_once p priority rules apart.1)
                  ]
        ]

  -- Rules of which no two overlap never leave the choice ambiguous, for any SKU at any store.
  pub select_policy_rule-ne-ambiguous :
      (rules : List RuleDescriptor) (store_id : Uuid) (item : SkuContext)
      → first_overlap casefold rules ≡ none
      → select_policy_rule casefold rules store_id item ≢ ambiguous
  unfolding select_policy_rule
  select_policy_rule-ne-ambiguous rules store_id item clear h =
      let found = candidates casefold store_id item rules in
      let (p, priority, twice) = choose_ambiguous (sort_by ranks_before found) h in
      omega (
        arith,
        count_where-sort_by ranks_before (has_rank p priority) found,
        twice,
        rank_once store_id item p priority rules ((first_overlap-Apart rules).0 clear),
      )
