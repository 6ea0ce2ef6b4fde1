-- ===== src/Prelude/Queries.antt =====
-- Queries on a table, which is a list of rows: the rows that a predicate selects, the first of
-- them, tests over all rows, and the update of the rows that a predicate selects.
use mathlib.Core.Path.{◌≡◌, refl, ap}
use mathlib.Core.Logic.{◌≢◌, inl, inr}
use mathlib.Core.Bool.{Bool, true, false, ◌&&◌, ◌||◌}
use mathlib.Core.Option.{Option, none, some}
use mathlib.Core.List.{List, [], ◌∷◌, ◌++◌}
use native.Mathlib.Omega.{arith}
use rfid_inventory_replenish.Prelude.Tests.{if◌then◌else◌, Bool-cases}
use rfid_inventory_replenish.Prelude.Lists.{length, All}
use Prim.Native.Nat.{ℕ, suc, ◌≤◌}

module _ {ℓ} {A : Type ℓ} where
  -- SELECT … WHERE p
  unfoldable pub select : (A → Bool) → List A → List A
  select p [] = []
  select p (x ∷ xs) = let rest = select p xs in if p x then x ∷ rest else rest

  -- SELECT … WHERE p LIMIT 1
  unfoldable pub find : (A → Bool) → List A → Option A
  find p [] = none
  find p (x ∷ xs) = if p x then some x else find p xs

  unfoldable pub any : (A → Bool) → List A → Bool
  any p [] = false
  any p (x ∷ xs) = p x || any p xs

  unfoldable pub all : (A → Bool) → List A → Bool
  all p [] = true
  all p (x ∷ xs) = p x && all p xs

  -- UPDATE … SET f WHERE p
  unfoldable pub update_where : (A → Bool) → (A → A) → List A → List A
  update_where p f [] = []
  update_where p f (x ∷ xs) = (if p x then f x else x) ∷ update_where p f xs

  -- SELECT count(*) WHERE p
  unfoldable pub count_where : (A → Bool) → List A → ℕ
  count_where p [] = 0
  count_where p (x ∷ xs) = let n = count_where p xs in if p x then suc n else n

module _ {ℓ} {A : Type ℓ} (p : A → Bool) where
  pub All-select : (xs : List A) → All (λ x. p x ≡ true) (select p xs)
  unfolding select
  All-select [] = tt
  All-select (x ∷ xs) = elim (Bool-cases (p x)) [
    | inl e ↦ rw e (e, All-select xs)
    | inr e ↦ rw e (All-select xs)
  ]

  pub All-select_keep {κ} : (P : A → Type κ) (xs : List A) → All P xs → All P (select p xs)
  unfolding select
  All-select_keep P [] h = tt
  All-select_keep P (x ∷ xs) h = elim (Bool-cases (p x)) [
    | inl e ↦ rw e (h.0, All-select_keep P xs h.1)
    | inr e ↦ rw e (All-select_keep P xs h.1)
  ]

  pub find-some : (xs : List A) (a : A) → find p xs ≡ some a → p a ≡ true
  unfolding find
  find-some [] a h = cc
  find-some (x ∷ xs) a h = elim (Bool-cases (p x)) [
    | inl e ↦ ground arith
    | inr e ↦ find-some xs a (ground arith)
  ]

  pub find-All {κ} : (P : A → Type κ) (xs : List A) (a : A) → All P xs → find p xs ≡ some a → P a
  unfolding find
  find-All P [] a h e = cc
  find-All P (x ∷ xs) a h e = elim (Bool-cases (p x)) [
    | inl q ↦ let same : x ≡ a = ground arith in rw (← same) h.0
    | inr q ↦ find-All P xs a h.1 (ground arith)
  ]

  pub find-none : (xs : List A) → find p xs ≡ none → All (λ x. p x ≡ false) xs
  unfolding find
  find-none [] h = tt
  find-none (x ∷ xs) h = elim (Bool-cases (p x)) [
    | inl e ↦ cc
    | inr e ↦ (e, find-none xs (ground arith))
  ]

  pub all-All : (xs : List A) → all p xs ≡ true → All (λ x. p x ≡ true) xs
  unfolding all
  all-All [] h = tt
  all-All (x ∷ xs) h = (ground arith, all-All xs (ground arith))

  pub any-All : (xs : List A) → any p xs ≡ false → All (λ x. p x ≡ false) xs
  unfolding any
  any-All [] h = tt
  any-All (x ∷ xs) h = (ground arith, any-All xs (ground arith))

  pub length-update_where : (f : A → A) (xs : List A) → length (update_where p f xs) ≡ length xs
  unfolding update_where
  length-update_where f [] = refl
  length-update_where f (x ∷ xs) = ap suc (length-update_where f xs)

  pub All-update_where {κ μ} :
      (P : A → Type κ) (Q : A → Type μ) (f : A → A)
      → ((a : A) → P a → p a ≡ true → Q (f a))
      → ((a : A) → P a → p a ≡ false → Q a)
      → (xs : List A) → All P xs
      → All Q (update_where p f xs)
  unfolding update_where
  All-update_where P Q f hit miss [] h = tt
  All-update_where P Q f hit miss (x ∷ xs) h = elim (Bool-cases (p x)) [
    | inl e ↦ rw e (hit x h.0 e, All-update_where P Q f hit miss xs h.1)
    | inr e ↦ rw e (miss x h.0 e, All-update_where P Q f hit miss xs h.1)
  ]

  -- An update that meets no row changes nothing.
  pub update_where_none :
      (f : A → A) (xs : List A) → All (λ x. p x ≡ false) xs → update_where p f xs ≡ xs
  unfolding update_where
  update_where_none f [] h = refl
  update_where_none f (x ∷ xs) h = rw h.0 (ap (◌∷◌ x) (update_where_none f xs h.1))

  pub length-select-le : (xs : List A) → length (select p xs) ≤ length xs
  unfolding select
  length-select-le [] = omega arith
  length-select-le (x ∷ xs) = ground (arith, length-select-le xs)

module _ {ℓ} {A : Type ℓ} (p q : A → Bool) (f : A → A) where
  -- A row that the UPDATE changed is found by what the new row satisfies.
  pub find-update_where :
      ((a : A) → p a ≡ true → q (f a) ≡ true)
      → (xs : List A) → count_where p xs ≢ 0
      → (a : A) × (find q (update_where p f xs) ≡ some a)
  unfolding find update_where count_where
  find-update_where keep [] h = absurd (h refl)
  find-update_where keep (x ∷ xs) h = elim (Bool-cases (p x)) [
    | inl e ↦ (f x, rw (e, keep x e))
    | inr e ↦ elim (Bool-cases (q x)) [
      | inl here ↦ (x, rw (e, here))
      | inr there ↦
          let (a, found) = find-update_where keep xs (λ z. h (rw e z)) in (a, rw (e, there) found)
    ]
  ]

module _ {ℓ} {A : Type ℓ} (p : A → Bool) where
  pub count_where_none : (xs : List A) → All (λ x. p x ≡ false) xs → count_where p xs ≡ 0
  unfolding count_where
  count_where_none [] h = refl
  count_where_none (x ∷ xs) h = ground (arith, count_where_none xs h.1)

  -- What holds of each changed row and of each row left alone holds of the new table.
  pub update_where-All {κ} :
      (P : A → Type κ) (f : A → A)
      → ((a : A) → p a ≡ true → P (f a))
      → ((a : A) → p a ≡ false → P a)
      → (xs : List A) → All P (update_where p f xs)
  unfolding update_where
  update_where-All P f hit miss [] = tt
  update_where-All P f hit miss (x ∷ xs) = elim (Bool-cases (p x)) [
    | inl e ↦ rw e (hit x e, update_where-All P f hit miss xs)
    | inr e ↦ rw e (miss x e, update_where-All P f hit miss xs)
  ]

  pub find_of_none : (xs : List A) → All (λ x. p x ≡ false) xs → find p xs ≡ none
  unfolding find
  find_of_none [] h = refl
  find_of_none (x ∷ xs) h = rw h.0 (find_of_none xs h.1)

  pub any_of_none : (xs : List A) → All (λ x. p x ≡ false) xs → any p xs ≡ false
  unfolding any
  any_of_none [] h = refl
  any_of_none (x ∷ xs) h = ground (arith, any_of_none xs h.1)

  pub select-append : (xs ys : List A) → select p (xs ++ ys) ≡ select p xs ++ select p ys
  unfolding select
  select-append [] ys = refl
  select-append (x ∷ xs) ys = elim (Bool-cases (p x)) [
    | inl e ↦ rw e (ap (◌∷◌ x) (select-append xs ys))
    | inr e ↦ rw e (select-append xs ys)
  ]

  pub select_of_none : (xs : List A) → All (λ x. p x ≡ false) xs → select p xs ≡ []
  unfolding select
  select_of_none [] h = refl
  select_of_none (x ∷ xs) h = rw h.0 (select_of_none xs h.1)

  -- A first selection that keeps what the second wants changes nothing.
  pub select-select :
      (q : A → Bool) (xs : List A)
      → ((a : A) → p a ≡ true → q a ≡ true)
      → select p (select q xs) ≡ select p xs
  unfolding select
  select-select q [] keep = refl
  select-select q (x ∷ xs) keep = elim (Bool-cases (q x)) [
    | inl e ↦ elim (Bool-cases (p x)) [
      | inl f ↦ rw (e, f) (ap (◌∷◌ x) (select-select q xs keep))
      | inr f ↦ rw (e, f) (select-select q xs keep)
    ]
    | inr e ↦ elim (Bool-cases (p x)) [
      | inl f ↦ absurd (ground (arith, keep x f))
      | inr f ↦ rw (e, f) (select-select q xs keep)
    ]
  ]

  pub select-congr :
      (q : A → Bool) (xs : List A) → All (λ x. p x ≡ q x) xs → select p xs ≡ select q xs
  unfolding select
  select-congr q [] h = refl
  select-congr q (x ∷ xs) h = rw (h.0, select-congr q xs h.1)

module _ {ℓ} {A : Type ℓ} (p q : A → Bool) where
  pub any-imp :
      ((a : A) → p a ≡ true → q a ≡ true) → (xs : List A) → any p xs ≡ true → any q xs ≡ true
  unfolding any
  any-imp imp [] h = h
  any-imp imp (x ∷ xs) h = ground (arith, imp x, any-imp imp xs)
