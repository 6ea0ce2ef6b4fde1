-- ===== src/Prelude/Sorting.antt =====
-- Stable sorting by a Boolean order, as `sorted` and ORDER BY do, and the first row in an order.
use mathlib.Core.Path.{◌≡◌, refl}
use mathlib.Core.Bool.{Bool, true, false, ◌||◌}
use mathlib.Core.Logic.{inl, inr}
use mathlib.Core.Option.{Option, none, some}
use mathlib.Core.List.{List, [], ◌∷◌}
use native.Mathlib.Omega.{arith}
use rfid_inventory_replenish.Prelude.Tests.{if◌then◌else◌, Bool-cases}
use rfid_inventory_replenish.Prelude.Lists.{All, All-imp}
use rfid_inventory_replenish.Prelude.Queries.{any, count_where}

module _ {ℓ} {A : Type ℓ} (before : A → A → Bool) where
  unfoldable pub insert_by : A → List A → List A
  insert_by x [] = x ∷ []
  insert_by x (y ∷ ys) = let rest = insert_by x ys in if before x y then x ∷ y ∷ ys else y ∷ rest

  -- ORDER BY `before`; elements that are equal in the order keep their places
  unfoldable pub sort_by : List A → List A
  sort_by [] = []
  sort_by (x ∷ xs) = insert_by x (sort_by xs)

module _ {ℓ} {A : Type ℓ} where
  abbrev pub head? : List A → Option A
  head? [] = none
  head? (x ∷ xs) = some x

  -- ORDER BY … LIMIT 1
  unfoldable pub first_by : (A → A → Bool) → List A → Option A
  first_by before xs = head? (sort_by before xs)

module _ {ℓ} {A : Type ℓ} (before : A → A → Bool) where
  any-insert_by :
      (p : A → Bool) (x : A) (xs : List A) → any p (insert_by before x xs) ≡ (p x || any p xs)
  unfolding any insert_by
  any-insert_by p x [] = refl
  any-insert_by p x (y ∷ ys) = ground (arith, any-insert_by p x ys)

  -- Sorting changes no test for existence.
  pub any-sort_by : (p : A → Bool) (xs : List A) → any p (sort_by before xs) ≡ any p xs
  unfolding any sort_by
  any-sort_by p [] = refl
  any-sort_by p (x ∷ xs) = ground (arith, any-insert_by p x (sort_by before xs), any-sort_by p xs)

  All-insert_by {κ} :
      (P : A → Type κ) (x : A) (xs : List A) → P x → All P xs → All P (insert_by before x xs)
  unfolding insert_by
  All-insert_by P x [] h hs = (h, tt)
  All-insert_by P x (y ∷ ys) h hs = elim (Bool-cases (before x y)) [
    | inl e ↦ rw e (h, hs)
    | inr e ↦ rw e (hs.0, All-insert_by P x ys h hs.1)
  ]

  pub All-sort_by {κ} : (P : A → Type κ) (xs : List A) → All P xs → All P (sort_by before xs)
  unfolding sort_by
  All-sort_by P [] h = tt
  All-sort_by P (x ∷ xs) h = All-insert_by P x (sort_by before xs) h.0 (All-sort_by P xs h.1)

  pub first_by-All {κ} :
      (P : A → Type κ) (xs : List A) (a : A) → All P xs → first_by before xs ≡ some a → P a
  unfolding first_by
  first_by-All P xs a h e = head?-All (sort_by before xs) (All-sort_by P xs h) e
    where
      head?-All : (l : List A) → All P l → head? l ≡ some a → P a
      head?-All [] all e = cc
      head?-All (x ∷ l) all e = let same : x ≡ a = ground arith in rw (← same) all.0

  -- Every element stands before all that follow it.
  abbrev pub IsSorted : List A → Type 0
  IsSorted [] = Unit
  IsSorted (x ∷ xs) = All (λ y. before x y ≡ true) xs × IsSorted xs

module _ {ℓ} {A : Type ℓ} (before : A → A → Bool)
    (total : (a b : A) → before a b ≡ false → before b a ≡ true)
    (trans : (a b c : A) → before a b ≡ true → before b c ≡ true → before a c ≡ true) where
  insert_by-IsSorted :
      (x : A) (xs : List A) → IsSorted before xs → IsSorted before (insert_by before x xs)
  unfolding insert_by
  insert_by-IsSorted x [] h = (tt, tt)
  insert_by-IsSorted x (y ∷ ys) h = elim (Bool-cases (before x y)) [
    | inl e ↦ rw e (
      (e, All-imp (λ z. before y z ≡ true) (λ z. before x z ≡ true) (λ z. trans x y z e) ys h.0),
      h,
    )
    | inr e ↦ rw e (
      All-insert_by before (λ z. before y z ≡ true) x ys (total x y e) h.0,
      insert_by-IsSorted x ys h.1,
    )
  ]

  pub sort_by-IsSorted : (xs : List A) → IsSorted before (sort_by before xs)
  unfolding sort_by
  sort_by-IsSorted [] = tt
  sort_by-IsSorted (x ∷ xs) = insert_by-IsSorted x (sort_by before xs) (sort_by-IsSorted xs)

module _ {ℓ} {A : Type ℓ} (before : A → A → Bool) (p : A → Bool) where
  count_where-insert_by :
      (x : A) (xs : List A) → count_where p (insert_by before x xs) ≡ count_where p (x ∷ xs)
  unfolding insert_by count_where
  count_where-insert_by x [] = refl
  count_where-insert_by x (y ∷ ys) = ground (arith, count_where-insert_by x ys)

  -- Sorting loses and repeats nothing.
  pub count_where-sort_by : (xs : List A) → count_where p (sort_by before xs) ≡ count_where p xs
  unfolding sort_by count_where
  count_where-sort_by [] = refl
  count_where-sort_by (x ∷ xs) =
      ground (arith, count_where-insert_by x (sort_by before xs), count_where-sort_by xs)

module _ {ℓ κ} {A : Type ℓ} (before : A → A → Bool) (P : A → Type κ) where
  pub All-of_insert_by : (x : A) (xs : List A) → All P (insert_by before x xs) → P x × All P xs
  unfolding insert_by
  All-of_insert_by x [] h = (h.0, tt)
  All-of_insert_by x (y ∷ ys) h = elim (Bool-cases (before x y)) [
    | inl e ↦ let h' = rw (e, insert_by) at h in (h'.0, h'.1)
    | inr e ↦
        let h' = rw (e, insert_by) at h in
        let (p, all) = All-of_insert_by x ys h'.1 in (p, (h'.0, all))
  ]

  pub All-of_sort_by : (xs : List A) → All P (sort_by before xs) → All P xs
  unfolding sort_by
  All-of_sort_by [] h = tt
  All-of_sort_by (x ∷ xs) h =
      let (p, all) = All-of_insert_by x (sort_by before xs) h in (p, All-of_sort_by xs all)
