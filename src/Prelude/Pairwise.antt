-- ===== src/Prelude/Pairwise.antt =====
-- Lists of which no two elements clash, by a symmetric Boolean relation.
use mathlib.Core.Path.{◌≡◌, ap}
use mathlib.Core.Logic.{◌⊎◌, ◌↔◌, inl, inr}
use mathlib.Core.Bool.{Bool, true, false}
use mathlib.Core.List.{List, [], ◌∷◌, map}
use mathlib.Core.Option.{some}
use Prim.Native.Nat.{ℕ, ◌≤◌}
use native.Mathlib.Omega.{arith}
use rfid_inventory_replenish.Prelude.Tests.{Bool-cases, ◌==◌}
use rfid_inventory_replenish.Prelude.Lists.{All, All-imp, All-In, All-of_In}
use rfid_inventory_replenish.Prelude.Queries.{select, find, find-All, count_where, count_where_none}
use rfid_inventory_replenish.Prelude.Sorting.{insert_by, sort_by, All-of_sort_by, All-of_insert_by}

module _ {A : Type 0} where
  pub All-where :
      (P : A → Type 0) (p : A → Bool) (xs : List A)
      → All P (select p xs)
      → All (λ x. p x ≡ true → P x) xs
  unfolding select
  All-where P p [] h = tt
  All-where P p (x ∷ xs) h = elim (Bool-cases (p x)) [
    | inl e ↦ let h' = rw (e, select) at h in (λ _. h'.0, All-where P p xs h'.1)
    | inr e ↦ let h' = rw (e, select) at h in (λ e'. absurd (ground arith), All-where P p xs h')
  ]

  pub All-of_where :
      (P : A → Type 0) (p : A → Bool) (xs : List A)
      → All (λ x. p x ≡ true → P x) xs
      → All P (select p xs)
  unfolding select
  All-of_where P p [] h = tt
  All-of_where P p (x ∷ xs) h = elim (Bool-cases (p x)) [
    | inl e ↦ rw (e, select) (h.0 e, All-of_where P p xs h.1)
    | inr e ↦ rw (e, select) (All-of_where P p xs h.1)
  ]

module _ {A : Type 0} (clash : A → A → Bool) where
  -- No element clashes with a later one.
  abbrev pub Apart : List A → Type 0
  Apart [] = Unit
  Apart (x ∷ xs) = All (λ y. clash x y ≡ false) xs × Apart xs

  -- The same of the rows that `p` selects.
  abbrev pub ApartWhere : (A → Bool) → List A → Type 0
  ApartWhere p [] = Unit
  ApartWhere p (x ∷ xs) =
      (p x ≡ true → All (λ y. p y ≡ true → clash x y ≡ false) xs) × ApartWhere p xs

  pub ApartWhere-of_Apart : (p : A → Bool) (xs : List A) → Apart (select p xs) → ApartWhere p xs
  unfolding select
  ApartWhere-of_Apart p [] h = tt
  ApartWhere-of_Apart p (x ∷ xs) h = elim (Bool-cases (p x)) [
    | inl e ↦
        let h' = rw (e, select) at h in
        (λ _. All-where (λ y. clash x y ≡ false) p xs h'.0, ApartWhere-of_Apart p xs h'.1)
    | inr e ↦ (λ e'. absurd (ground arith), ApartWhere-of_Apart p xs (rw (e, select) at h))
  ]

  pub Apart-of_ApartWhere : (p : A → Bool) (xs : List A) → ApartWhere p xs → Apart (select p xs)
  unfolding select
  Apart-of_ApartWhere p [] h = tt
  Apart-of_ApartWhere p (x ∷ xs) h = elim (Bool-cases (p x)) [
    | inl e ↦
        rw (e, select)
          (All-of_where (λ y. clash x y ≡ false) p xs (h.0 e), Apart-of_ApartWhere p xs h.1)
    | inr e ↦ rw (e, select) (Apart-of_ApartWhere p xs h.1)
  ]

  pub ApartWhere-imp :
      (p q : A → Bool)
      → ((a : A) → q a ≡ true → p a ≡ true)
      → (xs : List A) → ApartWhere p xs
      → ApartWhere q xs
  ApartWhere-imp p q imp [] h = tt
  ApartWhere-imp p q imp (x ∷ xs) h = (
    λ qx.
        All-imp (λ y. p y ≡ true → clash x y ≡ false) (λ y. q y ≡ true → clash x y ≡ false)
          (λ y k qy. k (imp y qy)) xs (h.0 (imp x qx)),
    ApartWhere-imp p q imp xs h.1,
  )

  module _ (comm : (a b : A) → clash a b ≡ clash b a) where
    Apart-of_insert_by :
        (before : A → A → Bool) (x : A) (xs : List A)
        → Apart (insert_by before x xs)
        → All (λ y. clash x y ≡ false) xs × Apart xs
    unfolding insert_by
    Apart-of_insert_by before x [] h = (tt, tt)
    Apart-of_insert_by before x (y ∷ ys) h = elim (Bool-cases (before x y)) [
      | inl e ↦ rw (e, insert_by) at h
      | inr e ↦
          let h' = rw (e, insert_by) at h in
          let (later, apart) = Apart-of_insert_by before x ys h'.1 in
          let (this, rest) = All-of_insert_by before (λ z. clash y z ≡ false) x ys h'.0 in
          ((rw (comm x y) this, later), (rest, apart))
    ]

    pub Apart-of_sort_by :
        (before : A → A → Bool) (xs : List A) → Apart (sort_by before xs) → Apart xs
    unfolding sort_by
    Apart-of_sort_by before [] h = tt
    Apart-of_sort_by before (x ∷ xs) h =
        let (first, apart) = Apart-of_insert_by before x (sort_by before xs) h in
        (All-of_sort_by before (λ y. clash x y ≡ false) xs first, Apart-of_sort_by before xs apart)

    -- Rows that `p` or `q` selects are apart if those of each are, and none of one clashes with
    -- one of the other.
    pub ApartWhere-union :
        (p q r : A → Bool)
        → ((a : A) → r a ≡ true → (p a ≡ true) ⊎ (q a ≡ true))
        → (xs : List A) → ApartWhere p xs
        → ApartWhere q xs
        → All (λ x. p x ≡ true → All (λ y. q y ≡ true → clash x y ≡ false) xs) xs
        → ApartWhere r xs
    ApartWhere-union p q r cover [] hp hq cross = tt
    ApartWhere-union p q r cover (x ∷ xs) hp hq cross = (
      λ rx.
          All-of_In (λ y. r y ≡ true → clash x y ≡ false) xs
            λ y i ry. elim (cover x rx) [
              | inl px ↦ elim (cover y ry) [
                | inl py ↦ All-In (λ y. p y ≡ true → clash x y ≡ false) y xs (hp.0 px) i py
                | inr qy ↦ All-In (λ y. q y ≡ true → clash x y ≡ false) y xs (cross.0 px).1 i qy
              ]
              | inr qx ↦ elim (cover y ry) [
                | inl py ↦ rw (comm x y) (
                    (All-In (λ z. p z ≡ true → All (λ w. q w ≡ true → clash z w ≡ false) (x ∷ xs)) y
                        xs cross.1 i py).0
                      qx)
                | inr qy ↦ All-In (λ y. q y ≡ true → clash x y ≡ false) y xs (hq.0 qx) i qy
              ]
            ],
      ApartWhere-union p q r cover xs hp.1 hq.1 (
          All-imp (λ z. p z ≡ true → All (λ w. q w ≡ true → clash z w ≡ false) (x ∷ xs))
            (λ z. p z ≡ true → All (λ w. q w ≡ true → clash z w ≡ false) xs) (λ z h pz. (h pz).1) xs
            cross.1),
    )

module _ {A B : Type 0} (f : A → B) where
  All-map : (P : B → Type 0) (xs : List A) → All (λ x. P (f x)) xs ↔ All P (map f xs)
  All-map P [] = (λ h. tt, λ h. tt)
  All-map P (x ∷ xs) = let (to, from) = All-map P xs in (λ h. (h.0, to h.1), λ h. (h.0, from h.1))

  pub Apart-map :
      (clash : B → B → Bool) (xs : List A)
      → Apart (λ x y. clash (f x) (f y)) xs ↔ Apart clash (map f xs)
  Apart-map clash [] = (λ h. tt, λ h. tt)
  Apart-map clash (x ∷ xs) =
      let (to, from) = Apart-map clash xs in
      let (all_to, all_from) = All-map (λ y. clash (f x) y ≡ false) xs in
      (λ h. (all_to h.0, to h.1), λ h. (all_from h.0, from h.1))

-- Rows with a primary key: no two have the same.
module _ {A : Type 0} (key : A → ℕ) where
  abbrev pub Keyed : List A → Type 0
  Keyed = Apart (λ a b. key a == key b)

  -- The row that a query finds is the only row with its key.
  pub Keyed-find :
      (p : A → Bool) (xs : List A) (x : A)
      → Keyed xs
      → find p xs ≡ some x
      → All (λ y. key y ≡ key x → y ≡ x) xs
  unfolding find
  Keyed-find p [] x h e = tt
  Keyed-find p (z ∷ zs) x h e = elim (Bool-cases (p z)) [
    | inl hit ↦
        let same : z ≡ x = ground arith in
        (
          λ _. same,
          All-imp (λ y. (key z == key y) ≡ false) (λ y. key y ≡ key x → y ≡ x)
              (λ y apart k. absurd (ground (arith, ap key same))) zs h.0,
        )
    | inr miss ↦
        let found : find p zs ≡ some x = ground arith in
        let apart = find-All p (λ y. (key z == key y) ≡ false) zs x h.0 found in
        (λ k. absurd (ground arith), Keyed-find p zs x h.1 found)
  ]

  pub Keyed-count : (k : ℕ) (xs : List A) → Keyed xs → count_where (λ y. key y == k) xs ≤ 1
  unfolding count_where
  Keyed-count k [] h = omega arith
  Keyed-count k (z ∷ zs) h = elim (Bool-cases (key z == k)) [
    | inl e ↦ ground (
      arith,
      count_where_none (λ y. key y == k) zs
          (All-imp (λ y. (key z == key y) ≡ false) (λ y. (key y == k) ≡ false)
            (λ y apart. ground arith) zs h.0),
    )
    | inr e ↦ ground (arith, Keyed-count k zs h.1)
  ]
