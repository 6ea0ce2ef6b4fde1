-- ===== src/Inventory/Groups.antt =====
-- Rows grouped by the bucket that they are of, in the order in which the buckets first occur: the
-- `defaultdict` of `apply_inventory_deltas` and the `GROUP BY` of `rebuild_inventory_projection`.
use rfid_inventory_replenish.Prelude.{
  ◌≡◌, refl, Bool, true, false, ◌&&◌, List, [], ◌∷◌, ◌++◌, arith, ◌==◌, if◌then◌else◌, Bool-cases,
  ℤ, pos, ◌+ℤ◌, +ℤ_zero, zero_+ℤ, +ℤ_assoc, +ℤ_swap, sym, ap, subst, ◌∙◌, inl, inr,
}
use rfid_inventory_replenish.Domain.{Uuid}

pub record BucketKey : Type 0 where
  pub store_id : Uuid
  pub sku_id : Uuid
  pub zone_id : Uuid

abbrev pub same_key : BucketKey → BucketKey → Bool
same_key a b = a.store_id == b.store_id && a.sku_id == b.sku_id && a.zone_id == b.zone_id

pub record Group (Row : Type 0) : Type 0 where
  pub key : BucketKey
  pub first : Row
  pub rest : List Row

unfoldable pub add_to_groups :
    {Row : Type 0} → BucketKey → Row → List (Group Row) → List (Group Row)
add_to_groups k x [] = (record { key = k; first = x; rest = [] }) ∷ []
add_to_groups k x (g ∷ gs) =
    let later = add_to_groups k x gs in
    if same_key k g.key then (record g { rest = g.rest ++ (x ∷ []) }) ∷ gs else g ∷ later

unfoldable pub add_all :
    {Row : Type 0} → (Row → BucketKey) → List Row → List (Group Row) → List (Group Row)
add_all key_of [] groups = groups
add_all key_of (x ∷ xs) groups = add_all key_of xs (add_to_groups (key_of x) x groups)

unfoldable pub grouped : {Row : Type 0} → (Row → BucketKey) → List Row → List (Group Row)
grouped key_of rows = add_all key_of rows []

-- `sum(f(x) for x in rows)`
unfoldable pub sum_by : {Row : Type 0} → (Row → ℤ) → List Row → ℤ
sum_by f [] = pos 0
sum_by f (x ∷ xs) = f x +ℤ sum_by f xs

-- The same for the rows of one bucket.
unfoldable pub sum_at : {Row : Type 0} → (Row → BucketKey) → BucketKey → (Row → ℤ) → List Row → ℤ
sum_at key_of k f [] = pos 0
sum_at key_of k f (x ∷ xs) =
    let rest = sum_at key_of k f xs in if same_key k (key_of x) then f x +ℤ rest else rest

unfoldable pub group_sum : {Row : Type 0} → (Row → ℤ) → Group Row → ℤ
group_sum f g = f g.first +ℤ sum_by f g.rest

-- Over all the groups of a bucket, and over the first of them.
unfoldable pub groups_sum : {Row : Type 0} → (Row → ℤ) → BucketKey → List (Group Row) → ℤ
groups_sum f k [] = pos 0
groups_sum f k (g ∷ gs) =
    let rest = groups_sum f k gs in if same_key k g.key then group_sum f g +ℤ rest else rest

unfoldable pub found_sum : {Row : Type 0} → (Row → ℤ) → BucketKey → List (Group Row) → ℤ
found_sum f k [] = pos 0
found_sum f k (g ∷ gs) = if same_key k g.key then group_sum f g else found_sum f k gs

pub same_key-congr : (k a b : BucketKey) → same_key a b ≡ true → same_key k b ≡ same_key k a
same_key-congr k a b h = ground arith

-- The sums of a conditional, where a term is added in one branch or in both.
if_same : (b : Bool) (r : ℤ) → (if b then r else r) ≡ r
if_same true r = refl
if_same false r = refl

if_added :
    (b : Bool) (u v w r : ℤ)
    → u ≡ v +ℤ w
    → (if b then u +ℤ r else r) ≡ (if b then v +ℤ r else r) +ℤ (if b then w else pos 0)
if_added true u v w r h = ap (λ n. n +ℤ r) h ∙ +ℤ_swap v w r
if_added false u v w r h = sym (+ℤ_zero r)

if_carried :
    (b : Bool) (u r r' s : ℤ)
    → r' ≡ r +ℤ s
    → (if b then u +ℤ r' else r') ≡ (if b then u +ℤ r else r) +ℤ s
if_carried true u r r' s h = ap (λ n. u +ℤ n) h ∙ sym (+ℤ_assoc u r s)
if_carried false u r r' s h = h

if_met :
    (b : Bool) (u v w r : ℤ)
    → u ≡ v +ℤ w
    → (if b then u else r) ≡ (if b then v else r) +ℤ (if b then w else pos 0)
if_met true u v w r h = h
if_met false u v w r h = sym (+ℤ_zero r)

if_passed :
    (b : Bool) (u r r' s : ℤ)
    → r' ≡ r +ℤ s
    → (b ≡ true → s ≡ pos 0)
    → (if b then u else r') ≡ (if b then u else r) +ℤ s
if_passed true u r r' s h clear = sym (ap (λ n. u +ℤ n) (clear refl) ∙ +ℤ_zero u)
if_passed false u r r' s h clear = h

same_key-apart :
    (k a b : BucketKey) → same_key a b ≡ false → same_key k b ≡ true → same_key k a ≡ false
same_key-apart k a b h same = ground arith

module _ {Row : Type 0} (f : Row → ℤ) where
  pub sum_by-append : (xs ys : List Row) → sum_by f (xs ++ ys) ≡ sum_by f xs +ℤ sum_by f ys
  unfolding sum_by
  sum_by-append [] ys = sym (zero_+ℤ (sum_by f ys))
  sum_by-append (x ∷ xs) ys =
      ap (λ n. f x +ℤ n) (sum_by-append xs ys) ∙ sym (+ℤ_assoc (f x) (sum_by f xs) (sum_by f ys))

  pub group_sum-add :
      (g : Group Row) (x : Row)
      → group_sum f (record g { rest = g.rest ++ (x ∷ []) }) ≡ group_sum f g +ℤ f x
  unfolding group_sum sum_by
  group_sum-add g x =
      ap (λ n. f g.first +ℤ n)
        (sum_by-append g.rest (x ∷ []) ∙ ap (λ n. sum_by f g.rest +ℤ n) (+ℤ_zero (f x)))
      ∙ sym (+ℤ_assoc (f g.first) (sum_by f g.rest) (f x))

  -- What a row adds to the sum of a bucket.
  abbrev pub share : BucketKey → BucketKey → Row → ℤ
  share k k' x = if same_key k k' then f x else pos 0

  pub groups_sum-add :
      (k k' : BucketKey) (x : Row) (gs : List (Group Row))
      → groups_sum f k (add_to_groups k' x gs) ≡ groups_sum f k gs +ℤ share k k' x
  unfolding groups_sum add_to_groups group_sum sum_by
  groups_sum-add k k' x [] =
      if_added (same_key k k') (f x +ℤ pos 0) (pos 0) (f x) (pos 0)
        (+ℤ_zero (f x) ∙ sym (zero_+ℤ (f x)))
      ∙ ap (λ n. n +ℤ share k k' x)
          (ap (λ n. if same_key k k' then n else pos 0) (zero_+ℤ (pos 0))
            ∙ if_same (same_key k k') (pos 0))
  groups_sum-add k k' x (g ∷ gs) = elim (Bool-cases (same_key k' g.key)) [
    | inl e ↦ rw e (
        subst
          (λ b.
            (if b
              then group_sum f (record g { rest = g.rest ++ (x ∷ []) }) +ℤ groups_sum f k gs
              else groups_sum f k gs)
            ≡ (if b then group_sum f g +ℤ groups_sum f k gs else groups_sum f k gs) +ℤ share k k' x)
          (sym (same_key-congr k k' g.key e))
          (if_added (same_key k k') _ (group_sum f g) (f x) (groups_sum f k gs)
            (group_sum-add g x)))
    | inr e ↦ rw e (
        if_carried (same_key k g.key) (group_sum f g) (groups_sum f k gs) _ _
          (groups_sum-add k k' x gs))
  ]

  pub found_sum-add :
      (k k' : BucketKey) (x : Row) (gs : List (Group Row))
      → found_sum f k (add_to_groups k' x gs) ≡ found_sum f k gs +ℤ share k k' x
  unfolding found_sum add_to_groups group_sum sum_by
  found_sum-add k k' x [] =
      if_met (same_key k k') (f x +ℤ pos 0) (pos 0) (f x) (pos 0)
        (+ℤ_zero (f x) ∙ sym (zero_+ℤ (f x)))
      ∙ ap (λ n. n +ℤ share k k' x) (if_same (same_key k k') (pos 0))
  found_sum-add k k' x (g ∷ gs) = elim (Bool-cases (same_key k' g.key)) [
    | inl e ↦ rw e (
        subst
          (λ b.
            (if b then group_sum f (record g { rest = g.rest ++ (x ∷ []) }) else found_sum f k gs)
            ≡ (if b then group_sum f g else found_sum f k gs) +ℤ share k k' x)
          (sym (same_key-congr k k' g.key e))
          (if_met (same_key k k') _ (group_sum f g) (f x) (found_sum f k gs) (group_sum-add g x)))
    | inr e ↦ rw e (
        if_passed (same_key k g.key) (group_sum f g) (found_sum f k gs) _ _
          (found_sum-add k k' x gs)
          (λ same. ap (λ b. if b then f x else pos 0) (same_key-apart k k' g.key e same)))
  ]

module _ {Row : Type 0} (key_of : Row → BucketKey) (f : Row → ℤ) (k : BucketKey) where
  if_outside :
      (b : Bool) (g x r : ℤ) → (g +ℤ (if b then x else pos 0)) +ℤ r ≡ g +ℤ (if b then x +ℤ r else r)
  if_outside true g x r = +ℤ_assoc g x r
  if_outside false g x r = ap (λ n. n +ℤ r) (+ℤ_zero g)

  add_all-sum :
      (total : List (Group Row) → ℤ)
      → ((k' : BucketKey) (x : Row) (gs : List (Group Row))
          → total (add_to_groups k' x gs) ≡ total gs +ℤ share f k k' x)
      → (xs : List Row) (gs : List (Group Row))
      → total (add_all key_of xs gs) ≡ total gs +ℤ sum_at key_of k f xs
  unfolding add_all sum_at
  add_all-sum total adds [] gs = sym (+ℤ_zero (total gs))
  add_all-sum total adds (x ∷ xs) gs =
      add_all-sum total adds xs (add_to_groups (key_of x) x gs)
      ∙ ap (λ n. n +ℤ sum_at key_of k f xs) (adds (key_of x) x gs)
      ∙ if_outside (same_key k (key_of x)) (total gs) (f x) (sum_at key_of k f xs)

  -- The sum over the groups of a bucket is the sum over its rows, and so is the sum of the first
  -- group of the bucket.
  pub groups_sum-grouped :
      (xs : List Row) → groups_sum f k (grouped key_of xs) ≡ sum_at key_of k f xs
  unfolding grouped groups_sum
  groups_sum-grouped xs =
      add_all-sum (groups_sum f k) (λ k' x gs. groups_sum-add f k k' x gs) xs []
      ∙ zero_+ℤ (sum_at key_of k f xs)

  pub found_sum-grouped : (xs : List Row) → found_sum f k (grouped key_of xs) ≡ sum_at key_of k f xs
  unfolding grouped found_sum
  found_sum-grouped xs =
      add_all-sum (found_sum f k) (λ k' x gs. found_sum-add f k k' x gs) xs []
      ∙ zero_+ℤ (sum_at key_of k f xs)
