-- ===== src/Inventory/Balance.antt =====
-- What `apply_inventory_deltas` does to the quantity of every bucket.
use rfid_inventory_replenish.Prelude.{
  ℕ, ◌≡◌, refl, sym, ap, subst, ◌∙◌, inl, inr, Bool, true, false, ◌&&◌, none, some, List, [], ◌∷◌,
  ◌++◌, map, arith, All, All-select_keep, all-All, ==_refl, find, all, update_where, ◌==◌,
  if◌then◌else◌, ℤ, pos, ◌+ℤ◌, +ℤ_zero, zero_+ℤ, +ℤ_assoc, +ℤ_swap, Bool-cases, Option-cases,
  ℤ-cases,
}
use rfid_inventory_replenish.Domain.{Uuid, ok, Result-cases}
use rfid_inventory_replenish.Connectivity.{StoreConnectivity}
use rfid_inventory_replenish.Inventory.Groups.{
  BucketKey, same_key, Group, grouped, group_sum, groups_sum, groups_sum-grouped, sum_at,
}
use rfid_inventory_replenish.Inventory.Projection.{
  InventoryDeltaEvent, AppliedInventoryDelta, InventoryProjection, InventoryDb, delta_key,
  is_bucket, applied_row, group_row, apply_group, apply_groups, apply_inventory_deltas, pending,
  put_delta, put_deltas, unique_by_id,
}
use rfid_inventory_replenish.Inventory.Quantities.{
  quantity_at, is_applied_at, applied_at, quantity_delta, quantity_at-none, quantity_at-some,
  quantity_at-hit, quantity_at-miss,
}

if_same : (b : Bool) (r : ℤ) → (if b then r else r) ≡ r
if_same true r = refl
if_same false r = refl

if_nested :
    (a b : Bool) (x r : ℤ)
    → (if a && b then x else pos 0) +ℤ (if a then r else pos 0)
      ≡ (if a then (if b then x +ℤ r else r) else pos 0)
if_nested true true x r = refl
if_nested true false x r = zero_+ℤ r
if_nested false b x r = +ℤ_zero (pos 0)

if_sum :
    (b : Bool) (x n m s : ℤ)
    → s ≡ n +ℤ m
    → (if b then x +ℤ s else s) ≡ (if b then x +ℤ n else n) +ℤ m
if_sum true x n m s h = ap (λ z. x +ℤ z) h ∙ sym (+ℤ_assoc x n m)
if_sum false x n m s h = h

module _ {F : Type 0} (lt_float : F → F → Bool) (connectivity : List StoreConnectivity) where
  group_row-fits :
      (t : Uuid) (g : Group (InventoryDeltaEvent F)) (n : ℕ) (p : InventoryProjection F)
      → (is_bucket t g.key (group_row lt_float connectivity t g (some p) n) ≡ true)
        × ((group_row lt_float connectivity t g (some p) n).quantity ≡ n)
  unfolding group_row
  group_row-fits t g n p = (ground arith, refl)

  -- What a group adds to a bucket.
  abbrev part : Uuid → BucketKey → Uuid → Group (InventoryDeltaEvent F) → ℤ
  part t k t' g = if t' == t && same_key k g.key then group_sum quantity_delta g else pos 0

  insert_quantity :
      (t : Uuid) (k : BucketKey) (t' : Uuid) (g : Group (InventoryDeltaEvent F))
      (rows : List (InventoryProjection F)) (n : ℕ)
      → find (is_bucket t' g.key) rows ≡ none
      → group_sum quantity_delta g ≡ pos n
      → pos (quantity_at t k (group_row lt_float connectivity t' g none n ∷ rows))
        ≡ pos (quantity_at t k rows) +ℤ part t k t' g
  unfolding group_row quantity_at
  insert_quantity t k t' g rows n found sum = elim (Bool-cases (t' == t && same_key k g.key)) [
    | inl e ↦ rw (e, quantity_at-none t k g.key rows t' e found, sum) (sym (zero_+ℤ (pos n)))
    | inr e ↦ rw e (sym (+ℤ_zero (pos (quantity_at t k rows))))
  ]

  update_quantity :
      (t : Uuid) (k : BucketKey) (t' : Uuid) (g : Group (InventoryDeltaEvent F))
      (rows : List (InventoryProjection F)) (row : InventoryProjection F) (n : ℕ)
      → find (is_bucket t' g.key) rows ≡ some row
      → pos row.quantity +ℤ group_sum quantity_delta g ≡ pos n
      → pos (
          quantity_at t k (
            update_where
              (is_bucket t' g.key)
              (λ old. group_row lt_float connectivity t' g (some old) n)
              rows))
        ≡ pos (quantity_at t k rows) +ℤ part t k t' g
  update_quantity t k t' g rows row n found sum =
      let f = λ (old : InventoryProjection F). group_row lt_float connectivity t' g (some old) n in
      elim (Bool-cases (t' == t && same_key k g.key)) [
        | inl e ↦
            rw (e, quantity_at-some t k g.key rows row t' e found)
              (ap pos (quantity_at-hit t k f n g.key t' (group_row-fits t' g n) rows row e found)
                ∙ sym sum)
        | inr e ↦ rw e (
            ap pos (quantity_at-miss t k f g.key t' (λ p. (group_row-fits t' g n p).0) rows e)
            ∙ sym (+ℤ_zero (pos (quantity_at t k rows))))
      ]

  apply_group-quantity :
      (t : Uuid) (k : BucketKey) (t' : Uuid) (g : Group (InventoryDeltaEvent F))
      (rows rows' : List (InventoryProjection F))
      → apply_group lt_float connectivity t' g rows ≡ ok rows'
      → pos (quantity_at t k rows') ≡ pos (quantity_at t k rows) +ℤ part t k t' g
  unfolding apply_group
  apply_group-quantity t k t' g rows rows' h =
      elim (Option-cases (find (is_bucket t' g.key) rows)) [
        | inl e ↦ elim (ℤ-cases (group_sum quantity_delta g)) [
          | inl (n, sum) ↦
              let same : group_row lt_float connectivity t' g none n ∷ rows ≡ rows' =
                ground arith in
              subst (λ r. pos (quantity_at t k r) ≡ pos (quantity_at t k rows) +ℤ part t k t' g)
                same (insert_quantity t k t' g rows n e sum)
          | inr (n, sum) ↦ absurd (ground arith)
        ]
        | inr (row, e) ↦ elim (ℤ-cases (pos row.quantity +ℤ group_sum quantity_delta g)) [
          | inl (n, sum) ↦
              let same : update_where (is_bucket t' g.key)
                    (λ old. group_row lt_float connectivity t' g (some old) n) rows
                  ≡ rows' =
                ground arith in
              subst (λ r. pos (quantity_at t k r) ≡ pos (quantity_at t k rows) +ℤ part t k t' g)
                same (update_quantity t k t' g rows row n e sum)
          | inr (n, sum) ↦ absurd (ground arith)
        ]
      ]

  abbrev parts : Uuid → BucketKey → Uuid → List (Group (InventoryDeltaEvent F)) → ℤ
  parts t k t' gs = if t' == t then groups_sum quantity_delta k gs else pos 0

  apply_groups-quantity :
      (t : Uuid) (k : BucketKey) (t' : Uuid) (gs : List (Group (InventoryDeltaEvent F)))
      (rows rows' : List (InventoryProjection F))
      → apply_groups lt_float connectivity t' gs rows ≡ ok rows'
      → pos (quantity_at t k rows') ≡ pos (quantity_at t k rows) +ℤ parts t k t' gs
  unfolding apply_groups groups_sum
  apply_groups-quantity t k t' [] rows rows' h =
      let same : rows ≡ rows' = ground arith in
      subst (λ r. pos (quantity_at t k r) ≡ pos (quantity_at t k rows) +ℤ parts t k t' []) same
        (sym (
          ap (λ n. pos (quantity_at t k rows) +ℤ n) (if_same (t' == t) (pos 0))
          ∙ +ℤ_zero (pos (quantity_at t k rows))))
  apply_groups-quantity t k t' (g ∷ gs) rows rows' h =
      elim (Result-cases (apply_group lt_float connectivity t' g rows)) [
        | inl (mid, e) ↦
            apply_groups-quantity t k t' gs mid rows' (ground arith)
            ∙ ap (λ n. n +ℤ parts t k t' gs) (apply_group-quantity t k t' g rows mid e)
            ∙ +ℤ_assoc (pos (quantity_at t k rows)) (part t k t' g) (parts t k t' gs)
            ∙ ap (λ n. pos (quantity_at t k rows) +ℤ n)
                (if_nested (t' == t) (same_key k g.key) (group_sum quantity_delta g)
                  (groups_sum quantity_delta k gs))
        | inr (e, failed) ↦ absurd (ground arith)
      ]

applied_at-append :
    (t : Uuid) (k : BucketKey) (xs ys : List AppliedInventoryDelta)
    → applied_at t k (xs ++ ys) ≡ applied_at t k xs +ℤ applied_at t k ys
unfolding applied_at
applied_at-append t k [] ys = sym (zero_+ℤ (applied_at t k ys))
applied_at-append t k (x ∷ xs) ys =
    if_sum (is_applied_at t k x) x.quantity_delta _ _ _ (applied_at-append t k xs ys)

applied_at-map :
    {F : Type 0} (t : Uuid) (k : BucketKey) (t' : Uuid) (ds : List (InventoryDeltaEvent F))
    → All (λ d. (d.tenant_id == t') ≡ true) ds
    → applied_at t k (map applied_row ds)
      ≡ (if t' == t then sum_at delta_key k quantity_delta ds else pos 0)
unfolding applied_at sum_at
applied_at-map t k t' [] h = sym (if_same (t' == t) (pos 0))
applied_at-map t k t' (d ∷ ds) h =
    let rest = applied_at-map t k t' ds h.1 in
    elim (Bool-cases (t' == t)) [ inl e ↦ ground (arith, rest) | inr e ↦ ground (arith, rest) ]

put_delta-All :
    {F : Type 0} (P : InventoryDeltaEvent F → Type 0) (d : InventoryDeltaEvent F)
    (seen : List (InventoryDeltaEvent F))
    → P d
    → All P seen
    → All P (put_delta d seen)
unfolding put_delta
put_delta-All P d [] p h = (p, tt)
put_delta-All P d (x ∷ xs) p h = elim (Bool-cases (x.delta_id == d.delta_id)) [
  | inl e ↦ rw e (p, h.1)
  | inr e ↦ rw e (h.0, put_delta-All P d xs p h.1)
]

put_deltas-All :
    {F : Type 0} (P : InventoryDeltaEvent F → Type 0) (ds seen : List (InventoryDeltaEvent F))
    → All P ds
    → All P seen
    → All P (put_deltas ds seen)
unfolding put_deltas
put_deltas-All P [] seen h k = k
put_deltas-All P (d ∷ ds) seen h k =
    put_deltas-All P ds (put_delta d seen) h.1 (put_delta-All P d seen h.0 k)

pub pending-All :
    {F : Type 0} (P : InventoryDeltaEvent F → Type 0) (applied : List AppliedInventoryDelta)
    (ds : List (InventoryDeltaEvent F))
    → All P ds
    → All P (pending applied ds)
unfolding pending unique_by_id
pending-All P applied ds h = All-select_keep _ P _ (put_deltas-All P ds [] h tt)

recorded-balance :
    {F : Type 0} (lt_float : F → F → Bool) (connectivity : List StoreConnectivity) (t' t : Uuid)
    (k : BucketKey) (ds : List (InventoryDeltaEvent F)) (applied : List AppliedInventoryDelta)
    (rows rows' : List (InventoryProjection F))
    → apply_groups lt_float connectivity t' (grouped delta_key ds) rows ≡ ok rows'
    → All (λ d. (d.tenant_id == t') ≡ true) ds
    → pos (quantity_at t k rows') +ℤ applied_at t k applied
      ≡ pos (quantity_at t k rows) +ℤ applied_at t k (applied ++ map applied_row ds)
recorded-balance lt_float connectivity t' t k ds applied rows rows' h tenants =
    let q = pos (quantity_at t k rows) in
    let a = applied_at t k applied in
    let p = if t' == t then groups_sum quantity_delta k (grouped delta_key ds) else pos 0 in
    ap (λ n. n +ℤ a) (apply_groups-quantity lt_float connectivity t k t' _ rows rows' h)
    ∙ +ℤ_swap q p a
    ∙ +ℤ_assoc q a p
    ∙ ap (λ n. q +ℤ n)
        (ap (λ n. a +ℤ n)
            (ap (λ n. if t' == t then n else pos 0)
                (groups_sum-grouped delta_key quantity_delta k ds)
              ∙ sym (applied_at-map t k t' ds tenants))
          ∙ sym (applied_at-append t k applied (map applied_row ds)))

-- A call that returns changes the quantity of every bucket by exactly the sum of the deltas that it
-- records for the bucket: the quantity less what is recorded is the same before and after.
pub apply_inventory_deltas-balance :
    {F : Type 0} (lt_float : F → F → Bool) (deltas : List (InventoryDeltaEvent F))
    (db : InventoryDb F) (n : ℕ) (db' : InventoryDb F) (t : Uuid) (k : BucketKey)
    → apply_inventory_deltas lt_float deltas db ≡ ok (n, db')
    → pos (quantity_at t k db'.projections) +ℤ applied_at t k db.applied
      ≡ pos (quantity_at t k db.projections) +ℤ applied_at t k db'.applied
unfolding apply_inventory_deltas
apply_inventory_deltas-balance {F = F} lt_float [] db n db' t k h =
    let same : db ≡ db' = ground arith in
    subst
      (λ (x : InventoryDb F).
        pos (quantity_at t k x.projections) +ℤ applied_at t k db.applied
        ≡ pos (quantity_at t k db.projections) +ℤ applied_at t k x.applied)
      same refl
apply_inventory_deltas-balance {F = F} lt_float (d ∷ ds) db n db' t k h =
    let inserted = pending db.applied (d ∷ ds) in
    elim (Bool-cases (all (λ (other : InventoryDeltaEvent F). other.tenant_id == d.tenant_id) ds)) [
      | inr e ↦ absurd (ground arith)
      | inl e ↦
          elim (Result-cases (
            apply_groups lt_float db.connectivity d.tenant_id (grouped delta_key inserted)
              db.projections)) [
                | inr (_, failed) ↦ absurd (ground arith)
                | inl (rows, done) ↦
                    let same_rows : rows ≡ db'.projections = ground arith in
                    let same_applied : db.applied ++ map applied_row inserted ≡ db'.applied =
                      ground arith in
                    rw (← same_rows, ← same_applied)
                      (recorded-balance lt_float db.connectivity d.tenant_id t k inserted db.applied
                        db.projections rows done
                        (pending-All (λ x. (x.tenant_id == d.tenant_id) ≡ true) db.applied (d ∷ ds)
                          (==_refl d.tenant_id, all-All _ ds e)))
              ]
    ]
