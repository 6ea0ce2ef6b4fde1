-- ===== src/Prelude/Updates.antt =====
-- What an update of some rows does to the first row of a query and to the number of its rows.
use Prim.Native.Nat.{ℕ, ◌+◌, ◌≤◌}
use mathlib.Core.Path.{◌≡◌, refl}
use mathlib.Core.Logic.{inl, inr}
use mathlib.Core.Bool.{Bool}
use mathlib.Core.Option.{some}
use mathlib.Core.List.{List, [], ◌∷◌}
use native.Mathlib.Omega.{arith}
use rfid_inventory_replenish.Prelude.Tests.{if◌then◌else◌, Bool-cases}
use rfid_inventory_replenish.Prelude.Queries.{find, update_where, count_where}

abbrev pub one_if : Bool → ℕ
one_if b = if b then 1 else 0

module _ {A : Type 0} (p q : A → Bool) (f : A → A) where
  count_update_none :
      (xs : List A) → count_where p xs ≡ 0 → count_where q (update_where p f xs) ≡ count_where q xs
  unfolding count_where update_where
  count_update_none [] h = refl
  count_update_none (x ∷ xs) h = ground (arith, count_update_none xs)

  -- The update of the only row that `p` selects.
  pub count_update_one :
      (xs : List A) (s : A)
      → find p xs ≡ some s
      → count_where p xs ≤ 1
      → count_where q (update_where p f xs) + one_if (q s) ≡ count_where q xs + one_if (q (f s))
  unfolding count_where update_where find
  count_update_one [] s h few = cc
  count_update_one (x ∷ xs) s h few = elim (Bool-cases (p x)) [
    | inl e ↦ let same : x ≡ s = ground arith in rw (← same) (ground (arith, count_update_none xs))
    | inr e ↦ ground (arith, count_update_one xs s)
  ]

  pub count_update_keeps :
      ((x : A) → q (f x) ≡ q x)
      → (xs : List A) → count_where q (update_where p f xs) ≡ count_where q xs
  unfolding count_where update_where
  count_update_keeps keeps [] = refl
  count_update_keeps keeps (x ∷ xs) = ground (arith, keeps x, count_update_keeps keeps xs)

module _ {A : Type 0} (p q : A → Bool) (f : A → A) (keeps : (x : A) → q (f x) ≡ q x) where
  pub find-update_keeps :
      (xs : List A) (s : A)
      → find q xs ≡ some s
      → find q (update_where p f xs) ≡ some (if p s then f s else s)
  unfolding find update_where
  find-update_keeps [] s h = cc
  find-update_keeps (x ∷ xs) s h = elim (Bool-cases (q x)) [
    | inl e ↦
        let same : x ≡ s = ground arith in
        elim (Bool-cases (p x)) [
          | inl d ↦ rw (← same, d, keeps x, e) refl
          | inr d ↦ rw (← same, d, e) refl
        ]
    | inr e ↦
        let rest = find-update_keeps xs s (ground arith) in
        elim (Bool-cases (p x)) [ inl d ↦ rw (d, keeps x, e) rest | inr d ↦ rw (d, e) rest ]
  ]
