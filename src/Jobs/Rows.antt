-- ===== src/Jobs/Rows.antt =====
-- The rows that a query of the job queue chooses, and the rows that an update changes.
use rfid_inventory_replenish.Prelude.{
  ℕ, zero, suc, ◌≤◌, ◌≡◌, refl, sym, ap, ◌∙◌, subst, inl, inr, Bool, true, false, List, [], ◌∷◌,
  arith, All, All-zip, All-of_In, In, All-select, All-select_keep, All-sort_by, take, length,
  select, any, update_where, sort_by, ◌==◌, if◌then◌else◌, Bool-cases,
}
use rfid_inventory_replenish.Jobs.{DurableJob, is_among}

pub All-take {ℓ κ} :
    {A : Type ℓ} (P : A → Type κ) (n : ℕ) (xs : List A) → All P xs → All P (take n xs)
All-take P zero xs h = tt
All-take P (suc n) [] h = tt
All-take P (suc n) (x ∷ xs) h = (h.0, All-take P n xs h.1)

pub length-take-le {ℓ} : {A : Type ℓ} (n : ℕ) (xs : List A) → length (take n xs) ≤ n
length-take-le zero xs = omega arith
length-take-le (suc n) [] = omega arith
length-take-le (suc n) (x ∷ xs) = omega (arith, length-take-le n xs)

module _ {A : Type 0} (p : A → Bool) (f : A → A) where
  pub In-update_where_miss :
      (x : A) (xs : List A) → p x ≡ false → In x xs → In x (update_where p f xs)
  unfolding update_where
  In-update_where_miss x [] apart i = i
  In-update_where_miss x (y ∷ ys) apart (inl e) =
      inl (subst (λ z. (if p z then f z else z) ≡ x) (sym e) (rw apart refl))
  In-update_where_miss x (y ∷ ys) apart (inr i) = inr (In-update_where_miss x ys apart i)

  pub In-update_where :
      (y : A) (xs : List A)
      → In y (update_where p f xs)
      → (x : A) × In x xs × ((if p x then f x else x) ≡ y)
  unfolding update_where
  In-update_where y [] i = absurd i
  In-update_where y (x ∷ xs) (inl e) = (x, inl refl, e)
  In-update_where y (x ∷ xs) (inr i) = let (z, j, e) = In-update_where y xs i in (z, inr j, e)

-- The primary key: rows with the same id are the same row.
abbrev pub OneJob : List DurableJob → Type 0
OneJob jobs = (a b : DurableJob) → In a jobs → In b jobs → a.id ≡ b.id → a ≡ b

pub update_where-OneJob :
    (p : DurableJob → Bool) (f : DurableJob → DurableJob)
    → ((job : DurableJob) → (f job).id ≡ job.id)
    → (jobs : List DurableJob) → OneJob jobs
    → OneJob (update_where p f jobs)
update_where-OneJob p f keeps jobs one a b i j same =
    let (x, ix, ex) = In-update_where p f a jobs i in
    let (y, iy, ey) = In-update_where p f b jobs j in
    let id_of = λ (z : DurableJob).
      elim (Bool-cases (p z)) as (λ _. (if p z then f z else z).id ≡ z.id) [
        | inl e ↦ rw e (keeps z)
        | inr e ↦ rw e refl
      ] in
    let ids : x.id ≡ y.id =
      sym (id_of x)
      ∙ ap (λ (z : DurableJob). z.id) ex
      ∙ same
      ∙ sym (ap (λ (z : DurableJob). z.id) ey)
      ∙ id_of y in
    let rows : x ≡ y = one x y ix iy ids in
    sym ex ∙ ap (λ (z : DurableJob). if p z then f z else z) rows ∙ ey

-- What the rows that a query chooses satisfy.
abbrev pub Chosen : (DurableJob → Bool) → List DurableJob → DurableJob → Type 0
Chosen p jobs row = In row jobs × (p row ≡ true)

pub select-Chosen :
    (before : DurableJob → DurableJob → Bool) (p : DurableJob → Bool) (n : ℕ)
    (jobs : List DurableJob)
    → All (Chosen p jobs) (take n (sort_by before (select p jobs)))
select-Chosen before p n jobs = All-take (Chosen p jobs) n _ (
    All-sort_by before (Chosen p jobs) (select p jobs) (
      All-zip (λ row. In row jobs) (λ row. p row ≡ true) (select p jobs)
        (All-select_keep p (λ row. In row jobs) jobs
          (All-of_In (λ row. In row jobs) jobs (λ a i. i)))
        (All-select p jobs)))

-- A row of the table that is among the chosen by its id is chosen.
pub among-Chosen :
    (p : DurableJob → Bool) (jobs rows : List DurableJob) (job : DurableJob)
    → OneJob jobs
    → All (Chosen p jobs) rows
    → In job jobs
    → is_among rows job ≡ true
    → p job ≡ true
unfolding any
among-Chosen p jobs [] job one h i e = cc
among-Chosen p jobs (row ∷ rows) job one h i e = elim (Bool-cases (row.id == job.id)) [
  | inl same ↦
      let ids : row.id ≡ job.id = ground arith in
      subst (λ z. p z ≡ true) (one row job h.0.0 i ids) h.0.1
  | inr apart ↦ among-Chosen p jobs rows job one h.1 i (ground arith)
]
