-- ===== src/Throttle/Laws.antt =====
-- The limits of the login throttle.
use rfid_inventory_replenish.Prelude.{
  ◌+◌, ◌≤◌, ◌≡◌, refl, sym, subst, inl, inr, Bool, true, false, not, Option, none, some, List, [],
  ◌∷◌, ◌++◌, arith, All, All-imp, All-select_keep, All-select, find, find-none, select, count_where,
  length-select-le, length, Bool-cases, Option-cases,
}
use rfid_inventory_replenish.Domain.{Instant}
use rfid_inventory_replenish.Throttle.{
  WindowKey, same_window_key, LoginAttemptWindow, WindowEntry, LoginThrottle, limit_of, is_over,
  has_key, delete_window, active_window, used_up, counted,
}

module _ {A : Type 0} (p : A → Bool) where
  count_where-select-le :
      (q : A → Bool) (xs : List A) → count_where p (select q xs) ≤ count_where p xs
  unfolding count_where select
  count_where-select-le q [] = omega arith
  count_where-select-le q (x ∷ xs) = ground (arith, count_where-select-le q xs)

  pub count_where-append :
      (xs ys : List A) → count_where p (xs ++ ys) ≡ count_where p xs + count_where p ys
  unfolding count_where
  count_where-append [] ys = omega arith
  count_where-append (x ∷ xs) ys = ground (arith, count_where-append xs ys)

  count_zero : (xs : List A) → count_where p xs ≡ 0 → All (λ x. p x ≡ false) xs
  unfolding count_where
  count_zero [] h = tt
  count_zero (x ∷ xs) h = (ground arith, count_zero xs (ground arith))

  -- The only row that a test selects.
  find_only {κ} :
      (P : A → Type κ) (xs : List A) (a : A)
      → find p xs ≡ some a
      → count_where p xs ≤ 1
      → P a
      → ((x : A) → p x ≡ false → P x)
      → All P xs
  unfolding find count_where
  find_only P [] a h few there other = tt
  find_only P (x ∷ xs) a h few there other = elim (Bool-cases (p x)) [
    | inl e ↦
        let same : x ≡ a = ground arith in
        (
          subst P (sym same) there,
          All-imp (λ y. p y ≡ false) P other xs (count_zero xs (ground arith)),
        )
    | inr e ↦ (other x e, find_only P xs a (ground arith) (ground arith) there other)
  ]

pub All-append {ℓ κ} :
    {A : Type ℓ} (P : A → Type κ) (xs ys : List A) → All P xs → All P ys → All P (xs ++ ys)
All-append P [] ys h k = k
All-append P (x ∷ xs) ys h k = (h.0, All-append P xs ys h.1 k)

-- One window for a key.
abbrev pub OneWindow : List WindowEntry → Type 0
OneWindow entries = (k : WindowKey) → count_where (has_key k) entries ≤ 1

-- A key has one window, a window has no more attempts than the limit of its key, and there are no
-- more windows than the throttle may hold.
pub record IsWithin (t : LoginThrottle) (entries : List WindowEntry) : Type 0 where
  pub one_window : OneWindow entries
  pub limited : All (λ e. e.window.attempts ≤ limit_of t e.key) entries
  pub few : length entries ≤ t.max_entries

-- A window of the key, if there is one, has an attempt left.
abbrev pub Room : LoginThrottle → WindowKey → List WindowEntry → Type 0
Room t key = All (λ e. has_key key e ≡ true → e.window.attempts + 1 ≤ limit_of t e.key)

-- No window of the key where the call found none.
abbrev pub Absent : WindowKey → Option LoginAttemptWindow → List WindowEntry → Type 0
Absent key none entries = All (λ e. has_key key e ≡ false) entries
Absent key (some w) entries = Unit

pub counted-OneWindow :
    (key k : WindowKey) (es : List WindowEntry)
    → count_where (has_key k) (counted key es) ≡ count_where (has_key k) es
unfolding counted count_where
counted-OneWindow key k [] = refl
counted-OneWindow key k (e ∷ es) = ground (arith, counted-OneWindow key k es)

pub length-counted : (key : WindowKey) (es : List WindowEntry) → length (counted key es) ≡ length es
unfolding counted
length-counted key [] = refl
length-counted key (e ∷ es) = ground (arith, length-counted key es)

module _ (t : LoginThrottle) where
  abbrev pub Limited : List WindowEntry → Type 0
  Limited = All (λ e. e.window.attempts ≤ limit_of t e.key)

  pub counted-Limited :
      (key : WindowKey) (es : List WindowEntry)
      → Limited es
      → Room t key es
      → Limited (counted key es)
  unfolding counted
  counted-Limited key [] h room = tt
  counted-Limited key (e ∷ es) h room = elim (Bool-cases (has_key key e)) [
    | inl here ↦ rw here (room.0 here, h.1)
    | inr there ↦ rw there (h.0, counted-Limited key es h.1 room.1)
  ]

  pub counted-Room :
      (key k : WindowKey) (es : List WindowEntry)
      → same_window_key key k ≡ false
      → Room t k es
      → Room t k (counted key es)
  unfolding counted
  counted-Room key k [] apart room = tt
  counted-Room key k (e ∷ es) apart room = elim (Bool-cases (has_key key e)) [
    | inl here ↦ rw here ((λ own. absurd (ground (arith, here, own, apart))), room.1)
    | inr there ↦ rw there (room.0, counted-Room key k es apart room.1)
  ]

  pub select-IsWithin :
      (q : WindowEntry → Bool) (es : List WindowEntry) → IsWithin t es → IsWithin t (select q es)
  select-IsWithin q es h = record {
    one_window = λ k. omega (arith, h.one_window k, count_where-select-le (has_key k) q es);
    limited = All-select_keep q (λ e. e.window.attempts ≤ limit_of t e.key) es h.limited;
    few = omega (arith, h.few, length-select-le q es);
  }

  -- The window that `active_window` finds has an attempt left, unless it is used up.
  abbrev Left : WindowKey → Instant → Option LoginAttemptWindow × List WindowEntry → Type 0
  Left key now a = used_up t now (limit_of t key) a.0 ≡ none → Room t key a.1

  -- No window has the key.
  gone_Room :
      (key : WindowKey) (es : List WindowEntry)
      → All (λ e. has_key key e ≡ false) es
      → Room t key es
  gone_Room key es h =
      All-imp (λ e. has_key key e ≡ false)
        (λ e. has_key key e ≡ true → e.window.attempts + 1 ≤ limit_of t e.key)
        (λ e apart own. absurd (ground (arith, apart, own))) es h

  found_Room :
      (key : WindowKey) (now : Instant) (es : List WindowEntry) (e : WindowEntry)
      → IsWithin t es
      → find (has_key key) es ≡ some e
      → used_up t now (limit_of t key) (some e.window) ≡ none
      → Room t key es
  unfolding used_up
  found_Room key now es e h found left =
      find_only (has_key key) (λ x. has_key key x ≡ true → x.window.attempts + 1 ≤ limit_of t x.key)
        es e found (h.one_window key) (λ own. ground (arith, own, left))
        (λ x apart own. absurd (ground (arith, apart, own)))

  deleted-Absent :
      (key : WindowKey) (es : List WindowEntry)
      → All (λ e. has_key key e ≡ false) (delete_window key es)
  unfolding delete_window
  deleted-Absent key es =
      All-imp (λ e. not (has_key key e) ≡ true) (λ e. has_key key e ≡ false)
        (λ e h. ground (arith, h)) (delete_window key es) (All-select (λ e. not (has_key key e)) es)

  -- The parts of what `active_window` gives, from those of its three results.
  active_window-cases :
      (key : WindowKey) (now : Instant) (es : List WindowEntry)
      (P : Option LoginAttemptWindow × List WindowEntry → Type 0)
      → (find (has_key key) es ≡ none → P (none, es))
      → P (none, delete_window key es)
      → ((e : WindowEntry) → find (has_key key) es ≡ some e → P (some e.window, es))
      → P (active_window t key now es)
  unfolding active_window
  active_window-cases key now es P absent over there = elim (Option-cases (find (has_key key) es)) [
    | inl e ↦ rw (e, active_window) (absent e)
    | inr (row, e) ↦ elim (Bool-cases (is_over t now row)) [
      | inl late ↦ rw (e, late, active_window) over
      | inr early ↦ rw (e, early, active_window) (there row e)
    ]
  ]

  pub active_window_lem :
      (key : WindowKey) (now : Instant) (es : List WindowEntry)
      → IsWithin t es
      → IsWithin t (active_window t key now es).1
        × Absent key (active_window t key now es).0 (active_window t key now es).1
        × Left key now (active_window t key now es)
  active_window_lem key now es h =
      active_window-cases key now es (λ a. IsWithin t a.1 × Absent key a.0 a.1 × Left key now a)
        (λ e. let gone = find-none (has_key key) es e in (h, gone, λ left. gone_Room key es gone))
        (
          unfold delete_window in select-IsWithin (λ x. not (has_key key x)) es h,
          deleted-Absent key es,
          λ left. gone_Room key (delete_window key es) (deleted-Absent key es),
        )
        (λ e found. (h, tt, λ left. found_Room key now es e h found left))

  pub active_window-All :
      (P : WindowEntry → Type 0) (key : WindowKey) (now : Instant) (es : List WindowEntry)
      → All P es
      → All P (active_window t key now es).1
  active_window-All P key now es h =
      active_window-cases key now es (λ a. All P a.1) (λ _. h)
        (unfold delete_window in All-select_keep (λ x. not (has_key key x)) P es h) (λ _ _. h)
