-- ===== src/Throttle/Attempts.antt =====
-- An attempt keeps the limits of the login throttle.
use rfid_inventory_replenish.Prelude.{
  ◌+◌, ◌≤◌, ◌<◌, ◌≡◌, refl, ap, inl, inr, true, false, not, Option, none, some, List, [], ◌∷◌,
  arith, All, All-imp, All-select_keep, count_where, count_where_none, length-append, length,
  Bool-cases,
}
use rfid_inventory_replenish.Domain.{Instant}
use rfid_inventory_replenish.Throttle.{
  WindowKey, same_window_key, LoginAttemptWindow, WindowEntry, LoginThrottle, limit_of, is_over,
  has_key, active_window, Windows, remove_expired_windows, counted, window_or_new, reserve, fits,
  admit_attempt, one_if_none,
}
use rfid_inventory_replenish.Throttle.Laws.{
  IsWithin, OneWindow, Room, Absent, Limited, count_where-append, All-append, counted-OneWindow,
  length-counted, counted-Limited, counted-Room, select-IsWithin, active_window_lem,
  active_window-All,
}

one_more :
    (key k : WindowKey) (es : List WindowEntry) (e : WindowEntry)
    → e.key ≡ key
    → All (λ x. has_key key x ≡ false) es
    → count_where (has_key k) es ≤ 1
    → count_where (has_key k) es + count_where (has_key k) (e ∷ []) ≤ 1
unfolding count_where
one_more key k es e own gone one = elim (Bool-cases (has_key k e)) [
  | inr other ↦ rw other (omega (arith, one))
  | inl here ↦
      let none_there : count_where (has_key k) es ≡ 0 = count_where_none (has_key k) es (
        All-imp (λ x. has_key key x ≡ false) (λ x. has_key k x ≡ false)
          (λ x apart. ground (
            arith,
            apart,
            here,
            ap (λ (z : WindowKey). z.scope) own,
            ap (λ (z : WindowKey). z.name) own,
          ))
          es gone) in
      rw (here, none_there) (omega arith)
]

module _ (t : LoginThrottle) where
  pub Absent-kept :
      (key : WindowKey) (w : Option LoginAttemptWindow) (es es' : List WindowEntry)
      → ((P : WindowEntry → Type 0) → All P es → All P es')
      → Absent key w es
      → Absent key w es'
  Absent-kept key none es es' keeps h = keeps (λ e. has_key key e ≡ false) h
  Absent-kept key (some w) es es' keeps h = tt

  -- What a call finds before it reserves.
  pub record Open (key : WindowKey) (w : Option LoginAttemptWindow) (es : List WindowEntry)
      : Type 0 where
    pub room : Room t key es
    pub absent : Absent key w es

  window_or_new-OneWindow :
      (key : WindowKey) (now : Instant) (w : Option LoginAttemptWindow) (s : Windows)
      → OneWindow s.entries
      → Absent key w s.entries
      → OneWindow (window_or_new key now w s).1.entries
  unfolding window_or_new
  window_or_new-OneWindow key now (some w) s one gone k = one k
  window_or_new-OneWindow key now none s one gone k =
      rw (count_where-append (has_key k) s.entries _) (one_more key k s.entries _ refl gone (one k))

  window_or_new-All :
      (P : WindowEntry → Type 0) (key : WindowKey) (now : Instant) (w : Option LoginAttemptWindow)
      (s : Windows)
      → ((e : WindowEntry) → e.key ≡ key → e.window.attempts ≡ 0 → P e)
      → All P s.entries
      → All P (window_or_new key now w s).1.entries
  unfolding window_or_new
  window_or_new-All P key now (some w) s new h = h
  window_or_new-All P key now none s new h = All-append P s.entries _ h (new _ refl refl, tt)

  length-window_or_new :
      (key : WindowKey) (now : Instant) (w : Option LoginAttemptWindow) (s : Windows)
      → length (window_or_new key now w s).1.entries ≡ length s.entries + one_if_none w
  unfolding window_or_new
  length-window_or_new key now (some w) s = omega arith
  length-window_or_new key now none s = length-append s.entries _

  window_or_new-Room :
      (key k : WindowKey) (now : Instant) (w : Option LoginAttemptWindow) (s : Windows)
      → 0 < limit_of t key
      → Room t k s.entries
      → Room t k (window_or_new key now w s).1.entries
  window_or_new-Room key k now w s few room =
      window_or_new-All (λ e. has_key k e ≡ true → e.window.attempts + 1 ≤ limit_of t e.key) key now
        w s
        (λ e own zero _.
          let enough : 0 < limit_of t e.key = rw own few in omega (arith, zero, enough))
        room

  window_or_new-Absent :
      (key k : WindowKey) (now : Instant) (w w' : Option LoginAttemptWindow) (s : Windows)
      → same_window_key key k ≡ false
      → Absent k w' s.entries
      → Absent k w' (window_or_new key now w s).1.entries
  window_or_new-Absent key k now w (some w') s apart gone = tt
  window_or_new-Absent key k now w none s apart gone =
      window_or_new-All (λ e. has_key k e ≡ false) key now w s (λ e own zero. rw own apart) gone

  reserve-IsWithin :
      (ip_key account_key : WindowKey) (now : Instant) (w w' : Option LoginAttemptWindow)
      (s : Windows)
      → same_window_key ip_key account_key ≡ false
      → 0 < limit_of t ip_key
      → 0 < limit_of t account_key
      → IsWithin t s.entries
      → Open ip_key w s.entries
      → Open account_key w' s.entries
      → fits t w w' s.entries ≡ true
      → IsWithin t (reserve ip_key account_key now w w' s).1.entries
  unfolding reserve fits
  reserve-IsWithin ip_key account_key now w w' s apart few_ip few_account h ip account space =
      let a = window_or_new ip_key now w s in
      let b = window_or_new account_key now w' a.1 in
      let es = b.1.entries in
      let limited : Limited t es =
        window_or_new-All (λ e. e.window.attempts ≤ limit_of t e.key) account_key now w' a.1
          (λ e key zero. omega (arith, zero))
          (window_or_new-All (λ e. e.window.attempts ≤ limit_of t e.key) ip_key now w s
            (λ e key zero. omega (arith, zero)) h.limited) in
      let ip_room : Room t ip_key es =
        window_or_new-Room account_key ip_key now w' a.1 few_account
          (window_or_new-Room ip_key ip_key now w s few_ip ip.room) in
      let account_room : Room t account_key es =
        window_or_new-Room account_key account_key now w' a.1 few_account
          (window_or_new-Room ip_key account_key now w s few_ip account.room) in
      let one : OneWindow es =
        window_or_new-OneWindow account_key now w' a.1
          (window_or_new-OneWindow ip_key now w s h.one_window ip.absent)
          (window_or_new-Absent ip_key account_key now w w' s apart account.absent) in
      record {
        one_window = λ k.
            rw (counted-OneWindow account_key k (counted ip_key es), counted-OneWindow ip_key k es)
              (one k);
        limited =
            counted-Limited t account_key (counted ip_key es)
              (counted-Limited t ip_key es limited ip_room)
              (counted-Room t ip_key account_key es apart account_room);
        few = ground (
          arith,
          space,
          length-counted account_key (counted ip_key es),
          length-counted ip_key es,
          length-window_or_new account_key now w' a.1,
          length-window_or_new ip_key now w s,
        );
      }

  pub admit_attempt-IsWithin :
      (ip_key account_key : WindowKey) (now : Instant) (w w' : Option LoginAttemptWindow)
      (s : Windows)
      → same_window_key ip_key account_key ≡ false
      → 0 < limit_of t ip_key
      → 0 < limit_of t account_key
      → IsWithin t s.entries
      → Open ip_key w s.entries
      → Open account_key w' s.entries
      → IsWithin t (admit_attempt t ip_key account_key now w w' s).1.entries
  unfolding admit_attempt remove_expired_windows
  admit_attempt-IsWithin ip_key account_key now w w' s apart few_ip few_account h ip account =
      elim (Bool-cases (fits t w w' s.entries)) [
        | inl e ↦
            rw (e, admit_attempt)
              (reserve-IsWithin ip_key account_key now w w' s apart few_ip few_account h ip account
                e)
        | inr e ↦
            let es = remove_expired_windows t now s.entries in
            let within : IsWithin t es =
              select-IsWithin t (λ x. not (is_over t now x)) s.entries h in
            let a = active_window t ip_key now es in
            let b = active_window t account_key now a.1 in
            let on_ip = active_window_lem t ip_key now es within in
            let on_account = active_window_lem t account_key now a.1 on_ip.0 in
            let keeps = λ (key : WindowKey) (room : Room t key s.entries).
              active_window-All t
                (λ x. has_key key x ≡ true → x.window.attempts + 1 ≤ limit_of t x.key) account_key
                now a.1
                (active_window-All t
                  (λ x. has_key key x ≡ true → x.window.attempts + 1 ≤ limit_of t x.key) ip_key now
                  es
                  (All-select_keep (λ x. not (is_over t now x))
                    (λ x. has_key key x ≡ true → x.window.attempts + 1 ≤ limit_of t x.key) s.entries
                    room)) in
            elim (Bool-cases (fits t a.0 b.0 b.1)) [
              | inr f ↦ rw (e, f, admit_attempt) on_account.0
              | inl f ↦
                  rw (e, f, admit_attempt)
                    (reserve-IsWithin ip_key account_key now a.0 b.0 (record s { entries = b.1 })
                      apart few_ip few_account on_account.0
                      (record {
                        room = keeps ip_key ip.room;
                        absent =
                            Absent-kept ip_key a.0 a.1 b.1
                              (λ P all. active_window-All t P account_key now a.1 all) on_ip.1;
                      })
                      (record { room = keeps account_key account.room; absent = on_account.1 }) f)
            ]
      ]
