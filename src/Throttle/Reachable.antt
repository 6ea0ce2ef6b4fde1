-- ===== src/Throttle/Reachable.antt =====
-- The windows that attempts reach.
use rfid_inventory_replenish.Prelude.{
  ℕ, ◌+◌, ◌-◌, ◌≤◌, ◌<◌, ◌≡◌, refl, inl, inr, Bool, true, false, not, Option, none, some, List, [],
  ◌∷◌, arith, count_where, ◌==◌, if◌then◌else◌, length, Bool-cases, Option-cases,
}
use rfid_inventory_replenish.Domain.{Text, Instant}
use rfid_inventory_replenish.Throttle.{
  WindowKey, WindowEntry, LoginThrottle, Windows, LoginAttemptReservation, LoginAttemptOutcome,
  limit_of, has_key, active_window, used_up, longest, begin_enabled, begin_attempt,
  LoginThrottleDecision, taken_back, finish_attempt, ip_key_of, account_key_of, keeps_ip,
  keeps_account,
}
use rfid_inventory_replenish.Throttle.Laws.{IsWithin, Limited, active_window_lem, active_window-All}
use rfid_inventory_replenish.Throttle.Attempts.{Absent-kept, admit_attempt-IsWithin}

longest-none : (a b : Option ℕ) → longest a b ≡ none → (a ≡ none) × (b ≡ none)
longest-none none b h = (refl, h)
longest-none (some a) none h = absurd cc
longest-none (some a) (some b) h = absurd cc

module _ (t : LoginThrottle) where
  begin_enabled-IsWithin :
      (ip_name account_name : Text) (now : Instant) (s : Windows)
      → 0 < t.ip_limit
      → 0 < t.account_limit
      → IsWithin t s.entries
      → IsWithin t
          (begin_enabled t (ip_key_of ip_name) (account_key_of account_name) now s).1.entries
  unfolding begin_enabled
  begin_enabled-IsWithin ip_name account_name now s few_ip few_account h =
      let ip_key = ip_key_of ip_name in
      let account_key = account_key_of account_name in
      let a = active_window t ip_key now s.entries in
      let b = active_window t account_key now a.1 in
      let on_ip = active_window_lem t ip_key now s.entries h in
      let on_account = active_window_lem t account_key now a.1 on_ip.0 in
      elim (Option-cases
        (longest (used_up t now t.ip_limit a.0) (used_up t now t.account_limit b.0))) [
          | inr (remaining, e) ↦ rw (e, begin_enabled) on_account.0
          | inl e ↦
              let (ip_left, account_left) =
                longest-none (used_up t now t.ip_limit a.0) (used_up t now t.account_limit b.0) e in
              rw (e, begin_enabled)
                (admit_attempt-IsWithin t ip_key account_key now a.0 b.0
                  (record s { entries = b.1 }) refl few_ip few_account on_account.0
                  (record {
                    room =
                        active_window-All t
                          (λ x. has_key ip_key x ≡ true → x.window.attempts + 1 ≤ limit_of t x.key)
                          account_key now a.1 (on_ip.2 ip_left);
                    absent =
                        Absent-kept t ip_key a.0 a.1 b.1
                          (λ P all. active_window-All t P account_key now a.1 all) on_ip.1;
                  })
                  (record { room = on_account.2 account_left; absent = on_account.1 }))
        ]

  IsWithin-if :
      (b : Bool) (x y : LoginThrottleDecision × Windows)
      → IsWithin t x.1.entries
      → IsWithin t y.1.entries
      → IsWithin t (if b then x else y).1.entries
  IsWithin-if true x y h k = h
  IsWithin-if false x y h k = k

  begin_attempt-IsWithin :
      (ip_name account_name : Text) (now : Instant) (s : Windows)
      → 0 < t.ip_limit
      → 0 < t.account_limit
      → IsWithin t s.entries
      → IsWithin t (begin_attempt t ip_name account_name now s).1.entries
  unfolding begin_attempt
  begin_attempt-IsWithin ip_name account_name now s few_ip few_account h =
      IsWithin-if (not t.enabled) (record { reservation = none; retry_after = none }, s)
        (begin_enabled t (ip_key_of ip_name) (account_key_of account_name) now s) h
        (begin_enabled-IsWithin ip_name account_name now s few_ip few_account h)

  taken_back-count :
      (key k : WindowKey) (serial : ℕ) (es : List WindowEntry)
      → count_where (has_key k) (taken_back key serial es) ≤ count_where (has_key k) es
  unfolding taken_back count_where
  taken_back-count key k serial [] = omega arith
  taken_back-count key k serial (e ∷ es) = ground (arith, taken_back-count key k serial es)

  length-taken_back-le :
      (key : WindowKey) (serial : ℕ) (es : List WindowEntry)
      → length (taken_back key serial es) ≤ length es
  unfolding taken_back
  length-taken_back-le key serial [] = omega arith
  length-taken_back-le key serial (e ∷ es) = ground (arith, length-taken_back-le key serial es)

  taken_back-Limited :
      (key : WindowKey) (serial : ℕ) (es : List WindowEntry)
      → Limited t es
      → Limited t (taken_back key serial es)
  unfolding taken_back
  taken_back-Limited key serial [] h = tt
  taken_back-Limited key serial (e ∷ es) h = elim (Bool-cases (has_key key e)) [
    | inr there ↦ rw there (h.0, taken_back-Limited key serial es h.1)
    | inl here ↦ elim (Bool-cases (e.window.serial == serial)) [
      | inr other ↦ rw (here, other) h
      | inl same ↦ elim (Bool-cases (e.window.attempts - 1 == 0)) [
        | inl last ↦ rw (here, same, last) h.1
        | inr more ↦ rw (here, same, more) (omega (arith, h.0), h.1)
      ]
    ]
  ]

  taken_back-IsWithin :
      (key : WindowKey) (serial : ℕ) (es : List WindowEntry)
      → IsWithin t es
      → IsWithin t (taken_back key serial es)
  taken_back-IsWithin key serial es h = record {
    one_window = λ k. omega (arith, h.one_window k, taken_back-count key k serial es);
    limited = taken_back-Limited key serial es h.limited;
    few = omega (arith, h.few, length-taken_back-le key serial es);
  }

  taken_back_unless-IsWithin :
      (keep : Bool) (key : WindowKey) (serial : ℕ) (es : List WindowEntry)
      → IsWithin t es
      → IsWithin t (if keep then es else taken_back key serial es)
  taken_back_unless-IsWithin true key serial es h = h
  taken_back_unless-IsWithin false key serial es h = taken_back-IsWithin key serial es h

  finish_attempt-IsWithin :
      (r : Option LoginAttemptReservation) (outcome : LoginAttemptOutcome) (s : Windows)
      → IsWithin t s.entries
      → IsWithin t (finish_attempt r outcome s).1.entries
  unfolding finish_attempt
  finish_attempt-IsWithin none outcome s h = h
  finish_attempt-IsWithin (some r) outcome s h = elim (Bool-cases r.finalized) [
    | inl e ↦ rw (e, finish_attempt) h
    | inr e ↦
        rw (e, finish_attempt)
          (taken_back_unless-IsWithin (keeps_account outcome) r.account_key r.account_serial _
            (taken_back_unless-IsWithin (keeps_ip outcome) r.ip_key r.ip_serial s.entries h))
  ]

  -- The windows after any attempts and ends of attempts, in any order.
  pub data Reached : Windows → Type 0 where
    start : (s : Windows) → s.entries ≡ [] → Reached s
    began :
        (ip_name account_name : Text) (now : Instant) (s : Windows)
        → Reached s
        → Reached (begin_attempt t ip_name account_name now s).1
    finished :
        (r : Option LoginAttemptReservation) (outcome : LoginAttemptOutcome) (s : Windows)
        → Reached s
        → Reached (finish_attempt r outcome s).1

  -- Whatever attempts begin and end, in whatever order and with whatever reservations, a key has one
  -- window at most, no window has more attempts than the limit of its scope, and there are no more
  -- windows than `max_entries`. The limits are positive, as the constructor demands.
  pub Reached-IsWithin :
      (s : Windows) → 0 < t.ip_limit → 0 < t.account_limit → Reached s → IsWithin t s.entries
  unfolding count_where
  Reached-IsWithin _ few_ip few_account (start s empty) =
      rw empty (record { one_window = λ k. omega arith; limited = tt; few = omega arith })
  Reached-IsWithin _ few_ip few_account (began ip_name account_name now s r) =
      begin_attempt-IsWithin ip_name account_name now s few_ip few_account
        (Reached-IsWithin s few_ip few_account r)
  Reached-IsWithin _ few_ip few_account (finished r outcome s before) =
      finish_attempt-IsWithin r outcome s (Reached-IsWithin s few_ip few_account before)
