-- ===== src/Throttle.antt =====
-- `LoginThrottle` (`src/abacus/security.py`). The monotonic clock is a number of microseconds. The
-- names of an attempt, a normalized address and the digest of a normalized account, are arguments. A window object has a
-- serial number, which tells it from a later window of the same key. An attempt is taken back only
-- by the reservation that added it, so that the subtraction does not stop at 0.
pub mod Laws
pub mod Attempts
pub mod Reachable
pub mod Tests
use rfid_inventory_replenish.Prelude.{
  ℕ, suc, ◌+◌, ◌-◌, ◌/◌, min, max, ltb, leb, Bool, true, false, not, ◌&&◌, ◌||◌, Option, none, some,
  List, [], ◌∷◌, ◌++◌, map, find, select, is_none, ◌==◌, if◌then◌else◌, length,
}
use rfid_inventory_replenish.Domain.{Text, Instant, seconds}

-- A key is a pair of strings: "ip" or "account", and the name.
pub record WindowKey : Type 0 where
  pub scope : Text
  pub name : Text

abbrev pub ip_scope : Text
ip_scope = 1

abbrev pub account_scope : Text
account_scope = 0

abbrev pub same_window_key : WindowKey → WindowKey → Bool
same_window_key a b = a.scope == b.scope && a.name == b.name

pub record LoginAttemptWindow : Type 0 where
  pub serial : ℕ
  pub started_at : Instant
  pub attempts : ℕ

pub record WindowEntry : Type 0 where
  pub key : WindowKey
  pub window : LoginAttemptWindow

pub record LoginThrottle : Type 0 where
  pub enabled : Bool
  pub window_seconds : ℕ
  pub ip_limit : ℕ
  pub account_limit : ℕ
  pub max_entries : ℕ

pub record LoginAttemptReservation : Type 0 where
  pub ip_key : WindowKey
  pub account_key : WindowKey
  pub ip_serial : ℕ
  pub account_serial : ℕ
  pub finalized : Bool

-- What the throttle keeps, and the serial number of the next window.
pub record Windows : Type 0 where
  pub entries : List WindowEntry
  pub next_serial : ℕ

pub data LoginAttemptOutcome : Type 0 where
  success authentication_failed aborted : LoginAttemptOutcome

pub record LoginThrottleDecision : Type 0 where
  pub reservation : Option LoginAttemptReservation
  pub retry_after : Option ℕ

abbrev pub limit_of : LoginThrottle → WindowKey → ℕ
limit_of t key = if key.scope == ip_scope then t.ip_limit else t.account_limit

abbrev pub is_over : LoginThrottle → Instant → WindowEntry → Bool
is_over t now e = leb (seconds t.window_seconds) (now - e.window.started_at)

abbrev pub has_key : WindowKey → WindowEntry → Bool
has_key key e = same_window_key e.key key

-- `del self._entries[key]`
unfoldable pub delete_window : WindowKey → List WindowEntry → List WindowEntry
delete_window key entries = select (λ e. not (has_key key e)) entries

-- The window of a key, and the windows without it if it is over.
unfoldable pub active_window :
    LoginThrottle
    → WindowKey
    → Instant
    → List WindowEntry
    → Option LoginAttemptWindow × List WindowEntry
active_window t key now entries = elim (find (has_key key) entries) [
  | none ↦ (none, entries)
  | some e ↦ if is_over t now e then (none, delete_window key entries) else (some e.window, entries)
]

unfoldable pub remove_expired_windows :
    LoginThrottle → Instant → List WindowEntry → List WindowEntry
remove_expired_windows t now entries = select (λ e. not (is_over t now e)) entries

-- `ceil` of a number of microseconds in seconds, 1 at least.
abbrev pub retry_seconds : ℕ → ℕ
retry_seconds remaining = max 1 ((remaining + 999999) / 1000000)

abbrev remaining_of : LoginThrottle → Instant → LoginAttemptWindow → ℕ
remaining_of t now w = seconds t.window_seconds - (now - w.started_at)

unfoldable pub least_remaining : LoginThrottle → Instant → List WindowEntry → ℕ
least_remaining t now [] = seconds t.window_seconds
least_remaining t now (e ∷ []) = remaining_of t now e.window
least_remaining t now (e ∷ es) = min (remaining_of t now e.window) (least_remaining t now es)

unfoldable pub capacity_retry_after : LoginThrottle → Instant → List WindowEntry → ℕ
capacity_retry_after t now entries = retry_seconds (least_remaining t now entries)

-- How long a window that is used up lasts.
unfoldable pub used_up : LoginThrottle → Instant → ℕ → Option LoginAttemptWindow → Option ℕ
used_up t now limit none = none
used_up t now limit (some w) = if leb limit w.attempts then some (remaining_of t now w) else none

abbrev pub longest : Option ℕ → Option ℕ → Option ℕ
longest none b = b
longest (some a) none = some a
longest (some a) (some b) = some (max a b)

abbrev pub one_if_none : Option LoginAttemptWindow → ℕ
one_if_none none = 1
one_if_none (some w) = 0

-- `window.attempts += 1` for the window of a key.
unfoldable pub counted : WindowKey → List WindowEntry → List WindowEntry
counted key [] = []
counted key (e ∷ es) =
    let rest = counted key es in
    if has_key key e
    then (record e { window = record (e.window) { attempts = e.window.attempts + 1 } }) ∷ es
    else e ∷ rest

-- The serial number of the window of a key, a new one where there is none.
unfoldable pub window_or_new :
    WindowKey → Instant → Option LoginAttemptWindow → Windows → ℕ × Windows
window_or_new key now (some w) s = (w.serial, s)
window_or_new key now none s = (
  s.next_serial,
  record {
    entries =
        s.entries
        ++ ((record {
          key = key;
          window = record { serial = s.next_serial; started_at = now; attempts = 0 };
        })
            ∷ []);
    next_serial = s.next_serial + 1;
  },
)

-- Both windows are counted up, new ones included.
unfoldable pub reserve :
    WindowKey
    → WindowKey
    → Instant
    → Option LoginAttemptWindow
    → Option LoginAttemptWindow
    → Windows
    → LoginThrottleDecision × Windows
reserve ip_key account_key now ip_window account_window s =
    let a = window_or_new ip_key now ip_window s in
    let b = window_or_new account_key now account_window a.1 in
    (
      record {
        reservation = some (record {
          ip_key = ip_key;
          account_key = account_key;
          ip_serial = a.0;
          account_serial = b.0;
          finalized = false;
        });
        retry_after = none;
      },
      record {
        entries = counted account_key (counted ip_key b.1.entries);
        next_serial = b.1.next_serial;
      },
    )

unfoldable pub fits :
    LoginThrottle → Option LoginAttemptWindow → Option LoginAttemptWindow → List WindowEntry → Bool
fits t ip_window account_window entries =
    leb (length entries + (one_if_none ip_window + one_if_none account_window)) t.max_entries

abbrev pub refuse : ℕ → Windows → LoginThrottleDecision × Windows
refuse after s = (record { reservation = none; retry_after = some after }, s)

-- The attempt where neither window is used up.
unfoldable pub admit_attempt :
    LoginThrottle
    → WindowKey
    → WindowKey
    → Instant
    → Option LoginAttemptWindow
    → Option LoginAttemptWindow
    → Windows
    → LoginThrottleDecision × Windows
admit_attempt t ip_key account_key now ip_window account_window s =
    if fits t ip_window account_window s.entries
    then reserve ip_key account_key now ip_window account_window s
    else let a = active_window t ip_key now (remove_expired_windows t now s.entries) in
      let b = active_window t account_key now a.1 in
      let s' : Windows = record s { entries = b.1 } in
      if fits t a.0 b.0 b.1
      then reserve ip_key account_key now a.0 b.0 s'
      else refuse (capacity_retry_after t now b.1) s'

abbrev pub ip_key_of : Text → WindowKey
ip_key_of name = record { scope = ip_scope; name = name }

abbrev pub account_key_of : Text → WindowKey
account_key_of name = record { scope = account_scope; name = name }

-- The attempt where the throttle is on.
unfoldable pub begin_enabled :
    LoginThrottle → WindowKey → WindowKey → Instant → Windows → LoginThrottleDecision × Windows
begin_enabled t ip_key account_key now s =
    let a = active_window t ip_key now s.entries in
    let b = active_window t account_key now a.1 in
    let s' : Windows = record s { entries = b.1 } in
    elim (longest (used_up t now t.ip_limit a.0) (used_up t now t.account_limit b.0)) [
      | some remaining ↦ refuse (retry_seconds remaining) s'
      | none ↦ admit_attempt t ip_key account_key now a.0 b.0 s'
    ]

unfoldable pub begin_attempt :
    LoginThrottle
    → (ip_name : Text) → (account_name : Text) → Instant
    → Windows
    → LoginThrottleDecision × Windows
begin_attempt t ip_name account_name now s =
    if not t.enabled
    then (record { reservation = none; retry_after = none }, s)
    else begin_enabled t (ip_key_of ip_name) (account_key_of account_name) now s

abbrev pub keeps_ip : LoginAttemptOutcome → Bool
keeps_ip success = true
keeps_ip authentication_failed = true
keeps_ip aborted = false

abbrev pub keeps_account : LoginAttemptOutcome → Bool
keeps_account success = false
keeps_account authentication_failed = true
keeps_account aborted = false

-- One attempt fewer in the window of a key, if it is still the window with that serial number; the
-- window goes with its last attempt.
unfoldable pub taken_back : WindowKey → ℕ → List WindowEntry → List WindowEntry
taken_back key serial [] = []
taken_back key serial (e ∷ es) =
    let rest = taken_back key serial es in
    if has_key key e
    then (if not (e.window.serial == serial)
        then e ∷ es
        else if e.window.attempts - 1 == 0
        then es
        else (record e { window = record (e.window) { attempts = e.window.attempts - 1 } }) ∷ es)
    else e ∷ rest

unfoldable pub finish_attempt :
    Option LoginAttemptReservation
    → LoginAttemptOutcome
    → Windows
    → Option LoginAttemptReservation × Windows
finish_attempt none outcome s = (none, s)
finish_attempt (some r) outcome s =
    if r.finalized
    then (some r, s)
    else let entries =
        if keeps_ip outcome then s.entries else taken_back r.ip_key r.ip_serial s.entries in
      let entries' =
        if keeps_account outcome
        then entries
        else taken_back r.account_key r.account_serial entries in
      (some (record r { finalized = true }), record s { entries = entries' })
