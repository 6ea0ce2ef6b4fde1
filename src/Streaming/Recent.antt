-- ===== src/Streaming/Recent.antt =====
-- `RecentObservationState` (`src/abacus/services/streaming_inventory.py`): the ids of the events
-- that the worker has seen and the recent reads of each tag, both bounded, with the checkpoint that
-- is restored when a transaction rolls back.
pub mod Agrees
pub mod Restore
use rfid_inventory_replenish.Prelude.{
  ℕ, ◌-◌, max, ltb, leb, Bool, true, false, not, ◌&&◌, ◌||◌, Option, none, some, List, [], ◌∷◌,
  ◌++◌, select, is_none, is_some, if◌then◌else◌, length,
}
use rfid_inventory_replenish.Domain.{Instant, seconds, Result, ok, ◌>>=◌}
use rfid_inventory_replenish.Connectivity.{RfidObservationEvent}
use rfid_inventory_replenish.Streaming.Dicts.{
  DictKey, same_entry, Entry, Dict, get, pop, put, drop_oldest, oldest, move_to_end, move_to_front,
}

pub record RecentObservationState (F : Type 0) : Type 0 where
  pub windows : Dict (List (RfidObservationEvent F))
  pub event_ids : Dict (Unit {0})
  pub maximum_epcs : ℕ
  pub maximum_event_ids : ℕ

module _ {F : Type 0} where
  abbrev pub event_key : RfidObservationEvent F → DictKey
  event_key event = record { tenant_id = event.tenant_id; name = event.event_id }

  abbrev pub window_key : RfidObservationEvent F → DictKey
  window_key event = record { tenant_id = event.tenant_id; name = event.epc }

-- `if len(d) > bound: d.popitem(last=False)`
unfoldable pub bounded : {V : Type 0} → ℕ → Dict V → Dict V
bounded bound d = if ltb bound (length d) then drop_oldest d else d

unfoldable pub remember_id : DictKey → ℕ → Dict (Unit {0}) → Bool × Dict (Unit {0})
remember_id k bound ids = elim (get k ids) [
  | some _ ↦ (false, pop k ids ++ ((record { key = k; value = tt }) ∷ []))
  | none ↦ (true, bounded bound (put k tt ids))
]

module _ {F : Type 0} where
  unfoldable pub remember_event :
      RfidObservationEvent F → RecentObservationState F → Bool × RecentObservationState F
  remember_event event s =
      let out = remember_id (event_key event) s.maximum_event_ids s.event_ids in
      (out.0, record s { event_ids = out.1 })

  unfoldable pub forget_event :
      RfidObservationEvent F → RecentObservationState F → RecentObservationState F
  forget_event event s = record s { event_ids = pop (event_key event) s.event_ids }

  -- `max(item.observed_at for item in window)`
  unfoldable pub newest_of : Instant → List (RfidObservationEvent F) → Instant
  newest_of at [] = at
  newest_of at (e ∷ es) = newest_of (max at e.observed_at) es

  unfoldable pub retained :
      RfidObservationEvent F
      → ℕ
      → Option Instant
      → List (RfidObservationEvent F)
      → List (RfidObservationEvent F)
  retained event window_seconds not_before window =
      let cutoff = newest_of event.observed_at window - seconds window_seconds in
      select
        (λ item.
          leb cutoff item.observed_at
          && elim not_before [ none ↦ true | some start ↦ leb start item.observed_at ])
        (window ++ (event ∷ []))

  abbrev pub window_of : Option (List (RfidObservationEvent F)) → List (RfidObservationEvent F)
  window_of none = []
  window_of (some window) = window

  -- The window that `setdefault` makes stands at the end, as one that is there is moved to.
  unfoldable pub add_window :
      RfidObservationEvent F
      → ℕ
      → Option Instant
      → ℕ
      → Dict (List (RfidObservationEvent F))
      → Dict (List (RfidObservationEvent F)) × List (RfidObservationEvent F)
  add_window event window_seconds not_before bound windows =
      let k = window_key event in
      let kept = retained event window_seconds not_before (window_of (get k windows)) in
      (bounded bound (pop k windows ++ ((record { key = k; value = kept }) ∷ [])), kept)

  unfoldable pub add :
      RfidObservationEvent F
      → ℕ
      → Option Instant
      → RecentObservationState F
      → RecentObservationState F × List (RfidObservationEvent F)
  add event window_seconds not_before s =
      let out = add_window event window_seconds not_before s.maximum_epcs s.windows in
      (record s { windows = out.0 }, out.1)

pub record RecentObservationCheckpoint (F : Type 0) : Type 0 where
  pub event_key : DictKey
  pub event_preexisting : Bool
  pub oldest_event_key : Option DictKey
  pub window_key : DictKey
  pub window_before : Option (List (RfidObservationEvent F))
  pub oldest_window : Option (Entry (List (RfidObservationEvent F)))

unfoldable pub oldest_key : {V : Type 0} → Dict V → Option DictKey
unfolding oldest
oldest_key d = elim (oldest d) [ none ↦ none | some e ↦ some e.key ]

module _ {F : Type 0} where
  unfoldable pub checkpoint :
      RfidObservationEvent F → RecentObservationState F → RecentObservationCheckpoint F
  checkpoint event s = record {
    event_key = event_key event;
    event_preexisting = is_some (get (event_key event) s.event_ids);
    oldest_event_key = oldest_key s.event_ids;
    window_key = window_key event;
    window_before = get (window_key event) s.windows;
    oldest_window = oldest s.windows;
  }

-- The entry of a key as it was: absent, or with its value.
unfoldable pub put_back : {V : Type 0} → DictKey → Option V → Dict V → Dict V
put_back k none d = pop k d
put_back k (some v) d = put k v d

unfoldable pub restore_ids :
    DictKey → Bool → Option DictKey → Dict (Unit {0}) → Result (Dict (Unit {0}))
restore_ids k preexisting eldest ids =
    let ids' = if preexisting then put k tt ids else pop k ids in
    elim eldest [ none ↦ ok ids' | some o ↦ move_to_front o (put o tt ids') ]

unfoldable pub restore_windows :
    {V : Type 0} → DictKey → Option V → Option (Entry V) → Dict V → Result (Dict V)
restore_windows k before eldest windows =
    let windows' = put_back k before windows in
    elim eldest [
      | none ↦ ok windows'
      | some o ↦ move_to_front o.key (
          if not (same_entry o.key k) || is_some before
          then put o.key o.value windows'
          else windows')
    ]

unfoldable pub restore :
    {F : Type 0}
    → RecentObservationCheckpoint F
    → RecentObservationState F
    → Result (RecentObservationState F)
restore c s = restore_ids c.event_key c.event_preexisting c.oldest_event_key s.event_ids >>= λ ids.
    restore_windows c.window_key c.window_before c.oldest_window s.windows >>= λ windows.
    ok (record s { event_ids = ids; windows = windows })
