-- ===== src/Streaming/Recent/Restore.antt =====
-- The bounds of the recent state, and what a restored checkpoint brings back.
use rfid_inventory_replenish.Prelude.{
  ◌≤◌, ◌≡◌, refl, ap, Option, none, some, [], ◌∷◌, is_some, if◌then◌else◌, length,
}
use rfid_inventory_replenish.Domain.{ok}
use rfid_inventory_replenish.Connectivity.{RfidObservationEvent}
use rfid_inventory_replenish.Streaming.Dicts.{DictKey, Dict, get, pop, put, oldest}
use rfid_inventory_replenish.Streaming.Recent.{
  RecentObservationState, event_key, window_key, checkpoint, oldest_key, restore_ids,
  restore_windows, restore, put_back,
}
use rfid_inventory_replenish.Streaming.Recent.Agrees.{Agrees, oldest_there, restore_windows_lem}

put_back-ids :
    (k : DictKey) (before : Option (Unit {0})) (ids : Dict (Unit {0}))
    → (if is_some before then put k tt ids else pop k ids) ≡ put_back k before ids
unfolding put_back
put_back-ids k none ids = refl
put_back-ids k (some v) ids = refl

restore_ids-windows :
    (k : DictKey) (ids ids' : Dict (Unit {0}))
    → restore_ids k (is_some (get k ids)) (oldest_key ids) ids'
      ≡ restore_windows k (get k ids) (oldest ids) ids'
unfolding restore_ids restore_windows oldest oldest_key
restore_ids-windows k [] ids' = ap ok (put_back-ids k (get k []) ids')
restore_ids-windows k (o ∷ d) ids' =
    rw (oldest_there o d k, put_back-ids k (get k (o ∷ d)) ids') refl

module _ {F : Type 0} where
  -- The dictionaries are within their bounds.
  pub record IsBounded (s : RecentObservationState F) : Type 0 where
    pub few_windows : length s.windows ≤ s.maximum_epcs
    pub few_ids : length s.event_ids ≤ s.maximum_event_ids

  -- The same events are known, and every tag has the same window.
  abbrev pub SameContents : RecentObservationState F → RecentObservationState F → Type 0
  SameContents s t =
      ((k : DictKey) → get k s.event_ids ≡ get k t.event_ids)
      × ((k : DictKey) → get k s.windows ≡ get k t.windows)

  pub restore_lem :
      (event : RfidObservationEvent F) (s s' : RecentObservationState F)
      → Agrees (event_key event) s.event_ids s'.event_ids
      → Agrees (window_key event) s.windows s'.windows
      → (t : RecentObservationState F) × (restore (checkpoint event s) s' ≡ ok t) × SameContents t s
  unfolding restore checkpoint
  restore_lem event s s' on_ids on_windows =
      let (ids, back, same_ids) =
        restore_windows_lem (event_key event) s.event_ids s'.event_ids on_ids in
      let (windows, back', same_windows) =
        restore_windows_lem (window_key event) s.windows s'.windows on_windows in
      (
        record s' { event_ids = ids; windows = windows },
        rw (restore_ids-windows (event_key event) s.event_ids s'.event_ids, back, back') refl,
        (same_ids, same_windows),
      )
