-- ===== src/Streaming/Restored.antt =====
-- What `process_observation` does to the recent state, and the checkpoint that the worker restores
-- when the transaction of an observation fails.
use rfid_inventory_replenish.Prelude.{
  ℕ, ◌≡◌, refl, subst, inl, inr, Option, [], ◌∷◌, arith, Bool-cases, Option-cases, length-append,
}
use rfid_inventory_replenish.Domain.{Uuid, Instant, ok}
use rfid_inventory_replenish.Floats.{FloatOps}
use rfid_inventory_replenish.Connectivity.{Settings, RfidObservationEvent}
use rfid_inventory_replenish.Streaming.Rows.{StreamDb}
use rfid_inventory_replenish.Streaming.Dicts.{pop}
use rfid_inventory_replenish.Streaming.Recent.{
  RecentObservationState, event_key, window_key, remember_event, forget_event, add_window, add,
  checkpoint, restore,
}
use rfid_inventory_replenish.Streaming.Recent.Agrees.{
  Agrees, bounded-Agrees, length-bounded, remember_id-Agrees, forget-remember_id-Agrees,
  length-remember_id, length-pop-le,
}
use rfid_inventory_replenish.Streaming.Recent.Restore.{IsBounded, SameContents, restore_lem}
use rfid_inventory_replenish.Streaming.Process.{Clock, Admission, stop, observe, admit}
use rfid_inventory_replenish.Streaming.Transition.{Naming}
use rfid_inventory_replenish.Streaming.Observe.{remembered, observe_admitted, process_observation}
use rfid_inventory_replenish.Streaming.Effect.Checks.{Checked, admit_lem}

module _ {F : Type 0} where
  -- What an observation may change of the recent state: the mark of its id, the window of its tag,
  -- and the oldest entry of each dictionary; both dictionaries stay within their bounds.
  pub record Recorded (event : RfidObservationEvent F) (s s' : RecentObservationState F)
      : Type 0 where
    pub ids_agree : Agrees (event_key event) s.event_ids s'.event_ids
    pub windows_agree : Agrees (window_key event) s.windows s'.windows
    pub within : IsBounded s'

  remembered-Recorded :
      (event : RfidObservationEvent F) (s : RecentObservationState F)
      → IsBounded s
      → Recorded event s (remembered event s).1
  unfolding remembered remember_event forget_event
  remembered-Recorded event s h = elim (Option-cases event.replayed_from_quarantine_id) [
    | inl e ↦ rw e (record {
      ids_agree = remember_id-Agrees (event_key event) s.maximum_event_ids s.event_ids h.few_ids;
      windows_agree = λ j other young. refl;
      within = record {
        few_windows = h.few_windows;
        few_ids = length-remember_id (event_key event) s.maximum_event_ids s.event_ids h.few_ids;
      };
    })
    | inr (id, e) ↦ rw e (record {
      ids_agree =
          forget-remember_id-Agrees (event_key event) s.maximum_event_ids s.event_ids h.few_ids;
      windows_agree = λ j other young. refl;
      within = record {
        few_windows = h.few_windows;
        few_ids =
            length-remember_id (event_key event) s.maximum_event_ids
              (pop (event_key event) s.event_ids)
              (omega (arith, h.few_ids, length-pop-le (event_key event) s.event_ids));
      };
    })
  ]

  add-Recorded :
      (event resolved : RfidObservationEvent F) (window_seconds : ℕ) (start : Option Instant)
      (s s' : RecentObservationState F)
      → window_key resolved ≡ window_key event
      → s'.windows ≡ s.windows
      → IsBounded s
      → Recorded event s s'
      → Recorded event s (add resolved window_seconds start s').0
  unfolding add add_window
  add-Recorded event resolved window_seconds start s s' same kept h r = record {
    ids_agree = r.ids_agree;
    windows_agree =
        let after = (add resolved window_seconds start s').0.windows in
        subst (λ k. Agrees k s.windows after) same
          (subst (λ d. Agrees (window_key resolved) d after) kept
            (bounded-Agrees (window_key resolved) _ s'.maximum_epcs s'.windows
              r.within.few_windows));
    within = record {
      few_windows = length-bounded s'.maximum_epcs _ (
          omega (
            arith,
            r.within.few_windows,
            length-pop-le (window_key resolved) s'.windows,
            length-append (pop (window_key resolved) s'.windows) (
                (record {
                  key = window_key resolved;
                  value = (add resolved window_seconds start s').1;
                })
                ∷ []),
          ));
      few_ids = r.within.few_ids;
    };
  }

  remembered-windows :
      (event : RfidObservationEvent F) (s : RecentObservationState F)
      → (remembered event s).1.windows ≡ s.windows
  unfolding remembered remember_event forget_event
  remembered-windows event s = elim (Option-cases event.replayed_from_quarantine_id) [
    | inl e ↦ rw e refl
    | inr (id, e) ↦ rw e refl
  ]

  observe_admitted-Recorded :
      (ops : FloatOps F) (event : RfidObservationEvent F) (x : Admission F) (now : Instant)
      (naming : Naming) (settings : Settings) (s s' : RecentObservationState F) (db : StreamDb F)
      → Checked event db x
      → s'.windows ≡ s.windows
      → IsBounded s
      → Recorded event s s'
      → Recorded event s (observe_admitted ops event x now naming settings s').1
  unfolding Checked
  observe_admitted-Recorded ops event (stop out) now naming settings s s' db c kept h r = r
  observe_admitted-Recorded ops event (observe seen db') now naming settings s s' db c kept h r =
      add-Recorded event seen.resolved _ seen.evidence_start s s' c.0.same_window kept h r

  pub process_observation-Recorded :
      (ops : FloatOps F) (event : RfidObservationEvent F) (s : RecentObservationState F)
      (settings : Settings) (clock : Clock) (id : Uuid) (naming : Naming) (db : StreamDb F)
      → IsBounded s
      → Recorded event s (process_observation ops event s settings clock id naming db).1
  unfolding process_observation
  process_observation-Recorded ops event s settings clock id naming db h =
      let known = remembered-Recorded event s h in
      elim (Bool-cases (remembered event s).0) [
        | inr e ↦ rw e known
        | inl e ↦ rw e (
            observe_admitted-Recorded ops event (admit event settings clock id db)
              clock.finalized_at naming settings s (remembered event s).1 db
              (admit_lem event settings clock id db) (remembered-windows event s) h known)
      ]

-- Whatever the outcome of an observation is, an error included, the recent state stays within its
-- bounds: as many tags and as many event ids as it may hold at most.
pub process_observation-IsBounded :
    {F : Type 0} (ops : FloatOps F) (event : RfidObservationEvent F) (s : RecentObservationState F)
    (settings : Settings) (clock : Clock) (id : Uuid) (naming : Naming) (db : StreamDb F)
    → IsBounded s
    → IsBounded (process_observation ops event s settings clock id naming db).1
process_observation-IsBounded ops event s settings clock id naming db h =
    (process_observation-Recorded ops event s settings clock id naming db h).within

-- The checkpoint that is taken before an observation can be restored after it, whatever its outcome
-- is, an error included: no error is raised, and then the same event ids are known and every tag has
-- the same window as before, if the recent state was within its bounds.
pub restore-process_observation :
    {F : Type 0} (ops : FloatOps F) (event : RfidObservationEvent F) (s : RecentObservationState F)
    (settings : Settings) (clock : Clock) (id : Uuid) (naming : Naming) (db : StreamDb F)
    → IsBounded s
    → (t : RecentObservationState F) × (restore
          (checkpoint event s)
          (process_observation ops event s settings clock id naming db).1
        ≡ ok t)
      × SameContents t s
restore-process_observation ops event s settings clock id naming db h =
    let r = process_observation-Recorded ops event s settings clock id naming db h in
    restore_lem event s _ r.ids_agree r.windows_agree
