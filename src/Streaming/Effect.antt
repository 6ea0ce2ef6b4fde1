-- ===== src/Streaming/Effect.antt =====
-- What `process_observation` does to the items, the outbox, the tasks and their evidence: an item
-- keeps its place, or one transition is recorded.
use rfid_inventory_replenish.Prelude.{
  ℕ, ◌+◌, ◌≤◌, max, ◌≡◌, refl, sym, ap, ◌∙◌, inl, inr, Bool, true, false, not, Option, none, some,
  List, [], ◌∷◌, arith, find, update_where, is_none, if◌then◌else◌, Bool-cases, Option-cases,
}
use rfid_inventory_replenish.Domain.{
  Uuid, Text, Instant, seconds, Result, ok, err, ◌>>=◌, Result-cases,
}
use rfid_inventory_replenish.Floats.{FloatOps}
use rfid_inventory_replenish.Connectivity.{
  Settings, StoreConnectivity, RfidObservationEvent, CurrentItemState, update_connectivity,
}
use rfid_inventory_replenish.Streaming.Rows.{
  Disposition, Why, stable_evidence_before_current_state, EpcBinding, ObservationBook, StreamDb,
  is_item,
}
use rfid_inventory_replenish.Streaming.Batches.{
  ProcessingResult, finish, quarantine_observation, advance_batch,
}
use rfid_inventory_replenish.Streaming.Recent.{RecentObservationState}
use rfid_inventory_replenish.Streaming.Zones.{StableZoneDecision, infer_stable_zone}
use rfid_inventory_replenish.Streaming.Process.{
  Clock, Observation, Admission, stop, observe, admit, is_too_far_ahead, admit_bound, admit_binding,
  admit_resolved, admit_resolution, is_before, is_removed, watermark_of, latest_of,
  processed_observation_watermark, Resolution, refused, assigned, resolve_effective_assignment,
  resolve_binding,
}
use rfid_inventory_replenish.Streaming.Items.{
  is_flush_due, with_item, touched, same_current_evidence, weakened, ambiguous_state,
  refreshed_state,
}
use rfid_inventory_replenish.Streaming.Transition.{Naming, is_settled, transitioned}
use rfid_inventory_replenish.Streaming.Observe.{conclude, process_observation}
pub mod Checks
pub mod Observed

module _ {F : Type 0} where
  -- The tables that a transition concerns are the same.
  pub record SameTables (db db' : StreamDb F) : Type 0 where
    pub same_items : db'.items ≡ db.items
    pub same_outbox : db'.outbox ≡ db.outbox
    pub same_tasks : db'.tasks ≡ db.tasks
    pub same_evidence : db'.evidence ≡ db.evidence
    pub same_zones : db'.zones ≡ db.zones

  -- Where an item is, under which SKU and version, and whether it is removed.
  pub record SamePlace (a b : CurrentItemState F) : Type 0 where
    pub same_tenant : b.tenant_id ≡ a.tenant_id
    pub same_epc : b.epc ≡ a.epc
    pub same_sku : b.sku_id ≡ a.sku_id
    pub same_store : b.store_id ≡ a.store_id
    pub same_zone : b.zone_id ≡ a.zone_id
    pub same_version : b.state_version ≡ a.state_version
    pub same_removal : b.authoritative_removal_event_id ≡ a.authoritative_removal_event_id
    pub not_earlier : a.last_observed_at ≤ b.last_observed_at

  -- The item can move on the evidence of an event: it is not removed, it is not at the place already,
  -- and was not observed later.
  pub record Movable (event : RfidObservationEvent F) (sku : Uuid) (decision : StableZoneDecision F)
      (state : Option (CurrentItemState F)) : Type 0 where
    pub not_settled : is_settled sku decision state ≡ false
    pub not_removed : is_removed state ≡ false
    pub observed_later : is_before event.observed_at (watermark_of state) ≡ false

  -- The finalization of the event that a call ends with.
  pub record Finalized (event : RfidObservationEvent F) (book book' : ObservationBook F)
      : Type 0 where
    pub rejects : Bool
    pub disposition : Disposition
    pub reason : Option Why
    pub now : Instant
    pub done : advance_batch event rejects (some disposition) reason now book ≡ ok book'

  -- A call that returns says whether the state changed, and has finalized the event.
  pub record Ended (event : RfidObservationEvent F) (changed : Bool) (book : ObservationBook F)
      (out : ProcessingResult × StreamDb F) : Type 0 where
    pub flag : out.0.state_changed ≡ changed
    pub finalized : Finalized event book out.1.book

  pub data Effect (event : RfidObservationEvent F) (naming : Naming) (db : StreamDb F)
      (out : ProcessingResult × StreamDb F) : Type 0 where
    untouched : Ended event false db.book out → SameTables db out.1 → Effect event naming db out
    stayed :
        (f : CurrentItemState F → CurrentItemState F)
        → ((s : CurrentItemState F) → SamePlace s (f s))
        → Ended event false db.book out
        → SameTables (with_item event f db) out.1
        → Effect event naming db out
    moved :
        (sku : Uuid) (decision : StableZoneDecision F) (now : Instant)
        → Movable event sku decision (find (is_item event.tenant_id event.epc) db.items)
        → Ended event true db.book out
        → SameTables
            (transitioned event sku decision naming now
              (find (is_item event.tenant_id event.epc) db.items)
              db)
            out.1
        → Effect event naming db out

  pub same_tables : (db : StreamDb F) → SameTables db db
  same_tables db = record {
    same_items = refl;
    same_outbox = refl;
    same_tasks = refl;
    same_evidence = refl;
    same_zones = refl;
  }

  pub same_connectivity :
      (db : StreamDb F) (rows : List StoreConnectivity)
      → SameTables db (record db { connectivity = rows })
  same_connectivity db rows = record {
    same_items = refl;
    same_outbox = refl;
    same_tasks = refl;
    same_evidence = refl;
    same_zones = refl;
  }

  pub touched-SamePlace :
      (event : RfidObservationEvent F) (settings : Settings) (s : CurrentItemState F)
      → SamePlace s (touched event settings s)
  unfolding touched
  touched-SamePlace event settings s = record {
    same_tenant = ground arith;
    same_epc = ground arith;
    same_sku = ground arith;
    same_store = ground arith;
    same_zone = ground arith;
    same_version = ground arith;
    same_removal = ground arith;
    not_earlier = ground arith;
  }

  pub finish_lem :
      (event : RfidObservationEvent F) (rejects : Bool) (disposition : Disposition)
      (reason : Option Why) (changed : Bool) (now : Instant) (db : StreamDb F)
      (out : ProcessingResult × StreamDb F)
      → finish event rejects disposition reason changed now db ≡ ok out
      → Ended event changed db.book out × SameTables db out.1
  unfolding finish
  finish_lem event rejects disposition reason changed now db out h =
      elim (Result-cases (advance_batch event rejects (some disposition) reason now db.book)) [
        | inl (book, e) ↦ (
          record {
            flag = ground arith;
            finalized = record {
              rejects = rejects;
              disposition = disposition;
              reason = reason;
              now = now;
              done = let same : book ≡ out.1.book = ground arith in e ∙ ap ok same;
            };
          },
          record {
            same_items = ground arith;
            same_outbox = ground arith;
            same_tasks = ground arith;
            same_evidence = ground arith;
            same_zones = ground arith;
          },
        )
        | inr (problem, e) ↦ absurd (ground arith)
      ]

  pub same_trans : (a b c : StreamDb F) → SameTables a b → SameTables b c → SameTables a c
  same_trans a b c h k = record {
    same_items = k.same_items ∙ h.same_items;
    same_outbox = k.same_outbox ∙ h.same_outbox;
    same_tasks = k.same_tasks ∙ h.same_tasks;
    same_evidence = k.same_evidence ∙ h.same_evidence;
    same_zones = k.same_zones ∙ h.same_zones;
  }

  pub quarantine_lem :
      (event : RfidObservationEvent F) (reason : Why) (id : Uuid) (now : Instant) (db : StreamDb F)
      (out : ProcessingResult × StreamDb F)
      → quarantine_observation event reason id now db ≡ ok out
      → Ended event false db.book out × SameTables db out.1
  unfolding quarantine_observation
  quarantine_lem event reason id now db out h =
      let (flag, same) = finish_lem event true _ _ false now _ out h in
      (
        flag,
        same_trans db _ out.1
            (record {
              same_items = refl;
              same_outbox = refl;
              same_tasks = refl;
              same_evidence = refl;
              same_zones = refl;
            })
            same,
      )
