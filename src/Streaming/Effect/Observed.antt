-- ===== src/Streaming/Effect/Observed.antt =====
-- What `process_observation` does to the tables of items and transitions.
use rfid_inventory_replenish.Prelude.{
  ◌≡◌, refl, ap, inl, inr, true, false, Option, none, some, List, ◌∷◌, arith, update_where,
  Bool-cases, Option-cases,
}
use rfid_inventory_replenish.Domain.{Uuid, Instant, ok}
use rfid_inventory_replenish.Floats.{FloatOps}
use rfid_inventory_replenish.Connectivity.{Settings, RfidObservationEvent, CurrentItemState}
use rfid_inventory_replenish.Streaming.Rows.{
  Disposition, Why, stable_evidence_before_current_state, StreamDb, is_item,
}
use rfid_inventory_replenish.Streaming.Batches.{ProcessingResult, finish}
use rfid_inventory_replenish.Streaming.Recent.{RecentObservationState}
use rfid_inventory_replenish.Streaming.Zones.{StableZoneDecision, infer_stable_zone}
use rfid_inventory_replenish.Streaming.Process.{
  Clock, Observation, Admission, stop, observe, admit, is_before,
}
use rfid_inventory_replenish.Streaming.Items.{
  with_item, touched, weakened, ambiguous_state, refreshed_state,
}
use rfid_inventory_replenish.Streaming.Transition.{
  Naming, is_settled, transitioned, transition_row, previous_zone, attributed, moved_items,
}
use rfid_inventory_replenish.Streaming.Observe.{
  observe_admitted, remembered, conclude, process_observation,
}
use rfid_inventory_replenish.Streaming.Effect.{
  SameTables, same_trans, SamePlace, Effect, untouched, stayed, moved, finish_lem,
}
use rfid_inventory_replenish.Streaming.Effect.Checks.{Seen, Checked, admit_lem}

module _ {F : Type 0} where
  -- What an end of `conclude` is, given the tables that it finalizes.
  stayed_lem :
      (event : RfidObservationEvent F) (naming : Naming) (disposition : Disposition)
      (reason : Option Why) (now : Instant) (db : StreamDb F)
      (f : CurrentItemState F → CurrentItemState F)
      → ((s : CurrentItemState F) → SamePlace s (f s))
      → (out : ProcessingResult × StreamDb F)
      → finish event false disposition reason false now (with_item event f db) ≡ ok out
      → Effect event naming db out
  stayed_lem event naming disposition reason now db f keeps out h =
      let (flag, same) = finish_lem event false _ _ false now _ out h in stayed f keeps flag same

  with_item-SameTables :
      (event : RfidObservationEvent F) (f : CurrentItemState F → CurrentItemState F)
      (a b : StreamDb F)
      → SameTables a b
      → SameTables (with_item event f a) (with_item event f b)
  with_item-SameTables event f a b h = record {
    same_items = ap (update_where (is_item event.tenant_id event.epc) f) h.same_items;
    same_outbox = h.same_outbox;
    same_tasks = h.same_tasks;
    same_evidence = h.same_evidence;
    same_zones = h.same_zones;
  }

  attributed_same :
      (event : RfidObservationEvent F) (sku : Uuid) (decision : StableZoneDecision F)
      (transition_id : Uuid) (zone : Option Uuid) (a b : StreamDb F)
      → SameTables a b
      → attributed event sku decision transition_id zone b
        ≡ attributed event sku decision transition_id zone a
  unfolding attributed
  attributed_same event sku decision transition_id none a b h =
      rw (h.same_tasks, h.same_evidence) refl
  attributed_same event sku decision transition_id (some zone) a b h =
      rw (h.same_tasks, h.same_evidence, h.same_zones) refl

  transitioned-SameTables :
      (event : RfidObservationEvent F) (sku : Uuid) (decision : StableZoneDecision F)
      (naming : Naming) (now : Instant) (state : Option (CurrentItemState F)) (a b : StreamDb F)
      → SameTables a b
      → SameTables
          (transitioned event sku decision naming now state a)
          (transitioned event sku decision naming now state b)
  unfolding transitioned attributed
  transitioned-SameTables event sku decision naming now state a b h =
      let same : attributed event sku decision
            (transition_row event sku decision naming now state).transition_id
            (previous_zone sku decision state) b
          ≡ attributed event sku decision
              (transition_row event sku decision naming now state).transition_id
              (previous_zone sku decision state) a =
        attributed_same event sku decision _ (previous_zone sku decision state) a b h in
      record {
        same_items = ap (moved_items event sku decision state) h.same_items;
        same_outbox = ap (◌∷◌ (transition_row event sku decision naming now state)) h.same_outbox;
        same_tasks = ap (λ (x : _ × _). x.0) same;
        same_evidence = ap (λ (x : _ × _). x.1) same;
        same_zones = h.same_zones;
      }

  Effect-trans :
      (event : RfidObservationEvent F) (naming : Naming) (a b : StreamDb F)
      (out : ProcessingResult × StreamDb F)
      → SameTables a b
      → b.book ≡ a.book
      → Effect event naming b out
      → Effect event naming a out
  Effect-trans event naming a b out h book (untouched end same) =
      untouched (rw (← book) end) (same_trans a b out.1 h same)
  Effect-trans event naming a b out h book (stayed f keeps end same) =
      stayed f keeps (rw (← book) end)
        (same_trans _ _ out.1 (with_item-SameTables event f a b h) same)
  Effect-trans event naming a b out h book (moved sku decision now can end same) =
      moved sku decision now (rw (← h.same_items) can) (rw (← book) end) (
        same_trans _ _ out.1 (transitioned-SameTables event sku decision naming now _ a b h)
          (rw (← h.same_items) same))

module _ {F : Type 0} (ops : FloatOps F) where
  ambiguous-SamePlace :
      (event : RfidObservationEvent F) (sku : Uuid) (window : List (RfidObservationEvent F))
      (settings : Settings) (s : CurrentItemState F)
      → SamePlace s (ambiguous_state ops event sku window settings s)
  unfolding ambiguous_state weakened touched
  ambiguous-SamePlace event sku window settings s = record {
    same_tenant = ground arith;
    same_epc = ground arith;
    same_sku = ground arith;
    same_store = ground arith;
    same_zone = ground arith;
    same_version = ground arith;
    same_removal = ground arith;
    not_earlier = ground arith;
  }

  weakened-SamePlace :
      (event : RfidObservationEvent F) (settings : Settings) (s : CurrentItemState F)
      → SamePlace s (touched event settings (weakened ops s))
  unfolding weakened touched
  weakened-SamePlace event settings s = record {
    same_tenant = ground arith;
    same_epc = ground arith;
    same_sku = ground arith;
    same_store = ground arith;
    same_zone = ground arith;
    same_version = ground arith;
    same_removal = ground arith;
    not_earlier = ground arith;
  }

  refreshed-SamePlace :
      (event : RfidObservationEvent F) (decision : StableZoneDecision F) (settings : Settings)
      (s : CurrentItemState F)
      → SamePlace s (refreshed_state ops event decision settings s)
  unfolding refreshed_state
  refreshed-SamePlace event decision settings s = record {
    same_tenant = ground arith;
    same_epc = ground arith;
    same_sku = ground arith;
    same_store = ground arith;
    same_zone = ground arith;
    same_version = ground arith;
    same_removal = ground arith;
    not_earlier = ground arith;
  }

  conclude_lem :
      (event : RfidObservationEvent F) (seen : Observation F)
      (window : List (RfidObservationEvent F)) (now : Instant) (naming : Naming)
      (settings : Settings) (db : StreamDb F) (out : ProcessingResult × StreamDb F)
      → Seen event db seen
      → conclude ops event seen window now naming settings db ≡ ok out
      → Effect event naming db out
  unfolding conclude transitioned
  conclude_lem event seen window now naming settings db out s h =
      let sku = seen.binding.sku_id in
      elim (Option-cases (infer_stable_zone ops settings window)) [
        | inl e ↦
            stayed_lem event naming Disposition.ambiguous none now db
              (ambiguous_state ops event sku window settings)
              (ambiguous-SamePlace event sku window settings) out (rw (e, conclude) at h)
        | inr (decision, e) ↦ elim (Bool-cases (is_before decision.observed_at seen.watermark)) [
          | inl old ↦
              stayed_lem event naming Disposition.ambiguous
                (some stable_evidence_before_current_state) now db
                (λ state. touched event settings (weakened ops state))
                (weakened-SamePlace event settings) out (rw (e, old, conclude) at h)
          | inr new ↦ elim (Bool-cases (is_settled sku decision seen.state)) [
            | inl there ↦
                stayed_lem event naming Disposition.processed none now db
                  (refreshed_state ops event decision settings)
                  (refreshed-SamePlace event decision settings) out
                  (rw (e, new, there, conclude) at h)
            | inr away ↦
                let (flag, same) =
                  finish_lem event false Disposition.processed none true now
                    (transitioned event sku decision naming now seen.state db) out
                    (rw (e, new, away, conclude) at h) in
                moved sku decision now
                  (rw (← s.its_state) (record {
                    not_settled = away;
                    not_removed = s.in_place;
                    observed_later = s.in_order;
                  }))
                  flag (rw (← s.its_state) same)
          ]
        ]
      ]

  observe_admitted_lem :
      (event : RfidObservationEvent F) (x : Admission F) (now : Instant) (naming : Naming)
      (settings : Settings) (recent : RecentObservationState F) (db : StreamDb F)
      (out : ProcessingResult × StreamDb F)
      → Checked event db x
      → (observe_admitted ops event x now naming settings recent).0 ≡ ok out
      → Effect event naming db out
  unfolding Checked
  observe_admitted_lem event (stop result) now naming settings recent db out c h =
      let (flag, same) = c out h in untouched flag same
  observe_admitted_lem event (observe seen db') now naming settings recent db out c h =
      Effect-trans event naming db db' out c.1 c.2
        (conclude_lem event seen _ now naming settings db' out c.0 h)

  pub process_observation_lem :
      (event : RfidObservationEvent F) (recent : RecentObservationState F) (settings : Settings)
      (clock : Clock) (id : Uuid) (naming : Naming) (db : StreamDb F)
      (out : ProcessingResult × StreamDb F)
      → (process_observation ops event recent settings clock id naming db).0 ≡ ok out
      → Effect event naming db out
  unfolding process_observation
  process_observation_lem event recent settings clock id naming db out h =
      elim (Bool-cases (remembered event recent).0) [
        | inl e ↦
            observe_admitted_lem event (admit event settings clock id db) clock.finalized_at naming
              settings (remembered event recent).1 db out (admit_lem event settings clock id db)
              (rw e at h)
        | inr e ↦
            let (flag, same) =
              finish_lem event false Disposition.duplicate none false clock.finalized_at db out
                (rw e at h) in
            untouched flag same
      ]
