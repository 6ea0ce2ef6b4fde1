-- ===== src/Streaming/Kept.antt =====
-- What an observation keeps true of the items and of the tasks, and the tables that observations
-- reach.
use rfid_inventory_replenish.Prelude.{
  ◌+◌, ◌≤◌, ◌≡◌, refl, inl, inr, ◌&&◌, Option, none, some, List, ◌∷◌, arith, find, find-none,
  count_where_none, count_where, count_update_keeps, All, All-update_where, Bool-cases,
  Option-cases, ◌==◌,
}
use rfid_inventory_replenish.Domain.{Uuid, Text, ok}
use rfid_inventory_replenish.Floats.{FloatOps}
use rfid_inventory_replenish.Connectivity.{Settings, RfidObservationEvent, CurrentItemState}
use rfid_inventory_replenish.Tasks.{ReplenishmentTask}
use rfid_inventory_replenish.Tasks.Invariant.{IsWellFormed}
use rfid_inventory_replenish.Streaming.Rows.{StreamDb, is_item, Zone, ReplenishmentTaskEvidence}
use rfid_inventory_replenish.Streaming.Batches.{ProcessingResult}
use rfid_inventory_replenish.Streaming.Recent.{RecentObservationState}
use rfid_inventory_replenish.Streaming.Zones.{StableZoneDecision}
use rfid_inventory_replenish.Streaming.Attribution.{
  ItemMove, attribute_replenishment_move, attributed_task, verified_once, is_restock,
}
use rfid_inventory_replenish.Streaming.Process.{Clock}
use rfid_inventory_replenish.Streaming.Transition.{
  Naming, moved_items, moved_state, new_state, transitioned, attributed, previous_zone,
}
use rfid_inventory_replenish.Streaming.Observe.{process_observation}
use rfid_inventory_replenish.Streaming.Effect.{SamePlace, Effect, untouched, stayed, moved}
use rfid_inventory_replenish.Streaming.Effect.Observed.{process_observation_lem}

module _ {F : Type 0} where
  -- The key of the table: a tag of a tenant has one row at most.
  abbrev pub OneRow : List (CurrentItemState F) → Type 0
  OneRow items = (t : Uuid) (e : Text) → count_where (is_item t e) items ≤ 1

  pub is_item-SamePlace :
      (t : Uuid) (e : Text) (a b : CurrentItemState F)
      → SamePlace a b
      → is_item t e b ≡ is_item t e a
  is_item-SamePlace t e a b h = rw (h.same_tenant, h.same_epc) refl

  new_row :
      (event : RfidObservationEvent F) (sku : Uuid) (decision : StableZoneDecision F)
      (items : List (CurrentItemState F))
      → find (is_item event.tenant_id event.epc) items ≡ none
      → OneRow items
      → OneRow (new_state event sku decision ∷ items)
  unfolding new_state count_where
  new_row event sku decision items absent one t e =
      let gone =
        count_where_none (is_item event.tenant_id event.epc) items (find-none _ items absent) in
      elim (Bool-cases (event.tenant_id == t && event.epc == e)) [
        | inl h ↦
            let same_t : event.tenant_id ≡ t = ground arith in
            let same_e : event.epc ≡ e = ground arith in
            let gone' : count_where (is_item t e) items ≡ 0 = rw (same_t, same_e) at gone in
            ground (arith, gone')
        | inr h ↦ rw h (one t e)
      ]

  moved_items-OneRow :
      (event : RfidObservationEvent F) (sku : Uuid) (decision : StableZoneDecision F)
      (items : List (CurrentItemState F)) (state : Option (CurrentItemState F))
      → find (is_item event.tenant_id event.epc) items ≡ state
      → OneRow items
      → OneRow (moved_items event sku decision state items)
  unfolding moved_items moved_state
  moved_items-OneRow event sku decision items none found one t e =
      new_row event sku decision items found one t e
  moved_items-OneRow event sku decision items (some s) found one t e =
      rw
        (count_update_keeps (is_item event.tenant_id event.epc) (is_item t e)
          (moved_state event sku decision (s.state_version + 1)) (λ x. refl) items)
        (one t e)

  pub Effect-OneRow :
      (event : RfidObservationEvent F) (naming : Naming) (db : StreamDb F)
      (out : ProcessingResult × StreamDb F)
      → OneRow db.items
      → Effect event naming db out
      → OneRow out.1.items
  unfolding transitioned
  Effect-OneRow event naming db out one (untouched flag same) t e = rw same.same_items (one t e)
  Effect-OneRow event naming db out one (stayed f keeps flag same) t e =
      rw
        (
          same.same_items,
          count_update_keeps (is_item event.tenant_id event.epc) (is_item t e) f
              (λ s. is_item-SamePlace t e s (f s) (keeps s)) db.items,
        )
        (one t e)
  Effect-OneRow event naming db out one (moved sku decision now can flag same) t e =
      rw same.same_items (
        moved_items-OneRow event sku decision db.items
          (find (is_item event.tenant_id event.epc) db.items) refl one t e)

verified_once-IsWellFormed :
    (task : ReplenishmentTask) → IsWellFormed task → IsWellFormed (verified_once task)
unfolding verified_once
verified_once-IsWellFormed task h = record {
  positive_quantity = h.positive_quantity;
  positive_version = omega arith;
  verified_within = ground arith;
  recorded = h.recorded;
}

attribution-IsWellFormed :
    (move : ItemMove) (zones : List Zone) (tasks : List ReplenishmentTask)
    (evidence : List ReplenishmentTaskEvidence)
    → All IsWellFormed tasks
    → All IsWellFormed (attribute_replenishment_move move zones tasks evidence).0
unfolding attribute_replenishment_move
attribution-IsWellFormed move zones tasks evidence h = elim (Bool-cases (is_restock move zones)) [
  | inr e ↦ rw e h
  | inl e ↦ elim (Option-cases (attributed_task move tasks)) [
    | inl f ↦ rw (e, f) h
    | inr (task, f) ↦
        rw (e, f)
          (All-update_where (λ row. row.id == task.id) IsWellFormed IsWellFormed verified_once
            (λ a ok _. verified_once-IsWellFormed a ok) (λ a ok _. ok) tasks h)
  ]
]

module _ {F : Type 0} where
  attributed-IsWellFormed :
      (event : RfidObservationEvent F) (sku : Uuid) (decision : StableZoneDecision F) (id : Uuid)
      (zone : Option Uuid) (db : StreamDb F)
      → All IsWellFormed db.tasks
      → All IsWellFormed (attributed event sku decision id zone db).0
  unfolding attributed
  attributed-IsWellFormed event sku decision id none db h = h
  attributed-IsWellFormed event sku decision id (some zone) db h =
      attribution-IsWellFormed _ db.zones db.tasks db.evidence h

  Effect-IsWellFormed :
      (event : RfidObservationEvent F) (naming : Naming) (db : StreamDb F)
      (out : ProcessingResult × StreamDb F)
      → All IsWellFormed db.tasks
      → Effect event naming db out
      → All IsWellFormed out.1.tasks
  unfolding transitioned
  Effect-IsWellFormed event naming db out h (untouched flag same) = rw same.same_tasks h
  Effect-IsWellFormed event naming db out h (stayed f keeps flag same) = rw same.same_tasks h
  Effect-IsWellFormed event naming db out h (moved sku decision now can flag same) =
      rw same.same_tasks (
        attributed-IsWellFormed event sku decision _
          (previous_zone sku decision (find (is_item event.tenant_id event.epc) db.items)) db h)

-- An observation keeps every task well-formed: no task has more verified than its quantity, and a
-- task has the columns of its status.
pub process_observation-IsWellFormed :
    {F : Type 0} (ops : FloatOps F) (event : RfidObservationEvent F)
    (recent : RecentObservationState F) (settings : Settings) (clock : Clock) (id : Uuid)
    (naming : Naming) (db : StreamDb F) (out : ProcessingResult × StreamDb F)
    → All IsWellFormed db.tasks
    → (process_observation ops event recent settings clock id naming db).0 ≡ ok out
    → All IsWellFormed out.1.tasks
process_observation-IsWellFormed ops event recent settings clock id naming db out h done =
    Effect-IsWellFormed event naming db out h
      (process_observation_lem ops event recent settings clock id naming db out done)
