-- ===== src/Streaming/Progress.antt =====
-- How the row of an item follows from the one before an observation.
use rfid_inventory_replenish.Prelude.{
  ◌+◌, ◌≤◌, ◌≡◌, ◌⊎◌, refl, sym, inl, inr, Bool, true, false, Option, none, some, List, ◌∷◌, arith,
  find, find-some, find-update_keeps, if◌then◌else◌, Bool-cases, subst,
}
use rfid_inventory_replenish.Domain.{Uuid, Text, ok}
use rfid_inventory_replenish.Floats.{FloatOps}
use rfid_inventory_replenish.Connectivity.{Settings, RfidObservationEvent, CurrentItemState}
use rfid_inventory_replenish.Streaming.Rows.{StreamDb, is_item}
use rfid_inventory_replenish.Streaming.Batches.{ProcessingResult}
use rfid_inventory_replenish.Streaming.Recent.{RecentObservationState}
use rfid_inventory_replenish.Streaming.Zones.{StableZoneDecision}
use rfid_inventory_replenish.Streaming.Process.{Clock}
use rfid_inventory_replenish.Streaming.Transition.{
  Naming, moved_items, moved_state, new_state, transitioned,
}
use rfid_inventory_replenish.Streaming.Observe.{process_observation}
use rfid_inventory_replenish.Streaming.Effect.{SamePlace, Movable, Effect, untouched, stayed, moved}
use rfid_inventory_replenish.Streaming.Kept.{is_item-SamePlace}
use rfid_inventory_replenish.Streaming.Effect.Observed.{process_observation_lem}

module _ {F : Type 0} where
  -- What a row may become: it stays at its place under its SKU and version, or it is not removed and
  -- gets the next version; its last observation is not moved back.
  pub record Follows (s s' : CurrentItemState F) : Type 0 where
    pub same_item : (s'.tenant_id ≡ s.tenant_id) × (s'.epc ≡ s.epc)
    pub same_removal : s'.authoritative_removal_event_id ≡ s.authoritative_removal_event_id
    pub not_earlier : s.last_observed_at ≤ s'.last_observed_at
    pub version :
        SamePlace s s'
        ⊎ ((s.authoritative_removal_event_id ≡ none) × (s'.state_version ≡ s.state_version + 1))

  same-Follows : (s s' : CurrentItemState F) → SamePlace s s' → Follows s s'
  same-Follows s s' h = record {
    same_item = (h.same_tenant, h.same_epc);
    same_removal = h.same_removal;
    not_earlier = h.not_earlier;
    version = inl h;
  }

  self-Follows : (s : CurrentItemState F) → Follows s s
  self-Follows s = same-Follows s s (record {
    same_tenant = refl;
    same_epc = refl;
    same_sku = refl;
    same_store = refl;
    same_zone = refl;
    same_version = refl;
    same_removal = refl;
    not_earlier = omega arith;
  })

  if-Follows :
      (b : Bool) (s s' : CurrentItemState F)
      → (b ≡ true → Follows s s')
      → Follows s (if b then s' else s)
  if-Follows true s s' h = h refl
  if-Follows false s s' h = self-Follows s

  moved-Follows :
      (event : RfidObservationEvent F) (sku : Uuid) (decision : StableZoneDecision F)
      (s : CurrentItemState F)
      → Movable event sku decision (some s)
      → Follows s (moved_state event sku decision (s.state_version + 1) s)
  unfolding moved_state
  moved-Follows event sku decision s can = record {
    same_item = (refl, refl);
    same_removal = refl;
    not_earlier = ground (arith, can.observed_later);
    version = inr (ground (arith, can.not_removed), refl);
  }

  -- The row of a tag, before and after.
  abbrev Tracked : Uuid → Text → List (CurrentItemState F) → List (CurrentItemState F) → Type 0
  Tracked t e items items' =
      (s : CurrentItemState F)
      → find (is_item t e) items ≡ some s
      → (s' : CurrentItemState F) × (find (is_item t e) items' ≡ some s') × Follows s s'

  -- A tag that the event is not about, or is.
  same_find :
      (event : RfidObservationEvent F) (t : Uuid) (e : Text) (items : List (CurrentItemState F))
      (s : CurrentItemState F)
      → is_item event.tenant_id event.epc s ≡ true
      → is_item t e s ≡ true
      → find (is_item event.tenant_id event.epc) items ≡ find (is_item t e) items
  same_find event t e items s h k =
      let same_t : event.tenant_id ≡ t = ground arith in
      let same_e : event.epc ≡ e = ground arith in rw (same_t, same_e) refl

  find_past_new :
      (event : RfidObservationEvent F) (sku : Uuid) (decision : StableZoneDecision F)
      (items : List (CurrentItemState F)) (t : Uuid) (e : Text) (s : CurrentItemState F)
      → is_item event.tenant_id event.epc s ≡ false
      → is_item t e s ≡ true
      → find (is_item t e) items ≡ some s
      → find (is_item t e) (new_state event sku decision ∷ items) ≡ some s
  unfolding find new_state
  find_past_new event sku decision items t e s apart here h = ground arith

  moved_items-Tracked :
      (event : RfidObservationEvent F) (sku : Uuid) (decision : StableZoneDecision F)
      (items : List (CurrentItemState F)) (state : Option (CurrentItemState F)) (t : Uuid)
      (e : Text)
      → find (is_item event.tenant_id event.epc) items ≡ state
      → Movable event sku decision state
      → Tracked t e items (moved_items event sku decision state items)
  unfolding moved_items
  moved_items-Tracked event sku decision items none t e found can s h =
      elim (Bool-cases (is_item event.tenant_id event.epc s)) [
        | inl own ↦
            absurd
              (let same = same_find event t e items s own (find-some (is_item t e) items s h) in cc)
        | inr apart ↦
            let here = find-some (is_item t e) items s h in
            (s, find_past_new event sku decision items t e s apart here h, self-Follows s)
      ]
  moved_items-Tracked event sku decision items (some old) t e found can s h =
      let f = moved_state event sku decision (old.state_version + 1) in
      (
        if is_item event.tenant_id event.epc s then f s else s,
        find-update_keeps (is_item event.tenant_id event.epc) (is_item t e) f
            (λ x. unfold moved_state in refl) items s h,
        if-Follows (is_item event.tenant_id event.epc s) s (f s) (λ own.
            let same : old ≡ s =
              (let there = same_find event t e items s own (find-some (is_item t e) items s h) in
                cc) in
            subst
              (λ (x : CurrentItemState F).
                Follows s (moved_state event sku decision (x.state_version + 1) s))
              (sym same)
              (moved-Follows event sku decision s (
                subst (λ (x : CurrentItemState F). Movable event sku decision (some x)) same can))),
      )

  Effect-Tracked :
      (event : RfidObservationEvent F) (naming : Naming) (db : StreamDb F)
      (out : ProcessingResult × StreamDb F) (t : Uuid) (e : Text)
      → Effect event naming db out
      → Tracked t e db.items out.1.items
  unfolding transitioned
  Effect-Tracked event naming db out t e (untouched flag same) s h =
      (s, rw same.same_items h, self-Follows s)
  Effect-Tracked event naming db out t e (stayed f keeps flag same) s h = (
    if is_item event.tenant_id event.epc s then f s else s,
    rw same.same_items (
        find-update_keeps (is_item event.tenant_id event.epc) (is_item t e) f
          (λ x. is_item-SamePlace t e x (f x) (keeps x)) db.items s h),
    if-Follows (is_item event.tenant_id event.epc s) s (f s) (λ _. same-Follows s (f s) (keeps s)),
  )
  Effect-Tracked event naming db out t e (moved sku decision now can flag same) s h =
      rw same.same_items (
        moved_items-Tracked event sku decision db.items
          (find (is_item event.tenant_id event.epc) db.items) t e refl can s h)

-- The row of a tag, whichever tag the observation is about, is there after an observation that is
-- processed: its last observation is not moved back and its removal is not undone, and either it
-- keeps its SKU, place and version, or it was not removed and its version grows by one.
pub process_observation-Follows :
    {F : Type 0} (ops : FloatOps F) (event : RfidObservationEvent F)
    (recent : RecentObservationState F) (settings : Settings) (clock : Clock) (id : Uuid)
    (naming : Naming) (db : StreamDb F) (out : ProcessingResult × StreamDb F) (t : Uuid) (e : Text)
    (s : CurrentItemState F)
    → (process_observation ops event recent settings clock id naming db).0 ≡ ok out
    → find (is_item t e) db.items ≡ some s
    → (s' : CurrentItemState F) × (find (is_item t e) out.1.items ≡ some s') × Follows s s'
process_observation-Follows ops event recent settings clock id naming db out t e s done h =
    Effect-Tracked event naming db out t e
      (process_observation_lem ops event recent settings clock id naming db out done) s h
