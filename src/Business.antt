-- ===== src/Business.antt =====
-- Authoritative removals of items (`src/abacus/services/business_events.py`; `BusinessEvent` of
-- `src/abacus/models/architecture.py`). The fingerprint of a request and the ids are arguments;
-- `conflict` says whether the database refuses the commit with an IntegrityError. The advisory lock
-- makes one request of a source event follow another.
use rfid_inventory_replenish.Prelude.{
  ℕ, ◌+◌, ltb, Bool, true, false, not, ◌&&◌, ◌||◌, Option, none, some, List, [], ◌∷◌, any, find,
  update_where, is_some, ◌==◌, if◌then◌else◌, negsuc,
}
use rfid_inventory_replenish.Domain.{
  Uuid, Text, Instant, seconds, Result, ok, raise, ◌>>=◌, store_not_found,
  business_event_time_too_far_in_future, business_event_idempotency_conflict,
  business_event_item_not_found, business_event_item_already_removed,
  business_event_location_unavailable, business_event_store_mismatch, stale_business_event,
  business_event_conflict, business_event_not_found,
}
use rfid_inventory_replenish.Connectivity.{Settings, CurrentItemState}
use rfid_inventory_replenish.Policy.Store.{Store}
use rfid_inventory_replenish.Inventory.Rebuild.{InventoryTransitionOutbox}
use rfid_inventory_replenish.Streaming.Rows.{StreamDb, is_item}
use rfid_inventory_replenish.Streaming.Process.{
  processed_observation_watermark, is_before, latest_of,
}
use rfid_inventory_replenish.Streaming.Transition.{Naming}

pub data BusinessEventStatus : Type 0 where
  pending_projection projected failed : BusinessEventStatus

pub record BusinessEventCreate : Type 0 where
  pub source_system : Text
  pub external_event_id : Text
  pub event_type : Text
  pub epc : Text
  pub occurred_at : Instant
  pub note : Option Text

pub record BusinessEvent : Type 0 where
  pub id : Uuid
  pub tenant_id : Uuid
  pub store_id : Uuid
  pub source_system : Text
  pub external_event_id : Text
  pub request_fingerprint : Text
  pub event_type : Text
  pub epc : Text
  pub occurred_at : Instant
  pub transition_id : Uuid
  pub state_version : ℕ
  pub note : Option Text

pub record BusinessDb (F : Type 0) : Type 0 where
  pub stores : List Store
  pub events : List BusinessEvent
  pub stream : StreamDb F

pub record AcceptedBusinessEvent : Type 0 where
  pub event : BusinessEvent
  pub processing_status : BusinessEventStatus
  pub created : Bool

module _ {F : Type 0} where
  unfoldable pub business_event_status :
      BusinessEvent → List (InventoryTransitionOutbox F) → BusinessEventStatus
  business_event_status event outbox =
      elim (find (λ (row : InventoryTransitionOutbox F). row.transition_id == event.transition_id)
        outbox) [
          | none ↦ failed
          | some row ↦
              if is_some row.published_at || is_some row.reconciled_at
              then projected
              else if is_some row.quarantined_at
              then failed
              else pending_projection
        ]

  -- The state of an item that is removed.
  unfoldable pub removed_item : Uuid → Instant → CurrentItemState F → CurrentItemState F
  removed_item event_id occurred_at state = record state {
    store_id = none;
    zone_id = none;
    state_version = state.state_version + 1;
    authoritative_removal_event_id = some event_id;
    authoritative_removed_at = some occurred_at;
  }

  unfoldable pub removal_row :
      Uuid
      → (store : Uuid) → (zone : Uuid) → BusinessEventCreate
      → Naming
      → Instant
      → CurrentItemState F
      → InventoryTransitionOutbox F
  removal_row tenant_id store zone request naming now state =
      let version = state.state_version + 1 in
      let transition_id = naming.deterministic_transition_id tenant_id state.epc version in
      record {
        transition_id = transition_id;
        tenant_id = tenant_id;
        epc = state.epc;
        state_version = version;
        deltas =
            (record {
              schema_version = 1;
              delta_id = naming.delta_id transition_id state.sku_id zone;
              transition_id = transition_id;
              tenant_id = tenant_id;
              store_id = store;
              sku_id = state.sku_id;
              zone_id = zone;
              epc = state.epc;
              quantity_delta = negsuc 0;
              confidence = state.confidence;
              observed_at = request.occurred_at;
            })
            ∷ [];
        created_at = now;
        published_at = none;
        quarantined_at = none;
        quarantine_reason = none;
        reconciled_at = none;
        publish_attempts = 0;
        last_error = none;
      }

  unfoldable pub removed_stream :
      Uuid
      → Uuid
      → (store : Uuid) → (zone : Uuid) → BusinessEventCreate
      → Naming
      → Instant
      → CurrentItemState F
      → StreamDb F
      → StreamDb F
  removed_stream tenant_id event_id store zone request naming now state db = record db {
    items =
        update_where (is_item tenant_id request.epc) (removed_item event_id request.occurred_at)
          db.items;
    outbox = removal_row tenant_id store zone request naming now state ∷ db.outbox;
  }

-- The ids and the clock of a request.
pub record Request : Type 0 where
  pub tenant_id : Uuid
  pub store_id : Uuid
  pub event_id : Uuid
  pub fingerprint : Text
  pub now : Instant
  pub body : BusinessEventCreate

abbrev pub new_event : Request → Uuid → ℕ → BusinessEvent
new_event r transition_id version = record {
  id = r.event_id;
  tenant_id = r.tenant_id;
  store_id = r.store_id;
  source_system = r.body.source_system;
  external_event_id = r.body.external_event_id;
  request_fingerprint = r.fingerprint;
  event_type = r.body.event_type;
  epc = r.body.epc;
  occurred_at = r.body.occurred_at;
  transition_id = transition_id;
  state_version = version;
  note = r.body.note;
}

abbrev pub is_same_event : Request → BusinessEvent → Bool
is_same_event r event =
    event.tenant_id == r.tenant_id
    && event.source_system == r.body.source_system
    && event.external_event_id == r.body.external_event_id

module _ {F : Type 0} where
  -- The checks on the item, and where it is.
  unfoldable pub removable_from :
      Request → List (CurrentItemState F) → Option Instant → Result (CurrentItemState F × Uuid)
  removable_from r items watermark = elim (find (is_item r.tenant_id r.body.epc) items) [
    | none ↦ raise 404 business_event_item_not_found
    | some state ↦
        if is_some state.authoritative_removal_event_id
        then raise 409 business_event_item_already_removed
        else elim state.store_id [
          | none ↦ raise 409 business_event_location_unavailable
          | some store ↦ elim state.zone_id [
            | none ↦ raise 409 business_event_location_unavailable
            | some zone ↦
                if not (store == r.store_id)
                then raise 409 business_event_store_mismatch
                else if is_before r.body.occurred_at
                    (latest_of watermark (some state.last_observed_at))
                then raise 409 stale_business_event
                else ok (state, zone)
          ]
        ]
  ]

  -- The removal of an item that is at a zone of the store.
  unfoldable pub record_removal :
      Request
      → CurrentItemState F × Uuid
      → Naming
      → (conflict : Bool) → BusinessDb F
      → Result (AcceptedBusinessEvent × BusinessDb F)
  record_removal r found naming conflict db =
      let row = removal_row r.tenant_id r.store_id found.1 r.body naming r.now found.0 in
      let event = new_event r row.transition_id row.state_version in
      if conflict
      then raise 409 business_event_conflict
      else ok (
        record { event = event; processing_status = pending_projection; created = true },
        record db {
          events = event ∷ db.events;
          stream =
              removed_stream r.tenant_id r.event_id r.store_id found.1 r.body naming r.now found.0
                db.stream;
        },
      )

  -- The request after its checks: a repeated one, or a removal.
  unfoldable pub accept_event :
      Request
      → Naming
      → (conflict : Bool) → BusinessDb F
      → Result (AcceptedBusinessEvent × BusinessDb F)
  accept_event r naming conflict db = elim (find (is_same_event r) db.events) [
    | some event ↦
        if not (event.request_fingerprint == r.fingerprint)
        then raise 409 business_event_idempotency_conflict
        else ok (
          record {
            event = event;
            processing_status = business_event_status event db.stream.outbox;
            created = false;
          },
          db,
        )
    | none ↦
        removable_from r db.stream.items
          (processed_observation_watermark r.tenant_id r.body.epc db.stream.book.ledger)
        >>= λ found. record_removal r found naming conflict db
  ]

  unfoldable pub accept_authoritative_removal :
      Request
      → Settings
      → Naming
      → (conflict : Bool) → BusinessDb F
      → Result (AcceptedBusinessEvent × BusinessDb F)
  accept_authoritative_removal r settings naming conflict db =
      if not (any (λ (row : Store). row.tenant_id == r.tenant_id && row.id == r.store_id) db.stores)
      then raise 404 store_not_found
      else if ltb (r.now + seconds settings.rfid_max_future_skew_seconds) r.body.occurred_at
      then raise 422 business_event_time_too_far_in_future
      else accept_event r naming conflict db

  unfoldable pub get_business_event :
      (tenant_id : Uuid)
      → (store_id : Uuid) → (event_id : Uuid) → BusinessDb F
      → Result (BusinessEvent × BusinessEventStatus)
  get_business_event tenant_id store_id event_id db =
      elim (find
        (λ (event : BusinessEvent).
          event.tenant_id == tenant_id && event.store_id == store_id && event.id == event_id)
        db.events) [
          | none ↦ raise 404 business_event_not_found
          | some event ↦ ok (event, business_event_status event db.stream.outbox)
        ]
