-- ===== src/Streaming/Reachable.antt =====
-- The tables that observations and authoritative removals reach, and the invariant that they satisfy.
use rfid_inventory_replenish.Prelude.{
  ◌≡◌, refl, ap, List, [], ◌∷◌, map, arith, count_where, count_update_keeps, Bool, ℤ, pos, ◌+ℤ◌,
  +ℤ_parts, eq_of_parts, pos_part, neg_part,
}
use rfid_inventory_replenish.Domain.{Uuid, Instant, ok}
use rfid_inventory_replenish.Floats.{FloatOps}
use rfid_inventory_replenish.Connectivity.{Settings, RfidObservationEvent, CurrentItemState}
use rfid_inventory_replenish.Inventory.Groups.{BucketKey}
use rfid_inventory_replenish.Inventory.Rebuild.{InventoryTransitionOutbox}
use rfid_inventory_replenish.Inventory.Counts.{is_item_at}
use rfid_inventory_replenish.Streaming.Rows.{StreamDb, is_item}
use rfid_inventory_replenish.Streaming.Batches.{ProcessingResult}
use rfid_inventory_replenish.Streaming.Recent.{RecentObservationState}
use rfid_inventory_replenish.Streaming.Process.{Clock}
use rfid_inventory_replenish.Streaming.Transition.{Naming}
use rfid_inventory_replenish.Streaming.Observe.{process_observation}
use rfid_inventory_replenish.Streaming.Effect.Observed.{process_observation_lem}
use rfid_inventory_replenish.Streaming.Conservation.{outbox_at, process_observation-balance}
use rfid_inventory_replenish.Streaming.Kept.{OneRow, Effect-OneRow}
use rfid_inventory_replenish.Business.{
  BusinessEventCreate, BusinessDb, AcceptedBusinessEvent, Request, removed_item, removed_stream,
  accept_authoritative_removal,
}
use rfid_inventory_replenish.Streaming.Removal.{
  Removal, repeated, removes, removed_stream-balance, accept_authoritative_removal-Removal,
}

module _ {F : Type 0} (ops : FloatOps F) (settings : Settings) (naming : Naming) where
  -- The tables that the worker and the removals reach from tables without items and transitions. A
  -- failed transaction leaves the tables, with whatever recent state the worker goes on with; other
  -- writers leave the items and the deltas of the outbox.
  pub data Reachable : StreamDb F → Type 0 where
    start : (db : StreamDb F) → db.items ≡ [] → db.outbox ≡ [] → Reachable db
    observed :
        (event : RfidObservationEvent F) (recent : RecentObservationState F) (clock : Clock)
        (id : Uuid) (db : StreamDb F) (out : ProcessingResult × StreamDb F)
        → Reachable db
        → (process_observation ops event recent settings clock id naming db).0 ≡ ok out
        → Reachable out.1
    removed :
        (r : Request) (conflict : Bool) (db : BusinessDb F)
        (out : AcceptedBusinessEvent × BusinessDb F)
        → Reachable db.stream
        → accept_authoritative_removal r settings naming conflict db ≡ ok out
        → Reachable out.1.stream
    written :
        (db db' : StreamDb F)
        → Reachable db
        → db'.items ≡ db.items
        → map (λ (row : InventoryTransitionOutbox F). row.deltas) db'.outbox
          ≡ map (λ (row : InventoryTransitionOutbox F). row.deltas) db.outbox
        → Reachable db'

-- The invariant: a tag has one row at most, and each bucket has as many items as the
-- deltas of the outbox add up to.
pub record IsBalanced {F : Type 0} (db : StreamDb F) : Type 0 where
  pub one_row : OneRow db.items
  pub balanced :
      (t : Uuid) (k : BucketKey)
      → pos (count_where (is_item_at t k) db.items) ≡ outbox_at t k db.outbox

cancel : (c c' o o' : ℤ) → c' +ℤ o ≡ c +ℤ o' → c ≡ o → c' ≡ o'
cancel c c' o o' h e = eq_of_parts c' o' (
    omega (
      arith,
      +ℤ_parts c' o,
      +ℤ_parts c o',
      ap pos_part h,
      ap neg_part h,
      ap pos_part e,
      ap neg_part e,
    ))

module _ {F : Type 0} where
  outbox_at-congr :
      (t : Uuid) (k : BucketKey) (xs ys : List (InventoryTransitionOutbox F))
      → map (λ (row : InventoryTransitionOutbox F). row.deltas) xs
        ≡ map (λ (row : InventoryTransitionOutbox F). row.deltas) ys
      → outbox_at t k xs ≡ outbox_at t k ys
  unfolding outbox_at
  outbox_at-congr t k [] [] h = refl
  outbox_at-congr t k [] (y ∷ ys) h = absurd cc
  outbox_at-congr t k (x ∷ xs) [] h = absurd cc
  outbox_at-congr t k (x ∷ xs) (y ∷ ys) h =
      let same : x.deltas ≡ y.deltas = cc in rw (same, outbox_at-congr t k xs ys cc) refl

  process_observation-IsBalanced :
      (ops : FloatOps F) (event : RfidObservationEvent F) (recent : RecentObservationState F)
      (settings : Settings) (clock : Clock) (id : Uuid) (naming : Naming) (db : StreamDb F)
      (out : ProcessingResult × StreamDb F)
      → (process_observation ops event recent settings clock id naming db).0 ≡ ok out
      → IsBalanced db
      → IsBalanced out.1
  process_observation-IsBalanced ops event recent settings clock id naming db out done h = record {
    one_row =
        Effect-OneRow event naming db out h.one_row
          (process_observation_lem ops event recent settings clock id naming db out done);
    balanced = λ t k.
        cancel (pos (count_where (is_item_at t k) db.items)) _ (outbox_at t k db.outbox) _
          (process_observation-balance ops event recent settings clock id naming db out t k
            (h.one_row event.tenant_id event.epc) done)
          (h.balanced t k);
  }

module _ {F : Type 0} where
  removed_stream-OneRow :
      (tenant_id event_id store zone : Uuid) (request : BusinessEventCreate) (naming : Naming)
      (now : Instant) (s : CurrentItemState F) (db : StreamDb F)
      → OneRow db.items
      → OneRow (removed_stream tenant_id event_id store zone request naming now s db).items
  unfolding removed_stream removed_item
  removed_stream-OneRow tenant_id event_id store zone request naming now s db one t e =
      rw
        (count_update_keeps (is_item tenant_id request.epc) (is_item t e)
          (removed_item event_id request.occurred_at) (λ x. refl) db.items)
        (one t e)

  Removal-IsBalanced :
      (r : Request) (naming : Naming) (db db' : StreamDb F)
      → Removal r naming db db'
      → IsBalanced db
      → IsBalanced db'
  Removal-IsBalanced r naming db db' (repeated same) h = rw same h
  Removal-IsBalanced r naming db db' (removes s zone found at_store at_zone same) h =
      rw same (record {
        one_row =
            removed_stream-OneRow r.tenant_id r.event_id r.store_id zone r.body naming r.now s db
              h.one_row;
        balanced = λ t k.
            cancel (pos (count_where (is_item_at t k) db.items)) _ (outbox_at t k db.outbox) _
              (removed_stream-balance t k r.tenant_id r.event_id r.store_id zone r.body naming r.now
                s db found at_store at_zone (h.one_row r.tenant_id r.body.epc))
              (h.balanced t k);
      })

-- In every state that is reached from tables without items and transitions by observations and
-- authoritative removals, whatever they are and in whatever order, a tag of a tenant has one item
-- row at most, and the deltas of the outbox for a bucket add up to the number of items in the bucket.
pub Reachable-IsBalanced :
    {F : Type 0} (ops : FloatOps F) (settings : Settings) (naming : Naming) (db : StreamDb F)
    → Reachable ops settings naming db
    → IsBalanced db
unfolding count_where outbox_at
Reachable-IsBalanced ops settings naming _ (start db none_there none_out) = record {
  one_row = λ t e. rw none_there (omega arith);
  balanced = λ t k. rw (none_there, none_out) refl;
}
Reachable-IsBalanced ops settings naming _ (observed event recent clock id before out h done) =
    process_observation-IsBalanced ops event recent settings clock id naming before out done
      (Reachable-IsBalanced ops settings naming before h)
Reachable-IsBalanced ops settings naming _ (removed r conflict db out h done) =
    Removal-IsBalanced r naming db.stream out.1.stream
      (accept_authoritative_removal-Removal r settings naming conflict db out done)
      (Reachable-IsBalanced ops settings naming db.stream h)
Reachable-IsBalanced ops settings naming _ (written db db' h same_items same_deltas) =
    let rest = Reachable-IsBalanced ops settings naming db h in
    record {
      one_row = λ t e. rw same_items (rest.one_row t e);
      balanced = λ t k.
          rw (same_items, outbox_at-congr t k db'.outbox db.outbox same_deltas) (rest.balanced t k);
    }
