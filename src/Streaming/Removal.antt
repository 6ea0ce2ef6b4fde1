-- ===== src/Streaming/Removal.antt =====
-- What the removal of an item does to the items of a bucket and to the deltas of the outbox.
use rfid_inventory_replenish.Prelude.{
  ℕ, ◌+◌, ◌≤◌, ◌≡◌, sym, ap, ◌∙◌, inl, inr, Bool, true, false, Option, some, List, arith, find,
  find-some, count_where, one_if, count_update_one, if◌then◌else◌, Option-cases, pos, negsuc, ◌+ℤ◌,
  +ℤ_assoc, ◌==◌,
}
use rfid_inventory_replenish.Domain.{Uuid, Instant, ok, Result-cases}
use rfid_inventory_replenish.Connectivity.{Settings, CurrentItemState}
use rfid_inventory_replenish.Inventory.Groups.{BucketKey}
use rfid_inventory_replenish.Inventory.Counts.{is_item_at}
use rfid_inventory_replenish.Streaming.Rows.{StreamDb, is_item}
use rfid_inventory_replenish.Streaming.Process.{processed_observation_watermark}
use rfid_inventory_replenish.Streaming.Transition.{Naming}
use rfid_inventory_replenish.Streaming.Conservation.{deltas_at, outbox_at}
use rfid_inventory_replenish.Business.{
  BusinessEventCreate, BusinessDb, AcceptedBusinessEvent, Request, removed_item, removal_row,
  removed_stream, removable_from, record_removal, is_same_event, accept_event,
  accept_authoritative_removal,
}

module _ {F : Type 0} (t : Uuid) (k : BucketKey) where
  removed_apart :
      (event_id : Uuid) (at : Instant) (s : CurrentItemState F)
      → is_item_at t k (removed_item event_id at s) ≡ false
  unfolding removed_item
  removed_apart event_id at s = ground arith

  removal-deltas :
      (tenant_id store zone : Uuid) (request : BusinessEventCreate) (naming : Naming)
      (now : Instant) (s : CurrentItemState F)
      → (s.tenant_id == tenant_id) ≡ true
      → s.store_id ≡ some store
      → s.zone_id ≡ some zone
      → deltas_at t k (removal_row tenant_id store zone request naming now s).deltas
        ≡ (if is_item_at t k s then negsuc 0 else pos 0)
  unfolding removal_row deltas_at ◌+ℤ◌
  removal-deltas tenant_id store zone request naming now s own at_store at_zone = ground arith

one_less :
    (c c' : ℕ) (a : Bool)
    → c' + one_if a ≡ c + one_if false
    → pos c' ≡ pos c +ℤ (if a then negsuc 0 else pos 0)
unfolding ◌+ℤ◌
one_less c c' a h = ground arith

module _ {F : Type 0} (t : Uuid) (k : BucketKey) where
  pub removed_stream-balance :
      (tenant_id event_id store zone : Uuid) (request : BusinessEventCreate) (naming : Naming)
      (now : Instant) (s : CurrentItemState F) (db : StreamDb F)
      → find (is_item tenant_id request.epc) db.items ≡ some s
      → s.store_id ≡ some store
      → s.zone_id ≡ some zone
      → count_where (is_item tenant_id request.epc) db.items ≤ 1
      → pos (
            count_where
              (is_item_at t k)
              (removed_stream tenant_id event_id store zone request naming now s db).items)
          +ℤ outbox_at t k db.outbox
        ≡ pos (count_where (is_item_at t k) db.items)
          +ℤ outbox_at t k
              (removed_stream tenant_id event_id store zone request naming now s db).outbox
  unfolding removed_stream outbox_at
  removed_stream-balance tenant_id event_id store zone request naming now s db found at_store
        at_zone few =
      let own = find-some (is_item tenant_id request.epc) db.items s found in
      let row = removal_row tenant_id store zone request naming now s in
      let f = removed_item {F = F} event_id request.occurred_at in
      let counts =
        count_update_one (is_item tenant_id request.epc) (is_item_at t k) f db.items s found few
        ∙ ap (λ b. count_where (is_item_at t k) db.items + one_if b)
            (removed_apart t k event_id request.occurred_at s) in
      ap (λ z. z +ℤ outbox_at t k db.outbox)
        (one_less _ _ (is_item_at t k s) counts
          ∙ ap (λ z. pos (count_where (is_item_at t k) db.items) +ℤ z)
              (sym (
                removal-deltas t k tenant_id store zone request naming now s (ground (arith, own))
                  at_store at_zone)))
      ∙ +ℤ_assoc (pos (count_where (is_item_at t k) db.items)) (deltas_at t k row.deltas)
          (outbox_at t k db.outbox)

module _ {F : Type 0} where
  -- What a request that is accepted does to the items and the outbox: nothing, if it repeats one, or
  -- the removal of an item of the store.
  pub data Removal (r : Request) (naming : Naming) (db db' : StreamDb F) : Type 0 where
    repeated : db' ≡ db → Removal r naming db db'
    removes :
        (s : CurrentItemState F) (zone : Uuid)
        → find (is_item r.tenant_id r.body.epc) db.items ≡ some s
        → s.store_id ≡ some r.store_id
        → s.zone_id ≡ some zone
        → db' ≡ removed_stream r.tenant_id r.event_id r.store_id zone r.body naming r.now s db
        → Removal r naming db db'

  removable_from_lem :
      (r : Request) (items : List (CurrentItemState F)) (watermark : Option Instant)
      (found : CurrentItemState F × Uuid)
      → removable_from r items watermark ≡ ok found
      → (find (is_item r.tenant_id r.body.epc) items ≡ some found.0)
        × (found.0.store_id ≡ some r.store_id)
        × (found.0.zone_id ≡ some found.1)
  unfolding removable_from
  removable_from_lem r items watermark found h =
      elim (Option-cases (find (is_item r.tenant_id r.body.epc) items)) [
        | inl e ↦ absurd (ground arith)
        | inr (s, e) ↦ elim (Option-cases s.store_id) [
          | inl f ↦ absurd (ground arith)
          | inr (store, f) ↦ elim (Option-cases s.zone_id) [
            | inl g ↦ absurd (ground arith)
            | inr (zone, g) ↦ (ground arith, ground arith, ground arith)
          ]
        ]
      ]

  accept_event_lem :
      (r : Request) (naming : Naming) (conflict : Bool) (db : BusinessDb F)
      (out : AcceptedBusinessEvent × BusinessDb F)
      → accept_event r naming conflict db ≡ ok out
      → Removal r naming db.stream out.1.stream
  unfolding accept_event record_removal
  accept_event_lem r naming conflict db out h =
      elim (Option-cases (find (is_same_event r) db.events)) [
        | inr (event, e) ↦ repeated (ground arith)
        | inl e ↦
            elim (Result-cases (
              removable_from r db.stream.items
                (processed_observation_watermark r.tenant_id r.body.epc db.stream.book.ledger))) [
                  | inr (problem, f) ↦ absurd (ground arith)
                  | inl (found, f) ↦
                      let (there, store, zone) = removable_from_lem r db.stream.items _ found f in
                      removes found.0 found.1 there store zone (ground arith)
                ]
      ]

  pub accept_authoritative_removal-Removal :
      (r : Request) (settings : Settings) (naming : Naming) (conflict : Bool) (db : BusinessDb F)
      (out : AcceptedBusinessEvent × BusinessDb F)
      → accept_authoritative_removal r settings naming conflict db ≡ ok out
      → Removal r naming db.stream out.1.stream
  unfolding accept_authoritative_removal
  accept_authoritative_removal-Removal r settings naming conflict db out h =
      accept_event_lem r naming conflict db out (ground arith)
