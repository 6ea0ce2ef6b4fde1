-- ===== src/Streaming/Zones/Evidence.antt =====
-- The reads behind a stable zone.
use rfid_inventory_replenish.Prelude.{
  suc, ◌+◌, ◌≤◌, ◌≡◌, inl, inr, Bool, ◌&&◌, some, List, [], ◌∷◌, arith, All, All-imp, count_where,
  All-sort_by, ◌==◌, Bool-cases, length, length-append,
}
use rfid_inventory_replenish.Domain.{Uuid}
use rfid_inventory_replenish.Floats.{FloatOps}
use rfid_inventory_replenish.Connectivity.{Settings, RfidObservationEvent}
use rfid_inventory_replenish.Streaming.Zones.{
  StableZoneDecision, Reads, is_place, add_read, group_reads, decision_for, decide_zone,
  infer_stable_zone, outranks,
}

module _ {F : Type 0} where
  -- A read at a place.
  abbrev pub is_read_at : Uuid → Uuid → RfidObservationEvent F → Bool
  is_read_at store zone e = store == e.store_id && zone == e.zone_id

  -- The reads of a group are no more than those of the window at its place.
  abbrev Backed : List (RfidObservationEvent F) → Reads F → Type 0
  Backed seen g = suc (length g.rest) ≤ count_where (is_read_at g.store_id g.zone_id) seen

  Backed-later :
      (e : RfidObservationEvent F) (seen : List (RfidObservationEvent F)) (g : Reads F)
      → Backed seen g
      → Backed (e ∷ seen) g
  unfolding count_where
  Backed-later e seen g h = ground arith

  add_read-Backed :
      (e : RfidObservationEvent F) (seen : List (RfidObservationEvent F)) (groups : List (Reads F))
      → All (Backed seen) groups
      → All (Backed (e ∷ seen)) (add_read e groups)
  unfolding add_read count_where
  add_read-Backed e seen [] h = (ground arith, tt)
  add_read-Backed e seen (g ∷ gs) h = elim (Bool-cases (is_place e g)) [
    | inl here ↦ rw here (
      ground (arith, h.0, length-append g.rest (e ∷ [])),
      All-imp (Backed seen) (Backed (e ∷ seen)) (Backed-later e seen) gs h.1,
    )
    | inr there ↦ rw there (Backed-later e seen g h.0, add_read-Backed e seen gs h.1)
  ]

  -- The reads at the place of a group, among those seen and those to come.
  abbrev BackedBy : List (RfidObservationEvent F) → List (RfidObservationEvent F) → Reads F → Type 0
  BackedBy seen later g =
      suc (length g.rest)
      ≤ count_where (is_read_at g.store_id g.zone_id) seen
        + count_where (is_read_at g.store_id g.zone_id) later

  shift :
      (e : RfidObservationEvent F) (seen es : List (RfidObservationEvent F)) (g : Reads F)
      → BackedBy (e ∷ seen) es g
      → BackedBy seen (e ∷ es) g
  unfolding count_where
  shift e seen es g h = ground arith

  group_reads-Backed :
      (es seen : List (RfidObservationEvent F)) (groups : List (Reads F))
      → All (Backed seen) groups
      → All (BackedBy seen es) (group_reads es groups)
  unfolding group_reads
  group_reads-Backed [] seen groups h =
      All-imp (Backed seen) (BackedBy seen []) (λ g b. unfold count_where in omega arith) groups h
  group_reads-Backed (e ∷ es) seen groups h =
      All-imp (BackedBy (e ∷ seen) es) (BackedBy seen (e ∷ es)) (shift e seen es)
        (group_reads es (add_read e groups))
        (group_reads-Backed es (e ∷ seen) (add_read e groups) (add_read-Backed e seen groups h))

module _ {F : Type 0} (ops : FloatOps F) where
  -- The groups that a decision is made on are backed by reads of the window.
  abbrev Enough : Settings → List (RfidObservationEvent F) → StableZoneDecision F → Type 0
  Enough settings window d =
      settings.rfid_move_confirmation_reads ≤ count_where (is_read_at d.store_id d.zone_id) window

  decide_zone-Enough :
      (settings : Settings) (window : List (RfidObservationEvent F)) (groups : List (Reads F))
      (d : StableZoneDecision F)
      → decide_zone ops settings groups ≡ some d
      → All (BackedBy [] window) groups
      → Enough settings window d
  unfolding decide_zone decision_for count_where
  decide_zone-Enough settings window [] d h backed = cc
  decide_zone-Enough settings window (g ∷ []) d h backed =
      let store : d.store_id ≡ g.store_id = ground arith in
      let zone : d.zone_id ≡ g.zone_id = ground arith in rw (store, zone) (ground (arith, backed.0))
  decide_zone-Enough settings window (g ∷ second ∷ others) d h backed =
      let store : d.store_id ≡ g.store_id = ground arith in
      let zone : d.zone_id ≡ g.zone_id = ground arith in rw (store, zone) (ground (arith, backed.0))

  -- A zone is inferred only from as many reads at it in the window as the settings ask for.
  pub infer_stable_zone-reads :
      (settings : Settings) (window : List (RfidObservationEvent F)) (d : StableZoneDecision F)
      → infer_stable_zone ops settings window ≡ some d
      → settings.rfid_move_confirmation_reads ≤ count_where (is_read_at d.store_id d.zone_id) window
  unfolding infer_stable_zone
  infer_stable_zone-reads settings window d h = decide_zone-Enough settings window _ d h (
      All-sort_by (outranks ops) (BackedBy [] window) (group_reads window [])
        (group_reads-Backed window [] [] tt))
