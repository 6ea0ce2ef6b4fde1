-- ===== src/Streaming/Zones.antt =====
-- The zone that the recent reads of a tag are evidence of (`_confidence`, `infer_stable_zone` and
-- `StableZoneDecision` of `src/abacus/services/streaming_inventory.py`).
pub mod Evidence
use rfid_inventory_replenish.Prelude.{
  ℕ, ◌-◌, ltb, Bool, not, ◌&&◌, ◌||◌, Option, none, some, List, [], ◌∷◌, ◌++◌, map, sort_by, ◌==◌,
  if◌then◌else◌, length,
}
use rfid_inventory_replenish.Domain.{Uuid, Instant}
use rfid_inventory_replenish.Floats.{FloatOps, min_float, max_float}
use rfid_inventory_replenish.Connectivity.{Settings, RfidObservationEvent}

pub record StableZoneDecision (F : Type 0) : Type 0 where
  pub store_id : Uuid
  pub zone_id : Uuid
  pub confidence : F
  pub observed_at : Instant
  pub received_at : Instant

-- The reads of a place; the first stands apart, for a group is never empty.
pub record Reads (F : Type 0) : Type 0 where
  pub store_id : Uuid
  pub zone_id : Uuid
  pub first : RfidObservationEvent F
  pub rest : List (RfidObservationEvent F)

module _ {F : Type 0} where
  abbrev pub reads_of : Reads F → List (RfidObservationEvent F)
  reads_of g = g.first ∷ g.rest

  abbrev pub is_place : RfidObservationEvent F → Reads F → Bool
  is_place e g = g.store_id == e.store_id && g.zone_id == e.zone_id

  unfoldable pub add_read : RfidObservationEvent F → List (Reads F) → List (Reads F)
  add_read e [] = (record { store_id = e.store_id; zone_id = e.zone_id; first = e; rest = [] }) ∷ []
  add_read e (g ∷ gs) =
      let rest = add_read e gs in
      if is_place e g then (record g { rest = g.rest ++ (e ∷ []) }) ∷ gs else g ∷ rest

  unfoldable pub group_reads : List (RfidObservationEvent F) → List (Reads F) → List (Reads F)
  group_reads [] groups = groups
  group_reads (e ∷ es) groups = group_reads es (add_read e groups)

  -- The greatest by (observed_at, received_at, event_id), the first of equals.
  abbrev pub is_newer : RfidObservationEvent F → RfidObservationEvent F → Bool
  is_newer a b =
      ltb b.observed_at a.observed_at
      || (a.observed_at == b.observed_at
          && (ltb b.received_at a.received_at
              || (a.received_at == b.received_at && ltb b.event_id a.event_id)))

  unfoldable pub newest_read :
      RfidObservationEvent F → List (RfidObservationEvent F) → RfidObservationEvent F
  newest_read best [] = best
  newest_read best (e ∷ es) = newest_read (if is_newer e best then e else best) es

module _ {F : Type 0} (ops : FloatOps F) where
  unfoldable pub median_rssi : Reads F → F
  median_rssi g = ops.median (map (λ e. e.rssi) (reads_of g))

  -- The order of `sorted(…, key=(reads, median, zone), reverse=True)`: the key of `b` is not greater.
  unfoldable pub outranks : Reads F → Reads F → Bool
  outranks a b =
      ltb (length b.rest) (length a.rest)
      || (length a.rest == length b.rest
          && (if ops.eq_float (median_rssi a) (median_rssi b)
              then not (ltb a.zone_id b.zone_id)
              else not (ops.lt_float (median_rssi a) (median_rssi b))))

  unfoldable pub confidence_of : ℕ → ℕ → Option F → RfidObservationEvent F → ℕ → F
  confidence_of read_count required_reads separation newest window =
      let zero = ops.decimal 0 0 in
      let one = ops.decimal 1 0 in
      let consistency =
        min_float ops one (ops.div (ops.of_int read_count) (ops.of_int required_reads)) in
      let apart = elim separation as (λ _. F) [
        | none ↦ one
        | some x ↦ min_float ops one (ops.div (max_float ops zero x) (ops.of_int 12))
      ] in
      let late = ops.total_seconds (newest.received_at - newest.observed_at) in
      let recency = max_float ops zero (ops.sub one (ops.div late (ops.of_int window))) in
      let score =
        ops.add
          (ops.add
            (ops.add (ops.mul (ops.decimal 40 2) consistency) (ops.mul (ops.decimal 25 2) apart))
            (ops.mul (ops.decimal 25 2) recency))
          (ops.mul (ops.decimal 10 2) newest.reader_health) in
      ops.round4 (max_float ops zero (min_float ops one score))

  unfoldable pub decision_for : Settings → Reads F → Option F → StableZoneDecision F
  decision_for settings winning separation =
      let newest = newest_read winning.first winning.rest in
      record {
        store_id = winning.store_id;
        zone_id = winning.zone_id;
        confidence =
            confidence_of (length (reads_of winning)) settings.rfid_move_confirmation_reads
              separation newest settings.rfid_move_confirmation_window_seconds;
        observed_at = newest.observed_at;
        received_at = newest.received_at;
      }

  -- The choice among the ranked places.
  unfoldable pub decide_zone : Settings → List (Reads F) → Option (StableZoneDecision F)
  decide_zone settings [] = none
  decide_zone settings (winning ∷ []) =
      if ltb (length (reads_of winning)) settings.rfid_move_confirmation_reads
      then none
      else some (decision_for settings winning none)
  decide_zone settings (winning ∷ second ∷ others) =
      let separation = ops.sub (median_rssi winning) (median_rssi second) in
      if ltb (length (reads_of winning)) settings.rfid_move_confirmation_reads
      then none
      else if length winning.rest == length second.rest
          && ops.lt_float separation (ops.decimal 30 1)
      then none
      else some (decision_for settings winning (some separation))

  unfoldable pub infer_stable_zone :
      Settings → List (RfidObservationEvent F) → Option (StableZoneDecision F)
  infer_stable_zone settings observations =
      decide_zone settings (sort_by outranks (group_reads observations []))
