-- ===== src/Streaming/Effect/Checks.antt =====
-- What the checks of an observation do to the tables of items and transitions.
use rfid_inventory_replenish.Prelude.{
  ◌≡◌, ◌∙◌, refl, inl, inr, Bool, true, false, Option, none, some, arith, find, if◌then◌else◌,
}
use rfid_inventory_replenish.Domain.{Uuid, Instant, Result, ok, Result-cases}
use rfid_inventory_replenish.Connectivity.{Settings, RfidObservationEvent, update_connectivity}
use rfid_inventory_replenish.Streaming.Rows.{EpcBinding, StreamDb, is_item}
use rfid_inventory_replenish.Streaming.Batches.{ProcessingResult}
use rfid_inventory_replenish.Streaming.Process.{
  Clock, Observation, Admission, stop, observe, admit, is_too_far_ahead, admit_bound, admit_binding,
  admit_resolved, admit_resolution, is_before, is_removed, watermark_of, latest_of,
  processed_observation_watermark, Resolution, refused, assigned, resolve_effective_assignment,
}
use rfid_inventory_replenish.Streaming.Recent.{window_key}
use rfid_inventory_replenish.Streaming.Effect.{
  SameTables, Ended, same_tables, same_trans, same_connectivity, finish_lem, quarantine_lem,
}

not_before_latest :
    (at : Instant) (a b : Option Instant)
    → is_before at (latest_of a b) ≡ false
    → is_before at b ≡ false
not_before_latest at none b h = h
not_before_latest at (some a) none h = refl
not_before_latest at (some a) (some b) h = ground arith

module _ {F : Type 0} where
  -- What an observation that is admitted was seen with.
  pub record Seen (event : RfidObservationEvent F) (db : StreamDb F) (seen : Observation F)
      : Type 0 where
    pub its_state : seen.state ≡ find (is_item event.tenant_id event.epc) db.items
    pub in_place : is_removed seen.state ≡ false
    pub same_window : window_key seen.resolved ≡ window_key event
    pub in_order : is_before event.observed_at (watermark_of seen.state) ≡ false

  -- The outcome of the checks: an end that changes no item, or an observation of these tables.
  unfoldable pub Checked : RfidObservationEvent F → StreamDb F → Admission F → Type 0
  Checked event db (stop result) =
      (out : ProcessingResult × StreamDb F)
      → result ≡ ok out
      → Ended event false db.book out × SameTables db out.1
  Checked event db (observe seen db') =
      Seen event db' seen × SameTables db db' × (db'.book ≡ db.book)

  Checked-if :
      (event : RfidObservationEvent F) (db : StreamDb F) (b : Bool) (x y : Admission F)
      → (b ≡ true → Checked event db x)
      → (b ≡ false → Checked event db y)
      → Checked event db (if b then x else y)
  Checked-if event db true x y h k = h refl
  Checked-if event db false x y h k = k refl

  Checked-stop :
      (event : RfidObservationEvent F) (db : StreamDb F)
      (result : Result (ProcessingResult × StreamDb F))
      → ((out : ProcessingResult × StreamDb F)
          → result ≡ ok out
          → Ended event false db.book out × SameTables db out.1)
      → Checked event db (stop result)
  unfolding Checked
  Checked-stop event db result h = h

  Checked-observe :
      (event : RfidObservationEvent F) (db db' : StreamDb F) (seen : Observation F)
      → Seen event db' seen
      → SameTables db db'
      → db'.book ≡ db.book
      → Checked event db (observe seen db')
  unfolding Checked
  Checked-observe event db db' seen h k book = (h, k, book)

  admit_bound_lem :
      (event resolved : RfidObservationEvent F) (binding : EpcBinding) (now : Instant)
      (db : StreamDb F)
      → window_key resolved ≡ window_key event
      → Checked event db (admit_bound event resolved binding now db)
  unfolding admit_bound
  admit_bound_lem event resolved binding now db window =
      Checked-if event db _ _ _
        (λ _. Checked-stop event db _ (λ out. finish_lem event false _ _ false now db out))
        (λ early.
          Checked-if event db _ _ _
            (λ _. Checked-stop event db _ (λ out. finish_lem event false _ _ false now db out))
            (λ there.
              Checked-observe event db db _
                (record {
                  its_state = refl;
                  in_place = there;
                  same_window = window;
                  in_order =
                      not_before_latest event.observed_at
                        (processed_observation_watermark event.tenant_id event.epc db.book.ledger) _
                        early;
                })
                (same_tables db) refl))

  Checked-trans :
      (event : RfidObservationEvent F) (a b : StreamDb F) (x : Admission F)
      → SameTables a b
      → b.book ≡ a.book
      → Checked event b x
      → Checked event a x
  unfolding Checked
  Checked-trans event a b (stop result) same book h =
      λ out e. let (flag, rest) = h out e in (rw (← book) flag, same_trans a b out.1 same rest)
  Checked-trans event a b (observe seen db') same book h =
      (h.0, same_trans a b db' same h.1, h.2 ∙ book)

  admit_binding_lem :
      (event resolved : RfidObservationEvent F) (binding : Option EpcBinding) (id : Uuid)
      (now : Instant) (db : StreamDb F)
      → window_key resolved ≡ window_key event
      → Checked event db (admit_binding event resolved binding id now db)
  admit_binding_lem event resolved none id now db window =
      Checked-stop event db _ (λ out. quarantine_lem event _ id now db out)
  admit_binding_lem event resolved (some binding) id now db window =
      admit_bound_lem event resolved binding now db window

  admit_resolved_lem :
      (event resolved : RfidObservationEvent F) (settings : Settings) (clock : Clock) (id : Uuid)
      (db : StreamDb F)
      → window_key resolved ≡ window_key event
      → Checked event db (admit_resolved event resolved settings clock id db)
  unfolding admit_resolved
  admit_resolved_lem event resolved settings clock id db window =
      elim (Result-cases (update_connectivity resolved settings db.connectivity)) [
        | inr (problem, e) ↦ rw (e, admit_resolved) (Checked-stop event db _ (λ out h. cc))
        | inl (rows, e) ↦
            let db' : StreamDb F = record db { connectivity = rows.1 } in
            rw (e, admit_resolved)
              (Checked-trans event db db' _ (same_connectivity db rows.1) refl
                (admit_binding_lem event resolved _ id clock.finalized_at db' window))
      ]

  admit_resolution_lem :
      (event : RfidObservationEvent F) (resolution : Resolution) (settings : Settings)
      (clock : Clock) (id : Uuid) (db : StreamDb F)
      → Checked event db (admit_resolution event resolution settings clock id db)
  admit_resolution_lem event (refused why) settings clock id db =
      Checked-stop event db _ (λ out. quarantine_lem event why id clock.finalized_at db out)
  admit_resolution_lem event (assigned row) settings clock id db =
      admit_resolved_lem event _ settings clock id db (unfold window_key in refl)

  pub admit_lem :
      (event : RfidObservationEvent F) (settings : Settings) (clock : Clock) (id : Uuid)
      (db : StreamDb F)
      → Checked event db (admit event settings clock id db)
  unfolding admit
  admit_lem event settings clock id db =
      Checked-if event db (is_too_far_ahead event settings clock) _ _
        (λ _. Checked-stop event db _ (λ out. quarantine_lem event _ id clock.finalized_at db out))
        (λ _.
          admit_resolution_lem event (resolve_effective_assignment event db) settings clock id db)
