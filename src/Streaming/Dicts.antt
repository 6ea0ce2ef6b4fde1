-- ===== src/Streaming/Dicts.antt =====
-- Ordered dictionaries, the oldest entry first, keyed by a tenant and a text
-- (`collections.OrderedDict`).
use rfid_inventory_replenish.Prelude.{
  ◌≡◌, refl, Bool, ◌&&◌, Option, none, some, List, [], ◌∷◌, ◌++◌, arith, ◌==◌, if◌then◌else◌,
}
use rfid_inventory_replenish.Domain.{Uuid, Text, Result, ok, raise, key_error}

pub record DictKey : Type 0 where
  pub tenant_id : Uuid
  pub name : Text

abbrev pub same_entry : DictKey → DictKey → Bool
same_entry a b = a.tenant_id == b.tenant_id && a.name == b.name

pub record Entry (V : Type 0) : Type 0 where
  pub key : DictKey
  pub value : V

abbrev pub Dict : Type 0 → Type 0
Dict V = List (Entry V)

module _ {V : Type 0} where
  unfoldable pub get : DictKey → Dict V → Option V
  get k [] = none
  get k (e ∷ d) = if same_entry e.key k then some e.value else get k d

  -- `d.pop(k, None)`
  unfoldable pub pop : DictKey → Dict V → Dict V
  pop k [] = []
  pop k (e ∷ d) = let rest = pop k d in if same_entry e.key k then rest else e ∷ rest

  -- `d[k] = v`
  unfoldable pub put : DictKey → V → Dict V → Dict V
  put k v [] = (record { key = k; value = v }) ∷ []
  put k v (e ∷ d) =
      let rest = put k v d in if same_entry e.key k then (record e { value = v }) ∷ d else e ∷ rest

  -- `d.popitem(last=False)`
  unfoldable pub drop_oldest : Dict V → Dict V
  drop_oldest [] = []
  drop_oldest (e ∷ d) = d

  unfoldable pub oldest : Dict V → Option (Entry V)
  oldest [] = none
  oldest (e ∷ d) = some e

  -- `d.move_to_end(k)` and `d.move_to_end(k, last=False)`, which raise on a missing key
  unfoldable pub move_to_end : DictKey → Dict V → Result (Dict V)
  move_to_end k d = elim (get k d) [
    | none ↦ raise 500 key_error
    | some v ↦ ok (pop k d ++ ((record { key = k; value = v }) ∷ []))
  ]

  unfoldable pub move_to_front : DictKey → Dict V → Result (Dict V)
  move_to_front k d = elim (get k d) [
    | none ↦ raise 500 key_error
    | some v ↦ ok ((record { key = k; value = v }) ∷ pop k d)
  ]

  abbrev pub or_else : Option V → Option V → Option V
  or_else none b = b
  or_else (some a) b = some a

  pub get-pop :
      (k j : DictKey) (d : Dict V) → get k (pop j d) ≡ (if same_entry j k then none else get k d)
  unfolding get pop
  get-pop k j [] = ground arith
  get-pop k j (e ∷ d) = ground (arith, get-pop k j d)

  pub get-put :
      (k j : DictKey) (v : V) (d : Dict V)
      → get k (put j v d) ≡ (if same_entry j k then some v else get k d)
  unfolding get put
  get-put k j v [] = ground arith
  get-put k j v (e ∷ d) = ground (arith, get-put k j v d)

  pub get-append : (k : DictKey) (d d' : Dict V) → get k (d ++ d') ≡ or_else (get k d) (get k d')
  unfolding get
  get-append k [] d' = refl
  get-append k (e ∷ d) d' = ground (arith, get-append k d d')
