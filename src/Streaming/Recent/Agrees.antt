-- ===== src/Streaming/Recent/Agrees.antt =====
-- Dictionaries that agree but at a key and at the oldest entry, and the bounds of a dictionary.
use rfid_inventory_replenish.Prelude.{
  ℕ, suc, ◌+◌, ◌≤◌, ◌≡◌, refl, sym, ap, ◌∙◌, inl, inr, true, false, not, ◌||◌, Option, none, some,
  [], ◌∷◌, ◌++◌, arith, ltb, is_some, if◌then◌else◌, Option-cases, Bool-cases, length,
  length-append,
}
use rfid_inventory_replenish.Domain.{ok}
use rfid_inventory_replenish.Streaming.Dicts.{
  DictKey, same_entry, Entry, Dict, get, pop, put, drop_oldest, oldest, move_to_front, get-pop,
  get-put,
}
use rfid_inventory_replenish.Streaming.Recent.{bounded, remember_id, restore_windows, put_back}

module _ {V : Type 0} where
  pub pop_absent : (k : DictKey) (d : Dict V) → get k d ≡ none → pop k d ≡ d
  unfolding get pop
  pop_absent k [] h = refl
  pop_absent k (e ∷ d) h = ground (arith, pop_absent k d)

  put_absent :
      (k : DictKey) (v : V) (d : Dict V)
      → get k d ≡ none
      → put k v d ≡ d ++ ((record { key = k; value = v }) ∷ [])
  unfolding get put
  put_absent k v [] h = refl
  put_absent k v (e ∷ d) h = ground (arith, put_absent k v d)

  pub length-pop-le : (k : DictKey) (d : Dict V) → length (pop k d) ≤ length d
  unfolding pop
  length-pop-le k [] = omega arith
  length-pop-le k (e ∷ d) = ground (arith, length-pop-le k d)

  pub length-pop_present :
      (k : DictKey) (d : Dict V) (v : V) → get k d ≡ some v → length (pop k d) + 1 ≤ length d
  unfolding get pop
  length-pop_present k [] v h = cc
  length-pop_present k (e ∷ d) v h = ground (arith, length-pop-le k d, length-pop_present k d v)

  get-congr : (k j : DictKey) (d : Dict V) → same_entry k j ≡ true → get k d ≡ get j d
  unfolding get
  get-congr k j [] h = refl
  get-congr k j (e ∷ d) h = ground (arith, get-congr k j d)

  -- `d'` holds what `d` holds, but perhaps at `k` and at the key of the oldest entry of `d`.
  abbrev pub Agrees : DictKey → Dict V → Dict V → Type 0
  Agrees k d d' =
      (j : DictKey)
      → same_entry k j ≡ false
      → ((e : Entry V) → oldest d ≡ some e → same_entry e.key j ≡ false)
      → get j d' ≡ get j d

  get-put_back :
      (j k : DictKey) (before : Option V) (d : Dict V)
      → get j (put_back k before d) ≡ (if same_entry k j then before else get j d)
  unfolding put_back
  get-put_back j k none d = get-pop j k d
  get-put_back j k (some v) d = get-put j k v d

  move_to_front-get :
      (k : DictKey) (d : Dict V) (v : V)
      → get k d ≡ some v
      → (d' : Dict V) × (move_to_front k d ≡ ok d') × ((j : DictKey) → get j d' ≡ get j d)
  unfolding move_to_front get
  move_to_front-get k d v h = (
    (record { key = k; value = v }) ∷ pop k d,
    ground arith,
    λ j. ground (arith, get-pop j k d, get-congr k j d),
  )

  pub oldest_there :
      (o : Entry V) (d : Dict V) (k : DictKey)
      → (not (same_entry o.key k) || is_some (get k (o ∷ d))) ≡ true
  unfolding get
  oldest_there o d k = ground arith

  get_head :
      (o : Entry V) (d : Dict V) (j : DictKey)
      → same_entry o.key j ≡ true
      → get j (o ∷ d) ≡ some o.value
  unfolding get
  get_head o d j e = rw e refl

  pub restore_windows_lem :
      (k : DictKey) (d d' : Dict V)
      → Agrees k d d'
      → (d'' : Dict V) × (restore_windows k (get k d) (oldest d) d' ≡ ok d'')
        × ((j : DictKey) → get j d'' ≡ get j d)
  unfolding restore_windows oldest
  restore_windows_lem k [] d' h = (
    put_back k none d',
    unfold get in refl,
    λ j. elim (Bool-cases (same_entry k j)) [
      | inl e ↦ get-put_back j k none d' ∙ unfold get in rw e refl
      | inr e ↦ get-put_back j k none d' ∙ rw e (h j e (λ e absent. cc))
    ],
  )
  restore_windows_lem k (o ∷ d) d' h =
      let before = get k (o ∷ d) in
      let back = put_back k before d' in
      let full = put o.key o.value back in
      let holds : get o.key full ≡ some o.value =
        ground (arith, get-put o.key o.key o.value back) in
      let (d'', moved, same) = move_to_front-get o.key full o.value holds in
      (
        d'',
        rw (oldest_there o d k, restore_windows) moved,
        λ j. same j ∙ get-put j o.key o.value back ∙ elim (Bool-cases (same_entry o.key j)) [
          | inl e ↦ rw e (sym (get_head o d j e))
          | inr e ↦ rw e (
              get-put_back j k before d' ∙ elim (Bool-cases (same_entry k j)) [
                | inl f ↦ rw f (get-congr k j (o ∷ d) f)
                | inr f ↦ rw f (h j f (λ e' first. ground arith))
              ])
        ],
      )

  get-added :
      (j k : DictKey) (v : V) (d : Dict V)
      → same_entry k j ≡ false
      → get j (d ++ ((record { key = k; value = v }) ∷ [])) ≡ get j d
  unfolding get
  get-added j k v [] h = rw h refl
  get-added j k v (e ∷ d) h = ground (arith, get-added j k v d)

  get-drop_oldest :
      (j k : DictKey) (v : V) (d : Dict V)
      → same_entry k j ≡ false
      → ((e : Entry V) → oldest d ≡ some e → same_entry e.key j ≡ false)
      → get j (drop_oldest (d ++ ((record { key = k; value = v }) ∷ []))) ≡ get j d
  unfolding get drop_oldest oldest
  get-drop_oldest j k v [] h young = refl
  get-drop_oldest j k v (e ∷ d) h young = rw (young e refl) (get-added j k v d h)

  -- What is evicted is the oldest entry, if the dictionary was within its bound.
  pub bounded-Agrees :
      (k : DictKey) (v : V) (bound : ℕ) (d : Dict V)
      → length d ≤ bound
      → Agrees k d (bounded bound (pop k d ++ ((record { key = k; value = v }) ∷ [])))
  unfolding bounded
  bounded-Agrees k v bound d h j other young =
      let x : Entry V = record { key = k; value = v } in
      let popped = get-pop j k d ∙ rw other refl in
      let added = get-added j k v (pop k d) other in
      elim (Option-cases (get k d)) [
        | inr (old, e) ↦
            let fits : ltb bound (length (pop k d ++ (x ∷ []))) ≡ false =
              ground (arith, length-append (pop k d) (x ∷ []), length-pop_present k d old e) in
            rw fits (added ∙ popped)
        | inl e ↦ elim (Bool-cases (ltb bound (length (pop k d ++ (x ∷ []))))) [
          | inr fits ↦ rw fits (added ∙ popped)
          | inl over ↦ rw (over, pop_absent k d e) (get-drop_oldest j k v d other young)
        ]
      ]

  pub moved-Agrees :
      (k : DictKey) (v : V) (d : Dict V)
      → Agrees k d (pop k d ++ ((record { key = k; value = v }) ∷ []))
  moved-Agrees k v d j other young = get-added j k v (pop k d) other ∙ get-pop j k d ∙ rw other refl

  pub length-bounded :
      (bound : ℕ) (d : Dict V) → length d ≤ suc bound → length (bounded bound d) ≤ bound
  unfolding bounded drop_oldest
  length-bounded bound [] h = ground arith
  length-bounded bound (e ∷ d) h = ground arith

module _ (k : DictKey) (bound : ℕ) (ids : Dict (Unit {0})) where
  pub remember_id-Agrees : length ids ≤ bound → Agrees k ids (remember_id k bound ids).1
  unfolding remember_id
  remember_id-Agrees h j other young = elim (Option-cases (get k ids)) [
    | inr (v, e) ↦ rw (e, remember_id) (moved-Agrees k tt ids j other young)
    | inl e ↦
        rw (e, remember_id, put_absent k tt ids e, ← pop_absent k ids e)
          (bounded-Agrees k tt bound ids h j other young
            ∙ ap (λ d. get j d) (sym (pop_absent k ids e)))
  ]

  pub forget-remember_id-Agrees :
      length ids ≤ bound → Agrees k ids (remember_id k bound (pop k ids)).1
  unfolding remember_id
  forget-remember_id-Agrees h j other young =
      let gone : get k (pop k ids) ≡ none = ground (arith, get-pop k k ids) in
      rw (gone, remember_id, put_absent k tt (pop k ids) gone)
        (bounded-Agrees k tt bound ids h j other young)

  pub length-remember_id : length ids ≤ bound → length (remember_id k bound ids).1 ≤ bound
  unfolding remember_id
  length-remember_id h = elim (Option-cases (get k ids)) [
    | inr (v, e) ↦
        rw (e, remember_id)
          (omega (
            arith,
            length-append (pop k ids) ((record { key = k; value = v }) ∷ []),
            length-pop_present k ids v e,
          ))
    | inl e ↦
        rw (e, remember_id, put_absent k tt ids e)
          (length-bounded bound _
            (omega (arith, length-append ids ((record { key = k; value = tt }) ∷ []))))
  ]
