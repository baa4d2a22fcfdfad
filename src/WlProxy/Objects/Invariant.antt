-- ===== src/WlProxy/Objects/Invariant.antt =====
-- crates/bubbler-wl-proxy/src/objects.rs: what holds of the object map after every operation.
use bubbler.Prelude.{
  ℕ, ◌*◌, ◌≡◌, ◌≤◌, ◌<◌, refl, sym, ap, ◌∙◌, Bool, true, false, Option, none, some, List, length,
  min, ok, >>=-eq-ok, bind_ok_or_inv, bind_refuse_if_inv, ok_pair-injective, ltb, leb, ◌==◌,
  if◌then◌else◌, not, ◌&&◌, ◌||◌, arith, Option-cases, inl, inr, ◌⊎◌,
}
use bubbler.Prelude.Assoc.{
  lookup, count, IsUnique, lookup-insert, insert-IsUnique, remove-IsUnique, length-insert_absent,
  length-insert_present, length-remove_present, count-insert_absent, count-insert_present,
  count-remove_present, count-le-length,
}
use bubbler.WlProxy.Tables.{Interface, by_index, index_of}
use bubbler.WlProxy.Objects.{
  Objects, Entry, server_id_base, max_objects, new, live, get, place, destroy, delete_id,
  hide_global, record_id, create,
}

-- A destroyed object in the server's range.
unfoldable pub is_server_zombie : ℕ → Entry → Bool
is_server_zombie id entry = entry.zombie && leb server_id_base id

-- No id is mapped twice, `server_zombies` counts the destroyed server objects, and the map is bounded.
pub record IsValid (o : Objects) : Type 0 where
  pub unique : IsUnique o.map
  pub counted : o.server_zombies ≡ count is_server_zombie o.map
  pub bounded : length o.map ≤ 2 * max_objects

pub new-IsValid : (display_index : ℕ) → IsValid (new display_index)
unfolding new count is_server_zombie lookup
new-IsValid display_index = record { unique = (refl, tt); counted = refl; bounded = omega arith }

place-IsValid :
    (o : Objects) (from_client : Bool) (id : ℕ) (entry : Entry) {o' : Objects}
    → IsValid o
    → entry.zombie ≡ false
    → (from_client ≡ false → server_id_base ≤ id)
    → place o from_client id entry ≡ ok o'
    → IsValid o'
unfolding place is_server_zombie live
place-IsValid o from_client id entry v fresh range h = elim (Option-cases (lookup id o.map)) [
  | inl e ↦ ground (
    arith,
    e,
    insert-IsUnique id entry o.map v.unique,
    length-insert_absent id entry o.map e,
    count-insert_absent is_server_zombie id entry o.map e,
    count-le-length is_server_zombie o.map,
  )
  | inr (old, e) ↦ ground (
    arith,
    e,
    insert-IsUnique id entry o.map v.unique,
    length-insert_present id entry old o.map e,
    count-insert_present is_server_zombie id entry old o.map e,
  )
]

pub destroy-IsValid : (o : Objects) (id : ℕ) → IsValid o → IsValid (destroy o id).0
unfolding destroy is_server_zombie
destroy-IsValid o id v = elim (Option-cases (lookup id o.map)) [
  | inl e ↦ ground (arith, e)
  | inr (old, e) ↦
      let entry : Entry = record old { zombie = true } in
      ground (
        arith,
        e,
        insert-IsUnique id entry o.map v.unique,
        length-insert_present id entry old o.map e,
        count-insert_present is_server_zombie id entry old o.map e,
      )
]

pub delete_id-IsValid : (o : Objects) (id : ℕ) → IsValid o → IsValid (delete_id o id).0
unfolding delete_id is_server_zombie
delete_id-IsValid o id v = elim (Option-cases (lookup id o.map)) [
  | inl e ↦ ground (arith, e)
  | inr (old, e) ↦ ground (
    arith,
    e,
    remove-IsUnique id o.map v.unique,
    length-remove_present id old o.map e,
    count-remove_present is_server_zombie id old o.map e,
  )
]

pub hide_global-IsValid : (o : Objects) (name : ℕ) → IsValid o → IsValid (hide_global o name)
unfolding hide_global
hide_global-IsValid o name v = ground arith

-- What `place` changes: the one id, which a client must have found free.
pub place-get :
    (o : Objects) (from_client : Bool) (id : ℕ) (entry : Entry) {o' : Objects}
    → place o from_client id entry ≡ ok o'
    → ((j : ℕ) → get o' j ≡ (if id == j then some entry else get o j))
      × (from_client ≡ true → get o id ≡ none)
      × (o'.hidden_globals ≡ o.hidden_globals)
unfolding place get live
place-get o from_client id entry h = elim (Option-cases (lookup id o.map)) [
  | inl e ↦
      (λ j. ground (arith, e, lookup-insert id j entry o.map), ground arith, ground (arith, e))
  | inr (old, e) ↦
      (λ j. ground (arith, e, lookup-insert id j entry o.map), ground (arith, e), ground (arith, e))
]

module _ (interfaces : List Interface) where
  -- What a recorded id is: fresh, and at a version that the tables describe.
  pub record_id_inv :
      (o : Objects) (from_client : Bool) (id index version : ℕ) {o' : Objects}
      → record_id interfaces o from_client id index version ≡ ok o'
      → (iface : Interface) × (by_index interfaces index ≡ some iface)
        × (from_client ≡ true → (0 < id) × (id < server_id_base))
        × (from_client ≡ false → server_id_base ≤ id)
        × (place o from_client id
              (record { interface = index; version = min version iface.version; zombie = false })
            ≡ ok o')
  unfolding record_id
  record_id_inv o from_client id index version h =
      let (e1, h1) = bind_refuse_if_inv (from_client && (id == 0 || leb server_id_base id)) _ _ h in
      let (e2, h2) = bind_refuse_if_inv (not from_client && ltb id server_id_base) _ _ h1 in
      let (iface, e3, h3) = bind_ok_or_inv (by_index interfaces index) _ _ h2 in
      (iface, e3, λ c. (ground arith, ground arith), λ c. ground arith, h3)

  pub record_id-IsValid :
      (o : Objects) (from_client : Bool) (id index version : ℕ) {o' : Objects}
      → IsValid o
      → record_id interfaces o from_client id index version ≡ ok o'
      → IsValid o'
  record_id-IsValid o from_client id index version v h =
      let (iface, _, _, range, placed) = record_id_inv o from_client id index version h in
      place-IsValid o from_client id _ v refl range placed

  -- A successful `create` records an id or changes nothing.
  pub create_inv :
      (o : Objects) (from_client : Bool) (version : ℕ) (named : Option (List ℕ)) (id : Option ℕ)
      {o' : Objects} {made : Option ℕ}
      → create interfaces o from_client version named id ≡ ok (o', made)
      → ((o' ≡ o) × (made ≡ none) × (id ≡ none))
        ⊎ ((new : ℕ) × (index : ℕ) × (id ≡ some new)
            × (made ≡ some new)
            × (record_id interfaces o from_client new index version ≡ ok o'))
  unfolding create
  create_inv o from_client version named none h =
      let (eo, em) = ok_pair-injective _ _ _ _ h in inl (sym eo, sym em, refl)
  create_inv o from_client version none (some id) h = cc
  create_inv o from_client version (some name) (some id) h =
      let (index, e1, h1) = bind_ok_or_inv (index_of interfaces name) _ _ h in
      let (o1, e2, h2) = >>=-eq-ok (record_id interfaces o from_client id index version) _ h1 in
      let (eo, em) = ok_pair-injective _ _ _ _ h2 in inr (id, index, refl, sym em, e2 ∙ ap ok eo)
