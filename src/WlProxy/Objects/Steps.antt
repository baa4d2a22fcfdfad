-- ===== src/WlProxy/Objects/Steps.antt =====
-- crates/bubbler-wl-proxy/src/objects.rs: the life of one connection, as the calls that are made on
-- its object map, in any order.
use bubbler.Prelude.{
  ℕ, ◌≡◌, Bool, true, false, Option, List, ok, bind_ok_or_inv, ◌⊎◌, arith, inl, inr,
}
use bubbler.WlProxy.Tables.{Interface, by_index, message}
use bubbler.WlProxy.Wire.{Arg}
use bubbler.WlProxy.Objects.{
  Objects, new, get, destroy, is_hidden, delete_id, hide_global, record_id, bind, new_id_from,
}
use bubbler.WlProxy.Objects.Invariant.{
  IsValid, new-IsValid, destroy-IsValid, delete_id-IsValid, hide_global-IsValid, record_id-IsValid,
  create_inv,
}

-- One call on the map.
pub data Step (interfaces : List Interface) (o o' : Objects) : Type 0 where
  bound :
      (name index version id : ℕ)
      → bind interfaces o name index version id ≡ ok o'
      → Step interfaces o o'
  created :
      (from_client : Bool) (parent opcode : ℕ) (args : List Arg) (made : Option ℕ)
      → new_id_from interfaces o from_client parent opcode args ≡ ok (o', made)
      → Step interfaces o o'
  destroyed : (id : ℕ) → o' ≡ (destroy o id).0 → Step interfaces o o'
  released : (id : ℕ) → o' ≡ (delete_id o id).0 → Step interfaces o o'
  hidden : (name : ℕ) → o' ≡ hide_global o name → Step interfaces o o'

pub data Reach (interfaces : List Interface) (o : Objects) : Objects → Type 0 where
  here : Reach interfaces o o
  next : {p q : Objects} → Reach interfaces o p → Step interfaces p q → Reach interfaces o q

module _ (interfaces : List Interface) where
  pub bind_inv :
      (o : Objects) (name index version id : ℕ) {o' : Objects}
      → bind interfaces o name index version id ≡ ok o'
      → (is_hidden o name ≡ false) × (record_id interfaces o true id index version ≡ ok o')
  unfolding bind
  bind_inv o name index version id h = ground arith

  -- A call of `new_id_from` that succeeds records an id for its sender, or changes nothing.
  pub new_id_from_inv :
      (o : Objects) (from_client : Bool) (parent opcode : ℕ) (args : List Arg) {o' : Objects}
      {made : Option ℕ}
      → new_id_from interfaces o from_client parent opcode args ≡ ok (o', made)
      → (o' ≡ o)
        ⊎ ((new : ℕ) × (index : ℕ) × (version : ℕ) × (record_id interfaces o from_client new index
                version
              ≡ ok o'))
  unfolding new_id_from
  new_id_from_inv o from_client parent opcode args h =
      let (entry, e1, h1) = bind_ok_or_inv (get o parent) _ _ h in
      let (iface, e2, h2) = bind_ok_or_inv (by_index interfaces entry.interface) _ _ h1 in
      let (msg, e3, h3) = bind_ok_or_inv (message iface from_client opcode) _ _ h2 in
      elim (create_inv interfaces o from_client entry.version msg.new_id_interface _ h3) [
        | inl (same, _, _) ↦ inl same
        | inr (new, index, _, _, recorded) ↦ inr (new, index, entry.version, recorded)
      ]

  Step-IsValid : {o o' : Objects} → Step interfaces o o' → IsValid o → IsValid o'
  Step-IsValid {o} (bound name index version id h) v =
      record_id-IsValid interfaces o true id index version v
        ((bind_inv o name index version id h).1)
  Step-IsValid {o} (created from_client parent opcode args made h) v =
      elim (new_id_from_inv o from_client parent opcode args h) [
        | inl same ↦ rw same v
        | inr (new, index, version, recorded) ↦
            record_id-IsValid interfaces o from_client new index version v recorded
      ]
  Step-IsValid {o} (destroyed id e) v = rw e (destroy-IsValid o id v)
  Step-IsValid {o} (released id e) v = rw e (delete_id-IsValid o id v)
  Step-IsValid {o} (hidden name e) v = rw e (hide_global-IsValid o name v)

  Reach-IsValid : {o o' : Objects} → IsValid o → Reach interfaces o o' → IsValid o'
  Reach-IsValid v here = v
  Reach-IsValid v (next r s) = Step-IsValid s (Reach-IsValid v r)

  -- On every connection, whatever the two sides send: no id is mapped twice, `server_zombies` is the
  -- number of destroyed objects in the server's range, and at most twice the cap of ids is mapped.
  pub connection-IsValid :
      (display_index : ℕ) {o : Objects} → Reach interfaces (new display_index) o → IsValid o
  connection-IsValid display_index r = Reach-IsValid (new-IsValid display_index) r
