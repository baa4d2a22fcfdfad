-- ===== src/WlProxy/Objects/Lifetime.antt =====
-- crates/bubbler-wl-proxy/src/objects.rs: how long an id and a hidden global last.
use bubbler.Prelude.{
  ℕ, ◌≡◌, ◌≢◌, ◌<◌, refl, ap, ◌∙◌, Bool, true, some, List, ok, err, ◌⊎◌, ◌==◌, if◌then◌else◌, arith,
  Option-cases, inl, inr, Bool-cases,
}
use bubbler.Prelude.Assoc.{lookup, lookup-insert, lookup-remove}
use bubbler.WlProxy.Tables.{Interface}
use bubbler.WlProxy.Objects.{
  Objects, Entry, server_id_base, get, destroy, is_hidden, contains, delete_id, hide_global,
  record_id, bind, hidden_global,
}
use bubbler.WlProxy.Objects.Invariant.{IsValid, place-get, record_id_inv}
use bubbler.WlProxy.Objects.Steps.{
  Step, Reach, bound, created, destroyed, released, hidden, here, next, bind_inv, new_id_from_inv,
}

-- The object is still the one that it was; it may have been destroyed since.
pub record StaysMapped (o o' : Objects) (id : ℕ) (e : Entry) : Type 0 where
  pub entry : Entry
  pub mapped : get o' id ≡ some entry
  pub same_interface : entry.interface ≡ e.interface
  pub same_version : entry.version ≡ e.version
  pub stays_destroyed : e.zombie ≡ true → entry.zombie ≡ true

module _ (o : Objects) (id : ℕ) (e : Entry) (found : get o id ≡ some e) where
  same-StaysMapped : {o' : Objects} → get o' id ≡ some e → StaysMapped o o' id e
  same-StaysMapped h = record {
    entry = e;
    mapped = h;
    same_interface = refl;
    same_version = refl;
    stays_destroyed = λ z. z;
  }

  destroy-StaysMapped : (j : ℕ) → StaysMapped o (destroy o j).0 id e
  unfolding destroy get
  destroy-StaysMapped j = record {
    entry = if j == id then record e { zombie = true } else e;
    mapped = elim (Option-cases (lookup j o.map)) [
      | inl n ↦ ground (arith, n, found)
      | inr (old, s) ↦
          ground (arith, s, found, lookup-insert j id (record old { zombie = true }) o.map)
    ];
    same_interface = ground arith;
    same_version = ground arith;
    stays_destroyed = ground arith;
  }

  delete_id-StaysMapped : (j : ℕ) → IsValid o → j ≢ id → StaysMapped o (delete_id o j).0 id e
  unfolding delete_id get
  delete_id-StaysMapped j v ne = same-StaysMapped (elim (Option-cases (lookup j o.map)) [
    | inl n ↦ ground (arith, n, found)
    | inr (old, s) ↦ ground (arith, s, found, lookup-remove j id o.map v.unique)
  ])

  hide_global-StaysMapped : (name : ℕ) → StaysMapped o (hide_global o name) id e
  unfolding hide_global get
  hide_global-StaysMapped name = same-StaysMapped (ground (arith, found))

  record_id-StaysMapped :
      (interfaces : List Interface) (from_client : Bool) (j index version : ℕ) {o' : Objects}
      → id < server_id_base
      → record_id interfaces o from_client j index version ≡ ok o'
      → StaysMapped o o' id e
  record_id-StaysMapped interfaces from_client j index version client h =
      let (iface, _, lo, hi, placed) = record_id_inv interfaces o from_client j index version h in
      let (reads, free, _) = place-get o from_client j _ placed in
      same-StaysMapped (elim (Bool-cases from_client) [
        | inl c ↦ ground (arith, c, reads id, free c, found)
        | inr s ↦ ground (arith, s, reads id, hi s, found)
      ])

-- The call of `wl_display.delete_id` for this id, and no other call.
abbrev pub IsDeleteOf :
    {interfaces : List Interface} {o o' : Objects} → ℕ → Step interfaces o o' → Type 0
IsDeleteOf id (bound name index version new h) = ⊥
IsDeleteOf id (created side parent opcode args made h) = ⊥
IsDeleteOf id (destroyed j h) = ⊥
IsDeleteOf id (released j h) = j ≡ id
IsDeleteOf id (hidden name h) = ⊥

-- A client's object keeps its id, its interface and its version, and once destroyed stays so, through
-- every call on the map but one: the `wl_display.delete_id` of that very id.
pub Step-StaysMapped :
    (interfaces : List Interface) (o o' : Objects) (id : ℕ) (e : Entry)
    → IsValid o
    → id < server_id_base
    → get o id ≡ some e
    → (step : Step interfaces o o') → StaysMapped o o' id e ⊎ IsDeleteOf id step
Step-StaysMapped interfaces o o' id e v client found (bound name index version new h) = inl (
    record_id-StaysMapped o id e found interfaces true new index version client
      ((bind_inv interfaces o name index version new h).1))
Step-StaysMapped interfaces o o' id e v client found (created side parent opcode args made h) =
    elim (new_id_from_inv interfaces o side parent opcode args h) [
      | inl same ↦ inl (rw same (same-StaysMapped o id e found found))
      | inr (new, index, version, r) ↦
          inl (record_id-StaysMapped o id e found interfaces side new index version client r)
    ]
Step-StaysMapped interfaces o o' id e v client found (destroyed j h) =
    inl (rw h (destroy-StaysMapped o id e found j))
Step-StaysMapped interfaces o o' id e v client found (released j h) = elim (Bool-cases (j == id)) [
  | inl s ↦ inr (ground (arith, s))
  | inr n ↦ inl (rw h (delete_id-StaysMapped o id e found j v (ground (arith, n))))
]
Step-StaysMapped interfaces o o' id e v client found (hidden name h) =
    inl (rw h (hide_global-StaysMapped o id e found name))

module _ (interfaces : List Interface) (name : ℕ) where
  record_id-is_hidden :
      (o : Objects) (from_client : Bool) (j index version : ℕ) {o' : Objects}
      → record_id interfaces o from_client j index version ≡ ok o'
      → is_hidden o' name ≡ is_hidden o name
  unfolding is_hidden
  record_id-is_hidden o from_client j index version h =
      let (_, _, _, _, placed) = record_id_inv interfaces o from_client j index version h in
      let (_, _, same) = place-get o from_client j _ placed in ap (λ l. contains l name) same

  Step-is_hidden :
      {o o' : Objects} → Step interfaces o o' → is_hidden o name ≡ true → is_hidden o' name ≡ true
  Step-is_hidden {o} (bound n index version id h) hid =
      record_id-is_hidden o true id index version ((bind_inv interfaces o n index version id h).1)
      ∙ hid
  Step-is_hidden {o} (created side parent opcode args made h) hid =
      elim (new_id_from_inv interfaces o side parent opcode args h) [
        | inl same ↦ rw same hid
        | inr (new, index, version, r) ↦ record_id-is_hidden o side new index version r ∙ hid
      ]
  Step-is_hidden {o} (destroyed id e) hid = rw e (unfold destroy is_hidden in ground arith)
  Step-is_hidden {o} (released id e) hid = rw e (unfold delete_id is_hidden in ground arith)
  Step-is_hidden {o} (hidden n e) hid = rw e (unfold hide_global is_hidden contains in ground arith)

  Reach-is_hidden :
      {o o' : Objects} → is_hidden o name ≡ true → Reach interfaces o o' → is_hidden o' name ≡ true
  Reach-is_hidden h here = h
  Reach-is_hidden h (next r s) = Step-is_hidden s (Reach-is_hidden h r)

  -- A global that was hidden once can never be bound on that connection, under whatever interface,
  -- version and id, and whatever happened in between.
  pub hide_global-bind :
      (o o' : Objects) (index version id : ℕ)
      → Reach interfaces (hide_global o name) o'
      → bind interfaces o' name index version id ≡ err (hidden_global name)
  unfolding bind
  hide_global-bind o o' index version id r = rw (Reach-is_hidden start r)
    where
      start : is_hidden (hide_global o name) name ≡ true
      start = unfold hide_global is_hidden contains in ground arith
