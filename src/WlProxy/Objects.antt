-- ===== src/WlProxy/Objects.antt =====
-- crates/bubbler-wl-proxy/src/objects.rs: what each object id on one connection is. The `HashMap` of
-- ids is an association list with no key twice, and the `HashSet` of hidden globals is a list. An
-- operation that fails leaves the state as it was, so it returns the error alone.
pub mod Invariant
pub mod Steps
pub mod Lifetime
pub mod Cap
use bubbler.Prelude.{
  ℕ, ◌+◌, ◌-◌, ◌*◌, ◌^◌, ◌≡◌, ◌≤◌, ◌<◌, Bool, true, false, Option, none, some, List, [], ◌∷◌,
  length, min, Result, ok, err, ◌>>=◌, ◌>>◌, ok_or, refuse_if, ltb, leb, ◌==◌, if◌then◌else◌, not,
  ◌&&◌, ◌||◌,
}
use bubbler.Prelude.Assoc.{lookup, insert, remove}
use bubbler.WlProxy.Tables.{Interface, Message, by_index, index_of, message}
use bubbler.WlProxy.Wire.{Arg}
use mathlib.Core.Option

-- First object id that the server allocates.
abbrev pub server_id_base : ℕ
server_id_base = 0xFF00_0000

abbrev pub max_objects : ℕ
max_objects = 2 ^ 16

pub data ObjectError : Type 0 where
  not_client_id : ℕ → ObjectError
  not_server_id : ℕ → ObjectError
  in_use : ℕ → ObjectError
  unmapped : ℕ → ObjectError
  untyped_new_id : ObjectError
  no_such_message : List ℕ → ℕ → ObjectError
  unknown_interface : ℕ → ObjectError
  missing_interface : List ℕ → ObjectError
  hidden_global : ℕ → ObjectError
  too_many_objects : ObjectError

-- What one id is bound to: the interface's index in the tables, its version, and whether the client
-- asked for it to be destroyed.
pub record Entry : Type 0 where
  pub interface : ℕ
  pub version : ℕ
  pub zombie : Bool

pub record Objects : Type 0 where
  pub map : List (ℕ × Entry)
  pub hidden_globals : List ℕ
  pub server_zombies : ℕ

-- Object 1 is `wl_display`, whose index in the tables is the argument.
unfoldable pub new : ℕ → Objects
new display_index = record {
  map = (1, record { interface = display_index; version = 1; zombie = false }) ∷ [];
  hidden_globals = [];
  server_zombies = 0;
}

unfoldable pub len : Objects → ℕ
len o = length o.map

unfoldable pub is_empty : Objects → Bool
is_empty o = length o.map == 0

-- How many ids count against the cap.
unfoldable pub live : Objects → ℕ
live o = length o.map - o.server_zombies

unfoldable pub get : Objects → ℕ → Option Entry
get o id = lookup id o.map

-- The `match` on the map's entry in `record`.
unfoldable pub place : Objects → Bool → ℕ → Entry → Result ObjectError Objects
unfolding live
place o from_client id entry = elim (lookup id o.map) [
  | some old ↦
      if from_client
      then err (in_use id)
      else ok (record o {
        map = insert id entry o.map;
        server_zombies = if old.zombie then o.server_zombies - 1 else o.server_zombies;
      })
  | none ↦
      if leb max_objects (live o) || leb max_objects o.server_zombies
      then err too_many_objects
      else ok (record o { map = insert id entry o.map })
]

unfoldable pub destroy : Objects → ℕ → Objects × Bool
destroy o id = elim (lookup id o.map) [
  | some entry ↦ (
    record o {
      map = insert id (record entry { zombie = true }) o.map;
      server_zombies =
          if not entry.zombie && leb server_id_base id
          then o.server_zombies + 1
          else o.server_zombies;
    },
    true,
  )
  | none ↦ (o, false)
]

unfoldable pub delete_id : Objects → ℕ → Objects × Bool
delete_id o id = elim (lookup id o.map) [
  | some entry ↦ (
    record o {
      map = remove id o.map;
      server_zombies =
          if entry.zombie && leb server_id_base id then o.server_zombies - 1 else o.server_zombies;
    },
    true,
  )
  | none ↦ (o, false)
]

-- Membership in the set of hidden globals.
unfoldable pub contains : List ℕ → ℕ → Bool
contains [] name = false
contains (x ∷ xs) name = x == name || contains xs name

unfoldable pub hide_global : Objects → ℕ → Objects
unfolding contains
hide_global o name =
    if contains o.hidden_globals name
    then o
    else record o { hidden_globals = name ∷ o.hidden_globals }

unfoldable pub is_hidden : Objects → ℕ → Bool
unfolding contains
is_hidden o name = contains o.hidden_globals name

unfoldable pub hidden_count : Objects → ℕ
hidden_count o = length o.hidden_globals

-- The first new id among a message's arguments.
unfoldable pub find_new_id : List Arg → Option ℕ
find_new_id [] = none
find_new_id (Arg.new_id id ∷ args) = some id
find_new_id (_ ∷ args) = find_new_id args

module _ (interfaces : List Interface) where
  unfoldable pub interface : Objects → ℕ → Option Interface
  interface o id = Option.bind (get o id) (λ entry. by_index interfaces entry.interface)

  -- `record`: the range that the sender allocates from, and the version's cap.
  unfoldable pub record_id : Objects → Bool → ℕ → ℕ → ℕ → Result ObjectError Objects
  record_id o from_client id index version = do
    refuse_if (from_client && (id == 0 || leb server_id_base id)) (not_client_id id)
    refuse_if (not from_client && ltb id server_id_base) (not_server_id id)
    iface ← ok_or (by_index interfaces index) (unknown_interface index)
    place o from_client id
        (record { interface = index; version = min version iface.version; zombie = false })

  unfoldable pub bind : Objects → ℕ → ℕ → ℕ → ℕ → Result ObjectError Objects
  bind o name index version new_id =
      if is_hidden o name then err (hidden_global name) else record_id o true new_id index version

  -- The end of `new_id_from`: what the message's new id, if it has one, is recorded as.
  unfoldable pub create :
      Objects → Bool → ℕ → Option (List ℕ) → Option ℕ → Result ObjectError (Objects × Option ℕ)
  create o from_client version named none = ok (o, none)
  create o from_client version none (some id) = err untyped_new_id
  create o from_client version (some name) (some id) = do
    index ← ok_or (index_of interfaces name) (missing_interface name)
    o' ← record_id o from_client id index version
    ok (o', some id)

  unfoldable pub new_id_from :
      Objects → Bool → ℕ → ℕ → List Arg → Result ObjectError (Objects × Option ℕ)
  new_id_from o from_client parent opcode args = do
    entry ← ok_or (get o parent) (unmapped parent)
    iface ← ok_or (by_index interfaces entry.interface) (unknown_interface entry.interface)
    msg ← ok_or (message iface from_client opcode) (no_such_message iface.name opcode)
    create o from_client entry.version msg.new_id_interface (find_new_id args)
