-- ===== src/WlProxy/Tests/Objects.antt =====
-- A small table of interfaces, runs of the object map, and its theorems at concrete states.
use bubbler.Prelude.{
  ◌=b=◌, ◌≡◌, refl, ◌⊎◌, ◌+◌, ok, err, arith, true, false, some, List, [], ◌∷◌, codes,
}
use bubbler.Prelude.Assoc.{lookup, insert, remove, count}
use bubbler.WlProxy.Tables.{Interface, Message, ArgKind, by_index, index_of, message, index_from}
use bubbler.WlProxy.Wire.{Arg}
use bubbler.WlProxy.Objects
use bubbler.WlProxy.Objects.{
  Objects, Entry, new, live, get, place, destroy, delete_id, hide_global, is_hidden, contains,
  record_id, bind, new_id_from, create, find_new_id, hidden_global, too_many_objects, max_objects,
}
use bubbler.WlProxy.Objects.Invariant.{IsValid, is_server_zombie}
use bubbler.WlProxy.Objects.Steps.{Reach, here, next, created, destroyed, connection-IsValid}
use bubbler.WlProxy.Objects.Lifetime.{StaysMapped, Step-StaysMapped, hide_global-bind}
use bubbler.WlProxy.Objects.Cap.{reuse-live}

abbrev pub get_registry : Message
get_registry = record {
  name = codes "get_registry";
  since = 1;
  is_destructor = false;
  args = ArgKind.new_id ∷ [];
  new_id_interface = some (codes "wl_registry");
}

abbrev pub display : Interface
display = record {
  name = codes "wl_display";
  version = 1;
  requests = get_registry ∷ [];
  events = [];
}

abbrev pub registry : Interface
registry = record { name = codes "wl_registry"; version = 1; requests = []; events = [] }

abbrev pub tables : List Interface
tables = display ∷ registry ∷ []

program : Unit {0}
unfolding ◌=b=◌ Objects.new live get place destroy delete_id hide_global is_hidden contains
    record_id bind new_id_from create find_new_id lookup insert remove count by_index index_of
    index_from message is_server_zombie
program = tt

-- The client asked for the registry under id 2.
abbrev pub with_registry : Objects
with_registry = record {
  map =
      (1, record { interface = 0; version = 1; zombie = false })
      ∷ (2, record { interface = 1; version = 1; zombie = false })
      ∷ [];
  hidden_globals = [];
  server_zombies = 0;
}

registry_made :
    new_id_from tables (Objects.new 0) true 1 0 (Arg.new_id 2 ∷ []) ≡ ok (with_registry, some 2)
unfolding program
registry_made = refl

with_registry-Reach : Reach tables (Objects.new 0) with_registry
with_registry-Reach = next here (created true 1 0 (Arg.new_id 2 ∷ []) (some 2) registry_made)

connection-IsValid_example : IsValid with_registry
connection-IsValid_example = connection-IsValid tables 0 with_registry-Reach

Step-StaysMapped_example :
    StaysMapped with_registry
      (destroy with_registry 2).0
      2
      (record { interface = 1; version = 1; zombie = false })
    ⊎ ⊥
Step-StaysMapped_example =
    Step-StaysMapped tables with_registry (destroy with_registry 2).0 2
      (record { interface = 1; version = 1; zombie = false }) connection-IsValid_example
      (omega arith) (unfold program in refl) (destroyed 2 refl)

hide_global-bind_example : bind tables (hide_global with_registry 9) 9 1 1 3 ≡ err (hidden_global 9)
hide_global-bind_example =
    hide_global-bind tables 9 with_registry (hide_global with_registry 9) 1 1 3 here

-- A dead object of the server's, which the client destroyed.
abbrev with_dead : Objects
with_dead = record {
  map = (0xFF00_0000, record { interface = 1; version = 1; zombie = true }) ∷ [];
  hidden_globals = [];
  server_zombies = 1;
}

with_dead-IsValid : IsValid with_dead
unfolding program
with_dead-IsValid = record { unique = (refl, tt); counted = refl; bounded = omega arith }

reuse-live_example :
    (o' : Objects) × (record_id tables with_dead false 0xFF00_0000 1 1 ≡ ok o')
    × (live o' ≡ live with_dead + 1)
reuse-live_example =
    reuse-live tables with_dead 0xFF00_0000 1 1 registry (unfold program in refl)
      (record { interface = 1; version = 1; zombie = true }) with_dead-IsValid (omega arith)
      (unfold program in refl) refl
