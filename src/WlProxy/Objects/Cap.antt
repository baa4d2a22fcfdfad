-- ===== src/WlProxy/Objects/Cap.antt =====
-- crates/bubbler-wl-proxy/src/objects.rs: the cap on the mapped objects and the ids that the server takes again.
use bubbler.Prelude.{ℕ, ◌+◌, ◌-◌, ◌≡◌, ◌≤◌, ◌∙◌, true, false, some, List, ok, arith, min}
use bubbler.Prelude.Assoc.{insert, count-insert_present, length-insert_present, count-le-length}
use bubbler.WlProxy.Tables.{Interface, by_index}
use bubbler.WlProxy.Objects.{Objects, Entry, server_id_base, get, live, place, record_id}
use bubbler.WlProxy.Objects.Invariant.{IsValid, is_server_zombie}

module _ (interfaces : List Interface) (o : Objects) (id index version : ℕ) (iface : Interface)
    (known : by_index interfaces index ≡ some iface) where
  abbrev pub recorded : Entry
  recorded = record { interface = index; version = min version iface.version; zombie = false }

  server-record_id :
      server_id_base ≤ id
      → record_id interfaces o false id index version ≡ place o false id recorded
  unfolding record_id
  server-record_id lo = ground (arith, known)

  -- The server takes over a dead id of its own whatever the number of live objects is: they are one
  -- more afterwards, with no check against the cap.
  pub reuse-live :
      (e : Entry)
      → IsValid o
      → server_id_base ≤ id
      → get o id ≡ some e
      → e.zombie ≡ true
      → (o' : Objects) × (record_id interfaces o false id index version ≡ ok o')
        × (live o' ≡ live o + 1)
  reuse-live e v lo found dead = (after, server-record_id lo ∙ placed, one_more)
    where
      after : Objects
      after = record o { map = insert id recorded o.map; server_zombies = o.server_zombies - 1 }

      placed : place o false id recorded ≡ ok after
      placed = unfold place get in ground (arith, found, dead)

      one_more : live after ≡ live o + 1
      one_more =
          unfold live get is_server_zombie in
          ground (
            arith,
            found,
            dead,
            v.counted,
            lo,
            length-insert_present id recorded e o.map found,
            count-insert_present is_server_zombie id recorded e o.map found,
            count-le-length is_server_zombie o.map,
            count-le-length is_server_zombie (insert id recorded o.map),
          )
