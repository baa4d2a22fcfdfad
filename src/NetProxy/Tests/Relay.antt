-- ===== src/NetProxy/Tests/Relay.antt =====
-- A short tunnel, and the relay's theorems at it.
use bubbler.Prelude.{ℕ, ◌-◌, ◌≡◌, ◌≤◌, refl, true, false, ◌⊎◌, List, [], ◌∷◌, arith}
use bubbler.NetProxy.Relay.{
  done_with, failed, would_block, Dir, default, PollFlags, pending, done, wants_read, wants_write,
  close_sink, would_wait, read_from, give_up, waiting, write_to, Tunnel, World, transfer, turn,
  close_sinks, on_client, on_upstream, act, ready, is_empty, revents, no_flags,
}
use bubbler.NetProxy.Relay.Flow.{
  Run, IsFlow, start, more, read_bytes, write_bytes, Run-IsFlow, close_sink_complete,
}
use bubbler.NetProxy.Relay.Turns.{Acts, turn-Acts, turn-over}

program : Unit {0}
unfolding default pending done wants_read wants_write close_sink would_wait read_from give_up
    waiting write_to transfer turn close_sinks on_client on_upstream act ready is_empty revents
    no_flags
program = tt

-- Three bytes are read, two are written.
abbrev reading : Dir
reading = record { buf = 1 ∷ 2 ∷ 3 ∷ []; off = 0; source_done = false; sink_done = false }

abbrev writing : Dir
writing = record { buf = 1 ∷ 2 ∷ 3 ∷ []; off = 2; source_done = false; sink_done = false }

-- All is written, and the source has ended.
abbrev ended : Dir
ended = record { buf = 1 ∷ 2 ∷ 3 ∷ []; off = 3; source_done = true; sink_done = false }

read-Run : Run reading (1 ∷ 2 ∷ 3 ∷ []) []
unfolding program
read-Run = more start (read_bytes (1 ∷ 2 ∷ 3 ∷ []) refl (omega arith))

write-Run : Run writing (1 ∷ 2 ∷ 3 ∷ []) (1 ∷ 2 ∷ [])
unfolding program
write-Run = more read-Run (write_bytes 2 refl (omega arith))

abbrev received : List ℕ
received = 1 ∷ 2 ∷ 3 ∷ []

abbrev delivered : List ℕ
delivered = 1 ∷ 2 ∷ 3 ∷ []

ended-Run : Run ended received delivered
unfolding program
ended-Run =
    more (more write-Run (write_bytes 1 refl (omega arith))) (read_bytes [] refl (omega arith))

Run-IsFlow_example : IsFlow writing (1 ∷ 2 ∷ 3 ∷ []) (1 ∷ 2 ∷ [])
Run-IsFlow_example = Run-IsFlow write-Run

close_sink_complete_example : received ≡ delivered
unfolding program
close_sink_complete_example = close_sink_complete ended-Run refl refl

abbrev fresh : Tunnel
fresh = record { out = reading; back = default; moved_at = 5 }

abbrev writable : PollFlags
writable = record { readable = false; writable = true; hup = false; error = false }

abbrev readable : PollFlags
readable = record { readable = true; writable = false; hup = false; error = false }

-- The upstream takes two bytes, the client has nothing.
abbrev world : World
world = record {
  now = 6;
  entries = 1;
  client_events = readable;
  upstream_events = writable;
  client_read = failed would_block;
  upstream_write = done_with 2;
  upstream_read = failed would_block;
  client_write = failed would_block;
  after = 7;
}

turn-Acts_example :
    Acts reading world.client_events world.upstream_events world.client_read world.upstream_write
      writing
    × Acts default world.upstream_events world.client_events world.upstream_read world.client_write
        default
unfolding program
turn-Acts_example =
    turn-Acts 60 fresh world {t' = record { out = writing; back = default; moved_at = 7 }} refl tt
      (omega arith) tt tt

-- Nothing has moved for the whole idle time.
turn-over_example :
    (fresh ≡ close_sinks fresh)
    × (((fresh.out.sink_done ≡ true) × (fresh.back.sink_done ≡ true))
        ⊎ ((1 ≤ world.now - fresh.moved_at) ⊎ (world.entries ≡ 0)))
unfolding program
turn-over_example = turn-over 1 fresh world {t' = fresh} refl
