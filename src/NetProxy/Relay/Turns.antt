-- ===== src/NetProxy/Relay/Turns.antt =====
-- crates/bubbler-net-proxy/src/relay.rs: the loop of `run`, one turn at a time.
use bubbler.Prelude.{
  ℕ, ◌-◌, ◌≡◌, ◌≤◌, refl, sym, ◌∙◌, Bool, true, false, ◌⊎◌, inl, inr, take, ◌||◌, List, [], length,
  ◌&&◌, arith,
}
use mathlib.Core.Path.{subst}
use mathlib.Core.Bool.{true≢false}
use bubbler.NetProxy.Relay.{
  Io, done_with, failed, Dir, PollFlags, done, wants_read, wants_write, close_sink, read_from,
  waiting, write_to, Tunnel, World, transfer, turn, over, again, close_sinks, on_client,
  on_upstream, act, ready, revents, no_flags, is_empty, chunk,
}
use bubbler.NetProxy.Relay.Flow.{
  Move, read_bytes, read_failed, write_bytes, write_failed, wants-close_sink,
}

-- What the operating system promises of a read into a buffer, and of a write of some bytes.
abbrev pub ReadFits : Io (List ℕ) → Type 0
ReadFits (done_with bytes) = length bytes ≤ chunk
ReadFits (failed kind) = Unit

abbrev pub WriteFits : Dir → Io ℕ → Type 0
WriteFits dir (done_with n) = n ≤ length (waiting dir)
WriteFits dir (failed kind) = Unit

-- What a read brings, and what a write takes of what is waiting.
abbrev pub brought : Io (List ℕ) → List ℕ
brought (done_with bytes) = bytes
brought (failed kind) = []

abbrev pub taken : Dir → Io ℕ → List ℕ
taken dir (done_with n) = take n (waiting dir)
taken dir (failed kind) = []

-- A side answers a wish to read, or to write: it is ready for it, or was hung up, or broke.
abbrev pub can_read : PollFlags → Bool
can_read got = got.readable || got.hup || got.error

abbrev pub can_write : PollFlags → Bool
can_write got = got.writable || got.hup || got.error

-- What one direction does in a turn, between the events of its source and of its sink and what a read of the one
-- and a write to the other answer: it reads where it wants to and its source is ready; it writes where it wants
-- to and its sink is ready; and it stays as it is where neither holds.
abbrev pub Acts : Dir → PollFlags → PollFlags → Io (List ℕ) → Io ℕ → Dir → Type 0
Acts dir source sink input output dir' =
    (((wants_read dir && can_read source) ≡ true)
      × (dir' ≡ (read_from dir input).0)
      × Move dir dir' (brought input) [])
    ⊎ ((((wants_write dir && can_write sink) ≡ true)
          × (dir' ≡ (write_to dir output).0)
          × Move dir dir' [] (taken dir output))
        ⊎ (((wants_read dir && can_read source) ≡ false)
            × ((wants_write dir && can_write sink) ≡ false)
            × (dir' ≡ dir)))

read-Move :
    (dir : Dir) (io : Io (List ℕ))
    → wants_read dir ≡ true
    → ReadFits io
    → Move dir (read_from dir io).0 (brought io) []
read-Move dir (done_with bytes) wants fits = read_bytes bytes wants fits
read-Move dir (failed kind) wants fits = read_failed kind wants

write-Move :
    (dir : Dir) (io : Io ℕ)
    → wants_write dir ≡ true
    → WriteFits dir io
    → Move dir (write_to dir io).0 [] (taken dir io)
write-Move dir (done_with n) wants fits = write_bytes n wants fits
write-Move dir (failed kind) wants fits = write_failed kind wants

-- A direction never wants both.
wants_one : (dir : Dir) → wants_read dir ≡ true → wants_write dir ≡ false
unfolding wants_read wants_write
wants_one dir h = ground arith

both_true : (a b : Bool) → (a && b) ≡ true → a ≡ true
both_true a b h = ground arith

-- A read and then a write, each made only where it was wanted before both and its side is ready.
act-Acts :
    (dir : Dir) (source sink : PollFlags) (input : Io (List ℕ)) (output : Io ℕ) (r w : Bool)
    → r ≡ (wants_read dir && can_read source)
    → w ≡ (wants_write dir && can_write sink)
    → ReadFits input
    → WriteFits dir output
    → let a = act r (read_from dir input) dir in
      Acts dir source sink input output (act w (write_to a.0 output) a.0).0
unfolding act
act-Acts dir source sink input output true true hr hw fr fw =
    absurd (true≢false (sym (both_true _ _ (sym hw)) ∙ wants_one dir (both_true _ _ (sym hr))))
act-Acts dir source sink input output true false hr hw fr fw =
    inl (sym hr, refl, read-Move dir input (both_true _ _ (sym hr)) fr)
act-Acts dir source sink input output false true hr hw fr fw =
    inr (inl (sym hw, refl, write-Move dir output (both_true _ _ (sym hw)) fw))
act-Acts dir source sink input output false false hr hw fr fw = inr (inr (sym hr, sym hw, refl))

-- A side that was asked is in the set, so that its events are those that `poll` gave.
asked_readable :
    (asked got : PollFlags)
    → ready asked (revents asked got) (λ f. f.readable) ≡ (asked.readable && can_read got)
unfolding ready revents is_empty no_flags
asked_readable asked got = ground arith

asked_writable :
    (asked got : PollFlags)
    → ready asked (revents asked got) (λ f. f.writable) ≡ (asked.writable && can_write got)
unfolding ready revents is_empty no_flags
asked_writable asked got = ground arith

transfer-Acts :
    (t : Tunnel) (w : World)
    → ReadFits w.client_read
    → WriteFits t.out w.upstream_write
    → ReadFits w.upstream_read
    → WriteFits t.back w.client_write
    → Acts t.out w.client_events w.upstream_events w.client_read w.upstream_write (transfer t w).out
      × Acts t.back w.upstream_events w.client_events w.upstream_read w.client_write
          (transfer t w).back
unfolding transfer on_client on_upstream
transfer-Acts t w cr uw ur cw = (
  act-Acts t.out w.client_events w.upstream_events w.client_read w.upstream_write _ _
      (asked_readable _ w.client_events) (asked_writable _ w.upstream_events) cr uw,
  act-Acts t.back w.upstream_events w.client_events w.upstream_read w.client_write _ _
      (asked_readable _ w.upstream_events) (asked_writable _ w.client_events) ur cw,
)

-- In a turn of the loop that goes on, each direction, once its sink is looked after, does what it asked for and
-- its side is ready for, and nothing else, where the operating system keeps to the lengths that it is given: the
-- way out reads the client and writes to the upstream, and the way back reads the upstream and writes to the
-- client.
pub turn-Acts :
    (idle : ℕ) (t : Tunnel) (w : World) {t' : Tunnel}
    → turn idle t w ≡ again t'
    → ReadFits w.client_read
    → WriteFits (close_sink t.out) w.upstream_write
    → ReadFits w.upstream_read
    → WriteFits (close_sink t.back) w.client_write
    → Acts
        (close_sink t.out)
        w.client_events
        w.upstream_events
        w.client_read
        w.upstream_write
        t'.out
      × Acts
          (close_sink t.back)
          w.upstream_events
          w.client_events
          w.upstream_read
          w.client_write
          t'.back
unfolding turn close_sinks
turn-Acts idle t w {t'} e cr uw ur cw =
    let same : transfer (close_sinks t) w ≡ t' = ground arith in
    subst
      (λ u.
        Acts (close_sink t.out) w.client_events w.upstream_events w.client_read w.upstream_write
          u.out
        × Acts (close_sink t.back) w.upstream_events w.client_events w.upstream_read w.client_write
            u.back)
      same (transfer-Acts (close_sinks t) w cr uw ur cw)

-- Where the poll set is empty both directions are over.
empty_done :
    (t : Tunnel)
    → (is_empty (on_client (close_sinks t)) && is_empty (on_upstream (close_sinks t))) ≡ true
    → (done (close_sink t.out) && done (close_sink t.back)) ≡ true
unfolding is_empty on_client on_upstream close_sinks
empty_done t h = ground (arith, wants-close_sink t.out, wants-close_sink t.back)

-- The loop ends only where both directions are over, or nothing has moved for the idle time, or `poll`
-- has answered with no entry: never because there is nothing to wait for.
pub turn-over :
    (idle : ℕ) (t : Tunnel) (w : World) {t' : Tunnel}
    → turn idle t w ≡ over t'
    → (t' ≡ close_sinks t)
      × (((t'.out.sink_done ≡ true) × (t'.back.sink_done ≡ true))
          ⊎ ((idle ≤ w.now - t.moved_at) ⊎ (w.entries ≡ 0)))
unfolding turn close_sinks done
turn-over idle t w {t'} e = ground (arith, empty_done t)
