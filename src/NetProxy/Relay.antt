-- ===== src/NetProxy/Relay.antt =====
-- crates/bubbler-net-proxy/src/relay.rs: one direction of a tunnel, `Dir`. What the operating system
-- answers to a read or a write is a value of `Io`; whether a socket is shut is not seen here. The
-- array `buf` is the list of the bytes that the last read filled in, so that `len` is its length.
pub mod Flow
pub mod Turns
use bubbler.Prelude.{
  ℕ, ◌+◌, ◌-◌, ◌==◌, Bool, true, false, List, [], length, drop, ltb, not, ◌&&◌, ◌||◌, if◌then◌else◌,
}

-- Bytes that one direction holds at a time.
abbrev pub chunk : ℕ
chunk = 32768

-- What a wait has asked for, or what `poll` has answered: PollFlags.
pub record PollFlags : Type 0 where
  pub readable : Bool
  pub writable : Bool
  pub hup : Bool
  pub error : Bool

-- The kinds of `io::Error` that the code tells apart.
pub data ErrorKind : Type 0 where
  would_block interrupted other : ErrorKind

-- The answer of a read (the bytes) or of a write (how many).
pub data Io (A : Type 0) : Type 0 where
  done_with : A → Io A
  failed : ErrorKind → Io A

pub record Dir : Type 0 where
  pub buf : List ℕ
  pub off : ℕ
  pub source_done : Bool
  pub sink_done : Bool

unfoldable pub default : Dir
default = record { buf = []; off = 0; source_done = false; sink_done = false }

-- Bytes are waiting for the sink.
unfoldable pub pending : Dir → Bool
pending dir = ltb dir.off (length dir.buf)

unfoldable pub done : Dir → Bool
done dir = dir.sink_done

unfoldable pub wants_read : Dir → Bool
wants_read dir = not dir.source_done && not (pending dir) && not dir.sink_done

unfoldable pub wants_write : Dir → Bool
wants_write dir = pending dir && not dir.sink_done

-- Shut the sink's write end once the source is done and the last byte has gone out.
unfoldable pub close_sink : Dir → Dir
close_sink dir =
    if dir.sink_done || not dir.source_done || pending dir
    then dir
    else record dir { sink_done = true }

-- "Not now" rather than "not at all".
unfoldable pub would_wait : ErrorKind → Bool
would_wait would_block = true
would_wait interrupted = true
would_wait other = false

-- One read of the source into the buffer: the direction, and whether bytes moved.
unfoldable pub read_from : Dir → Io (List ℕ) → Dir × Bool
read_from dir (done_with bytes) =
    if ltb 0 (length bytes)
    then (record dir { buf = bytes; off = 0 }, true)
    else (record dir { source_done = true }, false)
read_from dir (failed kind) =
    if would_wait kind then (dir, false) else (record dir { source_done = true }, false)

unfoldable pub give_up : Dir → Dir
give_up dir = record dir { source_done = true; off = length dir.buf; sink_done = true }

-- The bytes that a write is given.
unfoldable pub waiting : Dir → List ℕ
waiting dir = drop dir.off dir.buf

-- One write of what is waiting to the sink.
unfoldable pub write_to : Dir → Io ℕ → Dir × Bool
write_to dir (done_with n) =
    if ltb 0 n then (record dir { off = dir.off + n }, true) else (give_up dir, false)
write_to dir (failed kind) = if would_wait kind then (dir, false) else (give_up dir, false)

-- Both directions of a tunnel, and when bytes last moved.
pub record Tunnel : Type 0 where
  pub out : Dir
  pub back : Dir
  pub moved_at : ℕ

-- What one turn of the loop meets: the time at which the idle time is measured, the answer of `poll`
-- (how many entries, and the flags of each side), the four transfers that it may make, and the time after.
pub record World : Type 0 where
  pub now : ℕ
  pub entries : ℕ
  pub client_events : PollFlags
  pub upstream_events : PollFlags
  pub client_read : Io (List ℕ)
  pub upstream_write : Io ℕ
  pub upstream_read : Io (List ℕ)
  pub client_write : Io ℕ
  pub after : ℕ

-- `Ok(())` of `run`, or another turn.
pub data Outcome : Type 0 where
  over : Tunnel → Outcome
  again : Tunnel → Outcome

unfoldable pub is_empty : PollFlags → Bool
is_empty flags = not (flags.readable || flags.writable || flags.hup || flags.error)

unfoldable pub no_flags : PollFlags
no_flags = record { readable = false; writable = false; hup = false; error = false }

-- `ready(asked, got, want)`, where `want` picks one flag.
unfoldable pub ready : PollFlags → PollFlags → (PollFlags → Bool) → Bool
ready asked got want = want asked && (want got || got.hup || got.error)

-- What the client's side and the upstream's side wait for.
unfoldable pub on_client : Tunnel → PollFlags
on_client t = record {
  readable = wants_read t.out;
  writable = wants_write t.back;
  hup = false;
  error = false;
}

unfoldable pub on_upstream : Tunnel → PollFlags
on_upstream t = record {
  readable = wants_read t.back;
  writable = wants_write t.out;
  hup = false;
  error = false;
}

-- The events of a side that is in the set.
unfoldable pub revents : PollFlags → PollFlags → PollFlags
revents asked got = if is_empty asked then no_flags else got

-- A transfer where the side is ready for it.
unfoldable pub act : Bool → Dir × Bool → Dir → Dir × Bool
act true moved dir = moved
act false moved dir = (dir, false)

-- The four transfers of one turn, in their order.
unfoldable pub transfer : Tunnel → World → Tunnel
transfer t w =
    let from_client = revents (on_client t) w.client_events in
    let from_upstream = revents (on_upstream t) w.upstream_events in
    let a =
      act (ready (on_client t) from_client (λ f. f.readable)) (read_from t.out w.client_read)
        t.out in
    let b =
      act (ready (on_upstream t) from_upstream (λ f. f.writable)) (write_to a.0 w.upstream_write)
        a.0 in
    let c =
      act (ready (on_upstream t) from_upstream (λ f. f.readable)) (read_from t.back w.upstream_read)
        t.back in
    let d =
      act (ready (on_client t) from_client (λ f. f.writable)) (write_to c.0 w.client_write) c.0 in
    let moved = a.1 || b.1 || c.1 || d.1 in
    record { out = b.0; back = d.0; moved_at = if moved then w.after else t.moved_at }

unfoldable pub close_sinks : Tunnel → Tunnel
close_sinks t = record t { out = close_sink t.out; back = close_sink t.back }

-- One turn of the loop of `run`.
unfoldable pub turn : ℕ → Tunnel → World → Outcome
turn idle t w =
    let shut = close_sinks t in
    if done shut.out && done shut.back
    then over shut
    else if is_empty (on_client shut) && is_empty (on_upstream shut)
    then over shut
    else if not (ltb 0 (idle - (w.now - shut.moved_at)))
    then over shut
    else if w.entries == 0
    then over shut
    else again (transfer shut w)
