-- ===== src/Core/DbusWire/Session.antt =====
-- crates/bubbler-core/src/dbus_wire.rs: calls on a connected session. What the socket and the clock answer
-- is part of the state: each wait for more to read, with its check of the deadline, takes one of the arrivals, each
-- check of the deadline in the loop of a call one of the turns, each `sendmsg` one of the attempts. Where a list
-- has ended, the deadline has passed. An error comes with the state in which it leaves the session.
pub mod Answers
pub mod Calls
pub mod Handshake
pub mod Lines
pub mod Owners
pub mod Opening
pub mod Sending
pub mod Steps
use bubbler.Prelude.{
  ℕ, ◌+◌, Bool, List, [], ◌∷◌, ◌++◌, Option, none, some, Result, ok, err, ltb, leb, ◌==◌, ◌&&◌,
  length, take, drop, if◌then◌else◌, codes,
}
use bubbler.Core.DbusWire.Types.{WireError}
use bubbler.Core.DbusWire.Message.{fixed_header, frame, Message, decode_message}

-- What the check of the deadline and one read give: bytes with so many descriptors, the end of the stream,
-- a passed deadline, or an error of the socket.
pub data Arrival : Type 0 where
  bytes : List ℕ → ℕ → Arrival
  hung_up late broken : Arrival

-- What one `sendmsg` gives: so many bytes taken, an interruption, a full socket that has room again before
-- the deadline or has not, or an error.
pub data Attempt : Type 0 where
  took : ℕ → Attempt
  interrupted room no_room failed : Attempt

pub record Session : Type 0 where
  pub owners : List (List ℕ × List ℕ)
  pub fds_seen : ℕ
  pub serial : ℕ
  pub unique_name : List ℕ
  pub fd_passing : Bool
  pub buf : List ℕ
  pub arrivals : List Arrival
  pub turns : List Bool
  pub attempts : List Attempt
  pub sent : List (List ℕ × ℕ)

-- The next step on the value of the one before, on the state that it left.
unfoldable pub and_then :
    {A B : Type 0}
    → Result WireError A × Session
    → (A → Session → Result WireError B × Session)
    → Result WireError B × Session
and_then (ok a, s) next = next a s
and_then (err e, s) next = (err e, s)

abbrev max_call_fds : ℕ
max_call_fds = 253

-- A whole message was taken off the buffer; the descriptors that came are its own.
unfoldable pub counted : Result WireError Message → Session → Result WireError Message × Session
counted (err e) s = (err e, s)
counted (ok m) s = (
  (if s.fds_seen == m.unix_fds
      then ok m
      else err (
          WireError.bad_message
            (codes "a message with fewer or more descriptors than it declares"))),
  record s { fds_seen = 0 },
)

unfoldable pub take_message : ℕ → Session → Result WireError Message × Session
take_message total s =
    counted (decode_message (take total s.buf)) (record s { buf = drop total s.buf })

-- What the buffer holds: a message, an error, or nothing yet.
unfoldable pub framed_message :
    Result WireError (ℕ × ℕ) → Session → Option (Result WireError Message × Session)
framed_message (err e) s = some (err e, s)
framed_message (ok (body_at, body_len)) s =
    if leb (body_at + body_len) (length s.buf)
    then some (take_message (body_at + body_len) s)
    else none

unfoldable pub next_message : Session → Option (Result WireError Message × Session)
next_message s = if leb fixed_header (length s.buf) then framed_message (frame s.buf) s else none

-- The loops over `fill`, when these arrivals are still to come: the buffer grows until it holds what is looked
-- for.
unfoldable pub fill_until :
    {A : Type 0}
    → (Session → Option (Result WireError A × Session))
    → List Arrival
    → Session
    → Result WireError A × Session
fill_until next [] s = elim (next s) [ some r ↦ r | none ↦ (err WireError.timeout, s) ]
fill_until next (Arrival.bytes chunk fds ∷ arrivals) s = elim (next s) [
  | some r ↦ r
  | none ↦
      fill_until next arrivals
        (record s { buf = s.buf ++ chunk; fds_seen = s.fds_seen + fds; arrivals = arrivals })
]
fill_until next (Arrival.hung_up ∷ arrivals) s = elim (next s) [
  | some r ↦ r
  | none ↦ (err WireError.closed, record s { arrivals = arrivals })
]
fill_until next (Arrival.late ∷ arrivals) s = elim (next s) [
  | some r ↦ r
  | none ↦ (err WireError.timeout, record s { arrivals = arrivals })
]
fill_until next (Arrival.broken ∷ arrivals) s = elim (next s) [
  | some r ↦ r
  | none ↦ (err WireError.io, record s { arrivals = arrivals })
]

unfoldable pub receive : Session → Result WireError Message × Session
receive s = fill_until next_message s.arrivals s

-- The loop of `send`, on the answers of the socket; the descriptors travel with the first bytes.
unfoldable pub send_loop :
    List Attempt → List ℕ → ℕ → Session → Result WireError (Unit {0}) × Session
send_loop attempts [] carried s = (ok tt, record s { attempts = attempts })
send_loop [] (b ∷ message) carried s = (err WireError.timeout, record s { attempts = [] })
send_loop (Attempt.took n ∷ attempts) (b ∷ message) carried s =
    let rest =
      send_loop attempts (drop n (b ∷ message)) 0
        (record s { sent = s.sent ++ ((take n (b ∷ message), carried) ∷ []) }) in
    if n == 0 then (err WireError.closed, record s { attempts = attempts }) else rest
send_loop (Attempt.interrupted ∷ attempts) (b ∷ message) carried s =
    send_loop attempts (b ∷ message) carried s
send_loop (Attempt.room ∷ attempts) (b ∷ message) carried s =
    send_loop attempts (b ∷ message) carried s
send_loop (Attempt.no_room ∷ attempts) (b ∷ message) carried s =
    (err WireError.timeout, record s { attempts = attempts })
send_loop (Attempt.failed ∷ attempts) (b ∷ message) carried s =
    (err WireError.io, record s { attempts = attempts })

-- The descriptors that do not fit are refused before the first bytes.
unfoldable pub send : List ℕ → ℕ → Session → Result WireError (Unit {0}) × Session
send message fds s =
    if ltb 0 (length message) && ltb max_call_fds fds
    then (err (WireError.too_many_fds fds), s)
    else send_loop s.attempts message fds s
