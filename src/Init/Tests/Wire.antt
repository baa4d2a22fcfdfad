-- ===== src/Init/Tests/Wire.antt =====
-- A request in three pieces, and the theorem on its descriptors at it.
use bubbler.Prelude.{
  ℕ, ◌≡◌, ◌≢◌, ◌≤◌, All, length, map, arith, refl, List, [], ◌∷◌, ok, err, some, none, codes, slice,
  checked_add, u32_of_slice, u32_from_bytes, u32_to_bytes,
}
use bubbler.Init.Proto.{
  Request, has_unknown_flags, as_u32, encode_argv, encode_request, take4, decode_argv,
  decode_request, encode_status, decode_status, max_request,
}
use bubbler.Init.Wire.{
  Incoming, Answer, received, failed, would_block_kind, three_fds, new, accept_prefix, read_prefix,
  read_payload, read_for, read_some, is_whole, finish, finish_with, read_step, would_block, late,
  answered, timed_out, interrupted, of_io, of_proto, read_exact_by, send_request, recv_payload,
  recv_request, send_status, recv_status,
}
use bubbler.Init.Wire.Delivery.{arriving, concat, recv_request-send_request}
use bubbler.Init.Wire.Descriptors.{Brings, Reach, start, wait, Reach-Brings}

program : Unit {0}
unfolding slice checked_add u32_of_slice u32_from_bytes u32_to_bytes has_unknown_flags as_u32
    encode_argv encode_request take4 decode_argv decode_request new accept_prefix read_prefix
    read_payload read_for read_some is_whole finish finish_with read_step would_block of_io of_proto
    read_exact_by send_request recv_payload recv_request send_status recv_status encode_status
    decode_status
program = tt

abbrev request : Request
request = record { flags = 0; argv = codes "ls" ∷ [] }

-- Half of the length, and the descriptors.
abbrev half : Incoming
half = record { prefix = 14 ∷ 0 ∷ []; want = none; payload = []; fds = 5 ∷ 6 ∷ 7 ∷ [] }

abbrev first : List Answer
first = received (14 ∷ 0 ∷ []) (5 ∷ 6 ∷ 7 ∷ []) ∷ failed would_block_kind ∷ []

abbrev others : List Answer
others =
    received (0 ∷ 0 ∷ []) []
    ∷ received (0 ∷ 0 ∷ 0 ∷ 0 ∷ 1 ∷ 0 ∷ 0 ∷ []) []
    ∷ received (0 ∷ 2 ∷ 0 ∷ 0 ∷ 0 ∷ 108 ∷ 115 ∷ []) []
    ∷ []

half-Reach : Reach half
unfolding program
half-Reach = wait first start refl

two_fds : (read_step (received (0 ∷ 0 ∷ 0 ∷ 0 ∷ []) (5 ∷ 6 ∷ []) ∷ []) new).1 ≡ err three_fds
unfolding program
two_fds = refl

handed : (read_step others half).1 ≡ ok (some (request, 5 ∷ 6 ∷ 7 ∷ []))
unfolding program
handed = refl

Reach-Brings_example : Brings (read_step others half).0 request (5 ∷ 6 ∷ 7 ∷ [])
Reach-Brings_example = Reach-Brings others request (5 ∷ 6 ∷ 7 ∷ []) half-Reach handed

-- The encoding of the request, in three pieces.
abbrev pieces : List (List ℕ)
pieces = (0 ∷ 0 ∷ 0 ∷ 0 ∷ 1 ∷ []) ∷ (0 ∷ 0 ∷ 0 ∷ 2 ∷ 0 ∷ 0 ∷ 0 ∷ 108 ∷ []) ∷ (115 ∷ []) ∷ []

some_argument : (codes "ls" ∷ []) ≢ []
some_argument e = cc

small : length (encode_request (codes "ls" ∷ []) 0) ≤ max_request
unfolding program
small = omega arith

filled : All (λ p. p ≢ []) pieces
filled = (λ e. cc, (λ e. cc, (λ e. cc, tt)))

all_there : concat pieces ≡ encode_request (codes "ls" ∷ []) 0
unfolding program
all_there = refl

recv_request-send_request_example :
    (prefix : List ℕ) × (send_request (codes "ls" ∷ []) 0 (5 ∷ 6 ∷ 7 ∷ []) (ok 4) (ok tt)
      ≡ ok ((prefix, 5 ∷ 6 ∷ 7 ∷ []) ∷ (concat pieces, []) ∷ []))
    × (recv_request (answered (received prefix (5 ∷ 6 ∷ 7 ∷ [])) ∷ map answered (arriving pieces))
        ≡ ok (request, 5 ∷ 6 ∷ 7 ∷ []))
    × ((read_step (received prefix (5 ∷ 6 ∷ 7 ∷ []) ∷ arriving pieces) new).1
        ≡ ok (some (request, 5 ∷ 6 ∷ 7 ∷ [])))
recv_request-send_request_example =
    recv_request-send_request (codes "ls" ∷ []) 0 (5 ∷ 6 ∷ 7 ∷ []) pieces some_argument
      (omega arith) small refl filled all_there

-- A signal between two reads is no failure; a deadline that passes is one.
got_status :
    recv_status (
      answered (received (9 ∷ 1 ∷ []) [])
      ∷ answered (failed interrupted)
      ∷ answered (received (0 ∷ 0 ∷ []) [])
      ∷ [])
    ≡ ok 265
unfolding program
got_status = refl

sent_status : send_status 265 (ok tt) ≡ ok (9 ∷ 1 ∷ 0 ∷ 0 ∷ [])
unfolding program
sent_status = refl

trickles :
    recv_request (
      answered (received (14 ∷ 0 ∷ 0 ∷ 0 ∷ []) (5 ∷ 6 ∷ 7 ∷ []))
      ∷ answered (received (0 ∷ []) [])
      ∷ late
      ∷ [])
    ≡ err timed_out
unfolding program
trickles = refl
