-- ===== src/Init/Wire.antt =====
-- crates/bubbler-init/src/wire.rs: requests and statuses on a connection, read whole before a deadline or in pieces
-- on a non-blocking one. What `sendmsg`, `recvmsg`, `read` and `write_all` answer is an input; a descriptor is a
-- number. The bytes of `prefix` that have
-- been read are the list `prefix`, so that `have` is its length.
pub mod Delivery
pub mod Descriptors
use bubbler.Prelude.{
  ℕ, suc, ◌≡◌, Bool, true, false, Option, none, some, List, [], ◌∷◌, ◌++◌, length, Result, ok, err,
  ◌>>=◌, ◌>>◌, refuse_if, little, u32_of_slice, u32_to_bytes, ltb, ◌==◌, not, if◌then◌else◌,
}
use bubbler.Init.Proto.{
  Request, ProtoError, as_u32, encode_request, decode_request, max_request, encode_status,
  decode_status,
}

-- The descriptors of a request: stdin, stdout and stderr.
abbrev pub request_fds : ℕ
request_fds = 3

pub data ErrorKind : Type 0 where
  would_block_kind interrupted other : ErrorKind

pub data WireError : Type 0 where
  io : ErrorKind → WireError
  unexpected_eof three_fds too_large short_prefix timed_out : WireError
  malformed : ProtoError → WireError

-- What the socket answers: bytes with the descriptors that ride on them, or a failure.
pub data Answer : Type 0 where
  received : List ℕ → List ℕ → Answer
  failed : ErrorKind → Answer

pub record Incoming : Type 0 where
  pub prefix : List ℕ
  pub want : Option ℕ
  pub payload : List ℕ
  pub fds : List ℕ

unfoldable pub new : Incoming
new = record { prefix = []; want = none; payload = []; fds = [] }

unfoldable pub would_block : ErrorKind → Bool
would_block would_block_kind = true
would_block interrupted = true
would_block other = false

-- The checks on a prefix that is whole.
unfoldable pub accept_prefix : Incoming → Incoming × Result WireError Bool
accept_prefix inc =
    let len = u32_of_slice little inc.prefix in
    if not (length inc.fds == request_fds)
    then (inc, err three_fds)
    else if ltb max_request len
    then (inc, err too_large)
    else (record inc { want = some len }, ok true)

-- Read towards the length prefix.
unfoldable pub read_prefix : Incoming → Answer → Incoming × Result WireError Bool
read_prefix inc (failed kind) = if would_block kind then (inc, ok false) else (inc, err (io kind))
read_prefix inc (received bytes fds) =
    let held = record inc { fds = inc.fds ++ fds } in
    let longer = record held { prefix = inc.prefix ++ bytes } in
    if length bytes == 0
    then (held, err unexpected_eof)
    else if ltb (length longer.prefix) 4
    then (longer, ok false)
    else accept_prefix longer

-- What a whole payload gives. The descriptors are taken out of the connection.
unfoldable pub finish_with :
    Incoming → Result ProtoError Request → Incoming × Result WireError (Option (Request × List ℕ))
finish_with inc (ok request) = (record inc { fds = [] }, ok (some (request, inc.fds)))
finish_with inc (err e) = (inc, err (malformed e))

unfoldable pub finish : Incoming → Incoming × Result WireError (Option (Request × List ℕ))
finish inc = finish_with inc (decode_request inc.payload)

-- One read of the payload. A plain `read` discards descriptors.
unfoldable pub read_payload : Incoming → Answer → Incoming × Result WireError Bool
read_payload inc (failed kind) = if would_block kind then (inc, ok false) else (inc, err (io kind))
read_payload inc (received bytes fds) =
    if length bytes == 0
    then (inc, err unexpected_eof)
    else (record inc { payload = inc.payload ++ bytes }, ok true)

unfoldable pub is_whole : Incoming → Bool
is_whole inc = elim inc.want [ none ↦ false | some want ↦ not (ltb (length inc.payload) want) ]

-- The read that the state asks for.
unfoldable pub read_for : Option ℕ → Incoming → Answer → Incoming × Result WireError Bool
read_for none inc answer = read_prefix inc answer
read_for (some want) inc answer = read_payload inc answer

unfoldable pub read_some : Incoming → Answer → Incoming × Result WireError Bool
read_some inc answer = read_for inc.want inc answer

-- The loop of `read_step` over the answers of the socket. It reads no further where it returns; where
-- the answers end the socket has nothing more to give.
unfoldable pub read_step :
    List Answer → Incoming → Incoming × Result WireError (Option (Request × List ℕ))
read_step [] inc = if is_whole inc then finish inc else (inc, ok none)
read_step (answer ∷ answers) inc =
    let (inc', moved) = read_some inc answer in
    let rest = read_step answers inc' in
    if is_whole inc
    then finish inc
    else elim moved [ ok true ↦ rest | ok false ↦ (inc', ok none) | err e ↦ (inc', err e) ]

-- A check of the deadline, and the read behind it.
pub data TimedRead : Type 0 where
  late : TimedRead
  answered : Answer → TimedRead

-- The failure of a call of the socket.
unfoldable pub of_io : {A : Type 0} → Result ErrorKind A → Result WireError A
of_io (ok a) = ok a
of_io (err kind) = err (io kind)

unfoldable pub of_proto : {A : Type 0} → Result ProtoError A → Result WireError A
of_proto (ok a) = ok a
of_proto (err e) = err (malformed e)

-- `read_exact_by` with this many bytes in all, when these are there. Where the turns end the deadline has passed.
unfoldable pub read_exact_by : List TimedRead → ℕ → List ℕ → Result WireError (List ℕ)
read_exact_by [] want buf = if ltb (length buf) want then err timed_out else ok buf
read_exact_by (late ∷ turns) want buf = if ltb (length buf) want then err timed_out else ok buf
read_exact_by (answered (received bytes fds) ∷ turns) want buf =
    let rest = read_exact_by turns want (buf ++ bytes) in
    if not (ltb (length buf) want)
    then ok buf
    else if length bytes == 0
    then err unexpected_eof
    else rest
read_exact_by (answered (failed interrupted) ∷ turns) want buf =
    let rest = read_exact_by turns want buf in if ltb (length buf) want then rest else ok buf
read_exact_by (answered (failed kind) ∷ turns) want buf =
    if ltb (length buf) want then err (io kind) else ok buf

-- What is sent, with the descriptors that ride on it; `sent` is what `sendmsg` answers for the prefix and
-- `written` what `write_all` answers for the payload.
unfoldable pub send_request :
    List (List ℕ)
    → ℕ
    → List ℕ
    → Result ErrorKind ℕ
    → Result ErrorKind (Unit {0})
    → Result WireError (List (List ℕ × List ℕ))
send_request argv flags fds sent written = do
  let payload = encode_request argv flags
  refuse_if (ltb max_request (length payload)) too_large
  n ← of_io sent
  refuse_if (not (n == 4)) short_prefix
  of_io written
  ok ((u32_to_bytes little (as_u32 (length payload)), fds) ∷ (payload, []) ∷ [])

-- Receive one request whole: the prefix with the descriptors, then the payload.
unfoldable pub recv_payload : List ℕ → List ℕ → List TimedRead → Result WireError (Request × List ℕ)
recv_payload prefix fds turns = do
  refuse_if (not (length prefix == 4)) short_prefix
  refuse_if (not (length fds == request_fds)) three_fds
  refuse_if (ltb max_request (u32_of_slice little prefix)) too_large
  buf ← read_exact_by turns (u32_of_slice little prefix) []
  request ← of_proto (decode_request buf)
  ok (request, fds)

unfoldable pub recv_request : List TimedRead → Result WireError (Request × List ℕ)
recv_request [] = err timed_out
recv_request (late ∷ turns) = err timed_out
recv_request (answered (failed kind) ∷ turns) = err (io kind)
recv_request (answered (received prefix fds) ∷ turns) = recv_payload prefix fds turns

unfoldable pub send_status : ℕ → Result ErrorKind (Unit {0}) → Result WireError (List ℕ)
send_status status written = do of_io written; ok (encode_status status)

-- The standard library's `read_exact` has no deadline of its own.
unfoldable pub recv_status : List TimedRead → Result WireError ℕ
recv_status turns = do b ← read_exact_by turns 4 []; ok (decode_status b)
