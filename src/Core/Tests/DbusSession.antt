-- ===== src/Core/Tests/DbusSession.antt =====
-- A call to a name that the session does not know yet, and the theorem on it.
use bubbler.Prelude.{ℕ, ◌≡◌, refl, List, [], ◌∷◌, ◌++◌, decimal, ok, err, codes, false}
use bubbler.Core.DbusWire.Types.{WireError, Value, Values}
use bubbler.Core.DbusWire.Session.{
  Arrival, Attempt, Session, and_then, counted, take_message, framed_message, next_message,
  fill_until, receive, send_loop, send,
}
use bubbler.Core.DbusWire.Session.Calls.{
  is_serial, judge_sender, judge, forget, first_text, refused, answered, await, call_fields,
  next_serial, call_owner, check_call, call_bus, unique_name_of, ask_owner, start_service,
  looked_up, find_owner, owner_of, call_by, hello,
}
use bubbler.Core.DbusWire.Session.Handshake.{
  hex_digit, hex_bytes, uid_hex, strip_prefix, has_prefix, is_space, trim_start, trim_end,
  with_front, first_line, ascii_text, next_line, read_line, accepted, negotiated, authenticate,
  connect,
}
use bubbler.Core.DbusWire.Session.Opening.{IsOpened, authenticate-IsOpened}
use bubbler.Core.DbusWire.Session.Sending.{Sends, send-Sends}
use bubbler.Core.DbusWire.Session.Owners.{IsReturned, call_by-IsReturned}
use bubbler.Core.Tests.DbusMessage.{messages}
use bubbler.NetProxy.Allow.{starts_with}

session : Unit {0}
unfolding messages and_then counted take_message framed_message next_message fill_until receive
    send_loop send is_serial judge_sender judge forget first_text refused answered await call_fields
    next_serial call_owner check_call call_bus unique_name_of ask_owner start_service looked_up
    find_owner owner_of call_by hello starts_with
session = tt

-- The bus: the name belongs to :1.
abbrev told : List ℕ
told =
    108 ∷ 2 ∷ 1 ∷ 1 ∷ 7 ∷ 0 ∷ 0 ∷ 0 ∷ 8 ∷ 0 ∷ 0 ∷ 0 ∷ 47 ∷ 0 ∷ 0 ∷ 0 ∷ 5 ∷ 1 ∷ 117 ∷ 0 ∷ 3 ∷ 0 ∷ 0
    ∷ 0 ∷ 7 ∷ 1 ∷ 115 ∷ 0 ∷ 20 ∷ 0 ∷ 0 ∷ 0 ∷ 111 ∷ 114 ∷ 103 ∷ 46 ∷ 102 ∷ 114 ∷ 101 ∷ 101 ∷ 100
    ∷ 101 ∷ 115 ∷ 107 ∷ 116 ∷ 111 ∷ 112 ∷ 46 ∷ 68 ∷ 66 ∷ 117 ∷ 115 ∷ 0 ∷ 0 ∷ 0 ∷ 0 ∷ 8 ∷ 1 ∷ 103 ∷ 0
    ∷ 1 ∷ 115 ∷ 0 ∷ 0 ∷ 2 ∷ 0 ∷ 0 ∷ 0 ∷ 58 ∷ 49 ∷ 0 ∷ []

-- The owner of the name.
abbrev returned : List ℕ
returned =
    108 ∷ 2 ∷ 1 ∷ 1 ∷ 1 ∷ 0 ∷ 0 ∷ 0 ∷ 9 ∷ 0 ∷ 0 ∷ 0 ∷ 31 ∷ 0 ∷ 0 ∷ 0 ∷ 5 ∷ 1 ∷ 117 ∷ 0 ∷ 4 ∷ 0 ∷ 0
    ∷ 0 ∷ 7 ∷ 1 ∷ 115 ∷ 0 ∷ 2 ∷ 0 ∷ 0 ∷ 0 ∷ 58 ∷ 49 ∷ 0 ∷ 0 ∷ 0 ∷ 0 ∷ 0 ∷ 0 ∷ 8 ∷ 1 ∷ 103 ∷ 0 ∷ 1
    ∷ 121 ∷ 0 ∷ 0 ∷ 200 ∷ []

-- The answers arrive in pieces that end anywhere, another peer answers the call too, and the first send is interrupted.
abbrev start : Session
start = record {
  owners = [];
  fds_seen = 0;
  serial = 2;
  unique_name = [];
  fd_passing = false;
  buf = [];
  arrivals =
      Arrival.bytes (told ++ (108 ∷ 2 ∷ [])) 0
      ∷ Arrival.bytes
          (1 ∷ 1 ∷ 1 ∷ 0 ∷ 0 ∷ 0 ∷ 5 ∷ 0 ∷ 0 ∷ 0 ∷ 31 ∷ 0 ∷ 0 ∷ 0 ∷ 5 ∷ 1 ∷ 117 ∷ 0 ∷ 4 ∷ 0 ∷ 0 ∷ 0
            ∷ 7 ∷ 1 ∷ 115 ∷ 0 ∷ 2 ∷ 0 ∷ 0 ∷ 0 ∷ 58 ∷ 50 ∷ 0 ∷ 0 ∷ 0 ∷ 0 ∷ 0 ∷ 0 ∷ 8 ∷ 1 ∷ 103 ∷ 0
            ∷ 1 ∷ 121 ∷ 0 ∷ 0 ∷ 1 ∷ [])
          0
      ∷ Arrival.bytes returned 0
      ∷ [];
  turns = false ∷ false ∷ false ∷ [];
  attempts = Attempt.interrupted ∷ Attempt.took 999 ∷ Attempt.took 999 ∷ [];
  sent = [];
}

calls :
    (call_by (codes "org.a") (codes "/") [] (codes "M") [] Values.nil 0 start).0
    ≡ ok (Values.cons (Value.byte 200) Values.nil)
unfolding session
calls = refl

call_by-IsReturned_example :
    IsReturned start (codes "org.a") (Values.cons (Value.byte 200) Values.nil)
call_by-IsReturned_example =
    call_by-IsReturned start (codes "org.a") (codes "/") [] (codes "M") [] Values.nil 0
      (Values.cons (Value.byte 200) Values.nil) calls

-- Where nothing arrives, the call ends with a timeout.
late :
    (call_by
      (codes ":1")
      (codes "/")
      []
      (codes "M")
      []
      Values.nil
      0
      (record start { arrivals = [] })).0
    ≡ err WireError.timeout
unfolding session
late = refl

opening : Unit {0}
unfolding session decimal hex_digit hex_bytes uid_hex strip_prefix has_prefix is_space trim_start
    trim_end with_front first_line ascii_text next_line read_line accepted negotiated authenticate
    connect
opening = tt

hex : uid_hex 1000 ≡ codes "31303030"
unfolding opening
hex = refl

-- A bus with descriptors, which answers `Hello` with the name :1.
abbrev bus : List ℕ
bus =
    79 ∷ 75 ∷ 32 ∷ 49 ∷ 50 ∷ 13 ∷ 10 ∷ 65 ∷ 71 ∷ 82 ∷ 69 ∷ 69 ∷ 95 ∷ 85 ∷ 78 ∷ 73 ∷ 88 ∷ 95 ∷ 70
    ∷ 68 ∷ 13 ∷ 10 ∷ 108 ∷ 2 ∷ 1 ∷ 1 ∷ 7 ∷ 0 ∷ 0 ∷ 0 ∷ 8 ∷ 0 ∷ 0 ∷ 0 ∷ 47 ∷ 0 ∷ 0 ∷ 0 ∷ 5 ∷ 1 ∷ 117
    ∷ 0 ∷ 1 ∷ 0 ∷ 0 ∷ 0 ∷ 7 ∷ 1 ∷ 115 ∷ 0 ∷ 20 ∷ 0 ∷ 0 ∷ 0 ∷ 111 ∷ 114 ∷ 103 ∷ 46 ∷ 102 ∷ 114 ∷ 101
    ∷ 101 ∷ 100 ∷ 101 ∷ 115 ∷ 107 ∷ 116 ∷ 111 ∷ 112 ∷ 46 ∷ 68 ∷ 66 ∷ 117 ∷ 115 ∷ 0 ∷ 0 ∷ 0 ∷ 0 ∷ 8
    ∷ 1 ∷ 103 ∷ 0 ∷ 1 ∷ 115 ∷ 0 ∷ 0 ∷ 2 ∷ 0 ∷ 0 ∷ 0 ∷ 58 ∷ 49 ∷ 0 ∷ []

abbrev fresh : List Arrival → Session
fresh arrivals = record {
  owners = [];
  fds_seen = 0;
  serial = 0;
  unique_name = [];
  fd_passing = false;
  buf = [];
  arrivals = arrivals;
  turns = false ∷ [];
  attempts = Attempt.took 99 ∷ Attempt.took 99 ∷ Attempt.took 99 ∷ Attempt.took 999 ∷ [];
  sent = [];
}

opens : (connect 1000 (fresh (Arrival.bytes bus 0 ∷ []))).1.unique_name ≡ codes ":1"
unfolding opening
opens = refl

rejects :
    (connect 1000 (
      fresh (
        Arrival.bytes (codes "REJECTED ANONYMOUS " ++ (13 ∷ [])) 0
        ∷ Arrival.bytes (10 ∷ []) 0
        ∷ []))).0
    ≡ err (WireError.auth_rejected (codes "ANONYMOUS"))
unfolding opening
rejects = refl

-- Eight bytes in pieces of three, of which the socket takes two.
abbrev slow : Session
slow = record (fresh []) {
  attempts = Attempt.took 3 ∷ Attempt.interrupted ∷ Attempt.took 3 ∷ Attempt.no_room ∷ [];
}

stalls : send (codes "abcdefgh") 2 slow ≡ (
  err WireError.timeout,
  record slow { attempts = []; sent = (codes "abc", 2) ∷ (codes "def", 0) ∷ [] },
)
unfolding opening
stalls = refl

send-Sends_example : Sends (codes "abcdefgh") 2 slow (send (codes "abcdefgh") 2 slow)
send-Sends_example = send-Sends (codes "abcdefgh") 2 slow

grants : (authenticate 1000 (fresh (Arrival.bytes bus 0 ∷ []))).0 ≡ ok tt
unfolding opening
grants = refl

authenticate-IsOpened_example :
    IsOpened 1000
      (fresh (Arrival.bytes bus 0 ∷ []))
      (authenticate 1000 (fresh (Arrival.bytes bus 0 ∷ []))).1
authenticate-IsOpened_example = authenticate-IsOpened 1000 (fresh (Arrival.bytes bus 0 ∷ [])) grants
