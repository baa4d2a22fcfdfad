-- ===== src/Core/DbusWire/Session/Calls.antt =====
-- crates/bubbler-core/src/dbus_wire.rs: calls to a name on a connected session, the search for its owner and
-- what counts as an answer.
use bubbler.Prelude.{
  ℕ, ◌+◌, ◌%◌, ◌^◌, Bool, true, false, List, [], ◌∷◌, ◌++◌, Option, none, some, Result, ok, err,
  ◌>>◌, refuse_if, ltb, ◌==◌, ◌=b=◌, not, ◌&&◌, ◌||◌, length, if◌then◌else◌, codes,
}
use bubbler.NetProxy.Allow.{starts_with}
use bubbler.Core.DbusWire.Types.{WireError, Value, Values}
use bubbler.Core.DbusWire.Encode.{encode}
use bubbler.Core.DbusWire.Decode.{decode}
use bubbler.Core.DbusWire.Message.{encode_message, Message, check_all}
use bubbler.Core.DbusWire.Session.{Session, and_then, receive, send, max_call_fds}

abbrev pub bus_name : List ℕ
bus_name = codes "org.freedesktop.DBus"

abbrev pub bus_path : List ℕ
bus_path = codes "/org/freedesktop/DBus"

-- `ERROR_NO_OWNER`, `ERROR_SERVICE_UNKNOWN`
abbrev pub error_no_owner : List ℕ
error_no_owner = codes "org.freedesktop.DBus.Error.NameHasNoOwner"

abbrev pub error_service_unknown : List ℕ
error_service_unknown = codes "org.freedesktop.DBus.Error.ServiceUnknown"

-- What the loop of a call makes of a message.
pub data Verdict : Type 0 where
  skip no_sender answer : Verdict

unfoldable pub is_serial : Option ℕ → ℕ → Bool
is_serial none serial = false
is_serial (some n) serial = n == serial

unfoldable pub judge_sender : Option (List ℕ) → List ℕ → ℕ → Verdict
judge_sender none owner kind = Verdict.no_sender
judge_sender (some sender) owner kind =
    if sender =b= owner || ((sender =b= bus_name) && kind == 3)
    then Verdict.answer
    else Verdict.skip

unfoldable pub judge : ℕ → List ℕ → Message → Verdict
judge serial owner m =
    if not (is_serial m.reply_serial serial)
    then Verdict.skip
    else if not (m.kind == 2) && not (m.kind == 3)
    then Verdict.skip
    else judge_sender m.sender owner m.kind

-- `owners.retain(|(cached, _)| cached != dest)`
unfoldable pub forget : List ℕ → List (List ℕ × List ℕ) → List (List ℕ × List ℕ)
forget dest [] = []
forget dest ((name, owner) ∷ owners) =
    if name =b= dest then forget dest owners else (name, owner) ∷ forget dest owners

unfoldable pub first_text : Result WireError Values → List ℕ
first_text (ok (Values.cons (Value.str text) values)) = text
first_text r = []

unfoldable pub refused :
    Option (List ℕ) → List ℕ → Message → Session → Result WireError Values × Session
refused none dest m s = (err (WireError.bad_message (codes "an error reply with no error name")), s)
refused (some name) dest m s = (
  err (WireError.remote name (first_text (decode m.signature m.body))),
  (if name =b= error_no_owner || name =b= error_service_unknown
      then record s { owners = forget dest s.owners }
      else s),
)

unfoldable pub answered : List ℕ → Message → Session → Result WireError Values × Session
answered dest m s =
    if m.kind == 2 then (decode m.signature m.body, s) else refused m.error_name dest m s

-- The loop of `call_by`, on the answers of the clock at its turns.
unfoldable pub await : List Bool → ℕ → List ℕ → List ℕ → Session → Result WireError Values × Session
await [] serial owner dest s = (err WireError.timeout, s)
await (true ∷ turns) serial owner dest s = (err WireError.timeout, record s { turns = turns })
await (false ∷ turns) serial owner dest s = and_then (receive (record s { turns = turns })) (λ m s'.
    elim (judge serial owner m) [
      | Verdict.skip ↦ await turns serial owner dest s'
      | Verdict.no_sender ↦ (err (WireError.bad_message (codes "a reply with no sender")), s')
      | Verdict.answer ↦ answered dest m s'
    ])

-- The fields of a call: the path, the destination, and those that are there.
unfoldable pub call_fields : List ℕ → List ℕ → List ℕ → List ℕ → List ℕ → ℕ → List (ℕ × Value)
call_fields path owner iface member sig fds =
    (1, Value.object_path path)
    ∷ (6, Value.str owner)
    ∷ ((if length iface == 0 then [] else (2, Value.str iface) ∷ [])
        ++ ((3, Value.str member)
            ∷ ((if length sig == 0 then [] else (8, Value.signature sig) ∷ [])
                ++ (if ltb 0 fds then (9, Value.uint32 fds) ∷ [] else []))))

-- `self.serial.wrapping_add(1).max(1)`
unfoldable pub next_serial : ℕ → ℕ
next_serial serial = if (serial + 1) % 2 ^ 32 == 0 then 1 else (serial + 1) % 2 ^ 32

-- A call whose owner is known: what is sent goes to the owner, and `dest` is what it was looked up for.
unfoldable pub call_owner :
    (owner dest path iface member sig : List ℕ)
    → Values
    → ℕ
    → Session
    → Result WireError Values × Session
call_owner owner dest path iface member sig values fds s =
    and_then (encode sig values, s)
      (λ body s0.
        let s1 = record s0 { serial = next_serial s0.serial } in
        and_then
          (encode_message 1 0 s1.serial (call_fields path owner iface member sig fds) body, s1)
          (λ message s2.
            and_then (send message fds s2) (λ done s3. await s3.turns s1.serial owner dest s3)))

-- The checks before anything is sent.
unfoldable pub check_call : List ℕ → Values → ℕ → Session → Result WireError (Unit {0})
check_call dest values fds s = do
  refuse_if (length dest == 0) WireError.no_destination
  refuse_if (ltb 0 fds && not s.fd_passing) WireError.no_fd_passing
  refuse_if (ltb max_call_fds fds) (WireError.too_many_fds fds)
  check_all values fds

-- A call of the bus itself, whose owner is its own name.
unfoldable pub call_bus : List ℕ → List ℕ → Values → Session → Result WireError Values × Session
call_bus member sig values s =
    and_then (check_call bus_name values 0 s, s)
      (λ checked s'. call_owner bus_name bus_name bus_path bus_name member sig values 0 s')

-- A reply that is one unique name.
unfoldable pub unique_name_of : List ℕ → List ℕ → Values → Result WireError (List ℕ)
unique_name_of not_one not_unique (Values.cons (Value.str name) Values.nil) =
    if starts_with b':' name then ok name else err (WireError.bad_message not_unique)
unique_name_of not_one not_unique values = err (WireError.bad_message not_one)

unfoldable pub ask_owner : List ℕ → Session → Result WireError (List ℕ) × Session
ask_owner dest s =
    and_then
      (call_bus (codes "GetNameOwner") (codes "s") (Values.cons (Value.str dest) Values.nil) s)
      (λ reply s'. (
        unique_name_of (codes "a GetNameOwner reply that is not one name")
            (codes "a name owner that is not unique") reply,
        s',
      ))

unfoldable pub start_service : List ℕ → Session → Result WireError (Unit {0}) × Session
start_service dest s =
    and_then
      (call_bus (codes "StartServiceByName") (codes "su")
        (Values.cons (Value.str dest) (Values.cons (Value.uint32 0) Values.nil)) s)
      (λ reply s'. (ok tt, s'))

-- A name without an owner is started and asked for once more.
unfoldable pub looked_up :
    List ℕ → Result WireError (List ℕ) × Session → Result WireError (List ℕ) × Session
looked_up dest (err (WireError.remote name text), s) =
    if name =b= error_no_owner
    then and_then (start_service dest s) (λ started s'. ask_owner dest s')
    else (err (WireError.remote name text), s)
looked_up dest r = r

unfoldable pub find_owner : List ℕ → List (List ℕ × List ℕ) → Option (List ℕ)
find_owner dest [] = none
find_owner dest ((name, owner) ∷ owners) =
    if name =b= dest then some owner else find_owner dest owners

unfoldable pub owner_of : List ℕ → Session → Result WireError (List ℕ) × Session
owner_of dest s =
    if dest =b= bus_name || starts_with b':' dest
    then (ok dest, s)
    else elim (find_owner dest s.owners) [
      | some owner ↦ (ok owner, s)
      | none ↦
          and_then (looked_up dest (ask_owner dest s))
            (λ owner s'. (ok owner, record s' { owners = s'.owners ++ ((dest, owner) ∷ []) }))
    ]

unfoldable pub call_by :
    (dest path iface member sig : List ℕ) → Values → ℕ → Session → Result WireError Values × Session
call_by dest path iface member sig values fds s =
    and_then (check_call dest values fds s, s)
      (λ checked s1.
        and_then (owner_of dest s1)
          (λ owner s2. call_owner owner dest path iface member sig values fds s2))

-- The unique name that the bus gives a new connection.
unfoldable pub hello : Session → Result WireError (List ℕ) × Session
hello s = and_then (call_bus (codes "Hello") [] Values.nil s) (λ reply s'. (
  unique_name_of (codes "a Hello reply that is not one name")
      (codes "a Hello reply that is not a unique name") reply,
  s',
))
