-- ===== src/Core/DbusWire/Message.antt =====
-- crates/bubbler-core/src/dbus_wire.rs: whole messages, a fixed header with its fields, padding to eight
-- bytes, and the body; and the check of the descriptors that a body names.
pub mod Framed
pub mod Sound
use bubbler.Prelude.{
  ℕ, zero, suc, ◌+◌, ◌-◌, ◌*◌, ◌/◌, ◌%◌, ◌^◌, Bool, true, false, List, [], ◌∷◌, ◌++◌, Option, none,
  some, Result, ok, err, ◌>>=◌, ◌>>◌, ok_or, refuse_if, ltb, leb, ◌==◌, not, ◌&&◌, ◌||◌, length,
  take, drop, slice, replicate, if◌then◌else◌, codes,
}
use bubbler.NetProxy.Allow.{all}
use bubbler.Core.DbusWire.Types.{
  WireError, Value, Values, Entries, max_array, max_message, max_incoming, padding_at,
}
use bubbler.Core.DbusWire.Encode.{encode}
use bubbler.Core.DbusWire.Decode.{from_le_bytes, decode}

-- The fields of a header as they are given, and the values that they are written as.
unfoldable pub field_values : List (ℕ × Value) → Values
field_values [] = Values.nil
field_values ((code, value) ∷ fields) =
    Values.cons
      (Value.struct (Values.cons (Value.byte code) (Values.cons (Value.variant value) Values.nil)))
      (field_values fields)

abbrev pub header_signature : List ℕ
header_signature = codes "yyyyuua(yv)"

-- `PROTOCOL_VERSION`, `FIXED_HEADER`
abbrev pub protocol_version : ℕ
protocol_version = 1

abbrev pub fixed_header : ℕ
fixed_header = 16

unfoldable pub header_values : ℕ → ℕ → ℕ → List (ℕ × Value) → List ℕ → Values
header_values kind flags serial fields body = Values.cons (Value.byte b'l') (
    Values.cons (Value.byte kind) (
      Values.cons (Value.byte flags) (
        Values.cons (Value.byte protocol_version) (
          Values.cons (Value.uint32 (length body % 2 ^ 32)) (
            Values.cons (Value.uint32 serial)
              (Values.cons (Value.array (field_values fields)) Values.nil))))))

-- `pad(&mut message, 8)`, and the body behind it.
unfoldable pub with_body : List ℕ → List ℕ → List ℕ
with_body header body = header ++ (replicate (padding_at (length header) 8) 0 ++ body)

unfoldable pub encode_message : ℕ → ℕ → ℕ → List (ℕ × Value) → List ℕ → Result WireError (List ℕ)
encode_message kind flags serial fields body = do
  refuse_if (ltb max_message (length body)) (WireError.message_too_long (length body))
  header ← encode header_signature (header_values kind flags serial fields body)
  refuse_if (ltb max_message (length (with_body header body)))
      (WireError.message_too_long (length (with_body header body)))
  ok (with_body header body)

-- `head[at]`, and the four bytes from an offset on, of bytes that are there.
unfoldable pub byte_at : ℕ → List ℕ → ℕ
byte_at at bytes = from_le_bytes (take 1 (drop at bytes))

unfoldable pub word_at : ℕ → List ℕ → ℕ
word_at at bytes = from_le_bytes (take 4 (drop at bytes))

-- `n.div_ceil(align) * align`
unfoldable pub align_up : ℕ → ℕ → ℕ
align_up n align = (n + (align - 1)) / align * align

-- Where the body begins and how long it is.
unfoldable pub frame : List ℕ → Result WireError (ℕ × ℕ)
frame message = do
  head ← ok_or (slice message 0 fixed_header) WireError.truncated
  refuse_if (not (byte_at 0 head == b'l')) (WireError.endianness (byte_at 0 head))
  refuse_if (not (byte_at 3 head == protocol_version))
      (WireError.bad_message (codes "a message of an unknown version"))
  refuse_if (ltb max_array (word_at 12 head)) (WireError.array_too_long (word_at 12 head))
  refuse_if (ltb max_incoming (word_at 4 head)) (WireError.message_too_long (word_at 4 head))
  refuse_if (ltb max_incoming (align_up (fixed_header + word_at 12 head) 8 + word_at 4 head))
      (WireError.message_too_long (align_up (fixed_header + word_at 12 head) 8 + word_at 4 head))
  ok (align_up (fixed_header + word_at 12 head) 8, word_at 4 head)

pub record Message : Type 0 where
  pub kind : ℕ
  pub reply_serial : Option ℕ
  pub error_name : Option (List ℕ)
  pub sender : Option (List ℕ)
  pub signature : List ℕ
  pub unix_fds : ℕ
  pub body : List ℕ

-- What the fields said so far, and the codes that were seen.
pub record Header : Type 0 where
  pub reply_serial : Option ℕ
  pub error_name : Option (List ℕ)
  pub sender : Option (List ℕ)
  pub signature : List ℕ
  pub unix_fds : ℕ
  pub seen : List ℕ

abbrev pub no_fields : Header
no_fields = record {
  reply_serial = none;
  error_name = none;
  sender = none;
  signature = [];
  unix_fds = 0;
  seen = [];
}

unfoldable pub sees : ℕ → List ℕ → Bool
sees code [] = false
sees code (c ∷ seen) = c == code || sees code seen

abbrev wrong : Result WireError Header
wrong = err (WireError.bad_message (codes "a header field of the wrong type"))

abbrev unreadable : WireError
unreadable = WireError.bad_message (codes "a header field it could not read")

unfoldable pub if_uint32 : Value → (ℕ → Header) → Result WireError Header
if_uint32 (Value.uint32 v) h = ok (h v)
if_uint32 v h = wrong

unfoldable pub if_str : Value → (List ℕ → Header) → Result WireError Header
if_str (Value.str v) h = ok (h v)
if_str v h = wrong

unfoldable pub if_signature : Value → (List ℕ → Header) → Result WireError Header
if_signature (Value.signature v) h = ok (h v)
if_signature v h = wrong

unfoldable pub if_path : Value → Header → Result WireError Header
if_path (Value.object_path v) h = ok h
if_path v h = wrong

-- The `match` on the code of a field and its value. The codes are 1 for the path, 2 the interface, 3 the
-- member, 4 the name of an error, 5 the serial replied to, 6 the destination, 7 the sender, 8 the signature
-- and 9 the number of descriptors.
unfoldable pub store : ℕ → Value → Header → Result WireError Header
store code value h =
    if code == 5
    then if_uint32 value (λ v. record h { reply_serial = some v })
    else if code == 4
    then if_str value (λ v. record h { error_name = some v })
    else if code == 7
    then if_str value (λ v. record h { sender = some v })
    else if code == 8
    then if_signature value (λ v. record h { signature = v })
    else if code == 9
    then if_uint32 value (λ v. record h { unix_fds = v })
    else if code == 1
    then if_path value h
    else if code == 2 || (code == 3 || code == 6)
    then if_str value (λ v. h)
    else ok h

unfoldable pub read_field : ℕ → Value → Header → Result WireError Header
read_field code value h = do
  refuse_if (sees code h.seen) (WireError.bad_message (codes "a header field twice"))
  store code value (record h { seen = code ∷ h.seen })

-- `let [Value::Byte(code), Value::Variant(value)] = pair`
unfoldable pub pair_of : Value → Option (ℕ × Value)
pair_of
      (Value.struct
        (Values.cons (Value.byte code) (Values.cons (Value.variant value) Values.nil))) =
    some (code, value)
pair_of v = none

unfoldable pub read_fields : Values → Header → Result WireError Header
read_fields Values.nil h = ok h
read_fields (Values.cons field fields) h = do
  (code, value) ← ok_or (pair_of field) unreadable
  h' ← read_field code value h
  read_fields fields h'

-- `let [_, Value::Byte(kind), _, _, _, _, Value::Array(fields)] = values`
unfoldable pub header_of : Values → Option (ℕ × Values)
header_of
      (Values.cons a (
        Values.cons (Value.byte kind) (
          Values.cons c (
            Values.cons d
              (Values.cons e (Values.cons f (Values.cons (Value.array fields) Values.nil))))))) =
    some (kind, fields)
header_of values = none

unfoldable pub finish : ℕ → List ℕ → Header → Result WireError Message
finish kind body h = do
  refuse_if (length h.signature == 0 && not (length body == 0))
      (WireError.bad_message (codes "a body with no signature"))
  ok (record {
    kind = kind;
    reply_serial = h.reply_serial;
    error_name = h.error_name;
    sender = h.sender;
    signature = h.signature;
    unix_fds = h.unix_fds;
    body = body;
  })

unfoldable pub decode_message : List ℕ → Result WireError Message
decode_message message = do
  (body_at, body_len) ← frame message
  header ← ok_or (slice message 0 (fixed_header + word_at 12 message)) WireError.truncated
  values ← decode header_signature header
  (kind, fields) ←
      ok_or (header_of values) (WireError.bad_message (codes "a header it could not read"))
  padding ← ok_or (slice message (fixed_header + word_at 12 message) body_at) WireError.truncated
  refuse_if (not (all (λ b. b == 0) padding)) WireError.padding
  body ← ok_or (slice message body_at (body_at + body_len)) WireError.truncated
  h ← read_fields fields no_fields
  finish kind body h

-- Every descriptor that a value names is one that was given.
unfoldable mutual
  pub check_fd_indices : Value → ℕ → Result WireError (Unit {0})
  check_fd_indices (Value.fd index) count = refuse_if (leb count index) (WireError.fd_index index)
  check_fd_indices (Value.array items) count = check_all items count
  check_fd_indices (Value.struct given) count = check_all given count
  check_fd_indices (Value.dict entries) count = check_entries entries count
  check_fd_indices (Value.variant inner) count = check_fd_indices inner count
  check_fd_indices v count = ok tt

  pub check_all : Values → ℕ → Result WireError (Unit {0})
  check_all Values.nil count = ok tt
  check_all (Values.cons value values) count = do
    check_fd_indices value count
    check_all values count

  pub check_entries : Entries → ℕ → Result WireError (Unit {0})
  check_entries Entries.end count = ok tt
  check_entries (Entries.entry key value entries) count = do
    check_fd_indices value count
    check_entries entries count
