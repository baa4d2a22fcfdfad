-- ===== src/Core/Tests/DbusMessage.antt =====
-- A call written as a message and read again, and the theorems on it.
use bubbler.Prelude.{
  ℕ, ◌≡◌, ◌≤◌, ◌<◌, ◌↔◌, refl, some, none, List, [], ◌∷◌, ok, err, codes, All, arith,
}
use bubbler.Core.DbusWire.Types.{WireError, Value, Values, max_values}
use bubbler.Core.DbusWire.Pieces.{weights}
use bubbler.Core.DbusWire.Message.{
  field_values, header_values, with_body, encode_message, byte_at, word_at, align_up, frame,
  Message, sees, if_uint32, if_str, if_signature, if_path, store, read_field, pair_of, read_fields,
  header_of, finish, decode_message, check_fd_indices, check_all, check_entries,
}
use bubbler.Core.DbusWire.Message.Framed.{AreFields, decode_message-encode_message}
use bubbler.Core.DbusWire.Message.Sound.{
  IsMessage, decode_message-IsMessage, named_fds, check_fd_indices_exact,
}
use bubbler.Core.Tests.DbusWire.{program}

unfoldable pub messages : Unit {0}
unfolding program field_values header_values with_body encode_message byte_at word_at align_up frame
    sees if_uint32 if_str if_signature if_path store read_field pair_of read_fields header_of finish
    decode_message check_fd_indices check_all check_entries
messages = tt

abbrev fields : List (ℕ × Value)
fields = (5, Value.uint32 3) ∷ (7, Value.str (codes ":1")) ∷ (8, Value.signature (codes "y")) ∷ []

-- A reply to call 3 from :1, with one byte for a body.
abbrev pub sent : List ℕ
sent =
    b'l' ∷ 2 ∷ 1 ∷ 1 ∷ 1 ∷ 0 ∷ 0 ∷ 0 ∷ 9 ∷ 0 ∷ 0 ∷ 0 ∷ 31 ∷ 0 ∷ 0 ∷ 0 ∷ 5 ∷ 1 ∷ b'u' ∷ 0 ∷ 3 ∷ 0 ∷ 0
    ∷ 0 ∷ 7 ∷ 1 ∷ b's' ∷ 0 ∷ 2 ∷ 0 ∷ 0 ∷ 0 ∷ b':' ∷ b'1' ∷ 0 ∷ 0 ∷ 0 ∷ 0 ∷ 0 ∷ 0 ∷ 8 ∷ 1 ∷ b'g' ∷ 0
    ∷ 1 ∷ b'y' ∷ 0 ∷ 0 ∷ 200 ∷ []

sends : encode_message 2 1 9 fields (200 ∷ []) ≡ ok sent
unfolding messages
sends = refl

abbrev received : Message
received = record {
  kind = 2;
  reply_serial = some 3;
  error_name = none;
  sender = some (codes ":1");
  signature = codes "y";
  unix_fds = 0;
  body = 200 ∷ [];
}

receives : decode_message sent ≡ ok received
unfolding messages
receives = refl

-- The same field twice.
twice :
    decode_message (
      b'l' ∷ 2 ∷ 1 ∷ 1 ∷ 0 ∷ 0 ∷ 0 ∷ 0 ∷ 9 ∷ 0 ∷ 0 ∷ 0 ∷ 16 ∷ 0 ∷ 0 ∷ 0 ∷ 5 ∷ 1 ∷ b'u' ∷ 0 ∷ 3 ∷ 0
      ∷ 0 ∷ 0 ∷ 5 ∷ 1 ∷ b'u' ∷ 0 ∷ 4 ∷ 0 ∷ 0 ∷ 0 ∷ [])
    ≡ err (WireError.bad_message (codes "a header field twice"))
unfolding messages
twice = refl

are_fields : AreFields fields
unfolding messages
are_fields = (omega arith, omega arith, (omega arith, refl, (omega arith, tt, tt)))

few_values : weights (header_values 2 1 9 fields (200 ∷ [])) ≤ max_values
unfolding messages
few_values = omega arith

decode_message-encode_message_example : decode_message sent ≡ ok received
unfolding messages
decode_message-encode_message_example =
    decode_message-encode_message 2 1 9 fields (200 ∷ []) sends (omega arith) (omega arith)
      (omega arith) are_fields few_values (omega arith)

decode_message-IsMessage_example : IsMessage sent received
decode_message-IsMessage_example = decode_message-IsMessage sent received receives

-- Two descriptors, the second inside a variant.
abbrev files : Value
files =
    Value.struct (Values.cons (Value.fd 0) (Values.cons (Value.variant (Value.fd 1)) Values.nil))

check_fd_indices_exact_example :
    (check_fd_indices files 1 ≡ ok tt) ↔ All (λ i. i < 1) (named_fds files)
check_fd_indices_exact_example = check_fd_indices_exact files 1
