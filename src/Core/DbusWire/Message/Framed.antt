-- ===== src/Core/DbusWire/Message/Framed.antt =====
-- crates/bubbler-core/src/dbus_wire.rs: a message that was written is read.
use bubbler.Prelude.{
  ℕ, ◌+◌, ◌%◌, ◌^◌, ◌≡◌, ◌≤◌, ◌<◌, refl, sym, ap, ◌∙◌, false, some, List, [], ◌∷◌, ◌++◌, append-nil,
  append_assoc, length, length-append, length-replicate, replicate, slice, slice-append, ok, ◌>>=◌,
  >>=-eq-ok, bind_refuse_if_inv, ltb, ◌==◌, not, arith,
}
use mathlib.Core.Path.{subst}
use bubbler.Core.DbusWire.Types.{
  Value, Values, WireType, WireTypes, alignment, is_basic, count_types, count_values, max_array,
  max_message, max_incoming, max_values, padding_at,
}
use bubbler.Core.DbusWire.Signature.{
  opening, expect, entry_behind, array_behind, fields_behind, type_behind, parse_type, parse_types,
  named, parse_signature,
}
use bubbler.Core.DbusWire.Encode.{
  le_bytes, encode_basic, is_array, encode_padded, elements_at, encode_elements, encode_array,
  encode_value, encode_fields, encode_items, encode,
}
use bubbler.Core.DbusWire.Decode.{from_le_bytes, decode}
use bubbler.Core.DbusWire.Reads.{from_le_bytes-le_bytes, all-replicate}
use bubbler.Core.DbusWire.Written.{encode_elements_inv}
use bubbler.Core.DbusWire.Pieces.{IsValue, AreValues, weights}
use bubbler.Core.DbusWire.RoundTrip.{decode-encode_values}
use bubbler.Core.DbusWire.Message.{
  field_values, header_signature, protocol_version, fixed_header, header_values, with_body,
  encode_message, byte_at, word_at, align_up, frame, no_fields, header_of, read_fields, finish,
  decode_message,
}

abbrev field_type : WireType
field_type =
    WireType.struct (WireTypes.cons WireType.byte (WireTypes.cons WireType.variant WireTypes.nil))

abbrev header_types : WireTypes
header_types = WireTypes.cons WireType.byte (
    WireTypes.cons WireType.byte (
      WireTypes.cons WireType.byte (
        WireTypes.cons WireType.byte (
          WireTypes.cons WireType.uint32 (
            WireTypes.cons WireType.uint32
              (WireTypes.cons (WireType.array field_type) WireTypes.nil))))))

parses : parse_signature header_signature ≡ ok header_types
unfolding opening expect entry_behind array_behind fields_behind type_behind parse_type parse_types
    named parse_signature is_basic count_types
parses = refl

-- The header that is written: twelve fixed bytes, the length of the fields, and the fields.
abbrev shape : ℕ → ℕ → ℕ → ℕ → List ℕ → List ℕ
shape kind flags len serial items =
    b'l'
    ∷ kind
    ∷ flags
    ∷ protocol_version
    ∷ (le_bytes 4 len ++ (le_bytes 4 serial ++ (le_bytes 4 (length items) ++ items)))

array-shape :
    (fields : Values) (e : List ℕ)
    → encode_value 12 (WireType.array field_type) (Value.array fields) 0 ≡ ok e
    → (items : List ℕ) × (length items ≤ max_array) × (le_bytes 4 (length items) ++ items ≡ e)
unfolding encode_value is_array encode_padded encode_array elements_at alignment padding_at
array-shape fields e h =
    let (bytes, e1, h1) =
      >>=-eq-ok (encode_items 16 field_type fields 1 >>= encode_elements 12 field_type) _ h in
    let (items, e2, h2) = >>=-eq-ok (encode_items 16 field_type fields 1) _ e1 in
    let (short, same) = encode_elements_inv 12 field_type items bytes h2 in
    let whole : bytes ≡ e = cc in (items, short, same ∙ whole)

field-shape :
    (at : ℕ) (ty : WireType) (types : WireTypes) (v : Value) (values : Values) (bytes e : List ℕ)
    → encode_value at ty v 0 ≡ ok bytes
    → encode_fields at (WireTypes.cons ty types) (Values.cons v values) 0 ≡ ok e
    → (more : List ℕ) × (encode_fields (at + length bytes) types values 0 ≡ ok more)
      × (bytes ++ more ≡ e)
unfolding encode_fields
field-shape at ty types v values bytes e one h =
    let (bytes', e1, h1) = >>=-eq-ok (encode_value at ty v 0) _ h in
    let (more, e2, h2) = >>=-eq-ok (encode_fields (at + length bytes') types values 0) _ h1 in
    let same : bytes' ≡ bytes = cc in
    let whole : bytes' ++ more ≡ e = cc in
    (
      more,
      subst (λ b. encode_fields (at + length b) types values 0 ≡ ok more) same e2,
      ap (λ b. b ++ more) (sym same) ∙ whole,
    )

last-shape :
    (fields : Values) (m : List ℕ)
    → encode_fields 12
        (WireTypes.cons (WireType.array field_type) WireTypes.nil)
        (Values.cons (Value.array fields) Values.nil)
        0
      ≡ ok m
    → (items : List ℕ) × (length items ≤ max_array) × (le_bytes 4 (length items) ++ items ≡ m)
unfolding encode_fields
last-shape fields m h =
    let (arr, a1, a2) =
      >>=-eq-ok (encode_value 12 (WireType.array field_type) (Value.array fields) 0) _ h in
    let (items, short, framed) = array-shape fields arr a1 in
    let ended : arr ++ [] ≡ m = cc in (items, short, framed ∙ sym (append-nil arr) ∙ ended)

fields-shape :
    (kind flags len serial : ℕ) (fields : Values) (header : List ℕ)
    → encode_fields 0 header_types
        (Values.cons (Value.byte b'l') (
          Values.cons (Value.byte kind) (
            Values.cons (Value.byte flags) (
              Values.cons (Value.byte protocol_version) (
                Values.cons (Value.uint32 len) (
                  Values.cons
                    (Value.uint32 serial)
                    (Values.cons (Value.array fields) Values.nil)))))))
        0
      ≡ ok header
    → (items : List ℕ) × (length items ≤ max_array) × (shape kind flags len serial items ≡ header)
unfolding encode_value encode_fields encode_basic is_array encode_padded alignment padding_at
    le_bytes
fields-shape kind flags len serial fields header h =
    let t6 : WireTypes = WireTypes.cons (WireType.array field_type) WireTypes.nil in
    let t5 : WireTypes = WireTypes.cons WireType.uint32 t6 in
    let t4 : WireTypes = WireTypes.cons WireType.uint32 t5 in
    let t3 : WireTypes = WireTypes.cons WireType.byte t4 in
    let t2 : WireTypes = WireTypes.cons WireType.byte t3 in
    let v6 : Values = Values.cons (Value.array fields) Values.nil in
    let v5 : Values = Values.cons (Value.uint32 serial) v6 in
    let v4 : Values = Values.cons (Value.uint32 len) v5 in
    let v3 : Values = Values.cons (Value.byte protocol_version) v4 in
    let v2 : Values = Values.cons (Value.byte flags) v3 in
    let (m1, h1, s1) =
      field-shape 0 WireType.byte (WireTypes.cons WireType.byte t2) (Value.byte b'l')
        (Values.cons (Value.byte kind) v2) (b'l' ∷ []) header refl h in
    let (m2, h2, s2) = field-shape 1 WireType.byte t2 (Value.byte kind) v2 (kind ∷ []) m1 refl h1 in
    let (m3, h3, s3) =
      field-shape 2 WireType.byte t3 (Value.byte flags) v3 (flags ∷ []) m2 refl h2 in
    let (m4, h4, s4) =
      field-shape 3 WireType.byte t4 (Value.byte protocol_version) v4 (protocol_version ∷ []) m3
        refl h3 in
    let (m5, h5, s5) =
      field-shape 4 WireType.uint32 t5 (Value.uint32 len) v5 (le_bytes 4 len) m4 refl h4 in
    let (m6, h6, s6) =
      field-shape 8 WireType.uint32 t6 (Value.uint32 serial) v6 (le_bytes 4 serial) m5 refl h5 in
    let (items, short, tail) = last-shape fields m6 h6 in
    (
      items,
      short,
      ap (λ t. b'l' ∷ kind ∷ flags ∷ protocol_version ∷ t)
            (ap (λ t. le_bytes 4 len ++ t) (ap (λ t. le_bytes 4 serial ++ t) tail ∙ s6) ∙ s5)
          ∙ ap (λ t. b'l' ∷ kind ∷ flags ∷ t) s4
          ∙ ap (λ t. b'l' ∷ kind ∷ t) s3
          ∙ ap (λ t. b'l' ∷ t) s2
          ∙ s1,
    )

header-shape :
    (kind flags serial : ℕ) (fields : List (ℕ × Value)) (body header : List ℕ)
    → encode header_signature (header_values kind flags serial fields body) ≡ ok header
    → (items : List ℕ) × (length items ≤ max_array)
      × (shape kind flags (length body % 2 ^ 32) serial items ≡ header)
unfolding encode header_values
header-shape kind flags serial fields body header h =
    let (types, e1, h1) = >>=-eq-ok (parse_signature header_signature) _ h in
    let same : types ≡ header_types = cc (parses, e1) in
    let (as_many, h2) =
      bind_refuse_if_inv
        (not (count_types types == count_values (header_values kind flags serial fields body))) _ _
        h1 in
    fields-shape kind flags (length body % 2 ^ 32) serial (field_values fields) header (
      subst (λ t. encode_fields 0 t (header_values kind flags serial fields body) 0 ≡ ok header)
        same h2)

-- The next multiple of eight is where the padding ends.
align_up-padding : (n : ℕ) → align_up n 8 ≡ n + padding_at n 8
unfolding align_up padding_at
align_up-padding n = ground arith

-- What the first sixteen bytes of a message say.
module _ (kind flags len serial : ℕ) (items behind : List ℕ) where
  abbrev message : List ℕ
  message = shape kind flags len serial items ++ behind

  abbrev head : List ℕ
  head =
      b'l'
      ∷ kind
      ∷ flags
      ∷ protocol_version
      ∷ (le_bytes 4 len ++ (le_bytes 4 serial ++ le_bytes 4 (length items)))

  head_of : slice message 0 fixed_header ≡ some head
  unfolding le_bytes
  head_of = slice-append [] head (items ++ behind) 0 16 refl refl

  words :
      len < 2 ^ 32
      → length items < 2 ^ 32
      → (word_at 4 head ≡ len)
        × (word_at 12 head ≡ length items)
        × (word_at 12 message ≡ length items)
  unfolding word_at le_bytes
  words small short = (
    from_le_bytes-le_bytes 4 len small,
    from_le_bytes-le_bytes 4 (length items) short,
    from_le_bytes-le_bytes 4 (length items) short,
  )

  frame_of :
      len ≤ max_incoming
      → length items ≤ max_array
      → fixed_header + length items + padding_at (fixed_header + length items) 8 + len
        ≤ max_incoming
      → frame message
        ≡ ok (fixed_header + length items + padding_at (fixed_header + length items) 8, len)
  unfolding frame byte_at from_le_bytes
  frame_of small short fits =
      let (w4, w12, same) = words (omega arith) (omega arith) in
      let aligned = align_up-padding (fixed_header + length items) in
      let first : ltb max_array (length items) ≡ false = ground arith in
      let second : ltb max_incoming len ≡ false = ground arith in
      let third : ltb max_incoming
            (fixed_header + length items + padding_at (fixed_header + length items) 8 + len)
          ≡ false =
        ground arith in
      rw (head_of, w4, w12, first, second, aligned, third) refl

-- The fields of a header as Rust holds them.
abbrev pub AreFields : List (ℕ × Value) → Type 0
AreFields [] = Unit
AreFields ((code, value) ∷ fields) = (code < 2 ^ 8) × IsValue value × AreFields fields

field_values-AreValues :
    (fields : List (ℕ × Value)) → AreFields fields → AreValues (field_values fields)
unfolding field_values
field_values-AreValues [] h = tt
field_values-AreValues ((code, value) ∷ fields) (small, range, h) =
    ((small, (range, tt)), field_values-AreValues fields h)

length-shape :
    (kind flags len serial : ℕ) (items : List ℕ)
    → length (shape kind flags len serial items) ≡ fixed_header + length items
unfolding le_bytes
length-shape kind flags len serial items = omega arith

-- The three parts of a message, cut out again.
parts :
    (header zeros body : List ℕ) (a b c : ℕ)
    → a ≡ length header
    → b ≡ a + length zeros
    → c ≡ b + length body
    → (slice (header ++ (zeros ++ body)) 0 a ≡ some header)
      × (slice (header ++ (zeros ++ body)) a b ≡ some zeros)
      × (slice (header ++ (zeros ++ body)) b c ≡ some body)
parts header zeros body a b c ha hb hc = (
  slice-append [] header (zeros ++ body) 0 a refl (omega arith),
  slice-append header zeros body a b ha hb,
  ap (λ t. slice t b c)
        (ap (λ t. header ++ (zeros ++ t)) (sym (append-nil body))
          ∙ sym (append_assoc header zeros (body ++ [])))
      ∙ slice-append (header ++ zeros) body [] b c (omega (arith, length-append header zeros)) hc,
)

ranges :
    (kind flags serial : ℕ) (fields : List (ℕ × Value)) (body : List ℕ)
    → kind < 2 ^ 8
    → flags < 2 ^ 8
    → serial < 2 ^ 32
    → AreFields fields
    → AreValues (header_values kind flags serial fields body)
unfolding header_values
ranges kind flags serial fields body k f s range = (
  omega arith,
  (k, (f, (omega arith, (omega arith, (s, (field_values-AreValues fields range, tt)))))),
)

found :
    (kind flags serial : ℕ) (fields : List (ℕ × Value)) (body : List ℕ)
    → header_of (header_values kind flags serial fields body) ≡ some (kind, field_values fields)
unfolding header_of header_values
found kind flags serial fields body = refl

framed :
    (kind flags serial : ℕ) (items body : List ℕ) (values fields : Values)
    → length body ≤ max_incoming
    → length items ≤ max_array
    → fixed_header + length items + padding_at (fixed_header + length items) 8 + length body
      ≤ max_incoming
    → decode header_signature (shape kind flags (length body) serial items) ≡ ok values
    → header_of values ≡ some (kind, fields)
    → decode_message (
        shape kind flags (length body) serial items
        ++ (replicate (padding_at (fixed_header + length items) 8) 0 ++ body))
      ≡ (read_fields fields no_fields >>= finish kind body)
unfolding decode_message
framed kind flags serial items body values fields small short fits decoded listed =
    let pad = padding_at (fixed_header + length items) 8 in
    let behind : List ℕ = replicate pad 0 ++ body in
    let header : List ℕ = shape kind flags (length body) serial items in
    let (w4, w12, same) =
      words kind flags (length body) serial items behind (omega arith) (omega arith) in
    let (first, second, third) =
      parts header (replicate pad 0) body (fixed_header + length items)
        (fixed_header + length items + pad) (fixed_header + length items + pad + length body)
        (sym (length-shape kind flags (length body) serial items))
        (omega (arith, length-replicate {A = ℕ} pad 0)) refl in
    rw
      (
        frame_of kind flags (length body) serial items behind small short fits,
        same,
        first,
        decoded,
        listed,
        second,
        all-replicate pad,
        third,
      )
      refl

-- A message that was written, and is not longer than what is read, is read as what the loop over the given
-- fields makes of them, with the kind and the body that were given: the framing adds and loses nothing.
pub decode_message-encode_message :
    (kind flags serial : ℕ) (fields : List (ℕ × Value)) (body : List ℕ) {m : List ℕ}
    → encode_message kind flags serial fields body ≡ ok m
    → kind < 2 ^ 8
    → flags < 2 ^ 8
    → serial < 2 ^ 32
    → AreFields fields
    → weights (header_values kind flags serial fields body) ≤ max_values
    → length m ≤ max_incoming
    → decode_message m ≡ (read_fields (field_values fields) no_fields >>= finish kind body)
unfolding encode_message
decode_message-encode_message kind flags serial fields body {m} h k f s range budget fits =
    let (short, h1) = bind_refuse_if_inv (ltb max_message (length body)) _ _ h in
    let (header, wrote, h2) =
      >>=-eq-ok (encode header_signature (header_values kind flags serial fields body)) _ h1 in
    let (sendable, h3) =
      bind_refuse_if_inv (ltb max_message (length (with_body header body))) _ _ h2 in
    let whole : with_body header body ≡ m = cc in
    let (items, few, shaped) = header-shape kind flags serial fields body header wrote in
    let total : length m ≡ length header + (padding_at (length header) 8 + length body) =
      ap length (sym whole)
      ∙ (unfold with_body in
          omega (
            arith,
            length-append header (replicate (padding_at (length header) 8) 0 ++ body),
            length-append (replicate (padding_at (length header) 8) 0) body,
            length-replicate {A = ℕ} (padding_at (length header) 8) 0,
          )) in
    let size : length header ≡ fixed_header + length items =
      ap length (sym shaped) ∙ length-shape kind flags (length body % 2 ^ 32) serial items in
    let exact : length body % 2 ^ 32 ≡ length body = omega (arith, total, fits) in
    let shaped' : shape kind flags (length body) serial items ≡ header =
      ap (λ n. shape kind flags n serial items) (sym exact) ∙ shaped in
    let decoded : decode header_signature (shape kind flags (length body) serial items)
        ≡ ok (header_values kind flags serial fields body) =
      ap (decode header_signature) shaped'
      ∙ decode-encode_values header_signature _ wrote
          (ranges kind flags serial fields body k f s range) budget in
    let same_pad : padding_at (fixed_header + length items) 8 ≡ padding_at (length header) 8 =
      ap (λ n. padding_at n 8) (sym size) in
    let room : fixed_header
          + length items
          + padding_at (fixed_header + length items) 8
          + length body
        ≤ max_incoming =
      omega (arith, total, fits, size, same_pad) in
    let read =
      framed kind flags serial items body _ (field_values fields) (omega (arith, room)) few room
        decoded (found kind flags serial fields body) in
    let spelled : shape kind flags (length body) serial items
          ++ (replicate (padding_at (fixed_header + length items) 8) 0 ++ body)
        ≡ m =
      ap (λ t. t ++ (replicate (padding_at (fixed_header + length items) 8) 0 ++ body)) shaped'
      ∙ ap (λ n. header ++ (replicate n 0 ++ body)) same_pad
      ∙ (unfold with_body in whole) in
    ap decode_message (sym spelled) ∙ read
