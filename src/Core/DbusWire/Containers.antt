-- ===== src/Core/DbusWire/Containers.antt =====
-- crates/bubbler-core/src/dbus_wire.rs: containers that the writer wrote are read back, where their parts are.
use bubbler.Prelude.{ℕ, ◌+◌, ◌-◌, ◌≡◌, refl, sym, ap, ◌∙◌, List, length, length-append, ok, arith}
use mathlib.Core.Path.{subst}
use bubbler.Core.DbusWire.Types.{
  Value, Values, Entries, WireType, WireTypes, kind, count_types, count_values, max_values,
}
use bubbler.Core.DbusWire.Signature.Printed.{
  IsSound, AreSound, parse_signature-prints, parse_signature-IsLetter,
}
use bubbler.Core.DbusWire.Encode.{
  encode_signature, encode_byte_array, encode_array, encode_dict, encode_struct, encode_variant,
  signature_of, encode_value, encode_fields, encode_items, encode_entries,
}
use bubbler.Core.DbusWire.Decode.{
  Reader, elements_of, decode_fields, decode_items, decode_entries, decode_elements, decode_variant,
  decode_body, decode_value,
}
use bubbler.Core.DbusWire.Written.{
  encode_byte_array_inv, encode_array_inv, encode_dict_inv, encode_struct_inv, encode_variant_inv,
}
use bubbler.Core.DbusWire.Reads.{
  Stands, moved, same_reader, Stands-left, Stands-right, take_bytes-Stands, short_text-Stands,
}
use bubbler.Core.DbusWire.Pieces.{weight, weights, entries_weight, single_inv, array-Reads}

module _ (buf : List ℕ) where
  -- A value that was written at the place of the reader is read, and the reader stands behind it.
  abbrev pub Reads : ℕ → WireType → Value → ℕ → Reader → List ℕ → Type 0
  Reads f ty v d r e =
      decode_value buf f ty d r
      ≡ ok (v, record { at = r.at + length e; values = r.values + weight v })

  -- The same behind the count and the padding, which lead from `r` to `r'`.
  abbrev pub BodyReads : ℕ → WireType → Value → ℕ → Reader → Reader → List ℕ → Type 0
  BodyReads g ty v d r r' bytes =
      decode_body buf (decode_value buf g) ty d r'
      ≡ ok (v, record { at = r'.at + length bytes; values = r.values + weight v })

  abbrev pub ItemsRead : ℕ → ℕ → WireType → Values → ℕ → Reader → List ℕ → Type 0
  ItemsRead g n element items d r e =
      decode_items buf (decode_value buf g) n element d (r.at + length e) r
      ≡ ok (items, record { at = r.at + length e; values = r.values + weights items })

  abbrev pub EntriesRead : ℕ → ℕ → WireType → Entries → ℕ → Reader → List ℕ → Type 0
  EntriesRead g n ty entries d r e =
      decode_entries buf (decode_value buf g) n ty d (r.at + length e) r
      ≡ ok (entries, record { at = r.at + length e; values = r.values + entries_weight entries })

  abbrev pub FieldsRead : ℕ → WireTypes → Values → ℕ → Reader → List ℕ → Type 0
  FieldsRead g fields given d r e =
      decode_fields buf (decode_value buf g) fields d r
      ≡ ok (given, record { at = r.at + length e; values = r.values + weights given })

  module _ (ty : WireType) (d g : ℕ) (r r' : Reader) (bytes : List ℕ)
      (there : Stands buf r'.at bytes) (values : r'.values ≡ r.values + 1) where
    pub byte_array-Reads :
        (v : List ℕ)
        → encode_byte_array ty d v r'.at ≡ ok bytes
        → BodyReads g ty (Value.byte_array v) d r r' bytes
    unfolding decode_body decode_elements elements_of weight
    byte_array-Reads v h =
        let (arrayed, room, framed) = encode_byte_array_inv ty d v r'.at bytes h in
        subst (λ t. BodyReads g t (Value.byte_array v) d r r' bytes) (sym arrayed)
          (array-Reads buf (decode_value buf g) WireType.byte d r' v bytes (Value.byte_array v)
            (r.values + 1) room framed there
            (λ r'' at same content. rw (take_bytes-Stands buf (length v) r'' v refl content) (
              ap (λ n. ok (Value.byte_array v, record { at = r''.at + length v; values = n }))
                (omega arith))))

    pub array_items-Reads :
        (items : Values)
        → encode_array ty d
            (Value.array items)
            (λ element start. encode_items start element items (d + 1))
            r'.at
          ≡ ok bytes
        → IsSound ty
        → ((element : WireType) (r'' : Reader) (inner : List ℕ)
            → encode_items r''.at element items (d + 1) ≡ ok inner
            → IsSound element
            → Stands buf r''.at inner
            → r''.values ≡ r.values + 1
            → ItemsRead g (max_values + 1 - r''.values) element items (d + 1) r'' inner)
        → BodyReads g ty (Value.array items) d r r' bytes
    unfolding decode_body decode_elements weight
    array_items-Reads items h sound inside =
        let (element, arrayed, room, kind, inner, wrote, framed) =
          encode_array_inv d r'.at _ _ ty bytes h in
        subst (λ t. BodyReads g t (Value.array items) d r r' bytes) (sym arrayed)
          (array-Reads buf (decode_value buf g) element d r' inner bytes (Value.array items)
            (r.values + (1 + weights items)) room framed there
            (λ r'' at same content.
              let read =
                inside element r'' inner
                  (subst (λ a. encode_items a element items (d + 1) ≡ ok inner) (sym at) wrote)
                  (subst IsSound arrayed sound) content (same ∙ values) in
              rw (kind, read)
                (ap (λ n. ok (Value.array items, record { at = r''.at + length inner; values = n }))
                  (omega arith))))

    pub dict_entries-Reads :
        (entries : Entries)
        → encode_dict ty d
            (Value.dict entries)
            (λ element start. encode_entries start element entries (d + 1))
            r'.at
          ≡ ok bytes
        → IsSound ty
        → ((element : WireType) (r'' : Reader) (inner : List ℕ)
            → encode_entries r''.at element entries (d + 1) ≡ ok inner
            → IsSound element
            → Stands buf r''.at inner
            → r''.values ≡ r.values + 1
            → EntriesRead g (max_values + 1 - r''.values) element entries (d + 1) r'' inner)
        → BodyReads g ty (Value.dict entries) d r r' bytes
    unfolding decode_body decode_elements elements_of weight
    dict_entries-Reads entries h sound inside =
        let (key, entry, arrayed, room, text, inner, wrote, framed) =
          encode_dict_inv d r'.at _ _ ty bytes h in
        let sounds = subst IsSound arrayed sound in
        subst (λ t. BodyReads g t (Value.dict entries) d r r' bytes) (sym arrayed)
          (array-Reads buf (decode_value buf g) (WireType.dict_entry key entry) d r' inner bytes
            (Value.dict entries) (r.values + (1 + entries_weight entries)) room framed there
            (λ r'' at same content.
              let read =
                inside entry r'' inner
                  (subst (λ a. encode_entries a entry entries (d + 1) ≡ ok inner) (sym at) wrote)
                  sounds.1 content (same ∙ values) in
              rw (text, read)
                (ap
                  (λ n. ok (Value.dict entries, record { at = r''.at + length inner; values = n }))
                  (omega arith))))

    pub struct-Reads :
        (given : Values)
        → encode_struct ty given (λ fields start. encode_fields start fields given (d + 1)) r'.at
          ≡ ok bytes
        → IsSound ty
        → ((fields : WireTypes)
            → encode_fields r'.at fields given (d + 1) ≡ ok bytes
            → count_types fields ≡ count_values given
            → AreSound fields
            → FieldsRead g fields given (d + 1) r' bytes)
        → BodyReads g ty (Value.struct given) d r r' bytes
    unfolding decode_body weight
    struct-Reads given h sound inside =
        let (fields, is_struct, as_many, wrote) = encode_struct_inv ty given _ r'.at bytes h in
        let sounds = subst IsSound is_struct sound in
        subst (λ t. BodyReads g t (Value.struct given) d r r' bytes) (sym is_struct)
          (rw (inside fields wrote as_many sounds.1) (
            ap (λ n. ok (Value.struct given, record { at = r'.at + length bytes; values = n }))
              (omega arith)))

    pub variant-Reads :
        (inner : Value)
        → encode_variant ty inner
            (signature_of inner 0)
            (λ element start. encode_value start element inner (d + 1))
            r'.at
          ≡ ok bytes
        → ((element : WireType) (r'' : Reader) (content : List ℕ)
            → encode_value r''.at element inner (d + 1) ≡ ok content
            → IsSound element
            → Stands buf r''.at content
            → r''.values ≡ r.values + 1
            → Reads g element inner (d + 1) r'' content)
        → BodyReads g ty (Value.variant inner) d r r' bytes
    unfolding decode_body decode_variant weight
    variant-Reads inner h inside =
        let (is_variant, sig, types, element, content, parsed, one, wrote, same) =
          encode_variant_inv ty inner _ _ r'.at bytes h in
        let (spelled, sounds, short) = parse_signature-prints sig types parsed in
        let text = encode_signature sig in
        let stands = subst (Stands buf r'.at) (sym same) there in
        let r'' = moved r' (length text) in
        let signed =
          short_text-Stands buf sig r' (parse_signature-IsLetter sig types parsed) short
            (Stands-left buf r'.at text content stands) in
        let read =
          inside element r'' content wrote (subst AreSound (single_inv types element one) sounds).0
            (Stands-right buf r'.at (r'.at + length text) text content refl stands) values in
        let size : length bytes ≡ length text + length content =
          ap length (sym same) ∙ length-append text content in
        subst (λ t. BodyReads g t (Value.variant inner) d r r' bytes) (sym is_variant)
          (rw (signed, parsed, one, read)
            (ap (λ (q : Reader). ok (Value.variant inner, q))
              (same_reader (omega (arith, size)) (omega arith))))
