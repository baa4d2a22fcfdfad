-- ===== src/Core/DbusWire/RoundTrip.antt =====
-- crates/bubbler-core/src/dbus_wire.rs: what the writer wrote is read back.
use bubbler.Prelude.{
  ℕ, zero, suc, ◌+◌, ◌-◌, ◌≡◌, ◌≤◌, ◌<◌, refl, sym, ap, ◌∙◌, false, List, [], ◌++◌, append-nil,
  length, length-append, length-replicate, replicate, ok, >>=-eq-ok, bind_refuse_if_inv, ◌==◌, not,
  arith,
}
use mathlib.Core.Path.{subst}
use bubbler.Core.DbusWire.Types.{
  Value, Values, Entries, WireType, WireTypes, count_types, count_values, max_values, padding_at,
}
use bubbler.Core.DbusWire.Signature.{parse_signature}
use bubbler.Core.DbusWire.Signature.Printed.{IsSound, AreSound, parse_signature-prints}
use bubbler.Core.DbusWire.Encode.{
  encode_str, encode_byte_array, encode_array, encode_dict, encode_struct, encode_variant,
  signature_of, encode_value, encode_fields, encode_items, encode_entries, encode,
}
use bubbler.Core.DbusWire.Decode.{Reader, decode_fields, max_nested, decode_value, decode}
use bubbler.Core.DbusWire.Written.{encode_padded_inv, encode_value-pos}
use bubbler.Core.DbusWire.Reads.{Stands, same_reader, Stands-left, Stands-right}
use bubbler.Core.DbusWire.Pieces.{
  IsValue, AreValues, AreEntries, weight, weights, entries_weight, weight-pos, basic-Reads, enter,
}
use bubbler.Core.DbusWire.Loops.{
  no_items-Reads, item-Reads, no_entries-Read, at_value, behind_entry, entry-Reads, entries-Reads,
}
use bubbler.Core.DbusWire.Containers.{
  Reads, ItemsRead, EntriesRead, FieldsRead, byte_array-Reads, array_items-Reads,
  dict_entries-Reads, struct-Reads, variant-Reads,
}

module _ (buf : List ℕ) where
  mutual
    unfolding encode_value encode_fields encode_items encode_entries weight weights entries_weight
        decode_fields count_types count_values

    value-Reads :
        (v : Value) (ty : WireType) (d f : ℕ) (r : Reader) (e : List ℕ)
        → encode_value r.at ty v d ≡ ok e
        → IsSound ty
        → IsValue v
        → Stands buf r.at e
        → r.values + weight v ≤ max_values
        → max_nested ≤ f + d
        → Reads buf f ty v d r e
    value-Reads (Value.byte_array v) ty d f r e h sound range stands budget enough =
        let (room, bytes, written, same) = encode_padded_inv r.at ty d _ e h in
        enter buf f ty d r e bytes (Value.byte_array v) 1 enough room budget same stands
          (λ g r' enough' at values there.
            byte_array-Reads buf ty d g r r' bytes there values v
              (subst (λ a. encode_byte_array ty d v a ≡ ok bytes) (sym at) written))
    value-Reads (Value.array items) ty d f r e h sound range stands budget enough =
        let (room, bytes, written, same) = encode_padded_inv r.at ty d _ e h in
        enter buf f ty d r e bytes (Value.array items) (1 + weights items) enough room (omega arith)
          same stands
          (λ g r' enough' at values there.
            array_items-Reads buf ty d g r r' bytes there values items
              (subst
                (λ a.
                  encode_array ty d (Value.array items)
                    (λ element start. encode_items start element items (d + 1)) a
                  ≡ ok bytes)
                (sym at) written)
              sound
              (λ element r'' inner wrote sound' content values'.
                items-Reads items element (d + 1) g (max_values + 1 - r''.values) r'' inner wrote
                  sound' range content (omega arith) enough' (omega arith)))
    value-Reads (Value.dict entries) ty d f r e h sound range stands budget enough =
        let (room, bytes, written, same) = encode_padded_inv r.at ty d _ e h in
        enter buf f ty d r e bytes (Value.dict entries) (1 + entries_weight entries) enough room
          (omega arith) same stands
          (λ g r' enough' at values there.
            dict_entries-Reads buf ty d g r r' bytes there values entries
              (subst
                (λ a.
                  encode_dict ty d (Value.dict entries)
                    (λ element start. encode_entries start element entries (d + 1)) a
                  ≡ ok bytes)
                (sym at) written)
              sound
              (λ element r'' inner wrote sound' content values'.
                dict-Reads entries element (d + 1) g (max_values + 1 - r''.values) r'' inner wrote
                  sound' range content (omega arith) enough' (omega arith)))
    value-Reads (Value.struct given) ty d f r e h sound range stands budget enough =
        let (room, bytes, written, same) = encode_padded_inv r.at ty d _ e h in
        enter buf f ty d r e bytes (Value.struct given) (1 + weights given) enough room
          (omega arith) same stands
          (λ g r' enough' at values there.
            struct-Reads buf ty d g r r' bytes there values given
              (subst
                (λ a.
                  encode_struct ty given (λ fields start. encode_fields start fields given (d + 1))
                    a
                  ≡ ok bytes)
                (sym at) written)
              sound
              (λ fields wrote as_many sounds.
                fields-Read given fields (d + 1) g r' bytes wrote as_many sounds range there
                  (omega arith) enough'))
    value-Reads (Value.variant inner) ty d f r e h sound range stands budget enough =
        let (room, bytes, written, same) = encode_padded_inv r.at ty d _ e h in
        enter buf f ty d r e bytes (Value.variant inner) (1 + weight inner) enough room
          (omega arith) same stands
          (λ g r' enough' at values there.
            variant-Reads buf ty d g r r' bytes there values inner
              (subst
                (λ a.
                  encode_variant ty inner (signature_of inner 0)
                    (λ element start. encode_value start element inner (d + 1)) a
                  ≡ ok bytes)
                (sym at) written)
              (λ element r'' content wrote sound' there' values'.
                value-Reads inner element (d + 1) g r'' content wrote sound' range there'
                  (omega arith) enough'))
    value-Reads v ty d f r e h sound range stands budget enough =
        let (room, bytes, written, same) = encode_padded_inv r.at ty d _ e h in
        enter buf f ty d r e bytes v 1 enough room budget same stands
          (λ g r' enough' at values there.
            basic-Reads buf (decode_value buf g) ty v d r' bytes written range there
            ∙ ap (λ n. ok (v, record { at = r'.at + length bytes; values = n })) values)

    items-Reads :
        (items : Values) (element : WireType) (d g n : ℕ) (r : Reader) (e : List ℕ)
        → encode_items r.at element items d ≡ ok e
        → IsSound element
        → AreValues items
        → Stands buf r.at e
        → r.values + weights items ≤ max_values
        → max_nested ≤ g + d
        → max_values < r.values + n
        → ItemsRead buf g n element items d r e
    items-Reads Values.nil element d g n r e h sound range stands budget enough fuel =
        no_items-Reads buf g n element d r e h (omega arith)
    items-Reads (Values.cons item items) element d g zero r e h sound range stands budget enough
          fuel =
        absurd (omega arith)
    items-Reads (Values.cons item items) element d g (suc n) r e h sound (range, ranges) stands
          budget enough fuel =
        let (bytes, e1, h1) = >>=-eq-ok (encode_value r.at element item d) _ h in
        let (more, e2, h2) = >>=-eq-ok (encode_items (r.at + length bytes) element items d) _ h1 in
        let whole : bytes ++ more ≡ e = cc in
        let there = subst (Stands buf r.at) (sym whole) stands in
        item-Reads buf g n element item items d r e bytes more whole
          (encode_value-pos item element r.at d bytes e1 sound)
          (value-Reads item element d g r bytes e1 sound range
            (Stands-left buf r.at bytes more there) (omega arith) enough)
          (items-Reads items element d g n
            (record { at = r.at + length bytes; values = r.values + weight item }) more e2 sound
            ranges (Stands-right buf r.at (r.at + length bytes) bytes more refl there) (omega arith)
            enough (omega (arith, weight-pos item)))

    dict-Reads :
        (entries : Entries) (ty : WireType) (d g n : ℕ) (r : Reader) (e : List ℕ)
        → encode_entries r.at ty entries d ≡ ok e
        → IsSound ty
        → AreEntries entries
        → Stands buf r.at e
        → r.values + entries_weight entries ≤ max_values
        → max_nested ≤ g + d
        → max_values < r.values + n
        → EntriesRead buf g n ty entries d r e
    dict-Reads Entries.end ty d g n r e h sound range stands budget enough fuel =
        no_entries-Read buf g n ty d r e h (omega arith)
    dict-Reads (Entries.entry key value entries) ty d g zero r e h sound range stands budget enough
          fuel =
        absurd (omega arith)
    dict-Reads (Entries.entry key value entries) ty d g (suc n) r e h sound (utf8, range, ranges)
          stands budget enough fuel =
        let pad = padding_at r.at 8 in
        let (text, e1, h1) = >>=-eq-ok (encode_str key) _ h in
        let (bytes, e2, h2) = >>=-eq-ok (encode_value (r.at + pad + length text) ty value d) _ h1 in
        let (more, e3, h3) =
          >>=-eq-ok (encode_entries (r.at + pad + length text + length bytes) ty entries d) _ h2 in
        let whole : replicate pad 0 ++ (text ++ (bytes ++ more)) ≡ e = cc in
        let there = subst (Stands buf r.at) (sym whole) stands in
        let at_text =
          Stands-right buf r.at (r.at + pad) (replicate pad 0) (text ++ (bytes ++ more))
            (omega (arith, length-replicate {A = ℕ} pad 0)) there in
        let at_bytes =
          Stands-right buf (r.at + pad) (r.at + pad + length text) text (bytes ++ more) refl
            at_text in
        entries-Reads buf g n ty key value entries d r e text bytes more whole
          (encode_value-pos value ty (r.at + pad + length text) d bytes e2 sound)
          (entry-Reads buf g ty key value d r text bytes (bytes ++ more) e1 utf8 (omega arith) there
            (value-Reads value ty d g (at_value buf r text) bytes e2 sound range
              (Stands-left buf (r.at + pad + length text) bytes more at_bytes) (omega arith)
              enough))
          (dict-Reads entries ty d g n (behind_entry buf r text value bytes) more e3 sound ranges
            (Stands-right buf (r.at + pad + length text) (r.at + pad + length text + length bytes)
              bytes more refl at_bytes)
            (omega arith) enough (omega arith))

    fields-Read :
        (given : Values) (fields : WireTypes) (d g : ℕ) (r : Reader) (e : List ℕ)
        → encode_fields r.at fields given d ≡ ok e
        → count_types fields ≡ count_values given
        → AreSound fields
        → AreValues given
        → Stands buf r.at e
        → r.values + weights given ≤ max_values
        → max_nested ≤ g + d
        → FieldsRead buf g fields given d r e
    fields-Read Values.nil WireTypes.nil d g r e h as_many sound range stands budget enough =
        let empty : [] ≡ e = cc in
        ap (λ (q : Reader). ok (Values.nil, q))
          (same_reader (omega (arith, ap length empty)) (omega arith))
    fields-Read Values.nil (WireTypes.cons field fields) d g r e h as_many sound range stands budget
          enough =
        absurd (omega arith)
    fields-Read (Values.cons value given) WireTypes.nil d g r e h as_many sound range stands budget
          enough =
        absurd (omega arith)
    fields-Read (Values.cons value given) (WireTypes.cons field fields) d g r e h as_many
          (sound, sounds) (range, ranges) stands budget enough =
        let (bytes, e1, h1) = >>=-eq-ok (encode_value r.at field value d) _ h in
        let (more, e2, h2) = >>=-eq-ok (encode_fields (r.at + length bytes) fields given d) _ h1 in
        let whole : bytes ++ more ≡ e = cc in
        let there = subst (Stands buf r.at) (sym whole) stands in
        let next : Reader = record { at = r.at + length bytes; values = r.values + weight value } in
        let rest =
          fields-Read given fields d g next more e2 (omega arith) sounds ranges
            (Stands-right buf r.at (r.at + length bytes) bytes more refl there) (omega arith)
            enough in
        rw
          (
            value-Reads value field d g r bytes e1 sound range
                (Stands-left buf r.at bytes more there) (omega arith) enough,
            rest,
          )
          (ap (λ (q : Reader). ok (Values.cons value given, q))
            (same_reader (omega (arith, ap length (sym whole), length-append bytes more))
              (omega arith)))

-- A block of values that was written against a signature is read back against it, whole, where the values
-- are such as Rust's types hold and are not more than the reader takes.
pub decode-encode_values :
    (sig : List ℕ) (values : Values) {out : List ℕ}
    → encode sig values ≡ ok out
    → AreValues values
    → weights values ≤ max_values
    → decode sig out ≡ ok values
unfolding encode decode
decode-encode_values sig values {out} h range budget =
    let (types, parsed, h1) = >>=-eq-ok (parse_signature sig) _ h in
    let (as_many, h2) =
      bind_refuse_if_inv (not (count_types types == count_values values)) _ _ h1 in
    let stands : Stands out 0 out = record {
      before = [];
      behind = [];
      whole = sym (append-nil out);
      placed = refl;
    } in
    let read =
      fields-Read out values types 0 max_nested (record { at = 0; values = 0 }) out h2
        (ground arith) (parse_signature-prints sig types parsed).1 range stands (omega arith)
        (omega arith) in
    let whole : not (0 + length out == length out) ≡ false = ground arith in
    rw (parsed, read, whole) refl
