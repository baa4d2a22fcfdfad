-- ===== src/Core/DbusWire/Budget.antt =====
-- crates/bubbler-core/src/dbus_wire.rs: whatever the bytes are, the reader comes to an end within its fuel,
-- and what it gives was counted against the budget of values.
use bubbler.Prelude.{
  ℕ, zero, suc, ◌+◌, ◌-◌, ◌≡◌, ◌≢◌, ◌≤◌, ◌<◌, refl, List, length, Result, ok, err, ltb, leb, ◌==◌,
  not, codes, arith,
}
use bubbler.Core.DbusWire.Types.{
  WireError, Value, Values, WireType, alignment, max_array, max_values, max_depth,
}
use bubbler.Core.DbusWire.Signature.{parse_signature}
use bubbler.Core.DbusWire.Signature.Ends.{parse_signature-Ends}
use bubbler.Core.DbusWire.Encode.{valid_object_path, is_str, single}
use bubbler.Core.DbusWire.Decode.{
  Reader, count_value, take_bytes, align, number, long_text, short_text, Elements, elements_of,
  decode_fields, decode_items, decode_entries, decode_elements, decode_array, decode_variant,
  decode_body, max_nested, decode_value, decode,
}
use bubbler.Core.DbusWire.Pieces.{weight, weights}
use bubbler.Core.DbusWire.Counted.{
  Ensures, done, failed, bind, guard, optional, of_Ends, weaken, Spent, Once, count_value-Counted,
  take_bytes-Same, align-Same, number-Same, long_text-Same, short_text-Same, numeric-Once,
  boolean-Once, fields-Spent, items-Spent, entries-Spent,
}

module _ (buf : List ℕ) where
  -- Behind the count of a value, which was counted already: the count with which it was entered is one less.
  abbrev SpentSince : Reader → Value × Reader → Type 0
  SpentSince r b = (b.1.values + 1 ≡ r.values + weight b.0) × (b.1.values ≤ max_values)

  of_Once :
      (r : Reader) (m : Result WireError (Value × Reader))
      → r.values ≤ max_values
      → Ensures (Once buf r) m
      → Ensures (SpentSince r) m
  of_Once r m room h = weaken (λ b once. (omega (arith, once), omega (arith, once))) h

  module _ (one : WireType → ℕ → Reader → Result WireError (Value × Reader)) (d : ℕ)
      (reads : (ty : WireType) (r : Reader)
        → r.values ≤ max_values
        → Ensures (Spent weight r.values) (one ty (d + 1) r)) where
    elements-SpentSince :
        (elements : Elements) (element : WireType) (len end : ℕ) (r : Reader)
        → r.values ≤ max_values
        → Ensures (SpentSince r) (decode_elements buf one elements element d len end r)
    unfolding decode_elements weight
    elements-SpentSince Elements.as_bytes element len end r room =
        bind (take_bytes buf len r) _ (take_bytes-Same buf len r)
          (λ b same. done _ (omega (arith, same), omega (arith, same)))
    elements-SpentSince (Elements.as_entries key entry) element len end r room =
        guard (not (is_str key)) (WireError.unsupported (codes "dict keys that are not strings")) _
          (λ q. cc)
          (λ text.
            bind (decode_entries buf one (max_values + 1 - r.values) entry (d + 1) end r) _
              (entries-Spent buf one (d + 1) reads (max_values + 1 - r.values) entry end r
                (omega arith) room)
              (λ b spent. done _ (omega (arith, spent), spent.1)))
    elements-SpentSince Elements.as_values element len end r room =
        bind (decode_items buf one (max_values + 1 - r.values) element (d + 1) end r) _
          (items-Spent buf one (d + 1) reads (max_values + 1 - r.values) element end r (omega arith)
            room)
          (λ b spent. done _ (omega (arith, spent), spent.1))

    array-SpentSince :
        (element : WireType) (r : Reader)
        → r.values ≤ max_values
        → Ensures (SpentSince r) (decode_array buf one element d r)
    unfolding decode_array
    array-SpentSince element r room =
        guard (leb max_depth d) WireError.depth _ (λ q. cc)
          (λ shallow. bind (number buf 4 r) _ (number-Same buf 4 r) (λ len same.
            guard (ltb max_array len.0) (WireError.array_too_long len.0) _ (λ q. cc)
              (λ short.
                bind (align buf (alignment element) len.1) _
                  (align-Same buf (alignment element) len.1)
                  (λ r2 same2.
                    guard (ltb (length buf) (r2.at + len.0)) WireError.truncated _ (λ q. cc)
                      (λ fits.
                        bind
                          (decode_elements buf one (elements_of element) element d len.0
                            (r2.at + len.0) r2)
                          _
                          (elements-SpentSince (elements_of element) element len.0 (r2.at + len.0)
                            r2 (omega (arith, same, same2)))
                          (λ b spent.
                            guard (not (b.1.at == r2.at + len.0)) WireError.truncated (ok b)
                              (λ q. cc)
                              (λ ended. done b (omega (arith, same, same2, spent), spent.1))))))))

    variant-SpentSince :
        (r : Reader) → r.values ≤ max_values → Ensures (SpentSince r) (decode_variant buf one d r)
    unfolding decode_variant weight
    variant-SpentSince r room = bind (short_text buf r) _ (short_text-Same buf r) (λ sig same.
        bind (parse_signature sig.0) _ (of_Ends _ (parse_signature-Ends sig.0)) (λ types parsed.
          optional (single types) (WireError.bad_signature sig.0) _ (λ q. cc)
            (λ ty.
              bind (one ty (d + 1) sig.1) _ (reads ty sig.1 (omega (arith, same)))
                (λ b spent. done _ (omega (arith, same, spent), spent.1)))))

    body-SpentSince :
        (ty : WireType) (r : Reader)
        → r.values ≤ max_values
        → Ensures (SpentSince r) (decode_body buf one ty d r)
    unfolding decode_body weight
    body-SpentSince WireType.byte r room =
        of_Once r _ room (numeric-Once buf 1 Value.byte r (λ v. refl))
    body-SpentSince WireType.bool r room = of_Once r _ room (boolean-Once buf r)
    body-SpentSince WireType.int16 r room =
        of_Once r _ room (numeric-Once buf 2 Value.int16 r (λ v. refl))
    body-SpentSince WireType.uint16 r room =
        of_Once r _ room (numeric-Once buf 2 Value.uint16 r (λ v. refl))
    body-SpentSince WireType.int32 r room =
        of_Once r _ room (numeric-Once buf 4 Value.int32 r (λ v. refl))
    body-SpentSince WireType.uint32 r room =
        of_Once r _ room (numeric-Once buf 4 Value.uint32 r (λ v. refl))
    body-SpentSince WireType.int64 r room =
        of_Once r _ room (numeric-Once buf 8 Value.int64 r (λ v. refl))
    body-SpentSince WireType.uint64 r room =
        of_Once r _ room (numeric-Once buf 8 Value.uint64 r (λ v. refl))
    body-SpentSince WireType.double r room =
        of_Once r _ room (numeric-Once buf 8 Value.double r (λ v. refl))
    body-SpentSince WireType.fd r room =
        of_Once r _ room (numeric-Once buf 4 Value.fd r (λ v. refl))
    body-SpentSince WireType.str r room =
        bind (long_text buf r) _ (long_text-Same buf r)
          (λ s same. done _ (omega (arith, same), omega (arith, same)))
    body-SpentSince WireType.object_path r room =
        bind (long_text buf r) _ (long_text-Same buf r) (λ s same.
          guard (not (valid_object_path s.0)) (WireError.bad_object_path s.0)
            (ok (Value.object_path s.0, s.1)) (λ q. cc)
            (λ valid. done _ (omega (arith, same), omega (arith, same))))
    body-SpentSince WireType.signature r room =
        bind (short_text buf r) _ (short_text-Same buf r) (λ sig same.
          bind (parse_signature sig.0) _ (of_Ends _ (parse_signature-Ends sig.0))
            (λ types parsed. done _ (omega (arith, same), omega (arith, same))))
    body-SpentSince WireType.variant r room = variant-SpentSince r room
    body-SpentSince (WireType.array element) r room = array-SpentSince element r room
    body-SpentSince (WireType.struct fields) r room =
        bind (decode_fields buf one fields (d + 1) r) _
          (fields-Spent buf one (d + 1) reads fields r room)
          (λ vs spent. done _ (omega (arith, spent), spent.1))
    body-SpentSince (WireType.dict_entry key entry) r room = failed _ (λ q. cc)

  value-Spent :
      (f : ℕ) (ty : WireType) (d : ℕ) (r : Reader)
      → max_nested ≤ f + d
      → d < max_nested
      → r.values ≤ max_values
      → Ensures (Spent weight r.values) (decode_value buf f ty d r)
  unfolding decode_value
  value-Spent zero ty d r enough shallow room = absurd (omega arith)
  value-Spent (suc f) ty d r enough shallow room =
      guard (ltb max_depth d) WireError.depth _ (λ q. cc)
        (λ near. bind (count_value r) _ (count_value-Counted r) (λ r1 counted.
          bind (align buf (alignment ty) r1) _ (align-Same buf (alignment ty) r1) (λ r2 same.
            weaken (λ b spent. (omega (arith, counted, same, spent), spent.1))
              (body-SpentSince (decode_value buf f) d
                (λ ty' r'. value-Spent f ty' (d + 1) r' (omega arith) (ground arith)) ty r2
                (omega (arith, counted, same))))))

decode-Budget :
    (sig body : List ℕ) → Ensures (λ (vs : Values). weights vs ≤ max_values) (decode sig body)
unfolding decode
decode-Budget sig body =
    bind (parse_signature sig) _ (of_Ends _ (parse_signature-Ends sig)) (λ types parsed.
      bind
        (decode_fields body (decode_value body max_nested) types 0 (record { at = 0; values = 0 }))
        _
        (fields-Spent body (decode_value body max_nested) 0
          (λ ty r room. value-Spent body max_nested ty 0 r (omega arith) (omega arith) room) types
          (record { at = 0; values = 0 }) (omega arith))
        (λ b spent.
          guard (not (b.1.at == length body)) (WireError.trailing (length body - b.1.at)) (ok b.0)
            (λ q. cc) (λ whole. done b.0 (omega (arith, spent)))))

-- What is read is at most 2 ^ 20 values, and what fails does not fail for want of fuel.
abbrev pub IsBounded : Result WireError Values → Type 0
IsBounded (ok vs) = weights vs ≤ max_values
IsBounded (err e) = e ≢ WireError.out_of_fuel

-- Whatever the bytes are, reading them ends within the fuel of the model: a type within 65 types, a value
-- within 66 values, and the loop over the elements within the budget of values. A block that is read holds at
-- most 2 ^ 20 values, counted through all that holds others, whatever lengths are written in it.
pub decode-IsBounded : (sig body : List ℕ) → IsBounded (decode sig body)
decode-IsBounded sig body = bounded (decode sig body) (decode-Budget sig body)
  where
    bounded :
        (m : Result WireError Values)
        → Ensures (λ (ws : Values). weights ws ≤ max_values) m
        → IsBounded m
    bounded _ (done b p) = p
    bounded _ (failed e n) = n
