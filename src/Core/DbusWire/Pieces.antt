-- ===== src/Core/DbusWire/Pieces.antt =====
-- crates/bubbler-core/src/dbus_wire.rs: the parts of a value that the writer wrote, read back.
use bubbler.Prelude.{
  ℕ, zero, suc, ◌+◌, ◌%◌, ◌^◌, ◌≡◌, ◌≤◌, ◌<◌, refl, sym, ap, ◌∙◌, Bool, true, false, some, List, [],
  ◌∷◌, ◌++◌, length, length-append, length-replicate, replicate, Result, ok, ◌>>=◌, >>=-eq-ok,
  bind_refuse_if_inv, ltb, leb, ◌==◌, not, to_str, arith,
}
use mathlib.Core.Path.{subst}
use bubbler.Core.DbusWire.Types.{
  WireError, Value, Values, Entries, WireType, WireTypes, alignment, max_array, max_values,
  max_depth, padding_at,
}
use bubbler.Core.DbusWire.Signature.{parse_signature}
use bubbler.Core.DbusWire.Signature.Printed.{parse_signature-prints, parse_signature-IsLetter}
use bubbler.Core.DbusWire.Encode.{
  le_bytes, valid_object_path, encode_signature, mismatch, bit_of, encode_basic, elements_at,
  encode_elements, single,
}
use bubbler.Core.DbusWire.Decode.{
  Reader, count_value, align, number, numeric, boolean, elements_of, decode_elements, decode_array,
  decode_body, max_nested, decode_value,
}
use bubbler.Core.DbusWire.Written.{encode_elements_inv}
use bubbler.Core.DbusWire.Reads.{
  Stands, moved, length-le_bytes, Stands-left, Stands-right, Stands-bound, number-Stands,
  align-Stands, long_text-Stands, short_text-Stands,
}

-- What Rust's types promise: numbers within their width, text that is UTF-8.
abbrev mutual
  pub IsValue : Value → Type 0
  IsValue (Value.byte v) = v < 2 ^ 8
  IsValue (Value.int16 v) = v < 2 ^ 16
  IsValue (Value.uint16 v) = v < 2 ^ 16
  IsValue (Value.int32 v) = v < 2 ^ 32
  IsValue (Value.uint32 v) = v < 2 ^ 32
  IsValue (Value.int64 v) = v < 2 ^ 64
  IsValue (Value.uint64 v) = v < 2 ^ 64
  IsValue (Value.double v) = v < 2 ^ 64
  IsValue (Value.fd v) = v < 2 ^ 32
  IsValue (Value.str v) = to_str v ≡ some v
  IsValue (Value.object_path v) = to_str v ≡ some v
  IsValue (Value.array items) = AreValues items
  IsValue (Value.struct given) = AreValues given
  IsValue (Value.dict entries) = AreEntries entries
  IsValue (Value.variant inner) = IsValue inner
  IsValue v = Unit

  pub AreValues : Values → Type 0
  AreValues Values.nil = Unit
  AreValues (Values.cons value values) = IsValue value × AreValues values

  pub AreEntries : Entries → Type 0
  AreEntries Entries.end = Unit
  AreEntries (Entries.entry key value entries) =
      (to_str key ≡ some key) × IsValue value × AreEntries entries

-- What a value counts for the reader: itself and all that it holds, and a dict also its entries.
unfoldable mutual
  pub weight : Value → ℕ
  weight (Value.array items) = 1 + weights items
  weight (Value.struct given) = 1 + weights given
  weight (Value.dict entries) = 1 + entries_weight entries
  weight (Value.variant inner) = 1 + weight inner
  weight v = 1

  pub weights : Values → ℕ
  weights Values.nil = 0
  weights (Values.cons value values) = weight value + weights values

  pub entries_weight : Entries → ℕ
  entries_weight Entries.end = 0
  entries_weight (Entries.entry key value entries) = 1 + weight value + entries_weight entries

pub weight-pos : (v : Value) → 0 < weight v
unfolding weight
weight-pos (Value.byte v) = omega arith
weight-pos v = omega arith

pub single_inv :
    (types : WireTypes) (ty : WireType)
    → single types ≡ some ty
    → types ≡ WireTypes.cons ty WireTypes.nil
unfolding single
single_inv WireTypes.nil ty h = cc
single_inv (WireTypes.cons t WireTypes.nil) ty h = cc
single_inv (WireTypes.cons t (WireTypes.cons t' types)) ty h = cc

module _ (buf : List ℕ) where
  numeric-Reads :
      (n v : ℕ) (make : ℕ → Value) (r : Reader) (e : List ℕ)
      → v < 256 ^ n
      → ◌≡◌ {A = Result WireError (List ℕ)} (ok (le_bytes n v)) (ok e)
      → Stands buf r.at e
      → numeric buf n make r ≡ ok (make v, moved r (length e))
  unfolding numeric
  numeric-Reads n v make r e small h s =
      let same : le_bytes n v ≡ e = cc in
      let size : n ≡ length e = sym (length-le_bytes n v) ∙ ap length same in
      rw (number-Stands buf n v r small (subst (Stands buf r.at) (sym same) s))
        (ap (λ k. ok (make v, moved r k)) size)

  boolean-Reads :
      (v : Bool) (r : Reader) (e : List ℕ)
      → ◌≡◌ {A = Result WireError (List ℕ)} (ok (le_bytes 4 (bit_of v))) (ok e)
      → Stands buf r.at e
      → (number buf 4 r >>= boolean buf) ≡ ok (Value.bool v, moved r (length e))
  unfolding boolean bit_of
  boolean-Reads v r e h s =
      let same : le_bytes 4 (bit_of v) ≡ e = cc in
      let small : bit_of v < 256 ^ 4 = elim v as (λ b. bit_of b < 256 ^ 4) [
        | true ↦ omega arith
        | false ↦ omega arith
      ] in
      let size : 4 ≡ length e = sym (length-le_bytes 4 (bit_of v)) ∙ ap length same in
      rw (number-Stands buf 4 (bit_of v) r small (subst (Stands buf r.at) (sym same) s))
        (elim v
          as (λ b. boolean buf (bit_of b, moved r 4) ≡ ok (Value.bool b, moved r (length e))) [
            | true ↦ ap (λ k. ok (Value.bool true, moved r k)) size
            | false ↦ ap (λ k. ok (Value.bool false, moved r k)) size
          ])

  -- A value that holds no other.
  pub basic-Reads :
      (one : WireType → ℕ → Reader → Result WireError (Value × Reader)) (ty : WireType) (v : Value)
      (d : ℕ) (r : Reader) (e : List ℕ)
      → encode_basic ty v ≡ ok e
      → IsValue v
      → Stands buf r.at e
      → decode_body buf one ty d r ≡ ok (v, moved r (length e))
  unfolding encode_basic decode_body mismatch
  basic-Reads one WireType.byte (Value.byte v) d r e h n s =
      let small : v % 256 ≡ v = omega arith in
      let same : ◌≡◌ {A = Result WireError (List ℕ)} (ok (le_bytes 1 v)) (ok e) =
        unfold le_bytes in (ap (λ b. ok (b ∷ [])) small ∙ h) in
      numeric-Reads 1 v Value.byte r e n same s
  basic-Reads one WireType.bool (Value.bool v) d r e h n s = boolean-Reads v r e h s
  basic-Reads one WireType.int16 (Value.int16 v) d r e h n s =
      numeric-Reads 2 v Value.int16 r e n h s
  basic-Reads one WireType.uint16 (Value.uint16 v) d r e h n s =
      numeric-Reads 2 v Value.uint16 r e n h s
  basic-Reads one WireType.int32 (Value.int32 v) d r e h n s =
      numeric-Reads 4 v Value.int32 r e n h s
  basic-Reads one WireType.uint32 (Value.uint32 v) d r e h n s =
      numeric-Reads 4 v Value.uint32 r e n h s
  basic-Reads one WireType.int64 (Value.int64 v) d r e h n s =
      numeric-Reads 8 v Value.int64 r e n h s
  basic-Reads one WireType.uint64 (Value.uint64 v) d r e h n s =
      numeric-Reads 8 v Value.uint64 r e n h s
  basic-Reads one WireType.double (Value.double v) d r e h n s =
      numeric-Reads 8 v Value.double r e n h s
  basic-Reads one WireType.fd (Value.fd v) d r e h n s = numeric-Reads 4 v Value.fd r e n h s
  basic-Reads one WireType.str (Value.str v) d r e h n s = rw (long_text-Stands buf v e r h n s)
  basic-Reads one WireType.object_path (Value.object_path v) d r e h n s =
      let (valid, h1) = bind_refuse_if_inv (not (valid_object_path v)) _ _ h in
      rw (long_text-Stands buf v e r h1 n s, valid)
  basic-Reads one WireType.signature (Value.signature v) d r e h n s =
      let (types, parsed, h1) = >>=-eq-ok (parse_signature v) _ h in
      let same : encode_signature v ≡ e = cc in
      let short = (parse_signature-prints v types parsed).2 in
      rw
        (
          short_text-Stands buf v r (parse_signature-IsLetter v types parsed) short
              (subst (Stands buf r.at) (sym same) s),
          parsed,
        )
        (ap (λ t. ok (Value.signature v, moved r (length t))) same)
  basic-Reads one ty v d r e h n s = cc

  -- Entering a value: the test of the depth, the count and the padding.
  pub enter :
      (f : ℕ) (ty : WireType) (d : ℕ) (r : Reader) (e bytes : List ℕ) (v : Value) (w : ℕ)
      → max_nested ≤ f + d
      → ltb max_depth d ≡ false
      → r.values + 1 ≤ max_values
      → replicate (padding_at r.at (alignment ty)) 0 ++ bytes ≡ e
      → Stands buf r.at e
      → ((g : ℕ) (r' : Reader)
          → max_nested ≤ g + (d + 1)
          → r'.at ≡ r.at + padding_at r.at (alignment ty)
          → r'.values ≡ r.values + 1
          → Stands buf r'.at bytes
          → decode_body buf (decode_value buf g) ty d r'
            ≡ ok (v, record { at = r'.at + length bytes; values = r.values + w }))
      → decode_value buf f ty d r ≡ ok (v, record { at = r.at + length e; values = r.values + w })
  unfolding decode_value count_value
  enter zero ty d r e bytes v w enough room budget same stands body = absurd (ground arith)
  enter (suc f) ty d r e bytes v w enough room budget same stands body =
      let pad = padding_at r.at (alignment ty) in
      let there = subst (Stands buf r.at) (sym same) stands in
      let counted : Reader = record r { values = r.values + 1 } in
      let more : ltb max_values (r.values + 1) ≡ false = ground arith in
      let stepped : align buf (alignment ty) counted ≡ ok (moved counted pad) =
        align-Stands buf (alignment ty) counted
          (Stands-left buf r.at (replicate pad 0) bytes there) in
      let inside = body f (moved counted pad) (omega arith) refl refl (
        Stands-right buf r.at (r.at + pad) (replicate pad 0) bytes
          (omega (arith, length-replicate {A = ℕ} pad 0)) there) in
      let size : length e ≡ pad + length bytes =
        ap length (sym same)
        ∙ omega (arith, length-append (replicate pad 0) bytes, length-replicate {A = ℕ} pad 0) in
      rw (room, more, stepped, inside)
        (ap (λ n. ok (v, record { at = n; values = r.values + w })) (omega (arith, size)))

  -- An array, whatever its elements are.
  pub array-Reads :
      (one : WireType → ℕ → Reader → Result WireError (Value × Reader)) (element : WireType) (d : ℕ)
      (r : Reader) (bytes e : List ℕ) (v : Value) (w : ℕ)
      → leb max_depth d ≡ false
      → encode_elements r.at element bytes ≡ ok e
      → Stands buf r.at e
      → ((r' : Reader)
          → r'.at ≡ elements_at r.at element
          → r'.values ≡ r.values
          → Stands buf r'.at bytes
          → decode_elements buf one
              (elements_of element)
              element
              d
              (length bytes)
              (r'.at + length bytes)
              r'
            ≡ ok (v, record { at = r'.at + length bytes; values = w }))
      → decode_array buf one element d r ≡ ok (v, record { at = r.at + length e; values = w })
  unfolding decode_array elements_at
  array-Reads one element d r bytes e v w room h stands inside =
      let (short, same) = encode_elements_inv r.at element bytes e h in
      let pad = padding_at (r.at + 4) (alignment element) in
      let size4 = length-le_bytes 4 (length bytes) in
      let there = subst (Stands buf r.at) (sym same) stands in
      let len : number buf 4 r ≡ ok (length bytes, moved r 4) =
        number-Stands buf 4 (length bytes) r (omega arith)
          (Stands-left buf r.at (le_bytes 4 (length bytes)) _ there) in
      let padded : Stands buf (r.at + 4) (replicate pad 0 ++ bytes) =
        Stands-right buf r.at (r.at + 4) (le_bytes 4 (length bytes)) _ (omega (arith, size4))
          there in
      let stepped : align buf (alignment element) (moved r 4) ≡ ok (moved (moved r 4) pad) =
        align-Stands buf (alignment element) (moved r 4)
          (Stands-left buf (r.at + 4) (replicate pad 0) bytes padded) in
      let content : Stands buf (r.at + 4 + pad) bytes =
        Stands-right buf (r.at + 4) (r.at + 4 + pad) (replicate pad 0) bytes
          (omega (arith, length-replicate {A = ℕ} pad 0)) padded in
      let small : ltb max_array (length bytes) ≡ false = ground arith in
      let fits : ltb (length buf) (r.at + 4 + pad + length bytes) ≡ false =
        ground (arith, Stands-bound buf (r.at + 4 + pad) bytes content) in
      let ended : not (r.at + 4 + pad + length bytes == r.at + 4 + pad + length bytes) ≡ false =
        ground arith in
      let size : length e ≡ 4 + (pad + length bytes) =
        ap length (sym same)
        ∙ omega (
          arith,
          size4,
          length-append (le_bytes 4 (length bytes)) (replicate pad 0 ++ bytes),
          length-append (replicate pad 0) bytes,
          length-replicate {A = ℕ} pad 0,
        ) in
      rw (room, len, small, stepped, fits, inside (moved (moved r 4) pad) refl refl content, ended)
        (ap (λ n. ok (v, record { at = n; values = w })) (omega (arith, size)))
