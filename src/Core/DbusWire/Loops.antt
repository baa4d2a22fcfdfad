-- ===== src/Core/DbusWire/Loops.antt =====
-- crates/bubbler-core/src/dbus_wire.rs: the turns of the loops over items and entries, where what they read was written.
use bubbler.Prelude.{
  ℕ, zero, suc, ◌+◌, ◌≡◌, ◌≤◌, ◌<◌, refl, sym, ap, ◌∙◌, true, false, some, List, [], ◌++◌, length,
  length-append, length-replicate, replicate, Result, ok, ltb, to_str, arith,
}
use bubbler.Core.DbusWire.Types.{
  WireError, Value, Values, Entries, WireType, max_values, padding_at,
}
use bubbler.Core.DbusWire.Encode.{encode_str}
use bubbler.Core.DbusWire.Decode.{
  Reader, count_value, align, decode_items, decode_entry, decode_entries, decode_value,
}
use bubbler.Core.DbusWire.Reads.{
  Stands, moved, same_reader, Stands-left, Stands-right, align-Stands, long_text-Stands,
}
use bubbler.Core.DbusWire.Pieces.{weight, weights, entries_weight}
use bubbler.Core.DbusWire.Containers.{Reads, ItemsRead, EntriesRead}

module _ (buf : List ℕ) where
  pub no_items-Reads :
      (g n : ℕ) (element : WireType) (d : ℕ) (r : Reader) (e : List ℕ)
      → ◌≡◌ {A = Result WireError (List ℕ)} (ok []) (ok e)
      → 0 < n
      → ItemsRead buf g n element Values.nil d r e
  unfolding decode_items weights
  no_items-Reads g zero element d r e h fuel = absurd (omega arith)
  no_items-Reads g (suc n) element d r e h fuel =
      let empty : [] ≡ e = cc in
      let ended : ltb r.at (r.at + length e) ≡ false = ground (arith, ap length empty) in
      rw ended (
        ap (λ (q : Reader). ok (Values.nil, q))
          (same_reader (omega (arith, ap length empty)) (omega arith)))

  pub item-Reads :
      (g n : ℕ) (element : WireType) (item : Value) (items : Values) (d : ℕ) (r : Reader)
      (e bytes more : List ℕ)
      → bytes ++ more ≡ e
      → 0 < length bytes
      → Reads buf g element item d r bytes
      → ItemsRead buf g n element items d
          (record { at = r.at + length bytes; values = r.values + weight item })
          more
      → ItemsRead buf g (suc n) element (Values.cons item items) d r e
  unfolding decode_items weights
  item-Reads g n element item items d r e bytes more whole some_bytes one rest =
      let size : length e ≡ length bytes + length more =
        ap length (sym whole) ∙ length-append bytes more in
      let enters : ltb r.at (r.at + length e) ≡ true = ground (arith, size) in
      let within : ltb (r.at + length e) (r.at + length bytes) ≡ false = ground (arith, size) in
      let end : r.at + length bytes + length more ≡ r.at + length e = omega (arith, size) in
      rw (enters, one, within, sym end, rest)
        (ap (λ (q : Reader). ok (Values.cons item items, q)) (same_reader refl (omega arith)))

  pub no_entries-Read :
      (g n : ℕ) (ty : WireType) (d : ℕ) (r : Reader) (e : List ℕ)
      → ◌≡◌ {A = Result WireError (List ℕ)} (ok []) (ok e)
      → 0 < n
      → EntriesRead buf g n ty Entries.end d r e
  unfolding decode_entries entries_weight
  no_entries-Read g zero ty d r e h fuel = absurd (omega arith)
  no_entries-Read g (suc n) ty d r e h fuel =
      let empty : [] ≡ e = cc in
      let ended : ltb r.at (r.at + length e) ≡ false = ground (arith, ap length empty) in
      rw ended (
        ap (λ (q : Reader). ok (Entries.end, q))
          (same_reader (omega (arith, ap length empty)) (omega arith)))

  -- The reader behind the key of an entry, and behind the entry.
  abbrev pub at_value : Reader → List ℕ → Reader
  at_value r text = record { at = r.at + padding_at r.at 8 + length text; values = r.values + 1 }

  abbrev pub behind_entry : Reader → List ℕ → Value → List ℕ → Reader
  behind_entry r text value bytes = record {
    at = r.at + padding_at r.at 8 + length text + length bytes;
    values = r.values + 1 + weight value;
  }

  pub entry-Reads :
      (g : ℕ) (ty : WireType) (key : List ℕ) (value : Value) (d : ℕ) (r : Reader)
      (text bytes more : List ℕ)
      → encode_str key ≡ ok text
      → to_str key ≡ some key
      → r.values + 1 ≤ max_values
      → Stands buf r.at (replicate (padding_at r.at 8) 0 ++ (text ++ more))
      → Reads buf g ty value d (at_value r text) bytes
      → decode_entry buf (decode_value buf g) ty d r
        ≡ ok (key, value, behind_entry r text value bytes)
  unfolding decode_entry count_value
  entry-Reads g ty key value d r text bytes more wrote utf8 budget stands one =
      let pad = padding_at r.at 8 in
      let counted : Reader = record r { values = r.values + 1 } in
      let room : ltb max_values (r.values + 1) ≡ false = ground arith in
      let stepped : align buf 8 counted ≡ ok (moved counted pad) =
        align-Stands buf 8 counted (Stands-left buf r.at (replicate pad 0) (text ++ more) stands) in
      let at_key : Stands buf (r.at + pad) (text ++ more) =
        Stands-right buf r.at (r.at + pad) (replicate pad 0) (text ++ more)
          (omega (arith, length-replicate {A = ℕ} pad 0)) stands in
      let named =
        long_text-Stands buf key text (moved counted pad) wrote utf8
          (Stands-left buf (r.at + pad) text more at_key) in
      rw (room, stepped, named, one) refl

  pub entries-Reads :
      (g n : ℕ) (ty : WireType) (key : List ℕ) (value : Value) (entries : Entries) (d : ℕ)
      (r : Reader) (e text bytes more : List ℕ)
      → replicate (padding_at r.at 8) 0 ++ (text ++ (bytes ++ more)) ≡ e
      → 0 < length bytes
      → decode_entry buf (decode_value buf g) ty d r
        ≡ ok (key, value, behind_entry r text value bytes)
      → EntriesRead buf g n ty entries d (behind_entry r text value bytes) more
      → EntriesRead buf g (suc n) ty (Entries.entry key value entries) d r e
  unfolding decode_entries entries_weight
  entries-Reads g n ty key value entries d r e text bytes more whole some_bytes one rest =
      let pad = padding_at r.at 8 in
      let size : length e ≡ pad + (length text + (length bytes + length more)) =
        ap length (sym whole)
        ∙ omega (
          arith,
          length-append (replicate pad 0) (text ++ (bytes ++ more)),
          length-replicate {A = ℕ} pad 0,
          length-append text (bytes ++ more),
          length-append bytes more,
        ) in
      let enters : ltb r.at (r.at + length e) ≡ true = ground (arith, size) in
      let within : ltb (r.at + length e) (r.at + pad + length text + length bytes) ≡ false =
        ground (arith, size) in
      let end : r.at + pad + length text + length bytes + length more ≡ r.at + length e =
        omega (arith, size) in
      rw (enters, one, within, sym end, rest)
        (ap (λ (q : Reader). ok (Entries.entry key value entries, q))
          (same_reader refl (omega arith)))
