-- ===== src/Core/DbusWire/Counted.antt =====
-- crates/bubbler-core/src/dbus_wire.rs: what the reads and the loops of the reader add to its count, on any
-- bytes, and that they end within their fuel.
use bubbler.Prelude.{
  ℕ, zero, suc, ◌+◌, ◌≡◌, ◌≢◌, ◌≤◌, ◌<◌, inl, inr, refl, ap, ◌∙◌, Bool, true, false, Option, none,
  some, List, slice, Result, ok, err, ◌>>=◌, ◌>>◌, ok_or, refuse_if, ltb, ◌==◌, not, to_str, arith,
  Bool-cases,
}
use bubbler.NetProxy.Allow.{all}
use bubbler.Core.DbusWire.Types.{WireError, Value, WireType, WireTypes, max_values, padding_at}
use bubbler.Core.DbusWire.Signature.Ends.{Ends}
use bubbler.Core.DbusWire.Encode.{contains_nul}
use bubbler.Core.DbusWire.Decode.{
  Reader, count_value, take_bytes, align, number, text, long_text, short_text, numeric, boolean,
  decode_fields, decode_items, decode_entry, decode_entries,
}
use bubbler.Core.DbusWire.Pieces.{weight, weights, entries_weight, weight-pos}

-- A result that is an error, but not for want of fuel, or is such as `P` says.
pub data Ensures {B : Type 0} (P : B → Type 0) : Result WireError B → Type 0 where
  done : (b : B) → P b → Ensures P (ok b)
  failed : (e : WireError) → e ≢ WireError.out_of_fuel → Ensures P (err e)

pub bind :
    {A B : Type 0} {P : A → Type 0} {Q : B → Type 0} (m : Result WireError A)
    (f : A → Result WireError B)
    → Ensures P m
    → ((a : A) → P a → Ensures Q (f a))
    → Ensures Q (m >>= f)
bind _ f (done a p) k = k a p
bind _ f (failed e n) k = failed e n

pub guard :
    {B : Type 0} {Q : B → Type 0} (t : Bool) (e : WireError) (r : Result WireError B)
    → e ≢ WireError.out_of_fuel
    → (t ≡ false → Ensures Q r)
    → Ensures Q (refuse_if t e >> r)
guard true e r n k = failed e n
guard false e r n k = k refl

pub optional :
    {A B : Type 0} {Q : B → Type 0} (o : Option A) (e : WireError) (f : A → Result WireError B)
    → e ≢ WireError.out_of_fuel
    → ((a : A) → Ensures Q (f a))
    → Ensures Q (ok_or o e >>= f)
optional none e f n k = failed e n
optional (some a) e f n k = k a

pub of_Ends : {B : Type 0} (m : Result WireError B) → Ends m → Ensures (λ b. Unit {0}) m
of_Ends (ok b) h = done b tt
of_Ends (err e) h = failed e (λ q. h (ap err q))

pub weaken :
    {B : Type 0} {P Q : B → Type 0} {m : Result WireError B}
    → ((b : B) → P b → Q b)
    → Ensures P m
    → Ensures Q m
weaken k (done b p) = done b (k b p)
weaken k (failed e n) = failed e n

-- The count of the reader stays, or grows by what a value weighs and stays within the budget.
abbrev pub Same : {A : Type 0} → Reader → A × Reader → Type 0
Same r b = b.1.values ≡ r.values

abbrev pub Spent : {A : Type 0} → (A → ℕ) → ℕ → A × Reader → Type 0
Spent w before b = (b.1.values ≡ before + w b.0) × (b.1.values ≤ max_values)

pub count_value-Counted :
    (r : Reader)
    → Ensures
        (λ (r' : Reader). (r'.values ≡ r.values + 1) × (r'.values ≤ max_values))
        (count_value r)
unfolding count_value
count_value-Counted r =
    guard (ltb max_values (r.values + 1)) WireError.too_many_values
      (ok (record r { values = r.values + 1 })) (λ q. cc) (λ room. done _ (refl, ground arith))

module _ (buf : List ℕ) where
  pub take_bytes-Same : (n : ℕ) (r : Reader) → Ensures (Same r) (take_bytes buf n r)
  unfolding take_bytes
  take_bytes-Same n r =
      optional (slice buf r.at (r.at + n)) WireError.truncated _ (λ q. cc) (λ bytes. done _ refl)

  pub align-Same :
      (a : ℕ) (r : Reader) → Ensures (λ (r' : Reader). r'.values ≡ r.values) (align buf a r)
  unfolding align
  align-Same a r =
      bind (take_bytes buf (padding_at r.at a) r) _ (take_bytes-Same (padding_at r.at a) r)
        (λ b same.
          guard (not (all (λ n. n == 0) b.0)) WireError.padding (ok b.1) (λ q. cc)
            (λ zeros. done b.1 same))

  pub number-Same : (n : ℕ) (r : Reader) → Ensures (Same r) (number buf n r)
  unfolding number
  number-Same n r = bind (take_bytes buf n r) _ (take_bytes-Same n r) (λ b same. done _ same)

  text-Same : (len : ℕ) (r : Reader) → Ensures (Same r) (text buf len r)
  unfolding text
  text-Same len r = bind (take_bytes buf len r) _ (take_bytes-Same len r) (λ b same.
      guard (contains_nul b.0) WireError.bad_string _ (λ q. cc)
        (λ no_nul. bind (number buf 1 b.1) _ (number-Same 1 b.1) (λ nul same'.
          guard (not (nul.0 == 0)) WireError.bad_string
            (ok_or (to_str b.0) WireError.bad_string >>= (λ s. ok (s, nul.1))) (λ q. cc)
            (λ is_nul.
              optional (to_str b.0) WireError.bad_string (λ s. ok (s, nul.1)) (λ q. cc)
                (λ s. done (s, nul.1) (same' ∙ same))))))

  pub long_text-Same : (r : Reader) → Ensures (Same r) (long_text buf r)
  unfolding long_text
  long_text-Same r =
      bind (number buf 4 r) _ (number-Same 4 r)
        (λ len same. weaken (λ b same'. same' ∙ same) (text-Same len.0 len.1))

  pub short_text-Same : (r : Reader) → Ensures (Same r) (short_text buf r)
  unfolding short_text
  short_text-Same r =
      bind (number buf 1 r) _ (number-Same 1 r)
        (λ len same. weaken (λ b same'. same' ∙ same) (text-Same len.0 len.1))

  -- A value that holds no other weighs one, and was counted when it was entered.
  abbrev pub Once : Reader → Value × Reader → Type 0
  Once r b = (b.1.values ≡ r.values) × (weight b.0 ≡ 1)

  pub numeric-Once :
      (n : ℕ) (make : ℕ → Value) (r : Reader)
      → ((v : ℕ) → weight (make v) ≡ 1)
      → Ensures (Once r) (numeric buf n make r)
  unfolding numeric
  numeric-Once n make r one =
      bind (number buf n r) _ (number-Same n r) (λ v same. done _ (same, one v.0))

  pub boolean-Once : (r : Reader) → Ensures (Once r) (number buf 4 r >>= boolean buf)
  unfolding boolean weight
  boolean-Once r = bind (number buf 4 r) _ (number-Same 4 r) (λ v same.
      elim (Bool-cases (v.0 == 0)) [
        | inl zero_read ↦ rw zero_read (done _ (same, refl))
        | inr other ↦ elim (Bool-cases (v.0 == 1)) [
          | inl one_read ↦ rw (other, one_read) (done _ (same, refl))
          | inr neither ↦ rw (other, neither) (failed _ (λ q. cc))
        ]
      ])

  module _ (one : WireType → ℕ → Reader → Result WireError (Value × Reader)) (d : ℕ)
      (reads : (ty : WireType) (r : Reader)
        → r.values ≤ max_values
        → Ensures (Spent weight r.values) (one ty d r)) where
    pub fields-Spent :
        (fields : WireTypes) (r : Reader)
        → r.values ≤ max_values
        → Ensures (Spent weights r.values) (decode_fields buf one fields d r)
    unfolding decode_fields weights
    fields-Spent WireTypes.nil r room = done _ (omega arith, room)
    fields-Spent (WireTypes.cons field fields) r room =
        bind (one field d r) _ (reads field r room) (λ v spent.
          bind (decode_fields buf one fields d v.1) _ (fields-Spent fields v.1 spent.1)
            (λ vs spent'. done _ (omega (arith, spent, spent'), spent'.1)))

    pub items-Spent :
        (n : ℕ) (element : WireType) (end : ℕ) (r : Reader)
        → max_values < r.values + n
        → r.values ≤ max_values
        → Ensures (Spent weights r.values) (decode_items buf one n element d end r)
    unfolding decode_items weights
    items-Spent zero element end r fuel room = absurd (omega arith)
    items-Spent (suc n) element end r fuel room = elim (Bool-cases (ltb r.at end)) [
      | inr over ↦ rw over (done _ (omega arith, room))
      | inl more ↦ rw more (
          bind (one element d r) _ (reads element r room) (λ v spent.
            guard (ltb end v.1.at) WireError.truncated _ (λ q. cc)
              (λ within.
                bind (decode_items buf one n element d end v.1) _
                  (items-Spent n element end v.1 (omega (arith, spent, weight-pos v.0)) spent.1)
                  (λ vs spent'. done _ (omega (arith, spent, spent'), spent'.1)))))
    ]

    -- An entry counts once more than its value.
    entry-Spent :
        (ty : WireType) (r : Reader)
        → Ensures
            (λ (b : List ℕ × Value × Reader).
              (b.2.values ≡ r.values + 1 + weight b.1) × (b.2.values ≤ max_values))
            (decode_entry buf one ty d r)
    unfolding decode_entry
    entry-Spent ty r = bind (count_value r) _ (count_value-Counted r) (λ r1 counted.
        bind (align buf 8 r1) _ (align-Same 8 r1) (λ r2 same2.
          bind (long_text buf r2) _ (long_text-Same r2) (λ key same3.
            bind (one ty d key.1) _ (reads ty key.1 (omega (arith, counted, same2, same3)))
              (λ v spent. done _ (omega (arith, counted, same2, same3, spent), spent.1)))))

    pub entries-Spent :
        (n : ℕ) (ty : WireType) (end : ℕ) (r : Reader)
        → max_values < r.values + n
        → r.values ≤ max_values
        → Ensures (Spent entries_weight r.values) (decode_entries buf one n ty d end r)
    unfolding decode_entries entries_weight
    entries-Spent zero ty end r fuel room = absurd (omega arith)
    entries-Spent (suc n) ty end r fuel room = elim (Bool-cases (ltb r.at end)) [
      | inr over ↦ rw over (done _ (omega arith, room))
      | inl more ↦ rw more (
          bind (decode_entry buf one ty d r) _ (entry-Spent ty r) (λ v spent.
            guard (ltb end v.2.at) WireError.truncated _ (λ q. cc)
              (λ within.
                bind (decode_entries buf one n ty d end v.2) _
                  (entries-Spent n ty end v.2 (omega (arith, spent)) spent.1)
                  (λ vs spent'. done _ (omega (arith, spent, spent'), spent'.1)))))
    ]
