-- ===== src/Core/DbusWire/Signature/Ends.antt =====
-- crates/bubbler-core/src/dbus_wire.rs: the reader of signatures always comes to an end within its fuel.
use bubbler.Prelude.{
  ℕ, zero, suc, ◌+◌, ◌≡◌, ◌≢◌, ◌≤◌, ◌<◌, inl, inr, refl, ap, Bool, true, false, List, [], ◌∷◌,
  Result, ok, err, ◌>>=◌, ◌>>◌, refuse_if, ltb, leb, ◌==◌, not, length, length-append, arith,
  Bool-cases,
}
use bubbler.Core.DbusWire.Types.{
  WireError, WireType, WireTypes, is_basic, count_types, max_signature, max_container_depth,
}
use bubbler.Core.DbusWire.Signature.{
  Opening, opening, bad, expect, entry_behind, array_behind, fields_behind, type_behind, parse_type,
  max_nesting, parse_types, named, parse_signature,
}
use bubbler.Core.DbusWire.Signature.Printed.{print, parse_type-IsFaithful, IsFaithful}

-- The fuel is not used up.
abbrev pub Ends {ℓ} : {A : Type ℓ} → Result WireError A → Type ℓ
Ends r = r ≢ err WireError.out_of_fuel

pub Ends->>= {ℓ κ} :
    {A : Type ℓ} {B : Type κ} (r : Result WireError A) (f : A → Result WireError B)
    → Ends r
    → ((a : A) → r ≡ ok a → Ends (f a))
    → Ends (r >>= f)
Ends->>= (ok a) f h k = k a refl
Ends->>= (err e) f h k = λ n. h (cc)

-- An error that is another.
pub Ends-refuse_if {κ} :
    {B : Type κ} (t : Bool) (e : WireError) (r : Result WireError B)
    → e ≢ WireError.out_of_fuel
    → (t ≡ false → Ends r)
    → Ends (refuse_if t e >> r)
Ends-refuse_if true e r n h = λ q. n (cc)
Ends-refuse_if false e r n h = h refl

bad-ne : bad ≢ WireError.out_of_fuel
bad-ne e = cc

print-pos : (ty : WireType) → 0 < length (print ty)
unfolding print
print-pos WireType.byte = omega arith
print-pos ty = omega arith

expect-Ends : (c : ℕ) (bytes : List ℕ) → Ends (expect c bytes)
unfolding expect
expect-Ends c [] h = cc
expect-Ends c (b ∷ bytes) h = ground arith

module _ (one : List ℕ → Result WireError (WireType × List ℕ))
    (ends : (bytes : List ℕ) → Ends (one bytes)) where
  entry_behind-Ends : (key : WireType × List ℕ) → Ends (entry_behind one key)
  unfolding entry_behind
  entry_behind-Ends (key, bytes) = Ends-refuse_if (not (is_basic key)) bad _ bad-ne (λ e.
      Ends->>= (one bytes) _ (ends bytes)
        (λ value e1. Ends->>= (expect b'}' value.1) _ (expect-Ends b'}' value.1) (λ left e2 h. cc)))

  fields_behind-Ends :
      IsFaithful one
      → (fuel : ℕ) (bytes : List ℕ) → length bytes < fuel
      → Ends (fields_behind one fuel bytes)
  unfolding fields_behind
  fields_behind-Ends faithful zero bytes enough = absurd (omega arith)
  fields_behind-Ends faithful (suc fuel) [] enough = λ h. cc
  fields_behind-Ends faithful (suc fuel) (b ∷ bytes) enough = elim (Bool-cases (b == b')')) [
    | inl closes ↦ rw closes (λ h. cc)
    | inr more ↦ rw more (
        Ends->>= (one (b ∷ bytes)) _ (ends (b ∷ bytes)) (λ field e.
          Ends->>= (fields_behind one fuel field.1) _
            (fields_behind-Ends faithful fuel field.1 (
              omega (
                arith,
                ap length (faithful (b ∷ bytes) field.0 field.1 e).0,
                length-append (print field.0) field.1,
                print-pos field.0,
              )))
            (λ fields e' h. cc)))
  ]

array_behind-Ends :
    (one inner : List ℕ → Result WireError (WireType × List ℕ)) (structs : ℕ) (bytes : List ℕ)
    → ((left : List ℕ) → Ends (one left))
    → (structs < max_container_depth → (left : List ℕ) → Ends (inner left))
    → Ends (array_behind one inner structs bytes)
unfolding array_behind
array_behind-Ends one inner structs [] h k = Ends->>= (one []) _ (h []) (λ element e q. cc)
array_behind-Ends one inner structs (b ∷ bytes) h k = elim (Bool-cases (b == b'{')) [
  | inl opens ↦ rw opens (
      Ends-refuse_if (leb max_container_depth structs) bad _ bad-ne (λ room.
        Ends->>= (inner bytes) _ (k (ground arith) bytes)
          (λ key e. entry_behind-Ends inner (k (ground arith)) key)))
  | inr other ↦ rw other (Ends->>= (one (b ∷ bytes)) _ (h (b ∷ bytes)) (λ element e q. cc))
]

type_behind-Ends :
    (one : ℕ → ℕ → List ℕ → Result WireError (WireType × List ℕ)) (o : Opening) (arrays structs : ℕ)
    (bytes : List ℕ)
    → ((a s : ℕ) → IsFaithful (one a s))
    → ((a s : ℕ) (left : List ℕ)
        → a ≤ max_container_depth
        → s ≤ max_container_depth
        → arrays + structs < a + s
        → Ends (one a s left))
    → arrays ≤ max_container_depth
    → structs ≤ max_container_depth
    → Ends (type_behind one o arrays structs bytes)
unfolding type_behind
type_behind-Ends one (Opening.basic ty) arrays structs bytes faithful ends a s = λ h. cc
type_behind-Ends one Opening.opens_array arrays structs bytes faithful ends a s =
    Ends-refuse_if (leb max_container_depth arrays) bad _ bad-ne (λ room.
      array_behind-Ends (one (arrays + 1) structs) (one (arrays + 1) (structs + 1)) structs bytes
        (λ left. ends (arrays + 1) structs left (ground arith) s (omega arith))
        (λ deeper left.
          ends (arrays + 1) (structs + 1) left (ground arith) (omega arith) (omega arith)))
type_behind-Ends one Opening.opens_struct arrays structs bytes faithful ends a s =
    Ends-refuse_if (leb max_container_depth structs) bad _ bad-ne (λ room.
      Ends->>= (fields_behind (one arrays (structs + 1)) (length bytes + 1) bytes) _
        (fields_behind-Ends (one arrays (structs + 1))
          (λ left. ends arrays (structs + 1) left a (ground arith) (omega arith))
          (faithful arrays (structs + 1)) (length bytes + 1) bytes (omega arith))
        (λ fields e.
          Ends-refuse_if (count_types fields.0 == 0) bad (ok (WireType.struct fields.0, fields.1))
            bad-ne (λ q h. cc)))
type_behind-Ends one Opening.unknown arrays structs bytes faithful ends a s = λ h. cc

parse_type-Ends :
    (fuel arrays structs : ℕ) (bytes : List ℕ)
    → max_nesting ≤ fuel + arrays + structs
    → arrays ≤ max_container_depth
    → structs ≤ max_container_depth
    → Ends (parse_type fuel arrays structs bytes)
unfolding parse_type
parse_type-Ends zero arrays structs bytes enough a s = absurd (omega arith)
parse_type-Ends (suc fuel) arrays structs [] enough a s = λ h. cc
parse_type-Ends (suc fuel) arrays structs (c ∷ bytes) enough a s =
    type_behind-Ends (parse_type fuel) (opening c) arrays structs bytes (parse_type-IsFaithful fuel)
      (λ a' s' left a'_fits s'_fits deeper.
        parse_type-Ends fuel a' s' left (omega arith) a'_fits s'_fits)
      a s

parse_types-Ends : (fuel : ℕ) (bytes : List ℕ) → length bytes ≤ fuel → Ends (parse_types fuel bytes)
unfolding parse_types
parse_types-Ends zero [] enough = λ h. cc
parse_types-Ends (suc fuel) [] enough = λ h. cc
parse_types-Ends zero (b ∷ bytes) enough = absurd (omega arith)
parse_types-Ends (suc fuel) (b ∷ bytes) enough =
    Ends->>= (parse_type max_nesting 0 0 (b ∷ bytes)) _
      (parse_type-Ends max_nesting 0 0 (b ∷ bytes) (omega arith) (omega arith) (omega arith))
      (λ ty e.
        Ends->>= (parse_types fuel ty.1) _
          (parse_types-Ends fuel ty.1 (
            omega (
              arith,
              ap length (parse_type-IsFaithful max_nesting 0 0 (b ∷ bytes) ty.0 ty.1 e).0,
              length-append (print ty.0) ty.1,
              print-pos ty.0,
            )))
          (λ types e' h. cc))

named-Ends : (sig : List ℕ) (r : Result WireError WireTypes) → Ends r → Ends (named sig r)
unfolding named
named-Ends sig (ok types) n h = cc
named-Ends sig (err e) n h = n (ground arith)

pub parse_signature-Ends : (sig : List ℕ) → Ends (parse_signature sig)
unfolding parse_signature
parse_signature-Ends sig =
    Ends-refuse_if (ltb max_signature (length sig)) (WireError.bad_signature sig) _ (λ e. cc)
      (λ short.
        named-Ends sig (parse_types (length sig) sig)
          (parse_types-Ends (length sig) sig (omega arith)))
