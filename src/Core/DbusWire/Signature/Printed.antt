-- ===== src/Core/DbusWire/Signature/Printed.antt =====
-- crates/bubbler-core/src/dbus_wire.rs: a signature that is read spells the very types that it is read as.
use bubbler.Prelude.{
  ℕ, zero, suc, ◌+◌, ◌≡◌, ◌≤◌, ◌<◌, inl, inr, refl, sym, ap, ◌∙◌, List, [], ◌∷◌, ◌++◌, append_assoc,
  Result, ok, err, >>=-eq-ok, bind_refuse_if_inv, subst_ok, ltb, leb, ◌==◌, ==_iff, not, length,
  if◌then◌else◌, All, All-append, arith, Bool-cases,
}
use mathlib.Core.Path.{subst}
use bubbler.Core.DbusWire.Types.{
  WireError, WireType, WireTypes, is_basic, code, count_types, max_signature, max_container_depth,
}
use bubbler.Core.DbusWire.Signature.{
  Opening, opening, expect, entry_behind, array_behind, fields_behind, type_behind, parse_type,
  max_nesting, parse_types, named, parse_signature,
}

-- A type as a signature spells it, and types one behind the other.
unfoldable mutual
  pub print : WireType → List ℕ
  print (WireType.array element) = b'a' ∷ print element
  print (WireType.struct fields) = b'(' ∷ (prints fields ++ (b')' ∷ []))
  print (WireType.dict_entry key value) = b'{' ∷ (print key ++ (print value ++ (b'}' ∷ [])))
  print ty = code ty ∷ []

  pub prints : WireTypes → List ℕ
  prints WireTypes.nil = []
  prints (WireTypes.cons ty types) = print ty ++ prints types

-- No struct in it is empty.
abbrev mutual
  pub IsSound : WireType → Type 0
  IsSound (WireType.array element) = IsSound element
  IsSound (WireType.struct fields) = (0 < count_types fields) × AreSound fields
  IsSound (WireType.dict_entry key value) = IsSound key × IsSound value
  IsSound ty = Unit

  pub AreSound : WireTypes → Type 0
  AreSound WireTypes.nil = Unit
  AreSound (WireTypes.cons ty types) = IsSound ty × AreSound types

-- A function that reads a type takes away exactly the bytes that spell it.
abbrev pub IsFaithful : (List ℕ → Result WireError (WireType × List ℕ)) → Type 0
IsFaithful one =
    (bytes : List ℕ) (ty : WireType) (left : List ℕ)
    → one bytes ≡ ok (ty, left)
    → (bytes ≡ print ty ++ left) × IsSound ty

-- What the first byte of a type says of it.
abbrev Opens : Opening → ℕ → Type 0
Opens (Opening.basic ty) c = (c ∷ [] ≡ print ty) × IsSound ty
Opens Opening.opens_array c = c ≡ b'a'
Opens Opening.opens_struct c = c ≡ b'('
Opens Opening.unknown c = Unit

pick :
    (c k : ℕ) (x y : Opening) → (c ≡ k → Opens x c) → Opens y c → Opens (if c == k then x else y) c
pick c k x y h other = elim (Bool-cases (c == k)) [
  | inl e ↦ rw e (h ((==_iff c k).0 e))
  | inr e ↦ rw e other
]

opening-Opens : (c : ℕ) → Opens (opening c) c
unfolding opening print code
opening-Opens c =
    (pick c b'y' _ _ (λ e. (ap (λ n. n ∷ []) e, tt))
      (pick c b'b' _ _ (λ e. (ap (λ n. n ∷ []) e, tt))
        (pick c b'n' _ _ (λ e. (ap (λ n. n ∷ []) e, tt))
          (pick c b'q' _ _ (λ e. (ap (λ n. n ∷ []) e, tt))
            (pick c b'i' _ _ (λ e. (ap (λ n. n ∷ []) e, tt))
              (pick c b'u' _ _ (λ e. (ap (λ n. n ∷ []) e, tt))
                (pick c b'x' _ _ (λ e. (ap (λ n. n ∷ []) e, tt))
                  (pick c b't' _ _ (λ e. (ap (λ n. n ∷ []) e, tt))
                    (pick c b'd' _ _ (λ e. (ap (λ n. n ∷ []) e, tt))
                      (pick c b's' _ _ (λ e. (ap (λ n. n ∷ []) e, tt))
                        (pick c b'o' _ _ (λ e. (ap (λ n. n ∷ []) e, tt))
                          (pick c b'g' _ _ (λ e. (ap (λ n. n ∷ []) e, tt))
                            (pick c b'h' _ _ (λ e. (ap (λ n. n ∷ []) e, tt))
                              (pick c b'v' _ _ (λ e. (ap (λ n. n ∷ []) e, tt))
                                (pick c b'a' _ _ (λ e. e)
                                  (pick c b'(' _ _ (λ e. e) tt))))))))))))))))

expect_inv : (c : ℕ) (bytes left : List ℕ) → expect c bytes ≡ ok left → bytes ≡ c ∷ left
unfolding expect
expect_inv c [] left h = cc
expect_inv c (b ∷ bytes) left h = ground arith

module _ (one : List ℕ → Result WireError (WireType × List ℕ)) (faithful : IsFaithful one) where
  entry_behind_inv :
      (key : WireType) (bytes : List ℕ) (ty : WireType) (left : List ℕ)
      → entry_behind one (key, bytes) ≡ ok (ty, left)
      → IsSound key
      → (b'a' ∷ b'{' ∷ (print key ++ bytes) ≡ print ty ++ left) × IsSound ty
  unfolding entry_behind print
  entry_behind_inv key bytes ty left h sound =
      let (basic, h1) = bind_refuse_if_inv (not (is_basic key)) _ _ h in
      let ((value, behind), e2, h2) = >>=-eq-ok (one bytes) _ h1 in
      let (rest, e3, h3) = >>=-eq-ok (expect b'}' behind) _ h2 in
      let (read, value_sound) = faithful bytes value behind e2 in
      let inside : bytes ≡ print value ++ (b'}' ∷ rest) =
        read ∙ ap (λ t. print value ++ t) (expect_inv b'}' behind rest e3) in
      subst_ok (λ t l. (b'a' ∷ b'{' ∷ (print key ++ bytes) ≡ print t ++ l) × IsSound t) h3
        (ap (λ t. b'a' ∷ b'{' ∷ (print key ++ t)) inside ∙ simp append_assoc, (sound, value_sound))

  fields_behind_inv :
      (fuel : ℕ) (bytes : List ℕ) (fields : WireTypes) (left : List ℕ)
      → fields_behind one fuel bytes ≡ ok (fields, left)
      → (bytes ≡ prints fields ++ (b')' ∷ left)) × AreSound fields
  unfolding fields_behind prints
  fields_behind_inv zero bytes fields left h = cc
  fields_behind_inv (suc fuel) [] fields left h = cc
  fields_behind_inv (suc fuel) (b ∷ bytes) fields left h = elim (Bool-cases (b == b')')) [
    | inl closes ↦
        let done : ◌≡◌ {A = Result WireError (WireTypes × List ℕ)} (ok (WireTypes.nil, bytes))
            (ok (fields, left)) =
          rw closes at h in
        subst_ok (λ t l. (b ∷ bytes ≡ prints t ++ (b')' ∷ l)) × AreSound t) done
          (ap (λ n. n ∷ bytes) ((==_iff b b')').0 closes), tt)
    | inr more ↦
        let ((field, rest), e1, h1) = >>=-eq-ok (one (b ∷ bytes)) _ (rw more at h) in
        let ((others, behind), e2, h2) = >>=-eq-ok (fields_behind one fuel rest) _ h1 in
        let (read, sound) = faithful (b ∷ bytes) field rest e1 in
        let (read_others, others_sound) = fields_behind_inv fuel rest others behind e2 in
        subst_ok (λ t l. (b ∷ bytes ≡ prints t ++ (b')' ∷ l)) × AreSound t) h2
          (read ∙ ap (λ t. print field ++ t) read_others ∙ simp append_assoc, (sound, others_sound))
  ]

array_behind_inv :
    (one inner : List ℕ → Result WireError (WireType × List ℕ)) (structs : ℕ) (bytes : List ℕ)
    (ty : WireType) (left : List ℕ)
    → IsFaithful one
    → IsFaithful inner
    → array_behind one inner structs bytes ≡ ok (ty, left)
    → (b'a' ∷ bytes ≡ print ty ++ left) × IsSound ty
unfolding array_behind print
array_behind_inv one inner structs [] ty left h k e =
    let ((element, rest), e1, e2) = >>=-eq-ok (one []) _ e in
    let (read, sound) = h [] element rest e1 in
    subst_ok (λ t l. (b'a' ∷ [] ≡ print t ++ l) × IsSound t) e2 (ap (λ t. b'a' ∷ t) read, sound)
array_behind_inv one inner structs (b ∷ bytes) ty left h k e = elim (Bool-cases (b == b'{')) [
  | inl opens ↦
      let (room, e1) = bind_refuse_if_inv (leb max_container_depth structs) _ _ (rw opens at e) in
      let ((key, rest), e2, e3) = >>=-eq-ok (inner bytes) _ e1 in
      let (read_key, key_sound) = k bytes key rest e2 in
      let (read, sound) = entry_behind_inv inner k key rest ty left e3 key_sound in
      (
        ap (λ t. b'a' ∷ t)
              (ap (λ n. n ∷ bytes) ((==_iff b b'{').0 opens) ∙ ap (λ t. b'{' ∷ t) read_key)
            ∙ read,
        sound,
      )
  | inr other ↦
      let ((element, rest), e1, e2) = >>=-eq-ok (one (b ∷ bytes)) _ (rw other at e) in
      let (read, sound) = h (b ∷ bytes) element rest e1 in
      subst_ok (λ t l. (b'a' ∷ b ∷ bytes ≡ print t ++ l) × IsSound t) e2
        (ap (λ t. b'a' ∷ t) read, sound)
]

type_behind_inv :
    (one : ℕ → ℕ → List ℕ → Result WireError (WireType × List ℕ))
    → ((arrays structs : ℕ) → IsFaithful (one arrays structs))
    → (o : Opening) (c arrays structs : ℕ) (bytes : List ℕ) (ty : WireType) (left : List ℕ)
    → Opens o c
    → type_behind one o arrays structs bytes ≡ ok (ty, left)
    → (c ∷ bytes ≡ print ty ++ left) × IsSound ty
unfolding type_behind print
type_behind_inv one faithful (Opening.basic t) c arrays structs bytes ty left (spelled, sound) h =
    subst_ok (λ t l. (c ∷ bytes ≡ print t ++ l) × IsSound t) h (ap (λ t. t ++ bytes) spelled, sound)
type_behind_inv one faithful Opening.opens_array c arrays structs bytes ty left spelled h =
    let (room, h1) = bind_refuse_if_inv (leb max_container_depth arrays) _ _ h in
    let (read, sound) =
      array_behind_inv (one (arrays + 1) structs) (one (arrays + 1) (structs + 1)) structs bytes ty
        left (faithful (arrays + 1) structs) (faithful (arrays + 1) (structs + 1)) h1 in
    (ap (λ n. n ∷ bytes) spelled ∙ read, sound)
type_behind_inv one faithful Opening.opens_struct c arrays structs bytes ty left spelled h =
    let (room, h1) = bind_refuse_if_inv (leb max_container_depth structs) _ _ h in
    let ((fields, behind), e2, h2) =
      >>=-eq-ok (fields_behind (one arrays (structs + 1)) (length bytes + 1) bytes) _ h1 in
    let (some_fields, h3) = bind_refuse_if_inv (count_types fields == 0) _ _ h2 in
    let (read, sound) =
      fields_behind_inv (one arrays (structs + 1)) (faithful arrays (structs + 1))
        (length bytes + 1) bytes fields behind e2 in
    subst_ok (λ t l. (c ∷ bytes ≡ print t ++ l) × IsSound t) h3
      (
        ap (λ n. n ∷ bytes) spelled ∙ ap (λ t. b'(' ∷ t) read ∙ simp append_assoc,
        (ground arith, sound),
      )
type_behind_inv one faithful Opening.unknown c arrays structs bytes ty left spelled h = cc

pub parse_type-IsFaithful : (fuel arrays structs : ℕ) → IsFaithful (parse_type fuel arrays structs)
unfolding parse_type
parse_type-IsFaithful zero arrays structs bytes ty left h = cc
parse_type-IsFaithful (suc fuel) arrays structs [] ty left h = cc
parse_type-IsFaithful (suc fuel) arrays structs (c ∷ bytes) ty left h =
    type_behind_inv (parse_type fuel) (parse_type-IsFaithful fuel) (opening c) c arrays structs
      bytes ty left (opening-Opens c) h

parse_types_inv :
    (fuel : ℕ) (bytes : List ℕ) (types : WireTypes)
    → parse_types fuel bytes ≡ ok types
    → (bytes ≡ prints types) × AreSound types
unfolding parse_types prints
parse_types_inv zero [] types h =
    let same : WireTypes.nil ≡ types = cc in
    subst (λ t. ([] ≡ prints t) × AreSound t) same (refl, tt)
parse_types_inv (suc fuel) [] types h =
    let same : WireTypes.nil ≡ types = cc in
    subst (λ t. ([] ≡ prints t) × AreSound t) same (refl, tt)
parse_types_inv zero (b ∷ bytes) types h = cc
parse_types_inv (suc fuel) (b ∷ bytes) types h =
    let ((ty, left), e1, h1) = >>=-eq-ok (parse_type max_nesting 0 0 (b ∷ bytes)) _ h in
    let (others, e2, h2) = >>=-eq-ok (parse_types fuel left) _ h1 in
    let same : WireTypes.cons ty others ≡ types = cc in
    let (read, sound) = parse_type-IsFaithful max_nesting 0 0 (b ∷ bytes) ty left e1 in
    let (read_others, others_sound) = parse_types_inv fuel left others e2 in
    subst (λ t. (b ∷ bytes ≡ prints t) × AreSound t) same
      (read ∙ ap (λ t. print ty ++ t) read_others, (sound, others_sound))

named_inv :
    (sig : List ℕ) (r : Result WireError WireTypes) (types : WireTypes)
    → named sig r ≡ ok types
    → r ≡ ok types
unfolding named
named_inv sig (ok t) types h = h
named_inv sig (err e) types h = ground arith

-- A signature that is accepted is at most 255 bytes that spell exactly the types that it is read as, and
-- none of these has a struct with no field.
pub parse_signature-prints :
    (sig : List ℕ) (types : WireTypes)
    → parse_signature sig ≡ ok types
    → (sig ≡ prints types) × AreSound types × (length sig ≤ max_signature)
unfolding parse_signature
parse_signature-prints sig types h =
    let (short, h1) = bind_refuse_if_inv (ltb max_signature (length sig)) _ _ h in
    let (spelled, sound) = parse_types_inv (length sig) sig types (named_inv sig _ types h1) in
    (spelled, sound, ground arith)

-- A byte of ASCII that is not nul.
abbrev pub IsLetter : ℕ → Type 0
IsLetter b = (0 < b) × (b < 128)

mutual
  unfolding print prints code

  print-IsLetter : (ty : WireType) → All IsLetter (print ty)
  print-IsLetter (WireType.array element) = (omega arith, print-IsLetter element)
  print-IsLetter (WireType.struct fields) = (
    omega arith,
    All-append IsLetter (prints fields) (b')' ∷ []) (prints-IsLetter fields) (omega arith, tt),
  )
  print-IsLetter (WireType.dict_entry key value) = (
    omega arith,
    All-append IsLetter (print key) (print value ++ (b'}' ∷ [])) (print-IsLetter key)
        (All-append IsLetter (print value) (b'}' ∷ []) (print-IsLetter value) (omega arith, tt)),
  )
  print-IsLetter ty = (omega arith, tt)

  prints-IsLetter : (types : WireTypes) → All IsLetter (prints types)
  prints-IsLetter WireTypes.nil = tt
  prints-IsLetter (WireTypes.cons ty types) =
      All-append IsLetter (print ty) (prints types) (print-IsLetter ty) (prints-IsLetter types)

pub parse_signature-IsLetter :
    (sig : List ℕ) (types : WireTypes) → parse_signature sig ≡ ok types → All IsLetter sig
parse_signature-IsLetter sig types h =
    subst (All IsLetter) (sym (parse_signature-prints sig types h).0) (prints-IsLetter types)
