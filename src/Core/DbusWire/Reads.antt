-- ===== src/Core/DbusWire/Reads.antt =====
-- crates/bubbler-core/src/dbus_wire.rs: the reads of the reader, where the bytes of the writer stand.
use bubbler.Prelude.{
  ℕ, zero, suc, ◌+◌, ◌/◌, ◌%◌, ◌^◌, ◌≡◌, ◌≤◌, ◌<◌, refl, sym, ap, ◌∙◌, true, false, some, List, [],
  ◌∷◌, ◌++◌, append_assoc, length, length-append, length-replicate, replicate, slice, slice-append,
  All, ok, bind_refuse_if_inv, ltb, ◌==◌, not, to_str, to_str-ascii, arith,
}
use mathlib.Core.Path.{subst}
use native.Mathlib.Nat.{pow-suc}
use bubbler.NetProxy.Allow.{all}
use bubbler.Core.DbusWire.Types.{padding_at}
use bubbler.Core.DbusWire.Signature.Printed.{IsLetter}
use bubbler.Core.DbusWire.Encode.{le_bytes, contains_nul, encode_str, encode_signature}
use bubbler.Core.DbusWire.Decode.{
  Reader, from_le_bytes, take_bytes, align, number, text, long_text, short_text,
}

-- These bytes stand in a buffer from an offset on.
pub record Stands (buf : List ℕ) (at : ℕ) (bytes : List ℕ) : Type 0 where
  pub before : List ℕ
  pub behind : List ℕ
  pub whole : buf ≡ before ++ (bytes ++ behind)
  pub placed : at ≡ length before

-- The reader some bytes further.
abbrev pub moved : Reader → ℕ → Reader
moved r n = record r { at = r.at + n }

pub same_reader :
    {a b c d : ℕ}
    → a ≡ c
    → b ≡ d
    → ◌≡◌ {A = Reader} (record { at = a; values = b }) (record { at = c; values = d })
same_reader e e' = λ i. record { at = e i; values = e' i }

pub length-le_bytes : (n v : ℕ) → length (le_bytes n v) ≡ n
unfolding le_bytes
length-le_bytes zero v = refl
length-le_bytes (suc n) v = omega (arith, length-le_bytes n (v / 256))

pub from_le_bytes-le_bytes : (n v : ℕ) → v < 256 ^ n → from_le_bytes (le_bytes n v) ≡ v
unfolding from_le_bytes le_bytes
from_le_bytes-le_bytes zero v h = omega arith
from_le_bytes-le_bytes (suc n) v h =
    omega (arith, from_le_bytes-le_bytes n (v / 256) (omega (arith, pow-suc 256 n)))

pub all-replicate : (n : ℕ) → all (λ b. b == 0) (replicate n 0) ≡ true
unfolding all
all-replicate zero = refl
all-replicate (suc n) = all-replicate n

contains_nul-IsLetter : (s : List ℕ) → All IsLetter s → contains_nul s ≡ false
unfolding contains_nul
contains_nul-IsLetter [] h = refl
contains_nul-IsLetter (b ∷ s) ((positive, small), h) = ground (arith, contains_nul-IsLetter s h)

ascii-IsLetter : (s : List ℕ) → All IsLetter s → All (λ b. b < 128) s
ascii-IsLetter [] h = tt
ascii-IsLetter (b ∷ s) ((positive, small), h) = (small, ascii-IsLetter s h)

pub encode_str_inv :
    (s e : List ℕ)
    → encode_str s ≡ ok e
    → (contains_nul s ≡ false)
      × (length s < 2 ^ 32)
      × (le_bytes 4 (length s) ++ (s ++ (0 ∷ [])) ≡ e)
unfolding encode_str
encode_str_inv s e h =
    let (no_nul, h1) = bind_refuse_if_inv (contains_nul s) _ _ h in
    let (short, h2) = bind_refuse_if_inv (not (ltb (length s) (2 ^ 32))) _ _ h1 in
    (no_nul, ground arith, cc)

module _ (buf : List ℕ) where
  pub Stands-left : (at : ℕ) (a b : List ℕ) → Stands buf at (a ++ b) → Stands buf at a
  Stands-left at a b s = record {
    before = s.before;
    behind = b ++ s.behind;
    whole = s.whole ∙ ap (λ t. s.before ++ t) (append_assoc a b s.behind);
    placed = s.placed;
  }

  pub Stands-right :
      (at from : ℕ) (a b : List ℕ)
      → from ≡ at + length a
      → Stands buf at (a ++ b)
      → Stands buf from b
  Stands-right at from a b e s = record {
    before = s.before ++ a;
    behind = s.behind;
    whole =
        s.whole
        ∙ ap (λ t. s.before ++ t) (append_assoc a b s.behind)
        ∙ sym (append_assoc s.before a (b ++ s.behind));
    placed = omega (arith, e, s.placed, length-append s.before a);
  }

  pub take_bytes-Stands :
      (n : ℕ) (r : Reader) (bytes : List ℕ)
      → n ≡ length bytes
      → Stands buf r.at bytes
      → take_bytes buf n r ≡ ok (bytes, moved r n)
  unfolding take_bytes
  take_bytes-Stands n r bytes e s =
      let found : slice buf r.at (r.at + n) ≡ some bytes =
        ap (λ t. slice t r.at (r.at + n)) s.whole
        ∙ slice-append s.before bytes s.behind r.at (r.at + n) s.placed (omega arith) in
      rw found

  pub number-Stands :
      (n v : ℕ) (r : Reader)
      → v < 256 ^ n
      → Stands buf r.at (le_bytes n v)
      → number buf n r ≡ ok (v, moved r n)
  unfolding number
  number-Stands n v r h s = rw (
    take_bytes-Stands n r (le_bytes n v) (sym (length-le_bytes n v)) s,
    from_le_bytes-le_bytes n v h,
  )

  pub align-Stands :
      (a : ℕ) (r : Reader)
      → Stands buf r.at (replicate (padding_at r.at a) 0)
      → align buf a r ≡ ok (moved r (padding_at r.at a))
  unfolding align
  align-Stands a r s =
      let n = padding_at r.at a in
      rw (take_bytes-Stands n r (replicate n 0) (sym (length-replicate n 0)) s, all-replicate n)

  text-Stands :
      (s : List ℕ) (r : Reader)
      → contains_nul s ≡ false
      → to_str s ≡ some s
      → Stands buf r.at (s ++ (0 ∷ []))
      → text buf (length s) r ≡ ok (s, moved (moved r (length s)) 1)
  unfolding text le_bytes
  text-Stands s r no_nul utf8 stands =
      let nul : number buf 1 (moved r (length s)) ≡ ok (0, moved (moved r (length s)) 1) =
        number-Stands 1 0 (moved r (length s)) (omega arith)
          (Stands-right r.at (r.at + length s) s (0 ∷ []) refl stands) in
      rw (
        take_bytes-Stands (length s) r s refl (Stands-left r.at s (0 ∷ []) stands),
        no_nul,
        nul,
        utf8,
      )

  pub long_text-Stands :
      (s e : List ℕ) (r : Reader)
      → encode_str s ≡ ok e
      → to_str s ≡ some s
      → Stands buf r.at e
      → long_text buf r ≡ ok (s, moved r (length e))
  unfolding long_text
  long_text-Stands s e r h utf8 stands =
      let (no_nul, short, same) = encode_str_inv s e h in
      let there = subst (Stands buf r.at) (sym same) stands in
      let len : number buf 4 r ≡ ok (length s, moved r 4) =
        number-Stands 4 (length s) r (omega arith)
          (Stands-left r.at (le_bytes 4 (length s)) _ there) in
      let rest = text-Stands s (moved r 4) no_nul utf8 (
        Stands-right r.at (r.at + 4) (le_bytes 4 (length s)) _
          (omega (arith, length-le_bytes 4 (length s))) there) in
      let size : length e ≡ 4 + (length s + 1) =
        ap length (sym same)
        ∙ omega (
          arith,
          length-append (le_bytes 4 (length s)) (s ++ (0 ∷ [])),
          length-append s (0 ∷ []),
          length-le_bytes 4 (length s),
        ) in
      rw (len, rest) (ap (λ n. ok (s, record r { at = n })) (omega arith))

  pub short_text-Stands :
      (s : List ℕ) (r : Reader)
      → All IsLetter s
      → length s ≤ 255
      → Stands buf r.at (encode_signature s)
      → short_text buf r ≡ ok (s, moved r (length (encode_signature s)))
  unfolding short_text encode_signature le_bytes
  short_text-Stands s r letters short stands =
      let len : number buf 1 r ≡ ok (length s, moved r 1) =
        number-Stands 1 (length s) r (omega arith)
          (Stands-left r.at (length s % 256 ∷ []) _ stands) in
      let rest =
        text-Stands s (moved r 1) (contains_nul-IsLetter s letters)
          (to_str-ascii s (ascii-IsLetter s letters))
          (Stands-right r.at (r.at + 1) (length s % 256 ∷ []) _ refl stands) in
      rw (len, rest)
        (ap (λ n. ok (s, record r { at = n })) (omega (arith, length-append s (0 ∷ []))))

  pub Stands-bound :
      (at : ℕ) (bytes : List ℕ) → Stands buf at bytes → at + length bytes ≤ length buf
  Stands-bound at bytes s = omega (
    arith,
    s.placed,
    ap length s.whole,
    length-append s.before (bytes ++ s.behind),
    length-append bytes s.behind,
  )
