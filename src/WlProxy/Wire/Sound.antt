-- ===== src/WlProxy/Wire/Sound.antt =====
-- crates/bubbler-wl-proxy/src/wire.rs: what a message that decodes is, whoever wrote it.
use bubbler.Prelude.{
  ℕ, ◌+◌, ◌-◌, ◌%◌, ◌^◌, ◌<◌, ◌≤◌, ◌≡◌, refl, sym, ap, ◌∙◌, take, drop, List, [], ◌∷◌, length,
  slice, All, map, IsByte, IsU16, Endian, ok, >>=-eq-ok, ok_pair-injective, bind_ok_or_inv,
  bind_refuse_if_inv, ◌==◌, not, arith, length-append, slice_bounds, All-take, All-drop,
}
use mathlib.Core.Path.{subst}
use bubbler.WlProxy.Tables.{ArgKind}
use bubbler.WlProxy.Wire.{
  Arg, Header, decode_header, header_of_words, decode_arg, decode_args, decode, IsValid, kind_of,
}
use bubbler.WlProxy.Wire.RoundTrip.{arg_bytes, args_bytes}
use bubbler.WlProxy.Wire.Reads.{decode_arg-WasRead}

module _ (order : Endian) (body : List ℕ) where
  decode_args_inv :
      (sig : List ArgKind) (at : ℕ) (args : List Arg) (end : ℕ)
      → at ≤ length body
      → decode_args order body sig at ≡ ok (args, end)
      → (map kind_of args ≡ sig)
        × (end ≡ at + length (args_bytes order args))
        × (end ≤ length body)
        × (All IsByte body → All IsValid args)
  unfolding decode_args args_bytes
  decode_args_inv [] at args end fits h =
      let (ea, ee) = ok_pair-injective _ _ _ _ h in
      rw (← ea, ← ee) (refl, omega arith, fits, λ b. tt)
  decode_args_inv (kind ∷ sig) at args end fits h =
      let ((arg, past), e1, h1) = >>=-eq-ok (decode_arg order body kind at) _ h in
      let ((rest, end'), e2, h2) = >>=-eq-ok (decode_args order body sig past) _ h1 in
      let (ea, ee) = ok_pair-injective _ _ _ _ h2 in
      let r = decode_arg-WasRead order body kind at arg past fits e1 in
      let (kinds, span, within, valid) = decode_args_inv sig past rest end' r.within e2 in
      rw (← ea, ← ee)
        (
          cc (r.same_kind),
          omega (arith, length-append (arg_bytes order arg) (args_bytes order rest), r),
          within,
          λ b. (r.valid b, valid b),
        )

header_inv :
    (order : Endian) (buf : List ℕ) {h : Header}
    → decode_header order buf ≡ ok h
    → (8 ≤ h.size) × (h.size % 4 ≡ 0) × IsU16 h.size
unfolding decode_header header_of_words
header_inv order buf {h} e =
    let (head, e1, h1) = bind_ok_or_inv (slice buf 0 8) _ _ e in ground (arith, h1)

body_bytes :
    (buf : List ℕ) (size : ℕ) (body : List ℕ)
    → body ≡ take (size - 8) (drop 8 buf)
    → All IsByte buf
    → All IsByte body
body_bytes buf size body e b =
    subst (All IsByte) (sym e) (All-take IsByte (size - 8) (drop 8 buf) (All-drop IsByte 8 buf b))

-- A message that decodes has the kinds of its signature, takes a whole number of words from eight
-- bytes up that the buffer holds and the arguments fill exactly, and its arguments are in range.
pub decode_sound :
    (order : Endian) (buf : List ℕ) (sig : List ArgKind) (args : List Arg) (used : ℕ)
    → decode order buf sig ≡ ok (args, used)
    → (map kind_of args ≡ sig)
      × (used ≡ 8 + length (args_bytes order args))
      × (used ≤ length buf)
      × (used % 4 ≡ 0)
      × (used < 2 ^ 16)
      × (All IsByte buf → All IsValid args)
unfolding decode
decode_sound order buf sig args used h =
    let (header, e1, h1) = >>=-eq-ok (decode_header order buf) _ h in
    let (body, e2, h2) = bind_ok_or_inv (slice buf 8 header.size) _ _ h1 in
    let ((args', at), e3, h3) = >>=-eq-ok (decode_args order body sig 0) _ h2 in
    let (e4, h4) = bind_refuse_if_inv (not (at == length body)) _ _ h3 in
    let (ea, eu) = ok_pair-injective _ _ _ _ h4 in
    let (lo, whole, small) = header_inv order buf e1 in
    let (le, fits, len, part) = slice_bounds buf 8 header.size e2 in
    let (kinds, span, within, valid) = decode_args_inv order body sig 0 args' at (omega arith) e3 in
    let full : at ≡ length body = ground arith in
    let same : length (args_bytes order args') ≡ length (args_bytes order args) =
      ap (λ a. length (args_bytes order a)) ea in
    (
      ap (map kind_of) (sym ea) ∙ kinds,
      omega arith,
      omega arith,
      omega arith,
      omega arith,
      λ b. subst (All IsValid) ea (valid (body_bytes buf header.size body part b)),
    )
