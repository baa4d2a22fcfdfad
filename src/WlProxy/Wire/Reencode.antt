-- ===== src/WlProxy/Wire/Reencode.antt =====
-- crates/bubbler-wl-proxy/src/wire.rs: when `encode` succeeds, and what re-encoding a decoded message
-- gives, which is what the relay writes for every message that it forwards.
use bubbler.Prelude.{
  ℕ, ◌+◌, ◌^◌, ◌<◌, ◌≤◌, ◌≡◌, refl, sym, ap, ◌∙◌, none, some, List, [], ◌∷◌, ◌++◌, length, All,
  IsByte, IsU16, IsU32, Endian, ok, err, arith, length-append, lt→ltb, le→not-ltb, append-nil,
  append_assoc, Result-cases, inl, inr,
}
use bubbler.WlProxy.Tables.{ArgKind}
use bubbler.WlProxy.Wire.{
  Arg, string, array, fd, Header, WireError, too_large, decode, encode_arg, encode_args, encode,
  encode_header, put_bytes,
}
use bubbler.WlProxy.Wire.Bytes.{counted, length-counted, put_bytes-counted}
use bubbler.WlProxy.Wire.RoundTrip.{
  arg_bytes, args_bytes, encode_args-args_bytes, length-encode_header, decode-encode,
}
use bubbler.WlProxy.Wire.Sound.{decode_sound}

put_bytes_total :
    (order : Endian) (body bytes : List ℕ)
    → length (counted order bytes) < 2 ^ 16
    → put_bytes order body bytes ≡ ok (body ++ counted order bytes)
put_bytes_total order body bytes h =
    put_bytes-counted order body bytes (omega (arith, length-counted order bytes))

encode_arg_total :
    (order : Endian) (body : List ℕ) (arg : Arg)
    → length (arg_bytes order arg) < 2 ^ 16
    → encode_arg order body arg ≡ ok (body ++ arg_bytes order arg)
unfolding encode_arg arg_bytes
encode_arg_total order body (string (some text)) h = put_bytes_total order body _ h
encode_arg_total order body (string none) h = refl
encode_arg_total order body (array bytes) h = put_bytes_total order body bytes h
encode_arg_total order body fd h = ap ok (sym (append-nil body))
encode_arg_total order body _ h = refl

encode_args_total :
    (order : Endian) (body : List ℕ) (args : List Arg)
    → length (args_bytes order args) < 2 ^ 16
    → encode_args order body args ≡ ok (body ++ args_bytes order args)
unfolding encode_args args_bytes
encode_args_total order body [] h = ap ok (sym (append-nil body))
encode_args_total order body (arg ∷ args) h =
    let len = length-append (arg_bytes order arg) (args_bytes order args) in
    rw (
      encode_arg_total order body arg (omega (arith, len)),
      encode_args_total order (body ++ arg_bytes order arg) args (omega (arith, len)),
      append_assoc body (arg_bytes order arg) (args_bytes order args),
    )

put_bytes_err :
    (order : Endian) (body bytes : List ℕ) (e : WireError)
    → put_bytes order body bytes ≡ err e
    → (n : ℕ) × (e ≡ too_large n)
unfolding put_bytes
put_bytes_err order body bytes e h = (length bytes, ground arith)

encode_arg_err :
    (order : Endian) (body : List ℕ) (arg : Arg) (e : WireError)
    → encode_arg order body arg ≡ err e
    → (n : ℕ) × (e ≡ too_large n)
unfolding encode_arg
encode_arg_err order body (string (some text)) e h = put_bytes_err order body _ e h
encode_arg_err order body (array bytes) e h = put_bytes_err order body bytes e h
encode_arg_err order body (string none) e h = cc
encode_arg_err order body _ e h = cc

encode_args_err :
    (order : Endian) (body : List ℕ) (args : List Arg) (e : WireError)
    → encode_args order body args ≡ err e
    → (n : ℕ) × (e ≡ too_large n)
unfolding encode_args
encode_args_err order body [] e h = cc
encode_args_err order body (arg ∷ args) e h = elim (Result-cases (encode_arg order body arg)) [
  | inl (body', e') ↦ encode_args_err order body' args e (rw e' at h)
  | inr (x, e') ↦ encode_arg_err order body arg e (e' ∙ rw e' at h)
]

-- `encode` succeeds exactly for the messages whose size fits the 16-bit field, and then writes the
-- header with that size before the arguments; for the others it says that they are too large.
pub encode_exact :
    (order : Endian) (id opcode : ℕ) (args : List Arg)
    → (8 + length (args_bytes order args) < 2 ^ 16
        → encode order id opcode args
          ≡ ok (
              encode_header order
                (record { object = id; opcode = opcode; size = 8 + length (args_bytes order args) })
              ++ args_bytes order args))
      × (2 ^ 16 ≤ 8 + length (args_bytes order args)
          → (n : ℕ) × (encode order id opcode args ≡ err (too_large n)))
unfolding encode
encode_exact order id opcode args = (
  λ h. rw (encode_args_total order [] args (omega arith), lt→ltb _ _ h),
  λ h. elim (Result-cases (encode_args order [] args)) [
    | inl (body, e) ↦
        let e' = encode_args-args_bytes order [] args e in
        (
          8 + length body,
          rw (e, le→not-ltb (8 + length body) (2 ^ 16) (omega (arith, ap length e'))),
        )
    | inr (x, e) ↦ let (n, e') = encode_args_err order [] args x e in (n, rw (e, e'))
  ],
)

-- A message that decoded is encoded again without fail, to as many bytes as it arrived in, and the
-- receiver decodes the very same arguments from them, whatever follows.
pub reencode :
    (order : Endian) (buf : List ℕ) (sig : List ArgKind) (args : List Arg) (used id opcode : ℕ)
    → All IsByte buf
    → IsU32 id
    → IsU16 opcode
    → decode order buf sig ≡ ok (args, used)
    → (bytes : List ℕ) × (encode order id opcode args ≡ ok bytes)
      × (length bytes ≡ used)
      × ((more : List ℕ) → decode order (bytes ++ more) sig ≡ ok (args, used))
reencode order buf sig args used id opcode b i o h =
    let (kinds, span, within, whole, small, valid) = decode_sound order buf sig args used h in
    let header : Header = record {
      object = id;
      opcode = opcode;
      size = 8 + length (args_bytes order args);
    } in
    let bytes : List ℕ = encode_header order header ++ args_bytes order args in
    let written : encode order id opcode args ≡ ok bytes =
      (encode_exact order id opcode args).0 (omega arith) in
    let len : length bytes ≡ used = omega (
      arith,
      length-append (encode_header order header) (args_bytes order args),
      length-encode_header order header,
      span,
    ) in
    (
      bytes,
      written,
      len,
      λ more.
          ap (λ s. decode order (bytes ++ more) s) (sym kinds)
          ∙ decode-encode order id opcode args bytes more i o (valid b) written
          ∙ ap (λ n. ok (args, n)) len,
    )
