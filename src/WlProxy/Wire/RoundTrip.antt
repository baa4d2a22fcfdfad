-- ===== src/WlProxy/Wire/RoundTrip.antt =====
-- crates/bubbler-wl-proxy/src/wire.rs: what `encode` wrote, `decode` reads back.
use bubbler.Prelude.{
  ℕ, ◌+◌, ◌*◌, ◌%◌, ◌^◌, ◌<◌, ◌≤◌, ◌≡◌, refl, sym, ap, ◌∙◌, none, some, List, [], ◌∷◌, ◌++◌,
  append_assoc, append-nil, drop, length, All, map, IsU16, IsU32, Endian, little, big, ok,
  >>=-eq-ok, u32_of_slice, u32_to_bytes, u32_from_bytes, arith, slice-append, length-append,
  ==_refl,
}
use bubbler.WlProxy.Wire.{
  Arg, int, uint, fixed, string, object, new_id, array, fd, Header, decode_header, header_of_words,
  encode_header, decode_arg, decode_args, decode, encode_arg, encode_args, encode, put_bytes,
  IsText, IsValid, kind_of, take_bytes, take_string,
}
use bubbler.WlProxy.Tables.{ArgKind}
use bubbler.WlProxy.Wire.Bytes.{
  padding, counted, length-counted, take_word-append, take_bytes-append, take_string-append,
  take_word-counted, counted-split, length-count,
}
use bubbler.Prelude.{length-u32_to_bytes}

-- The bytes of an argument on the wire.
unfoldable pub arg_bytes : Endian → Arg → List ℕ
arg_bytes order (int v) = u32_to_bytes order v
arg_bytes order (uint v) = u32_to_bytes order v
arg_bytes order (fixed v) = u32_to_bytes order v
arg_bytes order (object v) = u32_to_bytes order v
arg_bytes order (new_id v) = u32_to_bytes order v
arg_bytes order (string none) = u32_to_bytes order 0
arg_bytes order (string (some text)) = counted order (text ++ (0 ∷ []))
arg_bytes order (array bytes) = counted order bytes
arg_bytes order fd = []

unfoldable pub args_bytes : Endian → List Arg → List ℕ
args_bytes order [] = []
args_bytes order (arg ∷ args) = arg_bytes order arg ++ args_bytes order args

put_bytes_inv :
    (order : Endian) (body bytes : List ℕ) {b : List ℕ}
    → put_bytes order body bytes ≡ ok b
    → b ≡ body ++ counted order bytes
unfolding put_bytes counted padding
put_bytes_inv order body bytes h = ground arith

pub encode_arg-arg_bytes :
    (order : Endian) (body : List ℕ) (arg : Arg) {b : List ℕ}
    → encode_arg order body arg ≡ ok b
    → b ≡ body ++ arg_bytes order arg
unfolding encode_arg arg_bytes
encode_arg-arg_bytes order body (string (some text)) h = put_bytes_inv order body _ h
encode_arg-arg_bytes order body (string none) h = cc
encode_arg-arg_bytes order body (array bytes) h = put_bytes_inv order body bytes h
encode_arg-arg_bytes order body fd h = ground (arith, append-nil body)
encode_arg-arg_bytes order body (int v) h = cc
encode_arg-arg_bytes order body (uint v) h = cc
encode_arg-arg_bytes order body (fixed v) h = cc
encode_arg-arg_bytes order body (object v) h = cc
encode_arg-arg_bytes order body (new_id v) h = cc

pub encode_args-args_bytes :
    (order : Endian) (body : List ℕ) (args : List Arg) {b : List ℕ}
    → encode_args order body args ≡ ok b
    → b ≡ body ++ args_bytes order args
unfolding encode_args args_bytes
encode_args-args_bytes order body [] h = ground (arith, append-nil body)
encode_args-args_bytes order body (arg ∷ args) {b} h =
    let (body', e, rest) =
      >>=-eq-ok (encode_arg order body arg) (λ b'. encode_args order b' args) h in
    encode_args-args_bytes order body' args rest
    ∙ ap (λ x. x ++ args_bytes order args) (encode_arg-arg_bytes order body arg e)
    ∙ append_assoc body (arg_bytes order arg) (args_bytes order args)

-- What `encode` writes when it does: the header with its size, then the arguments.
pub encode_inv :
    (order : Endian) (id opcode : ℕ) (args : List Arg) {bytes : List ℕ}
    → encode order id opcode args ≡ ok bytes
    → (8 + length (args_bytes order args) < 2 ^ 16)
      × (bytes
          ≡ encode_header order
              (record { object = id; opcode = opcode; size = 8 + length (args_bytes order args) })
            ++ args_bytes order args)
unfolding encode
encode_inv order id opcode args {bytes} h =
    let (body, e, rest) = >>=-eq-ok (encode_args order [] args) _ h in
    let e' : body ≡ args_bytes order args = encode_args-args_bytes order [] args e in
    ground (arith, e', rest)

-- A padded run of bytes, and a text with its NUL, read back after `pre`.
decode_array-append :
    (order : Endian) (pre post bytes : List ℕ) (at : ℕ)
    → at ≡ length pre
    → length pre + length (counted order bytes) < 2 ^ 16
    → decode_arg order (pre ++ (counted order bytes ++ post)) ArgKind.array at
      ≡ ok (array bytes, at + length (counted order bytes))
unfolding decode_arg
decode_array-append order pre post bytes at e small =
    rw (take_word-counted order pre bytes post at e (omega (arith, len)) (omega (arith, len)), run)
      (ap (λ n. ok (array bytes, n)) (omega (arith, len)))
  where
    len : length (counted order bytes) ≡ 4 + (length bytes + padding (length bytes))
    len = length-counted order bytes

    run :
        take_bytes (pre ++ (counted order bytes ++ post)) (at + 4) (length bytes)
        ≡ ok (bytes, at + 4 + (length bytes + padding (length bytes)))
    run = rw (counted-split order pre bytes post at e) (
        take_bytes-append _ bytes post (at + 4) (length-count order pre bytes post at e)
          (omega (arith, len, length-count order pre bytes post at e)))

decode_string-append :
    (order : Endian) (pre post text : List ℕ) (at : ℕ)
    → at ≡ length pre
    → IsText text
    → length pre + length (counted order (text ++ (0 ∷ []))) < 2 ^ 16
    → decode_arg order (pre ++ (counted order (text ++ (0 ∷ [])) ++ post)) ArgKind.string at
      ≡ ok (string (some text), at + length (counted order (text ++ (0 ∷ []))))
unfolding decode_arg
decode_string-append order pre post text at e t small =
    rw (take_word-counted order pre bytes post at e (omega (arith, len)) (omega (arith, len)), run)
      (ap (λ n. ok (string (some text), n)) (omega (arith, len)))
  where
    bytes : List ℕ
    bytes = text ++ (0 ∷ [])

    len : length (counted order bytes) ≡ 4 + (length bytes + padding (length bytes))
    len = length-counted order bytes

    run :
        take_string (pre ++ (counted order bytes ++ post)) (at + 4) (length bytes)
        ≡ ok (string (some text), at + 4 + (length bytes + padding (length bytes)))
    run = rw (counted-split order pre bytes post at e) (
        take_string-append _ text post (at + 4) t (length-count order pre bytes post at e)
          (omega (arith, len, length-count order pre bytes post at e, length-append text (0 ∷ []))))

-- An argument written after `pre` is read back there.
pub decode_arg-append :
    (order : Endian) (pre post : List ℕ) (arg : Arg) (at : ℕ)
    → at ≡ length pre
    → IsValid arg
    → length pre + length (arg_bytes order arg) < 2 ^ 16
    → decode_arg order (pre ++ (arg_bytes order arg ++ post)) (kind_of arg) at
      ≡ ok (arg, at + length (arg_bytes order arg))
unfolding decode_arg arg_bytes
decode_arg-append order pre post (int v) at e h small =
    rw (take_word-append order pre post v at e h (omega arith), length-u32_to_bytes)
decode_arg-append order pre post (uint v) at e h small =
    rw (take_word-append order pre post v at e h (omega arith), length-u32_to_bytes)
decode_arg-append order pre post (fixed v) at e h small =
    rw (take_word-append order pre post v at e h (omega arith), length-u32_to_bytes)
decode_arg-append order pre post (object v) at e h small =
    rw (take_word-append order pre post v at e h (omega arith), length-u32_to_bytes)
decode_arg-append order pre post (new_id v) at e h small =
    rw (take_word-append order pre post v at e h (omega arith), length-u32_to_bytes)
decode_arg-append order pre post (string none) at e h small =
    rw (take_word-append order pre post 0 at e (omega arith) (omega arith), length-u32_to_bytes)
      (unfold take_string in refl)
decode_arg-append order pre post (string (some text)) at e h small =
    decode_string-append order pre post text at e h small
decode_arg-append order pre post (array bytes) at e h small =
    decode_array-append order pre post bytes at e small
decode_arg-append order pre post fd at e h small = ap (λ n. ok (fd, n)) (omega arith)

pub decode_args-append :
    (order : Endian) (pre : List ℕ) (args : List Arg) (at : ℕ)
    → at ≡ length pre
    → All IsValid args
    → length pre + length (args_bytes order args) < 2 ^ 16
    → decode_args order (pre ++ args_bytes order args) (map kind_of args) at
      ≡ ok (args, length pre + length (args_bytes order args))
unfolding decode_args args_bytes
decode_args-append order pre [] at e v small = ap (λ n. ok ([], n)) (omega arith)
decode_args-append order pre (arg ∷ args) at e (v, vs) small =
    let len = length-append (arg_bytes order arg) (args_bytes order args) in
    let mid = length-append pre (arg_bytes order arg) in
    let rest =
      decode_args-append order (pre ++ arg_bytes order arg) args (at + length (arg_bytes order arg))
        (omega (arith, mid)) vs (omega (arith, len, mid)) in
    rw
      (
        decode_arg-append order pre (args_bytes order args) arg at e v (omega (arith, len)),
        rw (append_assoc pre (arg_bytes order arg)) at rest,
      )
      (ap (λ n. ok (arg ∷ args, n)) (omega (arith, len, mid)))

counted_whole : (order : Endian) (bytes : List ℕ) → length (counted order bytes) % 4 ≡ 0
unfolding padding
counted_whole order bytes = omega (arith, length-counted order bytes)

arg_bytes_whole : (order : Endian) (arg : Arg) → length (arg_bytes order arg) % 4 ≡ 0
unfolding arg_bytes
arg_bytes_whole order (int v) = omega (arith, length-u32_to_bytes order v)
arg_bytes_whole order (uint v) = omega (arith, length-u32_to_bytes order v)
arg_bytes_whole order (fixed v) = omega (arith, length-u32_to_bytes order v)
arg_bytes_whole order (object v) = omega (arith, length-u32_to_bytes order v)
arg_bytes_whole order (new_id v) = omega (arith, length-u32_to_bytes order v)
arg_bytes_whole order (string none) = omega (arith, length-u32_to_bytes order 0)
arg_bytes_whole order (string (some text)) = counted_whole order (text ++ (0 ∷ []))
arg_bytes_whole order (array bytes) = counted_whole order bytes
arg_bytes_whole order fd = refl

args_bytes_whole : (order : Endian) (args : List Arg) → length (args_bytes order args) % 4 ≡ 0
unfolding args_bytes
args_bytes_whole order [] = refl
args_bytes_whole order (arg ∷ args) = omega (
  arith,
  args_bytes_whole order args,
  length-append (arg_bytes order arg) (args_bytes order args),
  arg_bytes_whole order arg,
)

first_word :
    (order : Endian) (a b : ℕ)
    → IsU32 a
    → u32_of_slice order (u32_to_bytes order a ++ u32_to_bytes order b) ≡ a
unfolding u32_of_slice u32_to_bytes u32_from_bytes
first_word little a b h = omega arith
first_word big a b h = omega arith

second_word :
    (order : Endian) (a b : ℕ)
    → IsU32 b
    → u32_of_slice order (drop 4 (u32_to_bytes order a ++ u32_to_bytes order b)) ≡ b
unfolding u32_of_slice u32_to_bytes u32_from_bytes
second_word little a b h = omega arith
second_word big a b h = omega arith

pub length-encode_header : (order : Endian) (h : Header) → length (encode_header order h) ≡ 8
unfolding encode_header
length-encode_header order h = omega (
  arith,
  length-append (u32_to_bytes order h.object) (u32_to_bytes order (h.size * 2 ^ 16 + h.opcode)),
  length-u32_to_bytes order h.object,
  length-u32_to_bytes order (h.size * 2 ^ 16 + h.opcode),
)

-- A header is read back from its eight bytes, whatever follows them.
pub decode_header-encode_header :
    (order : Endian) (h : Header) (rest : List ℕ)
    → IsU32 h.object
    → IsU16 h.opcode
    → IsU16 h.size
    → 8 ≤ h.size
    → h.size % 4 ≡ 0
    → decode_header order (encode_header order h ++ rest) ≡ ok h
unfolding decode_header encode_header
decode_header-encode_header order h rest o c s lo whole =
    rw
      (
        slice-append [] (encode_header order h) rest 0 8 refl
            (omega (arith, length-encode_header order h)),
        first_word order h.object (h.size * 2 ^ 16 + h.opcode) o,
        second_word order h.object (h.size * 2 ^ 16 + h.opcode) (omega arith),
      )
      (unfold header_of_words in ground arith)

-- Every encoded message of words, texts and byte arrays decodes, under the signature of its
-- arguments, to those arguments and to the message's own length, whatever bytes follow it.
pub decode-encode :
    (order : Endian) (id opcode : ℕ) (args : List Arg) (bytes more : List ℕ)
    → IsU32 id
    → IsU16 opcode
    → All IsValid args
    → encode order id opcode args ≡ ok bytes
    → decode order (bytes ++ more) (map kind_of args) ≡ ok (args, length bytes)
unfolding decode
decode-encode order id opcode args bytes more i o v h =
    let (fits, e) = encode_inv order id opcode args h in
    let body = args_bytes order args in
    let header : Header = record { object = id; opcode = opcode; size = 8 + length body } in
    let eight : length (encode_header order header) ≡ 8 = length-encode_header order header in
    let read : decode_args order body (map kind_of args) 0 ≡ ok (args, length body) =
      decode_args-append order [] args 0 refl v (omega arith)
      ∙ ap (λ n. ok (args, n)) (omega arith) in
    rw (
      e,
      append_assoc (encode_header order header) body more,
      decode_header-encode_header order header (body ++ more) i o fits (omega arith)
          (omega (arith, args_bytes_whole order args)),
      slice-append (encode_header order header) body more 8 (8 + length body) (sym eight) refl,
      read,
      ==_refl (length body),
      length-append (encode_header order header) body,
      eight,
    )
