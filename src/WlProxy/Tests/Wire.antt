-- ===== src/WlProxy/Tests/Wire.antt =====
-- Concrete messages on the wire, and the wire's theorems at them.
use bubbler.Prelude.{
  ℕ, ◌+◌, ◌≡◌, ◌≤◌, ◌<◌, ◌%◌, ◌^◌, refl, some, none, List, [], ◌∷◌, ◌++◌, map, ok, err, little,
  codes, length, arith, slice, checked_add, u32_of_slice, u32_from_bytes, u32_to_bytes, All, IsByte,
}
use bubbler.WlProxy.Tables.{ArgKind}
use bubbler.WlProxy.Wire.{
  Arg, int, string, array, fd, bad_size, bad_string, encode, decode, encode_args, encode_arg,
  encode_header, decode_header, header_of_words, decode_args, decode_arg, take_word, take_bytes,
  take_string, put_bytes, split_last, has_nul, checked_next_multiple_of_4, kind_of, too_large,
  IsValid,
}
use bubbler.WlProxy.Wire.RoundTrip.{args_bytes, arg_bytes, decode-encode}
use bubbler.WlProxy.Wire.Bytes.{counted, padding}
use bubbler.WlProxy.Wire.Sound.{decode_sound}
use bubbler.WlProxy.Wire.Reencode.{reencode, encode_exact}
use bubbler.WlProxy.Wire.Stable.{decode-append}

program : Unit {0}
unfolding encode encode_args encode_arg encode_header put_bytes u32_to_bytes decode decode_header
    header_of_words decode_args decode_arg take_word take_bytes take_string slice checked_add
    u32_of_slice u32_from_bytes split_last has_nul checked_next_multiple_of_4 args_bytes arg_bytes
    counted padding
program = tt

abbrev args : List Arg
args = int 7 ∷ string (some (codes "hi")) ∷ array (1 ∷ 2 ∷ 3 ∷ 4 ∷ 5 ∷ []) ∷ string none ∷ fd ∷ []

abbrev sig : List ArgKind
sig = ArgKind.int ∷ ArgKind.string ∷ ArgKind.array ∷ ArgKind.string ∷ ArgKind.fd ∷ []

abbrev bytes : List ℕ
bytes =
    3 ∷ 0 ∷ 0 ∷ 0 ∷ 1 ∷ 0 ∷ 36 ∷ 0 ∷ 7 ∷ 0 ∷ 0 ∷ 0 ∷ 3 ∷ 0 ∷ 0 ∷ 0 ∷ 104 ∷ 105 ∷ 0 ∷ 0 ∷ 5 ∷ 0 ∷ 0
    ∷ 0 ∷ 1 ∷ 2 ∷ 3 ∷ 4 ∷ 5 ∷ 0 ∷ 0 ∷ 0 ∷ 0 ∷ 0 ∷ 0 ∷ 0 ∷ []

encode_args_example : encode little 3 1 args ≡ ok bytes
unfolding program
encode_args_example = refl

decode_args_example : decode little (bytes ++ (9 ∷ [])) sig ≡ ok (args, 36)
unfolding program
decode_args_example = refl

decode_bad_size : decode little (3 ∷ 0 ∷ 0 ∷ 0 ∷ 1 ∷ 0 ∷ 9 ∷ 0 ∷ []) [] ≡ err (bad_size 9)
unfolding program
decode_bad_size = refl

-- A NUL inside a string is refused.
decode_bad_string :
    decode little
      (3 ∷ 0 ∷ 0 ∷ 0 ∷ 1 ∷ 0 ∷ 16 ∷ 0 ∷ 4 ∷ 0 ∷ 0 ∷ 0 ∷ 104 ∷ 0 ∷ 105 ∷ 0 ∷ [])
      (ArgKind.string ∷ [])
    ≡ err bad_string
unfolding program
decode_bad_string = refl

decode-encode_example : decode little (bytes ++ (9 ∷ [])) sig ≡ ok (args, 36)
decode-encode_example =
    decode-encode little 3 1 args bytes (9 ∷ []) (omega arith) (omega arith) (omega arith)
      encode_args_example

decode_sound_example :
    (map kind_of args ≡ sig)
    × (36 ≡ 8 + length (args_bytes little args))
    × (36 ≤ length (bytes ++ (9 ∷ [])))
    × (36 % 4 ≡ 0)
    × (36 < 2 ^ 16)
    × (All IsByte (bytes ++ (9 ∷ [])) → All IsValid args)
decode_sound_example = decode_sound little (bytes ++ (9 ∷ [])) sig args 36 decode_args_example

reencode_example :
    (out : List ℕ) × (encode little 3 1 args ≡ ok out)
    × (length out ≡ 36)
    × ((more : List ℕ) → decode little (out ++ more) sig ≡ ok (args, 36))
reencode_example =
    reencode little (bytes ++ (9 ∷ [])) sig args 36 3 1 (omega arith) (omega arith) (omega arith)
      decode_args_example

encode_exact_example :
    (8 + length (args_bytes little args) < 2 ^ 16
      → encode little 3 1 args
        ≡ ok (
            encode_header little
              (record { object = 3; opcode = 1; size = 8 + length (args_bytes little args) })
            ++ args_bytes little args))
    × (2 ^ 16 ≤ 8 + length (args_bytes little args)
        → (n : ℕ) × (encode little 3 1 args ≡ err (too_large n)))
encode_exact_example = encode_exact little 3 1 args

decode-append_example : decode little (bytes ++ (9 ∷ 9 ∷ [])) sig ≡ decode little bytes sig
decode-append_example = decode-append little bytes (9 ∷ 9 ∷ []) sig (unfold program in λ h. cc)
