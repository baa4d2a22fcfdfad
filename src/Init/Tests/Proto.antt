-- ===== src/Init/Tests/Proto.antt =====
-- Two arguments and the terminal's flag, and the exec channel's theorems at them.
use bubbler.Prelude.{
  ℕ, ◌≡◌, refl, List, [], ◌∷◌, ok, err, codes, slice, checked_add, u32_of_slice, u32_from_bytes,
  u32_to_bytes, All, IsByte, arith,
}
use bubbler.Init.Proto.{
  Request, truncated, bad_count, bad_flags, ctty, has_unknown_flags, as_u32, encode_argv,
  encode_request, take4, decode_argv, decode_request,
}
use bubbler.Init.Proto.Sound.{IsSound, decode_request-IsSound}

program : Unit {0}
unfolding slice checked_add u32_of_slice u32_from_bytes u32_to_bytes ctty has_unknown_flags as_u32
    encode_argv encode_request take4 decode_argv decode_request
program = tt

abbrev argv : List (List ℕ)
argv = codes "sh" ∷ [] ∷ (255 ∷ []) ∷ []

abbrev bytes : List ℕ
bytes =
    1 ∷ 0 ∷ 0 ∷ 0 ∷ 3 ∷ 0 ∷ 0 ∷ 0 ∷ 2 ∷ 0 ∷ 0 ∷ 0 ∷ 115 ∷ 104 ∷ 0 ∷ 0 ∷ 0 ∷ 0 ∷ 1 ∷ 0 ∷ 0 ∷ 0 ∷ 255
    ∷ []

abbrev request : Request
request = record { flags = 1; argv = argv }

encode_request_example : encode_request argv 1 ≡ bytes
unfolding program
encode_request_example = refl

no_arguments : decode_request (encode_request [] 0) ≡ err bad_count
unfolding program
no_arguments = refl

unknown_flag : decode_request (encode_request argv 2) ≡ err bad_flags
unfolding program
unknown_flag = refl

trailing : decode_request (0 ∷ 0 ∷ 0 ∷ 0 ∷ 1 ∷ 0 ∷ 0 ∷ 0 ∷ 0 ∷ 0 ∷ 0 ∷ 0 ∷ 7 ∷ []) ≡ err truncated
unfolding program
trailing = refl

bytes-IsByte : All IsByte bytes
bytes-IsByte = ground arith

read : decode_request bytes ≡ ok request
unfolding program
read = refl

decode_request-IsSound_example : IsSound bytes request
decode_request-IsSound_example = decode_request-IsSound bytes request bytes-IsByte read
