-- ===== src/Init/Proto.antt =====
-- crates/bubbler-init/src/proto.rs: the wire format of the exec channel. An argument is a list of bytes.
-- An `i32` status is its bit pattern, a number below 2 ^ 32.
pub mod RoundTrip
pub mod Sound
use bubbler.Prelude.{
  ℕ, zero, suc, ◌+◌, ◌/◌, ◌%◌, ◌^◌, Bool, List, [], ◌∷◌, ◌++◌, length, slice, Endian, little,
  Result, ok, err, ◌>>=◌, ◌>>◌, ok_or, refuse_if, u32_of_slice, u32_to_bytes, checked_add, ltb, leb,
  ◌==◌, if◌then◌else◌, not, ◌||◌,
}

-- The upper bound on an encoded request: 1 << 20.
abbrev pub max_request : ℕ
max_request = 1_048_576

abbrev pub flag_ctty : ℕ
flag_ctty = 1

pub data ProtoError : Type 0 where
  truncated bad_count too_large bad_flags : ProtoError

pub record Request : Type 0 where
  pub flags : ℕ
  pub argv : List (List ℕ)

-- `flags & FLAG_CTTY != 0`: the lowest bit.
unfoldable pub ctty : Request → Bool
ctty request = request.flags % 2 == flag_ctty

-- `flags & !KNOWN_FLAGS != 0`: a bit above the lowest one.
unfoldable pub has_unknown_flags : ℕ → Bool
has_unknown_flags flags = not (flags / 2 == 0)

-- `len as u32`.
unfoldable pub as_u32 : ℕ → ℕ
as_u32 n = n % 2 ^ 32

-- The arguments, each after its length.
unfoldable pub encode_argv : List (List ℕ) → List ℕ
encode_argv [] = []
encode_argv (arg ∷ argv) = u32_to_bytes little (as_u32 (length arg)) ++ (arg ++ encode_argv argv)

unfoldable pub encode_request : List (List ℕ) → ℕ → List ℕ
encode_request argv flags =
    u32_to_bytes little flags ++ (u32_to_bytes little (as_u32 (length argv)) ++ encode_argv argv)

-- The four bytes at the cursor, and the cursor past them.
unfoldable pub take4 : List ℕ → ℕ → Result ProtoError (ℕ × ℕ)
take4 buf pos = do
  end ← ok_or (checked_add pos 4) truncated
  b ← ok_or (slice buf pos end) truncated
  ok (u32_of_slice little b, end)

-- The loop over the arguments.
unfoldable pub decode_argv : ℕ → List ℕ → ℕ → Result ProtoError (List (List ℕ) × ℕ)
decode_argv zero buf pos = ok ([], pos)
decode_argv (suc argc) buf pos = do
  (len, pos1) ← take4 buf pos
  end ← ok_or (checked_add pos1 len) truncated
  arg ← ok_or (slice buf pos1 end) truncated
  (argv, last) ← decode_argv argc buf end
  ok (arg ∷ argv, last)

unfoldable pub decode_request : List ℕ → Result ProtoError Request
decode_request buf = do
  refuse_if (ltb max_request (length buf)) too_large
  (flags, pos1) ← take4 buf 0
  refuse_if (has_unknown_flags flags) bad_flags
  (argc, pos2) ← take4 buf pos1
  refuse_if (argc == 0 || ltb (max_request / 4) argc) bad_count
  (argv, pos) ← decode_argv argc buf pos2
  refuse_if (not (pos == length buf)) truncated
  ok (record { flags = flags; argv = argv })

-- `to_le_bytes`, and `from_le_bytes` on an array of four bytes.
unfoldable pub encode_status : ℕ → List ℕ
encode_status status = u32_to_bytes little status

unfoldable pub decode_status : List ℕ → ℕ
decode_status b = u32_of_slice little b
