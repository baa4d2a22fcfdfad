-- ===== src/Init/Proto/RoundTrip.antt =====
-- crates/bubbler-init/src/proto.rs: a request that is written is read back.
use bubbler.Prelude.{
  ℕ, ◌+◌, ◌*◌, ◌/◌, ◌≡◌, ◌≢◌, ◌≤◌, ◌<◌, ◌⊎◌, inl, inr, refl, ap, ◌∙◌, true, false, List, [], ◌∷◌,
  ◌++◌, length, slice, little, ok, some, IsU32, u32_to_bytes, arith, append_assoc, append-nil,
  length-append, slice-append, length-u32_to_bytes, u32_of_slice-u32_to_bytes, checked_add-some,
  le→not-ltb, ◌==◌, ==_refl,
}
use bubbler.Init.Proto.{
  max_request, as_u32, encode_argv, encode_request, take4, decode_argv, decode_request,
  has_unknown_flags,
}

-- A part in the middle of a buffer ends inside it.
middle :
    (buf pre part post : List ℕ)
    → buf ≡ pre ++ (part ++ post)
    → length pre + length part ≤ length buf
middle buf pre part post e =
    omega (arith, ap length e, length-append pre (part ++ post), length-append part post)

-- A word in the middle of a buffer.
take4-read :
    (buf pre post : List ℕ) (v pos : ℕ)
    → buf ≡ pre ++ (u32_to_bytes little v ++ post)
    → pos ≡ length pre
    → IsU32 v
    → length buf ≤ max_request
    → take4 buf pos ≡ ok (v, pos + 4)
unfolding take4
take4-read buf pre post v pos e at h small = rw (
  checked_add-some pos 4 (omega (arith, middle buf pre (u32_to_bytes little v) post e)),
  e,
  slice-append pre (u32_to_bytes little v) post pos (pos + 4) at
      (omega (arith, length-u32_to_bytes little v)),
  u32_of_slice-u32_to_bytes little v h,
)

as_u32_small : (n : ℕ) → n ≤ max_request → as_u32 n ≡ n
unfolding as_u32
as_u32_small n h = omega arith

decode_argv-read :
    (argv : List (List ℕ)) (buf pre post : List ℕ) (pos : ℕ)
    → buf ≡ pre ++ (encode_argv argv ++ post)
    → pos ≡ length pre
    → length buf ≤ max_request
    → decode_argv (length argv) buf pos ≡ ok (argv, pos + length (encode_argv argv))
unfolding decode_argv encode_argv
decode_argv-read [] buf pre post pos e at small = ap (λ n. ok ([], n)) (omega arith)
decode_argv-read (arg ∷ argv) buf pre post pos e at small =
    rw
      (
        read,
        as_u32_small (length arg) (omega (arith, fits)),
        checked_add-some (pos + 4) (length arg) (omega (arith, fits)),
        cut,
        decode_argv-read argv buf ((pre ++ word) ++ arg) post (pos + 4 + length arg) at_rest
            pos_rest small,
      )
      (ap (λ n. ok (arg ∷ argv, n)) total)
  where
    word : List ℕ
    word = u32_to_bytes little (as_u32 (length arg))

    four : length word ≡ 4
    four = length-u32_to_bytes little _

    at_word : buf ≡ pre ++ (word ++ (arg ++ (encode_argv argv ++ post)))
    at_word = e ∙ simp append_assoc

    at_arg : buf ≡ (pre ++ word) ++ (arg ++ (encode_argv argv ++ post))
    at_arg = at_word ∙ simp append_assoc

    at_rest : buf ≡ ((pre ++ word) ++ arg) ++ (encode_argv argv ++ post)
    at_rest = at_word ∙ simp append_assoc

    fits : pos + 4 + length arg ≤ max_request
    fits = omega (arith, middle buf (pre ++ word) arg _ at_arg, length-append pre word, four)

    pos_arg : pos + 4 ≡ length (pre ++ word)
    pos_arg = omega (arith, length-append pre word, four)

    pos_rest : pos + 4 + length arg ≡ length ((pre ++ word) ++ arg)
    pos_rest = omega (arith, length-append (pre ++ word) arg, pos_arg)

    read : take4 buf pos ≡ ok (as_u32 (length arg), pos + 4)
    read = take4-read buf pre _ _ pos at_word at (unfold as_u32 in omega arith) small

    cut : slice buf (pos + 4) (pos + 4 + length arg) ≡ some arg
    cut =
        ap (λ b. slice b (pos + 4) (pos + 4 + length arg)) at_arg
        ∙ slice-append (pre ++ word) arg _ _ _ pos_arg refl

    total :
        pos + 4 + length arg + length (encode_argv argv)
        ≡ pos + length (u32_to_bytes little (length arg) ++ (arg ++ encode_argv argv))
    total = omega (
      arith,
      length-append (u32_to_bytes little (length arg)) (arg ++ encode_argv argv),
      length-append arg (encode_argv argv),
      length-u32_to_bytes little (length arg),
    )

argv_cases :
    (argv : List (List ℕ))
    → (argv ≡ []) ⊎ ((arg : List ℕ) × (more : List (List ℕ)) × (argv ≡ arg ∷ more))
argv_cases [] = inl refl
argv_cases (arg ∷ more) = inr (arg, more, refl)

-- Each argument takes at least the four bytes of its length.
length-encode_argv : (argv : List (List ℕ)) → 4 * length argv ≤ length (encode_argv argv)
unfolding encode_argv
length-encode_argv [] = omega arith
length-encode_argv (arg ∷ argv) = omega (
  arith,
  length-append (u32_to_bytes little (as_u32 (length arg))) (arg ++ encode_argv argv),
  length-append arg (encode_argv argv),
  length-u32_to_bytes little (as_u32 (length arg)),
  length-encode_argv argv,
)

-- A request with at least one argument and no unknown flag, whose encoding is within the bound, is
-- decoded to the same flags and the same arguments, byte for byte.
pub decode_request-encode_request :
    (argv : List (List ℕ)) (flags : ℕ)
    → argv ≢ []
    → flags < 2
    → length (encode_request argv flags) ≤ max_request
    → decode_request (encode_request argv flags) ≡ ok (record { flags = flags; argv = argv })
unfolding decode_request
decode_request-encode_request argv flags some_arg known small =
    rw
      (
        le→not-ltb max_request (length buf) small,
        take4-read buf [] (count ++ encode_argv argv) flags 0 (unfold encode_request in refl) refl
            (omega arith) small,
        known_flags,
        take4-read buf first (encode_argv argv) (as_u32 (length argv)) 4
            (unfold encode_request in refl) (omega (arith, four_flags))
            (unfold as_u32 in omega arith) small,
        as_u32_small (length argv) (omega (arith, few)),
        positive,
        le→not-ltb (max_request / 4) (length argv) (omega (arith, few)),
        decode_argv-read argv buf (first ++ count) [] 8 whole
            (omega (arith, length-append first count, four_flags, four_count)) small,
        whole_read,
      )
      refl
  where
    buf : List ℕ
    buf = encode_request argv flags

    first : List ℕ
    first = u32_to_bytes little flags

    count : List ℕ
    count = u32_to_bytes little (as_u32 (length argv))

    four_flags : length first ≡ 4
    four_flags = length-u32_to_bytes little _

    four_count : length count ≡ 4
    four_count = length-u32_to_bytes little _

    whole : buf ≡ (first ++ count) ++ (encode_argv argv ++ [])
    whole = unfold encode_request in simp (append_assoc, append-nil)

    size : length buf ≡ 8 + length (encode_argv argv)
    size = omega (
      arith,
      ap length whole,
      length-append (first ++ count) (encode_argv argv ++ []),
      length-append (encode_argv argv) [],
      length-append first count,
      four_flags,
      four_count,
    )

    whole_read : (8 + length (encode_argv argv) == length (encode_request argv flags)) ≡ true
    whole_read = rw (size) (==_refl (8 + length (encode_argv argv)))

    few : 4 * length argv + 8 ≤ max_request
    few = omega (arith, size, length-encode_argv argv)

    known_flags : has_unknown_flags flags ≡ false
    known_flags = unfold has_unknown_flags in ground arith

    positive : (length argv == 0) ≡ false
    positive = elim (argv_cases argv) [
      | inl e ↦ absurd (some_arg e)
      | inr (arg, rest, e) ↦ rw (e) (ground arith)
    ]
