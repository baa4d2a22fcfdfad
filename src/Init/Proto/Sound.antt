-- ===== src/Init/Proto/Sound.antt =====
-- crates/bubbler-init/src/proto.rs: a request that is accepted has one encoding, the bytes that were read.
use bubbler.Prelude.{
  ℕ, zero, suc, ◌+◌, ◌-◌, ◌*◌, ◌/◌, ◌%◌, ◌^◌, ◌≡◌, ◌≢◌, ◌≤◌, ◌<◌, refl, sym, ap, ◌∙◌, false, List,
  [], ◌∷◌, ◌++◌, length, slice, drop, little, Result, ok, IsByte, All, All-take, All-drop,
  u32_of_slice, u32_to_bytes, u32_from_bytes, checked_add, arith, append_assoc, append-nil,
  slice_bounds, slice-drop, drop_all, bind_ok_or_inv, bind_refuse_if_inv, >>=-eq-ok,
  ok_pair-injective, ltb, ◌==◌, not, ◌||◌,
}
use mathlib.Core.Path.{subst}
use bubbler.Init.Proto.{
  max_request, Request, ProtoError, as_u32, encode_argv, encode_request, take4, decode_argv,
  decode_request, has_unknown_flags,
}

word_bytes :
    (s : List ℕ) → length s ≡ 4 → All IsByte s → u32_to_bytes little (u32_of_slice little s) ≡ s
unfolding u32_to_bytes u32_of_slice u32_from_bytes
word_bytes (a ∷ b ∷ c ∷ d ∷ []) h (p, (q, (r, (t, u)))) =
    let v = a + b * 2 ^ 8 + c * 2 ^ 16 + d * 2 ^ 24 in
    let first : v % 256 ≡ a = omega arith in
    let second : v / 2 ^ 8 % 256 ≡ b = omega arith in
    let third : v / 2 ^ 16 % 256 ≡ c = omega arith in
    let fourth : v / 2 ^ 24 % 256 ≡ d = omega arith in cc (first, second, third, fourth)
word_bytes _ h u = absurd (omega arith)

take4_inv :
    (buf : List ℕ) (pos v past : ℕ)
    → All IsByte buf
    → take4 buf pos ≡ ok (v, past)
    → (past ≡ pos + 4)
      × (past ≤ length buf)
      × (drop pos buf ≡ u32_to_bytes little v ++ drop past buf)
unfolding take4 checked_add
take4_inv buf pos v past bytes h =
    let (end, e1, h1) = bind_ok_or_inv (checked_add pos 4) _ _ h in
    let (word, e2, h2) = bind_ok_or_inv (slice buf pos end) _ _ h1 in
    let s = slice_bounds buf pos end e2 in
    let next : end ≡ pos + 4 = ground arith in
    let same : (v ≡ u32_of_slice little word) × (past ≡ end) = (cc, cc) in
    let clean : All IsByte word =
      rw (s.3) (All-take IsByte (end - pos) (drop pos buf) (All-drop IsByte pos buf bytes)) in
    (
      omega arith,
      omega arith,
      rw (same.0, same.1, word_bytes word (omega arith) clean) (slice-drop buf pos end e2),
    )

arg_parts :
    (buf arg : List ℕ) (more : List (List ℕ)) (len pos pos1 end last : ℕ)
    → drop pos buf ≡ u32_to_bytes little len ++ drop pos1 buf
    → drop pos1 buf ≡ arg ++ drop end buf
    → drop end buf ≡ encode_argv more ++ drop last buf
    → as_u32 (length arg) ≡ len
    → drop pos buf ≡ encode_argv (arg ∷ more) ++ drop last buf
unfolding encode_argv
arg_parts buf arg more len pos pos1 end last a b c e = rw (a, b, c, e) (simp append_assoc)

decode_argv_inv :
    (argc : ℕ) (buf : List ℕ) (pos : ℕ) (argv : List (List ℕ)) (last : ℕ)
    → All IsByte buf
    → length buf ≤ max_request
    → decode_argv argc buf pos ≡ ok (argv, last)
    → (length argv ≡ argc) × (drop pos buf ≡ encode_argv argv ++ drop last buf)
unfolding decode_argv encode_argv
decode_argv_inv zero buf pos argv last bytes small h =
    let same : (argv ≡ []) × (last ≡ pos) = (cc, cc) in rw (same.0, same.1) (refl, refl)
decode_argv_inv (suc argc) buf pos argv last bytes small h =
    let ((len, pos1), e1, h1) = >>=-eq-ok (take4 buf pos) _ h in
    let (end, e2, h2) = bind_ok_or_inv (checked_add pos1 len) _ _ h1 in
    let (arg, e3, h3) = bind_ok_or_inv (slice buf pos1 end) _ _ h2 in
    let ((more, last1), e4, h4) = >>=-eq-ok (decode_argv argc buf end) _ h3 in
    let word = take4_inv buf pos len pos1 bytes e1 in
    let s = slice_bounds buf pos1 end e3 in
    let (count, behind) = decode_argv_inv argc buf end more last1 bytes small e4 in
    let next : end ≡ pos1 + len = unfold checked_add in ground arith in
    let len_arg : as_u32 (length arg) ≡ len = unfold as_u32 in omega arith in
    let same = ok_pair-injective (arg ∷ more) argv last1 last h4 in
    subst (λ a. (length a ≡ suc argc) × (drop pos buf ≡ encode_argv a ++ drop last buf)) same.0
      (
        ap suc count,
        arg_parts buf arg more len pos pos1 end last word.2 (slice-drop buf pos1 end e3)
            (subst (λ l. drop end buf ≡ encode_argv more ++ drop l buf) same.1 behind) len_arg,
      )

within_inv : (buf : List ℕ) → ltb max_request (length buf) ≡ false → length buf ≤ max_request
within_inv buf h = ground arith

count_inv :
    (argc : ℕ)
    → (argc == 0 || ltb (max_request / 4) argc) ≡ false
    → (0 < argc) × (argc ≤ max_request / 4)
count_inv argc h = ground arith

flags_inv : (flags : ℕ) → has_unknown_flags flags ≡ false → flags < 2
unfolding has_unknown_flags
flags_inv flags h = ground arith

end_inv : (a b : ℕ) → not (a == b) ≡ false → a ≡ b
end_inv a b h = ground arith

argv_some : (argv : List (List ℕ)) → 0 < length argv → argv ≢ []
argv_some argv h e = omega (arith, h, ap length e)

as_u32_few : (n argc : ℕ) → n ≡ argc → argc ≤ max_request / 4 → as_u32 n ≡ argc
unfolding as_u32
as_u32_few n argc e h = omega arith

-- The parts of a buffer that was read to its end.
parts :
    (buf : List ℕ) (flags argc pos1 pos2 : ℕ) (argv : List (List ℕ))
    → buf ≡ u32_to_bytes little flags ++ drop pos1 buf
    → drop pos1 buf ≡ u32_to_bytes little argc ++ drop pos2 buf
    → drop pos2 buf ≡ encode_argv argv ++ drop (length buf) buf
    → as_u32 (length argv) ≡ argc
    → encode_request argv flags ≡ buf
unfolding encode_request
parts buf flags argc pos1 pos2 argv a b c e =
    let tail : drop pos2 buf ≡ encode_argv argv =
      c
      ∙ (ap (λ rest. encode_argv argv ++ rest) (drop_all (length buf) buf (omega arith))
          ∙ append-nil (encode_argv argv)) in
    rw (e) (
      sym (
        a
        ∙ ap (λ rest. u32_to_bytes little flags ++ rest)
            (b ∙ ap (λ rest. u32_to_bytes little argc ++ rest) tail)))

-- What is so of every request that is accepted.
abbrev pub IsSound : List ℕ → Request → Type 0
IsSound buf request =
    (request.argv ≢ [])
    × (request.flags < 2)
    × (length buf ≤ max_request)
    × (encode_request request.argv request.flags ≡ buf)

ok-injective : (a b : Request) → ◌≡◌ {A = Result ProtoError Request} (ok a) (ok b) → a ≡ b
ok-injective a b h = cc

-- A request of bytes that is accepted has at least one argument, no unknown flag, a length within the
-- bound, and encodes to the very bytes that were read.
pub decode_request-IsSound :
    (buf : List ℕ) (request : Request)
    → All IsByte buf
    → decode_request buf ≡ ok request
    → IsSound buf request
unfolding decode_request
decode_request-IsSound buf request bytes h =
    let (fits, h1) = bind_refuse_if_inv (ltb max_request (length buf)) _ _ h in
    let ((flags, pos1), e1, h2) = >>=-eq-ok (take4 buf 0) _ h1 in
    let (known, h3) = bind_refuse_if_inv (has_unknown_flags flags) _ _ h2 in
    let ((argc, pos2), e2, h4) = >>=-eq-ok (take4 buf pos1) _ h3 in
    let (counted, h5) = bind_refuse_if_inv (argc == 0 || ltb (max_request / 4) argc) _ _ h4 in
    let ((argv, last), e3, h6) = >>=-eq-ok (decode_argv argc buf pos2) _ h5 in
    let (whole, h7) = bind_refuse_if_inv (not (last == length buf)) _ _ h6 in
    let first = take4_inv buf 0 flags pos1 bytes e1 in
    let second = take4_inv buf pos1 argc pos2 bytes e2 in
    let small = within_inv buf fits in
    let (count, behind) = decode_argv_inv argc buf pos2 argv last bytes small e3 in
    let (positive, few) = count_inv argc counted in
    subst (IsSound buf) (ok-injective _ request h7) (
      argv_some argv (omega (arith, count, positive)),
      flags_inv flags known,
      small,
      parts buf flags argc pos1 pos2 argv first.2 second.2
          (subst (λ n. drop pos2 buf ≡ encode_argv argv ++ drop n buf)
            (end_inv last (length buf) whole) behind)
          (as_u32_few (length argv) argc count few),
    )
