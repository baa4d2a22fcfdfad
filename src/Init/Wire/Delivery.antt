-- ===== src/Init/Wire/Delivery.antt =====
-- crates/bubbler-init/src/wire.rs: what is sent is received, in whatever pieces it arrives.
use bubbler.Prelude.{
  ℕ, ◌+◌, ◌%◌, ◌^◌, ◌≡◌, ◌≢◌, ◌≤◌, ◌<◌, refl, sym, ap, ◌∙◌, true, false, some, List, [], ◌∷◌, ◌++◌,
  map, append-nil, append_assoc, length, length-append, All, ok, ltb, le→not-ltb, ◌==◌, arith,
  little, u32_to_bytes, u32_of_slice, u32_of_slice-u32_to_bytes, length-u32_to_bytes,
}
use bubbler.Init.Proto.{as_u32, encode_request, max_request}
use bubbler.Init.Proto.RoundTrip.{decode_request-encode_request}
use bubbler.Init.Wire.{
  Incoming, Answer, received, answered, new, accept_prefix, read_prefix, read_payload, read_for,
  read_some, is_whole, finish, finish_with, read_step, of_io, of_proto, read_exact_by, send_request,
  recv_payload, recv_request,
}

abbrev pub concat : List (List ℕ) → List ℕ
concat [] = []
concat (piece ∷ pieces) = piece ++ concat pieces

-- The answers of a socket on which these pieces arrive.
abbrev pub arriving : List (List ℕ) → List Answer
arriving [] = []
arriving (piece ∷ pieces) = received piece [] ∷ arriving pieces

some_bytes : (piece : List ℕ) → piece ≢ [] → 0 < length piece
some_bytes [] h = absurd (h refl)
some_bytes (b ∷ piece) h = omega arith

read_exact_by-pieces :
    (pieces : List (List ℕ)) (n : ℕ) (buf : List ℕ)
    → All (λ p. p ≢ []) pieces
    → n ≡ length buf + length (concat pieces)
    → read_exact_by (map answered (arriving pieces)) n buf ≡ ok (buf ++ concat pieces)
unfolding read_exact_by
read_exact_by-pieces [] n buf filled e =
    let whole : ltb (length buf) n ≡ false = ground arith in rw (whole, append-nil buf) refl
read_exact_by-pieces (piece ∷ pieces) n buf filled e =
    let some_left : 0 < length piece = some_bytes piece filled.0 in
    let longer : n ≡ length (buf ++ piece) + length (concat pieces) =
      rw (length-append buf piece) (omega (arith, e, length-append piece (concat pieces))) in
    let part : ltb (length buf) n ≡ true = ground (arith, length-append piece (concat pieces)) in
    let not_empty : (length piece == 0) ≡ false = ground arith in
    rw (part, not_empty)
      (read_exact_by-pieces pieces n (buf ++ piece) filled.1 longer
        ∙ ap (λ t. ok t) (append_assoc buf piece (concat pieces)))

-- A connection that has its prefix.
abbrev held : List ℕ → ℕ → List ℕ → List ℕ → Incoming
held prefix n payload fds = record { prefix = prefix; want = some n; payload = payload; fds = fds }

reads_piece :
    (piece prefix : List ℕ) (n : ℕ) (payload fds : List ℕ)
    → piece ≢ []
    → read_some (held prefix n payload fds) (received piece [])
      ≡ (held prefix n (payload ++ piece) fds, ok true)
unfolding read_some read_for read_payload
reads_piece piece prefix n payload fds h =
    let some_left : 0 < length piece = some_bytes piece h in
    let not_empty : (length piece == 0) ≡ false = ground arith in rw not_empty refl

-- A read that moves on.
moves :
    (answer : Answer) (answers : List Answer) (inc inc' : Incoming)
    → is_whole inc ≡ false
    → read_some inc answer ≡ (inc', ok true)
    → read_step (answer ∷ answers) inc ≡ read_step answers inc'
unfolding read_step
moves answer answers inc inc' part e =
    rw (part, ap (λ r. r.1) e) (ap (λ r. read_step answers r.0) e)

read_step-pieces :
    (pieces : List (List ℕ)) (prefix : List ℕ) (n : ℕ) (payload fds : List ℕ)
    → All (λ p. p ≢ []) pieces
    → n ≡ length payload + length (concat pieces)
    → read_step (arriving pieces) (held prefix n payload fds)
      ≡ finish (held prefix n (payload ++ concat pieces) fds)
unfolding read_step is_whole
read_step-pieces [] prefix n payload fds filled e =
    let whole : ltb (length payload) n ≡ false = ground arith in rw (whole, append-nil payload) refl
read_step-pieces (piece ∷ pieces) prefix n payload fds filled e =
    let some_left : 0 < length piece = some_bytes piece filled.0 in
    let longer : n ≡ length (payload ++ piece) + length (concat pieces) =
      rw (length-append payload piece) (omega (arith, e, length-append piece (concat pieces))) in
    let part : ltb (length payload) n ≡ true =
      ground (arith, length-append piece (concat pieces)) in
    moves (received piece []) (arriving pieces) (held prefix n payload fds)
      (held prefix n (payload ++ piece) fds) (rw part refl)
      (reads_piece piece prefix n payload fds filled.0)
    ∙ read_step-pieces pieces prefix n (payload ++ piece) fds filled.1 longer
    ∙ ap (λ t. finish (held prefix n t fds)) (append_assoc payload piece (concat pieces))

module _ (argv : List (List ℕ)) (flags : ℕ) (fds : List ℕ) (some_arg : argv ≢ [])
    (known : flags < 2) (small : length (encode_request argv flags) ≤ max_request)
    (three : length fds ≡ 3) where
  abbrev payload : List ℕ
  payload = encode_request argv flags

  abbrev prefix : List ℕ
  prefix = u32_to_bytes little (as_u32 (length payload))

  short : length payload % 2 ^ 32 ≡ length payload
  short = omega arith

  prefix_read : u32_of_slice little prefix ≡ length payload
  unfolding as_u32
  prefix_read = u32_of_slice-u32_to_bytes little (as_u32 (length payload)) (omega arith) ∙ short

  sends : send_request argv flags fds (ok 4) (ok tt) ≡ ok ((prefix, fds) ∷ (payload, []) ∷ [])
  unfolding send_request of_io
  sends = rw (le→not-ltb max_request (length payload) small) refl

  module _ (pieces : List (List ℕ)) (filled : All (λ p. p ≢ []) pieces)
      (all_there : concat pieces ≡ payload) where
    receives :
        recv_request (answered (received prefix fds) ∷ map answered (arriving pieces))
        ≡ ok (record { flags = flags; argv = argv }, fds)
    unfolding recv_request recv_payload of_proto
    receives =
        let four : (length prefix == 4) ≡ true =
          rw (length-u32_to_bytes little (as_u32 (length payload))) refl in
        let fits : ltb max_request (length payload) ≡ false =
          le→not-ltb max_request (length payload) small in
        let came =
          read_exact_by-pieces pieces (length payload) [] filled
            (ap length (sym all_there) ∙ omega arith) in
        rw
          (
            four,
            three,
            prefix_read,
            fits,
            came,
            all_there,
            decode_request-encode_request argv flags some_arg known small,
          )
          refl

    first : read_some new (received prefix fds) ≡ (held prefix (length payload) [] fds, ok true)
    unfolding read_some read_for read_prefix accept_prefix new
    first =
        let four : length prefix ≡ 4 = length-u32_to_bytes little (as_u32 (length payload)) in
        let fits : ltb max_request (length payload) ≡ false =
          le→not-ltb max_request (length payload) small in
        rw (four, three, prefix_read, fits) refl

    steps :
        (read_step (received prefix fds ∷ arriving pieces) new).1
        ≡ ok (some (record { flags = flags; argv = argv }, fds))
    unfolding read_step is_whole new finish finish_with
    steps =
        let came =
          read_step-pieces pieces prefix (length payload) [] fds filled
            (ap length (sym all_there) ∙ omega arith) in
        rw
          (
            moves (received prefix fds) (arriving pieces) new (held prefix (length payload) [] fds)
                refl first,
            came,
            all_there,
            decode_request-encode_request argv flags some_arg known small,
          )
          refl

-- A request with an argument, no unknown flag, an encoding within the bound and three descriptors is sent as a
-- prefix with the descriptors and then its encoding; and where the prefix arrives whole, as it is sent, and then
-- that encoding in pieces, none of which is empty, both readers hand over that very request with those descriptors.
pub recv_request-send_request :
    (argv : List (List ℕ)) (flags : ℕ) (fds : List ℕ) (pieces : List (List ℕ))
    → argv ≢ []
    → flags < 2
    → length (encode_request argv flags) ≤ max_request
    → length fds ≡ 3
    → All (λ p. p ≢ []) pieces
    → concat pieces ≡ encode_request argv flags
    → (prefix : List ℕ) × (send_request argv flags fds (ok 4) (ok tt)
        ≡ ok ((prefix, fds) ∷ (concat pieces, []) ∷ []))
      × (recv_request (answered (received prefix fds) ∷ map answered (arriving pieces))
          ≡ ok (record { flags = flags; argv = argv }, fds))
      × ((read_step (received prefix fds ∷ arriving pieces) new).1
          ≡ ok (some (record { flags = flags; argv = argv }, fds)))
recv_request-send_request argv flags fds pieces some_arg known small three filled all_there = (
  prefix argv flags fds some_arg known small three,
  rw all_there (sends argv flags fds some_arg known small three),
  receives argv flags fds some_arg known small three pieces filled all_there,
  steps argv flags fds some_arg known small three pieces filled all_there,
)
