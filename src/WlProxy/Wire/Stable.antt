-- ===== src/WlProxy/Wire/Stable.antt =====
-- crates/bubbler-wl-proxy/src/wire.rs: reading a stream. `decode` asks for more bytes until it can
-- answer, and its answer then stands.
use bubbler.Prelude.{
  ℕ, ◌<◌, ◌≡◌, ◌≢◌, List, ◌++◌, length, slice, Endian, err, slice-append_more, slice-none,
  Option-cases, Result-cases, inl, inr,
}
use bubbler.WlProxy.Tables.{ArgKind}
use bubbler.WlProxy.Wire.{need_more, decode_header, decode}

-- A buffer shorter than a header asks for more.
pub decode_short :
    (order : Endian) (buf : List ℕ) (sig : List ArgKind)
    → length buf < 8
    → decode order buf sig ≡ err need_more
unfolding decode decode_header
decode_short order buf sig h = rw (slice-none buf 0 8 h)

decode_header-append :
    (order : Endian) (buf more : List ℕ)
    → decode_header order buf ≢ err need_more
    → decode_header order (buf ++ more) ≡ decode_header order buf
unfolding decode_header
decode_header-append order buf more h = elim (Option-cases (slice buf 0 8)) [
  | inl e ↦ absurd (h (rw e))
  | inr (head, e) ↦ rw (e, slice-append_more buf more 0 8 e)
]

-- An answer other than "read more" does not change when more bytes arrive behind the message.
pub decode-append :
    (order : Endian) (buf more : List ℕ) (sig : List ArgKind)
    → decode order buf sig ≢ err need_more
    → decode order (buf ++ more) sig ≡ decode order buf sig
unfolding decode
decode-append order buf more sig h = elim (Result-cases (decode_header order buf)) [
  | inr (x, e) ↦ rw (decode_header-append order buf more (λ p. h (rw p)), e)
  | inl (header, e) ↦ elim (Option-cases (slice buf 8 header.size)) [
    | inl e' ↦ absurd (h (rw (e, e')))
    | inr (body, e') ↦ rw (
      decode_header-append order buf more (λ p. h (rw p)),
      e,
      e',
      slice-append_more buf more 8 header.size e',
    )
  ]
]
