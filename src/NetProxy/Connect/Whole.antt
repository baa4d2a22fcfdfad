-- ===== src/NetProxy/Connect/Whole.antt =====
-- crates/bubbler-net-proxy/src/connect.rs: what a buffer holds that is read as a request.
use bubbler.Prelude.{
  ℕ, zero, suc, ◌+◌, ◌-◌, ◌≡◌, ◌≤◌, ◌<◌, ◌⊎◌, inl, inr, refl, ap, ◌∙◌, Bool, true, false, some,
  List, ◌∷◌, ◌++◌, length, get_elem?, Result, ok, err, >>=-eq-ok, bind_refuse_if_inv,
  ok_pair-injective, leb, ◌==◌, ==_iff, if◌then◌else◌, not, codes, arith,
}
use mathlib.Core.Path.{subst}
use bubbler.NetProxy.Connect.{
  max_request_line, max_headers, max_header_count, Request, Status, bad_request, uri_too_long,
  split_line, request_line, field, header_line, headers, parse,
}
use bubbler.NetProxy.Connect.Arrival.{IsLine, split_line-IsLine}
use bubbler.NetProxy.Connect.Target.{Spells, IsVersion, request_line-Spells}

-- A header block from an offset on: its lines, each with its newline inside the first 8192 bytes, at most
-- `left` fields and then an empty line; how many of the fields are `Host`, and the offset behind it.
pub data Block (buf : List ℕ) : ℕ → ℕ → ℕ → ℕ → Type 0 where
  blank :
      {at left past : ℕ} (line : List ℕ)
      → length line ≡ 0
      → at < max_headers
      → IsLine buf at (max_headers - at) line past
      → Block buf at left 0 past
  another :
      {at left next hosts past : ℕ} (line : List ℕ) (is_host : Bool)
      → at < max_headers
      → IsLine buf at (max_headers - at) line next
      → field line ≡ ok is_host
      → Block buf next left hosts past
      → Block buf at (suc left) ((if is_host then 1 else 0) + hosts) past

header_line-IsLine :
    (buf : List ℕ) (at : ℕ) (line : List ℕ) (next : ℕ)
    → header_line buf at ≡ ok (line, next)
    → (at < max_headers) × IsLine buf at (max_headers - at) line next
unfolding header_line
header_line-IsLine buf at line next h =
    let (room, h1) = bind_refuse_if_inv (leb max_headers at) bad_request _ h in
    (ground arith, split_line-IsLine buf at (max_headers - at) bad_request line next h1)

if_ok_inv {ℓ} :
    {A : Type ℓ} (b : Bool) (x : A) (r : Result Status A) {out : A}
    → (if b then ok x else r) ≡ ok out
    → ((b ≡ true) × (◌≡◌ {A = Result Status A} (ok x) (ok out))) ⊎ ((b ≡ false) × (r ≡ ok out))
if_ok_inv true x r h = inl (refl, h)
if_ok_inv false x r h = inr (refl, h)

-- One field more in the count.
counted :
    (is_host : Bool) (hosts n : ℕ)
    → (if is_host then hosts + 1 else hosts) + n ≡ hosts + ((if is_host then 1 else 0) + n)
counted true hosts n = omega arith
counted false hosts n = omega arith

headers-Block :
    (left : ℕ) (buf : List ℕ) (at hosts past total : ℕ)
    → headers left buf at hosts ≡ ok (past, total)
    → (n : ℕ) × (total ≡ hosts + n) × Block buf at left n past
unfolding headers
headers-Block zero buf at hosts past total h =
    let ((line, next), e, h1) = >>=-eq-ok (header_line buf at) _ h in
    let (room, is_line) = header_line-IsLine buf at line next e in
    elim (if_ok_inv (length line == 0) (next, hosts) (err bad_request) h1) [
      | inr (some_bytes, q) ↦ cc
      | inl (no_bytes, q) ↦
          let (same, same_total) = ok_pair-injective next past hosts total q in
          (
            0,
            omega arith,
            subst (λ p. Block buf at 0 0 p) same
                (blank line ((==_iff (length line) 0).0 no_bytes) room is_line),
          )
    ]
headers-Block (suc left) buf at hosts past total h =
    let ((line, next), e, h1) = >>=-eq-ok (header_line buf at) _ h in
    let (room, is_line) = header_line-IsLine buf at line next e in
    elim (if_ok_inv (length line == 0) (next, hosts) _ h1) [
      | inl (no_bytes, q) ↦
          let (same, same_total) = ok_pair-injective next past hosts total q in
          (
            0,
            omega arith,
            subst (λ p. Block buf at (suc left) 0 p) same
                (blank line ((==_iff (length line) 0).0 no_bytes) room is_line),
          )
      | inr (some_bytes, q) ↦
          let (is_host, e2, h2) = >>=-eq-ok (field line) _ q in
          let (n, sum, block) =
            headers-Block left buf next (if is_host then hosts + 1 else hosts) past total h2 in
          (
            (if is_host then 1 else 0) + n,
            sum ∙ counted is_host hosts n,
            another line is_host room is_line e2 block,
          )
    ]

-- A block ends behind a newline that is in the buffer and in the first 8192 bytes.
Block-bounds :
    {buf : List ℕ} {at left hosts past : ℕ}
    → Block buf at left hosts past
    → (at < past)
      × (past ≤ length buf)
      × (past ≤ max_headers)
      × (get_elem? buf (past - 1) ≡ some 10)
Block-bounds {buf} (blank line none_left room l) = (
  omega (arith, l.behind),
  l.in_buffer,
  omega (arith, l.behind, l.inside),
  ap (get_elem? buf) (omega (arith, l.behind)) ∙ l.newline,
)
Block-bounds (another line is_host room l e block) =
    let (lt, in_buffer, in_bound, newline) = Block-bounds block in
    (omega (arith, l.behind, lt), in_buffer, in_bound, newline)

-- What a buffer is read as: its first line, the target that this line spells, and behind it a header
-- block with exactly one `Host`.
pub record IsRequest (buf : List ℕ) (r : Request) : Type 0 where
  pub line : List ℕ
  pub next : ℕ
  pub first_line : IsLine buf 0 max_request_line line next
  pub target : List ℕ
  pub version : List ℕ
  pub spelled : line ≡ codes "CONNECT " ++ (target ++ (b' ' ∷ version))
  pub known_version : IsVersion version
  pub spells : Spells target r.host r.port
  pub block : Block buf next max_header_count 1 r.consumed
  pub in_buffer : r.consumed ≤ length buf
  pub in_bound : r.consumed ≤ max_headers
  pub newline : get_elem? buf (r.consumed - 1) ≡ some 10

parse_target :
    (buf : List ℕ) (r : Request) (host : List ℕ) (port consumed : ℕ)
    → ◌≡◌ {A = Result Status Request}
        (ok (record { host = host; port = port; consumed = consumed }))
        (ok r)
    → IsRequest buf (record { host = host; port = port; consumed = consumed })
    → IsRequest buf r
parse_target buf r host port consumed e v =
    let same : record { host = host; port = port; consumed = consumed } ≡ r = cc in
    subst (IsRequest buf) same v

one_host : (hosts : ℕ) → not (hosts == 1) ≡ false → hosts ≡ 1
one_host hosts h = ground arith

-- A buffer that is read as a request holds that request: a first line of at most 512 bytes that is the
-- method CONNECT, the target and a version; a host and a port that are spelled by this target and by no
-- header, the host a name of valid labels that is no address, the port from 1 to 65535; and a block of at
-- most 64 fields and an empty line, with exactly one Host, that ends where the request is said to end,
-- behind a newline of the buffer and within its first 8192 bytes.
pub parse-IsRequest : (buf : List ℕ) (r : Request) → parse buf ≡ ok r → IsRequest buf r
unfolding parse
parse-IsRequest buf r h =
    let ((line, next), e1, h1) = >>=-eq-ok (split_line buf 0 max_request_line uri_too_long) _ h in
    let ((host, port), e2, h2) = >>=-eq-ok (request_line line) _ h1 in
    let ((consumed, hosts), e3, h3) = >>=-eq-ok (headers max_header_count buf next 0) _ h2 in
    let (single, h4) = bind_refuse_if_inv (not (hosts == 1)) bad_request _ h3 in
    let (target, version, spelled, known, spells) = request_line-Spells line host port e2 in
    let (n, sum, block) = headers-Block max_header_count buf next 0 consumed hosts e3 in
    let (lt, in_buffer, in_bound, newline) = Block-bounds block in
    let only_one : n ≡ 1 = omega (arith, one_host hosts single) in
    parse_target buf r host port consumed h4 (record {
      line = line;
      next = next;
      first_line = split_line-IsLine buf 0 max_request_line uri_too_long line next e1;
      target = target;
      version = version;
      spelled = spelled;
      known_version = known;
      spells = spells;
      block = subst (λ k. Block buf next max_header_count k consumed) only_one block;
      in_buffer = in_buffer;
      in_bound = in_bound;
      newline = newline;
    })
