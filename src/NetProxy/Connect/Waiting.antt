-- ===== src/NetProxy/Connect/Waiting.antt =====
-- crates/bubbler-net-proxy/src/connect.rs: how long a request may stay incomplete.
use bubbler.Prelude.{
  ℕ, zero, suc, ◌+◌, ◌-◌, ◌≡◌, ◌≢◌, ◌≤◌, ◌<◌, inl, inr, refl, Bool, true, false, Option, none, some,
  List, length, length-drop, drop, Result, ok, err, ◌>>=◌, ◌>>◌, refuse_if, ltb, leb, ◌==◌,
  if◌then◌else◌, not, arith, Bool-cases,
}
use bubbler.NetProxy.Connect.{
  max_request_line, max_headers, max_header_count, Status, incomplete, bad_request, uri_too_long,
  line_at, split_line, target_of, request_line, field, header_line, headers, parse,
}

-- A result that asks for more bytes only where `P` holds.
abbrev AsksOnlyIf {ℓ} : Type 0 → {A : Type ℓ} → Result Status A → Type ℓ
AsksOnlyIf P r = r ≡ err incomplete → P

module _ (P : Type 0) where
  >>=-AsksOnlyIf {ℓ κ} :
      {A : Type ℓ} {B : Type κ} (r : Result Status A) (f : A → Result Status B)
      → AsksOnlyIf P r
      → ((a : A) → r ≡ ok a → AsksOnlyIf P (f a))
      → AsksOnlyIf P (r >>= f)
  >>=-AsksOnlyIf (ok a) f h k e = k a refl e
  >>=-AsksOnlyIf (err s) f h k e = h (cc)

  refuse_if-AsksOnlyIf {κ} :
      {B : Type κ} (t : Bool) (s : Status) (r : Result Status B)
      → s ≢ incomplete
      → (t ≡ false → AsksOnlyIf P r)
      → AsksOnlyIf P (refuse_if t s >> r)
  refuse_if-AsksOnlyIf true s r n h e = absurd (n (cc))
  refuse_if-AsksOnlyIf false s r n h e = h refl e

  if-AsksOnlyIf {ℓ} :
      {A : Type ℓ} (b : Bool) (r s : Result Status A)
      → AsksOnlyIf P r
      → AsksOnlyIf P s
      → AsksOnlyIf P (if b then r else s)
  if-AsksOnlyIf true r s h k = h
  if-AsksOnlyIf false r s h k = k

  ok-AsksOnlyIf {ℓ} : {A : Type ℓ} (a : A) → AsksOnlyIf P (ok a)
  ok-AsksOnlyIf a e = cc

bad_request-ne : bad_request ≢ incomplete
bad_request-ne e = ground arith

uri_too_long-ne : uri_too_long ≢ incomplete
uri_too_long-ne e = ground arith

target_of-ne : (target : List ℕ) → target_of target ≢ err incomplete
unfolding target_of
target_of-ne target h = ground arith

request_line-ne : (line : List ℕ) → request_line line ≢ err incomplete
unfolding request_line
request_line-ne line h = grind (arith, target_of-ne)

field-ne : (line : List ℕ) → field line ≢ err incomplete
unfolding field
field-ne line h = ground arith

line_at-AsksOnlyIf :
    (o : Option ℕ) (rest : List ℕ) (from window : ℕ) (over : Status)
    → over ≢ incomplete
    → AsksOnlyIf (length rest ≤ window) (line_at o rest from window over)
unfolding line_at
line_at-AsksOnlyIf (some at) rest from window over n h = cc
line_at-AsksOnlyIf none rest from window over n h = elim (Bool-cases (ltb window (length rest))) [
  | inr e ↦ ground arith
  | inl e ↦
      let refused : ◌≡◌ {A = Result Status (List ℕ × ℕ)} (err over) (err incomplete) = rw e at h in
      absurd (n (cc))
]

split_line-AsksOnlyIf :
    (buf : List ℕ) (from window : ℕ) (over : Status)
    → over ≢ incomplete
    → AsksOnlyIf (length buf ≤ from + window) (split_line buf from window over)
unfolding split_line
split_line-AsksOnlyIf buf from window over n h =
    omega (arith, line_at-AsksOnlyIf _ (drop from buf) from window over n h, length-drop from buf)

header_line-AsksOnlyIf :
    (buf : List ℕ) (at : ℕ) → AsksOnlyIf (length buf ≤ max_headers) (header_line buf at)
unfolding header_line
header_line-AsksOnlyIf buf at =
    refuse_if-AsksOnlyIf (length buf ≤ max_headers) (leb max_headers at) _ _ bad_request-ne
      (λ room asks.
        let short =
          split_line-AsksOnlyIf buf at (max_headers - at) bad_request bad_request-ne asks in
        ground arith)

headers-AsksOnlyIf :
    (left : ℕ) (buf : List ℕ) (at hosts : ℕ)
    → AsksOnlyIf (length buf ≤ max_headers) (headers left buf at hosts)
unfolding headers
headers-AsksOnlyIf zero buf at hosts =
    >>=-AsksOnlyIf _ (header_line buf at) _ (header_line-AsksOnlyIf buf at) (λ l e.
      if-AsksOnlyIf _ (length l.0 == 0) _ _ (ok-AsksOnlyIf _ _)
        (λ asks. absurd (bad_request-ne (cc))))
headers-AsksOnlyIf (suc left) buf at hosts =
    >>=-AsksOnlyIf _ (header_line buf at) _ (header_line-AsksOnlyIf buf at) (λ l e.
      if-AsksOnlyIf _ (length l.0 == 0) _ _ (ok-AsksOnlyIf _ _) (
        >>=-AsksOnlyIf _ (field l.0) _ (λ asks. absurd (field-ne l.0 asks))
          (λ is_host e'. headers-AsksOnlyIf left buf l.1 (if is_host then hosts + 1 else hosts))))

-- Once more than 8192 bytes are there, the answer is a request or a refusal, whatever the bytes are: the
-- reader does not ask for more.
pub parse-settles : (buf : List ℕ) → max_headers < length buf → parse buf ≢ err incomplete
unfolding parse
parse-settles buf long asks =
    let short : length buf ≤ max_headers =
      >>=-AsksOnlyIf _ (split_line buf 0 max_request_line uri_too_long) _
        (λ e.
          omega
            (arith, split_line-AsksOnlyIf buf 0 max_request_line uri_too_long uri_too_long-ne e))
        (λ l e1.
          >>=-AsksOnlyIf _ (request_line l.0) _ (λ asks. absurd (request_line-ne l.0 asks))
            (λ target e2.
              >>=-AsksOnlyIf _ (headers max_header_count buf l.1 0) _
                (headers-AsksOnlyIf max_header_count buf l.1 0)
                (λ found e3.
                  refuse_if-AsksOnlyIf _ (not (found.1 == 1)) bad_request
                    (ok (record { host = target.0; port = target.1; consumed = found.0 }))
                    bad_request-ne (λ e4. ok-AsksOnlyIf _ _))))
        asks in
    omega arith
