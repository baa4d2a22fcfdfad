-- ===== src/NetProxy/Connect/Arrival.antt =====
-- crates/bubbler-net-proxy/src/connect.rs: a request that arrives in pieces. What is read does not depend
-- on the bytes that follow, and the place where the request ends is in the buffer.
use bubbler.Prelude.{
  ℕ, zero, suc, ◌+◌, ◌-◌, ◌≡◌, ◌≢◌, ◌≤◌, ◌<◌, inl, inr, refl, sym, ap, ◌∙◌, Bool, true, false,
  Option, none, some, List, [], ◌∷◌, ◌++◌, length, length-append, length-take, length-drop, take,
  drop, take-append_le, drop-append_le, drop_all, get_elem?, min, Result, ok, err, ◌>>=◌, ◌>>◌,
  refuse_if, ok_pair-injective, ltb, leb, ◌==◌, ==_iff, if◌then◌else◌, arith, Bool-cases,
  Option-cases,
}
use bubbler.NetProxy.Connect.{
  max_request_line, max_headers, max_header_count, Status, incomplete, bad_request, uri_too_long,
  one_on, position, strip_cr, line_at, split_line, request_line, field, header_line, headers, parse,
}

-- A result that is settled: the other result is the same, unless this one asks for more bytes.
abbrev Settled {ℓ} : {A : Type ℓ} → Result Status A → Result Status A → Type ℓ
Settled r s = r ≢ err incomplete → s ≡ r

Settled->>= {ℓ κ} :
    {A : Type ℓ} {B : Type κ} (r s : Result Status A) (f g : A → Result Status B)
    → Settled r s
    → ((a : A) → r ≡ ok a → Settled (f a) (g a))
    → Settled (r >>= f) (s >>= g)
Settled->>= (ok a) s f g h k n = rw (h (λ e. cc)) (k a refl n)
Settled->>= (err e) s f g h k n = rw (h (λ q. n (cc)))

Settled-refuse_if {κ} :
    {B : Type κ} (t : Bool) (e : Status) (r s : Result Status B)
    → (t ≡ false → Settled r s)
    → Settled (refuse_if t e >> r) (refuse_if t e >> s)
Settled-refuse_if true e r s h n = refl
Settled-refuse_if false e r s h n = h refl n

position-append :
    (c : ℕ) (xs ys : List ℕ) {i : ℕ} → position c xs ≡ some i → position c (xs ++ ys) ≡ some i
unfolding position
position-append c [] ys h = cc
position-append c (x ∷ xs) ys {i} h = elim (Bool-cases (x == c)) [
  | inl e ↦ rw (e) (rw e at h)
  | inr e ↦ elim (Option-cases (position c xs)) [
    | inl none_there ↦ unfold one_on in cc (rw (e, none_there) at h)
    | inr (j, there) ↦ rw (e, position-append c xs ys there) (rw (e, there) at h)
  ]
]

-- A byte that is found stands there, and it is inside.
position_inv :
    (c : ℕ) (xs : List ℕ) (i : ℕ)
    → position c xs ≡ some i
    → (i < length xs) × (get_elem? xs i ≡ some c)
unfolding position
position_inv c [] i h = cc
position_inv c (x ∷ xs) i h = elim (Bool-cases (x == c)) [
  | inl e ↦
      let at_once : some 0 ≡ some i = rw e at h in
      let here : i ≡ 0 = cc in rw (here) (omega arith, ap some ((==_iff x c).0 e))
  | inr e ↦ elim (Option-cases (position c xs)) [
    | inl none_there ↦ unfold one_on in cc (rw (e, none_there) at h)
    | inr (j, there) ↦
        let later : some (j + 1) ≡ some i = unfold one_on in (rw (e, there) at h) in
        let sum : i ≡ j + 1 = cc in
        let at : i ≡ suc j = omega arith in
        let (lt, stands) = position_inv c xs j there in rw (at) (omega arith, stands)
  ]
]

-- A shorter window shows the front of a longer one.
take-le {ℓ} :
    {A : Type ℓ} (m n : ℕ) (xs : List A) → m ≤ n → (more : List A) × (take n xs ≡ take m xs ++ more)
take-le zero n xs h = (take n xs, refl)
take-le (suc m) zero xs h = absurd (omega arith)
take-le (suc m) (suc n) [] h = ([], refl)
take-le (suc m) (suc n) (x ∷ xs) h =
    let (more, e) = take-le m n xs (omega arith) in (more, ap (◌∷◌ x) e)

-- The window over more bytes starts with the window over fewer.
window-append :
    (xs ys : List ℕ) (window : ℕ)
    → (more : List ℕ) × (take (min (length (xs ++ ys)) window) (xs ++ ys)
        ≡ take (min (length xs) window) xs ++ more)
window-append xs ys window =
    let (more, e) =
      take-le (min (length xs) window) (min (length (xs ++ ys)) window) (xs ++ ys)
        (omega (arith, length-append xs ys)) in
    (more, e ∙ rw (take-append_le (min (length xs) window) xs ys (omega arith)))

module _ (rest more : List ℕ) (from window : ℕ) (over : Status) where
  abbrev line_of : List ℕ → Result Status (List ℕ × ℕ)
  line_of xs = line_at (position 10 (take (min (length xs) window) xs)) xs from window over

  -- A line, or a line that is too long, is not changed by the bytes that follow.
  line_of-Settled : Settled (line_of rest) (line_of (rest ++ more))
  unfolding line_at
  line_of-Settled = elim (Option-cases (position 10 (take (min (length rest) window) rest))) [
    | inr (at, there) ↦
        let (tail, e) = window-append rest more window in
        let inside = position_inv 10 _ at there in
        rw
          (
            there,
            e,
            position-append 10 (take (min (length rest) window) rest) tail there,
            take-append_le at rest more
                (omega (arith, inside.0, length-take (min (length rest) window) rest)),
          )
          (λ n. refl)
    | inl none_there ↦ elim (Bool-cases (ltb window (length rest))) [
      | inr short_of ↦ rw (none_there, short_of) (λ n. absurd (n refl))
      | inl long ↦
          let cut : min (length rest) window ≡ window = ground arith in
          let cut' : min (length (rest ++ more)) window ≡ window =
            ground (arith, length-append rest more) in
          let same : take window (rest ++ more) ≡ take window rest =
            take-append_le window rest more (ground arith) in
          let none_here : position 10 (take window rest) ≡ none = rw cut at none_there in
          let longer : ltb window (length (rest ++ more)) ≡ true =
            ground (arith, length-append rest more) in
          rw (none_there, long, cut', same, none_here, longer) (λ n. refl)
    ]
  ]

nothing_left :
    (from window : ℕ) (over : Status)
    → line_at (position 10 (take (min 0 window) [])) [] from window over ≡ err incomplete
unfolding line_at position
nothing_left from window over =
    let none_left : min 0 window ≡ 0 = omega arith in
    let fits : ltb window 0 ≡ false = ground arith in rw (none_left, fits)

split_line-Settled :
    (buf more : List ℕ) (from window : ℕ) (over : Status)
    → Settled (split_line buf from window over) (split_line (buf ++ more) from window over)
unfolding split_line
split_line-Settled buf more from window over = elim (Bool-cases (leb from (length buf))) [
  | inl e ↦
      rw (drop-append_le from buf more (ground arith))
        (line_of-Settled (drop from buf) more from window over)
  | inr e ↦ rw (drop_all from buf (ground arith)) (λ n. absurd (n (nothing_left from window over)))
]

header_line-Settled :
    (buf more : List ℕ) (at : ℕ) → Settled (header_line buf at) (header_line (buf ++ more) at)
unfolding header_line
header_line-Settled buf more at =
    Settled-refuse_if (leb max_headers at) bad_request _ _
      (λ e. split_line-Settled buf more at (max_headers - at) bad_request)

Settled-if {ℓ} :
    {A : Type ℓ} (b : Bool) (r r' s s' : Result Status A)
    → Settled r r'
    → Settled s s'
    → Settled (if b then r else s) (if b then r' else s')
Settled-if true r r' s s' h k = h
Settled-if false r r' s s' h k = k

headers-Settled :
    (left : ℕ) (buf more : List ℕ) (at hosts : ℕ)
    → Settled (headers left buf at hosts) (headers left (buf ++ more) at hosts)
unfolding headers
headers-Settled zero buf more at hosts =
    Settled->>= (header_line buf at) (header_line (buf ++ more) at) _ _
      (header_line-Settled buf more at) (λ line e n. refl)
headers-Settled (suc left) buf more at hosts =
    Settled->>= (header_line buf at) (header_line (buf ++ more) at) _ _
      (header_line-Settled buf more at)
      (λ l e.
        Settled-if (length l.0 == 0) _ _ _ _ (λ n. refl)
          (Settled->>= (field l.0) (field l.0) _ _ (λ n. refl)
            (λ is_host q.
              headers-Settled left buf more l.1 (if is_host then hosts + 1 else hosts))))

-- What a buffer is read as, a request or a refusal, stays the same whatever bytes arrive behind it, unless
-- it is that the request is not complete.
pub parse-append :
    (buf more : List ℕ) → parse buf ≢ err incomplete → parse (buf ++ more) ≡ parse buf
unfolding parse
parse-append buf more =
    Settled->>= (split_line buf 0 max_request_line uri_too_long)
      (split_line (buf ++ more) 0 max_request_line uri_too_long) _ _
      (split_line-Settled buf more 0 max_request_line uri_too_long)
      (λ l e.
        Settled->>= (request_line l.0) (request_line l.0) _ _ (λ n. refl)
          (λ target e'.
            Settled->>= (headers max_header_count buf l.1 0)
              (headers max_header_count (buf ++ more) l.1 0) _ _
              (headers-Settled max_header_count buf more l.1 0) (λ found q n. refl)))

get_elem?-take {ℓ} :
    {A : Type ℓ} (n : ℕ) (xs : List A) (i : ℕ) {x : A}
    → get_elem? (take n xs) i ≡ some x
    → get_elem? xs i ≡ some x
get_elem?-take zero xs i h = cc
get_elem?-take (suc n) [] i h = cc
get_elem?-take (suc n) (y ∷ xs) zero h = h
get_elem?-take (suc n) (y ∷ xs) (suc i) h = get_elem?-take n xs i h

get_elem?-drop {ℓ} :
    {A : Type ℓ} (n : ℕ) (xs : List A) (i j : ℕ)
    → j ≡ n + i
    → get_elem? (drop n xs) i ≡ get_elem? xs j
get_elem?-drop zero xs i j e = ap (get_elem? xs) (omega arith)
get_elem?-drop (suc n) [] i j e = refl
get_elem?-drop (suc n) (x ∷ xs) i zero e = absurd (omega arith)
get_elem?-drop (suc n) (x ∷ xs) i (suc j) e = get_elem?-drop n xs i j (omega arith)

line_at_inv :
    (o : Option ℕ) (rest : List ℕ) (from window : ℕ) (over : Status) (line : List ℕ) (next : ℕ)
    → line_at o rest from window over ≡ ok (line, next)
    → (at : ℕ) × (o ≡ some at) × (line ≡ strip_cr (take at rest)) × (next ≡ from + at + 1)
unfolding line_at
line_at_inv (some at) rest from window over line next h =
    let (same, there) = ok_pair-injective (strip_cr (take at rest)) line (from + at + 1) next h in
    (at, refl, sym same, sym there)
line_at_inv none rest from window over line next h = elim (Bool-cases (ltb window (length rest))) [
  | inl e ↦ cc (rw e at h)
  | inr e ↦ cc (rw e at h)
]

-- A line and the offset behind it: the newline that ends it is within the window and in the buffer.
pub record IsLine (buf : List ℕ) (from window : ℕ) (line : List ℕ) (next : ℕ) : Type 0 where
  pub at : ℕ
  pub taken : line ≡ strip_cr (take at (drop from buf))
  pub behind : next ≡ from + at + 1
  pub newline : get_elem? buf (from + at) ≡ some 10
  pub inside : at < window
  pub in_buffer : next ≤ length buf

pub split_line-IsLine :
    (buf : List ℕ) (from window : ℕ) (over : Status) (line : List ℕ) (next : ℕ)
    → split_line buf from window over ≡ ok (line, next)
    → IsLine buf from window line next
unfolding split_line
split_line-IsLine buf from window over line next h =
    let (at, there, same, behind) = line_at_inv _ (drop from buf) from window over line next h in
    let (lt, stands) = position_inv 10 _ at there in
    let bound = length-take (min (length (drop from buf)) window) (drop from buf) in
    record {
      at = at;
      taken = same;
      behind = behind;
      newline =
          sym (get_elem?-drop from buf at (from + at) refl)
          ∙ get_elem?-take (min (length (drop from buf)) window) (drop from buf) at stands;
      inside = omega (arith, lt, bound);
      in_buffer = omega (arith, lt, bound, length-drop from buf);
    }
