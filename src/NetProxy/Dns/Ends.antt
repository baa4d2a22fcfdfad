-- ===== src/NetProxy/Dns/Ends.antt =====
-- crates/bubbler-net-proxy/src/dns.rs: reading a name comes to an end, moves forward and stays in bounds.
use bubbler.Prelude.{
  ℕ, zero, suc, ◌+◌, ◌-◌, ◌*◌, ◌/◌, ◌%◌, ◌^◌, ◌≡◌, ◌≢◌, ◌≤◌, ◌<◌, refl, sym, ap, ◌∙◌, ◌⊎◌, inl, inr,
  none, some, List, [], ◌∷◌, ◌++◌, length, get_elem?, slice, slice_bounds, length-append, Result,
  ok, err, bind_ok_or_inv, bind_refuse_if_inv, ok_pair-injective, ltb, leb, ◌==◌, if◌then◌else◌,
  arith, Bool-cases, Result-cases,
}
use mathlib.Core.Path.{subst}
use bubbler.NetProxy.Dns.{
  DnsError, short, name_error, pointer, out_of_fuel, text_of, text_of_byte, Walk, Round, finished,
  onward, or_here, after_label, after_pointer, read_label, read_pointer, round_of, go_on,
  name_round, name_loop, name, max_rounds, max_name, max_jumps,
}

-- What is left of the two bounds, on the length of the name and on the jumps.
unfoldable pub budget : Walk → ℕ
budget w = (256 - length w.out) + (17 - w.jumps)

-- A text takes one or two bytes for each byte read.
pub length-text_of :
    (bs : List ℕ) → (length bs ≤ length (text_of bs)) × (length (text_of bs) ≤ 2 * length bs)
unfolding text_of text_of_byte
length-text_of [] = omega arith
length-text_of (b ∷ bs) = elim (Bool-cases (ltb b 128)) [
  | inl e ↦ rw (e) (omega (arith, length-text_of bs))
  | inr e ↦ rw (e) (omega (arith, length-text_of bs))
]

-- A byte of a list stands before its end.
pub get_elem?-lt {ℓ} :
    {A : Type ℓ} (xs : List A) (i : ℕ) {x : A} → get_elem? xs i ≡ some x → i < length xs
get_elem?-lt [] i h = cc
get_elem?-lt (y ∷ xs) zero h = omega arith
get_elem?-lt (y ∷ xs) (suc i) h = omega (arith, get_elem?-lt xs i h)

-- What holds at the head of the loop: the name is short, and the cursor that the reader will have is
-- past the start `from` and within the message.
record IsWalk (msg : List ℕ) (from : ℕ) (w : Walk) : Type 0 where
  short_name : length w.out ≤ 318
  forward :
      ((w.past ≡ none) × (from ≤ w.pos))
      ⊎ ((past : ℕ) × (w.past ≡ some past) × (from < past) × (past ≤ length msg))

-- The dot in front of every label but the first.
abbrev dot : Walk → List ℕ
dot w = if length w.out == 0 then [] else b'.' ∷ []

onward-injective :
    (a b : Walk) → ◌≡◌ {A = Result DnsError Round} (ok (onward a)) (ok (onward b)) → a ≡ b
onward-injective a b h = cc

module _ (msg : List ℕ) (from : ℕ) (w : Walk) where
  -- What a round does to a walk, when it goes on to `w'`.
  abbrev Goes : Walk → Type 0
  Goes w' = (budget w' < budget w) × (IsWalk msg from w → IsWalk msg from w')

  after_label-Goes :
      (n : ℕ) (label : List ℕ)
      → n < 64
      → 0 < n
      → length label ≡ n
      → length w.out + n + 1 ≤ 255
      → Goes (after_label w n label)
  unfolding after_label budget
  after_label-Goes n label small some_bytes len fits = (
    omega (arith, whole, dot_short, length-text_of label),
    λ v. record {
      short_name = omega (arith, whole, dot_short, length-text_of label);
      forward = moved v.forward;
    },
  )
    where
      dot_short : length (dot w) ≤ 1
      dot_short = ground arith

      whole :
          length (w.out ++ (dot w ++ text_of label))
          ≡ length w.out + (length (dot w) + length (text_of label))
      whole = omega (
        arith,
        length-append w.out (dot w ++ text_of label),
        length-append (dot w) (text_of label),
      )

      moved :
          ((w.past ≡ none) × (from ≤ w.pos))
            ⊎ ((past : ℕ) × (w.past ≡ some past) × (from < past) × (past ≤ length msg))
          → ((w.past ≡ none) × (from ≤ w.pos + 1 + n))
            ⊎ ((past : ℕ) × (w.past ≡ some past) × (from < past) × (past ≤ length msg))
      moved (inl (e, h)) = inl (e, omega arith)
      moved (inr h) = inr h

  after_pointer-Goes :
      (to : ℕ) → w.pos + 2 ≤ length msg → w.jumps + 1 ≤ 16 → Goes (after_pointer w to)
  unfolding after_pointer budget
  after_pointer-Goes to here few =
      (omega arith, λ v. record { short_name = v.short_name; forward = inr (moved v.forward) })
    where
      moved :
          ((w.past ≡ none) × (from ≤ w.pos))
            ⊎ ((past : ℕ) × (w.past ≡ some past) × (from < past) × (past ≤ length msg))
          → (past : ℕ) × (some (or_here w.past (w.pos + 2)) ≡ some past)
            × (from < past)
            × (past ≤ length msg)
      moved (inl (e, h)) = (w.pos + 2, unfold or_here in rw e, omega arith, omega arith)
      moved (inr (past, e, h, k)) = (past, unfold or_here in rw e, h, k)

  read_label-Goes :
      (n : ℕ) (w' : Walk) → n < 64 → 0 < n → read_label msg w n ≡ ok (onward w') → Goes w'
  unfolding read_label
  read_label-Goes n w' small some_bytes h =
      let (label, e1, h1) = bind_ok_or_inv (slice msg (w.pos + 1) (w.pos + 1 + n)) short _ h in
      let (fits, h2) = bind_refuse_if_inv (ltb max_name (length w.out + n + 1)) name_error _ h1 in
      let s = slice_bounds msg (w.pos + 1) (w.pos + 1 + n) e1 in
      subst Goes (onward-injective (after_label w n label) w' h2)
        (after_label-Goes n label small some_bytes (omega (arith, s)) (ground arith))

  read_pointer-Goes : (len : ℕ) (w' : Walk) → read_pointer msg w len ≡ ok (onward w') → Goes w'
  unfolding read_pointer
  read_pointer-Goes len w' h =
      let (lo, e1, h1) = bind_ok_or_inv (get_elem? msg (w.pos + 1)) short _ h in
      let (back, h2) = bind_refuse_if_inv (leb w.pos (len % 64 * 2 ^ 8 + lo)) pointer _ h1 in
      let (few, h3) = bind_refuse_if_inv (ltb max_jumps (w.jumps + 1)) pointer _ h2 in
      subst Goes (onward-injective (after_pointer w (len % 64 * 2 ^ 8 + lo)) w' h3)
        (after_pointer-Goes _ (omega (arith, get_elem?-lt msg (w.pos + 1) e1)) (ground arith))

  round_of-Goes : (len : ℕ) (w' : Walk) → round_of msg w len ≡ ok (onward w') → Goes w'
  unfolding round_of
  round_of-Goes len w' h = elim (Bool-cases (len == 0)) [
    | inl e ↦ cc (rw e at h)
    | inr e ↦ elim (Bool-cases (len / 64 == 0)) [
      | inl f ↦ read_label-Goes len w' (ground arith) (ground arith) (rw (e, f) at h)
      | inr f ↦ elim (Bool-cases (len / 64 == 3)) [
        | inl g ↦ read_pointer-Goes len w' (rw (e, f, g) at h)
        | inr g ↦ cc (rw (e, f, g) at h)
      ]
    ]
  ]

  -- One round goes on as a label or as a pointer does.
  name_round-Goes : (w' : Walk) → name_round msg w ≡ ok (onward w') → Goes w'
  unfolding name_round
  name_round-Goes w' h =
      let (len, e, h1) = bind_ok_or_inv (get_elem? msg w.pos) short _ h in round_of-Goes len w' h1

  -- A round that ends the loop has met the empty label.
  round_of-finished :
      (len : ℕ) (out : List ℕ) (past : ℕ)
      → round_of msg w len ≡ ok (finished out past)
      → (out ≡ w.out) × (past ≡ or_here w.past (w.pos + 1))
  unfolding round_of read_label read_pointer
  round_of-finished len out past h = ground arith

  name_round-finished :
      (out : List ℕ) (past : ℕ)
      → name_round msg w ≡ ok (finished out past)
      → (out ≡ w.out) × (past ≡ or_here w.past (w.pos + 1)) × (w.pos + 1 ≤ length msg)
  unfolding name_round
  name_round-finished out past h =
      let (len, e, h1) = bind_ok_or_inv (get_elem? msg w.pos) short _ h in
      let (same, there) = round_of-finished len out past h1 in
      (same, there, omega (arith, get_elem?-lt msg w.pos e))

  -- No round runs out of fuel.
  name_round-ends : (e : DnsError) → name_round msg w ≡ err e → e ≢ out_of_fuel
  unfolding name_round round_of read_label read_pointer
  name_round-ends e h = ground arith

name_loop-ends :
    (fuel : ℕ) (msg : List ℕ) (w : Walk) → budget w < fuel → name_loop fuel msg w ≢ err out_of_fuel
unfolding name_loop go_on
name_loop-ends zero msg w h = absurd (omega arith)
name_loop-ends (suc fuel) msg w h = elim (Result-cases (name_round msg w)) [
  | inl (finished out past, e) ↦ rw (e) (λ k. cc)
  | inl (onward w', e) ↦
      rw (e) (name_loop-ends fuel msg w' (omega (arith, (name_round-Goes msg 0 w w' e).0)))
  | inr (failure, e) ↦ rw (e) (λ k. name_round-ends msg 0 w failure e (cc))
]

-- The cursor behind a name that has ended.
ended :
    {msg : List ℕ} {from : ℕ} {w : Walk}
    → IsWalk msg from w
    → (past : ℕ) → past ≡ or_here w.past (w.pos + 1)
    → w.pos + 1 ≤ length msg
    → (from < past) × (past ≤ length msg)
ended {msg} {from} {w} v past e h = elim v.forward [
  | inl (open_end, le) ↦
      let here : past ≡ w.pos + 1 = e ∙ (unfold or_here in rw open_end) in
      (omega arith, omega arith)
  | inr (there, known, lt, le) ↦
      let here : past ≡ there = e ∙ (unfold or_here in rw known) in (omega arith, omega arith)
]

name_loop-bounds :
    (fuel : ℕ) (msg : List ℕ) (from : ℕ) (w : Walk) (out : List ℕ) (past : ℕ)
    → IsWalk msg from w
    → name_loop fuel msg w ≡ ok (out, past)
    → (length out ≤ 318) × (from < past) × (past ≤ length msg)
unfolding name_loop go_on
name_loop-bounds zero msg from w out past v h = cc
name_loop-bounds (suc fuel) msg from w out past v h = elim (Result-cases (name_round msg w)) [
  | inl (finished out' past', e) ↦
      let done : ◌≡◌ {A = Result DnsError (List ℕ × ℕ)} (ok (out', past')) (ok (out, past)) =
        rw e at h in
      let (a, b) = ok_pair-injective out' out past' past done in
      let (c, d, f) = name_round-finished msg from w out' past' e in
      let (lt, le) = ended v past (sym b ∙ d) f in
      (omega (arith, v.short_name, ap length (sym a), ap length c), lt, le)
  | inl (onward w', e) ↦
      name_loop-bounds fuel msg from w' out past ((name_round-Goes msg from w w' e).1 v) (rw e at h)
  | inr (failure, e) ↦ cc (rw e at h)
]

budget_start :
    (pos : ℕ) → budget (record { out = []; pos = pos; jumps = 0; past = none }) < max_rounds
unfolding budget
budget_start pos = omega arith

-- Reading a name always ends within its bounds on the length and the jumps, also where pointers and
-- labels form a loop: the fuel of the model is never used up.
pub name_ends : (msg : List ℕ) (pos : ℕ) → name msg pos ≢ err out_of_fuel
unfolding name
name_ends msg pos = name_loop-ends max_rounds msg _ (budget_start pos)

-- A name that was read is at most 318 bytes of text, and the reader's cursor has moved forward and is
-- still within the message.
pub name_bounds :
    (msg : List ℕ) (pos : ℕ) (out : List ℕ) (past : ℕ)
    → name msg pos ≡ ok (out, past)
    → (length out ≤ 318) × (pos < past) × (past ≤ length msg)
unfolding name
name_bounds msg pos out past h =
    name_loop-bounds max_rounds msg pos _ out past
      (record { short_name = omega arith; forward = inl (refl, omega arith) }) h
