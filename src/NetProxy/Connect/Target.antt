-- ===== src/NetProxy/Connect/Target.antt =====
-- crates/bubbler-net-proxy/src/connect.rs: the target of a request is the one that its first line spells.
use bubbler.Prelude.{
  ℕ, ◌^◌, ◌≡◌, ◌<◌, ◌⊎◌, inl, inr, refl, sym, ap, ◌∙◌, Bool, true, false, Option, some, List, [],
  ◌∷◌, ◌++◌, length, map, ok, bind_ok_or_inv, bind_refuse_if_inv, ok_pair-injective, ltb, ◌==◌,
  ==_iff, ◌=b=◌, =b=_sound, not, ◌&&◌, ◌||◌, codes, is_digit, to_lower, to_str, to_str_same, arith,
  Bool-cases, Option-cases,
}
use bubbler.NetProxy.Allow.{
  split, extend, strip_dot, starts_with, all, are_labels, rsplit_once, digits_value,
}
use bubbler.NetProxy.Connect.{
  max_target, bad_request, forbidden, method_not_allowed, uri_too_long, is_request_byte, three,
  last_is_number, target_of, request_line,
}

-- The pieces with the byte between them that they were split at.
unfoldable pub joined : ℕ → List (List ℕ) → List ℕ
joined c [] = []
joined c (piece ∷ []) = piece
joined c (a ∷ b ∷ pieces) = a ++ (c ∷ joined c (b ∷ pieces))

joined-extend :
    (c b : ℕ) (pieces : List (List ℕ)) → joined c (extend b pieces) ≡ b ∷ joined c pieces
unfolding joined extend
joined-extend c b [] = refl
joined-extend c b (p ∷ []) = refl
joined-extend c b (p ∷ q ∷ ps) = refl

-- Splitting gives at least one piece.
split_some : (c : ℕ) (s : List ℕ) → (p : List ℕ) × (ps : List (List ℕ)) × (split c s ≡ p ∷ ps)
unfolding split extend
split_some c [] = ([], [], refl)
split_some c (b ∷ bs) =
    let (p, ps, e) = split_some c bs in
    elim (Bool-cases (b == c)) [
      | inl same ↦ ([], p ∷ ps, rw (same, e))
      | inr other ↦ (b ∷ p, ps, rw (other, e))
    ]

joined-split : (c : ℕ) (s : List ℕ) → joined c (split c s) ≡ s
unfolding split joined
joined-split c [] = refl
joined-split c (b ∷ bs) = elim (Bool-cases (b == c)) [
  | inr other ↦ rw (other) (joined-extend c b (split c bs) ∙ ap (◌∷◌ b) (joined-split c bs))
  | inl same ↦
      let (p, ps, e) = split_some c bs in
      let rest : joined c (p ∷ ps) ≡ bs = ap (joined c) (sym e) ∙ joined-split c bs in
      let is_c : b ≡ c = (==_iff b c).0 same in rw (same, e, rest, is_c)
]

three_inv :
    (words : List (List ℕ)) {a b c : List ℕ} → three words ≡ some (a, b, c) → words ≡ a ∷ b ∷ c ∷ []
unfolding three
three_inv [] h = cc
three_inv (x ∷ []) h = cc
three_inv (x ∷ y ∷ []) h = cc
three_inv (x ∷ y ∷ z ∷ []) h = cc
three_inv (x ∷ y ∷ z ∷ w ∷ more) h = cc

rsplit_once_inv :
    (c : ℕ) (s : List ℕ) (before after : List ℕ)
    → rsplit_once c s ≡ some (before, after)
    → s ≡ before ++ (c ∷ after)
unfolding rsplit_once
rsplit_once_inv c [] before after h = cc
rsplit_once_inv c (b ∷ bs) before after h = elim (Option-cases (rsplit_once c bs)) [
  | inr (pair, e) ↦
      let whole = rsplit_once_inv c bs pair.0 pair.1 e in
      let split_here : ◌≡◌ {A = Option (List ℕ × List ℕ)} (some (b ∷ pair.0, pair.1))
          (some (before, after)) =
        rw e at h in
      let front : b ∷ pair.0 ≡ before = cc in
      let back : pair.1 ≡ after = cc in rw (sym front, sym back) (ap (◌∷◌ b) whole)
  | inl e ↦ elim (Bool-cases (b == c)) [
    | inr other ↦ cc (rw (e, other) at h)
    | inl same ↦
        let split_here : ◌≡◌ {A = Option (List ℕ × List ℕ)} (some ([], bs)) (some (before, after)) =
          rw (e, same) at h in
        let front : [] ≡ before = cc in
        let back : bs ≡ after = cc in
        let is_c : b ≡ c = (==_iff b c).0 same in rw (sym front, sym back, is_c)
  ]
]

-- A target as it is spelled: a host name, a colon and the digits of a port, and what is made of it. The
-- name is valid label by label and its last label is not a number; the port is from 1 to 65535.
pub record Spells (target : List ℕ) (host : List ℕ) (port : ℕ) : Type 0 where
  pub written : List ℕ
  pub digits : List ℕ
  pub whole : target ≡ written ++ (b':' ∷ digits)
  pub lowered : host ≡ map to_lower (strip_dot written)
  pub valued : port ≡ digits_value 0 digits
  pub all_digits : all is_digit digits ≡ true
  pub valid : are_labels (split b'.' (strip_dot written)) ≡ true
  pub not_an_address : last_is_number (split b'.' (strip_dot written)) ≡ false
  pub not_zero : 0 < port
  pub in_range : port < 2 ^ 16

port_range : (n : ℕ) → ((n == 0) || not (ltb n (2 ^ 16))) ≡ false → (0 < n) × (n < 2 ^ 16)
port_range n h = ground arith

not_inv : (b : Bool) → not b ≡ false → b ≡ true
not_inv b h = ground arith

digits_only : (a b c : Bool) → (a || (b || not c)) ≡ false → c ≡ true
digits_only a b c h = ground arith

pub target_of-Spells :
    (target host : List ℕ) (port : ℕ) → target_of target ≡ ok (host, port) → Spells target host port
unfolding target_of
target_of-Spells target host port h =
    let (fits, h1) = bind_refuse_if_inv (ltb max_target (length target)) uri_too_long _ h in
    let (text, e2, h2) = bind_ok_or_inv (to_str target) bad_request _ h1 in
    let ((name, digits), e3, h3) = bind_ok_or_inv (rsplit_once b':' text) bad_request _ h2 in
    let (bracket, h4) = bind_refuse_if_inv (starts_with b'[' name) forbidden _ h3 in
    let (shape, h5) =
      bind_refuse_if_inv
        (length digits == 0 || (ltb 5 (length digits) || not (all is_digit digits))) bad_request _
        h4 in
    let (range, h6) =
      bind_refuse_if_inv (digits_value 0 digits == 0 || not (ltb (digits_value 0 digits) (2 ^ 16)))
        bad_request _ h5 in
    let (number, h7) =
      bind_refuse_if_inv (last_is_number (split b'.' (strip_dot name))) forbidden _ h6 in
    let (labels, h8) =
      bind_refuse_if_inv (not (are_labels (split b'.' (strip_dot name)))) bad_request _ h7 in
    let (same_host, same_port) =
      ok_pair-injective (map to_lower (strip_dot name)) host (digits_value 0 digits) port h8 in
    let (positive, small) = port_range (digits_value 0 digits) range in
    record {
      written = name;
      digits = digits;
      whole = sym (to_str_same target text e2) ∙ rsplit_once_inv b':' text name digits e3;
      lowered = sym same_host;
      valued = sym same_port;
      all_digits =
          digits_only (length digits == 0) (ltb 5 (length digits)) (all is_digit digits) shape;
      valid = not_inv _ labels;
      not_an_address = number;
      not_zero = omega arith;
      in_range = omega arith;
    }

-- The version that a request line names.
abbrev pub IsVersion : List ℕ → Type 0
IsVersion version = (version ≡ codes "HTTP/1.1") ⊎ (version ≡ codes "HTTP/1.0")

IsVersion-inv :
    (version : List ℕ)
    → (not (version =b= codes "HTTP/1.1") && not (version =b= codes "HTTP/1.0")) ≡ false
    → IsVersion version
IsVersion-inv version h = elim (Bool-cases (version =b= codes "HTTP/1.1")) [
  | inl e ↦ inl (=b=_sound version (codes "HTTP/1.1") e)
  | inr e ↦ inr (=b=_sound version (codes "HTTP/1.0") (not_inv _ (rw e at h)))
]

-- A request line that is accepted is the method, a target and a version with one space between them,
-- and gives the host and the port that the target spells.
pub request_line-Spells :
    (line host : List ℕ) (port : ℕ)
    → request_line line ≡ ok (host, port)
    → (target version : List ℕ) × (line ≡ codes "CONNECT " ++ (target ++ (b' ' ∷ version)))
      × IsVersion version
      × Spells target host port
unfolding request_line
request_line-Spells line host port h =
    let (visible, h1) = bind_refuse_if_inv (not (all is_request_byte line)) bad_request _ h in
    let ((method, target, version), e2, h2) =
      bind_ok_or_inv (three (split b' ' line)) bad_request _ h1 in
    let (named, h3) =
      bind_refuse_if_inv (not (method =b= codes "CONNECT")) method_not_allowed _ h2 in
    let (known, h4) =
      bind_refuse_if_inv (not (version =b= codes "HTTP/1.1") && not (version =b= codes "HTTP/1.0"))
        bad_request _ h3 in
    let words = three_inv (split b' ' line) e2 in
    let connect : method ≡ codes "CONNECT" = =b=_sound method _ (not_inv _ named) in
    (
      target,
      version,
      sym (joined-split b' ' line) ∙ ap (joined b' ') words ∙ (unfold joined in rw connect),
      IsVersion-inv version known,
      target_of-Spells target host port h4,
    )
