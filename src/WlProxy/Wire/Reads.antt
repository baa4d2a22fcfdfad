-- ===== src/WlProxy/Wire/Reads.antt =====
-- crates/bubbler-wl-proxy/src/wire.rs: what one field that was read is, whoever
-- wrote it.
use bubbler.Prelude.{
  ℕ, ◌+◌, ◌-◌, ◌≤◌, ◌≡◌, refl, sym, ap, ◌∙◌, false, none, some, List, [], ◌∷◌, ◌++◌, drop, length,
  slice, All, IsByte, IsU32, Endian, little, big, ok, ◌>>=◌, >>=-eq-ok, ok_pair-injective,
  bind_ok_or_inv, bind_refuse_if_inv, u32_of_slice, u32_to_bytes, u32_from_bytes, checked_add, ltb,
  ◌==◌, not, arith, Bool-cases, inl, inr, slice_bounds, All-take, All-drop, All-append_left,
  Option-cases,
}
use bubbler.WlProxy.Tables.{ArgKind}
use bubbler.WlProxy.Wire.{
  Arg, int, uint, fixed, string, object, new_id, array, decode_arg, IsText, IsValid, kind_of,
  take_word, take_bytes, take_string, checked_next_multiple_of_4, split_last, has_nul,
}
use bubbler.WlProxy.Wire.Bytes.{padding, length-counted}
use bubbler.Prelude.{length-u32_to_bytes}
use bubbler.WlProxy.Wire.RoundTrip.{arg_bytes}

checked_add_inv : (a b : ℕ) {c : ℕ} → checked_add a b ≡ some c → c ≡ a + b
unfolding checked_add
checked_add_inv a b h = ground arith

next_multiple_inv : (n : ℕ) {m : ℕ} → checked_next_multiple_of_4 n ≡ some m → m ≡ n + padding n
unfolding checked_next_multiple_of_4 checked_add padding
next_multiple_inv n h = ground arith

u32_of_slice-IsU32 : (order : Endian) (s : List ℕ) → All IsByte s → IsU32 (u32_of_slice order s)
unfolding u32_of_slice u32_from_bytes
u32_of_slice-IsU32 little (a ∷ b ∷ c ∷ d ∷ s) h = omega arith
u32_of_slice-IsU32 big (a ∷ b ∷ c ∷ d ∷ s) h = omega arith
u32_of_slice-IsU32 order _ h = omega arith

slice-IsByte :
    (body : List ℕ) (a b : ℕ) {s : List ℕ}
    → slice body a b ≡ some s
    → All IsByte body
    → All IsByte s
slice-IsByte body a b h bytes =
    rw ((slice_bounds body a b h).3)
      (All-take IsByte (b - a) (drop a body) (All-drop IsByte a body bytes))

take_word_inv :
    (order : Endian) (body : List ℕ) (at w past : ℕ)
    → take_word order body at ≡ ok (w, past)
    → (past ≡ at + 4) × (past ≤ length body) × (All IsByte body → IsU32 w)
unfolding take_word
take_word_inv order body at w past h =
    let (end, e1, h1) = bind_ok_or_inv (checked_add at 4) _ _ h in
    let (word, e2, h2) = bind_ok_or_inv (slice body at end) _ _ h1 in
    let e = checked_add_inv at 4 e1 in
    let s = slice_bounds body at end e2 in
    let same : (w ≡ u32_of_slice order word) × (past ≡ end) = (cc, cc) in
    (
      omega arith,
      omega arith,
      λ bytes. rw (same.0) (u32_of_slice-IsU32 order word (slice-IsByte body at end e2 bytes)),
    )

take_bytes_inv :
    (body : List ℕ) (at len : ℕ) (bytes : List ℕ) (past : ℕ)
    → take_bytes body at len ≡ ok (bytes, past)
    → (length bytes ≡ len)
      × (past ≡ at + (len + padding len))
      × (past ≤ length body)
      × (All IsByte body → All IsByte bytes)
unfolding take_bytes
take_bytes_inv body at len bytes past h =
    let (padded, e1, h1) = bind_ok_or_inv (checked_next_multiple_of_4 len) _ _ h in
    let (end, e2, h2) = bind_ok_or_inv (checked_add at len) _ _ h1 in
    let (past', e3, h3) = bind_ok_or_inv (checked_add at padded) _ _ h2 in
    let (fits, h4) = bind_refuse_if_inv (ltb (length body) past') _ _ h3 in
    let (bytes', e4, h5) = bind_ok_or_inv (slice body at end) _ _ h4 in
    let same : (bytes ≡ bytes') × (past ≡ past') = (cc, cc) in
    let s = slice_bounds body at end e4 in
    let pad = next_multiple_inv len e1 in
    let sum = checked_add_inv at len e2 in
    let sum' = checked_add_inv at padded e3 in
    (
      omega (arith, ap length (same.0)),
      omega arith,
      ground arith,
      λ h. rw (same.0) (slice-IsByte body at end e4 h),
    )

split_last-none : (bs : List ℕ) → split_last bs ≡ none → bs ≡ []
unfolding split_last
split_last-none [] h = refl
split_last-none (b ∷ bs) h = ground arith

split_last_inv :
    (bs : List ℕ) (last : ℕ) (text : List ℕ)
    → split_last bs ≡ some (last, text)
    → bs ≡ text ++ (last ∷ [])
unfolding split_last
split_last_inv [] last text h = cc
split_last_inv (b ∷ bs) last text h = elim (Option-cases (split_last bs)) [
  | inl e ↦ ground (arith, e, split_last-none bs)
  | inr ((l, t), e) ↦ ground (arith, e, split_last_inv bs l t e)
]

IsText-of : (text : List ℕ) → has_nul text ≡ false → All IsByte text → IsText text
unfolding has_nul
IsText-of [] h b = tt
IsText-of (t ∷ ts) h (b, bs) = ground (arith, IsText-of ts)

-- What one argument that was read says: its kind, how far the cursor went, and that it is a value
-- of its kind.
pub record WasRead (order : Endian) (body : List ℕ) (kind : ArgKind) (at : ℕ) (arg : Arg) (past : ℕ)
    : Type 0 where
  pub same_kind : kind_of arg ≡ kind
  pub span : past ≡ at + length (arg_bytes order arg)
  pub within : past ≤ length body
  pub valid : All IsByte body → IsValid arg

module _ (order : Endian) (body : List ℕ) where
  null-WasRead :
      (at : ℕ) → at + 4 ≤ length body → WasRead order body ArgKind.string at (string none) (at + 4)
  unfolding arg_bytes
  null-WasRead at fits = record {
    same_kind = refl;
    span = omega (arith, length-u32_to_bytes order 0);
    within = fits;
    valid = λ b. tt;
  }

  text-WasRead :
      (at len last : ℕ) (bytes text : List ℕ) (past : ℕ)
      → take_bytes body (at + 4) len ≡ ok (bytes, past)
      → split_last bytes ≡ some (last, text)
      → last ≡ 0
      → has_nul text ≡ false
      → WasRead order body ArgKind.string at (string (some text)) past
  unfolding arg_bytes
  text-WasRead at len last bytes text past read cut e clean =
      let (count, span, within, valid) = take_bytes_inv body (at + 4) len bytes past read in
      let whole : bytes ≡ text ++ (0 ∷ []) =
        split_last_inv bytes last text cut ∙ ap (λ b. text ++ (b ∷ [])) e in
      let count' : length (text ++ (0 ∷ [])) ≡ len = ap length (sym whole) ∙ count in
      record {
        same_kind = refl;
        span =
            omega (arith, length-counted order (text ++ (0 ∷ [])), count', span, ap padding count');
        within = within;
        valid = λ b.
            IsText-of text clean (All-append_left IsByte text (0 ∷ []) (rw whole at (valid b)));
      }

  take_string-WasRead :
      (at len : ℕ) (arg : Arg) (past : ℕ)
      → at + 4 ≤ length body
      → take_string body (at + 4) len ≡ ok (arg, past)
      → WasRead order body ArgKind.string at arg past
  unfolding take_string
  take_string-WasRead at len arg past fits h = elim (Bool-cases (len == 0)) [
    | inl e ↦
        let (ea, ep) = ok_pair-injective _ _ _ _ (rw e at h) in
        rw (← ea, ← ep) (null-WasRead at fits)
    | inr e ↦
        let ((bytes, past'), e1, h1) = >>=-eq-ok (take_bytes body (at + 4) len) _ (rw e at h) in
        let ((last, text), e2, h2) = bind_ok_or_inv (split_last bytes) _ _ h1 in
        let (e3, h3) = bind_refuse_if_inv (not (last == 0)) _ _ h2 in
        let (e4, h4) = bind_refuse_if_inv (has_nul text) _ _ h3 in
        let (ea, ep) = ok_pair-injective _ _ _ _ h4 in
        rw (← ea, ← ep) (text-WasRead at len last bytes text past' e1 e2 (ground arith) e4)
  ]

  word-WasRead :
      (kind : ArgKind) (make : ℕ → Arg)
      → ((w : ℕ) → kind_of (make w) ≡ kind)
      → ((w : ℕ) → arg_bytes order (make w) ≡ u32_to_bytes order w)
      → ((w : ℕ) → IsU32 w → IsValid (make w))
      → (at : ℕ) (arg : Arg) (past : ℕ)
      → ◌>>=◌ {B = Arg × ℕ} (take_word order body at) (λ x. ok (make x.0, x.1)) ≡ ok (arg, past)
      → WasRead order body kind at arg past
  word-WasRead kind make same form good at arg past h =
      let ((w, p), e1, h1) = >>=-eq-ok (take_word order body at) _ h in
      let (ea, ep) = ok_pair-injective _ _ _ _ h1 in
      let (span, within, valid) = take_word_inv order body at w p e1 in
      rw (← ea, ← ep)
        (record {
          same_kind = same w;
          span = omega (arith, length-u32_to_bytes order w, ap length (form w), span);
          within = within;
          valid = λ b. good w (valid b);
        })

  array-WasRead :
      (at len : ℕ) (bytes : List ℕ) (past : ℕ)
      → take_bytes body (at + 4) len ≡ ok (bytes, past)
      → WasRead order body ArgKind.array at (array bytes) past
  unfolding arg_bytes
  array-WasRead at len bytes past read =
      let (count, span, within, valid) = take_bytes_inv body (at + 4) len bytes past read in
      record {
        same_kind = refl;
        span = omega (arith, length-counted order bytes, count, span, ap padding count);
        within = within;
        valid = valid;
      }

  pub decode_arg-WasRead :
      (kind : ArgKind) (at : ℕ) (arg : Arg) (past : ℕ)
      → at ≤ length body
      → decode_arg order body kind at ≡ ok (arg, past)
      → WasRead order body kind at arg past
  unfolding decode_arg arg_bytes
  decode_arg-WasRead ArgKind.int at arg past fits h =
      word-WasRead _ int (λ w. refl) (λ w. refl) (λ w v. v) at arg past h
  decode_arg-WasRead ArgKind.uint at arg past fits h =
      word-WasRead _ uint (λ w. refl) (λ w. refl) (λ w v. v) at arg past h
  decode_arg-WasRead ArgKind.fixed at arg past fits h =
      word-WasRead _ fixed (λ w. refl) (λ w. refl) (λ w v. v) at arg past h
  decode_arg-WasRead ArgKind.object at arg past fits h =
      word-WasRead _ object (λ w. refl) (λ w. refl) (λ w v. v) at arg past h
  decode_arg-WasRead ArgKind.new_id at arg past fits h =
      word-WasRead _ new_id (λ w. refl) (λ w. refl) (λ w v. v) at arg past h
  decode_arg-WasRead ArgKind.string at arg past fits h =
      let ((len, p), e1, h1) = >>=-eq-ok (take_word order body at) _ h in
      let (span, within, _) = take_word_inv order body at len p e1 in
      take_string-WasRead at len arg past (omega arith) (rw span at h1)
  decode_arg-WasRead ArgKind.array at arg past fits h =
      let ((len, p), e1, h1) = >>=-eq-ok (take_word order body at) _ h in
      let (span, within, _) = take_word_inv order body at len p e1 in
      let ((bytes, end), e2, h2) = >>=-eq-ok (take_bytes body p len) _ h1 in
      let (ea, ep) = ok_pair-injective _ _ _ _ h2 in
      rw (← ea, ← ep) (array-WasRead at len bytes end (rw span at e2))
  decode_arg-WasRead ArgKind.fd at arg past fits h =
      let (ea, ep) = ok_pair-injective _ _ _ _ h in
      rw (← ea, ← ep)
        (record { same_kind = refl; span = omega arith; within = fits; valid = λ b. tt })
