-- ===== src/Core/DbusWire/Message/Sound.antt =====
-- crates/bubbler-core/src/dbus_wire.rs: what a message that is read consists of, and what the check of the
-- descriptors lets through.
use bubbler.Prelude.{
  ℕ, zero, suc, take, ◌+◌, ◌%◌, ◌≡◌, ◌≤◌, ◌<◌, ◌↔◌, inl, inr, refl, sym, ap, ◌∙◌, true, false, some,
  List, [], ◌∷◌, ◌++◌, length, slice, slice_bounds, slice-drop, drop, All, All-append,
  All-append_left, All-append_right, Result, ok, err, ◌>>◌, >>=-eq-ok, bind_ok_or_inv,
  bind_refuse_if_inv, ltb, leb, ◌==◌, not, ◌&&◌, arith, Bool-cases,
}
use bubbler.NetProxy.Allow.{all}
use bubbler.Core.DbusWire.Types.{WireError, Value, Values, Entries, max_array, max_incoming}
use bubbler.Core.DbusWire.Decode.{decode, from_le_bytes}
use bubbler.Core.DbusWire.Message.{
  header_signature, protocol_version, fixed_header, byte_at, word_at, align_up, frame, Message,
  Header, no_fields, header_of, read_fields, finish, decode_message, check_fd_indices, check_all,
  check_entries,
}

-- What is read within the front of a list is read of the front.
take_front :
    (n : ℕ) (front behind : List ℕ) → n ≤ length front → take n (front ++ behind) ≡ take n front
take_front zero front behind h = refl
take_front (suc n) [] behind h = absurd (omega (arith, h))
take_front (suc n) (b ∷ front) behind h =
    ap (λ t. b ∷ t) (take_front n front behind (omega (arith, h)))

part_of_front :
    (at n : ℕ) (front behind : List ℕ)
    → at + n ≤ length front
    → take n (drop at (front ++ behind)) ≡ take n (drop at front)
part_of_front zero n front behind h = take_front n front behind (omega (arith, h))
part_of_front (suc at) n [] behind h = absurd (omega (arith, h))
part_of_front (suc at) n (b ∷ front) behind h = part_of_front at n front behind (omega (arith, h))

-- The words and bytes of the fixed header are those of the message.
in_head :
    (message head : List ℕ) (at n : ℕ)
    → slice message 0 fixed_header ≡ some head
    → at + n ≤ 16
    → from_le_bytes (take n (drop at head)) ≡ from_le_bytes (take n (drop at message))
in_head message head at n e small = ap from_le_bytes (
    sym (
      part_of_front at n head (drop 16 message) (omega (arith, slice_bounds message 0 16 e, small)))
    ∙ ap (λ t. take n (drop at t)) (sym (slice-drop message 0 16 e)))

-- What a frame says: the byte order, the version, where the body starts and how long it is.
abbrev IsFrame : List ℕ → ℕ → ℕ → Type 0
IsFrame message at len =
    (byte_at 0 message ≡ b'l')
    × (byte_at 3 message ≡ protocol_version)
    × (len ≡ word_at 4 message)
    × (at ≡ align_up (fixed_header + word_at 12 message) 8)
    × (at + len ≤ max_incoming)

frame-IsFrame :
    (message : List ℕ) (at len : ℕ) → frame message ≡ ok (at, len) → IsFrame message at len
unfolding frame byte_at word_at
frame-IsFrame message at len h =
    let (head, e, h1) = bind_ok_or_inv (slice message 0 fixed_header) _ _ h in
    let (little, h2) = bind_refuse_if_inv (not (byte_at 0 head == b'l')) _ _ h1 in
    let (known, h3) = bind_refuse_if_inv (not (byte_at 3 head == protocol_version)) _ _ h2 in
    let (short, h4) = bind_refuse_if_inv (ltb max_array (word_at 12 head)) _ _ h3 in
    let (small, h5) = bind_refuse_if_inv (ltb max_incoming (word_at 4 head)) _ _ h4 in
    let (fits, h6) =
      bind_refuse_if_inv
        (ltb max_incoming (align_up (fixed_header + word_at 12 head) 8 + word_at 4 head)) _ _ h5 in
    framed head (not_false (byte_at 0 head) b'l' little)
      (not_false (byte_at 3 head) protocol_version known) (in_head message head 0 1 e (omega arith))
      (in_head message head 3 1 e (omega arith)) (in_head message head 4 4 e (omega arith))
      (in_head message head 12 4 e (omega arith)) fits h6
  where
    not_false : (x y : ℕ) → not (x == y) ≡ false → x ≡ y
    not_false x y h = ground arith

    framed :
        (head : List ℕ)
        → byte_at 0 head ≡ b'l'
        → byte_at 3 head ≡ protocol_version
        → byte_at 0 head ≡ byte_at 0 message
        → byte_at 3 head ≡ byte_at 3 message
        → word_at 4 head ≡ word_at 4 message
        → word_at 12 head ≡ word_at 12 message
        → ltb max_incoming (align_up (fixed_header + word_at 12 head) 8 + word_at 4 head) ≡ false
        → ◌≡◌ {A = Result WireError (ℕ × ℕ)}
            (ok (align_up (fixed_header + word_at 12 head) 8, word_at 4 head))
            (ok (at, len))
        → IsFrame message at len
    framed head little known b0 b3 w4 w12 fits same =
        let same_at : align_up (fixed_header + word_at 12 head) 8 ≡ at = cc in
        let same_len : word_at 4 head ≡ len = cc in
        (
          sym b0 ∙ little,
          sym b3 ∙ known,
          sym same_len ∙ w4,
          sym same_at ∙ ap (λ n. align_up (fixed_header + n) 8) w12,
          rw (sym same_at, sym same_len) (ground arith),
        )

finish_inv :
    (kind : ℕ) (body : List ℕ) (h : Header) (r : Message)
    → finish kind body h ≡ ok r
    → (r.kind ≡ kind) × (r.body ≡ body)
unfolding finish
finish_inv kind body h r e =
    let (signed, e1) =
      bind_refuse_if_inv (length h.signature == 0 && not (length body == 0)) _ _ e in
    (cc, cc)

-- A message that is read: a fixed header of this byte order and version, with the fields behind it, which decodes
-- and names the kind; nul bytes up to a multiple of eight; and the body, as long as the header says, which
-- together are within what is read. What is behind the body does not count.
pub record IsMessage (message : List ℕ) (r : Message) : Type 0 where
  pub header : List ℕ
  pub zeros : List ℕ
  pub behind : List ℕ
  pub whole : message ≡ header ++ (zeros ++ (r.body ++ behind))
  pub order : byte_at 0 message ≡ b'l'
  pub version : byte_at 3 message ≡ protocol_version
  pub fields_length : length header ≡ 16 + word_at 12 message
  pub body_length : length r.body ≡ word_at 4 message
  pub nul : all (λ b. b == 0) zeros ≡ true
  pub few : length zeros < 8
  pub aligned : (length header + length zeros) % 8 ≡ 0
  pub bounded : length header + length zeros + length r.body ≤ max_incoming
  pub values : Values
  pub decoded : decode header_signature header ≡ ok values
  pub fields : Values
  pub said : header_of values ≡ some (r.kind, fields)

aligned_up : (n : ℕ) → (align_up n 8 % 8 ≡ 0) × (align_up n 8 < n + 8) × (n ≤ align_up n 8)
unfolding align_up
aligned_up n = (omega arith, omega arith, omega arith)

-- Bytes that are read as a message are one: a fixed header of this byte order and version, with fields as long as
-- it says, which decodes and names the kind; fewer than eight nul bytes, up to a multiple of eight; and a body as
-- long as the header says, together at most 2 ^ 24 bytes. Bytes behind the body may follow, and do not count.
pub decode_message-IsMessage :
    (message : List ℕ) (r : Message) → decode_message message ≡ ok r → IsMessage message r
unfolding decode_message
decode_message-IsMessage message r h =
    let ((at, len), e1, h1) = >>=-eq-ok (frame message) _ h in
    let end = fixed_header + word_at 12 message in
    let (header, e2, h2) = bind_ok_or_inv (slice message 0 end) _ _ h1 in
    let (values, e3, h3) = >>=-eq-ok (decode header_signature header) _ h2 in
    let ((kind, fields), e4, h4) = bind_ok_or_inv (header_of values) _ _ h3 in
    let (zeros, e5, h5) = bind_ok_or_inv (slice message end at) _ _ h4 in
    let (nul, h6) = bind_refuse_if_inv (not (all (λ b. b == 0) zeros)) _ _ h5 in
    let (body, e6, h7) = bind_ok_or_inv (slice message at (at + len)) _ _ h6 in
    let (read, e7, h8) = >>=-eq-ok (read_fields fields no_fields) _ h7 in
    let (same_kind, same_body) = finish_inv kind body read r h8 in
    let (order, version, said_len, said_at, bounded) = frame-IsFrame message at len e1 in
    let (multiple, near, beyond) = aligned_up end in
    let f2 = slice_bounds message 0 end e2 in
    let f5 = slice_bounds message end at e5 in
    let f6 = slice_bounds message at (at + len) e6 in
    let placed : length header + length zeros ≡ at = omega (arith, f2, f5) in
    record {
      header = header;
      zeros = zeros;
      behind = drop (at + len) message;
      whole =
          slice-drop message 0 end e2
          ∙ ap (λ t. header ++ t) (slice-drop message end at e5)
          ∙ ap (λ t. header ++ (zeros ++ t)) (slice-drop message at (at + len) e6)
          ∙ ap (λ t. header ++ (zeros ++ (t ++ drop (at + len) message))) (sym same_body);
      order = order;
      version = version;
      fields_length = omega (arith, f2);
      body_length = ap length same_body ∙ omega (arith, f6) ∙ said_len;
      nul = ground arith;
      few = omega (arith, f5, said_at, near, beyond);
      aligned = ap (λ n. n % 8) (placed ∙ said_at) ∙ multiple;
      bounded = omega (arith, placed, bounded, f6, ap length same_body);
      values = values;
      decoded = e3;
      fields = fields;
      said = e4 ∙ ap (λ k. some (k, fields)) (sym same_kind);
    }

-- The descriptors that a value names, wherever they stand in it.
unfoldable mutual
  pub named_fds : Value → List ℕ
  named_fds (Value.fd index) = index ∷ []
  named_fds (Value.array items) = all_named_fds items
  named_fds (Value.struct given) = all_named_fds given
  named_fds (Value.dict entries) = entries_named_fds entries
  named_fds (Value.variant inner) = named_fds inner
  named_fds v = []

  pub all_named_fds : Values → List ℕ
  all_named_fds Values.nil = []
  all_named_fds (Values.cons value values) = named_fds value ++ all_named_fds values

  pub entries_named_fds : Entries → List ℕ
  entries_named_fds Entries.end = []
  entries_named_fds (Entries.entry key value entries) = named_fds value ++ entries_named_fds entries

-- A check that succeeds exactly where all these descriptors were given.
abbrev IsExact : Result WireError (Unit {0}) → List ℕ → ℕ → Type 0
IsExact r fds count = (r ≡ ok tt) ↔ All (λ i. i < count) fds

both :
    (r s : Result WireError (Unit {0})) (xs ys : List ℕ) (count : ℕ)
    → IsExact r xs count
    → IsExact s ys count
    → IsExact (r >> s) (xs ++ ys) count
both (err e) s xs ys count (f, g) k =
    ((λ q. cc), (λ a. absurd (not_ok (g (All-append_left (λ i. i < count) xs ys a)))))
  where
    not_ok : ◌≡◌ {A = Result WireError (Unit {0})} (err e) (ok tt) → ⊥
    not_ok q = cc
both (ok tt) s xs ys count (f, g) (f', g') = (
  (λ q. All-append (λ i. i < count) xs ys (f refl) (f' q)),
  (λ a. g' (All-append_right (λ i. i < count) xs ys a)),
)

mutual
  unfolding check_fd_indices check_all check_entries named_fds all_named_fds entries_named_fds

  check_value-IsExact :
      (v : Value) (count : ℕ) → IsExact (check_fd_indices v count) (named_fds v) count
  check_value-IsExact (Value.fd index) count = elim (Bool-cases (leb count index)) [
    | inl outside ↦ rw outside ((λ q. cc), (λ a. absurd (ground arith)))
    | inr inside ↦ rw inside ((λ q. (ground arith, tt)), (λ a. refl))
  ]
  check_value-IsExact (Value.array items) count = check_all-IsExact items count
  check_value-IsExact (Value.struct given) count = check_all-IsExact given count
  check_value-IsExact (Value.dict entries) count = check_entries-IsExact entries count
  check_value-IsExact (Value.variant inner) count = check_value-IsExact inner count
  check_value-IsExact v count = ((λ q. tt), (λ a. refl))

  check_all-IsExact :
      (vs : Values) (count : ℕ) → IsExact (check_all vs count) (all_named_fds vs) count
  check_all-IsExact Values.nil count = ((λ q. tt), (λ a. refl))
  check_all-IsExact (Values.cons value values) count =
      both (check_fd_indices value count) (check_all values count) (named_fds value)
        (all_named_fds values) count (check_value-IsExact value count)
        (check_all-IsExact values count)

  check_entries-IsExact :
      (es : Entries) (count : ℕ) → IsExact (check_entries es count) (entries_named_fds es) count
  check_entries-IsExact Entries.end count = ((λ q. tt), (λ a. refl))
  check_entries-IsExact (Entries.entry key value entries) count =
      both (check_fd_indices value count) (check_entries entries count) (named_fds value)
        (entries_named_fds entries) count (check_value-IsExact value count)
        (check_entries-IsExact entries count)

-- The check passes a value exactly where every descriptor that it names, at any depth, is below the number
-- that was given.
pub check_fd_indices_exact :
    (v : Value) (count : ℕ)
    → (check_fd_indices v count ≡ ok tt) ↔ All (λ i. i < count) (named_fds v)
check_fd_indices_exact v count = check_value-IsExact v count
