-- ===== src/WlProxy/Wire.antt =====
-- crates/bubbler-wl-proxy/src/wire.rs: the Wayland wire format, an 8-byte header and then the
-- arguments that the message's signature lays out. The wire is in the machine's byte order: the
-- parameter `order`, so that what is proved holds on either machine. An `i32` is its bit pattern, a
-- number below 2 ^ 32, and a `CString` is its bytes without the NUL.
pub mod Bytes
pub mod RoundTrip
pub mod Reads
pub mod Sound
pub mod Reencode
pub mod Stable
use bubbler.Prelude.{
  ℕ, zero, suc, ◌+◌, ◌-◌, ◌/◌, ◌*◌, ◌%◌, ◌^◌, ◌<◌, ◌≢◌, Bool, true, false, Option, none, some, List,
  [], ◌∷◌, ◌++◌, length, slice, replicate, All, IsByte, IsU32, Endian, Result, ok, err, ◌>>=◌, ◌>>◌,
  ok_or, refuse_if, u32_of_slice, u32_to_bytes, checked_add, ltb, ◌==◌, if◌then◌else◌, not, ◌||◌,
  drop,
}
use bubbler.WlProxy.Tables.{ArgKind}

-- Bytes of the fixed message header.
abbrev pub header_size : ℕ
header_size = 8

pub data WireError : Type 0 where
  need_more : WireError
  bad_size : ℕ → WireError
  truncated : WireError
  trailing : ℕ → WireError
  bad_string : WireError
  too_large : ℕ → WireError

pub record Header : Type 0 where
  pub object : ℕ
  pub opcode : ℕ
  pub size : ℕ

pub data Arg : Type 0 where
  int : ℕ → Arg
  uint : ℕ → Arg
  fixed : ℕ → Arg
  string : Option (List ℕ) → Arg
  object : ℕ → Arg
  new_id : ℕ → Arg
  array : List ℕ → Arg
  fd : Arg

-- The header's second word: the size above the opcode.
unfoldable pub header_of_words : ℕ → ℕ → Result WireError Header
header_of_words id word =
    let opcode = word % 2 ^ 16 in
    let size = word / 2 ^ 16 % 2 ^ 16 in
    if ltb size header_size || not (size % 4 == 0)
    then err (bad_size size)
    else ok (record { object = id; opcode = opcode; size = size })

unfoldable pub decode_header : Endian → List ℕ → Result WireError Header
decode_header order buf = do
  head ← ok_or (slice buf 0 header_size) need_more
  header_of_words (u32_of_slice order head) (u32_of_slice order (drop 4 head))

-- The size is shifted above the opcode, so the two share no bit, and `|` is `+`.
unfoldable pub encode_header : Endian → Header → List ℕ
encode_header order h =
    u32_to_bytes order h.object ++ u32_to_bytes order (h.size * 2 ^ 16 + h.opcode)

-- A cursor `at` goes in and comes back beside what was read.
unfoldable pub take_word : Endian → List ℕ → ℕ → Result WireError (ℕ × ℕ)
take_word order body at = do
  end ← ok_or (checked_add at 4) truncated
  word ← ok_or (slice body at end) truncated
  ok (u32_of_slice order word, end)

-- `len.checked_next_multiple_of(4)`
unfoldable pub checked_next_multiple_of_4 : ℕ → Option ℕ
checked_next_multiple_of_4 len = if len % 4 == 0 then some len else checked_add len (4 - len % 4)

unfoldable pub take_bytes : List ℕ → ℕ → ℕ → Result WireError (List ℕ × ℕ)
take_bytes body at len = do
  padded ← ok_or (checked_next_multiple_of_4 len) truncated
  end ← ok_or (checked_add at len) truncated
  past ← ok_or (checked_add at padded) truncated
  refuse_if (ltb (length body) past) truncated
  bytes ← ok_or (slice body at end) truncated
  ok (bytes, past)

unfoldable pub put_bytes : Endian → List ℕ → List ℕ → Result WireError (List ℕ)
put_bytes order body bytes =
    if ltb (length bytes) (2 ^ 32)
    then ok (
        body
        ++ (u32_to_bytes order (length bytes)
            ++ (bytes ++ replicate ((4 - length bytes % 4) % 4) 0)))
    else err (too_large (length bytes))

-- `bytes.split_last()`: the last byte, and those before it.
unfoldable pub split_last : List ℕ → Option (ℕ × List ℕ)
split_last [] = none
split_last (b ∷ bs) = elim (split_last bs) [
  | none ↦ some (b, [])
  | some (last, text) ↦ some (last, b ∷ text)
]

-- `CString::new`, which refuses an embedded NUL.
unfoldable pub has_nul : List ℕ → Bool
has_nul [] = false
has_nul (b ∷ bs) = b == 0 || has_nul bs

-- A string of `len` bytes on the wire, its NUL included.
unfoldable pub take_string : List ℕ → ℕ → ℕ → Result WireError (Arg × ℕ)
take_string body at len = if len == 0 then ok (string none, at) else do
  (bytes, past) ← take_bytes body at len
  (last, text) ← ok_or (split_last bytes) bad_string
  refuse_if (not (last == 0)) bad_string
  refuse_if (has_nul text) bad_string
  ok (string (some text), past)

module _ (order : Endian) where
  unfoldable pub decode_arg : List ℕ → ArgKind → ℕ → Result WireError (Arg × ℕ)
  decode_arg body ArgKind.int at = do (w, past) ← take_word order body at; ok (int w, past)
  decode_arg body ArgKind.uint at = do (w, past) ← take_word order body at; ok (uint w, past)
  decode_arg body ArgKind.fixed at = do (w, past) ← take_word order body at; ok (fixed w, past)
  decode_arg body ArgKind.object at = do (w, past) ← take_word order body at; ok (object w, past)
  decode_arg body ArgKind.new_id at = do (w, past) ← take_word order body at; ok (new_id w, past)
  decode_arg body ArgKind.string at = do
    (len, past) ← take_word order body at
    take_string body past len
  decode_arg body ArgKind.array at = do
    (len, past) ← take_word order body at
    (bytes, end) ← take_bytes body past len
    ok (array bytes, end)
  decode_arg body ArgKind.fd at = ok (fd, at)

  -- The loop over the signature: the arguments from `at` on, and the final cursor.
  unfoldable pub decode_args : List ℕ → List ArgKind → ℕ → Result WireError (List Arg × ℕ)
  decode_args body [] at = ok ([], at)
  decode_args body (kind ∷ sig) at = do
    (arg, past) ← decode_arg body kind at
    (args, end) ← decode_args body sig past
    ok (arg ∷ args, end)

  unfoldable pub decode : List ℕ → List ArgKind → Result WireError (List Arg × ℕ)
  decode buf sig = do
    header ← decode_header order buf
    body ← ok_or (slice buf header_size header.size) need_more
    (args, at) ← decode_args body sig 0
    refuse_if (not (at == length body)) (trailing (length body - at))
    ok (args, header.size)

  -- One argument appended to the body.
  unfoldable pub encode_arg : List ℕ → Arg → Result WireError (List ℕ)
  encode_arg body (int v) = ok (body ++ u32_to_bytes order v)
  encode_arg body (fixed v) = ok (body ++ u32_to_bytes order v)
  encode_arg body (uint v) = ok (body ++ u32_to_bytes order v)
  encode_arg body (object v) = ok (body ++ u32_to_bytes order v)
  encode_arg body (new_id v) = ok (body ++ u32_to_bytes order v)
  encode_arg body (string none) = ok (body ++ u32_to_bytes order 0)
  encode_arg body (string (some text)) = put_bytes order body (text ++ (0 ∷ []))
  encode_arg body (array bytes) = put_bytes order body bytes
  encode_arg body fd = ok body

  unfoldable pub encode_args : List ℕ → List Arg → Result WireError (List ℕ)
  encode_args body [] = ok body
  encode_args body (arg ∷ args) = do body' ← encode_arg body arg; encode_args body' args

  unfoldable pub encode : ℕ → ℕ → List Arg → Result WireError (List ℕ)
  encode id opcode args = do
    body ← encode_args [] args
    let len = header_size + length body
    refuse_if (not (ltb len (2 ^ 16))) (too_large len)
    ok (encode_header order (record { object = id; opcode = opcode; size = len }) ++ body)

-- How many file descriptors a message of this signature owns.
unfoldable pub fd_count : List ArgKind → ℕ
fd_count [] = 0
fd_count (ArgKind.fd ∷ sig) = suc (fd_count sig)
fd_count (_ ∷ sig) = fd_count sig

-- What the types of the source hold: 32-bit words, and texts without a NUL.
abbrev pub IsText : List ℕ → Type 0
IsText = All (λ b. (b ≢ 0) × IsByte b)

abbrev pub IsValid : Arg → Type 0
IsValid (int v) = IsU32 v
IsValid (uint v) = IsU32 v
IsValid (fixed v) = IsU32 v
IsValid (string none) = Unit
IsValid (string (some text)) = IsText text
IsValid (object v) = IsU32 v
IsValid (new_id v) = IsU32 v
IsValid (array bytes) = All IsByte bytes
IsValid fd = Unit

abbrev pub kind_of : Arg → ArgKind
kind_of (int v) = ArgKind.int
kind_of (uint v) = ArgKind.uint
kind_of (fixed v) = ArgKind.fixed
kind_of (string s) = ArgKind.string
kind_of (object v) = ArgKind.object
kind_of (new_id v) = ArgKind.new_id
kind_of (array bytes) = ArgKind.array
kind_of fd = ArgKind.fd
