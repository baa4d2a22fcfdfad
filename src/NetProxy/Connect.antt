-- ===== src/NetProxy/Connect.antt =====
-- crates/bubbler-net-proxy/src/connect.rs: the reader of a CONNECT request, a function of the bytes
-- received so far. A slice of the buffer is the list of its bytes.
pub mod Arrival
pub mod Target
pub mod Waiting
pub mod Whole
use bubbler.Prelude.{
  ℕ, zero, suc, ◌+◌, ◌-◌, ◌^◌, Bool, true, false, Option, none, some, List, [], ◌∷◌, ◌++◌, length,
  take, drop, min, map, Result, ok, err, ◌>>=◌, ◌>>◌, ok_or, refuse_if, ltb, leb, ◌==◌, ◌=b=◌,
  if◌then◌else◌, not, ◌&&◌, ◌||◌, codes, decimal, is_digit, is_alphanumeric, to_lower, to_str,
}
use bubbler.NetProxy.Allow.{
  split, strip_dot, starts_with, all, are_labels, rsplit_once, digits_value, eq_ignore_ascii_case,
}

abbrev pub max_request_line : ℕ
max_request_line = 512

abbrev pub max_target : ℕ
max_target = 259

abbrev pub max_headers : ℕ
max_headers = 8192

abbrev pub max_header_count : ℕ
max_header_count = 64

pub record Request : Type 0 where
  pub host : List ℕ
  pub port : ℕ
  pub consumed : ℕ

pub record Status : Type 0 where
  pub code : ℕ
  pub reason : List ℕ
  pub allow_header : Bool

abbrev pub status : ℕ → List ℕ → Status
status code reason = record { code = code; reason = reason; allow_header = false }

-- Not a whole request yet.
abbrev pub incomplete : Status
incomplete = status 0 (codes "Incomplete")

abbrev pub bad_request : Status
bad_request = status 400 (codes "Bad Request")

abbrev pub forbidden : Status
forbidden = status 403 (codes "Forbidden")

abbrev pub method_not_allowed : Status
method_not_allowed = record { code = 405; reason = codes "Method Not Allowed"; allow_header = true }

abbrev pub uri_too_long : Status
uri_too_long = status 414 (codes "URI Too Long")

abbrev crlf : List ℕ
crlf = 13 ∷ 10 ∷ []

-- `Status::response`
unfoldable pub response : Status → List ℕ
response s =
    codes "HTTP/1.1 "
    ++ (decimal s.code
        ++ (codes " "
            ++ (s.reason
                ++ (crlf
                    ++ ((if s.allow_header then codes "Allow: CONNECT" ++ crlf else [])
                        ++ (codes "Content-Length: 0"
                            ++ (crlf ++ (codes "Connection: close" ++ (crlf ++ crlf)))))))))

-- `iter().position(|&b| b == c)`
unfoldable pub one_on : Option ℕ → Option ℕ
one_on none = none
one_on (some at) = some (at + 1)

unfoldable pub position : ℕ → List ℕ → Option ℕ
position c [] = none
position c (b ∷ bs) = let rest = position c bs in if b == c then some 0 else one_on rest

-- `line.strip_suffix(b"\r").unwrap_or(line)`
unfoldable pub strip_cr : List ℕ → List ℕ
strip_cr [] = []
strip_cr (b ∷ []) = if b == 13 then [] else b ∷ []
strip_cr (a ∷ b ∷ bs) = a ∷ strip_cr (b ∷ bs)

-- The line at the start of `rest`, where a newline was found in the window, and the offset behind it.
unfoldable pub line_at : Option ℕ → List ℕ → ℕ → ℕ → Status → Result Status (List ℕ × ℕ)
line_at (some at) rest from window over = ok (strip_cr (take at rest), from + at + 1)
line_at none rest from window over = if ltb window (length rest) then err over else err incomplete

unfoldable pub split_line : List ℕ → ℕ → ℕ → Status → Result Status (List ℕ × ℕ)
split_line buf from window over =
    let rest = drop from buf in
    line_at (position 10 (take (min (length rest) window) rest)) rest from window over

-- A space or visible ASCII; a tab, a space or visible ASCII.
unfoldable pub is_request_byte : ℕ → Bool
is_request_byte b = b == b' ' || (leb 0x21 b && leb b 0x7e)

unfoldable pub is_value_byte : ℕ → Bool
is_value_byte b = b == 9 || (leb 0x20 b && leb b 0x7e)

-- `let [method, target, version] = words[..]`
unfoldable pub three : List (List ℕ) → Option (List ℕ × List ℕ × List ℕ)
three (a ∷ b ∷ c ∷ []) = some (a, b, c)
three _ = none

-- The last label is not empty and all digits.
unfoldable pub last_is_number : List (List ℕ) → Bool
last_is_number [] = false
last_is_number (label ∷ []) = not (length label == 0) && all is_digit label
last_is_number (a ∷ b ∷ labels) = last_is_number (b ∷ labels)

unfoldable pub target_of : List ℕ → Result Status (List ℕ × ℕ)
target_of target = do
  refuse_if (ltb max_target (length target)) uri_too_long
  text ← ok_or (to_str target) bad_request
  (host, port) ← ok_or (rsplit_once b':' text) bad_request
  refuse_if (starts_with b'[' host) forbidden
  refuse_if (length port == 0 || (ltb 5 (length port) || not (all is_digit port))) bad_request
  refuse_if (digits_value 0 port == 0 || not (ltb (digits_value 0 port) (2 ^ 16))) bad_request
  refuse_if (last_is_number (split b'.' (strip_dot host))) forbidden
  refuse_if (not (are_labels (split b'.' (strip_dot host)))) bad_request
  ok (map to_lower (strip_dot host), digits_value 0 port)

unfoldable pub request_line : List ℕ → Result Status (List ℕ × ℕ)
request_line line = do
  refuse_if (not (all is_request_byte line)) bad_request
  (method, target, version) ← ok_or (three (split b' ' line)) bad_request
  refuse_if (not (method =b= codes "CONNECT")) method_not_allowed
  refuse_if (not (version =b= codes "HTTP/1.1") && not (version =b= codes "HTTP/1.0")) bad_request
  target_of target

unfoldable pub is_one_of : List ℕ → ℕ → Bool
is_one_of [] b = false
is_one_of (c ∷ cs) b = b == c || is_one_of cs b

unfoldable pub is_token : ℕ → Bool
is_token b = is_alphanumeric b || is_one_of (codes "!#$%&'*+-.^_`|~") b

-- One header field, and whether it was `Host`.
unfoldable pub field : List ℕ → Result Status Bool
field line = do
  refuse_if (starts_with b' ' line || starts_with 9 line) bad_request
  colon ← ok_or (position b':' line) bad_request
  refuse_if (length (take colon line) == 0 || not (all is_token (take colon line))) bad_request
  refuse_if (not (all is_value_byte (drop (colon + 1) line))) bad_request
  ok (eq_ignore_ascii_case (take colon line) (codes "host"))

-- A line of the header block from `at` on.
unfoldable pub header_line : List ℕ → ℕ → Result Status (List ℕ × ℕ)
header_line buf at = do
  refuse_if (leb max_headers at) bad_request
  split_line buf at (max_headers - at) bad_request

-- The loop over the fields, when `left` more may follow: the offset behind the blank line and the number
-- of `Host` fields.
unfoldable pub headers : ℕ → List ℕ → ℕ → ℕ → Result Status (ℕ × ℕ)
headers zero buf at hosts = do
  (line, next) ← header_line buf at
  if length line == 0 then ok (next, hosts) else err bad_request
headers (suc left) buf at hosts = do
  (line, next) ← header_line buf at
  if length line == 0
      then ok (next, hosts)
      else (do is_host ← field line; headers left buf next (if is_host then hosts + 1 else hosts))

-- Read a `CONNECT` request out of a buffer.
unfoldable pub parse : List ℕ → Result Status Request
parse buf = do
  (line, at) ← split_line buf 0 max_request_line uri_too_long
  (host, port) ← request_line line
  (consumed, hosts) ← headers max_header_count buf at 0
  refuse_if (not (hosts == 1)) bad_request
  ok (record { host = host; port = port; consumed = consumed })
