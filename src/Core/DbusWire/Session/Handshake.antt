-- ===== src/Core/DbusWire/Session/Handshake.antt =====
-- crates/bubbler-core/src/dbus_wire.rs: the opening of a session on a connected socket, in lines of text, before
-- the first message.
use bubbler.Prelude.{
  ℕ, ◌+◌, ◌-◌, ◌/◌, ◌%◌, Bool, true, false, List, [], ◌∷◌, ◌++◌, Option, none, some, Result, ok,
  err, ok_or, ltb, leb, ◌==◌, ◌=b=◌, ◌&&◌, ◌||◌, length, if◌then◌else◌, codes, decimal, to_str,
  to_string_lossy,
}
use bubbler.NetProxy.Allow.{all}
use bubbler.Core.DbusWire.Types.{WireError}
use bubbler.Core.DbusWire.Session.{Session, and_then, fill_until, send}
use bubbler.Core.DbusWire.Session.Calls.{hello}

unfoldable pub hex_digit : ℕ → ℕ
hex_digit n = if ltb n 10 then b'0' + n else b'a' + (n - 10)

unfoldable pub hex_bytes : List ℕ → List ℕ
hex_bytes [] = []
hex_bytes (b ∷ bytes) = hex_digit (b / 16) ∷ hex_digit (b % 16) ∷ hex_bytes bytes

unfoldable pub uid_hex : ℕ → List ℕ
uid_hex uid = hex_bytes (decimal uid)

abbrev pub max_auth_line : ℕ
max_auth_line = 4096

unfoldable pub strip_prefix : List ℕ → List ℕ → Option (List ℕ)
strip_prefix [] s = some s
strip_prefix (c ∷ prefix) [] = none
strip_prefix (c ∷ prefix) (b ∷ s) =
    let rest = strip_prefix prefix s in if b == c then rest else none

unfoldable pub has_prefix : List ℕ → List ℕ → Bool
has_prefix prefix s = elim (strip_prefix prefix s) [ some rest ↦ true | none ↦ false ]

-- `trim` of ASCII text
unfoldable pub is_space : ℕ → Bool
is_space b = b == 32 || (leb 9 b && leb b 13)

unfoldable pub trim_start : List ℕ → List ℕ
trim_start [] = []
trim_start (b ∷ s) = let rest = trim_start s in if is_space b then rest else b ∷ s

unfoldable pub trim_end : List ℕ → List ℕ
trim_end [] = []
trim_end (b ∷ s) = let rest = trim_end s in if is_space b && length rest == 0 then [] else b ∷ rest

-- The first line of the buffer without its ending, and what is behind.
unfoldable pub with_front : ℕ → Option (List ℕ × List ℕ) → Option (List ℕ × List ℕ)
with_front b none = none
with_front b (some (line, rest)) = some (b ∷ line, rest)

unfoldable pub first_line : List ℕ → Option (List ℕ × List ℕ)
first_line [] = none
first_line (a ∷ []) = none
first_line (a ∷ b ∷ buf) =
    let later = first_line (b ∷ buf) in
    if a == 13 && b == 10 then some ([], buf) else with_front a later

unfoldable pub ascii_text : List ℕ → Result WireError (List ℕ)
ascii_text line =
    if all (λ b. ltb b 128) line
    then ok_or (to_str line) WireError.bad_string
    else err (WireError.auth (to_string_lossy line))

unfoldable pub next_line : Session → Option (Result WireError (List ℕ) × Session)
next_line s = elim (first_line s.buf) [
  | some (line, rest) ↦ some (ascii_text line, record s { buf = rest })
  | none ↦
      if ltb max_auth_line (length s.buf)
      then some (err (WireError.auth (codes "a line with no end")), s)
      else none
]

unfoldable pub read_line : Session → Result WireError (List ℕ) × Session
read_line s = fill_until next_line s.arrivals s

-- The answer to the credentials.
unfoldable pub accepted : List ℕ → Result WireError (Unit {0})
accepted line = elim (strip_prefix (codes "REJECTED") line) [
  | some rest ↦ err (WireError.auth_rejected (trim_end (trim_start rest)))
  | none ↦ if has_prefix (codes "OK ") line then ok tt else err (WireError.auth line)
]

-- The answer to the question for descriptors.
unfoldable pub negotiated : List ℕ → Session → Result WireError (Unit {0}) × Session
negotiated line s =
    if line =b= codes "AGREE_UNIX_FD"
    then (ok tt, record s { fd_passing = true })
    else if has_prefix (codes "ERROR") line
    then (ok tt, s)
    else (err (WireError.auth line), s)

abbrev pub line_end : List ℕ
line_end = 13 ∷ 10 ∷ []

unfoldable pub authenticate : ℕ → Session → Result WireError (Unit {0}) × Session
authenticate uid s =
    and_then (send (0 ∷ (codes "AUTH EXTERNAL " ++ (uid_hex uid ++ line_end))) 0 s) (λ u s1.
      and_then (read_line s1) (λ l s2.
        and_then (accepted l, s2)
          (λ u s3. and_then (send (codes "NEGOTIATE_UNIX_FD" ++ line_end) 0 s3) (λ u s4.
            and_then (read_line s4) (λ l s5.
              and_then (negotiated l s5) (λ u s6. send (codes "BEGIN" ++ line_end) 0 s6))))))

-- What `connect` does on its socket, on a session with nothing in it.
unfoldable pub connect : ℕ → Session → Result WireError (Unit {0}) × Session
connect uid s =
    and_then (authenticate uid s)
      (λ u s1. and_then (hello s1) (λ name s2. (ok tt, record s2 { unique_name = name })))
