-- ===== src/NetProxy/Dns.antt =====
-- crates/bubbler-net-proxy/src/dns.rs: the reader of DNS answers, and the question that it asks. A message
-- is the list of its bytes; a text is its bytes in UTF-8. The reader's cursor is a number that each
-- function takes and returns. An address is the list of its bytes, four or sixteen.
pub mod Ends
use bubbler.Prelude.{
  ℕ, zero, suc, ◌+◌, ◌-◌, ◌*◌, ◌/◌, ◌%◌, ◌^◌, Bool, true, false, Option, none, some, List, [], ◌∷◌,
  ◌++◌, length, get_elem?, slice, take, drop, min, Result, ok, err, ◌>>=◌, ◌>>◌, ok_or, refuse_if,
  checked_add, ltb, leb, ◌==◌, ◌=b=◌, if◌then◌else◌, not, ◌&&◌, ◌||◌, to_lower, map,
}
use bubbler.NetProxy.Allow.{split, strip_dot}

abbrev pub max_name : ℕ
max_name = 255

abbrev pub max_label : ℕ
max_label = 63

abbrev pub max_jumps : ℕ
max_jumps = 16

abbrev pub max_records : ℕ
max_records = 32

abbrev pub max_cnames : ℕ
max_cnames = 8

abbrev pub type_a : ℕ
type_a = 1

abbrev pub type_cname : ℕ
type_cname = 5

abbrev pub type_aaaa : ℕ
type_aaaa = 28

abbrev pub class_in : ℕ
class_in = 1

-- `out_of_fuel` belongs to the model only.
pub data DnsError : Type 0 where
  short name_error pointer label_type not_an_answer question_error class_error : DnsError
  out_of_fuel : DnsError

pub data Data : Type 0 where
  v4 : List ℕ → Data
  v6 : List ℕ → Data
  cname : List ℕ → Data
  other : Data

pub record Record : Type 0 where
  pub name : List ℕ
  pub holds : Data

pub record Reply : Type 0 where
  pub id : ℕ
  pub truncated : Bool
  pub rcode : ℕ
  pub question_name : List ℕ
  pub question_type : ℕ
  pub addresses : List (List ℕ)

unfoldable pub u8 : List ℕ → ℕ → Result DnsError (ℕ × ℕ)
u8 msg pos = do b ← ok_or (get_elem? msg pos) short; ok (b, pos + 1)

unfoldable pub u16 : List ℕ → ℕ → Result DnsError (ℕ × ℕ)
u16 msg pos = do (a, pos1) ← u8 msg pos; (b, pos2) ← u8 msg pos1; ok (a * 2 ^ 8 + b, pos2)

unfoldable pub u32 : List ℕ → ℕ → Result DnsError (ℕ × ℕ)
u32 msg pos = do (a, pos1) ← u16 msg pos; (b, pos2) ← u16 msg pos1; ok (a * 2 ^ 16 + b, pos2)

unfoldable pub seek : List ℕ → ℕ → Result DnsError ℕ
seek msg to = if ltb (length msg) to then err short else ok to

-- `char::from(b.to_ascii_lowercase())` in UTF-8.
unfoldable pub text_of_byte : ℕ → List ℕ
text_of_byte b = if ltb b 128 then to_lower b ∷ [] else (192 + b / 64) ∷ (128 + b % 64) ∷ []

unfoldable pub text_of : List ℕ → List ℕ
text_of [] = []
text_of (b ∷ bs) = text_of_byte b ++ text_of bs

-- The variables of the loop over the labels.
pub record Walk : Type 0 where
  pub out : List ℕ
  pub pos : ℕ
  pub jumps : ℕ
  pub past : Option ℕ

-- What one round does: it ends the loop with the name and the cursor behind it, or goes on.
pub data Round : Type 0 where
  finished : List ℕ → ℕ → Round
  onward : Walk → Round

-- `end.or(Some(here))`
unfoldable pub or_here : Option ℕ → ℕ → ℕ
or_here none here = here
or_here (some there) here = there

-- The loop behind a label of `n` bytes, and behind a pointer to `to`.
unfoldable pub after_label : Walk → ℕ → List ℕ → Walk
after_label w n label = record w {
  out = w.out ++ ((if length w.out == 0 then [] else b'.' ∷ []) ++ text_of label);
  pos = w.pos + 1 + n;
}

unfoldable pub after_pointer : Walk → ℕ → Walk
after_pointer w to = record w {
  pos = to;
  jumps = w.jumps + 1;
  past = some (or_here w.past (w.pos + 2));
}

-- A label of `n` bytes behind its length.
unfoldable pub read_label : List ℕ → Walk → ℕ → Result DnsError Round
read_label msg w n = do
  label ← ok_or (slice msg (w.pos + 1) (w.pos + 1 + n)) short
  refuse_if (ltb max_name (length w.out + n + 1)) name_error
  ok (onward (after_label w n label))

-- A pointer whose first byte is `len`.
unfoldable pub read_pointer : List ℕ → Walk → ℕ → Result DnsError Round
read_pointer msg w len = do
  lo ← ok_or (get_elem? msg (w.pos + 1)) short
  let to = len % 64 * 2 ^ 8 + lo
  refuse_if (leb w.pos to) pointer
  refuse_if (ltb max_jumps (w.jumps + 1)) pointer
  ok (onward (after_pointer w to))

-- What the byte at the cursor asks for. Its two highest bits are `len / 64`.
unfoldable pub round_of : List ℕ → Walk → ℕ → Result DnsError Round
round_of msg w len =
    if len == 0
    then ok (finished w.out (or_here w.past (w.pos + 1)))
    else if len / 64 == 0
    then read_label msg w len
    else if len / 64 == 3
    then read_pointer msg w len
    else err label_type

-- One round of the loop.
unfoldable pub name_round : List ℕ → Walk → Result DnsError Round
name_round msg w = do len ← ok_or (get_elem? msg w.pos) short; round_of msg w len

-- What follows a round.
unfoldable pub go_on :
    (Walk → Result DnsError (List ℕ × ℕ)) → Result DnsError Round → Result DnsError (List ℕ × ℕ)
go_on again (err e) = err e
go_on again (ok (finished out past)) = ok (out, past)
go_on again (ok (onward w)) = again w

-- The loop, on fuel.
unfoldable pub name_loop : ℕ → List ℕ → Walk → Result DnsError (List ℕ × ℕ)
name_loop zero msg w = err out_of_fuel
name_loop (suc fuel) msg w = go_on (name_loop fuel msg) (name_round msg w)

abbrev pub max_rounds : ℕ
max_rounds = 300

-- One name, decompressed, lower case and without the root dot.
unfoldable pub name : List ℕ → ℕ → Result DnsError (List ℕ × ℕ)
name msg pos = name_loop max_rounds msg (record { out = []; pos = pos; jumps = 0; past = none })

-- What a record of this class and type holds, in the bytes from `pos` to `last`.
unfoldable pub read_data : List ℕ → ℕ → ℕ → ℕ → ℕ → Result DnsError Data
read_data msg class rtype pos last =
    let bytes = take (last - pos) (drop pos msg) in
    if class == class_in && rtype == type_a && last - pos == 4
    then ok (v4 bytes)
    else if class == class_in && rtype == type_aaaa && last - pos == 16
    then ok (v6 bytes)
    else if class == class_in && rtype == type_cname
    then (do (to, past) ← name msg pos; ok (cname to))
    else ok other

-- One answer record.
unfoldable pub read_record : List ℕ → ℕ → Result DnsError (Record × ℕ)
read_record msg pos = do
  (owner, pos1) ← name msg pos
  (rtype, pos2) ← u16 msg pos1
  (class, pos3) ← u16 msg pos2
  (ttl, pos4) ← u32 msg pos3
  (len, pos5) ← u16 msg pos4
  last ← ok_or (checked_add pos5 len) short
  refuse_if (ltb (length msg) last) short
  holds ← read_data msg class rtype pos5 last
  past ← seek msg last
  ok (record { name = owner; holds = holds }, past)

unfoldable pub read_records : ℕ → List ℕ → ℕ → Result DnsError (List Record × ℕ)
read_records zero msg pos = ok ([], pos)
read_records (suc n) msg pos = do
  (first, pos1) ← read_record msg pos
  (rest, past) ← read_records n msg pos1
  ok (first ∷ rest, past)
