-- ===== src/NetProxy/Allow.antt =====
-- crates/bubbler-net-proxy/src/allow.rs: the names and ports that a run of the proxy may reach. A `&str`
-- is its bytes, and the text of an error is a constructor of `NameError`.
pub mod Matching
use bubbler.Prelude.{
  ℕ, ◌+◌, ◌-◌, ◌*◌, ◌^◌, ◌≡◌, Bool, true, false, Option, none, some, List, [], ◌∷◌, ◌++◌, map,
  length, Result, ok, err, ◌>>=◌, ◌>>◌, ok_or, refuse_if, ltb, ◌==◌, ◌=b=◌, not, ◌&&◌, ◌||◌,
  if◌then◌else◌, codes, is_digit, is_alphanumeric, to_lower,
}

pub record HostPattern : Type 0 where
  pub labels : List (List ℕ)
  pub wildcard : Bool

pub data NameError : Type 0 where
  name_too_long only_wildcard address : NameError
  empty_label label_too_long bad_character bad_hyphen : NameError
  no_colon bad_port_digits bad_port : NameError

abbrev pub max_name : ℕ
max_name = 253

abbrev pub max_label : ℕ
max_label = 63

unfoldable pub all : (ℕ → Bool) → List ℕ → Bool
all test [] = true
all test (b ∷ bs) = test b && all test bs

-- `s.starts_with('-')`, `s.ends_with('-')`.
unfoldable pub starts_with : ℕ → List ℕ → Bool
starts_with c [] = false
starts_with c (b ∷ bs) = b == c

unfoldable pub ends_with : ℕ → List ℕ → Bool
ends_with c [] = false
ends_with c (b ∷ []) = b == c
ends_with c (a ∷ b ∷ bs) = ends_with c (b ∷ bs)

-- `s.strip_suffix('.').unwrap_or(s)`
unfoldable pub strip_dot : List ℕ → List ℕ
strip_dot [] = []
strip_dot (b ∷ []) = if b == b'.' then [] else b ∷ []
strip_dot (a ∷ b ∷ bs) = a ∷ strip_dot (b ∷ bs)

-- One byte more at the front of the first piece.
unfoldable pub extend : ℕ → List (List ℕ) → List (List ℕ)
extend b [] = (b ∷ []) ∷ []
extend b (piece ∷ pieces) = (b ∷ piece) ∷ pieces

-- `s.split('.')`: at least one piece, maybe empty.
unfoldable pub split : ℕ → List ℕ → List (List ℕ)
split c [] = [] ∷ []
split c (b ∷ bs) = let pieces = split c bs in if b == c then [] ∷ pieces else extend b pieces

-- The bytes of a label.
unfoldable pub is_label_byte : ℕ → Bool
is_label_byte b = is_alphanumeric b || b == b'-'

unfoldable pub check_label : List ℕ → Result NameError (Unit {0})
check_label s = do
  refuse_if (length s == 0) empty_label
  refuse_if (ltb max_label (length s)) label_too_long
  refuse_if (not (all is_label_byte s)) bad_character
  refuse_if (starts_with b'-' s || ends_with b'-' s) bad_hyphen

-- The labels that follow a first `*`.
unfoldable pub check_labels : List (List ℕ) → Result NameError (List (List ℕ))
check_labels [] = ok []
check_labels (label ∷ labels) = do
  check_label label
  rest ← check_labels labels
  ok (map to_lower label ∷ rest)

unfoldable pub read_labels : List (List ℕ) → Result NameError (List (List ℕ) × Bool)
read_labels [] = ok ([], false)
read_labels (label ∷ labels) =
    if label =b= codes "*"
    then (do rest ← check_labels labels; ok (rest, true))
    else (do all_labels ← check_labels (label ∷ labels); ok (all_labels, false))

-- `labels.last()` is all digits.
unfoldable pub last_is_digits : List (List ℕ) → Bool
last_is_digits [] = false
last_is_digits (label ∷ []) = all is_digit label
last_is_digits (a ∷ b ∷ labels) = last_is_digits (b ∷ labels)

unfoldable pub is_nil : List (List ℕ) → Bool
is_nil [] = true
is_nil (x ∷ xs) = false

unfoldable pub parse : List ℕ → Result NameError HostPattern
parse s = do
  refuse_if (ltb max_name (length s)) name_too_long
  (labels, wildcard) ← read_labels (split b'.' (strip_dot s))
  refuse_if (is_nil labels) only_wildcard
  refuse_if (last_is_digits labels) address
  ok (record { labels = labels; wildcard = wildcard })

unfoldable pub is_ok : Result NameError (Unit {0}) → Bool
is_ok (ok _) = true
is_ok (err _) = false

-- `got.iter().all(...)`
unfoldable pub are_labels : List (List ℕ) → Bool
are_labels [] = true
are_labels (label ∷ labels) = is_ok (check_label label) && are_labels labels

unfoldable pub eq_ignore_ascii_case : List ℕ → List ℕ → Bool
eq_ignore_ascii_case a b = map to_lower a =b= map to_lower b

-- Of equal length, and equal pairwise but for case.
unfoldable pub same_labels : List (List ℕ) → List (List ℕ) → Bool
same_labels [] [] = true
same_labels [] (l ∷ ls) = false
same_labels (g ∷ gs) [] = false
same_labels (g ∷ gs) (l ∷ ls) = eq_ignore_ascii_case g l && same_labels gs ls

-- `got.remove(0)`
unfoldable pub remove_first : List (List ℕ) → List (List ℕ)
remove_first [] = []
remove_first (g ∷ gs) = gs

unfoldable pub matches : HostPattern → List ℕ → Bool
matches pattern host =
    let got = split b'.' (strip_dot host) in
    if ltb max_name (length host)
    then false
    else if not (are_labels got)
    then false
    else same_labels (if pattern.wildcard then remove_first got else got) pattern.labels

-- `self.labels.join(".")`
unfoldable pub join : List (List ℕ) → List ℕ
join [] = []
join (label ∷ []) = label
join (a ∷ b ∷ labels) = a ++ (b'.' ∷ join (b ∷ labels))

-- The `Display` of a pattern.
unfoldable pub to_string : HostPattern → List ℕ
to_string pattern = (if pattern.wildcard then codes "*." else []) ++ join pattern.labels

pub record Allowlist : Type 0 where
  pub entries : List (HostPattern × ℕ)

-- `word.rsplit_once(':')`
unfoldable pub rsplit_once : ℕ → List ℕ → Option (List ℕ × List ℕ)
rsplit_once c [] = none
rsplit_once c (b ∷ bs) = elim (rsplit_once c bs) [
  | some (before, after) ↦ some (b ∷ before, after)
  | none ↦ if b == c then some ([], bs) else none
]

-- The value of a run of digits after those read.
unfoldable pub digits_value : ℕ → List ℕ → ℕ
digits_value acc [] = acc
digits_value acc (b ∷ bs) = digits_value (acc * 10 + (b - b'0')) bs

unfoldable pub entry : List ℕ → Result NameError (HostPattern × ℕ)
entry word = do
  (name, port) ← ok_or (rsplit_once b':' word) no_colon
  pattern ← parse name
  refuse_if (length port == 0 || (ltb 5 (length port) || not (all is_digit port))) bad_port_digits
  refuse_if (digits_value 0 port == 0 || not (ltb (digits_value 0 port) (2 ^ 16))) bad_port
  ok (pattern, digits_value 0 port)

unfoldable pub parse_entries : List (List ℕ) → Result NameError (List (HostPattern × ℕ))
parse_entries [] = ok []
parse_entries (word ∷ words) = do first ← entry word; rest ← parse_entries words; ok (first ∷ rest)

unfoldable pub parse_list : List (List ℕ) → Result NameError Allowlist
parse_list words = do entries ← parse_entries words; ok (record { entries = entries })

unfoldable pub any_matches : List (HostPattern × ℕ) → List ℕ → ℕ → Bool
any_matches [] host port = false
any_matches ((pattern, allowed) ∷ entries) host port =
    (allowed == port && matches pattern host) || any_matches entries host port

unfoldable pub allows : Allowlist → List ℕ → ℕ → Bool
allows list host port = any_matches list.entries host port
