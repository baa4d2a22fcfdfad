-- ===== src/NetProxy/Tests/Allow.antt =====
-- A list of two targets, and the theorems on allowed names at it.
use bubbler.Prelude.{
  ℕ, ◌^◌, ◌≡◌, ◌<◌, refl, true, false, List, [], ◌∷◌, ok, err, codes, is_digit, is_alphanumeric,
  to_lower, ◌=b=◌, get_elem?, some,
}
use bubbler.NetProxy.Allow.{
  HostPattern, address, only_wildcard, empty_label, bad_port, Allowlist, check_label, check_labels,
  is_ok, are_labels, eq_ignore_ascii_case, same_labels, remove_first, matches, join, split, extend,
  strip_dot, is_nil, last_is_digits, parse, read_labels, entry, parse_entries, parse_list,
  any_matches, allows, rsplit_once, all, digits_value, starts_with, ends_with, is_label_byte,
  to_string,
}
use bubbler.NetProxy.Allow.Matching.{Covers, matches-Covers, allows-Covers}

program : Unit {0}
unfolding ◌=b=◌ is_digit is_alphanumeric to_lower check_label check_labels is_ok are_labels
    eq_ignore_ascii_case same_labels remove_first matches join split extend strip_dot is_nil
    last_is_digits parse read_labels entry parse_entries parse_list any_matches allows rsplit_once
    all digits_value starts_with ends_with is_label_byte to_string
program = tt

abbrev wild : HostPattern
wild = record { labels = codes "example" ∷ codes "com" ∷ []; wildcard = true }

abbrev plain : HostPattern
plain = record { labels = codes "api" ∷ codes "net" ∷ []; wildcard = false }

abbrev words : List (List ℕ)
words = codes "*.Example.com:443" ∷ codes "api.net.:8080" ∷ []

abbrev targets : Allowlist
targets = record { entries = (wild, 443) ∷ (plain, 8080) ∷ [] }

read : parse_list words ≡ ok targets
unfolding program
read = refl

printed : to_string wild ≡ codes "*.example.com"
unfolding program
printed = refl

an_address : parse (codes "1.2.3.4") ≡ err address
unfolding program
an_address = refl

no_name : parse (codes "*") ≡ err only_wildcard
unfolding program
no_name = refl

two_dots : parse (codes "a..b") ≡ err empty_label
unfolding program
two_dots = refl

port_zero : entry (codes "a.b:0") ≡ err bad_port
unfolding program
port_zero = refl

not_itself : matches wild (codes "example.com") ≡ false
unfolding program
not_itself = refl

not_two : matches wild (codes "a.b.example.com") ≡ false
unfolding program
not_two = refl

wild-matches : matches wild (codes "API.example.com.") ≡ true
unfolding program
wild-matches = refl

wild_some : is_nil wild.labels ≡ false
unfolding program
wild_some = refl

matches-Covers_example : Covers wild (codes "API.example.com.")
matches-Covers_example = matches-Covers wild (codes "API.example.com.") wild_some wild-matches

allowed : allows targets (codes "Api.Net") 8080 ≡ true
unfolding program
allowed = refl

other_port : allows targets (codes "Api.Net") 443 ≡ false
unfolding program
other_port = refl

allows-Covers_example :
    (at : ℕ) × (word : List ℕ) × (pattern : HostPattern) × (get_elem? words at ≡ some word)
    × (entry word ≡ ok (pattern, 8080))
    × (0 < 8080)
    × (8080 < 2 ^ 16)
    × Covers pattern (codes "Api.Net")
allows-Covers_example = allows-Covers words targets (codes "Api.Net") 8080 read allowed
