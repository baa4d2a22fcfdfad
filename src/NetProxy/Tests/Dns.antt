-- ===== src/NetProxy/Tests/Dns.antt =====
-- A message with an alias and an address, a message whose name is a loop, and the theorems on the
-- reader and on the client at them.
use bubbler.Prelude.{
  ℕ, zero, suc, ◌≡◌, ◌≢◌, ◌≤◌, ◌<◌, ◌⊎◌, refl, false, some, List, [], ◌∷◌, length, codes, get_elem?,
  slice, ok, err, checked_add, ◌=b=◌, to_lower,
}
use bubbler.NetProxy.Allow.{split, extend, strip_dot}
use bubbler.NetProxy.Dns.{
  pointer, out_of_fuel, Record, cname, v4, u8, u16, u32, seek, text_of_byte, text_of, or_here,
  after_label, after_pointer, read_label, read_pointer, round_of, name_round, go_on, name_loop,
  name, read_data, read_record, read_records, type_a, type_aaaa,
}
use bubbler.NetProxy.Dns.Ends.{name_ends, name_bounds}
use bubbler.NetProxy.Resolve.{
  address_of, alias_of, push, or_else, addresses_of, first_cname, hop, chain_loop, chain, parse,
  transport, parsed, checked, u16_bytes, encode_labels, encode_name, question, Attempt, once,
  or_next, ask, both, schedule, resolve_at,
}
use bubbler.NetProxy.Resolve.Chain.{Gives, chain-Gives}
use bubbler.NetProxy.Resolve.Answers.{IsLookedUp, resolve_at-IsLookedUp}

program : Unit {0}
unfolding ◌=b=◌ to_lower slice checked_add split extend strip_dot u8 u16 u32 seek text_of_byte
    text_of or_here after_label after_pointer read_label read_pointer round_of name_round go_on
    name_loop name read_data read_record read_records address_of alias_of push or_else addresses_of
    first_cname hop chain_loop chain parse parsed checked u16_bytes encode_labels encode_name
    question once or_next ask both schedule resolve_at
program = tt

abbrev answer : List ℕ
answer =
    0x12 ∷ 0x34 ∷ 0x81 ∷ 0x80 ∷ 0 ∷ 1 ∷ 0 ∷ 2 ∷ 0 ∷ 0 ∷ 0 ∷ 0 ∷ 1 ∷ b'a' ∷ 1 ∷ b'b' ∷ 0 ∷ 0 ∷ 1 ∷ 0
    ∷ 1 ∷ 192 ∷ 12 ∷ 0 ∷ 5 ∷ 0 ∷ 1 ∷ 0 ∷ 0 ∷ 0 ∷ 60 ∷ 0 ∷ 4 ∷ 1 ∷ b'c' ∷ 192 ∷ 14 ∷ 192 ∷ 33 ∷ 0 ∷ 1
    ∷ 0 ∷ 1 ∷ 0 ∷ 0 ∷ 0 ∷ 60 ∷ 0 ∷ 4 ∷ 10 ∷ 0 ∷ 0 ∷ 1 ∷ []

abbrev address : List ℕ
address = 10 ∷ 0 ∷ 0 ∷ 1 ∷ []

-- A label of one byte, and a pointer back to it.
abbrev circle : List ℕ
circle = 1 ∷ b'a' ∷ 192 ∷ 0 ∷ []

circle_ends : name circle 0 ≡ err pointer
unfolding program
circle_ends = refl

abbrev record_one : Record
record_one = record { name = codes "a.b"; holds = cname (codes "c.b") }

abbrev record_two : Record
record_two = record { name = codes "c.b"; holds = v4 address }

reads :
    parse answer
    ≡ ok (record {
      id = 0x1234;
      truncated = false;
      rcode = 0;
      question_name = codes "a.b";
      question_type = 1;
      addresses = address ∷ [];
    })
unfolding program
reads = refl

name_second : name answer 33 ≡ ok (codes "c.b", 37)
unfolding program
name_second = refl

asked :
    question (codes "A.b.") type_a 0x1234
    ≡ ok (
        0x12 ∷ 0x34 ∷ 1 ∷ 0 ∷ 0 ∷ 1 ∷ 0 ∷ 0 ∷ 0 ∷ 0 ∷ 0 ∷ 0 ∷ 1 ∷ b'A' ∷ 1 ∷ b'b' ∷ 0 ∷ 0 ∷ 1 ∷ 0
        ∷ 1 ∷ [])
unfolding program
asked = refl

-- The first try gets nothing, the second gets the answer to the first question.
abbrev world : ℕ → ℕ → ℕ → Attempt
world qtype server zero = record { late = false; id = 7; udp = err transport; tcp = err transport }
world qtype server (suc n) = record {
  late = false;
  id = 0x1234;
  udp = ok answer;
  tcp = err transport;
}

looked_up : resolve_at world (codes "A.b.") 443 (0 ∷ []) ≡ ok ((address, 443) ∷ [])
unfolding program
looked_up = refl

name_ends_example : name circle 0 ≢ err out_of_fuel
name_ends_example = name_ends circle 0

name_bounds_example : (length (codes "c.b") ≤ 318) × (33 < 37) × (37 ≤ length answer)
name_bounds_example = name_bounds answer 33 (codes "c.b") 37 name_second

chained : get_elem? (chain (codes "a.b") (record_one ∷ record_two ∷ [])) 0 ≡ some address
unfolding program
chained = refl

chain-Gives_example : Gives (record_one ∷ record_two ∷ []) 8 (codes "a.b") address
chain-Gives_example = chain-Gives (record_one ∷ record_two ∷ []) (codes "a.b") 0 address chained

resolve_at-IsLookedUp_example :
    (◌≡◌ {A = ℕ} 443 443)
    × (IsLookedUp (schedule (world type_a) (0 ∷ [])) (codes "A.b.") type_a address
        ⊎ IsLookedUp (schedule (world type_aaaa) (0 ∷ [])) (codes "A.b.") type_aaaa address)
resolve_at-IsLookedUp_example =
    resolve_at-IsLookedUp world (codes "A.b.") 443 (0 ∷ []) ((address, 443) ∷ []) looked_up 0
      address 443 refl
