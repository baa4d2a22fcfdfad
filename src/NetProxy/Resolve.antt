-- ===== src/NetProxy/Resolve.antt =====
-- crates/bubbler-net-proxy/src/dns.rs: whole messages, and the client that asks for the addresses of a
-- name. What the sockets, the clock and the source of ids answer is an input, `Attempt`.
pub mod Chain
pub mod Answers
use bubbler.Prelude.{
  ℕ, zero, suc, ◌+◌, ◌-◌, ◌*◌, ◌/◌, ◌%◌, ◌^◌, Bool, true, false, Option, none, some, List, [], ◌∷◌,
  ◌++◌, length, min, map, Result, ok, err, ◌>>=◌, ◌>>◌, refuse_if, ltb, leb, ◌==◌, ◌=b=◌,
  if◌then◌else◌, not, ◌&&◌, ◌||◌, to_lower,
}
use bubbler.NetProxy.Allow.{split, strip_dot}
use bubbler.NetProxy.Dns.{
  DnsError, not_an_answer, question_error, class_error, Data, v4, v6, cname, other, Record, Reply,
  u16, name, read_records, max_records, max_cnames, max_name, max_label, class_in, type_a,
  type_aaaa,
}

-- The address that a record holds, and the name that it points at.
unfoldable pub address_of : Data → Option (List ℕ)
address_of (v4 a) = some a
address_of (v6 a) = some a
address_of (cname to) = none
address_of other = none

unfoldable pub alias_of : Data → Option (List ℕ)
alias_of (cname to) = some to
alias_of _ = none

unfoldable pub push : Option (List ℕ) → List (List ℕ) → List (List ℕ)
push none out = out
push (some a) out = a ∷ out

unfoldable pub or_else : Option (List ℕ) → Option (List ℕ) → Option (List ℕ)
or_else none next = next
or_else (some to) next = some to

-- The addresses of the records that this name owns, in their order.
unfoldable pub addresses_of : List ℕ → List Record → List (List ℕ)
addresses_of target [] = []
addresses_of target (r ∷ records) =
    let rest = addresses_of target records in
    if r.name =b= target then push (address_of r.holds) rest else rest

-- The first alias of this name.
unfoldable pub first_cname : List ℕ → List Record → Option (List ℕ)
first_cname target [] = none
first_cname target (r ∷ records) =
    let rest = first_cname target records in
    if r.name =b= target then or_else (alias_of r.holds) rest else rest

-- What a round of `chain` makes of what it found.
unfoldable pub hop : (List ℕ → List (List ℕ)) → List (List ℕ) → Option (List ℕ) → List (List ℕ)
hop again (a ∷ found) next = a ∷ found
hop again [] none = []
hop again [] (some to) = again to

unfoldable pub chain_loop : ℕ → List Record → List ℕ → List (List ℕ)
chain_loop zero records target = []
chain_loop (suc rounds) records target =
    hop (chain_loop rounds records) (addresses_of target records) (first_cname target records)

unfoldable pub chain : List ℕ → List Record → List (List ℕ)
chain target records = chain_loop max_cnames records target

-- Read one DNS answer message.
unfoldable pub parse : List ℕ → Result DnsError Reply
parse msg = do
  (id, pos1) ← u16 msg 0
  (flags, pos2) ← u16 msg pos1
  (questions, pos3) ← u16 msg pos2
  (answers, pos4) ← u16 msg pos3
  (authority, pos5) ← u16 msg pos4
  (additional, pos6) ← u16 msg pos5
  refuse_if (flags / 2 ^ 15 % 2 == 0) not_an_answer
  refuse_if (not (questions == 1)) question_error
  (asked, pos7) ← name msg pos6
  (qtype, pos8) ← u16 msg pos7
  (class, pos9) ← u16 msg pos8
  refuse_if (not (class == class_in)) class_error
  (records, past) ← read_records (min answers max_records) msg pos9
  ok (record {
    id = id;
    truncated = flags / 2 ^ 9 % 2 == 1;
    rcode = flags % 2 ^ 4;
    question_name = asked;
    question_type = qtype;
    addresses = chain asked records;
  })

-- `io::Error`, as far as the code makes one.
pub data Failure : Type 0 where
  malformed : DnsError → Failure
  other_id other_question no_name bad_label over_budget no_resolver none_answered transport :
      Failure
  refused : ℕ → Failure

unfoldable pub parsed : Result DnsError Reply → Result Failure Reply
parsed (ok reply) = ok reply
parsed (err e) = err (malformed e)

-- One answer, held to the question that was asked.
unfoldable pub checked : List ℕ → ℕ → List ℕ → ℕ → Result Failure Reply
checked msg id name qtype = do
  reply ← parsed (parse msg)
  refuse_if (not (reply.id == id)) other_id
  refuse_if
      (not
        ((reply.question_name =b= map to_lower (strip_dot name)) && reply.question_type == qtype))
      other_question
  refuse_if (not (reply.rcode == 0 || reply.rcode == 3)) (refused reply.rcode)
  ok reply

-- `to_be_bytes` of a `u16`.
unfoldable pub u16_bytes : ℕ → List ℕ
u16_bytes n = n / 2 ^ 8 % 256 ∷ n % 256 ∷ []

-- The labels behind their lengths.
unfoldable pub encode_labels : List (List ℕ) → Result Failure (List ℕ)
encode_labels [] = ok []
encode_labels (label ∷ labels) = do
  refuse_if (length label == 0 || ltb max_label (length label)) bad_label
  rest ← encode_labels labels
  ok (length label ∷ (label ++ rest))

unfoldable pub encode_name : List ℕ → Result Failure (List ℕ)
encode_name name = do
  refuse_if (length (strip_dot name) == 0 || ltb max_name (length (strip_dot name))) no_name
  labels ← encode_labels (split b'.' (strip_dot name))
  ok (labels ++ (0 ∷ []))

unfoldable pub question : List ℕ → ℕ → ℕ → Result Failure (List ℕ)
question name qtype id = do
  asked ← encode_name name
  ok (
      u16_bytes id
      ++ (u16_bytes 0x0100
          ++ (u16_bytes 1
              ++ ((0 ∷ 0 ∷ 0 ∷ 0 ∷ 0 ∷ 0 ∷ [])
                  ++ (asked ++ (u16_bytes qtype ++ u16_bytes class_in))))))

-- What the world gives to one attempt: whether the budget is spent, the id, and the two answers.
pub record Attempt : Type 0 where
  pub late : Bool
  pub id : ℕ
  pub udp : Result Failure (List ℕ)
  pub tcp : Result Failure (List ℕ)

-- One question to one resolver, over UDP and then over TCP if the answer was truncated.
unfoldable pub once : List ℕ → ℕ → Attempt → Result Failure Reply
once name qtype a = do
  asked ← question name qtype a.id
  msg ← a.udp
  reply ← checked msg a.id name qtype
  if not reply.truncated then ok reply else (do long ← a.tcp; checked long a.id name qtype)

-- Tries per resolver.
abbrev pub tries : ℕ
tries = 3

-- What follows an attempt: its addresses, or the next attempt, which knows the last failure.
unfoldable pub or_next :
    (Failure → Result Failure (List (List ℕ)))
    → Result Failure Reply
    → Result Failure (List (List ℕ))
or_next next (ok reply) = ok reply.addresses
or_next next (err e) = next e

-- The attempts of `ask` in their order, each resolver `tries` times.
unfoldable pub ask : List ℕ → ℕ → List Attempt → Failure → Result Failure (List (List ℕ))
ask name qtype [] last = err last
ask name qtype (a ∷ attempts) last =
    if a.late then err over_budget else or_next (ask name qtype attempts) (once name qtype a)

unfoldable pub both :
    ℕ
    → Result Failure (List (List ℕ))
    → Result Failure (List (List ℕ))
    → Result Failure (List (List ℕ × ℕ))
both port (err e) (err f) = err f
both port (ok found) (err f) = ok (map (λ ip. (ip, port)) found)
both port (err e) (ok found) = ok (map (λ ip. (ip, port)) found)
both port (ok found) (ok more) = ok (map (λ ip. (ip, port)) (found ++ more))

module _ {ℓ} {Server : Type ℓ} where
  -- Each resolver in turn, `tries` times.
  unfoldable pub schedule : (Server → ℕ → Attempt) → List Server → List Attempt
  schedule world [] = []
  schedule world (s ∷ servers) = world s 0 ∷ world s 1 ∷ world s 2 ∷ schedule world servers

  -- Both questions. What the world gives depends on the question, the resolver and the try.
  unfoldable pub resolve_at :
      (ℕ → Server → ℕ → Attempt) → List ℕ → ℕ → List Server → Result Failure (List (List ℕ × ℕ))
  resolve_at world name port [] = err no_resolver
  resolve_at world name port (s ∷ servers) =
      both port (ask name type_a (schedule (world type_a) (s ∷ servers)) none_answered)
        (ask name type_aaaa (schedule (world type_aaaa) (s ∷ servers)) none_answered)
