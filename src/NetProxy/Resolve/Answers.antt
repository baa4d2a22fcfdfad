-- ===== src/NetProxy/Resolve/Answers.antt =====
-- crates/bubbler-net-proxy/src/dns.rs: what stands behind an address that a look-up returns.
use bubbler.Prelude.{
  ℕ, zero, suc, ◌≡◌, refl, sym, ap, ◌∙◌, ◌⊎◌, inl, inr, Bool, true, false, some, List, [], ◌∷◌,
  ◌++◌, map, get_elem?, Result, ok, err, ◌>>=◌, >>=-eq-ok, bind_refuse_if_inv, ◌==◌, ==_iff, ◌=b=◌,
  =b=_sound, if◌then◌else◌, not, ◌&&◌, ◌||◌, to_lower, arith, Bool-cases,
}
use mathlib.Core.Path.{subst}
use bubbler.NetProxy.Allow.{strip_dot}
use bubbler.NetProxy.Dns.{Reply, type_a, type_aaaa}
use bubbler.NetProxy.Resolve.{
  parse, Failure, other_id, other_question, refused, over_budget, none_answered, parsed, checked,
  question, Attempt, once, or_next, ask, both, schedule, resolve_at,
}

-- A message that answers the question: it parses, its id is that of the attempt, and its question is the
-- name asked about, in lower case and without the root dot, with the type asked for.
pub record Answers (msg : List ℕ) (id : ℕ) (name : List ℕ) (qtype : ℕ) (reply : Reply)
    : Type 0 where
  pub reads : parse msg ≡ ok reply
  pub same_id : reply.id ≡ id
  pub same_name : reply.question_name ≡ map to_lower (strip_dot name)
  pub same_type : reply.question_type ≡ qtype

parsed_inv : (r : Result _ Reply) (reply : Reply) → parsed r ≡ ok reply → r ≡ ok reply
unfolding parsed
parsed_inv (ok other) reply h = cc
parsed_inv (err e) reply h = cc

ok-injective {ℓ κ} :
    {E : Type κ} {A : Type ℓ} (a b : A) → ◌≡◌ {A = Result E A} (ok a) (ok b) → a ≡ b
ok-injective a b h = cc

both_hold : (a b : Bool) → not (a && b) ≡ false → (a ≡ true) × (b ≡ true)
both_hold a b h = (ground arith, ground arith)

same_number : (a b : ℕ) → not (a == b) ≡ false → a ≡ b
same_number a b h = ground arith

checked-Answers :
    (msg : List ℕ) (id : ℕ) (name : List ℕ) (qtype : ℕ) (reply : Reply)
    → checked msg id name qtype ≡ ok reply
    → Answers msg id name qtype reply
unfolding checked
checked-Answers msg id name qtype reply h =
    let (r, e1, h1) = >>=-eq-ok (parsed (parse msg)) _ h in
    let (ids, h2) = bind_refuse_if_inv (not (r.id == id)) other_id _ h1 in
    let (asked, h3) =
      bind_refuse_if_inv
        (not ((r.question_name =b= map to_lower (strip_dot name)) && r.question_type == qtype))
        other_question _ h2 in
    let (code, h4) =
      bind_refuse_if_inv (not (r.rcode == 0 || r.rcode == 3)) (refused r.rcode) _ h3 in
    let (names, types) = both_hold _ _ asked in
    subst (Answers msg id name qtype) (ok-injective r reply h4) (record {
      reads = parsed_inv (parse msg) r e1;
      same_id = same_number r.id id ids;
      same_name = =b=_sound r.question_name _ names;
      same_type = (==_iff r.question_type qtype).0 types;
    })

-- The message of an attempt that a reply was read from.
pub data Received (a : Attempt) : List ℕ → Type 0 where
  by_udp : {msg : List ℕ} → a.udp ≡ ok msg → Received a msg
  by_tcp : {msg : List ℕ} → a.tcp ≡ ok msg → Received a msg

-- A reply that an attempt got to its question.
abbrev pub Answered : Attempt → List ℕ → ℕ → Reply → Type 0
Answered a name qtype reply = (msg : List ℕ) × Received a msg × Answers msg a.id name qtype reply

once-Answered :
    (name : List ℕ) (qtype : ℕ) (a : Attempt) (reply : Reply)
    → once name qtype a ≡ ok reply
    → Answered a name qtype reply
unfolding once
once-Answered name qtype a reply h =
    let (asked, e1, h1) = >>=-eq-ok (question name qtype a.id) _ h in
    let (msg, e2, h2) = >>=-eq-ok a.udp _ h1 in
    let (short_reply, e3, h3) = >>=-eq-ok (checked msg a.id name qtype) _ h2 in
    elim (Bool-cases (not short_reply.truncated)) [
      | inl e ↦
          let whole : ok short_reply ≡ ok reply = rw e at h3 in
          (msg, by_udp e2, checked-Answers msg a.id name qtype reply (e3 ∙ whole))
      | inr e ↦
          let again : (a.tcp >>= λ long. checked long a.id name qtype) ≡ ok reply = rw e at h3 in
          let (long, e4, h4) = >>=-eq-ok a.tcp _ again in
          (long, by_tcp e4, checked-Answers long a.id name qtype reply h4)
    ]

guard_inv {ℓ κ} :
    {E : Type κ} {A : Type ℓ} (b : Bool) (e : E) (r : Result E A) {x : A}
    → (if b then err e else r) ≡ ok x
    → (b ≡ false) × (r ≡ ok x)
guard_inv true e r h = cc
guard_inv false e r h = (refl, h)

or_next_inv :
    (next : Failure → Result Failure (List (List ℕ))) (r : Result Failure Reply)
    (found : List (List ℕ))
    → or_next next r ≡ ok found
    → ((reply : Reply) × (r ≡ ok reply) × (reply.addresses ≡ found))
      ⊎ ((e : Failure) × (next e ≡ ok found))
unfolding or_next
or_next_inv next (ok reply) found h = inl (reply, refl, ok-injective reply.addresses found h)
or_next_inv next (err e) found h = inr (e, h)

-- The attempt in time that was answered, its reply, and the addresses of the reply.
abbrev pub Source : List Attempt → List ℕ → ℕ → List (List ℕ) → Type 0
Source attempts name qtype found =
    (at : ℕ) × (a : Attempt) × (reply : Reply) × (get_elem? attempts at ≡ some a)
    × (a.late ≡ false)
    × Answered a name qtype reply
    × (reply.addresses ≡ found)

ask-Source :
    (name : List ℕ) (qtype : ℕ) (attempts : List Attempt) (last : Failure) (found : List (List ℕ))
    → ask name qtype attempts last ≡ ok found
    → Source attempts name qtype found
unfolding ask
ask-Source name qtype [] last found h = cc
ask-Source name qtype (a ∷ attempts) last found h =
    let (timely, h1) = guard_inv a.late over_budget _ h in
    elim (or_next_inv (ask name qtype attempts) (once name qtype a) found h1) [
      | inl (reply, e, same) ↦ (0, a, reply, refl, timely, once-Answered name qtype a reply e, same)
      | inr (failure, e) ↦
          let (at, b, reply, stands, timely', from, same) =
            ask-Source name qtype attempts failure found e in
          (suc at, b, reply, stands, timely', from, same)
    ]

get_elem?-map {ℓ κ} :
    {A : Type ℓ} {B : Type κ} (f : A → B) (xs : List A) (i : ℕ) (b : B)
    → get_elem? (map f xs) i ≡ some b
    → (a : A) × (get_elem? xs i ≡ some a) × (f a ≡ b)
get_elem?-map f [] i b h = cc
get_elem?-map f (x ∷ xs) zero b h = (x, refl, cc)
get_elem?-map f (x ∷ xs) (suc i) b h = get_elem?-map f xs i b h

get_elem?-append {ℓ} :
    {A : Type ℓ} (xs ys : List A) (i : ℕ) (a : A)
    → get_elem? (xs ++ ys) i ≡ some a
    → (j : ℕ) × ((get_elem? xs j ≡ some a) ⊎ (get_elem? ys j ≡ some a))
get_elem?-append [] ys i a h = (i, inr h)
get_elem?-append (x ∷ xs) ys zero a h = (0, inl h)
get_elem?-append (x ∷ xs) ys (suc i) a h =
    let (j, there) = get_elem?-append xs ys i a h in
    elim there [ inl e ↦ (suc j, inl e) | inr e ↦ (j, inr e) ]

-- The address and the port of an entry, and the question that the address answers.
abbrev pub IsLookedUp : List Attempt → List ℕ → ℕ → List ℕ → Type 0
IsLookedUp attempts name qtype ip =
    (found : List (List ℕ)) × (i : ℕ) × Source attempts name qtype found
    × (get_elem? found i ≡ some ip)

ask-IsLookedUp :
    (name : List ℕ) (qtype : ℕ) (attempts : List Attempt) (last : Failure) (found : List (List ℕ))
    (i : ℕ) (ip : List ℕ)
    → ask name qtype attempts last ≡ ok found
    → get_elem? found i ≡ some ip
    → IsLookedUp attempts name qtype ip
ask-IsLookedUp name qtype attempts last found i ip h k =
    (found, i, ask-Source name qtype attempts last found h, k)

both_inv :
    (port : ℕ) (r s : Result Failure (List (List ℕ))) (out : List (List ℕ × ℕ))
    → both port r s ≡ ok out
    → (i : ℕ) (ip : List ℕ) (p : ℕ) → get_elem? out i ≡ some (ip, p)
    → (p ≡ port)
      × (((found : List (List ℕ)) × (j : ℕ) × (r ≡ ok found) × (get_elem? found j ≡ some ip))
          ⊎ ((found : List (List ℕ)) × (j : ℕ) × (s ≡ ok found) × (get_elem? found j ≡ some ip)))
unfolding both
both_inv port (err e) (err f) out h i ip p k = cc
both_inv port (ok found) (err f) out h i ip p k =
    let (a, at, e) =
      get_elem?-map (λ a. (a, port)) found i (ip, p)
        (ap (λ xs. get_elem? xs i) (ok-injective _ out h) ∙ k) in
    (sym (ap (λ q. q.1) e), inl (found, i, refl, at ∙ ap some (ap (λ q. q.0) e)))
both_inv port (err e) (ok found) out h i ip p k =
    let (a, at, e) =
      get_elem?-map (λ a. (a, port)) found i (ip, p)
        (ap (λ xs. get_elem? xs i) (ok-injective _ out h) ∙ k) in
    (sym (ap (λ q. q.1) e), inr (found, i, refl, at ∙ ap some (ap (λ q. q.0) e)))
both_inv port (ok found) (ok more) out h i ip p k =
    let (a, at, e) =
      get_elem?-map (λ a. (a, port)) (found ++ more) i (ip, p)
        (ap (λ xs. get_elem? xs i) (ok-injective _ out h) ∙ k) in
    let (j, there) = get_elem?-append found more i ip (at ∙ ap some (ap (λ q. q.0) e)) in
    (
      sym (ap (λ q. q.1) e),
      elim there [ inl g ↦ inl (found, j, refl, g) | inr g ↦ inr (more, j, refl, g) ],
    )

-- Every entry that a look-up returns has the port asked for, and an address from the reply that some
-- attempt in time got to one of the two questions: a message whose id is that attempt's and whose
-- question is the name, lower case and without its root dot, with type A or AAAA.
pub resolve_at-IsLookedUp {ℓ} :
    {Server : Type ℓ} (world : ℕ → Server → ℕ → Attempt) (name : List ℕ) (port : ℕ)
    (servers : List Server) (out : List (List ℕ × ℕ))
    → resolve_at world name port servers ≡ ok out
    → (i : ℕ) (ip : List ℕ) (p : ℕ) → get_elem? out i ≡ some (ip, p)
    → (p ≡ port)
      × (IsLookedUp (schedule (world type_a) servers) name type_a ip
          ⊎ IsLookedUp (schedule (world type_aaaa) servers) name type_aaaa ip)
unfolding resolve_at
resolve_at-IsLookedUp world name port [] out h i ip p k = cc
resolve_at-IsLookedUp world name port (s ∷ servers) out h i ip p k =
    let (same, from) = both_inv port _ _ out h i ip p k in
    (
      same,
      elim from [
        | inl (found, j, e, g) ↦ inl (ask-IsLookedUp name type_a _ none_answered found j ip e g)
        | inr (found, j, e, g) ↦ inr (ask-IsLookedUp name type_aaaa _ none_answered found j ip e g)
      ],
    )
