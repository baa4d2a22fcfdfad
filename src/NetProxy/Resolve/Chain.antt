-- ===== src/NetProxy/Resolve/Chain.antt =====
-- crates/bubbler-net-proxy/src/dns.rs: where the addresses of an answer come from.
use bubbler.Prelude.{
  ℕ, zero, suc, ◌≡◌, ◌<◌, refl, ◌⊎◌, inl, inr, Option, none, some, List, [], ◌∷◌, get_elem?, ◌=b=◌,
  =b=_sound, arith, Bool-cases,
}
use bubbler.NetProxy.Dns.{Record, max_cnames}
use bubbler.NetProxy.Resolve.{
  address_of, alias_of, push, or_else, addresses_of, first_cname, hop, chain_loop, chain,
}

-- A record of the message that this name owns.
pub record Owns (records : List Record) (owner : List ℕ) (r : Record) : Type 0 where
  pub place : ℕ
  pub stands : get_elem? records place ≡ some r
  pub named : r.name ≡ owner

-- A walk along the aliases of a message, and how many it takes.
pub data Alias (records : List Record) : List ℕ → List ℕ → ℕ → Type 0 where
  here : (target : List ℕ) → Alias records target target 0
  via :
      {from to target : List ℕ} {n : ℕ} (r : Record)
      → Owns records from r
      → alias_of r.holds ≡ some to
      → Alias records to target n
      → Alias records from target (suc n)

-- One record more in front.
later :
    {records : List Record} {owner : List ℕ} {r first : Record}
    → Owns records owner r
    → Owns (first ∷ records) owner r
later o = record { place = suc o.place; stands = o.stands; named = o.named }

abbrev Found : List Record → List ℕ → (Record → Type 0) → Type 0
Found records owner P = (r : Record) × Owns records owner r × P r

keep :
    {records : List Record} {owner : List ℕ} (first : Record) (P : Record → Type 0)
    → Found records owner P
    → Found (first ∷ records) owner P
keep first P (r, o, p) = (r, later o, p)

push_inv :
    (o : Option (List ℕ)) (out : List (List ℕ)) (i : ℕ) (a : List ℕ)
    → get_elem? (push o out) i ≡ some a
    → (o ≡ some a) ⊎ ((j : ℕ) × (get_elem? out j ≡ some a))
unfolding push
push_inv none out i a h = inr (i, h)
push_inv (some b) out zero a h = inl h
push_inv (some b) out (suc i) a h = inr (i, h)

addresses_of_inv :
    (records : List Record) (target : List ℕ) (i : ℕ) (a : List ℕ)
    → get_elem? (addresses_of target records) i ≡ some a
    → Found records target (λ r. address_of r.holds ≡ some a)
unfolding addresses_of
addresses_of_inv [] target i a h = cc
addresses_of_inv (r ∷ records) target i a h = elim (Bool-cases (r.name =b= target)) [
  | inr e ↦ keep r _ (addresses_of_inv records target i a (rw e at h))
  | inl e ↦ elim (push_inv (address_of r.holds) (addresses_of target records) i a (rw e at h)) [
    | inl held ↦ (r, record { place = 0; stands = refl; named = =b=_sound r.name target e }, held)
    | inr (j, g) ↦ keep r _ (addresses_of_inv records target j a g)
  ]
]

or_else_inv :
    (o next : Option (List ℕ)) (to : List ℕ)
    → or_else o next ≡ some to
    → (o ≡ some to) ⊎ (next ≡ some to)
unfolding or_else
or_else_inv none next to h = inr h
or_else_inv (some x) next to h = inl h

first_cname_inv :
    (records : List Record) (target to : List ℕ)
    → first_cname target records ≡ some to
    → Found records target (λ r. alias_of r.holds ≡ some to)
unfolding first_cname
first_cname_inv [] target to h = cc
first_cname_inv (r ∷ records) target to h = elim (Bool-cases (r.name =b= target)) [
  | inr e ↦ keep r _ (first_cname_inv records target to (rw e at h))
  | inl e ↦ elim (or_else_inv (alias_of r.holds) (first_cname target records) to (rw e at h)) [
    | inl held ↦ (r, record { place = 0; stands = refl; named = =b=_sound r.name target e }, held)
    | inr g ↦ keep r _ (first_cname_inv records target to g)
  ]
]

-- An address that a message gives for a name, within a number of aliases.
abbrev pub Gives : List Record → ℕ → List ℕ → List ℕ → Type 0
Gives records bound target a =
    (owner : List ℕ) × (n : ℕ) × (r : Record) × Alias records target owner n
    × (n < bound)
    × Owns records owner r
    × (address_of r.holds ≡ some a)

hop_inv :
    (again : List ℕ → List (List ℕ)) (found : List (List ℕ)) (next : Option (List ℕ)) (i : ℕ)
    (a : List ℕ)
    → get_elem? (hop again found next) i ≡ some a
    → (get_elem? found i ≡ some a)
      ⊎ ((to : List ℕ) × (next ≡ some to) × (get_elem? (again to) i ≡ some a))
unfolding hop
hop_inv again (b ∷ found) next i a h = inl h
hop_inv again [] none i a h = cc
hop_inv again [] (some to) i a h = inr (to, refl, h)

chain_loop-Gives :
    (rounds : ℕ) (records : List Record) (target : List ℕ) (i : ℕ) (a : List ℕ)
    → get_elem? (chain_loop rounds records target) i ≡ some a
    → Gives records rounds target a
unfolding chain_loop
chain_loop-Gives zero records target i a h = cc
chain_loop-Gives (suc rounds) records target i a h =
    elim (hop_inv (chain_loop rounds records) (addresses_of target records)
      (first_cname target records) i a h) [
        | inl g ↦
            let (r, o, held) = addresses_of_inv records target i a g in
            (target, 0, r, here target, omega arith, o, held)
        | inr (to, e, g) ↦
            let (alias, known, points) = first_cname_inv records target to e in
            let (owner, n, r, walk, lt, o, held) = chain_loop-Gives rounds records to i a g in
            (owner, suc n, r, via alias known points walk, omega arith, o, held)
      ]

-- Every address that is taken from an answer stands in a record whose owner is the name that was asked
-- about, or is reached from it by at most seven aliases of the same answer: no record of another name
-- counts.
pub chain-Gives :
    (records : List Record) (target : List ℕ) (i : ℕ) (a : List ℕ)
    → get_elem? (chain target records) i ≡ some a
    → Gives records 8 target a
unfolding chain
chain-Gives records target i a h = chain_loop-Gives max_cnames records target i a h
