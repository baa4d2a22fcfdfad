-- ===== src/WlProxy/Tables.antt =====
-- crates/bubbler-wl-proxy/src/tables.rs: the shape of every message on the wire. The table itself,
-- `INTERFACES`, is generated at build time (build.rs): it is the parameter `interfaces`. build.rs
-- sorts it by name, with no name twice, where a binary search finds the one entry of that name; the
-- search here is the scan for it. Names are lists of bytes.
use bubbler.Prelude.{
  ℕ, suc, ◌-◌, ◌≡◌, ◌≤◌, Bool, Option, none, some, List, [], ◌∷◌, get_elem?, ◌=b=◌, if◌then◌else◌,
  arith, Bool-cases, inl, inr, =b=_sound,
}
use mathlib.Core.Option

-- The wire kind of one argument.
pub data ArgKind : Type 0 where
  int uint fixed string object new_id array fd : ArgKind

-- One request or event of an interface.
pub record Message : Type 0 where
  pub name : List ℕ
  pub since : ℕ
  pub is_destructor : Bool
  pub args : List ArgKind
  pub new_id_interface : Option (List ℕ)

pub record Interface : Type 0 where
  pub name : List ℕ
  pub version : ℕ
  pub requests : List Message
  pub events : List Message

unfoldable pub request : Interface → ℕ → Option Message
request iface opcode = get_elem? iface.requests opcode

unfoldable pub event : Interface → ℕ → Option Message
event iface opcode = get_elem? iface.events opcode

-- A request from the client, an event from the server.
unfoldable pub message : Interface → Bool → ℕ → Option Message
unfolding request event
message iface from_client opcode = if from_client then request iface opcode else event iface opcode

unfoldable pub index_from : ℕ → List Interface → List ℕ → Option ℕ
index_from i [] name = none
index_from i (iface ∷ rest) name =
    if iface.name =b= name then some i else index_from (suc i) rest name

module _ (interfaces : List Interface) where
  unfoldable pub index_of : List ℕ → Option ℕ
  unfolding index_from
  index_of name = index_from 0 interfaces name

  unfoldable pub by_index : ℕ → Option Interface
  by_index index = get_elem? interfaces index

  unfoldable pub lookup : List ℕ → Option Interface
  unfolding index_of by_index
  lookup name = Option.bind (index_of name) by_index

sub_self : (i k : ℕ) → i ≡ k → k - i ≡ 0
sub_self i k h = omega arith

sub_more : (i k : ℕ) → suc i ≤ k → k - i ≡ suc (k - suc i)
sub_more i k h = omega arith

sub_zero : (k : ℕ) → k - 0 ≡ k
sub_zero k = omega arith

index_from_sound :
    (i : ℕ) (l : List Interface) (name : List ℕ) (k : ℕ)
    → index_from i l name ≡ some k
    → (iface : Interface) × (i ≤ k) × (get_elem? l (k - i) ≡ some iface) × (iface.name ≡ name)
unfolding index_from
index_from_sound i [] name k h = cc
index_from_sound i (x ∷ l) name k h = elim (Bool-cases (x.name =b= name)) [
  | inl e ↦
      let same : i ≡ k = ground (arith, e) in
      (x, omega arith, rw (sub_self i k same), =b=_sound x.name name e)
  | inr e ↦
      let (iface, le, at, eq) = index_from_sound (suc i) l name k (ground (arith, e)) in
      (iface, omega arith, rw (sub_more i k le) at, eq)
]

-- The index of a name is that of an interface with the name.
pub index_of_sound :
    (interfaces : List Interface) (name : List ℕ) (k : ℕ)
    → index_of interfaces name ≡ some k
    → (iface : Interface) × (by_index interfaces k ≡ some iface) × (iface.name ≡ name)
unfolding index_of by_index
index_of_sound interfaces name k h =
    let (iface, _, at, eq) = index_from_sound 0 interfaces name k h in
    (iface, rw (sub_zero k) at at, eq)
