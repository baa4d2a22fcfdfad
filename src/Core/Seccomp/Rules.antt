-- ===== src/Core/Seccomp/Rules.antt =====
-- crates/bubbler-core/src/seccomp.rs: what a profile makes of the default rules.
use bubbler.Prelude.{
  ℕ, ◌≡◌, ap, inl, inr, Bool, true, false, Option, none, some, List, [], ◌∷◌, ◌=b=◌, =b=_sound,
  =b=_refl, ◌||◌, if◌then◌else◌, contains_name, Bool-cases,
}
use bubbler.Core.Seccomp.{Errno, eperm, enosys, RuleSet, SeccompConfig, remove, default_set}

-- The errno of a numbered rule.
unfoldable pub find_numbered : List (List ℕ × ℕ × Errno) → List ℕ → Option Errno
find_numbered [] name = none
find_numbered ((n, nr, e) ∷ rest) name = if n =b= name then some e else find_numbered rest name

unfoldable pub answer_of : Option Errno → Bool → Bool → Option Errno
answer_of (some e) in_eperm in_enosys = some e
answer_of none true in_enosys = some Errno.eperm
answer_of none false true = some Errno.enosys
answer_of none false false = none

-- What a syscall of this name gets, in the order in which the filter is built: the numbered rules, then
-- those that answer EPERM, then those that answer ENOSYS.
unfoldable pub answer : RuleSet → List ℕ → Option Errno
answer set name =
    answer_of (find_numbered set.enosys_numbered name) (contains_name set.eperm name)
      (contains_name set.enosys name)

-- The last word that a list of denials has on a name.
unfoldable pub last_deny : List (List ℕ × Errno) → List ℕ → Option Errno
last_deny [] name = none
last_deny ((n, e) ∷ rules) name = elim (last_deny rules name) [
  | some later ↦ some later
  | none ↦ if n =b= name then some e else none
]

pub same_test : (x n m : List ℕ) → (x =b= n) ≡ true → (x =b= m) ≡ (n =b= m)
same_test x n m h = ap (λ y. y =b= m) (=b=_sound x n h)

pub other_test : (x n m : List ℕ) → (x =b= n) ≡ false → (x =b= m) ≡ true → (n =b= m) ≡ false
other_test x n m h k = elim (Bool-cases (n =b= m)) [
  | inl e ↦ let same : (x =b= n) ≡ true = rw (=b=_sound n m e, =b=_sound x m k) (=b=_refl m) in cc
  | inr e ↦ e
]

-- What is left when `n` is taken out, under another choice of ioctl rules.
module _ (n m : List ℕ) (set : RuleSet) (ioctl : List ℕ) (e : Errno) where
  held : RuleSet
  held = record (remove set n) { ioctl_eperm = ioctl }

unfoldable pub later : Option Errno → Option Errno → Option Errno
later (some e) o = some e
later none o = o

-- The answers that a profile asks for: its last denial of a name, or else nothing where it allows the
-- name, or else what the default rules say.
unfoldable pub wanted : Bool → SeccompConfig → List ℕ → Option Errno
wanted multiarch cfg name =
    later (last_deny cfg.deny name)
      (if contains_name cfg.allow name then none else answer (default_set multiarch) name)

denied_names : List (List ℕ × Errno) → List (List ℕ)
denied_names [] = []
denied_names ((n, e) ∷ rules) = n ∷ denied_names rules

-- Whether a profile names a syscall at all.
unfoldable pub is_named : SeccompConfig → List ℕ → Bool
unfolding denied_names
is_named cfg name = contains_name cfg.allow name || contains_name (denied_names cfg.deny) name
