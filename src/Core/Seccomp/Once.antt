-- ===== src/Core/Seccomp/Once.antt =====
-- crates/bubbler-core/src/seccomp.rs: no name stands twice in the lists of rules by name.
use bubbler.Prelude.{
  ℕ, ◌+◌, ◌≡◌, ◌≤◌, refl, ap, inl, inr, Bool, true, false, Option, none, some, List, [], ◌∷◌, ◌++◌,
  ◌=b=◌, =b=_sound, ◌&&◌, if◌then◌else◌, contains_name, arith, Bool-cases, not,
}
use bubbler.Core.Seccomp.{
  Errno, eperm, enosys, RuleSet, SeccompConfig, retain_other, retain_other_numbered, remove,
  numbered, default_enosys_numbered, allow_one, push, deny_with, deny_one, allow_all, deny_all,
  with_config, default_set, default_eperm, default_enosys, single_arch_eperm, with_enosys,
}
use bubbler.Core.Seccomp.Rules.{same_test, other_test}

unfoldable pub count_name : List (List ℕ) → List ℕ → ℕ
count_name [] name = 0
count_name (x ∷ xs) name = (if x =b= name then 1 else 0) + count_name xs name

unfoldable pub names : List (List ℕ × ℕ × Errno) → List (List ℕ)
names [] = []
names ((n, nr, e) ∷ rest) = n ∷ names rest

-- How many rules a name has.
unfoldable pub times : RuleSet → List ℕ → ℕ
times set name =
    count_name set.eperm name
    + (count_name set.enosys name + count_name (names set.enosys_numbered) name)

count-append :
    (xs ys : List (List ℕ)) (m : List ℕ)
    → count_name (xs ++ ys) m ≡ count_name xs m + count_name ys m
unfolding count_name
count-append [] ys m = omega arith
count-append (x ∷ xs) ys m = omega (arith, count-append xs ys m)

names-append : (xs ys : List (List ℕ × ℕ × Errno)) → names (xs ++ ys) ≡ names xs ++ names ys
unfolding names
names-append [] ys = refl
names-append ((n, nr, e) ∷ xs) ys = ap (λ l. n ∷ l) (names-append xs ys)

names-retain_other :
    (n : List ℕ) (xs : List (List ℕ × ℕ × Errno))
    → names (retain_other_numbered n xs) ≡ retain_other n (names xs)
unfolding names retain_other retain_other_numbered
names-retain_other n [] = refl
names-retain_other n ((x, nr, e) ∷ xs) = elim (Bool-cases (x =b= n)) [
  | inl h ↦ rw (h) (names-retain_other n xs)
  | inr h ↦ rw (h) (ap (λ l. x ∷ l) (names-retain_other n xs))
]

module _ (n m : List ℕ) where
  count-retain_other :
      (xs : List (List ℕ))
      → count_name (retain_other n xs) m ≡ (if n =b= m then 0 else count_name xs m)
  unfolding count_name retain_other
  count-retain_other [] = ground arith
  count-retain_other (x ∷ xs) = elim (Bool-cases (x =b= n)) [
    | inl e ↦ rw (e, count-retain_other xs, same_test x n m e) (ground arith)
    | inr e ↦ elim (Bool-cases (x =b= m)) [
      | inl f ↦ rw (e, f, count-retain_other xs, other_test x n m e f) refl
      | inr f ↦ rw (e, f, count-retain_other xs) (ground arith)
    ]
  ]

  times-remove : (set : RuleSet) → times (remove set n) m ≡ (if n =b= m then 0 else times set m)
  unfolding times remove
  times-remove set =
      rw
        (
          names-retain_other n set.enosys_numbered,
          count-retain_other set.eperm,
          count-retain_other set.enosys,
          count-retain_other (names set.enosys_numbered),
        )
        (ground arith)

  times-push :
      (set : RuleSet) (e : Errno)
      → times (push set n e) m ≡ times set m + (if n =b= m then 1 else 0)
  unfolding times push
  times-push set eperm = omega (arith, count-append set.eperm (n ∷ []) m, one)
    where
      one : count_name (n ∷ []) m ≡ (if n =b= m then 1 else 0)
      one = unfold count_name in omega arith
  times-push set enosys = omega (arith, count-append set.enosys (n ∷ []) m, one)
    where
      one : count_name (n ∷ []) m ≡ (if n =b= m then 1 else 0)
      one = unfold count_name in omega arith

  times-deny_with :
      (o : Option ℕ) (set : RuleSet) (e : Errno)
      → times (deny_with o set n e) m ≡ times set m + (if n =b= m then 1 else 0)
  unfolding deny_with
  times-deny_with none set e = times-push set e
  times-deny_with (some nr) set e =
      unfold times in
      (rw (names-append set.enosys_numbered ((n, nr, e) ∷ []))
        (omega (arith, count-append (names set.enosys_numbered) (names ((n, nr, e) ∷ [])) m, one)))
    where
      one : count_name (names ((n, nr, e) ∷ [])) m ≡ (if n =b= m then 1 else 0)
      one = unfold count_name names in omega arith

-- A name has one rule at most.
abbrev pub IsOnce : RuleSet → Type 0
IsOnce set = (name : List ℕ) → times set name ≤ 1

same_times :
    (a b : RuleSet) (m : List ℕ)
    → a.eperm ≡ b.eperm
    → a.enosys ≡ b.enosys
    → a.enosys_numbered ≡ b.enosys_numbered
    → times a m ≡ times b m
unfolding times
same_times a b m e f g = rw (e, f, g)

allow_one-IsOnce : (set : RuleSet) (n : List ℕ) → IsOnce set → IsOnce (allow_one set n)
allow_one-IsOnce set n h m =
    let same : times (allow_one set n) m ≡ times (remove set n) m =
      same_times (allow_one set n) (remove set n) m (unfold allow_one in refl)
        (unfold allow_one in refl) (unfold allow_one in refl) in
    rw (same, times-remove n m set) (ground (arith, h m))

deny_held-IsOnce :
    (o : Option ℕ) (set : RuleSet) (n : List ℕ) (e : Errno) (ioctl : List ℕ)
    → IsOnce set
    → IsOnce (deny_with o (record (remove set n) { ioctl_eperm = ioctl }) n e)
deny_held-IsOnce o set n e ioctl h m =
    let held : RuleSet = record (remove set n) { ioctl_eperm = ioctl } in
    let same : times held m ≡ times (remove set n) m =
      same_times held (remove set n) m refl refl refl in
    rw (times-deny_with n m o held e, same, times-remove n m set) (ground (arith, h m))

deny_one-IsOnce : (set : RuleSet) (n : List ℕ) (e : Errno) → IsOnce set → IsOnce (deny_one set n e)
unfolding deny_one
deny_one-IsOnce set n e h = deny_held-IsOnce (numbered default_enosys_numbered n) set n e _ h

allow_all-IsOnce :
    (wanted : List (List ℕ)) (set : RuleSet) → IsOnce set → IsOnce (allow_all set wanted)
unfolding allow_all
allow_all-IsOnce [] set h = h
allow_all-IsOnce (n ∷ wanted) set h =
    allow_all-IsOnce wanted (allow_one set n) (allow_one-IsOnce set n h)

deny_all-IsOnce :
    (rules : List (List ℕ × Errno)) (set : RuleSet) → IsOnce set → IsOnce (deny_all set rules)
unfolding deny_all
deny_all-IsOnce [] set h = h
deny_all-IsOnce ((n, e) ∷ rules) set h =
    deny_all-IsOnce rules (deny_one set n e) (deny_one-IsOnce set n e h)

-- No name stands twice.
distinct : List (List ℕ) → Bool
distinct [] = true
distinct (x ∷ xs) = not (contains_name xs x) && distinct xs

count_none : (xs : List (List ℕ)) (m : List ℕ) → contains_name xs m ≡ false → count_name xs m ≡ 0
unfolding contains_name count_name
count_none [] m h = refl
count_none (x ∷ xs) m h = ground (arith, count_none xs m)

count-distinct : (xs : List (List ℕ)) (m : List ℕ) → distinct xs ≡ true → count_name xs m ≤ 1
unfolding distinct count_name
count-distinct [] m h = omega arith
count-distinct (x ∷ xs) m h = elim (Bool-cases (x =b= m)) [
  | inl e ↦
      let none_else : contains_name xs m ≡ false =
        rw⁻¹ (=b=_sound x m e) (not_true (contains_name xs x) (distinct xs) h) in
      rw (e) (omega (arith, count_none xs m none_else))
  | inr e ↦ rw (e) (omega (arith, count-distinct xs m (ground arith)))
]
  where
    not_true : (a b : Bool) → not a && b ≡ true → a ≡ false
    not_true a b k = ground arith

defaults : Bool → List (List ℕ)
defaults multiarch =
    (default_set multiarch).eperm
    ++ ((default_set multiarch).enosys ++ names (default_set multiarch).enosys_numbered)

defaults-distinct : (multiarch : Bool) → distinct (defaults multiarch) ≡ true
unfolding distinct defaults default_set default_eperm default_enosys single_arch_eperm with_enosys
    default_enosys_numbered names contains_name ◌=b=◌
defaults-distinct true = refl
defaults-distinct false = refl

default_set-IsOnce : (multiarch : Bool) → IsOnce (default_set multiarch)
default_set-IsOnce multiarch m =
    omega (arith, whole, count-distinct (defaults multiarch) m (defaults-distinct multiarch))
  where
    whole : count_name (defaults multiarch) m ≡ times (default_set multiarch) m
    whole =
        unfold defaults times in
        omega (
          arith,
          count-append (default_set multiarch).eperm
              ((default_set multiarch).enosys ++ names (default_set multiarch).enosys_numbered) m,
          count-append (default_set multiarch).enosys
              (names (default_set multiarch).enosys_numbered) m,
        )

-- Whatever a profile allows and denies, and however often, no syscall name stands twice in the rules:
-- neither in one list nor in two.
pub with_config-IsOnce :
    (multiarch : Bool) (cfg : SeccompConfig) (set : RuleSet)
    → with_config multiarch cfg ≡ some set
    → IsOnce set
unfolding with_config
with_config-IsOnce multiarch cfg set h =
    let same : deny_all (allow_all (default_set multiarch) cfg.allow) cfg.deny ≡ set =
      ground arith in
    rw⁻¹ same (
      deny_all-IsOnce cfg.deny (allow_all (default_set multiarch) cfg.allow)
        (allow_all-IsOnce cfg.allow (default_set multiarch) (default_set-IsOnce multiarch)))
