-- ===== src/Core/Tests/Seccomp.antt =====
-- A profile that allows two names and denies two, and the theorems on the rules at it.
use bubbler.Prelude.{◌≡◌, refl, true, false, some, none, [], ◌∷◌, codes, contains_name, ◌=b=◌}
use bubbler.Core.Seccomp.{
  eperm, enosys, RuleSet, SeccompConfig, default_eperm, default_enosys, single_arch_eperm,
  default_enosys_numbered, with_enosys, default_set, retain_other, retain_other_numbered, remove,
  numbered, allow_one, push, deny_with, deny_one, allow_all, deny_all, with_config,
}
use bubbler.Core.Seccomp.Rules.{answer, answer_of, find_numbered, last_deny, later, wanted}
use bubbler.Core.Seccomp.Once.{IsOnce, with_config-IsOnce}

program : Unit {0}
unfolding ◌=b=◌ contains_name default_eperm default_enosys single_arch_eperm default_enosys_numbered
    with_enosys default_set retain_other retain_other_numbered remove numbered allow_one push
    deny_with deny_one allow_all deny_all with_config answer answer_of find_numbered last_deny later
    wanted
program = tt

abbrev cfg : SeccompConfig
cfg = record {
  allow = codes "bpf" ∷ codes "ioctl" ∷ [];
  deny =
      (codes "bpf", enosys)
      ∷ (codes "listns", eperm)
      ∷ (codes "ptrace", eperm)
      ∷ (codes "ptrace", enosys)
      ∷ [];
  disable = false;
}

rules : RuleSet
unfolding program
rules = deny_all (allow_all (default_set true) cfg.allow) cfg.deny

built : with_config true cfg ≡ some rules
unfolding program rules
built = refl

last_wins : answer rules (codes "ptrace") ≡ some enosys
unfolding program rules
last_wins = refl

numbered_moves : answer rules (codes "listns") ≡ some eperm
unfolding program rules
numbered_moves = refl

ioctl_freed : rules.ioctl_eperm ≡ []
unfolding program rules
ioctl_freed = refl

disabled : with_config true (record cfg { disable = true }) ≡ none
unfolding program
disabled = refl

with_config-IsOnce_example : IsOnce rules
with_config-IsOnce_example = with_config-IsOnce true cfg rules built
