-- ===== src/Core/Seccomp.antt =====
-- crates/bubbler-core/src/seccomp.rs: which syscalls a sandbox loses. A name is its bytes. Whether the
-- build adds a second architecture (`EXTRA_ARCHES`) is the parameter `multiarch`.
pub mod Rules
pub mod Once
use bubbler.Prelude.{
  ℕ, Bool, true, false, Option, none, some, List, [], ◌∷◌, ◌++◌, ◌=b=◌, ◌==◌, not, if◌then◌else◌,
  codes,
}

unfoldable pub default_eperm : List (List ℕ)
default_eperm =
    codes "syslog"
    ∷ codes "uselib"
    ∷ codes "acct"
    ∷ codes "quotactl"
    ∷ codes "add_key"
    ∷ codes "keyctl"
    ∷ codes "request_key"
    ∷ codes "move_pages"
    ∷ codes "mbind"
    ∷ codes "get_mempolicy"
    ∷ codes "set_mempolicy"
    ∷ codes "migrate_pages"
    ∷ codes "perf_event_open"
    ∷ codes "bpf"
    ∷ codes "userfaultfd"
    ∷ codes "fanotify_init"
    ∷ codes "lookup_dcookie"
    ∷ codes "name_to_handle_at"
    ∷ codes "open_by_handle_at"
    ∷ codes "kexec_load"
    ∷ codes "kexec_file_load"
    ∷ codes "init_module"
    ∷ codes "finit_module"
    ∷ codes "delete_module"
    ∷ codes "iopl"
    ∷ codes "ioperm"
    ∷ codes "swapon"
    ∷ codes "swapoff"
    ∷ codes "reboot"
    ∷ codes "vhangup"
    ∷ codes "settimeofday"
    ∷ codes "clock_settime"
    ∷ codes "clock_settime64"
    ∷ codes "adjtimex"
    ∷ codes "clock_adjtime"
    ∷ codes "clock_adjtime64"
    ∷ codes "sethostname"
    ∷ codes "setdomainname"
    ∷ codes "nfsservctl"
    ∷ codes "vm86"
    ∷ codes "vm86old"
    ∷ codes "io_uring_setup"
    ∷ codes "io_uring_enter"
    ∷ codes "io_uring_register"
    ∷ codes "pidfd_getfd"
    ∷ codes "kcmp"
    ∷ []

unfoldable pub single_arch_eperm : List (List ℕ)
single_arch_eperm = codes "modify_ldt" ∷ []

unfoldable pub default_enosys : List (List ℕ)
default_enosys =
    codes "clone3"
    ∷ codes "open_tree"
    ∷ codes "move_mount"
    ∷ codes "fsopen"
    ∷ codes "fsconfig"
    ∷ codes "fsmount"
    ∷ codes "fspick"
    ∷ []

-- Syscalls by number, each with its name.
unfoldable pub default_enosys_numbered : List (List ℕ × ℕ)
default_enosys_numbered =
    (codes "open_tree_attr", 467) ∷ (codes "listns", 470) ∷ (codes "fchroot", 472) ∷ []

abbrev pub tiocsti : ℕ
tiocsti = 0x5412

abbrev pub tioclinux : ℕ
tioclinux = 0x541C

abbrev pub default_ioctl_eperm : List ℕ
default_ioctl_eperm = tiocsti ∷ tioclinux ∷ []

-- What a denied syscall returns.
pub data Errno : Type 0 where
  eperm enosys : Errno

-- The number of an errno, as Linux defines it.
unfoldable pub raw : Errno → ℕ
raw eperm = 1
raw enosys = 38

pub record SeccompConfig : Type 0 where
  pub allow : List (List ℕ)
  pub deny : List (List ℕ × Errno)
  pub disable : Bool

pub record RuleSet : Type 0 where
  pub eperm : List (List ℕ)
  pub enosys : List (List ℕ)
  pub enosys_numbered : List (List ℕ × ℕ × Errno)
  pub ioctl_eperm : List ℕ
  pub personality : Bool

-- The numbered names with the errno that they return at first.
unfoldable pub with_enosys : List (List ℕ × ℕ) → List (List ℕ × ℕ × Errno)
with_enosys [] = []
with_enosys ((name, nr) ∷ rest) = (name, nr, Errno.enosys) ∷ with_enosys rest

unfoldable pub default_set : Bool → RuleSet
default_set multiarch = record {
  eperm = default_eperm ++ (if multiarch then [] else single_arch_eperm);
  enosys = default_enosys;
  enosys_numbered = with_enosys default_enosys_numbered;
  ioctl_eperm = default_ioctl_eperm;
  personality = true;
}

-- `retain(|s| s != name)`, and the same on the numbered rules.
unfoldable pub retain_other : List ℕ → List (List ℕ) → List (List ℕ)
retain_other name [] = []
retain_other name (s ∷ rest) =
    if s =b= name then retain_other name rest else s ∷ retain_other name rest

unfoldable pub retain_other_numbered :
    List ℕ → List (List ℕ × ℕ × Errno) → List (List ℕ × ℕ × Errno)
retain_other_numbered name [] = []
retain_other_numbered name ((n, nr, e) ∷ rest) =
    if n =b= name
    then retain_other_numbered name rest
    else (n, nr, e) ∷ retain_other_numbered name rest

unfoldable pub remove : RuleSet → List ℕ → RuleSet
remove set name = record set {
  eperm = retain_other name set.eperm;
  enosys = retain_other name set.enosys;
  enosys_numbered = retain_other_numbered name set.enosys_numbered;
}

-- The number of a name that libseccomp cannot resolve: `iter().find(...)`.
unfoldable pub numbered : List (List ℕ × ℕ) → List ℕ → Option ℕ
numbered [] name = none
numbered ((n, nr) ∷ rest) name = if n =b= name then some nr else numbered rest name

-- One name that the profile allows.
unfoldable pub allow_one : RuleSet → List ℕ → RuleSet
allow_one set name =
    let less = remove set name in
    record less {
      ioctl_eperm = if name =b= codes "ioctl" then [] else less.ioctl_eperm;
      personality = if name =b= codes "personality" then false else less.personality;
    }

unfoldable pub push : RuleSet → List ℕ → Errno → RuleSet
push set name eperm = record set { eperm = set.eperm ++ (name ∷ []) }
push set name enosys = record set { enosys = set.enosys ++ (name ∷ []) }

-- A numbered name stays with the numbered rules, with the errno that the profile chose.
unfoldable pub deny_with : Option ℕ → RuleSet → List ℕ → Errno → RuleSet
deny_with (some nr) set name errno = record set {
  enosys_numbered = set.enosys_numbered ++ ((name, nr, errno) ∷ []);
}
deny_with none set name errno = push set name errno

-- One name that the profile denies.
unfoldable pub deny_one : RuleSet → List ℕ → Errno → RuleSet
deny_one set name errno =
    let less = remove set name in
    let held = record less {
      ioctl_eperm = if name =b= codes "ioctl" then [] else less.ioctl_eperm;
    } in
    deny_with (numbered default_enosys_numbered name) held name errno

unfoldable pub allow_all : RuleSet → List (List ℕ) → RuleSet
allow_all set [] = set
allow_all set (name ∷ names) = allow_all (allow_one set name) names

unfoldable pub deny_all : RuleSet → List (List ℕ × Errno) → RuleSet
deny_all set [] = set
deny_all set ((name, errno) ∷ rules) = deny_all (deny_one set name errno) rules

-- `RuleSet::with`.
unfoldable pub with_config : Bool → SeccompConfig → Option RuleSet
with_config multiarch cfg =
    if cfg.disable
    then none
    else some (deny_all (allow_all (default_set multiarch) cfg.allow) cfg.deny)
