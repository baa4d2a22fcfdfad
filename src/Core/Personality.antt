-- ===== src/Core/Personality.antt =====
-- crates/bubbler-core/src/seccomp.rs: the hand-written program that stands in front of the filter that
-- libseccomp compiles, and holds `personality` to a list of arguments.
pub mod Verdict
use Prim.Native.Nat.{bit_or}
use bubbler.Prelude.{
  ℕ, ◌/◌, ◌%◌, ◌^◌, Bool, true, false, List, [], ◌∷◌, ◌++◌, Endian, little, u32_to_bytes, ◌==◌,
  ◌||◌, if◌then◌else◌,
}
use bubbler.Core.Seccomp.{eperm, raw}

abbrev pub personality_allowed : List ℕ
personality_allowed = 0x0 ∷ 0x8 ∷ 0x20000 ∷ 0x20008 ∷ 0xffffffff ∷ []

abbrev pub audit_arch_x86_64 : ℕ
audit_arch_x86_64 = 0xc000003e

abbrev pub audit_arch_i386 : ℕ
audit_arch_i386 = 0x40000003

abbrev pub nr_personality_x86_64 : ℕ
nr_personality_x86_64 = 135

abbrev pub nr_personality_i386 : ℕ
nr_personality_i386 = 136

abbrev pub bpf_ld_w_abs : ℕ
bpf_ld_w_abs = 0x0020

abbrev pub bpf_jeq_k : ℕ
bpf_jeq_k = 0x0015

abbrev pub bpf_ja : ℕ
bpf_ja = 0x0005

abbrev pub bpf_ret_k : ℕ
bpf_ret_k = 0x0006

abbrev pub seccomp_ret_errno : ℕ
seccomp_ret_errno = 0x00050000

abbrev pub seccomp_ret_log : ℕ
seccomp_ret_log = 0x7ffc0000

-- One `struct sock_filter` as its eight bytes.
unfoldable pub insn : ℕ → ℕ → ℕ → ℕ → List ℕ
insn code jt jf k = code % 256 ∷ code / 2 ^ 8 % 256 ∷ jt ∷ jf ∷ u32_to_bytes little k

-- What a call that is denied gets.
unfoldable pub deny_value : Bool → ℕ
deny_value true = seccomp_ret_log
deny_value false = bit_or seccomp_ret_errno (raw eperm)

-- The block that is not `personality` with an argument outside the list falls off its end.
unfoldable pub personality_prefix : Bool → List ℕ
personality_prefix log =
    insn bpf_ld_w_abs 0 0 4
    ++ (insn bpf_jeq_k 0 2 audit_arch_x86_64
        ++ (insn bpf_ld_w_abs 0 0 0
            ++ (insn bpf_jeq_k 3 9 nr_personality_x86_64
                ++ (insn bpf_jeq_k 0 8 audit_arch_i386
                    ++ (insn bpf_ld_w_abs 0 0 0
                        ++ (insn bpf_jeq_k 0 6 nr_personality_i386
                            ++ (insn bpf_ld_w_abs 0 0 16
                                ++ (insn bpf_jeq_k 4 0 0x0
                                    ++ (insn bpf_jeq_k 3 0 0x8
                                        ++ (insn bpf_jeq_k 2 0 0x20000
                                            ++ (insn bpf_jeq_k 1 0 0x20008
                                                ++ (insn bpf_jeq_k 0 1 0xffffffff
                                                    ++ (insn bpf_ja 0 0 1
                                                        ++ insn bpf_ret_k 0 0
                                                            (deny_value log))))))))))))))
