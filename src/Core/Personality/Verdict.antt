-- ===== src/Core/Personality/Verdict.antt =====
-- crates/bubbler-core/src/seccomp.rs: what the kernel makes of the prefix. The kernel's machine is a
-- parameter, with the documented meaning of the four instructions that the prefix uses.
use bubbler.Prelude.{
  ℕ, ◌+◌, ◌*◌, ◌^◌, ◌<◌, ◌≡◌, refl, ◌∙◌, Bool, true, false, Option, some, List, [], ◌∷◌, ◌++◌, take,
  drop, ◌==◌, ◌&&◌, ◌||◌, not, if◌then◌else◌, arith, u32_to_bytes,
}
use bubbler.Core.Seccomp.{raw}
use bubbler.Core.Personality.{
  insn, personality_prefix, deny_value, bpf_ld_w_abs, bpf_jeq_k, bpf_ja, bpf_ret_k,
  audit_arch_x86_64, audit_arch_i386, nr_personality_x86_64, nr_personality_i386,
  personality_allowed,
}

deny_value_small : (log : Bool) → deny_value log < 2 ^ 32
unfolding deny_value raw
deny_value_small true = omega arith
deny_value_small false = omega arith

-- The eight bytes of one instruction of a program.
abbrev pub at : List ℕ → ℕ → List ℕ
at program pc = take 8 (drop (8 * pc) program)

-- A machine for classic BPF: `run program data pc a` is the verdict from the instruction `pc` on, with
-- `a` in the accumulator, where `data k` is the word at the offset `k` of `struct seccomp_data`.
pub record Machine : Type 0 where
  pub run : List ℕ → (ℕ → ℕ) → ℕ → ℕ → Option ℕ
  pub ld :
      (program : List ℕ) (data' : ℕ → ℕ) (pc a k : ℕ)
      → k < 2 ^ 32
      → at program pc ≡ insn bpf_ld_w_abs 0 0 k
      → run program data' pc a ≡ run program data' (pc + 1) (data' k)
  pub jeq :
      (program : List ℕ) (data' : ℕ → ℕ) (pc a jt jf k : ℕ)
      → k < 2 ^ 32
      → at program pc ≡ insn bpf_jeq_k jt jf k
      → run program data' pc a ≡ run program data' (if a == k then pc + 1 + jt else pc + 1 + jf) a
  pub ja :
      (program : List ℕ) (data' : ℕ → ℕ) (pc a k : ℕ)
      → k < 2 ^ 32
      → at program pc ≡ insn bpf_ja 0 0 k
      → run program data' pc a ≡ run program data' (pc + 1 + k) a
  pub ret :
      (program : List ℕ) (data' : ℕ → ℕ) (pc a k : ℕ)
      → k < 2 ^ 32
      → at program pc ≡ insn bpf_ret_k 0 0 k
      → run program data' pc a ≡ some k

-- The call is `personality` in one of the two ABIs: `arch` stands at the offset 4, `nr` at 0.
unfoldable pub is_personality : (ℕ → ℕ) → Bool
is_personality words =
    (words 4 == audit_arch_x86_64 && words 0 == nr_personality_x86_64)
    || (words 4 == audit_arch_i386 && words 0 == nr_personality_i386)

unfoldable pub is_allowed : List ℕ → ℕ → Bool
is_allowed [] persona = false
is_allowed (k ∷ ks) persona = persona == k || is_allowed ks persona

-- The call that the prefix is to deny.
unfoldable pub is_denied : (ℕ → ℕ) → Bool
is_denied words = is_personality words && not (is_allowed personality_allowed (words 16))

module _ (m : Machine) (log : Bool) (rest : List ℕ) (words : ℕ → ℕ) where
  program : List ℕ
  program = personality_prefix log ++ rest

  abbrev from : ℕ → ℕ → Option ℕ
  from pc a = m.run program words pc a

  s7 : (a : ℕ) → from 7 a ≡ from 8 (words 16)
  unfolding program personality_prefix insn u32_to_bytes
  s7 a = m.ld program words 7 a 16 (omega arith) refl

  s8 : (a : ℕ) → from 8 a ≡ from (if a == 0x0 then 13 else 9) a
  unfolding program personality_prefix insn u32_to_bytes
  s8 a = m.jeq program words 8 a 4 0 0x0 (omega arith) refl

  s9 : (a : ℕ) → from 9 a ≡ from (if a == 0x8 then 13 else 10) a
  unfolding program personality_prefix insn u32_to_bytes
  s9 a = m.jeq program words 9 a 3 0 0x8 (omega arith) refl

  s10 : (a : ℕ) → from 10 a ≡ from (if a == 0x20000 then 13 else 11) a
  unfolding program personality_prefix insn u32_to_bytes
  s10 a = m.jeq program words 10 a 2 0 0x20000 (omega arith) refl

  s11 : (a : ℕ) → from 11 a ≡ from (if a == 0x20008 then 13 else 12) a
  unfolding program personality_prefix insn u32_to_bytes
  s11 a = m.jeq program words 11 a 1 0 0x20008 (omega arith) refl

  s12 : (a : ℕ) → from 12 a ≡ from (if a == 0xffffffff then 13 else 14) a
  unfolding program personality_prefix insn u32_to_bytes
  s12 a = m.jeq program words 12 a 0 1 0xffffffff (omega arith) refl

  s13 : (a : ℕ) → from 13 a ≡ from 15 a
  unfolding program personality_prefix insn u32_to_bytes
  s13 a = m.ja program words 13 a 1 (omega arith) refl

  s14 : (a : ℕ) → from 14 a ≡ some (deny_value log)
  unfolding program personality_prefix insn u32_to_bytes
  s14 a = m.ret program words 14 a (deny_value log) (deny_value_small log) refl

  -- A jump, as a choice between two runs.
  from_if :
      (t : Bool) (x y a : ℕ) → from (if t then x else y) a ≡ (if t then from x a else from y a)
  from_if true x y a = refl
  from_if false x y a = refl

  -- One comparison of the argument with a value of the list.
  compare_one :
      (at_pc next k b : ℕ) (others : List ℕ)
      → from at_pc b ≡ from (if b == k then 13 else next) b
      → from next b ≡ (if is_allowed others b then from 15 b else some (deny_value log))
      → from at_pc b ≡ (if is_allowed (k ∷ others) b then from 15 b else some (deny_value log))
  unfolding is_allowed
  compare_one at_pc next k b others here after =
      here ∙ (from_if (b == k) 13 next b ∙ (rw (s13 b, after) (joined (b == k))))
    where
      joined :
          (t : Bool)
          → (if t
              then from 15 b
              else if is_allowed others b
              then from 15 b
              else some (deny_value log))
            ≡ (if t || is_allowed others b then from 15 b else some (deny_value log))
      joined true = refl
      joined false = refl

  last :
      (b : ℕ)
      → from 12 b ≡ (if is_allowed (0xffffffff ∷ []) b then from 15 b else some (deny_value log))
  unfolding is_allowed
  last b = s12 b ∙ (from_if (b == 0xffffffff) 13 14 b ∙ (rw (s13 b, s14 b) (ground arith)))

  checked :
      (a : ℕ)
      → from 7 a ≡ (
          if is_allowed personality_allowed (words 16)
          then from 15 (words 16)
          else some (deny_value log))
  checked a =
      let b = words 16 in
      s7 a
      ∙ compare_one 8 9 0x0 b _ (s8 b) (
          compare_one 9 10 0x8 b _ (s9 b) (
            compare_one 10 11 0x20000 b _ (s10 b) (compare_one 11 12 0x20008 b _ (s11 b) (last b))))
