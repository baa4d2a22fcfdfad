-- ===== src/Core/Tests/Machine.antt =====
-- A machine for the instructions of the prefix, which shows that the kernel's laws can hold together.
use bubbler.Prelude.{
  ℕ, zero, suc, ◌+◌, ◌*◌, ◌≡◌, refl, true, Option, none, some, List, ◌∷◌, length, take, drop, ◌==◌,
  if◌then◌else◌, little, u32_of_slice,
}
use bubbler.Core.Personality.{bpf_ld_w_abs, bpf_jeq_k, bpf_ja, bpf_ret_k}
use bubbler.Core.Personality.Verdict.{is_denied, is_personality, is_allowed}

record Op : Type 0 where
  code : ℕ
  jt : ℕ
  jf : ℕ
  k : ℕ

decode : List ℕ → Option Op
decode (c ∷ c1 ∷ jt ∷ jf ∷ word) =
    some (record { code = c; jt = jt; jf = jf; k = u32_of_slice little word })
decode _ = none

-- How many instructions are skipped behind this one.
skip : Op → ℕ → ℕ
skip op a =
    if op.code == bpf_jeq_k
    then (if a == op.k then op.jt else op.jf)
    else if op.code == bpf_ja
    then op.k
    else 0

after : (List ℕ → ℕ → Option ℕ) → Option Op → List ℕ → (ℕ → ℕ) → ℕ → Option ℕ
after again none s words a = none
after again (some op) s words a =
    if op.code == bpf_ret_k
    then some op.k
    else again (drop (8 + 8 * skip op a) s) (if op.code == bpf_ld_w_abs then words op.k else a)

exec : ℕ → List ℕ → (ℕ → ℕ) → ℕ → Option ℕ
exec zero s words a = none
exec (suc fuel) s words a = after (λ t b. exec fuel t words b) (decode (take 8 s)) s words a

run : List ℕ → (ℕ → ℕ) → ℕ → ℕ → Option ℕ
run program words pc a = exec (length (drop (8 * pc) program)) (drop (8 * pc) program) words a

-- The 64-bit `personality(0x40000)`, which asks for no randomisation, in front of an empty program.
abbrev call : ℕ → ℕ
call k = if k == 4 then 0xc000003e else if k == 0 then 135 else 0x40000

denied : is_denied call ≡ true
unfolding is_denied is_personality is_allowed
denied = refl
