-- ===== src/WlProxy/Audit.antt =====
-- crates/bubbler-wl-proxy/src/audit.rs: what the proxy logs, and how often. An `Instant` and a
-- `Duration` are numbers of nanoseconds, and the sink is the list of the lines written, oldest first;
-- a write that fails is ignored by the source, so a sink that fails shows fewer of them.
use bubbler.Prelude.{
  ℕ, ◌+◌, ◌-◌, ◌^◌, Bool, false, Option, none, some, List, [], ◌∷◌, ◌++◌, min, ltb, ◌==◌,
  if◌then◌else◌, codes, decimal,
}

-- Shortest gap between two lines of one kind: one second.
abbrev pub rate : ℕ
rate = 1_000_000_000

pub data Kind : Type 0 where
  gate close : Kind

pub record Budget : Type 0 where
  pub last : Option ℕ
  pub suppressed : ℕ

pub record Audit : Type 0 where
  pub out : List (List ℕ)
  pub gate_budget : Budget
  pub close_budget : Budget

unfoldable pub new : List (List ℕ) → Audit
new out = record {
  out = out;
  gate_budget = record { last = none; suppressed = 0 };
  close_budget = record { last = none; suppressed = 0 };
}

abbrev pub budget_of : Audit → Kind → Budget
budget_of audit gate = audit.gate_budget
budget_of audit close = audit.close_budget

abbrev pub set_budget : Audit → Kind → Budget → Audit
set_budget audit gate b = record audit { gate_budget = b }
set_budget audit close b = record audit { close_budget = b }

-- Whether a line of this kind went out less than `rate` ago. `-` stops at 0 as
-- `saturating_duration_since` does.
unfoldable pub is_recent : Budget → ℕ → Bool
is_recent b now = elim b.last [ none ↦ false | some last ↦ ltb (now - last) rate ]

unfoldable pub line_text : ℕ → List ℕ → List ℕ
line_text n text =
    if n == 0 then text ++ codes "\n" else text ++ (codes " (+" ++ (decimal n ++ codes " more)\n"))

unfoldable pub line : Audit → Kind → ℕ → List ℕ → Audit
unfolding is_recent line_text
line audit kind now text =
    let b = budget_of audit kind in
    if is_recent b now
    then set_budget audit kind (record b { suppressed = min (b.suppressed + 1) (2 ^ 64 - 1) })
    else record (set_budget audit kind (record { last = some now; suppressed = 0 })) {
      out = audit.out ++ (line_text b.suppressed text ∷ []);
    }

unfoldable pub suppressed : Audit → Kind → ℕ
suppressed audit kind = (budget_of audit kind).suppressed
