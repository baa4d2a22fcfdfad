-- ===== src/Init/Wire/Descriptors.antt =====
-- crates/bubbler-init/src/wire.rs: which descriptors a request brings.
use bubbler.Prelude.{
  ℕ, ◌≡◌, ◌≤◌, refl, sym, ap, ◌∙◌, true, false, Option, none, some, ◌⊎◌, inl, inr, List, [], ◌∷◌,
  ◌++◌, length, Result, ok, err, arith, Bool-cases, Result-cases, ltb, ◌==◌, not, u32_of_slice,
  little,
}
use mathlib.Core.Bool.{true≢false}
use bubbler.Init.Proto.{Request, ProtoError, decode_request, max_request}
use bubbler.Init.Wire.{
  Incoming, Answer, received, failed, WireError, new, accept_prefix, read_prefix, read_payload,
  read_for, read_some, is_whole, finish, finish_with, read_step, would_block,
}

-- Once the length is known it is within the bound and three descriptors are held.
abbrev pub IsReady : Incoming → Type 0
IsReady inc =
    (inc.want ≡ none)
    ⊎ ((length inc.fds ≡ 3) × ((want : ℕ) × (inc.want ≡ some want) × (want ≤ max_request)))

accept_prefix-IsReady : (inc : Incoming) → inc.want ≡ none → IsReady (accept_prefix inc).0
unfolding accept_prefix
accept_prefix-IsReady inc h = elim (Bool-cases (not (length inc.fds == 3))) [
  | inl e ↦ rw (e) (inl h)
  | inr e ↦ elim (Bool-cases (ltb max_request (u32_of_slice little inc.prefix))) [
    | inl f ↦ rw (e, f) (inl h)
    | inr f ↦ rw (e, f) (inr (ground arith, (u32_of_slice little inc.prefix, refl, ground arith)))
  ]
]

read_prefix-IsReady :
    (inc : Incoming) (answer : Answer) → inc.want ≡ none → IsReady (read_prefix inc answer).0
unfolding read_prefix
read_prefix-IsReady inc (failed kind) h = elim (Bool-cases (would_block kind)) [
  | inl e ↦ rw (e) (inl h)
  | inr e ↦ rw (e) (inl h)
]
read_prefix-IsReady inc (received bytes fds) h = elim (Bool-cases (length bytes == 0)) [
  | inl e ↦ rw (e) (inl h)
  | inr e ↦ elim (Bool-cases (ltb (length (inc.prefix ++ bytes)) 4)) [
    | inl f ↦ rw (e, f) (inl h)
    | inr f ↦ rw (e, f) (accept_prefix-IsReady _ h)
  ]
]

read_payload-IsReady :
    (inc : Incoming) (answer : Answer) → IsReady inc → IsReady (read_payload inc answer).0
unfolding read_payload
read_payload-IsReady inc (failed kind) h = elim (Bool-cases (would_block kind)) [
  | inl e ↦ rw (e) h
  | inr e ↦ rw (e) h
]
read_payload-IsReady inc (received bytes fds) h = elim (Bool-cases (length bytes == 0)) [
  | inl e ↦ rw (e) h
  | inr e ↦ rw (e) h
]

read_for-IsReady :
    (want : Option ℕ) (inc : Incoming) (answer : Answer)
    → inc.want ≡ want
    → IsReady inc
    → IsReady (read_for want inc answer).0
unfolding read_for
read_for-IsReady none inc answer e h = read_prefix-IsReady inc answer e
read_for-IsReady (some want) inc answer e h = read_payload-IsReady inc answer h

read_some-IsReady :
    (inc : Incoming) (answer : Answer) → IsReady inc → IsReady (read_some inc answer).0
unfolding read_some
read_some-IsReady inc answer h = read_for-IsReady inc.want inc answer refl h

-- What a request that is handed over brings: three descriptors, which the connection holds no more.
abbrev pub Brings : Incoming → Request → List ℕ → Type 0
Brings inc request fds =
    (length fds ≡ 3) × (inc.fds ≡ []) × (decode_request inc.payload ≡ ok request)

abbrev Handed : Incoming × Result WireError (Option (Request × List ℕ)) → Type 0
Handed r =
    (request : Request) (fds : List ℕ) → r.1 ≡ ok (some (request, fds)) → Brings r.0 request fds

whole_ready : (inc : Incoming) → IsReady inc → is_whole inc ≡ true → length inc.fds ≡ 3
unfolding is_whole
whole_ready inc (inl e) h = absurd (true≢false (sym h ∙ rw (e) refl))
whole_ready inc (inr (three, rest)) h = three

finish_with-Handed :
    (inc : Incoming) (decoded : Result ProtoError Request)
    → decode_request inc.payload ≡ decoded
    → length inc.fds ≡ 3
    → Handed (finish_with inc decoded)
unfolding finish_with
finish_with-Handed inc (err e) same three request fds h = cc
finish_with-Handed inc (ok r) same three request fds h =
    let (a, b) : (r ≡ request) × (inc.fds ≡ fds) = (cc, cc) in
    (ap length (sym b) ∙ three, refl, same ∙ ap (λ x. ok x) a)

read_step-Handed :
    (answers : List Answer) (inc : Incoming) → IsReady inc → Handed (read_step answers inc)
unfolding read_step finish
read_step-Handed [] inc ready = elim (Bool-cases (is_whole inc)) [
  | inl e ↦ rw (e) (finish_with-Handed inc _ refl (whole_ready inc ready e))
  | inr e ↦ rw (e) (λ request fds h. cc)
]
read_step-Handed (answer ∷ answers) inc ready = elim (Bool-cases (is_whole inc)) [
  | inl e ↦ rw (e) (finish_with-Handed inc _ refl (whole_ready inc ready e))
  | inr e ↦ elim (Result-cases (read_some inc answer).1) [
    | inl (true, f) ↦ rw (e, f) (read_step-Handed answers _ (read_some-IsReady inc answer ready))
    | inl (false, f) ↦ rw (e, f) (λ request fds h. cc)
    | inr (failure, f) ↦ rw (e, f) (λ request fds h. cc)
  ]
]

abbrev Waits : Incoming × Result WireError (Option (Request × List ℕ)) → Type 0
Waits r = r.1 ≡ ok none → IsReady r.0

finish_with-Waits :
    (inc : Incoming) (decoded : Result ProtoError Request) → Waits (finish_with inc decoded)
unfolding finish_with
finish_with-Waits inc (err e) h = cc
finish_with-Waits inc (ok r) h = cc

read_step-Waits :
    (answers : List Answer) (inc : Incoming) → IsReady inc → Waits (read_step answers inc)
unfolding read_step finish
read_step-Waits [] inc ready = elim (Bool-cases (is_whole inc)) [
  | inl e ↦ rw (e) (finish_with-Waits inc _)
  | inr e ↦ rw (e) (λ h. ready)
]
read_step-Waits (answer ∷ answers) inc ready = elim (Bool-cases (is_whole inc)) [
  | inl e ↦ rw (e) (finish_with-Waits inc _)
  | inr e ↦ elim (Result-cases (read_some inc answer).1) [
    | inl (true, f) ↦ rw (e, f) (read_step-Waits answers _ (read_some-IsReady inc answer ready))
    | inl (false, f) ↦ rw (e, f) (λ h. read_some-IsReady inc answer ready)
    | inr (failure, f) ↦ rw (e, f) (λ h. cc)
  ]
]

-- A connection after any calls of `read_step` that found the request incomplete.
pub data Reach : Incoming → Type 0 where
  start : Reach new
  wait :
      {inc : Incoming} (answers : List Answer)
      → Reach inc
      → (read_step answers inc).1 ≡ ok none
      → Reach (read_step answers inc).0

Reach-IsReady : {inc : Incoming} → Reach inc → IsReady inc
Reach-IsReady start = unfold new in inl refl
Reach-IsReady (wait {inc} answers reach h) = read_step-Waits answers inc (Reach-IsReady reach) h

-- Whatever a peer sends, in whatever pieces and over however many calls of `read_step`, a request is
-- handed over only with exactly three descriptors, which the connection then holds no more, and only
-- where the payload that was read decodes to that request.
pub Reach-Brings :
    {inc : Incoming} (answers : List Answer) (request : Request) (fds : List ℕ)
    → Reach inc
    → (read_step answers inc).1 ≡ ok (some (request, fds))
    → Brings (read_step answers inc).0 request fds
Reach-Brings {inc} answers request fds reach h =
    read_step-Handed answers inc (Reach-IsReady reach) request fds h
