-- ===== src/Core/DbusWire/Session/Lines.antt =====
-- crates/bubbler-core/src/dbus_wire.rs: a line that was read, and what is left of the stream.
use bubbler.Prelude.{
  ℕ, ◌+◌, ◌≡◌, refl, sym, ap, ◌∙◌, false, inl, inr, List, [], ◌∷◌, ◌++◌, append_assoc, Option, some,
  none, Result, ok, err, ◌==◌, ◌&&◌, ltb, length, codes, to_str, to_str_same, to_string_lossy,
  Bool-cases, Option-cases, arith,
}
use mathlib.Core.Path.{subst}
use bubbler.NetProxy.Allow.{all}
use bubbler.Core.DbusWire.Types.{WireError}
use bubbler.Core.DbusWire.Session.{Arrival, Session, and_then, fill_until}
use bubbler.Core.DbusWire.Session.Handshake.{
  first_line, with_front, ascii_text, next_line, read_line, line_end, max_auth_line,
}
use bubbler.Core.DbusWire.Session.Answers.{chunks, stream}

-- What holds where an operation gives a value, of the value and of the session that it leaves.
abbrev pub Post : {A : Type 0} → (A → Session → Type 0) → Result WireError A × Session → Type 0
Post {A} Q r = (a : A) → r.0 ≡ ok a → Q a r.1

pub and_then-Post :
    {A B : Type 0} (P : A → Session → Type 0) (Q : B → Session → Type 0)
    (r : Result WireError A × Session) (next : A → Session → Result WireError B × Session)
    → Post P r
    → ((a : A) (s : Session) → P a s → Post Q (next a s))
    → Post Q (and_then r next)
unfolding and_then
and_then-Post P Q (ok a, s) next p k = k a s (p a refl)
and_then-Post P Q (err e, s) next p k = λ b h. cc

first_line_inv :
    (buf line rest : List ℕ) → first_line buf ≡ some (line, rest) → buf ≡ line ++ (13 ∷ 10 ∷ rest)
unfolding first_line with_front
first_line_inv [] line rest h = cc
first_line_inv (a ∷ []) line rest h = cc
first_line_inv (a ∷ b ∷ buf) line rest h = elim (Bool-cases (a == 13 && b == 10)) [
  | inl ends ↦ ground arith
  | inr goes_on ↦ elim (Option-cases (first_line (b ∷ buf))) [
    | inl never ↦
        let stuck : ◌≡◌ {A = Option (List ℕ × List ℕ)} none (some (line, rest)) =
          rw (goes_on, never) at h in
        cc
    | inr (found, later) ↦
        let there : ◌≡◌ {A = Option (List ℕ × List ℕ)} (some (a ∷ found.0, found.1))
            (some (line, rest)) =
          rw (goes_on, later) at h in
        let front : a ∷ found.0 ≡ line = cc in
        let behind : found.1 ≡ rest = cc in
        rw (sym front, sym behind)
          (ap (λ t. a ∷ t) (first_line_inv (b ∷ buf) found.0 found.1 later))
  ]
]

-- The line has no ending inside.
first_line-line :
    (buf line rest : List ℕ) → first_line buf ≡ some (line, rest) → first_line line ≡ none
unfolding first_line with_front
first_line-line [] line rest h = cc
first_line-line (a ∷ []) line rest h = cc
first_line-line (a ∷ b ∷ buf) line rest h = elim (Bool-cases (a == 13 && b == 10)) [
  | inl ends ↦ ground arith
  | inr goes_on ↦ elim (Option-cases (first_line (b ∷ buf))) [
    | inl never ↦
        let stuck : ◌≡◌ {A = Option (List ℕ × List ℕ)} none (some (line, rest)) =
          rw (goes_on, never) at h in
        cc
    | inr ((found, behind), later) ↦
        let there : ◌≡◌ {A = Option (List ℕ × List ℕ)} (some (a ∷ found, behind))
            (some (line, rest)) =
          rw (goes_on, later) at h in
        let front : a ∷ found ≡ line = cc in
        subst (λ l. first_line l ≡ none) front
          (unbroken a b buf found behind goes_on (first_line_inv (b ∷ buf) found behind later)
            (first_line-line (b ∷ buf) found behind later))
  ]
]
  where
    unbroken :
        (a b : ℕ) (buf found behind : List ℕ)
        → (a == 13 && b == 10) ≡ false
        → b ∷ buf ≡ found ++ (13 ∷ 10 ∷ behind)
        → first_line found ≡ none
        → first_line (a ∷ found) ≡ none
    unbroken a b buf [] behind goes_on e n = refl
    unbroken a b buf (c ∷ found) behind goes_on e n =
        let same : b ≡ c = cc in
        let other : (a == 13 && c == 10) ≡ false =
          subst (λ x. (a == 13 && x == 10) ≡ false) same goes_on in
        rw (other, n) refl

-- A line was taken off the stream, and nothing was sent.
pub record Takes (s : Session) (line : List ℕ) (s' : Session) : Type 0 where
  pub unbroken : first_line line ≡ none
  pub read : stream s ≡ line ++ (line_end ++ stream s')
  pub kept : s'.sent ≡ s.sent
  pub passing : s'.fd_passing ≡ s.fd_passing

ascii_text_inv : (line l : List ℕ) → ascii_text line ≡ ok l → l ≡ line
unfolding ascii_text
ascii_text_inv line l h = elim (Bool-cases (all (λ b. ltb b 128) line)) [
  | inr other ↦
      let stuck : ◌≡◌ {A = Result WireError (List ℕ)} (err (WireError.auth (to_string_lossy line)))
          (ok l) =
        rw (other, ascii_text) at h in
      cc
  | inl ascii ↦ elim (Option-cases (to_str line)) [
    | inl broken ↦
        let stuck : ◌≡◌ {A = Result WireError (List ℕ)} (err WireError.bad_string) (ok l) =
          rw (ascii, broken, ascii_text) at h in
        cc
    | inr (text, is_text) ↦
        let given : ◌≡◌ {A = Result WireError (List ℕ)} (ok text) (ok l) =
          rw (ascii, is_text, ascii_text) at h in
        let same : text ≡ l = cc in sym same ∙ to_str_same line text is_text
  ]
]

next_line-Takes :
    (s : Session) (l : List ℕ) (r : Result WireError (List ℕ) × Session)
    → next_line s ≡ some r
    → r.0 ≡ ok l
    → Takes s l r.1
unfolding next_line
next_line-Takes s l r found h = elim (Option-cases (first_line s.buf)) [
  | inl never ↦ elim (Bool-cases (ltb max_auth_line (length s.buf))) [
    | inl long ↦
        let given : ◌≡◌ {A = Option (Result WireError (List ℕ) × Session)}
            (some (err (WireError.auth (codes "a line with no end")), s)) (some r) =
          rw (never, long, next_line) at found in
        let same : ◌≡◌ {A = Result WireError (List ℕ) × Session}
            (err (WireError.auth (codes "a line with no end")), s) r =
          cc in
        let stuck : ◌≡◌ {A = Result WireError (List ℕ)}
            (err (WireError.auth (codes "a line with no end"))) (ok l) =
          ap (λ q. q.0) same ∙ h in
        cc
    | inr short ↦
        let stuck : ◌≡◌ {A = Option (Result WireError (List ℕ) × Session)} none (some r) =
          rw (never, short, next_line) at found in
        cc
  ]
  | inr ((line, rest), there) ↦
      let given : ◌≡◌ {A = Option (Result WireError (List ℕ) × Session)}
          (some (ascii_text line, record s { buf = rest })) (some r) =
        rw (there, next_line) at found in
      let same : ◌≡◌ {A = Result WireError (List ℕ) × Session}
          (ascii_text line, record s { buf = rest }) r =
        cc in
      subst (λ q. q.0 ≡ ok l → Takes s l q.1) same
        (λ taken. record {
          unbroken = rw (ascii_text_inv line l taken) (first_line-line s.buf line rest there);
          read =
              ap (λ b. b ++ chunks s.arrivals) (first_line_inv s.buf line rest there)
              ∙ append_assoc line (13 ∷ 10 ∷ rest) (chunks s.arrivals)
              ∙ ap (λ t. t ++ (13 ∷ 10 ∷ (rest ++ chunks s.arrivals)))
                  (sym (ascii_text_inv line l taken));
          kept = refl;
          passing = refl;
        })
        h
]

waits :
    (s : Session) (o : Option (Result WireError (List ℕ) × Session))
    (r : Result WireError (List ℕ) × Session)
    → ((l : List ℕ) (q : Result WireError (List ℕ) × Session)
        → o ≡ some q
        → q.0 ≡ ok l
        → Takes s l q.1)
    → Post (Takes s) r
    → Post (Takes s) (elim o [ some q ↦ q | none ↦ r ])
waits s none r found more = more
waits s (some q) r found more = λ l h. found l q refl h

fill_until-Takes :
    (arrivals : List Arrival) (s : Session)
    → s.arrivals ≡ arrivals
    → Post (Takes s) (fill_until next_line arrivals s)
unfolding fill_until chunks
fill_until-Takes [] s e = waits s (next_line s) _ (next_line-Takes s) (λ l h. cc)
fill_until-Takes (Arrival.bytes chunk fds ∷ arrivals) s e =
    waits s (next_line s) _ (next_line-Takes s) (λ l h.
      let rest =
        fill_until-Takes arrivals
          (record s { buf = s.buf ++ chunk; fds_seen = s.fds_seen + fds; arrivals = arrivals }) refl
          l h in
      record {
        unbroken = rest.unbroken;
        read =
            ap (λ a. s.buf ++ chunks a) e
            ∙ sym (append_assoc s.buf chunk (chunks arrivals))
            ∙ rest.read;
        kept = rest.kept;
        passing = rest.passing;
      })
fill_until-Takes (Arrival.hung_up ∷ arrivals) s e =
    waits s (next_line s) _ (next_line-Takes s) (λ l h. cc)
fill_until-Takes (Arrival.late ∷ arrivals) s e =
    waits s (next_line s) _ (next_line-Takes s) (λ l h. cc)
fill_until-Takes (Arrival.broken ∷ arrivals) s e =
    waits s (next_line s) _ (next_line-Takes s) (λ l h. cc)

pub read_line-Takes : (s : Session) → Post (Takes s) (read_line s)
unfolding read_line
read_line-Takes s = fill_until-Takes s.arrivals s refl
