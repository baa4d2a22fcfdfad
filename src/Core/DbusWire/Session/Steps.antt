-- ===== src/Core/DbusWire/Session/Steps.antt =====
-- crates/bubbler-core/src/dbus_wire.rs: what waiting for an answer and sending leave of the stream.
use bubbler.Prelude.{
  ℕ, ◌≡◌, inl, inr, refl, sym, ap, ◌∙◌, Bool, true, false, List, [], ◌∷◌, ◌++◌, append_assoc,
  Option, none, some, Result, ltb, ◌==◌, ==_iff, ◌=b=◌, ◌&&◌, ◌||◌, length, take, drop, Bool-cases,
}
use bubbler.Core.DbusWire.Types.{WireError, Values}
use bubbler.Core.DbusWire.Decode.{decode}
use bubbler.Core.DbusWire.Message.{Message}
use bubbler.Core.DbusWire.Session.{
  Attempt, Session, next_message, fill_until, receive, send_loop, send,
}
use bubbler.Core.DbusWire.Session.Calls.{
  error_no_owner, error_service_unknown, forget, Verdict, judge, refused, answered, await,
}
use bubbler.Core.DbusWire.Session.Answers.{
  stream, Later, Got, IsAnswer, Does, gave, gave_up, and_then-Does, pure-Does, receive-Does,
  judge_inv,
}

-- Only the stream counts for what comes later.
pub same_stream : (s s' t : Session) → Later s s' → stream s' ≡ stream t → Later s t
same_stream s s' t later e = record {
  before = later.before;
  rest = later.rest ∙ ap (λ x. later.before ++ x) e;
}

pub here : (s : Session) → Later s s
here s = record { before = []; rest = refl }

pub Later-trans : (s t u : Session) → Later s t → Later t u → Later s u
Later-trans s t u l k = record {
  before = l.before ++ k.before;
  rest = l.rest ∙ ap (λ x. l.before ++ x) k.rest ∙ sym (append_assoc l.before k.before (stream u));
}

pub map-Does :
    (s : Session) {A : Type 0} {P Q : A → Type 0} (r : Result WireError A × Session)
    → ((a : A) → P a → Q a)
    → Does s P r
    → Does s Q r
map-Does s _ k (gave a s' later p) = gave a s' later (k a p)
map-Does s _ k (gave_up e s' later) = gave_up e s' later

by_verdict :
    {A : Type 0} (D : A → Type 0) (v : Verdict) (a b c : A)
    → D a
    → D b
    → (v ≡ Verdict.answer → D c)
    → D (elim v [ Verdict.skip ↦ a | Verdict.no_sender ↦ b | Verdict.answer ↦ c ])
by_verdict D Verdict.skip a b c da db dc = da
by_verdict D Verdict.no_sender a b c da db dc = db
by_verdict D Verdict.answer a b c da db dc = dc refl

module _ (s : Session) where
  refused-Does :
      {P : Values → Type 0} (o : Option (List ℕ)) (dest : List ℕ) (m : Message) (s' : Session)
      → Later s s'
      → Does s P (refused o dest m s')
  unfolding refused
  refused-Does none dest m s' later = gave_up _ s' later
  refused-Does (some name) dest m s' later =
      elim (Bool-cases (name =b= error_no_owner || name =b= error_service_unknown)) [
        | inl gone ↦ rw gone (
            gave_up _ (record s' { owners = forget dest s'.owners })
              (same_stream s s' _ later refl))
        | inr other ↦ rw other (gave_up _ s' later)
      ]

  answered-Does :
      (serial : ℕ) (owner dest : List ℕ) (m : Message) (s' : Session)
      → Later s s'
      → Got s m
      → judge serial owner m ≡ Verdict.answer
      → Does s (IsAnswer s serial owner) (answered dest m s')
  unfolding answered
  answered-Does serial owner dest m s' later got judged = elim (Bool-cases (m.kind == 2)) [
    | inr other ↦ rw other (refused-Does m.error_name dest m s' later)
    | inl a_return ↦
        let two : m.kind ≡ 2 = (==_iff m.kind 2).0 a_return in
        let (replies, from_owner) = judge_inv serial owner m judged two in
        rw a_return (
          map-Does s (decode m.signature m.body, s')
            (λ values holds. record {
              m = m;
              got = got;
              replies = replies;
              returns = two;
              from_owner = from_owner;
              holds = holds;
            })
            (pure-Does s (decode m.signature m.body) s' later))
  ]

  pub await-Does :
      (turns : List Bool) (serial : ℕ) (owner dest : List ℕ) (s' : Session)
      → Later s s'
      → Does s (IsAnswer s serial owner) (await turns serial owner dest s')
  unfolding await receive
  await-Does [] serial owner dest s' later = gave_up _ s' later
  await-Does (true ∷ turns) serial owner dest s' later =
      gave_up _ (record s' { turns = turns }) (same_stream s s' _ later refl)
  await-Does (false ∷ turns) serial owner dest s' later =
      and_then-Does s (fill_until next_message s'.arrivals (record s' { turns = turns })) _
        (receive-Does s s'.arrivals (record s' { turns = turns }) refl
          (same_stream s s' _ later refl))
        (λ m t later' got.
          by_verdict (Does s (IsAnswer s serial owner)) (judge serial owner m) _ _ _
            (await-Does turns serial owner dest t later') (gave_up _ t later')
            (answered-Does serial owner dest m t later' got))

  send_loop-Does :
      (attempts : List Attempt) (message : List ℕ) (carried : ℕ) (s' : Session)
      → Later s s'
      → Does s (λ (u : Unit {0}). Unit {0}) (send_loop attempts message carried s')
  unfolding send_loop
  send_loop-Does attempts [] carried s' later =
      gave tt (record s' { attempts = attempts }) (same_stream s s' _ later refl) tt
  send_loop-Does [] (b ∷ message) carried s' later =
      gave_up _ (record s' { attempts = [] }) (same_stream s s' _ later refl)
  send_loop-Does (Attempt.took n ∷ attempts) (b ∷ message) carried s' later =
      elim (Bool-cases (n == 0)) [
        | inl nothing ↦
            rw nothing
              (gave_up _ (record s' { attempts = attempts }) (same_stream s s' _ later refl))
        | inr some_bytes ↦ rw some_bytes (
            send_loop-Does attempts (drop n (b ∷ message)) 0
              (record s' { sent = s'.sent ++ ((take n (b ∷ message), carried) ∷ []) })
              (same_stream s s' _ later refl))
      ]
  send_loop-Does (Attempt.interrupted ∷ attempts) (b ∷ message) carried s' later =
      send_loop-Does attempts (b ∷ message) carried s' later
  send_loop-Does (Attempt.room ∷ attempts) (b ∷ message) carried s' later =
      send_loop-Does attempts (b ∷ message) carried s' later
  send_loop-Does (Attempt.no_room ∷ attempts) (b ∷ message) carried s' later =
      gave_up _ (record s' { attempts = attempts }) (same_stream s s' _ later refl)
  send_loop-Does (Attempt.failed ∷ attempts) (b ∷ message) carried s' later =
      gave_up _ (record s' { attempts = attempts }) (same_stream s s' _ later refl)

  pub send-Does :
      (message : List ℕ) (fds : ℕ) (s' : Session)
      → Later s s'
      → Does s (λ (u : Unit {0}). Unit {0}) (send message fds s')
  unfolding send
  send-Does message fds s' later = elim (Bool-cases (ltb 0 (length message) && ltb 253 fds)) [
    | inl many ↦ rw many (gave_up _ s' later)
    | inr few ↦ rw few (send_loop-Does s'.attempts message fds s' later)
  ]
