-- ===== src/Core/DbusWire/Session/Answers.antt =====
-- crates/bubbler-core/src/dbus_wire.rs: the messages that a session hands over stand in its stream, and which
-- of them are taken for an answer.
use bubbler.Prelude.{
  ℕ, ◌+◌, ◌≡◌, inl, inr, refl, sym, ap, ◌∙◌, true, false, List, [], ◌∷◌, ◌++◌, append_assoc, Option,
  none, some, Result, ok, err, leb, ◌==◌, ==_iff, ◌=b=◌, =b=_sound, not, ◌&&◌, length, take, drop,
  take-append-drop, arith, Bool-cases, Result-cases,
}
use bubbler.Core.DbusWire.Types.{WireError, Values}
use bubbler.Core.DbusWire.Decode.{decode}
use bubbler.Core.DbusWire.Message.{fixed_header, frame, Message, decode_message}
use bubbler.Core.DbusWire.Session.{
  Arrival, Session, and_then, counted, take_message, framed_message, next_message, fill_until,
}
use bubbler.Core.DbusWire.Session.Calls.{bus_name, Verdict, is_serial, judge_sender, judge}

-- The bytes that arrive from here on, and those of a session: what is in the buffer and what will come.
unfoldable pub chunks : List Arrival → List ℕ
chunks [] = []
chunks (Arrival.bytes chunk fds ∷ arrivals) = chunk ++ chunks arrivals
chunks (Arrival.hung_up ∷ arrivals) = chunks arrivals
chunks (Arrival.late ∷ arrivals) = chunks arrivals
chunks (Arrival.broken ∷ arrivals) = chunks arrivals

abbrev pub stream : Session → List ℕ
stream s = s.buf ++ chunks s.arrivals

-- The stream of the second session is what is left of that of the first.
pub record Later (s s' : Session) : Type 0 where
  pub before : List ℕ
  pub rest : stream s ≡ before ++ stream s'

-- A message that stands in the stream of a session.
pub record Got (s : Session) (m : Message) : Type 0 where
  pub before : List ℕ
  pub read : List ℕ
  pub after : List ℕ
  pub whole : stream s ≡ before ++ (read ++ after)
  pub decoded : decode_message read ≡ ok m

-- The values of a return that came over the session, for a serial, from an owner.
pub record IsAnswer (s : Session) (serial : ℕ) (owner : List ℕ) (values : Values) : Type 0 where
  pub m : Message
  pub got : Got s m
  pub replies : m.reply_serial ≡ some serial
  pub returns : m.kind ≡ 2
  pub from_owner : m.sender ≡ some owner
  pub holds : decode m.signature m.body ≡ ok values

-- What an operation leaves, and what holds of its value.
pub data Does (s : Session) {A : Type 0} (P : A → Type 0)
    : Result WireError A × Session → Type 0 where
  gave : (a : A) (s' : Session) → Later s s' → P a → Does s P (ok a, s')
  gave_up : (e : WireError) (s' : Session) → Later s s' → Does s P (err e, s')

module _ (s : Session) where
  pub and_then-Does :
      {A B : Type 0} {P : A → Type 0} {Q : B → Type 0} (r : Result WireError A × Session)
      (next : A → Session → Result WireError B × Session)
      → Does s P r
      → ((a : A) (s' : Session) → Later s s' → P a → Does s Q (next a s'))
      → Does s Q (and_then r next)
  unfolding and_then
  and_then-Does _ next (gave a s' later p) k = k a s' later p
  and_then-Does _ next (gave_up e s' later) k = gave_up e s' later

  -- A result that leaves the session as it is.
  pub pure-Does :
      {A : Type 0} (r : Result WireError A) (s' : Session)
      → Later s s'
      → Does s (λ (a : A). r ≡ ok a) (r, s')
  pure-Does (ok a) s' later = gave a s' later refl
  pure-Does (err e) s' later = gave_up e s' later

  counted-Does :
      (read : List ℕ) (s' : Session)
      → Later s s'
      → ((m : Message) → decode_message read ≡ ok m → Got s m)
      → Does s (Got s) (counted (decode_message read) s')
  unfolding counted
  counted-Does read s' later got = elim (Result-cases (decode_message read)) [
    | inr (e, failed) ↦ rw failed (gave_up e s' later)
    | inl (m, decoded) ↦ rw decoded (elim (Bool-cases (s'.fds_seen == m.unix_fds)) [
      | inl as_many ↦ rw as_many (
          gave m (record s' { fds_seen = 0 }) (record { before = later.before; rest = later.rest })
            (got m decoded))
      | inr other ↦ rw other (
          gave_up _ (record s' { fds_seen = 0 })
            (record { before = later.before; rest = later.rest }))
    ])
  ]

  -- The reader of messages takes the front of the buffer, or gives up.
  take_message-Does :
      (total : ℕ) (s' : Session) → Later s s' → Does s (Got s) (take_message total s')
  unfolding take_message
  take_message-Does total s' later =
      let cut : stream s' ≡ take total s'.buf ++ (drop total s'.buf ++ chunks s'.arrivals) =
        ap (λ b. b ++ chunks s'.arrivals) (sym (take-append-drop total s'.buf))
        ∙ append_assoc (take total s'.buf) (drop total s'.buf) (chunks s'.arrivals) in
      let whole : stream s
          ≡ later.before ++ (take total s'.buf ++ (drop total s'.buf ++ chunks s'.arrivals)) =
        later.rest ∙ ap (λ t. later.before ++ t) cut in
      counted-Does (take total s'.buf) (record s' { buf = drop total s'.buf })
        (record {
          before = later.before ++ take total s'.buf;
          rest =
              whole
              ∙ sym (
                  append_assoc later.before (take total s'.buf)
                    (drop total s'.buf ++ chunks s'.arrivals));
        })
        (λ m decoded. record {
          before = later.before;
          read = take total s'.buf;
          after = drop total s'.buf ++ chunks s'.arrivals;
          whole = whole;
          decoded = decoded;
        })

  abbrev Found : Option (Result WireError Message × Session) → Type 0
  Found none = Unit
  Found (some r) = Does s (Got s) r

  next_message-Found : (s' : Session) → Later s s' → Found (next_message s')
  unfolding next_message framed_message
  next_message-Found s' later = elim (Bool-cases (leb fixed_header (length s'.buf))) [
    | inr short ↦ rw short tt
    | inl long ↦ rw long (elim (Result-cases (frame s'.buf)) [
      | inr (e, failed) ↦ rw (failed, framed_message) (gave_up e s' later)
      | inl (place, framed) ↦
          rw (framed, framed_message)
            (elim (Bool-cases (leb (place.0 + place.1) (length s'.buf))) [
              | inr part ↦ rw part tt
              | inl all_there ↦ rw all_there (take_message-Does (place.0 + place.1) s' later)
            ])
    ])
  ]

  -- Waiting for more, when no message is whole.
  waits :
      (o : Option (Result WireError Message × Session)) (r : Result WireError Message × Session)
      → Found o
      → Does s (Got s) r
      → Does s (Got s) (elim o [ some q ↦ q | none ↦ r ])
  waits none r found more = more
  waits (some q) r found more = found

  pub receive-Does :
      (arrivals : List Arrival) (s' : Session)
      → s'.arrivals ≡ arrivals
      → Later s s'
      → Does s (Got s) (fill_until next_message arrivals s')
  unfolding fill_until chunks
  receive-Does [] s' e later =
      waits (next_message s') _ (next_message-Found s' later) (gave_up _ s' later)
  receive-Does (Arrival.bytes chunk fds ∷ arrivals) s' e later =
      waits (next_message s') _ (next_message-Found s' later) (
        receive-Does arrivals
          (record s' { buf = s'.buf ++ chunk; fds_seen = s'.fds_seen + fds; arrivals = arrivals })
          refl
          (record {
            before = later.before;
            rest =
                later.rest
                ∙ ap (λ t. later.before ++ t)
                    (ap (λ l. s'.buf ++ chunks l) e
                      ∙ sym (append_assoc s'.buf chunk (chunks arrivals)));
          }))
  receive-Does (Arrival.hung_up ∷ arrivals) s' e later =
      waits (next_message s') _ (next_message-Found s' later) (
        gave_up _ (record s' { arrivals = arrivals })
          (record {
            before = later.before;
            rest = later.rest ∙ ap (λ l. later.before ++ (s'.buf ++ chunks l)) e;
          }))
  receive-Does (Arrival.late ∷ arrivals) s' e later =
      waits (next_message s') _ (next_message-Found s' later) (
        gave_up _ (record s' { arrivals = arrivals })
          (record {
            before = later.before;
            rest = later.rest ∙ ap (λ l. later.before ++ (s'.buf ++ chunks l)) e;
          }))
  receive-Does (Arrival.broken ∷ arrivals) s' e later =
      waits (next_message s') _ (next_message-Found s' later) (
        gave_up _ (record s' { arrivals = arrivals })
          (record {
            before = later.before;
            rest = later.rest ∙ ap (λ l. later.before ++ (s'.buf ++ chunks l)) e;
          }))

-- A message that is taken for an answer has the serial, and comes from the owner where it is a return.
is_serial_inv : (o : Option ℕ) (serial : ℕ) → is_serial o serial ≡ true → o ≡ some serial
unfolding is_serial
is_serial_inv none serial h = cc
is_serial_inv (some n) serial h = ap some ((==_iff n serial).0 h)

judge_sender_inv :
    (o : Option (List ℕ)) (owner : List ℕ) (kind : ℕ)
    → judge_sender o owner kind ≡ Verdict.answer
    → kind ≡ 2
    → o ≡ some owner
unfolding judge_sender
judge_sender_inv none owner kind h k = cc
judge_sender_inv (some sender) owner kind h k = elim (Bool-cases (sender =b= owner)) [
  | inl same ↦ ap some (=b=_sound sender owner same)
  | inr other ↦
      let no_error : ((sender =b= bus_name) && (kind == 3)) ≡ false = rw k (ground arith) in
      let skipped : Verdict.skip ≡ Verdict.answer = rw (other, no_error) at h in cc
]

pub judge_inv :
    (serial : ℕ) (owner : List ℕ) (m : Message)
    → judge serial owner m ≡ Verdict.answer
    → m.kind ≡ 2
    → (m.reply_serial ≡ some serial) × (m.sender ≡ some owner)
unfolding judge
judge_inv serial owner m h k = elim (Bool-cases (is_serial m.reply_serial serial)) [
  | inr other ↦ let skipped : Verdict.skip ≡ Verdict.answer = rw other at h in cc
  | inl same ↦
      let a_reply : (not (m.kind == 2) && not (m.kind == 3)) ≡ false = ground arith in
      let judged : judge_sender m.sender owner m.kind ≡ Verdict.answer = rw (same, a_reply) at h in
      (is_serial_inv m.reply_serial serial same, judge_sender_inv m.sender owner m.kind judged k)
]
