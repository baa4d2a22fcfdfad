-- ===== src/Core/DbusWire/Session/Sending.antt =====
-- crates/bubbler-core/src/dbus_wire.rs: what is sent, whatever the socket answers.
use bubbler.Prelude.{
  ℕ, ◌≡◌, ◌≢◌, refl, sym, ap, ◌∙◌, inl, inr, List, [], ◌∷◌, ◌++◌, append_assoc, append-nil, All,
  Result, ok, err, ltb, ◌==◌, ◌&&◌, length, take, drop, take-append-drop, Bool-cases, arith,
}
use bubbler.Core.DbusWire.Types.{WireError}
use bubbler.Core.DbusWire.Session.{Attempt, Session, send_loop, send, max_call_fds}

-- The bytes of what was sent, in order.
abbrev pub sent_bytes : List (List ℕ × ℕ) → List ℕ
sent_bytes [] = []
sent_bytes ((bytes, fds) ∷ pieces) = bytes ++ sent_bytes pieces

pub sent_bytes-append :
    (xs ys : List (List ℕ × ℕ)) → sent_bytes (xs ++ ys) ≡ sent_bytes xs ++ sent_bytes ys
sent_bytes-append [] ys = refl
sent_bytes-append ((bytes, fds) ∷ xs) ys =
    ap (λ t. bytes ++ t) (sent_bytes-append xs ys)
    ∙ sym (append_assoc bytes (sent_bytes xs) (sent_bytes ys))

-- The descriptors travel with the first piece.
abbrev pub Carries : ℕ → List (List ℕ × ℕ) → Type 0
Carries fds [] = Unit {0}
Carries fds ((bytes, n) ∷ pieces) = (n ≡ fds) × All (λ p. p.1 ≡ 0) pieces

none_left : (pieces : List (List ℕ × ℕ)) → Carries 0 pieces → All (λ p. p.1 ≡ 0) pieces
none_left [] c = tt
none_left (p ∷ pieces) c = c

-- What is left of a message: nothing exactly where nothing failed.
abbrev pub IsLeft : Result WireError (Unit {0}) → List ℕ → Type 0
IsLeft (ok u) unsent = unsent ≡ []
IsLeft (err e) unsent = unsent ≢ []

-- What sending leaves: the pieces that went out are the front of the message, all of it exactly where nothing
-- failed.
pub record Sends (message : List ℕ) (fds : ℕ) (s : Session)
    (r : Result WireError (Unit {0}) × Session) : Type 0 where
  pub pieces : List (List ℕ × ℕ)
  pub unsent : List ℕ
  pub attempts : List Attempt
  pub left : r.1 ≡ record s { attempts = attempts; sent = s.sent ++ pieces }
  pub front : message ≡ sent_bytes pieces ++ unsent
  pub ends : IsLeft r.0 unsent
  pub carries : Carries fds pieces

-- Nothing goes out.
nothing :
    (e : WireError) (message : List ℕ) (fds : ℕ) (attempts : List Attempt) (s : Session)
    → message ≢ []
    → Sends message fds s (err e, record s { attempts = attempts })
nothing e message fds attempts s some_left = record {
  pieces = [];
  unsent = message;
  attempts = attempts;
  left = ap (λ l. record s { attempts = attempts; sent = l }) (sym (append-nil s.sent));
  front = refl;
  ends = some_left;
  carries = tt;
}

-- One piece more in front.
more :
    (n : ℕ) (message : List ℕ) (fds : ℕ) (s : Session) (r : Result WireError (Unit {0}) × Session)
    → Sends (drop n message) 0 (record s { sent = s.sent ++ ((take n message, fds) ∷ []) }) r
    → Sends message fds s r
more n message fds s r rest = record {
  pieces = (take n message, fds) ∷ rest.pieces;
  unsent = rest.unsent;
  attempts = rest.attempts;
  left =
      rest.left
      ∙ ap (λ l. record s { attempts = rest.attempts; sent = l })
          (append_assoc s.sent ((take n message, fds) ∷ []) rest.pieces);
  front =
      sym (take-append-drop n message)
      ∙ ap (λ t. take n message ++ t) rest.front
      ∙ sym (append_assoc (take n message) (sent_bytes rest.pieces) rest.unsent);
  ends = rest.ends;
  carries = (refl, none_left rest.pieces rest.carries);
}

send_loop-Sends :
    (attempts : List Attempt) (message : List ℕ) (carried : ℕ) (s : Session)
    → Sends message carried s (send_loop attempts message carried s)
unfolding send_loop
send_loop-Sends attempts [] carried s = record {
  pieces = [];
  unsent = [];
  attempts = attempts;
  left = ap (λ l. record s { attempts = attempts; sent = l }) (sym (append-nil s.sent));
  front = refl;
  ends = refl;
  carries = tt;
}
send_loop-Sends [] (b ∷ message) carried s =
    nothing WireError.timeout (b ∷ message) carried [] s (λ q. cc)
send_loop-Sends (Attempt.took n ∷ attempts) (b ∷ message) carried s = elim (Bool-cases (n == 0)) [
  | inl none ↦ rw none (nothing WireError.closed (b ∷ message) carried attempts s (λ q. cc))
  | inr some_bytes ↦ rw some_bytes (
      more n (b ∷ message) carried s _ (
        send_loop-Sends attempts (drop n (b ∷ message)) 0
          (record s { sent = s.sent ++ ((take n (b ∷ message), carried) ∷ []) })))
]
send_loop-Sends (Attempt.interrupted ∷ attempts) (b ∷ message) carried s =
    send_loop-Sends attempts (b ∷ message) carried s
send_loop-Sends (Attempt.room ∷ attempts) (b ∷ message) carried s =
    send_loop-Sends attempts (b ∷ message) carried s
send_loop-Sends (Attempt.no_room ∷ attempts) (b ∷ message) carried s =
    nothing WireError.timeout (b ∷ message) carried attempts s (λ q. cc)
send_loop-Sends (Attempt.failed ∷ attempts) (b ∷ message) carried s =
    nothing WireError.io (b ∷ message) carried attempts s (λ q. cc)

-- Whatever the socket answers, what goes out is the front of the message, each byte once and in order, and all of
-- it exactly where nothing failed; the descriptors go with the first piece and with no other; and nothing else of the
-- session changes.
pub send-Sends :
    (message : List ℕ) (fds : ℕ) (s : Session) → Sends message fds s (send message fds s)
unfolding send
send-Sends message fds s = elim (Bool-cases (ltb 0 (length message) && ltb max_call_fds fds)) [
  | inl many ↦ rw many (
      nothing (WireError.too_many_fds fds) message fds s.attempts s
        (λ q. let none : length message ≡ 0 = ap length q in absurd (ground arith)))
  | inr few ↦ rw few (send_loop-Sends s.attempts message fds s)
]
