-- ===== src/Core/DbusWire/Session/Opening.antt =====
-- crates/bubbler-core/src/dbus_wire.rs: what a session that was opened has sent and been answered.
use bubbler.Prelude.{
  ℕ, ◌≡◌, ◌⊎◌, refl, sym, ap, ◌∙◌, true, inl, inr, List, [], ◌∷◌, ◌++◌, append_assoc, none, Result,
  ok, err, ◌=b=◌, =b=_sound, codes, append-nil, Bool-cases, Option-cases,
}
use bubbler.Core.DbusWire.Types.{WireError}
use bubbler.Core.DbusWire.Session.{Session, send}
use bubbler.Core.DbusWire.Session.Handshake.{
  uid_hex, has_prefix, strip_prefix, first_line, read_line, accepted, negotiated, line_end,
  trim_start, trim_end, authenticate,
}
use bubbler.Core.DbusWire.Session.Answers.{stream}
use bubbler.Core.DbusWire.Session.Sending.{sent_bytes, sent_bytes-append, IsLeft, send-Sends}
use bubbler.Core.DbusWire.Session.Lines.{Post, and_then-Post, Takes, read_line-Takes}

-- The whole message went out, and nothing was read.
record Puts (s : Session) (message : List ℕ) (s' : Session) : Type 0 where
  pub read : stream s ≡ stream s'
  pub put : sent_bytes s'.sent ≡ sent_bytes s.sent ++ message
  pub passing : s'.fd_passing ≡ s.fd_passing

ends_whole :
    (r : Result WireError (Unit {0})) (u : Unit {0}) (unsent : List ℕ)
    → r ≡ ok u
    → IsLeft r unsent
    → unsent ≡ []
ends_whole (ok u') u unsent h e = e
ends_whole (err e') u unsent h e = cc

send-Puts :
    (message : List ℕ) (fds : ℕ) (s : Session)
    → Post (λ u s'. Puts s message s') (send message fds s)
send-Puts message fds s u h =
    let sent = send-Sends message fds s in
    let all_out : message ≡ sent_bytes sent.pieces =
      sent.front
      ∙ ap (λ t. sent_bytes sent.pieces ++ t)
          (ends_whole (send message fds s).0 u sent.unsent h sent.ends)
      ∙ append-nil _ in
    record {
      read = ap stream (sym sent.left);
      put =
          ap (λ t. sent_bytes t.sent) sent.left
          ∙ sent_bytes-append s.sent sent.pieces
          ∙ ap (λ t. sent_bytes s.sent ++ t) (sym all_out);
      passing = ap (λ t. t.fd_passing) sent.left;
    }

accepted_inv : (l : List ℕ) → accepted l ≡ ok tt → has_prefix (codes "OK ") l ≡ true
unfolding accepted
accepted_inv l h = elim (Option-cases (strip_prefix (codes "REJECTED") l)) [
  | inr (rest, rejected) ↦
      let stuck : ◌≡◌ {A = Result WireError (Unit {0})}
          (err (WireError.auth_rejected (trim_end (trim_start rest)))) (ok tt) =
        rw (rejected, accepted) at h in
      cc
  | inl other ↦ elim (Bool-cases (has_prefix (codes "OK ") l)) [
    | inl welcome ↦ welcome
    | inr odd ↦
        let stuck : ◌≡◌ {A = Result WireError (Unit {0})} (err (WireError.auth l)) (ok tt) =
          rw (other, odd, accepted) at h in
        cc
  ]
]

-- The answer for the descriptors, and what the session takes from it.
abbrev pub Negotiates : Session → List ℕ → Session → Type 0
Negotiates s l s' =
    ((l ≡ codes "AGREE_UNIX_FD") × (s' ≡ record s { fd_passing = true }))
    ⊎ ((has_prefix (codes "ERROR") l ≡ true) × (s' ≡ s))

negotiated-Negotiates :
    (l : List ℕ) (s : Session) → Post (λ u s'. Negotiates s l s') (negotiated l s)
unfolding negotiated
negotiated-Negotiates l s = elim (Bool-cases (l =b= codes "AGREE_UNIX_FD")) [
  | inl agrees ↦ rw agrees (λ u h. inl (=b=_sound l (codes "AGREE_UNIX_FD") agrees, refl))
  | inr other ↦ rw other (elim (Bool-cases (has_prefix (codes "ERROR") l)) [
    | inl refuses ↦ rw refuses (λ u h. inr (refl, refl))
    | inr odd ↦ rw odd (λ u h. cc)
  ])
]

-- The three texts that open a session.
abbrev pub credentials : ℕ → List ℕ
credentials uid = 0 ∷ (codes "AUTH EXTERNAL " ++ (uid_hex uid ++ line_end))

abbrev pub negotiation : List ℕ
negotiation = codes "NEGOTIATE_UNIX_FD" ++ line_end

abbrev pub begin : List ℕ
begin = codes "BEGIN" ++ line_end

-- What a session has sent and read when it is authenticated.
pub record IsOpened (uid : ℕ) (s s' : Session) : Type 0 where
  pub granted : List ℕ
  pub agreed : List ℕ
  pub unbroken : (first_line granted ≡ none) × (first_line agreed ≡ none)
  pub read : stream s ≡ granted ++ (line_end ++ (agreed ++ (line_end ++ stream s')))
  pub put : sent_bytes s'.sent ≡ sent_bytes s.sent ++ (credentials uid ++ (negotiation ++ begin))
  pub welcome : has_prefix (codes "OK ") granted ≡ true
  pub passing :
      ((agreed ≡ codes "AGREE_UNIX_FD") × (s'.fd_passing ≡ true))
      ⊎ ((has_prefix (codes "ERROR") agreed ≡ true) × (s'.fd_passing ≡ s.fd_passing))

-- The answer about descriptors changes nothing of what was read and sent.
Negotiates-stream :
    (s : Session) (l : List ℕ) (s' : Session)
    → Negotiates s l s'
    → (stream s' ≡ stream s) × (s'.sent ≡ s.sent)
Negotiates-stream s l s' (inl (agrees, e)) = (ap stream e, ap (λ t. t.sent) e)
Negotiates-stream s l s' (inr (refuses, e)) = (ap stream e, ap (λ t. t.sent) e)

module _ (uid : ℕ) (s s1 s2 s3 s4 s5 s6 : Session) (granted agreed : List ℕ)
    (sent : Puts s (credentials uid) s1) (took : Takes s1 granted s2)
    (asked : Puts s2 negotiation s3) (heard : Takes s3 agreed s4)
    (settled : Negotiates s4 agreed s5) (began : Puts s5 begin s6) where
  all_read : stream s ≡ granted ++ (line_end ++ (agreed ++ (line_end ++ stream s6)))
  all_read =
      sent.read
      ∙ took.read
      ∙ ap (λ t. granted ++ (line_end ++ t))
          (asked.read
            ∙ heard.read
            ∙ ap (λ t. agreed ++ (line_end ++ t))
                (sym (Negotiates-stream s4 agreed s5 settled).0 ∙ began.read))

  all_put : sent_bytes s6.sent ≡ sent_bytes s.sent ++ (credentials uid ++ (negotiation ++ begin))
  all_put =
      let b = sent_bytes s.sent in
      began.put
      ∙ ap (λ t. t ++ begin)
          (ap sent_bytes (Negotiates-stream s4 agreed s5 settled).1
            ∙ ap sent_bytes heard.kept
            ∙ asked.put
            ∙ ap (λ t. t ++ negotiation) (ap sent_bytes took.kept ∙ sent.put))
      ∙ append_assoc (b ++ credentials uid) negotiation begin
      ∙ append_assoc b (credentials uid) (negotiation ++ begin)

  all_passing :
      ((agreed ≡ codes "AGREE_UNIX_FD") × (s6.fd_passing ≡ true))
      ⊎ ((has_prefix (codes "ERROR") agreed ≡ true) × (s6.fd_passing ≡ s.fd_passing))
  all_passing = elim settled [
    | inl (agrees, e) ↦ inl (agrees, began.passing ∙ ap (λ t. t.fd_passing) e)
    | inr (refuses, e) ↦ inr (
      refuses,
      began.passing
          ∙ ap (λ t. t.fd_passing) e
          ∙ heard.passing
          ∙ asked.passing
          ∙ took.passing
          ∙ sent.passing,
    )
  ]

authenticate-Post : (uid : ℕ) (s : Session) → Post (λ u t. IsOpened uid s t) (authenticate uid s)
unfolding authenticate
authenticate-Post uid s =
    let Opened : Unit {0} → Session → Type 0 = λ u t. IsOpened uid s t in
    and_then-Post (λ u t. Puts s (credentials uid) t) Opened (send (credentials uid) 0 s) _
      (send-Puts (credentials uid) 0 s)
      (λ u s1 sent.
        and_then-Post (Takes s1) Opened (read_line s1) _ (read_line-Takes s1) (λ granted s2 took.
          and_then-Post (λ u t. (has_prefix (codes "OK ") granted ≡ true) × Takes s1 granted t)
            Opened (accepted granted, s2) _ (λ u right. (accepted_inv granted right, took))
            (λ u t2 welcomed.
              and_then-Post (λ u t. Puts t2 negotiation t) Opened (send negotiation 0 t2) _
                (send-Puts negotiation 0 t2)
                (λ u s3 asked.
                  and_then-Post (Takes s3) Opened (read_line s3) _ (read_line-Takes s3)
                    (λ agreed s4 heard.
                      and_then-Post (λ u t. Negotiates s4 agreed t) Opened (negotiated agreed s4) _
                        (negotiated-Negotiates agreed s4)
                        (λ u s5 settled last right.
                          let s6 = (send begin 0 s5).1 in
                          let began : Puts s5 begin s6 = send-Puts begin 0 s5 last right in
                          record {
                            granted = granted;
                            agreed = agreed;
                            unbroken = (welcomed.1.unbroken, heard.unbroken);
                            read =
                                all_read uid s s1 t2 s3 s4 s5 s6 granted agreed sent welcomed.1
                                  asked heard settled began;
                            put =
                                all_put uid s s1 t2 s3 s4 s5 s6 granted agreed sent welcomed.1 asked
                                  heard settled began;
                            welcome = welcomed.0;
                            passing =
                                all_passing uid s s1 t2 s3 s4 s5 s6 granted agreed sent welcomed.1
                                  asked heard settled began;
                          }))))))

-- Where the authentication succeeds, the session has sent the credentials of the user, the question for
-- descriptors and the beginning, and no other byte; it has read two lines and no byte behind them, of which the
-- first begins with `OK `; and it passes descriptors where the second agrees, and has not changed that where the
-- second begins with `ERROR`, one of which is the case.
pub authenticate-IsOpened :
    (uid : ℕ) (s : Session) → (authenticate uid s).0 ≡ ok tt → IsOpened uid s (authenticate uid s).1
authenticate-IsOpened uid s h = authenticate-Post uid s tt h
