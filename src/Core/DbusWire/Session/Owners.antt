-- ===== src/Core/DbusWire/Session/Owners.antt =====
-- crates/bubbler-core/src/dbus_wire.rs: who answers a call.
use bubbler.Prelude.{
  ℕ, ◌≡◌, ◌⊎◌, inl, inr, refl, ap, true, List, [], ◌∷◌, ◌++◌, some, Result, ok, ◌=b=◌, ◌||◌, codes,
  arith, Bool-cases, Option-cases, Result-cases,
}
use mathlib.Core.Path.{subst}
use bubbler.NetProxy.Allow.{starts_with}
use bubbler.Core.DbusWire.Types.{WireError, Value, Values}
use bubbler.Core.DbusWire.Encode.{encode}
use bubbler.Core.DbusWire.Message.{encode_message}
use bubbler.Core.DbusWire.Session.{Session, and_then, send}
use bubbler.Core.DbusWire.Session.Calls.{
  bus_name, bus_path, error_no_owner, call_fields, next_serial, call_owner, check_call, call_bus,
  unique_name_of, ask_owner, start_service, looked_up, find_owner, owner_of, call_by,
}
use bubbler.Core.DbusWire.Session.Answers.{
  Later, IsAnswer, Does, gave, gave_up, and_then-Does, pure-Does,
}
use bubbler.Core.DbusWire.Session.Steps.{
  same_stream, here, Later-trans, map-Does, await-Does, send-Does,
}

-- What was left of the stream of a session is left of that of an earlier one.
rebase :
    (s s' : Session) {A : Type 0} {P : A → Type 0} (r : Result WireError A × Session)
    → Later s s'
    → Does s' P r
    → Does s P r
rebase s s' _ l (gave a t l' p) = gave a t (Later-trans s s' t l l') p
rebase s s' _ l (gave_up e t l') = gave_up e t (Later-trans s s' t l l')

-- The next step takes the state that the first one left.
and_then-At :
    (s : Session) {A B : Type 0} {P : A → Type 0} {Q : B → Type 0}
    (r : Result WireError A × Session) (next : A → Session → Result WireError B × Session)
    → Does s P r
    → ((a : A) → r.0 ≡ ok a → Later s r.1 → P a → Does s Q (next a r.1))
    → Does s Q (and_then r next)
unfolding and_then
and_then-At s _ next (gave a t l p) k = k a refl l p
and_then-At s _ next (gave_up e t l) k = gave_up e t l

call_owner-Does :
    (owner dest path iface member sig : List ℕ) (values : Values) (fds : ℕ) (s : Session)
    → Does s
        (IsAnswer s (next_serial s.serial) owner)
        (call_owner owner dest path iface member sig values fds s)
unfolding call_owner and_then
call_owner-Does owner dest path iface member sig values fds s =
    let s1 : Session = record s { serial = next_serial s.serial } in
    let now = same_stream s s s1 (here s) refl in
    elim (Result-cases (encode sig values)) [
      | inr (e, failed) ↦ rw failed (gave_up e s (here s))
      | inl (body, wrote) ↦ rw wrote (
          and_then-Does s
            (encode_message 1 0 s1.serial (call_fields path owner iface member sig fds) body, s1) _
            (pure-Does s
              (encode_message 1 0 s1.serial (call_fields path owner iface member sig fds) body) s1
              now)
            (λ message s2 l2 framed.
              and_then-Does s (send message fds s2) _ (send-Does s message fds s2 l2)
                (λ done s3 l3 u. await-Does s s3.turns s1.serial owner dest s3 l3)))
    ]

call_bus-Does :
    (member sig : List ℕ) (values : Values) (s : Session)
    → Does s (IsAnswer s (next_serial s.serial) bus_name) (call_bus member sig values s)
unfolding call_bus
call_bus-Does member sig values s =
    and_then-At s (check_call bus_name values 0 s, s) _
      (pure-Does s (check_call bus_name values 0 s) s (here s))
      (λ checked e l u. call_owner-Does bus_name bus_name bus_path bus_name member sig values 0 s)

unique_name_of_inv :
    (a b : List ℕ) (values : Values) (name : List ℕ)
    → unique_name_of a b values ≡ ok name
    → (values ≡ Values.cons (Value.str name) Values.nil) × (starts_with b':' name ≡ true)
unfolding unique_name_of
unique_name_of_inv a b (Values.cons (Value.str text) Values.nil) name h =
    elim (Bool-cases (starts_with b':' text)) [
      | inr other ↦ absurd (ground arith)
      | inl unique ↦
          let given : ◌≡◌ {A = Result WireError (List ℕ)} (ok text) (ok name) = rw unique at h in
          let same : text ≡ name = cc in
          (
            ap (λ t. Values.cons (Value.str t) Values.nil) same,
            subst (λ t. starts_with b':' t ≡ true) same unique,
          )
    ]
unique_name_of_inv a b values name h = cc

-- A unique name that the bus, alone in a return, answers the next call on a session with.
abbrev pub IsTold : Session → List ℕ → Type 0
IsTold s owner =
    (starts_with b':' owner ≡ true)
    × IsAnswer s (next_serial s.serial) bus_name (Values.cons (Value.str owner) Values.nil)

ask_owner-Does : (dest : List ℕ) (s : Session) → Does s (IsTold s) (ask_owner dest s)
unfolding ask_owner
ask_owner-Does dest s =
    and_then-Does s
      (call_bus (codes "GetNameOwner") (codes "s") (Values.cons (Value.str dest) Values.nil) s) _
      (call_bus-Does (codes "GetNameOwner") (codes "s") (Values.cons (Value.str dest) Values.nil) s)
      (λ reply t l given.
        map-Does s
          (
            unique_name_of (codes "a GetNameOwner reply that is not one name")
                (codes "a name owner that is not unique") reply,
            t,
          )
          (λ owner e.
            let (alone, unique) = unique_name_of_inv _ _ reply owner e in
            (unique, subst (IsAnswer s (next_serial s.serial) bus_name) alone given))
          (pure-Does s _ t l))

start_service-Does :
    (dest : List ℕ) (s : Session) → Does s (λ (u : Unit {0}). Unit {0}) (start_service dest s)
unfolding start_service
start_service-Does dest s =
    and_then-Does s _ _
      (call_bus-Does (codes "StartServiceByName") (codes "su")
        (Values.cons (Value.str dest) (Values.cons (Value.uint32 0) Values.nil)) s)
      (λ reply t l given. gave tt t l tt)

looked_up-Does :
    (dest : List ℕ) (s : Session) (r : Result WireError (List ℕ) × Session)
    → Does s (IsTold s) r
    → Does s (λ owner. IsTold s owner ⊎ IsTold (start_service dest r.1).1 owner) (looked_up dest r)
unfolding looked_up
looked_up-Does dest s _ (gave owner t l told) = gave owner t l (inl told)
looked_up-Does dest s _ (gave_up (WireError.remote name text) t l) =
    elim (Bool-cases (name =b= error_no_owner)) [
      | inr other ↦ rw other (gave_up _ t l)
      | inl nobody ↦ rw nobody (
          and_then-At s (start_service dest t) _
            (rebase s t (start_service dest t) l (start_service-Does dest t))
            (λ started e l' u.
              map-Does s (ask_owner dest (start_service dest t).1) (λ owner told. inr told)
                (rebase s (start_service dest t).1 (ask_owner dest (start_service dest t).1) l'
                  (ask_owner-Does dest (start_service dest t).1))))
    ]
looked_up-Does dest s _ (gave_up e t l) = gave_up e t l

module _ (s : Session) where
  -- Whose answer counts for a destination: the destination itself, where it is the bus or a unique name; the
  -- owner that the session remembers; or the unique name that the bus gives for it, at once or after the
  -- service was started.
  abbrev pub IsOwnerOf : List ℕ → List ℕ → Type 0
  IsOwnerOf dest owner =
      ((owner ≡ dest) × ((dest =b= bus_name || starts_with b':' dest) ≡ true))
      ⊎ ((find_owner dest s.owners ≡ some owner)
          ⊎ (IsTold s owner ⊎ IsTold (start_service dest (ask_owner dest s).1).1 owner))

  owner_of-Does : (dest : List ℕ) → Does s (IsOwnerOf dest) (owner_of dest s)
  unfolding owner_of
  owner_of-Does dest = elim (Bool-cases (dest =b= bus_name || starts_with b':' dest)) [
    | inl itself ↦ rw itself (gave dest s (here s) (inl (refl, itself)))
    | inr other ↦ rw other (elim (Option-cases (find_owner dest s.owners)) [
      | inr (owner, known) ↦ rw known (gave owner s (here s) (inr (inl known)))
      | inl unknown ↦ rw unknown (
          and_then-Does s (looked_up dest (ask_owner dest s)) _
            (looked_up-Does dest s (ask_owner dest s) (ask_owner-Does dest s))
            (λ owner t l told.
              gave owner (record t { owners = t.owners ++ ((dest, owner) ∷ []) })
                (same_stream s t _ l refl) (inr (inr told))))
    ])
  ]

  -- What a call is answered with: an owner was found, and the values stand in a return of that owner to the
  -- first serial after the search, in the part of the stream that the search left.
  abbrev pub IsReturned : List ℕ → Values → Type 0
  IsReturned dest values =
      (owner : List ℕ) × ((owner_of dest s).0 ≡ ok owner)
      × IsOwnerOf dest owner
      × Later s (owner_of dest s).1
      × IsAnswer (owner_of dest s).1 (next_serial (owner_of dest s).1.serial) owner values

  call_by-Does :
      (dest path iface member sig : List ℕ) (values : Values) (fds : ℕ)
      → Does s (IsReturned dest) (call_by dest path iface member sig values fds s)
  unfolding call_by
  call_by-Does dest path iface member sig values fds =
      and_then-At s (check_call dest values fds s, s) _
        (pure-Does s (check_call dest values fds s) s (here s))
        (λ checked e l u.
          and_then-At s (owner_of dest s) _ (owner_of-Does dest) (λ owner found later who.
            rebase s (owner_of dest s).1
              (call_owner owner dest path iface member sig values fds (owner_of dest s).1) later
              (map-Does (owner_of dest s).1
                (call_owner owner dest path iface member sig values fds (owner_of dest s).1)
                (λ vs from. (owner, found, who, later, from))
                (call_owner-Does owner dest path iface member sig values fds (owner_of dest s).1))))

-- What holds of the value of an operation that gives one.
Does-ok :
    (s : Session) {A : Type 0} {P : A → Type 0} (r : Result WireError A × Session) (a : A)
    → Does s P r
    → r.0 ≡ ok a
    → P a
Does-ok s {P} _ a (gave b s' later p) e = let same : b ≡ a = cc in subst P same p
Does-ok s _ a (gave_up e' s' later) e = cc

-- Where a call gives values, they are the body of a method return in the stream of the session, behind what the
-- search for the owner took; it replies to the first serial after that search, and its sender is the owner that
-- was found: the destination itself, where that is the bus or a unique name, the owner that the session
-- remembers, or a unique name that the bus itself gave, at once or after starting the service.
pub call_by-IsReturned :
    (s : Session) (dest path iface member sig : List ℕ) (values : Values) (fds : ℕ) (reply : Values)
    → (call_by dest path iface member sig values fds s).0 ≡ ok reply
    → IsReturned s dest reply
call_by-IsReturned s dest path iface member sig values fds reply e =
    Does-ok s (call_by dest path iface member sig values fds s) reply
      (call_by-Does s dest path iface member sig values fds) e
