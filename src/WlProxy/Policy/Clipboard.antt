-- ===== src/WlProxy/Policy/Clipboard.antt =====
-- crates/bubbler-wl-proxy/src/policy.rs: the clipboard gate.
use bubbler.Prelude.{
  ℕ, ◌-◌, ◌≤◌, ◌≡◌, refl, sym, Bool, true, false, Option, none, some, List, [], Result, ok, err,
  if◌then◌else◌, Result-cases, ◌=b=◌, =b=_sound, ◌&&◌, ◌||◌, not, codes, arith, ◌⊎◌, inl, inr,
  Endian, Bool-cases,
}
use mathlib.Core.Path.{subst}
use bubbler.WlProxy.Tables.{Interface}
use bubbler.WlProxy.Objects.{Objects, ObjectError, destroy, new_id_from}
use bubbler.WlProxy.Policy.{
  paste, Action, forward, drop, refuse, Incoming, Turn, gate_window, is_gated, is_fresh, request,
  event, apply, settle, keep_up, drop_message, log, named, arm, release, global, global_remove,
  is_pressed, bind,
}

receive-ne-bind :
    (name : List ℕ) → (name =b= codes "receive") ≡ true → (name =b= codes "bind") ≡ false
receive-ne-bind name h = rw (=b=_sound name (codes "receive") h) (unfold ◌=b=◌ in refl)

module _ (interfaces : List Interface) (order : Endian) (t : Turn) (now : ℕ)
    (client : t.msg.from_client ≡ true) (gated : is_gated t.msg ≡ true) where
  apply-request : apply interfaces order t now ≡ settle interfaces (request t now)
  unfolding apply is_gated
  apply-request = ground (arith, client, gated, receive-ne-bind t.msg.message.name)

-- An input was at most the window ago.
abbrev pub IsWithin : Option ℕ → ℕ → Type 0
IsWithin o now = (last : ℕ) × (o ≡ some last) × (now - last ≤ gate_window)

-- A message that goes through: it is forwarded as it came, with the objects that recording its new id, if any,
-- gives, and the one that it destroys destroyed; and where recording fails, that is the error and nothing changes.
abbrev pub IsForwarded :
    Turn → Result ObjectError (Objects × Option ℕ) → Turn × Result ObjectError Action → Type 0
IsForwarded t (ok (objects, made)) r =
    (r.1 ≡ ok forward)
    × (r.0 ≡ record t {
      conn = record t.conn {
        objects =
            if t.msg.from_client && t.msg.message.is_destructor
            then (destroy objects t.msg.object).0
            else objects;
      };
    })
IsForwarded t (err e) r = (r.1 ≡ err e) × (r.0 ≡ t)

-- A message that is dropped: its descriptors are closed, and neither the connection nor the policy changes.
abbrev pub IsDropped : Turn → Turn × Result ObjectError Action → Type 0
IsDropped t r = (r.1 ≡ ok drop) × (r.0.msg.fds ≡ []) × (r.0.conn ≡ t.conn) × (r.0.policy ≡ t.policy)

within : (o : Option ℕ) (now : ℕ) → is_fresh o now ≡ true → IsWithin o now
unfolding is_fresh
within none now h = cc
within (some last) now h = (last, refl, ground arith)

outside : (o : Option ℕ) (now : ℕ) → is_fresh o now ≡ false → IsWithin o now → ⊥
unfolding is_fresh
outside none now h (last, e, le) = cc
outside (some last) now h (last', e, le) = ground arith

module _ (interfaces : List Interface) (order : Endian) (t : Turn) (now : ℕ)
    (client : t.msg.from_client ≡ true) (gated : is_gated t.msg ≡ true)
    (gate : t.policy.gate ≡ paste) where
  abbrev recording : Result ObjectError (Objects × Option ℕ)
  recording =
      new_id_from interfaces t.conn.objects t.msg.from_client t.msg.object t.msg.opcode t.msg.args

  keep_up-IsForwarded : IsForwarded t recording (keep_up interfaces t)
  unfolding keep_up
  keep_up-IsForwarded = elim (Result-cases recording) [
    | inl ((objects, made), e) ↦ rw (e, keep_up) (refl, refl)
    | inr (failure, e) ↦ rw (e, keep_up) (refl, refl)
  ]

  -- With the gate on, a clipboard read of the client's goes through exactly where the last input was at most the
  -- window ago: then it is forwarded with its descriptors, or its new id is refused as that of any request. If
  -- there was no input, or it was longer ago, then the read is dropped: its descriptors are closed, and neither
  -- the connection nor the policy changes.
  pub receive_gate :
      (IsWithin t.policy.last_input now × IsForwarded t recording (apply interfaces order t now))
      ⊎ ((IsWithin t.policy.last_input now → ⊥) × IsDropped t (apply interfaces order t now))
  receive_gate =
      rw (apply-request interfaces order t now client gated)
        (elim (Bool-cases (is_fresh t.policy.last_input now)) [
          | inl fresh ↦ inl (
            within t.policy.last_input now fresh,
            subst (IsForwarded t recording) (sym (allowed fresh)) keep_up-IsForwarded,
          )
          | inr stale ↦ inr (outside t.policy.last_input now stale, denied stale)
        ])
    where
      allowed :
          is_fresh t.policy.last_input now ≡ true
          → settle interfaces (request t now) ≡ keep_up interfaces t
      allowed fresh = unfold settle request in ground (arith, gate, gated, fresh)

      denied :
          is_fresh t.policy.last_input now ≡ false → IsDropped t (settle interfaces (request t now))
      denied stale = unfold settle request drop_message log in ground (arith, gate, gated, stale)

-- The events that are input: a key that is pressed, a mouse button, a finger going down or up.
unfoldable pub is_input : Incoming → Bool
is_input msg =
    not msg.from_client
    && ((named msg (codes "wl_keyboard") (codes "key") && is_pressed msg.args)
        || (named msg (codes "wl_pointer") (codes "button")
            || (named msg (codes "wl_touch") (codes "down")
                || named msg (codes "wl_touch") (codes "up"))))

module _ (interfaces : List Interface) where
  keep_up-policy : (t : Turn) → (keep_up interfaces t).0.policy ≡ t.policy
  unfolding keep_up
  keep_up-policy t = ground arith

  settle-policy : (t : Turn) (a : Action) → (settle interfaces (t, a)).0.policy ≡ t.policy
  unfolding settle
  settle-policy t forward = keep_up-policy t
  settle-policy t drop = refl
  settle-policy t (refuse bytes) = refl

  request-policy : (t : Turn) (now : ℕ) → (request t now).0.policy ≡ t.policy
  unfolding request drop_message log
  request-policy t now = ground arith

  global-policy : (t : Turn) → (global interfaces t).0.policy ≡ t.policy
  unfolding global drop_message
  global-policy t = ground arith

  global_remove-policy : (t : Turn) → (global_remove t).0.policy ≡ t.policy
  unfolding global_remove drop_message
  global_remove-policy t = ground arith

  release-policy : (t : Turn) → (release t).policy ≡ t.policy
  unfolding release
  release-policy t = ground arith

  abbrev OnlyInput : Turn → ℕ → Turn → Type 0
  OnlyInput t now t' =
      (t'.policy.last_input ≡ t.policy.last_input)
      ⊎ ((t'.policy.last_input ≡ some now) × (is_input t.msg ≡ true))

  event-OnlyInput :
      (t : Turn) (now : ℕ) → t.msg.from_client ≡ false → OnlyInput t now (event interfaces t now).0
  unfolding event is_input arm
  event-OnlyInput t now server =
      ground (arith, server, global-policy t, global_remove-policy t, release-policy t)

  settle_of : (r : Turn × Action) → (settle interfaces r).0.policy ≡ r.0.policy
  settle_of (t, a) = settle-policy t a

  bind-policy :
      (order : Endian) (t : Turn) (now : ℕ) → (bind interfaces order t now).0.policy ≡ t.policy
  unfolding bind log
  bind-policy order t now = ground arith

  -- The gate opens for input and for nothing else: after any message the moment of the last input is
  -- what it was, or it is now and the message is an input event of the compositor's.
  pub apply-last_input :
      (order : Endian) (t : Turn) (now : ℕ)
      → ((apply interfaces order t now).0.policy.last_input ≡ t.policy.last_input)
        ⊎ (((apply interfaces order t now).0.policy.last_input ≡ some now)
            × (is_input t.msg ≡ true)
            × (t.msg.from_client ≡ false))
  unfolding apply
  apply-last_input order t now = elim (Bool-cases t.msg.from_client) [
    | inl c ↦
        ground (arith, c, bind-policy order t now, settle_of (request t now), request-policy t now)
    | inr s ↦ ground (arith, s, settle_of (event interfaces t now), event-OnlyInput t now s)
  ]
