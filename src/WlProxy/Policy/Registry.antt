-- ===== src/WlProxy/Policy/Registry.antt =====
-- crates/bubbler-wl-proxy/src/policy.rs: which globals a connection is offered and may bind.
use bubbler.Prelude.{
  ℕ, ◌≤◌, ◌≡◌, refl, sym, true, false, some, List, Result, if◌then◌else◌, codes, arith, inl, inr,
  Endian, Bool-cases, contains_name, min, ◌==◌, Option-cases, to_str, to_str_same,
}
use mathlib.Core.Path.{subst}
use bubbler.Prelude.Assoc.{
  lookup, insert, remove, IsUnique, lookup-insert, lookup-remove, insert-IsUnique, remove-IsUnique,
}
use bubbler.WlProxy.Tables.{Interface, by_index, index_of, index_of_sound}
use bubbler.WlProxy.Objects.{ObjectError, is_hidden}
use bubbler.WlProxy.Privileged.{privileged}
use bubbler.WlProxy.Policy.{
  Action, forward, drop, refuse, Turn, Global, request, event, apply, settle, keep_up, drop_message,
  log, named, arm, is_pressed, release, global, global_remove, bind, described, first_uint,
  global_args,
}

module _ (interfaces : List Interface) where
  -- What a connection may hold of a global: an interface that the tables describe and that is not
  -- privileged, at a version that the tables describe.
  pub record IsOffered (g : Global) : Type 0 where
    pub known : Interface
    pub at : by_index interfaces g.interface ≡ some known
    pub unprivileged : contains_name privileged known.name ≡ false
    pub clamped : g.version ≤ known.version

  pub record AreOffered (globals : List (ℕ × Global)) : Type 0 where
    pub unique : IsUnique globals
    pub each : (name : ℕ) (g : Global) → lookup name globals ≡ some g → IsOffered g

  described_inv :
      (iface : List ℕ) (index : ℕ) (known : Interface)
      → described interfaces iface ≡ some (index, known)
      → (by_index interfaces index ≡ some known)
        × (contains_name privileged known.name ≡ false)
        × (iface ≡ known.name)
  unfolding described
  described_inv iface index known h = elim (Option-cases (to_str iface)) [
    | inl e ↦ absurd (ground (arith, e))
    | inr (text, e) ↦ elim (Option-cases (index_of interfaces text)) [
      | inl e2 ↦ absurd (ground (arith, e, e2))
      | inr (i, e2) ↦
          let (x, at, eq) = index_of_sound interfaces text i e2 in
          ground (arith, e, e2, at, eq, to_str_same iface text e)
    ]
  ]

  insert-AreOffered :
      (globals : List (ℕ × Global)) (name : ℕ) (g : Global)
      → AreOffered globals
      → IsOffered g
      → AreOffered (insert name g globals)
  insert-AreOffered globals name g a new = record {
    unique = insert-IsUnique name g globals a.unique;
    each = λ j h found. elim (Bool-cases (name == j)) [
      | inl e ↦
          let same : g ≡ h = ground (arith, e, lookup-insert name j g globals, found) in
          subst IsOffered same new
      | inr e ↦ a.each j h (ground (arith, e, lookup-insert name j g globals, found))
    ];
  }

  remove-AreOffered :
      (globals : List (ℕ × Global)) (name : ℕ)
      → AreOffered globals
      → AreOffered (remove name globals)
  remove-AreOffered globals name a = record {
    unique = remove-IsUnique name globals a.unique;
    each = λ j h found. elim (Bool-cases (name == j)) [
      | inl e ↦ absurd (ground (arith, e, lookup-remove name j globals a.unique, found))
      | inr e ↦ a.each j h (ground (arith, e, lookup-remove name j globals a.unique, found))
    ];
  }

  -- What a message does to the offered globals: nothing, or it takes one away, or it adds one that
  -- the tables describe and that is not privileged.
  data GlobalsStep (old : List (ℕ × Global)) (r : Turn × Action) : Type 0 where
    kept : r.0.conn.globals ≡ old → GlobalsStep old r
    withdrawn : (name : ℕ) → r.0.conn.globals ≡ remove name old → GlobalsStep old r
    added :
        (name : ℕ) (g : Global)
        → r.0.conn.globals ≡ insert name g old
        → IsOffered g
        → GlobalsStep old r

  global-GlobalsStep : (t : Turn) → GlobalsStep t.conn.globals (global interfaces t)
  unfolding global
  global-GlobalsStep t = elim (Option-cases (global_args t.msg.args)) [
    | inl e ↦ kept (ground (arith, e))
    | inr ((name, iface, version, rest), e) ↦ elim (Option-cases (described interfaces iface)) [
      | inl e2 ↦ kept (unfold drop_message in ground (arith, e, e2))
      | inr ((index, known), e2) ↦
          let (at, free, _) = described_inv iface index known e2 in
          added name (record { interface = index; version = min version known.version })
            (ground (arith, e, e2))
            (record { known = known; at = at; unprivileged = free; clamped = omega arith })
    ]
  ]

  global_remove-GlobalsStep : (t : Turn) → GlobalsStep t.conn.globals (global_remove t)
  unfolding global_remove
  global_remove-GlobalsStep t = elim (Option-cases (first_uint t.msg.args)) [
    | inl e ↦ kept (ground (arith, e))
    | inr (name, e) ↦ elim (Bool-cases (is_hidden t.conn.objects name)) [
      | inl h ↦ kept (unfold drop_message in ground (arith, e, h))
      | inr h ↦ withdrawn name (ground (arith, e, h))
    ]
  ]

  settle-globals : (r : Turn × Action) → (settle interfaces r).0.conn.globals ≡ r.0.conn.globals
  unfolding settle keep_up
  settle-globals (t, forward) = ground arith
  settle-globals (t, drop) = refl
  settle-globals (t, refuse bytes) = refl

  request-globals : (t : Turn) (now : ℕ) → (request t now).0.conn.globals ≡ t.conn.globals
  unfolding request drop_message log
  request-globals t now = ground arith

  release-globals : (t : Turn) → (release t).conn.globals ≡ t.conn.globals
  unfolding release
  release-globals t = ground arith

  bind-globals :
      (order : Endian) (t : Turn) (now : ℕ)
      → (bind interfaces order t now).0.conn.globals ≡ t.conn.globals
  unfolding bind log
  bind-globals order t now = ground arith

  arm-globals : (t : Turn) (now : ℕ) → (arm t now).conn.globals ≡ t.conn.globals
  unfolding arm
  arm-globals t now = refl

  key-globals :
      (t : Turn) (now : ℕ)
      → (if is_pressed t.msg.args then arm t now else t).conn.globals ≡ t.conn.globals
  unfolding arm
  key-globals t now = ground arith

  event-GlobalsStep : (t : Turn) (now : ℕ) → GlobalsStep t.conn.globals (event interfaces t now)
  unfolding event
  event-GlobalsStep t now = elim (Bool-cases (named t.msg (codes "wl_registry") (codes "global"))) [
    | inl e ↦ rw e (global-GlobalsStep t)
    | inr e ↦ elim (Bool-cases (named t.msg (codes "wl_registry") (codes "global_remove"))) [
      | inl f ↦ rw (e, f) (global_remove-GlobalsStep t)
      | inr f ↦ kept (ground (arith, e, f, release-globals t, key-globals t now, arm-globals t now))
    ]
  ]

  GlobalsStep-AreOffered :
      (old : List (ℕ × Global)) (r : Turn × Action)
      → AreOffered old
      → GlobalsStep old r
      → AreOffered r.0.conn.globals
  GlobalsStep-AreOffered old r a (kept e) = subst AreOffered (sym e) a
  GlobalsStep-AreOffered old r a (withdrawn name e) =
      subst AreOffered (sym e) (remove-AreOffered old name a)
  GlobalsStep-AreOffered old r a (added name g e new) =
      subst AreOffered (sym e) (insert-AreOffered old name g a new)

  settle-AreOffered :
      (r : Turn × Action)
      → AreOffered r.0.conn.globals
      → AreOffered (settle interfaces r).0.conn.globals
  settle-AreOffered r a = subst AreOffered (sym (settle-globals r)) a

  module _ (order : Endian) (t : Turn) (now : ℕ) where
    pub apply-bind :
        t.msg.from_client ≡ true
        → named t.msg (codes "wl_registry") (codes "bind") ≡ true
        → apply interfaces order t now ≡ bind interfaces order t now
    unfolding apply
    apply-bind client binds = ground (arith, client, binds)

    apply-request :
        t.msg.from_client ≡ true
        → named t.msg (codes "wl_registry") (codes "bind") ≡ false
        → apply interfaces order t now ≡ settle interfaces (request t now)
    unfolding apply
    apply-request client other = ground (arith, client, other)

    apply-event :
        t.msg.from_client ≡ false
        → apply interfaces order t now ≡ settle interfaces (event interfaces t now)
    unfolding apply
    apply-event server = ground (arith, server)

    -- A message of either side keeps the globals that its connection was offered within those that
    -- the tables describe and that are not privileged, at versions that the tables describe.
    pub apply-AreOffered :
        AreOffered t.conn.globals → AreOffered (apply interfaces order t now).0.conn.globals
    apply-AreOffered a = elim (Bool-cases t.msg.from_client) [
      | inr server ↦ after (apply-event server) (
          settle-AreOffered (event interfaces t now) (
            GlobalsStep-AreOffered t.conn.globals (event interfaces t now) a
              (event-GlobalsStep t now)))
      | inl client ↦ elim (Bool-cases (named t.msg (codes "wl_registry") (codes "bind"))) [
        | inl binds ↦
            after (apply-bind client binds) (subst AreOffered (sym (bind-globals order t now)) a)
        | inr other ↦
            after (apply-request client other)
              (settle-AreOffered (request t now) (subst AreOffered (sym (request-globals t now)) a))
      ]
    ]
      where
        after :
            {r : Turn × Result ObjectError Action}
            → apply interfaces order t now ≡ r
            → AreOffered r.0.conn.globals
            → AreOffered (apply interfaces order t now).0.conn.globals
        after e =
            subst (λ (r : Turn × Result ObjectError Action). AreOffered r.0.conn.globals) (sym e)
