-- ===== src/WlProxy/Policy/Grants.antt =====
-- crates/bubbler-wl-proxy/src/policy.rs: which globals a connection may bind.
use bubbler.Prelude.{
  ℕ, ◌≤◌, ◌≡◌, sym, ap, ◌∙◌, true, false, some, List, Result, ok, =b=_sound, codes, arith, inl, inr,
  Endian, contains_name, min, Option-cases, Result-cases, to_string_lossy,
}
use mathlib.Core.Path.{subst}
use native.Mathlib.Nat.{le_trans}
use bubbler.Prelude.Assoc.{lookup}
use bubbler.WlProxy.Tables.{Interface, by_index}
use bubbler.WlProxy.Objects.{Objects, ObjectError, is_hidden, hide_global}
use bubbler.WlProxy.Objects
use bubbler.WlProxy.Objects.Invariant.{record_id_inv, place-get}
use bubbler.WlProxy.Objects.Steps.{bind_inv}
use bubbler.WlProxy.Policy.Registry.{AreOffered, apply-bind, apply-AreOffered}
use bubbler.WlProxy.Privileged.{privileged}
use bubbler.WlProxy.Policy.{
  new_connection, Action, forward, Turn, Global, Connection, apply, log, named, bind,
  offered_global, bind_args,
}

module _ (interfaces : List Interface) where
  offered_global_inv :
      (conn : Connection) (name : ℕ) (wanted : List ℕ) (version : ℕ) (g : Global)
      → offered_global interfaces conn name wanted version ≡ some g
      → (lookup name conn.globals ≡ some g)
        × ((known : Interface)
            → by_index interfaces g.interface ≡ some known
            → (known.name ≡ wanted) × (1 ≤ version) × (version ≤ g.version))
  unfolding offered_global
  offered_global_inv conn name wanted version g h = elim (Option-cases (lookup name conn.globals)) [
    | inl e ↦ absurd (ground (arith, e))
    | inr (x, e) ↦ elim (Option-cases (by_index interfaces x.interface)) [
      | inl e2 ↦ absurd (ground (arith, e, e2))
      | inr (known, e2) ↦ ground (arith, e, e2, =b=_sound known.name wanted)
    ]
  ]

  -- What a `bind` that is passed on was granted.
  pub record IsGranted (conn after : Connection) (name : ℕ) (iface : List ℕ) (version id : ℕ)
      : Type 0 where
    pub known : Interface
    pub offer : Global
    pub offered : lookup name conn.globals ≡ some offer
    pub described_at : by_index interfaces offer.interface ≡ some known
    pub same_name : known.name ≡ to_string_lossy iface
    pub unprivileged : contains_name privileged (to_string_lossy iface) ≡ false
    pub in_range : (1 ≤ version) × (version ≤ offer.version) × (offer.version ≤ known.version)
    pub not_hidden : is_hidden conn.objects name ≡ false
    pub recorded :
        Objects.get after.objects id
        ≡ some (record { interface = offer.interface; version = version; zombie = false })

  bind_step :
      (order : Endian) (t : Turn) (now : ℕ)
      → (bind interfaces order t now).1 ≡ ok forward
      → (name : ℕ) × (iface : List ℕ) × (version : ℕ) × (id : ℕ) × (g : Global)
        × (objects : Objects) × (bind_args t.msg.args ≡ some (name, iface, version, id))
        × (offered_global interfaces t.conn name (to_string_lossy iface) version ≡ some g)
        × (Objects.bind interfaces t.conn.objects name g.interface version id ≡ ok objects)
        × ((bind interfaces order t now).0.conn ≡ record t.conn { objects = objects })
  unfolding bind log
  bind_step order t now h = elim (Option-cases (bind_args t.msg.args)) [
    | inl e ↦ absurd (ground (arith, e))
    | inr ((name, iface, version, id), e) ↦
        elim (Option-cases
          (offered_global interfaces t.conn name (to_string_lossy iface) version)) [
            | inl e2 ↦ absurd (ground (arith, e, e2))
            | inr (g, e2) ↦
                elim (Result-cases
                  (Objects.bind interfaces t.conn.objects name g.interface version id)) [
                    | inr (x, e3) ↦ absurd (ground (arith, e, e2, e3))
                    | inl (objects, e3) ↦
                        (name, iface, version, id, g, objects, e, e2, e3, ground (arith, e, e2, e3))
                  ]
          ]
  ]

  recorded_version :
      (objects : Objects) (id version : ℕ) (g : Global) (known x : Interface)
      → by_index interfaces g.interface ≡ some known
      → by_index interfaces g.interface ≡ some x
      → version ≤ known.version
      → Objects.get objects id
        ≡ some (record { interface = g.interface; version = min version x.version; zombie = false })
      → Objects.get objects id
        ≡ some (record { interface = g.interface; version = version; zombie = false })
  recorded_version objects id version g known x at at' le h =
      let same : x.version ≡ known.version = cc (at, at') in
      let kept : min version x.version ≡ version = omega (arith, same, le) in
      h ∙ ap (λ v. some (record { interface = g.interface; version = v; zombie = false })) kept

  grant :
      (conn : Connection) (name : ℕ) (iface : List ℕ) (version id : ℕ) (g : Global)
      (objects : Objects)
      → AreOffered interfaces conn.globals
      → offered_global interfaces conn name (to_string_lossy iface) version ≡ some g
      → Objects.bind interfaces conn.objects name g.interface version id ≡ ok objects
      → IsGranted conn (record conn { objects = objects }) name iface version id
  grant conn name iface version id g objects a found bound =
      let (listed, facts) = offered_global_inv conn name (to_string_lossy iface) version g found in
      let o = a.each name g listed in
      let (same, lo, hi) = facts o.known o.at in
      let (shown, recorded) = bind_inv interfaces conn.objects name g.interface version id bound in
      let (x, at, _, _, placed) =
        record_id_inv interfaces conn.objects true id g.interface version recorded in
      let (reads, _, _) = place-get conn.objects true id _ placed in
      record {
        known = o.known;
        offer = g;
        offered = listed;
        described_at = o.at;
        same_name = same;
        unprivileged = subst (λ n. contains_name privileged n ≡ false) same o.unprivileged;
        in_range = (lo, hi, o.clamped);
        not_hidden = shown;
        recorded =
            recorded_version objects id version g o.known x o.at at (le_trans hi o.clamped)
              (ground (arith, reads id));
      }

  -- A bind that is passed on names a global that this connection was offered and that is not hidden
  -- from it, for the very interface that was offered, which is not privileged, at a version from 1 to
  -- the offered one, and the new object is recorded as that interface at that version.
  pub bind-IsGranted :
      (order : Endian) (t : Turn) (now : ℕ)
      → t.msg.from_client ≡ true
      → named t.msg (codes "wl_registry") (codes "bind") ≡ true
      → AreOffered interfaces t.conn.globals
      → (apply interfaces order t now).1 ≡ ok forward
      → (name : ℕ) × (iface : List ℕ) × (version : ℕ) × (id : ℕ) × (bind_args t.msg.args
          ≡ some (name, iface, version, id))
        × IsGranted t.conn (apply interfaces order t now).0.conn name iface version id
  bind-IsGranted order t now client binds a passed =
      let e = apply-bind interfaces order t now client binds in
      let (name, iface, version, id, g, objects, args, found, bound, after) =
        bind_step order t now
          (ap (λ (r : Turn × Result ObjectError Action). r.1) (sym e) ∙ passed) in
      let conn_after : (apply interfaces order t now).0.conn ≡ record t.conn { objects = objects } =
        ap (λ (r : Turn × Result ObjectError Action). r.0.conn) e ∙ after in
      (
        name,
        iface,
        version,
        id,
        args,
        subst (λ c. IsGranted t.conn c name iface version id) (sym conn_after)
            (grant t.conn name iface version id g objects a found bound),
      )

-- The states of one connection: a message of either side is handled at some time, with whatever
-- policy the other connections have left, and leaves the connection after it.
pub data Run (interfaces : List Interface) (order : Endian) (display_index : ℕ)
    : Connection → Type 0 where
  opened :
      (conn : Connection)
      → conn ≡ new_connection display_index
      → Run interfaces order display_index conn
  handled :
      (t : Turn) (now : ℕ) (conn : Connection)
      → Run interfaces order display_index t.conn
      → conn ≡ (apply interfaces order t now).0.conn
      → Run interfaces order display_index conn

module _ (interfaces : List Interface) (order : Endian) (display_index : ℕ) where
  Run-AreOffered :
      (conn : Connection)
      → Run interfaces order display_index conn
      → AreOffered interfaces conn.globals
  Run-AreOffered _ (opened conn e) =
      subst (λ (c : Connection). AreOffered interfaces c.globals) (sym e) empty
    where
      empty : AreOffered interfaces (new_connection display_index).globals
      empty =
          unfold new_connection lookup in record { unique = tt; each = λ name g found. absurd (cc) }
  Run-AreOffered _ (handled t now conn r e) =
      subst (λ (c : Connection). AreOffered interfaces c.globals) (sym e)
        (apply-AreOffered interfaces order t now (Run-AreOffered t.conn r))

  -- However a connection got where it is, a bind that is passed on names a global that this connection
  -- was offered and that is not hidden from it, for the very interface that was offered, which is not
  -- privileged, at a version from 1 to the offered one; and the new object is recorded as that
  -- interface at that version.
  pub Run-bind-IsGranted :
      (t : Turn) (now : ℕ)
      → Run interfaces order display_index t.conn
      → t.msg.from_client ≡ true
      → named t.msg (codes "wl_registry") (codes "bind") ≡ true
      → (apply interfaces order t now).1 ≡ ok forward
      → (name : ℕ) × (iface : List ℕ) × (version : ℕ) × (id : ℕ) × (bind_args t.msg.args
          ≡ some (name, iface, version, id))
        × IsGranted interfaces t.conn (apply interfaces order t now).0.conn name iface version id
  Run-bind-IsGranted t now r client binds passed =
      bind-IsGranted interfaces order t now client binds (Run-AreOffered t.conn r) passed
