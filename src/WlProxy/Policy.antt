-- ===== src/WlProxy/Policy.antt =====
-- crates/bubbler-wl-proxy/src/policy.rs: what the proxy does with each message that
-- it has decoded. The generated tables are the parameter `interfaces`, the machine's byte order is
-- `order`. A descriptor is a number, and clearing the list closes those in it. A call that takes
-- `&mut` arguments takes and returns a `Turn`, which holds all of them, also where it fails.
pub mod Clipboard
pub mod Registry
pub mod Grants
use bubbler.Prelude.{
  ℕ, ◌+◌, ◌-◌, ◌/◌, ◌≡◌, Bool, true, false, Option, none, some, List, [], ◌∷◌, ◌++◌, min, Result,
  ok, err, ltb, leb, ◌==◌, ◌=b=◌, if◌then◌else◌, not, ◌&&◌, ◌||◌, codes, decimal, contains_name,
  to_str, to_string_lossy, get_elem?, Endian,
}
use bubbler.Prelude.Assoc.{lookup, insert, remove}
use bubbler.WlProxy.Tables.{Interface, Message, by_index, index_of}
use bubbler.WlProxy.Tables
use bubbler.WlProxy.Wire.{Arg, encode, has_nul}
use bubbler.WlProxy.Objects.{
  Objects, ObjectError, new_id_from, destroy, delete_id, hide_global, is_hidden,
}
use bubbler.WlProxy.Objects
use bubbler.WlProxy.Privileged.{privileged}
use bubbler.WlProxy.Audit.{Audit, Kind, line}
use mathlib.Core.Option

-- How long a clipboard read stays allowed after input: 1000 ms, in nanoseconds.
abbrev pub gate_window : ℕ
gate_window = 1_000_000_000

unfoldable pub gated_offers : List (List ℕ)
gated_offers =
    codes "ext_data_control_offer_v1"
    ∷ codes "wl_data_offer"
    ∷ codes "zwlr_data_control_offer_v1"
    ∷ codes "zwp_primary_selection_offer_v1"
    ∷ []

pub data Gate : Type 0 where
  paste «open» : Gate

pub data Action : Type 0 where
  forward : Action
  drop : Action
  refuse : List ℕ → Action

pub record Policy : Type 0 where
  pub gate : Gate
  pub fallback_deny : Bool
  pub last_input : Option ℕ

pub record Global : Type 0 where
  pub interface : ℕ
  pub version : ℕ

pub record Connection : Type 0 where
  pub objects : Objects
  pub globals : List (ℕ × Global)

pub record Incoming : Type 0 where
  pub from_client : Bool
  pub object : ℕ
  pub opcode : ℕ
  pub interface : Interface
  pub message : Message
  pub args : List Arg
  pub fds : List ℕ

pub record Turn : Type 0 where
  pub policy : Policy
  pub msg : Incoming
  pub conn : Connection
  pub audit : Audit

unfoldable pub new : Gate → Bool → Policy
new gate fallback_deny = record { gate = gate; fallback_deny = fallback_deny; last_input = none }

unfoldable pub compositor_enforces : Policy → Bool
compositor_enforces policy = not policy.fallback_deny

-- A connection that has seen nothing yet.
unfoldable pub new_connection : ℕ → Connection
new_connection display_index = record { objects = Objects.new display_index; globals = [] }

unfoldable pub arm : Turn → ℕ → Turn
arm t now = record t { policy = record t.policy { last_input = some now } }

-- The message is not sent on, and the descriptors that it carried are closed.
unfoldable pub drop_message : Turn → Turn × Action
drop_message t = (record t { msg = record t.msg { fds = [] } }, drop)

-- `CString::new(text).unwrap_or_default()`
unfoldable pub c_string : List ℕ → List ℕ
unfolding has_nul
c_string text = if has_nul text then [] else text

-- Whether a message is this one of this interface.
abbrev pub named : Incoming → List ℕ → List ℕ → Bool
named msg iface name = (msg.interface.name =b= iface) && (msg.message.name =b= name)

unfoldable pub first_mime : List Arg → List ℕ
first_mime (Arg.string (some mime) ∷ args) = to_string_lossy mime
first_mime _ = []

unfoldable pub is_gated : Incoming → Bool
is_gated msg =
    (msg.message.name =b= codes "receive") && contains_name gated_offers msg.interface.name

-- Whether the last input is recent enough.
unfoldable pub is_fresh : Option ℕ → ℕ → Bool
is_fresh none now = false
is_fresh (some last) now = leb (now - last) gate_window

unfoldable pub why_denied : Option ℕ → ℕ → List ℕ
why_denied none now = codes "no input since the proxy started"
why_denied (some last) now =
    codes "no input for " ++ (decimal ((now - last) / 1_000_000) ++ codes " ms")

unfoldable pub log : Turn → Kind → ℕ → List ℕ → Turn
log t kind now text = record t { audit = line t.audit kind now text }

-- Requests: the clipboard gate.
unfoldable pub request : Turn → ℕ → Turn × Action
request t now =
    let iface = t.msg.interface.name in
    let mime = first_mime t.msg.args in
    let last = t.policy.last_input in
    if not (is_gated t.msg) then (t, forward) else elim t.policy.gate [
      | «open» ↦ (
        log t Kind.gate now (
            codes "bubbler-wl-proxy: clipboard read allowed (open): "
            ++ (iface ++ (codes ", " ++ mime))),
        forward,
      )
      | paste ↦
          if is_fresh last now
          then (t, forward)
          else drop_message (
              log t Kind.gate now (
                codes "bubbler-wl-proxy: clipboard read denied ("
                ++ (iface ++ (codes ", " ++ (mime ++ (codes "): " ++ why_denied last now))))))
    ]

-- The key event's fourth argument is 1.
unfoldable pub is_pressed : List Arg → Bool
is_pressed (a ∷ b ∷ c ∷ Arg.uint state ∷ rest) = state == 1
is_pressed _ = false

-- `Some(Arg::Uint(n)) = msg.args.first()`
unfoldable pub first_uint : List Arg → Option ℕ
first_uint (Arg.uint n ∷ rest) = some n
first_uint _ = none

-- `wl_registry.global_remove`.
unfoldable pub global_remove : Turn → Turn × Action
global_remove t = elim (first_uint t.msg.args) [
  | none ↦ (t, forward)
  | some name ↦
      if is_hidden t.conn.objects name
      then drop_message t
      else (record t { conn = record t.conn { globals = remove name t.conn.globals } }, forward)
]

-- `wl_display.delete_id`.
unfoldable pub release : Turn → Turn
release t = elim (first_uint t.msg.args) [
  | none ↦ t
  | some id ↦ record t { conn = record t.conn { objects = (delete_id t.conn.objects id).0 } }
]

-- The three arguments of `wl_registry.global`: name, interface, version, and what follows them.
unfoldable pub global_args : List Arg → Option (ℕ × List ℕ × ℕ × List Arg)
global_args (Arg.uint name ∷ Arg.string (some iface) ∷ Arg.uint version ∷ rest) =
    some (name, iface, version, rest)
global_args _ = none

-- The four arguments of `wl_registry.bind`.
unfoldable pub bind_args : List Arg → Option (ℕ × List ℕ × ℕ × ℕ)
bind_args (Arg.uint name ∷ Arg.string (some iface) ∷ Arg.uint version ∷ Arg.new_id id ∷ rest) =
    some (name, iface, version, id)
bind_args _ = none

module _ (interfaces : List Interface) where
  -- What the tables know of an advertised interface that is not privileged.
  unfoldable pub described : List ℕ → Option (ℕ × Interface)
  described iface = elim (to_str iface) [
    | none ↦ none
    | some text ↦ elim (index_of interfaces text) [
      | none ↦ none
      | some index ↦ elim (by_index interfaces index) [
        | none ↦ none
        | some known ↦ if contains_name privileged text then none else some (index, known)
      ]
    ]
  ]

  -- `wl_registry.global`: hide what cannot be parsed or must not be reachable, clamp the version.
  unfoldable pub global : Turn → Turn × Action
  global t = elim (global_args t.msg.args) [
    | none ↦ (t, forward)
    | some (name, iface, version, rest) ↦ elim (described iface) [
      | none ↦
          drop_message
            (record t { conn = record t.conn { objects = hide_global t.conn.objects name } })
      | some (index, known) ↦
          let offered = min version known.version in
          (
            record t {
              conn = record t.conn {
                globals =
                    insert name (record { interface = index; version = offered }) t.conn.globals;
              };
              msg = record t.msg {
                args = Arg.uint name ∷ Arg.string (some iface) ∷ Arg.uint offered ∷ rest;
              };
            },
            forward,
          )
    ]
  ]

  -- Events: the registry is filtered, and input arms the gate.
  unfoldable pub event : Turn → ℕ → Turn × Action
  unfolding arm
  event t now =
      if named t.msg (codes "wl_registry") (codes "global")
      then global t
      else if named t.msg (codes "wl_registry") (codes "global_remove")
      then global_remove t
      else if named t.msg (codes "wl_display") (codes "delete_id")
      then (release t, forward)
      else if named t.msg (codes "wl_keyboard") (codes "key")
      then ((if is_pressed t.msg.args then arm t now else t), forward)
      else if named t.msg (codes "wl_pointer") (codes "button")
      then (arm t now, forward)
      else if named t.msg (codes "wl_touch") (codes "down")
          || named t.msg (codes "wl_touch") (codes "up")
      then (arm t now, forward)
      else (t, forward)

  -- The global that the connection was offered under this name, for this very interface, at this
  -- version or above.
  unfoldable pub offered_global : Connection → ℕ → List ℕ → ℕ → Option Global
  offered_global conn name wanted version = elim (lookup name conn.globals) [
    | none ↦ none
    | some global ↦ elim (by_index interfaces global.interface) [
      | none ↦ none
      | some known ↦
          if (known.name =b= wanted) && (leb 1 version && leb version global.version)
          then some global
          else none
    ]
  ]

  -- What follows a message that is forwarded: the id that it creates is recorded, and the
  -- client's destructor retires the object.
  unfoldable pub keep_up : Turn → Turn × Result ObjectError Action
  keep_up t =
      elim (new_id_from interfaces t.conn.objects t.msg.from_client t.msg.object t.msg.opcode
        t.msg.args) [
          | err e ↦ (t, err e)
          | ok (objects, made) ↦
              let objects' =
                if t.msg.from_client && t.msg.message.is_destructor
                then (destroy objects t.msg.object).0
                else objects in
              (record t { conn = record t.conn { objects = objects' } }, ok forward)
        ]

  unfoldable pub settle : Turn × Action → Turn × Result ObjectError Action
  settle (t, forward) = keep_up t
  settle (t, drop) = (t, ok drop)
  settle (t, refuse bytes) = (t, ok (refuse bytes))

  module _ (order : Endian) where
    -- A `wl_display.error` event blaming the object; nothing where the wire cannot carry it.
    unfoldable pub display_error : ℕ → List ℕ → List ℕ
    display_error id text =
        elim (encode order 1 0
          (Arg.object id ∷ Arg.uint 0 ∷ Arg.string (some (c_string text)) ∷ [])) [
            | ok bytes ↦ bytes
            | err e ↦ []
          ]

    unfoldable pub refuse_request : Turn → ℕ → List ℕ → Turn × Action
    unfolding log
    refuse_request t now why = (
      log t Kind.close now (codes "bubbler-wl-proxy: connection closed: " ++ why),
      refuse (display_error t.msg.object why),
    )

    -- `Ok(action)`.
    unfoldable pub answer : Turn × Action → Turn × Result ObjectError Action
    answer (t, action) = (t, ok action)

    unfoldable pub bind : Turn → ℕ → Turn × Result ObjectError Action
    unfolding refuse_request answer
    bind t now = elim (bind_args t.msg.args) [
      | none ↦ answer (refuse_request t now (codes "a bind the proxy could not read"))
      | some (name, iface, version, id) ↦
          let wanted = to_string_lossy iface in
          elim (offered_global t.conn name wanted version) [
            | none ↦ answer (
                refuse_request t now (
                  codes "bind of hidden global "
                  ++ (wanted
                      ++ (codes " (name "
                          ++ (decimal name
                              ++ (codes ", v"
                                  ++ (decimal version
                                      ++ codes ") refused by the sandbox proxy")))))))
            | some global ↦
                elim (Objects.bind interfaces t.conn.objects name global.interface version id) [
                  | err e ↦ (t, err e)
                  | ok objects ↦
                      (record t { conn = record t.conn { objects = objects } }, ok forward)
                ]
          ]
    ]

    unfoldable pub apply : Turn → ℕ → Turn × Result ObjectError Action
    apply t now =
        if t.msg.from_client && named t.msg (codes "wl_registry") (codes "bind")
        then bind t now
        else settle (if t.msg.from_client then request t now else event t now)
