-- ===== src/WlProxy/Tests/Policy.antt =====
-- Runs of the policy on single messages, and its theorems at them.
use bubbler.Prelude.{
  ℕ, ◌≡◌, refl, ◌⊎◌, ok, true, false, none, some, List, [], ◌∷◌, codes, little, ◌=b=◌, to_str,
  to_string_lossy, contains_name,
}
use bubbler.Prelude.Assoc.{lookup, insert, remove}
use bubbler.WlProxy.Tables.{Interface, Message, ArgKind, by_index, index_of, index_from, message}
use bubbler.WlProxy.Wire.{Arg, has_nul}
use bubbler.WlProxy.Audit
use bubbler.WlProxy.Audit.{is_recent, line, line_text}
use bubbler.WlProxy.Objects.{
  Objects, get, place, live, destroy, hide_global, is_hidden, contains, record_id, new_id_from,
  create, find_new_id,
}
use bubbler.WlProxy.Objects
use bubbler.WlProxy.Policy
use bubbler.WlProxy.Privileged.{privileged}
use bubbler.WlProxy.Policy.{
  Turn, Incoming, Connection, Action, forward, drop, paste, apply, keep_up, is_gated, is_fresh,
  gated_offers, gate_window, new_connection, request, settle, event, global, global_args, described,
  bind_args, offered_global, drop_message, log, first_mime, why_denied, answer, arm, is_pressed,
  named,
}
use bubbler.WlProxy.Policy.Clipboard.{
  IsWithin, IsForwarded, IsDropped, receive_gate, apply-last_input, is_input,
}
use bubbler.WlProxy.Policy.Grants.{Run, opened, handled, Run-bind-IsGranted, IsGranted}

program : Unit {0}
unfolding ◌=b=◌ to_str to_string_lossy contains_name lookup insert remove by_index index_of
    index_from message has_nul is_recent line line_text get place live destroy hide_global is_hidden
    contains record_id new_id_from create find_new_id Objects.new Objects.bind apply keep_up
    is_gated is_fresh gated_offers privileged new_connection request settle event global global_args
    described bind_args offered_global drop_message log first_mime why_denied answer arm is_pressed
    Policy.bind Policy.new Audit.new is_input
program = tt

abbrev empty_message : Message
empty_message = record {
  name = codes "receive";
  since = 1;
  is_destructor = false;
  args = ArgKind.string ∷ ArgKind.fd ∷ [];
  new_id_interface = none;
}

abbrev offer : Interface
offer = record {
  name = codes "wl_data_offer";
  version = 3;
  requests = empty_message ∷ [];
  events = [];
}

abbrev global_event : Message
global_event = record {
  name = codes "global";
  since = 1;
  is_destructor = false;
  new_id_interface = none;
  args = ArgKind.uint ∷ ArgKind.string ∷ ArgKind.uint ∷ [];
}

abbrev bind_request : Message
bind_request = record {
  name = codes "bind";
  since = 1;
  is_destructor = false;
  new_id_interface = none;
  args = ArgKind.uint ∷ ArgKind.string ∷ ArgKind.uint ∷ ArgKind.new_id ∷ [];
}

abbrev registry : Interface
registry = record {
  name = codes "wl_registry";
  version = 1;
  requests = bind_request ∷ [];
  events = global_event ∷ [];
}

abbrev seat : Interface
seat = record { name = codes "wl_seat"; version = 7; requests = []; events = [] }

abbrev tables : List Interface
tables = offer ∷ registry ∷ seat ∷ []

-- Object 1 stands for a data offer in the first run, and for the registry in the second.
abbrev read : Turn
read = record {
  policy = Policy.new paste true;
  msg = record {
    from_client = true;
    object = 1;
    opcode = 0;
    interface = offer;
    message = empty_message;
    args = Arg.string (some (codes "text/plain")) ∷ Arg.fd ∷ [];
    fds = 5 ∷ [];
  };
  conn = new_connection 0;
  audit = Audit.new [];
}

-- The same read, four nanoseconds after an input.
abbrev near : Turn
near = record read { policy = record (Policy.new paste true) { last_input = some 5 } }

near_forwards : (apply tables little near 9).1 ≡ ok forward
unfolding program
near_forwards = refl

never_drops : (apply tables little read 9).1 ≡ ok drop
unfolding program
never_drops = refl

receive_gate_example :
    (IsWithin (some 5) 9
      × IsForwarded near
          (new_id_from tables near.conn.objects true 1 0 near.msg.args)
          (apply tables little near 9))
    ⊎ ((IsWithin (some 5) 9 → ⊥) × IsDropped near (apply tables little near 9))
receive_gate_example =
    receive_gate tables little near 9 refl (unfold program in refl) (unfold program in refl)

apply-last_input_example :
    ((apply tables little read 9).0.policy.last_input ≡ read.policy.last_input)
    ⊎ (((apply tables little read 9).0.policy.last_input ≡ some 9)
        × (is_input read.msg ≡ true)
        × (read.msg.from_client ≡ false))
apply-last_input_example = apply-last_input tables little read 9

-- The compositor advertises a seat at version 9, and the client binds it at 7.
abbrev advertised : Turn
advertised = record {
  policy = Policy.new paste true;
  msg = record {
    from_client = false;
    object = 1;
    opcode = 0;
    interface = registry;
    message = global_event;
    args = Arg.uint 4 ∷ Arg.string (some (codes "wl_seat")) ∷ Arg.uint 9 ∷ [];
    fds = [];
  };
  conn = new_connection 1;
  audit = Audit.new [];
}

abbrev binding : Turn
binding = record {
  policy = Policy.new paste true;
  msg = record {
    from_client = true;
    object = 1;
    opcode = 0;
    interface = registry;
    message = bind_request;
    args = Arg.uint 4 ∷ Arg.string (some (codes "wl_seat")) ∷ Arg.uint 7 ∷ Arg.new_id 3 ∷ [];
    fds = [];
  };
  conn = (apply tables little advertised 1).0.conn;
  audit = Audit.new [];
}

binding_passed : (apply tables little binding 2).1 ≡ ok forward
unfolding program
binding_passed = refl

-- At version 8 the same bind is refused.
binding_refused :
    (apply tables little
      (record binding {
        msg = record binding.msg {
          args = Arg.uint 4 ∷ Arg.string (some (codes "wl_seat")) ∷ Arg.uint 8 ∷ Arg.new_id 3 ∷ [];
        };
      })
      2).0.conn
    ≡ binding.conn
unfolding program
binding_refused = refl

binding_Run : Run tables little 1 binding.conn
binding_Run = handled advertised 1 binding.conn (opened advertised.conn refl) refl

Run-bind-IsGranted_example :
    (name : ℕ) × (iface : List ℕ) × (version : ℕ) × (id : ℕ) × (bind_args binding.msg.args
      ≡ some (name, iface, version, id))
    × IsGranted tables binding.conn (apply tables little binding 2).0.conn name iface version id
Run-bind-IsGranted_example =
    Run-bind-IsGranted tables little 1 binding 2 binding_Run refl (unfold program in refl)
      binding_passed
