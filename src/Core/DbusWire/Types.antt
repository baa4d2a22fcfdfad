-- ===== src/Core/DbusWire/Types.antt =====
-- crates/bubbler-core/src/dbus_wire.rs: values, the types of signatures, and what goes wrong. A number is
-- its bit pattern, a text its bytes.
use bubbler.Prelude.{ℕ, suc, ◌-◌, ◌%◌, ◌^◌, Bool, true, false, List, if◌then◌else◌, ◌==◌, codes}

-- The errors, but for those of the opening of a connection; `out_of_fuel` is the model's own.
pub data WireError : Type 0 where
  bad_signature : List ℕ → WireError
  arity : ℕ → ℕ → WireError
  type_mismatch : ℕ → List ℕ → WireError
  unsupported : List ℕ → WireError
  truncated padding : WireError
  trailing : ℕ → WireError
  array_too_long message_too_long : ℕ → WireError
  too_many_values bad_string : WireError
  bad_object_path : List ℕ → WireError
  bad_bool : ℕ → WireError
  depth : WireError
  endianness : ℕ → WireError
  bad_message : List ℕ → WireError
  fd_index : ℕ → WireError
  closed timeout no_fd_passing no_destination io : WireError
  too_many_fds : ℕ → WireError
  remote : List ℕ → List ℕ → WireError
  auth auth_rejected : List ℕ → WireError
  out_of_fuel : WireError

mutual
  pub data Value : Type 0 where
    byte : ℕ → Value
    bool : Bool → Value
    int16 uint16 int32 uint32 int64 uint64 double : ℕ → Value
    str object_path signature : List ℕ → Value
    fd : ℕ → Value
    byte_array : List ℕ → Value
    array struct : Values → Value
    dict : Entries → Value
    variant : Value → Value

  -- `Vec<Value>`
  pub data Values : Type 0 where
    nil : Values
    cons : Value → Values → Values

  -- `Vec<(String, Value)>`
  pub data Entries : Type 0 where
    end : Entries
    entry : List ℕ → Value → Entries → Entries

-- `Value::kind`
unfoldable pub kind : Value → List ℕ
kind (Value.byte v) = codes "a byte"
kind (Value.bool v) = codes "a boolean"
kind (Value.int16 v) = codes "an int16"
kind (Value.uint16 v) = codes "a uint16"
kind (Value.int32 v) = codes "an int32"
kind (Value.uint32 v) = codes "a uint32"
kind (Value.int64 v) = codes "an int64"
kind (Value.uint64 v) = codes "a uint64"
kind (Value.double v) = codes "a double"
kind (Value.str v) = codes "a string"
kind (Value.object_path v) = codes "an object path"
kind (Value.signature v) = codes "a signature"
kind (Value.fd v) = codes "a file descriptor index"
kind (Value.byte_array v) = codes "a byte array"
kind (Value.array v) = codes "an array"
kind (Value.struct v) = codes "a struct"
kind (Value.dict v) = codes "a dict"
kind (Value.variant v) = codes "a variant"

-- One single complete type, `Type` in the source.
mutual
  pub data WireType : Type 0 where
    byte bool int16 uint16 int32 uint32 int64 uint64 double : WireType
    str object_path signature fd : WireType
    array : WireType → WireType
    struct : WireTypes → WireType
    dict_entry : WireType → WireType → WireType
    variant : WireType

  pub data WireTypes : Type 0 where
    nil : WireTypes
    cons : WireType → WireTypes → WireTypes

-- `Type::alignment`
unfoldable pub alignment : WireType → ℕ
alignment WireType.byte = 1
alignment WireType.signature = 1
alignment WireType.variant = 1
alignment WireType.int16 = 2
alignment WireType.uint16 = 2
alignment WireType.bool = 4
alignment WireType.int32 = 4
alignment WireType.uint32 = 4
alignment WireType.fd = 4
alignment WireType.str = 4
alignment WireType.object_path = 4
alignment (WireType.array element) = 4
alignment WireType.int64 = 8
alignment WireType.uint64 = 8
alignment WireType.double = 8
alignment (WireType.struct fields) = 8
alignment (WireType.dict_entry key value) = 8

-- `Type::code`
unfoldable pub code : WireType → ℕ
code WireType.byte = b'y'
code WireType.bool = b'b'
code WireType.int16 = b'n'
code WireType.uint16 = b'q'
code WireType.int32 = b'i'
code WireType.uint32 = b'u'
code WireType.int64 = b'x'
code WireType.uint64 = b't'
code WireType.double = b'd'
code WireType.str = b's'
code WireType.object_path = b'o'
code WireType.signature = b'g'
code WireType.fd = b'h'
code (WireType.array element) = b'a'
code (WireType.struct fields) = b'('
code (WireType.dict_entry key value) = b'{'
code WireType.variant = b'v'

-- `Type::is_basic`
unfoldable pub is_basic : WireType → Bool
is_basic (WireType.array element) = false
is_basic (WireType.struct fields) = false
is_basic (WireType.dict_entry key value) = false
is_basic WireType.variant = false
is_basic ty = true

-- `len` of the vectors.
unfoldable pub count_types : WireTypes → ℕ
count_types WireTypes.nil = 0
count_types (WireTypes.cons ty types) = suc (count_types types)

unfoldable pub count_values : Values → ℕ
count_values Values.nil = 0
count_values (Values.cons value values) = suc (count_values values)

abbrev pub max_array : ℕ
max_array = 2 ^ 26

abbrev pub max_message : ℕ
max_message = 2 ^ 27

-- `16 << 20`
abbrev pub max_incoming : ℕ
max_incoming = 2 ^ 24

abbrev pub max_values : ℕ
max_values = 2 ^ 20

abbrev pub max_signature : ℕ
max_signature = 255

abbrev pub max_depth : ℕ
max_depth = 64

abbrev pub max_container_depth : ℕ
max_container_depth = 32

-- The nul bytes from an offset to the next multiple of an alignment: what `pad` grows its buffer by, and
-- what `Reader::align` steps over.
unfoldable pub padding_at : ℕ → ℕ → ℕ
padding_at at align = if at % align == 0 then 0 else align - at % align
