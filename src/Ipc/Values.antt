-- ===== src/Ipc/Values.antt =====
-- crates/tysel-ipc/src/lib.rs: the wire form of the engine's values (crates/tysel-engine/src/lib.rs).
-- A number is its 64 bits, and the conversions keep them. JSON, which writes a number that is not
-- finite as `null`, is not part of this module.
use tysel.Base.{ℕ, Text, Bool, ◌≡◌, refl}

mutual
  pub data Value : Type 0 where
    null : Value
    bool : Bool → Value
    number : ℕ → Value
    string : Text → Value
    bytes : Text → Value
    array : Values → Value
    entries : Fields → Value

  pub data Values : Type 0 where
    none_left : Values
    value_then : Value → Values → Values

  pub data Fields : Type 0 where
    no_field : Fields
    field_then : Text → Value → Fields → Fields

mutual
  pub data WireValue : Type 0 where
    wire_null : WireValue
    wire_bool : Bool → WireValue
    wire_number : ℕ → WireValue
    wire_string : Text → WireValue
    wire_bytes : Text → WireValue
    wire_array : WireValues → WireValue
    wire_entries : WireFields → WireValue

  pub data WireValues : Type 0 where
    no_wire : WireValues
    wire_then : WireValue → WireValues → WireValues

  pub data WireFields : Type 0 where
    no_wire_field : WireFields
    wire_field_then : Text → WireValue → WireFields → WireFields

unfoldable mutual
  pub to_wire : Value → WireValue
  to_wire null = wire_null
  to_wire (bool v) = wire_bool v
  to_wire (number v) = wire_number v
  to_wire (string v) = wire_string v
  to_wire (bytes v) = wire_bytes v
  to_wire (array v) = wire_array (to_wire_each v)
  to_wire (entries v) = wire_entries (to_wire_fields v)

  pub to_wire_each : Values → WireValues
  to_wire_each none_left = no_wire
  to_wire_each (value_then v vs) = wire_then (to_wire v) (to_wire_each vs)

  pub to_wire_fields : Fields → WireFields
  to_wire_fields no_field = no_wire_field
  to_wire_fields (field_then name v fs) = wire_field_then name (to_wire v) (to_wire_fields fs)

unfoldable mutual
  pub from_wire : WireValue → Value
  from_wire wire_null = null
  from_wire (wire_bool v) = bool v
  from_wire (wire_number v) = number v
  from_wire (wire_string v) = string v
  from_wire (wire_bytes v) = bytes v
  from_wire (wire_array v) = array (from_wire_each v)
  from_wire (wire_entries v) = entries (from_wire_fields v)

  pub from_wire_each : WireValues → Values
  from_wire_each no_wire = none_left
  from_wire_each (wire_then v vs) = value_then (from_wire v) (from_wire_each vs)

  pub from_wire_fields : WireFields → Fields
  from_wire_fields no_wire_field = no_field
  from_wire_fields (wire_field_then name v fs) = field_then name (from_wire v) (from_wire_fields fs)

mutual
  unfolding to_wire to_wire_each to_wire_fields from_wire from_wire_each from_wire_fields

  from_wire-to_wire : (v : Value) → from_wire (to_wire v) ≡ v
  from_wire-to_wire null = refl
  from_wire-to_wire (bool v) = refl
  from_wire-to_wire (number v) = refl
  from_wire-to_wire (string v) = refl
  from_wire-to_wire (bytes v) = refl
  from_wire-to_wire (array vs) = rw (each_back vs)
  from_wire-to_wire (entries fs) = rw (fields_back fs)

  each_back : (vs : Values) → from_wire_each (to_wire_each vs) ≡ vs
  each_back none_left = refl
  each_back (value_then v vs) = rw (from_wire-to_wire v, each_back vs)

  fields_back : (fs : Fields) → from_wire_fields (to_wire_fields fs) ≡ fs
  fields_back no_field = refl
  fields_back (field_then name v fs) = rw (from_wire-to_wire v, fields_back fs)

mutual
  unfolding to_wire to_wire_each to_wire_fields from_wire from_wire_each from_wire_fields

  to_wire-from_wire : (w : WireValue) → to_wire (from_wire w) ≡ w
  to_wire-from_wire wire_null = refl
  to_wire-from_wire (wire_bool v) = refl
  to_wire-from_wire (wire_number v) = refl
  to_wire-from_wire (wire_string v) = refl
  to_wire-from_wire (wire_bytes v) = refl
  to_wire-from_wire (wire_array vs) = rw (each_forth vs)
  to_wire-from_wire (wire_entries fs) = rw (fields_forth fs)

  each_forth : (vs : WireValues) → to_wire_each (from_wire_each vs) ≡ vs
  each_forth no_wire = refl
  each_forth (wire_then v vs) = rw (to_wire-from_wire v, each_forth vs)

  fields_forth : (fs : WireFields) → to_wire_fields (from_wire_fields fs) ≡ fs
  fields_forth no_wire_field = refl
  fields_forth (wire_field_then name v fs) = rw (to_wire-from_wire v, fields_forth fs)

-- The conversions between a value in memory and its wire form undo each other. What JSON makes of
-- the wire form is no part of this.
pub wire_round_trip :
    (v : Value) (w : WireValue) → (from_wire (to_wire v) ≡ v) × (to_wire (from_wire w) ≡ w)
wire_round_trip v w = (from_wire-to_wire v, to_wire-from_wire w)
