-- ===== src/Samples/Frames.antt =====
-- Tests of messages in frames, of values on the wire and of profiles.
use tysel.Base.{
  ◌≡◌, ◌≢◌, ◌⊎◌, refl, sym, List, [], ◌∷◌, ◌++◌, true, Text, codes, ok, err, to_le_bytes, arith,
}
use tysel.Ipc.{MessageJson, write_message, write_frame, read_frame, frame_too_large}
use tysel.Ipc.Values.{
  Value, bool, number, array, entries, none_left, value_then, no_field, field_then, wire_string,
  to_wire, from_wire, wire_round_trip,
}
use tysel.Ipc.Streams.{
  write_messages, read_messages, read_messages-write_messages, read_frame-refuses,
}
use tysel.Policy.{IsBasic, require, from_profile, fetch, require-from_profile}

-- Messages that are their own text.
abbrev verbatim : MessageJson Text
verbatim = record { to_vec = λ text. ok text; from_slice = λ text. ok text }

abbrev two_messages : List Text
two_messages = codes "go" ∷ codes "" ∷ []

abbrev stream : Text
stream = 2 ∷ 0 ∷ 0 ∷ 0 ∷ 103 ∷ 111 ∷ 0 ∷ 0 ∷ 0 ∷ 0 ∷ []

streamed : write_messages verbatim two_messages [] ≡ (stream, ok tt)
unfolding write_messages write_message write_frame to_le_bytes
streamed = refl

read_messages-write_messages_example :
    read_messages verbatim 2 (stream ++ codes "rest") ≡ (codes "rest", ok two_messages)
read_messages-write_messages_example =
    read_messages-write_messages verbatim two_messages stream (codes "rest")
      (λ bytes h. sym h, (λ bytes h. sym h, tt)) streamed

read_frame-refuses_example :
    read_frame (to_le_bytes 4 65537 ++ codes "payload")
    ≡ (codes "payload", err (frame_too_large 65537))
read_frame-refuses_example = read_frame-refuses 65537 (codes "payload") (omega arith) (omega arith)

abbrev sample_value : Value
sample_value = entries (
    field_then (codes "items") (array (value_then (number 1) (value_then (bool true) none_left)))
      no_field)

wire_round_trip_example :
    (from_wire (to_wire sample_value) ≡ sample_value)
    × (to_wire (from_wire (wire_string (codes "a"))) ≡ wire_string (codes "a"))
wire_round_trip_example = wire_round_trip sample_value (wire_string (codes "a"))

require-from_profile_example :
    let refused = err (codes "capability is not available in the isolated profile") in
    ((codes "isolated" ≢ codes "isolated")
      × (require (from_profile (codes "Isolated")) fetch ≡ ok tt))
    ⊎ ((codes "isolated" ≡ codes "isolated")
        × (((require (from_profile (codes "Isolated")) fetch ≡ ok tt) × IsBasic fetch)
            ⊎ ((require (from_profile (codes "Isolated")) fetch ≡ refused) × ¬ (IsBasic fetch))))
require-from_profile_example = require-from_profile (codes "Isolated") fetch
