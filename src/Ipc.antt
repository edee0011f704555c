-- ===== src/Ipc.antt =====
-- crates/tysel-ipc/src/lib.rs: length-prefixed frames, and the values that cross them.
-- A reader is the list of bytes left to read, a writer the list of bytes written; the end of the
-- bytes is the one failure of the operating system. A message's JSON is an interface.
pub mod Values
pub mod Streams
use tysel.Base.{
  ℕ, ◌%◌, ◌^◌, ltb, if◌then◌else◌, Text, codes, List, [], ◌∷◌, ◌++◌, length, take, drop, Bool, true,
  false, Result, ok, err, Method, ◌>>=◌, ◌>>◌, return, fail, lift, to_le_bytes, from_le_bytes,
}

abbrev pub max_frame : ℕ
max_frame = 65536

pub data IpcError : Type 0 where
  io : Text → IpcError
  frame_too_large : ℕ → IpcError
  json : Text → IpcError

-- `write_all` into a vector.
abbrev pub write_all : Text → Method Text IpcError (Unit {0})
write_all bytes written = (written ++ bytes, ok tt)

-- `read_exact` into a buffer of `n` bytes; a reader that ends early is used up.
abbrev pub read_exact : ℕ → Method Text IpcError Text
read_exact n rest =
    if ltb (length rest) n
    then ([], err (io (codes "failed to fill whole buffer")))
    else (drop n rest, ok (take n rest))

unfoldable pub write_frame : Text → Method Text IpcError (Unit {0})
write_frame bytes =
    if ltb max_frame (length bytes)
    then fail (frame_too_large (length bytes))
    else (do write_all (to_le_bytes 4 (length bytes % 2 ^ 32)); write_all bytes)

-- `read_frame` from the check of the length on.
abbrev pub read_payload : ℕ → Method Text IpcError Text
read_payload len = if ltb max_frame len then fail (frame_too_large len) else read_exact len

unfoldable pub read_frame : Method Text IpcError Text
read_frame = do len_buf ← read_exact 4; read_payload (from_le_bytes len_buf)

-- `serde_json` on the type of messages.
pub record MessageJson (Message : Type 0) : Type 0 where
  pub to_vec : Message → Result Text Text
  pub from_slice : Text → Result Text Message

abbrev pub from_json : {A : Type 0} → Result Text A → Result IpcError A
from_json (ok a) = ok a
from_json (err e) = err (json e)

module _ {Message : Type 0} (message_json : MessageJson Message) where
  unfoldable pub write_message : Message → Method Text IpcError (Unit {0})
  write_message message = do
    bytes ← lift (from_json (message_json.to_vec message))
    write_frame bytes

  unfoldable pub read_message : Method Text IpcError Message
  read_message = do bytes ← read_frame; lift (from_json (message_json.from_slice bytes))
