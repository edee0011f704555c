-- ===== src/Package/Executables.antt =====
-- crates/tysel-package/src/tap.rs: executables that carry a package behind a stub.
-- A file is the list of its bytes; only reads past its end fail.
use tysel.Base.{
  ℕ, ◌+◌, ◌-◌, ltb, if◌then◌else◌, Text, codes, text_eq, ◌++◌, length, take, drop, not, Result, ok,
  err, to_le_bytes, from_le_bytes,
}
use tysel.Package.{
  PackageError, io, invalid, missing_payload, Tap, Crates, max_tap_payload_bytes, end_magic,
}
use tysel.Package.Envelope.{encode, decode}

abbrev pub embed_payload : Text → Result PackageError Text → Result PackageError Text
embed_payload stub (err e) = err e
embed_payload stub (ok bytes) = ok (stub ++ (bytes ++ (to_le_bytes 8 (length bytes) ++ end_magic)))

-- `read_exact` of some bytes at an offset of a file.
abbrev pub read_exact_at : ℕ → ℕ → Text → Result PackageError Text
read_exact_at offset n file =
    if ltb (length (drop offset file)) n
    then err (io (codes "failed to fill whole buffer"))
    else ok (take n (drop offset file))

module _ (crates : Crates) where
  unfoldable pub embed_into : Tap → Text → Result PackageError Text
  embed_into tap stub = embed_payload stub (encode crates tap)

  abbrev pub extract_payload : ℕ → ℕ → Text → Result PackageError Tap
  extract_payload footer payload_len bytes =
      if ltb max_tap_payload_bytes payload_len
      then err (invalid (codes "tap payload exceeds size limit"))
      else if ltb footer payload_len
      then err (invalid (codes "payload length exceeds file"))
      else decode crates (take payload_len (drop (footer - payload_len) bytes))

  unfoldable pub extract : Text → Result PackageError Tap
  extract bytes =
      let footer = length bytes - 16 in
      if ltb (length bytes) 16
      then err missing_payload
      else if not (text_eq (drop (footer + 8) bytes) end_magic)
      then err missing_payload
      else extract_payload footer (from_le_bytes (take 8 (drop footer bytes))) bytes

  abbrev pub decode_read : Result PackageError Text → Result PackageError Tap
  decode_read (ok bytes) = decode crates bytes
  decode_read (err e) = err e

  abbrev pub read_payload : Text → Result PackageError Text → Result PackageError Tap
  read_payload file (err e) = err e
  read_payload file (ok footer) =
      let payload_len = from_le_bytes (take 8 footer) in
      let prefix_len = length file - 16 in
      if not (text_eq (drop 8 footer) end_magic)
      then err missing_payload
      else if ltb max_tap_payload_bytes payload_len
      then err (invalid (codes "tap payload exceeds size limit"))
      else if ltb prefix_len payload_len
      then err (invalid (codes "payload length exceeds file"))
      else decode_read (read_exact_at (prefix_len - payload_len) payload_len file)

  -- `from_path` on the bytes of the file.
  unfoldable pub from_path : Text → Result PackageError Tap
  from_path file =
      if ltb (length file) 16
      then err missing_payload
      else read_payload file (read_exact_at (length file - 16) 16 file)
