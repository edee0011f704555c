-- ===== src/Package/Blobs.antt =====
-- crates/tysel-package/src/tap.rs: blobs, entries and the index are read back as they were written.
use tysel.Base.{
  ℕ, ◌+◌, ◌-◌, ◌^◌, ◌≤◌, ◌<◌, leb, Text, text_eq, text_eq_iff, List, [], ◌∷◌, ◌++◌, length,
  length-append, take-append, drop-append, append_assoc, append_nil, true, ◌&&◌, some, ok, ◌≡◌,
  refl, sym, ap, ◌∙◌, arith,
}
use tysel.Package.{
  PackagedComponent, PackagedAot, AotIndexEntry, ComponentIndexEntry, BlobIndex, Crates,
  max_aot_artifacts_per_component,
}
use tysel.Package.Components.{
  checked_add, slice, append_blob, read_blob, bundle_hash, encode_aot, decode_aot, encode_entries,
}

-- The data that a component contributes.
abbrev pub aot_data : List PackagedAot → Text
aot_data [] = []
aot_data (a ∷ rest) = a.bytes ++ aot_data rest

abbrev pub entry_data : List PackagedComponent → Text
entry_data [] = []
entry_data (c ∷ cs) = c.source ++ (aot_data c.aot ++ entry_data cs)

-- No component has more artifacts than the limit.
abbrev pub HasFewArtifacts : List PackagedComponent → Type 0
HasFewArtifacts [] = Unit
HasFewArtifacts (c ∷ cs) = (length c.aot ≤ max_aot_artifacts_per_component) × HasFewArtifacts cs

pub text_eq_same : (s : Text) → text_eq s s ≡ true
text_eq_same s = (text_eq_iff s s).1 refl

pub checked_add-fits : (a b : ℕ) → a + b < 2 ^ 64 → checked_add a b ≡ some (a + b)
checked_add-fits a b h = ground arith

add-sub : (a b : ℕ) → a + b - a ≡ b
add-sub a b = omega arith

in_range : (a b n : ℕ) → a + b ≤ n → (leb a (a + b) && leb (a + b) n) ≡ true
in_range a b n h = ground arith

-- What stands between two texts is the slice of their concatenation.
pub slice-append :
    (before bytes after : Text)
    → slice (length before) (length before + length bytes) (before ++ (bytes ++ after)) ≡ some bytes
slice-append before bytes after = rw (
  in_range (length before) (length bytes) (length (before ++ (bytes ++ after)))
      (omega (arith, length-append before (bytes ++ after), length-append bytes after)),
  add-sub (length before) (length bytes),
  drop-append before (bytes ++ after),
  take-append bytes after,
)

module _ (crates : Crates) where
  abbrev blob_at : ℕ → Text → BlobIndex
  blob_at offset bytes = record {
    offset = offset;
    length = length bytes;
    sha256 = bundle_hash crates bytes;
  }

  pub read_blob-at :
      {S : Type 0} (whole before bytes after : Text) (s : S)
      → whole ≡ before ++ (bytes ++ after)
      → length whole < 2 ^ 64
      → read_blob crates whole (blob_at (length before) bytes) s ≡ (s, ok bytes)
  unfolding read_blob
  read_blob-at whole before bytes after s e h = rw (
    e,
    checked_add-fits (length before) (length bytes) (
        omega (
          arith,
          h,
          ap length e,
          length-append before (bytes ++ after),
          length-append bytes after,
        )),
    slice-append before bytes after,
    text_eq_same (bundle_hash crates bytes),
  )

  -- The index entries of artifacts whose data begins at an offset.
  abbrev pub aot_entries : ℕ → List PackagedAot → List AotIndexEntry
  aot_entries offset [] = []
  aot_entries offset (a ∷ rest) =
      record {
        target = a.target;
        wasmtime_version = a.wasmtime_version;
        engine_compatibility_hash = a.engine_compatibility_hash;
        source_sha256 = a.source_sha256;
        blob = blob_at offset a.bytes;
      }
      ∷ aot_entries (offset + length a.bytes) rest

  abbrev pub entries_at : ℕ → List PackagedComponent → List ComponentIndexEntry
  entries_at offset [] = []
  entries_at offset (c ∷ cs) =
      record {
        name = c.name;
        abi_version = c.abi_version;
        source = blob_at offset c.source;
        aot = aot_entries (offset + length c.source) c.aot;
      }
      ∷ entries_at (offset + length c.source + length (aot_data c.aot)) cs

  pub encode_aot_lem :
      (aot : List PackagedAot) (before : Text)
      → encode_aot crates aot before
        ≡ (before ++ aot_data aot, ok (aot_entries (length before) aot))
  unfolding encode_aot append_blob
  encode_aot_lem [] before = rw (append_nil before)
  encode_aot_lem (a ∷ rest) before = rw (
    encode_aot_lem rest (before ++ a.bytes),
    append_assoc before a.bytes (aot_data rest),
    length-append before a.bytes,
  )

  pub encode_entries_lem :
      (cs : List PackagedComponent) (before : Text)
      → encode_entries crates cs before
        ≡ (before ++ entry_data cs, ok (entries_at (length before) cs))
  unfolding encode_entries append_blob
  encode_entries_lem [] before = rw (append_nil before)
  encode_entries_lem (c ∷ cs) before = rw (
    encode_aot_lem c.aot (before ++ c.source),
    encode_entries_lem cs ((before ++ c.source) ++ aot_data c.aot),
    append_assoc (before ++ c.source) (aot_data c.aot) (entry_data cs),
    append_assoc before c.source (aot_data c.aot ++ entry_data cs),
    length-append (before ++ c.source) (aot_data c.aot),
    length-append before c.source,
  )

  pub decode_aot_lem :
      {S : Type 0} (aot : List PackagedAot) (whole before after : Text) (s : S)
      → whole ≡ before ++ (aot_data aot ++ after)
      → length whole < 2 ^ 64
      → decode_aot crates whole (aot_entries (length before) aot) s ≡ (s, ok aot)
  unfolding decode_aot
  decode_aot_lem [] whole before after s e h = refl
  decode_aot_lem (a ∷ rest) whole before after s e h = rw (
    read_blob-at whole before a.bytes (aot_data rest ++ after) s
        (e ∙ ap (λ r. before ++ r) (append_assoc a.bytes (aot_data rest) after)) h,
    sym (length-append before a.bytes),
    decode_aot_lem rest whole (before ++ a.bytes) after s
        (rw (
          e,
          append_assoc a.bytes (aot_data rest) after,
          append_assoc before a.bytes (aot_data rest ++ after),
        ))
        h,
  )
