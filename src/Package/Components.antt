-- ===== src/Package/Components.antt =====
-- crates/tysel-package/src/tap.rs: the component index and the blobs it points to.
-- `usize` has 64 bits, so that `u64` and `usize` convert without a loss.
use tysel.Base.{
  ℕ, ◌+◌, ◌-◌, ◌^◌, ltb, leb, ◌==◌, if◌then◌else◌, Text, codes, text_eq, List, [], ◌∷◌, ◌++◌,
  length, take, drop, Bool, true, false, not, ◌&&◌, ◌||◌, Option, none, some, Result, ok, err,
  Method, ◌>>=◌, ◌>>◌, return, lift, ok_or, all,
}
use tysel.Package.{
  PackageError, invalid, json, PackagedComponent, PackagedAot, BlobIndex, AotIndexEntry,
  ComponentIndexEntry, Crates, hex_encode, max_packaged_components, max_aot_artifacts_per_component,
  component_abi_version, max_component_index_bytes,
}

-- `checked_add` on `usize`.
abbrev pub checked_add : ℕ → ℕ → Option ℕ
checked_add a b = if ltb (a + b) (2 ^ 64) then some (a + b) else none

-- `if test { return Err(PackageError::Invalid(message)); }`
abbrev pub refuse_if : {S : Type 0} → Bool → Text → Method S PackageError (Unit {0})
refuse_if true message s = (s, err (invalid message))
refuse_if false message s = (s, ok tt)

-- `?` on a result of `serde_json`
abbrev pub parsed : {A : Type 0} → Result Text A → Result PackageError A
parsed (ok a) = ok a
parsed (err e) = err (json e)

abbrev is_alphanumeric : ℕ → Bool
is_alphanumeric c = (leb 48 c && leb c 57) || ((leb 65 c && leb c 90) || (leb 97 c && leb c 122))

abbrev is_name_byte : ℕ → Bool
is_name_byte c = is_alphanumeric c || (c == 45 || c == 95)

abbrev pub is_component_name : Text → Bool
is_component_name name = not (length name == 0) && (leb (length name) 128 && all is_name_byte name)

abbrev pub has_name : Text → List Text → Bool
has_name name [] = false
has_name name (n ∷ ns) = if text_eq name n then true else has_name name ns

abbrev pub is_aot_metadata : PackagedAot → Bool
is_aot_metadata a =
    (not (length a.target == 0) && leb (length a.target) 128)
    && (not (length a.wasmtime_version == 0) && leb (length a.wasmtime_version) 64)

module _ {S : Type 0} where
  abbrev pub validate_component : List Text → PackagedComponent → Method S PackageError (Unit {0})
  validate_component names c = do
    refuse_if (not (is_component_name c.name)) (codes "invalid packaged component name")
    refuse_if (has_name c.name names) (codes "duplicate packaged component name")
    refuse_if (not (text_eq c.abi_version component_abi_version)) (
        codes "unsupported component ABI version "
        ++ (c.abi_version ++ (codes "; expected " ++ component_abi_version)))
    refuse_if (ltb max_aot_artifacts_per_component (length c.aot))
        (codes "too many AOT artifacts for packaged component")
    refuse_if (not (all is_aot_metadata c.aot)) (codes "invalid component AOT metadata")

  unfoldable pub validate_each :
      List Text → List PackagedComponent → Method S PackageError (Unit {0})
  validate_each names [] = return tt
  validate_each names (c ∷ cs) = validate_component names c >> validate_each (c.name ∷ names) cs

  unfoldable pub validate_components : List PackagedComponent → Method S PackageError (Unit {0})
  validate_components cs = do
    refuse_if (ltb max_packaged_components (length cs)) (codes "too many packaged components")
    validate_each [] cs

-- The index, and the data that it points into.
abbrev pub pair_with : Text × Result PackageError Text → Result PackageError (Text × Text)
pair_with (component_data, ok index) = ok (index, component_data)
pair_with (component_data, err e) = err e

abbrev pub slice : ℕ → ℕ → Text → Option Text
slice from end bytes =
    if leb from end && leb end (length bytes)
    then some (take (end - from) (drop from bytes))
    else none

module _ (crates : Crates) where
  unfoldable pub bundle_hash : Text → Text
  bundle_hash bundle = hex_encode (crates.digest bundle)

  -- The state is the vector `data`.
  unfoldable pub append_blob : Text → Method Text PackageError BlobIndex
  append_blob bytes component_data = (
    component_data ++ bytes,
    ok (record {
      offset = length component_data;
      length = length bytes;
      sha256 = bundle_hash bytes;
    }),
  )

  unfoldable pub encode_aot : List PackagedAot → Method Text PackageError (List AotIndexEntry)
  encode_aot [] = return []
  encode_aot (a ∷ rest) = do
    blob ← append_blob a.bytes
    tail ← encode_aot rest
    return (
        record {
          target = a.target;
          wasmtime_version = a.wasmtime_version;
          engine_compatibility_hash = a.engine_compatibility_hash;
          source_sha256 = a.source_sha256;
          blob = blob;
        }
        ∷ tail)

  unfoldable pub encode_entries :
      List PackagedComponent → Method Text PackageError (List ComponentIndexEntry)
  encode_entries [] = return []
  encode_entries (c ∷ cs) = do
    source ← append_blob c.source
    aot ← encode_aot c.aot
    tail ← encode_entries cs
    return
        (record { name = c.name; abi_version = c.abi_version; source = source; aot = aot } ∷ tail)

  unfoldable pub index_of : List PackagedComponent → Method Text PackageError Text
  index_of cs = do
    entries ← encode_entries cs
    index ← lift (parsed (crates.index_to_vec entries))
    refuse_if (ltb max_component_index_bytes (length index))
        (codes "component index exceeds size limit")
    return index

  unfoldable pub encode_components : List PackagedComponent → Result PackageError (Text × Text)
  encode_components cs = pair_with (index_of cs [])

  module _ {S : Type 0} where
    unfoldable pub read_blob : Text → BlobIndex → Method S PackageError Text
    read_blob component_data blob = do
      end ←
          ok_or (checked_add blob.offset blob.length)
            (invalid (codes "component data range overflow"))
      bytes ←
          ok_or (slice blob.offset end component_data)
            (invalid (codes "component data range is out of bounds"))
      refuse_if (not (text_eq (bundle_hash bytes) blob.sha256))
          (codes "component blob hash mismatch")
      return bytes

    unfoldable pub decode_aot : Text → List AotIndexEntry → Method S PackageError (List PackagedAot)
    decode_aot component_data [] = return []
    decode_aot component_data (a ∷ rest) = do
      bytes ← read_blob component_data a.blob
      tail ← decode_aot component_data rest
      return (
          record {
            target = a.target;
            wasmtime_version = a.wasmtime_version;
            engine_compatibility_hash = a.engine_compatibility_hash;
            source_sha256 = a.source_sha256;
            bytes = bytes;
          }
          ∷ tail)

    unfoldable pub decode_entries :
        Text → List ComponentIndexEntry → Method S PackageError (List PackagedComponent)
    decode_entries component_data [] = return []
    decode_entries component_data (e ∷ es) = do
      refuse_if (ltb max_aot_artifacts_per_component (length e.aot))
          (codes "too many AOT artifacts for packaged component")
      source ← read_blob component_data e.source
      aot ← decode_aot component_data e.aot
      tail ← decode_entries component_data es
      return
          (record { name = e.name; abi_version = e.abi_version; source = source; aot = aot } ∷ tail)

    unfoldable pub decode_components : Text → Text → Method S PackageError (List PackagedComponent)
    decode_components index component_data = do
      entries ← lift (parsed (crates.index_from_slice index))
      refuse_if (ltb max_packaged_components (length entries))
          (codes "too many packaged components")
      components ← decode_entries component_data entries
      validate_components components
      return components
