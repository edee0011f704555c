-- ===== src/Package/Envelope.antt =====
-- crates/tysel-package/src/tap.rs: the envelope, and executables that carry one.
-- A file is the list of its bytes; reading it does not fail.
use tysel.Base.{
  ℕ, ltb, leb, ◌==◌, if◌then◌else◌, Text, codes, text_eq, List, [], ◌∷◌, ◌++◌, length, take, drop,
  Bool, not, ◌&&◌, ◌||◌, Option, none, some, Result, ok, err, Method, ◌>>=◌, ◌>>◌, return, fail,
  get, lift, ok_or, to_le_bytes, from_le_bytes,
}
use tysel.Package.{
  PackageError, invalid, version, PackageManifest, PackagedComponent, Tap, Crates, decimal,
  tap_version_now, min_supported_tap_version, max_tap_payload_bytes, tap_magic,
  max_component_index_bytes,
}
use tysel.Package.Components.{
  checked_add, refuse_if, parsed, validate_components, bundle_hash, encode_components,
  decode_components,
}

-- `take`: the state is the slice `rest`.
unfoldable pub take_bytes : ℕ → Method Text PackageError Text
take_bytes n rest =
    if ltb (length rest) n
    then (rest, err (invalid (codes "truncated tap payload")))
    else (drop n rest, ok (take n rest))

unfoldable pub read_version : Method Text PackageError ℕ
read_version = do bytes ← take_bytes 4; return (from_le_bytes bytes)

unfoldable pub read_usize : Method Text PackageError ℕ
read_usize = do bytes ← take_bytes 8; return (from_le_bytes bytes)

-- `tap_version`, whose steps `decode` begins with too.
unfoldable pub tap_version : Method Text PackageError ℕ
tap_version = do
  magic ← take_bytes 8
  refuse_if (not (text_eq magic tap_magic)) (codes "missing TYSELTAP magic")
  read_version

abbrev pub is_profile : Text → Bool
is_profile profile =
    text_eq profile (codes "service")
    || (text_eq profile (codes "isolated") || text_eq profile (codes "component"))

abbrev pub is_supported : ℕ → Bool
is_supported v = leb min_supported_tap_version v && leb v tap_version_now

-- The lengths of the component index and of its data: absent before version 2.
unfoldable pub read_component_lengths : ℕ → Method Text PackageError (ℕ × ℕ)
read_component_lengths v =
    if leb 2 v
    then (do index_len ← read_usize; data_len ← read_usize; return (index_len, data_len))
    else return (0, 0)

abbrev pub total_length : List Text → ℕ → Option ℕ
total_length [] n = some n
total_length (part ∷ parts) n = elim (checked_add n (length part)) [
  | none ↦ none
  | some m ↦ total_length parts m
]

abbrev pub payload : Text → Text → Text → Text → Text → Text
payload manifest bundle source_map index component_data =
    tap_magic
    ++ (to_le_bytes 4 tap_version_now
        ++ (to_le_bytes 8 (length manifest)
            ++ (to_le_bytes 8 (length bundle)
                ++ (to_le_bytes 8 (length source_map)
                    ++ (to_le_bytes 8 (length index)
                        ++ (to_le_bytes 8 (length component_data)
                            ++ (manifest
                                ++ (bundle ++ (source_map ++ (index ++ component_data))))))))))

module _ (crates : Crates) where
  module _ {S : Type 0} where
    unfoldable pub validate_manifest_contract :
        PackageManifest → ℕ → Method S PackageError (Unit {0})
    validate_manifest_contract m envelope_version = do
      refuse_if (not (m.format_version == envelope_version)) (
          codes "manifest format version "
          ++ (decimal m.format_version
              ++ (codes " does not match tap envelope version " ++ decimal envelope_version)))
      refuse_if (not (crates.is_version m.runtime_version))
          (codes "runtime version is not valid semantic versioning")
      refuse_if (not (is_profile m.execution_profile)) (codes "unsupported execution profile")

    unfoldable pub decode_listed : ℕ → Text → Text → Method S PackageError (List PackagedComponent)
    decode_listed v index component_data =
        if leb 2 v then decode_components crates index component_data else return []

    abbrev pub encode_in : Tap → Method S PackageError Text
    encode_in tap = do
      validate_manifest_contract tap.manifest tap_version_now
      validate_components tap.components
      manifest ← lift (parsed (crates.manifest_to_vec tap.manifest))
      index ← lift (encode_components crates tap.components)
      expected_len ←
          ok_or (total_length (manifest ∷ tap.bundle ∷ tap.source_map ∷ index.0 ∷ index.1 ∷ []) 52)
            (invalid (codes "tap payload length overflow"))
      refuse_if (ltb max_tap_payload_bytes expected_len) (codes "tap payload exceeds size limit")
      return (payload manifest tap.bundle tap.source_map index.0 index.1)

  abbrev pub new_tap : PackageManifest → Text → Text → Tap
  new_tap m bundle source_map = record {
    manifest = record m {
      format_version = tap_version_now;
      bundle_hash = bundle_hash crates bundle;
    };
    bundle = bundle;
    source_map = source_map;
    components = [];
  }

  unfoldable pub encode : Tap → Result PackageError Text
  encode tap = (encode_in {S = Text} tap []).1

  -- `decode` from the check of the manifest on.
  unfoldable pub decode_parts : ℕ → Text → Text → Text → Text → Text → Method Text PackageError Tap
  decode_parts v manifest_bytes bundle source_map index component_data = do
    manifest ← lift (parsed (crates.manifest_from_slice manifest_bytes))
    validate_manifest_contract manifest v
    refuse_if (not (text_eq manifest.bundle_hash (bundle_hash crates bundle)))
        (codes "bundle hash mismatch")
    components ← decode_listed v index component_data
    return (record {
      manifest = manifest;
      bundle = bundle;
      source_map = source_map;
      components = components;
    })

  -- `decode` from the check of the version on.
  unfoldable pub decode_version : ℕ → Method Text PackageError Tap
  decode_version v = do
    (if is_supported v then return tt else fail (version v))
    manifest_len ← read_usize
    bundle_len ← read_usize
    source_map_len ← read_usize
    component_lens ← read_component_lengths v
    refuse_if (ltb max_component_index_bytes component_lens.0)
        (codes "component index exceeds size limit")
    manifest_bytes ← take_bytes manifest_len
    bundle ← take_bytes bundle_len
    source_map ← take_bytes source_map_len
    index ← take_bytes component_lens.0
    component_data ← take_bytes component_lens.1
    rest ← get
    refuse_if (ltb 0 (length rest)) (codes "trailing bytes inside tap payload")
    decode_parts v manifest_bytes bundle source_map index component_data

  unfoldable pub decode_rest : Method Text PackageError Tap
  decode_rest = tap_version >>= decode_version

  unfoldable pub decode : Text → Result PackageError Tap
  decode bytes =
      if ltb max_tap_payload_bytes (length bytes)
      then err (invalid (codes "tap payload exceeds size limit"))
      else (decode_rest bytes).1
