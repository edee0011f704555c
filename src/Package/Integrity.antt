-- ===== src/Package/Integrity.antt =====
-- crates/tysel-package/src/tap.rs: what is known of a package that was decoded.
use tysel.Base.{
  ℕ, ◌≤◌, ltb, leb, if◌then◌else◌, Text, codes, text_eq, text_eq_iff, List, [], ◌∷◌, length, Bool,
  true, false, not, Result, ok, err, then_on-passes, lift, return, fail, subst, ◌≡◌, refl, ap, ◌∙◌,
  arith,
}
use tysel.Package.{
  Tap, Crates, PackageManifest, PackagedComponent, PackageError, invalid, version,
  max_packaged_components, max_component_index_bytes, max_tap_payload_bytes,
}
use tysel.Package.Components.{
  bundle_hash, parsed, refuse_if, has_name, validate_components, validate_each, decode_entries,
  decode_components,
}
use tysel.Package.Envelope.{
  take_bytes, read_usize, read_component_lengths, tap_version, decode, decode_rest, decode_version,
  decode_parts, decode_listed, validate_manifest_contract, is_supported,
}
use tysel.Package.Blobs.{HasFewArtifacts}

-- No component has a name of `names` or of an earlier component.
abbrev pub HasNewNames : List Text → List PackagedComponent → Type 0
HasNewNames names [] = Unit
HasNewNames names (c ∷ cs) = (has_name c.name names ≡ false) × HasNewNames (c.name ∷ names) cs

-- The hash of the bundle is the manifest's, the format is a supported one, and the components are
-- within the limits and have different names.
pub record IsIntact (crates : Crates) (tap : Tap) : Type 0 where
  pub hash : tap.manifest.bundle_hash ≡ bundle_hash crates tap.bundle
  pub format : is_supported tap.manifest.format_version ≡ true
  pub few : length tap.components ≤ max_packaged_components
  pub few_artifacts : HasFewArtifacts tap.components
  pub new_names : HasNewNames [] tap.components

validate_each-limits :
    (names : List Text) (cs : List PackagedComponent) (s t : Text)
    → validate_each names cs s ≡ (t, ok tt)
    → HasFewArtifacts cs × HasNewNames names cs
unfolding validate_each
validate_each-limits names [] s t h = (tt, tt)
validate_each-limits names (c ∷ cs) s t h =
    ground (arith, validate_each-limits (c.name ∷ names) cs s t)

validate_components-limits :
    (cs : List PackagedComponent) (s t : Text)
    → validate_components cs s ≡ (t, ok tt)
    → (length cs ≤ max_packaged_components) × (HasFewArtifacts cs × HasNewNames [] cs)
unfolding validate_components
validate_components-limits cs s t h = ground (arith, validate_each-limits [] cs s t)

manifest_contract-format :
    (crates : Crates) (m : PackageManifest) (v : ℕ) (s t : Text)
    → validate_manifest_contract crates m v s ≡ (t, ok tt)
    → m.format_version ≡ v
unfolding validate_manifest_contract
manifest_contract-format crates m v s t h = ground arith

refuse_if-passed :
    (b : Bool) (message s t : Text) → refuse_if {S = Text} b message s ≡ (t, ok tt) → b ≡ false
refuse_if-passed true message s t h = cc
refuse_if-passed false message s t h = refl

not-false : (b : Bool) → not b ≡ false → b ≡ true
not-false true h = refl
not-false false h = cc

ok-same :
    {A : Type 0} (a b : A) (s t : Text)
    → ◌≡◌ {A = Text × Result PackageError A} (s, ok a) (t, ok b)
    → a ≡ b
ok-same a b s t h = cc

decoded_small :
    (is_large : Bool) (x : Text × Result PackageError Tap) (tap : Tap)
    → (if is_large then err (invalid (codes "tap payload exceeds size limit")) else x.1) ≡ ok tap
    → ◌≡◌ {A = Text × Result PackageError Tap} x (x.0, ok tap)
decoded_small true x tap h = cc
decoded_small false (s, r) tap h = rw h

module _ (crates : Crates) where
  decode_components-limits :
      (index component_data s t : Text) (cs : List PackagedComponent)
      → decode_components crates index component_data s ≡ (t, ok cs)
      → (length cs ≤ max_packaged_components) × (HasFewArtifacts cs × HasNewNames [] cs)
  unfolding decode_components
  decode_components-limits index component_data s t cs h =
      let entries = then_on-passes (lift (parsed (crates.index_from_slice index)) s) _ h in
      let fit =
        then_on-passes
          (refuse_if (ltb max_packaged_components (length entries.0))
            (codes "too many packaged components") entries.1.0)
          _ entries.1.1.1 in
      let decoded =
        then_on-passes (decode_entries crates component_data entries.0 fit.1.0) _ fit.1.1.1 in
      let valid = then_on-passes (validate_components decoded.0 decoded.1.0) _ decoded.1.1.1 in
      let same = ok-same decoded.0 cs valid.1.0 t valid.1.1.1 in
      subst (λ r. (length r ≤ max_packaged_components) × (HasFewArtifacts r × HasNewNames [] r))
        same (validate_components-limits decoded.0 decoded.1.0 valid.1.0 valid.1.1.0)

  by_version :
      (is_new : Bool) (index component_data s t : Text) (cs : List PackagedComponent)
      → (if is_new then decode_components crates index component_data else return []) s ≡ (t, ok cs)
      → (length cs ≤ max_packaged_components) × (HasFewArtifacts cs × HasNewNames [] cs)
  by_version true index component_data s t cs h =
      decode_components-limits index component_data s t cs h
  by_version false index component_data s t cs h =
      subst (λ r. (length r ≤ max_packaged_components) × (HasFewArtifacts r × HasNewNames [] r))
        (ok-same [] cs s t h) (omega arith, (tt, tt))

  decode_listed-limits :
      (v : ℕ) (index component_data s t : Text) (cs : List PackagedComponent)
      → decode_listed crates v index component_data s ≡ (t, ok cs)
      → (length cs ≤ max_packaged_components) × (HasFewArtifacts cs × HasNewNames [] cs)
  unfolding decode_listed
  decode_listed-limits v index component_data s t cs h =
      by_version (leb 2 v) index component_data s t cs h

  decode_parts-IsIntact :
      (v : ℕ) (manifest_bytes bundle source_map index component_data s t : Text) (tap : Tap)
      → is_supported v ≡ true
      → decode_parts crates v manifest_bytes bundle source_map index component_data s ≡ (t, ok tap)
      → IsIntact crates tap
  unfolding decode_parts
  decode_parts-IsIntact v manifest_bytes bundle source_map index component_data s t tap supported
        h =
      let manifest =
        then_on-passes (lift (parsed (crates.manifest_from_slice manifest_bytes)) s) _ h in
      let contract =
        then_on-passes (validate_manifest_contract crates manifest.0 v manifest.1.0) _
          manifest.1.1.1 in
      let same =
        then_on-passes
          (refuse_if (not (text_eq manifest.0.bundle_hash (bundle_hash crates bundle)))
            (codes "bundle hash mismatch") contract.1.0)
          _ contract.1.1.1 in
      let listed =
        then_on-passes (decode_listed crates v index component_data same.1.0) _ same.1.1.1 in
      let limits =
        decode_listed-limits v index component_data same.1.0 listed.1.0 listed.0 listed.1.1.0 in
      let format =
        manifest_contract-format crates manifest.0 v manifest.1.0 contract.1.0 contract.1.1.0 in
      subst (IsIntact crates)
        (ok-same
          (record {
            manifest = manifest.0;
            bundle = bundle;
            source_map = source_map;
            components = listed.0;
          })
          tap listed.1.0 t listed.1.1.1)
        (record {
          hash = (text_eq_iff manifest.0.bundle_hash (bundle_hash crates bundle)).0 (
              not-false (text_eq manifest.0.bundle_hash (bundle_hash crates bundle)) (
                refuse_if-passed (not (text_eq manifest.0.bundle_hash (bundle_hash crates bundle)))
                  (codes "bundle hash mismatch") contract.1.0 same.1.0 same.1.1.0));
          format = ap is_supported format ∙ supported;
          few = limits.0;
          few_artifacts = limits.1.0;
          new_names = limits.1.1;
        })

  supported_or :
      (b : Bool) (v : ℕ) (s t : Text)
      → (if b then return tt else fail {S = Text} {A = Unit {0}} (version v)) s ≡ (t, ok tt)
      → b ≡ true
  supported_or true v s t h = refl
  supported_or false v s t h = cc

  decode_version-IsIntact :
      (v : ℕ) (s t : Text) (tap : Tap)
      → decode_version crates v s ≡ (t, ok tap)
      → IsIntact crates tap
  unfolding decode_version
  decode_version-IsIntact v s t tap h =
      let supported =
        then_on-passes ((if is_supported v then return tt else fail (version v)) s) _ h in
      let manifest_len = then_on-passes (read_usize supported.1.0) _ supported.1.1.1 in
      let bundle_len = then_on-passes (read_usize manifest_len.1.0) _ manifest_len.1.1.1 in
      let source_map_len = then_on-passes (read_usize bundle_len.1.0) _ bundle_len.1.1.1 in
      let lens =
        then_on-passes (read_component_lengths v source_map_len.1.0) _ source_map_len.1.1.1 in
      let fits =
        then_on-passes
          (refuse_if (ltb max_component_index_bytes lens.0.0)
            (codes "component index exceeds size limit") lens.1.0)
          _ lens.1.1.1 in
      let manifest = then_on-passes (take_bytes manifest_len.0 fits.1.0) _ fits.1.1.1 in
      let bundle = then_on-passes (take_bytes bundle_len.0 manifest.1.0) _ manifest.1.1.1 in
      let source_map = then_on-passes (take_bytes source_map_len.0 bundle.1.0) _ bundle.1.1.1 in
      let index = then_on-passes (take_bytes lens.0.0 source_map.1.0) _ source_map.1.1.1 in
      let blobs = then_on-passes (take_bytes lens.0.1 index.1.0) _ index.1.1.1 in
      let used =
        then_on-passes
          (refuse_if (ltb 0 (length blobs.1.0)) (codes "trailing bytes inside tap payload")
            blobs.1.0)
          _ blobs.1.1.1 in
      decode_parts-IsIntact v manifest.0 bundle.0 source_map.0 index.0 blobs.0 used.1.0 t tap
        (supported_or (is_supported v) v s supported.1.0 supported.1.1.0) used.1.1.1

  decode_rest-IsIntact :
      (s t : Text) (tap : Tap) → decode_rest crates s ≡ (t, ok tap) → IsIntact crates tap
  unfolding decode_rest
  decode_rest-IsIntact s t tap h =
      let v = then_on-passes (tap_version s) _ h in decode_version-IsIntact v.0 v.1.0 t tap v.1.1.1

  -- Every payload that is decoded gives a package whose bundle has the hash that the manifest
  -- names, whose format is supported, and whose components are within the limits of number and
  -- artifacts and have different names.
  pub decode-IsIntact :
      (bytes : Text) (tap : Tap) → decode crates bytes ≡ ok tap → IsIntact crates tap
  unfolding decode
  decode-IsIntact bytes tap h =
      decode_rest-IsIntact bytes (decode_rest crates bytes).0 tap
        (decoded_small (ltb max_tap_payload_bytes (length bytes)) (decode_rest crates bytes) tap h)
