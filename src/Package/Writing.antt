-- ===== src/Package/Writing.antt =====
-- crates/tysel-package/src/tap.rs: what a successful encoding went through.
use tysel.Base.{
  ℕ, ◌≤◌, ltb, Text, codes, List, [], ◌∷◌, length, some, ok, err, ◌≡◌, refl, ap, arith, then_on-ok,
  lift-keeps, ok_or-keeps, lift-ok, ok_or-ok, lift, ok_or, Result, Method, return, ◌>>◌,
}
use tysel.Package.{
  Tap, Crates, PackageManifest, PackagedComponent, PackageError, tap_version_now,
  max_tap_payload_bytes, invalid,
}
use tysel.Package.Components.{
  parsed, refuse_if, encode_components, validate_components, validate_each,
}
use tysel.Package.Envelope.{total_length, payload, encode, validate_manifest_contract}
use tysel.Package.Reading.{total_length-sum, length-payload}

-- What a successful encoding went through.
pub record IsEncoded (crates : Crates) (tap : Tap) (bytes : Text) : Type 0 where
  pub manifest : Text
  pub index : Text
  pub component_data : Text
  pub is_contract :
      validate_manifest_contract crates {S = Text} tap.manifest tap_version_now [] ≡ ([], ok tt)
  pub is_valid : validate_components {S = Text} tap.components [] ≡ ([], ok tt)
  pub manifest_written : crates.manifest_to_vec tap.manifest ≡ ok manifest
  pub components_written : encode_components crates tap.components ≡ ok (index, component_data)
  pub bytes_are : bytes ≡ payload manifest tap.bundle tap.source_map index component_data
  pub length_fits : length bytes ≤ max_tap_payload_bytes

module _ {S : Type 0} where
  validate_manifest_contract-keeps :
      (crates : Crates) (m : PackageManifest) (v : ℕ) (s : S)
      → (validate_manifest_contract crates m v s).0 ≡ s
  unfolding validate_manifest_contract
  validate_manifest_contract-keeps crates m v s = ground arith

  validate_each-keeps :
      (names : List Text) (cs : List PackagedComponent) (s : S) → (validate_each names cs s).0 ≡ s
  unfolding validate_each
  validate_each-keeps names [] s = refl
  validate_each-keeps names (c ∷ cs) s = ground (arith, validate_each-keeps (c.name ∷ names) cs s)

  validate_components-keeps :
      (cs : List PackagedComponent) (s : S) → (validate_components cs s).0 ≡ s
  unfolding validate_components
  validate_components-keeps cs s = ground (arith, validate_each-keeps [] cs s)

parsed-ok :
    (r : Result Text Text) (a : Text) → lift {S = Text} (parsed r) [] ≡ ([], ok a) → r ≡ ok a
parsed-ok (ok b) a h = cc
parsed-ok (err e) a h = cc

seal : ℕ → Text → Method Text PackageError Text
seal n written = do
  refuse_if (ltb max_tap_payload_bytes n) (codes "tap payload exceeds size limit")
  return written

within_limit :
    (n : ℕ) (bytes written : Text)
    → (seal n written []).1 ≡ ok bytes
    → (n ≤ max_tap_payload_bytes) × (bytes ≡ written)
unfolding seal
within_limit n bytes written h = ground arith

length_within :
    (manifest bundle source_map index component_data : Text) (n : ℕ) (bytes : Text)
    → bytes ≡ payload manifest bundle source_map index component_data
    → total_length (manifest ∷ bundle ∷ source_map ∷ index ∷ component_data ∷ []) 52 ≡ some n
    → n ≤ max_tap_payload_bytes
    → length bytes ≤ max_tap_payload_bytes
length_within manifest bundle source_map index component_data n bytes e t h =
    let parts = manifest ∷ bundle ∷ source_map ∷ index ∷ component_data ∷ [] in
    omega (
      arith,
      ap length e,
      length-payload manifest bundle source_map index component_data,
      total_length-sum parts 52 n t,
    )

pub encode-IsEncoded :
    (crates : Crates) (tap : Tap) (bytes : Text)
    → encode crates tap ≡ ok bytes
    → IsEncoded crates tap bytes
unfolding encode seal
encode-IsEncoded crates tap bytes h =
    let contract =
      then_on-ok (validate_manifest_contract crates tap.manifest tap_version_now []) _ []
        (validate_manifest_contract-keeps crates tap.manifest tap_version_now []) h in
    let valid =
      then_on-ok (validate_components tap.components []) _ []
        (validate_components-keeps tap.components []) contract.1.1 in
    let manifest =
      then_on-ok (lift (parsed (crates.manifest_to_vec tap.manifest)) []) _ []
        (lift-keeps (parsed (crates.manifest_to_vec tap.manifest)) []) valid.1.1 in
    let index =
      then_on-ok (lift (encode_components crates tap.components) []) _ []
        (lift-keeps (encode_components crates tap.components) []) manifest.1.1 in
    let parts = manifest.0 ∷ tap.bundle ∷ tap.source_map ∷ (index.0).0 ∷ (index.0).1 ∷ [] in
    let overflow = invalid (codes "tap payload length overflow") in
    let total =
      then_on-ok (ok_or (total_length parts 52) overflow []) _ []
        (ok_or-keeps (total_length parts 52) overflow []) index.1.1 in
    let fits = within_limit total.0 bytes _ total.1.1 in
    record {
      manifest = manifest.0;
      index = (index.0).0;
      component_data = (index.0).1;
      is_contract = contract.1.0;
      is_valid = valid.1.0;
      manifest_written = parsed-ok (crates.manifest_to_vec tap.manifest) manifest.0 manifest.1.0;
      components_written = lift-ok (encode_components crates tap.components) [] index.0 index.1.0;
      bytes_are = fits.1;
      length_fits =
          length_within manifest.0 tap.bundle tap.source_map (index.0).0 (index.0).1 total.0 bytes
            fits.1 (ok_or-ok (total_length parts 52) overflow [] total.0 total.1.0) fits.0;
    }
