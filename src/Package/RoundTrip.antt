-- ===== src/Package/RoundTrip.antt =====
-- crates/tysel-package/src/tap.rs: decode after encode.
use tysel.Base.{
  ℕ, ◌+◌, ◌^◌, ◌≤◌, ◌<◌, ltb, Text, [], ◌∷◌, ◌++◌, length, to_le_bytes, false, ok, ◌≡◌, refl, ap,
  arith,
}
use tysel.Package.{
  Tap, Crates, tap_version_now, tap_magic, max_tap_payload_bytes, max_component_index_bytes,
}
use tysel.Package.Components.{bundle_hash}
use tysel.Package.Envelope.{
  payload, read_component_lengths, decode_listed, decode_parts, decode_version, tap_version,
  decode_rest, decode, encode,
}
use tysel.Package.Blobs.{text_eq_same}
use tysel.Package.Entries.{ReadsBack, decode_components-encode_components, index_of_lem}
use tysel.Package.Reading.{
  take_bytes-append, take_bytes_all, read_version-append, read_usize-append, length-payload, sum_of,
}
use tysel.Package.Writing.{IsEncoded, encode-IsEncoded}

at_most : (n max : ℕ) → n ≤ max → ltb max n ≡ false
at_most n max h = ground arith

module _ (crates : Crates) (law : ReadsBack crates) (tap : Tap) (bytes : Text) where
  decode_rest-payload :
      (r : IsEncoded crates tap bytes)
      → tap.manifest.bundle_hash ≡ bundle_hash crates tap.bundle
      → length r.manifest < 2 ^ 64
      → length tap.bundle < 2 ^ 64
      → length tap.source_map < 2 ^ 64
      → length r.index < 2 ^ 64
      → length r.component_data < 2 ^ 64
      → decode_rest crates (payload r.manifest tap.bundle tap.source_map r.index r.component_data)
        ≡ ([], ok tap)
  unfolding decode_rest decode_version decode_parts tap_version decode_listed read_component_lengths
  decode_rest-payload r hash h1 h2 h3 h4 h5 =
      let parts5 = r.component_data in
      let parts4 = r.index ++ parts5 in
      let parts3 = tap.source_map ++ parts4 in
      let parts2 = tap.bundle ++ parts3 in
      let parts = r.manifest ++ parts2 in
      let f5 = to_le_bytes 8 (length r.component_data) ++ parts in
      let f4 = to_le_bytes 8 (length r.index) ++ f5 in
      let f3 = to_le_bytes 8 (length tap.source_map) ++ f4 in
      let f2 = to_le_bytes 8 (length tap.bundle) ++ f3 in
      let f1 = to_le_bytes 8 (length r.manifest) ++ f2 in
      rw (
        take_bytes-append 8 tap_magic (to_le_bytes 4 tap_version_now ++ f1) refl,
        text_eq_same tap_magic,
        read_version-append 5 f1 (omega arith),
        read_usize-append (length r.manifest) f2 h1,
        read_usize-append (length tap.bundle) f3 h2,
        read_usize-append (length tap.source_map) f4 h3,
        read_usize-append (length r.index) f5 h4,
        read_usize-append (length r.component_data) parts h5,
        at_most (length r.index) max_component_index_bytes
            (index_of_lem crates tap.components r.index r.component_data r.components_written).1.1,
        take_bytes-append (length r.manifest) r.manifest parts2 refl,
        take_bytes-append (length tap.bundle) tap.bundle parts3 refl,
        take_bytes-append (length tap.source_map) tap.source_map parts4 refl,
        take_bytes-append (length r.index) r.index parts5 refl,
        take_bytes_all r.component_data,
        law.manifest_read tap.manifest r.manifest r.manifest_written,
        r.is_contract,
        hash,
        text_eq_same (bundle_hash crates tap.bundle),
        decode_components-encode_components crates law tap.components r.index r.component_data []
            r.is_valid r.components_written h5,
      )

  -- A package that is encoded is read back, when its manifest names the hash of its bundle.
  pub decode-encode :
      tap.manifest.bundle_hash ≡ bundle_hash crates tap.bundle
      → encode crates tap ≡ ok bytes
      → (decode crates bytes ≡ ok tap) × (length bytes ≤ max_tap_payload_bytes)
  unfolding decode
  decode-encode hash h =
      let r = encode-IsEncoded crates tap bytes h in
      let size : 52
            + sum_of (r.manifest ∷ tap.bundle ∷ tap.source_map ∷ r.index ∷ r.component_data ∷ [])
          ≤ max_tap_payload_bytes =
        omega (
          arith,
          r.length_fits,
          ap length r.bytes_are,
          length-payload r.manifest tap.bundle tap.source_map r.index r.component_data,
        ) in
      (
        rw (
          at_most (length bytes) max_tap_payload_bytes r.length_fits,
          r.bytes_are,
          decode_rest-payload r hash (omega (arith, size)) (omega (arith, size))
              (omega (arith, size)) (omega (arith, size)) (omega (arith, size)),
        ),
        r.length_fits,
      )
