-- ===== src/Package/Entries.antt =====
-- crates/tysel-package/src/tap.rs: decode_components after encode_components.
use tysel.Base.{
  ℕ, ◌+◌, ◌^◌, ◌≤◌, ◌<◌, ltb, Text, List, [], ◌∷◌, ◌++◌, length, length-append, append_assoc,
  append_nil, false, ok, ◌≡◌, refl, sym, ap, ◌∙◌, arith,
}
use tysel.Package.{
  PackagedComponent, PackagedAot, PackageManifest, ComponentIndexEntry, Crates,
  max_aot_artifacts_per_component, max_packaged_components, max_component_index_bytes,
}
use tysel.Package.Components.{
  validate_components, validate_each, encode_components, index_of, decode_entries,
  decode_components,
}
use tysel.Package.Blobs.{
  HasFewArtifacts, entry_data, aot_data, aot_entries, entries_at, encode_entries_lem,
  decode_aot_lem, read_blob-at,
}

-- `serde_json` reads a manifest and an index back from the text that it wrote for them.
pub record ReadsBack (crates : Crates) : Type 0 where
  pub manifest_read :
      (m : PackageManifest) (bytes : Text)
      → crates.manifest_to_vec m ≡ ok bytes
      → crates.manifest_from_slice bytes ≡ ok m
  pub index_read :
      (entries : List ComponentIndexEntry) (bytes : Text)
      → crates.index_to_vec entries ≡ ok bytes
      → crates.index_from_slice bytes ≡ ok entries

append_four : (a b c d : Text) → (a ++ (b ++ c)) ++ d ≡ a ++ (b ++ (c ++ d))
append_four a b c d = rw (append_assoc a (b ++ c) d, append_assoc b c d)

module _ {S : Type 0} where
  validate_each-few :
      (names : List Text) (cs : List PackagedComponent) (s : S)
      → validate_each names cs s ≡ (s, ok tt)
      → HasFewArtifacts cs
  unfolding validate_each
  validate_each-few names [] s h = tt
  validate_each-few names (c ∷ cs) s h = ground (arith, validate_each-few (c.name ∷ names) cs s)

  validate_components-few :
      (cs : List PackagedComponent) (s : S)
      → validate_components cs s ≡ (s, ok tt)
      → HasFewArtifacts cs × (length cs ≤ max_packaged_components)
  unfolding validate_components
  validate_components-few cs s h = ground (arith, validate_each-few [] cs s)

module _ (crates : Crates) where
  length-aot_entries :
      (offset : ℕ) (aot : List PackagedAot) → length (aot_entries crates offset aot) ≡ length aot
  length-aot_entries offset [] = refl
  length-aot_entries offset (a ∷ rest) =
      omega (arith, length-aot_entries (offset + length a.bytes) rest)

  length-entries_at :
      (offset : ℕ) (cs : List PackagedComponent) → length (entries_at crates offset cs) ≡ length cs
  length-entries_at offset [] = refl
  length-entries_at offset (c ∷ cs) =
      omega (arith, length-entries_at (offset + length c.source + length (aot_data c.aot)) cs)

  within :
      (n : ℕ) → n ≤ max_aot_artifacts_per_component → ltb max_aot_artifacts_per_component n ≡ false
  within n h = ground arith

  few_components : (n : ℕ) → n ≤ max_packaged_components → ltb max_packaged_components n ≡ false
  few_components n h = ground arith

  decode_entries_lem :
      {S : Type 0} (cs : List PackagedComponent) (whole before after : Text) (s : S)
      → HasFewArtifacts cs
      → whole ≡ before ++ (entry_data cs ++ after)
      → length whole < 2 ^ 64
      → decode_entries crates whole (entries_at crates (length before) cs) s ≡ (s, ok cs)
  unfolding decode_entries
  decode_entries_lem [] whole before after s f e h = refl
  decode_entries_lem (c ∷ cs) whole before after s f e h =
      let e1 =
        e ∙ ap (λ r. before ++ r) (append_four c.source (aot_data c.aot) (entry_data cs) after) in
      let e2 =
        e1 ∙ sym (append_assoc before c.source (aot_data c.aot ++ (entry_data cs ++ after))) in
      rw (
        within (length (aot_entries crates (length before + length c.source) c.aot))
            (omega (arith, f.0, length-aot_entries (length before + length c.source) c.aot)),
        read_blob-at crates whole before c.source (aot_data c.aot ++ (entry_data cs ++ after)) s e1
            h,
        sym (length-append before c.source),
        decode_aot_lem crates c.aot whole (before ++ c.source) (entry_data cs ++ after) s e2 h,
        sym (length-append (before ++ c.source) (aot_data c.aot)),
        decode_entries_lem cs whole ((before ++ c.source) ++ aot_data c.aot) after s f.1
            (e2 ∙ sym (append_assoc (before ++ c.source) (aot_data c.aot) (entry_data cs ++ after)))
            h,
      )

  pub index_of_lem :
      (cs : List PackagedComponent) (index component_data : Text)
      → encode_components crates cs ≡ ok (index, component_data)
      → (component_data ≡ entry_data cs)
        × ((crates.index_to_vec (entries_at crates 0 cs) ≡ ok index)
            × (length index ≤ max_component_index_bytes))
  unfolding encode_components index_of
  index_of_lem cs index component_data h = ground (arith, encode_entries_lem crates cs [])

  -- Components that `encode_components` wrote are read back, when they are valid and
  -- their data has a length of 64 bits.
  pub decode_components-encode_components :
      {S : Type 0}
      → ReadsBack crates
      → (cs : List PackagedComponent) (index component_data : Text) (s : S)
      → validate_components cs s ≡ (s, ok tt)
      → encode_components crates cs ≡ ok (index, component_data)
      → length component_data < 2 ^ 64
      → decode_components crates index component_data s ≡ (s, ok cs)
  unfolding decode_components
  decode_components-encode_components law cs index component_data s valid h bound =
      let facts = index_of_lem cs index component_data h in
      rw (
        law.index_read (entries_at crates 0 cs) index facts.1.0,
        few_components (length (entries_at crates 0 cs))
            (omega (arith, length-entries_at 0 cs, (validate_components-few cs s valid).1)),
        decode_entries_lem cs component_data [] [] s (validate_components-few cs s valid).0
            (facts.0 ∙ sym (append_nil (entry_data cs))) bound,
        valid,
      )
