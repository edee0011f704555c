-- ===== src/Package/Embedding.antt =====
-- crates/tysel-package/src/tap.rs: extract after embed_into.
use tysel.Base.{
  ℕ, ◌+◌, ◌-◌, ◌≤◌, ltb, Text, ◌++◌, length, length-append, take, drop, take-append, drop-append,
  append_assoc, to_le_bytes, length-to_le_bytes, from_le_bytes-to_le_bytes, false, Result, ok, err,
  ◌≡◌, refl, sym, ap, ◌∙◌, arith,
}
use tysel.Package.{Tap, Crates, PackageError, end_magic, max_tap_payload_bytes}
use tysel.Package.Components.{bundle_hash}
use tysel.Package.Envelope.{encode, decode}
use tysel.Package.Executables.{embed_into, embed_payload, extract}
use tysel.Package.Blobs.{text_eq_same}
use tysel.Package.Entries.{ReadsBack}
use tysel.Package.RoundTrip.{decode-encode}

drop_exactly : (n : ℕ) (xs ys : Text) → length xs ≡ n → drop n (xs ++ ys) ≡ ys
drop_exactly n xs ys h = rw (sym h, drop-append xs ys)

take_exactly : (n : ℕ) (xs ys : Text) → length xs ≡ n → take n (xs ++ ys) ≡ xs
take_exactly n xs ys h = rw (sym h, take-append xs ys)

module _ (crates : Crates) (stub bytes : Text) where
  abbrev trailer : Text
  trailer = to_le_bytes 8 (length bytes) ++ end_magic

  abbrev whole : Text
  whole = stub ++ (bytes ++ trailer)

  length-trailer : length trailer ≡ 16
  length-trailer = omega (
    arith,
    length-append (to_le_bytes 8 (length bytes)) end_magic,
    length-to_le_bytes 8 (length bytes),
  )

  length-whole : length whole ≡ length stub + length bytes + 16
  length-whole =
      omega
        (arith, length-append stub (bytes ++ trailer), length-append bytes trailer, length-trailer)

  drop_footer : drop (length stub + length bytes) whole ≡ trailer
  drop_footer =
      ap (drop (length stub + length bytes)) (sym (append_assoc stub bytes trailer))
      ∙ drop_exactly (length stub + length bytes) (stub ++ bytes) trailer (length-append stub bytes)

  drop_length : drop (length stub + length bytes + 8) whole ≡ end_magic
  drop_length =
      let le = to_le_bytes 8 (length bytes) in
      let before = stub ++ (bytes ++ le) in
      ap (drop (length stub + length bytes + 8)) (
        sym (
          append_assoc stub (bytes ++ le) end_magic
          ∙ ap (λ r. stub ++ r) (append_assoc bytes le end_magic)))
      ∙ drop_exactly (length stub + length bytes + 8) before end_magic (
          omega (
            arith,
            length-append stub (bytes ++ le),
            length-append bytes le,
            length-to_le_bytes 8 (length bytes),
          ))

  footer : length whole - 16 ≡ length stub + length bytes
  footer = omega (arith, length-whole)

  not_short : ltb (length whole) 16 ≡ false
  not_short = ground (arith, length-whole)

  in_limit : (n max : ℕ) → n ≤ max → ltb max n ≡ false
  in_limit n max h = ground arith

  start : (a b : ℕ) → a + b - b ≡ a
  start a b = omega arith

  extract-embedded :
      length bytes ≤ max_tap_payload_bytes → extract crates whole ≡ decode crates bytes
  unfolding extract
  extract-embedded h = rw (
    not_short,
    footer,
    drop_length,
    text_eq_same end_magic,
    drop_footer,
    take_exactly 8 (to_le_bytes 8 (length bytes)) end_magic (length-to_le_bytes 8 (length bytes)),
    from_le_bytes-to_le_bytes 8 (length bytes) (omega (arith, h)),
    in_limit (length bytes) max_tap_payload_bytes h,
    in_limit (length bytes) (length stub + length bytes) (omega arith),
    start (length stub) (length bytes),
    drop-append stub (bytes ++ trailer),
    take-append bytes trailer,
  )

embed_payload-ok :
    (stub : Text) (r : Result PackageError Text) (out : Text)
    → embed_payload stub r ≡ ok out
    → (bytes : Text) × ((r ≡ ok bytes)
        × (out ≡ stub ++ (bytes ++ (to_le_bytes 8 (length bytes) ++ end_magic))))
embed_payload-ok stub (ok b) out h = (b, (refl, cc))
embed_payload-ok stub (err b) out h = cc

-- An executable that a package was embedded into gives the package back, whatever stub it
-- begins with, when the manifest names the hash of the bundle.
pub extract-embed_into :
    (crates : Crates) (tap : Tap) (stub out : Text)
    → ReadsBack crates
    → tap.manifest.bundle_hash ≡ bundle_hash crates tap.bundle
    → embed_into crates tap stub ≡ ok out
    → extract crates out ≡ ok tap
unfolding embed_into
extract-embed_into crates tap stub out law hash h =
    let written = embed_payload-ok stub (encode crates tap) out h in
    let read = decode-encode crates law tap written.0 hash written.1.0 in
    ap (extract crates) written.1.1 ∙ extract-embedded crates stub written.0 read.1 ∙ read.0
