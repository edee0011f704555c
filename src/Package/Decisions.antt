-- ===== src/Package/Decisions.antt =====
-- crates/tysel-package/src/tap.rs: the compatibility report decides as the decoder does.
use tysel.Base.{
  ℕ, ltb, if◌then◌else◌, Text, codes, length, Bool, true, false, Result, ok, err, then_on, ◌≡◌,
  refl, ap, arith,
}
use tysel.Package.{PackageError, invalid, version, Tap, Crates, max_tap_payload_bytes}
use tysel.Package.Envelope.{tap_version, decode, decode_rest, decode_version, is_supported}
use tysel.Package.Reports.{compatibility_report, report_version_read}

abbrev pub is_ok : {A : Type 0} → Result PackageError A → Bool
is_ok (ok a) = true
is_ok (err e) = false

decode_version-unsupported :
    (crates : Crates) (v : ℕ) (s : Text)
    → is_supported v ≡ false
    → (decode_version crates v s).1 ≡ err (version v)
unfolding decode_version
decode_version-unsupported crates v s h = rw h

report_compatible :
    (v : ℕ) (decoded : Result PackageError Tap)
    → (is_supported v ≡ false → is_ok decoded ≡ false)
    → (report_version_read (ok v) decoded).compatible ≡ is_ok decoded
report_compatible v (ok tap) h = ground arith
report_compatible v (err e) h = ground arith

decided :
    (crates : Crates) (start : Text × Result PackageError ℕ) (is_large : Bool)
    → (report_version_read start.1 (
        if is_large
        then err (invalid (codes "tap payload exceeds size limit"))
        else (then_on {B = Text × Result PackageError Tap} start
            (decode_version crates)
            (λ e s. (s, err e))).1)).compatible
      ≡ is_ok (
          if is_large
          then err (invalid (codes "tap payload exceeds size limit"))
          else (then_on {B = Text × Result PackageError Tap} start
              (decode_version crates)
              (λ e s. (s, err e))).1)
decided crates (s, err e) true = refl
decided crates (s, err e) false = refl
decided crates (s, ok v) true =
    report_compatible v (err (invalid (codes "tap payload exceeds size limit"))) (λ h. refl)
decided crates (s, ok v) false =
    report_compatible v (decode_version crates v s).1
      (λ h. ap is_ok (decode_version-unsupported crates v s h))

-- A payload is reported compatible exactly when it is decoded.
pub compatibility_report-compatible :
    (crates : Crates) (bytes : Text)
    → (compatibility_report crates bytes).compatible ≡ is_ok (decode crates bytes)
unfolding compatibility_report decode decode_rest
compatibility_report-compatible crates bytes =
    decided crates (tap_version bytes) (ltb max_tap_payload_bytes (length bytes))
