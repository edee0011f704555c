-- ===== src/Package/Reports.antt =====
-- crates/tysel-package/src/tap.rs: the compatibility report of a payload.
-- A `BTreeSet` of texts is the list of its texts in order, each once.
use tysel.Base.{
  ℕ, zero, suc, ltb, leb, ◌==◌, if◌then◌else◌, Text, codes, text_eq, List, [], ◌∷◌, ◌++◌, map,
  length, take, drop, Bool, true, false, ◌&&◌, Option, none, some, Result, ok, err,
}
use tysel.Package.{
  PackageError, io, invalid, missing_payload, version, json, PackagedComponent, Tap, Crates,
  decimal, tap_version_now, min_supported_tap_version,
}
use tysel.Package.Envelope.{tap_version, decode}

pub data TapCompatibilityStatus : Type 0 where
  current legacy unsupported_older unsupported_newer invalid_tap : TapCompatibilityStatus

pub record TapCompatibilityReport : Type 0 where
  pub report_version : ℕ
  pub compatible : Bool
  pub status : TapCompatibilityStatus
  pub reported_version : Option ℕ
  pub minimum_supported_tap_version : ℕ
  pub maximum_supported_tap_version : ℕ
  pub runtime_version : Option Text
  pub execution_profile : Option Text
  pub component_abi_versions : List Text
  pub issues : List Text

abbrev pub max_compatibility_issue_bytes : ℕ
max_compatibility_issue_bytes = 512

-- `PackageError`'s `Display`.
abbrev pub error_text : PackageError → Text
error_text (io e) = codes "io: " ++ e
error_text (invalid e) = codes "invalid tap: " ++ e
error_text missing_payload = codes "executable has no tap payload"
error_text (version v) = codes "unsupported tap version " ++ decimal v
error_text (json e) = codes "json: " ++ e

-- Whether a byte continues a character of UTF-8.
abbrev pub continues : Text → Bool
continues [] = false
continues (b ∷ bs) = leb 128 b && ltb b 192

abbrev pub boundary_before : ℕ → Text → ℕ
boundary_before zero issue = 0
boundary_before (suc end) issue =
    let earlier = boundary_before end issue in
    if continues (drop (suc end) issue) then earlier else suc end

unfoldable pub bounded_compatibility_issue : Text → Text
bounded_compatibility_issue issue =
    if ltb max_compatibility_issue_bytes (length issue)
    then take (boundary_before max_compatibility_issue_bytes issue) issue
    else issue

-- The order of texts by their bytes.
abbrev pub text_lt : Text → Text → Bool
text_lt s [] = false
text_lt [] (b ∷ t) = true
text_lt (a ∷ s) (b ∷ t) = let rest = text_lt s t in if a == b then rest else ltb a b

abbrev pub insert_text : Text → List Text → List Text
insert_text s [] = s ∷ []
insert_text s (t ∷ ts) =
    let rest = insert_text s ts in
    if text_eq s t then t ∷ ts else if text_lt s t then s ∷ t ∷ ts else t ∷ rest

unfoldable pub abi_versions_of : List PackagedComponent → List Text
abi_versions_of [] = []
abi_versions_of (c ∷ cs) = insert_text c.abi_version (abi_versions_of cs)

abbrev pub is_compatible : TapCompatibilityStatus → Bool
is_compatible current = true
is_compatible legacy = true
is_compatible _ = false

abbrev pub abi_versions_in : Option Tap → List Text
abi_versions_in none = []
abi_versions_in (some tap) = abi_versions_of tap.components

abbrev pub runtime_of : Option Tap → Option Text
runtime_of none = none
runtime_of (some tap) = some tap.manifest.runtime_version

abbrev pub profile_of : Option Tap → Option Text
profile_of none = none
profile_of (some tap) = some tap.manifest.execution_profile

abbrev pub report :
    Option ℕ → TapCompatibilityStatus → Option Tap → List Text → TapCompatibilityReport
report v status tap issues = record {
  report_version = 1;
  compatible = is_compatible status;
  status = status;
  reported_version = v;
  minimum_supported_tap_version = min_supported_tap_version;
  maximum_supported_tap_version = tap_version_now;
  runtime_version = runtime_of tap;
  execution_profile = profile_of tap;
  component_abi_versions = abi_versions_in tap;
  issues = map bounded_compatibility_issue issues;
}

abbrev pub report_decoded : ℕ → Result PackageError Tap → TapCompatibilityReport
report_decoded v (ok tap) =
    report (some v) (if v == tap_version_now then current else legacy) (some tap) []
report_decoded v (err e) = report (some v) invalid_tap none (error_text e ∷ [])

abbrev pub report_version_read :
    Result PackageError ℕ → Result PackageError Tap → TapCompatibilityReport
report_version_read (err e) decoded = report none invalid_tap none (error_text e ∷ [])
report_version_read (ok v) decoded =
    if ltb v min_supported_tap_version
    then report (some v) unsupported_older none (
        (codes "tap version "
          ++ (decimal v ++ (codes " predates minimum supported version " ++ decimal 1)))
        ∷ [])
    else if ltb tap_version_now v
    then report (some v) unsupported_newer none (
        (codes "tap version "
          ++ (decimal v ++ (codes " exceeds maximum supported version " ++ decimal 5)))
        ∷ [])
    else report_decoded v decoded

unfoldable pub compatibility_report : Crates → Text → TapCompatibilityReport
compatibility_report crates bytes = report_version_read (tap_version bytes).1 (decode crates bytes)
