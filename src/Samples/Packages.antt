-- ===== src/Samples/Packages.antt =====
-- Tests of packages: one with a component is embedded into a stub and read back.
use tysel.Base.{
  ◌≡◌, refl, ap, List, [], ◌∷◌, ◌++◌, true, false, Text, codes, text_eq, Result, ok, err,
  to_le_bytes, Result,
}
use native.Mathlib.Decide.{ℕ_discrete}
use tysel.Package.{PackageManifest, ComponentIndexEntry, Tap, Crates}
use tysel.Package.Components.{
  bundle_hash, encode_components, index_of, encode_entries, append_blob, encode_aot,
  validate_components, validate_each,
}
use tysel.Package.Envelope.{encode, decode, new_tap, validate_manifest_contract}
use tysel.Package.Executables.{embed_into, extract, from_path}
use tysel.Package.Entries.{ReadsBack}
use tysel.Package.Embedding.{extract-embed_into}
use tysel.Package.Reports.{compatibility_report}
use tysel.Package.Decisions.{is_ok, compatibility_report-compatible}
use tysel.Package.RoundTrip.{decode-encode}
use tysel.Package.Integrity.{IsIntact, decode-IsIntact}
use tysel.Package.Paths.{from_path-extract}

abbrev sample_manifest : PackageManifest
sample_manifest = record {
  format_version = 1;
  runtime_version = codes "0.1.0";
  application_id = codes "app";
  entrypoint = codes "main";
  execution_profile = codes "service";
  listen = [];
  memory_limit_bytes = 1;
  cpu_ms_per_turn = 1;
  request_timeout_ms = 1;
  bundle_hash = [];
  max_request_bytes = 1;
  max_response_bytes = 1;
  websocket = false;
  workers = 1;
  max_in_flight = 1;
  http1 = true;
  http2 = false;
  sqlite_path = [];
  secret_names = [];
  fetch_hosts = [];
  postgres = [];
  redis = [];
  fs_read = [];
  fs_write = [];
  json_logs = true;
}

abbrev sample_bundle : Text
sample_bundle = codes "js"

-- Crates that know one manifest and one index.
abbrev packed : PackageManifest
packed = record sample_manifest { format_version = 5; bundle_hash = codes "6a73" }

abbrev component_index : List ComponentIndexEntry
component_index =
    record {
      name = codes "c";
      abi_version = codes "0.4.0";
      source = record { offset = 0; length = 2; sha256 = codes "7761" };
      aot = [];
    }
    ∷ []

Manifest-discrete : Discrete PackageManifest
Manifest-discrete = hlevel (ℕ_discrete)

Index-discrete : Discrete (List ComponentIndexEntry)
Index-discrete = hlevel (ℕ_discrete)

known {ℓ} : {P : Type ℓ} → Dec P → Text → Result Text Text
known (yes p) bytes = ok bytes
known (no p) bytes = err []

abbrev sample_crates : Crates
sample_crates = record {
  digest = λ text. text;
  is_version = λ text. true;
  manifest_to_vec = λ m. known (Manifest-discrete packed m) (codes "m");
  manifest_from_slice = λ bytes. ok packed;
  index_to_vec = λ entries. known (Index-discrete component_index entries) (codes "i");
  index_from_slice = λ bytes. ok component_index;
}

known-ok {ℓ} : {P : Type ℓ} (d : Dec P) (bytes written : Text) → known d bytes ≡ ok written → P
unfolding known
known-ok (yes p) bytes written h = p
known-ok (no p) bytes written h = cc

known_yes {ℓ} : {P : Type ℓ} (d : Dec P) (bytes : Text) → P → known d bytes ≡ ok bytes
unfolding known
known_yes (yes p) bytes q = refl
known_yes (no p) bytes q = absurd (p q)

sample_crates-ReadsBack : ReadsBack sample_crates
sample_crates-ReadsBack = record {
  manifest_read = λ m bytes h. ap ok (known-ok (Manifest-discrete packed m) (codes "m") bytes h);
  index_read = λ entries bytes h.
      ap ok (known-ok (Index-discrete component_index entries) (codes "i") bytes h);
}

abbrev sample_tap : Tap
sample_tap = record (new_tap sample_crates sample_manifest sample_bundle []) {
  components =
      record { name = codes "c"; abi_version = codes "0.4.0"; source = codes "wa"; aot = [] } ∷ [];
}

abbrev executable : Text
executable =
    codes "ELFTYSELTAP"
    ++ (5
        ∷ 0
        ∷ 0
        ∷ 0
        ∷ 1
        ∷ 0
        ∷ 0
        ∷ 0
        ∷ 0
        ∷ 0
        ∷ 0
        ∷ 0
        ∷ 2
        ∷ 0
        ∷ 0
        ∷ 0
        ∷ 0
        ∷ 0
        ∷ 0
        ∷ 0
        ∷ 0
        ∷ 0
        ∷ 0
        ∷ 0
        ∷ 0
        ∷ 0
        ∷ 0
        ∷ 0
        ∷ 1
        ∷ 0
        ∷ 0
        ∷ 0
        ∷ 0
        ∷ 0
        ∷ 0
        ∷ 0
        ∷ 2
        ∷ 0
        ∷ 0
        ∷ 0
        ∷ 0
        ∷ 0
        ∷ 0
        ∷ 0
        ∷ (codes "mjsiwa" ++ (58 ∷ 0 ∷ 0 ∷ 0 ∷ 0 ∷ 0 ∷ 0 ∷ 0 ∷ codes "TYSELEND")))

has_hash : sample_tap.manifest.bundle_hash ≡ bundle_hash sample_crates sample_tap.bundle
has_hash = refl

written : embed_into sample_crates sample_tap (codes "ELF") ≡ ok executable
unfolding embed_into encode encode_components index_of encode_entries append_blob encode_aot
    validate_components validate_each validate_manifest_contract bundle_hash text_eq to_le_bytes
    known Manifest-discrete Index-discrete ℕ_discrete
written = refl

extract-embed_into_example : extract sample_crates executable ≡ ok sample_tap
extract-embed_into_example =
    extract-embed_into sample_crates sample_tap (codes "ELF") executable sample_crates-ReadsBack
      has_hash written

from_path-extract_example : from_path sample_crates executable ≡ extract sample_crates executable
from_path-extract_example = from_path-extract sample_crates executable

compatibility_report-compatible_example :
    (compatibility_report sample_crates executable).compatible
    ≡ is_ok (decode sample_crates executable)
compatibility_report-compatible_example = compatibility_report-compatible sample_crates executable

abbrev encoded : Text
encoded =
    codes "TYSELTAP"
    ++ (5
        ∷ 0
        ∷ 0
        ∷ 0
        ∷ 1
        ∷ 0
        ∷ 0
        ∷ 0
        ∷ 0
        ∷ 0
        ∷ 0
        ∷ 0
        ∷ 2
        ∷ 0
        ∷ 0
        ∷ 0
        ∷ 0
        ∷ 0
        ∷ 0
        ∷ 0
        ∷ 0
        ∷ 0
        ∷ 0
        ∷ 0
        ∷ 0
        ∷ 0
        ∷ 0
        ∷ 0
        ∷ 1
        ∷ 0
        ∷ 0
        ∷ 0
        ∷ 0
        ∷ 0
        ∷ 0
        ∷ 0
        ∷ 2
        ∷ 0
        ∷ 0
        ∷ 0
        ∷ 0
        ∷ 0
        ∷ 0
        ∷ 0
        ∷ codes "mjsiwa")

encodes : encode sample_crates sample_tap ≡ ok encoded
unfolding encode encode_components index_of encode_entries append_blob encode_aot
    validate_components validate_each validate_manifest_contract bundle_hash text_eq to_le_bytes
    known Manifest-discrete Index-discrete ℕ_discrete
encodes = refl

decodes : decode sample_crates encoded ≡ ok sample_tap
decodes =
    (decode-encode sample_crates sample_crates-ReadsBack sample_tap encoded has_hash encodes).0

decode-IsIntact_example : IsIntact sample_crates sample_tap
decode-IsIntact_example = decode-IsIntact sample_crates encoded sample_tap decodes
