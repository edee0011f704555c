-- ===== src/Package.antt =====
-- crates/tysel-package/src/tap.rs: the types of the TAP format, its limits and errors.
-- SHA-256, semantic versions and JSON come from other crates and are the interface `Crates`.
pub mod Components
pub mod Envelope
pub mod Executables
pub mod Reports
pub mod Paths
pub mod Decisions
pub mod Integrity
pub mod Blobs
pub mod Entries
pub mod Reading
pub mod Writing
pub mod RoundTrip
pub mod Embedding
use tysel.Base.{
  ℕ, zero, suc, ◌+◌, ◌/◌, ◌%◌, ◌==◌, ltb, leb, if◌then◌else◌, Text, codes, List, [], ◌∷◌, ◌++◌,
  Option, none, some, Result, Bool,
}

abbrev pub tap_version_now : ℕ
tap_version_now = 5

abbrev pub min_supported_tap_version : ℕ
min_supported_tap_version = 1

abbrev pub component_abi_version : Text
component_abi_version = codes "0.4.0"

abbrev pub max_tap_payload_bytes : ℕ
max_tap_payload_bytes = 536870912

abbrev pub max_packaged_components : ℕ
max_packaged_components = 64

abbrev pub max_aot_artifacts_per_component : ℕ
max_aot_artifacts_per_component = 16

abbrev pub tap_magic : Text
tap_magic = codes "TYSELTAP"

abbrev pub end_magic : Text
end_magic = codes "TYSELEND"

abbrev pub max_component_index_bytes : ℕ
max_component_index_bytes = 1048576

pub data PackageError : Type 0 where
  io : Text → PackageError
  invalid : Text → PackageError
  missing_payload : PackageError
  version : ℕ → PackageError
  json : Text → PackageError

pub record PackageManifest : Type 0 where
  pub format_version : ℕ
  pub runtime_version : Text
  pub application_id : Text
  pub entrypoint : Text
  pub execution_profile : Text
  pub listen : Text
  pub memory_limit_bytes : ℕ
  pub cpu_ms_per_turn : ℕ
  pub request_timeout_ms : ℕ
  pub bundle_hash : Text
  pub max_request_bytes : ℕ
  pub max_response_bytes : ℕ
  pub websocket : Bool
  pub workers : ℕ
  pub max_in_flight : ℕ
  pub http1 : Bool
  pub http2 : Bool
  pub sqlite_path : Text
  pub secret_names : List Text
  pub fetch_hosts : List Text
  pub postgres : List Text
  pub redis : List Text
  pub fs_read : List Text
  pub fs_write : List Text
  pub json_logs : Bool

pub record PackagedAot : Type 0 where
  pub target : Text
  pub wasmtime_version : Text
  pub engine_compatibility_hash : ℕ
  pub source_sha256 : Text
  pub bytes : Text

pub record PackagedComponent : Type 0 where
  pub name : Text
  pub abi_version : Text
  pub source : Text
  pub aot : List PackagedAot

pub record BlobIndex : Type 0 where
  pub offset : ℕ
  pub length : ℕ
  pub sha256 : Text

pub record AotIndexEntry : Type 0 where
  pub target : Text
  pub wasmtime_version : Text
  pub engine_compatibility_hash : ℕ
  pub source_sha256 : Text
  pub blob : BlobIndex

pub record ComponentIndexEntry : Type 0 where
  pub name : Text
  pub abi_version : Text
  pub source : BlobIndex
  pub aot : List AotIndexEntry

pub record Tap : Type 0 where
  pub manifest : PackageManifest
  pub bundle : Text
  pub source_map : Text
  pub components : List PackagedComponent

-- `sha2`, `semver` and `serde_json`, which the format calls; an error of `serde_json` is its text.
pub record Crates : Type 0 where
  pub digest : Text → Text
  pub is_version : Text → Bool
  pub manifest_to_vec : PackageManifest → Result Text Text
  pub manifest_from_slice : Text → Result Text PackageManifest
  pub index_to_vec : List ComponentIndexEntry → Result Text Text
  pub index_from_slice : Text → Result Text (List ComponentIndexEntry)

-- The decimal digits that `format!` prints for an integer of at most 64 bits.
abbrev pub decimal_on : ℕ → ℕ → Text → Text
decimal_on zero n digits = digits
decimal_on (suc fuel) n digits =
    let rest = decimal_on fuel (n / 10) ((48 + n % 10) ∷ digits) in
    if ltb n 10 then (48 + n) ∷ digits else rest

abbrev pub decimal : ℕ → Text
decimal n = decimal_on 20 n []

-- One digit of `hex_encode`.
abbrev pub hex_digit : ℕ → ℕ
hex_digit d = if ltb d 10 then 48 + d else 87 + d

abbrev pub hex_encode : Text → Text
hex_encode [] = []
hex_encode (b ∷ bs) = hex_digit (b / 16) ∷ hex_digit (b % 16) ∷ hex_encode bs
