-- ===== src/Package/Reading.antt =====
-- crates/tysel-package/src/tap.rs: what the envelope's readers take off what was written.
use tysel.Base.{
  ℕ, ◌+◌, ◌^◌, ◌≤◌, ◌<◌, ltb, Text, List, [], ◌∷◌, ◌++◌, length, length-append, take-append,
  drop-append, append_nil, false, some, ok, ◌≡◌, refl, sym, ap, ◌∙◌, arith, to_le_bytes,
  length-to_le_bytes, from_le_bytes-to_le_bytes,
}
use tysel.Package.{tap_version_now}
use tysel.Package.Envelope.{take_bytes, read_version, read_usize, total_length, payload}

enough : (n m : ℕ) → n ≤ m → ltb m n ≡ false
enough n m h = ground arith

pub take_bytes-append :
    (n : ℕ) (bytes rest : Text) → length bytes ≡ n → take_bytes n (bytes ++ rest) ≡ (rest, ok bytes)
unfolding take_bytes
take_bytes-append n bytes rest h = rw (
  sym h,
  enough (length bytes) (length (bytes ++ rest)) (omega (arith, length-append bytes rest)),
  take-append bytes rest,
  drop-append bytes rest,
)

pub take_bytes_all : (bytes : Text) → take_bytes (length bytes) bytes ≡ ([], ok bytes)
take_bytes_all bytes =
    ap (take_bytes (length bytes)) (sym (append_nil bytes))
    ∙ take_bytes-append (length bytes) bytes [] refl

pub read_version-append :
    (v : ℕ) (rest : Text) → v < 2 ^ 32 → read_version (to_le_bytes 4 v ++ rest) ≡ (rest, ok v)
unfolding read_version
read_version-append v rest h = rw (
  take_bytes-append 4 (to_le_bytes 4 v) rest (length-to_le_bytes 4 v),
  from_le_bytes-to_le_bytes 4 v h,
)

pub read_usize-append :
    (n : ℕ) (rest : Text) → n < 2 ^ 64 → read_usize (to_le_bytes 8 n ++ rest) ≡ (rest, ok n)
unfolding read_usize
read_usize-append n rest h = rw (
  take_bytes-append 8 (to_le_bytes 8 n) rest (length-to_le_bytes 8 n),
  from_le_bytes-to_le_bytes 8 n h,
)

abbrev pub sum_of : List Text → ℕ
sum_of [] = 0
sum_of (part ∷ parts) = length part + sum_of parts

pub total_length-sum :
    (parts : List Text) (n m : ℕ) → total_length parts n ≡ some m → m ≡ n + sum_of parts
total_length-sum [] n m h = ground arith
total_length-sum (part ∷ parts) n m h = ground (arith, total_length-sum parts (n + length part) m)

length-field :
    (width n : ℕ) (rest : Text) → length (to_le_bytes width n ++ rest) ≡ width + length rest
length-field width n rest =
    omega (arith, length-append (to_le_bytes width n) rest, length-to_le_bytes width n)

pub length-payload :
    (manifest bundle source_map index component_data : Text)
    → length (payload manifest bundle source_map index component_data)
      ≡ 52 + sum_of (manifest ∷ bundle ∷ source_map ∷ index ∷ component_data ∷ [])
length-payload manifest bundle source_map index component_data =
    let parts4 = index ++ component_data in
    let parts = manifest ++ (bundle ++ (source_map ++ parts4)) in
    let f5 = to_le_bytes 8 (length component_data) ++ parts in
    let f4 = to_le_bytes 8 (length index) ++ f5 in
    let f3 = to_le_bytes 8 (length source_map) ++ f4 in
    let f2 = to_le_bytes 8 (length bundle) ++ f3 in
    omega (
      arith,
      length-field 4 tap_version_now (to_le_bytes 8 (length manifest) ++ f2),
      length-field 8 (length manifest) f2,
      length-field 8 (length bundle) f3,
      length-field 8 (length source_map) f4,
      length-field 8 (length index) f5,
      length-field 8 (length component_data) parts,
      length-append manifest (bundle ++ (source_map ++ parts4)),
      length-append bundle (source_map ++ parts4),
      length-append source_map parts4,
      length-append index component_data,
    )
