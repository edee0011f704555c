-- ===== src/Package/Paths.antt =====
-- crates/tysel-package/src/tap.rs: from_path reads what extract reads.
use tysel.Base.{
  ℕ, zero, suc, ◌+◌, ◌-◌, ◌≤◌, ltb, if◌then◌else◌, Text, codes, text_eq, [], ◌∷◌, length, take,
  drop, Bool, true, false, not, ok, err, ◌≡◌, refl, arith, Bool-cases, inl, inr, from_le_bytes,
}
use tysel.Package.{missing_payload, invalid, Crates, max_tap_payload_bytes, end_magic}
use tysel.Package.Executables.{extract, extract_payload, from_path, read_exact_at, decode_read}

length-drop : (n : ℕ) (xs : Text) → length (drop n xs) ≡ length xs - n
length-drop zero xs = omega arith
length-drop (suc n) [] = omega arith
length-drop (suc n) (x ∷ xs) = omega (arith, length-drop n xs)

zero_add : (m : ℕ) → 0 + m ≡ m
zero_add m = omega arith

suc_add : (n m : ℕ) → suc n + m ≡ suc (n + m)
suc_add n m = omega arith

drop_nil : (m : ℕ) → drop {A = ℕ} m [] ≡ []
drop_nil zero = refl
drop_nil (suc m) = refl

drop-drop : (m n : ℕ) (xs : Text) → drop m (drop n xs) ≡ drop (n + m) xs
drop-drop m zero xs = rw (zero_add m)
drop-drop m (suc n) [] = rw (suc_add n m, drop_nil m)
drop-drop m (suc n) (x ∷ xs) = rw (suc_add n m, drop-drop m n xs)

take_full : (n : ℕ) (xs : Text) → length xs ≤ n → take n xs ≡ xs
take_full zero [] h = refl
take_full zero (x ∷ xs) h = ground (arith, h)
take_full (suc n) [] h = refl
take_full (suc n) (x ∷ xs) h = rw (take_full n xs (omega (arith, h)))

not_lt : (n m : ℕ) → n ≤ m → ltb m n ≡ false
not_lt n m h = ground arith

not_lt→le : (n m : ℕ) → ltb n m ≡ false → m ≤ n
not_lt→le n m h = ground arith

-- The bytes that `read_exact` reads where there are enough.
read_exact_at-ok :
    (offset n : ℕ) (file : Text)
    → n ≤ length file - offset
    → read_exact_at offset n file ≡ ok (take n (drop offset file))
read_exact_at-ok offset n file h =
    rw (not_lt n (length (drop offset file)) (omega (arith, length-drop offset file)))

-- The reads of `from_path` and the slices of `extract`, once the last 16 bytes are known.
read_payload-slice :
    (crates : Crates) (file : Text) (payload_len : ℕ) (is_end : Bool)
    → 16 ≤ length file
    → (if not is_end
        then err missing_payload
        else if ltb max_tap_payload_bytes payload_len
        then err (invalid (codes "tap payload exceeds size limit"))
        else if ltb (length file - 16) payload_len
        then err (invalid (codes "payload length exceeds file"))
        else decode_read crates (read_exact_at (length file - 16 - payload_len) payload_len file))
      ≡ (if not is_end
          then err missing_payload
          else extract_payload crates (length file - 16) payload_len file)
read_payload-slice crates file payload_len false h = refl
read_payload-slice crates file payload_len true h =
    elim (Bool-cases (ltb (length file - 16) payload_len)) [
      | inl over ↦ rw over
      | inr under ↦ rw (
        under,
        read_exact_at-ok (length file - 16 - payload_len) payload_len file
            (omega (arith, h, not_lt→le (length file - 16) payload_len under)),
      )
    ]

-- A package is read from a file exactly as it is extracted from the bytes of the file, whatever
-- they are: the same package or the same error.
pub from_path-extract :
    (crates : Crates) (file : Text) → from_path crates file ≡ extract crates file
unfolding from_path extract
from_path-extract crates file = elim (Bool-cases (ltb (length file) 16)) [
  | inl short ↦ rw short
  | inr long ↦
      rw
        (
          long,
          read_exact_at-ok (length file - 16) 16 file
              (omega (arith, not_lt→le (length file) 16 long)),
          take_full 16 (drop (length file - 16) file)
              (omega (arith, length-drop (length file - 16) file, not_lt→le (length file) 16 long)),
          drop-drop 8 (length file - 16) file,
        )
        (read_payload-slice crates file (from_le_bytes (take 8 (drop (length file - 16) file)))
          (text_eq (drop (length file - 16 + 8) file) end_magic) (not_lt→le (length file) 16 long))
]
