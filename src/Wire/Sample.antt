-- ===== src/Wire/Sample.antt =====
-- A concrete wire: big-endian words, a checksum and a digest that add the bytes up. It meets what
-- the code relies on, and the tests run on it.
use grtcserver.Base.{
  ℕ, ◌+◌, ◌*◌, ◌/◌, ◌%◌, ◌^◌, ◌<◌, ◌≡◌, refl, List, [], ◌∷◌, ◌++◌, Option, none, some, arith, leb,
  if◌then◌else◌, length, take, drop, replicate, take-append, drop-append, length-append,
  length-take, length-drop,
}
use grtcserver.Wire.{Wire, IsWire}

abbrev be16 : ℕ → List ℕ
be16 v = v / 256 % 256 ∷ v % 256 ∷ []

abbrev be32 : ℕ → List ℕ
be32 v = v / 2 ^ 24 % 256 ∷ v / 2 ^ 16 % 256 ∷ v / 256 % 256 ∷ v % 256 ∷ []

abbrev read16 : List ℕ → Option (ℕ × List ℕ)
read16 [] = none
read16 (a ∷ []) = none
read16 (a ∷ b ∷ r) = some ((a * 256 + b) % 2 ^ 16, r)

abbrev read32 : List ℕ → Option (ℕ × List ℕ)
read32 [] = none
read32 (a ∷ []) = none
read32 (a ∷ b ∷ []) = none
read32 (a ∷ b ∷ c ∷ []) = none
read32 (a ∷ b ∷ c ∷ d ∷ r) = some ((a * 2 ^ 24 + b * 2 ^ 16 + c * 256 + d) % 2 ^ 32, r)

abbrev number : Option (ℕ × List ℕ) → ℕ
number none = 0
number (some (v, r)) = v

abbrev split_at : ℕ → List ℕ → Option (List ℕ × List ℕ)
split_at n xs = if leb n (length xs) then some (take n xs, drop n xs) else none

abbrev skip : ℕ → List ℕ → Option (List ℕ)
skip n xs = if leb n (length xs) then some (drop n xs) else none

abbrev total : List ℕ → ℕ
total [] = 0
total (x ∷ xs) = x + total xs

abbrev pub sample_wire : Wire
sample_wire = record {
  write_uint8 = λ v. v % 256 ∷ [];
  write_uint16 = be16;
  write_uint32 = be32;
  write_uint64 = λ v. be32 (v / 2 ^ 32) ++ be32 v;
  write_bytes = λ bs. bs;
  read_uint16 = read16;
  read_uint32 = read32;
  read_bytes = split_at;
  consume = skip;
  get_be16 = λ xs. number (read16 xs);
  get_be32 = λ xs. number (read32 xs);
  set_be16 = be16;
  compute_crc32 = λ bs. total bs % 2 ^ 32;
  compute_hmac = λ key text. replicate 20 ((total key + total text) % 256);
}

length-read16 :
    (xs : List ℕ) (v : ℕ) (r : List ℕ)
    → read16 xs ≡ some (v, r)
    → (v < 2 ^ 16) × (length xs ≡ 2 + length r)
length-read16 [] v r e = ground arith
length-read16 (a ∷ []) v r e = ground arith
length-read16 (a ∷ b ∷ xs) v r e = ground arith

length-read32 :
    (xs : List ℕ) (v : ℕ) (r : List ℕ)
    → read32 xs ≡ some (v, r)
    → (v < 2 ^ 32) × (length xs ≡ 4 + length r)
length-read32 [] v r e = ground arith
length-read32 (a ∷ []) v r e = ground arith
length-read32 (a ∷ b ∷ []) v r e = ground arith
length-read32 (a ∷ b ∷ c ∷ []) v r e = ground arith
length-read32 (a ∷ b ∷ c ∷ d ∷ xs) v r e = ground arith

split_at-append : (bs r : List ℕ) → split_at (length bs) (bs ++ r) ≡ some (bs, r)
split_at-append bs r =
    rw (take-append (length bs) bs r refl, drop-append (length bs) bs r refl)
      (ground (arith, length-append bs r))

skip-append : (bs r : List ℕ) → skip (length bs) (bs ++ r) ≡ some r
skip-append bs r = rw (drop-append (length bs) bs r refl) (ground (arith, length-append bs r))

length-split_at :
    (n : ℕ) (xs bs r : List ℕ)
    → split_at n xs ≡ some (bs, r)
    → (length bs ≡ n) × (length xs ≡ n + length r)
length-split_at n xs bs r e = ground (arith, length-take n xs, length-drop n xs)

length-skip : (n : ℕ) (xs r : List ℕ) → skip n xs ≡ some r → length xs ≡ n + length r
length-skip n xs r e = ground (arith, length-drop n xs)

word32 :
    (v : ℕ)
    → v < 2 ^ 32
    → (v / 2 ^ 24 % 256 * 2 ^ 24 + v / 2 ^ 16 % 256 * 2 ^ 16 + v / 256 % 256 * 256 + v % 256)
        % 2 ^ 32
      ≡ v
word32 v h = omega arith

pub sample_wire-IsWire : IsWire sample_wire
sample_wire-IsWire = record {
  length-write_uint8 = λ v. refl;
  length-write_uint16 = λ v. refl;
  length-write_uint32 = λ v. refl;
  length-write_uint64 = λ v. refl;
  write_bytes_lem = λ bs. refl;
  read_uint16-write = λ v r h. ground arith;
  read_uint32-write = λ v r h. ground (arith, word32 v h);
  read_bytes-append = split_at-append;
  consume-append = skip-append;
  length-read_uint16 = length-read16;
  length-read_uint32 = length-read32;
  length-read_bytes = length-split_at;
  length-consume = length-skip;
  get_be16-write = λ v r h. omega arith;
  get_be32-write = λ v r h. word32 v h;
  set_be16_lem = λ v. refl;
  crc_fits = λ bs. omega arith;
  length-compute_hmac = λ key text. refl;
}
