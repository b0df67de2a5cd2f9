-- ===== src/Wire.antt =====
-- The calls into rtc_base (no part of this repository): ByteBufferWriter, ByteBufferReader,
-- byte_order.h, crc32.h and message_digest.h. A writer is the list of bytes written so far, and
-- each write appends; a reader is the list of bytes not yet read.
pub mod Sample
use grtcserver.Base.{ℕ, ◌+◌, ◌^◌, ◌<◌, ◌≡◌, List, ◌++◌, Option, some, length}

pub record Wire : Type 0 where
  pub write_uint8 : ℕ → List ℕ
  pub write_uint16 : ℕ → List ℕ
  pub write_uint32 : ℕ → List ℕ
  pub write_uint64 : ℕ → List ℕ
  pub write_bytes : List ℕ → List ℕ  -- WriteBytes, WriteString
  pub read_uint16 : List ℕ → Option (ℕ × List ℕ)
  pub read_uint32 : List ℕ → Option (ℕ × List ℕ)
  pub read_bytes : ℕ → List ℕ → Option (List ℕ × List ℕ)  -- ReadBytes, ReadString
  pub consume : ℕ → List ℕ → Option (List ℕ)
  pub get_be16 : List ℕ → ℕ
  pub get_be32 : List ℕ → ℕ
  pub set_be16 : ℕ → List ℕ  -- the two bytes that SetBE16 stores
  pub compute_crc32 : List ℕ → ℕ
  pub compute_hmac : List ℕ → List ℕ → List ℕ  -- SHA-1; the key, then the text

-- What the code relies on: network byte order, sizes, and that a read gives back what was written.
pub record IsWire (w : Wire) : Type 0 where
  pub length-write_uint8 : (v : ℕ) → length (w.write_uint8 v) ≡ 1
  pub length-write_uint16 : (v : ℕ) → length (w.write_uint16 v) ≡ 2
  pub length-write_uint32 : (v : ℕ) → length (w.write_uint32 v) ≡ 4
  pub length-write_uint64 : (v : ℕ) → length (w.write_uint64 v) ≡ 8
  pub write_bytes_lem : (bs : List ℕ) → w.write_bytes bs ≡ bs
  pub read_uint16-write :
      (v : ℕ) (r : List ℕ) → v < 2 ^ 16 → w.read_uint16 (w.write_uint16 v ++ r) ≡ some (v, r)
  pub read_uint32-write :
      (v : ℕ) (r : List ℕ) → v < 2 ^ 32 → w.read_uint32 (w.write_uint32 v ++ r) ≡ some (v, r)
  pub read_bytes-append : (bs r : List ℕ) → w.read_bytes (length bs) (bs ++ r) ≡ some (bs, r)
  pub consume-append : (bs r : List ℕ) → w.consume (length bs) (bs ++ r) ≡ some r
  pub length-read_uint16 :
      (xs : List ℕ) (v : ℕ) (r : List ℕ)
      → w.read_uint16 xs ≡ some (v, r)
      → (v < 2 ^ 16) × (length xs ≡ 2 + length r)
  pub length-read_uint32 :
      (xs : List ℕ) (v : ℕ) (r : List ℕ)
      → w.read_uint32 xs ≡ some (v, r)
      → (v < 2 ^ 32) × (length xs ≡ 4 + length r)
  pub length-read_bytes :
      (n : ℕ) (xs bs r : List ℕ)
      → w.read_bytes n xs ≡ some (bs, r)
      → (length bs ≡ n) × (length xs ≡ n + length r)
  pub length-consume : (n : ℕ) (xs r : List ℕ) → w.consume n xs ≡ some r → length xs ≡ n + length r
  pub get_be16-write : (v : ℕ) (r : List ℕ) → v < 2 ^ 16 → w.get_be16 (w.write_uint16 v ++ r) ≡ v
  pub get_be32-write : (v : ℕ) (r : List ℕ) → v < 2 ^ 32 → w.get_be32 (w.write_uint32 v ++ r) ≡ v
  pub set_be16_lem : (v : ℕ) → w.set_be16 v ≡ w.write_uint16 v
  pub crc_fits : (bs : List ℕ) → w.compute_crc32 bs < 2 ^ 32
  pub length-compute_hmac : (key text : List ℕ) → length (w.compute_hmac key text) ≡ 20
