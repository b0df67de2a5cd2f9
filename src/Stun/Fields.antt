-- ===== src/Stun/Fields.antt =====
-- Fields read by their position in the bytes of a message: the header's length and magic cookie,
-- and the type, length and value of an attribute.
use grtcserver.Base.{
  ℕ, ◌+◌, ◌^◌, ◌<◌, ◌≡◌, List, ◌++◌, arith, length, drop, drop-append, length-append, append_assoc,
}
use grtcserver.Wire.{Wire, IsWire}
use grtcserver.Stun.{StunAttribute, StunMessage, k_stun_magic_cookie}
use grtcserver.Stun.Message.{header, attribute_bytes}

module _ (w : Wire) (laws : IsWire w) where
  open laws use {length-write_uint16, length-write_uint32, get_be16-write, get_be32-write}

  two_fields : (a b : ℕ) → length (w.write_uint16 a ++ w.write_uint16 b) ≡ 4
  two_fields a b = simp (length-append, length-write_uint16) (omega arith)

  pub header_length :
      (m : StunMessage) (r : List ℕ)
      → m.length < 2 ^ 16
      → w.get_be16 (drop 2 (header w m ++ r)) ≡ m.length
  unfolding header
  header_length m r h = rw (
    append_assoc,
    drop-append 2 (w.write_uint16 m.type) _ (length-write_uint16 _),
    append_assoc,
    get_be16-write m.length _ h,
  )

  pub header_cookie :
      (m : StunMessage) (r : List ℕ) → w.get_be32 (drop 4 (header w m ++ r)) ≡ k_stun_magic_cookie
  unfolding header
  header_cookie m r = rw (
    append_assoc,
    append_assoc (w.write_uint16 m.length),
    ← append_assoc (w.write_uint16 m.type),
    drop-append 4 (w.write_uint16 m.type ++ w.write_uint16 m.length) _ (two_fields _ _),
    append_assoc,
    get_be32-write k_stun_magic_cookie _ (omega arith),
  )

  pub attribute_type :
      (a : StunAttribute) (v r : List ℕ)
      → a.type < 2 ^ 16
      → w.get_be16 (attribute_bytes w a v ++ r) ≡ a.type
  attribute_type a v r h = rw (append_assoc, get_be16-write a.type _ h)

  pub attribute_length :
      (a : StunAttribute) (v r : List ℕ)
      → a.length < 2 ^ 16
      → w.get_be16 (drop 2 (attribute_bytes w a v ++ r)) ≡ a.length
  attribute_length a v r h = rw (
    append_assoc,
    drop-append 2 (w.write_uint16 a.type) _ (length-write_uint16 _),
    append_assoc,
    get_be16-write a.length _ h,
  )

  pub after_fields :
      (a b : ℕ) (v r : List ℕ)
      → drop 4 ((w.write_uint16 a ++ (w.write_uint16 b ++ v)) ++ r) ≡ v ++ r
  after_fields a b v r = rw (
    append_assoc,
    append_assoc (w.write_uint16 b),
    ← append_assoc (w.write_uint16 a),
    drop-append 4 (w.write_uint16 a ++ w.write_uint16 b) _ (two_fields _ _),
  )

  pub attribute_value :
      (a : StunAttribute) (v r : List ℕ) → drop 4 (attribute_bytes w a v ++ r) ≡ v ++ r
  attribute_value a v r = after_fields a.type a.length v r

  pub length-attribute_bytes :
      (a : StunAttribute) (v : List ℕ) → length (attribute_bytes w a v) ≡ 4 + length v
  length-attribute_bytes a v = simp (length-append, length-write_uint16) (omega arith)
