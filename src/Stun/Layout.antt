-- ===== src/Stun/Layout.antt =====
-- The bytes that StunMessage::write makes of well-formed attributes.
use grtcserver.Base.{
  ℕ, ◌+◌, ◌%◌, ◌^◌, ◌≤◌, ◌<◌, ◌≡◌, refl, ◌≢◌, List, [], ◌∷◌, ◌++◌, some, arith, length,
  length-append, length-replicate, All, append_assoc, All-append, take-all, bit_xor, ◌/◌, ◌==◌,
  Bool-cases, inl, inr, >>=-eq-some,
}
use grtcserver.Wire.{Wire, IsWire}
use grtcserver.Stun.{
  StunAttribute, StunMessage, StunAttributeValueType, AttributeValue, byte_string, uint32, uint64,
  address, xor_address, error_code, padded, padding, write_value, SocketAddress, address_body,
  AddressFamily, af_inet, af_inet6, af_unspec, address_length, xor_bytes, write_address,
  write_xor_address, k_stun_magic_cookie,
}
use grtcserver.Stun.Message.{
  get_attribute_value_type, attribute_bytes, write_attribute, write_attributes, add_attribute,
  header,
}

-- An address that `write` can put on the wire.
abbrev pub IsAddress : SocketAddress → AddressFamily → Type 0
IsAddress a af_inet = length a.host ≡ 4
IsAddress a af_inet6 = length a.host ≡ 16
IsAddress a af_unspec = ⊥

-- The value fits the attribute's type and length: what `read` knows the type as, it is.
abbrev pub IsFit : ℕ → ℕ → AttributeValue → Type 0
IsFit type n (byte_string bytes) =
    (length bytes ≡ n) × (get_attribute_value_type type ≢ StunAttributeValueType.uint32_value)
IsFit type n (uint32 bits) =
    (n ≡ 4)
    × (bits < 2 ^ 32)
    × (get_attribute_value_type type ≢ StunAttributeValueType.byte_string_value)
IsFit type n (uint64 bits) =
    (n ≡ 8) × (get_attribute_value_type type ≡ StunAttributeValueType.unknown)
IsFit type n (address a) =
    IsAddress a a.family
    × (n ≡ address_length a.family)
    × (get_attribute_value_type type ≡ StunAttributeValueType.unknown)
IsFit type n (xor_address a) =
    (a.family ≡ af_inet)
    × (length a.host ≡ 4)
    × (n ≡ 8)
    × (get_attribute_value_type type ≡ StunAttributeValueType.unknown)
IsFit type n (error_code cls number reason) =
    (n ≡ 4 + length reason) × (get_attribute_value_type type ≡ StunAttributeValueType.unknown)

pub record IsSound (a : StunAttribute) : Type 0 where
  pub type_fits : a.type < 2 ^ 16
  pub length_fits : a.length ≤ 65532
  pub fit : IsFit a.type a.length a.value

abbrev pub padded_sizes : List StunAttribute → ℕ
padded_sizes [] = 0
padded_sizes (a ∷ xs) = padded a.length + 4 + padded_sizes xs

-- The invariant of a message under construction.
pub record IsValid (m : StunMessage) : Type 0 where
  pub sound : All IsSound m.attrs
  pub sized : m.length ≡ padded_sizes m.attrs
  pub fits : m.length < 2 ^ 16
  pub type_fits : m.type < 2 ^ 16
  pub id_length : length m.transaction_id ≡ 12

pub padded_aligned : (n : ℕ) → padded n % 4 ≡ 0
unfolding padded
padded_aligned n = ground arith

pub padded-fits : (n : ℕ) → n ≤ 65532 → (n ≤ padded n) × (padded n ≤ 65532)
unfolding padded
padded-fits n h = ground arith

pub padded_sizes-aligned : (xs : List StunAttribute) → padded_sizes xs % 4 ≡ 0
padded_sizes-aligned [] = refl
padded_sizes-aligned (a ∷ xs) = omega (arith, padded_sizes-aligned xs, padded_aligned a.length)

pub padded_sizes-append :
    (xs ys : List StunAttribute) → padded_sizes (xs ++ ys) ≡ padded_sizes xs + padded_sizes ys
padded_sizes-append [] ys = omega arith
padded_sizes-append (a ∷ xs) ys = omega (arith, padded_sizes-append xs ys)

-- Adding a sound attribute to a valid message keeps it valid, with _length the sum of the padded
-- attributes and a multiple of 4, as long as that sum fits 16 bits.
pub add_attribute-IsValid :
    (m : StunMessage) (a : StunAttribute)
    → IsValid m
    → IsSound a
    → m.length + (padded a.length + 4) < 2 ^ 16
    → IsValid (add_attribute m a) × ((add_attribute m a).length % 4 ≡ 0)
unfolding add_attribute
add_attribute-IsValid m a v s h = (
  record {
    sound = All-append IsSound m.attrs (a ∷ []) v.sound (s, tt);
    sized = sized;
    fits = omega arith;
    type_fits = v.type_fits;
    id_length = v.id_length;
  },
  omega (arith, padded_sizes-aligned m.attrs, padded_aligned a.length, v.sized),
)
  where
    sized : (m.length + (padded a.length + 4)) % 2 ^ 16 ≡ padded_sizes (m.attrs ++ (a ∷ []))
    sized = omega (arith, padded_sizes-append m.attrs (a ∷ []), v.sized)

module _ (w : Wire) (laws : IsWire w) where
  open laws use {
    length-write_uint8, length-write_uint16, length-write_uint32, length-write_uint64,
    write_bytes_lem,
  }

  length-padding : (n : ℕ) → n + length (padding w n) ≡ padded n
  unfolding padding padded
  length-padding n = elim (Bool-cases (n % 4 == 0)) [
    | inl e ↦ rw e (omega arith)
    | inr e ↦ rw (e, write_bytes_lem, length-replicate) refl
  ]

  length-xor_bytes : (xs ys : List ℕ) → length xs ≡ length ys → length (xor_bytes xs ys) ≡ length xs
  unfolding xor_bytes
  length-xor_bytes [] ys h = refl
  length-xor_bytes (x ∷ xs) [] h = absurd (omega arith)
  length-xor_bytes (x ∷ xs) (y ∷ ys) h = omega (arith, length-xor_bytes xs ys (omega arith))

  length-address_body :
      (family port : ℕ) (host : List ℕ) → length (address_body w family port host) ≡ 4 + length host
  length-address_body family port host =
      simp (length-append, length-write_uint8, length-write_uint16, write_bytes_lem) (omega arith)

  write_address_length :
      (f : AddressFamily) (a : SocketAddress)
      → a.family ≡ f
      → IsAddress a f
      → (v : List ℕ) × (write_address w a ≡ some v) × (length v ≡ padded (address_length f))
  unfolding write_address address_length padded
  write_address_length af_inet a e h = (
    address_body w 1 a.port a.host,
    rw (e, write_address, e),
    rw length-address_body (omega arith),
  )
  write_address_length af_inet6 a e h = (
    address_body w 2 a.port a.host,
    rw (e, write_address, e),
    rw length-address_body (omega arith),
  )
  write_address_length af_unspec a e h = elim h [ ]

  write_xor_address_length :
      (a : SocketAddress)
      → a.family ≡ af_inet
      → length a.host ≡ 4
      → (v : List ℕ) × (write_xor_address w a ≡ some v) × (length v ≡ 8)
  unfolding write_xor_address
  write_xor_address_length a e h =
      let mask : List ℕ = w.write_uint32 k_stun_magic_cookie in
      (
        address_body w 1 (bit_xor a.port (k_stun_magic_cookie / 2 ^ 16)) (xor_bytes a.host mask),
        rw (e, write_xor_address, e),
        rw
            (
              length-address_body,
              length-xor_bytes a.host mask (omega (arith, length-write_uint32 k_stun_magic_cookie)),
            )
            (omega arith),
      )

  write_value_length :
      (type n : ℕ) (x : AttributeValue)
      → IsFit type n x
      → (v : List ℕ) × (write_value w n x ≡ some v) × (length v ≡ padded n)
  unfolding write_value
  write_value_length type n (byte_string bytes) (e, _) =
      (_, refl, rw (take-all n bytes e, write_bytes_lem bytes, length-append, e) (length-padding n))
  write_value_length type n (uint32 bits) (e, _, _) =
      (_, refl, rw (e, length-write_uint32) (unfold padded in refl))
  write_value_length type n (uint64 bits) (e, _) =
      (_, refl, rw (e, length-write_uint64) (unfold padded in refl))
  write_value_length type n (address a) (h, e, _) = rw e (write_address_length a.family a refl h)
  write_value_length type n (xor_address a) (f, h, e, _) =
      let (v, written, size) = write_xor_address_length a f h in
      (v, written, rw e (unfold padded in size))
  write_value_length type n (error_code cls number reason) (e, _) = (
    _,
    refl,
    rw (length-append, length-append, length-write_uint32, write_bytes_lem reason, e)
        (omega (arith, length-padding (4 + length reason))),
  )

  -- A sound attribute is written, on 4 bytes and its padded length.
  pub write_value_size :
      (a : StunAttribute)
      → IsSound a
      → (v : List ℕ) × (write_value w a.length a.value ≡ some v) × (length v ≡ padded a.length)
  write_value_size a s = write_value_length a.type a.length a.value s.fit

  -- So are a list of them, on the sum of the sizes.
  pub write_attributes_size :
      (xs : List StunAttribute)
      → All IsSound xs
      → (v : List ℕ) × (write_attributes w xs ≡ some v) × (length v ≡ padded_sizes xs)
  unfolding write_attributes
  write_attributes_size [] h = ([], refl, refl)
  write_attributes_size (a ∷ xs) (s, h) =
      let (v, written, size) = write_value_size a s in
      let (vs, rest, sizes) = write_attributes_size xs h in
      (
        attribute_bytes w a v ++ vs,
        rw (written, rest),
        simp (length-append, length-write_uint16) (omega arith),
      )

  pub write_attributes-append :
      (xs ys : List StunAttribute) (v u : List ℕ)
      → write_attributes w xs ≡ some v
      → write_attributes w ys ≡ some u
      → write_attributes w (xs ++ ys) ≡ some (v ++ u)
  unfolding write_attributes
  write_attributes-append [] ys v u e f = rw f (ground arith)
  write_attributes-append (a ∷ xs) ys v u e f =
      let (first, p, rest) = >>=-eq-some (write_attribute w a) _ e in
      let (vs, q, total) = >>=-eq-some (write_attributes w xs) _ rest in
      rw (p, write_attributes-append xs ys vs u q f) (ground (arith, append_assoc first vs u))

  pub length-header : (m : StunMessage) → length m.transaction_id ≡ 12 → length (header w m) ≡ 20
  unfolding header
  length-header m h =
      simp (length-append, length-write_uint16, length-write_uint32, write_bytes_lem) (omega arith)
