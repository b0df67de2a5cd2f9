-- ===== src/Stun/RoundTrip.antt =====
-- StunMessage::read on the bytes that StunMessage::write makes.
use grtcserver.Base.{
  ℕ, zero, suc, ◌+◌, ◌-◌, ◌%◌, ◌^◌, ◌≤◌, ◌<◌, ◌≡◌, refl, ap, sym, ◌∙◌, List, [], ◌∷◌, ◌++◌, some,
  arith, length, take, take-all, replicate, length-append, length-replicate, All, append_assoc,
  append-nil, ◌==◌, ==-refl, Bool-cases, inl, inr, >>=-eq-some, bit_and, ◌>>=◌, eq_of_some,
}
use grtcserver.Wire.{Wire, IsWire}
use grtcserver.Stun.{
  StunAttribute, StunMessage, StunAttributeValueType, AttributeValue, byte_string, uint32, uint64,
  address, xor_address, error_code, padded, padding, write_value, k_stun_magic_cookie,
}
use grtcserver.Stun.Message.{
  get_attribute_value_type, attribute_bytes, write_attributes, header, write, consume_padding,
  read_byte_string, read_uint32_attribute, skip_attribute, read_attribute, read_round,
  read_attributes, read,
}
use grtcserver.Stun.Layout.{
  IsFit, IsSound, IsValid, padded-fits, write_value_size, write_attributes_size, length-header,
}

-- What the reader keeps of an attribute: the types that it does not know are skipped.
abbrev pub kept_as : StunAttributeValueType → StunAttribute → List StunAttribute
kept_as StunAttributeValueType.unknown a = []
kept_as _ a = a ∷ []

abbrev pub kept : List StunAttribute → List StunAttribute
kept [] = []
kept (a ∷ xs) = kept_as (get_attribute_value_type a.type) a ++ kept xs

abbrev attribute : ℕ → ℕ → AttributeValue → StunAttribute
attribute type n x = record { type = type; length = n; value = x }

module _ (w : Wire) (laws : IsWire w) where
  open laws use {
    length-write_uint16, write_bytes_lem, read_uint16-write, read_uint32-write, read_bytes-append,
    consume-append, get_be32-write, length-write_uint32,
  }

  consume-length : (n : ℕ) (xs rest : List ℕ) → length xs ≡ n → w.consume n (xs ++ rest) ≡ some rest
  consume-length n xs rest e = rw (← e) (consume-append xs rest)

  read_bytes-length :
      (n : ℕ) (xs rest : List ℕ) → length xs ≡ n → w.read_bytes n (xs ++ rest) ≡ some (xs, rest)
  read_bytes-length n xs rest e = rw (← e) (read_bytes-append xs rest)

  consume_padding-padding :
      (n : ℕ) (rest : List ℕ) → consume_padding w n (padding w n ++ rest) ≡ rest
  unfolding consume_padding padding
  consume_padding-padding n rest = elim (Bool-cases (n % 4 == 0)) [
    | inl e ↦ rw e
    | inr e ↦ rw (
      e,
      write_bytes_lem,
      consume-length (4 - n % 4) (replicate (4 - n % 4) 0) rest (length-replicate _ 0),
    )
  ]

  read_byte_string-write :
      (type n : ℕ) (bytes rest : List ℕ)
      → length bytes ≡ n
      → read_byte_string w type n ((w.write_bytes (take n bytes) ++ padding w n) ++ rest)
        ≡ some (attribute type n (byte_string bytes), rest)
  unfolding read_byte_string
  read_byte_string-write type n bytes rest e = rw (
    take-all n bytes e,
    write_bytes_lem bytes,
    append_assoc,
    read_bytes-length n bytes (padding w n ++ rest) e,
    consume_padding-padding,
  )

  read_known_bytes :
      (type n : ℕ) (x : AttributeValue) (v rest : List ℕ)
      → get_attribute_value_type type ≡ StunAttributeValueType.byte_string_value
      → IsFit type n x
      → write_value w n x ≡ some v
      → read_attribute w type n (v ++ rest) ≡ some (attribute type n x ∷ [], rest)
  unfolding read_attribute write_value
  read_known_bytes type n (byte_string bytes) v rest k f e =
      let p : w.write_bytes (take n bytes) ++ padding w n ≡ v = eq_of_some e in
      rw (k, read_attribute, ← p, read_byte_string-write type n bytes rest f.0)
  read_known_bytes type n (uint32 bits) v rest k f e = absurd (f.2 k)
  read_known_bytes type n (uint64 bits) v rest k f e = cc (sym k ∙ f.1)
  read_known_bytes type n (address a) v rest k f e = cc (sym k ∙ f.2)
  read_known_bytes type n (xor_address a) v rest k f e = cc (sym k ∙ f.3)
  read_known_bytes type n (error_code cls number reason) v rest k f e = cc (sym k ∙ f.1)

  read_known_uint32 :
      (type n : ℕ) (x : AttributeValue) (v rest : List ℕ)
      → get_attribute_value_type type ≡ StunAttributeValueType.uint32_value
      → IsFit type n x
      → write_value w n x ≡ some v
      → read_attribute w type n (v ++ rest) ≡ some (attribute type n x ∷ [], rest)
  unfolding read_attribute write_value read_uint32_attribute
  read_known_uint32 type n (byte_string bytes) v rest k f e = absurd (f.1 k)
  read_known_uint32 type n (uint32 bits) v rest k f e =
      let p : w.write_uint32 bits ≡ v = eq_of_some e in
      rw (k, read_attribute, ← p, read_uint32_attribute, read_uint32-write bits rest f.1, f.0)
  read_known_uint32 type n (uint64 bits) v rest k f e = cc (sym k ∙ f.1)
  read_known_uint32 type n (address a) v rest k f e = cc (sym k ∙ f.2)
  read_known_uint32 type n (xor_address a) v rest k f e = cc (sym k ∙ f.3)
  read_known_uint32 type n (error_code cls number reason) v rest k f e = cc (sym k ∙ f.1)

  -- One value, by what the reader takes its type for.
  read_attribute-write :
      (t : StunAttributeValueType) (type n : ℕ) (x : AttributeValue) (v rest : List ℕ)
      → get_attribute_value_type type ≡ t
      → n ≤ 65532
      → IsFit type n x
      → write_value w n x ≡ some v
      → length v ≡ padded n
      → read_attribute w type n (v ++ rest) ≡ some (kept_as t (attribute type n x), rest)
  unfolding read_attribute skip_attribute
  read_attribute-write StunAttributeValueType.unknown type n x v rest k h f e size = rw (
    k,
    read_attribute,
    skip_attribute,
    consume-length (padded n % 2 ^ 16) v rest (omega (arith, padded-fits n h)),
  )
  read_attribute-write StunAttributeValueType.byte_string_value type n x v rest k h f e size =
      read_known_bytes type n x v rest k f e
  read_attribute-write StunAttributeValueType.uint32_value type n x v rest k h f e size =
      read_known_uint32 type n x v rest k f e

  -- One round of the loop of `read` takes what one round of the loop of `write` gave.
  read_round-write :
      (a : StunAttribute) (v rest : List ℕ)
      → IsSound a
      → write_value w a.length a.value ≡ some v
      → length v ≡ padded a.length
      → read_round w (attribute_bytes w a v ++ rest)
        ≡ some (kept_as (get_attribute_value_type a.type) a, rest)
  unfolding read_round
  read_round-write a v rest s e size =
      rw
        (
          append_assoc,
          append_assoc,
          read_uint16-write a.type _ s.type_fits,
          read_uint16-write a.length _ (omega (arith, s.length_fits)),
        )
        (read_attribute-write _ a.type a.length a.value v rest refl s.length_fits s.fit e size)

  read_attributes_step :
      (fuel : ℕ) (acc found : List StunAttribute) (buf rest : List ℕ)
      → 0 < length buf
      → read_round w buf ≡ some (found, rest)
      → read_attributes w (suc fuel) acc buf ≡ read_attributes w fuel (acc ++ found) rest
  unfolding read_attributes
  read_attributes_step fuel acc found [] rest h e = absurd (omega arith)
  read_attributes_step fuel acc found (b ∷ bs) rest h e = rw (e, read_attributes)

  pub written_attributes :
      (a : StunAttribute) (xs : List StunAttribute) (v : List ℕ)
      → IsSound a
      → write_attributes w (a ∷ xs) ≡ some v
      → (value vs : List ℕ) × (write_value w a.length a.value ≡ some value)
        × (length value ≡ padded a.length)
        × (write_attributes w xs ≡ some vs)
        × (attribute_bytes w a value ++ vs ≡ v)
        × (length v ≡ 4 + length value + length vs)
  unfolding write_attributes
  written_attributes a xs v s e =
      let (value, p, size) = write_value_size w laws a s in
      let e' : (write_attributes w xs >>= λ rest. some (attribute_bytes w a value ++ rest))
          ≡ some v =
        rw p at e in
      let (vs, q, total) = >>=-eq-some (write_attributes w xs) _ e' in
      let t : attribute_bytes w a value ++ vs ≡ v = eq_of_some total in
      (value, vs, p, size, q, t, rw (← t) (simp (length-append, length-write_uint16) (omega arith)))

  -- The loop of `read` over what the loop of `write` gave, on any fuel that reaches its length.
  pub read_attributes-write :
      (fuel : ℕ) (acc xs : List StunAttribute) (v : List ℕ)
      → All IsSound xs
      → write_attributes w xs ≡ some v
      → length v ≤ fuel
      → read_attributes w fuel acc v ≡ some (acc ++ kept xs)
  read_attributes-write fuel acc [] v s e h =
      unfold read_attributes write_attributes in
      let p : [] ≡ v = eq_of_some e in rw (← p, append-nil)
  read_attributes-write zero acc (a ∷ xs) v (s, ss) e h =
      let (value, vs, p, size, q, t, len) = written_attributes a xs v s e in absurd (omega arith)
  read_attributes-write (suc fuel) acc (a ∷ xs) v (s, ss) e h =
      let (value, vs, p, size, q, t, len) = written_attributes a xs v s e in
      let found = kept_as (get_attribute_value_type a.type) a in
      read_attributes_step fuel acc found v vs (omega arith)
        (rw (← t) (read_round-write a value vs s p size))
      ∙ read_attributes-write fuel (acc ++ found) xs vs ss q (omega arith)
      ∙ ap some (append_assoc acc found (kept xs))

  -- The bytes of a valid message: the header, and the attributes on `_length` bytes.
  pub write-IsValid :
      (m : StunMessage)
      → IsValid m
      → (vs : List ℕ) × (write_attributes w m.attrs ≡ some vs)
        × (write w m ≡ some (header w m ++ vs))
        × (length vs ≡ m.length)
        × (length (header w m ++ vs) ≡ 20 + m.length)
  unfolding write
  write-IsValid m v =
      let (vs, e, size) = write_attributes_size w laws m.attrs v.sound in
      (
        vs,
        e,
        rw e,
        omega (arith, v.sized),
        rw (length-append, length-header w laws m v.id_length) (omega (arith, v.sized)),
      )

  -- A valid message whose type has bit 11 clear is read back as it was written: type, length and
  -- transaction id are the same, the attributes that the reader knows are kept in order with
  -- their values, the others are skipped, and _buffer holds the bytes.
  pub read-write :
      (m fresh : StunMessage) (bytes : List ℕ)
      → IsValid m
      → bit_and m.type 0x0800 ≡ 0
      → write w m ≡ some bytes
      → read w fresh bytes
        ≡ some (record fresh {
          type = m.type;
          length = m.length;
          transaction_id = m.transaction_id;
          attrs = kept m.attrs;
          buffer = bytes;
        })
  unfolding read header
  read-write m fresh bytes v bit e =
      let (vs, attrs, whole, size, total) = write-IsValid m v in
      let p : header w m ++ vs ≡ bytes = eq_of_some (sym whole ∙ e) in
      rw
        (
          ← p,
          append_assoc,
          read_uint16-write m.type _ v.type_fits,
          bit,
          append_assoc,
          read_uint16-write m.length _ v.fits,
          append_assoc,
          read_bytes-length 4 (w.write_uint32 k_stun_magic_cookie) _ (length-write_uint32 _),
          write_bytes_lem,
          read_bytes-length 12 m.transaction_id vs v.id_length,
          size,
          ==-refl,
          read_attributes-write m.length [] m.attrs vs v.sound attrs (omega arith),
        )
        (rw cookie)
    where
      cookie : w.get_be32 (w.write_uint32 k_stun_magic_cookie) ≡ k_stun_magic_cookie
      cookie = rw append-nil at (get_be32-write k_stun_magic_cookie [] (omega arith))
