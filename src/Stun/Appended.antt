-- ===== src/Stun/Appended.antt =====
-- What add_fingerprint and add_message_integrity leave behind: the message with one more
-- attribute, whose value is computed from the bytes before it.
use grtcserver.Base.{
  ℕ, ◌+◌, ◌-◌, ◌≡◌, refl, ap, sym, List, [], ◌∷◌, ◌++◌, some, true, arith, length, take,
  length-append, take-append, append_assoc, append-nil, bit_xor, replicate,
}
use grtcserver.Wire.{Wire, IsWire}
use grtcserver.Stun.{
  StunAttribute, StunMessage, write_value, uint32_attribute, byte_string_attribute, padding,
  stun_attr_fingerprint, stun_attr_message_integrity, integrity_ok,
}
use grtcserver.Stun.Message.{add_attribute, write, header, write_attributes, attribute_bytes}
use grtcserver.Stun.Layout.{write_attributes-append, length-header}
use grtcserver.Stun.Fingerprint.{
  set_last, add_fingerprint, fingerprint_placeholder, stun_fingerprint_xor_value,
}
use grtcserver.Stun.Integrity.{add_message_integrity, integrity_placeholder}

pub set_last-append :
    {A : Type 0} (a b : A) (xs : List A) → set_last b (xs ++ (a ∷ [])) ≡ xs ++ (b ∷ [])
unfolding set_last
set_last-append a b [] = refl
set_last-append a b (x ∷ []) = refl
set_last-append a b (x ∷ y ∷ xs) = ap (◌∷◌ x) (set_last-append a b (y ∷ xs))

-- `add_attribute` looks at the length of the attribute alone.
pub add_attribute-replaced :
    (m : StunMessage) (a b : StunAttribute)
    → a.length ≡ b.length
    → record (add_attribute m a) { attrs = set_last b (add_attribute m a).attrs }
      ≡ add_attribute m b
unfolding add_attribute
add_attribute-replaced m a b e = rw (set_last-append a b m.attrs, e)

module _ (w : Wire) (laws : IsWire w) where
  open laws use {length-write_uint16, length-write_uint32, length-compute_hmac, write_bytes_lem}

  -- The bytes of a message with one more attribute.
  pub write-add_attribute :
      (m : StunMessage) (a : StunAttribute) (vs value : List ℕ)
      → write_attributes w m.attrs ≡ some vs
      → write_value w a.length a.value ≡ some value
      → write w (add_attribute m a)
        ≡ some ((header w (add_attribute m a) ++ vs) ++ attribute_bytes w a value)
  unfolding write add_attribute
  write-add_attribute m a vs value e f =
      rw (write_attributes-append w laws m.attrs (a ∷ []) vs (attribute_bytes w a value) e last)
        (ap some (sym (append_assoc _ vs _)))
    where
      last : write_attributes w (a ∷ []) ≡ some (attribute_bytes w a value)
      last = unfold write_attributes in rw (f, append-nil)

  -- The bytes before the last attribute, cut out of the whole.
  take-before :
      (text value : List ℕ) (a : StunAttribute) (n : ℕ)
      → length value ≡ n
      → take
          (length (text ++ attribute_bytes w a value) - 4 - n)
          (text ++ attribute_bytes w a value)
        ≡ text
  take-before text value a n size = take-append _ text _ (
      omega (
        arith,
        length-append text (attribute_bytes w a value),
        length-append (w.write_uint16 a.type) (w.write_uint16 a.length ++ value),
        length-append (w.write_uint16 a.length) value,
        length-write_uint16 a.type,
        length-write_uint16 a.length,
      ))

  abbrev pub text_before : StunMessage → StunAttribute → List ℕ → List ℕ
  text_before m a vs = header w (add_attribute m a) ++ vs

  -- The bytes before the last attribute depend on its length alone.
  pub text_before-same :
      (m : StunMessage) (a b : StunAttribute) (vs : List ℕ)
      → a.length ≡ b.length
      → text_before m a vs ≡ text_before m b vs
  unfolding header add_attribute
  text_before-same m a b vs e = rw e

  pub length-text_before :
      (m : StunMessage) (a : StunAttribute) (vs : List ℕ)
      → length m.transaction_id ≡ 12
      → length (text_before m a vs) ≡ 20 + length vs
  length-text_before m a vs h =
      rw (length-append, length-header w laws (add_attribute m a) (unfold add_attribute in h))

  -- The FINGERPRINT over the bytes before it.
  abbrev pub fingerprint_of : StunMessage → List ℕ → StunAttribute
  fingerprint_of m vs = uint32_attribute stun_attr_fingerprint (
      bit_xor (w.compute_crc32 (text_before m fingerprint_placeholder vs))
        stun_fingerprint_xor_value)

  -- add_fingerprint succeeds, and pushes the masked checksum of the bytes before it.
  pub add_fingerprint_lem :
      (m : StunMessage) (vs : List ℕ)
      → write_attributes w m.attrs ≡ some vs
      → add_fingerprint w m ≡ (true, add_attribute m (fingerprint_of m vs))
  unfolding add_fingerprint uint32_attribute write_value fingerprint_placeholder
  add_fingerprint_lem m vs e =
      let plain = fingerprint_placeholder in
      rw
        (
          write-add_attribute m plain vs (w.write_uint32 0) e refl,
          add_fingerprint,
          take-before (text_before m plain vs) (w.write_uint32 0) plain 4 (length-write_uint32 0),
        )
        (λ i. (true, add_attribute-replaced m plain (fingerprint_of m vs) refl i))

  -- The MESSAGE-INTEGRITY over the bytes before it.
  abbrev pub integrity_of : List ℕ → StunMessage → List ℕ → StunAttribute
  integrity_of password m vs =
      byte_string_attribute stun_attr_message_integrity
        (w.compute_hmac password (text_before m integrity_placeholder vs))

  integrity_length :
      (password text : List ℕ)
      → integrity_placeholder.length
        ≡ (byte_string_attribute stun_attr_message_integrity (w.compute_hmac password text)).length
  unfolding integrity_placeholder byte_string_attribute
  integrity_length password text = rw length-compute_hmac

  write-placeholder :
      (value : List ℕ) × (write_value w integrity_placeholder.length integrity_placeholder.value
        ≡ some value)
      × (length value ≡ integrity_placeholder.length)
  unfolding write_value padding integrity_placeholder
  write-placeholder = (w.write_bytes (replicate 20 0x30) ++ [], refl, rw write_bytes_lem)

  -- add_message_integrity succeeds, and pushes the digest of the bytes before it.
  pub add_message_integrity_lem :
      (password : List ℕ) (m : StunMessage) (vs : List ℕ)
      → write_attributes w m.attrs ≡ some vs
      → add_message_integrity w password m ≡ (
        true,
        record (add_attribute m (integrity_of password m vs)) {
          password = password;
          integrity = integrity_ok;
        },
      )
  unfolding add_message_integrity
  add_message_integrity_lem password m vs e =
      let plain = integrity_placeholder in
      let (value, written, size) = write-placeholder in
      rw
        (
          write-add_attribute m plain vs value e written,
          add_message_integrity,
          take-before (text_before m plain vs) value plain plain.length size,
          length-compute_hmac,
        )
        (λ i. (
          true,
          record (add_attribute-replaced m plain (integrity_of password m vs)
              (integrity_length password (text_before m plain vs)) i) {
                password = password;
                integrity = integrity_ok;
              },
        ))
