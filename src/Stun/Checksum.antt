-- ===== src/Stun/Checksum.antt =====
-- The receiver's check of the FINGERPRINT that add_fingerprint made.
use grtcserver.Base.{
  ℕ, ◌+◌, ◌-◌, ◌%◌, ◌^◌, ◌<◌, ◌≡◌, refl, ◌∙◌, List, [], ◌++◌, append_assoc, ◌≤◌, some, true, arith,
  length, take, drop, take-append, drop-append, length-append, append-nil, bit_xor,
}
use grtcserver.Base.Bits.{bit_xor_bound, bit_xor_twice}
use grtcserver.Wire.{Wire, IsWire}
use grtcserver.Stun.{
  StunAttribute, StunMessage, uint32_attribute, stun_attr_fingerprint, write_value, padded,
  k_stun_magic_cookie,
}
use grtcserver.Stun.Message.{
  add_attribute, write, header, attribute_bytes, get_attribute_value_type,
}
use grtcserver.Stun.Layout.{IsSound, IsValid, padded_sizes-aligned, add_attribute-IsValid}
use grtcserver.Stun.RoundTrip.{write-IsValid}
use grtcserver.Stun.Fingerprint.{
  add_fingerprint, validate_fingerprint, fingerprint_placeholder, stun_fingerprint_xor_value,
}
use grtcserver.Stun.Appended.{
  text_before, fingerprint_of, add_fingerprint_lem, write-add_attribute, text_before-same,
  length-text_before,
}
use grtcserver.Stun.Fields.{
  header_cookie, attribute_type, attribute_length, attribute_value, length-attribute_bytes,
}

module _ (w : Wire) (laws : IsWire w) where
  open laws use {length-write_uint32, get_be32-write, crc_fits}

  checksum : List ℕ → ℕ
  checksum text = bit_xor (w.compute_crc32 text) stun_fingerprint_xor_value

  checksum_fits : (text : List ℕ) → checksum text < 2 ^ 32
  unfolding checksum
  checksum_fits text = bit_xor_bound 32 _ _ (crc_fits text) (omega arith)

  pub fingerprint_of-IsSound :
      (m : StunMessage) (vs : List ℕ) → IsSound (fingerprint_of w laws m vs)
  unfolding uint32_attribute get_attribute_value_type checksum
  fingerprint_of-IsSound m vs = record {
    type_fits = omega arith;
    length_fits = omega arith;
    fit = (refl, checksum_fits _, λ e. cc);
  }

  -- The tests of validate_fingerprint, one by one.
  passes :
      (input text tail : List ℕ)
      → length input ≡ length text + 8
      → length text % 4 ≡ 0
      → 20 ≤ length text
      → w.get_be32 (drop 4 input) ≡ k_stun_magic_cookie
      → take (length input - 8) input ≡ text
      → drop (length input - 8) input ≡ tail
      → w.get_be16 tail ≡ stun_attr_fingerprint
      → w.get_be16 (drop 2 tail) ≡ 4
      → w.get_be32 (drop 4 tail) ≡ checksum text
      → validate_fingerprint w input ≡ true
  unfolding validate_fingerprint checksum
  passes input text tail len aligned long cookie front back type size value =
      rw (front, back)
        (ground (
          arith,
          bit_xor_twice 32 (w.compute_crc32 text) stun_fingerprint_xor_value (crc_fits text)
              (omega arith),
        ))

  -- Any text of a multiple of 4 bytes that starts with a header passes, once its checksum is
  -- appended as an attribute.
  sealed_text :
      (m : StunMessage) (a : StunAttribute) (vs : List ℕ)
      → a.type ≡ stun_attr_fingerprint
      → a.length ≡ 4
      → length (header w m ++ vs) % 4 ≡ 0
      → 20 ≤ length (header w m ++ vs)
      → validate_fingerprint w
          ((header w m ++ vs) ++ attribute_bytes w a (w.write_uint32 (checksum (header w m ++ vs))))
        ≡ true
  sealed_text m a vs t l aligned long =
      passes (text ++ tail) text tail len aligned long
        (rw append_assoc (header_cookie w laws m (vs ++ tail)))
        (take-append _ text tail (omega (arith, len)))
        (drop-append _ text tail (omega (arith, len)))
        (rw append-nil at (attribute_type w laws a value [] (omega arith)) ∙ t)
        (rw append-nil at (attribute_length w laws a value [] (omega arith)) ∙ l)
        (rw value_at (simp append-nil at (get_be32-write (checksum text) [] (checksum_fits text))))
    where
      text : List ℕ
      text = header w m ++ vs

      value : List ℕ
      value = w.write_uint32 (checksum text)

      tail : List ℕ
      tail = attribute_bytes w a value

      len : length (text ++ tail) ≡ length text + 8
      len = omega (
        arith,
        length-append text tail,
        length-attribute_bytes w laws a value,
        length-write_uint32 (checksum text),
      )

      value_at : drop 4 tail ≡ value
      value_at = simp append-nil at (attribute_value w laws a value [])

  sealed_by :
      (m : StunMessage) (a : StunAttribute) (vs text : List ℕ)
      → a.type ≡ stun_attr_fingerprint
      → a.length ≡ 4
      → length (header w m ++ vs) % 4 ≡ 0
      → 20 ≤ length (header w m ++ vs)
      → text ≡ header w m ++ vs
      → validate_fingerprint w
          ((header w m ++ vs) ++ attribute_bytes w a (w.write_uint32 (checksum text)))
        ≡ true
  sealed_by m a vs text t l aligned long e = rw e (sealed_text m a vs t l aligned long)

  -- add_fingerprint on a valid message with 8 bytes of room succeeds, the message stays valid,
  -- and the bytes that it is then written as pass validate_fingerprint.
  pub validate-add_fingerprint :
      (m : StunMessage)
      → IsValid m
      → m.length + 8 < 2 ^ 16
      → ((add_fingerprint w m).0 ≡ true)
        × IsValid (add_fingerprint w m).1
        × (bytes : List ℕ) × (write w (add_fingerprint w m).1 ≡ some bytes)
        × (validate_fingerprint w bytes ≡ true)
  validate-add_fingerprint m v room =
      let (vs, e, whole, size, total) = write-IsValid w laws m v in
      rw (add_fingerprint_lem w laws m vs e) (
        refl,
        (add_attribute-IsValid m (fingerprint_of w laws m vs) v (fingerprint_of-IsSound m vs)
            (unfold padded uint32_attribute in room)).0,
        _,
        write-add_attribute w laws m (fingerprint_of w laws m vs) vs
            (w.write_uint32 (checksum (text_before w laws m fingerprint_placeholder vs))) e
            (unfold write_value uint32_attribute checksum in refl),
        sealed_by (add_attribute m (fingerprint_of w laws m vs)) (fingerprint_of w laws m vs) vs
            (text_before w laws m fingerprint_placeholder vs) (unfold uint32_attribute in refl)
            (unfold uint32_attribute in refl)
            (omega (
              arith,
              length-text_before w laws m (fingerprint_of w laws m vs) vs v.id_length,
              padded_sizes-aligned m.attrs,
              v.sized,
            ))
            (omega (arith, length-text_before w laws m (fingerprint_of w laws m vs) vs v.id_length))
            (text_before-same w laws m fingerprint_placeholder (fingerprint_of w laws m vs) vs
              (unfold fingerprint_placeholder uint32_attribute in refl)),
      )
