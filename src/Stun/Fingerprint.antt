-- ===== src/Stun/Fingerprint.antt =====
-- ice/stun.cpp: the FINGERPRINT attribute.
use grtcserver.Base.{
  ℕ, ◌-◌, ◌%◌, List, [], ◌∷◌, none, some, Bool, true, false, ◌==◌, ltb, not, bit_xor, length, take,
  drop, if◌then◌else◌,
}
use grtcserver.Wire.{Wire}
use grtcserver.Stun.{
  StunMessage, StunAttribute, uint32_attribute, k_stun_magic_cookie, k_stun_attribute_header_size,
  stun_attr_fingerprint,
}
use grtcserver.Stun.Message.{add_attribute, write}

abbrev pub stun_fingerprint_xor_value : ℕ
stun_fingerprint_xor_value = 0x5354554e

-- A change of the attribute that was pushed last, through the pointer kept to it.
unfoldable pub set_last {ℓ} : {A : Type ℓ} → A → List A → List A
set_last a [] = []
set_last a (x ∷ []) = a ∷ []
set_last a (x ∷ y ∷ xs) = x ∷ set_last a (y ∷ xs)

-- The attribute that is pushed before its value is known.
unfoldable pub fingerprint_placeholder : StunAttribute
unfolding uint32_attribute
fingerprint_placeholder = uint32_attribute stun_attr_fingerprint 0

module _ (w : Wire) where
  -- The reads lie inside the data: the length is tested first.
  unfoldable pub validate_fingerprint : List ℕ → Bool
  validate_fingerprint input =
      let len = length input in
      let fingerprint_attr_data = drop (len - 8) input in
      if not (len % 4 == 0)
      then false
      else if ltb len 28
      then false
      else if not (w.get_be32 (drop 4 input) == k_stun_magic_cookie)
      then false
      else if not (w.get_be16 fingerprint_attr_data == stun_attr_fingerprint)
      then false
      else if not (w.get_be16 (drop 2 fingerprint_attr_data) == 4)
      then false
      else (bit_xor (w.get_be32 (drop 4 fingerprint_attr_data)) stun_fingerprint_xor_value
          == w.compute_crc32 (take (len - 8) input))

  -- The answer, and the message after the call.
  unfoldable pub add_fingerprint : StunMessage → Bool × StunMessage
  unfolding set_last
  add_fingerprint m =
      let added = add_attribute m fingerprint_placeholder in
      elim (write w added) [
        | none ↦ (false, added)
        | some buf ↦ (
          true,
          record added {
            attrs =
                set_last
                  (uint32_attribute stun_attr_fingerprint (
                    bit_xor
                      (w.compute_crc32 (take (length buf - k_stun_attribute_header_size - 4) buf))
                      stun_fingerprint_xor_value))
                  added.attrs;
          },
        )
      ]
