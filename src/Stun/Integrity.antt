-- ===== src/Stun/Integrity.antt =====
-- ice/stun.cpp: the MESSAGE-INTEGRITY attribute.
use grtcserver.Base.{
  ℕ, zero, suc, ◌+◌, ◌-◌, ◌%◌, List, ◌++◌, Option, none, some, Bool, true, false, ◌==◌, ltb, leb,
  not, bytes_eq, length, take, drop, replicate, if◌then◌else◌, ◌^◌,
}
use grtcserver.Wire.{Wire}
use grtcserver.Stun.{
  StunMessage, StunAttribute, integrity_ok, integrity_bad, no_integrity, byte_string_attribute,
  padded, k_stun_header_size, k_stun_attribute_header_size, k_stun_message_integrity_size,
  stun_attr_message_integrity,
}
use grtcserver.Stun.Message.{add_attribute, write, get_attribute}
use grtcserver.Stun.Fingerprint.{set_last}

-- The attribute that is pushed before its value is known.
unfoldable pub integrity_placeholder : StunAttribute
unfolding byte_string_attribute
integrity_placeholder =
    byte_string_attribute stun_attr_message_integrity (replicate k_stun_message_integrity_size 0x30)

module _ (w : Wire) where
  -- The answer, and the message after the call. `size_t` subtraction cannot wrap here: the buffer
  -- ends with the attribute.
  unfoldable pub add_message_integrity : List ℕ → StunMessage → Bool × StunMessage
  unfolding set_last
  add_message_integrity password m =
      let added = add_attribute m integrity_placeholder in
      elim (write w added) [
        | none ↦ (false, added)
        | some buf ↦
            (let hmac = w.compute_hmac password (
                take (length buf - k_stun_attribute_header_size - integrity_placeholder.length)
                  buf) in
              if length hmac == k_stun_message_integrity_size
              then (
                true,
                record added {
                  attrs =
                      set_last (byte_string_attribute stun_attr_message_integrity hmac) added.attrs;
                  password = password;
                  integrity = integrity_ok;
                },
              )
              else (false, added))
      ]

  -- The loop that looks for the attribute: its position, or `none`. Each round moves the position
  -- by 4 at least, so the size of the data is enough fuel.
  unfoldable pub find_integrity : ℕ → List ℕ → ℕ → Option ℕ
  find_integrity zero input pos = none
  find_integrity (suc fuel) input pos =
      let attr_length = w.get_be16 (drop (pos + 2) input) in
      let rest =
        find_integrity fuel input (pos + (k_stun_attribute_header_size + padded attr_length)) in
      if leb (pos + k_stun_attribute_header_size) (length input)
      then (if w.get_be16 (drop pos input) == stun_attr_message_integrity then some pos else rest)
      else none

  -- The text that is hashed: what lies before the attribute, with the length of a message that
  -- would end behind it.
  unfoldable pub hashed_text : List ℕ → ℕ → List ℕ
  hashed_text input pos =
      let mi_end = pos + k_stun_attribute_header_size + k_stun_message_integrity_size in
      if ltb mi_end (length input)
      then (take 2 input
          ++ (w.set_be16 ((length input - (length input - mi_end) - k_stun_header_size) % 2 ^ 16)
              ++ drop 4 (take pos input)))
      else take pos input

  -- _validate_message_integrity_of_type, for MESSAGE-INTEGRITY and 20 bytes. The memcmp has no test
  -- that 20 bytes are left behind the attribute's header: where fewer are, it reads past the data,
  -- and the model answers false.
  unfoldable pub validate_integrity_data : List ℕ → List ℕ → Bool
  unfolding find_integrity hashed_text
  validate_integrity_data password input =
      if not (length input % 4 == 0)
      then false
      else if ltb (length input) k_stun_header_size
      then false
      else if not (w.get_be16 (drop 2 input) + k_stun_header_size == length input)
      then false
      else elim (find_integrity (length input) input k_stun_header_size) [
        | none ↦ false
        | some pos ↦
            (let hmac = w.compute_hmac password (hashed_text input pos) in
              if not (length hmac == k_stun_message_integrity_size)
              then false
              else bytes_eq
                  (take k_stun_message_integrity_size
                    (drop (pos + k_stun_attribute_header_size) input))
                  hmac)
      ]

  -- The status, which the message keeps.
  unfoldable pub validate_message_integrity : List ℕ → StunMessage → StunMessage
  unfolding validate_integrity_data
  validate_message_integrity password m = record m {
    password = password;
    integrity = elim (get_attribute m stun_attr_message_integrity) [
      | none ↦ no_integrity
      | some attr ↦
          (if validate_integrity_data password m.buffer then integrity_ok else integrity_bad)
    ];
  }
