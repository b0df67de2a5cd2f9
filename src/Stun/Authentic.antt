-- ===== src/Stun/Authentic.antt =====
-- The receiver's check of the MESSAGE-INTEGRITY that add_message_integrity made.
use grtcserver.Base.{
  ℕ, ◌+◌, ◌-◌, ◌%◌, ◌^◌, ◌<◌, ◌≤◌, ◌≡◌, sym, ◌∙◌, ap, List, ◌++◌, some, true, arith, length, take,
  drop, take-append, drop-append, drop-drop, length-append, append_assoc, All, bytes_eq_refl,
  Bool-cases, inl, inr, ltb, false,
}
use grtcserver.Wire.{Wire, IsWire}
use grtcserver.Stun.{StunAttribute, StunMessage, stun_attr_message_integrity, k_stun_magic_cookie}
use grtcserver.Stun.Message.{header, write_attributes, attribute_bytes}
use grtcserver.Stun.Layout.{IsSound, length-header}
use grtcserver.Stun.Integrity.{find_integrity, hashed_text, validate_integrity_data}
use grtcserver.Stun.Fields.{
  header_length, after_fields, attribute_type, attribute_value, length-attribute_bytes,
}
use grtcserver.Stun.Search.{Lacks, find_integrity-write}

abbrev with_length : StunMessage → ℕ → StunMessage
with_length m n = record m { length = n }

module _ (w : Wire) (laws : IsWire w) where
  open laws use {
    length-write_uint16, length-write_uint32, set_be16_lem, length-compute_hmac, write_bytes_lem,
  }

  -- The header with another length, made by overwriting the bytes 2 and 3.
  patched_header :
      (m : StunMessage) (n : ℕ) (vs r : List ℕ)
      → take 2 (header w m ++ r) ++ (w.set_be16 n ++ drop 4 (header w m ++ vs))
        ≡ header w (with_length m n) ++ vs
  unfolding header
  patched_header m n vs r =
      rw (front, after_fields w laws m.type m.length tail vs, set_be16_lem) (simp append_assoc)
    where
      tail : List ℕ
      tail = w.write_uint32 k_stun_magic_cookie ++ w.write_bytes m.transaction_id

      front : take 2 (header w m ++ r) ≡ w.write_uint16 m.type
      front = rw append_assoc (take-append 2 (w.write_uint16 m.type) _ (length-write_uint16 m.type))

  -- The text that is hashed is that of a message which ends behind the attribute.
  hashed_text-write :
      (m : StunMessage) (vs first us : List ℕ)
      → length m.transaction_id ≡ 12
      → length first ≡ 24
      → length vs + 24 < 2 ^ 16
      → m.length ≡ length vs + 24 + length us
      → hashed_text w ((header w m ++ vs) ++ (first ++ us)) (20 + length vs)
        ≡ header w (with_length m (length vs + 24)) ++ vs
  unfolding hashed_text
  hashed_text-write m vs first us id f fits total =
      elim (Bool-cases (ltb (20 + length vs + 4 + 20) (length input))) [
        | inl more ↦
            rw (more, cut, patch more) (rw append_assoc (patched_header m (length vs + 24) vs _))
        | inr last ↦ rw (last, cut) (ap (λ (n : ℕ). header w (with_length m n) ++ vs) (short last))
      ]
    where
      input : List ℕ
      input = (header w m ++ vs) ++ (first ++ us)

      before : length (header w m ++ vs) ≡ 20 + length vs
      before = rw (length-append, length-header w laws m id)

      len : length input ≡ 20 + length vs + 24 + length us
      len =
          omega
            (arith, length-append (header w m ++ vs) (first ++ us), length-append first us, before)

      patch :
          ltb (20 + length vs + 4 + 20) (length input) ≡ true
          → (length input - (length input - (20 + length vs + 4 + 20)) - 20) % 2 ^ 16
            ≡ length vs + 24
      patch more = ground (arith, len)

      short : ltb (20 + length vs + 4 + 20) (length input) ≡ false → m.length ≡ length vs + 24
      short last = ground (arith, len)

      cut : take (20 + length vs) input ≡ header w m ++ vs
      cut = take-append _ (header w m ++ vs) _ before

  -- The tests of the validation, one by one.
  passes :
      (password input : List ℕ) (pos : ℕ)
      → length input % 4 ≡ 0
      → 20 ≤ length input
      → w.get_be16 (drop 2 input) + 20 ≡ length input
      → find_integrity w (length input) input 20 ≡ some pos
      → take 20 (drop (pos + 4) input) ≡ w.compute_hmac password (hashed_text w input pos)
      → validate_integrity_data w password input ≡ true
  unfolding validate_integrity_data
  passes password input pos aligned long sized found digest =
      rw (found, digest)
        (ground (
          arith,
          found,
          bytes_eq_refl (w.compute_hmac password (hashed_text w input pos)),
          length-compute_hmac password (hashed_text w input pos),
        ))

  -- A message with the digest of what stands before it in its MESSAGE-INTEGRITY passes, whatever
  -- attributes follow. The digest is over the header of a message that ends behind it.
  pub validate-digest :
      (password : List ℕ) (m : StunMessage) (mi : StunAttribute) (xs : List StunAttribute)
      (vs us digest : List ℕ)
      → length m.transaction_id ≡ 12
      → All IsSound xs
      → Lacks stun_attr_message_integrity xs
      → write_attributes w xs ≡ some vs
      → mi.type ≡ stun_attr_message_integrity
      → m.length < 2 ^ 16
      → m.length % 4 ≡ 0
      → m.length ≡ length vs + 24 + length us
      → digest ≡ w.compute_hmac password (header w (with_length m (length vs + 24)) ++ vs)
      → validate_integrity_data w password
          ((header w m ++ vs) ++ (attribute_bytes w mi digest ++ us))
        ≡ true
  validate-digest password m mi xs vs us digest id s n e type fits aligned total d =
      passes password input (20 + length vs) (omega (arith, len)) (omega (arith, len))
        (omega (arith, len, field)) found
        (value_at
          ∙ d
          ∙ ap (w.compute_hmac password)
              (sym (hashed_text-write m vs first us id first_length (omega arith) total)))
    where
      first : List ℕ
      first = attribute_bytes w mi digest

      input : List ℕ
      input = (header w m ++ vs) ++ (first ++ us)

      before : length (header w m ++ vs) ≡ 20 + length vs
      before = rw (length-append, length-header w laws m id)

      digest_length : length digest ≡ 20
      digest_length = rw d (length-compute_hmac password _)

      first_length : length first ≡ 24
      first_length = omega (arith, length-attribute_bytes w laws mi digest, digest_length)

      len : length input ≡ 20 + m.length
      len = omega (
        arith,
        length-append (header w m ++ vs) (first ++ us),
        length-append first us,
        before,
        first_length,
      )

      field : w.get_be16 (drop 2 input) ≡ m.length
      field = rw append_assoc (header_length w laws m _ fits)

      found : find_integrity w (length input) input 20 ≡ some (20 + length vs)
      found =
          rw (append_assoc (header w m), ← length-header w laws m id)
            (find_integrity-write w laws xs (length (header w m ++ (vs ++ (first ++ us))))
              (header w m) vs (first ++ us) s n e
              (omega (
                arith,
                length-append (header w m) (vs ++ (first ++ us)),
                length-append vs (first ++ us),
                length-append first us,
                first_length,
              ))
              (omega (arith, length-append first us, first_length))
              (attribute_type w laws mi digest us (omega arith) ∙ type))

      value_at : take 20 (drop (20 + length vs + 4) input) ≡ digest
      value_at = rw (
        drop-drop (20 + length vs) 4 input,
        drop-append (20 + length vs) (header w m ++ vs) (first ++ us) before,
        attribute_value w laws mi digest us,
        take-append 20 digest us digest_length,
      )
