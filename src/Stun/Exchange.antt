-- ===== src/Stun/Exchange.antt =====
-- A message that is signed and sealed, sent, and read by the other side.
use grtcserver.Base.{
  ℕ, ◌+◌, ◌^◌, ◌<◌, ◌≡◌, refl, sym, ◌∙◌, ap, List, [], ◌∷◌, ◌++◌, some, true, arith, length, take,
  take-all, append-nil, append_assoc, eq_of_some, bit_and,
}
use grtcserver.Wire.{Wire, IsWire}
use grtcserver.Stun.{
  StunAttribute, StunMessage, byte_string_attribute, padded, padding, write_value,
  stun_attr_message_integrity, integrity_ok, uint32_attribute,
}
use grtcserver.Stun.Message.{
  add_attribute, write, write_attributes, header, attribute_bytes, read, get_attribute,
  find_attribute, get_attribute_value_type,
}
use grtcserver.Stun.Layout.{
  IsSound, IsValid, padded_sizes-aligned, add_attribute-IsValid, write_attributes-append,
  write_value_size,
}
use grtcserver.Stun.RoundTrip.{kept, write-IsValid, read-write}
use grtcserver.Stun.Fingerprint.{add_fingerprint, validate_fingerprint}
use grtcserver.Stun.Integrity.{
  add_message_integrity, validate_message_integrity, validate_integrity_data, integrity_placeholder,
}
use grtcserver.Stun.Appended.{
  integrity_of, text_before, add_message_integrity_lem, add_fingerprint_lem, write-add_attribute,
}
use grtcserver.Stun.Checksum.{validate-add_fingerprint, fingerprint_of-IsSound}
use grtcserver.Stun.Search.{Lacks}
use grtcserver.Stun.Fields.{length-attribute_bytes}
use grtcserver.Stun.Authentic.{validate-digest}

-- The receiver finds the attribute among those that it kept.
find_kept :
    (xs ys : List StunAttribute) (a : StunAttribute)
    → Lacks stun_attr_message_integrity xs
    → a.type ≡ stun_attr_message_integrity
    → find_attribute stun_attr_message_integrity (kept (xs ++ (a ∷ ys))) ≡ some a
unfolding find_attribute get_attribute_value_type
find_kept [] ys a n t = ground arith
find_kept (x ∷ xs) ys a (n, ns) t = ground (arith, find_kept xs ys a ns t)

-- What the other side makes of a message: it is written; the bytes pass validate_fingerprint; they
-- are read; and validate_message_integrity answers integrity_ok.
abbrev pub IsAccepted : Wire → List ℕ → StunMessage → StunMessage → Type 0
IsAccepted w password fresh sent =
    (bytes : List ℕ) × (received : StunMessage) × (write w sent ≡ some bytes)
    × (validate_fingerprint w bytes ≡ true)
    × (read w fresh bytes ≡ some received)
    × ((validate_message_integrity w password received).integrity ≡ integrity_ok)

module _ (w : Wire) (laws : IsWire w) where
  open laws use {length-compute_hmac, write_bytes_lem}

  pub integrity_of-IsSound :
      (password : List ℕ) (m : StunMessage) (vs : List ℕ)
      → IsSound (integrity_of w laws password m vs)
  unfolding byte_string_attribute get_attribute_value_type
  integrity_of-IsSound password m vs = record {
    type_fits = omega arith;
    length_fits =
        omega (arith, length-compute_hmac password (text_before w laws m integrity_placeholder vs));
    fit = (
      omega (arith, length-compute_hmac password (text_before w laws m integrity_placeholder vs)),
      λ e. cc,
    );
  }

  write_integrity :
      (digest : List ℕ)
      → length digest ≡ 20
      → let a = byte_string_attribute stun_attr_message_integrity digest in
        (a.length ≡ 20) × (write_value w a.length a.value ≡ some digest)
  unfolding write_value padding byte_string_attribute
  write_integrity digest h =
      (omega arith, rw (h, write_bytes_lem (take 20 digest), take-all 20 digest h, append-nil))

  -- The message after add_message_integrity.
  signed : List ℕ → StunMessage → List ℕ → StunMessage
  signed password m vs = record (add_attribute m (integrity_of w laws password m vs)) {
    password = password;
    integrity = integrity_ok;
  }

  signed-IsValid :
      (password : List ℕ) (m : StunMessage) (vs : List ℕ)
      → IsValid m
      → m.length + 24 < 2 ^ 16
      → IsValid (signed password m vs) × ((signed password m vs).length ≡ m.length + 24)
  unfolding signed
  signed-IsValid password m vs v room =
      let a = integrity_of w laws password m vs in
      let n : a.length ≡ 20 = size in
      let u = (add_attribute-IsValid m a v (integrity_of-IsSound password m vs) (fits n)).0 in
      (
        record {
          sound = u.sound;
          sized = u.sized;
          fits = u.fits;
          type_fits = u.type_fits;
          id_length = u.id_length;
        },
        grown n,
      )
    where
      size : (integrity_of w laws password m vs).length ≡ 20
      size = (write_integrity _ (length-compute_hmac password _)).0

      fits :
          (integrity_of w laws password m vs).length ≡ 20
          → m.length + (padded (integrity_of w laws password m vs).length + 4) < 2 ^ 16
      fits n = rw n (unfold padded in room)

      grown :
          (integrity_of w laws password m vs).length ≡ 20
          → (add_attribute m (integrity_of w laws password m vs)).length ≡ m.length + 24
      grown n = unfold add_attribute padded in rw n (omega arith)

  -- The header is made of three fields.
  header-same :
      (a b : StunMessage)
      → a.type ≡ b.type
      → a.length ≡ b.length
      → a.transaction_id ≡ b.transaction_id
      → header w a ≡ header w b
  unfolding header
  header-same a b t l i = rw (t, l, i)

  abbrev digest_of : List ℕ → StunMessage → List ℕ → List ℕ
  digest_of password m vs = w.compute_hmac password (text_before w laws m integrity_placeholder vs)

  signed_attributes :
      (password : List ℕ) (m : StunMessage) (vs : List ℕ)
      → write_attributes w m.attrs ≡ some vs
      → write_attributes w (signed password m vs).attrs
        ≡ some
            (vs ++ attribute_bytes w (integrity_of w laws password m vs) (digest_of password m vs))
  unfolding signed add_attribute
  signed_attributes password m vs e = write_attributes-append w laws m.attrs _ vs _ e (
      unfold write_attributes in
      rw (
        (write_integrity (digest_of password m vs) (length-compute_hmac password _)).1,
        append-nil,
      ))

  -- The signature of a signed message holds on the bytes of the sealed message.
  sent_digest :
      (password : List ℕ) (m : StunMessage) (vs bytes : List ℕ) (fp : StunAttribute)
      → IsValid m
      → Lacks stun_attr_message_integrity m.attrs
      → m.length + 32 < 2 ^ 16
      → write_attributes w m.attrs ≡ some vs
      → length vs ≡ m.length
      → IsSound fp
      → fp.length ≡ 4
      → write w (add_attribute (signed password m vs) fp) ≡ some bytes
      → validate_integrity_data w password bytes ≡ true
  sent_digest password m vs bytes fp v none room e size sound l written =
      let mi = integrity_of w laws password m vs in
      let digest = digest_of password m vs in
      let sent = add_attribute (signed password m vs) fp in
      let (value, p, value_size) = write_value_size w laws fp sound in
      let us = attribute_bytes w fp value in
      let q =
        write-add_attribute w laws (signed password m vs) fp _ value
          (signed_attributes password m vs e) p in
      let whole : (header w sent ++ (vs ++ attribute_bytes w mi digest)) ++ us ≡ bytes =
        eq_of_some (sym q ∙ written) in
      let len : sent.length ≡ m.length + 32 = sent_length in
      let us_size : length us ≡ 8 =
        omega (arith, length-attribute_bytes w laws fp value, four, l) in
      rw (← whole, append_assoc, append_assoc vs, ← append_assoc (header w sent))
        (validate-digest w laws password sent mi m.attrs vs us digest
          (unfold signed add_attribute in v.id_length) v.sound none e
          (unfold byte_string_attribute in refl) (omega (arith, len))
          (omega (arith, len, padded_sizes-aligned m.attrs, v.sized)) (omega (arith, len, us_size))
          (ap (λ (h : List ℕ). w.compute_hmac password (h ++ vs))
            (header-same (add_attribute m integrity_placeholder)
              (record sent { length = length vs + 24 }) (unfold signed add_attribute in refl)
              digest_length (unfold signed add_attribute in refl))))
    where
      four : padded fp.length ≡ 4
      four = rw l (unfold padded in refl)

      sent_length : (add_attribute (signed password m vs) fp).length ≡ m.length + 32
      sent_length =
          let (_, n) = signed-IsValid password m vs v (omega arith) in
          unfold add_attribute in omega (arith, four, n)

      digest_length : (add_attribute m integrity_placeholder).length ≡ length vs + 24
      digest_length =
          unfold add_attribute padded integrity_placeholder byte_string_attribute in
          omega (arith, size)

  signed_lem :
      (password : List ℕ) (m : StunMessage) (vs : List ℕ)
      → write_attributes w m.attrs ≡ some vs
      → add_message_integrity w password m ≡ (true, signed password m vs)
  unfolding signed
  signed_lem password m vs e = add_message_integrity_lem w laws password m vs e

  status_ok :
      (password : List ℕ) (received : StunMessage) (a : StunAttribute)
      → get_attribute received stun_attr_message_integrity ≡ some a
      → validate_integrity_data w password received.buffer ≡ true
      → (validate_message_integrity w password received).integrity ≡ integrity_ok
  unfolding validate_message_integrity
  status_ok password received a found valid = rw (validate_message_integrity, found, valid)

  sealed-IsAccepted :
      (password : List ℕ) (m fresh : StunMessage) (vs : List ℕ) (fp : StunAttribute)
      → IsValid m
      → Lacks stun_attr_message_integrity m.attrs
      → m.length + 32 < 2 ^ 16
      → bit_and m.type 0x0800 ≡ 0
      → write_attributes w m.attrs ≡ some vs
      → length vs ≡ m.length
      → IsSound fp
      → fp.length ≡ 4
      → let sent = add_attribute (signed password m vs) fp in
        IsValid sent
        → (bytes : List ℕ) → write w sent ≡ some bytes
        → validate_fingerprint w bytes ≡ true
        → IsAccepted w password fresh sent
  sealed-IsAccepted password m fresh vs fp v none room bit e size sound l sv bytes written checked =
      (
        bytes,
        _,
        written,
        checked,
        read-write w laws (add_attribute (signed password m vs) fp) fresh bytes sv
            (unfold signed add_attribute in bit) written,
        status_ok password _ (integrity_of w laws password m vs) (unfold get_attribute in found)
            (sent_digest password m vs bytes fp v none room e size sound l written),
      )
    where
      found :
          find_attribute stun_attr_message_integrity
            (kept (add_attribute (signed password m vs) fp).attrs)
          ≡ some (integrity_of w laws password m vs)
      found =
          unfold signed add_attribute in
          rw append_assoc (
            find_kept m.attrs (fp ∷ []) (integrity_of w laws password m vs) none
              (unfold byte_string_attribute in refl))

  pub validate-add_message_integrity :
      (password : List ℕ) (m fresh : StunMessage)
      → IsValid m
      → Lacks stun_attr_message_integrity m.attrs
      → m.length + 32 < 2 ^ 16
      → bit_and m.type 0x0800 ≡ 0
      → IsAccepted w password fresh (add_fingerprint w (add_message_integrity w password m).1).1
  validate-add_message_integrity password m fresh v none room bit =
      let (vs, e, _, size, _) = write-IsValid w laws m v in
      let (v1, grown) = signed-IsValid password m vs v (omega arith) in
      let (_, v2, bytes, written, checked) =
        rw (add_fingerprint_lem w laws (signed password m vs) _ (signed_attributes password m vs e))
          at (validate-add_fingerprint w laws (signed password m vs) v1 (omega arith)) in
      rw
        (
          signed_lem password m vs e,
          add_fingerprint_lem w laws (signed password m vs) _ (signed_attributes password m vs e),
        )
        (sealed-IsAccepted password m fresh vs _ v none room bit e size
          (fingerprint_of-IsSound w laws (signed password m vs) _) (unfold uint32_attribute in refl)
          v2 bytes written checked)
