-- ===== src/Stun/Reading.antt =====
-- StunMessage::read on any bytes: its loop ends, and what it takes is well formed.
use grtcserver.Base.{
  ℕ, zero, suc, ◌+◌, ◌-◌, ◌%◌, ◌^◌, ◌≤◌, ◌<◌, ◌≡◌, refl, List, [], ◌∷◌, ◌++◌, none, some, arith,
  length, All, All-append, ◌==◌, Option-cases, inl, inr, ◌⊎◌, >>=-eq-some, require-eq-some,
  eq_of_some, bit_and, ◌>>=◌, ==_iff, require,
}
use grtcserver.Wire.{Wire, IsWire}
use grtcserver.Stun.{
  StunAttribute, StunMessage, StunAttributeValueType, byte_string, uint32, padded,
  stun_attr_error_code, stun_error_global_fall,
}
use grtcserver.Stun.Message.{
  get_attribute_value_type, consume_padding, read_byte_string, read_uint32_attribute,
  skip_attribute, read_attribute, read_round, read_attributes, read, find_attribute,
  get_error_code_value,
}

-- The class and the length that the reader gives to an attribute of a known type.
abbrev pub IsKnown : StunAttribute → Type 0
IsKnown a =
    ((bytes : List ℕ) × (a.value ≡ byte_string bytes)
      × (length bytes ≡ a.length)
      × (get_attribute_value_type a.type ≡ StunAttributeValueType.byte_string_value))
    ⊎ ((bits : ℕ) × (a.value ≡ uint32 bits)
        × (bits < 2 ^ 32)
        × (a.length ≡ 4)
        × (get_attribute_value_type a.type ≡ StunAttributeValueType.uint32_value))

module _ (w : Wire) (laws : IsWire w) where
  open laws use {length-read_uint16, length-read_uint32, length-read_bytes, length-consume}

  length-consume_padding : (n : ℕ) (buf : List ℕ) → length (consume_padding w n buf) ≤ length buf
  unfolding consume_padding
  length-consume_padding n buf = elim (Option-cases (w.consume (4 - n % 4) buf)) [
    | inl e ↦ ground (arith, e)
    | inr (rest, e) ↦ ground (arith, e, length-consume (4 - n % 4) buf rest e)
  ]

  abbrev Shrinks : List ℕ → List StunAttribute × List ℕ → Type 0
  Shrinks buf r = All IsKnown r.0 × (length r.1 ≤ length buf)

  read_attribute-Shrinks :
      (t : StunAttributeValueType) (type n : ℕ) (buf : List ℕ) (r : List StunAttribute × List ℕ)
      → get_attribute_value_type type ≡ t
      → read_attribute w type n buf ≡ some r
      → Shrinks buf r
  unfolding read_attribute read_byte_string read_uint32_attribute skip_attribute
  read_attribute-Shrinks StunAttributeValueType.unknown type n buf r k e =
      let e1 : (w.consume (padded n % 2 ^ 16) buf >>= λ rest. some ([], rest)) ≡ some r =
        rw (k, read_attribute) at e in
      let (rest, c, d) = >>=-eq-some (w.consume (padded n % 2 ^ 16) buf) _ e1 in
      rw (← eq_of_some d) (tt, omega (arith, length-consume _ buf rest c))
  read_attribute-Shrinks StunAttributeValueType.byte_string_value type n buf r k e =
      let e1 : (read_byte_string w type n buf >>= λ q. some (q.0 ∷ [], q.1)) ≡ some r =
        rw (k, read_attribute) at e in
      let (q, c, d) = >>=-eq-some (read_byte_string w type n buf) _ e1 in
      let ((bytes, rest), c2, d2) = >>=-eq-some (w.read_bytes n buf) _ c in
      let (size, left) = length-read_bytes n buf bytes rest c2 in
      rw (← eq_of_some d, ← eq_of_some d2)
        ((inl (bytes, refl, size, k), tt), omega (arith, length-consume_padding n rest, left))
  read_attribute-Shrinks StunAttributeValueType.uint32_value type n buf r k e =
      let e1 : (read_uint32_attribute w type buf >>= λ q. some (q.0 ∷ [], q.1)) ≡ some r =
        rw (k, read_attribute) at e in
      let (q, c, d) = >>=-eq-some (read_uint32_attribute w type buf) _ e1 in
      let ((bits, rest), c2, d2) = >>=-eq-some (w.read_uint32 buf) _ c in
      let (fits, left) = length-read_uint32 buf bits rest c2 in
      rw (← eq_of_some d, ← eq_of_some d2)
        ((inr (bits, refl, fits, refl, k), tt), omega (arith, left))

  -- A round of the loop takes 4 bytes at least.
  read_round-Shrinks :
      (buf : List ℕ) (r : List StunAttribute × List ℕ)
      → read_round w buf ≡ some r
      → All IsKnown r.0 × (length r.1 + 4 ≤ length buf)
  unfolding read_round
  read_round-Shrinks buf r e =
      let ((type, buf1), c1, e1) = >>=-eq-some (w.read_uint16 buf) _ e in
      let ((n, buf2), c2, e2) = >>=-eq-some (w.read_uint16 buf1) _ e1 in
      let (known, less) = read_attribute-Shrinks _ type n buf2 r refl e2 in
      let (_, l1) = length-read_uint16 buf type buf1 c1 in
      let (_, l2) = length-read_uint16 buf1 n buf2 c2 in (known, omega (arith, less, l1, l2))

  -- The loop of read ends: on any fuel that reaches the length of the buffer, more fuel changes
  -- nothing.
  pub read_attributes_fuel :
      (fuel more : ℕ) (acc : List StunAttribute) (buf : List ℕ)
      → length buf ≤ fuel
      → read_attributes w (fuel + more) acc buf ≡ read_attributes w fuel acc buf
  unfolding read_attributes
  read_attributes_fuel fuel more acc [] h = refl
  read_attributes_fuel zero more acc (b ∷ bs) h = absurd (omega arith)
  read_attributes_fuel (suc fuel) more acc (b ∷ bs) h =
      let s : suc fuel + more ≡ suc (fuel + more) = omega arith in
      elim (Option-cases (read_round w (b ∷ bs))) [
        | inl e ↦ rw (s, e, read_attributes)
        | inr ((found, rest), e) ↦
            rw (s, e, read_attributes)
              (read_attributes_fuel fuel more (acc ++ found) rest
                (omega (arith, (read_round-Shrinks (b ∷ bs) (found, rest) e).1)))
      ]

  read_attributes-IsKnown :
      (fuel : ℕ) (acc : List StunAttribute) (buf : List ℕ) (xs : List StunAttribute)
      → All IsKnown acc
      → read_attributes w fuel acc buf ≡ some xs
      → All IsKnown xs
  unfolding read_attributes
  read_attributes-IsKnown fuel acc [] xs k e = let p : acc ≡ xs = eq_of_some e in rw (← p) k
  read_attributes-IsKnown zero acc (b ∷ bs) xs k e = cc
  read_attributes-IsKnown (suc fuel) acc (b ∷ bs) xs k e =
      elim (Option-cases (read_round w (b ∷ bs))) [
        | inl p ↦ (let e' : none ≡ some xs = rw (p, read_attributes) at e in cc)
        | inr ((found, rest), p) ↦
            read_attributes-IsKnown fuel (acc ++ found) rest xs
              (All-append IsKnown acc found k (read_round-Shrinks (b ∷ bs) (found, rest) p).0)
              (rw (p, read_attributes) at e)
      ]

  -- On every input that read takes: the input is 20 bytes longer than the length field; bit 11 of
  -- the type is clear; the input is kept; and each attribute kept is of the class that the reader
  -- gives to its type, with a value of its length.
  pub read-IsKnown :
      (fresh r : StunMessage) (input : List ℕ)
      → read w fresh input ≡ some r
      → (length input ≡ 20 + r.length)
        × (bit_and r.type 0x0800 ≡ 0)
        × (r.buffer ≡ input)
        × All IsKnown r.attrs
  unfolding read
  read-IsKnown fresh r input e =
      let ((type, buf1), c1, e1) = >>=-eq-some (w.read_uint16 input) _ e in
      let (_, c2, e2) = >>=-eq-some (require (bit_and type 0x0800 == 0)) _ e1 in
      let ((n, buf2), c3, e3) = >>=-eq-some (w.read_uint16 buf1) _ e2 in
      let ((cookie, buf3), c4, e4) = >>=-eq-some (w.read_bytes 4 buf2) _ e3 in
      let ((id, buf4), c5, e5) = >>=-eq-some (w.read_bytes 12 buf3) _ e4 in
      let (_, c6, e6) = >>=-eq-some (require (length buf4 == n)) _ e5 in
      let (attrs, c7, e7) = >>=-eq-some (read_attributes w (length buf4) [] buf4) _ e6 in
      let (_, l1) = length-read_uint16 input type buf1 c1 in
      let (_, l2) = length-read_uint16 buf1 n buf2 c3 in
      let (_, l3) = length-read_bytes 4 buf2 cookie buf3 c4 in
      let (_, l4) = length-read_bytes 12 buf3 id buf4 c5 in
      let bit : bit_and type 0x0800 ≡ 0 = (==_iff _ _).0 (require-eq-some _ c2) in
      let len : length buf4 ≡ n = (==_iff _ _).0 (require-eq-some _ c6) in
      rw (← eq_of_some e7) (
        omega (arith, l1, l2, l3, l4, len),
        bit,
        refl,
        read_attributes-IsKnown (length buf4) [] buf4 attrs tt c7,
      )

  known_not_error :
      (xs : List StunAttribute) → All IsKnown xs → find_attribute stun_attr_error_code xs ≡ none
  unfolding find_attribute get_attribute_value_type
  known_not_error [] k = refl
  known_not_error (x ∷ xs) (inl (_, _, _, t), ks) = ground (arith, known_not_error xs ks)
  known_not_error (x ∷ xs) (inr (_, _, _, _, t), ks) = ground (arith, known_not_error xs ks)

  -- Whatever ERROR-CODE the bytes of a response carry, a message that was read answers 600 for
  -- it.
  pub get_error_code_value-read :
      (fresh r : StunMessage) (input : List ℕ)
      → read w fresh input ≡ some r
      → get_error_code_value r ≡ stun_error_global_fall
  unfolding get_error_code_value
  get_error_code_value-read fresh r input e =
      rw (known_not_error r.attrs (read-IsKnown fresh r input e).3, get_error_code_value)
