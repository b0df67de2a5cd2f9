-- ===== src/Stun/Message.antt =====
-- ice/stun.cpp: add_attribute, write, read and the attribute lookups of StunMessage.
use grtcserver.Base.{
  ℕ, zero, suc, ◌+◌, ◌-◌, ◌*◌, ◌%◌, ◌^◌, List, [], ◌∷◌, ◌++◌, Option, none, some, ◌==◌, bit_and,
  if◌then◌else◌, length, ◌>>=◌, ◌>>◌, require,
}
use grtcserver.Wire.{Wire}
use grtcserver.Stun.{
  StunAttribute, StunMessage, StunAttributeValueType, byte_string, uint32, error_code, padded,
  write_value, k_stun_magic_cookie, k_stun_attribute_header_size, stun_attr_username,
  stun_attr_message_integrity, stun_attr_priority, stun_attr_error_code, stun_error_global_fall,
}

-- `_length` is a uint16_t.
unfoldable pub add_attribute : StunMessage → StunAttribute → StunMessage
add_attribute m attr = record m {
  length = (m.length + (padded attr.length + k_stun_attribute_header_size)) % 2 ^ 16;
  attrs = m.attrs ++ (attr ∷ []);
}

-- The first attribute of the type.
unfoldable pub find_attribute : ℕ → List StunAttribute → Option StunAttribute
find_attribute type [] = none
find_attribute type (attr ∷ attrs) =
    if attr.type == type then some attr else find_attribute type attrs

unfoldable pub get_attribute : StunMessage → ℕ → Option StunAttribute
unfolding find_attribute
get_attribute m type = find_attribute type m.attrs

-- The static_cast of get_byte_string and get_uint32: an attribute of another class is no value.
unfoldable pub bytes_of : StunAttribute → Option (List ℕ)
bytes_of attr = elim attr.value [ byte_string bytes ↦ some bytes | _ ↦ none ]

unfoldable pub bits_of : StunAttribute → Option ℕ
bits_of attr = elim attr.value [ uint32 bits ↦ some bits | _ ↦ none ]

unfoldable pub get_byte_string : StunMessage → ℕ → Option (List ℕ)
unfolding get_attribute bytes_of
get_byte_string m type = get_attribute m type >>= bytes_of

unfoldable pub get_uint32 : StunMessage → ℕ → Option ℕ
unfolding get_attribute bits_of
get_uint32 m type = get_attribute m type >>= bits_of

-- StunErrorCodeAttribute::code, for the attribute that get_error_code finds.
unfoldable pub code_of : StunAttribute → Option ℕ
code_of attr = elim attr.value [
  | error_code cls number reason ↦ some (cls * 100 + number)
  | _ ↦ none
]

unfoldable pub get_error_code_value : StunMessage → ℕ
unfolding get_attribute code_of
get_error_code_value m = elim (get_attribute m stun_attr_error_code >>= code_of) [
  | some code ↦ code
  | none ↦ stun_error_global_fall
]

unfoldable pub get_attribute_value_type : ℕ → StunAttributeValueType
get_attribute_value_type type =
    if type == stun_attr_username
    then StunAttributeValueType.byte_string_value
    else if type == stun_attr_message_integrity
    then StunAttributeValueType.byte_string_value
    else if type == stun_attr_priority
    then StunAttributeValueType.uint32_value
    else StunAttributeValueType.unknown

module _ (w : Wire) where
  abbrev pub attribute_bytes : StunAttribute → List ℕ → List ℕ
  attribute_bytes attr value = w.write_uint16 attr.type ++ (w.write_uint16 attr.length ++ value)

  -- One round of the loop of StunMessage::write.
  unfoldable pub write_attribute : StunAttribute → Option (List ℕ)
  write_attribute attr = do
    value ← write_value w attr.length attr.value
    some (attribute_bytes attr value)

  unfoldable pub write_attributes : List StunAttribute → Option (List ℕ)
  unfolding write_attribute
  write_attributes [] = some []
  write_attributes (attr ∷ attrs) = do
    first ← write_attribute attr
    rest ← write_attributes attrs
    some (first ++ rest)

  unfoldable pub header : StunMessage → List ℕ
  header m =
      w.write_uint16 m.type
      ++ (w.write_uint16 m.length
          ++ (w.write_uint32 k_stun_magic_cookie ++ w.write_bytes m.transaction_id))

  -- StunMessage::write: the bytes, or `none` for `false`.
  unfoldable pub write : StunMessage → Option (List ℕ)
  unfolding write_attributes header
  write m = do rest ← write_attributes m.attrs; some (header m ++ rest)

  -- consume_padding ignores the answer of Consume.
  unfoldable pub consume_padding : ℕ → List ℕ → List ℕ
  consume_padding n buf =
      if n % 4 == 0 then buf else elim (w.consume (4 - n % 4) buf) [ none ↦ buf | some rest ↦ rest ]

  -- `attr->read(buf)` for the two classes that _create_attribute makes. A uint32 attribute keeps
  -- the length 4 of its constructor, so the test of its `read` on that length passes.
  unfoldable pub read_byte_string : ℕ → ℕ → List ℕ → Option (StunAttribute × List ℕ)
  unfolding consume_padding
  read_byte_string type n buf = do
    (bytes, rest) ← w.read_bytes n buf
    some (record { type = type; length = n; value = byte_string bytes }, consume_padding n rest)

  unfoldable pub read_uint32_attribute : ℕ → List ℕ → Option (StunAttribute × List ℕ)
  read_uint32_attribute type buf = do
    (bits, rest) ← w.read_uint32 buf
    some (record { type = type; length = 4; value = uint32 bits }, rest)

  -- An attribute that is not known is skipped; its length is padded in a uint16_t.
  unfoldable pub skip_attribute : ℕ → List ℕ → Option (List ℕ)
  skip_attribute n buf = w.consume (padded n % 2 ^ 16) buf

  unfoldable pub read_attribute : ℕ → ℕ → List ℕ → Option (List StunAttribute × List ℕ)
  unfolding get_attribute_value_type read_byte_string read_uint32_attribute skip_attribute
  read_attribute type n buf = elim (get_attribute_value_type type) [
    | StunAttributeValueType.byte_string_value ↦
        (read_byte_string type n buf >>= λ r. some (r.0 ∷ [], r.1))
    | StunAttributeValueType.uint32_value ↦
        (read_uint32_attribute type buf >>= λ r. some (r.0 ∷ [], r.1))
    | StunAttributeValueType.unknown ↦ (skip_attribute n buf >>= λ rest. some ([], rest))
  ]

  -- One round of the loop of StunMessage::read.
  unfoldable pub read_round : List ℕ → Option (List StunAttribute × List ℕ)
  unfolding read_attribute
  read_round buf = do
    (attr_type, buf1) ← w.read_uint16 buf
    (attr_length, buf2) ← w.read_uint16 buf1
    read_attribute attr_type attr_length buf2

  -- `while (buf->Length() > 0)`. Each round takes 4 bytes at least, so the length is enough fuel.
  unfoldable pub read_attributes : ℕ → List StunAttribute → List ℕ → Option (List StunAttribute)
  read_attributes fuel attrs [] = some attrs
  read_attributes zero attrs (b ∷ bs) = none
  read_attributes (suc fuel) attrs (b ∷ bs) = elim (read_round (b ∷ bs)) [
    | none ↦ none
    | some (found, rest) ↦ read_attributes fuel (attrs ++ found) rest
  ]

  -- StunMessage::read. A message whose `read` fails is dropped by the only caller.
  unfoldable pub read : StunMessage → List ℕ → Option StunMessage
  unfolding read_attributes read_round
  read m input = do
    (type, buf1) ← w.read_uint16 input
    require (bit_and type 0x0800 == 0)
    (len, buf2) ← w.read_uint16 buf1
    (magic_cookie, buf3) ← w.read_bytes 4 buf2
    (transaction_id, buf4) ← w.read_bytes 12 buf3
    require (length buf4 == len)
    attrs ← read_attributes (length buf4) [] buf4
    some (record m {
      type = type;
      length = len;
      transaction_id =
          (if w.get_be32 magic_cookie == k_stun_magic_cookie
            then transaction_id
            else magic_cookie ++ transaction_id);
      attrs = attrs;
      buffer = input;
    })
