-- ===== src/Stun.antt =====
-- ice/stun.h and ice/stun.cpp: the constants, the attributes and the state of a STUN message.
-- A byte string is a list of numbers below 256. The children hold the operations.
pub mod Message
pub mod Layout
pub mod RoundTrip
pub mod Appended
pub mod Fields
pub mod Checksum
pub mod Search
pub mod Authentic
pub mod Exchange
pub mod Reading
mod Runs
pub mod Fingerprint
pub mod Integrity
use grtcserver.Base.{
  ℕ, ◌+◌, ◌-◌, ◌*◌, ◌/◌, ◌%◌, ◌^◌, List, [], ◌∷◌, ◌++◌, Option, none, some, Bool, true, false, ◌==◌,
  ◌||◌, bit_and, bit_or, bit_xor, if◌then◌else◌, length, replicate, take,
}
use grtcserver.Wire.{Wire}

abbrev pub k_stun_header_size : ℕ
k_stun_header_size = 20

abbrev pub k_stun_attribute_header_size : ℕ
k_stun_attribute_header_size = 4

abbrev pub k_stun_magic_cookie : ℕ
k_stun_magic_cookie = 0x2112A442

abbrev pub k_stun_message_integrity_size : ℕ
k_stun_message_integrity_size = 20

-- StunMessageType
abbrev pub stun_binding_request : ℕ
stun_binding_request = 0x0001

abbrev pub stun_binding_response : ℕ
stun_binding_response = 0x0101

abbrev pub stun_binding_error_response : ℕ
stun_binding_error_response = 0x0111

-- StunAttributeType
abbrev pub stun_attr_username : ℕ
stun_attr_username = 0x0006

abbrev pub stun_attr_message_integrity : ℕ
stun_attr_message_integrity = 0x0008

abbrev pub stun_attr_error_code : ℕ
stun_attr_error_code = 0x0009

abbrev pub stun_attr_xor_mapped_address : ℕ
stun_attr_xor_mapped_address = 0x020

abbrev pub stun_attr_priority : ℕ
stun_attr_priority = 0x0024

abbrev pub stun_attr_use_candidate : ℕ
stun_attr_use_candidate = 0x0025

abbrev pub stun_attr_fingerprint : ℕ
stun_attr_fingerprint = 0x8028

abbrev pub stun_attr_ice_controlling : ℕ
stun_attr_ice_controlling = 0x802A

pub data StunAttributeValueType : Type 0 where
  unknown uint32_value byte_string_value : StunAttributeValueType

-- StunErrorCode
abbrev pub stun_error_bad_request : ℕ
stun_error_bad_request = 400

abbrev pub stun_error_unauthorized : ℕ
stun_error_unauthorized = 401

abbrev pub stun_error_unknown_attribute : ℕ
stun_error_unknown_attribute = 420

abbrev pub stun_error_server_error : ℕ
stun_error_server_error = 500

abbrev pub stun_error_global_fall : ℕ
stun_error_global_fall = 600

pub data IntegrityStatus : Type 0 where
  not_set no_integrity integrity_ok integrity_bad : IntegrityStatus

-- What the code observes of an rtc::SocketAddress: family(), port(), and the bytes of ipaddr()
-- as they lie in memory, in network order.
pub data AddressFamily : Type 0 where
  af_inet af_inet6 af_unspec : AddressFamily

pub record SocketAddress : Type 0 where
  pub family : AddressFamily
  pub port : ℕ
  pub host : List ℕ

-- What the subclasses of StunAttribute add to its type and length.
pub data AttributeValue : Type 0 where
  byte_string : List ℕ → AttributeValue
  uint32 : ℕ → AttributeValue
  uint64 : ℕ → AttributeValue
  address : SocketAddress → AttributeValue
  xor_address : SocketAddress → AttributeValue
  error_code : ℕ → ℕ → List ℕ → AttributeValue  -- _class, _number, _reason

pub record StunAttribute : Type 0 where
  pub type : ℕ
  pub length : ℕ
  pub value : AttributeValue

pub record StunMessage : Type 0 where
  pub type : ℕ
  pub length : ℕ
  pub transaction_id : List ℕ
  pub attrs : List StunAttribute
  pub integrity : IntegrityStatus
  pub password : List ℕ
  pub buffer : List ℕ

-- StunMessage::StunMessage; EMPTY_TRANSACTION_ID is twelve '0'.
unfoldable pub empty_message : StunMessage
empty_message = record {
  type = 0;
  length = 0;
  transaction_id = replicate 12 0x30;
  attrs = [];
  integrity = not_set;
  password = [];
  buffer = [];
}

-- is_stun_request_type, and the two response types; `none` is -1.
unfoldable pub is_stun_request_type : ℕ → Bool
is_stun_request_type req_type = bit_and req_type 0x0110 == 0

unfoldable pub get_stun_success_response : ℕ → Option ℕ
unfolding is_stun_request_type
get_stun_success_response req_type =
    if is_stun_request_type req_type then some (bit_or req_type 0x100) else none

unfoldable pub get_stun_error_response : ℕ → Option ℕ
unfolding is_stun_request_type
get_stun_error_response req_type =
    if is_stun_request_type req_type then some (bit_or req_type 0x110) else none

-- The size of a value with its padding, as in add_attribute.
unfoldable pub padded : ℕ → ℕ
padded n = if n % 4 == 0 then n else n + (4 - n % 4)

-- StunByteStringAttribute(type, str): copy_bytes, with set_length on a uint16_t.
unfoldable pub byte_string_attribute : ℕ → List ℕ → StunAttribute
byte_string_attribute type str = record {
  type = type;
  length = length str % 2 ^ 16;
  value = byte_string str;
}

unfoldable pub uint32_attribute : ℕ → ℕ → StunAttribute
uint32_attribute type bits = record { type = type; length = 4; value = uint32 bits }

unfoldable pub uint64_attribute : ℕ → ℕ → StunAttribute
uint64_attribute type bits = record { type = type; length = 8; value = uint64 bits }

-- StunXorAddressAttribute, with the length that set_address gives.
unfoldable pub address_length : AddressFamily → ℕ
address_length af_inet = 8
address_length af_inet6 = 20
address_length af_unspec = 0

unfoldable pub xor_address_attribute : ℕ → SocketAddress → StunAttribute
unfolding address_length
xor_address_attribute type addr = record {
  type = type;
  length = address_length addr.family;
  value = xor_address addr;
}

-- create_error_code, set_code and set_reason.
unfoldable pub error_code_attribute : ℕ → List ℕ → StunAttribute
error_code_attribute code reason = record {
  type = stun_attr_error_code;
  length = (4 + length reason) % 2 ^ 16;
  value = error_code (code / 100 % 2 ^ 8) (code % 100 % 2 ^ 8) reason;
}

-- family()
unfoldable pub stun_family : AddressFamily → ℕ
stun_family af_unspec = 0
stun_family af_inet = 1
stun_family af_inet6 = 2

-- `s_addr ^ HostToNetwork32(cookie)`, on the bytes in memory.
unfoldable pub xor_bytes : List ℕ → List ℕ → List ℕ
xor_bytes [] ys = []
xor_bytes (x ∷ xs) [] = []
xor_bytes (x ∷ xs) (y ∷ ys) = bit_xor x y ∷ xor_bytes xs ys

module _ (w : Wire) where
  -- write_padding, for an attribute of the given length
  unfoldable pub padding : ℕ → List ℕ
  padding n = if n % 4 == 0 then [] else w.write_bytes (replicate (4 - n % 4) 0)

  abbrev pub address_body : ℕ → ℕ → List ℕ → List ℕ
  address_body family port host =
      w.write_uint8 0 ++ (w.write_uint8 family ++ (w.write_uint16 port ++ w.write_bytes host))

  unfoldable pub write_address : SocketAddress → Option (List ℕ)
  unfolding stun_family
  write_address a = elim a.family [
    | af_unspec ↦ none
    | af_inet ↦ some (address_body (stun_family a.family) a.port a.host)
    | af_inet6 ↦ some (address_body (stun_family a.family) a.port a.host)
  ]

  -- _get_xored_ip has an address for IPv4 alone.
  unfoldable pub write_xor_address : SocketAddress → Option (List ℕ)
  unfolding stun_family xor_bytes
  write_xor_address a = elim a.family [
    | af_unspec ↦ none
    | af_inet ↦ some (
        address_body (stun_family a.family) (bit_xor a.port (k_stun_magic_cookie / 2 ^ 16))
          (xor_bytes a.host (w.write_uint32 k_stun_magic_cookie)))
    | af_inet6 ↦ none
  ]

  -- The `write` of each attribute class, for an attribute of the given length; `none` is `false`.
  -- A byte string writes `length` bytes of its array.
  unfoldable pub write_value : ℕ → AttributeValue → Option (List ℕ)
  unfolding padding write_address write_xor_address
  write_value n (byte_string bytes) = some (w.write_bytes (take n bytes) ++ padding n)
  write_value n (uint32 bits) = some (w.write_uint32 bits)
  write_value n (uint64 bits) = some (w.write_uint64 bits)
  write_value n (address a) = write_address a
  write_value n (xor_address a) = write_xor_address a
  write_value n (error_code cls number reason) =
      some (w.write_uint32 (bit_or (cls * 2 ^ 8) number) ++ (w.write_bytes reason ++ padding n))
