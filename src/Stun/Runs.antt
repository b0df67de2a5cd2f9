-- ===== src/Stun/Runs.antt =====
-- The theorems about STUN messages at a small binding request, and runs of the code on it.
use grtcserver.Base.{
  ℕ, ◌+◌, ◌%◌, ◌≡◌, refl, List, [], ◌∷◌, ◌++◌, some, true, arith, length, replicate, bit_and, All,
}
use grtcserver.Wire.Sample.{sample_wire, sample_wire-IsWire}
use grtcserver.Stun.{
  StunAttribute, StunMessage, byte_string, empty_message, stun_binding_request, not_set, padded,
  stun_attr_username, stun_error_global_fall, error_code_attribute, write_value,
}
use grtcserver.Stun.Message.{
  add_attribute, write, read, read_attributes, read_attribute, get_error_code_value,
  get_attribute_value_type,
}
use grtcserver.Stun.Layout.{IsSound, IsValid, add_attribute-IsValid}
use grtcserver.Stun.RoundTrip.{kept, read-write}
use grtcserver.Stun.Fingerprint.{add_fingerprint, validate_fingerprint}
use grtcserver.Stun.Checksum.{validate-add_fingerprint}
use grtcserver.Stun.Reading.{IsKnown, read_attributes_fuel, read-IsKnown, get_error_code_value-read}

-- USERNAME "a:b"
abbrev username : StunAttribute
username = record { type = stun_attr_username; length = 3; value = byte_string (97 ∷ 58 ∷ 98 ∷ []) }

abbrev request : StunMessage
request = record {
  type = stun_binding_request;
  length = 8;
  transaction_id = replicate 12 0x30;
  attrs = username ∷ [];
  integrity = not_set;
  password = [];
  buffer = [];
}

username-IsSound : IsSound username
unfolding get_attribute_value_type
username-IsSound = record {
  type_fits = omega arith;
  length_fits = omega arith;
  fit = (refl, λ e. cc);
}

request-IsValid : IsValid request
unfolding padded
request-IsValid = record {
  sound = (username-IsSound, tt);
  sized = refl;
  fits = omega arith;
  type_fits = omega arith;
  id_length = refl;
}

abbrev request_bytes : List ℕ
request_bytes =
    0 ∷ 1 ∷ 0 ∷ 8 ∷ 0x21 ∷ 0x12 ∷ 0xA4 ∷ 0x42 ∷ replicate 12 0x30
    ++ (0 ∷ 6 ∷ 0 ∷ 3 ∷ 97 ∷ 58 ∷ 98 ∷ 0 ∷ [])

request_written : write sample_wire request ≡ some request_bytes
unfolding write write_value
request_written = refl

-- An error response with the code 401, as send_binding_error_response builds it.
abbrev error_bytes : List ℕ
error_bytes =
    1 ∷ 0x11 ∷ 0 ∷ 8 ∷ 0x21 ∷ 0x12 ∷ 0xA4 ∷ 0x42 ∷ replicate 12 0x30
    ++ (0 ∷ 9 ∷ 0 ∷ 4 ∷ 0 ∷ 0 ∷ 4 ∷ 1 ∷ [])

abbrev error_response : StunMessage
error_response = record request {
  type = 0x0111;
  length = 8;
  attrs = error_code_attribute 401 [] ∷ [];
}

error_written : write sample_wire error_response ≡ some error_bytes
unfolding write write_value error_code_attribute
error_written = refl

add_attribute-IsValid_example :
    IsValid (add_attribute request username) × ((add_attribute request username).length % 4 ≡ 0)
unfolding padded
add_attribute-IsValid_example =
    add_attribute-IsValid request username request-IsValid username-IsSound (omega arith)

read-write_example :
    read sample_wire empty_message request_bytes
    ≡ some (record empty_message {
      type = stun_binding_request;
      length = 8;
      transaction_id = replicate 12 0x30;
      attrs = kept (username ∷ []);
      buffer = request_bytes;
    })
read-write_example =
    read-write sample_wire sample_wire-IsWire request empty_message request_bytes request-IsValid
      refl request_written

validate-add_fingerprint_example :
    ((add_fingerprint sample_wire request).0 ≡ true)
    × IsValid (add_fingerprint sample_wire request).1
    × (bytes : List ℕ) × (write sample_wire (add_fingerprint sample_wire request).1 ≡ some bytes)
    × (validate_fingerprint sample_wire bytes ≡ true)
validate-add_fingerprint_example =
    validate-add_fingerprint sample_wire sample_wire-IsWire request request-IsValid (omega arith)

read_attributes_fuel_example :
    read_attributes sample_wire (4 + 3) [] (0 ∷ 7 ∷ 0 ∷ 0 ∷ [])
    ≡ read_attributes sample_wire 4 [] (0 ∷ 7 ∷ 0 ∷ 0 ∷ [])
read_attributes_fuel_example =
    read_attributes_fuel sample_wire sample_wire-IsWire 4 3 [] (0 ∷ 7 ∷ 0 ∷ 0 ∷ []) (omega arith)

abbrev received_error : StunMessage
received_error = record empty_message {
  type = 0x0111;
  length = 8;
  transaction_id = replicate 12 0x30;
  attrs = [];
  buffer = error_bytes;
}

error_read : read sample_wire empty_message error_bytes ≡ some received_error
unfolding read get_attribute_value_type padded read_attribute
error_read = refl

read-IsKnown_example :
    (length error_bytes ≡ 20 + received_error.length)
    × (bit_and received_error.type 0x0800 ≡ 0)
    × (received_error.buffer ≡ error_bytes)
    × All IsKnown received_error.attrs
read-IsKnown_example =
    read-IsKnown sample_wire sample_wire-IsWire empty_message received_error error_bytes error_read

get_error_code_value-read_example : get_error_code_value received_error ≡ stun_error_global_fall
get_error_code_value-read_example =
    get_error_code_value-read sample_wire sample_wire-IsWire empty_message received_error
      error_bytes error_read
