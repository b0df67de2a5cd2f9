-- ===== src/Port/Runs.antt =====
-- A binding request at a port, from its bytes on.
use grtcserver.Base.{ℕ, List, [], ◌∷◌, some, true, ◌==◌, ◌≡◌, refl, if◌then◌else◌, replicate}
use grtcserver.Wire.Sample.{sample_wire}
use grtcserver.Stun.{StunMessage, empty_message, byte_string, uint32, integrity_ok, padded}
use grtcserver.Stun.Message.{read, get_byte_string}
use grtcserver.Stun.Fingerprint.{validate_fingerprint}
use grtcserver.Stun.Integrity.{validate_message_integrity}
use grtcserver.Connection.{IceParameters}
use grtcserver.Port.{message, get_stun_message}
use grtcserver.Port.Authenticated.{IsAuthentic, get_stun_message-IsAuthentic}

-- The fields between separators.
abbrev prepend : ℕ → List (List ℕ) → List (List ℕ)
prepend x [] = (x ∷ []) ∷ []
prepend x (field ∷ fields) = (x ∷ field) ∷ fields

abbrev sample_split : ℕ → List ℕ → List (List ℕ)
sample_split separator [] = [] ∷ []
sample_split separator (x ∷ xs) =
    let rest = sample_split separator xs in if x == separator then [] ∷ rest else prepend x rest

abbrev port_params : IceParameters
port_params = record { ice_ufrag = 114 ∷ []; ice_pwd = 112 ∷ [] }

-- A ping, USERNAME "r:l", sealed with the password "p".
abbrev packet : List ℕ
packet =
    0 ∷ 1 ∷ 0 ∷ 64 ∷ 33 ∷ 18 ∷ 164 ∷ 66 ∷ 7 ∷ 7 ∷ 7 ∷ 7 ∷ 7 ∷ 7 ∷ 7 ∷ 7 ∷ 7 ∷ 7 ∷ 7 ∷ 7 ∷ 0 ∷ 6 ∷ 0
    ∷ 3 ∷ 114 ∷ 58 ∷ 108 ∷ 0 ∷ 128 ∷ 42 ∷ 0 ∷ 8 ∷ 0 ∷ 0 ∷ 0 ∷ 0 ∷ 0 ∷ 0 ∷ 0 ∷ 0 ∷ 0 ∷ 37 ∷ 0 ∷ 0 ∷ 0
    ∷ 36 ∷ 0 ∷ 4 ∷ 110 ∷ 0 ∷ 0 ∷ 7 ∷ 0 ∷ 8 ∷ 0 ∷ 20 ∷ 171 ∷ 171 ∷ 171 ∷ 171 ∷ 171 ∷ 171 ∷ 171 ∷ 171
    ∷ 171 ∷ 171 ∷ 171 ∷ 171 ∷ 171 ∷ 171 ∷ 171 ∷ 171 ∷ 171 ∷ 171 ∷ 171 ∷ 171 ∷ 128 ∷ 40 ∷ 0 ∷ 4 ∷ 83
    ∷ 84 ∷ 68 ∷ 245 ∷ []

abbrev arrived : StunMessage
arrived = record {
  type = 1;
  length = 64;
  transaction_id = replicate 12 7;
  attrs =
      record { type = 6; length = 3; value = byte_string (114 ∷ 58 ∷ 108 ∷ []) }
      ∷ record { type = 36; length = 4; value = uint32 1845493767 }
      ∷ record { type = 8; length = 20; value = byte_string (replicate 20 171) }
      ∷ [];
  integrity = integrity_ok;
  password = 112 ∷ [];
  buffer = packet;
}

taken : get_stun_message sample_wire sample_split port_params packet ≡ message arrived (108 ∷ [])
unfolding get_stun_message validate_fingerprint read padded get_byte_string
    validate_message_integrity
taken = refl

get_stun_message-IsAuthentic_example :
    (m : StunMessage) × (validate_fingerprint sample_wire packet ≡ true)
    × (read sample_wire empty_message packet ≡ some m)
    × IsAuthentic sample_wire sample_split port_params m arrived (108 ∷ [])
get_stun_message-IsAuthentic_example =
    get_stun_message-IsAuthentic sample_wire sample_split port_params packet arrived (108 ∷ [])
      taken refl
