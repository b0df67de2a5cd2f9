-- ===== src/Port/Authenticated.antt =====
-- A binding request that a port passes on is authentic.
use grtcserver.Base.{
  ℕ, List, Option, none, some, Bool, true, false, not, ◌||◌, ◌==◌, bytes_eq, bytes_eq→eq, ◌≡◌, refl,
  ap, sym, ◌∙◌, Bool-cases, Option-cases, inl, inr, arith,
}
use grtcserver.Wire.{Wire}
use grtcserver.Stun.{
  StunMessage, IntegrityStatus, integrity_ok, empty_message, stun_binding_request,
  stun_attr_username, stun_attr_message_integrity,
}
use grtcserver.Stun.Message.{get_byte_string, read}
use grtcserver.Stun.Fingerprint.{validate_fingerprint}
use grtcserver.Stun.Integrity.{validate_message_integrity}
use grtcserver.Connection.{IceParameters}
use grtcserver.Port.{
  not_stun, rejected, message, is_ok, is_some, parse_stun_username, check_request, classify,
  get_stun_message,
}

is_ok-integrity_ok : (s : IntegrityStatus) → is_ok s ≡ true → s ≡ integrity_ok
unfolding is_ok
is_ok-integrity_ok IntegrityStatus.not_set h = ground arith
is_ok-integrity_ok IntegrityStatus.no_integrity h = ground arith
is_ok-integrity_ok IntegrityStatus.integrity_ok h = refl
is_ok-integrity_ok IntegrityStatus.integrity_bad h = ground arith

message_injective :
    {a b : StunMessage} {x y : List ℕ} → message a x ≡ message b y → (a ≡ b) × (x ≡ y)
message_injective p = (cc, cc)

module _ (w : Wire) (split : ℕ → List ℕ → List (List ℕ)) where
  -- What a passed request went through: it was read from the bytes as a message whose user name is
  -- our ufrag and the sender's, and its MESSAGE-INTEGRITY is that of our password.
  abbrev pub IsAuthentic : IceParameters → StunMessage → StunMessage → List ℕ → Type 0
  IsAuthentic params m passed remote =
      (parse_stun_username split m ≡ some (params.ice_ufrag, remote))
      × (passed ≡ validate_message_integrity w params.ice_pwd m)
      × (passed.integrity ≡ integrity_ok)

  check_request-message :
      (params : IceParameters) (m passed : StunMessage) (names : Option (List ℕ × List ℕ))
      (remote : List ℕ)
      → parse_stun_username split m ≡ names
      → check_request w split params m names ≡ message passed remote
      → IsAuthentic params m passed remote
  unfolding check_request
  check_request-message params m passed none remote n h = absurd (ground arith)
  check_request-message params m passed (some (local, other)) remote n h =
      let m' : StunMessage = validate_message_integrity w params.ice_pwd m in
      elim (Bool-cases (bytes_eq local params.ice_ufrag)) [
        | inr e ↦
            absurd
              (let k : rejected m 401 ≡ message passed remote = rw (check_request, e) at h in cc)
        | inl e ↦ elim (Bool-cases (is_ok m'.integrity)) [
          | inr f ↦ absurd (
              let k : rejected m' 401 ≡ message passed remote = rw (check_request, e, f) at h in cc)
          | inl f ↦
              (let (same, from) = message_injective (rw (check_request, e, f) at h) in
                let local_same : local ≡ params.ice_ufrag = bytes_eq→eq local params.ice_ufrag e in
                (n ∙ cc, sym same, rw same at (is_ok-integrity_ok m'.integrity f)))
        ]
      ]

  classify-request :
      (params : IceParameters) (m passed : StunMessage) (remote : List ℕ)
      → (m.type == stun_binding_request) ≡ true
      → classify w split params m ≡ message passed remote
      → IsAuthentic params m passed remote
  unfolding classify
  classify-request params m passed remote e h = elim (Bool-cases (lacks m)) [
    | inl f ↦
        absurd (let k : rejected m 400 ≡ message passed remote = rw (classify, e, f) at h in cc)
    | inr f ↦
        check_request-message params m passed (parse_stun_username split m) remote refl
          (rw (classify, e, f) at h)
  ]
    where
      lacks : StunMessage → Bool
      lacks m =
          not (is_some (get_byte_string m stun_attr_username))
          || not (is_some (get_byte_string m stun_attr_message_integrity))

  classify-message :
      (params : IceParameters) (m passed : StunMessage) (remote : List ℕ)
      → passed.type ≡ stun_binding_request
      → classify w split params m ≡ message passed remote
      → IsAuthentic params m passed remote
  unfolding classify
  classify-message params m passed remote t h = elim (Bool-cases (m.type == stun_binding_request)) [
    | inr e ↦
        (let (same, _) = message_injective (rw (classify, e) at h) in
          let n : m.type ≡ stun_binding_request = ap (λ x. x.type) same ∙ t in
          absurd (ground arith))
    | inl e ↦ classify-request params m passed remote e h
  ]

  -- A binding request that get_stun_message passes on came as bytes that pass
  -- validate_fingerprint and are read as a message; its user name is our ufrag and the one that
  -- is answered, and its MESSAGE-INTEGRITY is valid under our password.
  pub get_stun_message-IsAuthentic :
      (params : IceParameters) (input : List ℕ) (passed : StunMessage) (remote : List ℕ)
      → get_stun_message w split params input ≡ message passed remote
      → passed.type ≡ stun_binding_request
      → (m : StunMessage) × (validate_fingerprint w input ≡ true)
        × (read w empty_message input ≡ some m)
        × IsAuthentic params m passed remote
  unfolding get_stun_message
  get_stun_message-IsAuthentic params input passed remote h t =
      elim (Bool-cases (validate_fingerprint w input)) [
        | inr e ↦
            absurd (let k : not_stun ≡ message passed remote = rw (get_stun_message, e) at h in cc)
        | inl e ↦ elim (Option-cases (read w empty_message input)) [
          | inl f ↦
              absurd
                (let k : not_stun ≡ message passed remote = rw (get_stun_message, e, f) at h in cc)
          | inr (m, f) ↦ (
            m,
            e,
            f,
            classify-message params m passed remote t (rw (get_stun_message, e, f) at h),
          )
        ]
      ]

  -- Any other message is passed on as it was read.
  pub get_stun_message-read :
      (params : IceParameters) (input : List ℕ) (passed : StunMessage) (remote : List ℕ)
      → get_stun_message w split params input ≡ message passed remote
      → (passed.type == stun_binding_request) ≡ false
      → read w empty_message input ≡ some passed
  unfolding get_stun_message classify validate_message_integrity
  get_stun_message-read params input passed remote h t =
      elim (Bool-cases (validate_fingerprint w input)) [
        | inr e ↦
            absurd (let k : not_stun ≡ message passed remote = rw (get_stun_message, e) at h in cc)
        | inl e ↦ elim (Option-cases (read w empty_message input)) [
          | inl f ↦
              absurd
                (let k : not_stun ≡ message passed remote = rw (get_stun_message, e, f) at h in cc)
          | inr (m, f) ↦ elim (Bool-cases (m.type == stun_binding_request)) [
            | inr g ↦
                (let (same, _) =
                    message_injective (rw (get_stun_message, e, f, classify, g) at h) in
                  rw same at f)
            | inl g ↦
                (let (_, same, _) =
                    classify-request params m passed remote g (rw (get_stun_message, e, f) at h) in
                  let n : passed.type ≡ m.type = ap (λ x. x.type) same in
                  absurd (let k : true ≡ false = sym g ∙ (rw n at t) in cc))
          ]
        ]
      ]
