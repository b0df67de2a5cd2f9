-- ===== src/Session/Channels.antt =====
-- The look-up of a channel by name, behind create_channel and set_ice_params.
use grtcserver.Base.{
  List, [], ◌∷◌, ◌++◌, none, some, true, false, bytes_eq, bytes_eq_refl, ℕ, sym, ◌≡◌, ap,
  eq_of_some, bytes_eq→eq, refl, ◌∙◌, inl, inr, Bool-cases, Option-cases,
}
use grtcserver.Connection.{IceParameters}
use grtcserver.Session.{NamedChannel, get_channel, is_channel, create_channel, set_channel_params}

pub get_channel-append :
    (name : List ℕ) (channels : List NamedChannel) (c ch : NamedChannel)
    → get_channel name channels ≡ some ch
    → get_channel name (channels ++ c ∷ []) ≡ some ch
unfolding get_channel
get_channel-append name [] c ch h = absurd (let f : none ≡ some ch = h in cc)
get_channel-append name (x ∷ channels) c ch h = elim (Bool-cases (bytes_eq name x.transport_name)) [
  | inl e ↦ rw e (rw e at h)
  | inr e ↦ rw e (get_channel-append name channels c ch (rw e at h))
]

pub get_channel-snoc :
    (name : List ℕ) (channels : List NamedChannel)
    → get_channel name channels ≡ none
    → get_channel name (channels ++ record { transport_name = name; ice_params = none } ∷ [])
      ≡ some (record { transport_name = name; ice_params = none })
unfolding get_channel
get_channel-snoc name [] h = rw (bytes_eq_refl name) refl
get_channel-snoc name (x ∷ channels) h = elim (Bool-cases (bytes_eq name x.transport_name)) [
  | inl e ↦ absurd (let f : some x ≡ none = rw e at h in cc)
  | inr e ↦ rw e (get_channel-snoc name channels (rw e at h))
]

pub get_channel-create_channel :
    (name : List ℕ) (channels : List NamedChannel)
    → (ch : NamedChannel) × (get_channel name (create_channel name channels) ≡ some ch)
unfolding create_channel is_channel
get_channel-create_channel name channels = elim (Option-cases (get_channel name channels)) [
  | inl e ↦ (
    record { transport_name = name; ice_params = none },
    rw (create_channel, e) (get_channel-snoc name channels e),
  )
  | inr (ch, e) ↦ (ch, rw (create_channel, e) e)
]

pub create_channel-keeps :
    (name other : List ℕ) (channels : List NamedChannel) (ch : NamedChannel)
    → get_channel other channels ≡ some ch
    → get_channel other (create_channel name channels) ≡ some ch
unfolding create_channel is_channel
create_channel-keeps name other channels ch h = elim (Option-cases (get_channel name channels)) [
  | inl e ↦
      rw (create_channel, e)
        (get_channel-append other channels (record { transport_name = name; ice_params = none }) ch
          h)
  | inr (c, e) ↦ rw (create_channel, e) h
]

pub get_channel-set_channel_params :
    (name : List ℕ) (params : IceParameters) (channels : List NamedChannel) (ch : NamedChannel)
    → get_channel name channels ≡ some ch
    → get_channel name (set_channel_params name params channels)
      ≡ some (record ch { ice_params = some params })
unfolding get_channel set_channel_params
get_channel-set_channel_params name params [] ch h = absurd (let f : none ≡ some ch = h in cc)
get_channel-set_channel_params name params (c ∷ channels) ch h =
    elim (Bool-cases (bytes_eq name c.transport_name)) [
      | inl e ↦
          (let same : c ≡ ch = eq_of_some (rw e at h) in
            rw (e, e)
              (ap (λ (d : NamedChannel). some (record d { ice_params = some params })) same))
      | inr e ↦ rw (e, e) (get_channel-set_channel_params name params channels ch (rw e at h))
    ]

pub set_channel_params-other :
    (name other : List ℕ) (params : IceParameters) (channels : List NamedChannel)
    → bytes_eq name other ≡ false
    → get_channel other (set_channel_params name params channels) ≡ get_channel other channels
unfolding get_channel set_channel_params
set_channel_params-other name other params [] h = refl
set_channel_params-other name other params (c ∷ channels) h =
    elim (Bool-cases (bytes_eq name c.transport_name)) [
      | inl e ↦ (elim (Bool-cases (bytes_eq other c.transport_name)) [
        | inl f ↦ absurd (
            let g : bytes_eq name other ≡ true =
              ap (bytes_eq name) (bytes_eq→eq other c.transport_name f) ∙ e in
            cc)
        | inr f ↦ rw (e, f) refl
      ])
      | inr e ↦ (elim (Bool-cases (bytes_eq other c.transport_name)) [
        | inl f ↦ rw (e, f) refl
        | inr f ↦ rw (e, f) (set_channel_params-other name other params channels h)
      ])
    ]

pub get_channel-other :
    (name other : List ℕ) (channels : List NamedChannel)
    → bytes_eq other name ≡ false
    → get_channel other (channels ++ record { transport_name = name; ice_params = none } ∷ [])
      ≡ get_channel other channels
unfolding get_channel
get_channel-other name other [] h = rw h refl
get_channel-other name other (x ∷ channels) h =
    elim (Bool-cases (bytes_eq other x.transport_name)) [
      | inl e ↦ rw e refl
      | inr e ↦ rw e (get_channel-other name other channels h)
    ]

pub create_channel-other :
    (name other : List ℕ) (channels : List NamedChannel)
    → bytes_eq other name ≡ false
    → get_channel other (create_channel name channels) ≡ get_channel other channels
unfolding create_channel is_channel
create_channel-other name other channels h = elim (Option-cases (get_channel name channels)) [
  | inl e ↦ rw (create_channel, e) (get_channel-other name other channels h)
  | inr (c, e) ↦ rw (create_channel, e) refl
]

pub bytes_eq-swap : (xs ys : List ℕ) → bytes_eq xs ys ≡ false → bytes_eq ys xs ≡ false
bytes_eq-swap xs ys h = elim (Bool-cases (bytes_eq ys xs)) [
  | inl e ↦ absurd (
      let f : true ≡ false =
        sym (bytes_eq_refl xs) ∙ ap (bytes_eq xs) (sym (bytes_eq→eq ys xs e)) ∙ h in
      cc)
  | inr e ↦ e
]
