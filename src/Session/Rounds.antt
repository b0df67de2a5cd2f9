-- ===== src/Session/Rounds.antt =====
-- src/pc/transport_controller.cpp: the rounds of the loop of set_local_description.
use grtcserver.Base.{
  List, [], ◌∷◌, Option, none, some, true, false, bytes_eq, ℕ, sym, ◌≡◌, ap, bytes_eq→eq, refl, ◌∙◌,
  ◌⊎◌, inl, inr, All, Bool-cases, Option-cases,
}
use grtcserver.Connection.{IceParameters}
use grtcserver.Session.{
  TransportDescription, MediaType, SessionDescription, NamedChannel, mid, get_channel,
  create_channel, set_channel_params, is_skipped, get_first_bundle_mid, get_transport_info,
  apply_content, apply_contents, is_bundle,
}
use grtcserver.Session.Channels.{
  get_channel-create_channel, create_channel-keeps, get_channel-set_channel_params,
  set_channel_params-other, create_channel-other, bytes_eq-swap,
}

-- A channel has the parameters of a transport description, if there is one.
abbrev pub IsSetUp : Option TransportDescription → NamedChannel → Type 0
IsSetUp none ch = Unit {0}
IsSetUp (some td) ch =
    ch.ice_params ≡ some (record { ice_ufrag = td.ice_ufrag; ice_pwd = td.ice_pwd })

-- There is a channel of the name, with what the description says of it.
abbrev pub HasChannel : SessionDescription → List NamedChannel → List ℕ → Type 0
HasChannel desc channels name =
    (ch : NamedChannel) × (get_channel name channels ≡ some ch)
    × IsSetUp (get_transport_info name desc) ch

abbrev pub IsBehind : SessionDescription → List ℕ → List ℕ → Type 0
IsBehind desc first name = (is_bundle name desc ≡ true) × (bytes_eq name first ≡ false)

abbrev pub Fits : SessionDescription → List ℕ → List NamedChannel → MediaType → Type 0
Fits desc first after content =
    IsBehind desc first (mid content)
    ⊎ (((is_bundle (mid content) desc ≡ false) ⊎ (bytes_eq (mid content) first ≡ true))
        × HasChannel desc after (mid content))

pub record Keeps (desc : SessionDescription) (first : List ℕ) (before after : List NamedChannel)
    : Type 0 where
  pub had : (name : List ℕ) → HasChannel desc before name → HasChannel desc after name
  pub alone :
      (name : List ℕ) → IsBehind desc first name → get_channel name after ≡ get_channel name before

abbrev IsRound :
    SessionDescription
    → List ℕ
    → MediaType
    → List NamedChannel
    → Option (List NamedChannel)
    → Type 0
IsRound desc first content before none = false ≡ true
IsRound desc first content before (some after) =
    Keeps desc first before after × Fits desc first after content

abbrev pub IsLoop :
    SessionDescription
    → List ℕ
    → List MediaType
    → List NamedChannel
    → Option (List NamedChannel)
    → Type 0
IsLoop desc first contents before none = false ≡ true
IsLoop desc first contents before (some after) =
    Keeps desc first before after × All (Fits desc first after) contents

-- Two names that the bundle tells apart differ.
behind-differs :
    (desc : SessionDescription) (first name other : List ℕ)
    → IsBehind desc first other
    → (is_bundle name desc ≡ false) ⊎ (bytes_eq name first ≡ true)
    → bytes_eq other name ≡ false
behind-differs desc first name other (b, n) o = elim (Bool-cases (bytes_eq other name)) [
  | inl e ↦
      (let same : other ≡ name = bytes_eq→eq other name e in
        elim o [
          | inl f ↦ absurd (let g : true ≡ false = sym (rw same at b) ∙ f in cc)
          | inr f ↦ absurd (let g : true ≡ false = sym f ∙ (rw same at n) in cc)
        ])
  | inr e ↦ e
]

is_skipped-returns :
    (name first : List ℕ) (desc : SessionDescription)
    → get_first_bundle_mid desc ≡ some first
    → ((is_skipped name desc ≡ some true) × IsBehind desc first name)
      ⊎ ((is_skipped name desc ≡ some false)
          × ((is_bundle name desc ≡ false) ⊎ (bytes_eq name first ≡ true)))
unfolding is_skipped
is_skipped-returns name first desc f = elim (Bool-cases (is_bundle name desc)) [
  | inl e ↦ elim (Bool-cases (bytes_eq name first)) [
    | inl q ↦ inr (rw (is_skipped, e, f, q) refl, inr q)
    | inr q ↦ inl (rw (is_skipped, e, f, q) refl, (e, q))
  ]
  | inr e ↦ inr (rw (is_skipped, e) refl, inl e)
]

create-Keeps :
    (desc : SessionDescription) (first name : List ℕ) (channels : List NamedChannel)
    → (is_bundle name desc ≡ false) ⊎ (bytes_eq name first ≡ true)
    → Keeps desc first channels (create_channel name channels)
create-Keeps desc first name channels o = record {
  had = λ other (ch, h, s). (ch, create_channel-keeps name other channels ch h, s);
  alone = λ other b.
      create_channel-other name other channels (behind-differs desc first name other b o);
}

set-Keeps :
    (desc : SessionDescription) (first name : List ℕ) (td : TransportDescription)
    (channels : List NamedChannel)
    → (is_bundle name desc ≡ false) ⊎ (bytes_eq name first ≡ true)
    → get_transport_info name desc ≡ some td
    → Keeps desc first channels (
        set_channel_params name
          (record { ice_ufrag = td.ice_ufrag; ice_pwd = td.ice_pwd })
          channels)
set-Keeps desc first name td channels o t =
    let params : IceParameters = record { ice_ufrag = td.ice_ufrag; ice_pwd = td.ice_pwd } in
    record {
      had = λ other (ch, h, s). elim (Bool-cases (bytes_eq name other)) [
        | inl e ↦
            (let same : name ≡ other = bytes_eq→eq name other e in
              let info : get_transport_info other desc ≡ some td =
                ap (λ n. get_transport_info n desc) (sym same) ∙ t in
              (
                record ch { ice_params = some params },
                ap (λ n. get_channel n (set_channel_params name params channels)) (sym same)
                    ∙ get_channel-set_channel_params name params channels ch
                        (ap (λ n. get_channel n channels) same ∙ h),
                rw info refl,
              ))
        | inr e ↦ (ch, set_channel_params-other name other params channels e ∙ h, s)
      ];
      alone = λ other b.
          set_channel_params-other name other params channels
            (bytes_eq-swap other name (behind-differs desc first name other b o));
    }

Keeps-then :
    (desc : SessionDescription) (first : List ℕ) (before middle after : List NamedChannel)
    → Keeps desc first before middle
    → Keeps desc first middle after
    → Keeps desc first before after
Keeps-then desc first before middle after k l = record {
  had = λ name h. l.had name (k.had name h);
  alone = λ name b. l.alone name b ∙ k.alone name b;
}

apply_content-IsRound :
    (desc : SessionDescription) (first : List ℕ) (content : MediaType)
    (channels : List NamedChannel)
    → get_first_bundle_mid desc ≡ some first
    → IsRound desc first content channels (apply_content desc content channels)
unfolding apply_content
apply_content-IsRound desc first content channels f =
    elim (is_skipped-returns (mid content) first desc f) [
      | inl (e, b) ↦ rw e (record { had = λ n h. h; alone = λ n h. refl }, inl b)
      | inr (e, o) ↦
          let name : List ℕ = mid content in
          let created : List NamedChannel = create_channel name channels in
          let (ch, there) = get_channel-create_channel name channels in
          let kept : Keeps desc first channels created = create-Keeps desc first name channels o in
          rw e (elim (Option-cases (get_transport_info name desc)) [
            | inl t ↦ rw t (kept, inr (o, (ch, there, tt)))
            | inr (td, t) ↦
                let params : IceParameters = record {
                  ice_ufrag = td.ice_ufrag;
                  ice_pwd = td.ice_pwd;
                } in
                rw t (
                  Keeps-then desc first channels created (set_channel_params name params created)
                      kept (set-Keeps desc first name td created o t),
                  inr (
                    o,
                    (
                      record ch { ice_params = some params },
                      get_channel-set_channel_params name params created ch there,
                      refl,
                    ),
                  ),
                )
          ])
    ]

Fits-Keeps :
    (desc : SessionDescription) (first : List ℕ) (content : MediaType)
    (before after : List NamedChannel)
    → Keeps desc first before after
    → Fits desc first before content
    → Fits desc first after content
Fits-Keeps desc first content before after k s = elim s [
  | inl b ↦ inl b
  | inr (o, h) ↦ inr (o, k.had (mid content) h)
]

pub apply_contents-IsLoop :
    (desc : SessionDescription) (first : List ℕ) (contents : List MediaType)
    (channels : List NamedChannel)
    → get_first_bundle_mid desc ≡ some first
    → IsLoop desc first contents channels (apply_contents desc contents channels)
unfolding apply_contents
apply_contents-IsLoop desc first [] channels f =
    (record { had = λ n h. h; alone = λ n h. refl }, tt)
apply_contents-IsLoop desc first (c ∷ contents) channels f =
    elim (Option-cases (apply_content desc c channels)) [
      | inl e ↦
          absurd
            (let q : false ≡ true = rw e at (apply_content-IsRound desc first c channels f) in cc)
      | inr (made, e) ↦
          let round : IsRound desc first c channels (some made) =
            rw e at (apply_content-IsRound desc first c channels f) in
          let rest : IsLoop desc first contents made (apply_contents desc contents made) =
            apply_contents-IsLoop desc first contents made f in
          elim (Option-cases (apply_contents desc contents made)) [
            | inl q ↦ absurd (let z : false ≡ true = rw q at rest in cc)
            | inr (after, q) ↦
                let done : IsLoop desc first contents made (some after) = rw q at rest in
                rw (e, q)
                  (
                    Keeps-then desc first channels made after round.0 done.0,
                    (Fits-Keeps desc first c made after done.0 round.1, done.1),
                  )
          ]
    ]
