-- ===== src/Session/Bundled.antt =====
-- src/pc/transport_controller.cpp: set_local_description and the channels that the contents of
-- the description get.
use grtcserver.Base.{
  List, [], ◌∷◌, Option, none, some, true, false, bytes_eq, bytes_eq_refl, ℕ, sym, ◌≡◌, ◌≢◌, ap,
  bytes_eq→eq, ◌∙◌, ◌⊎◌, inl, inr, All, Option-cases,
}
use grtcserver.Session.{
  MediaType, SessionDescription, NamedChannel, mid, get_channel, get_first_bundle_mid,
  apply_contents, set_local_description, is_bundle,
}
use grtcserver.Session.Rounds.{HasChannel, Fits, Keeps, IsLoop, apply_contents-IsLoop}

-- A content of the bundle that is not the first one leaves the channels of its name alone; any
-- other has its own.
abbrev pub IsServed :
    SessionDescription → List ℕ → List NamedChannel → List NamedChannel → MediaType → Type 0
IsServed desc first before after content =
    ((is_bundle (mid content) desc ≡ true)
      × (mid content ≢ first)
      × (get_channel (mid content) after ≡ get_channel (mid content) before))
    ⊎ (((is_bundle (mid content) desc ≡ false) ⊎ (mid content ≡ first))
        × HasChannel desc after (mid content))

-- The description is applied, and each content is served.
abbrev pub IsApplied :
    SessionDescription → List ℕ → List NamedChannel → Option (List NamedChannel) → Type 0
IsApplied desc first before none = false ≡ true
IsApplied desc first before (some after) = All (IsServed desc first before after) desc.contents

Fits-IsServed :
    (desc : SessionDescription) (first : List ℕ) (before after : List NamedChannel)
    (contents : List MediaType)
    → Keeps desc first before after
    → All (Fits desc first after) contents
    → All (IsServed desc first before after) contents
Fits-IsServed desc first before after [] k a = tt
Fits-IsServed desc first before after (c ∷ contents) k (p, a) = (
  elim p [
    | inl (b, n) ↦ inl (
      b,
      (λ e.
          let z : true ≡ false =
            sym (bytes_eq_refl first) ∙ ap (λ x. bytes_eq x first) (sym e) ∙ n in
          absurd (cc)),
      k.alone (mid c) (b, n),
    )
    | inr (inl b, h) ↦ inr (inl b, h)
    | inr (inr e, h) ↦ inr (inr (bytes_eq→eq (mid c) first e), h)
  ],
  Fits-IsServed desc first before after contents k a,
)

-- Where the first bundle of a description has a name, or the description has no bundle,
-- set_local_description goes through its contents without a fault. Then a content that is in a
-- bundle and is not the first one of the bundle has left the channels of its name as they were;
-- for any other content the agent has a channel of its name, with the ICE parameters of the
-- transport description of that name, if there is one.
pub set_local_description-IsApplied :
    (desc : SessionDescription) (channels : List NamedChannel) (first : List ℕ)
    → get_first_bundle_mid desc ≡ some first
    → IsApplied desc first channels (set_local_description desc channels)
unfolding set_local_description
set_local_description-IsApplied desc channels first f =
    let loop : IsLoop desc first desc.contents channels
        (apply_contents desc desc.contents channels) =
      apply_contents-IsLoop desc first desc.contents channels f in
    elim (Option-cases (apply_contents desc desc.contents channels)) [
      | inl e ↦ absurd (let z : false ≡ true = rw e at loop in cc)
      | inr (after, e) ↦
          let done : IsLoop desc first desc.contents channels (some after) = rw e at loop in
          rw e (Fits-IsServed desc first channels after desc.contents done.0 done.1)
    ]
