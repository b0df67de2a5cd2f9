-- ===== src/Session.antt =====
-- src/pc/session_description.h, src/pc/session_description.cpp, src/ice/ice_agent.cpp and
-- src/pc/transport_controller.cpp: the bundle of a description, and the channels that a local
-- description creates. Of a media content only its class is
-- kept, which says its mid(); its codecs and its direction are not.
pub mod Bundled
pub mod Channels
pub mod Rounds
mod Runs
use grtcserver.Base.{
  List, [], ◌∷◌, ◌++◌, Option, none, some, Bool, true, false, not, ◌&&◌, ◌||◌, bytes_eq,
  if◌then◌else◌, ℕ, ◌>>=◌,
}
use grtcserver.Connection.{IceParameters}

pub data SdpType : Type 0 where
  k_offer k_answer : SdpType

pub data MediaType : Type 0 where
  media_type_audio media_type_video : MediaType

pub data ConnectionRole : Type 0 where
  no_role active passive actpass holdconn : ConnectionRole

-- A content is of one of the two subclasses, which say what mid() is.
unfoldable pub mid : MediaType → List ℕ
mid media_type_audio = 97 ∷ 117 ∷ 100 ∷ 105 ∷ 111 ∷ []
mid media_type_video = 118 ∷ 105 ∷ 100 ∷ 101 ∷ 111 ∷ []

pub record ContentGroup : Type 0 where
  pub semantics : List ℕ
  pub content_names : List (List ℕ)

-- The fingerprint is its bytes.
pub record TransportDescription : Type 0 where
  pub ice_ufrag : List ℕ
  pub ice_pwd : List ℕ
  pub mid : List ℕ
  pub identity_fingerprint : Option (List ℕ)
  pub connection_role : ConnectionRole

pub record SessionDescription : Type 0 where
  pub sdp_type : SdpType
  pub contents : List MediaType
  pub content_groups : List ContentGroup
  pub transport_infos : List TransportDescription

-- "BUNDLE"
abbrev pub bundle : List ℕ
bundle = 66 ∷ 85 ∷ 78 ∷ 68 ∷ 76 ∷ 69 ∷ []

unfoldable pub has_name : List ℕ → List (List ℕ) → Bool
has_name name [] = false
has_name name (x ∷ xs) = bytes_eq x name || has_name name xs

unfoldable pub has_content_name : List ℕ → ContentGroup → Bool
has_content_name name group = has_name name group.content_names

unfoldable pub add_content_name : List ℕ → ContentGroup → ContentGroup
add_content_name name group =
    if has_content_name name group
    then group
    else record group { content_names = group.content_names ++ name ∷ [] }

unfoldable pub add_group : ContentGroup → SessionDescription → SessionDescription
add_group group desc = record desc { content_groups = desc.content_groups ++ group ∷ [] }

unfoldable pub add_content : MediaType → SessionDescription → SessionDescription
add_content content desc = record desc { contents = desc.contents ++ content ∷ [] }

unfoldable pub find_content : List ℕ → List MediaType → Option MediaType
find_content name [] = none
find_content name (c ∷ contents) =
    if bytes_eq name (mid c) then some c else find_content name contents

unfoldable pub get_content : List ℕ → SessionDescription → Option MediaType
get_content name desc = find_content name desc.contents

unfoldable pub groups_named : List ℕ → List ContentGroup → List ContentGroup
groups_named name [] = []
groups_named name (g ∷ groups) =
    if bytes_eq g.semantics name then g ∷ groups_named name groups else groups_named name groups

unfoldable pub get_group_by_name : List ℕ → SessionDescription → List ContentGroup
get_group_by_name name desc = groups_named name desc.content_groups

unfoldable pub any_has : List ℕ → List ContentGroup → Bool
any_has name [] = false
any_has name (g ∷ groups) = has_name name g.content_names || any_has name groups

unfoldable pub is_bundle : List ℕ → SessionDescription → Bool
is_bundle name desc = any_has name (get_group_by_name bundle desc)

-- The first name of the first group; `none` is the access to a vector that has no name.
unfoldable pub first_name : List ContentGroup → Option (List ℕ)
first_name [] = some []
first_name (g ∷ groups) = elim g.content_names [ [] ↦ none | name ∷ names ↦ some name ]

unfoldable pub get_first_bundle_mid : SessionDescription → Option (List ℕ)
get_first_bundle_mid desc = first_name (get_group_by_name bundle desc)

unfoldable pub find_transport : List ℕ → List TransportDescription → Option TransportDescription
find_transport name [] = none
find_transport name (t ∷ infos) = if bytes_eq t.mid name then some t else find_transport name infos

unfoldable pub get_transport_info : List ℕ → SessionDescription → Option TransportDescription
get_transport_info name desc = find_transport name desc.transport_infos

unfoldable pub role_of : SdpType → ConnectionRole
role_of k_offer = actpass
role_of k_answer = active

-- add_transport_info, with the certificate, if there is one, as what the fingerprint of it is:
-- `some none` where it cannot be computed.
unfoldable pub add_transport_info :
    List ℕ
    → IceParameters
    → Option (Option (List ℕ))
    → SessionDescription
    → Bool × SessionDescription
add_transport_info name params certificate desc =
    let added : Option (List ℕ) → SessionDescription = λ fingerprint. record desc {
      transport_infos =
          desc.transport_infos
          ++ record {
            ice_ufrag = params.ice_ufrag;
            ice_pwd = params.ice_pwd;
            mid = name;
            identity_fingerprint = fingerprint;
            connection_role = role_of desc.sdp_type;
          }
            ∷ [];
    } in
    elim certificate [
      | none ↦ (true, added none)
      | some none ↦ (false, desc)
      | some (some fingerprint) ↦ (true, added (some fingerprint))
    ]

-- A channel of the agent, of which the description sets the parameters.
pub record NamedChannel : Type 0 where
  pub transport_name : List ℕ
  pub ice_params : Option IceParameters

-- All channels are for RTP, the one component that the controller names.
unfoldable pub get_channel : List ℕ → List NamedChannel → Option NamedChannel
get_channel name [] = none
get_channel name (c ∷ channels) =
    if bytes_eq name c.transport_name then some c else get_channel name channels

unfoldable pub is_channel : Option NamedChannel → Bool
is_channel none = false
is_channel (some c) = true

unfoldable pub create_channel : List ℕ → List NamedChannel → List NamedChannel
create_channel name channels =
    if is_channel (get_channel name channels)
    then channels
    else channels ++ record { transport_name = name; ice_params = none } ∷ []

-- set_ice_params of the agent: the first channel of the name gets the parameters.
unfoldable pub set_channel_params : List ℕ → IceParameters → List NamedChannel → List NamedChannel
set_channel_params name params [] = []
set_channel_params name params (c ∷ channels) =
    if bytes_eq name c.transport_name
    then record c { ice_params = some params } ∷ channels
    else c ∷ set_channel_params name params channels

-- A content whose channel is that of another one of the bundle.
unfoldable pub is_skipped : List ℕ → SessionDescription → Option Bool
is_skipped name desc =
    if is_bundle name desc
    then (get_first_bundle_mid desc >>= λ first. some (not (bytes_eq name first)))
    else some false

-- A round of the loop of set_local_description, without its DTLS transport.
unfoldable pub apply_content :
    SessionDescription → MediaType → List NamedChannel → Option (List NamedChannel)
apply_content desc content channels = is_skipped (mid content) desc >>= λ skipped.
    (if skipped
      then some channels
      else some (elim (get_transport_info (mid content) desc) [
        | none ↦ create_channel (mid content) channels
        | some td ↦
            set_channel_params (mid content)
              (record { ice_ufrag = td.ice_ufrag; ice_pwd = td.ice_pwd })
              (create_channel (mid content) channels)
      ]))

unfoldable pub apply_contents :
    SessionDescription → List MediaType → List NamedChannel → Option (List NamedChannel)
apply_contents desc [] channels = some channels
apply_contents desc (c ∷ contents) channels =
    apply_content desc c channels >>= apply_contents desc contents

-- The channels when the loop of set_local_description is done, for a description that is there.
unfoldable pub set_local_description :
    SessionDescription → List NamedChannel → Option (List NamedChannel)
set_local_description desc channels = apply_contents desc desc.contents channels
