-- ===== src/Session/Runs.antt =====
-- An offer of audio and video in one bundle, and what an offer without it makes.
use grtcserver.Base.{[], ◌∷◌, none, some, ◌≡◌, refl}
use grtcserver.Connection.{IceParameters}
use grtcserver.Session.{
  SessionDescription, ContentGroup, mid, media_type_audio, media_type_video, k_offer, bundle,
  set_local_description, add_content, add_group, add_content_name, add_transport_info,
  apply_contents, apply_content, is_skipped, is_bundle, get_first_bundle_mid, first_name,
  get_group_by_name, groups_named, any_has, has_name, has_content_name, create_channel, get_channel,
  is_channel, set_channel_params, get_transport_info, find_transport, role_of, get_content,
  find_content,
}
use grtcserver.Session.Bundled.{set_local_description-IsApplied, IsApplied}

abbrev params : IceParameters
params = record { ice_ufrag = 1 ∷ []; ice_pwd = 2 ∷ [] }

abbrev group : ContentGroup
group =
    add_content_name (mid media_type_video)
      (add_content_name (mid media_type_audio) (record { semantics = bundle; content_names = [] }))

abbrev blank : SessionDescription
blank = record { sdp_type = k_offer; contents = []; content_groups = []; transport_infos = [] }

abbrev filled : SessionDescription
filled =
    (add_transport_info (mid media_type_audio) params none
      (add_content media_type_video (add_content media_type_audio blank))).1

abbrev offer : SessionDescription
offer = add_group group filled

made :
    set_local_description offer []
    ≡ some (record { transport_name = mid media_type_audio; ice_params = some params } ∷ [])
unfolding set_local_description apply_contents apply_content is_skipped is_bundle
    get_first_bundle_mid first_name get_group_by_name groups_named any_has has_name has_content_name
    create_channel get_channel is_channel set_channel_params get_transport_info find_transport
    role_of add_content add_group add_content_name add_transport_info mid
made = refl

two_made :
    set_local_description filled []
    ≡ some (
        record { transport_name = mid media_type_audio; ice_params = some params }
        ∷ record { transport_name = mid media_type_video; ice_params = none }
        ∷ [])
unfolding set_local_description apply_contents apply_content is_skipped is_bundle
    get_first_bundle_mid first_name get_group_by_name groups_named any_has has_name has_content_name
    create_channel get_channel is_channel set_channel_params get_transport_info find_transport
    role_of add_content add_group add_content_name add_transport_info mid
two_made = refl

found : get_content (mid media_type_video) offer ≡ some media_type_video
unfolding get_content find_content add_content add_group add_transport_info mid
found = refl

set_local_description-IsApplied_example :
    IsApplied offer (mid media_type_audio) [] (set_local_description offer [])
unfolding get_first_bundle_mid first_name get_group_by_name groups_named any_has has_name
    has_content_name add_content add_group add_content_name add_transport_info mid
set_local_description-IsApplied_example =
    set_local_description-IsApplied offer [] (mid media_type_audio) refl
