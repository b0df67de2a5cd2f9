-- ===== src/Requests/Runs.antt =====
-- Requests that are sent and answered, at concrete ids.
use grtcserver.Base.{ℕ, List, [], ◌∷◌, none, true, ◌≡◌, refl}
use grtcserver.Requests.{
  StunRequest, RequestMap, find, send, error_response, unknown, check_response, handled,
}
use grtcserver.Requests.Matching.{
  IsKeyed, requests-IsKeyed, check_response-check_response, check_response-send,
}

abbrev ping_id : List ℕ
ping_id = 7 ∷ 8 ∷ 9 ∷ []

abbrev other_id : List ℕ
other_id = 7 ∷ 8 ∷ 1 ∷ []

abbrev ping_request : StunRequest
ping_request = record { id = ping_id; type = 1; ts = 0 }

abbrev other_request : StunRequest
other_request = record { id = other_id; type = 1; ts = 40 }

abbrev waiting : RequestMap
waiting = (other_id, other_request) ∷ []

waiting-IsKeyed : IsKeyed waiting
unfolding find
waiting-IsKeyed = (refl, refl, tt)

requests-IsKeyed_example :
    IsKeyed (send ping_request 100 waiting) × IsKeyed (check_response other_id 257 waiting).1
requests-IsKeyed_example = requests-IsKeyed ping_request 100 257 other_id waiting waiting-IsKeyed

check_response-check_response_example :
    (check_response other_id 273 (check_response other_id 257 waiting).1
      ≡ (unknown, (check_response other_id 257 waiting).1))
    × (find ping_id (check_response other_id 257 waiting).1 ≡ find ping_id waiting)
check_response-check_response_example =
    check_response-check_response other_id ping_id 257 273 waiting waiting-IsKeyed refl

check_response-send_example :
    let sent = record ping_request { ts = 100 } in
    let (delivery, m') = check_response ping_id 273 (send ping_request 100 waiting) in
    (find ping_id m' ≡ none) × (delivery ≡ error_response sent) × (handled delivery ≡ true)
check_response-send_example = check_response-send ping_request 100 273 waiting waiting-IsKeyed refl
