-- ===== src/Requests.antt =====
-- ice/stun_request.h and ice/stun_request.cpp: the requests that wait for a response, by
-- transaction id. The message of a request is kept as its id and its type.
pub mod Matching
mod Runs
use grtcserver.Base.{
  ℕ, List, [], ◌∷◌, Option, none, some, Bool, true, false, ◌==◌, bytes_eq, if◌then◌else◌, ◌-◌, ◌&&◌,
  ◌>>=◌,
}
use grtcserver.Stun.{get_stun_success_response, get_stun_error_response}

pub record StunRequest : Type 0 where
  pub id : List ℕ
  pub type : ℕ
  pub ts : ℕ

-- std::map<std::string, StunRequest*>
abbrev pub RequestMap : Type 0
RequestMap = List (List ℕ × StunRequest)

unfoldable pub find : List ℕ → RequestMap → Option StunRequest
find id [] = none
find id ((key, request) ∷ rest) = if bytes_eq key id then some request else find id rest

unfoldable pub erase : List ℕ → RequestMap → RequestMap
erase id [] = []
erase id ((key, request) ∷ rest) = if bytes_eq key id then rest else (key, request) ∷ erase id rest

-- `_requests[id] = request`
unfoldable pub insert : List ℕ → StunRequest → RequestMap → RequestMap
insert id request [] = (id, request) ∷ []
insert id request ((key, old) ∷ rest) =
    if bytes_eq key id then (id, request) ∷ rest else (key, old) ∷ insert id request rest

-- StunRequestManager::send, with the time that StunRequest::send takes down.
unfoldable pub send : StunRequest → ℕ → RequestMap → RequestMap
unfolding insert
send request now requests = insert request.id (record request { ts = now }) requests

unfoldable pub elapsed : StunRequest → ℕ → ℕ
elapsed request now = now - request.ts

-- StunRequestManager::remove, from the destructor of the request.
unfoldable pub remove : StunRequest → RequestMap → RequestMap
unfolding erase
remove request requests = erase request.id requests

-- What check_response does with a response: the handler that it calls on the request.
pub data Delivery : Type 0 where
  unknown : Delivery
  response : StunRequest → Delivery
  error_response : StunRequest → Delivery
  wrong_type : StunRequest → Delivery

-- `msg->type() == …` where the right side may be -1.
unfoldable pub is_type : ℕ → Option ℕ → Bool
is_type type none = false
is_type type (some expected) = type == expected

unfoldable pub deliver : StunRequest → ℕ → Delivery
unfolding is_type get_stun_success_response get_stun_error_response
deliver request type =
    if is_type type (get_stun_success_response request.type)
    then response request
    else if is_type type (get_stun_error_response request.type)
    then error_response request
    else wrong_type request

-- check_response, for a message of the given id and type. The request is deleted on every branch
-- but the first.
unfoldable pub check_response : List ℕ → ℕ → RequestMap → Delivery × RequestMap
unfolding find deliver remove
check_response id type requests = elim (find id requests) [
  | none ↦ (unknown, requests)
  | some request ↦ (deliver request type, remove request requests)
]

-- The answer of check_response.
unfoldable pub handled : Delivery → Bool
handled unknown = false
handled (wrong_type request) = false
handled _ = true
