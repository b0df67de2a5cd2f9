-- ===== src/Requests/Matching.antt =====
-- A response meets its request once.
use grtcserver.Base.{
  ℕ, List, [], ◌∷◌, none, some, false, ◌==◌, bytes_eq, bytes_eq_refl, bytes_eq→eq, ◌||◌,
  if◌then◌else◌, ◌≡◌, refl, ◌∙◌, inl, inr, arith, Bool-cases, Option-cases,
}
use grtcserver.Stun.{
  stun_binding_request, stun_binding_response, stun_binding_error_response,
  get_stun_success_response, get_stun_error_response,
}
use grtcserver.Requests.{
  StunRequest, RequestMap, find, erase, insert, send, remove, unknown, response, error_response,
  wrong_type, is_type, deliver, check_response, handled,
}

-- Each request stands under its own id, and no id stands twice.
abbrev pub IsKeyed : RequestMap → Type 0
IsKeyed [] = Unit {0}
IsKeyed ((key, request) ∷ rest) = (key ≡ request.id) × (find key rest ≡ none) × IsKeyed rest

bytes_eq-sym : (xs ys : List ℕ) → bytes_eq xs ys ≡ bytes_eq ys xs
bytes_eq-sym [] [] = refl
bytes_eq-sym [] (y ∷ ys) = refl
bytes_eq-sym (x ∷ xs) [] = refl
bytes_eq-sym (x ∷ xs) (y ∷ ys) = ground (arith, bytes_eq-sym xs ys)

find-insert :
    (id j : List ℕ) (request : StunRequest) (m : RequestMap)
    → find j (insert id request m) ≡ (if bytes_eq id j then some request else find j m)
unfolding find insert
find-insert id j request [] = refl
find-insert id j request ((key, old) ∷ m) = elim (Bool-cases (bytes_eq key id)) [
  | inl e ↦ (let k : key ≡ id = bytes_eq→eq key id e in rw (e, k) (ground arith))
  | inr e ↦ elim (Bool-cases (bytes_eq id j)) [
    | inl f ↦
        (let k : id ≡ j = bytes_eq→eq id j f in
          let e' : bytes_eq key j ≡ false = rw k at e in
          rw e (rw (find, e', find-insert id j request m, f)))
    | inr f ↦ rw e (rw (find, find-insert id j request m, f))
  ]
]

find-erase : (id : List ℕ) (m : RequestMap) → IsKeyed m → find id (erase id m) ≡ none
unfolding find erase
find-erase id [] k = refl
find-erase id ((key, r) ∷ m) (e, n, k) = elim (Bool-cases (bytes_eq key id)) [
  | inl h ↦ (let p : key ≡ id = bytes_eq→eq key id h in rw h (rw p at n))
  | inr h ↦ rw h (rw (find, h) (find-erase id m k))
]

find-erase_ne :
    (id j : List ℕ) (m : RequestMap) → bytes_eq id j ≡ false → find j (erase id m) ≡ find j m
unfolding find erase
find-erase_ne id j [] h = refl
find-erase_ne id j ((key, r) ∷ m) h = elim (Bool-cases (bytes_eq key id)) [
  | inl e ↦ (let p : key ≡ id = bytes_eq→eq key id e in rw (e, p, h))
  | inr e ↦ rw e (rw (find, find-erase_ne id j m h))
]

find-key :
    (id : List ℕ) (m : RequestMap) (r : StunRequest) → IsKeyed m → find id m ≡ some r → r.id ≡ id
unfolding find
find-key id [] r k e = ground arith
find-key id ((key, q) ∷ m) r (p, n, k) e = elim (Bool-cases (bytes_eq key id)) [
  | inl h ↦
      (let e' : some q ≡ some r = rw (h, find) at e in
        let u : key ≡ id = bytes_eq→eq key id h in cc)
  | inr h ↦ find-key id m r k (rw (h, find) at e)
]

insert-IsKeyed :
    (request : StunRequest) (m : RequestMap) → IsKeyed m → IsKeyed (insert request.id request m)
unfolding insert find
insert-IsKeyed request [] k = (refl, refl, tt)
insert-IsKeyed request ((key, q) ∷ m) (p, n, k) = elim (Bool-cases (bytes_eq key request.id)) [
  | inl h ↦ (let u : key ≡ request.id = bytes_eq→eq key request.id h in rw h (refl, rw u at n, k))
  | inr h ↦ rw h (
    p,
    rw (find-insert request.id key request m, bytes_eq-sym request.id key, h) n,
    insert-IsKeyed request m k,
  )
]

erase-IsKeyed : (id : List ℕ) (m : RequestMap) → IsKeyed m → IsKeyed (erase id m)
unfolding erase
erase-IsKeyed id [] k = tt
erase-IsKeyed id ((key, q) ∷ m) (p, n, k) = elim (Bool-cases (bytes_eq key id)) [
  | inl h ↦ rw h k
  | inr h ↦ rw h (p, rw (find-erase_ne id key m (bytes_eq-sym id key ∙ h)) n, erase-IsKeyed id m k)
]

-- send and check_response keep each request under its own id, with no id twice.
pub requests-IsKeyed :
    (request : StunRequest) (now type : ℕ) (id : List ℕ) (m : RequestMap)
    → IsKeyed m
    → IsKeyed (send request now m) × IsKeyed (check_response id type m).1
unfolding send check_response
requests-IsKeyed request now type id m k = (
  insert-IsKeyed (record request { ts = now }) m k,
  elim (Option-cases (find id m)) [
    | inl e ↦ rw (e, check_response) k
    | inr (r, e) ↦ rw (e, check_response) (erase-IsKeyed r.id m k)
  ],
)

check_response-unknown :
    (id : List ℕ) (type : ℕ) (m : RequestMap)
    → find id m ≡ none
    → check_response id type m ≡ (unknown, m)
unfolding check_response
check_response-unknown id type m e = rw (e, check_response) refl

pub check_response-found :
    (id : List ℕ) (type : ℕ) (m : RequestMap) (r : StunRequest)
    → find id m ≡ some r
    → check_response id type m ≡ (deliver r type, remove r m)
unfolding check_response
check_response-found id type m r e = rw (e, check_response) refl

-- Where each request stands under its own id, once: a second response for an id is not delivered,
-- whatever the types of the two, and changes nothing; requests with other ids are as they were.
pub check_response-check_response :
    (id other : List ℕ) (type again : ℕ) (m : RequestMap)
    → IsKeyed m
    → bytes_eq id other ≡ false
    → (check_response id again (check_response id type m).1
        ≡ (unknown, (check_response id type m).1))
      × (find other (check_response id type m).1 ≡ find other m)
unfolding remove
check_response-check_response id other type again m k ne = elim (Option-cases (find id m)) [
  | inl e ↦ rw (check_response-unknown id type m e) (check_response-unknown id again m e, refl)
  | inr (r, e) ↦
      (let i : r.id ≡ id = find-key id m r k e in
        rw (check_response-found id type m r e, remove, i)
          (
            check_response-unknown id again (erase id m) (find-erase id m k),
            find-erase_ne id other m ne,
          ))
]

pub deliver-binding :
    (r : StunRequest) (type : ℕ)
    → r.type ≡ stun_binding_request
    → deliver r type ≡ (
        if type == stun_binding_response
        then response r
        else if type == stun_binding_error_response
        then error_response r
        else wrong_type r)
unfolding deliver is_type get_stun_success_response get_stun_error_response
deliver-binding r type t = rw t refl

-- Where each request stands under its own id, once: a binding request that was sent is met by the
-- first response with its id. A success response calls the response handler, an error response
-- the error handler, each with the time of sending, and any other type is refused and not
-- handled. On each branch the request is gone.
pub check_response-send :
    (request : StunRequest) (now type : ℕ) (m : RequestMap)
    → IsKeyed m
    → request.type ≡ stun_binding_request
    → let sent = record request { ts = now } in
      let (delivery, m') = check_response request.id type (send request now m) in
      (find request.id m' ≡ none)
      × (delivery ≡ (
          if type == stun_binding_response
          then response sent
          else if type == stun_binding_error_response
          then error_response sent
          else wrong_type sent))
      × (handled delivery ≡ (type == stun_binding_response || type == stun_binding_error_response))
unfolding send remove handled
check_response-send request now type m k t =
    let sent : StunRequest = record request { ts = now } in
    let e : find request.id (insert request.id sent m) ≡ some sent =
      rw (find-insert request.id request.id sent m, bytes_eq_refl request.id) refl in
    let c : check_response request.id type (insert request.id sent m)
        ≡ (deliver sent type, erase request.id (insert request.id sent m)) =
      check_response-found request.id type (insert request.id sent m) sent e in
    rw (send, c, deliver-binding sent type t)
      (
        find-erase request.id (insert request.id sent m) (insert-IsKeyed sent m k),
        refl,
        elim (Bool-cases (type == stun_binding_response)) [
          | inl p ↦ rw p refl
          | inr p ↦ (elim (Bool-cases (type == stun_binding_error_response)) [
            | inl q ↦ rw (p, q) refl
            | inr q ↦ rw (p, q) refl
          ])
        ],
      )
