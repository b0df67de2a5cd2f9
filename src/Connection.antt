-- ===== src/Connection.antt =====
-- ice/ice_connection.h, ice/ice_connection.cpp, ice/ice_connection_info.h and the constants of
-- ice/ice_def.cpp: the state of an IceConnection, and the operations that decide whether it is
-- writable and receiving. Times are in milliseconds, of the clock rtc::TimeMillis(), which never
-- runs backwards; an operation takes the time that it reads as an argument. The signals that an
-- operation raises are the list of its events, in order.
pub mod Clock
pub mod Receiving
pub mod WriteStates
pub mod Timeout
pub mod Response
pub mod Priority
pub mod History
pub mod Messages
pub mod Accepted
pub mod Delivery
pub mod Refused
mod Runs
use grtcserver.Base.{
  ℕ, suc, ◌+◌, ◌-◌, ◌*◌, ◌%◌, ◌^◌, List, [], ◌∷◌, ◌++◌, Option, none, some, Bool, true, false, not,
  ◌==◌, ◌&&◌, ◌||◌, ltb, leb, bytes_eq, if◌then◌else◌, length, get_elem?,
}
use grtcserver.Requests.{RequestMap}

-- ice_def.cpp
abbrev pub stun_packet_size : ℕ
stun_packet_size = 480

abbrev pub weak_connection_receive_timeout : ℕ
weak_connection_receive_timeout = 2500

abbrev pub connection_write_connect_fails : ℕ
connection_write_connect_fails = 5

abbrev pub connection_write_connect_timeout : ℕ
connection_write_connect_timeout = 5000

abbrev pub connection_write_timeout : ℕ
connection_write_timeout = 15000

-- ice_connection.cpp
abbrev pub rtt_ratio : ℕ
rtt_ratio = 3

abbrev pub min_rtt : ℕ
min_rtt = 100

abbrev pub max_rtt : ℕ
max_rtt = 60000

pub data WriteState : Type 0 where
  writable write_unreliable write_init write_timeout : WriteState

-- The value of the enumerator.
unfoldable pub rank : WriteState → ℕ
rank writable = 0
rank write_unreliable = 1
rank write_init = 2
rank write_timeout = 3

pub data IceCandidatePairState : Type 0 where
  waiting in_progress succeeded failed : IceCandidatePairState

pub record SentPing : Type 0 where
  pub id : List ℕ
  pub sent_time : ℕ

-- The fields of a Candidate that the connection reads.
pub record RemoteCandidate : Type 0 where
  pub username : List ℕ
  pub password : List ℕ
  pub priority : ℕ

pub record IceParameters : Type 0 where
  pub ice_ufrag : List ℕ
  pub ice_pwd : List ℕ

-- `local_priority` is local_candidate().priority, of the port.
pub record IceConnection : Type 0 where
  pub remote_candidate : RemoteCandidate
  pub local_priority : ℕ
  pub write_state : WriteState
  pub receiving : Bool
  pub last_ping_sent : ℕ
  pub num_pings_sent : ℕ
  pub pings_since_last_response : List SentPing
  pub requests : RequestMap
  pub last_ping_response_received : ℕ
  pub last_ping_received : ℕ
  pub last_data_received : ℕ
  pub rtt : ℕ
  pub rtt_samples : ℕ
  pub selected : Bool
  pub state : IceCandidatePairState

-- IceConnection::IceConnection and the initializers of the members.
unfoldable pub new_connection : RemoteCandidate → ℕ → IceConnection
new_connection remote local_priority = record {
  remote_candidate = remote;
  local_priority = local_priority;
  write_state = write_init;
  receiving = false;
  last_ping_sent = 0;
  num_pings_sent = 0;
  pings_since_last_response = [];
  requests = [];
  last_ping_response_received = 0;
  last_ping_received = 0;
  last_data_received = 0;
  rtt = 3000;
  rtt_samples = 0;
  selected = false;
  state = waiting;
}

-- The signals, each with the connection as the receiver of the signal sees it.
pub data Event : Type 0 where
  state_change : IceConnection → Event
  connection_destroy : IceConnection → Event

abbrev pub Operation : Type 0
Operation = IceConnection → IceConnection × List Event

-- One operation after another.
infixr 5 ◌before◌
unfoldable pub ◌before◌ : Operation → Operation → Operation
(f before g) c = let (c1, e1) = f c in let (c2, e2) = g c1 in (c2, e1 ++ e2)

-- writable(), weak() and active()
unfoldable pub is_writable : IceConnection → Bool
is_writable c = elim c.write_state [ writable ↦ true | _ ↦ false ]

unfoldable pub weak : IceConnection → Bool
unfolding is_writable
weak c = not (is_writable c && c.receiving)

unfoldable pub active : IceConnection → Bool
active c = elim c.write_state [ write_timeout ↦ false | _ ↦ true ]

unfoldable pub larger : ℕ → ℕ → ℕ
larger a b = if ltb a b then b else a

unfoldable pub last_received : IceConnection → ℕ
unfolding larger
last_received c =
    larger (larger c.last_ping_received c.last_ping_response_received) c.last_data_received

unfoldable pub set_write_state : WriteState → Operation
unfolding rank
set_write_state state c =
    let c' = record c { write_state = state } in
    if rank c.write_state == rank state then (c', []) else (c', state_change c' ∷ [])

-- set_state only logs a change.
unfoldable pub set_state : IceCandidatePairState → Operation
set_state state c = (record c { state = state }, [])

-- The local variable of update_receiving.
unfoldable pub is_receiving : ℕ → IceConnection → Bool
unfolding last_received
is_receiving now c =
    if ltb c.last_ping_sent c.last_ping_response_received
    then true
    else (ltb 0 (last_received c) && ltb now (last_received c + weak_connection_receive_timeout))

unfoldable pub update_receiving : ℕ → Operation
unfolding is_receiving
update_receiving now c =
    let c' = record c { receiving = is_receiving now c } in
    if c.receiving
    then (if is_receiving now c then (c, []) else (c', state_change c' ∷ []))
    else (if is_receiving now c then (c', state_change c' ∷ []) else (c, []))

-- received_ping_response, with the time that it reads; `average` is rtc::GetNextMovingAverage.
unfoldable pub received_ping_response : (ℕ → ℕ → ℕ → ℕ) → ℕ → ℕ → Operation
received_ping_response average rtt now c =
    let c' = record c {
      rtt = if ltb 0 c.rtt_samples then average c.rtt rtt rtt_ratio else rtt;
      rtt_samples = suc c.rtt_samples;
      last_ping_response_received = now;
      pings_since_last_response = [];
    } in
    (update_receiving now before set_write_state writable before set_state succeeded) c'

-- An int that a value of 64 bits is assigned to: whether it is negative, and its bits.
unfoldable pub is_negative_int : ℕ → Bool
is_negative_int x = leb (2 ^ 31) (x % 2 ^ 32)

-- `now_ms > expected_response_time`, where the right side is an int.
unfoldable pub past_int : ℕ → ℕ → Bool
unfolding is_negative_int
past_int now x = is_negative_int x || ltb (x % 2 ^ 32) now

-- `waiting > 2 * _rtt`, where the left side is an int. A difference below zero is not past
-- `2 * _rtt`, and neither is the 0 that stands for it.
unfoldable pub miss_response : ℕ → IceConnection → Bool
unfolding is_negative_int
miss_response now c = elim c.pings_since_last_response [
  | [] ↦ false
  | ping ∷ rest ↦
      (let waiting = now - ping.sent_time in
        not (is_negative_int waiting) && ltb (2 * c.rtt) (waiting % 2 ^ 32))
]

unfoldable pub stable : ℕ → IceConnection → Bool
unfolding miss_response
stable now c = ltb (rtt_ratio + 1) c.rtt_samples && not (miss_response now c)

unfoldable pub too_many_ping_fails : ℕ → ℕ → ℕ → IceConnection → Bool
unfolding past_int
too_many_ping_fails max_pings rtt now c =
    if ltb (length c.pings_since_last_response) max_pings
    then false
    else elim (get_elem? c.pings_since_last_response (max_pings - 1)) [
      | none ↦ false
      | some ping ↦ past_int now (ping.sent_time + rtt)
    ]

unfoldable pub too_long_without_response : ℕ → ℕ → IceConnection → Bool
too_long_without_response min_time now c = elim c.pings_since_last_response [
  | [] ↦ false
  | ping ∷ rest ↦ ltb (ping.sent_time + min_time) now
]

-- The round-trip time that update_state allows for.
unfoldable pub allowed_rtt : IceConnection → ℕ
allowed_rtt c = if ltb (2 * c.rtt) min_rtt then min_rtt else max_rtt

unfoldable pub check_writable : ℕ → Operation
unfolding set_write_state too_many_ping_fails too_long_without_response allowed_rtt is_writable
check_writable now c =
    if is_writable c
      && (too_many_ping_fails connection_write_connect_fails (allowed_rtt c) now c
          && too_long_without_response connection_write_connect_timeout now c)
    then set_write_state write_unreliable c
    else (c, [])

unfoldable pub check_timeout : ℕ → Operation
unfolding set_write_state too_long_without_response
check_timeout now c = elim c.write_state [
  | writable ↦ (c, [])
  | write_timeout ↦ (c, [])
  | _ ↦
      (if too_long_without_response connection_write_timeout now c
        then set_write_state write_timeout c
        else (c, []))
]

-- The two tests of update_state, and update_receiving.
unfoldable pub update_state : ℕ → Operation
unfolding ◌before◌ check_writable check_timeout update_receiving
update_state now = check_writable now before check_timeout now before update_receiving now

-- What ping changes in the connection; the request that it sends stands in Messages.
unfoldable pub mark_ping : List ℕ → ℕ → IceConnection → IceConnection
mark_ping id now c = record c {
  last_ping_sent = now;
  pings_since_last_response =
      c.pings_since_last_response ++ (record { id = id; sent_time = now } ∷ []);
  state = in_progress;
  num_pings_sent = suc c.num_pings_sent;
}

-- rfc5245, on uint32_t and uint64_t
unfoldable pub priority : IceConnection → ℕ
unfolding larger
priority c =
    let g = c.local_priority in
    let d = c.remote_candidate.priority in
    let smaller = if ltb d g then d else g in
    (smaller * 2 ^ 32 + 2 * larger g d % 2 ^ 32 + (if ltb d g then 1 else 0)) % 2 ^ 64

unfoldable pub maybe_set_remote_ice_params : IceParameters → IceConnection → IceConnection
maybe_set_remote_ice_params params c =
    if bytes_eq c.remote_candidate.username params.ice_ufrag
      && length c.remote_candidate.password == 0
    then record c { remote_candidate = record c.remote_candidate { password = params.ice_pwd } }
    else c
