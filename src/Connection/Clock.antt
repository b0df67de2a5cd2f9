-- ===== src/Connection/Clock.antt =====
-- Times that are kept in an int: `expected_response_time` and `waiting`.
use grtcserver.Base.{
  ℕ, ◌+◌, ◌-◌, ◌%◌, ◌^◌, ◌≤◌, ◌<◌, ◌≡◌, refl, some, true, false, ltb, leb, inl, inr, arith, length,
  get_elem?, Bool-cases,
}
use grtcserver.Connection.{IceConnection, SentPing, is_negative_int, past_int, too_many_ping_fails}

int_of_small : (x : ℕ) → x < 2 ^ 31 → (x % 2 ^ 32 ≡ x) × (is_negative_int x ≡ false)
unfolding is_negative_int
int_of_small x h = let e : x % 2 ^ 32 ≡ x = omega arith in (e, rw e (ground arith))

pub past_int-small : (now x : ℕ) → x < 2 ^ 31 → past_int now x ≡ ltb x now
unfolding past_int
past_int-small now x h = let (e, n) = int_of_small x h in rw (n, e) refl

pub past_int-late : (now x : ℕ) → 2 ^ 31 ≤ now → 2 ^ 31 ≤ x → past_int now x ≡ true
unfolding past_int is_negative_int
past_int-late now x h g = elim (Bool-cases (leb (2 ^ 31) (x % 2 ^ 32))) [
  | inl e ↦ rw e refl
  | inr e ↦ rw e (ground arith)
]

-- Where the ping that _too_many_ping_fails looks at was sent at 2 ^ 31 ms of the clock or later
-- (about 25 days), and not after now, it answers true, however large the round-trip time that it
-- is given: expected_response_time is an int.
pub too_many_ping_fails-late :
    (max rtt now : ℕ) (c : IceConnection) (ping : SentPing)
    → max ≤ length c.pings_since_last_response
    → get_elem? c.pings_since_last_response (max - 1) ≡ some ping
    → 2 ^ 31 ≤ ping.sent_time
    → ping.sent_time ≤ now
    → too_many_ping_fails max rtt now c ≡ true
unfolding too_many_ping_fails
too_many_ping_fails-late max rtt now c ping m e h g =
    let p : past_int now (ping.sent_time + rtt) ≡ true =
      past_int-late now (ping.sent_time + rtt) (omega arith) (omega arith) in
    let l : ltb (length c.pings_since_last_response) max ≡ false = ground arith in
    rw (too_many_ping_fails, l, e, p) refl

-- While the sum fits an int, the times are compared as they are.
pub too_many_ping_fails-early :
    (max rtt now : ℕ) (c : IceConnection) (ping : SentPing)
    → max ≤ length c.pings_since_last_response
    → get_elem? c.pings_since_last_response (max - 1) ≡ some ping
    → ping.sent_time + rtt < 2 ^ 31
    → too_many_ping_fails max rtt now c ≡ ltb (ping.sent_time + rtt) now
unfolding too_many_ping_fails
too_many_ping_fails-early max rtt now c ping m e h =
    let l : ltb (length c.pings_since_last_response) max ≡ false = ground arith in
    rw (too_many_ping_fails, l, e) (past_int-small now (ping.sent_time + rtt) h)
