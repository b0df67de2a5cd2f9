-- ===== src/Connection/History.antt =====
-- The states that a connection can reach, as its operations are called while the clock runs.
use grtcserver.Base.{
  ℕ, ◌≤◌, ◌<◌, ◌≡◌, ◌⊎◌, inl, inr, refl, List, [], ◌∷◌, ◌++◌, Bool, false, arith, length, All,
  All-append, length-append, ◌&&◌, ◌==◌, bytes_eq, Bool-cases,
}
use grtcserver.Connection.{
  IceConnection, SentPing, IceParameters, RemoteCandidate, rank, new_connection, mark_ping,
  received_ping_response, update_state, is_receiving, maybe_set_remote_ice_params, last_received,
  larger,
}
use grtcserver.Connection.Response.{answered, received_ping_response-value}
use grtcserver.Connection.WriteStates.{update_state-value, update_state_lem, next_write_state}

module _ (average : ℕ → ℕ → ℕ → ℕ) where
  pub data Reachable : ℕ → IceConnection → Type 0 where
    start : (remote : RemoteCandidate) (local : ℕ) → Reachable 0 (new_connection remote local)
    tick :
        {now : ℕ} {c : IceConnection} (later : ℕ)
        → now ≤ later
        → Reachable now c
        → Reachable later c
    ping :
        {now : ℕ} {c : IceConnection} (id : List ℕ)
        → Reachable now c
        → Reachable now (mark_ping id now c)
    respond :
        {now : ℕ} {c : IceConnection} (rtt : ℕ)
        → Reachable now c
        → Reachable now (received_ping_response average rtt now c).0
    check : {now : ℕ} {c : IceConnection} → Reachable now c → Reachable now (update_state now c).0
    select :
        {now : ℕ} {c : IceConnection} (value : Bool)
        → Reachable now c
        → Reachable now (record c { selected = value })
    params :
        {now : ℕ} {c : IceConnection} (remote : IceParameters)
        → Reachable now c
        → Reachable now (maybe_set_remote_ice_params remote c)

-- The pings without a response stand in the order of their sending.
abbrev pub IsOrdered : List SentPing → Type 0
IsOrdered [] = Unit {0}
IsOrdered (p ∷ ps) = All (λ q. p.sent_time ≤ q.sent_time) ps × IsOrdered ps

-- At the given time. Before the first response nothing was received.
pub record IsConsistent (now : ℕ) (c : IceConnection) : Type 0 where
  pub counted : length c.pings_since_last_response ≤ c.num_pings_sent
  pub ordered : IsOrdered c.pings_since_last_response
  pub before_last : All (λ p. p.sent_time ≤ c.last_ping_sent) c.pings_since_last_response
  pub sent : c.last_ping_sent ≤ now
  pub responded : c.last_ping_response_received ≤ now
  pub no_ping : c.last_ping_received ≡ 0
  pub no_data : c.last_data_received ≡ 0
  pub sampled :
      (0 < c.rtt_samples)
      ⊎ ((2 ≤ rank c.write_state) × (c.last_ping_response_received ≡ 0) × (c.receiving ≡ false))

All-map :
    {P Q : SentPing → Type 0} (f : (p : SentPing) → P p → Q p) (ps : List SentPing)
    → All P ps
    → All Q ps
All-map f [] a = tt
All-map f (p ∷ ps) (a, as_) = (f p a, All-map f ps as_)

IsOrdered-append :
    (ps : List SentPing) (p : SentPing)
    → IsOrdered ps
    → All (λ q. q.sent_time ≤ p.sent_time) ps
    → IsOrdered (ps ++ (p ∷ []))
IsOrdered-append [] p o a = (tt, tt)
IsOrdered-append (q ∷ ps) p (b, o) (a, as_) =
    (All-append (λ r. q.sent_time ≤ r.sent_time) ps (p ∷ []) b (a, tt), IsOrdered-append ps p o as_)

new_connection-IsConsistent :
    (remote : RemoteCandidate) (local : ℕ) → IsConsistent 0 (new_connection remote local)
unfolding new_connection rank
new_connection-IsConsistent remote local = record {
  counted = omega arith;
  ordered = tt;
  before_last = tt;
  sent = omega arith;
  responded = omega arith;
  no_ping = refl;
  no_data = refl;
  sampled = inr (omega arith, refl, refl);
}

mark_ping-IsConsistent :
    (id : List ℕ) (now : ℕ) (c : IceConnection)
    → IsConsistent now c
    → IsConsistent now (mark_ping id now c)
unfolding mark_ping
mark_ping-IsConsistent id now c k =
    let p : SentPing = record { id = id; sent_time = now } in
    let counted : length c.pings_since_last_response ≤ c.num_pings_sent = k.counted in
    let sent : c.last_ping_sent ≤ now = k.sent in
    let all : All (λ q. q.sent_time ≤ now) c.pings_since_last_response =
      All-map (λ q h. omega arith) c.pings_since_last_response k.before_last in
    record {
      counted = rw (length-append c.pings_since_last_response (p ∷ [])) (omega arith);
      ordered = IsOrdered-append c.pings_since_last_response p k.ordered all;
      before_last =
          All-append (λ q. q.sent_time ≤ now) c.pings_since_last_response (p ∷ []) all
            (omega arith, tt);
      sent = omega arith;
      responded = k.responded;
      no_ping = k.no_ping;
      no_data = k.no_data;
      sampled = k.sampled;
    }

response-IsConsistent :
    (average : ℕ → ℕ → ℕ → ℕ) (rtt now : ℕ) (c : IceConnection)
    → IsConsistent now c
    → IsConsistent now (received_ping_response average rtt now c).0
unfolding answered
response-IsConsistent average rtt now c k =
    rw (received_ping_response-value average rtt now c) (record {
      counted = omega arith;
      ordered = tt;
      before_last = tt;
      sent = k.sent;
      responded = omega arith;
      no_ping = k.no_ping;
      no_data = k.no_data;
      sampled = inl (omega arith);
    })

-- What never was received does not make the connection receiving.
silent :
    (now : ℕ) (c : IceConnection)
    → c.last_ping_response_received ≡ 0
    → c.last_ping_received ≡ 0
    → c.last_data_received ≡ 0
    → is_receiving now c ≡ false
unfolding is_receiving last_received larger
silent now c r p d = rw (is_receiving, last_received, larger, r, p, d) (ground arith)

update_state-IsConsistent :
    (now : ℕ) (c : IceConnection) → IsConsistent now c → IsConsistent now (update_state now c).0
update_state-IsConsistent now c k =
    let (frame, worse, moved) = update_state_lem now c in
    rw (update_state-value now c) (record {
      counted = k.counted;
      ordered = k.ordered;
      before_last = k.before_last;
      sent = k.sent;
      responded = k.responded;
      no_ping = k.no_ping;
      no_data = k.no_data;
      sampled = elim k.sampled [
        | inl s ↦ inl s
        | inr (s, r, q) ↦ inr (
          (let worse' : rank c.write_state ≤ rank (next_write_state now c) =
                rw (update_state-value now c) at worse in
              omega arith),
          r,
          silent now c r k.no_ping k.no_data,
        )
      ];
    })

-- Neither the candidate's password nor the selection matters, and time may pass.
later-IsConsistent :
    (remote : RemoteCandidate) (value : Bool) (later now : ℕ) (c : IceConnection)
    → now ≤ later
    → IsConsistent now c
    → IsConsistent later (record c { remote_candidate = remote; selected = value })
later-IsConsistent remote value later now c h k =
    let s : c.last_ping_sent ≤ now = k.sent in
    let t : c.last_ping_response_received ≤ now = k.responded in
    record {
      counted = k.counted;
      ordered = k.ordered;
      before_last = k.before_last;
      sent = omega arith;
      responded = omega arith;
      no_ping = k.no_ping;
      no_data = k.no_data;
      sampled = k.sampled;
    }

params-IsConsistent :
    (remote : IceParameters) (now : ℕ) (c : IceConnection)
    → IsConsistent now c
    → IsConsistent now (maybe_set_remote_ice_params remote c)
unfolding maybe_set_remote_ice_params
params-IsConsistent remote now c k =
    elim (Bool-cases (
      bytes_eq c.remote_candidate.username remote.ice_ufrag
      && length c.remote_candidate.password == 0)) [
        | inl e ↦
            rw (maybe_set_remote_ice_params, e)
              (later-IsConsistent (record c.remote_candidate { password = remote.ice_pwd })
                c.selected now now c (omega arith) k)
        | inr e ↦ rw (maybe_set_remote_ice_params, e) k
      ]

-- Whatever sequence of pings, responses, checks, selections and remote parameters a connection
-- goes through while the clock runs, it stays consistent: its unanswered pings are in order and
-- counted, a connection that was never answered is neither writable nor unreliable nor receiving,
-- and nothing but a response counts as received.
pub Reachable-IsConsistent :
    (average : ℕ → ℕ → ℕ → ℕ) {now : ℕ} {c : IceConnection}
    → Reachable average now c
    → IsConsistent now c
Reachable-IsConsistent average (start remote local) = new_connection-IsConsistent remote local
Reachable-IsConsistent average (tick {now} {c} later h r) =
    later-IsConsistent c.remote_candidate c.selected later now c h
      (Reachable-IsConsistent average r)
Reachable-IsConsistent average (ping {now} {c} id r) =
    mark_ping-IsConsistent id now c (Reachable-IsConsistent average r)
Reachable-IsConsistent average (respond {now} {c} rtt r) =
    response-IsConsistent average rtt now c (Reachable-IsConsistent average r)
Reachable-IsConsistent average (check {now} {c} r) =
    update_state-IsConsistent now c (Reachable-IsConsistent average r)
Reachable-IsConsistent average (select {now} {c} value r) =
    later-IsConsistent c.remote_candidate value now now c (omega arith)
      (Reachable-IsConsistent average r)
Reachable-IsConsistent average (params {now} {c} remote r) =
    params-IsConsistent remote now c (Reachable-IsConsistent average r)
