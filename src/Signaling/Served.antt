-- ===== src/Signaling/Served.antt =====
-- The states that a worker can reach.
use grtcserver.Base.{ℕ, ◌≡◌, List, [], Option, none, Bool, true, false}
use grtcserver.Signaling.{RtcMsg, Json, Write}
use grtcserver.Signaling.Worker.{
  SignalingWorker, Progress, hang, done, new_conn, process_timeout, write_reply, push_msg,
  process_rtc_msg, read_query, fault,
}
use grtcserver.Signaling.Table.{IsTable}

module _ {V : Type 0} (json : Json V) (beyond : List ℕ → List ℕ) where
  abbrev IsDone : Progress → Type 0
  IsDone fault = false ≡ true
  IsDone hang = false ≡ true
  IsDone (done wk) = IsTable wk

-- The events of a worker, in any order. A new connection has a fresh address.
module _ {V : Type 0} (json : Json V) (beyond : List ℕ → List ℕ) where
  pub data Reachable : SignalingWorker → Type 0 where
    start : Reachable (record { heap = λ a. none; conns = []; q_msg = []; forwarded = [] })
    connect :
        {wk wk' : SignalingWorker} (address now fd : ℕ)
        → wk.heap address ≡ none
        → new_conn address now fd wk ≡ done wk'
        → Reachable wk
        → Reachable wk'
    reads :
        {wk wk' : SignalingWorker} (sent : Bool) (fuel now fd : ℕ) (bytes : Option (List ℕ))
        → read_query json beyond sent fuel now fd bytes wk ≡ done wk'
        → Reachable wk
        → Reachable wk'
    writes :
        {wk wk' : SignalingWorker} (now fd : ℕ) (answers : List Write)
        → write_reply now fd answers wk ≡ done wk'
        → Reachable wk
        → Reachable wk'
    timer :
        {wk wk' : SignalingWorker} (timeout now address : ℕ)
        → process_timeout timeout now address wk ≡ done wk'
        → Reachable wk
        → Reachable wk'
    message : {wk : SignalingWorker} (msg : RtcMsg) → Reachable wk → Reachable (push_msg msg wk)
    answer :
        {wk wk' : SignalingWorker}
        → process_rtc_msg json beyond wk ≡ done wk'
        → Reachable wk
        → Reachable wk'
