-- ===== src/Controller.antt =====
-- ice/ice_controller.h and ice/ice_controller.cpp: which connection is pinged next, and which is
-- selected. A connection is named by its address, a number; `heap` gives the object there. A
-- std::set of pointers is a list in the order of the addresses.
pub mod Order
pub mod Selection
pub mod Pings
pub mod Sets
pub mod Parts
pub mod Removal
pub mod Sample
mod Runs
use grtcserver.Base.{
  ℕ, ◌+◌, ◌-◌, List, [], ◌∷◌, ◌++◌, Option, none, some, Bool, true, false, not, ◌==◌, ◌&&◌, ◌||◌,
  ltb, leb, if◌then◌else◌, length,
}
use grtcserver.Connection.{
  IceConnection, WriteState, write_unreliable, rank, is_writable, weak, stable, priority,
}

-- ice_def.cpp
abbrev pub weak_ping_interval : ℕ
weak_ping_interval = 48

abbrev pub strong_ping_interval : ℕ
strong_ping_interval = 480

abbrev pub min_pings_at_weak_ping_interval : ℕ
min_pings_at_weak_ping_interval = 3

abbrev pub stabling_connection_ping_interval : ℕ
stabling_connection_ping_interval = 900

abbrev pub stable_connection_ping_interval : ℕ
stable_connection_ping_interval = 2500

-- ice_controller.cpp
abbrev pub k_min_improvement : ℕ
k_min_improvement = 10

-- a_is_better, b_is_better and 0
pub data Comparison : Type 0 where
  a_is_better b_is_better neither : Comparison

pub record PingResult : Type 0 where
  pub conn : Option ℕ
  pub ping_interval : ℕ

pub record IceController : Type 0 where
  pub selected_connection : Option ℕ
  pub connections : List ℕ
  pub unpinged_connections : List ℕ
  pub pinged_connections : List ℕ

unfoldable pub new_controller : IceController
new_controller = record {
  selected_connection = none;
  connections = [];
  unpinged_connections = [];
  pinged_connections = [];
}

unfoldable pub member : ℕ → List ℕ → Bool
member x [] = false
member x (y ∷ ys) = x == y || member x ys

-- insert and erase of the sets
unfoldable pub set_insert : ℕ → List ℕ → List ℕ
set_insert x [] = x ∷ []
set_insert x (y ∷ ys) =
    if x == y then y ∷ ys else if ltb x y then x ∷ y ∷ ys else y ∷ set_insert x ys

unfoldable pub set_erase : ℕ → List ℕ → List ℕ
set_erase x [] = []
set_erase x (y ∷ ys) = if x == y then ys else y ∷ set_erase x ys

-- insert of the elements of a range
unfoldable pub insert_all : List ℕ → List ℕ → List ℕ
unfolding set_insert
insert_all [] ys = ys
insert_all (x ∷ xs) ys = insert_all xs (set_insert x ys)

unfoldable pub add_connection : ℕ → IceController → IceController
unfolding set_insert
add_connection conn k = record k {
  connections = k.connections ++ (conn ∷ []);
  unpinged_connections = set_insert conn k.unpinged_connections;
}

unfoldable pub set_selected_connection : Option ℕ → IceController → IceController
set_selected_connection conn k = record k { selected_connection = conn }

unfoldable pub mark_connection_pinged : Option ℕ → IceController → IceController
unfolding member set_insert set_erase
mark_connection_pinged none k = k
mark_connection_pinged (some conn) k = if member conn k.pinged_connections then k else record k {
  pinged_connections = set_insert conn k.pinged_connections;
  unpinged_connections = set_erase conn k.unpinged_connections;
}

-- The loop of on_connection_destroyed, from the position of its iterator on, as a vector in
-- contiguous memory does it: the erased element's place is taken by the next one, which the loop
-- then passes by. `none`: the iterator has passed the end.
unfoldable pub erase_loop : ℕ → List ℕ → Option (List ℕ)
erase_loop conn [] = some []
erase_loop conn (x ∷ []) = if x == conn then none else some (x ∷ [])
erase_loop conn (x ∷ y ∷ ys) =
    let after = erase_loop conn ys in
    let rest = erase_loop conn (y ∷ ys) in
    if x == conn
    then elim after [ none ↦ none | some zs ↦ some (y ∷ zs) ]
    else elim rest [ none ↦ none | some zs ↦ some (x ∷ zs) ]

unfoldable pub on_connection_destroyed : ℕ → IceController → Option IceController
unfolding set_erase erase_loop
on_connection_destroyed conn k = elim (erase_loop conn k.connections) [
  | none ↦ none
  | some rest ↦ some (record k {
    connections = rest;
    unpinged_connections = set_erase conn k.unpinged_connections;
    pinged_connections = set_erase conn k.pinged_connections;
  })
]

unfoldable pub compare_connections : IceConnection → IceConnection → Comparison
unfolding is_writable rank
compare_connections a b =
    if is_writable a && not (is_writable b)
    then a_is_better
    else if not (is_writable a) && is_writable b
    then b_is_better
    else if ltb (rank a.write_state) (rank b.write_state)
    then a_is_better
    else if ltb (rank b.write_state) (rank a.write_state)
    then b_is_better
    else if a.receiving && not b.receiving
    then a_is_better
    else if not a.receiving && b.receiving
    then b_is_better
    else if ltb (priority b) (priority a)
    then a_is_better
    else if ltb (priority a) (priority b)
    then b_is_better
    else neither

-- The comparison that sort_and_switch_connection sorts by.
unfoldable pub sorts_before : IceConnection → IceConnection → Bool
unfolding compare_connections
sorts_before a b = elim (compare_connections a b) [
  | a_is_better ↦ true
  | b_is_better ↦ false
  | neither ↦ ltb a.rtt b.rtt
]

unfoldable pub ready_to_send : IceConnection → Bool
unfolding is_writable rank
ready_to_send c = is_writable c || rank c.write_state == rank write_unreliable

-- _more_pingable, for a first connection that is there
unfoldable pub more_pingable : IceConnection → Option IceConnection → Bool
more_pingable conn1 none = true
more_pingable conn1 (some conn2) = ltb conn1.last_ping_sent conn2.last_ping_sent

-- `has_pingable` is never set, so the pinged connections return to the unpinged ones.
unfoldable pub unpin : IceController → IceController
unfolding insert_all
unpin k = record k {
  unpinged_connections = insert_all k.pinged_connections k.unpinged_connections;
  pinged_connections = [];
}

module _ (heap : ℕ → IceConnection) where
  unfoldable pub is_weak : IceController → Bool
  unfolding weak
  is_weak k = elim k.selected_connection [ none ↦ true | some conn ↦ weak (heap conn) ]

  unfoldable pub get_connection_ping_interval : ℕ → IceConnection → IceController → ℕ
  unfolding is_weak stable
  get_connection_ping_interval now c k =
      if ltb c.num_pings_sent min_pings_at_weak_ping_interval
      then weak_ping_interval
      else if is_weak k || not (stable now c)
      then stabling_connection_ping_interval
      else stable_connection_ping_interval

  unfoldable pub is_connection_past_ping_interval : ℕ → IceConnection → IceController → Bool
  unfolding get_connection_ping_interval
  is_connection_past_ping_interval now c k =
      leb (c.last_ping_sent + get_connection_ping_interval now c k) now

  unfoldable pub is_pingable : ℕ → IceController → ℕ → Bool
  unfolding is_weak is_connection_past_ping_interval
  is_pingable now k conn =
      let c = heap conn in
      if length c.remote_candidate.username == 0 || length c.remote_candidate.password == 0
      then false
      else if is_weak k
      then true
      else is_connection_past_ping_interval now c k

  unfoldable pub any_pingable : ℕ → IceController → List ℕ → Bool
  unfolding is_pingable
  any_pingable now k [] = false
  any_pingable now k (conn ∷ rest) = is_pingable now k conn || any_pingable now k rest

  unfoldable pub has_pingable_connection : ℕ → IceController → Bool
  unfolding any_pingable
  has_pingable_connection now k = any_pingable now k k.connections

  -- The second loop of _find_next_pingable_connection, with `find_conn`.
  unfoldable pub find_most_pingable : ℕ → IceController → Option ℕ → List ℕ → Option ℕ
  unfolding is_pingable more_pingable
  find_most_pingable now k found [] = found
  find_most_pingable now k found (conn ∷ rest) =
      find_most_pingable now k
        (if is_pingable now k conn
            && more_pingable (heap conn) (elim found [ none ↦ none | some best ↦ some (heap best) ])
          then some conn
          else found)
        rest

  -- A selected connection, if it is there, writable and due.
  unfoldable pub if_due : ℕ → IceController → Option ℕ → Option ℕ
  if_due now k none = none
  if_due now k (some conn) =
      if is_writable (heap conn) && is_connection_past_ping_interval now (heap conn) k
      then some conn
      else none

  unfoldable pub due_selected : ℕ → IceController → Option ℕ
  due_selected now k = if_due now k k.selected_connection

  unfoldable pub find_next_pingable_connection : ℕ → IceController → Option ℕ × IceController
  unfolding due_selected unpin find_most_pingable
  find_next_pingable_connection now k = elim (due_selected now k) [
    | some conn ↦ (some conn, k)
    | none ↦ (find_most_pingable now k none (unpin k).unpinged_connections, unpin k)
  ]

  unfoldable pub need_ping_more_at_weak : List ℕ → Bool
  need_ping_more_at_weak [] = false
  need_ping_more_at_weak (conn ∷ rest) =
      ltb (heap conn).num_pings_sent min_pings_at_weak_ping_interval || need_ping_more_at_weak rest

  -- selected_connection_to_ping, for the argument `last_ping_sent - diff`, which may be below zero.
  unfoldable pub selected_connection_to_ping :
      ℕ → ℕ → ℕ → IceController → PingResult × IceController
  unfolding is_weak need_ping_more_at_weak find_next_pingable_connection
  selected_connection_to_ping last_ping_sent diff now k =
      let interval =
        if is_weak k || need_ping_more_at_weak k.connections
        then weak_ping_interval
        else strong_ping_interval in
      if leb (last_ping_sent + interval) (now + diff)
      then (let (conn, k') = find_next_pingable_connection now k in
          (record { conn = conn; ping_interval = interval }, k'))
      else (record { conn = none; ping_interval = interval }, k)

  -- Whether to leave the selected connection for the first one of the sorted list. The
  -- subtraction of ints stands on the other side.
  unfoldable pub improves : Option ℕ → ℕ → Bool
  improves none top = true
  improves (some selected) top =
      not (selected == top) && leb ((heap top).rtt + k_min_improvement) (heap selected).rtt

  unfoldable pub choose : Option ℕ → List ℕ → Option ℕ
  unfolding improves ready_to_send
  choose selected [] = none
  choose selected (top ∷ rest) =
      if ready_to_send (heap top) && improves selected top then some top else none

  -- sort_and_switch_connection; `stable_sort` is absl::c_stable_sort.
  unfoldable pub sort_and_switch_connection :
      ((ℕ → ℕ → Bool) → List ℕ → List ℕ) → IceController → Option ℕ × IceController
  unfolding sorts_before choose
  sort_and_switch_connection stable_sort k =
      let sorted = stable_sort (λ a b. sorts_before (heap a) (heap b)) k.connections in
      (choose k.selected_connection sorted, record k { connections = sorted })
