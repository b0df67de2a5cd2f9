-- ===== src/Controller/Runs.antt =====
-- The theorems about the controller at two connections, at the addresses 1 and 2.
use grtcserver.Base.{
  ℕ, ◌≤◌, ◌≡◌, ◌⊎◌, refl, [], ◌∷◌, none, some, true, false, arith, if◌then◌else◌, ◌==◌,
}
use grtcserver.Connection.{
  IceConnection, RemoteCandidate, writable, succeeded, write_init, waiting, is_writable, rank,
  priority, larger,
}
use grtcserver.Controller.{
  IceController, new_controller, member, add_connection, mark_connection_pinged,
  find_next_pingable_connection, set_erase, is_pingable, sorts_before, ready_to_send,
  sort_and_switch_connection, on_connection_destroyed, compare_connections, choose, improves,
  is_weak,
}
use grtcserver.Controller.Selection.{
  IsSwitched, IsStrictWeak, count, sort_and_switch_lem, by_sorts_before-IsStrictWeak,
}
use grtcserver.Controller.Sample.{
  sample_sort, insert_before, sample_sort-IsSort, sample_sort-IsPermuting,
}
use grtcserver.Controller.Parts.{IsParted, Reachable, start, add, mark, Reachable-IsParted}
use grtcserver.Controller.Pings.{find_next_pingable_connection_lem, IsDue, IsNoneDue}
use grtcserver.Controller.Removal.{on_connection_destroyed_lem}

abbrev remote : RemoteCandidate
remote = record { username = 97 ∷ []; password = 98 ∷ []; priority = 5 }

abbrev fresh_connection : IceConnection
fresh_connection = record {
  remote_candidate = remote;
  local_priority = 7;
  write_state = write_init;
  receiving = false;
  last_ping_sent = 0;
  num_pings_sent = 0;
  pings_since_last_response = [];
  requests = [];
  last_ping_response_received = 0;
  last_ping_received = 0;
  last_data_received = 0;
  rtt = 3000;
  rtt_samples = 0;
  selected = false;
  state = waiting;
}

abbrev good_connection : IceConnection
good_connection = record fresh_connection {
  write_state = writable;
  receiving = true;
  last_ping_sent = 90;
  rtt = 30;
  rtt_samples = 4;
  state = succeeded;
}

abbrev slow_connection : IceConnection
slow_connection = record good_connection { rtt = 90 }

abbrev heap : ℕ → IceConnection
heap address = if address == 1 then good_connection else slow_connection

abbrev two : IceController
two = record {
  selected_connection = none;
  connections = 2 ∷ 1 ∷ [];
  unpinged_connections = 1 ∷ 2 ∷ [];
  pinged_connections = [];
}

by_sorts_before-IsStrictWeak_example : IsStrictWeak (λ a b. sorts_before (heap a) (heap b))
by_sorts_before-IsStrictWeak_example = by_sorts_before-IsStrictWeak heap

sort_and_switch_lem_example :
    IsSwitched heap two (sort_and_switch_connection heap sample_sort two).0
    × (count 2 (sort_and_switch_connection heap sample_sort two).1.connections ≡ 1)
unfolding count
sort_and_switch_lem_example =
    sort_and_switch_lem sample_sort heap two 2 sample_sort-IsSort sample_sort-IsPermuting

switched : (sort_and_switch_connection heap sample_sort two).0 ≡ some 1
unfolding sort_and_switch_connection choose improves ready_to_send sample_sort insert_before
    sorts_before compare_connections is_writable rank priority larger member
switched = refl

abbrev heaps : ℕ → ℕ → IceConnection
heaps now = heap

grown :
    Reachable heaps sample_sort
      (mark_connection_pinged (some 2) (add_connection 1 (add_connection 2 new_controller)))
unfolding new_controller add_connection member
grown = mark 2 refl (add 1 refl (add 2 refl start))

Reachable-IsParted_example :
    IsParted (mark_connection_pinged (some 2) (add_connection 1 (add_connection 2 new_controller)))
Reachable-IsParted_example = Reachable-IsParted heaps sample_sort sample_sort-IsSort grown

two-IsParted : IsParted two
unfolding member
two-IsParted = record {
  unpinged_set = ((omega arith, tt), (tt, tt));
  pinged_set = tt;
  covered = λ x. ground arith;
  apart = λ x. ground arith;
}

find_next_pingable_connection_lem_example :
    (conn : ℕ) × ((find_next_pingable_connection heap 100 two).0 ≡ some conn)
    × (IsDue heap 100 two conn
        ⊎ (IsNoneDue heap 100 two none
            × (member conn two.connections ≡ true)
            × (is_pingable heap 100 two conn ≡ true)
            × ((heap conn).last_ping_sent ≤ slow_connection.last_ping_sent)))
unfolding member is_pingable is_weak
find_next_pingable_connection_lem_example =
    find_next_pingable_connection_lem heap 100 two 2 two-IsParted refl refl

on_connection_destroyed_lem_example :
    on_connection_destroyed 2 two
    ≡ some (record two {
      connections = 1 ∷ [];
      unpinged_connections = set_erase 2 (1 ∷ 2 ∷ []);
      pinged_connections = set_erase 2 [];
    })
unfolding member
on_connection_destroyed_lem_example = on_connection_destroyed_lem 2 [] (1 ∷ []) two refl refl refl
