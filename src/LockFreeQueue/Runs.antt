-- ===== src/LockFreeQueue/Runs.antt =====
-- The theorems about the queue on one value that passes from thread to thread.
use grtcserver.Base.{ℕ, ◌+◌, ◌-◌, ◌^◌, ◌≡◌, ◌↔◌, refl, List, [], ◌∷◌, ◌++◌, none, some, arith, true}
use grtcserver.LockFreeQueue.{
  Memory, Producer, idle, linked, advanced, trimming, Consumer, resting, ready, copied, moved,
  LockFreeQueue, new_queue, link, produce_step, consume_step, produce, store, empty, pos, negsuc,
  size_of,
}
use grtcserver.LockFreeQueue.Refined.{
  silent, Specified, Step, call, producer_moves, consumer_moves, Represents, produce_event,
  consume_event,
}
use grtcserver.LockFreeQueue.Whole.{
  new_queue-Represents, Step-refines, Reachable, start, step, Reachable-fifo, size_lem,
  produce-returns,
}

abbrev one : LockFreeQueue ℕ
one = new_queue 1 0

abbrev memory : Memory ℕ
memory =
    store 1 (some (record { value = 0; next = 2 }))
      (store 2 (some (record { value = 7; next = 0 })) one.nodes)

abbrev state : ℕ → ℕ → ℕ → LockFreeQueue ℕ
state divider last size = record {
  nodes = memory;
  first = 1;
  divider = divider;
  last = last;
  size = size;
}

called : Step one idle resting silent (state 1 1 0) (linked 2 7) resting
unfolding new_queue link store
called = call 2 7 refl refl

two_is_free : one.nodes 2 ≡ none
unfolding new_queue store
two_is_free = refl

produced : Reachable (state 1 2 1) idle resting (7 ∷ []) []
unfolding new_queue link store produce_step produce_event
produced =
    let linked_ : Reachable (state 1 1 0) (linked 2 7) resting [] [] = step (start 1 0) called in
    let moved_ : Reachable (state 1 2 0) advanced resting (7 ∷ []) [] =
      step linked_ (producer_moves refl) in
    let counted : Reachable (state 1 2 1) trimming resting (7 ∷ []) [] =
      step moved_ (producer_moves refl) in
    step counted (producer_moves refl)

-- The value passes before the producer has counted it.
overtaken : Reachable (state 2 2 (2 ^ 32 - 1)) advanced resting (7 ∷ []) (7 ∷ [])
unfolding new_queue link store produce_step produce_event consume_step consume_event
overtaken =
    let linked_ : Reachable (state 1 1 0) (linked 2 7) resting [] [] = step (start 1 0) called in
    let behind : Reachable (state 1 2 0) advanced resting (7 ∷ []) [] =
      step linked_ (producer_moves refl) in
    let tested : Reachable (state 1 2 0) advanced ready (7 ∷ []) [] =
      step behind (consumer_moves refl) in
    let taken : Reachable (state 1 2 0) advanced (copied 7) (7 ∷ []) [] =
      step tested (consumer_moves refl) in
    let passed : Reachable (state 2 2 0) advanced (moved 7) (7 ∷ []) (7 ∷ []) =
      step taken (consumer_moves refl) in
    step passed (consumer_moves refl)

-- The consumer has counted before the producer.
below_zero : size_of (state 2 2 (2 ^ 32 - 1)) ≡ negsuc 0
unfolding size_of
below_zero = refl

Step-refines_example :
    (ys : List ℕ) × Specified [] silent ys × Represents (state 1 1 0) (linked 2 7) resting ys
Step-refines_example =
    Step-refines one (state 1 1 0) idle (linked 2 7) resting resting silent []
      (new_queue-Represents 1 0) called

Reachable-fifo_example :
    ((xs : List ℕ) × (7 ∷ [] ≡ (7 ∷ []) ++ xs))
    × ((r : LockFreeQueue ℕ × Producer ℕ) × (link 3 8 (state 2 2 (2 ^ 32 - 1)) ≡ some r))
    × ((r : LockFreeQueue ℕ × Producer ℕ) × (produce_step (state 2 2 (2 ^ 32 - 1)) advanced
          ≡ some r))
    × ((r : LockFreeQueue ℕ × Consumer ℕ) × (consume_step (state 2 2 (2 ^ 32 - 1)) resting
          ≡ some r))
Reachable-fifo_example = Reachable-fifo 3 8 overtaken

size_lem_example :
    (n : ℕ) × (size_of (state 1 2 1) ≡ pos n)
    × (1 ≡ 0 + n)
    × ((empty (state 1 2 1) ≡ true) ↔ (let ins : List ℕ = 7 ∷ [] in ins ≡ []))
size_lem_example = size_lem (omega arith) produced

produce-returns_example :
    (fuel : ℕ) × (q : LockFreeQueue ℕ) × (produce fuel 2 7 one ≡ some (q, idle))
    × Represents q idle resting (7 ∷ [])
    × (q.first ≡ q.divider)
produce-returns_example = produce-returns one resting [] 2 7 two_is_free (new_queue-Represents 1 0)
