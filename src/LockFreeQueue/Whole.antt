-- ===== src/LockFreeQueue/Whole.antt =====
-- Runs of the two threads from an empty queue.
use grtcserver.Base.{
  ℕ, suc, ◌+◌, ◌*◌, ◌%◌, ◌^◌, ◌≡◌, ◌∙◌, ◌<◌, refl, sym, ap, arith, length, List, [], ◌∷◌, ◌++◌, map,
  none, some, append-nil, append_assoc, length-append, ==_iff, true, ◌↔◌, eq_of_some, ltb,
}
use grtcserver.LockFreeQueue.{
  Producer, idle, linked, trimming, freeing, Consumer, resting, LockFreeQueue, new_queue,
  produce_step, produce_steps, produce, consume_step, store, empty, link, Memory, Node, pos,
  size_of,
}
use grtcserver.LockFreeQueue.Layout.{Cell, IsLaidOut, Linked, last_address, end_of}
use grtcserver.LockFreeQueue.Memory.{store-here}
use grtcserver.LockFreeQueue.Refined.{
  Event, pushed, popped, Specified, nothing, push, pop, none_left, Step, call, producer_moves,
  consumer_moves, Represents,
}
use grtcserver.LockFreeQueue.Refined.Producing.{
  link-Represents, produce_step-Produces, freed-IsLaidOut, trimming-nil, trimming-cons,
  linked-Represents, advanced-Represents,
}
use grtcserver.LockFreeQueue.Refined.Consuming.{consume_step-Consumes}

module _ {ℓ} {A : Type ℓ} where
  pub new_queue-Represents :
      (address : ℕ) (default : A) → Represents (new_queue address default) idle resting []
  unfolding new_queue
  new_queue-Represents address default = record {
    gone = [];
    here = record { address = address; value = default };
    rest = [];
    laid = record {
      chained = (store-here address (some (record { value = default; next = 0 })) (λ a. none), tt);
      distinct = (tt, tt);
      at_first = refl;
      at_divider = refl;
      at_last = refl;
    };
    values = refl;
    producing = tt;
    consuming = tt;
    counted = refl;
    small = omega arith;
  }

  -- Each step of the producer or of the consumer, from any state of the nodes that represents a
  -- sequence of values, does to that sequence what a queue specifies: the step that moves `last`
  -- puts its value at the end, the one that moves `divider` takes the first value, which is the
  -- one that consume answers, a consume that answers false finds no value, and every other step
  -- changes nothing.
  pub Step-refines :
      (q q' : LockFreeQueue A) (p p' : Producer A) (c c' : Consumer A) (e : Event A) (xs : List A)
      → Represents q p c xs
      → Step q p c e q' p' c'
      → (ys : List A) × Specified xs e ys × Represents q' p' c' ys
  Step-refines q q' p p' c c' e xs r (call address t free h) =
      let (s, result, t') = link-Represents c q xs address t free r in
      let same : (s, linked address t) ≡ (q', p') = eq_of_some (sym result ∙ h) in
      (xs, nothing, rw (ap (λ x. x.0) same, ap (λ x. x.1) same) at t')
  Step-refines q q' p p' c c' e xs r (producer_moves h) =
      let (s, o, result, (ys, specified, t')) = produce_step-Produces c q p xs r in
      let same : (s, o) ≡ (q', p') = eq_of_some (sym result ∙ h) in
      (ys, specified, rw (ap (λ x. x.0) same, ap (λ x. x.1) same) at t')
  Step-refines q q' p p' c c' e xs r (consumer_moves h) =
      let (s, o, result, (ys, specified, t')) = consume_step-Consumes p q c xs r in
      let same : (s, o) ≡ (q', c') = eq_of_some (sym result ∙ h) in
      (ys, specified, rw (ap (λ x. x.0) same, ap (λ x. x.1) same) at t')

  -- What went in and what came out, in order.
  abbrev pub with_pushed : Event A → List A → List A
  with_pushed (pushed t) ins = ins ++ t ∷ []
  with_pushed _ ins = ins

  abbrev pub with_popped : Event A → List A → List A
  with_popped (popped t) outs = outs ++ t ∷ []
  with_popped _ outs = outs

-- From a new queue to some state, with the values that went in and that came out.
pub data Reachable {ℓ} {A : Type ℓ}
    : LockFreeQueue A → Producer A → Consumer A → List A → List A → Type ℓ where
  start : (address : ℕ) (default : A) → Reachable (new_queue address default) idle resting [] []
  step :
      {q q' : LockFreeQueue A} {p p' : Producer A} {c c' : Consumer A} {e : Event A}
      {ins outs : List A}
      → Reachable q p c ins outs
      → Step q p c e q' p' c'
      → Reachable q' p' c' (with_pushed e ins) (with_popped e outs)

module _ {ℓ} {A : Type ℓ} where
  -- The values that wait, behind those that came out.
  Specified-order :
      {xs ys : List A} {e : Event A} (ins outs : List A)
      → ins ≡ outs ++ xs
      → Specified xs e ys
      → with_pushed e ins ≡ with_popped e outs ++ ys
  Specified-order ins outs h nothing = h
  Specified-order ins outs h (push {xs} {t}) =
      ap (λ l. l ++ t ∷ []) h ∙ append_assoc outs xs (t ∷ [])
  Specified-order ins outs h (pop {xs} {t}) = h ∙ sym (append_assoc outs (t ∷ []) xs)
  Specified-order ins outs h none_left = h

  Reachable-Represents :
      {q : LockFreeQueue A} {p : Producer A} {c : Consumer A} {ins outs : List A}
      → Reachable q p c ins outs
      → (xs : List A) × (ins ≡ outs ++ xs) × Represents q p c xs
  Reachable-Represents (start address default) = ([], refl, new_queue-Represents address default)
  Reachable-Represents (step {q} {q'} {p} {p'} {c} {c'} {e} {ins} {outs} run move) =
      let (xs, order, r) = Reachable-Represents run in
      let (ys, specified, r') = Step-refines q q' p p' c c' e xs r move in
      (ys, Specified-order ins outs order specified, r')

  last_cell :
      (memory : Memory A) (gone : List (Cell A)) (here : Cell A) (rest : List (Cell A)) (end : ℕ)
      → Linked memory (gone ++ here ∷ rest) end
      → (node : Node A) × (memory (last_address here rest) ≡ some node)
  last_cell memory [] here [] end (h, t) = (record { value = here.value; next = end }, h)
  last_cell memory [] here (d ∷ rest) end (h, t) = last_cell memory [] d rest end t
  last_cell memory (g ∷ gone) here rest end (h, t) = last_cell memory gone here rest end t

  -- The producer may access the node at `last`.
  link-returns :
      (q : LockFreeQueue A) (p : Producer A) (c : Consumer A) (xs : List A) (address : ℕ) (t : A)
      → Represents q p c xs
      → (r : LockFreeQueue A × Producer A) × (link address t q ≡ some r)
  unfolding link
  link-returns q p c xs address t r =
      let (node, found) = last_cell q.nodes r.gone r.here r.rest (end_of p) r.laid.chained in
      let at_last : q.nodes q.last ≡ some node = ap q.nodes r.laid.at_last ∙ found in
      (
        (
          record q {
            nodes =
                store q.last (some (record node { next = address }))
                  (store address (some (record { value = t; next = 0 })) q.nodes);
          },
          linked address t,
        ),
        rw at_last refl,
      )

  -- From a new queue, after any sequence of steps of the two threads: the values that came out
  -- are the first of those that went in, in order; the access with which a call of produce
  -- begins, the next step of a call that is under way, and the next step of consume read neither
  -- a null pointer nor a node that was deleted.
  pub Reachable-fifo :
      {q : LockFreeQueue A} {p : Producer A} {c : Consumer A} {ins outs : List A} (address : ℕ)
      (t : A)
      → Reachable q p c ins outs
      → ((xs : List A) × (ins ≡ outs ++ xs))
        × ((r : LockFreeQueue A × Producer A) × (link address t q ≡ some r))
        × ((r : LockFreeQueue A × Producer A) × (produce_step q p ≡ some r))
        × ((r : LockFreeQueue A × Consumer A) × (consume_step q c ≡ some r))
  Reachable-fifo {q} {p} {c} address t run =
      let (xs, order, r) = Reachable-Represents run in
      let (q', p', produced, _) = produce_step-Produces c q p xs r in
      let (s, c', consumed, _) = consume_step-Consumes p q c xs r in
      ((xs, order), link-returns q p c xs address t r, ((q', p'), produced), ((s, c'), consumed))

  length-values : (cells : List (Cell A)) → length (map (λ cell. cell.value) cells) ≡ length cells
  length-values [] = refl
  length-values (c ∷ cells) = ap suc (length-values cells)

  nothing_waits : (xs outs : List A) → length xs ≡ 0 → outs ++ xs ≡ outs
  nothing_waits [] outs h = append-nil outs
  nothing_waits (x ∷ xs) outs h = absurd (omega arith)

  -- When neither thread is inside a call and fewer than 2 ^ 31 values wait, size() is a number
  -- that is not negative, which with the number of values that came out makes the number of those
  -- that went in; and empty() tells whether all came out.
  pub size_lem :
      {q : LockFreeQueue A} {ins outs : List A}
      → length ins < length outs + 2 ^ 31
      → Reachable q idle resting ins outs
      → (n : ℕ) × (size_of q ≡ pos n)
        × (length ins ≡ length outs + n)
        × ((empty q ≡ true) ↔ (ins ≡ outs))
  unfolding empty size_of
  size_lem {q} {ins} {outs} h run =
      let (xs, order, r) = Reachable-Represents run in
      let waits : length r.rest ≡ length xs = sym (length-values r.rest) ∙ ap length r.values in
      let total : length ins ≡ length outs + length xs = ap length order ∙ length-append outs xs in
      let counted : (q.size + 0) % 2 ^ 32 ≡ (length r.rest + 0) % 2 ^ 32 = r.counted in
      let small : q.size < 2 ^ 32 = r.small in
      let size : q.size ≡ length xs = omega arith in
      let positive : ltb q.size (2 ^ 31) ≡ true =
        (let l : q.size < 2 ^ 31 = omega arith in ground arith) in
      (
        q.size,
        rw positive refl,
        omega arith,
        (
          (λ e. order ∙ nothing_waits xs outs (sym size ∙ (==_iff q.size 0).0 e)),
          λ e.
              let same : length ins ≡ length outs = ap length e in
              (==_iff q.size 0).1 (omega arith),
        ),
      )

  -- The loop of `produce` deletes what was consumed, with two steps for each node.
  trim-ends :
      (gone : List (Cell A)) (q : LockFreeQueue A) (here : Cell A) (rest : List (Cell A))
      → IsLaidOut q 0 gone here rest
      → (q' : LockFreeQueue A) × (produce_steps (2 * length gone + 1) q trimming ≡ some (q', idle))
        × IsLaidOut q' 0 [] here rest
        × (q'.size ≡ q.size)
  unfolding produce_steps
  trim-ends [] q here rest l =
      let test : produce_step q trimming ≡ some (q, idle) = trimming-nil q 0 here rest l in
      (q, rw test refl, l, refl)
  trim-ends (g ∷ gone) q here rest l =
      let test : produce_step q trimming ≡ some (q, freeing) =
        trimming-cons q 0 g gone here rest l in
      let (next, freed, laid) = freed-IsLaidOut q g gone here rest l in
      let q' : LockFreeQueue A = record q { first = next; nodes = store q.first none q.nodes } in
      let (last, run, laid', size) = trim-ends gone q' here rest laid in
      let two : 2 * length (g ∷ gone) + 1 ≡ suc (suc (2 * length gone + 1)) = omega arith in
      let goes_on : produce_steps (suc (2 * length gone + 1)) q freeing ≡ some (last, idle) =
        rw freed run in
      (last, rw (two, test) goes_on, laid', size)

  -- A call of produce that runs alone, on a queue that represents some values, returns after
  -- finitely many steps; the queue then represents those values and the new one at the end, and
  -- no consumed node is left.
  pub produce-returns :
      (q : LockFreeQueue A) (c : Consumer A) (xs : List A) (address : ℕ) (t : A)
      → q.nodes address ≡ none
      → Represents q idle c xs
      → (fuel : ℕ) × (q' : LockFreeQueue A) × (produce fuel address t q ≡ some (q', idle))
        × Represents q' idle c (xs ++ t ∷ [])
        × (q'.first ≡ q'.divider)
  unfolding produce produce_steps
  produce-returns q c xs address t free r =
      let (q1, link_, r1) = link-Represents c q xs address t free r in
      let (q2, advance, r2) = linked-Represents c q1 xs address t r1 in
      let (q3, count, r3) = advanced-Represents c q2 (xs ++ t ∷ []) r2 in
      let (q4, trim, laid, size) = trim-ends r3.gone q3 r3.here r3.rest r3.laid in
      let fuel : ℕ = 2 * length r3.gone + 1 in
      (
        suc (suc fuel),
        q4,
        rw (link_, advance, count) trim,
        record {
          gone = [];
          here = r3.here;
          rest = r3.rest;
          laid = laid;
          values = r3.values;
          producing = tt;
          consuming = r3.consuming;
          counted = rw size r3.counted;
          small = rw size r3.small;
        },
        laid.at_first ∙ sym laid.at_divider,
      )
