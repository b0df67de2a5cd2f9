-- ===== src/LockFreeQueue/Refined/Consuming.antt =====
-- Each step of `consume` is defined, and does to the values what its event says.
use grtcserver.Base.{
  ℕ, ◌+◌, ◌-◌, ◌%◌, ◌^◌, ◌≡◌, ◌∙◌, ◌==◌, refl, sym, ap, arith, ==-refl, length, List, [], ◌∷◌, ◌++◌,
  map, some, Option, append_assoc, true, false, ◌⊎◌, inl, inr,
}
use grtcserver.LockFreeQueue.{
  Producer, idle, linked, advanced, trimming, freeing, Consumer, resting, ready, copied, moved,
  LockFreeQueue, consume_step,
}
use grtcserver.LockFreeQueue.Layout.{Cell, Apart, end_of, IsLaidOut, begin, last_address, Linked}
use grtcserver.LockFreeQueue.Memory.{Apart-last, eq_swap, Linked-end, Distinct-end, begin-append}
use grtcserver.LockFreeQueue.Refined.{
  Event, Specified, nothing, pop, none_left, consume_event, Represents, ProducerFits, ConsumerFits,
  due, owed,
}

-- The divider passes a cell, which the loop of `produce` may delete from then on.
ProducerFits-pass {ℓ} :
    {A : Type ℓ} (q : LockFreeQueue A) (p : Producer A) (gone : List (Cell A)) (here : Cell A)
    (rest : List (Cell A))
    → ProducerFits q.nodes gone (gone ++ here ∷ rest) p
    → ProducerFits q.nodes (gone ++ here ∷ []) ((gone ++ here ∷ []) ++ rest) p
ProducerFits-pass q idle gone here rest h = tt
ProducerFits-pass q (linked address t) gone here rest h =
    (h.0, rw (append_assoc gone (here ∷ []) rest) h.1)
ProducerFits-pass q advanced gone here rest h = tt
ProducerFits-pass q trimming gone here rest h = tt
ProducerFits-pass q freeing gone here rest (g, more, e) =
    (g, more ++ here ∷ [], ap (λ cells. cells ++ here ∷ []) e)

module _ {ℓ} {A : Type ℓ} (p : Producer A) where
  abbrev pub Consumes : Option (LockFreeQueue A × Consumer A) → List A → Event A → Type ℓ
  Consumes result xs e =
      (q : LockFreeQueue A) × (c : Consumer A) × (result ≡ some (q, c))
      × ((ys : List A) × Specified xs e ys × Represents q p c ys)

  -- The consumer goes on without a change to the queue.
  goes_on :
      (q : LockFreeQueue A) (c c' : Consumer A) (xs : List A) (r : Represents q p c xs)
      → due c ≡ due c'
      → ConsumerFits r.rest c'
      → Represents q p c' xs
  goes_on q c c' xs r same fits = record {
    gone = r.gone;
    here = r.here;
    rest = r.rest;
    laid = r.laid;
    values = r.values;
    producing = r.producing;
    consuming = fits;
    counted = rw same at r.counted;
    small = r.small;
  }

  last-is :
      (q : LockFreeQueue A) (end : ℕ) (gone : List (Cell A)) (here : Cell A) (rest : List (Cell A))
      → IsLaidOut q end gone here rest
      → (((q.divider == q.last) ≡ true) × (rest ≡ []))
        ⊎ (((q.divider == q.last) ≡ false)
            × ((d : Cell A) × (more : List (Cell A)) × (rest ≡ d ∷ more)))
  last-is q end gone here [] l = inl (rw (l.at_divider, l.at_last) (==-refl here.address), refl)
  last-is q end gone here (d ∷ more) l =
      let apart : Apart here.address (d ∷ more) =
        (Distinct-end gone (here ∷ d ∷ more) l.distinct).0 in
      let differ : (last_address d more == here.address) ≡ false =
        Apart-last here.address d more apart in
      inr (
        rw (l.at_divider, l.at_last) (eq_swap (last_address d more) here.address differ),
        (d, more, refl),
      )

  resting-Consumes :
      (q : LockFreeQueue A) (xs : List A)
      → Represents q p resting xs
      → Consumes (consume_step q resting) xs (consume_event q resting)
  unfolding consume_step consume_event
  resting-Consumes q xs r = elim (last-is q (end_of p) r.gone r.here r.rest r.laid) [
    | inl (same, nil) ↦
        let nothing_left : [] ≡ xs = rw nil at r.values in
        (q, resting, rw same refl, (xs, rw (same, sym nothing_left) none_left, r))
    | inr (other, more) ↦
        (q, ready, rw other refl, (xs, rw other nothing, goes_on q resting ready xs r refl more))
  ]

  -- `divider` and the node behind it.
  found_next :
      (q : LockFreeQueue A) (end : ℕ) (gone : List (Cell A)) (here d : Cell A)
      (more : List (Cell A))
      → IsLaidOut q end gone here (d ∷ more)
      → (q.nodes q.divider ≡ some (record { value = here.value; next = d.address }))
        × (q.nodes d.address ≡ some (record { value = d.value; next = begin more end }))
  found_next q end gone here d more l =
      let linked_ : Linked q.nodes (here ∷ d ∷ more) end =
        Linked-end q.nodes gone (here ∷ d ∷ more) end l.chained in
      (ap q.nodes l.at_divider ∙ linked_.0, linked_.1.0)

  ready-Consumes :
      (q : LockFreeQueue A) (xs : List A)
      → Represents q p ready xs
      → Consumes (consume_step q ready) xs (consume_event q ready)
  unfolding consume_step consume_event
  ready-Consumes q xs r =
      let (d, more, e) = r.consuming in
      let laid : IsLaidOut q (end_of p) r.gone r.here (d ∷ more) = rw e at r.laid in
      let (at_divider, at_next) = found_next q (end_of p) r.gone r.here d more laid in
      (
        q,
        copied d.value,
        rw (at_divider, at_next) refl,
        (xs, nothing, goes_on q ready (copied d.value) xs r refl (d, more, e, refl)),
      )

  copied-Consumes :
      (q : LockFreeQueue A) (xs : List A) (t : A)
      → Represents q p (copied t) xs
      → Consumes (consume_step q (copied t)) xs (consume_event q (copied t))
  unfolding consume_step consume_event
  copied-Consumes q xs t r =
      let (d, more, e, value) = r.consuming in
      let laid : IsLaidOut q (end_of p) r.gone r.here (d ∷ more) = rw e at r.laid in
      let (at_divider, _) = found_next q (end_of p) r.gone r.here d more laid in
      let values : d.value ∷ map (λ cell. cell.value) more ≡ xs = rw e at r.values in
      let split : t ∷ map (λ cell. cell.value) more ≡ xs = rw value at values in
      let regroup : (r.gone ++ r.here ∷ []) ++ d ∷ more ≡ r.gone ++ r.here ∷ d ∷ more =
        append_assoc r.gone (r.here ∷ []) (d ∷ more) in
      let fits : ProducerFits q.nodes r.gone (r.gone ++ r.here ∷ d ∷ more) p =
        rw e at r.producing in
      (
        record q { divider = d.address },
        moved t,
        rw at_divider refl,
        (
          map (λ cell. cell.value) more,
          rw (sym split) pop,
          record {
            gone = r.gone ++ r.here ∷ [];
            here = d;
            rest = more;
            laid = record {
              chained = rw regroup laid.chained;
              distinct = rw regroup laid.distinct;
              at_first = laid.at_first ∙ sym (begin-append r.gone r.here [] d.address);
              at_divider = refl;
              at_last = laid.at_last;
            };
            values = refl;
            producing = ProducerFits-pass q p r.gone r.here (d ∷ more) fits;
            consuming = tt;
            counted =
                let before : (q.size + owed p) % 2 ^ 32 ≡ (length (d ∷ more) + 0) % 2 ^ 32 =
                  rw e at r.counted in
                before ∙ (omega arith);
            small = r.small;
          },
        ),
      )

  moved-Consumes :
      (q : LockFreeQueue A) (xs : List A) (t : A)
      → Represents q p (moved t) xs
      → Consumes (consume_step q (moved t)) xs (consume_event q (moved t))
  unfolding consume_step consume_event
  moved-Consumes q xs t r = (
    record q { size = (q.size + (2 ^ 32 - 1)) % 2 ^ 32 },
    resting,
    refl,
    (
      xs,
      nothing,
      record {
        gone = r.gone;
        here = r.here;
        rest = r.rest;
        laid = record {
          chained = r.laid.chained;
          distinct = r.laid.distinct;
          at_first = r.laid.at_first;
          at_divider = r.laid.at_divider;
          at_last = r.laid.at_last;
        };
        values = r.values;
        producing = r.producing;
        consuming = tt;
        counted =
            let before : (q.size + owed p) % 2 ^ 32 ≡ (length r.rest + 1) % 2 ^ 32 = r.counted in
            omega arith;
        small = omega arith;
      },
    ),
  )

  pub consume_step-Consumes :
      (q : LockFreeQueue A) (c : Consumer A) (xs : List A)
      → Represents q p c xs
      → Consumes (consume_step q c) xs (consume_event q c)
  consume_step-Consumes q resting xs r = resting-Consumes q xs r
  consume_step-Consumes q ready xs r = ready-Consumes q xs r
  consume_step-Consumes q (copied t) xs r = copied-Consumes q xs t r
  consume_step-Consumes q (moved t) xs r = moved-Consumes q xs t r
