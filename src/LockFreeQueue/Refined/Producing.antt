-- ===== src/LockFreeQueue/Refined/Producing.antt =====
-- Each step of `produce` is defined, and does to the values what its event says.
use grtcserver.Base.{
  ℕ, ◌+◌, ◌%◌, ◌^◌, ◌≡◌, ◌∙◌, ◌==◌, refl, sym, ap, arith, ==-refl, length, List, [], ◌∷◌, ◌++◌, map,
  none, some, Option, append_assoc, length-append, true, false, ◌⊎◌, inl, inr,
}
use grtcserver.LockFreeQueue.{
  Producer, idle, linked, advanced, trimming, freeing, Consumer, resting, ready, copied, moved,
  LockFreeQueue, Node, link, produce_step, store,
}
use grtcserver.LockFreeQueue.Layout.{Cell, Apart, end_of, IsLaidOut, begin, last_address}
use grtcserver.LockFreeQueue.Memory.{
  Linked-store, Linked-Apart, relink_all, store-here, store-there, eq_swap, Apart-last, Apart-split,
  Linked-snoc, Distinct-snoc, last_address-append, begin-append,
}
use grtcserver.LockFreeQueue.Refined.{
  Event, silent, Specified, nothing, push, produce_event, Represents, ProducerFits, ConsumerFits,
  due, owed,
}

-- A further cell behind those that wait.
ConsumerFits-snoc {ℓ} :
    {A : Type ℓ} (c : Consumer A) (rest : List (Cell A)) (d : Cell A)
    → ConsumerFits rest c
    → ConsumerFits (rest ++ d ∷ []) c
ConsumerFits-snoc resting rest d h = tt
ConsumerFits-snoc ready rest d (e, more, same) = (e, more ++ d ∷ [], ap (λ r. r ++ d ∷ []) same)
ConsumerFits-snoc (copied t) rest d (e, more, same, value) =
    (e, more ++ d ∷ [], ap (λ r. r ++ d ∷ []) same, value)
ConsumerFits-snoc (moved t) rest d h = tt

List-cases {ℓ} : {A : Type ℓ} (xs : List A) → (xs ≡ []) ⊎ ((x : A) × (ys : List A) × (xs ≡ x ∷ ys))
List-cases [] = inl refl
List-cases (x ∷ xs) = inr (x, xs, refl)

module _ {ℓ} {A : Type ℓ} where
  pub trimming-nil :
      (q : LockFreeQueue A) (end : ℕ) (here : Cell A) (rest : List (Cell A))
      → IsLaidOut q end [] here rest
      → produce_step q trimming ≡ some (q, idle)
  unfolding produce_step
  trimming-nil q end here rest l =
      let same : (q.divider == q.first) ≡ true =
        rw (l.at_divider, l.at_first) (==-refl here.address) in
      rw same refl

  pub trimming-cons :
      (q : LockFreeQueue A) (end : ℕ) (g : Cell A) (gone : List (Cell A)) (here : Cell A)
      (rest : List (Cell A))
      → IsLaidOut q end (g ∷ gone) here rest
      → produce_step q trimming ≡ some (q, freeing)
  unfolding produce_step
  trimming-cons q end g gone here rest l =
      let other : (q.divider == q.first) ≡ false =
        rw (l.at_divider, l.at_first) (Apart-split g.address gone (here ∷ rest) l.distinct.0).1.0 in
      rw other refl

  -- The node at `first` is deleted.
  pub freed-IsLaidOut :
      (q : LockFreeQueue A) (g : Cell A) (more : List (Cell A)) (here : Cell A)
      (rest : List (Cell A))
      → IsLaidOut q 0 (g ∷ more) here rest
      → (next : ℕ) × (produce_step q freeing
          ≡ some (record q { first = next; nodes = store q.first none q.nodes }, trimming))
        × IsLaidOut (record q { first = next; nodes = store q.first none q.nodes }) 0 more here rest
  unfolding produce_step
  freed-IsLaidOut q g more here rest l =
      let cells : List (Cell A) = more ++ here ∷ rest in
      let found : q.nodes q.first ≡ some (record { value = g.value; next = begin cells 0 }) =
        ap q.nodes l.at_first ∙ l.chained.0 in
      (
        begin cells 0,
        rw found refl,
        record {
          chained =
              rw l.at_first (Linked-store g.address none q.nodes cells 0 l.distinct.0 l.chained.1);
          distinct = l.distinct.1;
          at_first = begin-append more here rest 0;
          at_divider = l.at_divider;
          at_last = l.at_last;
        },
      )

module _ {ℓ} {A : Type ℓ} (c : Consumer A) where
  -- The result of a step, with what it does to the values.
  abbrev pub Produces : Option (LockFreeQueue A × Producer A) → List A → Event A → Type ℓ
  Produces result xs e =
      (q : LockFreeQueue A) × (p : Producer A) × (result ≡ some (q, p))
      × ((ys : List A) × Specified xs e ys × Represents q p c ys)

  map-snoc :
      (rest : List (Cell A)) (d : Cell A)
      → map (λ cell. cell.value) (rest ++ d ∷ []) ≡ map (λ cell. cell.value) rest ++ d.value ∷ []
  map-snoc [] d = refl
  map-snoc (e ∷ rest) d = ap (◌∷◌ e.value) (map-snoc rest d)

  pub link-Represents :
      (q : LockFreeQueue A) (xs : List A) (address : ℕ) (t : A)
      → q.nodes address ≡ none
      → Represents q idle c xs
      → (q' : LockFreeQueue A) × (link address t q ≡ some (q', linked address t))
        × Represents q' (linked address t) c xs
  unfolding link
  link-Represents q xs address t free r =
      let here : Cell A = r.here in
      let cells : List (Cell A) = r.gone ++ here ∷ r.rest in
      let apart : Apart address cells = Linked-Apart address q.nodes cells 0 free r.laid.chained in
      let fresh : Option (Node A) = some (record { value = t; next = 0 }) in
      let end : ℕ = last_address here r.rest in
      let away : (end == address) ≡ false =
        Apart-last address here r.rest (Apart-split address r.gone (here ∷ r.rest) apart).1 in
      let (v, found, chained) =
        relink_all (store address fresh q.nodes) r.gone here r.rest 0 address
          (Linked-store address fresh q.nodes cells 0 apart r.laid.chained) r.laid.distinct in
      let at_end : q.nodes end ≡ some (record { value = v; next = 0 }) =
        sym (store-there address end fresh q.nodes away) ∙ found in
      let at_last : q.nodes q.last ≡ some (record { value = v; next = 0 }) =
        ap q.nodes r.laid.at_last ∙ at_end in
      let relinked : Option (Node A) = some (record { value = v; next = address }) in
      let there : store end relinked (store address fresh q.nodes) address ≡ fresh =
        store-there end address relinked (store address fresh q.nodes) (eq_swap end address away)
        ∙ store-here address fresh q.nodes in
      (
        record q { nodes = store q.last relinked (store address fresh q.nodes) },
        rw at_last refl,
        record {
          gone = r.gone;
          here = here;
          rest = r.rest;
          laid = record {
            chained = rw r.laid.at_last chained;
            distinct = r.laid.distinct;
            at_first = r.laid.at_first;
            at_divider = r.laid.at_divider;
            at_last = r.laid.at_last;
          };
          values = r.values;
          producing = (rw r.laid.at_last there, apart);
          consuming = r.consuming;
          counted = r.counted;
          small = r.small;
        },
      )

  idle-Produces :
      (q : LockFreeQueue A) (xs : List A)
      → Represents q idle c xs
      → Produces (produce_step q idle) xs silent
  unfolding produce_step
  idle-Produces q xs r = (q, idle, refl, (xs, nothing, r))

  pub linked-Represents :
      (q : LockFreeQueue A) (xs : List A) (address : ℕ) (t : A)
      → Represents q (linked address t) c xs
      → (q' : LockFreeQueue A) × (produce_step q (linked address t) ≡ some (q', advanced))
        × Represents q' advanced c (xs ++ t ∷ [])
  unfolding produce_step
  linked-Represents q xs address t r =
      let here : Cell A = r.here in
      let cells : List (Cell A) = r.gone ++ here ∷ r.rest in
      let d : Cell A = record { address = address; value = t } in
      let (v, found, _) =
        relink_all q.nodes r.gone here r.rest address 0 r.laid.chained r.laid.distinct in
      let at_last : q.nodes q.last ≡ some (record { value = v; next = address }) =
        ap q.nodes r.laid.at_last ∙ found in
      let regroup : cells ++ d ∷ [] ≡ r.gone ++ here ∷ (r.rest ++ d ∷ []) =
        append_assoc r.gone (here ∷ r.rest) (d ∷ []) in
      (
        record q { last = address },
        rw at_last refl,
        record {
          gone = r.gone;
          here = here;
          rest = r.rest ++ d ∷ [];
          laid = record {
            chained = rw regroup at (Linked-snoc q.nodes cells d r.laid.chained r.producing.0);
            distinct = rw regroup at (Distinct-snoc cells d r.producing.1 r.laid.distinct);
            at_first = r.laid.at_first;
            at_divider = r.laid.at_divider;
            at_last = sym (last_address-append here d r.rest []);
          };
          values = map-snoc r.rest d ∙ ap (λ ys. ys ++ t ∷ []) r.values;
          producing = tt;
          consuming = ConsumerFits-snoc c r.rest d r.consuming;
          counted =
              let longer : length (r.rest ++ d ∷ []) ≡ length r.rest + 1 =
                length-append r.rest (d ∷ []) in
              let before : (q.size + 0) % 2 ^ 32 ≡ (length r.rest + due c) % 2 ^ 32 = r.counted in
              omega arith;
          small = r.small;
        },
      )

  pub advanced-Represents :
      (q : LockFreeQueue A) (xs : List A)
      → Represents q advanced c xs
      → (q' : LockFreeQueue A) × (produce_step q advanced ≡ some (q', trimming))
        × Represents q' trimming c xs
  unfolding produce_step
  advanced-Represents q xs r = (
    record q { size = (q.size + 1) % 2 ^ 32 },
    refl,
    record {
      gone = r.gone;
      here = r.here;
      rest = r.rest;
      laid = record {
        chained = r.laid.chained;
        distinct = r.laid.distinct;
        at_first = r.laid.at_first;
        at_divider = r.laid.at_divider;
        at_last = r.laid.at_last;
      };
      values = r.values;
      producing = tt;
      consuming = r.consuming;
      counted =
          let before : (q.size + 1) % 2 ^ 32 ≡ (length r.rest + due c) % 2 ^ 32 = r.counted in
          omega arith;
      small = omega arith;
    },
  )

  -- The producer goes on without a change to the queue.
  goes_on :
      (q : LockFreeQueue A) (p p' : Producer A) (xs : List A) (r : Represents q p c xs)
      → end_of p ≡ end_of p'
      → owed p ≡ owed p'
      → ProducerFits q.nodes r.gone (r.gone ++ r.here ∷ r.rest) p'
      → Represents q p' c xs
  goes_on q p p' xs r end owing fits = record {
    gone = r.gone;
    here = r.here;
    rest = r.rest;
    laid = rw end at r.laid;
    values = r.values;
    producing = fits;
    consuming = r.consuming;
    counted = rw owing at r.counted;
    small = r.small;
  }

  -- The test of the loop tells whether nodes were consumed that still live.
  trimming-Produces :
      (q : LockFreeQueue A) (xs : List A)
      → Represents q trimming c xs
      → Produces (produce_step q trimming) xs silent
  trimming-Produces q xs r = elim (List-cases r.gone) [
    | inl nil ↦ (
      q,
      idle,
      trimming-nil q 0 r.here r.rest (rw nil at r.laid),
      (xs, nothing, goes_on q trimming idle xs r refl refl tt),
    )
    | inr (g, more, cons) ↦ (
      q,
      freeing,
      trimming-cons q 0 g more r.here r.rest (rw cons at r.laid),
      (xs, nothing, goes_on q trimming freeing xs r refl refl (g, more, cons)),
    )
  ]

  freeing-Produces :
      (q : LockFreeQueue A) (xs : List A)
      → Represents q freeing c xs
      → Produces (produce_step q freeing) xs silent
  freeing-Produces q xs r =
      let (g, more, e) = r.producing in
      let (next, step, laid) = freed-IsLaidOut q g more r.here r.rest (rw e at r.laid) in
      (
        record q { first = next; nodes = store q.first none q.nodes },
        trimming,
        step,
        (
          xs,
          nothing,
          record {
            gone = more;
            here = r.here;
            rest = r.rest;
            laid = laid;
            values = r.values;
            producing = tt;
            consuming = r.consuming;
            counted = r.counted;
            small = r.small;
          },
        ),
      )

  pub produce_step-Produces :
      (q : LockFreeQueue A) (p : Producer A) (xs : List A)
      → Represents q p c xs
      → Produces (produce_step q p) xs (produce_event p)
  unfolding produce_event
  produce_step-Produces q idle xs r = idle-Produces q xs r
  produce_step-Produces q (linked address t) xs r =
      let (q', e, r') = linked-Represents q xs address t r in
      (q', advanced, e, (xs ++ t ∷ [], push, r'))
  produce_step-Produces q advanced xs r =
      let (q', e, r') = advanced-Represents q xs r in (q', trimming, e, (xs, nothing, r'))
  produce_step-Produces q trimming xs r = trimming-Produces q xs r
  produce_step-Produces q freeing xs r = freeing-Produces q xs r
