-- ===== src/LockFreeQueue/Refined.antt =====
-- The two threads, step by step in any order, against a queue of values.
pub mod Producing
pub mod Consuming
use grtcserver.Base.{
  ℕ, ◌+◌, ◌%◌, ◌^◌, ◌<◌, ◌≡◌, ◌==◌, if◌then◌else◌, length, List, [], ◌∷◌, ◌++◌, map, none, some,
  Option,
}
use grtcserver.LockFreeQueue.{
  Memory, Producer, linked, advanced, freeing, Consumer, resting, ready, copied, moved,
  LockFreeQueue, link, produce_step, consume_step, idle, new_queue,
}
use grtcserver.LockFreeQueue.Layout.{Cell, Apart, end_of, IsLaidOut}

-- What a step does to the queue that a user sees.
pub data Event {ℓ} (A : Type ℓ) : Type ℓ where
  silent : Event A
  pushed : A → Event A
  popped : A → Event A
  found_empty : Event A

pub data Specified {ℓ} {A : Type ℓ} : List A → Event A → List A → Type ℓ where
  nothing : {xs : List A} → Specified xs silent xs
  push : {xs : List A} {t : A} → Specified xs (pushed t) (xs ++ t ∷ [])
  pop : {xs : List A} {t : A} → Specified (t ∷ xs) (popped t) xs
  none_left : Specified [] found_empty []

module _ {ℓ} {A : Type ℓ} where
  unfoldable pub produce_event : Producer A → Event A
  produce_event (linked address t) = pushed t
  produce_event _ = silent

  unfoldable pub consume_event : LockFreeQueue A → Consumer A → Event A
  consume_event q resting = if q.divider == q.last then found_empty else silent
  consume_event q (copied t) = popped t
  consume_event q _ = silent

-- One step of the one thread or of the other. A call of `produce` takes an address that is free.
pub data Step {ℓ} {A : Type ℓ}
    : LockFreeQueue A
      → Producer A
      → Consumer A
      → Event A
      → LockFreeQueue A
      → Producer A
      → Consumer A
      → Type ℓ where
  call :
      {q q' : LockFreeQueue A} {p : Producer A} {c : Consumer A} (address : ℕ) (t : A)
      → q.nodes address ≡ none
      → link address t q ≡ some (q', p)
      → Step q idle c silent q' p c
  producer_moves :
      {q q' : LockFreeQueue A} {p p' : Producer A} {c : Consumer A}
      → produce_step q p ≡ some (q', p')
      → Step q p c (produce_event p) q' p' c
  consumer_moves :
      {q q' : LockFreeQueue A} {p : Producer A} {c c' : Consumer A}
      → consume_step q c ≡ some (q', c')
      → Step q p c (consume_event q c) q' p c'

module _ {ℓ} {A : Type ℓ} where
  abbrev pub ProducerFits : Memory A → List (Cell A) → List (Cell A) → Producer A → Type ℓ
  ProducerFits memory gone cells (linked address t) =
      (memory address ≡ some (record { value = t; next = 0 })) × Apart address cells
  ProducerFits memory gone cells freeing = (c : Cell A) × (more : List (Cell A)) × (gone ≡ c ∷ more)
  ProducerFits memory gone cells _ = Unit {ℓ}

  abbrev pub ConsumerFits : List (Cell A) → Consumer A → Type ℓ
  ConsumerFits rest ready = (c : Cell A) × (more : List (Cell A)) × (rest ≡ c ∷ more)
  ConsumerFits rest (copied t) =
      (c : Cell A) × (more : List (Cell A)) × (rest ≡ c ∷ more) × (c.value ≡ t)
  ConsumerFits rest _ = Unit {ℓ}

  -- What `_size` has still to be told.
  abbrev pub owed : Producer A → ℕ
  owed advanced = 1
  owed _ = 0

  abbrev pub due : Consumer A → ℕ
  due (moved t) = 1
  due _ = 0

-- The values that wait in the queue, from the one that `consume` answers next.
pub record Represents {ℓ} {A : Type ℓ} (q : LockFreeQueue A) (p : Producer A) (c : Consumer A)
    (xs : List A) : Type ℓ where
  pub gone : List (Cell A)
  pub here : Cell A
  pub rest : List (Cell A)
  pub laid : IsLaidOut q (end_of p) gone here rest
  pub values : map (λ cell. cell.value) rest ≡ xs
  pub producing : ProducerFits q.nodes gone (gone ++ here ∷ rest) p
  pub consuming : ConsumerFits rest c
  pub counted : (q.size + owed p) % 2 ^ 32 ≡ (length rest + due c) % 2 ^ 32
  pub small : q.size < 2 ^ 32
