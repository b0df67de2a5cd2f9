-- ===== src/LockFreeQueue.antt =====
-- src/base/lock_free_queue.h: a queue between one producer and one consumer, on a list of nodes.
-- The code takes each of its accesses to the list as one atomic step, and so does the model.
pub mod Layout
pub mod Memory
pub mod Refined
pub mod Whole
mod Runs
use grtcserver.Base.{
  ℕ, zero, suc, ◌+◌, ◌-◌, ◌%◌, ◌^◌, Bool, true, false, Option, none, some, ◌==◌, ltb, if◌then◌else◌,
  ◌>>=◌,
}

-- An address 0 is a null pointer.
pub record Node {ℓ} (A : Type ℓ) : Type ℓ where
  pub value : A
  pub next : ℕ

-- The memory has what lives at an address.
abbrev pub Memory {ℓ} : Type ℓ → Type ℓ
Memory A = ℕ → Option (Node A)

-- Where the one thread is in `produce`, with its local values.
pub data Producer {ℓ} (A : Type ℓ) : Type ℓ where
  idle : Producer A
  linked : ℕ → A → Producer A
  advanced : Producer A
  trimming : Producer A
  freeing : Producer A

-- Where the other is in `consume`, with the value in `*result`.
pub data Consumer {ℓ} (A : Type ℓ) : Type ℓ where
  resting : Consumer A
  ready : Consumer A
  copied : A → Consumer A
  moved : A → Consumer A

-- An int, of which `negsuc n` is -1 - n.
pub data ℤ : Type 0 where
  pos negsuc : ℕ → ℤ

-- `_size` is an int: the field has its 32 bits, and `size_of` what they stand for.
pub record LockFreeQueue {ℓ} (A : Type ℓ) : Type ℓ where
  pub nodes : Memory A
  pub first : ℕ
  pub divider : ℕ
  pub last : ℕ
  pub size : ℕ

module _ {ℓ} {A : Type ℓ} where
  unfoldable pub store : ℕ → Option (Node A) → Memory A → Memory A
  store address node memory = λ a. if a == address then node else memory a

  -- The constructor, with the default value and the address of its node.
  unfoldable pub new_queue : ℕ → A → LockFreeQueue A
  new_queue address default = record {
    nodes = store address (some (record { value = default; next = 0 })) (λ a. none);
    first = address;
    divider = address;
    last = address;
    size = 0;
  }

  -- `last->next = new Node(t)`, where operator new answers the address.
  unfoldable pub link : ℕ → A → LockFreeQueue A → Option (LockFreeQueue A × Producer A)
  link address t q = q.nodes q.last >>= λ node. some (
    record q {
      nodes =
          store q.last (some (record node { next = address }))
            (store address (some (record { value = t; next = 0 })) q.nodes);
    },
    linked address t,
  )

  -- The further steps of `produce`. The loop tests, and deletes one node for each test.
  unfoldable pub produce_step : LockFreeQueue A → Producer A → Option (LockFreeQueue A × Producer A)
  produce_step q idle = some (q, idle)
  produce_step q (linked address t) =
      q.nodes q.last >>= λ node. some (record q { last = node.next }, advanced)
  produce_step q advanced = some (record q { size = (q.size + 1) % 2 ^ 32 }, trimming)
  produce_step q trimming = some (q, if q.divider == q.first then idle else freeing)
  produce_step q freeing = q.nodes q.first >>= λ node.
      some (record q { first = node.next; nodes = store q.first none q.nodes }, trimming)

  -- At most so many of those steps, without one of the consumer between them.
  unfoldable pub produce_steps :
      ℕ → LockFreeQueue A → Producer A → Option (LockFreeQueue A × Producer A)
  produce_steps zero q p = some (q, p)
  produce_steps (suc fuel) q p = produce_step q p >>= λ result. produce_steps fuel result.0 result.1

  unfoldable pub produce : ℕ → ℕ → A → LockFreeQueue A → Option (LockFreeQueue A × Producer A)
  produce fuel address t q = link address t q >>= λ result. produce_steps fuel result.0 result.1

  -- The steps of `consume`; one that finds nothing answers false.
  unfoldable pub consume_step : LockFreeQueue A → Consumer A → Option (LockFreeQueue A × Consumer A)
  consume_step q resting = some (q, if q.divider == q.last then resting else ready)
  consume_step q ready =
      q.nodes q.divider >>= λ node. q.nodes node.next >>= λ second. some (q, copied second.value)
  consume_step q (copied t) =
      q.nodes q.divider >>= λ node. some (record q { divider = node.next }, moved t)
  consume_step q (moved t) = some (record q { size = (q.size + (2 ^ 32 - 1)) % 2 ^ 32 }, resting)

  unfoldable pub empty : LockFreeQueue A → Bool
  empty q = q.size == 0

  -- size()
  unfoldable pub size_of : LockFreeQueue A → ℤ
  size_of q = if ltb q.size (2 ^ 31) then pos q.size else negsuc (2 ^ 32 - 1 - q.size)
