-- ===== src/LockFreeQueue/Memory.antt =====
-- What a write to the memory leaves as it was.
use grtcserver.Base.{
  ℕ, ◌≡◌, ◌==◌, refl, sym, ◌∙◌, false, List, [], ◌∷◌, ◌++◌, Option, some, none, arith, ==-refl,
  ==_iff, inl, inr, Bool-cases,
}
use grtcserver.LockFreeQueue.{Node, Memory, store}
use grtcserver.LockFreeQueue.Layout.{Cell, begin, last_address, Linked, Apart, Distinct}

pub eq_swap : (a b : ℕ) → (a == b) ≡ false → (b == a) ≡ false
eq_swap a b h = ground arith

module _ {ℓ} {A : Type ℓ} where
  pub store-here :
      (a : ℕ) (content : Option (Node A)) (memory : Memory A) → store a content memory a ≡ content
  unfolding store
  store-here a content memory = rw ==-refl

  pub store-there :
      (a b : ℕ) (content : Option (Node A)) (memory : Memory A)
      → (b == a) ≡ false
      → store a content memory b ≡ memory b
  unfolding store
  store-there a b content memory h = rw h

  -- A write away from the cells.
  pub Linked-store :
      (a : ℕ) (content : Option (Node A)) (memory : Memory A) (cells : List (Cell A)) (end : ℕ)
      → Apart a cells
      → Linked memory cells end
      → Linked (store a content memory) cells end
  Linked-store a content memory [] end h k = tt
  Linked-store a content memory (c ∷ cells) end h k = (
    rw (store-there a c.address content memory h.0) k.0,
    Linked-store a content memory cells end h.1 k.1,
  )

  -- An address without a content is no cell's.
  pub Linked-Apart :
      (a : ℕ) (memory : Memory A) (cells : List (Cell A)) (end : ℕ)
      → memory a ≡ none
      → Linked memory cells end
      → Apart a cells
  Linked-Apart a memory [] end h k = tt
  Linked-Apart a memory (c ∷ cells) end h k = (
    elim (Bool-cases (c.address == a)) [
      | inr e ↦ e
      | inl e ↦ let gone : memory c.address ≡ none = rw ((==_iff c.address a).0 e) h in absurd (cc)
    ],
    Linked-Apart a memory cells end h k.1,
  )

  -- The last cell is a cell.
  pub Apart-last :
      (a : ℕ) (c : Cell A) (cells : List (Cell A))
      → Apart a (c ∷ cells)
      → (last_address c cells == a) ≡ false
  Apart-last a c [] h = h.0
  Apart-last a c (d ∷ cells) h = Apart-last a d cells h.1

  pub Apart-append :
      (a : ℕ) (cells more : List (Cell A)) → Apart a cells → Apart a more → Apart a (cells ++ more)
  Apart-append a [] more h k = k
  Apart-append a (c ∷ cells) more h k = (h.0, Apart-append a cells more h.1 k)

  pub Apart-split :
      (a : ℕ) (cells more : List (Cell A)) → Apart a (cells ++ more) → Apart a cells × Apart a more
  Apart-split a [] more h = (tt, h)
  Apart-split a (c ∷ cells) more h = let (l, r) = Apart-split a cells more h.1 in ((h.0, l), r)

  pub Distinct-end : (cells more : List (Cell A)) → Distinct (cells ++ more) → Distinct more
  Distinct-end [] more h = h
  Distinct-end (c ∷ cells) more h = Distinct-end cells more h.1

  pub Linked-end :
      (memory : Memory A) (cells more : List (Cell A)) (end : ℕ)
      → Linked memory (cells ++ more) end
      → Linked memory more end
  Linked-end memory [] more end h = h
  Linked-end memory (c ∷ cells) more end h = Linked-end memory cells more end h.1

  -- A new cell behind the others, away from them.
  pub Distinct-snoc :
      (cells : List (Cell A)) (c : Cell A)
      → Apart c.address cells
      → Distinct cells
      → Distinct (cells ++ c ∷ [])
  Distinct-snoc [] c h k = (tt, tt)
  Distinct-snoc (d ∷ cells) c h k = (
    Apart-append d.address cells (c ∷ []) k.0 (eq_swap d.address c.address h.0, tt),
    Distinct-snoc cells c h.1 k.1,
  )

  pub Linked-snoc :
      (memory : Memory A) (cells : List (Cell A)) (c : Cell A)
      → Linked memory cells c.address
      → memory c.address ≡ some (record { value = c.value; next = 0 })
      → Linked memory (cells ++ c ∷ []) 0
  Linked-snoc memory [] c h k = (k, tt)
  Linked-snoc memory (d ∷ []) c h k = (h.0, (k, tt))
  Linked-snoc memory (d ∷ e ∷ cells) c h k = (h.0, Linked-snoc memory (e ∷ cells) c h.1 k)

  pub begin-append :
      (gone : List (Cell A)) (c : Cell A) (cells : List (Cell A)) (end : ℕ)
      → begin (gone ++ c ∷ cells) end ≡ begin gone c.address
  begin-append [] c cells end = refl
  begin-append (g ∷ gone) c cells end = refl

  -- The last cell of a list, whose value and pointer memory has.
  pub relink :
      (memory : Memory A) (c : Cell A) (cells : List (Cell A)) (end new_end : ℕ)
      → Linked memory (c ∷ cells) end
      → Distinct (c ∷ cells)
      → (v : A) × (memory (last_address c cells) ≡ some (record { value = v; next = end }))
        × Linked
            (store (last_address c cells) (some (record { value = v; next = new_end })) memory)
            (c ∷ cells)
            new_end
  relink memory c [] end new_end h k = (c.value, h.0, (store-here c.address _ memory, tt))
  relink memory c (d ∷ cells) end new_end h k =
      let (v, found, linked) = relink memory d cells end new_end h.1 k.1 in
      (
        v,
        found,
        (
          rw
              (store-there (last_address d cells) c.address
                (some (record { value = v; next = new_end })) memory
                (eq_swap (last_address d cells) c.address (Apart-last c.address d cells k.0)))
              h.0,
          linked,
        ),
      )

  pub last_address-append :
      (c d : Cell A) (cells more : List (Cell A))
      → last_address c (cells ++ d ∷ more) ≡ last_address d more
  last_address-append c d [] more = refl
  last_address-append c d (e ∷ cells) more = last_address-append e d cells more

  -- The same after cells that come before.
  pub relink_all :
      (memory : Memory A) (gone : List (Cell A)) (c : Cell A) (cells : List (Cell A))
      (end new_end : ℕ)
      → Linked memory (gone ++ c ∷ cells) end
      → Distinct (gone ++ c ∷ cells)
      → (v : A) × (memory (last_address c cells) ≡ some (record { value = v; next = end }))
        × Linked
            (store (last_address c cells) (some (record { value = v; next = new_end })) memory)
            (gone ++ c ∷ cells)
            new_end
  relink_all memory [] c cells end new_end h k = relink memory c cells end new_end h k
  relink_all memory (g ∷ gone) c cells end new_end h k =
      let (v, found, linked) = relink_all memory gone c cells end new_end h.1 k.1 in
      let apart : Apart g.address (c ∷ cells) = (Apart-split g.address gone (c ∷ cells) k.0).1 in
      let same : begin (gone ++ c ∷ cells) new_end ≡ begin (gone ++ c ∷ cells) end =
        begin-append gone c cells new_end ∙ sym (begin-append gone c cells end) in
      (
        v,
        found,
        (
          rw
              (
                store-there (last_address c cells) g.address
                    (some (record { value = v; next = new_end })) memory
                    (eq_swap (last_address c cells) g.address (Apart-last g.address c cells apart)),
                same,
              )
              h.0,
          linked,
        ),
      )
