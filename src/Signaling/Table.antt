-- ===== src/Signaling/Table.antt =====
-- The table has each connection at its own file descriptor.
use grtcserver.Base.{
  ℕ, zero, suc, ◌-◌, ◌*◌, ◌≡◌, ◌∙◌, refl, sym, ap, List, [], ◌∷◌, ◌++◌, Option, none, some, true,
  false, ◌==◌, leb, length, set, replicate, Bool-cases, inl, inr, ◌⊎◌, ==_iff, ==-refl, eq_of_some,
  arith,
}
use grtcserver.Signaling.{TcpConnection, new_tcp_connection}
use grtcserver.Signaling.Worker.{
  SignalingWorker, Progress, fault, hang, done, entry, put_connection, close_conn, resized,
  new_conn, process_timeout, with_live,
}

abbrev pub IsTable : SignalingWorker → Type 0
IsTable wk =
    (fd address : ℕ)
    → entry wk.conns fd ≡ some address
    → (c : TcpConnection) × (wk.heap address ≡ some c) × (c.fd ≡ fd)

abbrev pub Keeps : Progress → Type 0
Keeps fault = Unit {0}
Keeps hang = Unit {0}
Keeps (done wk) = IsTable wk

entry-set :
    (xs : List (Option ℕ)) (i j a : ℕ) (v : Option ℕ)
    → entry (set xs i v) j ≡ some a
    → ((j ≡ i) × (v ≡ some a)) ⊎ (entry xs j ≡ some a)
unfolding entry
entry-set [] i j a v h = inr h
entry-set (x ∷ xs) zero zero a v h = inl (refl, h)
entry-set (x ∷ xs) zero (suc j) a v h = inr h
entry-set (x ∷ xs) (suc i) zero a v h = inr h
entry-set (x ∷ xs) (suc i) (suc j) a v h = elim (entry-set xs i j a v h) [
  | inl (e, f) ↦ inl (ap suc e, f)
  | inr e ↦ inr e
]

pub entry-set-none : (xs : List (Option ℕ)) (i : ℕ) → entry (set xs i none) i ≡ none
unfolding entry
entry-set-none [] i = refl
entry-set-none (x ∷ xs) zero = refl
entry-set-none (x ∷ xs) (suc i) = entry-set-none xs i

-- What stands in the table is in its range.
pub entry-in_range :
    (xs : List (Option ℕ)) (i a : ℕ) → entry xs i ≡ some a → leb (length xs) i ≡ false
unfolding entry
entry-in_range [] i a h = absurd (let f : none ≡ some a = h in cc)
entry-in_range (x ∷ xs) zero a h = ground arith
entry-in_range (x ∷ xs) (suc i) a h = ground (arith, entry-in_range xs i a h)

entry-replicate : (n j a : ℕ) → entry (replicate n none) j ≡ some a → false ≡ true
unfolding entry
entry-replicate zero j a h = absurd (let f : none ≡ some a = h in cc)
entry-replicate (suc n) zero a h = absurd (let f : none ≡ some a = h in cc)
entry-replicate (suc n) (suc j) a h = entry-replicate n j a h

entry-append :
    (xs : List (Option ℕ)) (n j a : ℕ)
    → entry (xs ++ replicate n none) j ≡ some a
    → entry xs j ≡ some a
unfolding entry
entry-append [] n j a h = absurd (let f : false ≡ true = entry-replicate n j a h in cc)
entry-append (x ∷ xs) n zero a h = h
entry-append (x ∷ xs) n (suc j) a h = entry-append xs n j a h

entry-resized :
    (fd : ℕ) (xs : List (Option ℕ)) (j a : ℕ)
    → entry (resized fd xs) j ≡ some a
    → entry xs j ≡ some a
unfolding resized
entry-resized fd xs j a h = elim (Bool-cases (leb (length xs) fd)) [
  | inl e ↦ entry-append xs (fd * 2 - length xs) j a (rw (resized, e) at h)
  | inr e ↦ rw (resized, e) at h
]

-- A connection that has kept its file descriptor is put back.
pub put-IsTable :
    (address : ℕ) (old c : TcpConnection) (wk : SignalingWorker)
    → wk.heap address ≡ some old
    → c.fd ≡ old.fd
    → IsTable wk
    → IsTable (put_connection address c wk)
unfolding put_connection
put-IsTable address old c wk live e t = λ fd a h.
    let (d, at_a, f) = t fd a h in
    elim (Bool-cases (a == address)) [
      | inl g ↦
          (let same : old ≡ d =
              eq_of_some (sym live ∙ ap wk.heap (sym ((==_iff a address).0 g)) ∙ at_a) in
            (c, rw g refl, e ∙ ap (λ (x : TcpConnection). x.fd) same ∙ f))
      | inr g ↦ (d, rw g at_a, f)
    ]

pub close-IsTable :
    (address : ℕ) (c : TcpConnection) (wk : SignalingWorker)
    → wk.heap address ≡ some c
    → IsTable wk
    → IsTable (close_conn address c wk)
unfolding close_conn
close-IsTable address c wk live t = λ fd a h. elim (entry-set wk.conns c.fd fd a none h) [
  | inl (_, n) ↦ absurd (let f : none ≡ some a = n in cc)
  | inr e ↦
      let (d, at_a, f) = t fd a e in
      elim (Bool-cases (a == address)) [
        | inl g ↦
            let same : c ≡ d =
              eq_of_some (sym live ∙ ap wk.heap (sym ((==_iff a address).0 g)) ∙ at_a) in
            let here : c.fd ≡ fd = ap (λ (x : TcpConnection). x.fd) same ∙ f in
            absurd (
              let z : none ≡ some a =
                sym (entry-set-none wk.conns c.fd) ∙ ap (entry (set wk.conns c.fd none)) here ∙ h in
              cc)
        | inr g ↦ (d, rw g at_a, f)
      ]
]

pub new_conn-Keeps :
    (address now fd : ℕ) (wk : SignalingWorker)
    → wk.heap address ≡ none
    → IsTable wk
    → Keeps (new_conn address now fd wk)
unfolding new_conn put_connection new_tcp_connection
new_conn-Keeps address now fd wk fresh t =
    elim (Bool-cases (leb (length (resized fd wk.conns)) fd)) [
      | inl e ↦ rw (new_conn, e) tt
      | inr e ↦
          let new : TcpConnection = record (new_tcp_connection fd) { last_interaction = now } in
          rw (new_conn, e)
            (λ j a h. elim (entry-set (resized fd wk.conns) fd j a (some address) h) [
              | inl (i, f) ↦
                  let same : (a == address) ≡ true = rw (sym (eq_of_some f)) (==-refl address) in
                  (new, rw same refl, sym i)
              | inr f ↦
                  let (d, at_a, k) = t j a (entry-resized fd wk.conns j a f) in
                  elim (Bool-cases (a == address)) [
                    | inl g ↦ absurd (
                        let z : none ≡ some d =
                          sym fresh ∙ ap wk.heap (sym ((==_iff a address).0 g)) ∙ at_a in
                        cc)
                    | inr g ↦ (d, rw g at_a, k)
                  ]
            ])
    ]

-- What is done with a live connection keeps the table.
pub with_live-Keeps :
    (o : Option TcpConnection) (next : TcpConnection → Progress)
    → ((c : TcpConnection) → o ≡ some c → Keeps (next c))
    → Keeps (with_live o next)
unfolding with_live
with_live-Keeps none next h = tt
with_live-Keeps (some c) next h = h c refl

pub timeout-Keeps :
    (timeout now address : ℕ) (wk : SignalingWorker)
    → IsTable wk
    → Keeps (process_timeout timeout now address wk)
unfolding process_timeout
timeout-Keeps timeout now address wk t = with_live-Keeps (wk.heap address) _ (λ c live.
    elim (Bool-cases (leb timeout (now - c.last_interaction))) [
      | inl e ↦ rw e (close-IsTable address c wk live t)
      | inr e ↦ rw e t
    ])
