-- ===== src/Toc/Batches.antt =====
-- valuestorefile_GEN_.go: the batches of a table of contents, worker by worker.
use native.Mathlib.Nat.{mod-lt}
use valuestore.Base.{
  ℕ, zero, suc, ◌+◌, ◌%◌, ◌<◌, ◌≡◌, ◌≢◌, refl, sym, ap, ◌∙◌, true, false, List, [], ◌∷◌, ◌++◌,
  Option, none, some, inl, inr, arith, Bool-cases, append-nil, append_assoc, leb, ◌==◌,
  if◌then◌else◌, length, length-set, set, replicate,
}
use valuestore.Toc.{Entry, Batching, batch_at, put_entry, flush_batches}

-- What the batches for one worker have, in order.
abbrev pub of_worker : ℕ → List (ℕ × List Entry) → List Entry
of_worker k [] = []
of_worker k ((j, batch) ∷ sent) = (if j == k then batch else []) ++ of_worker k sent

-- The entries whose key falls to a worker, in order.
abbrev pub entries_of : ℕ → ℕ → List Entry → List Entry
entries_of workers k [] = []
entries_of workers k (e ∷ es) =
    if e.key.key_b % workers == k then e ∷ entries_of workers k es else entries_of workers k es

of_worker-append :
    (k : ℕ) (xs ys : List (ℕ × List Entry))
    → of_worker k (xs ++ ys) ≡ of_worker k xs ++ of_worker k ys
of_worker-append k [] ys = refl
of_worker-append k ((j, batch) ∷ xs) ys =
    ap (λ r. (if j == k then batch else []) ++ r) (of_worker-append k xs ys)
    ∙ sym (append_assoc (if j == k then batch else []) (of_worker k xs) (of_worker k ys))

of_worker-flush_later :
    (k i : ℕ) (batches : List (Option (List Entry)))
    → k < i
    → of_worker k (flush_batches i batches) ≡ []
of_worker-flush_later k i [] h = refl
of_worker-flush_later k i (none ∷ batches) h = of_worker-flush_later k (suc i) batches (omega arith)
of_worker-flush_later k i (some batch ∷ batches) h =
    let other : (i == k) ≡ false = ground (arith, h) in
    simp other (of_worker-flush_later k (suc i) batches (omega arith))

of_worker-flush :
    (k i p : ℕ) (batches : List (Option (List Entry)))
    → i + p ≡ k
    → of_worker k (flush_batches i batches) ≡ batch_at batches p
of_worker-flush k i p [] h = refl
of_worker-flush k i zero (none ∷ batches) h = of_worker-flush_later k (suc i) batches (omega arith)
of_worker-flush k i (suc p) (none ∷ batches) h = of_worker-flush k (suc i) p batches (omega arith)
of_worker-flush k i zero (some batch ∷ batches) h =
    let own : (i == k) ≡ true = ground (arith, h) in
    simp (own, of_worker-flush_later k (suc i) batches (omega arith)) (append-nil batch)
of_worker-flush k i (suc p) (some batch ∷ batches) h =
    let other : (i == k) ≡ false = ground (arith, h) in
    simp other (of_worker-flush k (suc i) p batches (omega arith))

batch_of : Option (List Entry) → List Entry
batch_of none = []
batch_of (some batch) = batch

batch_at-set_self :
    (batches : List (Option (List Entry))) (k : ℕ) (b : Option (List Entry))
    → k < length batches
    → batch_at (set batches k b) k ≡ batch_of b
unfolding batch_of
batch_at-set_self [] k b h = absurd (omega arith)
batch_at-set_self (x ∷ batches) zero none h = refl
batch_at-set_self (x ∷ batches) zero (some batch) h = refl
batch_at-set_self (none ∷ batches) (suc k) b h = batch_at-set_self batches k b (omega arith)
batch_at-set_self (some x ∷ batches) (suc k) b h = batch_at-set_self batches k b (omega arith)

batch_at-set_other :
    (batches : List (Option (List Entry))) (j k : ℕ) (b : Option (List Entry))
    → j ≢ k
    → batch_at (set batches j b) k ≡ batch_at batches k
batch_at-set_other [] j k b ne = refl
batch_at-set_other (x ∷ batches) zero zero b ne = absurd (ne refl)
batch_at-set_other (none ∷ batches) zero (suc k) none ne = refl
batch_at-set_other (none ∷ batches) zero (suc k) (some y) ne = refl
batch_at-set_other (some x ∷ batches) zero (suc k) none ne = refl
batch_at-set_other (some x ∷ batches) zero (suc k) (some y) ne = refl
batch_at-set_other (none ∷ batches) (suc j) zero b ne = refl
batch_at-set_other (some x ∷ batches) (suc j) zero b ne = refl
batch_at-set_other (none ∷ batches) (suc j) (suc k) b ne =
    batch_at-set_other batches j k b (λ e. ne (ap suc e))
batch_at-set_other (some x ∷ batches) (suc j) (suc k) b ne =
    batch_at-set_other batches j k b (λ e. ne (ap suc e))

-- What a worker has been sent and will be sent of the entries so far.
abbrev pub all_of : ℕ → Batching → List Entry
all_of k b = of_worker k b.sent ++ batch_at b.batches k

put_entry-own :
    (batch_size : ℕ) (e : Entry) (b : Batching)
    → 0 < length b.batches
    → all_of (e.key.key_b % length b.batches) (put_entry batch_size e b)
      ≡ all_of (e.key.key_b % length b.batches) b ++ e ∷ []
unfolding put_entry batch_of
put_entry-own batch_size e b some_worker =
    let k = e.key.key_b % length b.batches in
    let batch = batch_at b.batches k ++ e ∷ [] in
    let inside : k < length b.batches = mod-lt e.key.key_b some_worker in
    let own : (k == k) ≡ true = ground arith in
    elim (Bool-cases (leb batch_size (length batch))) [
      | inl full ↦
          simp
            (
              full,
              of_worker-append,
              own,
              batch_at-set_self b.batches k none inside,
              append-nil,
              append_assoc,
            )
            refl
      | inr room ↦ simp (room, batch_at-set_self b.batches k (some batch) inside, append_assoc) refl
    ]

put_entry-other :
    (batch_size : ℕ) (e : Entry) (b : Batching) (k : ℕ)
    → e.key.key_b % length b.batches ≢ k
    → all_of k (put_entry batch_size e b) ≡ all_of k b
unfolding put_entry
put_entry-other batch_size e b k ne =
    let j = e.key.key_b % length b.batches in
    let batch = batch_at b.batches j ++ e ∷ [] in
    let other : (j == k) ≡ false = ground (arith, ne) in
    elim (Bool-cases (leb batch_size (length batch))) [
      | inl full ↦
          simp (full, of_worker-append, other, batch_at-set_other b.batches j k none ne, append-nil)
            refl
      | inr room ↦ simp (room, batch_at-set_other b.batches j k (some batch) ne) refl
    ]

pub put_entry-count :
    (batch_size : ℕ) (e : Entry) (b : Batching)
    → ((put_entry batch_size e b).count ≡ b.count + 1)
      × (length (put_entry batch_size e b).batches ≡ length b.batches)
unfolding put_entry
put_entry-count batch_size e b =
    let k = e.key.key_b % length b.batches in
    let batch = batch_at b.batches k ++ e ∷ [] in
    elim (Bool-cases (leb batch_size (length batch))) [
      | inl full ↦ simp full (refl, length-set b.batches k none)
      | inr room ↦ simp room (refl, length-set b.batches k (some batch))
    ]

pub put_entry-all_of :
    (batch_size : ℕ) (e : Entry) (b : Batching) (k : ℕ)
    → 0 < length b.batches
    → all_of k (put_entry batch_size e b) ≡ all_of k b ++ entries_of (length b.batches) k (e ∷ [])
put_entry-all_of batch_size e b k some_worker =
    elim (Bool-cases (e.key.key_b % length b.batches == k)) [
      | inl own ↦
          let same : e.key.key_b % length b.batches ≡ k = ground (arith, own) in
          simp own (
            ap (λ x. all_of x (put_entry batch_size e b)) (sym same)
            ∙ put_entry-own batch_size e b some_worker
            ∙ ap (λ x. all_of x b ++ e ∷ []) same)
      | inr other ↦
          simp (other, append-nil)
            (put_entry-other batch_size e b k (λ x. ground (arith, other, x)))
    ]

pub batch_at_first : (n k : ℕ) → batch_at (replicate n none) k ≡ []
batch_at_first zero k = refl
batch_at_first (suc n) zero = refl
batch_at_first (suc n) (suc k) = batch_at_first n k

-- At the end a worker has been sent all of its entries.
pub of_worker-all_of :
    (k : ℕ) (b : Batching) → of_worker k (b.sent ++ flush_batches 0 b.batches) ≡ all_of k b
of_worker-all_of k b =
    of_worker-append k b.sent (flush_batches 0 b.batches)
    ∙ ap (λ x. of_worker k b.sent ++ x) (of_worker-flush k 0 k b.batches (omega arith))
