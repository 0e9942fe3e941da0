-- ===== src/Queue/Fifo.antt =====
-- The queue is first in, first out, and where it stops being one.
use native.Mathlib.Nat.{add-zero}
use slotfs_eurosys.Base.{
  [], ◌∷◌, suc, true, false, none, some, inl, inr, refl, get_elem?-set_ne, ◌∙◌, get_elem?-set_self,
  get_elem?-append, length-set, length-append, ◌-◌, leb, set, List, ℕ, length, ◌+◌, ◌≡◌, arith, ◌≤◌,
  ◌⊎◌, get_elem?, ◌++◌, ◌<◌, if◌then◌else◌, ◌==◌, Bool-cases, ltb,
}
use slotfs_eurosys.Queue.{overrun, full, pushed, Queue, queue_init, queue_pop, queue_push}

-- The queue holds these elements, the first to be popped first.
pub record Represents (q : Queue) (xs : List ℕ) : Type 0 where
  pub count : q.front + length xs ≡ q.rear
  pub room : q.rear ≤ q.capacity
  pub array : length q.cells ≡ q.capacity
  pub elements :
      (i : ℕ) (x : ℕ) → get_elem? xs i ≡ some x → get_elem? q.cells (q.front + i) ≡ some x

-- With an array of `size` elements from `malloc`, a new queue is empty.
pub queue_init-Represents :
    (cells : List ℕ) (size : ℕ)
    → length cells ≡ size
    → (q : Queue) × (queue_init (some cells) size ≡ some q) × Represents q []
unfolding queue_init
queue_init-Represents cells size h = (
  _,
  refl,
  record { count = omega arith; room = omega arith; array = h; elements = λ i x e. absurd (cc) },
)

-- `queue_push` puts an element last, as long as fewer than `capacity` were ever pushed; after that it
-- writes behind the array although elements have been popped, unless the queue is full.
pub queue_push-Represents :
    (q : Queue) (xs : List ℕ) (val : ℕ)
    → Represents q xs
    → ((q' : Queue) × (queue_push q val ≡ pushed q')
        × Represents q' (xs ++ (val ∷ []))
        × (q.rear < q.capacity))
      ⊎ ((q.rear ≡ q.capacity) × (queue_push q val ≡ (if q.front == 0 then full else overrun)))
unfolding queue_push
queue_push-Represents q xs val r = elim (Bool-cases (ltb q.rear q.capacity)) [
  | inl room ↦
      let cells = set q.cells q.rear val in
      let inside : q.rear < length q.cells = ground (arith, r.array) in
      let test : leb q.capacity (q.rear - q.front) ≡ false = ground arith in
      let test' : ltb q.rear (length q.cells) ≡ true = ground arith in
      inl (
        record q { cells = cells; rear = q.rear + 1 },
        rw (test, test', queue_push) refl,
        record {
          count = omega (arith, length-append xs (val ∷ []), r.count);
          room = ground arith;
          array = omega (arith, length-set q.cells q.rear val, r.array);
          elements = λ i x e. elim (Bool-cases (i == length xs)) [
            | inl last ↦
                let at_rear : q.front + i ≡ q.rear = ground (arith, r.count) in
                let new : some val ≡ some x = rw (get_elem?-append xs val i, last) at e in
                rw at_rear (get_elem?-set_self q.cells q.rear val inside ∙ new)
            | inr before ↦
                let old : get_elem? xs i ≡ some x = rw (get_elem?-append xs val i, before) at e in
                get_elem?-set_ne q.cells val (ground (arith, r.count)) ∙ r.elements i x old
          ];
        },
        ground arith,
      )
  | inr none_left ↦ inr (ground (arith, r.room), ground (arith, r.room, r.count, r.array))
]

-- `queue_pop` returns the first element, or -1 if there is none.
pub queue_pop-Represents :
    (q : Queue) (xs : List ℕ)
    → Represents q xs
    → ((x : ℕ) × (rest : List ℕ) × (q' : Queue) × (xs ≡ x ∷ rest)
        × (queue_pop q ≡ some (x, q'))
        × Represents q' rest)
      ⊎ ((xs ≡ []) × (queue_pop q ≡ none))
unfolding queue_pop
queue_pop-Represents q [] r = inr (refl, ground (arith, r.count))
queue_pop-Represents q (x ∷ xs) r =
    let here : get_elem? q.cells q.front ≡ some x = rw add-zero at (r.elements 0 x refl) in
    let test : leb q.rear q.front ≡ false = ground (arith, r.count) in
    inl (
      x,
      xs,
      record q { front = q.front + 1 },
      refl,
      rw (test, here, queue_pop) refl,
      record {
        count = omega (arith, r.count);
        room = r.room;
        array = r.array;
        elements = λ i y e.
            let s : q.front + suc i ≡ q.front + 1 + i = omega arith in
            rw (← s) (r.elements (suc i) y e);
      },
    )
