-- ===== src/Queue.antt =====
-- src/common/spsc_queue.h: the ring between the gateway threads and the consumer thread, with one
-- producer and one consumer. An operation is one step here.
mod Tests
use hft_framework.Common.{
  ℕ, suc, ◌+◌, ◌-◌, ◌%◌, ◌<◌, ◌≡◌, refl, ap, ◌==◌, ==_iff, Bool, true, false, Option, none, some,
  List, [], ◌∷◌, ◌++◌, arith, if◌then◌else◌, inl, inr, sym, ◌∙◌, ◌⊎◌, length, Bool-cases,
}

-- The buffer holds what the last store at an index left; `n` is a power of two, and `i & (n - 1)`
-- is the remainder by it.
module _ (A : Type 0) (n : ℕ) where
  pub record Ring : Type 0 where
    pub head : ℕ
    pub tail : ℕ
    pub buf : ℕ → A
    pub drop_count : ℕ

  abbrev pub next : ℕ → ℕ
  next i = (i + 1) % n

  abbrev pub store : ℕ → A → (ℕ → A) → ℕ → A
  store i x b j = if j == i then x else b j

  unfoldable pub push : A → Ring → Bool × Ring
  push x q =
      if next q.head == q.tail
      then (false, record q { drop_count = q.drop_count + 1 })
      else (true, record q { buf = store q.head x q.buf; head = next q.head })

  unfoldable pub pop : Ring → Option A × Ring
  pop q =
      if q.tail == q.head then (none, q) else (some (q.buf q.tail), record q { tail = next q.tail })

  -- `(h - t) & (n - 1)`: the difference of the source wraps around at a multiple of `n`.
  unfoldable pub size : Ring → ℕ
  size q = (q.head + n - q.tail) % n

  -- The ring holds a list: from the tail to the head, the oldest first.
  abbrev pub Spans : (ℕ → A) → ℕ → List A → ℕ → Type 0
  Spans b t [] h = t ≡ h
  Spans b t (x ∷ xs) h = (b t ≡ x) × ((t == h) ≡ false) × Spans b (next t) xs h

  abbrev pub Holds : Ring → List A → Type 0
  Holds q xs = (q.head < n) × (q.tail < n) × Spans q.buf q.tail xs q.head

  next_lt : (i : ℕ) → i < n → next i < n
  next_lt i h = grind arith

  next_injective : (i j : ℕ) → i < n → j < n → next i ≡ next j → i ≡ j
  next_injective i j h k e = grind arith

  next_step : (i : ℕ) → i < n → (next i ≡ i + 1) ⊎ ((i + 1 ≡ n) × (next i ≡ 0))
  next_step i h = grind arith

  Spans-length :
      (b : ℕ → A) (t h : ℕ) (xs : List A)
      → t < n
      → h < n
      → Spans b t xs h
      → (t + length xs ≡ h) ⊎ ((h < t) × (t + length xs ≡ h + n))
  Spans-length b t h [] k l s = ground arith
  Spans-length b t h (x ∷ xs) k l s =
      let rest = Spans-length b (next t) h xs (next_lt t k) l s.2 in ground (arith, next_step t k)

  Spans-append :
      (b : ℕ → A) (t h : ℕ) (x : A) (xs : List A)
      → t < n
      → h < n
      → (next h == t) ≡ false
      → Spans b t xs h
      → Spans (store h x b) t (xs ++ x ∷ []) (next h)
  Spans-append b t h x [] k l room s = (ground arith, ground arith, ap next s)
  Spans-append b t h x (y ∷ ys) k l room s =
      let apart : (next h == next t) ≡ false =
        ground (arith, next_injective h t l k, ==_iff h t, ==_iff (next h) (next t)) in
      (
        ground (arith, s.0),
        ground (arith, room),
        Spans-append b (next t) h x ys (next_lt t k) l apart s.2,
      )

  -- A queue of at most `n - 1` elements, as a list.
  pub data Op : Type 0 where
    pushes : A → Op
    pops : Op

  pub data Answer : Type 0 where
    pushed : Bool → Answer
    popped : Option A → Answer

  abbrev pub on_list : Op → List A → Answer × List A
  on_list (pushes x) xs =
      if length xs == n - 1 then (pushed false, xs) else (pushed true, xs ++ x ∷ [])
  on_list pops [] = (popped none, [])
  on_list pops (x ∷ xs) = (popped (some x), xs)

  abbrev pub on_ring : Op → Ring → Answer × Ring
  on_ring (pushes x) q = (pushed (push x q).0, (push x q).1)
  on_ring pops q = (popped (pop q).0, (pop q).1)

  abbrev pub list_run : List Op → List A → List Answer
  list_run [] xs = []
  list_run (op ∷ ops) xs = (on_list op xs).0 ∷ list_run ops (on_list op xs).1

  abbrev pub ring_run : List Op → Ring → List Answer
  ring_run [] q = []
  ring_run (op ∷ ops) q = (on_ring op q).0 ∷ ring_run ops (on_ring op q).1

  full_iff : (q : Ring) (xs : List A) → Holds q xs → (next q.head == q.tail) ≡ (length xs == n - 1)
  full_iff q xs h =
      let len = Spans-length q.buf q.tail q.head xs h.1 h.0 h.2 in
      ground (arith, next_step q.head h.0, len)

  step_refines :
      (op : Op) (q : Ring) (xs : List A)
      → Holds q xs
      → ((on_ring op q).0 ≡ (on_list op xs).0) × Holds (on_ring op q).1 (on_list op xs).1
  unfolding push pop
  step_refines (pushes x) q xs h = elim (Bool-cases (next q.head == q.tail)) [
    | inl full ↦
        let same : (length xs == n - 1) ≡ true = sym (full_iff q xs h) ∙ full in
        rw (full, same, push) (refl, h)
    | inr room ↦
        let same : (length xs == n - 1) ≡ false = sym (full_iff q xs h) ∙ room in
        rw (room, same, push)
          (refl, (next_lt q.head h.0, h.1, Spans-append q.buf q.tail q.head x xs h.1 h.0 room h.2))
  ]
  step_refines pops q [] h =
      let empty : (q.tail == q.head) ≡ true = ground (arith, h.2, ==_iff q.tail q.head) in
      rw (empty, pop) (refl, h)
  step_refines pops q (x ∷ xs) h =
      rw (h.2.1, pop) (ap (λ y. popped (some y)) h.2.0, (h.0, next_lt q.tail h.1, h.2.2))

  -- A ring that holds a list answers any sequence of pushes and pops as the list does that takes
  -- elements at its end while it has fewer than `n - 1`, and gives them up at its front.
  pub ring_run_refines :
      (ops : List Op) (q : Ring) (xs : List A) → Holds q xs → ring_run ops q ≡ list_run ops xs
  ring_run_refines [] q xs h = refl
  ring_run_refines (op ∷ ops) q xs h =
      let step = step_refines op q xs h in
      rw step.0 (ap (λ r. (on_list op xs).0 ∷ r) (ring_run_refines ops _ _ step.1))

  -- A ring that holds a list says how long the list is.
  pub size_lem : (q : Ring) (xs : List A) → Holds q xs → size q ≡ length xs
  unfolding size
  size_lem q xs h = let len = Spans-length q.buf q.tail q.head xs h.1 h.0 h.2 in grind arith
