-- ===== src/Queue/Tests.antt =====
-- A ring of src/common/spsc_queue.h with four slots, from empty.
use hft_framework.Common.{ℕ, ◌≡◌, refl, true, false, some, List, [], ◌∷◌, arith}
use hft_framework.Queue.{
  Ring, push, pop, Op, pushes, pops, pushed, popped, list_run, ring_run, ring_run_refines,
}

abbrev vacant : Ring ℕ 4
vacant = record { head = 3; tail = 3; buf = λ i. 0; drop_count = 0 }

-- Three fit, around the end of the buffer; the fourth is dropped.
abbrev ops : List (Op ℕ 4)
ops = pushes 10 ∷ pushes 11 ∷ pushes 12 ∷ pushes 13 ∷ pops ∷ []

drops_the_fourth :
    ring_run ℕ 4 ops vacant
    ≡ pushed true ∷ pushed true ∷ pushed true ∷ pushed false ∷ popped (some 10) ∷ []
unfolding push pop
drops_the_fourth = refl

ring_run_refines_example : ring_run ℕ 4 ops vacant ≡ list_run ℕ 4 ops []
ring_run_refines_example = ring_run_refines ℕ 4 ops vacant [] (omega arith, omega arith, refl)
