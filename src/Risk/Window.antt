-- ===== src/Risk/Window.antt =====
-- src/risk/risk_manager.cpp: the sliding windows of the rate limits.
use hft_framework.Common.{
  ℕ, ◌-◌, ◌*◌, ◌≤◌, ◌≡◌, refl, List, [], ◌∷◌, arith, ltb, if◌then◌else◌, All,
}

-- One minute of the steady clock.
abbrev pub minute_ns : ℕ
minute_ns = 60_000_000_000

-- `while (!w.empty() && w.front() < cutoff) w.pop_front()`
unfoldable pub drop_before : ℕ → List ℕ → List ℕ
drop_before cutoff [] = []
drop_before cutoff (t ∷ ts) =
    let rest = drop_before cutoff ts in if ltb t cutoff then rest else t ∷ ts

-- The window of the last `minutes` minutes. In the first of them after the clock's start the
-- cutoff of the source is negative, and drops nothing either.
unfoldable pub prune : ℕ → ℕ → List ℕ → List ℕ
unfolding drop_before
prune minutes now ts = drop_before (now - minutes * minute_ns) ts

-- The oldest first.
abbrev pub Ascending : List ℕ → Type 0
Ascending [] = Unit
Ascending (t ∷ ts) = All (λ u. t ≤ u) ts × Ascending ts

-- The stamps that are not before the cutoff, in any order of the list.
unfoldable pub recent : ℕ → List ℕ → List ℕ
recent cutoff [] = []
recent cutoff (t ∷ ts) = let rest = recent cutoff ts in if ltb t cutoff then rest else t ∷ rest

recent-All : (cutoff t : ℕ) (ts : List ℕ) → cutoff ≤ t → All (λ u. t ≤ u) ts → recent cutoff ts ≡ ts
unfolding recent
recent-All cutoff t [] h a = refl
recent-All cutoff t (u ∷ us) h a = ground (arith, recent-All cutoff t us h a.1)

-- In an ascending window the loop from the front finds every stamp before the cutoff.
pub drop_before-recent :
    (cutoff : ℕ) (ts : List ℕ) → Ascending ts → drop_before cutoff ts ≡ recent cutoff ts
unfolding drop_before recent
drop_before-recent cutoff [] a = refl
drop_before-recent cutoff (t ∷ ts) a =
    ground
      (arith, drop_before-recent cutoff ts a.1, λ (h : cutoff ≤ t). recent-All cutoff t ts h a.0)
