-- ===== src/Common/Maps.antt =====
-- The `std::unordered_map` of the source as an association list. Nothing in the development
-- depends on the order of its entries but through a fold that the source makes in that order.
use Prim.Native.Nat.{ℕ, ◌+◌, ◌≤◌}
use mathlib.Core.Path.{◌≡◌, refl, subst}
use mathlib.Core.Logic.{inl, inr}
use mathlib.Core.Bool.{Bool}
use mathlib.Core.Option.{Option, none, some}
use mathlib.Core.List.{List, [], ◌∷◌}
use native.Mathlib.Omega.{arith}
use hft_framework.Common.Tests.{Eq, if◌then◌else◌, both_branches, Bool-cases}

abbrev pub Dict {ℓ κ} : Type ℓ → Type κ → Type (ℓ ⊔ κ)
Dict K V = List (K × V)

-- `none` stands for a missing key.
abbrev pub weight_of {κ} : {V : Type κ} → (V → ℕ) → Option V → ℕ
weight_of f none = 0
weight_of f (some v) = f v

-- The value, if it passes the test.
abbrev pub only {κ} : {V : Type κ} → (V → Bool) → Option V → Option V
only p none = none
only p (some v) = if p v then some v else none

module _ {ℓ κ} {K : Type ℓ} {V : Type κ} where
  -- The entries that satisfy a test.
  unfoldable pub keep : (V → Bool) → Dict K V → Dict K V
  keep p [] = []
  keep p ((j, v) ∷ m) = let rest = keep p m in if p v then (j, v) ∷ rest else rest

  -- The sum of `f` over the entries.
  unfoldable pub weigh : (V → ℕ) → Dict K V → ℕ
  weigh f [] = 0
  weigh f ((j, v) ∷ m) = f v + weigh f m

module _ {ℓ κ} {K : Type ℓ} {V : Type κ} ⦃e : Eq K⦄ where
  unfoldable pub find : K → Dict K V → Option V
  find k [] = none
  find k ((j, v) ∷ m) = if e.beq j k then some v else find k m

  unfoldable pub put : K → V → Dict K V → Dict K V
  put k v [] = (k, v) ∷ []
  put k v ((j, w) ∷ m) = if e.beq j k then (k, v) ∷ m else (j, w) ∷ put k v m

  unfoldable pub erase : K → Dict K V → Dict K V
  erase k [] = []
  erase k ((j, v) ∷ m) = let rest = erase k m in if e.beq j k then rest else (j, v) ∷ rest

  -- Each key stands once.
  abbrev pub Unique : Dict K V → Type κ
  Unique [] = Unit
  Unique ((j, v) ∷ m) = (find j m ≡ none) × Unique m

  pub find-put :
      (k j : K) (v : V) (m : Dict K V)
      → find j (put k v m) ≡ (if e.beq k j then some v else find j m)
  unfolding find put
  find-put k j v [] = refl
  find-put k j v ((i, w) ∷ m) =
      ground (arith, e.beq_iff k j, e.beq_iff i k, e.beq_iff i j, find-put k j v m)

  pub find-put_self : (k : K) (v : V) (m : Dict K V) → find k (put k v m) ≡ some v
  find-put_self k v m = ground (arith, find-put k k v m, e.beq_iff k k)

  pub find-erase :
      (k j : K) (m : Dict K V) → find j (erase k m) ≡ (if e.beq k j then none else find j m)
  unfolding find erase
  find-erase k j [] = ground arith
  find-erase k j ((i, w) ∷ m) =
      ground (arith, e.beq_iff k j, e.beq_iff i k, e.beq_iff i j, find-erase k j m)

  pub find-keep-none :
      (p : V → Bool) (j : K) (m : Dict K V) → find j m ≡ none → find j (keep p m) ≡ none
  unfolding find keep
  find-keep-none p j [] h = refl
  find-keep-none p j ((i, w) ∷ m) h = ground (arith, find-keep-none p j m)

  pub find-keep :
      (p : V → Bool) (j : K) (m : Dict K V) → Unique m → find j (keep p m) ≡ only p (find j m)
  unfolding find keep
  find-keep p j [] u = refl
  find-keep p j ((i, w) ∷ m) u =
      ground (arith, find-keep p j m u.1, find-keep-none p j m, e.beq_iff i j)

  pub Unique-put : (k : K) (v : V) (m : Dict K V) → Unique m → Unique (put k v m)
  unfolding find put
  Unique-put k v [] u = (refl, tt)
  Unique-put k v ((j, w) ∷ m) u =
      ground (arith, Unique-put k v m u.1, find-put k j v m, e.beq_iff j k, e.beq_iff k j)

  pub Unique-erase : (k : K) (m : Dict K V) → Unique m → Unique (erase k m)
  unfolding erase
  Unique-erase k [] u = tt
  Unique-erase k ((j, w) ∷ m) u = ground (arith, Unique-erase k m u.1, find-erase k j m)

  pub Unique-keep : (p : V → Bool) (m : Dict K V) → Unique m → Unique (keep p m)
  unfolding keep
  Unique-keep p [] u = tt
  Unique-keep p ((j, w) ∷ m) u = ground (arith, Unique-keep p m u.1, find-keep-none p j m u.0)

  erase_absent : (k : K) (m : Dict K V) → find k m ≡ none → erase k m ≡ m
  unfolding find erase
  erase_absent k [] h = refl
  erase_absent k ((j, w) ∷ m) h = ground (arith, erase_absent k m)

  pub weigh-put :
      (f : V → ℕ) (k : K) (v : V) (m : Dict K V)
      → weigh f (put k v m) + weight_of f (find k m) ≡ weigh f m + f v
  unfolding weigh find put
  weigh-put f k v [] = omega arith
  weigh-put f k v ((j, w) ∷ m) = ground (arith, weigh-put f k v m)

  pub weigh-erase :
      (f : V → ℕ) (k : K) (m : Dict K V)
      → Unique m
      → weigh f (erase k m) + weight_of f (find k m) ≡ weigh f m
  unfolding weigh find erase
  weigh-erase f k [] u = omega arith
  weigh-erase f k ((j, w) ∷ m) u =
      ground (arith, weigh-erase f k m u.1, erase_absent k m, e.beq_iff j k)

  -- What a found entry weighs is part of the sum.
  pub weight_of-le-weigh : (f : V → ℕ) (k : K) (m : Dict K V) → weight_of f (find k m) ≤ weigh f m
  unfolding weigh find
  weight_of-le-weigh f k [] = omega arith
  weight_of-le-weigh f k ((j, w) ∷ m) = ground (arith, weight_of-le-weigh f k m)

  -- A predicate at every stored value.
  abbrev pub AllValues {μ} : (V → Type μ) → Dict K V → Type μ
  AllValues P [] = Unit
  AllValues P ((j, v) ∷ m) = P v × AllValues P m

  pub AllValues-put {μ} :
      (P : V → Type μ) (k : K) (v : V) (m : Dict K V)
      → P v
      → AllValues P m
      → AllValues P (put k v m)
  unfolding put
  AllValues-put P k v [] h a = (h, tt)
  AllValues-put P k v ((j, w) ∷ m) h a =
      both_branches (e.beq j k) (AllValues P) (h, a.1) (a.0, AllValues-put P k v m h a.1)

  pub AllValues-find {μ} :
      (P : V → Type μ) (k : K) (m : Dict K V) {v : V} → AllValues P m → find k m ≡ some v → P v
  unfolding find
  AllValues-find P k [] a h = absurd (cc)
  AllValues-find P k ((j, w) ∷ m) {v} a h = elim (Bool-cases (e.beq j k)) [
    | inl b ↦ let same : w ≡ v = ground arith in subst P same a.0
    | inr b ↦ AllValues-find P k m a.1 (rw (b, find) at h)
  ]
