-- ===== src/Common/Permuted.antt =====
-- A `std::map` that is filled from its own entries in another order.
use mathlib.Core.Path.{◌≡◌, refl, ap, ◌∙◌}
use mathlib.Core.Logic.{◌⊎◌, inl, inr}
use mathlib.Core.Bool.{Bool, true, false, ◌||◌}
use mathlib.Core.Option.{Option, none, some}
use mathlib.Core.List.{List, [], ◌∷◌}
use native.Mathlib.Omega.{arith}
use hft_framework.Common.Tests.{if◌then◌else◌, Bool-cases}
use hft_framework.Common.Sorted.{
  Less, find, put, find-put, put-IsSorted, Above, IsSorted, Above-trans,
}

abbrev either {κ} : {V : Type κ} → Option V → Option V → Option V
either none b = b
either (some a) b = some a

module _ {ℓ κ} {K : Type ℓ} {V : Type κ} ⦃o : Less K⦄ where
  -- `std::sort` of entries whose keys differ.
  unfoldable pub insert_by : (K → K → Bool) → K × V → List (K × V) → List (K × V)
  insert_by before (k, v) [] = (k, v) ∷ []
  insert_by before (k, v) ((j, w) ∷ es) =
      let later = (j, w) ∷ insert_by before (k, v) es in
      if before j k then later else (k, v) ∷ (j, w) ∷ es

  unfoldable pub sort_by : (K → K → Bool) → List (K × V) → List (K × V)
  unfolding insert_by
  sort_by before [] = []
  sort_by before (e ∷ es) = insert_by before e (sort_by before es)

  unfoldable pub put_each : List (K × V) → List (K × V) → List (K × V)
  unfolding put
  put_each [] m = m
  put_each ((k, v) ∷ es) m = put_each es (put k v m)

  abbrev pub Distinct : List (K × V) → Type κ
  Distinct [] = Unit
  Distinct ((k, v) ∷ es) = (find k es ≡ none) × Distinct es

  abbrev pub Each : (K → V → Type 0) → List (K × V) → Type 0
  Each P [] = Unit
  Each P ((k, v) ∷ es) = P k v × Each P es

  insert_by-Each :
      (P : K → V → Type 0) (before : K → K → Bool) (k : K) (v : V) (es : List (K × V))
      → P k v
      → Each P es
      → Each P (insert_by before (k, v) es)
  unfolding insert_by
  insert_by-Each P before k v [] p e = (p, tt)
  insert_by-Each P before k v ((j, w) ∷ es) p e = elim (Bool-cases (before j k)) [
    | inl front ↦ rw (front, insert_by) (e.0, insert_by-Each P before k v es p e.1)
    | inr back ↦ rw (back, insert_by) (p, e)
  ]

  pub sort_by-Each :
      (P : K → V → Type 0) (before : K → K → Bool) (es : List (K × V))
      → Each P es
      → Each P (sort_by before es)
  unfolding sort_by
  sort_by-Each P before [] e = tt
  sort_by-Each P before ((k, v) ∷ es) e =
      insert_by-Each P before k v (sort_by before es) e.0 (sort_by-Each P before es e.1)

  pub put-put : (k : K) (v w : V) (m : List (K × V)) → put k w (put k v m) ≡ put k w m
  unfolding put
  put-put k v w [] = rw (o.lt_irrefl k) refl
  put-put k v w ((j, u) ∷ m) = ground (arith, put-put k v w m, o.lt_irrefl k)

  find-insert_by :
      (before : K → K → Bool) (j k : K) (v : V) (es : List (K × V))
      → find k es ≡ none
      → find j (insert_by before (k, v) es) ≡ (if o.lt j k || o.lt k j then find j es else some v)
  unfolding find insert_by
  find-insert_by before j k v [] h = refl
  find-insert_by before j k v ((i, w) ∷ es) h = elim (Bool-cases (before i k)) [
    | inl front ↦
        rw (front, insert_by)
          (behind (find-insert_by before j k v es rest_absent) (Bool-cases (o.lt j i || o.lt i j)))
    | inr back ↦ rw (back, insert_by) refl
  ]
    where
      other : o.lt k i || o.lt i k ≡ true
      other = ground arith

      rest_absent : find k es ≡ none
      rest_absent = ground arith

      behind :
          find j (insert_by before (k, v) es) ≡ (if o.lt j k || o.lt k j then find j es else some v)
          → (o.lt j i || o.lt i j ≡ true) ⊎ (o.lt j i || o.lt i j ≡ false)
          → (if o.lt j i || o.lt i j then find j (insert_by before (k, v) es) else some w) ≡ (
              if o.lt j k || o.lt k j
              then if o.lt j i || o.lt i j then find j es else some w
              else some v)
      behind ih (inl apart) = rw apart ih
      behind ih (inr same) =
          let e : j ≡ i = ground (arith, o.lt_connected j i) in
          let far : o.lt j k || o.lt k j ≡ true = ground (arith, o.lt_irrefl k) in
          rw (same, far) refl

  insert_by-Distinct :
      (before : K → K → Bool) (k : K) (v : V) (es : List (K × V))
      → find k es ≡ none
      → Distinct es
      → Distinct (insert_by before (k, v) es)
  unfolding find insert_by
  insert_by-Distinct before k v [] h d = (refl, tt)
  insert_by-Distinct before k v ((i, w) ∷ es) h d = ground (
    arith,
    insert_by-Distinct before k v es,
    find-insert_by before i k v es,
    o.lt_connected i k,
    o.lt_irrefl k,
  )

  pub find-sort_by :
      (before : K → K → Bool) (j : K) (es : List (K × V))
      → Distinct es
      → find j (sort_by before es) ≡ find j es
  unfolding find sort_by
  find-sort_by before j [] d = refl
  find-sort_by before j ((k, v) ∷ es) d =
      find-insert_by before j k v (sort_by before es) (find-sort_by before k es d.1 ∙ d.0)
      ∙ ap (λ r. if o.lt j k || o.lt k j then r else some v) (find-sort_by before j es d.1)

  pub sort_by-Distinct :
      (before : K → K → Bool) (es : List (K × V)) → Distinct es → Distinct (sort_by before es)
  unfolding sort_by
  sort_by-Distinct before [] d = tt
  sort_by-Distinct before ((k, v) ∷ es) d =
      insert_by-Distinct before k v (sort_by before es) (find-sort_by before k es d.1 ∙ d.0)
        (sort_by-Distinct before es d.1)

  find-put_each :
      (j : K) (es m : List (K × V))
      → Distinct es
      → find j (put_each es m) ≡ either (find j es) (find j m)
  unfolding put_each find
  find-put_each j [] m d = refl
  find-put_each j ((k, v) ∷ es) m d =
      find-put_each j es (put k v m) d.1 ∙ ground (arith, find-put k j v m, o.lt_connected j k)

  put_each-IsSorted : (es m : List (K × V)) → IsSorted m → IsSorted (put_each es m)
  unfolding put_each
  put_each-IsSorted [] m s = s
  put_each-IsSorted ((k, v) ∷ es) m s = put_each-IsSorted es (put k v m) (put-IsSorted k v m s)

  pub find_below : (k : K) (m : List (K × V)) → Above k m → find k m ≡ none
  unfolding find
  find_below k [] a = refl
  find_below k ((j, v) ∷ m) a = rw a.0 (find_below k m a.1)

  pub IsSorted-Distinct : (m : List (K × V)) → IsSorted m → Distinct m
  IsSorted-Distinct [] s = tt
  IsSorted-Distinct ((k, v) ∷ m) s = (find_below k m s.0, IsSorted-Distinct m s.1)

  -- Ordered tables with the same entries are equal.
  same_table :
      (a b : List (K × V)) → IsSorted a → IsSorted b → ((j : K) → find j a ≡ find j b) → a ≡ b
  unfolding find
  same_table [] [] sa sb h = refl
  same_table [] ((l, w) ∷ b) sa sb h = absurd (ground (arith, h l, o.lt_irrefl l))
  same_table ((k, v) ∷ a) [] sa sb h = absurd (ground (arith, h k, o.lt_irrefl k))
  same_table ((k, v) ∷ a) ((l, w) ∷ b) sa sb h = elim (Bool-cases (o.lt k l)) [
    | inl less ↦
        let gone = find_below k b (Above-trans k l b less sb.0) in
        absurd (ground (arith, h k, o.lt_irrefl k, gone))
    | inr not_less ↦ elim (Bool-cases (o.lt l k)) [
      | inl more ↦
          let gone = find_below l a (Above-trans l k a more sa.0) in
          absurd (ground (arith, h l, o.lt_irrefl l, gone))
      | inr not_more ↦
          let e : k ≡ l = o.lt_connected k l not_less not_more in
          let same : v ≡ w = ground (arith, h k, o.lt_irrefl k) in
          let tails =
            same_table a b sa.1 sb.1
              (λ j. tail_find j (h j) (find_below k a sa.0) (find_below l b sb.0) e) in
          ground (arith, tails)
    ]
  ]
    where
      tail_find :
          (j : K)
          → find j ((k, v) ∷ a) ≡ find j ((l, w) ∷ b)
          → find k a ≡ none
          → find l b ≡ none
          → k ≡ l
          → find j a ≡ find j b
      tail_find j hj ka lb e =
          ground (arith, o.lt_connected j k, o.lt_connected j l, o.lt_irrefl k, o.lt_irrefl l)

  -- A table is what its own entries, each once and in any order, make of an empty one.
  pub put_each_same :
      (es m : List (K × V))
      → Distinct es
      → IsSorted m
      → ((j : K) → find j es ≡ find j m)
      → put_each es [] ≡ m
  unfolding find
  put_each_same es m d s h =
      same_table (put_each es []) m (put_each-IsSorted es [] tt) s
        (λ j. find-put_each j es [] d ∙ nothing_else (find j es) ∙ h j)
    where
      nothing_else : (a : Option V) → either a none ≡ a
      nothing_else none = refl
      nothing_else (some a) = refl
