-- ===== src/Algo/Slices.antt =====
-- src/order/algo_order_manager.cpp: how many children an order has after one call, and the bounds of a slice.
use hft_framework.Common.{
  ℕ, ◌≤◌, ◌≡◌, refl, inl, inr, ℤ, pos, ◌+ℤ◌, ◌-ℤ◌, ◌≤ℤ◌, ◌<ℤ◌, leb_ℤ, false, Option, none, some,
  List, [], ◌∷◌, ◌++◌, arith, length, length-append, Bool-cases, Text,
}
use hft_framework.Types.{OrderRequest}
use hft_framework.Algo.Methods.{
  AlgoOrderType, iceberg, twap, AlgoOrder, remaining, twap_slice, send_next_twap_slice, tick_kind,
  tick_one, sent_twap, is_running, is_due,
}

-- One child at most for an iceberg order; as many as its slices for a TWAP order.
abbrev pub IsSoundAt : AlgoOrderType → List Text → ℤ → ℤ → Type 0
IsSoundAt iceberg refs sent num = length refs ≤ 1
IsSoundAt twap refs sent num = (sent ≡ pos (length refs)) × (sent ≤ℤ num)

one_more :
    (refs : List Text) (r : Text) (sent num : ℤ)
    → IsSoundAt twap refs sent num
    → leb_ℤ num sent ≡ false
    → IsSoundAt twap (refs ++ r ∷ []) (sent +ℤ pos 1) num
unfolding ◌+ℤ◌
one_more refs r sent num (e, l) room = ground (arith, length-append refs (r ∷ []))

module _ {P : Type 0} where
  -- A slice asks for at least one lot and no more than what is not filled.
  pub twap_slice_bounds :
      (o : AlgoOrder P)
      → pos 0 <ℤ remaining o
      → (pos 1 ≤ℤ twap_slice o) × (twap_slice o ≤ℤ remaining o)
  unfolding twap_slice
  twap_slice_bounds o h = ground arith

  abbrev pub IsSound : AlgoOrder P → Type 0
  IsSound o = IsSoundAt o.type o.child_order_refs o.slices_sent o.num_slices

  sent_twap-IsSound :
      (now : ℕ) (o : AlgoOrder P) (answer : Option Text)
      → o.type ≡ twap
      → leb_ℤ o.num_slices o.slices_sent ≡ false
      → IsSound o
      → IsSound (sent_twap now o answer)
  sent_twap-IsSound now o none t room h = h
  sent_twap-IsSound now o (some r) t room h =
      rw t (one_more o.child_order_refs r o.slices_sent o.num_slices (rw t at h) room)

  pub send_next_twap_slice-IsSound :
      {S : Type 0} (send_fn : OrderRequest P → S → Option Text × S) (now : ℕ) (o : AlgoOrder P)
      (s : S)
      → o.type ≡ twap
      → leb_ℤ o.num_slices o.slices_sent ≡ false
      → IsSound o
      → IsSound (send_next_twap_slice send_fn now o s).0
  unfolding send_next_twap_slice
  send_next_twap_slice-IsSound send_fn now o s t room h =
      elim (Bool-cases (leb_ℤ (remaining o) (pos 0))) [
        | inl done ↦ rw (done, send_next_twap_slice) h
        | inr more ↦ elim (Bool-cases (leb_ℤ (o.num_slices -ℤ o.slices_sent) (pos 0))) [
          | inl none_left ↦ rw (more, none_left, send_next_twap_slice) h
          | inr left ↦ rw (more, left, send_next_twap_slice) (sent_twap-IsSound now o _ t room h)
        ]
      ]

  tick_kind-IsSound :
      {S : Type 0} (send_fn : OrderRequest P → S → Option Text × S) (t : AlgoOrderType) (now : ℕ)
      (o : AlgoOrder P) (s : S)
      → o.type ≡ t
      → IsSound o
      → IsSound (tick_kind send_fn t now o s).0
  unfolding tick_kind
  tick_kind-IsSound send_fn iceberg now o s e h = h
  tick_kind-IsSound send_fn twap now o s e h =
      elim (Bool-cases (leb_ℤ o.num_slices o.slices_sent)) [
        | inl full ↦ rw (full, tick_kind) h
        | inr room ↦ elim (Bool-cases (is_due now o)) [
          | inl due ↦
              rw (room, due, tick_kind) (send_next_twap_slice-IsSound send_fn now o s e room h)
          | inr early ↦ rw (room, early, tick_kind) h
        ]
      ]

  pub tick_one-IsSound :
      {S : Type 0} (send_fn : OrderRequest P → S → Option Text × S) (now : ℕ) (o : AlgoOrder P)
      (s : S)
      → IsSound o
      → IsSound (tick_one send_fn now o s).0
  unfolding tick_one
  tick_one-IsSound send_fn now o s h = elim (Bool-cases (is_running o.status)) [
    | inl runs ↦ elim (Bool-cases (leb_ℤ o.total_volume o.filled_volume)) [
      | inl full ↦ rw (runs, full, tick_one) h
      | inr unfilled ↦
          rw (runs, unfilled, tick_one) (tick_kind-IsSound send_fn o.type now o s refl h)
    ]
    | inr rests ↦ rw (rests, tick_one) h
  ]
