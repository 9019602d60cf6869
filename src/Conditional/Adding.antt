-- ===== src/Conditional/Adding.antt =====
-- src/order/conditional_order_manager.cpp: adding an order again under its idempotency key.
use hft_framework.Common.{
  ℕ, ◌≡◌, refl, inl, inr, ℤ, true, false, some, [], ◌∷◌, arith, Text, Text-Eq, Nat-Eq, text_eq_iff,
  is_empty, Dict, find, put, find-put_self, Bool-cases,
}
use hft_framework.Double.{Double}
use hft_framework.Conditional.State.{ConditionalOrder, CondOrders}
use hft_framework.Conditional.Bounds.{update_bounds_on_insert}
use hft_framework.Conditional.Methods.{insert, has_key, accepted, add, next_u32}

module _ (d : Double) where
  has_key-put :
      (key : Text) (id : ℕ) (o : ConditionalOrder d) (os : Dict ℕ (ConditionalOrder d))
      → o.idempotency_key ≡ key
      → has_key d key (put id o os) ≡ true
  unfolding has_key put
  has_key-put key id o [] e = ground (arith, text_eq_iff o.idempotency_key key)
  has_key-put key id o ((j, w) ∷ os) e =
      ground (arith, text_eq_iff o.idempotency_key key, has_key-put key id o os e)

  insert-orders :
      (o : ConditionalOrder d) (m : CondOrders d) → (insert d o m).orders ≡ put o.id o m.orders
  unfolding insert update_bounds_on_insert
  insert-orders o m = refl

  accepted-key :
      (t : ℤ) (o : ConditionalOrder d) (m : CondOrders d)
      → ((accepted d t o m).idempotency_key ≡ o.idempotency_key)
        × ((accepted d t o m).id ≡ m.next_id)
  unfolding accepted
  accepted-key t o m = (refl, refl)

  add_known :
      (t : ℤ) (o : ConditionalOrder d) (m : CondOrders d)
      → is_empty o.idempotency_key ≡ false
      → has_key d o.idempotency_key m.orders ≡ true
      → add d t o m ≡ (0, m)
  unfolding add
  add_known t o m named known = rw (named, known) refl

  add_new :
      (t : ℤ) (o : ConditionalOrder d) (m : CondOrders d)
      → has_key d o.idempotency_key m.orders ≡ false
      → add d t o m
        ≡ (m.next_id, insert d (accepted d t o m) (record m { next_id = next_u32 m.next_id }))
  unfolding add
  add_new t o m new = ground arith

  has_key-add :
      (t : ℤ) (o : ConditionalOrder d) (m : CondOrders d)
      → is_empty o.idempotency_key ≡ false
      → has_key d o.idempotency_key (add d t o m).1.orders ≡ true
  has_key-add t o m named = elim (Bool-cases (has_key d o.idempotency_key m.orders)) [
    | inl known ↦ rw (add_known t o m named known) known
    | inr new ↦
        let m' = record m { next_id = next_u32 m.next_id } in
        rw (add_new t o m new, insert-orders (accepted d t o m) m')
          (has_key-put o.idempotency_key _ (accepted d t o m) m.orders (accepted-key t o m).0)
  ]

  -- An order with an idempotency key that is added again, at any later time, gets the identifier 0
  -- and changes nothing.
  pub add_twice :
      (t t' : ℤ) (o : ConditionalOrder d) (m : CondOrders d)
      → is_empty o.idempotency_key ≡ false
      → add d t' o (add d t o m).1 ≡ (0, (add d t o m).1)
  add_twice t t' o m named = add_known t' o (add d t o m).1 named (has_key-add t o m named)

  -- An order whose key is not stored gets the next identifier, under which its accepted copy is
  -- found afterwards.
  pub find-add :
      (t : ℤ) (o : ConditionalOrder d) (m : CondOrders d)
      → has_key d o.idempotency_key m.orders ≡ false
      → find (add d t o m).0 (add d t o m).1.orders ≡ some (accepted d t o m)
  unfolding accepted
  find-add t o m new =
      let m' = record m { next_id = next_u32 m.next_id } in
      rw (add_new t o m new, insert-orders (accepted d t o m) m')
        (find-put_self m.next_id (accepted d t o m) m.orders)
