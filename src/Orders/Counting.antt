-- ===== src/Orders/Counting.antt =====
-- What the counter of `src/order/order_manager.cpp` holds after a change, and the sum that it stands for.
use hft_framework.Common.{
  ℕ, ◌+◌, ◌-◌, ap, inl, inr, Option-cases, ◌≡◌, none, some, [], ◌∷◌, arith, if◌then◌else◌, Text,
  Text-Eq, Dict, find, put, erase, Unique, find-put, find-erase, weigh, weigh-put, weigh-erase,
  weight_of, weight_of-le-weigh,
}
use hft_framework.Types.{OrderInfo}
use hft_framework.Orders.Book.{
  Counter, PendingKey, PendingKey-Eq, key_eq, key_eq_iff, open_remaining_of, key_of, counted,
  uncount, count_in, apply_pending_open_delta, rebuild_from, rebuild_pending_open,
}

module _ {P : Type 0} where
  -- What an order adds to the count of a key.
  abbrev pub contribution : PendingKey → OrderInfo P → ℕ
  contribution k o = if key_eq (key_of o) k then open_remaining_of o else 0

  -- The volume still to be opened under a key, by the orders themselves.
  unfoldable pub open_volume : PendingKey → Dict Text (OrderInfo P) → ℕ
  open_volume k m = weigh (contribution k) m

  -- The counter agrees with the orders.
  abbrev pub IsExact : Counter → Dict Text (OrderInfo P) → Type 0
  IsExact t m = (k : PendingKey) → counted k t ≡ open_volume k m

  counted-uncount :
      (k : PendingKey) (o : OrderInfo P) (t : Counter)
      → counted k (uncount o t) ≡ counted k t - contribution k o
  unfolding counted uncount
  counted-uncount k o t = ground (
    arith,
    find-put (key_of o) k (counted (key_of o) t - open_remaining_of o) t,
    find-erase (key_of o) k t,
    key_eq_iff (key_of o) k,
  )

  pub counted-count_in :
      (k : PendingKey) (o : OrderInfo P) (t : Counter)
      → counted k (count_in o t) ≡ counted k t + contribution k o
  unfolding counted count_in
  counted-count_in k o t = ground (
    arith,
    find-put (key_of o) k (counted (key_of o) t + open_remaining_of o) t,
    key_eq_iff (key_of o) k,
  )

  -- Storing an order and accounting for it keeps the counter exact, whatever stood there before.
  pub put-IsExact :
      (r : Text) (a : OrderInfo P) (t : Counter) (m : Dict Text (OrderInfo P))
      → IsExact t m
      → IsExact (apply_pending_open_delta (find r m) (some a) t) (put r a m)
  unfolding open_volume apply_pending_open_delta
  put-IsExact r a t m exact k = elim (Option-cases (find r m)) [
    | inl e ↦ rw e (
        omega (
          arith,
          counted-count_in k a t,
          weigh-put (contribution k) r a m,
          exact k,
          ap (weight_of (contribution k)) e,
        ))
    | inr (b, e) ↦ rw e (
        omega (
          arith,
          counted-count_in k a (uncount b t),
          counted-uncount k b t,
          weigh-put (contribution k) r a m,
          weight_of-le-weigh (contribution k) r m,
          exact k,
          ap (weight_of (contribution k)) e,
        ))
  ]

  -- Storing an order where none stood, or one with nothing left to open, without looking at it.
  pub put_fresh-IsExact :
      (r : Text) (a : OrderInfo P) (t : Counter) (m : Dict Text (OrderInfo P))
      → weight_of open_remaining_of (find r m) ≡ 0
      → IsExact t m
      → IsExact (apply_pending_open_delta none (some a) t) (put r a m)
  unfolding open_volume apply_pending_open_delta
  put_fresh-IsExact r a t m idle exact k =
      ground (arith, counted-count_in k a t, weigh-put (contribution k) r a m, exact k)

  pub erase-IsExact :
      (r : Text) (b : OrderInfo P) (t : Counter) (m : Dict Text (OrderInfo P))
      → Unique m
      → find r m ≡ some b
      → IsExact t m
      → IsExact (apply_pending_open_delta (some b) none t) (erase r m)
  unfolding open_volume apply_pending_open_delta
  erase-IsExact r b t m unique e exact k = omega (
    arith,
    counted-uncount k b t,
    weigh-erase (contribution k) r m unique,
    exact k,
    ap (weight_of (contribution k)) e,
  )

  counted-rebuild_from :
      (k : PendingKey) (t : Counter) (m : Dict Text (OrderInfo P))
      → counted k (rebuild_from t m) ≡ counted k t + open_volume k m
  unfolding open_volume rebuild_from weigh
  counted-rebuild_from k t [] = omega arith
  counted-rebuild_from k t ((r, o) ∷ m) =
      omega (arith, counted-rebuild_from k (count_in o t) m, counted-count_in k o t)

  pub rebuild-IsExact : (m : Dict Text (OrderInfo P)) → IsExact (rebuild_pending_open m) m
  unfolding rebuild_pending_open counted find
  rebuild-IsExact m k = omega (arith, counted-rebuild_from k [] m)
