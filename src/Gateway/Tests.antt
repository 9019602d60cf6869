-- ===== src/Gateway/Tests.antt =====
-- A switch of src/gateway/dual_md_gateway.cpp at concrete gateways.
use hft_framework.Common.{
  ◌≡◌, refl, Bool, true, some, List, [], ◌∷◌, ◌++◌, Text, codes, arith, ℤ, pos,
}
use hft_framework.Gateway.Market.{
  disconnected, logged_in, MdGateway, is_among, unsubscribe, on_primary_status, on_active,
  failover_to_backup,
}
use hft_framework.Gateway.Trade.{DualTrade, forward, failover, active_of, with_active}
use hft_framework.Gateway.Failover.{
  SubscriptionLaws, dual, Covers, Event, subscribes_to, appends_to, reports_status, handle_all,
  handle_all-Covers,
}

-- A gateway that is the list of what it is subscribed to.
abbrev listing : MdGateway (List Text)
listing = record {
  subscribe_to = λ xs g. xs;
  unsubscribe_from = λ xs g. [];
  append_to = λ xs g. xs ++ g;
  stop_one = λ g. [];
  logs_in = λ g. true;
  status_of = λ g. logged_in;
}

abbrev listed : List Text → Text → Bool
listed g t = is_among t g

among_front : (t : Text) (xs ys : List Text) → is_among t xs ≡ true → is_among t (xs ++ ys) ≡ true
among_front t [] ys h = absurd (cc)
among_front t (x ∷ xs) ys h = ground (arith, among_front t xs ys)

among_back : (t : Text) (xs ys : List Text) → is_among t ys ≡ true → is_among t (xs ++ ys) ≡ true
among_back t [] ys h = h
among_back t (x ∷ xs) ys h = ground (arith, among_back t xs ys)

listing_laws : SubscriptionLaws listing listed
listing_laws = record {
  subscribes = λ xs g t h. h;
  appends = λ xs g t h. among_front t xs g h;
  keeps = λ xs g t h. among_back t xs g h;
}

abbrev outage : List (Event listing listed)
outage =
    subscribes_to (codes "rb2510" ∷ [])
    ∷ reports_status disconnected
    ∷ appends_to (codes "au2512" ∷ [])
    ∷ reports_status logged_in
    ∷ []

handle_all-Covers_example :
    Covers listing listed
      (handle_all listing listed outage (dual listing listed [] (some []) true []))
handle_all-Covers_example =
    handle_all-Covers listing listed listing_laws outage [] (some []) true [] (λ t h. absurd (cc))

-- An instrument that was unsubscribed is subscribed again by the switch to the backup.
comes_back :
    (on_primary_status listing disconnected (
      unsubscribe listing
        (codes "rb2510" ∷ [])
        (dual listing listed (codes "rb2510" ∷ []) (some []) true (codes "rb2510" ∷ [])))).backup
    ≡ some (codes "rb2510" ∷ [])
unfolding on_primary_status unsubscribe on_active failover_to_backup
comes_back = refl

abbrev both : DualTrade ℤ
both = record { primary = some (pos 1); backup = some (pos 2); using_primary = true }

sent_to_backup : (forward (λ g. (g, g)) (failover both)).0 ≡ pos 2
unfolding forward failover active_of with_active
sent_to_backup = refl
