-- ===== src/Gateway/Failover.antt =====
-- src/gateway/dual_md_gateway.cpp: the subscriptions over any switches to the backup and back.
use hft_framework.Common.{
  ◌≡◌, ◌⊎◌, refl, sym, Bool, true, false, Option, none, some, List, [], ◌∷◌, ◌++◌, Text, Bool-cases,
  arith, inl, inr, text_eq, subst,
}
use hft_framework.Gateway.Market.{
  MdGatewayStatus, disconnected, connecting, connected, logged_in, MdGateway, DualMd, on_active,
  on_gateway, is_among, joined, subscribe, subscribe_append, failover_to_backup,
  failback_to_primary, on_primary_status,
}

-- What the interface documents of the calls of a gateway: `has g t` says that g is subscribed to t.
pub record SubscriptionLaws {G : Type 0} (gw : MdGateway G) (has : G → Text → Bool) : Type 0 where
  pub subscribes :
      (xs : List Text) (g : G) (t : Text)
      → is_among t xs ≡ true
      → has (gw.subscribe_to xs g) t ≡ true
  pub appends :
      (xs : List Text) (g : G) (t : Text) → is_among t xs ≡ true → has (gw.append_to xs g) t ≡ true
  pub keeps :
      (xs : List Text) (g : G) (t : Text) → has g t ≡ true → has (gw.append_to xs g) t ≡ true

among-append :
    (t x : Text) (xs : List Text)
    → is_among t (xs ++ x ∷ []) ≡ true
    → (is_among t xs ≡ true) ⊎ (text_eq x t ≡ true)
among-append t x [] h = ground arith
among-append t x (y ∷ ys) h = ground (arith, among-append t x ys)

among-joined :
    (t : Text) (subs xs : List Text)
    → is_among t (joined subs xs) ≡ true
    → (is_among t subs ≡ true) ⊎ (is_among t xs ≡ true)
unfolding joined
among-joined t subs [] h = inl h
among-joined t subs (x ∷ xs) h = elim (Bool-cases (is_among x subs)) [
  | inl e ↦ ground (arith, among-joined t subs xs (rw (e, joined) at h))
  | inr e ↦
      ground
        (arith, among-joined t (subs ++ x ∷ []) xs (rw (e, joined) at h), among-append t x subs)
]

module _ {G : Type 0} (gw : MdGateway G) (has : G → Text → Bool) where
  -- A primary gateway and perhaps a backup.
  abbrev pub dual : G → Option G → Bool → List Text → DualMd G
  dual p b using subs = record {
    primary = some p;
    backup = b;
    using_primary = using;
    subscribed = subs;
  }

  abbrev pub Has : Option G → Text → Type 0
  Has none t = Unit
  Has (some g) t = has g t ≡ true

  abbrev pub in_use : G → Option G → Bool → Option G
  in_use p b true = some p
  in_use p b false = b

  -- The gateway in use has every instrument that is to be subscribed.
  abbrev pub IsCovered : G → Option G → Bool → List Text → Type 0
  IsCovered p b using subs = (t : Text) → is_among t subs ≡ true → Has (in_use p b using) t

  pub record Covers (s : DualMd G) : Type 0 where
    pub p : G
    pub b : Option G
    pub using : Bool
    pub subs : List Text
    pub same : s ≡ dual p b using subs
    pub covered : IsCovered p b using subs

  dual-Covers :
      (p : G) (b : Option G) (using : Bool) (subs : List Text)
      → IsCovered p b using subs
      → Covers (dual p b using subs)
  dual-Covers p b using subs h = record {
    p = p;
    b = b;
    using = using;
    subs = subs;
    same = refl;
    covered = h;
  }

  pub data Event : Type 0 where
    subscribes_to : List Text → Event
    appends_to : List Text → Event
    reports_status : MdGatewayStatus → Event

  unfoldable pub handle : Event → DualMd G → DualMd G
  handle (subscribes_to xs) s = subscribe gw xs s
  handle (appends_to xs) s = subscribe_append gw xs s
  handle (reports_status status) s = on_primary_status gw status s

  unfoldable pub handle_all : List Event → DualMd G → DualMd G
  unfolding handle
  handle_all [] s = s
  handle_all (ev ∷ evs) s = handle_all evs (handle ev s)

  module _ (laws : SubscriptionLaws gw has) where
    has_joined :
        (subs xs : List Text) (g : G)
        → ((t : Text) → is_among t subs ≡ true → has g t ≡ true)
        → (t : Text) → is_among t (joined subs xs) ≡ true
        → has (gw.append_to xs g) t ≡ true
    has_joined subs xs g h t k = elim (among-joined t subs xs k) [
      | inl old ↦ laws.keeps xs g t (h t old)
      | inr new ↦ laws.appends xs g t new
    ]

    handle-Covers :
        (ev : Event) (p : G) (b : Option G) (using : Bool) (subs : List Text)
        → IsCovered p b using subs
        → Covers (handle ev (dual p b using subs))
    unfolding handle subscribe subscribe_append on_active on_primary_status failover_to_backup
        failback_to_primary
    handle-Covers (subscribes_to xs) p b true subs h =
        dual-Covers (gw.subscribe_to xs p) b true xs (λ t k. laws.subscribes xs p t k)
    handle-Covers (subscribes_to xs) p none false subs h = dual-Covers p none false xs (λ t k. tt)
    handle-Covers (subscribes_to xs) p (some b) false subs h =
        dual-Covers p (some (gw.subscribe_to xs b)) false xs (λ t k. laws.subscribes xs b t k)
    handle-Covers (appends_to xs) p b true subs h =
        dual-Covers (gw.append_to xs p) b true (joined subs xs) (has_joined subs xs p h)
    handle-Covers (appends_to xs) p none false subs h =
        dual-Covers p none false (joined subs xs) (λ t k. tt)
    handle-Covers (appends_to xs) p (some b) false subs h =
        dual-Covers p (some (gw.append_to xs b)) false (joined subs xs) (has_joined subs xs b h)
    handle-Covers (reports_status disconnected) p none true subs h = dual-Covers p none true subs h
    handle-Covers (reports_status disconnected) p (some b) true [] h =
        dual-Covers p (some b) false [] (λ t k. absurd (cc))
    handle-Covers (reports_status disconnected) p (some b) true (x ∷ xs) h =
        let ys : List Text = x ∷ xs in
        dual-Covers p (some (gw.subscribe_to ys b)) false ys (λ t k. laws.subscribes ys b t k)
    handle-Covers (reports_status disconnected) p b false subs h = dual-Covers p b false subs h
    handle-Covers (reports_status logged_in) p b true subs h = dual-Covers p b true subs h
    handle-Covers (reports_status logged_in) p b false [] h =
        dual-Covers p (on_gateway gw (gw.unsubscribe_from []) b) true [] (λ t k. absurd (cc))
    handle-Covers (reports_status logged_in) p b false (x ∷ xs) h =
        let ys : List Text = x ∷ xs in
        dual-Covers (gw.subscribe_to ys p) (on_gateway gw (gw.unsubscribe_from ys) b) true ys
          (λ t k. laws.subscribes ys p t k)
    handle-Covers (reports_status connecting) p b using subs h = dual-Covers p b using subs h
    handle-Covers (reports_status connected) p b using subs h = dual-Covers p b using subs h

    -- Over any subscriptions, incremental ones and changes of the primary's status, the gateway in
    -- use is subscribed to every instrument that the dual gateway keeps for subscription.
    pub handle_all-Covers :
        (evs : List Event) (p : G) (b : Option G) (using : Bool) (subs : List Text)
        → IsCovered p b using subs
        → Covers (handle_all evs (dual p b using subs))
    unfolding handle_all
    handle_all-Covers [] p b using subs h = dual-Covers p b using subs h
    handle_all-Covers (ev ∷ evs) p b using subs h =
        let c = handle-Covers ev p b using subs h in
        subst (λ (s : DualMd G). Covers (handle_all evs s)) (sym c.same)
          (handle_all-Covers evs c.p c.b c.using c.subs c.covered)
