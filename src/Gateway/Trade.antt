-- ===== src/Gateway/Trade.antt =====
-- src/gateway/dual_trade_gateway.cpp. The reading of the configuration is left out, and the queries are
-- one function, since each of them goes to the gateway in use in the same way.
use hft_framework.Common.{ℤ, negsuc, Bool, true, false, Option, none, some, ◌&&◌, if◌then◌else◌}

pub record DualTrade (G : Type 0) : Type 0 where
  pub primary : Option G
  pub backup : Option G
  pub using_primary : Bool

module _ {G : Type 0} where
  abbrev pub exists : Option G → Bool
  exists none = false
  exists (some g) = true

  -- `active()`
  unfoldable pub active_of : DualTrade G → Option G
  active_of s = if s.using_primary && exists s.primary then s.primary else s.backup

  -- The gateway in use after a call.
  unfoldable pub with_active : G → DualTrade G → DualTrade G
  with_active g s =
      if s.using_primary && exists s.primary
      then record s { primary = some g }
      else record s { backup = some g }

  -- A call that goes to the gateway in use, -1 without one: `send_order`, `cancel_order` and the
  -- queries.
  unfoldable pub forward : (G → ℤ × G) → DualTrade G → ℤ × DualTrade G
  unfolding active_of with_active
  forward call s = elim (active_of s) [
    | none ↦ (negsuc 0, s)
    | some g ↦ ((call g).0, with_active (call g).1 s)
  ]

  unfoldable pub failover : DualTrade G → DualTrade G
  failover s = if exists s.backup then record s { using_primary = false } else s

  unfoldable pub failback : DualTrade G → DualTrade G
  failback s = record s { using_primary = true }
