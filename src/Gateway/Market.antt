-- ===== src/Gateway/Market.antt =====
-- src/gateway/dual_md_gateway.cpp. The reading of the configuration and the callback of the status
-- are left out.
use hft_framework.Common.{
  Bool, true, false, ◌&&◌, ◌||◌, Option, none, some, List, [], ◌∷◌, ◌++◌, if◌then◌else◌, Text,
  text_eq,
}

pub data MdGatewayStatus : Type 0 where
  disconnected connecting connected logged_in : MdGatewayStatus

-- What the dual gateway uses of a gateway of type G.
pub record MdGateway (G : Type 0) : Type 0 where
  pub subscribe_to : List Text → G → G
  pub unsubscribe_from : List Text → G → G
  pub append_to : List Text → G → G
  pub stop_one : G → G
  pub logs_in : G → Bool
  pub status_of : G → MdGatewayStatus

pub record DualMd (G : Type 0) : Type 0 where
  pub primary : Option G
  pub backup : Option G
  pub using_primary : Bool
  pub subscribed : List Text

abbrev pub is_among : Text → List Text → Bool
is_among inst [] = false
is_among inst (s ∷ rest) = text_eq s inst || is_among inst rest

-- The loop of `subscribe_append`.
unfoldable pub joined : List Text → List Text → List Text
joined subs [] = subs
joined subs (inst ∷ rest) = joined (if is_among inst subs then subs else subs ++ inst ∷ []) rest

module _ {G : Type 0} (gw : MdGateway G) where
  -- A pointer that is not null.
  abbrev pub is_set : Option G → Bool
  is_set none = false
  is_set (some g) = true

  -- A call on a pointer that is tested before.
  abbrev pub on_gateway : (G → G) → Option G → Option G
  on_gateway f none = none
  on_gateway f (some g) = some (f g)

  -- The calls that go to the gateway in use.
  unfoldable pub on_active : (G → G) → DualMd G → DualMd G
  on_active f s =
      if s.using_primary && is_set s.primary
      then record s { primary = on_gateway f s.primary }
      else record s { backup = on_gateway f s.backup }

  unfoldable pub subscribe : List Text → DualMd G → DualMd G
  unfolding on_active
  subscribe instruments s =
      on_active (gw.subscribe_to instruments) (record s { subscribed = instruments })

  unfoldable pub unsubscribe : List Text → DualMd G → DualMd G
  unfolding on_active
  unsubscribe instruments s = on_active (gw.unsubscribe_from instruments) s

  unfoldable pub subscribe_append : List Text → DualMd G → DualMd G
  unfolding on_active joined
  subscribe_append instruments s =
      on_active (gw.append_to instruments)
        (record s { subscribed = joined s.subscribed instruments })

  unfoldable pub stop : DualMd G → DualMd G
  stop s = record s {
    primary = on_gateway gw.stop_one s.primary;
    backup = on_gateway gw.stop_one s.backup;
  }

  abbrev or_false : Option G → Bool
  or_false none = false
  or_false (some g) = gw.logs_in g

  unfoldable pub is_logged_in : DualMd G → Bool
  is_logged_in s =
      if s.using_primary && is_set s.primary then or_false s.primary else or_false s.backup

  abbrev or_disconnected : Option G → MdGatewayStatus
  or_disconnected none = disconnected
  or_disconnected (some g) = gw.status_of g

  unfoldable pub status : DualMd G → MdGatewayStatus
  status s =
      if s.using_primary && is_set s.primary
      then or_disconnected s.primary
      else or_disconnected s.backup

  -- `subs.empty()` skips the call.
  abbrev pub resubscribe : List Text → Option G → Option G
  resubscribe [] g = g
  resubscribe (x ∷ xs) g = on_gateway (gw.subscribe_to (x ∷ xs)) g

  unfoldable pub failover_to_backup : DualMd G → DualMd G
  failover_to_backup s =
      if is_set s.backup
      then record s { using_primary = false; backup = resubscribe s.subscribed s.backup }
      else s

  unfoldable pub failback_to_primary : DualMd G → DualMd G
  failback_to_primary s = record s {
    using_primary = true;
    primary = resubscribe s.subscribed s.primary;
    backup = on_gateway (gw.unsubscribe_from s.subscribed) s.backup;
  }

  -- `on_primary_status` at the new status.
  unfoldable pub on_primary_status : MdGatewayStatus → DualMd G → DualMd G
  unfolding failover_to_backup failback_to_primary
  on_primary_status disconnected s = if s.using_primary then failover_to_backup s else s
  on_primary_status logged_in s = if s.using_primary then s else failback_to_primary s
  on_primary_status _ s = s
