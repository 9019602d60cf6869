-- ===== src/Engine/Cancelling.antt =====
-- src/engine/trading_engine.cpp: the gateways, and cancelling orders.
use hft_framework.Common.{
  List, ◌∷◌, ◌++◌, ◌+◌, ℕ, ℤ, pos, eq_ℤ, Bool, false, none, some, if◌then◌else◌, Text, is_empty, [],
}
use hft_framework.Double.{Double}
use hft_framework.Types.{OrderRequest, OrderInfo}
use hft_framework.Orders.Methods.{get_order_copy, get_active_orders}
use hft_framework.Engine.State.{Account, Engine, resolve_account}

module _ (d : Double) where
  open d use {F}

  -- The gateways of the accounts, by the place of the account: a state of their own, whether one is
  -- logged in, and its calls, whose result is 0 when the request was sent.
  pub record Gateways (G : Type 0) : Type 0 where
    pub is_logged_in : ℕ → G → Bool
    pub send_order : ℕ → OrderRequest F → Text → G → ℤ × G
    pub cancel_order : ℕ → OrderInfo F → Text → G → ℤ × G

  module _ {G : Type 0} (gw : Gateways G) where
    -- `try_cancel_order`
    unfoldable pub try_cancel_order : Text → Text → Engine d → G → Bool × G
    try_cancel_order ref account_id e g = elim (resolve_account d account_id e) [
      | none ↦ (false, g)
      | some (i, a) ↦ elim (get_order_copy ref a.order_mgr) [
        | none ↦ (false, g)
        | some order ↦
            let answer = gw.cancel_order i order ref g in (eq_ℤ answer.0 (pos 0), answer.1)
      ]
    ]

    -- `cancel_order` by the reference alone: the only account that knows it, if there is one.
    unfoldable pub holders_of : Text → ℕ → List (Account d) → List (ℕ × OrderInfo F)
    holders_of ref i [] = []
    holders_of ref i (a ∷ rest) = elim (get_order_copy ref a.order_mgr) [
      | none ↦ holders_of ref (i + 1) rest
      | some order ↦ (i, order) ∷ holders_of ref (i + 1) rest
    ]

    unfoldable pub cancel_by_ref : Text → Engine d → G → G
    cancel_by_ref ref e g = elim (holders_of ref 0 e.accounts) [
      | (i, order) ∷ [] ↦ (gw.cancel_order i order ref g).1
      | _ ↦ g
    ]

    unfoldable pub cancel_each : List (OrderInfo F) → Engine d → G → ℕ × G
    cancel_each [] e g = (0, g)
    cancel_each (o ∷ os) e g =
        let one = try_cancel_order o.order_ref o.account_id e g in
        let rest = cancel_each os e one.1 in ((if one.0 then 1 else 0) + rest.0, rest.1)

    unfoldable pub active_orders_of : List (Account d) → List (OrderInfo F)
    active_orders_of [] = []
    active_orders_of (a ∷ rest) = get_active_orders a.order_mgr ++ active_orders_of rest

    -- `cancel_all_orders`, of one account or of all of them for an empty name.
    unfoldable pub cancel_all_orders : Text → Engine d → G → ℕ × G
    cancel_all_orders account_id e g =
        if is_empty account_id
        then cancel_each (active_orders_of e.accounts) e g
        else elim (resolve_account d account_id e) [
          | none ↦ (0, g)
          | some (i, a) ↦ cancel_each (get_active_orders a.order_mgr) e g
        ]
