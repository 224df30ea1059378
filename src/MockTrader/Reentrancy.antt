-- ===== src/MockTrader/Reentrancy.antt =====
-- Callbacks that call the trader back while `SendOrder` is under way.
use qtrade_client.Common.{ℕ, true, some, ◌≡◌, refl, nat_Eq, ◌++◌, ◌∷◌, []}
use qtrade_client.Common.Dict.{lookup, insert, lookup-insert_self}
use qtrade_client.Sdk.{ErrorCode}
use qtrade_client.Sdk.Trader.{Sdk, Order, Trade, OrderRequest, OrderStatusType}
use qtrade_client.MockTrader.{MockTraderApi, Handlers}
use qtrade_client.MockTrader.Orders.{
  chosen_id, accept_order, make_trade, fill, fill_order, notify_order, notify_trade, try_fill,
  send_order,
}
use qtrade_client.MockTrader.Sending.{fills, accept_order_id, call_if_set-silent}

module _ {D W : Type 0} ⦃sdk : Sdk D⦄ (h : Handlers D W) where
  -- A cancellation that is granted while the order callback of `send_order` runs is undone: if the order is
  -- cancelled when the callback returns, and the trader still fills orders, `send_order` answers success and
  -- leaves the order filled. The trade callback leaves the trader alone.
  pub send_order-fills_cancelled :
      (r : OrderRequest D) (s s₂ : MockTraderApi D) (w w₂ : W) (o : Order D)
      → s.connected ≡ true
      → notify_order h (accept_order r s).0 (accept_order r s).1 w ≡ (s₂, w₂)
      → lookup (chosen_id r s) s₂.orders ≡ some o
      → o.status ≡ OrderStatusType.canceled
      → fills s₂ ≡ true
      → ((cb : ℕ) (t : Trade D) (u : MockTraderApi D) (v : W) → (h.on_trade cb t u v).0 ≡ u)
      → (s' : MockTraderApi D) × (w' : W) × (q : Order D) × (send_order h r s w
          ≡ some (ErrorCode.success, s', w'))
        × (lookup (chosen_id r s) s'.orders ≡ some q)
        × (q.status ≡ OrderStatusType.filled)
  unfolding send_order try_fill make_trade fill_order fill notify_trade
  send_order-fills_cancelled r s s₂ w w₂ o link calls found dead auto quiet =
      let t = (make_trade r (chosen_id r s) s₂).0 in
      let s₃ = (make_trade r (chosen_id r s) s₂).1 in
      (
        record s₃ {
          trades = s₃.trades ++ (t ∷ []);
          orders = insert (chosen_id r s) (fill t o) s₃.orders;
        },
        (notify_trade h t s₃ w₂).1,
        fill t o,
        simp (link, calls, accept_order_id, auto, quiet_trade, found),
        lookup-insert_self (chosen_id r s) (fill t o) s₂.orders,
        refl,
      )
    where
      quiet_trade : (t : Trade D) (u : MockTraderApi D) (v : W) → (notify_trade h t u v).0 ≡ u
      quiet_trade t u v = call_if_set-silent _ u.on_trade u v (λ cb. quiet cb t u v)
