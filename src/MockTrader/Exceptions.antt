-- ===== src/MockTrader/Exceptions.antt =====
-- src/adapters/mock/trader/mock_trader_api.cpp: `SendOrder` throws no exception, whatever its callbacks do to the
-- trader meanwhile.
use mathlib.Core.Option.{some-injective}
use mathlib.Core.Option
use qtrade_client.Common.{
  ℕ, String, Bool, true, Option, none, some, ◌≡◌, refl, ap, subst, ◌∙◌, true, false, Bool-cases,
  inl, inr, is_some, ◌&&◌, nat_Eq,
}
use qtrade_client.Common.Dict.{lookup-insert_self}
use qtrade_client.Sdk.{ErrorCode}
use qtrade_client.Sdk.Trader.{Sdk, Order, Trade, OrderRequest}
use qtrade_client.MockTrader.{MockTraderApi, Handlers}
use qtrade_client.MockTrader.Orders.{
  chosen_id, new_order, accept_order, make_trade, new_trade, fill_found, fill_order, notify_order,
  notify_trade, try_fill, send_order,
}
use qtrade_client.MockTrader.Steps.{
  Reach, here, next, Reach-trans, Step-Reach, accepted, traded, filled, IsClient,
  notify_order-Reach, notify_trade-Reach, has_order, Reach-keeps,
}
use qtrade_client.MockTrader.Sending.{accept_order_id}
use qtrade_client.MockTrader.Effect.{id_of, chosen_id-id_of}

module _ {D : Type 0} ⦃sdk : Sdk D⦄ where
  fill_found_total :
      (id : ℕ) (t : Trade D) (s : MockTraderApi D) (o : Option (Order D))
      → is_some o ≡ true
      → (s' : MockTraderApi D) × (fill_found id t s o ≡ some s')
  fill_found_total id t s none h = cc
  fill_found_total id t s (some o) h = (_, refl)

  fill_order_total :
      (id : ℕ) (t : Trade D) (s : MockTraderApi D)
      → has_order id s ≡ true
      → (s' : MockTraderApi D) × (fill_order id t s ≡ some s')
  unfolding fill_order
  fill_order_total id t s h = fill_found_total id t s _ h

  accept_order-has_order :
      (r : OrderRequest D) (s : MockTraderApi D)
      → has_order (accept_order r s).0.broker_order_id (accept_order r s).1 ≡ true
  unfolding accept_order new_order
  accept_order-has_order r s = ap is_some (lookup-insert_self (chosen_id r s) _ s.orders)

  -- The order of `id` is there: the call went well.
  abbrev pub Went :
      {W : Type 0} → ℕ → MockTraderApi D → Option (ErrorCode × MockTraderApi D × W) → Type 0
  Went id s none = ⊥
  Went id s (some (e, s', w')) = Reach s s' × (e ≡ ErrorCode.success) × (has_order id s' ≡ true)

  -- The same, or the refusal of a trader that is not connected.
  abbrev pub Survives :
      {W : Type 0}
      → Bool
      → OrderRequest D
      → MockTraderApi D
      → Option (ErrorCode × MockTraderApi D × W)
      → Type 0
  Survives true r s o = Went (id_of r.broker_order_id s.next_broker_order_id) s o
  Survives false r s none = ⊥
  Survives false r s (some (e, s', w')) = (e ≡ ErrorCode.connection_error) × (s' ≡ s)

module _ {D W : Type 0} ⦃sdk : Sdk D⦄ (h : Handlers D W) (client : IsClient h) where
  fill_Went :
      (r : OrderRequest D) (id : ℕ) (i : String) (s s₂ : MockTraderApi D) (w : W)
      → Reach s s₂
      → has_order id s₂ ≡ true
      → Went id s
          (Option.map (λ s₃. (ErrorCode.success, s₃, w)) (fill_order id (new_trade r id i) s₂))
  fill_Went r id i s s₂ w reach has =
      let (s₃, e) = fill_order_total id (new_trade r id i) s₂ has in
      let last : Reach s₂ s₃ = next here (filled r id i e) in
      rw e (Reach-trans reach last, refl, Reach-keeps id last has)

  try_fill-Went :
      (r : OrderRequest D) (id : ℕ) (s : MockTraderApi D) (w : W)
      → has_order id s ≡ true
      → Went id s (try_fill h r id s w)
  unfolding try_fill make_trade
  try_fill-Went r id s w has = elim (Bool-cases (s.auto_fill && is_some s.on_trade)) [
    | inl e ↦ simp e (fill_Went r id _ s _ _ reached (Reach-keeps id reached has))
    | inr e ↦ simp e (here, refl, has)
  ]
    where
      reached : Reach s (notify_trade h (make_trade r id s).0 (make_trade r id s).1 w).0
      reached = Reach-trans (Step-Reach (traded r id refl)) (notify_trade-Reach h client _ _ w)

  Went-trans :
      (id : ℕ) (s t : MockTraderApi D) (o : Option (ErrorCode × MockTraderApi D × W))
      → Reach s t
      → Went id t o
      → Went id s o
  Went-trans id s t none p q = q
  Went-trans id s t (some (e, s', w')) p (reach, code, has) = (Reach-trans p reach, code, has)

  Went-eq :
      (i j : ℕ) (s : MockTraderApi D) (o : Option (ErrorCode × MockTraderApi D × W))
      → i ≡ j
      → Went i s o
      → Went j s o
  Went-eq i j s o e = subst (λ id. Went id s o) e

  connected-Went :
      (r : OrderRequest D) (s : MockTraderApi D) (w : W)
      → let (order, s₁) = accept_order r s in
        let (s₂, w₁) = notify_order h order s₁ w in
        Went order.broker_order_id s (try_fill h r order.broker_order_id s₂ w₁)
  connected-Went r s w = Went-trans _ s _ _ reached (
      try_fill-Went r _ _ _
        (Reach-keeps _ (notify_order-Reach h client _ _ w) (accept_order-has_order r s)))
    where
      reached : Reach s (notify_order h (accept_order r s).0 (accept_order r s).1 w).0
      reached = Reach-trans (Step-Reach (accepted r refl)) (notify_order-Reach h client _ _ w)

  -- For callbacks that return and act on the trader through its operations only, `SendOrder` throws nothing,
  -- its lookup of the order by `at` in particular. A connected trader answers `kSuccess`, has an order under the
  -- request's id in the end, and is where steps of the trader lead it; else the answer is `kConnectionError` and
  -- nothing changes. That a callback returns is assumed, since a handler is a function: one that calls
  -- `SendOrder` again without end is none.
  pub send_order-Survives :
      (r : OrderRequest D) (s : MockTraderApi D) (w : W)
      → Survives s.connected r s (send_order h r s w)
  unfolding send_order
  send_order-Survives r s w = elim (Bool-cases s.connected) [
    | inl e ↦
        simp e (Went-eq _ _ s _ (accept_order_id r s ∙ chosen_id-id_of r s) (connected-Went r s w))
    | inr e ↦ simp e (refl, refl)
  ]
