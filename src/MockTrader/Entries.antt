-- ===== src/MockTrader/Entries.antt =====
-- src/adapters/mock/trader/mock_trader_api.cpp: the entries of the order table and the trades, and what the
-- status of an order says of the rest of it.
use qtrade_client.Common.{
  ℕ, true, Option, none, some, List, [], ◌∷◌, ◌++◌, ◌≡◌, refl, ◌⊎◌, inl, inr, nat_Eq,
}
use qtrade_client.Common.Int.{pos}
use qtrade_client.Sdk.Trader.{Sdk, Order, Trade, OrderStatusType}
use qtrade_client.MockTrader.{MockTraderApi}
use qtrade_client.MockTrader.Steps.{has_order}

module _ {D : Type 0} where
  -- One of the trades is of the order `id`, for that amount.
  abbrev pub HasTrade : ℕ → D → List (Trade D) → Type 0
  HasTrade id amount [] = ⊥
  HasTrade id amount (t ∷ ts) =
      ((t.broker_order_id ≡ id) × (t.trade_amount ≡ amount)) ⊎ HasTrade id amount ts

  HasTrade-append :
      (id : ℕ) (a : D) (ts us : List (Trade D)) → HasTrade id a ts → HasTrade id a (ts ++ us)
  HasTrade-append id a [] us h = absurd h
  HasTrade-append id a (t ∷ ts) us (inl h) = inl h
  HasTrade-append id a (t ∷ ts) us (inr h) = inr (HasTrade-append id a ts us h)

  pub HasTrade-last :
      (t : Trade D) (ts : List (Trade D))
      → HasTrade t.broker_order_id t.trade_amount (ts ++ (t ∷ []))
  HasTrade-last t [] = inl (refl, refl)
  HasTrade-last t (u ∷ ts) = inr (HasTrade-last t ts)

  -- Every trade is of an order in the table.
  abbrev pub TradesHaveOrders : List (Trade D) → MockTraderApi D → Type 0
  TradesHaveOrders [] s = Unit
  TradesHaveOrders (t ∷ ts) s = (has_order t.broker_order_id s ≡ true) × TradesHaveOrders ts s

  pub TradesHaveOrders-mono :
      (ts : List (Trade D)) (s t : MockTraderApi D)
      → ((k : ℕ) → has_order k s ≡ true → has_order k t ≡ true)
      → TradesHaveOrders ts s
      → TradesHaveOrders ts t
  TradesHaveOrders-mono [] s t f h = tt
  TradesHaveOrders-mono (u ∷ ts) s t f h =
      (f u.broker_order_id h.0, TradesHaveOrders-mono ts s t f h.1)

  pub TradesHaveOrders-append :
      (ts : List (Trade D)) (u : Trade D) (s : MockTraderApi D)
      → TradesHaveOrders ts s
      → has_order u.broker_order_id s ≡ true
      → TradesHaveOrders (ts ++ (u ∷ [])) s
  TradesHaveOrders-append [] u s h k = (k, tt)
  TradesHaveOrders-append (t ∷ ts) u s h k = (h.0, TradesHaveOrders-append ts u s h.1 k)

module _ {D : Type 0} ⦃sdk : Sdk D⦄ where
  -- Nothing of the order has traded.
  abbrev pub IsOpen : Order D → Type 0
  IsOpen o =
      (o.left_volume ≡ o.volume)
      × (o.traded_volume ≡ sdk.order_default.traded_volume)
      × (o.trade_amount ≡ sdk.order_default.trade_amount)

  -- What the status of an order says of the rest of it. The mock gives three statuses only.
  abbrev pub Fits : List (Trade D) → OrderStatusType → Order D → Type 0
  Fits ts OrderStatusType.not_traded_queueing o = IsOpen o
  Fits ts OrderStatusType.canceled o = IsOpen o
  Fits ts OrderStatusType.filled o =
      (o.left_volume ≡ pos 0)
      × (o.traded_volume ≡ o.volume)
      × HasTrade o.broker_order_id o.trade_amount ts
  Fits ts _ o = ⊥

  -- An entry of the table: it stands under its own id.
  abbrev pub Entry : List (Trade D) → ℕ → Option (Order D) → Type 0
  Entry ts k none = Unit
  Entry ts k (some o) = (o.broker_order_id ≡ k) × Fits ts o.status o

  Fits-append :
      (ts us : List (Trade D)) (o : Order D) (st : OrderStatusType)
      → Fits ts st o
      → Fits (ts ++ us) st o
  Fits-append ts us o OrderStatusType.filled h =
      (h.0, h.1, HasTrade-append o.broker_order_id o.trade_amount ts us h.2)
  Fits-append ts us o OrderStatusType.not_traded_queueing h = h
  Fits-append ts us o OrderStatusType.canceled h = h
  Fits-append ts us o OrderStatusType.unknown h = h
  Fits-append ts us o OrderStatusType.rejected h = h
  Fits-append ts us o (OrderStatusType.other n) h = h

  pub Entry-append :
      (ts us : List (Trade D)) (k : ℕ) (o : Option (Order D)) → Entry ts k o → Entry (ts ++ us) k o
  Entry-append ts us k none h = tt
  Entry-append ts us k (some o) h = (h.0, Fits-append ts us o o.status h.1)
