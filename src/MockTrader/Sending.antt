-- ===== src/MockTrader/Sending.antt =====
-- What `SendOrder` of src/adapters/mock/trader/mock_trader_api.cpp leaves behind, where callbacks leave the trader
-- as it is.
use qtrade_client.Common.{
  ℕ, Bool, true, Option, none, some, ◌≡◌, refl, arith, Bool-cases, inl, inr, is_some, ◌&&◌, ◌<>◌,
  nat_Eq, ◌==◌, ◌%◌, ◌+◌, ◌++◌, ◌∷◌, [], if◌then◌else◌,
}
use qtrade_client.Common.Dict.{lookup, insert, lookup-insert, lookup-insert_self}
use qtrade_client.Sdk.{ErrorCode}
use qtrade_client.Sdk.Trader.{Sdk, Order, Trade, OrderRequest}
use qtrade_client.MockTrader.{MockTraderApi, Handlers, call_if_set}
use qtrade_client.MockTrader.Orders.{
  chosen_id, counter_after, u64_mod, new_order, fill, accept_order, make_trade, new_trade,
  fill_order, notify_order, notify_trade, try_fill, send_order, to_string,
}

-- Callbacks that leave the trader as it is.
pub record IsSilent {D W : Type 0} (h : Handlers D W) : Type 0 where
  pub on_order : (cb : ℕ) (o : Order D) (s : MockTraderApi D) (w : W) → (h.on_order cb o s w).0 ≡ s
  pub on_trade : (cb : ℕ) (t : Trade D) (s : MockTraderApi D) (w : W) → (h.on_trade cb t s w).0 ≡ s

pub call_if_set-silent :
    {D W : Type 0} (f : ℕ → MockTraderApi D → W → MockTraderApi D × W) (cb : Option ℕ)
    (s : MockTraderApi D) (w : W)
    → ((n : ℕ) → (f n s w).0 ≡ s)
    → (call_if_set f cb s w).0 ≡ s
call_if_set-silent f none s w h = refl
call_if_set-silent f (some n) s w h = h n

abbrev pub fills : {D : Type 0} → MockTraderApi D → Bool
fills s = s.auto_fill && is_some s.on_trade

module _ {D : Type 0} ⦃sdk : Sdk D⦄ where
  pub accept_order_id :
      (r : OrderRequest D) (s : MockTraderApi D)
      → (accept_order r s).0.broker_order_id ≡ chosen_id r s
  unfolding accept_order new_order
  accept_order_id r s = refl

  -- The trade of a request, under the next trade number.
  abbrev pub trade_of : OrderRequest D → MockTraderApi D → Trade D
  trade_of r s = new_trade r (chosen_id r s) ("MOCK-TRADE-" <> to_string s.next_trade_id)

  -- The order and the trades that a request leaves, as a client sees them.
  abbrev pub Sent : OrderRequest D → (s s' : MockTraderApi D) → Type 0
  Sent r s s' =
      let id = chosen_id r s in
      let o = new_order r id in
      ((k : ℕ)
        → lookup k s'.orders ≡ (
            if id == k
            then some (if fills s then fill (trade_of r s) o else o)
            else lookup k s.orders))
      × (s'.trades ≡ (if fills s then s.trades ++ (trade_of r s ∷ []) else s.trades))
      × (s'.next_broker_order_id ≡ counter_after r s)
      × (s'.connected ≡ s.connected)

module _ {D W : Type 0} ⦃sdk : Sdk D⦄ (h : Handlers D W) (silent : IsSilent h) where
  pub notify_order_silent :
      (o : Order D) (s : MockTraderApi D) (w : W) → (notify_order h o s w).0 ≡ s
  unfolding notify_order
  notify_order_silent o s w = call_if_set-silent _ s.on_order s w (λ cb. silent.on_order cb o s w)

  notify_trade_silent : (t : Trade D) (s : MockTraderApi D) (w : W) → (notify_trade h t s w).0 ≡ s
  unfolding notify_trade
  notify_trade_silent t s w = call_if_set-silent _ s.on_trade s w (λ cb. silent.on_trade cb t s w)

  pub fill_silent :
      (r : OrderRequest D) (s : MockTraderApi D) (w : W)
      → fills s ≡ true
      → try_fill h r (chosen_id r s) (accept_order r s).1 w
        ≡ some (
          ErrorCode.success,
          record s {
            next_broker_order_id = counter_after r s;
            next_trade_id = (s.next_trade_id + 1) % u64_mod;
            trades = s.trades ++ (trade_of r s ∷ []);
            orders =
                insert
                  (chosen_id r s)
                  (fill (trade_of r s) (new_order r (chosen_id r s)))
                  (insert (chosen_id r s) (new_order r (chosen_id r s)) s.orders);
          },
          (notify_trade h (trade_of r s) (make_trade r (chosen_id r s) (accept_order r s).1).1 w).1,
        )
  unfolding try_fill make_trade fill_order accept_order
  fill_silent r s w e = simp (e, notify_trade_silent, lookup-insert_self)

  book_filled :
      (r : OrderRequest D) (s : MockTraderApi D)
      → fills s ≡ true
      → (k : ℕ)
      → lookup k (
          insert
            (chosen_id r s)
            (fill (trade_of r s) (new_order r (chosen_id r s)))
            (insert (chosen_id r s) (new_order r (chosen_id r s)) s.orders))
        ≡ (if chosen_id r s == k
            then some (
                if fills s
                then fill (trade_of r s) (new_order r (chosen_id r s))
                else new_order r (chosen_id r s))
            else lookup k s.orders)
  book_filled r s e k = simp (e, lookup-insert) (ground arith)

  Sent-cases :
      (r : OrderRequest D) (s : MockTraderApi D) (w : W)
      → (s' : MockTraderApi D) × (w' : W) × (try_fill h r (chosen_id r s) (accept_order r s).1 w
          ≡ some (ErrorCode.success, s', w'))
        × Sent r s s'
  unfolding accept_order try_fill
  Sent-cases r s w = elim (Bool-cases (fills s)) [
    | inl e ↦ (_, _, fill_silent r s w e, (book_filled r s e, simp e, refl, refl))
    | inr e ↦
        ((accept_order r s).1, w, simp e, ((λ k. simp (e, lookup-insert)), simp e, refl, refl))
  ]

  -- With silent callbacks a connected trader accepts every request: the order of its id is the new one,
  -- filled and with its trade at the end of the trades exactly if `auto_fill` is on and a trade callback
  -- is set; every other order stays, the counter of ids moves as `counter_after` says and the
  -- trader stays connected.
  pub send_order-Sent :
      (r : OrderRequest D) (s : MockTraderApi D) (w : W)
      → s.connected ≡ true
      → (s' : MockTraderApi D) × (w' : W) × (send_order h r s w ≡ some (ErrorCode.success, s', w'))
        × Sent r s s'
  unfolding send_order
  send_order-Sent r s w e =
      let (s', w', p, q) =
        Sent-cases r s (notify_order h (accept_order r s).0 (accept_order r s).1 w).1 in
      (s', w', simp (e, notify_order_silent, accept_order_id) p, q)
