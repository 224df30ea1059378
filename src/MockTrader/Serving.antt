-- ===== src/MockTrader/Serving.antt =====
-- src/adapters/mock/trader: any sequence of calls to the mock trader, against the desk that it promises. The
-- callbacks only listen.
use qtrade_client.Common.{
  ℕ, true, Option, none, some, List, [], ◌∷◌, ◌++◌, ◌≡◌, ◌+◌, ◌%◌, nat_Eq, if◌then◌else◌, refl, ap,
  Bool-cases, inl, inr, arith,
}
use mathlib.Core.Path.{fun_ext}
use qtrade_client.Common.Dict.{Dict, lookup, insert, lookup-insert, lookup-insert_self}
use qtrade_client.Sdk.{ErrorCode}
use qtrade_client.Sdk.Trader.{Sdk, Order, Trade, OrderRequest, CancelOrderRequest}
use qtrade_client.MockTrader.{MockTraderApi, Handlers, call_if_set, publish_connected}
use qtrade_client.MockTrader.Orders.{
  u64_mod, chosen_id, counter_after, accept_order, new_order, make_trade, fill, fill_order,
  notify_order, notify_trade, try_fill, send_order, is_final, cancel_stored, cancel_found,
  end_cancel, cancel_order,
}
use qtrade_client.MockTrader.Sending.{fills, trade_of}
use qtrade_client.MockTrader.Cancelling.{cancel_code, code_in-final}
use qtrade_client.MockTrader.Calls.{sends, cancels}
use qtrade_client.MockTrader.Desk.{
  Event, connected, ordered, traded, view, told, told_of, write, cancel_of, granted, taken,
  cancelled_as, tells,
}

module _ {D : Type 0} ⦃sdk : Sdk D⦄ where
  -- The trader behind a request that it took: filled,
  abbrev pub sent_filled : OrderRequest D → MockTraderApi D → MockTraderApi D
  sent_filled r s =
      let id = chosen_id r s in
      let o = new_order r id in
      record s {
        next_broker_order_id = counter_after r s;
        next_trade_id = (s.next_trade_id + 1) % u64_mod;
        trades = s.trades ++ (trade_of r s ∷ []);
        orders = insert id (fill (trade_of r s) o) (insert id o s.orders);
      }

  -- or with the order in the queue.
  abbrev pub sent_queued : OrderRequest D → MockTraderApi D → MockTraderApi D
  sent_queued r s = record s {
    next_broker_order_id = counter_after r s;
    orders = insert (chosen_id r s) (new_order r (chosen_id r s)) s.orders;
  }

  abbrev pub sent : OrderRequest D → MockTraderApi D → MockTraderApi D
  sent r s = if fills s then sent_filled r s else sent_queued r s

  book_filled :
      (id : ℕ) (o p : Order D) (d : Dict ℕ (Order D)) (k : ℕ)
      → lookup k (insert id p (insert id o d)) ≡ write id p (λ j. lookup j d) k
  book_filled id o p d k = simp lookup-insert (ground arith)

  pub view-sent : (r : OrderRequest D) (s : MockTraderApi D) → view (sent r s) ≡ taken r (view s)
  unfolding chosen_id counter_after
  view-sent r s = elim (Bool-cases (fills s)) [
    | inl e ↦ simp e (
        ap (λ b. record (view (sent_filled r s)) { book = b })
          (fun_ext (
            book_filled (chosen_id r s) _ (fill (trade_of r s) (new_order r (chosen_id r s)))
              s.orders)))
    | inr e ↦ simp e (
        ap (λ b. record (view (sent_queued r s)) { book = b })
          (fun_ext (λ k. lookup-insert k (chosen_id r s) _ s.orders)))
  ]

module _ {D : Type 0} where
  -- The trader behind a cancellation, from the order that it cancelled, if any.
  abbrev pub cancelled : CancelOrderRequest → Option (Order D) → MockTraderApi D → MockTraderApi D
  cancelled r none s = s
  cancelled r (some o) s = record s { orders = insert r.broker_order_id o s.orders }

  pub view-cancelled :
      (r : CancelOrderRequest) (o : Option (Order D)) (s : MockTraderApi D)
      → view (cancelled r o s) ≡ cancelled_as r o (view s)
  view-cancelled r none s = refl
  view-cancelled r (some o) s =
      ap (λ b. record (view s) { book = b })
        (fun_ext (λ k. lookup-insert k r.broker_order_id o s.orders))

module _ {D W : Type 0} (hear : Event D → W → W) where
  -- Callbacks that leave the trader alone and tell `hear` what they were given.
  abbrev pub listening : Handlers D W
  listening = record {
    on_connected = λ t s w. (s, hear (connected t) w);
    on_order = λ cb o s w. (s, hear (ordered o cb) w);
    on_trade = λ cb t s w. (s, hear (traded t cb) w);
  }

  abbrev pub hear_all : List (Event D) → W → W
  hear_all [] w = w
  hear_all (e ∷ es) w = hear_all es (hear e w)

  pub hear_all-append :
      (a b : List (Event D)) (w : W) → hear_all (a ++ b) w ≡ hear_all b (hear_all a w)
  hear_all-append [] b w = refl
  hear_all-append (e ∷ a) b w = hear_all-append a b (hear e w)

  call_if_set-hear :
      (f : ℕ → MockTraderApi D → W → MockTraderApi D × W) (g : ℕ → Event D) (cb : Option ℕ)
      (s : MockTraderApi D) (w : W)
      → ((n : ℕ) → f n s w ≡ (s, hear (g n) w))
      → call_if_set f cb s w ≡ (s, hear_all (told g cb) w)
  call_if_set-hear f g none s w h = refl
  call_if_set-hear f g (some n) s w h = h n

  module _ ⦃sdk : Sdk D⦄ where
    notify_order-hear :
        (o : Order D) (s : MockTraderApi D) (w : W)
        → notify_order listening o s w ≡ (s, hear_all (told (ordered o) s.on_order) w)
    unfolding notify_order
    notify_order-hear o s w = call_if_set-hear _ (ordered o) s.on_order s w (λ n. refl)

    notify_trade-hear :
        (t : Trade D) (s : MockTraderApi D) (w : W)
        → notify_trade listening t s w ≡ (s, hear_all (told (traded t) s.on_trade) w)
    unfolding notify_trade
    notify_trade-hear t s w = call_if_set-hear _ (traded t) s.on_trade s w (λ n. refl)

    pub publish_connected-hear :
        (s : MockTraderApi D) (w : W)
        → publish_connected listening s w ≡ (s, hear_all (told connected s.mock_spi.target) w)
    unfolding publish_connected
    publish_connected-hear s w = call_if_set-hear _ connected s.mock_spi.target s w (λ n. refl)

    pub send_order-sent :
        (r : OrderRequest D) (s : MockTraderApi D) (w : W)
        → s.connected ≡ true
        → send_order listening r s w
          ≡ some (ErrorCode.success, sent r s, hear_all (tells (sends r) (view s)) w)
    unfolding send_order try_fill make_trade fill_order accept_order chosen_id new_order
    send_order-sent r s w c = elim (Bool-cases (fills s)) [
      | inl e ↦
          simp (c, e, notify_order-hear, notify_trade-hear, lookup-insert_self, hear_all-append)
      | inr e ↦ simp (c, e, notify_order-hear, hear_all-append)
    ]

    cancel_found-hear :
        (r : CancelOrderRequest) (s : MockTraderApi D) (w : W) (o : Option (Order D))
        → end_cancel listening s w (cancel_found r s o) ≡ (
          cancel_code true o,
          cancelled r (cancel_of r true o) s,
          hear_all (told_of (cancel_of r true o) s.on_order) w,
        )
    cancel_found-hear r s w none = refl
    cancel_found-hear r s w (some o) = elim (Bool-cases (is_final o.status)) [
      | inl e ↦ simp (e, code_in-final)
      | inr e ↦ simp (e, code_in-final, notify_order-hear)
    ]

    pub cancel_order-hear :
        (r : CancelOrderRequest) (s : MockTraderApi D) (w : W)
        → cancel_order listening r s w ≡ (
          cancel_code s.connected (lookup r.broker_order_id s.orders),
          cancelled r (granted r (view s)) s,
          hear_all (tells (cancels r) (view s)) w,
        )
    unfolding cancel_order cancel_stored
    cancel_order-hear r s w = elim (Bool-cases s.connected) [
      | inl e ↦ simp (e, cancel_found-hear)
      | inr e ↦ simp e
    ]
