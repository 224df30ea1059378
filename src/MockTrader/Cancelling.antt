-- ===== src/MockTrader/Cancelling.antt =====
-- `CancelOrder`: which requests it grants, its effect, and its interplay with `SendOrder`.
use qtrade_client.Common.{
  ℕ, Bool, true, false, Option, none, some, ◌≡◌, refl, inl, inr, nat_Eq, if◌then◌else◌, Bool-cases,
  equals_ne, ◌≢◌,
}
use qtrade_client.Common.Dict.{lookup, insert, lookup-insert, lookup-insert_self}
use qtrade_client.Sdk.{ErrorCode, is_success}
use qtrade_client.Sdk.Trader.{
  Sdk, Order, CancelOrderRequest, OrderStatusType, OrderSubmitStatusType,
}
use qtrade_client.MockTrader.{MockTraderApi, Handlers}
use qtrade_client.MockTrader.Orders.{
  cancel, cancel_found, cancel_stored, end_cancel, is_final, cancel_order,
}
use qtrade_client.MockTrader.Sending.{IsSilent, notify_order_silent}

-- The answer to a cancellation of an order in that status.
abbrev pub code_in : OrderStatusType → ErrorCode
code_in OrderStatusType.filled = ErrorCode.system_error
code_in OrderStatusType.canceled = ErrorCode.system_error
code_in OrderStatusType.rejected = ErrorCode.system_error
code_in OrderStatusType.not_traded_queueing = ErrorCode.success
code_in OrderStatusType.unknown = ErrorCode.success
code_in (OrderStatusType.other n) = ErrorCode.success

pub code_in-final :
    (st : OrderStatusType)
    → code_in st ≡ (if is_final st then ErrorCode.system_error else ErrorCode.success)
unfolding is_final
code_in-final OrderStatusType.filled = refl
code_in-final OrderStatusType.canceled = refl
code_in-final OrderStatusType.rejected = refl
code_in-final OrderStatusType.not_traded_queueing = refl
code_in-final OrderStatusType.unknown = refl
code_in-final (OrderStatusType.other n) = refl

module _ {D : Type 0} where
  -- The error code of a cancellation, from the connection and the order that stands under the id.
  abbrev pub cancel_code : Bool → Option (Order D) → ErrorCode
  cancel_code false o = ErrorCode.connection_error
  cancel_code true none = ErrorCode.not_found
  cancel_code true (some o) = code_in o.status

  -- The order `o`, cancelled by `r` to `p`: two statuses and the text of the request are new.
  pub record IsCancelled (r : CancelOrderRequest) (o p : Order D) : Type 0 where
    pub order_id : p.order_id ≡ r.order_id
    pub status : p.status ≡ OrderStatusType.canceled
    pub submit_status : p.submit_status ≡ OrderSubmitStatusType.cancel_accepted
    pub client_order_id : p.client_order_id ≡ o.client_order_id
    pub broker_order_id : p.broker_order_id ≡ o.broker_order_id
    pub instrument : p.instrument ≡ o.instrument
    pub market : p.market ≡ o.market
    pub price : p.price ≡ o.price
    pub volume : p.volume ≡ o.volume
    pub traded_volume : p.traded_volume ≡ o.traded_volume
    pub left_volume : p.left_volume ≡ o.left_volume
    pub trade_amount : p.trade_amount ≡ o.trade_amount
    pub side : p.side ≡ o.side
    pub position_effect : p.position_effect ≡ o.position_effect
    pub business_type : p.business_type ≡ o.business_type

  -- The request's entry of the table before and behind a cancellation, from whether it was granted.
  abbrev pub OwnEntry : CancelOrderRequest → Bool → (old new : Option (Order D)) → Type 0
  OwnEntry r true (some o) (some p) = IsCancelled r o p
  OwnEntry r true none p = ⊥
  OwnEntry r true (some o) none = ⊥
  OwnEntry r false o p = p ≡ o

  -- The state behind a cancellation that answered `e`: on success one order of the table has changed.
  pub record CancelEffect (r : CancelOrderRequest) (e : ErrorCode) (s s' : MockTraderApi D)
      : Type 0 where
    pub own :
        OwnEntry r
          (is_success e)
          (lookup r.broker_order_id s.orders)
          (lookup r.broker_order_id s'.orders)
    pub others : (k : ℕ) → r.broker_order_id ≢ k → lookup k s'.orders ≡ lookup k s.orders
    pub trades : s'.trades ≡ s.trades
    pub connected : s'.connected ≡ s.connected
    pub next_id : s'.next_broker_order_id ≡ s.next_broker_order_id

  cancel-IsCancelled : (r : CancelOrderRequest) (o : Order D) → IsCancelled r o (cancel r o)
  unfolding cancel
  cancel-IsCancelled r o = record {
    order_id = refl;
    status = refl;
    submit_status = refl;
    client_order_id = refl;
    broker_order_id = refl;
    instrument = refl;
    market = refl;
    price = refl;
    volume = refl;
    traded_volume = refl;
    left_volume = refl;
    trade_amount = refl;
    side = refl;
    position_effect = refl;
    business_type = refl;
  }

  -- A refusal changes nothing.
  unchanged :
      (r : CancelOrderRequest) (e : ErrorCode) (s : MockTraderApi D)
      → is_success e ≡ false
      → CancelEffect r e s s
  unchanged r e s q = record {
    own = rw q refl;
    others = λ k ne. refl;
    trades = refl;
    connected = refl;
    next_id = refl;
  }

  changed :
      (r : CancelOrderRequest) (o : Order D) (s : MockTraderApi D)
      → lookup r.broker_order_id s.orders ≡ some o
      → CancelEffect r ErrorCode.success s
          (record s { orders = insert r.broker_order_id (cancel r o) s.orders })
  changed r o s p = record {
    own = rw (p, lookup-insert_self) (cancel-IsCancelled r o);
    others = λ k ne. simp (lookup-insert, equals_ne r.broker_order_id k ne);
    trades = refl;
    connected = refl;
    next_id = refl;
  }

module _ {D W : Type 0} ⦃sdk : Sdk D⦄ (h : Handlers D W) (silent : IsSilent h) where
  cancel_found_effect :
      (r : CancelOrderRequest) (s : MockTraderApi D) (w : W) (o : Option (Order D))
      → lookup r.broker_order_id s.orders ≡ o
      → let (e, s', w') = end_cancel h s w (cancel_found r s o) in
        (e ≡ cancel_code true o) × CancelEffect r e s s'
  cancel_found_effect r s w none p = (refl, unchanged r ErrorCode.not_found s refl)
  cancel_found_effect r s w (some o) p = elim (Bool-cases (is_final o.status)) [
    | inl q ↦ simp (q, code_in-final) (refl, unchanged r ErrorCode.system_error s refl)
    | inr q ↦ simp (q, code_in-final, notify_order_silent h silent) (refl, changed r o s p)
  ]

  -- With silent callbacks, on every branch: the code says whether the trader is connected, knows the order
  -- and finds it neither filled, cancelled nor rejected, in this order. On success the order of the request's
  -- id has the status cancelled, the submit status of a cancellation and the request's text, and is else as
  -- before; without success it is as before. No other order, no trade, neither the connection
  -- nor the counter of ids changes.
  pub cancel_order_effect :
      (r : CancelOrderRequest) (s : MockTraderApi D) (w : W)
      → let (e, s', w') = cancel_order h r s w in
        (e ≡ cancel_code s.connected (lookup r.broker_order_id s.orders)) × CancelEffect r e s s'
  unfolding cancel_order cancel_stored
  cancel_order_effect r s w = elim (Bool-cases s.connected) [
    | inl q ↦ simp q (cancel_found_effect r s w _ refl)
    | inr q ↦ simp q (refl, unchanged r ErrorCode.connection_error s refl)
  ]
