-- ===== src/MockTrader/Steps.antt =====
-- What can happen to a trader between two moments: the parts of its operations that run without a break, in any
-- order. Callbacks that call the trader back make such steps, and so do other threads, as long as no two are in
-- `SendOrder` at once: its counters are not guarded, which is the matter of `Threads`.
use qtrade_client.Common.{
  ℕ, String, Bool, true, Option, none, some, ◌≡◌, refl, arith, nat_Eq, Bool-cases, inl, inr,
  is_some,
}
use mathlib.Core.Option.{some-injective}
use qtrade_client.Common.Dict.{lookup, insert-keeps}
use qtrade_client.Sdk.Trader.{Sdk, Order, Trade, OrderRequest, CancelOrderRequest, ConnectRequest}
use qtrade_client.MockTrader.{
  MockTraderApi, Handlers, register_spi, unregister_spi, set_software_version, disconnect, logout,
  call_if_set, set_order_callback, set_trade_callback, set_auto_fill, publish_connected, connect,
  login,
}
use qtrade_client.MockTrader.Orders.{
  chosen_id, accept_order, make_trade, new_trade, fill, fill_found, fill_order, cancel,
  cancel_found, Cancelled, refused, done, cancel_stored, end_cancel, notify_order, notify_trade,
  cancel_order,
}

-- The operations that leave orders, trades and counters alone.
pub data Setting : Type 0 where
  registers_spi : ℕ → Setting
  unregisters_spi connects disconnects logs_in logs_out : Setting
  sets_software_version : String → Setting
  sets_order_callback sets_trade_callback : Option ℕ → Setting
  sets_auto_fill : Bool → Setting

module _ {D : Type 0} where
  unfoldable pub adjust : Setting → MockTraderApi D → MockTraderApi D
  unfolding register_spi unregister_spi set_software_version disconnect logout set_order_callback
      set_trade_callback set_auto_fill
  adjust (registers_spi t) s = register_spi t s
  adjust unregisters_spi s = unregister_spi s
  adjust connects s = record s { connected = true }
  adjust disconnects s = disconnect s
  adjust logs_in s = record s { session_id = 1 }
  adjust logs_out s = (logout s.session_id s).1
  adjust (sets_software_version v) s = set_software_version v s
  adjust (sets_order_callback cb) s = set_order_callback cb s
  adjust (sets_trade_callback cb) s = set_trade_callback cb s
  adjust (sets_auto_fill b) s = set_auto_fill b s

  -- Orders and trades are as they were.
  pub record SameBook (s t : MockTraderApi D) : Type 0 where
    pub orders : t.orders ≡ s.orders
    pub trades : t.trades ≡ s.trades

  pub adjust-SameBook : (c : Setting) (s : MockTraderApi D) → SameBook s (adjust c s)
  unfolding adjust
  adjust-SameBook (registers_spi t) s = ground arith
  adjust-SameBook _ s = ground arith

module _ {D : Type 0} ⦃sdk : Sdk D⦄ where
  pub data Step (s t : MockTraderApi D) : Type 0 where
    accepted : (r : OrderRequest D) → t ≡ (accept_order r s).1 → Step s t
    traded : (r : OrderRequest D) (id : ℕ) → t ≡ (make_trade r id s).1 → Step s t
    filled :
        (r : OrderRequest D) (id : ℕ) (trade_id : String)
        → fill_order id (new_trade r id trade_id) s ≡ some t
        → Step s t
    cancelled : (r : CancelOrderRequest) (o : Order D) → cancel_stored r s ≡ done o t → Step s t
    adjusted : (c : Setting) → t ≡ adjust c s → Step s t

  pub data Reach (s : MockTraderApi D) : MockTraderApi D → Type 0 where
    here : Reach s s
    next : {t u : MockTraderApi D} → Reach s t → Step t u → Reach s u

  pub Reach-trans : {s t u : MockTraderApi D} → Reach s t → Reach t u → Reach s u
  Reach-trans p here = p
  Reach-trans p (next q st) = next (Reach-trans p q) st

  pub Step-Reach : {s t : MockTraderApi D} → Step s t → Reach s t
  Step-Reach st = next here st

-- Callbacks that act on the trader through its operations only.
pub record IsClient {D W : Type 0} ⦃sdk : Sdk D⦄ (h : Handlers D W) : Type 0 where
  pub on_connected : (cb : ℕ) (s : MockTraderApi D) (w : W) → Reach s (h.on_connected cb s w).0
  pub on_order :
      (cb : ℕ) (o : Order D) (s : MockTraderApi D) (w : W) → Reach s (h.on_order cb o s w).0
  pub on_trade :
      (cb : ℕ) (t : Trade D) (s : MockTraderApi D) (w : W) → Reach s (h.on_trade cb t s w).0

call_if_set-Reach :
    {D W : Type 0} ⦃sdk : Sdk D⦄ (f : ℕ → MockTraderApi D → W → MockTraderApi D × W) (cb : Option ℕ)
    (s : MockTraderApi D) (w : W)
    → ((n : ℕ) → Reach s (f n s w).0)
    → Reach s (call_if_set f cb s w).0
call_if_set-Reach f none s w h = here
call_if_set-Reach f (some n) s w h = h n

module _ {D W : Type 0} ⦃sdk : Sdk D⦄ (h : Handlers D W) (client : IsClient h) where
  pub notify_order-Reach :
      (o : Order D) (s : MockTraderApi D) (w : W) → Reach s (notify_order h o s w).0
  unfolding notify_order
  notify_order-Reach o s w = call_if_set-Reach _ s.on_order s w (λ cb. client.on_order cb o s w)

  pub notify_trade-Reach :
      (t : Trade D) (s : MockTraderApi D) (w : W) → Reach s (notify_trade h t s w).0
  unfolding notify_trade
  notify_trade-Reach t s w = call_if_set-Reach _ s.on_trade s w (λ cb. client.on_trade cb t s w)

  pub publish_connected-Reach : (s : MockTraderApi D) (w : W) → Reach s (publish_connected h s w).0
  unfolding publish_connected
  publish_connected-Reach s w =
      call_if_set-Reach _ s.mock_spi.target s w (λ t. client.on_connected t s w)

  pub connect-Reach :
      (r : ConnectRequest) (s : MockTraderApi D) (w : W) → Reach s (connect h r s w).1
  unfolding connect adjust
  connect-Reach r s w =
      Reach-trans (Step-Reach (adjusted connects refl)) (publish_connected-Reach _ w)

  pub login-Reach : (s : MockTraderApi D) (w : W) → Reach s (login h s w).1
  unfolding login adjust
  login-Reach s w = Reach-trans (Step-Reach (adjusted logs_in refl)) (publish_connected-Reach _ w)

  end_cancel-Reach :
      (r : CancelOrderRequest) (s : MockTraderApi D) (w : W) (c : Cancelled D)
      → cancel_stored r s ≡ c
      → Reach s (end_cancel h s w c).1
  end_cancel-Reach r s w (refused e) p = here
  end_cancel-Reach r s w (done o s') p =
      Reach-trans (Step-Reach (cancelled r o p)) (notify_order-Reach o s' w)

  pub cancel_order-Reach :
      (r : CancelOrderRequest) (s : MockTraderApi D) (w : W) → Reach s (cancel_order h r s w).1
  unfolding cancel_order
  cancel_order-Reach r s w = elim (Bool-cases s.connected) [
    | inl e ↦ simp e (end_cancel-Reach r s w _ refl)
    | inr e ↦ simp e here
  ]

abbrev pub has_order : {D : Type 0} → ℕ → MockTraderApi D → Bool
has_order id s = is_some (lookup id s.orders)

module _ {D : Type 0} ⦃sdk : Sdk D⦄ where
  fill_found-keeps :
      (k id : ℕ) (tr : Trade D) (s t : MockTraderApi D) (o : Option (Order D))
      → fill_found id tr s o ≡ some t
      → has_order k s ≡ true
      → has_order k t ≡ true
  fill_found-keeps k id tr s t none e h = cc
  fill_found-keeps k id tr s t (some o) e h =
      rw (← some-injective _ _ e) (insert-keeps k id (fill tr o) s.orders h)

  cancel_found-keeps :
      (k : ℕ) (r : CancelOrderRequest) (s t : MockTraderApi D) (c : Order D) (o : Option (Order D))
      → cancel_found r s o ≡ done c t
      → has_order k s ≡ true
      → has_order k t ≡ true
  cancel_found-keeps k r s t c none e h = cc
  cancel_found-keeps k r s t c (some o) e h =
      ground (arith, insert-keeps k r.broker_order_id (cancel r o) s.orders)

  -- No step takes an order out of the table.
  pub Step-keeps :
      (k : ℕ) {s t : MockTraderApi D} → Step s t → has_order k s ≡ true → has_order k t ≡ true
  unfolding accept_order make_trade fill_order cancel_stored
  Step-keeps k {s} (accepted r e) h = rw e (insert-keeps k (chosen_id r s) _ s.orders h)
  Step-keeps k {s} (traded r id e) h = ground arith
  Step-keeps k {s} {t} (filled r id i e) h = fill_found-keeps k id _ s t _ e h
  Step-keeps k {s} {t} (cancelled r o e) h = cancel_found-keeps k r s t o _ e h
  Step-keeps k {s} (adjusted c e) h = ground (arith, (adjust-SameBook c s).orders)

  pub Reach-keeps :
      (k : ℕ) {s t : MockTraderApi D} → Reach s t → has_order k s ≡ true → has_order k t ≡ true
  Reach-keeps k here h = h
  Reach-keeps k (next r st) h = Step-keeps k st (Reach-keeps k r h)
