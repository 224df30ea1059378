-- ===== src/MockTrader/Promise.antt =====
-- src/adapters/mock/trader: any sequence of calls to the mock trader is served as the desk promises.
use qtrade_client.Common.{
  ℕ, nat_Eq, String, Option, some, none, List, [], ◌∷◌, ◌++◌, ◌≡◌, ◌↔◌, refl, sym, subst, true,
  Bool-cases, inl, inr, ◌∙◌, string_Eq, is_empty, if◌then◌else◌, ap,
}
use text.Mathlib.TextEquality.{eq_iff}
use mathlib.Core.Option
use qtrade_client.Common.Int.{pos}
use qtrade_client.Common.Dict.{lookup, NodupKeys, insert-NodupKeys}
use qtrade_client.Sdk.{ErrorCode}
use qtrade_client.Sdk.Trader.{Sdk, Order, Position, OrderRequest, CancelOrderRequest}
use qtrade_client.MockTrader.{
  MockTraderApi, create_mock_trader_api, register_spi, unregister_spi, set_target, connect,
  disconnect, is_connected, login, logout, set_order_callback, set_trade_callback, set_auto_fill,
}
use qtrade_client.MockTrader.Orders.{chosen_id, send_order}
use qtrade_client.MockTrader.Queries.{query_orders, query_trades, query_positions, query_asset}
use qtrade_client.MockTrader.Responses.{Listed, query_orders_iff, query_trades_iff}
use qtrade_client.MockTrader.Positions.{asks, is_traded}
use qtrade_client.MockTrader.Positions.Answer.{query_positions-IsNet, query_positions_complete}
use qtrade_client.MockTrader.Sending.{fills}
use qtrade_client.MockTrader.Cancelling.{cancel_code}
use qtrade_client.MockTrader.Calls.{
  Call, Reply, session, code, perform, perform_all, registers_spi, unregisters_spi, disconnects,
  logs_in, asks_connected, connects, logs_out, sets_order_callback, sets_trade_callback,
  sets_auto_fill, sends, cancels, asks_orders, asks_trades, asks_positions, asks_asset,
}
use qtrade_client.MockTrader.Desk.{
  Event, Desk, new_desk, view, granted, taken, after, tells, Replies,
}
use qtrade_client.MockTrader.Serving.{
  listening, hear_all, hear_all-append, publish_connected-hear, sent, send_order-sent, view-sent,
  cancelled, cancel_order-hear, view-cancelled,
}

module _ {D : Type 0} where
  -- No id stands twice in the table, and the account is the one that nothing sets.
  abbrev IsSound : MockTraderApi D → Type 0
  IsSound s = NodupKeys s.orders × (s.account_id ≡ "")

  -- Where no account is set, the account that a query names is the answer's.
  own_account :
      (a : String) (s : MockTraderApi D)
      → s.account_id ≡ ""
      → (if is_empty a then s.account_id else a) ≡ a
  own_account a s h = elim (Bool-cases (is_empty a)) [
    | inl e ↦ simp e (h ∙ sym ((eq_iff a "").0 e))
    | inr e ↦ simp e
  ]

  cancelled-IsSound :
      (r : CancelOrderRequest) (o : Option (Order D)) (s : MockTraderApi D)
      → IsSound s
      → IsSound (cancelled r o s)
  cancelled-IsSound r none s sound = sound
  cancelled-IsSound r (some o) s (n, a) = (insert-NodupKeys r.broker_order_id o s.orders n, a)

module _ {D : Type 0} ⦃sdk : Sdk D⦄ where
  sent-IsSound : (r : OrderRequest D) (s : MockTraderApi D) → IsSound s → IsSound (sent r s)
  sent-IsSound r s (n, a) = elim (Bool-cases (fills s)) [
    | inl e ↦ simp e (insert-NodupKeys id _ _ (insert-NodupKeys id _ s.orders n), a)
    | inr e ↦ simp e (insert-NodupKeys id _ s.orders n, a)
  ]
    where
      id : ℕ
      id = chosen_id r s

  -- Exactly the instruments that were traded and asked for have a position.
  positions-Served :
      (i j : String) (s : MockTraderApi D)
      → sdk.position_default.total_volume ≡ pos 0
      → ((asks i j ≡ true) × (is_traded j s.trades ≡ true))
        ↔ ((p : Position) × Listed p (query_positions i s).1 × (p.instrument ≡ j))
  positions-Served i j s z = (
    λ (asked, dealt). query_positions_complete i j s asked dealt,
    λ (p, listed, own).
        let net = query_positions-IsNet i s p z listed in
        subst (λ k. (asks i k ≡ true) × (is_traded k s.trades ≡ true)) own (net.0, net.1),
  )

  -- The desk behind calls, and all that the client is told in their course.
  abbrev pub after_all : List (Call D) → Desk D → Desk D
  after_all [] d = d
  after_all (c ∷ cs) d = after_all cs (after c d)

  abbrev pub tells_all : List (Call D) → Desk D → List (Event D)
  tells_all [] d = []
  tells_all (c ∷ cs) d = tells c d ++ tells_all cs (after c d)

  -- Each call has its reply, which the desk may give at that time.
  abbrev pub RepliesAll : List (Call D) → Desk D → List (Reply D) → Type 0
  RepliesAll [] d [] = Unit
  RepliesAll (c ∷ cs) d (r ∷ rs) = Replies c d r × RepliesAll cs (after c d) rs
  RepliesAll _ d _ = ⊥

module _ {D W : Type 0} ⦃sdk : Sdk D⦄ (hear : Event D → W → W) where
  -- The call returns, and reply, state and notifications are the desk's.
  abbrev Served : Call D → MockTraderApi D → W → Type 0
  Served c s w =
      (r : Reply D) × (s' : MockTraderApi D) × (perform (listening hear) c s w
        ≡ some (r, s', hear_all hear (tells c (view s)) w))
      × Replies c (view s) r
      × (view s' ≡ after c (view s))
      × IsSound s'

  sends-Served :
      (r : OrderRequest D) (s : MockTraderApi D) (w : W) → IsSound s → Served (sends r) s w
  unfolding perform send_order
  sends-Served r s w sound = elim (Bool-cases s.connected) [
    | inl c ↦ (
      code ErrorCode.success,
      sent r s,
      ap (Option.map (λ (e, t, v). (code e, t, v))) (send_order-sent hear r s w c),
      simp c,
      view-sent r s ∙ ap (λ b. if b then taken r (view s) else view s) (sym c),
      sent-IsSound r s sound,
    )
    | inr c ↦ (code ErrorCode.connection_error, s, simp c, simp c, simp c, sound)
  ]

  perform-Served :
      (c : Call D) (s : MockTraderApi D) (w : W)
      → sdk.position_default.total_volume ≡ pos 0
      → IsSound s
      → Served c s w
  unfolding perform register_spi unregister_spi set_target disconnect is_connected logout
      set_order_callback set_trade_callback set_auto_fill login connect query_orders query_trades
      query_positions query_asset
  perform-Served (registers_spi t) s w z sound = (_, _, refl, tt, refl, sound)
  perform-Served unregisters_spi s w z sound = (_, _, refl, tt, refl, sound)
  perform-Served disconnects s w z sound = (_, _, refl, tt, refl, sound)
  perform-Served asks_connected s w z sound = (_, _, refl, refl, refl, sound)
  perform-Served logs_in s w z sound = (
    session 1,
    record s { session_id = 1 },
    ap (λ (t, v). some (session t.session_id, t, v))
        (publish_connected-hear hear (record s { session_id = 1 }) w),
    refl,
    refl,
    sound,
  )
  perform-Served (connects r) s w z sound = (
    code ErrorCode.success,
    record s { connected = true },
    ap (λ (t, v). some (code ErrorCode.success, t, v))
        (publish_connected-hear hear (record s { connected = true }) w),
    refl,
    refl,
    sound,
  )
  perform-Served (logs_out n) s w z sound = (_, _, refl, refl, refl, sound)
  perform-Served (sets_order_callback cb) s w z sound = (_, _, refl, tt, refl, sound)
  perform-Served (sets_trade_callback cb) s w z sound = (_, _, refl, tt, refl, sound)
  perform-Served (sets_auto_fill b) s w z sound = (_, _, refl, tt, refl, sound)
  perform-Served (sends r) s w z sound = sends-Served r s w sound
  perform-Served (cancels r) s w z sound = (
    code (cancel_code s.connected (lookup r.broker_order_id s.orders)),
    cancelled r (granted r (view s)) s,
    ap (λ (e, t, v). some (code e, t, v)) (cancel_order-hear hear r s w),
    refl,
    view-cancelled r _ s,
    cancelled-IsSound r _ s sound,
  )
  perform-Served (asks_orders r) s w z (n, a) =
      (_, s, refl, (refl, λ o. query_orders_iff r s o n), refl, (n, a))
  perform-Served (asks_trades r) s w z sound =
      (_, s, refl, (refl, query_trades_iff r s), refl, sound)
  perform-Served (asks_positions i) s w z sound = (
    _,
    s,
    refl,
    (refl, λ p. query_positions-IsNet i s p z, λ j. positions-Served i j s z),
    refl,
    sound,
  )
  perform-Served (asks_asset x) s w z (n, a) =
      (_, s, refl, (refl, own_account x s a, refl, refl), refl, (n, a))

  -- The calls return, and their replies, the state behind them and the notifications are those of the desk `d`.
  abbrev pub ServedAll : List (Call D) → Desk D → MockTraderApi D → W → Type 0
  ServedAll cs d s w =
      (rs : List (Reply D)) × (s' : MockTraderApi D) × (perform_all (listening hear) cs s w
        ≡ some (rs, s', hear_all hear (tells_all cs d) w))
      × RepliesAll cs d rs
      × (view s' ≡ after_all cs d)

  perform_all-Served :
      (cs : List (Call D)) (s : MockTraderApi D) (w : W)
      → sdk.position_default.total_volume ≡ pos 0
      → IsSound s
      → ServedAll cs (view s) s w
  unfolding perform_all
  perform_all-Served [] s w z sound = ([], s, refl, tt, refl)
  perform_all-Served (c ∷ cs) s w z sound =
      let (r, s₁, p, reply, seen, sound₁) = perform-Served c s w z sound in
      let w₁ = hear_all hear (tells c (view s)) w in
      let (rs, s₂, q, replies, seen₂) =
        subst (λ d. ServedAll cs d s₁ w₁) seen (perform_all-Served cs s₁ w₁ z sound₁) in
      (r ∷ rs, s₂, simp (p, q, hear_all-append), (reply, replies), seen₂)

  -- For every sequence of calls to a new trader whose callbacks only listen: the calls return, without an
  -- exception; each reply is one that the desk may give at that time; the callbacks hear what the desk
  -- tells, in this order; and the trader is in the end as the desk is. The volume of a `Position` that
  -- nobody wrote to is 0.
  pub mock_trader_refines :
      (cs : List (Call D)) (w : W)
      → sdk.position_default.total_volume ≡ pos 0
      → ServedAll cs new_desk create_mock_trader_api w
  unfolding create_mock_trader_api lookup
  mock_trader_refines cs w z = perform_all-Served cs create_mock_trader_api w z (tt, refl)
