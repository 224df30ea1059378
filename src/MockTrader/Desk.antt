-- ===== src/MockTrader/Desk.antt =====
-- What the mock trader of src/adapters/mock/trader promises its client: a desk that knows for each id at
-- most one order, by a function, and in which a request is served at a stroke.
use qtrade_client.Common.{
  ℕ, String, Bool, true, false, ◌&&◌, not, is_some, Option, none, some, List, [], ◌∷◌, ◌++◌, ◌≡◌,
  ◌+◌, ◌%◌, ◌==◌, ◌<>◌, nat_Eq, if◌then◌else◌, ◌↔◌,
}
use qtrade_client.Common.Int.{pos}
use qtrade_client.Common.Dict.{lookup}
use qtrade_client.Sdk.{ErrorCode}
use qtrade_client.Sdk.Trader.{Sdk, Order, Trade, OrderRequest, CancelOrderRequest, Position}
use qtrade_client.MockTrader.{MockTraderApi}
use qtrade_client.MockTrader.Orders.{
  u64_mod, to_string, new_order, new_trade, fill, cancel, is_final,
}
use qtrade_client.MockTrader.Responses.{Listed, AsksForOrder, AsksForTrade}
use qtrade_client.MockTrader.Cancelling.{cancel_code}
use qtrade_client.MockTrader.Positions.{asks, is_traded}
use qtrade_client.MockTrader.Positions.Answer.{IsNet}
use qtrade_client.MockTrader.Calls.{
  Call, Reply, registers_spi, unregisters_spi, disconnects, logs_in, asks_connected, connects,
  logs_out, sets_order_callback, sets_trade_callback, sets_auto_fill, sends, cancels, asks_orders,
  asks_trades, asks_positions, asks_asset,
}

-- What a client is told, with the handle of the SPI or the callback that hears it.
pub data Event (D : Type 0) : Type 0 where
  connected : ℕ → Event D
  ordered : Order D → ℕ → Event D
  traded : Trade D → ℕ → Event D

pub record Desk (D : Type 0) : Type 0 where
  pub target : Option ℕ
  pub on_order : Option ℕ
  pub on_trade : Option ℕ
  pub is_open : Bool
  pub session : ℕ
  pub next_id : ℕ
  pub next_trade : ℕ
  pub auto_fill : Bool
  pub book : ℕ → Option (Order D)
  pub trades : List (Trade D)

-- A desk before its first call.
abbrev pub new_desk : {D : Type 0} → Desk D
new_desk = record {
  target = none;
  on_order = none;
  on_trade = none;
  is_open = false;
  session = 0;
  next_id = 1;
  next_trade = 1;
  auto_fill = true;
  book = λ k. none;
  trades = [];
}

-- The desk behind a trader: its table of orders as a function, without the order of its entries.
abbrev pub view : {D : Type 0} → MockTraderApi D → Desk D
view s = record {
  target = s.mock_spi.target;
  on_order = s.on_order;
  on_trade = s.on_trade;
  is_open = s.connected;
  session = s.session_id;
  next_id = s.next_broker_order_id;
  next_trade = s.next_trade_id;
  auto_fill = s.auto_fill;
  book = λ k. lookup k s.orders;
  trades = s.trades;
}

-- A handler that is set is told.
abbrev pub told : {D : Type 0} → (ℕ → Event D) → Option ℕ → List (Event D)
told f none = []
told f (some cb) = f cb ∷ []

module _ {D : Type 0} where
  -- The book with `o` under `id`.
  abbrev pub write : ℕ → Order D → (ℕ → Option (Order D)) → ℕ → Option (Order D)
  write id o book k = if id == k then some o else book k

  abbrev pub cancel_of : CancelOrderRequest → Bool → Option (Order D) → Option (Order D)
  cancel_of r false o = none
  cancel_of r true none = none
  cancel_of r true (some o) = if is_final o.status then none else some (cancel r o)

  -- The cancelled order, if the desk grants the request.
  abbrev pub granted : CancelOrderRequest → Desk D → Option (Order D)
  granted r d = cancel_of r d.is_open (d.book r.broker_order_id)

  abbrev pub cancelled_as : CancelOrderRequest → Option (Order D) → Desk D → Desk D
  cancelled_as r none d = d
  cancelled_as r (some o) d = record d { book = write r.broker_order_id o d.book }

  abbrev pub told_of : Option (Order D) → Option ℕ → List (Event D)
  told_of none cb = []
  told_of (some o) cb = told (ordered o) cb

  -- Orders are filled at once.
  abbrev pub fills_at_once : Desk D → Bool
  fills_at_once d = d.auto_fill && is_some d.on_trade

  abbrev pub id_for : OrderRequest D → Desk D → ℕ
  id_for r d = if not (r.broker_order_id == 0) then r.broker_order_id else d.next_id

module _ {D : Type 0} ⦃sdk : Sdk D⦄ where
  abbrev pub trade_for : OrderRequest D → Desk D → Trade D
  trade_for r d = new_trade r (id_for r d) ("MOCK-TRADE-" <> to_string d.next_trade)

  -- The desk once it has taken a request.
  abbrev pub taken : OrderRequest D → Desk D → Desk D
  taken r d =
      let o = new_order r (id_for r d) in
      record d {
        next_id = if not (r.broker_order_id == 0) then d.next_id else (d.next_id + 1) % u64_mod;
        next_trade = if fills_at_once d then (d.next_trade + 1) % u64_mod else d.next_trade;
        book = write (id_for r d) (if fills_at_once d then fill (trade_for r d) o else o) d.book;
        trades = if fills_at_once d then d.trades ++ (trade_for r d ∷ []) else d.trades;
      }

  -- The desk behind a call.
  abbrev pub after : Call D → Desk D → Desk D
  after (registers_spi t) d = record d { target = some t }
  after unregisters_spi d = record d { target = none }
  after disconnects d = record d { is_open = false }
  after asks_connected d = d
  after logs_in d = record d { session = 1 }
  after (connects r) d = record d { is_open = true }
  after (logs_out n) d = record d { session = 0 }
  after (sets_order_callback cb) d = record d { on_order = cb }
  after (sets_trade_callback cb) d = record d { on_trade = cb }
  after (sets_auto_fill b) d = record d { auto_fill = b }
  after (sends r) d = if d.is_open then taken r d else d
  after (cancels r) d = cancelled_as r (granted r d) d
  after (asks_orders r) d = d
  after (asks_trades r) d = d
  after (asks_positions i) d = d
  after (asks_asset a) d = d

  -- What the client is told in the course of a call, in this order.
  abbrev pub tells : Call D → Desk D → List (Event D)
  tells logs_in d = told connected d.target
  tells (connects r) d = told connected d.target
  tells (sends r) d =
      if d.is_open
      then told (ordered (new_order r (id_for r d))) d.on_order
        ++ (if fills_at_once d then told (traded (trade_for r d)) d.on_trade else [])
      else []
  tells (cancels r) d = told_of (granted r d) d.on_order
  tells c d = []

  -- What a call may return.
  abbrev pub Replies : Call D → Desk D → Reply D → Type 0
  Replies asks_connected d (Reply.answer b) = b ≡ d.is_open
  Replies logs_in d (Reply.session n) = n ≡ 1
  Replies (connects r) d (Reply.code e) = e ≡ ErrorCode.success
  Replies (logs_out n) d (Reply.number z) = z ≡ pos 0
  Replies (sends r) d (Reply.code e) =
      e ≡ (if d.is_open then ErrorCode.success else ErrorCode.connection_error)
  Replies (cancels r) d (Reply.code e) = e ≡ cancel_code d.is_open (d.book r.broker_order_id)
  Replies (asks_orders r) d (Reply.orders e os) =
      (e ≡ ErrorCode.success)
      × ((o : Order D) → Listed o os ↔ ((k : ℕ) × (d.book k ≡ some o) × AsksForOrder r k o))
  Replies (asks_trades r) d (Reply.trades e ts) =
      (e ≡ ErrorCode.success)
      × ((t : Trade D) → Listed t ts ↔ (Listed t d.trades × AsksForTrade r t))
  Replies (asks_positions i) d (Reply.positions e ps) =
      (e ≡ ErrorCode.success)
      × ((p : Position) → Listed p ps → IsNet i d.trades p.instrument p)
      × ((j : String)
          → ((asks i j ≡ true) × (is_traded j d.trades ≡ true))
            ↔ ((p : Position) × Listed p ps × (p.instrument ≡ j)))
  Replies (asks_asset a) d (Reply.asset e x) =
      (e ≡ ErrorCode.success)
      × (x.account_id ≡ a)
      × (x.total_asset ≡ sdk.million)
      × (x.buying_power ≡ sdk.million)
  Replies (registers_spi t) d Reply.nothing = Unit
  Replies unregisters_spi d Reply.nothing = Unit
  Replies disconnects d Reply.nothing = Unit
  Replies (sets_order_callback cb) d Reply.nothing = Unit
  Replies (sets_trade_callback cb) d Reply.nothing = Unit
  Replies (sets_auto_fill b) d Reply.nothing = Unit
  Replies c d r = ⊥
