-- ===== src/MockQuote/Ticks.antt =====
-- `GenerateMockTicks` of src/adapters/mock/quote/mock_quote_api.cpp, a move at a time: between two moves the
-- other thread may act. The random draw and the clock are arguments of a move.
use qtrade_client.Common.{
  ℕ, zero, suc, ◌+◌, ◌*◌, String, Option, none, some, List, [], ◌∷◌, ◌++◌, if◌then◌else◌,
}
use qtrade_client.Sdk.Quote.{QuoteSdk, MarketTick}
use qtrade_client.MockQuote.{
  MockQuoteApi, TickThread, absent, finished, looping, sleeping, sweeping,
}

-- A tick that reached the target of the SPI, or the tick callback.
pub data Delivery (D : Type 0) : Type 0 where
  to_spi to_callback : ℕ → MarketTick D → Delivery D

-- The loop over `i`, for the levels from `i` on.
abbrev pub levels : {A : Type 0} → (ℕ → A) → ℕ → ℕ → List A
levels f zero i = []
levels f (suc n) i = f i ∷ levels f n (i + 1)

abbrev pub level_volume : ℕ → ℕ
level_volume i = 100 + i * 50

module _ {D : Type 0} ⦃sdk : QuoteSdk D⦄ where
  abbrev pub spread : ℕ → D
  spread i = sdk.times sdk.fifth (sdk.of_ℕ (i + 1))

  -- The tick of an instrument; `base_price` has moved already.
  unfoldable pub make_tick : D → ℕ → String → MarketTick D
  make_tick base_price now instrument =
      let depth = sdk.default_order_book_depth in
      record {
        instrument = instrument;
        data_time = now;
        last_price = base_price;
        bid_price = levels (λ i. sdk.minus base_price (spread i)) depth 0;
        bid_volume = levels level_volume depth 0;
        ask_price = levels (λ i. sdk.plus base_price (spread i)) depth 0;
        ask_volume = levels level_volume depth 0;
        volume = 1000;
        turnover = sdk.times base_price (sdk.of_ℕ 1000);
        avg_price = base_price;
        open_interest = 50_000;
        open_price = sdk.minus base_price (sdk.of_ℕ 1);
        high_price = sdk.plus base_price (sdk.of_ℕ 2);
        low_price = sdk.minus base_price (sdk.of_ℕ 2);
        pre_close_price = sdk.minus base_price sdk.half;
      }

  abbrev pub sink : (ℕ → MarketTick D → Delivery D) → Option ℕ → MarketTick D → List (Delivery D)
  sink to none tick = []
  sink to (some n) tick = to n tick ∷ []

  -- `PublishDepthMarketData`, then the callback.
  unfoldable pub publish : MockQuoteApi D → MarketTick D → List (Delivery D)
  publish s tick = sink to_spi s.target tick ++ sink to_callback s.on_tick tick

  -- Where the thread stands after a move, and what the move delivers.
  abbrev pub moved : D → ℕ → MockQuoteApi D → TickThread D → TickThread D × List (Delivery D)
  moved draw now s absent = (absent, [])
  moved draw now s finished = (finished, [])
  moved draw now s (looping p) = (if s.running then sweeping p s.instruments else finished, [])
  moved draw now s (sleeping p) = (looping p, [])
  moved draw now s (sweeping p []) = (sleeping p, [])
  moved draw now s (sweeping p (i ∷ is)) =
      (sweeping (sdk.plus p draw) is, publish s (make_tick (sdk.plus p draw) now i))

  unfoldable pub tick_move : D → ℕ → MockQuoteApi D → MockQuoteApi D × List (Delivery D)
  unfolding make_tick publish
  tick_move draw now s =
      let (thread, out) = moved draw now s s.tick_thread in (record s { tick_thread = thread }, out)
