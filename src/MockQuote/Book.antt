-- ===== src/MockQuote/Book.antt =====
-- src/adapters/mock/quote/mock_quote_api.cpp: the order book of a tick.
use qtrade_client.Common.{
  ℕ, zero, suc, ◌+◌, ◌*◌, ◌<◌, ◌≤◌, List, subst, String, some, ◌≡◌, refl, ap, ◌∙◌, arith,
}
use qtrade_client.Common.Lists.{length, get_elem?}
use qtrade_client.Sdk.Quote.{QuoteSdk, MarketTick}
use qtrade_client.MockQuote.Ticks.{levels, level_volume, make_tick}

levels-get :
    {A : Type 0} (f : ℕ → A) (n i k : ℕ) → k < n → get_elem? (levels f n i) k ≡ some (f (i + k))
levels-get f zero i k lt = absurd (omega (arith, lt))
levels-get f (suc n) i zero lt = ap (λ x. some (f x)) (omega arith)
levels-get f (suc n) i (suc k) lt =
    levels-get f n (i + 1) k (omega (arith, lt)) ∙ ap (λ x. some (f x)) (omega arith)

length-levels : {A : Type 0} (f : ℕ → A) (n i : ℕ) → length (levels f n i) ≡ n
length-levels f zero i = refl
length-levels f (suc n) i = ap suc (length-levels f n (i + 1))

first_level : {A : Type 0} (f : ℕ → A) (n k : ℕ) → k < n → get_elem? (levels f n 0) k ≡ some (f k)
first_level f n k lt = levels-get f n 0 k lt ∙ ap (λ x. some (f x)) (omega arith)

module _ {D : Type 0} ⦃sdk : QuoteSdk D⦄ where
  -- How the operations on prices go with their order: those of `double` round, but never against the order.
  -- Prices that are no number are none.
  pub record IsPriceOrder (le : D → D → Type 0) : Type 0 where
    pub of_ℕ_mono : (m n : ℕ) → m ≤ n → le (sdk.of_ℕ m) (sdk.of_ℕ n)
    pub times_mono : (x y : D) → le x y → le (sdk.times sdk.fifth x) (sdk.times sdk.fifth y)
    pub plus_mono : (a x y : D) → le x y → le (sdk.plus a x) (sdk.plus a y)
    pub minus_anti : (a x y : D) → le x y → le (sdk.minus a y) (sdk.minus a x)
    pub fifth_of_zero : sdk.times sdk.fifth (sdk.of_ℕ 0) ≡ sdk.of_ℕ 0
    pub plus_zero : (a : D) → sdk.plus a (sdk.of_ℕ 0) ≡ a
    pub minus_zero : (a : D) → sdk.minus a (sdk.of_ℕ 0) ≡ a

  -- Level `k` of a book: its prices stand `k + 1` fifths from the last price, its volumes are alike.
  pub record IsLevel (tick : MarketTick D) (k : ℕ) : Type 0 where
    pub bid_price :
        get_elem? tick.bid_price k
        ≡ some (sdk.minus tick.last_price (sdk.times sdk.fifth (sdk.of_ℕ (k + 1))))
    pub ask_price :
        get_elem? tick.ask_price k
        ≡ some (sdk.plus tick.last_price (sdk.times sdk.fifth (sdk.of_ℕ (k + 1))))
    pub bid_volume : get_elem? tick.bid_volume k ≡ some (100 + 50 * k)
    pub ask_volume : get_elem? tick.ask_volume k ≡ some (100 + 50 * k)

  -- `P` holds of the `j`th and the `k`th entry, which are there.
  abbrev pub Both : List D → ℕ → List D → ℕ → (D → D → Type 0) → Type 0
  Both xs j ys k P = (x y : D) × (get_elem? xs j ≡ some x) × (get_elem? ys k ≡ some y) × P x y

  -- A book of that depth, whose sides are apart and sorted, the best price first.
  pub record IsBook (le : D → D → Type 0) (depth : ℕ) (tick : MarketTick D) : Type 0 where
    pub level : (k : ℕ) → k < depth → IsLevel tick k
    pub bid_price_length : length tick.bid_price ≡ depth
    pub ask_price_length : length tick.ask_price ≡ depth
    pub bid_volume_length : length tick.bid_volume ≡ depth
    pub ask_volume_length : length tick.ask_volume ≡ depth
    pub apart :
        (j k : ℕ)
        → j < depth
        → k < depth
        → Both tick.bid_price j tick.ask_price k
            (λ bid ask. le bid tick.last_price × le tick.last_price ask)
    pub bids : (j k : ℕ) → j ≤ k → k < depth → Both tick.bid_price k tick.bid_price j le
    pub asks : (j k : ℕ) → j ≤ k → k < depth → Both tick.ask_price j tick.ask_price k le

  module _ (le : D → D → Type 0) (order : IsPriceOrder le) where
    -- More fifths are more.
    fifths :
        (m n : ℕ) → m ≤ n → le (sdk.times sdk.fifth (sdk.of_ℕ m)) (sdk.times sdk.fifth (sdk.of_ℕ n))
    fifths m n lt = order.times_mono _ _ (order.of_ℕ_mono m n lt)

    above : (a : D) (n : ℕ) → le a (sdk.plus a (sdk.times sdk.fifth (sdk.of_ℕ n)))
    above a n =
        subst (λ x. le x (sdk.plus a (sdk.times sdk.fifth (sdk.of_ℕ n))))
          (ap (sdk.plus a) order.fifth_of_zero ∙ order.plus_zero a)
          (order.plus_mono a _ _ (fifths 0 n (omega arith)))

    below : (a : D) (n : ℕ) → le (sdk.minus a (sdk.times sdk.fifth (sdk.of_ℕ n))) a
    below a n =
        subst (λ x. le (sdk.minus a (sdk.times sdk.fifth (sdk.of_ℕ n))) x)
          (ap (sdk.minus a) order.fifth_of_zero ∙ order.minus_zero a)
          (order.minus_anti a _ _ (fifths 0 n (omega arith)))

    -- The book of a tick has exactly the levels below the SDK's depth on both sides, each with its two prices,
    -- `k + 1` fifths below and above the last price, and its volumes. No bid is above the last price and no ask
    -- below it; along the levels bids never rise and asks never fall. Prices have an order that the operations
    -- on them respect.
    pub make_tick-IsBook :
        (base_price : D) (now : ℕ) (instrument : String)
        → IsBook le sdk.default_order_book_depth (make_tick base_price now instrument)
    unfolding make_tick
    make_tick-IsBook base_price now instrument =
        let depth = sdk.default_order_book_depth in
        record {
          level = λ k lt. record {
            bid_price = first_level _ depth k lt;
            ask_price = first_level _ depth k lt;
            bid_volume = first_level level_volume depth k lt ∙ ap some (omega arith);
            ask_volume = first_level level_volume depth k lt ∙ ap some (omega arith);
          };
          bid_price_length = length-levels _ depth 0;
          ask_price_length = length-levels _ depth 0;
          bid_volume_length = length-levels _ depth 0;
          ask_volume_length = length-levels _ depth 0;
          apart = λ j k jlt klt. (
            _,
            _,
            first_level _ depth j jlt,
            first_level _ depth k klt,
            (below base_price (j + 1), above base_price (k + 1)),
          );
          bids = λ j k jk lt. (
            _,
            _,
            first_level _ depth k lt,
            first_level _ depth j (omega (arith, jk, lt)),
            order.minus_anti base_price _ _ (fifths (j + 1) (k + 1) (omega (arith, jk))),
          );
          asks = λ j k jk lt. (
            _,
            _,
            first_level _ depth j (omega (arith, jk, lt)),
            first_level _ depth k lt,
            order.plus_mono base_price _ _ (fifths (j + 1) (k + 1) (omega (arith, jk))),
          );
        }
