-- ===== src/MockQuote/Requests.antt =====
-- src/adapters/mock/quote/mock_quote_api.cpp: the requests that answer with a number and do nothing.
-- Exchanges and kinds of tickers are numbers.
use qtrade_client.Common.{ℕ, String, List}
use qtrade_client.Common.Int.{ℤ, negsuc}
use qtrade_client.MockQuote.{MockQuoteApi}

module _ {D : Type 0} where
  unfoldable pub set_thread_affinity : ℤ → ℤ → MockQuoteApi D → MockQuoteApi D
  set_thread_affinity recv_cpu_no process_cpu_no s = s

  unfoldable pub rebuild_sz_data : ℕ → ℕ → ℕ → ℕ → MockQuoteApi D → ℤ
  rebuild_sz_data channel_no begin_seq end_seq request_id s = negsuc 0

  unfoldable pub subscribe_all_index_data : ℕ → MockQuoteApi D → ℤ
  subscribe_all_index_data exchange_id s = negsuc 0

  unfoldable pub unsubscribe_all_index_data : ℕ → MockQuoteApi D → ℤ
  unsubscribe_all_index_data exchange_id s = negsuc 0

  unfoldable pub subscribe_index_data : List String → ℕ → MockQuoteApi D → ℤ
  subscribe_index_data tickers exchange_id s = negsuc 0

  unfoldable pub unsubscribe_index_data : List String → ℕ → MockQuoteApi D → ℤ
  unsubscribe_index_data tickers exchange_id s = negsuc 0

  unfoldable pub subscribe_all_market_data : ℕ → MockQuoteApi D → ℤ
  subscribe_all_market_data exchange_id s = negsuc 0

  unfoldable pub unsubscribe_all_market_data : ℕ → MockQuoteApi D → ℤ
  unsubscribe_all_market_data exchange_id s = negsuc 0

  unfoldable pub subscribe_market_data : List String → ℕ → MockQuoteApi D → ℤ
  subscribe_market_data tickers exchange_id s = negsuc 0

  unfoldable pub unsubscribe_market_data : List String → ℕ → MockQuoteApi D → ℤ
  unsubscribe_market_data tickers exchange_id s = negsuc 0

  unfoldable pub query_all_tickers : ℕ → MockQuoteApi D → ℤ
  query_all_tickers exchange_id s = negsuc 0

  unfoldable pub query_all_tickers_full_info : ℕ → MockQuoteApi D → ℤ
  query_all_tickers_full_info exchange_id s = negsuc 0

  unfoldable pub query_latest_info : List String → ℕ → ℕ → MockQuoteApi D → ℤ
  query_latest_info tickers ticker_type exchange_id s = negsuc 0

  unfoldable pub query_tickers_price_info : List String → ℕ → MockQuoteApi D → ℤ
  query_tickers_price_info tickers exchange_id s = negsuc 0
