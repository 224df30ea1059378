-- ===== src/MockTrader/IdentifierTests.antt =====
-- The identifiers that the mock trader gives out, and the order of its table, at concrete inputs.
use qtrade_client.Common.{
  ℕ, String, map, none, some, List, [], ◌∷◌, ◌≡◌, refl, arith, nat_Eq, string_Eq,
}
use qtrade_client.Common.Int.{pos}
use qtrade_client.Sdk.{ErrorCode}
use qtrade_client.MockTrader.{MockTraderApi}
use qtrade_client.MockTrader.Orders.{
  send_order, accept_order, make_trade, new_order, new_trade, chosen_id, counter_after, to_string,
}
use qtrade_client.Common.Dict.{lookup}
use qtrade_client.MockTrader.Identifiers.{
  HoldsRequest, AllSent, send_all, send_all-AllSent, send_order_collides,
}
use qtrade_client.MockTrader.Examples.{whole_prices, Log, noting, noting-IsSilent, ready, bid, ask}
use qtrade_client.MockTrader.Steps.{accepted, traded}
use qtrade_client.MockTrader.Numbering.{from, trade_text, none_yet, hands, Handing-Consecutive}
use qtrade_client.MockTrader.Threads.{Threads, has_stored, both_read, run, threads_share_id}

send_all-AllSent_example :
    AllSent
      (bid 0 (pos 1) ∷ ask 0 (pos 2) ∷ [])
      ready
      (send_all noting (bid 0 (pos 1) ∷ ask 0 (pos 2) ∷ []) ready [])
send_all-AllSent_example =
    send_all-AllSent noting noting-IsSilent (bid 0 (pos 1) ∷ ask 0 (pos 2) ∷ []) ready [] refl
      (refl, (refl, tt)) (omega arith)

send_order_collides_example :
    (s₁ s₂ : MockTraderApi ℕ) × (w₁ w₂ : Log) × (send_order noting (bid 1 (pos 1)) ready []
      ≡ some (ErrorCode.success, s₁, w₁))
    × HoldsRequest 1 (bid 1 (pos 1)) s₁
    × (send_order noting (ask 0 (pos 2)) s₁ w₁ ≡ some (ErrorCode.success, s₂, w₂))
    × HoldsRequest 1 (ask 0 (pos 2)) s₂
send_order_collides_example =
    send_order_collides noting noting-IsSilent (bid 1 (pos 1)) (ask 0 (pos 2)) ready [] refl refl
      (omega arith) refl

-- Two orders, the first with its trade in between, and one under an id of its own.
abbrev with_bid : MockTraderApi ℕ
unfolding accept_order
with_bid = (accept_order (bid 0 (pos 5)) ready).1

abbrev with_trade : MockTraderApi ℕ
unfolding make_trade with_bid
with_trade = (make_trade (bid 0 (pos 5)) 1 with_bid).1

abbrev with_nine : MockTraderApi ℕ
unfolding accept_order with_trade
with_nine = (accept_order (ask 9 (pos 1)) with_trade).1

abbrev with_ask : MockTraderApi ℕ
unfolding accept_order with_nine
with_ask = (accept_order (ask 0 (pos 2)) with_nine).1

Handing-Consecutive_example :
    (Path (List ℕ) (1 ∷ 2 ∷ []) (from 1 2))
    × (Path (List String) ("MOCK-TRADE-1" ∷ []) (map trade_text (from 1 1)))
unfolding with_bid with_trade with_nine with_ask accept_order make_trade new_order new_trade
    chosen_id counter_after to_string
Handing-Consecutive_example =
    Handing-Consecutive ready with_ask (1 ∷ 2 ∷ []) ("MOCK-TRADE-1" ∷ [])
      (hands
        (hands
          (hands (hands none_yet (accepted (bid 0 (pos 5)) refl)) (traded (bid 0 (pos 5)) 1 refl))
          (accepted (ask 9 (pos 1)) refl))
        (accepted (ask 0 (pos 2)) refl))
      (omega arith) (omega arith)

abbrev idle : Threads ℕ
idle = record { api = ready; places = λ n. none }

threads_share_id_example :
    (t : Threads ℕ) × (run (both_read 1 2 (bid 0 (pos 5)) (ask 0 (pos 2))) idle ≡ some t)
    × (t.places 1 ≡ some (has_stored (bid 0 (pos 5)) 1))
    × (t.places 2 ≡ some (has_stored (ask 0 (pos 2)) 1))
    × (lookup 1 t.api.orders ≡ some (new_order (ask 0 (pos 2)) 1))
    × (t.api.next_broker_order_id ≡ 2)
threads_share_id_example =
    threads_share_id 1 2 (bid 0 (pos 5)) (ask 0 (pos 2)) idle (omega arith) refl refl
