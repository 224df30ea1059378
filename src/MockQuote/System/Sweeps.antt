-- ===== src/MockQuote/System/Sweeps.antt =====
-- src/adapters/mock/quote/mock_quote_api.cpp: what a round of `GenerateMockTicks` delivers.
use qtrade_client.Common.{
  ℕ, String, true, some, List, [], ◌∷◌, ◌++◌, ◌≡◌, refl, ap, ◌∙◌, arith, subst,
}
use mathlib.Core.List.{append-nil}
use qtrade_client.Common.Lists.{length}
use qtrade_client.Sdk.Quote.{QuoteSdk}
use qtrade_client.MockQuote.{TickThread, looping, sweeping}
use qtrade_client.MockQuote.Ticks.{make_tick, publish, tick_move, moved}
use qtrade_client.MockQuote.System.{System, happen, run}
use qtrade_client.MockQuote.System.Stopping.{with_moves}
use qtrade_client.MockQuote.System.Receivers.{
  at_callback, at_spi, received, at_callback-++, at_spi-++, joined_up, received_nil, sinks,
}

module _ {D : Type 0} ⦃sdk : QuoteSdk D⦄ where
  -- The state behind the sweep of `is`: one tick for each at each receiver that is set.
  abbrev pub Swept : List String → (s t : System D) → Type 0
  Swept is s t =
      ((p : D) × (t.api.tick_thread ≡ sweeping p []))
      × (at_spi t.delivered ≡ at_spi s.delivered ++ received s.api.target is)
      × (at_callback t.delivered ≡ at_callback s.delivered ++ received s.api.on_tick is)

  abbrev at : TickThread D → System D → System D
  at thread s = record s { api = record s.api { tick_thread = thread } }

  sweeps :
      (is : List String) (ms : List (D × ℕ)) (s : System D) (p : D)
      → length ms ≡ length is
      → (t : System D) × (run (with_moves ms []) (at (sweeping p is) s) ≡ some t) × Swept is s t
  unfolding run happen tick_move publish make_tick
  sweeps [] [] s p same = (
    at (sweeping p []) s,
    refl,
    ((p, refl), received_nil _ s.api.target, received_nil _ s.api.on_tick),
  )
  sweeps [] (m ∷ ms) s p same = absurd (omega (arith, same))
  sweeps (i ∷ is) [] s p same = absurd (omega (arith, same))
  sweeps (i ∷ is) ((draw, now) ∷ ms) s p same =
      let out = publish s.api (make_tick (sdk.plus p draw) now i) in
      let s' = record s { delivered = s.delivered ++ out } in
      let (t, runs, (place, spi, callback)) =
        sweeps is ms s' (sdk.plus p draw) (omega (arith, same)) in
      let (to_target, to_callbacks) =
        sinks s.api.target s.api.on_tick (make_tick (sdk.plus p draw) now i) in
      (
        t,
        runs,
        (
          place,
          joined_up _ _ _ s.api.target i is
              (at_spi-++ s.delivered out ∙ ap (λ x. at_spi s.delivered ++ x) to_target) spi,
          joined_up _ _ _ s.api.on_tick i is
              (at_callback-++ s.delivered out ∙ ap (λ x. at_callback s.delivered ++ x) to_callbacks)
              callback,
        ),
      )

  -- A round that begins while the thread is to run, and that no other event comes into, gives the target of the
  -- SPI and the tick callback, where they are set, exactly one tick for each subscribed instrument, in
  -- the order of the subscription, for every draw and at every time.
  pub round_delivers :
      (s : System D) (p draw : D) (now : ℕ) (ms : List (D × ℕ))
      → s.api.tick_thread ≡ looping p
      → s.api.running ≡ true
      → length ms ≡ length s.api.instruments
      → (t : System D) × (run (with_moves ((draw, now) ∷ ms) []) s ≡ some t)
        × Swept s.api.instruments s t
  unfolding run happen tick_move
  round_delivers s p draw now ms place on same =
      let first : moved draw now s.api s.api.tick_thread ≡ (sweeping p s.api.instruments, []) =
        simp (place, on) in
      let (t, runs, swept) =
        sweeps s.api.instruments ms (record s { delivered = s.delivered ++ [] }) p same in
      let before = append-nil s.delivered in
      (
        t,
        simp first runs,
        (
          swept.0,
          subst (λ d. at_spi t.delivered ≡ at_spi d ++ received s.api.target s.api.instruments)
              before swept.1,
          subst
              (λ d.
                at_callback t.delivered ≡ at_callback d ++ received s.api.on_tick s.api.instruments)
              before swept.2,
        ),
      )
