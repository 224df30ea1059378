-- ===== src/MockQuote/System/Destroying.antt =====
-- src/adapters/mock/quote/mock_quote_api.cpp: the destructor, which must neither end the program nor wait
-- forever.
use qtrade_client.Common.{
  ℕ, ◌≤◌, Bool, true, false, some, List, [], ◌∷◌, ◌≡◌, ◌⊎◌, inl, inr, refl, sym, ap, ◌∙◌, subst,
  Bool-cases, not, if◌then◌else◌,
}
use qtrade_client.Common.Lists.{length}
use qtrade_client.Sdk.Quote.{ConnectRequest, QuoteSdk}
use qtrade_client.MockQuote.{
  MockQuoteApi, TickThread, absent, finished, looping, sleeping, sweeping, returns, waits, user,
  stop, join, joined, after_join, disconnect, drop_thread, destroy, then_drop,
}
use qtrade_client.MockQuote.System.{
  free, joining, System, Event, calls, disconnects, joins, start, perform, happen, happen_at,
  then_run, run,
}
use qtrade_client.MockQuote.System.Lifecycle.{Fits, run-IsSound, unjoined, stop-Fits}
use qtrade_client.MockQuote.System.Stopping.{with_moves, moves_left, drains}

module _ {D : Type 0} ⦃sdk : QuoteSdk D⦄ where
  -- Destroying a connected adapter: it waits for the tick thread, and once that has made its last moves,
  -- the rest of the destructor returns.
  abbrev pub DestroyedAfter : List (D × ℕ) → System D → Type 0
  DestroyedAfter ms s =
      (t : System D) × (run (calls disconnects ∷ with_moves ms (joins ∷ [])) s ≡ some t)
      × (drop_thread t.api ≡ returns tt)

  destroy_waits :
      (s t : MockQuoteApi D) (thread : TickThread D) (connected running : Bool)
      → Fits free thread connected running
      → connected ≡ true
      → then_drop (if not connected then returns s else after_join (joined user t thread)) ≡ waits
  destroy_waits s t absent connected r v c = cc
  destroy_waits s t finished connected r v c = elim v [ ]
  destroy_waits s t (looping p) connected r v c = simp c
  destroy_waits s t (sleeping p) connected r v c = simp c
  destroy_waits s t (sweeping p is) connected r v c = simp c

  destroyed_after :
      (ms : List (D × ℕ)) (s : System D)
      → s.place ≡ free
      → Fits free s.api.tick_thread s.api.connected s.api.running
      → s.api.connected ≡ true
      → moves_left s.api.tick_thread ≤ length ms
      → DestroyedAfter ms s
  unfolding run happen perform stop drop_thread
  destroyed_after ms s at v c le =
      let s₁ : System D = record s { api = stop s.api; place = joining } in
      let (t, runs, done) =
        drains ms s₁ refl
          (subst (λ b. Fits joining s.api.tick_thread b false) (sym c) (stop-Fits _ _ _ v c)) le in
      let begins : happen (calls disconnects) s ≡ some s₁ =
        ap (λ p. happen_at p (calls disconnects) s) at
        ∙ ap (λ b. some (if not b then s else s₁)) c in
      (t, ap (then_run (run (with_moves ms (joins ∷ [])))) begins ∙ runs, simp done.tick_thread)

  -- In every state that the two threads reach with no call under way: if the adapter is not connected, its
  -- destructor returns at once. If it is connected, the destructor waits; and once the tick thread has made
  -- the moves that it has left, with any draws and at any times, the destructor comes to its end, without a
  -- joinable thread.
  pub destroy_returns :
      (blank : ConnectRequest) (es : List (Event D)) (s : System D) (ms : List (D × ℕ))
      → run es (start blank) ≡ some s
      → s.place ≡ free
      → moves_left s.api.tick_thread ≤ length ms
      → ((s.api.connected ≡ false) × (destroy user s.api ≡ returns tt))
        ⊎ ((s.api.connected ≡ true) × (destroy user s.api ≡ waits) × DestroyedAfter ms s)
  unfolding destroy disconnect drop_thread join stop
  destroy_returns blank es s ms e at le =
      let sound = run-IsSound blank es s e in
      let fits =
        subst (λ p. Fits p s.api.tick_thread s.api.connected s.api.running) at sound.lifecycle in
      elim (Bool-cases s.api.connected) [
        | inl c ↦ inr (
          c,
          destroy_waits s.api (stop s.api) s.api.tick_thread _ _ fits c,
          destroyed_after ms s at fits c le,
        )
        | inr c ↦ inl (c, simp (c, unjoined s.api.tick_thread _ _ fits c))
      ]
