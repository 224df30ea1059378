-- ===== src/Bridge/Races/Genuine.antt =====
-- src/bridge: what queries on several threads return, and what the cache keeps, however their two parts
-- interleave.
use qtrade_client.Common.{
  ℕ, String, Option, none, some, List, [], ◌∷◌, ◌≡◌, ◌≢◌, inl, inr, refl, sym, subst, ap, ◌∙◌,
  string_Eq, nat_Eq, ◌==◌, Bool-cases, equals_refl, equals_ne,
}
use mathlib.Core.Option.{some-injective}
use qtrade_client.Common.Dict.{lookup}
use qtrade_client.Sdk.{Result}
use qtrade_client.MockTrader.Responses.{Listed}
use qtrade_client.Bridge.Races.{
  value_of, learned, CachedQuery, Pending, Threads, Event, asks, settles, note, fresh_threads,
  asked, after_settle, settled, happen, then_run, run,
}

module _ {V : Type 0} where
  Listed-note :
      (x : String × V) (account : String) (o : Option V) (l : List (String × V))
      → Listed x l
      → Listed x (note account o l)
  Listed-note x account none l h = h
  Listed-note x account (some p) l h = inr h

  noted :
      (account : String) (o : Option V) (v : V) (l : List (String × V))
      → o ≡ some v
      → Listed (account, v) (note account o l)
  noted account none v l e = cc
  noted account (some q) v l e = inl (ap (λ x. (account, x)) (some-injective _ _ e))

-- A property of the state behind an event that can come.
abbrev IfSome : {A : Type 0} → (A → Type 0) → Option A → Type 0
IfSome P none = Unit
IfSome P (some s) = P s

module _ {B Q P V : Type 0} (c : CachedQuery B Q P V) where
  -- Every value in the cache, in a thread's answer and in what a query returned came from the service, for that
  -- account.
  pub record IsGenuine (s : Threads B Q P V) : Type 0 where
    pub cached :
        (a : String) (v : V) → lookup a (c.cache s.bridge) ≡ some v → Listed (a, v) s.received
    pub answered :
        (n : ℕ) (p : Pending Q P) (v : V)
        → s.pending n ≡ some p
        → value_of c.read p.answer ≡ some v
        → Listed (c.account p.query, v) s.received
    pub told :
        (a : String) (r : Result V) (v : V)
        → Listed (a, r) s.returned
        → r.value ≡ some v
        → Listed (a, v) s.received

  cached-learned :
      (n : ℕ) (p : Pending Q P) (o : Option V) (s : Threads B Q P V) (a : String) (v : V)
      → IsGenuine s
      → s.pending n ≡ some p
      → value_of c.read p.answer ≡ o
      → learned (c.account p.query) o (lookup a (c.cache s.bridge)) a ≡ some v
      → Listed (a, v) s.received
  cached-learned n p none s a v g at same e = g.cached a v e
  cached-learned n p (some r) s a v g at same e = elim (Bool-cases (c.account p.query == a)) [
    | inl q ↦
        subst (λ x. Listed (x, v) s.received) ((string_Eq.equals_iff (c.account p.query) a).0 q)
          (g.answered n p v at (same ∙ simp q at e))
    | inr q ↦ g.cached a v (simp q at e)
  ]

  asked-IsGenuine :
      (n : ℕ) (q : Q) (s : Threads B Q P V) (o : Option (Pending Q P))
      → IsGenuine s
      → IfSome IsGenuine (asked c n q s o)
  asked-IsGenuine n q s (some p) g = tt
  asked-IsGenuine n q s none g =
      let answer = c.ask q s.bridge in
      let keep : (x : String × V)
          → Listed x s.received
          → Listed x (note (c.account q) (value_of c.read answer) s.received) =
        λ x. Listed-note x (c.account q) (value_of c.read answer) s.received in
      record {
        cached = λ a v e. keep _ (g.cached a v e);
        answered = λ m p v e h. elim (Bool-cases (n == m)) [
          | inl k ↦
              subst
                (λ r.
                  value_of c.read r.answer ≡ some v
                  → Listed (c.account r.query, v)
                      (note (c.account q) (value_of c.read answer) s.received))
                (some-injective _ _ (simp k at e)) (noted (c.account q) _ v s.received) h
          | inr k ↦ keep _ (g.answered m p v (simp k at e) h)
        ];
        told = λ a r v l e. keep _ (g.told a r v l e);
      }

  settled-IsGenuine :
      (n : ℕ) (s : Threads B Q P V) (o : Option (Pending Q P))
      → s.pending n ≡ o
      → IsGenuine s
      → IfSome IsGenuine (settled c n s o)
  settled-IsGenuine n s none at g = tt
  settled-IsGenuine n s (some p) at g = record {
    cached = λ a v e.
        cached-learned n p (value_of c.read p.answer) s a v g at refl
          (sym (c.end_query-cache p.query p.answer s.bridge a) ∙ e);
    answered = λ m r v e h. elim (Bool-cases (n == m)) [
      | inl k ↦ cc (simp k at e)
      | inr k ↦ g.answered m r v (simp k at e) h
    ];
    told = λ a r v l e. elim l [
      | inl k ↦
          subst (λ x. x.1.value ≡ some v → Listed (x.0, v) s.received) k
            (λ h. elim (c.end_query-value p.query p.answer s.bridge v h) [
              | inl new ↦ g.answered n p v at new
              | inr old ↦ g.cached (c.account p.query) v old
            ])
            e
      | inr k ↦ g.told a r v k e
    ];
  }

  happen-IsGenuine :
      (e : Event Q) (s : Threads B Q P V) → IsGenuine s → IfSome IsGenuine (happen c e s)
  unfolding happen
  happen-IsGenuine (asks n q) s g = asked-IsGenuine n q s (s.pending n) g
  happen-IsGenuine (settles n) s g = settled-IsGenuine n s (s.pending n) refl g
  happen-IsGenuine Event.inits s g = record {
    cached = λ a v e. g.cached a v (ap (lookup a) (sym (c.init-cache s.bridge)) ∙ e);
    answered = g.answered;
    told = g.told;
  }
  happen-IsGenuine Event.shuts_down s g = record {
    cached = λ a v e. g.cached a v (ap (lookup a) (sym (c.shutdown-cache s.bridge)) ∙ e);
    answered = g.answered;
    told = g.told;
  }

  then_run-IfSome :
      (f : Threads B Q P V → Option (Threads B Q P V)) (o : Option (Threads B Q P V))
      → IfSome IsGenuine o
      → ((s : Threads B Q P V) → IsGenuine s → IfSome IsGenuine (f s))
      → IfSome IsGenuine (then_run c f o)
  then_run-IfSome f none g h = tt
  then_run-IfSome f (some s) g h = h s g

  run-IfSome :
      (es : List (Event Q)) (s : Threads B Q P V) → IsGenuine s → IfSome IsGenuine (run c es s)
  unfolding run
  run-IfSome [] s g = g
  run-IfSome (e ∷ es) s g =
      then_run-IfSome (run c es) (happen c e s) (happen-IsGenuine e s g) (run-IfSome es)

  -- From a bridge with an empty cache on, every state that the threads reach is genuine.
  pub run-IsGenuine :
      (b : B) (es : List (Event Q)) (s : Threads B Q P V)
      → ((a : String) → lookup a (c.cache b) ≡ none)
      → run c es (fresh_threads c b) ≡ some s
      → IsGenuine s
  run-IsGenuine b es s empty e = subst (IfSome IsGenuine) e (
      run-IfSome es (fresh_threads c b) (record {
        cached = λ a v h. cc (empty a);
        answered = λ n p v h. cc;
        told = λ a r v l. absurd l;
      }))

  -- Two queries end one after the other.
  abbrev pub EndsWith : (first last : ℕ) → String → V → Threads B Q P V → Type 0
  EndsWith first last account v s =
      (t : Threads B Q P V) × (run c (settles first ∷ settles last ∷ []) s ≡ some t)
      × (lookup account (c.cache t.bridge) ≡ some v)

  -- The one that ends last decides what the cache keeps.
  pub last_stays :
      (m n : ℕ) (o p : Pending Q P) (v : V) (s : Threads B Q P V)
      → m ≢ n
      → s.pending m ≡ some o
      → s.pending n ≡ some p
      → value_of c.read p.answer ≡ some v
      → EndsWith m n (c.account p.query) v s
  unfolding run happen
  last_stays m n o p v s ne at_m at_n has =
      let s₁ = after_settle c m o s in
      (
        after_settle c n p s₁,
        simp (at_m, equals_ne m n ne, at_n),
        c.end_query-cache p.query p.answer s₁.bridge (c.account p.query) ∙ simp (has, equals_refl),
      )
