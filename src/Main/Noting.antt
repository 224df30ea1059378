-- ===== src/Main/Noting.antt =====
-- src/main.cpp: an engine that notes what happens to it, and what the parts of `main` let it note.
use qtrade_client.Common.{
  String, is_empty, Bool, true, false, Option, none, some, List, [], ◌∷◌, ◌++◌, ◌≡◌, refl, sym, ap,
  ◌∙◌, if◌then◌else◌, Bool-cases, inl, inr,
}
use mathlib.Core.List.{append_assoc, append-nil}
use qtrade_client.Sdk.{ErrorCode, ResultDefaults, is_success}
use qtrade_client.Sdk.Quote as quote
use qtrade_client.Client.{ServiceConfig}
use qtrade_client.MockQuote.{Outcome}
use qtrade_client.Bridge.Convert.{EngineConfig}
use qtrade_client.Bridge.Strategy.{StrategyConfig}
use qtrade_client.Bridge.Account.{GrpcAccountBridge}
use qtrade_client.Bridge.Config.{AdapterLaunchParams}
use qtrade_client.Bootstrap.Strategies.{add_all, load_strategies, default_plugin_so_path}
use qtrade_client.Main.Adapters.{AnyQuote, AnyTrader, Adapters}
use qtrade_client.Main.Building.{mock_address, connected_mocks, made}
use qtrade_client.Main.Parts.{
  Exit, goes_on, fails, crashes, hangs, ◌>>=◌, check, Process, Engine, Services,
}
use qtrade_client.Main.Startup.{open_account, open_account_risk, give}

pub >>=-goes_on :
    {A B : Type 0} (m : Exit A) (f : A → Exit B) {b : B}
    → (m >>= f) ≡ goes_on b
    → (a : A) × (m ≡ goes_on a) × (f a ≡ goes_on b)
>>=-goes_on (goes_on a) f e = (a, refl, e)
>>=-goes_on (fails report) f e = cc
>>=-goes_on crashes f e = cc
>>=-goes_on hangs f e = cc

abbrev or_else : {A : Type 0} → A → Exit A → A
or_else d (goes_on a) = a
or_else d _ = d

pub goes_on-injective : {A : Type 0} (a b : A) → goes_on a ≡ goes_on b → a ≡ b
goes_on-injective a b e = ap (or_else a) e

pub check-goes_on :
    {A : Type 0} (ok : Bool) (report : String) (a b : A)
    → check ok report a ≡ goes_on b
    → (ok ≡ true) × (a ≡ b)
unfolding check
check-goes_on true report a b e = (refl, goes_on-injective a b e)
check-goes_on false report a b e = cc

-- What happens to an engine.
pub data Action (D : Type 0) : Type 0 where
  gets_account_bridge gets_account_risk_bridge starts stops : Action D
  gets_quote_api : AnyQuote D → Action D
  gets_trader_api : AnyTrader D → Action D
  inits : EngineConfig → Action D
  adds_strategy : StrategyConfig → String → Action D

abbrev pub Log : Type 0 → Type 0
Log D = List (Action D)

abbrev pub note : {D : Type 0} → Action D → Process (Log D) → Process (Log D)
note a p = record p { engine = p.engine ++ (a ∷ []) }

-- An engine that notes what happens to it and answers as `answers` says.
abbrev pub noting : {D : Type 0} → (Action D → ErrorCode) → Engine (Log D) D
noting answers = record {
  create = [];
  set_account_bridge = λ log. log ++ (gets_account_bridge ∷ []);
  set_account_risk_bridge = λ log. log ++ (gets_account_risk_bridge ∷ []);
  set_quote_api = λ q log. log ++ (gets_quote_api q ∷ []);
  set_trader_api = λ t log. log ++ (gets_trader_api t ∷ []);
  init = λ cfg p. (answers (inits cfg), note (inits cfg) p);
  add_strategy = λ c path p. (answers (adds_strategy c path), note (adds_strategy c path) p);
  start = λ p. (answers starts, note starts p);
  stop = λ p. (answers stops, note stops p);
}

abbrev pub if_enabled : {D : Type 0} → Bool → Action D → Log D
if_enabled true a = a ∷ []
if_enabled false a = []

-- Every strategy with its path.
abbrev pub added : {D : Type 0} → (String → String → String) → String → List StrategyConfig → Log D
added join dir [] = []
added join dir (c ∷ cs) =
    adds_strategy c (default_plugin_so_path join dir c.strategy_name) ∷ added join dir cs

-- A part that notes an action, if something is enabled.
opens :
    {A D : Type 0} (enabled : Bool) (a : Action D) (m : Exit A) (f : A → Process (Log D))
    (p q : Process (Log D))
    → ((x : A) → (f x).engine ≡ p.engine ++ (a ∷ []))
    → (if enabled then m >>= (λ x. goes_on (f x)) else goes_on p) ≡ goes_on q
    → q.engine ≡ p.engine ++ if_enabled enabled a
opens true a m f p q step e =
    let (x, made, rest) = >>=-goes_on m _ e in
    sym (ap (λ t. t.engine) (goes_on-injective (f x) q rest)) ∙ step x
opens false a m f p q step e =
    sym (ap (λ t. t.engine) (goes_on-injective p q e)) ∙ sym (append-nil p.engine)

module _ {D : Type 0} (answers : Action D → ErrorCode) where
  add_all-added :
      (join : String → String → String) (dir : String) (cs : List StrategyConfig)
      (p : Process (Log D))
      → (add_all join (noting answers).add_strategy dir cs p).0 ≡ true
      → (add_all join (noting answers).add_strategy dir cs p).1.engine
        ≡ p.engine ++ added join dir cs
  unfolding add_all
  add_all-added join dir [] p e = sym (append-nil p.engine)
  add_all-added join dir (c ∷ cs) p e =
      let a = adds_strategy c (default_plugin_so_path join dir c.strategy_name) in
      elim (Bool-cases (is_success (answers a))) [
        | inl ok ↦ simp ok (
            add_all-added join dir cs (note a p) (simp ok at e)
            ∙ append_assoc p.engine (a ∷ []) (added join dir cs))
        | inr bad ↦ cc (simp bad at e)
      ]

  pub load_strategies-added :
      (join : String → String → String) (dir : String) (cs : List StrategyConfig)
      (p : Process (Log D))
      → (load_strategies join (noting answers).add_strategy dir cs p).0 ≡ true
      → (load_strategies join (noting answers).add_strategy dir cs p).1.engine
        ≡ p.engine ++ added join dir cs
  unfolding load_strategies
  load_strategies-added join dir cs p e = elim (Bool-cases (is_empty dir)) [
    | inl q ↦ cc (simp q at e)
    | inr q ↦ simp q (add_all-added join dir cs p (simp q at e))
  ]

  module _ ⦃d : ResultDefaults⦄ ⦃sdk : quote.QuoteSdk D⦄ (v : Services) where
    pub open_account-notes :
        (service : ServiceConfig) (p q : Process (Log D))
        → open_account v (noting answers) service p ≡ goes_on q
        → q.engine ≡ p.engine ++ if_enabled service.enabled gets_account_bridge
    unfolding open_account
    open_account-notes service p q e =
        opens service.enabled gets_account_bridge _ _ p q (λ bridge. refl) e

    pub open_account_risk-notes :
        (service : ServiceConfig) (p q : Process (Log D))
        → open_account_risk v (noting answers) service p ≡ goes_on q
        → q.engine ≡ p.engine ++ if_enabled service.enabled gets_account_risk_bridge
    unfolding open_account_risk
    open_account_risk-notes service p q e =
        opens service.enabled gets_account_risk_bridge _ _ p q (λ bridge. refl) e

    abbrev pub given : Adapters D → Log D
    given a = gets_quote_api a.quote_api ∷ gets_trader_api a.trader_api ∷ []

    -- The mocks for an address, in the hands of the engine.
    abbrev pub GivesMocks : Option AdapterLaunchParams → (p q : Process (Log D)) → Type 0
    GivesMocks params p q =
        (conn : String) × (mock_address params ≡ some conn)
        × (q.engine
            ≡ p.engine
              ++ given (
                  connected_mocks v.quote_request v.trader_request v.get_credential v.no_credential
                    v.credential_time conn))

    pub give-notes :
        (params : Option AdapterLaunchParams) (address : Option String) (p q : Process (Log D))
        (outcome : Outcome (Option (Adapters D))) (bridge : Option GrpcAccountBridge)
        → mock_address params ≡ address
        → outcome
          ≡ made v.quote_request v.trader_request v.get_credential v.no_credential v.credential_time
              address
        → give v (noting answers) p (outcome, bridge) ≡ goes_on q
        → GivesMocks params p q
    give-notes params none p q outcome bridge same m e = cc (simp m at e)
    give-notes params (some conn) p q outcome bridge same m e = (
      conn,
      same,
      sym (ap (λ t. t.engine) (goes_on-injective _ q (simp m at e))) ∙ append_assoc p.engine _ _,
    )
