-- ===== src/Bridge/AccountRisk/Races.antt =====
-- src/bridge/grpc_account_risk_bridge.cpp: GetAccountRiskPolicy on several threads.
use qtrade_client.Common.{
  ℕ, String, none, some, List, ◌≡◌, ◌≢◌, ◌⊎◌, inl, inr, refl, sym, subst, ◌∙◌, string_Eq, nat_Eq,
  if◌then◌else◌, Bool-cases,
}
use qtrade_client.Common.Dict.{lookup, lookup-insert}
use qtrade_client.Sdk.{Result, ResultDefaults, fresh_result, is_success, is_not_found}
use qtrade_client.Client.{ServiceConfig, Rpc}
use qtrade_client.Client.AccountRisk as client
use qtrade_client.Bridge.Cache.{fall_back, fall_back-value}
use qtrade_client.Bridge.Convert.{PolicyProto, AccountRiskPolicy, to_account_risk_policy}
use qtrade_client.Bridge.Races.{
  Answer, value_of, learned, CachedQuery, Pending, Threads, Event, fresh_threads, run,
}
use qtrade_client.Bridge.Races.Genuine.{IsGenuine, run-IsGenuine, EndsWith, last_stays}
use qtrade_client.Bridge.AccountRisk.{
  GrpcAccountRiskBridge, create, init, shutdown, settle, get_account_risk_policy,
}

-- A query: its time and account.
pub record PolicyQuery : Type 0 where
  pub now : ℕ
  pub account_id : String

module _ ⦃d : ResultDefaults⦄ (rpc : Rpc String PolicyProto) (blank : PolicyProto) where
  -- `GetAccountRiskPolicy` up to the return of the remote call,
  unfoldable pub ask : PolicyQuery → GrpcAccountRiskBridge → Answer PolicyProto
  ask q b =
      if client.is_initialized b.client
      then some (client.get_account_risk_policy rpc q.now q.account_id blank b.client)
      else none

  -- and from there on.
  unfoldable pub end_query :
      PolicyQuery
      → Answer PolicyProto
      → GrpcAccountRiskBridge
      → Result AccountRiskPolicy × GrpcAccountRiskBridge
  unfolding fall_back
  end_query q none b = (
    fall_back "account risk policy not available" (lookup q.account_id b.policy_cache)
        (fresh_result {A = AccountRiskPolicy}),
    b,
  )
  end_query q (some answer) b = settle rpc blank q.account_id b answer

  -- Without a break, the two make the whole.
  pub end_query-ask :
      (q : PolicyQuery) (b : GrpcAccountRiskBridge)
      → end_query q (ask q b) b ≡ get_account_risk_policy rpc blank q.now q.account_id b
  unfolding ask end_query get_account_risk_policy
  end_query-ask q b = elim (Bool-cases (client.is_initialized b.client)) [
    | inl e ↦ simp e
    | inr e ↦ simp e
  ]

  pub end_query-cache :
      (q : PolicyQuery) (a : Answer PolicyProto) (b : GrpcAccountRiskBridge) (k : String)
      → lookup k (end_query q a b).1.policy_cache
        ≡ learned q.account_id (value_of to_account_risk_policy a) (lookup k b.policy_cache) k
  unfolding end_query
  end_query-cache q none b k = refl
  end_query-cache q (some (rc, response)) b k = elim (Bool-cases (is_success rc)) [
    | inl e ↦ simp e (lookup-insert k q.account_id _ b.policy_cache)
    | inr e ↦ elim (Bool-cases (is_not_found rc)) [ inl n ↦ simp (e, n) | inr n ↦ simp (e, n) ]
  ]

  pub end_query-value :
      (q : PolicyQuery) (a : Answer PolicyProto) (b : GrpcAccountRiskBridge) (v : AccountRiskPolicy)
      → (end_query q a b).0.value ≡ some v
      → (value_of to_account_risk_policy a ≡ some v) ⊎ (lookup q.account_id b.policy_cache ≡ some v)
  unfolding end_query
  end_query-value q none b v = λ h. inr (sym (fall_back-value _ _ fresh_result refl) ∙ h)
  end_query-value q (some (rc, response)) b v = elim (Bool-cases (is_success rc)) [
    | inl e ↦ simp e (λ h. inl h)
    | inr e ↦ elim (Bool-cases (is_not_found rc)) [
      | inl n ↦ simp (e, n) (λ h. cc)
      | inr n ↦ simp (e, n) (λ h. inr (sym (fall_back-value _ _ _ refl) ∙ h))
    ]
  ]

-- The bridge as one with a cache.
module _ ⦃d : ResultDefaults⦄ (address : ServiceConfig → String) (rpc : Rpc String PolicyProto)
    (blank : PolicyProto) where
  unfoldable pub policy_queries :
      CachedQuery GrpcAccountRiskBridge PolicyQuery PolicyProto AccountRiskPolicy
  unfolding init shutdown
  policy_queries = record {
    account = λ q. q.account_id;
    ask = ask rpc blank;
    end_query = end_query rpc blank;
    init = λ b. (init address b).1;
    shutdown = shutdown;
    read = to_account_risk_policy;
    cache = λ b. b.policy_cache;
    end_query-cache = end_query-cache rpc blank;
    end_query-value = end_query-value rpc blank;
    init-cache = λ b. refl;
    shutdown-cache = λ b. refl;
  }

  -- However any number of threads query a new bridge and initialise it and shut it down, with the remote
  -- calls and the critical sections of the queries in any order: every policy that the bridge keeps for an
  -- account, and every policy that a query returned for it, was sent by the service before, for that
  -- account.
  pub policy_races-IsGenuine :
      (unset cfg : ServiceConfig) (es : List (Event PolicyQuery))
      (s : Threads GrpcAccountRiskBridge PolicyQuery PolicyProto AccountRiskPolicy)
      → run policy_queries es (fresh_threads policy_queries (create unset cfg)) ≡ some s
      → IsGenuine policy_queries s
  unfolding create lookup policy_queries
  policy_races-IsGenuine unset cfg es s e =
      run-IsGenuine policy_queries (create unset cfg) es s (λ a. refl) e

  -- Of two threads that hold policies for one account, the one that ends its query last decides what the cache
  -- keeps, in both orders, whichever of them asked the service first.
  pub policy_races_last_stays :
      (m n : ℕ) (o p : Pending PolicyQuery PolicyProto) (v u : AccountRiskPolicy)
      (s : Threads GrpcAccountRiskBridge PolicyQuery PolicyProto AccountRiskPolicy)
      → m ≢ n
      → o.query.account_id ≡ p.query.account_id
      → s.pending m ≡ some o
      → s.pending n ≡ some p
      → value_of to_account_risk_policy o.answer ≡ some v
      → value_of to_account_risk_policy p.answer ≡ some u
      → EndsWith policy_queries m n p.query.account_id u s
        × EndsWith policy_queries n m p.query.account_id v s
  unfolding policy_queries
  policy_races_last_stays m n o p v u s ne same at_m at_n has_v has_u = (
    last_stays policy_queries m n o p u s ne at_m at_n has_u,
    subst (λ a. EndsWith policy_queries n m a v s) same
        (last_stays policy_queries n m p o v s (λ e. ne (sym e)) at_n at_m has_v),
  )
