-- ===== src/Bridge/Account/Races.antt =====
-- src/bridge/grpc_account_bridge.cpp: GetCredential on several threads.
use qtrade_client.Common.{
  ℕ, String, none, some, List, ◌≡◌, ◌⊎◌, inl, inr, refl, sym, ◌∙◌, string_Eq, nat_Eq, if◌then◌else◌,
  Bool-cases,
}
use qtrade_client.Common.Dict.{lookup, lookup-insert}
use qtrade_client.Sdk.{Result, ResultDefaults, fresh_result, is_success}
use qtrade_client.Client.{ServiceConfig, Rpc}
use qtrade_client.Client.Account as client
use qtrade_client.Bridge.Cache.{fall_back, fall_back-value}
use qtrade_client.Bridge.Convert.{CredentialProto, CredentialMaterial, to_credential_material}
use qtrade_client.Bridge.Races.{
  Answer, value_of, learned, CachedQuery, Threads, Event, fresh_threads, run,
}
use qtrade_client.Bridge.Races.Genuine.{IsGenuine, run-IsGenuine}
use qtrade_client.Bridge.Account.{
  GetCredentialRequest, GrpcAccountBridge, create, init, shutdown, settle, get_credential,
}

-- A query: its time, account and engine.
pub record CredentialQuery : Type 0 where
  pub now : ℕ
  pub account_id : String
  pub engine_id : String

module _ ⦃d : ResultDefaults⦄ (rpc : Rpc GetCredentialRequest CredentialProto)
    (blank : CredentialProto) where
  -- `GetCredential` up to the return of the remote call,
  unfoldable pub ask : CredentialQuery → GrpcAccountBridge → Answer CredentialProto
  ask q b =
      if client.is_initialized b.client
      then some (
          client.get_credential rpc q.now
            (record { account_id = q.account_id; engine_id = q.engine_id }) blank b.client)
      else none

  -- and from there on.
  unfoldable pub end_query :
      CredentialQuery
      → Answer CredentialProto
      → GrpcAccountBridge
      → Result CredentialMaterial × GrpcAccountBridge
  unfolding fall_back
  end_query q none b = (
    fall_back "credential not available" (lookup q.account_id b.cache)
        (fresh_result {A = CredentialMaterial}),
    b,
  )
  end_query q (some answer) b = settle rpc blank q.account_id b answer

  -- Without a break, the two make the whole.
  pub end_query-ask :
      (q : CredentialQuery) (b : GrpcAccountBridge)
      → end_query q (ask q b) b ≡ get_credential rpc blank q.now q.account_id q.engine_id b
  unfolding ask end_query get_credential
  end_query-ask q b = elim (Bool-cases (client.is_initialized b.client)) [
    | inl e ↦ simp e
    | inr e ↦ simp e
  ]

  pub end_query-cache :
      (q : CredentialQuery) (a : Answer CredentialProto) (b : GrpcAccountBridge) (k : String)
      → lookup k (end_query q a b).1.cache
        ≡ learned q.account_id (value_of to_credential_material a) (lookup k b.cache) k
  unfolding end_query
  end_query-cache q none b k = refl
  end_query-cache q (some (rc, response)) b k = elim (Bool-cases (is_success rc)) [
    | inl e ↦ simp e (lookup-insert k q.account_id _ b.cache)
    | inr e ↦ simp e
  ]

  pub end_query-value :
      (q : CredentialQuery) (a : Answer CredentialProto) (b : GrpcAccountBridge)
      (v : CredentialMaterial)
      → (end_query q a b).0.value ≡ some v
      → (value_of to_credential_material a ≡ some v) ⊎ (lookup q.account_id b.cache ≡ some v)
  unfolding end_query
  end_query-value q none b v = λ h. inr (sym (fall_back-value _ _ fresh_result refl) ∙ h)
  end_query-value q (some (rc, response)) b v = elim (Bool-cases (is_success rc)) [
    | inl e ↦ simp e (λ h. inl h)
    | inr e ↦ simp e (λ h. inr (sym (fall_back-value _ _ _ refl) ∙ h))
  ]

-- The bridge as one with a cache.
module _ ⦃d : ResultDefaults⦄ (address : ServiceConfig → String)
    (rpc : Rpc GetCredentialRequest CredentialProto) (blank : CredentialProto) where
  unfoldable pub credential_queries :
      CachedQuery GrpcAccountBridge CredentialQuery CredentialProto CredentialMaterial
  unfolding init shutdown
  credential_queries = record {
    account = λ q. q.account_id;
    ask = ask rpc blank;
    end_query = end_query rpc blank;
    init = λ b. (init address b).1;
    shutdown = shutdown;
    read = to_credential_material;
    cache = λ b. b.cache;
    end_query-cache = end_query-cache rpc blank;
    end_query-value = end_query-value rpc blank;
    init-cache = λ b. refl;
    shutdown-cache = λ b. refl;
  }

  -- However any number of threads query a new bridge and initialise it and shut it down, with the remote
  -- calls and the critical sections of the queries in any order: every credential that the bridge keeps for
  -- an account, and every credential that a query returned for it, was sent by the service before, for that
  -- account.
  pub credential_races-IsGenuine :
      (unset cfg : ServiceConfig) (es : List (Event CredentialQuery))
      (s : Threads GrpcAccountBridge CredentialQuery CredentialProto CredentialMaterial)
      → run credential_queries es (fresh_threads credential_queries (create unset cfg)) ≡ some s
      → IsGenuine credential_queries s
  unfolding create lookup credential_queries
  credential_races-IsGenuine unset cfg es s e =
      run-IsGenuine credential_queries (create unset cfg) es s (λ a. refl) e
