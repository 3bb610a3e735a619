-- ===== src/Setup.antt =====
-- internal/engine/config_validate.go and New of engine.go: the defaults of a configuration, and what
-- it has to hold. A port is there or not; a provider and a source of tools are of any type, so that
-- the decorators of the host can wrap them.
pub mod Checks
mod Tests
use ia_harness.Base.{
  ℤ, pos, String, str_eq, Bool, true, false, not, ◌&&◌, ◌||◌, Option, none, some, List, [], ◌∷◌,
  Assoc, lookup, map, leb_ℤ, any, is_empty, if◌then◌else◌, Result, ok, failed,
}
use ia_harness.Core.Config.{AgentSpec, ModelProfile, SemanticCacheConfig}
use ia_harness.Cost.{Pricing, default_bytes_per_token}
use ia_harness.Cache.{defaults}
use ia_harness.Route.{Registry}

pub data ContextStrategy : Type 0 where
  unset truncate_oldest summarize : ContextStrategy
  unknown : String → ContextStrategy

pub record Config (X S : Type 0) : Type 0 where
  pub providers : Assoc (Option X)
  pub tools : List (Option S)
  pub models : Assoc ModelProfile
  pub default_model : String
  pub agents : Assoc AgentSpec
  pub provider_middleware : List (X → X)
  pub tool_middleware : List (S → S)
  pub strategy : ContextStrategy
  pub pricing : Pricing
  pub max_field_bytes : ℤ
  pub tool_result_max_bytes : ℤ
  pub max_agent_depth : ℤ
  pub cache : SemanticCacheConfig
  pub has_cache_store : Bool
  pub has_embedder : Bool
  pub has_clock : Bool
  pub has_audit : Bool
  pub has_tracer : Bool
  pub has_waiter : Bool
  pub has_credentials : Bool
  pub has_sessions : Bool
  pub has_logger : Bool

pub data SetupError : Type 0 where
  no_providers null_provider null_source unknown_provider unknown_default : SetupError
  unknown_agent_model no_credentials no_sessions no_logger : SetupError

abbrev pub or_if_positive : ℤ → ℤ → ℤ
or_if_positive n default = if leb_ℤ n (pos 0) then default else n

abbrev pub default_tool_result_max_bytes : ℤ
default_tool_result_max_bytes = pos 32768

abbrev pub default_max_field_bytes : ℤ
default_max_field_bytes = pos 16384

-- Decorators in their order: the last one is the outermost.
abbrev pub wrapped {ℓ} : {A : Type ℓ} → List (A → A) → A → A
wrapped [] x = x
wrapped (mw ∷ mws) x = wrapped mws (mw x)

abbrev pub wrap_some {ℓ} : {A : Type ℓ} → List (A → A) → Option A → Option A
wrap_some mws none = none
wrap_some mws (some x) = some (wrapped mws x)

abbrev pub priced : Pricing → Pricing
priced p =
    if leb_ℤ p.bytes_per_token.num (pos 0)
    then record p { bytes_per_token = default_bytes_per_token }
    else p

abbrev pub or_truncate : ContextStrategy → ContextStrategy
or_truncate ContextStrategy.unset = ContextStrategy.truncate_oldest
or_truncate strategy = strategy

-- The cache needs a store and an embedder.
abbrev pub backed : SemanticCacheConfig → Bool → Bool → SemanticCacheConfig
backed cache store embedder = record cache { enabled = cache.enabled && store && embedder }

abbrev pub is_null {ℓ} : {A : Type ℓ} → Option A → Bool
is_null none = true
is_null (some x) = false

abbrev pub is_key {ℓ} : {V : Type ℓ} → Assoc V → String → Bool
is_key entries name = any (λ e. str_eq e.0 name) entries

-- Each test returns early.
unfoldable pub first_failing : List (Bool × SetupError) → Option SetupError
first_failing [] = none
first_failing ((fails, x) ∷ rest) =
    let later = first_failing rest in if fails then some x else later

module _ {X S : Type 0} where
  unfoldable pub apply_middleware : Config X S → Config X S
  apply_middleware c = record c {
    providers =
        map (λ (p : String × Option X). (p.0, wrap_some c.provider_middleware p.1)) c.providers;
    tools = map (wrap_some c.tool_middleware) c.tools;
  }

  unfoldable pub apply_defaults : Config X S → Config X S
  unfolding apply_middleware defaults
  apply_defaults c = apply_middleware (record c {
    strategy = or_truncate c.strategy;
    pricing = priced c.pricing;
    max_field_bytes = or_if_positive c.max_field_bytes default_max_field_bytes;
    tool_result_max_bytes = or_if_positive c.tool_result_max_bytes default_tool_result_max_bytes;
    max_agent_depth = or_if_positive c.max_agent_depth (pos 1);
    cache = backed (defaults c.cache) c.has_cache_store c.has_embedder;
    has_clock = true;
    has_audit = true;
    has_tracer = true;
    has_waiter = true;
  })

  abbrev pub orphan_model : Config X S → String × ModelProfile → Bool
  orphan_model c m = not (is_key c.providers m.1.provider)

  abbrev pub orphan_agent : Config X S → String × AgentSpec → Bool
  orphan_agent c a = if str_eq a.1.model "" then false else not (is_key c.models a.1.model)

  -- The checks in their order; a test that holds gives its error.
  abbrev pub checks : Config X S → List (Bool × SetupError)
  checks c =
      (is_empty c.providers, no_providers)
      ∷ (any (λ p. is_null p.1) c.providers, null_provider)
      ∷ (any is_null c.tools, null_source)
      ∷ (any (orphan_model c) c.models, unknown_provider)
      ∷ (not (str_eq c.default_model "") && not (is_key c.models c.default_model), unknown_default)
      ∷ (any (orphan_agent c) c.agents, unknown_agent_model)
      ∷ (not c.has_credentials, no_credentials)
      ∷ (not c.has_sessions, no_sessions)
      ∷ (not c.has_logger, no_logger)
      ∷ []

  unfoldable pub validate : Config X S → Option SetupError
  unfolding first_failing
  validate c = first_failing (checks c)

  -- What `New` keeps of the configuration, or the error.
  unfoldable pub new : Config X S → Result SetupError (Config X S)
  unfolding apply_defaults validate
  new c = elim (validate (apply_defaults c)) [ some x ↦ failed x | none ↦ ok (apply_defaults c) ]

  abbrev pub registry_of : Config X S → Registry
  registry_of c = record {
    models = c.models;
    providers = map (λ (p : String × Option X). p.0) c.providers;
    default_model = c.default_model;
  }
