-- ===== src/Setup/Tests.antt =====
-- A configuration and its checks.
use ia_harness.Base.{pos, String, ◌≡◌, ◌≢◌, refl, true, false, some, [], ◌∷◌, All, ok, ℕ}
use ia_harness.Core.Config.{AgentSpec}
use ia_harness.Turn.Sample.{profile}
use ia_harness.Cache.{defaults}
use ia_harness.Setup.{
  Config, ContextStrategy, registry_of, is_key, apply_middleware, apply_defaults, first_failing,
  validate, new,
}
use ia_harness.Setup.Checks.{Resolves, new-Resolves}

abbrev config : Config ℕ ℕ
config = record {
  providers = ("openai", some 1) ∷ [];
  tools = [];
  models = ("gpt", profile) ∷ [];
  default_model = "gpt";
  agents = [];
  provider_middleware = (λ p. 7) ∷ [];
  tool_middleware = [];
  strategy = ContextStrategy.unset;
  pricing = record {
    currency = "";
    input_price = pos 0;
    output_price = pos 0;
    bytes_per_token = record { num = pos 0; den = 1 };
    cached_input_price = pos 0;
    cache_write_price = pos 0;
  };
  max_field_bytes = pos 0;
  tool_result_max_bytes = pos 0;
  max_agent_depth = pos 0;
  cache = record { enabled = true; min_score = pos 0; ttl = pos 0; max_entries = pos 0 };
  has_cache_store = false;
  has_embedder = false;
  has_clock = false;
  has_audit = false;
  has_tracer = false;
  has_waiter = false;
  has_credentials = true;
  has_sessions = true;
  has_logger = true;
}

is_set_up : new config ≡ ok (apply_defaults config)
unfolding new apply_defaults apply_middleware validate first_failing defaults
is_set_up = refl

new-Resolves_example :
    ((alias : String)
      → is_key (apply_defaults config).models alias ≡ true
      → ◌≢◌ {A = String} alias ""
      → Resolves (registry_of (apply_defaults config)) alias)
    × (◌≢◌ {A = String} (apply_defaults config).default_model ""
        → Resolves (registry_of (apply_defaults config)) "")
    × All
        (λ (a : String × AgentSpec).
          ◌≢◌ {A = String} a.1.model "" → Resolves (registry_of (apply_defaults config)) a.1.model)
        (apply_defaults config).agents
new-Resolves_example = new-Resolves config (apply_defaults config) is_set_up
