-- ===== src/Route/Tests.antt =====
-- A model with a fallback, whose provider is down.
use ia_harness.Base.{
  pos, String, ◌≡◌, refl, true, false, Option, none, List, [], ◌∷◌, Result, ok, failed, lookup,
}
use ia_harness.Core.Message.{Role, no_usage}
use ia_harness.Core.Config.{ModelProfile, StopReason, ChatResponse}
use ia_harness.Media.{supports, required}
use ia_harness.Media.Mime.{code_points}
use ia_harness.Route.{
  Registry, Attempt, served, attempt_at, answer_of, after_wait, attempt, fall_back, try_fallbacks,
  chat, resolve_model, alias_for, first_alias, sort_strings,
}
use ia_harness.Route.Chain.{IsRun, chat-IsRun}

abbrev profile : String → List String → ModelProfile
profile provider fallbacks = record {
  provider = provider;
  model = "gpt";
  capabilities = record {
    tool_calling = true;
    streaming = true;
    max_context_tokens = pos 0;
    max_output_tokens = pos 0;
    vision = false;
    documents = false;
    max_media_bytes = pos 0;
    prompt_caching = false;
  };
  params = [];
  fallbacks = fallbacks;
}

abbrev registry : Registry
registry = record {
  models =
      ("main", profile "openai" ("lost" ∷ "spare" ∷ [])) ∷ ("spare", profile "anthropic" []) ∷ [];
  providers = "openai" ∷ "anthropic" ∷ [];
  default_model = "main";
}

abbrev no_limit : List Attempt → String → Option String
no_limit asked key = none

abbrev response : ChatResponse
response = record {
  message = record { id = ""; role = Role.assistant; parts = []; created_at = pos 0 };
  tool_calls = [];
  usage = no_usage;
  stop_reason = StopReason.completed;
  model = "gpt";
}

-- Only the second request is answered.
abbrev second : List Attempt → Attempt → Result String ChatResponse
second [] a = failed "down"
second (b ∷ asked) a = ok response

falls_back :
    chat registry no_limit second (profile "openai" ("lost" ∷ "spare" ∷ [])) []
    ≡ served response
        (attempt_at "spare" (profile "anthropic" []))
        (attempt_at "main" (profile "openai" []) ∷ [])
unfolding chat attempt after_wait answer_of try_fallbacks fall_back resolve_model alias_for
    first_alias sort_strings code_points lookup supports required
falls_back = refl

chat-IsRun_example :
    IsRun registry no_limit second
      (profile "openai" ("lost" ∷ "spare" ∷ []))
      []
      3
      (chat registry no_limit second (profile "openai" ("lost" ∷ "spare" ∷ [])) [])
chat-IsRun_example =
    chat-IsRun registry no_limit second (profile "openai" ("lost" ∷ "spare" ∷ [])) []
