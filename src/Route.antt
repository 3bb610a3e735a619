-- ===== src/Route.antt =====
-- internal/engine/provider_route.go: the model of a call, and the chain of its fallbacks.
pub mod Chain
mod Tests
use ia_harness.Base.{
  ℕ, String, str_eq, Bool, true, false, not, ◌&&◌, Option, none, some, List, [], ◌∷◌, ◌++◌, Assoc,
  lookup, map, ltb, ◌==◌, if◌then◌else◌, any, Result, ok, failed,
}
use ia_harness.Core.Message.{Part}
use ia_harness.Core.Config.{ModelProfile, ChatResponse}
use ia_harness.Media.{supports}
use ia_harness.Media.Mime.{code_points}

-- What the harness is configured with: models by alias, and the keys of the injected providers.
pub record Registry : Type 0 where
  pub models : Assoc ModelProfile
  pub providers : List String
  pub default_model : String

pub data RouteError : Type 0 where
  unknown_alias unknown_provider media_not_supported : String → RouteError
  -- An error of the rate limit or of the provider.
  call_failed : String → RouteError

abbrev pub is_injected : Registry → String → Bool
is_injected r key = any (λ p. str_eq p key) r.providers

unfoldable pub resolve_model : Registry → String → Result RouteError ModelProfile
resolve_model r alias =
    let name = if str_eq alias "" then r.default_model else alias in
    elim (lookup name r.models) [
      | none ↦ failed (unknown_alias name)
      | some profile ↦
          if is_injected r profile.provider
          then ok profile
          else failed (unknown_provider profile.provider)
    ]

-- `sort.Strings`: the order of UTF-8 bytes is the order of code points.
unfoldable pub points_before : List ℕ → List ℕ → Bool
points_before [] [] = false
points_before [] (d ∷ ds) = true
points_before (c ∷ cs) [] = false
points_before (c ∷ cs) (d ∷ ds) = let rest = points_before cs ds in if c == d then rest else ltb c d

unfoldable pub place : String → List String → List String
unfolding points_before code_points
place a [] = a ∷ []
place a (b ∷ bs) =
    let later = place a bs in
    if points_before (code_points b) (code_points a) then b ∷ later else a ∷ b ∷ bs

unfoldable pub sort_strings : List String → List String
unfolding place
sort_strings [] = []
sort_strings (alias ∷ aliases) = place alias (sort_strings aliases)

abbrev pub is_profile : ModelProfile → Option ModelProfile → Bool
is_profile profile none = false
is_profile profile (some candidate) =
    str_eq candidate.provider profile.provider && str_eq candidate.model profile.model

unfoldable pub first_alias : Registry → ModelProfile → List String → String
first_alias r profile [] = profile.model
first_alias r profile (alias ∷ aliases) =
    let rest = first_alias r profile aliases in
    if is_profile profile (lookup alias r.models) then alias else rest

unfoldable pub alias_for : Registry → ModelProfile → String
unfolding sort_strings first_alias
alias_for r profile =
    first_alias r profile (sort_strings (map (λ (e : String × ModelProfile). e.0) r.models))

-- A request that reached a provider.
pub record Attempt : Type 0 where
  pub alias : String
  pub provider : String
  pub model : String

abbrev pub attempt_at : String → ModelProfile → Attempt
attempt_at alias profile = record {
  alias = alias;
  provider = profile.provider;
  model = profile.model;
}

-- The end of a call: an answer with the attempt that gave it and the attempts before, the newest
-- first, or all failures and all attempts.
pub data Chat : Type 0 where
  served : ChatResponse → Attempt → List Attempt → Chat
  unserved : List RouteError → List Attempt → Chat

-- The wait of the rate limit and the answer of the provider may depend on the attempts before.
module _ (r : Registry) (limit : List Attempt → String → Option String)
    (ask : List Attempt → Attempt → Result String ChatResponse) where
  -- `next` goes on after a failure, with the attempts and the failures so far.
  unfoldable pub answer_of :
      Result String ChatResponse
      → Attempt
      → List Attempt
      → List RouteError
      → (List Attempt → List RouteError → Chat)
      → Chat
  answer_of (ok response) a asked failures next = served response a asked
  answer_of (failed e) a asked failures next = next (a ∷ asked) (failures ++ call_failed e ∷ [])

  unfoldable pub after_wait :
      Option String
      → Attempt
      → List Attempt
      → List RouteError
      → (List Attempt → List RouteError → Chat)
      → Chat
  unfolding answer_of
  after_wait (some e) a asked failures next = next asked (failures ++ call_failed e ∷ [])
  after_wait none a asked failures next = answer_of (ask asked a) a asked failures next

  unfoldable pub attempt :
      String
      → ModelProfile
      → List Attempt
      → List RouteError
      → (List Attempt → List RouteError → Chat)
      → Chat
  unfolding after_wait
  attempt alias profile asked failures next =
      if not (is_injected r profile.provider)
      then next asked (failures ++ unknown_provider profile.provider ∷ [])
      else after_wait (limit asked profile.provider) (attempt_at alias profile) asked failures next

  unfoldable pub fall_back :
      Result RouteError ModelProfile
      → String
      → List Part
      → List Attempt
      → List RouteError
      → (List Attempt → List RouteError → Chat)
      → Chat
  unfolding attempt
  fall_back (failed e) alias parts asked failures next = next asked (failures ++ e ∷ [])
  fall_back (ok profile) alias parts asked failures next =
      if not (supports profile.capabilities parts)
      then next asked (failures ++ media_not_supported alias ∷ [])
      else attempt alias profile asked failures next

  unfoldable pub try_fallbacks : List String → List Part → List Attempt → List RouteError → Chat
  unfolding fall_back
  try_fallbacks [] parts asked failures = unserved failures asked
  try_fallbacks (alias ∷ aliases) parts asked failures =
      fall_back (resolve_model r alias) alias parts asked failures (try_fallbacks aliases parts)

  unfoldable pub chat : ModelProfile → List Part → Chat
  unfolding attempt try_fallbacks
  chat profile parts =
      attempt (alias_for r profile) profile [] [] (try_fallbacks profile.fallbacks parts)
