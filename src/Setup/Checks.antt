-- ===== src/Setup/Checks.antt =====
-- What a harness is sure of once it is set up (config_validate.go).
use mathlib.Core.Path.{subst}
use ia_harness.Base.{
  String, str_eq, eq_iff, ◌≡◌, refl, ap, ◌∙◌, ◌≢◌, ◌↔◌, Bool, true, false, not, ◌&&◌, ◌||◌, inl,
  inr, Option, none, some, List, [], ◌∷◌, All, Assoc, lookup, map, any, is_empty, if◌then◌else◌,
  Result, ok, failed, arith, Bool-cases,
}
use ia_harness.Core.Config.{AgentSpec, ModelProfile}
use ia_harness.Route.{Registry, is_injected, resolve_model}
use ia_harness.Setup.{
  Config, SetupError, first_failing, checks, is_null, is_key, orphan_model, orphan_agent, validate,
  apply_defaults, new, registry_of,
}

-- A test that no element passes.
any-none {ℓ} :
    {A : Type ℓ} (p : A → Bool) (xs : List A) → any p xs ≡ false → All (λ x. p x ≡ false) xs
any-none p [] h = tt
any-none p (x ∷ xs) h = (ground arith, any-none p xs (ground arith))

none-any {ℓ} :
    {A : Type ℓ} (p : A → Bool) (xs : List A) → All (λ x. p x ≡ false) xs → any p xs ≡ false
none-any p [] h = refl
none-any p (x ∷ xs) h = rw h.0 (none-any p xs h.1)

none_failing :
    (ks : List (Bool × SetupError))
    → first_failing ks ≡ none
    → All (λ (k : Bool × SetupError). k.0 ≡ false) ks
unfolding first_failing
none_failing [] h = tt
none_failing ((false, x) ∷ ks) h = (refl, none_failing ks h)
none_failing ((true, x) ∷ ks) h = cc

All-pass :
    (ks : List (Bool × SetupError))
    → All (λ (k : Bool × SetupError). k.0 ≡ false) ks
    → first_failing ks ≡ none
unfolding first_failing
All-pass [] h = refl
All-pass ((fails, x) ∷ ks) h = rw h.0 (All-pass ks h.1)

named_text : (t : String) → ◌≢◌ {A = String} t "" → str_eq t "" ≡ false
named_text t named = ground (arith, eq_iff t "")

ne_text : (t : String) → str_eq t "" ≡ false → ◌≢◌ {A = String} t ""
ne_text t h e = cc ((eq_iff t "").1 e)

module _ {X S : Type 0} where
  -- What a configuration has to hold.
  pub record IsSound (c : Config X S) : Type 0 where
    pub some_provider : is_empty c.providers ≡ false
    pub providers : All (λ (p : String × Option X). is_null p.1 ≡ false) c.providers
    pub sources : All (λ (s : Option S). is_null s ≡ false) c.tools
    pub models :
        All (λ (m : String × ModelProfile). is_key c.providers m.1.provider ≡ true) c.models
    pub default : ◌≢◌ {A = String} c.default_model "" → is_key c.models c.default_model ≡ true
    pub agents :
        All
          (λ (a : String × AgentSpec).
            ◌≢◌ {A = String} a.1.model "" → is_key c.models a.1.model ≡ true)
          c.agents
    pub credentials : c.has_credentials ≡ true
    pub sessions : c.has_sessions ≡ true
    pub logger : c.has_logger ≡ true

  model_keys :
      (c : Config X S) (ms : Assoc ModelProfile)
      → All (λ m. orphan_model c m ≡ false) ms
      → All (λ (m : String × ModelProfile). is_key c.providers m.1.provider ≡ true) ms
  model_keys c [] h = tt
  model_keys c (m ∷ ms) h = (ground arith, model_keys c ms h.1)

  key_models :
      (c : Config X S) (ms : Assoc ModelProfile)
      → All (λ (m : String × ModelProfile). is_key c.providers m.1.provider ≡ true) ms
      → All (λ m. orphan_model c m ≡ false) ms
  key_models c [] h = tt
  key_models c (m ∷ ms) h = (ap not h.0, key_models c ms h.1)

  agent_keys :
      (c : Config X S) (specs : Assoc AgentSpec)
      → All (λ a. orphan_agent c a ≡ false) specs
      → All
          (λ (a : String × AgentSpec).
            ◌≢◌ {A = String} a.1.model "" → is_key c.models a.1.model ≡ true)
          specs
  agent_keys c [] h = tt
  agent_keys c (a ∷ specs) h =
      (λ named. ground (arith, named_text a.1.model named), agent_keys c specs h.1)

  key_agents :
      (c : Config X S) (specs : Assoc AgentSpec)
      → All
          (λ (a : String × AgentSpec).
            ◌≢◌ {A = String} a.1.model "" → is_key c.models a.1.model ≡ true)
          specs
      → All (λ a. orphan_agent c a ≡ false) specs
  key_agents c [] h = tt
  key_agents c (a ∷ specs) h = (
    elim (Bool-cases (str_eq a.1.model "")) [
      | inl unnamed ↦ rw unnamed refl
      | inr named ↦ rw named (ap not (h.0 (ne_text a.1.model named)))
    ],
    key_agents c specs h.1,
  )

  validate-IsSound : (c : Config X S) → validate c ≡ none → IsSound c
  unfolding validate
  validate-IsSound c h =
      let (
        no_p,
        (null_p, (null_s, (orphan_m, (default, (orphan_a, (cred, (sess, (log, end)))))))),
      ) =
        none_failing (checks c) h in
      record {
        some_provider = no_p;
        providers = any-none _ c.providers null_p;
        sources = any-none is_null c.tools null_s;
        models = model_keys c c.models (any-none (orphan_model c) c.models orphan_m);
        default = λ named. ground (arith, named_text c.default_model named);
        agents = agent_keys c c.agents (any-none (orphan_agent c) c.agents orphan_a);
        credentials = ground arith;
        sessions = ground arith;
        logger = ground arith;
      }

  named_default :
      (c : Config X S)
      → IsSound c
      → (not (str_eq c.default_model "") && not (is_key c.models c.default_model)) ≡ false
  named_default c s = elim (Bool-cases (str_eq c.default_model "")) [
    | inl unnamed ↦ rw unnamed refl
    | inr named ↦ rw (named, s.default (ne_text c.default_model named)) refl
  ]

  sound-validate : (c : Config X S) → IsSound c → validate c ≡ none
  unfolding validate
  sound-validate c s = All-pass (checks c) (
    s.some_provider,
    (
      none-any _ c.providers s.providers,
      (
        none-any is_null c.tools s.sources,
        (
          none-any (orphan_model c) c.models (key_models c c.models s.models),
          (
            named_default c s,
            (
              none-any (orphan_agent c) c.agents (key_agents c c.agents s.agents),
              (ap not s.credentials, (ap not s.sessions, (ap not s.logger, tt))),
            ),
          ),
        ),
      ),
    ),
  )

  -- A configuration is accepted exactly where it is sound.
  validate-ok_iff : (c : Config X S) → (validate c ≡ none) ↔ IsSound c
  validate-ok_iff c = (validate-IsSound c, sound-validate c)

injected {ℓ} :
    {X : Type ℓ} (ps : Assoc X) (key : String)
    → any (λ p. str_eq p key) (map (λ p. p.0) ps) ≡ is_key ps key
injected [] key = refl
injected (p ∷ ps) key = ap (λ b. str_eq p.0 key || b) (injected ps key)

-- The profile of an alias, whose provider is there.
find_profile {ℓ} :
    {X : Type ℓ} (ps : Assoc X) (ms : Assoc ModelProfile) (alias : String)
    → is_key ms alias ≡ true
    → All (λ (m : String × ModelProfile). is_key ps m.1.provider ≡ true) ms
    → (profile : ModelProfile) × (lookup alias ms ≡ some profile)
      × (is_key ps profile.provider ≡ true)
unfolding lookup
find_profile ps [] alias h all = cc
find_profile ps (m ∷ ms) alias h all = elim (Bool-cases (str_eq m.0 alias)) [
  | inl here ↦ (m.1, rw here refl, all.0)
  | inr other ↦
      let (profile, found, there) = find_profile ps ms alias (ground arith) all.1 in
      (profile, rw other found, there)
]

profile-ok :
    (r : Registry) (alias name : String) (profile : ModelProfile)
    → (if str_eq alias "" then r.default_model else alias) ≡ name
    → lookup name r.models ≡ some profile
    → is_injected r profile.provider ≡ true
    → resolve_model r alias ≡ ok profile
unfolding resolve_model
profile-ok r alias name profile e found there = ground arith

abbrev pub Resolves : Registry → String → Type 0
Resolves r alias = (profile : ModelProfile) × (resolve_model r alias ≡ ok profile)

ok_injective : {A : Type 0} (a b : A) → ◌≡◌ {A = Result SetupError A} (ok a) (ok b) → a ≡ b
ok_injective a b e = cc

module _ {X S : Type 0} where
  named-Resolves :
      (h : Config X S) (alias name : String)
      → IsSound h
      → (if str_eq alias "" then h.default_model else alias) ≡ name
      → is_key h.models name ≡ true
      → Resolves (registry_of h) alias
  named-Resolves h alias name s e key =
      let (profile, found, there) = find_profile h.providers h.models name key s.models in
      (
        profile,
        profile-ok (registry_of h) alias name profile e found
            (injected h.providers profile.provider ∙ there),
      )

  key-Resolves :
      (h : Config X S) (alias : String)
      → IsSound h
      → is_key h.models alias ≡ true
      → ◌≢◌ {A = String} alias ""
      → Resolves (registry_of h) alias
  key-Resolves h alias s key named =
      named-Resolves h alias alias s (rw (named_text alias named) refl) key

  accepted :
      (c h : Config X S) (v : Option SetupError)
      → validate c ≡ v
      → (elim v as (λ x. Result SetupError (Config X S)) [ some x ↦ failed x | none ↦ ok c ]) ≡ ok h
      → IsSound h
  accepted c h (some x) same e = cc
  accepted c h none same e = subst IsSound (ok_injective c h e) (validate-IsSound c same)

  new-IsSound : (c h : Config X S) → new c ≡ ok h → IsSound h
  unfolding new
  new-IsSound c h e = accepted (apply_defaults c) h (validate (apply_defaults c)) refl e

  agents-Resolve :
      (h : Config X S) (specs : Assoc AgentSpec)
      → IsSound h
      → All
          (λ (a : String × AgentSpec).
            ◌≢◌ {A = String} a.1.model "" → is_key h.models a.1.model ≡ true)
          specs
      → All
          (λ (a : String × AgentSpec).
            ◌≢◌ {A = String} a.1.model "" → Resolves (registry_of h) a.1.model)
          specs
  agents-Resolve h [] s all = tt
  agents-Resolve h (a ∷ specs) s all =
      (λ named. key-Resolves h a.1.model s (all.0 named) named, agents-Resolve h specs s all.1)

  -- In a harness that is set up, every configured alias has a profile and its provider, and so have
  -- the default model, asked for by the empty alias, and the model of every agent, where they are
  -- named: resolving them never fails.
  pub new-Resolves :
      (c h : Config X S)
      → new c ≡ ok h
      → ((alias : String)
          → is_key h.models alias ≡ true
          → ◌≢◌ {A = String} alias ""
          → Resolves (registry_of h) alias)
        × (◌≢◌ {A = String} h.default_model "" → Resolves (registry_of h) "")
        × All
            (λ (a : String × AgentSpec).
              ◌≢◌ {A = String} a.1.model "" → Resolves (registry_of h) a.1.model)
            h.agents
  new-Resolves c h e =
      let s = new-IsSound c h e in
      (
        λ alias key named. key-Resolves h alias s key named,
        λ named. named-Resolves h "" h.default_model s refl (s.default named),
        agents-Resolve h h.agents s s.agents,
      )
