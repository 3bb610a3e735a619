-- ===== src/Route/Chain.antt =====
-- The first success of the chain wins, and a fallback only gets media that its model takes.
use ia_harness.Base.{
  ℕ, suc, ◌+◌, String, ◌≡◌, refl, ◌⊎◌, inl, inr, true, Option, none, some, List, [], ◌∷◌, ◌++◌,
  arith, length, length-append, Result, ok, failed, Bool-cases,
}
use ia_harness.Core.Message.{Part}
use ia_harness.Core.Config.{ModelProfile, ChatResponse}
use ia_harness.Media.{supports}
use ia_harness.Route.{
  Registry, RouteError, is_injected, resolve_model, alias_for, Attempt, Chat, served, unserved,
  attempt_at, answer_of, after_wait, attempt, fall_back, try_fallbacks, chat,
}

module _ (r : Registry) (limit : List Attempt → String → Option String)
    (ask : List Attempt → Attempt → Result String ChatResponse) (profile : ModelProfile)
    (parts : List Part) where
  -- An attempt that may be made: the primary one, or one of a fallback that resolves to a model
  -- which takes the media of the turn.
  abbrev pub IsEligible : Attempt → Type 0
  IsEligible a =
      (is_injected r a.provider ≡ true)
      × ((a.alias ≡ alias_for r profile)
          ⊎ ((p : ModelProfile) × (resolve_model r a.alias ≡ ok p)
              × (supports p.capabilities parts ≡ true)
              × (a.model ≡ p.model)))

  -- Attempts that could be made and that all failed.
  abbrev pub HaveFailed : List Attempt → Type 0
  HaveFailed [] = Unit
  HaveFailed (a ∷ earlier) =
      ((e : String) × (ask earlier a ≡ failed e)) × IsEligible a × HaveFailed earlier

  -- `fuel` candidates are still to come after the failures.
  abbrev pub IsRun : ℕ → Chat → Type 0
  IsRun total (served response a earlier) =
      (ask earlier a ≡ ok response) × IsEligible a × HaveFailed earlier
  IsRun total (unserved failures asked) = (length failures ≡ total) × HaveFailed asked

  abbrev Continues : ℕ → ℕ → (List Attempt → List RouteError → Chat) → Type 0
  Continues total n next =
      (asked : List Attempt) (failures : List RouteError)
      → HaveFailed asked
      → length failures + n ≡ total
      → IsRun total (next asked failures)

  one_more :
      (total n : ℕ) (failures : List RouteError) (e : RouteError)
      → length failures + suc n ≡ total
      → length (failures ++ e ∷ []) + n ≡ total
  one_more total n failures e h = omega (arith, length-append failures (e ∷ []))

  answer_of-IsRun :
      (total n : ℕ) (answer : Result String ChatResponse) (a : Attempt) (asked : List Attempt)
      (failures : List RouteError) (next : List Attempt → List RouteError → Chat)
      → ask asked a ≡ answer
      → IsEligible a
      → HaveFailed asked
      → length failures + suc n ≡ total
      → Continues total n next
      → IsRun total (answer_of r limit ask answer a asked failures next)
  unfolding answer_of
  answer_of-IsRun total n (ok response) a asked failures next e able h count more = (e, able, h)
  answer_of-IsRun total n (failed x) a asked failures next e able h count more =
      more (a ∷ asked) _ ((x, e), able, h) (one_more total n failures _ count)

  after_wait-IsRun :
      (total n : ℕ) (wait : Option String) (a : Attempt) (asked : List Attempt)
      (failures : List RouteError) (next : List Attempt → List RouteError → Chat)
      → IsEligible a
      → HaveFailed asked
      → length failures + suc n ≡ total
      → Continues total n next
      → IsRun total (after_wait r limit ask wait a asked failures next)
  unfolding after_wait
  after_wait-IsRun total n (some e) a asked failures next able h count more =
      more asked _ h (one_more total n failures _ count)
  after_wait-IsRun total n none a asked failures next able h count more =
      answer_of-IsRun total n (ask asked a) a asked failures next refl able h count more

  attempt-IsRun :
      (total n : ℕ) (alias : String) (p : ModelProfile) (asked : List Attempt)
      (failures : List RouteError) (next : List Attempt → List RouteError → Chat)
      → (is_injected r p.provider ≡ true → IsEligible (attempt_at alias p))
      → HaveFailed asked
      → length failures + suc n ≡ total
      → Continues total n next
      → IsRun total (attempt r limit ask alias p asked failures next)
  unfolding attempt
  attempt-IsRun total n alias p asked failures next able h count more =
      elim (Bool-cases (is_injected r p.provider)) [
        | inr absent ↦ rw absent (more asked _ h (one_more total n failures _ count))
        | inl there ↦ rw there (
            after_wait-IsRun total n (limit asked p.provider) (attempt_at alias p) asked failures
              next (able there) h count more)
      ]

  fall_back-IsRun :
      (total n : ℕ) (alias : String) (found : Result RouteError ModelProfile) (asked : List Attempt)
      (failures : List RouteError) (next : List Attempt → List RouteError → Chat)
      → resolve_model r alias ≡ found
      → HaveFailed asked
      → length failures + suc n ≡ total
      → Continues total n next
      → IsRun total (fall_back r limit ask found alias parts asked failures next)
  unfolding fall_back
  fall_back-IsRun total n alias (failed e) asked failures next is h count more =
      more asked _ h (one_more total n failures _ count)
  fall_back-IsRun total n alias (ok p) asked failures next is h count more =
      elim (Bool-cases (supports p.capabilities parts)) [
        | inr lacks ↦ rw lacks (more asked _ h (one_more total n failures _ count))
        | inl takes ↦ rw takes (
            attempt-IsRun total n alias p asked failures next
              (λ there. (there, inr (p, is, takes, refl))) h count more)
      ]

  try_fallbacks-IsRun :
      (total : ℕ) (aliases : List String)
      → Continues total (length aliases) (try_fallbacks r limit ask aliases parts)
  unfolding try_fallbacks
  try_fallbacks-IsRun total [] asked failures h count = (omega (arith, count), h)
  try_fallbacks-IsRun total (alias ∷ aliases) asked failures h count =
      fall_back-IsRun total (length aliases) alias (resolve_model r alias) asked failures
        (try_fallbacks r limit ask aliases parts) refl h count (try_fallbacks-IsRun total aliases)

  -- The chain of a call gives the first answer: the attempt that gave it was asked after attempts
  -- that all failed. Every attempt reaches an injected provider, and but for the primary one only
  -- the model of an alias that resolves and that takes the media of the turn. Where nothing is
  -- served all attempts failed, and each of the candidates, the primary one and the fallbacks, left
  -- one failure.
  pub chat-IsRun : IsRun (suc (length profile.fallbacks)) (chat r limit ask profile parts)
  unfolding chat
  chat-IsRun =
      attempt-IsRun (suc (length profile.fallbacks)) (length profile.fallbacks)
        (alias_for r profile) profile [] [] (try_fallbacks r limit ask profile.fallbacks parts)
        (λ there. (there, inl refl)) tt (omega arith)
        (try_fallbacks-IsRun (suc (length profile.fallbacks)) profile.fallbacks)
