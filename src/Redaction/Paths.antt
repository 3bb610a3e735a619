-- ===== src/Redaction/Paths.antt =====
-- What a redacted tree still shows, path by path (internal/engine/telemetry/redact.go).
use mathlib.Core.Path.{subst}
use ia_harness.Base.{
  ℕ, zero, suc, ◌≡◌, refl, ap, sym, inl, inr, Bool, true, false, not, ◌&&◌, Option, none, some,
  List, [], ◌∷◌, ◌==◌, eq_of_==, and-eq-true, Bool-cases, Option-cases, if◌then◌else◌,
}
use ia_harness.Media.Mime.{same_points}
use ia_harness.Redaction.{
  Key, Json, null, bool, number, text, array, object, Items, no_items, item, Members, no_members,
  member, Redactor, placeholder, is_sensitive, redact_value, redact_items, redact_members,
}

-- A way into a tree: to an element of an array, or to a member of an object.
pub data Step : Type 0 where
  element : ℕ → Step
  under : Key → Step

item_at : Items → ℕ → Option Json
item_at no_items i = none
item_at (item v xs) zero = some v
item_at (item v xs) (suc i) = item_at xs i

member_at : Members → Key → Option Json
unfolding same_points
member_at no_members k = none
member_at (member k v ms) wanted =
    let later = member_at ms wanted in if same_points k wanted then some v else later

child : Json → Step → Option Json
unfolding item_at member_at
child (array xs) (element i) = item_at xs i
child (object ms) (under k) = member_at ms k
child v s = none

abbrev into : Option Json → (Json → Option Json) → Option Json
into none k = none
into (some v) k = k v

unfoldable pub at : List Step → Json → Option Json
unfolding child
at [] v = some v
at (s ∷ path) v = into (child v s) (at path)

same_points-eq : (a b : Key) → same_points a b ≡ true → a ≡ b
unfolding same_points
same_points-eq [] [] h = refl
same_points-eq [] (b ∷ bs) h = cc
same_points-eq (a ∷ more) [] h = cc
same_points-eq (a ∷ more) (b ∷ bs) h =
    let (here, later) = and-eq-true (a == b) (same_points more bs) h in
    rw (eq_of_== a b here, same_points-eq more bs later) refl

module _ (lower : ℕ → ℕ) (r : Redactor) where
  abbrev secret_step : Step → Bool
  secret_step (element i) = false
  secret_step (under k) = is_sensitive lower r k

  -- A path that passes through no sensitive key.
  abbrev pub is_open : List Step → Bool
  is_open [] = true
  is_open (s ∷ path) = not (secret_step s) && is_open path

  abbrev redacted : Option Json → Option Json
  redacted none = none
  redacted (some v) = some (redact_value lower r v)

  -- What a redacted tree shows at a path of the tree `v`.
  pub data IsShown (path : List Step) (v : Json) : Option Json → Type 0 where
    shown : is_open path ≡ true → IsShown path v (redacted (at path v))
    hidden : is_open path ≡ false → IsShown path v none
    masked : is_open path ≡ false → IsShown path v (some placeholder)

  abbrev masked_value : Option Json → Option Json
  masked_value none = none
  masked_value (some v) = some placeholder

  item_at-redact :
      (xs : Items) (i : ℕ) → item_at (redact_items lower r xs) i ≡ redacted (item_at xs i)
  unfolding item_at redact_value
  item_at-redact no_items i = refl
  item_at-redact (item v xs) zero = refl
  item_at-redact (item v xs) (suc i) = item_at-redact xs i

  abbrev seen : Bool → Option Json → Option Json
  seen secret v = if secret then masked_value v else redacted v

  seen-some :
      (secret : Bool) (v : Json)
      → some (if secret then placeholder else redact_value lower r v) ≡ seen secret (some v)
  seen-some true v = refl
  seen-some false v = refl

  member_at-redact :
      (ms : Members) (k : Key)
      → member_at (redact_members lower r ms) k ≡ seen (is_sensitive lower r k) (member_at ms k)
  unfolding member_at redact_value
  member_at-redact no_members k = elim (Bool-cases (is_sensitive lower r k)) [
    | inl secret ↦ rw secret refl
    | inr open_to ↦ rw open_to refl
  ]
  member_at-redact (member k' v ms) k = elim (Bool-cases (same_points k' k)) [
    | inl same ↦ rw (same, same_points-eq k' k same) (seen-some (is_sensitive lower r k) v)
    | inr other ↦ rw other (member_at-redact ms k)
  ]

  seen-none : (secret : Bool) → seen secret none ≡ none
  seen-none true = refl
  seen-none false = refl

  child-redact :
      (v : Json) (s : Step) → child (redact_value lower r v) s ≡ seen (secret_step s) (child v s)
  unfolding child redact_value
  child-redact (array xs) (element i) = item_at-redact xs i
  child-redact (array xs) (under k) = sym (seen-none (is_sensitive lower r k))
  child-redact (object ms) (element i) = refl
  child-redact (object ms) (under k) = member_at-redact ms k
  child-redact null s = sym (seen-none (secret_step s))
  child-redact (bool b) s = sym (seen-none (secret_step s))
  child-redact (number n) s = sym (seen-none (secret_step s))
  child-redact (text t) s = sym (seen-none (secret_step s))

  nothing : (path : List Step) (v : Json) → at path v ≡ none → IsShown path v none
  nothing path v gone = elim (Bool-cases (is_open path)) [
    | inl whole ↦ subst (IsShown path v) (ap redacted gone) (shown whole)
    | inr closed ↦ hidden closed
  ]

  below :
      (s : Step) (path : List Step) (v c : Json) (o : Option Json)
      → secret_step s ≡ false
      → child v s ≡ some c
      → IsShown path c o
      → IsShown (s ∷ path) v o
  unfolding at
  below s path v c _ free there (shown whole) =
      subst (λ (x : Option Json). IsShown (s ∷ path) v (redacted (into x (at path)))) there
        (shown (rw free whole))
  below s path v c _ free there (hidden closed) = hidden (rw free closed)
  below s path v c _ free there (masked closed) = masked (rw free closed)

  under_secret :
      (s : Step) (path : List Step) (v : Json) (o : Option Json)
      → secret_step s ≡ true
      → IsShown (s ∷ path) v (into (masked_value o) (at path))
  unfolding at child placeholder
  under_secret s path v none secret = hidden (rw secret refl)
  under_secret s [] v (some c) secret = masked (rw secret refl)
  under_secret s (s' ∷ path) v (some c) secret = hidden (rw secret refl)

  -- A redacted tree shows at a path what the tree has there, redacted, where the path passes through
  -- no sensitive key. At a sensitive key it shows the placeholder or nothing, and nothing below it.
  pub at-redact_value :
      (path : List Step) (v : Json) → IsShown path v (at path (redact_value lower r v))
  unfolding at
  at-redact_value [] v = shown refl
  at-redact_value (s ∷ path) v = elim (Bool-cases (secret_step s)) [
    | inl secret ↦ rw (child-redact v s, secret) (under_secret s path v (child v s) secret)
    | inr free ↦ elim (Option-cases (child v s)) [
      | inl gone ↦ rw (child-redact v s, free, gone) (nothing (s ∷ path) v (rw gone refl))
      | inr (c, there) ↦
          rw (child-redact v s, free, there)
            (below s path v c _ free there (at-redact_value path c))
    ]
  ]
