-- ===== src/Policy/Patterns.antt =====
-- `matchTool` of policy.go against a relation that says which texts a glob takes.
use ia_harness.Base.{ℕ, String, ◌≡◌, ◌≢◌, true, some, List, [], ◌∷◌}
use ia_harness.Policy.Glob.{GlobToken, star, parse, matches_one, codes}

-- A star takes any run without a slash, and every other token one code point.
pub data Takes : List GlobToken → List ℕ → Type 0 where
  done : Takes [] []
  one :
      {t : GlobToken} {c : ℕ} {p : List GlobToken} {s : List ℕ}
      → matches_one t c ≡ true
      → Takes p s
      → Takes (t ∷ p) (c ∷ s)
  skip : {p : List GlobToken} {s : List ℕ} → Takes p s → Takes (star ∷ p) s
  eat :
      {c : ℕ} {p : List GlobToken} {s : List ℕ}
      → c ≢ b'/'
      → Takes (star ∷ p) s
      → Takes (star ∷ p) (c ∷ s)

-- The text is in the language of the pattern: equal to it, or taken by its tokens.
pub data InGlob (pattern text : String) : Type 0 where
  same : pattern ≡ text → InGlob pattern text
  taken :
      (tokens : List GlobToken)
      → parse (codes pattern) ≡ some tokens
      → Takes tokens (codes text)
      → InGlob pattern text
