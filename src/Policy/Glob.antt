-- ===== src/Policy/Glob.antt =====
-- `path.Match` of Go's standard library, which decides the globs of a policy, over code points.
-- A pattern is read into tokens by a machine with one mode for each place in a bracket expression;
-- a malformed pattern reads as `none`. The library's leftmost choice for `*` and the backtracking
-- here agree, since between two stars a pattern fits texts of one length only. On names beyond ASCII
-- the library's star also stops inside a code point; names are taken as ASCII here.
use Prim.Native.Char.{code}
use ia_harness.Base.{
  ℕ, String, ◌≡◌, refl, Bool, true, false, not, ◌&&◌, ◌||◌, Option, none, some, List, [], ◌∷◌, ◌++◌,
  leb, ◌==◌, if◌then◌else◌, is_empty, any,
}

pub data GlobToken : Type 0 where
  literal : ℕ → GlobToken
  any_one star : GlobToken
  class : Bool → List (ℕ × ℕ) → GlobToken

-- Where the reader stands; `Bool` is the negation and the list holds the ranges read so far.
pub data Mode : Type 0 where
  outside escaped opened : Mode
  item item_escaped : Bool → List (ℕ × ℕ) → Mode
  after_low high high_escaped : Bool → List (ℕ × ℕ) → ℕ → Mode

abbrev pub Read : Type 0
Read = Option (Mode × List GlobToken)

abbrev pub goes_on : Mode → Read
goes_on m = some (m, [])

read_item : Bool → List (ℕ × ℕ) → ℕ → Read
read_item neg rs c =
    if c == b']'
    then (if is_empty rs then none else some (outside, class neg rs ∷ []))
    else if c == b'-'
    then none
    else if c == 92
    then goes_on (item_escaped neg rs)
    else goes_on (after_low neg rs c)

read_outside : ℕ → Read
read_outside c =
    if c == b'*'
    then some (outside, star ∷ [])
    else if c == b'?'
    then some (outside, any_one ∷ [])
    else if c == b'['
    then goes_on opened
    else if c == 92
    then goes_on escaped
    else some (outside, literal c ∷ [])

read_high : Bool → List (ℕ × ℕ) → ℕ → ℕ → Read
read_high neg rs lo c =
    if c == b']' || c == b'-'
    then none
    else if c == 92
    then goes_on (high_escaped neg rs lo)
    else goes_on (item neg ((lo, c) ∷ rs))

read : Mode → ℕ → Read
unfolding read_item read_outside read_high
read outside c = read_outside c
read escaped c = some (outside, literal c ∷ [])
read opened c = if c == b'^' then goes_on (item true []) else read_item false [] c
read (item neg rs) c = read_item neg rs c
read (item_escaped neg rs) c = goes_on (after_low neg rs c)
read (after_low neg rs lo) c =
    if c == b'-' then goes_on (high neg rs lo) else read_item neg ((lo, lo) ∷ rs) c
read (high neg rs lo) c = read_high neg rs lo c
read (high_escaped neg rs lo) c = goes_on (item neg ((lo, c) ∷ rs))

abbrev pub join : List GlobToken → Option (List GlobToken) → Option (List GlobToken)
join ts none = none
join ts (some rest) = some (ts ++ rest)

-- A pattern may end only outside every bracket and escape.
parse_from : Mode → List ℕ → Option (List GlobToken)
unfolding read
parse_from outside [] = some []
parse_from _ [] = none
parse_from m (c ∷ cs) = elim (read m c) [ none ↦ none | some (m', ts) ↦ join ts (parse_from m' cs) ]

pub parse : List ℕ → Option (List GlobToken)
unfolding parse_from
parse = parse_from outside

pub matches_one : GlobToken → ℕ → Bool
matches_one (literal d) c = d == c
matches_one any_one c = not (c == b'/')
matches_one star c = false
matches_one (class neg rs) c =
    let inside = any (λ ((lo, hi) : ℕ × ℕ). leb lo c && leb c hi) rs in
    if neg then not inside else inside

-- A star never stands for one code point by this test.
pub matches_one-star : (c : ℕ) → matches_one star c ≡ false
unfolding matches_one
matches_one-star c = refl

-- `*` takes any run without a slash.
unfoldable pub match_star : (List ℕ → Bool) → List ℕ → Bool
match_star rest [] = rest []
match_star rest (c ∷ s) = rest (c ∷ s) || (not (c == b'/') && match_star rest s)

unfoldable pub match_tokens : List GlobToken → List ℕ → Bool
match_tokens [] s = is_empty s
match_tokens (star ∷ p) s = match_star (match_tokens p) s
match_tokens (t ∷ p) [] = false
match_tokens (t ∷ p) (c ∷ s) = matches_one t c && match_tokens p s

abbrev pub codes : String → List ℕ
codes String.[] = []
codes (String.◌∷◌ c s) = code c ∷ codes s

-- `path.Match(pattern, name)`, true where it returns (true, nil).
unfoldable pub path_match : String → String → Bool
unfolding parse match_star match_tokens matches_one
path_match pattern name = elim (parse (codes pattern)) [
  | none ↦ false
  | some tokens ↦ match_tokens tokens (codes name)
]
