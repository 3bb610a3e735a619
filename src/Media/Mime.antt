-- ===== src/Media/Mime.antt =====
-- MIME types (media.go: normalizeMIME, allowedMIME, IsTextual) over code points. `strings.ToLower`
-- is written out where it yields ASCII, which is all that the lists of types can tell apart.
use Prim.Native.Char.{code}
use ia_harness.Base.{
  ℕ, ◌+◌, String, Bool, true, false, ◌&&◌, ◌||◌, List, [], ◌∷◌, map, leb, ◌==◌, if◌then◌else◌,
  is_empty, any,
}
use ia_harness.Core.Message.{PartKind}

unfoldable pub code_points : String → List ℕ
code_points String.[] = []
code_points (String.◌∷◌ c text) = code c ∷ code_points text

unfoldable pub same_points : List ℕ → List ℕ → Bool
same_points [] [] = true
same_points (c ∷ cs) (d ∷ ds) = c == d && same_points cs ds
same_points _ _ = false

-- `unicode.IsSpace`
unfoldable pub is_space : ℕ → Bool
is_space c =
    (leb 9 c && leb c 13)
    || c == 32
    || c == 133
    || c == 160
    || c == 5760
    || (leb 8192 c && leb c 8202)
    || c == 8232
    || c == 8233
    || c == 8239
    || c == 8287
    || c == 12288

trim_left : List ℕ → List ℕ
trim_left [] = []
trim_left (c ∷ cs) = let rest = trim_left cs in if is_space c then rest else c ∷ cs

trim_right : List ℕ → List ℕ
trim_right [] = []
trim_right (c ∷ cs) =
    let rest = trim_right cs in if is_space c && is_empty rest then [] else c ∷ rest

unfoldable pub trim_space : List ℕ → List ℕ
unfolding trim_left trim_right is_space
trim_space text = trim_right (trim_left text)

unfoldable pub is_blank : String → Bool
unfolding trim_space code_points
is_blank text = is_empty (trim_space (code_points text))

-- Capital İ (304) and the sign of Kelvin (8490) are the others with an ASCII lower case.
unfoldable pub to_lower : ℕ → ℕ
to_lower c =
    if leb 65 c && leb c 90 then c + 32 else if c == 304 then 105 else if c == 8490 then 107 else c

unfoldable pub before_semicolon : List ℕ → List ℕ
before_semicolon [] = []
before_semicolon (c ∷ cs) = let rest = before_semicolon cs in if c == b';' then [] else c ∷ rest

unfoldable pub normalize_mime : String → List ℕ
unfolding trim_space to_lower before_semicolon code_points
normalize_mime mime = map to_lower (trim_space (before_semicolon (code_points mime)))

abbrev pub image_mime : List String
image_mime = "image/png" ∷ "image/jpeg" ∷ "image/webp" ∷ "image/gif" ∷ []

abbrev pub document_mime : List String
document_mime = "application/pdf" ∷ "text/plain" ∷ "text/csv" ∷ []

abbrev pub textual_mime : List String
textual_mime = "text/plain" ∷ "text/csv" ∷ []

unfoldable pub listed : List String → String → Bool
unfolding normalize_mime same_points code_points
listed types mime = any (λ t. same_points (code_points t) (normalize_mime mime)) types

unfoldable pub is_textual : String → Bool
unfolding listed
is_textual mime = listed textual_mime mime

unfoldable pub allowed_mime : PartKind → String → Bool
unfolding listed
allowed_mime PartKind.image mime = listed image_mime mime
allowed_mime PartKind.document mime = listed document_mime mime
allowed_mime _ mime = false
