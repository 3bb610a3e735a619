-- ===== src/Media/Acceptance.antt =====
-- Which media validate accepts, and that a model that takes them supports them.
use ia_harness.Base.{
  ℕ, suc, ◌+◌, ◌≤◌, ◌≡◌, refl, ◌↔◌, inl, inr, Bool, true, false, not, ◌&&◌, ◌||◌, Option, none,
  some, List, [], ◌∷◌, arith, ltb, if◌then◌else◌, length, filter, All, Result, ok, failed,
  Option-cases,
}
use ia_harness.Core.Message.{PartKind, Part, Media}
use ia_harness.Core.Config.{Capabilities}
use ia_harness.Media.Mime.{is_textual}
use ia_harness.Media.Parts.{IsAcceptable, part_error-IsAcceptable, IsAcceptable-part_error}
use ia_harness.Media.{
  MediaError, excess, is_image, is_document, is_media_part, needs_vision, needs_documents, required,
  supports, check_media, part_error, unless_error, validate_from, validate,
}

abbrev accepted : Result MediaError (Unit {0})
accepted = ok tt

abbrev pub media_count : List Part → ℕ
media_count parts = length (filter is_media_part parts)

after_error :
    (e : Option MediaError) (rest : Result MediaError (Unit {0}))
    → unless_error e rest ≡ ok tt
    → (e ≡ none) × (rest ≡ ok tt)
after_error none rest h = (refl, h)
after_error (some e) rest h = cc

counted :
    (count : ℕ) (part : Part) (parts : List Part)
    → (if is_media_part part then suc count else count) + media_count parts
      ≡ count + media_count (part ∷ parts)
counted count part parts = ground arith

validate_from-accepts :
    (caps : Capabilities) (count : ℕ) (parts : List Part)
    → validate_from caps count parts ≡ ok tt
    → All (λ part. part_error caps part ≡ none) parts × (count + media_count parts ≤ 10)
unfolding validate_from
validate_from-accepts caps count [] h = (tt, within h)
  where
    within :
        (if ltb 10 count then failed excess else ok tt) ≡ accepted → count + media_count [] ≤ 10
    within e = ground arith
validate_from-accepts caps count (part ∷ parts) h =
    let (fine, more) = after_error (part_error caps part) _ h in
    let (others, few) = validate_from-accepts caps _ parts more in
    ((fine, others), omega (arith, counted count part parts))

accepts-validate_from :
    (caps : Capabilities) (count : ℕ) (parts : List Part)
    → All (λ part. part_error caps part ≡ none) parts
    → count + media_count parts ≤ 10
    → validate_from caps count parts ≡ ok tt
unfolding validate_from
accepts-validate_from caps count [] h few = within few
  where
    within :
        count + media_count [] ≤ 10 → (if ltb 10 count then failed excess else ok tt) ≡ accepted
    within e = ground arith
accepts-validate_from caps count (part ∷ parts) h few = rw (
  h.0,
  accepts-validate_from caps (if is_media_part part then suc count else count) parts h.1
      (omega (arith, counted count part parts)),
)

All-IsAcceptable :
    (caps : Capabilities) (parts : List Part)
    → All (λ part. part_error caps part ≡ none) parts
    → All (IsAcceptable caps) parts
All-IsAcceptable caps [] h = tt
All-IsAcceptable caps (part ∷ parts) h =
    (part_error-IsAcceptable caps part h.0, All-IsAcceptable caps parts h.1)

All-passes :
    (caps : Capabilities) (parts : List Part)
    → All (IsAcceptable caps) parts
    → All (λ part. part_error caps part ≡ none) parts
All-passes caps [] h = tt
All-passes caps (part ∷ parts) h =
    (IsAcceptable-part_error caps part h.0, All-passes caps parts h.1)

-- A set of parts is accepted exactly where there are at most ten media among them and each image and each document
-- is of an allowed type, has a size above 0 within the limit of the model, or 5 MiB where it has none, and one
-- source, bytes or a reference; the model sees, for an image, and it reads documents, for one that is not text.
pub validate-ok_iff :
    (caps : Capabilities) (parts : List Part)
    → (validate caps parts ≡ ok tt) ↔ (All (IsAcceptable caps) parts × (media_count parts ≤ 10))
unfolding validate
validate-ok_iff caps parts = (
  λ h.
      let (fine, few) = validate_from-accepts caps 0 parts h in
      (All-IsAcceptable caps parts fine, omega (arith, few)),
  λ (fine, few).
      accepts-validate_from caps 0 parts (All-passes caps parts fine) (omega (arith, few)),
)

check_media-covered :
    (caps : Capabilities) (kind : PartKind) (m : Media)
    → check_media caps kind m ≡ none
    → ((is_image kind && not caps.vision) ≡ false)
      × ((is_document kind && not (is_textual m.mime) && not caps.documents) ≡ false)
unfolding check_media
check_media-covered caps kind m h = ground arith

-- A part that passes needs nothing that the model lacks.
part_error-covered :
    (caps : Capabilities) (part : Part)
    → part_error caps part ≡ none
    → ((needs_vision part && not caps.vision) ≡ false)
      × ((needs_documents part && not caps.documents) ≡ false)
part_error-covered caps part h = elim (Option-cases part.media) [
  | inl e ↦ rw e (refl, refl)
  | inr (m, e) ↦ ground (arith, check_media-covered caps part.kind m)
]

either-and : (a b c : Bool) → (a && c) ≡ false → (b && c) ≡ false → ((a || b) && c) ≡ false
either-and a b c h k = ground arith

required-covered :
    (caps : Capabilities) (parts : List Part)
    → All (λ part. part_error caps part ≡ none) parts
    → (((required parts).0 && not caps.vision) ≡ false)
      × (((required parts).1 && not caps.documents) ≡ false)
unfolding required
required-covered caps [] h = (refl, refl)
required-covered caps (part ∷ parts) h =
    let (sees, reads) = part_error-covered caps part h.0 in
    let (see, read) = required-covered caps parts h.1 in
    (
      either-and (needs_vision part) (required parts).0 (not caps.vision) sees see,
      either-and (needs_documents part) (required parts).1 (not caps.documents) reads read,
    )

supported :
    (caps : Capabilities) (vision documents : Bool)
    → (vision && not caps.vision) ≡ false
    → (documents && not caps.documents) ≡ false
    → (if vision && not caps.vision then false else not (documents && not caps.documents)) ≡ true
supported caps vision documents v d = rw (v, d)

-- A model that the validation accepts for a set of media also counts as one that supports them, so
-- the first attempt never sends media that the rule for fallbacks would refuse.
pub supports-validate :
    (caps : Capabilities) (parts : List Part)
    → validate caps parts ≡ ok tt
    → supports caps parts ≡ true
unfolding supports
supports-validate caps parts h =
    let (fine, few) = (validate-ok_iff caps parts).0 h in
    let (v, d) = required-covered caps parts (All-passes caps parts fine) in
    supported caps (required parts).0 (required parts).1 v d
