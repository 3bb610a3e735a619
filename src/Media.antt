-- ===== src/Media.antt =====
-- internal/engine/media/media.go: which images and documents a turn may send to a model.
pub mod Mime
pub mod Parts
pub mod Acceptance
mod Tests
use ia_harness.Base.{
  ℕ, suc, ℤ, pos, Bool, true, false, not, ◌&&◌, ◌||◌, Option, none, some, List, [], ◌∷◌, ◌++◌, ltb,
  leb_ℤ, ltb_ℤ, if◌then◌else◌, is_empty, filter, Result, ok, failed,
}
use ia_harness.Core.Message.{PartKind, Part, Media, Message}
use ia_harness.Core.Config.{Capabilities}
use Mime.{is_textual, allowed_mime, is_blank}

abbrev pub is_image : PartKind → Bool
is_image PartKind.image = true
is_image _ = false

abbrev pub is_document : PartKind → Bool
is_document PartKind.document = true
is_document _ = false

-- 5 MiB, and ten media of a turn.
abbrev pub default_max_media_bytes : ℤ
default_max_media_bytes = pos 5_242_880

abbrev pub default_max_per_turn : ℕ
default_max_per_turn = 10

abbrev pub is_media_part : Part → Bool
is_media_part part = elim part.media [
  | none ↦ false
  | some m ↦ is_image part.kind || is_document part.kind
]

unfoldable pub from_messages : List Message → List Part
from_messages [] = []
from_messages (m ∷ ms) = filter is_media_part m.parts ++ from_messages ms

-- A binary document, which needs a model that reads documents.
abbrev pub needs_vision : Part → Bool
needs_vision part = elim part.media [ none ↦ false | some m ↦ is_image part.kind ]

abbrev pub needs_documents : Part → Bool
needs_documents part = elim part.media [
  | none ↦ false
  | some m ↦ is_document part.kind && not (is_textual m.mime)
]

-- The two results of the loop, vision first.
unfoldable pub required : List Part → Bool × Bool
required [] = (false, false)
required (part ∷ parts) =
    let (vision, documents) = required parts in
    (needs_vision part || vision, needs_documents part || documents)

unfoldable pub supports : Capabilities → List Part → Bool
unfolding required
supports caps parts =
    let (vision, documents) = required parts in
    if vision && not caps.vision then false else not (documents && not caps.documents)

-- The named errors, by the end of their code.
pub data MediaError : Type 0 where
  mime_not_supported invalid_size too_large invalid_source vision_not_supported : MediaError
  document_not_supported excess : MediaError

abbrev pub max_bytes : Capabilities → ℤ
max_bytes caps =
    if leb_ℤ caps.max_media_bytes (pos 0) then default_max_media_bytes else caps.max_media_bytes

abbrev pub one_source : Media → Bool
one_source m = if not (is_empty m.bytes) then is_blank m.reference else not (is_blank m.reference)

-- The tests of one part with media, in their order.
unfoldable pub check_media : Capabilities → PartKind → Media → Option MediaError
check_media caps kind m =
    if not (allowed_mime kind m.mime)
    then some mime_not_supported
    else if leb_ℤ m.size_bytes (pos 0)
    then some invalid_size
    else if ltb_ℤ (max_bytes caps) m.size_bytes
    then some too_large
    else if not (one_source m)
    then some invalid_source
    else if is_image kind && not caps.vision
    then some vision_not_supported
    else if is_document kind && not (is_textual m.mime) && not caps.documents
    then some document_not_supported
    else none

-- A part that the loop skips has no error and is not counted.
abbrev pub part_error : Capabilities → Part → Option MediaError
part_error caps part = elim part.media [
  | none ↦ none
  | some m ↦
      if is_image part.kind || is_document part.kind then check_media caps part.kind m else none
]

abbrev pub unless_error :
    Option MediaError → Result MediaError (Unit {0}) → Result MediaError (Unit {0})
unless_error (some e) rest = failed e
unless_error none rest = rest

unfoldable pub validate_from : Capabilities → ℕ → List Part → Result MediaError (Unit {0})
unfolding check_media
validate_from caps count [] = if ltb default_max_per_turn count then failed excess else ok tt
validate_from caps count (part ∷ parts) =
    let rest = validate_from caps (if is_media_part part then suc count else count) parts in
    unless_error (part_error caps part) rest

unfoldable pub validate : Capabilities → List Part → Result MediaError (Unit {0})
unfolding validate_from
validate caps parts = validate_from caps 0 parts
