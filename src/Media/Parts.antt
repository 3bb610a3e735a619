-- ===== src/Media/Parts.antt =====
-- What a part of a turn has to be, so that validate lets it through (media.go, Validate).
use ia_harness.Base.{
  ℤ, pos, ◌≤ℤ◌, ◌<ℤ◌, ◌<◌, ◌==◌, leb_ℤ, ltb_ℤ, ◌≡◌, refl, sym, ◌∙◌, ◌⊎◌, inl, inr, true, false, not,
  ◌&&◌, ◌||◌, none, some, List, [], ◌∷◌, arith, if◌then◌else◌, length, is_empty, Option-cases,
  Bool-cases, if-true, if-false,
}
use ia_harness.Core.Message.{PartKind, Part, Media}
use ia_harness.Core.Config.{Capabilities}
use ia_harness.Media.Mime.{is_textual, allowed_mime, is_blank}
use ia_harness.Media.{is_image, is_document, max_bytes, one_source, check_media, part_error}

-- What a part has to be, apart from the order of the tests.
abbrev pub IsWithin : Capabilities → ℤ → Type 0
IsWithin caps size =
    (pos 0 <ℤ size)
    × (((caps.max_media_bytes ≤ℤ pos 0) × (size ≤ℤ pos 5_242_880))
        ⊎ ((pos 0 <ℤ caps.max_media_bytes) × (size ≤ℤ caps.max_media_bytes)))

-- Bytes or a reference, and not both.
abbrev pub HasOneSource : Media → Type 0
HasOneSource m =
    ((0 < length m.bytes) × (is_blank m.reference ≡ true))
    ⊎ ((length m.bytes ≡ 0) × (is_blank m.reference ≡ false))

abbrev pub IsSound : Capabilities → PartKind → Media → Type 0
IsSound caps kind m =
    (allowed_mime kind m.mime ≡ true) × IsWithin caps m.size_bytes × HasOneSource m

pub data IsAcceptable (caps : Capabilities) (part : Part) : Type 0 where
  no_media : part.media ≡ none → IsAcceptable caps part
  other : is_image part.kind ≡ false → is_document part.kind ≡ false → IsAcceptable caps part
  image :
      (m : Media)
      → part.media ≡ some m
      → is_image part.kind ≡ true
      → IsSound caps part.kind m
      → caps.vision ≡ true
      → IsAcceptable caps part
  document :
      (m : Media)
      → part.media ≡ some m
      → is_document part.kind ≡ true
      → IsSound caps part.kind m
      → (is_textual m.mime ≡ true) ⊎ (caps.documents ≡ true)
      → IsAcceptable caps part

IsWithin-limit :
    (caps : Capabilities) (m : Media)
    → leb_ℤ m.size_bytes (pos 0) ≡ false
    → ltb_ℤ (max_bytes caps) m.size_bytes ≡ false
    → IsWithin caps m.size_bytes
IsWithin-limit caps m some_bytes small = elim (Bool-cases (leb_ℤ caps.max_media_bytes (pos 0))) [
  | inl default ↦
      (ground (arith, some_bytes), inl (ground (arith, default), ground (arith, default, small)))
  | inr own ↦ (ground (arith, some_bytes), inr (ground (arith, own), ground (arith, own, small)))
]

IsWithin-tests :
    (caps : Capabilities) (m : Media)
    → IsWithin caps m.size_bytes
    → (leb_ℤ m.size_bytes (pos 0) ≡ false) × (ltb_ℤ (max_bytes caps) m.size_bytes ≡ false)
IsWithin-tests caps m (up, inl (default, small)) =
    (ground (arith, up), ground (arith, default, small))
IsWithin-tests caps m (up, inr (own, small)) = (ground (arith, up), ground (arith, own, small))

is_empty-length : {A : Type 0} (xs : List A) → is_empty xs ≡ (length xs == 0)
is_empty-length [] = refl
is_empty-length (x ∷ xs) = ground arith

one_source-HasOneSource : (m : Media) → one_source m ≡ true → HasOneSource m
one_source-HasOneSource m h = elim (Bool-cases (is_empty m.bytes)) [
  | inl nothing ↦ inr (ground (arith, nothing, is_empty-length m.bytes), ground (arith, h, nothing))
  | inr some_bytes ↦
      inl (ground (arith, some_bytes, is_empty-length m.bytes), ground (arith, h, some_bytes))
]

HasOneSource-one_source : (m : Media) → HasOneSource m → one_source m ≡ true
HasOneSource-one_source m (inl (some_bytes, blank)) =
    ground (arith, some_bytes, blank, is_empty-length m.bytes)
HasOneSource-one_source m (inr (nothing, given)) =
    ground (arith, nothing, given, is_empty-length m.bytes)

check_media-IsSound :
    (caps : Capabilities) (kind : PartKind) (m : Media)
    → check_media caps kind m ≡ none
    → IsSound caps kind m
      × ((is_image kind && not caps.vision) ≡ false)
      × ((is_document kind && not (is_textual m.mime) && not caps.documents) ≡ false)
unfolding check_media
check_media-IsSound caps kind m h =
    let mime : allowed_mime kind m.mime ≡ true = ground (arith, h) in
    let some_bytes : leb_ℤ m.size_bytes (pos 0) ≡ false = ground (arith, h) in
    let small : ltb_ℤ (max_bytes caps) m.size_bytes ≡ false = ground (arith, h) in
    let source : one_source m ≡ true = ground (arith, h) in
    (
      (mime, IsWithin-limit caps m some_bytes small, one_source-HasOneSource m source),
      ground (arith, h),
      ground (arith, h),
    )

IsSound-check_media :
    (caps : Capabilities) (kind : PartKind) (m : Media)
    → IsSound caps kind m
    → (is_image kind && not caps.vision) ≡ false
    → (is_document kind && not (is_textual m.mime) && not caps.documents) ≡ false
    → check_media caps kind m ≡ none
unfolding check_media
IsSound-check_media caps kind m (mime, within, source) sees reads =
    let (some_bytes, small) = IsWithin-tests caps m within in
    rw (mime, some_bytes, small, HasOneSource-one_source m source, sees, reads) refl

image-not_document : (kind : PartKind) → is_image kind ≡ true → is_document kind ≡ false
image-not_document PartKind.document h = absurd (ground (arith, h))
image-not_document _ h = refl

not_image : (kind : PartKind) → is_document kind ≡ true → is_image kind ≡ false
not_image PartKind.image h = absurd (ground (arith, h))
not_image _ h = refl

-- The test of one part in terms of its media.
with_media :
    (caps : Capabilities) (part : Part) (m : Media)
    → part.media ≡ some m
    → part_error caps part
      ≡ (if is_image part.kind || is_document part.kind then check_media caps part.kind m else none)
with_media caps part m e = rw e refl

checked :
    (caps : Capabilities) (part : Part) (m : Media)
    → part.media ≡ some m
    → (is_image part.kind || is_document part.kind) ≡ true
    → part_error caps part ≡ check_media caps part.kind m
checked caps part m e h = with_media caps part m e ∙ if-true _ _ _ h

pub part_error-IsAcceptable :
    (caps : Capabilities) (part : Part) → part_error caps part ≡ none → IsAcceptable caps part
part_error-IsAcceptable caps part h = elim (Option-cases part.media) [
  | inl e ↦ no_media e
  | inr (m, e) ↦ elim (Bool-cases (is_image part.kind)) [
    | inl i ↦
        let (sound, sees, reads) =
          check_media-IsSound caps part.kind m
            (sym (checked caps part m e (ground (arith, i))) ∙ h) in
        image m e i sound (ground (arith, i, sees))
    | inr i ↦ elim (Bool-cases (is_document part.kind)) [
      | inl d ↦
          let (sound, sees, reads) =
            check_media-IsSound caps part.kind m
              (sym (checked caps part m e (ground (arith, i, d))) ∙ h) in
          document m e d sound (elim (Bool-cases (is_textual m.mime)) [
            | inl text ↦ inl text
            | inr binary ↦ inr (ground (arith, d, binary, reads))
          ])
      | inr d ↦ other i d
    ]
  ]
]

pub IsAcceptable-part_error :
    (caps : Capabilities) (part : Part) → IsAcceptable caps part → part_error caps part ≡ none
IsAcceptable-part_error caps part (no_media e) = rw e refl
IsAcceptable-part_error caps part (other i d) = elim (Option-cases part.media) [
  | inl e ↦ rw e refl
  | inr (m, e) ↦
      with_media caps part m e
      ∙ if-false (is_image part.kind || is_document part.kind) _ _ (ground (arith, i, d))
]
IsAcceptable-part_error caps part (image m e i h v) =
    checked caps part m e (ground (arith, i))
    ∙ IsSound-check_media caps part.kind m h (ground (arith, v))
        (ground (arith, image-not_document part.kind i))
IsAcceptable-part_error caps part (document m e d h r) =
    checked caps part m e (ground (arith, d))
    ∙ IsSound-check_media caps part.kind m h (ground (arith, not_image part.kind d))
        (elim r [ inl text ↦ ground (arith, text) | inr can ↦ ground (arith, can) ])
