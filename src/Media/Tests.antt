-- ===== src/Media/Tests.antt =====
-- A picture and a table of a turn.
use ia_harness.Base.{pos, ◌≡◌, refl, ◌↔◌, ◌≤◌, true, false, none, some, [], ◌∷◌, All, ok}
use ia_harness.Core.Message.{PartKind, Part}
use ia_harness.Core.Config.{Capabilities}
use ia_harness.Media.Mime.{
  allowed_mime, is_textual, listed, normalize_mime, same_points, trim_space, is_space, to_lower,
  before_semicolon, code_points, is_blank,
}
use ia_harness.Media.{check_media, validate, validate_from}
use ia_harness.Media.Parts.{IsAcceptable}
use ia_harness.Media.Acceptance.{validate-ok_iff}

abbrev picture : Part
picture = record {
  kind = PartKind.image;
  text = [];
  call = none;
  result = none;
  media = some (record {
    mime = " Image/PNG; q=1";
    name = "";
    size_bytes = pos 3;
    bytes = 1 ∷ 2 ∷ 3 ∷ [];
    reference = " ";
  });
}

abbrev seeing : Capabilities
seeing = record {
  tool_calling = true;
  streaming = true;
  max_context_tokens = pos 0;
  max_output_tokens = pos 0;
  vision = true;
  documents = false;
  max_media_bytes = pos 0;
  prompt_caching = false;
}

accepted : validate seeing (picture ∷ []) ≡ ok tt
unfolding validate validate_from check_media allowed_mime is_textual listed normalize_mime
    same_points trim_space is_space to_lower before_semicolon code_points is_blank
accepted = refl

validate-ok_iff_example :
    (validate seeing (picture ∷ []) ≡ ok tt) ↔ (All (IsAcceptable seeing) (picture ∷ []) × (1 ≤ 10))
validate-ok_iff_example = validate-ok_iff seeing (picture ∷ [])
