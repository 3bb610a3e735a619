-- ===== src/Stderr/Tests.antt =====
-- A child that writes a line in two pieces, with a secret across them.
use ia_harness.Base.{◌≡◌, refl, true, [], ◌∷◌, ◌++◌}
use ia_harness.Core.Message.{Bytes}
use ia_harness.Core.Text.{utf8}
use ia_harness.Stderr.{Sink, new_sink, write}
use ia_harness.Stderr.Chunks.{write-append}

abbrev key : Bytes
key = b'k' ∷ b'e' ∷ b'y' ∷ []

abbrev sink : Sink
sink = new_sink true (key ∷ [])

abbrev first_piece : Bytes
first_piece = b'a' ∷ b'k' ∷ b'e' ∷ []

abbrev second_piece : Bytes
second_piece = b'y' ∷ b'z' ∷ 10 ∷ b'o' ∷ []

shown :
    (write second_piece (write first_piece sink)).logged
    ≡ (b'a' ∷ utf8 "[REDACTED]" ++ b'z' ∷ []) ∷ []
unfolding write
shown = refl

write-append_example :
    write (first_piece ++ second_piece) sink ≡ write second_piece (write first_piece sink)
write-append_example = write-append first_piece second_piece sink
