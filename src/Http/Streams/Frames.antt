-- ===== src/Http/Streams/Frames.antt =====
-- The lines of a stream of events.
use Prim.Native.Char.{Char, code}
use Prim.Native.String.{◌++◌ as ◌<>◌}
use text.Mathlib.TextLemmas.{nil-append, cons-append, append_assoc}
use supply_chain_game.Prelude.{
  ◌≡◌, refl, Bool, All, List, [], ◌∷◌, Option, none, some, String, Option-cases, inl, inr, ◌==◌,
}
use supply_chain_game.Prelude.Trim.{split}
use supply_chain_game.Prelude.Trim.Laws.{Lacks, split-none, split-first}
use supply_chain_game.Http.Answers.{PlayerRoomEvent}
use supply_chain_game.Http.Streams.{write_sse_event, write_stream}

abbrev pub is_newline : Char → Bool
is_newline c = code c == b'\n'

abbrev newline : Char
newline = "\n"

-- The text is within one line.
abbrev pub IsLine : String → Type 0
IsLine = Lacks is_newline

append-IsLine : (s t : String) → IsLine s → IsLine t → IsLine (s <> t)
append-IsLine String.[] t h k = rw (nil-append t) k
append-IsLine (String.◌∷◌ c s) t (plain, h) k =
    rw (cons-append c s t) (plain, append-IsLine s t h k)

-- A line, and what comes after it.
split-line :
    (s t : String) → IsLine s → split is_newline (s <> ("\n" <> t)) ≡ s ∷ split is_newline t
split-line s t h =
    rw (cons-append newline "" t, nil-append t) (split-first is_newline s t newline refl h)

-- The lines of an event of which there is JSON, its name, its data and an empty line, in front of
-- those that follow.
abbrev pub frame_lines : String → Option String → List String → List String
frame_lines kind none rest = rest
frame_lines kind (some payload) rest = ("event: " <> kind) ∷ ("data: " <> payload) ∷ "" ∷ rest

module _ {F : Type 0} (marshal : PlayerRoomEvent F → Option String) where
  abbrev pub lines_of : List (PlayerRoomEvent F) → List String
  lines_of [] = "" ∷ []
  lines_of (event ∷ rest) = frame_lines event.kind (marshal event) (lines_of rest)

  written :
      (kind payload more : String)
      → (("event: " <> (kind <> "\n")) <> ("data: " <> (payload <> "\n\n"))) <> more
        ≡ ("event: " <> kind) <> ("\n" <> (("data: " <> payload) <> ("\n" <> ("\n" <> more))))
  written kind payload more =
      let two : "\n\n" <> more ≡ "\n" <> ("\n" <> more) = append_assoc "\n" "\n" more in
      simp (append_assoc, two)

  split-frame :
      (kind payload more : String)
      → IsLine kind
      → IsLine payload
      → split is_newline
          ((("event: " <> (kind <> "\n")) <> ("data: " <> (payload <> "\n\n"))) <> more)
        ≡ ("event: " <> kind) ∷ ("data: " <> payload) ∷ "" ∷ split is_newline more
  split-frame kind payload more h k =
      rw
        (
          written kind payload more,
          split-line ("event: " <> kind) (("data: " <> payload) <> ("\n" <> ("\n" <> more))) (
              append-IsLine "event: " kind
                (refl, (refl, (refl, (refl, (refl, (refl, (refl, tt))))))) h),
          split-line ("data: " <> payload) ("\n" <> more)
              (append-IsLine "data: " payload (refl, (refl, (refl, (refl, (refl, (refl, tt)))))) k),
          ← nil-append ("\n" <> more),
          split-line "" more tt,
        )
        refl

  -- When each name and each JSON text is within one line, the lines of a stream are the name, the
  -- data and an empty line for each event of which there is JSON, in order: no event runs into
  -- another.
  pub write_stream-lines :
      (events : List (PlayerRoomEvent F))
      → All (λ event. IsLine event.kind) events
      → ((event : PlayerRoomEvent F) (payload : String)
          → marshal event ≡ some payload
          → IsLine payload)
      → split is_newline (write_stream marshal events) ≡ lines_of events
  unfolding write_stream write_sse_event
  write_stream-lines [] h k = split-none is_newline "" tt
  write_stream-lines (event ∷ rest) (plain, h) k = elim (Option-cases (marshal event)) [
    | inl none_made ↦
        rw (write_stream, write_sse_event, none_made, nil-append (write_stream marshal rest))
          (write_stream-lines rest h k)
    | inr (payload, made) ↦
        rw
          (
            write_stream,
            write_sse_event,
            made,
            split-frame event.kind payload (write_stream marshal rest) plain (k event payload made),
            write_stream-lines rest h k,
          )
          refl
  ]
