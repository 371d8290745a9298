-- ===== src/Http/Paths/RoundTrip.antt =====
-- Which paths name a room and an action.
use Prim.Native.Char.{Char}
use Prim.Native.String.{◌++◌ as ◌<>◌}
use text.Mathlib.TextLemmas.{nil-append, cons-append, append_assoc}
use supply_chain_game.Prelude.{◌≡◌, ◌≢◌, refl, ap, ◌∙◌, [], ◌∷◌, String}
use supply_chain_game.Prelude.Trim.{trim_left, cons_trimmed, trim_right, trim, split}
use supply_chain_game.Prelude.Trim.Laws.{Lacks, split-none, split-first}
use supply_chain_game.Http.Paths.{is_slash, room_parts, parse_room_path}

-- A part of a path.
abbrev pub HasNoSlash : String → Type 0
HasNoSlash = Lacks is_slash

abbrev pub slash : Char
slash = "/"

pub slash-append : (t : String) → "/" <> t ≡ String.◌∷◌ slash t
slash-append t = cons-append slash "" t ∙ ap (String.◌∷◌ slash) (nil-append t)

split-append :
    (s t : String) → HasNoSlash s → split is_slash (s <> ("/" <> t)) ≡ s ∷ split is_slash t
split-append s t h = rw (slash-append t) (split-first is_slash s t slash refl h)

-- A text that ends in a plain character is not trimmed on the right.
trim_right-plain :
    (c : Char) (s : String)
    → HasNoSlash (String.◌∷◌ c s)
    → trim_right is_slash (String.◌∷◌ c s) ≡ String.◌∷◌ c s
unfolding trim_right
trim_right-plain c String.[] (plain, h) = rw plain refl
trim_right-plain c (String.◌∷◌ d s) (plain, h) = rw (trim_right-plain d s h) refl

trim_right-cons :
    (d e : Char) (s : String)
    → trim_right is_slash (String.◌∷◌ e s) ≡ String.◌∷◌ e s
    → trim_right is_slash (String.◌∷◌ d (String.◌∷◌ e s)) ≡ String.◌∷◌ d (String.◌∷◌ e s)
unfolding trim_right
trim_right-cons d e s h = ap (cons_trimmed is_slash d) h

trim_right-append :
    (a : String) (c : Char) (s : String)
    → HasNoSlash (String.◌∷◌ c s)
    → trim_right is_slash (a <> String.◌∷◌ c s) ≡ a <> String.◌∷◌ c s
trim_right-append String.[] c s h = rw (nil-append (String.◌∷◌ c s)) (trim_right-plain c s h)
trim_right-append (String.◌∷◌ d String.[]) c s h =
    rw (cons-append d "" (String.◌∷◌ c s), nil-append (String.◌∷◌ c s))
      (trim_right-cons d c s (trim_right-plain c s h))
trim_right-append (String.◌∷◌ d (String.◌∷◌ e a)) c s h =
    let rest = trim_right-append (String.◌∷◌ e a) c s h in
    rw (cons-append d (String.◌∷◌ e a) (String.◌∷◌ c s), cons-append e a (String.◌∷◌ c s))
      (trim_right-cons d e (a <> String.◌∷◌ c s) (rw (← cons-append e a (String.◌∷◌ c s)) rest))

-- A leading slash goes, and nothing more.
trim_left-rooms : (t : String) → trim_left is_slash ("/rooms/" <> t) ≡ "rooms/" <> t
unfolding trim_left
trim_left-rooms t = rw (cons-append slash "rooms/" t, cons-append "r" "ooms/" t) refl

trim-rooms :
    (a : String) (c : Char) (s : String)
    → HasNoSlash (String.◌∷◌ c s)
    → trim is_slash ("/rooms/" <> (a <> String.◌∷◌ c s)) ≡ "rooms/" <> (a <> String.◌∷◌ c s)
unfolding trim
trim-rooms a c s h =
    rw (trim_left-rooms (a <> String.◌∷◌ c s), ← append_assoc "rooms/" a (String.◌∷◌ c s))
      (trim_right-append ("rooms/" <> a) c s h)

split-rooms : (t : String) → split is_slash ("rooms/" <> t) ≡ "rooms" ∷ split is_slash t
split-rooms t =
    ap (split is_slash) (append_assoc "rooms" "/" t)
    ∙ split-append "rooms" t (refl, (refl, (refl, (refl, (refl, tt)))))

-- The path of an action on a room is read back, for a room and an action without a slash and an
-- action that is not empty.
pub parse_room_path-action :
    (room_id action : String)
    → HasNoSlash room_id
    → HasNoSlash action
    → action ≢ ""
    → parse_room_path ("/rooms/" <> (room_id <> ("/" <> action))) ≡ (room_id, action)
unfolding parse_room_path room_parts
parse_room_path-action room_id String.[] h k some_action = absurd (some_action refl)
parse_room_path-action room_id (String.◌∷◌ c s) h k some_action =
    let action : String = String.◌∷◌ c s in
    let trimmed : trim is_slash ("/rooms/" <> (room_id <> ("/" <> action)))
        ≡ "rooms/" <> (room_id <> ("/" <> action)) =
      rw (← append_assoc room_id "/" action) (trim-rooms (room_id <> "/") c s k) in
    let parts : split is_slash ("rooms/" <> (room_id <> ("/" <> action)))
        ≡ "rooms" ∷ room_id ∷ action ∷ [] =
      rw
        (
          split-rooms (room_id <> ("/" <> action)),
          split-append room_id action h,
          split-none is_slash action k,
        )
        refl in
    ap (λ t. room_parts (split is_slash t)) trimmed ∙ ap room_parts parts

-- So is the path of a room itself.
parse_room_path-room :
    (room_id : String)
    → HasNoSlash room_id
    → room_id ≢ ""
    → parse_room_path ("/rooms/" <> room_id) ≡ (room_id, "")
unfolding parse_room_path room_parts
parse_room_path-room String.[] h some_id = absurd (some_id refl)
parse_room_path-room (String.◌∷◌ c s) h some_id =
    let room_id : String = String.◌∷◌ c s in
    let trimmed : trim is_slash ("/rooms/" <> room_id) ≡ "rooms/" <> room_id =
      rw (← nil-append room_id) (trim-rooms "" c s h) in
    let parts : split is_slash ("rooms/" <> room_id) ≡ "rooms" ∷ room_id ∷ [] =
      rw (split-rooms room_id, split-none is_slash room_id h) refl in
    ap (λ t. room_parts (split is_slash t)) trimmed ∙ ap room_parts parts
