-- ===== src/Http/Paths/Sound.antt =====
-- A path that `parseRoomPath` accepts has the form of a room's path.
use Prim.Native.Char.{Char}
use Prim.Native.String.{◌++◌ as ◌<>◌}
use text.Mathlib.Text.{◌==◌ as str_eq}
use text.Mathlib.TextEquality.{eq_iff, Char-path}
use text.Mathlib.TextLemmas.{nil-append, cons-append}
use supply_chain_game.Prelude.{
  ◌≡◌, ◌≢◌, ◌⊎◌, inl, inr, refl, sym, ◌∙◌, List, [], ◌∷◌, String, Bool-cases, arith,
}
use supply_chain_game.Prelude.Trim.{cons_part, split, trim}
use supply_chain_game.Http.Paths.{is_slash, room_parts, parse_room_path}
use supply_chain_game.Http.Paths.RoundTrip.{slash, slash-append}

-- `strings.Join(parts, "/")`
join : List String → String
join [] = ""
join (part ∷ []) = part
join (part ∷ next ∷ rest) = part <> ("/" <> join (next ∷ rest))

abbrev IsSome : List String → Type 0
IsSome [] = ⊥
IsSome (part ∷ rest) = Unit

cons_part-IsSome : (c : Char) (parts : List String) → IsSome (cons_part c parts)
unfolding cons_part
cons_part-IsSome c [] = tt
cons_part-IsSome c (part ∷ rest) = tt

split-IsSome : (s : String) → IsSome (split is_slash s)
unfolding split
split-IsSome String.[] = tt
split-IsSome (String.◌∷◌ c s) = elim (Bool-cases (is_slash c)) [
  | inl hit ↦ rw hit tt
  | inr miss ↦ rw miss (cons_part-IsSome c (split is_slash s))
]

join-slash : (parts : List String) → IsSome parts → join ("" ∷ parts) ≡ "/" <> join parts
unfolding join
join-slash [] h = absurd h
join-slash (part ∷ rest) h = nil-append ("/" <> join (part ∷ rest))

join-cons_part :
    (c : Char) (parts : List String)
    → IsSome parts
    → join (cons_part c parts) ≡ String.◌∷◌ c (join parts)
unfolding join cons_part
join-cons_part c [] h = absurd h
join-cons_part c (part ∷ []) h = refl
join-cons_part c (part ∷ next ∷ rest) h = cons-append c part ("/" <> join (next ∷ rest))

-- Nothing is lost by splitting.
join-split : (s : String) → join (split is_slash s) ≡ s
unfolding split
join-split String.[] = unfold join in refl
join-split (String.◌∷◌ c s) = elim (Bool-cases (is_slash c)) [
  | inl hit ↦
      let here : c ≡ slash = Char-path c slash (ground (arith, hit)) in
      rw (hit, join-slash (split is_slash s) (split-IsSome s), join-split s, slash-append s, here)
        refl
  | inr miss ↦ rw (miss, join-cons_part c (split is_slash s) (split-IsSome s), join-split s) refl
]

room_parts_sound :
    (parts : List String) (room_id action : String)
    → room_parts parts ≡ (room_id, action)
    → room_id ≢ ""
    → ((parts ≡ "rooms" ∷ room_id ∷ []) × (action ≡ "")) ⊎ (parts ≡ "rooms" ∷ room_id ∷ action ∷ [])
unfolding room_parts
room_parts_sound [] room_id action e some_id = absurd (some_id (cc))
room_parts_sound (first ∷ []) room_id action e some_id = absurd (some_id (cc))
room_parts_sound (first ∷ r ∷ []) room_id action e some_id =
    elim (Bool-cases (str_eq first "rooms")) [
      | inl hit ↦
          let rooms : first ≡ "rooms" = (eq_iff first "rooms").0 hit in
          inl (ground (arith, e, hit, rooms), ground (arith, e, hit))
      | inr miss ↦ absurd (some_id (ground (arith, e, miss)))
    ]
room_parts_sound (first ∷ r ∷ a ∷ []) room_id action e some_id =
    elim (Bool-cases (str_eq first "rooms")) [
      | inl hit ↦
          let rooms : first ≡ "rooms" = (eq_iff first "rooms").0 hit in
          inr (ground (arith, e, hit, rooms))
      | inr miss ↦ absurd (some_id (ground (arith, e, miss)))
    ]
room_parts_sound (first ∷ r ∷ a ∷ b ∷ rest) room_id action e some_id = absurd (some_id (cc))

-- A path with a room is, but for slashes at its ends, `rooms`, the room, and an action or none.
pub parse_room_path_sound :
    (path room_id action : String)
    → parse_room_path path ≡ (room_id, action)
    → room_id ≢ ""
    → ((trim is_slash path ≡ "rooms" <> ("/" <> room_id)) × (action ≡ ""))
      ⊎ (trim is_slash path ≡ "rooms" <> ("/" <> (room_id <> ("/" <> action))))
unfolding parse_room_path
parse_room_path_sound path room_id action e some_id =
    elim (room_parts_sound (split is_slash (trim is_slash path)) room_id action e some_id) [
      | inl (parts, none_left) ↦
          inl (sym (join-split (trim is_slash path)) ∙ rw parts (unfold join in refl), none_left)
      | inr parts ↦ inr (sym (join-split (trim is_slash path)) ∙ rw parts (unfold join in refl))
    ]
