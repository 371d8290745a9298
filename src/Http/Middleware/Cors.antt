-- ===== src/Http/Middleware/Cors.antt =====
-- Which origins `WithCORS` allows, and what it answers by itself.
use text.Mathlib.Text.{◌==◌ as str_eq}
use mathlib.Core.List.{Memᴰ}
use mathlib.Core.List.Memᴰ.{head, tail, not-nil, cases_cons}
use supply_chain_game.Prelude.{
  ◌≡◌, ◌≢◌, ◌⊎◌, ◌↔◌, inl, inr, refl, sym, ◌∙◌, Bool, true, false, ◌||◌, Bool-cases, String, List,
  [], ◌∷◌, if◌then◌else◌,
}
use supply_chain_game.Prelude.Texts.{not_equal, equal_of, different_of}
use supply_chain_game.Http.Answers.{Writer, Headers, get_header, set_header}
use supply_chain_game.Http.Answers.Headers.{get_header-set_header, get_header-set_other}
use supply_chain_game.Http.Middleware.{
  allows_any, is_allowed_origin, may_ask, cors_headers, cors_writer, append_vary,
}

allows_any-mem : (origins : List String) → allows_any origins ≡ true → Memᴰ "*" origins
unfolding allows_any
allows_any-mem [] e = cc
allows_any-mem (origin ∷ rest) e = elim (Bool-cases (str_eq origin "*")) [
  | inl hit ↦ head (sym (equal_of hit))
  | inr miss ↦ tail (allows_any-mem rest (rw miss at e))
]

is_allowed_origin-mem :
    (origin : String) (origins : List String)
    → is_allowed_origin origin origins ≡ true
    → Memᴰ origin origins
unfolding is_allowed_origin
is_allowed_origin-mem origin [] e = cc
is_allowed_origin-mem origin (allowed ∷ rest) e = elim (Bool-cases (str_eq allowed "*")) [
  | inl any ↦ tail (is_allowed_origin-mem origin rest (rw any at e))
  | inr plain ↦ elim (Bool-cases (str_eq allowed origin)) [
    | inl hit ↦ head (sym (equal_of hit))
    | inr miss ↦ tail (is_allowed_origin-mem origin rest (rw (plain, miss) at e))
  ]
]

or_true : (b : Bool) → (b || true) ≡ true
or_true true = refl
or_true false = refl

passed : {x y : String} {rest : List String} → str_eq y x ≡ false → Memᴰ x (y ∷ rest) → Memᴰ x rest
passed {x} {y} differs m = elim (cases_cons m) [
  | inl same ↦ absurd (different_of differs (sym same))
  | inr later ↦ later
]

listed :
    (origin : String) (origins : List String)
    → Memᴰ "*" origins ⊎ Memᴰ origin origins
    → (allows_any origins || is_allowed_origin origin origins) ≡ true
unfolding allows_any is_allowed_origin
listed origin [] (inl m) = absurd (not-nil m)
listed origin [] (inr m) = absurd (not-nil m)
listed origin (allowed ∷ rest) among = elim (Bool-cases (str_eq allowed "*")) [
  | inl any ↦ rw any refl
  | inr plain ↦ elim (Bool-cases (str_eq allowed origin)) [
    | inl hit ↦ rw (plain, hit) (or_true (allows_any rest))
    | inr miss ↦
        rw (plain, miss)
          (listed origin rest
            (elim among [ inl m ↦ inl (passed plain m) | inr m ↦ inr (passed miss m) ]))
  ]
]

-- An origin is granted where the configuration has it, or has `*`.
abbrev pub IsGranted : List String → String → Type 0
IsGranted origins origin = (origin ≢ "") × (Memᴰ "*" origins ⊎ Memᴰ origin origins)

may_ask-IsGranted :
    (origins : List String) (origin : String)
    → (may_ask origins origin ≡ true) ↔ IsGranted origins origin
unfolding may_ask
may_ask-IsGranted origins origin = (granted, asks)
  where
    among :
        (allows_any origins || is_allowed_origin origin origins) ≡ true
        → Memᴰ "*" origins ⊎ Memᴰ origin origins
    among e = elim (Bool-cases (allows_any origins)) [
      | inl any ↦ inl (allows_any-mem origins any)
      | inr no_any ↦ inr (is_allowed_origin-mem origin origins (rw no_any at e))
    ]

    granted : may_ask origins origin ≡ true → IsGranted origins origin
    granted e = elim (Bool-cases (str_eq origin "")) [
      | inl none ↦ cc
      | inr some_text ↦ (λ same. cc, among (rw some_text at e))
    ]

    asks : IsGranted origins origin → may_ask origins origin ≡ true
    asks (some_text, known) = rw (not_equal some_text) (listed origin origins known)

header_of_cors_headers :
    (origins : List String) (origin : String) (headers : Headers)
    → get_header "Access-Control-Allow-Origin" (cors_headers origins origin headers)
      ≡ (if allows_any origins then "*" else origin)
unfolding cors_headers
header_of_cors_headers origins origin headers =
    get_header-set_other "Access-Control-Allow-Origin" "Access-Control-Allow-Headers" _ _ refl
    ∙ get_header-set_other "Access-Control-Allow-Origin" "Access-Control-Allow-Methods" _ _ refl
    ∙ chosen (allows_any origins)
  where
    chosen :
        (any : Bool)
        → get_header "Access-Control-Allow-Origin" (
            if any
            then set_header "Access-Control-Allow-Origin" "*" headers
            else set_header "Vary"
                (append_vary (get_header "Vary" headers) "Origin")
                (set_header "Access-Control-Allow-Origin" origin headers))
          ≡ (if any then "*" else origin)
    chosen true = get_header-set_header "Access-Control-Allow-Origin" "*" headers
    chosen false =
        get_header-set_other "Access-Control-Allow-Origin" "Vary" _ _ refl
        ∙ get_header-set_header "Access-Control-Allow-Origin" origin headers

-- For a writer without the header `Access-Control-Allow-Origin`: an origin that the configuration
-- has, or any origin if it has `*`, is answered by that header, which then is `*` or the origin; to
-- any other origin, and to none, the header is not sent.
pub cors_writer-grants :
    (origins : List String) (origin : String) (w : Writer)
    → get_header "Access-Control-Allow-Origin" w.headers ≡ ""
    → (IsGranted origins origin
        → get_header "Access-Control-Allow-Origin" (cors_writer origins origin w).headers
          ≡ (if allows_any origins then "*" else origin))
      × ((IsGranted origins origin → ⊥)
          → get_header "Access-Control-Allow-Origin" (cors_writer origins origin w).headers ≡ "")
unfolding cors_writer
cors_writer-grants origins origin w missing = (
  λ granted.
      rw ((may_ask-IsGranted origins origin).1 granted)
        (header_of_cors_headers origins origin w.headers),
  λ refused. elim (Bool-cases (may_ask origins origin)) [
    | inl asks ↦ absurd (refused ((may_ask-IsGranted origins origin).0 asks))
    | inr silent ↦ rw silent missing
  ],
)

pub cors_writer-flushes :
    (origins : List String) (origin : String) (w : Writer)
    → (cors_writer origins origin w).flushes ≡ w.flushes
unfolding cors_writer
cors_writer-flushes origins origin w = elim (Bool-cases (may_ask origins origin)) [
  | inl asks ↦ rw asks refl
  | inr silent ↦ rw silent refl
]
