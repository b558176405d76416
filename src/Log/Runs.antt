-- ===== src/Log/Runs.antt =====
-- Runs of the patterns of yk/log.cc.
use yk_server.Base.{◌≡◌, refl, Bool, false, List, [], ◌∷◌, some, arith}
use yk_server.Log.{
  Piece, text, item, FormatItem, string_item, event_item, pattern_error, parse, init,
}
use yk_server.Log.Scanning.{init_ends}
use yk_server.Log.Patterns.{bare, braced, Pattern, end_text, more, init-print}
use yk_server.Log.Faults.{parse_double}

-- `%d{%Y}[%p]`
abbrev pattern : Pattern
pattern =
    more [] (braced (100 ∷ []) (37 ∷ 89 ∷ []))
      (more (91 ∷ []) (bare (112 ∷ [])) (end_text (93 ∷ [])))

init_ends_example : (r : List FormatItem × Bool) × (init (37 ∷ 37 ∷ 123 ∷ []) ≡ some r)
init_ends_example = init_ends (37 ∷ 37 ∷ 123 ∷ [])

init-print_example :
    init (37 ∷ 100 ∷ 123 ∷ 37 ∷ 89 ∷ 125 ∷ 91 ∷ 37 ∷ 112 ∷ 93 ∷ [])
    ≡ some (
      event_item 100 (37 ∷ 89 ∷ [])
          ∷ string_item (91 ∷ [])
          ∷ event_item 112 []
          ∷ string_item (93 ∷ [])
          ∷ [],
      false,
    )
unfolding yk_server.Log.format_item
init-print_example = init-print pattern (
  tt,
  ((refl, tt), ((λ e. absurd (grind arith)), ((λ e. absurd (grind arith)), tt))),
  (
    ((λ e. absurd (grind arith)), tt),
    ((λ e. absurd (grind arith)), (refl, tt), refl),
    ((λ e. absurd (grind arith)), tt),
  ),
)

parse_double_example :
    parse (37 ∷ 37 ∷ 100 ∷ [])
    ≡ some (record { pieces = text (37 ∷ []) ∷ (item (100 ∷ []) [] ∷ []); error = false })
parse_double_example = parse_double (100 ∷ []) (λ e. absurd (grind arith)) (refl, tt)
