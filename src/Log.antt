-- ===== src/Log.antt =====
-- The pattern of a log formatter: `LogFormatter::init` of yk/log.cc. Characters are their codes.
pub mod Scanning
pub mod Patterns
pub mod Faults
mod Runs
use yk_server.Base.{
  ℕ, zero, suc, ◌+◌, Bool, true, false, not, ◌&&◌, ◌||◌, List, [], ◌∷◌, ◌++◌, if◌then◌else◌, leb,
  ◌==◌, Option, none, some, length,
}

-- The characters that the pattern is split at: `%`, `{` and `}`.
abbrev pub percent : ℕ
percent = 37

abbrev pub left_brace : ℕ
left_brace = 123

abbrev pub right_brace : ℕ
right_brace = 125

-- `isalpha` in the C locale.
abbrev pub is_alpha : ℕ → Bool
is_alpha c = (leb 65 c && leb c 90) || (leb 97 c && leb c 122)

-- `!isalpha(c) && c != '{' && c != '}'`
abbrev pub ends_name : ℕ → Bool
ends_name c = not (is_alpha c) && (not (c == left_brace) && not (c == right_brace))

-- An element of `vec`: text (0), or an item with its format (1).
pub data Piece : Type 0 where
  text : List ℕ → Piece
  item : List ℕ → List ℕ → Piece

-- What the inner loop leaves: `fmt_status`, `str`, `fmt` and the characters from `n` on.
pub record Scan : Type 0 where
  pub closed : Bool
  pub str : List ℕ
  pub fmt : List ℕ
  pub rest : List ℕ

-- The inner loop at `fmt_status` 1, with the characters behind the brace so far.
unfoldable pub scan_format : List ℕ → List ℕ → List ℕ → Scan
scan_format str fmt [] = record { closed = false; str = str; fmt = []; rest = [] }
scan_format str fmt (c ∷ cs) =
    if c == right_brace
    then record { closed = true; str = str; fmt = fmt; rest = cs }
    else scan_format str (fmt ++ (c ∷ [])) cs

-- The inner loop at `fmt_status` 0, with the characters of the name so far. `str` is the whole name where
-- the pattern ends with it.
unfoldable pub scan_name : List ℕ → List ℕ → Scan
scan_name name [] = record { closed = true; str = name; fmt = []; rest = [] }
scan_name name (c ∷ cs) =
    if ends_name c
    then record { closed = true; str = name; fmt = []; rest = c ∷ cs }
    else if c == left_brace
    then scan_format name [] cs
    else scan_name (name ++ (c ∷ [])) cs

-- `vec` and `m_error`
pub record Parsed : Type 0 where
  pub pieces : List Piece
  pub error : Bool

abbrev pub flush : List ℕ → List Piece → List Piece
flush [] ps = ps
flush (c ∷ cs) ps = text (c ∷ cs) ∷ ps

abbrev pub starts_percent : List ℕ → Bool
starts_percent [] = false
starts_percent (c ∷ cs) = c == percent

-- "<<pattern_error>>"
abbrev pub pattern_error : List ℕ
pattern_error =
    60 ∷ 60 ∷ 112 ∷ 97 ∷ 116 ∷ 116 ∷ 101 ∷ 114 ∷ 110 ∷ 95 ∷ 101 ∷ 114 ∷ 114 ∷ 111 ∷ 114 ∷ 62 ∷ 62
    ∷ []

abbrev pub add_item : List ℕ → Scan → Option Parsed → Option Parsed
add_item nstr s none = none
add_item nstr s (some p) = some (record p { pieces = flush nstr (item s.str s.fmt ∷ p.pieces) })

abbrev pub add_error : Option Parsed → Option Parsed
add_error none = none
add_error (some p) = some (record { pieces = text pattern_error ∷ p.pieces; error = true })

-- A round of the outer loop at a `%`, with the rounds behind it.
abbrev pub at_percent : (List ℕ → List ℕ → Option Parsed) → List ℕ → List ℕ → Option Parsed
at_percent loop nstr cs =
    if starts_percent cs
    then loop (nstr ++ (percent ∷ [])) cs
    else if (scan_name [] cs).closed
    then add_item nstr (scan_name [] cs) (loop [] (scan_name [] cs).rest)
    else add_error (loop nstr cs)

-- The outer loop over the pattern from `i` on, with `nstr`; `none` is where the fuel ends.
unfoldable pub parse_loop : ℕ → List ℕ → List ℕ → Option Parsed
parse_loop zero nstr cs = none
parse_loop (suc fuel) nstr [] = some (record { pieces = flush nstr []; error = false })
parse_loop (suc fuel) nstr (c ∷ cs) =
    if not (c == percent)
    then parse_loop fuel (nstr ++ (c ∷ [])) cs
    else at_percent (parse_loop fuel) nstr cs

unfoldable pub parse : List ℕ → Option Parsed
parse pattern = parse_loop (length pattern + 1) [] pattern

-- `m_items`: text, or an item that formats a part of the event.
pub data FormatItem : Type 0 where
  string_item : List ℕ → FormatItem
  event_item : ℕ → List ℕ → FormatItem

-- The keys of `s_format_items`: m, p, r, c, t, n, d, f, l, T, F and N.
abbrev pub format_keys : List ℕ
format_keys = 109 ∷ 112 ∷ 114 ∷ 99 ∷ 116 ∷ 110 ∷ 100 ∷ 102 ∷ 108 ∷ 84 ∷ 70 ∷ 78 ∷ []

abbrev pub is_key : ℕ → List ℕ → Bool
is_key c [] = false
is_key c (k ∷ ks) = (c == k) || is_key c ks

-- "<<error_format %" and ">>"
abbrev pub error_format : List ℕ → List ℕ
error_format str =
    (60 ∷ 60 ∷ 101 ∷ 114 ∷ 114 ∷ 111 ∷ 114 ∷ 95 ∷ 102 ∷ 111 ∷ 114 ∷ 109 ∷ 97 ∷ 116 ∷ 32 ∷ 37 ∷ [])
    ++ (str ++ (62 ∷ 62 ∷ []))

unfoldable pub format_item : Piece → FormatItem
format_item (text s) = string_item s
format_item (item [] fmt) = string_item (error_format [])
format_item (item (c ∷ []) fmt) =
    if is_key c format_keys then event_item c fmt else string_item (error_format (c ∷ []))
format_item (item (c ∷ d ∷ cs) fmt) = string_item (error_format (c ∷ d ∷ cs))

abbrev pub format_items : List Piece → List FormatItem
format_items [] = []
format_items (p ∷ ps) = format_item p ∷ format_items ps

-- `init`: the items, and whether `m_error` is set.
unfoldable pub init : List ℕ → Option (List FormatItem × Bool)
init pattern = elim (parse pattern) [ none ↦ none | some p ↦ some (format_items p.pieces, p.error) ]
