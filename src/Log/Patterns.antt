-- ===== src/Log/Patterns.antt =====
-- Patterns and what `LogFormatter::init` of yk/log.cc reads from them.
use yk_server.Base.{
  ℕ, zero, suc, ◌+◌, ◌<◌, ◌≡◌, ◌≢◌, refl, sym, ap, ◌∙◌, Bool, true, false, List, [], ◌∷◌, ◌++◌,
  if◌then◌else◌, ◌==◌, Option, some, length, All, arith, append_assoc, append-nil, length-append,
}
use yk_server.Log.{
  percent, left_brace, right_brace, ends_name, Piece, item, Scan, scan_format, scan_name, Parsed,
  flush, starts_percent, add_item, add_error, at_percent, parse_loop, parse, format_items, init,
}
use yk_server.Log.Scanning.{Names, alpha-not_end, scan_name-alpha, scan_format-text}

-- An item as it is written: `%name`, or `%name{format}`.
pub data Mark : Type 0 where
  bare : List ℕ → Mark
  braced : List ℕ → List ℕ → Mark

-- A pattern by its parts: texts with items between them.
pub data Pattern : Type 0 where
  end_text : List ℕ → Pattern
  more : List ℕ → Mark → Pattern → Pattern

abbrev pub print_mark : Mark → List ℕ → List ℕ
print_mark (bare name) cs = percent ∷ (name ++ cs)
print_mark (braced name fmt) cs = percent ∷ (name ++ (left_brace ∷ (fmt ++ (right_brace ∷ cs))))

abbrev pub print : Pattern → List ℕ
print (end_text t) = t
print (more t m p) = t ++ print_mark m (print p)

abbrev pub piece_of : Mark → Piece
piece_of (bare name) = item name []
piece_of (braced name fmt) = item name fmt

-- The pieces, with the text that stands before them.
abbrev pub pieces_of : List ℕ → Pattern → List Piece
pieces_of nstr (end_text t) = flush (nstr ++ t) []
pieces_of nstr (more t m p) = flush (nstr ++ t) (piece_of m ∷ pieces_of [] p)

-- Whether a name ends before these characters.
abbrev pub stops : List ℕ → Bool
stops [] = true
stops (c ∷ cs) = ends_name c

abbrev pub NoPercent : List ℕ → Type 0
NoPercent t = All (λ c. c ≢ percent) t

-- A name has letters only; without braces it is not empty, and ends there; a format has no closing brace.
abbrev pub MarkFits : Mark → List ℕ → Type 0
MarkFits (bare name) cs = (name ≢ []) × Names name × (stops cs ≡ true)
MarkFits (braced name fmt) cs = Names name × All (λ c. c ≢ right_brace) fmt

abbrev pub Fits : Pattern → Type 0
Fits (end_text t) = NoPercent t
Fits (more t m p) = NoPercent t × MarkFits m (print p) × Fits p

pub name-starts :
    (name : List ℕ) (d : ℕ) (cs : List ℕ)
    → Names name
    → (d == percent) ≡ false
    → starts_percent (name ++ (d ∷ cs)) ≡ false
name-starts [] d cs h e = e
name-starts (c ∷ name) d cs (h, hs) e = (alpha-not_end c h).2

scan_name-stops :
    (name cs : List ℕ)
    → stops cs ≡ true
    → scan_name name cs ≡ record { closed = true; str = name; fmt = []; rest = cs }
unfolding scan_name
scan_name-stops name [] h = refl
scan_name-stops name (c ∷ cs) h = rw h refl

-- What the inner loop reads of an item.
scan_name-braced :
    (name fmt cs : List ℕ)
    → Names name
    → All (λ c. c ≢ right_brace) fmt
    → scan_name [] (name ++ (left_brace ∷ (fmt ++ (right_brace ∷ cs))))
      ≡ record { closed = true; str = name; fmt = fmt; rest = cs }
unfolding scan_name scan_format
scan_name-braced name fmt cs h k =
    scan_name-alpha name [] (left_brace ∷ (fmt ++ (right_brace ∷ cs))) h
    ∙ scan_format-text fmt name [] (right_brace ∷ cs) k

-- The round of the outer loop at an item.
abbrev at_item : (List ℕ → List ℕ → Option Parsed) → List ℕ → List ℕ → Scan → Option Parsed
at_item loop nstr cs s =
    if s.closed then add_item nstr s (loop [] s.rest) else add_error (loop nstr cs)

at_percent-item :
    (loop : List ℕ → List ℕ → Option Parsed) (nstr cs : List ℕ) (s : Scan)
    → starts_percent cs ≡ false
    → scan_name [] cs ≡ s
    → at_percent loop nstr cs ≡ at_item loop nstr cs s
at_percent-item loop nstr cs s e h = rw e (ap (at_item loop nstr cs) h)

pub parse_loop-mark :
    (fuel : ℕ) (nstr : List ℕ) (m : Mark) (cs : List ℕ) (p : Parsed)
    → MarkFits m cs
    → parse_loop fuel [] cs ≡ some p
    → parse_loop (suc fuel) nstr (print_mark m cs)
      ≡ some (record p { pieces = flush nstr (piece_of m ∷ p.pieces) })
unfolding parse_loop
parse_loop-mark fuel nstr (braced name fmt) cs p (h, k) e =
    at_percent-item (parse_loop fuel) nstr (name ++ (left_brace ∷ (fmt ++ (right_brace ∷ cs))))
      (record { closed = true; str = name; fmt = fmt; rest = cs })
      (name-starts name left_brace (fmt ++ (right_brace ∷ cs)) h refl)
      (scan_name-braced name fmt cs h k)
    ∙ ap (add_item nstr (record { closed = true; str = name; fmt = fmt; rest = cs })) e
parse_loop-mark fuel nstr (bare []) cs p (some_name, h, k) e = absurd (some_name refl)
parse_loop-mark fuel nstr (bare (c ∷ name)) cs p (some_name, (h, hs), k) e =
    at_percent-item (parse_loop fuel) nstr (c ∷ (name ++ cs))
      (record { closed = true; str = c ∷ name; fmt = []; rest = cs }) (alpha-not_end c h).2
      (scan_name-alpha (c ∷ name) [] cs (h, hs) ∙ scan_name-stops (c ∷ name) cs k)
    ∙ ap (add_item nstr (record { closed = true; str = c ∷ name; fmt = []; rest = cs })) e

pub parse_loop-print :
    (fuel : ℕ) (nstr : List ℕ) (p : Pattern)
    → Fits p
    → length (print p) < fuel
    → parse_loop fuel nstr (print p) ≡ some (record { pieces = pieces_of nstr p; error = false })
unfolding parse_loop
parse_loop-print zero nstr p v h = absurd (omega arith)
parse_loop-print (suc fuel) nstr (end_text []) v h =
    ap (λ (t : List ℕ). some (record { pieces = flush t []; error = false }))
      (sym (append-nil nstr))
parse_loop-print (suc fuel) nstr (end_text (c ∷ t)) (v, vs) h =
    let other : (c == percent) ≡ false = ground arith in
    rw other (
      parse_loop-print fuel (nstr ++ (c ∷ [])) (end_text t) vs (omega arith)
      ∙ ap (λ (t : List ℕ). some (record { pieces = flush t []; error = false }))
          (append_assoc nstr (c ∷ []) t))
parse_loop-print (suc fuel) nstr (more (c ∷ t) m p) ((v, vs), w, rest) h =
    let other : (c == percent) ≡ false = ground arith in
    rw other (
      parse_loop-print fuel (nstr ++ (c ∷ [])) (more t m p) (vs, w, rest) (omega arith)
      ∙ ap
          (λ (t : List ℕ).
            some (record { pieces = flush t (piece_of m ∷ pieces_of [] p); error = false }))
          (append_assoc nstr (c ∷ []) t))
parse_loop-print (suc fuel) nstr (more [] m p) (v, w, rest) h =
    parse_loop-mark fuel nstr m (print p) (record { pieces = pieces_of [] p; error = false }) w
      (parse_loop-print fuel [] p rest (shorter m (print p) fuel h))
    ∙ ap
        (λ (t : List ℕ).
          some (record { pieces = flush t (piece_of m ∷ pieces_of [] p); error = false }))
        (sym (append-nil nstr))
  where
    shorter :
        (m : Mark) (cs : List ℕ) (fuel : ℕ) → length (print_mark m cs) < suc fuel → length cs < fuel
    shorter (bare name) cs fuel h = omega (arith, length-append name cs)
    shorter (braced name fmt) cs fuel h = omega (
      arith,
      length-append name (left_brace ∷ (fmt ++ (right_brace ∷ cs))),
      length-append fmt (right_brace ∷ cs),
    )

-- A pattern of texts without `%`, and items between them that are written with a name of letters and a
-- format in braces without a closing one, or with a name of letters alone that ends there, is read as
-- its texts that are not empty and its items, in their order, without an error.
pub init-print :
    (p : Pattern) → Fits p → init (print p) ≡ some (format_items (pieces_of [] p), false)
unfolding init parse
init-print p v =
    let read = parse_loop-print (length (print p) + 1) [] p v (omega arith) in
    rw (init, parse, read) refl
