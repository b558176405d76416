-- ===== src/Log/Faults.antt =====
-- Patterns that `LogFormatter::init` of yk/log.cc does not take as they are meant, and open braces.
use yk_server.Base.{
  ℕ, zero, suc, ◌+◌, ◌<◌, ◌≡◌, ◌≢◌, refl, sym, ap, ◌∙◌, true, false, List, [], ◌∷◌, ◌++◌, ◌==◌,
  some, length, All, arith, append_assoc, append-nil,
}
use yk_server.Log.{
  percent, left_brace, right_brace, text, item, Scan, scan_format, scan_name, flush, pattern_error,
  add_error, parse_loop, parse,
}
use yk_server.Log.Scanning.{Names, scan_name-alpha}
use yk_server.Log.Patterns.{
  bare, end_text, NoPercent, name-starts, parse_loop-mark, parse_loop-print,
}

-- `%%` before letters is read as the text `%` and, as if the second `%` stood alone, an item with these
-- letters as its name.
pub parse_double :
    (name : List ℕ)
    → name ≢ []
    → Names name
    → parse (percent ∷ (percent ∷ name))
      ≡ some (record { pieces = text (percent ∷ []) ∷ (item name [] ∷ []); error = false })
unfolding parse parse_loop
parse_double name some_name h =
    let marked =
      parse_loop-mark (suc (length name)) (percent ∷ []) (bare name) []
        (record { pieces = []; error = false }) (some_name, h, refl) refl in
    ap (λ (fuel : ℕ). parse_loop fuel [] (percent ∷ (percent ∷ name))) (fuel_of name)
    ∙ ap (λ (l : List ℕ). parse_loop (suc (suc (length name))) (percent ∷ []) (percent ∷ l))
        (sym (append-nil name))
    ∙ marked
  where
    fuel_of :
        (name : List ℕ) → length (percent ∷ (percent ∷ name)) + 1 ≡ suc (suc (suc (length name)))
    fuel_of name = omega arith

scan_format-open :
    (fmt str taken : List ℕ)
    → All (λ c. c ≢ right_brace) fmt
    → (scan_format str taken fmt).closed ≡ false
unfolding scan_format
scan_format-open [] str taken h = refl
scan_format-open (c ∷ fmt) str taken (h, hs) =
    let other : (c == right_brace) ≡ false = ground arith in
    rw other (scan_format-open fmt str (taken ++ (c ∷ [])) hs)

scan_name-open :
    (name fmt : List ℕ)
    → Names name
    → All (λ c. c ≢ right_brace) fmt
    → (scan_name [] (name ++ (left_brace ∷ fmt))).closed ≡ false
unfolding scan_name
scan_name-open name fmt h k =
    ap (λ (s : Scan). s.closed) (scan_name-alpha name [] (left_brace ∷ fmt) h)
    ∙ scan_format-open fmt name [] k

parse_loop-open :
    (fuel : ℕ) (nstr t name fmt : List ℕ)
    → NoPercent t
    → Names name
    → All (λ c. c ≢ right_brace) fmt
    → NoPercent (name ++ (left_brace ∷ fmt))
    → length (t ++ (percent ∷ (name ++ (left_brace ∷ fmt)))) < fuel
    → parse_loop fuel nstr (t ++ (percent ∷ (name ++ (left_brace ∷ fmt))))
      ≡ some (record {
        pieces = text pattern_error ∷ flush ((nstr ++ t) ++ (name ++ (left_brace ∷ fmt))) [];
        error = true;
      })
unfolding parse_loop
parse_loop-open zero nstr t name fmt v h k u b = absurd (omega arith)
parse_loop-open (suc fuel) nstr (c ∷ t) name fmt (v, vs) h k u b =
    let other : (c == percent) ≡ false = ground arith in
    rw other (
      parse_loop-open fuel (nstr ++ (c ∷ [])) t name fmt vs h k u (omega arith)
      ∙ ap
          (λ (l : List ℕ). some (record {
            pieces = text pattern_error ∷ flush (l ++ (name ++ (left_brace ∷ fmt))) [];
            error = true;
          }))
          (append_assoc nstr (c ∷ []) t))
parse_loop-open (suc fuel) nstr [] name fmt v h k u b =
    let tail : List ℕ = name ++ (left_brace ∷ fmt) in
    rw (name-starts name left_brace fmt h refl, scan_name-open name fmt h k)
      (ap add_error (parse_loop-print fuel nstr (end_text tail) u (omega arith))
        ∙ ap
            (λ (l : List ℕ).
              some (record { pieces = text pattern_error ∷ flush (l ++ tail) []; error = true }))
            (sym (append-nil nstr)))

-- An item whose brace is not closed, behind a text and without a further `%`, is an error: its place takes
-- a notice in front of the text, and its characters are read as text.
pub parse_open :
    (t name fmt : List ℕ)
    → NoPercent t
    → Names name
    → All (λ c. c ≢ right_brace) fmt
    → NoPercent (name ++ (left_brace ∷ fmt))
    → parse (t ++ (percent ∷ (name ++ (left_brace ∷ fmt))))
      ≡ some (record {
        pieces = text pattern_error ∷ flush (t ++ (name ++ (left_brace ∷ fmt))) [];
        error = true;
      })
unfolding parse
parse_open t name fmt v h k u =
    parse_loop-open (length (t ++ (percent ∷ (name ++ (left_brace ∷ fmt)))) + 1) [] t name fmt v h k
      u (omega arith)
