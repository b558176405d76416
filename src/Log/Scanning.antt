-- ===== src/Log/Scanning.antt =====
-- The loops of `LogFormatter::init` of yk/log.cc go forward, and what they read of names and formats.
use yk_server.Base.{
  ℕ, zero, suc, ◌+◌, ◌≤◌, ◌<◌, ◌≡◌, ◌≢◌, refl, sym, ap, ◌∙◌, Bool, true, false, List, [], ◌∷◌, ◌++◌,
  ◌==◌, Option, some, length, All, inl, inr, arith, append_assoc, append-nil, Bool-cases,
}
use yk_server.Log.{
  percent, left_brace, right_brace, is_alpha, ends_name, text, item, scan_format, scan_name, Parsed,
  flush, starts_percent, pattern_error, parse_loop, parse, FormatItem, format_items, init,
}

-- The inner loop goes forward.
scan_format-rest : (str fmt cs : List ℕ) → length (scan_format str fmt cs).rest ≤ length cs
unfolding scan_format
scan_format-rest str fmt [] = omega arith
scan_format-rest str fmt (c ∷ cs) = elim (Bool-cases (c == right_brace)) [
  | inl e ↦ rw e (omega arith)
  | inr e ↦ rw e (omega (arith, scan_format-rest str (fmt ++ (c ∷ [])) cs))
]

scan_name-rest : (name cs : List ℕ) → length (scan_name name cs).rest ≤ length cs
unfolding scan_name
scan_name-rest name [] = omega arith
scan_name-rest name (c ∷ cs) = elim (Bool-cases (ends_name c)) [
  | inl e ↦ rw e (omega arith)
  | inr e ↦ elim (Bool-cases (c == left_brace)) [
    | inl b ↦ rw (e, b) (omega (arith, scan_format-rest name [] cs))
    | inr b ↦ rw (e, b) (omega (arith, scan_name-rest (name ++ (c ∷ [])) cs))
  ]
]

abbrev Ends : Option Parsed → Type 0
Ends o = (p : Parsed) × (o ≡ some p)

-- The outer loop ends within as many rounds as there are characters, and one.
parse_loop-Ends : (fuel : ℕ) (nstr cs : List ℕ) → length cs < fuel → Ends (parse_loop fuel nstr cs)
unfolding parse_loop
parse_loop-Ends zero nstr cs h = absurd (omega arith)
parse_loop-Ends (suc fuel) nstr [] h = (record { pieces = flush nstr []; error = false }, refl)
parse_loop-Ends (suc fuel) nstr (c ∷ cs) h = elim (Bool-cases (c == percent)) [
  | inr e ↦ let (p, q) = parse_loop-Ends fuel (nstr ++ (c ∷ [])) cs (omega arith) in (p, rw e q)
  | inl e ↦ elim (Bool-cases (starts_percent cs)) [
    | inl d ↦
        let (p, q) = parse_loop-Ends fuel (nstr ++ (percent ∷ [])) cs (omega arith) in
        (p, rw (e, d) q)
    | inr d ↦ elim (Bool-cases (scan_name [] cs).closed) [
      | inl k ↦
          let (p, q) =
            parse_loop-Ends fuel [] (scan_name [] cs).rest (omega (arith, scan_name-rest [] cs)) in
          (
            record p {
              pieces = flush nstr (item (scan_name [] cs).str (scan_name [] cs).fmt ∷ p.pieces);
            },
            rw (e, d, k, q) refl,
          )
      | inr k ↦
          let (p, q) = parse_loop-Ends fuel nstr cs (omega arith) in
          (record { pieces = text pattern_error ∷ p.pieces; error = true }, rw (e, d, k, q) refl)
    ]
  ]
]

-- `LogFormatter::init` ends on every pattern: its outer loop takes at most as many rounds as there are
-- characters, and one.
pub init_ends : (pattern : List ℕ) → (r : List FormatItem × Bool) × (init pattern ≡ some r)
unfolding init parse
init_ends pattern =
    let (p, q) = parse_loop-Ends (length pattern + 1) [] pattern (omega arith) in
    ((format_items p.pieces, p.error), rw (init, parse, q) refl)

abbrev pub Names : List ℕ → Type 0
Names name = All (λ c. is_alpha c ≡ true) name

pub alpha-not_end :
    (c : ℕ)
    → is_alpha c ≡ true
    → (ends_name c ≡ false) × ((c == left_brace) ≡ false) × ((c == percent) ≡ false)
alpha-not_end c h = (rw h refl, ground arith, ground arith)

pub scan_name-alpha :
    (name taken cs : List ℕ)
    → Names name
    → scan_name taken (name ++ cs) ≡ scan_name (taken ++ name) cs
unfolding scan_name
scan_name-alpha [] taken cs h = ap (λ l. scan_name l cs) (sym (append-nil taken))
scan_name-alpha (c ∷ name) taken cs (h, hs) =
    let (ends_not, no_brace, no_percent) = alpha-not_end c h in
    rw (ends_not, no_brace) (scan_name-alpha name (taken ++ (c ∷ [])) cs hs)
    ∙ ap (λ l. scan_name l cs) (append_assoc taken (c ∷ []) name)

pub scan_format-text :
    (fmt str taken cs : List ℕ)
    → All (λ c. c ≢ right_brace) fmt
    → scan_format str taken (fmt ++ cs) ≡ scan_format str (taken ++ fmt) cs
unfolding scan_format
scan_format-text [] str taken cs h = ap (λ l. scan_format str l cs) (sym (append-nil taken))
scan_format-text (c ∷ fmt) str taken cs (h, hs) =
    let other : (c == right_brace) ≡ false = ground arith in
    rw other (scan_format-text fmt str (taken ++ (c ∷ [])) cs hs)
    ∙ ap (λ l. scan_format str l cs) (append_assoc taken (c ∷ []) fmt)
