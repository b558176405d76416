-- ===== src/Servlets/Entries.antt =====
-- Lists of entries by name in http/http_servlet.cc: what `find` finds after an assignment or an
-- erasure.
use yk_server.Base.{
  ℕ, ◌≡◌, refl, sym, ap, ◌∙◌, Bool, true, false, List, [], ◌∷◌, ◌++◌, none, some, if◌then◌else◌,
  arith, inl, inr, Bool-cases,
}
use yk_server.Servlets.{same_text, Creator, Entry, find, assign, erase, is_some, list_all}

pub same_text_refl : (a : List ℕ) → same_text a a ≡ true
unfolding same_text
same_text_refl [] = refl
same_text_refl (x ∷ a) = ground (arith, same_text_refl a)

pub same_text→eq : (a b : List ℕ) → same_text a b ≡ true → a ≡ b
unfolding same_text
same_text→eq [] [] e = refl
same_text→eq [] (y ∷ b) e = ground arith
same_text→eq (x ∷ a) [] e = ground arith
same_text→eq (x ∷ a) (y ∷ b) e =
    let head : x ≡ y = ground arith in
    let tail : same_text a b ≡ true = ground arith in λ i. head i ∷ same_text→eq a b tail i

pub same_text_sym : (a b : List ℕ) → same_text a b ≡ same_text b a
unfolding same_text
same_text_sym [] [] = refl
same_text_sym [] (y ∷ b) = refl
same_text_sym (x ∷ a) [] = refl
same_text_sym (x ∷ a) (y ∷ b) = ground (arith, same_text_sym a b)

-- Names that are told apart from one of two equal names are told apart from the other.
same_text_cong : (a b c : List ℕ) → same_text a b ≡ true → same_text a c ≡ same_text b c
same_text_cong a b c e = ap (λ t. same_text t c) (same_text→eq a b e)

pub find-assign :
    (uri key : List ℕ) (c : Creator) (es : List Entry)
    → find key (assign uri c es) ≡ (if same_text uri key then some c else find key es)
unfolding find assign
find-assign uri key c [] = refl
find-assign uri key c ((name, old) ∷ es) = elim (Bool-cases (same_text name uri)) [
  | inl e ↦ let same = same_text_cong name uri key e in ground (arith, same)
  | inr e ↦ elim (Bool-cases (same_text name key)) [
    | inl here ↦
        let differs : same_text uri key ≡ false =
          sym (ap (λ t. same_text uri t) (same_text→eq name key here))
          ∙ same_text_sym uri name
          ∙ e in
        ground arith
    | inr there ↦ ground (arith, find-assign uri key c es)
  ]
]

-- The names of the entries are all different.
abbrev pub Distinct : List Entry → Type 0
Distinct [] = Unit
Distinct ((name, c) ∷ es) = (find name es ≡ none) × Distinct es

pub find-append :
    (key uri : List ℕ) (c : Creator) (es : List Entry)
    → find key (es ++ ((uri, c) ∷ []))
      ≡ (if is_some (find key es) then find key es else if same_text uri key then some c else none)
unfolding find
find-append key uri c [] = refl
find-append key uri c ((name, d) ∷ es) = elim (Bool-cases (same_text name key)) [
  | inl e ↦ rw e refl
  | inr e ↦ rw e (find-append key uri c es)
]

pub find-erase :
    (uri key : List ℕ) (es : List Entry)
    → Distinct es
    → find key (erase uri es) ≡ (if same_text uri key then none else find key es)
unfolding find erase
find-erase uri key [] v = ground arith
find-erase uri key ((name, c) ∷ es) v = elim (Bool-cases (same_text name uri)) [
  | inl e ↦
      let same = same_text_cong name uri key e in
      elim (Bool-cases (same_text uri key)) [
        | inl here ↦
            let none_left : find key es ≡ none =
              sym (ap (λ t. find t es) (same_text→eq name uri e ∙ same_text→eq uri key here))
              ∙ v.0 in
            ground arith
        | inr there ↦ ground arith
      ]
  | inr e ↦ elim (Bool-cases (same_text name key)) [
    | inl here ↦
        let differs : same_text uri key ≡ false =
          sym (ap (λ t. same_text uri t) (same_text→eq name key here))
          ∙ same_text_sym uri name
          ∙ e in
        ground arith
    | inr there ↦ ground (arith, find-erase uri key es v.1)
  ]
]

pub erase-Distinct : (uri : List ℕ) (es : List Entry) → Distinct es → Distinct (erase uri es)
unfolding erase
erase-Distinct uri [] v = tt
erase-Distinct uri ((name, c) ∷ es) v = elim (Bool-cases (same_text name uri)) [
  | inl e ↦ rw e v.1
  | inr e ↦
      rw e (still_none (same_text uri name) (find-erase uri name es v.1), erase-Distinct uri es v.1)
]
  where
    still_none :
        (b : Bool)
        → find name (erase uri es) ≡ (if b then none else find name es)
        → find name (erase uri es) ≡ none
    still_none true h = h
    still_none false h = h ∙ v.0

pub append-Distinct :
    (uri : List ℕ) (c : Creator) (es : List Entry)
    → Distinct es
    → find uri es ≡ none
    → Distinct (es ++ ((uri, c) ∷ []))
unfolding find
append-Distinct uri c [] v new = (refl, tt)
append-Distinct uri c ((name, d) ∷ es) v new = elim (Bool-cases (same_text name uri)) [
  | inl e ↦ absurd (ground arith)
  | inr e ↦
      let other : same_text uri name ≡ false = same_text_sym uri name ∙ e in
      let rest : find uri es ≡ none = ground arith in
      (ground (arith, find-append name uri c es, v.0), append-Distinct uri c es v.1 rest)
]

pub assign-Distinct :
    (uri : List ℕ) (c : Creator) (es : List Entry) → Distinct es → Distinct (assign uri c es)
unfolding assign
assign-Distinct uri c [] v = (unfold find in refl, tt)
assign-Distinct uri c ((name, d) ∷ es) v = elim (Bool-cases (same_text name uri)) [
  | inl e ↦ rw e v
  | inr e ↦
      let other : same_text uri name ≡ false = same_text_sym uri name ∙ e in
      let rest : find name (assign uri c es) ≡ none =
        find-assign uri name c es ∙ ground (arith, v.0) in
      rw e (rest, assign-Distinct uri c es v.1)
]

-- Listing entries over others: those of the first list win.
pub find-list_all :
    (key : List ℕ) (es infos : List Entry)
    → Distinct es
    → find key (list_all es infos) ≡ (if is_some (find key es) then find key es else find key infos)
unfolding find list_all
find-list_all key [] infos v = refl
find-list_all key ((name, c) ∷ es) infos v = elim (Bool-cases (same_text name key)) [
  | inl e ↦
      let gone : find key es ≡ none = sym (ap (λ t. find t es) (same_text→eq name key e)) ∙ v.0 in
      ground (arith, find-list_all key es (assign name c infos) v.1, find-assign name key c infos)
  | inr e ↦
      ground (arith, find-list_all key es (assign name c infos) v.1, find-assign name key c infos)
]
