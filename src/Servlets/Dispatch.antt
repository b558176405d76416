-- ===== src/Servlets/Dispatch.antt =====
-- What `ServletDispatch` of http/http_servlet.cc promises: the servlet that a path gets, and how adding
-- and deleting change it.
use yk_server.Base.{
  ℕ, ◌≡◌, refl, sym, ap, subst, ◌∙◌, Bool, true, false, List, [], ◌∷◌, ◌++◌, Option, none, some,
  if◌then◌else◌, arith, inl, inr, Bool-cases, Option-cases, All,
}
use yk_server.Servlets.{
  Servlet, Creator, create, Entry, same_text, find, erase, is_some, created, ServletDispatch,
  servlet_dispatch, add_servlet_creator, add_glob_servlet_creator, del_servlet, del_glob_servlet,
  get_servlet, get_glob_servlet, find_glob, get_matched_servlet, list_all,
}
use yk_server.Servlets.Entries.{
  same_text_refl, find-assign, find-append, find-erase, Distinct, erase-Distinct, append-Distinct,
  assign-Distinct, find-list_all,
}

-- No name stands twice in the map, or in the globs.
pub record IsValid (d : ServletDispatch) : Type 0 where
  pub datas : Distinct d.datas
  pub globs : Distinct d.globs

-- A new dispatcher is valid.
pub servlet_dispatch-IsValid : IsValid servlet_dispatch
unfolding servlet_dispatch
servlet_dispatch-IsValid = record { datas = tt; globs = tt }

module _ (uri : List ℕ) (c : Creator) (d : ServletDispatch) (v : IsValid d) where
  erased : find uri (erase uri d.globs) ≡ none
  erased =
      find-erase uri uri d.globs v.globs
      ∙ ap (λ (b : Bool). if b then none else find uri d.globs) (same_text_refl uri)

  -- On a valid dispatcher, adding to the map or to the globs and deleting from them keep every name
  -- unique.
  pub changes-IsValid :
      IsValid (add_servlet_creator uri c d)
      × IsValid (add_glob_servlet_creator uri c d)
      × IsValid (del_servlet uri d)
      × IsValid (del_glob_servlet uri d)
  unfolding add_servlet_creator add_glob_servlet_creator del_servlet del_glob_servlet
  changes-IsValid = (
    record { datas = assign-Distinct uri c d.datas v.datas; globs = v.globs },
    record {
      datas = v.datas;
      globs = append-Distinct uri c (erase uri d.globs) (erase-Distinct uri d.globs v.globs) erased;
    },
    record { datas = erase-Distinct uri d.datas v.datas; globs = v.globs },
    record { datas = v.datas; globs = erase-Distinct uri d.globs v.globs },
  )

  choose :
      {A B : Type 0} (f : A → B) (b : Bool) (x y : A)
      → f (if b then x else y) ≡ (if b then f x else f y)
  choose f true x y = refl
  choose f false x y = refl

  -- On a valid dispatcher, after a name was added to the map, `getServlet` of it gives what was added,
  -- and of other names what it gave; after it was deleted, it gives nothing for it, and the same for
  -- the others.
  pub get_servlet_lem :
      (key : List ℕ)
      → (get_servlet key (add_servlet_creator uri c d)
          ≡ (if same_text uri key then create c else get_servlet key d))
        × (get_servlet key (del_servlet uri d)
            ≡ (if same_text uri key then none else get_servlet key d))
  unfolding get_servlet add_servlet_creator del_servlet
  get_servlet_lem key = (
    ap created (find-assign uri key c d.datas)
        ∙ choose created (same_text uri key) (some c) (find key d.datas),
    ap created (find-erase uri key d.datas v.datas)
        ∙ choose created (same_text uri key) none (find key d.datas),
  )

  same_option : (o : Option Creator) → (if is_some o then o else none) ≡ o
  same_option none = refl
  same_option (some a) = refl

  glob_found :
      (key : List ℕ)
      → find key (erase uri d.globs ++ ((uri, c) ∷ []))
        ≡ (if same_text uri key then some c else find key d.globs)
  glob_found key =
      find-append key uri c (erase uri d.globs) ∙ elim (Bool-cases (same_text uri key)) [
        | inl here ↦ ground (arith, find-erase uri key d.globs v.globs)
        | inr there ↦
            rw (find-erase uri key d.globs v.globs, there) (same_option (find key d.globs))
      ]

  -- The same of the globs.
  pub get_glob_servlet_lem :
      (key : List ℕ)
      → (get_glob_servlet key (add_glob_servlet_creator uri c d)
          ≡ (if same_text uri key then create c else get_glob_servlet key d))
        × (get_glob_servlet key (del_glob_servlet uri d)
            ≡ (if same_text uri key then none else get_glob_servlet key d))
  unfolding get_glob_servlet add_glob_servlet_creator del_glob_servlet
  get_glob_servlet_lem key = (
    ap created (glob_found key) ∙ choose created (same_text uri key) (some c) (find key d.globs),
    ap created (find-erase uri key d.globs v.globs)
        ∙ choose created (same_text uri key) none (find key d.globs),
  )

-- How `getMatchedServlet` comes to a servlet.
pub data Matched (fnmatch : List ℕ → List ℕ → Bool) (uri : List ℕ) (d : ServletDispatch)
    : Option Servlet → Type 0 where
  -- the map has the path,
  exact : (c : Creator) → find uri d.datas ≡ some c → Matched fnmatch uri d (create c)
  -- or it does not, and of the globs, in the order of adding, one matches and none before it,
  glob :
      (before after : List Entry) (pattern : List ℕ) (c : Creator)
      → find uri d.datas ≡ none
      → d.globs ≡ before ++ ((pattern, c) ∷ after)
      → All (λ e. fnmatch e.0 uri ≡ false) before
      → fnmatch pattern uri ≡ true
      → Matched fnmatch uri d (create c)
  -- or none does.
  default_servlet :
      find uri d.datas ≡ none
      → All (λ e. fnmatch e.0 uri ≡ false) d.globs
      → Matched fnmatch uri d d.default

abbrev chosen : Option Creator → Option Creator → Option Servlet → Option Servlet
chosen named matching default = elim named [
  | some c ↦ create c
  | none ↦ elim matching [ some c ↦ create c | none ↦ default ]
]

module _ (fnmatch : List ℕ → List ℕ → Bool) (uri : List ℕ) where
  find_glob-none :
      (es : List Entry) → find_glob fnmatch uri es ≡ none → All (λ e. fnmatch e.0 uri ≡ false) es
  unfolding find_glob
  find_glob-none [] e = tt
  find_glob-none ((pattern, c) ∷ es) e = elim (Bool-cases (fnmatch pattern uri)) [
    | inl m ↦ absurd (ground arith)
    | inr m ↦
        let rest : find_glob fnmatch uri es ≡ none = ground arith in (m, find_glob-none es rest)
  ]

  find_glob-some :
      (es : List Entry) (c : Creator)
      → find_glob fnmatch uri es ≡ some c
      → (before after : List Entry) × (pattern : List ℕ) × (es ≡ before ++ ((pattern, c) ∷ after))
        × All (λ e. fnmatch e.0 uri ≡ false) before
        × (fnmatch pattern uri ≡ true)
  unfolding find_glob
  find_glob-some [] c e = absurd (ground arith)
  find_glob-some ((pattern, d) ∷ es) c e = elim (Bool-cases (fnmatch pattern uri)) [
    | inl m ↦
        let same : d ≡ c = ground arith in ([], es, pattern, (λ i. (pattern, same i) ∷ es), tt, m)
    | inr m ↦
        let rest : find_glob fnmatch uri es ≡ some c = ground arith in
        let (before, after, p, split, none_before, matches) = find_glob-some es c rest in
        (
          (pattern, d) ∷ before,
          after,
          p,
          ap (λ l. (pattern, d) ∷ l) split,
          (m, none_before),
          matches,
        )
  ]

  -- `getMatchedServlet` answers from the map if it has the path; else by the first glob, in the order
  -- of adding, whose pattern `fnmatch` matches with the path; else with the default servlet.
  pub get_matched_servlet-Matched :
      (d : ServletDispatch) → Matched fnmatch uri d (get_matched_servlet fnmatch uri d)
  unfolding get_matched_servlet
  get_matched_servlet-Matched d = elim (Option-cases (find uri d.datas)) [
    | inr (c, e) ↦
        subst (Matched fnmatch uri d)
          (λ i. chosen (sym e i) (find_glob fnmatch uri d.globs) d.default) (exact c e)
    | inl e ↦ elim (Option-cases (find_glob fnmatch uri d.globs)) [
      | inr (c, g) ↦
          let (before, after, pattern, split, none_before, matches) = find_glob-some d.globs c g in
          subst (Matched fnmatch uri d) (λ i. chosen (sym e i) (sym g i) d.default)
            (glob before after pattern c e split none_before matches)
      | inl g ↦
          subst (Matched fnmatch uri d) (λ i. chosen (sym e i) (sym g i) d.default)
            (default_servlet e (find_glob-none d.globs g))
    ]
  ]

-- Listing a valid dispatcher's entries into a map overwrites those of the same name and keeps the
-- others.
pub list_all_lem :
    (d : ServletDispatch) (infos : List Entry) (key : List ℕ)
    → IsValid d
    → (find key (list_all d.datas infos)
        ≡ (if is_some (find key d.datas) then find key d.datas else find key infos))
      × (find key (list_all d.globs infos)
          ≡ (if is_some (find key d.globs) then find key d.globs else find key infos))
list_all_lem d infos key v =
    (find-list_all key d.datas infos v.datas, find-list_all key d.globs infos v.globs)
