-- ===== src/Servlets.antt =====
-- Which servlet answers a request: http/http_servlet.h, http/http_servlet.cc. Names of paths are
-- lists of bytes. `fnmatch` is the C library's, an argument here.
pub mod Entries
pub mod Dispatch
mod Runs
use yk_server.Base.{
  ℕ, Bool, true, false, ◌&&◌, List, [], ◌∷◌, ◌++◌, Option, none, some, if◌then◌else◌, ◌==◌,
}

-- `operator==` of std::string.
unfoldable pub same_text : List ℕ → List ℕ → Bool
same_text [] [] = true
same_text [] (y ∷ ys) = false
same_text (x ∷ xs) [] = false
same_text (x ∷ xs) (y ∷ ys) = x == y && same_text xs ys

-- A servlet: an object, a `FunctionServlet` with its callback, the `NotFoundServlet`, or a new object
-- of a class.
pub data Servlet : Type 0 where
  object : ℕ → Servlet
  function_servlet : ℕ → Servlet
  not_found : Servlet
  new_object : ℕ → Servlet

-- `HoldServletCreator` with its pointer, which may be null, and `ServletCreator<T>`.
pub data Creator : Type 0 where
  hold : Option Servlet → Creator
  servlet_creator : ℕ → Creator

-- `IServletCreator::get`
unfoldable pub create : Creator → Option Servlet
create (hold slt) = slt
create (servlet_creator class) = some (new_object class)

-- Entries by name, as std::unordered_map, std::map and the vector of globs have them.
abbrev pub Entry : Type 0
Entry = List ℕ × Creator

-- `find`, or the loop over the globs for `it->first == uri`.
unfoldable pub find : List ℕ → List Entry → Option Creator
unfolding same_text
find uri [] = none
find uri ((name, c) ∷ es) = if same_text name uri then some c else find uri es

-- `map[uri] = c`
unfoldable pub assign : List ℕ → Creator → List Entry → List Entry
assign uri c [] = (uri, c) ∷ []
assign uri c ((name, old) ∷ es) =
    if same_text name uri then (name, c) ∷ es else (name, old) ∷ assign uri c es

-- `map.erase(uri)`, and the loop that erases the first glob of that name and stops.
unfoldable pub erase : List ℕ → List Entry → List Entry
erase uri [] = []
erase uri ((name, c) ∷ es) = if same_text name uri then es else (name, c) ∷ erase uri es

pub record ServletDispatch : Type 0 where
  pub datas : List Entry
  pub globs : List Entry
  pub default : Option Servlet

unfoldable pub servlet_dispatch : ServletDispatch
servlet_dispatch = record { datas = []; globs = []; default = some not_found }

unfoldable pub add_servlet_creator : List ℕ → Creator → ServletDispatch → ServletDispatch
unfolding assign
add_servlet_creator uri creator d = record d { datas = assign uri creator d.datas }

unfoldable pub add_servlet : List ℕ → Option Servlet → ServletDispatch → ServletDispatch
unfolding add_servlet_creator
add_servlet uri slt d = add_servlet_creator uri (hold slt) d

-- The overload with a callback.
unfoldable pub add_servlet_function : List ℕ → ℕ → ServletDispatch → ServletDispatch
unfolding add_servlet_creator
add_servlet_function uri cb d = add_servlet_creator uri (hold (some (function_servlet cb))) d

unfoldable pub add_glob_servlet_creator : List ℕ → Creator → ServletDispatch → ServletDispatch
unfolding erase
add_glob_servlet_creator uri creator d = record d {
  globs = erase uri d.globs ++ ((uri, creator) ∷ []);
}

unfoldable pub add_glob_servlet : List ℕ → Option Servlet → ServletDispatch → ServletDispatch
unfolding add_glob_servlet_creator
add_glob_servlet uri slt d = add_glob_servlet_creator uri (hold slt) d

-- The overload with a callback.
unfoldable pub add_glob_servlet_function : List ℕ → ℕ → ServletDispatch → ServletDispatch
unfolding add_glob_servlet
add_glob_servlet_function uri cb d = add_glob_servlet uri (some (function_servlet cb)) d

unfoldable pub del_servlet : List ℕ → ServletDispatch → ServletDispatch
unfolding erase
del_servlet uri d = record d { datas = erase uri d.datas }

unfoldable pub del_glob_servlet : List ℕ → ServletDispatch → ServletDispatch
unfolding erase
del_glob_servlet uri d = record d { globs = erase uri d.globs }

abbrev pub is_some : Option Creator → Bool
is_some none = false
is_some (some c) = true

abbrev pub created : Option Creator → Option Servlet
created none = none
created (some c) = create c

unfoldable pub get_servlet : List ℕ → ServletDispatch → Option Servlet
unfolding find
get_servlet uri d = created (find uri d.datas)

unfoldable pub get_glob_servlet : List ℕ → ServletDispatch → Option Servlet
unfolding find
get_glob_servlet uri d = created (find uri d.globs)

module _ (fnmatch : List ℕ → List ℕ → Bool) where
  -- The loop over the globs; `fnmatch pattern uri` is true where the C function returns 0.
  unfoldable pub find_glob : List ℕ → List Entry → Option Creator
  find_glob uri [] = none
  find_glob uri ((pattern, c) ∷ es) = if fnmatch pattern uri then some c else find_glob uri es

  unfoldable pub get_matched_servlet : List ℕ → ServletDispatch → Option Servlet
  unfolding find find_glob
  get_matched_servlet uri d = elim (find uri d.datas) [
    | some c ↦ create c
    | none ↦ elim (find_glob uri d.globs) [ some c ↦ create c | none ↦ d.default ]
  ]

  -- `handle`, where `run` is `Servlet::handle` on the request, the response and the session.
  unfoldable pub handle : {R : Type 0} → (Servlet → R → R) → List ℕ → ServletDispatch → R → ℕ × R
  unfolding get_matched_servlet
  handle run path d r = elim (get_matched_servlet path d) [
    | some slt ↦ (0, run slt r)
    | none ↦ (0, r)
  ]

-- `listAllServletCreator` and `listAllGlobServletCreator`: `infos[i.first] = i.second` for each.
unfoldable pub list_all : List Entry → List Entry → List Entry
unfolding assign
list_all [] infos = infos
list_all ((name, c) ∷ es) infos = list_all es (assign name c infos)
