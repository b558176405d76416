-- ===== src/Servlets/Runs.antt =====
-- Runs of the dispatcher of http/http_servlet.cc.
use yk_server.Base.{ℕ, Bool, List, [], ◌∷◌, ◌||◌}
use yk_server.Servlets.{
  servlet_creator, same_text, ServletDispatch, servlet_dispatch, add_glob_servlet_creator,
  get_matched_servlet,
}
use yk_server.Servlets.Dispatch.{
  IsValid, servlet_dispatch-IsValid, changes-IsValid, Matched, get_matched_servlet-Matched,
}

-- The pattern that is a star matches all.
abbrev star : List ℕ → List ℕ → Bool
star pattern uri = same_text pattern (42 ∷ []) || same_text pattern uri

abbrev home : List ℕ
home = 47 ∷ []

abbrev dispatch : ServletDispatch
dispatch = add_glob_servlet_creator (42 ∷ []) (servlet_creator 3) servlet_dispatch

dispatch-IsValid : IsValid dispatch
dispatch-IsValid =
    (changes-IsValid (42 ∷ []) (servlet_creator 3) servlet_dispatch servlet_dispatch-IsValid).1

get_matched_servlet-Matched_example :
    Matched star home dispatch (get_matched_servlet star home dispatch)
get_matched_servlet-Matched_example = get_matched_servlet-Matched star home dispatch
