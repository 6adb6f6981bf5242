-- ===== src/Http/Static/Search.antt =====
-- Which file answers a request: the first of at most two names that can be served.
use core_runner.Common.{
  ◌≡◌, refl, Bool, not, ◌&&◌, ◌||◌, List, [], ◌∷◌, ◌++◌, Bytes, codes, Error, if◌then◌else◌,
  Bool-cases, inl, inr, arith,
}
use core_runner.Common.Maps.{◌==◌, nat_eq, bytes_eq}
use core_runner.Common.Text.{contains}
use core_runner.Http.Response.{Effect, set_header, serve_content, cors_headers}
use core_runner.Http.Static.{
  StaticHandler, FileMode, Stat, found, not_exist, other_error, is_executable, is_zero, print_int,
  ext, serve_mode, serve_stat, serve_file, proceed, after_serve, file_of, serve_path, serve_http,
}

pub data Result : Type 0 where
  hit : Bytes → Result
  missing : Result
  broken : Error → Result

-- A regular file that nobody may execute can be served.
abbrev pub is_public : FileMode → Bool
is_public mode = mode.is_regular && not (is_executable mode.perm)

-- A name by what Stat says of it, with the result of the names behind it.
unfoldable pub prefer : Bytes → Stat → Result → Result
prefer file (found mode) rest = if is_public mode then hit file else rest
prefer file not_exist rest = rest
prefer file (other_error e) rest = broken e

-- The first of the names that is a public file; the search ends at the first failure of Stat.
unfoldable pub search : (Bytes → Stat) → List Bytes → Result
search stat [] = missing
search stat (file ∷ files) = prefer file (stat file) (search stat files)

-- The name of the path, and behind it the name with ".html" if it has no extension.
unfoldable pub candidates : StaticHandler → Bytes → List Bytes
candidates h path =
    let file = file_of h path in
    file ∷ (if ext file == [] then (file ++ codes ".html") ∷ [] else [])

unfoldable pub cache_headers : StaticHandler → List Effect
cache_headers h =
    if is_zero h.max_age
    then []
    else set_header (codes "cache-control") (codes "max-age=" ++ print_int h.max_age) ∷ []

-- The effects of a search.
unfoldable pub answer : StaticHandler → Result → List Effect
answer h (hit file) = cache_headers h ++ serve_content file ∷ []
answer h missing = proceed h
answer h (broken e) = []

after_serve-prefer :
    (h : StaticHandler) (file : Bytes) (s : Stat) (rest : Result)
    → after_serve (serve_stat h file s) (answer h rest) ≡ answer h (prefer file s rest)
unfolding prefer serve_stat serve_mode after_serve answer cache_headers
after_serve-prefer h file (found mode) rest = ground arith
after_serve-prefer h file not_exist rest = refl
after_serve-prefer h file (other_error e) rest = refl

module _ (h : StaticHandler) (stat : Bytes → Stat) where
  -- One name, and then what the other names give.
  after_serve-search :
      (file : Bytes) (files : List Bytes)
      → after_serve (serve_file h stat file) (answer h (search stat files))
        ≡ answer h (search stat (file ∷ files))
  unfolding search serve_file
  after_serve-search file files = after_serve-prefer h file (stat file) (search stat files)

  proceed-search : proceed h ≡ answer h (search stat [])
  unfolding search answer
  proceed-search = refl

  serve_path-search :
      (path : Bytes) → serve_path h stat path ≡ answer h (search stat (candidates h path))
  unfolding serve_path candidates
  serve_path-search path =
      let file = file_of h path in
      let html = file ++ codes ".html" in
      elim (Bool-cases (ext file == [])) [
        | inl p ↦
            rw (p, proceed-search, after_serve-search html []) (after_serve-search file (html ∷ []))
        | inr p ↦ rw (p, proceed-search) (after_serve-search file [])
      ]

  -- A GET request is answered with the CORS headers, if these are asked for, and, unless the path
  -- has a hidden component or a "..", with the first public file among the file of the path and, if
  -- that has no extension, the same name with ".html"; without such a file the next handler or the
  -- 404 answers, and after a failure of Stat on the way nothing does. Every other request goes to
  -- the next handler or to the 404.
  pub serve_http-search :
      (method path : Bytes)
      → serve_http h stat method path ≡ (
          if not (method == codes "GET")
          then proceed h
          else cors_headers h.cors
            ++ (if contains path (codes "/.") || contains path (codes "..")
                then proceed h
                else answer h (search stat (candidates h path))))
  unfolding serve_http
  serve_http-search method path = rw (serve_path-search path)
