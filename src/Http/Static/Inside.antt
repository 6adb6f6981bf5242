-- ===== src/Http/Static/Inside.antt =====
-- No request reaches a file outside the directory, or a hidden one.
use core_runner.Common.{
  ◌≡◌, refl, ap, ◌∙◌, Bool, true, false, List, [], ◌∷◌, ◌++◌, Bytes, codes, append_assoc,
  Bool-cases, inl, inr, arith, All, All-append,
}
use core_runner.Common.Maps.{◌==◌, nat_eq, bytes_eq, bytes_beq, bytes_beq_iff}
use core_runner.Common.Text.{contains, has_suffix, trim_suffix}
use core_runner.Http.Response.{
  Effect, set_header, serve_content, cors_headers, http_error, write_header, write_body,
  next_handler,
}
use core_runner.Http.Static.{
  StaticHandler, FileMode, Stat, found, not_exist, other_error, is_executable, is_zero, ext,
  proceed, file_of, serve_http,
}
use core_runner.Http.Static.Search.{
  Result, hit, missing, broken, is_public, prefer, search, candidates, answer, cache_headers,
  serve_http-search,
}
use core_runner.Http.Static.Paths.{
  components, IsVisible, is_clean, ends_in_slash, is_clean-append, ends_in_slash-append,
  contains-is_clean, has_suffix-ends_in_slash, is_clean-components,
}

-- A regular file that nobody may execute, by what Stat says of it.
abbrev pub IsPublic : (Bytes → Stat) → Bytes → Type 0
IsPublic stat file =
    (mode : FileMode) × ((stat file ≡ found mode)
      × (mode.is_regular ≡ true)
      × (is_executable mode.perm ≡ false))

abbrev directory : StaticHandler → Bytes
directory h = trim_suffix h.static_dir (codes "/")

-- A name below the directory, none of whose components begins with a dot.
abbrev pub IsBelow : StaticHandler → Bytes → Type 0
IsBelow h file =
    (rest : Bytes) × ((file ≡ directory h ++ b'/' ∷ rest) × All IsVisible (components rest))

-- The same, by the tests on bytes.
abbrev IsCleanFile : StaticHandler → Bytes → Type 0
IsCleanFile h file =
    (rest : Bytes) × ((file ≡ directory h ++ b'/' ∷ rest)
      × (is_clean true rest ≡ true)
      × (ends_in_slash true rest ≡ false))

has_suffix-append_slash :
    (dir path : Bytes) → has_suffix (dir ++ b'/' ∷ path) (codes "/") ≡ ends_in_slash true path
has_suffix-append_slash [] path = has_suffix-ends_in_slash b'/' path
has_suffix-append_slash (c ∷ dir) path =
    has_suffix-ends_in_slash c (dir ++ b'/' ∷ path)
    ∙ ends_in_slash-append (c == b'/') dir (b'/' ∷ path)

file_of-IsCleanFile :
    (h : StaticHandler) (path : Bytes)
    → is_clean true path ≡ true
    → IsCleanFile h (file_of h (b'/' ∷ path))
unfolding file_of
file_of-IsCleanFile h path clean = elim (Bool-cases (ends_in_slash true path)) [
  | inl p ↦
      rw (has_suffix-append_slash (directory h) path, p)
        (
          path ++ codes "index.html",
          (
            append_assoc (directory h) (b'/' ∷ path) (codes "index.html"),
            is_clean-append true path (codes "index.html") ∙ rw (clean, p),
            ends_in_slash-append true path (codes "index.html"),
          ),
        )
  | inr p ↦ rw (has_suffix-append_slash (directory h) path, p) (path, (refl, clean, p))
]

html-IsCleanFile :
    (h : StaticHandler) (file : Bytes) → IsCleanFile h file → IsCleanFile h (file ++ codes ".html")
html-IsCleanFile h file (rest, (below, clean, no_slash)) = (
  rest ++ codes ".html",
  (
    ap (λ f. f ++ codes ".html") below ∙ append_assoc (directory h) (b'/' ∷ rest) (codes ".html"),
    is_clean-append true rest (codes ".html") ∙ rw (clean, no_slash),
    ends_in_slash-append true rest (codes ".html"),
  ),
)

candidates-IsCleanFile :
    (h : StaticHandler) (path : Bytes)
    → is_clean true path ≡ true
    → All (IsCleanFile h) (candidates h (b'/' ∷ path))
unfolding candidates
candidates-IsCleanFile h path clean =
    let file = file_of h (b'/' ∷ path) in
    let first = file_of-IsCleanFile h path clean in
    elim (Bool-cases (ext file == [])) [
      | inl p ↦ rw p (first, (html-IsCleanFile h file first, tt))
      | inr p ↦ rw p (first, tt)
    ]

IsCleanFile-IsBelow : (h : StaticHandler) (file : Bytes) → IsCleanFile h file → IsBelow h file
IsCleanFile-IsBelow h file (rest, (below, clean, no_slash)) =
    (rest, (below, (is_clean-components rest).0 clean))

abbrev Hits : (Bytes → Stat) → (Bytes → Type 0) → Result → Type 0
Hits stat P (hit file) = P file × IsPublic stat file
Hits stat P missing = Unit
Hits stat P (broken e) = Unit

module _ (stat : Bytes → Stat) (P : Bytes → Type 0) where
  prefer-Hits :
      (file : Bytes) (s : Stat) (rest : Result)
      → stat file ≡ s
      → P file
      → Hits stat P rest
      → Hits stat P (prefer file s rest)
  unfolding prefer
  prefer-Hits file (found mode) rest h at_file hits = elim (Bool-cases (is_public mode)) [
    | inl p ↦ rw p (at_file, (mode, (h, ground arith, ground arith)))
    | inr p ↦ rw p hits
  ]
  prefer-Hits file not_exist rest h at_file hits = hits
  prefer-Hits file (other_error e) rest h at_file hits = tt

  search-Hits : (files : List Bytes) → All P files → Hits stat P (search stat files)
  unfolding search
  search-Hits [] all = tt
  search-Hits (file ∷ files) (at_file, all) =
      prefer-Hits file (stat file) (search stat files) refl at_file (search-Hits files all)

-- What an effect must be: only GET requests are answered with a file, and only with a public one
-- below the directory.
unfoldable pub IsSafe : StaticHandler → (Bytes → Stat) → Bytes → Effect → Type 0
IsSafe h stat method (serve_content file) =
    (method ≡ codes "GET") × (IsBelow h file × IsPublic stat file)
IsSafe h stat method (set_header k v) = Unit
IsSafe h stat method (write_header code) = Unit
IsSafe h stat method (write_body body) = Unit
IsSafe h stat method (http_error message code) = Unit
IsSafe h stat method next_handler = Unit

module _ (h : StaticHandler) (stat : Bytes → Stat) (method : Bytes) where
  proceed-IsSafe : All (IsSafe h stat method) (proceed h)
  unfolding proceed IsSafe
  proceed-IsSafe = elim (Bool-cases h.has_next) [ inl p ↦ rw p (tt, tt) | inr p ↦ rw p (tt, tt) ]

  cors_headers-IsSafe : (cors : Bool) → All (IsSafe h stat method) (cors_headers cors)
  unfolding cors_headers IsSafe
  cors_headers-IsSafe true = (tt, (tt, (tt, (tt, tt))))
  cors_headers-IsSafe false = tt

  cache_headers-IsSafe : All (IsSafe h stat method) (cache_headers h)
  unfolding cache_headers IsSafe
  cache_headers-IsSafe = elim (Bool-cases (is_zero h.max_age)) [
    | inl p ↦ rw p tt
    | inr p ↦ rw p (tt, tt)
  ]

  answer-IsSafe :
      (r : Result)
      → method ≡ codes "GET"
      → Hits stat (IsCleanFile h) r
      → All (IsSafe h stat method) (answer h r)
  unfolding answer IsSafe
  answer-IsSafe (hit file) get (clean, is_public) =
      All-append (IsSafe h stat method) (cache_headers h) (serve_content file ∷ [])
        cache_headers-IsSafe ((get, (IsCleanFile-IsBelow h file clean, is_public)), tt)
  answer-IsSafe missing get hits = proceed-IsSafe
  answer-IsSafe (broken e) get hits = tt

  -- A file that answers a request answers a GET request, lies below the directory with no component
  -- of its name beginning with a dot, and is a regular file that nobody may execute. (The path of
  -- the request begins with a slash.)
  pub serve_http-IsSafe :
      (path : Bytes) → All (IsSafe h stat method) (serve_http h stat method (b'/' ∷ path))
  serve_http-IsSafe path =
      rw (serve_http-search h stat method (b'/' ∷ path))
        (elim (Bool-cases (bytes_beq method (codes "GET"))) [
          | inr p ↦ rw p proceed-IsSafe
          | inl p ↦ rw p (
              All-append (IsSafe h stat method) (cors_headers h.cors) _ (cors_headers-IsSafe h.cors)
                (elim (Bool-cases (contains (b'/' ∷ path) (codes "/."))) [
                  | inl q ↦ rw q proceed-IsSafe
                  | inr q ↦ rw q (elim (Bool-cases (contains (b'/' ∷ path) (codes ".."))) [
                    | inl r ↦ rw r proceed-IsSafe
                    | inr r ↦ rw r (
                        answer-IsSafe _ ((bytes_beq_iff method (codes "GET")).0 p) (
                          search-Hits stat (IsCleanFile h) _
                            (candidates-IsCleanFile h path (contains-is_clean (b'/' ∷ path) q))))
                  ])
                ]))
        ])
