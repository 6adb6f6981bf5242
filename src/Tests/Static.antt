-- ===== src/Tests/Static.antt =====
-- http/static.go on a directory with a page and a script.
use core_runner.Common.{
  ◌≡◌, refl, [], ◌∷◌, ◌++◌, Bytes, codes, true, false, not, ◌||◌, if◌then◌else◌, external, All,
}
use core_runner.Common.Maps.{◌==◌, bytes_eq}
use core_runner.Common.Decimal.{pos, itoa}
use core_runner.Common.Text.{contains, has_prefix, has_suffix, trim_suffix}
use core_runner.Http.Response.{set_header, serve_content, next_handler, cors_headers}
use core_runner.Http.Static.{
  StaticHandler, Stat, found, not_exist, other_error, is_executable, print_int, is_zero, ext_from,
  ext, serve_mode, serve_stat, serve_file, proceed, after_serve, file_of, serve_path, serve_http,
}
use core_runner.Http.Static.Search.{search, candidates, answer, serve_http-search}
use core_runner.Http.Static.Inside.{IsSafe, serve_http-IsSafe}

abbrev site : StaticHandler
site = record { static_dir = codes "www/"; max_age = pos 60; cors = false; has_next = true }

-- A page, a script that may be executed, and a page that is used as a directory.
abbrev disk : Bytes → Stat
disk file =
    if file == codes "www/about.html"
    then found (record { is_regular = true; perm = 420 })
    else if file == codes "www/run.sh"
    then found (record { is_regular = true; perm = 493 })
    else if file == codes "www/about.html/x"
    then other_error (external 20)
    else not_exist

short_url :
    serve_http site disk (codes "GET") (codes "/about")
    ≡ set_header (codes "cache-control") (codes "max-age=60")
      ∷ serve_content (codes "www/about.html")
      ∷ []
unfolding serve_http serve_path file_of serve_file serve_stat serve_mode after_serve proceed ext
    ext_from cors_headers is_executable is_zero print_int itoa contains has_prefix has_suffix
    trim_suffix
short_url = refl

script : serve_http site disk (codes "GET") (codes "/run.sh") ≡ next_handler ∷ []
unfolding serve_http serve_path file_of serve_file serve_stat serve_mode after_serve proceed ext
    ext_from cors_headers is_executable is_zero contains has_prefix has_suffix trim_suffix
script = refl

-- A request that nothing answers: the response stays empty, with the status 200.
below_a_file : serve_http site disk (codes "GET") (codes "/about.html/x") ≡ []
unfolding serve_http serve_path file_of serve_file serve_stat serve_mode after_serve proceed ext
    ext_from cors_headers contains has_prefix has_suffix trim_suffix
below_a_file = refl

serve_http-search_example : serve_http site disk (codes "GET") (codes "/about") ≡ (
    if not (codes "GET" == codes "GET")
    then proceed site
    else cors_headers false
      ++ (if contains (codes "/about") (codes "/.") || contains (codes "/about") (codes "..")
          then proceed site
          else answer site (search disk (candidates site (codes "/about")))))
serve_http-search_example = serve_http-search site disk (codes "GET") (codes "/about")

serve_http-IsSafe_example :
    All (IsSafe site disk (codes "GET")) (serve_http site disk (codes "GET") (codes "/about"))
serve_http-IsSafe_example = serve_http-IsSafe site disk (codes "GET") (codes "about")
