-- ===== src/Tests/Chain.antt =====
-- cmd/server/main.go: static files in front of the workers.
use core_runner.Common.{
  ◌≡◌, refl, true, false, not, ◌||◌, some, [], ◌∷◌, Bytes, codes, ok, err, external, if◌then◌else◌,
  worker_timed_out,
}
use core_runner.Common.Decimal.{ℤ, pos}
use core_runner.Common.Maps.{◌==◌, bytes_eq}
use core_runner.Common.Text.{contains, has_prefix, has_suffix, trim_suffix}
use core_runner.Worker.Process.TimedSend.{WorkerResult}
use core_runner.Http.Response.{cors_headers, serve_content}
use core_runner.Http.Static.{
  Stat, found, not_exist, ext, ext_from, file_of, is_executable, is_zero, new_static_handler,
}
use core_runner.Http.Static.Search.{search, candidates, prefer, cache_headers}
use core_runner.Http.Worker.{Request, behind, serve_http, returned, new_worker_handler}
use core_runner.Server.Chain.{
  new_front, set_next, new_back, serve_chain, routed, serve_chain-routed,
}

-- A directory with one page.
abbrev disk : Bytes → Stat
disk file =
    if file == codes "www/about.html"
    then found (record { is_regular = true; perm = 420 })
    else not_exist

-- Workers that never answer in time.
abbrev late : Bytes → ℤ → WorkerResult
late buf timeout = record { res = []; err_field = some (worker_timed_out 7 30) }

abbrev get : Request
get = record {
  url = codes "/about";
  method = codes "GET";
  header_keys = [];
  header_get = λ k. [];
  content_length = pos 0;
  body = ok [];
  form = err (external 1);
}

serve_chain-routed_example :
    serve_chain disk late
      (new_front (codes "www/") (pos 0) false)
      (new_back false 4)
      get
      (codes "/about")
    ≡ (if not (get.method == codes "GET")
        then serve_http late (new_back false 4) get
        else behind (cors_headers false) (
            if contains (codes "/about") (codes "/.") || contains (codes "/about") (codes "..")
            then serve_http late (new_back false 4) get
            else routed
                (new_front (codes "www/") (pos 0) false)
                (new_back false 4)
                (serve_http late (new_back false 4) get)
                (search disk
                  (candidates (new_front (codes "www/") (pos 0) false) (codes "/about")))))
serve_chain-routed_example =
    serve_chain-routed disk late (codes "www/") (pos 0) false (new_back false 4) get
      (codes "/about")

-- The page is served, although no worker answers.
page :
    routed
      (new_front (codes "www/") (pos 0) false)
      (new_back false 4)
      (serve_http late (new_back false 4) get)
      (search disk (candidates (new_front (codes "www/") (pos 0) false) (codes "/about")))
    ≡ (new_back false 4, (serve_content (codes "www/about.html") ∷ [], returned))
unfolding new_front set_next new_static_handler search candidates prefer file_of ext ext_from
    cache_headers is_executable is_zero has_suffix trim_suffix has_prefix
page = refl

-- Four workers: eight timeouts in a row end the process.
eight : (new_back false 4).max_timeouts ≡ 8
unfolding new_back new_worker_handler
eight = refl
