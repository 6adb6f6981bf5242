-- ===== src/Http/Static.antt =====
-- http/static.go: files of a directory. What os.Stat answers for a name is the argument `stat`.
pub mod Search
pub mod Paths
pub mod Inside
use core_runner.Common.{
  ℕ, ◌+◌, ◌/◌, ◌%◌, Bool, true, false, not, ◌||◌, Option, none, some, List, [], ◌∷◌, ◌++◌, Bytes,
  codes, Error, if◌then◌else◌,
}
use core_runner.Common.Maps.{◌==◌, nat_eq, bytes_eq}
use core_runner.Common.Decimal.{ℤ, pos, negsuc, itoa}
use core_runner.Common.Text.{contains, has_suffix, trim_suffix}
use core_runner.Http.Response.{
  Effect, set_header, http_error, serve_content, next_handler, cors_headers, err_web_404,
}

-- has_next: `h.next != nil`
pub record StaticHandler : Type 0 where
  pub static_dir : Bytes
  pub max_age : ℤ
  pub cors : Bool
  pub has_next : Bool

-- NewStaticHandler
unfoldable pub new_static_handler : Bytes → ℤ → Bool → StaticHandler
new_static_handler static_dir max_age cors = record {
  static_dir = static_dir;
  max_age = max_age;
  cors = cors;
  has_next = false;
}

-- os.FileMode, by what the handler asks of it.
pub record FileMode : Type 0 where
  pub is_regular : Bool
  pub perm : ℕ

pub data Stat : Type 0 where
  found : FileMode → Stat
  -- an error that is os.ErrNotExist
  not_exist : Stat
  other_error : Error → Stat

-- mode.Perm()&0111 != 0
unfoldable pub is_executable : ℕ → Bool
is_executable perm = not (perm % 2 + perm / 8 % 2 + perm / 64 % 2 == 0)

-- fmt.Sprintf("%d", n)
unfoldable pub print_int : ℤ → Bytes
print_int (pos n) = itoa n
print_int (negsuc n) = b'-' ∷ itoa (n + 1)

unfoldable pub is_zero : ℤ → Bool
is_zero (pos n) = n == 0
is_zero (negsuc n) = false

-- filepath.Ext: from the last dot behind the last slash. The first argument is what follows
-- the last dot before, with that dot.
unfoldable pub ext_from : Bytes → Bytes → Bytes
ext_from seen [] = seen
ext_from seen (c ∷ s) = ext_from (if c == b'.' then c ∷ s else if c == b'/' then [] else seen) s

unfoldable pub ext : Bytes → Bytes
ext file = ext_from [] file

-- What serveFile returns, and its effects.
pub data Served : Type 0 where
  served not_served : Served
  failed : Error → Served

unfoldable pub serve_mode : StaticHandler → Bytes → FileMode → List Effect × Served
serve_mode h file mode =
    if not mode.is_regular || is_executable mode.perm then ([], not_served) else (
      (if is_zero h.max_age
            then []
            else set_header (codes "cache-control") (codes "max-age=" ++ print_int h.max_age) ∷ [])
          ++ serve_content file ∷ [],
      served,
    )

unfoldable pub serve_stat : StaticHandler → Bytes → Stat → List Effect × Served
serve_stat h file (found mode) = serve_mode h file mode
serve_stat h file not_exist = ([], not_served)
serve_stat h file (other_error e) = ([], failed e)

unfoldable pub serve_file : StaticHandler → (Bytes → Stat) → Bytes → List Effect × Served
serve_file h stat file = serve_stat h file (stat file)

unfoldable pub proceed : StaticHandler → List Effect
proceed h = if h.has_next then next_handler ∷ [] else http_error err_web_404 404 ∷ []

-- What ServeHTTP does with the results of serveFile; an error is only logged.
unfoldable pub after_serve : List Effect × Served → List Effect → List Effect
after_serve (effects, served) rest = effects
after_serve (effects, failed e) rest = effects
after_serve (effects, not_served) rest = effects ++ rest

-- The file of a path.
unfoldable pub file_of : StaticHandler → Bytes → Bytes
file_of h path =
    let file = trim_suffix h.static_dir (codes "/") ++ path in
    if has_suffix file (codes "/") then file ++ codes "index.html" else file

-- ServeHTTP behind the tests of the path.
unfoldable pub serve_path : StaticHandler → (Bytes → Stat) → Bytes → List Effect
serve_path h stat path =
    let file = file_of h path in
    after_serve (serve_file h stat file) (
      if ext file == []
      then after_serve (serve_file h stat (file ++ codes ".html")) (proceed h)
      else proceed h)

unfoldable pub serve_http : StaticHandler → (Bytes → Stat) → Bytes → Bytes → List Effect
serve_http h stat method path =
    if not (method == codes "GET")
    then proceed h
    else cors_headers h.cors
      ++ (if contains path (codes "/.") || contains path (codes "..")
          then proceed h
          else serve_path h stat path)
