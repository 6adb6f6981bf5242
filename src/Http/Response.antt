-- ===== src/Http/Response.antt =====
-- What a handler does to its http.ResponseWriter, in order.
use core_runner.Common.{ℕ, Bool, List, [], ◌∷◌, Bytes, codes, if◌then◌else◌}

pub data Effect : Type 0 where
  -- w.Header().Set
  set_header : Bytes → Bytes → Effect
  -- w.WriteHeader
  write_header : ℕ → Effect
  -- fmt.Fprint on w
  write_body : Bytes → Effect
  -- http.Error
  http_error : Bytes → ℕ → Effect
  -- http.ServeFile
  serve_content : Bytes → Effect
  -- ServeHTTP of the next handler
  next_handler : Effect

abbrev pub err_web_404 : Bytes
err_web_404 = codes "not found"

abbrev pub err_web_500 : Bytes
err_web_500 = codes "something went wrong on server side"

-- The headers that both handlers set when CORS is to be allowed.
unfoldable pub cors_headers : Bool → List Effect
cors_headers cors =
    if cors
    then set_header (codes "access-control-allow-origin") (codes "*")
      ∷ set_header (codes "access-control-allow-methods")
          (codes "PUT,GET,POST,PATCH,DELETE,OPTIONS")
      ∷ set_header (codes "access-control-allow-credentials") (codes "true")
      ∷ set_header (codes "access-control-allow-headers") (codes "*")
      ∷ []
    else []
