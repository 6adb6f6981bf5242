-- ===== src/Server/Chain.antt =====
-- The handlers of "/": static files first, and behind them the workers.
use core_runner.Common.{
  ℕ, ◌*◌, ◌%◌, ◌≡◌, refl, ap, ◌∙◌, Bool, true, false, not, ◌||◌, List, [], ◌∷◌, ◌++◌, Bytes, codes,
  u64_mod, append-nil, if◌then◌else◌, Bool-cases, inl, inr,
}
use core_runner.Common.Decimal.{ℤ, pos}
use core_runner.Common.Maps.{◌==◌, bytes_eq}
use core_runner.Common.Text.{contains}
use core_runner.Worker.Process.TimedSend.{WorkerResult}
use core_runner.Http.Response.{
  Effect, set_header, write_header, write_body, http_error, serve_content, next_handler,
  cors_headers,
}
use core_runner.Http.Static.{StaticHandler, Stat, new_static_handler, proceed, is_zero}
use core_runner.Http.Static.Search.{
  Result, hit, missing, broken, search, candidates, cache_headers, answer, serve_http-search,
}
use core_runner.Http.Worker.{
  WorkerHandler, Request, Reply, Ending, returned, exited, panicked, behind, new_worker_handler,
}
use core_runner.Http.Static
use core_runner.Http.Worker

-- StaticHandler.Next with a handler
unfoldable pub set_next : StaticHandler → StaticHandler
set_next h = record h { has_next = true }

unfoldable pub new_front : Bytes → ℤ → Bool → StaticHandler
new_front static_dir max_age cors = set_next (new_static_handler static_dir max_age cors)

-- The handler behind it, for a number of workers: it waits for 30 seconds.
unfoldable pub new_back : Bool → ℕ → WorkerHandler
new_back cors workers = new_worker_handler cors (pos 30_000_000_000) (workers * 2 % u64_mod)

-- What a call does that goes on only if the call before it returns.
unfoldable pub and_then : Reply → (WorkerHandler → Reply) → Reply
and_then (w, (effects, returned)) rest = behind effects (rest w)
and_then (w, (effects, exited)) rest = (w, (effects, exited))
and_then (w, (effects, panicked p)) rest = (w, (effects, panicked p))

-- The effects of the static handler, with the calls of its next handler carried out.
unfoldable pub carry_out : (WorkerHandler → Reply) → List Effect → WorkerHandler → Reply
carry_out next [] w = (w, ([], returned))
carry_out next (next_handler ∷ es) w = and_then (next w) (carry_out next es)
carry_out next (set_header k v ∷ es) w = behind (set_header k v ∷ []) (carry_out next es w)
carry_out next (write_header code ∷ es) w = behind (write_header code ∷ []) (carry_out next es w)
carry_out next (write_body b ∷ es) w = behind (write_body b ∷ []) (carry_out next es w)
carry_out next (http_error b code ∷ es) w = behind (http_error b code ∷ []) (carry_out next es w)
carry_out next (serve_content f ∷ es) w = behind (serve_content f ∷ []) (carry_out next es w)

-- A request of "/", with the path of its URL.
unfoldable pub serve_chain :
    (Bytes → Stat)
    → (Bytes → ℤ → WorkerResult)
    → StaticHandler
    → WorkerHandler
    → Request
    → Bytes
    → Reply
serve_chain stat send h w r path =
    carry_out (λ w. Worker.serve_http send w r) (Static.serve_http h stat r.method path) w

-- A search for a file, by what the client gets.
abbrev pub routed : StaticHandler → WorkerHandler → Reply → Result → Reply
routed h w reply (hit file) = (w, (cache_headers h ++ serve_content file ∷ [], returned))
routed h w reply missing = reply
routed h w reply (broken e) = (w, ([], returned))

and_then-done : (reply : Reply) → and_then reply (λ w. (w, ([], returned))) ≡ reply
unfolding and_then
and_then-done (w, (effects, returned)) = rw (append-nil effects) refl
and_then-done (w, (effects, exited)) = refl
and_then-done (w, (effects, panicked p)) = refl

module _ (next : WorkerHandler → Reply) (h : StaticHandler) (w : WorkerHandler) where
  carry_out-proceed : h.has_next ≡ true → carry_out next (proceed h) w ≡ next w
  unfolding carry_out proceed
  carry_out-proceed p = rw p (and_then-done (next w))

  carry_out-cors :
      (cors : Bool) (es : List Effect)
      → carry_out next (cors_headers cors ++ es) w
        ≡ behind (cors_headers cors) (carry_out next es w)
  unfolding carry_out cors_headers
  carry_out-cors true es = refl
  carry_out-cors false es = refl

  carry_out-answer :
      h.has_next ≡ true
      → (found : Result) → carry_out next (answer h found) w ≡ routed h w (next w) found
  unfolding carry_out answer
  carry_out-answer p (hit file) =
      unfold cache_headers in
      elim (Bool-cases (is_zero h.max_age)) [ inl q ↦ rw q refl | inr q ↦ rw q refl ]
  carry_out-answer p missing = carry_out-proceed p
  carry_out-answer p (broken e) = refl

  carry_out-if :
      h.has_next ≡ true
      → (hidden : Bool) (found : Result)
      → carry_out next (if hidden then proceed h else answer h found) w
        ≡ (if hidden then next w else routed h w (next w) found)
  carry_out-if p true found = carry_out-proceed p
  carry_out-if p false found = carry_out-answer p found

-- With the handlers that the program makes, a GET request gets the first public file among the
-- file of the path and, if that has no extension, the same name with ".html", and then no worker is
-- asked and the count of timeouts stays; if there is no such file, or the path has a hidden
-- component or a "..", it gets what the workers answer, behind the CORS headers if these are asked
-- for; after a failure of Stat on the way it gets nothing but these headers. Every other request
-- gets what the workers answer.
pub serve_chain-routed :
    (stat : Bytes → Stat) (send : Bytes → ℤ → WorkerResult) (static_dir : Bytes) (max_age : ℤ)
    (cors : Bool) (w : WorkerHandler) (r : Request) (path : Bytes)
    → let h = new_front static_dir max_age cors in
      let reply = Worker.serve_http send w r in
      serve_chain stat send h w r path ≡ (
        if not (r.method == codes "GET")
        then reply
        else behind (cors_headers cors) (
            if contains path (codes "/.") || contains path (codes "..")
            then reply
            else routed h w reply (search stat (candidates h path))))
unfolding serve_chain new_front set_next new_static_handler
serve_chain-routed stat send static_dir max_age cors w r path =
    let h = new_front static_dir max_age cors in
    let next : WorkerHandler → Reply = λ w. Worker.serve_http send w r in
    let hidden = contains path (codes "/.") || contains path (codes "..") in
    let found = search stat (candidates h path) in
    elim (Bool-cases (r.method == codes "GET")) [
      | inr p ↦ rw (serve_http-search h stat r.method path, p) (carry_out-proceed next h w refl)
      | inl p ↦
          rw (serve_http-search h stat r.method path, p)
            (carry_out-cors next h w cors (if hidden then proceed h else answer h found)
              ∙ ap (behind (cors_headers cors)) (carry_out-if next h w refl hidden found))
    ]
