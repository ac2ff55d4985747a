-- ===== src/Trigger/Listener.antt =====
-- internal/trigger/server.go: what the adapter serves under which path, and how it ends. The socket,
-- the HTTP server and the cleaning of a path by ServeMux are parameters.
pub mod Endings
use openconveyor.Prelude.{
  Bool, true, false, Option, none, some, ◌∷◌, [], Text, codes, text_eq, if◌then◌else◌,
}
use openconveyor.Errors.{Err, new, wrap, Result, ok, err}
use openconveyor.Trigger.Handler.{Response}

-- Every replica serves webhooks, not only the leader.
abbrev pub need_leader_election : Bool
need_leader_election = false

pub data Served : Type 0 where
  -- 200, with nothing in the body
  healthy : Served
  -- the redirect of ServeMux to the clean path
  redirected : (path : Text) → Served
  handled : Response → Served

-- The ServeMux, on the path of a request and what the Handler answers.
unfoldable pub mux : (clean : Text → Text) → Text → Response → Served
mux clean path response =
    if text_eq (clean path) path
    then (if text_eq path (codes "/healthz") then healthy else handled response)
    else redirected (clean path)

-- What srv.Serve ends with, `closed` for http.ErrServerClosed.
pub data ServeEnd : Type 0 where
  closed : ServeEnd
  broken : Err → ServeEnd

-- What the select of Start receives first: the end of the context, with what Shutdown then returns,
-- or the end of srv.Serve.
pub data Ending : Type 0 where
  cancelled : (shutdown : Result (Unit {0})) → Ending
  served : ServeEnd → Ending

serve_error : ServeEnd → Result (Unit {0})
serve_error closed = ok tt
serve_error (broken e) = err e

-- An error of Shutdown is logged only.
ended : Ending → Result (Unit {0})
unfolding serve_error
ended (cancelled shutdown) = ok tt
ended (served e) = serve_error e

after_listen : Text → Ending → Result (Unit {0}) → Result (Unit {0})
unfolding ended
after_listen addr ending (err e) = err (wrap (codes "trigger server listen %s: %w") (addr ∷ []) e)
after_listen addr ending (ok u) = ended ending

module _ {H : Type 0} where
  -- Start, with `none` for a nil Handler; `ok tt` is nil.
  unfoldable pub start :
      Option H → Text → (listen : Text → Result (Unit {0})) → Ending → Result (Unit {0})
  unfolding after_listen
  start none addr listen ending = err (new (codes "trigger server: Handler is nil") [])
  start (some handler) addr listen ending = after_listen addr ending (listen addr)
