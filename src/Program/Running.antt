-- ===== src/Program/Running.antt =====
-- The event loop where `main` starts it, behind `app_connect`.
use tcpclient.Base.{ℕ, ◌≡◌, Bool, some}
use tcpclient.System.{Os}
use tcpclient.File.Invariant.{IsValid}
use tcpclient.File.Session.{Reach, Reach-IsValid}
use tcpclient.App.{App, app_run}
use tcpclient.App.Running.{AppGoes, app_run-goes}
use tcpclient.Program.{World, Process, app_connect, ready}
use tcpclient.Program.Release.{NoTransfers, Standing, app_connect-Standing}

-- Where `app_connect` succeeds, whatever the user types and the server sends during the login: the
-- event loop starts with no transfer, every handle closed and every map freed. A run of `app_run`
-- from there that meets no undefined behaviour ends with a client that the calls of src/file.c
-- reach, and that satisfies `IsValid`.
pub connected_run-IsValid :
    (os : Os) (w : World) (port : ℕ) {p : Process} {r : App × Bool}
    → app_connect os w port ≡ ready p
    → app_run os w.turns p.app ≡ some r
    → NoTransfers p.app.client × Reach os (r.0.client) × IsValid (r.0.client)
connected_run-IsValid os w port {p} {r} e e' =
    let s : Standing os (app_connect os w port) = app_connect-Standing os w port in
    let (reached, has_conn, held, clean) = as_ready p (rw e at s) in
    let g : AppGoes os (app_run os w.turns p.app) = app_run-goes os w.turns p.app reached in
    let h : Reach os (r.0.client) = rw e' at g in (clean, h, Reach-IsValid os h)
  where
    as_ready : (p : Process) → Standing os (ready p) → Standing os (ready p)
    as_ready p s = s
