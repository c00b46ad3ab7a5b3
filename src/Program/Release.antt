-- ===== src/Program/Release.antt =====
-- What the program has released at its end.
use tcpclient.Base.{
  get_or-replicate, if-holds, option-holds, if◌then◌else◌, Bytes, ℕ, ◌<◌, ◌≡◌, refl, Bool, not,
  Option, none, some, List, [], ◌∷◌,
}
use tcpclient.Conn.{
  Connection, conn_connect, descriptors_after, Held, conn_close, conn, unresolved, refused,
}
use tcpclient.Conn.Delivery.{expected_descriptors, descriptors_after_lem}
use tcpclient.System.{Os}
use tcpclient.Client.{no_send, no_recv, Client, max_recv_pending, start, slot}
use tcpclient.File.Events.{file_reset_all}
use tcpclient.File.Invariant.{opened_count, closed_count, allocated_count, freed_count}
use tcpclient.File.Session.{Reach, reset, begin, next}
use tcpclient.File.Session.Reset.{reset-Clean}
use tcpclient.App.{App, app_run}
use tcpclient.App.Login.{LoginEnd, login_loop, logged_in, failed, still_waiting, login_undefined}
use tcpclient.App.Running.{AppGoes, app_run-goes}
use tcpclient.App.Joining.{EndGoes, login_loop-goes}
use tcpclient.Program.{
  port_of, World, Process, app_destroy, Connected, nothing_held, new_app, connect_app, app_connect,
  Exit, run_and_destroy, with_port, main, not_connected, ready, connecting, connect_undefined, exit,
  unfinished, exit_undefined,
}

-- Nothing is left of the transfers: no task, no file handle, no map.
abbrev pub NoTransfers : Client → Type 0
NoTransfers c =
    (c.send_task ≡ no_send)
    × ((i : ℕ) → i < max_recv_pending → slot c i ≡ no_recv)
    × (opened_count c.log ≡ closed_count c.log)
    × (allocated_count c.log ≡ freed_count c.log)

abbrev pub Released : Client → Held → Type 0
Released c held = (held ≡ nothing_held) × NoTransfers c

start-NoTransfers : NoTransfers start
start-NoTransfers = (refl, λ i lt. get_or-replicate max_recv_pending i, refl, refl)

-- What a way to end must satisfy.
abbrev Ending : Exit → Type 0
Ending (exit n c held) = Released c held
Ending unfinished = Unit
Ending exit_undefined = Unit

-- What holds when `app_connect` is done: with an application, no transfer is there.
abbrev pub Standing : Os → Connected → Type 0
Standing os (not_connected c held) = Released c held
Standing os (ready p) =
    Reach os p.app.client
    × ((fd : ℕ) × (p.conn ≡ some (record { fd = some fd })))
    × (p.held ≡ record { descriptors = 1; blocks = 3 })
    × NoTransfers p.app.client
Standing os connecting = Unit
Standing os connect_undefined = Unit

destroyed :
    (os : Os) (p : Process) (fd : ℕ)
    → Reach os p.app.client
    → p.conn ≡ some (record { fd = some fd })
    → p.held ≡ record { descriptors = 1; blocks = 3 }
    → Released (app_destroy p).app.client (app_destroy p).held
unfolding app_destroy conn_close
destroyed os p fd r hc hh = (rw (hc, hh) refl, reset-Clean os r)

connect_app-Standing : (os : Os) (w : World) (fd : ℕ) → Standing os (connect_app os w 1 fd)
unfolding connect_app conn_close
connect_app-Standing os w fd =
    if-holds (Standing os) (not w.calloc_ok) (λ e. (refl, start-NoTransfers))
      (λ e.
        if-holds (Standing os) (not w.malloc_ok) (λ e. (refl, start-NoTransfers))
          (λ e.
            by_login (login_loop os w.login_turns (new_app w))
              (login_loop-goes os w.login_turns (new_app w) begin)))
  where
    by_login :
        (l : LoginEnd)
        → EndGoes os l
        → Standing os (elim l as (λ (x : LoginEnd). Connected) [
          | logged_in a ↦ ready (record {
            app = record a { client = file_reset_all a.client };
            conn = some (record { fd = some fd });
            held = record { descriptors = 1; blocks = 3 };
          })
          | failed a ↦
              let p : Process = app_destroy (record {
                app = a;
                conn = some (record { fd = some fd });
                held = record { descriptors = 1; blocks = 3 };
              }) in
              not_connected p.app.client p.held
          | still_waiting a ↦ connecting
          | login_undefined ↦ connect_undefined
        ])
    by_login (logged_in a) g = (next g reset, (fd, refl), refl, reset-Clean os g)
    by_login (failed a) g =
        destroyed os
          (record {
            app = a;
            conn = some (record { fd = some fd });
            held = record { descriptors = 1; blocks = 3 };
          })
          fd g refl refl
    by_login (still_waiting a) g = tt
    by_login login_undefined g = tt

pub app_connect-Standing : (os : Os) (w : World) (port : ℕ) → Standing os (app_connect os w port)
unfolding app_connect
app_connect-Standing os w port =
    by_conn (conn_connect (w.addresses port)) (descriptors_after (w.addresses port))
      (descriptors_after_lem (w.addresses port))
  where
    by_conn :
        (c : Connection) (descriptors : ℕ)
        → descriptors ≡ expected_descriptors c
        → Standing os (elim c as (λ (x : Connection). Connected) [
          | conn fd ↦ connect_app os w descriptors fd
          | unresolved e ↦ not_connected start (record { descriptors = descriptors; blocks = 0 })
          | refused e ↦ not_connected start (record { descriptors = descriptors; blocks = 0 })
        ])
    by_conn (conn fd) n e = rw e (connect_app-Standing os w fd)
    by_conn (unresolved gai) n e = rw e (refl, start-NoTransfers)
    by_conn (refused err) n e = rw e (refl, start-NoTransfers)

run_and_destroy-Ending :
    (os : Os) (w : World) (p : Process) → Standing os (ready p) → Ending (run_and_destroy os w p)
unfolding run_and_destroy
run_and_destroy-Ending os w p (r, (fd, hc), hh, clean) =
    by_run (app_run os w.turns p.app) (app_run-goes os w.turns p.app r)
  where
    by_run :
        (o : Option (App × Bool))
        → AppGoes os o
        → Ending (elim o as (λ (x : Option (App × Bool)). Exit) [
          | none ↦ exit_undefined
          | some (a, ended) ↦
              let q : Process = app_destroy (record p { app = a }) in
              if ended then exit 0 q.app.client q.held else unfinished
        ])
    by_run none g = tt
    by_run (some (a, ended)) g =
        if-holds Ending ended (λ e. destroyed os (record p { app = a }) fd g hc hh) (λ e. tt)

with_port-Ending : (os : Os) (w : World) (port : ℕ) → Ending (with_port os w port)
unfolding with_port
with_port-Ending os w port = by_connected (app_connect os w port) (app_connect-Standing os w port)
  where
    by_connected :
        (c : Connected)
        → Standing os c
        → Ending (elim c as (λ (x : Connected). Exit) [
          | not_connected c held ↦ exit 1 c held
          | ready p ↦ run_and_destroy os w p
          | connecting ↦ unfinished
          | connect_undefined ↦ exit_undefined
        ])
    by_connected (not_connected c held) g = g
    by_connected (ready p) g = run_and_destroy-Ending os w p g
    by_connected connecting g = tt
    by_connected connect_undefined g = tt

main-Ending : (os : Os) (w : World) (args : List Bytes) → Ending (main os w args)
unfolding main
main-Ending os w [] = (refl, start-NoTransfers)
main-Ending os w (host ∷ []) = with_port-Ending os w 18080
main-Ending os w (host ∷ port ∷ []) =
    option-holds Ending (port_of port) (refl, start-NoTransfers) (λ p e. with_port-Ending os w p)
main-Ending os w (host ∷ port ∷ other ∷ rest) = (refl, start-NoTransfers)

-- However the program exits, for whatever arguments, input, server and answers of the kernel: the
-- sockets of all attempts to connect are closed, the blocks of the connection, the application and
-- its buffer are freed, the send task and all receive slots are zeroed, every file handle has been
-- closed and every map freed.
pub main-Released :
    (os : Os) (w : World) (args : List Bytes) {n : ℕ} {c : Client} {held : Held}
    → main os w args ≡ exit n c held
    → Released c held
main-Released os w args e = let g : Ending (main os w args) = main-Ending os w args in rw e at g
