-- ===== src/App/Running.antt =====
-- The transfers along `app_run`.
use tcpclient.Base.{
  bool-holds, if-holds, option-holds, ltb, if◌then◌else◌, length, Bytes, ◌*◌, ◌≡◌, Bool, true,
  false, not, ◌&&◌, ◌||◌, Option, none, some, List, [], ◌∷◌, ◌++◌,
}
use tcpclient.System.{
  Notice, Os, buffer_limit, out_of_memory, protocol_error, disconnected, recv_failed, goodbye,
  input_too_long, poll_failed,
}
use tcpclient.Utils.{utils_trim_newline}
use tcpclient.Client.{start}
use tcpclient.Ui.{ui_print, ui_prompt}
use tcpclient.Commands.Login.{fgets, has_newline}
use tcpclient.Commands.Dispatch.{Handled, commands_handle_line}
use tcpclient.File.Send.{file_send_active}
use tcpclient.File.Invariant.Basic.{quiet}
use tcpclient.File.Invariant.Output.{ui_prompt-Quiet}
use tcpclient.File.Invariant.{IsValid}
use tcpclient.File.Session.{Reach, Reach-IsValid, tick, begin, next}
use tcpclient.App.{
  rbuf_max, input_max, App, with_client, stop_with, app_ensure_capacity, Dispatched, dispatch_loop,
  app_dispatch, RecvAnswer, app_handle_socket, handle_input_line, app_handle_stdin, PollAnswer,
  Turn, tick_on_timeout, run_input, run_turn, app_run, leftover, broken_stream, undefined, received,
  recv_eintr, recv_error, poll_eintr, poll_error, polled,
}
use tcpclient.App.Dispatching.{after_loop}
use tcpclient.App.Talking.{told, commands_handle_line-Reach}
use tcpclient.App.Reaching.{Ends, dispatch_loop-Ends}

abbrev pub AppGoes : Os → Option (App × Bool) → Type 0
AppGoes os none = Unit
AppGoes os (some r) = Reach os (r.0.client)

abbrev pub PairGoes : Os → App × Bool → Type 0
PairGoes os r = Reach os (r.0.client)

stopped : (os : Os) (why : Notice) (a : App) → Reach os a.client → Reach os (stop_with why a).client
stopped os why a r = told os a.client (ui_print why a.client) r (quiet a.client)

pub ensure-goes :
    (os : Os) (realloc_ok : Bool) (a : App)
    → Reach os a.client
    → PairGoes os (app_ensure_capacity realloc_ok a)
unfolding app_ensure_capacity
ensure-goes os realloc_ok a r =
    if-holds (PairGoes os) (ltb (length a.rbuf) a.rbuf_cap) (λ e. r)
      (λ e.
        if-holds (PairGoes os) (ltb rbuf_max (a.rbuf_cap * 2)) (λ e. stopped os buffer_limit a r)
          (λ e.
            if-holds (PairGoes os) (not realloc_ok) (λ e. stopped os out_of_memory a r) (λ e. r)))

after_loop-goes :
    (os : Os) (a : App) (d : Dispatched)
    → Ends os d
    → AppGoes os (elim (after_loop a d) [ none ↦ none | some a2 ↦ some (a2, true) ])
after_loop-goes os a (leftover buf c) h = h
after_loop-goes os a (broken_stream c) h = stopped os protocol_error (with_client a c) h
after_loop-goes os a undefined h = tt

app_handle_socket-goes :
    (os : Os) (realloc_ok : Bool) (answer : RecvAnswer) (a : App)
    → Reach os a.client
    → AppGoes os (app_handle_socket os realloc_ok answer a)
unfolding app_handle_socket app_dispatch
app_handle_socket-goes os realloc_ok answer a r =
    let a1 : App = (app_ensure_capacity realloc_ok a).0 in
    let r1 : Reach os a1.client = ensure-goes os realloc_ok a r in
    if-holds (AppGoes os) (not (app_ensure_capacity realloc_ok a).1) (λ e. r1)
      (λ e. by_answer (app_ensure_capacity realloc_ok a).0 answer r1)
  where
    by_answer :
        (a1 : App) (answer : RecvAnswer)
        → Reach os a1.client
        → AppGoes os (elim answer as (λ (x : RecvAnswer). Option (App × Bool)) [
          | received [] ↦ some (stop_with disconnected a1, false)
          | received (x ∷ bytes) ↦
              elim (app_dispatch os (record a1 { rbuf = a1.rbuf ++ (x ∷ bytes) })) [
                | none ↦ none
                | some a2 ↦ some (a2, true)
              ]
          | recv_eintr ↦ some (a1, true)
          | recv_error ↦ some (stop_with recv_failed a1, false)
        ])
    by_answer a1 (received []) r1 = stopped os disconnected a1 r1
    by_answer a1 (received (x ∷ bytes)) r1 =
        let buf : Bytes = a1.rbuf ++ (x ∷ bytes) in
        after_loop-goes os (record a1 { rbuf = buf }) (dispatch_loop os (length buf) buf a1.client)
          (dispatch_loop-Ends os (length buf) buf a1.client r1)
    by_answer a1 recv_eintr r1 = r1
    by_answer a1 recv_error r1 = stopped os recv_failed a1 r1

app_handle_stdin-goes :
    (os : Os) (a : App) → Reach os a.client → PairGoes os (app_handle_stdin os a)
unfolding app_handle_stdin handle_input_line
app_handle_stdin-goes os a r =
    option-holds (PairGoes os) (fgets input_max a.input) (stopped os goodbye a r) (λ p e.
      if-holds (PairGoes os) (not (has_newline (p.0)))
        (λ e. told os a.client (ui_print input_too_long a.client) r (quiet a.client))
        (λ e.
          let h : Handled = commands_handle_line os (utils_trim_newline (p.0)) (p.1) a.client in
          let rh : Reach os h.client =
            commands_handle_line-Reach os (utils_trim_newline (p.0)) (p.1) a.client r in
          if-holds (PairGoes os) (not h.ok || h.quit) (λ e. rh)
            (λ e. told os h.client (ui_prompt h.client) rh (ui_prompt-Quiet h.client))))

tick-goes :
    (os : Os) (timed_out : Bool) (a : App)
    → Reach os a.client
    → PairGoes os (tick_on_timeout os timed_out a)
unfolding tick_on_timeout
tick-goes os timed_out a r =
    if-holds (PairGoes os) (timed_out && file_send_active a.client) (λ e. next r tick) (λ e. r)

run_input-goes :
    (os : Os) (timed_out readable : Bool) (a : App)
    → Reach os a.client
    → PairGoes os (run_input os timed_out readable a)
unfolding run_input
run_input-goes os timed_out readable a r =
    if-holds (PairGoes os) readable
      (λ e.
        let a1 : App = (app_handle_stdin os a).0 in
        let r1 : Reach os a1.client = app_handle_stdin-goes os a r in
        if-holds (PairGoes os) (not (app_handle_stdin os a).1) (λ e. r1)
          (λ e. tick-goes os timed_out a1 r1))
      (λ e. tick-goes os timed_out a r)

run_turn-goes : (os : Os) (t : Turn) (a : App) → Reach os a.client → AppGoes os (run_turn os t a)
unfolding run_turn
run_turn-goes os t a r = by_poll t.poll
  where
    by_poll :
        (p : PollAnswer)
        → AppGoes os (elim p as (λ (x : PollAnswer). Option (App × Bool)) [
          | poll_eintr ↦ some (a, true)
          | poll_error ↦ some (with_client a (ui_print poll_failed a.client), false)
          | polled timed_out sock readable ↦
              if sock
              then elim (app_handle_socket os t.realloc_ok t.recv a) [
                | none ↦ none
                | some (a1, go_on) ↦
                    if not go_on
                    then some (a1, false)
                    else some (run_input os timed_out readable a1)
              ]
              else some (run_input os timed_out readable a)
        ])
    by_poll poll_eintr = r
    by_poll poll_error = told os a.client (ui_print poll_failed a.client) r (quiet a.client)
    by_poll (polled timed_out sock readable) =
        if-holds (AppGoes os) sock
          (λ e.
            by_socket (app_handle_socket os t.realloc_ok t.recv a)
              (app_handle_socket-goes os t.realloc_ok t.recv a r))
          (λ e. run_input-goes os timed_out readable a r)
      where
        by_socket :
            (o : Option (App × Bool))
            → AppGoes os o
            → AppGoes os (elim o as (λ (x : Option (App × Bool)). Option (App × Bool)) [
              | none ↦ none
              | some (a1, go_on) ↦
                  if not go_on then some (a1, false) else some (run_input os timed_out readable a1)
            ])
        by_socket none g = tt
        by_socket (some (a1, go_on)) g =
            if-holds (AppGoes os) (not go_on) (λ e. g)
              (λ e. run_input-goes os timed_out readable a1 g)

pub app_run-goes :
    (os : Os) (turns : List Turn) (a : App) → Reach os a.client → AppGoes os (app_run os turns a)
unfolding app_run
app_run-goes os [] a r = r
app_run-goes os (t ∷ turns) a r =
    bool-holds (AppGoes os) (a.running && t.keep_running)
      (λ e.
        by_turn (run_turn os t a) (run_turn-goes os t a r) (λ a1 r1. app_run-goes os turns a1 r1))
      (λ e. r)
  where
    by_turn :
        (o : Option (App × Bool))
        → AppGoes os o
        → ((a1 : App) → Reach os a1.client → AppGoes os (app_run os turns a1))
        → AppGoes os (elim o as (λ (x : Option (App × Bool)). Option (App × Bool)) [
          | none ↦ none
          | some (a1, go_on) ↦ elim go_on [ true ↦ app_run os turns a1 | false ↦ some (a1, true) ]
        ])
    by_turn none g later = tt
    by_turn (some (a1, true)) g later = later a1 g
    by_turn (some (a1, false)) g later = g

-- From a client in its initial state, and for every sequence of answers of `poll`, `recv` and
-- `realloc`, every input and every stream of bytes, a run of `app_run` that meets no undefined
-- behaviour ends in a client that satisfies `IsValid`, and that the calls of src/file.c reach.
app_run-IsValid :
    (os : Os) (turns : List Turn) (a : App) {r : App × Bool}
    → a.client ≡ start
    → app_run os turns a ≡ some r
    → Reach os (r.0.client) × IsValid (r.0.client)
app_run-IsValid os turns a {r} h e =
    let g : AppGoes os (app_run os turns a) = app_run-goes os turns a (rw h begin) in
    let g1 : Reach os (r.0.client) = rw e at g in (g1, Reach-IsValid os g1)
