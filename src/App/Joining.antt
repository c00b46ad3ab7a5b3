-- ===== src/App/Joining.antt =====
-- The login moves the transfers only by the steps of File.Session.
use tcpclient.Base.{
  if-holds, option-holds, ◌==◌, if◌then◌else◌, length, drop, Bytes, c_string, ℕ, zero, suc, not,
  Option, none, some, List, [], ◌∷◌, ◌++◌,
}
use tcpclient.System.{Notice, Os, server_text, server_error, protocol_error, disconnected}
use tcpclient.Utils.{utils_read_u16_be}
use tcpclient.Client.{Client}
use tcpclient.Protocol.{Parsed, protocol_parse, need_more, bad, frame}
use tcpclient.Protocol.MsgType
use tcpclient.Ui.{ui_print, ui_display_incoming, ui_print_error}
use tcpclient.Commands.Login.{commands_login}
use tcpclient.File.Invariant.Basic.{quiet}
use tcpclient.File.Session.{Reach, frame}
use tcpclient.App.{
  App, app_ensure_capacity, text_of, shown, Dispatched, dispatch_loop, app_dispatch, RecvAnswer,
  PollAnswer, Turn, leftover, broken_stream, undefined, received, recv_eintr, recv_error,
  poll_eintr, poll_error, polled,
}
use tcpclient.App.Dispatching.{after_loop}
use tcpclient.App.Talking.{told, commands_login-Quiet}
use tcpclient.App.Reaching.{shown_to, Ends, dispatch_loop-Ends}
use tcpclient.App.Running.{PairGoes, ensure-goes}
use tcpclient.App.Login.{
  Scanned, login_scan, LoginEnd, ask_again, login_failed, after_scan, login_turns, login_loop,
  waiting, welcome, denied, scan_broken, scan_undefined, logged_in, failed, still_waiting,
  login_undefined,
}

abbrev ScanGoes : Os → Scanned → Type 0
ScanGoes os (waiting buf c) = Reach os c
ScanGoes os (welcome buf c) = Reach os c
ScanGoes os (denied buf c) = Reach os c
ScanGoes os (scan_broken c) = Reach os c
ScanGoes os scan_undefined = Unit

login_scan-goes :
    (os : Os) (fuel : ℕ) (buf : Bytes) (c : Client)
    → Reach os c
    → ScanGoes os (login_scan fuel buf c)
unfolding login_scan ui_print_error
login_scan-goes os zero buf c r = r
login_scan-goes os (suc fuel) buf c r =
    by_parsed (protocol_parse buf) (λ n. login_scan-goes os fuel (drop n buf) c r)
  where
    by_parsed :
        (p : Parsed)
        → ((n : ℕ) → ScanGoes os (login_scan fuel (drop n buf) c))
        → ScanGoes os (elim p as (λ (x : Parsed). Scanned) [
          | need_more ↦ waiting buf c
          | bad ↦ scan_broken (ui_print protocol_error c)
          | frame msg_type payload plen consumed ↦
              let rest = login_scan fuel (drop consumed buf) c in
              if msg_type == MsgType.server_msg
              then elim (text_of payload) [
                | none ↦ scan_undefined
                | some text ↦ welcome (drop consumed buf) (ui_display_incoming (server_text text) c)
              ]
              else if msg_type == MsgType.error
              then elim (c_string (drop 3 (shown payload))) [
                | none ↦ scan_undefined
                | some message ↦
                    denied
                      (drop consumed buf)
                      (ui_print_error (utils_read_u16_be (shown payload)) message c)
              ]
              else rest
        ])
    by_parsed need_more later = r
    by_parsed bad later = told os c (ui_print protocol_error c) r (quiet c)
    by_parsed (frame t v n k) later =
        if-holds (ScanGoes os) (t == MsgType.server_msg)
          (λ e.
            option-holds (ScanGoes os) (text_of v) tt
              (λ text e. shown_to os c (server_text text) r))
          (λ e.
            if-holds (ScanGoes os) (t == MsgType.error)
              (λ e.
                option-holds (ScanGoes os) (c_string (drop 3 (shown v))) tt (λ message e.
                  shown_to os c (server_error (utils_read_u16_be (shown v)) message) r))
              (λ e. later k))

abbrev pub EndGoes : Os → LoginEnd → Type 0
EndGoes os (logged_in a) = Reach os a.client
EndGoes os (failed a) = Reach os a.client
EndGoes os (still_waiting a) = Reach os a.client
EndGoes os login_undefined = Unit

ask_again-goes : (os : Os) (a : App) → Reach os a.client → PairGoes os (ask_again os a)
unfolding ask_again
ask_again-goes os a r =
    told os a.client (commands_login os a.input a.client).0 r
      (commands_login-Quiet os a.input a.client)

after_scan-goes :
    (os : Os) (a : App) (s : Scanned) (later : App → LoginEnd)
    → ScanGoes os s
    → ((b : App) → Reach os b.client → EndGoes os (later b))
    → EndGoes os (after_scan os a s later)
unfolding after_scan app_dispatch
after_scan-goes os a (waiting buf c) later h k = k (record a { client = c; rbuf = buf }) h
after_scan-goes os a (welcome buf c) later h k =
    by_loop (dispatch_loop os (length buf) buf c) (dispatch_loop-Ends os (length buf) buf c h)
  where
    by_loop :
        (d : Dispatched)
        → Ends os d
        → EndGoes os
            (elim (after_loop (record a { client = c; rbuf = buf }) d)
              as (λ (x : Option App). LoginEnd) [ none ↦ login_undefined | some a1 ↦ logged_in a1 ])
    by_loop (leftover rest d) g = g
    by_loop (broken_stream d) g = told os d (ui_print protocol_error d) g (quiet d)
    by_loop undefined g = tt
after_scan-goes os a (denied buf c) later h k =
    let a1 : App = record a { client = c; rbuf = buf } in
    let g : Reach os (ask_again os a1).0.client = ask_again-goes os a1 h in
    if-holds (EndGoes os) (ask_again os a1).1 (λ e. k (ask_again os a1).0 g) (λ e. g)
after_scan-goes os a (scan_broken c) later h k = h
after_scan-goes os a scan_undefined later h k = tt

failed_saying :
    (os : Os) (why : Notice) (a : App) → Reach os a.client → EndGoes os (login_failed why a)
unfolding login_failed
failed_saying os why a r = told os a.client (ui_print why a.client) r (quiet a.client)

login_turns-goes :
    (os : Os) (turns : List Turn) (a : App)
    → Reach os a.client
    → EndGoes os (login_turns os turns a)
unfolding login_turns
login_turns-goes os [] a r = r
login_turns-goes os (t ∷ turns) a r = by_poll t.poll (λ b rb. login_turns-goes os turns b rb)
  where
    by_recv :
        (answer : RecvAnswer) (a1 : App)
        → Reach os a1.client
        → ((b : App) → Reach os b.client → EndGoes os (login_turns os turns b))
        → EndGoes os (elim answer as (λ (x : RecvAnswer). LoginEnd) [
          | received [] ↦ login_failed disconnected a1
          | received (x ∷ bytes) ↦
              let buf = a1.rbuf ++ (x ∷ bytes) in
              after_scan os
                (record a1 { rbuf = buf })
                (login_scan (length buf) buf a1.client)
                (login_turns os turns)
          | recv_eintr ↦ login_failed disconnected a1
          | recv_error ↦ login_failed disconnected a1
        ])
    by_recv (received []) a1 r1 later = failed_saying os disconnected a1 r1
    by_recv (received (x ∷ bytes)) a1 r1 later =
        let buf : Bytes = a1.rbuf ++ (x ∷ bytes) in
        after_scan-goes os (record a1 { rbuf = buf }) (login_scan (length buf) buf a1.client)
          (login_turns os turns) (login_scan-goes os (length buf) buf a1.client r1) later
    by_recv recv_eintr a1 r1 later = failed_saying os disconnected a1 r1
    by_recv recv_error a1 r1 later = failed_saying os disconnected a1 r1

    by_poll :
        (p : PollAnswer)
        → ((b : App) → Reach os b.client → EndGoes os (login_turns os turns b))
        → EndGoes os (elim p as (λ (x : PollAnswer). LoginEnd) [
          | poll_eintr ↦ login_turns os turns a
          | poll_error ↦ failed a
          | polled timed_out sock readable ↦
              if not t.keep_running
              then failed a
              else if timed_out
              then login_turns os turns a
              else let (a1, room) = app_ensure_capacity t.realloc_ok a in
                if not room then failed a1 else elim t.recv as (λ (x : RecvAnswer). LoginEnd) [
                  | received [] ↦ login_failed disconnected a1
                  | received (x ∷ bytes) ↦
                      let buf = a1.rbuf ++ (x ∷ bytes) in
                      after_scan os
                        (record a1 { rbuf = buf })
                        (login_scan (length buf) buf a1.client)
                        (login_turns os turns)
                  | recv_eintr ↦ login_failed disconnected a1
                  | recv_error ↦ login_failed disconnected a1
                ]
        ])
    by_poll poll_eintr later = later a r
    by_poll poll_error later = r
    by_poll (polled timed_out sock readable) later =
        let r1 = ensure-goes os t.realloc_ok a r in
        if-holds (EndGoes os) (not t.keep_running) (λ e. r)
          (λ e.
            if-holds (EndGoes os) timed_out (λ e. later a r)
              (λ e.
                if-holds (EndGoes os) (not (app_ensure_capacity t.realloc_ok a).1) (λ e. r1)
                  (λ e. by_recv t.recv (app_ensure_capacity t.realloc_ok a).0 r1 later)))

pub login_loop-goes :
    (os : Os) (turns : List Turn) (a : App) → Reach os a.client → EndGoes os (login_loop os turns a)
unfolding login_loop
login_loop-goes os turns a r =
    let r1 : Reach os (ask_again os a).0.client = ask_again-goes os a r in
    if-holds (EndGoes os) (ask_again os a).1 (λ e. login_turns-goes os turns (ask_again os a).0 r1)
      (λ e. r1)
