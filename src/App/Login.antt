-- ===== src/App/Login.antt =====
-- `login_loop` of src/app.c, over the answers of `poll` and `recv`.
use tcpclient.Base.{
  ◌==◌, if◌then◌else◌, length, drop, Bytes, c_string, ℕ, zero, suc, Bool, not, none, some, List, [],
  ◌∷◌, ◌++◌,
}
use tcpclient.System.{Notice, Os, server_text, protocol_error, disconnected}
use tcpclient.Utils.{utils_read_u16_be}
use tcpclient.Client.{Client}
use tcpclient.Protocol.{protocol_parse, need_more, bad, frame}
use tcpclient.Protocol.MsgType
use tcpclient.Ui.{ui_print, ui_display_incoming, ui_print_error}
use tcpclient.Commands.Login.{commands_login}
use tcpclient.File.Session.{frame}
use tcpclient.App.{
  App, with_client, app_ensure_capacity, text_of, shown, app_dispatch, Turn, received, recv_eintr,
  recv_error, poll_eintr, poll_error, polled,
}

-- What the frames received so far say, with the bytes behind the frame that says it.
pub data Scanned : Type 0 where
  waiting welcome denied : Bytes → Client → Scanned
  scan_broken : Client → Scanned
  scan_undefined : Scanned

-- The inner loop on the bytes from `off` on; the length of the buffer is fuel enough, as in
-- `dispatch_loop`.
unfoldable pub login_scan : ℕ → Bytes → Client → Scanned
login_scan zero buf c = waiting buf c
login_scan (suc fuel) buf c = elim (protocol_parse buf) [
  | need_more ↦ waiting buf c
  | bad ↦ scan_broken (ui_print protocol_error c)
  | frame msg_type payload plen consumed ↦
      let rest = login_scan fuel (drop consumed buf) c in
      if msg_type == MsgType.server_msg
      then elim (text_of payload) [
        | none ↦ scan_undefined
        | some text ↦ welcome (drop consumed buf) (ui_display_incoming (server_text text) c)
      ]
      else if msg_type == MsgType.error
      then elim (c_string (drop 3 (shown payload))) [
        | none ↦ scan_undefined
        | some message ↦
            denied (drop consumed buf)
              (ui_print_error (utils_read_u16_be (shown payload)) message c)
      ]
      else rest
]

-- How the call ends: with 0 or -1, not within the given turns, or outside defined behaviour.
pub data LoginEnd : Type 0 where
  logged_in failed still_waiting : App → LoginEnd
  login_undefined : LoginEnd

-- `commands_login` on the application's input.
unfoldable pub ask_again : Os → App → App × Bool
ask_again os a =
    let (c, input, ok) = commands_login os a.input a.client in
    (record a { client = c; input = input }, ok)

unfoldable pub login_failed : Notice → App → LoginEnd
login_failed why a = failed (with_client a (ui_print why a.client))

-- Behind the inner loop: the bytes left over stay in the buffer; after a welcome they are
-- dispatched at once, after a denial the user is asked again and `later` waits on.
unfoldable pub after_scan : Os → App → Scanned → (App → LoginEnd) → LoginEnd
after_scan os a (waiting buf c) later = later (record a { client = c; rbuf = buf })
after_scan os a (welcome buf c) later =
    elim (app_dispatch os (record a { client = c; rbuf = buf })) [
      | none ↦ login_undefined
      | some a1 ↦ logged_in a1
    ]
after_scan os a (denied buf c) later =
    let (a1, ok) = ask_again os (record a { client = c; rbuf = buf }) in
    if ok then later a1 else failed a1
after_scan os a (scan_broken c) later = failed (with_client a c)
after_scan os a scan_undefined later = login_undefined

-- The waiting loop over the turns. Every failure of `recv` ends the login, EINTR too.
unfoldable pub login_turns : Os → List Turn → App → LoginEnd
login_turns os [] a = still_waiting a
login_turns os (t ∷ turns) a = elim t.poll [
  | poll_eintr ↦ login_turns os turns a
  | poll_error ↦ failed a
  | polled timed_out sock readable ↦
      if not t.keep_running
      then failed a
      else if timed_out
      then login_turns os turns a
      else let (a1, room) = app_ensure_capacity t.realloc_ok a in
        if not room then failed a1 else elim t.recv [
          | received [] ↦ login_failed disconnected a1
          | received (x ∷ bytes) ↦
              let buf = a1.rbuf ++ (x ∷ bytes) in
              after_scan os (record a1 { rbuf = buf }) (login_scan (length buf) buf a1.client)
                (login_turns os turns)
          | recv_eintr ↦ login_failed disconnected a1
          | recv_error ↦ login_failed disconnected a1
        ]
]

unfoldable pub login_loop : Os → List Turn → App → LoginEnd
login_loop os turns a =
    let (a1, ok) = ask_again os a in if ok then login_turns os turns a1 else failed a1
