-- ===== src/App.antt =====
-- src/app.c: the read buffer, the dispatch of frames and the event loop. The answers of `poll`,
-- `recv` and `realloc`, and SIGINT, are the turns that the loop is given. src/main.c only parses
-- the arguments and calls these functions.
pub mod Dispatching
pub mod Buffer
pub mod Views
pub mod Pieces
pub mod Talking
pub mod Reaching
pub mod Running
pub mod Login
pub mod Joining
use tcpclient.Base.{
  ltb, leb, ◌==◌, if◌then◌else◌, length, drop, Bytes, c_string, ℕ, zero, suc, ◌+◌, ◌*◌, Bool, true,
  false, not, ◌&&◌, ◌||◌, Option, none, some, List, [], ◌∷◌, ◌++◌,
}
use tcpclient.Utils.{max_message_len, utils_trim_newline, utils_read_u16_be}
use tcpclient.Protocol.{protocol_parse, need_more, bad, frame}
use tcpclient.Protocol.MsgType
use tcpclient.System.{
  Notice, Os, server_text, online_users, unhandled_type, buffer_limit, out_of_memory,
  protocol_error, disconnected, recv_failed, goodbye, input_too_long, poll_failed,
}
use tcpclient.Client.{Client}
use tcpclient.Ui.{ui_print, ui_prompt, ui_display_incoming, ui_print_error, online_users_text}
use tcpclient.File.Send.{file_send_active, file_send_tick}
use tcpclient.File.Events.{file_handle_announcement, file_handle_frame, file_handle_error}
use tcpclient.Commands.Login.{fgets, has_newline, drain_stdin}
use tcpclient.Commands.Dispatch.{commands_handle_line}

abbrev pub rbuf_init : ℕ
rbuf_init = 64 * 1024

abbrev pub rbuf_max : ℕ
rbuf_max = 256 * 1024

abbrev pub input_max : ℕ
input_max = max_message_len + 1

-- `app_t`: the valid bytes of the buffer, its capacity and the loop's switch; the rest of the
-- program's state is the client, and standard input.
pub record App : Type 0 where
  pub client : Client
  pub rbuf : Bytes
  pub rbuf_cap : ℕ
  pub running : Bool
  pub input : Bytes

abbrev pub with_client : App → Client → App
with_client a c = record a { client = c }

-- A message, and the switch off.
abbrev pub stop_with : Notice → App → App
stop_with why a = record a { client = ui_print why a.client; running = false }

-- `app_ensure_capacity`, with the answer of `realloc`.
unfoldable pub app_ensure_capacity : Bool → App → App × Bool
app_ensure_capacity realloc_ok a =
    if ltb (length a.rbuf) a.rbuf_cap
    then (a, true)
    else if ltb rbuf_max (a.rbuf_cap * 2)
    then (stop_with buffer_limit a, false)
    else if not realloc_ok
    then (stop_with out_of_memory a, false)
    else (record a { rbuf_cap = a.rbuf_cap * 2 }, true)

-- The C string behind a payload pointer; `none`: the pointer is NULL, or there is no NUL in the
-- bytes received.
unfoldable pub text_of : Option Bytes → Option Bytes
text_of none = none
text_of (some memory) = c_string memory

-- What a pointer shows; the callers look at it only where the length says that it is not NULL.
abbrev pub shown : Option Bytes → Bytes
shown none = []
shown (some memory) = memory

-- A text that is displayed, and then given to `next`.
unfoldable pub show_text : Option Bytes → (Bytes → Client → Client) → Client → Option Client
show_text payload next c = elim (text_of payload) [
  | none ↦ none
  | some text ↦ some (next text (ui_display_incoming (server_text text) c))
]

-- The case MSG_ERROR.
unfoldable pub show_error : Option Bytes → ℕ → Client → Option Client
show_error payload plen c =
    if leb 3 plen
    then elim (c_string (drop 3 (shown payload))) [
      | none ↦ none
      | some message ↦
          let code = utils_read_u16_be (shown payload) in
          some (file_handle_error code (ui_print_error code message c))
    ]
    else some c

-- The case MSG_ONLINE_USERS.
unfoldable pub show_users : Option Bytes → ℕ → Client → Option Client
show_users payload plen c = elim (online_users_text (shown payload) plen) [
  | none ↦ none
  | some (count, users) ↦ some (ui_display_incoming (online_users count users) c)
]

-- `app_handle_frame`; `none`: the call has no defined behaviour, since it reads through NULL or
-- outside the received bytes.
unfoldable pub app_handle_frame : Os → ℕ → Option Bytes → ℕ → Client → Option Client
app_handle_frame os msg_type payload plen c =
    if msg_type == MsgType.server_msg
    then show_text payload (file_handle_announcement os) c
    else if msg_type == MsgType.chat || msg_type == MsgType.priv || msg_type == MsgType.gmsg
    then show_text payload (λ text c'. c') c
    else if msg_type == MsgType.error
    then show_error payload plen c
    else if msg_type == MsgType.online_users
    then show_users payload plen c
    else if leb MsgType.file_init msg_type && leb msg_type MsgType.file_cancel
    then some (file_handle_frame os msg_type (shown payload) plen c)
    else some (ui_print (unhandled_type msg_type) c)

-- How the loop of `app_dispatch` ends: with bytes left over, at a protocol error, or outside
-- defined behaviour.
pub data Dispatched : Type 0 where
  leftover : Bytes → Client → Dispatched
  broken_stream : Client → Dispatched
  undefined : Dispatched

-- The loop on the bytes from `off` on. Each round takes five bytes at least, so the length of the
-- buffer is fuel enough.
unfoldable pub dispatch_loop : Os → ℕ → Bytes → Client → Dispatched
dispatch_loop os zero buf c = leftover buf c
dispatch_loop os (suc fuel) buf c = elim (protocol_parse buf) [
  | need_more ↦ leftover buf c
  | bad ↦ broken_stream c
  | frame msg_type payload plen consumed ↦ elim (app_handle_frame os msg_type payload plen c) [
    | none ↦ undefined
    | some c' ↦ dispatch_loop os fuel (drop consumed buf) c'
  ]
]

unfoldable pub app_dispatch : Os → App → Option App
app_dispatch os a = elim (dispatch_loop os (length a.rbuf) a.rbuf a.client) [
  | leftover buf c ↦ some (record a { client = c; rbuf = buf })
  | broken_stream c ↦ some (stop_with protocol_error (with_client a c))
  | undefined ↦ none
]

pub data RecvAnswer : Type 0 where
  received : Bytes → RecvAnswer
  recv_eintr recv_error : RecvAnswer

-- `app_handle_socket`; `received []` is the end of the stream.
unfoldable pub app_handle_socket : Os → Bool → RecvAnswer → App → Option (App × Bool)
app_handle_socket os realloc_ok answer a =
    let (a1, room) = app_ensure_capacity realloc_ok a in
    if not room then some (a1, false) else elim answer [
      | received [] ↦ some (stop_with disconnected a1, false)
      | received (x ∷ bytes) ↦
          elim (app_dispatch os (record a1 { rbuf = a1.rbuf ++ (x ∷ bytes) })) [
            | none ↦ none
            | some a2 ↦ some (a2, true)
          ]
      | recv_eintr ↦ some (a1, true)
      | recv_error ↦ some (stop_with recv_failed a1, false)
    ]

-- A line of input behind `fgets`.
unfoldable pub handle_input_line : Os → Bytes → Bytes → App → App × Bool
handle_input_line os text rest a =
    if not (has_newline text)
    then (record a { input = drain_stdin rest; client = ui_print input_too_long a.client }, true)
    else let h = commands_handle_line os (utils_trim_newline text) rest a.client in
      let a1 = record a { client = h.client; input = h.input } in
      if not h.ok || h.quit
      then (record a1 { running = false }, false)
      else (with_client a1 (ui_prompt h.client), true)

unfoldable pub app_handle_stdin : Os → App → App × Bool
app_handle_stdin os a = elim (fgets input_max a.input) [
  | none ↦ (stop_with goodbye a, false)
  | some (text, rest) ↦ handle_input_line os text rest a
]

-- What the kernel answers in one round of `app_run`: `polled` tells whether `poll` returned 0, and
-- which of the two descriptors can be read.
pub data PollAnswer : Type 0 where
  poll_eintr poll_error : PollAnswer
  polled : Bool → Bool → Bool → PollAnswer

pub record Turn : Type 0 where
  -- `g_running` when the round begins
  pub keep_running : Bool
  pub poll : PollAnswer
  pub realloc_ok : Bool
  pub recv : RecvAnswer

-- The end of a round: the chunks are sent only when `poll` ran into its timeout.
unfoldable pub tick_on_timeout : Os → Bool → App → App × Bool
tick_on_timeout os timed_out a =
    if timed_out && file_send_active a.client
    then (let (c, ok) = file_send_tick os a.client in (with_client a c, ok))
    else (a, true)

-- The rest of a round behind the socket.
unfoldable pub run_input : Os → Bool → Bool → App → App × Bool
run_input os timed_out readable a =
    if readable
    then (let (a1, go_on) = app_handle_stdin os a in
        if not go_on then (a1, false) else tick_on_timeout os timed_out a1)
    else tick_on_timeout os timed_out a

-- One round of the loop behind its test; `false` is `break`.
unfoldable pub run_turn : Os → Turn → App → Option (App × Bool)
run_turn os t a = elim t.poll [
  | poll_eintr ↦ some (a, true)
  | poll_error ↦ some (with_client a (ui_print poll_failed a.client), false)
  | polled timed_out sock readable ↦
      if sock
      then elim (app_handle_socket os t.realloc_ok t.recv a) [
        | none ↦ none
        | some (a1, go_on) ↦
            if not go_on then some (a1, false) else some (run_input os timed_out readable a1)
      ]
      else some (run_input os timed_out readable a)
]

-- `app_run` over the given turns. The flag tells whether the loop has ended.
unfoldable pub app_run : Os → List Turn → App → Option (App × Bool)
app_run os [] a = some (a, false)
app_run os (t ∷ turns) a = elim (a.running && t.keep_running) [
  | false ↦ some (a, true)
  | true ↦ elim (run_turn os t a) [
    | none ↦ none
    | some (a1, go_on) ↦ elim go_on [ true ↦ app_run os turns a1 | false ↦ some (a1, true) ]
  ]
]
