-- ===== src/Tests/Running.antt =====
-- The login and the event loop behind it: the server announces a file right behind its welcome.
use tcpclient.Base.{
  length, replicate, Bytes, codes, contains, c_string, ◌≡◌, refl, inr, Bool, true, false, Option,
  none, some, [], ◌∷◌, ◌++◌,
}
use tcpclient.Conn.{conn_send_all, conn_connect, Conn, broken, wrote, connected, conn}
use tcpclient.System.{Os, dir_made}
use tcpclient.Client.{slot}
use tcpclient.Protocol.MsgType
use tcpclient.Protocol.Parsing.{whole_frame}
use tcpclient.File.Tasks.{
  find_from, recv_task_find, recv_task_slot, recv_task_clear, recv_announce_incoming, oldest_from,
  recv_handle_init,
}
use tcpclient.File.Invariant.{IsValid}
use tcpclient.File.Session.{Reach}
use tcpclient.App.{
  App, app_ensure_capacity, text_of, show_text, app_handle_frame, dispatch_loop, app_dispatch,
  app_handle_socket, Turn, tick_on_timeout, run_input, run_turn, app_run, received, polled,
}
use tcpclient.Program.{
  World, Process, Connected, nothing_held, new_app, connect_app, app_connect, not_connected, ready,
  connecting, connect_undefined,
}
use tcpclient.Program.Release.{NoTransfers}
use tcpclient.Program.Running.{connected_run-IsValid}

abbrev os : Os
os = record {
  send = λ log bytes. wrote (length bytes) broken;
  fopen_rb = λ log path. true;
  seek_end = λ log. true;
  ftell = λ log. some 5;
  seek_start = λ log. true;
  fread = λ log n. replicate n b'x';
  fopen_wb = λ log path. true;
  fseek = λ log n. true;
  fwrite = λ log bytes. length bytes;
  access = λ log path. false;
  mkdir = λ log. dir_made;
  malloc = λ log n. true;
}

abbrev init : Bytes
init = codes "ann" ++ (0 ∷ (codes "a.txt" ++ (0 ∷ (codes "5" ++ (0 ∷ [])))))

abbrev incoming_text : Bytes
incoming_text = codes "[Server] Incoming file transfer #7 from ann" ++ (0 ∷ [])

abbrev socket_turn : Bytes → Turn
socket_turn bytes = record {
  keep_running = true;
  poll = polled false true false;
  realloc_ok = true;
  recv = received bytes;
}

-- An announcement stands behind the welcome; another one and its INIT frame come later.
abbrev world : World
world = record {
  addresses = λ port. inr (connected 5 true ∷ []);
  calloc_ok = true;
  malloc_ok = true;
  login_turns =
      socket_turn (
        whole_frame MsgType.server_msg (codes "Welcome" ++ (0 ∷ []))
          (whole_frame MsgType.server_msg incoming_text []))
      ∷ [];
  turns =
      socket_turn (whole_frame MsgType.server_msg incoming_text [])
      ∷ socket_turn (whole_frame MsgType.file_init init [])
      ∷ [];
  input = codes "ann" ++ (b'\n' ∷ (codes "pw" ++ (b'\n' ∷ [])));
}

process_or : Connected → Process → Process
process_or (ready p) q = p
process_or (not_connected c held) q = q
process_or connecting q = q
process_or connect_undefined q = q

is_ready : Connected → Bool
is_ready (ready p) = true
is_ready (not_connected c held) = false
is_ready connecting = false
is_ready connect_undefined = false

ready_of : (c : Connected) (q : Process) → is_ready c ≡ true → c ≡ ready (process_or c q)
unfolding process_or is_ready
ready_of (ready p) q e = refl
ready_of (not_connected c held) q e = cc
ready_of connecting q e = cc
ready_of connect_undefined q e = cc

result_or : Option (App × Bool) → App × Bool → App × Bool
result_or (some r) q = r
result_or none q = q

is_some : Option (App × Bool) → Bool
is_some (some r) = true
is_some none = false

some_of : (o : Option (App × Bool)) (q : App × Bool) → is_some o ≡ true → o ≡ some (result_or o q)
unfolding result_or is_some
some_of (some r) q e = refl
some_of none q e = cc

abbrev no_process : Process
no_process = record { app = new_app world; conn = none; held = nothing_held }

abbrev process : Process
process = process_or (app_connect os world 18080) no_process

abbrev result : App × Bool
result = result_or (app_run os world.turns process.app) (no_process.app, true)

process-ready : app_connect os world 18080 ≡ ready process
unfolding tcpclient.App.Login.after_scan tcpclient.App.Login.ask_again
    tcpclient.App.Login.login_loop tcpclient.App.Login.login_scan tcpclient.App.Login.login_turns
    tcpclient.App.app_dispatch tcpclient.App.app_ensure_capacity tcpclient.App.dispatch_loop
    tcpclient.App.text_of tcpclient.Base.c_string tcpclient.Commands.Login.commands_login
    tcpclient.Commands.Login.fgets tcpclient.Commands.Login.has_newline
    tcpclient.Commands.Login.prompt_line tcpclient.Commands.Login.send_auth
    tcpclient.Conn.conn_connect tcpclient.Conn.conn_send_all tcpclient.Program.app_connect
    tcpclient.Program.connect_app tcpclient.Protocol.Parsing.whole_frame
    tcpclient.Protocol.protocol_build_text2 tcpclient.Protocol.protocol_parse
    tcpclient.Ui.send_frame tcpclient.Utils.utils_read_u16_be tcpclient.Utils.utils_trim_newline
    tcpclient.Utils.utils_write_u16_be tcpclient.App.show_text tcpclient.App.app_handle_frame
    is_ready
process-ready = ready_of (app_connect os world 18080) no_process refl

result-some : app_run os world.turns process.app ≡ some result
unfolding tcpclient.App.Login.after_scan tcpclient.App.Login.ask_again
    tcpclient.App.Login.login_loop tcpclient.App.Login.login_scan tcpclient.App.Login.login_turns
    tcpclient.App.app_dispatch tcpclient.App.app_ensure_capacity tcpclient.App.app_handle_socket
    tcpclient.App.app_run tcpclient.App.dispatch_loop tcpclient.App.run_input tcpclient.App.run_turn
    tcpclient.App.text_of tcpclient.App.tick_on_timeout tcpclient.Base.c_string
    tcpclient.Commands.Login.commands_login tcpclient.Commands.Login.fgets
    tcpclient.Commands.Login.has_newline tcpclient.Commands.Login.prompt_line
    tcpclient.Commands.Login.send_auth tcpclient.Conn.conn_connect tcpclient.Conn.conn_send_all
    tcpclient.Program.app_connect tcpclient.Program.connect_app
    tcpclient.Protocol.Parsing.whole_frame tcpclient.Protocol.protocol_build_text2
    tcpclient.Protocol.protocol_parse tcpclient.Ui.send_frame tcpclient.Utils.utils_read_u16_be
    tcpclient.Utils.utils_trim_newline tcpclient.Utils.utils_write_u16_be tcpclient.App.show_text
    tcpclient.App.app_handle_frame is_some process_or
result-some = some_of (app_run os world.turns process.app) (no_process.app, true) refl

-- The login took a reception, the reset cleared it, and the loop took the next one.
result_described : (recv_task_find 7 result.0.client ≡ some 0) × ((slot result.0.client 0).size ≡ 5)
unfolding tcpclient.App.Login.after_scan tcpclient.App.Login.ask_again
    tcpclient.App.Login.login_loop tcpclient.App.Login.login_scan tcpclient.App.Login.login_turns
    tcpclient.App.app_dispatch tcpclient.App.app_ensure_capacity tcpclient.App.app_handle_socket
    tcpclient.App.app_run tcpclient.App.dispatch_loop tcpclient.App.run_input tcpclient.App.run_turn
    tcpclient.App.text_of tcpclient.App.tick_on_timeout tcpclient.Base.c_string
    tcpclient.Base.contains tcpclient.Commands.Login.commands_login tcpclient.Commands.Login.fgets
    tcpclient.Commands.Login.has_newline tcpclient.Commands.Login.prompt_line
    tcpclient.Commands.Login.send_auth tcpclient.Conn.conn_connect tcpclient.Conn.conn_send_all
    tcpclient.File.Announce.file_parse_announcement tcpclient.File.Announce.take_digits
    tcpclient.File.Events.clear_slots tcpclient.File.Events.file_handle_announcement
    tcpclient.File.Events.file_handle_frame tcpclient.File.Events.file_reset_all
    tcpclient.File.Events.handle_kind tcpclient.File.Init.file_parse_init_payload
    tcpclient.File.Init.init_fields tcpclient.File.Tasks.find_from tcpclient.File.Tasks.oldest_from
    tcpclient.File.Tasks.recv_announce_incoming tcpclient.File.Tasks.recv_handle_init
    tcpclient.File.Tasks.recv_task_find tcpclient.File.Tasks.recv_task_slot
    tcpclient.Program.app_connect tcpclient.Program.connect_app
    tcpclient.Protocol.Parsing.whole_frame tcpclient.Protocol.protocol_build_text2
    tcpclient.Protocol.protocol_parse tcpclient.Ui.send_frame tcpclient.Ui.ui_display_incoming
    tcpclient.Utils.utils_parse_u64_range tcpclient.Utils.utils_read_u16_be
    tcpclient.Utils.utils_trim_newline tcpclient.Utils.utils_write_u16_be tcpclient.App.show_text
    tcpclient.App.app_handle_frame tcpclient.File.Tasks.recv_task_clear process_or result_or
result_described = (refl, refl)

connected_run-IsValid_example :
    NoTransfers process.app.client × Reach os (result.0.client) × IsValid (result.0.client)
connected_run-IsValid_example =
    connected_run-IsValid os world 18080 {p = process} {r = result} process-ready result-some
