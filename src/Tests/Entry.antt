-- ===== src/Tests/Entry.antt =====
-- The program from its arguments to its exit at concrete inputs.
use tcpclient.Base.{
  length, replicate, Bytes, codes, c_string, ℕ, ◌≡◌, refl, ◌↔◌, inr, true, false, some, List, [],
  ◌∷◌, ◌++◌, arith,
}
use tcpclient.Conn.{
  conn_send_all, connect_loop, conn_connect, descriptors_after, Conn, conn_close, broken, wrote,
  connect_failed, connected,
}
use tcpclient.System.{Os, ask_user, dir_made}
use tcpclient.Client.{Client, start}
use tcpclient.Protocol.Parsing.{whole_frame}
use tcpclient.App.{
  App, app_ensure_capacity, text_of, dispatch_loop, app_dispatch, app_handle_socket,
  handle_input_line, app_handle_stdin, Turn, tick_on_timeout, run_input, run_turn, app_run,
  received, recv_eintr, polled,
}
use tcpclient.Commands.Login.{
  fgets, has_newline, drain_stdin, prompt_rounds, prompt_line, send_auth, login_rounds,
  commands_login,
}
use tcpclient.Commands.Login.Ending.{login_ends}
use tcpclient.Program.{
  is_space, skip_spaces, strtol_digits, strtol_sign, strtol, out_of_long, port_in_range, port_of,
  World, app_destroy, nothing_held, connect_app, app_connect, run_and_destroy, with_port, main,
  exit, unfinished, exit_undefined,
}
use tcpclient.Program.Port.{IsPort, port_of_iff}
use tcpclient.Program.Release.{Released, main-Released}

abbrev os : Os
os = record {
  send = λ log bytes. wrote (length bytes) broken;
  fopen_rb = λ log path. true;
  seek_end = λ log. true;
  ftell = λ log. some 5;
  seek_start = λ log. true;
  fread = λ log n. replicate n b'x';
  fopen_wb = λ log path. true;
  fseek = λ log n. true;
  fwrite = λ log bytes. length bytes;
  access = λ log path. false;
  mkdir = λ log. dir_made;
  malloc = λ log n. true;
}

-- The second address answers, the server accepts the password, and the user ends the input.
abbrev world : World
world = record {
  addresses = λ port. inr (connect_failed 111 ∷ connected 5 true ∷ []);
  calloc_ok = true;
  malloc_ok = true;
  login_turns = from_server 15 (codes "Welcome") ∷ [];
  turns = from_user ∷ [];
  input = codes "ann" ++ (b'\n' ∷ (codes "pw" ++ (b'\n' ∷ [])));
}
  where
    from_server : ℕ → Bytes → Turn
    from_server msg_type text = record {
      keep_running = true;
      poll = polled false true false;
      realloc_ok = true;
      recv = received (whole_frame msg_type (text ++ (0 ∷ [])) []);
    }

    from_user : Turn
    from_user = record {
      keep_running = true;
      poll = polled false false true;
      realloc_ok = true;
      recv = recv_eintr;
    }

abbrev arguments : List Bytes
arguments = codes "localhost" ∷ codes "18080" ∷ []

abbrev left_client : Client
left_client = elim (main os world arguments) [
  | exit n c held ↦ c
  | unfinished ↦ start
  | exit_undefined ↦ start
]

main-Released_example : Released left_client nothing_held
unfolding tcpclient.Base.c_string tcpclient.Utils.utils_trim_newline
    tcpclient.Utils.utils_read_u16_be tcpclient.Utils.utils_write_u16_be
    tcpclient.Conn.conn_send_all tcpclient.Conn.connect_loop tcpclient.Conn.conn_connect
    tcpclient.Protocol.protocol_build_frame tcpclient.Protocol.protocol_build_text1
    tcpclient.Protocol.protocol_build_text2 tcpclient.Protocol.protocol_build_raw
    tcpclient.Protocol.protocol_parse tcpclient.Protocol.Parsing.whole_frame tcpclient.Ui.send_frame
    tcpclient.Ui.ui_prompt tcpclient.Ui.ui_display_incoming tcpclient.Commands.Login.fgets
    tcpclient.Commands.Login.has_newline tcpclient.Commands.Login.drain_stdin
    tcpclient.Commands.Login.prompt_rounds tcpclient.Commands.Login.prompt_line
    tcpclient.Commands.Login.send_auth tcpclient.Commands.Login.login_rounds
    tcpclient.Commands.Login.commands_login tcpclient.File.Events.clear_slots
    tcpclient.File.Events.file_reset_all tcpclient.App.app_ensure_capacity tcpclient.App.text_of
    tcpclient.App.dispatch_loop tcpclient.App.app_dispatch tcpclient.App.app_handle_socket
    tcpclient.App.handle_input_line tcpclient.App.app_handle_stdin tcpclient.App.tick_on_timeout
    tcpclient.App.run_input tcpclient.App.run_turn tcpclient.App.app_run
    tcpclient.App.Login.login_scan tcpclient.App.Login.ask_again tcpclient.App.Login.login_failed
    tcpclient.App.Login.after_scan tcpclient.App.Login.login_turns tcpclient.App.Login.login_loop
    tcpclient.Program.is_space tcpclient.Program.skip_spaces tcpclient.Program.strtol_digits
    tcpclient.Program.strtol_sign tcpclient.Program.strtol tcpclient.Program.out_of_long
    tcpclient.Program.port_in_range tcpclient.Program.port_of tcpclient.Program.app_destroy
    tcpclient.Program.connect_app tcpclient.Program.app_connect tcpclient.Program.run_and_destroy
    tcpclient.Program.with_port tcpclient.Program.main tcpclient.Conn.conn_close
    tcpclient.Conn.descriptors_after
main-Released_example =
    main-Released os world arguments {n = 0} {c = left_client} {held = nothing_held} refl

port_of_iff_example : (port_of (codes " +8080") ≡ some 8080) ↔ IsPort (codes " +8080") 8080
port_of_iff_example = port_of_iff (codes " +8080") 8080

-- An answer that is too long, and one that is not.
abbrev two_answers : Bytes
two_answers = replicate 40 b'a' ++ (b'\n' ∷ (codes "ann" ++ (b'\n' ∷ [])))

login_ends_example :
    (prompt_rounds 100 ask_user 32 two_answers start ≡ prompt_line ask_user 32 two_answers start)
    × (login_rounds os 100 two_answers start ≡ commands_login os two_answers start)
login_ends_example = login_ends os 100 ask_user 32 two_answers start (omega arith) (omega arith)
