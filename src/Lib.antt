-- ===== src/Lib.antt =====
-- A model of the chat client: a C program that talks to its server in binary frames over TCP, with
-- commands on standard input and file transfers in both directions.
--
-- The parts and how they interact. `app_run` (src/app.c) polls the socket and standard input. Bytes
-- from the socket go into a buffer; `app_dispatch` takes whole frames off it with `protocol_parse`
-- (src/protocol.c) and gives each to `app_handle_frame`, which shows texts (src/ui.c) and passes
-- announcements, file frames and error codes to src/file.c. A line of input goes to
-- `commands_handle_line` (src/commands.c), which sends frames with `conn_send_all` (src/conn.c) or
-- calls the commands of src/file.c. On a timeout of `poll`, `file_send_tick` sends chunks.
--
-- Which file models which part:
--   Utils       src/utils.c, include/utils.h
--   Conn        src/conn.c
--   Protocol    src/protocol.c, include/protocol.h (MsgType: the message types)
--   Ui          src/ui.c
--   Commands    src/commands.c: arguments; Login: `commands_login`; Dispatch:
--               `commands_handle_line`
--   Client      the state: `g_send`, `g_recv` and `g_recv_seq` of src/file.c and `prompt_shown` of
--               src/ui.c, with a log of all that was done
--   File        src/file.c: Announce, Init, Names, Chunks and Spans are its pure functions; Tasks,
--               Send, Receive and Events its operations on the tasks; Storage, Paths, Invariant and
--               Session say what they keep. Send/Phase is the protocol of a transfer as an abstract
--               machine, Send/Wire the frames of a file. Arriving and Transfer put two clients
--               together
--   App         src/app.c: the buffer, the dispatch, the loop; Login: `login_loop`
--   Program     `app_connect` and `app_destroy` of src/app.c, and src/main.c
--   System      what stands outside: `Os` is the answers of the C library and the kernel, each a
--               function of the log so far; `Effect` is what the program did
-- Functions, constants and fields keep their names in the source; a name of a helper says which
-- part of a long function it is. A C string is its bytes without the NUL; a buffer that a pointer
-- shows is the bytes from there to the end of what was received. A result that the source writes
-- through a pointer is in the `some` of the answer, and -1 is `none` or `false`.
--
-- Integers are natural numbers with the wrap-around of their C type written out where it can
-- happen. Loops are recursion on the data, or on fuel: in `dispatch_loop` and `login_scan` the
-- length of the buffer (a round takes five bytes at least), in `users_loop` the length of the
-- payload, in the dialogues of Login the length of the input, in `clear_slots` and `send_rounds`
-- the loop's own count. The loops that wait for the kernel run over the answers they are given.
--
-- What is not modelled: `utils_log`, which only prints; the wording of messages and the cut of long
-- lines by `snprintf`; the content of the file that is sent, which is what
-- `fread` answers. A call outside defined behaviour (a NULL payload used as a string, a text with no
-- NUL) is `none` in App and Ui.
pub mod Base
pub mod Utils
pub mod Conn
pub mod Protocol
pub mod System
pub mod Client
pub mod Ui
pub mod Commands
pub mod File
pub mod App
pub mod Program
pub mod Tests
