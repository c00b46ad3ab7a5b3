-- ===== src/Commands/Dispatch.antt =====
-- `commands_handle_line`: one line of input.
use tcpclient.Base.{
  leb, ◌==◌, if◌then◌else◌, length, get_or, drop, Bytes, codes, str_equal, starts_with, ℕ, ◌+◌,
  Bool, true, false, ◌&&◌, ◌||◌, Option, none, some, [], ◌∷◌,
}
use tcpclient.Utils.{max_username_len, max_group_name_len, max_message_len}
use tcpclient.Protocol.{protocol_build_frame, protocol_build_text1, protocol_build_text2}
use tcpclient.Protocol.MsgType
use tcpclient.System.{
  Notice, Os, usage_priv, usage_gcreate, usage_gjoin, usage_gleave, usage_gmsg, help,
  group_name_too_long, unknown_command,
}
use tcpclient.Client.{Client}
use tcpclient.Ui.{send_frame, ui_print}
use tcpclient.Commands.{skip_blanks, commands_parse_priv, commands_parse_gmsg}
use tcpclient.Commands.Login.{commands_login}
use tcpclient.File.Send.{file_cmd_sendfile}
use tcpclient.File.Receive.{file_cmd_accept, file_cmd_reject}
use tcpclient.File.Events.{file_cmd_cancel}

-- The state after a line, the input left, the result (`true` is 0) and `*quit_out`.
pub record Handled : Type 0 where
  pub client : Client
  pub input : Bytes
  pub ok : Bool
  pub quit : Bool

-- A frame that was built is sent; a failure to build it is fatal.
unfoldable pub send_built : Os → Option Bytes → Client → Client × Bool
send_built os none c = (c, false)
send_built os (some built) c = send_frame os built c

unfoldable pub cmd_send_single_name : Os → ℕ → Bytes → Notice → Client → Client × Bool
cmd_send_single_name os msg_type arg usage c = elim (skip_blanks arg) [
  | [] ↦ (ui_print usage c, true)
  | x ∷ name ↦
      if leb max_group_name_len (length (x ∷ name))
      then (ui_print group_name_too_long c, true)
      else send_built os (protocol_build_text1 msg_type (x ∷ name) (5 + max_group_name_len)) c
]

-- `strncmp(line, name, n) == 0` and a blank or the end behind it.
unfoldable pub is_command : Bytes → Bytes → Bool
is_command name text =
    let behind = get_or text (length name) 0 in
    starts_with name text && (behind == b' ' || behind == b'\t' || behind == 0)

-- `/priv` and `/gmsg`: the two parts of a text2 frame.
unfoldable pub send_two : Os → ℕ → Option (Bytes × Bytes) → ℕ → Notice → Client → Client × Bool
send_two os msg_type none size usage c = (ui_print usage c, true)
send_two os msg_type (some (name, msg)) size usage c =
    send_built os (protocol_build_text2 msg_type name msg (5 + max_message_len + size + 1)) c

abbrev keep : Bytes → Client × Bool → Handled
keep input (c, ok) = record { client = c; input = input; ok = ok; quit = false }

abbrev of_login : Client × Bytes × Bool → Handled
of_login (c, input, ok) = record { client = c; input = input; ok = ok; quit = false }

-- The commands of the file module, and an unknown command.
unfoldable pub handle_file_command : Os → Bytes → Client → Client × Bool
handle_file_command os text c =
    if is_command (codes "/sendfile") text
    then file_cmd_sendfile os text c
    else if is_command (codes "/accept") text
    then file_cmd_accept os text c
    else if is_command (codes "/reject") text
    then file_cmd_reject os text c
    else if is_command (codes "/cancel") text
    then file_cmd_cancel os text c
    else (ui_print (unknown_command text) c, true)

-- The commands that send one frame, from `/priv` on.
unfoldable pub handle_chat_command : Os → Bytes → Client → Client × Bool
handle_chat_command os text c =
    if is_command (codes "/priv") text
    then send_two os MsgType.priv (commands_parse_priv text max_username_len) max_username_len
        usage_priv c
    else if str_equal text (codes "/users")
    then send_built os (protocol_build_frame MsgType.users [] 0 5) c
    else if is_command (codes "/gcreate") text
    then cmd_send_single_name os MsgType.gcreate (drop 8 text) usage_gcreate c
    else if is_command (codes "/gjoin") text
    then cmd_send_single_name os MsgType.gjoin (drop 6 text) usage_gjoin c
    else if is_command (codes "/gleave") text
    then cmd_send_single_name os MsgType.gleave (drop 7 text) usage_gleave c
    else if is_command (codes "/gmsg") text
    then send_two os MsgType.gmsg (commands_parse_gmsg text max_group_name_len) max_group_name_len
        usage_gmsg c
    else handle_file_command os text c

unfoldable pub handle_command : Os → Bytes → Bytes → Client → Handled
handle_command os text input c =
    if str_equal text (codes "/quit")
    then record { client = c; input = input; ok = true; quit = true }
    else if str_equal text (codes "/help")
    then keep input (ui_print help c, true)
    else if str_equal text (codes "/login")
    then of_login (commands_login os input c)
    else keep input (handle_chat_command os text c)

unfoldable pub commands_handle_line : Os → Bytes → Bytes → Client → Handled
commands_handle_line os [] input c = keep input (c, true)
commands_handle_line os (x ∷ text) input c =
    if x == b'/'
    then handle_command os (x ∷ text) input c
    else keep input
        (send_built os (protocol_build_text1 MsgType.chat (x ∷ text) (5 + max_message_len + 1)) c)
