-- ===== src/App/Talking.antt =====
-- The commands and the login dialogue only produce output, or call the file module: their states
-- are reachable by the steps of the transfers.
use tcpclient.Commands.{skip_blanks, commands_parse_priv, commands_parse_gmsg}
use tcpclient.Base.{
  bool-holds, if-holds, option-holds, leb, ◌==◌, if◌then◌else◌, length, drop, Bytes, codes,
  str_equal, ℕ, zero, suc, ◌+◌, ◌-◌, Bool, true, ◌||◌, Option, none, some, [], ◌∷◌,
}
use tcpclient.System.{
  Notice, Os, usage_priv, usage_gcreate, usage_gjoin, usage_gleave, usage_gmsg, help,
  group_name_too_long, unknown_command, ask_user, ask_password, credentials_empty, answer_too_long,
  line,
}
use tcpclient.Utils.{max_username_len, max_password_len, max_group_name_len, max_message_len}
use tcpclient.Client.{Client}
use tcpclient.Protocol.{protocol_build_frame, protocol_build_text1, protocol_build_text2}
use tcpclient.Protocol.MsgType
use tcpclient.Ui.{emit, ui_print}
use tcpclient.Commands.Login.{
  fgets, has_newline, drain_stdin, prompt_rounds, prompt_line, send_auth, is_empty, login_rounds,
  commands_login,
}
use tcpclient.Commands.Dispatch.{
  Handled, send_built, cmd_send_single_name, is_command, send_two, handle_file_command,
  handle_chat_command, handle_command, commands_handle_line,
}
use tcpclient.File.Invariant.Basic.{Quiet, quiet}
use tcpclient.File.Invariant.Output.{Quiet-trans, send_frame-Quiet}
use tcpclient.File.Session.{Reach, sendfile, accept, reject, cancel, output, next}

prompt_rounds-Quiet :
    (fuel : ℕ) (label : Notice) (size : ℕ) (input : Bytes) (c : Client)
    → Quiet c (prompt_rounds fuel label size input c).0
unfolding prompt_rounds
prompt_rounds-Quiet zero label size input c = quiet c
prompt_rounds-Quiet (suc fuel) label size input c =
    let P : Client × Bytes × Option Bytes → Type 0 = λ r. Quiet c (r.0) in
    option-holds P (fgets size input) (quiet c) (λ p e.
      bool-holds P (has_newline (p.0)) (λ h. quiet c)
        (λ h.
          let d : Client = emit (line (answer_too_long (size - 1))) (emit (line label) c) in
          Quiet-trans c d (prompt_rounds fuel label size (drain_stdin (p.1)) d).0 (quiet c)
            (prompt_rounds-Quiet fuel label size (drain_stdin (p.1)) d)))

prompt_line-Quiet :
    (label : Notice) (size : ℕ) (input : Bytes) (c : Client)
    → Quiet c (prompt_line label size input c).0
unfolding prompt_line
prompt_line-Quiet label size input c = prompt_rounds-Quiet (length input + 1) label size input c

send_built-Quiet : (os : Os) (built : Option Bytes) (c : Client) → Quiet c (send_built os built c).0
unfolding send_built
send_built-Quiet os none c = quiet c
send_built-Quiet os (some built) c = send_frame-Quiet os built c

login_rounds-Quiet :
    (os : Os) (fuel : ℕ) (input : Bytes) (c : Client) → Quiet c (login_rounds os fuel input c).0
unfolding login_rounds send_auth
login_rounds-Quiet os zero input c = quiet c
login_rounds-Quiet os (suc fuel) input c =
    let P : Client × Bytes × Bool → Type 0 = λ r. Quiet c (r.0) in
    let first = prompt_line ask_user max_username_len input c in
    let c1 : Client = first.0 in
    let q1 : Quiet c c1 = prompt_line-Quiet ask_user max_username_len input c in
    let second = prompt_line ask_password max_password_len (first.1) c1 in
    let c2 : Client = second.0 in
    let q2 : Quiet c c2 =
      Quiet-trans c c1 c2 q1 (prompt_line-Quiet ask_password max_password_len (first.1) c1) in
    option-holds P (first.2) q1 (λ u e. option-holds P (second.2) q2 (λ p e'.
      bool-holds P (is_empty u || is_empty p)
        (λ h.
          Quiet-trans c (emit (line credentials_empty) c2)
            (login_rounds os fuel (second.1) (emit (line credentials_empty) c2)).0
            (Quiet-trans c c2 (emit (line credentials_empty) c2) q2 (quiet c2))
            (login_rounds-Quiet os fuel (second.1) (emit (line credentials_empty) c2)))
        (λ h. Quiet-trans c c2 (send_auth os u p c2).0 q2 (
          option-holds (λ (r : Client × Bool). Quiet c2 (r.0))
            (protocol_build_text2 MsgType.auth u p (5 + max_username_len + max_password_len))
            (quiet c2) (λ built e. send_frame-Quiet os built c2)))))

-- A step that only produces output.
pub told : (os : Os) (c d : Client) → Reach os c → Quiet c d → Reach os d
told os c d r q = next r (output d q)

pub commands_login-Quiet :
    (os : Os) (input : Bytes) (c : Client) → Quiet c (commands_login os input c).0
unfolding commands_login
commands_login-Quiet os input c = login_rounds-Quiet os (length input + 1) input c

single_name-Quiet :
    (os : Os) (t : ℕ) (arg : Bytes) (usage : Notice) (c : Client)
    → Quiet c (cmd_send_single_name os t arg usage c).0
unfolding cmd_send_single_name
single_name-Quiet os t arg usage c = by_name (skip_blanks arg)
  where
    by_name :
        (name : Bytes)
        → Quiet c
            (elim name as (λ (m : Bytes). Client × Bool) [
              | [] ↦ (ui_print usage c, true)
              | x ∷ name ↦
                  if leb max_group_name_len (length (x ∷ name))
                  then (ui_print group_name_too_long c, true)
                  else send_built os (protocol_build_text1 t (x ∷ name) (5 + max_group_name_len)) c
            ]).0
    by_name [] = quiet c
    by_name (x ∷ name) =
        if-holds (λ (h : Client × Bool). Quiet c (h.0)) (leb max_group_name_len (length (x ∷ name)))
          (λ e. quiet c)
          (λ e. send_built-Quiet os (protocol_build_text1 t (x ∷ name) (5 + max_group_name_len)) c)

send_two-Quiet :
    (os : Os) (t : ℕ) (parts : Option (Bytes × Bytes)) (size : ℕ) (usage : Notice) (c : Client)
    → Quiet c (send_two os t parts size usage c).0
unfolding send_two
send_two-Quiet os t none size usage c = quiet c
send_two-Quiet os t (some (name, msg)) size usage c =
    send_built-Quiet os (protocol_build_text2 t name msg (5 + max_message_len + size + 1)) c

file_command :
    (os : Os) (text : Bytes) (c : Client) → Reach os c → Reach os (handle_file_command os text c).0
unfolding handle_file_command
file_command os text c r =
    let Q : Client × Bool → Type 0 = λ h. Reach os (h.0) in
    if-holds Q (is_command (codes "/sendfile") text) (λ e. next r (sendfile text))
      (λ e.
        if-holds Q (is_command (codes "/accept") text) (λ e. next r (accept text))
          (λ e.
            if-holds Q (is_command (codes "/reject") text) (λ e. next r (reject text))
              (λ e.
                if-holds Q (is_command (codes "/cancel") text) (λ e. next r (cancel text))
                  (λ e. told os c (ui_print (unknown_command text) c) r (quiet c)))))

chat_command :
    (os : Os) (text : Bytes) (c : Client) → Reach os c → Reach os (handle_chat_command os text c).0
unfolding handle_chat_command
chat_command os text c r =
    let Q : Client × Bool → Type 0 = λ h. Reach os (h.0) in
    if-holds Q (is_command (codes "/priv") text)
      (λ e. told os c _ r (
        send_two-Quiet os MsgType.priv (commands_parse_priv text max_username_len) max_username_len
          usage_priv c))
      (λ e.
        if-holds Q (str_equal text (codes "/users"))
          (λ e. told os c _ r (send_built-Quiet os (protocol_build_frame MsgType.users [] 0 5) c))
          (λ e.
            if-holds Q (is_command (codes "/gcreate") text)
              (λ e.
                told os c _ r (single_name-Quiet os MsgType.gcreate (drop 8 text) usage_gcreate c))
              (λ e.
                if-holds Q (is_command (codes "/gjoin") text)
                  (λ e.
                    told os c _ r (single_name-Quiet os MsgType.gjoin (drop 6 text) usage_gjoin c))
                  (λ e.
                    if-holds Q (is_command (codes "/gleave") text)
                      (λ e.
                        told os c _ r
                          (single_name-Quiet os MsgType.gleave (drop 7 text) usage_gleave c))
                      (λ e.
                        if-holds Q (is_command (codes "/gmsg") text)
                          (λ e. told os c _ r (
                            send_two-Quiet os MsgType.gmsg
                              (commands_parse_gmsg text max_group_name_len) max_group_name_len
                              usage_gmsg c))
                          (λ e. file_command os text c r))))))

-- One line of input, whatever it says.
pub commands_handle_line-Reach :
    (os : Os) (text input : Bytes) (c : Client)
    → Reach os c
    → Reach os (commands_handle_line os text input c).client
unfolding commands_handle_line handle_command handle_chat_command handle_file_command
commands_handle_line-Reach os [] input c r = r
commands_handle_line-Reach os (x ∷ text) input c r =
    let l : Bytes = x ∷ text in
    let P : Handled → Type 0 = λ h. Reach os (h.client) in
    if-holds P (x == b'/')
      (λ e.
        if-holds P (str_equal l (codes "/quit")) (λ e. r)
          (λ e.
            if-holds P (str_equal l (codes "/help")) (λ e. told os c (ui_print help c) r (quiet c))
              (λ e.
                if-holds P (str_equal l (codes "/login"))
                  (λ e. told os c (commands_login os input c).0 r (commands_login-Quiet os input c))
                  (λ e. chat_command os l c r))))
      (λ e.
        told os c
          (send_built os (protocol_build_text1 MsgType.chat l (5 + max_message_len + 1)) c).0 r
          (send_built-Quiet os (protocol_build_text1 MsgType.chat l (5 + max_message_len + 1)) c))
