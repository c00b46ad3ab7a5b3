-- ===== src/Commands/Login.antt =====
-- The login dialogue of src/commands.c. Standard input is the list of the bytes that will come;
-- an empty list is the end of file.
pub mod Ending
use tcpclient.Base.{
  ◌==◌, if◌then◌else◌, length, Bytes, ℕ, zero, suc, ◌+◌, ◌-◌, Bool, true, false, ◌||◌, Option, none,
  some, [], ◌∷◌,
}
use tcpclient.Utils.{max_username_len, max_password_len, utils_trim_newline}
use tcpclient.Protocol.{protocol_build_text2}
use tcpclient.Protocol.MsgType
use tcpclient.System.{Notice, Os, ask_user, ask_password, credentials_empty, answer_too_long, line}
use tcpclient.Client.{Client}
use tcpclient.Ui.{emit, send_frame}

-- What `fgets` takes: at most `room` bytes, up to a newline; and what is left.
unfoldable pub take_line : ℕ → Bytes → Bytes × Bytes
take_line zero input = ([], input)
take_line (suc room) [] = ([], [])
take_line (suc room) (c ∷ input) =
    let (text, rest) = take_line room input in
    if c == b'\n' then (c ∷ [], input) else (c ∷ text, rest)

-- The bytes of a buffer up to its first NUL.
unfoldable pub up_to_nul : Bytes → Bytes
up_to_nul [] = []
up_to_nul (c ∷ s) = if c == 0 then [] else c ∷ up_to_nul s

-- `fgets(buf, size, stdin)`: the C string in the buffer and the input left; `none` is NULL.
unfoldable pub fgets : ℕ → Bytes → Option (Bytes × Bytes)
unfolding take_line up_to_nul
fgets size [] = none
fgets size (c ∷ input) =
    let (text, rest) = take_line (size - 1) (c ∷ input) in some (up_to_nul text, rest)

-- `strchr(buf, '\n') != NULL`
unfoldable pub has_newline : Bytes → Bool
has_newline [] = false
has_newline (c ∷ s) = c == b'\n' || has_newline s

-- `drain_stdin`
unfoldable pub drain_stdin : Bytes → Bytes
drain_stdin [] = []
drain_stdin (c ∷ input) = if c == b'\n' then input else drain_stdin input

-- `prompt_line`: the answer, if the input did not end, with the input left. Each round takes at
-- least one byte of input, so the length of the input and one more are fuel enough.
unfoldable pub prompt_rounds : ℕ → Notice → ℕ → Bytes → Client → Client × Bytes × Option Bytes
prompt_rounds zero label buf_size input c = (c, input, none)
prompt_rounds (suc fuel) label buf_size input c =
    let c1 = emit (line label) c in
    elim (fgets buf_size input) [
      | none ↦ (c1, [], none)
      | some (buf, rest) ↦ elim (has_newline buf) [
        | true ↦ (c1, rest, some (utils_trim_newline buf))
        | false ↦
            prompt_rounds fuel label buf_size (drain_stdin rest)
              (emit (line (answer_too_long (buf_size - 1))) c1)
      ]
    ]

unfoldable pub prompt_line : Notice → ℕ → Bytes → Client → Client × Bytes × Option Bytes
unfolding prompt_rounds
prompt_line label buf_size input = prompt_rounds (length input + 1) label buf_size input

-- Both answers are there and not empty: the AUTH frame.
unfoldable pub send_auth : Os → Bytes → Bytes → Client → Client × Bool
send_auth os user pass c =
    elim (protocol_build_text2 MsgType.auth user pass (5 + max_username_len + max_password_len)) [
      | none ↦ (c, false)
      | some built ↦ send_frame os built c
    ]

abbrev pub is_empty : Bytes → Bool
is_empty [] = true
is_empty (c ∷ s) = false

-- The loop of `commands_login`; each round takes input, as above.
unfoldable pub login_rounds : Os → ℕ → Bytes → Client → Client × Bytes × Bool
login_rounds os zero input c = (c, input, false)
login_rounds os (suc fuel) input c =
    let (c1, input1, user) = prompt_line ask_user max_username_len input c in
    elim user [
      | none ↦ (c1, input1, false)
      | some u ↦
          let (c2, input2, pass) = prompt_line ask_password max_password_len input1 c1 in
          elim pass [
            | none ↦ (c2, input2, false)
            | some p ↦ elim (is_empty u || is_empty p) [
              | true ↦ login_rounds os fuel input2 (emit (line credentials_empty) c2)
              | false ↦ let (c3, sent_ok) = send_auth os u p c2 in (c3, input2, sent_ok)
            ]
          ]
    ]

unfoldable pub commands_login : Os → Bytes → Client → Client × Bytes × Bool
unfolding login_rounds
commands_login os input = login_rounds os (length input + 1) input
