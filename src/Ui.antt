-- ===== src/Ui.antt =====
-- src/ui.c: printing with the prompt's protection, and the list of online users. A call of
-- `conn_send_all` is here too, as the other kind of output.
pub mod Users
use tcpclient.Base.{
  ltb, if◌then◌else◌, length, drop, Bytes, split_nul, ℕ, zero, suc, ◌+◌, Bool, true, false, ◌&&◌,
  Option, none, some, [], ◌∷◌, ◌++◌,
}
use tcpclient.Conn.{conn_send_all}
use tcpclient.Utils.{utils_read_u16_be}
use tcpclient.System.{Notice, Effect, Os, server_error, wire, line, newline, prompt}
use tcpclient.Client.{Client}

abbrev pub emit : Effect → Client → Client
emit e c = record c { log = e ∷ c.log }

-- `conn_send_all(conn, frame, n)`, with its result.
unfoldable pub send_frame : Os → Bytes → Client → Client × Bool
send_frame os frame c =
    let (result, taken) = conn_send_all (os.send c.log frame) frame in (emit (wire taken) c, result)

abbrev pub ui_print : Notice → Client → Client
ui_print text c = emit (line text) c

unfoldable pub ui_prompt : Client → Client
ui_prompt c = if c.prompt_shown then c else record c { prompt_shown = true; log = prompt ∷ c.log }

-- `ui_emit_incoming`, and `ui_display_incoming`, which only calls it.
unfoldable pub ui_display_incoming : Notice → Client → Client
unfolding ui_prompt
ui_display_incoming text c =
    let opened =
      if c.prompt_shown then record c { prompt_shown = false; log = newline ∷ c.log } else c in
    ui_prompt (emit (line text) opened)

unfoldable pub ui_print_error : ℕ → Bytes → Client → Client
unfolding ui_display_incoming
ui_print_error code message = ui_display_incoming (server_error code message)

abbrev pub users_size : ℕ
users_size = 1024

-- The loop of `ui_display_online_users`: `users` is the buffer up to `pos`, `seen` the names taken,
-- `i` the offset of `memory` in the payload. One C string is read in each round; fuel for the
-- rounds; `none` if a name runs out of the memory that the view shows.
unfoldable pub users_loop : ℕ → ℕ → ℕ → ℕ → ℕ → Bytes → Bytes → Option Bytes
users_loop zero plen count i seen users memory = some users
users_loop (suc fuel) plen count i seen users memory =
    if ltb i plen && ltb seen count
    then elim (split_nul memory) [
      | none ↦ none
      | some ([], rest) ↦ some users
      | some (x ∷ name, rest) ↦
          users_loop fuel plen count (i + length (x ∷ name) + 1) (seen + 1)
            (if ltb (length users + length (x ∷ name) + 2) users_size
              then users ++ ((if ltb 0 seen then b' ' ∷ [] else []) ++ (x ∷ name))
              else users)
            rest
    ]
    else some users

-- The count field and the names; `memory` is what the payload's pointer shows. There are at most
-- `plen` rounds. `none`: the call reads outside the received bytes.
unfoldable pub online_users_text : Bytes → ℕ → Option (ℕ × Bytes)
unfolding users_loop
online_users_text memory plen =
    let count = utils_read_u16_be memory in
    if ltb (length memory) 2
    then none
    else elim (users_loop (plen + 1) plen count 4 0 [] (drop 4 memory)) [
      | none ↦ none
      | some users ↦ some (count, users)
    ]
