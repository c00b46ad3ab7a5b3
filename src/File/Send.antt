-- ===== src/File/Send.antt =====
-- The send task of src/file.c: `/sendfile` and the periodic sending of chunks.
pub mod Wire
pub mod Rounds
pub mod Phase
pub mod Refining
pub mod Progress
use tcpclient.Base.{
  ltb, leb, ◌==◌, if◌then◌else◌, length, Bytes, ℕ, zero, suc, ◌+◌, ◌*◌, ◌/◌, ◌%◌, ◌^◌, Bool, true,
  false, not, ◌&&◌, none, some, ◌∷◌,
}
use tcpclient.Utils.{max_username_len, max_filename_len, decimal}
use tcpclient.Commands.{commands_parse_sendfile}
use tcpclient.Protocol.{protocol_build_text3, protocol_build_chunk}
use tcpclient.Protocol.MsgType
use tcpclient.System.{
  Notice, Os, usage_sendfile, already_sending, cannot_read, empty_file, read_failed, cannot_open,
  submitted, progress, opened_rb, closed, read,
}
use tcpclient.Client.{
  SendState, no_send, Client, put_send, pending_tid, active, done, wait_complete,
}
use tcpclient.Ui.{emit, send_frame, ui_print, ui_display_incoming}
use tcpclient.File.Chunks.{chunk_data_max, file_chunk_plan}
use tcpclient.File.Tasks.{send_tid_unchecked, send_tid}

abbrev pub chunks_per_round : ℕ
chunks_per_round = 2

abbrev pub progress_interval : ℕ
progress_interval = 1024 * 1024

unfoldable pub send_task_clear : Client → Client
send_task_clear c = record c {
  send_task = no_send;
  log = if c.send_task.fp then closed ∷ c.log else c.log;
}

abbrev pub send_task_matches : ℕ → Client → Bool
send_task_matches tid c = c.send_task.busy && c.send_task.tid == tid

-- `file_cmd_sendfile` from the registration of the task on; a failure clears it.
unfoldable pub start_sending : Os → Bytes → Bytes → ℕ → Client → Client × Bool
start_sending os target filename size c =
    let c1 = put_send c (record no_send {
      busy = true;
      state = pending_tid;
      fp = true;
      size = size;
      next_progress_mark = progress_interval;
      target = target;
      filename = filename;
    }) in
    elim (protocol_build_text3 MsgType.file_init target filename (decimal size)
      (5 + 32 + 256 + 32)) [
        | none ↦ (send_task_clear c1, false)
        | some built ↦
            let (c2, sent_ok) = send_frame os built c1 in
            if not sent_ok
            then (send_task_clear c2, false)
            else (ui_print (submitted filename size target) c2, true)
      ]

-- An opened file that is not sent after all.
abbrev pub close_with : Notice → Client → Client × Bool
close_with why c = (ui_print why (emit closed c), true)

-- The checks on the opened file: its size can be found and is not 0.
unfoldable pub offer_opened : Os → Bytes → Bytes → Client → Client × Bool
offer_opened os target filename c =
    if not (os.seek_end c.log) then close_with cannot_read c else elim (os.ftell c.log) [
      | none ↦ close_with cannot_read c
      | some size ↦
          if not (os.seek_start c.log)
          then close_with cannot_read c
          else if size == 0
          then close_with empty_file c
          else start_sending os target filename size c
    ]

unfoldable pub file_cmd_sendfile : Os → Bytes → Client → Client × Bool
file_cmd_sendfile os text c =
    elim (commands_parse_sendfile text max_username_len max_filename_len) [
      | none ↦ (ui_print usage_sendfile c, true)
      | some (target, filename) ↦
          if c.send_task.busy
          then (ui_print already_sending c, true)
          else if not (os.fopen_rb c.log filename)
          then (ui_print (cannot_open filename) c, true)
          else offer_opened os target filename (emit (opened_rb filename) c)
    ]

unfoldable pub file_send_active : Client → Bool
file_send_active c =
    c.send_task.busy && elim c.send_task.state [ active ↦ true | done ↦ true | _ ↦ false ]

-- The progress line, once `sent` passes the mark.
unfoldable pub show_progress : Client → Client
show_progress c =
    let s = c.send_task in
    if leb s.next_progress_mark s.sent
    then put_send
        (ui_display_incoming
          (progress s.tid s.sent s.size (s.sent * 100 % 2 ^ 64 / s.size % 2 ^ 32)) c)
        (record s { next_progress_mark = (s.next_progress_mark + progress_interval) % 2 ^ 64 })
    else c

-- How a round of the loop ends: go on, or return from `file_send_tick` with this result.
pub data Round : Type 0 where
  continue : Client → Round
  return : Client × Bool → Round

-- One chunk: read it, frame it, send it.
unfoldable pub send_chunk : Os → ℕ → ℕ → Client → Round
send_chunk os offset len c =
    let s = c.send_task in
    let bytes = os.fread c.log len in
    let c1 = emit (read len) c in
    if not (length bytes == len)
    then return (
      send_task_clear (send_tid_unchecked os MsgType.file_cancel s.tid (ui_print read_failed c1)),
      true,
    )
    else elim (protocol_build_chunk s.tid offset bytes (5 + 12 + chunk_data_max)) [
      | none ↦ return (send_task_clear c1, false)
      | some built ↦
          let (c2, sent_ok) = send_frame os built c1 in
          if not sent_ok
          then return (send_task_clear c2, false)
          else continue (show_progress (put_send c2 (record s { sent = s.sent + len })))
    ]

-- One round of the loop, behind its test.
unfoldable pub send_round : Os → Client → Round
send_round os c =
    let s = c.send_task in
    elim (file_chunk_plan s.size chunk_data_max (s.sent / chunk_data_max)) [
      | none ↦ return (send_task_clear c, true)
      | some (offset, len) ↦ send_chunk os offset len c
    ]

-- The loop, with the rounds that are left, and what follows it.
unfoldable pub send_rounds : Os → ℕ → Client → Client × Bool
send_rounds os zero c = (
  if leb c.send_task.size c.send_task.sent
      then put_send c (record (c.send_task) { state = done })
      else c,
  true,
)
send_rounds os (suc rounds) c =
    if ltb c.send_task.sent c.send_task.size
    then elim (send_round os c) [ continue c' ↦ send_rounds os rounds c' | return r ↦ r ]
    else (put_send c (record (c.send_task) { state = done }), true)

-- The COMPLETE frame, one call after the last chunk.
unfoldable pub send_complete : Os → Client → Client × Bool
send_complete os c =
    let (c', sent_ok) = send_tid os MsgType.file_complete c.send_task.tid c in
    if sent_ok
    then (put_send c' (record (c'.send_task) { state = wait_complete }), true)
    else (c', false)

unfoldable pub tick_in : SendState → Os → Client → Client × Bool
tick_in done os c = send_complete os c
tick_in active os c = send_rounds os chunks_per_round c
tick_in _ os c = (c, true)

unfoldable pub file_send_tick : Os → Client → Client × Bool
unfolding tick_in
file_send_tick os c = if not c.send_task.busy then (c, true) else tick_in c.send_task.state os c
