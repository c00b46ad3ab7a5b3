-- ===== src/File/Events.antt =====
-- What the event loop calls of src/file.c: `/cancel`, the announcements, the control frames, the
-- error codes and the reset.
pub mod Untouched
pub mod Signals
pub mod Refining
pub mod Withdrawing
use tcpclient.Base.{
  ◌==◌, if◌then◌else◌, drop, Bytes, ℕ, zero, suc, ◌+◌, Bool, true, false, ◌&&◌, none, some,
}
use tcpclient.Utils.{utils_read_u32_be}
use tcpclient.Commands.{commands_parse_tid_arg}
use tcpclient.Protocol.{err_no_such_user, err_transfer_state}
use tcpclient.Protocol.MsgType
use tcpclient.System.{Os, usage_cancel, cancelled, no_such_transfer}
use tcpclient.Client.{
  SendState, Client, max_recv_pending, slot, put_send, pending_tid, pending, active, wait_complete,
}
use tcpclient.Ui.{ui_print}
use tcpclient.File.Announce.{AnnKind, file_parse_announcement, cancelled}
use tcpclient.File.Tasks.{
  recv_task_find, recv_task_active, recv_task_clear, recv_task_complete, send_tid,
  recv_announce_incoming, recv_handle_init, recv_handle_chunk,
}
use tcpclient.File.Send.{send_task_clear, send_task_matches}

-- The receive half of `file_cmd_cancel`.
unfoldable pub cancel_recv : Os → ℕ → Client → Client × Bool
cancel_recv os tid c = elim (recv_task_find tid c) [
  | none ↦ (ui_print (no_such_transfer tid) c, true)
  | some i ↦
      let (c', sent_ok) = send_tid os MsgType.file_cancel tid c in
      if sent_ok then (ui_print (cancelled tid) (recv_task_clear i c'), true) else (c', false)
]

-- The send half: the frame first, then the clean-up.
unfoldable pub cancel_send : Os → ℕ → Client → Client × Bool
cancel_send os tid c =
    let (c', sent_ok) = send_tid os MsgType.file_cancel tid c in
    if sent_ok then (ui_print (cancelled tid) (send_task_clear c'), true) else (c', false)

unfoldable pub file_cmd_cancel : Os → Bytes → Client → Client × Bool
file_cmd_cancel os text c = elim (commands_parse_tid_arg (drop 7 text)) [
  | none ↦ (ui_print usage_cancel c, true)
  | some tid ↦ if send_task_matches tid c then cancel_send os tid c else cancel_recv os tid c
]

abbrev pub is_state : SendState → SendState → Bool
is_state pending_tid pending_tid = true
is_state pending pending = true
is_state wait_complete wait_complete = true
is_state _ _ = false

-- The other side accepted: a pending task becomes active.
unfoldable pub on_accepted : ℕ → Client → Client
on_accepted tid c =
    if send_task_matches tid c && is_state c.send_task.state pending
    then put_send c (record (c.send_task) { state = active })
    else c

unfoldable pub on_rejected : ℕ → Client → Client
on_rejected tid c = if send_task_matches tid c then send_task_clear c else c

unfoldable pub on_cancelled : ℕ → Client → Client
on_cancelled tid c =
    if send_task_matches tid c
    then send_task_clear c
    else elim (recv_task_find tid c) [ none ↦ c | some i ↦ recv_task_clear i c ]

-- The case FILE_ANN_COMPLETE.
unfoldable pub on_complete : ℕ → Client → Client
on_complete tid c =
    if send_task_matches tid c && is_state c.send_task.state wait_complete
    then send_task_clear c
    else recv_task_complete tid c

-- The case FILE_ANN_SEND_PENDING: the announcement of the own INIT frame brings the id.
unfoldable pub on_announced : ℕ → Client → Client
on_announced tid c =
    if c.send_task.busy && is_state c.send_task.state pending_tid
    then put_send c (record (c.send_task) { tid = tid; state = pending })
    else c

unfoldable pub handle_kind : Os → AnnKind → ℕ → Client → Client
handle_kind os AnnKind.sending tid c = on_announced tid c
handle_kind os AnnKind.taken tid c = on_accepted tid c
handle_kind os AnnKind.refused tid c = on_rejected tid c
handle_kind os AnnKind.cancelled tid c = on_cancelled tid c
handle_kind os AnnKind.disconnected tid c = on_cancelled tid c
handle_kind os AnnKind.complete tid c = on_complete tid c
handle_kind os AnnKind.incoming tid c = recv_announce_incoming os tid c

unfoldable pub file_handle_announcement : Os → Bytes → Client → Client
file_handle_announcement os text c = elim (file_parse_announcement text) [
  | none ↦ c
  | some (kind, tid) ↦ handle_kind os kind tid c
]

-- The control frames of four bytes.
unfoldable pub handle_control : ℕ → ℕ → Client → Client
handle_control msg_type tid c =
    if msg_type == MsgType.file_accept
    then on_accepted tid c
    else if msg_type == MsgType.file_reject
    then on_rejected tid c
    else if msg_type == MsgType.file_cancel
    then on_cancelled tid c
    else if msg_type == MsgType.file_complete
    then recv_task_complete tid c
    else c

-- `payload` is what the pointer shows.
unfoldable pub file_handle_frame : Os → ℕ → Bytes → ℕ → Client → Client
file_handle_frame os msg_type payload plen c =
    if plen == 4
    then handle_control msg_type (utils_read_u32_be payload) c
    else if msg_type == MsgType.file_init
    then recv_handle_init payload plen c
    else if msg_type == MsgType.file_chunk
    then recv_handle_chunk os payload plen c
    else c

unfoldable pub clear_active : Client → Client
clear_active c = elim (recv_task_active c) [ none ↦ c | some i ↦ recv_task_clear i c ]

unfoldable pub file_handle_error : ℕ → Client → Client
file_handle_error code c =
    if code == err_no_such_user
    then (if c.send_task.busy && is_state c.send_task.state pending_tid
        then send_task_clear c
        else c)
    else if code == err_transfer_state
    then clear_active (if c.send_task.busy then send_task_clear c else c)
    else c

-- The loop of `file_reset_all` over the slots, with the rounds left and the index.
unfoldable pub clear_slots : ℕ → ℕ → Client → Client
clear_slots zero i c = c
clear_slots (suc rounds) i c =
    clear_slots rounds (i + 1) (if (slot c i).busy then recv_task_clear i c else c)

unfoldable pub file_reset_all : Client → Client
file_reset_all c =
    clear_slots max_recv_pending 0 (if c.send_task.busy then send_task_clear c else c)
