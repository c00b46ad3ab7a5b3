-- ===== src/File/Invariant/Handling.antt =====
-- `/cancel` and what the event loop calls keep the invariant.
use tcpclient.Base.{
  if-holds, option-holds, ◌==◌, if◌then◌else◌, length, drop, Bytes, ℕ, zero, suc, ◌+◌, ◌≤◌, ◌<◌,
  ◌≡◌, refl, ◌∙◌, Bool, true, ◌&&◌, some, arith,
}
use tcpclient.System.{Os, usage_cancel, cancelled, no_such_transfer}
use tcpclient.Protocol.MsgType
use tcpclient.Protocol.{err_no_such_user, err_transfer_state}
use tcpclient.Commands.{commands_parse_tid_arg}
use tcpclient.Utils.{utils_read_u32_be}
use tcpclient.Client.{
  SendTask, Client, max_recv_pending, slot, put_send, pending_tid, pending, active, wait_complete,
}
use tcpclient.Ui.{ui_print}
use tcpclient.File.Announce.{AnnKind, file_parse_announcement, cancelled}
use tcpclient.File.Tasks.{is_active, recv_task_find, recv_task_active, recv_task_clear, send_tid}
use tcpclient.File.Send.{send_task_clear, send_task_matches}
use tcpclient.File.Events.{
  cancel_recv, cancel_send, file_cmd_cancel, is_state, on_accepted, on_rejected, on_cancelled,
  on_complete, on_announced, handle_kind, file_handle_announcement, handle_control,
  file_handle_frame, clear_active, file_handle_error, clear_slots, file_reset_all,
}
use tcpclient.File.Invariant.{IsValid}
use tcpclient.File.Invariant.Slots.{find_lem}
use tcpclient.File.Invariant.Basic.{
  recv_task_clear-IsValid, send_task_clear-IsValid, put_send-IsValid, sending_fp, Quiet-IsValid,
  quiet,
}
use tcpclient.File.Invariant.Output.{send_tid-Quiet}
use tcpclient.File.Invariant.Receiving.{
  find-here, recv_task_complete-IsValid, recv_announce_incoming-IsValid,
}
use tcpclient.File.Invariant.Describing.{recv_handle_init-IsValid}
use tcpclient.File.Invariant.Storing.{recv_handle_chunk-IsValid}

abbrev Fine : Client × Bool → Type 0
Fine r = IsValid r.0

pub file_cmd_cancel-IsValid :
    (os : Os) (text : Bytes) (c : Client) → IsValid c → IsValid (file_cmd_cancel os text c).0
unfolding file_cmd_cancel cancel_send cancel_recv
file_cmd_cancel-IsValid os text c v =
    option-holds Fine (commands_parse_tid_arg (drop 7 text))
      (Quiet-IsValid c (ui_print usage_cancel c) (quiet c) v)
      (λ tid e.
        let d : Client = (send_tid os MsgType.file_cancel tid c).0 in
        let (es, er, f) = send_tid-Quiet os MsgType.file_cancel tid c in
        let w : IsValid d = Quiet-IsValid c d (es, er, f) v in
        if-holds Fine (send_task_matches tid c)
          (λ h.
            if-holds Fine (send_tid os MsgType.file_cancel tid c).1
              (λ k.
                Quiet-IsValid (send_task_clear d) (ui_print (cancelled tid) (send_task_clear d))
                  (quiet (send_task_clear d)) (send_task_clear-IsValid d w))
              (λ k. w))
          (λ h.
            option-holds Fine (recv_task_find tid c)
              (Quiet-IsValid c (ui_print (no_such_transfer tid) c) (quiet c) v)
              (λ i found.
                if-holds Fine (send_tid os MsgType.file_cancel tid c).1
                  (λ k.
                    Quiet-IsValid (recv_task_clear i d)
                      (ui_print (cancelled tid) (recv_task_clear i d)) (quiet (recv_task_clear i d))
                      (recv_task_clear-IsValid i d w (rw er (find-here tid c found))))
                  (λ k. w))))

-- A transition of a busy send task.
moved-IsValid :
    (c : Client) (t : SendTask)
    → IsValid c
    → c.send_task.busy ≡ true
    → t.busy ≡ c.send_task.busy
    → t.fp ≡ c.send_task.fp
    → IsValid (put_send c t)
moved-IsValid c t v h hb hf =
    put_send-IsValid c t v (hb ∙ h) (hf ∙ sending_fp c v h) (sending_fp c v h)

pub on_accepted-IsValid : (tid : ℕ) (c : Client) → IsValid c → IsValid (on_accepted tid c)
unfolding on_accepted
on_accepted-IsValid tid c v =
    if-holds IsValid (send_task_matches tid c && is_state c.send_task.state pending)
      (λ e. moved-IsValid c (record (c.send_task) { state = active }) v (ground arith) refl refl)
      (λ e. v)

pub on_rejected-IsValid : (tid : ℕ) (c : Client) → IsValid c → IsValid (on_rejected tid c)
unfolding on_rejected
on_rejected-IsValid tid c v =
    if-holds IsValid (send_task_matches tid c) (λ e. send_task_clear-IsValid c v) (λ e. v)

pub on_cancelled-IsValid : (tid : ℕ) (c : Client) → IsValid c → IsValid (on_cancelled tid c)
unfolding on_cancelled
on_cancelled-IsValid tid c v =
    if-holds IsValid (send_task_matches tid c) (λ e. send_task_clear-IsValid c v)
      (λ e.
        option-holds IsValid (recv_task_find tid c) v
          (λ i found. recv_task_clear-IsValid i c v (find-here tid c found)))

pub on_complete-IsValid : (tid : ℕ) (c : Client) → IsValid c → IsValid (on_complete tid c)
unfolding on_complete
on_complete-IsValid tid c v =
    if-holds IsValid (send_task_matches tid c && is_state c.send_task.state wait_complete)
      (λ e. send_task_clear-IsValid c v) (λ e. recv_task_complete-IsValid tid c v)

pub on_announced-IsValid : (tid : ℕ) (c : Client) → IsValid c → IsValid (on_announced tid c)
unfolding on_announced
on_announced-IsValid tid c v =
    if-holds IsValid (c.send_task.busy && is_state c.send_task.state pending_tid)
      (λ e.
        moved-IsValid c (record (c.send_task) { tid = tid; state = pending }) v (ground arith) refl
          refl)
      (λ e. v)

pub file_handle_announcement-IsValid :
    (os : Os) (text : Bytes) (c : Client) → IsValid c → IsValid (file_handle_announcement os text c)
unfolding file_handle_announcement handle_kind
file_handle_announcement-IsValid os text c v =
    option-holds IsValid (file_parse_announcement text) v (λ found e. by_kind (found.0) (found.1))
  where
    by_kind : (kind : AnnKind) (tid : ℕ) → IsValid (handle_kind os kind tid c)
    by_kind AnnKind.sending tid = on_announced-IsValid tid c v
    by_kind AnnKind.taken tid = on_accepted-IsValid tid c v
    by_kind AnnKind.refused tid = on_rejected-IsValid tid c v
    by_kind AnnKind.cancelled tid = on_cancelled-IsValid tid c v
    by_kind AnnKind.disconnected tid = on_cancelled-IsValid tid c v
    by_kind AnnKind.complete tid = on_complete-IsValid tid c v
    by_kind AnnKind.incoming tid = recv_announce_incoming-IsValid os tid c v

pub file_handle_frame-IsValid :
    (os : Os) (msg_type : ℕ) (payload : Bytes) (plen : ℕ) (c : Client)
    → plen ≤ length payload
    → IsValid c
    → IsValid (file_handle_frame os msg_type payload plen c)
unfolding file_handle_frame handle_control
file_handle_frame-IsValid os msg_type payload plen c h v =
    let tid : ℕ = utils_read_u32_be payload in
    if-holds IsValid (plen == 4)
      (λ e.
        if-holds IsValid (msg_type == MsgType.file_accept) (λ e. on_accepted-IsValid tid c v)
          (λ e.
            if-holds IsValid (msg_type == MsgType.file_reject) (λ e. on_rejected-IsValid tid c v)
              (λ e.
                if-holds IsValid (msg_type == MsgType.file_cancel)
                  (λ e. on_cancelled-IsValid tid c v)
                  (λ e.
                    if-holds IsValid (msg_type == MsgType.file_complete)
                      (λ e. recv_task_complete-IsValid tid c v) (λ e. v)))))
      (λ e.
        if-holds IsValid (msg_type == MsgType.file_init)
          (λ e. recv_handle_init-IsValid payload plen c v)
          (λ e.
            if-holds IsValid (msg_type == MsgType.file_chunk)
              (λ e. recv_handle_chunk-IsValid os payload plen c v h) (λ e. v)))

active-here : (c : Client) {i : ℕ} → recv_task_active c ≡ some i → i < length c.recv_tasks
unfolding recv_task_active
active-here c e = (find_lem is_active c.recv_tasks e).0

pub file_handle_error-IsValid :
    (code : ℕ) (c : Client) → IsValid c → IsValid (file_handle_error code c)
unfolding file_handle_error clear_active
file_handle_error-IsValid code c v =
    let d : Client = if c.send_task.busy then send_task_clear c else c in
    let w : IsValid d =
      if-holds IsValid c.send_task.busy (λ e. send_task_clear-IsValid c v) (λ e. v) in
    if-holds IsValid (code == err_no_such_user)
      (λ e.
        if-holds IsValid (c.send_task.busy && is_state c.send_task.state pending_tid)
          (λ e. send_task_clear-IsValid c v) (λ e. v))
      (λ e.
        if-holds IsValid (code == err_transfer_state)
          (λ e.
            option-holds IsValid (recv_task_active d) w
              (λ i found. recv_task_clear-IsValid i d w (active-here d found)))
          (λ e. v))

pub clear_slots-IsValid :
    (rounds i : ℕ) (c : Client)
    → i + rounds ≤ max_recv_pending
    → IsValid c
    → IsValid (clear_slots rounds i c)
unfolding clear_slots
clear_slots-IsValid zero i c h v = v
clear_slots-IsValid (suc rounds) i c h v =
    clear_slots-IsValid rounds (i + 1) (if (slot c i).busy then recv_task_clear i c else c)
      (omega arith)
      (if-holds IsValid (slot c i).busy
        (λ e. recv_task_clear-IsValid i c v (omega (arith, v.slots))) (λ e. v))

pub file_reset_all-IsValid : (c : Client) → IsValid c → IsValid (file_reset_all c)
unfolding file_reset_all
file_reset_all-IsValid c v =
    clear_slots-IsValid max_recv_pending 0 (if c.send_task.busy then send_task_clear c else c)
      (omega arith) (if-holds IsValid c.send_task.busy (λ e. send_task_clear-IsValid c v) (λ e. v))
