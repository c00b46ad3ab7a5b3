-- ===== src/File/Events/Refining.antt =====
-- Events go along the machine of Send/Phase.
use tcpclient.Base.{
  if-holds, option-holds, ◌==◌, if◌then◌else◌, Bytes, ℕ, refl, Bool, true, false, ◌&&◌, Option,
  none, some,
}
use tcpclient.System.{Os, accepted}
use tcpclient.Utils.{utils_read_u32_be}
use tcpclient.Protocol.{err_no_such_user, err_transfer_state}
use tcpclient.Protocol.MsgType
use tcpclient.Client.{
  SendState, Client, max_recv_pending, idle, pending_tid, pending, active, done, wait_complete,
}
use tcpclient.File.Announce.{AnnKind, file_parse_announcement}
use tcpclient.File.Tasks.{
  recv_task_find, recv_task_active, recv_task_clear, recv_task_complete, recv_announce_incoming,
  recv_handle_init, recv_handle_chunk,
}
use tcpclient.File.Send.{send_task_clear, send_task_matches}
use tcpclient.File.Events.{
  is_state, on_accepted, on_rejected, on_cancelled, on_complete, handle_kind,
  file_handle_announcement, handle_control, file_handle_frame, clear_active, file_handle_error,
  clear_slots, file_reset_all,
}
use tcpclient.File.Events.Untouched.{
  Same, clear-Same, recv_task_complete-Same, recv_announce_incoming-Same, recv_handle_init-Same,
  recv_handle_chunk-Same, clear_slots-Same,
}
use tcpclient.File.Send.Phase.{Signal, accepted, over, confirmed, unknown_user, stop, nothing}
use tcpclient.File.Send.Refining.Ticks.{with_flags}
use tcpclient.File.Events.Signals.{
  announces, announced, controls, framed, failed_with, Told, Same-Told, like-Told, if-Same,
  on_accepted-by, on_announced-by, on_rejected-by, confirm, confirm-by,
}

on_cancelled-Told : (tid : ℕ) (c : Client) → Told (over tid) c (on_cancelled tid c)
unfolding on_cancelled on_rejected
on_cancelled-Told tid c =
    let d : Client = elim (recv_task_find tid c) [ none ↦ c | some i ↦ recv_task_clear i c ] in
    like-Told (over tid) c (on_rejected tid c) (on_cancelled tid c)
      (if-Same (send_task_matches tid c) (send_task_clear c) c d
        (option-holds (Same c) (recv_task_find tid c) {x = c} refl (λ i e. clear-Same i c)))
      (on_rejected-by tid c.send_task.busy c.send_task.state c)

on_complete-Told : (tid : ℕ) (c : Client) → Told (confirmed tid) c (on_complete tid c)
unfolding on_complete
on_complete-Told tid c =
    like-Told (confirmed tid) c (confirm tid c) (on_complete tid c)
      (if-Same (send_task_matches tid c && is_state c.send_task.state wait_complete)
        (send_task_clear c) c (recv_task_complete tid c) (recv_task_complete-Same tid c))
      (confirm-by tid c.send_task.busy c.send_task.state c)

handle_kind-Told :
    (os : Os) (kind : AnnKind) (tid : ℕ) (c : Client)
    → Told (announces kind tid) c (handle_kind os kind tid c)
unfolding handle_kind
handle_kind-Told os AnnKind.sending tid c = on_announced-by tid c.send_task.busy c.send_task.state c
handle_kind-Told os AnnKind.taken tid c = on_accepted-by tid c.send_task.busy c.send_task.state c
handle_kind-Told os AnnKind.refused tid c = on_rejected-by tid c.send_task.busy c.send_task.state c
handle_kind-Told os AnnKind.cancelled tid c = on_cancelled-Told tid c
handle_kind-Told os AnnKind.disconnected tid c = on_cancelled-Told tid c
handle_kind-Told os AnnKind.complete tid c = on_complete-Told tid c
handle_kind-Told os AnnKind.incoming tid c =
    Same-Told c (recv_announce_incoming os tid c) (recv_announce_incoming-Same os tid c)

pub file_handle_announcement-Told :
    (os : Os) (text : Bytes) (c : Client)
    → Told (announced text) c (file_handle_announcement os text c)
unfolding file_handle_announcement
file_handle_announcement-Told os text c = by_answer (file_parse_announcement text)
  where
    by_answer :
        (o : Option (AnnKind × ℕ))
        → Told
            (elim o as (λ (x : Option (AnnKind × ℕ)). Signal) [
              | none ↦ nothing
              | some (kind, tid) ↦ announces kind tid
            ])
            c
            (elim o as (λ (x : Option (AnnKind × ℕ)). Client) [
              | none ↦ c
              | some (kind, tid) ↦ handle_kind os kind tid c
            ])
    by_answer none = Same-Told c c refl
    by_answer (some (kind, tid)) = handle_kind-Told os kind tid c

-- A test that the code and the machine share.
both_if :
    (b : Bool) (g g' : Signal) (c d d' : Client)
    → Told g c d
    → Told g' c d'
    → Told (if b then g else g') c (if b then d else d')
both_if true g g' c d d' f k = f
both_if false g g' c d d' f k = k

handle_control-Told :
    (msg_type tid : ℕ) (c : Client) → Told (controls msg_type tid) c (handle_control msg_type tid c)
unfolding handle_control
handle_control-Told msg_type tid c =
    let completed : Client =
      if msg_type == MsgType.file_complete then recv_task_complete tid c else c in
    let ended : Client =
      if msg_type == MsgType.file_cancel then on_cancelled tid c else completed in
    let ends : Signal = if msg_type == MsgType.file_cancel then over tid else nothing in
    both_if (msg_type == MsgType.file_accept) (accepted tid)
      (if msg_type == MsgType.file_reject then over tid else ends) c (on_accepted tid c)
      (if msg_type == MsgType.file_reject then on_rejected tid c else ended)
      (on_accepted-by tid c.send_task.busy c.send_task.state c)
      (both_if (msg_type == MsgType.file_reject) (over tid) ends c (on_rejected tid c) ended
        (on_rejected-by tid c.send_task.busy c.send_task.state c)
        (both_if (msg_type == MsgType.file_cancel) (over tid) nothing c (on_cancelled tid c)
          completed (on_cancelled-Told tid c)
          (Same-Told c completed (
            if-holds (Same c) (msg_type == MsgType.file_complete) {x = recv_task_complete tid c}
              {y = c} (λ e. recv_task_complete-Same tid c) (λ e. refl)))))

pub file_handle_frame-Told :
    (os : Os) (msg_type : ℕ) (payload : Bytes) (plen : ℕ) (c : Client)
    → Told (framed msg_type payload plen) c (file_handle_frame os msg_type payload plen c)
unfolding file_handle_frame
file_handle_frame-Told os msg_type payload plen c =
    let tid : ℕ = utils_read_u32_be payload in
    let stored : Client =
      if msg_type == MsgType.file_chunk then recv_handle_chunk os payload plen c else c in
    let d : Client =
      if msg_type == MsgType.file_init then recv_handle_init payload plen c else stored in
    both_if (plen == 4) (controls msg_type tid) nothing c (handle_control msg_type tid c) d
      (handle_control-Told msg_type tid c)
      (Same-Told c d (
        if-holds (Same c) (msg_type == MsgType.file_init) {x = recv_handle_init payload plen c}
          {y = stored} (λ e. recv_handle_init-Same payload plen c)
          (λ e.
            if-holds (Same c) (msg_type == MsgType.file_chunk)
              {x = recv_handle_chunk os payload plen c} {y = c}
              (λ e. recv_handle_chunk-Same os payload plen c) (λ e. refl))))

unknown_user-by :
    (b : Bool) (s : SendState) (c : Client)
    → let d : Client = with_flags b s c in
      Told unknown_user d (
        if d.send_task.busy && is_state d.send_task.state pending_tid then send_task_clear d else d)
unfolding send_task_clear
unknown_user-by false s c h = (tt, refl)
unknown_user-by true idle c h = absurd h
unknown_user-by true pending_tid c h = (tt, refl)
unknown_user-by true pending c h = (h, refl)
unknown_user-by true active c h = (h, refl)
unknown_user-by true done c h = (h, refl)
unknown_user-by true wait_complete c h = (h, refl)

stop-by :
    (b : Bool) (c : Client)
    → let d : Client = with_flags b c.send_task.state c in
      Told stop d (if d.send_task.busy then send_task_clear d else d)
unfolding send_task_clear
stop-by false c h = (tt, refl)
stop-by true c h = (tt, refl)

clear_active-Same : (c : Client) → Same c (clear_active c)
unfolding clear_active
clear_active-Same c = option-holds (Same c) (recv_task_active c) refl (λ i e. clear-Same i c)

pub file_handle_error-Told :
    (code : ℕ) (c : Client) → Told (failed_with code) c (file_handle_error code c)
unfolding file_handle_error
file_handle_error-Told code c =
    let t : Bool = c.send_task.busy in
    let d : Client = if t then send_task_clear c else c in
    let refused : Client =
      if t && is_state c.send_task.state pending_tid then send_task_clear c else c in
    both_if (code == err_no_such_user) unknown_user
      (if code == err_transfer_state then stop else nothing) c refused
      (if code == err_transfer_state then clear_active d else c)
      (unknown_user-by t c.send_task.state c)
      (both_if (code == err_transfer_state) stop nothing c (clear_active d) c
        (like-Told stop c d (clear_active d) (clear_active-Same d) (stop-by t c))
        (Same-Told c c refl))

pub file_reset_all-Told : (c : Client) → Told stop c (file_reset_all c)
unfolding file_reset_all
file_reset_all-Told c =
    let d : Client = if c.send_task.busy then send_task_clear c else c in
    like-Told stop c d (clear_slots max_recv_pending 0 d) (clear_slots-Same max_recv_pending 0 d)
      (stop-by c.send_task.busy c)
