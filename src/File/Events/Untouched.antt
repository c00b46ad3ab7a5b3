-- ===== src/File/Events/Untouched.antt =====
-- The receptions leave the send task alone.
use tcpclient.Commands.{commands_parse_tid_arg}
use tcpclient.File.Chunks.{chunk_data_max, file_chunk_count}
use tcpclient.File.Names.{file_basename_sanitize, file_unique_name, file_join_path}
use tcpclient.File.Spans.{file_recv_span_check}
use tcpclient.File.Receive.{
  recv_name_taken, confirm_accept, open_target, make_dir, make_dir_inv, choose_name, accept_task,
  file_cmd_accept, reject_task, file_cmd_reject,
}
use tcpclient.File.Events.{clear_slots}
use tcpclient.Base.{
  if-holds, option-holds, ltb, ◌==◌, if◌then◌else◌, length, set, take, drop, replicate, Bytes, ℕ,
  zero, suc, ◌+◌, ◌-◌, ◌/◌, ◌%◌, ◌^◌, ◌≡◌, refl, ◌∙◌, inl, inr, Bool, true, false, not, ◌||◌, none,
  some, [],
}
use tcpclient.System.{
  Notice, Os, usage_accept, usage_reject, no_such_transfer, saved, incomplete, reception_full,
  bad_chunk, write_failed, zero_size, bad_filename, no_save_name, no_download_dir, too_big,
  path_too_long, cannot_create, accepted, already_active, already_receiving, not_ready, use_cancel,
  rejected, opened_wb, stored, allocated,
}
use tcpclient.Utils.{max_username_len, max_filename_len, utils_read_u32_be, utils_read_u64_be}
use tcpclient.Protocol.MsgType
use tcpclient.Client.{RecvTask, no_recv, Client, slot, put_slot}
use tcpclient.Ui.{emit, ui_print}
use tcpclient.File.Init.{file_parse_init_payload}
use tcpclient.File.Tasks.{
  download_dir, path_size, recv_task_find, recv_task_active, recv_task_slot, recv_task_clear,
  recv_task_finish, recv_task_complete, send_tid_unchecked, send_tid, recv_task_abort,
  recv_task_reject, recv_announce_incoming, oldest_from, recv_handle_init, marked_map, store_chunk,
  map_of, recv_handle_chunk,
}
use tcpclient.File.Invariant.Output.{send_tid_unchecked-Quiet, send_tid-Quiet}

-- The task is the same.
abbrev pub Same : Client → Client → Type 0
Same c d = d.send_task ≡ c.send_task

abbrev pub SameResult : Client → Client × Bool → Type 0
SameResult c r = Same c r.0

pub unchecked-Same : (os : Os) (t tid : ℕ) (c : Client) → Same c (send_tid_unchecked os t tid c)
unchecked-Same os t tid c = (send_tid_unchecked-Quiet os t tid c).0

abort-Same : (os : Os) (i : ℕ) (why : Notice) (c : Client) → Same c (recv_task_abort os i why c)
unfolding recv_task_abort recv_task_clear
abort-Same os i why c = unchecked-Same os MsgType.file_cancel (slot c i).tid c

reject-Same : (os : Os) (i : ℕ) (why : Notice) (c : Client) → Same c (recv_task_reject os i why c)
unfolding recv_task_reject recv_task_clear
reject-Same os i why c = unchecked-Same os MsgType.file_reject (slot c i).tid (ui_print why c)

pub clear-Same : (i : ℕ) (c : Client) → Same c (recv_task_clear i c)
unfolding recv_task_clear
clear-Same i c = refl

pub recv_task_complete-Same : (tid : ℕ) (c : Client) → Same c (recv_task_complete tid c)
unfolding recv_task_complete recv_task_finish recv_task_clear
recv_task_complete-Same tid c = option-holds (Same c) (recv_task_find tid c) refl (λ i e.
    let t : RecvTask = slot c i in
    let shown : Client = ui_print (saved t.tid t.save_name t.received) c in
    if-holds (Same c) t.fp {x = recv_task_finish i c} {y = recv_task_clear i c}
      (λ h.
        if-holds (Same c) (t.received == t.size)
          {x = recv_task_clear i (put_slot shown i (record t { save_name = [] }))}
          {y = recv_task_clear i (ui_print (incomplete t.tid t.received t.size) c)} (λ e. refl)
          (λ e. refl))
      (λ h. refl))

pub recv_announce_incoming-Same :
    (os : Os) (tid : ℕ) (c : Client) → Same c (recv_announce_incoming os tid c)
unfolding recv_announce_incoming
recv_announce_incoming-Same os tid c =
    option-holds (Same c) (recv_task_slot c)
      {f = λ i. record c {
        recv_tasks =
            set c.recv_tasks i (record no_recv { busy = true; tid = tid; seq = c.recv_seq });
        recv_seq = (c.recv_seq + 1) % 2 ^ 64;
      }}
      (unchecked-Same os MsgType.file_reject tid (ui_print reception_full c)) (λ i e. refl)

pub recv_handle_init-Same :
    (payload : Bytes) (plen : ℕ) (c : Client) → Same c (recv_handle_init payload plen c)
unfolding recv_handle_init
recv_handle_init-Same payload plen c =
    option-holds (Same c) (file_parse_init_payload payload plen max_username_len max_filename_len)
      {x = c} refl
      (λ fields e.
        option-holds (Same c) (oldest_from c.recv_tasks 0 none) {x = c}
          {f = λ i. put_slot c i (record (slot c i) {
            inited = true;
            sender = fields.sender;
            filename = fields.filename;
            size = fields.size;
          })}
          refl (λ i e. refl))

pub recv_handle_chunk-Same :
    (os : Os) (payload : Bytes) (plen : ℕ) (c : Client)
    → Same c (recv_handle_chunk os payload plen c)
unfolding recv_handle_chunk store_chunk
recv_handle_chunk-Same os payload plen c =
    let offset : ℕ = utils_read_u64_be (drop 4 payload) in
    let bytes : Bytes = take (plen - 12) (drop 12 payload) in
    if-holds (Same c) (ltb plen 12) {x = c} (λ e. refl)
      (λ e.
        option-holds (Same c) (recv_task_find (utils_read_u32_be payload) c) {x = c} refl (λ i e.
          let t : RecvTask = slot c i in
          if-holds (Same c) (not t.fp) {x = c} (λ e. refl)
            (λ e.
              if-holds (Same c)
                (not (file_recv_span_check t.size (map_of t) t.bitmap_len offset (plen - 12)))
                (λ e. abort-Same os i (bad_chunk t.tid) c)
                (λ e.
                  if-holds (Same c)
                    (not (os.fseek c.log offset) || not (os.fwrite c.log bytes == length bytes))
                    {y = put_slot (emit (stored t.save_name offset bytes) c) i (record t {
                      bitmap = marked_map t offset;
                      received = t.received + length bytes;
                    })}
                    (λ e. abort-Same os i (write_failed t.tid) c) (λ e. refl)))))

confirm_accept-Same : (os : Os) (i tid : ℕ) (c : Client) → SameResult c (confirm_accept os i tid c)
unfolding confirm_accept recv_task_clear
confirm_accept-Same os i tid c =
    let d : Client = (send_tid os MsgType.file_accept tid c).0 in
    let same : Same c d = (send_tid-Quiet os MsgType.file_accept tid c).0 in
    if-holds (SameResult c) (send_tid os MsgType.file_accept tid c).1
      {x = (ui_print (accepted tid (slot d i).save_name) d, true)}
      {y = (recv_task_clear i d, false)} (λ e. same) (λ e. same)

open_target-Same : (os : Os) (i tid : ℕ) (c : Client) → SameResult c (open_target os i tid c)
unfolding open_target
open_target-Same os i tid c =
    let t : RecvTask = slot c i in
    let len : ℕ = file_chunk_count t.size chunk_data_max / 8 + 1 in
    let t1 : RecvTask = record t { bitmap_len = len; bitmap = some (replicate len 0) } in
    let c1 : Client = put_slot (emit allocated c) i t1 in
    if-holds (SameResult c) (not (os.malloc c.log len))
      (λ e. reject-Same os i too_big (put_slot c i (record t { bitmap_len = len })))
      (λ e.
        option-holds (SameResult c) (file_join_path download_dir t.save_name path_size)
          (reject-Same os i path_too_long c1)
          (λ path e.
            if-holds (SameResult c) (not (os.fopen_wb c1.log path))
              (λ e. reject-Same os i cannot_create c1)
              (λ e.
                confirm_accept-Same os i tid
                  (put_slot (emit (opened_wb path) c1) i (record t1 { fp = true })))))

make_dir-Same : (os : Os) (c d : Client) → make_dir os c ≡ some d → Same c d
make_dir-Same os c d e = elim (make_dir_inv os c d e) [ inl same ↦ rw same | inr made ↦ rw made ]

choose_name-Same : (os : Os) (i tid : ℕ) (c : Client) → SameResult c (choose_name os i tid c)
unfolding choose_name
choose_name-Same os i tid c =
    option-holds (SameResult c) (file_basename_sanitize (slot c i).filename max_filename_len)
      (reject-Same os i bad_filename c)
      (λ base e.
        option-holds (SameResult c)
          (file_unique_name base (recv_name_taken os c.log) max_filename_len)
          (reject-Same os i no_save_name c)
          (λ name e.
            let c1 : Client = put_slot c i (record (slot c i) { save_name = name }) in
            option-holds (SameResult c) (make_dir os c1) (reject-Same os i no_download_dir c1)
              (λ c2 e. open_target-Same os i tid c2 ∙ make_dir-Same os c1 c2 e)))

accept_task-Same : (os : Os) (i tid : ℕ) (c : Client) → SameResult c (accept_task os i tid c)
unfolding accept_task
accept_task-Same os i tid c =
    if-holds (SameResult c) (slot c i).fp {x = (ui_print already_active c, true)} (λ e. refl)
      (λ e.
        option-holds (SameResult c) (recv_task_active c)
          {f = λ j. (ui_print already_receiving c, true)}
          (if-holds (SameResult c) (not (slot c i).inited) {x = (ui_print not_ready c, true)}
            (λ e. refl)
            (λ e.
              if-holds (SameResult c) ((slot c i).size == 0) (λ e. reject-Same os i zero_size c)
                (λ e. choose_name-Same os i tid c)))
          (λ j e. refl))

pub file_cmd_accept-Same :
    (os : Os) (text : Bytes) (c : Client) → SameResult c (file_cmd_accept os text c)
unfolding file_cmd_accept
file_cmd_accept-Same os text c =
    option-holds (SameResult c) (commands_parse_tid_arg (drop 7 text))
      {x = (ui_print usage_accept c, true)} refl
      (λ tid e.
        option-holds (SameResult c) (recv_task_find tid c)
          {x = (ui_print (no_such_transfer tid) c, true)} refl (λ i e. accept_task-Same os i tid c))

pub file_cmd_reject-Same :
    (os : Os) (text : Bytes) (c : Client) → SameResult c (file_cmd_reject os text c)
unfolding file_cmd_reject reject_task recv_task_clear
file_cmd_reject-Same os text c =
    option-holds (SameResult c) (commands_parse_tid_arg (drop 7 text))
      {x = (ui_print usage_reject c, true)} refl
      (λ tid e.
        option-holds (SameResult c) (recv_task_find tid c)
          {x = (ui_print (no_such_transfer tid) c, true)} refl
          (λ i e.
            let d : Client = (send_tid os MsgType.file_reject tid c).0 in
            let same : Same c d = (send_tid-Quiet os MsgType.file_reject tid c).0 in
            if-holds (SameResult c) (slot c i).fp {x = (ui_print (use_cancel tid) c, true)}
              (λ e. refl)
              (λ e.
                if-holds (SameResult c) (send_tid os MsgType.file_reject tid c).1
                  {x = (recv_task_clear i (ui_print (rejected tid) d), true)} {y = (d, false)}
                  (λ e. same) (λ e. same))))

pub clear_slots-Same : (rounds i : ℕ) (c : Client) → Same c (clear_slots rounds i c)
unfolding clear_slots
clear_slots-Same zero i c = refl
clear_slots-Same (suc rounds) i c =
    let d : Client = if (slot c i).busy then recv_task_clear i c else c in
    clear_slots-Same rounds (i + 1) d
    ∙ if-holds (Same c) (slot c i).busy (λ e. clear-Same i c) (λ e. refl)
