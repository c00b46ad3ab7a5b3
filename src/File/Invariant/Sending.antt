-- ===== src/File/Invariant/Sending.antt =====
-- `/sendfile` and the periodic sending keep the invariant.
use tcpclient.Base.{
  if-holds, option-holds, ltb, leb, ◌==◌, length, Bytes, ℕ, zero, suc, ◌+◌, ◌*◌, ◌/◌, ◌%◌, ◌^◌, ◌≡◌,
  refl, ap, Bool, true, false, not, arith,
}
use tcpclient.System.{
  Notice, Os, usage_sendfile, already_sending, cannot_read, empty_file, read_failed, cannot_open,
  submitted, progress, opened_rb, read,
}
use tcpclient.Protocol.MsgType
use tcpclient.Commands.{commands_parse_sendfile}
use tcpclient.Protocol.{protocol_build_text3, protocol_build_chunk}
use tcpclient.Utils.{max_username_len, max_filename_len, decimal}
use tcpclient.Client.{
  SendState, SendTask, no_send, Client, put_send, idle, pending_tid, pending, active, done,
  wait_complete,
}
use tcpclient.Ui.{emit, send_frame, ui_print, ui_display_incoming}
use tcpclient.File.Chunks.{chunk_data_max, file_chunk_plan}
use tcpclient.File.Tasks.{send_tid_unchecked, send_tid}
use tcpclient.File.Send.{
  chunks_per_round, progress_interval, start_sending, close_with, offer_opened, file_cmd_sendfile,
  show_progress, Round, send_chunk, send_round, send_rounds, send_complete, tick_in, file_send_tick,
  continue, return,
}
use tcpclient.File.Invariant.{fp_weight, SendKind, IsValid}
use tcpclient.File.Invariant.Basic.{
  restate, send_task_clear-IsValid, put_send-IsValid, sending_fp, Quiet-IsValid, quiet,
}
use tcpclient.File.Invariant.Output.{
  send_frame-Quiet, ui_display_incoming-Quiet, send_tid_unchecked-Quiet, send_tid-Quiet,
}

abbrev Fine : Client × Bool → Type 0
Fine r = IsValid r.0

-- The handle that `/sendfile` opened goes into the task.
register-IsValid :
    (c : Client) (path : Bytes) (t : SendTask)
    → IsValid c
    → c.send_task.busy ≡ false
    → t.busy ≡ true
    → t.fp ≡ true
    → IsValid (put_send (emit (opened_rb path) c) t)
register-IsValid c path t v idle_before hb hf = record {
  slots = v.slots;
  tasks = v.tasks;
  single = v.single;
  handles = omega (arith, v.handles, ap fp_weight hf, ap (λ (s : SendTask). fp_weight s.fp) zeroed);
  maps = v.maps;
  sending = rw hb hf;
  paths = v.paths;
}
  where
    zeroed : c.send_task ≡ no_send
    zeroed = by_flag c.send_task.busy idle_before v.sending
      where
        by_flag : (b : Bool) → b ≡ false → SendKind b c.send_task → c.send_task ≡ no_send
        by_flag true e k = absurd (cc)
        by_flag false e k = k

start_sending-IsValid :
    (os : Os) (target filename path : Bytes) (size : ℕ) (c : Client)
    → IsValid c
    → c.send_task.busy ≡ false
    → IsValid (start_sending os target filename size (emit (opened_rb path) c)).0
unfolding start_sending
start_sending-IsValid os target filename path size c v h =
    let t : SendTask = record no_send {
      busy = true;
      state = pending_tid;
      fp = true;
      size = size;
      next_progress_mark = progress_interval;
      target = target;
      filename = filename;
    } in
    let c1 : Client = put_send (emit (opened_rb path) c) t in
    let v1 : IsValid c1 = register-IsValid c path t v h refl refl in
    option-holds Fine
      (protocol_build_text3 MsgType.file_init target filename (decimal size) (5 + 32 + 256 + 32))
      (send_task_clear-IsValid c1 v1)
      (λ built e.
        let d : Client = (send_frame os built c1).0 in
        let w : IsValid d = Quiet-IsValid c1 d (send_frame-Quiet os built c1) v1 in
        if-holds Fine (not (send_frame os built c1).1) (λ e. send_task_clear-IsValid d w)
          (λ e. Quiet-IsValid d (ui_print (submitted filename size target) d) (quiet d) w))

close_with-IsValid :
    (why : Notice) (path : Bytes) (c : Client)
    → IsValid c
    → IsValid (close_with why (emit (opened_rb path) c)).0
close_with-IsValid why path c v = record {
  slots = v.slots;
  tasks = v.tasks;
  single = v.single;
  handles = omega (arith, v.handles);
  maps = v.maps;
  sending = v.sending;
  paths = v.paths;
}

pub file_cmd_sendfile-IsValid :
    (os : Os) (text : Bytes) (c : Client) → IsValid c → IsValid (file_cmd_sendfile os text c).0
unfolding file_cmd_sendfile offer_opened
file_cmd_sendfile-IsValid os text c v =
    option-holds Fine (commands_parse_sendfile text max_username_len max_filename_len)
      (Quiet-IsValid c (ui_print usage_sendfile c) (quiet c) v)
      (λ names e.
        let path : Bytes = names.1 in
        let d : Client = emit (opened_rb path) c in
        if-holds Fine c.send_task.busy
          (λ h. Quiet-IsValid c (ui_print already_sending c) (quiet c) v)
          (λ h.
            if-holds Fine (not (os.fopen_rb c.log path))
              (λ k. Quiet-IsValid c (ui_print (cannot_open path) c) (quiet c) v)
              (λ k.
                if-holds Fine (not (os.seek_end d.log))
                  (λ e. close_with-IsValid cannot_read path c v)
                  (λ e.
                    option-holds Fine (os.ftell d.log) (close_with-IsValid cannot_read path c v)
                      (λ size e.
                        if-holds Fine (not (os.seek_start d.log))
                          (λ e. close_with-IsValid cannot_read path c v)
                          (λ e.
                            if-holds Fine (size == 0) (λ e. close_with-IsValid empty_file path c v)
                              (λ e. start_sending-IsValid os (names.0) path path size c v h)))))))

-- What a round leaves.
abbrev RoundOk : Round → Type 0
RoundOk (continue c) = IsValid c × (c.send_task.busy ≡ true)
RoundOk (return r) = IsValid r.0

round-holds :
    (r : Round) (f : Client → Client × Bool)
    → RoundOk r
    → ((c : Client) → IsValid c → c.send_task.busy ≡ true → Fine (f c))
    → Fine (elim r [ continue c' ↦ f c' | return r ↦ r ])
round-holds (continue c) f h k = k c h.0 h.1
round-holds (return r) f h k = h

show_progress-IsValid :
    (c : Client)
    → IsValid c
    → c.send_task.busy ≡ true
    → IsValid (show_progress c) × ((show_progress c).send_task.busy ≡ true)
unfolding show_progress
show_progress-IsValid c v h =
    let s : SendTask = c.send_task in
    let text : Notice = progress s.tid s.sent s.size (s.sent * 100 % 2 ^ 64 / s.size % 2 ^ 32) in
    let d : Client = ui_display_incoming text c in
    let (es, er, f) = ui_display_incoming-Quiet text c in
    if-holds (λ (d : Client). IsValid d × (d.send_task.busy ≡ true))
      (leb s.next_progress_mark s.sent)
      (λ e. (
        put_send-IsValid d
            (record s { next_progress_mark = (s.next_progress_mark + progress_interval) % 2 ^ 64 })
            (Quiet-IsValid c d (es, er, f) v) h (sending_fp c v h) (rw es (sending_fp c v h)),
        h,
      ))
      (λ e. (v, h))

send_chunk-RoundOk :
    (os : Os) (offset len : ℕ) (c : Client)
    → IsValid c
    → c.send_task.busy ≡ true
    → RoundOk (send_chunk os offset len c)
unfolding send_chunk
send_chunk-RoundOk os offset len c v h =
    let s : SendTask = c.send_task in
    let bytes : Bytes = os.fread c.log len in
    let c1 : Client = emit (read len) c in
    let v1 : IsValid c1 = restate c c1 v refl refl (refl, refl, refl, refl, refl, refl) in
    let d1 : Client = ui_print read_failed c1 in
    let d2 : Client = send_tid_unchecked os MsgType.file_cancel s.tid d1 in
    if-holds RoundOk (not (length bytes == len))
      (λ e. send_task_clear-IsValid d2 (
        Quiet-IsValid d1 d2 (send_tid_unchecked-Quiet os MsgType.file_cancel s.tid d1)
          (Quiet-IsValid c1 d1 (quiet c1) v1)))
      (λ e.
        option-holds RoundOk (protocol_build_chunk s.tid offset bytes (5 + 12 + chunk_data_max))
          (send_task_clear-IsValid c1 v1)
          (λ built e.
            let d : Client = (send_frame os built c1).0 in
            let (es, er, f) = send_frame-Quiet os built c1 in
            let w : IsValid d = Quiet-IsValid c1 d (es, er, f) v1 in
            let t : SendTask = record s { sent = s.sent + len } in
            if-holds RoundOk (not (send_frame os built c1).1) (λ e. send_task_clear-IsValid d w)
              (λ e.
                show_progress-IsValid (put_send d t)
                  (put_send-IsValid d t w h (sending_fp c v h) (rw es (sending_fp c v h))) h)))

send_rounds-IsValid :
    (os : Os) (rounds : ℕ) (c : Client)
    → IsValid c
    → c.send_task.busy ≡ true
    → IsValid (send_rounds os rounds c).0
unfolding send_rounds send_round
send_rounds-IsValid os zero c v h =
    if-holds IsValid (leb c.send_task.size c.send_task.sent)
      (λ e.
        put_send-IsValid c (record (c.send_task) { state = done }) v h (sending_fp c v h)
          (sending_fp c v h))
      (λ e. v)
send_rounds-IsValid os (suc rounds) c v h =
    if-holds Fine (ltb c.send_task.sent c.send_task.size)
      (λ e.
        round-holds (send_round os c) (λ c'. send_rounds os rounds c')
          (option-holds RoundOk
            (file_chunk_plan c.send_task.size chunk_data_max (c.send_task.sent / chunk_data_max))
            (send_task_clear-IsValid c v) (λ plan e. send_chunk-RoundOk os (plan.0) (plan.1) c v h))
          (λ c' w hb. send_rounds-IsValid os rounds c' w hb))
      (λ e.
        put_send-IsValid c (record (c.send_task) { state = done }) v h (sending_fp c v h)
          (sending_fp c v h))

send_complete-IsValid :
    (os : Os) (c : Client) → IsValid c → c.send_task.busy ≡ true → IsValid (send_complete os c).0
unfolding send_complete
send_complete-IsValid os c v h =
    let d : Client = (send_tid os MsgType.file_complete c.send_task.tid c).0 in
    let (es, er, f) = send_tid-Quiet os MsgType.file_complete c.send_task.tid c in
    let w : IsValid d = Quiet-IsValid c d (es, er, f) v in
    let hf : d.send_task.fp ≡ true = rw es (sending_fp c v h) in
    if-holds Fine (send_tid os MsgType.file_complete c.send_task.tid c).1
      (λ e. put_send-IsValid d (record (d.send_task) { state = wait_complete }) w (rw es h) hf hf)
      (λ e. w)

pub file_send_tick-IsValid : (os : Os) (c : Client) → IsValid c → IsValid (file_send_tick os c).0
unfolding file_send_tick tick_in
file_send_tick-IsValid os c v =
    if-holds Fine (not c.send_task.busy) (λ e. v) (λ e. by_state c.send_task.state (ground arith))
  where
    by_state : (s : SendState) → c.send_task.busy ≡ true → IsValid (tick_in s os c).0
    by_state idle h = v
    by_state pending_tid h = v
    by_state pending h = v
    by_state active h = send_rounds-IsValid os chunks_per_round c v h
    by_state done h = send_complete-IsValid os c v h
    by_state wait_complete h = v
