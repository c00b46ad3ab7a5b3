-- ===== src/File/Send/Refining.antt =====
-- `/sendfile` goes along the machine of Phase.
pub mod Ticks
use tcpclient.Base.{
  if-holds, option-holds, ◌==◌, Bytes, ℕ, ◌+◌, ◌^◌, ◌<◌, ◌≡◌, refl, sym, inl, inr, Bool, true,
  false, not, some, arith,
}
use tcpclient.System.{
  Log, Os, usage_sendfile, already_sending, cannot_read, empty_file, cannot_open, opened_rb,
}
use tcpclient.Utils.{max_username_len, max_filename_len, decimal}
use tcpclient.Commands.{commands_parse_sendfile}
use tcpclient.Protocol.{protocol_build_text3}
use tcpclient.Protocol.MsgType
use tcpclient.Client.{SendTask, no_send, Client, put_send, pending_tid}
use tcpclient.Ui.{emit, send_frame, ui_print}
use tcpclient.File.Send.{
  progress_interval, send_task_clear, start_sending, close_with, offer_opened, file_cmd_sendfile,
}
use tcpclient.File.Send.Phase.{Event, Follows, phase-free, same-Follows, submits}

-- `ftell` answers a `long`.
abbrev pub Sizes : Os → Type 0
Sizes os = (log : Log) (n : ℕ) → os.ftell log ≡ some n → n < 2 ^ 63

-- What a call does to the send task.
abbrev pub Along : Event → Client → Client → Type 0
Along e c d = Follows e c.send_task d.send_task

abbrev AlongResult : Client → Client × Bool → Type 0
AlongResult c r = Along submits c r.0

-- A call that leaves the task alone.
kept : (c : Client) (r : Client × Bool) → r.0.send_task ≡ c.send_task → AlongResult c r
kept c r e = same-Follows submits c.send_task c.send_task r.0.send_task e (λ h. (h, inl refl))

-- A task that was not busy before is cleared again.
cleared : (c d : Client) → c.send_task.busy ≡ false → Along submits c (send_task_clear d)
unfolding send_task_clear
cleared c d e h = (tt, inl (sym (phase-free c.send_task e)))

start_sending-Along :
    (os : Os) (target filename : Bytes) (size : ℕ) (c : Client)
    → c.send_task.busy ≡ false
    → 0 < size
    → size < 2 ^ 63
    → AlongResult c (start_sending os target filename size c)
unfolding start_sending send_frame
start_sending-Along os target filename size c h pos lt =
    let t : SendTask = record no_send {
      busy = true;
      state = pending_tid;
      fp = true;
      size = size;
      next_progress_mark = progress_interval;
      target = target;
      filename = filename;
    } in
    let c1 : Client = put_send c t in
    option-holds (AlongResult c)
      (protocol_build_text3 MsgType.file_init target filename (decimal size) (5 + 32 + 256 + 32))
      (cleared c c1 h)
      (λ built e.
        if-holds (AlongResult c) (not (send_frame os built c1).1)
          (λ e. cleared c (send_frame os built c1).0 h)
          (λ e. λ k. (((pos, lt), refl, refl), inr (phase-free c.send_task h, (size, pos, refl)))))

offer_opened-Along :
    (os : Os) (target filename : Bytes) (c : Client)
    → Sizes os
    → c.send_task.busy ≡ false
    → AlongResult c (offer_opened os target filename c)
unfolding offer_opened
offer_opened-Along os target filename c sizes h =
    if-holds (AlongResult c) (not (os.seek_end c.log)) (λ e. kept c (close_with cannot_read c) refl)
      (λ e.
        option-holds (AlongResult c) (os.ftell c.log) (kept c (close_with cannot_read c) refl)
          (λ size told.
            if-holds (AlongResult c) (not (os.seek_start c.log))
              (λ e. kept c (close_with cannot_read c) refl)
              (λ e.
                if-holds (AlongResult c) (size == 0) (λ e. kept c (close_with empty_file c) refl)
                  (λ e.
                    start_sending-Along os target filename size c h (ground arith)
                      (sizes c.log size told)))))

pub file_cmd_sendfile-Along :
    (os : Os) (text : Bytes) (c : Client)
    → Sizes os
    → Along submits c (file_cmd_sendfile os text c).0
unfolding file_cmd_sendfile
file_cmd_sendfile-Along os text c sizes =
    option-holds (AlongResult c) (commands_parse_sendfile text max_username_len max_filename_len)
      (kept c (ui_print usage_sendfile c, true) refl)
      (λ names e.
        if-holds (AlongResult c) c.send_task.busy
          (λ h. kept c (ui_print already_sending c, true) refl)
          (λ h.
            if-holds (AlongResult c) (not (os.fopen_rb c.log (names.1)))
              (λ k. kept c (ui_print (cannot_open (names.1)) c, true) refl)
              (λ k.
                offer_opened-Along os (names.0) (names.1) (emit (opened_rb (names.1)) c) sizes h)))
