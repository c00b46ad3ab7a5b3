-- ===== src/File/Events/Withdrawing.antt =====
-- `/cancel` goes along the machine of Send/Phase.
use tcpclient.Ui.{ui_print}
use tcpclient.File.Invariant.Output.{send_tid-Quiet}
use tcpclient.Base.{
  if-holds, option-holds, if◌then◌else◌, Bool-cases, drop, Bytes, ℕ, ◌≡◌, refl, ◌∙◌, inl, inr, Bool,
  true, false, Option, none, some,
}
use tcpclient.System.{Os, usage_cancel, cancelled, no_such_transfer}
use tcpclient.Commands.{commands_parse_tid_arg}
use tcpclient.Protocol.MsgType
use tcpclient.Client.{no_send, Client}
use tcpclient.File.Announce.{cancelled}
use tcpclient.File.Tasks.{recv_task_find, recv_task_clear, send_tid}
use tcpclient.File.Send.{send_task_clear, send_task_matches}
use tcpclient.File.Events.{cancel_recv, cancel_send, file_cmd_cancel, on_rejected}
use tcpclient.File.Events.Untouched.{Same, clear-Same}
use tcpclient.File.Send.Phase.{Signal, over, nothing}
use tcpclient.File.Events.Signals.{withdrawn, Told, Same-Told, like-Told, on_rejected-by}

-- `/cancel` behind its argument.
abbrev cancelled_by : Os → ℕ → Client → Client
cancelled_by os tid c =
    (if send_task_matches tid c then cancel_send os tid c else cancel_recv os tid c).0

-- With the CANCEL frame sent, the task is treated as by a rejection of this id.
cancel_sent :
    (os : Os) (tid : ℕ) (c : Client)
    → (send_tid os MsgType.file_cancel tid c).1 ≡ true
    → Same (on_rejected tid c) (cancelled_by os tid c)
unfolding cancel_send cancel_recv on_rejected send_task_clear
cancel_sent os tid c sent =
    let d : Client = (send_tid os MsgType.file_cancel tid c).0 in
    let same : Same c d = (send_tid-Quiet os MsgType.file_cancel tid c).0 in
    if-holds (λ (r : Client × Bool). Same (on_rejected tid c) r.0) (send_task_matches tid c)
      {x = cancel_send os tid c} {y = cancel_recv os tid c}
      (λ m. rw m (
        if-holds (λ (r : Client × Bool). r.0.send_task ≡ no_send)
          (send_tid os MsgType.file_cancel tid c).1
          {x = (ui_print (cancelled tid) (send_task_clear d), true)} {y = (d, false)} (λ e. refl)
          (λ e. absurd (cc))))
      (λ m. rw m (
        option-holds (λ (r : Client × Bool). Same c r.0) (recv_task_find tid c)
          {x = (ui_print (no_such_transfer tid) c, true)} refl
          (λ i e.
            if-holds (λ (r : Client × Bool). Same c r.0) (send_tid os MsgType.file_cancel tid c).1
              {x = (ui_print (cancelled tid) (recv_task_clear i d), true)} {y = (d, false)}
              (λ e. clear-Same i d ∙ same) (λ e. same))))

cancel_unsent :
    (os : Os) (tid : ℕ) (c : Client)
    → (send_tid os MsgType.file_cancel tid c).1 ≡ false
    → Same c (cancelled_by os tid c)
unfolding cancel_send cancel_recv
cancel_unsent os tid c unsent =
    let d : Client = (send_tid os MsgType.file_cancel tid c).0 in
    let same : Same c d = (send_tid-Quiet os MsgType.file_cancel tid c).0 in
    let Kept : Client × Bool → Type 0 = λ r. Same c r.0 in
    if-holds Kept (send_task_matches tid c) {x = cancel_send os tid c} {y = cancel_recv os tid c}
      (λ m.
        if-holds Kept (send_tid os MsgType.file_cancel tid c).1
          {x = (ui_print (cancelled tid) (send_task_clear d), true)} {y = (d, false)}
          (λ e. absurd (cc)) (λ e. same))
      (λ m.
        option-holds Kept (recv_task_find tid c) {x = (ui_print (no_such_transfer tid) c, true)}
          refl
          (λ i e.
            if-holds Kept (send_tid os MsgType.file_cancel tid c).1
              {x = (ui_print (cancelled tid) (recv_task_clear i d), true)} {y = (d, false)}
              (λ e. absurd (cc)) (λ e. same)))

pub file_cmd_cancel-Told :
    (os : Os) (text : Bytes) (c : Client)
    → Told (withdrawn os text c) c (file_cmd_cancel os text c).0
unfolding file_cmd_cancel
file_cmd_cancel-Told os text c = by_answer (commands_parse_tid_arg (drop 7 text))
  where
    by_sent :
        (tid : ℕ)
        → Told
            (if (send_tid os MsgType.file_cancel tid c).1 then over tid else nothing)
            c
            (cancelled_by os tid c)
    by_sent tid = elim (Bool-cases (send_tid os MsgType.file_cancel tid c).1) [
      | inl e ↦ rw e (
          like-Told (over tid) c (on_rejected tid c) (cancelled_by os tid c)
            (cancel_sent os tid c e) (on_rejected-by tid c.send_task.busy c.send_task.state c))
      | inr e ↦ rw e (Same-Told c (cancelled_by os tid c) (cancel_unsent os tid c e))
    ]

    by_answer :
        (o : Option ℕ)
        → Told
            (elim o as (λ (x : Option ℕ). Signal) [
              | none ↦ nothing
              | some tid ↦ if (send_tid os MsgType.file_cancel tid c).1 then over tid else nothing
            ])
            c
            (elim o as (λ (x : Option ℕ). Client × Bool) [
              | none ↦ (ui_print usage_cancel c, true)
              | some tid ↦
                  if send_task_matches tid c then cancel_send os tid c else cancel_recv os tid c
            ]).0
    by_answer none = Same-Told c (ui_print usage_cancel c) refl
    by_answer (some tid) = by_sent tid
