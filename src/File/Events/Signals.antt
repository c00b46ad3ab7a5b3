-- ===== src/File/Events/Signals.antt =====
-- What the events tell the machine of Send/Phase, and that the send task follows each signal.
use tcpclient.Base.{
  ◌==◌, if◌then◌else◌, Bool-cases, drop, Bytes, ℕ, ◌≡◌, refl, ap, inl, inr, Bool, true, false, ◌&&◌,
  none, some, arith,
}
use tcpclient.System.{Os, accepted}
use tcpclient.Utils.{utils_read_u32_be}
use tcpclient.Commands.{commands_parse_tid_arg}
use tcpclient.Protocol.{err_no_such_user, err_transfer_state}
use tcpclient.Protocol.MsgType
use tcpclient.Client.{SendState, Client, idle, pending_tid, pending, active, done, wait_complete}
use tcpclient.File.Announce.{AnnKind, file_parse_announcement, sending}
use tcpclient.File.Tasks.{send_tid}
use tcpclient.File.Send.{send_task_clear, send_task_matches}
use tcpclient.File.Events.{is_state, on_accepted, on_rejected, on_announced}
use tcpclient.File.Events.Untouched.{Same}
use tcpclient.File.Send.Phase.{
  Signal, phase, IsSound, same-Follows, kept-Follows, free, sending, told_id, accepted, over,
  confirmed, unknown_user, stop, nothing, signals,
}
use tcpclient.File.Send.Refining.{Along}
use tcpclient.File.Send.Refining.Ticks.{with_flags}

-- What an announcement tells the send task.
abbrev pub announces : AnnKind → ℕ → Signal
announces AnnKind.sending tid = told_id tid
announces AnnKind.taken tid = accepted tid
announces AnnKind.refused tid = over tid
announces AnnKind.cancelled tid = over tid
announces AnnKind.disconnected tid = over tid
announces AnnKind.complete tid = confirmed tid
announces AnnKind.incoming tid = nothing

abbrev pub announced : Bytes → Signal
announced text = elim (file_parse_announcement text) [
  | none ↦ nothing
  | some (kind, tid) ↦ announces kind tid
]

-- What a control frame of four bytes tells it.
abbrev pub controls : ℕ → ℕ → Signal
controls msg_type tid =
    if msg_type == MsgType.file_accept
    then accepted tid
    else if msg_type == MsgType.file_reject
    then over tid
    else if msg_type == MsgType.file_cancel
    then over tid
    else nothing

abbrev pub framed : ℕ → Bytes → ℕ → Signal
framed msg_type payload plen =
    if plen == 4 then controls msg_type (utils_read_u32_be payload) else nothing

abbrev pub failed_with : ℕ → Signal
failed_with code =
    if code == err_no_such_user
    then unknown_user
    else if code == err_transfer_state
    then stop
    else nothing

-- `/cancel` ends a transfer if its CANCEL frame can be sent.
abbrev pub withdrawn : Os → Bytes → Client → Signal
withdrawn os text c = elim (commands_parse_tid_arg (drop 7 text)) [
  | none ↦ nothing
  | some tid ↦ if (send_tid os MsgType.file_cancel tid c).1 then over tid else nothing
]

abbrev pub Told : Signal → Client → Client → Type 0
Told g c d = Along (signals g) c d

pub Same-Told : (c d : Client) → Same c d → Told nothing c d
Same-Told c d e = kept-Follows c.send_task d.send_task e

-- To leave the task as `d` does.
pub like-Told : (g : Signal) (c d e : Client) → Same d e → Told g c d → Told g c e
like-Told g c d e same f = same-Follows (signals g) c.send_task d.send_task e.send_task same f

pub if-Same :
    (b : Bool) (x y z : Client) → Same y z → Same (if b then x else y) (if b then x else z)
if-Same true x y z e = refl
if-Same false x y z e = e

-- The task is not in the state that the test asks for.
not_now : (b : Bool) (x y : Client) → (if b && false then x else y) ≡ y
not_now true x y = refl
not_now false x y = refl

-- The task is cleared, or stays.
ended_if :
    (b : Bool) (c : Client)
    → IsSound c.send_task
    → IsSound (if b then send_task_clear c else c).send_task
      × (phase (if b then send_task_clear c else c).send_task
          ≡ (if b then free else phase c.send_task))
unfolding send_task_clear
ended_if true c h = (tt, refl)
ended_if false c h = (h, refl)

pub on_accepted-by :
    (tid : ℕ) (b : Bool) (s : SendState) (c : Client)
    → Told (accepted tid) (with_flags b s c) (on_accepted tid (with_flags b s c))
unfolding on_accepted
on_accepted-by tid false s c h = (tt, refl)
on_accepted-by tid true idle c h = absurd h
on_accepted-by tid true pending c h = elim (Bool-cases (c.send_task.tid == tid)) [
  | inl e ↦
      rw e
        ((h.0, (0, omega (arith, h.1))), ap (λ n. sending c.send_task.tid c.send_task.size n) (h.1))
  | inr e ↦ rw e (h, refl)
]
on_accepted-by tid true pending_tid c h = rw not_now (h, refl)
on_accepted-by tid true active c h = rw not_now (h, refl)
on_accepted-by tid true done c h = rw not_now (h, refl)
on_accepted-by tid true wait_complete c h = rw not_now (h, refl)

pub on_announced-by :
    (tid : ℕ) (b : Bool) (s : SendState) (c : Client)
    → Told (told_id tid) (with_flags b s c) (on_announced tid (with_flags b s c))
unfolding on_announced
on_announced-by tid false s c h = (tt, refl)
on_announced-by tid true idle c h = absurd h
on_announced-by tid true pending_tid c h = ((h.0, h.1), refl)
on_announced-by tid true pending c h = (h, refl)
on_announced-by tid true active c h = (h, refl)
on_announced-by tid true done c h = (h, refl)
on_announced-by tid true wait_complete c h = (h, refl)

pub on_rejected-by :
    (tid : ℕ) (b : Bool) (s : SendState) (c : Client)
    → Told (over tid) (with_flags b s c) (on_rejected tid (with_flags b s c))
unfolding on_rejected send_task_clear
on_rejected-by tid false s c h = (tt, refl)
on_rejected-by tid true idle c h = absurd h
on_rejected-by tid true pending_tid c h =
    let no_id : (c.send_task.tid == tid) ≡ (0 == tid) = ap (λ n. n == tid) (h.2) in
    rw no_id (ended_if (0 == tid) (with_flags true pending_tid c) h)
on_rejected-by tid true pending c h =
    ended_if (c.send_task.tid == tid) (with_flags true pending c) h
on_rejected-by tid true active c h = ended_if (c.send_task.tid == tid) (with_flags true active c) h
on_rejected-by tid true done c h = ended_if (c.send_task.tid == tid) (with_flags true done c) h
on_rejected-by tid true wait_complete c h =
    ended_if (c.send_task.tid == tid) (with_flags true wait_complete c) h

-- The confirmation, without what it does to the receptions.
abbrev pub confirm : ℕ → Client → Client
confirm tid c =
    if send_task_matches tid c && is_state c.send_task.state wait_complete
    then send_task_clear c
    else c

pub confirm-by :
    (tid : ℕ) (b : Bool) (s : SendState) (c : Client)
    → Told (confirmed tid) (with_flags b s c) (confirm tid (with_flags b s c))
unfolding send_task_clear
confirm-by tid false s c h = (tt, refl)
confirm-by tid true idle c h = absurd h
confirm-by tid true wait_complete c h = elim (Bool-cases (c.send_task.tid == tid)) [
  | inl e ↦ rw e (tt, refl)
  | inr e ↦ rw e (h, refl)
]
confirm-by tid true pending_tid c h = rw not_now (h, refl)
confirm-by tid true pending c h = rw not_now (h, refl)
confirm-by tid true active c h = rw not_now (h, refl)
confirm-by tid true done c h = rw not_now (h, refl)
