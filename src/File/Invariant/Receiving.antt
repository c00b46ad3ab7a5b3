-- ===== src/File/Invariant/Receiving.antt =====
-- The operations of Tasks keep the invariant.
use tcpclient.Base.{
  if-holds, option-holds, ◌==◌, length, set, ℕ, ◌+◌, ◌%◌, ◌^◌, ◌<◌, ◌≡◌, refl, sym, ap, inl, true,
  some, [], arith,
}
use tcpclient.System.{Notice, Os, saved, incomplete, reception_full}
use tcpclient.Client.{RecvTask, no_recv, Client, slot, put_slot}
use tcpclient.Protocol.MsgType
use tcpclient.Ui.{ui_print}
use tcpclient.File.Storage.{stored_since}
use tcpclient.File.Tasks.{
  has_tid, is_free, recv_task_find, recv_task_slot, recv_task_finish, recv_task_complete,
  send_tid_unchecked, recv_task_abort, recv_task_reject, recv_announce_incoming,
}
use tcpclient.File.Invariant.{map_weight, IsValid, IsValidBut}
use tcpclient.File.Invariant.Slots.{slot-TaskOk, find_lem, free-zeroed}
use tcpclient.File.Invariant.Basic.{
  restate, loosen, put_slot-IsValid, put_slot-IsValidBut, recv_task_clear-settles,
  recv_task_clear-IsValid, Quiet-IsValid, Quiet-IsValidBut, quiet,
}
use tcpclient.File.Invariant.Output.{send_tid_unchecked-Quiet}

pub find-here :
    (tid : ℕ) (c : Client) {i : ℕ} → recv_task_find tid c ≡ some i → i < length c.recv_tasks
unfolding recv_task_find
find-here tid c e = (find_lem (has_tid tid) c.recv_tasks e).0

pub find-busy :
    (tid : ℕ) (c : Client) {i : ℕ} → recv_task_find tid c ≡ some i → (slot c i).busy ≡ true
unfolding recv_task_find
find-busy tid c {i} e = ground (arith, find_lem (has_tid tid) c.recv_tasks {i = i} e)

-- Clearing after output, whatever the slot holds.
pub recv_task_reject-settles :
    (os : Os) (i : ℕ) (why : Notice) (c : Client)
    → IsValidBut i c
    → IsValid (recv_task_reject os i why c)
unfolding recv_task_reject
recv_task_reject-settles os i why c v =
    let d : Client = ui_print why c in
    recv_task_clear-settles i (send_tid_unchecked os MsgType.file_reject (slot c i).tid d) (
      Quiet-IsValidBut i d (send_tid_unchecked os MsgType.file_reject (slot c i).tid d)
        (send_tid_unchecked-Quiet os MsgType.file_reject (slot c i).tid d)
        (Quiet-IsValidBut i c d (quiet c) v))

pub recv_task_abort-IsValid :
    (os : Os) (i : ℕ) (why : Notice) (c : Client)
    → IsValid c
    → i < length c.recv_tasks
    → IsValid (recv_task_abort os i why c)
unfolding recv_task_abort
recv_task_abort-IsValid os i why c v lt =
    let d : Client = send_tid_unchecked os MsgType.file_cancel (slot c i).tid c in
    recv_task_clear-settles i (ui_print why d) (
      Quiet-IsValidBut i d (ui_print why d) (quiet d) (
        Quiet-IsValidBut i c d (send_tid_unchecked-Quiet os MsgType.file_cancel (slot c i).tid c)
          (loosen i c v lt)))

pub recv_task_finish-IsValid :
    (i : ℕ) (c : Client) → IsValid c → i < length c.recv_tasks → IsValid (recv_task_finish i c)
unfolding recv_task_finish
recv_task_finish-IsValid i c v lt =
    let t : RecvTask = slot c i in
    let shown : Client = ui_print (saved t.tid t.save_name t.received) c in
    let short : Client = ui_print (incomplete t.tid t.received t.size) c in
    if-holds IsValid (t.received == t.size)
      (λ e. recv_task_clear-settles i (put_slot shown i (record t { save_name = [] })) (
        put_slot-IsValidBut shown i (record t { save_name = [] })
          (Quiet-IsValidBut i c shown (quiet c) (loosen i c v lt)) refl refl (inl refl)))
      (λ e.
        recv_task_clear-settles i short (Quiet-IsValidBut i c short (quiet c) (loosen i c v lt)))

pub recv_task_complete-IsValid :
    (tid : ℕ) (c : Client) → IsValid c → IsValid (recv_task_complete tid c)
unfolding recv_task_complete
recv_task_complete-IsValid tid c v = option-holds IsValid (recv_task_find tid c) v (λ i e.
    if-holds IsValid (slot c i).fp (λ h. recv_task_finish-IsValid i c v (find-here tid c e))
      (λ h. recv_task_clear-IsValid i c v (find-here tid c e)))

-- A free slot is taken by a pending task.
pub recv_announce_incoming-IsValid :
    (os : Os) (tid : ℕ) (c : Client) → IsValid c → IsValid (recv_announce_incoming os tid c)
unfolding recv_announce_incoming recv_task_slot
recv_announce_incoming-IsValid os tid c v =
    option-holds IsValid (recv_task_slot c)
      (Quiet-IsValid (ui_print reception_full c)
        (send_tid_unchecked os MsgType.file_reject tid (ui_print reception_full c))
        (send_tid_unchecked-Quiet os MsgType.file_reject tid (ui_print reception_full c))
        (Quiet-IsValid c (ui_print reception_full c) (quiet c) v))
      (λ i e. taken i (find_lem is_free c.recv_tasks e))
  where
    taken :
        (i : ℕ)
        → (i < length c.recv_tasks) × (is_free (slot c i) ≡ true)
        → IsValid (record c {
          recv_tasks =
              set c.recv_tasks i (record no_recv { busy = true; tid = tid; seq = c.recv_seq });
          recv_seq = (c.recv_seq + 1) % 2 ^ 64;
        })
    taken i (lt, free) =
        let t : RecvTask = record no_recv { busy = true; tid = tid; seq = c.recv_seq } in
        let idle : slot c i ≡ no_recv =
          free-zeroed (stored_since c.log) (slot c i) free
            (slot-TaskOk (stored_since c.log) c.recv_tasks i v.tasks) in
        restate (put_slot c i t) (record (put_slot c i t) { recv_seq = (c.recv_seq + 1) % 2 ^ 64 })
          (put_slot-IsValid c i t v lt (refl, refl, refl) (ap (λ (u : RecvTask). u.fp) (sym idle))
            (ap map_weight (sym idle)))
          refl refl (refl, refl, refl, refl, refl, refl)
