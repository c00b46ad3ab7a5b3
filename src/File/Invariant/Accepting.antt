-- ===== src/File/Invariant/Accepting.antt =====
-- `/accept` and `/reject` keep the invariant.
use tcpclient.Commands.{commands_parse_tid_arg}
use tcpclient.Utils.{max_filename_len}
use tcpclient.File.Invariant.Opening.{Ready, open_target-IsValid}
use tcpclient.Base.{
  option-holds_either, if-holds, option-holds, ◌==◌, length, drop, All, get_or-set_self, Bytes, ℕ,
  ◌<◌, ◌≡◌, refl, ap, inl, inr, Bool, true, false, not, ◌&&◌, none, some, List, [], ◌∷◌, arith,
}
use tcpclient.System.{
  Os, usage_accept, usage_reject, no_such_transfer, zero_size, bad_filename, no_save_name,
  no_download_dir, already_active, already_receiving, not_ready, use_cancel, rejected,
}
use tcpclient.Protocol.MsgType
use tcpclient.Client.{RecvTask, no_recv, Client, slot, put_slot}
use tcpclient.Ui.{ui_print}
use tcpclient.File.Names.{file_basename_sanitize, file_unique_name}
use tcpclient.File.Paths.{IsEntry, chosen-IsEntry}
use tcpclient.File.Storage.{stored_since}
use tcpclient.File.Tasks.{is_active, recv_task_find, recv_task_active, send_tid}
use tcpclient.File.Receive.{
  recv_name_taken, make_dir, make_dir_inv, choose_name, accept_task, file_cmd_accept, reject_task,
  file_cmd_reject,
}
use tcpclient.File.Invariant.{weigh, fp_weight, handle_weight, Kind, TaskOk, IsValid, IsValidBut}
use tcpclient.File.Invariant.Slots.{weigh-set, slot-TaskOk, find_none}
use tcpclient.File.Invariant.Basic.{
  loosen, put_slot-IsValidBut, recv_task_clear-IsValid, Quiet-IsValid, quiet,
}
use tcpclient.File.Invariant.Output.{send_tid-Quiet}
use tcpclient.File.Invariant.Receiving.{find-here, find-busy, recv_task_reject-settles}

-- No task is active, so the slots' predicate does not depend on what is stored.
none_active :
    (c : Client)
    → recv_task_active c ≡ none
    → All (TaskOk (stored_since c.log)) c.recv_tasks
    → weigh handle_weight c.recv_tasks ≡ 0
unfolding recv_task_active
none_active c e h = by_tasks c.recv_tasks (find_none is_active c.recv_tasks 0 e) h
  where
    by_tasks :
        (ts : List RecvTask)
        → All (λ t. is_active t ≡ false) ts
        → All (TaskOk (stored_since c.log)) ts
        → weigh handle_weight ts ≡ 0
    by_tasks [] k h = refl
    by_tasks (t ∷ ts) k h = omega (arith, idle_weight t k.0 h.0, by_tasks ts k.1 h.1)
      where
        idle_weight :
            (t : RecvTask)
            → is_active t ≡ false
            → TaskOk (stored_since c.log) t
            → handle_weight t ≡ 0
        idle_weight t k h = by_flag t.busy t.fp k h
          where
            by_flag :
                (b f : Bool) → (b && f) ≡ false → Kind b f (stored_since c.log) t → fp_weight f ≡ 0
            by_flag b false k h = refl
            by_flag false true k h = absurd h
            by_flag true true k h = absurd (cc)

make_dir-IsValidBut :
    (os : Os) (i : ℕ) (c d : Client)
    → IsValidBut i c
    → make_dir os c ≡ some d
    → IsValidBut i d × (d.recv_tasks ≡ c.recv_tasks)
make_dir-IsValidBut os i c d v e = elim (make_dir_inv os c d e) [
  | inl same ↦ rw same (v, refl)
  | inr made ↦ rw made (
    record {
      slots = v.slots;
      here = v.here;
      named = v.named;
      tasks = v.tasks;
      single = v.single;
      handles = v.handles;
      maps = v.maps;
      sending = v.sending;
      paths = (refl, v.paths);
    },
    refl,
  )
]

choose_name-IsValid :
    (os : Os) (i tid : ℕ) (c : Client)
    → IsValid c
    → i < length c.recv_tasks
    → weigh handle_weight c.recv_tasks ≡ 0
    → Ready (slot c i)
    → IsValid (choose_name os i tid c).0
unfolding choose_name
choose_name-IsValid os i tid c v lt none_open (hb, hi, hf, hm, hr, hs) =
    option-holds (λ (r : Client × Bool). IsValid r.0)
      (file_basename_sanitize (slot c i).filename max_filename_len)
      (recv_task_reject-settles os i bad_filename c (loosen i c v lt))
      (λ base e.
        option-holds (λ (r : Client × Bool). IsValid r.0)
          (file_unique_name base (recv_name_taken os c.log) max_filename_len)
          (recv_task_reject-settles os i no_save_name c (loosen i c v lt))
          (λ name e'.
            let t1 : RecvTask = record (slot c i) { save_name = name } in
            let hn : IsEntry name =
              chosen-IsEntry (slot c i).filename (recv_name_taken os c.log) max_filename_len e e' in
            let c1 : Client = put_slot c i t1 in
            let v1 : IsValidBut i c1 =
              put_slot-IsValidBut c i t1 (loosen i c v lt) refl refl (inr hn) in
            let here : slot c1 i ≡ t1 = get_or-set_self c.recv_tasks i t1 no_recv lt in
            let none_open1 : weigh handle_weight c1.recv_tasks ≡ 0 =
              omega
                (arith, none_open, weigh-set handle_weight c.recv_tasks i t1 lt, ap fp_weight hf) in
            option-holds (λ (r : Client × Bool). IsValid r.0) (make_dir os c1)
              (recv_task_reject-settles os i no_download_dir c1 v1)
              (λ c2 h.
                let (v2, er) = make_dir-IsValidBut os i c1 c2 v1 h in
                open_target-IsValid os i tid c2 v2 (rw er none_open1)
                  (rw (er, here) (hb, hi, hf, hm, hr, hs)) (rw (er, here) hn))))

accept_task-IsValid :
    (os : Os) (i tid : ℕ) (c : Client)
    → IsValid c
    → i < length c.recv_tasks
    → (slot c i).busy ≡ true
    → IsValid (accept_task os i tid c).0
unfolding accept_task
accept_task-IsValid os i tid c v lt hb =
    if-holds (λ (r : Client × Bool). IsValid r.0) (slot c i).fp
      (λ e. Quiet-IsValid c (ui_print already_active c) (quiet c) v)
      (λ hf.
        option-holds_either (λ (r : Client × Bool). IsValid r.0) (recv_task_active c)
          (λ none_found.
            if-holds (λ (r : Client × Bool). IsValid r.0) (not (slot c i).inited)
              (λ e. Quiet-IsValid c (ui_print not_ready c) (quiet c) v)
              (λ hi.
                if-holds (λ (r : Client × Bool). IsValid r.0) ((slot c i).size == 0)
                  (λ e. recv_task_reject-settles os i zero_size c (loosen i c v lt))
                  (λ hs.
                    let k = slot-TaskOk (stored_since c.log) c.recv_tasks i v.tasks in
                    let p : Kind true false (stored_since c.log) (slot c i) = rw (hb, hf) at k in
                    choose_name-IsValid os i tid c v lt (none_active c none_found v.tasks)
                      (hb, ground arith, hf, p.0, p.2, ground arith))))
          (λ j found. Quiet-IsValid c (ui_print already_receiving c) (quiet c) v))

pub file_cmd_accept-IsValid :
    (os : Os) (text : Bytes) (c : Client) → IsValid c → IsValid (file_cmd_accept os text c).0
unfolding file_cmd_accept
file_cmd_accept-IsValid os text c v =
    option-holds (λ (r : Client × Bool). IsValid r.0) (commands_parse_tid_arg (drop 7 text))
      (Quiet-IsValid c (ui_print usage_accept c) (quiet c) v)
      (λ tid e.
        option-holds (λ (r : Client × Bool). IsValid r.0) (recv_task_find tid c)
          (Quiet-IsValid c (ui_print (no_such_transfer tid) c) (quiet c) v)
          (λ i found.
            accept_task-IsValid os i tid c v (find-here tid c found) (find-busy tid c found)))

pub file_cmd_reject-IsValid :
    (os : Os) (text : Bytes) (c : Client) → IsValid c → IsValid (file_cmd_reject os text c).0
unfolding file_cmd_reject reject_task
file_cmd_reject-IsValid os text c v =
    option-holds (λ (r : Client × Bool). IsValid r.0) (commands_parse_tid_arg (drop 7 text))
      (Quiet-IsValid c (ui_print usage_reject c) (quiet c) v)
      (λ tid e.
        option-holds (λ (r : Client × Bool). IsValid r.0) (recv_task_find tid c)
          (Quiet-IsValid c (ui_print (no_such_transfer tid) c) (quiet c) v)
          (λ i found.
            if-holds (λ (r : Client × Bool). IsValid r.0) (slot c i).fp
              (λ e. Quiet-IsValid c (ui_print (use_cancel tid) c) (quiet c) v)
              (λ e.
                let d : Client = (send_tid os MsgType.file_reject tid c).0 in
                let (es, er, f) = send_tid-Quiet os MsgType.file_reject tid c in
                let w : IsValid d = Quiet-IsValid c d (es, er, f) v in
                if-holds (λ (r : Client × Bool). IsValid r.0)
                  (send_tid os MsgType.file_reject tid c).1
                  (λ e.
                    recv_task_clear-IsValid i (ui_print (rejected tid) d)
                      (Quiet-IsValid d (ui_print (rejected tid) d) (quiet d) w)
                      (rw er (find-here tid c found)))
                  (λ e. w))))
