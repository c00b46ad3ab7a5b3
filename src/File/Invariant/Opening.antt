-- ===== src/File/Invariant/Opening.antt =====
-- The end of `/accept`, from the map on, keeps the invariant.
use tcpclient.File.Storage.Growth.{Tracks-start}
use tcpclient.File.Invariant.Storing.{Tracks-TaskOk}
use tcpclient.Base.{
  if-holds, option-holds, length, set, replicate, length-set, get_or-set_self, All-set, Bytes, ℕ,
  ◌+◌, ◌/◌, ◌<◌, ◌≡◌, refl, sym, ap, ◌∙◌, inr, Bool, true, false, not, Option, none, some, [],
  arith,
}
use tcpclient.System.{Os, too_big, path_too_long, cannot_create, accepted, opened_wb, allocated}
use tcpclient.Client.{RecvTask, no_recv, Client, slot, put_slot}
use tcpclient.Ui.{emit, ui_print}
use tcpclient.File.Names.{file_join_path}
use tcpclient.File.Chunks.{chunk_data_max, file_chunk_count}
use tcpclient.File.Storage.{stored_since}
use tcpclient.File.Paths.{IsEntry, IsDownload, IsSaveName, join-IsDownload}
use tcpclient.File.Tasks.{download_dir, path_size, send_tid}
use tcpclient.File.Receive.{confirm_accept, open_target}
use tcpclient.File.Invariant.{
  weigh, fp_weight, handle_weight, map_weight, TaskOk, IsValid, IsValidBut,
}
use tcpclient.File.Invariant.Slots.{weigh-set, All-idle, set-set}
use tcpclient.File.Invariant.Basic.{
  put_slot-IsValidBut, recv_task_clear-IsValid, Quiet-IsValid, quiet,
}
use tcpclient.File.Invariant.Output.{send_tid-Quiet}
use tcpclient.File.Invariant.Receiving.{recv_task_reject-settles}
use tcpclient.Protocol.MsgType

-- A task that can be accepted: it is described, holds nothing, and no task is active.
abbrev pub Ready : RecvTask → Type 0
Ready t =
    (t.busy ≡ true)
    × (t.inited ≡ true)
    × (t.fp ≡ false)
    × (t.bitmap ≡ none)
    × (t.received ≡ 0)
    × (0 < t.size)

confirm_accept-IsValid :
    (os : Os) (i tid : ℕ) (c : Client)
    → IsValid c
    → i < length c.recv_tasks
    → IsValid (confirm_accept os i tid c).0
unfolding confirm_accept
confirm_accept-IsValid os i tid c v lt =
    let d : Client = (send_tid os MsgType.file_accept tid c).0 in
    let w = Quiet-IsValid c d (send_tid-Quiet os MsgType.file_accept tid c) v in
    let (es, er, f) = send_tid-Quiet os MsgType.file_accept tid c in
    if-holds (λ (r : Client × Bool). IsValid r.0) (send_tid os MsgType.file_accept tid c).1
      (λ e. Quiet-IsValid d (ui_print (accepted tid (slot d i).save_name) d) (quiet d) w)
      (λ e. recv_task_clear-IsValid i d w (rw er lt))

-- The task gets its map.
mapped_slot-IsValidBut :
    (c : Client) (i : ℕ) (t : RecvTask)
    → IsValidBut i c
    → t.fp ≡ (slot c i).fp
    → map_weight t ≡ 1
    → map_weight (slot c i) ≡ 0
    → IsSaveName t.save_name
    → IsValidBut i (put_slot (emit allocated c) i t)
mapped_slot-IsValidBut c i t v hf ht hs hn = record {
  slots = length-set c.recv_tasks i t ∙ v.slots;
  here = omega (arith, v.here, length-set c.recv_tasks i t);
  named = rw (get_or-set_self c.recv_tasks i t no_recv v.here) hn;
  tasks = rw (set-set c.recv_tasks i t no_recv) v.tasks;
  single = rw (set-set c.recv_tasks i t no_recv) v.single;
  handles =
      omega (arith, v.handles, weigh-set handle_weight c.recv_tasks i t v.here, ap fp_weight hf);
  maps = omega (arith, v.maps, weigh-set map_weight c.recv_tasks i t v.here, ht, hs);
  sending = v.sending;
  paths = v.paths;
}

-- The task gets its handle; the new file is empty.
opened_slot-IsValid :
    (c : Client) (i : ℕ) (path : Bytes) (t : RecvTask)
    → IsValidBut i c
    → weigh handle_weight c.recv_tasks ≡ 0
    → TaskOk [] t
    → t.fp ≡ true
    → map_weight t ≡ map_weight (slot c i)
    → IsDownload path
    → IsValid (put_slot (emit (opened_wb path) c) i t)
opened_slot-IsValid c i path t v none_open ok hf hm hp = record {
  slots = length-set c.recv_tasks i t ∙ v.slots;
  tasks = rw (← (set-set c.recv_tasks i no_recv t)) (
      All-set (TaskOk []) (set c.recv_tasks i no_recv) i t
        (All-idle (stored_since c.log) [] (set c.recv_tasks i no_recv)
          (omega (arith, none_open, weigh-set handle_weight c.recv_tasks i no_recv v.here)) v.tasks)
        ok);
  single =
      omega (arith, none_open, weigh-set handle_weight c.recv_tasks i t v.here, ap fp_weight hf);
  handles = omega (
    arith,
    v.handles,
    none_open,
    weigh-set handle_weight c.recv_tasks i t v.here,
    ap fp_weight hf,
    slot_weight,
  );
  maps = omega (arith, v.maps, weigh-set map_weight c.recv_tasks i t v.here, hm);
  sending = v.sending;
  paths = (hp, v.paths);
}
  where
    slot_weight : handle_weight (slot c i) ≡ 0
    slot_weight = omega (arith, none_open, weigh-set handle_weight c.recv_tasks i no_recv v.here)

pub open_target-IsValid :
    (os : Os) (i tid : ℕ) (c : Client)
    → IsValidBut i c
    → weigh handle_weight c.recv_tasks ≡ 0
    → Ready (slot c i)
    → IsEntry (slot c i).save_name
    → IsValid (open_target os i tid c).0
unfolding open_target
open_target-IsValid os i tid c v none_open (hb, hi, hf, hm, hr, hs) hn =
    let t : RecvTask = slot c i in
    let len : ℕ = file_chunk_count t.size chunk_data_max / 8 + 1 in
    let t1 : RecvTask = record t { bitmap_len = len; bitmap = some (replicate len 0) } in
    let t2 : RecvTask = record t1 { fp = true } in
    let c1 : Client = put_slot (emit allocated c) i t1 in
    let v1 : IsValidBut i c1 =
      mapped_slot-IsValidBut c i t1 v refl refl
        (ap (λ (o : Option Bytes). elim o [ none ↦ 0 | some map ↦ 1 ]) hm) (inr hn) in
    let here : slot c1 i ≡ t1 = get_or-set_self c.recv_tasks i t1 no_recv v.here in
    if-holds (λ (r : Client × Bool). IsValid r.0) (not (os.malloc c.log len))
      (λ e.
        recv_task_reject-settles os i too_big (put_slot c i (record t { bitmap_len = len }))
          (put_slot-IsValidBut c i (record t { bitmap_len = len }) v refl refl (inr hn)))
      (λ e.
        option-holds (λ (r : Client × Bool). IsValid r.0)
          (file_join_path download_dir t.save_name path_size)
          (recv_task_reject-settles os i path_too_long c1 v1)
          (λ path he.
            if-holds (λ (r : Client × Bool). IsValid r.0) (not (os.fopen_wb c1.log path))
              (λ h. recv_task_reject-settles os i cannot_create c1 v1)
              (λ h.
                confirm_accept-IsValid os i tid (put_slot (emit (opened_wb path) c1) i t2)
                  (opened_slot-IsValid c1 i path t2 v1
                    (omega (
                      arith,
                      none_open,
                      weigh-set handle_weight c.recv_tasks i t1 v.here,
                      ap fp_weight hf,
                    ))
                    (Tracks-TaskOk [] t2 hb refl (Tracks-start t2 len hi hs hr refl refl refl hn))
                    refl (sym (ap map_weight here)) (join-IsDownload t.save_name path_size hn he))
                  (rw (length-set (set c.recv_tasks i t1) i t2, length-set c.recv_tasks i t1)
                    v.here))))
