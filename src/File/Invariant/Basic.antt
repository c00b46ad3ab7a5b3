-- ===== src/File/Invariant/Basic.antt =====
-- The steps that the operations are made of keep the invariant.
use tcpclient.Base.{
  if◌then◌else◌, length, length-set, get_or-set_self, All-set, ℕ, ◌+◌, ◌<◌, ◌≡◌, refl, ap, ◌∙◌, inl,
  inr, Bool, true, false, ◌∷◌, arith,
}
use tcpclient.System.{Log, closed}
use tcpclient.Client.{SendTask, no_send, RecvTask, no_recv, Client, slot, put_slot, put_send}
use tcpclient.File.Storage.{Spans, stored_since}
use tcpclient.File.Paths.{touched, IsSaveName, clear_effects-InDownloads}
use tcpclient.File.Tasks.{clear_effects, recv_task_clear}
use tcpclient.File.Send.{send_task_clear}
use tcpclient.File.Invariant.{
  fp_weight, handle_weight, map_weight, opened_count, closed_count, allocated_count, freed_count,
  Kind, TaskOk, IsValid, IsValidBut,
}
use tcpclient.File.Invariant.Slots.{weigh-set, slot-TaskOk, set-set}

-- The two logs tell the same of files and maps.
abbrev pub SameFiles : Log → Log → Type 0
SameFiles a b =
    (stored_since a ≡ stored_since b)
    × (opened_count a ≡ opened_count b)
    × (closed_count a ≡ closed_count b)
    × (allocated_count a ≡ allocated_count b)
    × (freed_count a ≡ freed_count b)
    × (touched a ≡ touched b)

-- Output, and other fields, do not matter.
pub restate :
    (c d : Client)
    → IsValid c
    → d.send_task ≡ c.send_task
    → d.recv_tasks ≡ c.recv_tasks
    → SameFiles d.log c.log
    → IsValid d
restate c d v es er (fs, fo, fc, fa, ff, fp) = record {
  slots = rw er v.slots;
  tasks = rw (er, fs) v.tasks;
  single = rw er v.single;
  handles = rw (es, er, fo, fc) v.handles;
  maps = rw (er, fa, ff) v.maps;
  sending = rw es v.sending;
  paths = rw fp v.paths;
}

pub loose_restate :
    (i : ℕ) (c d : Client)
    → IsValidBut i c
    → d.send_task ≡ c.send_task
    → d.recv_tasks ≡ c.recv_tasks
    → SameFiles d.log c.log
    → IsValidBut i d
loose_restate i c d v es er (fs, fo, fc, fa, ff, fp) = record {
  slots = rw er v.slots;
  here = rw er v.here;
  named = rw er v.named;
  tasks = rw (er, fs) v.tasks;
  single = rw er v.single;
  handles = rw (es, er, fo, fc) v.handles;
  maps = rw (er, fa, ff) v.maps;
  sending = rw es v.sending;
  paths = rw fp v.paths;
}

-- The save name of a task that is as it should be.
TaskOk-IsSaveName : (s : Spans) (t : RecvTask) → TaskOk s t → IsSaveName t.save_name
TaskOk-IsSaveName s t h = by_flag t.busy t.fp h
  where
    by_flag : (b f : Bool) → Kind b f s t → IsSaveName t.save_name
    by_flag false false k = inl (ap (λ (u : RecvTask). u.save_name) k)
    by_flag false true k = absurd k
    by_flag true false k = inl (k.1)
    by_flag true true k = inr k.named

-- What is said of the slots without slot `i` follows from the invariant.
pub loosen : (i : ℕ) (c : Client) → IsValid c → i < length c.recv_tasks → IsValidBut i c
loosen i c v lt = record {
  slots = v.slots;
  here = lt;
  named =
      TaskOk-IsSaveName (stored_since c.log) (slot c i)
        (slot-TaskOk (stored_since c.log) c.recv_tasks i v.tasks);
  tasks = All-set (TaskOk (stored_since c.log)) c.recv_tasks i no_recv v.tasks refl;
  single = omega (arith, v.single, weigh-set handle_weight c.recv_tasks i no_recv lt);
  handles = v.handles;
  maps = v.maps;
  sending = v.sending;
  paths = v.paths;
}

-- One slot is replaced by a task of the same weight.
pub put_slot-IsValid :
    (c : Client) (i : ℕ) (t : RecvTask)
    → IsValid c
    → i < length c.recv_tasks
    → TaskOk (stored_since c.log) t
    → t.fp ≡ (slot c i).fp
    → map_weight t ≡ map_weight (slot c i)
    → IsValid (put_slot c i t)
put_slot-IsValid c i t v lt ok hf hm = record {
  slots = length-set c.recv_tasks i t ∙ v.slots;
  tasks = All-set (TaskOk (stored_since c.log)) c.recv_tasks i t v.tasks ok;
  single = omega (arith, v.single, weigh-set handle_weight c.recv_tasks i t lt, ap fp_weight hf);
  handles = omega (arith, v.handles, weigh-set handle_weight c.recv_tasks i t lt, ap fp_weight hf);
  maps = omega (arith, v.maps, weigh-set map_weight c.recv_tasks i t lt, hm);
  sending = v.sending;
  paths = v.paths;
}

pub put_slot-IsValidBut :
    (c : Client) (i : ℕ) (t : RecvTask)
    → IsValidBut i c
    → t.fp ≡ (slot c i).fp
    → map_weight t ≡ map_weight (slot c i)
    → IsSaveName t.save_name
    → IsValidBut i (put_slot c i t)
put_slot-IsValidBut c i t v hf hm hn = record {
  slots = length-set c.recv_tasks i t ∙ v.slots;
  here = omega (arith, v.here, length-set c.recv_tasks i t);
  named = rw (get_or-set_self c.recv_tasks i t no_recv v.here) hn;
  tasks = rw (set-set c.recv_tasks i t no_recv) v.tasks;
  single = rw (set-set c.recv_tasks i t no_recv) v.single;
  handles =
      omega (arith, v.handles, weigh-set handle_weight c.recv_tasks i t v.here, ap fp_weight hf);
  maps = omega (arith, v.maps, weigh-set map_weight c.recv_tasks i t v.here, hm);
  sending = v.sending;
  paths = v.paths;
}

pub clear_effects_lem :
    (t : RecvTask) (log : Log)
    → (stored_since (clear_effects t log) ≡ stored_since log)
      × (opened_count (clear_effects t log) ≡ opened_count log)
      × (closed_count (clear_effects t log) ≡ closed_count log + handle_weight t)
      × (allocated_count (clear_effects t log) ≡ allocated_count log)
      × (freed_count (clear_effects t log) ≡ freed_count log + map_weight t)
unfolding clear_effects
clear_effects_lem t log = (ground arith, ground arith, ground arith, ground arith, ground arith)

-- Clearing a slot releases exactly what the task held.
pub recv_task_clear-settles : (i : ℕ) (c : Client) → IsValidBut i c → IsValid (recv_task_clear i c)
unfolding recv_task_clear
recv_task_clear-settles i c v =
    let (es, eo, ec, ea, ef) = clear_effects_lem (slot c i) c.log in
    record {
      slots = length-set c.recv_tasks i no_recv ∙ v.slots;
      tasks = rw es v.tasks;
      single = v.single;
      handles =
          omega (arith, v.handles, weigh-set handle_weight c.recv_tasks i no_recv v.here, eo, ec);
      maps = omega (arith, v.maps, weigh-set map_weight c.recv_tasks i no_recv v.here, ea, ef);
      sending = v.sending;
      paths = clear_effects-InDownloads (slot c i) c.log v.named v.paths;
    }

pub recv_task_clear-IsValid :
    (i : ℕ) (c : Client) → IsValid c → i < length c.recv_tasks → IsValid (recv_task_clear i c)
recv_task_clear-IsValid i c v lt = recv_task_clear-settles i c (loosen i c v lt)

-- `send_task_clear` closes the handle that a busy task holds.
pub send_task_clear-IsValid : (c : Client) → IsValid c → IsValid (send_task_clear c)
unfolding send_task_clear
send_task_clear-IsValid c v = by_handle c.send_task.fp refl
  where
    by_handle :
        (b : Bool)
        → b ≡ c.send_task.fp
        → IsValid (record c { send_task = no_send; log = if b then closed ∷ c.log else c.log })
    by_handle true e = record {
      slots = v.slots;
      tasks = v.tasks;
      single = v.single;
      handles = ground (arith, v.handles, ap fp_weight e);
      maps = v.maps;
      sending = refl;
      paths = v.paths;
    }
    by_handle false e = record {
      slots = v.slots;
      tasks = v.tasks;
      single = v.single;
      handles = ground (arith, v.handles, ap fp_weight e);
      maps = v.maps;
      sending = refl;
      paths = v.paths;
    }

-- Replacing the send task by one with the same handle.
pub put_send-IsValid :
    (c : Client) (t : SendTask)
    → IsValid c
    → t.busy ≡ true
    → t.fp ≡ true
    → c.send_task.fp ≡ true
    → IsValid (put_send c t)
put_send-IsValid c t v hb hf e = record {
  slots = v.slots;
  tasks = v.tasks;
  single = v.single;
  handles = omega (arith, v.handles, ap fp_weight e, ap fp_weight hf);
  maps = v.maps;
  sending = rw hb hf;
  paths = v.paths;
}

-- A busy send task holds its file.
pub sending_fp : (c : Client) → IsValid c → c.send_task.busy ≡ true → c.send_task.fp ≡ true
sending_fp c v h = rw h at v.sending

-- The step from `c` to `d` only produces output.
abbrev pub Quiet : Client → Client → Type 0
Quiet c d = (d.send_task ≡ c.send_task) × (d.recv_tasks ≡ c.recv_tasks) × SameFiles d.log c.log

pub Quiet-IsValid : (c d : Client) → Quiet c d → IsValid c → IsValid d
Quiet-IsValid c d (es, er, f) v = restate c d v es er f

pub Quiet-IsValidBut : (i : ℕ) (c d : Client) → Quiet c d → IsValidBut i c → IsValidBut i d
Quiet-IsValidBut i c d (es, er, f) v = loose_restate i c d v es er f

abbrev pub quiet : (c : Client) → Quiet c c
quiet c = (refl, refl, (refl, refl, refl, refl, refl, refl))
