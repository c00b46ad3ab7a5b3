-- ===== src/File/Invariant.antt =====
-- The invariant of the client's state and of the log of its effects.
pub mod Slots
pub mod Basic
pub mod Output
pub mod Receiving
pub mod Describing
pub mod Storing
pub mod Opening
pub mod Accepting
pub mod Sending
pub mod Handling
use tcpclient.Base.{
  length, set, All, ℕ, suc, ◌+◌, ◌≤◌, ◌<◌, ◌≡◌, Bool, true, false, none, some, List, [], ◌∷◌,
}
use tcpclient.System.{
  Log, wire, line, newline, prompt, opened_rb, opened_wb, closed, read, stored, removed, made_dir,
  allocated, freed,
}
use tcpclient.Client.{SendTask, no_send, RecvTask, no_recv, Client, max_recv_pending, slot}
use tcpclient.File.Paths.{touched, InDownloads, IsSaveName}
use tcpclient.File.Storage.{Spans, stored_since, Tracks}

abbrev pub weigh : (RecvTask → ℕ) → List RecvTask → ℕ
weigh w [] = 0
weigh w (t ∷ ts) = w t + weigh w ts

abbrev pub fp_weight : Bool → ℕ
fp_weight true = 1
fp_weight false = 0

abbrev pub handle_weight : RecvTask → ℕ
handle_weight t = fp_weight t.fp

abbrev pub map_weight : RecvTask → ℕ
map_weight t = elim t.bitmap [ none ↦ 0 | some map ↦ 1 ]

-- File handles opened and closed, and maps allocated and freed, by these effects.
abbrev pub opened_count : Log → ℕ
opened_count [] = 0
opened_count (opened_rb path ∷ log) = suc (opened_count log)
opened_count (opened_wb path ∷ log) = suc (opened_count log)
opened_count (wire bytes ∷ log) = opened_count log
opened_count (line text ∷ log) = opened_count log
opened_count (newline ∷ log) = opened_count log
opened_count (prompt ∷ log) = opened_count log
opened_count (closed ∷ log) = opened_count log
opened_count (read n ∷ log) = opened_count log
opened_count (stored name offset bytes ∷ log) = opened_count log
opened_count (removed path ∷ log) = opened_count log
opened_count (made_dir path ∷ log) = opened_count log
opened_count (allocated ∷ log) = opened_count log
opened_count (freed ∷ log) = opened_count log

abbrev pub closed_count : Log → ℕ
closed_count [] = 0
closed_count (closed ∷ log) = suc (closed_count log)
closed_count (opened_rb path ∷ log) = closed_count log
closed_count (opened_wb path ∷ log) = closed_count log
closed_count (wire bytes ∷ log) = closed_count log
closed_count (line text ∷ log) = closed_count log
closed_count (newline ∷ log) = closed_count log
closed_count (prompt ∷ log) = closed_count log
closed_count (read n ∷ log) = closed_count log
closed_count (stored name offset bytes ∷ log) = closed_count log
closed_count (removed path ∷ log) = closed_count log
closed_count (made_dir path ∷ log) = closed_count log
closed_count (allocated ∷ log) = closed_count log
closed_count (freed ∷ log) = closed_count log

abbrev pub allocated_count : Log → ℕ
allocated_count [] = 0
allocated_count (allocated ∷ log) = suc (allocated_count log)
allocated_count (closed ∷ log) = allocated_count log
allocated_count (opened_rb path ∷ log) = allocated_count log
allocated_count (opened_wb path ∷ log) = allocated_count log
allocated_count (wire bytes ∷ log) = allocated_count log
allocated_count (line text ∷ log) = allocated_count log
allocated_count (newline ∷ log) = allocated_count log
allocated_count (prompt ∷ log) = allocated_count log
allocated_count (read n ∷ log) = allocated_count log
allocated_count (stored name offset bytes ∷ log) = allocated_count log
allocated_count (removed path ∷ log) = allocated_count log
allocated_count (made_dir path ∷ log) = allocated_count log
allocated_count (freed ∷ log) = allocated_count log

abbrev pub freed_count : Log → ℕ
freed_count [] = 0
freed_count (freed ∷ log) = suc (freed_count log)
freed_count (allocated ∷ log) = freed_count log
freed_count (closed ∷ log) = freed_count log
freed_count (opened_rb path ∷ log) = freed_count log
freed_count (opened_wb path ∷ log) = freed_count log
freed_count (wire bytes ∷ log) = freed_count log
freed_count (line text ∷ log) = freed_count log
freed_count (newline ∷ log) = freed_count log
freed_count (prompt ∷ log) = freed_count log
freed_count (read n ∷ log) = freed_count log
freed_count (stored name offset bytes ∷ log) = freed_count log
freed_count (removed path ∷ log) = freed_count log
freed_count (made_dir path ∷ log) = freed_count log

-- What a receive task is, by its two flags: a free slot is zeroed; a pending task holds no map and
-- no save name and has received nothing; an active one tracks what was stored.
abbrev pub Kind : Bool → Bool → Spans → RecvTask → Type 0
Kind false false s t = t ≡ no_recv
Kind false true s t = ⊥
Kind true false s t = (t.bitmap ≡ none) × (t.save_name ≡ []) × (t.received ≡ 0)
Kind true true s t = Tracks s t

abbrev pub TaskOk : Spans → RecvTask → Type 0
TaskOk s t = Kind t.busy t.fp s t

-- A free send slot is zeroed; a busy one holds its file open.
abbrev pub SendKind : Bool → SendTask → Type 0
SendKind false t = t ≡ no_send
SendKind true t = t.fp ≡ true

pub record IsValid (c : Client) : Type 0 where
  pub slots : length c.recv_tasks ≡ max_recv_pending
  pub tasks : All (TaskOk (stored_since c.log)) c.recv_tasks
  pub single : weigh handle_weight c.recv_tasks ≤ 1
  pub handles :
      opened_count c.log
      ≡ closed_count c.log + fp_weight c.send_task.fp + weigh handle_weight c.recv_tasks
  pub maps : allocated_count c.log ≡ freed_count c.log + weigh map_weight c.recv_tasks
  pub sending : SendKind c.send_task.busy c.send_task
  pub paths : All InDownloads (touched c.log)

-- The invariant while an operation is at work on slot `i`: its task may be anything that holds the
-- handle and the map that it is counted with, under a save name that is safe.
pub record IsValidBut (i : ℕ) (c : Client) : Type 0 where
  pub slots : length c.recv_tasks ≡ max_recv_pending
  pub here : i < length c.recv_tasks
  pub named : IsSaveName (slot c i).save_name
  pub tasks : All (TaskOk (stored_since c.log)) (set c.recv_tasks i no_recv)
  pub single : weigh handle_weight (set c.recv_tasks i no_recv) ≤ 1
  pub handles :
      opened_count c.log
      ≡ closed_count c.log + fp_weight c.send_task.fp + weigh handle_weight c.recv_tasks
  pub maps : allocated_count c.log ≡ freed_count c.log + weigh map_weight c.recv_tasks
  pub sending : SendKind c.send_task.busy c.send_task
  pub paths : All InDownloads (touched c.log)
