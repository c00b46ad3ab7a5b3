-- ===== src/File/Session/Facts.antt =====
-- What follows from the invariant in every reachable state of the transfers.
use tcpclient.File.Invariant.Slots.{slot-TaskOk}
use tcpclient.File.Invariant.Receiving.{find-here}
use tcpclient.File.Invariant.Storing.{active-Tracks}
use tcpclient.Base.{
  option-holds_either, if-holds, ◌==◌, length, get_or, All, get_or-set_self, Bytes, ℕ, zero, suc,
  ◌+◌, ◌≤◌, ◌<◌, ◌≡◌, refl, ap, ◌∙◌, ◌≢◌, true, some, List, [], ◌∷◌, arith, dec_lt,
}
use tcpclient.System.{Log, Os, saved, incomplete, line, closed, freed}
use tcpclient.Client.{RecvTask, no_recv, Client, slot}
use tcpclient.File.Paths.{touched, InDownloads}
use tcpclient.File.Storage.{Spans, stored_since, written, got, room, chunk_total, Tracks}
use tcpclient.File.Storage.Sums.{sum_below-le, sum_below-room_all, Tracks-written}
use tcpclient.File.Tasks.{
  recv_task_find, clear_effects, recv_task_clear, recv_task_finish, recv_task_complete,
}
use tcpclient.File.Invariant.{weigh, fp_weight, handle_weight, IsValid}
use tcpclient.File.Session.{Reach, Reach-IsValid}

weight-le :
    (w : RecvTask → ℕ) (ts : List RecvTask) (i : ℕ)
    → i < length ts
    → w (get_or ts i no_recv) ≤ weigh w ts
weight-le w [] i h = absurd (omega arith)
weight-le w (t ∷ ts) zero h = omega arith
weight-le w (t ∷ ts) (suc i) h = omega (arith, weight-le w ts i (omega arith))

two_weights :
    (w : RecvTask → ℕ) (ts : List RecvTask) (i j : ℕ)
    → i < j
    → j < length ts
    → w (get_or ts i no_recv) + w (get_or ts j no_recv) ≤ weigh w ts
two_weights w [] i j h k = absurd (omega arith)
two_weights w (t ∷ ts) i zero h k = absurd (omega arith)
two_weights w (t ∷ ts) zero (suc j) h k = omega (arith, weight-le w ts j (omega arith))
two_weights w (t ∷ ts) (suc i) (suc j) h k =
    omega (arith, two_weights w ts i j (omega arith) (omega arith))

in_range : (c : Client) (i : ℕ) → (slot c i).fp ≡ true → i < length c.recv_tasks
in_range c i h = go c.recv_tasks i h
  where
    go : (ts : List RecvTask) (i : ℕ) → (get_or ts i no_recv).fp ≡ true → i < length ts
    go [] i h = absurd (cc)
    go (t ∷ ts) zero h = omega arith
    go (t ∷ ts) (suc i) h = omega (arith, go ts i h)

-- In every reachable state one reception at most is active: two slots that both hold a handle are
-- the same slot.
pub one_active :
    (os : Os) {c : Client} (i j : ℕ)
    → Reach os c
    → (slot c i).fp ≡ true
    → (slot c j).fp ≡ true
    → i ≡ j
one_active os {c} i j r hi hj =
    let v : IsValid c = Reach-IsValid os r in
    elim (dec_lt i j) [
      | yes lt ↦ absurd (
          omega (
            arith,
            v.single,
            two_weights handle_weight c.recv_tasks i j lt (in_range c j hj),
            ap fp_weight hi,
            ap fp_weight hj,
          ))
      | no ge ↦ elim (dec_lt j i) [
        | yes lt ↦ absurd (
            omega (
              arith,
              v.single,
              two_weights handle_weight c.recv_tasks j i lt (in_range c i hi),
              ap fp_weight hi,
              ap fp_weight hj,
            ))
        | no le ↦ omega arith
      ]
    ]

-- The slot is free again, and nothing else of the state but output has changed.
pub record Freed (i : ℕ) (before after : Client) : Type 0 where
  pub zeroed : slot after i ≡ no_recv
  pub others : (j : ℕ) → j ≢ i → slot after j ≡ slot before j
  pub send_task : after.send_task ≡ before.send_task
  pub recv_seq : after.recv_seq ≡ before.recv_seq

-- How `recv_task_complete` ends for the active task `t`.
pub data Outcome (t : RecvTask) (before after : Client) : Type 0 where
  whole :
      t.received ≡ t.size
      → after.log ≡ freed ∷ closed ∷ line (saved t.tid t.save_name t.size) ∷ before.log
      → ((p : ℕ) → p < t.size → written (stored_since before.log) p ≡ true)
      → Outcome t before after
  short :
      t.received < t.size
      → after.log ≡ clear_effects t (line (incomplete t.tid t.received t.size) ∷ before.log)
      → Outcome t before after

received-le : (s : Spans) (t : RecvTask) → Tracks s t → t.received ≤ t.size
received-le s t h = omega (
  arith,
  h.counted,
  sum_below-room_all t.size,
  sum_below-le (chunk_total t.size) (got s) (room t.size) h.at_most,
)

complete-finish :
    (tid : ℕ) (c : Client) {i : ℕ}
    → recv_task_find tid c ≡ some i
    → (slot c i).fp ≡ true
    → recv_task_complete tid c ≡ recv_task_finish i c
unfolding recv_task_complete
complete-finish tid c {i} found hf =
    option-holds_either (λ d. d ≡ recv_task_finish i c) (recv_task_find tid c) (λ e. absurd (cc))
      (λ k e.
        let same : k ≡ i = ground arith in
        rw same
          (if-holds (λ d. d ≡ recv_task_finish i c) (slot c i).fp (λ h. refl) (λ h. absurd (cc))))

-- A task whose save name was emptied loses handle and map, not its file.
clear_kept :
    (t : RecvTask) (log : Log) {map : Bytes}
    → t.bitmap ≡ some map
    → t.fp ≡ true
    → clear_effects (record t { save_name = [] }) log ≡ freed ∷ closed ∷ log
unfolding clear_effects
clear_kept t log hb hf = rw (hb, hf) refl

pub complete_valid :
    {c : Client} (tid i : ℕ)
    → IsValid c
    → recv_task_find tid c ≡ some i
    → (slot c i).fp ≡ true
    → Outcome (slot c i) c (recv_task_complete tid c)
unfolding recv_task_finish recv_task_clear
complete_valid {c} tid i v found hf =
    let t : RecvTask = slot c i in
    let (hb, tr) =
      active-Tracks (stored_since c.log) t hf
        (slot-TaskOk (stored_since c.log) c.recv_tasks i v.tasks) in
    rw (complete-finish tid c found hf) (
      if-holds (Outcome t c) (t.received == t.size)
        (λ e.
          let same : t.received ≡ t.size = ground arith in
          whole same
            (ap (λ u. clear_effects u (line (saved t.tid t.save_name t.received) ∷ c.log))
                (get_or-set_self c.recv_tasks i (record t { save_name = [] }) no_recv
                  (find-here tid c found))
              ∙ clear_kept t _ tr.has_map hf
              ∙ ap (λ n. freed ∷ closed ∷ line (saved t.tid t.save_name n) ∷ c.log) same)
            (Tracks-written (stored_since c.log) t tr same))
        (λ e. short (ground (arith, received-le (stored_since c.log) t tr)) refl))

-- In every reachable state, whatever names the server sent: each file that was opened for writing or
-- removed is an entry of the download directory itself, and each directory that was created is
-- "downloads". The path of such a file is "downloads/" and a name of bytes from 0x20 to 0x7F without
-- slash and backslash, which is not empty, "." or "..".
pub touched-InDownloads : (os : Os) {c : Client} → Reach os c → All InDownloads (touched c.log)
touched-InDownloads os r = let v = Reach-IsValid os r in v.paths
