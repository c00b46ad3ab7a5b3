-- ===== src/File/Session/Reset.antt =====
-- What `file_reset_all` leaves behind.
use tcpclient.File.Send.{send_task_clear}
use tcpclient.File.Invariant.Slots.{slot-TaskOk, free-zeroed}
use tcpclient.File.Invariant.Basic.{recv_task_clear-IsValid, send_task_clear-IsValid}
use tcpclient.File.Invariant.Handling.{clear_slots-IsValid}
use tcpclient.Base.{
  if-holds, if◌then◌else◌, length, get_or, get_or-set_self, get_or-set_ne, ℕ, zero, suc, ◌+◌, ◌≤◌,
  ◌<◌, ◌≡◌, refl, ap, ◌∙◌, Bool, true, false, not, List, [], ◌∷◌, arith, ℕ_discrete,
}
use tcpclient.System.{Os}
use tcpclient.Client.{SendTask, no_send, RecvTask, no_recv, Client, max_recv_pending, slot}
use tcpclient.File.Storage.{stored_since}
use tcpclient.File.Tasks.{recv_task_clear}
use tcpclient.File.Events.{clear_slots, file_reset_all}
use tcpclient.File.Invariant.{
  weigh, fp_weight, handle_weight, map_weight, opened_count, closed_count, allocated_count,
  freed_count, SendKind, IsValid,
}
use tcpclient.File.Session.{Reach, Reach-IsValid}

send_task-clear_slots :
    (rounds i : ℕ) (c : Client) → (clear_slots rounds i c).send_task ≡ c.send_task
unfolding clear_slots recv_task_clear
send_task-clear_slots zero i c = refl
send_task-clear_slots (suc rounds) i c =
    send_task-clear_slots rounds (i + 1) (if (slot c i).busy then recv_task_clear i c else c)
    ∙ if-holds (λ (d : Client). d.send_task ≡ c.send_task) (slot c i).busy (λ e. refl) (λ e. refl)

-- A slot that is not busy is zeroed.
not_busy-zeroed : (c : Client) (i : ℕ) → IsValid c → (slot c i).busy ≡ false → slot c i ≡ no_recv
not_busy-zeroed c i v e =
    free-zeroed (stored_since c.log) (slot c i) (ap not e)
      (slot-TaskOk (stored_since c.log) c.recv_tasks i v.tasks)

clear_slots-zeroed :
    (rounds i : ℕ) (c : Client)
    → i + rounds ≤ max_recv_pending
    → IsValid c
    → ((j : ℕ) → j < i → slot c j ≡ no_recv)
    → (j : ℕ) → j < i + rounds
    → slot (clear_slots rounds i c) j ≡ no_recv
unfolding clear_slots recv_task_clear
clear_slots-zeroed zero i c h v z j lt = z j (omega arith)
clear_slots-zeroed (suc rounds) i c h v z j lt =
    clear_slots-zeroed rounds (i + 1) (if (slot c i).busy then recv_task_clear i c else c)
      (omega arith)
      (if-holds IsValid (slot c i).busy
        (λ e. recv_task_clear-IsValid i c v (omega (arith, v.slots))) (λ e. v))
      (if-holds (λ (d : Client). (k : ℕ) → k < i + 1 → slot d k ≡ no_recv) (slot c i).busy
        (λ e k lt. elim (ℕ_discrete i k) [
          | yes same ↦
              rw (← same) (get_or-set_self c.recv_tasks i no_recv no_recv (omega (arith, v.slots)))
          | no n ↦ get_or-set_ne c.recv_tasks i k no_recv no_recv n ∙ z k (omega arith)
        ])
        (λ e k lt. elim (ℕ_discrete i k) [
          | yes same ↦ rw (← same) (not_busy-zeroed c i v e)
          | no n ↦ z k (omega arith)
        ]))
      j (omega arith)

weigh-zeroed :
    (w : RecvTask → ℕ) (ts : List RecvTask)
    → w no_recv ≡ 0
    → ((j : ℕ) → j < length ts → get_or ts j no_recv ≡ no_recv)
    → weigh w ts ≡ 0
weigh-zeroed w [] h z = refl
weigh-zeroed w (t ∷ ts) h z =
    omega
      (arith, ap w (z 0 (omega arith)), h, weigh-zeroed w ts h (λ j lt. z (suc j) (omega arith)))

send_gone :
    (c : Client)
    → IsValid c
    → (if c.send_task.busy then send_task_clear c else c).send_task ≡ no_send
unfolding send_task_clear
send_gone c v =
    if-holds (λ (d : Client). d.send_task ≡ no_send) c.send_task.busy (λ e. refl)
      (λ e. free_send c.send_task.busy e v.sending)
  where
    free_send : (b : Bool) → b ≡ false → SendKind b c.send_task → c.send_task ≡ no_send
    free_send true e k = absurd (cc)
    free_send false e k = k

-- In every reachable state, `file_reset_all` leaves no transfer behind: the send task and all eight
-- slots are zeroed, every handle that was opened has been closed and every map that was allocated
-- has been freed.
pub reset-Clean :
    (os : Os) {c : Client}
    → Reach os c
    → ((file_reset_all c).send_task ≡ no_send)
      × ((i : ℕ) → i < max_recv_pending → slot (file_reset_all c) i ≡ no_recv)
      × (opened_count (file_reset_all c).log ≡ closed_count (file_reset_all c).log)
      × (allocated_count (file_reset_all c).log ≡ freed_count (file_reset_all c).log)
unfolding file_reset_all
reset-Clean os {c} r =
    let v : IsValid c = Reach-IsValid os r in
    let d : Client = if c.send_task.busy then send_task_clear c else c in
    let e : Client = clear_slots max_recv_pending 0 d in
    let vd : IsValid d =
      if-holds IsValid c.send_task.busy (λ e. send_task_clear-IsValid c v) (λ e. v) in
    let ve : IsValid e = clear_slots-IsValid max_recv_pending 0 d (omega arith) vd in
    let gone : e.send_task ≡ no_send = send_task-clear_slots max_recv_pending 0 d ∙ send_gone c v in
    let zeroed =
      clear_slots-zeroed max_recv_pending 0 d (omega arith) vd (λ j lt. absurd (omega arith)) in
    let zero_at : (j : ℕ) → j < length e.recv_tasks → slot e j ≡ no_recv =
      λ j lt. zeroed j (omega (arith, ve.slots)) in
    (
      gone,
      (λ i lt. zeroed i (omega arith)),
      omega (
        arith,
        ve.handles,
        weigh-zeroed handle_weight e.recv_tasks refl zero_at,
        ap (λ (s : SendTask). fp_weight s.fp) gone,
      ),
      omega (arith, ve.maps, weigh-zeroed map_weight e.recv_tasks refl zero_at),
    )
