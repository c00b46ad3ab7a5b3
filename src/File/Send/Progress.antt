-- ===== src/File/Send/Progress.antt =====
-- A file is sent chunk by chunk along the plan, and the sending comes to its end.
use tcpclient.Base.{
  if-holds, length, Bytes, ℕ, zero, suc, ◌+◌, ◌*◌, ◌^◌, ◌≤◌, ◌<◌, ◌≡◌, refl, sym, ap, ◌∙◌, Bool,
  true, not, List, ◌++◌, arith,
}
use tcpclient.System.{Os}
use tcpclient.Utils.{utils_write_u32_be}
use tcpclient.Protocol.{protocol_build_frame, protocol_build_tid}
use tcpclient.Protocol.MsgType
use tcpclient.Client.{SendState, Client, active, done, wait_complete}
use tcpclient.Ui.{send_frame}
use tcpclient.File.Chunks.{chunk_data_max}
use tcpclient.File.Tasks.{send_tid}
use tcpclient.File.Send.{chunks_per_round, send_complete, tick_in, file_send_tick}
use tcpclient.File.Send.Wire.{wired, cursor, Works, chunk_frames}
use tcpclient.File.Send.Rounds.{At, state_at, state_done, state_active, send_rounds-Sent}

-- The ticks of a transfer, one after the other.
unfoldable pub ticks : Os → ℕ → Client → Client
ticks os zero c = c
ticks os (suc n) c = ticks os n (file_send_tick os c).0

module _ (tid : ℕ) (content : Bytes) (before : List Bytes) where
  tick-At :
      (os : Os) (k : ℕ) (c : Client)
      → Works os content
      → At tid content before k active c
      → length content < 2 ^ 64
      → At tid content before (k + 2) (state_at (length content) (k + 2)) (file_send_tick os c).0
  unfolding file_send_tick tick_in
  tick-At os k c w h big =
      if-holds
        (λ (r : Client × Bool).
          At tid content before (k + 2) (state_at (length content) (k + 2)) (r.0))
        (not c.send_task.busy) (λ e. absurd (ground (arith, h.is_busy)))
        (λ e. by_state c.send_task.state h.in_state)
    where
      by_state :
          (s : SendState)
          → s ≡ active
          → At tid content before (k + 2) (state_at (length content) (k + 2)) (tick_in s os c).0
      by_state s e = rw e ((send_rounds-Sent tid content before os chunks_per_round k c w h big).0)

  restate_At :
      (k k' : ℕ) (s s' : SendState) (c : Client)
      → k ≡ k'
      → s ≡ s'
      → At tid content before k s c
      → At tid content before k' s' c
  restate_At k k' s s' c ek es h = rw (← ek, ← es) h

  pub ticks-At_done :
      (os : Os) (n k : ℕ) (c : Client)
      → Works os content
      → At tid content before k active c
      → (k + 2 * n) * chunk_data_max < length content
      → length content ≤ (k + 2 * n + 2) * chunk_data_max
      → length content < 2 ^ 64
      → At tid content before (k + 2 * n + 2) done (ticks os (suc n) c)
  unfolding ticks
  ticks-At_done os zero k c w h lt le big =
      restate_At (k + 2) (k + 2 * 0 + 2) (state_at (length content) (k + 2)) done
        (file_send_tick os c).0 (omega arith)
        (sym (state_done (length content) (k + 2) (omega arith))) (tick-At os k c w h big)
  ticks-At_done os (suc n) k c w h lt le big =
      let d : Client = (file_send_tick os c).0 in
      let at : At tid content before (k + 2) active d =
        restate_At (k + 2) (k + 2) (state_at (length content) (k + 2)) active d refl
          (sym (state_active (length content) (k + 2) (omega arith))) (tick-At os k c w h big) in
      restate_At (k + 2 + 2 * n + 2) (k + 2 * suc n + 2) done done (ticks os (suc n) d)
        (omega arith) refl (ticks-At_done os n (k + 2) d w at (omega arith) (omega arith) big)

send_tid-Works :
    (os : Os) (content : Bytes) (t tid : ℕ) (c : Client)
    → Works os content
    → (send_tid os t tid c).1 ≡ true
unfolding send_tid protocol_build_tid protocol_build_frame send_frame utils_write_u32_be
send_tid-Works os content t tid c w = w.sends c.log _

-- The tick in the state DONE.
done_tick :
    (os : Os) (content : Bytes) (c : Client)
    → Works os content
    → c.send_task.busy ≡ true
    → c.send_task.state ≡ done
    → ((file_send_tick os c).0.send_task.state ≡ wait_complete) × ((file_send_tick os c).1 ≡ true)
unfolding file_send_tick tick_in send_complete
done_tick os content c w hb hs =
    let P : Client × Bool → Type 0 = λ r. (r.0.send_task.state ≡ wait_complete) × (r.1 ≡ true) in
    if-holds P (not c.send_task.busy) (λ e. absurd (ground (arith, hb)))
      (λ e. by_state c.send_task.state hs)
  where
    by_state :
        (s : SendState)
        → s ≡ done
        → ((tick_in s os c).0.send_task.state ≡ wait_complete) × ((tick_in s os c).1 ≡ true)
    by_state s e = rw e (
        if-holds (λ (r : Client × Bool). (r.0.send_task.state ≡ wait_complete) × (r.1 ≡ true))
          (send_tid os MsgType.file_complete c.send_task.tid c).1 (λ h. (refl, refl))
          (λ h.
            absurd (
              ground (arith, send_tid-Works os content MsgType.file_complete c.send_task.tid c w))))

-- An active task at the start of its file.
pub record Begins (content : Bytes) (c : Client) : Type 0 where
  pub is_busy : c.send_task.busy ≡ true
  pub is_active : c.send_task.state ≡ active
  pub of_size : c.send_task.size ≡ length content
  pub none_sent : c.send_task.sent ≡ 0
  pub at_start : cursor c.log ≡ 0

-- Where reads deliver the bytes of the file from its position on and every frame is sent: an active
-- task at the start of a file of more than `2 n` and at most `2 n + 2` chunks, and of less than
-- 2 ^ 64 bytes, is in the state DONE after `n + 1` ticks and has sent exactly the size of the file.
-- What the ticks put on the connection is the CHUNK frames of the file, each once and in order, with
-- the task's id, the chunk's offset and the file's bytes there. The next tick succeeds and leaves
-- the task in the state WAIT_COMPLETE.
pub sends_all :
    (os : Os) (content : Bytes) (n : ℕ) (c : Client)
    → Works os content
    → Begins content c
    → 2 * n * chunk_data_max < length content
    → length content ≤ (2 * n + 2) * chunk_data_max
    → length content < 2 ^ 64
    → ((ticks os (suc n) c).send_task.state ≡ done)
      × ((ticks os (suc n) c).send_task.sent ≡ length content)
      × (wired (ticks os (suc n) c).log
          ≡ chunk_frames c.send_task.tid content (2 * n + 2) ++ wired c.log)
      × ((file_send_tick os (ticks os (suc n) c)).0.send_task.state ≡ wait_complete)
      × ((file_send_tick os (ticks os (suc n) c)).1 ≡ true)
unfolding chunk_frames
sends_all os content n c w h lt le big =
    let tid : ℕ = c.send_task.tid in
    let begun : At tid content (wired c.log) 0 active c = record {
      is_busy = h.is_busy;
      in_state = h.is_active;
      of_tid = refl;
      of_size = h.of_size;
      so_far = omega (arith, h.none_sent);
      at_cursor = omega (arith, h.at_start);
      on_wire = refl;
    } in
    let at =
      ticks-At_done tid content (wired c.log) os n 0 c w begun (omega (arith, lt))
        (omega (arith, le)) big in
    let (waits, ok) = done_tick os content (ticks os (suc n) c) w at.is_busy at.in_state in
    let same : 0 + 2 * n + 2 ≡ 2 * n + 2 = omega arith in
    (
      at.in_state,
      omega (arith, at.so_far, le),
      at.on_wire ∙ ap (λ k. chunk_frames tid content k ++ wired c.log) same,
      waits,
      ok,
    )
