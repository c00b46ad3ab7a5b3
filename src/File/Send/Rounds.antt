-- ===== src/File/Send/Rounds.antt =====
-- The rounds of the sending loop follow the chunk plan: after `k` of them the task has sent `k`
-- chunks of the file, and their frames are on the connection.
use tcpclient.Protocol.{protocol_build_chunk}
use tcpclient.Base.{
  option-holds_either, if-holds, ltb, leb, ◌==◌, if◌then◌else◌, length, Bytes, ℕ, zero, suc, ◌+◌,
  ◌*◌, ◌/◌, ◌%◌, ◌^◌, ◌≤◌, ◌<◌, min, ◌≡◌, refl, sym, ap, ◌∙◌, Bool, true, not, some, List, ◌∷◌,
  ◌++◌, arith,
}
use tcpclient.System.{Notice, Os, progress, read}
use tcpclient.Client.{SendState, SendTask, Client, put_send, active, done}
use tcpclient.Ui.{emit, send_frame}
use tcpclient.File.Chunks.{chunk_data_max, file_chunk_plan}
use tcpclient.File.Chunks.Cover.{chunk_len, chunk_plan_lem}
use tcpclient.File.Send.{
  show_progress, Round, send_chunk, send_round, send_rounds, continue, return,
}
use tcpclient.File.Send.Wire.{
  wired, cursor, Works, chunk_bytes, chunk_frame, chunk_frames, chunk_frames-next,
  chunk_frames-past, length-chunk_bytes, build_chunk-frame, read_chunk, sent_whole, display-silent,
}

-- The task with this id is in this state, with `k` chunks of the file sent, behind what was on the
-- connection before.
pub record At (tid : ℕ) (content : Bytes) (before : List Bytes) (k : ℕ) (state : SendState)
    (c : Client) : Type 0 where
  pub is_busy : c.send_task.busy ≡ true
  pub in_state : c.send_task.state ≡ state
  pub of_tid : c.send_task.tid ≡ tid
  pub of_size : c.send_task.size ≡ length content
  pub so_far : c.send_task.sent ≡ min (length content) (k * chunk_data_max)
  pub at_cursor : cursor c.log ≡ min (length content) (k * chunk_data_max)
  pub on_wire : wired c.log ≡ chunk_frames tid content k ++ before

-- The state once `n` chunks are sent.
abbrev pub state_at : ℕ → ℕ → SendState
state_at size n = if leb size (n * chunk_data_max) then done else active

pub state_done : (size n : ℕ) → size ≤ n * chunk_data_max → done ≡ state_at size n
state_done size n h = ground arith

pub state_active : (size n : ℕ) → n * chunk_data_max < size → active ≡ state_at size n
state_active size n h = ground arith

module _ (tid : ℕ) (content : Bytes) (before : List Bytes) where
  -- Showing the progress keeps the task but for the mark.
  show_progress-At :
      (k : ℕ) (state : SendState) (c : Client)
      → At tid content before k state c
      → At tid content before k state (show_progress c)
  unfolding show_progress
  show_progress-At k state c h =
      let s : SendTask = c.send_task in
      let text : Notice = progress s.tid s.sent s.size (s.sent * 100 % 2 ^ 64 / s.size % 2 ^ 32) in
      let (same_wire, same_cursor) = display-silent text c in
      if-holds (At tid content before k state) (leb s.next_progress_mark s.sent)
        (λ e. record {
          is_busy = h.is_busy;
          in_state = h.in_state;
          of_tid = h.of_tid;
          of_size = h.of_size;
          so_far = h.so_far;
          at_cursor = same_cursor ∙ h.at_cursor;
          on_wire = same_wire ∙ h.on_wire;
        })
        (λ e. h)

  -- A round that goes on.
  abbrev GoesOn : ℕ → Round → Type 0
  GoesOn k (continue c) = At tid content before k active c
  GoesOn k (return r) = ⊥

  send_chunk-GoesOn :
      (os : Os) (k : ℕ) (c : Client)
      → Works os content
      → At tid content before k active c
      → k * chunk_data_max < length content
      → GoesOn (k + 1) (
          send_chunk os
            (k * chunk_data_max)
            (chunk_len (length content) chunk_data_max (k * chunk_data_max))
            c)
  unfolding send_chunk send_frame
  send_chunk-GoesOn os k c w h lt =
      let len : ℕ = chunk_len (length content) chunk_data_max (k * chunk_data_max) in
      let s : SendTask = c.send_task in
      let c1 : Client = emit (read len) c in
      let here : cursor c.log ≡ k * chunk_data_max = omega (arith, h.at_cursor, lt) in
      let bytes : os.fread c.log len ≡ chunk_bytes content k =
        read_chunk os content k c.log w here in
      if-holds (GoesOn (k + 1)) (not (length (os.fread c.log len) == len))
        (λ e. absurd (ground (arith, length-chunk_bytes content k, bytes)))
        (λ e.
          option-holds_either (GoesOn (k + 1))
            (protocol_build_chunk s.tid (k * chunk_data_max) (os.fread c.log len)
              (5 + 12 + chunk_data_max))
            (λ e. absurd (cc (e, build_chunk-frame tid content k, bytes, h.of_tid)))
            (λ built e.
              let same : built ≡ chunk_frame tid content k = is_frame built (e, bytes, h.of_tid) in
              if-holds (GoesOn (k + 1)) (not (send_frame os built c1).1)
                (λ e. absurd (ground (arith, w.sends c1.log built)))
                (λ e.
                  show_progress-At (k + 1) active
                    (put_send (send_frame os built c1).0 (record s { sent = s.sent + len }))
                    (record {
                      is_busy = h.is_busy;
                      in_state = h.in_state;
                      of_tid = h.of_tid;
                      of_size = h.of_size;
                      so_far = omega (arith, h.so_far);
                      at_cursor = omega (arith, h.at_cursor);
                      on_wire =
                          ap (λ b. b ∷ wired c.log)
                            (sent_whole (os.send c1.log built) built (w.sends c1.log built) ∙ same)
                          ∙ ap (◌∷◌ (chunk_frame tid content k)) h.on_wire
                          ∙ ap (λ (fs : List Bytes). fs ++ before)
                              (sym (chunk_frames-next tid content k lt));
                    }))))
    where
      is_frame :
          (built : Bytes)
          → (protocol_build_chunk c.send_task.tid
                (k * chunk_data_max)
                (os.fread c.log (chunk_len (length content) chunk_data_max (k * chunk_data_max)))
                (5 + 12 + chunk_data_max)
              ≡ some built)
            × (os.fread c.log (chunk_len (length content) chunk_data_max (k * chunk_data_max))
                ≡ chunk_bytes content k)
            × (c.send_task.tid ≡ tid)
          → built ≡ chunk_frame tid content k
      is_frame built h = ground (arith, h, build_chunk-frame tid content k)

  send_round-GoesOn :
      (os : Os) (k : ℕ) (c : Client)
      → Works os content
      → At tid content before k active c
      → k * chunk_data_max < length content
      → length content < 2 ^ 64
      → GoesOn (k + 1) (send_round os c)
  unfolding send_round
  send_round-GoesOn os k c w h lt big =
      let size : ℕ = length content in
      let index : c.send_task.sent / chunk_data_max ≡ k = omega (arith, h.so_far) in
      let plan : file_chunk_plan c.send_task.size chunk_data_max (c.send_task.sent / chunk_data_max)
          ≡ some (k * chunk_data_max, chunk_len size chunk_data_max (k * chunk_data_max)) =
        rw (h.of_size, index) ((chunk_plan_lem size chunk_data_max k (omega arith) big).0 lt) in
      option-holds_either (GoesOn (k + 1))
        (file_chunk_plan c.send_task.size chunk_data_max (c.send_task.sent / chunk_data_max))
        (λ e. absurd (cc))
        (λ p e.
          let same : p ≡ (k * chunk_data_max, chunk_len size chunk_data_max (k * chunk_data_max)) =
            ground arith in
          rw same (send_chunk-GoesOn os k c w h lt))

  -- A result of 0, with the task in this state.
  abbrev pub Sent : ℕ → Client × Bool → Type 0
  Sent n r = At tid content before n (state_at (length content) n) (r.0) × (r.1 ≡ true)

  -- Nothing more to send.
  finished-At :
      (k more : ℕ) (c : Client)
      → At tid content before k active c
      → length content ≤ k * chunk_data_max
      → At tid content before
          (k + more)
          (state_at (length content) (k + more))
          (put_send c (record (c.send_task) { state = done }))
  finished-At k more c h le = record {
    is_busy = h.is_busy;
    in_state = state_done (length content) (k + more) (omega arith);
    of_tid = h.of_tid;
    of_size = h.of_size;
    so_far = omega (arith, h.so_far, le);
    at_cursor = omega (arith, h.at_cursor, le);
    on_wire =
        h.on_wire
        ∙ ap (λ (fs : List Bytes). fs ++ before) (sym (chunk_frames-past tid content k more le));
  }

  pub send_rounds-Sent :
      (os : Os) (rounds k : ℕ) (c : Client)
      → Works os content
      → At tid content before k active c
      → length content < 2 ^ 64
      → Sent (k + rounds) (send_rounds os rounds c)
  unfolding send_rounds
  send_rounds-Sent os zero k c w h big =
      let same : k + 0 ≡ k = omega arith in
      (
        if-holds
            (λ (d : Client). At tid content before (k + 0) (state_at (length content) (k + 0)) d)
            (leb c.send_task.size c.send_task.sent)
            (λ e. finished-At k 0 c h (ground (arith, h.so_far, h.of_size)))
            (λ e. record {
              is_busy = h.is_busy;
              in_state =
                  h.in_state
                  ∙ state_active (length content) (k + 0) (ground (arith, h.so_far, h.of_size));
              of_tid = h.of_tid;
              of_size = h.of_size;
              so_far = rw same h.so_far;
              at_cursor = rw same h.at_cursor;
              on_wire = rw same h.on_wire;
            }),
        refl,
      )
  send_rounds-Sent os (suc rounds) k c w h big =
      if-holds (Sent (k + suc rounds)) (ltb c.send_task.sent c.send_task.size)
        (λ e.
          by_round (send_round os c)
            (send_round-GoesOn os k c w h (ground (arith, h.so_far, h.of_size)) big)
            (λ d at. send_rounds-Sent os rounds (k + 1) d w at big))
        (λ e. (finished-At k (suc rounds) c h (ground (arith, h.so_far, h.of_size)), refl))
    where
      by_round :
          (r : Round)
          → GoesOn (k + 1) r
          → ((d : Client)
              → At tid content before (k + 1) active d
              → Sent (k + 1 + rounds) (send_rounds os rounds d))
          → Sent (k + suc rounds) (elim r as (λ (x : Round). Client × Bool) [
            | continue c' ↦ send_rounds os rounds c'
            | return r ↦ r
          ])
      by_round (continue d) at later =
          let same : k + suc rounds ≡ k + 1 + rounds = omega arith in rw same (later d at)
      by_round (return r) at later = absurd at
