-- ===== src/File/Send/Refining/Ticks.antt =====
-- The tick goes along the machine of Phase.
use mathlib.Core.Path.{subst}
use tcpclient.Base.{
  if-holds, option-holds, ltb, leb, ◌==◌, Bool-cases, length, Bytes, ℕ, zero, suc, ◌+◌, ◌*◌, ◌/◌,
  ◌%◌, ◌^◌, ◌≤◌, ◌<◌, min, ◌≡◌, refl, sym, ap, inl, inr, Bool, true, false, not, some, arith,
}
use tcpclient.System.{Notice, Os, progress, read}
use tcpclient.Protocol.{protocol_build_chunk}
use tcpclient.Protocol.MsgType
use tcpclient.Client.{
  SendState, SendTask, no_send, Client, put_send, idle, pending_tid, pending, active, done,
  wait_complete,
}
use tcpclient.Ui.{emit, send_frame, ui_display_incoming}
use tcpclient.File.Chunks.{chunk_data_max, file_chunk_plan}
use tcpclient.File.Chunks.Cover.{chunk_len, chunk_plan_lem}
use tcpclient.File.Tasks.{send_tid}
use tcpclient.File.Send.{
  chunks_per_round, progress_interval, send_task_clear, show_progress, Round, send_chunk,
  send_round, send_rounds, send_complete, tick_in, file_send_tick, continue, return,
}
use tcpclient.File.Send.Phase.{
  Sends, phase_of, phase, Standing, IsSound, sending, sent_all, confirming, pause, advance, fail,
  finish, clock,
}
use tcpclient.File.Send.Refining.{Along}
use tcpclient.File.Invariant.Output.{send_tid-Quiet}

-- From task `s` one chunk more is sent.
record Sent (s t : SendTask) : Type 0 where
  is_busy : t.busy ≡ true
  is_active : t.state ≡ active
  same_tid : t.tid ≡ s.tid
  same_size : t.size ≡ s.size
  more : t.sent ≡ min s.size (s.sent + chunk_data_max)

-- Showing the progress changes the mark only.
show_progress-Sent :
    (s : SendTask) (d : Client) → Sent s d.send_task → Sent s (show_progress d).send_task
unfolding show_progress
show_progress-Sent s d h =
    let t : SendTask = d.send_task in
    let text : Notice = progress t.tid t.sent t.size (t.sent * 100 % 2 ^ 64 / t.size % 2 ^ 32) in
    let shown : Client =
      put_send (ui_display_incoming text d)
        (record t { next_progress_mark = (t.next_progress_mark + progress_interval) % 2 ^ 64 }) in
    if-holds (λ (e : Client). Sent s e.send_task) (leb t.next_progress_mark t.sent) {x = shown}
      {y = d}
      (λ e. record {
        is_busy = h.is_busy;
        is_active = h.is_active;
        same_tid = h.same_tid;
        same_size = h.same_size;
        more = h.more;
      })
      (λ e. h)

abbrev RoundAlong : SendTask → Round → Type 0
RoundAlong s (continue d) = Sent s d.send_task
RoundAlong s (return r) = r.0.send_task ≡ no_send

send_chunk-Along :
    (os : Os) (offset len : ℕ) (c : Client)
    → c.send_task.busy ≡ true
    → c.send_task.state ≡ active
    → c.send_task.sent + len ≡ min c.send_task.size (c.send_task.sent + chunk_data_max)
    → RoundAlong c.send_task (send_chunk os offset len c)
unfolding send_chunk send_frame send_task_clear
send_chunk-Along os offset len c hb hs more =
    let s : SendTask = c.send_task in
    let bytes : Bytes = os.fread c.log len in
    let c1 : Client = emit (read len) c in
    if-holds (RoundAlong s) (not (length bytes == len)) (λ e. refl)
      (λ e'.
        option-holds (RoundAlong s)
          (protocol_build_chunk s.tid offset bytes (5 + 12 + chunk_data_max)) refl
          (λ built e''.
            let c2 : Client = (send_frame os built c1).0 in
            if-holds (RoundAlong s) (not (send_frame os built c1).1) (λ h. refl)
              (λ h. show_progress-Sent s (put_send c2 (record s { sent = s.sent + len })) (record {
                is_busy = hb;
                is_active = hs;
                same_tid = refl;
                same_size = refl;
                more = more;
              }))))

send_round-Along :
    (os : Os) (c : Client)
    → Standing true active c.send_task
    → c.send_task.busy ≡ true
    → c.send_task.state ≡ active
    → c.send_task.sent < c.send_task.size
    → RoundAlong c.send_task (send_round os c)
unfolding send_round send_task_clear
send_round-Along os c (has_size, (k, so_far)) hb hs lt =
    let s : SendTask = c.send_task in
    let below : k * chunk_data_max < s.size = omega (arith, so_far, lt) in
    let hk : s.sent ≡ k * chunk_data_max = omega (arith, so_far, below) in
    let index : s.sent / chunk_data_max ≡ k = omega (arith, hk) in
    let plan : file_chunk_plan s.size chunk_data_max (s.sent / chunk_data_max)
        ≡ some (k * chunk_data_max, chunk_len s.size chunk_data_max (k * chunk_data_max)) =
      rw index (
        (chunk_plan_lem s.size chunk_data_max k (omega arith) (omega (arith, has_size))).0 below) in
    option-holds (RoundAlong s) (file_chunk_plan s.size chunk_data_max (s.sent / chunk_data_max))
      refl
      (λ p e.
        let same : p ≡ (k * chunk_data_max, chunk_len s.size chunk_data_max (k * chunk_data_max)) =
          ground arith in
        let len : p.1 ≡ chunk_len s.size chunk_data_max (k * chunk_data_max) =
          ap (λ (q : ℕ × ℕ). q.1) same in
        send_chunk-Along os (p.0) (p.1) c hb hs (omega (arith, lt, hk, len)))

-- A chunk keeps the task sound.
Sent-Standing : (s t : SendTask) → Sent s t → Standing true active s → Standing true active t
Sent-Standing s t g (has_size, (k, so_far)) =
    (omega (arith, has_size, g.same_size), (k + 1, omega (arith, so_far, g.same_size, g.more)))

-- What a tick makes of the active task `s` with so many rounds left.
abbrev Sending : ℕ → SendTask → SendTask → Type 0
Sending n s t = IsSound t × Sends n (sending s.tid s.size s.sent) (phase t)

finish-Sending :
    (n : ℕ) (s : SendTask)
    → Standing true active s
    → s.busy ≡ true
    → s.size ≤ s.sent
    → Sending n s (record s { state = done })
finish-Sending n s (has_size, (k, so_far)) hb le =
    let all_sent : s.sent ≡ s.size = omega (arith, so_far, le) in
    let t : SendTask = record s { state = done } in
    subst
      (λ (b : Bool). Standing b done t × Sends n (sending s.tid s.size s.sent) (phase_of b done t))
      (sym hb) ((has_size, all_sent), finish all_sent)

stay-Sending :
    (s : SendTask)
    → Standing true active s
    → s.busy ≡ true
    → s.state ≡ active
    → s.sent < s.size
    → Sending zero s s
stay-Sending s h hb hs lt = by_flags s.busy s.state hb hs
  where
    by_flags :
        (b : Bool) (x : SendState)
        → b ≡ true
        → x ≡ active
        → Standing b x s × Sends zero (sending s.tid s.size s.sent) (phase_of b x s)
    by_flags b x e k = rw (e, k) (h, pause lt)

send_rounds-Along :
    (os : Os) (rounds : ℕ) (c : Client)
    → c.send_task.busy ≡ true
    → c.send_task.state ≡ active
    → Standing true active c.send_task
    → Sending rounds c.send_task (send_rounds os rounds c).0.send_task
unfolding send_rounds
send_rounds-Along os zero c hb hs h =
    if-holds (λ (d : Client). Sending zero c.send_task d.send_task)
      (leb c.send_task.size c.send_task.sent)
      {x = put_send c (record (c.send_task) { state = done })}
      (λ e. finish-Sending zero c.send_task h hb (ground arith))
      (λ e. stay-Sending c.send_task h hb hs (ground arith))
send_rounds-Along os (suc rounds) c hb hs h =
    if-holds (λ (r : Client × Bool). Sending (suc rounds) c.send_task r.0.send_task)
      (ltb c.send_task.sent c.send_task.size)
      {y = (put_send c (record (c.send_task) { state = done }), true)}
      (λ lt.
        by_round (ground arith) (send_round os c) (send_round-Along os c h hb hs (ground arith))
          (λ d kb ks k. send_rounds-Along os rounds d kb ks k))
      (λ ge. finish-Sending (suc rounds) c.send_task h hb (ground arith))
  where
    by_round :
        c.send_task.sent < c.send_task.size
        → (r : Round) → RoundAlong c.send_task r
        → ((d : Client)
            → d.send_task.busy ≡ true
            → d.send_task.state ≡ active
            → Standing true active d.send_task
            → Sending rounds d.send_task (send_rounds os rounds d).0.send_task)
        → Sending
            (suc rounds)
            c.send_task
            (elim r as (λ (x : Round). Client × Bool) [
              | continue c' ↦ send_rounds os rounds c'
              | return r ↦ r
            ]).0.send_task
    by_round lt (continue d) g more =
        let (sound, run) =
          more d g.is_busy g.is_active (Sent-Standing c.send_task d.send_task g h) in
        let same : sending d.send_task.tid d.send_task.size d.send_task.sent
            ≡ sending c.send_task.tid c.send_task.size d.send_task.sent =
          cc (g.same_tid, g.same_size) in
        (
          sound,
          advance lt g.more
              (subst (λ p. Sends rounds p (phase (send_rounds os rounds d).0.send_task)) same run),
        )
    by_round lt (return r) e more =
        subst (λ (t : SendTask). Sending (suc rounds) c.send_task t) (sym e) (tt, fail lt)

-- Whether a COMPLETE frame for the task can be sent now.
abbrev pub complete_sent : Os → Client → Bool
complete_sent os c = (send_tid os MsgType.file_complete c.send_task.tid c).1

-- A client whose task has these flags.
abbrev pub with_flags : Bool → SendState → Client → Client
with_flags b s c = put_send c (record (c.send_task) { busy = b; state = s })

tick-by :
    (os : Os) (b : Bool) (s : SendState) (c : Client)
    → Along
        (clock (complete_sent os (with_flags b s c)))
        (with_flags b s c)
        (file_send_tick os (with_flags b s c)).0
unfolding file_send_tick tick_in send_complete
tick-by os false s c h = (tt, refl)
tick-by os true idle c h = absurd h
tick-by os true pending_tid c h = (h, refl)
tick-by os true pending c h = (h, refl)
tick-by os true active c h =
    send_rounds-Along os chunks_per_round (with_flags true active c) refl refl h
tick-by os true wait_complete c h = (h, refl)
tick-by os true done c h =
    let c1 : Client = with_flags true done c in
    let s : SendTask = c1.send_task in
    let d : Client = (send_tid os MsgType.file_complete s.tid c1).0 in
    let (es, er, f) = send_tid-Quiet os MsgType.file_complete s.tid c1 in
    elim (Bool-cases (send_tid os MsgType.file_complete s.tid c1).1) [
      | inl e ↦ rw e (
          subst
            (λ (t : SendTask).
              IsSound (record t { state = wait_complete })
              × (phase (record t { state = wait_complete }) ≡ confirming s.tid s.size))
            (sym es) (h, refl))
      | inr e ↦ rw e (
          subst (λ (t : SendTask). IsSound t × (phase t ≡ sent_all s.tid s.size)) (sym es)
            (h, refl))
    ]

pub file_send_tick-Along :
    (os : Os) (c : Client) → Along (clock (complete_sent os c)) c (file_send_tick os c).0
file_send_tick-Along os c = tick-by os c.send_task.busy c.send_task.state c
