-- ===== src/File/Invariant/Describing.antt =====
-- The INIT frame keeps the invariant.
use tcpclient.Base.{
  option-holds, ltb, if◌then◌else◌, Bool-cases, length, get_or, Bytes, ℕ, suc, ◌+◌, ◌<◌, ◌≡◌, refl,
  sym, inl, inr, Bool, true, false, not, ◌&&◌, Option, none, some, List, [], ◌∷◌, arith,
}
use tcpclient.Client.{RecvTask, no_recv, Client, slot, put_slot}
use tcpclient.Utils.{max_username_len, max_filename_len}
use tcpclient.File.Init.{InitFields, file_parse_init_payload}
use tcpclient.File.Storage.{Spans, stored_since}
use tcpclient.File.Tasks.{oldest_from, recv_handle_init}
use tcpclient.File.Invariant.{Kind, TaskOk, IsValid}
use tcpclient.File.Invariant.Slots.{slot-TaskOk}
use tcpclient.File.Invariant.Basic.{put_slot-IsValid}

abbrev waiting : RecvTask → Bool
waiting t = t.busy && not t.inited

-- The search for the oldest waiting task finds a waiting task.
oldest-waiting :
    (P : ℕ → Type 0) (ts : List RecvTask) (base : ℕ) (best : Option (ℕ × ℕ)) {i : ℕ}
    → ((k : ℕ) → k < length ts → waiting (get_or ts k no_recv) ≡ true → P (base + k))
    → ((k seq : ℕ) → best ≡ some (k, seq) → P k)
    → oldest_from ts base best ≡ some i
    → P i
unfolding oldest_from
oldest-waiting P [] base none h hb e = absurd (cc)
oldest-waiting P [] base (some (k, seq)) {i} h hb e =
    let same : k ≡ i = ground arith in rw (sym same) (hb k seq refl)
oldest-waiting P (t ∷ ts) base best {i} h hb e =
    oldest-waiting P ts (base + 1) _ {i = i}
      (λ k lt w.
        let same : base + 1 + k ≡ base + suc k = omega arith in rw same (h (suc k) (omega arith) w))
      (better best (waiting t) refl hb) e
  where
    first : waiting t ≡ true → P base
    first w = let same : base ≡ base + 0 = omega arith in rw same (h 0 (omega arith) w)

    better :
        (b : Option (ℕ × ℕ)) (w : Bool)
        → waiting t ≡ w
        → ((k seq : ℕ) → b ≡ some (k, seq) → P k)
        → (k seq : ℕ)
        → (if w
            then elim b [
              | none ↦ some (base, t.seq)
              | some (k, seq) ↦ if ltb t.seq seq then some (base, t.seq) else some (k, seq)
            ]
            else b)
          ≡ some (k, seq)
        → P k
    better b false ew hb k seq e = hb k seq e
    better none true ew hb k seq e = let same : base ≡ k = ground arith in rw (sym same) (first ew)
    better (some (k', seq')) true ew hb k seq e = elim (Bool-cases (ltb t.seq seq')) [
      | inl newer ↦ let same : base ≡ k = ground arith in rw (sym same) (first ew)
      | inr older ↦ let same : k' ≡ k = ground arith in rw (sym same) (hb k' seq' refl)
    ]

-- A task that waits for its INIT frame is not active.
waiting-idle :
    (s : Spans) (t : RecvTask)
    → waiting t ≡ true
    → TaskOk s t
    → (t.busy ≡ true) × (t.fp ≡ false) × Kind true false s t
waiting-idle s t w k = by_flag t.busy t.fp refl refl k
  where
    by_flag :
        (b f : Bool)
        → t.busy ≡ b
        → t.fp ≡ f
        → Kind b f s t
        → (t.busy ≡ true) × (t.fp ≡ false) × Kind true false s t
    by_flag false f eb ef k = absurd (ground arith)
    by_flag true true eb ef k = absurd (ground (arith, k.inited))
    by_flag true false eb ef k = (eb, ef, k)

pub recv_handle_init-IsValid :
    (payload : Bytes) (plen : ℕ) (c : Client)
    → IsValid c
    → IsValid (recv_handle_init payload plen c)
unfolding recv_handle_init
recv_handle_init-IsValid payload plen c v =
    option-holds IsValid (file_parse_init_payload payload plen max_username_len max_filename_len) v
      (λ fields e. option-holds IsValid (oldest_from c.recv_tasks 0 none) v (λ i found.
        described fields i (
          oldest-waiting (λ k. (k < length c.recv_tasks) × (waiting (slot c k) ≡ true)) c.recv_tasks
            0 none (λ k lt w. let same : 0 + k ≡ k = omega arith in rw same (lt, w))
            (λ k seq h. absurd (cc)) found)))
  where
    described :
        (fields : InitFields) (i : ℕ)
        → (i < length c.recv_tasks) × (waiting (slot c i) ≡ true)
        → IsValid (
            put_slot c i (record (slot c i) {
              inited = true;
              sender = fields.sender;
              filename = fields.filename;
              size = fields.size;
            }))
    described fields i (lt, w) =
        let (hb, hf, k) =
          waiting-idle (stored_since c.log) (slot c i) w
            (slot-TaskOk (stored_since c.log) c.recv_tasks i v.tasks) in
        put_slot-IsValid c i
          (record (slot c i) {
            inited = true;
            sender = fields.sender;
            filename = fields.filename;
            size = fields.size;
          })
          v lt (rw (hb, hf) k) refl refl
