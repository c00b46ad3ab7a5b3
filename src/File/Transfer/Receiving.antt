-- ===== src/File/Transfer/Receiving.antt =====
-- The chunks of a file arrive in their order at a client that has accepted it.
use tcpclient.File.Invariant.Receiving.{find-here}
use tcpclient.Base.{
  ltb, ◌==◌, ltb→lt, Bool-cases, length, get_or, set, take, drop, take-length, get_or-set_self,
  Bytes, ℕ, zero, suc, ◌+◌, ◌-◌, ◌*◌, ◌^◌, ◌≤◌, ◌<◌, min, ◌≡◌, refl, sym, ap, ◌∙◌, inl, inr, Bool,
  true, false, ◌||◌, Option, none, some, List, [], ◌∷◌, append-nil, arith,
}
use tcpclient.System.{Os}
use tcpclient.Utils.{utils_read_u64_be}
use tcpclient.Client.{RecvTask, no_recv, Client, slot}
use tcpclient.File.Chunks.{chunk_data_max}
use tcpclient.File.Chunks.Cover.{lt-chunk_count_of, chunk_len}
use tcpclient.File.Spans.{file_recv_span_check}
use tcpclient.File.Spans.Marks.{marked, chunk_of, IsFresh, span_check_iff}
use tcpclient.File.Tasks.{find_from, has_tid, recv_task_find, marked_map, map_of}
use tcpclient.File.Send.Wire.{
  chunk_bytes, chunk_body, chunk_frame, chunk_frames, length-chunk_bytes,
}
use tcpclient.File.Storage.{stored_since, chunk_total, Tracks}
use tcpclient.File.Storage.Content.{AllSlices, take-drop-IsSlice}
use tcpclient.File.Invariant.{IsValid}
use tcpclient.File.Invariant.Slots.{slot-TaskOk}
use tcpclient.File.Invariant.Storing.{active-Tracks, marked_map_lem, recv_handle_chunk-IsValid}
use tcpclient.File.Transfer.{
  take_frame, take_frames, Stores, length-chunk_body, chunk_body_fields, take_frame-chunk,
  stored_chunk, recv_handle_chunk-stored,
}

-- The reception in slot `i` has the first `k` chunks of the file.
pub record Holds (tid : ℕ) (content : Bytes) (i k : ℕ) (c : Client) : Type 0 where
  pub valid : IsValid c
  pub found : recv_task_find tid c ≡ some i
  pub is_open : (slot c i).fp ≡ true
  pub of_size : (slot c i).size ≡ length content
  pub so_far : (slot c i).received ≡ min (length content) (k * chunk_data_max)
  pub later_free : (j : ℕ) → k ≤ j → marked (map_of (slot c i)) j ≡ false
  pub slices : AllSlices content (stored_since c.log)

pub find_from-set :
    (test : RecvTask → Bool) (ts : List RecvTask) (i base : ℕ) (t : RecvTask)
    → test t ≡ test (get_or ts i no_recv)
    → find_from test (set ts i t) base ≡ find_from test ts base
unfolding find_from
find_from-set test [] i base t e = refl
find_from-set test (u ∷ ts) zero base t e = rw e refl
find_from-set test (u ∷ ts) (suc i) base t e = rw (find_from-set test ts i (base + 1) t e) refl

map_of-eq : (t : RecvTask) {map : Bytes} → t.bitmap ≡ some map → map_of t ≡ map
map_of-eq t e = ap (λ (o : Option Bytes). elim o [ none ↦ [] | some map ↦ map ]) e

take-whole : (s : Bytes) (n : ℕ) → n ≡ length s → take n s ≡ s
take-whole s n h = rw append-nil at (take-length s [] n h)

module _ (tid : ℕ) (content : Bytes) (i : ℕ) where
  pub open_Tracks :
      (k : ℕ) (c : Client) → Holds tid content i k c → Tracks (stored_since c.log) (slot c i)
  open_Tracks k c h =
      (active-Tracks (stored_since c.log) (slot c i) h.is_open
        (slot-TaskOk (stored_since c.log) c.recv_tasks i (h.valid.tasks))).1

  -- The next chunk is fresh.
  next-IsFresh :
      (k : ℕ) (c : Client)
      → (h : Holds tid content i k c) → k * chunk_data_max < length content
      → IsFresh
          (slot c i).size
          ((open_Tracks k c h).map)
          (k * chunk_data_max)
          (length (chunk_bytes content k))
  next-IsFresh k c h lt =
      let t : RecvTask = slot c i in
      let tr = open_Tracks k c h in
      let n = length-chunk_bytes content k in
      let at_k : chunk_of (k * chunk_data_max) ≡ k = omega arith in
      let below : k < chunk_total t.size =
        lt-chunk_count_of t.size chunk_data_max k (omega arith) (omega (arith, lt, h.of_size)) in
      record {
        not_empty = omega (arith, n, lt);
        aligned = omega arith;
        inside = omega (arith, n, h.of_size, lt);
        small = omega (arith, n);
        in_map = omega (arith, at_k, below, tr.map_length, tr.map_room);
        new =
            ap (marked (tr.map)) at_k
            ∙ ap (λ m. marked m k) (sym (map_of-eq t tr.has_map))
            ∙ h.later_free k (omega arith);
      }

  next_check :
      (k : ℕ) (c : Client)
      → Holds tid content i k c
      → k * chunk_data_max < length content
      → file_recv_span_check
          (slot c i).size
          (map_of (slot c i))
          (slot c i).bitmap_len
          (k * chunk_data_max)
          (length (chunk_bytes content k))
        ≡ true
  next_check k c h lt =
      let t : RecvTask = slot c i in
      let tr = open_Tracks k c h in
      let len : ℕ = length (chunk_bytes content k) in
      ap (λ m. file_recv_span_check t.size m t.bitmap_len (k * chunk_data_max) len)
        (map_of-eq t tr.has_map)
      ∙ ap (λ n. file_recv_span_check t.size (tr.map) n (k * chunk_data_max) len)
          (sym tr.map_length)
      ∙ (span_check_iff t.size (tr.map) (k * chunk_data_max) len).1 (next-IsFresh k c h lt)

  -- The frame of chunk `k` is stored at its place.
  chunk_arrives :
      (os : Os) (k : ℕ) (c : Client)
      → Stores os
      → tid < 2 ^ 32
      → k * chunk_data_max < 2 ^ 64
      → Holds tid content i k c
      → k * chunk_data_max < length content
      → take_frame os (chunk_frame tid content k) c
        ≡ stored_chunk i (k * chunk_data_max) (chunk_bytes content k) c
  chunk_arrives os k c w ht ho h lt =
      let body : Bytes = chunk_body tid content k in
      let len : ℕ = length (chunk_bytes content k) in
      let (read_tid, read_offset, read_bytes) = chunk_body_fields tid content k ht ho in
      let twelve : 12 + len - 12 ≡ len = omega arith in
      let bytes : take (12 + len - 12) (drop 12 body) ≡ chunk_bytes content k =
        rw (twelve, read_bytes) (take-whole (chunk_bytes content k) len refl) in
      let check : file_recv_span_check (slot c i).size (map_of (slot c i)) (slot c i).bitmap_len
            (utils_read_u64_be (drop 4 body)) (12 + len - 12)
          ≡ true =
        rw (twelve, read_offset) (next_check k c h lt) in
      take_frame-chunk os tid content k c
      ∙ recv_handle_chunk-stored os body (12 + len) i c w (omega arith)
          (ap (λ (n : ℕ). recv_task_find n c) read_tid ∙ h.found) h.is_open check
      ∙ ap (λ o. stored_chunk i o (take (12 + len - 12) (drop 12 body)) c) read_offset
      ∙ ap (λ b. stored_chunk i (k * chunk_data_max) b c) bytes

  chunk-Holds :
      (os : Os) (k : ℕ) (c : Client)
      → Stores os
      → tid < 2 ^ 32
      → k * chunk_data_max < 2 ^ 64
      → k * chunk_data_max < length content
      → Holds tid content i k c
      → Holds tid content i (k + 1) (take_frame os (chunk_frame tid content k) c)
  unfolding recv_task_find chunk_bytes
  chunk-Holds os k c w ht ho lt h =
      let t : RecvTask = slot c i in
      let tr = open_Tracks k c h in
      let offset : ℕ = k * chunk_data_max in
      let bytes : Bytes = chunk_bytes content k in
      let n = length-chunk_bytes content k in
      let t1 : RecvTask = record t {
        bitmap = marked_map t offset;
        received = t.received + length bytes;
      } in
      let (map', em, el, ok, marks) =
        marked_map_lem (stored_since c.log) t offset (length bytes) tr (next-IsFresh k c h lt) in
      let here : slot (stored_chunk i offset bytes c) i ≡ t1 =
        get_or-set_self c.recv_tasks i t1 no_recv (find-here tid c h.found) in
      let at_k : chunk_of offset ≡ k = omega arith in
      let body_length = length-chunk_body tid content k in
      let valid : IsValid (take_frame os (chunk_frame tid content k) c) =
        rw (take_frame-chunk os tid content k c) (
          recv_handle_chunk-IsValid os (chunk_body tid content k) (12 + length bytes) c h.valid
            (omega (arith, body_length))) in
      let arrives = chunk_arrives os k c w ht ho h lt in
      rw arrives (record {
        valid = rw arrives at valid;
        found = find_from-set (has_tid tid) c.recv_tasks i 0 t1 refl ∙ h.found;
        is_open = ap (λ (u : RecvTask). u.fp) here ∙ h.is_open;
        of_size = ap (λ (u : RecvTask). u.size) here ∙ h.of_size;
        so_far = ap (λ (u : RecvTask). u.received) here ∙ omega (arith, h.so_far, n, lt);
        later_free = λ j le.
            ap (λ (u : RecvTask). marked (map_of u) j) here
            ∙ ap (λ m. marked m j) (map_of-eq t1 em)
            ∙ marks j
            ∙ other_chunk k j (chunk_of offset) (marked (tr.map) j) at_k le (
                ap (λ m. marked m j) (sym (map_of-eq t tr.has_map))
                ∙ h.later_free j (omega (arith, le)));
        slices = (
          take-drop-IsSlice content offset (chunk_len (length content) chunk_data_max offset),
          h.slices,
        );
      })
    where
      other_chunk : (k j m : ℕ) (b : Bool) → m ≡ k → k + 1 ≤ j → b ≡ false → (m == j || b) ≡ false
      other_chunk k j m b e le h = ground arith

  -- The frames of a file, the first one oldest.
  pub chunk_frames-Holds :
      (os : Os) (n : ℕ) (c : Client)
      → Stores os
      → tid < 2 ^ 32
      → length content < 2 ^ 63
      → Holds tid content i 0 c
      → Holds tid content i n (take_frames os (chunk_frames tid content n) c)
  unfolding take_frames chunk_frames
  chunk_frames-Holds os zero c w ht big h = h
  chunk_frames-Holds os (suc n) c w ht big h =
      let so_far = chunk_frames-Holds os n c w ht big h in
      let older : Client = take_frames os (chunk_frames tid content n) c in
      elim (Bool-cases (ltb (n * chunk_data_max) (length content))) [
        | inl more ↦
            let same : n + 1 ≡ suc n = omega arith in
            let lt : n * chunk_data_max < length content =
              ltb→lt (n * chunk_data_max) (length content) more in
            rw (more, ← same) (chunk-Holds os n older w ht (omega (arith, lt, big)) lt so_far)
        | inr no_more ↦ rw no_more (past_Holds n older (ground (arith, no_more)) so_far)
      ]
    where
      past_Holds :
          (n : ℕ) (c : Client)
          → length content ≤ n * chunk_data_max
          → Holds tid content i n c
          → Holds tid content i (suc n) c
      past_Holds n c le h = record {
        valid = h.valid;
        found = h.found;
        is_open = h.is_open;
        of_size = h.of_size;
        so_far = omega (arith, h.so_far, le);
        later_free = λ j le. h.later_free j (omega (arith, le));
        slices = h.slices;
      }
