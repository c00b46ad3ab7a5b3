-- ===== src/File/Invariant/Storing.antt =====
-- The CHUNK frame keeps the invariant.
use tcpclient.Ui.{emit}
use tcpclient.File.Spans.Marks.{marked, chunk_of, IsFresh, span_check_iff, span_mark_lem}
use tcpclient.File.Storage.Growth.{Tracks-store}
use tcpclient.System.{Os, bad_chunk, write_failed, stored}
use tcpclient.File.Spans.{file_recv_span_check, file_recv_span_mark}
use tcpclient.File.Invariant.Receiving.{find-here, recv_task_abort-IsValid}
use tcpclient.Base.{
  if-holds, option-holds, ltb, ◌==◌, length, take, drop, All, length-set, length-take, length-drop,
  Bytes, IsByte, ℕ, ◌+◌, ◌-◌, ◌≤◌, ◌<◌, ◌≡◌, refl, sym, ap, ◌∙◌, Bool, true, false, not, ◌||◌,
  Option, none, some, [], ◌∷◌, arith,
}
use tcpclient.Client.{RecvTask, Client, slot, put_slot}
use tcpclient.Utils.{utils_read_u32_be, utils_read_u64_be}
use tcpclient.File.Storage.{Spans, stored_since, Tracks}
use tcpclient.File.Tasks.{recv_task_find, marked_map, store_chunk, map_of, recv_handle_chunk}
use tcpclient.File.Invariant.{fp_weight, handle_weight, map_weight, Kind, TaskOk, IsValid}
use tcpclient.File.Invariant.Slots.{weigh-set, All-set_stored, slot-TaskOk}

-- An active task, from its flags.
pub active-Tracks :
    (s : Spans) (t : RecvTask) → t.fp ≡ true → TaskOk s t → (t.busy ≡ true) × Tracks s t
active-Tracks s t e k = by_flag t.busy t.fp refl e k
  where
    by_flag : (b f : Bool) → t.busy ≡ b → f ≡ true → Kind b f s t → (t.busy ≡ true) × Tracks s t
    by_flag b false eb ef k = absurd (cc)
    by_flag false true eb ef k = absurd k
    by_flag true true eb ef k = (eb, k)

pub Tracks-TaskOk :
    (s : Spans) (t : RecvTask) → t.busy ≡ true → t.fp ≡ true → Tracks s t → TaskOk s t
Tracks-TaskOk s t hb hf h = by_flag t.busy t.fp hb hf
  where
    by_flag : (b f : Bool) → b ≡ true → f ≡ true → Kind b f s t
    by_flag true true eb ef = h
    by_flag true false eb ef = absurd (cc)
    by_flag false f eb ef = absurd (cc)

-- The span check on an active task, and the map that the mark gives.
span-IsFresh :
    (s : Spans) (t : RecvTask) (offset len : ℕ)
    → (h : Tracks s t) → file_recv_span_check t.size (map_of t) t.bitmap_len offset len ≡ true
    → IsFresh t.size (h.map) offset len
span-IsFresh s t offset len h e = (span_check_iff t.size (h.map) offset len).0 (
    ap (λ m. file_recv_span_check t.size m (length (h.map)) offset len)
      (ap (λ (o : Option Bytes). elim o [ none ↦ [] | some map ↦ map ]) (sym (h.has_map)))
    ∙ ap (λ n. file_recv_span_check t.size (map_of t) n offset len) h.map_length
    ∙ e)

pub marked_map_lem :
    (s : Spans) (t : RecvTask) (offset len : ℕ)
    → (h : Tracks s t) → IsFresh t.size (h.map) offset len
    → (map' : Bytes) × (marked_map t offset ≡ some map')
      × (length map' ≡ length (h.map))
      × All IsByte map'
      × ((j : ℕ) → marked map' j ≡ (chunk_of offset == j || marked (h.map) j))
unfolding marked_map
marked_map_lem s t offset len h f =
    let (map', e, el, ok, marks) = span_mark_lem (h.map) offset h.map_bytes f.aligned f.in_map in
    (map', opened t.bitmap t.bitmap_len h.has_map h.map_length e, el, ok, marks)
  where
    opened :
        (o : Option Bytes) (n : ℕ) {map map' : Bytes}
        → o ≡ some map
        → length map ≡ n
        → file_recv_span_mark map (length map) offset ≡ some map'
        → (elim o [
          | none ↦ none
          | some map ↦ elim (file_recv_span_mark map n offset) [
            | none ↦ some map
            | some map' ↦ some map'
          ]
        ])
          ≡ some map'
    opened o n {map} {map'} ho hn e = rw (ho, ← hn, e) refl

-- The slot of an active task changes together with what was stored.
stored_slot-IsValid :
    (c : Client) (i offset : ℕ) (bytes : Bytes) (t : RecvTask)
    → IsValid c
    → i < length c.recv_tasks
    → (slot c i).fp ≡ true
    → TaskOk ((offset, bytes) ∷ stored_since c.log) t
    → t.fp ≡ true
    → map_weight t ≡ map_weight (slot c i)
    → IsValid (put_slot (emit (stored (slot c i).save_name offset bytes) c) i t)
stored_slot-IsValid c i offset bytes t v lt hf ok ht hm = record {
  slots = length-set c.recv_tasks i t ∙ v.slots;
  tasks =
      All-set_stored (stored_since c.log) ((offset, bytes) ∷ stored_since c.log) c.recv_tasks i t
        (omega (arith, v.single, ap fp_weight hf)) v.tasks ok;
  single = omega (
    arith,
    v.single,
    weigh-set handle_weight c.recv_tasks i t lt,
    ap fp_weight hf,
    ap fp_weight ht,
  );
  handles = omega (
    arith,
    v.handles,
    weigh-set handle_weight c.recv_tasks i t lt,
    ap fp_weight hf,
    ap fp_weight ht,
  );
  maps = omega (arith, v.maps, weigh-set map_weight c.recv_tasks i t lt, hm);
  sending = v.sending;
  paths = v.paths;
}

map_weight-some : (t : RecvTask) {map : Bytes} → t.bitmap ≡ some map → map_weight t ≡ 1
map_weight-some t e = ap (λ (o : Option Bytes). elim o [ none ↦ 0 | some map ↦ 1 ]) e

store_chunk-IsValid :
    (os : Os) (i offset : ℕ) (bytes : Bytes) (c : Client)
    → IsValid c
    → i < length c.recv_tasks
    → (slot c i).fp ≡ true
    → file_recv_span_check
        (slot c i).size
        (map_of (slot c i))
        (slot c i).bitmap_len
        offset
        (length bytes)
      ≡ true
    → IsValid (store_chunk os i offset bytes c)
unfolding store_chunk
store_chunk-IsValid os i offset bytes c v lt hf check =
    if-holds IsValid (not (os.fseek c.log offset) || not (os.fwrite c.log bytes == length bytes))
      (λ e. recv_task_abort-IsValid os i (write_failed (slot c i).tid) c v lt)
      (λ e.
        let t : RecvTask = slot c i in
        let (hb, tr) =
          active-Tracks (stored_since c.log) t hf
            (slot-TaskOk (stored_since c.log) c.recv_tasks i v.tasks) in
        let fresh = span-IsFresh (stored_since c.log) t offset (length bytes) tr check in
        let (map', em, el, ok, marks) =
          marked_map_lem (stored_since c.log) t offset (length bytes) tr fresh in
        stored_slot-IsValid c i offset bytes
          (record t { bitmap = marked_map t offset; received = t.received + length bytes }) v lt hf
          (rw em (
            Tracks-TaskOk ((offset, bytes) ∷ stored_since c.log)
              (record t { bitmap = some map'; received = t.received + length bytes }) hb hf
              (Tracks-store (stored_since c.log) t offset bytes map' tr fresh el ok marks)))
          hf
          (map_weight-some (record t { bitmap = marked_map t offset }) em
            ∙ sym (map_weight-some t tr.has_map)))

long_enough : (bytes : Bytes) (n : ℕ) → n ≤ length bytes → length (take n bytes) ≡ n
long_enough bytes n h = omega (arith, length-take n bytes)

flip : (b : Bool) → not b ≡ false → b ≡ true
flip true e = refl
flip false e = absurd (cc)

pub recv_handle_chunk-IsValid :
    (os : Os) (payload : Bytes) (plen : ℕ) (c : Client)
    → IsValid c
    → plen ≤ length payload
    → IsValid (recv_handle_chunk os payload plen c)
unfolding recv_handle_chunk
recv_handle_chunk-IsValid os payload plen c v hl =
    let tid = utils_read_u32_be payload in
    if-holds IsValid (ltb plen 12) (λ e. v)
      (λ e. option-holds IsValid (recv_task_find tid c) v (λ i found.
        if-holds IsValid (not (slot c i).fp) (λ h. v)
          (λ h.
            if-holds IsValid
              (not (
                file_recv_span_check (slot c i).size (map_of (slot c i)) (slot c i).bitmap_len
                  (utils_read_u64_be (drop 4 payload)) (plen - 12)))
              (λ k.
                recv_task_abort-IsValid os i (bad_chunk (slot c i).tid) c v (find-here tid c found))
              (λ k.
                store_chunk-IsValid os i (utils_read_u64_be (drop 4 payload))
                  (take (plen - 12) (drop 12 payload)) c v (find-here tid c found) (ground arith)
                  (rw
                    (long_enough (drop 12 payload) (plen - 12)
                      (ground (arith, length-drop 12 payload)))
                    (flip _ k))))))
