-- ===== src/File/Arriving.antt =====
-- CHUNK frames arrive at an active reception, in whatever order: what is stored are slices of the
-- file that is sent.
use tcpclient.Base.{
  if-holds, option-holds, ltb, ◌==◌, length, get_or, take, drop, All, Bytes, ℕ, ◌+◌, ◌-◌, ◌<◌, ◌≡◌,
  refl, ◌∙◌, true, not, ◌||◌, some, List, [], ◌∷◌, arith,
}
use tcpclient.System.{Notice, Os, bad_chunk, write_failed, line, stored}
use tcpclient.Utils.{utils_read_u32_be, utils_read_u64_be}
use tcpclient.Protocol.MsgType
use tcpclient.Client.{RecvTask, Client, slot, put_slot}
use tcpclient.Ui.{emit, ui_print}
use tcpclient.File.Spans.{file_recv_span_check}
use tcpclient.File.Tasks.{
  recv_task_find, recv_task_clear, send_tid_unchecked, recv_task_abort, marked_map, store_chunk,
  map_of, recv_handle_chunk,
}
use tcpclient.File.Events.{handle_control, file_handle_frame}
use tcpclient.File.Storage.{Spans, stored_since}
use tcpclient.File.Storage.Sums.{Tracks-written}
use tcpclient.File.Storage.Content.{byte_at, IsSlice, AllSlices, slices-byte_at}
use tcpclient.File.Invariant.{IsValid}
use tcpclient.File.Invariant.Slots.{slot-TaskOk}
use tcpclient.File.Invariant.Basic.{clear_effects_lem}
use tcpclient.File.Invariant.Output.{send_tid_unchecked-Quiet}
use tcpclient.File.Invariant.Storing.{active-Tracks}
use tcpclient.File.Session.{Reach, Reach-IsValid, frame, next}

-- The payload of a CHUNK frame carries a slice of this content, at the offset that it names.
abbrev pub Carries : Bytes → Bytes → Type 0
Carries content payload =
    IsSlice content (utils_read_u64_be (drop 4 payload))
      (take (length payload - 12) (drop 12 payload))

-- The frames are handled one after the other.
unfoldable pub handle_chunks : Os → List Bytes → Client → Client
handle_chunks os [] c = c
handle_chunks os (payload ∷ later) c =
    handle_chunks os later (file_handle_frame os MsgType.file_chunk payload (length payload) c)

abbrev Stored : Bytes → Client → Type 0
Stored content c = AllSlices content (stored_since c.log)

same-Stored :
    (content : Bytes) (c d : Client)
    → stored_since d.log ≡ stored_since c.log
    → Stored content c
    → Stored content d
same-Stored content c d e h = rw e h

abort-Stored :
    (os : Os) (content : Bytes) (i : ℕ) (why : Notice) (c : Client)
    → Stored content c
    → Stored content (recv_task_abort os i why c)
unfolding recv_task_abort recv_task_clear
abort-Stored os content i why c h =
    let d : Client = send_tid_unchecked os MsgType.file_cancel (slot c i).tid c in
    let (es, er, f) = send_tid_unchecked-Quiet os MsgType.file_cancel (slot c i).tid c in
    same-Stored content c (recv_task_clear i (ui_print why d))
      ((clear_effects_lem (slot (ui_print why d) i) (line why ∷ d.log)).0 ∙ f.0) h

recv_handle_chunk-Stored :
    (os : Os) (content payload : Bytes) (c : Client)
    → Carries content payload
    → Stored content c
    → Stored content (recv_handle_chunk os payload (length payload) c)
unfolding recv_handle_chunk store_chunk
recv_handle_chunk-Stored os content payload c carries h =
    let plen : ℕ = length payload in
    let offset : ℕ = utils_read_u64_be (drop 4 payload) in
    let bytes : Bytes = take (plen - 12) (drop 12 payload) in
    if-holds (Stored content) (ltb plen 12) (λ e. h)
      (λ e. option-holds (Stored content) (recv_task_find (utils_read_u32_be payload) c) h (λ i e.
        let t : RecvTask = slot c i in
        if-holds (Stored content) (not t.fp) (λ e. h)
          (λ e.
            if-holds (Stored content)
              (not (file_recv_span_check t.size (map_of t) t.bitmap_len offset (plen - 12)))
              (λ e. abort-Stored os content i (bad_chunk t.tid) c h)
              (λ e.
                if-holds (Stored content)
                  (not (os.fseek c.log offset) || not (os.fwrite c.log bytes == length bytes))
                  {y = put_slot (emit (stored t.save_name offset bytes) c) i (record t {
                    bitmap = marked_map t offset;
                    received = t.received + length bytes;
                  })}
                  (λ e. abort-Stored os content i (write_failed t.tid) c h) (λ e. (carries, h))))))

-- A payload of four bytes is no chunk, whatever its type says.
four_bytes : (tid : ℕ) (c : Client) → handle_control MsgType.file_chunk tid c ≡ c
unfolding handle_control
four_bytes tid c = refl

file_handle_frame-Stored :
    (os : Os) (content payload : Bytes) (c : Client)
    → Carries content payload
    → Stored content c
    → Stored content (file_handle_frame os MsgType.file_chunk payload (length payload) c)
unfolding file_handle_frame
file_handle_frame-Stored os content payload c carries h =
    if-holds (Stored content) (length payload == 4)
      (λ e. rw (four_bytes (utils_read_u32_be payload) c) h)
      (λ e. recv_handle_chunk-Stored os content payload c carries h)

pub handle_chunks-Stored :
    (os : Os) (content : Bytes) (payloads : List Bytes) (c : Client)
    → All (Carries content) payloads
    → Stored content c
    → Stored content (handle_chunks os payloads c)
unfolding handle_chunks
handle_chunks-Stored os content [] c carries h = h
handle_chunks-Stored os content (p ∷ later) c carries h =
    handle_chunks-Stored os content later (file_handle_frame os MsgType.file_chunk p (length p) c)
      carries.1 (file_handle_frame-Stored os content p c carries.0 h)

pub handle_chunks-Reach :
    (os : Os) (payloads : List Bytes) {c : Client}
    → Reach os c
    → Reach os (handle_chunks os payloads c)
unfolding handle_chunks
handle_chunks-Reach os [] r = r
handle_chunks-Reach os (p ∷ later) r =
    handle_chunks-Reach os later (next r (frame MsgType.file_chunk p (length p) (omega arith)))

-- From any reachable state in which nothing has been written since the last file was opened, CHUNK
-- frames are handled whose payloads carry slices of one content at the offsets they name; any of
-- them, in any order and as often as they come. If a reception is active afterwards and has counted
-- its size, each position of its file below the size holds the content's byte at this position.
pub received_content :
    (os : Os) (content : Bytes) (payloads : List Bytes) {c : Client} (i : ℕ)
    → Reach os c
    → stored_since c.log ≡ []
    → All (Carries content) payloads
    → (slot (handle_chunks os payloads c) i).fp ≡ true
    → (slot (handle_chunks os payloads c) i).received ≡ (slot (handle_chunks os payloads c) i).size
    → (p : ℕ) → p < (slot (handle_chunks os payloads c) i).size
    → byte_at (stored_since (handle_chunks os payloads c).log) p ≡ some (get_or content p 0)
received_content os content payloads {c} i r fresh carries is_open all_counted p lt =
    let d : Client = handle_chunks os payloads c in
    let v : IsValid d = Reach-IsValid os (handle_chunks-Reach os payloads r) in
    let s : Spans = stored_since d.log in
    let (busy, tr) = active-Tracks s (slot d i) is_open (slot-TaskOk s d.recv_tasks i v.tasks) in
    slices-byte_at content s p (handle_chunks-Stored os content payloads c carries (rw fresh tt))
      (Tracks-written s (slot d i) tr all_counted p lt)
