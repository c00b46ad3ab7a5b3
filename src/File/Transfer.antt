-- ===== src/File/Transfer.antt =====
-- A whole transfer: the frames that one client's ticks put on the connection, handled by another
-- client that has accepted the file.
pub mod Receiving
pub mod Opening
pub mod Whole
use tcpclient.Ui.{emit}
use tcpclient.File.Spans.{file_recv_span_check}
use tcpclient.Protocol.{protocol_parse, Parsed, need_more, bad, frame as parsed_frame}
use tcpclient.Base.{
  option-holds_either, if-holds, ltb, ◌==◌, length, take, drop, Bytes, ℕ, ◌+◌, ◌-◌, ◌*◌, ◌^◌, ◌≤◌,
  ◌<◌, ◌≡◌, refl, ap, ◌∙◌, true, false, not, ◌||◌, Option, none, some, List, [], ◌∷◌, append-nil,
  arith,
}
use tcpclient.System.{Log, Os, stored}
use tcpclient.Utils.{utils_read_u32_be, utils_write_u32_be, utils_read_u64_be, utils_write_u64_be}
use tcpclient.Protocol.MsgType
use tcpclient.Protocol.Parsing.{view_of, parse-whole_frame}
use tcpclient.Client.{RecvTask, Client, slot, put_slot}
use tcpclient.File.Chunks.{chunk_data_max}
use tcpclient.File.Tasks.{recv_task_find, marked_map, store_chunk, map_of, recv_handle_chunk}
use tcpclient.File.Events.{file_handle_frame}
use tcpclient.File.Send.Wire.{chunk_bytes, chunk_body, chunk_frame, length-chunk_bytes}

-- One frame off the connection, given to the transfers.
unfoldable pub handle_parsed : Os → Parsed → Client → Client
handle_parsed os need_more c = c
handle_parsed os bad c = c
handle_parsed os (parsed_frame msg_type none plen consumed) c = c
handle_parsed os (parsed_frame msg_type (some payload) plen consumed) c =
    file_handle_frame os msg_type payload plen c

abbrev pub take_frame : Os → Bytes → Client → Client
take_frame os bytes c = handle_parsed os (protocol_parse bytes) c

-- The frames, of which the newest stands first.
unfoldable pub take_frames : Os → List Bytes → Client → Client
take_frames os [] c = c
take_frames os (bytes ∷ older) c = take_frame os bytes (take_frames os older c)

-- Seeking succeeds, and every write is complete.
pub record Stores (os : Os) : Type 0 where
  pub seeks : (log : Log) (offset : ℕ) → os.fseek log offset ≡ true
  pub writes : (log : Log) (bytes : Bytes) → os.fwrite log bytes ≡ length bytes

pub length-chunk_body :
    (tid : ℕ) (content : Bytes) (k : ℕ)
    → length (chunk_body tid content k) ≡ 12 + length (chunk_bytes content k)
unfolding chunk_body utils_write_u32_be utils_write_u64_be
length-chunk_body tid content k = omega arith

-- What the receiver reads off a chunk's body.
pub chunk_body_fields :
    (tid : ℕ) (content : Bytes) (k : ℕ)
    → tid < 2 ^ 32
    → k * chunk_data_max < 2 ^ 64
    → (utils_read_u32_be (chunk_body tid content k) ≡ tid)
      × (utils_read_u64_be (drop 4 (chunk_body tid content k)) ≡ k * chunk_data_max)
      × (drop 12 (chunk_body tid content k) ≡ chunk_bytes content k)
unfolding chunk_body utils_write_u32_be utils_write_u64_be utils_read_u32_be utils_read_u64_be
chunk_body_fields tid content k ht ho = (omega arith, omega arith, refl)

-- A chunk's frame goes to `recv_handle_chunk` with its body.
pub take_frame-chunk :
    (os : Os) (tid : ℕ) (content : Bytes) (k : ℕ) (c : Client)
    → take_frame os (chunk_frame tid content k) c
      ≡ recv_handle_chunk os (chunk_body tid content k) (12 + length (chunk_bytes content k)) c
unfolding handle_parsed file_handle_frame
take_frame-chunk os tid content k c =
    let body : Bytes = chunk_body tid content k in
    let n : length body ≡ 12 + length (chunk_bytes content k) = length-chunk_body tid content k in
    let small : length (chunk_bytes content k) ≤ chunk_data_max =
      omega (arith, length-chunk_bytes content k) in
    let shown : view_of body [] ≡ some body = ground (arith, append-nil body) in
    let four : (12 + length (chunk_bytes content k) == 4) ≡ false = ground arith in
    ap (λ r. handle_parsed os r c)
      (parse-whole_frame MsgType.file_chunk body [] (omega (arith, n, small)))
    ∙ ap
        (λ (v : Option Bytes).
          handle_parsed os (parsed_frame MsgType.file_chunk v (length body) (5 + length body)) c)
        shown
    ∙ ap (λ (m : ℕ). file_handle_frame os MsgType.file_chunk body m c) n
    ∙ rw four refl

-- The state once a chunk is stored.
abbrev pub stored_chunk : ℕ → ℕ → Bytes → Client → Client
stored_chunk i offset bytes c =
    let t : RecvTask = slot c i in
    put_slot (emit (stored t.save_name offset bytes) c) i
      (record t { bitmap = marked_map t offset; received = t.received + length bytes })

-- A chunk that passes every test is stored.
pub recv_handle_chunk-stored :
    (os : Os) (payload : Bytes) (plen i : ℕ) (c : Client)
    → Stores os
    → 12 ≤ plen
    → recv_task_find (utils_read_u32_be payload) c ≡ some i
    → (slot c i).fp ≡ true
    → file_recv_span_check
        (slot c i).size
        (map_of (slot c i))
        (slot c i).bitmap_len
        (utils_read_u64_be (drop 4 payload))
        (plen - 12)
      ≡ true
    → recv_handle_chunk os payload plen c
      ≡ stored_chunk i (utils_read_u64_be (drop 4 payload)) (take (plen - 12) (drop 12 payload)) c
unfolding recv_handle_chunk store_chunk
recv_handle_chunk-stored os payload plen i c w long found is_open check =
    let offset : ℕ = utils_read_u64_be (drop 4 payload) in
    let bytes : Bytes = take (plen - 12) (drop 12 payload) in
    let Is : Client → Type 0 = λ d. d ≡ stored_chunk i offset bytes c in
    if-holds Is (ltb plen 12) (λ e. absurd (ground arith))
      (λ e.
        option-holds_either Is (recv_task_find (utils_read_u32_be payload) c) (λ e. absurd (cc))
          (λ j e.
            let same : j ≡ i = ground arith in
            rw same (
              if-holds Is (not (slot c i).fp) (λ e. absurd (ground (arith, is_open)))
                (λ e.
                  if-holds Is
                    (not (
                      file_recv_span_check (slot c i).size (map_of (slot c i)) (slot c i).bitmap_len
                        offset (plen - 12)))
                    (λ e. absurd (ground (arith, check)))
                    (λ e.
                      if-holds Is
                        (not (os.fseek c.log offset) || not (os.fwrite c.log bytes == length bytes))
                        (λ e. absurd (ground (arith, w.seeks c.log offset, w.writes c.log bytes)))
                        (λ e. refl))))))
