-- ===== src/App/Views/Files.antt =====
-- The file frames do not depend on what stands behind them.
use tcpclient.Base.{
  ltb, ◌==◌, if◌then◌else◌, length, take, drop, length-drop, Bytes, ℕ, ◌-◌, ◌≤◌, ◌≡◌, refl, ap, ◌∙◌,
  Bool, true, false, not, none, some, ◌++◌, arith,
}
use tcpclient.System.{Os, bad_chunk}
use tcpclient.Utils.{max_username_len, max_filename_len, utils_read_u32_be, utils_read_u64_be}
use tcpclient.Protocol.MsgType
use tcpclient.Client.{Client, slot}
use tcpclient.File.Init.{file_parse_init_payload}
use tcpclient.File.Spans.{file_recv_span_check}
use tcpclient.File.Tasks.{
  recv_task_find, recv_task_abort, recv_handle_init, store_chunk, map_of, recv_handle_chunk,
}
use tcpclient.File.Events.{handle_control, file_handle_frame}
use tcpclient.App.Views.Memory.{drop-append, take-append, read_u32-more, read_u64-more}

init-more :
    (m more : Bytes) (plen a b : ℕ)
    → plen ≤ length m
    → file_parse_init_payload (m ++ more) plen a b ≡ file_parse_init_payload m plen a b
unfolding file_parse_init_payload
init-more m more plen a b le = rw (file_parse_init_payload, take-append plen m more le) refl

recv_handle_init-more :
    (m more : Bytes) (plen : ℕ) (c : Client)
    → plen ≤ length m
    → recv_handle_init (m ++ more) plen c ≡ recv_handle_init m plen c
unfolding recv_handle_init
recv_handle_init-more m more plen c le =
    rw (recv_handle_init, init-more m more plen max_username_len max_filename_len le) refl

-- The fields of a CHUNK frame.
abbrev chunk_with : Os → ℕ → ℕ → Bytes → ℕ → Client → Client
chunk_with os tid offset bytes plen c = elim (recv_task_find tid c) [
  | none ↦ c
  | some i ↦
      if not (slot c i).fp
      then c
      else if not (
          file_recv_span_check (slot c i).size (map_of (slot c i)) (slot c i).bitmap_len offset
            (plen - 12))
      then recv_task_abort os i (bad_chunk (slot c i).tid) c
      else store_chunk os i offset bytes c
]

recv_handle_chunk-more :
    (os : Os) (m more : Bytes) (plen : ℕ) (c : Client)
    → plen ≤ length m
    → recv_handle_chunk os (m ++ more) plen c ≡ recv_handle_chunk os m plen c
unfolding recv_handle_chunk
recv_handle_chunk-more os m more plen c le = by_length (ltb plen 12) (λ long. ground (arith, long))
  where
    by_length :
        (b : Bool)
        → (b ≡ false → 12 ≤ plen)
        → (if b
            then c
            else chunk_with os
                (utils_read_u32_be (m ++ more))
                (utils_read_u64_be (drop 4 (m ++ more)))
                (take (plen - 12) (drop 12 (m ++ more)))
                plen
                c)
          ≡ (if b
              then c
              else chunk_with os
                  (utils_read_u32_be m)
                  (utils_read_u64_be (drop 4 m))
                  (take (plen - 12) (drop 12 m))
                  plen
                  c)
    by_length true h = refl
    by_length false h =
        let long : 12 ≤ plen = h refl in
        let eight : utils_read_u64_be (drop 4 (m ++ more)) ≡ utils_read_u64_be (drop 4 m) =
          ap utils_read_u64_be (drop-append 4 m more (omega (arith, long, le)))
          ∙ read_u64-more (drop 4 m) more (omega (arith, long, le, length-drop 4 m)) in
        let rest : take (plen - 12) (drop 12 (m ++ more)) ≡ take (plen - 12) (drop 12 m) =
          ap (take (plen - 12)) (drop-append 12 m more (omega (arith, long, le)))
          ∙ take-append (plen - 12) (drop 12 m) more (omega (arith, le, length-drop 12 m)) in
        ap
          (λ n.
            chunk_with os n (utils_read_u64_be (drop 4 (m ++ more)))
              (take (plen - 12) (drop 12 (m ++ more))) plen c)
          (read_u32-more m more (omega (arith, long, le)))
        ∙ ap
            (λ n.
              chunk_with os (utils_read_u32_be m) n (take (plen - 12) (drop 12 (m ++ more))) plen c)
            eight
        ∙ ap (λ bs. chunk_with os (utils_read_u32_be m) (utils_read_u64_be (drop 4 m)) bs plen c)
            rest

pub file_handle_frame-more :
    (os : Os) (msg_type : ℕ) (m more : Bytes) (plen : ℕ) (c : Client)
    → plen ≤ length m
    → file_handle_frame os msg_type (m ++ more) plen c ≡ file_handle_frame os msg_type m plen c
unfolding file_handle_frame
file_handle_frame-more os msg_type m more plen c le =
    by_length (plen == 4) (λ four. ground (arith, four))
  where
    by_length :
        (b : Bool)
        → (b ≡ true → 4 ≤ length m)
        → (if b
            then handle_control msg_type (utils_read_u32_be (m ++ more)) c
            else if msg_type == MsgType.file_init
            then recv_handle_init (m ++ more) plen c
            else if msg_type == MsgType.file_chunk
            then recv_handle_chunk os (m ++ more) plen c
            else c)
          ≡ (if b
              then handle_control msg_type (utils_read_u32_be m) c
              else if msg_type == MsgType.file_init
              then recv_handle_init m plen c
              else if msg_type == MsgType.file_chunk
              then recv_handle_chunk os m plen c
              else c)
    by_length true h = ap (λ n. handle_control msg_type n c) (read_u32-more m more (h refl))
    by_length false h =
        ap
          (λ d.
            if msg_type == MsgType.file_init
            then d
            else if msg_type == MsgType.file_chunk
            then recv_handle_chunk os (m ++ more) plen c
            else c)
          (recv_handle_init-more m more plen c le)
        ∙ ap
            (λ d.
              if msg_type == MsgType.file_init
              then recv_handle_init m plen c
              else if msg_type == MsgType.file_chunk
              then d
              else c)
            (recv_handle_chunk-more os m more plen c le)
