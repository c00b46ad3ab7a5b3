-- ===== src/Tests/Transfers.antt =====
-- One reception from its announcement to its end, with calls that succeed.
use tcpclient.Utils.{
  utils_parse_u64_range, utils_write_u16_be, utils_read_u32_be, utils_write_u32_be,
  utils_read_u64_be,
}
use tcpclient.Base.{
  length, replicate, All, Bytes, codes, str_equal, contains, c_string, ℕ, ◌<◌, ◌≡◌, refl, true,
  false, some, [], ◌∷◌, ◌++◌, arith,
}
use tcpclient.Conn.{conn_send_all, Conn, broken, wrote}
use tcpclient.System.{Os, dir_made}
use tcpclient.Client.{no_send, no_recv, Client, max_recv_pending, start, slot}
use tcpclient.Protocol.MsgType
use tcpclient.File.Tasks.{
  find_from, recv_task_find, recv_task_active, recv_task_slot, send_tid, recv_announce_incoming,
  oldest_from, recv_handle_init, store_chunk, recv_handle_chunk,
}
use tcpclient.File.Receive.{
  recv_name_taken, confirm_accept, open_target, make_dir, choose_name, accept_task, file_cmd_accept,
}
use tcpclient.File.Events.{handle_kind, file_handle_announcement, file_handle_frame, file_reset_all}
use tcpclient.File.Invariant.{opened_count, closed_count, allocated_count, freed_count, IsValid}
use tcpclient.File.Paths.{touched, InDownloads}
use tcpclient.File.Session.{Reach, Reach-IsValid, accept, announcement, frame, begin, next}
use tcpclient.File.Session.Reset.{reset-Clean}
use tcpclient.File.Session.Facts.{one_active, touched-InDownloads}

-- Every call of the kernel succeeds, and files read as bytes 'x'.
abbrev os : Os
os = record {
  send = λ log bytes. wrote (length bytes) broken;
  fopen_rb = λ log path. true;
  seek_end = λ log. true;
  ftell = λ log. some 5;
  seek_start = λ log. true;
  fread = λ log n. replicate n b'x';
  fopen_wb = λ log path. true;
  fseek = λ log n. true;
  fwrite = λ log bytes. length bytes;
  access = λ log path. false;
  mkdir = λ log. dir_made;
  malloc = λ log n. true;
}

abbrev text : Bytes
text = codes "[Server] Incoming file transfer #7 from ann"

abbrev init : Bytes
init = codes "ann" ++ (0 ∷ (codes "../a.txt" ++ (0 ∷ (codes "5" ++ (0 ∷ [])))))

abbrev chunk : Bytes
chunk = 0 ∷ 0 ∷ 0 ∷ 7 ∷ (replicate 8 0 ++ codes "hello")

abbrev announced : Client
announced = file_handle_announcement os text start

abbrev described : Client
described = file_handle_frame os MsgType.file_init init (length init) announced

abbrev opened : Client
opened = (file_cmd_accept os (codes "/accept 7") described).0

abbrev filled : Client
filled = file_handle_frame os MsgType.file_chunk chunk (length chunk) opened

abbrev filled-Reach : Reach os filled
filled-Reach =
    next
      (next
        (next (next begin (announcement text))
          (frame MsgType.file_init init (length init) (omega arith)))
        (accept (codes "/accept 7")))
      (frame MsgType.file_chunk chunk (length chunk) (omega arith))

Reach-IsValid_example : IsValid filled
Reach-IsValid_example = Reach-IsValid os {c = filled} filled-Reach

touched-InDownloads_example : All InDownloads (touched filled.log)
touched-InDownloads_example = touched-InDownloads os {c = filled} filled-Reach

filled_known : (recv_task_find 7 filled ≡ some 0) × ((slot filled 0).fp ≡ true)
unfolding tcpclient.Base.str_equal tcpclient.Base.contains tcpclient.Base.c_string
    tcpclient.Utils.utils_parse_u64_range tcpclient.Utils.utils_write_u16_be
    tcpclient.Utils.utils_read_u32_be tcpclient.Utils.utils_write_u32_be
    tcpclient.Utils.utils_read_u64_be tcpclient.Conn.conn_send_all
    tcpclient.Protocol.protocol_build_tid tcpclient.Ui.send_frame tcpclient.Commands.skip_blanks
    tcpclient.Commands.commands_parse_tid_arg tcpclient.File.Announce.take_digits
    tcpclient.File.Announce.file_parse_announcement tcpclient.File.Init.init_fields
    tcpclient.File.Init.file_parse_init_payload tcpclient.File.Names.base_loop
    tcpclient.File.Names.file_basename_sanitize tcpclient.File.Names.candidate
    tcpclient.File.Names.unique_loop tcpclient.File.Names.file_unique_name
    tcpclient.File.Names.file_join_path tcpclient.File.Chunks.file_chunk_plan
    tcpclient.File.Spans.file_recv_span_check tcpclient.File.Tasks.find_from
    tcpclient.File.Tasks.recv_task_find tcpclient.File.Tasks.recv_task_active
    tcpclient.File.Tasks.recv_task_slot tcpclient.File.Tasks.send_tid
    tcpclient.File.Tasks.recv_announce_incoming tcpclient.File.Tasks.oldest_from
    tcpclient.File.Tasks.recv_handle_init tcpclient.File.Tasks.store_chunk
    tcpclient.File.Tasks.recv_handle_chunk tcpclient.File.Receive.recv_name_taken
    tcpclient.File.Receive.make_dir tcpclient.File.Receive.confirm_accept
    tcpclient.File.Receive.open_target tcpclient.File.Receive.choose_name
    tcpclient.File.Receive.accept_task tcpclient.File.Receive.file_cmd_accept
    tcpclient.File.Events.handle_kind tcpclient.File.Events.file_handle_announcement
    tcpclient.File.Events.file_handle_frame
filled_known = (refl, refl)

one_active_example : let i : ℕ = 0 in i ≡ 0
one_active_example = one_active os {c = filled} 0 0 filled-Reach filled_known.1 filled_known.1

reset-Clean_example :
    ((file_reset_all filled).send_task ≡ no_send)
    × ((i : ℕ) → i < max_recv_pending → slot (file_reset_all filled) i ≡ no_recv)
    × (opened_count (file_reset_all filled).log ≡ closed_count (file_reset_all filled).log)
    × (allocated_count (file_reset_all filled).log ≡ freed_count (file_reset_all filled).log)
reset-Clean_example = reset-Clean os {c = filled} filled-Reach
