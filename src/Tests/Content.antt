-- ===== src/Tests/Content.antt =====
-- A file of five bytes goes from one client to another.
use mathlib.Core.Path.{subst}
use tcpclient.Base.{
  length, get_or, take, drop, replicate, Bytes, codes, str_equal, contains, c_string, ℕ, ◌<◌, ◌≡◌,
  refl, true, false, some, List, [], ◌∷◌, ◌++◌, arith,
}
use tcpclient.Utils.{
  utils_parse_u64_range, utils_write_u16_be, utils_read_u32_be, utils_write_u32_be,
  utils_read_u64_be,
}
use tcpclient.Conn.{conn_send_all, Conn, broken, wrote}
use tcpclient.Conn.Delivery.{conn_send_all_completes}
use tcpclient.System.{Os, saved, line, closed, freed, dir_made}
use tcpclient.Client.{no_send, Client, start, slot, active}
use tcpclient.Protocol.MsgType
use tcpclient.Commands.{skip_blanks, commands_parse_tid_arg}
use tcpclient.File.Chunks.{file_chunk_plan}
use tcpclient.File.Tasks.{
  find_from, is_active, recv_task_find, recv_task_active, recv_task_slot, recv_task_complete,
  send_tid, recv_announce_incoming, oldest_from, recv_handle_init, store_chunk, recv_handle_chunk,
}
use tcpclient.File.Send.{progress_interval}
use tcpclient.File.Send.Wire.{wired, cursor, Works}
use tcpclient.File.Send.Progress.{ticks, Begins}
use tcpclient.File.Receive.{
  recv_name_taken, confirm_accept, open_target, make_dir, choose_name, accept_task, file_cmd_accept,
}
use tcpclient.File.Events.{handle_kind, file_handle_announcement, file_handle_frame}
use tcpclient.File.Storage.{stored_since}
use tcpclient.File.Storage.Content.{byte_at, take-drop-IsSlice}
use tcpclient.File.Session.{Reach, accept, announcement, frame, begin, next}
use tcpclient.File.Arriving.{handle_chunks, received_content}
use tcpclient.File.Transfer.{take_frames, Stores}
use tcpclient.File.Transfer.Opening.{Accepted, OpenedNew, accept_opens}
use tcpclient.File.Transfer.Whole.{transfer_whole}

abbrev content : Bytes
content = codes "hello"

-- Reads deliver the file from the position on, and all other calls succeed.
abbrev os : Os
os = record {
  send = λ log bytes. wrote (length bytes) broken;
  fopen_rb = λ log path. true;
  seek_end = λ log. true;
  ftell = λ log. some 5;
  seek_start = λ log. true;
  fread = λ log n. take n (drop (cursor log) content);
  fopen_wb = λ log path. true;
  fseek = λ log n. true;
  fwrite = λ log bytes. length bytes;
  access = λ log path. false;
  mkdir = λ log. dir_made;
  malloc = λ log n. true;
}

os-Works : Works os content
os-Works = record {
  reads = λ log n. refl;
  sends = λ log bytes. conn_send_all_completes (wrote (length bytes) broken) bytes (omega arith);
}

os-Stores : Stores os
os-Stores = record { seeks = λ log offset. refl; writes = λ log bytes. refl }

abbrev sending_client : Client
sending_client = record start {
  send_task = record no_send {
    busy = true;
    state = active;
    fp = true;
    tid = 7;
    size = 5;
    next_progress_mark = progress_interval;
    target = codes "bob";
    filename = codes "a.txt";
  };
}

sending-Begins : Begins content sending_client
sending-Begins = record {
  is_busy = refl;
  is_active = refl;
  of_size = refl;
  none_sent = refl;
  at_start = refl;
}

abbrev text : Bytes
text = codes "[Server] Incoming file transfer #7 from ann"

abbrev init : Bytes
init = codes "ann" ++ (0 ∷ (codes "a.txt" ++ (0 ∷ (codes "5" ++ (0 ∷ [])))))

-- The file is announced and described.
abbrev described : Client
described =
    file_handle_frame os MsgType.file_init init (length init)
      (file_handle_announcement os text start)

abbrev opened : Client
opened = (file_cmd_accept os (codes "/accept 7") described).0

described-Reach : Reach os described
described-Reach =
    next (next begin (announcement text)) (frame MsgType.file_init init (length init) (omega arith))

opened-Reach : Reach os opened
opened-Reach = next described-Reach (accept (codes "/accept 7"))

described_known :
    (commands_parse_tid_arg (drop 7 (codes "/accept 7")) ≡ some 7)
    × (recv_task_find 7 described ≡ some 0)
    × ((slot described 0).fp ≡ false)
    × ((slot opened 0).fp ≡ true)
    × ((slot described 0).size ≡ length content)
unfolding tcpclient.Base.str_equal tcpclient.Base.contains tcpclient.Base.c_string
    tcpclient.Utils.utils_parse_u64_range tcpclient.Utils.utils_write_u16_be
    tcpclient.Utils.utils_write_u32_be tcpclient.Conn.conn_send_all
    tcpclient.Protocol.protocol_build_tid tcpclient.Ui.send_frame tcpclient.Commands.skip_blanks
    tcpclient.Commands.commands_parse_tid_arg tcpclient.File.Announce.take_digits
    tcpclient.File.Announce.file_parse_announcement tcpclient.File.Init.init_fields
    tcpclient.File.Init.file_parse_init_payload tcpclient.File.Names.base_loop
    tcpclient.File.Names.file_basename_sanitize tcpclient.File.Names.candidate
    tcpclient.File.Names.unique_loop tcpclient.File.Names.file_unique_name
    tcpclient.File.Names.file_join_path tcpclient.File.Tasks.find_from
    tcpclient.File.Tasks.recv_task_find tcpclient.File.Tasks.recv_task_active
    tcpclient.File.Tasks.recv_task_slot tcpclient.File.Tasks.send_tid
    tcpclient.File.Tasks.recv_announce_incoming tcpclient.File.Tasks.oldest_from
    tcpclient.File.Tasks.recv_handle_init tcpclient.File.Receive.recv_name_taken
    tcpclient.File.Receive.make_dir tcpclient.File.Receive.confirm_accept
    tcpclient.File.Receive.open_target tcpclient.File.Receive.choose_name
    tcpclient.File.Receive.accept_task tcpclient.File.Receive.file_cmd_accept
    tcpclient.File.Events.handle_kind tcpclient.File.Events.file_handle_announcement
    tcpclient.File.Events.file_handle_frame
described_known = (refl, refl, refl, refl, refl)

accept_opens_example :
    Accepted 7 (slot described 0).size 0 opened × OpenedNew os described.log opened
accept_opens_example =
    accept_opens os (codes "/accept 7") 7 0 {c = described} described-Reach described_known.0
      described_known.1 described_known.2 described_known.3

opened-Accepted : Accepted 7 (length content) 0 opened
opened-Accepted =
    subst (λ size. Accepted 7 size 0 opened) described_known.4
      (accept_opens os (codes "/accept 7") 7 0 {c = described} described-Reach described_known.0
        described_known.1 described_known.2 described_known.3).0

abbrev chunk : Bytes
chunk = 0 ∷ 0 ∷ 0 ∷ 7 ∷ (replicate 8 0 ++ content)

abbrev filled : Client
filled = handle_chunks os (chunk ∷ []) opened

received_content_example : byte_at (stored_since filled.log) 3 ≡ some (get_or content 3 0)
unfolding tcpclient.Base.str_equal tcpclient.Base.contains tcpclient.Base.c_string
    tcpclient.Utils.utils_parse_u64_range tcpclient.Utils.utils_write_u16_be
    tcpclient.Utils.utils_read_u32_be tcpclient.Utils.utils_write_u32_be
    tcpclient.Utils.utils_read_u64_be tcpclient.Conn.conn_send_all
    tcpclient.Protocol.protocol_build_tid tcpclient.Ui.send_frame tcpclient.Commands.skip_blanks
    tcpclient.Commands.commands_parse_tid_arg tcpclient.File.Announce.take_digits
    tcpclient.File.Announce.file_parse_announcement tcpclient.File.Init.init_fields
    tcpclient.File.Init.file_parse_init_payload tcpclient.File.Names.base_loop
    tcpclient.File.Names.file_basename_sanitize tcpclient.File.Names.candidate
    tcpclient.File.Names.unique_loop tcpclient.File.Names.file_unique_name
    tcpclient.File.Names.file_join_path tcpclient.File.Chunks.file_chunk_plan
    tcpclient.File.Spans.file_recv_span_check tcpclient.File.Tasks.find_from
    tcpclient.File.Tasks.recv_task_find tcpclient.File.Tasks.recv_task_active
    tcpclient.File.Tasks.recv_task_slot tcpclient.File.Tasks.send_tid
    tcpclient.File.Tasks.recv_announce_incoming tcpclient.File.Tasks.oldest_from
    tcpclient.File.Tasks.recv_handle_init tcpclient.File.Tasks.store_chunk
    tcpclient.File.Tasks.recv_handle_chunk tcpclient.File.Receive.recv_name_taken
    tcpclient.File.Receive.make_dir tcpclient.File.Receive.confirm_accept
    tcpclient.File.Receive.open_target tcpclient.File.Receive.choose_name
    tcpclient.File.Receive.accept_task tcpclient.File.Receive.file_cmd_accept
    tcpclient.File.Events.handle_kind tcpclient.File.Events.file_handle_announcement
    tcpclient.File.Events.file_handle_frame tcpclient.File.Arriving.handle_chunks
received_content_example =
    received_content os content (chunk ∷ []) {c = opened} 0 opened-Reach refl
      (take-drop-IsSlice content 0 5, tt) refl refl 3 (omega arith)

transfer_whole_example :
    (frames : List Bytes) × (wired (ticks os 1 sending_client).log ≡ frames ++ [])
    × ((slot (take_frames os frames opened) 0).received ≡ length content)
    × ((p : ℕ)
        → p < length content
        → byte_at (stored_since (take_frames os frames opened).log) p ≡ some (get_or content p 0))
    × ((recv_task_complete 7 (take_frames os frames opened)).log
        ≡ freed
          ∷ closed
          ∷ line (
              saved
                (slot (take_frames os frames opened) 0).tid
                (slot (take_frames os frames opened) 0).save_name
                (length content))
          ∷ (take_frames os frames opened).log)
transfer_whole_example =
    transfer_whole os os content 0 0 sending_client {d = opened} os-Works sending-Begins os-Stores
      opened-Reach opened-Accepted (omega arith) (omega arith) (omega arith) (omega arith)
