-- ===== src/Tests/Phases.antt =====
-- A file is offered, named, accepted and sent.
use tcpclient.Base.{length, replicate, codes, contains, ◌≡◌, refl, true, false, some}
use tcpclient.Conn.{conn_send_all, Conn, broken, wrote}
use tcpclient.System.{Os, dir_made}
use tcpclient.Client.{Client, start}
use tcpclient.File.Send.{
  start_sending, offer_opened, file_cmd_sendfile, show_progress, send_chunk, send_round,
  send_rounds, file_send_tick,
}
use tcpclient.File.Send.Phase.{phase, sent_all}
use tcpclient.File.Events.{on_accepted, on_announced, handle_kind, file_handle_announcement}

abbrev os : Os
os = record {
  send = λ log bytes. wrote (length bytes) broken;
  fopen_rb = λ log path. true;
  seek_end = λ log. true;
  ftell = λ log. some 5;
  seek_start = λ log. true;
  fread = λ log n. replicate n b'x';
  fopen_wb = λ log path. true;
  fseek = λ log n. true;
  fwrite = λ log bytes. length bytes;
  access = λ log path. false;
  mkdir = λ log. dir_made;
  malloc = λ log n. true;
}

abbrev offered_client : Client
offered_client = (file_cmd_sendfile os (codes "/sendfile bob a.txt") start).0

abbrev named_client : Client
named_client =
    file_handle_announcement os
      (codes "[Server] File transfer #7: 'a.txt' (5 bytes) to bob. Waiting for acceptance...")
      offered_client

abbrev accepted_client : Client
accepted_client =
    file_handle_announcement os
      (codes "[Server] File transfer #7 accepted by bob. Start sending chunks.") named_client

abbrev sent_client : Client
sent_client = (file_send_tick os accepted_client).0

-- The size is sent in one tick.
sent_whole : phase sent_client.send_task ≡ sent_all 7 5
unfolding tcpclient.Base.contains tcpclient.Utils.utils_parse_u64_range
    tcpclient.Utils.utils_write_u16_be tcpclient.Utils.utils_write_u32_be
    tcpclient.Utils.utils_write_u64_be tcpclient.Utils.decimal tcpclient.Conn.conn_send_all
    tcpclient.Protocol.protocol_build_text3 tcpclient.Protocol.protocol_build_chunk
    tcpclient.Ui.send_frame tcpclient.Commands.skip_blanks tcpclient.Commands.take_word
    tcpclient.Commands.split_args tcpclient.Commands.commands_parse_sendfile
    tcpclient.File.Announce.take_digits tcpclient.File.Announce.file_parse_announcement
    tcpclient.File.Chunks.file_chunk_plan tcpclient.File.Events.on_accepted
    tcpclient.File.Events.on_announced tcpclient.File.Events.handle_kind
    tcpclient.File.Events.file_handle_announcement tcpclient.File.Send.start_sending
    tcpclient.File.Send.offer_opened tcpclient.File.Send.file_cmd_sendfile
    tcpclient.File.Send.show_progress tcpclient.File.Send.send_chunk tcpclient.File.Send.send_round
    tcpclient.File.Send.send_rounds tcpclient.File.Send.file_send_tick
sent_whole = refl
