-- ===== src/Tests/Sending.antt =====
-- A file of four chunks is sent.
use tcpclient.Base.{
  length, take, drop, replicate, length-replicate, Bytes, codes, ℕ, ◌≡◌, refl, sym, true, false,
  some, [], ◌++◌, arith,
}
use tcpclient.Conn.{broken, wrote}
use tcpclient.Conn.Delivery.{conn_send_all_completes}
use tcpclient.System.{Os, dir_made}
use tcpclient.Client.{no_send, Client, start, active, done, wait_complete}
use tcpclient.File.Send.{progress_interval, file_send_tick}
use tcpclient.File.Send.Wire.{wired, cursor, Works, chunk_frames}
use tcpclient.File.Send.Progress.{ticks, Begins, sends_all}

abbrev content : Bytes
content = replicate 200000 b'x'

content-length : length content ≡ 200000
content-length = length-replicate {A = ℕ} 200000 b'x'

-- Reads deliver the file from the position on.
abbrev os : Os
os = record {
  send = λ log bytes. wrote (length bytes) broken;
  fopen_rb = λ log path. true;
  seek_end = λ log. true;
  ftell = λ log. some 200000;
  seek_start = λ log. true;
  fread = λ log n. take n (drop (cursor log) content);
  fopen_wb = λ log path. true;
  fseek = λ log n. true;
  fwrite = λ log bytes. length bytes;
  access = λ log path. false;
  mkdir = λ log. dir_made;
  malloc = λ log n. true;
}

os-Works : Works os content
os-Works = record {
  reads = λ log n. refl;
  sends = λ log bytes. conn_send_all_completes (wrote (length bytes) broken) bytes (omega arith);
}

abbrev accepted_client : Client
accepted_client = record start {
  send_task = record no_send {
    busy = true;
    state = active;
    fp = true;
    tid = 7;
    size = 200000;
    next_progress_mark = progress_interval;
    target = codes "bob";
    filename = codes "a.txt";
  };
}

accepted-Begins : Begins content accepted_client
accepted-Begins = record {
  is_busy = refl;
  is_active = refl;
  of_size = sym content-length;
  none_sent = refl;
  at_start = refl;
}

sends_all_example :
    ((ticks os 2 accepted_client).send_task.state ≡ done)
    × ((ticks os 2 accepted_client).send_task.sent ≡ length content)
    × (wired (ticks os 2 accepted_client).log ≡ chunk_frames 7 content 4 ++ [])
    × ((file_send_tick os (ticks os 2 accepted_client)).0.send_task.state ≡ wait_complete)
    × ((file_send_tick os (ticks os 2 accepted_client)).1 ≡ true)
sends_all_example =
    sends_all os content 1 accepted_client os-Works accepted-Begins (omega (arith, content-length))
      (omega (arith, content-length)) (omega (arith, content-length))
