-- ===== src/Tests/Loop.antt =====
-- The read buffer and the loop at concrete inputs.
use tcpclient.Protocol.Parsing.{whole_frame}
use tcpclient.Protocol.{protocol_parse}
use tcpclient.Base.{
  length, replicate, Bytes, codes, c_string, ℕ, ◌<◌, ◌≡◌, refl, sym, inl, true, false, none, some,
  List, [], ◌∷◌, ◌++◌, arith,
}
use tcpclient.Conn.{broken, wrote}
use tcpclient.System.{Os, dir_exists}
use tcpclient.Client.{start}
use tcpclient.App.{
  rbuf_init, App, app_ensure_capacity, text_of, show_text, app_handle_frame, dispatch_loop,
  app_dispatch, app_handle_socket, received,
}
use tcpclient.App.Dispatching.{stream, handle_all, app_dispatch-stream}
use tcpclient.App.Pieces.{seen, app_dispatch-append}
use tcpclient.App.Buffer.{Buffered, app_ensure_capacity-Buffered, Kept, app_handle_socket-Kept}

abbrev os : Os
os = record {
  send = λ log bytes. wrote (length bytes) broken;
  fopen_rb = λ log path. true;
  seek_end = λ log. true;
  ftell = λ log. some 5;
  seek_start = λ log. true;
  fread = λ log n. replicate n b'x';
  fopen_wb = λ log path. true;
  fseek = λ log n. true;
  fwrite = λ log bytes. length bytes;
  access = λ log path. false;
  mkdir = λ log. dir_exists;
  malloc = λ log n. true;
}

-- Two chat frames, and three bytes of another.
abbrev two_frames : List (ℕ × Bytes)
two_frames = (2, codes "hi" ++ (0 ∷ [])) ∷ (2, codes "ho" ++ (0 ∷ [])) ∷ []

abbrev three_bytes : Bytes
three_bytes = 0xCA ∷ 0xFE ∷ 2 ∷ []

abbrev waiting_app : App
waiting_app = record {
  client = start;
  rbuf = stream two_frames three_bytes;
  rbuf_cap = rbuf_init;
  running = true;
  input = [];
}

app_dispatch-stream_example :
    app_dispatch os waiting_app ≡ elim (handle_all os two_frames three_bytes start) [
      | none ↦ none
      | some c ↦ some (record waiting_app { client = c; rbuf = three_bytes })
    ]
unfolding tcpclient.Protocol.protocol_parse
app_dispatch-stream_example =
    app_dispatch-stream os waiting_app two_frames three_bytes refl (omega arith, (omega arith, tt))
      refl

abbrev fresh_app : App
fresh_app = record {
  client = start;
  rbuf = three_bytes;
  rbuf_cap = rbuf_init;
  running = true;
  input = [];
}

fresh-Buffered : Buffered fresh_app
fresh-Buffered = record {
  small = omega arith;
  bytes = (omega arith, (omega arith, (omega arith, tt)));
  cap = inl refl;
}

app_handle_socket-Kept_example :
    Kept (app_handle_socket os true (received (0 ∷ 1 ∷ b'x' ∷ [])) fresh_app)
app_handle_socket-Kept_example =
    app_handle_socket-Kept os true (received (0 ∷ 1 ∷ b'x' ∷ [])) fresh_app fresh-Buffered
      (λ bytes e.
        let same : 0 ∷ 1 ∷ b'x' ∷ [] ≡ bytes = cc in
        rw (sym same) (omega arith, (omega arith, (omega arith, tt))))

app_ensure_capacity-Buffered_example :
    ((app_ensure_capacity true fresh_app).1 ≡ true)
    × ((app_ensure_capacity true fresh_app).0.rbuf ≡ three_bytes)
    × (length three_bytes < (app_ensure_capacity true fresh_app).0.rbuf_cap)
    × Buffered (app_ensure_capacity true fresh_app).0
app_ensure_capacity-Buffered_example = app_ensure_capacity-Buffered fresh_app fresh-Buffered

abbrev first_app : App
first_app = record {
  client = start;
  rbuf = [];
  rbuf_cap = rbuf_init;
  running = true;
  input = codes "/users" ++ (b'\n' ∷ []);
}

-- The second frame is cut behind its type.
abbrev cut_app : App
cut_app = elim (app_dispatch os waiting_app) [ none ↦ waiting_app | some b ↦ b ]

abbrev behind_cut : Bytes
behind_cut = 0 ∷ 3 ∷ b'y' ∷ b'o' ∷ 0 ∷ []

app_dispatch-append_example :
    seen (app_dispatch os (record cut_app { rbuf = cut_app.rbuf ++ behind_cut }))
    ≡ seen (app_dispatch os (record waiting_app { rbuf = waiting_app.rbuf ++ behind_cut }))
unfolding stream whole_frame tcpclient.Base.c_string tcpclient.Utils.utils_read_u16_be
    tcpclient.Utils.utils_write_u16_be tcpclient.Protocol.protocol_parse tcpclient.App.text_of
    tcpclient.App.show_text tcpclient.App.app_handle_frame tcpclient.App.dispatch_loop app_dispatch
app_dispatch-append_example =
    app_dispatch-append os waiting_app behind_cut {a1 = cut_app} refl refl refl
