-- ===== src/File/Send/Wire.antt =====
-- The frames that carry a file, and the log read as the kernel sees it: what went out on the
-- connection, and how far the open file has been read. These are specifications.
use tcpclient.Base.{
  ltb, if◌then◌else◌, lt→ltb, length, take, drop, length-take, length-drop, Bytes, ℕ, zero, suc,
  ◌+◌, ◌*◌, ◌≤◌, ◌<◌, ◌≡◌, refl, ap, ◌∙◌, Bool, true, false, some, List, [], ◌∷◌, ◌++◌, arith,
}
use tcpclient.Conn.{SendAnswers, conn_send_all}
use tcpclient.Conn.Delivery.{Delivers, conn_send_all-Delivers}
use tcpclient.System.{
  Notice, Log, Os, wire, line, newline, prompt, opened_rb, opened_wb, closed, read, stored, removed,
  made_dir, allocated, freed,
}
use tcpclient.Utils.{utils_write_u32_be, utils_write_u64_be}
use tcpclient.Protocol.{protocol_build_chunk}
use tcpclient.Protocol.MsgType
use tcpclient.Protocol.Parsing.{whole_frame}
use tcpclient.Protocol.Texts.{build_inline-whole}
use tcpclient.Client.{Client}
use tcpclient.Ui.{ui_prompt, ui_display_incoming}
use tcpclient.File.Chunks.{chunk_data_max}
use tcpclient.File.Chunks.Cover.{chunk_len}

-- What each call of `conn_send_all` put on the connection, the newest first.
abbrev pub wired : Log → List Bytes
wired [] = []
wired (wire bytes ∷ log) = bytes ∷ wired log
wired (line text ∷ log) = wired log
wired (newline ∷ log) = wired log
wired (prompt ∷ log) = wired log
wired (opened_rb path ∷ log) = wired log
wired (opened_wb path ∷ log) = wired log
wired (closed ∷ log) = wired log
wired (read n ∷ log) = wired log
wired (stored path offset bytes ∷ log) = wired log
wired (removed path ∷ log) = wired log
wired (made_dir path ∷ log) = wired log
wired (allocated ∷ log) = wired log
wired (freed ∷ log) = wired log

-- The position of the file that was opened last for reading.
abbrev pub cursor : Log → ℕ
cursor [] = 0
cursor (read n ∷ log) = cursor log + n
cursor (opened_rb path ∷ log) = 0
cursor (wire bytes ∷ log) = cursor log
cursor (line text ∷ log) = cursor log
cursor (newline ∷ log) = cursor log
cursor (prompt ∷ log) = cursor log
cursor (opened_wb path ∷ log) = cursor log
cursor (closed ∷ log) = cursor log
cursor (stored path offset bytes ∷ log) = cursor log
cursor (removed path ∷ log) = cursor log
cursor (made_dir path ∷ log) = cursor log
cursor (allocated ∷ log) = cursor log
cursor (freed ∷ log) = cursor log

-- Every read delivers the file's bytes from the position on, as many as are asked for or left; every
-- frame is sent.
pub record Works (os : Os) (content : Bytes) : Type 0 where
  pub reads : (log : Log) (n : ℕ) → os.fread log n ≡ take n (drop (cursor log) content)
  pub sends : (log : Log) (built : Bytes) → (conn_send_all (os.send log built) built).0 ≡ true

-- Chunk `k` of the file, and the body of its frame.
unfoldable pub chunk_bytes : Bytes → ℕ → Bytes
chunk_bytes content k =
    take (chunk_len (length content) chunk_data_max (k * chunk_data_max))
      (drop (k * chunk_data_max) content)

unfoldable pub chunk_body : ℕ → Bytes → ℕ → Bytes
chunk_body tid content k =
    utils_write_u32_be tid ++ (utils_write_u64_be (k * chunk_data_max) ++ chunk_bytes content k)

abbrev pub chunk_frame : ℕ → Bytes → ℕ → Bytes
chunk_frame tid content k = whole_frame MsgType.file_chunk (chunk_body tid content k) []

-- The frames of the chunks below `k`, as far as the file goes, the newest first.
unfoldable pub chunk_frames : ℕ → Bytes → ℕ → List Bytes
chunk_frames tid content zero = []
chunk_frames tid content (suc k) =
    let older = chunk_frames tid content k in
    if ltb (k * chunk_data_max) (length content) then chunk_frame tid content k ∷ older else older

pub chunk_frames-next :
    (tid : ℕ) (content : Bytes) (k : ℕ)
    → k * chunk_data_max < length content
    → chunk_frames tid content (k + 1) ≡ chunk_frame tid content k ∷ chunk_frames tid content k
unfolding chunk_frames
chunk_frames-next tid content k lt =
    let same : k + 1 ≡ suc k = omega arith in
    rw (same, lt→ltb (k * chunk_data_max) (length content) lt) refl

-- Beyond the end of the file there are no more.
pub chunk_frames-past :
    (tid : ℕ) (content : Bytes) (k more : ℕ)
    → length content ≤ k * chunk_data_max
    → chunk_frames tid content (k + more) ≡ chunk_frames tid content k
unfolding chunk_frames
chunk_frames-past tid content k zero le = let same : k + 0 ≡ k = omega arith in rw same refl
chunk_frames-past tid content k (suc more) le =
    let same : k + suc more ≡ suc (k + more) = omega arith in
    let past : ltb ((k + more) * chunk_data_max) (length content) ≡ false = ground arith in
    rw (same, past) (chunk_frames-past tid content k more le)

pub length-chunk_bytes :
    (content : Bytes) (k : ℕ)
    → length (chunk_bytes content k)
      ≡ chunk_len (length content) chunk_data_max (k * chunk_data_max)
unfolding chunk_bytes
length-chunk_bytes content k =
    let off : ℕ = k * chunk_data_max in
    omega (
      arith,
      length-take (chunk_len (length content) chunk_data_max off) (drop off content),
      length-drop off content,
    )

pub build_chunk-frame :
    (tid : ℕ) (content : Bytes) (k : ℕ)
    → protocol_build_chunk tid
        (k * chunk_data_max)
        (chunk_bytes content k)
        (5 + 12 + chunk_data_max)
      ≡ some (chunk_frame tid content k)
unfolding protocol_build_chunk chunk_body utils_write_u32_be utils_write_u64_be
build_chunk-frame tid content k =
    let n : length (chunk_bytes content k) ≤ chunk_data_max =
      omega (arith, length-chunk_bytes content k) in
    build_inline-whole MsgType.file_chunk (chunk_body tid content k) (5 + 12 + chunk_data_max)
      (omega (arith, n)) (omega (arith, n))

pub read_chunk :
    (os : Os) (content : Bytes) (k : ℕ) (log : Log)
    → Works os content
    → cursor log ≡ k * chunk_data_max
    → os.fread log (chunk_len (length content) chunk_data_max (k * chunk_data_max))
      ≡ chunk_bytes content k
unfolding chunk_bytes
read_chunk os content k log w here =
    let len : ℕ = chunk_len (length content) chunk_data_max (k * chunk_data_max) in
    w.reads log len ∙ ap (λ n. take len (drop n content)) here

-- A frame that is sent is on the connection as a whole.
pub sent_whole :
    (answers : SendAnswers) (built : Bytes)
    → (conn_send_all answers built).0 ≡ true
    → (conn_send_all answers built).1 ≡ built
sent_whole answers built e =
    by_result (conn_send_all answers built) (conn_send_all-Delivers answers built) e
  where
    by_result : (r : Bool × Bytes) → Delivers built r → r.0 ≡ true → r.1 ≡ built
    by_result (true, taken) h e = h
    by_result (false, taken) h e = absurd (cc)

-- A shown line puts nothing on the connection and reads nothing.
pub display-silent :
    (text : Notice) (c : Client)
    → (wired (ui_display_incoming text c).log ≡ wired c.log)
      × (cursor (ui_display_incoming text c).log ≡ cursor c.log)
unfolding ui_display_incoming ui_prompt
display-silent text c = (ground arith, ground arith)
