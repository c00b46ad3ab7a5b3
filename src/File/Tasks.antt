-- ===== src/File/Tasks.antt =====
-- The receive tasks of src/file.c: lookup, clean-up, completion, and the frames INIT and CHUNK.
-- A pointer into `g_recv` is an index; NULL is `none`.
use tcpclient.Base.{
  ltb, ◌==◌, if◌then◌else◌, length, set, take, drop, Bytes, codes, ℕ, ◌+◌, ◌-◌, ◌%◌, ◌^◌, Bool,
  true, false, not, ◌&&◌, ◌||◌, Option, none, some, List, [], ◌∷◌,
}
use tcpclient.Utils.{max_username_len, max_filename_len, utils_read_u32_be, utils_read_u64_be}
use tcpclient.Protocol.{protocol_build_tid}
use tcpclient.Protocol.MsgType
use tcpclient.System.{
  Notice, Log, Os, saved, incomplete, reception_full, bad_chunk, write_failed, closed, stored,
  removed, freed,
}
use tcpclient.Client.{RecvTask, no_recv, Client, slot, put_slot}
use tcpclient.Ui.{emit, send_frame, ui_print}
use tcpclient.File.Init.{file_parse_init_payload}
use tcpclient.File.Names.{file_join_path}
use tcpclient.File.Spans.{file_recv_span_check, file_recv_span_mark}

abbrev pub download_dir : Bytes
download_dir = codes "downloads"

abbrev pub path_size : ℕ
path_size = 512

-- The first task that passes a test, from index `i` on.
unfoldable pub find_from : (RecvTask → Bool) → List RecvTask → ℕ → Option ℕ
find_from test [] i = none
find_from test (t ∷ ts) i =
    let later = find_from test ts (i + 1) in if test t then some i else later

abbrev pub has_tid : ℕ → RecvTask → Bool
has_tid tid t = t.busy && t.tid == tid

abbrev pub is_active : RecvTask → Bool
is_active t = t.busy && t.fp

abbrev pub is_free : RecvTask → Bool
is_free t = not t.busy

unfoldable pub recv_task_find : ℕ → Client → Option ℕ
recv_task_find tid c = find_from (has_tid tid) c.recv_tasks 0

unfoldable pub recv_task_active : Client → Option ℕ
recv_task_active c = find_from is_active c.recv_tasks 0

unfoldable pub recv_task_slot : Client → Option ℕ
recv_task_slot c = find_from is_free c.recv_tasks 0

-- The effects of `recv_task_clear`, before the task is zeroed: the handle is closed, the file of a
-- task with a save name is removed, the map is freed.
unfoldable pub clear_effects : RecvTask → Log → Log
clear_effects t log =
    let closed_log = if t.fp then closed ∷ log else log in
    let removed_log : Log = elim t.save_name [
      | [] ↦ closed_log
      | x ∷ name ↦ elim (file_join_path download_dir (x ∷ name) path_size) [
        | none ↦ closed_log
        | some path ↦ removed path ∷ closed_log
      ]
    ] in
    elim t.bitmap [ none ↦ removed_log | some _ ↦ freed ∷ removed_log ]

unfoldable pub recv_task_clear : ℕ → Client → Client
unfolding clear_effects
recv_task_clear i c = record c {
  recv_tasks = set c.recv_tasks i no_recv;
  log = clear_effects (slot c i) c.log;
}

-- An empty save name keeps the file.
unfoldable pub recv_task_finish : ℕ → Client → Client
recv_task_finish i c =
    let t = slot c i in
    if t.received == t.size
    then recv_task_clear i
        (put_slot (ui_print (saved t.tid t.save_name t.received) c) i (record t { save_name = [] }))
    else recv_task_clear i (ui_print (incomplete t.tid t.received t.size) c)

unfoldable pub recv_task_complete : ℕ → Client → Client
recv_task_complete tid c = elim (recv_task_find tid c) [
  | none ↦ c
  | some i ↦ if (slot c i).fp then recv_task_finish i c else recv_task_clear i c
]

-- A control frame whose sending may fail unnoticed.
unfoldable pub send_tid_unchecked : Os → ℕ → ℕ → Client → Client
send_tid_unchecked os msg_type tid c = elim (protocol_build_tid msg_type tid 9) [
  | none ↦ c
  | some built ↦ (send_frame os built c).0
]

-- A control frame, with the result of the call (`true` is 0).
unfoldable pub send_tid : Os → ℕ → ℕ → Client → Client × Bool
send_tid os msg_type tid c = elim (protocol_build_tid msg_type tid 9) [
  | none ↦ (c, false)
  | some built ↦ send_frame os built c
]

unfoldable pub recv_task_abort : Os → ℕ → Notice → Client → Client
recv_task_abort os i why c =
    recv_task_clear i (ui_print why (send_tid_unchecked os MsgType.file_cancel (slot c i).tid c))

unfoldable pub recv_task_reject : Os → ℕ → Notice → Client → Client
recv_task_reject os i why c =
    recv_task_clear i (send_tid_unchecked os MsgType.file_reject (slot c i).tid (ui_print why c))

unfoldable pub recv_announce_incoming : Os → ℕ → Client → Client
recv_announce_incoming os tid c = elim (recv_task_slot c) [
  | none ↦ send_tid_unchecked os MsgType.file_reject tid (ui_print reception_full c)
  | some i ↦ record c {
    recv_tasks = set c.recv_tasks i (record no_recv { busy = true; tid = tid; seq = c.recv_seq });
    recv_seq = (c.recv_seq + 1) % 2 ^ 64;
  }
]

-- The search of `recv_handle_init`: `best` is the index and the number of the best task so far.
unfoldable pub oldest_from : List RecvTask → ℕ → Option (ℕ × ℕ) → Option ℕ
oldest_from [] i none = none
oldest_from [] i (some (k, seq)) = some k
oldest_from (t ∷ ts) i best = oldest_from ts (i + 1) (
    if t.busy && not t.inited
    then elim best [
      | none ↦ some (i, t.seq)
      | some (k, seq) ↦ if ltb t.seq seq then some (i, t.seq) else some (k, seq)
    ]
    else best)

unfoldable pub recv_handle_init : Bytes → ℕ → Client → Client
recv_handle_init payload plen c =
    elim (file_parse_init_payload payload plen max_username_len max_filename_len) [
      | none ↦ c
      | some fields ↦ elim (oldest_from c.recv_tasks 0 none) [
        | none ↦ c
        | some i ↦ put_slot c i (record (slot c i) {
          inited = true;
          sender = fields.sender;
          filename = fields.filename;
          size = fields.size;
        })
      ]
    ]

-- The map after `file_recv_span_mark`, whose result is not looked at.
unfoldable pub marked_map : RecvTask → ℕ → Option Bytes
marked_map t offset = elim t.bitmap [
  | none ↦ none
  | some map ↦ elim (file_recv_span_mark map t.bitmap_len offset) [
    | none ↦ some map
    | some map' ↦ some map'
  ]
]

-- A valid chunk of an active task: written at its offset, then marked and counted.
unfoldable pub store_chunk : Os → ℕ → ℕ → Bytes → Client → Client
store_chunk os i offset bytes c =
    let t = slot c i in
    if not (os.fseek c.log offset) || not (os.fwrite c.log bytes == length bytes)
    then recv_task_abort os i (write_failed t.tid) c
    else put_slot (emit (stored t.save_name offset bytes) c) i
        (record t { bitmap = marked_map t offset; received = t.received + length bytes })

-- The map as the span check reads it. An active task has one; without it the check is not reached.
abbrev pub map_of : RecvTask → Bytes
map_of t = elim t.bitmap [ none ↦ [] | some map ↦ map ]

unfoldable pub recv_handle_chunk : Os → Bytes → ℕ → Client → Client
recv_handle_chunk os payload plen c =
    let tid = utils_read_u32_be payload in
    let offset = utils_read_u64_be (drop 4 payload) in
    let bytes = take (plen - 12) (drop 12 payload) in
    if ltb plen 12 then c else elim (recv_task_find tid c) [
      | none ↦ c
      | some i ↦
          if not (slot c i).fp
          then c
          else if not (
              file_recv_span_check (slot c i).size (map_of (slot c i)) (slot c i).bitmap_len offset
                (plen - 12))
          then recv_task_abort os i (bad_chunk (slot c i).tid) c
          else store_chunk os i offset bytes c
    ]
