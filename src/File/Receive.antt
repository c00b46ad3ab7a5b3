-- ===== src/File/Receive.antt =====
-- `/accept` and `/reject` of src/file.c.
use tcpclient.Base.{
  ◌==◌, if◌then◌else◌, drop, replicate, Bytes, ℕ, ◌+◌, ◌/◌, ◌≡◌, ◌⊎◌, inl, inr, Bool, true, false,
  not, Option, none, some,
}
use tcpclient.Utils.{max_filename_len}
use tcpclient.Commands.{commands_parse_tid_arg}
use tcpclient.Protocol.MsgType
use tcpclient.System.{
  Notice, Log, MkdirAnswer, Os, usage_accept, usage_reject, no_such_transfer, zero_size,
  bad_filename, no_save_name, no_download_dir, too_big, path_too_long, cannot_create, accepted,
  already_active, already_receiving, not_ready, use_cancel, rejected, opened_wb, made_dir,
  allocated, dir_made, dir_exists, dir_failed,
}
use tcpclient.Client.{Client, slot, put_slot}
use tcpclient.Ui.{emit, ui_print}
use tcpclient.File.Names.{file_basename_sanitize, file_unique_name, file_join_path}
use tcpclient.File.Chunks.{chunk_data_max, file_chunk_count}
use tcpclient.File.Tasks.{
  download_dir, path_size, recv_task_find, recv_task_active, recv_task_clear, send_tid,
  recv_task_reject,
}

-- `recv_name_taken`: a path that cannot be built counts as taken.
unfoldable pub recv_name_taken : Os → Log → Bytes → Bool
recv_name_taken os log name = elim (file_join_path download_dir name path_size) [
  | none ↦ true
  | some path ↦ os.access log path
]

abbrev pub refuse : Os → ℕ → Notice → Client → Client × Bool
refuse os i why c = (recv_task_reject os i why c, true)

-- The file is open: the ACCEPT frame, or the clean-up if it cannot be sent.
unfoldable pub confirm_accept : Os → ℕ → ℕ → Client → Client × Bool
confirm_accept os i tid c =
    let (c', sent_ok) = send_tid os MsgType.file_accept tid c in
    if sent_ok
    then (ui_print (accepted tid (slot c' i).save_name) c', true)
    else (recv_task_clear i c', false)

-- From the allocation of the map on; the task has its save name.
unfoldable pub open_target : Os → ℕ → ℕ → Client → Client × Bool
open_target os i tid c =
    let t = slot c i in
    let len = file_chunk_count t.size chunk_data_max / 8 + 1 in
    if not (os.malloc c.log len)
    then refuse os i too_big (put_slot c i (record t { bitmap_len = len }))
    else let t1 = record t { bitmap_len = len; bitmap = some (replicate len 0) } in
      let c1 = put_slot (emit allocated c) i t1 in
      elim (file_join_path download_dir t.save_name path_size) [
        | none ↦ refuse os i path_too_long c1
        | some path ↦
            if not (os.fopen_wb c1.log path)
            then refuse os i cannot_create c1
            else confirm_accept os i tid
                (put_slot (emit (opened_wb path) c1) i (record t1 { fp = true }))
      ]

-- `mkdir(FILE_DOWNLOAD_DIR, 0755)`; `none` is a failure other than EEXIST.
unfoldable pub make_dir : Os → Client → Option Client
make_dir os c = elim (os.mkdir c.log) [
  | dir_made ↦ some (emit (made_dir download_dir) c)
  | dir_exists ↦ some c
  | dir_failed ↦ none
]

-- With the directory there, the log says at most that it was created.
pub make_dir_inv :
    (os : Os) (c d : Client)
    → make_dir os c ≡ some d
    → (d ≡ c) ⊎ (d ≡ emit (made_dir download_dir) c)
unfolding make_dir
make_dir_inv os c d e = by_answer (os.mkdir c.log) e
  where
    by_answer :
        (a : MkdirAnswer)
        → (elim a as (λ (x : MkdirAnswer). Option Client) [
          | dir_made ↦ some (emit (made_dir download_dir) c)
          | dir_exists ↦ some c
          | dir_failed ↦ none
        ])
          ≡ some d
        → (d ≡ c) ⊎ (d ≡ emit (made_dir download_dir) c)
    by_answer dir_made e = inr (cc)
    by_answer dir_exists e = inl (cc)
    by_answer dir_failed e = absurd (cc)

-- The name under which the file is saved, and the directory.
unfoldable pub choose_name : Os → ℕ → ℕ → Client → Client × Bool
choose_name os i tid c = elim (file_basename_sanitize (slot c i).filename max_filename_len) [
  | none ↦ refuse os i bad_filename c
  | some base ↦ elim (file_unique_name base (recv_name_taken os c.log) max_filename_len) [
    | none ↦ refuse os i no_save_name c
    | some name ↦
        let c1 = put_slot c i (record (slot c i) { save_name = name }) in
        elim (make_dir os c1) [
          | none ↦ refuse os i no_download_dir c1
          | some c2 ↦ open_target os i tid c2
        ]
  ]
]

-- A task with this id was found at index `i`: the tests before anything is done.
unfoldable pub accept_task : Os → ℕ → ℕ → Client → Client × Bool
accept_task os i tid c =
    if (slot c i).fp then (ui_print already_active c, true) else elim (recv_task_active c) [
      | some j ↦ (ui_print already_receiving c, true)
      | none ↦
          if not (slot c i).inited
          then (ui_print not_ready c, true)
          else if (slot c i).size == 0
          then refuse os i zero_size c
          else choose_name os i tid c
    ]

unfoldable pub file_cmd_accept : Os → Bytes → Client → Client × Bool
file_cmd_accept os text c = elim (commands_parse_tid_arg (drop 7 text)) [
  | none ↦ (ui_print usage_accept c, true)
  | some tid ↦ elim (recv_task_find tid c) [
    | none ↦ (ui_print (no_such_transfer tid) c, true)
    | some i ↦ accept_task os i tid c
  ]
]

-- The REJECT frame for a task that is not active, and its clean-up.
unfoldable pub reject_task : Os → ℕ → ℕ → Client → Client × Bool
reject_task os i tid c =
    if (slot c i).fp
    then (ui_print (use_cancel tid) c, true)
    else let (c', sent_ok) = send_tid os MsgType.file_reject tid c in
      if sent_ok then (recv_task_clear i (ui_print (rejected tid) c'), true) else (c', false)

unfoldable pub file_cmd_reject : Os → Bytes → Client → Client × Bool
file_cmd_reject os text c = elim (commands_parse_tid_arg (drop 7 text)) [
  | none ↦ (ui_print usage_reject c, true)
  | some tid ↦ elim (recv_task_find tid c) [
    | none ↦ (ui_print (no_such_transfer tid) c, true)
    | some i ↦ reject_task os i tid c
  ]
]
