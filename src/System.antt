-- ===== src/System.antt =====
-- What stands outside the program: the answers of the C library and the kernel (`Os`), and the
-- record of what the program did (`Effect`). An answer may depend on all that was done before.
use tcpclient.Base.{Bytes, ℕ, Bool, Option, List}
use tcpclient.Conn.{SendAnswers}

-- The lines that the program prints, with the values that their text shows. The wording, and the
-- cut of a long line to its buffer, are left out.
pub data Notice : Type 0 where
  usage_priv usage_gcreate usage_gjoin usage_gleave usage_gmsg : Notice
  usage_sendfile usage_accept usage_reject usage_cancel : Notice
  help group_name_too_long : Notice
  unknown_command : Bytes → Notice
  already_sending cannot_read empty_file read_failed : Notice
  cannot_open : Bytes → Notice
  submitted : Bytes → ℕ → Bytes → Notice
  cancelled no_such_transfer : ℕ → Notice
  progress : ℕ → ℕ → ℕ → ℕ → Notice
  saved : ℕ → Bytes → ℕ → Notice
  incomplete : ℕ → ℕ → ℕ → Notice
  reception_full : Notice
  bad_chunk write_failed : ℕ → Notice
  zero_size bad_filename no_save_name no_download_dir too_big path_too_long cannot_create : Notice
  accepted : ℕ → Bytes → Notice
  already_active already_receiving not_ready : Notice
  use_cancel rejected : ℕ → Notice
  server_text : Bytes → Notice
  server_error : ℕ → Bytes → Notice
  online_users : ℕ → Bytes → Notice
  unhandled_type : ℕ → Notice
  buffer_limit out_of_memory protocol_error disconnected recv_failed : Notice
  goodbye input_too_long poll_failed : Notice
  -- the labels and the complaints of the login dialogue
  ask_user ask_password credentials_empty : Notice
  answer_too_long : ℕ → Notice

pub data Effect : Type 0 where
  -- the bytes that the kernel took in one call of `conn_send_all`
  wire : Bytes → Effect
  -- a printed line; a newline on its own; the prompt
  line : Notice → Effect
  newline prompt : Effect
  -- files: a handle was opened for reading, for writing; a handle was closed
  opened_rb opened_wb : Bytes → Effect
  closed : Effect
  read : ℕ → Effect
  stored : Bytes → ℕ → Bytes → Effect
  removed : Bytes → Effect
  -- a directory was created
  made_dir : Bytes → Effect
  -- heap blocks of the receive tasks
  allocated freed : Effect

-- The newest effect comes first.
abbrev pub Log : Type 0
Log = List Effect

-- `mkdir` creates the directory, or fails with EEXIST, or with another error.
pub data MkdirAnswer : Type 0 where
  dir_made dir_exists dir_failed : MkdirAnswer

pub record Os : Type 0 where
  -- the answers of `send` during one `conn_send_all` of this frame
  pub send : Log → Bytes → SendAnswers
  pub fopen_rb : Log → Bytes → Bool
  -- `fseek` to the end, `ftell` (`none`: negative), `fseek` to the start
  pub seek_end : Log → Bool
  pub ftell : Log → Option ℕ
  pub seek_start : Log → Bool
  -- the bytes that `fread` delivers for a request of this length
  pub fread : Log → ℕ → Bytes
  pub fopen_wb : Log → Bytes → Bool
  pub fseek : Log → ℕ → Bool
  -- how many of the bytes `fwrite` wrote
  pub fwrite : Log → Bytes → ℕ
  -- `access(path, F_OK) == 0`
  pub access : Log → Bytes → Bool
  pub mkdir : Log → MkdirAnswer
  pub malloc : Log → ℕ → Bool
