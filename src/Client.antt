-- ===== src/Client.antt =====
-- The state that the program keeps: the transfer tasks of src/file.c and include/file.h, the
-- prompt flag of src/ui.c, and the log of what was done.
use tcpclient.Base.{get_or, set, replicate, Bytes, ℕ, Bool, false, Option, none, List, []}
use tcpclient.System.{Log}

-- `file_send_state_t`
pub data SendState : Type 0 where
  idle pending_tid pending active done wait_complete : SendState

-- `file_send_task_t`; `fp` says whether the handle is not NULL.
pub record SendTask : Type 0 where
  pub busy : Bool
  pub tid : ℕ
  pub target : Bytes
  pub filename : Bytes
  pub size : ℕ
  pub sent : ℕ
  pub next_progress_mark : ℕ
  pub fp : Bool
  pub state : SendState

-- `memset(&g_send, 0, sizeof(g_send))`
abbrev pub no_send : SendTask
no_send = record {
  busy = false;
  tid = 0;
  target = [];
  filename = [];
  size = 0;
  sent = 0;
  next_progress_mark = 0;
  fp = false;
  state = idle;
}

-- `file_recv_task_t`; a NULL bitmap is `none`.
pub record RecvTask : Type 0 where
  pub busy : Bool
  pub inited : Bool
  pub seq : ℕ
  pub tid : ℕ
  pub sender : Bytes
  pub filename : Bytes
  pub save_name : Bytes
  pub size : ℕ
  pub received : ℕ
  pub bitmap : Option Bytes
  pub bitmap_len : ℕ
  pub fp : Bool

-- `memset(t, 0, sizeof(*t))`
abbrev pub no_recv : RecvTask
no_recv = record {
  busy = false;
  inited = false;
  seq = 0;
  tid = 0;
  sender = [];
  filename = [];
  save_name = [];
  size = 0;
  received = 0;
  bitmap = none;
  bitmap_len = 0;
  fp = false;
}

-- `g_send`, `g_recv`, `g_recv_seq` and `prompt_shown`.
pub record Client : Type 0 where
  pub send_task : SendTask
  pub recv_tasks : List RecvTask
  pub recv_seq : ℕ
  pub prompt_shown : Bool
  pub log : Log

abbrev pub max_recv_pending : ℕ
max_recv_pending = 8

-- Static storage at the start of the program.
abbrev pub start : Client
start = record {
  send_task = no_send;
  recv_tasks = replicate max_recv_pending no_recv;
  recv_seq = 0;
  prompt_shown = false;
  log = [];
}

-- `g_recv[i]`
abbrev pub slot : Client → ℕ → RecvTask
slot c i = get_or c.recv_tasks i no_recv

abbrev pub put_slot : Client → ℕ → RecvTask → Client
put_slot c i t = record c { recv_tasks = set c.recv_tasks i t }

abbrev pub put_send : Client → SendTask → Client
put_send c t = record c { send_task = t }
