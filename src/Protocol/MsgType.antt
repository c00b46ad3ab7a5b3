-- ===== src/Protocol/MsgType.antt =====
-- The message types of include/protocol.h.
use tcpclient.Base.{ℕ}

abbrev pub auth : ℕ
auth = 0x01

abbrev pub chat : ℕ
chat = 0x02

abbrev pub priv : ℕ
priv = 0x03

abbrev pub gcreate : ℕ
gcreate = 0x04

abbrev pub gjoin : ℕ
gjoin = 0x05

abbrev pub gleave : ℕ
gleave = 0x06

abbrev pub gmsg : ℕ
gmsg = 0x07

abbrev pub users : ℕ
users = 0x08

abbrev pub file_init : ℕ
file_init = 0x09

abbrev pub file_accept : ℕ
file_accept = 0x0a

abbrev pub file_reject : ℕ
file_reject = 0x0b

abbrev pub file_chunk : ℕ
file_chunk = 0x0c

abbrev pub file_complete : ℕ
file_complete = 0x0d

abbrev pub file_cancel : ℕ
file_cancel = 0x0e

abbrev pub server_msg : ℕ
server_msg = 0x0f

abbrev pub error : ℕ
error = 0x10

abbrev pub online_users : ℕ
online_users = 0x11
