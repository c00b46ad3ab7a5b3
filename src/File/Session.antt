-- ===== src/File/Session.antt =====
-- Any sequence of the calls that commands, frames and the clock make on src/file.c. The steps are
-- the functions themselves; a payload shows at least the bytes that its length says.
pub mod Facts
pub mod Reset
pub mod Refinement
use tcpclient.Base.{length, Bytes, ℕ, ◌≤◌, refl, arith}
use tcpclient.System.{Os}
use tcpclient.Client.{Client, start}
use tcpclient.File.Send.{file_cmd_sendfile, file_send_tick}
use tcpclient.File.Receive.{file_cmd_accept, file_cmd_reject}
use tcpclient.File.Events.{
  file_cmd_cancel, file_handle_announcement, file_handle_frame, file_handle_error, file_reset_all,
}
use tcpclient.File.Invariant.{IsValid}
use tcpclient.File.Invariant.Basic.{Quiet, Quiet-IsValid}
use tcpclient.File.Invariant.Accepting.{file_cmd_accept-IsValid, file_cmd_reject-IsValid}
use tcpclient.File.Invariant.Sending.{file_cmd_sendfile-IsValid, file_send_tick-IsValid}
use tcpclient.File.Invariant.Handling.{
  file_cmd_cancel-IsValid, file_handle_announcement-IsValid, file_handle_frame-IsValid,
  file_handle_error-IsValid, file_reset_all-IsValid,
}

pub data Step (os : Os) (c : Client) : Client → Type 0 where
  sendfile : (text : Bytes) → Step os c (file_cmd_sendfile os text c).0
  accept : (text : Bytes) → Step os c (file_cmd_accept os text c).0
  reject : (text : Bytes) → Step os c (file_cmd_reject os text c).0
  cancel : (text : Bytes) → Step os c (file_cmd_cancel os text c).0
  tick : Step os c (file_send_tick os c).0
  announcement : (text : Bytes) → Step os c (file_handle_announcement os text c)
  frame :
      (msg_type : ℕ) (payload : Bytes) (plen : ℕ)
      → plen ≤ length payload
      → Step os c (file_handle_frame os msg_type payload plen c)
  error : (code : ℕ) → Step os c (file_handle_error code c)
  reset : Step os c (file_reset_all c)
  -- output, and other fields of the state
  output : (d : Client) → Quiet c d → Step os c d

pub data Reach (os : Os) : Client → Type 0 where
  begin : Reach os start
  next : {c d : Client} → Reach os c → Step os c d → Reach os d

start-IsValid : IsValid start
start-IsValid = record {
  slots = refl;
  tasks = (refl, (refl, (refl, (refl, (refl, (refl, (refl, (refl, tt))))))));
  single = omega arith;
  handles = refl;
  maps = refl;
  sending = refl;
  paths = tt;
}

Step-IsValid : (os : Os) (c : Client) {d : Client} → Step os c d → IsValid c → IsValid d
Step-IsValid os c (sendfile text) v = file_cmd_sendfile-IsValid os text c v
Step-IsValid os c (accept text) v = file_cmd_accept-IsValid os text c v
Step-IsValid os c (reject text) v = file_cmd_reject-IsValid os text c v
Step-IsValid os c (cancel text) v = file_cmd_cancel-IsValid os text c v
Step-IsValid os c tick v = file_send_tick-IsValid os c v
Step-IsValid os c (announcement text) v = file_handle_announcement-IsValid os text c v
Step-IsValid os c (frame msg_type payload plen h) v =
    file_handle_frame-IsValid os msg_type payload plen c h v
Step-IsValid os c (error code) v = file_handle_error-IsValid code c v
Step-IsValid os c reset v = file_reset_all-IsValid c v
Step-IsValid os c (output d q) v = Quiet-IsValid c d q v

-- Every state that commands, frames, announcements, error codes, ticks, resets and output can reach from
-- the start satisfies `IsValid`: there are eight slots; a free slot is zeroed; a pending reception
-- has neither map nor save name and has counted nothing; an active reception's map and counter agree
-- with what was written to its file; one reception at most holds a handle; the handles and the maps
-- that are open are as many as the tasks hold; a free send task is zeroed, a busy one has its file;
-- save names, and what was created or removed, are as in `touched-InDownloads` of Facts.
pub Reach-IsValid : (os : Os) {c : Client} → Reach os c → IsValid c
Reach-IsValid os begin = start-IsValid
Reach-IsValid os (next r s) = Step-IsValid os _ s (Reach-IsValid os r)
