-- ===== src/File/Session/Refinement.antt =====
-- The send task of src/file.c goes through the protocol of Send/Phase.
use tcpclient.System.{Os}
use tcpclient.Client.{Client}
use tcpclient.File.Send.Phase.{Event, stop, nothing, signals, submits, clock}
use tcpclient.File.Send.Refining.Ticks.{complete_sent}
use tcpclient.File.Events.Signals.{announced, framed, failed_with, withdrawn}
use tcpclient.File.Session.{
  Step, sendfile, accept, reject, cancel, tick, announcement, frame, error, reset, output,
}

-- A step as the machine sees it. Only `/sendfile`, `/cancel`, the ticks and what the server sends
-- concern the send task.
abbrev pub event : (os : Os) (c : Client) {d : Client} → Step os c d → Event
event os c (sendfile text) = submits
event os c (accept text) = signals nothing
event os c (reject text) = signals nothing
event os c (cancel text) = signals (withdrawn os text c)
event os c tick = clock (complete_sent os c)
event os c (announcement text) = signals (announced text)
event os c (frame msg_type payload plen h) = signals (framed msg_type payload plen)
event os c (error code) = signals (failed_with code)
event os c reset = signals stop
event os c (output d q) = signals nothing
