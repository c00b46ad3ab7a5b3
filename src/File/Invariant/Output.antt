-- ===== src/File/Invariant/Output.antt =====
-- Output leaves the tasks alone: src/ui.c and the control frames of src/file.c.
use tcpclient.Base.{option-holds, if◌then◌else◌, Bytes, ℕ, ◌∙◌, Bool, true, false, ◌∷◌}
use tcpclient.System.{Notice, Os, line, newline, prompt}
use tcpclient.Client.{Client}
use tcpclient.Protocol.{protocol_build_tid}
use tcpclient.Ui.{emit, send_frame, ui_print, ui_prompt, ui_display_incoming}
use tcpclient.File.Tasks.{send_tid_unchecked, send_tid}
use tcpclient.File.Invariant.Basic.{Quiet, quiet}

if-Quiet : (b : Bool) (c d e : Client) → Quiet c d → Quiet c e → Quiet c (if b then d else e)
if-Quiet true c d e h k = h
if-Quiet false c d e h k = k

pub Quiet-trans : (c d e : Client) → Quiet c d → Quiet d e → Quiet c e
Quiet-trans c d e (a1, a2, (a3, a4, a5, a6, a7, a8)) (b1, b2, (b3, b4, b5, b6, b7, b8)) =
    (b1 ∙ a1, b2 ∙ a2, (b3 ∙ a3, b4 ∙ a4, b5 ∙ a5, b6 ∙ a6, b7 ∙ a7, b8 ∙ a8))

pub send_frame-Quiet : (os : Os) (built : Bytes) (c : Client) → Quiet c (send_frame os built c).0
unfolding send_frame
send_frame-Quiet os built c = quiet c

pub ui_print-Quiet : (text : Notice) (c : Client) → Quiet c (ui_print text c)
ui_print-Quiet text c = quiet c

pub ui_prompt-Quiet : (c : Client) → Quiet c (ui_prompt c)
unfolding ui_prompt
ui_prompt-Quiet c =
    if-Quiet c.prompt_shown c c (record c { prompt_shown = true; log = prompt ∷ c.log }) (quiet c)
      (quiet c)

pub ui_display_incoming-Quiet : (text : Notice) (c : Client) → Quiet c (ui_display_incoming text c)
unfolding ui_display_incoming
ui_display_incoming-Quiet text c =
    let d : Client =
      if c.prompt_shown then record c { prompt_shown = false; log = newline ∷ c.log } else c in
    let e : Client = emit (line text) d in
    Quiet-trans c e (ui_prompt e)
      (Quiet-trans c d e
        (if-Quiet c.prompt_shown c (record c { prompt_shown = false; log = newline ∷ c.log }) c
          (quiet c) (quiet c))
        (quiet d))
      (ui_prompt-Quiet e)

pub send_tid_unchecked-Quiet :
    (os : Os) (msg_type tid : ℕ) (c : Client) → Quiet c (send_tid_unchecked os msg_type tid c)
unfolding send_tid_unchecked
send_tid_unchecked-Quiet os msg_type tid c =
    option-holds (Quiet c) (protocol_build_tid msg_type tid 9) (quiet c)
      (λ built e. send_frame-Quiet os built c)

pub send_tid-Quiet :
    (os : Os) (msg_type tid : ℕ) (c : Client) → Quiet c (send_tid os msg_type tid c).0
unfolding send_tid
send_tid-Quiet os msg_type tid c =
    option-holds (λ (r : Client × Bool). Quiet c r.0) (protocol_build_tid msg_type tid 9) (quiet c)
      (λ built e. send_frame-Quiet os built c)
