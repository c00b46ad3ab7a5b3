-- ===== src/App/Reaching.antt =====
-- The whole event loop moves the transfers only by the steps of File.Session.
use tcpclient.Base.{
  if-holds, option-holds, leb, ◌==◌, length, drop, Bytes, c_string, ℕ, zero, suc, ◌≤◌, ◌≡◌, refl,
  ◌&&◌, ◌||◌, Option, none, some, [], ◌∷◌, arith,
}
use tcpclient.System.{Notice, Os, server_text, server_error, online_users, unhandled_type}
use tcpclient.Utils.{utils_read_u16_be}
use tcpclient.Client.{Client}
use tcpclient.Protocol.{Parsed, protocol_parse, need_more, bad, frame}
use tcpclient.Protocol.MsgType
use tcpclient.Protocol.Parsing.{parse-parse_five}
use tcpclient.Ui.{ui_print, ui_display_incoming, ui_print_error, online_users_text}
use tcpclient.File.Events.{file_handle_announcement}
use tcpclient.File.Invariant.Basic.{quiet}
use tcpclient.File.Invariant.Output.{ui_display_incoming-Quiet}
use tcpclient.File.Session.{Reach, announcement, frame, error, next}
use tcpclient.App.{
  text_of, shown, show_text, show_error, show_users, app_handle_frame, Dispatched, dispatch_loop,
  leftover, broken_stream, undefined,
}
use tcpclient.App.Dispatching.{on_parsed}
use tcpclient.App.Talking.{told}

-- A result that is defined is reachable.
abbrev Goes : Os → Option Client → Type 0
Goes os none = Unit
Goes os (some c) = Reach os c

view_length :
    (buf : Bytes) (t : ℕ) (v : Option Bytes) (n k : ℕ)
    → protocol_parse buf ≡ frame t v n k
    → n ≤ length (shown v)
view_length [] t v n k h = absurd (unfold protocol_parse in cc h)
view_length (x ∷ []) t v n k h = absurd (unfold protocol_parse in cc h)
view_length (x ∷ y ∷ []) t v n k h = absurd (unfold protocol_parse in cc h)
view_length (x ∷ y ∷ z ∷ []) t v n k h = absurd (unfold protocol_parse in cc h)
view_length (x ∷ y ∷ z ∷ w ∷ []) t v n k h = absurd (unfold protocol_parse in cc h)
view_length (a ∷ b ∷ z ∷ d ∷ e ∷ rest) t none n k h =
    ground (arith, parse-parse_five a b z d e rest)
view_length (a ∷ b ∷ z ∷ d ∷ e ∷ rest) t (some v) n k h =
    ground (arith, parse-parse_five a b z d e rest)

pub shown_to :
    (os : Os) (c : Client) (text : Notice) → Reach os c → Reach os (ui_display_incoming text c)
shown_to os c text r = told os c (ui_display_incoming text c) r (ui_display_incoming-Quiet text c)

show_text-Goes :
    (os : Os) (payload : Option Bytes) (after : Bytes → Client → Client) (c : Client)
    → Reach os c
    → ((text : Bytes) (d : Client) → Reach os d → Reach os (after text d))
    → Goes os (show_text payload after c)
unfolding show_text
show_text-Goes os payload after c r h = option-holds (Goes os) (text_of payload) tt (λ text e.
    h text (ui_display_incoming (server_text text) c) (shown_to os c (server_text text) r))

app_handle_frame-Goes :
    (os : Os) (t : ℕ) (payload : Option Bytes) (plen : ℕ) (c : Client)
    → plen ≤ length (shown payload)
    → Reach os c
    → Goes os (app_handle_frame os t payload plen c)
unfolding app_handle_frame show_error show_users ui_print_error
app_handle_frame-Goes os t payload plen c le r =
    let G : Option Client → Type 0 = Goes os in
    if-holds G (t == MsgType.server_msg)
      (λ e.
        show_text-Goes os payload (file_handle_announcement os) c r
          (λ text d rd. next rd (announcement text)))
      (λ e.
        if-holds G (t == MsgType.chat || t == MsgType.priv || t == MsgType.gmsg)
          (λ e. show_text-Goes os payload (λ text d. d) c r (λ text d rd. rd))
          (λ e.
            if-holds G (t == MsgType.error)
              (λ e.
                if-holds G (leb 3 plen)
                  (λ e. option-holds G (c_string (drop 3 (shown payload))) tt (λ message e.
                    next
                      (shown_to os c (server_error (utils_read_u16_be (shown payload)) message) r)
                      (error (utils_read_u16_be (shown payload)))))
                  (λ e. r))
              (λ e.
                if-holds G (t == MsgType.online_users)
                  (λ e.
                    option-holds G (online_users_text (shown payload) plen) tt
                      (λ found e. shown_to os c (online_users (found.0) (found.1)) r))
                  (λ e.
                    if-holds G (leb MsgType.file_init t && leb t MsgType.file_cancel)
                      (λ e. next r (frame t (shown payload) plen le))
                      (λ e. told os c (ui_print (unhandled_type t) c) r (quiet c))))))

abbrev pub Ends : Os → Dispatched → Type 0
Ends os (leftover buf c) = Reach os c
Ends os (broken_stream c) = Reach os c
Ends os undefined = Unit

pub dispatch_loop-Ends :
    (os : Os) (fuel : ℕ) (buf : Bytes) (c : Client)
    → Reach os c
    → Ends os (dispatch_loop os fuel buf c)
unfolding dispatch_loop
dispatch_loop-Ends os zero buf c r = r
dispatch_loop-Ends os (suc fuel) buf c r =
    by_parsed (protocol_parse buf) refl (λ n d rd. dispatch_loop-Ends os fuel (drop n buf) d rd)
  where
    by_parsed :
        (p : Parsed)
        → protocol_parse buf ≡ p
        → ((n : ℕ) (d : Client) → Reach os d → Ends os (dispatch_loop os fuel (drop n buf) d))
        → Ends os (on_parsed os fuel buf c p)
    by_parsed need_more e later = r
    by_parsed bad e later = r
    by_parsed (frame t v n k) e later =
        by_answer (app_handle_frame os t v n c)
          (app_handle_frame-Goes os t v n c (view_length buf t v n k e) r)
      where
        by_answer :
            (o : Option Client)
            → Goes os o
            → Ends os (elim o [ none ↦ undefined | some d ↦ dispatch_loop os fuel (drop k buf) d ])
        by_answer none g = tt
        by_answer (some d) g = later k d g
