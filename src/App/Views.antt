-- ===== src/App/Views.antt =====
-- A frame that is handled within the bytes its pointer shows is handled the same way when the pointer
-- shows more.
pub mod Memory
pub mod Texts
pub mod Files
use tcpclient.Base.{
  leb, ◌==◌, if◌then◌else◌, length, Bytes, ℕ, ◌≤◌, ◌≡◌, ap, ◌∙◌, Bool, true, false, ◌&&◌, ◌||◌,
  Option, some, ◌++◌,
}
use tcpclient.System.{Os, online_users, unhandled_type}
use tcpclient.Protocol.MsgType
use tcpclient.Client.{Client}
use tcpclient.Ui.{ui_print}
use tcpclient.File.Events.{file_handle_announcement, file_handle_frame}
use tcpclient.App.{app_handle_frame}
use tcpclient.App.Views.Texts.{show_text-more, show_error-more, show_users-more}
use tcpclient.App.Views.Files.{file_handle_frame-more}

either :
    {A : Type 0} (b : Bool) (x y x' y' : Option A) {d : A}
    → (x ≡ some d → x' ≡ some d)
    → (y ≡ some d → y' ≡ some d)
    → (if b then x else y) ≡ some d
    → (if b then x' else y') ≡ some d
either true x y x' y' f g e = f e
either false x y x' y' f g e = g e

pub app_handle_frame-more :
    (os : Os) (msg_type : ℕ) (m more : Bytes) (plen : ℕ) (c : Client) {d : Client}
    → plen ≤ length m
    → app_handle_frame os msg_type (some m) plen c ≡ some d
    → app_handle_frame os msg_type (some (m ++ more)) plen c ≡ some d
unfolding app_handle_frame
app_handle_frame-more os msg_type m more plen c {d} le =
    either (msg_type == MsgType.server_msg) _ _ _ _
      (show_text-more m more (file_handle_announcement os) c)
      (either (msg_type == MsgType.chat || msg_type == MsgType.priv || msg_type == MsgType.gmsg) _ _
        _ _ (show_text-more m more (λ text c'. c') c)
        (either (msg_type == MsgType.error) _ _ _ _ (show_error-more m more plen c le) (
          either (msg_type == MsgType.online_users) _ _ _ _ (show_users-more m more plen c le) (
            either (leb MsgType.file_init msg_type && leb msg_type MsgType.file_cancel)
              (some (file_handle_frame os msg_type m plen c))
              (some (ui_print (unhandled_type msg_type) c))
              (some (file_handle_frame os msg_type (m ++ more) plen c))
              (some (ui_print (unhandled_type msg_type) c))
              (λ e. ap some (file_handle_frame-more os msg_type m more plen c le) ∙ e) (λ e. e)))))
