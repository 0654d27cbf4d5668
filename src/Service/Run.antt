-- ===== src/Service/Run.antt =====
-- The goroutines of daemon/dbus/service.go together: D-Bus methods, the event loop, the reader of
-- the QR channel and the downloads change one service, in any order. A call is one step here;
-- the mutexes guard each access of the state.
pub mod Told
pub mod Downloads
use kha_app.Prelude.{ℕ, List, [], ◌∷◌, Text}
use kha_app.Prelude.Result.{Result}
use kha_app.Storage.Table.{Table}
use kha_app.Storage.Query.{Engine}
use kha_app.Protocol.Event.{Event}
use kha_app.Service.State.{Service}
use kha_app.Service.Login.{
  AutoAnswers, auto_connect, LoginAnswers, request_login, QrItem, qr_item, LogoutAnswers, logout,
}
use kha_app.Service.Groups.{RawGroup, load_group_info}
use kha_app.Service.Avatars.{get_profile_picture, FetchAnswers, fetch_avatar}
use kha_app.Service.Chats.{ChatAnswers, get_chats}
use kha_app.Service.Loop.{LoopAnswers, on_event}

pub data Call : Type 0 where
  auto_connects : AutoAnswers → Call
  requests_login : LoginAnswers → Call
  reads_qr : (Text → Result Text) → Text → QrItem → Call
  logs_out : LogoutAnswers → Call
  gets_event : LoopAnswers → Event → Call
  loads_group : Text → ℕ → Result RawGroup → ℕ → Call
  gets_picture : Result Text → Text → ℕ → Call
  lists_chats : Engine → ChatAnswers → Table → Call
  fetches_avatar : Text → FetchAnswers → Call

unfoldable pub step : Service → Call → Service
step m (auto_connects a) = (auto_connect a m).1
step m (requests_login a) = (request_login a m).service
step m (reads_qr gen phone i) = qr_item gen phone i m
step m (logs_out a) = (logout a m).1
step m (gets_event a e) = on_event a e m
step m (loads_group jid now answer later) = (load_group_info jid now answer later m).1
step m (gets_picture path jid now) = (get_profile_picture path jid now m).1
step m (lists_chats e a t) = (get_chats e a t m).1
step m (fetches_avatar jid a) = fetch_avatar jid a m

unfoldable pub run : Service → List Call → Service
unfolding step
run m [] = m
run m (c ∷ cs) = run (step m c) cs
