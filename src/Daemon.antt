-- ===== src/Daemon.antt =====
-- daemon/cmd/main.go puts the parts together: the event handler of the client writes the message
-- store and fills the channel, the event loop of the service empties it, D-Bus methods and
-- goroutines run beside both, and reconnect loops wake. A schedule is a list of such steps.
pub mod Parts
pub mod Order
pub mod Rows
pub mod Stored
pub mod Begun
use kha_app.Prelude.{List, [], ◌∷◌}
use kha_app.Prelude.Result.{Outcome}
use kha_app.Storage.Table.{Write, write}
use kha_app.Protocol.Event.{Event}
use kha_app.Protocol.Reconnect
use kha_app.Protocol.Reconnect.{Happening}
use kha_app.Protocol.Client.{Client, Answers, handle}
use kha_app.Service.State.{Service}
use kha_app.Service.Loop.{LoopAnswers, on_event}
use kha_app.Service.Run
use kha_app.Service.Run.{
  Call, auto_connects, requests_login, reads_qr, logs_out, gets_event, loads_group, gets_picture,
  lists_chats, fetches_avatar,
}

pub record Daemon : Type 0 where
  pub client : Client
  pub service : Service

-- `arrives`: whatsmeow calls the event handler. `takes`: the event loop receives from the channel.
-- `serves`: a method or a goroutine of the service runs. `writes`: a D-Bus method writes the
-- message store. `happens`: a reconnect loop is started or stopped by a method, or wakes.
pub data Step : Type 0 where
  arrives : Answers → Event → Step
  takes : LoopAnswers → Step
  serves : Call → Step
  writes : Outcome × Write → Step
  happens : Happening → Step

-- `case evt := <-m.client.Events()`: on an empty channel the loop waits.
unfoldable pub take_event : LoopAnswers → List Event → Daemon → Daemon
unfolding on_event
take_event a [] d = d
take_event a (e ∷ es) d = record d {
  client = record d.client { events = es };
  service = on_event a e d.service;
}

-- The service gets its events from the channel alone.
unfoldable pub serve : Call → Service → Service
serve (gets_event a e) m = m
serve c m = Run.step m c

unfoldable pub step : Daemon → Step → Daemon
unfolding handle take_event serve write
step d (arrives a e) = record d { client = handle a e d.client }
step d (takes a) = take_event a d.client.events d
step d (serves c) = record d { service = serve c d.service }
step d (writes w) = record d { client = record d.client { table = write d.client.table w } }
step d (happens h) = record d {
  client = record d.client { reconnect = Reconnect.step d.client.reconnect h };
}

unfoldable pub run : Daemon → List Step → Daemon
unfolding step
run d [] = d
run d (s ∷ ss) = run (step d s) ss
