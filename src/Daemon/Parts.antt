-- ===== src/Daemon/Parts.antt =====
-- A schedule of the daemon, seen from each of its parts.
use kha_app.Prelude.{◌≡◌, refl, sym, ap, ◌∙◌, List, [], ◌∷◌, ◌++◌}
use kha_app.Prelude.Result.{Outcome}
use kha_app.Storage.Table.{Table, Write, write_all}
use kha_app.Protocol.Event.{Event}
use kha_app.Protocol.Reconnect
use kha_app.Protocol.Reconnect.{Happening, Reconnect}
use kha_app.Protocol.Client.Persistence
use kha_app.Protocol.Client.Persistence.{write_all-append}
use kha_app.Protocol.Client.Channel.{happenings, reconnect-handle}
use kha_app.Service.State.{Service}
use kha_app.Service.Loop.{LoopAnswers}
use kha_app.Service.Run
use kha_app.Service.Run.{
  Call, auto_connects, requests_login, reads_qr, logs_out, gets_event, loads_group, gets_picture,
  lists_chats, fetches_avatar,
}
use kha_app.Daemon.{
  Daemon, Step, arrives, takes, serves, writes, happens, take_event, serve, step, run,
}

-- The writes of the message store that a step makes.
abbrev pub table_writes : Step → List (Outcome × Write)
table_writes (arrives a e) = Persistence.writes a e
table_writes (writes w) = w ∷ []
table_writes _ = []

-- What happens to the reconnect loops in a step.
abbrev reconnects : Step → List Happening
reconnects (arrives a e) = happenings a e
reconnects (happens h) = h ∷ []
reconnects _ = []

abbrev pub taken : LoopAnswers → List Event → List Call
taken a [] = []
taken a (e ∷ es) = gets_event a e ∷ []

abbrev pub served : Call → List Call
served (gets_event a e) = []
served c = c ∷ []

-- The calls of the service in a step, with the event that the loop takes from the channel.
abbrev pub service_calls : Daemon → Step → List Call
service_calls d (takes a) = taken a d.client.events
service_calls d (serves c) = served c
service_calls d _ = []

abbrev pub all_table_writes : List Step → List (Outcome × Write)
all_table_writes [] = []
all_table_writes (s ∷ ss) = table_writes s ++ all_table_writes ss

abbrev pub all_reconnects : List Step → List Happening
all_reconnects [] = []
all_reconnects (s ∷ ss) = reconnects s ++ all_reconnects ss

abbrev pub all_calls : Daemon → List Step → List Call
all_calls d [] = []
all_calls d (s ∷ ss) = service_calls d s ++ all_calls (step d s) ss

table-take_event :
    (a : LoopAnswers) (es : List Event) (d : Daemon)
    → (take_event a es d).client.table ≡ d.client.table
unfolding take_event
table-take_event a [] d = refl
table-take_event a (e ∷ es) d = refl

pub table-step :
    (d : Daemon) (s : Step) → (step d s).client.table ≡ write_all d.client.table (table_writes s)
unfolding step write_all
table-step d (arrives a e) = Persistence.table-handle a e d.client
table-step d (takes a) = table-take_event a d.client.events d
table-step d (serves c) = refl
table-step d (writes w) = refl
table-step d (happens h) = refl

reconnect-take_event :
    (a : LoopAnswers) (es : List Event) (d : Daemon)
    → (take_event a es d).client.reconnect ≡ d.client.reconnect
unfolding take_event
reconnect-take_event a [] d = refl
reconnect-take_event a (e ∷ es) d = refl

reconnect-step :
    (d : Daemon) (s : Step)
    → (step d s).client.reconnect ≡ Reconnect.run d.client.reconnect (reconnects s)
unfolding step Reconnect.run
reconnect-step d (arrives a e) = reconnect-handle a e d.client
reconnect-step d (takes a) = reconnect-take_event a d.client.events d
reconnect-step d (serves c) = refl
reconnect-step d (writes w) = refl
reconnect-step d (happens h) = refl

service-take_event :
    (a : LoopAnswers) (es : List Event) (d : Daemon)
    → (take_event a es d).service ≡ Run.run d.service (taken a es)
unfolding take_event Run.run Run.step
service-take_event a [] d = refl
service-take_event a (e ∷ es) d = refl

serve_lem : (c : Call) (m : Service) → serve c m ≡ Run.run m (served c)
unfolding serve Run.run
serve_lem (gets_event a e) m = refl
serve_lem (auto_connects a) m = refl
serve_lem (requests_login a) m = refl
serve_lem (reads_qr gen phone i) m = refl
serve_lem (logs_out a) m = refl
serve_lem (loads_group jid now answer later) m = refl
serve_lem (gets_picture path jid now) m = refl
serve_lem (lists_chats e a t) m = refl
serve_lem (fetches_avatar jid a) m = refl

service-step : (d : Daemon) (s : Step) → (step d s).service ≡ Run.run d.service (service_calls d s)
unfolding step Run.run
service-step d (arrives a e) = refl
service-step d (takes a) = service-take_event a d.client.events d
service-step d (serves c) = serve_lem c d.service
service-step d (writes w) = refl
service-step d (happens h) = refl

reconnects-append :
    (r : Reconnect) (hs is : List Happening)
    → Reconnect.run r (hs ++ is) ≡ Reconnect.run (Reconnect.run r hs) is
unfolding Reconnect.run
reconnects-append r [] is = refl
reconnects-append r (h ∷ hs) is = reconnects-append (Reconnect.step r h) hs is

calls-append : (m : Service) (cs bs : List Call) → Run.run m (cs ++ bs) ≡ Run.run (Run.run m cs) bs
unfolding Run.run
calls-append m [] bs = refl
calls-append m (c ∷ cs) bs = calls-append (Run.step m c) cs bs

-- What each part has become is what its own operations make of it.
pub record PartsOf (before after : Daemon) (ss : List Step) : Type 0 where
  pub table : after.client.table ≡ write_all before.client.table (all_table_writes ss)
  pub reconnect : after.client.reconnect ≡ Reconnect.run before.client.reconnect (all_reconnects ss)
  pub service : after.service ≡ Run.run before.service (all_calls before ss)

-- Under every schedule the message store is what the writes of the handler and of the D-Bus methods
-- make of it, the reconnect loops are what their own steps make of them, and the service is
-- what a sequence of its calls makes of it, in which the calls of the event loop get the events
-- that it has taken from the channel.
pub run-PartsOf : (d : Daemon) (ss : List Step) → PartsOf d (run d ss) ss
unfolding run write_all Reconnect.run Run.run
run-PartsOf d [] = record { table = refl; reconnect = refl; service = refl }
run-PartsOf d (s ∷ ss) =
    let rest = run-PartsOf (step d s) ss in
    record {
      table =
          rest.table
          ∙ ap (λ (t : Table). write_all t (all_table_writes ss)) (table-step d s)
          ∙ sym (write_all-append d.client.table (table_writes s) (all_table_writes ss));
      reconnect =
          rest.reconnect
          ∙ ap (λ r. Reconnect.run r (all_reconnects ss)) (reconnect-step d s)
          ∙ sym (reconnects-append d.client.reconnect (reconnects s) (all_reconnects ss));
      service =
          rest.service
          ∙ ap (λ m. Run.run m (all_calls (step d s) ss)) (service-step d s)
          ∙ sym (calls-append d.service (service_calls d s) (all_calls (step d s) ss));
    }
