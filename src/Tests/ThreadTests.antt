-- ===== src/Tests/ThreadTests.antt =====
-- The theorems on interrupted functions of the D-Bus service at concrete inputs.
use kha_app.Prelude.{
  arith, ◌+◌, ◌≡◌, ◌↔◌, refl, true, false, Option, none, some, List, [], ◌∷◌, ◌++◌, map, codes,
  same_text,
}
use kha_app.Prelude.Result.{ok, err}
use kha_app.Prelude.Dict.{mem}
use kha_app.Protocol.Event.{picture, connected, disconnected}
use kha_app.Service.State.{Status, Service, GroupInfo, new_messenger_service, avatar_updated}
use kha_app.Service.Login.{AutoAnswers, code}
use kha_app.Service.Groups.{load_group_info, fetched, group_map}
use kha_app.Service.Groups.Race.{event_first, event_last, event_first_is_lost}
use kha_app.Service.Avatars.{
  invalidate_avatar_cache, schedule_avatar_fetch, get_profile_picture, fetch_avatar,
}
use kha_app.Service.Avatars.Race.{Succeeds, overtaken, overtaken_is_shown}
use kha_app.Service.Avatars.Fetched.{Net, Disk, fetch_answers, SomeArrives, fetch_avatar-Arrives}
use kha_app.Service.Loop.{on_event}
use kha_app.Service.Run.{
  Call, auto_connects, requests_login, reads_qr, gets_event, loads_group, fetches_avatar, run,
}
use kha_app.Service.Run.Downloads.{run-Tracked}
use kha_app.Service.Told.{Told}
use kha_app.Service.Threads.Plain.{Plain}
use kha_app.Service.Threads.Follows.{Quiet}
use kha_app.Service.Threads.Follows.Single.{Settled, interleave-Told}
use kha_app.Service.Threads.Programs.{cached_program, load_group_info_program}
use kha_app.Service.Threads.{Pool, Program, ◌>>=◌, ready, returns, interleave}
use kha_app.Service.Threads.Loops.{on_event_program, program_of}
use kha_app.Service.Threads.Signalled.{times, taken, told, waiting, goroutines, interleave-times}
use kha_app.Service.Threads.Overtaken.{two_goroutines, overtaking, Diverged, overtaking-Diverged}
use kha_app.Tests.Data.{alice, team}
use kha_app.Tests.ServiceTests

event_first_is_lost_example :
    (load_group_info team 40
        (err (codes "offline"))
        41
        (event_last ServiceTests.loop_answers team ServiceTests.raw_team 11 new_messenger_service)
      ≡ fetched team (err (codes "offline")) 41 (
          event_last ServiceTests.loop_answers team ServiceTests.raw_team 11 new_messenger_service))
    × (load_group_info team 40 (err (codes "offline")) 41 (
          event_first ServiceTests.loop_answers team ServiceTests.raw_team 11 new_messenger_service)
        ≡ (
          ok (group_map ServiceTests.raw_team),
          event_first ServiceTests.loop_answers team ServiceTests.raw_team 11 new_messenger_service,
        ))
event_first_is_lost_example =
    event_first_is_lost ServiceTests.loop_answers team ServiceTests.raw_team 11 40 41
      (err (codes "offline")) new_messenger_service (omega arith)

-- The service after a first `Picture`, whose fetch runs.
abbrev fetching : Service
fetching = run new_messenger_service (gets_event ServiceTests.loop_answers (picture alice) ∷ [])

alice_fetched : mem alice fetching.fetches ≡ true
unfolding run mem same_text new_messenger_service schedule_avatar_fetch on_event
    invalidate_avatar_cache
alice_fetched = refl

succeeds : Succeeds ServiceTests.fetch_answers (codes "/cache/alice")
succeeds = record { has_path = refl; has_picture = refl; has_bytes = refl }

overtaken_is_shown_example :
    (get_profile_picture
        (ok (codes "/cache/alice"))
        alice
        5000
        (overtaken ServiceTests.loop_answers ServiceTests.fetch_answers alice fetching)
      ≡ (
        codes "/cache/alice",
        overtaken ServiceTests.loop_answers ServiceTests.fetch_answers alice fetching,
      ))
    × (mem alice
          (overtaken ServiceTests.loop_answers ServiceTests.fetch_answers alice fetching).fetches
        ≡ false)
overtaken_is_shown_example =
    overtaken_is_shown ServiceTests.loop_answers ServiceTests.fetch_answers alice
      (codes "/cache/alice") 5000 fetching
      (run-Tracked (gets_event ServiceTests.loop_answers (picture alice) ∷ [])) alice_fetched
      succeeds (omega arith)

abbrev net : Net
net = record {
  parse_jid = λ s. ok s;
  picture = λ s p. ok (some (codes "https://pps.whatsapp.net/a"));
  request = λ url. none;
  respond = λ url. ok (record { status_code = 200; status = codes "200 OK"; body = ok (1 ∷ []) });
}

abbrev disk : Disk
disk = record {
  path = ok (codes "/cache/alice");
  mkdir = none;
  write = none;
  begins_file = false;
  now = 1000;
}

fetch_avatar-Arrives_example :
    ((fetch_avatar alice (fetch_answers net disk alice) fetching).signals
      ≡ fetching.signals ++ avatar_updated alice (codes "/cache/alice") ∷ [])
    ↔ SomeArrives net disk alice (codes "/cache/alice")
fetch_avatar-Arrives_example =
    fetch_avatar-Arrives net disk alice (codes "/cache/alice") fetching alice_fetched

abbrev refused : AutoAnswers
refused = record {
  has_session = true;
  is_connected = false;
  connect = some (codes "no route to host");
}

-- A login, a QR code, a picture that is fetched, and a look-up of a group.
abbrev calls : List Call
calls =
    requests_login ServiceTests.new_login
    ∷ reads_qr ServiceTests.png (codes "49123") (code (codes "2@x"))
    ∷ gets_event ServiceTests.loop_answers (picture alice)
    ∷ fetches_avatar alice ServiceTests.fetch_answers
    ∷ loads_group team 10 (ok ServiceTests.raw_team) 11
    ∷ []

abbrev two_calls : List Call
two_calls = auto_connects refused ∷ gets_event ServiceTests.loop_answers connected ∷ []

interleave-times_example :
    times Status.connected (taken (0 ∷ 1 ∷ 1 ∷ 0 ∷ []) (goroutines two_calls))
    ≡ told Status.connected (interleave (0 ∷ 1 ∷ 1 ∷ 0 ∷ []) (goroutines two_calls)).service.signals
      + waiting Status.connected (interleave (0 ∷ 1 ∷ 1 ∷ 0 ∷ []) (goroutines two_calls)).threads
interleave-times_example = interleave-times two_calls (0 ∷ 1 ∷ 1 ∷ 0 ∷ []) Status.connected

abbrev online : Service
online = record new_messenger_service { status = Status.connected }

overtaking-Diverged_example :
    Diverged (interleave overtaking (two_goroutines refused ServiceTests.loop_answers online))
overtaking-Diverged_example =
    overtaking-Diverged refused ServiceTests.loop_answers (codes "no route to host") online
      (record { has_session = refl; offline = refl; refused = refl }) refl

-- The event loop at two events, and a look-up of a group beside it.
abbrev two_events : Program Unit
two_events =
    program_of (gets_event ServiceTests.loop_answers connected)
    >>= (λ u. program_of (gets_event ServiceTests.loop_answers disconnected))

abbrev group_look_up : Program Unit
group_look_up = program_of (loads_group team 10 (ok ServiceTests.raw_team) 11)

abbrev both_done : Pool
both_done = interleave (0 ∷ 1 ∷ 0 ∷ 1 ∷ 0 ∷ 0 ∷ 0 ∷ []) (record {
  threads = map ready (two_events ∷ group_look_up ∷ []);
  service = new_messenger_service;
})

two_events-Plain : Plain two_events
unfolding on_event_program
two_events-Plain = (refl, tt)

group_look_up-Quiet : Quiet group_look_up
unfolding load_group_info_program
group_look_up-Quiet = λ o. found o
  where
    found :
        (o : Option GroupInfo)
        → Quiet (cached_program team (ok ServiceTests.raw_team) 11 o >>= (λ r. returns tt))
    found none = tt
    found (some info) = tt

both_done-Settled : Settled both_done.threads
unfolding interleave on_event_program load_group_info_program new_messenger_service
both_done-Settled = (refl, (refl, tt))

interleave-Told_example : Told both_done.service
interleave-Told_example =
    interleave-Told (0 ∷ 1 ∷ 0 ∷ 1 ∷ 0 ∷ 0 ∷ 0 ∷ []) two_events (group_look_up ∷ []) both_done
      two_events-Plain (group_look_up-Quiet, tt) refl both_done-Settled
