-- ===== src/Service/Groups/Race.antt =====
-- daemon/dbus/service.go: `loadGroupInfo` beside the event loop. `cacheMu` is held for the look-up
-- and for the storing, not for the call of whatsmeow between them.
use kha_app.Prelude.{ℕ, ◌+◌, ◌<◌, ◌≡◌, refl, none, some, arith, Text, same_text_refl}
use kha_app.Prelude.Result.{Result, ok}
use kha_app.Prelude.Dict.{lookup, lookup-insert, lookup-delete}
use kha_app.Protocol.Event.{group_info}
use kha_app.Service.State.{GroupInfo, Service}
use kha_app.Service.Groups.{
  RawGroup, group_map, group_info_ttl, fresh, store_group, fetched, load_group_info,
  invalidate_group_info_cache,
}
use kha_app.Service.Loop.{LoopAnswers, on_event}

-- A call that finds no fresh entry and that nothing interrupts is its fetch and its storing.
pub load_group_info-fetched :
    (jid : Text) (now : ℕ) (answer : Result RawGroup) (later : ℕ) (m : Service)
    → fresh now (lookup jid m.group_info_cache) ≡ none
    → load_group_info jid now answer later m ≡ fetched jid answer later m
unfolding load_group_info
load_group_info-fetched jid now answer later m stale = rw stale refl

-- The event, and then the storing of what was fetched before it.
abbrev pub event_first : LoopAnswers → Text → RawGroup → ℕ → Service → Service
event_first a jid g later m = (fetched jid (ok g) later (on_event a (group_info jid) m)).1

-- The storing, and then the event.
abbrev pub event_last : LoopAnswers → Text → RawGroup → ℕ → Service → Service
event_last a jid g later m = on_event a (group_info jid) (fetched jid (ok g) later m).1

fresh-store_group :
    (jid : Text) (info : GroupInfo) (later t : ℕ) (m : Service)
    → t < later + group_info_ttl
    → fresh t (lookup jid (store_group jid info later m).group_info_cache) ≡ some info
unfolding store_group
fresh-store_group jid info later t m soon =
    rw (lookup-insert jid jid _ m.group_info_cache, same_text_refl jid) (ground arith)

fresh-invalidate :
    (jid : Text) (t : ℕ) (m : Service)
    → fresh t (lookup jid (invalidate_group_info_cache jid m).group_info_cache) ≡ none
unfolding invalidate_group_info_cache
fresh-invalidate jid t m = rw (lookup-delete jid jid m.group_info_cache, same_text_refl jid) refl

-- When a group changes while its information is being fetched, the order of the event and of the
-- storing decides. Where the event comes last, the next look-up asks whatsmeow again. Where the
-- event comes first it is lost: for five minutes every look-up returns what was fetched, whatever
-- whatsmeow would answer, and changes nothing.
pub event_first_is_lost :
    (a : LoopAnswers) (jid : Text) (g : RawGroup) (later t after : ℕ) (answer : Result RawGroup)
    (m : Service)
    → t < later + group_info_ttl
    → (load_group_info jid t answer after (event_last a jid g later m)
        ≡ fetched jid answer after (event_last a jid g later m))
      × (load_group_info jid t answer after (event_first a jid g later m)
          ≡ (ok (group_map g), event_first a jid g later m))
unfolding on_event load_group_info
event_first_is_lost a jid g later t after answer m soon = (
  load_group_info-fetched jid t answer after _ (fresh-invalidate jid t _),
  rw (fresh-store_group jid (group_map g) later t (invalidate_group_info_cache jid m) soon) refl,
)
