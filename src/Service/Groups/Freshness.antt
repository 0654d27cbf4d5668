-- ===== src/Service/Groups/Freshness.antt =====
-- How long a group's information is answered from the cache.
use kha_app.Prelude.{ℕ, ◌+◌, ◌≡◌, none, arith, ltb, Text, same_text, same_text_refl, if◌then◌else◌}
use kha_app.Prelude.Result.{ok, err}
use kha_app.Prelude.Dict.{lookup, lookup-insert, lookup-delete}
use kha_app.Service.State.{Service}
use kha_app.Service.Groups.{
  RawGroup, group_map, group_info_ttl, fresh, store_group, load_group_info,
  invalidate_group_info_cache,
}

-- After a fetch for a group that had no fresh entry, a look-up within five minutes is answered
-- from the cache even if the server now answers with an error; from then on the error is what is
-- returned. Neither changes the state.
pub load_group_info_again :
    (jid : Text) (now later : ℕ) (g : RawGroup) (m : Service) (t after : ℕ) (x : Text)
    → fresh now (lookup jid m.group_info_cache) ≡ none
    → load_group_info jid t (err x) after (load_group_info jid now (ok g) later m).1 ≡ (
      if ltb t (later + group_info_ttl) then ok (group_map g) else err x,
      (load_group_info jid now (ok g) later m).1,
    )
unfolding load_group_info store_group
load_group_info_again jid now later g m t after x stale =
    rw stale (rw (lookup-insert jid jid _ m.group_info_cache, same_text_refl jid) (ground arith))

-- After an invalidation the group has no fresh entry at any time; other groups have what they had.
pub lookup-invalidate_group_info_cache :
    (jid other : Text) (now : ℕ) (m : Service)
    → fresh now (lookup other (invalidate_group_info_cache jid m).group_info_cache)
      ≡ (if same_text jid other then none else fresh now (lookup other m.group_info_cache))
unfolding invalidate_group_info_cache
lookup-invalidate_group_info_cache jid other now m =
    ground (arith, lookup-delete jid other m.group_info_cache)
