-- ===== src/Service/Run/Told.antt =====
-- The signals under every interleaving.
use kha_app.Prelude.{refl, List, [], ◌∷◌}
use kha_app.Service.State.{Service, new_messenger_service}
use kha_app.Service.Told.{Told}
use kha_app.Service.Loop.Told.{
  auto_connect-Told, request_login-Told, qr_item-Told, logout-Told, on_event-Told,
  load_group_info-Told, get_profile_picture-Told, fetch_avatar-Told,
}
use kha_app.Service.Chats.Keeps.{get_chats-keeps}
use kha_app.Service.Run.{
  Call, auto_connects, requests_login, reads_qr, logs_out, gets_event, loads_group, gets_picture,
  lists_chats, fetches_avatar, step, run,
}

step-Told : (m : Service) (c : Call) → Told m → Told (step m c)
unfolding step
step-Told m (auto_connects a) h = auto_connect-Told a m h
step-Told m (requests_login a) h = request_login-Told a m h
step-Told m (reads_qr gen phone i) h = qr_item-Told gen phone i m h
step-Told m (logs_out a) h = logout-Told a m h
step-Told m (gets_event a e) h = on_event-Told a e m h
step-Told m (loads_group jid now answer later) h = load_group_info-Told jid now answer later m h
step-Told m (gets_picture path jid now) h = get_profile_picture-Told path jid now m h
step-Told m (lists_chats e a t) h =
    get_chats-keeps Told
      (record { by_group_info = load_group_info-Told; by_picture = get_profile_picture-Told }) e a t
      m h
step-Told m (fetches_avatar jid a) h = fetch_avatar-Told jid a m h

pub run_from-Told : (m : Service) (cs : List Call) → Told m → Told (run m cs)
unfolding run
run_from-Told m [] h = h
run_from-Told m (c ∷ cs) h = run_from-Told (step m c) cs (step-Told m c h)

-- From a new service on, after any calls in any order, each of which is one step, the last
-- `ConnectionStatusChanged` carries the current status ("disconnected" before the first), and no
-- such signal repeats the status that was known before it.
pub run-Told : (cs : List Call) → Told (run new_messenger_service cs)
unfolding new_messenger_service
run-Told cs = run_from-Told new_messenger_service cs (record { is_shown = refl; are_changes = tt })
