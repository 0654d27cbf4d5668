-- ===== src/Service/Threads/Programs.antt =====
-- daemon/dbus/service.go: the functions of `Service.Run`, action by action.
use kha_app.Prelude.{
  ℕ, ◌+◌, Bool, true, false, not, ◌&&◌, ◌||◌, Option, none, some, List, [], ltb, Text,
  if◌then◌else◌,
}
use kha_app.Prelude.Result.{Result, ok, err, Outcome}
use kha_app.Service.State.{
  Status, GroupInfo, File, login_successful, qr_code_updated, avatar_updated,
}
use kha_app.Service.Login.{
  AutoAnswers, LoginAnswers, is_pending, QrItem, code, timeout, other_item, ClientCall,
  LogoutAnswers, logout_calls,
}
use kha_app.Service.Groups.{RawGroup, group_map}
use kha_app.Service.Avatars.{avatar_ttl, FetchAnswers, has_url, all_done, leaves_part}
use kha_app.Service.Threads.{
  Program, ◌>>=◌, returns, sets_status, reads_status, emits, looks_up, stores, stats, writes_file,
  schedules, unmarks,
}

abbrev pub connect_program : Outcome → Program Outcome
connect_program none = returns none
connect_program (some e) = sets_status Status.disconnected (returns (some e))

-- `AutoConnect`.
unfoldable pub auto_connect_program : AutoAnswers → Program Outcome
auto_connect_program a =
    if not a.has_session || a.is_connected
    then returns none
    else sets_status Status.connecting (connect_program a.connect)

-- What `RequestLogin` returns, and whether it has started the goroutine over the QR channel.
abbrev pub qr_connect_program : Outcome → Program (Outcome × Bool)
qr_connect_program none = sets_status Status.qr_pending (returns (none, true))
qr_connect_program (some e) = sets_status Status.disconnected (returns (some e, false))

abbrev pub qr_channel_program : Outcome → Outcome → Program (Outcome × Bool)
qr_channel_program none connect = qr_connect_program connect
qr_channel_program (some e) connect = sets_status Status.disconnected (returns (some e, false))

unfoldable pub request_login_program : LoginAnswers → Program (Outcome × Bool)
unfolding auto_connect_program
request_login_program a = reads_status (λ status.
    if a.is_connected || is_pending status
    then returns (none, false)
    else if a.has_session
    then auto_connect_program a.auto >>= (λ e. returns (e, false))
    else sets_status Status.connecting (qr_channel_program a.get_qr_channel a.connect))

module _ (generate_qr_code_base64 : Text → Result Text) (phone_number : Text) where
  abbrev pub encoded_program : Result Text → Program Unit
  encoded_program (ok encoded) = emits (qr_code_updated encoded) (returns tt)
  encoded_program (err e) = returns tt

  -- One item of the QR channel.
  unfoldable pub qr_item_program : QrItem → Program Unit
  qr_item_program (code c) = encoded_program (generate_qr_code_base64 c)
  qr_item_program QrItem.success =
      sets_status Status.connected (emits (login_successful phone_number) (returns tt))
  qr_item_program timeout = sets_status Status.disconnected (returns tt)
  qr_item_program (other_item e) = returns tt

-- `Logout`, of which only the last call changes the service.
unfoldable pub logout_program : LogoutAnswers → Program (List ClientCall)
unfolding logout_calls
logout_program a = sets_status Status.disconnected (returns (logout_calls a))

-- The lock is held for the look-up, and again for the storing.
abbrev pub fetched_program : Text → Result RawGroup → ℕ → Program (Result GroupInfo)
fetched_program jid (err e) later = returns (err e)
fetched_program jid (ok g) later = stores jid (group_map g) later (returns (ok (group_map g)))

abbrev pub cached_program :
    Text → Result RawGroup → ℕ → Option GroupInfo → Program (Result GroupInfo)
cached_program jid answer later (some info) = returns (ok info)
cached_program jid answer later none = fetched_program jid answer later

unfoldable pub load_group_info_program : Text → ℕ → Result RawGroup → ℕ → Program (Result GroupInfo)
unfolding group_map
load_group_info_program jid now answer later = looks_up jid now (cached_program jid answer later)

abbrev pub picture_program : Text → Text → ℕ → Option File → Program Text
picture_program jid path now none = schedules jid (returns [])
picture_program jid path now (some f) =
    if ltb now (f.mod_time + avatar_ttl) then returns path else schedules jid (returns path)

unfoldable pub get_profile_picture_program : Result Text → Text → ℕ → Program Text
get_profile_picture_program (err e) jid now = returns []
get_profile_picture_program (ok path) jid now = stats path (picture_program jid path now)

-- The goroutine that fetches a picture: the file, the signal, and the deferred deletion of the mark.
unfoldable pub fetch_program : Text → FetchAnswers → Program Unit
fetch_program jid a = elim a.path [
  | err e ↦ unmarks jid (returns tt)
  | ok path ↦
      if has_url a.picture_url && all_done a
      then writes_file path a.now (emits (avatar_updated jid path) (unmarks jid (returns tt)))
      else if has_url a.picture_url && leaves_part a
      then writes_file path a.now (unmarks jid (returns tt))
      else unmarks jid (returns tt)
]
