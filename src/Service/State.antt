-- ===== src/Service/State.antt =====
-- daemon/dbus/service.go: the state of `MessengerService`, the signals that it emits, `setStatus`
-- and the status methods.
use kha_app.Prelude.{ℕ, Bool, true, false, List, [], ◌∷◌, ◌++◌, ℤ, Text, if◌then◌else◌}

-- The four texts that the program sets as its status.
pub data Status : Type 0 where
  disconnected connecting qr_pending connected : Status

pub data Signal : Type 0 where
  qr_code_updated : Text → Signal
  login_successful : Text → Signal
  message_received : Text → Text → Text → ℤ → Signal
  connection_status_changed : Status → Signal
  typing_started : Text → Text → Signal
  typing_stopped : Text → Text → Signal
  message_acknowledged : Text → ℤ → Signal
  avatar_updated : Text → Text → Signal

-- The map that `loadGroupInfo` builds and the cache keeps.
pub record GroupInfo : Type 0 where
  pub name : Text
  pub description : Text
  pub participant_count : ℤ
  pub participants : List Text

-- A point in time is a number of seconds.
pub record CachedGroupInfo : Type 0 where
  pub info : GroupInfo
  pub expires_at : ℕ

-- A file of the avatar cache.
pub record File : Type 0 where
  pub path : Text
  pub mod_time : ℕ

-- The signals stand oldest first. `avatar_downloads` holds the keys of the map, `fetches` the
-- chats whose fetching goroutine runs.
pub record Service : Type 0 where
  pub status : Status
  pub signals : List Signal
  pub group_info_cache : List (Text × CachedGroupInfo)
  pub avatar_downloads : List Text
  pub fetches : List Text
  pub files : List File

unfoldable pub new_messenger_service : Service
new_messenger_service = record {
  status = Status.disconnected;
  signals = [];
  group_info_cache = [];
  avatar_downloads = [];
  fetches = [];
  files = [];
}

abbrev pub same_status : Status → Status → Bool
same_status Status.disconnected Status.disconnected = true
same_status Status.connecting Status.connecting = true
same_status Status.qr_pending Status.qr_pending = true
same_status Status.connected Status.connected = true
same_status _ _ = false

unfoldable pub emit : Signal → Service → Service
emit s m = record m { signals = m.signals ++ s ∷ [] }

unfoldable pub set_status : Status → Service → Service
unfolding emit
set_status status m =
    if same_status m.status status
    then m
    else emit (connection_status_changed status) (record m { status = status })

-- `GetStatus` and `currentStatus`.
unfoldable pub current_status : Service → Status
current_status m = m.status
