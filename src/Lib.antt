-- ===== src/Lib.antt =====
-- KhaApp's daemon: the Go program under daemon/ that connects to WhatsApp through whatsmeow, keeps
-- the messages in SQLite and serves a desktop frontend over D-Bus.
--
-- The parts and how they interact. `daemon/storage/messages.go` stores messages (Storage).
-- `daemon/protocol/client.go` handles the events of whatsmeow: it stores messages and receipts,
-- passes the events on through a channel of 32, and reconnects (Protocol);
-- `daemon/protocol/linkpreview.go` reads a web page (Protocol.Preview). `daemon/dbus/service.go` reads
-- the channel, turns events into signals, and answers the methods of the frontend from the store,
-- its caches and the client (Service). `daemon/cmd/main.go` names the databases, starts the rest and
-- shuts it down (Main), with `daemon/storage/store.go`. Once started, the parts run side by side
-- (Daemon).
--
-- Storage
--   Message        `StoredMessage`, its row, `boolToInt`, `scanMessage`
--   Url            `urlRegexp`, `extractFirstURL`
--   Upsert         the `ON CONFLICT` clause of `Save`, one CASE form to a function
--   Table          `Save`, `UpdateLocalPath`, `UpdateReceipt`, `MarkJIDAsRead`, `GetUnreadCount`,
--                  `GetByID`, and any sequence of the writing ones (`write_all`); Table.Refines says
--                  what they promise of the rows as a map from ids
--   Query          `GetByJID`, `SearchByJID`, `GetRecentChats`; Query.Pages.Split says what a page is
--   Raw            `scanMessage` and `scanMessages` on SQL values
--   Schema         `init`, `migrateColumns`
-- Protocol
--   Event          the events of whatsmeow, with the fields that are read
--   Receipt        `mapReceiptType`
--   Contact        `lookupContactName`, the choice among the names of a contact
--   Content        `extractMessageText`, `buildStoredMessage`
--   Media          `mapMediaType`, `mapMMSType`, `MediaFilename`
--   Reconnect      `StopReconnect`, `startReconnectLoop` and its goroutines, a round of a loop as one
--                  step, and as single actions that interleave (Reconnect.Attempt)
--   Client         the handler of `replaceClient`; Client.Persistence.Asked says which writes an event
--                  asks for
--   Preview        `FetchLinkPreview`, `attrValue`, `resolveRelativeURL`
--   Session        `NewWAClient`, `HasSession`, `PhoneNumber`, `ResetSession` and the other methods over
--                  whatsmeow's client, and what the service's `Logout` does to it
--   Calls          `GetGroupInfo`, `GetProfilePictureInfo`, `DownloadStoredMedia`, `DownloadFile`
-- Service
--   State          `MessengerService`, the signals, `setStatus`
--   Variants       the maps of D-Bus variants, `variantString`
--   Receipt        its own `mapReceiptType`
--   Login          `AutoConnect`, `RequestLogin` with its goroutine, `Logout`
--   Groups         `loadGroupInfo` and its cache
--   Avatars        `GetProfilePicture`, `scheduleAvatarFetch` with its goroutine
--   Paths          `avatarCachePath`, `mediaCacheDir`, and `filepath.Join`
--   Messages       `SendTextMessage`, `GetMessages`, `SearchMessages`, `DownloadMedia`, `MarkAsRead`
--   Contacts       `lookupContactName`, `contactName`, `extractDisplayText`
--   Loop           `RunEventLoop`
--   Chats          `GetChats`
--   Run            all calls that change the service, in any order, each as one step
--   Threads        the same calls as goroutines, whose single actions interleave
--   Interface      `Export`'s introspection data, the signatures of the methods, the `Emit` calls
--   Qr             `generateQRCodeBase64`
-- Main             `resolveStorePath`, and the path of the second database in `main`
--   Start          `main` with `NewStore`, `NewMessageStore`, `ConnectSessionBus`, `Export` and
--                  `Shutdown`
-- Daemon           schedules of events, calls, writes and timers over the client and the service
-- Prelude          shared names: integers, strings, results, association lists
-- Tests            the theorems at concrete inputs
--
-- How it is modelled. A record stands for a struct, a state is passed from call to call, and what a
-- library, the clock, the file system or the network answers is an argument, so that a theorem holds
-- for every answer. A string is the list of its code points; a JID is the text of its `String()`. A
-- table is the list of its rows in which `upsert` replaces in place; what SQLite leaves open (the
-- order among equal timestamps) or its text functions do is the record `Query.Engine` with the laws
-- of its documentation. Go's conversions to `int32` and `int64` wrap. Goroutines are steps: a call,
-- one event, one round of a reconnect loop, one finished download is one step, and a schedule is any
-- list of steps. The mutexes of service.go guard single accesses and not whole calls: Service.Threads
-- takes its calls apart into the actions that one lock, one `Emit` or one call of the file system is,
-- and interleaves these, as Protocol.Reconnect.Attempt does with the reconnect loops; in Daemon a call
-- is one step. Times are in seconds.
--
-- Bounds. All recursion is on lists, on the tree of a page or on the end of a path: there is no fuel.
-- The channel's 32 and the delays of 2 to 60 seconds are the source's own.
--
-- What whatsmeow's client and its database of devices, godbus and SQLite document is stated as named
-- hypotheses (Session.Devices.Documented, Interface.Documented, Query.Engine) or is an argument
-- (Raw.Conversions: what database/sql makes of a value of another type), which Tests fills with
-- concrete functions. `base64.StdEncoding` and `filepath.Join`, of Go's own library, are written out.
--
-- Not modelled: log lines, `RenderQRInTerminal` (it prints), `Events` and `GetQRChannel` (they pass a
-- channel on), the index of the table, the contents of picture files, the
-- libraries under `daemon/vendor`, and the frontend.
pub mod Prelude
pub mod Storage
pub mod Protocol
pub mod Service
pub mod Daemon
pub mod Main
pub mod Tests
