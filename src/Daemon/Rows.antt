-- ===== src/Daemon/Rows.antt =====
-- Which messages have a row in the message store, and how writes keep it so.
use mathlib.Core.Path.{subst}
use kha_app.Prelude.{
  ◌≡◌, Bool, true, false, Option, none, some, List, [], ◌∷◌, ◌++◌, arith, All, Text, is_empty,
  same_text_refl,
}
use kha_app.Prelude.Result.{Outcome}
use kha_app.Storage.Message.{StoredMessage, to_row}
use kha_app.Storage.Table.{
  Table, find, with_preview, Write, saves, sets_path, sets_receipt, marks_read, write, write_all,
}
use kha_app.Storage.Table.Lookup.{find-write}
use kha_app.Protocol.Event.{
  Event, MessageEvent, message, connected, disconnected, logged_out, receipt, chat_presence,
  group_info, picture, unhandled,
}
use kha_app.Protocol.Contact.{Contacts}
use kha_app.Protocol.Content.{build_stored_message}
use kha_app.Protocol.Client.{Answers, is_stored}
use kha_app.Protocol.Client.Persistence
use kha_app.Protocol.Content.Built.{build_stored_message_lem, id-build_stored_message}
use kha_app.Protocol.Client.Channel.{passed_on}
use kha_app.Service.Contacts.{extract_display_text}
use kha_app.Service.Loop.Stored.{display_lem}

abbrev is_some : {A : Type 0} → Option A → Bool
is_some none = false
is_some (some a) = true

-- The message store has a row under the id.
abbrev pub HasRow : Text → Table → Type 0
HasRow i t = is_some (find i t) ≡ true

HasRow-write : (i : Text) (t : Table) (w : Outcome × Write) → HasRow i t → HasRow i (write t w)
HasRow-write i t (none, saves msg) h = rw (find-write t (none, saves msg) i) (ground arith)
HasRow-write i t (none, sets_path j path) h =
    rw (find-write t (none, sets_path j path) i) (ground arith)
HasRow-write i t (none, sets_receipt j k) h =
    rw (find-write t (none, sets_receipt j k) i) (ground arith)
HasRow-write i t (none, marks_read jid) h =
    rw (find-write t (none, marks_read jid) i) (ground arith)
HasRow-write i t (some e, w) h = rw (find-write t (some e, w) i) (ground arith)

HasRow-write_all :
    (i : Text) (t : Table) (ws : List (Outcome × Write)) → HasRow i t → HasRow i (write_all t ws)
unfolding write_all
HasRow-write_all i t [] h = h
HasRow-write_all i t (w ∷ ws) h = HasRow-write_all i (write t w) ws (HasRow-write i t w h)

is_stored-build_stored_message :
    (c : Contacts) (event : MessageEvent)
    → is_empty (extract_display_text event) ≡ false
    → is_stored (build_stored_message c event) ≡ true
unfolding is_stored
is_stored-build_stored_message c event h =
    ground (arith, build_stored_message_lem c event, display_lem event)

HasRow-save : (t : Table) (msg : StoredMessage) → HasRow msg.id (write t (none, saves msg))
unfolding with_preview to_row
HasRow-save t msg =
    rw (find-write t (none, saves msg) msg.id) (ground (arith, same_text_refl msg.id))

-- A message with text to display has a row.
abbrev pub IsIn : Table → Event → Type 0
IsIn t (message event) = is_empty (extract_display_text event) ≡ false → HasRow event.id t
IsIn t _ = Unit

HasRow-arrives :
    (a : Answers) (event : MessageEvent) (t : Table)
    → a.save_outcome ≡ none
    → IsIn (write_all t (Persistence.writes a (message event))) (message event)
unfolding Persistence.writes write_all
HasRow-arrives a event t saved h =
    let msg = build_stored_message a.contacts event in
    rw (is_stored-build_stored_message a.contacts event h, saved)
      (subst (λ i. HasRow i (write t (none, saves msg))) (id-build_stored_message a.contacts event)
        (HasRow-save t msg))

IsIn-write_all :
    (t : Table) (ws : List (Outcome × Write)) (e : Event) → IsIn t e → IsIn (write_all t ws) e
IsIn-write_all t ws (message event) h = λ x. HasRow-write_all event.id t ws (h x)
IsIn-write_all t ws connected h = tt
IsIn-write_all t ws disconnected h = tt
IsIn-write_all t ws logged_out h = tt
IsIn-write_all t ws (receipt r ids) h = tt
IsIn-write_all t ws (chat_presence chat sender state) h = tt
IsIn-write_all t ws (group_info jid) h = tt
IsIn-write_all t ws (picture jid) h = tt
IsIn-write_all t ws unhandled h = tt

abbrev pub AllIn : Table → List Event → Type 0
AllIn t = All (IsIn t)

pub AllIn-write_all :
    (t : Table) (ws : List (Outcome × Write)) (es : List Event)
    → AllIn t es
    → AllIn (write_all t ws) es
AllIn-write_all t ws [] h = tt
AllIn-write_all t ws (e ∷ es) h = (IsIn-write_all t ws e h.0, AllIn-write_all t ws es h.1)

pub AllIn-append : (t : Table) (es fs : List Event) → AllIn t es → AllIn t fs → AllIn t (es ++ fs)
AllIn-append t [] fs h k = k
AllIn-append t (e ∷ es) fs h k = (h.0, AllIn-append t es fs h.1 k)

pub AllIn-passed_on :
    (a : Answers) (e : Event) (t : Table)
    → a.save_outcome ≡ none
    → AllIn (write_all t (Persistence.writes a e)) (passed_on e)
AllIn-passed_on a (message event) t h = (HasRow-arrives a event t h, tt)
AllIn-passed_on a unhandled t h = tt
AllIn-passed_on a connected t h = (tt, tt)
AllIn-passed_on a disconnected t h = (tt, tt)
AllIn-passed_on a logged_out t h = (tt, tt)
AllIn-passed_on a (receipt r ids) t h = (tt, tt)
AllIn-passed_on a (chat_presence chat sender state) t h = (tt, tt)
AllIn-passed_on a (group_info jid) t h = (tt, tt)
AllIn-passed_on a (picture jid) t h = (tt, tt)
