-- ===== src/Service/Contacts.antt =====
-- daemon/dbus/service.go: `lookupContactName`, `contactName` and `extractDisplayText`.
use kha_app.Prelude.{not, Option, none, some, [], Text, is_empty, if◌then◌else◌}
use kha_app.Prelude.Result.{Result, ok, err}
use kha_app.Protocol.Event.{ContactInfo, Content, MessageEvent}
use kha_app.Protocol.Contact.{Contacts}

-- The service's own switch over the names of a contact; client.go has one in `lookupContactName`.
unfoldable pub contact_name : ContactInfo → Text → Text
contact_name info fallback_jid =
    if not (is_empty info.business_name)
    then info.business_name
    else if not (is_empty info.full_name)
    then info.full_name
    else if not (is_empty info.first_name)
    then info.first_name
    else if not (is_empty info.push_name)
    then info.push_name
    else fallback_jid

abbrev found_name : Result (Text → ContactInfo) → Result Text → Text → Text
found_name (err e) jid fallback = fallback
found_name (ok contacts) (err e) fallback = fallback
found_name (ok contacts) (ok jid) fallback = contact_name (contacts jid) fallback

unfoldable pub lookup_contact_name : Contacts → Text → Text → Text
unfolding contact_name
lookup_contact_name c sender_jid fallback =
    found_name c.all_contacts (c.parse_jid sender_jid) fallback

abbrev display_content : Option Content → Text
display_content none = []
display_content (some m) =
    if not (is_empty m.conversation)
    then m.conversation
    else if not (is_empty m.extended_text)
    then m.extended_text
    else []

-- The event itself is never nil in the loop.
unfoldable pub extract_display_text : MessageEvent → Text
extract_display_text event = display_content event.message
