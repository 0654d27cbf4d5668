-- ===== src/Protocol/Contact.antt =====
-- daemon/protocol/client.go: `lookupContactName`, over the contact store of whatsmeow.
use kha_app.Prelude.{Bool, not, Text, is_empty, ◌≢◌, [], arith, if◌then◌else◌}
use kha_app.Prelude.Result.{Result, ok, err}
use kha_app.Protocol.Event.{ContactInfo}

-- What the client asks of whatsmeow: whether there is a contact store, `types.ParseJID`, and the
-- two reads of the store. `all_contacts` reads a Go map, which has a zero value at a missing key.
pub record Contacts : Type 0 where
  pub has_contacts : Bool
  pub parse_jid : Text → Result Text
  pub get_contact : Text → Result ContactInfo
  pub all_contacts : Result (Text → ContactInfo)

-- The switch over the names of a contact.
unfoldable pub contact_name : ContactInfo → Text → Text
contact_name info fallback =
    if not (is_empty info.business_name)
    then info.business_name
    else if not (is_empty info.full_name)
    then info.full_name
    else if not (is_empty info.first_name)
    then info.first_name
    else if not (is_empty info.push_name)
    then info.push_name
    else fallback

abbrev named : Result ContactInfo → Text → Text
named (err e) sender_jid = sender_jid
named (ok info) sender_jid = contact_name info sender_jid

abbrev parsed_contact : Contacts → Result Text → Result ContactInfo
parsed_contact c (err e) = err e
parsed_contact c (ok jid) = c.get_contact jid

unfoldable pub lookup_contact_name : Contacts → Text → Text → Text
unfolding contact_name
lookup_contact_name c sender_jid push_name =
    if not (is_empty push_name)
    then push_name
    else if not c.has_contacts
    then sender_jid
    else named (parsed_contact c (c.parse_jid sender_jid)) sender_jid

contact_name-ne-nil :
    (info : ContactInfo) (fallback : Text) → fallback ≢ [] → contact_name info fallback ≢ []
unfolding contact_name
contact_name-ne-nil info fallback h = ground arith

named-ne-nil : (r : Result ContactInfo) (s : Text) → s ≢ [] → named r s ≢ []
named-ne-nil (err e) s h = h
named-ne-nil (ok info) s h = contact_name-ne-nil info s h

-- A sender's name is never empty where the sender's JID is not, whatever the contact store answers.
pub lookup_contact_name-ne-nil :
    (c : Contacts) (sender_jid push_name : Text)
    → sender_jid ≢ []
    → lookup_contact_name c sender_jid push_name ≢ []
unfolding lookup_contact_name
lookup_contact_name-ne-nil c sender_jid push_name h =
    ground (arith, named-ne-nil (parsed_contact c (c.parse_jid sender_jid)) sender_jid h)
