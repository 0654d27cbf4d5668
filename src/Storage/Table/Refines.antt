-- ===== src/Storage/Table/Refines.antt =====
-- What `MessageStore` promises of its rows, as a map from message ids, which every write refines.
use mathlib.Core.Path.{fun_ext}
use mathlib.Core.Option
use kha_app.Prelude.{
  ◌≡◌, refl, ap, ◌∙◌, Bool, true, false, Option, none, some, List, [], ◌∷◌, arith, ℤ, pos, negsuc,
  zero, suc, Text, same_text, same_text_iff, ltb_ℤ, if◌then◌else◌,
}
use kha_app.Prelude.Result.{Outcome}
use kha_app.Storage.Message.{Bytes, StoredMessage, Row, bool_to_int, to_row}
use kha_app.Storage.Url.{extract_first_url}
use kha_app.Storage.Upsert.{merge, case_text, case_int, case_greater, case_set, case_blob}
use kha_app.Storage.Table.{
  Table, find, with_preview, has_id, raise_receipt, received_in, set_read, Write, saves, sets_path,
  sets_receipt, marks_read, write, write_all,
}
use kha_app.Storage.Table.Lookup.{View, view, spec, placed, rewritten, find-write}

-- A value that is not empty replaces the old one.
abbrev given : Text → Text → Text
given [] old = old
given (c ∷ cs) old = c ∷ cs

abbrev given_bytes : Bytes → Bytes → Bytes
given_bytes none old = old
given_bytes (some []) old = old
given_bytes (some (b ∷ bs)) old = some (b ∷ bs)

abbrev given_number : ℤ → ℤ → ℤ
given_number (pos zero) old = old
given_number (pos (suc n)) old = pos (suc n)
given_number (negsuc n) old = negsuc n

abbrev flag : Bool → ℤ
flag true = pos 1
flag false = pos 0

-- A flag that is set stays set.
abbrev flagged : Bool → ℤ → ℤ
flagged true old = pos 1
flagged false old = old

abbrev greater : ℤ → ℤ → ℤ
greater a b = if ltb_ℤ a b then b else a

-- The preview URL of a message is its own, else the first link of its text.
abbrev preview : StoredMessage → Text
preview msg = given msg.url_preview (extract_first_url msg.text)

-- The row of a message that is not there yet.
abbrev added : StoredMessage → Row
added msg = record {
  id = msg.id;
  jid = msg.jid;
  from_me = flag msg.from_me;
  text = msg.text;
  timestamp = msg.timestamp;
  sender_jid = msg.sender_jid;
  sender_name = msg.sender_name;
  is_group = flag msg.is_group;
  receipt = msg.receipt;
  has_media = flag msg.has_media;
  media_type = msg.media_type;
  media_mime = msg.media_mime;
  media_size = msg.media_size;
  local_path = msg.local_path;
  media_key = msg.media_key;
  direct_path = msg.direct_path;
  media_url = msg.media_url;
  file_enc_sha256 = msg.file_enc_sha256;
  file_sha256 = msg.file_sha256;
  is_read = flag msg.is_read;
  url_preview = preview msg;
}

-- The row of a message that is saved again: the chat, the direction, the text and the time are the
-- new ones; nothing that was known is overwritten by an empty value, no receipt falls, and what
-- was read stays read.
abbrev saved_again : StoredMessage → Row → Row
saved_again msg q = record {
  id = q.id;
  jid = msg.jid;
  from_me = flag msg.from_me;
  text = msg.text;
  timestamp = msg.timestamp;
  sender_jid = given msg.sender_jid q.sender_jid;
  sender_name = given msg.sender_name q.sender_name;
  is_group = flagged msg.is_group q.is_group;
  receipt = greater q.receipt msg.receipt;
  has_media = flagged msg.has_media q.has_media;
  media_type = given msg.media_type q.media_type;
  media_mime = given msg.media_mime q.media_mime;
  media_size = given_number msg.media_size q.media_size;
  local_path = given msg.local_path q.local_path;
  media_key = given_bytes msg.media_key q.media_key;
  direct_path = given msg.direct_path q.direct_path;
  media_url = given msg.media_url q.media_url;
  file_enc_sha256 = given_bytes msg.file_enc_sha256 q.file_enc_sha256;
  file_sha256 = given_bytes msg.file_sha256 q.file_sha256;
  is_read = flagged msg.is_read q.is_read;
  url_preview = given (preview msg) q.url_preview;
}

abbrev kept : StoredMessage → Option Row → Row
kept msg none = added msg
kept msg (some q) = saved_again msg q

abbrev path_set : Text → Row → Row
path_set path q = record q { local_path = path }

abbrev receipt_raised : ℤ → Row → Row
receipt_raised k q = record q { receipt = greater q.receipt k }

-- A message of the chat that somebody else sent is read.
abbrev read_in : Text → ℤ → Row → Row
read_in jid (pos zero) q = if same_text q.jid jid then record q { is_read = pos 1 } else q
read_in jid _ q = q

-- The promise. A failed call changes nothing.
abbrev promise : View → Outcome × Write → View
promise v (some e, w) j = v j
promise v (none, saves msg) j = if same_text j msg.id then some (kept msg (v j)) else v j
promise v (none, sets_path i path) j =
    if same_text j i then Option.map (path_set path) (v j) else v j
promise v (none, sets_receipt i k) j =
    if same_text j i then Option.map (receipt_raised k) (v j) else v j
promise v (none, marks_read jid) j = Option.map (λ q. read_in jid q.from_me q) (v j)

abbrev pub promise_all : View → List (Outcome × Write) → View
promise_all v [] = v
promise_all v (w ∷ ws) = promise_all (promise v w) ws

case_text_lem : (n o : Text) → case_text n o ≡ given n o
unfolding case_text
case_text_lem n o = ground arith

case_int_lem : (n o : ℤ) → case_int n o ≡ given_number n o
unfolding case_int
case_int_lem n o = ground arith

given_number-flag : (b : Bool) (o : ℤ) → given_number (flag b) o ≡ flagged b o
given_number-flag b o = ground arith

case_set-flag : (b : Bool) (o : ℤ) → case_set (flag b) o ≡ flagged b o
unfolding case_set
case_set-flag b o = ground arith

case_greater_lem : (n o : ℤ) → case_greater n o ≡ greater o n
unfolding case_greater
case_greater_lem n o = refl

case_blob_lem : (n o : Bytes) → case_blob n o ≡ given_bytes n o
unfolding case_blob
case_blob_lem none o = refl
case_blob_lem (some []) o = refl
case_blob_lem (some (b ∷ bs)) o = refl

bool_to_int_lem : (b : Bool) → bool_to_int b ≡ flag b
unfolding bool_to_int
bool_to_int_lem b = ground arith

ruleset given_laws = (
  case_text_lem, given_number-flag, case_int_lem, case_set-flag, case_greater_lem, case_blob_lem,
  bool_to_int_lem,
)

with_preview_lem :
    (msg : StoredMessage) → with_preview msg ≡ record msg { url_preview = preview msg }
unfolding with_preview
with_preview_lem msg = ground arith

placed_lem :
    (msg : StoredMessage) (o : Option Row) → placed (to_row (with_preview msg)) o ≡ kept msg o
unfolding to_row merge
placed_lem msg none = rw with_preview_lem (simp given_laws)
placed_lem msg (some q) = rw with_preview_lem (simp given_laws)

find_id : (j : Text) (t : Table) (q : Row) → find j t ≡ some q → q.id ≡ j
unfolding find
find_id j [] q h = cc
find_id j (r ∷ t) q h = ground (arith, same_text_iff j r.id, find_id j t q)

-- A change of the row of one id.
rewritten_lem :
    (i j : Text) (f : Row → Row) (o : Option Row)
    → ((q : Row) → o ≡ some q → q.id ≡ j)
    → Option.map (rewritten (has_id i) f) o ≡ (if same_text j i then Option.map f o else o)
rewritten_lem i j f none h = ground arith
rewritten_lem i j f (some q) h = ground (arith, h q refl, same_text_iff i q.id, same_text_iff j i)

read_in_lem :
    (jid : Text) (k : ℤ) (q : Row)
    → q.from_me ≡ k
    → rewritten (received_in jid) set_read q ≡ read_in jid k q
read_in_lem jid (pos zero) q h = ground (arith, same_text_iff jid q.jid, same_text_iff q.jid jid)
read_in_lem jid (pos (suc n)) q h = ground arith
read_in_lem jid (negsuc n) q h = ground arith

marked_lem :
    (jid : Text) (o : Option Row)
    → Option.map (rewritten (received_in jid) set_read) o
      ≡ Option.map (λ (q : Row). read_in jid q.from_me q) o
marked_lem jid none = refl
marked_lem jid (some q) = ap some (read_in_lem jid q.from_me q refl)

id-with_preview : (msg : StoredMessage) → (to_row (with_preview msg)).id ≡ msg.id
unfolding to_row with_preview
id-with_preview msg = ground arith

raised_lem : (k : ℤ) (q : Row) → raise_receipt k q ≡ receipt_raised k q
raised_lem k q = ground arith

spec_lem : (t : Table) (w : Outcome × Write) (j : Text) → spec (view t) w j ≡ promise (view t) w j
spec_lem t (some e, w) j = refl
spec_lem t (none, saves msg) j = rw (placed_lem msg (find j t), id-with_preview msg) refl
spec_lem t (none, sets_path i path) j = rewritten_lem i j (path_set path) (find j t) (find_id j t)
spec_lem t (none, sets_receipt i k) j =
    ap (λ f. Option.map (rewritten (has_id i) f) (find j t)) (fun_ext (raised_lem k))
    ∙ rewritten_lem i j (receipt_raised k) (find j t) (find_id j t)
spec_lem t (none, marks_read jid) j = marked_lem jid (find j t)

write-promise : (t : Table) (w : Outcome × Write) → view (write t w) ≡ promise (view t) w
write-promise t w = fun_ext λ j. find-write t w j ∙ spec_lem t w j

-- After any history of writes, each of which may have failed, a look-up by id in the table gives
-- what the promised map gives: a new message is there as it was saved; one that is saved again has
-- the new chat, direction, text and time, keeps each other value where the new one is empty, keeps
-- the greater receipt and what was read; a path is set, a receipt raised and a message marked as
-- read where its id or its chat says so; a preview URL that is empty is the first link of the
-- text; and a failed write changes nothing.
pub view-write_all :
    (t : Table) (ws : List (Outcome × Write)) → view (write_all t ws) ≡ promise_all (view t) ws
unfolding write_all
view-write_all t [] = refl
view-write_all t (w ∷ ws) =
    view-write_all (write t w) ws ∙ ap (λ (v : View). promise_all v ws) (write-promise t w)
