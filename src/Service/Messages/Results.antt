-- ===== src/Service/Messages/Results.antt =====
-- What the methods over the message store return.
use mathlib.Core.Option
use kha_app.Prelude.{
  ℕ, zero, suc, ◌≤◌, ◌≡◌, refl, ap, true, false, Option, none, some, List, [], ◌∷◌, map, arith, ℤ,
  pos, negsuc, pos_part, Text, is_empty, length, drop, length-take-le, select,
}
use kha_app.Prelude.Result.{Result, ok, err, Outcome}
use kha_app.Storage.Message.{StoredMessage, Row, scan_message}
use kha_app.Storage.Table.{
  Table, find, with_preview, has_id, raise_receipt, update_where, update_receipt, get_by_id,
  set_local_path, update_local_path, scan_row,
}
use kha_app.Storage.Table.Lookup.{get_by_id-save}
use kha_app.Storage.Query.{Engine, in_chat, page, limited, scan_messages, get_by_jid}
use kha_app.Service.Messages.{
  sent_message, send_text_message, message_variant, message_variants, page_limit, page_offset,
  get_messages, DownloadAnswers, download_to, download_media, download_in, download_loaded,
}

-- A sent message under an id that is new and that the store takes can be read back under it: as
-- sent, marked as read, with its preview URL filled in.
pub get_by_id-send_text_message :
    (message_id jid text : Text) (now : ℤ) (t : Table)
    → find message_id t ≡ none
    → get_by_id none message_id (send_text_message (ok message_id) now none jid text t).1
      ≡ ok (with_preview (sent_message message_id jid text now))
unfolding send_text_message sent_message
get_by_id-send_text_message message_id jid text now t fresh =
    get_by_id-save (sent_message message_id jid text now) t fresh

pub update_where-none :
    (i : Text) (f : Row → Row) (t : Table) → find i t ≡ none → update_where (has_id i) f t ≡ t
unfolding find update_where
update_where-none i f [] h = refl
update_where-none i f (q ∷ t) h = ground (arith, update_where-none i f t)

-- A receipt for an id that is not stored yet is lost: it changes nothing, and the message, sent
-- and stored under this id, reads back without a receipt.
pub receipt_before_send :
    (message_id jid text : Text) (now k : ℤ) (t : Table)
    → find message_id t ≡ none
    → get_by_id none message_id
        (send_text_message
          (ok message_id)
          now
          none
          jid
          text
          (update_receipt none message_id k t).1).1
      ≡ ok (with_preview (sent_message message_id jid text now))
unfolding update_receipt
receipt_before_send message_id jid text now k t fresh =
    rw (update_where-none message_id (raise_receipt k) t fresh)
      (get_by_id-send_text_message message_id jid text now t fresh)

find-set_local_path :
    (i path : Text) (t : Table)
    → find i (update_where (has_id i) (set_local_path path) t)
      ≡ Option.map (set_local_path path) (find i t)
unfolding find update_where
find-set_local_path i path [] = refl
find-set_local_path i path (q ∷ t) = ground (arith, find-set_local_path i path t)

download_to-written :
    (a : DownloadAnswers) (i : Text) (msg : StoredMessage) (dir : Text) (t : Table) (path : Text)
    (content : List ℕ)
    → (download_to a i msg dir t).written ≡ some (path, content)
    → a.stored ≡ none
    → (download_to a i msg dir t).table ≡ update_where (has_id i) (set_local_path path) t
unfolding download_to update_local_path
download_to-written a i msg dir t path content wrote stored = ground arith

scan_row-set_local_path :
    (q : Option Row) (msg : StoredMessage) (path : Text)
    → scan_row q ≡ ok msg
    → scan_row (Option.map (set_local_path path) q) ≡ ok (record msg { local_path = path })
unfolding scan_message
scan_row-set_local_path none msg path h = ground arith
scan_row-set_local_path (some q) msg path h = ground arith

get_by_id-set_local_path :
    (o : Outcome) (i path : Text) (t : Table) (msg : StoredMessage)
    → get_by_id o i t ≡ ok msg
    → get_by_id none i (update_where (has_id i) (set_local_path path) t)
      ≡ ok (record msg { local_path = path })
unfolding get_by_id
get_by_id-set_local_path (some e) i path t msg h = ground arith
get_by_id-set_local_path none i path t msg h =
    rw (find-set_local_path i path t) (scan_row-set_local_path (find i t) msg path h)

download_has_media :
    (a : DownloadAnswers) (i : Text) (msg : StoredMessage) (t : Table) (path : Text)
    (content : List ℕ)
    → (download_loaded a i (ok msg) t).written ≡ some (path, content)
    → msg.has_media ≡ true
download_has_media a i msg t path content wrote = ground arith

download_in-written :
    (a : DownloadAnswers) (i : Text) (msg : StoredMessage) (r : Result Text) (t : Table)
    (path : Text) (content : List ℕ)
    → (download_in a i msg r t).written ≡ some (path, content)
    → a.stored ≡ none
    → (download_in a i msg r t).table ≡ update_where (has_id i) (set_local_path path) t
download_in-written a i msg (err e) t path content wrote stored = ground arith
download_in-written a i msg (ok dir) t path content wrote stored =
    download_to-written a i msg dir t path content wrote stored

-- A download that wrote a file loaded a message with media, and recorded the path.
download_loaded-written :
    (a : DownloadAnswers) (i : Text) (r : Result StoredMessage) (t : Table) (path : Text)
    (content : List ℕ)
    → (download_loaded a i r t).written ≡ some (path, content)
    → a.stored ≡ none
    → (msg : StoredMessage) × (r ≡ ok msg)
      × (msg.has_media ≡ true)
      × ((download_loaded a i r t).table ≡ update_where (has_id i) (set_local_path path) t)
download_loaded-written a i (err e) t path content wrote stored = ground arith
download_loaded-written a i (ok msg) t path content wrote stored = (
  msg,
  refl,
  download_has_media a i msg t path content wrote,
  ground (arith, download_in-written a i msg a.media_dir t path content),
)

download_loaded-again :
    (b : DownloadAnswers) (i : Text) (msg : StoredMessage) (t : Table) (path : Text)
    → msg.has_media ≡ true
    → is_empty path ≡ false
    → download_loaded b i (ok (record msg { local_path = path })) t
      ≡ record { path = path; written = none; table = t }
download_loaded-again b i msg t path media filled = ground arith

-- A download that wrote a file under a path that is not empty, and recorded it, is the last for
-- its message: the next request, where the store can be read, returns the same path, writes
-- nothing and leaves the table alone, whatever its other answers.
pub download_media_again :
    (a b : DownloadAnswers) (i : Text) (t : Table) (path : Text) (content : List ℕ)
    → (download_media a i t).written ≡ some (path, content)
    → a.stored ≡ none
    → b.loaded ≡ none
    → is_empty path ≡ false
    → let t' = (download_media a i t).table in
      download_media b i t' ≡ record { path = path; written = none; table = t' }
unfolding download_media
download_media_again a b i t path content wrote stored loaded filled =
    let (msg, found, media, table) =
      download_loaded-written a i (get_by_id a.loaded i t) t path content wrote stored in
    rw table (
      rw loaded (
        rw (get_by_id-set_local_path a.loaded i path t msg found)
          (download_loaded-again b i msg _ path media filled)))

length-map {ℓ κ} :
    {A : Type ℓ} {B : Type κ} (f : A → B) (xs : List A) → length (map f xs) ≡ length xs
length-map f [] = refl
length-map f (x ∷ xs) = ap suc (length-map f xs)

-- How many messages a caller can get that asks for `limit` of them.
abbrev pub at_most : ℤ → ℕ
at_most (pos zero) = 50
at_most (pos (suc n)) = suc n
at_most (negsuc n) = 50

-- A limit that `GetMessages` passes on is not negative.
length-limited-le : (limit : ℤ) (t : Table) → length (limited (page_limit limit) t) ≤ at_most limit
length-limited-le (pos zero) t = length-take-le 50 t
length-limited-le (pos (suc n)) t = ground (arith, length-take-le (suc n) t)
length-limited-le (negsuc n) t = ground (arith, length-take-le 50 t)

-- One request never returns more messages than the limit that it asks for, or than 50 where it asks
-- for none or a negative number, so that a negative limit does not read the whole chat.
pub length-get_messages-le :
    (e : Engine) (o : Outcome) (jid : Text) (limit offset : ℤ) (t : Table)
    → length (get_messages e o jid limit offset t) ≤ at_most limit
unfolding get_messages get_by_jid page scan_messages message_variants
length-get_messages-le e (some x) jid limit offset t = ground arith
length-get_messages-le e none jid limit offset t =
    let rows =
      limited (page_limit limit)
        (drop (pos_part (page_offset offset)) (e.order (select (in_chat jid) t))) in
    rw (length-map message_variant (scan_messages rows), length-map scan_message rows)
      (length-limited-le limit _)
