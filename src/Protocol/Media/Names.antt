-- ===== src/Protocol/Media/Names.antt =====
-- The name under which an attachment is stored.
use kha_app.Prelude.{ℕ, ◌≡◌, refl, true, List, Text, has_code, has_code-append}
use kha_app.Storage.Message.{StoredMessage}
use kha_app.Protocol.Media.{media_filename}

-- A character of the message's id, a slash too, is a character of the file name: nothing is taken
-- out of the id, which the other end of a chat chooses.
pub media_filename-has_code :
    (c : ℕ) (extensions_by_type : Text → List Text) (msg : StoredMessage)
    → has_code c msg.id ≡ true
    → has_code c (media_filename extensions_by_type msg) ≡ true
unfolding media_filename
media_filename-has_code c extensions_by_type msg h = rw (has_code-append, h) refl
