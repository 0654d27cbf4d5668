-- ===== src/Protocol/Receipt.antt =====
-- daemon/protocol/client.go: `mapReceiptType`.
use kha_app.Prelude.{◌||◌, [], ℤ, pos, Text, codes, same_text, if◌then◌else◌}

abbrev pub receipt_type_delivered : Text
receipt_type_delivered = []

abbrev pub receipt_type_read : Text
receipt_type_read = codes "read"

abbrev pub receipt_type_read_self : Text
receipt_type_read_self = codes "read-self"

abbrev pub receipt_type_played : Text
receipt_type_played = codes "played"

abbrev pub receipt_type_played_self : Text
receipt_type_played_self = codes "played-self"

unfoldable pub map_receipt_type : Text → ℤ
unfolding same_text
map_receipt_type receipt_type =
    if same_text receipt_type receipt_type_read
      || same_text receipt_type receipt_type_read_self
      || same_text receipt_type receipt_type_played
      || same_text receipt_type receipt_type_played_self
    then pos 2
    else if same_text receipt_type receipt_type_delivered
    then pos 1
    else pos 0
