-- ===== src/Service/Receipt.antt =====
-- daemon/dbus/service.go: its own `mapReceiptType`. client.go has a function of this name too.
use kha_app.Prelude.{◌≡◌, refl, ◌||◌, ℤ, pos, Text, same_text, if◌then◌else◌}
use kha_app.Protocol.Receipt
use kha_app.Protocol.Receipt.{
  receipt_type_delivered, receipt_type_read, receipt_type_read_self, receipt_type_played,
  receipt_type_played_self,
}

unfoldable pub map_receipt_type : Text → ℤ
unfolding same_text
map_receipt_type receipt_type =
    if same_text receipt_type receipt_type_read
      || same_text receipt_type receipt_type_read_self
      || same_text receipt_type receipt_type_played
      || same_text receipt_type receipt_type_played_self
    then pos 2
    else if same_text receipt_type receipt_type_delivered
    then pos 1
    else pos 0

-- The daemon stores the receipt that the service tells.
pub map_receipt_type_lem :
    (receipt_type : Text) → map_receipt_type receipt_type ≡ Receipt.map_receipt_type receipt_type
unfolding map_receipt_type Receipt.map_receipt_type
map_receipt_type_lem receipt_type = refl
