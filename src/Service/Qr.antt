-- ===== src/Service/Qr.antt =====
-- daemon/dbus/service.go: `generateQRCodeBase64`. The encoder of QR codes is an argument;
-- `base64.StdEncoding` is written out (RFC 4648).
pub mod Decoded
use kha_app.Prelude.{
  ℕ, ◌+◌, ◌-◌, ◌*◌, ◌/◌, ◌%◌, ◌≤◌, ◌<◌, ◌≡◌, refl, Bool, true, false, ◌&&◌, List, [], ◌∷◌, ◌++◌,
  arith, All, leb, ltb, ◌==◌, length, Text, codes, if◌then◌else◌,
}
use kha_app.Prelude.Result.{Result, ok, err, ◌>>=◌}

-- The character '='.
abbrev padding : ℕ
padding = 61

-- The character of a number below 64.
unfoldable pub sextet_char : ℕ → ℕ
sextet_char n =
    if ltb n 26
    then n + 65
    else if ltb n 52
    then n + 71
    else if ltb n 62
    then n - 4
    else if n == 62
    then 43
    else 47

-- Three bytes become four characters; one or two bytes at the end are padded.
unfoldable pub encode_to_string : List ℕ → Text
unfolding sextet_char
encode_to_string [] = []
encode_to_string (a ∷ []) = sextet_char (a / 4) ∷ sextet_char (a % 4 * 16) ∷ padding ∷ padding ∷ []
encode_to_string (a ∷ b ∷ []) =
    sextet_char (a / 4)
    ∷ sextet_char (a % 4 * 16 + b / 16)
    ∷ sextet_char (b % 16 * 4)
    ∷ padding
    ∷ []
encode_to_string (a ∷ b ∷ c ∷ bytes) =
    sextet_char (a / 4)
    ∷ sextet_char (a % 4 * 16 + b / 16)
    ∷ sextet_char (b % 16 * 4 + c / 64)
    ∷ sextet_char (c % 64)
    ∷ encode_to_string bytes

-- `qrcode.RecoveryLevel`.
pub data RecoveryLevel : Type 0 where
  low medium high highest : RecoveryLevel

unfoldable pub generate_qr_code_base64 :
    (Text → RecoveryLevel → ℕ → Result (List ℕ)) → Text → Result Text
unfolding encode_to_string
generate_qr_code_base64 encode qr_string = elim (encode qr_string medium 256) [
  | err e ↦ err e
  | ok png_bytes ↦ ok (encode_to_string png_bytes)
]
