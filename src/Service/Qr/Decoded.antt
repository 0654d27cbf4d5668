-- ===== src/Service/Qr/Decoded.antt =====
-- The decoder of RFC 4648 that a receiver of `QRCodeUpdated` applies, and the round trip through
-- `generateQRCodeBase64`.
use kha_app.Prelude.{
  ℕ, ◌+◌, ◌-◌, ◌*◌, ◌/◌, ◌%◌, ◌<◌, ◌≡◌, refl, ap, false, ◌&&◌, List, [], ◌∷◌, arith, All, leb, ◌==◌,
  Text, codes, if◌then◌else◌,
}
use kha_app.Prelude.Result.{Result, ok, err, ◌>>=◌}
use kha_app.Service.Qr.{
  padding, sextet_char, encode_to_string, RecoveryLevel, medium, generate_qr_code_base64,
}

-- The number of a character.
unfoldable sextet : ℕ → Result ℕ
sextet c =
    if leb 65 c && leb c 90
    then ok (c - 65)
    else if leb 97 c && leb c 122
    then ok (c - 71)
    else if leb 48 c && leb c 57
    then ok (c + 4)
    else if c == 43
    then ok 62
    else if c == 47
    then ok 63
    else err (codes "illegal base64 data")

abbrev first_byte : Result ℕ → Result ℕ → Result ℕ
first_byte p q = do x ← p; y ← q; ok (x * 4 + y / 16)

abbrev second_byte : Result ℕ → Result ℕ → Result ℕ
second_byte q r = do y ← q; z ← r; ok (y % 16 * 16 + z / 4)

abbrev third_byte : Result ℕ → Result ℕ → Result ℕ
third_byte r s = do z ← r; u ← s; ok (z % 4 * 64 + u)

abbrev cons_byte : Result ℕ → Result (List ℕ) → Result (List ℕ)
cons_byte b rest = do x ← b; bytes ← rest; ok (x ∷ bytes)

abbrev one_byte : Result ℕ → Result ℕ → Result (List ℕ)
one_byte p q = cons_byte (first_byte p q) (ok [])

abbrev two_bytes : Result ℕ → Result ℕ → Result ℕ → Result (List ℕ)
two_bytes p q r = cons_byte (first_byte p q) (cons_byte (second_byte q r) (ok []))

abbrev three_bytes : Result ℕ → Result ℕ → Result ℕ → Result ℕ → Result (List ℕ) → Result (List ℕ)
three_bytes p q r s rest =
    cons_byte (first_byte p q) (cons_byte (second_byte q r) (cons_byte (third_byte r s) rest))

unfoldable pub decode : Text → Result (List ℕ)
unfolding sextet
decode [] = ok []
decode (a ∷ b ∷ c ∷ d ∷ s) =
    let rest = decode s in
    if d == padding
    then (if c == padding
        then one_byte (sextet a) (sextet b)
        else two_bytes (sextet a) (sextet b) (sextet c))
    else three_bytes (sextet a) (sextet b) (sextet c) (sextet d) rest
decode _ = err (codes "illegal base64 data")

sextet-sextet_char : (n : ℕ) → n < 64 → sextet (sextet_char n) ≡ ok n
unfolding sextet sextet_char
sextet-sextet_char n h = ground arith

sextet_char-padding : (n : ℕ) → (sextet_char n == padding) ≡ false
unfolding sextet_char
sextet_char-padding n = ground arith

first_byte_lem : (a b : ℕ) → b < 256 → a / 4 * 4 + (a % 4 * 16 + b / 16) / 16 ≡ a
first_byte_lem a b h = omega arith

second_byte_lem :
    (a b c : ℕ)
    → b < 256
    → c < 256
    → (a % 4 * 16 + b / 16) % 16 * 16 + (b % 16 * 4 + c / 64) / 4 ≡ b
second_byte_lem a b c h k = omega arith

second_byte_end : (a b : ℕ) → b < 256 → (a % 4 * 16 + b / 16) % 16 * 16 + b % 16 * 4 / 4 ≡ b
second_byte_end a b h = omega arith

third_byte_lem : (b c : ℕ) → c < 256 → (b % 16 * 4 + c / 64) % 4 * 64 + c % 64 ≡ c
third_byte_lem b c h = omega arith

abbrev IsBytes : List ℕ → Type 0
IsBytes = All (λ b. b < 256)

abbrev pub OfBytes : Result (List ℕ) → Type 0
OfBytes (ok bytes) = IsBytes bytes
OfBytes (err e) = Unit

decode-encode_to_string :
    (bytes : List ℕ) → IsBytes bytes → decode (encode_to_string bytes) ≡ ok bytes
unfolding decode encode_to_string
decode-encode_to_string [] h = refl
decode-encode_to_string (a ∷ []) (p, h) =
    rw (sextet-sextet_char (a / 4) (omega arith), sextet-sextet_char (a % 4 * 16) (omega arith))
      (ap (λ x. ok (x ∷ [])) (omega arith))
decode-encode_to_string (a ∷ b ∷ []) (p, (q, h)) =
    rw
      (
        sextet-sextet_char (a / 4) (omega arith),
        sextet-sextet_char (a % 4 * 16 + b / 16) (omega arith),
        sextet-sextet_char (b % 16 * 4) (omega arith),
        sextet_char-padding (b % 16 * 4),
        first_byte_lem a b q,
        second_byte_end a b q,
      )
      refl
decode-encode_to_string (a ∷ b ∷ c ∷ bytes) (p, (q, (r, h))) =
    rw
      (
        sextet-sextet_char (a / 4) (omega arith),
        sextet-sextet_char (a % 4 * 16 + b / 16) (omega arith),
        sextet-sextet_char (b % 16 * 4 + c / 64) (omega arith),
        sextet-sextet_char (c % 64) (omega arith),
        sextet_char-padding (c % 64),
        first_byte_lem a b q,
        second_byte_lem a b c q r,
        third_byte_lem b c r,
        decode-encode_to_string bytes h,
      )
      refl

encoded : Result (List ℕ) → Result Text
encoded png = do bytes ← png; ok (encode_to_string bytes)

decode-encoded : (png : Result (List ℕ)) → OfBytes png → (encoded png >>= decode) ≡ png
unfolding encoded
decode-encoded (ok bytes) h = decode-encode_to_string bytes h
decode-encoded (err e) h = refl

generate_as_encoded :
    (encode : Text → RecoveryLevel → ℕ → Result (List ℕ)) (qr_string : Text)
    → generate_qr_code_base64 encode qr_string ≡ encoded (encode qr_string medium 256)
unfolding generate_qr_code_base64 encoded
generate_as_encoded encode qr_string = ground arith

-- Where the encoder of QR codes returns bytes below 256, or an error, decoding the text that
-- `generateQRCodeBase64` returns gives these bytes again, or the same error.
pub generate_qr_code_base64_lem :
    (encode : Text → RecoveryLevel → ℕ → Result (List ℕ)) (qr_string : Text)
    → OfBytes (encode qr_string medium 256)
    → (generate_qr_code_base64 encode qr_string >>= decode) ≡ encode qr_string medium 256
generate_qr_code_base64_lem encode qr_string h =
    rw (generate_as_encoded encode qr_string) (decode-encoded (encode qr_string medium 256) h)
