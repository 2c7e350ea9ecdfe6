-- ===== src/Text/Utf8.antt =====
-- The bytes of a Go string, and encoding/base64.
use Prim.Native.Char.{code}
use Prim.Native.String.{char_at}
use pass_ctrl.Prelude.{
  ℕ, ◌+◌, ◌*◌, ◌/◌, ◌%◌, String, List, [], ◌∷◌, ◌++◌, if◌then◌else◌, ltb, ◌≡◌, refl,
}

-- The bytes of a code point in UTF-8.
unfoldable pub utf8 : ℕ → List ℕ
utf8 n =
    if ltb n 0x80
    then n ∷ []
    else if ltb n 0x800
    then (0xc0 + n / 64) ∷ (0x80 + n % 64) ∷ []
    else if ltb n 0x10000
    then (0xe0 + n / 4096) ∷ (0x80 + n / 64 % 64) ∷ (0x80 + n % 64) ∷ []
    else (0xf0 + n / 262144) ∷ (0x80 + n / 4096 % 64) ∷ (0x80 + n / 64 % 64) ∷ (0x80 + n % 64) ∷ []

unfoldable pub bytes : String → List ℕ
bytes String.[] = []
bytes (String.◌∷◌ c s) = utf8 (code c) ++ bytes s

unfoldable pub digit : ℕ → String → String
digit n rest =
    String.◌∷◌ (char_at "ABCDEFGHIJKLMNOPQRSTUVWXYZabcdefghijklmnopqrstuvwxyz0123456789+/" n) rest

unfoldable pub encode : List ℕ → String
encode [] = ""
encode (a ∷ []) = digit (a / 4) (digit (a % 4 * 16) "==")
encode (a ∷ b ∷ []) = digit (a / 4) (digit (a % 4 * 16 + b / 16) (digit (b % 16 * 4) "="))
encode (a ∷ b ∷ c ∷ rest) =
    digit (a / 4)
      (digit (a % 4 * 16 + b / 16) (digit (b % 16 * 4 + c / 64) (digit (c % 64) (encode rest))))

-- base64.StdEncoding.EncodeToString
unfoldable pub base64 : String → String
base64 s = encode (bytes s)

base64_tests :
    (base64 "user:pass" ≡ "dXNlcjpwYXNz")
    × (base64 "a:é" ≡ "YTrDqQ==")
    × (base64 "ab:c" ≡ "YWI6Yw==")
unfolding base64 bytes utf8 encode digit
base64_tests = (refl, refl, refl)
