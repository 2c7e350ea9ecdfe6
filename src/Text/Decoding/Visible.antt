-- ===== src/Text/Decoding/Visible.antt =====
-- A base64 text has no white space to trim.
use Prim.Native.Char.{Char}
use pass_ctrl.Prelude.{
  ℕ, ◌+◌, ◌*◌, ◌/◌, ◌%◌, ◌<◌, String, false, List, [], ◌∷◌, ◌≡◌, refl, ◌∙◌, ap, arith, All,
}
use pass_ctrl.Text.{is_space, trim_left, trim_right, attach, trim_space}
use pass_ctrl.Text.Utf8.{bytes, digit, encode, base64}
use pass_ctrl.Text.Decoding.Base64.{IsByte, bytes-IsByte, alphabet-visible}

-- No character is white space.
abbrev pub IsVisible : String → Type 0
IsVisible String.[] = Unit
IsVisible (String.◌∷◌ c s) = (is_space c ≡ false) × IsVisible s

attach-visible : (c : Char) (s : String) → is_space c ≡ false → attach c s ≡ String.◌∷◌ c s
unfolding attach
attach-visible c String.[] h = rw h refl
attach-visible c (String.◌∷◌ d s) h = refl

trim_left-IsVisible : (s : String) → IsVisible s → trim_left s ≡ s
unfolding trim_left
trim_left-IsVisible String.[] h = refl
trim_left-IsVisible (String.◌∷◌ c s) h = rw h.0 refl

padding_one : IsVisible "="
unfolding is_space
padding_one = (refl, tt)

padding_two : IsVisible "=="
unfolding is_space
padding_two = (refl, (refl, tt))

trim_right-IsVisible : (s : String) → IsVisible s → trim_right s ≡ s
unfolding trim_right
trim_right-IsVisible String.[] h = refl
trim_right-IsVisible (String.◌∷◌ c s) h =
    ap (attach c) (trim_right-IsVisible s h.1) ∙ attach-visible c s h.0

pub trim_space-IsVisible : (s : String) → IsVisible s → trim_space s ≡ s
unfolding trim_space
trim_space-IsVisible s h = rw (trim_left-IsVisible s h) (trim_right-IsVisible s h)

digit-IsVisible : (n : ℕ) (s : String) → n < 64 → IsVisible s → IsVisible (digit n s)
unfolding digit
digit-IsVisible n s h v = (alphabet-visible n h, v)

encode-IsVisible : (bs : List ℕ) → All IsByte bs → IsVisible (encode bs)
unfolding encode
encode-IsVisible [] h = tt
encode-IsVisible (a ∷ []) h =
    let ha : a < 256 = h.0 in
    digit-IsVisible (a / 4) _ (omega arith)
      (digit-IsVisible (a % 4 * 16) _ (omega arith) padding_two)
encode-IsVisible (a ∷ b ∷ []) h =
    let ha : a < 256 = h.0 in
    let hb : b < 256 = h.1.0 in
    digit-IsVisible (a / 4) _ (omega arith) (
      digit-IsVisible (a % 4 * 16 + b / 16) _ (omega arith)
        (digit-IsVisible (b % 16 * 4) _ (omega arith) padding_one))
encode-IsVisible (a ∷ b ∷ c ∷ rest) h =
    let ha : a < 256 = h.0 in
    let hb : b < 256 = h.1.0 in
    let hc : c < 256 = h.1.1.0 in
    digit-IsVisible (a / 4) _ (omega arith) (
      digit-IsVisible (a % 4 * 16 + b / 16) _ (omega arith) (
        digit-IsVisible (b % 16 * 4 + c / 64) _ (omega arith)
          (digit-IsVisible (c % 64) _ (omega arith) (encode-IsVisible rest h.1.1.1))))

pub base64-IsVisible : (s : String) → IsVisible (base64 s)
unfolding base64
base64-IsVisible s = encode-IsVisible (bytes s) (bytes-IsByte s)
