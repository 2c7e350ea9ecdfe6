-- ===== src/Text/Decoding/Base64.antt =====
-- Decoding what base64 encodes.
use Prim.Native.Char.{Char, code}
use Prim.Native.String.{char_at}
use pass_ctrl.Prelude.{
  ℕ, zero, suc, ◌+◌, ◌*◌, ◌/◌, ◌%◌, ◌<◌, String, Bool, true, false, not, ◌&&◌, ◌||◌, some, List, [],
  ◌∷◌, ltb, leb, nat_eq, nat_eq_iff, ◌≡◌, refl, ◌∙◌, ap, inl, inr, Bool-cases, arith, All,
  All-append, is_empty, ltb→lt,
}
use pass_ctrl.Text.{is_space}
use pass_ctrl.Text.Utf8.{utf8, bytes, digit, encode, base64}
use pass_ctrl.Text.Decoding.CodePoints.{code_bound}
use pass_ctrl.Text.Decoding.{symbols, sextet, group, join_group, decode_groups, decode_base64}

abbrev pub alphabet : ℕ → Char
alphabet n = char_at "ABCDEFGHIJKLMNOPQRSTUVWXYZabcdefghijklmnopqrstuvwxyz0123456789+/" n

-- No line break, no white space, and the value is n.
abbrev is_symbol : ℕ → Bool
is_symbol n =
    nat_eq (sextet (code (alphabet n))) n
    && not (nat_eq (code (alphabet n)) 10 || nat_eq (code (alphabet n)) 13)
    && not (nat_eq (code (alphabet n)) b'=')
    && not (is_space (alphabet n))

below : ℕ → (ℕ → Bool) → Bool
below zero p = true
below (suc n) p = p n && below n p

below-lt : (n : ℕ) (p : ℕ → Bool) (i : ℕ) → below n p ≡ true → i < n → p i ≡ true
unfolding below
below-lt zero p i h l = let no_such : ⊥ = omega arith in elim no_such [ ]
below-lt (suc n) p i h l = elim (Bool-cases (nat_eq i n)) [
  | inl e ↦ rw ((nat_eq_iff i n).0 e) (ground arith)
  | inr e ↦ below-lt n p i (ground arith) (ground arith)
]

all_symbols : below 64 is_symbol ≡ true
unfolding below sextet is_space
all_symbols = refl

alphabet-is_symbol : (n : ℕ) → n < 64 → is_symbol n ≡ true
alphabet-is_symbol n h = below-lt 64 is_symbol n all_symbols h

module _ (n : ℕ) (h : n < 64) where
  sextet-alphabet : sextet (code (alphabet n)) ≡ n
  sextet-alphabet =
      let k = alphabet-is_symbol n h in (nat_eq_iff (sextet (code (alphabet n))) n).0 (ground arith)

  alphabet-kept : (nat_eq (code (alphabet n)) 10 || nat_eq (code (alphabet n)) 13) ≡ false
  alphabet-kept = let k = alphabet-is_symbol n h in ground arith

  alphabet-unpadded : nat_eq (code (alphabet n)) b'=' ≡ false
  alphabet-unpadded = let k = alphabet-is_symbol n h in ground arith

  pub alphabet-visible : is_space (alphabet n) ≡ false
  alphabet-visible = let k = alphabet-is_symbol n h in ground arith

  symbols-digit : (s : String) → symbols (digit n s) ≡ code (alphabet n) ∷ symbols s
  unfolding symbols digit
  symbols-digit s = rw alphabet-kept refl

sextet_bound : (a p : ℕ) → sextet a ≡ p → p < 64 → leb 64 (sextet a) ≡ false
sextet_bound a p e h = rw e (ground arith)

group-full :
    (a b c d : ℕ)
    → sextet a < 64
    → sextet b < 64
    → sextet c < 64
    → sextet d < 64
    → nat_eq c b'=' ≡ false
    → nat_eq d b'=' ≡ false
    → group a b c d
      ≡ some (
        (sextet a * 4 + sextet b / 16)
            ∷ (sextet b % 16 * 16 + sextet c / 4)
            ∷ (sextet c % 4 * 64 + sextet d)
            ∷ [],
        false,
      )
unfolding group
group-full a b c d ha hb hc hd nc nd = ground arith

group-one :
    (a b c : ℕ)
    → sextet a < 64
    → sextet b < 64
    → sextet c < 64
    → nat_eq c b'=' ≡ false
    → group a b c b'='
      ≡ some ((sextet a * 4 + sextet b / 16) ∷ (sextet b % 16 * 16 + sextet c / 4) ∷ [], true)
unfolding group
group-one a b c ha hb hc nc = ground arith

group-two :
    (a b : ℕ)
    → sextet a < 64
    → sextet b < 64
    → group a b b'=' b'=' ≡ some ((sextet a * 4 + sextet b / 16) ∷ [], true)
unfolding group
group-two a b ha hb = ground arith

step_full :
    (p q r s : ℕ) (rest : String)
    → p < 64
    → q < 64
    → r < 64
    → s < 64
    → decode_groups (symbols (digit p (digit q (digit r (digit s rest)))))
      ≡ join_group
          (some ((p * 4 + q / 16) ∷ (q % 16 * 16 + r / 4) ∷ (r % 4 * 64 + s) ∷ [], false))
          (is_empty (symbols rest))
          (decode_groups (symbols rest))
unfolding decode_groups
step_full p q r s rest hp hq hr hs =
    let full =
      group-full (code (alphabet p)) (code (alphabet q)) (code (alphabet r)) (code (alphabet s))
        (rw (sextet-alphabet p hp) hp) (rw (sextet-alphabet q hq) hq) (rw (sextet-alphabet r hr) hr)
        (rw (sextet-alphabet s hs) hs) (alphabet-unpadded r hr) (alphabet-unpadded s hs) in
    rw (symbols-digit p hp _, symbols-digit q hq _, symbols-digit r hr _, symbols-digit s hs _)
      (rw full (
        rw (sextet-alphabet p hp, sextet-alphabet q hq, sextet-alphabet r hr, sextet-alphabet s hs)
          refl))

step_one :
    (p q r : ℕ)
    → p < 64
    → q < 64
    → r < 64
    → decode_groups (symbols (digit p (digit q (digit r "="))))
      ≡ some ((p * 4 + q / 16) ∷ (q % 16 * 16 + r / 4) ∷ [])
unfolding decode_groups symbols join_group
step_one p q r hp hq hr =
    let part =
      group-one (code (alphabet p)) (code (alphabet q)) (code (alphabet r))
        (rw (sextet-alphabet p hp) hp) (rw (sextet-alphabet q hq) hq) (rw (sextet-alphabet r hr) hr)
        (alphabet-unpadded r hr) in
    rw (symbols-digit p hp _, symbols-digit q hq _, symbols-digit r hr _)
      (rw part (rw (sextet-alphabet p hp, sextet-alphabet q hq, sextet-alphabet r hr) refl))

step_two :
    (p q : ℕ)
    → p < 64
    → q < 64
    → decode_groups (symbols (digit p (digit q "=="))) ≡ some ((p * 4 + q / 16) ∷ [])
unfolding decode_groups symbols join_group
step_two p q hp hq =
    let part =
      group-two (code (alphabet p)) (code (alphabet q)) (rw (sextet-alphabet p hp) hp)
        (rw (sextet-alphabet q hq) hq) in
    rw (symbols-digit p hp _, symbols-digit q hq _)
      (rw part (rw (sextet-alphabet p hp, sextet-alphabet q hq) refl))

abbrev pub IsByte : ℕ → Type 0
IsByte n = n < 256

decode_groups-nothing : decode_groups (symbols "") ≡ some []
unfolding decode_groups symbols
decode_groups-nothing = refl

joined :
    (a b c : ℕ) (xs : List ℕ) (last : Bool)
    → join_group (some (a ∷ b ∷ c ∷ [], false)) last (some xs) ≡ some (a ∷ b ∷ c ∷ xs)
unfolding join_group
joined a b c xs last = refl

decode_groups-encode : (bs : List ℕ) → All IsByte bs → decode_groups (symbols (encode bs)) ≡ some bs
unfolding encode
decode_groups-encode [] h = decode_groups-nothing
decode_groups-encode (a ∷ []) h =
    let ha : a < 256 = h.0 in
    let same : a / 4 * 4 + a % 4 * 16 / 16 ≡ a = omega arith in
    step_two (a / 4) (a % 4 * 16) (omega arith) (omega arith) ∙ ap (λ x. some (x ∷ [])) same
decode_groups-encode (a ∷ b ∷ []) h =
    let ha : a < 256 = h.0 in
    let hb : b < 256 = h.1.0 in
    let first : a / 4 * 4 + (a % 4 * 16 + b / 16) / 16 ≡ a = omega arith in
    let second : (a % 4 * 16 + b / 16) % 16 * 16 + b % 16 * 4 / 4 ≡ b = omega arith in
    step_one (a / 4) (a % 4 * 16 + b / 16) (b % 16 * 4) (omega arith) (omega arith) (omega arith)
    ∙ rw (first, second) refl
decode_groups-encode (a ∷ b ∷ c ∷ rest) h =
    let ha : a < 256 = h.0 in
    let hb : b < 256 = h.1.0 in
    let hc : c < 256 = h.1.1.0 in
    let first : a / 4 * 4 + (a % 4 * 16 + b / 16) / 16 ≡ a = omega arith in
    let second : (a % 4 * 16 + b / 16) % 16 * 16 + (b % 16 * 4 + c / 64) / 4 ≡ b = omega arith in
    let third : (b % 16 * 4 + c / 64) % 4 * 64 + c % 64 ≡ c = omega arith in
    step_full (a / 4) (a % 4 * 16 + b / 16) (b % 16 * 4 + c / 64) (c % 64) (encode rest)
      (omega arith) (omega arith) (omega arith) (omega arith)
    ∙ rw (first, second, third, decode_groups-encode rest h.1.1.1)
        (joined a b c rest (is_empty (symbols (encode rest))))

utf8-IsByte : (n : ℕ) → n < 0x110000 → All IsByte (utf8 n)
unfolding utf8
utf8-IsByte n h = elim (Bool-cases (ltb n 0x80)) [
  | inl e ↦ rw e (ground arith, tt)
  | inr e ↦ elim (Bool-cases (ltb n 0x800)) [
    | inl f ↦ let small : n < 0x800 = ltb→lt n 0x800 f in rw (e, f) (omega arith, (omega arith, tt))
    | inr f ↦ elim (Bool-cases (ltb n 0x10000)) [
      | inl g ↦
          let small : n < 0x10000 = ltb→lt n 0x10000 g in
          rw (e, f, g) (omega arith, (omega arith, (omega arith, tt)))
      | inr g ↦ rw (e, f, g) (omega arith, (omega arith, (omega arith, (omega arith, tt))))
    ]
  ]
]

pub bytes-IsByte : (s : String) → All IsByte (bytes s)
unfolding bytes
bytes-IsByte String.[] = tt
bytes-IsByte (String.◌∷◌ c s) =
    All-append IsByte (utf8 (code c)) (bytes s) (utf8-IsByte (code c) (code_bound c))
      (bytes-IsByte s)

-- Decoding the base64 text of a string gives its bytes.
pub decode_base64-base64 : (s : String) → decode_base64 (base64 s) ≡ some (bytes s)
unfolding decode_base64 base64
decode_base64-base64 s = decode_groups-encode (bytes s) (bytes-IsByte s)
