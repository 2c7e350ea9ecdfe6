-- ===== src/Text/Decoding/CodePoints.antt =====
-- The code points of a text's bytes are the text.
use Prim.Native.Char.{Char, char, code}
use Prim.Native.Nat.{compare, Ordering}
use pass_ctrl.Prelude.{
  ℕ, ◌+◌, ◌-◌, ◌*◌, ◌/◌, ◌%◌, ◌<◌, ◌≤◌, String, Bool, true, ◌&&◌, none, some, List, [], ◌∷◌, ◌++◌,
  ◌⊎◌, ltb→lt, lt→ltb, ltb, leb, ◌≡◌, refl, ◌∙◌, ap, inl, inr, Bool-cases, arith,
}
use pass_ctrl.Text.Utf8.{utf8, bytes}
use pass_ctrl.Text.Decoding.{
  HasScalar, Both, scalar_case, beyond, character, continues, at_least, one_byte, two_bytes,
  three_bytes, four_bytes, first_of, front, runes_after, runes,
}

module _ {T : Type 0} where
  beyond-some : (o p : Ordering) (f : Both o p → T) (h : Both o p) → beyond o p f ≡ some (f h)
  beyond-some Ordering.lt Ordering.lt f h = refl
  beyond-some Ordering.lt Ordering.eq f h = elim h [ ]
  beyond-some Ordering.lt Ordering.gt f h = elim h [ ]
  beyond-some Ordering.eq p f h = elim h [ ]
  beyond-some Ordering.gt p f h = elim h [ ]

  scalar_case-some :
      (o p q : Ordering) (f : HasScalar o p q → T) (h : HasScalar o p q)
      → scalar_case o p q f ≡ some (f h)
  scalar_case-some Ordering.lt p q f h = refl
  scalar_case-some Ordering.eq p q f h = beyond-some p q f h
  scalar_case-some Ordering.gt p q f h = beyond-some p q f h

character-code : (c : Char) → character (code c) ≡ some c
unfolding character
character-code (char n h) =
    scalar_case-some (compare n 55296) (compare 57343 n) (compare n 1114112) (λ p. char n p) h

Both-right : (p q : Ordering) → Both p q → q ≡ Ordering.lt
Both-right Ordering.lt Ordering.lt h = refl
Both-right Ordering.lt Ordering.eq h = elim h [ ]
Both-right Ordering.lt Ordering.gt h = elim h [ ]
Both-right Ordering.eq q h = elim h [ ]
Both-right Ordering.gt q h = elim h [ ]

HasScalar-bound : (o p q : Ordering) → HasScalar o p q → (o ≡ Ordering.lt) ⊎ (q ≡ Ordering.lt)
HasScalar-bound Ordering.lt p q h = inl refl
HasScalar-bound Ordering.eq p q h = inr (Both-right p q h)
HasScalar-bound Ordering.gt p q h = inr (Both-right p q h)

pub code_bound : (c : Char) → code c < 0x110000
code_bound (char n h) =
    elim (HasScalar-bound (compare n 55296) (compare 57343 n) (compare n 1114112) h) [
      | inl e ↦ let below : n < 55296 = ltb→lt n 55296 (rw (ltb, e) refl) in omega arith
      | inr e ↦ ltb→lt n 1114112 (rw (ltb, e) refl)
    ]

le→leb : (a b : ℕ) → a ≤ b → leb a b ≡ true
le→leb a b h = ground arith

at_least-some :
    (c : Char) (well_formed : Bool) (least n : ℕ)
    → well_formed ≡ true
    → least ≤ n
    → n ≡ code c
    → at_least well_formed least n ≡ some c
unfolding at_least
at_least-some c well_formed least n w l e = rw (w, le→leb least n l, e) (character-code c)

front_one : (a : ℕ) (c : Char) (rest : List ℕ) → one_byte a ≡ some c → front a rest ≡ (c, 0)
unfolding front first_of
front_one a c [] h = rw h refl
front_one a c (x ∷ []) h = rw h refl
front_one a c (x ∷ y ∷ []) h = rw h refl
front_one a c (x ∷ y ∷ z ∷ rest) h = rw h refl

front_two :
    (a b : ℕ) (c : Char) (rest : List ℕ)
    → one_byte a ≡ none
    → two_bytes a b ≡ some c
    → front a (b ∷ rest) ≡ (c, 1)
unfolding front first_of
front_two a b c [] n h = rw (n, h) refl
front_two a b c (y ∷ []) n h = rw (n, h) refl
front_two a b c (y ∷ z ∷ rest) n h = rw (n, h) refl

front_three :
    (a b d : ℕ) (c : Char) (rest : List ℕ)
    → one_byte a ≡ none
    → two_bytes a b ≡ none
    → three_bytes a b d ≡ some c
    → front a (b ∷ d ∷ rest) ≡ (c, 2)
unfolding front first_of
front_three a b d c [] n₁ n₂ h = rw (n₁, n₂, h) refl
front_three a b d c (z ∷ rest) n₁ n₂ h = rw (n₁, n₂, h) refl

front_four :
    (a b d e : ℕ) (c : Char) (rest : List ℕ)
    → one_byte a ≡ none
    → two_bytes a b ≡ none
    → three_bytes a b d ≡ none
    → four_bytes a b d e ≡ some c
    → front a (b ∷ d ∷ e ∷ rest) ≡ (c, 3)
unfolding front first_of
front_four a b d e c rest n₁ n₂ n₃ h = rw (n₁, n₂, n₃, h) refl

module _ (c : Char) (rest : List ℕ) where
  after_one :
      (a : ℕ) → one_byte a ≡ some c → runes_after 0 (a ∷ rest) ≡ String.◌∷◌ c (runes_after 0 rest)
  unfolding runes_after
  after_one a h = rw (front_one a c rest h) refl

  after_two :
      (a b : ℕ)
      → one_byte a ≡ none
      → two_bytes a b ≡ some c
      → runes_after 0 (a ∷ b ∷ rest) ≡ String.◌∷◌ c (runes_after 0 rest)
  unfolding runes_after
  after_two a b n h = rw (front_two a b c rest n h) refl

  after_three :
      (a b d : ℕ)
      → one_byte a ≡ none
      → two_bytes a b ≡ none
      → three_bytes a b d ≡ some c
      → runes_after 0 (a ∷ b ∷ d ∷ rest) ≡ String.◌∷◌ c (runes_after 0 rest)
  unfolding runes_after
  after_three a b d n₁ n₂ h = rw (front_three a b d c rest n₁ n₂ h) refl

  after_four :
      (a b d e : ℕ)
      → one_byte a ≡ none
      → two_bytes a b ≡ none
      → three_bytes a b d ≡ none
      → four_bytes a b d e ≡ some c
      → runes_after 0 (a ∷ b ∷ d ∷ e ∷ rest) ≡ String.◌∷◌ c (runes_after 0 rest)
  unfolding runes_after
  after_four a b d e n₁ n₂ n₃ h = rw (front_four a b d e c rest n₁ n₂ n₃ h) refl

one_byte-none : (a : ℕ) → 0x80 ≤ a → one_byte a ≡ none
unfolding one_byte
one_byte-none a h = ground arith

two_bytes-none : (a b : ℕ) → 0xdf < a → two_bytes a b ≡ none
unfolding two_bytes at_least
two_bytes-none a b h = ground arith

three_bytes-none : (a b d : ℕ) → 0xef < a → three_bytes a b d ≡ none
unfolding three_bytes at_least
three_bytes-none a b d h = ground arith

continues-rest : (n : ℕ) → continues (0x80 + n % 64) ≡ true
unfolding continues
continues-rest n = let h : n % 64 < 64 = omega arith in ground arith

two_bytes-code :
    (c : Char) (n : ℕ)
    → n ≡ code c
    → 0x80 ≤ n
    → n < 0x800
    → two_bytes (0xc0 + n / 64) (0x80 + n % 64) ≡ some c
unfolding two_bytes
two_bytes-code c n e h k =
    let b : n / 64 < 32 = omega arith in
    let whole : (0xc0 + n / 64 - 0xc0) * 64 + (0x80 + n % 64 - 0x80) ≡ n = omega arith in
    at_least-some c
      (leb 0xc0 (0xc0 + n / 64) && leb (0xc0 + n / 64) 0xdf && continues (0x80 + n % 64)) 0x80
      ((0xc0 + n / 64 - 0xc0) * 64 + (0x80 + n % 64 - 0x80)) (rw (continues-rest n) (ground arith))
      (rw whole h) (whole ∙ e)

three_bytes-code :
    (c : Char) (n : ℕ)
    → n ≡ code c
    → 0x800 ≤ n
    → n < 0x10000
    → three_bytes (0xe0 + n / 4096) (0x80 + n / 64 % 64) (0x80 + n % 64) ≡ some c
unfolding three_bytes
three_bytes-code c n e h k =
    let b : n / 4096 < 16 = omega arith in
    let whole : (0xe0 + n / 4096 - 0xe0) * 4096
          + (0x80 + n / 64 % 64 - 0x80) * 64
          + (0x80 + n % 64 - 0x80)
        ≡ n =
      omega arith in
    at_least-some c
      (leb 0xe0 (0xe0 + n / 4096)
        && leb (0xe0 + n / 4096) 0xef
        && continues (0x80 + n / 64 % 64)
        && continues (0x80 + n % 64))
      0x800
      ((0xe0 + n / 4096 - 0xe0) * 4096 + (0x80 + n / 64 % 64 - 0x80) * 64 + (0x80 + n % 64 - 0x80))
      (rw (continues-rest n, continues-rest (n / 64)) (ground arith)) (rw whole h) (whole ∙ e)

four_bytes-code :
    (c : Char) (n : ℕ)
    → n ≡ code c
    → 0x10000 ≤ n
    → n < 0x110000
    → four_bytes (0xf0 + n / 262144) (0x80 + n / 4096 % 64) (0x80 + n / 64 % 64) (0x80 + n % 64)
      ≡ some c
unfolding four_bytes
four_bytes-code c n e h k =
    let b : n / 262144 < 8 = omega arith in
    let whole : (0xf0 + n / 262144 - 0xf0) * 262144
          + (0x80 + n / 4096 % 64 - 0x80) * 4096
          + (0x80 + n / 64 % 64 - 0x80) * 64
          + (0x80 + n % 64 - 0x80)
        ≡ n =
      omega arith in
    at_least-some c
      (leb 0xf0 (0xf0 + n / 262144)
        && leb (0xf0 + n / 262144) 0xf7
        && continues (0x80 + n / 4096 % 64)
        && continues (0x80 + n / 64 % 64)
        && continues (0x80 + n % 64))
      0x10000
      ((0xf0 + n / 262144 - 0xf0) * 262144
        + (0x80 + n / 4096 % 64 - 0x80) * 4096
        + (0x80 + n / 64 % 64 - 0x80) * 64
        + (0x80 + n % 64 - 0x80))
      (rw (continues-rest n, continues-rest (n / 64), continues-rest (n / 4096)) (ground arith))
      (rw whole h) (whole ∙ e)

one_byte-code : (c : Char) → code c < 0x80 → one_byte (code c) ≡ some c
unfolding one_byte
one_byte-code c h = rw (lt→ltb (code c) 0x80 h) (character-code c)

-- The bytes of a character, and what follows them.
runes_after-utf8 :
    (c : Char) (rest : List ℕ)
    → runes_after 0 (utf8 (code c) ++ rest) ≡ String.◌∷◌ c (runes_after 0 rest)
unfolding utf8
runes_after-utf8 c rest =
    let n = code c in
    let bound = code_bound c in
    elim (Bool-cases (ltb n 0x80)) [
      | inl e ↦ rw e (after_one c rest n (one_byte-code c (ltb→lt n 0x80 e)))
      | inr e ↦ elim (Bool-cases (ltb n 0x800)) [
        | inl f ↦
            rw (e, f)
              (after_two c rest (0xc0 + n / 64) (0x80 + n % 64) (one_byte-none _ (omega arith))
                (two_bytes-code c n refl (ground arith) (ground arith)))
        | inr f ↦ elim (Bool-cases (ltb n 0x10000)) [
          | inl g ↦
              rw (e, f, g)
                (after_three c rest (0xe0 + n / 4096) (0x80 + n / 64 % 64) (0x80 + n % 64)
                  (one_byte-none _ (omega arith)) (two_bytes-none _ _ (omega arith))
                  (three_bytes-code c n refl (ground arith) (ground arith)))
          | inr g ↦
              rw (e, f, g)
                (after_four c rest (0xf0 + n / 262144) (0x80 + n / 4096 % 64) (0x80 + n / 64 % 64)
                  (0x80 + n % 64) (one_byte-none _ (omega arith)) (two_bytes-none _ _ (omega arith))
                  (three_bytes-none _ _ _ (omega arith))
                  (four_bytes-code c n refl (ground arith) bound))
        ]
      ]
    ]

-- Reading the bytes of a text gives the text.
pub runes-bytes : (s : String) → runes (bytes s) ≡ s
unfolding runes bytes
runes-bytes String.[] = refl
runes-bytes (String.◌∷◌ c s) =
    runes_after-utf8 c (bytes s) ∙ ap (λ t. String.◌∷◌ c t) (runes-bytes s)
