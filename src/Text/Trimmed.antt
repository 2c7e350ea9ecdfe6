-- ===== src/Text/Trimmed.antt =====
-- White space is trimmed once.
use Prim.Native.Char.{Char}
use pass_ctrl.Prelude.{String, ◌≡◌, refl, ◌∙◌, ap, false, Bool-cases, inl, inr}
use pass_ctrl.Text.{is_space, trim_left, attach, trim_right, trim_space}

trim_right-attach :
    (c : Char) (s : String) → trim_right s ≡ s → trim_right (attach c s) ≡ attach c s
unfolding attach trim_right
trim_right-attach c String.[] h = elim (Bool-cases (is_space c)) [
  | inl e ↦ rw e refl
  | inr e ↦ rw e (rw e refl)
]
trim_right-attach c (String.◌∷◌ d s) h = ap (attach c) h

trim_right_idem : (s : String) → trim_right (trim_right s) ≡ trim_right s
unfolding trim_right
trim_right_idem String.[] = refl
trim_right_idem (String.◌∷◌ c s) = trim_right-attach c (trim_right s) (trim_right_idem s)

trim_left-attach :
    (c : Char) (s : String) → is_space c ≡ false → trim_left (attach c s) ≡ attach c s
unfolding attach trim_left
trim_left-attach c String.[] h = rw h (rw h refl)
trim_left-attach c (String.◌∷◌ d s) h = rw h refl

trim_left-trim_space : (s : String) → trim_left (trim_space s) ≡ trim_space s
unfolding trim_space trim_left trim_right
trim_left-trim_space String.[] = refl
trim_left-trim_space (String.◌∷◌ c s) = elim (Bool-cases (is_space c)) [
  | inl e ↦ rw e (trim_left-trim_space s)
  | inr e ↦ rw e (trim_left-attach c (trim_right s) e)
]

pub trim_space_idem : (s : String) → trim_space (trim_space s) ≡ trim_space s
unfolding trim_space
trim_space_idem s = ap trim_right (trim_left-trim_space s) ∙ trim_right_idem (trim_left s)
