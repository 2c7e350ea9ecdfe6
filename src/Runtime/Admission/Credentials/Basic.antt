-- ===== src/Runtime/Admission/Credentials/Basic.antt =====
-- Basic credentials that are sent are read back.
use Prim.Native.Char.{char, code}
use Prim.Native.String.append
use pass_ctrl.Prelude.{ℕ, String, false, some, ◌≡◌, refl, nat_eq}
use pass_ctrl.Text.{◌+s◌, cut}
use pass_ctrl.Text.Utf8.{base64}
use pass_ctrl.Text.Decoding.Base64.{decode_base64-base64}
use pass_ctrl.Text.Decoding.CodePoints.{runes-bytes}
use pass_ctrl.Text.Decoding.Visible.{base64-IsVisible, trim_space-IsVisible}
use pass_ctrl.Runtime.Admission.Credentials.{decode_basic_credential, user_of, credential_of}

-- The separator does not occur in the text.
abbrev pub Lacks : ℕ → String → Type 0
Lacks sep String.[] = Unit
Lacks sep (String.◌∷◌ c s) = (nat_eq (code c) sep ≡ false) × Lacks sep s

cut-append :
    (s t : String) → Lacks b':' s → cut (s +s ":" +s t) b':' ≡ record { before = s; after = some t }
unfolding cut
cut-append String.[] t h =
    rw (append.nil (":" +s t), append.cons (char 58 tt) "" t, append.nil t) refl
cut-append (String.◌∷◌ c s) t h =
    rw (append.cons c s (":" +s t)) (rw (cut-append s t h.1) (rw h.0 refl))

-- decodeBasicCredential reads the base64 text of a user and a password, with a colon between them, back
-- as these two, where the user has no colon.
pub decode_basic_credential-base64 :
    (user password : String)
    → Lacks b':' user
    → decode_basic_credential (base64 (user +s ":" +s password)) ≡ some (user, password)
unfolding decode_basic_credential credential_of user_of
decode_basic_credential-base64 user password h =
    let text = user +s ":" +s password in
    rw
      (
        trim_space-IsVisible (base64 text) (base64-IsVisible text),
        decode_base64-base64 text,
        runes-bytes text,
        cut-append user password h,
      )
      refl
