-- ===== src/Http.antt =====
-- net/http's Header and net/url's Values, as far as the program uses them: a name has a list of
-- values, and the names of a header are kept in their canonical spelling.
use Prim.Native.Char.{Char, code}
use pass_ctrl.Prelude.{
  ℕ, String, Bool, true, ◌&&◌, ◌||◌, Option, none, some, List, [], ◌∷◌, if◌then◌else◌, leb, nat_eq,
}
use pass_ctrl.Text.{lower_char, upper_char}
use pass_ctrl.Assoc.{Assoc, get, put, remove}

abbrev pub Header : Type 0
Header = Assoc (List String)

within_bytes : ℕ → ℕ → ℕ → Bool
within_bytes low high n = leb low n && leb n high

-- The characters of a token of RFC 7230.
is_token : Char → Bool
unfolding within_bytes
is_token c =
    let n = code c in
    within_bytes b'a' b'z' n
    || within_bytes b'A' b'Z' n
    || within_bytes b'0' b'9' n
    || nat_eq n b'!'
    || within_bytes b'#' b'\'' n
    || nat_eq n b'*'
    || nat_eq n b'+'
    || nat_eq n b'-'
    || nat_eq n b'.'
    || within_bytes b'^' b'`' n
    || nat_eq n b'|'
    || nat_eq n b'~'

all_tokens : String → Bool
unfolding is_token
all_tokens String.[] = true
all_tokens (String.◌∷◌ c s) = is_token c && all_tokens s

-- A word's first letter in upper case, the others in lower case; a word ends at a hyphen.
capitalize : Bool → String → String
capitalize first String.[] = ""
capitalize first (String.◌∷◌ c s) =
    String.◌∷◌ (if first then upper_char c else lower_char c) (capitalize (nat_eq (code c) b'-') s)

-- textproto.CanonicalMIMEHeaderKey: a name that is not a token is left alone
unfoldable pub canonical_key : String → String
unfolding all_tokens capitalize lower_char upper_char
canonical_key name = if all_tokens name then capitalize true name else name

abbrev pub first_value : Option (List String) → String
first_value none = ""
first_value (some []) = ""
first_value (some (value ∷ values)) = value

-- Header.Get
unfoldable pub header_get : String → Header → String
header_get name headers = first_value (get (canonical_key name) headers)

-- Header.Set
unfoldable pub header_set : String → String → Header → Header
header_set name value headers = put (canonical_key name) (value ∷ []) headers

-- Header.Del
unfoldable pub header_del : String → Header → Header
header_del name headers = remove (canonical_key name) headers

-- Values.Get
unfoldable pub query_get : String → Assoc (List String) → String
query_get name query = first_value (get name query)
