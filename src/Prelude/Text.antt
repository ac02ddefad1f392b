-- ===== src/Prelude/Text.antt =====
-- Texts by their code points: length, prefix, search and Python's `strip`, for ASCII texts.
use Prim.Native.Nat.{ℕ, ◌+◌, zero, suc}
use Prim.Native.String.{String}
use Prim.Native.Char.{code}
use mathlib.Core.Bool.{Bool, true, false, ◌&&◌, ◌||◌}
use mathlib.Core.List.{List, [], ◌∷◌}
use text.Mathlib.Text.{◌==◌ as str_eq}
use mathlib.Core.Option.{Option, none, some}
use mathlib.Core.Path.{◌≡◌, refl}
use payroll_management_syste.Prelude.Tests.{leb, ◌==◌, ==_iff, if◌then◌else◌}
use payroll_management_syste.Prelude.Lists.{length, all}

abbrev pub codes : String → List ℕ
codes String.[] = []
codes (String.◌∷◌ c s) = code c ∷ codes s

-- `len(text)`
abbrev pub text_length : String → ℕ
text_length text = length (codes text)

-- The characters that `str.isspace` takes for space.
abbrev pub is_space : ℕ → Bool
is_space c = c == 32 || (leb 9 c && leb c 13) || (leb 28 c && leb c 31)

-- `not text.strip()`
abbrev pub is_blank : String → Bool
is_blank text = all is_space (codes text)

abbrev pub is_upper_letter : ℕ → Bool
is_upper_letter c = leb b'A' c && leb c b'Z'

abbrev pub is_lower_letter : ℕ → Bool
is_lower_letter c = leb b'a' c && leb c b'z'

abbrev pub is_digit : ℕ → Bool
is_digit c = leb b'0' c && leb c b'9'

-- `bytes.startswith`
abbrev pub starts_with : List ℕ → List ℕ → Bool
starts_with [] text = true
starts_with (p ∷ ps) [] = false
starts_with (p ∷ ps) (c ∷ cs) = p == c && starts_with ps cs

-- `part in text`, on bytes.
abbrev pub contains : List ℕ → List ℕ → Bool
contains part [] = starts_with part []
contains part (c ∷ cs) = starts_with part (c ∷ cs) || contains part cs

-- `bytes.lower`
abbrev pub to_lower : ℕ → ℕ
to_lower c = if is_upper_letter c then c + 32 else c

-- `prefix + text`
abbrev pub prefixed : String → String → String
prefixed String.[] text = text
prefixed (String.◌∷◌ c s) text = String.◌∷◌ c (prefixed s text)

-- `text[len(prefix):]` if `text.startswith(prefix)`.
abbrev pub strip_prefix : String → String → Option String
strip_prefix String.[] text = some text
strip_prefix (String.◌∷◌ p ps) String.[] = none
strip_prefix (String.◌∷◌ p ps) (String.◌∷◌ c cs) =
    let rest = strip_prefix ps cs in if code p == code c then rest else none

pub strip_prefix-prefixed : (p text : String) → strip_prefix p (prefixed p text) ≡ some text
strip_prefix-prefixed String.[] text = refl
strip_prefix-prefixed (String.◌∷◌ p ps) text =
    rw ((==_iff (code p) (code p)).1 refl) (strip_prefix-prefixed ps text)

lstrip : String → String
lstrip String.[] = String.[]
lstrip (String.◌∷◌ c s) = let rest = lstrip s in if is_space (code c) then rest else String.◌∷◌ c s

rstrip : String → String
rstrip String.[] = String.[]
rstrip (String.◌∷◌ c s) =
    let rest = rstrip s in
    if is_space (code c) && str_eq rest "" then String.[] else String.◌∷◌ c rest

-- `text.strip()`
unfoldable pub strip : String → String
unfolding lstrip rstrip
strip text = rstrip (lstrip text)

-- `text[:n]`
abbrev pub text_take : ℕ → String → String
text_take zero text = String.[]
text_take (suc n) String.[] = String.[]
text_take (suc n) (String.◌∷◌ c s) = String.◌∷◌ c (text_take n s)

-- `text.split(mark, 1)[0]`, for a mark of one character.
abbrev pub text_before : ℕ → String → String
text_before mark String.[] = String.[]
text_before mark (String.◌∷◌ c s) =
    let rest = text_before mark s in if code c == mark then String.[] else String.◌∷◌ c rest
