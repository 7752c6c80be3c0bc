-- ===== src/Kernel/Glob.antt =====
-- Tests on texts: `str.endswith`, `in` on texts, `str.rstrip("*")`, `str.split(".")`, and the tool
-- patterns of `PermissionManager._matches` (src/platform/kernel/_facade.py).
pub mod Prefix
use Prim.Native.Char.{Char}
use Prim.Native.String.{◌++◌ as str_append}
use text.Mathlib.Text.{starts_with}
use helios_os.Prelude.{String, str_eq, Bool, true, false, ◌&&◌, ◌||◌, List, [], ◌∷◌, if◌then◌else◌}

-- The text of one character.
abbrev pub single : Char → String
single c = String.◌∷◌ c String.[]

-- `text.endswith(suffix)`
unfoldable pub ends_with : String → String → Bool
ends_with String.[] t = str_eq String.[] t
ends_with (String.◌∷◌ c s) t = str_eq (String.◌∷◌ c s) t || ends_with s t

-- `piece in text`
unfoldable pub substring : String → String → Bool
substring piece String.[] = starts_with String.[] piece
substring piece (String.◌∷◌ c s) = starts_with (String.◌∷◌ c s) piece || substring piece s

-- `text.rstrip("*")`
unfoldable pub rstrip_stars : String → String
rstrip_stars String.[] = String.[]
rstrip_stars (String.◌∷◌ c s) =
    let rest = rstrip_stars s in
    if str_eq rest "" && str_eq (single c) "*" then String.[] else String.◌∷◌ c rest

abbrev pub add_to_first : Char → List String → List String
add_to_first c [] = single c ∷ []
add_to_first c (s ∷ ss) = String.◌∷◌ c s ∷ ss

-- `text.split(".")`
unfoldable pub split_dots : String → List String
split_dots String.[] = "" ∷ []
split_dots (String.◌∷◌ c s) =
    let rest = split_dots s in if str_eq (single c) "." then "" ∷ rest else add_to_first c rest

-- `PermissionManager._matches`
unfoldable pub matches : String → String → Bool
matches tool_name pattern =
    if str_eq pattern tool_name
    then true
    else ends_with pattern "*" && starts_with tool_name (rstrip_stars pattern)
