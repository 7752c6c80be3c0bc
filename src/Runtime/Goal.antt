-- ===== src/Runtime/Goal.antt =====
-- The final text of a run with a goal: the search for a line `[GOAL_COMPLETE]`, the removal of the
-- marker and the `strip()` in `StepEngine._complete` (src/runtime/engine.py).
use Prim.Native.String.{◌++◌ as str_append}
use text.Mathlib.Text.{starts_with}
use helios_os.Prelude.{
  ℕ, zero, suc, String, str_eq, Bool, true, false, not, ◌&&◌, ◌||◌, Option, none, some,
  if◌then◌else◌,
}
use helios_os.Kernel.Glob.{single}
use helios_os.Kernel.Permission.{is_space}

abbrev pub goal_marker : String
goal_marker = "[GOAL_COMPLETE]"

unfoldable pub drop_chars : ℕ → String → String
drop_chars zero s = s
drop_chars (suc n) String.[] = String.[]
drop_chars (suc n) (String.◌∷◌ c s) = drop_chars n s

-- The line that starts here is the marker.
unfoldable pub is_marker_line : String → Bool
unfolding drop_chars
is_marker_line s =
    let rest = drop_chars 15 s in
    starts_with s goal_marker && (str_eq rest "" || starts_with rest "\n")

-- `re.search(r"^\[GOAL_COMPLETE\]$", text, re.MULTILINE)`; the first argument says that a line
-- starts here.
unfoldable pub has_marker : Bool → String → Bool
unfolding is_marker_line
has_marker at_line String.[] = false
has_marker at_line (String.◌∷◌ c s) =
    (at_line && is_marker_line (String.◌∷◌ c s)) || has_marker (str_eq (single c) "\n") s

-- The characters of a match of `\n?\[GOAL_COMPLETE\]\n?` here, beyond the first.
unfoldable pub match_here : String → Option ℕ
match_here s =
    if starts_with s (str_append "\n" (str_append goal_marker "\n"))
    then some 16
    else if starts_with s (str_append "\n" goal_marker)
        || starts_with s (str_append goal_marker "\n")
    then some 15
    else if starts_with s goal_marker
    then some 14
    else none

-- `re.sub(r"\n?\[GOAL_COMPLETE\]\n?", "", text)`, with the characters that are still to be skipped.
unfoldable pub drop_markers : ℕ → String → String
unfolding match_here
drop_markers skip String.[] = String.[]
drop_markers (suc skip) (String.◌∷◌ c s) = drop_markers skip s
drop_markers zero (String.◌∷◌ c s) = elim (match_here (String.◌∷◌ c s)) [
  | some skip ↦ drop_markers skip s
  | none ↦ String.◌∷◌ c (drop_markers zero s)
]

unfoldable pub lstrip : String → String
unfolding is_space
lstrip String.[] = String.[]
lstrip (String.◌∷◌ c s) = let rest = lstrip s in if is_space c then rest else String.◌∷◌ c s

unfoldable pub rstrip : String → String
unfolding is_space
rstrip String.[] = String.[]
rstrip (String.◌∷◌ c s) =
    let rest = rstrip s in if str_eq rest "" && is_space c then String.[] else String.◌∷◌ c rest

-- What `_complete` makes of the final text: changed only where there is a goal and a marker line.
unfoldable pub finish_text : Option String → String → String
unfolding has_marker drop_markers lstrip rstrip
finish_text none text = text
finish_text (some goal) text =
    if not (str_eq goal "") && has_marker true text
    then lstrip (rstrip (drop_markers 0 text))
    else text
