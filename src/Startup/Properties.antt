-- ===== src/Startup/Properties.antt =====
-- xposed.cpp, lines 182-230: /system/xposed.prop. A line is what `fgets` reads into the array: text of
-- less than 512 bytes. A pointer is an index into the array, whose first byte may not be left.
use xposed.Prelude.{
  leb, ◌==◌, if◌then◌else◌, bytes_of, eqb_text, Bytes, length, get_or, drop, ℤ, ℕ, Bool, true,
  false, ◌&&◌, ◌||◌, Option, none, some, List, [], ◌∷◌,
}
use xposed.Run.{◌>>=◌, Run, fault, returned}
use xposed.Startup.Defs.{fgets}

unfoldable pub is_space : ℕ → Bool
is_space c = (c == 32) || (leb 9 c && leb c 13)

-- The text up to a byte, and the text from it on, if it is there (`strchr`).
unfoldable pub split_at : ℕ → Bytes → Option (Bytes × Bytes)
split_at c [] = none
split_at c (x ∷ s) = elim (x == c) [
  | true ↦ some ([], x ∷ s)
  | false ↦ elim (split_at c s) [ none ↦ none | some (before, rest) ↦ some (x ∷ before, rest) ]
]

-- `while (isspace(*p)) p++`.
unfoldable pub skip_spaces : Bytes → Bytes
skip_spaces [] = []
skip_spaces (x ∷ s) = let rest = skip_spaces s in if is_space x then rest else x ∷ s

-- The text before its trailing spaces.
unfoldable pub trim_end : Bytes → Bytes
trim_end [] = []
trim_end (x ∷ s) = elim (trim_end s) [
  | [] ↦ if is_space x then [] else x ∷ []
  | (y ∷ t) ↦ x ∷ y ∷ t
]

-- `strpbrk(value, "\n\r")`, and what is before.
unfoldable pub until_newline : Bytes → Bytes
until_newline [] = []
until_newline (x ∷ s) =
    let rest = until_newline s in if (x == b'\n') || (x == b'\r') then [] else x ∷ rest

-- Lines 191-211: the key and the value. A key of spaces alone would lead the loop of line 207 before
-- the array, which is a fault.
unfoldable pub parse_line : Bytes → Run (Option (Bytes × Bytes))
parse_line buf = elim (split_at b'=' buf) [
  | none ↦ returned none
  | some (before, rest) ↦
      if get_or (skip_spaces buf) 0 0 == b'#'
      then returned none
      else if length (trim_end before) == 0
      then fault
      else returned
          (some (trim_end (skip_spaces before), until_newline (skip_spaces (drop 1 rest))))
]

-- The version as a text, and as a number.
pub record Version : Type 0 where
  pub text : Bytes
  pub number : ℤ

-- Lines 214-222.
unfoldable pub handle_entry : (atoi : Bytes → ℤ) → Version → Bytes × Bytes → Version
handle_entry atoi v (key, value) =
    if eqb_text (bytes_of "version") key
    then if length value == 0 then v else record { text = value; number = atoi value }
    else v

unfoldable pub parse_lines : (atoi : Bytes → ℤ) → Version → List Bytes → Run Version
parse_lines atoi v [] = returned v
parse_lines atoi v (line ∷ lines) = do
  entry ← parse_line line
  parse_lines atoi (elim entry [ none ↦ v | some e ↦ handle_entry atoi v e ]) lines

-- `parseXposedProp`, given the file's contents if it can be opened.
unfoldable pub parse_xposed_prop :
    (atoi : Bytes → ℤ) → (contents : Option Bytes) → Version → Run Version
parse_xposed_prop atoi none v = returned v
parse_xposed_prop atoi (some contents) v = parse_lines atoi v (fgets 512 511 contents)
