-- ===== src/Libduck/FilePath.antt =====
-- The class `Path` of libraries/libduck/Path.h and Path.cpp: a path's text, cut into parts and cleaned.
pub mod Split
pub mod Clean
pub mod Relative
pub mod Parts
mod Examples
use duck_os.Prelude.{
  ℕ, zero, suc, ◌+◌, Bool, true, false, not, ◌&&◌, ◌||◌, Option, none, some, List, [], ◌∷◌, ◌++◌,
  length, ◌==◌, if◌then◌else◌,
}

-- A `std::string`: 46 is a dot, 47 a slash.
abbrev pub Text : Type 0
Text = List ℕ

abbrev pub dot : Text
dot = 46 ∷ []

abbrev pub dots : Text
dots = 46 ∷ 46 ∷ []

unfoldable pub is_nil : Text → Bool
is_nil [] = true
is_nil (c ∷ cs) = false

unfoldable pub is_dot : Text → Bool
is_dot [] = false
is_dot (c ∷ []) = c == 46
is_dot (c ∷ d ∷ cs) = false

unfoldable pub is_dots : Text → Bool
is_dots [] = false
is_dots (c ∷ []) = false
is_dots (c ∷ d ∷ []) = (c == 46) && (d == 46)
is_dots (c ∷ d ∷ e ∷ cs) = false

-- `string[0] == '/'`
unfoldable pub starts : Text → Bool
starts [] = false
starts (c ∷ cs) = c == 47

unfoldable pub prepend : ℕ → List Text → List Text
prepend c [] = (c ∷ []) ∷ []
prepend c (p ∷ ps) = (c ∷ p) ∷ ps

-- The parts that the `do` loops cut off one after the other, up to each slash, and the rest.
unfoldable pub split : Text → List Text
unfolding prepend
split [] = [] ∷ []
split (c ∷ cs) = if c == 47 then [] ∷ split cs else prepend c (split cs)

-- The part `..` with `temp_parts`, the last first.
unfoldable pub up : Bool → Text → List Text → List Text
unfolding is_dots
up absolute p [] = if absolute then [] else p ∷ []
up absolute p (q ∷ temp) = if is_dots q then p ∷ q ∷ temp else temp

-- A round of the constructor's loop.
unfoldable pub add_part : Bool → List Text → Text → List Text
unfolding is_nil is_dot is_dots up
add_part absolute temp p =
    if is_nil p || is_dot p then temp else if is_dots p then up absolute p temp else p ∷ temp

unfoldable pub add_parts : Bool → List Text → List Text → List Text
unfolding add_part
add_parts absolute temp [] = temp
add_parts absolute temp (p ∷ ps) = add_parts absolute (add_part absolute temp p) ps

unfoldable pub in_order : List Text → List Text
in_order [] = []
in_order (p ∷ temp) = in_order temp ++ p ∷ []

-- The parts with a slash behind each but the last.
unfoldable pub join : List Text → Text
join [] = []
join (p ∷ []) = p
join (p ∷ q ∷ ps) = p ++ 47 ∷ join (q ∷ ps)

unfoldable pub or_dot : Text → Text
or_dot [] = dot
or_dot (c ∷ cs) = c ∷ cs

-- The cleaned path's text.
unfoldable pub path_text : Bool → List Text → Text
unfolding in_order join
path_text true temp = 47 ∷ join (in_order temp)
path_text false [] = dot
path_text false (p ∷ temp) = join (in_order (p ∷ temp))

unfoldable pub named : List Text → List Text
unfolding is_nil
named [] = []
named (p ∷ ps) = if is_nil p then named ps else p ∷ named ps

abbrev pub or_whole : Text → List Text → List Text
or_whole text [] = text ∷ []
or_whole text (p ∷ ps) = p ∷ ps

abbrev pub last_part : List Text → Text
last_part [] = []
last_part (p ∷ []) = p
last_part (p ∷ q ∷ ps) = last_part (q ∷ ps)

-- A character in front of a text, whose last dot is known.
abbrev pub dot_before : ℕ → Text → Option (Text × Text) → Option (Text × Text)
dot_before c cs none = if c == 46 then some ([], cs) else none
dot_before c cs (some (before, behind)) = some (c ∷ before, behind)

-- What is before the last dot and what is behind it.
unfoldable pub cut_last_dot : Text → Option (Text × Text)
cut_last_dot [] = none
cut_last_dot (c ∷ cs) = dot_before c cs (cut_last_dot cs)

abbrev pub names_at : Text → Option (Text × Text) → Text × Text
names_at base none = (base, [])
names_at base (some (before, behind)) =
    if is_nil before || is_nil behind then (base, []) else (before, behind)

-- The filename and the extension of a basename.
unfoldable pub name_parts : Text → Text × Text
unfolding cut_last_dot is_nil
name_parts base = names_at base (cut_last_dot base)

pub record FilePath : Type 0 where
  pub parts : List Text
  pub extension : Text
  pub filename : Text
  pub string : Text
  pub absolute : Bool

unfoldable pub basename : FilePath → Text
basename p = last_part p.parts

-- `rebuild_parts` on the text of a path.
unfoldable pub rebuild_parts : Bool → Text → FilePath
unfolding named split name_parts
rebuild_parts absolute text =
    let parts : List Text = or_whole text (named (split text)) in
    record {
      parts = parts;
      extension = (name_parts (last_part parts)).1;
      filename = (name_parts (last_part parts)).0;
      string = text;
      absolute = absolute;
    }

-- The end of the constructor.
unfoldable pub build : Bool → List Text → FilePath
unfolding rebuild_parts path_text
build absolute temp = rebuild_parts absolute (path_text absolute temp)

unfoldable pub path : Text → FilePath
unfolding starts or_dot add_parts split build
path text = build (starts text) (add_parts (starts text) [] (split (or_dot text)))

unfoldable pub divide : FilePath → FilePath → FilePath
unfolding path
divide p other = path (p.string ++ 47 ∷ other.string)

unfoldable pub parent : FilePath → FilePath
unfolding divide
parent p = divide p (path dots)
