-- ===== src/Libduck/FilePath/Examples.antt =====
-- Paths of libraries/libduck/Path.cpp, and the theorems about them at these.
use duck_os.Prelude.{◌≡◌, ◌⊎◌, refl, [], ◌∷◌, arith}
use duck_os.Libduck.FilePath.{
  Text, dot, dots, is_nil, is_dot, is_dots, starts, path, divide, parent, basename,
}
use duck_os.Libduck.FilePath.Clean.{Name}
use duck_os.Libduck.FilePath.Relative.{path-string, parent-divide}
use duck_os.Libduck.FilePath.Parts.{AllNames, path-AllNames, NamesOf}

-- `/a/../../b//./c.d.`
abbrev wound : Text
wound =
    47 ∷ 97 ∷ 47 ∷ 46 ∷ 46 ∷ 47 ∷ 46 ∷ 46 ∷ 47 ∷ 98 ∷ 47 ∷ 47 ∷ 46 ∷ 47 ∷ 99 ∷ 46 ∷ 100 ∷ 46 ∷ []

-- `../x/..`
abbrev upwards : Text
upwards = 46 ∷ 46 ∷ 47 ∷ 120 ∷ 47 ∷ 46 ∷ 46 ∷ []

-- `c.d.`, which has no extension
abbrev no_extension : Text
no_extension = 99 ∷ 46 ∷ 100 ∷ 46 ∷ []

-- `x.y`
abbrev extended : Text
extended = 120 ∷ 46 ∷ 121 ∷ []

wound_string : (path wound).string ≡ 47 ∷ 98 ∷ 47 ∷ no_extension
unfolding path
wound_string = refl

wound_name : ((path wound).filename ≡ no_extension) × ((path wound).extension ≡ [])
unfolding path
wound_name = (refl, refl)

upwards_string : (path upwards).string ≡ dots
unfolding path
upwards_string = refl

empty_string : (path []).string ≡ dot
unfolding path
empty_string = refl

root_parts : (path (47 ∷ [])).parts ≡ (47 ∷ []) ∷ []
unfolding path
root_parts = refl

path-string_example : path (path wound).string ≡ path wound
path-string_example = path-string wound

extended-Name : Name extended
unfolding is_nil is_dot is_dots
extended-Name = (ground arith, refl, refl)

parent-divide_example : parent (divide (path upwards) (path extended)) ≡ path upwards
parent-divide_example = parent-divide upwards extended extended-Name

path-AllNames_example :
    (AllNames (path wound).parts ⊎ ((path wound).parts ≡ (47 ∷ []) ∷ []))
    × NamesOf (basename (path wound)) ((path wound).filename, (path wound).extension)
unfolding starts
path-AllNames_example = path-AllNames wound refl
