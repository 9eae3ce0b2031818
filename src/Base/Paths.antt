-- ===== src/Base/Paths.antt =====
-- `std::path::Path`, over the characters of a path, and what the program asks of the file system.
use Prim.Native.Nat.{ℕ}
use mathlib.Core.Bool.{Bool, true, false, ◌||◌}
use mathlib.Core.List.{List, [], ◌∷◌}
use mathlib.Core.Option.{Option, none, some}
use kirb_la_snoop.Base.Logic.{◌==◌, if◌then◌else◌}
use kirb_la_snoop.Base.Strings.{text_eq, join}
use kirb_la_snoop.Base.Words.{Bytes, Text, codes}

-- The file system, by path: `fs::read`, `fs::read_to_string`, `Path::is_file`, `Path::is_dir`, and
-- the paths of the entries that `fs::read_dir` gives and that can be read.
pub record Files : Type 0 where
  pub read : Text → Option Bytes
  pub read_to_string : Text → Option Text
  pub is_file : Text → Bool
  pub is_dir : Text → Bool
  pub read_dir : Text → Option (List Text)

-- `Path::is_absolute`
abbrev pub is_absolute : Text → Bool
is_absolute [] = false
is_absolute (c ∷ cs) = c == b'/'

abbrev onto_base : Text → Text → Text
onto_base [] p = p
onto_base (c ∷ []) p = c ∷ (if c == b'/' then p else b'/' ∷ p)
onto_base (c ∷ d ∷ base) p = c ∷ onto_base (d ∷ base) p

-- `Path::join`
unfoldable pub join_path : Text → Text → Text
join_path base p = if is_absolute p then p else onto_base base p

abbrev onto_piece : ℕ → List Text → List Text
onto_piece c [] = (c ∷ []) ∷ []
onto_piece c (p ∷ ps) = (c ∷ p) ∷ ps

-- The pieces between the slashes; the first of an absolute path is empty.
unfoldable pub split_slashes : Text → List Text
split_slashes [] = [] ∷ []
split_slashes (c ∷ cs) =
    let rest = split_slashes cs in if c == b'/' then [] ∷ rest else onto_piece c rest

-- A piece that is no component: empty, or a dot.
abbrev is_blank : Text → Bool
is_blank [] = true
is_blank (c ∷ []) = c == b'.'
is_blank (c ∷ d ∷ cs) = false

abbrev unless_last : Text → List Text → List Text
unless_last p [] = if is_blank p then [] else p ∷ []
unless_last p (q ∷ ps) = p ∷ q ∷ ps

-- Without the blank pieces at the end.
unfoldable pub trim_blanks : List Text → List Text
trim_blanks [] = []
trim_blanks (p ∷ ps) = unless_last p (trim_blanks ps)

unfoldable pub without_last : List Text → List Text
without_last [] = []
without_last (p ∷ []) = []
without_last (p ∷ q ∷ ps) = p ∷ without_last (q ∷ ps)

unfoldable pub last_piece : Text → List Text → Text
last_piece p [] = p
last_piece p (q ∷ ps) = last_piece q ps

-- The path of the first piece and those behind it.
abbrev as_path : Text → List Text → Text
as_path [] [] = b'/' ∷ []
as_path (c ∷ cs) [] = c ∷ cs
as_path first (p ∷ ps) = join (b'/' ∷ []) (first ∷ p ∷ ps)

abbrev parent_of : Text → List Text → Option Text
parent_of [] [] = none
parent_of (c ∷ cs) [] = some []
parent_of first (p ∷ ps) = some (as_path first (trim_blanks (without_last (p ∷ ps))))

abbrev parent_of_pieces : List Text → Option Text
parent_of_pieces [] = none
parent_of_pieces (first ∷ rest) = parent_of first (trim_blanks rest)

-- `Path::parent`
unfoldable pub parent : Text → Option Text
unfolding split_slashes trim_blanks without_last join
parent path = parent_of_pieces (split_slashes path)

abbrev name_of_pieces : List Text → Text
name_of_pieces [] = []
name_of_pieces (first ∷ rest) = last_piece first (trim_blanks rest)

-- `Path::file_name`, empty where there is none.
unfoldable pub file_name : Text → Text
unfolding split_slashes trim_blanks last_piece
file_name path =
    let name = name_of_pieces (split_slashes path) in
    if is_blank name || text_eq name (codes "..") then [] else name

abbrev pub extension_onto : ℕ → Option (Text × Text) → Option (Text × Text)
extension_onto c (some (stem, after)) = some (c ∷ stem, after)
extension_onto c none = none

-- The text before the last dot, and the text behind it.
unfoldable pub rsplit_dot : Text → Option (Text × Text)
rsplit_dot [] = none
rsplit_dot (c ∷ cs) =
    let later = extension_onto c (rsplit_dot cs) in
    elim later [ some parts ↦ some parts | none ↦ if c == b'.' then some ([], cs) else none ]

abbrev pub behind_stem : Option (Text × Text) → Option Text
behind_stem none = none
behind_stem (some ([], after)) = none
behind_stem (some (c ∷ cs, after)) = some after

-- `Path::extension`
unfoldable pub extension_of : Text → Option Text
unfolding file_name rsplit_dot
extension_of path = behind_stem (rsplit_dot (file_name path))
