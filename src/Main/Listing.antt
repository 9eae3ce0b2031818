-- ===== src/Main/Listing.antt =====
-- src/main.rs: `list_profiles`. A profile that does not load is skipped, which is told on the
-- error stream; a panic of `load` ends the program, and nothing is listed.
pub mod Order
pub mod Sorted
pub mod Found
pub mod Lines
use kirb_la_snoop.Base.{
  ℕ, zero, suc, ◌-◌, Bool, true, false, not, ◌||◌, Option, none, some, List, [], ◌∷◌, ◌++◌, Text,
  codes, length, replicate, map, ltb, ◌==◌, if◌then◌else◌, Result, ok, err, and_then,
}
use kirb_la_snoop.Base.Decimal.{decimal}
use kirb_la_snoop.Base.Paths.{Files, extension_of}
use kirb_la_snoop.Base.Strings.{text_eq}
use kirb_la_snoop.Profile.{Compiled}
use kirb_la_snoop.Profile.Load.{
  Reader, LoadError, load, escape_error, hex_error, reading_file, capacity_overflow, bad_a,
  bad_aaaa, reading_profile, parsing_profile, not_found,
}
use kirb_la_snoop.Profile.Hex.{odd_digits, bad_byte, not_char_boundary}

-- The name, the description and the number of the rules.
pub record Entry : Type 0 where
  pub name : Text
  pub description : Text
  pub rules : ℕ

abbrev pub entry_of : Compiled → Entry
entry_of c = record { name = c.name; description = c.description; rules = length c.rules }

abbrev pub has_extension : Option Text → Bool
has_extension none = false
has_extension (some e) = text_eq e (codes "toml")

abbrev pub is_profile : Text → Bool
is_profile path = has_extension (extension_of path)

-- An error of `load` that stands for a panic.
abbrev pub is_panic : LoadError → Bool
is_panic capacity_overflow = true
is_panic (hex_error not_char_boundary) = true
is_panic (hex_error odd_digits) = false
is_panic (hex_error bad_byte) = false
is_panic (escape_error e) = false
is_panic (reading_file p) = false
is_panic (bad_a t) = false
is_panic (bad_aaaa t) = false
is_panic (reading_profile p) = false
is_panic (parsing_profile p) = false
is_panic (not_found t) = false

-- The listing ends in an error where the directory cannot be read, and in a panic of `load`.
pub data ListError : Type 0 where
  reading_dir : Text → ListError
  panics : LoadError → ListError

abbrev pub add_entry : Compiled → Result ListError (List Entry) → Result ListError (List Entry)
add_entry c found = and_then found λ rest. ok (entry_of c ∷ rest)

-- What one profile adds to those behind it: an error is skipped, a panic ends the loop.
abbrev pub found_onto :
    Result LoadError Compiled → Result ListError (List Entry) → Result ListError (List Entry)
found_onto (ok c) found = add_entry c found
found_onto (err e) found = if is_panic e then err (panics e) else found

-- The loop over the entries of the directory.
unfoldable pub found_in : Reader → List Text → Result ListError (List Entry)
found_in r [] = ok []
found_in r (path ∷ paths) =
    let rest = found_in r paths in if is_profile path then found_onto (load r path) rest else rest

-- `Ord` of texts and of the tuples: the first field that differs decides.
unfoldable pub text_le : Text → Text → Bool
text_le [] t = true
text_le (c ∷ cs) [] = false
text_le (c ∷ cs) (d ∷ ds) = let rest = text_le cs ds in if c == d then rest else ltb c d

unfoldable pub entry_le : Entry → Entry → Bool
unfolding text_le
entry_le x y =
    if text_eq x.name y.name
    then (if text_eq x.description y.description
        then not (ltb y.rules x.rules)
        else text_le x.description y.description)
    else text_le x.name y.name

unfoldable pub insert_entry : Entry → List Entry → List Entry
insert_entry x [] = x ∷ []
insert_entry x (y ∷ ys) =
    let rest = insert_entry x ys in if entry_le x y then x ∷ y ∷ ys else y ∷ rest

-- `found.sort()`
unfoldable pub sort_entries : List Entry → List Entry
unfolding insert_entry
sort_entries [] = []
sort_entries (x ∷ xs) = insert_entry x (sort_entries xs)

-- `{t:<w}` and `{t:>w}`
abbrev pub pad_right : ℕ → Text → Text
pad_right w t = t ++ replicate (w - length t) b' '

abbrev pub pad_left : ℕ → Text → Text
pad_left w t = replicate (w - length t) b' ' ++ t

unfoldable pub entry_line : Entry → Text
entry_line x =
    pad_right 14 x.name
    ++ (b' ' ∷ (pad_left 3 (decimal x.rules) ++ (codes " rules  " ++ x.description)))

abbrev pub no_profiles : Text → List Entry → List Text
no_profiles dir [] = (codes "no profiles in " ++ dir) ∷ []
no_profiles dir (x ∷ xs) = []

abbrev pub listing_of : Text → List Entry → List Text
listing_of dir found = no_profiles dir found ++ map entry_line found

abbrev pub listing_from : Reader → Text → Option (List Text) → Result ListError (List Text)
listing_from r dir none = err (reading_dir dir)
listing_from r dir (some paths) =
    and_then (found_in r paths) λ found. ok (listing_of dir (sort_entries found))

-- `list_profiles`: the lines that are printed.
unfoldable pub list_profiles : Reader → Text → Result ListError (List Text)
unfolding found_in sort_entries entry_line
list_profiles r dir = listing_from r dir (r.files.read_dir dir)
