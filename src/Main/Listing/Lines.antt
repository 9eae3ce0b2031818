-- ===== src/Main/Listing/Lines.antt =====
-- src/main.rs: what `list_profiles` prints, and how it fails.
use kirb_la_snoop.Base.{
  ℕ, ◌+◌, ◌-◌, max, none, some, List, [], ◌∷◌, ◌++◌, ◌≡◌, refl, Text, codes, length, replicate, map,
  Result, ok, err, and_then, arith, Option,
}
use kirb_la_snoop.Base.Decimal.{decimal}
use kirb_la_snoop.Profile.Load.{Reader}
use kirb_la_snoop.Main.Listing.{
  Entry, ListError, reading_dir, panics, found_in, sort_entries, entry_line, listing_of,
  listing_from, list_profiles,
}
use kirb_la_snoop.Main.Listing.Found.{Loaded, Panicked, FoundAs, found_in-FoundAs}
use kirb_la_snoop.Main.Listing.Sorted.{IsOrdered, sort_entries-IsOrdered, sort_entries-perm}
use mathlib.Core.List.{Perm}

-- The line of a profile: its name to the left in 14 columns, the number of its rules to the right
-- in 3 columns, and its description.
pub record IsLine (x : Entry) (line : Text) : Type 0 where
  pub behind_name : ℕ
  pub before_rules : ℕ
  pub name_wide : length x.name + behind_name ≡ max 14 (length x.name)
  pub rules_wide : before_rules + length (decimal x.rules) ≡ max 3 (length (decimal x.rules))
  pub line_is :
      line
      ≡ (x.name ++ replicate behind_name 32)
        ++ (32
            ∷ ((replicate before_rules 32 ++ decimal x.rules)
                ++ (codes " rules  " ++ x.description)))

-- A line for each entry, in the same order.
abbrev pub AreLines : List Entry → List Text → Type 0
AreLines [] [] = Unit
AreLines [] (line ∷ lines) = ⊥
AreLines (x ∷ xs) [] = ⊥
AreLines (x ∷ xs) (line ∷ lines) = IsLine x line × AreLines xs lines

-- What is printed for the entries: one line says so where there are none.
abbrev pub Printed : Text → List Entry → List Text → Type 0
Printed dir [] lines = lines ≡ (codes "no profiles in " ++ dir) ∷ []
Printed dir (x ∷ xs) lines = AreLines (x ∷ xs) lines

entry_line-IsLine : (x : Entry) → IsLine x (entry_line x)
unfolding entry_line
entry_line-IsLine x = record {
  behind_name = 14 - length x.name;
  before_rules = 3 - length (decimal x.rules);
  name_wide = ground arith;
  rules_wide = ground arith;
  line_is = refl;
}

map-AreLines : (xs : List Entry) → AreLines xs (map entry_line xs)
map-AreLines [] = tt
map-AreLines (x ∷ xs) = (entry_line-IsLine x, map-AreLines xs)

listing_of-Printed : (dir : Text) (xs : List Entry) → Printed dir xs (listing_of dir xs)
listing_of-Printed dir [] = refl
listing_of-Printed dir (x ∷ xs) = map-AreLines (x ∷ xs)

-- The lines of a listing.
pub record Lists (r : Reader) (dir : Text) (lines : List Text) : Type 0 where
  pub paths : List Text
  pub found : List Entry
  pub entries : List Entry
  pub reads : r.files.read_dir dir ≡ some paths
  pub are_loaded : Loaded r paths found
  pub same : Perm entries found
  pub are_ordered : IsOrdered entries
  pub are_printed : Printed dir entries lines

abbrev pub ListsAs : Reader → Text → Result ListError (List Text) → Type 0
ListsAs r dir (ok lines) = Lists r dir lines
ListsAs r dir (err (reading_dir d)) = (d ≡ dir) × (r.files.read_dir dir ≡ none)
ListsAs r dir (err (panics e)) =
    (paths : List Text) × (r.files.read_dir dir ≡ some paths) × Panicked r paths e

found-ListsAs :
    (r : Reader) (dir : Text) (paths : List Text) (found : Result ListError (List Entry))
    → r.files.read_dir dir ≡ some paths
    → FoundAs r paths found
    → ListsAs r dir (and_then found λ xs. ok (listing_of dir (sort_entries xs)))
found-ListsAs r dir paths (ok xs) reads f = record {
  paths = paths;
  found = xs;
  entries = sort_entries xs;
  reads = reads;
  are_loaded = f;
  same = sort_entries-perm xs;
  are_ordered = sort_entries-IsOrdered xs;
  are_printed = listing_of-Printed dir (sort_entries xs);
}
found-ListsAs r dir paths (err (reading_dir d)) reads f = elim f [ ]
found-ListsAs r dir paths (err (panics e)) reads f = (paths, reads, f)

listing_from-ListsAs :
    (r : Reader) (dir : Text) (o : Option (List Text))
    → r.files.read_dir dir ≡ o
    → ListsAs r dir (listing_from r dir o)
listing_from-ListsAs r dir none unread = (refl, unread)
listing_from-ListsAs r dir (some paths) reads =
    found-ListsAs r dir paths (found_in r paths) reads (found_in-FoundAs r paths)

-- `list_profiles` prints a line for each `.toml` file of the directory that loads: the name in 14
-- columns, the number of rules in 3, and the description; the lines are in the order of names,
-- then of descriptions, then of the numbers of rules, and where there are none, one line says so.
-- Where it fails, the directory cannot be read, or `load` panics at a `.toml` file and at none
-- before it.
pub list_profiles-ListsAs : (r : Reader) (dir : Text) → ListsAs r dir (list_profiles r dir)
unfolding list_profiles
list_profiles-ListsAs r dir = listing_from-ListsAs r dir (r.files.read_dir dir) refl
