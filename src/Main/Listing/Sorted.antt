-- ===== src/Main/Listing/Sorted.antt =====
-- src/main.rs: `found.sort()` orders the listing, and neither loses nor adds an entry.
use kirb_la_snoop.Base.{true, false, List, [], ◌∷◌, ◌≡◌, refl, Text, arith, Bool-cases, inl, inr}
use kirb_la_snoop.Base.Strings.{text_eq}
use kirb_la_snoop.Main.Listing.{Entry, text_le, entry_le, insert_entry, sort_entries}
use kirb_la_snoop.Main.Listing.Order.{EntryLe, entry_le-EntryLe}
use mathlib.Core.List.{Perm}
use mathlib.Core.List.Perm

text_eq_sym : (s t : Text) → text_eq s t ≡ text_eq t s
unfolding text_eq
text_eq_sym [] [] = refl
text_eq_sym [] (d ∷ ds) = refl
text_eq_sym (c ∷ cs) [] = refl
text_eq_sym (c ∷ cs) (d ∷ ds) = ground (arith, text_eq_sym cs ds)

text_le_total : (s t : Text) → text_le s t ≡ false → text_le t s ≡ true
unfolding text_le
text_le_total [] t h = absurd (cc)
text_le_total (c ∷ cs) [] h = refl
text_le_total (c ∷ cs) (d ∷ ds) h = ground (arith, text_le_total cs ds)

entry_le_total : (x y : Entry) → entry_le x y ≡ false → entry_le y x ≡ true
unfolding entry_le
entry_le_total x y h = ground (
  arith,
  text_eq_sym x.name y.name,
  text_eq_sym x.description y.description,
  text_le_total x.name y.name,
  text_le_total x.description y.description,
)

-- Each entry is no later than the next, as the program compares them.
abbrev IsSorted : List Entry → Type 0
IsSorted [] = Unit
IsSorted (x ∷ []) = Unit
IsSorted (x ∷ y ∷ ys) = (entry_le x y ≡ true) × IsSorted (y ∷ ys)

insert_entry-IsSorted : (x : Entry) (ys : List Entry) → IsSorted ys → IsSorted (insert_entry x ys)
unfolding insert_entry
insert_entry-IsSorted x [] h = tt
insert_entry-IsSorted x (y ∷ []) h = elim (Bool-cases (entry_le x y)) [
  | inl le ↦ rw le (le, tt)
  | inr gt ↦ rw gt (entry_le_total x y gt, tt)
]
insert_entry-IsSorted x (y ∷ z ∷ ys) h = elim (Bool-cases (entry_le x y)) [
  | inl le ↦ rw le (le, h)
  | inr gt ↦ rw gt (elim (Bool-cases (entry_le x z)) [
    | inl le ↦ rw le (entry_le_total x y gt, (le, h.1))
    | inr later ↦
        let rest : IsSorted (insert_entry x (z ∷ ys)) = insert_entry-IsSorted x (z ∷ ys) h.1 in
        rw later (h.0, (rw later at rest))
  ])
]

sort_entries-IsSorted : (xs : List Entry) → IsSorted (sort_entries xs)
unfolding sort_entries
sort_entries-IsSorted [] = tt
sort_entries-IsSorted (x ∷ xs) =
    insert_entry-IsSorted x (sort_entries xs) (sort_entries-IsSorted xs)

insert_entry-perm : (x : Entry) (ys : List Entry) → Perm (insert_entry x ys) (x ∷ ys)
unfolding insert_entry
insert_entry-perm x [] = Perm.refl (x ∷ [])
insert_entry-perm x (y ∷ ys) = elim (Bool-cases (entry_le x y)) [
  | inl le ↦ rw le (Perm.refl (x ∷ y ∷ ys))
  | inr gt ↦ rw gt (Perm.trans (Perm.cons y (insert_entry-perm x ys)) (Perm.swap x y ys))
]

pub sort_entries-perm : (xs : List Entry) → Perm (sort_entries xs) xs
unfolding sort_entries
sort_entries-perm [] = Perm.refl []
sort_entries-perm (x ∷ xs) =
    Perm.trans (insert_entry-perm x (sort_entries xs)) (Perm.cons x (sort_entries-perm xs))

-- Each entry is no later than the next in the order of tuples.
abbrev pub IsOrdered : List Entry → Type 0
IsOrdered [] = Unit
IsOrdered (x ∷ []) = Unit
IsOrdered (x ∷ y ∷ ys) = EntryLe x y × IsOrdered (y ∷ ys)

IsSorted-IsOrdered : (xs : List Entry) → IsSorted xs → IsOrdered xs
IsSorted-IsOrdered [] s = tt
IsSorted-IsOrdered (x ∷ []) s = tt
IsSorted-IsOrdered (x ∷ y ∷ ys) s = (entry_le-EntryLe x y s.0, IsSorted-IsOrdered (y ∷ ys) s.1)

pub sort_entries-IsOrdered : (xs : List Entry) → IsOrdered (sort_entries xs)
sort_entries-IsOrdered xs = IsSorted-IsOrdered (sort_entries xs) (sort_entries-IsSorted xs)
