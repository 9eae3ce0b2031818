-- ===== src/Main/Listing/Order.antt =====
-- src/main.rs: the order in which the listing is sorted, and which files it lists.
use kirb_la_snoop.Base.{
  ℕ, ◌≤◌, ◌<◌, ◌⊎◌, ◌≢◌, true, false, Option, none, some, [], ◌∷◌, ◌++◌, ◌≡◌, refl, sym, ap, ◌∙◌,
  Text, codes, ◌==◌, if◌then◌else◌, arith, Bool-cases, inl, inr,
}
use kirb_la_snoop.Base.Paths.{file_name, extension_of, rsplit_dot, behind_stem, extension_onto}
use kirb_la_snoop.Base.Strings.{text_eq, text_eq→eq, text_eq_refl}
use kirb_la_snoop.Main.Listing.{Entry, has_extension, is_profile, text_le, entry_le}

-- The order of texts, by their characters from the first on.
abbrev pub TextLe : Text → Text → Type 0
TextLe [] t = Unit
TextLe (c ∷ cs) [] = ⊥
TextLe (c ∷ cs) (d ∷ ds) = (c < d) ⊎ ((c ≡ d) × TextLe cs ds)

abbrev pub TextLt : Text → Text → Type 0
TextLt s t = TextLe s t × (s ≢ t)

-- The order of the listing: by name, then by description, then by the number of rules.
abbrev pub EntryLe : Entry → Entry → Type 0
EntryLe x y =
    TextLt x.name y.name
    ⊎ ((x.name ≡ y.name)
        × (TextLt x.description y.description
            ⊎ ((x.description ≡ y.description) × (x.rules ≤ y.rules))))

text_le-TextLe : (s t : Text) → text_le s t ≡ true → TextLe s t
unfolding text_le
text_le-TextLe [] t h = tt
text_le-TextLe (c ∷ cs) [] h = absurd (cc)
text_le-TextLe (c ∷ cs) (d ∷ ds) h = elim (Bool-cases (c == d)) [
  | inl same ↦ inr (ground (arith, same), text_le-TextLe cs ds (ground (arith, h, same)))
  | inr differs ↦ inl (ground (arith, h, differs))
]

text_differs : (s t : Text) → text_eq s t ≡ false → s ≢ t
text_differs s t h e =
    let same : text_eq s t ≡ true = ap (text_eq s) (sym e) ∙ text_eq_refl s in
    let clash : true ≡ false = sym same ∙ h in absurd (cc)

pub entry_le-EntryLe : (x y : Entry) → entry_le x y ≡ true → EntryLe x y
unfolding entry_le
entry_le-EntryLe x y h = elim (Bool-cases (text_eq x.name y.name)) [
  | inl named ↦ inr (
    text_eq→eq x.name y.name named,
    elim (Bool-cases (text_eq x.description y.description)) [
      | inl told ↦ inr (text_eq→eq x.description y.description told, ground (arith, h, named, told))
      | inr told ↦ inl (
        text_le-TextLe x.description y.description (ground (arith, h, named, told)),
        text_differs x.description y.description told,
      )
    ],
  )
  | inr named ↦
      inl
        (text_le-TextLe x.name y.name (ground (arith, h, named)), text_differs x.name y.name named)
]

-- The name of the file is `.toml` behind at least one character.
abbrev pub IsToml : Text → Type 0
IsToml path = (c : ℕ) × (stem : Text) × (file_name path ≡ c ∷ (stem ++ codes ".toml"))

-- What `rsplit_dot` makes of a character, from what it makes of those behind.
abbrev dot_step : ℕ → Text → Option (Text × Text) → Option (Text × Text)
dot_step c cs later = elim (extension_onto c later) [
  | some parts ↦ some parts
  | none ↦ if c == b'.' then some ([], cs) else none
]

rsplit_dot-append :
    (t stem after : Text) → rsplit_dot t ≡ some (stem, after) → t ≡ stem ++ (b'.' ∷ after)
unfolding rsplit_dot
rsplit_dot-append [] stem after h = absurd (cc)
rsplit_dot-append (c ∷ cs) stem after h = from (rsplit_dot cs) (λ s a. rsplit_dot-append cs s a) h
  where
    from :
        (later : Option (Text × Text))
        → ((s a : Text) → later ≡ some (s, a) → cs ≡ s ++ (b'.' ∷ a))
        → dot_step c cs later ≡ some (stem, after)
        → c ∷ cs ≡ stem ++ (b'.' ∷ after)
    from none e k = elim (Bool-cases (c == b'.')) [
      | inl dot ↦ ground (arith, k, dot)
      | inr no_dot ↦ absurd (ground (arith, k, no_dot))
    ]
    from (some (s, a)) e k =
        let both : (c ∷ s, a) ≡ (stem, after) = cc in
        ap (◌∷◌ c) (e s a refl) ∙ ap (λ (x : Text × Text). x.0 ++ (b'.' ∷ x.1)) both

rsplit_dot_toml : (stem : Text) → rsplit_dot (stem ++ codes ".toml") ≡ some (stem, codes "toml")
unfolding rsplit_dot
rsplit_dot_toml [] = refl
rsplit_dot_toml (c ∷ stem) = ap (dot_step c (stem ++ codes ".toml")) (rsplit_dot_toml stem)

IsToml-extension_of : (path : Text) → IsToml path → extension_of path ≡ some (codes "toml")
unfolding extension_of
IsToml-extension_of path (c, stem, named) = rw (named, rsplit_dot_toml (c ∷ stem)) refl

pub IsToml-is_profile : (path : Text) → IsToml path → is_profile path ≡ true
IsToml-is_profile path t = rw (IsToml-extension_of path t) (text_eq_refl (codes "toml"))

pub is_profile-IsToml : (path : Text) → is_profile path ≡ true → IsToml path
unfolding extension_of
is_profile-IsToml path h = from (rsplit_dot (file_name path)) refl h
  where
    from :
        (parts : Option (Text × Text))
        → rsplit_dot (file_name path) ≡ parts
        → has_extension (behind_stem parts) ≡ true
        → IsToml path
    from none e k = absurd (cc)
    from (some ([], after)) e k = absurd (cc)
    from (some (c ∷ stem, after)) e k = (
      c,
      stem,
      rsplit_dot-append (file_name path) (c ∷ stem) after e
          ∙ ap (λ a. c ∷ (stem ++ (b'.' ∷ a))) (text_eq→eq after (codes "toml") k),
    )
