-- ===== src/Main/Listing/Found.antt =====
-- src/main.rs: what the loop of `list_profiles` finds, and when `load` panics in it.
use kirb_la_snoop.Base.{
  ◌⊎◌, true, false, List, [], ◌∷◌, ◌++◌, ◌≡◌, refl, sym, ap, ◌∙◌, Text, length, Result, ok, err,
  Bool-cases, inl, inr,
}
use kirb_la_snoop.Profile.{Compiled}
use kirb_la_snoop.Profile.Load.{
  Reader, LoadError, load, escape_error, hex_error, reading_file, capacity_overflow, bad_a,
  bad_aaaa, reading_profile, parsing_profile, not_found,
}
use kirb_la_snoop.Profile.Hex.{odd_digits, bad_byte, not_char_boundary}
use kirb_la_snoop.Main.Listing.{
  Entry, ListError, reading_dir, panics, is_profile, is_panic, found_onto, found_in,
}
use kirb_la_snoop.Main.Listing.Order.{IsToml, IsToml-is_profile, is_profile-IsToml}

-- The two ways in which `load` panics: a payload that is too long, and hex text that is cut inside
-- a character.
abbrev pub IsPanic : LoadError → Type 0
IsPanic e = (e ≡ capacity_overflow) ⊎ (e ≡ hex_error not_char_boundary)

-- The entries of the files of a directory, in its order: one for each `.toml` file that loads; one
-- that does not load is skipped.
pub data Loaded (r : Reader) : List Text → List Entry → Type 0 where
  nothing : Loaded r [] []
  other :
      {path : Text} {paths : List Text} {es : List Entry}
      → ¬ IsToml path
      → Loaded r paths es
      → Loaded r (path ∷ paths) es
  skipped :
      {path : Text} {paths : List Text} {es : List Entry} (e : LoadError)
      → IsToml path
      → load r path ≡ err e
      → ¬ IsPanic e
      → Loaded r paths es
      → Loaded r (path ∷ paths) es
  listed :
      {path : Text} {paths : List Text} {es : List Entry} (c : Compiled)
      → IsToml path
      → load r path ≡ ok c
      → Loaded r paths es
      → Loaded r
          (path ∷ paths)
          (record { name = c.name; description = c.description; rules = length c.rules } ∷ es)

-- The first file at which `load` panics.
pub record Panicked (r : Reader) (paths : List Text) (e : LoadError) : Type 0 where
  pub before : List Text
  pub path : Text
  pub after : List Text
  pub earlier : List Entry
  pub splits : paths ≡ before ++ (path ∷ after)
  pub loaded_before : Loaded r before earlier
  pub is_toml : IsToml path
  pub fails : load r path ≡ err e
  pub is_a_panic : IsPanic e

abbrev pub FoundAs : Reader → List Text → Result ListError (List Entry) → Type 0
FoundAs r paths (ok es) = Loaded r paths es
FoundAs r paths (err (reading_dir dir)) = ⊥
FoundAs r paths (err (panics e)) = Panicked r paths e

is_panic-IsPanic : (e : LoadError) → is_panic e ≡ true → IsPanic e
is_panic-IsPanic capacity_overflow h = inl refl
is_panic-IsPanic (hex_error not_char_boundary) h = inr refl
is_panic-IsPanic (hex_error odd_digits) h = absurd (cc)
is_panic-IsPanic (hex_error bad_byte) h = absurd (cc)
is_panic-IsPanic (escape_error e) h = absurd (cc)
is_panic-IsPanic (reading_file p) h = absurd (cc)
is_panic-IsPanic (bad_a t) h = absurd (cc)
is_panic-IsPanic (bad_aaaa t) h = absurd (cc)
is_panic-IsPanic (reading_profile p) h = absurd (cc)
is_panic-IsPanic (parsing_profile p) h = absurd (cc)
is_panic-IsPanic (not_found t) h = absurd (cc)

not-IsPanic : (e : LoadError) → is_panic e ≡ false → ¬ IsPanic e
not-IsPanic e h (inl over) = let clash : true ≡ false = sym (ap is_panic over) ∙ h in absurd (cc)
not-IsPanic e h (inr cut) = let clash : true ≡ false = sym (ap is_panic cut) ∙ h in absurd (cc)

-- A panic behind a file is the panic of the loop.
behind_file :
    (r : Reader) (path : Text) (paths : List Text) (e : LoadError)
    → ((qs : List Text) (es : List Entry)
        → Loaded r qs es
        → (es' : List Entry) × Loaded r (path ∷ qs) es')
    → Panicked r paths e
    → Panicked r (path ∷ paths) e
behind_file r path paths e next p =
    let (es, loaded) = next p.before p.earlier p.loaded_before in
    record {
      before = path ∷ p.before;
      path = p.path;
      after = p.after;
      earlier = es;
      splits = ap (◌∷◌ path) p.splits;
      loaded_before = loaded;
      is_toml = p.is_toml;
      fails = p.fails;
      is_a_panic = p.is_a_panic;
    }

other-FoundAs :
    (r : Reader) (path : Text) (paths : List Text) (found : Result ListError (List Entry))
    → ¬ IsToml path
    → FoundAs r paths found
    → FoundAs r (path ∷ paths) found
other-FoundAs r path paths (ok es) alien f = other alien f
other-FoundAs r path paths (err (reading_dir d)) alien f = elim f [ ]
other-FoundAs r path paths (err (panics e)) alien f =
    behind_file r path paths e (λ qs es l. (es, other alien l)) f

skipped-FoundAs :
    (r : Reader) (path : Text) (paths : List Text) (found : Result ListError (List Entry))
    (e : LoadError)
    → IsToml path
    → load r path ≡ err e
    → ¬ IsPanic e
    → FoundAs r paths found
    → FoundAs r (path ∷ paths) found
skipped-FoundAs r path paths (ok es) e toml fails calm f = skipped e toml fails calm f
skipped-FoundAs r path paths (err (reading_dir d)) e toml fails calm f = elim f [ ]
skipped-FoundAs r path paths (err (panics p)) e toml fails calm f =
    behind_file r path paths p (λ qs es l. (es, skipped e toml fails calm l)) f

listed-FoundAs :
    (r : Reader) (path : Text) (paths : List Text) (found : Result ListError (List Entry))
    (c : Compiled)
    → IsToml path
    → load r path ≡ ok c
    → FoundAs r paths found
    → FoundAs r (path ∷ paths) (found_onto (ok c) found)
listed-FoundAs r path paths (ok es) c toml loads f = listed c toml loads f
listed-FoundAs r path paths (err (reading_dir d)) c toml loads f = elim f [ ]
listed-FoundAs r path paths (err (panics p)) c toml loads f =
    behind_file r path paths p (λ qs es l. (_, listed c toml loads l)) f

toml-FoundAs :
    (r : Reader) (path : Text) (paths : List Text) (found : Result ListError (List Entry))
    (loaded : Result LoadError Compiled)
    → IsToml path
    → load r path ≡ loaded
    → FoundAs r paths found
    → FoundAs r (path ∷ paths) (found_onto loaded found)
toml-FoundAs r path paths found (ok c) toml loads f =
    listed-FoundAs r path paths found c toml loads f
toml-FoundAs r path paths found (err e) toml fails f = elim (Bool-cases (is_panic e)) [
  | inl panic ↦ rw panic (record {
    before = [];
    path = path;
    after = paths;
    earlier = [];
    splits = refl;
    loaded_before = nothing;
    is_toml = toml;
    fails = fails;
    is_a_panic = is_panic-IsPanic e panic;
  })
  | inr calm ↦ rw calm (skipped-FoundAs r path paths found e toml fails (not-IsPanic e calm) f)
]

pub found_in-FoundAs : (r : Reader) (paths : List Text) → FoundAs r paths (found_in r paths)
unfolding found_in
found_in-FoundAs r [] = nothing
found_in-FoundAs r (path ∷ paths) = elim (Bool-cases (is_profile path)) [
  | inl yes_toml ↦ rw yes_toml (
      toml-FoundAs r path paths (found_in r paths) (load r path) (is_profile-IsToml path yes_toml)
        refl (found_in-FoundAs r paths))
  | inr no_toml ↦ rw no_toml (
      other-FoundAs r path paths (found_in r paths)
        (λ t. let clash : true ≡ false = sym (IsToml-is_profile path t) ∙ no_toml in absurd (cc))
        (found_in-FoundAs r paths))
]
