-- ===== src/Main/Profiles.antt =====
-- src/main.rs: the loop that loads the profiles.
use kirb_la_snoop.Base.{
  true, false, Option, none, some, List, [], ◌∷◌, ◌≡◌, refl, sym, ap, subst, ◌∙◌, Text, All, ok,
  and_then-eq-ok, Bool-cases, Option-cases, inl, inr,
}
use kirb_la_snoop.Base.Strings.{text_eq, text_eq→eq, text_eq_refl}
use kirb_la_snoop.Config.{Listener}
use kirb_la_snoop.Profile.{Compiled}
use kirb_la_snoop.Profile.Load.{Reader}
use kirb_la_snoop.Main.{
  Table, lookup_profile, load_profile, add_missing, add_profile, load_profiles, or_default,
}

-- Each profile of the table is the one that its name resolves to and loads.
abbrev pub IsSound : Reader → Text → Table → Type 0
IsSound r dir table =
    (spec : Text) (c : Compiled)
    → lookup_profile spec table ≡ some c
    → load_profile r dir spec ≡ ok c

-- No name stands twice, so no profile is loaded twice.
abbrev pub IsDistinct : Table → Type 0
IsDistinct [] = Unit
IsDistinct ((spec, c) ∷ table) = (lookup_profile spec table ≡ none) × IsDistinct table

-- What loading does to the table.
record Grows (r : Reader) (dir : Text) (table table' : Table) : Type 0 where
  keeps :
      (spec : Text) (c : Compiled)
      → lookup_profile spec table ≡ some c
      → lookup_profile spec table' ≡ some c
  keeps_sound : IsSound r dir table → IsSound r dir table'
  keeps_distinct : IsDistinct table → IsDistinct table'

Grows-refl : (r : Reader) (dir : Text) (table : Table) → Grows r dir table table
Grows-refl r dir table = record {
  keeps = λ spec c h. h;
  keeps_sound = λ s. s;
  keeps_distinct = λ d. d;
}

Grows-trans :
    (r : Reader) (dir : Text) (s t u : Table) → Grows r dir s t → Grows r dir t u → Grows r dir s u
Grows-trans r dir s t u g h = record {
  keeps = λ spec c e. h.keeps spec c (g.keeps spec c e);
  keeps_sound = λ k. h.keeps_sound (g.keeps_sound k);
  keeps_distinct = λ k. h.keeps_distinct (g.keeps_distinct k);
}

lookup_profile_other :
    (spec spec' : Text) (c : Compiled) (table : Table)
    → text_eq spec spec' ≡ false
    → lookup_profile spec' ((spec, c) ∷ table) ≡ lookup_profile spec' table
unfolding lookup_profile
lookup_profile_other spec spec' c table other = rw other refl

lookup_profile_same :
    (spec spec' : Text) (c : Compiled) (table : Table)
    → text_eq spec spec' ≡ true
    → lookup_profile spec' ((spec, c) ∷ table) ≡ some c
unfolding lookup_profile
lookup_profile_same spec spec' c table same = rw same refl

cons-Grows :
    (r : Reader) (dir spec : Text) (c : Compiled) (table : Table)
    → lookup_profile spec table ≡ none
    → load_profile r dir spec ≡ ok c
    → Grows r dir table ((spec, c) ∷ table)
cons-Grows r dir spec c table absent loaded = record {
  keeps = λ spec' c' h. elim (Bool-cases (text_eq spec spec')) [
    | inl same ↦
        let e : lookup_profile spec' table ≡ none =
          ap (λ s. lookup_profile s table) (sym (text_eq→eq spec spec' same)) ∙ absent in
        absurd (cc)
    | inr other ↦ lookup_profile_other spec spec' c table other ∙ h
  ];
  keeps_sound = λ sound spec' c' h. elim (Bool-cases (text_eq spec spec')) [
    | inl same ↦
        let ec : some c ≡ some c' = sym (lookup_profile_same spec spec' c table same) ∙ h in
        ap (load_profile r dir) (sym (text_eq→eq spec spec' same)) ∙ loaded ∙ cc
    | inr other ↦ sound spec' c' (sym (lookup_profile_other spec spec' c table other) ∙ h)
  ];
  keeps_distinct = λ d. (absent, d);
}

-- The name that a listener asks for is in the table.
abbrev pub Served : Table → Option Text → Type 0
Served table none = Unit
Served table (some spec) = (c : Compiled) × (lookup_profile spec table ≡ some c)

Served-keeps :
    (r : Reader) (dir : Text) (table table' : Table) (o : Option Text)
    → Grows r dir table table'
    → Served table o
    → Served table' o
Served-keeps r dir table table' none g s = tt
Served-keeps r dir table table' (some spec) g (c, e) = (c, g.keeps spec c e)

add_profile-Grows :
    (r : Reader) (dir : Text) (table table' : Table) (o : Option Text)
    → add_profile r dir table o ≡ ok table'
    → Grows r dir table table' × Served table' o
add_profile-Grows r dir table table' none h =
    let same : table ≡ table' = cc in (subst (Grows r dir table) same (Grows-refl r dir table), tt)
add_profile-Grows r dir table table' (some spec) h =
    elim (Option-cases (lookup_profile spec table)) [
      | inl absent ↦
          let missing : add_missing r dir table spec none ≡ ok table' =
            ap (add_missing r dir table spec) (sym absent) ∙ h in
          let (c, h', loaded) = and_then-eq-ok (load_profile r dir spec) _ missing in
          let same : (spec, c) ∷ table ≡ table' = cc in
          (
            subst (Grows r dir table) same (cons-Grows r dir spec c table absent loaded),
            subst (λ t. Served t (some spec)) same
                (c, lookup_profile_same spec spec c table (text_eq_refl spec)),
          )
      | inr (c, present) ↦
          let same' : add_missing r dir table spec (some c) ≡ ok table' =
            ap (add_missing r dir table spec) (sym present) ∙ h in
          let same : table ≡ table' = cc in
          (
            subst (Grows r dir table) same (Grows-refl r dir table),
            subst (λ t. Served t (some spec)) same (c, present),
          )
    ]

loop-Grows :
    (r : Reader) (dir : Text) (d : Option Text) (table table' : Table) (ls : List Listener)
    → load_profiles r dir d table ls ≡ ok table'
    → Grows r dir table table' × All (λ l. Served table' (or_default l.profile d)) ls
unfolding load_profiles
loop-Grows r dir d table table' [] h =
    let same : table ≡ table' = cc in (subst (Grows r dir table) same (Grows-refl r dir table), tt)
loop-Grows r dir d table table' (l ∷ ls) h =
    let o = or_default l.profile d in
    let (mid, rest, first) = and_then-eq-ok (add_profile r dir table o) _ h in
    let (g, served) = add_profile-Grows r dir table mid o first in
    let (g', all) = loop-Grows r dir d mid table' ls rest in
    (Grows-trans r dir table mid table' g g', (Served-keeps r dir mid table' o g' served, all))

-- What the table is after the loop.
pub record Ready (r : Reader) (dir : Text) (d : Option Text) (table : Table) (ls : List Listener)
    : Type 0 where
  pub is_sound : IsSound r dir table
  pub is_distinct : IsDistinct table
  pub all_served : All (λ l. Served table (or_default l.profile d)) ls

nothing_there : (r : Reader) (dir : Text) → IsSound r dir []
unfolding lookup_profile
nothing_there r dir spec c e = absurd (cc)

-- Where the loading of the profiles succeeds, every listener that asks for a profile, or has the
-- default one, finds it in the table; what stands there under a name is what the name resolves to
-- and loads, and no name stands there twice.
pub load_profiles-Ready :
    (r : Reader) (dir : Text) (d : Option Text) (table : Table) (ls : List Listener)
    → load_profiles r dir d [] ls ≡ ok table
    → Ready r dir d table ls
load_profiles-Ready r dir d table ls h =
    let (g, all) = loop-Grows r dir d [] table ls h in
    record {
      is_sound = g.keeps_sound (nothing_there r dir);
      is_distinct = g.keeps_distinct tt;
      all_served = all;
    }
