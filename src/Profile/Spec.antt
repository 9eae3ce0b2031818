-- ===== src/Profile/Spec.antt =====
-- src/profile.rs: what a matcher means, and that `matches` decides it.
use kirb_la_snoop.Base.{
  ℕ, ◌-◌, ◌≤◌, Bool, true, false, not, ◌&&◌, ◌||◌, Option, none, some, [], ◌++◌, ◌≡◌, ◌≢◌, ◌↔◌,
  refl, sym, ap, ◌∙◌, subst, Bytes, Text, length, take, take-append-drop, drop-length-append,
  length-append, last, ltb, ◌==◌, is_some, arith, Option-cases, inl, inr, ok, err, Result, drop_eq,
}
use kirb_la_snoop.Base.Strings.{text_eq, text_eq→eq, text_eq_refl}
use kirb_la_snoop.Base.Utf8.{as_bytes}
use kirb_la_snoop.Profile.{Match, rejects, fold, rejected, hex_outcome, hex_field, matches}
use kirb_la_snoop.Profile.Hex.{HexError, odd_digits, bad_byte, not_char_boundary, parse_hex}
use kirb_la_snoop.Profile.Needle
use kirb_la_snoop.Profile.Needle.{starts_with-append, starts_with→append, find-OccursAt, find_first}

-- A field that is present holds.
abbrev pub Holds {ℓ κ} : {A : Type ℓ} → Option A → (A → Type κ) → Type κ
Holds none P = Unit
Holds (some x) P = P x

abbrev pub Begins : Bytes → Bytes → Type 0
Begins hay needle = (rest : Bytes) × (hay ≡ needle ++ rest)

abbrev pub Ends : Bytes → Bytes → Type 0
Ends hay needle = (front : Bytes) × (hay ≡ front ++ needle)

-- A needle with no bytes is contained in nothing.
abbrev pub Contains : Bytes → Bytes → Type 0
Contains hay needle =
    (needle ≢ []) × ((before : Bytes) × (after : Bytes) × (hay ≡ before ++ (needle ++ after)))

-- The bytes that hex text stands for, with a property.
abbrev pub HexHolds : (Bytes → Type 0) → Text → Type 0
HexHolds P h = (needle : Bytes) × (parse_hex h ≡ ok needle) × P needle

-- A message meets a matcher: every field that is present holds.
pub record Meets (m : Match) (chunk : Bytes) (first : Bool) : Type 0 where
  pub any : Holds m.any (λ b. b ≡ true)
  pub first_only : Holds m.first_only (λ b. b ≡ true → first ≡ true)
  pub len : Holds m.len (λ n. length chunk ≡ n)
  pub min_len : Holds m.min_len (λ n. n ≤ length chunk)
  pub max_len : Holds m.max_len (λ n. length chunk ≤ n)
  pub starts : Holds m.starts_with (λ s. Begins (fold m chunk) (fold m (as_bytes s)))
  pub ends : Holds m.ends_with (λ s. Ends (fold m chunk) (fold m (as_bytes s)))
  pub contains : Holds m.contains (λ s. Contains (fold m chunk) (fold m (as_bytes s)))
  pub prefix_hex : Holds m.prefix_hex (HexHolds (Begins chunk))
  pub contains_hex : Holds m.contains_hex (HexHolds (Contains chunk))

rejects_iff {ℓ κ} :
    {A : Type ℓ} (field : Option A) (test : A → Bool) (P : A → Type κ)
    → ((x : A) → (test x ≡ false) ↔ P x)
    → (rejects field test ≡ false) ↔ Holds field P
rejects_iff none test P decides = (λ _. tt, λ _. refl)
rejects_iff (some x) test P decides = decides x

starts_with_iff :
    (hay needle : Bytes) → (not (Needle.starts_with hay needle) ≡ false) ↔ Begins hay needle
starts_with_iff hay needle = (
  λ h. starts_with→append hay needle (ground (arith, h)),
  λ b. rw (b.1) (ap not (starts_with-append needle b.0)),
)

starts_with_true : (hay needle : Bytes) → (Needle.starts_with hay needle ≡ true) ↔ Begins hay needle
starts_with_true hay needle =
    (starts_with→append hay needle, λ b. rw (b.1) (starts_with-append needle b.0))

ends_with→append : (hay needle : Bytes) → Needle.ends_with hay needle ≡ true → Ends hay needle
unfolding Needle.ends_with
ends_with→append hay needle h =
    let tail = text_eq→eq (last (length needle) hay) needle (ground arith) in
    (
      take (length hay - length needle) hay,
      sym (take-append-drop (length hay - length needle) hay)
          ∙ ap (λ t. take (length hay - length needle) hay ++ t) tail,
    )

ends_with-append : (front needle : Bytes) → Needle.ends_with (front ++ needle) needle ≡ true
unfolding Needle.ends_with
ends_with-append front needle =
    let tail : last (length needle) (front ++ needle) ≡ needle =
      drop_eq (front ++ needle) (omega (arith, length-append front needle))
      ∙ drop-length-append front needle in
    let same : text_eq (last (length needle) (front ++ needle)) needle ≡ true =
      rw tail (text_eq_refl needle) in
    ground (arith, same, length-append front needle)

ends_with_iff : (hay needle : Bytes) → (not (Needle.ends_with hay needle) ≡ false) ↔ Ends hay needle
ends_with_iff hay needle = (
  λ h. ends_with→append hay needle (ground (arith, h)),
  λ b. rw (b.1) (ap not (ends_with-append b.0 needle)),
)

found-ne-nil : (hay needle : Bytes) (i : ℕ) → Needle.find hay needle ≡ some i → needle ≢ []
unfolding Needle.find
found-ne-nil hay needle i found empty = ground (arith, found, empty)

find→Contains : (hay needle : Bytes) → is_some (Needle.find hay needle) ≡ true → Contains hay needle
find→Contains hay needle h = elim (Option-cases (Needle.find hay needle)) [
  | inl nowhere ↦ absurd (ground (arith, h, nowhere))
  | inr (i, found) ↦
      let o = find-OccursAt hay needle i found in
      (found-ne-nil hay needle i found, (o.before, o.after, o.splits))
]

Contains→find : (hay needle : Bytes) → Contains hay needle → is_some (Needle.find hay needle) ≡ true
Contains→find hay needle (ne, (before, after, splits)) =
    let (i, found, at, le) = find_first before needle after ne in rw (splits, found) refl

find_iff :
    (hay needle : Bytes) → (not (is_some (Needle.find hay needle)) ≡ false) ↔ Contains hay needle
find_iff hay needle =
    (λ h. find→Contains hay needle (ground (arith, h)), λ c. ap not (Contains→find hay needle c))

hex_outcome_iff :
    (r : Result HexError Bytes) (test : Bytes → Bool) (P : Bytes → Type 0)
    → ((needle : Bytes) → (test needle ≡ true) ↔ P needle)
    → (hex_outcome r test ≡ some true) ↔ ((needle : Bytes) × (r ≡ ok needle) × P needle)
hex_outcome_iff (ok needle) test P decides = (
  λ h. (needle, refl, (decides needle).0 (ground (arith, h))),
  λ p.
      let same : needle ≡ p.0 = ground (arith, p.1) in
      ap some ((decides needle).1 (subst P (sym same) p.2)),
)
hex_outcome_iff (err odd_digits) test P decides = (λ h. absurd (cc), λ p. absurd (cc (p.1)))
hex_outcome_iff (err bad_byte) test P decides = (λ h. absurd (cc), λ p. absurd (cc (p.1)))
hex_outcome_iff (err not_char_boundary) test P decides = (λ h. absurd (cc), λ p. absurd (cc (p.1)))

hex_field_iff :
    (field : Option Text) (test : Bytes → Bool) (P : Bytes → Type 0)
    → ((needle : Bytes) → (test needle ≡ true) ↔ P needle)
    → (hex_field field test ≡ some true) ↔ Holds field (HexHolds P)
hex_field_iff none test P decides = (λ _. tt, λ _. refl)
hex_field_iff (some h) test P decides = hex_outcome_iff (parse_hex h) test P decides

any_iff : (b : Bool) → (not b ≡ false) ↔ (b ≡ true)
any_iff b = ground arith

first_only_iff : (first only : Bool) → ((only && not first) ≡ false) ↔ (only ≡ true → first ≡ true)
first_only_iff first true = ground arith
first_only_iff first false = (λ h e. absurd (cc), λ h. refl)

len_iff : (len n : ℕ) → (not (len == n) ≡ false) ↔ (len ≡ n)
len_iff len n = ground arith

lt_iff : (a b : ℕ) → (ltb a b ≡ false) ↔ (b ≤ a)
lt_iff a b = ground arith

or_iff {ℓ κ} :
    {P : Type ℓ} {Q : Type κ} {a b : Bool}
    → (a ≡ false) ↔ P
    → (b ≡ false) ↔ Q
    → ((a || b) ≡ false) ↔ (P × Q)
or_iff {a = true} p q = (λ h. absurd (cc), λ pq. absurd (cc (p.1 pq.0)))
or_iff {a = false} p q = (λ h. (p.0 refl, q.0 h), λ pq. q.1 pq.1)

-- The fields that cannot panic.
abbrev PlainHolds : Match → Bytes → Bool → Type 0
PlainHolds m chunk first =
    ((((((Holds m.any (λ b. b ≡ true) × Holds m.first_only (λ b. b ≡ true → first ≡ true))
              × Holds m.len (λ n. length chunk ≡ n))
            × Holds m.min_len (λ n. n ≤ length chunk))
          × Holds m.max_len (λ n. length chunk ≤ n))
        × Holds m.starts_with (λ s. Begins (fold m chunk) (fold m (as_bytes s))))
      × Holds m.ends_with (λ s. Ends (fold m chunk) (fold m (as_bytes s))))
    × Holds m.contains (λ s. Contains (fold m chunk) (fold m (as_bytes s)))

rejected_iff :
    (m : Match) (chunk : Bytes) (first : Bool)
    → (rejected m chunk first ≡ false) ↔ PlainHolds m chunk first
unfolding rejected
rejected_iff m chunk first =
    let hay = fold m chunk in
    let t_any = rejects_iff m.any not _ any_iff in
    let t_first = rejects_iff m.first_only (λ only. only && not first) _ (first_only_iff first) in
    let t_len = rejects_iff m.len (λ n. not (length chunk == n)) _ (len_iff (length chunk)) in
    let t_min = rejects_iff m.min_len (λ n. ltb (length chunk) n) _ (lt_iff (length chunk)) in
    let t_max =
      rejects_iff m.max_len (λ n. ltb n (length chunk)) _ (λ n. lt_iff n (length chunk)) in
    let t_starts =
      rejects_iff m.starts_with (λ s. not (Needle.starts_with hay (fold m (as_bytes s)))) _
        (λ s. starts_with_iff hay (fold m (as_bytes s))) in
    let t_ends =
      rejects_iff m.ends_with (λ s. not (Needle.ends_with hay (fold m (as_bytes s)))) _
        (λ s. ends_with_iff hay (fold m (as_bytes s))) in
    let t_contains =
      rejects_iff m.contains (λ s. not (is_some (Needle.find hay (fold m (as_bytes s))))) _
        (λ s. find_iff hay (fold m (as_bytes s))) in
    or_iff
      (or_iff (or_iff (or_iff (or_iff (or_iff (or_iff t_any t_first) t_len) t_min) t_max) t_starts)
        t_ends)
      t_contains

-- The chain of `matches`, from the verdicts of its parts.
matches_parts :
    (m : Match) (chunk : Bytes) (first : Bool)
    → (matches m chunk first ≡ some true) ↔ (
        (rejected m chunk first ≡ false)
        × (hex_field m.prefix_hex (λ needle. Needle.starts_with chunk needle) ≡ some true)
        × (hex_field m.contains_hex (λ needle. is_some (Needle.find chunk needle)) ≡ some true))
unfolding matches
matches_parts m chunk first = ground arith

-- `matches` says yes exactly when the message meets the matcher.
pub matches_iff :
    (m : Match) (chunk : Bytes) (first : Bool)
    → (matches m chunk first ≡ some true) ↔ Meets m chunk first
matches_iff m chunk first =
    let plain = rejected_iff m chunk first in
    let prefixed =
      hex_field_iff m.prefix_hex (λ needle. Needle.starts_with chunk needle) (Begins chunk)
        (starts_with_true chunk) in
    let contained =
      hex_field_iff m.contains_hex (λ needle. is_some (Needle.find chunk needle)) (Contains chunk)
        (λ needle. (find→Contains chunk needle, Contains→find chunk needle)) in
    (
      λ h.
          let (a, b, c) = (matches_parts m chunk first).0 h in
          let p = plain.0 a in
          record {
            any = p.0.0.0.0.0.0.0;
            first_only = p.0.0.0.0.0.0.1;
            len = p.0.0.0.0.0.1;
            min_len = p.0.0.0.0.1;
            max_len = p.0.0.0.1;
            starts = p.0.0.1;
            ends = p.0.1;
            contains = p.1;
            prefix_hex = prefixed.0 b;
            contains_hex = contained.0 c;
          },
      λ q. (matches_parts m chunk first).1 (
        plain.1 (
          ((((((q.any, q.first_only), q.len), q.min_len), q.max_len), q.starts), q.ends),
          q.contains,
        ),
        prefixed.1 q.prefix_hex,
        contained.1 q.contains_hex,
      ),
    )
