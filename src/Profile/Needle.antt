-- ===== src/Profile/Needle.antt =====
-- src/profile.rs, src/classify.rs: looking for a needle in the bytes of a message.
use kirb_la_snoop.Base.{
  ℕ, suc, ◌≤◌, Bool, true, false, ◌&&◌, ◌||◌, Option, none, some, [], ◌∷◌, ◌++◌, ◌≡◌, ◌≢◌, refl, ap,
  subst, Bytes, length, last, leb, ltb, ◌==◌, if◌then◌else◌, arith, Bool-cases, Option-cases, inl,
  inr, length-append,
}
use kirb_la_snoop.Base.Strings.{text_eq}
use mathlib.Core.Option

-- `hay.starts_with(needle)`
unfoldable pub starts_with : Bytes → Bytes → Bool
starts_with hay [] = true
starts_with [] (d ∷ needle) = false
starts_with (c ∷ hay) (d ∷ needle) = c == d && starts_with hay needle

-- `hay.ends_with(needle)`
unfoldable pub ends_with : Bytes → Bytes → Bool
ends_with hay needle = leb (length needle) (length hay) && text_eq (last (length needle) hay) needle

-- `hay.windows(needle.len()).position(|w| w == needle)`
unfoldable pub position : Bytes → Bytes → Option ℕ
position needle [] = none
position needle (c ∷ hay) =
    let later = Option.map suc (position needle hay) in
    if starts_with (c ∷ hay) needle then some 0 else later

-- `find`
unfoldable pub find : Bytes → Bytes → Option ℕ
unfolding position starts_with
find hay needle =
    if length needle == 0 || ltb (length hay) (length needle) then none else position needle hay

-- A needle at the front of the bytes.
pub starts_with-append : (needle rest : Bytes) → starts_with (needle ++ rest) needle ≡ true
unfolding starts_with
starts_with-append [] rest = refl
starts_with-append (c ∷ needle) rest = ground (arith, starts_with-append needle rest)

pub starts_with→append :
    (hay needle : Bytes) → starts_with hay needle ≡ true → (rest : Bytes) × (hay ≡ needle ++ rest)
unfolding starts_with
starts_with→append hay [] h = (hay, refl)
starts_with→append [] (d ∷ needle) h = absurd (cc)
starts_with→append (c ∷ hay) (d ∷ needle) h =
    let (rest, e) = starts_with→append hay needle (ground arith) in (rest, ground (arith, e))

-- The needle stands at offset `i` of the bytes.
pub record OccursAt (hay needle : Bytes) (i : ℕ) : Type 0 where
  pub before : Bytes
  pub after : Bytes
  pub splits : hay ≡ before ++ (needle ++ after)
  pub offset : length before ≡ i

OccursAt-suc :
    (c : ℕ) (hay needle : Bytes) (i : ℕ) → OccursAt hay needle i → OccursAt (c ∷ hay) needle (suc i)
OccursAt-suc c hay needle i o = record {
  before = c ∷ o.before;
  after = o.after;
  splits = ap (◌∷◌ c) o.splits;
  offset = ap suc o.offset;
}

position-OccursAt :
    (hay needle : Bytes) (i : ℕ) → position needle hay ≡ some i → OccursAt hay needle i
unfolding position
position-OccursAt [] needle i h = absurd (cc)
position-OccursAt (c ∷ hay) needle i h = elim (Bool-cases (starts_with (c ∷ hay) needle)) [
  | inl here ↦
      let (rest, e) = starts_with→append (c ∷ hay) needle here in
      record { before = []; after = rest; splits = e; offset = ground (arith, here) }
  | inr not_here ↦ elim (Option-cases (position needle hay)) [
    | inl nowhere ↦ absurd (ground (arith, not_here, nowhere))
    | inr (j, there) ↦
        subst (OccursAt (c ∷ hay) needle) (ground (arith, not_here, there))
          (OccursAt-suc c hay needle j (position-OccursAt hay needle j there))
  ]
]

position-le :
    (before needle after : Bytes)
    → needle ≢ []
    → (i : ℕ) × (position needle (before ++ (needle ++ after)) ≡ some i) × (i ≤ length before)
unfolding position
position-le [] [] after ne = absurd (ne refl)
position-le [] (d ∷ needle) after ne =
    (0, rw (starts_with-append (d ∷ needle) after) refl, omega arith)
position-le (c ∷ before) needle after ne =
    let (j, later, le) = position-le before needle after ne in
    elim (Bool-cases (starts_with (c ∷ (before ++ (needle ++ after))) needle)) [
      | inl here ↦ (0, rw here refl, omega arith)
      | inr not_here ↦ (suc j, rw not_here (ap (Option.map suc) later), omega arith)
    ]

-- What `find` returns is an offset at which the needle stands.
pub find-OccursAt : (hay needle : Bytes) (i : ℕ) → find hay needle ≡ some i → OccursAt hay needle i
find-OccursAt hay needle i h = position-OccursAt hay needle i (unfold find in ground arith)

-- A needle that is not empty is found wherever it stands, at its first offset.
pub find_first :
    (before needle after : Bytes)
    → needle ≢ []
    → (i : ℕ) × (find (before ++ (needle ++ after)) needle ≡ some i)
      × OccursAt (before ++ (needle ++ after)) needle i
      × (i ≤ length before)
unfolding find
find_first before [] after ne = absurd (ne refl)
find_first before (d ∷ needle) after ne =
    let (i, found, le) = position-le before (d ∷ needle) after ne in
    (
      i,
      ground (arith, found, length-append before (d ∷ needle ++ after), length-append needle after),
      position-OccursAt (before ++ (d ∷ needle ++ after)) (d ∷ needle) i found,
      le,
    )
