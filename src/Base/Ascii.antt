-- ===== src/Base/Ascii.antt =====
-- `str::from_utf8`: an ASCII character stands for the byte that it was read from.
use Prim.Native.Nat.{ℕ, ◌+◌, ◌-◌, ◌*◌, ◌≤◌, ◌<◌}
use mathlib.Core.Path.{◌≡◌, refl, sym, ap, subst, ◌∙◌}
use mathlib.Core.Bool.{false, ◌&&◌}
use mathlib.Core.List.{[], ◌∷◌, ◌++◌}
use mathlib.Core.Option.{Option, none, some}
use mathlib.Core.Option
use mathlib.Core.Logic.{inl, inr}
use native.Mathlib.Omega.{arith}
use kirb_la_snoop.Base.Logic.{ltb, leb, ◌==◌, Bool-cases}
use kirb_la_snoop.Base.Words.{Bytes, Text}
use kirb_la_snoop.Base.Lossy.{Inside, between, inside, first_byte, starts_char, strict_from}

-- A decoder inside a character that will not be ASCII.
abbrev IsWide : Inside → Type 0
IsWide between = ⊥
IsWide (inside left bits lo hi) =
    (0x80 ≤ lo) × ((left ≡ 1 → 2 ≤ bits) × (¬ (left ≡ 1) → 2 ≤ bits * 64 + (lo - 0x80)))

-- What is decoded does not start with ASCII.
abbrev NotAscii : Option Text → Type 0
NotAscii none = Unit
NotAscii (some []) = Unit
NotAscii (some (x ∷ t)) = 0x80 ≤ x

map-NotAscii : (x : ℕ) (o : Option Text) → 0x80 ≤ x → NotAscii (Option.map (◌++◌ (x ∷ [])) o)
map-NotAscii x none h = tt
map-NotAscii x (some t) h = h

map_nil-NotAscii : (o : Option Text) → NotAscii o → NotAscii (Option.map (◌++◌ []) o)
map_nil-NotAscii none h = tt
map_nil-NotAscii (some t) h = h

inside-NotAscii :
    (bs : Bytes) (left bits lo hi : ℕ)
    → IsWide (inside left bits lo hi)
    → NotAscii (strict_from (inside left bits lo hi) bs)
unfolding strict_from
inside-NotAscii [] left bits lo hi w = tt
inside-NotAscii (b ∷ bs) left bits lo hi w = elim (Bool-cases (leb lo b && leb b hi)) [
  | inr out ↦ rw out tt
  | inl fits ↦ elim (Bool-cases (left == 1)) [
    | inl last ↦
        rw (fits, last)
          (map-NotAscii (bits * 64 + (b - 0x80)) (strict_from between bs)
            (let wide = w.1.0 (ground (arith, last)) in omega (arith, wide)))
    | inr more ↦
        rw (fits, more)
          (let wide = w.1.1 (λ e. ground (arith, more, e)) in
            let at_least : lo ≤ b = ground (arith, fits) in
            map_nil-NotAscii _ (
              inside-NotAscii bs (left - 1) (bits * 64 + (b - 0x80)) 0x80 0xbf (
                omega arith,
                (λ e. omega (arith, wide, at_least, w.0), λ e. omega (arith, wide, at_least, w.0)),
              )))
  ]
]

first_byte-IsWide :
    (b : ℕ) → 0xc2 ≤ b → b ≤ 0xf4 → (i : Inside) × (first_byte b ≡ ([], i)) × IsWide i
first_byte-IsWide b h k = elim (Bool-cases (ltb b 0xe0)) [
  | inl two ↦ (
    inside 1 (b - 0xc0) 0x80 0xbf,
    ground (arith, h, two),
    (omega arith, (λ e. omega (arith, h), λ e. absurd (e refl))),
  )
  | inr t1 ↦ elim (Bool-cases (b == 0xe0)) [
    | inl e0 ↦ (
      inside 2 0 0xa0 0xbf,
      ground (arith, h, t1, e0),
      (omega arith, (λ e. omega (arith, e), λ e. omega arith)),
    )
    | inr t2 ↦ elim (Bool-cases (b == 0xed)) [
      | inl ed ↦ (
        inside 2 13 0x80 0x9f,
        ground (arith, h, t1, t2, ed),
        (omega arith, (λ e. omega (arith, e), λ e. omega arith)),
      )
      | inr t3 ↦ elim (Bool-cases (ltb b 0xf0)) [
        | inl three ↦
            let above : 0xe1 ≤ b = ground (arith, t1, t2) in
            (
              inside 2 (b - 0xe0) 0x80 0xbf,
              ground (arith, h, t1, t2, t3, three),
              (omega arith, (λ e. omega (arith, e), λ e. omega (arith, above))),
            )
        | inr t4 ↦ elim (Bool-cases (b == 0xf0)) [
          | inl f0 ↦ (
            inside 3 0 0x90 0xbf,
            ground (arith, h, t1, t2, t3, t4, f0),
            (omega arith, (λ e. omega (arith, e), λ e. omega arith)),
          )
          | inr t5 ↦
              let above : 0xf1 ≤ b = ground (arith, t4, t5) in
              elim (Bool-cases (ltb b 0xf4)) [
                | inl four ↦ (
                  inside 3 (b - 0xf0) 0x80 0xbf,
                  ground (arith, h, t1, t2, t3, t4, t5, four),
                  (omega arith, (λ e. omega (arith, e), λ e. omega (arith, above))),
                )
                | inr t6 ↦ (
                  inside 3 4 0x80 0x8f,
                  ground (arith, h, k, t1, t2, t3, t4, t5, t6),
                  (omega arith, (λ e. omega (arith, e), λ e. omega arith)),
                )
              ]
        ]
      ]
    ]
  ]
]

after_wide :
    (i : Inside) (bs : Bytes) → IsWide i → NotAscii (Option.map (◌++◌ []) (strict_from i bs))
after_wide (inside left bits lo hi) bs w = map_nil-NotAscii _ (inside-NotAscii bs left bits lo hi w)
after_wide between bs w = absurd w

wide-NotAscii : (b : ℕ) (bs : Bytes) → 0x80 ≤ b → NotAscii (strict_from between (b ∷ bs))
unfolding strict_from
wide-NotAscii b bs h = elim (Bool-cases (starts_char b)) [
  | inr stray ↦ rw stray tt
  | inl starts ↦
      let (i, same, wide) =
        first_byte-IsWide b (ground (arith, h, starts)) (ground (arith, h, starts)) in
      rw (starts, same) (after_wide i bs wide)
]

behind_ascii :
    (b : ℕ) (o : Option Text) (x : ℕ) (t : Text)
    → Option.map (◌++◌ (b ∷ [])) o ≡ some (x ∷ t)
    → (b ≡ x) × (o ≡ some t)
behind_ascii b none x t h = absurd (cc)
behind_ascii b (some u) x t h = (cc, cc)

late_byte : (b : ℕ) → ltb b 0x80 ≡ false → 0x80 ≤ b
late_byte b h = ground (arith, h)

-- A text that starts with an ASCII character is read from bytes that start with it.
pub strict_from-ascii :
    (bs : Bytes) (x : ℕ) (t : Text)
    → strict_from between bs ≡ some (x ∷ t)
    → x < 0x80
    → (rest : Bytes) × (bs ≡ x ∷ rest) × (strict_from between rest ≡ some t)
unfolding strict_from
strict_from-ascii [] x t h small = absurd (cc)
strict_from-ascii (b ∷ bs) x t h small = elim (Bool-cases (ltb b 0x80)) [
  | inl ascii ↦
      let step : strict_from between (b ∷ bs)
          ≡ Option.map (◌++◌ (b ∷ [])) (strict_from between bs) =
        rw ascii refl in
      let (same, rest) = behind_ascii b (strict_from between bs) x t (sym step ∙ h) in
      (bs, ap (λ c. c ∷ bs) same, rest)
  | inr wide ↦
      let not_ascii : 0x80 ≤ x = subst NotAscii h (wide-NotAscii b bs (late_byte b wide)) in
      absurd (omega (arith, not_ascii, small))
]
