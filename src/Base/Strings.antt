-- ===== src/Base/Strings.antt =====
-- The parts of `str` and `char` that the program uses, over the code points of a text.
use Prim.Native.Nat.{ℕ, ◌+◌}
use mathlib.Core.Path.{◌≡◌, refl, sym, ap, ap₂, subst, ◌∙◌}
use mathlib.Core.Bool.{Bool, true, false, ◌&&◌, ◌||◌}
use mathlib.Core.List.{List, [], ◌∷◌, ◌++◌, map}
use mathlib.Core.Option.{Option, none, some}
use native.Mathlib.Omega.{arith}
use kirb_la_snoop.Base.Logic.{leb, ◌==◌, if◌then◌else◌, Option-cases, Bool-cases}
use mathlib.Core.Logic.{inl, inr}
use kirb_la_snoop.Base.Lists.{All}
use kirb_la_snoop.Base.Words.{Text}

-- `char::is_whitespace`: the Unicode property White_Space.
unfoldable pub is_whitespace : ℕ → Bool
is_whitespace c =
    leb 9 c && leb c 13
    || c == 32
    || c == 0x85
    || c == 0xa0
    || c == 0x1680
    || leb 0x2000 c && leb c 0x200a
    || c == 0x2028
    || c == 0x2029
    || c == 0x202f
    || c == 0x205f
    || c == 0x3000

-- `char::is_ascii_whitespace`: space, tab, line feed, form feed, carriage return.
unfoldable pub is_ascii_whitespace : ℕ → Bool
is_ascii_whitespace c = c == 32 || c == 9 || c == 10 || c == 12 || c == 13

-- `u8::is_ascii_graphic`
abbrev pub is_ascii_graphic : ℕ → Bool
is_ascii_graphic c = leb b'!' c && leb c b'~'

-- `to_ascii_lowercase`, of a byte or a character.
unfoldable pub lowercase : ℕ → ℕ
lowercase c = if leb b'A' c && leb c b'Z' then c + 32 else c

abbrev pub to_ascii_lowercase : Text → Text
to_ascii_lowercase = map lowercase

-- `==` of texts and of byte slices.
unfoldable pub text_eq : Text → Text → Bool
text_eq [] [] = true
text_eq [] (d ∷ ds) = false
text_eq (c ∷ cs) [] = false
text_eq (c ∷ cs) (d ∷ ds) = text_eq cs ds && c == d

pub text_eq→eq : (s t : Text) → text_eq s t ≡ true → s ≡ t
unfolding text_eq
text_eq→eq [] [] h = refl
text_eq→eq [] (d ∷ ds) h = cc
text_eq→eq (c ∷ cs) [] h = cc
text_eq→eq (c ∷ cs) (d ∷ ds) h = ground (arith, text_eq→eq cs ds)

pub text_eq_refl : (s : Text) → text_eq s s ≡ true
unfolding text_eq
text_eq_refl [] = refl
text_eq_refl (c ∷ cs) = ground (arith, text_eq_refl cs)

-- `str::trim`
unfoldable pub trim_start : Text → Text
trim_start [] = []
trim_start (c ∷ cs) = let rest = trim_start cs in if is_whitespace c then rest else c ∷ cs

abbrev trim_end_onto : ℕ → Text → Text
trim_end_onto c [] = if is_whitespace c then [] else c ∷ []
trim_end_onto c (d ∷ ds) = c ∷ d ∷ ds

unfoldable pub trim_end : Text → Text
trim_end [] = []
trim_end (c ∷ cs) = trim_end_onto c (trim_end cs)

unfoldable pub trim : Text → Text
unfolding trim_start trim_end
trim t = trim_end (trim_start t)

abbrev pub IsSolid : Text → Type 0
IsSolid = All (λ c. is_whitespace c ≡ false)

trim_end_solid : (t : Text) → IsSolid t → trim_end t ≡ t
unfolding trim_end
trim_end_solid [] h = refl
trim_end_solid (c ∷ []) h = rw (h.0) refl
trim_end_solid (c ∷ d ∷ ds) h = ap (trim_end_onto c) (trim_end_solid (d ∷ ds) h.1)

pub trim_solid : (t : Text) → IsSolid t → trim t ≡ t
unfolding trim
trim_solid [] h = refl
trim_solid (c ∷ cs) h = rw (h.0) (trim_end_solid (c ∷ cs) h)

-- `text.chars().last()`, with what stands before it.
abbrev split_last_onto : ℕ → Option (Text × ℕ) → Option (Text × ℕ)
split_last_onto c none = some ([], c)
split_last_onto c (some (before, l)) = some (c ∷ before, l)

unfoldable pub split_last : Text → Option (Text × ℕ)
split_last [] = none
split_last (c ∷ cs) = split_last_onto c (split_last cs)

pub split_last-append : (t : Text) (c : ℕ) → split_last (t ++ c ∷ []) ≡ some (t, c)
unfolding split_last
split_last-append [] c = refl
split_last-append (d ∷ t) c = ap (split_last_onto d) (split_last-append t c)

-- `text.split_once(sep)`, at the first character that is `sep`.
abbrev split_once_onto : ℕ → Option (Text × Text) → Option (Text × Text)
split_once_onto c none = none
split_once_onto c (some (before, after)) = some (c ∷ before, after)

unfoldable pub split_once : ℕ → Text → Option (Text × Text)
split_once sep [] = none
split_once sep (c ∷ cs) =
    let rest = split_once_onto c (split_once sep cs) in if c == sep then some ([], cs) else rest

-- The text splits at its first separator.
pub split_once-append :
    (sep : ℕ) (before after : Text)
    → All (λ c. (c == sep) ≡ false) before
    → split_once sep (before ++ sep ∷ after) ≡ some (before, after)
unfolding split_once
split_once-append sep [] after h = ground arith
split_once-append sep (c ∷ before) after h =
    rw (h.0) (ap (split_once_onto c) (split_once-append sep before after h.1))

pub split_once-none :
    (sep : ℕ) (t : Text) → All (λ c. (c == sep) ≡ false) t → split_once sep t ≡ none
unfolding split_once
split_once-none sep [] h = refl
split_once-none sep (c ∷ t) h = rw (h.0) (ap (split_once_onto c) (split_once-none sep t h.1))

-- Where a text splits, it is the two parts with the separator between.
pub record SplitsAt (sep : ℕ) (t before after : Text) : Type 0 where
  pub joined : t ≡ before ++ sep ∷ after
  pub before_free : All (λ c. (c == sep) ≡ false) before

split_once_onto-eq-some :
    (c : ℕ) (r : Option (Text × Text)) (before after : Text)
    → split_once_onto c r ≡ some (before, after)
    → (rest : Text) × (before ≡ c ∷ rest) × (r ≡ some (rest, after))
split_once_onto-eq-some c none before after h = absurd (cc)
split_once_onto-eq-some c (some (b, a)) before after h = (b, cc, cc)

split_once_onto-eq-none : (c : ℕ) (r : Option (Text × Text)) → split_once_onto c r ≡ none → r ≡ none
split_once_onto-eq-none c none h = refl
split_once_onto-eq-none c (some (b, a)) h = absurd (cc)

pub split_once-SplitsAt :
    (sep : ℕ) (t before after : Text)
    → split_once sep t ≡ some (before, after)
    → SplitsAt sep t before after
unfolding split_once
split_once-SplitsAt sep [] before after h = absurd (cc)
split_once-SplitsAt sep (c ∷ cs) before after h = elim (Bool-cases (c == sep)) [
  | inl here ↦
      let eb : [] ≡ before = ground (arith, h, here) in
      let ea : cs ≡ after = ground (arith, h, here) in
      let es : c ≡ sep = ground (arith, here) in
      record {
        joined = ap (λ x. x ∷ cs) es ∙ ap₂ (λ b a. b ++ sep ∷ a) eb ea;
        before_free = subst (All (λ x. (x == sep) ≡ false)) eb tt;
      }
  | inr later ↦
      let (rest, eb, er) =
        split_once_onto-eq-some c (split_once sep cs) before after (ground (arith, h, later)) in
      let s = split_once-SplitsAt sep cs rest after er in
      record {
        joined = ap (◌∷◌ c) s.joined ∙ ap (λ b. b ++ sep ∷ after) (sym eb);
        before_free = subst (All (λ x. (x == sep) ≡ false)) (sym eb) (later, s.before_free);
      }
]

pub split_once-free :
    (sep : ℕ) (t : Text) → split_once sep t ≡ none → All (λ c. (c == sep) ≡ false) t
unfolding split_once
split_once-free sep [] h = tt
split_once-free sep (c ∷ cs) h = elim (Bool-cases (c == sep)) [
  | inl here ↦ absurd (ground (arith, h, here))
  | inr later ↦ (
    later,
    split_once-free sep cs
        (split_once_onto-eq-none c (split_once sep cs) (ground (arith, h, later))),
  )
]

pub split_last-All {κ} :
    (P : ℕ → Type κ) (t : Text) {before : Text} {c : ℕ}
    → All P t
    → split_last t ≡ some (before, c)
    → P c
unfolding split_last
split_last-All P [] h e = cc
split_last-All P (x ∷ xs) h e = elim (Option-cases (split_last xs)) [
  | inl last_one ↦ subst P (cc e) h.0
  | inr ((before', c'), more) ↦ split_last-All P xs {before = before'} h.1 (more ∙ cc e)
]

-- `.join(sep)`
unfoldable pub join : Text → List Text → Text
join sep [] = []
join sep (t ∷ []) = t
join sep (t ∷ u ∷ ts) = t ++ (sep ++ join sep (u ∷ ts))
