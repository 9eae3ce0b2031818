-- ===== src/Log/Keys.antt =====
-- src/log.rs: the map of open streams.
use kirb_la_snoop.Base.{
  true, false, Option, none, some, List, [], ◌∷◌, ◌≡◌, refl, ap, ◌∙◌, if◌then◌else◌, arith,
  Bool-cases, inl, inr,
}
use kirb_la_snoop.Stream.{Stream}
use kirb_la_snoop.Log.State.{Dir, rx, tx, Key, same_dir, same_key, lookup, insert, remove}

same_dir→eq : (d e : Dir) → same_dir d e ≡ true → d ≡ e
same_dir→eq rx rx h = refl
same_dir→eq tx tx h = refl
same_dir→eq rx tx h = absurd (cc)
same_dir→eq tx rx h = absurd (cc)

same_dir_refl : (d : Dir) → same_dir d d ≡ true
same_dir_refl rx = refl
same_dir_refl tx = refl

pub same_key→eq : (j k : Key) → same_key j k ≡ true → j ≡ k
unfolding same_key
same_key→eq (c, d) (c', d') h =
    let same_conn : c ≡ c' = ground (arith, h) in
    let same_way : same_dir d d' ≡ true = ground (arith, h) in
    ap (λ n. (n, d)) same_conn ∙ ap (λ e. (c', e)) (same_dir→eq d d' same_way)

pub same_key_refl : (k : Key) → same_key k k ≡ true
unfolding same_key
same_key_refl (c, d) = ground (arith, same_dir_refl d)

pub lookup-insert :
    (k : Key) (s : Stream) (m : List (Key × Stream)) → lookup k (insert k s m) ≡ some s
unfolding lookup insert
lookup-insert k s [] = rw (same_key_refl k) refl
lookup-insert k s ((j, t) ∷ m) = elim (Bool-cases (same_key j k)) [
  | inl same ↦ rw same (rw (same_key_refl k) refl)
  | inr other ↦ rw other (rw other (lookup-insert k s m))
]

pub lookup-insert_other :
    (j k : Key) (s : Stream) (m : List (Key × Stream))
    → same_key j k ≡ false
    → lookup k (insert j s m) ≡ lookup k m
unfolding lookup insert
lookup-insert_other j k s [] other = rw other refl
lookup-insert_other j k s ((i, t) ∷ m) other = elim (Bool-cases (same_key i j)) [
  | inl same ↦
      let not_i : same_key i k ≡ false = ap (λ x. same_key x k) (same_key→eq i j same) ∙ other in
      rw same (rw other (rw not_i refl))
  | inr differs ↦ rw differs (
      ap (λ (rest : Option Stream). if same_key i k then some t else rest)
        (lookup-insert_other j k s m other))
]

pub lookup-remove : (k : Key) (m : List (Key × Stream)) → lookup k (remove k m) ≡ none
unfolding lookup remove
lookup-remove k [] = refl
lookup-remove k ((j, t) ∷ m) = elim (Bool-cases (same_key j k)) [
  | inl same ↦ rw same (lookup-remove k m)
  | inr other ↦ rw other (rw other (lookup-remove k m))
]

pub lookup-remove_other :
    (j k : Key) (m : List (Key × Stream))
    → same_key j k ≡ false
    → lookup k (remove j m) ≡ lookup k m
unfolding lookup remove
lookup-remove_other j k [] other = refl
lookup-remove_other j k ((i, t) ∷ m) other = elim (Bool-cases (same_key i j)) [
  | inl same ↦
      let not_i : same_key i k ≡ false = ap (λ x. same_key x k) (same_key→eq i j same) ∙ other in
      rw same (rw not_i (lookup-remove_other j k m other))
  | inr differs ↦ rw differs (
      ap (λ (rest : Option Stream). if same_key i k then some t else rest)
        (lookup-remove_other j k m other))
]
