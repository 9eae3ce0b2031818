-- ===== src/Config/Refusals.antt =====
-- src/config.rs: why `parse_spec` refuses a text.
use kirb_la_snoop.Base.{
  Option, none, some, [], ◌∷◌, ◌++◌, ◌≡◌, ◌≢◌, refl, ap, subst, Text, codes, Result, ok, err,
  and_then, ok_or, arith, Bool-cases, inl, inr,
}
use kirb_la_snoop.Base.Strings.{
  to_ascii_lowercase, text_eq, split_once, split_once-free, split_once-SplitsAt,
}
use kirb_la_snoop.Config.{
  Proto, tag, Listener, SpecError, empty_profile, no_colon, unsupported_protocol, profile_of,
  split_profile, proto_of, parse_proto, parse_spec,
}
use kirb_la_snoop.Config.Spelling.{
  Lacks, Suffixed, split_profile-Suffixed, proto_of-tag, ok_or-eq-ok,
}

-- What is wrong with a text, for each error.
pub data Wrong (spec : Text) : SpecError → Type 0 where
  nothing_after_equals :
      (body : Text) → Lacks b'=' body → spec ≡ body ++ (b'=' ∷ []) → Wrong spec empty_profile
  nothing_split :
      (body : Text) {profile : Option Text}
      → Suffixed body profile spec
      → Lacks b':' body
      → Wrong spec no_colon
  other_protocol :
      (proto_text rest : Text) {profile : Option Text}
      → Suffixed (proto_text ++ (b':' ∷ rest)) profile spec
      → Lacks b':' proto_text
      → ((p : Proto) → to_ascii_lowercase proto_text ≢ tag p)
      → Wrong spec unsupported_protocol

-- An error of a chain comes from its first part, or from the rest.
and_then-err_cases {ℓ κ μ ν} :
    {E : Type ℓ} {A : Type κ} {B : Type μ} {e : E} {C : Type ν} (first : Result E A)
    (next : A → Result E B)
    → and_then first next ≡ err e
    → (first ≡ err e → C)
    → ((a : A) → first ≡ ok a → next a ≡ err e → C)
    → C
and_then-err_cases (ok a) next h at_first later = later a refl h
and_then-err_cases (err x) next h at_first later = at_first (cc)

profile_of-Wrong :
    (spec : Text) (e : SpecError) (r : Option (Text × Text))
    → split_once b'=' spec ≡ r
    → profile_of spec r ≡ err e
    → Wrong spec e
profile_of-Wrong spec e none split h = absurd (cc)
profile_of-Wrong spec e (some (body, [])) split h =
    let s = split_once-SplitsAt b'=' spec body [] split in
    let same : empty_profile ≡ e = cc in
    subst (Wrong spec) same (nothing_after_equals body s.before_free s.joined)
profile_of-Wrong spec e (some (body, c ∷ cs)) split h = absurd (cc)

proto_of-eq-err :
    (t : Text) (e : SpecError)
    → proto_of t ≡ err e
    → (unsupported_protocol ≡ e) × ((p : Proto) → t ≢ tag p)
proto_of-eq-err t e h = (
  elim (Bool-cases (text_eq t (codes "tcp"))) [
    | inl tcp_named ↦ absurd (ground (arith, h, tcp_named))
    | inr n ↦ ground (arith, h, n)
  ],
  λ p q. absurd (cc (ap proto_of q, proto_of-tag p, h)),
)

ok_or-eq-err {ℓ κ} :
    {E : Type ℓ} {A : Type κ} (e e' : E) (o : Option A) → ok_or o e ≡ err e' → (o ≡ none) × (e ≡ e')
ok_or-eq-err e e' none h = (refl, cc)
ok_or-eq-err e e' (some x) h = absurd (cc)

-- The tail of `parse_spec`, after the profile.
body_Wrong :
    (spec body : Text) (profile : Option Text) (e : SpecError) (l : Text × Text → Proto → Listener)
    → Suffixed body profile spec
    → and_then
        (ok_or (split_once b':' body) no_colon)
        (λ b. and_then (parse_proto b.0) λ p. ok (l b p))
      ≡ err e
    → Wrong spec e
body_Wrong spec body profile e l suffix h =
    and_then-err_cases (ok_or (split_once b':' body) no_colon) _ h
      (λ none_found.
        let (free, same) = ok_or-eq-err no_colon e (split_once b':' body) none_found in
        subst (Wrong spec) same (nothing_split body suffix (split_once-free b':' body free)))
      (λ parts found h2.
        and_then-err_cases (parse_proto parts.0) _ h2
          (λ unknown.
            let s =
              split_once-SplitsAt b':' body parts.0 parts.1
                (ok_or-eq-ok no_colon (split_once b':' body) found) in
            let (same, unnamed) =
              proto_of-eq-err (to_ascii_lowercase parts.0) e (unfold parse_proto in unknown) in
            subst (Wrong spec) same (
              other_protocol parts.0 parts.1 (subst (λ b. Suffixed b profile spec) s.joined suffix)
                s.before_free unnamed))
          (λ p known h3. absurd (cc h3)))

-- An error of `parse_spec` says what is wrong with the text.
pub parse_spec-Wrong : (spec : Text) (e : SpecError) → parse_spec spec ≡ err e → Wrong spec e
unfolding parse_spec
parse_spec-Wrong spec e h =
    and_then-err_cases (split_profile spec) _ h
      (λ refused.
        profile_of-Wrong spec e (split_once b'=' spec) refl (unfold split_profile in refused))
      (λ parts split h2.
        body_Wrong spec parts.0 parts.1 e _ (split_profile-Suffixed spec parts.0 parts.1 split).1
          h2)
