-- ===== src/Config/Spelling.antt =====
-- src/config.rs: which texts `parse_spec` takes, what for, and why it refuses the others.
use kirb_la_snoop.Base.{
  ℕ, true, false, ◌≢◌, ◌⊎◌, sym, Option, none, some, [], ◌∷◌, ◌++◌, ◌≡◌, ◌↔◌, refl, ap, ◌∙◌, subst,
  Text, All, codes, ◌==◌, ok, ok_or, and_then-eq-ok, arith, Bool-cases, inl, inr,
}
use kirb_la_snoop.Base.Decimal.{IsDigit}
use kirb_la_snoop.Base.Strings.{
  to_ascii_lowercase, text_eq, text_eq→eq, split_once, split_once-append, split_once-none,
  split_once-free, split_once-SplitsAt,
}
use kirb_la_snoop.Config.{
  Proto, tcp, udp, tag, Listener, no_colon, profile_of, split_profile, proto_of, parse_proto,
  bind_of, all_digits, parse_spec,
}

abbrev pub Lacks : ℕ → Text → Type 0
Lacks sep = All (λ c. (c == sep) ≡ false)

-- A body with its profile, if it has one: a profile is not empty.
pub data Suffixed (body : Text) : Option Text → Text → Type 0 where
  bare : {spec : Text} → spec ≡ body → Suffixed body none spec
  suffixed :
      {spec : Text} (c : ℕ) (cs : Text)
      → spec ≡ body ++ (b'=' ∷ (c ∷ cs))
      → Suffixed body (some (c ∷ cs)) spec

-- A bare port: digits, at least one of them.
abbrev pub IsPort : Text → Type 0
IsPort t = (t ≢ []) × All IsDigit t

-- The address that stands behind the colon: a bare port is on all interfaces.
abbrev pub Binds : Text → Text → Type 0
Binds rest bind =
    (IsPort rest × (bind ≡ codes "0.0.0.0:" ++ rest)) ⊎ (¬ IsPort rest × (bind ≡ rest))

all_digits-IsDigit : (t : Text) → all_digits t ≡ true → All IsDigit t
unfolding all_digits
all_digits-IsDigit [] h = tt
all_digits-IsDigit (c ∷ cs) h = (ground (arith, h), all_digits-IsDigit cs (ground (arith, h)))

IsDigit-all_digits : (t : Text) → All IsDigit t → all_digits t ≡ true
unfolding all_digits
IsDigit-all_digits [] h = refl
IsDigit-all_digits (c ∷ cs) h = ground (arith, h.0, IsDigit-all_digits cs h.1)

port_bind : (t : Text) → IsPort t → bind_of t ≡ codes "0.0.0.0:" ++ t
unfolding bind_of
port_bind [] h = absurd (h.0 refl)
port_bind (c ∷ cs) h = ground (arith, IsDigit-all_digits (c ∷ cs) h.1)

no_port_bind : (t : Text) → ¬ IsPort t → bind_of t ≡ t
unfolding bind_of
no_port_bind [] h = ground arith
no_port_bind (c ∷ cs) h = elim (Bool-cases (all_digits (c ∷ cs))) [
  | inl digits ↦ absurd (h ((λ e. absurd (cc)), all_digits-IsDigit (c ∷ cs) digits))
  | inr others ↦ rw others refl
]

bind_of-Binds : (t : Text) → Binds t (bind_of t)
bind_of-Binds [] = inr ((λ p. p.0 refl), no_port_bind [] (λ p. p.0 refl))
bind_of-Binds (c ∷ cs) = elim (Bool-cases (all_digits (c ∷ cs))) [
  | inl digits ↦
      let port : IsPort (c ∷ cs) = ((λ e. absurd (cc)), all_digits-IsDigit (c ∷ cs) digits) in
      inl (port, port_bind (c ∷ cs) port)
  | inr others ↦
      let no_port : ¬ IsPort (c ∷ cs) = λ p.
        let clash : true ≡ false = sym (IsDigit-all_digits (c ∷ cs) p.1) ∙ others in absurd (cc) in
      inr (no_port, no_port_bind (c ∷ cs) no_port)
]

Binds-bind_of : (t bind : Text) → Binds t bind → bind ≡ bind_of t
Binds-bind_of t bind (inl (port, e)) = e ∙ sym (port_bind t port)
Binds-bind_of t bind (inr (no_port, e)) = e ∙ sym (no_port_bind t no_port)

-- A text spells a listener.
pub record Spells (spec : Text) (l : Listener) : Type 0 where
  pub proto_text : Text
  pub rest : Text
  pub no_colon_before : Lacks b':' proto_text
  pub no_equals : Lacks b'=' (proto_text ++ (b':' ∷ rest))
  pub spelled : Suffixed (proto_text ++ (b':' ∷ rest)) l.profile spec
  pub proto_is : to_ascii_lowercase proto_text ≡ tag l.proto
  pub bind_is : Binds rest l.bind
  pub unset : (l.name ≡ none) × (l.iface ≡ none) × (l.upstream ≡ none)

profile_of-Suffixed :
    (spec body : Text) (profile : Option Text) (r : Option (Text × Text))
    → split_once b'=' spec ≡ r
    → profile_of spec r ≡ ok (body, profile)
    → Lacks b'=' body × Suffixed body profile spec
profile_of-Suffixed spec body profile none e h =
    let same : (spec, none) ≡ (body, profile) = cc in
    subst (λ (x : Text × Option Text). Lacks b'=' x.0 × Suffixed x.0 x.1 spec) same
      (split_once-free b'=' spec e, bare refl)
profile_of-Suffixed spec body profile (some (before, [])) e h = absurd (cc)
profile_of-Suffixed spec body profile (some (before, c ∷ cs)) e h =
    let same : (before, some (c ∷ cs)) ≡ (body, profile) = cc in
    let s = split_once-SplitsAt b'=' spec before (c ∷ cs) e in
    subst (λ (x : Text × Option Text). Lacks b'=' x.0 × Suffixed x.0 x.1 spec) same
      (s.before_free, suffixed c cs s.joined)

pub split_profile-Suffixed :
    (spec body : Text) (profile : Option Text)
    → split_profile spec ≡ ok (body, profile)
    → Lacks b'=' body × Suffixed body profile spec
unfolding split_profile
split_profile-Suffixed spec body profile h =
    profile_of-Suffixed spec body profile (split_once b'=' spec) refl h

Suffixed-split_profile :
    (spec body : Text) {profile : Option Text}
    → Lacks b'=' body
    → Suffixed body profile spec
    → split_profile spec ≡ ok (body, profile)
unfolding split_profile
Suffixed-split_profile spec body free (bare e) =
    ap (λ t. profile_of t (split_once b'=' t)) e
    ∙ ap (profile_of body) (split_once-none b'=' body free)
Suffixed-split_profile spec body free (suffixed c cs e) =
    ap (λ t. profile_of t (split_once b'=' t)) e
    ∙ ap (profile_of (body ++ (b'=' ∷ (c ∷ cs)))) (split_once-append b'=' body (c ∷ cs) free)

pub ok_or-eq-ok {ℓ κ} :
    {E : Type ℓ} {A : Type κ} (e : E) {a : A} (o : Option A) → ok_or o e ≡ ok a → o ≡ some a
ok_or-eq-ok e none h = absurd (cc)
ok_or-eq-ok e (some x) h = cc

proto_of-eq-ok : (t : Text) (p : Proto) → proto_of t ≡ ok p → t ≡ tag p
proto_of-eq-ok t p h = elim (Bool-cases (text_eq t (codes "tcp"))) [
  | inl e ↦
      let named : tcp ≡ p = ground (arith, h, e) in text_eq→eq t (codes "tcp") e ∙ ap tag named
  | inr n ↦ elim (Bool-cases (text_eq t (codes "udp"))) [
    | inl e ↦
        let named : udp ≡ p = ground (arith, h, n, e) in text_eq→eq t (codes "udp") e ∙ ap tag named
    | inr m ↦ absurd (ground (arith, h, n, m))
  ]
]

pub proto_of-tag : (p : Proto) → proto_of (tag p) ≡ ok p
unfolding text_eq
proto_of-tag tcp = refl
proto_of-tag udp = refl

-- The listener of a body.
abbrev made : Proto → Text → Option Text → Listener
made proto rest profile = record {
  proto = proto;
  bind = bind_of rest;
  profile = profile;
  name = none;
  iface = none;
  upstream = none;
}

parse_spec-Spells : (spec : Text) (l : Listener) → parse_spec spec ≡ ok l → Spells spec l
unfolding parse_spec parse_proto
parse_spec-Spells spec l h =
    let ((body, profile), h1, split) = and_then-eq-ok (split_profile spec) _ h in
    let ((proto_text, rest), h2, found) =
      and_then-eq-ok (ok_or (split_once b':' body) no_colon) _ h1 in
    let (p, h3, known) = and_then-eq-ok (parse_proto proto_text) _ h2 in
    let (free, suffix) = split_profile-Suffixed spec body profile split in
    let s =
      split_once-SplitsAt b':' body proto_text rest
        (ok_or-eq-ok no_colon (split_once b':' body) found) in
    let same : made p rest profile ≡ l = ground (arith, h3) in
    subst (Spells spec) same (record {
      proto_text = proto_text;
      rest = rest;
      no_colon_before = s.before_free;
      no_equals = subst (Lacks b'=') s.joined free;
      spelled = subst (λ b. Suffixed b profile spec) s.joined suffix;
      proto_is = proto_of-eq-ok (to_ascii_lowercase proto_text) p known;
      bind_is = bind_of-Binds rest;
      unset = (refl, refl, refl);
    })

Spells-parse_spec : (spec : Text) (l : Listener) → Spells spec l → parse_spec spec ≡ ok l
unfolding parse_spec
Spells-parse_spec spec l s =
    let split =
      Suffixed-split_profile spec (s.proto_text ++ (b':' ∷ s.rest)) s.no_equals s.spelled in
    let found = split_once-append b':' s.proto_text s.rest s.no_colon_before in
    let known : parse_proto s.proto_text ≡ ok l.proto =
      unfold parse_proto in ap proto_of s.proto_is ∙ proto_of-tag l.proto in
    let binds = Binds-bind_of s.rest l.bind s.bind_is in
    rw (split, found, known) (ground (arith, binds, s.unset))

-- `parse_spec` takes a text for a listener exactly when the text spells it: a protocol in any case
-- before the first colon, the address behind it, or a bare port, which is on 0.0.0.0, and after an
-- equals sign a profile that is not empty.
pub parse_spec_iff : (spec : Text) (l : Listener) → (parse_spec spec ≡ ok l) ↔ Spells spec l
parse_spec_iff spec l = (parse_spec-Spells spec l, Spells-parse_spec spec l)
