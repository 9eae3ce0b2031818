-- ===== src/Profile/Respond.antt =====
-- src/profile.rs: which rule answers, and how long an answer can be.
use kirb_la_snoop.Base.{
  Option, ℕ, ◌+◌, ◌≤◌, Bool, true, false, not, none, some, List, [], ◌∷◌, ◌++◌, ◌≡◌, ◌↔◌, subst,
  refl, sym, ap, ◌∙◌, Bytes, Text, All, length, arith, Option-cases, inl, inr,
}
use kirb_la_snoop.Profile.{
  Action, CompiledRule, Compiled, is_some_and, matches, eval_rules, eval, any_action, is_silent,
  responds, max_payload, max_response_bytes, builds, payload_len,
}

-- The rule that answers: the first of the list to match, those before it having been tried.
pub record FirstMatch (rules : List CompiledRule) (chunk : Bytes) (first : Bool) (name : Text)
    (action : Action) : Type 0 where
  pub before : List CompiledRule
  pub rule : CompiledRule
  pub after : List CompiledRule
  pub splits : rules ≡ before ++ (rule ∷ after)
  pub missed : All (λ (r : CompiledRule). matches r.matcher chunk first ≡ some false) before
  pub hit : matches rule.matcher chunk first ≡ some true
  pub answer : (name ≡ rule.name) × (action ≡ rule.action)

eval_rules-FirstMatch :
    (rules : List CompiledRule) (chunk : Bytes) (first : Bool) (name : Text) (action : Action)
    → eval_rules rules chunk first ≡ some (some (name, action))
    → FirstMatch rules chunk first name action
unfolding eval_rules
eval_rules-FirstMatch [] chunk first name action h = absurd (cc)
eval_rules-FirstMatch (r ∷ rs) chunk first name action h =
    elim (Option-cases (matches r.matcher chunk first)) [
      | inl panics ↦ absurd (ground (arith, panics))
      | inr (true, hit) ↦ record {
        before = [];
        rule = r;
        after = rs;
        splits = refl;
        missed = tt;
        hit = hit;
        answer = (ground (arith, hit), ground (arith, hit));
      }
      | inr (false, miss) ↦
          let f = eval_rules-FirstMatch rs chunk first name action (ground (arith, miss)) in
          record {
            before = r ∷ f.before;
            rule = f.rule;
            after = f.after;
            splits = ap (◌∷◌ r) f.splits;
            missed = (miss, f.missed);
            hit = f.hit;
            answer = f.answer;
          }
    ]

-- The answer of `eval` is that of the first rule that matches.
pub eval-FirstMatch :
    (c : Compiled) (chunk : Bytes) (first : Bool) (name : Text) (action : Action)
    → eval c chunk first ≡ some (some (name, action))
    → FirstMatch c.rules chunk first name action
eval-FirstMatch c chunk first name action h =
    eval_rules-FirstMatch c.rules chunk first name action (unfold eval in h)

eval_rules-missed :
    (rules : List CompiledRule) (chunk : Bytes) (first : Bool)
    → eval_rules rules chunk first ≡ some none
    → All (λ (r : CompiledRule). matches r.matcher chunk first ≡ some false) rules
unfolding eval_rules
eval_rules-missed [] chunk first h = tt
eval_rules-missed (r ∷ rs) chunk first h = elim (Option-cases (matches r.matcher chunk first)) [
  | inl panics ↦ absurd (ground (arith, panics))
  | inr (true, hit) ↦ absurd (ground (arith, hit))
  | inr (false, miss) ↦ (miss, eval_rules-missed rs chunk first (ground (arith, miss)))
]

missed-eval_rules :
    (rules : List CompiledRule) (chunk : Bytes) (first : Bool)
    → All (λ (r : CompiledRule). matches r.matcher chunk first ≡ some false) rules
    → eval_rules rules chunk first ≡ some none
unfolding eval_rules
missed-eval_rules [] chunk first h = refl
missed-eval_rules (r ∷ rs) chunk first h = ground (arith, h.0, missed-eval_rules rs chunk first h.1)

-- `eval` has no answer exactly when every rule has been tried and does not match.
pub eval-eq-none :
    (c : Compiled) (chunk : Bytes) (first : Bool)
    → (eval c chunk first ≡ some none)
      ↔ All (λ (r : CompiledRule). matches r.matcher chunk first ≡ some false) c.rules
unfolding eval
eval-eq-none c chunk first =
    (eval_rules-missed c.rules chunk first, missed-eval_rules c.rules chunk first)

le-max_payload :
    (before : List CompiledRule) (r : CompiledRule) (after : List CompiledRule)
    → length r.action.payload ≤ max_payload (before ++ (r ∷ after))
unfolding max_payload
le-max_payload [] r after = omega arith
le-max_payload (b ∷ before) r after = omega (arith, le-max_payload before r after)

any_action_none :
    (test : Action → Bool) (before : List CompiledRule) (r : CompiledRule)
    (after : List CompiledRule)
    → any_action (before ++ (r ∷ after)) test ≡ false
    → test r.action ≡ false
unfolding any_action
any_action_none test [] r after h = ground arith
any_action_none test (b ∷ before) r after h = any_action_none test before r after (ground arith)

-- A banner, where there is one, is not built from the request.
abbrev pub IsFixed : Option Action → Type 0
IsFixed none = Unit
IsFixed (some a) = (a.echo ≡ false) × (a.dns ≡ none)

banner-IsFixed : (o : Option Action) → is_some_and o builds ≡ false → IsFixed o
banner-IsFixed none h = tt
banner-IsFixed (some a) h = ground (arith, h)

-- Where `max_response_bytes` gives a bound, neither the banner nor any answer is built from the
-- request, and the banner together with the payload of whichever rule answers is no longer than the
-- bound.
pub max_response_bytes_bound :
    (c : Compiled) (n : ℕ) (chunk : Bytes) (first : Bool) (name : Text) (action : Action)
    → max_response_bytes c ≡ some n
    → eval c chunk first ≡ some (some (name, action))
    → (payload_len c.on_connect + length action.payload ≤ n)
      × (builds action ≡ false)
      × IsFixed c.on_connect
max_response_bytes_bound c n chunk first name action bound h =
    let f = eval-FirstMatch c chunk first name action h in
    let longest =
      subst (λ (rs : List CompiledRule). length f.rule.action.payload ≤ max_payload rs)
        (sym f.splits) (le-max_payload f.before f.rule f.after) in
    let fixed : any_action c.rules builds ≡ false = unfold max_response_bytes in ground arith in
    let plain =
      any_action_none builds f.before f.rule f.after
        (subst (λ (rs : List CompiledRule). any_action rs builds ≡ false) f.splits fixed) in
    let total : payload_len c.on_connect + max_payload c.rules ≡ n =
      unfold max_response_bytes in ground arith in
    (
      omega (arith, longest, total, ap (λ (a : Action). length a.payload) f.answer.1),
      ap builds f.answer.1 ∙ plain,
      banner-IsFixed c.on_connect (unfold max_response_bytes in ground arith),
    )

-- A profile that does not respond has only silent actions to answer with.
pub responds_silent :
    (c : Compiled) (chunk : Bytes) (first : Bool) (name : Text) (action : Action)
    → responds c ≡ false
    → eval c chunk first ≡ some (some (name, action))
    → is_silent action ≡ true
responds_silent c chunk first name action quiet h =
    let f = eval-FirstMatch c chunk first name action h in
    let never : any_action c.rules (λ a. not (is_silent a)) ≡ false =
      unfold responds in ground arith in
    let rule_quiet =
      any_action_none (λ a. not (is_silent a)) f.before f.rule f.after
        (subst (λ (rs : List CompiledRule). any_action rs (λ a. not (is_silent a)) ≡ false) f.splits
          never) in
    ap is_silent f.answer.1 ∙ ground (arith, rule_quiet)
