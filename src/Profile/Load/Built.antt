-- ===== src/Profile/Load/Built.antt =====
-- src/profile.rs: what `load` builds of a profile file.
use kirb_la_snoop.Base.{
  ℕ, suc, Option, none, some, List, [], ◌∷◌, ◌++◌, ◌≡◌, refl, sym, ap, subst, ◌∙◌, Bytes, Text,
  concat, replicate, Result, ok, err, and_then, and_then-eq-ok, ok_or, if◌then◌else◌, append-nil,
  arith,
}
use kirb_la_snoop.Base.Addr.{parse_ipv4, parse_ipv6}
use kirb_la_snoop.Base.Paths.{Files, is_absolute, join_path}
use kirb_la_snoop.Dns.{Answer}
use kirb_la_snoop.Profile.{Action, CompiledRule, Compiled}
use kirb_la_snoop.Profile.Escape.{unescape}
use kirb_la_snoop.Profile.Hex.{parse_hex}
use kirb_la_snoop.Profile.Load.{
  DnsRespond, Respond, Rule, Profile, Reader, LoadError, reading_file, reading_profile,
  parsing_profile, map_err, added, read_payload, repeated, parsed, dns_answer, compile_respond,
  default_action, rule_action, rule_name, compile_rules, banner_of, base_of, compile, load,
}

-- The bytes that a field stands for; an absent field stands for none.
abbrev pub Gives : {E : Type 0} {A : Type 0} → (A → Result E Bytes) → Option A → Bytes → Type 0
Gives read none b = b ≡ []
Gives read (some a) b = read a ≡ ok b

-- The bytes of a file of the profile's directory.
abbrev pub FileGives : Files → Text → Option Text → Bytes → Type 0
FileGives fs base none b = b ≡ []
FileGives fs base (some p) b = fs.read (join_path base p) ≡ some b

-- The address that a field spells, where it is present.
abbrev pub Spells : (Text → Option ℕ) → Option Text → Option ℕ → Type 0
Spells parse none ip = ip ≡ none
Spells parse (some s) ip = (n : ℕ) × (parse s ≡ some n) × (ip ≡ some n)

abbrev pub AnswersAs : Option DnsRespond → Option Answer → Type 0
AnswersAs none ans = ans ≡ none
AnswersAs (some d) none = ⊥
AnswersAs (some d) (some ans) =
    Spells parse_ipv4 d.a ans.a × Spells parse_ipv6 d.aaaa ans.aaaa × (ans.ttl ≡ d.ttl)

abbrev pub times : Option ℕ → ℕ
times none = 1
times (some n) = n

-- The action of a response: its payload is the text, then the hex bytes, then the file, the whole
-- repeated.
pub record BuiltFrom (fs : Files) (base : Text) (r : Respond) (a : Action) : Type 0 where
  pub text : Bytes
  pub hex : Bytes
  pub file : Bytes
  pub text_is : Gives unescape r.text text
  pub hex_is : Gives parse_hex r.hex hex
  pub file_is : FileGives fs base r.file file
  pub payload_is : a.payload ≡ concat (replicate (times r.repeat) (text ++ (hex ++ file)))
  pub same_flags : (a.echo ≡ r.echo) × (a.delay_ms ≡ r.delay_ms) × (a.close ≡ r.close)
  pub dns_is : AnswersAs r.dns a.dns

map_err-ok {ℓ} :
    {E : Type 0} {F : Type 0} {A : Type ℓ} (f : E → F) (r : Result E A) {a : A}
    → map_err f r ≡ ok a
    → r ≡ ok a
map_err-ok f (ok a) h = cc
map_err-ok f (err e) h = absurd (cc)

added-Gives :
    {E : Type 0} {A : Type 0} (read : A → Result E Bytes) (context : E → LoadError) (o : Option A)
    {b : Bytes}
    → added (λ a. map_err context (read a)) o ≡ ok b
    → Gives read o b
added-Gives read context none h = cc
added-Gives read context (some a) h = map_err-ok context (read a) h

join_path_absolute :
    (base p : Text) → (if is_absolute p then p else join_path base p) ≡ join_path base p
unfolding join_path
join_path_absolute base p = ground arith

ok_or-ok {ℓ κ} :
    {A : Type ℓ} {E : Type κ} (o : Option A) (e : E) {a : A} → ok_or o e ≡ ok a → o ≡ some a
ok_or-ok (some a) e h = cc
ok_or-ok none e h = absurd (cc)

file-FileGives :
    (fs : Files) (base : Text) (o : Option Text) {b : Bytes}
    → added (read_payload fs base) o ≡ ok b
    → FileGives fs base o b
unfolding read_payload
file-FileGives fs base none h = cc
file-FileGives fs base (some p) h =
    let path = if is_absolute p then p else join_path base p in
    ap fs.read (sym (join_path_absolute base p)) ∙ ok_or-ok (fs.read path) (reading_file path) h

repeated-times :
    (n : Option ℕ) (payload : Bytes) {b : Bytes}
    → repeated n payload ≡ ok b
    → b ≡ concat (replicate (times n) payload)
unfolding repeated
repeated-times none payload h = let same : payload ≡ _ = cc in sym same ∙ sym (append-nil payload)
repeated-times (some n) payload h = ground (arith, h)

parsed-Spells :
    (parse : Text → Option ℕ) (context : Text → LoadError) (o : Option Text) {ip : Option ℕ}
    → parsed parse context o ≡ ok ip
    → Spells parse o ip
parsed-Spells parse context none h = cc
parsed-Spells parse context (some s) {ip} h = from (parse s) refl h
  where
    from :
        (r : Option ℕ)
        → parse s ≡ r
        → and_then (ok_or r (context s)) (λ n. ok (some n)) ≡ ok ip
        → Spells parse (some s) ip
    from none e k = absurd (cc)
    from (some n) e k = (n, e, cc)

dns_answer-AnswersAs :
    (o : Option DnsRespond) {ans : Option Answer} → dns_answer o ≡ ok ans → AnswersAs o ans
unfolding dns_answer
dns_answer-AnswersAs none h = cc
dns_answer-AnswersAs (some d) {ans} h =
    let (a, h', ea) = and_then-eq-ok (parsed parse_ipv4 LoadError.bad_a d.a) _ h in
    let (aaaa, h'', eaaaa) = and_then-eq-ok (parsed parse_ipv6 LoadError.bad_aaaa d.aaaa) _ h' in
    let same : some (record { a = a; aaaa = aaaa; ttl = d.ttl }) ≡ ans = cc in
    subst (AnswersAs (some d)) same (
      parsed-Spells parse_ipv4 LoadError.bad_a d.a ea,
      parsed-Spells parse_ipv6 LoadError.bad_aaaa d.aaaa eaaaa,
      refl,
    )

pub compile_respond-BuiltFrom :
    (fs : Files) (base : Text) (r : Respond) {a : Action}
    → compile_respond fs r base ≡ ok a
    → BuiltFrom fs base r a
unfolding compile_respond
compile_respond-BuiltFrom fs base r {a} h =
    let (text, h1, et) =
      and_then-eq-ok (added (λ t. map_err LoadError.escape_error (unescape t)) r.text) _ h in
    let (hex, h2, eh) =
      and_then-eq-ok (added (λ t. map_err LoadError.hex_error (parse_hex t)) r.hex) _ h1 in
    let (file, h3, ef) = and_then-eq-ok (added (read_payload fs base) r.file) _ h2 in
    let (payload, h4, ep) = and_then-eq-ok (repeated r.repeat (text ++ (hex ++ file))) _ h3 in
    let (dns, h5, ed) = and_then-eq-ok (dns_answer r.dns) _ h4 in
    let same : record {
      payload = payload;
      echo = r.echo;
      delay_ms = r.delay_ms;
      close = r.close;
      dns = dns;
    }
        ≡ a =
      cc in
    subst (BuiltFrom fs base r) same (record {
      text = text;
      hex = hex;
      file = file;
      text_is = added-Gives unescape LoadError.escape_error r.text et;
      hex_is = added-Gives parse_hex LoadError.hex_error r.hex eh;
      file_is = file-FileGives fs base r.file ef;
      payload_is = repeated-times r.repeat (text ++ (hex ++ file)) ep;
      same_flags = (refl, refl, refl);
      dns_is = dns_answer-AnswersAs r.dns ed;
    })

abbrev pub ActionFrom : Files → Text → Option Respond → Action → Type 0
ActionFrom fs base none a = a ≡ default_action
ActionFrom fs base (some r) a = BuiltFrom fs base r a

-- A compiled rule keeps the matcher and the name; a rule without a name is named by its place.
pub record RuleFrom (fs : Files) (base : Text) (i : ℕ) (r : Rule) (c : CompiledRule) : Type 0 where
  pub name_is : c.name ≡ rule_name i r.name
  pub same_matcher : c.matcher ≡ r.matcher
  pub action_is : ActionFrom fs base r.respond c.action

-- Rule by rule, in the same order.
abbrev pub RulesFrom : Files → Text → ℕ → List Rule → List CompiledRule → Type 0
RulesFrom fs base i [] [] = Unit
RulesFrom fs base i [] (c ∷ cs) = ⊥
RulesFrom fs base i (r ∷ rs) [] = ⊥
RulesFrom fs base i (r ∷ rs) (c ∷ cs) = RuleFrom fs base i r c × RulesFrom fs base (suc i) rs cs

rule_action-ActionFrom :
    (fs : Files) (base : Text) (o : Option Respond) {a : Action}
    → rule_action fs base o ≡ ok a
    → ActionFrom fs base o a
rule_action-ActionFrom fs base none h = cc
rule_action-ActionFrom fs base (some r) h = compile_respond-BuiltFrom fs base r h

compile_rules-RulesFrom :
    (fs : Files) (base : Text) (i : ℕ) (rs : List Rule) {cs : List CompiledRule}
    → compile_rules fs base i rs ≡ ok cs
    → RulesFrom fs base i rs cs
unfolding compile_rules
compile_rules-RulesFrom fs base i [] h =
    let same : [] ≡ _ = cc in subst (RulesFrom fs base i []) same tt
compile_rules-RulesFrom fs base i (r ∷ rs) {cs} h =
    let (action, h', ea) = and_then-eq-ok (rule_action fs base r.respond) _ h in
    let (rest, h'', er) = and_then-eq-ok (compile_rules fs base (suc i) rs) _ h' in
    let same : record { name = rule_name i r.name; matcher = r.matcher; action = action } ∷ rest
        ≡ cs =
      cc in
    subst (RulesFrom fs base i (r ∷ rs)) same (
      record {
        name_is = refl;
        same_matcher = refl;
        action_is = rule_action-ActionFrom fs base r.respond ea;
      },
      compile_rules-RulesFrom fs base (suc i) rs er,
    )

abbrev pub BannerFrom : Files → Text → Option Respond → Option Action → Type 0
BannerFrom fs base none a = a ≡ none
BannerFrom fs base (some r) none = ⊥
BannerFrom fs base (some r) (some a) = BuiltFrom fs base r a

banner_of-BannerFrom :
    (fs : Files) (base : Text) (o : Option Respond) {a : Option Action}
    → banner_of fs base o ≡ ok a
    → BannerFrom fs base o a
banner_of-BannerFrom fs base none h = cc
banner_of-BannerFrom fs base (some r) {a} h =
    let (action, h', ea) = and_then-eq-ok (compile_respond fs r base) _ h in
    let same : some action ≡ a = cc in
    subst (BannerFrom fs base (some r)) same (compile_respond-BuiltFrom fs base r ea)

-- What a loaded profile is, from the file that it was read from.
pub record LoadedFrom (r : Reader) (path : Text) (c : Compiled) : Type 0 where
  pub text : Text
  pub profile : Profile
  pub reads : r.files.read_to_string path ≡ some text
  pub parses : r.from_toml text ≡ some profile
  pub same_names : (c.name ≡ profile.name) × (c.description ≡ profile.description)
  pub banner_is : BannerFrom r.files (base_of path) profile.on_connect c.on_connect
  pub rules_are : RulesFrom r.files (base_of path) 0 profile.rules c.rules

-- A profile that `load` gives is read from the file and compiled part by part: the banner, and rule
-- by rule in the same order, each with its matcher, its name or its place, and the action of its
-- response, whose payload is the text, the hex bytes and the file behind one another, repeated.
pub load-LoadedFrom :
    (r : Reader) (path : Text) (c : Compiled) → load r path ≡ ok c → LoadedFrom r path c
unfolding load compile
load-LoadedFrom r path c h =
    let (text, h1, et) =
      and_then-eq-ok (ok_or (r.files.read_to_string path) (reading_profile path)) _ h in
    let (p, h2, ep) = and_then-eq-ok (ok_or (r.from_toml text) (parsing_profile path)) _ h1 in
    let (banner, h3, eb) = and_then-eq-ok (banner_of r.files (base_of path) p.on_connect) _ h2 in
    let (rules, h4, er) = and_then-eq-ok (compile_rules r.files (base_of path) 0 p.rules) _ h3 in
    let same : record {
      name = p.name;
      description = p.description;
      on_connect = banner;
      rules = rules;
    }
        ≡ c =
      cc in
    subst (LoadedFrom r path) same (record {
      text = text;
      profile = p;
      reads = ok_or-ok (r.files.read_to_string path) (reading_profile path) et;
      parses = ok_or-ok (r.from_toml text) (parsing_profile path) ep;
      same_names = (refl, refl);
      banner_is = banner_of-BannerFrom r.files (base_of path) p.on_connect eb;
      rules_are = compile_rules-RulesFrom r.files (base_of path) 0 p.rules er;
    })
