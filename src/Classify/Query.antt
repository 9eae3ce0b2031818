-- ===== src/Classify/Query.antt =====
-- src/classify.rs: a well-formed dns query is taken for nothing else.
use kirb_la_snoop.Base.{
  ℕ, zero, suc, ◌/◌, ◌%◌, ◌^◌, ◌≤◌, ◌<◌, ◌≢◌, false, Option, none, some, List, [], ◌∷◌, ◌++◌, ◌≡◌,
  refl, sym, ap, subst, ◌∙◌, Bytes, Text, All, codes, length, take, drop, arith, u16_be_bytes,
  Bool-cases, inl, inr, ◌==◌, ◌>>=◌,
}
use kirb_la_snoop.Base.Ascii.{strict_from-ascii}
use kirb_la_snoop.Base.Lossy.{from_utf8}
use kirb_la_snoop.Base.Strings.{join}
use kirb_la_snoop.Dns.{Query}
use kirb_la_snoop.Dns.Parse.{IsQuery}
use kirb_la_snoop.Profile.Needle.{starts_with→append, find}
use kirb_la_snoop.Classify.{classify}
use kirb_la_snoop.Classify.Tls.{tls}
use kirb_la_snoop.Classify.Http.{http, is_at, method_of, methods, first_some}
use kirb_la_snoop.Classify.Dns.{dns, qtype_name}
use kirb_la_snoop.Classify.Dns.Hint.{IsGraphic, dns-IsQuery}

-- A message whose third byte is below 8, where it has one.
abbrev IsLow : Bytes → Type 0
IsLow (a ∷ b ∷ c ∷ rest) = c < 8
IsLow [] = Unit
IsLow (a ∷ []) = Unit
IsLow (a ∷ b ∷ []) = Unit

take-IsLow : (n : ℕ) (bs : Bytes) → IsLow bs → IsLow (take n bs)
take-IsLow zero bs h = tt
take-IsLow (suc n) [] h = tt
take-IsLow (suc zero) (a ∷ bs) h = tt
take-IsLow (suc (suc n)) (a ∷ []) h = tt
take-IsLow (suc (suc zero)) (a ∷ b ∷ bs) h = tt
take-IsLow (suc (suc (suc n))) (a ∷ b ∷ []) h = tt
take-IsLow (suc (suc (suc n))) (a ∷ b ∷ c ∷ bs) h = h

-- A method of http: at least three characters of ASCII, the third of them no control character.
abbrev IsMethod : Text → Type 0
IsMethod [] = ⊥
IsMethod (a ∷ []) = ⊥
IsMethod (a ∷ b ∷ []) = ⊥
IsMethod (a ∷ b ∷ c ∷ rest) = (a < 0x80) × ((b < 0x80) × ((8 ≤ c) × (c < 0x80)))

methods-IsMethod : All IsMethod methods
methods-IsMethod =
    (get, (post, (put, (head, (delete, (options, (patch, (trace, (connect, tt)))))))))
  where
    get : IsMethod (codes "GET")
    get = (omega arith, (omega arith, (omega arith, omega arith)))

    post : IsMethod (codes "POST")
    post = (omega arith, (omega arith, (omega arith, omega arith)))

    put : IsMethod (codes "PUT")
    put = (omega arith, (omega arith, (omega arith, omega arith)))

    head : IsMethod (codes "HEAD")
    head = (omega arith, (omega arith, (omega arith, omega arith)))

    delete : IsMethod (codes "DELETE")
    delete = (omega arith, (omega arith, (omega arith, omega arith)))

    options : IsMethod (codes "OPTIONS")
    options = (omega arith, (omega arith, (omega arith, omega arith)))

    patch : IsMethod (codes "PATCH")
    patch = (omega arith, (omega arith, (omega arith, omega arith)))

    trace : IsMethod (codes "TRACE")
    trace = (omega arith, (omega arith, (omega arith, omega arith)))

    connect : IsMethod (codes "CONNECT")
    connect = (omega arith, (omega arith, (omega arith, omega arith)))

-- Bytes whose third is low are not read as a text that starts with three such characters.
low_not_method :
    (bs : Bytes) (a b c : ℕ) (t : Text)
    → IsLow bs
    → a < 0x80
    → b < 0x80
    → 8 ≤ c
    → c < 0x80
    → ¬ (from_utf8 bs ≡ some (a ∷ b ∷ c ∷ t))
unfolding from_utf8
low_not_method bs a b c t low ha hb above hc h =
    let (bs1, e1, h1) = strict_from-ascii bs a (b ∷ c ∷ t) h ha in
    let (bs2, e2, h2) = strict_from-ascii bs1 b (c ∷ t) h1 hb in
    let (bs3, e3, h3) = strict_from-ascii bs2 c t h2 hc in
    let whole : bs ≡ a ∷ b ∷ c ∷ bs3 = e1 ∙ ap (◌∷◌ a) (e2 ∙ ap (◌∷◌ b) e3) in
    let third : c < 8 = subst IsLow whole low in absurd (omega (arith, third, above))

low_not_at :
    (bs : Bytes) (line method : Text)
    → IsLow bs
    → IsMethod method
    → from_utf8 bs ≡ some line
    → is_at line method ≡ false
low_not_at bs line [] low w h = elim w [ ]
low_not_at bs line (a ∷ []) low w h = elim w [ ]
low_not_at bs line (a ∷ b ∷ []) low w h = elim w [ ]
low_not_at bs line (a ∷ b ∷ c ∷ m) low w h = elim (Bool-cases (is_at line (a ∷ b ∷ c ∷ m))) [
  | inr away ↦ away
  | inl here ↦
      let (rest, e) = starts_with→append line ((a ∷ b ∷ c ∷ m) ++ 32 ∷ []) here in
      absurd (
        low_not_method bs a b c ((m ++ 32 ∷ []) ++ rest) low w.0 w.1.0 w.1.1.0 w.1.1.1
          (h ∙ ap some e))
]

low_no_method :
    (bs : Bytes) (line : Text) (ms : List Text)
    → IsLow bs
    → All IsMethod ms
    → from_utf8 bs ≡ some line
    → method_of line ms ≡ none
unfolding method_of
low_no_method bs line [] low w h = refl
low_no_method bs line (m ∷ ms) low w h =
    rw (low_not_at bs line m low w.0 h) (low_no_method bs line ms low w.1 h)

bind_none {ℓ κ} :
    {A : Type ℓ} {B : Type κ} (o : Option A) (f : A → Option B)
    → ((a : A) → o ≡ some a → f a ≡ none)
    → (o >>= f) ≡ none
bind_none none f h = refl
bind_none (some a) f h = h a refl

low_not_http : (d : Bytes) → IsLow d → http d ≡ none
unfolding http
low_not_http d low =
    bind_none (first_some (find (take 8192 d) (13 ∷ 10 ∷ [])) (find (take 8192 d) (10 ∷ []))) _
      λ line_end at. bind_none (from_utf8 (take line_end (take 8192 d))) _ λ line reads.
        bind_none (method_of line methods) _ λ method found.
          let none_is : none ≡ some method =
            sym (
              low_no_method (take line_end (take 8192 d)) line methods
                (take-IsLow line_end (take 8192 d) (take-IsLow 8192 d low)) methods-IsMethod reads)
            ∙ found in
          absurd (cc)

not_tls : (a b : ℕ) (rest : Bytes) → ¬ ((a ≡ 0x16) × (b ≡ 0x03)) → tls (a ∷ b ∷ rest) ≡ none
unfolding tls
not_tls a b rest h = elim (Bool-cases (a == 0x16)) [
  | inr other ↦ rw other refl
  | inl handshake ↦ elim (Bool-cases (b == 0x03)) [
    | inr other ↦ rw (handshake, other) refl
    | inl version ↦ absurd (h (ground (arith, handshake), ground (arith, version)))
  ]
]

query_id :
    (a b n : ℕ)
    → n < 2 ^ 16
    → a ∷ b ∷ [] ≡ u16_be_bytes n
    → n ≢ 0x1603
    → ¬ ((a ≡ 0x16) × (b ≡ 0x03))
query_id a b n small same other (ha, hb) =
    let hi : a ≡ (n / 2 ^ 8) % 2 ^ 8 = cc in
    let lo : b ≡ n % 2 ^ 8 = cc in absurd (other (omega (arith, hi, lo, ha, hb, small)))

query_flags : (c e n : ℕ) (rest : Bytes) → n < 2048 → take 2 (c ∷ e ∷ rest) ≡ u16_be_bytes n → c < 8
query_flags c e n rest small same =
    let hi : c ≡ (n / 2 ^ 8) % 2 ^ 8 = cc in omega (arith, hi, small)

hint_of :
    (a b : ℕ) (rest : Bytes) (hint : Text)
    → tls (a ∷ b ∷ rest) ≡ none
    → http (a ∷ b ∷ rest) ≡ none
    → dns (a ∷ b ∷ rest) ≡ some hint
    → classify (a ∷ b ∷ rest) ≡ some hint
unfolding classify
hint_of a b rest hint e f g = rw (e, f, g) refl

-- A message that `parse` of the dns responder accepts is hinted at with its type and its name, where
-- it holds no answers, its name is 1 to 64 labels of graphic ASCII characters, and its id is not
-- 0x1603, with which a tls handshake begins.
pub classify-IsQuery :
    (msg : Bytes) (q : Query) (w : IsQuery msg q)
    → All IsGraphic w.names
    → 0 < length w.names
    → length w.names ≤ 64
    → take 2 (drop 6 msg) ≡ u16_be_bytes 0
    → q.id ≢ 0x1603
    → classify msg
      ≡ some (codes "DNS query " ++ (qtype_name q.qtype ++ (32 ∷ join (codes ".") w.names)))
classify-IsQuery [] q w g some_label few no_answers id =
    absurd (omega (arith, w.inside, w.range_is))
classify-IsQuery (a ∷ []) q w g some_label few no_answers id =
    absurd (omega (arith, w.inside, w.range_is))
classify-IsQuery (a ∷ b ∷ []) q w g some_label few no_answers id =
    absurd (omega (arith, w.inside, w.range_is))
classify-IsQuery (a ∷ b ∷ c ∷ []) q w g some_label few no_answers id =
    absurd (omega (arith, w.inside, w.range_is))
classify-IsQuery (a ∷ b ∷ c ∷ e ∷ rest) q w g some_label few no_answers id =
    let hint = dns-IsQuery (a ∷ b ∷ c ∷ e ∷ rest) q w g some_label few no_answers in
    let low : c < 8 = query_flags c e q.flags rest w.is_query w.flags_is in
    hint_of a b (c ∷ e ∷ rest) _
      (not_tls a b (c ∷ e ∷ rest) (query_id a b q.id w.words.0 w.id_is id))
      (low_not_http (a ∷ b ∷ c ∷ e ∷ rest) low) hint
