-- ===== src/Classify/Tls/Extensions.antt =====
-- src/classify.rs: the loop over the extensions of a client hello reads each of them, in order.
use kirb_la_snoop.Base.{
  ℕ, ◌+◌, ◌-◌, ◌^◌, ◌≤◌, ◌<◌, min, Option, some, none, List, [], ◌∷◌, ◌++◌, ◌≡◌, refl, sym, ap, ◌∙◌,
  Bytes, All, length, take, drop, arith, length-append, length-drop, drop-drop, take_eq,
  take-length-append, drop-length-append, get_range, get_range-within, u16_be_bytes, ◌>>=◌,
  Option-cases, inl, inr, le→leb,
}
use kirb_la_snoop.Base.Loop.{loop, next, done, loop-next, loop-done}
use kirb_la_snoop.Dns.{be16}
use kirb_la_snoop.Dns.Be16.{be16-drop}
use kirb_la_snoop.Classify.Tls.{
  Hello, extension, extension_turn, extension_turn-Falls, extensions_of, extensions,
}

-- An extension on the wire: its type, and its body behind its length.
unfoldable pub encode_extensions : List (ℕ × Bytes) → Bytes
encode_extensions [] = []
encode_extensions ((t, body) ∷ es) =
    u16_be_bytes t ++ (u16_be_bytes (length body) ++ (body ++ encode_extensions es))

-- The type and the length of an extension are u16.
abbrev pub IsExtension : ℕ × Bytes → Type 0
IsExtension x = (x.0 < 2 ^ 16) × (length (x.1) < 2 ^ 16)

-- What the extensions say, one after the other.
unfoldable pub read_all : List (ℕ × Bytes) → Hello → Option Hello
read_all [] s = some s
read_all ((t, body) ∷ es) s = do
  s' ← extension t body s
  read_all es (record s' { p = s.p + 4 + length body })

record Reads (d : Bytes) (p t : ℕ) (body rest : Bytes) : Type 0 where
  type_at : be16 d p ≡ some t
  length_at : be16 d (p + 2) ≡ some (length body)
  body_at : get_range d (p + 4) (p + 4 + length body) ≡ some body
  fits : p + 4 + length body ≤ length d
  rest_at : drop (p + 4 + length body) d ≡ rest

extension_in :
    (d body rest : Bytes) (p t : ℕ)
    → drop p d ≡ u16_be_bytes t ++ (u16_be_bytes (length body) ++ (body ++ rest))
    → IsExtension (t, body)
    → Reads d p t body rest
extension_in d body rest p t e small = record {
  type_at = be16-drop d (u16_be_bytes (length body) ++ (body ++ rest)) p t e small.0;
  length_at = be16-drop d (body ++ rest) (p + 2) (length body) at_length small.1;
  body_at =
      get_range-within d (p + 4) (p + 4 + length body) (omega arith) inside
      ∙ ap some (
          take_eq (drop (p + 4) d) (omega arith)
          ∙ ap (take (length body)) at_body
          ∙ take-length-append body rest);
  fits = inside;
  rest_at =
      sym (drop-drop (length body) (p + 4) d)
      ∙ ap (drop (length body)) at_body
      ∙ drop-length-append body rest;
}
  where
    at_length : drop (p + 2) d ≡ u16_be_bytes (length body) ++ (body ++ rest)
    at_length = sym (drop-drop 2 p d) ∙ ap (drop 2) e

    at_body : drop (p + 4) d ≡ body ++ rest
    at_body = sym (drop-drop 4 p d) ∙ ap (drop 4) e

    inside : p + 4 + length body ≤ length d
    inside = omega (arith, length-drop p d, ap length e, length-append body rest)

turn_extension :
    (d body rest : Bytes) (s s' : Hello) (t : ℕ)
    → Reads d s.p t body rest
    → extension t body s ≡ some s'
    → extension_turn d (length d) s ≡ next (record s' { p = s.p + 4 + length body })
unfolding extension_turn
turn_extension d body rest s s' t r e =
    rw (le→leb (s.p + 4) (length d) (omega (arith, r.fits)), r.type_at)
      (rw r.length_at (rw r.body_at (rw e refl)))

turn_refused :
    (d body rest : Bytes) (s : Hello) (t : ℕ)
    → Reads d s.p t body rest
    → extension t body s ≡ none
    → extension_turn d (length d) s ≡ done none
unfolding extension_turn
turn_refused d body rest s t r e =
    rw (le→leb (s.p + 4) (length d) (omega (arith, r.fits)), r.type_at)
      (rw r.length_at (rw r.body_at (rw e refl)))

turn_last :
    (d : Bytes) (s : Hello) → drop s.p d ≡ [] → extension_turn d (length d) s ≡ done (some s)
unfolding extension_turn
turn_last d s e = ground (arith, length-drop s.p d, ap length e)

read_all_from :
    (es : List (ℕ × Bytes)) (d : Bytes) (s : Hello)
    → drop s.p d ≡ encode_extensions es
    → All IsExtension es
    → loop (extension_turn d (length d)) (λ s. length d - s.p) (extension_turn-Falls d (length d)) s
      ≡ read_all es s
unfolding encode_extensions read_all
read_all_from [] d s e h =
    loop-done (extension_turn d (length d)) (λ s. length d - s.p)
      (extension_turn-Falls d (length d)) s (turn_last d s e)
read_all_from ((t, body) ∷ es) d s e h =
    let r = extension_in d body (encode_extensions es) s.p t e h.0 in
    elim (Option-cases (extension t body s)) [
      | inl refused ↦
          loop-done (extension_turn d (length d)) (λ s. length d - s.p)
            (extension_turn-Falls d (length d)) s
            (turn_refused d body (encode_extensions es) s t r refused)
          ∙ rw refused refl
      | inr (s', read) ↦
          loop-next (extension_turn d (length d)) (λ s. length d - s.p)
            (extension_turn-Falls d (length d)) s _
            (turn_extension d body (encode_extensions es) s s' t r read)
          ∙ read_all_from es d (record s' { p = s.p + 4 + length body }) r.rest_at h.1
          ∙ rw read refl
    ]

-- Where the extensions of a hello end the message, each of them is read, in their order, from what
-- was known; an extension that is refused ends the reading.
pub extensions-encode_extensions :
    (es : List (ℕ × Bytes)) (d : Bytes) (s : Hello)
    → drop s.p d ≡ u16_be_bytes (length (encode_extensions es)) ++ encode_extensions es
    → length (encode_extensions es) < 2 ^ 16
    → All IsExtension es
    → extensions d s ≡ read_all es (record s { p = s.p + 2 })
unfolding extensions
extensions-encode_extensions es d s e small h =
    let total = length (encode_extensions es) in
    let at : drop (s.p + 2) d ≡ encode_extensions es = sym (drop-drop 2 s.p d) ∙ ap (drop 2) e in
    let end_is : min (s.p + 2 + total) (length d) ≡ length d =
      omega (arith, length-drop s.p d, ap length e) in
    ap (extensions_of d s) (be16-drop d (encode_extensions es) s.p total e small)
    ∙ ap
        (λ end.
          loop (extension_turn d end) (λ t. end - t.p) (extension_turn-Falls d end)
            (record s { p = s.p + 2 }))
        end_is
    ∙ read_all_from es d (record s { p = s.p + 2 }) at h
