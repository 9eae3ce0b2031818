-- ===== src/Classify/Tls/Alpn.antt =====
-- src/classify.rs: the protocol names that `parse_alpn` reads back.
use kirb_la_snoop.Base.{
  ℕ, ◌+◌, List, [], ◌∷◌, ◌++◌, ◌≡◌, refl, sym, ap, ◌∙◌, Bytes, Text, All, length, drop, get_elem?,
  arith, append-nil, append_assoc, length-drop, lt→ltb, u16_be_bytes,
}
use kirb_la_snoop.Base.Utf8.{IsAscii}
use kirb_la_snoop.Base.Lossy.{from_utf8_lossy_ascii}
use kirb_la_snoop.Base.Loop.{loop, next, done, loop-next, loop-done}
use kirb_la_snoop.Dns.Names.{get_elem?-drop, drop_label}
use kirb_la_snoop.Classify.Dns.Hint.{label_in}
use kirb_la_snoop.Classify.Tls.Entries.{remaining, alpn_turn, alpn_turn-Falls, parse_alpn}

-- The names on the wire, each behind its length.
unfoldable pub encode_protos : List Bytes → Bytes
encode_protos [] = []
encode_protos (l ∷ ls) = length l ∷ (l ++ encode_protos ls)

turn_proto :
    (b l rest : Bytes) (p : ℕ) (out : List Text)
    → drop p b ≡ length l ∷ (l ++ rest)
    → All IsAscii l
    → alpn_turn b (record { p = p; out = out })
      ≡ next (record { p = p + 1 + length l; out = out ++ l ∷ [] })
unfolding alpn_turn
turn_proto b l rest p out e h = ground (
  arith,
  lt→ltb p (length b) (omega (arith, length-drop p b, ap length e)),
  get_elem?-drop b p ∙ ap (λ (xs : Bytes). get_elem? xs 0) e,
  label_in b l rest p e,
  from_utf8_lossy_ascii l h,
)

turn_stop :
    (b : Bytes) (p : ℕ) (out : List Text)
    → drop p b ≡ []
    → alpn_turn b (record { p = p; out = out }) ≡ done out
unfolding alpn_turn
turn_stop b p out e = ground (arith, length-drop p b, ap length e)

protos_from :
    (ls : List Bytes) (b : Bytes) (p : ℕ) (out : List Text)
    → drop p b ≡ encode_protos ls
    → All (All IsAscii) ls
    → loop (alpn_turn b) (λ s. remaining b s.p) (alpn_turn-Falls b) (record { p = p; out = out })
      ≡ out ++ ls
unfolding encode_protos
protos_from [] b p out e h =
    loop-done (alpn_turn b) (λ s. remaining b s.p) (alpn_turn-Falls b) _ (turn_stop b p out e)
    ∙ sym (append-nil out)
protos_from (l ∷ ls) b p out e h =
    loop-next (alpn_turn b) (λ s. remaining b s.p) (alpn_turn-Falls b) _ _
      (turn_proto b l (encode_protos ls) p out e h.0)
    ∙ protos_from ls b (p + 1 + length l) (out ++ l ∷ []) (drop_label b l (encode_protos ls) p e)
        h.1
    ∙ append_assoc out (l ∷ []) ls

-- `parse_alpn` reads back every list of ASCII names that is put on the wire, each behind its length,
-- whatever the two bytes before it say.
pub parse_alpn-encode_protos :
    (ls : List Bytes) (len : ℕ)
    → All (All IsAscii) ls
    → parse_alpn (u16_be_bytes len ++ encode_protos ls) ≡ ls
unfolding parse_alpn
parse_alpn-encode_protos ls len h =
    protos_from ls (u16_be_bytes len ++ encode_protos ls) 2 [] refl h
