-- ===== src/Base/Addr.antt =====
-- `str::parse` of `std::net::Ipv4Addr` and `Ipv6Addr`: the parser of the standard library, which
-- gives the number of an address and what is left of the text.
use Prim.Native.Nat.{ℕ, zero, suc, ◌+◌, ◌-◌, ◌*◌, ◌/◌, ◌%◌, ◌^◌}
use mathlib.Core.Bool.{Bool, true, false, not, ◌&&◌, ◌||◌}
use mathlib.Core.List.{List, [], ◌∷◌, ◌++◌}
use mathlib.Core.Option.{Option, none, some}
use kirb_la_snoop.Base.Logic.{ltb, leb, ◌==◌, if◌then◌else◌, ◌>>=◌}
use kirb_la_snoop.Base.Lists.{length, replicate}
use kirb_la_snoop.Base.Words.{Text}
use kirb_la_snoop.Base.HexText.{hex_digit}
use kirb_la_snoop.Base.Net.{Ipv4Addr, Ipv6Addr}

-- `char::to_digit(10)`
abbrev digit : ℕ → Option ℕ
digit c = if leb b'0' c && leb c b'9' then some (c - b'0') else none

abbrev onto_digits : Option ℕ → ℕ → Text → List ℕ × Text → List ℕ × Text
onto_digits none c cs rest = ([], c ∷ cs)
onto_digits (some d) c cs (ds, left) = (d ∷ ds, left)

-- The digits at the front.
unfoldable pub digits_of : (ℕ → Option ℕ) → Text → List ℕ × Text
digits_of to_digit [] = ([], [])
digits_of to_digit (c ∷ cs) = onto_digits (to_digit c) c cs (digits_of to_digit cs)

unfoldable pub value_of : ℕ → ℕ → List ℕ → ℕ
value_of radix acc [] = acc
value_of radix acc (d ∷ ds) = value_of radix (acc * radix + d) ds

abbrev has_leading_zero : Text → Bool
has_leading_zero [] = false
has_leading_zero (c ∷ cs) = c == b'0'

-- `read_number`, for at most `max_digits` digits and numbers under `bound`.
unfoldable pub read_number : (ℕ → Option ℕ) → ℕ → ℕ → Bool → ℕ → Text → Option (ℕ × Text)
unfolding digits_of value_of
read_number to_digit radix max_digits allow_zero_prefix bound t =
    let ds = (digits_of to_digit t).0 in
    if length ds == 0 || ltb max_digits (length ds)
    then none
    else if not allow_zero_prefix && has_leading_zero t && ltb 1 (length ds)
    then none
    else if ltb (value_of radix 0 ds) bound
    then some (value_of radix 0 ds, (digits_of to_digit t).1)
    else none

-- `read_given_char`
abbrev read_given : ℕ → Text → Option Text
read_given sep [] = none
read_given sep (c ∷ cs) = if c == sep then some cs else none

-- `read_separator`: the separator stands before all but the first.
abbrev read_separator {ℓ} : {A : Type ℓ} → ℕ → ℕ → (Text → Option A) → Text → Option A
read_separator sep zero inner t = inner t
read_separator sep (suc i) inner t = read_given sep t >>= inner

abbrev octet : Text → Option (ℕ × Text)
octet = read_number digit 10 3 false 256

-- `read_ipv4_addr`
unfoldable pub read_ipv4_addr : Text → Option (Ipv4Addr × Text)
unfolding read_number
read_ipv4_addr t = do
  a ← octet t
  b ← read_separator b'.' 1 octet a.1
  c ← read_separator b'.' 2 octet b.1
  d ← read_separator b'.' 3 octet c.1
  some (((a.0 * 256 + b.0) * 256 + c.0) * 256 + d.0, d.1)

-- The whole text has to be read.
abbrev whole : ℕ × Text → Option ℕ
whole (n, []) = some n
whole (n, c ∷ cs) = none

-- `s.parse::<Ipv4Addr>()`; no address is longer than 15 characters.
unfoldable pub parse_ipv4 : Text → Option Ipv4Addr
unfolding read_ipv4_addr
parse_ipv4 t = if ltb 15 (length t) then none else (read_ipv4_addr t >>= whole)

-- The groups that were read, whether an IPv4 address ended them, and what is left.
pub record Groups : Type 0 where
  pub groups : List ℕ
  pub ends_in_ipv4 : Bool
  pub rest : Text

abbrev group : Text → Option (ℕ × Text)
group = read_number hex_digit 16 4 true (2 ^ 16)

abbrev ipv4_groups : ℕ × Text → Groups
ipv4_groups (ip, rest) = record {
  groups = ip / 2 ^ 16 ∷ ip % 2 ^ 16 ∷ [];
  ends_in_ipv4 = true;
  rest = rest;
}

abbrev onto_groups : ℕ → Groups → Groups
onto_groups g r = record r { groups = g ∷ r.groups }

-- `read_groups`, with `left` places to fill from place `i`; the last place has no room for an IPv4
-- address.
unfoldable pub read_groups : ℕ → ℕ → Text → Groups
unfolding read_ipv4_addr read_number
read_groups zero i t = record { groups = []; ends_in_ipv4 = false; rest = t }
read_groups (suc left) i t =
    elim (if left == 0 then none else read_separator b':' i read_ipv4_addr t) [
      | some ip ↦ ipv4_groups ip
      | none ↦ elim (read_separator b':' i group t) [
        | none ↦ record { groups = []; ends_in_ipv4 = false; rest = t }
        | some (g, after) ↦ onto_groups g (read_groups left (suc i) after)
      ]
    ]

abbrev after_head : Groups → Option (ℕ × Text)
after_head head =
    if length head.groups == 8
    then some (value_of (2 ^ 16) 0 head.groups, head.rest)
    else if head.ends_in_ipv4
    then none
    else (do
      t ← read_given b':' head.rest
      t' ← read_given b':' t
      let room = 7 - length head.groups
      let tail = read_groups room 0 t'
      let zeros = replicate (8 - length head.groups - length tail.groups) 0
      some (value_of (2 ^ 16) 0 (head.groups ++ (zeros ++ tail.groups)), tail.rest))

-- `s.parse::<Ipv6Addr>()`
unfoldable pub parse_ipv6 : Text → Option Ipv6Addr
unfolding read_groups value_of
parse_ipv6 t = after_head (read_groups 8 0 t) >>= whole

abbrev close_bracket : ℕ × Text → Option (ℕ × Text)
close_bracket (ip, t) = read_given b']' t >>= λ rest. some (ip, rest)

-- `read_scope_id`, where there is one.
abbrev skip_scope : ℕ × Text → ℕ × Text
skip_scope (ip, []) = (ip, [])
skip_scope (ip, c ∷ cs) =
    if c == b'%'
    then elim (read_number digit 10 (length cs) true (2 ^ 32) cs) [
      | none ↦ (ip, c ∷ cs)
      | some scope ↦ (ip, scope.1)
    ]
    else (ip, c ∷ cs)

-- `read_port`, and the end of the text
abbrev read_port : ℕ × Text → Option (ℕ × ℕ)
read_port (ip, t) = do
  after ← read_given b':' t
  port ← read_number digit 10 (length after) true (2 ^ 16) after
  whole (ip, port.1) >>= λ ip'. some (ip', port.0)

-- `s.parse::<SocketAddrV4>()` and `s.parse::<SocketAddrV6>()`: the address and the port.
unfoldable pub parse_socket_v4 : Text → Option (Ipv4Addr × ℕ)
unfolding read_ipv4_addr read_number
parse_socket_v4 t = read_ipv4_addr t >>= read_port

unfoldable pub parse_socket_v6 : Text → Option (Ipv6Addr × ℕ)
unfolding read_groups value_of read_number
parse_socket_v6 t = do
  inner ← read_given b'[' t
  ip ← after_head (read_groups 8 0 inner)
  closed ← close_bracket (skip_scope ip)
  read_port closed
