-- ===== src/Main/Transparent.antt =====
-- src/main.rs: `print_transparent`, the netfilter rules that are printed.
use kirb_la_snoop.Base.{
  ℕ, Bool, Option, none, some, List, [], ◌∷◌, ◌++◌, Text, codes, if◌then◌else◌,
}
use kirb_la_snoop.Base.Decimal.{decimal}

-- What is asked for.
pub record Capture : Type 0 where
  pub port : ℕ
  pub uid : Text
  pub dport : Option Text
  pub include_loopback : Bool

abbrev pub ports_match : Option Text → Text
ports_match none = []
ports_match (some ports) = codes " -m multiport --dports " ++ ports

-- `m`
unfoldable pub rule_match : Capture → Text
rule_match c = codes "-p tcp -m owner --uid-owner " ++ (c.uid ++ ports_match c.dport)

-- `jump`
abbrev pub jump : Capture → Text
jump c = codes "-j REDIRECT --to-ports " ++ decimal c.port

-- `v4_skip` and `v6_skip`
abbrev pub v4_skip : Capture → Text
v4_skip c = if c.include_loopback then [] else codes " ! -d 127.0.0.0/8"

abbrev pub v6_skip : Capture → Text
v6_skip c = if c.include_loopback then [] else codes " ! -d ::1/128"

-- A rule of iptables and of ip6tables, added or deleted.
unfoldable pub v4_rule : Capture → Text → Text
unfolding rule_match
v4_rule c action =
    codes "sudo iptables  -t nat "
    ++ (action ++ (codes " OUTPUT " ++ (rule_match c ++ (v4_skip c ++ (b' ' ∷ jump c)))))

unfoldable pub v6_rule : Capture → Text → Text
unfolding rule_match
v6_rule c action =
    codes "sudo ip6tables -t nat "
    ++ (action ++ (codes " OUTPUT " ++ (rule_match c ++ (v6_skip c ++ (b' ' ∷ jump c)))))

-- The lines that `print_transparent` prints.
unfoldable pub transparent_lines : Capture → List Text
unfolding v4_rule v6_rule
transparent_lines c =
    (codes "# transparent catch-all: every tcp connection made by uid '"
      ++ (c.uid ++ codes "' lands in kls,"))
    ∷ codes "# which recovers the real destination from conntrack via SO_ORIGINAL_DST."
    ∷ codes "# nothing below is executed for you. read it, then run what you want."
    ∷ []
    ∷ codes "# 1. a throwaway user to scope the redirect (once):"
    ∷ (codes "sudo useradd --no-create-home --shell /usr/sbin/nologin " ++ c.uid)
    ∷ []
    ∷ codes "# 2. start the vacuum on the catch-all port:"
    ∷ (codes "kls tcp:" ++ decimal c.port)
    ∷ []
    ∷ codes "# 3. install the redirect:"
    ∷ v4_rule c (codes "-A")
    ∷ v6_rule c (codes "-A")
    ∷ []
    ∷ codes "# 4. run the program under test as that user:"
    ∷ (codes "sudo -u " ++ (c.uid ++ codes " ./the-unknown-binary"))
    ∷ []
    ∷ codes "# 5. tear down (identical rules, -D instead of -A):"
    ∷ v4_rule c (codes "-D")
    ∷ v6_rule c (codes "-D")
    ∷ []
    ∷ codes "# notes"
    ∷ codes "#   - scoping by --uid-owner is what keeps this off your own traffic. dropping"
    ∷ codes "#     it redirects every outbound tcp connection on the box, including this"
    ∷ codes "#     shell's. do not."
    ∷ codes "#   - only affects locally-originated traffic (OUTPUT). to catch another host,"
    ∷ codes "#     put the rule in PREROUTING on the box that routes for it."
    ∷ codes "#   - udp is not covered: REDIRECT does not carry the original destination for"
    ∷ codes "#     datagrams, that needs TPROXY. udp listeners still capture, just without"
    ∷ codes "#     the WANTED line."
    ∷ codes "#   - conntrack must be loaded; the nat table pulls it in automatically."
    ∷ []

unfoldable pub unlines : List Text → Text
unlines [] = []
unlines (l ∷ ls) = l ++ (10 ∷ unlines ls)

-- `print_transparent`
unfoldable pub print_transparent : Capture → Text
unfolding transparent_lines unlines
print_transparent c = unlines (transparent_lines c)
