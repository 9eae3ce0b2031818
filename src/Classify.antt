-- ===== src/Classify.antt =====
-- src/classify.rs: the hint on a message, from its first bytes.
pub mod Tls
pub mod Http
pub mod Dns
pub mod Other
pub mod Query
mod Tests
use kirb_la_snoop.Base.{Option, none, some, [], ◌∷◌, Bytes, Text}
use kirb_la_snoop.Classify.Tls.{tls}
use kirb_la_snoop.Classify.Http.{http}
use kirb_la_snoop.Classify.Dns.{dns}
use kirb_la_snoop.Classify.Other.{other}
use mathlib.Core.Option

-- `or_else`
abbrev pub or_else {ℓ} : {A : Type ℓ} → Option A → Option A → Option A
or_else none o = o
or_else (some a) o = some a

-- `classify`
unfoldable pub classify : Bytes → Option Text
classify [] = none
classify (b ∷ bs) = let d = b ∷ bs in or_else (or_else (or_else (tls d) (http d)) (dns d)) (other d)
