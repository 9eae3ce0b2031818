-- ===== src/Main/Wait.antt =====
-- src/main.rs: how the wait for the tasks ends.
use kirb_la_snoop.Base.{ℕ, ◌+◌, ◌<◌, List, [], ◌∷◌, ◌++◌, ◌≡◌, length, map}
use kirb_la_snoop.Main.{Joined, Heard, joined, count_failed}
use mathlib.Core.Option

-- How many of some tasks have failed.
abbrev pub failures : List Joined → ℕ
failures [] = 0
failures (j ∷ js) = count_failed (failures js) j

-- All of `live` tasks have ended, at least one of them with an error, before anything else is heard.
pub record AllEnded (live before : ℕ) (hs : List Heard) : Type 0 where
  pub ends : List Joined
  pub later : List Heard
  pub heard_is : hs ≡ map joined ends ++ later
  pub all_of_them : length ends ≡ live
  pub some_failed : 0 < before + failures ends
