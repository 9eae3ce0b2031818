-- ===== src/Main/Dirs.antt =====
-- src/main.rs: `resolve_profile_dir`.
use kirb_la_snoop.Base.{Option, none, some, List, [], ◌∷◌, ◌++◌, Text, codes, if◌then◌else◌}
use kirb_la_snoop.Base.Paths.{Files, join_path}

-- The environment, by `var_os`.
pub record Environment : Type 0 where
  pub xdg_data_home : Option Text
  pub home : Option Text

abbrev pub candidate_in : Option Text → Text → List Text
candidate_in none p = []
candidate_in (some dir) p = join_path dir p ∷ []

-- The directories that are tried behind the first.
unfoldable pub later_candidates : Environment → List Text
later_candidates env =
    candidate_in env.xdg_data_home (codes "kirblasnoop/profiles")
    ++ (candidate_in env.home (codes ".local/share/kirblasnoop/profiles")
        ++ (codes "/usr/local/share/kirblasnoop/profiles"
            ∷ codes "/usr/share/kirblasnoop/profiles"
            ∷ []))

abbrev pub first_candidate : Text
first_candidate = codes "profiles"

-- `candidates.iter().find(|p| p.is_dir())`
unfoldable pub find_dir : Files → List Text → Option Text
find_dir fs [] = none
find_dir fs (p ∷ ps) = let later = find_dir fs ps in if fs.is_dir p then some p else later

-- `resolve_profile_dir`
unfoldable pub resolve_profile_dir : Files → Environment → Option Text → Text
unfolding later_candidates find_dir
resolve_profile_dir fs env (some p) = p
resolve_profile_dir fs env none = elim (find_dir fs (first_candidate ∷ later_candidates env)) [
  | some p ↦ p
  | none ↦ first_candidate
]
