-- ===== src/Config/Places.antt =====
-- internal/config/paths.go
use ardvark.Prelude.{Bool, List, [], ◌∷◌, Option, none, some, Text, codes, is_empty, if◌then◌else◌}

-- The platform, the environment, and the files; none is an error of `os`.
pub record Places : Type 0 where
  pub is_windows : Bool
  pub os_config_dir : Option Text
  pub xdg_config_home : Text
  pub home_dir : Option Text
  pub is_file : Text → Bool
  pub join_path : Text → Text → Text

module _ (w : Places) where
  abbrev pub or_nowhere : Option Text → Text
  or_nowhere none = []
  or_nowhere (some dir) = dir

  abbrev pub under_home : Option Text → Text
  under_home none = []
  under_home (some home) = w.join_path home (codes ".config")

  -- `userConfigDir`.
  abbrev pub user_config_dir : Text
  user_config_dir =
      if w.is_windows
      then or_nowhere w.os_config_dir
      else if is_empty w.xdg_config_home
      then under_home w.home_dir
      else w.xdg_config_home

  -- `SearchPaths`.
  abbrev pub search_paths : List Text
  search_paths =
      codes "ardvark.json"
      ∷ (if is_empty user_config_dir
          then []
          else w.join_path user_config_dir (w.join_path (codes "ardvark") (codes "ardvark.json"))
            ∷ [])

  -- The loop of `ResolvePath`.
  unfoldable pub first_file : List Text → Text
  first_file [] = codes "ardvark.json"
  first_file (p ∷ ps) = if w.is_file p then p else first_file ps

  -- `ResolvePath`.
  unfoldable pub resolve_path : Text → Text
  unfolding first_file
  resolve_path explicit = if is_empty explicit then first_file search_paths else explicit
