-- ===== src/Options/Paths.antt =====
-- The paths that `parse_options` of src/options.c leaves behind.
pub mod Slash
use the_silver_searcher.Base.{
  ℕ, ◌-◌, Bool, true, false, not, ◌&&◌, Option, none, some, List, [], ◌∷◌, ◌++◌, map, at, length,
  take, ltb, ◌==◌, if◌then◌else◌,
}
use the_silver_searcher.Program.{PathArg}

abbrev pub ends_in_slash : List ℕ → Bool
ends_in_slash s = at s (length s - 1) == b'/'

-- A slash at the end of a path is taken off.
unfoldable pub strip_slash : List ℕ → List ℕ
strip_slash path =
    if ltb 1 (length path) && ends_in_slash path then take (length path - 1) path else path

-- One is put behind the path that it stands for.
unfoldable pub slash_base : List ℕ → List ℕ
slash_base base_path =
    if ltb 1 (length base_path) && not (ends_in_slash base_path)
    then base_path ++ b'/' ∷ []
    else base_path

abbrev pub slash_option : Option (List ℕ) → Option (List ℕ)
slash_option none = none
slash_option (some base_path) = some (slash_base base_path)

-- `paths` and `base_paths`, and `opts.search_stream`.
pub record Given : Type 0 where
  pub paths : List PathArg
  pub search_stream : Bool

-- `realpath` is that of the system.
module _ (realpath : List ℕ → Option (List ℕ)) where
  unfoldable pub path_arg : (argument : List ℕ) → PathArg
  path_arg argument = record {
    path = strip_slash argument;
    base_path = slash_option (realpath (strip_slash argument));
  }

  -- Without a path the current directory is searched, if the input is not.
  unfoldable pub paths_of : (arguments : List (List ℕ)) (search_stream : Bool) → Given
  paths_of [] search_stream = record {
    paths = record { path = b'.' ∷ []; base_path = realpath (b'.' ∷ []) } ∷ [];
    search_stream = search_stream;
  }
  paths_of (a ∷ arguments) search_stream = record {
    paths = map path_arg (a ∷ arguments);
    search_stream = false;
  }
