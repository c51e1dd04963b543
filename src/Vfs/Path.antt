-- ===== src/Vfs/Path.antt =====
-- `vfs_normalize_path` of emu/src/vfs.c. A pointer to a component of a path is the component. The array
-- of 2048 pointers is long enough for a path that fits PATH_MAX (Vfs.Bound), as those of the callers
-- do; a longer absolute path, with which C would write past its end, is not modelled.
use alpine_on_ios.Prelude.{ℕ, ◌-◌, ◌==◌, if◌then◌else◌, List, [], ◌∷◌, ◌++◌, take, same_string}

abbrev pub path_max : ℕ
path_max = 4096

-- '/' and '.'
abbrev pub slash : ℕ
slash = 47

abbrev pub dot : ℕ
dot = 46

abbrev pub Text : Type 0
Text = List ℕ

-- A component that has ended, unless it is empty.
unfoldable pub add_component : Text → List Text → List Text
add_component [] found = found
add_component (c ∷ cs) found = (c ∷ cs) ∷ found

-- The component that a path starts with, which may be empty, and the later ones.
unfoldable pub scan : Text → Text × List Text
scan [] = ([], [])
scan (c ∷ rest) =
    let later = scan rest in
    if c == slash then ([], add_component (later.0) (later.1)) else (c ∷ later.0, later.1)

unfoldable pub components : Text → List Text
components path = add_component ((scan path).0) ((scan path).1)

unfoldable pub pop_name : List Text → List Text
pop_name [] = []
pop_name (c ∷ stack) = stack

-- What the loop does with a component; the stack has its top first.
unfoldable pub enter : List Text → Text → List Text
enter stack c =
    if same_string c (dot ∷ [])
    then stack
    else if same_string c (dot ∷ dot ∷ [])
    then pop_name stack
    else c ∷ stack

unfoldable pub walk : List Text → List Text → List Text
walk stack [] = stack
walk stack (c ∷ rest) = walk (enter stack c) rest

-- The path of a stack: its components from the bottom, each after a slash.
unfoldable pub rebuild : List Text → Text
rebuild [] = []
rebuild (c ∷ stack) = rebuild stack ++ slash ∷ c

unfoldable pub render : List Text → Text
render [] = slash ∷ []
render (c ∷ stack) = rebuild (c ∷ stack)

-- The path to go through: a relative one comes after the working directory, cut to the buffer.
unfoldable pub full_path : Text → Text → Text
full_path cwd [] = take (path_max - 1) (cwd ++ slash ∷ [])
full_path cwd (c ∷ rest) =
    if c == slash then c ∷ rest else take (path_max - 1) (cwd ++ slash ∷ c ∷ rest)

-- What the buffer `out` gets; with a size of 0 it gets nothing.
unfoldable pub vfs_normalize_path : Text → Text → ℕ → Text
vfs_normalize_path cwd path outsiz =
    take (outsiz - 1) (render (walk [] (components (full_path cwd path))))
