-- ===== src/Vfs/Mount.antt =====
-- `vfs_mount` and `vfs_find_mount` of emu/src/vfs.c. The operations of a mount are a number, which
-- stands for the pointer to them. The block that describes a mount is always found.
use alpine_on_ios.Vfs.Path.{Text, path_max, slash}
use alpine_on_ios.Prelude.{
  ℕ, ◌-◌, ltb, ◌==◌, if◌then◌else◌, List, [], ◌∷◌, Option, none, some, length, take,
}

pub record Mount : Type 0 where
  pub prefix : Text
  pub ops : ℕ

-- The list stays sorted by the length of the prefix, the longest first.
unfoldable pub insert_mount : List Mount → Mount → List Mount
insert_mount [] m = m ∷ []
insert_mount (q ∷ rest) m =
    let later = insert_mount rest m in
    if ltb (length q.prefix) (length m.prefix) then m ∷ q ∷ rest else q ∷ later

-- The prefix is cut to its buffer.
unfoldable pub vfs_mount : List Mount → Text → ℕ → List Mount
vfs_mount mounts prefix ops =
    insert_mount mounts (record { prefix = take (path_max - 1) prefix; ops = ops })

-- What follows a prefix in a path, if the path starts with it.
unfoldable pub after_prefix : Text → Text → Option Text
after_prefix path [] = some path
after_prefix [] (c ∷ prefix) = none
after_prefix (d ∷ path) (c ∷ prefix) =
    let rest = after_prefix path prefix in if d == c then rest else none

-- The path under the mount: the prefix has to be the whole path or end before a slash.
unfoldable pub sub_path : Option Text → Option Text
sub_path none = none
sub_path (some []) = some (slash ∷ [])
sub_path (some (c ∷ rest)) = if c == slash then some (c ∷ rest) else none

unfoldable pub found_or : Mount → Option Text → Option (Mount × Text) → Option (Mount × Text)
found_or m none later = later
found_or m (some sub) later = some (m, sub)

unfoldable pub vfs_find_mount : List Mount → Text → Option (Mount × Text)
vfs_find_mount [] path = none
vfs_find_mount (m ∷ rest) path =
    found_or m (sub_path (after_prefix path m.prefix)) (vfs_find_mount rest path)
