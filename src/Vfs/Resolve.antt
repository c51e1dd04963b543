-- ===== src/Vfs/Resolve.antt =====
-- `vfs_resolve_rw` of emu/src/vfs.c. What `lstat` and `readlink` of the host say is an argument; it
-- does not change during the call, but for the directories that overlay_mkdirs makes, which are no
-- links. The static array `comp_store` keeps the components after the first link; a `memcpy` in
-- it reads its whole source first.
use alpine_on_ios.Vfs.Mount.{Mount, vfs_find_mount}
use alpine_on_ios.Vfs.Path.{Text, slash, dot, path_max, components, vfs_normalize_path}
use alpine_on_ios.Prelude.{
  ℕ, zero, suc, ◌+◌, ◌-◌, Bool, not, ◌&&◌, ◌||◌, ltb, leb, ◌==◌, if◌then◌else◌, update, List, [],
  ◌∷◌, ◌++◌, Option, none, some, ◌>>=◌, length, take, same_string,
}

-- What the host says of a path: it is no symbolic link (or does not exist), a link that cannot be
-- read, or a link with its target.
pub data Link : Type 0 where
  no_link unreadable : Link
  target : Text → Link

pub record Files : Type 0 where
  pub exists : Text → Bool
  pub link_at : Text → Link

-- A component: a string of its own, or one in comp_store.
pub data Component : Type 0 where
  own : Text → Component
  stored : ℕ → Component

-- The string at an offset, with as many characters as are left.
unfoldable pub string_at : ℕ → (ℕ → ℕ) → ℕ → Text
string_at zero store p = []
string_at (suc n) store p =
    let rest = string_at n store (p + 1) in if store p == 0 then [] else store p ∷ rest

unfoldable pub read_component : (ℕ → ℕ) → Component → Text
read_component store (own t) = t
read_component store (stored p) = string_at (path_max - p) store p

unfoldable pub put_string : (ℕ → ℕ) → ℕ → Text → ℕ → ℕ
put_string store p [] = update store p 0
put_string store p (c ∷ cs) = put_string (update store p c) (p + 1) cs

-- The components copied to comp_store one after the other, from `p` on.
unfoldable pub copy_back : (ℕ → ℕ) → ℕ → List Component → Option (List Component × (ℕ → ℕ))
copy_back store p [] = some ([], store)
copy_back store p (c ∷ rest) =
    let t = read_component store c in
    let later = copy_back (put_string store p t) (p + length t + 1) rest in
    if ltb (path_max - p) (length t + 1) then none else (later >>= λ r. some (stored p ∷ r.0, r.1))

-- The index of the last slash.
unfoldable pub later_slash : Bool → Option ℕ → Option ℕ
later_slash here (some i) = some (suc i)
later_slash here none = if here then some 0 else none

unfoldable pub last_slash : Text → Option ℕ
last_slash [] = none
last_slash (c ∷ cs) = later_slash (c == slash) (last_slash cs)

unfoldable pub cut_at : ℕ → Text → Option ℕ → Text
cut_at rootlen path none = path
cut_at rootlen path (some i) = if leb rootlen i then take i path else path

-- `..`: the last component goes, but not the root.
unfoldable pub pop_resolved : ℕ → Text → Text
pop_resolved rootlen resolved =
    if ltb rootlen (length resolved)
    then cut_at rootlen resolved (last_slash resolved)
    else resolved

-- Strings as components of their own.
unfoldable pub owned : List Text → List Component
owned [] = []
owned (t ∷ rest) = own t ∷ owned rest

-- Where the target of a link starts, and what is left to do after it.
unfoldable pub link_base : Text → Text → Text → Option Text
link_base rootfs resolved [] = some resolved
link_base rootfs resolved (c ∷ cs) =
    if c == slash
    then (if leb path_max (length rootfs) then none else some rootfs)
    else some resolved

unfoldable pub link_work : (ℕ → ℕ) → Text → List Component → Option (List Component × (ℕ → ℕ))
link_work store link rest =
    let work = owned (components link) ++ rest in
    if ltb 255 (length work) then none else copy_back store 0 work

-- The restart with a link, if one more is allowed.
abbrev pub Restart : Type 0
Restart = (ℕ → ℕ) → Text → List Component → Option Text

unfoldable pub follow : Restart → Text → (ℕ → ℕ) → Text → Text → List Component → Option Text
follow restart rootfs store resolved link rest = do
  base ← link_base rootfs resolved link
  work ← link_work store link rest
  restart (work.1) base (work.0)

-- What is done with a component that is neither `.` nor `..`, by what the host says of its path.
unfoldable pub step_into :
    Restart → Text → (ℕ → ℕ) → Text → Text → List Component → Option Text → Link → Option Text
step_into restart rootfs store resolved path rest later no_link =
    if leb path_max (length path) then none else later
step_into restart rootfs store resolved path rest later unreadable = none
step_into restart rootfs store resolved path rest later (target link) =
    follow restart rootfs store resolved link rest

-- One pass over the components, to the end or to the first link.
unfoldable pub resolve_pass : Files → Text → ℕ → Restart → Restart
resolve_pass files rootfs size restart store resolved [] =
    if leb size (length resolved) then none else some resolved
resolve_pass files rootfs size restart store resolved (c ∷ rest) =
    let name = read_component store c in
    let path = resolved ++ slash ∷ name in
    let up =
      resolve_pass files rootfs size restart store (pop_resolved (length rootfs) resolved) rest in
    let same = resolve_pass files rootfs size restart store resolved rest in
    let down = resolve_pass files rootfs size restart store path rest in
    if same_string name (dot ∷ [])
    then same
    else if same_string name (dot ∷ dot ∷ [])
    then up
    else if leb size (length path)
    then none
    else step_into restart rootfs store resolved path rest down (files.link_at path)

-- The passes, with the number of links that may still be followed.
unfoldable pub resolve_links : ℕ → Files → Text → ℕ → Restart
resolve_links zero files rootfs size = resolve_pass files rootfs size (λ store base work. none)
resolve_links (suc n) files rootfs size =
    resolve_pass files rootfs size (resolve_links n files rootfs size)

-- The root of the rootfs or of the overlay from which the path is resolved.
unfoldable pub choose_base : Files → Text → Text → Bool → Text → Option Text
choose_base files rootfs overlay write pathbuf =
    let ovpath = overlay ++ pathbuf in
    if not (length overlay == 0) && ltb (length ovpath) path_max && (write || files.exists ovpath)
    then some overlay
    else if leb path_max (length rootfs)
    then none
    else some rootfs

unfoldable pub no_mount : Option (Mount × Text) → Option Text → Option Text
no_mount none resolved = resolved
no_mount (some found) resolved = none

-- `none` for -1; else the path on the host.
unfoldable pub vfs_resolve_rw :
    Files → List Mount → Text → Text → (ℕ → ℕ) → Text → ℕ → Bool → Option Text
vfs_resolve_rw files mounts rootfs overlay store guest_path size write =
    let pathbuf = vfs_normalize_path (slash ∷ []) guest_path path_max in
    let names = components pathbuf in
    no_mount (vfs_find_mount mounts guest_path) (do
      base ← choose_base files rootfs overlay write pathbuf
      if ltb 255 (length names)
          then none
          else resolve_links 40 files rootfs size store base (owned names))
