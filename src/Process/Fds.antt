-- ===== src/Process/Fds.antt =====
-- The table of file descriptors of emu/src/process.c: `fd_alloc_init`, `fd_alloc`, `fd_get`,
-- `fd_close`, `fd_close_cloexec` and `fd_table_clone`. What is given back to the host is a list, in
-- order; the reference count and the lock are left out.
use alpine_on_ios.Prelude.{
  ℕ, zero, suc, ◌-◌, ◌^◌, Bool, not, ◌&&◌, ◌||◌, ltb, leb, ◌==◌, if◌then◌else◌, is_true, update,
  List, [], ◌∷◌, ◌++◌, Option, none, some,
}

-- `fd_entry_t`: a type of 0 is FD_NONE, a host descriptor is the pattern of an `int`, and pointers
-- are their addresses.
pub record FdEntry : Type 0 where
  pub kind : ℕ
  pub real_fd : ℕ
  pub flags : ℕ
  pub cloexec : ℕ
  pub private : ℕ
  pub close_fn : ℕ

abbrev pub max_fds : ℕ
max_fds = 1024

abbrev pub Fds : Type 0
Fds = ℕ → FdEntry

-- After `memset(..., 0, ...)`.
abbrev pub no_entry : FdEntry
no_entry = record { kind = 0; real_fd = 0; flags = 0; cloexec = 0; private = 0; close_fn = 0 }

-- An `int` that is not negative.
abbrev pub is_fd : ℕ → Bool
is_fd n = ltb n (2 ^ 31)

-- The search, from `i` on.
unfoldable pub find_free : ℕ → Fds → ℕ → Option ℕ
find_free zero fds i = none
find_free (suc n) fds i = if (fds i).kind == 0 then some i else find_free n fds (suc i)

unfoldable pub install : Fds → FdEntry → Option ℕ → Option (ℕ × Fds)
install fds init none = none
install fds init (some i) = some (i, update fds i init)

-- `none` for -EMFILE. A negative `minfd` counts as 0.
unfoldable pub fd_alloc_init : Fds → ℕ → FdEntry → Option (ℕ × Fds)
fd_alloc_init fds minfd init =
    let first = if is_fd minfd then minfd else 0 in
    install fds init (find_free (max_fds - first) fds first)

unfoldable pub fd_alloc : Fds → ℕ → Option (ℕ × Fds)
fd_alloc fds minfd = fd_alloc_init fds minfd (record no_entry { kind = 1; real_fd = 2 ^ 32 - 1 })

unfoldable pub fd_get : Fds → ℕ → Option FdEntry
fd_get fds fd = if leb max_fds fd then none else if (fds fd).kind == 0 then none else some (fds fd)

-- What the host gets back: `close`, a call of `close_fn`, or `free`.
pub data Release : Type 0 where
  closed : ℕ → Release
  called : ℕ → ℕ → Release
  freed : ℕ → Release

unfoldable pub release_host : FdEntry → List Release
release_host e = if is_fd e.real_fd then closed e.real_fd ∷ [] else []

unfoldable pub release_private : FdEntry → List Release
release_private e =
    if is_true e.close_fn
    then called e.close_fn e.private ∷ []
    else if is_true e.private
    then freed e.private ∷ []
    else []

unfoldable pub release_entry : FdEntry → List Release
release_entry e = release_host e ++ release_private e

unfoldable pub fd_close : Fds → ℕ → Fds × List Release
fd_close fds fd =
    if leb max_fds fd
    then (fds, [])
    else if (fds fd).kind == 0
    then (fds, [])
    else (update fds fd no_entry, release_entry (fds fd))

-- The loop of fd_close_cloexec, from `i` on.
unfoldable pub close_from : ℕ → Fds → ℕ → Fds × List Release
close_from zero fds i = (fds, [])
close_from (suc n) fds i =
    let gone = not ((fds i).kind == 0) && is_true (fds i).cloexec in
    let rest = close_from n (if gone then update fds i no_entry else fds) (suc i) in
    if gone then (rest.0, release_entry (fds i) ++ rest.1) else rest

unfoldable pub fd_close_cloexec : Fds → Fds × List Release
fd_close_cloexec fds = close_from max_fds fds 0

-- `fd_table_clone`: `dup` is what the host answers for a slot and its descriptor, `none` for -1.
unfoldable pub duplicated : FdEntry → Option ℕ → FdEntry
duplicated e none = record e { kind = 0 }
duplicated e (some fd) = record e { real_fd = fd }

unfoldable pub fd_table_clone : (ℕ → ℕ → Option ℕ) → Fds → Fds
fd_table_clone dup fds i =
    let e = record (fds i) { private = 0; close_fn = 0 } in
    if leb max_fds i || (fds i).kind == 0
    then no_entry
    else if is_fd e.real_fd
    then duplicated e (dup i e.real_fd)
    else e
