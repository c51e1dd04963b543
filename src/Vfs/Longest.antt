-- ===== src/Vfs/Longest.antt =====
-- The mount that `vfs_find_mount` of emu/src/vfs.c finds.
use alpine_on_ios.Vfs.Mount.{
  Mount, insert_mount, vfs_mount, after_prefix, sub_path, found_or, vfs_find_mount,
}
use alpine_on_ios.Vfs.Path.{Text, path_max, slash}
use mathlib.Core.List.{append-nil}
use mathlib.Core.Option.{some-injective}
use alpine_on_ios.Prelude.{
  ℕ, ◌-◌, ◌≤◌, ◌≡◌, ◌∙◌, sym, arith, List, [], ◌∷◌, Option, none, some, length, take, ltb, if-cases,
  Option-cases, inl, inr, ltb→le, ltb→lt, zero, suc, ◌++◌, ◌==◌, ==_iff, Bool-cases, true, ap,
  subst, refl,
}

-- The list of mounts is sorted: no prefix is longer than the one before, or than the limit.
pub data IsSorted : ℕ → List Mount → Type 0 where
  empty : {limit : ℕ} → IsSorted limit []
  next :
      {limit : ℕ} {m : Mount} {rest : List Mount}
      → length m.prefix ≤ limit
      → IsSorted (length m.prefix) rest
      → IsSorted limit (m ∷ rest)

pub data IsMount (m : Mount) : List Mount → Type 0 where
  here : {rest : List Mount} → IsMount m (m ∷ rest)
  there : {q : Mount} {rest : List Mount} → IsMount m rest → IsMount m (q ∷ rest)

-- The path is the prefix of the mount, or that and what comes after a slash; and the path under the
-- mount, from that slash on.
pub data IsUnder (m : Mount) (path : Text) : Text → Type 0 where
  itself : path ≡ m.prefix → IsUnder m path (slash ∷ [])
  below : (rest : Text) → path ≡ m.prefix ++ slash ∷ rest → IsUnder m path (slash ∷ rest)

-- The test of the code.
abbrev under : Mount → Text → Option Text
under m path = sub_path (after_prefix path m.prefix)

-- A path that starts with the prefix, and what follows.
after_prefix-split :
    (path prefix rest : Text) → after_prefix path prefix ≡ some rest → path ≡ prefix ++ rest
unfolding after_prefix
after_prefix-split path [] rest h = some-injective _ _ h
after_prefix-split [] (c ∷ prefix) rest h = absurd (ground (arith, h))
after_prefix-split (d ∷ path) (c ∷ prefix) rest h = elim (Bool-cases (d == c)) [
  | inl same ↦
      let later : after_prefix path prefix ≡ some rest = ground (arith, h, same) in
      ap (λ (k : ℕ). k ∷ path) ((==_iff d c).0 same)
      ∙ ap (λ (t : Text). c ∷ t) (after_prefix-split path prefix rest later)
  | inr other ↦ absurd (ground (arith, h, other))
]

after_prefix-append : (prefix rest : Text) → after_prefix (prefix ++ rest) prefix ≡ some rest
unfolding after_prefix
after_prefix-append [] rest = refl
after_prefix-append (c ∷ prefix) rest =
    let same : c == c ≡ true = ground arith in rw same (after_prefix-append prefix rest)

sub_path-IsUnder :
    (m : Mount) (path sub : Text) (o : Option Text)
    → after_prefix path m.prefix ≡ o
    → sub_path o ≡ some sub
    → IsUnder m path sub
unfolding sub_path
sub_path-IsUnder m path sub none e h = absurd (ground (arith, h))
sub_path-IsUnder m path sub (some []) e h =
    subst (IsUnder m path) (some-injective _ _ h)
      (itself (after_prefix-split path m.prefix [] e ∙ append-nil m.prefix))
sub_path-IsUnder m path sub (some (c ∷ rest)) e h = elim (Bool-cases (c == slash)) [
  | inl same ↦
      let first = ap (λ (k : ℕ). k ∷ rest) ((==_iff c slash).0 same) in
      let whole : c ∷ rest ≡ sub = some-injective _ _ (ground (arith, h, same)) in
      subst (IsUnder m path) (sym first ∙ whole) (
        below rest
          (after_prefix-split path m.prefix (c ∷ rest) e ∙ ap (λ (t : Text). m.prefix ++ t) first))
  | inr other ↦ absurd (ground (arith, h, other))
]

under-IsUnder : (m : Mount) (path sub : Text) → under m path ≡ some sub → IsUnder m path sub
under-IsUnder m path sub h = sub_path-IsUnder m path sub (after_prefix path m.prefix) refl h

IsUnder-under : (m : Mount) (path sub : Text) → IsUnder m path sub → under m path ≡ some sub
unfolding sub_path
IsUnder-under m path sub (itself e) = ap sub_path (
    ap (λ (p : Text). after_prefix p m.prefix) (e ∙ sym (append-nil m.prefix))
    ∙ after_prefix-append m.prefix [])
IsUnder-under m path sub (below rest e) =
    ap sub_path
      (ap (λ (p : Text). after_prefix p m.prefix) e ∙ after_prefix-append m.prefix (slash ∷ rest))

insert_mount-IsSorted :
    {limit : ℕ} (mounts : List Mount) (m : Mount)
    → length m.prefix ≤ limit
    → IsSorted limit mounts
    → IsSorted limit (insert_mount mounts m)
unfolding insert_mount
insert_mount-IsSorted [] m le empty = next le empty
insert_mount-IsSorted {limit = limit} (q ∷ rest) m le (next leq sorted) =
    if-cases (IsSorted limit) (ltb (length q.prefix) (length m.prefix))
      (λ h. next le (next (omega (arith, ltb→lt _ _ h)) sorted))
      (λ h. next leq (insert_mount-IsSorted rest m (ltb→le _ _ h) sorted))

take-le : (n : ℕ) (t : Text) → length (take n t) ≤ n
take-le zero t = omega arith
take-le (suc n) [] = omega arith
take-le (suc n) (c ∷ t) = omega (arith, take-le n t)

IsSorted-IsMount :
    {limit : ℕ} {mounts : List Mount} (q : Mount)
    → IsSorted limit mounts
    → IsMount q mounts
    → length q.prefix ≤ limit
IsSorted-IsMount q empty is = elim is [ ]
IsSorted-IsMount q (next le sorted) here = le
IsSorted-IsMount q (next le sorted) (there more) = omega (arith, le, IsSorted-IsMount q sorted more)

-- What is to be found: the mount with the longest prefix that the path is under.
pub data IsLongest (mounts : List Mount) (path : Text) : Option (Mount × Text) → Type 0 where
  unmounted :
      ((q : Mount) (sub : Text) → IsMount q mounts → ¬ IsUnder q path sub)
      → IsLongest mounts path none
  longest :
      (m : Mount) (sub : Text)
      → IsMount m mounts
      → IsUnder m path sub
      → ((q : Mount) (sub' : Text)
          → IsMount q mounts
          → IsUnder q path sub'
          → length q.prefix ≤ length m.prefix)
      → IsLongest mounts path (some (m, sub))

-- A path is not under a mount where the test says so.
not_under : (m : Mount) (path sub : Text) → under m path ≡ none → ¬ IsUnder m path sub
not_under m path sub off on = absurd (ground (arith, sym off ∙ IsUnder-under m path sub on))

-- One more mount before the list, which the path is not under.
module _ {mounts : List Mount} (path : Text) where
  still_none :
      (q m : Mount) (sub : Text)
      → under m path ≡ none
      → ((r : Mount) (sub' : Text) → IsMount r mounts → ¬ IsUnder r path sub')
      → IsMount q (m ∷ mounts)
      → ¬ IsUnder q path sub
  still_none q m sub off none_there here on = not_under m path sub off on
  still_none q m sub off none_there (there more) on = none_there q sub more on

  still_most :
      (q m : Mount) (n : ℕ) (sub : Text)
      → under m path ≡ none
      → ((r : Mount) (sub' : Text) → IsMount r mounts → IsUnder r path sub' → length r.prefix ≤ n)
      → IsUnder q path sub
      → IsMount q (m ∷ mounts)
      → length q.prefix ≤ n
  still_most q m n sub off most on here = absurd (not_under m path sub off on)
  still_most q m n sub off most on (there more) = most q sub more on

  passed :
      {o : Option (Mount × Text)} (m : Mount)
      → under m path ≡ none
      → IsLongest mounts path o
      → IsLongest (m ∷ mounts) path o
  passed m off (unmounted none_there) =
      unmounted (λ q sub is on. still_none q m sub off none_there is on)
  passed m off (longest r sub is on most) =
      longest r sub (there is) on
        (λ q sub' is' on'. still_most q m (length r.prefix) sub' off most on' is')

-- The same for every sorted list.
vfs_find_mount-sorted :
    {limit : ℕ} (mounts : List Mount) (path : Text)
    → IsSorted limit mounts
    → IsLongest mounts path (vfs_find_mount mounts path)
unfolding vfs_find_mount found_or
vfs_find_mount-sorted [] path empty = unmounted (λ q sub is on. elim is [ ])
vfs_find_mount-sorted (m ∷ rest) path (next le sorted) = elim (Option-cases (under m path)) [
  | inl off ↦ rw off (passed path m off (vfs_find_mount-sorted rest path sorted))
  | inr (sub, on) ↦ rw on (
      longest m sub here (under-IsUnder m path sub on)
        (λ q sub' is onq. IsSorted-IsMount q (next (omega arith) sorted) is))
]

vfs_mount-IsSorted :
    (mounts : List Mount) (prefix : Text) (ops : ℕ)
    → IsSorted path_max mounts
    → IsSorted path_max (vfs_mount mounts prefix ops)
unfolding vfs_mount
vfs_mount-IsSorted mounts prefix ops sorted =
    insert_mount-IsSorted mounts _ (omega (arith, take-le (path_max - 1) prefix)) sorted

-- Calls of vfs_mount one after the other, the last first.
unfoldable pub mount_all : List (Text × ℕ) → List Mount
mount_all [] = []
mount_all (call ∷ before) = vfs_mount (mount_all before) (call.0) (call.1)

mount_all-IsSorted : (calls : List (Text × ℕ)) → IsSorted path_max (mount_all calls)
unfolding mount_all
mount_all-IsSorted [] = empty
mount_all-IsSorted (call ∷ before) =
    vfs_mount-IsSorted (mount_all before) (call.0) (call.1) (mount_all-IsSorted before)

-- After any calls of vfs_mount on no mounts, vfs_find_mount finds a mount exactly if the path
-- is the prefix of one or goes on after it with a slash, and then one with the longest such
-- prefix, together with the rest of the path from that slash on, or a slash if nothing is left.
pub vfs_find_mount-IsLongest :
    (calls : List (Text × ℕ)) (path : Text)
    → IsLongest (mount_all calls) path (vfs_find_mount (mount_all calls) path)
vfs_find_mount-IsLongest calls path =
    vfs_find_mount-sorted (mount_all calls) path (mount_all-IsSorted calls)
