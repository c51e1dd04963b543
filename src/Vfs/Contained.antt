-- ===== src/Vfs/Contained.antt =====
-- `vfs_resolve_rw` of emu/src/vfs.c does not leave the root file system.
use alpine_on_ios.Vfs.Mount.{Mount, vfs_find_mount}
use alpine_on_ios.Vfs.Normal.{
  NoSlash, empty, char, IsPiece, piece-NoSlash, Every, none_left, one, components-Every,
}
use alpine_on_ios.Vfs.Path.{Text, slash, dot, path_max, components, vfs_normalize_path}
use alpine_on_ios.Vfs.Resolve.{
  Link, no_link, unreadable, target, Files, Component, own, stored, string_at, read_component,
  put_string, copy_back, later_slash, last_slash, cut_at, pop_resolved, owned, link_base, link_work,
  Restart, follow, step_into, resolve_pass, resolve_links, choose_base, no_mount, vfs_resolve_rw,
}
use alpine_on_ios.Prelude.{
  ℕ, zero, suc, ◌+◌, ◌-◌, ◌≤◌, ◌≡◌, refl, ap, sym, arith, ◌==◌, if-cases, if-rule, List, [], ◌∷◌,
  ◌++◌, take, length, same_string, Bool, true, false, update, Option, none, some, ltb, leb, subst,
  ◌>>=◌, lt→ltb,
}

-- A path under a root: components after it, none of which is `..`.
pub data IsBelow (root : Text) : Text → Type 0 where
  itself : IsBelow root root
  child :
      {path name : Text}
      → IsBelow root path
      → NoSlash name
      → same_string name (dot ∷ dot ∷ []) ≡ false
      → IsBelow root (path ++ slash ∷ name)

-- The result, if there is one.
pub data IsInside (root : Text) : Option Text → Type 0 where
  refused : IsInside root none
  inside : {path : Text} → IsBelow root path → IsInside root (some path)

length-++ : (xs ys : Text) → length (xs ++ ys) ≡ length xs + length ys
length-++ [] ys = omega arith
length-++ (x ∷ xs) ys = omega (arith, length-++ xs ys)

take-++ : (xs ys : Text) → take (length xs) (xs ++ ys) ≡ xs
take-++ [] ys = refl
take-++ (x ∷ xs) ys = ap (λ (t : Text). x ∷ t) (take-++ xs ys)

last_slash-none : (name : Text) → NoSlash name → last_slash name ≡ none
unfolding last_slash later_slash
last_slash-none [] empty = refl
last_slash-none (c ∷ cs) (char h more) = rw (last_slash-none cs more, h) refl

last_slash-++ :
    (path name : Text) → NoSlash name → last_slash (path ++ slash ∷ name) ≡ some (length path)
unfolding last_slash later_slash
last_slash-++ [] name h = rw (last_slash-none name h) refl
last_slash-++ (c ∷ path) name h = rw (last_slash-++ path name h) refl

below-length : {root path : Text} → IsBelow root path → length root ≤ length path
below-length itself = omega arith
below-length (child {path = path} {name = name} b h d) =
    omega (arith, below-length b, length-++ path (slash ∷ name))

popped :
    (root path name : Text)
    → NoSlash name
    → length root ≤ length path
    → pop_resolved (length root) (path ++ slash ∷ name) ≡ path
unfolding pop_resolved cut_at
popped root path name h le =
    let longer : ltb (length root) (length (path ++ slash ∷ name)) ≡ true =
      lt→ltb _ _ (omega (arith, length-++ path (slash ∷ name))) in
    let above : leb (length root) (length path) ≡ true = ground arith in
    rw (longer, last_slash-++ path name h, above) (take-++ path (slash ∷ name))

stays_put : (root : Text) → pop_resolved (length root) root ≡ root
unfolding pop_resolved
stays_put root = let same : ltb (length root) (length root) ≡ false = ground arith in rw same refl

pop_resolved-IsBelow :
    {root path : Text} → IsBelow root path → IsBelow root (pop_resolved (length root) path)
pop_resolved-IsBelow {root = root} itself = subst (IsBelow root) (sym (stays_put root)) itself
pop_resolved-IsBelow {root = root} (child {path = path} {name = name} b h d) =
    subst (IsBelow root) (sym (popped root path name h (below-length b))) b

-- No byte of the store is a slash.
unfoldable pub NoSlashes : (ℕ → ℕ) → Type 0
NoSlashes store = (i : ℕ) → (store i == slash) ≡ false

string_at-NoSlash :
    (n : ℕ) (store : ℕ → ℕ) (p : ℕ) → NoSlashes store → NoSlash (string_at n store p)
unfolding string_at NoSlashes
string_at-NoSlash zero store p h = empty
string_at-NoSlash (suc n) store p h =
    if-rule NoSlash (store p == 0) empty (char (h p) (string_at-NoSlash n store (p + 1) h))

put_string-NoSlashes :
    (store : ℕ → ℕ) (p : ℕ) (t : Text)
    → NoSlashes store
    → NoSlash t
    → NoSlashes (put_string store p t)
unfolding put_string NoSlashes
put_string-NoSlashes store p [] h empty = λ i. ground (arith, h i)
put_string-NoSlashes store p (c ∷ cs) h (char hc more) =
    put_string-NoSlashes (update store p c) (p + 1) cs (λ i. ground (arith, h i, hc)) more

-- The strings that components own have no slash.
pub data AllPlain : List Component → Type 0 where
  no_more : AllPlain []
  plain : {t : Text} {rest : List Component} → NoSlash t → AllPlain rest → AllPlain (own t ∷ rest)
  in_store : {p : ℕ} {rest : List Component} → AllPlain rest → AllPlain (stored p ∷ rest)

read_component-NoSlash :
    (store : ℕ → ℕ) {c : Component} {rest : List Component}
    → NoSlashes store
    → AllPlain (c ∷ rest)
    → NoSlash (read_component store c)
unfolding read_component
read_component-NoSlash store h (plain t more) = t
read_component-NoSlash store h (in_store {p = p} more) = string_at-NoSlash (path_max - p) store p h

rest_plain : {c : Component} {rest : List Component} → AllPlain (c ∷ rest) → AllPlain rest
rest_plain (plain t more) = more
rest_plain (in_store more) = more

-- What copy_back and a link leave to do.
pub data IsWork : Option (List Component × (ℕ → ℕ)) → Type 0 where
  no_room : IsWork none
  work :
      {cs : List Component} {store : ℕ → ℕ}
      → AllPlain cs
      → NoSlashes store
      → IsWork (some (cs, store))

in_front :
    {o : Option (List Component × (ℕ → ℕ))} (p : ℕ)
    → IsWork o
    → IsWork (o >>= λ r. some (stored p ∷ r.0, r.1))
in_front p no_room = no_room
in_front p (work all h) = work (in_store all) h

copy_back-IsWork :
    (cs : List Component) (store : ℕ → ℕ) (p : ℕ)
    → NoSlashes store
    → AllPlain cs
    → IsWork (copy_back store p cs)
unfolding copy_back
copy_back-IsWork [] store p h all = work no_more h
copy_back-IsWork (c ∷ rest) store p h all =
    let t = read_component store c in
    let later =
      copy_back-IsWork rest (put_string store p t) (p + length t + 1)
        (put_string-NoSlashes store p t h (read_component-NoSlash store h all)) (rest_plain all) in
    if-rule IsWork (ltb (path_max - p) (length t + 1)) no_room (in_front p later)

owned-AllPlain : (names : List Text) → Every IsPiece names → AllPlain (owned names)
unfolding owned
owned-AllPlain [] none_left = no_more
owned-AllPlain (t ∷ rest) (one h all) = plain (piece-NoSlash h) (owned-AllPlain rest all)

AllPlain-++ : {xs ys : List Component} → AllPlain xs → AllPlain ys → AllPlain (xs ++ ys)
AllPlain-++ no_more all = all
AllPlain-++ (plain t more) all = plain t (AllPlain-++ more all)
AllPlain-++ (in_store more) all = in_store (AllPlain-++ more all)

link_work-IsWork :
    (store : ℕ → ℕ) (link : Text) (rest : List Component)
    → NoSlashes store
    → AllPlain rest
    → IsWork (link_work store link rest)
unfolding link_work
link_work-IsWork store link rest h all =
    let both = AllPlain-++ (owned-AllPlain (components link) (components-Every link)) all in
    if-rule IsWork (ltb 255 (length (owned (components link) ++ rest))) no_room
      (copy_back-IsWork (owned (components link) ++ rest) store 0 h both)

-- A way to go on that stays inside.
unfoldable pub Contained : Text → Restart → Type 0
Contained root restart =
    (store : ℕ → ℕ) (base : Text) (cs : List Component)
    → NoSlashes store
    → IsBelow root base
    → AllPlain cs
    → IsInside root (restart store base cs)

link_base-IsInside :
    (root resolved link : Text)
    → IsBelow root resolved
    → IsInside root (link_base root resolved link)
unfolding link_base
link_base-IsInside root resolved [] b = inside b
link_base-IsInside root resolved (c ∷ cs) b =
    if-rule (IsInside root) (c == slash)
      (if-rule (IsInside root) (leb path_max (length root)) refused (inside itself)) (inside b)

go_on :
    {root : Text} {b : Option Text} {w : Option (List Component × (ℕ → ℕ))} (restart : Restart)
    → Contained root restart
    → IsInside root b
    → IsWork w
    → IsInside root (b >>= λ base. w >>= λ work. restart (work.1) base (work.0))
unfolding Contained
go_on restart ok refused any = refused
go_on restart ok (inside b) no_room = refused
go_on restart ok (inside b) (work all h) = ok _ _ _ h b all

step_into-IsInside :
    {root : Text} {later : Option Text} (restart : Restart)
    → Contained root restart
    → (store : ℕ → ℕ) (base path : Text) (rest : List Component) → NoSlashes store
    → IsBelow root base
    → AllPlain rest
    → (l : Link) → IsInside root later
    → IsInside root (step_into restart root store base path rest later l)
unfolding step_into follow
step_into-IsInside {root = root} restart ok store base path rest h b all no_link i =
    if-rule (IsInside root) (leb path_max (length path)) refused i
step_into-IsInside restart ok store base path rest h b all unreadable i = refused
step_into-IsInside {root = root} restart ok store base path rest h b all (target link) i =
    go_on restart ok (link_base-IsInside root base link b) (link_work-IsWork store link rest h all)

-- One pass stays inside if what follows a link does.
resolve_pass-Contained :
    (files : Files) (root : Text) (size : ℕ) (restart : Restart)
    → Contained root restart
    → (cs : List Component) (store : ℕ → ℕ) (base : Text) → NoSlashes store
    → IsBelow root base
    → AllPlain cs
    → IsInside root (resolve_pass files root size restart store base cs)
unfolding resolve_pass
resolve_pass-Contained files root size restart ok [] store base h b all =
    if-rule (IsInside root) (leb size (length base)) refused (inside b)
resolve_pass-Contained files root size restart ok (c ∷ rest) store base h b all =
    let name = read_component store c in
    let clean = read_component-NoSlash store h all in
    let more = rest_plain all in
    let again = λ (next : Text) (bn : IsBelow root next).
      resolve_pass-Contained files root size restart ok rest store next h bn more in
    if-rule (IsInside root) (same_string name (dot ∷ [])) (again base b) (
      if-cases (IsInside root) (same_string name (dot ∷ dot ∷ []))
        (λ dots. again _ (pop_resolved-IsBelow b))
        (λ plain_name.
          let down = child b clean plain_name in
          if-rule (IsInside root) (leb size (length (base ++ slash ∷ name))) refused (
            step_into-IsInside restart ok store base (base ++ slash ∷ name) rest h b more
              (files.link_at (base ++ slash ∷ name)) (again _ down))))

resolve_links-Contained :
    (n : ℕ) (files : Files) (root : Text) (size : ℕ)
    → Contained root (resolve_links n files root size)
unfolding resolve_links Contained
resolve_links-Contained zero files root size = λ store base cs h b all.
    resolve_pass-Contained files root size (λ s t w. none) (λ s t w hs bt aw. refused) cs store base
      h b all
resolve_links-Contained (suc n) files root size = λ store base cs h b all.
    resolve_pass-Contained files root size (resolve_links n files root size)
      (resolve_links-Contained n files root size) cs store base h b all

no_mount-IsInside :
    {root : Text} {r : Option Text} (o : Option (Mount × Text))
    → IsInside root r
    → IsInside root (no_mount o r)
unfolding no_mount
no_mount-IsInside none i = i
no_mount-IsInside (some found) i = refused

from_base :
    {root : Text} {b : Option Text} (next : Text → Option Text)
    → IsInside root b
    → ((base : Text) → IsBelow root base → IsInside root (next base))
    → IsInside root (b >>= next)
from_base next refused f = refused
from_base next (inside b) f = f _ b

-- Without an overlay, whatever the guest path, the symbolic links of the host and the flags,
-- and if the static array of components holds no slash before, what vfs_resolve_rw returns, if
-- it does not fail, is the root file system's path or lies below it by names without a slash of
-- which none is `..`.
pub vfs_resolve_rw-IsInside :
    (files : Files) (mounts : List Mount) (rootfs : Text) (store : ℕ → ℕ) (guest_path : Text)
    (size : ℕ) (write : Bool)
    → ((i : ℕ) → (store i == slash) ≡ false)
    → IsInside rootfs (vfs_resolve_rw files mounts rootfs [] store guest_path size write)
unfolding vfs_resolve_rw choose_base no_mount NoSlashes Contained
vfs_resolve_rw-IsInside files mounts rootfs store guest_path size write clean =
    let names = components (vfs_normalize_path (slash ∷ []) guest_path path_max) in
    let all = components-Every (vfs_normalize_path (slash ∷ []) guest_path path_max) in
    no_mount-IsInside (vfs_find_mount mounts guest_path) (
      from_base _ (if-rule (IsInside rootfs) (leb path_max (length rootfs)) refused (inside itself))
        (λ base b. if-rule (IsInside rootfs) (ltb 255 (length names)) refused (
          resolve_links-Contained 40 files rootfs size store base (owned names) clean b
            (owned-AllPlain names all))))
