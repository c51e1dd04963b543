-- ===== src/Vfs/Normal.antt =====
-- What `vfs_normalize_path` of emu/src/vfs.c gives: a path of plain names, which it leaves alone.
use alpine_on_ios.Vfs.Path.{
  Text, slash, dot, add_component, scan, components, pop_name, enter, walk, rebuild, render,
  full_path, vfs_normalize_path,
}
use alpine_on_ios.Prelude.{
  ℕ, zero, suc, ◌-◌, ◌<◌, ◌≤◌, ◌≡◌, refl, ap, ◌∙◌, sym, arith, ◌==◌, if-cases, List, [], ◌∷◌, ◌++◌,
  take, length, same_string, false, Bool-cases, inl, inr, subst,
}

pub data NoSlash : Text → Type 0 where
  empty : NoSlash []
  char : {c : ℕ} {cs : Text} → (c == slash) ≡ false → NoSlash cs → NoSlash (c ∷ cs)

-- A component of a path: not empty and without a slash.
pub data IsPiece : Text → Type 0 where
  piece : {c : ℕ} {cs : Text} → NoSlash (c ∷ cs) → IsPiece (c ∷ cs)

-- A component that is neither "." nor "..".
pub record IsName (c : Text) : Type 0 where
  pub is_piece : IsPiece c
  pub not_dot : same_string c (dot ∷ []) ≡ false
  pub not_dots : same_string c (dot ∷ dot ∷ []) ≡ false

pub data Every (P : Text → Type 0) : List Text → Type 0 where
  none_left : Every P []
  one : {c : Text} {rest : List Text} → P c → Every P rest → Every P (c ∷ rest)

add_component-Every :
    (c : Text) (found : List Text)
    → NoSlash c
    → Every IsPiece found
    → Every IsPiece (add_component c found)
unfolding add_component
add_component-Every [] found h all = all
add_component-Every (x ∷ xs) found h all = one (piece h) all

record IsScan (s : Text × List Text) : Type 0 where
  head_of : NoSlash (s.0)
  others : Every IsPiece (s.1)

scan-IsScan : (path : Text) → IsScan (scan path)
unfolding scan
scan-IsScan [] = record { head_of = empty; others = none_left }
scan-IsScan (c ∷ rest) =
    let later = scan-IsScan rest in
    if-cases IsScan (c == slash)
      (λ h. record { head_of = empty; others = add_component-Every _ _ later.head_of later.others })
      (λ h. record { head_of = char h later.head_of; others = later.others })

pub components-Every : (path : Text) → Every IsPiece (components path)
unfolding components
components-Every path = let s = scan-IsScan path in add_component-Every _ _ s.head_of s.others

pop_name-Every : (stack : List Text) → Every IsName stack → Every IsName (pop_name stack)
unfolding pop_name
pop_name-Every [] none_left = none_left
pop_name-Every (c ∷ stack) (one h all) = all

walk-Every :
    (stack found : List Text)
    → Every IsName stack
    → Every IsPiece found
    → Every IsName (walk stack found)
unfolding walk enter
walk-Every stack [] all none_left = all
walk-Every stack (c ∷ rest) all (one h more) =
    walk-Every (enter stack c) rest
      (if-cases (Every IsName) (same_string c (dot ∷ [])) (λ d. all)
        (λ nd.
          if-cases (Every IsName) (same_string c (dot ∷ dot ∷ [])) (λ d. pop_name-Every stack all)
            (λ nds. one (record { is_piece = h; not_dot = nd; not_dots = nds }) all)))
      more

-- The components of a path that was built from names are those names.
scan-piece : (c : Text) → NoSlash c → scan c ≡ (c, [])
unfolding scan
scan-piece [] empty = refl
scan-piece (c ∷ cs) (char h more) = rw (scan-piece cs more, h) refl

add_component-piece : (c : Text) → IsPiece c → add_component c [] ≡ c ∷ []
unfolding add_component
add_component-piece [] h = elim h [ ]
add_component-piece (c ∷ cs) (piece h) = refl

add_component-++ :
    (c : Text) (found more : List Text)
    → add_component c (found ++ more) ≡ add_component c found ++ more
unfolding add_component
add_component-++ [] found more = refl
add_component-++ (c ∷ cs) found more = refl

pub piece-NoSlash : {c : Text} → IsPiece c → NoSlash c
piece-NoSlash (piece h) = h

scan-++ :
    (path c : Text)
    → IsPiece c
    → scan (path ++ slash ∷ c) ≡ ((scan path).0, (scan path).1 ++ c ∷ [])
unfolding scan
scan-++ [] c h = rw (scan-piece c (piece-NoSlash h), add_component-piece c h) refl
scan-++ (d ∷ path) c h = elim (Bool-cases (d == slash)) [
  | inl cut ↦
      rw (scan-++ path c h, cut)
        (ap (λ (found : List Text). ([], found))
          (add_component-++ ((scan path).0) ((scan path).1) (c ∷ [])))
  | inr on ↦ rw (scan-++ path c h, on) refl
]

-- The components of a stack in the order of the path.
from_bottom : List Text → List Text
from_bottom [] = []
from_bottom (c ∷ stack) = from_bottom stack ++ c ∷ []

components-rebuild :
    (stack : List Text) → Every IsName stack → components (rebuild stack) ≡ from_bottom stack
unfolding components rebuild from_bottom add_component scan
components-rebuild [] none_left = refl
components-rebuild (c ∷ stack) (one h all) = rw (scan-++ (rebuild stack) c h.is_piece) (
    add_component-++ ((scan (rebuild stack)).0) ((scan (rebuild stack)).1) (c ∷ [])
    ∙ ap (λ (found : List Text). found ++ c ∷ []) (components-rebuild stack all))

walk-++ :
    (stack found : List Text) (c : Text) → walk stack (found ++ c ∷ []) ≡ enter (walk stack found) c
unfolding walk
walk-++ stack [] c = refl
walk-++ stack (d ∷ found) c = walk-++ (enter stack d) found c

walk-from_bottom : (stack : List Text) → Every IsName stack → walk [] (from_bottom stack) ≡ stack
unfolding from_bottom enter walk
walk-from_bottom [] none_left = refl
walk-from_bottom (c ∷ stack) (one h all) =
    walk-++ [] (from_bottom stack) c
    ∙ ap (λ (s : List Text). enter s c) (walk-from_bottom stack all)
    ∙ rw (h.not_dot, h.not_dots) refl

-- A path that is rendered starts with a slash and has the components it was made of.
components-render :
    (stack : List Text) → Every IsName stack → components (render stack) ≡ from_bottom stack
unfolding render components scan add_component from_bottom
components-render [] all = refl
components-render (c ∷ stack) all = components-rebuild (c ∷ stack) all

rebuild-slash :
    (c : Text) (stack : List Text) → (rest : Text) × (rebuild (c ∷ stack) ≡ slash ∷ rest)
unfolding rebuild
rebuild-slash c [] = (c, refl)
rebuild-slash c (d ∷ stack) =
    let below = rebuild-slash d stack in
    (below.0 ++ slash ∷ c, ap (λ (t : Text). t ++ slash ∷ c) (below.1))

render-slash : (stack : List Text) → (rest : Text) × (render stack ≡ slash ∷ rest)
unfolding render
render-slash [] = ([], refl)
render-slash (c ∷ stack) = rebuild-slash c stack

full_path-render : (cwd : Text) (stack : List Text) → full_path cwd (render stack) ≡ render stack
unfolding full_path
full_path-render cwd stack = let s = render-slash stack in rw (s.1) refl

take-length : (n : ℕ) (xs : Text) → length xs ≤ n → take n xs ≡ xs
take-length zero [] h = refl
take-length zero (x ∷ xs) h = absurd (omega arith)
take-length (suc n) [] h = refl
take-length (suc n) (x ∷ xs) h = ap (λ (t : Text). x ∷ t) (take-length n xs (omega arith))

-- The names of a path, the last first.
unfoldable pub names : Text → Text → List Text
names cwd path = walk [] (components (full_path cwd path))

names-Every : (cwd path : Text) → Every IsName (names cwd path)
unfolding names
names-Every cwd path = walk-Every [] _ none_left (components-Every (full_path cwd path))

normalized :
    (cwd path : Text) (outsiz : ℕ)
    → length (render (names cwd path)) < outsiz
    → vfs_normalize_path cwd path outsiz ≡ render (names cwd path)
unfolding vfs_normalize_path names
normalized cwd path outsiz fits = take-length (outsiz - 1) _ (omega arith)

-- If the result of vfs_normalize_path fits the buffer, normalising it again gives the same
-- path, whatever the working directory.
pub vfs_normalize_path-idempotent :
    (cwd cwd' path : Text) (outsiz : ℕ)
    → length (render (names cwd path)) < outsiz
    → vfs_normalize_path cwd' (vfs_normalize_path cwd path outsiz) outsiz
      ≡ vfs_normalize_path cwd path outsiz
unfolding names
vfs_normalize_path-idempotent cwd cwd' path outsiz fits =
    let stack = names cwd path in
    let same : names cwd' (render stack) ≡ stack =
      ap (λ (t : Text). walk [] (components t)) (full_path-render cwd' stack)
      ∙ ap (walk []) (components-render stack (names-Every cwd path))
      ∙ walk-from_bottom stack (names-Every cwd path) in
    ap (λ (t : Text). vfs_normalize_path cwd' t outsiz) (normalized cwd path outsiz fits)
    ∙ normalized cwd' (render stack) outsiz
        (subst (λ (s : List Text). length (render s) < outsiz) (sym same) fits)
    ∙ ap render same
    ∙ sym (normalized cwd path outsiz fits)

Every-++ :
    {P : Text → Type 0} (xs : List Text) (c : Text) → Every P xs → P c → Every P (xs ++ c ∷ [])
Every-++ [] c none_left h = one h none_left
Every-++ (x ∷ xs) c (one hx all) h = one hx (Every-++ xs c all h)

from_bottom-Every : (stack : List Text) → Every IsName stack → Every IsName (from_bottom stack)
unfolding from_bottom
from_bottom-Every [] none_left = none_left
from_bottom-Every (c ∷ stack) (one h all) =
    Every-++ (from_bottom stack) c (from_bottom-Every stack all) h

-- If the result fits the buffer, vfs_normalize_path gives a path that starts with a slash and
-- whose components are neither empty nor `.` nor `..`.
pub vfs_normalize_path-IsName :
    (cwd path : Text) (outsiz : ℕ)
    → length (render (names cwd path)) < outsiz
    → ((rest : Text) × (vfs_normalize_path cwd path outsiz ≡ slash ∷ rest))
      × Every IsName (components (vfs_normalize_path cwd path outsiz))
vfs_normalize_path-IsName cwd path outsiz fits =
    let out = normalized cwd path outsiz fits in
    let start = render-slash (names cwd path) in
    let all = names-Every cwd path in
    (
      (start.0, out ∙ start.1),
      subst (Every IsName) (sym (ap components out ∙ components-render (names cwd path) all))
          (from_bottom-Every (names cwd path) all),
    )
