-- ===== src/Vfs/Bound.antt =====
-- The array of `vfs_normalize_path` has PATH_MAX / 2 places for components. Its callers give it paths
-- that fit a buffer of PATH_MAX, of which no more components come than that.
use alpine_on_ios.Vfs.Path.{
  Text, path_max, slash, dot, add_component, scan, components, enter, pop_name, walk,
}
use alpine_on_ios.Prelude.{
  ◌+◌, ◌*◌, ◌/◌, ◌≤◌, ◌<◌, ◌≡◌, arith, List, [], ◌∷◌, ◌++◌, ap, length, ◌==◌, if-cases, same_string,
}

length-append : (xs ys : List Text) → length (xs ++ ys) ≡ length xs + length ys
length-append [] ys = omega arith
length-append (x ∷ xs) ys = omega (arith, length-append xs ys)

add_component-length :
    (a : Text) (l : List Text) → 2 * length (add_component a l) ≤ 2 * length l + length a + 1
unfolding add_component
add_component-length [] l = omega arith
add_component-length (c ∷ a) l = omega arith

scan-length : (t : Text) → 2 * length ((scan t).1) + length ((scan t).0) ≤ length t
unfolding scan
scan-length [] = omega arith
scan-length (c ∷ rest) =
    let later = scan-length rest in
    let added = add_component-length ((scan rest).0) ((scan rest).1) in
    if-cases (λ (s : Text × List Text). 2 * length (s.1) + length (s.0) ≤ length (c ∷ rest))
      (c == slash) (λ h. omega (arith, later, added)) (λ h. omega (arith, later))

-- A path has at most half as many components as characters, rounded up.
components-length : (path : Text) → 2 * length (components path) ≤ length path + 1
unfolding components
components-length path =
    omega (arith, scan-length path, add_component-length ((scan path).0) ((scan path).1))

enter-length : (stack : List Text) (c : Text) → length (enter stack c) ≤ length stack + 1
unfolding enter pop_name
enter-length [] c =
    if-cases (λ (l : List Text). length l ≤ 1) (same_string c (dot ∷ [])) (λ h. omega arith)
      λ h.
        if-cases (λ (l : List Text). length l ≤ 1) (same_string c (dot ∷ dot ∷ []))
          (λ h'. omega arith) (λ h'. omega arith)
enter-length (s ∷ stack) c =
    let P : List Text → Type 0 = λ l. length l ≤ length (s ∷ stack) + 1 in
    if-cases P (same_string c (dot ∷ [])) (λ h. omega arith)
      λ h. if-cases P (same_string c (dot ∷ dot ∷ [])) (λ h'. omega arith) (λ h'. omega arith)

walk-length : (stack found : List Text) → length (walk stack found) ≤ length stack + length found
unfolding walk
walk-length stack [] = omega arith
walk-length stack (c ∷ found) =
    omega (arith, walk-length (enter stack c) found, enter-length stack c)

-- The depth after any of the components of a path that fits the buffer is at most 2048.
pub walk-components :
    (path : Text) (before after : List Text)
    → length path < path_max
    → components path ≡ before ++ after
    → length (walk [] before) ≤ path_max / 2
walk-components path before after fits split =
    let whole : length (components path) ≡ length (before ++ after) = ap length split in
    omega (arith, walk-length [] before, components-length path, whole, length-append before after)
