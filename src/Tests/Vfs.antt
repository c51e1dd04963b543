-- ===== src/Tests/Vfs.antt =====
-- Concrete runs on paths. A character is its code: 47 is '/', 46 is '.', 97 is 'a'.
use alpine_on_ios.Vfs.Contained.{IsInside, vfs_resolve_rw-IsInside}
use alpine_on_ios.Vfs.Longest.{IsLongest, mount_all, vfs_find_mount-IsLongest}
use alpine_on_ios.Vfs.Mount.{vfs_find_mount}
use alpine_on_ios.Vfs.Normal.{
  Every, IsName, names, vfs_normalize_path-idempotent, vfs_normalize_path-IsName,
}
use alpine_on_ios.Vfs.Path.{
  Text, slash, add_component, scan, components, pop_name, enter, walk, rebuild, render, full_path,
  vfs_normalize_path,
}
use alpine_on_ios.Vfs.Resolve.{
  no_link, target, Files, string_at, read_component, put_string, copy_back, later_slash, last_slash,
  cut_at, pop_resolved, owned, link_base, link_work, follow, step_into, resolve_pass, resolve_links,
  choose_base, no_mount, vfs_resolve_rw,
}
use alpine_on_ios.Prelude.{
  ℕ, ◌≡◌, refl, arith, true, false, if◌then◌else◌, same_string, List, [], ◌∷◌, some,
}

-- "/a//./b/../cd"
abbrev test_path : Text
test_path = 47 ∷ 97 ∷ 47 ∷ 47 ∷ 46 ∷ 47 ∷ 98 ∷ 47 ∷ 46 ∷ 46 ∷ 47 ∷ 99 ∷ 100 ∷ []

normalized_test : vfs_normalize_path (47 ∷ []) test_path 4096 ≡ 47 ∷ 97 ∷ 47 ∷ 99 ∷ 100 ∷ []
unfolding vfs_normalize_path render rebuild walk enter pop_name components scan add_component
    full_path
normalized_test = refl

vfs_normalize_path-idempotent_example :
    vfs_normalize_path (98 ∷ []) (vfs_normalize_path (47 ∷ []) test_path 4096) 4096
    ≡ vfs_normalize_path (47 ∷ []) test_path 4096
unfolding names render rebuild walk enter pop_name components scan add_component full_path
vfs_normalize_path-idempotent_example =
    vfs_normalize_path-idempotent (47 ∷ []) (98 ∷ []) test_path 4096 (omega arith)

vfs_normalize_path-IsName_example :
    ((rest : Text) × (vfs_normalize_path (47 ∷ []) test_path 4096 ≡ slash ∷ rest))
    × Every IsName (components (vfs_normalize_path (47 ∷ []) test_path 4096))
unfolding names render rebuild walk enter pop_name components scan add_component full_path
vfs_normalize_path-IsName_example = vfs_normalize_path-IsName (47 ∷ []) test_path 4096 (omega arith)

-- Mounts at "/a" and then at "/a/b".
abbrev test_calls : List (Text × ℕ)
test_calls = (47 ∷ 97 ∷ 47 ∷ 98 ∷ [], 2) ∷ (47 ∷ 97 ∷ [], 1) ∷ []

vfs_find_mount-IsLongest_example :
    IsLongest (mount_all test_calls) test_path (vfs_find_mount (mount_all test_calls) test_path)
vfs_find_mount-IsLongest_example = vfs_find_mount-IsLongest test_calls test_path

-- Under "/r", "a" is a link to "b/c/d/e" and "b" one to "0123456".
abbrev test_files : Files
test_files = record {
  exists = λ t. true;
  link_at = λ t.
      if same_string t (47 ∷ 114 ∷ 47 ∷ 97 ∷ [])
      then target (98 ∷ 47 ∷ 99 ∷ 47 ∷ 100 ∷ 47 ∷ 101 ∷ [])
      else if same_string t (47 ∷ 114 ∷ 47 ∷ 98 ∷ [])
      then target (48 ∷ 49 ∷ 50 ∷ 51 ∷ 52 ∷ 53 ∷ 54 ∷ [])
      else no_link;
}

-- "/a" leads to "/r/0123456/23456/456/6" and not to "/r/0123456/c/d/e": the target of the second
-- link is copied over the rest of the first.
two_links :
    vfs_resolve_rw test_files [] (47 ∷ 114 ∷ []) [] (λ i. 0) (47 ∷ 97 ∷ []) 4096 false
    ≡ some (
        47 ∷ 114 ∷ 47 ∷ 48 ∷ 49 ∷ 50 ∷ 51 ∷ 52 ∷ 53 ∷ 54 ∷ 47 ∷ 50 ∷ 51 ∷ 52 ∷ 53 ∷ 54 ∷ 47 ∷ 52
        ∷ 53 ∷ 54 ∷ 47 ∷ 54 ∷ [])
unfolding vfs_resolve_rw vfs_find_mount vfs_normalize_path render rebuild walk enter pop_name
    components scan add_component full_path choose_base no_mount resolve_links resolve_pass
    step_into follow link_work link_base owned copy_back put_string read_component string_at
    pop_resolved cut_at last_slash later_slash
two_links = refl

-- With the overlay "/x/o" and the root "/r", a link in the overlay to "../../e" leads to "/x/e".
abbrev overlay_files : Files
overlay_files = record {
  exists = λ t. true;
  link_at = λ t.
      if same_string t (47 ∷ 120 ∷ 47 ∷ 111 ∷ 47 ∷ 97 ∷ [])
      then target (46 ∷ 46 ∷ 47 ∷ 46 ∷ 46 ∷ 47 ∷ 101 ∷ [])
      else no_link;
}

overlay_left :
    vfs_resolve_rw overlay_files []
      (47 ∷ 114 ∷ [])
      (47 ∷ 120 ∷ 47 ∷ 111 ∷ [])
      (λ i. 0)
      (47 ∷ 97 ∷ [])
      4096
      false
    ≡ some (47 ∷ 120 ∷ 47 ∷ 101 ∷ [])
unfolding vfs_resolve_rw vfs_find_mount vfs_normalize_path render rebuild walk enter pop_name
    components scan add_component full_path choose_base no_mount resolve_links resolve_pass
    step_into follow link_work link_base owned copy_back put_string read_component string_at
    pop_resolved cut_at last_slash later_slash
overlay_left = refl

vfs_resolve_rw-IsInside_example :
    IsInside
      (47 ∷ 114 ∷ [])
      (vfs_resolve_rw test_files [] (47 ∷ 114 ∷ []) [] (λ i. 0) test_path 4096 false)
vfs_resolve_rw-IsInside_example =
    vfs_resolve_rw-IsInside test_files [] (47 ∷ 114 ∷ []) (λ i. 0) test_path 4096 false (λ i. refl)
