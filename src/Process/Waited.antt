-- ===== src/Process/Waited.antt =====
-- What a pass of `proc_wait` finds: the first zombie among the children it waits for.
use alpine_on_ios.Process.State.{
  Process, ProcState, proc_running, proc_stopped, proc_zombie, proc_dead,
}
use alpine_on_ios.Process.Table.{
  collect, is_zombie, Waited, no_child, busy, reaped, is_awaited, seen, wait_pass,
}
use alpine_on_ios.Prelude.{
  ℕ, ◌^◌, ◌≤◌, ◌≡◌, ◌≢◌, refl, List, [], ◌∷◌, ◌++◌, Bool, true, false, ap, Bool-cases, inl, inr,
  ◌==◌, arith, ◌⊎◌, ==_iff, subst,
}

-- A child of the process `parent` that a wait for `pid` is about: for a positive pid, an `int`, the
-- child with that pid, and else every child.
pub data IsAsked (parent pid : ℕ) (p : Process) : Type 0 where
  any_child : p.ppid ≡ parent → (pid ≡ 0) ⊎ (2 ^ 31 ≤ pid) → IsAsked parent pid p
  that_child : p.ppid ≡ parent → p.pid ≡ pid → IsAsked parent pid p

-- A child that is asked for and has exited without being waited for.
pub record IsReady (parent pid : ℕ) (p : Process) : Type 0 where
  pub asked : IsAsked parent pid p
  pub zombie : p.state ≡ proc_zombie

-- No process of a list is like this.
pub data Nowhere (P : Process → Type 0) : List Process → Type 0 where
  end_of_list : Nowhere P []
  passed : {p : Process} {rest : List Process} → ¬ P p → Nowhere P rest → Nowhere P (p ∷ rest)

-- No child; a child but no zombie; or the first zombie of them, which alone changes.
pub data IsWaited (parent pid : ℕ) (procs : List Process) : Waited → Type 0 where
  childless : Nowhere (IsAsked parent pid) procs → IsWaited parent pid procs no_child
  all_alive :
      (child : Process) (before after : List Process)
      → procs ≡ before ++ child ∷ after
      → IsAsked parent pid child
      → Nowhere (IsReady parent pid) procs
      → IsWaited parent pid procs busy
  first_zombie :
      (child : Process) (before after : List Process) {left : List Process}
      → procs ≡ before ++ child ∷ after
      → left ≡ before ++ record child { state = proc_dead; collected = true } ∷ after
      → IsReady parent pid child
      → Nowhere (IsReady parent pid) before
      → IsWaited parent pid procs (reaped child.pid child.exit_status left)

-- The tests of the code.
is_awaited-IsAsked :
    (parent pid : ℕ) (p : Process) → is_awaited parent pid p ≡ true → IsAsked parent pid p
unfolding is_awaited
is_awaited-IsAsked parent pid p h =
    let mine : p.ppid ≡ parent = ground (arith, h) in
    elim (Bool-cases (p.pid == pid)) [
      | inl same ↦ that_child mine ((==_iff _ _).0 same)
      | inr other ↦ any_child mine (ground (arith, h, other))
    ]

not-IsAsked :
    (parent pid : ℕ) (p : Process) → is_awaited parent pid p ≡ false → ¬ IsAsked parent pid p
unfolding is_awaited
not-IsAsked parent pid p h (any_child mine all) = ground (arith, h, mine, all)
not-IsAsked parent pid p h (that_child mine same) = ground (arith, h, mine, same)

is_zombie_lem : (s : ProcState) → is_zombie s ≡ true → s ≡ proc_zombie
unfolding is_zombie
is_zombie_lem proc_zombie h = refl
is_zombie_lem proc_running h = absurd (ground (arith, h))
is_zombie_lem proc_stopped h = absurd (ground (arith, h))
is_zombie_lem proc_dead h = absurd (ground (arith, h))

not_zombie : (p : Process) → is_zombie p.state ≡ false → p.state ≢ proc_zombie
unfolding is_zombie
not_zombie p h e = absurd (ground (arith, h, ap is_zombie e))

none-IsReady :
    {parent pid : ℕ} {procs : List Process}
    → Nowhere (IsAsked parent pid) procs
    → Nowhere (IsReady parent pid) procs
none-IsReady end_of_list = end_of_list
none-IsReady (passed h rest) = passed (λ r. h r.asked) (none-IsReady rest)

-- One more process before the list, which is not both asked for and a zombie.
module _ {parent pid : ℕ} (child : Process) (alive : ¬ IsReady parent pid child) where
  further :
      {procs : List Process} {w : Waited}
      → (is_awaited parent pid child ≡ true) ⊎ (is_awaited parent pid child ≡ false)
      → IsWaited parent pid procs w
      → IsWaited parent pid (child ∷ procs) (seen (is_awaited parent pid child) child w)
  unfolding seen
  further {procs = procs} (inl mine) (childless none_here) = rw mine (
      all_alive child [] procs refl (is_awaited-IsAsked parent pid child mine)
        (passed alive (none-IsReady none_here)))
  further (inr other) (childless none_here) =
      rw other (childless (passed (not-IsAsked parent pid child other) none_here))
  further h (all_alive c before after e mine none_dead) =
      all_alive c (child ∷ before) after (ap (λ (l : List Process). child ∷ l) e) mine
        (passed alive none_dead)
  further h (first_zombie c before after e l ready none_before) =
      first_zombie c (child ∷ before) after (ap (λ (l : List Process). child ∷ l) e)
        (ap (λ (l : List Process). child ∷ l) l) ready (passed alive none_before)

-- A pass of proc_wait over the table finds no child exactly where none is asked for; or that a
-- child is asked for and none of these is a zombie; or it takes the first zombie among them,
-- returns its pid and status, and changes nothing in the table but that process, which becomes
-- dead and collected. Asked for are the processes whose parent is the caller, and of these, if
-- the given pid is a positive int, only the one with that pid.
pub wait_pass-IsWaited :
    (parent pid : ℕ) (procs : List Process) → IsWaited parent pid procs (wait_pass parent pid procs)
unfolding wait_pass collect
wait_pass-IsWaited parent pid [] = childless end_of_list
wait_pass-IsWaited parent pid (child ∷ rest) =
    let later = wait_pass-IsWaited parent pid rest in
    elim (Bool-cases (is_awaited parent pid child)) [
      | inl mine ↦ elim (Bool-cases (is_zombie child.state)) [
        | inl dead ↦
            rw (mine, dead)
              (first_zombie child [] rest refl refl
                (record {
                  asked = is_awaited-IsAsked parent pid child mine;
                  zombie = is_zombie_lem child.state dead;
                })
                end_of_list)
        | inr lives ↦
            rw (mine, lives)
              (with_awaited _ mine
                (further child (λ r. not_zombie child lives r.zombie) (inl mine) later))
      ]
      | inr other ↦ rw other (
          with_awaited _ other
            (further child (λ r. not-IsAsked parent pid child other r.asked) (inr other) later))
    ]
  where
    with_awaited :
        {b : Bool} (w : Waited)
        → is_awaited parent pid child ≡ b
        → IsWaited parent pid (child ∷ rest) (seen (is_awaited parent pid child) child w)
        → IsWaited parent pid (child ∷ rest) (seen b child w)
    with_awaited w e h =
        subst (λ (b : Bool). IsWaited parent pid (child ∷ rest) (seen b child w)) e h
