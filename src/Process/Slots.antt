-- ===== src/Process/Slots.antt =====
-- Which slot of the table of descriptors is taken, and which are freed.
use alpine_on_ios.Process.Fds.{
  FdEntry, Fds, max_fds, no_entry, is_fd, find_free, install, fd_alloc_init, fd_get, Release,
  release_entry, fd_close, close_from, fd_close_cloexec,
}
use alpine_on_ios.Prelude.{
  ℕ, zero, suc, ◌+◌, ◌-◌, ◌^◌, ◌<◌, ◌≤◌, ◌≡◌, ◌≢◌, refl, ap, ◌∙◌, sym, arith, Bool, true, false,
  not, ◌&&◌, ltb, leb, ◌==◌, if◌then◌else◌, is_true, update, List, [], ◌++◌, Option, none, some,
  Bool-cases, inl, inr, if-cases, ==_iff, ltb→lt, ltb→le,
}

-- The lowest free slot from `first` to before `stop`, if there is one.
pub data IsFree (fds : Fds) (first stop : ℕ) : Option ℕ → Type 0 where
  full : ((j : ℕ) → first ≤ j → j < stop → (fds j).kind ≢ 0) → IsFree fds first stop none
  free :
      (i : ℕ)
      → first ≤ i
      → i < stop
      → (fds i).kind ≡ 0
      → ((j : ℕ) → first ≤ j → j < i → (fds j).kind ≢ 0)
      → IsFree fds first stop (some i)

further-IsFree :
    {fds : Fds} {i stop : ℕ} {o : Option ℕ}
    → (fds i).kind ≢ 0
    → IsFree fds (suc i) stop o
    → IsFree fds i stop o
further-IsFree {fds = fds} {i = i} busy (full all) = full (λ j l u e. elim (Bool-cases (j == i)) [
  | inl same ↦ busy (ap (λ (k : ℕ). (fds k).kind) (sym ((==_iff j i).0 same)) ∙ e)
  | inr other ↦ all j (ground arith) u e
])
further-IsFree {fds = fds} {i = i} busy (free k l u e below) =
    free k (omega arith) u e (λ j lj uj ej. elim (Bool-cases (j == i)) [
      | inl same ↦ busy (ap (λ (k : ℕ). (fds k).kind) (sym ((==_iff j i).0 same)) ∙ ej)
      | inr other ↦ below j (ground arith) uj ej
    ])

find_free-IsFree : (n : ℕ) (fds : Fds) (i : ℕ) → IsFree fds i (i + n) (find_free n fds i)
unfolding find_free
find_free-IsFree zero fds i = full (λ j l u e. omega arith)
find_free-IsFree (suc n) fds i =
    let later = find_free-IsFree n fds (suc i) in
    if-cases (IsFree fds i (i + suc n)) ((fds i).kind == 0)
      (λ h. free i (omega arith) (omega arith) ((==_iff _ _).0 h) (λ j l u e. omega arith))
      (λ h. further-IsFree (λ e. ground arith) (moved later))
  where
    moved : {o : Option ℕ} → IsFree fds (suc i) (suc i + n) o → IsFree fds (suc i) (i + suc n) o
    moved (full all) = full (λ j l u e. all j l (omega arith) e)
    moved (free k l u e below) = free k l (omega arith) e below

-- What an allocation does.
pub data IsAllocated (fds : Fds) (first : ℕ) (init : FdEntry) : Option (ℕ × Fds) → Type 0 where
  no_slot : ((j : ℕ) → first ≤ j → j < max_fds → (fds j).kind ≢ 0) → IsAllocated fds first init none
  slot :
      (i : ℕ) {after : Fds}
      → first ≤ i
      → i < max_fds
      → (fds i).kind ≡ 0
      → ((j : ℕ) → first ≤ j → j < i → (fds j).kind ≢ 0)
      → after i ≡ init
      → ((j : ℕ) → j ≢ i → after j ≡ fds j)
      → IsAllocated fds first init (some (i, after))

install-IsAllocated :
    {o : Option ℕ} (fds : Fds) (first : ℕ) (init : FdEntry)
    → IsFree fds first max_fds o
    → IsAllocated fds first init (install fds init o)
unfolding install
install-IsAllocated fds first init (full all) = no_slot all
install-IsAllocated fds first init (free i l u e below) =
    slot i l u e below (ground arith) (λ j ne. ground arith)

-- For an int minfd, fd_alloc_init fails exactly if every slot from minfd, or from 0 if that is
-- negative, is taken; otherwise it returns the lowest free slot from there, which then has the
-- given entry, and changes no other slot.
pub fd_alloc_init-IsAllocated :
    (fds : Fds) (minfd : ℕ) (init : FdEntry)
    → minfd < 2 ^ 32
    → IsAllocated fds (if is_fd minfd then minfd else 0) init (fd_alloc_init fds minfd init)
unfolding fd_alloc_init
fd_alloc_init-IsAllocated fds minfd init h =
    install-IsAllocated fds _ init
      (up_to (if is_fd minfd then minfd else 0) (find_free-IsFree _ fds _))
  where
    up_to :
        (first : ℕ) {o : Option ℕ}
        → IsFree fds first (first + (max_fds - first)) o
        → IsFree fds first max_fds o
    up_to first (full all) = full (λ j l u e. all j l (omega arith) e)
    up_to first (free i l u e below) = free i l (omega (arith, l, u)) e below

-- A slot that exec closes.
abbrev pub is_closed : FdEntry → Bool
is_closed e = not (e.kind == 0) && is_true e.cloexec

-- The entries that an exec closes, in order, from slot `i` on.
unfoldable pub released_from : ℕ → Fds → ℕ → List Release
released_from zero fds i = []
released_from (suc n) fds i =
    (if is_closed (fds i) then release_entry (fds i) else []) ++ released_from n fds (suc i)

-- A change of one slot does not matter to later ones.
released_from-update :
    (n : ℕ) (fds : Fds) (e : FdEntry) (j i : ℕ)
    → j < i
    → released_from n (update fds j e) i ≡ released_from n fds i
unfolding released_from
released_from-update zero fds e j i h = refl
released_from-update (suc n) fds e j i h =
    let other : i == j ≡ false = ground arith in
    rw other (
      ap (λ (l : List Release). (if is_closed (fds i) then release_entry (fds i) else []) ++ l)
        (released_from-update n fds e j (suc i) (omega arith)))

close_from-closed :
    (n : ℕ) (fds : Fds) (i : ℕ)
    → is_closed (fds i) ≡ true
    → close_from (suc n) fds i ≡ (
      (close_from n (update fds i no_entry) (suc i)).0,
      release_entry (fds i) ++ (close_from n (update fds i no_entry) (suc i)).1,
    )
unfolding close_from
close_from-closed n fds i c = rw c refl

close_from-open :
    (n : ℕ) (fds : Fds) (i : ℕ)
    → is_closed (fds i) ≡ false
    → close_from (suc n) fds i ≡ close_from n fds (suc i)
unfolding close_from
close_from-open n fds i c = rw c refl

close_from-below : (n : ℕ) (fds : Fds) (i j : ℕ) → j < i → ((close_from n fds i).0) j ≡ fds j
unfolding close_from
close_from-below zero fds i j h = refl
close_from-below (suc n) fds i j h =
    let other : j == i ≡ false = ground arith in
    elim (Bool-cases (is_closed (fds i))) [
      | inl c ↦
          rw c (close_from-below n (update fds i no_entry) (suc i) j (omega arith) ∙ rw other refl)
      | inr c ↦ rw c (close_from-below n fds (suc i) j (omega arith))
    ]

close_from-released : (n : ℕ) (fds : Fds) (i : ℕ) → (close_from n fds i).1 ≡ released_from n fds i
unfolding close_from released_from
close_from-released zero fds i = refl
close_from-released (suc n) fds i = elim (Bool-cases (is_closed (fds i))) [
  | inl gone ↦ rw gone (
      ap (λ (l : List Release). release_entry (fds i) ++ l)
        (close_from-released n (update fds i no_entry) (suc i)
          ∙ released_from-update n fds no_entry i (suc i) (omega arith)))
  | inr stays ↦ rw stays (close_from-released n fds (suc i))
]

closed_slot :
    (fds : Fds) (j i : ℕ)
    → j ≡ i
    → is_closed (fds i) ≡ true
    → no_entry ≡ (if is_closed (fds j) then no_entry else fds j)
closed_slot fds j i e c =
    let here : is_closed (fds j) ≡ true = ap (λ (k : ℕ). is_closed (fds k)) e ∙ c in rw here refl

open_slot :
    (fds : Fds) (j i : ℕ)
    → j ≡ i
    → is_closed (fds i) ≡ false
    → fds j ≡ (if is_closed (fds j) then no_entry else fds j)
open_slot fds j i e c =
    let here : is_closed (fds j) ≡ false = ap (λ (k : ℕ). is_closed (fds k)) e ∙ c in rw here refl

close_from-slot :
    (n : ℕ) (fds : Fds) (i j : ℕ)
    → i ≤ j
    → j < i + n
    → ((close_from n fds i).0) j ≡ (if is_closed (fds j) then no_entry else fds j)
unfolding close_from
close_from-slot zero fds i j l u = absurd (omega arith)
close_from-slot (suc n) fds i j l u = elim (Bool-cases (j == i)) [
  | inl same ↦
      let here : j ≡ i = (==_iff j i).0 same in
      elim (Bool-cases (is_closed (fds i))) [
        | inl c ↦
            ap (λ (r : Fds × List Release). (r.0) j) (close_from-closed n fds i c)
            ∙ close_from-below n (update fds i no_entry) (suc i) j (omega arith)
            ∙ rw same (closed_slot fds j i here c)
        | inr c ↦
            ap (λ (r : Fds × List Release). (r.0) j) (close_from-open n fds i c)
            ∙ close_from-below n fds (suc i) j (omega arith)
            ∙ open_slot fds j i here c
      ]
  | inr other ↦ elim (Bool-cases (is_closed (fds i))) [
    | inl c ↦ rw c (
        close_from-slot n (update fds i no_entry) (suc i) j (ground arith) (omega arith)
        ∙ rw other refl)
    | inr c ↦ rw c (close_from-slot n fds (suc i) j (ground arith) (omega arith))
  ]
]

-- fd_close_cloexec empties the slots that are taken and marked close-on-exec, keeps all others
-- as they are, and gives back to the host what the emptied ones held, in the order of the
-- slots.
pub fd_close_cloexec_lem :
    (fds : Fds)
    → ((j : ℕ)
        → j < max_fds
        → ((fd_close_cloexec fds).0) j ≡ (if is_closed (fds j) then no_entry else fds j))
      × ((fd_close_cloexec fds).1 ≡ released_from max_fds fds 0)
unfolding fd_close_cloexec
fd_close_cloexec_lem fds = (
  λ j h. close_from-slot max_fds fds 0 j (omega arith) (omega arith),
  close_from-released max_fds fds 0,
)

-- The lowest free slot is the only one.
IsFree-only :
    {fds : Fds} {first stop : ℕ} {o : Option ℕ} (fd : ℕ)
    → first ≤ fd
    → fd < stop
    → (fds fd).kind ≡ 0
    → ((j : ℕ) → first ≤ j → j < fd → (fds j).kind ≢ 0)
    → IsFree fds first stop o
    → o ≡ some fd
IsFree-only fd l u e below (full all) = absurd (all fd l u e)
IsFree-only fd l u e below (free i li ui ei below_i) = elim (Bool-cases (ltb i fd)) [
  | inl lower ↦ absurd (below i li (ltb→lt i fd lower) ei)
  | inr not_lower ↦ elim (Bool-cases (ltb fd i)) [
    | inl higher ↦ absurd (below_i fd l (ltb→lt fd i higher) e)
    | inr not_higher ↦ ap some (omega (arith, ltb→le i fd not_lower, ltb→le fd i not_higher))
  ]
]

fd_alloc_init-lowest :
    (fds : Fds) (fd minfd : ℕ) (init : FdEntry)
    → minfd ≤ fd
    → fd < max_fds
    → (fds fd).kind ≡ 0
    → ((j : ℕ) → minfd ≤ j → j < fd → (fds j).kind ≢ 0)
    → fd_alloc_init fds minfd init ≡ some (fd, update fds fd init)
unfolding fd_alloc_init install
fd_alloc_init-lowest fds fd minfd init l u e below =
    let real : is_fd minfd ≡ true = ground arith in
    rw real (
      ap (install fds init)
        (IsFree-only fd l (omega arith) e below (find_free-IsFree (max_fds - minfd) fds minfd)))

-- If a slot from minfd on is taken and so are all between minfd and it, then after fd_close the
-- slot is not found by fd_get, and fd_alloc_init with an entry that is not FD_NONE returns it
-- again and makes fd_get find that entry.
pub fd_close-fd_alloc_init :
    (fds : Fds) (fd minfd : ℕ) (init : FdEntry)
    → minfd ≤ fd
    → fd < max_fds
    → (fds fd).kind ≢ 0
    → init.kind ≢ 0
    → ((j : ℕ) → minfd ≤ j → j < fd → (fds j).kind ≢ 0)
    → (reused : Fds) × (fd_get ((fd_close fds fd).0) fd ≡ none)
      × (fd_alloc_init ((fd_close fds fd).0) minfd init ≡ some (fd, reused))
      × (fd_get reused fd ≡ some init)
unfolding fd_close fd_get
fd_close-fd_alloc_init fds fd minfd init l u used kept below =
    let inside : leb max_fds fd ≡ false = ground arith in
    let taken : (fds fd).kind == 0 ≡ false = ground arith in
    let real : init.kind == 0 ≡ false = ground arith in
    let cut = update fds fd no_entry in
    let self : fd == fd ≡ true = ground arith in
    let busy = λ (j : ℕ) (lj : minfd ≤ j) (uj : j < fd) (e : (cut j).kind ≡ 0).
      below j lj uj (ap (λ (x : FdEntry). x.kind) (sym (unchanged fds no_entry fd j uj)) ∙ e) in
    (
      update cut fd init,
      rw (inside, taken, self) refl,
      rw (inside, taken) (fd_alloc_init-lowest cut fd minfd init l u (rw self refl) busy),
      rw (inside, self, real) refl,
    )
  where
    unchanged : (fds : Fds) (e : FdEntry) (fd j : ℕ) → j < fd → update fds fd e j ≡ fds j
    unchanged fds e fd j h = ground arith
