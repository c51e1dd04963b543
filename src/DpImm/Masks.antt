-- ===== src/DpImm/Masks.antt =====
-- The decoder of logical immediates against the architecture's description of the masks.
use alpine_on_ios.DpImm.Bitmask.{decode_bitmask_imm}
use native.Mathlib.Nat.{pow-le-pow_right}
use alpine_on_ios.Prelude.{
  ℕ, ◌+◌, ◌-◌, ◌*◌, ◌/◌, ◌%◌, ◌^◌, ◌<◌, Option, none, some, Bool, true, not, ◌&&◌, ◌||◌, ◌==◌, ltb,
  ◌≡◌, ◌≢◌, ◌⊎◌, ◌≤◌, refl, arith, if◌then◌else◌, each_below, each_below-at,
}

-- The size of the repeated element, from `N` and the leading ones of `imms`.
abbrev pub element_size : ℕ → ℕ → ℕ
element_size n imms =
    if n == 1
    then 64
    else if ltb imms 32
    then 32
    else if ltb imms 48
    then 16
    else if ltb imms 56
    then 8
    else if ltb imms 60
    then 4
    else if ltb imms 62
    then 2
    else 1

-- Rotating a word of `w` digits left by `r` is multiplication modulo `2 ^ w - 1`. The mask, so
-- rotated, is `s + 1` ones repeated every `e` digits.
is_mask : ℕ → ℕ → ℕ → ℕ → ℕ → Bool
is_mask w e s r mask =
    ltb 0 mask
    && ltb mask (2 ^ w - 1)
    && mask * 2 ^ r % (2 ^ w - 1) == (2 ^ (s + 1) - 1) * ((2 ^ w - 1) / (2 ^ e - 1))

-- What the decoder must answer for an element of `e` digits in a register of `w`.
answers : ℕ → ℕ → ℕ → ℕ → Option ℕ → Bool
unfolding is_mask
answers w e s r none = ltb w e || s == e - 1
answers w e s r (some mask) = not (ltb w e || s == e - 1) && is_mask w e s r mask

checked : ℕ → ℕ → ℕ → ℕ → Bool
unfolding answers decode_bitmask_imm
checked sf n immr imms =
    let w = if sf == 1 then 64 else 32 in
    let e = element_size n imms in
    answers w e (imms % e) (immr % e) (decode_bitmask_imm sf n immr imms)

-- A reserved encoding has no mask: the element is wider than the register, or it would be all
-- ones. Any other has the mask whose rotation to the left by `r` is `s + 1` ones in each element.
abbrev pub IsAnswer : ℕ → ℕ → ℕ → ℕ → Option ℕ → Type 0
IsAnswer w e s r none = (w < e) ⊎ (s ≡ e - 1)
IsAnswer w e s r (some mask) =
    (e ≤ w)
    × (s ≢ e - 1)
    × (0 < mask)
    × (mask < 2 ^ w - 1)
    × (mask * 2 ^ r % (2 ^ w - 1) ≡ (2 ^ (s + 1) - 1) * ((2 ^ w - 1) / (2 ^ e - 1)))

answers-IsAnswer : (w e s r : ℕ) (o : Option ℕ) → answers w e s r o ≡ true → IsAnswer w e s r o
unfolding answers
answers-IsAnswer w e s r none h = ground arith
answers-IsAnswer w e s r (some mask) h = ground arith

all_checked :
    each_below
      (λ sf. each_below (λ n. each_below (λ immr. each_below (checked sf n immr) 64) 64) 2)
      2
    ≡ true
unfolding each_below checked
all_checked = refl

-- For every value of its four fields, decode_bitmask_imm refuses exactly the reserved encodings,
-- those whose element is wider than the register or would be all ones; otherwise its mask, rotated
-- left by the rotation field, is the given number of ones repeated in every element.
pub decode_bitmask_imm-IsAnswer :
    (sf n immr imms : ℕ)
    → sf < 2
    → n < 2
    → immr < 64
    → imms < 64
    → let e = element_size n imms in
      IsAnswer
        (if sf == 1 then 64 else 32)
        e
        (imms % e)
        (immr % e)
        (decode_bitmask_imm sf n immr imms)
unfolding checked
decode_bitmask_imm-IsAnswer sf n immr imms h1 h2 h3 h4 =
    let at_sf = each_below-at _ 2 all_checked sf h1 in
    let at_n = each_below-at _ 2 at_sf n h2 in
    let at_immr = each_below-at _ 64 at_n immr h3 in
    let at_imms = each_below-at _ 64 at_immr imms h4 in
    answers-IsAnswer _ _ _ _ (decode_bitmask_imm sf n immr imms) at_imms

IsAnswer-lt :
    (w e s r : ℕ) (o : Option ℕ) (mask : ℕ)
    → w ≤ 64
    → IsAnswer w e s r o
    → o ≡ some mask
    → mask < 2 ^ 64
IsAnswer-lt w e s r none mask h a p = cc
IsAnswer-lt w e s r (some m) mask h a p =
    let top : 2 ^ w ≤ 2 ^ 64 = pow-le-pow_right {n = 2} (omega arith) h in
    let below : m < 2 ^ w - 1 = a.3 in ground arith

-- A decoded mask is a word.
pub decode_bitmask_imm-lt :
    (sf n immr imms mask : ℕ)
    → sf < 2
    → n < 2
    → immr < 64
    → imms < 64
    → decode_bitmask_imm sf n immr imms ≡ some mask
    → mask < 2 ^ 64
decode_bitmask_imm-lt sf n immr imms mask h1 h2 h3 h4 p =
    IsAnswer-lt (if sf == 1 then 64 else 32) _ _ _ (decode_bitmask_imm sf n immr imms) mask
      (ground arith) (decode_bitmask_imm-IsAnswer sf n immr imms h1 h2 h3 h4) p
