-- ===== src/DpReg/Counts.antt =====
-- CLZ counts the zeros above the highest one.
use native.Mathlib.Nat.{pow-suc}
use alpine_on_ios.Bits.{sign_bit}
use alpine_on_ios.DpReg.OneSource.{clz_loop, one_source}
use alpine_on_ios.Prelude.{
  ℕ, zero, suc, ◌+◌, ◌-◌, ◌*◌, ◌/◌, ◌^◌, ◌≤◌, ◌<◌, ◌≡◌, ◌⊎◌, refl, arith, Bool-cases, inl, inr, leb,
  leb→le, leb→lt, some, Bool, true, false, if◌then◌else◌, ltb,
}

-- `c` zeros stand above the highest one of `val` in a word of `width` digits, or `val` is zero.
abbrev pub IsLeading : ℕ → ℕ → ℕ → Type 0
IsLeading val width c =
    (c ≤ width) × (val < 2 ^ (width - c)) × ((c ≡ width) ⊎ (2 ^ (width - c) ≤ 2 * val))

-- With `rest` digits left to look at, all above them being zero.
clz_loop-IsLeading :
    (val width rest fuel count mask : ℕ)
    → count + rest ≡ width
    → rest ≤ fuel
    → val < 2 ^ rest
    → mask ≡ 2 ^ rest / 2
    → IsLeading val width (clz_loop val width fuel count mask)
unfolding clz_loop
clz_loop-IsLeading val width zero zero count mask e f v m = ground arith
clz_loop-IsLeading val width zero (suc fuel) count mask e f v m = ground arith
clz_loop-IsLeading val width (suc k) zero count mask e f v m = absurd (omega arith)
clz_loop-IsLeading val width (suc k) (suc fuel) count mask e f v m =
    let top : mask ≡ 2 ^ k = omega (arith, pow-suc 2 k) in
    let here : width - count ≡ suc k = omega arith in
    let sign = sign_bit k val (omega (arith, pow-suc 2 k)) in
    let open_loop : ltb count width ≡ true = ground arith in
    elim (Bool-cases (leb (2 ^ k) val)) [
      | inl one ↦
          rw (clz_loop, top, open_loop, sign, one)
            (rw here (omega arith, v, inr (omega (arith, pow-suc 2 k, leb→le (2 ^ k) val one))))
      | inr nil ↦
          rw (clz_loop, top, open_loop, sign, nil)
            (clz_loop-IsLeading val width k fuel (count + 1) (2 ^ k / 2) (omega arith) (omega arith)
              (leb→lt (2 ^ k) val nil) refl)
    ]

-- CLZ of a value that fits its 32- or 64-bit register always gives a count, and that many zeros
-- stand above the highest one of the value, all of them for 0.
pub one_source-clz :
    (sf : Bool) (val : ℕ)
    → let width : ℕ = if sf then 64 else 32 in
      val < 2 ^ width → (c : ℕ) × (one_source 4 sf val ≡ some c) × IsLeading val width c
unfolding one_source
one_source-clz true val h = (
  clz_loop val 64 64 0 (2 ^ 63),
  refl,
  clz_loop-IsLeading val 64 64 64 0 (2 ^ 63) refl (omega arith) h refl,
)
one_source-clz false val h = (
  clz_loop val 32 32 0 (2 ^ 31),
  refl,
  clz_loop-IsLeading val 32 32 32 0 (2 ^ 31) refl (omega arith) h refl,
)
