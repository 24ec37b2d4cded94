-- ===== src/Daemon/JobManager/Ending/ExitCode.antt =====
-- The conversion of an exit code to 32 bits.
use buildozer.Common.{
  ℕ, ◌<◌, ◌%◌, ◌^◌, ◌-◌, ℤ, pos, negsuc, ◌≡◌, ◌⊎◌, refl, arith, inl, inr, Bool-cases, ltb,
}
use buildozer.Daemon.JobManager.Submit.{to_int32, signed_32}

-- The values of an `int32`.
abbrev pub IsInt32 : ℤ → Type 0
IsInt32 (pos n) = n < 2 ^ 31
IsInt32 (negsuc n) = n < 2 ^ 31

pub IsInt32-cases : (z : ℤ) → IsInt32 z ⊎ (¬ IsInt32 z)
IsInt32-cases (pos n) = elim (Bool-cases (ltb n (2 ^ 31))) [
  | inl small ↦ inl (ground (arith, small))
  | inr large ↦ inr (λ h. ground (arith, large, h))
]
IsInt32-cases (negsuc n) = elim (Bool-cases (ltb n (2 ^ 31))) [
  | inl small ↦ inl (ground (arith, small))
  | inr large ↦ inr (λ h. ground (arith, large, h))
]

-- The residue of 2^32.
abbrev pub residue : ℤ → ℕ
residue (pos n) = n % 2 ^ 32
residue (negsuc n) = 2 ^ 32 - 1 - n % 2 ^ 32

signed_32_lem : (r : ℕ) → r < 2 ^ 32 → IsInt32 (signed_32 r) × (residue (signed_32 r) ≡ r)
unfolding signed_32
signed_32_lem r h = elim (Bool-cases (ltb r (2 ^ 31))) [
  | inl low ↦ rw low (ground (arith, low), ground (arith, low))
  | inr high ↦ rw high (ground (arith, high), ground (arith, high))
]

signed_32-id : (z : ℤ) → IsInt32 z → signed_32 (residue z) ≡ z
unfolding signed_32
signed_32-id (pos n) h = ground (arith, h)
signed_32-id (negsuc n) h = ground (arith, h)

residue-bound : (z : ℤ) → residue z < 2 ^ 32
residue-bound (pos n) = omega arith
residue-bound (negsuc n) = omega arith

to_int32-residue : (z : ℤ) → to_int32 z ≡ signed_32 (residue z)
unfolding to_int32
to_int32-residue (pos n) = refl
to_int32-residue (negsuc n) = refl

-- The conversion of an exit code gives an `int32` with the same residue of 2^32, and leaves every
-- `int32` as it is.
pub to_int32_lem :
    (z : ℤ)
    → IsInt32 (to_int32 z) × (residue (to_int32 z) ≡ residue z) × (IsInt32 z → to_int32 z ≡ z)
to_int32_lem z =
    let (small, same) = signed_32_lem (residue z) (residue-bound z) in
    rw (to_int32-residue z) (small, same, signed_32-id z)
