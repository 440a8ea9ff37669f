-- ===== src/Providers/Aws/Seconds.antt =====
-- The length of the session that the AWS adapter asks for.
use jitsudo.Prelude.{
  ℕ, ◌*◌, ◌≤◌, ◌≡◌, refl, ◌⊎◌, inl, inr, true, false, arith, ltb, if◌then◌else◌, Bool-cases,
}
use jitsudo.Prelude.Int.{ℤ, pos, negsuc, is_nonpos}
use jitsudo.Providers.Cloud.{cap, is_above}
use jitsudo.Providers.Aws.{Config, cap_duration, sts_min, sts_max, whole_seconds}

floor_bounds :
    (d : ℤ)
    → is_above d sts_max ≡ false
    → let e = if is_above sts_min d then sts_min else d in
      (900 ≤ whole_seconds e) × (whole_seconds e ≤ 43_200)
floor_bounds (pos n) h = elim (Bool-cases (ltb n 900_000_000_000)) [
  | inl low ↦ rw low (omega arith, omega arith)
  | inr high ↦ rw high (ground arith, ground arith)
]
floor_bounds (negsuc n) h = (omega arith, omega arith)

pub seconds_bounds :
    (cfg : Config) (d : ℤ)
    → (900 ≤ whole_seconds (cap_duration cfg d)) × (whole_seconds (cap_duration cfg d) ≤ 43_200)
unfolding cap_duration
seconds_bounds cfg d = elim (Bool-cases (is_above (cap cfg.max_duration d) sts_max)) [
  | inl over ↦ rw over (floor_bounds sts_max refl)
  | inr under ↦ rw under (floor_bounds (cap cfg.max_duration d) under)
]

-- The seconds of a session are no more than the bound, or they are the least that STS takes.
abbrev pub AreWithin : ℤ → ℕ → Type 0
AreWithin bound seconds = (is_above (pos (seconds * 1_000_000_000)) bound ≡ false) ⊎ (seconds ≡ 900)

-- No longer than a bound, or as short as a session can be.
abbrev pub IsWithin : ℤ → ℤ → Type 0
IsWithin bound d = (is_above d bound ≡ false) ⊎ (d ≡ sts_min)

above_refl : (x : ℤ) → is_above x x ≡ false
above_refl (pos n) = ground arith
above_refl (negsuc n) = ground arith

above_asym : (x y : ℤ) → is_above x y ≡ true → is_above y x ≡ false
above_asym (pos m) (pos n) h = ground arith
above_asym (pos m) (negsuc n) h = refl
above_asym (negsuc m) (pos n) h = cc
above_asym (negsuc m) (negsuc n) h = ground arith

above_trans : (x y b : ℤ) → is_above x y ≡ true → is_above x b ≡ false → is_above y b ≡ false
above_trans (pos m) (pos n) (pos k) h g = ground arith
above_trans (pos m) (pos n) (negsuc k) h g = cc
above_trans (pos m) (negsuc n) (pos k) h g = refl
above_trans (pos m) (negsuc n) (negsuc k) h g = cc
above_trans (negsuc m) (pos n) b h g = cc
above_trans (negsuc m) (negsuc n) (pos k) h g = refl
above_trans (negsuc m) (negsuc n) (negsuc k) h g = ground arith

cap_below : (max d : ℤ) → is_above (cap max d) d ≡ false
cap_below max d = elim (Bool-cases (is_nonpos max)) [
  | inl uncapped ↦ rw uncapped (above_refl d)
  | inr capped ↦ elim (Bool-cases (is_above d max)) [
    | inl over ↦ rw (capped, over) (above_asym d max over)
    | inr under ↦ rw (capped, under) (above_refl d)
  ]
]

cap_below_max : (max d : ℤ) → (is_nonpos max ≡ true) ⊎ (is_above (cap max d) max ≡ false)
cap_below_max max d = elim (Bool-cases (is_nonpos max)) [
  | inl uncapped ↦ inl uncapped
  | inr capped ↦ inr (elim (Bool-cases (is_above d max)) [
    | inl over ↦ rw (capped, over) (above_refl max)
    | inr under ↦ rw (capped, under) under
  ])
]

-- The STS maximum and minimum keep within a bound.
limited_IsWithin :
    (x bound : ℤ)
    → is_above x bound ≡ false
    → let y = if is_above x sts_max then sts_max else x in
      IsWithin bound (if is_above sts_min y then sts_min else y)
limited_IsWithin x bound h = elim (Bool-cases (is_above x sts_max)) [
  | inl over ↦ rw over (inl (above_trans x sts_max bound over h))
  | inr under ↦ rw under (elim (Bool-cases (is_above sts_min x)) [
    | inl low ↦ rw low (inr refl)
    | inr high ↦ rw high (inl h)
  ])
]

seconds_above :
    (d bound : ℤ)
    → 900 ≤ whole_seconds d
    → is_above d bound ≡ false
    → is_above (pos (whole_seconds d * 1_000_000_000)) bound ≡ false
seconds_above (pos n) (pos k) long h = ground arith
seconds_above (pos n) (negsuc k) long h = h
seconds_above (negsuc n) bound long h = ground arith

seconds_AreWithin :
    (bound d : ℤ) → 900 ≤ whole_seconds d → IsWithin bound d → AreWithin bound (whole_seconds d)
seconds_AreWithin bound d long (inl below) = inl (seconds_above d bound long below)
seconds_AreWithin bound d long (inr least) = inr (rw least refl)

-- The session that is asked for is no longer than the request, and than the configured maximum.
pub session_AreWithin :
    (cfg : Config) (d : ℤ)
    → AreWithin d (whole_seconds (cap_duration cfg d))
      × ((is_nonpos cfg.max_duration ≡ true)
          ⊎ AreWithin cfg.max_duration (whole_seconds (cap_duration cfg d)))
unfolding cap_duration
session_AreWithin cfg d =
    let within = λ (bound : ℤ) (below : is_above (cap cfg.max_duration d) bound ≡ false).
      seconds_AreWithin bound (cap_duration cfg d) (seconds_bounds cfg d).0
        (limited_IsWithin (cap cfg.max_duration d) bound below) in
    (
      within d (cap_below cfg.max_duration d),
      elim (cap_below_max cfg.max_duration d) [
        | inl uncapped ↦ inl uncapped
        | inr below ↦ inr (within cfg.max_duration below)
      ],
    )
