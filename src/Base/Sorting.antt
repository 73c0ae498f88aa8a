-- ===== src/Base/Sorting.antt =====
-- ORDER BY created_at DESC: a stable insertion sort, newest first.
use Prim.Native.Nat.{ℕ, ◌≤◌}
use mathlib.Core.List.{List, [], ◌∷◌, Perm}
use mathlib.Core.List.Perm
use native.Mathlib.Omega.{arith}
use kazakh_express.Base.Tests.{leb, if◌then◌else◌, Bool-cases}
use kazakh_express.Base.Lists.{All}
use mathlib.Core.Logic.{inl, inr}

module _ {R : Type 0} (created : R → ℕ) where
  abbrev pub place : R → List R → List R
  place r [] = r ∷ []
  place r (s ∷ rs) = if leb (created s) (created r) then r ∷ s ∷ rs else s ∷ place r rs

  abbrev pub newest_first : List R → List R
  newest_first [] = []
  newest_first (r ∷ rs) = place r (newest_first rs)

  -- No row is older than a row behind it.
  abbrev pub IsNewestFirst : List R → Type 0
  IsNewestFirst [] = Unit
  IsNewestFirst (r ∷ rs) = All (λ s. created s ≤ created r) rs × IsNewestFirst rs

  All-older :
      (r s : R) (rs : List R)
      → created r ≤ created s
      → All (λ t. created t ≤ created r) rs
      → All (λ t. created t ≤ created s) rs
  All-older r s [] h k = tt
  All-older r s (t ∷ rs) h k = (omega arith, All-older r s rs h k.1)

  All-place :
      (n : ℕ) (r : R) (rs : List R)
      → created r ≤ n
      → All (λ t. created t ≤ n) rs
      → All (λ t. created t ≤ n) (place r rs)
  All-place n r [] h k = (h, tt)
  All-place n r (s ∷ rs) h k = ground (arith, All-place n r rs h k.1)

  place-IsNewestFirst : (r : R) (rs : List R) → IsNewestFirst rs → IsNewestFirst (place r rs)
  place-IsNewestFirst r [] h = (tt, tt)
  place-IsNewestFirst r (s ∷ rs) h =
      ground (arith, All-older s r rs, All-place (created s) r rs, place-IsNewestFirst r rs h.1)

  pub newest_first-IsNewestFirst : (rs : List R) → IsNewestFirst (newest_first rs)
  newest_first-IsNewestFirst [] = tt
  newest_first-IsNewestFirst (r ∷ rs) =
      place-IsNewestFirst r (newest_first rs) (newest_first-IsNewestFirst rs)

  place-Perm : (r : R) (rs : List R) → Perm (place r rs) (r ∷ rs)
  place-Perm r [] = Perm.refl _
  place-Perm r (s ∷ rs) = elim (Bool-cases (leb (created s) (created r))) [
    | inl here ↦ rw here (Perm.refl _)
    | inr later ↦ rw later (Perm.trans (Perm.cons s (place-Perm r rs)) (Perm.swap _ _ _))
  ]

  pub newest_first-Perm : (rs : List R) → Perm (newest_first rs) rs
  newest_first-Perm [] = Perm.refl _
  newest_first-Perm (r ∷ rs) =
      Perm.trans (place-Perm r (newest_first rs)) (Perm.cons r (newest_first-Perm rs))
