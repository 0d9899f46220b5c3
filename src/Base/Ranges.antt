-- ===== src/Base/Ranges.antt =====
-- Runs over the indices `k`, `k + 1`, …, `k + n - 1`.
use Prim.Native.Nat.{ℕ, zero, suc, ◌+◌, ◌≤◌, ◌<◌}
use mathlib.Core.Path.{◌≡◌, refl}
use mathlib.Core.Logic.{inl, inr}
use mathlib.Core.Bool.{Bool, true, ◌&&◌}
use native.Mathlib.Omega.{arith}
use junction_box.Base.Tests.{if◌then◌else◌, ◌==◌, Bool-cases}
use junction_box.Base.Outcomes.{Outcome, ok, abort, fault, ◌>>=◌}

module _ (p : ℕ → Bool) where
  -- How many of the indices pass.
  unfoldable pub count_from : ℕ → ℕ → ℕ
  count_from k zero = 0
  count_from k (suc n) = (if p k then 1 else 0) + count_from (k + 1) n

  unfoldable pub all_from : ℕ → ℕ → Bool
  all_from k zero = true
  all_from k (suc n) = p k && all_from (k + 1) n

  pub all_from-append : (k a b : ℕ) → all_from k (a + b) ≡ (all_from k a && all_from (k + a) b)
  unfolding all_from
  all_from-append k zero b = ground arith
  all_from-append k (suc a) b =
      let e : suc a + b ≡ suc (a + b) = omega arith in
      let f : k + suc a ≡ k + 1 + a = omega arith in
      rw (e, f) (ground (arith, all_from-append (k + 1) a b))

  pub all_from_sound : (k n i : ℕ) → all_from k n ≡ true → k ≤ i → i < k + n → p i ≡ true
  unfolding all_from
  all_from_sound k zero i h a b = absurd (omega arith)
  all_from_sound k (suc n) i h a b = elim (Bool-cases (k == i)) [
    | inl e ↦ ground arith
    | inr ne ↦ all_from_sound (k + 1) n i (ground arith) (ground arith) (omega arith)
  ]

  pub all_from_complete :
      (k n : ℕ) → ((i : ℕ) → k ≤ i → i < k + n → p i ≡ true) → all_from k n ≡ true
  unfolding all_from
  all_from_complete k zero h = refl
  all_from_complete k (suc n) h =
      rw (h k (omega arith) (omega arith))
        (all_from_complete (k + 1) n (λ i a b. h i (omega arith) (omega arith)))

-- The loop `for (i = k; i < k + n; i++) s = step(s, i)` with a body that can fail.
module _ {S : Type 0} (step : S → ℕ → Outcome S) where
  unfoldable pub fold_from : ℕ → ℕ → S → Outcome S
  fold_from k zero s = ok s
  fold_from k (suc n) s = step s k >>= fold_from (k + 1) n

  pub fold_from-append :
      (k a b : ℕ) (s : S) → fold_from k (a + b) s ≡ (fold_from k a s >>= fold_from (k + a) b)
  unfolding fold_from
  fold_from-append k zero b s =
      let e : 0 + b ≡ b = omega arith in let f : k + 0 ≡ k = omega arith in rw (e, f)
  fold_from-append k (suc a) b s =
      let e : suc a + b ≡ suc (a + b) = omega arith in
      let f : k + suc a ≡ k + 1 + a = omega arith in
      rw (e, f) (go (step s k) λ t. fold_from-append (k + 1) a b t)
    where
      go :
          (m : Outcome S)
          → ((t : S)
              → fold_from (k + 1) (a + b) t ≡ (fold_from (k + 1) a t >>= fold_from (k + 1 + a) b))
          → (m >>= fold_from (k + 1) (a + b))
            ≡ ((m >>= fold_from (k + 1) a) >>= fold_from (k + 1 + a) b)
      go (ok t) h = h t
      go abort h = refl
      go fault h = refl
