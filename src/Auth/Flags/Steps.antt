-- ===== src/Auth/Flags/Steps.antt =====
-- The loop of `cf2bf`, one character or number at a time.
use vtun.Common.{
  ℕ, zero, suc, ◌==◌, ◌≡◌, ◌≢◌, ◌≤◌, ◌<◌, ==ℤ-ne, Bool, false, ◌∷◌, ◌++◌, Bytes, ℤ, pos, length,
  arith, length-append,
}
use vtun.Common.Text.{dec_ℤ, to_int_self, IsInt, EndsNumber, strtol-dec_ℤ, length-dec_ℤ}
use vtun.Host.{VtunHost}
use vtun.Auth.Flags.{returns, goes_on, action, flags_loop, number}

module _ (erange : ℕ) where
  -- With enough fuel the loop ends on `s` with this result.
  abbrev pub Ends : Bytes → VtunHost → Bool × VtunHost → Type 0
  Ends s h r = (fuel : ℕ) → length s < fuel → flags_loop erange fuel s h ≡ r

  pub Ends-return :
      (c : ℕ) (s : Bytes) (h k : VtunHost) (b : Bool)
      → action erange c s h ≡ returns b k
      → Ends (c ∷ s) h (b, k)
  unfolding flags_loop
  Ends-return c s h k b e zero lt = elim lt [ ]
  Ends-return c s h k b e (suc fuel) lt = rw (e, flags_loop)

  pub Ends-step :
      (c : ℕ) (s t : Bytes) (h k : VtunHost) (r : Bool × VtunHost)
      → action erange c s h ≡ goes_on t k
      → length t ≤ length s
      → Ends t k r
      → Ends (c ∷ s) h r
  unfolding flags_loop
  Ends-step c s t h k r e shorter ends zero lt = elim lt [ ]
  Ends-step c s t h k r e shorter ends (suc fuel) lt = rw (e, flags_loop) (ends fuel (omega arith))

  -- A number that `%d` printed is read back by `number`.
  pub number-dec_ℤ :
      (optional : Bool) (z : ℤ) (rest : Bytes) (use_it : ℤ → VtunHost → VtunHost) (h : VtunHost)
      → IsInt z
      → z ≢ pos erange
      → EndsNumber rest
      → number erange optional (dec_ℤ z ++ rest) use_it h ≡ goes_on rest (use_it z h)
  number-dec_ℤ optional z rest use_it h small other ends =
      rw (strtol-dec_ℤ z rest small ends, to_int_self z small, ==ℤ-ne z (pos erange) other, longer)
        (ground arith)
    where
      longer : (length rest == length (dec_ℤ z ++ rest)) ≡ false
      longer = ground (arith, length-dec_ℤ z, length-append (dec_ℤ z) rest)
