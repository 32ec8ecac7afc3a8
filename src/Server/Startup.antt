-- ===== src/Server/Startup.antt =====
-- When main/main.cpp restarts the chip instead of serving.
use esp32_mqtts_broker.Prelude.{
  ℕ, zero, suc, ◌+◌, ◌≡◌, refl, Bool, true, false, ◌&&◌, none, some, List, [], ◌∷◌, arith, ltb, leb,
  if◌then◌else◌, Bool-cases, inl, inr,
}
use esp32_mqtts_broker.Server.{error_check, retry, attempt, startup}

-- the call ends well at one of the numbers from `count` on
unfoldable pub succeeds : ℕ → (ℕ → Bool) → ℕ → Bool
succeeds zero fails count = false
succeeds (suc left) fails count = if fails count then succeeds left fails (count + 1) else true

-- the loop ends below the limit exactly if the call has ended well
retry-succeeds :
    (left : ℕ) (fails : ℕ → Bool) (count : ℕ)
    → count + left ≡ 10
    → leb 10 (retry left fails count) ≡ (if succeeds left fails count then false else true)
unfolding retry succeeds
retry-succeeds zero fails count total = ground arith
retry-succeeds (suc left) fails count total = elim (Bool-cases (fails count)) [
  | inl bad ↦
      let below : ltb count 10 ≡ true = ground arith in
      rw (bad, below) (retry-succeeds left fails (count + 1) (omega arith))
  | inr good ↦ rw good (ground arith)
]

unfoldable pub every_call : List (ℕ → Bool) → Bool
every_call [] = true
every_call (fails ∷ calls) = succeeds 10 fails 0 && every_call calls

attempt-succeeds :
    (fails : ℕ → Bool) → attempt fails (some 0) ≡ (if succeeds 10 fails 0 then some 0 else none)
unfolding attempt error_check
attempt-succeeds fails = rw (retry-succeeds 10 fails 0 refl) (ground arith)

startup-none : (calls : List (ℕ → Bool)) → startup calls none ≡ none
unfolding startup attempt
startup-none [] = refl
startup-none (fails ∷ calls) = startup-none calls

-- The chip goes on to serve, with an error count of 0, exactly if every call of the startup ends
-- well at one of its first ten tries; a call that ends well only at its eleventh try, which the loop
-- makes as well, restarts it.
pub startup-every_call :
    (calls : List (ℕ → Bool)) → startup calls (some 0) ≡ (if every_call calls then some 0 else none)
unfolding startup every_call
startup-every_call [] = refl
startup-every_call (fails ∷ calls) = elim (Bool-cases (succeeds 10 fails 0)) [
  | inl good ↦ rw (attempt-succeeds fails, good) (startup-every_call calls)
  | inr bad ↦ rw (attempt-succeeds fails, bad) (startup-none calls)
]
