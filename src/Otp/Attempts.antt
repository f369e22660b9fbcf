-- ===== src/Otp/Attempts.antt =====
-- What guessing a code can reach, and that a code is spent by its first use.
use ryda.Base.{
  ℕ, suc, ◌+◌, ◌≤◌, ◌<◌, ◌≡◌, ◌≢◌, refl, true, Option, some, List, [], ◌∷◌, arith, find_last,
  find_last-save, find_last-holds, find_last-lookup, save, save-Distinct, lookup-save_self,
  Distinct, Option-cases, inl, inr, length, after, result, ok, err, too_many_attempts,
  invalid_or_expired_otp,
}
use ryda.Otp.{OtpCode, otp_keyed, Purpose, verify, check_latest, is_pending, max_attempts}

-- The code that `verify` compares with.
abbrev pub latest : ℕ → Purpose → List OtpCode → Option OtpCode
latest destination purpose codes = find_last (is_pending destination purpose) codes

-- A wrong code for a live request is refused, and counts one attempt on the latest code.
verify_wrong :
    (now destination code : ℕ) (purpose : Purpose) (codes : List OtpCode) {o : OtpCode}
    → Distinct codes
    → latest destination purpose codes ≡ some o
    → now ≤ o.expires_at
    → o.attempt_count < max_attempts
    → o.code ≢ code
    → let (answer, codes') = verify now destination code purpose codes in
      (answer ≡ err invalid_or_expired_otp)
      × (latest destination purpose codes'
          ≡ some (record o { attempt_count = suc o.attempt_count }))
      × Distinct codes'
unfolding verify check_latest
verify_wrong now destination code purpose codes {o} d e live room wrong =
    let o' : OtpCode = record o { attempt_count = suc o.attempt_count } in
    ground (
      arith,
      find_last-save (is_pending destination purpose) codes {v = o} o' d e refl,
      find_last-holds (is_pending destination purpose) codes e,
      save-Distinct o' codes d,
    )

-- A series of guesses, each at its time.
abbrev pub guess_all : ℕ → Purpose → List (ℕ × ℕ) → List OtpCode → List OtpCode
guess_all destination purpose [] codes = codes
guess_all destination purpose ((now, code) ∷ guesses) codes =
    guess_all destination purpose guesses (after (verify now destination code purpose) codes)

-- Every guess is wrong, and made before `o` expires.
abbrev pub Wrong : OtpCode → List (ℕ × ℕ) → Type 0
Wrong o [] = Unit
Wrong o ((now, code) ∷ guesses) = (now ≤ o.expires_at) × (o.code ≢ code) × Wrong o guesses

locked_out :
    (destination : ℕ) (purpose : Purpose) (guesses : List (ℕ × ℕ)) (codes : List OtpCode)
    (o : OtpCode)
    → Distinct codes
    → latest destination purpose codes ≡ some o
    → Wrong o guesses
    → o.attempt_count + length guesses ≡ max_attempts
    → latest destination purpose (guess_all destination purpose guesses codes)
      ≡ some (record o { attempt_count = max_attempts })
locked_out destination purpose [] codes o d e w n =
    let filled : o.attempt_count ≡ max_attempts = omega arith in
    rw e (λ i. some (record o { attempt_count = filled i }))
locked_out destination purpose ((now, code) ∷ guesses) codes o d e w n =
    let step = verify_wrong now destination code purpose codes d e w.0 (omega arith) w.1 in
    locked_out destination purpose guesses (after (verify now destination code purpose) codes)
      (record o { attempt_count = suc o.attempt_count }) step.2 step.1 w.2 (omega arith)

verify_locked :
    (now destination code : ℕ) (purpose : Purpose) (codes : List OtpCode) {o : OtpCode}
    → latest destination purpose codes ≡ some o
    → max_attempts ≤ o.attempt_count
    → now ≤ o.expires_at
    → verify now destination code purpose codes ≡ (err too_many_attempts, codes)
unfolding verify check_latest
verify_locked now destination code purpose codes e full live = ground arith

-- Five wrong guesses close the latest code: from then on every code is refused, also the right one,
-- and the attempts are not counted on.
pub five_guesses :
    (destination : ℕ) (purpose : Purpose) (guesses : List (ℕ × ℕ)) (codes : List OtpCode)
    (now code : ℕ) {o : OtpCode}
    → Distinct codes
    → latest destination purpose codes ≡ some o
    → o.attempt_count ≡ 0
    → Wrong o guesses
    → length guesses ≡ max_attempts
    → now ≤ o.expires_at
    → let codes' = guess_all destination purpose guesses codes in
      verify now destination code purpose codes' ≡ (err too_many_attempts, codes')
five_guesses destination purpose guesses codes now code {o} d e z w n live =
    verify_locked now destination code purpose (guess_all destination purpose guesses codes)
      (locked_out destination purpose guesses codes o d e w (omega arith)) (omega arith) live

-- `verify` returns only for the latest pending code, before it expires and below the limit of
-- attempts; then that code is spent: whatever code is looked at next is another one.
pub verify_ok :
    (now destination code : ℕ) (purpose : Purpose) (codes : List OtpCode)
    → Distinct codes
    → result (verify now destination code purpose) codes ≡ ok tt
    → (o : OtpCode) × (latest destination purpose codes ≡ some o)
      × (o.code ≡ code)
      × (now ≤ o.expires_at)
      × (o.attempt_count < max_attempts)
      × ((next : OtpCode)
          → latest destination purpose (after (verify now destination code purpose) codes)
            ≡ some next
          → next.id ≢ o.id)
unfolding verify check_latest
verify_ok now destination code purpose codes d h =
    elim (Option-cases (latest destination purpose codes)) [
      | inl nothing ↦ absurd (ground arith)
      | inr (o, e) ↦
          let o' : OtpCode = record o { is_used = true } in
          (
            o,
            e,
            ground arith,
            ground arith,
            ground arith,
            λ next f same. ground (
              arith,
              find_last-holds (is_pending destination purpose) (save o' codes) {x = next},
              find_last-lookup (is_pending destination purpose) (save o' codes) {v = next}
                  (save-Distinct o' codes d),
              lookup-save_self o' codes,
            ),
          )
    ]
