-- ===== src/Otp/Tests.antt =====
-- Runs of the code check, and examples of the theorems about it.
use ryda.Base.{ℕ, ◌≡◌, refl, false, [], ◌∷◌, List, arith, err, too_many_attempts}
use ryda.Otp.{OtpCode, otp_keyed, phone_verification, verify}
use ryda.Otp.Attempts.{guess_all, five_guesses}

abbrev sent : OtpCode
sent = record {
  id = 1;
  destination = 9;
  purpose = phone_verification;
  code = 1234;
  is_used = false;
  attempt_count = 0;
  expires_at = 300;
}

abbrev wrong : List (ℕ × ℕ)
wrong = (10, 1) ∷ (20, 2) ∷ (30, 3) ∷ (40, 4) ∷ (50, 5) ∷ []

five_guesses_example :
    verify 60 9 1234 phone_verification (guess_all 9 phone_verification wrong (sent ∷ []))
    ≡ (err too_many_attempts, guess_all 9 phone_verification wrong (sent ∷ []))
five_guesses_example =
    five_guesses 9 phone_verification wrong (sent ∷ []) 60 1234 {o = sent} (refl, tt) refl refl
      (ground arith) refl (omega arith)
