-- ===== src/Withdrawals/Tests.antt =====
-- Runs of the payout methods, and examples of the theorems about them.
use ryda.Base.{
  ◌+◌, ◌≡◌, refl, true, false, pos, ◌+ℤ◌, ◌-ℤ◌, none, some, [], ◌∷◌, after, result, err,
  withdrawal_refunded,
}
use ryda.Users.{User, user_keyed}
use ryda.Wallets.{get_by_user_id, credit, debit, over_maximum}
use ryda.Wallets.Entities.{Bank}
use ryda.Otp.{OtpCode, wallet_withdrawal, verify, check_latest}
use ryda.Withdrawals.{
  Context, request_ttl, check_code, check_confirmable, pay_out, charge, start_transfer,
  confirm_withdrawal,
}
use ryda.Withdrawals.Entities.{account_keyed, pending, processing, Withdrawal, Payouts}
use ryda.Withdrawals.Funds.{assets, confirm_withdrawal-assets}

abbrev ann : User
ann = record {
  id = 10;
  phone = some 710;
  email = some 1;
  is_phone_verified = true;
  referral_code = 1;
  referred_by_code = none;
  rating = 500;
  rating_count = 0;
}

abbrev bank : Bank
bank = record {
  wallets = record { id = 1; user_id = 10; balance = pos 900; is_frozen = false } ∷ [];
  transactions = [];
  events = [];
  now = 50;
}

abbrev request : Withdrawal
request = record {
  id = 3;
  user_id = 10;
  bank_account_id = 8;
  amount = pos 400;
  status = pending;
  reference = 3;
  transfer_code = none;
  expires_at = some (50 + request_ttl);
}

abbrev code : OtpCode
code = record {
  id = 3;
  destination = 710;
  purpose = wallet_withdrawal;
  code = 1234;
  is_used = false;
  attempt_count = 0;
  expires_at = 350;
}

abbrev idle : Payouts
idle = record {
  bank = bank;
  codes = [];
  users = ann ∷ [];
  accounts = record { id = 8; user_id = 10; recipient_code = 5; is_default = true } ∷ [];
  requests = [];
  flags = [];
  events = [];
}

abbrev asked : Payouts
asked = record idle { codes = code ∷ []; requests = request ∷ [] }

abbrev running : Payouts
running = record idle { requests = record request { status = processing } ∷ [] }

abbrev context : Context
context = record {
  fresh = record { now = 50; id = 3 };
  points = λ _. none;
  min_amount = pos 100;
  configured = true;
  otp = record { ttl_seconds = 300; force_dev_only_code = false };
  code = 1234;
  sms = some true;
}

refunded : result (confirm_withdrawal (λ _. none) 60 none 10 3 1234) asked ≡ err withdrawal_refunded
unfolding confirm_withdrawal check_confirmable check_code verify check_latest pay_out charge
    start_transfer get_by_user_id credit debit over_maximum ◌+ℤ◌ ◌-ℤ◌
refunded = refl

confirm_withdrawal-assets_example :
    assets (after (confirm_withdrawal (λ _. none) 60 (some 77) 10 3 1234) asked) ≡ assets asked
confirm_withdrawal-assets_example =
    confirm_withdrawal-assets (λ _. none) 60 (some 77) 10 3 1234 asked
