-- ===== src/Transfers/Tests.antt =====
-- Runs of the transfer methods, and examples of the theorems about them.
use ryda.Base.{◌+◌, ◌≡◌, refl, true, false, pos, ◌+ℤ◌, ◌-ℤ◌, none, some, [], ◌∷◌, after, result, ok}
use ryda.Users.{User, user_keyed, find_by_phone}
use ryda.Wallets.{get_by_user_id, transfer, transfer_locked, lock_pair, move_funds}
use ryda.Wallets.Entities.{Wallet, Bank}
use ryda.Otp.{OtpCode, wallet_transfer, send, verify, check_latest}
use ryda.Fraud.{Fresh}
use ryda.Transfers.{
  Context, Order, request_ttl, find_recipient, check_sender, check_limits, initiate,
  check_confirmable, check_code, move, confirm, sum_todays_sent_transfers,
}
use ryda.Transfers.Entities.{pending, TransferRequest, request_keyed, Transfers}
use ryda.Transfers.Confirm.{confirm_once}

abbrev ann : User
ann = record {
  id = 10;
  phone = some 710;
  email = some 1;
  is_phone_verified = true;
  referral_code = 1;
  referred_by_code = none;
  rating = 500;
  rating_count = 0;
}

abbrev ben : User
ben = record ann { id = 20; phone = some 720; email = some 2; referral_code = 2 }

abbrev own : Wallet
own = record { id = 1; user_id = 10; balance = pos 90000; is_frozen = false }

abbrev bank : Bank
bank = record {
  wallets = own ∷ record { id = 2; user_id = 20; balance = pos 0; is_frozen = false } ∷ [];
  transactions = [];
  events = [];
  now = 50;
}

abbrev request : TransferRequest
request = record {
  id = 3;
  sender_id = 10;
  recipient_id = 20;
  amount = pos 40000;
  fee = pos 0;
  status = pending;
  expires_at = 50 + request_ttl;
}

abbrev code : OtpCode
code = record {
  id = 3;
  destination = 710;
  purpose = wallet_transfer;
  code = 1234;
  is_used = false;
  attempt_count = 0;
  expires_at = 350;
}

abbrev idle : Transfers
idle = record { bank = bank; codes = []; users = ann ∷ ben ∷ []; requests = []; flags = [] }

abbrev asked : Transfers
asked = record idle { codes = code ∷ []; requests = request ∷ [] }

abbrev context : Context
context = record {
  fresh = record { now = 50; id = 3 };
  start_of_day = 0;
  settings = λ _. none;
  otp = record { ttl_seconds = 300; force_dev_only_code = false };
  code = 1234;
  sms = some true;
}

abbrev order : Order
order = record { recipient_email = none; recipient_phone = 720; amount = pos 40000 }

abbrev later : Fresh
later = record { now = 60; id = 9 }

moved : result (confirm later 10 3 1234) asked ≡ ok (record own { balance = pos 50000 })
unfolding confirm check_confirmable check_code verify check_latest move get_by_user_id transfer
    transfer_locked lock_pair move_funds ◌+ℤ◌ ◌-ℤ◌
moved = refl

started : result (initiate context 10 order) idle ≡ ok request
unfolding initiate check_sender check_limits find_recipient find_by_phone sum_todays_sent_transfers
    get_by_user_id send ◌+ℤ◌
started = refl

abbrev stale : TransferRequest
stale = record request { id = 2; expires_at = 40 }

abbrev two : Transfers
two = record idle { requests = stale ∷ request ∷ [] }

confirm_once_example :
    after (confirm later 10 3 1234) (after (confirm later 10 3 1234) asked)
    ≡ after (confirm later 10 3 1234) asked
confirm_once_example =
    confirm_once later later 10 10 3 1234 1234 asked {w = record own { balance = pos 50000 }} moved
