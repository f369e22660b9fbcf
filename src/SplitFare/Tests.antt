-- ===== src/SplitFare/Tests.antt =====
-- Runs of the split-fare methods, and examples of the theorems about them.
use ryda.Base.{
  ◌≡◌, ◌≤◌, refl, true, false, pos, ◌+ℤ◌, ◌-ℤ◌, none, some, [], ◌∷◌, arith, after, result, ok, err,
  length, already_split, amounts_exceed_total,
}
use ryda.Users.{User, user_keyed}
use ryda.Wallets.{get_by_user_id, credit, debit, over_maximum}
use ryda.Wallets.Entities.{wallet_keyed, Bank}
use ryda.Wallets.Conservation.{funds}
use ryda.SplitFare.{shares, sum, check_split, check_share, settle_share, mark_paid, pay_share}
use ryda.SplitFare.Entities.{pending, SplitRequest, Participant, Splits}
use ryda.SplitFare.Shares.{shares-fit}
use ryda.SplitFare.Payments.{pay_share-funds}

abbrev ann : User
ann = record {
  id = 10;
  phone = some 710;
  email = some 1;
  is_phone_verified = true;
  referral_code = 1;
  referred_by_code = none;
  rating = 500;
  rating_count = 0;
}

abbrev ben : User
ben = record ann { id = 20; phone = some 720; email = some 2; referral_code = 2 }

abbrev bank : Bank
bank = record {
  wallets =
      record { id = 1; user_id = 10; balance = pos 0; is_frozen = false }
      ∷ record { id = 2; user_id = 20; balance = pos 900; is_frozen = false }
      ∷ [];
  transactions = [];
  events = [];
  now = 0;
}

abbrev request : SplitRequest
request = record {
  id = 1;
  ride_id = 3;
  initiator_id = 10;
  total_amount = 1000;
  status = pending;
  expires_at = some 9;
}

abbrev share : Participant
share = record { id = 1; split_request_id = 1; user_id = 20; amount_owed = 500; paid = false }

abbrev split : Splits
split = record {
  users = ann ∷ ben ∷ [];
  bank = bank;
  rides = record { id = 3; passenger_id = 10; total_fare = 1000 } ∷ [];
  requests = request ∷ [];
  participants = share ∷ [];
  events = [];
}

abbrev unsplit : Splits
unsplit = record split { requests = []; participants = [] }

split_twice : result (check_split 3 10 (720 ∷ []) none) split ≡ err already_split
unfolding check_split
split_twice = refl

too_much :
    result (check_split 3 10 (720 ∷ []) (some (1001 ∷ []))) unsplit ≡ err amounts_exceed_total
unfolding check_split shares
too_much = refl

paid_share : result (pay_share (λ _. none) 3 20) split ≡ ok (record share { paid = true })
unfolding pay_share check_share settle_share mark_paid get_by_user_id credit debit over_maximum ◌+ℤ◌
    ◌-ℤ◌
paid_share = refl

shares-fit_example :
    (sum (shares 1000 (720 ∷ 730 ∷ []) none) ≤ 1000)
    × (length (shares 1000 (720 ∷ 730 ∷ []) none) ≡ 2)
shares-fit_example = shares-fit 1000 (720 ∷ 730 ∷ []) (omega arith)

pay_share-funds_example : funds (after (pay_share (λ _. none) 3 20) split).bank ≡ funds bank
pay_share-funds_example = pay_share-funds (λ _. none) 3 20 split (refl, (refl, tt))
