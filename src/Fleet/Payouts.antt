-- ===== src/Fleet/Payouts.antt =====
-- Payouts conserve money: what has left a fleet's wallet stands in its payouts that did not fail.
use ryda.Base.{
  ℕ, ◌==◌, ◌≡◌, refl, true, false, is_some, ℤ, pos, ◌+ℤ◌, ◌-ℤ◌, Option, none, some, List, arith,
  int_laws, lookup, lookup-key_of, lookup-save_self, save, total, total-save, total-save_new,
  find_first, ◌>>◌, after, Result, ok, err, Option-cases, inl, inr,
}
use ryda.Wallets.Entities.{Direction, credit_direction, debit_direction}
use ryda.Fleet.{
  apply_ledger_change, change_locked, get_wallet, assert_is_owner, assert_is_staff, Provider,
  send_payout, reached, place_payout, request_payout,
}
use ryda.Fleet.Entities.{
  FleetWallet, fleet_wallet_keyed, Category, Payout, payout_keyed, pending, processing, success,
  failed, Fleets, company_keyed,
}

-- The sum of all balances of fleets.
abbrev pub fleet_funds : Fleets → ℤ
fleet_funds f = total (λ (w : FleetWallet). w.balance) f.wallets

-- What a change of this direction does to the sum.
abbrev pub signed : Direction → ℤ → ℤ
signed credit_direction amount = amount
signed debit_direction amount = pos 0 -ℤ amount

-- A call either returns with the sum changed by `change`, or throws with everything as it was.
abbrev pub Moves : {A : Type 0} → Fleets → ℤ → Result A × Fleets → Type 0
Moves f change (ok _, f') =
    (fleet_funds f' ≡ fleet_funds f +ℤ change)
    × (f'.payouts ≡ f.payouts)
    × (f'.companies ≡ f.companies)
Moves f change (err _, f') = f' ≡ f

apply_ledger_change-Moves :
    (id : ℕ) (amount : ℤ) (d : Direction) (c : Category) (r : Option ℕ) (f : Fleets)
    → Moves f (signed d amount) (apply_ledger_change id amount d c r f)
unfolding apply_ledger_change change_locked
apply_ledger_change-Moves id amount credit_direction c r f =
    elim (Option-cases (lookup id f.wallets)) [
      | inl missing ↦ ground arith
      | inr (w, e) ↦
          let w' : FleetWallet = record w { balance = w.balance +ℤ amount } in
          grind (
            int_laws,
            total-save (λ (v : FleetWallet). v.balance) w' w f.wallets
                (lookup-key_of id f.wallets e),
          )
    ]
apply_ledger_change-Moves id amount debit_direction c r f =
    elim (Option-cases (lookup id f.wallets)) [
      | inl missing ↦ ground arith
      | inr (w, e) ↦
          let w' : FleetWallet = record w { balance = w.balance -ℤ amount } in
          grind (
            int_laws,
            total-save (λ (v : FleetWallet). v.balance) w' w f.wallets
                (lookup-key_of id f.wallets e),
          )
    ]

-- What a payout holds: its amount, unless it failed.
abbrev pub held : Payout → ℤ
held p = elim p.status [ failed ↦ pos 0 | _ ↦ p.amount ]

-- All balances of fleets and all that their payouts hold.
abbrev pub assets : Fleets → ℤ
assets f = fleet_funds f +ℤ total held f.payouts

save-held :
    (p p' : Payout) (payouts : List Payout)
    → lookup p.id payouts ≡ some p
    → p'.id ≡ p.id
    → total held (save p' payouts) +ℤ held p ≡ total held payouts +ℤ held p'
save-held p p' payouts e k = total-save held p' p payouts (rw k e)

send_payout-assets :
    (provider : Provider) (w : FleetWallet) (p : Payout) (f : Fleets)
    → lookup p.id f.payouts ≡ some p
    → p.status ≡ pending
    → assets (after (send_payout provider w p) f) ≡ assets f
unfolding send_payout
send_payout-assets Provider.unconfigured w p f e s =
    grind (int_laws, save-held p (record p { status = success; simulated = true }) f.payouts e refl)
send_payout-assets (Provider.takes code) w p f e s = grind (
  int_laws,
  save-held p (record p { status = processing; transfer_code = some code }) f.payouts e refl,
)
send_payout-assets Provider.refuses w p f e s = grind (
  int_laws,
  apply_ledger_change-Moves w.id p.amount credit_direction Category.adjustment (some p.id) f,
  save-held p (record p { status = failed }) f.payouts e refl,
)

place_payout-assets :
    (provider : Provider) (w : FleetWallet) (p : Payout) (f : Fleets)
    → lookup p.id f.payouts ≡ none
    → p.status ≡ pending
    → assets (after (place_payout provider w p) f) ≡ assets f +ℤ p.amount
unfolding place_payout
place_payout-assets provider w p f e s =
    let f' : Fleets = record f { payouts = save p f.payouts } in
    let company = lookup p.fleet_company_id f.companies in
    grind (
      int_laws,
      send_payout-assets (reached provider (is_some company)) w p f' (lookup-save_self p f.payouts)
          s,
      total-save_new held p f.payouts e,
    )

finish_payout :
    (provider : Provider) (w : FleetWallet) (p : Payout) (f : Fleets)
    (debited : Result FleetWallet × Fleets)
    → lookup p.id f.payouts ≡ none
    → p.status ≡ pending
    → Moves f (pos 0 -ℤ p.amount) debited
    → assets (after ((λ _. debited) >> place_payout provider w p) f) ≡ assets f
finish_payout provider w p f (ok _, f') e s m =
    grind (int_laws, place_payout-assets provider w p f')
finish_payout provider w p f (err _, f') e s m = rw m

-- Requesting a payout keeps the sum of all balances of fleets and of all their payouts that did not
-- fail, however it ends: refused, sent, or taken back. The payout's id is a new one.
pub request_payout-assets :
    (provider : Provider) (id fleet_company_id actor_user_id : ℕ) (amount : ℤ) (f : Fleets)
    → lookup id f.payouts ≡ none
    → assets (after (request_payout provider id fleet_company_id actor_user_id amount) f) ≡ assets f
unfolding request_payout get_wallet assert_is_owner assert_is_staff
request_payout-assets provider id fleet_company_id actor_user_id amount f fresh =
    let created : Payout = record {
      id = id;
      fleet_company_id = fleet_company_id;
      amount = amount;
      status = pending;
      simulated = false;
      transfer_code = none;
    } in
    elim (Option-cases (find_first (λ w. w.fleet_company_id == fleet_company_id) f.wallets)) [
      | inl missing ↦ ground arith
      | inr (w, e) ↦ ground (
        arith,
        finish_payout provider w created f
            (apply_ledger_change w.id amount debit_direction Category.payout none f) fresh refl
            (apply_ledger_change-Moves w.id amount debit_direction Category.payout none f),
      )
    ]
