-- ===== src/Promotions/Referrals.antt =====
-- The bonus of a referral is granted once.
use ryda.Base.{
  ℕ, ◌==◌, ◌≡◌, ℤ, true, is_some, Option, none, List, arith, after, lookup, find_first,
  find_first-append, Option-cases, inl, inr,
}
use ryda.Settings.{Settings, get_number, referee_bonus, referrer_bonus}
use ryda.Users.{user_keyed, find_by_referral_code}
use ryda.Wallets.{get_by_user_id}
use ryda.Promotions.{pay_bonus, note_grant, grant_to, grant_referral_bonus}
use ryda.Promotions.Entities.{ReferralGrant, Promotions}

-- The grant of a user.
abbrev pub grant_of : ℕ → List ReferralGrant → Option ReferralGrant
grant_of referee_id = find_first (λ g. g.referee_user_id == referee_id)

pay_bonus_frame :
    (s : Settings ℤ) (user_id bonus : ℕ) (p : Promotions)
    → let p' = after (pay_bonus s user_id bonus) p in (p'.users ≡ p.users) × (p'.grants ≡ p.grants)
unfolding pay_bonus get_by_user_id
pay_bonus_frame s user_id bonus p = ground arith

grant_to_frame :
    (s : Settings ℤ) (t : Settings ℕ) (flag_id referee_id referrer_id : ℕ) (p : Promotions)
    → grant_of referee_id p.grants ≡ none
    → let p' = after (grant_to s t flag_id referee_id referrer_id) p in
      (p'.users ≡ p.users) × (is_some (grant_of referee_id p'.grants) ≡ true)
unfolding grant_to note_grant
grant_to_frame s t flag_id referee_id referrer_id p e =
    let noted = note_grant t flag_id referee_id referrer_id p in
    let first : ℕ = get_number t referee_bonus 50000 in
    let second : ℕ = get_number t referrer_bonus 50000 in
    let grant : ReferralGrant = record {
      referrer_user_id = referrer_id;
      referee_user_id = referee_id;
      referrer_bonus = second;
      referee_bonus = first;
    } in
    grind (
      arith,
      find_first-append (λ (g : ReferralGrant). g.referee_user_id == referee_id) p.grants grant e
          (ground arith),
      pay_bonus_frame s referee_id first noted,
      pay_bonus_frame s referrer_id second (after (pay_bonus s referee_id first) noted),
    )

granted_idle :
    (s : Settings ℤ) (t : Settings ℕ) (flag_id referee_id : ℕ) (p : Promotions)
    → is_some (grant_of referee_id p.grants) ≡ true
    → after (grant_referral_bonus s t flag_id referee_id) p ≡ p
unfolding grant_referral_bonus
granted_idle s t flag_id referee_id p e = ground arith

-- A referral is paid once: after a call for a user, however it ended, a second one for the same user
-- changes nothing.
pub grant_referral_bonus_once :
    (s s' : Settings ℤ) (t t' : Settings ℕ) (flag_id flag_id' referee_id : ℕ) (p : Promotions)
    → let p' = after (grant_referral_bonus s t flag_id referee_id) p in
      after (grant_referral_bonus s' t' flag_id' referee_id) p' ≡ p'
unfolding grant_referral_bonus
grant_referral_bonus_once s s' t t' flag_id flag_id' referee_id p =
    elim (Option-cases (grant_of referee_id p.grants)) [
      | inr (g, e) ↦ grind (arith, granted_idle s' t' flag_id' referee_id p)
      | inl new ↦ elim (Option-cases (lookup referee_id p.users)) [
        | inl missing ↦ ground arith
        | inr (u, eu) ↦ elim (Option-cases u.referred_by_code) [
          | inl own ↦ ground arith
          | inr (code, ec) ↦ elim (Option-cases (find_by_referral_code code p.users)) [
            | inl nobody ↦ ground arith
            | inr (referrer, er) ↦
                let p' = after (grant_to s t flag_id referee_id referrer.id) p in
                ground (
                  arith,
                  grant_to_frame s t flag_id referee_id referrer.id p new,
                  granted_idle s' t' flag_id' referee_id p',
                )
          ]
        ]
      ]
    ]
