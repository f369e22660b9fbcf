-- ===== src/Wallets/Transfers.antt =====
-- What a transfer does to the balance of each wallet.
use ryda.Base.{
  ℕ, ◌==◌, ◌≡◌, ◌≢◌, ℤ, pos, ◌+ℤ◌, ◌-ℤ◌, ◌≤ℤ◌, leb_ℤ, Option, some, arith, if◌then◌else◌, lookup,
  save, lookup-save, after, false, Result, ok, err, transaction, ◌>>=◌, ◌>>◌, pure, +ℤ_parts,
  -ℤ_parts,
}
use ryda.Wallets.{transfer, move_funds, lock_pair, transfer_locked, emit}
use ryda.Wallets.Entities.{
  Wallet, wallet_keyed, debit_direction, credit_direction, transfer_sent, transfer_received, Bank,
}
use ryda.Wallets.Conservation.{Locked, lock_pair-Locked}
use ryda.Wallets.Records.{balance_at}
use ryda.Wallets.Balances.{IsSolvent, save-IsSolvent}

-- What a transfer between `v` and `w` leaves.
abbrev pub Transferred : Wallet → Wallet → ℤ → ℤ → Bank → Result (Wallet × Wallet) × Bank → Type 0
Transferred v w amount fee b (answer, b') =
    (answer
      ≡ ok (
        record v { balance = v.balance -ℤ (amount +ℤ fee) },
        record w { balance = w.balance +ℤ amount },
      ))
    × ((j : ℕ)
        → balance_at j b'.wallets ≡ (
            if j == v.id
            then v.balance -ℤ (amount +ℤ fee)
            else if j == w.id
            then w.balance +ℤ amount
            else balance_at j b.wallets))

move_funds_lem :
    (v w : Wallet) (amount fee : ℤ) (r : Option ℕ) (b : Bank)
    → v.id ≢ w.id
    → v.is_frozen ≡ false
    → w.is_frozen ≡ false
    → amount +ℤ fee ≤ℤ v.balance
    → Transferred v w amount fee b (move_funds v w amount fee r b)
unfolding move_funds
move_funds_lem v w amount fee r b ne fv fw enough =
    let v' : Wallet = record v { balance = v.balance -ℤ (amount +ℤ fee) } in
    let w' : Wallet = record w { balance = w.balance +ℤ amount } in
    (
      ground arith,
      λ j. ground (arith, lookup-save j w' (save v' b.wallets), lookup-save j v' b.wallets),
    )

move_locked_lem :
    (v w : Wallet) (s t : ℕ) (amount fee : ℤ) (r : Option ℕ) (b : Bank)
    (locked : Result (Wallet × Wallet) × Bank)
    → Locked s t b locked
    → s ≢ t
    → lookup s b.wallets ≡ some v
    → lookup t b.wallets ≡ some w
    → v.is_frozen ≡ false
    → w.is_frozen ≡ false
    → amount +ℤ fee ≤ℤ v.balance
    → Transferred v w amount fee b (((λ _. locked) >>= λ p. move_funds p.0 p.1 amount fee r) b)
move_locked_lem v w s t amount fee r b (ok (v', w'), b') l ne ev ew fv fw enough =
    let same_v : v' ≡ v = ground arith in
    let same_w : w' ≡ w = ground arith in
    rw (same_v, same_w, l.0) (move_funds_lem v w amount fee r b (ground arith) fv fw enough)
move_locked_lem v w s t amount fee r b (err e, b') l ne ev ew fv fw enough = absurd (ground arith)

finish_transfer :
    (v w : Wallet) (amount fee : ℤ) (b : Bank) (moved : Result (Wallet × Wallet) × Bank)
    → Transferred v w amount fee b moved
    → Transferred v w amount fee b (
        (transaction (λ _. moved) >>= λ p.
        emit p.0 debit_direction (amount +ℤ fee) transfer_sent
        >> emit p.1 credit_direction amount transfer_received
        >> pure p)
          b)
finish_transfer v w amount fee b (ok p, b') h = h
finish_transfer v w amount fee b (err e, b') h = absurd (ground (arith, h.0))

-- Between two wallets that exist and are not frozen, a positive amount moves, and its fee is taken,
-- if the sender holds both; no other balance changes.
transfer_lem :
    (s t : ℕ) (amount fee : ℤ) (r : Option ℕ) (b : Bank) {v w : Wallet}
    → s ≢ t
    → pos 1 ≤ℤ amount
    → lookup s b.wallets ≡ some v
    → lookup t b.wallets ≡ some w
    → v.is_frozen ≡ false
    → w.is_frozen ≡ false
    → amount +ℤ fee ≤ℤ v.balance
    → Transferred v w amount fee b (transfer s t amount fee r b)
unfolding transfer transfer_locked
transfer_lem s t amount fee r b {v} {w} ne p ev ew fv fw enough =
    let guard : leb_ℤ amount (pos 0) ≡ false = ground arith in
    let distinct : (s == t) ≡ false = ground arith in
    rw (guard, distinct)
      (finish_transfer v w amount fee b (transfer_locked s t amount fee r b) (
        move_locked_lem v w s t amount fee r b (lock_pair s t b) (lock_pair-Locked s t b ne) ne ev
          ew fv fw enough))

move_funds-IsSolvent :
    (v w : Wallet) (amount fee : ℤ) (r : Option ℕ) (b : Bank)
    → v.id ≢ w.id
    → lookup w.id b.wallets ≡ some w
    → pos 1 ≤ℤ amount
    → IsSolvent b.wallets
    → IsSolvent (after (transaction (move_funds v w amount fee r)) b).wallets
unfolding move_funds
move_funds-IsSolvent v w amount fee r b ne ew p h =
    let v' : Wallet = record v { balance = v.balance -ℤ (amount +ℤ fee) } in
    ground (
      arith,
      -ℤ_parts v.balance (amount +ℤ fee),
      +ℤ_parts w.balance amount,
      h.nonneg w.id,
      λ (q : pos 0 ≤ℤ v.balance -ℤ (amount +ℤ fee)) (q' : pos 0 ≤ℤ w.balance +ℤ amount).
          save-IsSolvent w (w.balance +ℤ amount) (save v' b.wallets)
            (save-IsSolvent v (v.balance -ℤ (amount +ℤ fee)) b.wallets h q) q',
    )

move-Locked-IsSolvent :
    (s t : ℕ) (amount fee : ℤ) (r : Option ℕ) (b : Bank) (locked : Result (Wallet × Wallet) × Bank)
    → s ≢ t
    → pos 1 ≤ℤ amount
    → IsSolvent b.wallets
    → Locked s t b locked
    → IsSolvent
        (after (transaction ((λ _. locked) >>= λ p. move_funds p.0 p.1 amount fee r)) b).wallets
move-Locked-IsSolvent s t amount fee r b (ok (v, w), b') ne p h l =
    ground (arith, move_funds-IsSolvent v w amount fee r b)
move-Locked-IsSolvent s t amount fee r b (err e, b') ne p h l = h

transfer_locked-IsSolvent :
    (s t : ℕ) (amount fee : ℤ) (r : Option ℕ) (b : Bank)
    → s ≢ t
    → pos 1 ≤ℤ amount
    → IsSolvent b.wallets
    → IsSolvent (after (transaction (transfer_locked s t amount fee r)) b).wallets
unfolding transfer_locked
transfer_locked-IsSolvent s t amount fee r b ne p h =
    move-Locked-IsSolvent s t amount fee r b (lock_pair s t b) ne p h (lock_pair-Locked s t b ne)

-- A transfer leaves no balance below zero, whatever its fee.
pub transfer-IsSolvent :
    (s t : ℕ) (amount fee : ℤ) (r : Option ℕ) (b : Bank)
    → IsSolvent b.wallets
    → IsSolvent (after (transfer s t amount fee r) b).wallets
unfolding transfer
transfer-IsSolvent s t amount fee r b h = ground (
  arith,
  λ (ne : s ≢ t) (p : pos 1 ≤ℤ amount). transfer_locked-IsSolvent s t amount fee r b ne p h,
)
