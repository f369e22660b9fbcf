-- ===== src/Audit/Scan.antt =====
-- What the scan finds, and what it does not report twice.
use ryda.Base.{
  some_of, ◌==◌, Bool-cases, inl, eq_of_parts, sym, ℕ, ◌≡◌, ◌≤◌, refl, Bool, true, false, ℤ, pos,
  ◌+ℤ◌, Option, none, some, is_some, List, [], ◌∷◌, ◌++◌, arith, lookup, find_first, keep, length,
  ◌≢◌, ◌⊎◌, ap, inr, Distinct, keep-append, length-append,
}
use mathlib.Core.List.{Memᴰ}
use native.Mathlib.Decide.{ℕ_discrete}
use ryda.Wallets.Entities.{Wallet, wallet_keyed, WalletTransaction, Bank}
use ryda.Wallets.Records.{Chained, replay, signed}
use ryda.Wallets.History.{Reach, Reach-IsSound}
use ryda.Audit.{
  Audit, AccountType, Discrepancy, wallet, scan, scan_one, discrepancy_of, report, quick_scan,
  latest_balance, is_mismatch, differs, is_open_for, accounts_of, rows_of, opened,
}

find_first-append :
    (p : Discrepancy → Bool) (xs ys : List Discrepancy)
    → is_some (find_first p xs) ≡ true
    → is_some (find_first p (xs ++ ys)) ≡ true
find_first-append p [] ys h = cc
find_first-append p (x ∷ xs) ys h = ground (arith, find_first-append p xs ys)

find_first-last :
    (p : Discrepancy → Bool) (xs : List Discrepancy) (x : Discrepancy)
    → p x ≡ true
    → is_some (find_first p (xs ++ x ∷ [])) ≡ true
find_first-last p [] x h = ground arith
find_first-last p (y ∷ xs) x h = ground (arith, find_first-last p xs x h)

-- Is there an open discrepancy for this account?
abbrev has_open : AccountType → ℕ → Audit → Bool
has_open type id a = is_some (find_first (is_open_for type id) a.discrepancies)

is_open_for_refl :
    (type : AccountType) (id : ℕ) (d : Discrepancy)
    → d.account_type ≡ type
    → d.wallet_id ≡ id
    → d.status ≡ opened
    → is_open_for type id d ≡ true
is_open_for_refl type id d e f g = ground arith

scan_one_keeps :
    (type type' : AccountType) (id j : ℕ) (balance : ℤ) (latest : Option ℤ) (a : Audit)
    → has_open type' j a ≡ true
    → has_open type' j (scan_one type id balance latest a).1 ≡ true
unfolding report scan_one
scan_one_keeps type type' id j balance latest a h = ground (
  arith,
  find_first-append (is_open_for type' j) a.discrepancies
      (discrepancy_of type id balance latest a.next_id ∷ []) h,
)

scan_one_opens :
    (type : AccountType) (id : ℕ) (balance : ℤ) (latest : Option ℤ) (a : Audit)
    → is_mismatch balance latest ≡ true
    → has_open type id (scan_one type id balance latest a).1 ≡ true
unfolding report scan_one
scan_one_opens type id balance latest a h =
    let found = discrepancy_of type id balance latest a.next_id in
    ground (
      arith,
      find_first-last (is_open_for type id) a.discrepancies found
          (is_open_for_refl type id found refl refl refl),
    )

scan_keeps :
    (type type' : AccountType) (j : ℕ) (accounts ledger : List (ℕ × ℤ)) (a : Audit)
    → has_open type' j a ≡ true
    → has_open type' j (scan type accounts ledger a).1 ≡ true
unfolding scan
scan_keeps type type' j [] ledger a h = h
scan_keeps type type' j ((id, balance) ∷ accounts) ledger a h =
    scan_keeps type type' j accounts ledger
      (scan_one type id balance (latest_balance id ledger) a).1
      (scan_one_keeps type type' id j balance (latest_balance id ledger) a h)

scan_opens :
    (type : AccountType) (id : ℕ) (balance : ℤ) (accounts ledger : List (ℕ × ℤ)) (a : Audit)
    → Memᴰ (id, balance) accounts
    → is_mismatch balance (latest_balance id ledger) ≡ true
    → has_open type id (scan type accounts ledger a).1 ≡ true
unfolding scan
scan_opens type id balance [] ledger a m h = elim m [ ]
scan_opens type id balance ((j, c) ∷ accounts) ledger a (Memᴰ.head e) h =
    let same : id ≡ j = ap (λ x. x.0) e in
    let equal : balance ≡ c = ap (λ x. x.1) e in
    rw same (
      scan_keeps type type j accounts ledger (scan_one type j c (latest_balance j ledger) a).1
        (scan_one_opens type j c (latest_balance j ledger) a (rw (same, equal) at h)))
scan_opens type id balance ((j, c) ∷ accounts) ledger a (Memᴰ.tail m) h =
    scan_opens type id balance accounts ledger (scan_one type j c (latest_balance j ledger) a).1 m h

-- What the ledger says that the balance of an account is: what its last row states, or nothing.
pub data States : ℕ → List (ℕ × ℤ) → ℤ → Type 0 where
  no_row :
      {id : ℕ} {ledger : List (ℕ × ℤ)}
      → some_of (λ r. r.0 == id) ledger ≡ false
      → States id ledger (pos 0)
  last_row :
      {id : ℕ} (before rest : List (ℕ × ℤ)) {balance : ℤ}
      → some_of (λ r. r.0 == id) rest ≡ false
      → States id (before ++ (id, balance) ∷ rest) balance

latest-none :
    (id : ℕ) (ledger : List (ℕ × ℤ))
    → some_of (λ r. r.0 == id) ledger ≡ false
    → latest_balance id ledger ≡ none
unfolding latest_balance
latest-none id [] h = refl
latest-none id ((j, b) ∷ ledger) h = ground (arith, latest-none id ledger)

latest-last :
    (id : ℕ) (before rest : List (ℕ × ℤ)) (balance : ℤ)
    → some_of (λ r. r.0 == id) rest ≡ false
    → latest_balance id (before ++ (id, balance) ∷ rest) ≡ some balance
unfolding latest_balance
latest-last id [] rest balance h = ground (arith, latest-none id rest)
latest-last id ((j, b) ∷ before) rest balance h =
    ground (arith, latest-last id before rest balance h)

differs_ne : (a b : ℤ) → a ≢ b → differs a b ≡ true
differs_ne a b ne = elim (Bool-cases (differs a b)) [
  | inl h ↦ h
  | inr same ↦ absurd (ne (eq_of_parts a b (ground (arith, same))))
]

mismatch_ne :
    (id : ℕ) (balance stated : ℤ) {ledger : List (ℕ × ℤ)}
    → States id ledger stated
    → balance ≢ stated
    → is_mismatch balance (latest_balance id ledger) ≡ true
unfolding is_mismatch
mismatch_ne id balance stated (no_row {ledger} h) ne =
    rw (latest-none id ledger h) (differs_ne balance (pos 0) ne)
mismatch_ne id balance stated (last_row before rest h) ne =
    rw (latest-last id before rest stated h) (differs_ne stated balance (λ e. ne (sym e)))

found_open :
    (type : AccountType) (id : ℕ) (ds : List Discrepancy)
    → is_some (find_first (is_open_for type id) ds) ≡ true
    → (d : Discrepancy) × Memᴰ d ds
      × (d.account_type ≡ type)
      × (d.wallet_id ≡ id)
      × (d.status ≡ opened)
found_open type id [] h = cc
found_open type id (d ∷ ds) h = elim (Bool-cases (is_open_for type id d)) [
  | inl here ↦ (d, Memᴰ.head refl, ground arith, ground arith, ground arith)
  | inr other ↦
      let (x, m, t, w, s) = found_open type id ds (ground (arith, other)) in
      (x, Memᴰ.tail m, t, w, s)
]

-- Every account whose balance is not the one that its ledger states, which is that of its last row or
-- nothing where it has no row, has an open discrepancy of its own after the scan.
pub scan_complete :
    (type : AccountType) (id : ℕ) (balance stated : ℤ) (accounts ledger : List (ℕ × ℤ)) (a : Audit)
    → Memᴰ (id, balance) accounts
    → States id ledger stated
    → balance ≢ stated
    → let a' = (scan type accounts ledger a).1 in
      (d : Discrepancy) × Memᴰ d a'.discrepancies
      × (d.account_type ≡ type)
      × (d.wallet_id ≡ id)
      × (d.status ≡ opened)
scan_complete type id balance stated accounts ledger a m s ne =
    found_open type id (scan type accounts ledger a).1.discrepancies
      (scan_opens type id balance accounts ledger a m (mismatch_ne id balance stated s ne))

-- How many discrepancies are open for an account.
abbrev pub open_count : AccountType → ℕ → Audit → ℕ
open_count type id a = length (keep (is_open_for type id) a.discrepancies)

keep_none :
    (p : Discrepancy → Bool) (xs : List Discrepancy)
    → is_some (find_first p xs) ≡ false
    → keep p xs ≡ []
keep_none p [] h = refl
keep_none p (x ∷ xs) h = ground (arith, keep_none p xs)

scan_one-open_self :
    (type : AccountType) (id : ℕ) (balance : ℤ) (latest : Option ℤ) (a : Audit)
    → open_count type id a ≤ 1
    → open_count type id (scan_one type id balance latest a).1 ≤ 1
unfolding report scan_one
scan_one-open_self type id balance latest a h = ground (
  arith,
  keep_none (is_open_for type id) a.discrepancies,
  keep-append (is_open_for type id) a.discrepancies
      (discrepancy_of type id balance latest a.next_id ∷ []),
)

scan_one-open_ne :
    (type : AccountType) (id j : ℕ) (balance : ℤ) (latest : Option ℤ) (a : Audit)
    → id ≢ j
    → open_count type j (scan_one type id balance latest a).1 ≡ open_count type j a
unfolding report scan_one
scan_one-open_ne type id j balance latest a ne =
    let found = discrepancy_of type id balance latest a.next_id ∷ [] in
    ground (
      arith,
      keep-append (is_open_for type j) a.discrepancies found,
      length-append (keep (is_open_for type j) a.discrepancies) (keep (is_open_for type j) found),
    )

scan_one-open_count :
    (type : AccountType) (id j : ℕ) (balance : ℤ) (latest : Option ℤ) (a : Audit)
    → open_count type j a ≤ 1
    → open_count type j (scan_one type id balance latest a).1 ≤ 1
scan_one-open_count type id j balance latest a h = elim (ℕ_discrete id j) [
  | yes same ↦ rw same (scan_one-open_self type j balance latest a h)
  | no ne ↦ rw (scan_one-open_ne type id j balance latest a ne) h
]

-- The scan never leaves two open discrepancies for one account, if there were not two before.
pub scan-open_count :
    (type : AccountType) (j : ℕ) (accounts ledger : List (ℕ × ℤ)) (a : Audit)
    → open_count type j a ≤ 1
    → open_count type j (scan type accounts ledger a).1 ≤ 1
unfolding scan
scan-open_count type j [] ledger a h = h
scan-open_count type j ((id, balance) ∷ accounts) ledger a h =
    scan-open_count type j accounts ledger (scan_one type id balance (latest_balance id ledger) a).1
      (scan_one-open_count type id j balance (latest_balance id ledger) a h)

latest-Chained :
    (id : ℕ) (acc : ℤ) (ts : List WalletTransaction)
    → Chained id acc ts
    → (latest_balance id (rows_of ts) ≡ some (replay id acc ts))
      ⊎ ((latest_balance id (rows_of ts) ≡ none) × (replay id acc ts ≡ acc))
unfolding latest_balance
latest-Chained id acc [] h = inr (refl, refl)
latest-Chained id acc (t ∷ ts) h =
    ground (arith, latest-Chained id acc ts, latest-Chained id (acc +ℤ signed t) ts)

matches :
    (id : ℕ) (balance : ℤ) (ts : List WalletTransaction)
    → Chained id (pos 0) ts
    → balance ≡ replay id (pos 0) ts
    → is_mismatch balance (latest_balance id (rows_of ts)) ≡ false
unfolding is_mismatch
matches id balance ts h e = ground (arith, latest-Chained id (pos 0) ts h)

scan_silent :
    (ws : List Wallet) (ts : List WalletTransaction) (a : Audit)
    → ((w : Wallet) → Memᴰ w ws → is_mismatch w.balance (latest_balance w.id (rows_of ts)) ≡ false)
    → scan wallet (accounts_of ws) (rows_of ts) a ≡ ([], a)
unfolding scan scan_one
scan_silent [] ts a h = refl
scan_silent (w ∷ ws) ts a h =
    rw (h w (Memᴰ.head refl)) (rw (scan_silent ws ts a (λ v m. h v (Memᴰ.tail m))))

Mem-lookup : (w : Wallet) (ws : List Wallet) → Distinct ws → Memᴰ w ws → lookup w.id ws ≡ some w
Mem-lookup w [] d m = elim m [ ]
Mem-lookup w (v ∷ ws) d (Memᴰ.head e) = rw e (ground arith)
Mem-lookup w (v ∷ ws) d (Memᴰ.tail m) = ground (arith, Mem-lookup w ws d.1 m)

-- The scan finds nothing in a bank that the wallet methods reach from empty tables.
pub quick_scan-Reach : {b : Bank} (a : Audit) → Reach b → quick_scan b a ≡ ([], a)
unfolding quick_scan
quick_scan-Reach {b} a r =
    let h = (Reach-IsSound r).recorded in
    scan_silent b.wallets b.transactions a (λ w m.
      matches w.id w.balance b.transactions (h.chained w.id)
        (ground (arith, h.replayed w.id, Mem-lookup w b.wallets h.distinct m)))
