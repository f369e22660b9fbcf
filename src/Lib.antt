-- ===== src/Lib.antt =====
-- A model of the money, ride and driver core of a ride-hailing backend (a NestJS application over one
-- SQL database), and the theorems about it.
--
-- The parts. Wallets are the one place where money moves; withdrawals, wallet transfers and split
-- fares call them, and the ledger audit checks what they wrote. Withdrawals and transfers ask for a
-- one-time code before they move money, and screen or record risk through the fraud flags. Drivers go
-- online, are reserved for one trip at a time, and come back from it. Dispatch offers a ride to
-- drivers; the ride methods take it from its acceptance to its completion or cancellation, and settle
-- its fare through the wallets of users, of fleets and of corporate accounts, the debts of drivers and
-- the promotions. Payments keep the records of what a payment provider charges and refunds, and credit
-- top-ups to the wallets when its webhooks arrive. Deliveries go to the first driver who accepts them,
-- with the same reservation of drivers, and are paid through the wallets, the payments and the debts.
-- Pooling pairs shared rides before they are dispatched.
--
-- The files.
--   Base           shared helpers: lists and integers over native numbers, tables as lists of keyed
--                  rows, service methods as actions that return or throw, and all error messages.
--   Settings       src/settings/settings.service.ts: the keys, getNumber.
--   Users          src/users/users.service.ts: the lookups findById, findByPhone, findByEmail,
--                  findByReferralCode.
--   Wallets        src/wallets/wallets.service.ts: createForUser, getByUserId, credit, debit, transfer
--                  (create_for_user, get_by_user_id, credit, debit, transfer; the callback that runs in
--                  the transaction of transfer is transfer_locked). Wallets/Conservation, Balances,
--                  Transfers, Records and History hold the proofs.
--   Audit          src/reconciliation/ledger-audit.service.ts: scanAccountType (scan), runQuickScan
--                  (quick_scan), checkWalletChain (check_wallet_chain), resolve.
--   Otp            src/otp/otp.service.ts: send, verify.
--   Fraud          src/fraud/fraud.service.ts: raiseFlag, reviewFlag and the checks by count;
--                  src/fraud/risk-engine.service.ts: assess with its weights and bands.
--   Withdrawals    src/wallets/withdrawals.service.ts: initiateWithdrawal, confirmWithdrawal,
--                  handleTransferWebhook, expireStaleRequests.
--   Transfers      src/wallets/wallet-transfers.service.ts: initiate, confirm, expireStaleRequests.
--   Drivers        src/drivers/drivers.service.ts: setApprovalStatus, decideServiceCapability,
--                  setAvailability, reserveOnlineDriverForTrip (reserve_for_trip),
--                  restoreAvailabilityAfterTrip (restore_after_trip); in Drivers/Levels
--                  recordTripOutcome, applyRating, computeLevel.
--   SplitFare      src/split-fare/split-fare.service.ts: create, getByRide, payShare,
--                  expireStaleRequests.
--   Debts          src/reconciliation/reconciliation.service.ts: recordDebt, getOutstandingBalance,
--                  writeOff, attemptSettle (its loop is settle_all, the body of the loop settle_one).
--   Commission     src/commission/commission.service.ts: resolveCommissionPercent, with matches and
--                  specificity; Commission/Specificity holds the proofs.
--   Fare           src/rides/fare.service.ts: calculateTieredTimeFare, isNightFare,
--                  calculateWaitingFee.
--   Trips          src/rides/entities/ride.entity.ts and the enums of rides, which dispatch and the
--                  ride methods share.
--   Fleet          src/fleet/fleet.service.ts: companies, staff, creditForRideEarning,
--                  debitFleetCommission (debit_fleet_commission), requestPayout; the transaction that
--                  both changes run in is change_locked. Fleet/Payouts holds the proofs.
--   Corporate      src/corporate/corporate.service.ts: accounts, employees, checkEmployeeSpendLimit,
--                  topUp, debitForRide, approvals; in Corporate/Policy checkRidePolicy, in
--                  Corporate/Invoices balanceAsOf and generateInvoice. Corporate/Books holds the proofs.
--   Promotions     src/promotions/promotions.service.ts: createPromotion, validate, redeem (its
--                  two writes are write_redemption), settleCashbackForRide, grantReferralBonus.
--                  Promotions/Limits and Promotions/Referrals hold the proofs.
--   Dispatch       src/dispatch/dispatch.service.ts: offerToSpecificDriver, offerToNearestDriver,
--                  markAccepted, markDeclined, withdrawOffer, both sweeps, redispatchForAdmin;
--                  Dispatch/Auto is src/dispatch/auto-dispatch.service.ts, whose attempt at the queue
--                  of an airport is Dispatch/Airport, with dispatchNext of
--                  src/airport/airport.service.ts. Pending, Queue and Exhaustion hold the proofs.
--   Passengers     src/passengers/passengers.service.ts: getOrCreate, setBlacklist,
--                  assertNotBlacklisted, recordTripOutcome.
--   Payments       src/payments/payments.service.ts: initCardAdd, initWalletTopUp, the saved cards,
--                  chargeSavedCard (with chargeWithRetry), initBankTransfer. Payments/Refunds:
--                  refundPayment with reserveRefund and finalizeRefund. Payments/Webhooks:
--                  markSuccessFromWebhook, markFailedFromWebhook, applyChargeSuccessEffects,
--                  verifyAndSyncByReference, and of src/payments/payments.controller.ts what
--                  paystackWebhook does on a charge (charge_success, charge_failed).
--                  Payments/Disputes: handleDisputeWebhook. Payments/Reconciliation:
--                  src/payments/paystack-reconciliation.service.ts. Unique, Reserved, Caps,
--                  Credited, TopUps, Races and Cards hold the proofs.
--   Deliveries     src/logistics/logistics.service.ts: selectCourier, the steps of the driver,
--                  rateDriver, reconcileCodShortfall, cancelDelivery (its conditional update is
--                  claim_cancellation). Deliveries/Acceptance: acceptDelivery (its transaction is
--                  claim). Deliveries/Completion: markDelivered; Deliveries/Payment: its switch over
--                  the payment methods (pay_by), creditDriverEarnings. Claims, Progress, Steps, Paid,
--                  Handover, Cancelled, Closing and Unpaid hold the proofs. The wallets and the clock
--                  are those of the payments.
--   Pooling        src/pooling/pool-matching.service.ts: requestPool, resolveWindow, tryMatch (its loop is
--                  match_among), pairRides (its transaction is claim_both). Pooling/Routes:
--                  bestRoutePlan. Pooling/Unpooling: getGroupAndPartner,
--                  propagateDriverAssignment, unpoolRide, unpoolRideMidTrip. Shortest, Pairs and
--                  Fares hold the proofs.
--   Rides          src/rides/rides.service.ts: markArrived, startRide, the ratings, verifyPin, addTip
--                  and the steps of an administrator. Rides/Acceptance: acceptRide, whose
--                  transaction is claim. Rides/Settlement: completeRide; what follows the checks of the
--                  ride is complete_and_settle, its catch settle_or_revert. Rides/Payment: the switch of
--                  completeRide over the payment methods (settle_by), creditDriverEarnings.
--                  Rides/Cancellation: cancelRide. Claims, Completion, Refusals, Earnings, Frozen, Tips,
--                  Pins, Lifecycle, Served, Cancelled and Ownership hold the proofs.
--   A file Entities holds the rows of a component, from src/*/entities/*.entity.ts and
--   src/common/enums/*.enum.ts; a file Tests holds runs and examples.
--
-- How code and model correspond. The state of a component is the record of the tables that it reads
-- and writes, each a list of rows in the order of creation, with the events emitted so far. A method
-- is a function from the state to its answer and the state after it (Base/Actions): what was written
-- before a throw stays written, except in a database transaction. Methods run one after another; the
-- row locks of the code are what makes that the right reading for a single wallet. Amounts of money
-- are whole kobo, where the code has decimal texts of naira with two digits and adds them as floating
-- point numbers, so rounding errors of the latter are not modelled. Ratings are whole hundredths.
-- Ids, phone numbers, e-mail addresses and codes are numbers, since the code only compares them. Rows
-- hold the columns that the modelled code reads; texts that only describe are left out, and so are
-- the events ride.accepted, ride.arrived, ride.started, ride.completed and ride.cancelled, and
-- driver.availability.changed after a reservation (emitReservedForTrip in acceptRide and
-- acceptDelivery), whose listeners are outside the model.
--
-- Arguments, not definitions: the clock, generated ids and digits, the payment provider, the SMS
-- provider, what PaymentsService answers a ride about a card or a transfer, the drivers whom a search
-- finds, the airport that contains a pickup, the distance of two points, and whether a driver's
-- documents are complete. Every loop runs over a list but two: permutations is told the number of its
-- elements, and the loop over the queue of an airport (next_ready) runs on fuel, one more than the rows
-- of the queue. That is enough, since each of its rounds takes one waiting driver out (search-Exhausts
-- in Dispatch/Queue).
-- The number of rounds of automatic dispatch is an argument of the theorem about them, which says how
-- many are enough.
--
-- Not modelled: requesting and estimating a ride, the calls of pooling by the ride methods, candidate
-- search and ranking, how drivers join and leave the queue of an airport, the request of a delivery
-- and its fare, campaigns, loyalty and incentives, authentication, and the parts that only store,
-- report, notify or call outside services.
pub mod Base
pub mod Settings
pub mod Users
pub mod Wallets
pub mod Audit
pub mod Otp
pub mod Fraud
pub mod Withdrawals
pub mod Transfers
pub mod Drivers
pub mod SplitFare
pub mod Debts
pub mod Commission
pub mod Fare
pub mod Trips
pub mod Fleet
pub mod Corporate
pub mod Promotions
pub mod Dispatch
pub mod Passengers
pub mod Payments
pub mod Deliveries
pub mod Pooling
pub mod Rides
