-- ===== src/Lib.antt =====
-- masterfadebackend: the backend of a chain of barber shops. This library models the parts that
-- decide: which slots of a barber's day are offered, what discounts a booking gets and how they are
-- spread over its lines, which barbers are tried for its members, how its payment is taken and confirmed,
-- what a membership pays for, what the streams of changes of the agenda send,
-- when failed logins lock an account, who may disable one, which sessions are in use, how points are
-- adjusted and the token of a reward is made, and how a client's account is deleted.
--
-- The parts and the code that they model, by path in the repository:
-- Agenda, src/services/agendaService.js. Agenda/Intervals: `normalizeInterval`, `mergeIntervals` and
--   `subtractIntervals`. Agenda/Schedule: `buildBaseIntervalsFromSchedules` and
--   `applyBranchExceptionsToIntervals`. Agenda/Slots: `trimIntervalsByMinimumStart` and
--   `buildSlotsFromIntervals`. Agenda/Availability composes them as `getAvailableSlotsForBarber` does.
-- Booking, src/services/bookingCanonicalReservationService.js. Booking/Attempts:
--   `buildAssignmentAttemptsFromIntegrantes`.
-- Deletion, src/services/accountDeletionService.js. Deletion: the row of a request, its states, and
--   `loadAccountDeletionExecutionContext`. Deletion/Confirmation: `createClientAccountDeletionRequest` and
--   `confirmClientAccountDeletionRequest`. Deletion/Orchestration: `orchestrateClientAccountDeletion` over
--   any stages. Deletion/Account: the rows of an account, the statements that close it,
--   and the view `vw_points_balance` of
--   db/migrations/20261030010000_masterpuntos_readonly_expiration_v1.sql.
--   Deletion/Internal: `executeClientAccountDeletionInternal`, which revokes the sessions of
--   Security/Sessions. Deletion/Storage: `runClientAccountDeletionStorageCleanup`. Deletion/Auth:
--   `runClientAccountDeletionAuthCleanup`.
-- Discounts, src/services/bookingDiscounts.js. Discounts/Allocation: `allocateDiscountAcrossLines`.
--   Discounts/Lines: `buildCanonicalDiscountLines`. Discounts/Plan: `buildDiscountPlan`.
-- Events, src/services/agendaEventDispatcher.js. Events/Subscriber: `createSubscriber`, the queue of one
--   stream of changes under the back pressure of its socket. Events/Dispatcher:
--   `createAgendaEventDispatcher`, the open streams, their addresses and the poll. Events/Replay: its
--   `replay`, and the end of `subscribe`.
-- Membership, src/services/membershipService.js. Membership/Coverage: `createCoverageTracker` and
--   `filterCoverageTrackerByTariffServices`. Membership/State: `computeTimeRemaining`,
--   `isMembershipPendingRenewal`, `resolveMembershipVisibleState` and `ensureSubscriptionLifecycle`, which
--   gives the tracker its subscription. Membership/Consumption: `consumeCoverageForServices`.
-- Payments, src/routes/v1/public/pagos.js, for the provider PixelPay. Payments: the rows. Payments/Group:
--   `assertPublicGroupPayable`, `resolveGroupExpiresAt` and `activatePixelPayDirectIntent`.
--   Payments/Intents: the first transaction of the route `/crear-intent`. Payments/Sale: the route
--   `/pixelpay/sale` until it calls the provider, with the procedure `proteger_reserva_pago_v1` of
--   db/migrations/pixel, and in Payments/Sale/Finish after that.
--   Payments/Sale/Status: the route `/pixelpay/status`. Payments/Sale/Operations: all of these in
--   any order. Payments/Reconcile: `reconcilePixelPayPaid`. Payments/Confirmation: `confirmGroupAfterPaid`
--   and the procedure `confirmar_reserva_pagada_v1`. Payments/Prices: `applyPersistedPromotionDiscounts`, and in
--   Payments/Prices/Lines `buildPaymentDetailRows`. Payments/Expiry: `expireStaleAppointmentReservations` of
--   src/services/agendaService.js. Payments/Approval: `loadDurablePixelPayApproval` of
--   src/services/payments/pixelPayDurableApproval.js.
-- Points, src/services/pointsService.js. Points/Token: `buildRedeemContextToken` and
--   `parseRedeemContextToken`. Points/Adjustment: `addManualPointsAdjustment` with
--   `claimManualAdjustmentIdempotency`.
-- Promotions, src/services/promociones/promocionesEngine.js. Promotions/Types: the context and the
--   candidates. Promotions/Discount: `calculateDiscount`. Promotions/Validation:
--   `validatePromotionCandidate`. Promotions/Evaluation: `evaluatePromotions`, which calls the
--   allocation of Discounts. Promotions/Conflicts: `resolvePromotionConflicts` and the amounts of
--   `buildPromotionResult`.
-- Security, src/services/securityService.js. Security/Login: `getLoginProtectionState`,
--   `checkUserTemporaryLock`, `registerFailedLoginAttempt` and `registerSuccessfulLogin` over the
--   user's row of counters. Security/Access: `updateAdminUserAccessState` over the users.
--   Security/Sessions: `createActiveSession`, and in Security/Sessions/Use `validateActiveSession` and
--   `closeActiveSession`, over the rows of the sessions.
-- Prelude: Boolean tests, list functions and sorting, with their laws. The Examples modules hold
--   concrete runs.
--
-- Conventions. An instant is its milliseconds since 1970, and only valid dates occur. Amounts are whole
-- cents; an amount below zero, which the code's tests treat like zero, is 0. A percentage is in
-- hundredths of a percent, and a quotient stays an exact fraction until the code rounds it. Identifiers
-- are texts or numbers that are only compared. `Array.prototype.sort` is stable insertion. What the
-- code takes from its platform is a parameter: the instant of a time of day and the minute of the day
-- (time zones), what a socket's `write` answers, `localeCompare`, `trim` with `toLowerCase`, and the
-- month of a date, and SHA-256. What a
-- query or another service answers is an argument, and a failed query is a value. A map is an association
-- list or a function, a table is the list of its rows, and a transaction that fails leaves the rows as
-- they were. Transactions on one payment come one after the other, as its locks see to. What the
-- promotions say of a price, the transactions of points that have expired, and whether what follows a confirmation succeeds, are arguments of the
-- operations on payments. The clock of an orchestration gives one instant to each of its rounds.
--
-- Loops are structural recursion, with these exceptions. The rounds of an orchestration are counted down
-- from six, as in the code. The batches of a replay run on fuel, the watermark plus one, which is enough
-- because a batch that goes on ends at a higher id that the watermark bounds (Events/Replay/Fuel).
-- The cents left over are handed out by recursion on their number. The cursor of the slots runs on fuel,
-- the end of the interval in milliseconds plus one, which is enough because a step moves the cursor by
-- at least a minute.
--
-- Not modelled: a poll that comes in between two batches of a replay (one that comes before the replay or
-- after it is); the anonymization of an account and the deletions that need an approval; SQL that is not
-- named above; the other HTTP routes; payments other than through PixelPay; the clients of payment and
-- storage services; the realtime signals; the audit log; and the fields that are only copied from a row
-- to an answer.
pub mod Prelude
pub mod Agenda
pub mod Booking
pub mod Deletion
pub mod Discounts
pub mod Events
pub mod Membership
pub mod Payments
pub mod Points
pub mod Promotions
pub mod Security
