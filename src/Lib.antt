-- ===== src/Lib.antt =====
-- The money-moving parts of the backend of a cross-border payment application, and the accounts
-- behind them.
--
-- The backend (backend/src) is an Express server over PostgreSQL, Redis and the Stellar network.
-- A user signs in, with a password and where it is set a second factor, and confirms a payment
-- with a PIN. A payment passes the middleware for idempotency keys, then the guards of the
-- payment controller (identity, phone, AML, wallet; then, under a distributed lock, the daily
-- limit, the fraud rules, the memo and the balance), is charged a platform fee by the
-- configuration in force, and is submitted with retries, some of them through a pool of channel
-- accounts. After it come the points of the loyalty queue and the reward of the referrer. Payment
-- channels, payment requests and agent escrows move money on their own paths, and disputes are
-- settled by an arbitrator.
--
-- Files and code:
--   Base: shared names; lists as tables of the database, errors as values, asset codes.
--   Auth: backend/src/controllers/authController.js; Auth.Login (login), Auth.Tokens (refresh,
--     logout), Auth.Passwords (forgotPassword, resetPassword, changePassword, verifyEmail),
--     Auth.Pin (setPIN, verifyPIN, backend/src/services/pin.js and
--     backend/src/middleware/requireStepUp.js), Auth.TwoFactor (setup2FA, verify2FA,
--     regenerateBackupCodes, disable2FA), Auth.Webauthn (webauthnLoginOptions, webauthnVerify).
--     What is proved of them stands in Auth.Lockout, Admission, Guesses, Codes, Reuse, Resets and
--     StepUp, and in Auth.Webauthn.Replays.
--   Idempotency: backend/src/middleware/idempotency.js over backend/src/utils/cache.js and the
--     table idempotency_keys.
--   Payment: the guards of send in backend/src/controllers/paymentController.js,
--     amlRescreenForPayment of backend/src/controllers/kycController.js; Payment.Batch:
--     sendBatch.
--   Fraud: backend/src/services/fraudDetection.js. FeeConfig:
--     backend/src/services/feeConfigService.js and
--     backend/src/jobs/activateScheduledFeeConfigs.js, with the constraint of
--     database/migrations/1710000072000_fee_configs.js.
--   Fees: backend/src/services/fees.js. Channel: backend/src/services/paymentChannel.js. Request:
--     backend/src/controllers/paymentRequestController.js. Retry: backend/src/utils/retry.js.
--     Lock: backend/src/utils/distributedLock.js.
--   Escrow: backend/src/controllers/agentEscrowController.js with what the contract holds of each
--     escrow; Escrow.Amounts: amountToStroops. Dispute:
--     backend/src/controllers/disputeResolutionController.js. Pool:
--     backend/src/services/channelAccountPool.js. Queue: backend/src/utils/txQueue.js.
--   Ssrf: backend/src/utils/ssrfValidator.js, backend/src/utils/ssrf.js and
--     backend/src/utils/pinnedAgent.js. Webhook: backend/src/services/webhook.js;
--     Webhook.Handlers: backend/src/controllers/webhookController.js; Webhook.Signature:
--     backend/src/utils/webhookSignature.js. Sep31: backend/src/controllers/sep31Controller.js
--     and backend/src/services/sep31CallbackService.js.
--   Kyc: backend/src/controllers/kycController.js, approveKYC, revokeKYC and bulkKycUpdate of
--     backend/src/controllers/adminController.js, and backend/src/jobs/kycExpiryJob.js; Kyc.Aml:
--     backend/src/services/amlScreening.js. Confirm:
--     backend/src/jobs/transactionConfirmationJob.js.
--   Savings: backend/src/controllers/savingsController.js. Contacts:
--     backend/src/controllers/contactsController.js; Contacts.Csv: its two parsers of CSV;
--     Contacts.Import: importContacts. Access: backend/src/middleware/auth.js, isAdmin.js,
--     isAdminOrOwner.js, geoRestriction.js, ipAllowlist.js and csrf.js beside it.
--   Referral: backend/src/services/referralAbuseGuard.js and
--     backend/src/services/referralRewardService.js.
--   Loyalty: backend/src/jobs/loyaltyMintJob.js and backend/src/services/loyaltyMintQueue.js.
--
-- A function of the source is a definition of the same name in lower case with underscores; an
-- object is a record; a table is the list of its rows; a thrown error is the case err of Result
-- with its status and code. A handler takes the state it reads and gives the state it leaves.
-- Payment calls Fraud and Fees, and Fees takes what FeeConfig has in force. Webhook and Sep31 ask
-- Ssrf before each request that leaves the server, and Savings asks Payment for the balance.
--
-- Requests that run at once are steps of a relation, and what holds of all of them is shown by
-- induction on it. A handler of Escrow begins, with its checks and the call of the contract, and
-- writes later, with steps of others between. So do the claims and cancellations of Request, the
-- submissions and resolutions of Dispute, and the creations and withdrawals of Savings. A refresh
-- of Auth.Tokens reads its token, inserts the successor and claims the token, and a verification
-- of Auth.Webauthn passes and writes later; each is also put together, with nothing between its
-- parts. Other handlers are one step each.
--
-- Units: amounts are natural numbers of 10^-7, as the network counts them; dollars, rates and
-- sums keep the units written at their definitions. Where the source rounds by floating point the
-- model rounds exactly, or takes the rounding as an argument with its bound (the deposit of a fee
-- in Fees, toFixed in Savings). Channel reads the amount of a payment to twenty decimals, more than
-- a program has use for, and rounds it as the columns do. Addresses, users, hashes and texts that are only compared stand as
-- numbers; the texts that are parsed (amounts, PINs, host names, lines of CSV) are lists of the
-- codes of their characters. Times are seconds or milliseconds, as each file says, and the
-- database has the clock of the server.
--
-- Arguments of the model, since their code is elsewhere: the answers of the Stellar network and
-- of the contracts, the verification of a transaction, the libraries for passwords, hashes, TOTP
-- codes and signed tokens, digests and encryption, random values, the answers of the DNS, the
-- parsing of URLs, the country of an address, the jitter, the clock, and whether Redis or the
-- database answers. The escrow contract is taken to refuse an escrow that is not locked, as
-- contracts/agent-escrow/src/lib.rs does.
--
-- Loops: retry_with_backoff runs on max_retries + 1 rounds and acquire on timeout / 200 + 2
-- rounds of fuel, and neither runs out of it, as their theorems state. The attempts of a webhook
-- and of a callback are given as a list of what the world does at each, and their theorems state
-- how many are enough. Rounds of the lock's heartbeat are given as the times at which they fall
-- due, and each is taken to be over before the next.
--
-- Not modelled: the recording of a single payment in send, which does not parse at this commit;
-- the table of sessions, whose controller does not parse; routes, the frontend, the contracts in
-- Rust, mails and notifications; and the components that the manifest lists so.
pub mod Access
pub mod Auth
pub mod Base
pub mod Channel
pub mod Confirm
pub mod Contacts
pub mod Dispute
pub mod Escrow
pub mod FeeConfig
pub mod Fees
pub mod Fraud
pub mod Idempotency
pub mod Kyc
pub mod Lock
pub mod Loyalty
pub mod Payment
pub mod Pool
pub mod Queue
pub mod Referral
pub mod Request
pub mod Retry
pub mod Savings
pub mod Sep31
pub mod Ssrf
pub mod Webhook
