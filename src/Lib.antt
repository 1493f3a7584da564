-- ===== src/Lib.antt =====
-- The crypto payment gateway's core, modelled from its server and its cron process.
--
-- The gateway gives each payer a wallet and a checkout row, watches the chains for credits, ties each
-- credit to a checkout, tells the merchant by a webhook, expires what is not paid, and settles what is.
-- The parts meet in one database: Store has its tables as lists of rows, and every operation is a
-- function from a store to a store.
--
-- - Common, Text, Numeric: Boolean tests, lists, integers, JavaScript text, and the four tests of
--   JavaScript numbers that percentages go through (a parameter, since they are IEEE doubles).
-- - Fee: server/src/lib/merchant-fee-math.js, feeAmountFromPercent and the two splits. Amounts are
--   BigInt in the source and unbounded integers here.
-- - Amount: the amount texts of the same file, of server/src/lib/format-atomic-amount.js and of
--   server/src/lib/gateway-expected-amount.js.
-- - Store: server/prisma/schema.prisma. Store/Queries has updateMany and findFirst.
-- - Checkout: server/src/lib/deposit-session-key.js and expected-deposit-amount.js.
-- - Webhook: server/src/services/callback-service.js and callback-retry.js. The merchant's endpoint is
--   the parameter `post`: it answers with 2xx or not, from all that the request is made of.
--   Each request that is sent is noted in `posted` of the store, which is no table.
-- - Deposit: upsertIncomingTransaction of server/src/services/payment/transaction-upsert.js, with
--   confirmationsForChain, resolveWalletInternalId, the raw upsert of
--   server/src/lib/underpaid-prisma-raw.js and releaseWalletAfterDepositSuccess of
--   cron/src/services/wallet-pool/wallet-pool-release.js. Deposit/Parts decides, Deposit writes. The
--   address decoder of tronweb and the generator of references are parameters.
-- - Expiry: server/src/services/checkout-session-expiry.js and its raw statements. Its loop over
--   batches runs on fuel, and one unit more than there are stale rows is enough: each pass takes at
--   least its first row out of the stale ones.
-- - Balance: computeMerchantBalances of server/src/services/merchant-balance.js. The numeric sums of
--   the database and the locale order of texts are the parameter `Engine`.
-- - Settlement: the choice of rows, the preview and executeBatchSettlement of
--   server/src/services/settlement-batch.js.
-- - Payout: server/src/services/payout/execute-auto-payout.js, with payout-test-refs.js (TestRefs),
--   server/src/lib/merchant-payout-rails-policy.js (Policy), resolve-payout-signer.js (Signer) and the
--   storing of fees of payout-withdrawal-network-fee.js. Execute is one payout, Batch the cron pass. The
--   transfer on a chain and the look-up of its fee are parameters.
-- - Withdrawal: server/src/services/merchant-withdrawal-request.js (Request) and
--   withdrawal-admin-patch.js (Patch). Steps joins requests, payouts and cron passes.
-- - Pool: cron/src/services/wallet-pool/assign-pooled-wallet.js, the choice of a wallet and the checkout
--   that follows it (Checkout), and the end of holds in wallet-pool-release.js beside it
--   (Release). A new wallet tries 256 derivation indices and is tried to be stored four times, as in the
--   source. The derivation of addresses is a parameter.
-- - Auth: who a gateway request comes from, server/src/lib/gateway-request-auth.js, gateway-x-token.js,
--   gateway-merchant-auth.js and merchant-api-key-cipher.js. Json is parsed JSON and its canonical text,
--   Sealed the AES-256-GCM texts, Gateway the decision. node:crypto and Buffer are the parameter `Crypto`;
--   RoundTrip names what they document.
-- - Scanner: the scanner's position of server/src/services/payment/transaction-upsert.js, and the blocks
--   that a tick of scanEvmChain in cron/src/services/tracker/evm-tracker.js visits. Scanner/Credits adds
--   the credits of those blocks: the wallets of server/src/lib/wallet-scan.js, the wallet of a transfer
--   log, its upsert, and in Worker the tick of cron/src/services/tracker/worker.js. The explorer's
--   answers and the parser of ethers are parameters; a failed call counts as no logs, as in the source.
-- - RateLimit: server/src/lib/network-rpc-rate-limit.js and deposit-scanner-explorer-key-pool.js, one
--   iteration of each waiting loop at a time, in any order of callers.
-- - Examples: concrete runs.
--
-- A time is a number of milliseconds, and a function reads the clock once unless it is said otherwise.
-- A row's id is the position that the database's sequence gave it; the sequence is part of the store.
-- Not modelled: the HTTP routes, portal sessions, key derivation, the chain clients, sweeps, logs and
-- mail, and the web client, which are input and output around this core; and, not yet
-- part of the development, the pages of the explorer's log query, the Tron tracker, the previews of all pending settlements and payouts, the
-- wording of payout failures, and the portal form of the payout policies. merchantBalanceForAsset is
-- called nowhere. The percentages that a withdrawal row repeats from its merchant are left out. Failures
-- of the database itself do not occur here, two of its transactions do not run at once, and its client
-- knows the column deleted_at.
pub mod Common
pub mod Numeric
pub mod Text
pub mod Fee
pub mod Amount
pub mod Store
pub mod Checkout
pub mod Webhook
pub mod Deposit
pub mod Expiry
pub mod RateLimit
pub mod Balance
pub mod Settlement
pub mod Payout
pub mod Pool
pub mod Auth
pub mod Scanner
pub mod Withdrawal
pub mod Examples
