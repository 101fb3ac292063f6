-- ===== src/Lib.antt =====
-- TAZAXY, the back end of a shop for VPN subscriptions: money, orders, payments, vouchers,
-- the clients on the panels, sign-in and support.
-- The services of src/modules keep everything in one database. An order is created for a plan; a
-- payment is confirmed by a gateway, by an admin who approves a receipt, or by a debit of the
-- wallet; the transaction that settles it completes the order, which provisions a subscription on a
-- panel and credits the buyer's referrer, or it tops up the wallet. A voucher provisions a
-- subscription without a payment. The model is that database as a record of tables, and each method
-- as a function of it that returns or throws.
--
-- Which file is about what:
--   Base, with Tests, Lists, Int, Table, Texts: the shared names, integers over the native numbers, and the
--     queries and writes on a list of rows with their laws.
--   Store, with Rows and Methods: the tables of prisma/schema.prisma, what a method is, errors
--     (src/common/exceptions/business.exception.ts), transactions
--     (src/common/prisma/prisma.service.ts) and the audit log (src/common/audit/audit.service.ts).
--   Money: src/common/utils/money.util.ts, fromMinor as from_minor, toMinor as to_minor, and so on.
--   Pagination: src/common/pagination/pagination.dto.ts.
--   Wallet: src/modules/wallet/wallet.service.ts, mutateBalanceInTransaction as
--     mutate_balance_in_transaction, reverse as reverse_transaction.
--   Affiliate: src/modules/affiliate/affiliate.service.ts; SignUp has the reward of a sign-up
--     through Telegram, Totals the accounts' totals.
--   Vpn, with Clients, Provision and Runtime: the choice of a target, the mapping of subscriptions
--     to clients (claimVpnUserMapping as claim_vpn_user_mapping), their creation and the operations
--     on them (setRemoteStatus as set_remote_status) in src/modules/vpn/vpn.service.ts, and
--     src/modules/panels/panel-inbounds.service.ts.
--   Panels: getClient and getConnection of src/modules/panels/panels.service.ts.
--   Xui, with Wire, Session, Api, Clients, Bulk and Users: the client of 3x-ui panels,
--     src/modules/panels/xui-panel.client.ts, request as Session's request, createUser as create_user.
--   Inbounds: performSync of src/modules/panels/panel-inbounds.service.ts as perform_sync.
--   Broadcast: src/modules/notifications/broadcast.service.ts.
--   CryptoWallets: src/modules/payments/crypto-wallets.service.ts.
--   Redis: the counters of src/common/redis/redis.service.ts.
--   Auth: src/modules/auth/auth.service.ts and jwt-token.service.ts, refresh and login.
--   ApiKeys: src/modules/api/api.service.ts.
--   Tickets: src/modules/tickets/tickets.service.ts.
--   Cards: src/modules/payments/bank-cards.service.ts, create as create_card.
--   Subscriptions, with Pauses: src/modules/subscriptions/subscriptions.service.ts.
--   Orders, with Commission: src/modules/orders/orders.service.ts, and priceMinor of
--     src/modules/plans/plans.service.ts.
--   Payments, with Initiate, Receipts and Online: src/modules/payments/payments.service.ts.
--   Vouchers, with Generate: src/modules/payments/vouchers.service.ts.
--   Examples: test data, and the theorems applied to it.
-- The other files below a component prove what they are named for.
--
-- Bounds: money is `bigint`, which has no bound, and so are the integers here. Ids and instants
-- are natural numbers; ids count from 1. A transaction that throws leaves the database as it was.
-- A run is a sequence of calls, none of which begins before the last has ended. In a transaction
-- that locks its row (`FOR UPDATE`) or claims it by a conditional update, as those of the wallet,
-- the vouchers, the settlement and the completion of orders do, the code runs like that; methods
-- that do neither, such as `reverse`, `refresh` and those of cards, tickets and affiliates, can
-- overlap in the program, which is not modelled. The clock and the random identifiers are
-- arguments. The loop of a request to a panel runs on fuel for two passes: the second has an
-- attempt other than 1, on which the loop never goes on. The attempts to draw a free voucher code
-- are the code's own five.
--
-- What is a parameter: the conversions of JavaScript from texts to numbers (Conversions), the test
-- of the package uuid, what a gateway's server and a panel answer, the libraries that sign tokens
-- and hash passwords (Services of Auth), the decryption of a panel's key, the operations of other
-- services that a settlement calls after its commit (Services: the creation of the client on the
-- panel, the notifications), and the creation of the clients of a sign-up's reward.
-- Not modelled: what drives other machines or programs (requests to gateways, the health of a
-- panel, the installers, storage, the command line), what only reads (reports, lists and their
-- caches), the Telegram bot's conversations, the administration of users, settings, notices,
-- servers, plans and panels, which write a row as it comes, and the columns that hold JSON.
pub mod Base
pub mod Store
pub mod Money
pub mod Pagination
pub mod Wallet
pub mod Affiliate
pub mod Tickets
pub mod Redis
pub mod Auth
pub mod ApiKeys
pub mod Cards
pub mod CryptoWallets
pub mod Panels
pub mod Xui
pub mod Vpn
pub mod Inbounds
pub mod Broadcast
pub mod Subscriptions
pub mod Orders
pub mod Payments
pub mod Vouchers
mod Examples
