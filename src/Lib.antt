-- ===== src/Lib.antt =====
-- Verification of the shared packages behind the web applications (platform/services/web/packages) and of
-- the point of sale (platform/services/web/apps/pos): money and prices, what a plan resolves to, what a
-- person may do and sees, the staff of a tenant and its till, and the console of the operator.
--
-- The parts and how they interact. An amount (Money) is a whole number of minor units in a currency;
-- pricing turns the lines of a sale into gross, net and tax and adds them up. A plan grants modules, and
-- the catalog of modules says what each one needs; the entitlement record that follows also counts
-- staff seats, and the navigation follows it. Roles grant permissions, which may belong to a module. The
-- store of a tenant changes its staff under the checks of roles.ts and keeps the seats of the
-- entitlement record in step. The till of a tenant prices a request with the same pricing as the cart of
-- the point of sale, keeps sales, stock, tables, payments and documents, and refunds and voids. The
-- operator's console changes what tenants and tiers hold by the same catalog of modules.
--
-- Prelude: equality as the code tests it, lists, results of code that throws, doubles. A JavaScript
--   number that must be whole is `Number`, a whole ℤ or a fraction. Rounding to a double is a parameter
--   (`Float64`): exact up to 2^53 and monotone, with an exact floor of a quotient of numbers up to there;
--   `coarse` is an instance that the tests use. Numbers that a BigInt holds are plain ℤ.
--   Prelude/Stateful: methods of an object, as functions from a state to a result and a state.
-- Money, Money/Currency: packages/money/src/currency.ts and money.ts (money, addMoney, sumMoney ... are
--   money, add_money, sum_money ...). Money/Text: parseMoney, serialiseMoney, toDecimalString,
--   parseDecimalInput. Money/Exact and Money/Text/RoundTrip hold proofs.
-- Pricing: packages/money/src/pricing.ts. line_figures is priceLine up to the conversion to doubles,
--   as_amounts that conversion; total_of is totalOf, tax_breakdown is taxBreakdown. Its children hold
--   proofs.
-- Entitlement/ModuleData, TierData, ProfileData: the tables of packages/entitlement/src/modules.ts,
--   tiers.ts and profiles.ts. Entitlement/Modules: resolveDependencies and its kin; the recursion
--   of `visit` is on fuel 14, the number of modules, which is enough since a module requires only
--   earlier ones. Entitlement/Resolve: packages/entitlement/src/resolve.ts. Entitlement/Upgrade,
--   Resolve/Holds and Modules/Closure hold proofs.
-- Rbac: packages/rbac/src/permissions.ts (PermissionIds, PermissionData) and roles.ts (Roles, Team). A
--   refusal keeps its reason and drops its text.
-- Nav: packages/entitlement/src/nav.ts; Nav/Data is its table, and Nav/Shown holds proofs.
-- Staff: the staff methods of packages/mock/src/store.ts, as functions from the state to a result with
--   the new state. The clock, trim and toLowerCase are arguments. Ids of a team are taken as distinct
--   where a theorem says so. Staff/CustomRoles: the roles that a tenant defines. Staff/RoleId: the id of
--   one.
-- Till: the till of packages/mock/src/store.ts. Till/Data holds the types of packages/api/src/types.ts and
--   endpoints.ts that it uses; Till/Method makes a method a function from the state to a result and the
--   state that it leaves, also where it throws. Till/Price is priceOrderLines, Till/Stock moveStock,
--   reserveStock and adjustStock, Till/Tables attachTable, Till/Tenders buildTenders, recordPayments,
--   refundPayments and issueDocument, Till/Allocate allocate, Till/Sale placeOrder, Till/Park the methods
--   of parked sales, Till/Correct voidOrder and refundOrder. Till/Steps is a step relation over all of
--   them. Counts of stock and the counters are whole numbers, which doubles hold exactly below 2^53. The
--   clock and the test for a blank reason are arguments. The prices in a request stand behind `Number`.
--   The other children hold proofs.
-- Cart: the cart of the point of sale, apps/pos/src/cart.ts, and the lines of the request that
--   apps/pos/src/Till.tsx makes of it. The state that React keeps is a record. Cart/Charged puts the cart
--   and the till of the store together, Cart/Merged is about the operations of the cart.
-- Console: the operator's console, packages/mock/src/admin/store.ts and platform.ts; Console/Data holds the
--   types of packages/api/src/admin.ts. Console/Directory is the staff, the roles and tenantModules,
--   Console/Doors signIn, redeemHandoff, signOut, record and closeSession, Console/Tenants setStatus,
--   setTier and overrideModule, Console/Provisioning retryStep, Console/Support the support sessions,
--   Console/Registry setTierGrants. Console/Steps is a step relation over all of them. The clock, `trim`,
--   `toLowerCase` and random texts are arguments (`Host`), new ones for every call. A refusal keeps its
--   status and code. The other children hold proofs.
--
-- Not modelled: bookings, catalog, day close, the status of tables and loyalty of the store; checkout; terminology and analytics;
-- formatting with Intl; the lists and figures that a screen only reads; the network client, the React
-- components and the services behind the gateway. Error messages are left out everywhere.
pub mod Prelude
pub mod Money
pub mod Pricing
pub mod Cart
pub mod Console
pub mod Entitlement
pub mod Rbac
pub mod Staff
pub mod Nav
pub mod Till
