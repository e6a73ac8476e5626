-- ===== src/Lib.antt =====
-- Verification of the web app of Astrea (apps/web), the service that pays out hackathon prizes in
-- USDC from an escrow contract on Stellar.
--
-- An organizer drafts an event with its prizes and a judge, funds it, creates it on the chain and
-- starts it; teams register; the judge assigns winners and releases the prizes. The app keeps
-- events, prizes, teams, wallets and linked accounts in Postgres (apps/web/prisma/schema.prisma)
-- and has its transactions built and submitted by a second service, services/core-go, over HTTP.
-- Every server action is open to a direct POST, so each checks the session and the rows itself;
-- that is what most of this library is about.
--
-- Parts, and the files that model them.
--
-- Prelude: helpers that the parts share. A string is the list of its UTF-16 units (Prelude.Texts),
--   a number is a natural number; Prelude.Digits prints and reads decimals, Prelude.Trim is
--   trim(), Prelude.Search startsWith and includes, Prelude.Json the values of JSON.parse,
--   Prelude.Int the integers of BigInt, Prelude.Uuid isUuid of apps/web/src/lib/uuid.ts.
--   Prelude.Results has the actions: a function from a store to a result and a store, so that what
--   was written before a throw stays written.
-- Schema: the tables as lists of records, with the columns that the modelled code uses.
--   Schema.Table is what findUnique, updateMany and deleteMany do to a table.
-- StateMachine: apps/web/src/lib/state-machines. Transitions has the tables of event.ts and
--   prize.ts and their assertions, Apply transitionEvent and transitionPrize, whose update names
--   the status that it expects.
-- Amount: apps/web/src/lib/escrow/amount.ts (parseUsdcAmount, sumUsdcAmounts), toStroops of
--   apps/web/src/lib/trustline/verify-trustline.ts and formatSmallestUnits of
--   apps/web/src/lib/explorer.ts.
-- OpLog: apps/web/src/lib/escrow/pipeline.ts and idempotency.ts, prepareOperation and
--   submitOperation over the table op_log, with the envelopes sent so far in the state. The
--   database may refuse each write. OpLog.Spec is the same without the table:
--   what each key's calls are promised.
-- Auth: apps/web/src/lib/wallet. Crypto and Nonce are auth-utils.ts, Email is validation.ts,
--   Session is session.ts, Route is apps/web/src/app/api/auth/nonce/route.ts.
-- Trustline: hasUsdcTrustline and verifyAndRecordTrustline of apps/web/src/lib/trustline.
-- CoreGo: apps/web/src/lib/core-go/client.ts (Client) and the server actions that call it:
--   action-result.ts (Failure), the actions under apps/web/src/app/[locale]/organizer/events/[id]
--   (Organizer), and the judge's actions under apps/web/src/app/[locale]/events/[id]/judge
--   (Winners, Judge). A world is the tables with the session cookie, the requests sent and the
--   pages revalidated.
-- Teams: apps/web/src/lib/teams/shares.ts (Shares), apps/web/src/lib/github/repo-ownership.ts
--   (Repo), and registerTeam and startJudging of apps/web/src/app/[locale]/events/[id]/actions.ts
--   (Registration).
-- Events: createDraftEvent of apps/web/src/app/[locale]/organizer/new/actions.ts (Draft).
-- Github: signOAuthState and verifyOAuthState of apps/web/src/lib/github/oauth.ts (State), and the
--   routes start (Start, with the calls of GitHub in oauth.ts) and callback (Callback) under
--   apps/web/src/app/api/auth/github.
-- Views: apps/web/src/lib/events/public-view.ts (Public) and card-model.ts with truncateHash of
--   apps/web/src/lib/explorer.ts (Card).
-- Earnings: apps/web/src/lib/earnings, summary.ts in Earnings itself, query.ts in Query.
-- Network: apps/web/src/lib/env.ts and stellar-network.ts in Network itself,
--   apps/web/src/lib/escrow/read-event.ts in Reading.
-- Screens: apps/web/src/components/events/sign-step.tsx (Sign), which the screens share,
--   deposit-step.tsx (Deposit), fund/fund-and-create.tsx (Fund) and start/go-live.tsx (GoLive)
--   under apps/web/src/app/[locale]/organizer/events/[id], and release-form.tsx (Release) of the
--   judge's page. Wallet is apps/web/src/lib/wallet/provider.tsx, which connects the visitor's
--   wallet on every screen. A screen is its React state with the presses of the sign button that
--   have not come back; an event is a press, an answer of the wallet or an answer of the server; a
--   press of a button that is not shown or is off does nothing. The props that a screen is given
--   do not change while it is shown, but for the shortfall of the deposit step.
--
-- Pages: what the pages of apps/web/src/app/[locale] decide to show. Gates has the organizer's
--   organizer/events/[id]/fund/page.tsx and start/page.tsx and the judge's
--   events/[id]/judge/page.tsx, which give the screens their props; Cards has the routes
--   events/[id]/display.png/route.ts and opengraph-image.tsx with apps/web/src/lib/site-url.ts,
--   Receipt events/[id]/print/page.tsx, Offers the public page events/[id]/page.tsx, Badge its
--   apps/web/src/components/event/onchain-badge.tsx with the links of
--   apps/web/src/lib/explorer.ts, and Profile p/[login]/page.tsx.
-- Motion: apps/web/src/lib/motion-preference.ts and the provider of
--   apps/web/src/hooks/use-reduced-motion.tsx.
--
-- How they interact. Auth gives the session's wallet to every action. CoreGo.Judge and
-- Teams.Registration call Trustline, which reads amounts with Amount; Teams.Registration starts
-- the judging through StateMachine and reads the linked account that Github writes; Events.Draft
-- stores prizes whose amounts Amount can sum for the escrow, and Views.Card prints the escrow's
-- reward with Amount. The screens call the actions of CoreGo and show their failures;
-- Network.Reading asks the contract that Network names. The pages of Pages show those screens; its
-- cards read the contract through Network.Reading and print what Views.Card makes of it, with the
-- accounts that Github linked.
--
-- Concurrency. What other requests write between a handler's read and its write is an argument, a
-- function on the tables (`meanwhile`, `others`), in consumeAuthNonce and associateVerifiedWallet,
-- prepareOperation and submitOperation (one before each write, `Update`), registerTeam and
-- startJudging; the theorems hold for each such function, or name one. transitionEvent and
-- transitionPrize write by one guarded update, and a theorem has two callers of it. The other
-- handlers are modelled as if no other request wrote while they run. On a screen every `await` is
-- a place of its own, so that presses and answers may come in any order.
--
-- Code that is not here is a parameter: the Stellar SDK, node:crypto and Buffer (Auth.Crypto),
-- fetch and encodeURIComponent (CoreGo.Client.Platform), Horizon's answer about an account, new
-- URL and toLowerCase (Teams.Repo.Web), Date.parse and Intl (Events.Draft.Calendar), the text of a
-- Decimal(18, 7) column (`column` of Events.Draft, described by Amount.Column), String and Number
-- on unknown values (Views.Public.Coercions), HMAC and base64url (Github.State.Codec), GitHub's
-- answers, decodeURIComponent and the database's comparison without case (Pages.Profile), numbers
-- with their locale (Earnings.Numbers), zod's URLs and messages (Network.Zod) the simulation of a
-- contract's call (Network.Reading), and the browser's storage and media query (Motion). Clocks
-- and the ids of new rows are arguments.
--
-- Bounds. The loops of the source go once over a list and are structural recursion. One helper has
-- fuel, digits_fuel of Prelude.Digits, which writes a number's decimal digits: it is given one
-- more than the number, which is enough (value_from-digits_fuel). Amounts are BigInt in the source
-- and have no bound here. Instants are milliseconds since the epoch. A database that is out of
-- reach is modelled only where the source catches it.
--
-- Not modelled: the markup, styles and translations of the screens, the site's metadata
-- and colour theme, apps/web/src/lib/qr.ts (a copy of another library), the sample payouts of
-- apps/web/src/lib/earnings/query.ts, the Go service and the Rust contracts.
pub mod Prelude
pub mod Schema
pub mod StateMachine
pub mod Amount
pub mod OpLog
pub mod Auth
pub mod Trustline
pub mod CoreGo
pub mod Teams
pub mod Events
pub mod Github
pub mod Views
pub mod Earnings
pub mod Motion
pub mod Network
pub mod Pages
pub mod Screens
