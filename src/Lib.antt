-- ===== src/Lib.antt =====
-- ChatPulse: a Telegram bot and Mini App that counts the activity of group chats, pays XP for
-- messages and reactions, keeps levels, achievements and daily streaks, and sells VIP for Telegram
-- Stars. This library models its core in Python, on database rows that are passed from operation
-- to operation.
--
-- Parts, and the files that model them (paths from the repository's root):
--   Prelude       shared names: Boolean tests on natural numbers, lists, tables, integers.
--   Levels        app/services/gamification.py (xp_threshold_for_level, level_for_xp, level_tier,
--                 level_progress) and app/services/levels.py (build_level_catalog).
--   Antispam      app/services/gamification.py (message_base_xp, burst_multiplier,
--                 adjusted_message_xp, hamming_distance, is_near_duplicate).
--   Achievements  app/services/gamification.py (ACHIEVEMENTS, evaluate_achievements).
--   Catalog       app/achievements/catalog.py: Chains and Singles have the definitions, Public what
--                 a user may see of one; Engine has app/achievements/engine.py, Record has
--                 record_events of app/repositories/achievements.py, Marks and Pending its events
--                 that are shown once, and Rewards _award_new_achievements of
--                 app/repositories/gamification_v2.py.
--   Activity      app/repositories/activity/writes.py (record_message_in_session,
--                 record_reaction_in_session) and shared.py: the counters of members and days;
--                 Recount has record_reaction_count_in_session, and reset_group_stats of
--                 settings.py beside it.
--   Streak        app/repositories/gamification.py (_advance_streak, _consume_protections) and the
--                 override of _consume_protections in app/repositories/gamification_v2.py.
--   Xp            app/repositories/gamification.py: Store has the rows, Pay has _apply_xp and what
--                 it calls, Message has award_message_xp_in_session, award_reaction_xp_in_session
--                 and update_message_reaction_total_in_session. It uses Antispam, Levels,
--                 Streak and Achievements. It is the base
--                 class; the bot uses the subclass of app/repositories/gamification_v2.py, which
--                 overrides the streak protection (Streak) and the achievements (Catalog/Rewards).
--   Billing       app/repositories/billing.py with app/services/vip_plans.py: Plans, Store (the
--                 rows of app/billing_models.py and VipGrant), Invoices, Payments, Subscriptions.
--   Entitlements  app/services/entitlements.py and app/services/premium_policy.py.
--   Delivery      app/repositories/update_delivery.py (begin_update, complete_update,
--                 fail_update); Body has read_body of app/operations/webhook_runtime.py, Webhook
--                 has telegram_webhook of app/main.py, which calls them. Its dispatcher stands
--                 for every handler of the bot: an argument that changes an abstract state.
--   Access        app/services/telegram_access_cache.py: get_or_load as its sections under the lock
--                 (enter; loaded or failed), invalidate, invalidate_user, invalidate_group, clear.
--   RateLimit     app/operations/rate_limits.py (the token bucket script, POLICIES, check) and
--                 app/api/rate_limit.py (enforce_rate_limit).
--   Leases        app/operations/leases.py (acquire, renew, release) over one Redis key; Lock has
--                 the lock that a lease promises.
--   KeyedLock     app/services/keyed_lock.py (hold), for one key.
--   Control       app/services/admin_access.py; Restrict, Adjust, Staff and Notes have the files of
--                 app/repositories/user_control (restrictions, xp, staff, notes_tags) over the
--                 tables in Store, and Commands the requests of app/api/owner/users.py, each with
--                 the actor that app/api/owner/dependencies.py resolves.
-- The other modules below these hold proofs, and the Tests modules runs and witnesses.
--
-- Modelling choices:
--   * The database is a record of tables and lists of rows, with the columns that the modelled
--     code reads or writes. An operation returns the store after its transaction. One that raises
--     returns an error in place of a store, since the transaction is rolled back. Row locks make
--     the operations of one message or user run one after another, so they are functions of the
--     store. Unique columns are written out where the code relies on them.
--   * Identifiers, dates (day numbers) and instants are natural numbers: microseconds in Xp, seconds
--     in Billing, Delivery and Control, milliseconds in RateLimit and Leases. The clock and what is
--     drawn at random are arguments. The time zone's date, the first day of a month, the float
--     formulas that guess a level (Levels) and that give one (_level_for_xp, in Control) and the
--     cutting of texts are functions that the definitions take as arguments; no theorem assumes
--     anything of them.
--   * The multiplier of a burst is counted in quarters, which floats represent exactly. The
--     similarity fingerprint is kept as its number, not as sixteen hexadecimal digits.
--   * The token bucket counts in units, as many to a token as a period has milliseconds, so that
--     refilling is exact; the script of the source does the same sums in doubles, whose rounding is
--     far less than what a millisecond refills, so that it can move the moment at which a token is
--     whole by a millisecond.
--   * Concurrency: the operations on claims and leases, and the sections of the cache and of the
--     keyed lock, are steps of a relation, and a run is any sequence of them.
--   * A call of Redis for a lease ends with its answer, or with an error before or after it took
--     effect; tokens name the holders. A unique key or a foreign key that fails is the branch of
--     record_events that skips the unlock. Texts are stripped, folded and measured by functions that
--     Control takes as arguments.
--   * A member's columns are split by who writes them: Activity has the counters and Xp the XP, the
--     level and the streak, with the counters that achievements read.
--   * The catalog's thresholds of rarity are products of whole numbers, which for chains of this
--     length decide as the floats do.
--   * Loops: climb runs on fuel, one more than the XP total, which is enough because the threshold
--     of a level is never below the level before it (Levels/Search); bits runs on its argument as
--     fuel, which is enough because it halves. The other loops are structural.
--
-- Not modelled: the HTTP and bot layers, the queries for display, the Mini App's frontend, text
-- normalisation and keyed fingerprints (their results are fields of MessageActivity), and the
-- SQL schema but for the constraints named above.
pub mod Prelude
pub mod Levels
pub mod Antispam
pub mod Achievements
pub mod Catalog
pub mod Activity
pub mod Streak
pub mod Xp
pub mod Billing
pub mod Entitlements
pub mod Delivery
pub mod Access
pub mod RateLimit
pub mod Leases
pub mod KeyedLock
pub mod Control
