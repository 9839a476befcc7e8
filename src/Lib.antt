-- ===== src/Lib.antt =====
-- Verification library of arena-hero-agent: the deterministic core of the agent, from its Python
-- sources under src/arena_hero_agent, modelled as functions and proved correct.
--
-- The program is a ports-and-adapters agent for a grid game. Immutable domain objects (domain)
-- carry positions, the terrain grid and the path search; the runtime adapters (adapters/runtime)
-- hold the leases that fence each tenant's writes; the migration conductor (migration) decides
-- when a core may move; the alliance layer (alliance) distributes tasks over tenants and carries
-- the director's commands to them. The decision arbiter (application) recovers a tenant's state
-- from its journal and commits one decision after the other under two leases; strategies size
-- raids, budget the Core and keep units from getting stuck, over the prices and the path search of
-- the domain. The parts interact through leases and values: the state store and the journal accept
-- a write only under an active writer lease of its tenant and generation, the conductor's fence is
-- such a lease and its token the epoch of a plan, and a tenant drains its pending commands under a
-- lease that it acquires and releases. They share the value objects: tenants, generations, fencing
-- tokens, deadline budgets, coordinates.
--
-- Which file models which part:
--   * Domain/ValueObjects: domain/value_objects.py. Coordinates are pairs of integers with the
--     32-bit range check of the constructor; `step` raises outside it.
--   * Domain/Navigation: domain/navigation.py, the grid, its validation and the metrics;
--     Domain/Navigation/Metric and Neighbors prove what steps and neighbours are.
--   * Domain/Navigation/Search: shortest_path, first_step and is_reachable. The queue is a list,
--     the dict of parents an association list with the newest entry first. `search` and `trace`
--     run on fuel: one round for each cell that can be entered and one more, and one for each
--     parent and one more, which Search/Fuel proves enough. Paths, Invariant, Cover and Correct
--     carry the proofs, Reachability has the results.
--   * Runtime/Leases: adapters/runtime/leases.py. A coordinator is the two dicts of slots and the
--     heap of issued handles, so that a slot and a caller share a handle. Every method takes the
--     clock readings that it makes, in their order. The asyncio lock makes each method one step;
--     Run has the runs as a relation, with any clock readings.
--   * Migration/StateMachine: migration/state_machine.py, `transition` and folds of it.
--   * Migration/Enactment: migration/enactment.py, with the fence on the coordinator of
--     Runtime/Leases. A plan is a record of what the gates read; the parsing of the heartbeat is an
--     argument. Instants are whole microseconds, the resolution of a datetime.
--   * Alliance/Commands, Alliance/CommandBus, Alliance/Applier: alliance/commands.py,
--     adapters/runtime/command_bus.py and alliance/applier.py. The files of the bus are lists of what
--     their lines decode to, blank lines aside, and a line of an audit trail may fail to decode; a
--     file is taken to end with a newline when a line is appended, as it does unless an append was
--     interrupted. Marks interleaves the operations of the bus; Handle and Drain have one command and
--     one drain, which takes its lease from the coordinator of Runtime/Leases. Audit has what is read
--     back of recorded events.
--   * Runtime/StateStore: MemoryTenantStateStore of adapters/runtime/state.py. The tests before the
--     lock and the locked part are definitions of their own, and Generations interleaves them.
--   * Runtime/Journal: MemoryDecisionJournal of the same file, and the entries of
--     application/decision.py. A lease is read as its fields and its disposition at the moment of the
--     call. Append has the single call, History the invariant over runs.
--   * Domain/Rules, Domain/Economy, Domain/World, Domain/TenantState: domain/rules.py,
--     domain/economy.py, domain/world.py and domain/state.py. A constructor with checks is a function
--     into results; a digest is an argument. The search for the largest exponent runs on fuel, and
--     Economy/Ceiling has how much is enough. Economy/Pricing, Reducer and Replay, World/Projection
--     and TenantState/Reducers and Progress have the results.
--   * Application/Recovery, Application/Arbiter: application/decision.py over the models of its
--     ports: the journal, the state store and one lease coordinator. A ticket names its leases by
--     their handles. Over these adapters no await suspends, so each operation is one change of the
--     stores; the clock is a function from the number of the reading.
--   * Strategies/RaidQuota: strategies/raid_quota.py, the quotas, the target and the replacement
--     queue; Quotas, Targets and Replacement have the results.
--   * Strategies/MovementGuard: strategies/movement_guard.py. Home has the way home and the forced
--     step. Backoff, Trail and Escape have the results, Deposit a lemma on the record of the way home.
--   * Strategies/EconomyBudget: strategies/economy_budget.py, over the unit price and the path search;
--     Dispersal has the route of full workers, Routes its result.
--   * Strategies/StuckGuard: strategies/stuck_guard.py; Box has its result.
--   * Alliance/TaskMarket: alliance/task_market.py, all of assign_tasks with its two sorts and its
--     checks. The texts of rejections are constructors. Choose, Partition, Load, Admission, Table
--     and Outcome carry the proofs, Promises has the results.
--   * Prelude: the shared names; exceptions as results; dicts as association lists; stable sort.
--
-- Python integers are the native natural numbers where the source checks that they are not
-- negative, and integers elsewhere; none of them wraps around. Counts of units and amounts of
-- resources in strategies, which the source does not check, are natural numbers as well. Checks of
-- argument types are left to the types of the model, as are the regular expressions of
-- identifiers.
--
-- Not modelled: network, files, processes and the HTTP command center; serialisation and digests;
-- the other strategies and the planning with floating-point scores; the recorder, telemetry and the
-- command line.
pub mod Prelude
pub mod Domain
pub mod Runtime
pub mod Application
pub mod Migration
pub mod Alliance
pub mod Strategies
