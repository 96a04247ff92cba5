-- ===== src/Lib.antt =====
-- Moirae, a framework for event sourcing and CQRS over NestJS, in its packages under moirae.
--
-- A command reaches its handler over a publisher, the handler loads an aggregate and applies events
-- to it, a commit gives the events to the store, and the store publishes them to the event handlers
-- and to the sagas. The parts modelled here are those that all the rest stands on,
-- and plugins that store for them:
--   Queue       moirae/core/lib/classes/queue.class.ts, the linked map behind the in-memory publisher
--   Message     moirae/core/lib/interfaces, what events, commands and queries carry
--   Failure     moirae/core/lib/exceptions, and methods that may throw
--   Aggregate   moirae/core/lib/classes/aggregate-root.class.ts: apply, commit, rollback,
--               getAggregatePriorTo, with the handlers of a subclass as the tables of a `Class`
--   Cache       moirae/core/lib/classes/base.cache.ts, caches/memory.cache.ts, the contract of
--               interfaces/cache.interface.ts, and the reserveValue and releaseValue of aggregates
--   Observable  the observables of moirae/core/lib/factories/observable.factory.ts (Distributor,
--               StateTracker) over one emitter, and messenger/messenger.service.ts (Messenger)
--   AsyncMap    moirae/core/lib/classes/async-map.class.ts, the map of responses that callers wait on
--   Publisher   moirae/core/lib/classes/base.publisher.ts and publishers/memory.publisher.ts
--   Store       moirae/core/lib/stores/memory.store.ts, the in-memory event store, and
--               moirae/core/lib/factories/aggregate.factory.ts, which loads from and commits to it
--   Saga        moirae/core/lib/classes/saga.class.ts and saga-manager.class.ts, over any cache that keeps
--               the contract of ICache; ConstructorStorage is the table of constructors
--   Registry    moirae/core/lib/classes/constructor-storage.class.ts, domain-store.class.ts and
--               response.class.ts, mixins/event-processor.mixin.ts, and of decorators those that
--               keep tables: apply, rollback, saga-step and mixin
--   Bus         moirae/core/lib/classes/base.bus.ts and busses: how commands, events and queries run, and
--               what is published when a handler throws
--   Typeorm     moirae/typeorm/lib/caches/typeorm.cache.ts and stores/typeorm.store.ts, over repositories
--   Redis       moirae/redis/lib/caches/redis.cache.ts and providers/redis.connection.ts, over a client of
--               the package redis
--   Rabbit      moirae/rabbitmq/lib/publishers/rabbitmq.publisher.ts, providers/rabbitmq.connection.ts and
--               providers/rabbit-pubsub.engine.ts, over the calls that a channel of amqplib is given
--   Wiring      moirae/core/lib/moirae.module.ts, the injectors of the plugins, and
--               demo/e2e-testing/setup/moirae-config-generator.ts, which configures the demo
--   Node        moirae/node-plugin/lib, the busses for an application without Nest
--   Demo        the demo application: the aggregates and command handlers of demo/account and
--               demo/inventory, the rows that their event handlers write, the commands, the
--               saga of demo/saga, and of demo/gateway the requests that become commands and the
--               subscriptions of clients
--   Tests       concrete inputs
-- A method is a function from the state of its object to the result and the state after it; a name in
-- camel case is the same name with underscores. A call that throws keeps what it wrote before.
--
-- The handlers of an aggregate are actions on its fields. What they read from the clock is an argument of the
-- class, so that a class stands for one moment; that a field shared by an aggregate and its copy changes for both
-- is not modelled, and nothing is said of such fields. Amounts are whole numbers in place of doubles.
--
-- What a call of `randomUUID` gives is an argument, and where a theorem needs it, new. `EventEmitter` is
-- a list of registrations. class-transformer, `JSON` and object-hash are parameters: records of
-- functions with the laws that the code relies on. An asynchronous worker call starts in one step and
-- settles in another, so that a history of steps is any interleaving of publications and settling.
--
-- Only the loop of getAggregatePriorTo takes fuel: one more than the number of events before the one
-- sought is enough, and if no event is the one sought, the loop does not end. All else is structural
-- recursion.
--
-- Not modelled: the timer of `StateTracker.await`, how Nest makes providers and calls their hooks, the
-- broker behind the RabbitMQ plugin, and of the demo application the queries of its gateway and the
-- filter of withdrawals. common/scripts holds the install scripts of Rush, which are another project's.
pub mod Base
pub mod Failure
pub mod Queue
pub mod Message
pub mod Aggregate
pub mod Cache
pub mod Registry
pub mod AsyncMap
pub mod Observable
pub mod Publisher
pub mod Store
pub mod Saga
pub mod Bus
pub mod Typeorm
pub mod Redis
pub mod Rabbit
pub mod Wiring
pub mod Node
pub mod Demo
pub mod Tests
