-- ===== src/Observable.antt =====
-- The observables that moirae/core/lib/factories/observable.factory.ts hands out over one emitter.
pub mod Emitter
pub mod Distributor
pub mod StateTracker
pub mod Messenger
