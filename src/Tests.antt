-- ===== src/Tests.antt =====
-- Concrete inputs: what the definitions compute on them, and that the theorems apply to them.
mod Codec
mod Sample
mod Queue
mod Aggregate
mod Observable
mod Publisher
mod Store
mod Saga
mod Bus
mod Buses
mod Typeorm
mod Redis
mod Rabbit
mod Demo
mod Registry
mod AsyncMap
mod EventTable
mod Wiring
mod Node
mod ReadSide
mod Mixin
mod Gateway
mod Shelf
