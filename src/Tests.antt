-- ===== src/Tests.antt =====
-- Concrete inputs: instances of the parameters, the theorems applied to them, and runs.
mod ToyWire
mod EsTests
mod SqliteTests
mod RefinementTests
mod OutboxTests
mod AggregateTests
mod ProjectionTests
mod ExampleTests
mod JournalTests
mod WorkflowTests
mod ShredTests
mod ProcessedTests
