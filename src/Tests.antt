-- ===== src/Tests.antt =====
-- Tests, and the theorems at concrete inputs.
mod Fixtures
mod KeysTests
mod WebhookTests
mod LoadgenTests
mod SystemTests
mod WorkersTests
mod ManagerTests
mod PairFixtures
mod MetadataFixtures
mod MemoryFixtures
mod MemoryTests
mod QuietTests
mod SchemeTests
mod ProgramTests
mod PodsTests
mod ControllerTests
