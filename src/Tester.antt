-- ===== src/Tester.antt =====
-- tester/tester.go: the test suite for implementations of a blocker. Interface holds what is tested
-- and how a test ends, Checks the tests of lists of paths and CIDs, Cases and DoubleHashes the tests
-- of the suite, Suite the run of them, Passing and
-- Running when they pass.
pub mod Interface
pub mod Checks
pub mod Cases
pub mod DoubleHashes
pub mod Suite
pub mod Sequences
pub mod Passing
pub mod Running
