-- ===== src/Tester/Interface.antt =====
-- tester/tester.go: the interface that is tested, and how a test ends. A method of an implementation
-- may change its state, so each gives the state that it leaves.
use nopfs.Prelude.{Bool, Option, Bytes, Error, Result, if◌then◌else◌}
use nopfs.Prelude.GoMap.{GoMap}
use nopfs.Libs.{Cid, IpfsPath}

-- `Header`.
pub record TestHeader : Type 0 where
  pub name : Bytes
  pub hints : GoMap Bytes Bytes

-- `Blocker`, with its state. A reader is what it reads.
pub record TestBlocker (State : Type 0) : Type 0 where
  pub read_header : Bytes → State → Result TestHeader × State
  pub read_denylist : Bytes → State → Option Error × State
  pub is_path_blocked : IpfsPath → State → Bool × State
  pub is_cid_blocked : Cid → State → Bool × State

-- The errors of the tests, with what their texts show.
pub data Failure : Type 0 where
  header_unparsed : Failure
  header_wrong : Failure
  hints_wrong : Failure
  separator_unparsed : Error → Failure
  denylist_unread : Error → Failure
  path_unparsed : Error → Failure
  cid_should_be_blocked : Bytes → Bytes → Bytes → Failure
  cid_should_not_be_blocked : Bytes → Bytes → Bytes → Failure
  path_should_be_blocked : Bytes → Bytes → Bytes → Failure
  path_should_be_allowed : Bytes → Bytes → Bytes → Failure

-- A test returns nil or an error, or `cid.MustParse` panics.
pub data Tested : Type 0 where
  passed : Tested
  failed : Failure → Tested
  panicked : Tested

abbrev pub Test : Type 0 → Type 0
Test State = State → Tested × State

abbrev pub pass : {S : Type 0} → Test S
pass s = (passed, s)

abbrev pub fail : {S : Type 0} → Failure → Test S
fail failure s = (failed failure, s)

abbrev pub unless_failed : {S : Type 0} → Tested × S → Test S → Tested × S
unless_failed (passed, s) next = next s
unless_failed (failed failure, s) next = (failed failure, s)
unless_failed (panicked, s) next = (panicked, s)

-- `if err := test(); err != nil { return err }`, then the next.
infixr 4 ◌>>◌
abbrev pub ◌>>◌ : {S : Type 0} → Test S → Test S → Test S
(test >> next) s = unless_failed (test s) next

-- A test that the suite may leave out.
abbrev pub enabled : {S : Type 0} → Bool → Test S → Test S
enabled on test = if on then test else pass
