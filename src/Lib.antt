-- ===== src/Lib.antt =====
-- vmcell: a manager of disposable virtual-machine cells on one host.
--
-- The program keeps a durable record for each cell (src/core, src/state), drives a provider of
-- virtual machines (src/providers) through an engine that acts only on what it can prove to be
-- its own (src/engine), runs operations in the guest over a transport (src/guest), and picks the
-- provider, accelerator and transport of a run from a table of supported combinations
-- (src/core/support.rs, src/core/run_selection.rs).
--
-- Which file models what:
--   Prelude: native numbers, strings, lists, `Result` with `?`, and `==` by an instance.
--   Platform: the enums of src/core/support.rs and src/core/image.rs with their texts and ranks.
--   Image, Capability: src/core/image.rs and src/core/capability.rs.
--   Support: SUPPORT_MATRIX, validate_support_matrix and support_for of src/core/support.rs
--     (Matrix), the order of keys (Order), what the validator accepts (Validated) and what a
--     lookup gives (Lookup).
--   Selection: src/core/run_selection.rs. Types, the checks of the probes (Probes),
--     resolve_run_execution_plan with its loops as recursive functions over the loop's variables
--     (Resolve), revalidate_run_execution_plan (Revalidate); the proofs follow a candidate through
--     the loops (Justified, Kept), through the choice of the best (Ranked), to the plan (Chosen) and
--     to its revalidation (Agreement).
--   Host: UUIDs, paths and texts, which libraries and the platform compare and print.
--   Cell: the records of src/core/cell.rs and src/core/ownership.rs; validate_transition of
--     src/core/lifecycle.rs (Transitions).
--   Provider: the data and the trait of src/providers/mod.rs, ProviderProbe::normalized
--     (Normalized), the checks of ProviderMutationAuthority (Authority).
--   Guest: the records of src/core/guest.rs; their schema in src/state/mod.rs (Schema), the
--     changes that the engine makes to them (Changes), run_guest_operation from the recorded
--     intent on, with the checked write (Run), reconcile_guest_operation (Recovery), and proofs
--     (Saved, Described, Outcome, Delivered with Artifact and Masked, Recovery/Reported and
--     Recovery/Settled, Artifacts).
--   Program: the calls of the engine's methods to the provider, the files of the state store and
--     the clock, and a method as a tree that branches on each answer; what holds on every path,
--     and that it holds of a run on any platform (Logic); the paths of a program (Paths); a run that
--     succeeds (Yields).
--   Job: the identity of a job's run in src/core/job.rs, with times in nanoseconds, and that it fits
--     the store's checks (Bound).
--   Store: the schema, redaction and job ids of cell records in src/state/mod.rs, their load and
--     save (Files), and proofs (Redacted, Unique).
--   Lifecycle: the methods of CellEngine in src/engine/mod.rs: start_cell and stop_cell (Power),
--     destroy_cell_locked (Destroy), gc_expired_at (Collect), create_cell_with_id (Create),
--     reconcile_record and inspect_cell (Reconcile). What the calls made so far tell (Known), when
--     a call is permitted (Permits, with a lemma for each kind of step in Steps, for the store in
--     Stored, and on runs in Runs); a platform on which nothing fails (Single); the proofs stand
--     below each method.
--   Engine: errors and durable_error_code (Errors), validate_cell_spec (Request), prove_ownership,
--     prove_creation_identity, prove_destroy_identity and validate_local_ownership_record of
--     src/engine/mod.rs (Identity), and proofs (Proven, Local, Accepted).
--
-- A UUID and a time are numbers, a path is a text. Paths are compared as the program does outside
-- Windows; the comparisons that it makes on Windows are not modelled. What the platform decides
-- is a parameter: how UUIDs are printed and parsed, how paths are joined and compared, the
-- outcome of each write of a guest operation, the clock, and what a transport's action yields.
-- The texts inside errors are left out. Loops are structural recursion; no definition runs on
-- fuel. Widths matter in one place, the checked sum of artifact sizes, where 2 ^ 64 is written
-- out.
--
-- A lifecycle method is a finite tree of calls: it has no loop but that over the listed cells. Each
-- call may answer anything, also on a second read of the same file, so that other processes and
-- failures are covered. The verification of a registered image (verify_registered_image), the
-- installation file and the runtime directories are calls too. What is permitted reads the
-- answers only.
--
-- Not modelled: the registration of images, run_cell and its cleanup, the plans and specifications
-- of jobs and their receipts, the locks and atomic files of the state store, the providers and the
-- guest transports themselves, which drive external programs, and the command line.
pub mod Prelude
pub mod Platform
pub mod Image
pub mod Capability
pub mod Support
pub mod Selection
pub mod Host
pub mod Job
pub mod Cell
pub mod Provider
pub mod Guest
pub mod Store
pub mod Lifecycle
pub mod Engine
pub mod Program
