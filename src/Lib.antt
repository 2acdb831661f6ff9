-- ===== src/Lib.antt =====
-- embyr-rs: the pure core of a server for the Firestore protocol.
--
-- A client's request names documents. The access-control core (crates/embyr-core/src/access_control)
-- finds the rule that binds the path, discovers which other documents the rule reads, and evaluates the
-- rule at the document; a query is checked without its documents, against its filter alone. A write
-- applies field transforms (crates/embyr-core/src/domain/field_transform.rs). Membership of an account
-- is guarded by roles (crates/embyr-core/src/admin/rbac.rs), and its usage by caps
-- (admin/billing.rs). A rules file is imported as a whole (access_control/rules_file.rs) and stored as the rules above. Before the
-- handlers stands a rate limiter (crates/embyr-server/src/middleware/rate_limit.rs).
--
-- The files:
-- - Base and its children: tests, lists, results, integers, text and maps that the rest shares.
-- - Domain/FieldValue, Domain/Query, Domain/Error: FieldValue, the filters, documents and errors of
--   crates/embyr-core/src/domain and crates/embyr-core/src/error.rs.
-- - Domain/FieldTransform: apply_field_transform. A transform returns the new fields.
-- - AccessControl/Syntax, Resolve, Compare, Eval: Condition, resolve_field_value, compare_operands,
--   compare_relational, eval_bool and evaluate of access_control/mod.rs.
-- - AccessControl/Token, Scan, Tokenizer: Token, find_matching_paren, tokenize,
--   detect_unsupported_construct and parse_condition.
-- - AccessControl/PathTemplates, Operands, Parser: parse_path_template, word_to_operand and the methods
--   of Parser; Parser/Grammar states the grammar by itself.
-- - AccessControl/Discovery: discover_cross_document_paths.
-- - AccessControl/Compliance: check_query_compliance with decompose_decidable and
--   filter_binds_field_to_uid.
-- - AccessControl/PathRouting: literal_skeleton, structurally_overlap, bind_ancestor,
--   bind_recursive_prefix and classify_prefix_relation of access_control/path_routing.rs.
-- - AccessControl/RulesFile and its children: parse_rules_file and decompose of
--   access_control/rules_file.rs. Shell has the scans over the text, Functions the function blocks and
--   the expansion of their calls, Blocks the match blocks and their clauses, Segments the path patterns,
--   Rewrite the path variables, Decompose the targets; Import puts the two stages together.
-- - Admin/Rbac: check_rbac, and the rows that the handlers of
--   crates/embyr-server/src/admin/handlers/members.rs delete or update after it.
-- - Admin/Billing: the plans, statuses and caps of crates/embyr-core/src/admin/billing.rs.
-- - Middleware/RateLimit: the token buckets and the gate of
--   crates/embyr-server/src/middleware/rate_limit.rs. A check is a function of the clock's reading and
--   of what the database answers, if it does in time. Children: Invariant, Buckets, Burst and Wait, whose
--   records name the facts of f64 and of the clock that the theorems use. Middleware/RestGate is the
--   gate before the REST handlers.
-- - Tests: runs of the model, and the theorems at concrete inputs.
--
-- How the model stands to the code: a string is the list of its code points; i64 is an integer whose
-- sums wrap around where the code does not check them, as in a release build; f64 is a parameter of
-- which nothing is assumed unless a theorem says so; a map is an association list whose insertion
-- replaces; a user's or an account's identifier is a number. The position of the tokenizer and of the
-- parser is the list of what is left. Their loops run on fuel: the length of the text, one unit for each
-- turn, since every turn uses up a character; and four units a token and four more for the recursive
-- descent, which passes through four methods before it uses up a token. The loops over a rules file
-- run on the length of their text and one more; where the source would panic or a loop run out, the
-- model has a construct of its own. The text of an error is left out.
--
-- Not modelled: the requests' handlers, the database and its SQL, the network, cryptography and the
-- user interface, which do I/O around this core.
pub mod Base
pub mod Domain
pub mod AccessControl
pub mod Admin
pub mod Middleware
pub mod Tests
