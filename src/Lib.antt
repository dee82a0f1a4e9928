-- ===== src/Lib.antt =====
-- OctoSQL: the values, their sorted encoding, the relations and formulas of queries, the deques of the
-- storage, the rewriting of filters, and the aggregates and triggers of GROUP BY.
--
-- The program reads records of dynamically typed values (values.go) from its data sources and runs
-- them through a plan of streams. Filters evaluate formulas (execution/logic.go) over relations
-- (execution/relation.go) between values. Grouping keeps the state of its aggregates
-- (execution/aggregates) and of its triggers (execution/trigger) in a key-value storage (storage),
-- whose keys are values in a byte encoding that sorts as the values do (sorted_keys.go).
--
-- Base        shared helpers: tests, lists and bytes, the outcome of a Go call that returns a value
--             and an error, int64 as 64-bit words with their wrap-around (Base/Int), the order of byte
--             strings (Base/ByteOrder).
-- Value       values.go: `Value`, `Type` and `GetType` (Value/Types), `Compare` (Value/Comparing), its
--             theorems (Value/Order), and equality of contents (Value/Equality). The check of a time
--             by protobuf, without which `AsTime` ends the process, is the parameter `valid_time`.
--             Ints and durations are 64-bit words, floats their IEEE bits, times their Unix seconds
--             and nanoseconds, strings and map keys lists of bytes, and a Go map the list of its
--             entries.
-- SortedKeys  sorted_keys.go: `monotonicMarshal` and `ReversedMonotonicMarshal` (SortedKeys/Encode),
--             `MonotonicUnmarshal` (SortedKeys/Decode), and the proofs: SortedKeys/Order on the order
--             of encodings, SortedKeys/RoundTrip, SortedKeys/Fuel on termination. The decoder's
--             recursion runs on fuel, of 2 * n + 1 for n bytes: every element costs at most two calls
--             and at least one byte. An index or a slice out of range is a panic. The check of a time
--             by protobuf (`TimestampProto`) is again `valid_time`.
-- Expression  execution/relation.go (Expression/Relation, and Expression/Like for the patterns of
--             LIKE) and execution/logic.go (Expression/Formula), with theorems in Expression/Laws and
--             Expression/Patterns. protobuf's equality, its check of a time and Go's regular
--             expressions are the parameter `Libraries`. The special characters of patterns are ASCII,
--             so a pattern in UTF-8 can be read by bytes as well as by characters.
-- Storage     storage/value_state.go and storage/map.go over a transaction of Badger and protobuf's
--             encoding, both parameters (Storage/Maps, Storage/MapLaws). For the aggregates and
--             triggers, their clients: operations that may fail (`StorageOps`), iterators
--             (`IteratorOps`), the laws of a store without failures (`StorageLaws`), value states that
--             hold a word (Storage/Cells), and a store in memory (Storage/Memory). storage/deque.go is
--             Storage/Deque, and what the storage holds for a deque Storage/Deque/Slots, the
--             operations on that Storage/Deque/Machine, how the slots hold a list Storage/Deque/Lists
--             and Storage/Deque/Clear, and the answers of a deque Storage/Deque/Refine. The loop of
--             `Clear` runs on fuel, one more than the distance of the two spots, which it makes
--             smaller in every round.
-- Physical    the names of variables.go (Physical/Names), the expressions, formulas and nodes of
--             physical that the optimizer rewrites (Physical/Nodes), the scenarios of
--             physical/optimizer (Physical/Optimizer), and which records pass filters, from
--             physical/logic.go and execution/filter.go (Physical/Meaning), with theorems in
--             Physical/OptimizerLaws and Physical/Partitions; Physical/Support says that a moved
--             filter is one that the source offers to apply. What expressions are materialized to,
--             what a data source delivers for a name, an alias, a partition and a filter, and what the
--             other nodes deliver, is the parameter `Execution`.
-- Aggregates  execution/aggregates: count.go and distinct.go (Aggregates/Counting), sum.go and avg.go
--             (Aggregates/Summing), key.go (Aggregates/Keys), min.go and max.go (Aggregates/Extremes),
--             each `AddValue`, `RetractValue` and `GetValue` over `StorageOps`, and their theorems
--             beside them. The arithmetic of floats is the parameter `FloatOps`.
-- Execution   execution: record.go (Execution/Records), and `AddRecord` and `Trigger` of group_by.go
--             over any aggregates (Execution/GroupBy): what a consumer of the output knows
--             (GroupBy/Outputs), one trigger (GroupBy/Consistency), and runs (GroupBy/Runs); and those
--             of distinct.go (Execution/Distinct), with what is counted (Distinct/Tally) and runs
--             (Distinct/Runs). proto.Equal and printing are the parameter `GroupLibraries`. The state
--             is that of one key; the prefix made of the key is left out. order_by.go is
--             Execution/OrderBy: how the key orders the records (OrderBy/OrderKey), the store
--             (OrderBy/Entries), what it holds after a run (OrderBy/Counted, OrderBy/Firsts,
--             OrderBy/Runs), and what is sent (OrderBy/Sent, OrderBy/Sorted). stream_join.go is
--             Execution/StreamJoin, with the records that a trigger sends (StreamJoin/Pairs) and which
--             they are (StreamJoin/PairLaws). What its sets and counts hold is StreamJoin/Kept, over
--             the encoding of records (StreamJoin/Shapes) and the laws of a store (StreamJoin/Sets);
--             that records keep it is StreamJoin/Counts, StreamJoin/Changing and StreamJoin/Adding,
--             that triggers do StreamJoin/Reading, StreamJoin/Moves and StreamJoin/Triggering, and
--             runs are StreamJoin/Runs. The multisets of storage/set.go are `JoinStorage`, with the
--             laws `JoinLaws` of values without NaN, -0 and maps: those protobuf compares and
--             serializes by their contents. tvf/range.go is Execution/Range, with Execution/RangeLaws
--             on what it yields.
-- Triggers    execution/trigger: counting.go (Triggers/Counting), of timesortedkeys.go the operations
--             that change state (Triggers/TimeSortedKeys) and those that read, with delay.go and
--             watermark.go over them (Triggers/TimeTriggers), and the theorems on what the two time
--             triggers send (Triggers/TimeTriggersLaws, Triggers/WatermarkLaws).
-- Functions   execution/functions: validators.go (Functions/Validators), the functions of functions.go
--             on numbers (Functions/Numbers), on texts and tuples (Functions/Sequences and
--             Functions/Strings, over Functions/Texts) and the others (Functions/Operators), table.go
--             (Functions/Table), and a call of a function, of execution/function.go
--             (Functions/Function). Floats and parts of Go's library are the parameter
--             `FunctionLibraries`, and a random number or the time is what the call draws.
--             `log.Fatalf` is a panic. Which arguments end the process is described in
--             Functions/Crashes and proved in Functions/Shapes, Functions/Panics, Functions/Units and
--             Functions/Safety; Functions/TupleLaws and Functions/LeastLaws are on what is answered.
--
-- Wrapped error messages are left out: an error is the reason by which the code tells it apart. Not
-- modelled: the parser, which is third-party code, the data sources, output, configuration and
-- start-up, which are input and output; the iterators of Badger and sets, the other aggregates and
-- triggers, the other streams, the engine, the logical plan, and the other nodes of the
-- physical plan.
pub mod Base
pub mod Value
pub mod SortedKeys
pub mod Expression
pub mod Storage
pub mod Aggregates
pub mod Triggers
pub mod Execution
pub mod Functions
pub mod Physical
