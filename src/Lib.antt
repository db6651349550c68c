-- ===== src/Lib.antt =====
-- A model of the engine of ESBT-web: a replicated text as a sequence of identifiers in an extended
-- Stern–Brocot tree.
--
-- The parts and how they interact. An identifier (`Weight`) is a fraction, a sequence number, a
-- path of digits and the site that made it; the document is ordered by it. The allocator makes an
-- identifier between two neighbours: from the mediant of their fractions, else from sequence
-- numbers that its tracker hands out, else from a path of NEWSEQ. An operation carries an
-- identifier, its origin and the number that the origin gave it; an update is a canonical batch of
-- operations. A `Version` summarises which of them were received. All of these have one binary
-- form, read under resource limits and put into one envelope.
--
-- - Error, Limits and Config: the codes of src/error.rs, the policy of src/limits.rs, and the
--   configurations of src/replica.rs (`ReplicaConfig`) and src/config.rs.
-- - Fraction, Weight and NewSeq: src/fraction.rs, src/weight.rs and src/newseq.rs. `Fraction.new`,
--   `mediant` and `cmp_rat`, `Weight.cmp` and `validate_document_identifier`, `choose`, `newseq`
--   and `newseq_unbounded` keep the names that they have there.
-- - Allocator: src/allocator.rs. `create_weight` takes the allocator's state and returns the weight
--   and the next state; `Allocator.Tracker` holds the tracker with its undo journal, and
--   `Allocator.Adaptive` the controller of `Dmax`.
-- - Clock: src/clock.rs. A `Version` is an association list in ascending order of sites, as the
--   source's `BTreeMap`; a set of receipts is an ascending list. `Clock.Payload` is its binary
--   form.
-- - Codec: src/codec.rs. A read is a function from the reader to an error, or a value and the
--   reader behind it. `Codec.Reader.Reads` composes round trips from those of the parts.
-- - Op and Update: src/op.rs and src/update.rs, with the coalescing of visible edits in
--   `Update.VisibleEdit`.
-- - DocTree: src/rbtree.rs, the document as a red-black tree with sizes. The source links the nodes
--   of an array by index; the model has the subtree itself in the place of a link, and a list of
--   steps for the parent links. `DocTree.Delete` has the deletion, `DocTree.Sorted` the sorted list
--   of atoms that the tree stands for.
-- - Replica: src/replica.rs. `Replica.Pending` is the queue, `Replica.Drain` the loop that applies
--   what is causally ready, `Replica.Receive` the import of operations, `Replica.Local` the
--   replica's own operations and transactions, `Replica.Snapshot` compact snapshots and their
--   merge. An operation takes the replica and returns the next one. A hash map is a list of entries
--   (`Base.Table`), in an order that nothing depends on.
-- - Anchor: src/anchor.rs. `encode_anchor` and `decode_anchor` are the payload functions of
--   `Anchor`.
-- - Wire: src/wire.rs, the envelope around a payload.
-- - Base: integers, orders, sets and maps over the native numbers; Examples: the theorems at
--   concrete inputs, and tests.
--
-- Numbers. Signed fields are integers with the saturating operations of `i64` written out, unsigned
-- ones natural numbers with their limits written out; `usize` has 64 bits. Products in `i128` are
-- exact. What panics in the source is `none` where it can occur. Three extremes are not followed,
-- each with a comment at its definition: `Fraction.new` at the smallest `i64`, `site_digit` of a
-- base below 2, and the saturation of `usize` in `index_of`.
--
-- Fuel. `gcd` runs for one round more than its second argument, and its remainders shrink; `absorb`
-- for as many rounds as the set has numbers, each of which it takes out; `uvarint` for its ten
-- rounds; the walks of NEWSEQ for the rounds that the source's own limits give; the passes of a
-- drain for one more than the queue has operations; the search for a weight for the attempts that
-- the source allows. So no bound cuts a computation short.
--
-- Not modelled. src/document.rs, src/orderkey.rs, and of src/snapshot.rs all but the records; of
-- src/anchor.rs the causal positions; of src/replica.rs the projection of an admission and the
-- state hash; of src/update.rs the payload codec and the receipts of an application, of
-- src/clock.rs the projection of notes, of src/wire.rs the choice among the payload decoders.
-- src/component.rs is binding glue, src/bin/esbt-inspect.rs the front end of a tool, src/verify.rs
-- a test suite.
pub mod Base
pub mod Error
pub mod Fraction
pub mod Clock
pub mod Weight
pub mod NewSeq
pub mod Codec
pub mod Limits
pub mod Allocator
pub mod Op
pub mod Update
pub mod Config
pub mod DocTree
pub mod Replica
pub mod Anchor
pub mod Wire
pub mod Examples
