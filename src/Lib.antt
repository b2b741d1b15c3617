-- ===== src/Lib.antt =====
-- Congress: a policy service for OpenStack. Data services publish tables to each other over a
-- message bus, and the policy engine evaluates Datalog rules over the tables that it has received.
--
-- Dse.*: congress/dse2/data_service.py, the class DataService, both ends of reliable publish and
-- subscribe. Publishing gives each update of a table a sequence number and sends the difference
-- from the last published data; receiving hands updates on in the order of the numbers and keeps
-- those that come too early in a priority queue.
--   Dse/Receiver   receive_data_sequenced (dispatch, and receive_loop for its recursion) with
--                  set_seqnum, add_to_msg_queue, update_oldest_time (after_get) and
--                  process_queued_msg; _clear_msg_queue, _clear_receiver_seqnum; check_resub
--   Dse/Channel    the machine that one publisher and table should see; its order of processing
--                  (Order), its queue (Waiting) and what it has processed (Complete)
--   Dse/Refinement, Dse/Frame, Dse/Delivery, Dse/Arrival, Dse/Stall
--                  the receiver implements the channels, one by one, and what follows from it
--   Dse/Publisher  publish and get_last_published_data_with_seqnum; Replay is the subscriber's
--                  side of the differentials
-- Datalog.*: congress/datalog, the data structures under the evaluation of policies.
--   Datalog/FactSet     factset.py, FactSet: add, remove (remove_fact), create_index, remove_index,
--                       has_index, find; Index, Changes, Create, Find are about the indices
--   Datalog/ModalIndex  analysis.py, ModalIndex: add, remove (remove_one), modals, tables, __isub__,
--                       __iadd__, _clean_up; Counts, Subtract and Merge are
--                       about the counts; they may go below 0 in __isub__, until _clean_up
--   Datalog/Graph       utility.py, Graph: nodes, edges and stratification; Rounds is one round of
--                       its loop, Loop the loop, Stratify the result; Inversion has roots and
--                       _inverted_edge_graph, Roots and Inverted what they find
--   Datalog/BagGraph    utility.py, BagGraph: add_node, delete_node, add_edge, delete_edge and the
--                       counts; Counts is about nodes, Edges and Deletions about edges
--   Datalog/Tablename   compile.py, Tablename: Names is about full names, Updates about the signs
--                       of updates
--   Datalog/Schema      compile.py, Schema: update, revert, columns, arity, column_number; Insertions
--                       and Reverts are about the counts, Positions about column_number
--   Datalog/Networks    builtin.py, networks_overlap
--   Datalog/Formula     compile.py: Term (Variable and ObjectConstant), Literal and Rule with their
--                       operations; what they carry for messages only is left out
--   Datalog/Builtins    builtin.py, CongressBuiltinPred and CongressBuiltinCategoryMap: every operation
--                       but printing, mapequal and string_to_pred; Registered, Maps,
--                       Categories and Kept are about its invariant
--   Datalog/Reorder     compile.py, reorder_for_safety; State and Steps are about its local variables,
--                       Correct about its result
--   Datalog/Consistency, Datalog/Safety
--                       compile.py: literal_theory, literal_schema_consistency, rule_head_safety,
--                       rule_modal_safety, rule_body_safety, rule_errors, fact_errors and the like
--   Datalog/References  compile.py: Schema.column_name and
--                       Literal.eliminate_column_references_and_pad_positional; Positions, Padding
--                       and Columns say where the arguments go, Fresh is about new variables
--   Datalog/Database    database.py, Database with Proof, ProofCollection and DBTuple; Tuples is about
--                       one table, Modify and Update about events, Difference about __sub__
--   Datalog/RuleSet      ruleset.py, the facts and rules of each table: add_rule, discard_rule,
--                       contains, get_rules with its index; Contents is about the facts, Bodies
--                       about the rules, Entries about both, Changes about the operations
--   Datalog/Dependencies  compile.py, RuleDependencyGraph: formula_update, undo_changes,
--                       formula_nodes_edges; Modals, Growth and Counting are about the counts of a
--                       change, Undo about undoing
-- Dict, Sets, Prelude: Python's dict and sets over lists, and what all parts share. Tests: runs at
-- concrete inputs.
--
-- State and errors. A record holds the attributes that the modelled methods use. A method that
-- raises returns none, or none beside the state that it leaves. Calls that leave a service
-- (receive_data, publish_table_sequenced) are recorded in order.
-- Fuel. receive_loop stands for the recursion of receive_data_sequenced: each call but the first
-- takes a message off the queue, so that one more than the waiting messages is enough.
-- stratification runs its loop n * n + 1 times at most for n nodes: each round but the last raises
-- a stratum, and none is left above n.
-- Not from the repository: the order of payloads that breaks ties in Python's priority queue is a
-- parameter, and so is the text of the names Col0, Col1, … of new columns; a network of netaddr is read through its first and last address.
-- Not modelled: the message bus and its RPC, threads and locks, logging, HTTP, the SQL database,
-- the generated parsers, and so far unification, the evaluation of rules and the policy engine.
pub mod Prelude
pub mod Dict
pub mod Sets
pub mod Dse
pub mod Datalog
mod Tests
