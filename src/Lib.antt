-- ===== src/Lib.antt =====
-- bteng is a behaviour tree engine. A tree of nodes is ticked from its root; each tick returns
-- RUNNING, SUCCESS or FAILURE, and a node that is RUNNING keeps its state for the next tick. The
-- nodes read and write blackboards, whose scopes form a tree of their own.
--
-- How the parts interact. TreeExecutor (bteng/core/executor.py) or BehaviorTreeEngine
-- (bteng/core/engine.py) ticks a Tree (bteng/core/tree.py), which first applies the modifications
-- that were queued for it. A tick of the root is TreeNode.execute_tick (bteng/core/node.py): it calls
-- the `tick` of the node's class (bteng/nodes), which calls execute_tick of the children, and `halt`
-- on those that have to stop. Leaves call the client's code. Ports lead to the blackboard
-- (bteng/blackboard/blackboard.py), and a write calls the subscribers of the scope, among them the
-- reactive nodes, which it marks as dirty.
--
-- Which file models what:
--   Prelude, Prelude/*      numbers, lists, dictionaries, shared lemmas
--   Value, Value/Numeral    NodeStatus and the Python values that ports and cells hold
--   Blackboard, Blackboard/* bteng/blackboard/blackboard.py: one scope (Blackboard), what follows
--                           the remapping (Scopes), schemas (Schema), then proofs
--   Node, Node/Children     the node classes as one data type, and the walks that only read
--   World, World/*          all that a tick reads and changes outside its node: the boards, the
--                           dirty flags, the clock's readings, what was recorded; the ports and hooks
--   Lifecycle               halt, reset_node and what Parallel does of them
--   Tick, Tick/*            the `tick` of each class, over children that are given by their
--                           execute_tick, one file for each class or family
--   Execute                 execute_tick, which ties these to each other on the whole tree
--   Orderly, Orderly/*      the invariant of ticks and halts, with its proofs
--   Tree, Tree/*            bteng/core/tree.py: the queue, the modifications, the lookups
--   Validation              bteng/core/validation.py
--   Executor, Executor/*    TreeExecutor of bteng/core/executor.py, EventBus its EventBus
--   Engine                  bteng/core/engine.py, and the CancellationToken of bteng/concurrency
--   AsyncAction, AsyncAction/* bteng/nodes/leaf/async_action.py, beside the trees: the node and its
--                           workers, and their steps in any order
--   Coro, Coro/*            bteng/nodes/leaf/coro_action.py on Bridge, which is
--                           bteng/concurrency/asyncio_bridge.py, with the loops' steps in any order
--   Builder, Builder/*      bteng/core/tree_builder.py: the stack of scopes (Builder, Names, Scopes), a
--                           client's calls (Calls), the tree they mean (Plan), then proofs
--   Factory, Factory/*      bteng/factory/factory.py: the registry, the built-in classes (Builtins), the
--                           singleton (Singleton) and plugins (Plugins), then proofs
--   Xml, Xml/*              bteng/xml_parser/parser.py: the document and its port models (Xml), texts
--                           (Text), ports and arguments (Attributes), _build_node (Build), the
--                           calls (Document), then proofs
--   Inspector, Inspector/*  bteng/introspection/inspector.py, and its operations in any order
--   Tracer, Tracer/*        bteng/logging/tracer.py: transitions and frames
--   ThreadPool, ThreadPool/* bteng/concurrency/thread_pool.py: the count of pending tasks, with the
--                           threads' steps in any order, and wait_all
--   Examples, Examples/*    concrete trees and boards, and runs of the theorems on them
--
-- How state is modelled. A node is a value: a tick gives the node that it leaves, an outcome (a
-- status, another object, or an exception) and a World. Operations of Python that change an object
-- return the changed one. Blackboards stand in one list of the World and are named by their place,
-- so that nodes share them. The client's code is a parameter, Host: at each call it may answer
-- anything, an exception included, write and remove blackboard keys, and leave a feedback message. Host also gives the readings
-- of the clock, and which subscribers the garbage collector has left.
--
-- Bounds and fuel. The recursion of a blackboard into its parents takes fuel, and the number of
-- scopes is enough, since a parent is created before its child. The loops of the executor and the
-- engine take fuel, and as much as the limit of ticks is enough; without a limit they may go on for
-- ever, and `none` stands for that. All other recursions are structural.
-- The recursion of the parser into the trees of other SubTree elements takes fuel, and the number of
-- trees in the document is enough, since its stack names none twice.
-- wait_all looks at the clock until a look finds the deadline passed, so as many looks are enough fuel.
--
-- Not modelled: locks (an operation is one step), concurrent.futures and asyncio behind the thread
-- pool and the bridge (what they do is a step), the loggers, the exports of the tracer and of the
-- factory, the XML library (its elements are the parser's input), the command line, the testing
-- helpers, and the timing metrics of nodes. Of the node() of the builder only leaf classes. A
-- float is a whole number of nanoseconds, and int() and float() read no blanks, underscores or
-- exponents. The texts of a document are ASCII, and a keyword in milliseconds or per second is
-- divided towards 0. The client's code in a tick does nothing else to the boards: it creates no scope
-- and subscribes to none. A subscriber's callback changes no blackboard, a client's on_halted returns,
-- and a blackboard key that is not a text raises. A coroutine node stands beside the trees, and in the
-- steps around it only bridges that own their loops are shut down. What the body of a plugin does is a
-- parameter. A decorator whose child is None is no node here:
-- where the parser returns one, its model stops with `childless`.
pub mod Prelude
pub mod Value
pub mod Blackboard
pub mod Node
pub mod World
pub mod Inspector
pub mod Tracer
pub mod ThreadPool
pub mod Lifecycle
pub mod Tick
pub mod Execute
pub mod Tree
pub mod Validation
pub mod Xml
pub mod EventBus
pub mod Executor
pub mod Builder
pub mod Factory
pub mod Engine
pub mod AsyncAction
pub mod Bridge
pub mod Coro
pub mod Orderly
pub mod Examples
