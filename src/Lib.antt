-- ===== src/Lib.antt =====
-- conductor-ros: a verification library of the runtime's core.
--
-- An application of the Go package conductor is a set of nodes. Each node has a lifecycle, which
-- decides when it works, and may have a mission, a task machine that runs while the node is
-- Active; nodes exchange messages over a transport, which serialises them by CDR where they leave
-- the process. The application brings its nodes up in the order of their dependencies.
--
-- Prelude: Boolean tests, lists, texts, signed integers over the native numbers, and sets of names.
--
-- Cdr (cdr/cdr.go): Marshal and Unmarshal. Cdr.Types has the types and values that reflection
--   shows them, Cdr.Wire the encoder's and the decoder's primitives (encoder.align, u16, u32, u64;
--   alignAndNeed and the reads), Cdr.Encode encoder.value, Cdr.Decode decoder.value; an out of
--   range access is the result `panics` of Cdr.Result. Words are written and read modulo their
--   width; a float32 goes through a float64, which quiets a signalling NaN. Decoding is by
--   recursion on the type; the length of a slice is the wire's.
--
-- Lifecycle (lifecycle.go, lifecycle_wire.go): Lifecycle.States has the states, the transition
--   table and what is read off it; Lifecycle.Machine transition in its two critical sections with
--   the hook between them, and its effects (work functions, gauge, counter, event);
--   Lifecycle.Services the four ROS services. Lifecycle.Serial has transitions of concurrent
--   callers as a step relation, with a node that quits while a hook runs. The hooks' bodies are
--   the application's: what a call of one comes to is a parameter of each transition.
--
-- Bringup (bringup.go): BringupOrder. Bringup.Deps fills the edges, Bringup.Kahn is the loop, with
--   fuel for as many rounds as there are nodes: each round takes a node that is not done. Go's
--   maps and sets are functions and lists; sort.Slice is an insertion sort.
--
-- App (run.go): bringUp and shutDown over the lifecycles of the nodes by name, in the order of
--   Bringup.
--
-- Mission (mission.go): Mission.Wire is wireMission, Mission.Run the loop of a mission
--   (missionRunner.run, runStep, enter, finish, setErr) by recursion on what happens around each
--   round: whether the context is canceled before it, while the handler runs or while a retry
--   waits, whether the deadline of the step passes, and what the handler returns. A run that has
--   used up its inputs stands at the head of the loop. The runner's state has a log of the
--   handlers called. Mission.Count is parseCount, on 64-bit words; Mission.Binding is Step.bind and
--   Mission.bind, over the tags of a node's fields.
--
-- Bus (bus.go, qos.go, transport.go): Bus.Inproc has the in-process transport, its histories and
--   servers; a deliver function is a number, and the log of deliveries is part of the state.
--   Bus.Race has the deliveries of concurrent callers, which come after the lock is released, as a
--   step relation.
--
-- Clock (clock.go): Clock.Sim has the simulated clock with its waiters and their channels. Times
--   and durations are natural numbers of nanoseconds.
--
-- Node (node.go): Node.Executor has a node's mailbox and the rounds of the goroutine that drains
--   it. Where `select` could take either of two channels, a parameter says which; a function that
--   is enqueued is a number.
--
-- Graph (internal/graph, over the structs of internal/scan/scan.go): Graph.Scan has the scanned
--   application, Graph.Build is Build over Graph.Channels (Topic, Service, ActionName),
--   Graph.Checks the checks of one node, Graph.Missions and Graph.Machines mission.go
--   (validateMissions, machines, markReachable), Graph.Stacks lifecycle.go and groups.go (and
--   group.go), Graph.Frames frames.go, Graph.Pairs the checks of one topic, service or action,
--   Graph.Validate Validate, Graph.Order the static BringupOrder. Graph.Std names what the checks
--   ask of Go's standard parsers, which is an argument. An issue is its severity, code and place;
--   the texts are not modelled. A Go map that is read in sorted order is a list that insertion
--   keeps sorted. The walk of markReachable has fuel for one call more than there are steps, since
--   each call of depth marks a step; the loop of BringupOrder has fuel for a round for each node.
--
-- Frames (frames.go): Frames.Tree has the declared transforms and Lookup's breadth-first search
--   (Has, path, Lookup, Connects), with fuel for two steps more than the transforms have ends,
--   since each step of the queue is of a frame that was not seen before; Frames.Shape has Frames,
--   Roots, Published and Check, whose walk has fuel for one step more than the transforms have
--   ends. A transform has its pose in place of the numbers of frames.json; what composes and
--   inverts poses is a parameter.
--
-- Action (action.go, action_wire.go): Action.Server has the server of one action, with its goals as
--   indices into its records, as Go's map holds pointers; a goal id is a number, 0 the zero UUID.
--   Each critical section (handleSendGoal, the end of a goal's goroutine, the cancellation of its
--   context, the timer that forgets it, handleCancel, the read of handleGetResult) is a function,
--   and Action.Steps the relation in which they interleave. A wait for a result is
--   `none`; handle_get_result is its look-up and its read with no section of another between.
--
-- Not modelled: reflection, logs, metrics, spans and time stamps, which do not decide what the
-- modelled code does; parameters, the TF fields of nodes, the clients of actions and the scanner,
-- which are components of their own; servers, processes and the networked transports, which are
-- input and output.
mod Prelude
pub mod Cdr
pub mod Lifecycle
pub mod Bringup
pub mod Mission
pub mod App
pub mod Bus
pub mod Clock
pub mod Node
pub mod Frames
pub mod Graph
pub mod Action
