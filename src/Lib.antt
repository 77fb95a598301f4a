-- ===== src/Lib.antt =====
-- VanillaBus is a desktop CAN analyser: an engine process reads the buses, and an Electron
-- application shows the traffic. This library models the application's own logic, which is
-- TypeScript.
--
-- How the parts interact. `EngineSupervisor` spawns the engine, connects an `EngineClient` to it over
-- a socket and starts over when the engine goes. The client cuts the engine's messages out of the
-- byte stream (`FrameDecoder.push` of electron/main/framing.ts) and matches answers to its requests.
-- The renderer asks for requests through the IPC bridge, which checks them first. A batch of frames passes the
-- validators of shared/engine.ts (`parseRxBatch`) on its way to the renderer, where the Trace view
-- appends it to a ring of the newest 20,000 frames and the Graph view decimates its signals into
-- bounded series. What the user chose is kept in a snapshot that the main process writes to disk and
-- sanitizes when it reads it back.
--
-- Which file models what:
--   Prelude          shared helpers: lists and integers over the native numbers, strings as lists of
--                    UTF-16 code units, association lists for `Map` and plain objects
--   Engine.Value     `unknown` values and doubles, as far as the code tells them apart
--   Engine.Types     the types of shared/engine.ts
--   Engine.Parse     parseFrameEvent, parseRxBatch, parseDbcCatalog; Engine.Parse.Sound and
--                    Engine.Parse.RoundTrip are about them
--   Framing          encodeMessage and FrameDecoder of electron/main/framing.ts
--   Trace.Ring       FrameRing of shared/traceRing.ts, over any type of frame
--   Trace.Format     shared/traceFormat.ts: the identifier, data and name columns
--   Trace.Filter     shared/traceFilter.ts
--   Trace.Paint      paintVisibleWindow of shared/tracePaint.ts
--   Trace.Model      useTraceModel.ts of electron/renderer/src/trace with shared/traceControl.ts: a record for
--                    the React state, a step for each callback
--   Graph.Window     shared/graphWindow.ts
--   Graph.Decimate   shared/graphDecimate.ts
--   Graph.Catalog    shared/graphKeys.ts and shared/graphCatalog.ts
--   Graph.Buffer     SeriesBuffer of shared/graphStore.ts
--   Graph.Store      GraphStore of shared/graphStore.ts: its state and the methods that set it up
--   Graph.Ingest     appendBatch with ingestFrame and the evictions, liveRate and the resets
--   Graph.Calls      the calls on a GraphStore as one step function
--   Graph.View       useGraphModel.ts of electron/renderer/src/graph
--   Persist          shared/persist.ts: the types and limits; Persist.Sanitize has sanitizePersist,
--                    Persist.Hints the functions on remembered buses, Persist.Build
--                    jobsToDefinitions and buildPersistSnapshot
--   Transmit         shared/txFormat.ts; Transmit.State and Transmit.Model have useTransmitModel.ts of
--                    electron/renderer/src/transmit
--   Client           EngineClient of electron/main/engineClient.ts: Client.State has its state and the
--                    effects of its steps, Client.Dispatch the messages it gets, Client.Requests the
--                    requests it makes; a step for each method call, socket event and timer
--   Supervisor       EngineSupervisor of electron/main/engineSupervisor.ts: Supervisor.State has its
--                    state, Supervisor.Launch what `launch` does between its awaits; a step for each
--                    event, and the states that can be reached; Supervisor.Payload, Supervisor.Answers
--                    and Supervisor.Calls have the requests to the engine
--   Bridge           electron/main/ipc-bridge.ts: Bridge.Requests has the validators of requests to
--                    transmit, Bridge.Handlers the handlers and broadcasts; with engineInfoFromStatus and
--                    connectionEventFromTransition of shared/engine.ts
--   Main             electron/main/userStore.ts (Main.UserStore), dbcBrowse.ts (Main.Browse) and
--                    enginePaths.ts (Main.Launch), over the host's files and paths (Main.Host)
--                    `IsFileSystem`, `ReadsBack` and `IsPaths` say what is asked of them
--   Buses            shared/multiBus.ts, and formatRememberedBusLabel of shared/persist.ts
-- Modules named Tests hold runs on concrete inputs.
--
-- Conventions. A class is a record, a method a function from the state to the state and its result;
-- an exception is `none` or a constructor of a result type. A `for` loop is structural recursion; an
-- early `return` or `continue` is a branch. The loop of `FrameDecoder.push` recurses on fuel, with the
-- length of the buffer as the amount: every round that goes on takes at least five bytes.
--
-- Bounds and simplifications. Time stamps of the Graph store and rates in Hz are whole numbers;
-- counters do not overflow, as doubles they are exact up to 2^53. Lower case is ASCII lower case.
-- A property named `__proto__` is dropped where the source assigns it to an object literal.
--
-- The runtime's JSON.parse and JSON.stringify are parameters (`JsonCodec`, `JsonText`), and so are the
-- file system and the paths of the host (`FileSystem`, `Paths`).
--
-- Events of the Electron side come in any order unless a relation says when they can: the client's
-- step function takes any event, the supervisor's `Reach` asks that the timer is set and that a launch
-- was made. The 40 attempts to connect are counted in the event that ends a pause.
--
-- Not modelled: React components and Electron glue (also the choice of the socket's path, which is a
-- row of calls of the file system), the time and rate columns of the Trace table (printed by Date and
-- toFixed), the deadline of a cyclic job and statistics, which are over doubles, and the engine,
-- which is Python.
pub mod Prelude
pub mod Engine
pub mod Trace
pub mod Framing
pub mod Graph
pub mod Persist
pub mod Transmit
pub mod Buses
pub mod Client
pub mod Supervisor
pub mod Bridge
pub mod Main
