-- ===== src/Lib.antt =====
-- Verification of the web shell: what the server keeps for a conversation, what it reads from git,
-- and what the browser shows of it.
--
-- Parts:
-- - Notify (server/notification-lifecycle.ts): NotificationLifecycle. The private field run is
--   Option Run; agentStart, agentEnd, abort, settled and reset are functions of it, and
--   Notify/Traces runs them in any order.
-- - Todos (server/todo-state.ts): ConversationTodos. Todos is its state; apply, replay, startRun
--   and endRun are functions of it. JSON.stringify of a task is a parameter.
-- - Snapshots (web/src/conversation-view.ts): cacheSnapshot, pruneSnapshots,
--   recentConversationIds, syntheticNewChat and sendBlocked. A Map is a list of entries in
--   insertion order (Base/Maps).
-- - Worktrees (server/worktrees.ts): parseWorktrees (Worktrees), branchSlug and validBranchName
--   (Worktrees/Names), removeWorktree (Worktrees/Git) and createWorktree (Worktrees/Create). git
--   is the parameter answer, node:path the parameter os; an operation returns its result with the
--   commands that ran.
-- - Terminals (server/terminals.ts): a TermEntry (Terminals), TerminalManager's calls
--   (Terminals/Manager) and the events of a shell (Terminals/Events). safeCwd and node-pty answer
--   through the argument Spawning; serial is the identity of an entry, so that a late event of a
--   replaced shell is told apart. Terminals/Pipes has splitTopLevelPipes, Terminals/Keys
--   encodeTerminalKey.
-- - Sync (server/agent-service.ts and web/src/use-chat.ts): emitSnapshotNow and emitSessionPreview
--   with the four fields that they keep, and the reducer's cases snapshot and snapshot_delta with
--   the cache of Snapshots, over JSON, in which a field that is undefined is absent.
--   buildLightState and buildPreviewState are arguments. Message objects are values of a type M,
--   compared by the source's ===.
-- - LazyWindow (web/src/lazy-window.ts): planWindow, applyPlan, pickAlways, estimateMessageHeight,
--   getPlaceholderHeight, recentStartIndex and contentFingerprint (LazyWindow/Fingerprint). A loop
--   from the end runs over the reversed list; a Set is a list of ids.
-- - Conversations (server/agent-service.ts): the map convs of a ClientSession with displaceActive,
--   isRetained, removeConversation and switchConversation. Whether the session streams and how
--   many terminals live are fields of a Conversation; the time of the switch is an argument;
--   runtime.dispose appends to a log.
-- - PromptHistory (web/src/prompt-history.ts): appendHistory, the loop of persist (fuel is the
--   length of the history and one more, which is enough since each retry drops at least one entry)
--   and pushPromptHistory. localStorage.setItem is the parameter set_item.
-- - MessageDelta (web/src/message-delta.ts): applyMessageDelta: extend_at is the branch that
--   replaces content[idx], apply_delta both branches.
-- - Service (server/agent-service.ts): AgentService: attach is the part of the method up to the
--   first await, settle is what runs when ClientSession.create ends. creations is a record of the
--   calls of create that have not failed.
-- - Queue (server/queue-utils.ts and server/agent-service.ts): removeFirstOccurrence and
--   removeQueued. The SDK's clearQueue, steer and followUp act on the record Queues; accepts says
--   which texts are taken back.
-- - Tabs (server/tabs.ts): OWNED, parseTabs, isTabAllowed and tabsRefusal, over the variable
--   PI_WEB_TABS as an argument.
-- - ClientState (server/client-state.ts): class ClientStateStore as its cache and what the file
--   holds; an object of the file is a list of entries, and writable says whether the file system
--   takes a write. The sweeps deleteProviderEverywhere and repointDeletedKeyEverywhere share
--   sweep_map. ClientState/Steps has the calls as a relation; ClientState/Settings merges and
--   reads the panel's settings with the fields of older files.
-- - Serialize (server/serialize.ts, server/session-preview.ts and server/agent-service.ts):
--   serializeMessage and its helpers over a message type with the SDK's roles (Serialize),
--   serializeCachedInto with the cache of numbers and objects (Serialize/Cache), and
--   resolveUserMessageEntryId, which reads an id back (Serialize/Resolve). A number is printed by
--   to_string, on fuel one more than the number, which bounds its digits.
-- - ToolManager (server/tool-manager.ts): the catalog of switchable tools, the toggles and the
--   replay over the SDK's active set, and the legacy switches.
-- - Scm (server/scm.ts): the parsers of git's output and scmStatus over the texts that git
--   returned. indexOf with slice is cut; a count is what git prints, digits or a dash.
-- - Workers (server/workers.ts and server/agent-service.ts): the hub of the active conversation
--   with the workers that the client follows, the timers that wait, the pushes that await a
--   transcript and what has been emitted. In the runs of Workers/Following the transcripts that
--   pushes await come in the order of the pushes, and the service is not disposed. A field of an
--   event with a wrong type is none; the live state and what transcript() returns are types of the
--   model.
-- - TextSniff (server/text-sniff.ts and web/src/code-lines.ts): the tests of a file's name and
--   bytes, the hex view, on fuel as many rows as bytes, and the line count; TextSniff/CodeLines
--   has splitCodeLines over a tree of text runs, elements and arrays.
--
-- Base holds the shared names: lists and texts over the native numbers, sets and maps in insertion
-- order, results with an error. Text is a list of UTF-16 code units; String is used where the program
-- only compares.
--
-- How the parts interact: the reducer of Sync stores what it shows in the cache of Snapshots; whether
-- a conversation is retained (Conversations) depends on the live terminals that its manager counts
-- (Terminals) and on its stream; Notify and Todos are fed by the same session events, Sync and
-- MessageDelta bring them to the browser, LazyWindow and PromptHistory live there. Service admits the
-- clients whose sessions own the conversations.
--
-- Bounds: numbers are natural numbers; the program's own are small counts and lengths, for which a
-- double is exact. Loops are structural except for the one of persist, on fuel.
--
-- Not modelled: the SDK's runtimes and everything asynchronous inside them, timers and the callbacks of
-- output watches, sockets, files and processes, the settings and provider registries, JSON parsing of
-- stored values, React components and styles. Calls of them are arguments or parameters of the
-- definitions that use them. The remaining pure parts have no model here.
mod Base
pub mod Notify
pub mod TextSniff
pub mod Todos
pub mod Snapshots
pub mod Workers
pub mod Worktrees
pub mod Terminals
pub mod Sync
pub mod LazyWindow
pub mod Conversations
pub mod PromptHistory
pub mod MessageDelta
pub mod Scm
pub mod Serialize
pub mod Service
pub mod Queue
pub mod Tabs
pub mod ToolManager
pub mod ClientState
