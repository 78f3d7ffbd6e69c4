-- ===== src/Lib.antt =====
-- Let's Chat, the desktop and web client: the state that it keeps and the logic that changes it. The
-- client is a set of zustand stores (src/stores), which components read and actions change, and the
-- code that feeds them: the rebuild of the stores from the tables of the connection, and the handlers of
-- its live rows (src/lib/spacetimedb), which also ask for notifications (src/lib/notifications.ts).
--
-- A store is a record or a dictionary, an action a function on it by clauses, and a JavaScript object or
-- Map an association list that keeps the order of first insertion (`Dict`). Ids, counts and times of the
-- clock are natural numbers of any size; the source's are numbers below 2^53. Identities, tokens and
-- timestamps are strings; a text that is cut or matched by position is the list of its UTF-16 units. A
-- sort is the stable sort by the source's comparator. No definition needs fuel: every loop of the source
-- that is modelled runs over a list.
--
-- The files, with the code that each models:
-- - Common and its children: Boolean tests and keys (Tests), dictionaries (Dicts), lists (Lists), the
--   stable sort (Sorting), `trim`, `normalizeIdentity` and UTF-16 units (Text).
-- - Domain: the rows of src/types/domain.ts.
-- - History: `mergeHistory` and the upsert by id, which src/stores/messagesStore.ts and
--   src/stores/dmStore.ts both declare. History.Merge says what a merge holds, History.Order its order.
-- - Messages: src/stores/messagesStore.ts, `setChannelMessages`, `prependOlderMessages` and
--   `appendMessage`. Messages.Views has the view of each channel after an action, Messages.Invariant the
--   distinct ids.
-- - Dm: src/stores/dmStore.ts, `setConversation`, `prependOlderMessages` and `appendMessage`.
-- - Config: src/stores/serverConfigStore.ts, the known hosts (`rememberHost`, `diffKnownHost`), the gate
--   in front of a connect (`requestConnect`, `resolvePendingHost`), `setConfig`, `clearConfig`,
--   `forgetHost` and what is persisted. `hostLabel` and the join link are not modelled.
-- - Ui: src/stores/uiStore.ts, all actions, and `getTotalUnreadCount` of src/lib/notifications.ts.
-- - Notifications: src/lib/notifications.ts, `notify` up to the native command, with the two module
--   variables `recentByDedupeKey` and `emittedAtTimestamps` as its state (`Emitted`), the clock and the
--   focus as an argument (`Moment`). Notifications.Decision has when something is shown,
--   Notifications.Limits the rate, Notifications.QuietHours the hours.
-- - Rosters: the stores that file rows under a server, a channel or a room: src/stores/channelsStore.ts,
--   voiceStore.ts, dmVoiceStore.ts, pinsStore.ts, membersStore.ts and invitesStore.ts.
-- - Sync: the rebuilds by groups of src/lib/spacetimedb/sync.ts (`syncServers`, `syncChannels`,
--   `syncMembers`, `syncMessages`, `syncPins`, `syncDirectMessages` and those of the call rosters), over
--   the actions of Messages, Dm and Rosters. Sync.Groups has one theorem for all of them, which Sync.Views
--   applies to each store.
-- - Rail: src/stores/serverRailStore.ts, and in Rail.Drag the end of a drag on the rail and the flat list
--   that it works on, of src/layouts/app-layout/AppRail.tsx. Rail.Shown has the servers that the rail
--   shows after a sync, Rail.Moves after each action on groups, Rail.Placed after any run of them;
--   Rail.Drag.Grouping and Rail.Drag.Moving have them after a drop, by way of Rail.Drag.Sorting and
--   Rail.Drag.Settled, the two loops of `flatToHierarchical`.
-- - Refresh: the coalesced rebuilds of src/lib/spacetimedb/events.ts (`scheduleRefresh`,
--   `flushRefreshes`, `cancelPendingRefreshes`), with the timers that `setTimeout` and `clearTimeout`
--   leave at the host; Refresh.Bursts has the flush after a burst, Refresh.Timers the timer.
-- - Incoming: `handleIncomingMessage` and `handleIncomingDirectMessage` of the same file, which read the
--   stores and end in a call of `notify`; Incoming.Silence puts them together with Ui and Notifications.
-- - Activity: src/stores/readStore.ts, typingStore.ts and presenceStore.ts. Activity.Reads has the read
--   cursors, Activity.Typing the entries that run out.
-- - Directory: src/stores/usersStore.ts, selfStore.ts, serversStore.ts and dmServerInvitesStore.ts, with
--   Directory.Lookups for what their lookups find.
-- - Unread: `recomputeUnreadStateFromReadCursors` of src/lib/spacetimedb/sync.ts with `dmReadScopeKey` of
--   mappers.ts, which fills the counters of Ui from Messages and Dm.
-- - Connection: src/lib/spacetimedb/connection.ts with src/stores/connectionStore.ts. The state is the
--   store, the variables of the module, the sockets that were opened and the attempts that wait for one
--   (`Client`); an attempt is `connect`, cut at its `await`s (Connection.Attempts), and the callbacks of
--   the SDK, the timers and the calls of the program are the events of a run (Connection.Events).
--   Connection.Candidates has the URIs, Connection.Lifecycle the heartbeat and the sign-out,
--   Connection.Handlers what every event
--   keeps, Connection.Ages and Connection.Stale what a sign-out stops, Connection.Settling that an attempt ends, Connection.Backoff
--   the delays, Connection.Leaks and Connection.Overlaps what an old socket or attempt does to the new one.
-- - Composer: src/stores/composerStore.ts and the task of src/features/chat/submitComposer.ts, cut at its
--   `await`s: between two of them anything may happen to the store, so each step takes the store that it
--   finds. Composer.Tasks has what a stale task may not do, Composer.Outcomes how a task ends,
--   Composer.Files what it sends, Composer.Sends the numbers of the sends of a run, with Composer.Sends.Running
--   and Composer.Sends.Once for what keeps a second send out.
--
-- What the code takes from its host is a parameter: `to_lower` (`toLowerCase`), `locale_compare`
-- (`localeCompare`), `date_parse` (`Date.parse`), `to_text` (the decimal text of a number), `json_parse`
-- (the fields of a call's system message, its duration rounded), `parse` and `rehost` (the URL parser),
-- the settings of the connection (`Environment`), `array_move` (of the drag library), and the types of
-- files, attachments and upload shares (`Host`).
--
-- Not modelled: the other stores (friends, discovery, join requests, session, media devices, video
-- player), the paging of the history, calls and media, routes and settings; React components, since they
-- only show the stores, but for the drag on the rail; the generated bindings and the mapping of their
-- rows; requests to the services and native commands, which are input and output; and the parts of the
-- repository in other languages (the module of the server, the core service, the archive worker, the
-- native shell, the site).
pub mod Activity
pub mod Common
pub mod Composer
pub mod Config
pub mod Connection
pub mod Directory
pub mod Dm
pub mod Domain
pub mod History
pub mod Incoming
pub mod Messages
pub mod Notifications
pub mod Rail
pub mod Refresh
pub mod Rosters
pub mod Sync
pub mod Ui
pub mod Unread
