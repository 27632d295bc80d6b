-- ===== src/Lib.antt =====
-- The client of GPT Protocol: the stores of gpt_frontend, which hold a user's session, the chats,
-- and the streams of the jobs that answer them.
--
-- The parts, and how they interact. The session (store/authStore) signs a user in, finds or
-- registers the canister of the user, and opens the vault, whose key decrypts the chats. The chats
-- (store/chatStore) are one state with many actions: setters, the list of chats, the messages, the
-- nodes that serve a model, and a socket for each running job. A message is sent to a node that
-- serves its model, in a chat that is there or a new one; it is encrypted, the canister makes a
-- job for it, and a socket is opened. An answer may call for tools: a search of the user's files,
-- for which it may have to wait until the search index of store/fileStore is ready, or of the web.
-- A job's socket brings packets that rewrite its message; when it fails, its node is put on a
-- blacklist, the chat is settled, and the messages are fetched again and merged with the local
-- ones. The models that may serve come from
-- store/modelsStore. Apart from these, store/governanceStore lets a manager change the models, the
-- attestation and the pool of canisters. All paths below are under
-- src/gpt_frontend/src.
--
-- Which file models which part:
--   Types              types/index.ts; a time is the number of milliseconds of its ISO text
--   Mappers            utils/mappers.ts: normalizeErrorStatus, normalizeProviderError
--   ResultUtils        utils/resultUtils.ts: ERROR_CODE_MAP in Codes, classifySetupError in Setup
--   AuthStore          store/authStore: State for state.ts; Lifecycle for setters.ts and lifecycle.ts;
--                      Vault for vault.ts and usage.ts; Registration for registration.ts; Invariant has
--                      the histories of actions, Race a logout while the vault is opened
--   ChatStore.State    store/chatStore/state.ts, in a World with the sockets, timers and promises
--   ChatStore.Setters  store/chatStore/actions/setters, a module for each file or group of files
--   ChatStore.Messages store/chatStore/actions/message: Send (index.ts), Add (addAndSend.ts), Create
--                      (createAndSend.ts), Edit (edit.ts and retry.ts), and for tool.ts Tools (the
--                      calls), WebSearch (the socket of a search) and Continue (the frame); Messages
--                      itself has what they share, with helpers.ts
--   ChatStore.TitleGeneration, ChatStore.Ocr
--                      store/chatStore/actions: titleGeneration.ts and ocr.ts
--   ChatStore.WebSocket
--                      store/chatStore/actions/webSocket: Url, Find, Failure (error.ts), Handler
--                      (messageHandler.ts) and Connection (connection.ts)
--   ChatStore.Nodes    store/chatStore/actions/node: Pick, Reconcile, Create, and Fetch for fetch.ts,
--                      details.ts and reconnect.ts
--   ChatStore.Chats    store/chatStore/actions/chat
--   ChatStore.Queue    store/chatStore/actions/queue.ts
--   ChatStore.MessageData
--                      store/chatStore/actions/messageData: helpers.ts in the module itself, fetch.ts
--                      in Fetch
--   ChatStore.Blacklist
--                      what the failure handler and the choice of a node give together
--   MessageTree        utils/messageTree.ts
--   EmbeddingStore     store/embeddingStore.ts: embedFileContent
--   FileUtils          utils/fileUtils.ts: getUniqueFileName and isTextMimeType
--   FileStore          store/fileStore: State (index.ts), Read (actions/read.ts), Write and Uploads
--                      (actions/write.ts: the changes, and the queue of uploads, with the first step of
--                      services/fileProcessingService.ts in Uploads/Processing), and Index (the search
--                      index of index.ts)
--   GovernanceStore    store/governanceStore.ts: the managers, the attestation and the pool of canisters
--   ModelsStore        store/modelsStore.ts
--   Prelude            texts, lists and maps as the language has them, and the lemmas on them
--
-- How the code is modelled. An action is a function from the state to the new state; a name in
-- camel case becomes one with underscores. What an action is told, by a canister, a cipher, the
-- parser of a packet, the browser or the clock, is an argument. A call that is awaited is a record
-- of its answer and of what other actions do to the store meanwhile. The actions of the session
-- are taken one after the other, but for the setup and the unlocking of the vault, which are given
-- what runs while they wait. A fetch that nobody waits for, of a folder that is opened, is left under
-- way, and its answer is a step of its own. A call that may throw answers a Result. A socket is a reference
-- into a table of ready states, a timer an entry in a list, and a promise a reference whose
-- settling is recorded. The continuation of a message handler after its decryption is modelled as
-- one step; a frame that was cancelled does not fire.
--
-- Fuel. The search for the newest leaf and the cutting of a file are loops on fuel: one round for
-- the start and for each child of the map is enough for the first, one for each unit of the text
-- for the second, and both are shown to end within it. The search for a free name of a file has
-- one round more than there are names, which is shown to be enough. The queue of uploads calls
-- itself inside its own loop when an upload fails at once; its depth is at most the number of
-- waiting jobs. The removal of the thinking from a title takes one round for each character at
-- most. The walk up the folders is on fuel above the depth of the folder, where there is no cycle.
-- The registration repeats on a list of answers, and ends with the first one that has a canister.
--
-- Not modelled: the ranking of the text search, which computes with floating-point
-- numbers, the ciphers, the services that call the canisters, the user interface, and the programs
-- in Rust.
pub mod Prelude
pub mod Types
pub mod Mappers
pub mod ResultUtils
pub mod AuthStore
pub mod ChatStore
pub mod MessageTree
pub mod EmbeddingStore
pub mod FileUtils
pub mod FileStore
pub mod GovernanceStore
pub mod ModelsStore
