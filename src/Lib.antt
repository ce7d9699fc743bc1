-- ===== src/Lib.antt =====
-- A model of the local agent broker of agent-whiteboard, a Go program that lets readers of a shared
-- page talk to a coding agent on the author's machine. It covers the broker's bookkeeping, in memory
-- and on disk, the messages that pass through it, and the identifiers and digests on which they rest.
--
-- Parts and how they interact. A browser sends commands. The broker's conversation actor records each
-- in the command ledger, so that a command sent twice runs once, and puts submitted turns in the queue,
-- from which the head goes to the provider adapter when the agent is free. What the adapter reports
-- becomes events, long texts cut into deltas, which the replay log keeps for browsers that reconnect;
-- when the adapter asks the reader something, the question waits in the table of pending interactions
-- for a browser's response. Messages, images, page contexts and requests are validated on the way in: a
-- message first by the rules of the browser protocol and, converted, by those of the provider. Images
-- wait as attachments of the conversation until a turn claims them. Which sessions a page has, and which
-- revision of the page each has been shown, is stored in a file for each identity: a revision is
-- observed, then prepared, then accepted and committed. The broker foretells what it writes there and,
-- when it cannot tell whether a write took place, reads the file again.
--
-- Files and the code they model:
--   Base            strings as byte lists, association lists for Go maps, native-number tests, lemmas
--   Common/Id       internal/common/id.go: NewID (`new_id`), ValidateID (`valid_id`), base64url
--   Common/PageUrl  internal/common/page_url.go: ValidPageURL over a parsed URL
--   Config/Origin   internal/config/origin.go: CanonicalOrigin, CanonicalBrowserOrigin and
--                   CanonicalPublishingOrigin; `Network` holds the parsers of URLs, addresses and
--                   international names as parameters
--   Agent, Agent/Digest
--                   internal/agent/context_digest.go: CalculateContextDigestForKind; `Platform` holds
--                   SHA-256, net/url's parser and path cleaning as parameters
--   Provider/Text   the text checks of internal/agent/provider/provider.go and message.go
--   Provider/Message, Provider/Message/Reference, Provider/Message/Content
--                   internal/agent/provider/message.go: content, Validate, NormalizeMessageContent,
--                   PlainText, SemanticBytes and InlineImageIDs
--   Provider/Turn   turn requests, page contexts, images and settings of provider.go and settings.go
--   Provider/Catalog
--                   internal/agent/provider/settings.go: the model catalog, Compatibility, Resolve
--   Provider/Interaction, Provider/Interaction/Valid
--                   internal/agent/provider/interaction.go: requests, responses and their validation
--   Protocol/Content, Protocol/Content/Reference, Protocol/Content/Valid
--                   internal/agent/protocol/content.go: content as a browser has it, ValidateCommand and
--                   ValidateEvent (`valid_content`), SemanticBytes and InlineImages
--   Protocol/Delta  internal/agent/protocol/protocol.go: SplitDelta
--   Broker/Content  internal/agent/broker/convert.go: messageContentToProvider
--   Broker/Queue, Broker/Queue/Edit
--                   internal/agent/broker/queue.go: Enqueue, Edit, Remove, Dequeue, Clear,
--                   DiscardContext and AttachContextToHead, with the buffers that are erased as a result
--   Broker/Replay   internal/agent/broker/replay.go: Append, AppendForClient, AppendExceptClient, Replay
--   Broker/Ledger   internal/agent/broker/commands.go: begin, wait, complete, abandon, makeRoom
--   Broker/Archive  internal/agent/broker/archive.go: archivePage
--   Broker/Interaction
--                   internal/agent/broker/interaction.go: which responses fit a request
--   Broker/Interaction/Pending, Broker/Interaction/Respond
--                   the same file: the table of pending interactions, from rememberInteraction to
--                   expirePendingInteractions, with calls and messages as effects; what
--                   publishProviderEvent of conversation.go does to the table
--   Broker/Repair   internal/agent/broker/state_repair.go: the mappings that are foretold, and
--                   promoteAccepted; removeArchivedSession of archive.go and classifyLoadedState of
--                   context.go
--   Attachment, Attachment/Stage, Attachment/Claim, Attachment/Read
--                   internal/agent/attachment/service.go: Stage, Read, DeleteStaged, Claim,
--                   ImagesForMessage, ReleaseMessage and ReleaseImages over a directory's manifest;
--                   internal/common/raster.go: DetectRaster
--   State, State/Equal, State/Valid
--                   internal/agent/state/model.go and key.go: mappings, their validation and
--                   ConversationKey
--   State/Transition
--                   internal/agent/state/store.go: snapshotSessions, clampSessionTimes and
--                   validateSessionTransitions
--   State/Store     the same file: begin, and the commit and removal of a file with their outcomes
--   State/Store/Access
--                   the same file: Load, Create, Remove and updateAtExpectedTransition
--   State/Update    the same file: ObserveRevision, AcknowledgeCommittedRevision, PrepareCommit,
--                   MarkPreparedAccepted, PromotePrepared, ReconcilePrepared, NewConversation,
--                   RestoreArchive, UpdateCurrentSettings and the replacement of a native session
--   State/Calls     the same file: those as calls on the store, RemoveSession, and runs of calls
-- The other modules hold what is proved of these: an invariant for each component (Invariant,
-- Evicted, Table, Sound, Unique), sequences of calls on it (History), its contract (Order, Pages,
-- Paging, Erasure, Removal, Edit/Outcome, Eviction, Visibility, Answers, Repeats, Room, Delivery,
-- Defaults, Answerable, Limits, Access, Exclusive, Release, Normal, Images, Codec, Generator, Pieces,
-- Accepted, Prepared, Committed, Foretold, Proven), and the lemmas of those (Boundary, Edit/References,
-- Content/Reference, Content/Part, Predict, Current, Index, Clamp, Change, Store/Outcome, Effect, Wrote,
-- Kept, Checked). Examples applies every theorem with hypotheses to concrete values.
--
-- Conventions. A Go string is the list of its bytes and an `int` length or count a natural number; where
-- the source subtracts from a limit, the model adds to the other side. A method that changes its
-- receiver gives back the new state, a Go error is a constructor of a result type or `none`, and a copy
-- of a value is the value. Strings of an open string type are a data type with a constructor for the
-- texts that are none of the constants, or texts. What the operating system answers to a call comes with
-- the call.
--
-- Bounds and fuel. Two loops run on fuel. A round of the eviction of the replay log (`trim`) drops an
-- entry, and `append_prepared` gives one round for each entry and one to find the log empty. A round of
-- SplitDelta (`split_from`) takes a byte at least, and `split_text` gives as many rounds as the text has
-- bytes. All other loops are by recursion on the list they run over, and a repair tries twice, as the
-- code does.
--
-- Not modelled: JSON, HTTP, WebSocket and process traffic, files, directories and locks, the provider
-- adapters, and random numbers, which are input and output or libraries; the number syntax of strconv,
-- the length of an event's encoding and the fingerprint of a command are parameters. The conversation
-- actor as a whole, the browser protocol's validation of what is no message, workspaces, the
-- reconciliation of a prepared revision with a running session and the whiteboard store are not
-- modelled.
pub mod Base
pub mod Agent
pub mod Common
pub mod Provider
pub mod Broker
pub mod Attachment
pub mod Config
pub mod State
pub mod Protocol
mod Examples
