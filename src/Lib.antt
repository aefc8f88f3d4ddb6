-- ===== src/Lib.antt =====
-- A model of the core of codex-model-tester, a proxy that serves chat and response requests through
-- a pool of ChatGPT accounts, and the theorems that make the model correct.
--
-- The parts. The account service keeps the accounts and hands one out for each request; the account
-- manager refreshes its credentials before it is used; the model catalog says which account supports
-- which model and is the filter of an acquisition; a device login adds an account to the service. A
-- request is first resolved against the continuations, which remember which account answered, with
-- the items of the conversation and the short names of the tools that the request declared. The events
-- of the upstream's answer are accumulated in a turn, which is what the client's stream, its final
-- object and the next continuation are made of. When the upstream fails, the kind of failure decides
-- what the account service does to the account. The heartbeat manager calls an account's model from
-- time to time.
--
-- Files and code. Base has strings as bytes, maps as association lists, numbers in text and numbers of
-- a machine's width. Json has JSON values and internal/jsonutil.
--   Accounts/Types, Clone     internal/accounts/account.go, persistence.go, clone.go
--   Accounts/Quota            isEligible, quotaBlocksGeneralRouting and the normalisation of
--                             internal/accounts/rotation.go; internal/accounts/quota_reset.go
--   Accounts/Rotation         selectRoundRobin and selectLeastUsed of internal/accounts/rotation.go
--   Accounts/Token            internal/accounts/token_metadata.go
--   Accounts/Store            Service, persistLocked, refreshAllLocked, nextAccountID of
--                             internal/accounts/service.go
--   Accounts/Service, Edit    List, Get, EligibleNow, UpsertFromToken, Remove, NoteSuccess,
--                             SetRotationStrategy; Patch, ObserveQuota, UpdateAuth, MarkError,
--                             SetCooldown, of the same file
--   Accounts/Acquire          AcquireMatching, Acquire and NewService of the same file
--   Accounts/System, Rest, Effects
--                             the service as a state machine of its calls, and accounts that rest while
--                             calls come
--   AccountManager            internal/accountmanager/manager.go
--   Turn/Types, Request       internal/turn/types.go, request.go, normalized.go
--   Turn/Equality             reflect.DeepEqual on input items
--   Turn/Usage                internal/turn/usage.go
--   Turn/Accumulator          the data of internal/turn/accumulator.go and ensureToolCallState of
--                             accumulator_tools.go; its children Capture and Apply are Apply with all
--                             that it calls, Emit the events for the client, Objects the objects
--   Turn/ToolNames            internal/turn/tool_names.go
--   Conversation/Continuation internal/conversation/continuation.go
--   Conversation/Key          internal/conversation/key.go
--   Server/Monitor, Claims, Heartbeat   the manager of internal/server/heartbeat.go
--   Server/Session, Resumption          internal/server/session.go; Session/History has
--                             continuation_history.go and rememberContinuation of public.go
--   Server/Opening            openStream of internal/server/public.go
--   Server/Upstream           internal/server/upstream_errors.go, shouldFailoverRequest of public.go,
--                             internal/codex/stream_error.go and Message of upstream_error.go
--   Models/Entry, Catalog     internal/models/entry.go, bootstrap.go, catalog.go
--   Models/Normalize          internal/models/normalize.go
--   DeviceLogin               internal/devicelogin/service.go, types.go; Events is the service and the
--                             goroutines of poll as one state machine, Moves and Steps what a step does
-- Samples and Tests have runs at concrete data.
--
-- How state is modelled. A method that holds a lock from start to end is one function from the state
-- to the new state and the result. Where a lock is released in between, the sections are functions of
-- their own (finish_get; tick and settle of a device login's goroutine, which keep in the state where it
-- stands), or what others do in between is an argument (World.others, Meets.others).
-- Readings of the clock, draws of the random generator, and the answers of the disk and of the network
-- are arguments. A Go map is an association list whose order is one order of iteration. The tool calls
-- and output items that the accumulator points to stand in lists, and its maps hold their places.
--
-- Numbers. A time is the number of nanoseconds since Go's zero time. The rotation index and the count
-- of failures are 64-bit and wrap. A float64 is its place in the order of the values, NaN apart. An
-- `int` read from JSON wraps where the code adds or multiplies it; a float64 that no int64 holds is read
-- as the least int64, as on amd64. The next output index is not bounded.
--
-- Slices. A slice whose nil value is told apart from an empty one by the code (the parts of an input
-- item, under reflect.DeepEqual) is an Option of a list; any other slice is a list.
--
-- Sorting. `slices.SortFunc` and `sort.Slice` are the insertion sort that Go uses for at most 12
-- elements; for longer slices the theorems on membership, and those where the order is total on
-- different elements, speak of the same list.
--
-- Fuel. The search for a free tool name has fuel: one more than the names in use, since that many
-- suffix numbers give different names. The length in bits of a number below 2^64 has fuel 64.
-- All other loops are structural.
--
-- Not modelled: the translation between the APIs (internal/openai, internal/anthropic), the clients
-- (internal/codex, internal/codexauth), the writing of streams, the schemas of tuples, the HTTP handlers
-- and their middleware, configuration, the JSON text of files (the stores keep the value that is
-- marshalled) and the desktop's window. The decoding of JWTs,
-- SHA-256, the regular expression of reminders, http.StatusText and the layout of a time are parameters.
-- Mutexes are not objects of the model. The raw map of a stream event is never nil.

pub mod Base
pub mod Accounts
pub mod Turn
pub mod Conversation
pub mod Server
pub mod Models
pub mod AccountManager
pub mod DeviceLogin
pub mod Json
