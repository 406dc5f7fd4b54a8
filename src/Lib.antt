-- ===== src/Lib.antt =====
-- Models of firego, a backend service in Go that runs several apps, each with accounts, a JSON
-- database that is watched and guarded by rules, stored objects and a configuration, and theorems
-- about them.
--
-- The parts and the files that model them:
-- - Base, Base/*: byte strings (Go strings; a byte is a number), maps with string keys as
--   association lists, whose order is the order of a `range`, Boolean tests.
-- - Paths: splitPath, which internal/rules/rules.go and internal/database/database.go share.
-- - Json: what encoding/json decodes into `any`, and the files that hold it.
-- - Rules: internal/rules/rules.go. Lexer is tokenize, Eval is evalParser and evalExpr, Tree is
--   RuleNode with UnmarshalJSON and MarshalJSON, Check is RuleSet (New, Update, RawJSON, CanRead,
--   CanWrite, check). Grammar holds the documented grammar as trees, with meanings of their own;
--   Spelling says which texts spell a list of tokens, Reach which node a segment leads to.
-- - Realtime: internal/realtime/hub.go. Hub has Subscribe, unsubscribe and Publish. A subscriber is
--   named by a number for its address, a channel is the list of waiting events, and a channel that
--   is closed twice or written after that is a panic.
-- - RateLimit: internal/ratelimit/ratelimit.go. Limiter has Allow and one round of cleanup, ClientIp
--   has ClientIP with net.SplitHostPort.
-- - Database: internal/database/database.go. Tree has what the operations do to the maps, PushId is
--   generatePushID, Store has New, Get, Set, Update, Delete and Push. A change goes through commit:
--   the tree is changed, saved, and published to the hub of Realtime if the save succeeded. Leaves is
--   a specification of its own: a database as a function from paths to the values at its leaves.
-- - Jwt: internal/jwt/jwt.go. Base64 is base64.RawURLEncoding, Token has Sign (sign_claims) and Parse,
--   over a record Codec that stands for HMAC-SHA256 and the JSON text of claims.
-- - Auth: internal/auth/auth.go. Email has emailRE and the treatment of texts, Service has New,
--   Register, Login, Logout, Verify and one round of cleanBlacklist, over Jwt and a record Bcrypt for
--   golang.org/x/crypto/bcrypt.
-- - Apps: internal/apps. RemoteConfig is remoteconfig.go, with newRemoteConfig, Get, Set, Merge and
--   DeleteKey. Manager is manager.go, with New, Create (create_app), Get (get_app), List (list_apps),
--   Delete (delete_app), initServices and the registry: an app is the record of the services that the
--   other parts model, and the directory of one that does not run is the record of its files. Running
--   has the steps of a manager: creating, deleting, and using the services of an app in place.
-- - Storage: internal/storage/storage.go. Names has sanitize with path.Clean, Store has New, Put, Open
--   (open_object), Delete (delete_object) and List.
-- - Server: internal/server/server.go. Http has requests, what a handler takes from outside, and
--   answers with their status. Database, Accounts, Objects, Admin and Stream have the handlers, which
--   take the app and give it back; Router has Server, its routes and what stands before the handlers
--   (the preflight of cors, requireAdmin, resolveApp, appAuthRoute, rateLimited). A handler changes
--   the app in place, so Router puts the app that it gives back in the manager. The other files follow
--   a request through these parts: Sessions, Limits, Readers, Answers, Integrity, Isolation, Histories
--   and AdminKey.
-- - Cmd: cmd/firego/main.go. Start has main up to its server, with its keys and its address.
--
-- Time, random bytes and the outcome of a write to disk are arguments. The text of JSON is left
-- out: a file holds the value that its text stands for, or is broken. Keys of a file or of a body are
-- matched exactly as they are spelled. A number is copied only, and is named by the bits of its float64.
-- Letters are those of Latin-1, as the lexer reads single bytes. Each method is one step, as
-- it holds its lock to its end or to its last change; so is each request, up to the loop of a stream,
-- whose rounds are steps of the hub. Put of Storage is a step too, though it creates and copies the
-- file before it takes the lock: Puts of one name at the same time, whose files and metadata the program
-- may mix, are not modelled. A database file or a metadata file that holds null, which no save writes,
-- is read as the empty map; the program's nil map differs from it in that a later write panics.
--
-- Times of tokens are not negative, and TrimSpace and ToLower know the spaces and letters of ASCII
-- only: emailRE admits no other text, but the program trims other spaces too. Whether the directories
-- of an app can be made is one question, where the program asks it twice.
--
-- The evaluator of rules has fuel, six calls for each token and six more, and Rules/Total shows that
-- this is enough for any tokens. Nothing else has fuel.
--
-- Not modelled: flags, signals, listening and HTTP itself, which gives a handler its path variables;
-- headers that are only set, the log, and the static files of the dashboard.
pub mod Base
pub mod Paths
pub mod Json
pub mod Rules
pub mod Realtime
pub mod RateLimit
pub mod Database
pub mod Jwt
pub mod Auth
pub mod Apps
pub mod Storage
pub mod Server
pub mod Cmd
