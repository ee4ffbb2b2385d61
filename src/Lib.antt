-- ===== src/Lib.antt =====
-- Four parts of the SnowPanel backend: the background tasks, which restart containers and services
-- and make and verify backups for the operators of the panel; authentication, from the tables of
-- users and roles to the handlers and the middleware, with the limiter of failed logins; the records
-- and artifacts of backups; and the files of the host, with downloads and uploads.
--
-- The program's parts, and the files that model them:
--   * backend/internal/apperror/error.go, backend/internal/service/agent_error.go and the error
--     type of backend/internal/grpcclient/agent_client.go: Errors and Errors/Agent. A Go error is
--     a value of `GoError`, with a constructor for each kind of error that the tasks make, wrap
--     or take apart by `errors.As`.
--   * backend/internal/model/schema.go and backend/internal/repository/task_repository.go:
--     Tasks/Model has a row with all its columns, Tasks/Repository the two tables and one
--     function for each statement (`Create`, `ClaimNextTask`, `HeartbeatTask`, `CompleteTask`,
--     `FailTask`, `ReleaseStaleTasks`, `UpdateStatus`, `CountByStatus`, `GetByID`,
--     `GetByIdempotencyKey`, `AppendLog`; `List` and `ListLogs` are in Tasks/Pages). A statement
--     is atomic, as in the database. Its child modules hold the laws: Change says how any
--     statement changes a row, Due which tasks a claim may take, and Lifecycle, Leases, Alive, Stuck
--     and Invariant what follows.
--   * backend/internal/service/task_service.go: Tasks/Payload (`unmarshalTaskPayload`, the
--     idempotency keys), Tasks/Retry (`nextTaskRetryAt`, `taskRetryBackoff`,
--     `isRetryableTaskError`, `taskHeartbeatInterval`), Tasks/Create (`createAndRunTask` and the
--     `Create...Task` methods), Tasks/Control (`CancelTask`, `RetryTask`), Tasks/Execute
--     (`executeTaskOperation`), Tasks/Run (`runTask`), Tasks/Pages (`ListTasks`, `GetTaskDetail`,
--     over `List` and `ListLogs` of the repository), Tasks/Worker (`runClaimedTask`,
--     `failClaimedTask`, `claimAvailableTasks`, a round of `RunWorker`) and Tasks/Service (any of
--     these as a request). Laws, Canceled, Idempotency and Claims below them, and Tasks/Validity,
--     Tasks/Canceled and Tasks/Outcome, hold what they promise.
--   * backend/internal/security/login_attempt_limiter.go: Login (`BuildLoginAttemptKey`, `Allow`,
--     `RecordFailure`, `RecordSuccess`) on a function from keys to states. Attempts has sequences
--     of calls; Account, Track, Filling, Unlocked, Lock and Keys have what the limiter promises.
--   * backend/internal/repository/user_repository.go: Auth/Users (the tables and the statements on
--     users) and Auth/Roles (`EnsureRBACDefaults`, `EnsureUserRoleBySlug`,
--     `GetRolesAndPermissions`), which is taken to be atomic where it is a transaction.
--   * backend/internal/service/auth_service.go: Auth/Password (`isStrongPassword`), Auth/Tokens
--     (`generateTokenPair`, `parseTokenWithUse`, `computeRBACChecksum`), Auth/Sessions (`Login`,
--     `RevokeSession`, `Me`, `ValidateSession`), Auth/Sessions/Refresh (`Refresh`),
--     Auth/Sessions/Change (`ChangePassword`), Auth/Bootstrap (`EnsureDefaultAdmin`) and Auth/Calls
--     (any of these as data). A session is the time at which it began; the row of the user and the
--     tokens keep it. Past, Kept and Answers below Sessions say what a method keeps of it; Revoked,
--     Ended, Lost, Credentials, Stored and Sessions/Accepted have what follows.
--   * backend/internal/middleware/jwt_auth.go and permission.go: Auth/Gate, with Gate/Vouched.
--   * backend/internal/api/handler/auth_handler.go and backend/internal/api/response: Auth/Desk
--     (bodies, answers, audit records) and Auth/Handler, with the limiter in memory; Requests and
--     Guessing follow a client that guesses passwords.
--   * backend/internal/repository/backup_repository.go: Backups/Store. The texts and names of
--     backend/internal/service/backup_service.go are in Backups/Names, `CreateMetadata`, `Verify`,
--     `MarkStatus` and `List` in Backups/Service, `CleanupRetention` in Backups/Retention and
--     `CreateArtifact` and `VerifyArtifact` in Backups/Artifact, with Genuine for what an accepted
--     artifact is, on the table and the files of Backups/World. The task service has its own, more abstract view of this service.
--   * backend/internal/service/file_service.go: Files/Service has the methods that make one call of
--     the agent, Files/Download and Files/Upload the loops of `DownloadFile` and `UploadFile`; the
--     client of the agent, in Files/Agent, is a record of functions on an unknown state. Served and
--     Stored below them say what an agent does that serves and stores a file. Files/Rounds has the
--     rule for a round of a loop; Limited, Counts, Standing, Progress, Sending and Whole follow the
--     loops, and Files/RoundTrip and Files/Answers say what holds of both.
--
-- How the parts interact: a method of the service is a function on the state `World` of
-- Tasks/World, which has the tables, the calls made to the other services, the observed metrics
-- and the goroutines started. At each statement, `Env.turn` says what other processes have
-- written since the last one, what the clock shows, and whether the statement fails. The theorems
-- name the surroundings they need: `IsFair`, where others issue only statements of this service;
-- `IsCalm` and `IsUndisturbed`, where others leave the status of the task alone; `IsAlone`, where
-- no other writes. `Keeps` and `Does` are the rules that carry an invariant and an outcome
-- through a method, and `Tells` the one that goes back from a result to what was tested; they are in
-- Program, since the authentication service is a function on its own state `AuthWorld` of Auth/Env in
-- the same way. There, as in Backups/World, `IsSingle` says that no other process writes, and `IsQuiet`
-- that none writes files either. A handler works on a `Desk`, which has the state of the
-- authentication service, the limiter and the audit records.
--
-- Numbers: ids, times and attempts are natural numbers, times in nanoseconds since Go's zero
-- time, in authentication and backups since the Unix epoch; numbers that a client or a setting
-- gives may be negative and are integers. In downloads and uploads, where a client gives the offset,
-- sums of `uint64` wrap around. No other sum in this code comes near 2^63, so that wrap-around is not
-- written out; the number of a page is taken to be below 2^56, so that the offset of `List` is no
-- larger. Loops end by the structure of what they run over: the rows of a table, the characters of a
-- text, and for the claims of a worker the places that are free or that goroutines give back. Only the loops of downloads and uploads have fuel, a number of
-- rounds, since an agent may never end them: with a limit as many rounds as the limit has bytes are
-- enough for any agent, and else, when the agent serves a file, one round more than the file has bytes;
-- an upload needs one round more than the reader gives pieces. `RunWorker` itself runs until it is
-- stopped; a round of it is modelled, and any number of rounds in a sequence of requests.
--
-- Parameters: the Docker, service manager and backup services (their answers, which may depend on
-- all earlier calls), `json.Marshal` and `json.Unmarshal`, the host's name and the process id,
-- `strings.ToLower`, and the text of a `time.Duration`; bcrypt, JWT, SHA-256, random bytes,
-- `strings.EqualFold`, the order of texts in the database, the order in which a statement on tasks or
-- logs gives rows of the same time, `path/filepath`, and JSON of manifests; the
-- client of the core agent for files, and the reader and writer of a stream.
--
-- Not modelled: the JSON and the redaction of the metadata in logs (it is kept as pairs), the
-- duration that a metric gets, the text of times in answers, and the ticker of the heartbeats,
-- whose writes are among those of others. `last_login_at`, with which sessions are compared, is kept
-- in whole microseconds, as its column TIMESTAMPTZ does; other times are kept exact. What goes to the process log, and the fields of an audit record that come from the
-- request, are left out. The limiter on Redis, the other services, handlers and middleware, the
-- configuration and the agent are outside this library.
pub mod Prelude
pub mod Errors
pub mod Program
pub mod Login
pub mod Auth
pub mod Backups
pub mod Files
pub mod Tasks
mod Tests
