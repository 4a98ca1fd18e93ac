-- ===== src/Lib.antt =====
-- llm-sandbox: an HTTP service that runs untrusted code in isolated sessions.
--
-- The program. src/llm_sandbox/app.py is a FastAPI application: it authenticates a request, bounds its
-- body, counts live sessions against a cap, clamps what was asked for, and calls a provider.
-- src/llm_sandbox/providers/base.py has the contract of a provider, the operations inside a session
-- (`SessionOpsMixin`, over one hook `_exec_cli`) and the runner of local commands; gvisor.py and k8s.py
-- beside it implement the hook and the lifecycle with the docker CLI and with the Kubernetes API, and
-- __init__.py chooses between them. src/llm_sandbox/config.py reads the settings and
-- src/llm_sandbox/models.py has the bodies of requests and answers.
--
-- The files.
--   Prelude   shared names: lists, texts, options, Boolean tests, integers. Lists, ℕ and text are native;
--             a text is a list of code points and a payload a list of bytes.
--   Python    what the code uses of Python's standard library: str methods, shlex.quote with a reader of
--             shell words, int and str of integers, UTF-8, base64, urlencode with a reader of query
--             strings, JSON values.
--   Base      providers/base.py. Errors: the exceptions, and coroutines `Run W A`, functions from a world
--             to an outcome and a world. Limits: clamp_resources, cap_output. Stream: run_cli. Session:
--             SessionOpsMixin, with Session/Calls on the command lines, Session/Results and Session/Files
--             on results, Session/Listing for list_files. Script: the scripts of write_file and
--             run_script as commands that a shell runs, with Script/Tools on the commands, Script/Atomic
--             and Script/Binary on the destination of a write, Script/Stored on a write and the read
--             after it, Script/Running on run_script, and Script/Memory, a shell over files in memory.
--   Config    config.py: the .env loader, _env, _int, _flag, Config.from_env.
--   Models    models.py: the bodies and the constraints on their fields.
--   App       app.py. Slots: SessionSlots, `acquire` cut at the await of the recount (`begin`, `resume`),
--             with Slots/Dict on its dictionary, Slots/Recounting for `acquire` with the recount that it
--             awaits, Slots/Interleaving for the handlers that share it, and Slots/Cap, Slots/Laws,
--             Slots/Recount, Slots/Rejected, Slots/Progress on what holds. BodyLimit:
--             BodyLimitMiddleware. Auth: _auth, SessionId, _resolve_image. Handlers: the request handlers
--             over a provider. Readiness: lifespan, healthz, readyz. Logging: the helpers that make log
--             lines.
--   Gvisor    providers/gvisor.py: the docker command lines and what is made of the replies, over a child
--             process. Isolation: how docker reads the arguments of `create`. Output: a command through
--             _exec_cli and the mixin. Containers: names and session ids. Preflight: preflight.
--   K8s       providers/k8s.py. Manifest: __init__ and the pod. Sessions: the requests to the API server
--             and _wait_ready's judgement of an answer, with Sessions/Waiting and Sessions/Polling on its
--             loop, Sessions/Cleanup on create and destroy, Sessions/Reaping on the sweep,
--             Sessions/Listing on the rest. Parse: the node selector and the toleration. ExitCode: the
--             status of an exec. Stream: the exec WebSocket and _exec_cli's errors. Api: ApiServer, with
--             Api/Token on its token. Exec: _exec_cli, with Exec/Words on the address of the stream and
--             Exec/Reports on a command through _exec_cli and the mixin.
--   Providers providers/__init__.py, and the parts of either backend put together as the provider that
--             the handlers call. Launch: a request for a session down to docker's command line, which
--             Logged writes down. Recount: the slots with docker's listing of containers. Ids: the ids
--             that a create mints.
--
-- How state is modelled. A handler of app.py is a function on a pair of the slots and the provider's
-- world; a provider operation is any function on its world, so a theorem about a handler holds of every
-- provider, failures and cancellation included. Concurrency is a relation of steps, each the code
-- between two awaits (App/Slots/Interleaving). Times are ticks of a clock that does not go back, and an
-- `acquire` has two readings of it, before and after a recount. `lifespan` has the serving of requests as
-- an argument: what happens at its `yield`.
--
-- Numbers. Integers are unbounded, as Python's. Floats are a type with an order that the caller gives
-- (`Floats`), without infinities and NaN, which the request model keeps out. Subtraction is written
-- where the code has `max(0, ...)` or a guard. The output cap and the create timeout of a provider
-- are natural numbers: a setting below 0 is taken for 0.
--
-- Fuel. `chunks_of` in K8s/Stream has one round of fuel for each byte of the payload: every chunk has a
-- byte or more, so the payload is used up. `poll` in K8s/Sessions/Waiting has a
-- round for each tenth of a second of `create_timeout` and one more: every pause is a tenth or longer, so
-- the deadline comes first. `reap_loop` in K8s/Sessions/Reaping is a loop with no end, cut after a number
-- of rounds that is an argument. All other loops are recursion on a list.
--
-- Parameters. What third parties do is an argument: the provider behind the handlers, the transport
-- behind the mixin, the child process behind run_cli, the shell that runs a script, json.loads, float(),
-- repr, the random part of a name, and the HTTP and WebSocket libraries.
--
-- Not modelled: the calls of the logger and its set-up, the construction of the FastAPI object, the
-- semaphores of the providers; that two names in a session can be one file; how the parts that the code
-- reads of an API server's answer stand in its JSON; build files, container images, deployment manifests
-- and tests.
pub mod Prelude
pub mod Python
pub mod Base
pub mod Config
pub mod Models
pub mod App
pub mod Gvisor
pub mod K8s
pub mod Providers
