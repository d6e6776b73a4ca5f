-- ===== src/Lib.antt =====
-- Open Content Decryption Module CDMi: the process that holds keys and decrypts media samples for a
-- browser.
--
-- The program. service.cpp is an RPC server. The browser asks it for a key system
-- (`rpc_open_cdm_mediakeys_1_svc`), for sessions, for updates of a session with a license, for the
-- release of a session, and for media engine sessions. A session reports to the browser from
-- detached threads, by RPC in the other direction (`doCallback`). A media engine session has a
-- thread (`decryptShmem`) that decrypts one sample after another in shared memory. cdmi-stub holds
-- the key system behind the interfaces of cdmi.h: sessions, their keys from a JSON Web Key Set, and
-- AES in counter mode by OpenSSL.
--
-- The files.
--   Base                 shared names: tests, lists, integers, and outcomes of which one is a fault
--   Base64               `base64_decode` of cdmi-stub/json_web_key.cpp; Reference and Encode relate it to
--                        a decoder over numbers and to the encoding, over RFC 4648's own Alphabet
--   JsonWebKey           `ExtractKeysFromJWKSet` and its helpers, of the same file; Text, Members and
--                        Extract say what the tokens spell, Pairs and KeySet treat base64url and the whole
--   World                the state of the process: globals, heap slots, waiting threads, what was sent
--   Decimal              the text of the session counter
--   Callbacks            `CCallback` and `doCallback` of service.cpp
--   MediaKeySession      cdmi-stub/mediakeysession.cpp; Decrypt has its theorems
--   MediaKeys            cdmi-stub/mediakeys.cpp and mediaenginesession.cpp; Destroy is the life of a session
--   SampleLoop           `decryptShmem` of service.cpp; Parts and Rounds have its theorems
--   Service              the RPC procedures of service.cpp. Sessions is `g_mediaKeySessions`, Create,
--                        Requests and Races treat the requests, Steps puts requests and threads into any
--                        order, Histories is the induction over such histories, on which Invariant, Frames,
--                        Refinement, Buffers, Heap, Threads, Engines and Keys build. Requested is about
--                        the thread that a request starts. Interleaving
--                        cuts the rounds of `decryptShmem` into parts that interleave with each other and
--                        with requests; its Parts, Whole, Sessions, Alone, Own and
--                        Overlap have the theorems.
--                        Endings and SharedBuffer treat the loop in the service, Playback goes from the
--                        license to the clear samples, and KnownIds has the histories whose requests name
--                        open sessions only. AnyCdm has the procedures over the interfaces of cdmi.h alone:
--                        Table, Handlers, Create and Requests are for any module of which `Conforms`
--                        holds, Linked puts the stub behind
--   Cdmi                 the interfaces of cdmi.h as records of operations. Stub is cdmi-stub/imp.h, the classes
--                        behind them; Contract is what the service relies on in a module; Conforming and
--                        StubConforms show it of the stub
--   SharedMemory         libs/shmemsem/shmemsem_helper.cpp and shmemsem_helper.h. Calls has what the system
--                        calls promise, Segments the segments of a round of `decryptShmem`. Exclusion is its
--                        thread beside a client, a semaphore operation at a time; Semaphores has its locks
--                        and unlocks, Token the invariant, Answered, Clear, Progress and Ended what
--                        follows for the client, and Overflow what SEM_UNDO does in the end
--   Rpc                  rpc/gen/opencdm_xdr.h, opencdm_xdr_xdr.c, opencdm_xdr_clnt.c and `open_cdm_1` of opencdm_xdr_svc.c;
--                        Codecs has the round trips, Dispatch what the server does with a request,
--                        Client the calls from the other side. CallbackProgram is rpc/gen/opencdm_callback.h,
--                        opencdm_callback_xdr.c, opencdm_callback_clnt.c and `open_cdm_callback_1` of
--                        opencdm_callback_svc.c, CallbackDelivery the way of a callback to the browser, and
--                        Registration the `main` of both programs
--   Tests                a concrete platform and histories on which the theorems are applied
--
-- State and operations. A procedure is a function from `World` to an `Outcome`: an answer with the
-- state after it, or a fault where the C++ has no defined behaviour (use after free, a NULL pointer,
-- memory out of bounds, a value never written), where an assertion fails, or where the process
-- exits. A pointer is the number of a slot; a freed slot keeps its place, so that a later use shows.
-- A thread that was created waits in a list. What the code leaves to others is the record
-- `Platform`: jsmn, the slack of the allocator, whether a client can be reached, and OpenSSL. A
-- content decryption module is the record `Cdm`, of operations on the same state, and `Conforms` is
-- what service.cpp takes for granted in one, with a predicate for the sessions that live. cdmi.h says of
-- this that an id is valid as long as its session exists; that living sessions have distinct ids, and
-- that only freeing ends a session, is not written there, and other promises of cdmi.h, such as that
-- `Close` releases all resources, are not among it. Hypotheses
-- on the platform are named: `HasRoom`, `IsCounterMode`, `RefusesOtherSizes`; `IsXdr` on the
-- routines of the XDR library and `ReadsAs` on `xdr_string`, `Delivers` and `CallbackDelivers` on
-- `clnt_call`. The browser's procedures for callbacks are the record `Browser`, and what registers a
-- program at the port mapper is the record `Registrar`. The system calls on semaphores and segments
-- are the record `Ipc`, and `IsIpc` says what their manuals promise: a lock of a semaphore that is 0
-- sleeps, every other lock and unlock changes one value by one and, for SEM_UNDO, what is noted for the
-- process by one, a lock that would take this past SEMAEM fails with ERANGE, and nothing that is done to
-- segments changes a semaphore. `LockSemaphore` and `UnlockSemaphore` ignore the result, in the model as
-- in the code. A callback goes to the browser under the program number of then.
--
-- The client of a decryption thread is not part of the repository. `Happens` lets it write to the
-- exchanged memory while nothing that it posted waits for an answer, post by unlocking
-- SEM_XCHNG_DECRYPT and collect by locking SEM_XCHNG_PULL, beside the thread, all other requests and
-- threads of the process, and any use of other semaphores and of segments. Its post is a step while
-- fewer than SEMAEM exchanges were posted over the set; `lock_overflow` is about the next one.
--
-- Bounds. The session counter wraps at 2 ^ 32; histories stop before it does. Loops are structural
-- recursion over the text, the tokens or the samples; the loop of `ExtractKeysFromJWKSet` runs over
-- `result - 2` rounds, which is its number of passes. `decimal n` has fuel `n + 1`, more than it has
-- digits.
--
-- Not modelled. jsmn is a copy of another project. `svc_freeargs` does not fail. What SEM_UNDO does
-- when a process ends is left out. `RunThread` and `ReleaseClearContent` end without a return statement
-- in a function with a result, and `clear_content_size` is passed to `ReleaseClearContent`, which does
-- not read it, before a round has written it: both are taken to do nothing, as compiled without
-- optimisation, and are no fault of the model. Freeing with `free` what `new` made is taken to work.
-- A segment that cannot be attached is a fault where it is used, in SharedMemory; SampleLoop takes the
-- memory behind ids other than 0 as attached. In the histories of Steps, and beside the client of
-- SharedMemory, a round of `decryptShmem` from the lock to the unlock is one step, into which its
-- tests at the head of the loop are drawn. Interleaving cuts it before `Decrypt` and before
-- `memcpy`; there the `Guard` of `Interleaved` says which rounds may overlap, and within a part
-- nothing interleaves. A part with a fault ends a history, since the process has then no defined
-- behaviour. Allocation does not fail. The constants of cdmi.h for EME errors and key statuses are
-- not used but for `MEDIA_KEY_STATUS_USABLE`. `g_mediaKeySessions` keeps pointers to the texts of
-- ids; the model keeps the texts, as if the memory of a request with an unknown id stayed; in the
-- histories of KnownIds no such id is asked for. What is printed to the console is left out.
pub mod Base
pub mod Base64
pub mod Callbacks
pub mod Cdmi
pub mod Decimal
pub mod JsonWebKey
pub mod MediaKeySession
pub mod MediaKeys
pub mod Rpc
pub mod SampleLoop
pub mod Service
pub mod SharedMemory
pub mod Tests
pub mod World
