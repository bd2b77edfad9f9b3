-- ===== src/Lib.antt =====
-- htvend, a proxy that records what a build fetches and replays it: a model of the program with proofs.
--
-- A build runs behind the proxy (cli/internal/htvend). For each request the handler looks for the URL in
-- the manifest (cli/internal/lockfile), a map from URLs to SHA-256 digests and headers. If it is there,
-- the blob with that digest is served from a content-addressed blob store (cli/internal/blobstore).
-- Otherwise the request goes upstream, and the answer is copied to the client and to a new blob at once;
-- the blob is committed under its digest, and the digest is recorded in the manifest. `verify` and
-- `export` (cli/internal/htvend/command_*.go) work on the same manifest and stores.
--
-- Files, with the code that each models (paths from the repository's root):
--   Base.antt, Base/             equality, lists, maps as association lists, hex, errors and results
--   Platform.antt                crypto/sha256 and the names of temporary files, as parameters
--   Stream.antt, Stream/         io.Reader, io.Writer, io.TeeReader and io.Copy
--   Re.antt, Re/                 cli/internal/re/multi_regexp.go
--   Blobstore.antt               cli/internal/blobstore/store.go: the operations of a store as a record
--                                (Store), and the contract of a store (IsLawful)
--   Blobstore/Disk.antt          package os on the directory of a store
--   Blobstore/Caf.antt           .../directory/caf/caf.go: write, commit, cleanup
--   Blobstore/Directory.antt     .../directory/directory_store.go: get, exists, put, destroy, remove_except
--   Blobstore/S3.antt, S3/       cli/internal/blobstore/s3store/s3_store.go
--   Blobstore/Registry.antt      cli/internal/blobstore/registry/reg_store.go, with the requests it sends
--   Blobstore/Growth.antt        what a client may do to a store
--   Lockfile.antt, Lockfile/Ops  cli/internal/lockfile/lock_file.go: the fields of File, and a function per
--                                method, of the same name in lower case
--   Lockfile/Locking             the lock of processes that share a manifest
--   Listener.antt, Listener/     cli/internal/htvend/flags_listener.go: Fetch has fetchAndSaveBlob, Handle has
--                                handleMainServerRequest, serveFoundBlob and the handler; Reply is the
--                                http.ResponseWriter. Concurrent has the same handler as a state machine,
--                                and any number of handlers in any order of their steps
--   Verify.antt, Verify/         cli/internal/htvend/command_verify.go: copyToWriters and doValidate
--   Commands.antt, Commands/     cli/internal/htvend/flags_manifest.go, and the Execute methods: Run has those
--                                of command_build.go and command_offline.go, with the requests one after
--                                the other, Interleaved a build with handlers that interleave, Verify and
--                                Export those of command_verify.go and command_export.go
--   Environment.antt,            cli/internal/htvend/environment_*.go, the callback of
--   Environment/                 RunListenerWithSubprocess and cli/internal/app/run_subprocess.go
--   Auth.antt, Auth/             cli/internal/registryauthclient: RoundTrip and its tokens
--   Proxy.antt, Proxy/           cli/internal/proxyserver/http_proxy.go: newSelfSignedServer with its keys,
--                                ServeUntilDone, handleConnect, makeCertFor
--   App.antt, App/               cli/internal/app and cli/cmd/htvend/main.go: the flags, the metrics, the
--                                temporary directory
--   Jobs.antt, Jobs/             cli/internal/jobs/multitasker.go
--   Export.antt, Export/         cli/internal/htvend/command_export.go: ensureBlobExported, and the job
--                                and the callback of Execute
--   Download.antt, Download/     cli/cmd/download-image/download_image_main.go
--   Tests.antt, Tests/           concrete surroundings and runs
--
-- State is passed explicitly. The disk has a list of outcomes, one for each call that the program
-- makes of package os, and a call that fails may have done a part of its work, so that a theorem for
-- every disk is a theorem for every place at which a call may fail. A body that is read is a list of
-- chunks, an error at the end if it breaks, and the result of Close. Loops are structural recursion on
-- a list, but for the one of pemToJks, which has as many rounds as its input has bytes and one more:
-- each round reads a block, so that these are enough. A Go map is an association list, whose order is
-- one of the orders of `range`; nothing proved depends on it. Bytes are natural numbers, below 256
-- where it matters.
--
-- Parameters, for code that is not in the repository: SHA-256 (its digest is a non-empty string of
-- bytes; that it has no collisions is not assumed), temporary names (new, and beginning with "tmp"),
-- package regexp, package net/url, encoding/json on the manifest (decoding what was encoded gives the
-- same entries), the HTTP client, the transport under the registry's authentication, the S3 client (a
-- bucket of objects by name), encoding/pem (what follows a block is shorter), crypto/x509, crypto/rsa
-- and crypto/tls, go-pkcs12, path/filepath, xdg, running a process, logrus, os.RemoveAll, the gatherer
-- of metrics, multierror.Append, strings.Split, the connections of a tunnel and their copies.
--
-- Not modelled: logging; the mutex of the manifest, under which a method is one step; what a handler
-- does after the server was stopped; the offline command with handlers that interleave; what processes
-- that share a manifest do beside taking and giving up its lock; what goes through a tunnel; signals;
-- the parsing of options.
pub mod Base
pub mod Platform
pub mod Stream
pub mod Blobstore
pub mod Re
pub mod Lockfile
pub mod Listener
pub mod Verify
pub mod Jobs
pub mod Export
pub mod Download
pub mod Auth
pub mod Commands
pub mod Environment
pub mod Proxy
pub mod App
pub mod Tests
