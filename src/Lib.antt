-- ===== src/Lib.antt =====
-- AD-PKI CA: the certification authority's service, from the HTTP handlers down to the files: the
-- ACME server (RFC 8555), the direct signing of certificates, the import of CAs, the OCSP responder,
-- the lists of revoked certificates, the timestamp authority and the background workers.
--
-- The program. `cmd/ca-server/main.go` binds every route to a handler, most of them behind
-- `AuthMiddleware` (`internal/api/auth_middleware.go`). The ACME handlers
-- (`internal/api/acme_handler.go`) take signed requests: each spends a replay nonce
-- (`internal/acme/nonce.go`), finds the account (`internal/acme/account.go`), checks the signature
-- with go-jose, and works on orders and authorizations (`internal/acme/order.go`) that are kept as
-- JSON files (`internal/acme/storage.go`, `internal/acme/acme_types.go`). A challenge is validated in
-- a goroutine (`internal/acme/challenge.go`), which saves its verdict and updates the order. Finalize
-- signs the request (`internal/acme/sign.go`, `internal/ca/sign.go`, `internal/ca/loader_pem.go`,
-- `internal/ca/chain.go`) and stores the certificate (`internal/storage/certificate.go`); so do the
-- handlers of `internal/api/sign_handler.go`, for a request that is uploaded or made from data
-- (`internal/ca/csr.go`, `internal/ca/csr_builder.go`, `internal/ca/key.go`,
-- `internal/crypto/key.go`). The import (`internal/api/import_handler.go`,
-- `internal/api/root_handler.go`) checks an intermediate (`internal/ca/validate.go`,
-- `internal/ca/key_validation.go`) and stores it (`internal/storage`). The OCSP responder
-- (`internal/api/ocsp_handler.go`, `internal/ca/ocsp.go`) and the worker of the lists
-- (`internal/worker/crl-worker.go`, `internal/ca/crl.go`) load all intermediates
-- (`internal/ca/loader.go`) and ask the backend which certificates are revoked.
--
-- The files here. Base (shared names, lists, texts, maps, integers), Json (JSON documents and their
-- readers), Files (the file system), Base64 and Hex (the encodings) model what the code uses of the
-- Go library. Env holds what the repository does not: the random source, openssl, go-jose,
-- crypto/x509, the OCSP and timestamp libraries, the network and the backend are functions of a
-- record that every definition takes; Config has the base directory (`internal/config/path.go`);
-- Env/Templates has what is handed to them. World is the state (files, nonces, goroutines that have
-- not run yet, the clock, the draws from the random source, the responses that the OCSP responder
-- keeps, the notices to the backend, the runs of the time server's command) and the actions on it,
-- `Exec E A`, which return a value or an error and keep what was done before the error. Acme models
-- internal/acme, a module for each file; Ca models internal/ca, internal/crypto and internal/storage:
-- Ca/Loader and Ca/Intermediates (loading), Ca/Sign, Ca/Chain and Ca/Issued (certificates),
-- Ca/Request (keys and requests), Ca/Revocation (the backend's list), Ca/Validate and Ca/Stored
-- (imports), Ca/Tsa. Ocsp has the responder's cache and its keys. Api models the handlers: those of
-- ACME with the steps that they share in Api/Signed, Api/Sign, Api/Import, Api/System, Api/Ocsp,
-- Api/Crl (with the worker's round), Api/Ntp, Api/Tsa; Api/Http/Refusal composes what is known of
-- their errors; the routes are in Api/Access. Worker/Cleanup models
-- `internal/worker/acme_cleanup_worker.go` and `internal/storage/acme.go`. A module below one of
-- these holds its theorems. Tests holds a small CA, at which the theorems are applied.
--
-- Choices. A handler is a function `Request → World → Response × World`; its early returns are errors
-- of type `Response`; a handler that panics answers `aborted`, with no status. Times are seconds
-- since Go's zero time, read once per state: the clock does not advance within a handler. Local time
-- is a parameter (`add_date` for `AddDate`, `two_o_clock` for the 02:00 of a day), since it depends
-- on the zone. Texts are strings, and a file holds what was written to it, a JSON document as its
-- tree; keys of JSON documents are compared without regard to case. A write can be refused
-- (`refuses`), which changes nothing, or break off (`cuts`), which leaves a part in the file. The
-- goroutine of the challenge handler is a job in the state, which `run_job` runs. The goroutine that
-- `Generate` starts for the cleanup is run at once, and so is `notifyLaravel`, whose post is added to
-- the state's `notices` with the backend's answer, if there was one. A round of a worker is a
-- function of the state; the pauses between the rounds are left out, as are the logs and the error
-- texts that come from libraries. JSON numbers below zero do not occur. Every loop of the code goes
-- over a list. The digits of a number (Hex) are taken in as many rounds as the number and one, which
-- is more than it has digits.
--
-- Not modelled: the cleaning of request paths by net/http, and concurrent changes of the files, or of
-- the responder's cache, by several handlers. `internal/acme/jws.go` and
-- `internal/ca/intermediate.go` are modelled (Acme/Jws, Ca/Settings), but nothing calls them, and no
-- theorem is about the first.
pub mod Base
pub mod Config
pub mod Json
pub mod Files
pub mod Base64
pub mod Env
pub mod World
pub mod Ocsp
pub mod Worker
pub mod Hex
pub mod Ca
pub mod Acme
pub mod Api
pub mod Tests
