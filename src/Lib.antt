-- ===== src/Lib.antt =====
-- Verification of grooveproxy, the Go program under groove/proxy: a man-in-the-middle HTTP proxy with a
-- cache, a recorder of tapes, a choice of upstream dialers and a control API.
--
-- A request passes the header middleware (Headers), then the recorder (Recorder), which answers it in
-- read mode, then the cache (Cache), which answers it from an entry or waits for the lock of its address.
-- A request that no middleware answers goes through `RoundTrip` (Transport) and a dialer (Dialers). The
-- response passes the recorder and the cache again, which log and store it; Proxy/Serve is this whole
-- exchange. The control API (Controller) changes the modes, the tapes and the dialers. Startup is what
-- `main` does before its servers run, and CertInstall makes and loads the certificate of the proxy.
--
-- Files and the code they model:
--   Base, with Base/Tests, Base/Lists, Base/Text, Base/Int64: shared names, Boolean tests, lists over the
--     native numbers, text keys, maps and results with Go's error, and int64 with its wrap-around.
--   Lru and its children: groove/proxy/cache/lru.go. `set` is `Set`, `purge` its loop, and so on; the
--     callbacks are the interface Lru/Callbacks, with the promises of a store (`IsStore`).
--   Invalidator and its children: groove/proxy/cache/invalidator.go, over a disk store and a codec.
--   Slices, Http, Http/History: groove/proxy/utilities.go, and the parts of net/http that are used.
--   Dialers and its children: groove/proxy/dialers.go.
--   Transport and its children: groove/proxy/transport.go. Transport/Dial relates the probe of a server to
--     the dials of a transport, Transport/Requests counts what is sent.
--   Headers: groove/proxy/headers.go. Archives and Archives/Replay: groove/proxy/archives.go.
--   Recorder and its children: groove/proxy/recorder.go. A pointer to a record is its address.
--   CacheKey and its children: groove/proxy/cache_key.go. Cache and its children: groove/proxy/cache.go.
--     Cache/Locks, Cache/Exclusive and Cache/Turns are step relations on the request locks.
--   Controller and its children: groove/proxy/controller.go. CertStore: groove/proxy/optimized_storage.go.
--   EndProxy, EndProxy/Tunnel: groove/proxy/end_proxy.go, and the dial function of a definition in dialers.go.
--   Proxy: the middleware in the order of groove/proxy/main.go. Proxy/Serve and its children: an exchange,
--     from the request through `RoundTrip` to the response.
--     Controller/Becomes says what a call makes of the recorder, and Controller/Taping adds what it leaves
--     alone.
--   Controller/RecordReplay and Proxy/Serve/Session: a recording and its replay, over the recorder and the
--     control API, and over whole exchanges. Controller/Playback compares a replay with the response that
--     came, field by field.
--   Startup and its children: the rest of `main` in groove/proxy/main.go; Startup/Initial is its state.
--   CertInstall, CertInstall/Installed: groove/proxy/cert.go.
--   Tests and its children: the theorems at concrete inputs.
--
-- State is passed explicitly: each operation takes the record of its component and returns the new one.
-- Errors are values (`Result`, `Option String`). Where the recorder, the cache or its locks are used by
-- many callers, a step relation names the operations (`Step`, `Reach`) and the invariants are proved on it.
--
-- Fuel: the purge loop of `LRUCache` takes fuel, and more than the entries of the list is enough; the loop
-- of `RoundTrip` takes fuel, and more than the number of tries is enough; the reversal of a slice takes
-- fuel, and more than its length is enough. `none` means that the fuel ran out, or, where a comment says
-- so, a panic. Sizes are int64: the theorems bound their sums by 2 ^ 63.
--
-- Parameters: the disk store (diskv), the gob codec, goproxy.NewResponse, base64, cachecontrol,
-- regular expressions, the network, TLS and Go's transports, the JSON and gzip format of a tape, the
-- files and commands of the operating system, and the times and random draws.
--
-- Not modelled: the parsing of flags and the HTTP servers, the clients, the load tests and the
-- benchmarked proxies. Mutexes inside a single method are left out, but for the request locks of the
-- cache. A response has no transfer encoding, status text or content length, which are derived from its
-- request, its status and its body where a tape is played.
pub mod Base
pub mod Lru
pub mod Invalidator
pub mod Slices
pub mod Http
pub mod Dialers
pub mod Transport
pub mod Headers
pub mod Archives
pub mod Recorder
pub mod CacheKey
pub mod Cache
pub mod Controller
pub mod CertInstall
pub mod CertStore
pub mod EndProxy
pub mod Proxy
pub mod Startup
pub mod Tests
