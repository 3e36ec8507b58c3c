-- ===== src/Lib.antt =====
-- GoAPTCacher, a pull-through cache for apt repositories.
--
-- cmd/goaptcacher takes the requests: handleRequest (proxy.go) answers, refuses, tunnels or caches one
-- by its host and method, checkOverrides (overrides.go) sends some to other servers, and what a client
-- asks for through an intercepted connection is answered by connectResponseWriter
-- (proxy_connect.go).
--
-- pkg/fscache is the cache proper. A request (request_get.go) is looked up in the access cache, a map
-- of metadata records that are also written next to the cached files (access_cache.go); the file of a
-- URL is found by buildLocalPath (fscache.go). Read and write locks, kept in two maps, keep a file
-- that is being written apart from its readers (access_cache.go). What is served is counted per day
-- (stats.go), and what is downloaded is checked against the free space (storage.go) and dropped from
-- the page cache of the kernel (cache_drop_writer.go).
--
-- Files:
--   Base        Go's tests, int64 and uint64 numbers, strings as lists of bytes, maps as association
--               lists (any order of `range` is one order of the list)
--   FilePath    path.Clean, filepath.Join, Dir and Base of the standard library, over bytes
--   LocalPath   pkg/fscache/fscache.go: buildLocalPath and the protocol numbers
--   Keys        pkg/fscache/access_cache.go: the keys of its maps
--   Locks       pkg/fscache/access_cache.go: the read and write locks, as whole calls (Exclusive) and
--               as steps of overlapping calls (Race)
--   Access      pkg/fscache/access_cache.go: the metadata records; Disk has their files, with what
--               encoding/json makes of their texts (Json), Methods the methods on one record, Flush
--               the flush, which writes the dirty records
--   Stats       pkg/fscache/stats.go: counters, snapshot, file; Persist has the flush in its three
--               locked parts, and Restart runs them beside tracked requests
--   Storage     pkg/fscache/storage.go and pkg/fscache/cache_drop_writer.go
--   Refresh     pkg/fscache/evaluate.go: when a file is looked up at its origin again (Due), and what
--               refreshFile does with the answer
--   Request     the handlers of requests to the cache: pkg/fscache/request_get.go (Serve, and Fetch for
--               the download), pkg/fscache/request_head.go and pkg/fscache/download.go (Head), the
--               goroutines behind a request and cacheRefresh (Background), and what net/http gives them
--               (Messages)
--   Sources     pkg/fscache/sourceverify.go, with its parsers (Parse) and the scanner of lines (Scan)
--   Cleaner     pkg/debrepocleaner/debrepocleaner.go: the checksums and the choice between them
--               (Checksum), readInRelease (Release), parsePackages (Packages) and VerifyChecksums
--               (Verify); Repositories is cmd/goaptcacher/repoverify.go
--   Expire      pkg/fscache/expire.go: GetUnusedFiles, with the loading of all records
--               (access_cache.go), and pkg/fscache/localfile.go
--   Connect     cmd/goaptcacher/proxy_connect.go: connectResponseWriter; Decode is the reader of the
--               chunked coding that its responses are held against
--   Intercept   pkg/httpsintercept/httpsintercept.go: the storage of certificates, their names
--               (San) and DER (Der)
--   Proxy       cmd/goaptcacher/proxy.go: the domain policy and the choice of a handler (Policy), and
--               cmd/goaptcacher/overrides.go (Overrides)
--
-- The clock, the answers of the file system and its faults are arguments. A time is a natural
-- number of nanoseconds from Go's zero time on; a day is a date with a year of four digits.
-- Recursion on fuel is in the decimal and hexadecimal text of a number, which gets more fuel than
-- the number has digits, in the bytes of a length, which gets the length, in the reader of chunks,
-- which gets more than there are chunks, and in serveGETRequest for its calls of itself, of which
-- there is at most one while nobody takes away the write lock that the request has, and in
-- CreateCertificate for its waits, of which there are none where no certificate of the domain is
-- being made. A request runs alone but for its sleeps, in which an argument says what the others
-- do; the goroutines that it starts are listed, and run as tasks. A regular file is known by its
-- path, and directories are not files. The origins, the decompressors, the hash functions, the
-- text of times and URLs, and what http.ServeFile answers to ranges and conditions are arguments.
--
-- Not modelled: keys and signatures (pkg/httpsintercept), the web pages, logging, and the start-up of
-- the program.
pub mod Base
pub mod FilePath
pub mod LocalPath
pub mod Keys
pub mod Locks
pub mod Stats
pub mod Storage
pub mod Access
pub mod Refresh
pub mod Request
pub mod Sources
pub mod Cleaner
pub mod Expire
pub mod Connect
pub mod Intercept
pub mod Proxy
