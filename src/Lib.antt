-- ===== src/Lib.antt =====
-- SDBX: a command line program and a daemon that install and operate a media stack from one typed
-- project configuration. This library models the parts of it that decide what a project is.
--
-- The parts and how they meet. A configuration (internal/config) is decoded, migrated and
-- validated; commands then change it by enabling addons or by changing the exposure mode. The
-- resolver (internal/registry) reads the configuration and the service catalog and computes the
-- graph of active services in dependency order, from which the generators write the project, routing
-- derives the host names and URLs, and the Cloudflare plan the routes of a tunnel. The addon manager
-- and the settings manager change the configuration and regenerate the project, or leave both as they
-- were.
--
-- Files and code.
--   Base              shared helpers: Boolean tests, lists, texts, results, maps, sorting; Base/Paths
--                     is Go's path/filepath on Unix, lexically.
--   Config            internal/config/config.go and plex.go. Config.antt has the types, the defaults,
--                     SetExposureMode, the addon methods and the legacy migrations; Patterns the
--                     regular expressions; Checks and Validate the method Validate, one definition
--                     for each group of its checks. Children of Validate hold the theorems.
--   Registry/Types    internal/registry/types.go: the service definition and the resolution graph.
--   Registry/Conditions    internal/registry/conditions.go.
--   Registry/Resolver      internal/registry/resolver.go, all but topologicalSort.
--   Registry/TopologicalSort    topologicalSort of internal/registry/resolver.go.
--   Registry/Validator     internal/registry/validator.go, and the names of images from
--                     image_resolver.go. Report is what a check returns, Patterns and Search the
--                     regular expressions; Definition, Container, Selectors, Network, Security,
--                     Permissions and Templates (over Fields) hold a group of checks each; Trust is
--                     Validate and ValidateWithTrustLevel. The other children hold theorems.
--   Registry/Sources       internal/registry/registry.go. Configuration is the validation of the
--                     configured sources (git.go); Managed is New, AddSource, RemoveSource and
--                     GetSource; Lookup is GetService and the boundary of the embedded catalog;
--                     Listing is ListServices and the registry as the resolver asks it (`catalog_of`).
--   Registry/Lock          internal/registry/lock.go. Lock.antt has the types of the lock file and the
--                     tests on its texts, Validate is ValidateLockFile, Images the resolvers that
--                     answer from a lock and selectPlatformDigest. The other children hold theorems.
--   Generator         internal/generator/generator.go: what `Plan` writes to the configuration of its
--                     caller, and the parameter `Generator` for the rest.
--   Addons            internal/addons/manager.go: the manager as a state, the files of the project as
--                     a second one behind the parameter `Generator`.
--   Settings          internal/settings/manager.go: Settings.antt reads and applies single settings,
--                     Settings/Manager is Set, Settings/Strconv the parsers of its values.
--   Routing           internal/routing/routing.go; Routing/Plex is plex.go.
--   Cloudflare        internal/cloudflare/routes.go.
--   Transaction       internal/generator/transaction.go: the journal and its validation;
--                     Transaction/Promotion is the promotion of its entries and the rollback,
--                     Transaction/Recovery the recovery and the end of GenerateProjectTransactional;
--                     Recovery/Steps has the moments at which they may stop.
--
-- How state and errors correspond. Structs are records with the source's fields, pointers that may
-- be nil are options. A map is the list of its entries in the order of one `range`; where the result
-- of the code does not read that order, the theorems hold for every order. A function that mutates
-- its receiver or the graph returns the new one. `(T, error)` is Result; error texts are format
-- strings with their arguments, unrendered.
--
-- Numbers. Go's `int` is the type of Base/Int where the program lets it be negative, and a natural
-- number otherwise. Counters (degrees of the sort) never pass the number of edges.
--
-- Fuel. `resolve` takes the depth of nested calls of resolveService as fuel; more than the number of
-- names that the catalog knows is enough. The loop of topologicalSort runs for as many rounds as
-- there are services, and its queue is then empty.
--
-- Parameters. `Host` is what the standard library reads from its databases and its address parsers
-- (time.LoadLocation, mail.ParseAddress, netip.ParseAddr). `Catalog` is what the resolver asks of the
-- registry; Registry/Sources gives it.
-- `Library` is what the validator takes from the standard library (time.ParseDuration,
-- strings.ToUpper, the parse of a text/template), `Outside` what a registry reads: the services in
-- the binary, in a directory or in a checkout, time.ParseDuration and url.Parse.
-- `FileSystem` is the calls on files of Transaction/Promotion, and `Laws` what they do to contents;
-- `JournalSystem` and `JournalLaws` are the further ones of Transaction/Recovery.
-- `Generator` is the two entry points of internal/generator that the managers of addons and of settings
-- call. Its answers tell the graph that `Plan` resolved, because `Plan` writes the active services to
-- the configuration of its caller, also where the call fails later.
--
-- Not modelled. Texts are valid UTF-8, so the check utf8.ValidString never fails and is left out.
-- YAML decoding, the template engine, Docker, the network and the terminal are outside of the model;
-- so are the git and cache layers of the sources, the generation of a lock file, the files of the
-- generators, the staging of a transaction, the broker, backups and the integrations.
pub mod Addons
pub mod Base
pub mod Cloudflare
pub mod Config
pub mod Generator
pub mod Registry
pub mod Routing
pub mod Settings
pub mod Transaction
