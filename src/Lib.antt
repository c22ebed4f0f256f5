-- ===== src/Lib.antt =====
-- Miniblue is a local emulator of Azure: an HTTP server whose handlers, one package per service
-- under internal/services, share one key-value store (internal/store). A request is routed to a
-- handler, which reads and writes the store under keys like `vnet:<subscription>:<group>:<name>`
-- and answers JSON. This library models the store, the handlers named below, and the Shared Key
-- authorization of the blob service.
--
-- A handler is a function from the store, the parameters of the URL and the decoded body to the
-- new store and the response. What comes from outside is an argument: the clock, random numbers,
-- environment variables, what docker answers, and what encoding/json makes of a body. A handler
-- whose type assertion panics returns no response, and `Http.Recover` is the middleware that
-- answers 500 then. A mutex makes each method of the store one step; the order in which Go ranges
-- over a map is the order of the list of entries, on which no theorem depends.
--
-- Which file is about which code:
--   Store, Store/Memory, Store/File   internal/store/memory.go, backend.go, file.go: `Store.get` is
--                                     Store.Get, `Store.Memory.get` is MemoryBackend.Get, and so on;
--                                     `Store.File.save` and `new_file` are Save and NewFileBackend
--   Store/Contract                    what the methods of Store promise, on a map without an order
--   Value                             the structs and maps that the handlers store
--   Http, Http/Recover                internal/azerr, and safeRecover of internal/server/server.go
--   ResourceGroups                    internal/services/resourcegroups/handler.go; its child Cascade
--                                     has the clean-ups of internal/services/aks/cascade.go and
--                                     internal/services/vm/cascade.go, which Delete calls
--   KeyVault, Table, Queue,           internal/services/<name>/handler.go
--   EventGrid, Functions, AppConfig
--   ServiceBus, ServiceBus/Arm        internal/services/servicebus/handler.go
--   StorageAuth and its children      internal/storageauth/keys.go and sharedkey.go
--   Blob, StorageAccounts             internal/services/blob and internal/services/storageaccounts;
--                                     Blob.shared_key_auth joins the two with StorageAuth
--   Network, SecurityGroups,          internal/services/network, nsg, publicip, dns, loadbalancer, appgw,
--   PublicIp, Dns, LoadBalancer,      redis, sqldb and cosmosdb, each its handler.go; Arm has what the
--   AppGateway, Redis, SqlDb,         handlers of ARM resources share, CosmosDb/Arm the ARM resources of
--   CosmosDb, Arm                     Cosmos DB, LoadBalancer/Parts the parts of a load balancer
--   Identity, Identity/Token,         internal/services/identity/handler.go: identities, tokens, and
--   Identity/Token/Select             which assigned identity a token is for
--   Deployments,                      internal/services/deployments/handler.go and template.go; the
--   Deployments/Template              dispatcher, which calls the server's own routes, is an argument
--   Acr, Subscriptions,               internal/services/acr, subscriptions, metadata and auth
--   Metadata, Auth
--   Sites and its children             internal/services/sites/handler.go, serverfarms.go, slots.go and
--                                     config/handler.go: Sites/Config is the last, with its children
--   Apps, Apps/Patch, Apps/Secrets,   internal/services/apps/containerapps.go, environments.go and
--   Apps/Environments, Apps/Jobs      jobs.go
--   SqlServer, DbPostgres, DbMysql    internal/services/dbpostgres and internal/services/dbmysql;
--                                     SqlServer is what the two handlers share
--   Aks, Aks/Cluster, Aks/Containers  internal/services/aks/handler.go, types.go, backend.go and
--                                     kubeconfig.go; the backend is an argument
--   Vm, Vm/Identity                   internal/services/vm/model.go and identity.go
--   Server                            internal/server/server.go: SERVICES, reset, health
--   Prelude                           texts, association lists, decimals and sorting
--   Tests                             the theorems at concrete inputs
-- A handler `CreateOrUpdate` is `create_or_update` of its module. The children of a module that are
-- not named here hold the theorems about it. The virtual networks and security groups that a GET
-- changes in place are new stores there.
--
-- Numbers are natural numbers without bound; the counters of messages are Go's int, and the counter
-- of public IPs wraps around at 2^32. A float64 is the text that encoding/json writes for it. The
-- text of a decimal number runs on fuel, the number itself, which is enough since a number has no
-- more digits than its value, or one. Texts are lists of characters. SHA-256, HMAC, base64,
-- strings.ToLower, strings.ToUpper, url.QueryUnescape and url.ParseQuery are arguments, and so
-- are encoding/json, the calls of package os, the real SQL servers and the backend of clusters; a
-- theorem names what it relies on (`IsBase64`, `IsFaithful`, `IsJson`).
--
-- Not modelled: the PostgreSQL backend, which sends SQL to a server; the routes of chi; the handlers
-- of virtual machines and of container instances and the k3s backend, which drive docker; the XML of
-- the blob service, and the service properties and ARM containers of storage accounts; the timer of
-- StartAutoSave; two requests that race on a message counter; and the command-line client.
pub mod Prelude
pub mod Store
pub mod Value
pub mod Http
pub mod KeyVault
pub mod ResourceGroups
pub mod Table
pub mod Queue
pub mod EventGrid
pub mod Functions
pub mod AppConfig
pub mod ServiceBus
pub mod StorageAuth
pub mod Blob
pub mod StorageAccounts
pub mod Arm
pub mod Network
pub mod SecurityGroups
pub mod PublicIp
pub mod Dns
pub mod LoadBalancer
pub mod AppGateway
pub mod Identity
pub mod CosmosDb
pub mod SqlDb
pub mod Redis
pub mod Deployments
pub mod Server
pub mod Sites
pub mod SqlServer
pub mod DbPostgres
pub mod DbMysql
pub mod Vm
pub mod Aks
pub mod Apps
pub mod Acr
pub mod Subscriptions
pub mod Metadata
pub mod Auth
pub mod Tests
