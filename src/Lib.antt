-- ===== src/Lib.antt =====
-- TSecret: secrets of a Kubernetes cluster that are encrypted where they are stored and decrypted
-- only in the pod that reads them. The program has seven parts. pkg/crypto seals and opens single
-- values. pkg/providers reads remote secrets from Vault, AWS, Azure, GCP and Oracle.
-- pkg/webhook/keyresolver.go finds the key of a namespace, in a Secret or through Vault Transit.
-- pkg/controller pulls remote secrets into TSecrets, checks TSecrets and checks stores.
-- pkg/webhook/mutate.go rewrites the pods that refer to TSecrets, so that an init container
-- writes the decrypted values to a volume in memory; pkg/inject, run by cmd/inject, is what that
-- container does. pkg/certs makes the certificates of the webhook. cmd/encrypt seals values on
-- the command line.
--
-- - Common: texts as lists of bytes, maps as association lists, results, and lemmas on them. An
--   error keeps its format string with the arguments; rendering is not modelled.
-- - Api: pkg/apis/v1alpha1/types.go: the kinds TSecret, TSecretStore, ClusterTSecretStore and
--   TSecretSync (Api.Secrets, Api.Stores, Api.Syncs), and what is used of the metadata
--   (Api.Meta). The configuration types are called VaultConfig, AwsConfig, and so on; the field
--   Data is `entries` or `items`.
-- - Crypto: pkg/crypto/encrypt.go: Encrypt is `encrypt`, Decrypt is `decrypt` with a panic as a
--   result of its own, parseEncryptedValue is `parse_encrypted_value`. Crypto.Base64 is
--   encoding/base64 as far as it is used. The ciphers and crypto/rand are parameters, with their
--   documented contracts in `IsAead`, `IsChacha` and `Reads`.
-- - Providers: pkg/providers: one module for each provider, the interface Provider and the
--   factory in Providers, store.go in Providers.Store, vault_transit.go in Providers.Transit.
--   HTTP, JSON and the environment are the parameters `Http`, `Json` and `Environ`: a server
--   answers every request alike while one method runs. A method that fetches a token returns the
--   provider that it leaves. Providers.Requests writes out the requests for a secret and how the
--   answers hold it, Providers.Transit.RoundTrip those of the Transit engine.
-- - Keys: pkg/webhook/keyresolver.go: ResolveKey is `resolve_key`. The clients of the interface
--   Reader are records of functions.
-- - Controller: pkg/controller: `reconcile_tsecret`, `reconcile_store` and `reconcile_sync` over
--   a world `W` with the client's calls (`Client`); a call that writes returns the world it
--   leaves. The steps of the TSecretSync reconciler are `resolve_store`, `pull`, `write_target`,
--   and `fail_sync` or `succeed_sync`. time.ParseDuration is a parameter. Controller.World is a
--   small concrete cluster.
-- - Webhook: pkg/webhook/mutate.go: `handle` is Handle, `mutate` what it does between decoding
--   and marshalling, Webhook.Plan collectInjections, Webhook.Patch the functions that change the
--   pod, Webhook.Entrypoint and Webhook.Shell the wrapper around a command. The order in which Go
--   ranges over maps is the parameter `Ranging`. Webhook.Shell.Words is the splitting of a POSIX
--   shell, the independent description of quoting, and Webhook.Realised what the plans make of a
--   pod. A volume keeps the secrets of a secret volume and of a projected one.
-- - Inject: pkg/inject/writer.go: Write is `write`, its loop `write_entries`, WriteEnvLoader
--   `write_env_loader`. Package os is the parameter `FileSystem`, with the contract
--   `IsFileSystem` of a process that is not root in a folder without links; Inject.Path is
--   filepath.Join. Inject.Writer.Mounted holds the abstract view `Mounted` of what a mount
--   promises, Inject.Shell an independent description of what a POSIX shell makes of load-env.sh.
-- - Certs: pkg/certs/certs.go: `ensure_certs` with its three steps (Certs.Ensure), over the
--   parameters `X509` and `CertClient` of Certs.Tools.
-- - Commands: cmd/inject/main.go and cmd/encrypt/main.go as functions from the arguments to an
--   exit code and what the run leaves; Commands.Flags is package flag.
--
-- Every loop is structural recursion over the list it visits, so no fuel is used. Not modelled:
-- cmd/manager, which wires the parts to controller-runtime, logging, time limits of contexts, the
-- registration with controller-runtime, and the generated deep copies.
pub mod Common
pub mod Crypto
pub mod Api
pub mod Webhook
pub mod Providers
pub mod Keys
pub mod Controller
pub mod Inject
pub mod Certs
pub mod Commands
