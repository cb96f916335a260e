-- ===== src/Lib.antt =====
-- OutWarp: a WireGuard tunnel carried by wstunnel over a WebSocket. A server (server/outwarp_server)
-- keeps a registry of clients and admits them; a client (client/outwarp) tries a ladder of ways to
-- reach it. This library models the decisions of both and proves what they promise.
--
-- The parts, and the file of each, with paths from the repository's root:
-- - Server/IpPool: ip_pool.py of server/outwarp_server, `next_available_ip`, with the IPv4 texts that
--   it parses (IpPool/Address). Addresses are numbers below 2 ^ 32.
-- - Server/RateLimit, Server/AdminToken, Server/Sessions: web_auth.py of server/outwarp_server. The
--   limiter and the sessions are association lists (Prelude/Dict) with the source's operations; the
--   token file is a record of the fields that read.
-- - Server/Panel: sign-in, sign-out and the access check of web_server.py of server/outwarp_server,
--   composed from the three parts above.
-- - Server/Enrollment: enrollment.py of server/outwarp_server, one-time tokens in a list.
-- - Server/ClientStore, Server/ClientNames: the table of client_store.py, and `ClientEntry` and
--   `validate_client_name` of config.py, of server/outwarp_server.
-- - Server/Wireguard: wireguard.py of server/outwarp_server, the live peers and the configuration.
-- - Server/Operations: operations.py of server/outwarp_server. One record holds the config file, the
--   client table, the tokens, the calls to the interface and the written peers; each operation takes
--   it, with a record of what comes from outside, and returns a result and the next one.
-- - Server/Config: config.py of server/outwarp_server, the configuration from and to its JSON value;
--   Server/Owcfg: `build_owcfg` of owcfg.py, the profile that the client's `_parse` reads.
-- - Server/EnrollServer: enroll_server.py of server/outwarp_server, which redeems a token, completes
--   the enrolment and counts failures in two limiters.
-- - Server/ClientIp: `client_ip` of web_auth.py; Server/Restart: `restart_services` of operations.py.
-- - Server/HandshakeMonitor: handshake_monitor.py of server/outwarp_server, the logged transitions.
-- - Client/Fallback, Client/Sticky: fallback.py of client/outwarp, the ladder, its commands and their
--   redaction, and the store of what worked on which network.
-- - Client/Routing: routing.py of client/outwarp, the addresses that stay outside the tunnel.
-- - Client/Tunnel: `Tunnel` of tunnel.py of client/outwarp. Transport finds the wstunnel binary, Resolve
--   turns names into addresses, Rung tries one rung, Connect walks the ladder. A record holds the
--   tunnel with its processes and its interface; another holds what one call meets outside, each read
--   of the cancellation included.
-- - Client/Manager: `TunnelManager` of tunnel.py: the worker as a loop over rounds, and `stop`.
-- - Client/Config: `_parse` of config.py of client/outwarp, a profile from its JSON value,
--   `apply_profile_patch` and `_to_dict`. `str`, `int` and `ipaddress` are parameters where they meet
--   what this library does not hold.
-- - Client/Minisign: minisign.py of client/outwarp, with its Ed25519 verifier, which runs.
-- - Client/ProfileTrust: profile_trust.py of client/outwarp, and the import of a profile in config.py
--   up to enrolment.
-- - Client/KillSwitch, Client/DnsCache: killswitch.py and dnscache.py of client/outwarp.
-- - Client/Bypass, Client/AllowedIps: wireguard.py of client/outwarp, the networks outside the tunnel
--   and what remains of IPv4 without them, as networks of numbers.
-- - Prelude: shared tests, lists, results, dictionaries, decimal and hexadecimal texts.
--
-- Conventions. Times are natural numbers, whole ticks of the clock, and `now - x` is moved to the
-- other side of its comparison. scrypt, the hashes, base64 and `str.lower` are parameters; a
-- theorem that needs it assumes that digests are bytes. Random tokens, salts and keys are arguments
-- of the call that draws them. A file is what reads from it; a write either takes place or leaves
-- the old content, but for the file of known servers, which is not written atomically and may be
-- left torn. The only loops on fuel are the decimal printer, which gets one unit more than the
-- number, the search for a free host, which gets the number of hosts, that for a netmask, which
-- gets the 33 prefix lengths, the powers and multiples of Ed25519, which get 256 units for numbers
-- below 2 ^ 256, and the worker of the client, for which the limit on attempts is enough where no
-- session becomes stable.
--
-- Not modelled: sockets and HTTP parsing, SQLite's locking, the wg and wstunnel processes, the user
-- interfaces and the diagnostics. Locks are taken as given: an operation is one step.
pub mod Prelude
pub mod Server
pub mod Client
