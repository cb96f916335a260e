-- ===== src/Client/DnsCache.antt =====
-- client/outwarp/dnscache.py: the last known addresses of the hosts that the client dials. `file` is
-- the `hosts` object of the file, `none` where there is none that reads.
use out_warp.Prelude.{
  String, Bool, true, false, ◌||◌, Option, none, some, [], ◌∷◌, str_eq, if◌then◌else◌,
}
use out_warp.Prelude.Dict
use out_warp.Prelude.Dict.{Dict, UniqueKeys, lookup-insert, insert-UniqueKeys}

pub record DnsCache : Type 0 where
  pub memory : Dict String
  pub loaded : Bool
  pub file : Option (Dict String)
  pub writable : Bool

-- `_memory.update({k: v for k, v in hosts.items() if v})`
unfoldable pub update : Dict String → Dict String → Dict String
update [] memory = memory
update ((k, v) ∷ hosts) memory =
    update hosts (if str_eq v "" then memory else Dict.insert k v memory)

abbrev hosts_of_file : Option (Dict String) → Dict String
hosts_of_file none = []
hosts_of_file (some hosts) = hosts

unfoldable pub load : DnsCache → DnsCache
unfolding update
load c =
    if c.loaded
    then c
    else record c { memory = update (hosts_of_file c.file) c.memory; loaded = true }

abbrev save : DnsCache → DnsCache
save c = if c.writable then record c { file = some c.memory } else c

abbrev is_known : String → Option String → Bool
is_known ip none = false
is_known ip (some known) = str_eq known ip

unfoldable pub remember : String → String → DnsCache → DnsCache
unfolding load
remember host ip c =
    if str_eq host "" || str_eq ip ""
    then c
    else if is_known ip (Dict.lookup host (load c).memory)
    then load c
    else save (record (load c) { memory = Dict.insert host ip (load c).memory })

unfoldable pub lookup : String → DnsCache → Option String × DnsCache
unfolding load
lookup host c = (Dict.lookup host (load c).memory, load c)
