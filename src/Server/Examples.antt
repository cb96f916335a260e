-- ===== src/Server/Examples.antt =====
-- Runs of `client_ip`, `restart_services` and the handshake monitor, and their theorems at them.
use out_warp.Prelude.{some, [], ◌∷◌, ◌≡◌, refl, true, false, not, ◌&&◌, ◌||◌, none, str-ne}
use out_warp.Prelude.Dict
use out_warp.Server.HandshakeMonitor.{poll, poll_clients, last_handshake, lost}
use out_warp.Prelude.Text.{split, has_no}
use out_warp.Server.ClientNames.{strip}
use out_warp.Server.ClientIp.{client_ip, last_hop, client_ip-appended}
use out_warp.Server.Restart.{
  Platform, restart_services, is_clean, is_noted, restart_services-ordered,
}

blank_header : client_ip " , " "" true ≡ "?"
unfolding client_ip last_hop split strip
blank_header = refl

client_ip-appended_example : client_ip "1.2.3.4, 203.0.113.9" "127.0.0.1" true ≡ "203.0.113.9"
unfolding has_no strip
client_ip-appended_example =
    client_ip-appended "1.2.3.4" " 203.0.113.9" "127.0.0.1" refl (str-ne "203.0.113.9" "" refl)

-- A platform on which wstunnel does not restart.
abbrev platform : Platform
platform = record {
  reconcile_ok = true;
  transport_owner_note = none;
  manages_enroll_service = true;
  wstunnel_found = true;
  install_wstunnel_ok = true;
  restart_wstunnel_ok = false;
  install_enroll_ok = true;
  restart_enroll_ok = true;
}

restart_services-ordered_example :
    let r = restart_services platform in
    ((r.wstunnel_restarted && not r.wg_restarted) ≡ false)
    × ((r.enroll_restarted && not r.wstunnel_restarted) ≡ false)
    × (is_clean r.errors ≡ (r.enroll_restarted || r.wg_restarted && is_noted r.transport_note))
restart_services-ordered_example = restart_services-ordered platform

-- A peer whose handshake is recent, seen twice.
first_poll :
    (poll (("key", some 900) ∷ []) 1000 (("laptop", "key") ∷ []) []).0
    ≡ last_handshake "laptop" ∷ []
unfolding poll poll_clients Dict.lookup Dict.insert
first_poll = refl

lost_later :
    (poll
      (("key", some 900) ∷ [])
      1300
      (("laptop", "key") ∷ [])
      (poll (("key", some 900) ∷ []) 1000 (("laptop", "key") ∷ []) []).1).0
    ≡ lost "laptop" ∷ []
unfolding poll poll_clients Dict.lookup Dict.insert
lost_later = refl
