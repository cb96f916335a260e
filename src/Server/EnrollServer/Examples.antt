-- ===== src/Server/EnrollServer/Examples.antt =====
-- An enrolment over the listener, and its theorem at it.
use out_warp.Prelude.{◌%◌, ◌≡◌, refl, String, true, none, some, [], ◌∷◌, arith, filter, err}
use out_warp.Prelude.Text.{str_len}
use out_warp.Prelude.Dict
use out_warp.Prelude.Hex.{hex, from_hex, bytes_eq}
use out_warp.Server.AdminToken.{Scrypt, scrypt_params}
use out_warp.Server.RateLimit.{hits_of, until_of, retry_after, recent, register_failure, reset}
use out_warp.Server.Enrollment as Enrollment
use out_warp.Server.Enrollment.{
  EnrollmentToken, token_already_used, matches, find, prune, required_params,
}
use out_warp.Server.ClientStore.{active, get, update, mark_enrolled, list_active}
use out_warp.Server.Operations.{
  Outside, complete_enrollment, registered, finish, save_clients, persist_wg_config,
}
use out_warp.Server.EnrollServer.{
  Listener, new_listener, fields, enrolled, is_wg_key, token_bucket, admit_client, redeem, answer,
  do_post,
}
use out_warp.Server.EnrollServer.Laws.{enrolled_then_redeem}

abbrev scrypt : Scrypt
scrypt secret salt params = some (str_len secret % 256 ∷ [])

abbrev same : String → String
same s = s

abbrev outside : Outside
outside = record {
  now = 120;
  today = "2026-01-01";
  keypair = ("private", "public");
  psk = none;
  spki = none;
  signing = none;
  random = "ab";
  salt = 1 ∷ [];
  wg_ok = true;
  install_ok = true;
}

abbrev listener : Listener
listener = new_listener (record {
  config = record {
    subnet = "10.8.0.0/24";
    server_address = "10.8.0.1/24";
    spki_sha256 = "pin";
    owcfg_signing_key_id = "id";
    owcfg_signing_private_key = "key";
    owcfg_signing_public_key = "public";
    clients = [];
  };
  table =
      record {
        name = "laptop";
        public_key = "";
        address = "10.8.0.2/32";
        psk = "";
        expires_at = "";
        state = active;
        enrolled_at = "";
      }
      ∷ [];
  tokens =
      record {
        client_name = "laptop";
        salt = "01";
        token_hash = "0c";
        created_at = 100;
        expires_at = 160;
        used_at = 0;
        scrypt = scrypt_params;
      }
      ∷ [];
  calls = [];
  wg_peers = [];
})

abbrev public_key : String
public_key = "AAAAAAAAAAAAAAAAAAAAAAAAAAAAAAAAAAAAAAAAAAA="

abbrev after : Listener
after = (do_post scrypt same outside true "127.0.0.1" (fields "ow_enroll_ab" public_key) listener).1

-- The pattern takes a line feed after the key.
key_with_line_feed : is_wg_key "AAAAAAAAAAAAAAAAAAAAAAAAAAAAAAAAAAAAAAAAAAA=\n" ≡ true
unfolding is_wg_key
key_with_line_feed = refl

enrolment :
    do_post scrypt same outside true "127.0.0.1" (fields "ow_enroll_ab" public_key) listener
    ≡ (enrolled "laptop" "10.8.0.2/32" true, after)
unfolding Dict.lookup Dict.insert Dict.remove hex from_hex bytes_eq filter hits_of until_of
    retry_after recent register_failure reset Enrollment.redeem matches find prune required_params
    get update mark_enrolled list_active complete_enrollment registered finish save_clients
    persist_wg_config is_wg_key token_bucket admit_client redeem answer do_post
enrolment = refl

enrolled_then_redeem_example :
    (Enrollment.redeem scrypt 150 "ow_enroll_ab" after.server.tokens).0 ≡ err token_already_used
enrolled_then_redeem_example =
    enrolled_then_redeem scrypt same outside "127.0.0.1" "ow_enroll_ab" public_key "laptop"
      "10.8.0.2/32" true listener after 150 (omega arith) enrolment
