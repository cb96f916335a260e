-- ===== src/Client/Minisign/Laws.antt =====
-- What an accepted signature shows (client/outwarp/minisign.py).
use mathlib.Core.List.{Mem}
use out_warp.Prelude.{
  ℕ, ◌≡◌, refl, String, Bool, true, false, not, List, ◌++◌, ok, >>=-eq-ok, ◌==◌, length,
}
use out_warp.Prelude.Hex.{bytes_eq, bytes_eq_iff}
use out_warp.Client.Minisign.Ed25519.{ed25519_verify, take, drop}
use out_warp.Client.Minisign.{
  Library, MinisignError, empty_signature, bad_signature, wrong_length, wrong_algorithm, other_key,
  no_match, no_comment, bad_global, no_comment_match, is_algorithm, is_trusted, found, check,
  first_line, body_of, comment_of, rest_of, parse_public_key, signed_bytes, verify_comment, verify,
}

-- The key made the signature over the message, and the other one over it and the trusted comment.
pub record IsSigned (lib : Library) (message : List ℕ) (signature_text : String)
    (key_id key : List ℕ) : Type 0 where
  pub blob : List ℕ
  pub global : List ℕ
  pub comment : String
  pub algorithm : is_algorithm (take 2 blob) ≡ true
  pub made_by : take 8 (drop 2 blob) ≡ key_id
  pub over_message :
      ed25519_verify lib.sha512 key (signed_bytes lib (take 2 blob) message) (drop 10 blob) ≡ true
  pub over_comment :
      ed25519_verify lib.sha512 key (drop 10 blob ++ lib.utf8 (comment_of comment)) global ≡ true

pub check-true : (b : Bool) (e : MinisignError) {u : Unit {0}} → check b e ≡ ok u → b ≡ true
check-true true e h = refl
check-true false e h = cc

module _ (lib : Library) where
  verify_comment-over :
      (key sig : List ℕ) (lines : List String) {u : Unit {0}}
      → verify_comment lib key sig lines ≡ ok u
      → (comment : String) × (global : List ℕ) × (ed25519_verify lib.sha512 key
            (sig ++ lib.utf8 (comment_of comment))
            global
          ≡ true)
  unfolding verify_comment
  verify_comment-over key sig lines h =
      let (comment, e0, h0) =
        >>=-eq-ok (found no_comment (first_line (λ l. is_trusted l) lines)) _ h in
      let (line, e1, h1) =
        >>=-eq-ok (found no_comment (first_line (λ l. not (is_trusted l)) lines)) _ h0 in
      let (global, e2, h2) = >>=-eq-ok (found bad_global (lib.b64decode line)) _ h1 in
      (
        comment,
        global,
        check-true (ed25519_verify lib.sha512 key (sig ++ lib.utf8 (comment_of comment)) global)
            no_comment_match h2,
      )

  pub verify-IsSigned :
      (message : List ℕ) (signature_text key_text : String) {key_id key : List ℕ} {u : Unit {0}}
      → parse_public_key lib key_text ≡ ok (key_id, key)
      → verify lib message signature_text key_text ≡ ok u
      → IsSigned lib message signature_text key_id key
  unfolding verify
  verify-IsSigned message signature_text key_text {key_id} {key} parsed h0 =
      let h = rw parsed at h0 in
      let (first, e1, h1) =
        >>=-eq-ok (found empty_signature (first_line (λ l. true) (body_of signature_text))) _ h in
      let (blob, e2, h2) = >>=-eq-ok (found bad_signature (lib.b64decode first)) _ h1 in
      let (u3, e3, h3) = >>=-eq-ok (check (length blob == 74) wrong_length) _ h2 in
      let (u4, e4, h4) = >>=-eq-ok (check (is_algorithm (take 2 blob)) wrong_algorithm) _ h3 in
      let (u5, e5, h5) =
        >>=-eq-ok (check (bytes_eq (take 8 (drop 2 blob)) key_id) other_key) _ h4 in
      let made =
        ed25519_verify lib.sha512 key (signed_bytes lib (take 2 blob) message) (drop 10 blob) in
      let (u6, e6, h6) = >>=-eq-ok (check made no_match) _ h5 in
      let (comment, global, over) =
        verify_comment-over key (drop 10 blob) (rest_of (body_of signature_text)) h6 in
      record {
        blob = blob;
        global = global;
        comment = comment;
        algorithm = check-true (is_algorithm (take 2 blob)) wrong_algorithm e4;
        made_by =
            (bytes_eq_iff (take 8 (drop 2 blob)) key_id).0
              (check-true (bytes_eq (take 8 (drop 2 blob)) key_id) other_key e5);
        over_message = check-true made no_match e6;
        over_comment = over;
      }

-- A key of the list made the signature.
pub record IsTrusted (lib : Library) (message : List ℕ) (signature_text : String)
    (public_keys : List String) (key_id : List ℕ) : Type 0 where
  pub key_text : String
  pub key : List ℕ
  pub is_listed : Mem key_text public_keys
  pub parsed : parse_public_key lib key_text ≡ ok (key_id, key)
  pub is_signed : IsSigned lib message signature_text key_id key
