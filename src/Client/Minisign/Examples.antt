-- ===== src/Client/Minisign/Examples.antt =====
-- The first test vector of RFC 8032, also in minisign's format with the comment "hello". base64 and the
-- hashes are the tables of what these runs ask for.
use out_warp.Prelude.{
  ℕ, ◌≡◌, refl, true, String, List, [], ◌∷◌, ◌++◌, length, none, some, ◌==◌, str_eq, if◌then◌else◌,
}
use out_warp.Client.Minisign.Ed25519.{ed25519_verify}
use out_warp.Client.Minisign.{Library}

abbrev key : List ℕ
key =
    215 ∷ 90 ∷ 152 ∷ 1 ∷ 130 ∷ 177 ∷ 10 ∷ 183 ∷ 213 ∷ 75 ∷ 254 ∷ 211 ∷ 201 ∷ 100 ∷ 7 ∷ 58 ∷ 14 ∷ 225
    ∷ 114 ∷ 243 ∷ 218 ∷ 166 ∷ 35 ∷ 37 ∷ 175 ∷ 2 ∷ 26 ∷ 104 ∷ 247 ∷ 7 ∷ 81 ∷ 26 ∷ []

abbrev signature : List ℕ
signature =
    229 ∷ 86 ∷ 67 ∷ 0 ∷ 195 ∷ 96 ∷ 172 ∷ 114 ∷ 144 ∷ 134 ∷ 226 ∷ 204 ∷ 128 ∷ 110 ∷ 130 ∷ 138 ∷ 132
    ∷ 135 ∷ 127 ∷ 30 ∷ 184 ∷ 229 ∷ 217 ∷ 116 ∷ 216 ∷ 115 ∷ 224 ∷ 101 ∷ 34 ∷ 73 ∷ 1 ∷ 85 ∷ 95 ∷ 184
    ∷ 130 ∷ 21 ∷ 144 ∷ 163 ∷ 59 ∷ 172 ∷ 198 ∷ 30 ∷ 57 ∷ 112 ∷ 28 ∷ 249 ∷ 180 ∷ 107 ∷ 210 ∷ 91 ∷ 245
    ∷ 240 ∷ 89 ∷ 91 ∷ 190 ∷ 36 ∷ 101 ∷ 81 ∷ 65 ∷ 67 ∷ 142 ∷ 122 ∷ 16 ∷ 11 ∷ []

-- SHA-512 of the first half of the signature and the key
abbrev digest : List ℕ
digest =
    39 ∷ 113 ∷ 6 ∷ 43 ∷ 107 ∷ 83 ∷ 111 ∷ 231 ∷ 255 ∷ 189 ∷ 218 ∷ 3 ∷ 32 ∷ 195 ∷ 130 ∷ 123 ∷ 3 ∷ 93
    ∷ 241 ∷ 13 ∷ 40 ∷ 77 ∷ 243 ∷ 240 ∷ 130 ∷ 34 ∷ 240 ∷ 77 ∷ 188 ∷ 167 ∷ 164 ∷ 194 ∷ 14 ∷ 241 ∷ 91
    ∷ 220 ∷ 152 ∷ 138 ∷ 34 ∷ 199 ∷ 32 ∷ 116 ∷ 17 ∷ 55 ∷ 124 ∷ 51 ∷ 242 ∷ 172 ∷ 9 ∷ 177 ∷ 232 ∷ 106
    ∷ 4 ∷ 98 ∷ 52 ∷ 40 ∷ 55 ∷ 104 ∷ 238 ∷ 123 ∷ 160 ∷ 60 ∷ 14 ∷ 159 ∷ []

-- the signature of the first one and the comment, and the hash that it asks for
abbrev global : List ℕ
global =
    208 ∷ 153 ∷ 36 ∷ 29 ∷ 244 ∷ 68 ∷ 145 ∷ 174 ∷ 245 ∷ 172 ∷ 191 ∷ 142 ∷ 77 ∷ 137 ∷ 76 ∷ 219 ∷ 36
    ∷ 106 ∷ 177 ∷ 234 ∷ 163 ∷ 11 ∷ 156 ∷ 106 ∷ 0 ∷ 148 ∷ 209 ∷ 25 ∷ 50 ∷ 37 ∷ 82 ∷ 67 ∷ 65 ∷ 183
    ∷ 104 ∷ 126 ∷ 35 ∷ 216 ∷ 143 ∷ 78 ∷ 34 ∷ 139 ∷ 184 ∷ 76 ∷ 200 ∷ 79 ∷ 167 ∷ 199 ∷ 53 ∷ 18 ∷ 24
    ∷ 112 ∷ 101 ∷ 197 ∷ 181 ∷ 155 ∷ 232 ∷ 190 ∷ 251 ∷ 35 ∷ 120 ∷ 115 ∷ 127 ∷ 13 ∷ []

abbrev global_digest : List ℕ
global_digest =
    51 ∷ 237 ∷ 54 ∷ 35 ∷ 13 ∷ 55 ∷ 107 ∷ 253 ∷ 3 ∷ 67 ∷ 62 ∷ 226 ∷ 66 ∷ 126 ∷ 120 ∷ 43 ∷ 159 ∷ 152
    ∷ 141 ∷ 42 ∷ 205 ∷ 71 ∷ 170 ∷ 134 ∷ 154 ∷ 190 ∷ 14 ∷ 135 ∷ 252 ∷ 189 ∷ 36 ∷ 94 ∷ 9 ∷ 234 ∷ 51
    ∷ 33 ∷ 195 ∷ 167 ∷ 162 ∷ 193 ∷ 61 ∷ 87 ∷ 122 ∷ 74 ∷ 237 ∷ 173 ∷ 139 ∷ 92 ∷ 143 ∷ 73 ∷ 107 ∷ 33
    ∷ 137 ∷ 150 ∷ 23 ∷ 30 ∷ 251 ∷ 224 ∷ 113 ∷ 178 ∷ 55 ∷ 14 ∷ 4 ∷ 11 ∷ []

abbrev key_id : List ℕ
key_id = 1 ∷ 2 ∷ 3 ∷ 4 ∷ 5 ∷ 6 ∷ 7 ∷ 8 ∷ []

abbrev head : List ℕ
head = b'E' ∷ b'd' ∷ key_id

abbrev pub library : Library
library = record {
  b64decode = λ s.
      if str_eq s "KEY"
      then some (head ++ key)
      else if str_eq s "SIGNATURE"
      then some (head ++ signature)
      else if str_eq s "GLOBAL"
      then some global
      else none;
  sha512 = λ m. if length m == 64 then digest else global_digest;
  blake2b = λ m. m;
  utf8 = λ s. 104 ∷ 101 ∷ 108 ∷ 108 ∷ 111 ∷ [];
}

abbrev pub signature_text : String
signature_text = "untrusted comment: x\nSIGNATURE\ntrusted comment: hello\nGLOBAL\n"

accepted : ed25519_verify (λ m. digest) key [] signature ≡ true
unfolding ed25519_verify
accepted = refl
