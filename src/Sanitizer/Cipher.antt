-- ===== src/Sanitizer/Cipher.antt =====
-- The cipher of the masked texts (encrypt_content and decrypt_content of features/sanitizer/
-- storage.py): the bytes of a text are joined by XOR with a stream of SHA-256 blocks. The functions
-- of hashlib, base64 and the codecs are parameters; bytes are numbers below 256.
pub mod Deciphered
use Prim.Native.Nat.{bit_xor}
use kimi_proxy.Base.{
  ℕ, zero, suc, String, Option, List, [], ◌∷◌, ◌++◌, length, take, drop, ltb, if◌then◌else◌, ◌>>=◌,
}

pub record Crypto : Type 0 where
  -- `text.encode('utf-8')` and `bytes.decode('utf-8')`, none where it raises
  pub encode : String → List ℕ
  pub decode : List ℕ → Option String
  -- `hashlib.pbkdf2_hmac('sha256', key, salt, 10000)`
  pub pbkdf2_hmac : List ℕ → List ℕ → List ℕ
  -- `hashlib.sha256(key + counter.to_bytes(4, 'big')).digest()`
  pub block : List ℕ → ℕ → List ℕ
  -- base64, as a text, and back, none where it raises
  pub b64encode : List ℕ → String
  pub b64decode : String → Option (List ℕ)

-- `zip` of two byte strings under XOR
unfoldable pub xor_bytes : List ℕ → List ℕ → List ℕ
xor_bytes [] ks = []
xor_bytes (b ∷ bs) [] = []
xor_bytes (b ∷ bs) (k ∷ ks) = bit_xor b k ∷ xor_bytes bs ks

module _ (C : Crypto) where
  -- the loop, for `fuel` rounds: a block is never empty, so a round for each byte is enough
  keystream_from : ℕ → List ℕ → ℕ → ℕ → List ℕ → List ℕ
  keystream_from zero key size counter keystream = keystream
  keystream_from (suc fuel) key size counter keystream =
      let rest = keystream_from fuel key size (suc counter) (keystream ++ C.block key counter) in
      if ltb (length keystream) size then rest else keystream

  unfoldable pub keystream_of : List ℕ → ℕ → List ℕ
  unfolding keystream_from
  keystream_of key size = keystream_from size key size 0 []

  -- with the salt that `os.urandom(16)` gives
  unfoldable pub encrypt_content : List ℕ → String → String → String
  unfolding keystream_of xor_bytes
  encrypt_content salt content key_str =
      let bytes = C.encode content in
      let key = C.pbkdf2_hmac (C.encode key_str) salt in
      C.b64encode (salt ++ xor_bytes bytes (keystream_of key (length bytes)))

  deciphered_with : String → List ℕ → List ℕ → Option String
  unfolding keystream_of xor_bytes
  deciphered_with key_str salt encrypted =
      let key = C.pbkdf2_hmac (C.encode key_str) salt in
      C.decode (xor_bytes encrypted (keystream_of key (length encrypted)))

  deciphered : String → List ℕ → Option String
  unfolding deciphered_with
  deciphered key_str payload = deciphered_with key_str (take 16 payload) (drop 16 payload)

  unfoldable pub decrypt_content : String → String → Option String
  unfolding deciphered
  decrypt_content encrypted_b64 key_str = C.b64decode encrypted_b64 >>= deciphered key_str
