-- ===== src/Sanitizer/Cipher/Deciphered.antt =====
-- What is enciphered can be deciphered with the same key.
use Prim.Native.Nat.{bit_xor}
use kimi_proxy.Base.{
  ℕ, zero, suc, ◌+◌, ◌≤◌, ◌<◌, ◌≡◌, refl, sym, ap, subst, ◌>>=◌, ◌∙◌, inl, inr, String, Bool, true,
  false, ◌&&◌, Option, some, List, [], ◌∷◌, ◌++◌, length, length-append, take, drop, All, arith,
  Bool-cases, ltb, ◌==◌, ==_iff, ◌=ₛ◌, eq_iff,
}
use kimi_proxy.Sanitizer.Cipher
use kimi_proxy.Sanitizer.Cipher.{Crypto, xor_bytes, keystream_of, encrypt_content, decrypt_content}

-- the bytes below `k` undo themselves on `b`
abbrev undone_by : ℕ → ℕ → Bool
undone_by b zero = true
undone_by b (suc k) = undone_by b k && (bit_xor (bit_xor b k) k == b)

-- the same for all bytes `b` below a bound
abbrev undone : ℕ → Bool
undone zero = true
undone (suc b) = undone b && undone_by b 256

both_true : (a b : Bool) → (a && b) ≡ true → (a ≡ true) × (b ≡ true)
both_true true b h = (refl, h)
both_true false b h = absurd cc

undone_by-xor : (b bound k : ℕ) → k < bound → undone_by b bound ≡ true → bit_xor (bit_xor b k) k ≡ b
undone_by-xor b zero k lt h = absurd (omega arith)
undone_by-xor b (suc m) k lt h = elim (Bool-cases (k == m)) [
  | inl p ↦
      subst (λ c. bit_xor (bit_xor b c) c ≡ b) (sym ((==_iff k m).0 p))
        ((==_iff (bit_xor (bit_xor b m) m) b).0 (both_true _ _ h).1)
  | inr p ↦ undone_by-xor b m k (ground (arith, ==_iff k m)) (both_true _ _ h).0
]

undone-undone_by : (bound b : ℕ) → undone bound ≡ true → b < bound → undone_by b 256 ≡ true
undone-undone_by zero b h lt = absurd (omega arith)
undone-undone_by (suc m) b h lt = elim (Bool-cases (b == m)) [
  | inl p ↦ subst (λ c. undone_by c 256 ≡ true) (sym ((==_iff b m).0 p)) (both_true _ _ h).1
  | inr p ↦ undone-undone_by m b (both_true _ _ h).0 (ground (arith, ==_iff b m))
]

undone_bytes : undone 256 ≡ true
undone_bytes = refl

bit_xor_twice : (x y : ℕ) → x < 256 → y < 256 → bit_xor (bit_xor x y) y ≡ x
bit_xor_twice x y h k = undone_by-xor x 256 y k (undone-undone_by 256 x undone_bytes h)

abbrev pub AreBytes : List ℕ → Type 0
AreBytes = All (λ b. b < 256)

xor_bytes_twice :
    (bs ks : List ℕ)
    → AreBytes bs
    → AreBytes ks
    → length bs ≤ length ks
    → xor_bytes (xor_bytes bs ks) ks ≡ bs
unfolding xor_bytes
xor_bytes_twice [] ks h k le = refl
xor_bytes_twice (b ∷ bs) [] h k le = absurd (omega arith)
xor_bytes_twice (b ∷ bs) (c ∷ ks) h k le =
    rw (bit_xor_twice b c h.0 k.0, xor_bytes_twice bs ks h.1 k.1 (omega arith)) refl

length-xor_bytes : (bs ks : List ℕ) → length bs ≤ length ks → length (xor_bytes bs ks) ≡ length bs
unfolding xor_bytes
length-xor_bytes [] ks le = omega arith
length-xor_bytes (b ∷ bs) [] le = absurd (omega arith)
length-xor_bytes (b ∷ bs) (c ∷ ks) le = omega (arith, length-xor_bytes bs ks (omega arith))

AreBytes-append : (bs cs : List ℕ) → AreBytes bs → AreBytes cs → AreBytes (bs ++ cs)
AreBytes-append [] cs h k = k
AreBytes-append (b ∷ bs) cs h k = (h.0, AreBytes-append bs cs h.1 k)

take-length : (xs ys : List ℕ) (n : ℕ) → length xs ≡ n → take n (xs ++ ys) ≡ xs
take-length [] ys zero h = refl
take-length [] ys (suc n) h = absurd (omega arith)
take-length (x ∷ xs) ys zero h = absurd (omega arith)
take-length (x ∷ xs) ys (suc n) h = ap (◌∷◌ x) (take-length xs ys n (omega arith))

drop-length : (xs ys : List ℕ) (n : ℕ) → length xs ≡ n → drop n (xs ++ ys) ≡ ys
drop-length [] ys zero h = refl
drop-length [] ys (suc n) h = absurd (omega arith)
drop-length (x ∷ xs) ys zero h = absurd (omega arith)
drop-length (x ∷ xs) ys (suc n) h = drop-length xs ys n (omega arith)

not_empty :
    (xs ys : List ℕ) → length xs ≡ 16 → ◌≡◌ {A = Option (List ℕ)} (some []) (some (xs ++ ys)) → ⊥
not_empty [] ys h e = absurd (omega arith)
not_empty (x ∷ xs) ys h e = cc

-- what hashlib, base64 and the codec promise
pub record Promises (C : Crypto) : Type 0 where
  pub decode-encode : (s : String) → C.decode (C.encode s) ≡ some s
  pub encode-AreBytes : (s : String) → AreBytes (C.encode s)
  pub b64decode-b64encode : (bs : List ℕ) → C.b64decode (C.b64encode bs) ≡ some bs
  pub b64decode_empty : C.b64decode "" ≡ some []
  pub length-block : (key : List ℕ) (counter : ℕ) → length (C.block key counter) ≡ 32
  pub block-AreBytes : (key : List ℕ) (counter : ℕ) → AreBytes (C.block key counter)

module _ (C : Crypto) (P : Promises C) where
  keystream_from-AreBytes :
      (fuel : ℕ) (key : List ℕ) (size counter : ℕ) (ks : List ℕ)
      → AreBytes ks
      → AreBytes (Cipher.keystream_from C fuel key size counter ks)
  unfolding Cipher.keystream_from
  keystream_from-AreBytes zero key size counter ks h = h
  keystream_from-AreBytes (suc fuel) key size counter ks h =
      elim (Bool-cases (ltb (length ks) size)) [
        | inl p ↦ rw p (
            keystream_from-AreBytes fuel key size (suc counter) (ks ++ C.block key counter)
              (AreBytes-append ks (C.block key counter) h (P.block-AreBytes key counter)))
        | inr p ↦ rw p h
      ]

  keystream_from_enough :
      (fuel : ℕ) (key : List ℕ) (size counter : ℕ) (ks : List ℕ)
      → size ≤ length ks + fuel
      → size ≤ length (Cipher.keystream_from C fuel key size counter ks)
  unfolding Cipher.keystream_from
  keystream_from_enough zero key size counter ks h = omega arith
  keystream_from_enough (suc fuel) key size counter ks h =
      let more = ks ++ C.block key counter in
      let longer : length more ≡ length ks + 32 =
        omega (arith, length-append ks (C.block key counter), P.length-block key counter) in
      ground (arith, longer, keystream_from_enough fuel key size (suc counter) more)

  deciphered_with-xor_bytes :
      (salt : List ℕ) (content key_str : String)
      → let bytes = C.encode content in
        let key = C.pbkdf2_hmac (C.encode key_str) salt in
        Cipher.deciphered_with C key_str salt (xor_bytes bytes (keystream_of C key (length bytes)))
        ≡ some content
  unfolding Cipher.deciphered_with keystream_of
  deciphered_with-xor_bytes salt content key_str =
      let bytes = C.encode content in
      let key = C.pbkdf2_hmac (C.encode key_str) salt in
      let ks = keystream_of C key (length bytes) in
      let enough : length bytes ≤ length ks =
        keystream_from_enough (length bytes) key (length bytes) 0 [] (omega arith) in
      ap (λ n. C.decode (xor_bytes (xor_bytes bytes ks) (keystream_of C key n)))
        (length-xor_bytes bytes ks enough)
      ∙ (ap C.decode (
            xor_bytes_twice bytes ks (P.encode-AreBytes content)
              (keystream_from-AreBytes (length bytes) key (length bytes) 0 [] tt) enough)
          ∙ P.decode-encode content)

  deciphered-append :
      (salt cipher : List ℕ) (key_str : String)
      → length salt ≡ 16
      → Cipher.deciphered C key_str (salt ++ cipher) ≡ Cipher.deciphered_with C key_str salt cipher
  unfolding Cipher.deciphered
  deciphered-append salt cipher key_str h =
      ap (λ s. Cipher.deciphered_with C key_str s (drop 16 (salt ++ cipher)))
        (take-length salt cipher 16 h)
      ∙ ap (Cipher.deciphered_with C key_str salt) (drop-length salt cipher 16 h)

  -- A text that is enciphered with a key and a salt of 16 bytes is deciphered with that key, whatever
  -- the salt.
  pub decrypt_content-encrypt_content :
      (salt : List ℕ) (content key_str : String)
      → length salt ≡ 16
      → decrypt_content C (encrypt_content C salt content key_str) key_str ≡ some content
  unfolding decrypt_content encrypt_content
  decrypt_content-encrypt_content salt content key_str h =
      ap (λ (o : Option (List ℕ)). o >>= Cipher.deciphered C key_str) (P.b64decode-b64encode _)
      ∙ (deciphered-append salt _ key_str h ∙ deciphered_with-xor_bytes salt content key_str)

  -- what is enciphered is never the empty text
  pub encrypt_content_nonempty :
      (salt : List ℕ) (content key_str : String)
      → length salt ≡ 16
      → (encrypt_content C salt content key_str =ₛ "") ≡ false
  unfolding encrypt_content
  encrypt_content_nonempty salt content key_str h =
      elim (Bool-cases (encrypt_content C salt content key_str =ₛ "")) [
        | inl p ↦ absurd (
            not_empty salt _ h (
              sym P.b64decode_empty
              ∙ (ap C.b64decode (sym ((eq_iff (encrypt_content C salt content key_str) "").0 p))
                  ∙ P.b64decode-b64encode _)))
        | inr p ↦ p
      ]
