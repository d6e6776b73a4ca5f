-- ===== src/MediaKeySession/Decrypt.antt =====
-- `CMediaKeySession::Decrypt` of cdmi-stub/mediakeysession.cpp: when it decrypts, and what is left in
-- the heap.
use open_content_decryption.Base.{
  ℕ, ◌+◌, ◌*◌, ◌≤◌, ◌<◌, ◌≡◌, ◌≢◌, refl, Bool, true, false, none, some, List, [], ◌∷◌, ◌++◌, Bytes,
  length, ltb, lt→ltb, length-append, ◌==◌, ==_iff, arith, Bool-cases, Option-cases, inl, inr,
  replicate, drop, zero, suc, ◌-◌, ap, ◌∙◌,
}
use open_content_decryption.Base.Outcome.{ok, fault, uninitialised}
use open_content_decryption.World.{World, Platform, cdmi_success, Slot, free_buffer}
use open_content_decryption.World.Slots.{
  set-append_last, live_count, live_count-concat, get_elem?-append_last,
}
use open_content_decryption.JsonWebKey.{KeyIdAndKeyPairs}
use open_content_decryption.Callbacks.{before_nul}
use open_content_decryption.MediaKeySession.{
  decrypt, decrypt_first, decrypt_with, aes_key, fail, counter_block, aes_block_size, key_size,
  Decrypted,
}

-- A key of sixteen bytes at the head of the keys, and the schedule that OpenSSL makes of it.
pub record HasKey (platform : Platform) (w : World) (schedule : platform.Schedule) : Type 0 where
  pub key_id : Bytes
  pub key : Bytes
  pub others : KeyIdAndKeyPairs
  pub first : w.g_keys ≡ (key_id, key) ∷ others
  pub sixteen : length key ≡ key_size
  pub expands : aes_key platform key ≡ some schedule

abbrev pub with_buffer : World → Bytes → World
with_buffer w bytes = record w {
  buffers = w.buffers ++ record { content = bytes; live = true } ∷ [];
}

-- The block that counter mode starts from for an initial value: its bytes, and a counter of zeros
-- behind them that fills the block. A client that protects a sample starts from the same.
abbrev pub start_block : Bytes → Bytes
start_block iv = iv ++ replicate (aes_block_size - length iv) 0

drop-replicate : (n m : ℕ) → drop {A = ℕ} n (replicate m 0) ≡ replicate (m - n) 0
drop-replicate zero m = let e : m ≡ m - 0 = omega arith in ap (λ (k : ℕ). replicate k 0) e
drop-replicate (suc n) zero =
    let e : zero ≡ zero - suc n = omega arith in ap (λ (k : ℕ). replicate k 0) e
drop-replicate (suc n) (suc m) =
    let e : m - n ≡ suc m - suc n = omega arith in
    drop-replicate n m ∙ ap (λ (k : ℕ). replicate k 0) e

-- `Decrypt` starts from this block.
counter_block-start_block : (iv : Bytes) → counter_block iv ≡ start_block iv
unfolding counter_block
counter_block-start_block iv = ap (◌++◌ iv) (drop-replicate (length iv) aes_block_size)

-- With a first key of sixteen bytes that OpenSSL expands and an initial value shorter than a block,
-- `Decrypt` succeeds and gives one new buffer, of the sample under counter mode from the initial
-- value and zeros, and changes nothing else.
pub decrypt_lem :
    (platform : Platform) (w : World) (schedule : platform.Schedule) (iv sample : Bytes)
    → HasKey platform w schedule
    → length iv < aes_block_size
    → decrypt platform iv sample true w
      ≡ ok (
        record {
          result = cdmi_success;
          size = some (length sample);
          buffer = some (length w.buffers);
        },
        with_buffer w (platform.aes_ctr128_encrypt schedule (start_block iv) sample),
      )
unfolding decrypt decrypt_with
decrypt_lem platform w schedule iv sample k short =
    rw (lt→ltb _ _ short, k.first, k.sixteen)
      (rw (k.expands, decrypt_with) (rw (counter_block-start_block iv) (rw set-append_last)))

-- A call that fails has freed what it allocated and wrote neither the size nor the buffer; one that
-- succeeds leaves one more buffer, which is the one it gives. It succeeds only with a first key of
-- sixteen bytes that OpenSSL expands, and an initial value shorter than a block.
pub data Accounts (platform : Platform) (iv sample : Bytes) (w : World) (d : Decrypted) (w' : World)
    : Type 0 where
  gave :
      (schedule : platform.Schedule)
      → HasKey platform w schedule
      → length iv < aes_block_size
      → d.result ≡ cdmi_success
      → d.size ≡ some (length sample)
      → d.buffer ≡ some (length w.buffers)
      → live_count w'.buffers ≡ live_count w.buffers + 1
      → Accounts platform iv sample w d w'
  kept :
      d.result ≡ fail
      → d.size ≡ none
      → d.buffer ≡ none
      → live_count w'.buffers ≡ live_count w.buffers
      → Accounts platform iv sample w d w'

live_count-freed :
    (xs : List (Slot Bytes)) (bytes : Bytes)
    → live_count (xs ++ record { content = bytes; live = false } ∷ []) ≡ live_count xs
live_count-freed [] bytes = refl
live_count-freed (x ∷ xs) bytes = omega (arith, live_count-freed xs bytes)

free_buffer_last :
    (w : World) (bytes : Bytes)
    → free_buffer (length w.buffers) (with_buffer w bytes)
      ≡ ok (tt, record w { buffers = w.buffers ++ record { content = bytes; live = false } ∷ [] })
unfolding free_buffer
free_buffer_last w bytes = rw (get_elem?-append_last, free_buffer) (rw set-append_last)

decrypt-Accounts_with :
    (platform : Platform) (iv sample : Bytes) (w : World) (keys : KeyIdAndKeyPairs) (d : Decrypted)
    (w' : World)
    → w.g_keys ≡ keys
    → length iv < aes_block_size
    → decrypt_first platform keys iv sample
        (length w.buffers)
        (with_buffer w (replicate (length sample) 0))
      ≡ ok (d, w')
    → Accounts platform iv sample w d w'
unfolding decrypt_first decrypt_with
decrypt-Accounts_with platform iv sample w [] d w' e short h = cc
decrypt-Accounts_with platform iv sample w ((key_id, key) ∷ ks) d w' e short h =
    elim (Bool-cases (length key == key_size)) [
      | inl right ↦ elim (Option-cases (aes_key platform key)) [
        | inl refused ↦ cc (rw (right, refused, decrypt_with) at h)
        | inr (schedule, expanded) ↦
            let done = rw (right, expanded, decrypt_with, set-append_last) at h in
            gave schedule
              (record {
                key_id = key_id;
                key = key;
                others = ks;
                first = e;
                sixteen = (==_iff _ _).0 right;
                expands = expanded;
              })
              short (ground (arith, done)) (ground (arith, done)) (ground (arith, done))
              (ground (
                arith,
                done,
                live_count-concat w.buffers
                    (platform.aes_ctr128_encrypt schedule (counter_block iv) sample),
              ))
      ]
      | inr wrong ↦
          let gone = free_buffer_last w (replicate (length sample) 0) in
          kept (ground (arith, gone)) (ground (arith, gone)) (ground (arith, gone))
            (ground (arith, gone, live_count-freed w.buffers (replicate (length sample) 0)))
    ]

-- Where `Decrypt` returns: if it fails, it has freed what it allocated and wrote neither the size
-- nor the buffer. If it succeeds, the first key has sixteen bytes and OpenSSL expands it, the
-- initial value is shorter than a block, the size is that of the sample, and one more buffer is
-- left, the one that it gives.
pub decrypt-Accounts :
    (platform : Platform) (iv sample : Bytes) (has_size : Bool) (w w' : World) (d : Decrypted)
    → decrypt platform iv sample has_size w ≡ ok (d, w')
    → Accounts platform iv sample w d w'
unfolding decrypt
decrypt-Accounts platform iv sample false w w' d h =
    kept (ground arith) (ground arith) (ground arith) (ground arith)
decrypt-Accounts platform iv sample true w w' d h =
    elim (Bool-cases (ltb (length iv) aes_block_size)) [
      | inl short ↦
          decrypt-Accounts_with platform iv sample w w.g_keys d w' refl (ground arith)
            (rw short at h)
      | inr long ↦ cc (rw long at h)
    ]

length-before_nul-le : (a b : Bytes) → length (before_nul (a ++ 0 ∷ b)) ≤ length a
unfolding before_nul
length-before_nul-le [] b = omega arith
length-before_nul-le (c ∷ a) b = ground (arith, length-before_nul-le a b)

-- `AES_set_encrypt_key` takes 128, 192 or 256 bits only.
abbrev pub RefusesOtherSizes : Platform → Type 0
RefusesOtherSizes platform =
    (key : Bytes) (bits : ℕ)
    → bits ≢ 128
    → bits ≢ 192
    → bits ≢ 256
    → platform.aes_set_encrypt_key key bits ≡ none

-- With an OpenSSL that refuses other sizes than 128, 192 and 256 bits, a first key of sixteen bytes
-- with a zero byte among them, and an initial value shorter than a block: the sample would be
-- decrypted under a schedule that was never set.
pub decrypt_zero_byte :
    (platform : Platform) (w : World) (key_id before behind iv sample : Bytes)
    (ks : KeyIdAndKeyPairs)
    → RefusesOtherSizes platform
    → w.g_keys ≡ (key_id, before ++ 0 ∷ behind) ∷ ks
    → length (before ++ 0 ∷ behind) ≡ key_size
    → length iv < aes_block_size
    → decrypt platform iv sample true w ≡ fault uninitialised
unfolding decrypt decrypt_with aes_key
decrypt_zero_byte platform w key_id before behind iv sample ks refuses first sixteen short =
    let key = before ++ 0 ∷ behind in
    let bits = length (before_nul key) * 8 in
    let short_key : length (before_nul key) ≤ 15 =
      omega (arith, length-before_nul-le before behind, length-append before (0 ∷ behind)) in
    rw (lt→ltb _ _ short, first, sixteen)
      (rw (refuses key bits (omega arith) (omega arith) (omega arith), decrypt_with))
