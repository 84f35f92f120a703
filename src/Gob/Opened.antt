-- ===== src/Gob/Opened.antt =====
-- What DecryptWithGob of crypto/gob.go makes of a text: its own, a short one, any other.
use modern_go.Aes.{new_cipher}
use modern_go.Passport.{Bytes, hex}
use modern_go.Passport.Verified.{length-hex}
use modern_go.Gob.{
  Libraries, GobFailure, create_hash, encrypt_with_gob, split_nonce, decrypt_with_gob,
  not_authentic, not_decoded,
}
use modern_go.Base.Outcome.{Outcome, ok, panic, slice_out_of_range, ◌>>=◌, Returns}
use modern_go.Base.{
  ◌≤◌, ◌<◌, ◌≡◌, refl, ◌∙◌, arith, ◌++◌, none, some, ◌⊎◌, inl, inr, ltb, false, lt→ltb, length,
  take, drop, length-append, take-append, drop-append, Option-cases, dec_lt,
}

module _ {A T : Type 0} (lib : Libraries A T) where
  -- An MD5 digest has 16 bytes, GCM opens what it has sealed under the same key and nonce, and
  -- base64 is read back.
  pub record AreSound : Type 0 where
    pub digest_size : (b : Bytes) → length (lib.md5 b) ≡ 16
    pub opens :
        (key nonce plaintext : Bytes)
        → lib.open_sealed key nonce (lib.seal key nonce plaintext) ≡ some plaintext
    pub reads : (b : Bytes) → lib.decode (lib.encode b) ≡ b

  hash_is_key :
      AreSound
      → (passphrase : Bytes)
      → new_cipher (create_hash lib passphrase) ≡ inr (create_hash lib passphrase)
  unfolding new_cipher create_hash
  hash_is_key sound passphrase =
      let size : length (hex (lib.md5 passphrase)) ≡ 32 =
        omega (arith, length-hex (lib.md5 passphrase), sound.digest_size passphrase) in
      rw (new_cipher, size) refl

  -- A text that is long enough is opened under the hash.
  opened :
      AreSound
      → (passphrase : Bytes) (ss : T) (nonce ciphertext : Bytes)
      → split_nonce lib (lib.decode ss) ≡ ok (nonce, ciphertext)
      → (decrypt_with_gob lib ss passphrase)
        ≡ elim (lib.open_sealed (create_hash lib passphrase) nonce ciphertext)
            as (λ _. Outcome (GobFailure ⊎ A)) [
              | none ↦ ok (inl not_authentic)
              | some plaintext ↦ elim (lib.unmarshal plaintext) [
                | none ↦ ok (inl not_decoded)
                | some v ↦ ok (inr v)
              ]
            ]
  unfolding decrypt_with_gob
  opened sound passphrase ss nonce ciphertext split =
      rw (decrypt_with_gob, hash_is_key sound passphrase, split, ◌>>=◌) refl

  -- For libraries that are sound, a value whose marshalled bytes Decode reads, and any 12 random
  -- bytes, EncryptWithGob returns no error, and with the same passphrase DecryptWithGob returns
  -- what Decode reads from those marshalled bytes.
  pub decrypt-encrypt_gob :
      AreSound
      → (value read : A) (passphrase nonce : Bytes) → length nonce ≡ 12
      → lib.unmarshal (lib.marshal value) ≡ some read
      → (t : T) × (encrypt_with_gob lib value passphrase (some nonce) ≡ inr t)
        × (decrypt_with_gob lib t passphrase ≡ ok (inr read))
  unfolding encrypt_with_gob split_nonce
  decrypt-encrypt_gob sound value read passphrase nonce size back =
      let key = create_hash lib passphrase in
      let sealed = lib.seal key nonce (lib.marshal value) in
      let front : take 12 (nonce ++ sealed) ≡ nonce = rw (← size) (take-append nonce sealed) in
      let rest : drop 12 (nonce ++ sealed) ≡ sealed = rw (← size) (drop-append nonce sealed) in
      let long : ltb (length (nonce ++ sealed)) 12 ≡ false =
        ground (arith, length-append nonce sealed) in
      (
        lib.encode (nonce ++ sealed),
        refl,
        opened sound passphrase (lib.encode (nonce ++ sealed)) nonce sealed
              (rw (split_nonce, sound.reads (nonce ++ sealed), long, front, rest) refl)
            ∙ rw (sound.opens key nonce (lib.marshal value), back) refl,
      )

  -- The result for the bytes `bytes` under `key`: nothing that does not open, or does not decode.
  pub data Opens (key bytes : Bytes) : GobFailure ⊎ A → Type 0 where
    sealed_otherwise :
        lib.open_sealed key (take 12 bytes) (drop 12 bytes) ≡ none
        → Opens key bytes (inl not_authentic)
    unread :
        (plaintext : Bytes)
        → lib.open_sealed key (take 12 bytes) (drop 12 bytes) ≡ some plaintext
        → lib.unmarshal plaintext ≡ none
        → Opens key bytes (inl not_decoded)
    read :
        (plaintext : Bytes) (v : A)
        → lib.open_sealed key (take 12 bytes) (drop 12 bytes) ≡ some plaintext
        → lib.unmarshal plaintext ≡ some v
        → Opens key bytes (inr v)

  long_text :
      (sound : AreSound) (passphrase : Bytes) (ss : T)
      → split_nonce lib (lib.decode ss) ≡ ok (take 12 (lib.decode ss), drop 12 (lib.decode ss))
      → Returns
          (decrypt_with_gob lib ss passphrase)
          (Opens (create_hash lib passphrase) (lib.decode ss))
  long_text sound passphrase ss split =
      let key = create_hash lib passphrase in
      let bytes = lib.decode ss in
      let step = opened sound passphrase ss (take 12 bytes) (drop 12 bytes) split in
      elim (Option-cases (lib.open_sealed key (take 12 bytes) (drop 12 bytes))) [
        | inl closed ↦ (inl not_authentic, step ∙ (rw closed refl), sealed_otherwise closed)
        | inr (plaintext, opens) ↦ elim (Option-cases (lib.unmarshal plaintext)) [
          | inl fails ↦
              (inl not_decoded, step ∙ (rw (opens, fails) refl), unread plaintext opens fails)
          | inr (v, decodes) ↦
              (inr v, step ∙ (rw (opens, decodes) refl), read plaintext v opens decodes)
        ]
      ]

  -- For libraries that are sound, DecryptWithGob panics on a text of fewer than 12 decoded bytes;
  -- for every other one it returns, with a value only if the bytes behind the first 12 open under
  -- the passphrase's hash with these as the nonce, and Decode reads the value from what they hold,
  -- and else with the error.
  pub decrypt_with_gob-Opens :
      AreSound
      → (passphrase : Bytes) (ss : T)
      → ((length (lib.decode ss) < 12)
          × (decrypt_with_gob lib ss passphrase ≡ panic slice_out_of_range))
        ⊎ ((12 ≤ length (lib.decode ss))
            × Returns
                (decrypt_with_gob lib ss passphrase)
                (Opens (create_hash lib passphrase) (lib.decode ss)))
  unfolding decrypt_with_gob split_nonce
  decrypt_with_gob-Opens sound passphrase ss = elim (dec_lt (length (lib.decode ss)) 12) [
    | yes short ↦
        let brief = lt→ltb (length (lib.decode ss)) 12 short in
        inl (
          short,
          rw (decrypt_with_gob, hash_is_key sound passphrase, split_nonce, brief, ◌>>=◌) refl,
        )
    | no long ↦
        let enough : ltb (length (lib.decode ss)) 12 ≡ false = ground arith in
        inr (omega arith, long_text sound passphrase ss (rw (split_nonce, enough) refl))
  ]
