-- ===== src/Secrets/Rekeyed.antt =====
-- After a rekey the current key alone opens every secret that could be opened before.
use kody_celld.Prelude.{
  ℕ, suc, true, false, ◌&&◌, some, List, [], ◌∷◌, Text, same→eq, ◌≡◌, ◌⊎◌, refl, sym, ap, subst,
  ◌∙◌, arith, All, inl, inr, Bool-cases,
}
use kody_celld.Table.{find, select, exists, changed}
use kody_celld.Table.Laws.{find-update-some, test-find, All-select}
use kody_celld.Table.Counts.{exists-select}
use kody_celld.Act.{Result, ok, Result-cases}
use kody_celld.Crypto.Hex.{IsByte}
use kody_celld.Crypto.Keyring.{
  WebCrypto, IsWebCrypto, KeepsText, KeyError, MasterKeyring, encrypt_secret_value,
  decrypt_with_keyring, decrypt_with, candidates,
}
use kody_celld.Crypto.Built.{IsKeyring, only_current, only_current-IsKeyring}
use kody_celld.Secrets.Defs.{SecretRow, SecretKey, has_key, key_of}
use kody_celld.Secrets.Save.{reseal}
use kody_celld.Secrets.Resolve.{value_of}
use kody_celld.Secrets.Sealed.{sealed-opens, Holds}
use kody_celld.Secrets.Keyed.{key_of-eq, has_own_key, IsKeyed, only_row}
use kody_celld.Secrets.Rekey.{is_stale, write_resealed, rekey_each, secret_rekey}

module _ (w : WebCrypto) (keyring : MasterKeyring) (user_id : Text) (draw : ℕ → List ℕ) where
  abbrev opens : SecretRow → Result KeyError Text
  opens row = decrypt_with_keyring w keyring user_id (value_of row)

  -- The row was sealed with the current key in some round.
  abbrev IsSealed : Text → SecretRow → Type 0
  IsSealed text row =
      (round : ℕ) × Holds (encrypt_secret_value w (draw round) keyring.current.key user_id text)
        keyring.current.id row

  module _ (k : SecretKey) where
    find-write_resealed :
        (round : ℕ) (text : Text) (j : SecretRow) (rows : List SecretRow) (row : SecretRow)
        → find (has_key k) rows ≡ some row
        → find (has_key k) (write_resealed w keyring user_id draw round text j rows)
          ≡ some (
              changed
                (has_key (key_of j))
                (reseal
                  (encrypt_secret_value w (draw round) keyring.current.key user_id text)
                  keyring.current.id)
                row)
    unfolding write_resealed reseal
    find-write_resealed round text j rows row found =
        find-update-some (has_key k) (has_key (key_of j)) _ rows row
          (λ x. elim (Bool-cases (has_key (key_of j) x)) [ inl t ↦ rw t refl | inr f ↦ rw f refl ])
          found

    -- Where a later round meets the key, the row is sealed; else it is as it was.
    abbrev Outcome : Text → SecretRow → List SecretRow → SecretRow → Type 0
    Outcome text row stale row' =
        ((row' ≡ row) × (exists (has_key k) stale ≡ false)) ⊎ IsSealed text row'

    abbrev Outcomes : Text → SecretRow → List SecretRow → List SecretRow → Type 0
    Outcomes text row stale rows' =
        (row' : SecretRow) × (find (has_key k) rows' ≡ some row') × Outcome text row stale row'

    -- A round that is of another key.
    past :
        (text : Text) (j row : SecretRow) (stale rows' : List SecretRow)
        → has_key k j ≡ false
        → Outcomes text row stale rows'
        → Outcomes text row (j ∷ stale) rows'
    unfolding exists
    past text j row stale rows' other (row', found, inl (as_was, absent)) =
        (row', found, inl (as_was, rw other absent))
    past text j row stale rows' other (row', found, inr sealed) = (row', found, inr sealed)

    -- A round that seals the row.
    sealing :
        (text : Text) (j row row2 : SecretRow) (stale rows' : List SecretRow)
        → IsSealed text row2
        → Outcomes text row2 stale rows'
        → Outcomes text row (j ∷ stale) rows'
    sealing text j row row2 stale rows' now (row', found, inl (as_was, absent)) =
        (row', found, inr (subst (IsSealed text) (sym as_was) now))
    sealing text j row row2 stale rows' now (row', found, inr sealed) = (row', found, inr sealed)

    round_seals :
        (text t : Text) (round : ℕ) (j row : SecretRow)
        → t ≡ text
        → has_key k j ≡ true
        → has_key k row ≡ true
        → IsSealed text (
            changed
              (has_key (key_of j))
              (reseal
                (encrypt_secret_value w (draw round) keyring.current.key user_id t)
                keyring.current.id)
              row)
    unfolding reseal
    round_seals text t round j row same_text mine its =
        let hit : has_key (key_of j) row ≡ true =
          subst (λ q. has_key q row ≡ true) (sym (key_of-eq k j mine)) its in
        let cipher =
          λ (x : Text). encrypt_secret_value w (draw round) keyring.current.key user_id x in
        (
          round,
          rw hit
              (ap (λ x. (cipher x).iv) same_text, ap (λ x. (cipher x).ciphertext) same_text, refl),
        )

    left_alone :
        (f : SecretRow → SecretRow) (j row : SecretRow)
        → has_key k j ≡ false
        → has_key k row ≡ true
        → changed (has_key (key_of j)) f row ≡ row
    left_alone f j row other its = elim (Bool-cases (has_key (key_of j) row)) [
      | inl hit ↦
          let same_key = sym (key_of-eq (key_of j) row hit) ∙ key_of-eq k row its in
          absurd (cc (sym (subst (λ q. has_key q j ≡ true) same_key (has_own_key j)) ∙ other))
      | inr miss ↦ rw miss refl
    ]

    rekey_each-outcome :
        (text : Text) (first : SecretRow) (round : ℕ) (stale rows : List SecretRow)
        (row : SecretRow)
        → opens first ≡ ok text
        → All (λ j. has_key k j ≡ true → j ≡ first) stale
        → find (has_key k) rows ≡ some row
        → Outcomes text row stale (rekey_each w keyring user_id draw round stale rows).1
    unfolding rekey_each exists
    rekey_each-outcome text first round [] rows row opened only found =
        (row, found, inl (refl, refl))
    rekey_each-outcome text first round (j ∷ stale) rows row opened only found =
        elim (Result-cases (opens j)) [
          | inl (t, e) ↦ elim (Bool-cases (has_key k j)) [
            | inl mine ↦
                let same_text : t ≡ text = cc (sym e ∙ ap opens (only.0 mine) ∙ opened) in
                let row2 =
                  changed (has_key (key_of j))
                    (reseal (encrypt_secret_value w (draw round) keyring.current.key user_id t)
                      keyring.current.id)
                    row in
                rw e (
                  sealing text j row row2 stale _
                    (round_seals text t round j row same_text mine
                      (test-find (has_key k) rows row found))
                    (rekey_each-outcome text first (suc round) stale _ row2 opened only.1
                      (find-write_resealed round t j rows row found)))
            | inr other ↦ rw e (
                past text j row stale _ other (
                  rekey_each-outcome text first (suc round) stale _ row opened only.1 (
                    find-write_resealed round t j rows row found
                    ∙ ap some (
                        left_alone
                          (reseal
                            (encrypt_secret_value w (draw round) keyring.current.key user_id t)
                            keyring.current.id)
                          j row other (test-find (has_key k) rows row found)))))
          ]
          | inr (x, e) ↦ elim (Bool-cases (has_key k j)) [
            | inl mine ↦ absurd (cc (sym e ∙ ap opens (only.0 mine) ∙ opened))
            | inr other ↦ rw e (
                past text j row stale _ other
                  (rekey_each-outcome text first (suc round) stale rows row opened only.1 found))
          ]
        ]

  not_stale :
      (k : SecretKey) (row : SecretRow) (rows : List SecretRow)
      → find (has_key k) rows ≡ some row
      → exists (λ r. is_stale keyring.current.id r && has_key k r) rows ≡ false
      → is_stale keyring.current.id row ≡ false
  unfolding find exists
  not_stale k row [] found none_left = cc found
  not_stale k row (r ∷ rows) found none_left = elim (Bool-cases (has_key k r)) [
    | inl hit ↦
        let same_row : r ≡ row = ground (arith, hit, found) in
        subst (λ q. is_stale keyring.current.id q ≡ false) same_row (ground (arith, hit, none_left))
    | inr miss ↦ not_stale k row rows (rw miss at found) (ground (arith, miss, none_left))
  ]

  fresh-opens :
      (row : SecretRow) (text : Text)
      → IsKeyring keyring
      → is_stale keyring.current.id row ≡ false
      → opens row ≡ ok text
      → decrypt_with_keyring w (only_current keyring) user_id (value_of row) ≡ ok text
  unfolding decrypt_with_keyring
  fresh-opens row text one fresh opened =
      let same_id = same→eq row.key_id keyring.current.id (ground (arith, fresh)) in
      let chosen =
        λ (ring : MasterKeyring) (good : IsKeyring ring) (id : Text) (e : id ≡ ring.current.id).
          ap (λ i. candidates ring (some i)) e ∙ good in
      ap (λ ks. decrypt_with w ks user_id (value_of row))
        (chosen (only_current keyring) (only_current-IsKeyring keyring) row.key_id same_id
          ∙ sym (chosen keyring one row.key_id same_id))
      ∙ opened

  -- Every secret that the keyring opened before a rekey, the current key alone opens after it, to the
  -- same text. The platform's AES-GCM works as documented, UTF-8 keeps the text, the id of the current
  -- key names no other, and no two rows have one key.
  pub rekey_keeps_values :
      (k : SecretKey) (rows : List SecretRow) (row : SecretRow) (text : Text)
      → IsWebCrypto w
      → KeepsText w text
      → ((n : ℕ) → All IsByte (draw n))
      → IsKeyring keyring
      → IsKeyed rows
      → find (has_key k) rows ≡ some row
      → decrypt_with_keyring w keyring user_id (value_of row) ≡ ok text
      → (row' : SecretRow) × (find (has_key k) (secret_rekey w keyring user_id draw rows).1
          ≡ some row')
        × (decrypt_with_keyring w (only_current keyring) user_id (value_of row') ≡ ok text)
  unfolding secret_rekey
  rekey_keeps_values k rows row text good kept bytes one keyed found opened =
      let stale = select (is_stale keyring.current.id) rows in
      let only =
        All-select (λ j. has_key k j ≡ true → j ≡ row) (is_stale keyring.current.id) rows
          (only_row k rows row keyed found) in
      let (row', found', outcome) =
        rekey_each-outcome k text row 0 stale rows row opened only found in
      (
        row',
        found',
        elim outcome [
          | inr (round, (a, b, c)) ↦
              sealed-opens w (only_current keyring) (draw round) user_id text (value_of row') good
                kept (bytes round) (only_current-IsKeyring keyring) a b (ap some c)
          | inl (as_was, absent) ↦
              subst
                (λ r. decrypt_with_keyring w (only_current keyring) user_id (value_of r) ≡ ok text)
                (sym as_was)
                (fresh-opens row text one
                  (not_stale k row rows found
                    (sym (exists-select (is_stale keyring.current.id) (has_key k) rows) ∙ absent))
                  opened)
        ],
      )
