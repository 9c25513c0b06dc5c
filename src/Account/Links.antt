-- ===== src/Account/Links.antt =====
-- `signinTokenIssue`, `signinTokenPeek`, `signinTokenConsume`, `signinTokensRevoke`.
use kody_celld.Prelude.{
  ℕ, ◌+◌, Bool, true, false, ◌&&◌, ◌≡◌, ◌∙◌, ap, Option, none, some, ◌∷◌, Text, same, leb,
  if◌then◌else◌, arith, Option-cases, inl, inr,
}
use kody_celld.Table.{find, delete, exists}
use kody_celld.Table.Laws.{find-delete_self}
use kody_celld.Act.{Act, ◌>>◌, pure, throw, modify}
use kody_celld.Account.Defs.{
  SigninTokenKind, invite, magic, reset, SigninTokenRow, Store, Error, constraint_failed, Platform,
  invite_ttl_ms, magic_link_ttl_ms, purge,
}

abbrev pub same_kind : SigninTokenKind → SigninTokenKind → Bool
same_kind invite invite = true
same_kind magic magic = true
same_kind reset reset = true
same_kind _ _ = false

abbrev pub has_link_hash : Text → SigninTokenRow → Bool
has_link_hash h row = same row.token_hash h

unfoldable pub insert_link : SigninTokenRow → Act Store Error (Unit {0})
insert_link row s =
    if exists (has_link_hash row.token_hash) s.signin_tokens
    then throw constraint_failed s
    else modify (λ t. record t { signin_tokens = row ∷ t.signin_tokens }) s

-- `input.ttlMs ?? (input.kind === 'magic' ? magicLinkTtlMs : inviteTtlMs)`
unfoldable pub link_ttl : SigninTokenKind → Option ℕ → ℕ
link_ttl kind (some ttl) = ttl
link_ttl kind none = if same_kind kind magic then magic_link_ttl_ms else invite_ttl_ms

-- The token is drawn at random; the result is it and its expiry.
unfoldable pub signin_token_issue :
    Platform
    → (purged_at now : ℕ) (token user_id : Text) → SigninTokenKind
    → (ttl_ms : Option ℕ) → Act Store Error (Text × ℕ)
unfolding insert_link link_ttl
signin_token_issue p purged_at now token user_id kind ttl_ms = do
  modify (purge purged_at)
  insert_link (record {
    token_hash = p.sha256_hex token;
    user_id = user_id;
    kind = some kind;
    created_at = now;
    expires_at = now + link_ttl kind ttl_ms;
  })
  pure (token, now + link_ttl kind ttl_ms)

pub record SigninTokenRecord : Type 0 where
  pub kind : SigninTokenKind
  pub user_id : Text
  pub expires_at : ℕ

unfoldable pub peek_row : (now : ℕ) → Option SigninTokenRow → Option SigninTokenRecord
peek_row now none = none
peek_row now (some row) = if leb row.expires_at now then none else elim row.kind [
  | none ↦ none
  | some kind ↦ some (record { kind = kind; user_id = row.user_id; expires_at = row.expires_at })
]

unfoldable pub signin_token_peek :
    Platform → (now : ℕ) (token : Text) → Store → Option SigninTokenRecord
unfolding peek_row
signin_token_peek p now token s =
    peek_row now (find (has_link_hash (p.sha256_hex token)) s.signin_tokens)

-- The DELETE runs only after a peek that found a valid token.
unfoldable pub consume_peeked :
    (hash : Text) → Option SigninTokenRecord → Store → Option SigninTokenRecord × Store
consume_peeked hash none s = (none, s)
consume_peeked hash (some r) s =
    let written = exists (has_link_hash hash) s.signin_tokens in
    let s' = record s { signin_tokens = delete (has_link_hash hash) s.signin_tokens } in
    (if written then some r else none, s')

unfoldable pub signin_token_consume :
    Platform → (now : ℕ) (token : Text) → Store → Option SigninTokenRecord × Store
unfolding consume_peeked signin_token_peek
signin_token_consume p now token s =
    consume_peeked (p.sha256_hex token) (signin_token_peek p now token s) s

abbrev pub is_link_of : Text → Option SigninTokenKind → SigninTokenRow → Bool
is_link_of user_id none row = same row.user_id user_id
is_link_of user_id (some kind) row =
    same row.user_id user_id && elim row.kind [ none ↦ false | some k ↦ same_kind k kind ]

unfoldable pub signin_tokens_revoke : (user_id : Text) → Option SigninTokenKind → Store → Store
signin_tokens_revoke user_id kind s = record s {
  signin_tokens = delete (is_link_of user_id kind) s.signin_tokens;
}

module _ (p : Platform) (token : Text) where
  consume_peeked-find :
      (now : ℕ) (s : Store) (r : SigninTokenRecord)
      → signin_token_peek p now token s ≡ some r
      → find
          (has_link_hash (p.sha256_hex token))
          (signin_token_consume p now token s).1.signin_tokens
        ≡ none
  unfolding signin_token_consume
  consume_peeked-find now s r peeked =
      rw (peeked, consume_peeked) (find-delete_self _ s.signin_tokens)

  peek_hidden :
      (later : ℕ) (s : Store)
      → find (has_link_hash (p.sha256_hex token)) s.signin_tokens ≡ none
      → (signin_token_peek p later token s ≡ none)
        × (signin_token_consume p later token s ≡ (none, s))
  unfolding signin_token_consume
  peek_hidden later s gone = ground (arith, gone)

  -- A link is spent by the first call that accepts it: from then on no call accepts it and no peek
  -- shows it, and those calls write nothing.
  pub consumed_once :
      (now later : ℕ) (s : Store) (r : SigninTokenRecord)
      → (signin_token_consume p now token s).0 ≡ some r
      → (signin_token_peek p now token s ≡ some r)
        × ((signin_token_peek p later token (signin_token_consume p now token s).1 ≡ none)
            × (signin_token_consume p later token (signin_token_consume p now token s).1
                ≡ (none, (signin_token_consume p now token s).1)))
  unfolding signin_token_consume
  consumed_once now later s r accepted = elim (Option-cases (signin_token_peek p now token s)) [
    | inl absent ↦ absurd (cc (rw (absent, signin_token_consume) at accepted))
    | inr (r', peeked) ↦
        let accepted_row = rw (peeked, signin_token_consume, consume_peeked) at accepted in
        let same_record : r' ≡ r = ground (arith, accepted_row) in
        (
          peeked ∙ ap some same_record,
          peek_hidden later (signin_token_consume p now token s).1
              (consume_peeked-find now s r' peeked),
        )
  ]
