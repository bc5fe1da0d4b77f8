-- ===== src/Tokens/Key.antt =====
-- The key record (internal/domain/credentials/token.go). The hash of a secret is a parameter.
use llm_proxy_backend.Prelude.{
  ℕ, zero, ◌&&◌, suc, Bool, true, false, ◌||◌, none, some, [], ◌∷◌, ◌++◌, ltb, leb, if◌then◌else◌,
}
use llm_proxy_backend.Prelude.Text.{Text, ◌=t◌, codes}
use llm_proxy_backend.Store.{
  Op, invalid_label, already_revoked, return, call, require, ◌>>=◌, ◌>>◌, read_clock, Result, ok,
  err,
}
use llm_proxy_backend.Store.Tables.{Token}

abbrev pub max_label_runes : ℕ
max_label_runes = 64

-- unicode.IsControl.
abbrev pub is_control : ℕ → Bool
is_control c = ltb c 0x20 || (leb 0x7f c && leb c 0x9f)

-- The loop of `ValidateLabel`, after `n` runes.
unfoldable pub label_runes_valid : ℕ → Text → Bool
label_runes_valid n [] = true
label_runes_valid n (r ∷ label) =
    if ltb max_label_runes (suc n) || is_control r then false else label_runes_valid (suc n) label

-- A text is a list of code points, so it is valid UTF-8. `false` is ErrInvalidLabel.
unfoldable pub validate_label : Text → Bool
unfolding label_runes_valid
validate_label label = if label =t [] then false else label_runes_valid 0 label

-- What one issuance draws at random: the base64 text of the secret's bytes, and the record's id.
pub record Draw : Type 0 where
  pub id : ℕ
  pub encoded : Text

abbrev pub take : ℕ → Text → Text
take zero s = []
take (suc n) [] = []
take (suc n) (c ∷ s) = c ∷ take n s

unfoldable pub secret_of : Draw → Text
secret_of draw = codes "sk-" ++ draw.encoded

module _ (hash_secret : Text → Text) where
  -- The record of a drawn key, created at `now`.
  unfoldable pub key_of : ℕ → Text → Draw → ℕ → Token
  key_of owner label draw now = record {
    id = draw.id;
    user_id = owner;
    label = label;
    hash = hash_secret (secret_of draw);
    prefix = take 7 (secret_of draw);
    created_at = now;
    last_used_at = none;
    revoked_at = none;
    revoked_by = none;
  }

  -- Reading the random bytes may fail.
  unfoldable pub generate : ℕ → Text → Draw → Op (Token × Text)
  unfolding key_of validate_label
  generate owner label draw = do
    require (validate_label label) invalid_label
    call (return tt)
    now ← read_clock
    return (key_of owner label draw now, secret_of draw)

unfoldable pub is_live : Token → Bool
is_live t = elim t.revoked_at [ none ↦ true | some _ ↦ false ]

-- `Token.Revoke`.
unfoldable pub revoke_key : Token → ℕ → ℕ → Result Token
revoke_key t by at = elim t.revoked_at [
  | some _ ↦ err already_revoked
  | none ↦ ok (record t { revoked_at = some at; revoked_by = some by })
]
