-- ===== src/StorageAuth/SharedKey/Soundness.antt =====
-- VerifyBlobSharedKey of internal/storageauth/sharedkey.go, read backwards.
use Prim.Native.Char.{code}
use Prim.Native.String.{[] as nil, ◌∷◌ as cons}
use mathlib.Core.Bool.{false≢true}
use mathlib.Core.Path.{ap₂}
use mathlib.Core.Option.{some-injective}
use text.Mathlib.TextEquality.{Char-path}
use miniblue.Prelude.{
  String, ◌≡◌, ◌⊎◌, inl, inr, refl, ap, ◌∙◌, sym, Bool, true, false, ◌||◌, Option, none, some, ◌++◌,
  [], ◌∷◌, has_prefix, eqb, eqb_iff, arith, eq_iff, Bool-cases, Option-cases,
}
use miniblue.StorageAuth.{Bytes, Crypto}
use miniblue.StorageAuth.Request.{Request, Library, header_get}
use miniblue.StorageAuth.Text.{split_last_colon, drop_prefix}
use miniblue.StorageAuth.SharedKey.{
  string_to_sign, verify, verify_scheme, same_bytes, match_hmac, scheme_name, check_signature,
}

none≢some : {A : Type 0} {x : A} → ◌≡◌ {A = Option A} none (some x) → ⊥
none≢some e = cc

same_bytes_sound : (a b : Bytes) → same_bytes a b ≡ true → a ≡ b
unfolding same_bytes
same_bytes_sound [] [] h = refl
same_bytes_sound [] (y ∷ b) h = absurd (false≢true h)
same_bytes_sound (x ∷ a) [] h = absurd (false≢true h)
same_bytes_sound (x ∷ a) (y ∷ b) h = ground (arith, eqb_iff x y, same_bytes_sound a b)

drop_prefix_sound : (p s : String) → has_prefix s p ≡ true → s ≡ p ++ drop_prefix p s
unfolding has_prefix drop_prefix ◌++◌
drop_prefix_sound nil s h = refl
drop_prefix_sound (cons c p) nil h = absurd (false≢true h)
drop_prefix_sound (cons c p) (cons d s) h = elim (Bool-cases (eqb (code d) (code c))) [
  | inl e ↦
      ap₂ (λ x y. cons x y) (Char-path d c ((eqb_iff (code d) (code c)).0 e))
        (drop_prefix_sound p s (rw e at h))
  | inr e ↦ absurd (false≢true (rw e at h))
]

split_last_colon_sound : (s a b : String) → split_last_colon s ≡ some (a, b) → s ≡ a ++ ":" ++ b
unfolding split_last_colon ◌++◌
split_last_colon_sound nil a b h = absurd (ground arith)
split_last_colon_sound (cons c s) a b h = elim (Option-cases (split_last_colon s)) [
  | inl e ↦ elim (Bool-cases (eqb (code c) b':')) [
    | inl e' ↦
        ap (λ x. cons x s) (Char-path c ":" ((eqb_iff (code c) b':').0 e'))
        ∙ ap (λ (p : String × String). p.0 ++ ":" ++ p.1)
            (some-injective _ _ (rw (e, split_last_colon, e') at h))
    | inr e' ↦ absurd (none≢some (rw (e, split_last_colon, e') at h))
  ]
  | inr ((a', b'), e) ↦
      ap (λ x. cons c x) (split_last_colon_sound s a' b' e)
      ∙ ap (λ (p : String × String). p.0 ++ ":" ++ p.1)
          (some-injective _ _ (rw (e, split_last_colon) at h))
]

module _ (c : Crypto) (lib : Library) (r : Request) (account : String) (key1 key2 : Bytes) where
  -- a signature of the request that one of the two keys made
  abbrev pub MadeBy : (lite : Bool) (sig : String) → Type 0
  MadeBy lite sig =
      (text : String) × (key : Bytes) × (string_to_sign lib lite account r ≡ some text)
      × ((key ≡ key1) ⊎ (key ≡ key2))
      × (c.decode64 sig ≡ some (c.hmac_sha256 key text))

  matched :
      (want : Bytes) (text : String)
      → (match_hmac c want text key1 || match_hmac c want text key2) ≡ true
      → (key : Bytes) × ((key ≡ key1) ⊎ (key ≡ key2)) × (c.hmac_sha256 key text ≡ want)
  unfolding match_hmac
  matched want text h = elim (Bool-cases (same_bytes (c.hmac_sha256 key1 text) want)) [
    | inl e ↦ (key1, inl refl, same_bytes_sound _ want e)
    | inr e ↦ (key2, inr refl, same_bytes_sound _ want (rw e at h))
  ]

  check_sound :
      (lite : Bool) (acct sig : String)
      → check_signature c lib r account key1 key2 lite acct sig ≡ true
      → (acct ≡ account) × MadeBy lite sig
  unfolding check_signature
  check_sound lite acct sig h = elim (Option-cases (c.decode64 sig)) [
    | inl e ↦ absurd (ground arith)
    | inr (want, e) ↦ elim (Option-cases (string_to_sign lib lite account r)) [
      | inl e' ↦ absurd (ground arith)
      | inr (text, e') ↦
          let (key, which, same) = matched want text (ground arith) in
          (ground (arith, eq_iff acct account), (text, key, e', which, e ∙ ap some (sym same)))
    ]
  ]

  scheme_sound :
      (lite : Bool) (cred : String)
      → verify_scheme c lib r account cred key1 key2 lite ≡ true
      → (sig : String) × (cred ≡ account ++ ":" ++ sig) × MadeBy lite sig
  unfolding verify_scheme
  scheme_sound lite cred h = elim (Option-cases (split_last_colon cred)) [
    | inl e ↦ absurd (false≢true (rw (e, verify_scheme) at h))
    | inr ((acct, sig), e) ↦
        let (same, made) = check_sound lite acct sig (rw (e, verify_scheme) at h) in
        (sig, rw same at (split_last_colon_sound cred acct sig e), made)
  ]

  -- The Authorization header of a request that is accepted is its scheme, the account and a text
  -- that decodes to the HMAC of the string to sign, for that scheme, under one of the two keys.
  pub verify_sound :
      verify c lib r account key1 key2 ≡ true
      → (lite : Bool) × (sig : String) × (header_get r "Authorization"
          ≡ scheme_name lite ++ " " ++ account ++ ":" ++ sig)
        × MadeBy lite sig
  unfolding verify ◌++◌
  verify_sound h =
      let authz = header_get r "Authorization" in
      elim (Bool-cases (has_prefix authz "SharedKey ")) [
        | inl e ↦
            let (sig, text, made) =
              scheme_sound false (drop_prefix "SharedKey " authz) (ground arith) in
            (
              false,
              sig,
              drop_prefix_sound "SharedKey " authz e ∙ ap (λ t. "SharedKey " ++ t) text,
              made,
            )
        | inr e ↦ elim (Bool-cases (has_prefix authz "SharedKeyLite ")) [
          | inl e' ↦
              let (sig, text, made) =
                scheme_sound true (drop_prefix "SharedKeyLite " authz) (ground arith) in
              (
                true,
                sig,
                drop_prefix_sound "SharedKeyLite " authz e' ∙ ap (λ t. "SharedKeyLite " ++ t) text,
                made,
              )
          | inr e' ↦ absurd (ground arith)
        ]
      ]
