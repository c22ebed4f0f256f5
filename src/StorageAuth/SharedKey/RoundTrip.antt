-- ===== src/StorageAuth/SharedKey/RoundTrip.antt =====
-- SignBlobSharedKey and VerifyBlobSharedKey of internal/storageauth/sharedkey.go, one after the
-- other.
use mathlib.Core.Path.{ap₂, fun_ext}
use mathlib.Core.Option
use Prim.Native.String.{[] as nil, ◌∷◌ as cons}
use miniblue.Prelude.{
  String, ◌≡◌, ◌≢◌, ◌⊎◌, inl, inr, refl, ◌∙◌, Bool, true, false, none, some, ◌++◌, List, [], ◌∷◌,
  ◌==◌, has_prefix, arith, eq_iff, eq_refl, Bool-cases, Option-cases,
}
use miniblue.Prelude.Assoc.{insert, lookup-insert}
use miniblue.Prelude.Text.{NoColon, cons-is_not_empty}
use miniblue.StorageAuth.{Bytes, Crypto}
use miniblue.StorageAuth.Request.{Header, Request, Library, header_get, header_set}
use miniblue.StorageAuth.Canonical.{ms_headers, canonicalized_headers, canonicalized_resource}
use miniblue.StorageAuth.Text.{split_last_colon, drop_prefix}
use miniblue.StorageAuth.SharedKey.{
  string_to_sign, sign, verify, verify_scheme, same_bytes, match_hmac, scheme_name, date_field,
  content_length, check_signature, lite_text, full_text,
}

-- base64 text has no colon and is not empty, and decodes to the bytes that it encodes
pub record IsBase64 (c : Crypto) : Type 0 where
  pub decodes : (bytes : Bytes) → c.decode64 (c.encode64 bytes) ≡ some bytes
  pub no_colon : (bytes : Bytes) → NoColon (c.encode64 bytes)
  pub nonempty : (key : Bytes) (message : String) → c.encode64 (c.hmac_sha256 key message) ≢ ""

drop_prefix-append : (p s : String) → drop_prefix p (p ++ s) ≡ s
unfolding drop_prefix ◌++◌
drop_prefix-append nil s = refl
drop_prefix-append (cons c p) s = drop_prefix-append p s

split_last_colon-none : (s : String) → NoColon s → split_last_colon s ≡ none
unfolding split_last_colon
split_last_colon-none nil h = refl
split_last_colon-none (cons c s) h = rw (split_last_colon-none s h.1) (ground (arith, h.0))

split_last_colon-append :
    (a b : String) → NoColon b → split_last_colon (a ++ ":" ++ b) ≡ some (a, b)
unfolding split_last_colon ◌++◌
split_last_colon-append nil b h = rw (split_last_colon-none b h)
split_last_colon-append (cons c a) b h = rw (split_last_colon-append a b h)

same_bytes_refl : (b : Bytes) → same_bytes b b ≡ true
unfolding same_bytes
same_bytes_refl [] = refl
same_bytes_refl (x ∷ xs) = ground (arith, same_bytes_refl xs)

-- Setting Authorization changes no other header, and none that is signed.
header_get-set :
    (r : Request) (v name : String)
    → ("Authorization" == name) ≡ false
    → header_get (header_set r "Authorization" v) name ≡ header_get r name
unfolding header_get header_set
header_get-set r v name h = rw (lookup-insert "Authorization" name (v ∷ []) r.header, h)

header_get-set_self :
    (r : Request) (v : String) → header_get (header_set r "Authorization" v) "Authorization" ≡ v
unfolding header_get header_set
header_get-set_self r v = rw (lookup-insert "Authorization" "Authorization" (v ∷ []) r.header)

ms_headers-insert :
    (lib : Library) (h : Header) (vs : List String)
    → has_prefix (lib.to_lower "Authorization") "x-ms-" ≡ false
    → ms_headers lib (insert "Authorization" vs h) ≡ ms_headers lib h
unfolding ms_headers insert
ms_headers-insert lib [] vs e = rw e
ms_headers-insert lib ((n, ws) ∷ h) vs e = elim (Bool-cases (n == "Authorization")) [
  | inl same ↦ rw ((eq_iff n "Authorization").0 same) (rw e)
  | inr other ↦ rw (other, ms_headers, ms_headers-insert lib h vs e)
]

module _ (lib : Library) (r : Request) (v : String)
    (unsigned : has_prefix (lib.to_lower "Authorization") "x-ms-" ≡ false) where
  abbrev signed : Request
  signed = header_set r "Authorization" v

  resource-set :
      (account : String)
      → canonicalized_resource lib account signed ≡ canonicalized_resource lib account r
  unfolding canonicalized_resource header_set
  resource-set account = refl

  headers-set : canonicalized_headers lib signed ≡ canonicalized_headers lib r
  unfolding canonicalized_headers header_set
  headers-set = rw (ms_headers-insert lib r.header (v ∷ []) unsigned)

  method-set : signed.method ≡ r.method
  unfolding header_set
  method-set = refl

  date_field-set : date_field signed ≡ date_field r
  unfolding date_field
  date_field-set = rw (header_get-set r v "X-Ms-Date" refl, header_get-set r v "Date" refl)

  content_length-set : content_length signed ≡ content_length r
  unfolding content_length
  content_length-set = rw (header_get-set r v "Content-Length" refl)

  lite_text-set : (resource : String) → lite_text lib signed resource ≡ lite_text lib r resource
  lite_text-set resource =
      unfold lite_text in
      cc (
        headers-set,
        method-set,
        date_field-set,
        header_get-set r v "Content-Md5" refl,
        header_get-set r v "Content-Type" refl,
      )

  full_text-set : (resource : String) → full_text lib signed resource ≡ full_text lib r resource
  full_text-set resource =
      unfold full_text in
      cc (
        headers-set,
        method-set,
        date_field-set,
        content_length-set,
        header_get-set r v "Content-Encoding" refl,
        header_get-set r v "Content-Language" refl,
        header_get-set r v "Content-Md5" refl,
        header_get-set r v "Content-Type" refl,
        header_get-set r v "If-Modified-Since" refl,
        header_get-set r v "If-Match" refl,
        header_get-set r v "If-None-Match" refl,
        header_get-set r v "If-Unmodified-Since" refl,
        header_get-set r v "Range" refl,
      )

  string_to_sign-set :
      (lite : Bool) (account : String)
      → string_to_sign lib lite account signed ≡ string_to_sign lib lite account r
  unfolding string_to_sign
  string_to_sign-set true account =
      ap₂ (λ (f : String → String) o. Option.map f o) (fun_ext lite_text-set) (resource-set account)
  string_to_sign-set false account =
      ap₂ (λ (f : String → String) o. Option.map f o) (fun_ext full_text-set) (resource-set account)

-- A signature that one of the two keys made is accepted by the checks on the credential.
check_signature-signed :
    (c : Crypto) (lib : Library) (r : Request) (account : String) (key1 key2 key : Bytes)
    (lite : Bool) (s : String)
    → IsBase64 c
    → account ≢ ""
    → (key ≡ key1) ⊎ (key ≡ key2)
    → string_to_sign lib lite account r ≡ some s
    → check_signature c lib r account key1 key2 lite account (c.encode64 (c.hmac_sha256 key s))
      ≡ true
unfolding check_signature match_hmac
check_signature-signed c lib r account key1 key2 key lite s base named which text = ground (
  arith,
  base.nonempty key s,
  base.decodes (c.hmac_sha256 key s),
  eq_iff account "",
  eq_iff (c.encode64 (c.hmac_sha256 key s)) "",
  eq_refl account,
  same_bytes_refl (c.hmac_sha256 key s),
)

verify_scheme-signed :
    (c : Crypto) (lib : Library) (r : Request) (account : String) (key1 key2 key : Bytes)
    (lite : Bool) (s : String)
    → IsBase64 c
    → account ≢ ""
    → (key ≡ key1) ⊎ (key ≡ key2)
    → string_to_sign lib lite account r ≡ some s
    → verify_scheme c lib r account
        (account ++ ":" ++ c.encode64 (c.hmac_sha256 key s))
        key1
        key2
        lite
      ≡ true
unfolding verify_scheme
verify_scheme-signed c lib r account key1 key2 key lite s base named which text =
    rw
      (
        split_last_colon-append account (c.encode64 (c.hmac_sha256 key s)) (base.no_colon _),
        verify_scheme,
      )
      (check_signature-signed c lib r account key1 key2 key lite s base named which text)

verify-credential :
    (c : Crypto) (lib : Library) (r : Request) (account cred : String) (key1 key2 : Bytes)
    (lite : Bool)
    → header_get r "Authorization" ≡ scheme_name lite ++ " " ++ cred
    → verify c lib r account key1 key2 ≡ verify_scheme c lib r account cred key1 key2 lite
unfolding verify
verify-credential c lib r account cred key1 key2 true h =
    rw h (unfold ◌++◌ has_prefix drop_prefix in rw (cons-is_not_empty "S"))
verify-credential c lib r account cred key1 key2 false h =
    rw h (unfold ◌++◌ has_prefix drop_prefix in rw (cons-is_not_empty "S"))

-- A request signed with one of the two keys of the account is accepted, in both schemes.
pub verify-sign :
    (c : Crypto) (lib : Library) (account : String) (key1 key2 key : Bytes) (lite : Bool)
    (r signed_request : Request)
    → IsBase64 c
    → has_prefix (lib.to_lower "Authorization") "x-ms-" ≡ false
    → account ≢ ""
    → (key ≡ key1) ⊎ (key ≡ key2)
    → sign c lib account key lite r ≡ some signed_request
    → verify c lib signed_request account key1 key2 ≡ true
unfolding sign
verify-sign c lib account key1 key2 key lite r signed_request base unsigned named which h =
    elim (Option-cases (string_to_sign lib lite account r)) [
      | inl e ↦ absurd (ground arith)
      | inr (s, e) ↦
          let v : String =
            scheme_name lite ++ " " ++ account ++ ":" ++ c.encode64 (c.hmac_sha256 key s) in
          let same : header_set r "Authorization" v ≡ signed_request = ground arith in
          rw (← same) (
            verify-credential c lib _ account (account ++ ":" ++ c.encode64 (c.hmac_sha256 key s))
              key1 key2 lite (header_get-set_self r v)
            ∙ verify_scheme-signed c lib _ account key1 key2 key lite s base named which
                (string_to_sign-set lib r v unsigned lite account ∙ e))
    ]
