-- ===== src/Tests/Access.antt =====
-- A signed request, with a cipher that is simple enough to compute with. Bytes are encoded in
-- unary: `n` times "x" and a full stop, with "=" at the end.
use Prim.Native.Char.{code}
use Prim.Native.String.{[] as nil, ◌∷◌ as cons}
use mathlib.Core.Option
use miniblue.Prelude.{
  ℕ, zero, suc, ◌+◌, String, ◌≡◌, ◌≢◌, refl, ap, ◌∙◌, arith, Bool, true, false, Option, none, some,
  List, [], ◌∷◌, inl, inr, eqb, if◌then◌else◌, has_prefix, ◌++◌,
}
use miniblue.Prelude.Text.{NoColon, cons-is_not_empty}
use miniblue.Store
use miniblue.Store.{Store}
use miniblue.Value.{Value}
use miniblue.StorageAuth.{Bytes, Crypto, deterministic_account_key}
use miniblue.StorageAuth.Request.{Request, Library, header_get, header_set}
use miniblue.StorageAuth.SharedKey.{sign, verify, scheme_name}
use miniblue.StorageAuth.SharedKey.Soundness.{MadeBy, verify_sound}
use miniblue.StorageAuth.SharedKey.RoundTrip.{IsBase64, verify-sign}
use miniblue.Prelude.Lists.{contains}
use miniblue.Blob.{shared_key_auth, create_container, container_key}
use miniblue.StorageAccounts.{storage_account_key, create_or_update, list_keys}
use miniblue.StorageAccounts.Access.{KeepsContext, reported, listed_key_opens, unsigned_is_refused}
use miniblue.Tests.{store_of, apart}

unary : ℕ → String → String
unary zero s = cons "." s
unary (suc n) s = cons "x" (unary n s)

encode : Bytes → String
unfolding unary
encode [] = "="
encode (n ∷ bs) = unary n (encode bs)

decode_from : ℕ → String → Option Bytes
decode_from n nil = none
decode_from n (cons c s) =
    let more = decode_from (suc n) s in
    let next = decode_from 0 s in
    if eqb (code c) 120
    then more
    else if eqb (code c) 46
    then Option.map (λ bs. n ∷ bs) next
    else some []

decode_from-unary :
    (k n : ℕ) (s : String)
    → decode_from k (unary n s) ≡ Option.map (λ bs. (k + n) ∷ bs) (decode_from 0 s)
unfolding decode_from unary
decode_from-unary k zero s = ap (λ m. Option.map (λ bs. m ∷ bs) (decode_from 0 s)) (omega arith)
decode_from-unary k (suc n) s =
    decode_from-unary (suc k) n s
    ∙ ap (λ m. Option.map (λ bs. m ∷ bs) (decode_from 0 s)) (omega arith)

decode-encode : (bs : Bytes) → decode_from 0 (encode bs) ≡ some bs
unfolding encode
decode-encode [] = unfold decode_from in refl
decode-encode (n ∷ bs) =
    decode_from-unary 0 n (encode bs)
    ∙ ap (Option.map (λ bs'. (0 + n) ∷ bs')) (decode-encode bs)
    ∙ ap (λ m. some (m ∷ bs)) (omega arith)

unary-NoColon : (n : ℕ) (s : String) → NoColon s → NoColon (unary n s)
unfolding unary
unary-NoColon zero s h = (omega arith, h)
unary-NoColon (suc n) s h = (omega arith, unary-NoColon n s h)

encode-NoColon : (bs : Bytes) → NoColon (encode bs)
unfolding encode
encode-NoColon [] = (omega arith, tt)
encode-NoColon (n ∷ bs) = unary-NoColon n (encode bs) (encode-NoColon bs)

unary_nonempty : (n : ℕ) (s : String) → unary n s ≢ ""
unfolding unary
unary_nonempty zero s = apart (cons "." s) "" (cons-is_not_empty "." s)
unary_nonempty (suc n) s = apart (cons "x" (unary n s)) "" (cons-is_not_empty "x" (unary n s))

encode_nonempty : (bs : Bytes) → encode bs ≢ ""
unfolding encode
encode_nonempty [] = apart "=" "" refl
encode_nonempty (n ∷ bs) = unary_nonempty n (encode bs)

-- a hash that keeps nothing, and a code that is the key
abbrev toy : Crypto
toy = record {
  sha256 = λ s. 7 ∷ [];
  hmac_sha256 = λ key message. key;
  encode64 = encode;
  decode64 = decode_from 0;
}

toy-IsBase64 : IsBase64 toy
toy-IsBase64 = record {
  decodes = decode-encode;
  no_colon = encode-NoColon;
  nonempty = λ key message. encode_nonempty key;
}

-- header names are already in lower case but for Authorization, which has no use for one
abbrev plain : Library
plain = record { to_upper = λ s. s; to_lower = λ s. s; unescape = λ s. some s }

abbrev ask : Request
ask = record {
  method = "GET";
  header = ("X-Ms-Date", "now" ∷ []) ∷ [];
  escaped_path = "/acct/box";
  raw_query = "";
  query = some [];
}

abbrev key1 : Bytes
key1 = 7 ∷ 7 ∷ []

abbrev credential : String
credential = "SharedKey acct:xxxxxxx.xxxxxxx.="

signs : sign toy plain "acct" key1 false ask ≡ some (header_set ask "Authorization" credential)
unfolding sign encode miniblue.StorageAuth.SharedKey.string_to_sign
    miniblue.StorageAuth.Canonical.canonicalized_resource
signs = refl

not_signed : has_prefix (plain.to_lower "Authorization") "x-ms-" ≡ false
unfolding has_prefix
not_signed = refl

verify-sign_example :
    verify toy plain (header_set ask "Authorization" credential) "acct" key1 (8 ∷ []) ≡ true
verify-sign_example =
    verify-sign toy plain "acct" key1 (8 ∷ []) key1 false ask
      (header_set ask "Authorization" credential) toy-IsBase64 not_signed (apart "acct" "" refl)
      (inl refl) signs

abbrev empty : Store Value
empty = store_of []

abbrev put_account : Store Value
put_account = (create_or_update "" empty "s1" "g1" "acct" none).0

-- a container is created after the account
abbrev later : Store Value
later = (create_container put_account "acct" "box" "now" "etag").0

kept : KeepsContext put_account later "acct"
unfolding create_container create_or_update container_key storage_account_key Store.set Store.get
    miniblue.StorageAuth.persist_shared_key_context miniblue.StorageAuth.context_key
    miniblue.StorageAuth.shared_key_context
kept = refl

decodes_key1 : toy.decode64 "xxxxxxx.xxxxxxx.=" ≡ some key1
unfolding decode_from
decodes_key1 = refl

key1_listed : contains "xxxxxxx.xxxxxxx.=" (reported (list_keys toy later "s1" "g1" "acct")) ≡ true
unfolding reported list_keys create_container create_or_update container_key storage_account_key
    Store.set Store.get miniblue.StorageAuth.persist_shared_key_context
    miniblue.StorageAuth.context_key deterministic_account_key encode
key1_listed = refl

listed_key_opens_example :
    shared_key_auth toy plain later "acct" (header_set ask "Authorization" credential) true false
    ≡ true
listed_key_opens_example =
    listed_key_opens toy plain "" empty later "s1" "g1" "acct" none true false toy-IsBase64
      (omega arith, (omega arith, tt)) kept "xxxxxxx.xxxxxxx.=" key1 false ask
      (header_set ask "Authorization" credential) key1_listed (apart "acct" "" refl) not_signed
      decodes_key1 signs

not_authorized : header_get ask "Authorization" ≡ ""
unfolding header_get miniblue.Prelude.Assoc.lookup
not_authorized = refl

unsigned_is_refused_example : shared_key_auth toy plain later "acct" ask true false ≡ false
unsigned_is_refused_example =
    unsigned_is_refused toy plain "" empty later "s1" "g1" "acct" none true false toy-IsBase64
      (omega arith, (omega arith, tt)) kept ask not_authorized (apart "GET" "OPTIONS" refl)

abbrev created : Store Value
created = (create_or_update "" empty "s1" "g1" "acct" none).0

account_there : Store.exists created (storage_account_key "s1" "g1" "acct") ≡ true
unfolding Store.exists storage_account_key create_or_update
    miniblue.StorageAuth.persist_shared_key_context Store.set miniblue.StorageAuth.context_key
account_there = refl

accepted : verify toy plain (header_set ask "Authorization" credential) "acct" key1 (8 ∷ []) ≡ true
accepted =
    verify-sign toy plain "acct" key1 (8 ∷ []) key1 false ask
      (header_set ask "Authorization" credential) toy-IsBase64 not_signed (apart "acct" "" refl)
      (inl refl) signs

verify_sound_example :
    (lite : Bool) × (sig : String) × (header_get
        (header_set ask "Authorization" credential)
        "Authorization"
      ≡ scheme_name lite ++ " " ++ "acct" ++ ":" ++ sig)
    × MadeBy toy plain (header_set ask "Authorization" credential) "acct" key1 (8 ∷ []) lite sig
verify_sound_example =
    verify_sound toy plain (header_set ask "Authorization" credential) "acct" key1 (8 ∷ []) accepted
