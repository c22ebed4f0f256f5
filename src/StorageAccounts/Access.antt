-- ===== src/StorageAccounts/Access.antt =====
-- The keys of an account, and blobSharedKeyAuth of internal/services/blob/handler.go.
use Prim.Native.Char.{code}
use Prim.Native.String.{[] as nil, ◌∷◌ as cons}
use mathlib.Core.Bool.{false≢true}
use mathlib.Core.List
use mathlib.Core.Option.{some-injective}
use miniblue.Prelude.{
  String, ◌≡◌, ◌≢◌, ◌⊎◌, inl, inr, refl, ◌∙◌, sym, Bool, true, false, Option, none, some, ◌++◌,
  ◌==◌, has_prefix, is_some, List, [], ◌∷◌, if◌then◌else◌, arith, eq_iff, eq_refl, Bool-cases,
}
use miniblue.Prelude.Lists.{contains}
use miniblue.Store
use miniblue.Store.{Store}
use miniblue.Store.Laws.{get-set, get-delete, delete_found, exists-get}
use miniblue.Value.{
  Value, Fields, Items, str, obj, array, no_items, item, lookup_field, string_or_empty,
}
use miniblue.Http.{Body, json, Response, not_found}
use miniblue.StorageAuth.{
  Bytes, Crypto, context_key, deterministic_account_key, persist_shared_key_context,
  shared_key_context, account_key_bytes, split_newline, account_key_bytes_lem,
  account_key_bytes-none, delete_shared_key_context,
}
use miniblue.StorageAuth.Request.{Request, Library, header_get}
use miniblue.StorageAuth.SharedKey.{sign, verify}
use miniblue.StorageAuth.SharedKey.RoundTrip.{IsBase64, verify-sign}
use miniblue.Blob.{shared_key_auth}
use miniblue.StorageAccounts.{storage_account_key, create_or_update, delete, list_keys}

-- A text of one line.
abbrev pub NoNewline : String → Type 0
NoNewline nil = Unit
NoNewline (cons c s) = (code c ≢ 10) × NoNewline s

split_newline-append : (a b : String) → NoNewline a → split_newline (a ++ "\n" ++ b) ≡ some (a, b)
unfolding split_newline ◌++◌
split_newline-append nil b h = refl
split_newline-append (cons c a) b h = rw (split_newline-append a b h.1) (ground (arith, h.0))

-- The context that is stored with an account is read back.
context-persist :
    (s : Store Value) (sub rg account : String)
    → NoNewline sub
    → shared_key_context (persist_shared_key_context s sub rg account) account ≡ some (sub, rg)
unfolding shared_key_context persist_shared_key_context
context-persist s sub rg account h =
    rw
      (
        get-set s (context_key account) (context_key account) (str (sub ++ "\n" ++ rg)),
        eq_refl (context_key account),
      )
      (split_newline-append sub rg h)

abbrev derived : Crypto → (sub rg name key_id : String) → Bytes
derived c sub rg name key_id =
    let rest = sub ++ "|" ++ rg ++ "|" ++ name ++ "|" ++ key_id in
    List.◌++◌ (c.sha256 ("miniblue|storage|" ++ rest)) (c.sha256 ("miniblue|storage|alt|" ++ rest))

derived_lem :
    (c : Crypto) (sub rg name key_id : String)
    → IsBase64 c
    → c.decode64 (deterministic_account_key c sub rg name key_id)
      ≡ some (derived c sub rg name key_id)
unfolding deterministic_account_key
derived_lem c sub rg name key_id base = base.decodes _

which_key :
    (c : Crypto) (sub rg name text : String) (key : Bytes)
    → IsBase64 c
    → (text ≡ deterministic_account_key c sub rg name "1")
      ⊎ (text ≡ deterministic_account_key c sub rg name "2")
    → c.decode64 text ≡ some key
    → (key ≡ derived c sub rg name "1") ⊎ (key ≡ derived c sub rg name "2")
which_key c sub rg name text key base (inl e) h =
    inl (some-injective _ _ (sym (rw e at h) ∙ derived_lem c sub rg name "1" base))
which_key c sub rg name text key base (inr e) h =
    inr (some-injective _ _ (sym (rw e at h) ∙ derived_lem c sub rg name "2" base))

let_through {ℓ} :
    {A : Type ℓ} (b : Bool) {v : Bool} (next failure : A)
    → v ≡ true
    → (if b then next else if v then next else failure) ≡ next
let_through true next failure h = refl
let_through false next failure h = rw h

not_options : (m : String) → m ≢ "OPTIONS" → (m == "OPTIONS") ≡ false
not_options m h = elim (Bool-cases (m == "OPTIONS")) [
  | inl e ↦ absurd (h ((eq_iff m "OPTIONS").0 e))
  | inr e ↦ e
]

verify_bare :
    (c : Crypto) (lib : Library) (r : Request) (name : String) (k1 k2 : Bytes)
    → header_get r "Authorization" ≡ ""
    → verify c lib r name k1 k2 ≡ false
unfolding verify
verify_bare c lib r name k1 k2 h = rw h

-- the texts in the field `value` of the keys that a response lists
values_of : Items → List String
values_of no_items = []
values_of (item (obj entry) rest) = string_or_empty (lookup_field "value" entry) ∷ values_of rest
values_of (item v rest) = values_of rest

values_at : Option Value → List String
values_at (some (array vs)) = values_of vs
values_at v = []

values_in : Body → List String
values_in (json (obj fs)) = values_at (lookup_field "keys" fs)
values_in b = []

unfoldable pub reported : Response → List String
unfolding values_in values_at values_of lookup_field string_or_empty
reported r = values_in r.body

-- What ListKeys reports are the two derived keys, of an account that is there.
reported-list_keys :
    (c : Crypto) (s : Store Value) (sub rg name text : String)
    → contains text (reported (list_keys c s sub rg name)) ≡ true
    → (text ≡ deterministic_account_key c sub rg name "1")
      ⊎ (text ≡ deterministic_account_key c sub rg name "2")
unfolding list_keys reported lookup_field string_or_empty not_found
reported-list_keys c s sub rg name text h =
    let first = deterministic_account_key c sub rg name "1" in
    let second = deterministic_account_key c sub rg name "2" in
    elim (Bool-cases (is_some (Store.get s (storage_account_key sub rg name)))) [
      | inl e ↦
          let two : contains text (first ∷ second ∷ []) ≡ true = rw e at h in
          elim (Bool-cases (first == text)) [
            | inl p ↦ inl (sym ((eq_iff first text).0 p))
            | inr p ↦ elim (Bool-cases (second == text)) [
              | inl q ↦ inr (sym ((eq_iff second text).0 q))
              | inr q ↦ absurd (false≢true (rw (p, q) at two))
            ]
          ]
      | inr e ↦ absurd (false≢true (rw e at h))
    ]

-- In `later` the middleware knows the keys of an account as the PUT left them.
abbrev pub KeepsContext : (put later : Store Value) (account : String) → Type 0
KeepsContext put later account = shared_key_context later account ≡ shared_key_context put account

keys-later :
    (c : Crypto) (endpoint : String) (s later : Store Value) (sub rg name : String)
    (input : Option Fields)
    → IsBase64 c
    → NoNewline sub
    → KeepsContext (create_or_update endpoint s sub rg name input).0 later name
    → account_key_bytes c later name ≡ some (derived c sub rg name "1", derived c sub rg name "2")
unfolding create_or_update
keys-later c endpoint s later sub rg name input base one_line kept =
    account_key_bytes_lem c later sub rg name (derived c sub rg name "1")
      (derived c sub rg name "2")
      (kept
        ∙ context-persist (Store.set s (storage_account_key sub rg name) _) sub rg name one_line)
      (derived_lem c sub rg name "1" base) (derived_lem c sub rg name "2" base)

module _ {ℓ} {A : Type ℓ} (c : Crypto) (lib : Library) (endpoint : String) (s later : Store Value)
    (sub rg name : String) (input : Option Fields) (next failure : A) (base : IsBase64 c)
    (one_line : NoNewline sub)
    (kept : KeepsContext (create_or_update endpoint s sub rg name input).0 later name) where
  -- An account is created by a PUT through ARM, its subscription is a text of one line, and since
  -- then no request has changed the context that the PUT stored for the account's name. A client
  -- decodes one of the values that ListKeys then reports for the account, and signs its request with
  -- it: the request passes the middleware of the account.
  pub listed_key_opens :
      (text : String) (key : Bytes) (lite : Bool) (r signed : Request)
      → contains text (reported (list_keys c later sub rg name)) ≡ true
      → name ≢ ""
      → has_prefix (lib.to_lower "Authorization") "x-ms-" ≡ false
      → c.decode64 text ≡ some key
      → sign c lib name key lite r ≡ some signed
      → shared_key_auth c lib later name signed next failure ≡ next
  unfolding shared_key_auth
  listed_key_opens text key lite r signed listed named unsigned decodes signs =
      let k1 = derived c sub rg name "1" in
      let k2 = derived c sub rg name "2" in
      rw (keys-later c endpoint s later sub rg name input base one_line kept, shared_key_auth)
        (let_through (signed.method == "OPTIONS") next failure (
          verify-sign c lib name k1 k2 key lite r signed base unsigned named
            (which_key c sub rg name text key base
              (reported-list_keys c later sub rg name text listed) decodes)
            signs))

  -- An account is created by a PUT through ARM, its subscription is a text of one line, and since
  -- then no request has changed the context that the PUT stored for the account's name: a request
  -- without an Authorization header, other than OPTIONS, does not pass the middleware.
  pub unsigned_is_refused :
      (r : Request)
      → header_get r "Authorization" ≡ ""
      → r.method ≢ "OPTIONS"
      → shared_key_auth c lib later name r next failure ≡ failure
  unfolding shared_key_auth
  unsigned_is_refused r bare method =
      let k1 = derived c sub rg name "1" in
      let k2 = derived c sub rg name "2" in
      rw (
        keys-later c endpoint s later sub rg name input base one_line kept,
        shared_key_auth,
        not_options r.method method,
        verify_bare c lib r name k1 k2 bare,
      )

-- After the account is deleted the middleware lets every request through: it knows no keys.
pub deleted_account_is_open {ℓ} :
    {A : Type ℓ} (c : Crypto) (lib : Library) (s : Store Value) (sub rg name : String) (r : Request)
    (next failure : A)
    → Store.exists s (storage_account_key sub rg name) ≡ true
    → shared_key_auth c lib (delete s sub rg name).0 name r next failure ≡ next
unfolding delete delete_shared_key_context shared_key_auth
deleted_account_is_open c lib s sub rg name r next failure there =
    let k = storage_account_key sub rg name in
    let found : (Store.delete s k).1 ≡ true = delete_found s k ∙ (rw (exists-get s k) at there) in
    let s' = (Store.delete s k).0 in
    let gone : Store.get (Store.delete s' (context_key name)).0 (context_key name) ≡ none =
      get-delete s' (context_key name) (context_key name) ∙ rw (eq_refl (context_key name)) in
    rw (found, account_key_bytes-none c _ name gone, shared_key_auth)
