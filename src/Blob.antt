-- ===== src/Blob.antt =====
-- internal/services/blob/handler.go: containers and blobs, and the middleware that authenticates a
-- request to an account that was created through ARM. The XML listing is left out.
use miniblue.Prelude.{ℕ, String, Option, none, some, ◌++◌, List, [], ◌∷◌, ◌==◌, if◌then◌else◌}
use miniblue.Prelude.Lists.{length}
use miniblue.Prelude.Decimal.{decimal}
use miniblue.Prelude.Assoc.{Assoc, lookup}
use miniblue.Store
use miniblue.Store.{Store}
use miniblue.Value.{Value, Blob, container, blob}
use miniblue.Http.{Response, text, bytes, status_only, list_response, not_found}
use miniblue.StorageAuth.{Crypto, account_key_bytes}
use miniblue.StorageAuth.Request.{Request, Library, header_get}
use miniblue.StorageAuth.SharedKey.{verify}

unfoldable pub auth_failure : (req_id now : String) → Response
unfolding ◌++◌
auth_failure req_id now = record {
  status = 403;
  headers = ("Content-Type", "application/xml; charset=utf-8") ∷ ("x-ms-request-id", req_id) ∷ [];
  body = text (
      "<?xml version=\"1.0\" encoding=\"utf-8\" standalone=\"yes\"?>"
      ++ "<Error><Code>AuthenticationFailed</Code><Message>"
      ++ "Server failed to authenticate the request. Make sure the value of Authorization header is formed correctly including the signature."
      ++ "RequestId:" ++ req_id ++ "Time:" ++ now ++ "</Message></Error>");
}

-- blobSharedKeyAuth: what `next` does with the request, or the failure
unfoldable pub shared_key_auth {ℓ} :
    {A : Type ℓ}
    → Crypto
    → Library
    → Store Value
    → (account : String) → Request
    → (next failure : A) → A
shared_key_auth c lib s account r next failure = elim (account_key_bytes c s account) [
  | none ↦ next
  | some (k1, k2) ↦
      if r.method == "OPTIONS" then next else if verify c lib r account k1 k2 then next else failure
]

unfoldable pub container_key : (account name : String) → String
unfolding ◌++◌
container_key account name = "blob:container:" ++ account ++ ":" ++ name

unfoldable pub blob_key : (account container_name name : String) → String
unfolding ◌++◌
blob_key account container_name name =
    "blob:blob:" ++ account ++ ":" ++ container_name ++ ":" ++ name

unfoldable pub create_container :
    Store Value → (account name now etag : String) → Store Value × Response
create_container s account name now etag = (
  Store.set s (container_key account name) (
      container (record { name = name; properties = ("lastModified", now) ∷ ("etag", etag) ∷ [] })),
  status_only 201,
)

unfoldable pub delete_container : Store Value → (account name : String) → Store Value × Response
unfolding ◌++◌
delete_container s account name = (
  (Store.delete_by_prefix (Store.delete s (container_key account name)).0
      ("blob:blob:" ++ account ++ ":" ++ name ++ ":")).0,
  status_only 202,
)

unfoldable pub list_blobs : Store Value → (account name : String) → Response
unfolding ◌++◌
list_blobs s account name =
    list_response "blobs" (Store.list_by_prefix s ("blob:blob:" ++ account ++ ":" ++ name ++ ":"))

unfoldable pub new_blob : Request → (name now etag : String) (content : List ℕ) → Blob
new_blob r name now etag content =
    let ct = header_get r "Content-Type" in
    record {
      name = name;
      properties =
          ("lastModified", now)
          ∷ ("contentLength", decimal (length content))
          ∷ ("contentType", if ct == "" then "application/octet-stream" else ct)
          ∷ ("etag", etag)
          ∷ [];
      content = content;
    }

unfoldable pub upload_blob :
    Store Value
    → Request
    → (account container_name name now etag : String) (content : List ℕ) → Store Value × Response
upload_blob s r account container_name name now etag content = (
  Store.set s (blob_key account container_name name) (blob (new_blob r name now etag content)),
  status_only 201,
)

-- p[k] on a map[string]string
property : String → Assoc String → String
unfolding lookup
property k p = elim (lookup k p) [ none ↦ "" | some v ↦ v ]

-- `b := v.(Blob)` panics, `none`, at a value of another type
write_blob : Value → Option Response
unfolding property
write_blob (blob b) = some (record {
  status = 200;
  headers =
      ("Content-Type", property "contentType" b.properties)
      ∷ ("Content-Length", property "contentLength" b.properties)
      ∷ ("ETag", property "etag" b.properties)
      ∷ [];
  body = bytes b.content;
})
write_blob v = none

unfoldable pub download_blob :
    Store Value → (account container_name name : String) → Option Response
unfolding write_blob
download_blob s account container_name name =
    elim (Store.get s (blob_key account container_name name)) [
      | none ↦ some (not_found "blob" name)
      | some v ↦ write_blob v
    ]

unfoldable pub delete_blob :
    Store Value → (account container_name name : String) → Store Value × Response
delete_blob s account container_name name =
    ((Store.delete s (blob_key account container_name name)).0, status_only 202)
