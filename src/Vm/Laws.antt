-- ===== src/Vm/Laws.antt =====
-- What internal/services/vm/model.go and identity.go promise: no internal field is shown, and the two
-- parsers of identity ids agree.
use mathlib.Core.Bool.{false≢true}
use mathlib.Core.Option.{some-injective}
use mathlib.Core.Path.{subst}
use miniblue.Prelude.{
  String, Bool, ◌≡◌, ◌≢◌, ◌↔◌, eq_refl, refl, sym, ap, true, false, Option, none, some, List, ◌==◌,
  ◌&&◌, eqb, is_some, has_prefix, Bool-cases, inl, inr, arith, eq_iff, if◌then◌else◌,
}
use miniblue.Prelude.Split.{split, trim}
use miniblue.Store
use miniblue.Store.{Store}
use miniblue.Value.{Value, Fields, obj, no_fields, field, lookup_field}
use miniblue.Identity.Token.Select.{part, count, key_of_parts, identity_key_from_arm_id}
use miniblue.Vm.{public_view}
use miniblue.Vm.Identity.{
  Result, error, ok, segments_fit, identity_store_key_from_arm_id, stored_entry, entry_at, added,
  resolve_all,
}

-- A public view has the fields of the record whose names do not begin with an underscore, and no other.
pub public_view_lem :
    (k : String) (rec : Fields)
    → lookup_field k (public_view rec) ≡ (if has_prefix k "_" then none else lookup_field k rec)
unfolding public_view lookup_field
public_view_lem k no_fields = ground arith
public_view_lem k (field j v rest) = elim (Bool-cases (j == k)) [
  | inl e ↦ elim (Bool-cases (has_prefix k "_")) [
    | inl u ↦ rw ((eq_iff j k).0 e, u, public_view_lem k rest, u) refl
    | inr u ↦ rw ((eq_iff j k).0 e, u, eq_refl k) refl
  ]
  | inr e ↦ elim (Bool-cases (has_prefix j "_")) [
    | inl u ↦ rw (u, e) (public_view_lem k rest)
    | inr u ↦ rw (u, e) (public_view_lem k rest)
  ]
]

ok_inj {ℓ} : {A : Type ℓ} {a b : A} → ok a ≡ ok b → a ≡ b
ok_inj h = cc h

error≢ok {ℓ} : {A : Type ℓ} {e : String} {a : A} → ◌≢◌ {A = Result A} (error e) (ok a)
error≢ok h = cc h

module _ (equal_fold : String → String → Bool) where
  first_true : (a b : Bool) → (a && b) ≡ true → a ≡ true
  first_true true b h = refl
  first_true false b h = h

  segments_fit-count :
      (ps : List String) → segments_fit equal_fold ps ≡ true → eqb (count ps) 8 ≡ true
  unfolding segments_fit
  segments_fit-count ps h = first_true (eqb (count ps) 8) _ h

  pub parsers_agree :
      (arm_id k : String)
      → identity_store_key_from_arm_id equal_fold arm_id ≡ ok k
      → identity_key_from_arm_id arm_id ≡ some k
  unfolding identity_store_key_from_arm_id identity_key_from_arm_id key_of_parts
  parsers_agree arm_id k h =
      elim (Bool-cases (segments_fit equal_fold (split b'/' (trim b'/' arm_id)))) [
        | inl e ↦
            rw (segments_fit-count (split b'/' (trim b'/' arm_id)) e) (ap some (ok_inj (rw e at h)))
        | inr e ↦ absurd (error≢ok (rw e at h))
      ]

  -- The segments of an id at the places 0, 2, 4, 5 and 6, counted from 0, are the words of the id of
  -- an identity.
  abbrev pub HasWords : List String → Type 0
  HasWords ps =
      (equal_fold (part 0 ps) "subscriptions" ≡ true)
      × (equal_fold (part 2 ps) "resourceGroups" ≡ true)
      × (equal_fold (part 4 ps) "providers" ≡ true)
      × (equal_fold (part 5 ps) "Microsoft.ManagedIdentity" ≡ true)
      × (equal_fold (part 6 ps) "userAssignedIdentities" ≡ true)

  segments_fit-HasWords : (ps : List String) → segments_fit equal_fold ps ≡ true → HasWords ps
  unfolding segments_fit
  segments_fit-HasWords ps h = ground arith

  HasWords-segments_fit :
      (ps : List String) → eqb (count ps) 8 ≡ true → HasWords ps → segments_fit equal_fold ps ≡ true
  unfolding segments_fit
  HasWords-segments_fit ps n (a, b, c, d, e) = rw (n, a, b, c, d, e) refl

  key_of_parts-count :
      (ps : List String) (k : String) → key_of_parts ps ≡ some k → eqb (count ps) 8 ≡ true
  unfolding key_of_parts
  key_of_parts-count ps k h = elim (Bool-cases (eqb (count ps) 8)) [
    | inl e ↦ e
    | inr e ↦ cc (rw e at h)
  ]

  fits-parsed :
      (arm_id k : String)
      → segments_fit equal_fold (split b'/' (trim b'/' arm_id)) ≡ true
      → identity_key_from_arm_id arm_id ≡ some k
      → identity_store_key_from_arm_id equal_fold arm_id ≡ ok k
  unfolding identity_store_key_from_arm_id identity_key_from_arm_id key_of_parts
  fits-parsed arm_id k e h =
      rw e (
        ap ok (some-injective _ _ (rw (segments_fit-count (split b'/' (trim b'/' arm_id)) e) at h)))

  parsed-fits :
      (arm_id k : String)
      → identity_store_key_from_arm_id equal_fold arm_id ≡ ok k
      → segments_fit equal_fold (split b'/' (trim b'/' arm_id)) ≡ true
  unfolding identity_store_key_from_arm_id
  parsed-fits arm_id k h =
      elim (Bool-cases (segments_fit equal_fold (split b'/' (trim b'/' arm_id)))) [
        | inl e ↦ e
        | inr e ↦ absurd (error≢ok (rw e at h))
      ]

  -- The parser of the virtual machines finds a key if and only if the parser of the identity service
  -- finds that key and strings.EqualFold holds of the segments 0, 2, 4, 5 and 6 of the id and the words
  -- subscriptions, resourceGroups, providers, Microsoft.ManagedIdentity and userAssignedIdentities.
  pub parsers_iff :
      (arm_id k : String)
      → (identity_store_key_from_arm_id equal_fold arm_id ≡ ok k)
        ↔ (HasWords (split b'/' (trim b'/' arm_id)) × (identity_key_from_arm_id arm_id ≡ some k))
  unfolding identity_key_from_arm_id
  parsers_iff arm_id k =
      let ps = split b'/' (trim b'/' arm_id) in
      let agree : (identity_store_key_from_arm_id equal_fold arm_id ≡ ok k)
          → HasWords ps × (identity_key_from_arm_id arm_id ≡ some k) =
        λ h. (segments_fit-HasWords ps (parsed-fits arm_id k h), parsers_agree arm_id k h) in
      let back : HasWords ps × (identity_key_from_arm_id arm_id ≡ some k)
          → (identity_store_key_from_arm_id equal_fold arm_id ≡ ok k) =
        λ h.
          fits-parsed arm_id k (HasWords-segments_fit ps (key_of_parts-count ps k h.1) h.0) h.1 in
      (agree, back)

  abbrev pub Names : Store Value → (arm_id : String) → Type 0
  Names s arm_id =
      (k : String) × (identity_key_from_arm_id arm_id ≡ some k) × (is_some (Store.get s k) ≡ true)

  entry_at-Names :
      (s : Store Value) (arm_id : String) (r : Result String) (entry : Fields)
      → identity_store_key_from_arm_id equal_fold arm_id ≡ r
      → entry_at equal_fold s arm_id r ≡ ok entry
      → Names s arm_id
  unfolding entry_at stored_entry
  entry_at-Names s arm_id (error e) entry p h = absurd (error≢ok h)
  entry_at-Names s arm_id (ok k) entry p h = (k, parsers_agree arm_id k p, there (Store.get s k) h)
    where
      there : (o : Option Value) → stored_entry equal_fold arm_id o ≡ ok entry → is_some o ≡ true
      there none h' = absurd (error≢ok h')
      there (some v) h' = refl

  added-ok :
      (arm_id : String) (a b : Result Fields) (rs : Fields)
      → added equal_fold arm_id a b ≡ ok rs
      → (entry : Fields) × (more : Fields) × (a ≡ ok entry)
        × (b ≡ ok more)
        × (rs ≡ field arm_id (obj entry) more)
  unfolding added
  added-ok arm_id (error e) b rs h = absurd (error≢ok h)
  added-ok arm_id (ok entry) (error e) rs h = absurd (error≢ok h)
  added-ok arm_id (ok entry) (ok more) rs h = (entry, more, refl, refl, sym (ok_inj h))

  -- The identities of a virtual machine whose assignments were resolved are in the store, under the keys
  -- that the identity service finds by their ids.
  pub resolve_all-Names :
      (s : Store Value) (given rs : Fields) (arm_id : String)
      → resolve_all equal_fold s given ≡ ok rs
      → is_some (lookup_field arm_id rs) ≡ true
      → Names s arm_id
  unfolding resolve_all lookup_field
  resolve_all-Names s no_fields rs arm_id h there =
      absurd (false≢true (rw (sym (ok_inj h)) at there))
  resolve_all-Names s (field j v rest) rs arm_id h there =
      let (entry, more, p, q, e) = added-ok j _ _ rs h in
      elim (Bool-cases (j == arm_id)) [
        | inl same ↦
            subst (λ x. Names s x) ((eq_iff j arm_id).0 same) (entry_at-Names s j _ entry refl p)
        | inr other ↦ resolve_all-Names s rest more arm_id q (rw other at (rw e at there))
      ]
