-- ===== src/Arm/Family.antt =====
-- Resources with resources of their own, like virtual networks with subnets: the keys of a parent and
-- of its children, and that no child is in the store without its parent.
use mathlib.Core.Bool.{false≢true}
use miniblue.Prelude.{
  ℕ, String, ◌≡◌, refl, ◌∙◌, sym, true, false, ◌++◌, ◌==◌, arith, eq_iff, inl, inr, Bool-cases,
  has_prefix, is_some, if◌then◌else◌,
}
use miniblue.Prelude.Text.{
  NoColon, differ, has_prefix_of_differ, has_prefix_refl, has_prefix-append, has_prefix-append_self,
  append_cancel, segment_inj,
}
use miniblue.Store
use miniblue.Store.{Store}
use miniblue.Store.Laws.{get-set, get-delete, get-delete_by_prefix, get-delete_absent, exists-get}
use miniblue.Value.{Value}
use miniblue.Http.{Response}
use miniblue.Arm.{put_resource, delete_resource}

-- a text that begins like no text of another kind
pub kind_apart : (a b s p : String) → differ a b ≡ true → (a ++ s == b ++ p) ≡ false
kind_apart a b s p h = elim (Bool-cases (a ++ s == b ++ p)) [
  | inl e ↦
      let same : a ++ s ≡ b ++ p = (eq_iff (a ++ s) (b ++ p)).0 e in
      absurd
        (false≢true (sym (has_prefix_of_differ a b s p h) ∙ rw same (has_prefix_refl (b ++ p))))
  | inr e ↦ e
]

-- Found or not, the store after a deletion is the one after Delete.
pub delete_resource-store :
    (s : Store Value) (k : String) (missing : Response) (code : ℕ)
    → (delete_resource s k missing code).0 ≡ (Store.delete s k).0
unfolding delete_resource
delete_resource-store s k missing code = elim (Bool-cases (Store.delete s k).1) [
  | inl e ↦ rw e refl
  | inr e ↦ rw e refl
]

-- The kinds of the parents and of the children, neither a prefix of the other.
module _ (parent child : String) (away : differ child parent ≡ true)
    (away' : differ parent child ≡ true) where
  abbrev pub parent_key : (a b c : String) → String
  parent_key a b c = parent ++ a ++ ":" ++ b ++ ":" ++ c

  abbrev pub child_key : (a b c d : String) → String
  child_key a b c d = child ++ a ++ ":" ++ b ++ ":" ++ c ++ ":" ++ d

  -- Each child has its parent in the store.
  abbrev pub HasParents : Store Value → Type 0
  HasParents s =
      (a b c d : String)
      → NoColon a
      → NoColon b
      → NoColon c
      → is_some (Store.get s (child_key a b c d)) ≡ true
      → is_some (Store.get s (parent_key a b c)) ≡ true

  parent-inj :
      (a b c a' b' c' : String)
      → NoColon a
      → NoColon b
      → NoColon a'
      → NoColon b'
      → parent_key a b c ≡ parent_key a' b' c'
      → (a ≡ a') × (b ≡ b') × (c ≡ c')
  parent-inj a b c a' b' c' na nb na' nb' h =
      let (e, h') =
        segment_inj a a' (b ++ ":" ++ c) (b' ++ ":" ++ c') na na' (append_cancel parent _ _ h) in
      let (e', e'') = segment_inj b b' c c' nb nb' h' in (e, e', e'')

  child-inj :
      (a b c d a' b' c' d' : String)
      → NoColon a
      → NoColon b
      → NoColon c
      → NoColon a'
      → NoColon b'
      → NoColon c'
      → child_key a b c d ≡ child_key a' b' c' d'
      → (a ≡ a') × (b ≡ b') × (c ≡ c')
  child-inj a b c d a' b' c' d' na nb nc na' nb' nc' h =
      let (e, h') =
        segment_inj a a' (b ++ ":" ++ c ++ ":" ++ d) (b' ++ ":" ++ c' ++ ":" ++ d') na na'
          (append_cancel child _ _ h) in
      let (e', h'') = segment_inj b b' (c ++ ":" ++ d) (c' ++ ":" ++ d') nb nb' h' in
      (e, e', (segment_inj c c' d d' nc nc' h'').0)

  under_parent : (a b c d : String) → has_prefix (child_key a b c d) (child_key a b c "") ≡ true
  unfolding ◌++◌ has_prefix
  under_parent a b c d =
      has_prefix-append child (a ++ ":" ++ b ++ ":" ++ c ++ ":" ++ d)
        (a ++ ":" ++ b ++ ":" ++ c ++ ":")
      ∙ has_prefix-append a (":" ++ b ++ ":" ++ c ++ ":" ++ d) (":" ++ b ++ ":" ++ c ++ ":")
      ∙ has_prefix-append b (":" ++ c ++ ":" ++ d) (":" ++ c ++ ":")
      ∙ has_prefix-append c (":" ++ d) ":"
      ∙ has_prefix-append_self ":" d

  -- Setting what is not a child keeps the invariant: a parent, or a resource of another kind.
  pub set-HasParents :
      (s : Store Value) (k : String) (v : Value)
      → ((a b c d : String) → (k == child_key a b c d) ≡ false)
      → HasParents s
      → HasParents (Store.set s k v)
  set-HasParents s k v other h a b c d na nb nc there = ground (
    arith,
    get-set s k (child_key a b c d) v,
    get-set s k (parent_key a b c) v,
    other a b c d,
    h a b c d na nb nc,
  )

  pub set_parent-HasParents :
      (s : Store Value) (a b c : String) (v : Value)
      → HasParents s
      → HasParents (Store.set s (parent_key a b c) v)
  set_parent-HasParents s a b c v h =
      set-HasParents s (parent_key a b c) v
        (λ a' b' c' d'.
          kind_apart parent child (a ++ ":" ++ b ++ ":" ++ c)
            (a' ++ ":" ++ b' ++ ":" ++ c' ++ ":" ++ d') away')
        h

  -- A child may be set if its parent is there.
  pub set_child-HasParents :
      (s : Store Value) (a b c d : String) (v : Value)
      → NoColon a
      → NoColon b
      → NoColon c
      → is_some (Store.get s (parent_key a b c)) ≡ true
      → HasParents s
      → HasParents (Store.set s (child_key a b c d) v)
  set_child-HasParents s a b c d v na nb nc there h a' b' c' d' na' nb' nc' here =
      let apart : (child_key a b c d == parent_key a' b' c') ≡ false =
        kind_apart child parent (a ++ ":" ++ b ++ ":" ++ c ++ ":" ++ d)
          (a' ++ ":" ++ b' ++ ":" ++ c') away in
      rw (get-set s (child_key a b c d) (parent_key a' b' c') v, apart)
        (elim (Bool-cases (child_key a b c d == child_key a' b' c' d')) [
          | inl e ↦
              let (ea, eb, ec) =
                child-inj a b c d a' b' c' d' na nb nc na' nb' nc'
                  ((eq_iff (child_key a b c d) (child_key a' b' c' d')).0 e) in
              rw (← ea, ← eb, ← ec) there
          | inr e ↦
              h a' b' c' d' na' nb' nc'
                (rw (get-set s (child_key a b c d) (child_key a' b' c' d') v, e) at here)
        ])

  -- So may a child be deleted,
  pub delete_child-HasParents :
      (s : Store Value) (a b c d : String)
      → HasParents s
      → HasParents (Store.delete s (child_key a b c d)).0
  delete_child-HasParents s a b c d h a' b' c' d' na nb nc here =
      let apart : (child_key a b c d == parent_key a' b' c') ≡ false =
        kind_apart child parent (a ++ ":" ++ b ++ ":" ++ c ++ ":" ++ d)
          (a' ++ ":" ++ b' ++ ":" ++ c') away in
      ground (
        arith,
        get-delete s (child_key a b c d) (child_key a' b' c' d'),
        get-delete s (child_key a b c d) (parent_key a' b' c'),
        apart,
        h a' b' c' d' na nb nc,
      )

  -- and a parent with all of its children.
  pub delete_family-HasParents :
      (s : Store Value) (a b c : String)
      → NoColon a
      → NoColon b
      → HasParents s
      → HasParents
          (Store.delete_by_prefix (Store.delete s (parent_key a b c)).0 (child_key a b c "")).0
  delete_family-HasParents s a b c na nb h a' b' c' d' na' nb' nc' here =
      let s' = (Store.delete s (parent_key a b c)).0 in
      let kept : has_prefix (parent_key a' b' c') (child_key a b c "") ≡ false =
        has_prefix_of_differ parent child (a' ++ ":" ++ b' ++ ":" ++ c')
          (a ++ ":" ++ b ++ ":" ++ c ++ ":" ++ "") away' in
      elim (Bool-cases (parent_key a b c == parent_key a' b' c')) [
        | inl e ↦
            let (ea, eb, ec) =
              parent-inj a b c a' b' c' na nb na' nb'
                ((eq_iff (parent_key a b c) (parent_key a' b' c')).0 e) in
            let swept : has_prefix (child_key a' b' c' d') (child_key a b c "") ≡ true =
              rw (ea, eb, ec) (under_parent a' b' c' d') in
            absurd (
              false≢true (
                rw (get-delete_by_prefix s' (child_key a b c "") (child_key a' b' c' d'), swept) at
                  here))
        | inr e ↦ ground (
          arith,
          get-delete_by_prefix s' (child_key a b c "") (child_key a' b' c' d'),
          get-delete_by_prefix s' (child_key a b c "") (parent_key a' b' c'),
          get-delete s (parent_key a b c) (child_key a' b' c' d'),
          get-delete s (parent_key a b c) (parent_key a' b' c'),
          kept,
          h a' b' c' d' na' nb' nc',
        )
      ]

  -- Deleting what is not there keeps the invariant.
  pub delete_absent-HasParents :
      (s : Store Value) (k : String)
      → (Store.delete s k).1 ≡ false
      → HasParents s
      → HasParents (Store.delete s k).0
  delete_absent-HasParents s k gone h a b c d na nb nc =
      rw
        (
          get-delete_absent s k (child_key a b c d) gone,
          get-delete_absent s k (parent_key a b c) gone,
        )
        (h a b c d na nb nc)

  -- What the handlers of such resources do: the DELETE of a parent, and the PUT of a child.
  abbrev remove_family :
      Store Value → (a b c : String) → (gone missing : Response) → Store Value × Response
  remove_family s a b c gone missing =
      let (s', found) = Store.delete s (parent_key a b c) in
      if found then ((Store.delete_by_prefix s' (child_key a b c "")).0, gone) else (s', missing)

  abbrev put_child :
      Store Value → (a b c d : String) → Value → (missing : Response) → Store Value × Response
  put_child s a b c d v missing =
      if Store.exists s (parent_key a b c)
      then put_resource s (child_key a b c d) v
      else (s, missing)

  pub remove_family-HasParents :
      (s : Store Value) (a b c : String) (gone missing : Response)
      → NoColon a
      → NoColon b
      → HasParents s
      → HasParents (remove_family s a b c gone missing).0
  remove_family-HasParents s a b c gone missing na nb h =
      elim (Bool-cases (Store.delete s (parent_key a b c)).1) [
        | inl e ↦ rw e (delete_family-HasParents s a b c na nb h)
        | inr e ↦ rw e (delete_absent-HasParents s (parent_key a b c) e h)
      ]

  pub put_child-HasParents :
      (s : Store Value) (a b c d : String) (v : Value) (missing : Response)
      → NoColon a
      → NoColon b
      → NoColon c
      → HasParents s
      → HasParents (put_child s a b c d v missing).0
  unfolding put_resource
  put_child-HasParents s a b c d v missing na nb nc h =
      elim (Bool-cases (Store.exists s (parent_key a b c))) [
        | inl e ↦ rw e (
            set_child-HasParents s a b c d v na nb nc (sym (exists-get s (parent_key a b c)) ∙ e) h)
        | inr e ↦ rw e h
      ]

  pub remove_child-HasParents :
      (s : Store Value) (a b c d : String) (missing : Response) (code : ℕ)
      → HasParents s
      → HasParents (delete_resource s (child_key a b c d) missing code).0
  unfolding delete_resource
  remove_child-HasParents s a b c d missing code h =
      let removed = delete_child-HasParents s a b c d h in
      elim (Bool-cases (Store.delete s (child_key a b c d)).1) [
        | inl e ↦ rw e removed
        | inr e ↦ rw e removed
      ]

  pub new-HasParents : HasParents Store.new
  unfolding Store.get Store.new
  new-HasParents a b c d na nb nc h = absurd (false≢true h)
