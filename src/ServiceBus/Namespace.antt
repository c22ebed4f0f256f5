-- ===== src/ServiceBus/Namespace.antt =====
-- What the deletion of a namespace removes, and what it leaves.
use miniblue.Prelude.{
  String, ◌≡◌, refl, ◌∙◌, Bool, true, false, ◌&&◌, ◌||◌, none, ◌++◌, ◌==◌, arith, eq_iff,
  Bool-cases, inl, inr, has_prefix, is_some, if◌then◌else◌,
}
use miniblue.Prelude.Text.{
  has_prefix_refl, differ, has_prefix_of_differ, has_prefix-append, has_prefix-append_self,
}
use miniblue.Store
use miniblue.Store.{Store}
use miniblue.Store.Laws.{get-delete, get-delete_by_prefix, delete_found, exists-get}
use miniblue.Value.{Value}
use miniblue.ServiceBus.Arm.{
  namespace_key, delete_namespace, arm_queue_key, get_queue_arm, arm_topic_key, get_topic_arm,
}

-- the keys under "sb:queue:<namespace>:" and "sb:topic:<namespace>:"
abbrev data_plane : (ns k : String) → Bool
data_plane ns k = has_prefix k ("sb:queue:" ++ ns ++ ":") || has_prefix k ("sb:topic:" ++ ns ++ ":")

get-delete_namespace :
    (s : Store Value) (sub rg ns k : String)
    → (namespace_key sub rg ns == k) ≡ false
    → Store.get (delete_namespace s sub rg ns).0 k ≡ (
        if is_some (Store.get s (namespace_key sub rg ns)) && data_plane ns k
        then none
        else Store.get s k)
unfolding delete_namespace
get-delete_namespace s sub rg ns k other = ground (
  arith,
  delete_found s (namespace_key sub rg ns),
  get-delete s (namespace_key sub rg ns) k,
  get-delete_by_prefix (Store.delete s (namespace_key sub rg ns)).0 ("sb:queue:" ++ ns ++ ":") k,
  get-delete_by_prefix
      (Store.delete_by_prefix (Store.delete s (namespace_key sub rg ns)).0
        ("sb:queue:" ++ ns ++ ":")).0
      ("sb:topic:" ++ ns ++ ":") k,
)

key_differs :
    (kind rest sub rg ns : String)
    → differ kind "sb:namespace:" ≡ true
    → (namespace_key sub rg ns == kind ++ rest) ≡ false
unfolding namespace_key
key_differs kind rest sub rg ns h =
    elim (Bool-cases ("sb:namespace:" ++ sub ++ ":" ++ rg ++ ":" ++ ns == kind ++ rest)) [
      | inl e ↦
          let same : "sb:namespace:" ++ sub ++ ":" ++ rg ++ ":" ++ ns ≡ kind ++ rest =
            (eq_iff _ _).0 e in
          let clash : has_prefix (kind ++ rest) ("sb:namespace:" ++ sub ++ ":" ++ rg ++ ":" ++ ns)
              ≡ false =
            has_prefix_of_differ kind "sb:namespace:" rest (sub ++ ":" ++ rg ++ ":" ++ ns) h in
          ground (arith, has_prefix_refl (kind ++ rest), clash, same)
      | inr e ↦ e
    ]

under_kind :
    (kind ns name : String) → has_prefix (kind ++ ns ++ ":" ++ name) (kind ++ ns ++ ":") ≡ true
unfolding ◌++◌
under_kind kind ns name =
    has_prefix-append kind (ns ++ ":" ++ name) (ns ++ ":")
    ∙ has_prefix-append ns (":" ++ name) ":"
    ∙ has_prefix-append_self ":" name

-- A key of a kind that is neither a data-plane queue nor a topic's message keeps its value.
keeps_kind :
    (s : Store Value) (sub rg ns kind rest : String)
    → differ kind "sb:namespace:" ≡ true
    → differ kind "sb:queue:" ≡ true
    → differ kind "sb:topic:" ≡ true
    → Store.get (delete_namespace s sub rg ns).0 (kind ++ rest) ≡ Store.get s (kind ++ rest)
keeps_kind s sub rg ns kind rest d1 d2 d3 =
    get-delete_namespace s sub rg ns (kind ++ rest) (key_differs kind rest sub rg ns d1)
    ∙ rw
        (
          has_prefix_of_differ kind "sb:queue:" rest (ns ++ ":") d2,
          has_prefix_of_differ kind "sb:topic:" rest (ns ++ ":") d3,
        )
        (ground arith)

module _ (s : Store Value) (sub rg ns : String) where
  -- Deleting an existing namespace removes its data-plane queues and its topics' messages.
  pub delete_namespace_removes :
      (name : String)
      → Store.exists s (namespace_key sub rg ns) ≡ true
      → (Store.get (delete_namespace s sub rg ns).0 ("sb:queue:" ++ ns ++ ":" ++ name) ≡ none)
        × (Store.get (delete_namespace s sub rg ns).0 ("sb:topic:" ++ ns ++ ":" ++ name) ≡ none)
  delete_namespace_removes name there =
      let there' : is_some (Store.get s (namespace_key sub rg ns)) ≡ true =
        rw exists-get at there in
      (
        get-delete_namespace s sub rg ns ("sb:queue:" ++ ns ++ ":" ++ name)
              (key_differs "sb:queue:" (ns ++ ":" ++ name) sub rg ns refl)
            ∙ rw (there', under_kind "sb:queue:" ns name),
        get-delete_namespace s sub rg ns ("sb:topic:" ++ ns ++ ":" ++ name)
              (key_differs "sb:topic:" (ns ++ ":" ++ name) sub rg ns refl)
            ∙ rw (
              there',
              under_kind "sb:topic:" ns name,
              has_prefix_of_differ "sb:topic:" "sb:queue:" (ns ++ ":" ++ name) (ns ++ ":") refl,
            ),
      )

  -- It leaves the namespace's queues and topics that were made through ARM, and the messages of
  -- its queues: each of them is answered as before.
  pub delete_namespace_leaves_children :
      (name rest : String)
      → (get_queue_arm (delete_namespace s sub rg ns).0 sub rg ns name
          ≡ get_queue_arm s sub rg ns name)
        × (get_topic_arm (delete_namespace s sub rg ns).0 sub rg ns name
            ≡ get_topic_arm s sub rg ns name)
        × (Store.get (delete_namespace s sub rg ns).0 ("sb:msg:" ++ rest)
            ≡ Store.get s ("sb:msg:" ++ rest))
  unfolding get_queue_arm get_topic_arm arm_queue_key arm_topic_key
  delete_namespace_leaves_children name rest = (
    rw (
        keeps_kind s sub rg ns "sb:armqueue:" (sub ++ ":" ++ rg ++ ":" ++ ns ++ ":" ++ name) refl
          refl refl),
    rw (
        keeps_kind s sub rg ns "sb:armtopic:" (sub ++ ":" ++ rg ++ ":" ++ ns ++ ":" ++ name) refl
          refl refl),
    keeps_kind s sub rg ns "sb:msg:" rest refl refl refl,
  )
