-- ===== src/ServiceBus/Fifo.antt =====
-- ReceiveMessage of internal/services/servicebus/handler.go, over the two backends of the store.
use mathlib.Core.Bool.{false≢true}
use miniblue.Prelude.{
  ℕ, ◌≤◌, ◌<◌, ◌^◌, String, ◌≡◌, ◌≢◌, refl, ap, ◌∙◌, sym, Bool, true, false, ◌&&◌, Option, none,
  some, List, [], ◌∷◌, has_prefix, is_some, eq_refl,
}
use miniblue.Prelude.Lists.{contains}
use miniblue.Prelude.Decimal.Order.{decimal_010_le}
use miniblue.Prelude.Text.{has_prefix-append_self}
use miniblue.Prelude.Sort.{str_le, sort_strings}
use miniblue.Prelude.Sort.Least.{IsLeast, str_le-append, sort-least}
use miniblue.Store
use miniblue.Store.{Store, memory, file}
use miniblue.Store.Memory.{MemoryBackend}
use miniblue.Store.Laws.{contains-list_keys, contains-list_keys_file}
use miniblue.Store.File.{FileBackend}
use miniblue.Value.{Value}
use miniblue.Http.{json_response, status_only}
use miniblue.ServiceBus.{Handler, queue_key, msg_prefix, msg_key, first_message, receive_message}

-- Keys of messages below the ten-digit limit sort by number.
msg_key_le :
    (ns name : String) (i j : ℕ)
    → i ≤ j
    → j < 10 ^ 10
    → str_le (msg_key ns name i) (msg_key ns name j) ≡ true
unfolding msg_key
msg_key_le ns name i j h k = rw (str_le-append (msg_prefix ns name)) (decimal_010_le i j h k)

-- the handler over a memory backend, or over a file backend
abbrev pub on_memory : MemoryBackend Value → ℕ → Handler
on_memory b id = record { store = record { backend = memory b }; msg_id = id }

abbrev pub on_file : FileBackend Value → ℕ → Handler
on_file f id = record { store = record { backend = file f }; msg_id = id }

first-least :
    (s : Store Value) (k : String) (v : Value) (ks : List String)
    → contains k ks ≡ true
    → IsLeast k ks
    → Store.get s k ≡ some v
    → first_message s (sort_strings ks) ≡ json_response 200 v
unfolding first_message
first-least s k v ks c h e = let (rest, sorted) = sort-least k ks c h in rw (sorted, e)

under_prefix :
    (ns name : String) (i : ℕ) → has_prefix (msg_key ns name i) (msg_prefix ns name) ≡ true
unfolding msg_key
under_prefix ns name i = has_prefix-append_self (msg_prefix ns name) _

some_of : {A : Type 0} (o : Option A) → is_some o ≡ true → o ≢ none
some_of none h e = false≢true h
some_of (some a) h e = cc

and_left : (a b : Bool) → (a && b) ≡ true → a ≡ true
and_left true b e = refl
and_left false b e = e

and_right : (a b : Bool) → (a && b) ≡ true → b ≡ true
and_right true b e = e
and_right false b e = absurd (false≢true e)

contains-none : (ks : List String) → ((k : String) → contains k ks ≡ false) → ks ≡ []
contains-none [] h = refl
contains-none (k ∷ ks) h = absurd (false≢true (sym (h k) ∙ rw (eq_refl k) refl))

and_none : {A : Type 0} (o : Option A) (b : Bool) → (b ≡ true → o ≡ none) → (is_some o && b) ≡ false
and_none none b h = refl
and_none (some a) false h = refl
and_none (some a) true h = absurd (some_of (some a) refl (h refl))

-- A queue that is there answers the message with the least number, if every key under the queue's
-- prefix is that of a message with a number of at most ten digits.
pub receive_oldest :
    (b : MemoryBackend Value) (id : ℕ) (ns name : String) (i : ℕ) (v : Value)
    → Store.exists (on_memory b id).store (queue_key ns name) ≡ true
    → Store.get (on_memory b id).store (msg_key ns name i) ≡ some v
    → ((k : String)
        → Store.get (on_memory b id).store k ≢ none
        → has_prefix k (msg_prefix ns name) ≡ true
        → (j : ℕ) × (i ≤ j) × (j < 10 ^ 10) × (k ≡ msg_key ns name j))
    → receive_message (on_memory b id) ns name ≡ json_response 200 v
unfolding receive_message
receive_oldest b id ns name i v there here numbered =
    let s = (on_memory b id).store in
    let p = msg_prefix ns name in
    rw there (
      first-least s (msg_key ns name i) v (Store.list_keys_by_prefix s p)
        (contains-list_keys b p (msg_key ns name i) ∙ rw (here, under_prefix ns name i))
        (λ j c.
          let both = sym (contains-list_keys b p j) ∙ c in
          let there = is_some (Store.get s j) in
          let (n, le, lt, e) =
            numbered j (some_of (Store.get s j) (and_left there (has_prefix j p) both))
              (and_right there (has_prefix j p) both) in
          rw e (msg_key_le ns name i n le lt))
        here)

-- A queue that is there answers 204 if no key stands under its prefix.
pub receive_empty :
    (b : MemoryBackend Value) (id : ℕ) (ns name : String)
    → Store.exists (on_memory b id).store (queue_key ns name) ≡ true
    → ((k : String)
        → has_prefix k (msg_prefix ns name) ≡ true
        → Store.get (on_memory b id).store k ≡ none)
    → receive_message (on_memory b id) ns name ≡ status_only 204
unfolding receive_message first_message sort_strings
receive_empty b id ns name there empty =
    let s = (on_memory b id).store in
    let p = msg_prefix ns name in
    rw there (
      ap (λ ks. first_message s (sort_strings ks))
        (contains-none (Store.list_keys_by_prefix s p)
          (λ k. contains-list_keys b p k ∙ and_none (Store.get s k) (has_prefix k p) (empty k))))

-- Over a file backend a queue that is there answers the value of the least key of the store,
-- whatever kind of entry that is, and also if the queue has no message.
pub receive_on_file :
    (f : FileBackend Value) (id : ℕ) (ns name k : String) (v : Value)
    → Store.exists (on_file f id).store (queue_key ns name) ≡ true
    → Store.get (on_file f id).store k ≡ some v
    → ((j : String) → Store.get (on_file f id).store j ≢ none → str_le k j ≡ true)
    → receive_message (on_file f id) ns name ≡ json_response 200 v
unfolding receive_message
receive_on_file f id ns name k v there here least =
    let s = (on_file f id).store in
    let p = msg_prefix ns name in
    rw there (
      first-least s k v (Store.list_keys_by_prefix s p) (contains-list_keys_file f p k ∙ rw here)
        (λ j c. least j (some_of (Store.get s j) (sym (contains-list_keys_file f p j) ∙ c))) here)
