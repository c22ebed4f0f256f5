-- ===== src/Tests/Messages.antt =====
-- Queues with messages, over the two backends.
use miniblue.Prelude.{
  ℕ, ◌^◌, ◌≤◌, ◌<◌, String, ◌≡◌, ◌≢◌, refl, arith, true, none, some, [], ◌∷◌, ◌==◌, eq_iff,
  has_prefix, Bool-cases, inl, inr, if◌then◌else◌, Option,
}
use miniblue.Prelude.Decimal.{decimal_010}
use miniblue.Prelude.Sort.{str_le}
use miniblue.Store
use miniblue.Store.{Store}
use miniblue.Store.Memory.{MemoryBackend}
use miniblue.Store.File.{FileBackend}
use miniblue.Value.{Value, str}
use miniblue.Http.{json_response}
use miniblue.ServiceBus.{queue_key, msg_prefix, msg_key, receive_message}
use miniblue.ServiceBus.Fifo.{on_memory, on_file, receive_oldest, receive_on_file}

abbrev two_messages : MemoryBackend Value
two_messages = record {
  entries =
      ("sb:queue:n:q", str "queue")
      ∷ ("sb:msg:n:q:0000000010", str "late")
      ∷ ("sb:msg:n:q:0000000002", str "early")
      ∷ [];
}

abbrev the_queue : Option Value → String → Option Value
the_queue o k = if "sb:queue:n:q" == k then some (str "queue") else o

abbrev found : String → Option Value
found k =
    the_queue
      (if "sb:msg:n:q:0000000010" == k
        then some (str "late")
        else if "sb:msg:n:q:0000000002" == k
        then some (str "early")
        else none)
      k

no_message : has_prefix "sb:queue:n:q" "sb:msg:n:q:" ≡ true → ⊥
unfolding has_prefix
no_message e = ground arith

numbered :
    (k : String)
    → found k ≢ none
    → has_prefix k "sb:msg:n:q:" ≡ true
    → (j : ℕ) × (2 ≤ j) × (j < 10 ^ 10) × (k ≡ msg_key "n" "q" j)
unfolding msg_key msg_prefix decimal_010
numbered k there under = elim (Bool-cases ("sb:queue:n:q" == k)) [
  | inl e ↦ absurd (no_message (rw (← (eq_iff "sb:queue:n:q" k).0 e) at under))
  | inr e ↦ elim (Bool-cases ("sb:msg:n:q:0000000010" == k)) [
    | inl e' ↦ (10, omega arith, omega arith, rw (← (eq_iff "sb:msg:n:q:0000000010" k).0 e'))
    | inr e' ↦ elim (Bool-cases ("sb:msg:n:q:0000000002" == k)) [
      | inl e'' ↦ (2, omega arith, omega arith, rw (← (eq_iff "sb:msg:n:q:0000000002" k).0 e''))
      | inr e'' ↦ absurd (there (rw (e, e', e'')))
    ]
  ]
]

queue_there : Store.exists (on_memory two_messages 10).store (queue_key "n" "q") ≡ true
unfolding Store.exists queue_key
queue_there = refl

early_there : Store.get (on_memory two_messages 10).store (msg_key "n" "q" 2) ≡ some (str "early")
unfolding Store.get msg_key msg_prefix decimal_010
early_there = refl

receive_oldest_example :
    receive_message (on_memory two_messages 10) "n" "q" ≡ json_response 200 (str "early")
receive_oldest_example =
    receive_oldest two_messages 10 "n" "q" 2 (str "early") queue_there early_there
      (unfold Store.get msg_prefix in numbered)

abbrev no_messages : MemoryBackend Value
no_messages = record { entries = ("sb:queue:n:q", str "queue") ∷ [] }

none_under : (k : String) → has_prefix k "sb:msg:n:q:" ≡ true → the_queue none k ≡ none
none_under k under = elim (Bool-cases ("sb:queue:n:q" == k)) [
  | inl e ↦ absurd (no_message (rw (← (eq_iff "sb:queue:n:q" k).0 e) at under))
  | inr e ↦ rw e
]

empty_there : Store.exists (on_memory no_messages 10).store (queue_key "n" "q") ≡ true
unfolding Store.exists queue_key
empty_there = refl

abbrev on_disk : FileBackend Value
on_disk = record {
  mem = record { entries = ("sb:queue:n:q", str "queue") ∷ ("kv:v:a", str "hunter2") ∷ [] };
  path = "state.json";
}

least :
    (j : String)
    → the_queue (if "kv:v:a" == j then some (str "hunter2") else none) j ≢ none
    → str_le "kv:v:a" j ≡ true
least j there = elim (Bool-cases ("sb:queue:n:q" == j)) [
  | inl e ↦ rw (← (eq_iff "sb:queue:n:q" j).0 e) (unfold str_le in refl)
  | inr e ↦ elim (Bool-cases ("kv:v:a" == j)) [
    | inl e' ↦ rw (← (eq_iff "kv:v:a" j).0 e') (unfold str_le in refl)
    | inr e' ↦ absurd (there (rw (e, e')))
  ]
]

disk_queue_there : Store.exists (on_file on_disk 10).store (queue_key "n" "q") ≡ true
unfolding Store.exists queue_key
disk_queue_there = refl

secret_there : Store.get (on_file on_disk 10).store "kv:v:a" ≡ some (str "hunter2")
unfolding Store.get
secret_there = refl

receive_on_file_example :
    receive_message (on_file on_disk 10) "n" "q" ≡ json_response 200 (str "hunter2")
receive_on_file_example =
    receive_on_file on_disk 10 "n" "q" "kv:v:a" (str "hunter2") disk_queue_there secret_there
      (unfold Store.get in least)
