-- ===== src/System/Laws.antt =====
-- What the code relies on of the kernel's calls and of the hash table, as they are documented.
use sosagent.Base.{ℕ, ◌≤◌, ◌<◌, ◌≡◌, none, some, List, length}
use sosagent.System.{got, took, Env}

-- `recv` hands over at most what was asked for; `send` takes at most what it is given, and
-- something of it where it succeeds.
pub record IsPosix (env : Env) : Type 0 where
  pub recv_bound :
      (k : env.Kernel) (fd len : ℕ) (bs : List ℕ)
      → (env.recv_call k fd len).0 ≡ got bs
      → length bs ≤ len
  pub send_bound :
      (k : env.Kernel) (fd : ℕ) (bs : List ℕ) (n : ℕ)
      → (env.send_call k fd bs).0 ≡ took n
      → n ≤ length bs
  pub send_progress :
      (k : env.Kernel) (fd : ℕ) (bs : List ℕ) (n : ℕ)
      → (env.send_call k fd bs).0 ≡ took n
      → 0 < length bs
      → 0 < n

-- The table maps an id to the entry that was added under it. Adding asks for a new id.
pub record IsTable (env : Env) : Type 0 where
  pub find_none : (n : ℕ) → env.hash_find env.no_entries n ≡ none
  pub find-add_self :
      (t : env.Table) (n : ℕ) (v : ℕ × ℕ)
      → env.hash_find t n ≡ none
      → env.hash_find (env.hash_add t n v) n ≡ some v
  pub find-add_ne :
      (t : env.Table) (n m : ℕ) (v : ℕ × ℕ)
      → ¬ (n ≡ m)
      → env.hash_find (env.hash_add t n v) m ≡ env.hash_find t m
  pub find-del_self : (t : env.Table) (n : ℕ) → env.hash_find (env.hash_del t n) n ≡ none
  pub find-del_ne :
      (t : env.Table) (n m : ℕ) → ¬ (n ≡ m) → env.hash_find (env.hash_del t n) m ≡ env.hash_find t m
