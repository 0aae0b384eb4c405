-- ===== src/HttpServer/Shards.antt =====
-- The sharded table is one map from connection ids: a write to one id is seen there and nowhere else.
use mini_net.Prelude.{
  ℕ, zero, suc, ◌<◌, ◌≡◌, refl, ap, ◌∙◌, List, [], ◌∷◌, none, some, length, arith, insert, erase,
  get-insert, get-erase, nat_eq, ◌==◌, ==_iff, ==_refl, Bool-cases, inl, inr, if◌then◌else◌, false,
}
use mini_net.HttpServer.{
  Server, Shard, Conn, shard_at, set_shard, shard_of, shard_count, find_conn, put_conn, drop,
  new_server,
}

pub record IsSharded (s : Server) : Type 0 where
  pub size : length s.shards ≡ shard_count

pub new_server-IsSharded : IsSharded new_server
new_server-IsSharded = record { size = refl }

length-set_shard : (l : List Shard) (i : ℕ) (m : Shard) → length (set_shard l i m) ≡ length l
unfolding set_shard
length-set_shard [] i m = refl
length-set_shard (n ∷ l) zero m = refl
length-set_shard (n ∷ l) (suc i) m = ap suc (length-set_shard l i m)

shard_at-set_shard :
    (l : List Shard) (i j : ℕ) (m : Shard)
    → i < length l
    → shard_at (set_shard l i m) j ≡ (if i == j then m else shard_at l j)
unfolding set_shard shard_at
shard_at-set_shard [] i j m h = absurd (omega arith)
shard_at-set_shard (n ∷ l) zero zero m h = refl
shard_at-set_shard (n ∷ l) zero (suc j) m h = ground arith
shard_at-set_shard (n ∷ l) (suc i) zero m h = ground arith
shard_at-set_shard (n ∷ l) (suc i) (suc j) m h =
    ground (arith, shard_at-set_shard l i j m (omega arith))

shard_of-bound : (s : Server) (i : ℕ) → IsSharded s → shard_of i < length s.shards
shard_of-bound s i v = omega (arith, v.size)

pub put_conn-IsSharded : (s : Server) (i : ℕ) (c : Conn) → IsSharded s → IsSharded (put_conn s i c)
unfolding put_conn
put_conn-IsSharded s i c v = record { size = length-set_shard s.shards _ _ ∙ v.size }

pub drop-IsSharded : (s : Server) (i : ℕ) → IsSharded s → IsSharded (drop s i)
unfolding drop
drop-IsSharded s i v = record { size = length-set_shard s.shards _ _ ∙ v.size }

apart : (i j : ℕ) → (shard_of i == shard_of j) ≡ false → (i == j) ≡ false
apart i j h = elim (Bool-cases (i == j)) [
  | inl e ↦ absurd (cc (h, ap shard_of ((==_iff i j).0 e), ==_refl (shard_of j)))
  | inr e ↦ e
]

-- A connection that is written is there, and the others are as they were.
pub find_conn-put_conn :
    (s : Server) (i j : ℕ) (c : Conn)
    → IsSharded s
    → find_conn (put_conn s i c) j ≡ (if i == j then some c else find_conn s j)
unfolding find_conn put_conn
find_conn-put_conn s i j c v =
    rw
      (shard_at-set_shard s.shards (shard_of i) (shard_of j)
        (insert (shard_at s.shards (shard_of i)) i c) (shard_of-bound s i v))
      (elim (Bool-cases (shard_of i == shard_of j)) [
        | inl e ↦ rw (e, (==_iff _ _).0 e) (get-insert (shard_at s.shards (shard_of j)) i j c)
        | inr e ↦ rw (e, apart i j e)
      ])

-- A connection that is dropped is gone, and the others are as they were.
pub find_conn-drop :
    (s : Server) (i j : ℕ)
    → IsSharded s
    → find_conn (drop s i) j ≡ (if i == j then none else find_conn s j)
unfolding find_conn drop
find_conn-drop s i j v =
    rw
      (shard_at-set_shard s.shards (shard_of i) (shard_of j)
        (erase (shard_at s.shards (shard_of i)) i) (shard_of-bound s i v))
      (elim (Bool-cases (shard_of i == shard_of j)) [
        | inl e ↦ rw (e, (==_iff _ _).0 e) (get-erase (shard_at s.shards (shard_of j)) i j)
        | inr e ↦ rw (e, apart i j e)
      ])
