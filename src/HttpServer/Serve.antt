-- ===== src/HttpServer/Serve.antt =====
-- What a message brings about, on its own connection and no other.
use mathlib.Core.Option.{some-injective}
use mini_net.Prelude.{
  ℕ, zero, suc, replicate, ◌≡◌, ◌≢◌, ◌⊎◌, refl, sym, ap, ◌∙◌, ◌++◌, subst, Bool, true, false,
  Option, none, some, Bytes, List, [], inl, inr, if◌then◌else◌, Bool-cases, ◌==◌, ==_iff, get,
  nat_eq,
}
use mini_net.Buffer.{initial_size, append}
use mini_net.Buffer.View.{IsValid, init-IsValid}
use mini_net.Buffer.Space.{append-Refines}
use mini_net.TcpServer.{Output}
use mini_net.HttpServer.{
  Server, Conn, Turn, Handler, find_conn, put_conn, find_or_create, or_new, on_message,
  after_message, new_server, drop, on_connection, shard_at, shard_of, shard_count,
}
use mini_net.HttpServer.Shards.{
  IsSharded, find_conn-put_conn, put_conn-IsSharded, find_conn-drop, drop-IsSharded,
  new_server-IsSharded,
}
use mini_net.HttpServer.Exchange.{Exchange}
use mini_net.HttpServer.Progress.{answer_all-Ended, Ended}

-- Every connection's buffer is valid.
pub record IsServer (s : Server) : Type 0 where
  pub sharded : IsSharded s
  pub inputs : (i : ℕ) (c : Conn) → find_conn s i ≡ some c → IsValid c.input

put_conn-IsServer :
    (s : Server) (i : ℕ) (c : Conn) → IsServer s → IsValid c.input → IsServer (put_conn s i c)
put_conn-IsServer s i c v k = record {
  sharded = put_conn-IsSharded s i c v.sharded;
  inputs = λ j d found.
      put_input j d (Bool-cases (i == j)) (sym (find_conn-put_conn s i j c v.sharded) ∙ found);
}
  where
    put_input :
        (j : ℕ) (d : Conn)
        → ((i == j) ≡ true) ⊎ ((i == j) ≡ false)
        → (if i == j then some c else find_conn s j) ≡ some d
        → IsValid d.input
    put_input j d (inl e) found =
        subst (λ x. IsValid x.input) (some-injective c d (rw e at found)) k
    put_input j d (inr e) found = v.inputs j d (rw e at found)

drop-IsServer : (s : Server) (i : ℕ) → IsServer s → IsServer (drop s i)
drop-IsServer s i v = record {
  sharded = drop-IsSharded s i v.sharded;
  inputs =
      λ j d found. dropped j d (Bool-cases (i == j)) (sym (find_conn-drop s i j v.sharded) ∙ found);
}
  where
    dropped :
        (j : ℕ) (d : Conn)
        → ((i == j) ≡ true) ⊎ ((i == j) ≡ false)
        → (if i == j then none else find_conn s j) ≡ some d
        → IsValid d.input
    dropped j d (inl e) found = absurd (cc (rw e at found))
    dropped j d (inr e) found = v.inputs j d (rw e at found)

or_new-IsValid : (s : Server) (i : ℕ) → IsServer s → IsValid (or_new (find_conn s i)).input
or_new-IsValid s i v = by_cases (find_conn s i) refl
  where
    by_cases : (o : Option Conn) → find_conn s i ≡ o → IsValid (or_new o).input
    by_cases none e = init-IsValid initial_size
    by_cases (some c) e = v.inputs i c e

put_conn-other :
    (s : Server) (i j : ℕ) (c : Conn)
    → IsServer s
    → (i == j) ≡ false
    → find_conn (put_conn s i c) j ≡ find_conn s j
put_conn-other s i j c v h = find_conn-put_conn s i j c v.sharded ∙ rw h

counted-IsServer :
    (s : Server) (requests errors : ℕ)
    → IsServer s
    → IsServer (record s { requests = requests; errors = errors })
counted-IsServer s requests errors v = record {
  sharded = record { size = v.sharded.size };
  inputs = unfold find_conn in v.inputs;
}

find_conn-counted :
    (s : Server) (requests errors j : ℕ)
    → find_conn (record s { requests = requests; errors = errors }) j ≡ find_conn s j
unfolding find_conn
find_conn-counted s requests errors j = refl

different : (i j : ℕ) → i ≢ j → (i == j) ≡ false
different i j h = elim (Bool-cases (i == j)) [ inl e ↦ absurd (h ((==_iff i j).0 e)) | inr e ↦ e ]

-- The connection with the bytes of a message.
abbrev pub fed : Server → ℕ → Bytes → Conn
fed s i bytes = let c = or_new (find_conn s i) in record c { input = append c.input bytes }

module _ {S : Type 0} where
  abbrev pub Served :
      Option (Handler S) → Server → S → ℕ → Bytes → Option (Server × S × List Output) → Type 0
  Served handler s app i bytes o =
      (s' : Server) × (app' : S) × (outputs : List Output) × (o ≡ some (s', app', outputs))
      × IsServer s'
      × ((j : ℕ) → i ≢ j → find_conn s' j ≡ find_conn s j)
      × (c : Conn) × (find_conn s' i ≡ some c)
      × Exchange handler (fed s i bytes) app c app' outputs

  after_message-Served :
      (handler : Option (Handler S)) (s s1 : Server) (i : ℕ) (bytes : Bytes) (t0 : Turn S)
      (o : Option (Turn S))
      → IsServer s1
      → ((j : ℕ) → i ≢ j → find_conn s1 j ≡ find_conn s j)
      → t0.conn ≡ fed s i bytes
      → t0.outputs ≡ []
      → Ended handler t0 o
      → Served handler s t0.app i bytes (after_message s1 i o)
  after_message-Served handler s s1 i bytes t0 o v same begins silent (t, e, k, done) =
      let (outputs, are, x) = done in
      rw e (
        _,
        _,
        _,
        refl,
        counted-IsServer _ _ _ (put_conn-IsServer s1 i t.conn v k),
        λ j h.
            find_conn-counted _ _ _ j ∙ put_conn-other s1 i j t.conn v (different i j h) ∙ same j h,
        t.conn,
        find_conn-counted _ _ _ i
            ∙ find_conn-put_conn s1 i i t.conn v.sharded
            ∙ rw ((==_iff i i).1 refl),
        subst (λ c. Exchange handler c t0.app t.conn t.app t.outputs) begins
            (subst (λ l. Exchange handler t0.conn t0.app t.conn t.app l)
              (sym (are ∙ ap (λ (l : List Output). l ++ outputs) silent)) x),
      )

  -- On a server whose connections are sound, the loop of onMessage ends, whatever the handler does, and
  -- what it has asked the transport for is what the message calls for: in order, for each request that
  -- the parser completes, the handler's response to it, then a shutdown where the request or the
  -- response wants no more; for input that the parser refuses, the error's response and a shutdown; and
  -- nothing for a request that is not complete. Every connection is sound afterwards, and only the
  -- message's own has changed. What the transport does with an output is not seen here.
  pub on_message-Served :
      (handler : Option (Handler S)) (s : Server) (app : S) (i : ℕ) (bytes : Bytes)
      → IsServer s
      → Served handler s app i bytes (on_message handler s app i bytes)
  unfolding on_message find_or_create
  on_message-Served handler s app i bytes v =
      let c = or_new (find_conn s i) in
      let k = or_new-IsValid s i v in
      let t0 : Turn S = record {
        conn = fed s i bytes;
        app = app;
        requests = (put_conn s i c).requests;
        errors = (put_conn s i c).errors;
        outputs = [];
      } in
      after_message-Served handler s (put_conn s i c) i bytes t0 _ (put_conn-IsServer s i c v k)
        (λ j h. put_conn-other s i j c v (different i j h)) refl refl
        (answer_all-Ended handler _ (append-Refines c.input bytes k).0)

-- On a server whose connections are sound, a connection that opens or closes is forgotten, the others stay, and every connection is sound
-- afterwards.
pub on_connection-forgets :
    (s : Server) (i : ℕ) (connected : Bool)
    → IsServer s
    → IsServer (on_connection s i connected)
      × (find_conn (on_connection s i connected) i ≡ none)
      × ((j : ℕ) → i ≢ j → find_conn (on_connection s i connected) j ≡ find_conn s j)
unfolding on_connection
on_connection-forgets s i connected v = (
  drop-IsServer s i v,
  find_conn-drop s i i v.sharded ∙ rw ((==_iff i i).1 refl),
  λ j h. find_conn-drop s i j v.sharded ∙ rw (different i j h),
)

empty_shards : (n i : ℕ) → shard_at (replicate n []) i ≡ []
unfolding shard_at
empty_shards zero i = refl
empty_shards (suc n) zero = refl
empty_shards (suc n) (suc i) = empty_shards n i

no_conn : (i : ℕ) → find_conn new_server i ≡ none
unfolding find_conn get
no_conn i = rw (empty_shards shard_count (shard_of i))

pub new_server-IsServer : IsServer new_server
new_server-IsServer = record {
  sharded = new_server-IsSharded;
  inputs = λ i c found. absurd (cc (sym (no_conn i) ∙ found));
}
