-- ===== src/TcpServer/Table.antt =====
-- The table of connections: it names objects by the descriptors that they have, and a close is heard
-- of once.
use mathlib.Core.Option.{some-injective}
use mini_net.Prelude.{
  ℕ, ◌≡◌, ◌≢◌, ◌⊎◌, inl, inr, refl, sym, ap, ◌∙◌, subst, true, false, List, [], ◌∷◌, ◌++◌, Option,
  none, some, if◌then◌else◌, ◌==◌, ==_iff, Bool-cases, get, insert, erase, nat_eq, get-insert,
  get-erase,
}
use mini_net.Channel.{Ctl, Poller, disable_all}
use mini_net.TcpServer.Writing.{Conn, Flush, begin}
use mini_net.TcpServer.Writing.Keeps.{Flushed}
use mini_net.TcpServer.{Server, World, Handlers, store, close_at, close_conn_in_loop, flushed}

-- An object stands under its id, and an entry of the table names an object with that descriptor.
pub record IsTable {K : Type 0} (s : Server K) : Type 0 where
  pub keyed : (i : ℕ) (c : Conn) → get s.objects i ≡ some c → c.id ≡ i
  pub named :
      (fd i : ℕ) → get s.conns fd ≡ some i → (c : Conn) × (get s.objects i ≡ some c) × (c.fd ≡ fd)

-- So it is, no object has an id of those in `U`, and `n` is the next id.
pub record IsKept {K : Type 0} (U : ℕ → Type 0) (n : ℕ) (s : Server K) : Type 0 where
  pub keyed : (i : ℕ) (c : Conn) → get s.objects i ≡ some c → c.id ≡ i
  pub named :
      (fd i : ℕ) → get s.conns fd ≡ some i → (c : Conn) × (get s.objects i ≡ some c) × (c.fd ≡ fd)
  pub unused : (i : ℕ) → U i → get s.objects i ≡ none
  pub counter : s.next_conn_id ≡ n

module _ {K A : Type 0} (ctl : Ctl K) (h : Handlers A) where
  close_known :
      (c : Conn) (id : ℕ) (w : World K A)
      → get w.0.conns c.fd ≡ some id
      → close_conn_in_loop ctl h c w ≡ close_at ctl h c (some id) w
  unfolding close_conn_in_loop
  close_known c id w e = ap (λ o. close_at ctl h c o w) e

  close_unknown :
      (c : Conn) (w : World K A) → get w.0.conns c.fd ≡ none → close_conn_in_loop ctl h c w ≡ w
  unfolding close_conn_in_loop
  close_unknown c w e = ap (λ o. close_at ctl h c o w) e

  -- Where the table has the descriptor, a close takes its entry out and leaves the others, closes the
  -- descriptor, and tells the application once that this connection is gone. Closing again changes
  -- nothing. The entry goes whatever connection it names.
  pub close_conn_in_loop-once :
      (c : Conn) (id : ℕ) (w : World K A)
      → get w.0.conns c.fd ≡ some id
      → let (s', app') = close_conn_in_loop ctl h c w in
        ((j : ℕ) → get s'.conns j ≡ (if c.fd == j then none else get w.0.conns j))
        × (s'.closed ≡ w.0.closed ++ c.fd ∷ [])
        × (app' ≡ h.on_connection w.1 c.fd c.id false)
        × (close_conn_in_loop ctl h c (close_conn_in_loop ctl h c w) ≡ close_conn_in_loop ctl h c w)
  close_conn_in_loop-once c id w e =
      let k = close_known c id w e in
      let gone =
        λ (j : ℕ). ap (λ (t : World K A). get t.0.conns j) k ∙ get-erase w.0.conns c.fd j in
      (
        gone,
        ap (λ (t : World K A). t.0.closed) k,
        ap (λ (t : World K A). t.1) k,
        close_unknown c (close_conn_in_loop ctl h c w) (gone c.fd ∙ rw ((==_iff c.fd c.fd).1 refl)),
      )

-- A newer state of an object of the server.
pub record IsObject {K : Type 0} (s : Server K) (c : Conn) : Type 0 where
  pub old : Conn
  pub here : get s.objects c.id ≡ some old
  pub same_fd : c.fd ≡ old.fd

module _ {K : Type 0} where
  stored-IsObject : (s : Server K) (p : Poller K) (c : Conn) → IsObject (store s p c) c
  stored-IsObject s p c = record {
    old = c;
    here = get-insert s.objects c.id c.id c ∙ rw ((==_iff c.id c.id).1 refl);
    same_fd = refl;
  }

module _ {K : Type 0} {U : ℕ → Type 0} {n : ℕ} where
  pub store-IsKept :
      (s : Server K) (p : Poller K) (c : Conn)
      → IsKept U n s
      → IsObject s c
      → IsKept U n (store s p c)
  store-IsKept s p c v o = record {
    keyed = λ i d e. key i d (Bool-cases (c.id == i)) (sym (get-insert s.objects c.id i c) ∙ e);
    named = λ fd i e. name fd i (v.named fd i e) (Bool-cases (c.id == i));
    unused = λ i u. get-insert s.objects c.id i c ∙ free i u (Bool-cases (c.id == i));
    counter = v.counter;
  }
    where
      key :
          (i : ℕ) (d : Conn)
          → ((c.id == i) ≡ true) ⊎ ((c.id == i) ≡ false)
          → (if c.id == i then some c else get s.objects i) ≡ some d
          → d.id ≡ i
      key i d (inl t) e =
          ap (λ (x : Conn). x.id) (sym (some-injective c d (rw t at e))) ∙ (==_iff _ _).0 t
      key i d (inr t) e = v.keyed i d (rw t at e)

      free :
          (i : ℕ)
          → U i
          → ((c.id == i) ≡ true) ⊎ ((c.id == i) ≡ false)
          → (if c.id == i then some c else get s.objects i) ≡ none
      free i u (inl t) =
          absurd (cc (sym (v.unused i u) ∙ ap (get s.objects) (sym ((==_iff _ _).0 t)) ∙ o.here))
      free i u (inr t) = rw t (v.unused i u)

      name :
          (fd i : ℕ)
          → (d : Conn) × (get s.objects i ≡ some d) × (d.fd ≡ fd)
          → ((c.id == i) ≡ true) ⊎ ((c.id == i) ≡ false)
          → (d : Conn) × (get (insert s.objects c.id c) i ≡ some d) × (d.fd ≡ fd)
      name fd i (d, g, f) (inl t) =
          let same : o.old ≡ d =
            some-injective o.old d (sym o.here ∙ ap (get s.objects) ((==_iff _ _).0 t) ∙ g) in
          (c, get-insert s.objects c.id i c ∙ rw t, o.same_fd ∙ ap (λ (x : Conn). x.fd) same ∙ f)
      name fd i (d, g, f) (inr t) = (d, get-insert s.objects c.id i c ∙ rw t g, f)

  erase-IsKept :
      (s : Server K) (fd : ℕ) (closed : List ℕ)
      → IsKept U n s
      → IsKept U n (record s { conns = erase s.conns fd; closed = closed })
  erase-IsKept s fd closed v = record {
    keyed = v.keyed;
    unused = v.unused;
    counter = v.counter;
    named =
        λ j i e. v.named j i (still j i (Bool-cases (fd == j)) (sym (get-erase s.conns fd j) ∙ e));
  }
    where
      still :
          (j i : ℕ)
          → ((fd == j) ≡ true) ⊎ ((fd == j) ≡ false)
          → (if fd == j then none else get s.conns j) ≡ some i
          → get s.conns j ≡ some i
      still j i (inl t) e = absurd (cc (rw t at e))
      still j i (inr t) e = rw t at e

  -- The object's id is used then.
  pub enter-IsKept :
      (V : ℕ → Type 0) (s : Server K) (fd : ℕ) (c : Conn) (p : Poller K) (count : ℕ)
      → IsKept U n s
      → U c.id
      → ((i : ℕ) → V i → U i × (c.id ≢ i))
      → c.fd ≡ fd
      → IsKept V n (record (store s p c) { conns = insert s.conns fd c.id; conn_count = count })
  enter-IsKept V s fd c p count v u left is = record {
    keyed = λ i d e. key i d (Bool-cases (c.id == i)) (sym (get-insert s.objects c.id i c) ∙ e);
    named = λ j i e. name j i (Bool-cases (fd == j)) (sym (get-insert s.conns fd j c.id) ∙ e);
    unused = λ i w. get-insert s.objects c.id i c ∙ free i (left i w) (Bool-cases (c.id == i));
    counter = v.counter;
  }
    where
      key :
          (i : ℕ) (d : Conn)
          → ((c.id == i) ≡ true) ⊎ ((c.id == i) ≡ false)
          → (if c.id == i then some c else get s.objects i) ≡ some d
          → d.id ≡ i
      key i d (inl t) e =
          ap (λ (x : Conn). x.id) (sym (some-injective c d (rw t at e))) ∙ (==_iff _ _).0 t
      key i d (inr t) e = v.keyed i d (rw t at e)

      free :
          (i : ℕ)
          → U i × (c.id ≢ i)
          → ((c.id == i) ≡ true) ⊎ ((c.id == i) ≡ false)
          → (if c.id == i then some c else get s.objects i) ≡ none
      free i w (inl t) = absurd (w.1 ((==_iff _ _).0 t))
      free i w (inr t) = rw t (v.unused i w.0)

      other :
          (j i : ℕ)
          → (d : Conn) × (get s.objects i ≡ some d) × (d.fd ≡ j)
          → ((c.id == i) ≡ true) ⊎ ((c.id == i) ≡ false)
          → (d : Conn) × (get (insert s.objects c.id c) i ≡ some d) × (d.fd ≡ j)
      other j i (d, g, f) (inl t) =
          absurd (cc (sym (v.unused c.id u) ∙ ap (get s.objects) ((==_iff _ _).0 t) ∙ g))
      other j i (d, g, f) (inr t) = (d, get-insert s.objects c.id i c ∙ rw t g, f)

      name :
          (j i : ℕ)
          → ((fd == j) ≡ true) ⊎ ((fd == j) ≡ false)
          → (if fd == j then some c.id else get s.conns j) ≡ some i
          → (d : Conn) × (get (insert s.objects c.id c) i ≡ some d) × (d.fd ≡ j)
      name j i (inl t) e = (
        c,
        get-insert s.objects c.id i c ∙ rw ((==_iff c.id i).1 (some-injective c.id i (rw t at e))),
        is ∙ (==_iff fd j).0 t,
      )
      name j i (inr t) e = other j i (v.named j i (rw t at e)) (Bool-cases (c.id == i))

module _ {K A : Type 0} {U : ℕ → Type 0} {n : ℕ} (ctl : Ctl K) (h : Handlers A) where
  pub close_conn_in_loop-IsKept :
      (c : Conn) (w : World K A)
      → IsKept U n w.0
      → IsObject w.0 c
      → IsKept U n (close_conn_in_loop ctl h c w).0
  unfolding close_conn_in_loop
  close_conn_in_loop-IsKept c w v o = by_entry (get w.0.conns c.fd)
    where
      by_entry : (e : Option ℕ) → IsKept U n (close_at ctl h c e w).0
      by_entry none = v
      by_entry (some id) = erase-IsKept _ c.fd _ (
          store-IsKept w.0 _
            (record c { channel = (disable_all ctl (w.0.pollers c.owner_loop) c.channel).1 }) v
            (record { old = o.old; here = o.here; same_fd = o.same_fd }))

  pub flushed-IsKept :
      (o : Option (Flush K)) (c : Conn) (p : Poller K) (w w' : World K A)
      → IsKept U n w.0
      → IsObject w.0 c
      → ((f : Flush K) → o ≡ some f → Flushed (begin p c) f)
      → flushed ctl h o w ≡ some w'
      → IsKept U n w'.0
  flushed-IsKept none c p w w' v b r e = absurd (cc)
  flushed-IsKept (some f) c p w w' v b r e =
      let (fd, id, input) = (r f refl).same_conn in
      let fits : IsObject w.0 f.conn = record {
        old = b.old;
        here = ap (get w.0.objects) id ∙ b.here;
        same_fd = fd ∙ b.same_fd;
      } in
      let stored = store-IsKept w.0 f.poller f.conn v fits in
      subst (λ (t : World K A). IsKept U n t.0) (some-injective _ w' e)
        (elim (Bool-cases f.failed) [
          | inl bad ↦
              rw bad
                (close_conn_in_loop-IsKept f.conn _ stored (stored-IsObject w.0 f.poller f.conn))
          | inr good ↦ rw good stored
        ])

-- Fewer ids may be said to be unused.
pub fewer-IsKept :
    {K : Type 0} {U : ℕ → Type 0} {n : ℕ} (V : ℕ → Type 0) (s : Server K)
    → IsKept U n s
    → ((i : ℕ) → V i → U i)
    → IsKept V n s
fewer-IsKept V s v left = record {
  keyed = v.keyed;
  named = v.named;
  unused = λ i w. v.unused i (left i w);
  counter = v.counter;
}

module _ {K : Type 0} {s : Server K} where
  abbrev pub table_of : {U : ℕ → Type 0} {n : ℕ} → IsKept U n s → IsTable s
  table_of k = record { keyed = k.keyed; named = k.named }

  abbrev pub kept : IsTable s → IsKept (λ i. ⊥) s.next_conn_id s
  kept v = record { keyed = v.keyed; named = v.named; unused = λ i u. absurd u; counter = refl }
