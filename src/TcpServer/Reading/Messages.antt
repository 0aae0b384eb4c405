-- ===== src/TcpServer/Reading/Messages.antt =====
-- handleReadable hands the application what arrives, piece by piece.
use mathlib.Core.Option.{some-injective}
use mini_net.Prelude.{
  ℕ, ◌≡◌, inl, inr, refl, sym, ap, ◌∙◌, subst, List, [], ◌∷◌, ◌++◌, map, append_assoc, append-nil,
  Option, none, some, Bytes, if◌then◌else◌, Bool-cases, ==_iff, get, get-insert, nat_eq, length,
  take_all, drop_all, arith,
}
use mini_net.Buffer.{Buffer, read_fd, peek, retrieve, delivered}
use mini_net.Buffer.View.{contents, IsValid, length-contents}
use mini_net.Buffer.Refine.{peek_lem, retrieve-Refines}
use mini_net.Buffer.Io.{read_fd-Refines}
use mini_net.Channel.{Ctl}
use mini_net.TcpServer.Writing.{Conn, SendAnswer, is_empty}
use mini_net.TcpServer.Table.{IsTable}
use mini_net.TcpServer.Events.{found_object, message-IsTable, perform-IsTable, set_object-IsTable}
use mini_net.TcpServer.Reading.{
  ReadAnswer, got, nothing_yet, read_interrupted, read_broken, set_object, counted, retrieved,
  retrieve_object, received, perform, after_calls, message, handle_readable,
}
use mini_net.TcpServer.Reading.Quiet.{
  Logged, logged, log_message, Quiet, perform-Quiet, current, close_conn_in_loop-Quiet,
}
use mini_net.TcpServer.{Server, World, Handlers, close_conn_in_loop}

-- The pieces that the kernel hands over before it has no more, fails or reports the end.
abbrev pub pieces : List ReadAnswer → List Bytes
pieces [] = []
pieces (got bytes now answers ∷ reads) = if is_empty bytes then [] else bytes ∷ pieces reads
pieces (nothing_yet ∷ reads) = []
pieces (read_interrupted ∷ reads) = pieces reads
pieces (read_broken ∷ reads) = []

abbrev tagged : ℕ → List ReadAnswer → List (ℕ × Bytes)
tagged i reads = map (λ (bytes : Bytes). (i, bytes)) (pieces reads)

-- A buffer that has been emptied.
pub record IsIdle (b : Buffer) : Type 0 where
  pub valid : IsValid b
  pub nothing : contents b ≡ []

read_fd-IsIdle :
    (b : Buffer) (bytes : Bytes)
    → IsIdle b
    → let b' = read_fd b (delivered bytes) in
      (peek b' (length bytes) ≡ bytes) × IsIdle (retrieve b' (length bytes))
read_fd-IsIdle b bytes i =
    let (valid, has) = read_fd-Refines b (delivered bytes) i.valid in
    let b' = read_fd b (delivered bytes) in
    let all : contents b' ≡ bytes = has ∙ ap (λ (s : Bytes). s ++ bytes) i.nothing in
    let (left, cut) = retrieve-Refines b' (length bytes) valid in
    (
      peek_lem b' (length bytes) (omega (arith, ap length all, length-contents b' valid))
          ∙ rw all (take_all (length bytes) bytes (omega arith)),
      record { valid = left; nothing = cut ∙ rw all (drop_all (length bytes) bytes (omega arith)) },
    )

-- The connection with this id has been read to its last byte.
pub record IsRead {K : Type 0} (s : Server K) (i : ℕ) : Type 0 where
  pub conn : Conn
  pub here : get s.objects i ≡ some conn
  pub idle : IsIdle conn.input

module _ {K A : Type 0} (ctl : Ctl K) (h : Handlers A) where
  retrieve_object-IsRead :
      (n i : ℕ) (s : Server K) (d : Conn)
      → get s.objects i ≡ some d
      → d.id ≡ i
      → IsIdle (retrieve d.input n)
      → IsRead (retrieve_object n (get s.objects i) s) i
  retrieve_object-IsRead n i s d e is idle =
      subst (λ o. IsRead (retrieve_object n o s) i) (sym e)
        (record {
          conn = retrieved n d;
          here = get-insert s.objects d.id i (retrieved n d) ∙ rw ((==_iff d.id i).1 is);
          idle = idle;
        })

  -- What a message comes to: it is logged as it arrived, and its bytes are taken off the buffer.
  record Delivered (w w' : World K (Logged A)) (i : ℕ) (bytes : Bytes) : Type 0 where
    logs : w'.1.1 ≡ w.1.1 ++ (i, bytes) ∷ []
    is_read : IsRead w'.0 i

  performed-Delivered :
      (n i : ℕ) (bytes : Bytes) (c : Conn) (w v w' : World K (Logged A))
      (o : Option (World K (Logged A)))
      → get v.0.objects i ≡ some c
      → v.1.1 ≡ w.1.1 ++ (i, bytes) ∷ []
      → IsIdle (retrieve c.input n)
      → ((u : World K (Logged A)) → o ≡ some u → Quiet v u × IsTable u.0)
      → after_calls i n o ≡ some w'
      → Delivered w w' i bytes
  performed-Delivered n i bytes c w v w' none here logs idle r e = absurd (cc)
  performed-Delivered n i bytes c w v w' (some u) here logs idle r e =
      let (quiet, table) = r u refl in
      let (d, g, same) = quiet.same i c here in
      subst (λ (x : World K (Logged A)). Delivered w x i bytes) (some-injective _ w' e)
        (record {
          logs = quiet.log ∙ logs;
          is_read =
              retrieve_object-IsRead n i u.0 d g (table.keyed i d g)
                (subst (λ (b : Buffer). IsIdle (retrieve b n)) (sym same) idle);
        })

  message-Delivered :
      (bytes : Bytes) (now : ℕ) (answers : List (List SendAnswer)) (i : ℕ) (c : Conn)
      (w w' : World K (Logged A))
      → IsTable w.0
      → get w.0.objects i ≡ some c
      → IsIdle c.input
      → message ctl (logged h) bytes now answers c w ≡ some w'
      → Delivered w w' i bytes
  message-Delivered bytes now answers i c w w' v o idle e =
      let c' = received bytes now c in
      let (same_bytes, emptied) = read_fd-IsIdle c.input bytes idle in
      let is : c.id ≡ i = v.keyed i c o in
      let s : Server K = counted (length bytes) w.0 in
      let msg = peek c'.input (length bytes) in
      let told = log_message w.1 c.id msg (h.on_message w.1.0 c.fd c.id msg) in
      let start : World K (Logged A) = (set_object s c', told.0) in
      let set =
        set_object-IsTable s c' (record { keyed = v.keyed; named = v.named })
          (record { old = c; here = ap (get w.0.objects) is ∙ o; same_fd = refl }) in
      let table : IsTable start.0 = record { keyed = set.keyed; named = set.named } in
      performed-Delivered (length bytes) i bytes c' w start w'
        (perform ctl (logged h) now c.fd told.1 answers start)
        (get-insert w.0.objects c.id i c' ∙ rw ((==_iff c.id i).1 is))
        (ap (λ (j : ℕ). w.1.1 ++ (j, msg) ∷ []) is
          ∙ ap (λ (m : Bytes). w.1.1 ++ (i, m) ∷ []) same_bytes)
        emptied
        (λ u g. (
          perform-Quiet ctl h now c.fd told.1 answers start u table g,
          perform-IsTable ctl (logged h) now c.fd told.1 answers start u table g,
        ))
        (ap
            (λ (j : ℕ).
              after_calls j (length bytes) (perform ctl (logged h) now c.fd told.1 answers start))
            (sym is)
          ∙ e)

  close-logs :
      (i : ℕ) (c : Conn) (w w' : World K (Logged A))
      → IsTable w.0
      → get w.0.objects i ≡ some c
      → some (close_conn_in_loop ctl (logged h) c w) ≡ some w'
      → w'.1.1 ≡ w.1.1 ++ []
  close-logs i c w w' v o e =
      ap (λ (x : World K (Logged A)). x.1.1) (sym (some-injective _ w' e))
      ∙ (close_conn_in_loop-Quiet ctl h c w (current v i c o)).log
      ∙ sym (append-nil w.1.1)

  -- Whatever the application does with them, and whatever calls it makes, reading a connection that
  -- has no unread bytes hands it the pieces that the kernel hands over, each in one message of the
  -- connection's id, in order, none left out and none added.
  pub handle_readable-Delivers :
      (i : ℕ) (reads : List ReadAnswer) (w w' : World K (Logged A))
      → IsTable w.0
      → IsRead w.0 i
      → handle_readable ctl (logged h) i reads w ≡ some w'
      → w'.1.1 ≡ w.1.1 ++ map (λ (bytes : Bytes). (i, bytes)) (pieces reads)
  unfolding handle_readable
  handle_readable-Delivers i [] w w' v r e = absurd (cc)
  handle_readable-Delivers i (nothing_yet ∷ reads) w w' v r e =
      ap (λ (x : World K (Logged A)). x.1.1) (sym (some-injective w w' e)) ∙ sym (append-nil w.1.1)
  handle_readable-Delivers i (read_interrupted ∷ reads) w w' v r e =
      handle_readable-Delivers i reads w w' v r e
  handle_readable-Delivers i (read_broken ∷ reads) w w' v r e = close-logs i r.conn w w' v r.here (
      subst
        (λ o.
          elim o [ none ↦ some w | some c ↦ some (close_conn_in_loop ctl (logged h) c w) ]
          ≡ some w')
        r.here e)
  handle_readable-Delivers i (got bytes now answers ∷ reads) w w' v r e =
      elim (Bool-cases (is_empty bytes)) [
        | inl ends ↦
            rw ends (
              close-logs i r.conn w w' v r.here (rw ends at (subst (λ o. on o ≡ some w') r.here e)))
        | inr more ↦ rw more (
            after (message ctl (logged h) bytes now answers r.conn w) refl
              (handle_readable-Delivers i reads)
              (rw more at (subst (λ o. on o ≡ some w') r.here e)))
      ]
    where
      on : Option Conn → Option (World K (Logged A))
      on o = elim o [
        | none ↦ some w
        | some c ↦
            if is_empty bytes
            then some (close_conn_in_loop ctl (logged h) c w)
            else elim (message ctl (logged h) bytes now answers c w) [
              | none ↦ none
              | some u ↦ handle_readable ctl (logged h) i reads u
            ]
      ]

      after :
          (o : Option (World K (Logged A)))
          → message ctl (logged h) bytes now answers r.conn w ≡ o
          → ((u u' : World K (Logged A))
              → IsTable u.0
              → IsRead u.0 i
              → handle_readable ctl (logged h) i reads u ≡ some u'
              → u'.1.1 ≡ u.1.1 ++ tagged i reads)
          → elim o [ none ↦ none | some u ↦ handle_readable ctl (logged h) i reads u ] ≡ some w'
          → w'.1.1 ≡ w.1.1 ++ (i, bytes) ∷ tagged i reads
      after none g rest k = absurd (cc)
      after (some u) g rest k =
          let d = message-Delivered bytes now answers i r.conn w u v r.here r.idle g in
          let table =
            message-IsTable ctl (logged h) bytes now answers r.conn w u v
              (found_object v i r.conn r.here) g in
          rest u w' table d.is_read k
          ∙ ap (λ (l : List (ℕ × Bytes)). l ++ tagged i reads) d.logs
          ∙ append_assoc w.1.1 ((i, bytes) ∷ []) (tagged i reads)
