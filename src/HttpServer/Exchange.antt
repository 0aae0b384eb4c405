-- ===== src/HttpServer/Exchange.antt =====
-- What a message brings about, described by what the parser and the handler say: the requests in it are
-- answered in order, until the input runs out, is refused, or a side wants to close.
use mini_net.Prelude.{
  ◌≡◌, refl, sym, ap, ◌∙◌, Bool, true, false, ◌&&◌, List, [], ◌∷◌, ◌++◌, append_assoc, append-nil,
  Option, some, Bool-cases, inl, inr,
}
use mini_net.Buffer.{Buffer}
use mini_net.HttpTypes.{HttpResponse, new_response, serialize}
use mini_net.HttpParser.{Parser, reset, parse, Result, need_more, complete, error, Error}
use mini_net.TcpServer.{Output, send, shutdown}
use mini_net.HttpServer.{
  Conn, Turn, Handler, error_response, run_handler, answer, handle_error, react,
}

module _ {S : Type 0} (handler : Option (Handler S)) where
  -- From a connection and a handler's state to those afterwards, with what is sent.
  pub data Exchange : Conn → S → Conn → S → List Output → Type 0 where
    waits :
        {c : Conn} {app : S} {p : Parser} {b : Buffer}
        → parse c.parser c.input ≡ some (need_more, p, b)
        → Exchange c app (record { input = b; parser = p }) app []
    refuses :
        {c : Conn} {app : S} {e : Error} {p : Parser} {b : Buffer}
        → parse c.parser c.input ≡ some (error e, p, b)
        → Exchange c app
            (record { input = b; parser = p })
            app
            (send (serialize (error_response e)) ∷ shutdown ∷ [])
    closes :
        {c : Conn} {app app' : S} {p : Parser} {b : Buffer} {r : HttpResponse}
        → parse c.parser c.input ≡ some (complete, p, b)
        → run_handler handler app p.req (record new_response { keep_alive = p.req.keep_alive })
          ≡ (app', r)
        → (p.req.keep_alive && r.keep_alive) ≡ false
        → Exchange c app
            (record { input = b; parser = p })
            app'
            (send (serialize r) ∷ shutdown ∷ [])
    goes_on :
        {c c' : Conn} {app app' last : S} {p : Parser} {b : Buffer} {r : HttpResponse}
        {outputs : List Output}
        → parse c.parser c.input ≡ some (complete, p, b)
        → run_handler handler app p.req (record new_response { keep_alive = p.req.keep_alive })
          ≡ (app', r)
        → (p.req.keep_alive && r.keep_alive) ≡ true
        → Exchange (record { input = b; parser = reset p }) app' c' last outputs
        → Exchange c app c' last (send (serialize r) ∷ outputs)

  -- The turn ends here, with these outputs behind the old ones.
  abbrev pub Exchanged : Turn S → Turn S → Type 0
  Exchanged t t' =
      (outputs : List Output) × (t'.outputs ≡ t.outputs ++ outputs)
      × Exchange t.conn t.app t'.conn t'.app outputs

  -- A round, whether it is the last one or not.
  abbrev pub RoundOf : Turn S → Bool → Turn S → Type 0
  RoundOf t false t' = Exchanged t t'
  RoundOf t true t' =
      (o : Output) × (t'.outputs ≡ t.outputs ++ o ∷ [])
      × ((c : Conn) (app : S) (outputs : List Output)
          → Exchange t'.conn t'.app c app outputs
          → Exchange t.conn t.app c app (o ∷ outputs))

  answer-RoundOf :
      (t : Turn S) (p : Parser) (b : Buffer) (x : S × HttpResponse)
      → parse t.conn.parser t.conn.input ≡ some (complete, p, b)
      → run_handler handler t.app p.req (record new_response { keep_alive = p.req.keep_alive }) ≡ x
      → let (on, t') = answer p.req (record t { conn = record { input = b; parser = p } }) x in
        RoundOf t on t'
  unfolding answer
  answer-RoundOf t p b (app, r) e h = elim (Bool-cases (p.req.keep_alive && r.keep_alive)) [
    | inl stays ↦ rw stays (send (serialize r), refl, λ c last outputs rest. goes_on e h stays rest)
    | inr ends ↦ rw ends (
      send (serialize r) ∷ shutdown ∷ [],
      append_assoc t.outputs (send (serialize r) ∷ []) (shutdown ∷ []),
      closes e h ends,
    )
  ]

  pub react-RoundOf :
      (t : Turn S) (result : Result) (p : Parser) (b : Buffer)
      → parse t.conn.parser t.conn.input ≡ some (result, p, b)
      → let (on, t') =
          react handler result (record t { conn = record { input = b; parser = p } }) in
        RoundOf t on t'
  unfolding react
  react-RoundOf t need_more p b e = ([], sym (append-nil t.outputs), waits e)
  react-RoundOf t (error x) p b e =
      unfold handle_error in (send (serialize (error_response x)) ∷ shutdown ∷ [], refl, refuses e)
  react-RoundOf t complete p b e = answer-RoundOf t p b _ e refl

  -- What comes after a round that goes on.
  pub then_Exchanged :
      (t t' last : Turn S) → RoundOf t true t' → Exchanged t' last → Exchanged t last
  then_Exchanged t t' last (o, is, before) (outputs, are, rest) = (
    o ∷ outputs,
    are ∙ ap (λ (l : List Output). l ++ outputs) is ∙ append_assoc t.outputs (o ∷ []) outputs,
    before last.conn last.app outputs rest,
  )
